-- ===== src/Packer/Samples.antt =====
-- Blobs of one byte and an encryption that puts 32 bytes in front, for the tests of packer.rs.
use rustic_core.Base.{
  ℕ, ◌+◌, ◌≡◌, ◌<◌, none, List, [], ◌∷◌, ◌++◌, arith, refl, length, length-append, drop,
  drop-append, ap, Result, ok,
}
use rustic_core.PackFile.{comp_overhead}
use rustic_core.Packer.Basic.{RawBlob}
use rustic_core.Packer.Basic.Pack.{IsRaw}

abbrev nonce : List ℕ
nonce =
    0 ∷ 0 ∷ 0 ∷ 0 ∷ 0 ∷ 0 ∷ 0 ∷ 0 ∷ 0 ∷ 0 ∷ 0 ∷ 0 ∷ 0 ∷ 0 ∷ 0 ∷ 0 ∷ 0 ∷ 0 ∷ 0 ∷ 0 ∷ 0 ∷ 0 ∷ 0 ∷ 0
    ∷ 0 ∷ 0 ∷ 0 ∷ 0 ∷ 0 ∷ 0 ∷ 0 ∷ 0 ∷ []

abbrev pub encrypt : List ℕ → Result (List ℕ)
encrypt plain = ok (nonce ++ plain)

abbrev pub decrypt : List ℕ → Result (List ℕ)
decrypt cipher = ok (drop 32 cipher)

pub encrypts :
    (plain : List ℕ)
    → (cipher : List ℕ) × (encrypt plain ≡ ok cipher)
      × (decrypt cipher ≡ ok plain)
      × (length cipher ≡ comp_overhead + length plain)
encrypts plain = (
  nonce ++ plain,
  refl,
  ap ok (drop-append 32 nonce plain (omega arith)),
  omega (arith, length-append nonce plain),
)

abbrev pub root : ℕ → ℕ
root n = 0

-- Blob 1 has the byte 11, and so on.
abbrev pub content : ℕ → List ℕ
content id = (id + 10) ∷ []

abbrev pub raw : ℕ → RawBlob
raw id = record {
  bytes = (id + 10) ∷ [];
  id = id;
  data_len = 1;
  uncompressed_length = none;
  now = 0;
  later = 0;
}

pub raw-IsRaw : (id : ℕ) → id < 3 → IsRaw content (raw id)
raw-IsRaw id h = record { id = omega arith; uncompressed = tt; small = omega arith; bytes = refl }
