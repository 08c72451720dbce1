-- ===== src/PackFile/Tests.antt =====
-- Examples for pack headers.
use rustic_core.Base.{
  ◌+◌, ◌≡◌, none, some, List, [], ◌∷◌, arith, refl, All, ok, length, sum_by, ℕ, suc, Result, ◌++◌,
  take, drop, zero,
}
use rustic_core.Blob.{data_blob}
use rustic_core.PackFile.{
  IndexBlob, to_binary, from_binary, pack_size, comp_overhead, length_len, from_blob, write_entry,
}
use rustic_core.PackFile.Bytes.{le_bytes, be_bytes}
use rustic_core.PackFile.RoundTrip.{IsBlob, IsLaidOut, from_binary-to_binary, pack_size-to_binary}
use rustic_core.PackFile.FromFile.{from_file, IsPackFile, from_file_lem, length_to_binary}

abbrev two_blobs : List IndexBlob
two_blobs =
    record {
      id = 17;
      tpe = data_blob;
      location = record { offset = 0; length = 3; uncompressed_length = none };
    }
    ∷ record {
      id = 18;
      tpe = data_blob;
      location = record { offset = 3; length = 2; uncompressed_length = some 9 };
    }
    ∷ []

two_blobs-IsBlob : All IsBlob two_blobs
two_blobs-IsBlob = (
  record { id = omega arith; length = omega arith; uncompressed = tt },
  (
    record { id = omega arith; length = omega arith; uncompressed = (omega arith, omega arith) },
    tt,
  ),
)

two_blobs-IsLaidOut : IsLaidOut 0 two_blobs
two_blobs-IsLaidOut = (refl, (refl, tt))

from_binary-to_binary_example : from_binary (to_binary two_blobs) ≡ ok two_blobs
from_binary-to_binary_example = from_binary-to_binary two_blobs two_blobs-IsBlob two_blobs-IsLaidOut

length-two_blobs : length (to_binary two_blobs) ≡ 78
unfolding to_binary write_entry from_blob le_bytes be_bytes
length-two_blobs = refl

pack_size-to_binary_example :
    pack_size two_blobs
    ≡ sum_by (λ b. b.location.length) two_blobs
      + (comp_overhead + length (to_binary two_blobs))
      + length_len
pack_size-to_binary_example = pack_size-to_binary two_blobs (omega (arith, length-two_blobs))

abbrev body : List ℕ
body = 1 ∷ 2 ∷ 3 ∷ 4 ∷ 5 ∷ []

abbrev zeros : ℕ → List ℕ
zeros zero = []
zeros (suc n) = 0 ∷ zeros n

abbrev cipher : List ℕ
cipher = zeros 32 ++ to_binary two_blobs

abbrev file : List ℕ
file = body ++ (cipher ++ length_to_binary (length cipher))

abbrev read_partial : ℕ → ℕ → Result (List ℕ)
read_partial offset len = ok (take len (drop offset file))

-- The overhead is dropped.
abbrev decrypt : List ℕ → Result (List ℕ)
decrypt bytes = ok (drop 32 bytes)

length-file : length file ≡ 119
unfolding to_binary write_entry from_blob le_bytes be_bytes
length-file = refl

abbrev file-IsPackFile : IsPackFile read_partial decrypt two_blobs body cipher
file-IsPackFile = record {
  file = file;
  is_file = refl;
  reads = λ offset len h. refl;
  decrypts = refl;
  overhead = omega arith;
  body_length = refl;
  small = omega (arith, length-file);
}

from_file_lem_example : from_file read_partial decrypt (some 40) (length file) ≡ ok two_blobs
from_file_lem_example =
    from_file_lem file-IsPackFile (some 40) (omega (arith, length-file)) two_blobs-IsBlob
      two_blobs-IsLaidOut
