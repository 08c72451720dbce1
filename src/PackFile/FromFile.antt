-- ===== src/PackFile/FromFile.antt =====
-- `PackHeader::from_file`: a header is read from a pack file through a guess of its size. The
-- backend's reads of the file and the decryption are parameters.
use rustic_core.Base.{
  ℕ, List, Option, Result, ok, err, unwrap_or, ◌>>=◌, drop, ◌>>◌, fail_if, ltb, internal, take, not,
  ◌==◌, none, if◌then◌else◌, some, leb, ◌≡◌, length, ◌+◌, arith, sym, ap, ◌≤◌, ◌++◌, length-append,
  drop-append, drop-drop, ◌∙◌, ◌-◌, All, take-append, sum_by, ◌<◌, take_all, Bool-cases,
  length-drop, inl, leb→le, drop-take, inr, refl, [], subst,
}
use mathlib.Core.List.{append-nil}
use rustic_core.PackFile.{
  IndexBlob, from_binary, header_size, pack_size, length_len, read_le, le_bytes, add_u32, to_binary,
  comp_overhead,
}
use rustic_core.Base.Word.{sub_u32, u32_mod}
use rustic_core.PackFile.RoundTrip.{
  IsBlob, IsLaidOut, header_size-to_binary, pack_size-to_binary, from_binary-to_binary,
}
use rustic_core.PackFile.Bytes.{length-le_bytes, read_le-le_bytes}

-- `PackHeaderLength::from_binary`
unfoldable pub length_from_binary : List ℕ → Result ℕ
length_from_binary bs = elim (read_le 4 bs) [ none ↦ err internal | some (n, rest) ↦ ok n ]

-- `PackHeaderLength::to_binary`
abbrev pub length_to_binary : ℕ → List ℕ
length_to_binary n = le_bytes 4 n

module _ (read_partial : ℕ → ℕ → Result (List ℕ)) (decrypt : List ℕ → Result (List ℕ)) where
  -- The encrypted header: the end of what was read, or a second read.
  pub header_part : List ℕ → ℕ → ℕ → ℕ → Result (List ℕ)
  header_part guessed size_guess size_real size_pack =
      if leb size_real size_guess
      then ok (drop (sub_u32 size_guess size_real) guessed)
      else read_partial (sub_u32 (sub_u32 size_pack size_real) length_len) size_real

  pub from_file : Option ℕ → ℕ → Result (List IndexBlob)
  from_file size_hint size_pack = do
    let size_guess = unwrap_or size_hint 0
    let read_size = add_u32 size_guess length_len
    read ← read_partial (sub_u32 size_pack read_size) read_size
    size_real ← length_from_binary (drop size_guess read)
    fail_if (ltb size_pack (add_u32 size_real length_len)) internal
    part ← header_part (take size_guess read) size_guess size_real size_pack
    plain ← decrypt part
    header ← from_binary plain
    fail_if (not (header_size header == size_real)) internal
    fail_if (not (pack_size header == size_pack)) internal
    ok header

-- The parts of a pack file that is written as the packer does: the blobs, the encrypted header and
-- its length. `decrypt` undoes what `encrypt` did, which adds `comp_overhead` bytes; the backend
-- returns the bytes that are asked for, if the file has them.
pub record IsPackFile (read_partial : ℕ → ℕ → Result (List ℕ)) (decrypt : List ℕ → Result (List ℕ))
    (blobs : List IndexBlob) (body cipher : List ℕ) : Type 0 where
  pub file : List ℕ
  pub is_file : file ≡ body ++ (cipher ++ length_to_binary (length cipher))
  pub reads :
      (offset len : ℕ)
      → offset + len ≤ length file
      → read_partial offset len ≡ ok (take len (drop offset file))
  pub decrypts : decrypt cipher ≡ ok (to_binary blobs)
  pub overhead : length cipher ≡ comp_overhead + length (to_binary blobs)
  pub body_length : length body ≡ sum_by (λ b. b.location.length) blobs
  pub small : length file < u32_mod

le_bytes_only : (n : ℕ) → n < u32_mod → read_le 4 (length_to_binary n) ≡ some (n, [])
le_bytes_only n h =
    subst (λ l. read_le 4 l ≡ some (n, [])) (append-nil (length_to_binary n))
      (read_le-le_bytes 4 n [] h)

module _ {read_partial : ℕ → ℕ → Result (List ℕ)} {decrypt : List ℕ → Result (List ℕ)}
    {blobs : List IndexBlob} {body cipher : List ℕ}
    (p : IsPackFile read_partial decrypt blobs body cipher) where
  file_length : length p.file ≡ length body + length cipher + 4
  file_length =
      let n = length cipher in
      let l = length_to_binary n in
      omega (
        arith,
        ap length p.is_file,
        length-append body (cipher ++ l),
        length-append cipher l,
        length-le_bytes 4 n,
      )

  -- The end of the file from the header on, and the length field.
  tail_part : drop (length body) p.file ≡ cipher ++ length_to_binary (length cipher)
  tail_part = rw p.is_file (drop-append (length body) body _ refl)

  length_part : drop (length body + length cipher) p.file ≡ length_to_binary (length cipher)
  length_part =
      sym (drop-drop (length cipher) (length body) _ p.file refl)
      ∙ ap (drop (length cipher)) tail_part
      ∙ drop-append (length cipher) cipher _ refl

  cipher_part : take (length cipher) (drop (length body) p.file) ≡ cipher
  cipher_part = ap (take (length cipher)) tail_part ∙ take-append (length cipher) cipher _ refl

  length_from_binary_lem :
      length_from_binary (length_to_binary (length cipher)) ≡ ok (length cipher)
  unfolding length_from_binary
  length_from_binary_lem =
      rw (le_bytes_only (length cipher) (omega (arith, file_length, p.small)), length_from_binary)

  module _ (guess : ℕ) (enough : guess + length_len ≤ length p.file) where
    -- What the first read returns.
    first : List ℕ
    first = drop (length p.file - (guess + length_len)) p.file

    first_read :
        read_partial (sub_u32 (length p.file) (add_u32 guess length_len)) (add_u32 guess length_len)
        ≡ ok first
    unfolding first
    first_read =
        let f = p.file in
        let small = p.small in
        let start = sub_u32 (length f) (add_u32 guess length_len) in
        let size = add_u32 guess length_len in
        let e : start ≡ length f - (guess + length_len) = omega arith in
        p.reads start size (omega arith)
        ∙ ap ok (take_all size (drop start f) (omega (arith, length-drop start f)))
        ∙ ap (λ n. ok (drop n f)) e

    first_length : drop guess first ≡ length_to_binary (length cipher)
    unfolding first
    first_length =
        drop-drop guess _ (length body + length cipher) p.file (omega (arith, file_length))
        ∙ length_part

    header_part_lem :
        header_part read_partial decrypt (take guess first) guess (length cipher) (length p.file)
        ≡ ok cipher
    unfolding header_part first
    header_part_lem =
        let f = p.file in
        let small = p.small in
        let n = length cipher in
        let again : ℕ = sub_u32 (sub_u32 (length f) n) length_len in
        let skip : ℕ = sub_u32 guess n in
        let k : ℕ = length f - (guess + length_len) in
        elim (Bool-cases (leb n guess)) [
          | inl c ↦
              let le : n ≤ guess = leb→le n guess c in
              rw c (
                ap ok (
                  drop-take skip n guess (drop k f) (omega (arith, file_length))
                  ∙ ap (take n) (drop-drop skip k (length body) f (omega (arith, file_length)))
                  ∙ cipher_part))
          | inr c ↦
              let e : again ≡ length body = omega (arith, file_length) in
              rw c (
                p.reads again n (omega (arith, file_length))
                ∙ ap (λ m. ok (take n (drop m f))) e
                ∙ ap ok cipher_part)
        ]

  -- Whatever the guess of the header's size is, if the file is at least as large: the header that
  -- was written is found.
  pub from_file_lem :
      (size_hint : Option ℕ)
      → unwrap_or size_hint 0 + length_len ≤ length p.file
      → All IsBlob blobs
      → IsLaidOut 0 blobs
      → from_file read_partial decrypt size_hint (length p.file) ≡ ok blobs
  unfolding from_file
  from_file_lem size_hint h v l =
      let g : ℕ = unwrap_or size_hint 0 in
      let small = p.small in
      let sizes = header_size-to_binary blobs (omega (arith, file_length, p.overhead)) in
      let packs =
        pack_size-to_binary blobs (omega (arith, file_length, p.overhead, p.body_length)) in
      ground (
        arith,
        first_read g h,
        first_length g h,
        length_from_binary_lem,
        header_part_lem g h,
        p.decrypts,
        from_binary-to_binary blobs v l,
        sizes,
        packs,
        p.overhead,
        p.body_length,
        file_length,
      )
