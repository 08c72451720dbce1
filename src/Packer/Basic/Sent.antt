-- ===== src/Packer/Basic/Sent.antt =====
-- The packs that a packer of crates/core/src/blob/packer.rs sends, with their headers.
use mathlib.Core.List.{append_assoc}
use rustic_core.Base.{
  ℕ, ◌+◌, ◌*◌, ◌≡◌, ◌<◌, ◌≤◌, true, Option, List, [], ◌∷◌, ◌++◌, ltb, leb, length, length-append,
  take, drop, All, arith, Result, ok, err, if◌then◌else◌, unwrap_or, backend,
}
use rustic_core.Base.Word.{u32_mod, add_u32}
use rustic_core.PackFile.{
  IndexPack, IndexBlob, to_binary, write_entry, entry_length, from_blob, HeaderEntry, data_entry,
  tree_entry, comp_data, comp_tree, comp_overhead, length_len,
}
use rustic_core.PackFile.RoundTrip.{length-write_entry}
use rustic_core.PackFile.Bytes.{length-le_bytes}
use rustic_core.PackFile.FromFile.{from_file, from_file_lem, IsPackFile, length_to_binary}
use rustic_core.Packer.Sizer.{max_size}
use rustic_core.Packer.Basic.{BasicPacker, write_data, write_header}
use rustic_core.Blob.{BlobType}
use rustic_core.Packer.Basic.Pack.{max_blob, HasContent, IsPacked, All-HasContent-append}

entry_length-le : (e : HeaderEntry) → entry_length e ≤ 41
unfolding entry_length
entry_length-le (data_entry len id) = omega arith
entry_length-le (tree_entry len id) = omega arith
entry_length-le (comp_data len n id) = omega arith
entry_length-le (comp_tree len n id) = omega arith

length-to_binary-le : (bs : List IndexBlob) → length (to_binary bs) ≤ 41 * length bs
unfolding to_binary
length-to_binary-le [] = omega arith
length-to_binary-le (b ∷ bs) = omega (
  arith,
  length-append (write_entry (from_blob b)) (to_binary bs),
  length-write_entry (from_blob b),
  entry_length-le (from_blob b),
  length-to_binary-le bs,
)

-- The reads of a file that holds the bytes.
abbrev pub read_of : List ℕ → ℕ → ℕ → Result (List ℕ)
read_of file offset n =
    if leb (offset + n) (length file) then ok (take n (drop offset file)) else err backend

-- The packer after a header.
abbrev pub with_header : List ℕ → BasicPacker → BasicPacker
with_header header p = record p {
  file = (p.file ++ header) ++ length_to_binary (length header);
  size = add_u32 (add_u32 p.size (length header)) (length (length_to_binary (length header)));
}

pub write_header-with_header :
    (header : List ℕ) (p : BasicPacker)
    → length header < u32_mod
    → write_header header p ≡ ok (with_header header p)
unfolding write_header write_data
write_header-with_header header p h =
    let t : ltb (length header) u32_mod ≡ true = ground arith in
    let s : ltb (length (length_to_binary (length header))) u32_mod ≡ true =
      ground (arith, length-le_bytes 4 (length header)) in
    rw (t, s)

module _ (content : ℕ → List ℕ) (t : BlobType) (decrypt : List ℕ → Result (List ℕ)) where
  -- A pack whose header is found, with its blobs where the header says, which has at least one blob.
  pub record IsReadable (s : List ℕ × IndexPack) : Type 0 where
    pub header :
        (size_hint : Option ℕ)
        → unwrap_or size_hint 0 + length_len ≤ length s.0
        → from_file (read_of s.0) decrypt size_hint (length s.0) ≡ ok s.1.blobs
    pub contents : All (HasContent content s.0) s.1.blobs
    pub typed : All (λ b. b.tpe ≡ t) s.1.blobs
    pub filled : 1 ≤ length s.1.blobs

  module _ (p : BasicPacker) (cipher : List ℕ) (v : IsPacked content t p)
      (h : length p.file < max_size + max_blob) (k : p.count ≤ 10_000) (f : 1 ≤ p.count)
      (d : decrypt cipher ≡ ok (to_binary p.index.blobs))
      (n : length cipher ≡ comp_overhead + length (to_binary p.index.blobs)) where
    pub cipher_small : length cipher < u32_mod
    cipher_small = let c = v.counted in omega (arith, length-to_binary-le p.index.blobs)

    with_header-IsPackFile :
        IsPackFile (read_of (with_header cipher p).file) decrypt p.index.blobs p.file cipher
    with_header-IsPackFile =
        let c = v.counted in
        record {
          file = (with_header cipher p).file;
          is_file = append_assoc p.file cipher (length_to_binary (length cipher));
          reads = λ offset m l. ground arith;
          decrypts = d;
          overhead = n;
          body_length = v.sized;
          small = omega (
            arith,
            length-append (p.file ++ cipher) (length_to_binary (length cipher)),
            length-append p.file cipher,
            length-le_bytes 4 (length cipher),
            length-to_binary-le p.index.blobs,
          );
        }

    pub with_header-IsReadable : IsReadable ((with_header cipher p).file, p.index)
    unfolding with_header-IsPackFile
    with_header-IsReadable =
        let c = v.counted in
        record {
          header = λ hint l. from_file_lem with_header-IsPackFile hint l v.blobs v.laid_out;
          contents =
              All-HasContent-append content (p.file ++ cipher) (length_to_binary (length cipher))
                p.index.blobs
                (All-HasContent-append content p.file cipher p.index.blobs v.contents);
          typed = v.typed;
          filled = omega arith;
        }
