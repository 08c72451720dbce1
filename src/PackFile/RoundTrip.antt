-- ===== src/PackFile/RoundTrip.antt =====
-- A pack header that is written and read again, and its size.
use rustic_core.Base.{
  ℕ, ◌≡◌, refl, Option, ◌<◌, List, some, ◌^◌, ◌++◌, none, ◌∷◌, length, [], arith, All, ok, suc,
  sum_by, ◌+◌, subst, ◌∙◌, zero, ap, length-append,
}
use mathlib.Core.List.{append_assoc}
use rustic_core.Base.Word.{u32_mod, add_u32}
use rustic_core.Blob.{BlobType, data_blob, tree_blob}
use rustic_core.PackFile.{
  IndexBlob, HeaderEntry, from_blob, read_entry, write_entry, entry, entry_of, read_u32, read_id,
  data_entry, into_blob, entry_length, from_entries, EntryRead, be_bytes, le_bytes, tree_entry,
  non_zero, to_binary, comp_data, comp_tree, from_binary, header_size_from, header_size,
  pack_size_from, pack_size, comp_overhead, length_len, read_be,
}
use rustic_core.PackFile.Bytes.{
  read_le-le_bytes, be_bytes-append, read_be-be_bytes, length-le_bytes, length-be_bytes,
}

-- The numbers of an entry fit into their fields, and a compressed blob is not empty.
abbrev pub Fits : Option ℕ → Type 0
Fits none = Unit
Fits (some n) = (0 < n) × (n < u32_mod)

pub record IsBlob (b : IndexBlob) : Type 0 where
  pub id : b.id < 256 ^ 32
  pub length : b.location.length < u32_mod
  pub uncompressed : Fits b.location.uncompressed_length

read_u32-le_bytes :
    (k : ℕ → List ℕ → EntryRead) (n : ℕ) (rest : List ℕ)
    → n < u32_mod
    → read_u32 k (le_bytes 4 n ++ rest) ≡ k n rest
unfolding read_u32
read_u32-le_bytes k n rest h = rw (read_le-le_bytes 4 n rest h, read_u32)

read_id-some :
    (make : ℕ → HeaderEntry) (id : ℕ) (bs rest : List ℕ)
    → read_be 32 0 bs ≡ some (id, rest)
    → read_id make bs ≡ entry (make id) rest
unfolding read_id
read_id-some make id bs rest e = rw (e, read_id)

read_id-be_bytes :
    (make : ℕ → HeaderEntry) (id : ℕ) (rest : List ℕ)
    → id < 256 ^ 32
    → read_id make (be_bytes 32 id [] ++ rest) ≡ entry (make id) rest
read_id-be_bytes make id rest h =
    read_id-some make id (be_bytes 32 id [] ++ rest) rest
      (ap (read_be 32 0) (be_bytes-append 32 id [] rest) ∙ read_be-be_bytes 32 id rest h)

-- One length and an id, and two lengths and an id.
read_plain :
    (make : ℕ → ℕ → HeaderEntry) (len id : ℕ) (rest : List ℕ)
    → len < u32_mod
    → id < 256 ^ 32
    → read_u32 (λ l. read_id (make l)) ((le_bytes 4 len ++ be_bytes 32 id []) ++ rest)
      ≡ entry (make len id) rest
read_plain make len id rest h k =
    rw (append_assoc (le_bytes 4 len), read_u32-le_bytes (λ l. read_id (make l)) len _ h)
      (read_id-be_bytes (make len) id rest k)

read_comp :
    (make : ℕ → ℕ → ℕ → HeaderEntry) (len n id : ℕ) (rest : List ℕ)
    → len < u32_mod
    → n < u32_mod
    → id < 256 ^ 32
    → read_u32
        (λ l. read_u32 (λ m. read_id (make l m)))
        ((le_bytes 4 len ++ (le_bytes 4 n ++ be_bytes 32 id [])) ++ rest)
      ≡ entry (make len n id) rest
read_comp make len n id rest h g k =
    rw
      (
        append_assoc (le_bytes 4 len),
        read_u32-le_bytes (λ l. read_u32 (λ m. read_id (make l m))) len _ h,
      )
      (read_plain (make len) n id rest g k)

read_entry-entry_of :
    (u : Option ℕ) (t : BlobType) (len id : ℕ) (rest : List ℕ)
    → Fits u
    → len < u32_mod
    → id < 256 ^ 32
    → read_entry (write_entry (entry_of u t len id) ++ rest) ≡ entry (entry_of u t len id) rest
unfolding read_entry write_entry entry_of
read_entry-entry_of none data_blob len id rest f h k = read_plain data_entry len id rest h k
read_entry-entry_of none tree_blob len id rest f h k = read_plain tree_entry len id rest h k
read_entry-entry_of (some n) data_blob len id rest f h k = read_comp comp_data len n id rest h f.1 k
read_entry-entry_of (some n) tree_blob len id rest f h k = read_comp comp_tree len n id rest h f.1 k

lengths_plain : (len id : ℕ) → suc (length (le_bytes 4 len ++ be_bytes 32 id [])) ≡ 37
lengths_plain len id = omega (
  arith,
  length-append (le_bytes 4 len) (be_bytes 32 id []),
  length-le_bytes 4 len,
  length-be_bytes 32 id [],
)

lengths_comp :
    (len n id : ℕ) → suc (length (le_bytes 4 len ++ (le_bytes 4 n ++ be_bytes 32 id []))) ≡ 41
lengths_comp len n id = omega (
  arith,
  length-append (le_bytes 4 len) (le_bytes 4 n ++ be_bytes 32 id []),
  length-le_bytes 4 len,
  lengths_plain n id,
)

-- An entry is put back into the location it was made from.
into_blob-from_blob : (b : IndexBlob) → IsBlob b → into_blob (from_blob b) b.location.offset ≡ b
unfolding into_blob from_blob entry_of non_zero
into_blob-from_blob b v = ground arith

-- The blobs lie in the pack one after another, from `offset` on.
abbrev pub IsLaidOut : ℕ → List IndexBlob → Type 0
IsLaidOut offset [] = Unit
IsLaidOut offset (b ∷ bs) =
    (b.location.offset ≡ offset) × IsLaidOut (add_u32 offset b.location.length) bs

pub length-write_entry : (e : HeaderEntry) → length (write_entry e) ≡ entry_length e
unfolding write_entry entry_length
length-write_entry (data_entry len id) = lengths_plain len id
length-write_entry (tree_entry len id) = lengths_plain len id
length-write_entry (comp_data len n id) = lengths_comp len n id
length-write_entry (comp_tree len n id) = lengths_comp len n id

read_entry-write_entry :
    (b : IndexBlob) (rest : List ℕ)
    → IsBlob b
    → read_entry (write_entry (from_blob b) ++ rest) ≡ entry (from_blob b) rest
unfolding from_blob
read_entry-write_entry b rest v =
    read_entry-entry_of b.location.uncompressed_length b.tpe b.location.length b.id rest
      v.uncompressed v.length v.id

entry_length-pos : (e : HeaderEntry) → 0 < entry_length e
unfolding entry_length
entry_length-pos e = ground arith

from_entries-to_binary :
    (fuel offset : ℕ) (bs : List IndexBlob)
    → All IsBlob bs
    → IsLaidOut offset bs
    → length (to_binary bs) < fuel
    → from_entries fuel offset (to_binary bs) ≡ ok bs
unfolding from_entries to_binary
from_entries-to_binary zero offset bs v l h = elim h [ ]
from_entries-to_binary (suc fuel) offset [] v l h = unfold read_entry in refl
from_entries-to_binary (suc fuel) offset (b ∷ bs) v l h =
    let e = from_blob b in
    let n = length-append (write_entry e) (to_binary bs) in
    let back : into_blob e offset ≡ b =
      subst (λ o. into_blob e o ≡ b) l.0 (into_blob-from_blob b v.0) in
    let rest =
      from_entries-to_binary fuel (add_u32 offset b.location.length) bs v.1 l.1
        (omega (arith, n, length-write_entry e, entry_length-pos e)) in
    rw (read_entry-write_entry b (to_binary bs) v.0, from_entries) (rw (back, rest))

-- A header that is written and read back gives the same blobs, if they lie in the pack one after
-- another from its start and their numbers fit into their fields.
pub from_binary-to_binary :
    (bs : List IndexBlob) → All IsBlob bs → IsLaidOut 0 bs → from_binary (to_binary bs) ≡ ok bs
unfolding from_binary
from_binary-to_binary bs v l =
    from_entries-to_binary (suc (length (to_binary bs))) 0 bs v l (omega arith)

header_size_from_lem :
    (acc : ℕ) (bs : List IndexBlob)
    → acc + length (to_binary bs) < u32_mod
    → header_size_from acc bs ≡ acc + length (to_binary bs)
unfolding header_size_from to_binary
header_size_from_lem acc [] h = omega arith
header_size_from_lem acc (b ∷ bs) h =
    let n = length-append (write_entry (from_blob b)) (to_binary bs) in
    let k = length-write_entry (from_blob b) in
    header_size_from_lem (add_u32 acc (entry_length (from_blob b))) bs (omega (arith, n, k))
    ∙ omega (arith, n, k)

-- The computed header size is the length of the written header and the overhead of its encryption.
pub header_size-to_binary :
    (bs : List IndexBlob)
    → comp_overhead + length (to_binary bs) < u32_mod
    → header_size bs ≡ comp_overhead + length (to_binary bs)
unfolding header_size
header_size-to_binary bs h = header_size_from_lem comp_overhead bs h

pack_size_from_lem :
    (acc : ℕ) (bs : List IndexBlob)
    → acc + sum_by (λ b. b.location.length) bs + length (to_binary bs) < u32_mod
    → pack_size_from acc bs ≡ acc + sum_by (λ b. b.location.length) bs + length (to_binary bs)
unfolding pack_size_from to_binary
pack_size_from_lem acc [] h = omega arith
pack_size_from_lem acc (b ∷ bs) h =
    let n = length-append (write_entry (from_blob b)) (to_binary bs) in
    let k = length-write_entry (from_blob b) in
    pack_size_from_lem (add_u32 (add_u32 acc b.location.length) (entry_length (from_blob b))) bs
      (omega (arith, n, k))
    ∙ omega (arith, n, k)

-- The computed pack size is the length of the blobs, the encrypted header and the length field.
pub pack_size-to_binary :
    (bs : List IndexBlob)
    → sum_by (λ b. b.location.length) bs + (comp_overhead + length (to_binary bs)) + length_len
      < u32_mod
    → pack_size bs
      ≡ sum_by (λ b. b.location.length) bs + (comp_overhead + length (to_binary bs)) + length_len
unfolding pack_size
pack_size-to_binary bs h =
    pack_size_from_lem (comp_overhead + length_len) bs (omega arith) ∙ omega arith
