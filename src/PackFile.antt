-- ===== src/PackFile.antt =====
-- crates/core/src/repofile/packfile.rs and the packs of crates/core/src/repofile/indexfile.rs: the
-- header of a pack file. binrw writes an entry as its attributes say: the magic byte, then the
-- fields in order, numbers in little-endian order, an id as its 32 bytes. A read of an input that
-- ends before the entry does is an eof error; an unknown magic byte is another error.
pub mod Bytes
pub mod RoundTrip
pub mod FromFile
mod Tests
use rustic_core.Base.{
  ℕ, zero, suc, ◌+◌, Bool, Option, none, some, List, [], ◌∷◌, ◌++◌, length, Result, ok, err,
  internal, ◌==◌, is_some, if◌then◌else◌, unwrap_or, other, ◌>>=◌,
}
use rustic_core.Base.Word.{add_u32}
use rustic_core.Blob.{BlobType, tree_blob, data_blob, BlobLocation}
use Bytes.{le_bytes, read_le, be_bytes, read_be}

-- The overhead of compression and encryption.
abbrev pub comp_overhead : ℕ
comp_overhead = 32

-- The length of the length field.
abbrev pub length_len : ℕ
length_len = 4

abbrev pub entry_len : ℕ
entry_len = 37

abbrev pub entry_len_compressed : ℕ
entry_len_compressed = 41

-- `IndexBlob`
pub record IndexBlob : Type 0 where
  pub id : ℕ
  pub tpe : BlobType
  pub location : BlobLocation

-- `IndexPack`; a time is a number of seconds.
pub record IndexPack : Type 0 where
  pub id : ℕ
  pub blobs : List IndexBlob
  pub time : Option ℕ
  pub size : Option ℕ

-- `IndexFile`
pub record IndexFile : Type 0 where
  pub supersedes : Option (List ℕ)
  pub packs : List IndexPack
  pub packs_to_delete : List IndexPack

pub data HeaderEntry : Type 0 where
  data_entry tree_entry : ℕ → ℕ → HeaderEntry
  comp_data comp_tree : ℕ → ℕ → ℕ → HeaderEntry

entry_of : Option ℕ → BlobType → ℕ → ℕ → HeaderEntry
entry_of none data_blob len id = data_entry len id
entry_of none tree_blob len id = tree_entry len id
entry_of (some len_data) data_blob len id = comp_data len len_data id
entry_of (some len_data) tree_blob len id = comp_tree len len_data id

unfoldable pub from_blob : IndexBlob → HeaderEntry
unfolding entry_of
from_blob blob = entry_of blob.location.uncompressed_length blob.tpe blob.location.length blob.id

-- `HeaderEntry::length`
unfoldable pub entry_length : HeaderEntry → ℕ
entry_length (data_entry len id) = entry_len
entry_length (tree_entry len id) = entry_len
entry_length (comp_data len len_data id) = entry_len_compressed
entry_length (comp_tree len len_data id) = entry_len_compressed

-- `NonZeroU32::new`
unfoldable pub non_zero : ℕ → Option ℕ
non_zero n = if n == 0 then none else some n

unfoldable pub into_location : HeaderEntry → ℕ → BlobLocation
unfolding non_zero
into_location (data_entry len id) offset = record {
  offset = offset;
  length = len;
  uncompressed_length = none;
}
into_location (tree_entry len id) offset = record {
  offset = offset;
  length = len;
  uncompressed_length = none;
}
into_location (comp_data len len_data id) offset = record {
  offset = offset;
  length = len;
  uncompressed_length = non_zero len_data;
}
into_location (comp_tree len len_data id) offset = record {
  offset = offset;
  length = len;
  uncompressed_length = non_zero len_data;
}

unfoldable pub into_blob : HeaderEntry → ℕ → IndexBlob
unfolding into_location
into_blob (data_entry len id) offset = record {
  id = id;
  tpe = data_blob;
  location = into_location (data_entry len id) offset;
}
into_blob (tree_entry len id) offset = record {
  id = id;
  tpe = tree_blob;
  location = into_location (tree_entry len id) offset;
}
into_blob (comp_data len len_data id) offset = record {
  id = id;
  tpe = data_blob;
  location = into_location (comp_data len len_data id) offset;
}
into_blob (comp_tree len len_data id) offset = record {
  id = id;
  tpe = tree_blob;
  location = into_location (comp_tree len len_data id) offset;
}

-- `HeaderEntry::write`
unfoldable pub write_entry : HeaderEntry → List ℕ
write_entry (data_entry len id) = 0 ∷ le_bytes 4 len ++ be_bytes 32 id []
write_entry (tree_entry len id) = 1 ∷ le_bytes 4 len ++ be_bytes 32 id []
write_entry (comp_data len len_data id) =
    2 ∷ le_bytes 4 len ++ (le_bytes 4 len_data ++ be_bytes 32 id [])
write_entry (comp_tree len len_data id) =
    3 ∷ le_bytes 4 len ++ (le_bytes 4 len_data ++ be_bytes 32 id [])

-- What a read of an entry gives: the entry and the rest of the input, or one of two errors.
pub data EntryRead : Type 0 where
  entry : HeaderEntry → List ℕ → EntryRead
  eof bad_magic : EntryRead

read_id : (ℕ → HeaderEntry) → List ℕ → EntryRead
read_id make bs = elim (read_be 32 0 bs) [ none ↦ eof | some (id, rest) ↦ entry (make id) rest ]

read_u32 : (ℕ → List ℕ → EntryRead) → List ℕ → EntryRead
read_u32 k bs = elim (read_le 4 bs) [ none ↦ eof | some (n, rest) ↦ k n rest ]

-- `HeaderEntry::read`
pub read_entry : List ℕ → EntryRead
read_entry [] = eof
read_entry (magic ∷ bs) =
    if magic == 0
    then read_u32 (λ len. read_id (data_entry len)) bs
    else if magic == 1
    then read_u32 (λ len. read_id (tree_entry len)) bs
    else if magic == 2
    then read_u32 (λ len. read_u32 (λ len_data. read_id (comp_data len len_data))) bs
    else if magic == 3
    then read_u32 (λ len. read_u32 (λ len_data. read_id (comp_tree len len_data))) bs
    else bad_magic

header_size_from : ℕ → List IndexBlob → ℕ
header_size_from acc [] = acc
header_size_from acc (b ∷ bs) = header_size_from (add_u32 acc (entry_length (from_blob b))) bs

-- `PackHeaderRef::size`
unfoldable pub header_size : List IndexBlob → ℕ
unfolding header_size_from
header_size = header_size_from comp_overhead

pack_size_from : ℕ → List IndexBlob → ℕ
pack_size_from acc [] = acc
pack_size_from acc (b ∷ bs) =
    pack_size_from (add_u32 (add_u32 acc b.location.length) (entry_length (from_blob b))) bs

-- `PackHeaderRef::pack_size`
unfoldable pub pack_size : List IndexBlob → ℕ
unfolding pack_size_from
pack_size = pack_size_from (comp_overhead + length_len)

-- `PackHeaderRef::to_binary`
unfoldable pub to_binary : List IndexBlob → List ℕ
to_binary [] = []
to_binary (b ∷ bs) = write_entry (from_blob b) ++ to_binary bs

-- The loop of `PackHeader::from_binary`. Each round reads at least one byte.
from_entries : ℕ → ℕ → List ℕ → Result (List IndexBlob)
from_entries zero offset bs = err other
from_entries (suc fuel) offset bs = elim (read_entry bs) [
  | entry e rest ↦ do
    blobs ← from_entries fuel (add_u32 offset (into_blob e offset).location.length) rest
    ok (into_blob e offset ∷ blobs)
  | eof ↦ ok []
  | bad_magic ↦ err internal
]

-- `PackHeader::from_binary`
pub from_binary : List ℕ → Result (List IndexBlob)
from_binary bs = from_entries (suc (length bs)) 0 bs

-- `IndexPack::add`
unfoldable pub add : IndexPack → ℕ → BlobType → ℕ → ℕ → Option ℕ → IndexPack
add p id tpe offset length uncompressed_length = record p {
  blobs =
      p.blobs
      ++ record {
        id = id;
        tpe = tpe;
        location = record {
          offset = offset;
          length = length;
          uncompressed_length = uncompressed_length;
        };
      }
        ∷ [];
}

-- `IndexPack::pack_size`
unfoldable pub index_pack_size : IndexPack → ℕ
index_pack_size p = unwrap_or p.size (pack_size p.blobs)

unfoldable pub type_of_first : List IndexBlob → BlobType
type_of_first [] = data_blob
type_of_first (b ∷ bs) = b.tpe

-- `IndexPack::blob_type`
unfoldable pub blob_type : IndexPack → BlobType
unfolding type_of_first
blob_type p = type_of_first p.blobs
