-- ===== src/Index.antt =====
-- crates/core/src/index/binarysorted.rs: the index in memory. `IndexCollector` takes the packs of the
-- index files, `Index` answers for an id by a binary search. A pack beyond 2^32 packs of its type
-- panics in the source, which is `none`.
pub mod Lookup
pub mod Entry
pub mod Answer
pub mod Indexer
mod Tests
use rustic_core.Base.{
  ℕ, zero, suc, ◌+◌, Bool, true, false, not, ◌&&◌, Option, none, some, List, [], ◌∷◌, ◌++◌, map,
  ltb, length, is_some, get_elem?, if◌then◌else◌,
}
use rustic_core.Base.Word.{add_u64, u32_mod}
use rustic_core.Base.Sorting.{sort_by}
use rustic_core.Base.Search.{binary_search_by_key, key_less}
use rustic_core.Blob.{BlobType, BlobTypeMap, BlobLocation, tree_blob, data_blob, at, put, init}
use rustic_core.PackFile.{IndexBlob, IndexPack, index_pack_size, blob_type}

-- `SortedEntry`
pub record SortedEntry : Type 0 where
  pub id : ℕ
  pub pack_idx : ℕ
  pub location : BlobLocation

-- `IndexType`
pub data IndexType : Type 0 where
  full data_ids only_trees : IndexType

-- `EntriesVariants`
pub data EntriesVariants : Type 0 where
  no_entries : EntriesVariants
  ids : List ℕ → EntriesVariants
  full_entries : List SortedEntry → EntriesVariants

-- `TypeIndexCollector`
pub record TypeIndexCollector : Type 0 where
  pub packs : List (ℕ × ℕ)
  pub entries : EntriesVariants
  pub total_size : ℕ

-- `TypeIndex`
pub record TypeIndex : Type 0 where
  pub packs : List ℕ
  pub entries : EntriesVariants
  pub total_size : ℕ

-- `IndexCollector`
abbrev pub IndexCollector : Type 0
IndexCollector = BlobTypeMap TypeIndexCollector

-- `Index`
abbrev pub Index : Type 0
Index = BlobTypeMap TypeIndex

-- `IndexEntry` of index.rs
pub record IndexEntry : Type 0 where
  pub blob_type : BlobType
  pub pack : ℕ
  pub location : BlobLocation

first_entries : IndexType → BlobType → EntriesVariants
first_entries it tree_blob = full_entries []
first_entries full data_blob = full_entries []
first_entries data_ids data_blob = ids []
first_entries only_trees data_blob = no_entries

-- `IndexCollector::new`
unfoldable pub new : IndexType → IndexCollector
unfolding first_entries
new it = init (λ t. record { packs = []; entries = first_entries it t; total_size = 0 })

-- `IndexCollector::tree_packs`
unfoldable pub tree_packs : IndexCollector → List (ℕ × ℕ)
tree_packs c = c.tree.packs

push_entry : ℕ → EntriesVariants → IndexBlob → EntriesVariants
push_entry idx no_entries b = no_entries
push_entry idx (ids is) b = ids (is ++ b.id ∷ [])
push_entry idx (full_entries es) b =
    full_entries (es ++ record { id = b.id; pack_idx = idx; location = b.location } ∷ [])

-- The loop over the blobs of a pack.
push_entries : ℕ → EntriesVariants → List IndexBlob → EntriesVariants
unfolding push_entry
push_entries idx e [] = e
push_entries idx e (b ∷ blobs) = push_entries idx (push_entry idx e b) blobs

pub collect : IndexPack → TypeIndexCollector → TypeIndexCollector
unfolding push_entries
collect p tc = record {
  packs = tc.packs ++ (p.id, index_pack_size p) ∷ [];
  entries = push_entries (length tc.packs) tc.entries p.blobs;
  total_size = add_u64 tc.total_size (index_pack_size p);
}

extend_pack : IndexPack → IndexCollector → Option IndexCollector
unfolding collect
extend_pack p c =
    let t = blob_type p in
    if ltb (length (at c t).packs) u32_mod then some (put c t (collect p (at c t))) else none

-- `IndexCollector::extend`
unfoldable pub extend : List IndexPack → IndexCollector → Option IndexCollector
unfolding extend_pack
extend [] c = some c
extend (p ∷ packs) c = elim (extend_pack p c) [ none ↦ none | some c' ↦ extend packs c' ]

-- The ids are sorted; equal elements keep their order.
sort_entries : EntriesVariants → EntriesVariants
sort_entries no_entries = no_entries
sort_entries (ids is) = ids (sort_by (key_less (λ i. i)) is)
sort_entries (full_entries es) = full_entries (sort_by (key_less (λ e. e.id)) es)

into_type_index : TypeIndexCollector → TypeIndex
unfolding sort_entries
into_type_index tc = record {
  packs = map (λ p. p.0) tc.packs;
  entries = sort_entries tc.entries;
  total_size = tc.total_size;
}

-- `IndexCollector::into_index`
unfoldable pub into_index : IndexCollector → Index
unfolding into_type_index
into_index c = init (λ t. into_type_index (at c t))

-- `Index::drop_data`
unfoldable pub drop_data : Index → Index
drop_data index = record index {
  content = record { packs = []; entries = no_entries; total_size = 0 };
}

entry_at : BlobType → List ℕ → SortedEntry → Option IndexEntry
entry_at t packs e = elim (get_elem? packs e.pack_idx) [
  | none ↦ none
  | some pack ↦ some (record { blob_type = t; pack = pack; location = e.location })
]

get_entry : BlobType → List ℕ → ℕ → EntriesVariants → Option IndexEntry
unfolding entry_at
get_entry t packs id no_entries = none
get_entry t packs id (ids is) = none
get_entry t packs id (full_entries es) = elim (binary_search_by_key (λ e. e.id) id es) [
  | none ↦ none
  | some i ↦ elim (get_elem? es i) [ none ↦ none | some e ↦ entry_at t packs e ]
]

-- `Index::get_id`. Where the number of an entry named no pack, the source would panic.
unfoldable pub get_id : Index → BlobType → ℕ → Option IndexEntry
unfolding get_entry
get_id index t id = get_entry t (at index t).packs id (at index t).entries

has_entry : ℕ → EntriesVariants → Bool
has_entry id no_entries = false
has_entry id (ids is) = is_some (binary_search_by_key (λ i. i) id is)
has_entry id (full_entries es) = is_some (binary_search_by_key (λ e. e.id) id es)

-- `Index::has`
unfoldable pub has : Index → BlobType → ℕ → Bool
unfolding has_entry
has index t id = has_entry id (at index t).entries

-- `Index::total_size`
unfoldable pub total_size : Index → BlobType → ℕ
total_size index t = (at index t).total_size
