-- ===== src/Index/Answer.antt =====
-- The locations that `get_id` of crates/core/src/index.rs answers with.
use rustic_core.Base.{
  ℕ, ◌≡◌, true, some, List, [], ◌∷◌, ◌++◌, All, In, get_elem?, refl, sym, subst, inl, inr, Bool,
  ◌∙◌, Option, false, arith, any, ◌&&◌, ◌==◌, none, get_elem?-All,
}
use rustic_core.Blob.{BlobType, tree_blob, data_blob, at, put}
use rustic_core.PackFile.{IndexBlob, IndexPack, blob_type}
use rustic_core.Index.{
  SortedEntry, IndexType, full, data_ids, only_trees, EntriesVariants, no_entries, ids,
  full_entries, IndexCollector, first_entries, new, push_entry, push_entries, collect, entry_at,
  get_entry, get_id, extend, IndexEntry, sort_entries, into_index, into_type_index, sort_by,
}
use rustic_core.Index.Lookup.{
  is_type, Extends, keeps_ids, contains, extend-Extends, stands_in, collected-contains,
}
use rustic_core.Base.Search.{
  Found, key_less, binary_search_by_key, binary_search_by_key-Found, sort_by-IsSorted, All-sort_by,
}
use rustic_core.Base.Sorting.{any-sort_by}
use rustic_core.Index.Entry.{Stored, AllStored, pack_ids_of, Extends-IsStored, first-IsStored}

-- Locations of the type are kept.
abbrev pub keeps_locations : IndexType → BlobType → Bool
keeps_locations it tree_blob = true
keeps_locations full data_blob = true
keeps_locations it data_blob = false

abbrev is_full : EntriesVariants → Bool
is_full (full_entries es) = true
is_full _ = false

push_entries-is_full :
    (idx : ℕ) (e : EntriesVariants) (bs : List IndexBlob)
    → is_full (push_entries idx e bs) ≡ is_full e
unfolding push_entries push_entry
push_entries-is_full idx e [] = refl
push_entries-is_full idx no_entries (b ∷ bs) = push_entries-is_full idx no_entries bs
push_entries-is_full idx (ids is) (b ∷ bs) = push_entries-is_full idx (ids (is ++ b.id ∷ [])) bs
push_entries-is_full idx (full_entries es) (b ∷ bs) =
    push_entries-is_full idx (full_entries (es ++ _)) bs

put-is_full :
    (t s : BlobType) (p : IndexPack) (c : IndexCollector)
    → is_full (at (put c s (collect p (at c s))) t).entries ≡ is_full (at c t).entries
unfolding collect
put-is_full tree_blob tree_blob p c = push_entries-is_full _ c.tree.entries p.blobs
put-is_full data_blob data_blob p c = push_entries-is_full _ c.content.entries p.blobs
put-is_full tree_blob data_blob p c = refl
put-is_full data_blob tree_blob p c = refl

Extends-is_full :
    {rest : List IndexPack} {c c' : IndexCollector} (t : BlobType)
    → Extends rest c c'
    → is_full (at c' t).entries ≡ is_full (at c t).entries
Extends-is_full t Extends.done = refl
Extends-is_full t (Extends.step {p} {packs = rest} {c} {c'} l r) =
    Extends-is_full t r ∙ put-is_full t (blob_type p) p c

first-is_full :
    (it : IndexType) (t : BlobType) → is_full (at (new it) t).entries ≡ keeps_locations it t
unfolding new first_entries
first-is_full full tree_blob = refl
first-is_full full data_blob = refl
first-is_full data_ids tree_blob = refl
first-is_full data_ids data_blob = refl
first-is_full only_trees tree_blob = refl
first-is_full only_trees data_blob = refl

-- What may be answered for an id.
abbrev pub Answers : Bool → List IndexPack → BlobType → ℕ → Option IndexEntry → Type 0
Answers kept packs t id none = (kept && stands_in t id packs) ≡ false
Answers kept packs t id (some e) =
    (kept ≡ true)
    × (e.blob_type ≡ t)
    × ((p : IndexPack) × (b : IndexBlob) × In p packs
        × In b p.blobs
        × (is_type (blob_type p) t ≡ true)
        × (p.id ≡ e.pack)
        × (b.id ≡ id)
        × (b.location ≡ e.location))

module _ (packs : List IndexPack) (t : BlobType) (id : ℕ) (pack_ids : List ℕ) where
  Stored-Answers :
      (e : SortedEntry)
      → e.id ≡ id
      → Stored packs t pack_ids e
      → Answers true packs t id (entry_at t pack_ids e)
  unfolding entry_at
  Stored-Answers e i (p, b, m, n, y, g, j, l) =
      subst
        (λ (r : Option ℕ). Answers true packs t id (elim r [
          | none ↦ none
          | some pack ↦ some (record { blob_type = t; pack = pack; location = e.location })
        ]))
        (sym g) (refl, refl, (p, b, m, n, y, refl, j ∙ i, l))

  searched-Answers :
      (es : List SortedEntry) (r : Option ℕ)
      → Found (λ e. e.id) id es r
      → any (λ e. e.id == id) es ≡ stands_in t id packs
      → All (Stored packs t pack_ids) es
      → Answers true packs t id (elim r [
        | none ↦ none
        | some i ↦ elim (get_elem? es i) [ none ↦ none | some e ↦ entry_at t pack_ids e ]
      ])
  searched-Answers es r (inl (e, h)) k a = rw e (sym k ∙ h)
  searched-Answers es r (inr (i, e, q, g, h)) k a =
      rw q (rw g (Stored-Answers e h (get_elem?-All (Stored packs t pack_ids) es i e a g)))

  get_entry-Answers :
      (e : EntriesVariants) (kept : Bool)
      → is_full e ≡ kept
      → (kept ≡ true → contains e id ≡ stands_in t id packs)
      → AllStored packs t pack_ids e
      → Answers kept packs t id (get_entry t pack_ids id (sort_entries e))
  unfolding get_entry sort_entries
  get_entry-Answers no_entries kept f k h = ground arith
  get_entry-Answers (ids is) kept f k h = ground arith
  get_entry-Answers (full_entries es) kept f k h =
      let s = sort_by (key_less (λ (e : SortedEntry). e.id)) es in
      subst (λ x. Answers x packs t id (get_entry t pack_ids id (full_entries s))) f
        (searched-Answers s (binary_search_by_key (λ (e : SortedEntry). e.id) id s)
          (binary_search_by_key-Found (λ (e : SortedEntry). e.id) id s
            (sort_by-IsSorted (λ (e : SortedEntry). e.id) es))
          (any-sort_by (key_less (λ (e : SortedEntry). e.id)) (λ e. e.id == id) es ∙ k (sym f))
          (All-sort_by (λ (e : SortedEntry). e.id) (Stored packs t pack_ids)
            (key_less (λ (e : SortedEntry). e.id)) es h))

keeps_locations-keeps_ids :
    (it : IndexType) (t : BlobType) → keeps_locations it t ≡ true → keeps_ids it t ≡ true
keeps_locations-keeps_ids full tree_blob k = refl
keeps_locations-keeps_ids full data_blob k = refl
keeps_locations-keeps_ids data_ids tree_blob k = refl
keeps_locations-keeps_ids data_ids data_blob k = refl
keeps_locations-keeps_ids only_trees tree_blob k = refl
keeps_locations-keeps_ids only_trees data_blob k = absurd (ground arith)

into_index-get_id :
    (packs : List IndexPack) (it : IndexType) (c : IndexCollector) (t : BlobType) (id : ℕ)
    → Answers
        (keeps_locations it t)
        packs
        t
        id
        (get_entry t (pack_ids_of packs t (at c t)) id (sort_entries (at c t).entries))
    → Answers (keeps_locations it t) packs t id (get_id (into_index c) t id)
unfolding get_id into_index into_type_index
into_index-get_id packs it c tree_blob id a = a
into_index-get_id packs it c data_blob id a = a

-- If the packs can be collected, `get_id` of the index made of them finds an id exactly if a pack of the
-- blob type has it and the index type keeps the locations of that type. The answer names such a pack and
-- the location of the blob in it.
pub get_id-Answers :
    (it : IndexType) (packs : List IndexPack) (c : IndexCollector) (t : BlobType) (id : ℕ)
    → extend packs (new it) ≡ some c
    → Answers (keeps_locations it t) packs t id (get_id (into_index c) t id)
get_id-Answers it packs c t id e =
    let x = extend-Extends packs (new it) c e in
    let a =
      get_entry-Answers packs t id (pack_ids_of packs t (at c t)) (at c t).entries
        (keeps_locations it t) (Extends-is_full t x ∙ first-is_full it t)
        (λ k. collected-contains it packs c t id (keeps_locations-keeps_ids it t k) x)
        (Extends-IsStored packs t x (λ p m. m) (first-IsStored packs it t)) in
    into_index-get_id packs it c t id a
