-- ===== src/Index/Entry.antt =====
-- The entries of the sorted index of crates/core/src/index/binarysorted.rs, and the packs they come from.
use rustic_core.Base.{
  ℕ, ◌≡◌, true, some, List, [], ◌∷◌, ◌++◌, All, All-append, All-impl, In, get_elem?,
  get_elem?-append_left, get_elem?-append_last, length, length-map, map, refl, sym, subst, inl, inr,
}
use mathlib.Core.List.{map-append}
use rustic_core.Blob.{BlobType, tree_blob, data_blob, at, put}
use rustic_core.PackFile.{IndexBlob, IndexPack, blob_type}
use rustic_core.Index.{
  SortedEntry, IndexType, full, data_ids, only_trees, EntriesVariants, no_entries, ids,
  full_entries, IndexCollector, first_entries, new, push_entry, push_entries, collect,
  TypeIndexCollector,
}
use rustic_core.Index.Lookup.{is_type, Extends}

module _ (packs : List IndexPack) (t : BlobType) where
  -- The entry names a pack of the type that has the blob at the location.
  abbrev pub Stored : List ℕ → SortedEntry → Type 0
  Stored pack_ids e =
      (p : IndexPack) × (b : IndexBlob) × In p packs
      × In b p.blobs
      × (is_type (blob_type p) t ≡ true)
      × (get_elem? pack_ids e.pack_idx ≡ some p.id)
      × (b.id ≡ e.id)
      × (b.location ≡ e.location)

  abbrev pub AllStored : List ℕ → EntriesVariants → Type 0
  AllStored pack_ids no_entries = Unit
  AllStored pack_ids (ids is) = Unit
  AllStored pack_ids (full_entries es) = All (Stored pack_ids) es

  Stored-append :
      (pack_ids more : List ℕ) (e : SortedEntry) → Stored pack_ids e → Stored (pack_ids ++ more) e
  Stored-append pack_ids more e (p, b, m, n, y, g, i, l) =
      (p, b, m, n, y, get_elem?-append_left pack_ids more e.pack_idx p.id g, i, l)

  AllStored-append :
      (pack_ids more : List ℕ) (e : EntriesVariants)
      → AllStored pack_ids e
      → AllStored (pack_ids ++ more) e
  AllStored-append pack_ids more no_entries h = tt
  AllStored-append pack_ids more (ids is) h = tt
  AllStored-append pack_ids more (full_entries es) h =
      All-impl (Stored pack_ids) (Stored (pack_ids ++ more)) (Stored-append pack_ids more) es h

  module _ (p : IndexPack) (m : In p packs) (y : is_type (blob_type p) t ≡ true) (pack_ids : List ℕ)
      (idx : ℕ) (g : get_elem? pack_ids idx ≡ some p.id) where
    push_entry-AllStored :
        (e : EntriesVariants) (b : IndexBlob)
        → In b p.blobs
        → AllStored pack_ids e
        → AllStored pack_ids (push_entry idx e b)
    unfolding push_entry
    push_entry-AllStored no_entries b n h = tt
    push_entry-AllStored (ids is) b n h = tt
    push_entry-AllStored (full_entries es) b n h =
        All-append (Stored pack_ids) es _ h ((p, b, m, n, y, g, refl, refl), tt)

    push_entries-AllStored :
        (e : EntriesVariants) (blobs : List IndexBlob)
        → ((b : IndexBlob) → In b blobs → In b p.blobs)
        → AllStored pack_ids e
        → AllStored pack_ids (push_entries idx e blobs)
    unfolding push_entries
    push_entries-AllStored e [] n h = h
    push_entries-AllStored e (b ∷ blobs) n h =
        push_entries-AllStored (push_entry idx e b) blobs (λ d k. n d (inr k))
          (push_entry-AllStored e b (n b (inl refl)) h)

  abbrev pub pack_ids_of : TypeIndexCollector → List ℕ
  pack_ids_of tc = map (λ p. p.0) tc.packs

  abbrev pub IsStored : TypeIndexCollector → Type 0
  IsStored tc = AllStored (pack_ids_of tc) tc.entries

  collect-IsStored :
      (p : IndexPack) (tc : TypeIndexCollector)
      → In p packs
      → is_type (blob_type p) t ≡ true
      → IsStored tc
      → IsStored (collect p tc)
  unfolding collect
  collect-IsStored p tc m y h =
      subst (λ l. AllStored l (push_entries (length tc.packs) tc.entries p.blobs))
        (sym (map-append (λ (q : ℕ × ℕ). q.0) tc.packs _))
        (push_entries-AllStored p m y (pack_ids_of tc ++ p.id ∷ []) (length tc.packs)
          (subst (λ n. get_elem? (pack_ids_of tc ++ p.id ∷ []) n ≡ some p.id)
            (length-map (λ (q : ℕ × ℕ). q.0) tc.packs)
            (get_elem?-append_last (pack_ids_of tc) p.id))
          tc.entries p.blobs (λ b n. n)
          (AllStored-append (pack_ids_of tc) (p.id ∷ []) tc.entries h))

put-IsStored :
    (packs : List IndexPack) (t s : BlobType) (p : IndexPack) (c : IndexCollector)
    → In p packs
    → is_type (blob_type p) s ≡ true
    → IsStored packs t (at c t)
    → IsStored packs t (at (put c s (collect p (at c s))) t)
put-IsStored packs tree_blob tree_blob p c m y h = collect-IsStored packs tree_blob p c.tree m y h
put-IsStored packs data_blob data_blob p c m y h =
    collect-IsStored packs data_blob p c.content m y h
put-IsStored packs tree_blob data_blob p c m y h = h
put-IsStored packs data_blob tree_blob p c m y h = h

pub is_type_refl : (t : BlobType) → is_type t t ≡ true
is_type_refl tree_blob = refl
is_type_refl data_blob = refl

pub Extends-IsStored :
    {rest : List IndexPack} {c c' : IndexCollector} (packs : List IndexPack) (t : BlobType)
    → Extends rest c c'
    → ((p : IndexPack) → In p rest → In p packs)
    → IsStored packs t (at c t)
    → IsStored packs t (at c' t)
Extends-IsStored packs t Extends.done m h = h
Extends-IsStored packs t (Extends.step {p} {packs = rest} {c} {c'} l r) m h =
    Extends-IsStored packs t r (λ q n. m q (inr n))
      (put-IsStored packs t (blob_type p) p c (m p (inl refl)) (is_type_refl (blob_type p)) h)

pub first-IsStored :
    (packs : List IndexPack) (it : IndexType) (t : BlobType) → IsStored packs t (at (new it) t)
unfolding new first_entries
first-IsStored packs full tree_blob = tt
first-IsStored packs full data_blob = tt
first-IsStored packs data_ids tree_blob = tt
first-IsStored packs data_ids data_blob = tt
first-IsStored packs only_trees tree_blob = tt
first-IsStored packs only_trees data_blob = tt
