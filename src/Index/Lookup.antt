-- ===== src/Index/Lookup.antt =====
-- The ids that `has` of crates/core/src/index/binarysorted.rs looks up.
use rustic_core.Base.{
  ℕ, ◌≡◌, Bool, true, false, ◌&&◌, ◌||◌, Option, some, List, [], ◌∷◌, any, any-append, arith, refl,
  sym, ◌∙◌, Bool-cases, inl, inr, is_some, ltb, length, ◌==◌, some-injective, subst, ◌<◌, ltb→lt,
  get_elem?, suc, zero,
}
use rustic_core.Base.Word.{u32_mod}
use rustic_core.Base.Sorting.{any-sort_by, sort_by}
use rustic_core.Base.Search.{
  binary_search_by_key, binary_search_by_key-Found, sort_by-IsSorted, key_less, Found,
}
use rustic_core.Blob.{BlobType, tree_blob, data_blob, at, put}
use rustic_core.PackFile.{IndexBlob, IndexPack, blob_type}
use rustic_core.Index.{
  IndexType, full, data_ids, only_trees, EntriesVariants, no_entries, ids, full_entries,
  IndexCollector, first_entries, new, push_entry, push_entries, collect, extend_pack, extend,
  sort_entries, into_type_index, into_index, has_entry, has,
}

abbrev pub is_type : BlobType → BlobType → Bool
is_type tree_blob tree_blob = true
is_type data_blob data_blob = true
is_type _ _ = false

-- A pack of the type has the blob.
abbrev pub stands_in : BlobType → ℕ → List IndexPack → Bool
stands_in t id packs = any (λ p. is_type (blob_type p) t && any (λ b. b.id == id) p.blobs) packs

-- The ids of the type are kept.
abbrev pub keeps_ids : IndexType → BlobType → Bool
keeps_ids only_trees data_blob = false
keeps_ids it t = true

abbrev collects : EntriesVariants → Bool
collects no_entries = false
collects (ids is) = true
collects (full_entries es) = true

abbrev pub contains : EntriesVariants → ℕ → Bool
contains no_entries id = false
contains (ids is) id = any (λ i. i == id) is
contains (full_entries es) id = any (λ e. e.id == id) es

push_entry-collects :
    (idx : ℕ) (e : EntriesVariants) (b : IndexBlob) → collects (push_entry idx e b) ≡ collects e
unfolding push_entry
push_entry-collects idx no_entries b = refl
push_entry-collects idx (ids is) b = refl
push_entry-collects idx (full_entries es) b = refl

push_entry-contains :
    (idx : ℕ) (e : EntriesVariants) (b : IndexBlob) (id : ℕ)
    → contains (push_entry idx e b) id ≡ (contains e id || (collects e && b.id == id))
unfolding push_entry
push_entry-contains idx no_entries b id = refl
push_entry-contains idx (ids is) b id = ground (arith, any-append (λ i. i == id) is (b.id ∷ []))
push_entry-contains idx (full_entries es) b id = ground (
  arith,
  any-append (λ e. e.id == id) es
      (record { id = b.id; pack_idx = idx; location = b.location } ∷ []),
)

push_entries-collects :
    (idx : ℕ) (e : EntriesVariants) (bs : List IndexBlob)
    → collects (push_entries idx e bs) ≡ collects e
unfolding push_entries
push_entries-collects idx e [] = refl
push_entries-collects idx e (b ∷ bs) =
    push_entries-collects idx (push_entry idx e b) bs ∙ push_entry-collects idx e b

push_entries-contains :
    (idx : ℕ) (e : EntriesVariants) (bs : List IndexBlob) (id : ℕ)
    → contains (push_entries idx e bs) id
      ≡ (contains e id || (collects e && any (λ b. b.id == id) bs))
unfolding push_entries
push_entries-contains idx e [] id = ground arith
push_entries-contains idx e (b ∷ bs) id =
    let a = push_entries-contains idx (push_entry idx e b) bs id in
    let c = push_entry-contains idx e b id in let d = push_entry-collects idx e b in ground arith

-- What a step does to the entries of a type.
abbrev Adds : BlobType → ℕ → Bool → IndexCollector → IndexCollector → Type 0
Adds t id more c c' =
    (collects (at c' t).entries ≡ collects (at c t).entries)
    × (contains (at c' t).entries id
        ≡ (contains (at c t).entries id || (collects (at c t).entries && more)))

put-Adds :
    (t s : BlobType) (id : ℕ) (p : IndexPack) (c : IndexCollector)
    → Adds t id (is_type s t && any (λ b. b.id == id) p.blobs) c (put c s (collect p (at c s)))
unfolding collect
put-Adds tree_blob tree_blob id p c = (
  push_entries-collects _ c.tree.entries p.blobs,
  push_entries-contains _ c.tree.entries p.blobs id,
)
put-Adds data_blob data_blob id p c = (
  push_entries-collects _ c.content.entries p.blobs,
  push_entries-contains _ c.content.entries p.blobs id,
)
put-Adds tree_blob data_blob id p c = (refl, ground arith)
put-Adds data_blob tree_blob id p c = (refl, ground arith)

-- What `extend` makes of the packs, as a relation.
pub data Extends : List IndexPack → IndexCollector → IndexCollector → Type 0 where
  done : {c : IndexCollector} → Extends [] c c
  step :
      {p : IndexPack} {packs : List IndexPack} {c c' : IndexCollector}
      → length (at c (blob_type p)).packs < u32_mod
      → Extends packs (put c (blob_type p) (collect p (at c (blob_type p)))) c'
      → Extends (p ∷ packs) c c'

pub extend-Extends :
    (packs : List IndexPack) (c c' : IndexCollector) → extend packs c ≡ some c' → Extends packs c c'
unfolding extend extend_pack
extend-Extends [] c c' e = subst (λ d. Extends [] c d) (some-injective e) done
extend-Extends (p ∷ packs) c c' e =
    elim (Bool-cases (ltb (length (at c (blob_type p)).packs) u32_mod)) [
      | inl h ↦ step (ltb→lt _ _ h) (
          extend-Extends packs (put c (blob_type p) (collect p (at c (blob_type p)))) c'
            (rw (h, extend, extend_pack) at e))
      | inr h ↦ absurd (ground arith)
    ]

Extends-Adds :
    {packs : List IndexPack} {c c' : IndexCollector} (t : BlobType) (id : ℕ)
    → Extends packs c c'
    → Adds t id (stands_in t id packs) c c'
Extends-Adds t id done = (refl, ground arith)
Extends-Adds t id (step {p} {packs} {c} {c'} h r) =
    let (a, b) = put-Adds t (blob_type p) id p c in
    let (x, y) = Extends-Adds t id r in (ground arith, ground arith)

is_some-Found {ℓ} :
    {A : Type ℓ} (key : A → ℕ) (id : ℕ) (xs : List A) (r : Option ℕ)
    → Found key id xs r
    → is_some r ≡ any (λ x. key x == id) xs
is_some-Found key id xs r (inl (e, h)) = rw e (sym h)
is_some-Found key id xs r (inr (i, a, e, g, k)) = rw e (sym (any_of key id xs i a g k))
  where
    any_of :
        {A : Type ℓ} (key : A → ℕ) (id : ℕ) (xs : List A) (i : ℕ) (a : A)
        → get_elem? xs i ≡ some a
        → key a ≡ id
        → any (λ x. key x == id) xs ≡ true
    any_of key id [] i a g k = absurd (ground arith)
    any_of key id (x ∷ xs) zero a g k = ground arith
    any_of key id (x ∷ xs) (suc i) a g k = ground (arith, any_of key id xs i a g k)

any-sorted {ℓ} :
    {A : Type ℓ} (key : A → ℕ) (id : ℕ) (xs : List A)
    → is_some (binary_search_by_key key id (sort_by (key_less key) xs)) ≡ any (λ x. key x == id) xs
any-sorted key id xs =
    let s = sort_by (key_less key) xs in
    is_some-Found key id s (binary_search_by_key key id s)
      (binary_search_by_key-Found key id s (sort_by-IsSorted key xs))
    ∙ any-sort_by (key_less key) (λ x. key x == id) xs

has_entry-sort_entries :
    (e : EntriesVariants) (id : ℕ) → has_entry id (sort_entries e) ≡ contains e id
unfolding has_entry sort_entries
has_entry-sort_entries no_entries id = refl
has_entry-sort_entries (ids is) id = any-sorted (λ i. i) id is
has_entry-sort_entries (full_entries es) id = any-sorted (λ e. e.id) id es

first-contains :
    (it : IndexType) (t : BlobType) (id : ℕ)
    → (collects (at (new it) t).entries ≡ keeps_ids it t)
      × (contains (at (new it) t).entries id ≡ false)
unfolding new first_entries
first-contains full tree_blob id = (refl, refl)
first-contains full data_blob id = (refl, refl)
first-contains data_ids tree_blob id = (refl, refl)
first-contains data_ids data_blob id = (refl, refl)
first-contains only_trees tree_blob id = (refl, refl)
first-contains only_trees data_blob id = (refl, refl)

into_index-has :
    (c : IndexCollector) (t : BlobType) (id : ℕ)
    → has (into_index c) t id ≡ contains (at c t).entries id
unfolding has into_index into_type_index
into_index-has c tree_blob id = has_entry-sort_entries c.tree.entries id
into_index-has c data_blob id = has_entry-sort_entries c.content.entries id

pub collected-contains :
    (it : IndexType) (packs : List IndexPack) (c : IndexCollector) (t : BlobType) (id : ℕ)
    → keeps_ids it t ≡ true
    → Extends packs (new it) c
    → contains (at c t).entries id ≡ stands_in t id packs
collected-contains it packs c t id k r =
    let (a, b) = Extends-Adds t id r in let (x, y) = first-contains it t id in ground arith

-- If the packs can be collected, the index made of them has an id exactly if a pack of the blob type
-- has it and the index type keeps the ids of that type.
pub has-iff-stands_in :
    (it : IndexType) (packs : List IndexPack) (c : IndexCollector) (t : BlobType) (id : ℕ)
    → extend packs (new it) ≡ some c
    → has (into_index c) t id ≡ (keeps_ids it t && stands_in t id packs)
has-iff-stands_in it packs c t id e =
    let (a, b) = Extends-Adds t id (extend-Extends packs (new it) c e) in
    let (x, y) = first-contains it t id in into_index-has c t id ∙ ground arith
