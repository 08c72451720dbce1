-- ===== src/Prune/Safe/Filtered.antt =====
-- What `filter_index_files` of crates/core/src/commands/prune.rs leaves out.
use rustic_core.Prune.New.{has_id}
use rustic_core.Base.{
  if◌then◌else◌, subst, sym, map, All, refl, ℕ, ◌≡◌, Bool, true, false, not, ◌&&◌, ◌||◌, List, [],
  ◌∷◌, any, any-append, length, ◌==◌, Bool-cases, inl, inr, arith,
}
use rustic_core.Prune.{PrunePack, PruneIndex, PackToDo, same_todo}
use rustic_core.Prune.Stats.{PruneStats}
use rustic_core.Prune.Plan.{all_packs}
use rustic_core.Prune.Check.{must_modify, needs_processing, retain_indexes, filter_index_files}
use rustic_core.Prune.Safe.Checks.{records, repacks}

-- An index file has the id.
abbrev pub listed : ℕ → List PruneIndex → Bool
listed id indexes = any (λ index. index.id == id) indexes

-- An index file that is not one of the processed ones, which are deleted, lists a pack for the new index
-- with the blob.
abbrev pub untouched : ℕ → List PruneIndex → List PruneIndex → Bool
untouched id processed indexes =
    any (λ index. not (listed index.id processed) && any (records id) index.packs) indexes

-- No two index files have the same id.
abbrev pub AreDistinct : List ℕ → Type 0
AreDistinct [] = Unit
AreDistinct (id ∷ ids) = (has_id ids id ≡ false) × AreDistinct ids

-- An index file needs processing, or is not among those that are processed.
abbrev IsSettled : Bool → List PruneIndex → PruneIndex → Type 0
IsSettled i processed index = (needs_processing i index || not (listed index.id processed)) ≡ true

repacks-must_modify :
    (instant_delete : Bool) (id : ℕ) (index : PruneIndex)
    → any (repacks id) index.packs ≡ true
    → must_modify instant_delete index ≡ true
unfolding must_modify
repacks-must_modify instant_delete id index h = let g = go index.packs h in ground arith
  where
    go :
        (packs : List PrunePack)
        → any (repacks id) packs ≡ true
        → any
            (λ p.
              not (same_todo p.to_do PackToDo.keep)
              && (instant_delete || not (same_todo p.to_do PackToDo.keep_marked)))
            packs
          ≡ true
    go [] h = h
    go (p ∷ packs) h = ground (arith, go packs)

listed-retain_indexes :
    (i : Bool) (id : ℕ) (indexes : List PruneIndex)
    → has_id (map (λ index. index.id) indexes) id ≡ false
    → listed id (retain_indexes i indexes) ≡ false
unfolding retain_indexes
listed-retain_indexes i id [] h = refl
listed-retain_indexes i id (index ∷ indexes) h =
    let ih = listed-retain_indexes i id indexes in ground arith

-- One more processed file does not settle the others.
All-IsSettled-cons :
    (i : Bool) (index : PruneIndex) (processed indexes : List PruneIndex)
    → has_id (map (λ index. index.id) indexes) index.id ≡ false
    → All (IsSettled i processed) indexes
    → All (IsSettled i (index ∷ processed)) indexes
All-IsSettled-cons i index processed [] h a = tt
All-IsSettled-cons i index processed (other ∷ indexes) h a =
    let b = a.0 in (ground arith, All-IsSettled-cons i index processed indexes (ground arith) a.1)

retain_indexes-cons :
    (i : Bool) (index : PruneIndex) (indexes : List PruneIndex)
    → retain_indexes i (index ∷ indexes) ≡ (
        if needs_processing i index
        then index ∷ retain_indexes i indexes
        else retain_indexes i indexes)
unfolding retain_indexes
retain_indexes-cons i index indexes = refl

retain_indexes-IsSettled :
    (i : Bool) (indexes : List PruneIndex)
    → AreDistinct (map (λ index. index.id) indexes)
    → All (IsSettled i (retain_indexes i indexes)) indexes
retain_indexes-IsSettled i [] d = tt
retain_indexes-IsSettled i (index ∷ indexes) d =
    let rest = retain_indexes-IsSettled i indexes d.1 in
    let new = listed-retain_indexes i index.id indexes d.0 in
    subst (λ l. All (IsSettled i l) (index ∷ indexes)) (sym (retain_indexes-cons i index indexes))
      (elim (Bool-cases (needs_processing i index)) [
        | inl n ↦
            subst
              (λ b.
                All
                  (IsSettled i
                    (if b then index ∷ retain_indexes i indexes else retain_indexes i indexes))
                  (index ∷ indexes))
              (sym n)
              (ground arith, All-IsSettled-cons i index (retain_indexes i indexes) indexes d.0 rest)
        | inr n ↦
            subst
              (λ b.
                All
                  (IsSettled i
                    (if b then index ∷ retain_indexes i indexes else retain_indexes i indexes))
                  (index ∷ indexes))
              (sym n) (ground arith, rest)
      ])

retain_indexes-records :
    (i : Bool) (id : ℕ) (processed indexes : List PruneIndex)
    → All (IsSettled i processed) indexes
    → any (records id) (all_packs indexes) ≡ true
    → (any (records id) (all_packs (retain_indexes i indexes)) || untouched id processed indexes)
      ≡ true
unfolding retain_indexes all_packs
retain_indexes-records i id processed [] s h = h
retain_indexes-records i id processed (index ∷ indexes) s h =
    let a = any-append (records id) index.packs (all_packs indexes) in
    let b = any-append (records id) index.packs (all_packs (retain_indexes i indexes)) in
    let c = s.0 in let ih = retain_indexes-records i id processed indexes s.1 in ground arith

retain_indexes-repacks :
    (i : Bool) (id : ℕ) (indexes : List PruneIndex)
    → any (repacks id) (all_packs indexes) ≡ true
    → (any (repacks id) (all_packs (retain_indexes i indexes)) && any (must_modify i) indexes)
      ≡ true
unfolding retain_indexes all_packs needs_processing
retain_indexes-repacks i id [] h = h
retain_indexes-repacks i id (index ∷ indexes) h =
    let a = any-append (repacks id) index.packs (all_packs indexes) in
    let b = any-append (repacks id) index.packs (all_packs (retain_indexes i indexes)) in
    let m = repacks-must_modify i id index in
    let ih = retain_indexes-repacks i id indexes in ground arith

-- If no index file is processed, all stay.
none-untouched :
    (id : ℕ) (indexes : List PruneIndex)
    → any (records id) (all_packs indexes) ≡ true
    → untouched id [] indexes ≡ true
unfolding all_packs
none-untouched id [] h = h
none-untouched id (index ∷ indexes) h =
    let a = any-append (records id) index.packs (all_packs indexes) in
    let ih = none-untouched id indexes in ground arith

-- If the index files have different ids, a pack for the new index, with a blob, is in an index file that is
-- processed, or the blob is in a pack for the new index of an index file that is not: it stays, as only
-- processed files are deleted.
pub filter_index_files-records :
    (i : Bool) (id : ℕ) (indexes : List PruneIndex) (s : PruneStats)
    → AreDistinct (map (λ index. index.id) indexes)
    → any (records id) (all_packs indexes) ≡ true
    → (any (records id) (all_packs (filter_index_files i indexes s).0)
        || untouched id (filter_index_files i indexes s).0 indexes)
      ≡ true
unfolding filter_index_files all_packs
filter_index_files-records i id indexes s d h =
    elim (Bool-cases
      (not (any (must_modify i) indexes) && length (retain_indexes i indexes) == 1)) [
        | inl e ↦ rw e (none-untouched id indexes h)
        | inr e ↦ rw e (
            retain_indexes-records i id (retain_indexes i indexes) indexes
              (retain_indexes-IsSettled i indexes d) h)
      ]

pub filter_index_files-repacks :
    (i : Bool) (id : ℕ) (indexes : List PruneIndex) (s : PruneStats)
    → any (repacks id) (all_packs indexes) ≡ true
    → any (repacks id) (all_packs (filter_index_files i indexes s).0) ≡ true
unfolding filter_index_files
filter_index_files-repacks i id indexes s h =
    let a = retain_indexes-repacks i id indexes h in
    elim (Bool-cases
      (not (any (must_modify i) indexes) && length (retain_indexes i indexes) == 1)) [
        | inl e ↦ absurd (ground arith)
        | inr e ↦ rw e (ground arith)
      ]
