-- ===== src/Prune/Safe/Passes.antt =====
-- The passes of `decide_packs` over the packs.
use rustic_core.Base.{
  any-append, ℕ, suc, ◌≡◌, Bool, true, false, not, ◌&&◌, List, [], ◌∷◌, ◌++◌, ◌==◌, if◌then◌else◌,
  All, arith, refl, sum_by-append, ap, sym, subst, ◌∙◌, Bool-cases, All-left, inl, All-right, inr,
}
use rustic_core.Snapshot.{Jiff}
use rustic_core.Prune.{PrunePack, PruneIndex}
use rustic_core.Prune.Used.{from_pack}
use rustic_core.Prune.Used.Marks.{occurrences, used, Marked}
use rustic_core.Prune.Used.Needed.{from_pack-Marked}
use rustic_core.Prune.Decide.{Deciding, DecideOptions, decide_pack}
use rustic_core.Prune.Plan.{is_case, decide_pack_list, decide_indexes, all_packs}
use rustic_core.Prune.Safe.{spares, keeps, Pass, IsFresh}
use rustic_core.Prune.Safe.Pass.{decide_pack-Decided}

Pass-append :
    (id : ℕ) (b : Bool) (u v w : ℕ) (ps qs ps' qs' : List PrunePack)
    → Pass id b u ps v qs
    → Pass id b v ps' w qs'
    → Pass id b u (ps ++ ps') w (qs ++ qs')
Pass-append id b u v w ps qs ps' qs' h k =
    let c = any-append (λ p. is_case b p && keeps id p) qs qs' in
    let s = sum_by-append (λ p. if is_case b p then occurrences id p.blobs else 0) ps ps' in
    ground arith

pack-Pass :
    (id : ℕ) (b : Bool) (u v : ℕ) (p q : PrunePack) (needed : Bool)
    → Marked id u p.blobs needed v
    → is_case b p ≡ true
    → is_case b q ≡ true
    → occurrences id q.blobs ≡ occurrences id p.blobs
    → (needed ≡ true → spares q.to_do ≡ true)
    → Pass id b u (p ∷ []) v (q ∷ [])
pack-Pass id b u v p q true m c d e f = let g = f refl in ground arith
pack-Pass id b u v p q false m c d e f = ground arith

other-Pass :
    (id : ℕ) (b : Bool) (u : ℕ) (p : PrunePack)
    → is_case b p ≡ false
    → Pass id b u (p ∷ []) u (p ∷ [])
other-Pass id b u p c = ground arith

pub is_case-same :
    (b : Bool) (p q : PrunePack) → q.delete_mark ≡ p.delete_mark → is_case b q ≡ is_case b p
is_case-same true p q e = e
is_case-same false p q e = ap not e

module _ {Zoned Span : Type 0} (j : Jiff Zoned Span) (integer_sqrt : ℕ → ℕ) (now : Zoned)
    (o : DecideOptions Span) (b : Bool) where
  -- One pack, with its test.
  abbrev pub visit_if : Bool → PrunePack → ℕ → ℕ → Deciding → PrunePack × Deciding
  visit_if c p i k st = if c then decide_pack j integer_sqrt now o p i k st else (p, st)

  abbrev pub visit : PrunePack → ℕ → ℕ → Deciding → PrunePack × Deciding
  visit p i k st = visit_if (is_case b p) p i k st

  abbrev VisitPass : ℕ → PrunePack → Deciding → PrunePack × Deciding → Type 0
  VisitPass id p st r = Pass id b (used st.used_ids id) (p ∷ []) (used r.1.used_ids id) (r.0 ∷ [])

  visit-Pass :
      (id : ℕ) (p : PrunePack) (i k : ℕ) (st : Deciding)
      → IsFresh b p
      → VisitPass id p st (visit p i k st)
  visit-Pass id p i k st (short, fresh) = elim (Bool-cases (is_case b p)) [
    | inl c ↦
        let d = decide_pack-Decided j integer_sqrt now o p i k st in
        let m = from_pack p st.used_ids in
        let r = decide_pack j integer_sqrt now o p i k st in
        subst (λ c. VisitPass id p st (visit_if c p i k st)) (sym c)
          (pack-Pass id b (used st.used_ids id) (used r.1.used_ids id) p r.0
            (not (m.0.used_blobs == 0))
            (subst
              (λ x. Marked id (used st.used_ids id) p.blobs (not (m.0.used_blobs == 0)) (used x id))
              (sym d.used_ids) (from_pack-Marked p st.used_ids id short))
            c (is_case-same b p r.0 d.mark ∙ c) (ap (occurrences id) d.blobs)
            (λ h. d.spared h (fresh c)))
    | inr c ↦
        subst (λ c. VisitPass id p st (visit_if c p i k st)) (sym c)
          (other-Pass id b (used st.used_ids id) p c)
  ]

  pack_list-Pass :
      (id : ℕ) (packs : List PrunePack) (i k : ℕ) (st : Deciding)
      → All (IsFresh b) packs
      → let r = decide_pack_list j integer_sqrt now o b packs i k st in
        Pass id b (used st.used_ids id) packs (used r.1.used_ids id) r.0
  unfolding decide_pack_list
  pack_list-Pass id [] i k st h = ground arith
  pack_list-Pass id (p ∷ packs) i k st h =
      let d = visit p i k st in
      let rest = decide_pack_list j integer_sqrt now o b packs i (suc k) d.1 in
      Pass-append id b (used st.used_ids id) (used d.1.used_ids id) (used rest.1.used_ids id)
        (p ∷ []) (d.0 ∷ []) packs rest.0 (visit-Pass id p i k st h.0)
        (pack_list-Pass id packs i (suc k) d.1 h.1)

  pub indexes-Pass :
      (id : ℕ) (indexes : List PruneIndex) (i : ℕ) (st : Deciding)
      → All (IsFresh b) (all_packs indexes)
      → let r = decide_indexes j integer_sqrt now o b indexes i st in
        Pass id b (used st.used_ids id) (all_packs indexes) (used r.1.used_ids id) (all_packs r.0)
  unfolding decide_indexes all_packs
  indexes-Pass id [] i st h = ground arith
  indexes-Pass id (index ∷ indexes) i st h =
      let d = decide_pack_list j integer_sqrt now o b index.packs i 0 st in
      let rest = decide_indexes j integer_sqrt now o b indexes (suc i) d.1 in
      Pass-append id b (used st.used_ids id) (used d.1.used_ids id) (used rest.1.used_ids id)
        index.packs d.0 (all_packs indexes) (all_packs rest.0)
        (pack_list-Pass id index.packs i 0 st
          (All-left (IsFresh b) index.packs (all_packs indexes) h))
        (indexes-Pass id indexes (suc i) d.1
          (All-right (IsFresh b) index.packs (all_packs indexes) h))
