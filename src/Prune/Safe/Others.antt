-- ===== src/Prune/Safe/Others.antt =====
-- A pass of `decide_packs` leaves the packs with the other mark as they are.
use rustic_core.Base.{
  ℕ, suc, ◌+◌, ◌≡◌, Bool, true, false, not, ◌&&◌, ◌||◌, List, [], ◌∷◌, ◌++◌, if◌then◌else◌, All,
  length, arith, refl, All-append, sum_by-append, ap, sym, subst, ◌∙◌, any-append, All-left,
  All-right, Bool-cases, inl, inr,
}
use rustic_core.Snapshot.{Jiff}
use rustic_core.Prune.{PrunePack, PruneIndex}
use rustic_core.Prune.Used.Marks.{occurrences}
use rustic_core.Prune.Decide.{Deciding, DecideOptions, decide_pack}
use rustic_core.Prune.Plan.{is_case, decide_pack_list, decide_indexes, all_packs}
use rustic_core.Prune.Safe.{keeps, covers, held, IsFresh}
use rustic_core.Prune.Safe.Pass.{decide_pack-Decided}
use rustic_core.Prune.Safe.Passes.{visit, visit_if, is_case-same}

-- Nothing changes for the packs with the mark `b`.
abbrev pub Unchanged : ℕ → Bool → List PrunePack → List PrunePack → Type 0
Unchanged id b ps qs =
    (held b id qs ≡ held b id ps)
    × (covers b id qs ≡ covers b id ps)
    × (All (IsFresh b) ps → All (IsFresh b) qs)

Unchanged-append :
    (id : ℕ) (b : Bool) (ps qs ps' qs' : List PrunePack)
    → Unchanged id b ps qs
    → Unchanged id b ps' qs'
    → Unchanged id b (ps ++ ps') (qs ++ qs')
Unchanged-append id b ps qs ps' qs' (h, c, f) (h', c', f') = (
  s' ∙ k ∙ sym s,
  a' ∙ l ∙ sym a,
  λ g.
      All-append (IsFresh b) qs qs' (f (All-left (IsFresh b) ps ps' g))
        (f' (All-right (IsFresh b) ps ps' g)),
)
  where
    amount : PrunePack → ℕ
    amount p = if is_case b p then occurrences id p.blobs else 0

    s : held b id (ps ++ ps') ≡ held b id ps + held b id ps'
    s = sum_by-append (λ p. if is_case b p then occurrences id p.blobs else 0) ps ps'

    s' : held b id (qs ++ qs') ≡ held b id qs + held b id qs'
    s' = sum_by-append (λ p. if is_case b p then occurrences id p.blobs else 0) qs qs'

    k : (held b id qs + held b id qs') ≡ (held b id ps + held b id ps')
    k = omega arith

    a : covers b id (ps ++ ps') ≡ (covers b id ps || covers b id ps')
    a = any-append (λ p. is_case b p && keeps id p) ps ps'

    a' : covers b id (qs ++ qs') ≡ (covers b id qs || covers b id qs')
    a' = any-append (λ p. is_case b p && keeps id p) qs qs'

    l : (covers b id qs || covers b id qs') ≡ (covers b id ps || covers b id ps')
    l = rw (c, c') refl

is_case-not : (b : Bool) (p : PrunePack) → is_case b p ≡ true → is_case (not b) p ≡ false
is_case-not true p h = ap not h
is_case-not false p h = ground arith

other-Unchanged :
    (id : ℕ) (b : Bool) (p q : PrunePack)
    → is_case b p ≡ false
    → is_case b q ≡ false
    → length q.blobs ≡ length p.blobs
    → Unchanged id b (p ∷ []) (q ∷ [])
other-Unchanged id b p q c d l =
    (ground arith, ground arith, λ h. ((ground arith, λ e. absurd (ground arith)), tt))

module _ {Zoned Span : Type 0} (j : Jiff Zoned Span) (integer_sqrt : ℕ → ℕ) (now : Zoned)
    (o : DecideOptions Span) (b : Bool) where
  visit-Unchanged :
      (id : ℕ) (p : PrunePack) (i k : ℕ) (st : Deciding)
      → Unchanged id (not b) (p ∷ []) ((visit j integer_sqrt now o b p i k st).0 ∷ [])
  visit-Unchanged id p i k st = elim (Bool-cases (is_case b p)) [
    | inl c ↦
        let d = decide_pack-Decided j integer_sqrt now o p i k st in
        let q = (decide_pack j integer_sqrt now o p i k st).0 in
        subst
          (λ c. Unchanged id (not b) (p ∷ []) ((visit_if j integer_sqrt now o b c p i k st).0 ∷ []))
          (sym c)
          (other-Unchanged id (not b) p q (is_case-not b p c)
            (is_case-not b q (is_case-same b p q d.mark ∙ c)) (ap length d.blobs))
    | inr c ↦
        subst
          (λ c. Unchanged id (not b) (p ∷ []) ((visit_if j integer_sqrt now o b c p i k st).0 ∷ []))
          (sym c) (refl, refl, λ h. h)
  ]

  pack_list-Unchanged :
      (id : ℕ) (packs : List PrunePack) (i k : ℕ) (st : Deciding)
      → Unchanged id (not b) packs (decide_pack_list j integer_sqrt now o b packs i k st).0
  unfolding decide_pack_list
  pack_list-Unchanged id [] i k st = (refl, refl, λ h. h)
  pack_list-Unchanged id (p ∷ packs) i k st =
      let d = visit j integer_sqrt now o b p i k st in
      Unchanged-append id (not b) (p ∷ []) (d.0 ∷ []) packs
        (decide_pack_list j integer_sqrt now o b packs i (suc k) d.1).0
        (visit-Unchanged id p i k st) (pack_list-Unchanged id packs i (suc k) d.1)

  pub indexes-Unchanged :
      (id : ℕ) (indexes : List PruneIndex) (i : ℕ) (st : Deciding)
      → Unchanged id
          (not b)
          (all_packs indexes)
          (all_packs (decide_indexes j integer_sqrt now o b indexes i st).0)
  unfolding decide_indexes all_packs
  indexes-Unchanged id [] i st = (refl, refl, λ h. h)
  indexes-Unchanged id (index ∷ indexes) i st =
      let d = decide_pack_list j integer_sqrt now o b index.packs i 0 st in
      Unchanged-append id (not b) index.packs d.0 (all_packs indexes)
        (all_packs (decide_indexes j integer_sqrt now o b indexes (suc i) d.1).0)
        (pack_list-Unchanged id index.packs i 0 st) (indexes-Unchanged id indexes (suc i) d.1)
