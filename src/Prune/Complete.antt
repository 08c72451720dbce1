-- ===== src/Prune/Complete.antt =====
-- Every pack gets a decision: after `decide_packs` of crates/core/src/commands/prune.rs an undecided
-- pack is a candidate for repacking.
mod Repacked
pub mod Whole
use rustic_core.Base.{
  ℕ, zero, suc, ◌≡◌, Bool, true, false, not, ◌&&◌, ◌||◌, List, [], ◌∷◌, ◌++◌, any, any-append, ◌==◌,
  if◌then◌else◌, arith, refl, ap, sym, subst, Bool-cases, inl, inr, ◌∙◌,
}
use rustic_core.Snapshot.{Jiff}
use rustic_core.Prune.{PrunePack, PruneIndex, PackToDo, same_todo}
use rustic_core.Prune.Used.{PackInfo, from_pack}
use rustic_core.Prune.Stats.{StatusSet}
use rustic_core.Prune.Todo.{set_todo}
use rustic_core.Prune.Decide.{
  Deciding, DecideOptions, Candidate, Choice, task, candidate, decide_pack, carry_out, choose,
  choose_used, choose_marked,
}
use rustic_core.Prune.Plan.{is_case, decide_pack_list, decide_indexes, decide_packs}
use rustic_core.Prune.Safe.Pass.{decide_pack-Decided}
use rustic_core.Prune.Safe.Passes.{visit, visit_if, is_case-same}

abbrev pub is_undecided : PrunePack → Bool
is_undecided p = same_todo p.to_do PackToDo.undecided

-- A candidate has the numbers.
abbrev pub listed : ℕ → ℕ → List Candidate → Bool
listed i k cs = any (λ c. c.index_num == i && c.pack_num == k) cs

-- The undecided packs with the mark are candidates.
abbrev pub accounted : Bool → ℕ → ℕ → List PrunePack → List Candidate → Bool
accounted b i k [] cs = true
accounted b i k (p ∷ packs) cs =
    (not (is_case b p && is_undecided p) || listed i k cs) && accounted b i (suc k) packs cs

abbrev pub all_accounted : Bool → ℕ → List PruneIndex → List Candidate → Bool
all_accounted b i [] cs = true
all_accounted b i (index ∷ indexes) cs =
    accounted b i 0 index.packs cs && all_accounted b (suc i) indexes cs

-- Every listed pack stays listed.
abbrev pub Grows : List Candidate → List Candidate → Type 0
Grows cs ds = (i k : ℕ) → listed i k cs ≡ true → listed i k ds ≡ true

accounted-Grows :
    (b : Bool) (i k : ℕ) (packs : List PrunePack) (cs ds : List Candidate)
    → Grows cs ds
    → accounted b i k packs cs ≡ true
    → accounted b i k packs ds ≡ true
accounted-Grows b i k [] cs ds g h = h
accounted-Grows b i k (p ∷ packs) cs ds g h =
    let a = g i k in let c = accounted-Grows b i (suc k) packs cs ds g in ground arith

pub all_accounted-Grows :
    (b : Bool) (i : ℕ) (indexes : List PruneIndex) (cs ds : List Candidate)
    → Grows cs ds
    → all_accounted b i indexes cs ≡ true
    → all_accounted b i indexes ds ≡ true
all_accounted-Grows b i [] cs ds g h = h
all_accounted-Grows b i (index ∷ indexes) cs ds g h =
    let a = accounted-Grows b i 0 index.packs cs ds g in
    let c = all_accounted-Grows b (suc i) indexes cs ds g in ground arith

pub listed-append :
    (i k : ℕ) (cs ds : List Candidate) → listed i k (cs ++ ds) ≡ (listed i k cs || listed i k ds)
listed-append i k cs ds = any-append (λ c. c.index_num == i && c.pack_num == k) cs ds

module _ {Zoned Span : Type 0} (j : Jiff Zoned Span) (integer_sqrt : ℕ → ℕ) (now : Zoned)
    (o : DecideOptions Span) where
  abbrev decides : Choice → Bool
  decides (task t) = not (same_todo t PackToDo.undecided)
  decides (candidate r) = true

  choose-decides :
      (p : PrunePack) (b : Bool) (n k : ℕ) → decides (choose j integer_sqrt now o p b n k) ≡ true
  unfolding choose choose_used choose_marked
  choose-decides p false zero k = ground arith
  choose-decides p false (suc n) zero = ground arith
  choose-decides p false (suc n) (suc k) = ground arith
  choose-decides p true zero k = ground arith
  choose-decides p true (suc n) k = refl

  abbrev Accounts : ℕ → ℕ → Deciding → PrunePack × Deciding → Type 0
  Accounts i k st r =
      Grows st.candidates r.1.candidates
      × ((not (is_undecided r.0) || listed i k r.1.candidates) ≡ true)

  carry_out-Accounts :
      (c : Choice) (pi : PackInfo) (status : StatusSet) (p : PrunePack) (i k : ℕ) (st : Deciding)
      → decides c ≡ true
      → Accounts i k st (carry_out j integer_sqrt now o c pi status p i k st)
  unfolding carry_out set_todo
  carry_out-Accounts (task t) pi status p i k st h = (λ x y e. e, ground arith)
  carry_out-Accounts (candidate r) pi status p i k st h =
      let c : Candidate = record {
        pi = pi;
        status = status;
        reason = r;
        index_num = i;
        pack_num = k;
      } in
      (
        λ x y e. let a = listed-append x y st.candidates (c ∷ []) in ground arith,
        let a = listed-append i k st.candidates (c ∷ []) in ground arith,
      )

  decide_pack-Accounts :
      (p : PrunePack) (i k : ℕ) (st : Deciding)
      → Accounts i k st (decide_pack j integer_sqrt now o p i k st)
  unfolding decide_pack
  decide_pack-Accounts p i k st =
      let pi = (from_pack p st.used_ids).0 in
      carry_out-Accounts (choose j integer_sqrt now o p p.delete_mark pi.used_blobs pi.unused_blobs)
        pi _ p i k _ (choose-decides p p.delete_mark pi.used_blobs pi.unused_blobs)

  module _ (b : Bool) where
    -- What a pass does to a list of packs and to the candidates.
    abbrev Covers :
        ℕ → ℕ → List PrunePack → List Candidate → List PrunePack → List Candidate → Type 0
    Covers i k packs cs outs ds =
        Grows cs ds
        × (accounted b i k outs ds ≡ true)
        × ((es : List Candidate)
            → accounted (not b) i k packs es ≡ true
            → accounted (not b) i k outs es ≡ true)

    not_case : (p : PrunePack) → is_case b p ≡ true → is_case (not b) p ≡ false
    not_case p h = go b h
      where
        go : (b : Bool) → is_case b p ≡ true → is_case (not b) p ≡ false
        go true h = ap not h
        go false h = ground arith

    visit-Covers :
        (p : PrunePack) (i k : ℕ) (st : Deciding)
        → let r = visit j integer_sqrt now o b p i k st in
          Covers i k (p ∷ []) st.candidates (r.0 ∷ []) r.1.candidates
    visit-Covers p i k st = elim (Bool-cases (is_case b p)) [
      | inl c ↦
          let r = decide_pack j integer_sqrt now o p i k st in
          let (g, a) = decide_pack-Accounts p i k st in
          let same =
            is_case-same b p r.0 (decide_pack-Decided j integer_sqrt now o p i k st).mark in
          let n = not_case r.0 (same ∙ c) in
          subst
            (λ x.
              let r = visit_if j integer_sqrt now o b x p i k st in
              Covers i k (p ∷ []) st.candidates (r.0 ∷ []) r.1.candidates)
            (sym c) (g, ground arith, λ es h. ground arith)
      | inr c ↦
          subst
            (λ x.
              let r = visit_if j integer_sqrt now o b x p i k st in
              Covers i k (p ∷ []) st.candidates (r.0 ∷ []) r.1.candidates)
            (sym c) (λ x y e. e, ground arith, λ es h. h)
    ]

    pack_list-Covers :
        (packs : List PrunePack) (i k : ℕ) (st : Deciding)
        → let r = decide_pack_list j integer_sqrt now o b packs i k st in
          Covers i k packs st.candidates r.0 r.1.candidates
    unfolding decide_pack_list
    pack_list-Covers [] i k st = (λ x y e. e, refl, λ es h. h)
    pack_list-Covers (p ∷ packs) i k st =
        let d = visit j integer_sqrt now o b p i k st in
        let rest = decide_pack_list j integer_sqrt now o b packs i (suc k) d.1 in
        let (g, a, u) = visit-Covers p i k st in
        let (g', a', u') = pack_list-Covers packs i (suc k) d.1 in
        let m = g' i k in
        (
          λ x y e. g' x y (g x y e),
          ground arith,
          λ es h. let v = u es in let v' = u' es in ground arith,
        )

    -- The same for index files.
    abbrev AllCovers :
        ℕ → List PruneIndex → List Candidate → List PruneIndex → List Candidate → Type 0
    AllCovers i ins cs outs ds =
        Grows cs ds
        × (all_accounted b i outs ds ≡ true)
        × ((es : List Candidate)
            → all_accounted (not b) i ins es ≡ true
            → all_accounted (not b) i outs es ≡ true)

    indexes-AllCovers :
        (indexes : List PruneIndex) (i : ℕ) (st : Deciding)
        → let r = decide_indexes j integer_sqrt now o b indexes i st in
          AllCovers i indexes st.candidates r.0 r.1.candidates
    unfolding decide_indexes
    indexes-AllCovers [] i st = (λ x y e. e, refl, λ es h. h)
    indexes-AllCovers (index ∷ indexes) i st =
        let d = decide_pack_list j integer_sqrt now o b index.packs i 0 st in
        let rest = decide_indexes j integer_sqrt now o b indexes (suc i) d.1 in
        let (g, a, u) = pack_list-Covers index.packs i 0 st in
        let (g', a', u') = indexes-AllCovers indexes (suc i) d.1 in
        let m = accounted-Grows b i 0 d.0 d.1.candidates rest.1.candidates g' a in
        (
          λ x y e. g' x y (g x y e),
          ground arith,
          λ es h. let v = u es in let v' = u' es in ground arith,
        )

  -- After `decide_packs` an undecided pack is a candidate, whatever its mark.
  pub decide_packs-accounted :
      (indexes : List PruneIndex) (st : Deciding) (b : Bool)
      → let r = decide_packs j integer_sqrt now o indexes st in
        all_accounted b 0 r.0 r.1.candidates ≡ true
  unfolding decide_packs
  decide_packs-accounted indexes st true =
      let d = decide_indexes j integer_sqrt now o true indexes 0 st in
      let e = decide_indexes j integer_sqrt now o false d.0 0 d.1 in
      let (g, a, u) = indexes-AllCovers true indexes 0 st in
      let (g', a', u') = indexes-AllCovers false d.0 0 d.1 in
      all_accounted-Grows true 0 e.0 d.1.candidates e.1.candidates g' (u' d.1.candidates a)
  decide_packs-accounted indexes st false =
      let d = decide_indexes j integer_sqrt now o true indexes 0 st in
      let (g', a', u') = indexes-AllCovers false d.0 0 d.1 in a'
