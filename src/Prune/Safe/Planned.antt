-- ===== src/Prune/Safe/Planned.antt =====
-- The decisions on the packs keep every blob in use.
use rustic_core.Base.{ℕ, ◌+◌, ◌≤◌, ◌≡◌, Bool, true, false, List, [], ◌∷◌, any, All, arith}
use rustic_core.Snapshot.{Jiff}
use rustic_core.Prune.{PrunePack, PruneIndex}
use rustic_core.Prune.Used.Marks.{used}
use rustic_core.Prune.Decide.{Deciding, DecideOptions}
use rustic_core.Prune.Plan.{all_packs, decide_indexes, decide_packs}
use rustic_core.Prune.Safe.{held, covers, keeps, Pass, IsFresh}
use rustic_core.Prune.Safe.Passes.{indexes-Pass}
use rustic_core.Prune.Safe.Others.{indexes-Unchanged}

covers-keeps :
    (b : Bool) (id : ℕ) (packs : List PrunePack)
    → covers b id packs ≡ true
    → any (keeps id) packs ≡ true
covers-keeps b id [] h = h
covers-keeps b id (p ∷ packs) h = ground (arith, covers-keeps b id packs)

two-Passes :
    (id u v w : ℕ) (ps qs rs : List PrunePack)
    → Pass id true u ps v qs
    → Pass id false v qs w rs
    → held false id qs ≡ held false id ps
    → covers true id rs ≡ covers true id qs
    → 1 ≤ u
    → u ≤ held true id ps + held false id ps
    → any (keeps id) rs ≡ true
two-Passes id u v w ps qs rs p q h c l le =
    let s = covers-keeps true id rs in let t = covers-keeps false id rs in ground arith

module _ {Zoned Span : Type 0} (j : Jiff Zoned Span) (integer_sqrt : ℕ → ℕ) (now : Zoned)
    (o : DecideOptions Span) where
  -- After `decide_packs`, a pack that is not given up has the blob, if the counter of the blob was not
  -- 0 and not above the number of times that the packs have it.
  pub decide_packs-keeps :
      (indexes : List PruneIndex) (st : Deciding) (id : ℕ)
      → All (IsFresh true) (all_packs indexes)
      → All (IsFresh false) (all_packs indexes)
      → 1 ≤ used st.used_ids id
      → used st.used_ids id ≤ held true id (all_packs indexes) + held false id (all_packs indexes)
      → any (keeps id) (all_packs (decide_packs j integer_sqrt now o indexes st).0) ≡ true
  unfolding decide_packs
  decide_packs-keeps indexes st id f g l le =
      let d = decide_indexes j integer_sqrt now o true indexes 0 st in
      let e = decide_indexes j integer_sqrt now o false d.0 0 d.1 in
      let s = indexes-Unchanged j integer_sqrt now o true id indexes 0 st in
      let t = indexes-Unchanged j integer_sqrt now o false id d.0 0 d.1 in
      two-Passes id (used st.used_ids id) (used d.1.used_ids id) (used e.1.used_ids id)
        (all_packs indexes) (all_packs d.0) (all_packs e.0)
        (indexes-Pass j integer_sqrt now o true id indexes 0 st f)
        (indexes-Pass j integer_sqrt now o false id d.0 0 d.1 (s.2 g)) s.0 t.1 l le
