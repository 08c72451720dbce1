-- ===== src/Prune/Retained.antt =====
-- What crates/core/src/commands/prune.rs does not remove yet: packs that are too young.
pub mod Whole
use rustic_core.Base.{
  ℕ, zero, suc, ◌≡◌, Bool, true, false, not, ◌&&◌, Option, none, some, List, [], ◌∷◌, ◌++◌, all,
  leb, arith, refl,
}
use rustic_core.Snapshot.{Jiff}
use rustic_core.Prune.{PrunePack, PruneIndex, PackToDo}
use rustic_core.Prune.Used.{PackInfo, from_pack}
use rustic_core.Prune.Stats.{StatusSet}
use rustic_core.Prune.Todo.{set_todo}
use rustic_core.Prune.Decide.{
  Deciding, DecideOptions, Choice, task, candidate, decide_pack, carry_out, choose, choose_used,
  choose_marked, is_too_young,
}
use rustic_core.Prune.Plan.{is_case, decide_pack_list, decide_indexes, decide_packs, all_packs}
use rustic_core.Prune.Safe.Passes.{visit, visit_if}

pub all-append {ℓ} :
    {A : Type ℓ} (p : A → Bool) (xs ys : List A) → all p (xs ++ ys) ≡ (all p xs && all p ys)
all-append p [] ys = refl
all-append p (x ∷ xs) ys = ground (arith, all-append p xs ys)

module _ {Zoned Span : Type 0} (j : Jiff Zoned Span) (integer_sqrt : ℕ → ℕ) (now : Zoned)
    (o : DecideOptions Span) where
  -- The time at which a pack was marked is known, and long enough ago.
  abbrev pub is_old : Option ℕ → Bool
  is_old none = false
  is_old (some t) = leb t (j.timestamp (j.saturating_sub now o.keep_delete))

  -- Only a marked pack is deleted, kept as marked or recovered, and deleted only if the mark is old
  -- enough; only an unmarked pack is marked, and only if it is not too young.
  abbrev pub is_allowed : PackToDo → Bool → Option ℕ → Bool
  is_allowed PackToDo.delete mark time = mark && is_old time
  is_allowed PackToDo.mark_delete mark time =
      not mark && not (is_too_young j integer_sqrt now o time)
  is_allowed PackToDo.keep_marked mark time = mark
  is_allowed PackToDo.keep_marked_and_correct mark time = mark
  is_allowed PackToDo.recover mark time = mark
  is_allowed _ mark time = true

  abbrev pub is_retained : PrunePack → Bool
  is_retained p = is_allowed p.to_do p.delete_mark p.time

  abbrev allows : Choice → Bool → Option ℕ → Bool
  allows (task t) mark time = is_allowed t mark time
  allows (candidate r) mark time = true

  choose_marked-allowed :
      (time : Option ℕ) → is_allowed (choose_marked j integer_sqrt now o time) true time ≡ true
  unfolding choose_marked
  choose_marked-allowed none = refl
  choose_marked-allowed (some t) = ground arith

  choose-allows :
      (p : PrunePack) (b : Bool) (n k : ℕ)
      → allows (choose j integer_sqrt now o p b n k) b p.time ≡ true
  unfolding choose choose_used
  choose-allows p false zero k = ground arith
  choose-allows p false (suc n) zero = ground arith
  choose-allows p false (suc n) (suc k) = ground arith
  choose-allows p true zero k = choose_marked-allowed p.time
  choose-allows p true (suc n) k = refl

  carry_out-retained :
      (c : Choice) (pi : PackInfo) (status : StatusSet) (p : PrunePack) (i k : ℕ) (st : Deciding)
      → allows c p.delete_mark p.time ≡ true
      → is_retained p ≡ true
      → is_retained (carry_out j integer_sqrt now o c pi status p i k st).0 ≡ true
  unfolding carry_out set_todo
  carry_out-retained (task t) pi status p i k st h e = h
  carry_out-retained (candidate r) pi status p i k st h e = e

  decide_pack-retained :
      (p : PrunePack) (i k : ℕ) (st : Deciding)
      → is_retained p ≡ true
      → is_retained (decide_pack j integer_sqrt now o p i k st).0 ≡ true
  unfolding decide_pack
  decide_pack-retained p i k st h =
      let pi = (from_pack p st.used_ids).0 in
      carry_out-retained (choose j integer_sqrt now o p p.delete_mark pi.used_blobs pi.unused_blobs)
        pi _ p i k _ (choose-allows p p.delete_mark pi.used_blobs pi.unused_blobs) h

  visit-retained :
      (b c : Bool) (p : PrunePack) (i k : ℕ) (st : Deciding)
      → is_retained p ≡ true
      → is_retained (visit_if j integer_sqrt now o b c p i k st).0 ≡ true
  visit-retained b true p i k st h = decide_pack-retained p i k st h
  visit-retained b false p i k st h = h

  pack_list-retained :
      (b : Bool) (packs : List PrunePack) (i k : ℕ) (st : Deciding)
      → all is_retained packs ≡ true
      → all is_retained (decide_pack_list j integer_sqrt now o b packs i k st).0 ≡ true
  unfolding decide_pack_list
  pack_list-retained b [] i k st h = h
  pack_list-retained b (p ∷ packs) i k st h =
      let d = visit j integer_sqrt now o b p i k st in
      let a = visit-retained b (is_case b p) p i k st in
      let rest = pack_list-retained b packs i (suc k) d.1 in ground arith

  indexes-retained :
      (b : Bool) (indexes : List PruneIndex) (i : ℕ) (st : Deciding)
      → all is_retained (all_packs indexes) ≡ true
      → all is_retained (all_packs (decide_indexes j integer_sqrt now o b indexes i st).0) ≡ true
  unfolding decide_indexes all_packs
  indexes-retained b [] i st h = h
  indexes-retained b (index ∷ indexes) i st h =
      let d = decide_pack_list j integer_sqrt now o b index.packs i 0 st in
      let rest = decide_indexes j integer_sqrt now o b indexes (suc i) d.1 in
      let a = all-append is_retained index.packs (all_packs indexes) in
      let c = all-append is_retained d.0 (all_packs rest.0) in
      let x = pack_list-retained b index.packs i 0 st in
      let y = indexes-retained b indexes (suc i) d.1 in ground arith

  -- After `decide_packs`, if no pack had a task: only packs that were marked long enough ago are to be
  -- deleted, only unmarked packs that are not too young are to be marked, and only marked packs are to
  -- stay marked or to be recovered.
  pub decide_packs-retained :
      (indexes : List PruneIndex) (st : Deciding)
      → all is_retained (all_packs indexes) ≡ true
      → all is_retained (all_packs (decide_packs j integer_sqrt now o indexes st).0) ≡ true
  unfolding decide_packs
  decide_packs-retained indexes st h =
      let d = decide_indexes j integer_sqrt now o true indexes 0 st in
      indexes-retained false d.0 0 d.1 (indexes-retained true indexes 0 st h)
