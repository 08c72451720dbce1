-- ===== src/Prune/Safe/Pass.antt =====
-- One pack in `decide_packs`.
use rustic_core.Base.{ℕ, zero, suc, ◌≡◌, Bool, true, false, not, ◌==◌, arith, refl}
use rustic_core.Snapshot.{Jiff}
use rustic_core.Prune.{PrunePack}
use rustic_core.Prune.Used.{PackInfo, from_pack}
use rustic_core.Prune.Todo.{set_todo}
use rustic_core.Prune.Stats.{StatusSet}
use rustic_core.Prune.Decide.{
  Deciding, DecideOptions, Choice, task, candidate, decide_pack, carry_out, choose, choose_used,
}
use rustic_core.Prune.Safe.{spares}

abbrev pub spares_choice : Choice → Bool
spares_choice (task t) = spares t
spares_choice (candidate r) = true

module _ {Zoned Span : Type 0} (j : Jiff Zoned Span) (integer_sqrt : ℕ → ℕ) (now : Zoned)
    (o : DecideOptions Span) where
  -- A pack with a used blob gets a task that keeps its blobs, or it becomes a candidate.
  choose-spares :
      (p : PrunePack) (b : Bool) (n k : ℕ)
      → spares_choice (choose j integer_sqrt now o p b (suc n) k) ≡ true
  unfolding choose choose_used
  choose-spares p false n zero = ground arith
  choose-spares p false n (suc k) = ground arith
  choose-spares p true n k = refl

  carry_out-spares :
      (c : Choice) (pi : PackInfo) (status : StatusSet) (p : PrunePack) (i k : ℕ) (st : Deciding)
      → spares_choice c ≡ true
      → spares p.to_do ≡ true
      → spares (carry_out j integer_sqrt now o c pi status p i k st).0.to_do ≡ true
  unfolding carry_out set_todo
  carry_out-spares (task t) pi status p i k st h e = h
  carry_out-spares (candidate r) pi status p i k st h e = e

  pub record Decided (p : PrunePack) (st : Deciding) (r : PrunePack × Deciding) : Type 0 where
    pub blobs : r.0.blobs ≡ p.blobs
    pub mark : r.0.delete_mark ≡ p.delete_mark
    pub used_ids : r.1.used_ids ≡ (from_pack p st.used_ids).1
    pub spared :
        not ((from_pack p st.used_ids).0.used_blobs == 0) ≡ true
        → spares p.to_do ≡ true
        → spares r.0.to_do ≡ true

  carry_out-blobs :
      (c : Choice) (pi : PackInfo) (status : StatusSet) (p : PrunePack) (i k : ℕ) (st : Deciding)
      → let r = carry_out j integer_sqrt now o c pi status p i k st in
        (r.0.blobs ≡ p.blobs) × (r.0.delete_mark ≡ p.delete_mark) × (r.1.used_ids ≡ st.used_ids)
  unfolding carry_out set_todo
  carry_out-blobs (task t) pi status p i k st = (refl, refl, refl)
  carry_out-blobs (candidate r) pi status p i k st = (refl, refl, refl)

  choose_needed :
      (p : PrunePack) (b : Bool) (n k : ℕ)
      → not (n == 0) ≡ true
      → spares_choice (choose j integer_sqrt now o p b n k) ≡ true
  choose_needed p b zero k h = absurd (ground arith)
  choose_needed p b (suc n) k h = choose-spares p b n k

  pub decide_pack-Decided :
      (p : PrunePack) (i k : ℕ) (st : Deciding)
      → Decided p st (decide_pack j integer_sqrt now o p i k st)
  unfolding decide_pack
  decide_pack-Decided p i k st =
      let m = from_pack p st.used_ids in
      let pi = m.0 in
      let same =
        carry_out-blobs (choose j integer_sqrt now o p p.delete_mark pi.used_blobs pi.unused_blobs)
          pi _ p i k _ in
      record {
        blobs = same.0;
        mark = same.1;
        used_ids = same.2;
        spared = λ h e.
            carry_out-spares
              (choose j integer_sqrt now o p p.delete_mark pi.used_blobs pi.unused_blobs) pi _ p i k
              _ (choose_needed p p.delete_mark pi.used_blobs pi.unused_blobs h) e;
      }
