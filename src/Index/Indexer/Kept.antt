-- ===== src/Index/Indexer/Kept.antt =====
-- Conditions on the backend under the indexer of crates/core/src/index/indexer.rs.
use rustic_core.Base.{
  ℕ, ◌+◌, ◌≡◌, Bool, true, false, ltb, length, subst, Bool-cases, inl, inr, Result, ok, >>=-eq-ok,
  ok-injective, List, ◌∷◌, [],
}
use rustic_core.PackFile.{IndexPack, IndexFile}
use rustic_core.Index.Indexer.{Call, run, Indexer, note, is_due, reset, save, save_if, add_with}

module _ {ℓ} {B : Type 0} (save_file : IndexFile → B → Result B) (Q : B → Type ℓ)
    (kept : (f : IndexFile) (b b' : B) → save_file f b ≡ ok b' → Q b → Q b') where
  pub save-kept : (ix : Indexer) (be be' : B) → save save_file ix be ≡ ok be' → Q be → Q be'
  unfolding save
  save-kept ix be be' e q =
      elim (Bool-cases (ltb 0 (length ix.file.packs + length ix.file.packs_to_delete))) [
        | inl h ↦ kept ix.file be be' (rw (h, save) at e) q
        | inr h ↦ subst Q (ok-injective (rw (h, save) at e)) q
      ]

  save_if-kept :
      (b : Bool) (later : ℕ) (ix : Indexer) (be : B) (r : Indexer × B)
      → save_if save_file b later ix be ≡ ok r
      → Q be
      → Q r.1
  unfolding save_if
  save_if-kept false later ix be r e q = subst (λ (s : Indexer × B). Q s.1) (ok-injective e) q
  save_if-kept true later ix be r e q =
      let (be', s, t) = >>=-eq-ok (save save_file ix be) (λ b. ok (reset later ix, b)) e in
      subst (λ (s : Indexer × B). Q s.1) (ok-injective t) (save-kept ix be be' s q)

  pub add_with-kept :
      (p : IndexPack) (delete : Bool) (now later : ℕ) (ix : Indexer) (be : B) (r : Indexer × B)
      → add_with save_file p delete now later ix be ≡ ok r
      → Q be
      → Q r.1
  unfolding add_with
  add_with-kept p delete now later ix be r e q =
      save_if-kept (is_due now (note p delete ix)) later (note p delete ix) be r e q

  pub run-kept :
      (calls : List Call) (ix : Indexer) (be : B) (r : Indexer × B)
      → run save_file calls ix be ≡ ok r
      → Q be
      → Q r.1
  unfolding run
  run-kept [] ix be r e q = subst (λ (s : Indexer × B). Q s.1) (ok-injective e) q
  run-kept (c ∷ calls) ix be r e q =
      let (s, a, t) =
        >>=-eq-ok (add_with save_file c.pack c.delete c.now c.later ix be)
          (λ s. run save_file calls s.0 s.1) e in
      run-kept calls s.0 s.1 r t (add_with-kept c.pack c.delete c.now c.later ix be s a q)
