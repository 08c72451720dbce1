-- ===== src/Index/Indexer/Saved.antt =====
-- The index files that the indexer of crates/core/src/index/indexer.rs writes.
use mathlib.Core.List.{append-nil, append_assoc}
use rustic_core.Base.{
  ℕ, ◌+◌, ◌≡◌, ◌<◌, ◌≤◌, Bool, true, false, List, [], ◌∷◌, ◌++◌, ltb, length, sum_by, arith, refl,
  sym, ap, ◌∙◌, Result, ok, >>=-eq-ok, ok-injective, Bool-cases, inl, inr, sum_by-append, All,
  length-append, subst, All-append,
}
use rustic_core.PackFile.{IndexPack, IndexFile}
use rustic_core.Index.Indexer.{
  max_count, add_to_file, Indexer, reset, note, is_due, Call, save, save_if, add_with, run,
  finalize, new,
}
use rustic_core.Base.Word.{u64_mod}

-- The pack, if it is of the kind: to be deleted or not.
abbrev pub pack_if : Bool → Bool → IndexPack → List IndexPack
pack_if true true p = p ∷ []
pack_if false false p = p ∷ []
pack_if _ _ p = []

-- The packs of the calls of a kind.
abbrev pub packs_added : Bool → List Call → List IndexPack
packs_added d [] = []
packs_added d (c ∷ calls) = pack_if d c.delete c.pack ++ packs_added d calls

abbrev pub file_packs : Bool → IndexFile → List IndexPack
file_packs true f = f.packs_to_delete
file_packs false f = f.packs

-- The packs of index files, of a kind.
abbrev pub all_packs : Bool → List IndexFile → List IndexPack
all_packs d [] = []
all_packs d (f ∷ files) = file_packs d f ++ all_packs d files

pub all_packs-append :
    (d : Bool) (fs gs : List IndexFile) → all_packs d (fs ++ gs) ≡ all_packs d fs ++ all_packs d gs
all_packs-append d [] gs = refl
all_packs-append d (f ∷ fs) gs = simp (all_packs-append d fs gs, append_assoc)

file_packs-add :
    (d e : Bool) (p : IndexPack) (f : IndexFile)
    → file_packs d (add_to_file p e f) ≡ file_packs d f ++ pack_if d e p
unfolding add_to_file
file_packs-add true true p f = refl
file_packs-add false false p f = refl
file_packs-add true false p f = sym (append-nil f.packs_to_delete)
file_packs-add false true p f = sym (append-nil f.packs)

nil_of_length {ℓ} : {A : Type ℓ} (l : List A) → length l ≡ 0 → l ≡ []
nil_of_length [] e = refl
nil_of_length (x ∷ l) e = absurd (omega arith)

no_packs :
    (d : Bool) (f : IndexFile)
    → ltb 0 (length f.packs + length f.packs_to_delete) ≡ false
    → file_packs d f ≡ []
no_packs true f h = nil_of_length f.packs_to_delete (ground arith)
no_packs false f h = nil_of_length f.packs (ground arith)

abbrev pub blobs_in : IndexFile → ℕ
blobs_in f = sum_by (λ p. length p.blobs) f.packs + sum_by (λ p. length p.blobs) f.packs_to_delete

-- A file is not empty, and has fewer blobs than the limit and a pack together.
abbrev pub IsBounded : ℕ → IndexFile → Type 0
IsBounded m f = (1 ≤ length f.packs + length f.packs_to_delete) × (blobs_in f < max_count + m)

abbrev HasCounted : Indexer → Type 0
HasCounted ix = (ix.count ≡ blobs_in ix.file) × (ix.count < max_count)

module _ {B : Type 0} (save_file : IndexFile → B → Result B) (written : B → List IndexFile)
    (saves : (f : IndexFile) (b b' : B)
      → save_file f b ≡ ok b'
      → written b' ≡ written b ++ f ∷ []) where
  -- The packs that are written or wait in the indexer.
  abbrev pub contents : Bool → Indexer → B → List IndexPack
  contents d ix be = all_packs d (written be) ++ file_packs d ix.file

  note-contents :
      (d e : Bool) (p : IndexPack) (ix : Indexer) (be : B)
      → contents d (note p e ix) be ≡ contents d ix be ++ pack_if d e p
  unfolding note
  note-contents d e p ix be =
      ap (λ l. all_packs d (written be) ++ l) (file_packs-add d e p ix.file)
      ∙ sym (append_assoc (all_packs d (written be)) (file_packs d ix.file) (pack_if d e p))

  -- After a save everything is written.
  pub save-contents :
      (d : Bool) (ix : Indexer) (be be' : B)
      → save save_file ix be ≡ ok be'
      → all_packs d (written be') ≡ contents d ix be
  unfolding save
  save-contents d ix be be' e =
      elim (Bool-cases (ltb 0 (length ix.file.packs + length ix.file.packs_to_delete))) [
        | inl h ↦
            let w = saves ix.file be be' (rw (h, save) at e) in
            ap (all_packs d) w
            ∙ all_packs-append d (written be) (ix.file ∷ [])
            ∙ ap (λ l. all_packs d (written be) ++ l) (append-nil (file_packs d ix.file))
        | inr h ↦
            let w = ok-injective (rw (h, save) at e) in
            sym (ap (λ b. all_packs d (written b)) w)
            ∙ sym (append-nil (all_packs d (written be)))
            ∙ sym (ap (λ l. all_packs d (written be) ++ l) (no_packs d ix.file h))
      ]

  save_if-contents :
      (d b : Bool) (later : ℕ) (ix : Indexer) (be : B) (r : Indexer × B)
      → save_if save_file b later ix be ≡ ok r
      → contents d r.0 r.1 ≡ contents d ix be
  unfolding save_if reset
  save_if-contents d false later ix be r e =
      sym (ap (λ (q : Indexer × B). contents d q.0 q.1) (ok-injective e))
  save_if-contents d true later ix be r e =
      let (be', s, q) = >>=-eq-ok (save save_file ix be) (λ b. ok (reset later ix, b)) e in
      sym (ap (λ (q : Indexer × B). contents d q.0 q.1) (ok-injective q))
      ∙ reset-contents d later ix be'
      ∙ save-contents d ix be be' s
    where
      reset-contents :
          (d : Bool) (later : ℕ) (ix : Indexer) (be : B)
          → contents d (reset later ix) be ≡ all_packs d (written be)
      reset-contents true later ix be = append-nil (all_packs true (written be))
      reset-contents false later ix be = append-nil (all_packs false (written be))

  pub add_with-contents :
      (d e : Bool) (p : IndexPack) (now later : ℕ) (ix : Indexer) (be : B) (r : Indexer × B)
      → add_with save_file p e now later ix be ≡ ok r
      → contents d r.0 r.1 ≡ contents d ix be ++ pack_if d e p
  unfolding add_with
  add_with-contents d e p now later ix be r h =
      save_if-contents d (is_due now (note p e ix)) later (note p e ix) be r h
      ∙ note-contents d e p ix be

  pub run-contents :
      (d : Bool) (calls : List Call) (ix : Indexer) (be : B) (r : Indexer × B)
      → run save_file calls ix be ≡ ok r
      → contents d r.0 r.1 ≡ contents d ix be ++ packs_added d calls
  unfolding run add_with
  run-contents d [] ix be r e =
      sym (ap (λ (q : Indexer × B). contents d q.0 q.1) (ok-injective e))
      ∙ sym (append-nil (contents d ix be))
  run-contents d (c ∷ calls) ix be r e =
      let (q, s, t) =
        >>=-eq-ok (add_with save_file c.pack c.delete c.now c.later ix be)
          (λ q. run save_file calls q.0 q.1) e in
      run-contents d calls q.0 q.1 r t
      ∙ ap (λ l. l ++ packs_added d calls)
          (add_with-contents d c.delete c.pack c.now c.later ix be q s)
      ∙ append_assoc (contents d ix be) (pack_if d c.delete c.pack) (packs_added d calls)

  module _ (m : ℕ) (fits : max_count + m < u64_mod) where
    note-HasCounted :
        (d : Bool) (p : IndexPack) (ix : Indexer)
        → length p.blobs ≤ m
        → HasCounted ix
        → ((note p d ix).count ≡ blobs_in (note p d ix).file)
          × (blobs_in (note p d ix).file < max_count + m)
          × (1 ≤ length (note p d ix).file.packs + length (note p d ix).file.packs_to_delete)
    unfolding note add_to_file
    note-HasCounted true p ix h k = ground (
      arith,
      sum_by-append (λ (q : IndexPack). length q.blobs) ix.file.packs_to_delete (p ∷ []),
      length-append ix.file.packs_to_delete (p ∷ []),
    )
    note-HasCounted false p ix h k = ground (
      arith,
      sum_by-append (λ (q : IndexPack). length q.blobs) ix.file.packs (p ∷ []),
      length-append ix.file.packs (p ∷ []),
    )

    abbrev IsFine : Indexer → B → Type 0
    IsFine ix be = HasCounted ix × All (IsBounded m) (written be)

    save-IsBounded :
        (ix : Indexer) (be be' : B)
        → save save_file ix be ≡ ok be'
        → blobs_in ix.file < max_count + m
        → All (IsBounded m) (written be)
        → All (IsBounded m) (written be')
    unfolding save
    save-IsBounded ix be be' e k h =
        elim (Bool-cases (ltb 0 (length ix.file.packs + length ix.file.packs_to_delete))) [
          | inl t ↦
              subst (All (IsBounded m)) (sym (saves ix.file be be' (rw (t, save) at e)))
                (All-append (IsBounded m) (written be) (ix.file ∷ []) h ((ground arith, k), tt))
          | inr t ↦ subst (λ b. All (IsBounded m) (written b)) (ok-injective (rw (t, save) at e)) h
        ]

    save_if-IsFine :
        (b : Bool) (now later : ℕ) (ix : Indexer) (be : B) (r : Indexer × B)
        → is_due now ix ≡ b
        → save_if save_file b later ix be ≡ ok r
        → ix.count ≡ blobs_in ix.file
        → blobs_in ix.file < max_count + m
        → All (IsBounded m) (written be)
        → IsFine r.0 r.1
    unfolding save_if is_due reset
    save_if-IsFine false now later ix be r n e c k h =
        subst (λ (q : Indexer × B). IsFine q.0 q.1) (ok-injective e) ((c, ground arith), h)
    save_if-IsFine true now later ix be r n e c k h =
        let (be', s, q) = >>=-eq-ok (save save_file ix be) (λ b. ok (reset later ix, b)) e in
        subst (λ (q : Indexer × B). IsFine q.0 q.1) (ok-injective q)
          ((omega arith, omega arith), save-IsBounded ix be be' s k h)

    run-IsFine :
        (calls : List Call) (ix : Indexer) (be : B) (r : Indexer × B)
        → All (λ c. length c.pack.blobs ≤ m) calls
        → run save_file calls ix be ≡ ok r
        → IsFine ix be
        → IsFine r.0 r.1
    unfolding run add_with
    run-IsFine [] ix be r a e h = subst (λ (q : Indexer × B). IsFine q.0 q.1) (ok-injective e) h
    run-IsFine (c ∷ calls) ix be r a e h =
        let (q, s, t) =
          >>=-eq-ok (add_with save_file c.pack c.delete c.now c.later ix be)
            (λ q. run save_file calls q.0 q.1) e in
        let ix' = note c.pack c.delete ix in
        let (x, y, z) = note-HasCounted c.delete c.pack ix a.0 h.0 in
        run-IsFine calls q.0 q.1 r a.1 t
          (save_if-IsFine (is_due c.now ix') c.now c.later ix' be q refl s x y h.1)

  -- Where a new indexer takes the packs of some calls and is finalized, and no call fails: the index files
  -- have the packs that they had and those of the calls, in order, the ones to delete apart from the others.
  -- If no pack has more than `m` blobs, and no file was empty or had 50000 + m blobs or more, then none is or
  -- has.
  pub finalize-contents :
      (calls : List Call) (now m : ℕ) (be be' : B) (r : Indexer × B)
      → run save_file calls (new now) be ≡ ok r
      → finalize save_file r.0 r.1 ≡ ok be'
      → max_count + m < u64_mod
      → All (λ c. length c.pack.blobs ≤ m) calls
      → All (IsBounded m) (written be)
      → ((d : Bool) → all_packs d (written be') ≡ all_packs d (written be) ++ packs_added d calls)
        × All (IsBounded m) (written be')
  unfolding finalize new
  finalize-contents calls now m be be' r e f fits a h =
      let ((c, k), g) =
        run-IsFine m fits calls (new now) be r a e ((omega arith, omega arith), h) in
      (
        λ d.
            save-contents d r.0 r.1 be' f
            ∙ run-contents d calls (new now) be r e
            ∙ ap (λ l. l ++ packs_added d calls) (nothing d),
        save-IsBounded m fits r.0 r.1 be' f (omega arith) g,
      )
    where
      nothing : (d : Bool) → contents d (new now) be ≡ all_packs d (written be)
      nothing true = append-nil (all_packs true (written be))
      nothing false = append-nil (all_packs false (written be))
