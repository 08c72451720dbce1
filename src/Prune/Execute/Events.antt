-- ===== src/Prune/Execute/Events.antt =====
-- What the events of a prune, crates/core/src/commands/prune.rs, leave in the index files.
use rustic_core.Prune.Execute.{
  Event, delete_packs, delete_indexes, write_pack, save_index, Copy, written, indexed, removals,
  perform, save_file, timed, run_copies, copied, write_index, IndexFile, IndexPack, PrunePack,
}
use rustic_core.Index.Indexer.{Indexer, run, finalize}
use rustic_core.Index.Indexer.Saved.{
  all_packs, pack_if, packs_added, file_packs, contents, save-contents, run-contents,
}
use rustic_core.Index.Indexer.Kept.{save-kept, run-kept}
use rustic_core.Prune.Run.{Work}
use mathlib.Core.List.{append-nil, append_assoc}
use rustic_core.Base.{
  List, Bool, false, ◌≡◌, true, Option, ◌++◌, ◌∷◌, all, ap, [], ErrorKind, ◌∙◌, ok, ℕ, refl, arith,
  subst, none, some, sym, Result, err, suc, ok-injective, >>=-eq-ok, ◌>>=◌, ◌+◌, length,
}
use rustic_core.Prune.Retained.{all-append}

-- The index files that are saved.
abbrev pub saved : List Event → List IndexFile
saved [] = []
saved (save_index f ∷ events) = f ∷ saved events
saved (delete_packs ids ∷ events) = saved events
saved (delete_indexes ids ∷ events) = saved events
saved (write_pack p ∷ events) = saved events

-- The packs that calls of the indexer add, to be deleted or not.
abbrev pub called : Bool → List (Bool × IndexPack) → List IndexPack
called d [] = []
called d (c ∷ calls) = pack_if d c.0 c.1 ++ called d calls

-- The packs that the repackers add.
abbrev pub packs_copied : Bool → List Copy → List IndexPack
packs_copied d [] = []
packs_copied d (written p ∷ copies) = packs_copied d copies
packs_copied d (indexed p ∷ copies) = pack_if d false p ++ packs_copied d copies

abbrev pub is_write : Event → Bool
is_write (delete_packs ids) = false
is_write (delete_indexes ids) = false
is_write (write_pack p) = true
is_write (save_index f) = true

-- After the first events there are only writes.
abbrev pub IsWritten : List Event → List Event → Type 0
IsWritten first events = (more : List Event) × (events ≡ first ++ more) × (all is_write more ≡ true)

pub saved-append : (es fs : List Event) → saved (es ++ fs) ≡ saved es ++ saved fs
saved-append [] fs = refl
saved-append (save_index f ∷ es) fs = ap (λ l. f ∷ l) (saved-append es fs)
saved-append (delete_packs ids ∷ es) fs = saved-append es fs
saved-append (delete_indexes ids ∷ es) fs = saved-append es fs
saved-append (write_pack p ∷ es) fs = saved-append es fs

pub called-append :
    (d : Bool) (cs ds : List (Bool × IndexPack)) → called d (cs ++ ds) ≡ called d cs ++ called d ds
called-append d [] ds = refl
called-append d (c ∷ cs) ds = simp (called-append d cs ds, append_assoc)

pub called-removals :
    (packs : List IndexPack)
    → (called true (removals packs) ≡ packs) × (called false (removals packs) ≡ [])
unfolding removals
called-removals [] = (refl, refl)
called-removals (p ∷ packs) = let ih = called-removals packs in (ap (λ l. p ∷ l) ih.0, ih.1)

pub packs_copied-true : (copies : List Copy) → packs_copied true copies ≡ []
packs_copied-true [] = refl
packs_copied-true (written p ∷ copies) = packs_copied-true copies
packs_copied-true (indexed p ∷ copies) = packs_copied-true copies

IsWritten-append :
    (first es : List Event) (e : Event)
    → is_write e ≡ true
    → IsWritten first es
    → IsWritten first (es ++ e ∷ [])
IsWritten-append first es e h (more, same, a) = (
  more ++ e ∷ [],
  ap (λ l. l ++ e ∷ []) same ∙ append_assoc first more (e ∷ []),
  grind (arith, all-append is_write more (e ∷ [])),
)

module _ (refuse : List Event → Event → Option ErrorKind) where
  pub perform-appends :
      (e : Event) (es fs : List Event) → perform refuse e es ≡ ok fs → fs ≡ es ++ e ∷ []
  unfolding perform
  perform-appends e es fs h = go (refuse es e) h
    where
      go :
          (r : Option ErrorKind)
          → elim r [ none ↦ ok (es ++ e ∷ []) | some kind ↦ err kind ] ≡ ok fs
          → fs ≡ es ++ e ∷ []
      go none f = sym (ok-injective f)
      go (some kind) f = absurd (ground arith)

  pub save_file-saved :
      (f : IndexFile) (es fs : List Event)
      → save_file refuse f es ≡ ok fs
      → saved fs ≡ saved es ++ f ∷ []
  unfolding save_file
  save_file-saved f es fs h =
      ap saved (perform-appends (save_index f) es fs h) ∙ saved-append es (save_index f ∷ [])

  pub save_file-IsWritten :
      (first : List Event) (f : IndexFile) (es fs : List Event)
      → save_file refuse f es ≡ ok fs
      → IsWritten first es
      → IsWritten first fs
  unfolding save_file
  save_file-IsWritten first f es fs h q =
      subst (IsWritten first) (sym (perform-appends (save_index f) es fs h))
        (IsWritten-append first es (save_index f) refl q)

  -- The packs in the index files that are saved, and in the one that waits.
  abbrev pub held : Bool → Indexer → List Event → List IndexPack
  held d ix es = contents (save_file refuse) saved save_file-saved d ix es

  module _ (clock : ℕ → ℕ × ℕ) (copies : List PrunePack → Result (List Copy)) where
    packs_added-timed :
        (d : Bool) (k : ℕ) (calls : List (Bool × IndexPack))
        → packs_added d (timed refuse clock copies k calls) ≡ called d calls
    unfolding timed
    packs_added-timed d k [] = refl
    packs_added-timed d k (c ∷ calls) =
        ap (λ l. pack_if d c.0 c.1 ++ l) (packs_added-timed d (suc k) calls)

    pub run-held :
        (d : Bool) (k : ℕ) (calls : List (Bool × IndexPack)) (ix : Indexer) (es : List Event)
        (r : Indexer × List Event)
        → run (save_file refuse) (timed refuse clock copies k calls) ix es ≡ ok r
        → held d r.0 r.1 ≡ held d ix es ++ called d calls
    run-held d k calls ix es r h =
        run-contents (save_file refuse) saved save_file-saved d (timed refuse clock copies k calls)
          ix es r h
        ∙ ap (λ l. held d ix es ++ l) (packs_added-timed d k calls)

    run_copies-held :
        (d : Bool) (k : ℕ) (cs : List Copy) (ix : Indexer) (es : List Event)
        (r : Indexer × List Event)
        → run_copies refuse clock copies k cs ix es ≡ ok r
        → held d r.0 r.1 ≡ held d ix es ++ packs_copied d cs
    unfolding run_copies
    run_copies-held d k [] ix es r h =
        sym (ap (λ (q : Indexer × List Event). held d q.0 q.1) (ok-injective h))
        ∙ sym (append-nil (held d ix es))
    run_copies-held d k (written p ∷ cs) ix es r h =
        let (fs, a, b) =
          >>=-eq-ok (perform refuse (write_pack p) es)
            (λ fs. run_copies refuse clock copies k cs ix fs) h in
        let same =
          ap saved (perform-appends (write_pack p) es fs a)
          ∙ (saved-append es (write_pack p ∷ []) ∙ append-nil (saved es)) in
        run_copies-held d k cs ix fs r b
        ∙ ap (λ l. (all_packs d l ++ file_packs d ix.file) ++ packs_copied d cs) same
    run_copies-held d k (indexed p ∷ cs) ix es r h =
        let (s, a, b) =
          >>=-eq-ok (run (save_file refuse) (timed refuse clock copies k ((false, p) ∷ [])) ix es)
            (λ s. run_copies refuse clock copies (suc k) cs s.0 s.1) h in
        run_copies-held d (suc k) cs s.0 s.1 r b
        ∙ ap (λ l. l ++ packs_copied d cs)
            (run-held d k ((false, p) ∷ []) ix es s a
              ∙ ap (λ l. held d ix es ++ l) (append-nil (pack_if d false p)))
        ∙ append_assoc (held d ix es) (pack_if d false p) (packs_copied d cs)

    run_copies-IsWritten :
        (first : List Event) (k : ℕ) (cs : List Copy) (ix : Indexer) (es : List Event)
        (r : Indexer × List Event)
        → run_copies refuse clock copies k cs ix es ≡ ok r
        → IsWritten first es
        → IsWritten first r.1
    unfolding run_copies
    run_copies-IsWritten first k [] ix es r h q =
        subst (λ (s : Indexer × List Event). IsWritten first s.1) (ok-injective h) q
    run_copies-IsWritten first k (written p ∷ cs) ix es r h q =
        let (fs, a, b) =
          >>=-eq-ok (perform refuse (write_pack p) es)
            (λ fs. run_copies refuse clock copies k cs ix fs) h in
        run_copies-IsWritten first k cs ix fs r b (
          subst (IsWritten first) (sym (perform-appends (write_pack p) es fs a))
            (IsWritten-append first es (write_pack p) refl q))
    run_copies-IsWritten first k (indexed p ∷ cs) ix es r h q =
        let (s, a, b) =
          >>=-eq-ok (run (save_file refuse) (timed refuse clock copies k ((false, p) ∷ [])) ix es)
            (λ s. run_copies refuse clock copies (suc k) cs s.0 s.1) h in
        run_copies-IsWritten first (suc k) cs s.0 s.1 r b (
          run-kept (save_file refuse) (IsWritten first) (save_file-IsWritten first)
            (timed refuse clock copies k ((false, p) ∷ [])) ix es s a q)

    -- All that was added until then is saved when the new index is written, and nothing is deleted.
    pub write_index-saved :
        (first : List Event) (k : ℕ) (w : Work) (ix : Indexer) (es fs : List Event)
        → write_index refuse clock copies k w ix es ≡ ok fs
        → IsWritten first es
        → (cs : List Copy) × (copied refuse clock copies w ≡ ok cs)
          × ((d : Bool)
              → all_packs d (saved fs) ≡ (held d ix es ++ called d w.calls) ++ packs_copied d cs)
          × IsWritten first fs
    unfolding write_index finalize
    write_index-saved first k w ix es fs h q =
        let (s, a, f) =
          >>=-eq-ok (run (save_file refuse) (timed refuse clock copies k w.calls) ix es)
            (λ s. copied refuse clock copies w >>= λ cs.
              run_copies refuse clock copies (k + length w.calls) cs s.0 s.1 >>= λ t.
              finalize (save_file refuse) t.0 t.1)
            h in
        let (cs, b, g) =
          >>=-eq-ok (copied refuse clock copies w)
            (λ cs. run_copies refuse clock copies (k + length w.calls) cs s.0 s.1 >>= λ t.
              finalize (save_file refuse) t.0 t.1)
            f in
        let (t, c, e) =
          >>=-eq-ok (run_copies refuse clock copies (k + length w.calls) cs s.0 s.1)
            (λ t. finalize (save_file refuse) t.0 t.1) g in
        (
          cs,
          b,
          λ d.
              save-contents (save_file refuse) saved save_file-saved d t.0 t.1 fs e
              ∙ run_copies-held d (k + length w.calls) cs s.0 s.1 t c
              ∙ ap (λ l. l ++ packs_copied d cs) (run-held d k w.calls ix es s a),
          save-kept (save_file refuse) (IsWritten first) (save_file-IsWritten first) t.0 t.1 fs e (
              run_copies-IsWritten first (k + length w.calls) cs s.0 s.1 t c (
                run-kept (save_file refuse) (IsWritten first) (save_file-IsWritten first)
                  (timed refuse clock copies k w.calls) ix es s a q)),
        )
