-- ===== src/Packer/Writer/Found.antt =====
-- The packs that the writer of crates/core/src/blob/packer.rs stores and gives to the indexer.
use mathlib.Core.List.{append-nil, append_assoc}
use rustic_core.Base.{
  ℕ, ◌≡◌, false, Option, some, List, [], ◌∷◌, ◌++◌, All, All-impl, In, ap, sym, ◌∙◌, ◌==◌, ==_iff,
  Bool-cases, inl, inr, Result, ok, ◌≤◌, length, true, ok-injective, arith, >>=-eq-ok, subst, suc,
  refl,
}
use rustic_core.PackFile.{IndexPack, IndexFile, blob_type, IndexBlob, type_of_first}
use rustic_core.Index.Indexer.{add}
use rustic_core.Index.Entry.{is_type_refl}
use rustic_core.Index.Indexer.Saved.{add_with-contents, all_packs}
use rustic_core.Index.Indexer.Kept.{add_with-kept}
use rustic_core.Packer.Writer.{stamped}
use rustic_core.Packer.Basic.Pack.{HasContent}
use rustic_core.Blob.{BlobType}
use rustic_core.Packer.Writer.{Times, Indexer, write_all, write, process}
use rustic_core.Packer.Basic.All.{is_sent}
use rustic_core.Index.Indexer.Saved.{contents, all_packs}
use rustic_core.Index.Lookup.{is_type, stands_in}
use rustic_core.Packer.Basic.Sent.{IsReadable}

-- A backend that keeps what is written to it: the index files in order, and the packs by their ids.
pub record IsBackend {B : Type 0} (write_pack : ℕ → List ℕ → B → Result B)
    (save_file : IndexFile → B → Result B) (written : B → List IndexFile)
    (stored : B → ℕ → Option (List ℕ)) : Type 0 where
  pub saves : (f : IndexFile) (b b' : B) → save_file f b ≡ ok b' → written b' ≡ written b ++ f ∷ []
  pub save_keeps :
      (f : IndexFile) (b b' : B) (id : ℕ) → save_file f b ≡ ok b' → stored b' id ≡ stored b id
  pub writes :
      (id : ℕ) (file : List ℕ) (b b' : B) → write_pack id file b ≡ ok b' → stored b' id ≡ some file
  pub write_keeps :
      (id : ℕ) (file : List ℕ) (b b' : B) (other : ℕ)
      → write_pack id file b ≡ ok b'
      → (other == id) ≡ false
      → stored b' other ≡ stored b other
  pub write_written :
      (id : ℕ) (file : List ℕ) (b b' : B) → write_pack id file b ≡ ok b' → written b' ≡ written b

module _ {B : Type 0} (hash : List ℕ → ℕ) (write_pack : ℕ → List ℕ → B → Result B)
    (save_file : IndexFile → B → Result B) (written : B → List IndexFile)
    (stored : B → ℕ → Option (List ℕ)) (be_law : IsBackend write_pack save_file written stored)
    (content : ℕ → List ℕ) (files : List (List ℕ))
    (collision_free : (f g : List ℕ) → In f files → In g files → hash f ≡ hash g → f ≡ g) where
  -- The pack is stored with the bytes of its blobs, in one of the files.
  abbrev pub IsStored : B → IndexPack → Type 0
  IsStored be p =
      (file : List ℕ) × In file files
      × (p.id ≡ hash file)
      × (stored be p.id ≡ some file)
      × All (HasContent content file) p.blobs

  All-IsStored-write :
      (file : List ℕ) (b b' : B) (ps : List IndexPack)
      → In file files
      → write_pack (hash file) file b ≡ ok b'
      → All (IsStored b) ps
      → All (IsStored b') ps
  All-IsStored-write file b b' ps m e = All-impl (IsStored b) (IsStored b') (λ p s. kept p s) ps
    where
      kept : (p : IndexPack) → IsStored b p → IsStored b' p
      kept p (g, n, i, s, c) = elim (Bool-cases (p.id == hash file)) [
        | inl h ↦
            let same = (==_iff p.id (hash file)).0 h in
            (
              g,
              n,
              i,
              ap (stored b') same
                  ∙ be_law.writes (hash file) file b b' e
                  ∙ ap some (collision_free file g m n (sym same ∙ i)),
              c,
            )
        | inr h ↦ (g, n, i, be_law.write_keeps (hash file) file b b' p.id e h ∙ s, c)
      ]

  pub All-IsStored-save :
      (ps : List IndexPack) (f : IndexFile) (b b' : B)
      → save_file f b ≡ ok b'
      → All (IsStored b) ps
      → All (IsStored b') ps
  All-IsStored-save ps f b b' e =
      All-impl (IsStored b) (IsStored b')
        (λ p (g, n, i, s, c). (g, n, i, be_law.save_keeps f b b' p.id e ∙ s, c)) ps

  module _ (t : BlobType) (decrypt : List ℕ → Result (List ℕ)) (times : ℕ → Times) where
    readable-is_type :
        (p : IndexPack)
        → 1 ≤ length p.blobs
        → All (λ b. b.tpe ≡ t) p.blobs
        → is_type (blob_type p) t ≡ true
    unfolding blob_type type_of_first
    readable-is_type p h a = go p.blobs h a
      where
        go :
            (bs : List IndexBlob)
            → 1 ≤ length bs
            → All (λ b. b.tpe ≡ t) bs
            → is_type (type_of_first bs) t ≡ true
        go [] h a = absurd (omega arith)
        go (b ∷ bs) h a = subst (λ x. is_type x t ≡ true) (sym a.0) (is_type_refl t)

    abbrev pub here : Indexer → B → List IndexPack
    here = contents save_file written be_law.saves false

    abbrev stamp : ℕ → List ℕ × IndexPack → IndexPack
    stamp k load = stamped hash write_pack save_file (times k).stamp load

    -- What is written stands in the index files or in the indexer, and is stored.
    abbrev pub Written :
        List IndexPack → List (List ℕ × IndexPack) → Indexer → B → Indexer × B → Type 0
    Written prior sent ix be r =
        (ps : List IndexPack) × (here r.0 r.1 ≡ here ix be ++ ps)
        × All (IsStored r.1) prior
        × All (IsStored r.1) ps
        × ((id : ℕ) → is_sent id sent ≡ true → stands_in t id ps ≡ true)

    -- What a write of one pack keeps and adds.
    write-IsStored :
        (prior : List IndexPack) (load : List ℕ × IndexPack) (k : ℕ) (ix : Indexer) (be : B)
        (r : Indexer × B)
        → write hash write_pack save_file (times k) load ix be ≡ ok r
        → In load.0 files
        → IsReadable content t decrypt load
        → All (IsStored be) prior
        → (here r.0 r.1 ≡ here ix be ++ stamp k load ∷ [])
          × IsStored r.1 (stamp k load)
          × All (IsStored r.1) prior
    unfolding write process add
    write-IsStored prior load k ix be r e m a q =
        let p = stamp k load in
        let (v, x, y) =
          >>=-eq-ok (process hash write_pack save_file (times k).stamp load be)
            (λ v. add save_file v.0 (times k).now (times k).later ix v.1) e in
        let (be', c, d) = >>=-eq-ok (write_pack (hash load.0) load.0 be) (λ b. ok (p, b)) x in
        let w : add save_file p (times k).now (times k).later ix be' ≡ ok r =
          subst
            (λ (u : IndexPack × B). add save_file u.0 (times k).now (times k).later ix u.1 ≡ ok r)
            (sym (ok-injective d)) y in
        let kept =
          add_with-kept save_file (λ b. All (IsStored b) (p ∷ prior))
            (All-IsStored-save (p ∷ prior)) p false (times k).now (times k).later ix be' r w
            (
              (load.0, m, refl, be_law.writes (hash load.0) load.0 be be' c, a.contents),
              All-IsStored-write load.0 be be' prior m c q,
            ) in
        (
          add_with-contents save_file written be_law.saves false false p (times k).now
                (times k).later ix be' r w
              ∙ ap (λ l. (all_packs false l ++ ix.file.packs) ++ p ∷ [])
                  (be_law.write_written (hash load.0) load.0 be be' c),
          kept.0,
          kept.1,
        )

    pub write_all-Written :
        (prior : List IndexPack) (sent : List (List ℕ × IndexPack)) (k : ℕ) (ix : Indexer) (be : B)
        (r : Indexer × B)
        → write_all hash write_pack save_file times k sent ix be ≡ ok r
        → All (λ s. In s.0 files) sent
        → All (IsReadable content t decrypt) sent
        → All (IsStored be) prior
        → Written prior sent ix be r
    unfolding write_all
    write_all-Written prior [] k ix be r e m a q = (
      [],
      ap (λ (s : Indexer × B). here s.0 s.1) (sym (ok-injective e)) ∙ sym (append-nil (here ix be)),
      subst (λ (s : Indexer × B). All (IsStored s.1) prior) (ok-injective e) q,
      tt,
      λ id x. x,
    )
    write_all-Written prior (load ∷ sent) k ix be r e m a q =
        let (s, x, y) =
          >>=-eq-ok (write hash write_pack save_file (times k) load ix be)
            (λ s. write_all hash write_pack save_file times (suc k) sent s.0 s.1) e in
        let (h, i, j) = write-IsStored prior load k ix be s x m.0 a.0 q in
        let (ps, g, (l, o), n, u) =
          write_all-Written (stamp k load ∷ prior) sent (suc k) s.0 s.1 r y m.1 a.1 (i, j) in
        (
          stamp k load ∷ ps,
          g ∙ ap (λ z. z ++ ps) h ∙ append_assoc (here ix be) (stamp k load ∷ []) ps,
          o,
          (l, n),
          λ id z. ground (arith, readable-is_type (stamp k load) a.0.filled a.0.typed, u id),
        )
