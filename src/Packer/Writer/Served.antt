-- ===== src/Packer/Writer/Served.antt =====
-- The packer, the writer and the indexer together, and the index that is read from their files:
-- crates/core/src/blob/packer.rs, index/indexer.rs and index/binarysorted.rs.
use mathlib.Core.List.{append-nil}
use rustic_core.Base.{
  ℕ, ◌+◌, ◌≡◌, ◌≤◌, true, false, Option, none, some, List, ◌++◌, All, In, ap, sym, ◌∙◌, Result, ok,
  length, take, drop, any-append, ◌||◌, All-append, All-In, subst, arith, any, ◌==◌, [], ◌∷◌,
  Bool-cases, inl, ==_iff, inr, ok-injective, refl,
}
use rustic_core.Index.Answer.{keeps_locations}
use rustic_core.Blob.{tree_blob, data_blob, BlobType}
use rustic_core.PackFile.{IndexPack, IndexFile}
use rustic_core.Index.{IndexEntry, Index, get_id, IndexCollector, extend, new, full, into_index}
use rustic_core.Index.Lookup.{stands_in}
use rustic_core.Index.Answer.{Answers, get_id-Answers}
use rustic_core.Index.Indexer.{Indexer, finalize}
use rustic_core.Index.Indexer.Saved.{all_packs, save-contents}
use rustic_core.Packer.Basic.Sent.{IsReadable}
use rustic_core.Packer.Basic.All.{is_sent}
use rustic_core.Packer.Writer.{Times, write_all}
use rustic_core.Packer.Writer.Found.{IsBackend, IsStored, write_all-Written, All-IsStored-save}
use rustic_core.Index.Indexer.Kept.{save-kept}
use rustic_core.Index.Indexer
use rustic_core.Packer.Basic
use rustic_core.Packer.Basic.{RawBlob, RawPacker, PackerStats, add_blobs}
use rustic_core.Packer.Basic.All.{finalize-IsReadable}
use rustic_core.Packer.Basic.Pack.{IsRaw}
use rustic_core.Packer.Sizer.{PackSizer}
use rustic_core.PackFile.{comp_overhead}
use rustic_core.Packer.Basic.Pack.{HasContent}

keeps_all : (t : BlobType) → keeps_locations full t ≡ true
keeps_all tree_blob = refl
keeps_all data_blob = refl

module _ {B : Type 0} (hash : List ℕ → ℕ) (write_pack : ℕ → List ℕ → B → Result B)
    (save_file : IndexFile → B → Result B) (written : B → List IndexFile)
    (stored : B → ℕ → Option (List ℕ)) (be_law : IsBackend write_pack save_file written stored)
    (content : ℕ → List ℕ) (files : List (List ℕ))
    (collision_free : (f g : List ℕ) → In f files → In g files → hash f ≡ hash g → f ≡ g)
    (t : BlobType) where
  -- The index gives a location for the id, and the bytes of the id are there.
  abbrev pub Serves : Index → B → ℕ → Type 0
  Serves index be id =
      (e : IndexEntry) × (file : List ℕ) × (get_id index t id ≡ some e)
      × (e.blob_type ≡ t)
      × (stored be e.pack ≡ some file)
      × (e.location.offset + e.location.length ≤ length file)
      × (take e.location.length (drop e.location.offset file) ≡ content id)

  abbrev pub IsIndexed : B → IndexPack → Type 0
  IsIndexed = IsStored hash write_pack save_file written stored be_law content files collision_free

  Answers-Serves :
      (packs : List IndexPack) (index : Index) (be : B) (id : ℕ) (o : Option IndexEntry)
      → get_id index t id ≡ o
      → stands_in t id packs ≡ true
      → All (IsIndexed be) packs
      → Answers true packs t id o
      → Serves index be id
  Answers-Serves packs index be id none g h a k = absurd (ground arith)
  Answers-Serves packs index be id (some e) g h a (kept, tpe, (p, b, m, n, y, i, j, l)) =
      let (file, z, x, s, c) = All-In (IsIndexed be) p packs a m in
      let (f, v) = All-In (HasContent content file) b p.blobs c n in
      (
        e,
        file,
        g,
        tpe,
        subst (λ q. stored be q ≡ some file) i s,
        subst (λ q. q.offset + q.length ≤ length file) l f,
        subst (λ q. take q.length (drop q.offset file) ≡ content id) l (v ∙ ap content j),
      )

  -- The packs of the index files after a run, if they were stored before it.
  written-IsIndexed :
      (decrypt : List ℕ → Result (List ℕ)) (times : ℕ → Times) (sent : List (List ℕ × IndexPack))
      (now : ℕ) (be be' : B) (r : Indexer × B)
      → All (λ s. In s.0 files) sent
      → All (IsReadable content t decrypt) sent
      → All (IsIndexed be) (all_packs false (written be))
      → write_all hash write_pack save_file times 0 sent (Indexer.new now) be ≡ ok r
      → finalize save_file r.0 r.1 ≡ ok be'
      → All (IsIndexed be') (all_packs false (written be'))
        × ((id : ℕ)
            → (stands_in t id (all_packs false (written be)) || is_sent id sent) ≡ true
            → stands_in t id (all_packs false (written be')) ≡ true)
  unfolding finalize Indexer.new
  written-IsIndexed decrypt times sent now be be' r m a q w f =
      let old = all_packs false (written be) in
      let (ps, g, l, n, u) =
        write_all-Written hash write_pack save_file written stored be_law content files
          collision_free t decrypt times old sent 0 (Indexer.new now) be r w m a q in
      let all : all_packs false (written be') ≡ old ++ ps =
        save-contents save_file written be_law.saves false r.0 r.1 be' f
        ∙ g
        ∙ ap (λ x. x ++ ps) (append-nil old) in
      (
        subst (All (IsIndexed be')) (sym all) (
            save-kept save_file (λ b. All (IsIndexed b) (old ++ ps))
              (All-IsStored-save hash write_pack save_file written stored be_law content files
                collision_free (old ++ ps))
              r.0 r.1 be' f (All-append (IsIndexed r.1) old ps l n)),
        λ id h. ap (stands_in t id) all ∙ any-append _ old ps ∙ ground (arith, u id),
      )

  any-All :
      (id : ℕ) (sent : List (List ℕ × IndexPack)) (bs : List RawBlob)
      → All (λ b. is_sent b.id sent ≡ true) bs
      → any (λ b. b.id == id) bs ≡ true
      → is_sent id sent ≡ true
  any-All id sent [] a h = absurd (ground arith)
  any-All id sent (b ∷ bs) a h = elim (Bool-cases (b.id == id)) [
    | inl e ↦ subst (λ i. is_sent i sent ≡ true) ((==_iff b.id id).0 e) a.0
    | inr e ↦ any-All id sent bs a.1 (ground arith)
  ]

  module _ (integer_sqrt : ℕ → ℕ) (encrypt decrypt : List ℕ → Result (List ℕ))
      (encrypts : (plain : List ℕ)
        → (cipher : List ℕ) × (encrypt plain ≡ ok cipher)
          × (decrypt cipher ≡ ok plain)
          × (length cipher ≡ comp_overhead + length plain)) where
    -- Take a repository in which the packs of the index files are stored, with the bytes of each blob where
    -- the index says. A new packer takes raw blobs of at most 16 MiB and is finalized, the packs that it sends
    -- are written and given to a new indexer, and this is finalized too. If none of this fails, no two of the
    -- files have the same hash, and the index files can be collected, then `get_id` of the new index gives,
    -- for each id that was in the index or was given to the packer, a location in a stored file with the
    -- bytes of the id; and the packs of the index files are again stored with the bytes of their blobs.
    pub get_id-write_all :
        (bs : List RawBlob) (sizer : PackSizer) (times : ℕ → Times) (created now start id : ℕ)
        (be be' : B) (raw : RawPacker) (p : RawPacker × PackerStats) (r : Indexer × B)
        (c : IndexCollector)
        → All (IsRaw content) bs
        → add_blobs integer_sqrt encrypt bs
            (record { basic = Basic.new t sizer created; sent = [] })
          ≡ ok raw
        → Basic.finalize integer_sqrt encrypt now raw ≡ ok p
        → All (λ s. In s.0 files) p.0.sent
        → All (IsIndexed be) (all_packs false (written be))
        → write_all hash write_pack save_file times 0 p.0.sent (Indexer.new start) be ≡ ok r
        → finalize save_file r.0 r.1 ≡ ok be'
        → extend (all_packs false (written be')) (new full) ≡ some c
        → (stands_in t id (all_packs false (written be)) || any (λ b. b.id == id) bs) ≡ true
        → Serves (into_index c) be' id × All (IsIndexed be') (all_packs false (written be'))
    get_id-write_all bs sizer times created now start id be be' raw p r c i e f m q w g x h =
        let (raw', p', e', f', s, a) =
          finalize-IsReadable content t integer_sqrt encrypt decrypt encrypts bs sizer created now
            i in
        let same_raw = ok-injective (sym e' ∙ e) in
        let same : p' ≡ p =
          ok-injective (sym f' ∙ ap (Basic.finalize integer_sqrt encrypt now) same_raw ∙ f) in
        let s2 =
          subst (λ (y : RawPacker × PackerStats). All (λ b. is_sent b.id y.0.sent ≡ true) bs) same
            s in
        let a2 =
          subst (λ (y : RawPacker × PackerStats). All (IsReadable content t decrypt) y.0.sent) same
            a in
        let (n, u) = written-IsIndexed decrypt times p.0.sent start be be' r m a2 q w g in
        let packs = all_packs false (written be') in
        let there : stands_in t id packs ≡ true =
          u id (ground (arith, any-All id p.0.sent bs s2)) in
        (
          Answers-Serves packs (into_index c) be' id (get_id (into_index c) t id) refl there n (
              subst (λ k. Answers k packs t id (get_id (into_index c) t id)) (keeps_all t)
                (get_id-Answers full packs c t id x)),
          n,
        )
