-- ===== src/Packer/Writer.antt =====
-- `FileWriterHandle` and `Actor` of crates/core/src/blob/packer.rs: the packs that a packer sends are
-- written one after another, and given to the indexer. The hash of a file, the writes of the backend
-- and the times of the clock are parameters.
pub mod Found
pub mod Served
mod Tests
use rustic_core.Base.{ℕ, suc, Option, none, some, List, [], ◌∷◌, Result, ok, err, ◌>>=◌}
use rustic_core.PackFile.{IndexPack, IndexFile}
use rustic_core.Index.Indexer.{Indexer, add}

-- The time of a pack, and those that the indexer reads when it takes the pack.
pub record Times : Type 0 where
  pub stamp : ℕ
  pub now : ℕ
  pub later : ℕ

module _ {B : Type 0} (hash : List ℕ → ℕ) (write_pack : ℕ → List ℕ → B → Result B)
    (save_file : IndexFile → B → Result B) where
  -- The index of a pack that was written.
  abbrev pub stamped : ℕ → List ℕ × IndexPack → IndexPack
  stamped stamp (file, index) = record index { id = hash file; time = some stamp }

  -- `FileWriterHandle::process`, of a file with its hash.
  unfoldable pub process : ℕ → List ℕ × IndexPack → B → Result (IndexPack × B)
  process stamp load be = write_pack (hash load.0) load.0 be >>= λ be'. ok (stamped stamp load, be')

  -- What the `Actor` does with a pack: `process`, then `FileWriterHandle::index`.
  unfoldable pub write : Times → List ℕ × IndexPack → Indexer → B → Result (Indexer × B)
  unfolding process
  write t load ix be = process t.stamp load be >>= λ r. add save_file r.0 t.now t.later ix r.1

  -- The loop of the `Actor` over what was sent.
  unfoldable pub write_all :
      (ℕ → Times) → ℕ → List (List ℕ × IndexPack) → Indexer → B → Result (Indexer × B)
  unfolding write
  write_all times k [] ix be = ok (ix, be)
  write_all times k (load ∷ sent) ix be =
      write (times k) load ix be >>= λ r. write_all times (suc k) sent r.0 r.1
