-- ===== src/Index/Indexer.antt =====
-- crates/core/src/index/indexer.rs: `Indexer` collects packs into index files and saves a file when it
-- has many blobs or is old. The backend is a parameter, and so are the times that the clock gives. The
-- state of an indexer after an error is dropped.
pub mod Saved
pub mod Kept
use rustic_core.Base.{
  ℕ, ◌+◌, ◌-◌, ◌*◌, Bool, true, false, ◌||◌, Option, none, some, List, [], ◌∷◌, ◌++◌, any, ltb, leb,
  ◌==◌, length, if◌then◌else◌, Result, ok, err, ◌>>=◌,
}
use rustic_core.Base.Word.{add_u64}
use rustic_core.PackFile.{IndexBlob, IndexPack, IndexFile}

-- `MAX_COUNT`
abbrev pub max_count : ℕ
max_count = 50_000

-- `MAX_AGE`, in seconds.
abbrev pub max_age : ℕ
max_age = 5 * 60

-- `IndexFile::default`
abbrev pub no_file : IndexFile
no_file = record { supersedes = none; packs = []; packs_to_delete = [] }

-- `IndexFile::add`
unfoldable pub add_to_file : IndexPack → Bool → IndexFile → IndexFile
add_to_file p true file = record file { packs_to_delete = file.packs_to_delete ++ p ∷ [] }
add_to_file p false file = record file { packs = file.packs ++ p ∷ [] }

-- `Indexer`; the backend stands beside it.
pub record Indexer : Type 0 where
  pub file : IndexFile
  pub count : ℕ
  pub created : ℕ
  pub indexed : Option (List ℕ)

-- `Indexer::new`
unfoldable pub new : ℕ → Indexer
new now = record { file = no_file; count = 0; created = now; indexed = some [] }

-- `Indexer::new_unindexed`
unfoldable pub new_unindexed : ℕ → Indexer
new_unindexed now = record { file = no_file; count = 0; created = now; indexed = none }

-- `Indexer::reset`
unfoldable pub reset : ℕ → Indexer → Indexer
reset now ix = record ix { file = no_file; count = 0; created = now }

insert_ids : List IndexBlob → List ℕ → List ℕ
insert_ids [] ids = ids
insert_ids (b ∷ blobs) ids = insert_ids blobs (b.id ∷ ids)

note_ids : List IndexBlob → Option (List ℕ) → Option (List ℕ)
unfolding insert_ids
note_ids blobs none = none
note_ids blobs (some ids) = some (insert_ids blobs ids)

-- What `add_with` does before it looks at the size and the age.
unfoldable pub note : IndexPack → Bool → Indexer → Indexer
unfolding note_ids add_to_file
note p delete ix = record ix {
  count = add_u64 ix.count (length p.blobs);
  indexed = note_ids p.blobs ix.indexed;
  file = add_to_file p delete ix.file;
}

-- The time since the creation, 0 if the clock was set back.
unfoldable pub is_due : ℕ → Indexer → Bool
is_due now ix = leb max_count ix.count || leb max_age (now - ix.created)

-- `Indexer::has`
unfoldable pub has : Indexer → ℕ → Bool
has ix id = elim ix.indexed [ none ↦ false | some ids ↦ any (λ i. i == id) ids ]

-- A call of `add_with`, with the times that the clock gives for the age and for the reset.
pub record Call : Type 0 where
  pub pack : IndexPack
  pub delete : Bool
  pub now : ℕ
  pub later : ℕ

module _ {B : Type 0} (save_file : IndexFile → B → Result B) where
  -- `Indexer::save`
  unfoldable pub save : Indexer → B → Result B
  save ix be =
      if ltb 0 (length ix.file.packs + length ix.file.packs_to_delete)
      then save_file ix.file be
      else ok be

  -- `Indexer::finalize`
  unfoldable pub finalize : Indexer → B → Result B
  finalize ix be = save ix be

  save_if : Bool → ℕ → Indexer → B → Result (Indexer × B)
  save_if true later ix be = save ix be >>= λ be'. ok (reset later ix, be')
  save_if false later ix be = ok (ix, be)

  -- `Indexer::add_with`
  unfoldable pub add_with : IndexPack → Bool → ℕ → ℕ → Indexer → B → Result (Indexer × B)
  unfolding save_if note is_due
  add_with p delete now later ix be =
      let ix' = note p delete ix in save_if (is_due now ix') later ix' be

  -- `Indexer::add`
  unfoldable pub add : IndexPack → ℕ → ℕ → Indexer → B → Result (Indexer × B)
  add p now later ix be = add_with p false now later ix be

  -- `Indexer::add_remove`
  unfoldable pub add_remove : IndexPack → ℕ → ℕ → Indexer → B → Result (Indexer × B)
  add_remove p now later ix be = add_with p true now later ix be

  -- A sequence of calls, as the packers and a prune make them.
  unfoldable pub run : List Call → Indexer → B → Result (Indexer × B)
  unfolding add_with
  run [] ix be = ok (ix, be)
  run (c ∷ calls) ix be = add_with c.pack c.delete c.now c.later ix be >>= λ r. run calls r.0 r.1
