-- ===== src/Prune/Safe.antt =====
-- That no blob in use is lost by crates/core/src/commands/prune.rs: the notions of the proof.
pub mod Pass
pub mod Passes
pub mod Others
pub mod Planned
pub mod Repacked
pub mod Checks
pub mod Carried
pub mod Keys
pub mod Fresh
pub mod Ids
pub mod Filtered
pub mod Parts
pub mod Finished
pub mod Lost
pub mod Counted
use rustic_core.Base.{
  ℕ, zero, suc, ◌+◌, ◌≤◌, ◌<◌, ◌≡◌, ◌⊎◌, Bool, true, false, not, ◌&&◌, ◌||◌, List, [], ◌∷◌, ◌++◌,
  any, sum_by, ◌==◌, if◌then◌else◌, All, length,
}
use rustic_core.Base.Word.{u16_mod}
use rustic_core.PackFile.{IndexBlob}
use rustic_core.Prune.{PackToDo, PrunePack}
use rustic_core.Prune.Used.Marks.{occurrences}
use rustic_core.Prune.Plan.{is_case}

-- A pack with the task keeps its used blobs, as long as the task is not changed.
abbrev pub spares : PackToDo → Bool
spares PackToDo.undecided = true
spares PackToDo.keep = true
spares PackToDo.repack = true
spares PackToDo.recover = true
spares _ = false

abbrev pub has_blob : ℕ → List IndexBlob → Bool
has_blob id blobs = not (occurrences id blobs == 0)

-- A pack that keeps the blob.
abbrev pub keeps : ℕ → PrunePack → Bool
keeps id p = spares p.to_do && has_blob id p.blobs

-- Some pack with the mark keeps the blob.
abbrev pub covers : Bool → ℕ → List PrunePack → Bool
covers b id packs = any (λ p. is_case b p && keeps id p) packs

-- How often the packs with the mark have the blob.
abbrev pub held : Bool → ℕ → List PrunePack → ℕ
held b id packs = sum_by (λ p. if is_case b p then occurrences id p.blobs else 0) packs

-- What a pass over packs does with the counter `u` of a blob: it becomes 0, if it was not, only by a
-- pack that keeps the blob; or every time that a pack has the blob is taken from it.
abbrev pub Pass : ℕ → Bool → ℕ → List PrunePack → ℕ → List PrunePack → Type 0
Pass id b u packs v outs =
    ((v ≡ 0) × ((u ≡ 0) ⊎ (covers b id outs ≡ true))) ⊎ ((1 ≤ v) × (v + held b id packs ≤ u))

-- No pack has too many blobs to be counted in 16 bits, and no task is set for a pack with the mark.
abbrev pub IsFresh : Bool → PrunePack → Type 0
IsFresh b p = (length p.blobs < u16_mod) × (is_case b p ≡ true → spares p.to_do ≡ true)
