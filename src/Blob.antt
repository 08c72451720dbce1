-- ===== src/Blob.antt =====
-- crates/core/src/blob.rs: blob types and locations, and the coalescing of reads.
-- Ids are 256-bit numbers, in the order of their big-endian bytes.
pub mod Coalesce
mod Tests
use rustic_core.Base.{
  ℕ, ◌+◌, ◌*◌, ◌%◌, Bool, true, false, Option, none, some, List, [], ◌∷◌, ◌++◌, ◌&&◌, ◌⊎◌, inl, inr,
  leb, sum_by, if◌then◌else◌,
}
use rustic_core.Base.Word.{add_u32, sub_u32, u32_mod}

-- The maximum size of a pack part that is read at once: 40 MiB.
abbrev pub limit_pack_read : ℕ
limit_pack_read = 40 * 1024 * 1024

-- The maximum size of a hole that is still read: 256 KiB.
abbrev pub max_holesize : ℕ
max_holesize = 256 * 1024

pub data BlobType : Type 0 where
  tree_blob data_blob : BlobType

unfoldable pub is_cacheable : BlobType → Bool
is_cacheable tree_blob = true
is_cacheable data_blob = false

-- `BlobTypeMap<T>`, an `EnumMap` over the two types.
pub record BlobTypeMap {ℓ} (T : Type ℓ) : Type ℓ where
  pub tree : T
  pub content : T

module _ {ℓ} {T : Type ℓ} where
  -- `map[tpe]`
  abbrev pub at : BlobTypeMap T → BlobType → T
  at m tree_blob = m.tree
  at m data_blob = m.content

  -- `map[tpe] = v`
  abbrev pub put : BlobTypeMap T → BlobType → T → BlobTypeMap T
  put m tree_blob v = record m { tree = v }
  put m data_blob v = record m { content = v }

  -- `Initialize::init`
  abbrev pub init : (BlobType → T) → BlobTypeMap T
  init f = record { tree = f tree_blob; content = f data_blob }

pub record BlobLocation : Type 0 where
  pub offset : ℕ
  pub length : ℕ
  pub uncompressed_length : Option ℕ

unfoldable pub data_length : BlobLocation → ℕ
data_length l = elim l.uncompressed_length [ none ↦ sub_u32 l.length 32 | some n ↦ n ]

pub record BlobLocations {ℓ} (T : Type ℓ) : Type ℓ where
  pub offset : ℕ
  pub length : ℕ
  pub blobs : List (BlobLocation × T)

module _ {ℓ} {T : Type ℓ} where
  -- The method `length`; the name belongs to the field of the record.
  unfoldable pub blobs_length : BlobLocations T → ℕ
  blobs_length l = sum_by (λ b. b.0.length) l.blobs % u32_mod

  unfoldable pub from_blob_location : BlobLocation → T → BlobLocations T
  from_blob_location location target = record {
    offset = location.offset;
    length = location.length;
    blobs = (location, target) ∷ [];
  }

  unfoldable pub can_coalesce : BlobLocations T → BlobLocations T → Bool
  can_coalesce self other =
      leb other.offset (add_u32 (add_u32 self.offset self.length) max_holesize)
      && leb (add_u32 self.offset self.length) other.offset
      && leb (sub_u32 (add_u32 other.offset other.length) self.offset) limit_pack_read

  unfoldable pub append : BlobLocations T → BlobLocations T → BlobLocations T
  append self other = record {
    offset = self.offset;
    length = sub_u32 (add_u32 other.offset other.length) self.offset;
    blobs = self.blobs ++ other.blobs;
  }

  -- `Ok` is the left side, `Err` the right.
  unfoldable pub coalesce :
      BlobLocations T → BlobLocations T → BlobLocations T ⊎ (BlobLocations T × BlobLocations T)
  unfolding can_coalesce append
  coalesce self other =
      if can_coalesce self other then inl (append self other) else inr (self, other)
