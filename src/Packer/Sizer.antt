-- ===== src/Packer/Sizer.antt =====
-- `PackSizer` of crates/core/src/blob/packer.rs. The integer square root is that of the crate
-- integer_sqrt, a parameter.
pub mod Bounds
use rustic_core.Base.{ℕ, ◌*◌, ◌%◌, ◌<◌, Bool, not, ◌&&◌, ltb, ◌==◌, min, if◌then◌else◌}
use rustic_core.Base.Word.{add_u32, mul_u32, add_u64, u32_mod, mul_u64}
use rustic_core.Blob.{BlobType}
use rustic_core.Config.{ConfigFile, packsize, packsize_ok_percents}

-- The absolute maximum size of a pack, 4076 MiB.
abbrev pub max_size : ℕ
max_size = 4076 * 1024 * 1024

-- The maximum number of blobs in a pack.
abbrev pub max_count : ℕ
max_count = 10_000

-- The maximum age of a pack, five minutes in seconds.
abbrev pub max_age : ℕ
max_age = 300

pub record PackSizer : Type 0 where
  pub default_size : ℕ
  pub grow_factor : ℕ
  pub size_limit : ℕ
  pub current_size : ℕ
  pub min_packsize_tolerate_percent : ℕ
  pub max_packsize_tolerate_percent : ℕ

unfoldable pub from_config : ConfigFile → BlobType → ℕ → PackSizer
from_config config blob_type current_size =
    let p = packsize config blob_type in
    let (min_percent, max_percent) = packsize_ok_percents config in
    record {
      default_size = p.size;
      grow_factor = p.grow_factor;
      size_limit = p.size_limit;
      current_size = current_size;
      min_packsize_tolerate_percent = min_percent;
      max_packsize_tolerate_percent = max_percent;
    }

unfoldable pub fixed : ℕ → PackSizer
fixed size = record {
  default_size = size;
  grow_factor = 0;
  size_limit = size;
  current_size = 0;
  min_packsize_tolerate_percent = 100;
  max_packsize_tolerate_percent = 100;
}

unfoldable pub add_size : PackSizer → ℕ → PackSizer
add_size s added = record s { current_size = add_u64 s.current_size added }

module _ (integer_sqrt : ℕ → ℕ) where
  -- The size before the limits. `as u32` keeps the low 32 bits.
  unfoldable pub grown_size : PackSizer → ℕ
  grown_size s =
      if s.grow_factor == 0
      then s.default_size
      else add_u32 (mul_u32 (integer_sqrt s.current_size % u32_mod) s.grow_factor) s.default_size

  unfoldable pub pack_size : PackSizer → ℕ
  pack_size s = min (min (grown_size s) s.size_limit) max_size

  unfoldable pub is_too_small : PackSizer → ℕ → Bool
  is_too_small s size =
      ltb (mul_u64 size 100) (mul_u64 (pack_size s) s.min_packsize_tolerate_percent)

  unfoldable pub is_too_large : PackSizer → ℕ → Bool
  is_too_large s size =
      ltb (mul_u64 (pack_size s) s.max_packsize_tolerate_percent) (mul_u64 size 100)

  unfoldable pub size_ok : PackSizer → ℕ → Bool
  unfolding is_too_small is_too_large
  size_ok s size = not (is_too_small s size) && not (is_too_large s size)
