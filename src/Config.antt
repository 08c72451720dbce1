-- ===== src/Config.antt =====
-- crates/core/src/repofile/configfile.rs: the repository's config file and its defaults.
-- A string is the list of its character codes; `usize` has 64 bits.
pub mod Poly
pub mod Options
pub mod Validity
pub mod Overlay
pub mod Apply
pub mod Tests
use rustic_core.Base.{
  ℕ, ◌*◌, ◌^◌, Bool, true, false, Option, none, some, List, ◌&&◌, ◌==◌, leb, is_some, unwrap_or,
  Result, ok, err, ErrorKind, unsupported, if◌then◌else◌, zero, suc,
}
use rustic_core.Base.Word.{u32_max}
use rustic_core.Base.Int.{ℤ, pos, negsuc, is_zero}
use rustic_core.Blob.{BlobType, tree_blob, data_blob}
use Poly.{eq_codes, hex_of_u64, u64_from_hex}

abbrev pub kb : ℕ
kb = 1024

abbrev pub mb : ℕ
mb = 1024 * kb

abbrev pub default_tree_size : ℕ
default_tree_size = 4 * mb

abbrev pub default_data_size : ℕ
default_data_size = 32 * mb

abbrev pub default_grow_factor : ℕ
default_grow_factor = 32

abbrev pub default_size_limit : ℕ
default_size_limit = u32_max

abbrev pub default_min_percentage : ℕ
default_min_percentage = 30

abbrev pub default_chunk_size : ℕ
default_chunk_size = 1024 * 1024

abbrev pub default_chunk_min_size : ℕ
default_chunk_min_size = 512 * 1024

abbrev pub default_chunk_max_size : ℕ
default_chunk_max_size = 8 * 1024 * 1024

pub data Chunker : Type 0 where
  rabin fixed_size : Chunker

pub record ConfigFile : Type 0 where
  pub version : ℕ
  pub id : ℕ
  pub chunker : Option Chunker
  pub chunker_polynomial : List ℕ
  pub chunk_size : Option ℕ
  pub chunk_min_size : Option ℕ
  pub chunk_max_size : Option ℕ
  pub is_hot : Option Bool
  pub append_only : Option Bool
  pub compression : Option ℤ
  pub treepack_size : Option ℕ
  pub treepack_growfactor : Option ℕ
  pub treepack_size_limit : Option ℕ
  pub datapack_size : Option ℕ
  pub datapack_growfactor : Option ℕ
  pub datapack_size_limit : Option ℕ
  pub min_packsize_tolerate_percent : Option ℕ
  pub max_packsize_tolerate_percent : Option ℕ
  pub extra_verify : Option Bool

unfoldable pub new : ℕ → ℕ → ℕ → ConfigFile
new version id poly = record {
  version = version;
  id = id;
  chunker = none;
  chunker_polynomial = hex_of_u64 poly;
  chunk_size = none;
  chunk_min_size = none;
  chunk_max_size = none;
  is_hot = none;
  append_only = none;
  compression = none;
  treepack_size = none;
  treepack_growfactor = none;
  treepack_size_limit = none;
  datapack_size = none;
  datapack_growfactor = none;
  datapack_size_limit = none;
  min_packsize_tolerate_percent = none;
  max_packsize_tolerate_percent = none;
  extra_verify = none;
}

unfoldable pub poly : ConfigFile → Result ℕ
poly c = u64_from_hex c.chunker_polynomial

zstd_v2 : Option ℤ → Option ℤ
zstd_v2 none = some (pos 0)
zstd_v2 (some c) = if is_zero c then none else some c

-- `Ok(None)` is no compression.
unfoldable pub zstd : ConfigFile → Result (Option ℤ)
unfolding zstd_v2
zstd c =
    if c.version == 1
    then ok none
    else if c.version == 2
    then ok (zstd_v2 c.compression)
    else err unsupported

unfoldable pub extra_verify : ConfigFile → Bool
extra_verify c = unwrap_or c.extra_verify true

pub record PackSize : Type 0 where
  pub size : ℕ
  pub grow_factor : ℕ
  pub size_limit : ℕ

unfoldable pub packsize : ConfigFile → BlobType → PackSize
packsize c tree_blob = record {
  size = unwrap_or c.treepack_size default_tree_size;
  grow_factor = unwrap_or c.treepack_growfactor default_grow_factor;
  size_limit = unwrap_or c.treepack_size_limit default_size_limit;
}
packsize c data_blob = record {
  size = unwrap_or c.datapack_size default_data_size;
  grow_factor = unwrap_or c.datapack_growfactor default_grow_factor;
  size_limit = unwrap_or c.datapack_size_limit default_size_limit;
}

max_percent : Option ℕ → ℕ
max_percent none = u32_max
max_percent (some percent) = if percent == 0 then u32_max else percent

unfoldable pub packsize_ok_percents : ConfigFile → ℕ × ℕ
unfolding max_percent
packsize_ok_percents c = (
  unwrap_or c.min_packsize_tolerate_percent default_min_percentage,
  max_percent c.max_packsize_tolerate_percent,
)

unfoldable pub chunker : ConfigFile → Chunker
chunker c = unwrap_or c.chunker rabin

unfoldable pub chunk_size : ConfigFile → ℕ
chunk_size c = unwrap_or c.chunk_size default_chunk_size

unfoldable pub chunk_min_size : ConfigFile → ℕ
chunk_min_size c = unwrap_or c.chunk_min_size default_chunk_min_size

unfoldable pub chunk_max_size : ConfigFile → ℕ
chunk_max_size c = unwrap_or c.chunk_max_size default_chunk_max_size

same_params : Chunker → Chunker → ConfigFile → ConfigFile → Bool
unfolding chunk_size chunk_min_size chunk_max_size
same_params rabin rabin a b =
    eq_codes a.chunker_polynomial b.chunker_polynomial
    && chunk_size a == chunk_size b
    && chunk_min_size a == chunk_min_size b
    && chunk_max_size a == chunk_max_size b
same_params fixed_size fixed_size a b = chunk_size a == chunk_size b
same_params _ _ a b = false

unfoldable pub has_same_chunker : ConfigFile → ConfigFile → Bool
unfolding same_params chunker
has_same_chunker a b = same_params (chunker a) (chunker b) a b
