-- ===== src/Config/Options.antt =====
-- `ConfigOptions` of crates/core/src/commands/config.rs, and `check_rabin_params` of
-- crates/core/src/chunker/rabin.rs. The compression levels that zstd supports are a parameter.
-- `apply` changes its argument in place; here it returns the new config. Where it fails, its
-- callers drop the config that they passed, so that one is not returned.
use Prim.Native.Nat.{bit_and}
use rustic_core.Base.{
  ℕ, Bool, Option, none, some, ◌&&◌, not, ◌==◌, ltb, leb, Result, ok, err, unsupported, internal,
  invalid_input, ◌>>=◌, ◌>>◌, fail_if, if◌then◌else◌,
}
use rustic_core.Base.Word.{u32_mod, u64_mod, sub_u64}
use rustic_core.Base.Int.{ℤ, is_zero}
use rustic_core.Config.{ConfigFile, Chunker, rabin, fixed_size}
use rustic_core.Config

pub record ConfigOptions : Type 0 where
  pub set_version : Option ℕ
  pub set_chunker : Option Chunker
  pub set_chunk_size : Option ℕ
  pub set_chunk_min_size : Option ℕ
  pub set_chunk_max_size : Option ℕ
  pub set_compression : Option ℤ
  pub set_append_only : Option Bool
  pub set_treepack_size : Option ℕ
  pub set_treepack_size_limit : Option ℕ
  pub set_treepack_growfactor : Option ℕ
  pub set_datapack_size : Option ℕ
  pub set_datapack_growfactor : Option ℕ
  pub set_datapack_size_limit : Option ℕ
  pub set_min_packsize_tolerate_percent : Option ℕ
  pub set_max_packsize_tolerate_percent : Option ℕ
  pub set_extra_verify : Option Bool

-- `chunk_size & (chunk_size - 1)` is 0 for a power of 2, and for 0.
unfoldable pub check_rabin_params : ℕ → ℕ → ℕ → Result (Unit {0})
check_rabin_params size min_size max_size = do
  fail_if (not (bit_and size (sub_u64 size 1) == 0)) unsupported
  fail_if (ltb size min_size) unsupported
  fail_if (ltb max_size size) unsupported

-- `size.as_u64().try_into()` with `construct_size_too_large_error`
unfoldable pub to_usize : ℕ → Result ℕ
to_usize n = if ltb n u64_mod then ok n else err internal

unfoldable pub to_u32 : ℕ → Result ℕ
to_u32 n = if ltb n u32_mod then ok n else err internal

-- `if let Some(a) = option { .. }` around a step that changes the config.
abbrev pub when_some {ℓ} :
    {A : Type ℓ} → Option A → (A → ConfigFile → Result ConfigFile) → ConfigFile → Result ConfigFile
when_some none f c = ok c
when_some (some a) f c = f a c

unfoldable pub apply_version : ℕ → ConfigFile → Result ConfigFile
apply_version version c = do
  fail_if (not (leb 1 version && leb version 2)) unsupported
  fail_if (ltb version c.version) unsupported
  ok (record c { version = version })

unfoldable pub apply_chunker : Chunker → ConfigFile → Result ConfigFile
apply_chunker chunker c = ok (record c { chunker = some chunker })

unfoldable pub apply_chunk_size : ℕ → ConfigFile → Result ConfigFile
unfolding to_usize
apply_chunk_size size c = do n ← to_usize size; ok (record c { chunk_size = some n })

unfoldable pub apply_chunk_min_size : ℕ → ConfigFile → Result ConfigFile
unfolding to_usize
apply_chunk_min_size size c = do n ← to_usize size; ok (record c { chunk_min_size = some n })

unfoldable pub apply_chunk_max_size : ℕ → ConfigFile → Result ConfigFile
unfolding to_usize
apply_chunk_max_size size c = do n ← to_usize size; ok (record c { chunk_max_size = some n })

unfoldable pub check_chunker : ConfigFile → Result ConfigFile
unfolding check_rabin_params
check_chunker c = elim (Config.chunker c) [
  | rabin ↦ do
    check_rabin_params (Config.chunk_size c) (Config.chunk_min_size c) (Config.chunk_max_size c)
    ok c
  | fixed_size ↦ ok c
]

unfoldable pub apply_compression : (ℤ → Bool) → ℤ → ConfigFile → Result ConfigFile
apply_compression levels compression c = do
  fail_if (c.version == 1 && not (is_zero compression)) unsupported
  fail_if (not (levels compression)) unsupported
  ok (record c { compression = some compression })

unfoldable pub apply_append_only : Bool → ConfigFile → Result ConfigFile
apply_append_only b c = ok (record c { append_only = some b })

unfoldable pub apply_treepack_size : ℕ → ConfigFile → Result ConfigFile
unfolding to_u32
apply_treepack_size size c = do n ← to_u32 size; ok (record c { treepack_size = some n })

unfoldable pub apply_treepack_growfactor : ℕ → ConfigFile → Result ConfigFile
apply_treepack_growfactor factor c = ok (record c { treepack_growfactor = some factor })

unfoldable pub apply_treepack_size_limit : ℕ → ConfigFile → Result ConfigFile
unfolding to_u32
apply_treepack_size_limit size c = do
  n ← to_u32 size
  ok (record c { treepack_size_limit = some n })

unfoldable pub apply_datapack_size : ℕ → ConfigFile → Result ConfigFile
unfolding to_u32
apply_datapack_size size c = do n ← to_u32 size; ok (record c { datapack_size = some n })

unfoldable pub apply_datapack_growfactor : ℕ → ConfigFile → Result ConfigFile
apply_datapack_growfactor factor c = ok (record c { datapack_growfactor = some factor })

unfoldable pub apply_datapack_size_limit : ℕ → ConfigFile → Result ConfigFile
unfolding to_u32
apply_datapack_size_limit size c = do
  n ← to_u32 size
  ok (record c { datapack_size_limit = some n })

unfoldable pub apply_min_percent : ℕ → ConfigFile → Result ConfigFile
apply_min_percent percent c = do
  fail_if (ltb 100 percent) invalid_input
  ok (record c { min_packsize_tolerate_percent = some percent })

unfoldable pub apply_max_percent : ℕ → ConfigFile → Result ConfigFile
apply_max_percent percent c = do
  fail_if (ltb percent 100 && ltb 0 percent) invalid_input
  ok (record c { max_packsize_tolerate_percent = some percent })

-- `config.extra_verify = self.set_extra_verify`, whether the option is set or not.
unfoldable pub apply_extra_verify : Option Bool → ConfigFile → Result ConfigFile
apply_extra_verify option c = ok (record c { extra_verify = option })

unfoldable pub apply : (ℤ → Bool) → ConfigOptions → ConfigFile → Result ConfigFile
apply levels o c = do
  c ← when_some o.set_version apply_version c
  c ← when_some o.set_chunker apply_chunker c
  c ← when_some o.set_chunk_size apply_chunk_size c
  c ← when_some o.set_chunk_min_size apply_chunk_min_size c
  c ← when_some o.set_chunk_max_size apply_chunk_max_size c
  c ← check_chunker c
  c ← when_some o.set_compression (apply_compression levels) c
  c ← when_some o.set_append_only apply_append_only c
  c ← when_some o.set_treepack_size apply_treepack_size c
  c ← when_some o.set_treepack_growfactor apply_treepack_growfactor c
  c ← when_some o.set_treepack_size_limit apply_treepack_size_limit c
  c ← when_some o.set_datapack_size apply_datapack_size c
  c ← when_some o.set_datapack_growfactor apply_datapack_growfactor c
  c ← when_some o.set_datapack_size_limit apply_datapack_size_limit c
  c ← when_some o.set_min_packsize_tolerate_percent apply_min_percent c
  c ← when_some o.set_max_packsize_tolerate_percent apply_max_percent c
  apply_extra_verify o.set_extra_verify c
