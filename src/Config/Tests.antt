-- ===== src/Config/Tests.antt =====
-- Examples for the config file and its options.
use rustic_core.Base.{◌≡◌, Bool, true, false, none, some, [], ◌∷◌, arith, refl, ok}
use rustic_core.Base.Int.{ℤ, pos, negsuc}
use rustic_core.Config.{ConfigFile, chunker, chunk_size, chunk_min_size, chunk_max_size}
use rustic_core.Config.Poly.{u64_from_hex, hex_of_u64, u64_from_hex-hex_of_u64}
use rustic_core.Config.Options.{
  ConfigOptions, apply, apply_version, check_chunker, check_rabin_params, apply_compression,
  apply_treepack_size, to_u32, apply_min_percent, apply_extra_verify,
}
use rustic_core.Config.Validity.{IsSane, IsValid, apply-IsValid}
use rustic_core.Config.Overlay.{overlay, apply-eq-overlay}
use rustic_core.Config.Apply.{Repository, Backends, apply_config, Outcome, apply_config-Outcome}

abbrev levels : ℤ → Bool
levels (pos n) = true
levels (negsuc n) = false

abbrev pub sample : ConfigFile
sample = record {
  version = 1;
  id = 5;
  chunker = none;
  chunker_polynomial = 51 ∷ [];
  chunk_size = none;
  chunk_min_size = none;
  chunk_max_size = none;
  is_hot = none;
  append_only = none;
  compression = none;
  treepack_size = none;
  treepack_growfactor = none;
  treepack_size_limit = none;
  datapack_size = none;
  datapack_growfactor = none;
  datapack_size_limit = none;
  min_packsize_tolerate_percent = none;
  max_packsize_tolerate_percent = none;
  extra_verify = some true;
}

pub sample-IsSane : IsSane sample
sample-IsSane = record {
  version = (omega arith, omega arith);
  compression = λ h. tt;
  tree_size = tt;
  tree_limit = tt;
  data_size = tt;
  data_limit = tt;
  min_percent = tt;
  max_percent = tt;
}

abbrev options : ConfigOptions
options = record {
  set_version = some 2;
  set_chunker = none;
  set_chunk_size = none;
  set_chunk_min_size = none;
  set_chunk_max_size = none;
  set_compression = some (pos 3);
  set_append_only = none;
  set_treepack_size = some 4096;
  set_treepack_size_limit = none;
  set_treepack_growfactor = none;
  set_datapack_size = none;
  set_datapack_growfactor = none;
  set_datapack_size_limit = none;
  set_min_packsize_tolerate_percent = some 20;
  set_max_packsize_tolerate_percent = none;
  set_extra_verify = none;
}

abbrev changed : ConfigFile
changed = record sample {
  version = 2;
  compression = some (pos 3);
  treepack_size = some 4096;
  min_packsize_tolerate_percent = some 20;
  extra_verify = none;
}

apply-options : apply levels options sample ≡ ok changed
unfolding apply apply_version check_chunker check_rabin_params apply_compression apply_treepack_size
    to_u32 apply_min_percent apply_extra_verify chunker chunk_size chunk_min_size chunk_max_size
apply-options = refl

apply-IsValid_example : IsValid changed
apply-IsValid_example = apply-IsValid levels options sample changed sample-IsSane apply-options

apply-eq-overlay_example : changed ≡ overlay options sample
apply-eq-overlay_example = apply-eq-overlay levels options sample changed apply-options

-- The hot backend does not accept the new config.
abbrev backends : Backends
backends = record { cold_accepts = true; hot_accepts = false }

abbrev open_repo : Repository
open_repo = record { config = sample; cold = sample; hot = some sample }

apply_config-Outcome_example :
    Outcome levels backends options open_repo (apply_config levels backends options open_repo)
apply_config-Outcome_example = apply_config-Outcome levels backends options open_repo

u64_from_hex-hex_of_u64_example : u64_from_hex (hex_of_u64 4660) ≡ ok 4660
u64_from_hex-hex_of_u64_example = u64_from_hex-hex_of_u64 4660 (omega arith)
