-- ===== src/Config/Overlay.antt =====
-- What `ConfigOptions::apply` returns where it succeeds: the config with the options laid over it.
use rustic_core.Base.{ℕ, ◌≡◌, refl, Bool, Option, none, some, Result, ok, err, ◌>>=◌, arith, subst}
use rustic_core.Base.Int.{ℤ}
use rustic_core.Config.{ConfigFile, Chunker}
use rustic_core.Config.Options.{
  ConfigOptions, when_some, apply, apply_version, apply_chunker, apply_chunk_size,
  apply_chunk_min_size, apply_chunk_max_size, check_chunker, apply_compression, apply_append_only,
  apply_treepack_size, apply_treepack_growfactor, apply_treepack_size_limit, apply_datapack_size,
  apply_datapack_growfactor, apply_datapack_size_limit, apply_min_percent, apply_max_percent,
  apply_extra_verify,
}

-- The option's value, or the old one.
abbrev pub over {ℓ} : {A : Type ℓ} → Option A → Option A → Option A
over none old = old
over (some a) old = some a

abbrev pub over_version : Option ℕ → ℕ → ℕ
over_version none old = old
over_version (some a) old = a

-- Every option replaces its setting if it is given, but for `extra_verify`, which is replaced always.
abbrev pub overlay : ConfigOptions → ConfigFile → ConfigFile
overlay o c = record c {
  version = over_version o.set_version c.version;
  chunker = over o.set_chunker c.chunker;
  chunk_size = over o.set_chunk_size c.chunk_size;
  chunk_min_size = over o.set_chunk_min_size c.chunk_min_size;
  chunk_max_size = over o.set_chunk_max_size c.chunk_max_size;
  compression = over o.set_compression c.compression;
  append_only = over o.set_append_only c.append_only;
  treepack_size = over o.set_treepack_size c.treepack_size;
  treepack_growfactor = over o.set_treepack_growfactor c.treepack_growfactor;
  treepack_size_limit = over o.set_treepack_size_limit c.treepack_size_limit;
  datapack_size = over o.set_datapack_size c.datapack_size;
  datapack_growfactor = over o.set_datapack_growfactor c.datapack_growfactor;
  datapack_size_limit = over o.set_datapack_size_limit c.datapack_size_limit;
  min_packsize_tolerate_percent =
      over o.set_min_packsize_tolerate_percent c.min_packsize_tolerate_percent;
  max_packsize_tolerate_percent =
      over o.set_max_packsize_tolerate_percent c.max_packsize_tolerate_percent;
  extra_verify = o.set_extra_verify;
}

-- A computation returns nothing but `c`.
record Only (c : ConfigFile) (m : Result ConfigFile) : Type 0 where
  at : (d : ConfigFile) → m ≡ ok d → d ≡ c

Only-bind :
    (c e : ConfigFile) (m : Result ConfigFile) (f : ConfigFile → Result ConfigFile)
    → Only c m
    → Only e (f c)
    → Only e (m >>= f)
Only-bind c e (ok d) f h k = record { at = λ x p. k.at x (subst (λ y. f y ≡ ok x) (h.at d refl) p) }
Only-bind c e (err s) f h k = record { at = λ x p. cc }

module _ (c : ConfigFile) where
  version-Only :
      (o : Option ℕ)
      → Only (record c { version = over_version o c.version }) (when_some o apply_version c)
  unfolding apply_version
  version-Only none = record { at = λ d h. ground arith }
  version-Only (some a) = record { at = λ d h. ground arith }

  chunker-Only :
      (o : Option Chunker)
      → Only (record c { chunker = over o c.chunker }) (when_some o apply_chunker c)
  unfolding apply_chunker
  chunker-Only none = record { at = λ d h. ground arith }
  chunker-Only (some a) = record { at = λ d h. ground arith }

  chunk_size-Only :
      (o : Option ℕ)
      → Only (record c { chunk_size = over o c.chunk_size }) (when_some o apply_chunk_size c)
  unfolding apply_chunk_size
  chunk_size-Only none = record { at = λ d h. ground arith }
  chunk_size-Only (some a) = record { at = λ d h. ground arith }

  chunk_min_size-Only :
      (o : Option ℕ)
      → Only
          (record c { chunk_min_size = over o c.chunk_min_size })
          (when_some o apply_chunk_min_size c)
  unfolding apply_chunk_min_size
  chunk_min_size-Only none = record { at = λ d h. ground arith }
  chunk_min_size-Only (some a) = record { at = λ d h. ground arith }

  chunk_max_size-Only :
      (o : Option ℕ)
      → Only
          (record c { chunk_max_size = over o c.chunk_max_size })
          (when_some o apply_chunk_max_size c)
  unfolding apply_chunk_max_size
  chunk_max_size-Only none = record { at = λ d h. ground arith }
  chunk_max_size-Only (some a) = record { at = λ d h. ground arith }

  chunker_check-Only : Only c (check_chunker c)
  unfolding check_chunker
  chunker_check-Only = record { at = λ d h. ground arith }

  compression-Only :
      (levels : ℤ → Bool) (o : Option ℤ)
      → Only
          (record c { compression = over o c.compression })
          (when_some o (apply_compression levels) c)
  unfolding apply_compression
  compression-Only levels none = record { at = λ d h. ground arith }
  compression-Only levels (some a) = record { at = λ d h. ground arith }

  append_only-Only :
      (o : Option Bool)
      → Only (record c { append_only = over o c.append_only }) (when_some o apply_append_only c)
  unfolding apply_append_only
  append_only-Only none = record { at = λ d h. ground arith }
  append_only-Only (some a) = record { at = λ d h. ground arith }

  treepack_size-Only :
      (o : Option ℕ)
      → Only
          (record c { treepack_size = over o c.treepack_size })
          (when_some o apply_treepack_size c)
  unfolding apply_treepack_size
  treepack_size-Only none = record { at = λ d h. ground arith }
  treepack_size-Only (some a) = record { at = λ d h. ground arith }

  treepack_growfactor-Only :
      (o : Option ℕ)
      → Only
          (record c { treepack_growfactor = over o c.treepack_growfactor })
          (when_some o apply_treepack_growfactor c)
  unfolding apply_treepack_growfactor
  treepack_growfactor-Only none = record { at = λ d h. ground arith }
  treepack_growfactor-Only (some a) = record { at = λ d h. ground arith }

  treepack_size_limit-Only :
      (o : Option ℕ)
      → Only
          (record c { treepack_size_limit = over o c.treepack_size_limit })
          (when_some o apply_treepack_size_limit c)
  unfolding apply_treepack_size_limit
  treepack_size_limit-Only none = record { at = λ d h. ground arith }
  treepack_size_limit-Only (some a) = record { at = λ d h. ground arith }

  datapack_size-Only :
      (o : Option ℕ)
      → Only
          (record c { datapack_size = over o c.datapack_size })
          (when_some o apply_datapack_size c)
  unfolding apply_datapack_size
  datapack_size-Only none = record { at = λ d h. ground arith }
  datapack_size-Only (some a) = record { at = λ d h. ground arith }

  datapack_growfactor-Only :
      (o : Option ℕ)
      → Only
          (record c { datapack_growfactor = over o c.datapack_growfactor })
          (when_some o apply_datapack_growfactor c)
  unfolding apply_datapack_growfactor
  datapack_growfactor-Only none = record { at = λ d h. ground arith }
  datapack_growfactor-Only (some a) = record { at = λ d h. ground arith }

  datapack_size_limit-Only :
      (o : Option ℕ)
      → Only
          (record c { datapack_size_limit = over o c.datapack_size_limit })
          (when_some o apply_datapack_size_limit c)
  unfolding apply_datapack_size_limit
  datapack_size_limit-Only none = record { at = λ d h. ground arith }
  datapack_size_limit-Only (some a) = record { at = λ d h. ground arith }

  min_percent-Only :
      (o : Option ℕ)
      → Only
          (record c { min_packsize_tolerate_percent = over o c.min_packsize_tolerate_percent })
          (when_some o apply_min_percent c)
  unfolding apply_min_percent
  min_percent-Only none = record { at = λ d h. ground arith }
  min_percent-Only (some a) = record { at = λ d h. ground arith }

  max_percent-Only :
      (o : Option ℕ)
      → Only
          (record c { max_packsize_tolerate_percent = over o c.max_packsize_tolerate_percent })
          (when_some o apply_max_percent c)
  unfolding apply_max_percent
  max_percent-Only none = record { at = λ d h. ground arith }
  max_percent-Only (some a) = record { at = λ d h. ground arith }

  extra_verify-Only :
      (o : Option Bool) → Only (record c { extra_verify = o }) (apply_extra_verify o c)
  unfolding apply_extra_verify
  extra_verify-Only o = record { at = λ d h. ground arith }

apply-Only :
    (levels : ℤ → Bool) (o : ConfigOptions) (c : ConfigFile) → Only (overlay o c) (apply levels o c)
unfolding apply
apply-Only levels o c = Only-bind _ _ _ _ (version-Only _ o.set_version) (
    Only-bind _ _ _ _ (chunker-Only _ o.set_chunker) (
      Only-bind _ _ _ _ (chunk_size-Only _ o.set_chunk_size) (
        Only-bind _ _ _ _ (chunk_min_size-Only _ o.set_chunk_min_size) (
          Only-bind _ _ _ _ (chunk_max_size-Only _ o.set_chunk_max_size) (
            Only-bind _ _ _ _ (chunker_check-Only _) (
              Only-bind _ _ _ _ (compression-Only _ levels o.set_compression) (
                Only-bind _ _ _ _ (append_only-Only _ o.set_append_only) (
                  Only-bind _ _ _ _ (treepack_size-Only _ o.set_treepack_size) (
                    Only-bind _ _ _ _ (treepack_growfactor-Only _ o.set_treepack_growfactor) (
                      Only-bind _ _ _ _ (treepack_size_limit-Only _ o.set_treepack_size_limit) (
                        Only-bind _ _ _ _ (datapack_size-Only _ o.set_datapack_size) (
                          Only-bind _ _ _ _ (datapack_growfactor-Only _ o.set_datapack_growfactor) (
                            Only-bind _ _ _ _ (datapack_size_limit-Only _ o.set_datapack_size_limit)
                              (Only-bind _ _ _ _
                                (min_percent-Only _ o.set_min_packsize_tolerate_percent)
                                (Only-bind _ _ _ _
                                  (max_percent-Only _ o.set_max_packsize_tolerate_percent)
                                  (extra_verify-Only _ o.set_extra_verify))))))))))))))))

-- Where `apply` succeeds it returns the config with the given options laid over it; an option that
-- is not given keeps its setting, except that `extra_verify` is unset where its option is not given.
pub apply-eq-overlay :
    (levels : ℤ → Bool) (o : ConfigOptions) (c d : ConfigFile)
    → apply levels o c ≡ ok d
    → d ≡ overlay o c
apply-eq-overlay levels o c d = (apply-Only levels o c).at d
