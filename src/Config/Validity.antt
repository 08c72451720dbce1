-- ===== src/Config/Validity.antt =====
-- What `ConfigOptions::apply` makes of a config: a valid one stays valid.
use rustic_core.Base.{
  ℕ, ◌≤◌, ◌<◌, ◌≡◌, refl, ◌⊎◌, Bool, Option, none, some, Result, ok, err, ◌>>=◌, arith,
}
use rustic_core.Base.Word.{u32_mod}
use rustic_core.Base.Int.{ℤ, pos}
use rustic_core.Config.{
  ConfigFile, Chunker, rabin, chunker, chunk_size, chunk_min_size, chunk_max_size,
}
use rustic_core.Config.Options.{
  ConfigOptions, when_some, apply, apply_version, apply_chunker, apply_chunk_size,
  apply_chunk_min_size, apply_chunk_max_size, check_chunker, apply_compression, apply_append_only,
  apply_treepack_size, apply_treepack_growfactor, apply_treepack_size_limit, apply_datapack_size,
  apply_datapack_growfactor, apply_datapack_size_limit, apply_min_percent, apply_max_percent,
  apply_extra_verify,
}

-- A predicate on the value of an option, if it is set.
abbrev pub IfSome : Option ℕ → (ℕ → Type 0) → Type 0
IfSome none P = Unit
IfSome (some a) P = P a

abbrev pub IsUncompressed : Option ℤ → Type 0
IsUncompressed none = Unit
IsUncompressed (some c) = c ≡ pos 0

-- The settings, apart from the chunker's.
pub record IsSane (c : ConfigFile) : Type 0 where
  pub version : (1 ≤ c.version) × (c.version ≤ 2)
  pub compression : c.version ≡ 1 → IsUncompressed c.compression
  pub tree_size : IfSome c.treepack_size (λ n. n < u32_mod)
  pub tree_limit : IfSome c.treepack_size_limit (λ n. n < u32_mod)
  pub data_size : IfSome c.datapack_size (λ n. n < u32_mod)
  pub data_limit : IfSome c.datapack_size_limit (λ n. n < u32_mod)
  pub min_percent : IfSome c.min_packsize_tolerate_percent (λ n. n ≤ 100)
  pub max_percent : IfSome c.max_packsize_tolerate_percent (λ n. (n ≡ 0) ⊎ (100 ≤ n))

-- The sizes of the Rabin chunker are in order.
pub record IsChunkable (c : ConfigFile) : Type 0 where
  pub sizes :
      chunker c ≡ rabin → (chunk_min_size c ≤ chunk_size c) × (chunk_size c ≤ chunk_max_size c)

pub record IsValid (c : ConfigFile) : Type 0 where
  pub sane : IsSane c
  pub chunkable : IsChunkable c

-- Whatever config a computation returns has the property.
pub record Returns (P : ConfigFile → Type 0) (m : Result ConfigFile) : Type 0 where
  pub at : (c : ConfigFile) → m ≡ ok c → P c

pub Returns-bind :
    {P Q : ConfigFile → Type 0} (m : Result ConfigFile) (f : ConfigFile → Result ConfigFile)
    → Returns P m
    → ((c : ConfigFile) → P c → Returns Q (f c))
    → Returns Q (m >>= f)
Returns-bind (ok c) f h k = k c (h.at c refl)
Returns-bind (err e) f h k = record { at = λ c p. cc }

module _ (c : ConfigFile) (v : IsSane c) where
  version-IsSane : (n : ℕ) → Returns IsSane (apply_version n c)
  unfolding apply_version
  version-IsSane n = record { at = λ d h. ground arith }

  chunker-IsSane : (k : Chunker) → Returns IsSane (apply_chunker k c)
  unfolding apply_chunker
  chunker-IsSane k = record { at = λ d h. ground arith }

  chunk_size-IsSane : (n : ℕ) → Returns IsSane (apply_chunk_size n c)
  unfolding apply_chunk_size
  chunk_size-IsSane n = record { at = λ d h. ground arith }

  chunk_min_size-IsSane : (n : ℕ) → Returns IsSane (apply_chunk_min_size n c)
  unfolding apply_chunk_min_size
  chunk_min_size-IsSane n = record { at = λ d h. ground arith }

  chunk_max_size-IsSane : (n : ℕ) → Returns IsSane (apply_chunk_max_size n c)
  unfolding apply_chunk_max_size
  chunk_max_size-IsSane n = record { at = λ d h. ground arith }

  check_chunker-IsValid : Returns IsValid (check_chunker c)
  unfolding check_chunker chunker chunk_size chunk_min_size chunk_max_size
  check_chunker-IsValid = record { at = λ d h. ground arith }

module _ (c : ConfigFile) (v : IsValid c) where
  compression-IsValid : (levels : ℤ → Bool) (l : ℤ) → Returns IsValid (apply_compression levels l c)
  unfolding apply_compression chunker chunk_size chunk_min_size chunk_max_size
  compression-IsValid levels l = record { at = λ d h. ground arith }

  append_only-IsValid : (b : Bool) → Returns IsValid (apply_append_only b c)
  unfolding apply_append_only chunker chunk_size chunk_min_size chunk_max_size
  append_only-IsValid b = record { at = λ d h. ground arith }

  treepack_size-IsValid : (n : ℕ) → Returns IsValid (apply_treepack_size n c)
  unfolding apply_treepack_size chunker chunk_size chunk_min_size chunk_max_size
  treepack_size-IsValid n = record { at = λ d h. ground arith }

  treepack_growfactor-IsValid : (n : ℕ) → Returns IsValid (apply_treepack_growfactor n c)
  unfolding apply_treepack_growfactor chunker chunk_size chunk_min_size chunk_max_size
  treepack_growfactor-IsValid n = record { at = λ d h. ground arith }

  treepack_size_limit-IsValid : (n : ℕ) → Returns IsValid (apply_treepack_size_limit n c)
  unfolding apply_treepack_size_limit chunker chunk_size chunk_min_size chunk_max_size
  treepack_size_limit-IsValid n = record { at = λ d h. ground arith }

  datapack_size-IsValid : (n : ℕ) → Returns IsValid (apply_datapack_size n c)
  unfolding apply_datapack_size chunker chunk_size chunk_min_size chunk_max_size
  datapack_size-IsValid n = record { at = λ d h. ground arith }

  datapack_growfactor-IsValid : (n : ℕ) → Returns IsValid (apply_datapack_growfactor n c)
  unfolding apply_datapack_growfactor chunker chunk_size chunk_min_size chunk_max_size
  datapack_growfactor-IsValid n = record { at = λ d h. ground arith }

  datapack_size_limit-IsValid : (n : ℕ) → Returns IsValid (apply_datapack_size_limit n c)
  unfolding apply_datapack_size_limit chunker chunk_size chunk_min_size chunk_max_size
  datapack_size_limit-IsValid n = record { at = λ d h. ground arith }

  min_percent-IsValid : (n : ℕ) → Returns IsValid (apply_min_percent n c)
  unfolding apply_min_percent chunker chunk_size chunk_min_size chunk_max_size
  min_percent-IsValid n = record { at = λ d h. ground arith }

  max_percent-IsValid : (n : ℕ) → Returns IsValid (apply_max_percent n c)
  unfolding apply_max_percent chunker chunk_size chunk_min_size chunk_max_size
  max_percent-IsValid n = record { at = λ d h. ground arith }

  extra_verify-IsValid : (o : Option Bool) → Returns IsValid (apply_extra_verify o c)
  unfolding apply_extra_verify chunker chunk_size chunk_min_size chunk_max_size
  extra_verify-IsValid o = record { at = λ d h. ground arith }

-- One option, and the rest of the options.
Returns-step :
    {P Q : ConfigFile → Type 0} {A : Type 0} (o : Option A) (f : A → ConfigFile → Result ConfigFile)
    (g : ConfigFile → Result ConfigFile) (c : ConfigFile)
    → P c
    → ((a : A) → Returns P (f a c))
    → ((c : ConfigFile) → P c → Returns Q (g c))
    → Returns Q (when_some o f c >>= g)
Returns-step none f g c p k rest = rest c p
Returns-step (some a) f g c p k rest = Returns-bind (f a c) g (k a) rest

apply-Returns :
    (levels : ℤ → Bool) (o : ConfigOptions) (c : ConfigFile)
    → IsSane c
    → Returns IsValid (apply levels o c)
unfolding apply
apply-Returns levels o c v =
    Returns-step o.set_version apply_version _ c v (version-IsSane c v) λ c v.
      Returns-step o.set_chunker apply_chunker _ c v (chunker-IsSane c v) λ c v.
        Returns-step o.set_chunk_size apply_chunk_size _ c v (chunk_size-IsSane c v) λ c v.
          Returns-step o.set_chunk_min_size apply_chunk_min_size _ c v (chunk_min_size-IsSane c v)
            λ c v.
              Returns-step o.set_chunk_max_size apply_chunk_max_size _ c v
                (chunk_max_size-IsSane c v)
                λ c v. Returns-bind (check_chunker _) _ (check_chunker-IsValid _ v) λ c v.
                  Returns-step o.set_compression (apply_compression levels) _ c v
                    (λ l. compression-IsValid c v levels l)
                    λ c v.
                      Returns-step o.set_append_only apply_append_only _ c v
                        (append_only-IsValid c v)
                        λ c v.
                          Returns-step o.set_treepack_size apply_treepack_size _ c v
                            (treepack_size-IsValid c v)
                            λ c v.
                              Returns-step o.set_treepack_growfactor apply_treepack_growfactor _ c v
                                (treepack_growfactor-IsValid c v)
                                λ c v.
                                  Returns-step o.set_treepack_size_limit apply_treepack_size_limit _
                                    c v (treepack_size_limit-IsValid c v)
                                    λ c v.
                                      Returns-step o.set_datapack_size apply_datapack_size _ c v
                                        (datapack_size-IsValid c v)
                                        λ c v.
                                          Returns-step o.set_datapack_growfactor
                                            apply_datapack_growfactor _ c v
                                            (datapack_growfactor-IsValid c v)
                                            λ c v.
                                              Returns-step o.set_datapack_size_limit
                                                apply_datapack_size_limit _ c v
                                                (datapack_size_limit-IsValid c v)
                                                λ c v.
                                                  Returns-step o.set_min_packsize_tolerate_percent
                                                    apply_min_percent _ c v
                                                    (min_percent-IsValid c v)
                                                    λ c v.
                                                      Returns-step
                                                        o.set_max_packsize_tolerate_percent
                                                        apply_max_percent _ c v
                                                        (max_percent-IsValid c v)
                                                        λ c v.
                                                          extra_verify-IsValid c v
                                                            o.set_extra_verify

-- A config with sane settings, whose chunk sizes may be anything, is valid after every successful
-- `apply`: the version is 1 or 2, version 1 has no compression, the pack sizes fit into 32 bits, the
-- percentages are in their ranges, and the chunk sizes of the Rabin chunker are in order.
pub apply-IsValid :
    (levels : ℤ → Bool) (o : ConfigOptions) (c d : ConfigFile)
    → IsSane c
    → apply levels o c ≡ ok d
    → IsValid d
apply-IsValid levels o c d v = (apply-Returns levels o c v).at d
