-- ===== src/Packer/Sizer/Bounds.antt =====
-- The targeted pack size: its limits, its growth, and the sizes that are tolerated.
use rustic_core.Base.{ℕ, ◌+◌, ◌*◌, ◌%◌, ◌≤◌, ◌<◌, ◌≡◌, ◌≢◌, true, arith, ◌↔◌, ◌-◌}
use rustic_core.Base.Word.{u32_mod, u64_mod}
use rustic_core.Blob.{BlobType}
use rustic_core.Config.{ConfigFile, packsize_ok_percents}
use rustic_core.Config.Validity.{IsSane, IfSome}
use rustic_core.Packer.Sizer.{PackSizer, from_config, grown_size, pack_size, size_ok, max_size}
use native.Mathlib.Decide.{dec_lt, ℕ_discrete}

-- The documented behaviour of `integer_sqrt`: the largest number whose square is at most `n`.
pub record IsSqrt (r : ℕ → ℕ) : Type 0 where
  pub below : (n : ℕ) → r n * r n ≤ n
  pub above : (n : ℕ) → n < (r n + 1) * (r n + 1)

sq_mono : (a b : ℕ) → a ≤ b → a * a ≤ b * b
sq_mono a b h = grind arith

mul_u32-lt : (a b : ℕ) → a < u32_mod → b < u32_mod → a * b < u64_mod
mul_u32-lt a b h k = let p : a * b ≤ (u32_mod - 1) * b = grind arith in omega arith

times_mono : (a b c : ℕ) → a ≤ b → a * c ≤ b * c
times_mono a b c h = grind arith

mul_mono : (a b c : ℕ) → b ≤ c → a * b ≤ a * c
mul_mono a b c h = grind arith

percents :
    (c : ConfigFile) (t : BlobType) (n : ℕ)
    → IsSane c
    → IfSome c.max_packsize_tolerate_percent (λ m. m < u32_mod)
    → let s = from_config c t n in
      (s.min_packsize_tolerate_percent ≤ 100)
      × (100 ≤ s.max_packsize_tolerate_percent)
      × (s.max_packsize_tolerate_percent < u32_mod)
unfolding from_config packsize_ok_percents
percents c t n v w = ground arith

module _ (integer_sqrt : ℕ → ℕ) where
  -- The targeted size exceeds neither the configured limit nor `max_size`.
  pub pack_size-le :
      (s : PackSizer)
      → (pack_size integer_sqrt s ≤ s.size_limit) × (pack_size integer_sqrt s ≤ max_size)
  unfolding pack_size
  pack_size-le s = omega arith

  module _ (r : IsSqrt integer_sqrt) where
    -- The root of a `u64` fits into a `u32`.
    sqrt-lt : (n : ℕ) → n < u64_mod → integer_sqrt n < u32_mod
    sqrt-lt n h = elim (dec_lt (integer_sqrt n) u32_mod) [
      | yes p ↦ p
      | no p ↦ absurd (omega (arith, sq_mono u32_mod (integer_sqrt n) (omega arith), r.below n))
    ]

    sqrt_mono : (a b : ℕ) → a ≤ b → integer_sqrt a ≤ integer_sqrt b
    sqrt_mono a b h = elim (dec_lt (integer_sqrt b) (integer_sqrt a)) [
      | yes p ↦ absurd (
          omega (
            arith,
            sq_mono (integer_sqrt b + 1) (integer_sqrt a) (omega arith),
            r.below a,
            r.above b,
          ))
      | no p ↦ omega arith
    ]

    grown_size_lem :
        (s : PackSizer)
        → s.grow_factor ≢ 0
        → s.current_size < u64_mod
        → grown_size integer_sqrt s
          ≡ (integer_sqrt s.current_size * s.grow_factor + s.default_size) % u32_mod
    unfolding grown_size
    grown_size_lem s g h = ground (arith, sqrt-lt s.current_size h)

    grown_size_mono :
        (s : PackSizer) (a b : ℕ)
        → a ≤ b
        → b < u64_mod
        → integer_sqrt b * s.grow_factor + s.default_size < u32_mod
        → grown_size integer_sqrt (record s { current_size = a })
          ≤ grown_size integer_sqrt (record s { current_size = b })
    grown_size_mono s a b h hb fits = elim (ℕ_discrete s.grow_factor 0) [
      | yes z ↦ unfold grown_size in ground arith
      | no g ↦
          let m = times_mono (integer_sqrt a) (integer_sqrt b) s.grow_factor (sqrt_mono a b h) in
          omega (
            arith,
            grown_size_lem (record s { current_size = a }) g (omega arith),
            grown_size_lem (record s { current_size = b }) g hb,
          )
    ]

    -- If the grown size fits into 32 bits for the larger repository, then the targeted size does
    -- not fall when the repository grows.
    pub pack_size_mono :
        (s : PackSizer) (a b : ℕ)
        → a ≤ b
        → b < u64_mod
        → integer_sqrt b * s.grow_factor + s.default_size < u32_mod
        → pack_size integer_sqrt (record s { current_size = a })
          ≤ pack_size integer_sqrt (record s { current_size = b })
    unfolding pack_size
    pack_size_mono s a b h hb fits = omega (arith, grown_size_mono s a b h hb fits)

    -- Where the grown size passes 4 GiB it wraps: the targeted size is at most what it passes 4 GiB by.
    pub pack_size_wraps :
        (s : PackSizer) (k : ℕ)
        → s.grow_factor ≢ 0
        → s.current_size < u64_mod
        → k < u32_mod
        → integer_sqrt s.current_size * s.grow_factor + s.default_size ≡ u32_mod + k
        → pack_size integer_sqrt s ≤ k
    unfolding pack_size
    pack_size_wraps s k g h hk e = omega (arith, grown_size_lem s g h)

  -- A size is tolerated exactly if it lies between the two percentages of the targeted size.
  pub size_ok_iff :
      (s : PackSizer) (size : ℕ)
      → size < u32_mod
      → s.min_packsize_tolerate_percent < u32_mod
      → s.max_packsize_tolerate_percent < u32_mod
      → (size_ok integer_sqrt s size ≡ true) ↔ (
          (pack_size integer_sqrt s * s.min_packsize_tolerate_percent ≤ size * 100)
          × (size * 100 ≤ pack_size integer_sqrt s * s.max_packsize_tolerate_percent))
  unfolding size_ok
  size_ok_iff s size h lo hi =
      let p = pack_size-le s in
      let a =
        mul_u32-lt (pack_size integer_sqrt s) s.min_packsize_tolerate_percent (omega (arith, p))
          lo in
      let b =
        mul_u32-lt (pack_size integer_sqrt s) s.max_packsize_tolerate_percent (omega (arith, p))
          hi in
      ((λ e. ground arith), (λ e. ground arith))

  -- With a sane config a pack of exactly the targeted size is neither too small nor too large.
  pub size_ok-pack_size :
      (c : ConfigFile) (t : BlobType) (n : ℕ)
      → IsSane c
      → IfSome c.max_packsize_tolerate_percent (λ m. m < u32_mod)
      → let s = from_config c t n in size_ok integer_sqrt s (pack_size integer_sqrt s) ≡ true
  size_ok-pack_size c t n v w =
      let s = from_config c t n in
      let q = percents c t n v w in
      let p = pack_size-le s in
      (size_ok_iff s (pack_size integer_sqrt s) (omega (arith, p)) (omega (arith, q)) q.2).1 (
        mul_mono (pack_size integer_sqrt s) _ 100 q.0,
        mul_mono (pack_size integer_sqrt s) 100 _ q.1,
      )
