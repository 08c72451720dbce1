-- ===== src/Packer/Tests.antt =====
-- Examples for the pack sizes, with an integer square root.
use rustic_core.Base.{
  ℕ, zero, suc, ◌+◌, ◌*◌, ◌<◌, ◌≤◌, arith, leb, if◌then◌else◌, Bool-cases, inl, inr,
}
use rustic_core.Packer.Sizer.{PackSizer, pack_size}
use rustic_core.Packer.Sizer.Bounds.{IsSqrt, pack_size_mono, pack_size_wraps}

abbrev root : ℕ → ℕ
root zero = 0
root (suc n) = let r = root n in if leb ((r + 1) * (r + 1)) (suc n) then r + 1 else r

root-IsSqrt : IsSqrt root
root-IsSqrt = record { below = below; above = above }
  where
    below : (n : ℕ) → root n * root n ≤ n
    below zero = omega arith
    below (suc n) =
        let h = below n in
        elim (Bool-cases (leb ((root n + 1) * (root n + 1)) (suc n))) [
          | inl e ↦ rw e (ground arith)
          | inr e ↦ rw e (omega arith)
        ]

    above : (n : ℕ) → n < (root n + 1) * (root n + 1)
    above zero = omega arith
    above (suc n) =
        let h = above n in
        elim (Bool-cases (leb ((root n + 1) * (root n + 1)) (suc n))) [
          | inl e ↦ rw e (grind arith)
          | inr e ↦ rw e (ground arith)
        ]

abbrev sizer : PackSizer
sizer = record {
  default_size = 1000;
  grow_factor = 2;
  size_limit = 5000;
  current_size = 9;
  min_packsize_tolerate_percent = 30;
  max_packsize_tolerate_percent = 150;
}

abbrev huge : PackSizer
huge = record sizer { grow_factor = 2147483648; default_size = 5 }

pack_size_mono_example :
    pack_size root (record sizer { current_size = 4 })
    ≤ pack_size root (record sizer { current_size = 9 })
pack_size_mono_example =
    pack_size_mono root root-IsSqrt sizer 4 9 (omega arith) (omega arith) (omega arith)

pack_size_wraps_example : pack_size root huge ≤ 2147483653
pack_size_wraps_example =
    pack_size_wraps root root-IsSqrt huge 2147483653 (λ h. omega arith) (omega arith) (omega arith)
      (omega arith)
