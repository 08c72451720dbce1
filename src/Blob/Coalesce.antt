-- ===== src/Blob/Coalesce.antt =====
-- What `BlobLocations::coalesce` promises to the readers of packs.
use rustic_core.Base.{
  ℕ, ◌+◌, ◌≤◌, ◌<◌, ◌≡◌, refl, ◌++◌, ◌⊎◌, inl, inr, All, All-append, All-impl, arith, Bool-cases,
  true, ◌↔◌, ◌-◌,
}
use rustic_core.Base.Word.{u32_mod}
use rustic_core.Blob.{
  BlobLocation, BlobLocations, can_coalesce, append, coalesce, limit_pack_read, max_holesize,
}

-- A blob lies inside the part of the pack from `start` to `end`.
abbrev pub Inside {ℓ} : {T : Type ℓ} → ℕ → ℕ → BlobLocation × T → Type 0
Inside start end b = (start ≤ b.0.offset) × (b.0.offset + b.0.length ≤ end)

module _ {ℓ} {T : Type ℓ} where
  -- The part to read fits into a pack, and holds all its blobs.
  pub record IsValid (l : BlobLocations T) : Type ℓ where
    pub fits : l.offset + l.length < u32_mod
    pub holds : All (Inside l.offset (l.offset + l.length)) l.blobs

  Inside-mono : (a b c d : ℕ) → c ≤ a → b ≤ d → (x : BlobLocation × T) → Inside a b x → Inside c d x
  Inside-mono a b c d h k x i = omega arith

  -- Exactly when two valid locations are coalesced, if the first ends far enough from 4 GiB for a
  -- hole: the second begins at or after the end of the first, after a hole of at most
  -- `max_holesize`, and both together are at most `limit_pack_read`.
  pub can_coalesce_iff :
      (a b : BlobLocations T)
      → a.offset + a.length + max_holesize < u32_mod
      → b.offset + b.length < u32_mod
      → (can_coalesce a b ≡ true) ↔ (
          (a.offset + a.length ≤ b.offset)
          × (b.offset ≤ a.offset + a.length + max_holesize)
          × (b.offset + b.length ≤ a.offset + limit_pack_read))
  unfolding can_coalesce
  can_coalesce_iff a b fa fb = (λ h. ground arith, λ h. ground arith)

  -- What a caller of `coalesce` gets: one valid location with the blobs of both in order, or the
  -- two locations as they were.
  abbrev pub Coalesced :
      BlobLocations T
      → BlobLocations T
      → BlobLocations T ⊎ (BlobLocations T × BlobLocations T)
      → Type ℓ
  Coalesced a b (inl c) =
      IsValid c
      × (c.offset ≡ a.offset)
      × (c.offset + c.length ≡ b.offset + b.length)
      × (c.length ≤ limit_pack_read)
      × (c.blobs ≡ a.blobs ++ b.blobs)
  Coalesced a b (inr (x, y)) = (x ≡ a) × (y ≡ b) × Unit {ℓ}

  append-IsValid :
      (a b : BlobLocations T)
      → IsValid a
      → IsValid b
      → can_coalesce a b ≡ true
      → Coalesced a b (inl (append a b))
  unfolding can_coalesce append
  append-IsValid a b va vb h =
      let fa = va.fits in
      let fb = vb.fits in
      let after : a.offset + a.length ≤ b.offset = ground arith in
      let span : (append a b).length ≡ b.offset + b.length - a.offset = ground arith in
      (
        record {
          fits = omega arith;
          holds =
              All-append _ a.blobs b.blobs
                (All-impl _ _ (Inside-mono _ _ _ _ (omega arith) (omega arith)) a.blobs va.holds)
                (All-impl _ _ (Inside-mono _ _ _ _ (omega arith) (omega arith)) b.blobs vb.holds);
        },
        refl,
        omega arith,
        ground arith,
        refl,
      )

  -- Two valid locations are either merged into one valid location that spans both, reads at most
  -- `limit_pack_read` bytes and has the blobs of both in order, or given back unchanged.
  pub coalesce-Coalesced :
      (a b : BlobLocations T) → IsValid a → IsValid b → Coalesced a b (coalesce a b)
  unfolding coalesce
  coalesce-Coalesced a b va vb = elim (Bool-cases (can_coalesce a b)) [
    | inl h ↦ rw h (append-IsValid a b va vb h)
    | inr h ↦ rw h (refl, refl, tt)
  ]
