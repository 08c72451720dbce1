-- ===== src/Packer/Basic/All.antt =====
-- A whole run of the packer of crates/core/src/blob/packer.rs.
use rustic_core.Base.{
  ℕ, ◌+◌, ◌≡◌, ◌<◌, ◌≤◌, true, List, [], ◌∷◌, ◌++◌, length, All, arith, Result, ok, Bool, any, ◌==◌,
  ◌||◌, All-append, any-append, false, Bool-cases, inl, inr, refl, All-impl,
}
use rustic_core.PackFile.{IndexPack, IndexBlob, to_binary, comp_overhead}
use rustic_core.Packer.Sizer.{max_size}
use rustic_core.Packer.Basic.{
  BasicPacker, RawPacker, save, has, header_bytes, take_data, should_save, add_blob, RawBlob,
  add_blobs, is_empty, new, finalize, BlobType, take_stats, PackSizer, PackerStats,
}
use rustic_core.Packer.Basic.Pack.{max_blob, IsPacked, IsRaw, add_raw-IsGrown}
use rustic_core.Packer.Basic.Sent.{
  IsReadable, with_header, write_header-with_header, cipher_small, with_header-IsReadable,
}
use rustic_core.Packer.Sizer.Bounds.{pack_size-le}

-- A sent pack has the blob.
abbrev pub is_sent : ℕ → List (List ℕ × IndexPack) → Bool
is_sent id sent = any (λ s. any (λ b. b.id == id) s.1.blobs) sent

module _ (content : ℕ → List ℕ) (t : BlobType) (integer_sqrt : ℕ → ℕ)
    (encrypt decrypt : List ℕ → Result (List ℕ))
    (encrypts : (plain : List ℕ)
      → (cipher : List ℕ) × (encrypt plain ≡ ok cipher)
        × (decrypt cipher ≡ ok plain)
        × (length cipher ≡ comp_overhead + length plain)) where
  abbrev IsGood : RawPacker → Type 0
  IsGood raw =
      IsPacked content t raw.basic
      × (length raw.basic.file < max_size)
      × (raw.basic.count < 10_000)
      × All (IsReadable content t decrypt) raw.sent

  -- A blob is in the pack that is filled or in one that was sent.
  abbrev is_stored : ℕ → RawPacker → Bool
  is_stored id raw = has raw.basic id || is_sent id raw.sent

  save-IsGood :
      (now : ℕ) (raw : RawPacker)
      → IsPacked content t raw.basic
      → length raw.basic.file < max_size + max_blob
      → raw.basic.count ≤ 10_000
      → 1 ≤ raw.basic.count
      → All (IsReadable content t decrypt) raw.sent
      → (r : RawPacker) × (save integer_sqrt encrypt now raw ≡ ok r)
        × IsGood r
        × ((id : ℕ) → is_stored id raw ≡ true → is_sent id r.sent ≡ true)
  unfolding save header_bytes take_data has
  save-IsGood now raw v h k f a =
      let p = raw.basic in
      let (cipher, e, d, n) = encrypts (to_binary p.index.blobs) in
      let w =
        write_header-with_header cipher p (cipher_small content t decrypt p cipher v h k f d n) in
      let s : List ℕ × IndexPack = ((with_header cipher p).file, p.index) in
      (
        record { basic = (take_data now (with_header cipher p)).0; sent = raw.sent ++ s ∷ [] },
        rw (e, w) refl,
        (
          record {
            kind = v.kind;
            typed = tt;
            laid_out = tt;
            blobs = tt;
            sized = refl;
            size = refl;
            counted = refl;
            contents = tt;
          },
          omega arith,
          omega arith,
          All-append (IsReadable content t decrypt) raw.sent (s ∷ []) a
              (with_header-IsReadable content t decrypt p cipher v h k f d n, tt),
        ),
        λ id t.
            let x =
              any-append (λ (q : List ℕ × IndexPack). any (λ b. b.id == id) q.1.blobs) raw.sent
                (s ∷ []) in
            ground arith,
      )

  has-counted : (p : BasicPacker) (id : ℕ) → IsPacked content t p → has p id ≡ true → 1 ≤ p.count
  unfolding has
  has-counted p id v h = let c = v.counted in go p.index.blobs h c
    where
      go :
          (bs : List IndexBlob)
          → any (λ b. b.id == id) bs ≡ true
          → p.count ≡ length bs
          → 1 ≤ p.count
      go [] h c = absurd (ground arith)
      go (b ∷ bs) h c = omega arith

  not_saved :
      (p : BasicPacker) (now : ℕ)
      → should_save integer_sqrt now p ≡ false
      → (p.size < max_size) × (p.count < 10_000)
  unfolding should_save
  not_saved p now h = let l = (pack_size-le integer_sqrt p.pack_sizer).1 in ground arith

  sized : (p : BasicPacker) → IsPacked content t p → p.size < max_size → length p.file < max_size
  sized p v h = let e = v.size in omega arith

  add_blob-IsGood :
      (b : RawBlob) (raw : RawPacker)
      → IsRaw content b
      → IsGood raw
      → (r : RawPacker) × (add_blob integer_sqrt encrypt b raw ≡ ok r)
        × IsGood r
        × (is_stored b.id r ≡ true)
        × ((id : ℕ) → is_stored id raw ≡ true → is_stored id r ≡ true)
  unfolding add_blob
  add_blob-IsGood b raw i (v, h, k, a) =
      let (p, e, g) = add_raw-IsGrown content t b raw.basic i (omega arith) k v in
      let raw' = record raw { basic = p } in
      elim (Bool-cases (should_save integer_sqrt b.now p)) [
        | inl due ↦
            let (r, f, x, y) =
              save-IsGood b.later raw' g.packed (added-lt raw.basic p h g.bound)
                (added-le raw.basic p k g.count) (has-counted p b.id g.packed g.has_blob) a in
            (
              r,
              rw (e, due) f,
              x,
              ground (arith, y b.id, g.has_blob),
              λ id z. ground (arith, y id, g.keeps id),
            )
        | inr due ↦
            let (c, d) = not_saved p b.now due in
            (
              raw',
              rw (e, due) refl,
              (g.packed, sized p g.packed c, d, a),
              ground (arith, g.has_blob),
              λ id z. ground (arith, g.keeps id),
            )
      ]
    where
      added-lt :
          (p q : BasicPacker)
          → length p.file < max_size
          → length q.file ≤ length p.file + max_blob
          → length q.file < max_size + max_blob
      added-lt p q h l = omega arith

      added-le : (p q : BasicPacker) → p.count < 10_000 → q.count ≤ p.count + 1 → q.count ≤ 10_000
      added-le p q h l = omega arith

  add_blobs-IsGood :
      (bs : List RawBlob) (raw : RawPacker)
      → All (IsRaw content) bs
      → IsGood raw
      → (r : RawPacker) × (add_blobs integer_sqrt encrypt bs raw ≡ ok r)
        × IsGood r
        × All (λ b. is_stored b.id r ≡ true) bs
        × ((id : ℕ) → is_stored id raw ≡ true → is_stored id r ≡ true)
  unfolding add_blobs
  add_blobs-IsGood [] raw i g = (raw, refl, g, tt, λ id t. t)
  add_blobs-IsGood (b ∷ bs) raw i g =
      let (q, e, h, s, k) = add_blob-IsGood b raw i.0 g in
      let (r, f, x, a, l) = add_blobs-IsGood bs q i.1 h in
      (r, rw e f, x, (l b.id s, a), λ id x. l id (k id x))

  nothing : (p : BasicPacker) (id : ℕ) → IsPacked content t p → is_empty p ≡ true → has p id ≡ false
  unfolding is_empty has
  nothing p id v e = let c = v.counted in go p.index.blobs (ground arith)
    where
      go : (bs : List IndexBlob) → length bs ≡ 0 → any (λ b. b.id == id) bs ≡ false
      go [] h = refl
      go (b ∷ bs) h = absurd (omega arith)

  filled : (p : BasicPacker) → is_empty p ≡ false → 1 ≤ p.count
  unfolding is_empty
  filled p e = ground arith

  new-IsPacked : (sizer : PackSizer) (now : ℕ) → IsPacked content t (new t sizer now)
  unfolding new
  new-IsPacked sizer now = record {
    kind = refl;
    typed = tt;
    laid_out = tt;
    blobs = tt;
    sized = refl;
    size = refl;
    counted = refl;
    contents = tt;
  }

  -- Finalizing sends what is left.
  finalize-IsGood :
      (now : ℕ) (raw : RawPacker)
      → IsGood raw
      → (r : RawPacker × PackerStats) × (finalize integer_sqrt encrypt now raw ≡ ok r)
        × All (IsReadable content t decrypt) r.0.sent
        × ((id : ℕ) → is_stored id raw ≡ true → is_sent id r.0.sent ≡ true)
  unfolding finalize take_stats
  finalize-IsGood now raw (v, h, k, a) = elim (Bool-cases (is_empty raw.basic)) [
    | inl e ↦ (
      (record raw { basic = (take_stats raw.basic).0 }, raw.basic.stats),
      rw e refl,
      a,
      λ id x. ground (arith, nothing raw.basic id v e),
    )
    | inr e ↦
        let (r, f, g, s) =
          save-IsGood now raw v (omega arith) (omega arith) (filled raw.basic e) a in
        ((record r { basic = (take_stats r.basic).0 }, r.basic.stats), rw e (rw f refl), g.3, s)
  ]

  -- A new packer takes any blobs of at most 16 MiB, and finalizing it succeeds, if the encryption does not
  -- fail. Every blob is then in a pack that was sent. Each pack has at least one blob, `from_file` finds its
  -- header from any guess of the size that is not larger than the file, and the bytes of each blob lie
  -- where the header says.
  pub finalize-IsReadable :
      (bs : List RawBlob) (sizer : PackSizer) (created now : ℕ)
      → All (IsRaw content) bs
      → (raw : RawPacker) × (r : RawPacker × PackerStats) × (add_blobs integer_sqrt encrypt bs
            (record { basic = new t sizer created; sent = [] })
          ≡ ok raw)
        × (finalize integer_sqrt encrypt now raw ≡ ok r)
        × All (λ b. is_sent b.id r.0.sent ≡ true) bs
        × All (IsReadable content t decrypt) r.0.sent
  unfolding new
  finalize-IsReadable bs sizer created now i =
      let (raw, e, g, a, k) =
        add_blobs-IsGood bs (record { basic = new t sizer created; sent = [] }) i
          (new-IsPacked sizer created, omega arith, omega arith, tt) in
      let (r, f, x, s) = finalize-IsGood now raw g in
      (raw, r, e, f, All-impl _ _ (λ b. s b.id) bs a, x)
