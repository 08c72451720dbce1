-- ===== src/Packer/Basic/Pack.antt =====
-- The pack that a packer of crates/core/src/blob/packer.rs fills.
use rustic_core.Base.{
  ℕ, zero, suc, ◌+◌, ◌*◌, ◌^◌, ◌≡◌, ◌<◌, ◌≤◌, true, List, [], ◌∷◌, ◌++◌, ltb, length, length-append,
  sum_by, sum_by-append, take, drop, take_all, drop-append, All, All-append, All-impl, arith, refl,
  ap, ◌∙◌, ok, Bool-cases, ◌||◌, inl, ◌==◌, any-append, inr,
}
use rustic_core.Base.Word.{u32_mod, add_u32}
use rustic_core.PackFile.{IndexBlob, add}
use rustic_core.PackFile.RoundTrip.{IsBlob, IsLaidOut, Fits}
use rustic_core.Blob.{BlobType}
use rustic_core.Packer.Basic.{BasicPacker, RawBlob, write_data, add_new, count_stats, has, add_raw}

take-drop-append {ℓ} :
    {A : Type ℓ} (offset n : ℕ) (xs ys : List A)
    → offset + n ≤ length xs
    → take n (drop offset (xs ++ ys)) ≡ take n (drop offset xs)
take-drop-append zero zero xs ys h = refl
take-drop-append zero (suc n) [] ys h = absurd (omega arith)
take-drop-append zero (suc n) (x ∷ xs) ys h =
    ap (λ l. x ∷ l) (take-drop-append zero n xs ys (omega arith))
take-drop-append (suc offset) n [] ys h = absurd (omega arith)
take-drop-append (suc offset) n (x ∷ xs) ys h = take-drop-append offset n xs ys (omega arith)

IsLaidOut-append :
    (offset : ℕ) (bs : List IndexBlob) (b : IndexBlob)
    → IsLaidOut offset bs
    → b.location.offset ≡ offset + sum_by (λ c. c.location.length) bs
    → offset + sum_by (λ c. c.location.length) bs < u32_mod
    → IsLaidOut offset (bs ++ b ∷ [])
IsLaidOut-append offset [] b l e h = (omega arith, tt)
IsLaidOut-append offset (c ∷ bs) b l e h =
    (l.0, IsLaidOut-append (add_u32 offset c.location.length) bs b l.1 (omega arith) (omega arith))

-- The largest blob for which a pack cannot grow beyond 4 GiB.
abbrev pub max_blob : ℕ
max_blob = 16 * 1024 * 1024

module _ (content : ℕ → List ℕ) where
  -- The file has the bytes of the blob where the location says.
  abbrev pub HasContent : List ℕ → IndexBlob → Type 0
  HasContent file b =
      (b.location.offset + b.location.length ≤ length file)
      × (take b.location.length (drop b.location.offset file) ≡ content b.id)

  -- A blob that may be given to a packer: the bytes are those that belong to its id.
  pub record IsRaw (b : RawBlob) : Type 0 where
    pub id : b.id < 256 ^ 32
    pub uncompressed : Fits b.uncompressed_length
    pub small : length b.bytes ≤ max_blob
    pub bytes : b.bytes ≡ content b.id

  pub record IsPacked (t : BlobType) (p : BasicPacker) : Type 0 where
    pub kind : p.blob_type ≡ t
    pub typed : All (λ b. b.tpe ≡ t) p.index.blobs
    pub laid_out : IsLaidOut 0 p.index.blobs
    pub blobs : All IsBlob p.index.blobs
    pub sized : length p.file ≡ sum_by (λ b. b.location.length) p.index.blobs
    pub size : p.size ≡ length p.file
    pub counted : p.count ≡ length p.index.blobs
    pub contents : All (HasContent p.file) p.index.blobs

  HasContent-append :
      (file more : List ℕ) (b : IndexBlob) → HasContent file b → HasContent (file ++ more) b
  HasContent-append file more b (h, e) = (
    omega (arith, length-append file more),
    take-drop-append b.location.offset b.location.length file more h ∙ e,
  )

  pub All-HasContent-append :
      (file more : List ℕ) (bs : List IndexBlob)
      → All (HasContent file) bs
      → All (HasContent (file ++ more)) bs
  All-HasContent-append file more bs =
      All-impl (HasContent file) (HasContent (file ++ more)) (HasContent-append file more) bs

  -- The entry of a new blob.
  abbrev entry_for : RawBlob → BasicPacker → IndexBlob
  entry_for b p = record {
    id = b.id;
    tpe = p.blob_type;
    location = record {
      offset = p.size;
      length = length b.bytes;
      uncompressed_length = b.uncompressed_length;
    };
  }

  -- The packer after a blob that it does not have.
  abbrev added : RawBlob → BasicPacker → BasicPacker
  added b p = record p {
    stats = count_stats b.data_len (length b.bytes) p.stats;
    file = p.file ++ b.bytes;
    size = add_u32 p.size (length b.bytes);
    index = add p.index b.id p.blob_type p.size (length b.bytes) b.uncompressed_length;
    count = add_u32 p.count 1;
  }

  add_new-added : (b : RawBlob) (p : BasicPacker) → IsRaw b → add_new b p ≡ ok (added b p)
  unfolding add_new write_data
  add_new-added b p r =
      let s = r.small in let t : ltb (length b.bytes) u32_mod ≡ true = ground arith in rw t

  module _ (t : BlobType) (b : RawBlob) (p : BasicPacker) (r : IsRaw b)
      (h : length p.file + max_blob < u32_mod) (k : p.count < 10_000) (v : IsPacked t p) where
    new_blob_content : HasContent (p.file ++ b.bytes) (record {
      id = b.id;
      tpe = p.blob_type;
      location = record {
        offset = p.size;
        length = length b.bytes;
        uncompressed_length = b.uncompressed_length;
      };
    })
    new_blob_content =
        let e = v.size in
        let f = length-append p.file b.bytes in
        (
          omega arith,
          ap (take (length b.bytes)) (drop-append p.size p.file b.bytes e)
              ∙ take_all (length b.bytes) b.bytes (omega arith)
              ∙ r.bytes,
        )

    added-IsPacked : IsPacked t (added b p)
    unfolding add
    added-IsPacked =
        let e = v.size in
        let c = v.counted in
        let s = v.sized in
        let m = r.small in
        let f = length-append p.file b.bytes in
        record {
          kind = v.kind;
          typed =
              All-append (λ c. c.tpe ≡ t) p.index.blobs (entry_for b p ∷ []) v.typed (v.kind, tt);
          laid_out = IsLaidOut-append 0 p.index.blobs _ v.laid_out (omega arith) (omega arith);
          blobs =
              All-append IsBlob p.index.blobs _ v.blobs
                (record { id = r.id; length = omega arith; uncompressed = r.uncompressed }, tt);
          sized = omega (
            arith,
            sum_by-append (λ (x : IndexBlob). x.location.length) p.index.blobs (entry_for b p ∷ []),
          );
          size = omega arith;
          counted = omega (arith, length-append p.index.blobs (entry_for b p ∷ []));
          contents =
              All-append (HasContent (p.file ++ b.bytes)) p.index.blobs _
                (All-HasContent-append p.file b.bytes p.index.blobs v.contents)
                (new_blob_content, tt);
        }

    any-added : (id : ℕ) → has (added b p) id ≡ (has p id || b.id == id)
    unfolding has add
    any-added id = ground (arith, any-append (λ c. c.id == id) p.index.blobs (entry_for b p ∷ []))

  -- What becomes of a packer that is given a blob.
  pub record IsGrown (t : BlobType) (b : RawBlob) (p q : BasicPacker) : Type 0 where
    pub packed : IsPacked t q
    pub has_blob : has q b.id ≡ true
    pub keeps : (id : ℕ) → has p id ≡ true → has q id ≡ true
    pub bound : length q.file ≤ length p.file + max_blob
    pub count : q.count ≤ p.count + 1

  pub add_raw-IsGrown :
      (t : BlobType) (b : RawBlob) (p : BasicPacker)
      → IsRaw b
      → length p.file + max_blob < u32_mod
      → p.count < 10_000
      → IsPacked t p
      → (q : BasicPacker) × (add_raw b p ≡ ok q) × IsGrown t b p q
  unfolding add_raw
  add_raw-IsGrown t b p r h k v = elim (Bool-cases (has p b.id)) [
    | inl e ↦ (
      p,
      rw e,
      record {
        packed = v;
        has_blob = e;
        keeps = λ id x. x;
        bound = omega arith;
        count = omega arith;
      },
    )
    | inr e ↦
        let s = r.small in
        (
          added b p,
          rw e (add_new-added b p r),
          record {
            packed = added-IsPacked t b p r h k v;
            has_blob = any-added t b p r h k v b.id ∙ ground arith;
            keeps = λ id x. any-added t b p r h k v id ∙ ground arith;
            bound = omega (arith, length-append p.file b.bytes);
            count = omega arith;
          },
        )
  ]
