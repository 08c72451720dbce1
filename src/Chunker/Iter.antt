-- ===== src/Chunker/Iter.antt =====
-- `ChunkIter` of crates/core/src/chunker.rs: the chunker that the config asks for. The tables of the
-- rolling hash for a polynomial are a parameter.
use rustic_core.Base.{
  ℕ, zero, suc, ◌≡◌, ◌≤◌, ◌<◌, true, Option, none, some, List, length, All, refl, ap, subst, ◌∙◌,
  Result, ok, err, ◌>>=◌, >>=-eq-ok, ok-injective,
}
use rustic_core.Base.Word.{u64_mod}
use rustic_core.Config.{ConfigFile, poly, chunker, chunk_size, chunk_min_size, chunk_max_size}
use rustic_core.Config
use rustic_core.Chunker.Reader.{Event, bytes_of, is_fine}
use rustic_core.Chunker.Pieces.{joined, collect, follow, put_chunk}
use rustic_core.Chunker.Fixed
use rustic_core.Chunker.Fixed.{step, collect-pieces_of_size}
use rustic_core.Chunker.Rabin.{Rabin, buf_size}
use rustic_core.Chunker.Rabin
use rustic_core.Chunker.Rabin.Chunks.{collect-pieces_by_hash}

pub data ChunkIter (W : Type 0) : Type 0 where
  by_hash : Rabin W → Rabin.ChunkIter → ChunkIter W
  by_size : Fixed.ChunkIter → ChunkIter W

-- The largest chunk.
abbrev pub limit : Config.Chunker → ConfigFile → ℕ
limit Config.rabin config = chunk_max_size config
limit Config.fixed_size config = chunk_size config

module _ {W : Type 0} where
  -- An answer of a chunker, with the iterator that it is put into.
  abbrev into :
      {S : Type 0}
      → (S → ChunkIter W)
      → Option (S × Option (Result (List ℕ)))
      → Option (ChunkIter W × Option (Result (List ℕ)))
  into wrap none = none
  into wrap (some (it, r)) = some (wrap it, r)

  -- `ChunkIter::next`
  unfoldable pub next : ChunkIter W → Option (ChunkIter W × Option (Result (List ℕ)))
  next (by_hash rabin it) = into (by_hash rabin) (Rabin.next rabin it)
  next (by_size it) = into by_size (some (Fixed.next it))

  module _ (tables : ℕ → Rabin W) where
    by_kind : Config.Chunker → ConfigFile → List Event → ℕ → Result (ChunkIter W)
    by_kind Config.rabin config reader size_hint = poly config >>= λ p.
        Rabin.new (chunk_size config) (chunk_min_size config) (chunk_max_size config) reader
          size_hint
        >>= λ it. ok (by_hash (tables p) it)
    by_kind Config.fixed_size config reader size_hint =
        ok (by_size (Fixed.new (chunk_size config) reader size_hint))

    -- `ChunkIter::from_config`
    unfoldable pub from_config : ConfigFile → List Event → ℕ → Result (ChunkIter W)
    unfolding by_kind
    from_config config reader size_hint = by_kind (chunker config) config reader size_hint

  follow-into :
      {S : Type 0} (wrap : S → ChunkIter W) (f : ChunkIter W → Option (Result (List (List ℕ))))
      (g : S → Option (Result (List (List ℕ)))) (r : Option (S × Option (Result (List ℕ))))
      → ((st : S) → f (wrap st) ≡ g st)
      → follow f (into wrap r) ≡ follow g r
  follow-into wrap f g none h = refl
  follow-into wrap f g (some (st, none)) h = refl
  follow-into wrap f g (some (st, some (err e))) h = refl
  follow-into wrap f g (some (st, some (ok c))) h = ap (put_chunk c) (h st)

  collect-into :
      {S : Type 0} (wrap : S → ChunkIter W) (ny : S → Option (S × Option (Result (List ℕ))))
      (wraps : (st : S) → next (wrap st) ≡ into wrap (ny st)) (fuel : ℕ) (st : S)
      → collect next fuel (wrap st) ≡ collect ny fuel st
  unfolding collect
  collect-into wrap ny wraps zero st = refl
  collect-into wrap ny wraps (suc fuel) st =
      ap (follow (collect next fuel)) (wraps st)
      ∙ follow-into wrap (collect next fuel) (collect ny fuel) (ny st)
          (λ st'. collect-into wrap ny wraps fuel st')

  abbrev Chunks : List Event → ℕ → ℕ → ChunkIter W → Type 0
  Chunks reader n size it =
      (cs : List (List ℕ)) × (collect next (suc n) it ≡ some (ok cs))
      × (joined cs ≡ bytes_of reader)
      × All (λ c. (1 ≤ length c) × (length c ≤ size)) cs

  module _ (tables : ℕ → Rabin W) where
    -- If the config makes a chunker of it, its chunk sizes are neither 0 nor below that of the buffer, and
    -- no read fails, then the chunks of a file together are the file, none is empty, and none is larger
    -- than the config allows.
    pub from_config-joined :
        (config : ConfigFile) (reader : List Event) (size_hint n : ℕ) (it : ChunkIter W)
        → from_config tables config reader size_hint ≡ ok it
        → 0 < chunk_size config
        → buf_size ≤ chunk_min_size config
        → chunk_min_size config < u64_mod
        → is_fine reader ≡ true
        → length (bytes_of reader) ≤ n
        → (cs : List (List ℕ)) × (collect next (suc n) it ≡ some (ok cs))
          × (joined cs ≡ bytes_of reader)
          × All (λ c. (1 ≤ length c) × (length c ≤ limit (chunker config) config)) cs
    unfolding from_config next
    from_config-joined config reader size_hint n it e pos large fits f h = go (chunker config) e
      where
        go :
            (kind : Config.Chunker)
            → by_kind tables kind config reader size_hint ≡ ok it
            → Chunks reader n (limit kind config) it
        go Config.rabin e =
            let (p, x, y) = >>=-eq-ok (poly config) _ e in
            let (rit, z, w) =
              >>=-eq-ok
                (Rabin.new (chunk_size config) (chunk_min_size config) (chunk_max_size config)
                  reader size_hint)
                (λ i. ok (by_hash (tables p) i)) y in
            let (cs, a, b, c, d) =
              collect-pieces_by_hash (tables p) (chunk_size config) (chunk_min_size config)
                (chunk_max_size config) reader size_hint n rit z large fits f h in
            subst (Chunks reader n (chunk_max_size config)) (ok-injective w) (
              cs,
              collect-into (by_hash (tables p)) (Rabin.next (tables p)) (λ st. refl) (suc n) rit
                  ∙ a,
              c,
              d,
            )
        go Config.fixed_size e =
            let (cs, a, b, c, d) =
              collect-pieces_of_size (chunk_size config) pos reader size_hint n f h in
            subst (Chunks reader n (chunk_size config)) (ok-injective e) (
              cs,
              collect-into by_size (step (chunk_size config) pos) (λ st. refl) (suc n)
                    (Fixed.new (chunk_size config) reader size_hint)
                  ∙ a,
              c,
              d,
            )
