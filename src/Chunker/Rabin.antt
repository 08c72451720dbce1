-- ===== src/Chunker/Rabin.antt =====
-- crates/core/src/chunker/rabin.rs: chunks that end where a rolling hash of the last bytes fits a mask.
-- The buffer is its length and the bytes that were not used yet.
pub mod Cut
pub mod Split
pub mod Chunks
use Prim.Native.Nat.{bit_and}
use rustic_core.Base.{
  ℕ, zero, suc, ◌+◌, ◌-◌, ◌*◌, ◌≡◌, Bool, true, false, Option, none, some, List, [], ◌∷◌, ◌++◌,
  length, drop, ltb, leb, ◌==◌, if◌then◌else◌, Result, ok, err, input_output, ◌>>=◌, ◌||◌,
}
use rustic_core.Base.Word.{sub_u64}
use rustic_core.Config.Options.{check_rabin_params}
use rustic_core.Chunker.Reader.{
  Event, weight, ReadResult, got, interruption, error, read, ReadAll, all_of, failure, read_to_end,
}

-- `BUF_SIZE`
abbrev pub buf_size : ℕ
buf_size = 4 * 1024

-- `Rabin64` of rustic_cdc: `reset_and_prefill_window`, `slide` and the field `hash`.
pub record Rabin (W : Type 0) : Type 0 where
  pub prefill : List ℕ → W
  pub slide : W → ℕ → W
  pub hash : W → ℕ

-- The reader with the buffer.
pub record Source : Type 0 where
  pub unread : List ℕ
  pub buf_len : ℕ
  pub reader : List Event
  pub finished : Bool

-- `ChunkIter`
pub record ChunkIter : Type 0 where
  pub source : Source
  pub split_mask : ℕ
  pub size_hint : ℕ
  pub min_size : ℕ
  pub max_size : ℕ

-- `ChunkIter::new`
unfoldable pub new : ℕ → ℕ → ℕ → List Event → ℕ → Result ChunkIter
new chunk_size min_size max_size reader size_hint =
    check_rabin_params chunk_size min_size max_size >>= λ checked. ok (record {
      source = record { unread = []; buf_len = buf_size; reader = reader; finished = false };
      split_mask = sub_u64 chunk_size 1;
      size_hint = size_hint;
      min_size = min_size;
      max_size = max_size;
    })

-- Where the loop stops: with a chunk or an error.
pub data CutResult : Type 0 where
  cut_at : List ℕ → Source → CutResult
  cut_error : Source → CutResult
  out_of_fuel : CutResult

module _ {W : Type 0} (rabin : Rabin W) (split_mask max_size : ℕ) where
  -- The tests at the start of the loop.
  unfoldable pub stops : List ℕ → W → Bool
  stops vec w = leb max_size (length vec) || bit_and (rabin.hash w) split_mask == 0

  -- The loop over the bytes, through the buffer. What it calls itself with is the rest of the loop.
  cut_byte : (List ℕ → W → Source → CutResult) → List ℕ → W → Source → ReadResult → CutResult
  cut_byte rest vec w src (got [] events) =
      cut_at vec (record src { reader = events; finished = true })
  cut_byte rest vec w src (got (b ∷ bs) events) =
      rest (vec ++ b ∷ []) (rabin.slide w b)
        (record src { unread = bs; buf_len = length (b ∷ bs); reader = events })
  cut_byte rest vec w src (interruption events) = rest vec w (record src { reader = events })
  cut_byte rest vec w src (error events) = cut_error (record src { reader = events })

  cut_next : (List ℕ → W → Source → CutResult) → List ℕ → W → Source → List ℕ → CutResult
  unfolding cut_byte
  cut_next rest vec w src [] = cut_byte rest vec w src (read src.buf_len src.reader)
  cut_next rest vec w src (b ∷ bs) =
      rest (vec ++ b ∷ []) (rabin.slide w b) (record src { unread = bs })

  unfoldable pub cut : ℕ → List ℕ → W → Source → CutResult
  unfolding cut_next
  cut zero vec w src = out_of_fuel
  cut (suc fuel) vec w src =
      let next = cut_next (cut fuel) vec w src src.unread in
      if stops vec w then cut_at vec src else next

-- Enough rounds for the loop: one for each byte and each call of the reader, and one more.
abbrev pub rounds : Source → ℕ
rounds src = suc (length src.unread + weight src.reader)

module _ {W : Type 0} (rabin : Rabin W) where
  -- The last 64 bytes, which fill the window. The source panics if there are fewer.
  abbrev pub last_64 : List ℕ → List ℕ
  last_64 vec = drop (length vec - 64) vec

  give : ChunkIter → CutResult → Option (ChunkIter × Option (Result (List ℕ)))
  give it out_of_fuel = none
  give it (cut_error src) = some (record it { source = src }, some (err input_output))
  give it (cut_at vec src) =
      some (record it { source = src; size_hint = it.size_hint - length vec }, some (ok vec))

  chunk_of : List ℕ → Option (Result (List ℕ))
  chunk_of [] = none
  chunk_of (b ∷ bs) = some (ok (b ∷ bs))

  -- What follows the read of the first bytes, of which there were to be `min_size`.
  after_read : ChunkIter → ℕ → ReadAll → Option (ChunkIter × Option (Result (List ℕ)))
  unfolding give chunk_of
  after_read it min_size (failure events) = some (
    record it { source = record it.source { unread = []; reader = events } },
    some (err input_output),
  )
  after_read it min_size (all_of bs events) =
      let src = record it.source { unread = []; reader = events } in
      let vec = it.source.unread ++ bs in
      if ltb (length bs) min_size
      then some (record it { source = record src { finished = true } }, chunk_of vec)
      else if ltb (length vec) 64
      then none
      else give it
          (cut rabin it.split_mask it.max_size (rounds src) vec (rabin.prefill (last_64 vec)) src)

  -- `ChunkIter::next`. `none` is a panic. The minimal size wraps around where more bytes are in the
  -- buffer.
  unfoldable pub next : ChunkIter → Option (ChunkIter × Option (Result (List ℕ)))
  unfolding after_read
  next it =
      let min_size = sub_u64 it.min_size (length it.source.unread) in
      let read' = after_read it min_size (read_to_end min_size it.source.reader) in
      if it.source.finished then some (it, none) else read'
