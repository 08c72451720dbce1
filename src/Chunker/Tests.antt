-- ===== src/Chunker/Tests.antt =====
-- Runs of the chunkers.
use rustic_core.Base.{
  ℕ, zero, suc, ◌+◌, ◌≡◌, ◌≤◌, true, none, some, List, [], ◌∷◌, ◌++◌, length, All, arith, refl,
  Result, ok, err, ◌<◌,
}
use rustic_core.Base.Word.{sub_u64, u64_mod}
use rustic_core.Config.Options.{check_rabin_params}
use rustic_core.Chunker.Reader.{Event, bytes, interrupted, bytes_of, read_to_end}
use rustic_core.Chunker.Pieces.{joined, collect, pieces}
use rustic_core.Chunker.Fixed.{split_at_size, step, collect-pieces_of_size}
use rustic_core.Chunker.Fixed
use rustic_core.Config.Tests.{sample}
use rustic_core.Config.{chunker, poly, chunk_size, chunk_min_size, chunk_max_size}
use rustic_core.Config.Poly.{u64_from_hex}
use rustic_core.Chunker.Iter
use rustic_core.Chunker.Iter.{ChunkIter, by_size, from_config, limit, from_config-joined}
use rustic_core.Chunker.Rabin
use rustic_core.Chunker.Rabin.{Rabin, buf_size, next, stops, cut}
use rustic_core.Chunker.Rabin.Split.{split_first}
use rustic_core.Chunker.Rabin.Chunks.{collect-pieces_by_hash, next_panics}

abbrev reader : List Event
reader = bytes (1 ∷ 2 ∷ 3 ∷ []) ∷ interrupted ∷ bytes (4 ∷ 5 ∷ []) ∷ []

cut_by_two :
    collect (step 2 (omega arith)) 6 (Fixed.new 2 reader 0)
    ≡ some (ok ((1 ∷ 2 ∷ []) ∷ (3 ∷ 4 ∷ []) ∷ (5 ∷ []) ∷ []))
unfolding collect Fixed.new Fixed.next read_to_end
cut_by_two = refl

-- A hash of the last byte only.
abbrev last_byte : Rabin ℕ
last_byte = record { prefill = λ l. 0; slide = λ w b. b; hash = λ w. w + 1 }

abbrev repeat : ℕ → List ℕ
repeat zero = []
repeat (suc n) = 1 ∷ repeat n

-- 4096 bytes, then a byte that ends a chunk, then two more.
abbrev long_reader : List Event
long_reader = bytes (repeat 4000) ∷ bytes (repeat 98 ++ 8191 ∷ 2 ∷ 3 ∷ []) ∷ []

abbrev iter_of : Result Rabin.ChunkIter → Rabin.ChunkIter
iter_of (ok it) = it
iter_of (err e) = record {
  source = record { unread = []; buf_len = 0; reader = []; finished = true };
  split_mask = 0;
  size_hint = 0;
  min_size = 0;
  max_size = 0;
}

abbrev iter : Rabin.ChunkIter
iter = iter_of (Rabin.new 8192 4096 16384 long_reader 0)

made : Rabin.new 8192 4096 16384 long_reader 0 ≡ ok iter
unfolding Rabin.new check_rabin_params
made = refl

collect-pieces_by_hash_example :
    (cs : List (List ℕ)) × (collect (next last_byte) 4102 iter ≡ some (ok cs))
    × (cs ≡ pieces 4101 (split_first last_byte (sub_u64 8192 1) 16384 4096) (bytes_of long_reader))
    × (joined cs ≡ bytes_of long_reader)
    × All (λ c. (1 ≤ length c) × (length c ≤ 16384)) cs
collect-pieces_by_hash_example =
    collect-pieces_by_hash last_byte 8192 4096 16384 long_reader 0 4101 iter made (omega arith)
      (omega arith) refl (omega arith)

abbrev tiny : Rabin.ChunkIter
tiny = iter_of (Rabin.new 4 2 8 reader 0)

tiny_made : Rabin.new 4 2 8 reader 0 ≡ ok tiny
unfolding Rabin.new check_rabin_params
tiny_made = refl

next_panics_example : next last_byte tiny ≡ none
next_panics_example =
    next_panics last_byte 4 2 8 reader 0 tiny tiny_made (omega arith) refl (omega arith)

abbrev tables : ℕ → Rabin ℕ
tables p = last_byte

abbrev config_iter_of : Result (ChunkIter ℕ) → ChunkIter ℕ
config_iter_of (ok it) = it
config_iter_of (err e) = by_size (Fixed.new 1 [] 0)

abbrev config_iter : ChunkIter ℕ
config_iter = config_iter_of (from_config tables sample long_reader 0)

config_made : from_config tables sample long_reader 0 ≡ ok config_iter
unfolding from_config chunker poly u64_from_hex Rabin.new check_rabin_params chunk_size
    chunk_min_size chunk_max_size
config_made = refl

sample_sizes :
    (0 < chunk_size sample) × (buf_size ≤ chunk_min_size sample) × (chunk_min_size sample < u64_mod)
unfolding chunk_size chunk_min_size
sample_sizes = (omega arith, omega arith, omega arith)

from_config-joined_example :
    (cs : List (List ℕ)) × (collect Iter.next 4102 config_iter ≡ some (ok cs))
    × (joined cs ≡ bytes_of long_reader)
    × All (λ c. (1 ≤ length c) × (length c ≤ limit (chunker sample) sample)) cs
from_config-joined_example =
    from_config-joined tables sample long_reader 0 4101 config_iter config_made sample_sizes.0
      sample_sizes.1 sample_sizes.2 refl (omega arith)
