-- ===== src/Index/Tests.antt =====
-- Tests of the index and of the indexer.
use rustic_core.Base.{
  ℕ, ◌≡◌, Bool, true, false, ◌&&◌, Option, none, some, List, [], ◌∷◌, ◌++◌, All, arith, refl, sym,
  Result, ok, ok-injective,
}
use rustic_core.Base.Sorting.{sort_by}
use rustic_core.Base.Search.{binary_search_by_key}
use rustic_core.Blob.{tree_blob, data_blob, BlobType}
use rustic_core.PackFile.{IndexBlob, IndexPack, IndexFile, blob_type, index_pack_size}
use rustic_core.Index.{
  Index, IndexCollector, full, data_ids, extend, into_index, has, get_id, IndexEntry,
}
use rustic_core.Index as Collector
use rustic_core.Index.Lookup.{stands_in, keeps_ids, has-iff-stands_in}
use rustic_core.Index.Answer.{Answers, keeps_locations, get_id-Answers}
use rustic_core.Index.Indexer.{Indexer, Call, run, finalize, new, note, is_due, save, reset}
use rustic_core.Index.Indexer.Saved.{packs_added, all_packs, IsBounded, finalize-contents}

abbrev blob : ℕ → BlobType → ℕ → IndexBlob
blob id t offset = record {
  id = id;
  tpe = t;
  location = record { offset = offset; length = 10; uncompressed_length = none };
}

abbrev pack : ℕ → List IndexBlob → IndexPack
pack id blobs = record { id = id; blobs = blobs; time = none; size = some 100 }

abbrev packs : List IndexPack
packs =
    pack 100 (blob 7 data_blob 0 ∷ blob 3 data_blob 10 ∷ [])
    ∷ pack 200 (blob 5 tree_blob 0 ∷ [])
    ∷ pack 300 (blob 1 data_blob 0 ∷ [])
    ∷ []

abbrev collector_of : Option IndexCollector → IndexCollector
collector_of none = Collector.new full
collector_of (some c) = c

abbrev collector : IndexCollector
collector = collector_of (extend packs (Collector.new full))

collected : extend packs (Collector.new full) ≡ some collector
unfolding extend Collector.new blob_type index_pack_size Collector.collect
collected = refl

found :
    get_id (into_index collector) data_blob 3
    ≡ some (record {
      blob_type = data_blob;
      pack = 100;
      location = record { offset = 10; length = 10; uncompressed_length = none };
    })
unfolding get_id into_index extend Collector.new blob_type index_pack_size Collector.collect
    binary_search_by_key sort_by
found = refl

has-iff-stands_in_example :
    has (into_index collector) data_blob 3
    ≡ (keeps_ids full data_blob && stands_in data_blob 3 packs)
has-iff-stands_in_example = has-iff-stands_in full packs collector data_blob 3 collected

get_id-Answers_example :
    Answers
      (keeps_locations full data_blob)
      packs
      data_blob
      3
      (get_id (into_index collector) data_blob 3)
get_id-Answers_example = get_id-Answers full packs collector data_blob 3 collected

-- A backend that only keeps the index files.
abbrev keep_file : IndexFile → List IndexFile → Result (List IndexFile)
keep_file f files = ok (files ++ f ∷ [])

keep_file-saves : (f : IndexFile) (b b' : List IndexFile) → keep_file f b ≡ ok b' → b' ≡ b ++ f ∷ []
keep_file-saves f b b' e = sym (ok-injective e)

-- The second call comes after five minutes, so a file is saved.
abbrev calls : List Call
calls =
    record { pack = pack 100 (blob 7 data_blob 0 ∷ []); delete = false; now = 10; later = 10 }
    ∷ record { pack = pack 200 []; delete = true; now = 400; later = 401 }
    ∷ record { pack = pack 300 []; delete = false; now = 402; later = 402 }
    ∷ []

abbrev state_of : Result (Indexer × List IndexFile) → Indexer × List IndexFile
state_of (ok r) = r
state_of _ = (new 0, [])

abbrev indexed : Indexer × List IndexFile
indexed = state_of (run keep_file calls (new 0) [])

indexed_lem : run keep_file calls (new 0) [] ≡ ok indexed
unfolding run new note is_due save reset
indexed_lem = refl

abbrev files : List IndexFile
files =
    record {
      supersedes = none;
      packs = pack 100 (blob 7 data_blob 0 ∷ []) ∷ [];
      packs_to_delete = pack 200 [] ∷ [];
    }
    ∷ record { supersedes = none; packs = pack 300 [] ∷ []; packs_to_delete = [] }
    ∷ []

finalized : finalize keep_file indexed.0 indexed.1 ≡ ok files
unfolding finalize run new note is_due save reset
finalized = refl

finalize-contents_example :
    ((d : Bool) → all_packs d files ≡ all_packs d [] ++ packs_added d calls)
    × All (IsBounded 1) files
finalize-contents_example =
    finalize-contents keep_file (λ b. b) keep_file-saves calls 0 1 [] files indexed indexed_lem
      finalized (omega arith) (omega arith) tt
