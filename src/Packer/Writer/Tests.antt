-- ===== src/Packer/Writer/Tests.antt =====
-- A run of a packer, the writer and the indexer on an empty repository, with a hash of the first byte.
use rustic_core.Base.{
  ℕ, ◌≡◌, Option, none, some, List, [], ◌∷◌, ◌++◌, refl, Result, ok, err, ok-injective, sym, ap,
  ◌==◌, if◌then◌else◌, arith, ◌∙◌, In, false, All, inl, inr,
}
use rustic_core.Blob.{data_blob}
use rustic_core.PackFile.{
  to_binary, write_entry, from_blob, blob_type, entry_length, index_pack_size, type_of_first,
  IndexFile,
}
use rustic_core.Index.Indexer
use rustic_core.Packer.Basic
use rustic_core.Packer.Basic.{
  RawBlob, RawPacker, PackerStats, add_blobs, add_blob, take_data, take_stats,
}
use rustic_core.Packer.Samples.{encrypt, decrypt, encrypts, root, content, raw, raw-IsRaw}
use rustic_core.Packer.Sizer
use rustic_core.Packer.Sizer.{fixed, grown_size, add_size}
use rustic_core.PackFile
use rustic_core.PackFile.Bytes.{le_bytes, be_bytes}
use rustic_core.Packer.Writer.Found.{IsBackend}
use rustic_core.Index.Indexer.{Indexer, add_to_file, add_with, is_due, note, reset}
use rustic_core.Index.{IndexCollector, extend, new, full, into_index}
use rustic_core.Packer.Writer.{write_all, Times, process, write}
use rustic_core.Index.Indexer.Saved.{all_packs}
use rustic_core.Packer.Writer.Served.{Serves, IsIndexed, get_id-write_all}

record Disk : Type 0 where
  index : List IndexFile
  packs : ℕ → Option (List ℕ)

abbrev hash : List ℕ → ℕ
hash [] = 0
hash (b ∷ bs) = b

abbrev write_pack : ℕ → List ℕ → Disk → Result Disk
write_pack id file disk =
    ok (record disk { packs = λ i. if i == id then some file else disk.packs i })

abbrev save_file : IndexFile → Disk → Result Disk
save_file file disk = ok (record disk { index = disk.index ++ file ∷ [] })

abbrev written : Disk → List IndexFile
written disk = disk.index

abbrev stored : Disk → ℕ → Option (List ℕ)
stored disk = disk.packs

disk-IsBackend : IsBackend write_pack save_file written stored
disk-IsBackend = record {
  saves = λ f b b' e. ap (λ (d : Disk). d.index) (sym (ok-injective e));
  save_keeps = λ f b b' id e. ap (λ (d : Disk). d.packs id) (sym (ok-injective e));
  writes = λ id file b b' e. ap (λ (d : Disk). d.packs id) (sym (ok-injective e)) ∙ ground arith;
  write_keeps = λ id file b b' other e h.
      ap (λ (d : Disk). d.packs other) (sym (ok-injective e)) ∙ ground arith;
  write_written = λ id file b b' e. ap (λ (d : Disk). d.index) (sym (ok-injective e));
}

abbrev start : RawPacker
start = record { basic = Basic.new data_blob (fixed 1000) 0; sent = [] }

abbrev value {ℓ} : {A : Type ℓ} → A → Result A → A
value x (ok y) = y
value x (err e) = x

abbrev filled : RawPacker
filled = value start (add_blobs root encrypt (raw 1 ∷ raw 2 ∷ []) start)

abbrev finished : RawPacker × PackerStats
finished = value (start, start.basic.stats) (Basic.finalize root encrypt 5 filled)

-- The file of the pack that was sent.
abbrev file : List ℕ
file = elim finished.0.sent [ [] ↦ [] | s ∷ more ↦ s.0 ]

abbrev files : List (List ℕ)
files = file ∷ []

one_file : (f g : List ℕ) → In f files → In g files → hash f ≡ hash g → f ≡ g
one_file f g (inl a) (inl b) e = sym a ∙ b
one_file f g (inl a) (inr b) e = absurd b
one_file f g (inr a) b e = absurd a

abbrev times : ℕ → Times
times k = record { stamp = k; now = k; later = k }

abbrev empty : Disk
empty = record { index = []; packs = λ i. none }

abbrev at_end : Indexer × Disk
at_end =
    value (Indexer.new 0, empty)
      (write_all hash write_pack save_file times 0 finished.0.sent (Indexer.new 0) empty)

abbrev disk : Disk
disk = value empty (Indexer.finalize save_file at_end.0 at_end.1)

abbrev collected : IndexCollector
collected = elim (extend (all_packs false (written disk)) (new full)) [
  | none ↦ new full
  | some c ↦ c
]

get_id-write_all_example :
    Serves hash write_pack save_file written stored disk-IsBackend content files one_file data_blob
      (into_index collected)
      disk
      2
    × All
        (IsIndexed hash write_pack save_file written stored disk-IsBackend content files one_file
          data_blob disk)
        (all_packs false (written disk))
unfolding Basic.finalize add_blobs write_all Indexer.finalize Indexer.new extend new Basic.add_raw
    Basic.has Basic.new Basic.write_data Basic.should_save Sizer.pack_size grown_size fixed
    PackFile.add Basic.is_empty Basic.save Basic.write_header Basic.header_bytes to_binary
    write_entry from_blob le_bytes Indexer.add add_to_file add_with is_due note reset Indexer.save
    be_bytes blob_type entry_length index_pack_size PackFile.pack_size type_of_first add_blob
    take_data take_stats add_size process write
get_id-write_all_example =
    get_id-write_all hash write_pack save_file written stored disk-IsBackend content files one_file
      data_blob root encrypt decrypt encrypts (raw 1 ∷ raw 2 ∷ []) (fixed 1000) times 0 5 0 2 empty
      disk filled finished at_end collected
      (raw-IsRaw 1 (omega arith), (raw-IsRaw 2 (omega arith), tt)) refl refl (inl refl, tt) tt refl
      refl refl refl
