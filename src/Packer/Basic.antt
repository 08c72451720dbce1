-- ===== src/Packer/Basic.antt =====
-- `BasicPacker` and `RawPacker` of crates/core/src/blob/packer.rs: blobs are put into a pack until it
-- is large, full or old. A file is the list of its bytes. The encryption is a parameter, and so are the
-- times that the clock gives. The file writer takes what is sent to it in order, so the packs that are
-- sent stand in a list.
pub mod Pack
pub mod Sent
pub mod All
mod Tests
use rustic_core.Base.{
  ℕ, ◌+◌, ◌-◌, ◌*◌, ◌≡◌, Bool, true, false, not, ◌||◌, Option, none, some, List, [], ◌∷◌, ◌++◌, any,
  ltb, leb, ◌==◌, length, if◌then◌else◌, Result, ok, err, ◌>>=◌, internal,
}
use rustic_core.Base.Word.{add_u32, add_u64, u32_mod}
use rustic_core.Blob.{BlobType}
use rustic_core.PackFile.{IndexPack, IndexBlob, add, index_pack_size, to_binary}
use rustic_core.PackFile.FromFile.{length_to_binary}
use rustic_core.Packer.Sizer.{PackSizer, pack_size, add_size, max_count, max_age}

-- `PackerStats`
pub record PackerStats : Type 0 where
  pub blobs : ℕ
  pub content : ℕ
  pub data_packed : ℕ

abbrev no_stats : PackerStats
no_stats = record { blobs = 0; content = 0; data_packed = 0 }

-- `IndexPack::default`
abbrev pub no_pack : IndexPack
no_pack = record { id = 0; blobs = []; time = none; size = none }

pub record BasicPacker : Type 0 where
  pub blob_type : BlobType
  pub file : List ℕ
  pub size : ℕ
  pub count : ℕ
  pub created : ℕ
  pub index : IndexPack
  pub pack_sizer : PackSizer
  pub stats : PackerStats

-- `BasicPacker::new`
unfoldable pub new : BlobType → PackSizer → ℕ → BasicPacker
new blob_type pack_sizer now = record {
  blob_type = blob_type;
  file = [];
  size = 0;
  count = 0;
  created = now;
  index = no_pack;
  pack_sizer = pack_sizer;
  stats = no_stats;
}

unfoldable pub is_empty : BasicPacker → Bool
is_empty p = p.count == 0

-- The new packer and the length that was written.
unfoldable pub write_data : List ℕ → BasicPacker → Result (BasicPacker × ℕ)
write_data bytes p =
    if ltb (length bytes) u32_mod
    then ok
        (record p { file = p.file ++ bytes; size = add_u32 p.size (length bytes) }, length bytes)
    else err internal

unfoldable pub has : BasicPacker → ℕ → Bool
has p id = any (λ b. b.id == id) p.index.blobs

count_stats : ℕ → ℕ → PackerStats → PackerStats
count_stats data_len packed s = record {
  blobs = add_u64 s.blobs 1;
  content = add_u64 s.content data_len;
  data_packed = add_u64 s.data_packed packed;
}

-- A blob that is given to the packer: its bytes as they are stored, and the times of the clock.
pub record RawBlob : Type 0 where
  pub bytes : List ℕ
  pub id : ℕ
  pub data_len : ℕ
  pub uncompressed_length : Option ℕ
  pub now : ℕ
  pub later : ℕ

add_new : RawBlob → BasicPacker → Result BasicPacker
unfolding count_stats
add_new b p =
    let counted = record p { stats = count_stats b.data_len (length b.bytes) p.stats } in
    write_data b.bytes counted >>= λ r. ok (record r.0 {
      index = add r.0.index b.id r.0.blob_type p.size r.1 b.uncompressed_length;
      count = add_u32 r.0.count 1;
    })

-- `BasicPacker::add_raw`
unfoldable pub add_raw : RawBlob → BasicPacker → Result BasicPacker
unfolding add_new
add_raw b p = if has p b.id then ok p else add_new b p

-- `BasicPacker::header_bytes`
unfoldable pub header_bytes : BasicPacker → List ℕ
header_bytes p = to_binary p.index.blobs

-- `BasicPacker::write_header`
unfoldable pub write_header : List ℕ → BasicPacker → Result BasicPacker
write_header header p =
    write_data header p >>= λ r. write_data (length_to_binary (length header)) r.0 >>= λ s. ok s.0

-- `BasicPacker::take_data`
unfoldable pub take_data : ℕ → BasicPacker → BasicPacker × (List ℕ × IndexPack)
take_data now p = (
  record p {
    size = 0;
    pack_sizer = add_size p.pack_sizer (index_pack_size p.index);
    count = 0;
    created = now;
    file = [];
    index = no_pack;
  },
  (p.file, p.index),
)

-- `BasicPacker::take_stats`
unfoldable pub take_stats : BasicPacker → BasicPacker × PackerStats
take_stats p = (record p { stats = no_stats }, p.stats)

-- `RawPacker`, with the packs that were sent to the file writer.
pub record RawPacker : Type 0 where
  pub basic : BasicPacker
  pub sent : List (List ℕ × IndexPack)

module _ (integer_sqrt : ℕ → ℕ) where
  -- `BasicPacker::should_save`
  unfoldable pub should_save : ℕ → BasicPacker → Bool
  should_save now p =
      leb max_count p.count
      || leb (pack_size integer_sqrt p.pack_sizer) p.size
      || leb max_age (now - p.created)

  module _ (encrypt : List ℕ → Result (List ℕ)) where
    -- `RawPacker::save`
    unfoldable pub save : ℕ → RawPacker → Result RawPacker
    save now raw = encrypt (header_bytes raw.basic) >>= λ cipher.
        write_header cipher raw.basic >>= λ p.
        let taken = take_data now p in
        ok (record { basic = taken.0; sent = raw.sent ++ taken.1 ∷ [] })

    save_if : Bool → ℕ → RawPacker → Result RawPacker
    save_if true now raw = save now raw
    save_if false now raw = ok raw

    -- `RawPacker::add_raw`
    unfoldable pub add_blob : RawBlob → RawPacker → Result RawPacker
    unfolding save_if
    add_blob b raw = add_raw b raw.basic >>= λ p.
        save_if (should_save b.now p) b.later (record raw { basic = p })

    -- A sequence of calls.
    unfoldable pub add_blobs : List RawBlob → RawPacker → Result RawPacker
    unfolding add_blob
    add_blobs [] raw = ok raw
    add_blobs (b ∷ blobs) raw = add_blob b raw >>= add_blobs blobs

    -- `RawPacker::finalize`, up to the wait for the file writer.
    unfoldable pub finalize : ℕ → RawPacker → Result (RawPacker × PackerStats)
    unfolding save_if
    finalize now raw = save_if (not (is_empty raw.basic)) now raw >>= λ r.
        let taken = take_stats r.basic in ok (record r { basic = taken.0 }, taken.1)
