-- ===== src/Packer/Basic/Tests.antt =====
-- A run of the packer, with an encryption that puts 32 bytes in front.
use rustic_core.Base.{◌≡◌, true, List, [], ◌∷◌, All, arith, ok}
use rustic_core.Blob.{data_blob}
use rustic_core.Packer.Sizer.{fixed}
use rustic_core.Packer.Samples.{encrypt, decrypt, encrypts, root, content, raw, raw-IsRaw}
use rustic_core.Packer.Basic.{RawBlob, RawPacker, PackerStats, add_blobs, finalize, new}
use rustic_core.Packer.Basic.Sent.{IsReadable}
use rustic_core.Packer.Basic.All.{is_sent, finalize-IsReadable}

abbrev blobs : List RawBlob
blobs = raw 1 ∷ raw 2 ∷ raw 1 ∷ []

finalize-IsReadable_example :
    (q : RawPacker) × (r : RawPacker × PackerStats) × (add_blobs root encrypt blobs
        (record { basic = new data_blob (fixed 2) 0; sent = [] })
      ≡ ok q)
    × (finalize root encrypt 5 q ≡ ok r)
    × All (λ b. is_sent b.id r.0.sent ≡ true) blobs
    × All (IsReadable content data_blob decrypt) r.0.sent
finalize-IsReadable_example =
    finalize-IsReadable content data_blob root encrypt decrypt encrypts blobs (fixed 2) 0 5
      (raw-IsRaw 1 (omega arith), (raw-IsRaw 2 (omega arith), (raw-IsRaw 1 (omega arith), tt)))
