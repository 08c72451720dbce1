-- ===== src/Blob/Tests.antt =====
-- Examples for the blob locations.
use rustic_core.Base.{ℕ, none, [], ◌∷◌, arith}
use rustic_core.Blob.{BlobLocations, coalesce}
use rustic_core.Blob.Coalesce.{IsValid, Coalesced, coalesce-Coalesced}

abbrev first : BlobLocations ℕ
first = record {
  offset = 0;
  length = 100;
  blobs = (record { offset = 0; length = 100; uncompressed_length = none }, 7) ∷ [];
}

abbrev second : BlobLocations ℕ
second = record {
  offset = 300;
  length = 50;
  blobs = (record { offset = 300; length = 50; uncompressed_length = none }, 8) ∷ [];
}

first-IsValid : IsValid first
first-IsValid = record { fits = omega arith; holds = ((omega arith, omega arith), tt) }

second-IsValid : IsValid second
second-IsValid = record { fits = omega arith; holds = ((omega arith, omega arith), tt) }

coalesce-Coalesced_example : Coalesced first second (coalesce first second)
coalesce-Coalesced_example = coalesce-Coalesced first second first-IsValid second-IsValid
