-- ===== src/Runs/Snapshot.antt =====
-- The theorems on src/snapshot.cc at concrete inputs.
use binforge.Base.Word.{le_bytes}
use binforge.Prelude.Tests.{text}
use binforge.Prelude.{
  ℕ, ◌+◌, ◌≤◌, ◌≡◌, refl, true, some, List, [], All, ◌%◌, ◌^◌, text, length, arith,
}
use binforge.Base.{Result, ok, err, default_limits, crc32}
use binforge.Snapshot.{MemorySnapshot, capture, restore}
use binforge.Snapshot.Restore.{restore-capture}
use binforge.Snapshot.Codec.{encode, decode}
use binforge.Snapshot.Codec.RoundTrip.{IsTyped, snapshot_decode-encode}
use binforge.Runs.{two_regions, two_regions-IsValid}

abbrev captured_of : Result MemorySnapshot → MemorySnapshot
captured_of (ok snapshot) = snapshot
captured_of (err e) = record { version = 0; mapped_bytes = 0; regions = [] }

abbrev captured : MemorySnapshot
captured = captured_of (capture default_limits two_regions true)

captured_is : capture default_limits two_regions true ≡ ok captured
unfolding capture
captured_is = refl

restore-capture_example : restore default_limits captured ≡ ok two_regions
unfolding text
restore-capture_example =
    restore-capture default_limits two_regions captured two_regions-IsValid (omega arith)
      (omega arith, (omega arith, tt)) captured_is

abbrev bytes_of : Result (List ℕ) → List ℕ
bytes_of (ok bytes) = bytes
bytes_of (err e) = []

abbrev encoded : List ℕ
encoded = bytes_of (encode default_limits captured)

encoded_is : encode default_limits captured ≡ ok encoded
unfolding encode capture text
encoded_is = refl

encoded_fits :
    length encoded ≤ (default_limits.max_mapped_bytes + default_limits.max_file_size) % 2 ^ 64
unfolding encode capture text le_bytes
encoded_fits = omega arith

typed : All IsTyped captured.regions
unfolding capture text crc32
typed = (
  record {
    base_fits = omega arith;
    size_fits = omega arith;
    name_fits = omega arith;
    checksum_fits = omega arith;
    bytes_fit = omega arith;
  },
  (
    record {
      base_fits = omega arith;
      size_fits = omega arith;
      name_fits = omega arith;
      checksum_fits = omega arith;
      bytes_fit = omega arith;
    },
    tt,
  ),
)

snapshot_decode-encode_example : decode default_limits (some encoded) ≡ ok captured
unfolding capture
snapshot_decode-encode_example =
    snapshot_decode-encode default_limits captured encoded encoded_is encoded_fits refl
      (omega arith) (omega arith) typed
