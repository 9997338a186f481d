-- ===== src/Runs/Patch.antt =====
-- The theorems on src/patch_engine.cc at concrete inputs.
use binforge.Prelude.Tests.{text_eq, text}
use binforge.Region.{before_upper_bound, contains, allows, modify, splice}
use binforge.Prelude.{ℕ, ◌≤◌, ◌≡◌, refl, some, List, [], ◌∷◌, All, text, length, arith}
use binforge.Base.{
  error, Result, ok, err, default_limits, invalid_header, checked_add, range_inside,
}
use binforge.Base.Word.{little, le_bytes}
use binforge.Memory.{AddressSpace, region_of_range, region_at, read, write}
use binforge.Patch.{
  PatchOperation, PatchPlan, PatchResult, write_bytes, assert_bytes, apply, validate, validate_from,
  validate_operation, apply_from,
}
use binforge.Patch.Atomic.{apply-failed}
use binforge.Patch.Codec.{encode, decode}
use binforge.Patch.Codec.RoundTrip.{IsTyped, decode-encode}
use binforge.Runs.{two_regions, two_regions-IsValid}

abbrev write_low : PatchOperation
write_low = record {
  kind = write_bytes;
  address = 17;
  source_address = 0;
  length_field = 0;
  integer = 0;
  width = 0;
  fill = 0;
  byte_order = little;
  bytes = 9 ∷ 8 ∷ [];
}

-- The bytes are not those of the memory.
abbrev wrong_assert : PatchOperation
wrong_assert = record write_low { kind = assert_bytes; address = 32; bytes = 5 ∷ 5 ∷ [] }

abbrev failing : PatchPlan
failing = record {
  name = text "p";
  expected_checksum = 0;
  operations = write_low ∷ wrong_assert ∷ [];
  bytes_written = 0;
}

abbrev outcome : Result PatchResult × AddressSpace
outcome = apply default_limits failing two_regions

outcome_is :
    outcome ≡ (err (error invalid_header 32 (text "patch byte assertion failed")), outcome.1)
unfolding apply validate validate_from validate_operation checked_add region_of_range region_at
    before_upper_bound contains range_inside apply_from read allows write modify text_eq splice
outcome_is = refl

apply-failed_example : outcome.1 ≡ two_regions
apply-failed_example =
    apply-failed default_limits failing two_regions outcome.1
      (error invalid_header 32 (text "patch byte assertion failed")) two_regions-IsValid outcome_is

abbrev bytes_of : Result (List ℕ) → List ℕ
bytes_of (ok bytes) = bytes
bytes_of (err e) = []

abbrev encoded : List ℕ
encoded = bytes_of (encode default_limits failing)

encoded_is : encode default_limits failing ≡ ok encoded
unfolding encode text le_bytes
encoded_is = refl

encoded_fits : length encoded ≤ default_limits.max_file_size
unfolding encode text le_bytes
encoded_fits = omega arith

typed : All (IsTyped default_limits) failing.operations
typed = (
  record {
    address_fits = omega arith;
    source_fits = omega arith;
    length_fits = omega arith;
    integer_fits = omega arith;
    bytes_fit = omega arith;
    bytes_within = omega arith;
  },
  (
    record {
      address_fits = omega arith;
      source_fits = omega arith;
      length_fits = omega arith;
      integer_fits = omega arith;
      bytes_fit = omega arith;
      bytes_within = omega arith;
    },
    tt,
  ),
)

decode-encode_example : decode default_limits (some encoded) ≡ ok failing
unfolding text
decode-encode_example =
    decode-encode default_limits failing encoded encoded_is encoded_fits (omega arith) (omega arith)
      (omega arith) (omega arith) typed
