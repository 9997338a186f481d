-- ===== src/Patch/Codec.antt =====
-- src/patch_engine.cc: `PatchEngine::encode` and `PatchEngine::decode`, the `BFPT` container.
pub mod RoundTrip
use binforge.Prelude.{
  ℕ, zero, suc, ◌+◌, ◌-◌, ◌%◌, ◌^◌, Bool, true, false, ◌||◌, not, Option, none, some, List, [], ◌∷◌,
  ◌++◌, ltb, ◌==◌, if◌then◌else◌, Text, text, text_eq, length, take, drop,
}
use binforge.Base.{
  Error, error, Result, ok, err, Limits, crc32, resource_limit, bad_magic, invalid_header,
  truncated,
}
use binforge.Base.Word.{ByteOrder, little, big, le_bytes, join_u32}
use binforge.Reader.{ByteReader, read_u8, read_u32, read_u64, read_bytes, remaining}
use binforge.Reader.Container.{body_reader}
use binforge.Reader.Decoder.{Decoder, ◌>>=◌, ◌>>◌, pure, try, check, left_clear}
use binforge.Patch.{
  PatchOperation, PatchOperationKind, write_bytes, fill_bytes, write_integer, copy_bytes,
  assert_bytes, PatchPlan,
}

unfoldable pub kind_code : PatchOperationKind → ℕ
kind_code write_bytes = 0
kind_code fill_bytes = 1
kind_code write_integer = 2
kind_code copy_bytes = 3
kind_code assert_bytes = 4

-- `static_cast<PatchOperationKind>(kind)` behind the test `kind > assert_bytes`.
unfoldable pub kind_of : ℕ → Option PatchOperationKind
kind_of zero = some write_bytes
kind_of (suc zero) = some fill_bytes
kind_of (suc (suc zero)) = some write_integer
kind_of (suc (suc (suc zero))) = some copy_bytes
kind_of (suc (suc (suc (suc zero)))) = some assert_bytes
kind_of (suc (suc (suc (suc (suc n))))) = none

unfoldable pub order_code : ByteOrder → ℕ
order_code little = 0
order_code big = 1

unfoldable pub order_of : ℕ → Option ByteOrder
order_of zero = some little
order_of (suc zero) = some big
order_of (suc (suc n)) = none

-- `"BFPT"`
abbrev pub patch_magic : List ℕ
patch_magic = 66 ∷ 70 ∷ 80 ∷ 84 ∷ []

-- The bytes of an operation, in front of those that follow.
unfoldable pub put_operation : PatchOperation → List ℕ → List ℕ
unfolding kind_code order_code
put_operation op back =
    kind_code op.kind
    ∷ (le_bytes 8 op.address
        ++ (le_bytes 8 op.source_address
            ++ (le_bytes 8 op.length_field
                ++ (le_bytes 8 op.integer
                    ++ (op.width
                        ∷ (op.fill
                            ∷ (order_code op.byte_order
                                ∷ (le_bytes 4 (length op.bytes % 2 ^ 32)
                                    ++ (op.bytes ++ back)))))))))

-- The loop over the operations, with `output` so far.
encode_operations : Limits → List PatchOperation → List ℕ → Result (List ℕ)
encode_operations limits [] output = ok output
encode_operations limits (op ∷ ops) output =
    let output' = output ++ put_operation op [] in
    let rest = encode_operations limits ops output' in
    if ltb limits.max_file_size (length output')
    then err (error resource_limit (length output') (text "encoded patch exceeds size limit"))
    else rest

-- What stands between the magic and the operations.
unfoldable pub put_fields : PatchPlan → List ℕ → List ℕ
put_fields plan back =
    le_bytes 4 1
    ++ (le_bytes 4 (length plan.name % 2 ^ 32)
        ++ (plan.name
            ++ (le_bytes 4 plan.expected_checksum
                ++ (le_bytes 8 plan.bytes_written
                    ++ (le_bytes 4 (length plan.operations % 2 ^ 32) ++ back)))))

unfoldable pub encode : Limits → PatchPlan → Result (List ℕ)
unfolding encode_operations put_fields put_operation
encode limits plan =
    if ltb limits.max_string_bytes (length plan.name)
      || ltb limits.max_relocations (length plan.operations)
    then err (error resource_limit 0 (text "patch plan exceeds encode limits"))
    else elim (encode_operations limits plan.operations (patch_magic ++ put_fields plan [])) [
      | err e ↦ err e
      | ok output ↦ ok (output ++ le_bytes 4 (crc32 output))
    ]

truncated_operation : ByteReader → Error
truncated_operation r = error truncated r.position (text "patch operation is truncated")

invalid_enum : ByteReader → Error
invalid_enum r = error invalid_header r.position (text "patch operation enum is invalid")

-- A number that the caller has, or the error of a test that it fails.
abbrev require_some : {A : Type 0} → Option A → (ByteReader → Error) → Decoder A
require_some (some a) e r = ok (a, r)
require_some none e r = err (e r)

unfoldable pub decode_operation : Limits → Decoder PatchOperation
unfolding truncated_operation invalid_enum kind_of order_of
decode_operation limits = do
  kind ← try read_u8 truncated_operation
  address ← try read_u64 truncated_operation
  source_address ← try read_u64 truncated_operation
  length_field ← try read_u64 truncated_operation
  integer ← try read_u64 truncated_operation
  width ← try read_u8 truncated_operation
  fill ← try read_u8 truncated_operation
  order ← try read_u8 truncated_operation
  byte_count ← try read_u32 truncated_operation
  check (λ r. not (ltb limits.max_section_bytes byte_count)) truncated_operation
  check (λ r. not (ltb (remaining r) byte_count)) truncated_operation
  kind' ← require_some (kind_of kind) invalid_enum
  order' ← require_some (order_of order) invalid_enum
  bytes ← try (read_bytes byte_count) left_clear
  pure (record {
    kind = kind';
    address = address;
    source_address = source_address;
    length_field = length_field;
    integer = integer;
    width = width;
    fill = fill;
    byte_order = order';
    bytes = bytes;
  })

-- The loop from `index` to `operation_count`.
unfoldable pub decode_operations : Limits → ℕ → Decoder (List PatchOperation)
unfolding decode_operation
decode_operations limits zero = pure []
decode_operations limits (suc left) = do
  op ← decode_operation limits
  ops ← decode_operations limits left
  pure (op ∷ ops)

header_error : ByteReader → Error
header_error r = error invalid_header 4 (text "patch header is invalid")

count_error : ByteReader → Error
count_error r = error resource_limit r.position (text "patch operation count is invalid")

trailing_error : ByteReader → Error
trailing_error r = error invalid_header r.position (text "patch container contains trailing data")

unfoldable pub decode_plan : Limits → Decoder PatchPlan
unfolding decode_operations header_error count_error trailing_error
decode_plan limits = do
  version ← try read_u32 header_error
  check (λ r. version == 1) header_error
  name_size ← try read_u32 header_error
  check (λ r. not (ltb limits.max_string_bytes name_size)) header_error
  check (λ r. not (ltb (remaining r) name_size)) header_error
  name ← try (read_bytes name_size) left_clear
  expected_checksum ← try read_u32 count_error
  bytes_written ← try read_u64 count_error
  operation_count ← try read_u32 count_error
  check (λ r. not (ltb limits.max_relocations operation_count)) count_error
  operations ← decode_operations limits operation_count
  check (λ r. remaining r == 0) trailing_error
  pure (record {
    name = name;
    expected_checksum = expected_checksum;
    operations = operations;
    bytes_written = bytes_written;
  })

decode_body : Limits → List ℕ → Result PatchPlan
decode_body limits bytes =
    if ltb (length bytes) 28
      || ltb limits.max_file_size (length bytes)
      || not (text_eq (take 4 bytes) patch_magic)
    then err (error bad_magic 0 (text "patch container is invalid"))
    else if not (join_u32 (drop (length bytes - 4) bytes) == crc32 (take (length bytes - 4) bytes))
    then err (error invalid_header (length bytes - 4) (text "patch checksum does not match"))
    else elim (decode_plan limits (body_reader bytes)) [ err e ↦ err e | ok (plan, r) ↦ ok plan ]

-- `none` is a null pointer.
unfoldable pub decode : Limits → Option (List ℕ) → Result PatchPlan
unfolding decode_body
decode limits none = err (error bad_magic 0 (text "patch container is invalid"))
decode limits (some bytes) = decode_body limits bytes
