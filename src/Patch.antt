-- ===== src/Patch.antt =====
-- src/patch_engine.cc: `PatchEngine::validate` and `PatchEngine::apply`.
-- `apply` takes the memory by reference, so its model returns the memory that it leaves behind along
-- with its result, on failure too.
pub mod Atomic
pub mod Codec
use binforge.Prelude.{
  ℕ, zero, suc, ◌+◌, ◌*◌, ◌/◌, ◌%◌, ◌^◌, bit_xor, Bool, true, false, ◌&&◌, ◌||◌, not, Option, none,
  some, List, [], ◌∷◌, ltb, ◌==◌, if◌then◌else◌, Text, text, text_eq, length, replicate,
}
use binforge.Base.{
  Error, error, Result, ok, err, ◌>>=◌, ◌>>◌, require, expect, Limits, checked_add, crc32,
  resource_limit, invalid_relocation, address_overflow, mapping_missing, invalid_header,
}
use binforge.Base.Word.{ByteOrder}
use binforge.Region.{MemoryRegion}
use binforge.Memory.{AddressSpace, region_of_range, read, write, width_supported}
use binforge.Memory

pub data PatchOperationKind : Type 0 where
  write_bytes fill_bytes write_integer copy_bytes assert_bytes : PatchOperationKind

pub record PatchOperation : Type 0 where
  pub kind : PatchOperationKind
  pub address : ℕ
  pub source_address : ℕ
  pub length_field : ℕ
  pub integer : ℕ
  pub width : ℕ
  pub fill : ℕ
  pub byte_order : ByteOrder
  pub bytes : List ℕ

pub record PatchPlan : Type 0 where
  pub name : Text
  pub expected_checksum : ℕ
  pub operations : List PatchOperation
  pub bytes_written : ℕ

pub record PatchResult : Type 0 where
  pub operations_applied : ℕ
  pub bytes_written : ℕ
  pub resulting_checksum : ℕ

-- The `size` that `operation_size` sets, which the caller of `apply` uses whatever it returns.
size_of : PatchOperationKind → PatchOperation → ℕ
size_of write_bytes op = length op.bytes
size_of assert_bytes op = length op.bytes
size_of fill_bytes op = op.length_field
size_of copy_bytes op = op.length_field
size_of write_integer op = op.width

size_accepted : PatchOperationKind → PatchOperation → Bool
size_accepted write_bytes op = op.length_field == 0 || op.length_field == length op.bytes
size_accepted assert_bytes op = op.length_field == 0 || op.length_field == length op.bytes
size_accepted fill_bytes op = true
size_accepted copy_bytes op = true
size_accepted write_integer op = width_supported op.width

unfoldable pub operation_size : PatchOperation → ℕ × Bool
unfolding size_of size_accepted
operation_size op = (size_of op.kind op, size_accepted op.kind op)

-- `combined ^= checksum + 0x9e3779b9u + (combined << 6) + (combined >> 2)` on 32 bits.
unfoldable pub combine_checksum : ℕ → ℕ → ℕ
combine_checksum combined checksum =
    bit_xor combined
      ((checksum + 0x9e3779b9 + combined * 2 ^ 6 % 2 ^ 32 + combined / 2 ^ 2) % 2 ^ 32)

checksum_from : ℕ → List MemoryRegion → ℕ
checksum_from combined [] = combined
checksum_from combined (r ∷ rs) = checksum_from (combine_checksum combined (crc32 r.bytes)) rs

unfoldable pub memory_checksum : AddressSpace → ℕ
unfolding checksum_from combine_checksum
memory_checksum memory = checksum_from 0 memory.regions

is_copy : PatchOperationKind → Bool
is_copy copy_bytes = true
is_copy _ = false

is_assert : PatchOperationKind → Bool
is_assert assert_bytes = true
is_assert _ = false

is_some : Option MemoryRegion → Bool
is_some (some r) = true
is_some none = false

-- The checks of a copy's source.
unfoldable pub validate_source : PatchOperation → ℕ → AddressSpace → Result (Unit {0})
unfolding is_some
validate_source op size memory = do
  source_end ←
      expect (checked_add op.source_address size)
        (error address_overflow op.source_address (text "patch source range overflows"))
  require (is_some (region_of_range op.source_address size memory))
      (error mapping_missing op.source_address (text "patch source is not fully mapped"))

-- The bytes that an operation adds to `total_written`.
unfoldable pub count_written : Limits → PatchOperation → ℕ → ℕ → Result ℕ
count_written limits op size total_written = do
  next ←
      expect (checked_add total_written size)
        (error resource_limit op.address (text "patch write-byte limit exceeded"))
  require (not (ltb limits.max_mapped_bytes next))
      (error resource_limit op.address (text "patch write-byte limit exceeded"))
  ok next

-- One round of the loop of `validate`: the new `total_written`.
unfoldable pub validate_operation : Limits → ℕ → PatchOperation → AddressSpace → ℕ → Result ℕ
unfolding operation_size validate_source count_written is_copy is_assert is_some
validate_operation limits index op memory total_written = do
  let size = (operation_size op).0
  require ((operation_size op).1 && not (size == 0))
      (error invalid_relocation index (text "patch operation has an invalid size"))
  end ←
      expect (checked_add op.address size)
        (error address_overflow op.address (text "patch destination range overflows"))
  require (is_some (region_of_range op.address size memory))
      (error mapping_missing op.address (text "patch destination is not fully mapped"))
  if is_copy op.kind then validate_source op size memory else ok tt
  if is_assert op.kind then ok total_written else count_written limits op size total_written

unfoldable pub validate_from : Limits → ℕ → List PatchOperation → AddressSpace → ℕ → Result ℕ
validate_from limits index [] memory total_written = ok total_written
validate_from limits index (op ∷ ops) memory total_written =
    validate_operation limits index op memory total_written >>= λ next.
    validate_from limits (suc index) ops memory next

unfoldable pub validate : Limits → PatchPlan → AddressSpace → Result (Unit {0})
validate limits plan memory = do
  require (not (ltb limits.max_relocations (length plan.operations)))
      (error resource_limit 0 (text "patch operation limit exceeded"))
  total_written ← validate_from limits 0 plan.operations memory 0
  require (plan.bytes_written == 0 || plan.bytes_written == total_written)
      (error invalid_relocation 0 (text "patch declared write count does not match operations"))

pub record Undo : Type 0 where
  pub address : ℕ
  pub bytes : List ℕ

-- The memory after a write whose failure is ignored.
write_ignored : Undo → AddressSpace → AddressSpace
write_ignored u memory = elim (write u.address u.bytes true memory) [
  | ok after ↦ after
  | err ignored ↦ memory
]

-- The loop over `undo` from its end; the list holds the latest entry first.
unfoldable pub roll_back : List Undo → AddressSpace → AddressSpace
unfolding write_ignored
roll_back [] memory = memory
roll_back (u ∷ undo) memory = roll_back undo (write_ignored u memory)

-- The `switch` of `apply`, for the kinds that write.
perform : PatchOperationKind → PatchOperation → ℕ → AddressSpace → Result AddressSpace
perform write_bytes op size memory = write op.address op.bytes true memory
perform fill_bytes op size memory = write op.address (replicate size op.fill) true memory
perform write_integer op size memory =
    Memory.write_integer op.address op.width op.byte_order op.integer true memory
perform copy_bytes op size memory =
    read op.source_address size memory >>= λ copy. write op.address copy true memory
perform assert_bytes op size memory = err (error invalid_header op.address (text ""))

-- What one operation comes to, once the bytes at its address are read.
pub data Round : Type 0 where
  passed : Round
  refused : Error → Round
  failed : Error → Round
  changed : AddressSpace → Round

round : PatchOperationKind → PatchOperation → List ℕ → AddressSpace → Round
unfolding perform operation_size
round assert_bytes op before memory =
    if text_eq before op.bytes
    then passed
    else refused (error invalid_header op.address (text "patch byte assertion failed"))
round kind op before memory = elim (perform kind op (operation_size op).0 memory) [
  | ok after ↦ changed after
  | err e ↦ failed e
]

-- The loop of `apply` over the operations that are left, with the undo entries, and the two counts
-- of the result (`operations_applied` is a `uint32_t`). On failure the memory is the rolled back one.
unfoldable pub apply_from :
    List PatchOperation → List Undo → ℕ → ℕ → AddressSpace → Result (ℕ × ℕ) × AddressSpace
unfolding round roll_back
apply_from [] undo applied written memory = (ok (applied, written), memory)
apply_from (op ∷ ops) undo applied written memory =
    elim (read op.address (operation_size op).0 memory) [
      | err e ↦ (err e, roll_back undo memory)
      | ok before ↦
          let undo' : List Undo = record { address = op.address; bytes = before } ∷ undo in
          elim (round op.kind op before memory) [
            | passed ↦ apply_from ops undo ((applied + 1) % 2 ^ 32) written memory
            | refused e ↦ (err e, roll_back undo memory)
            | failed e ↦ (err e, roll_back undo' memory)
            | changed after ↦
                apply_from ops undo' ((applied + 1) % 2 ^ 32)
                  ((written + (operation_size op).0) % 2 ^ 64) after
          ]
    ]

unfoldable pub apply : Limits → PatchPlan → AddressSpace → Result PatchResult × AddressSpace
apply limits plan memory = elim (validate limits plan memory) [
  | err e ↦ (err e, memory)
  | ok _ ↦
      if not (plan.expected_checksum == 0) && not (memory_checksum memory == plan.expected_checksum)
      then (
        err (error invalid_header 0 (text "patch precondition checksum does not match")),
        memory,
      )
      else let run = apply_from plan.operations [] 0 0 memory in
        elim run.0 [
          | err e ↦ (err e, run.1)
          | ok counts ↦ (
            ok (record {
              operations_applied = counts.0;
              bytes_written = counts.1;
              resulting_checksum = memory_checksum run.1;
            }),
            run.1,
          )
        ]
]
