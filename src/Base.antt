-- ===== src/Base.antt =====
-- src/base.cc and the error, limit and enumeration types of include/binforge/binforge.h.
-- A fallible C++ function that fills an `Error &` is a function into `Result`.
pub mod Checked
pub mod Word
use binforge.Prelude.{
  ℕ, zero, suc, ◌+◌, ◌-◌, ◌*◌, ◌/◌, ◌%◌, ◌^◌, bit_and, bit_xor, Bool, true, false, ◌&&◌, ◌||◌, not,
  Option, none, some, List, [], ◌∷◌, foldl, ltb, leb, ◌==◌, if◌then◌else◌, Text, text, ◌≡◌, refl,
  ◌⊎◌, inl, inr,
}

pub data ErrorCode : Type 0 where
  no_error truncated bad_magic unsupported_format unsupported_class unsupported_endian : ErrorCode
  invalid_header invalid_offset invalid_count invalid_alignment invalid_string : ErrorCode
  invalid_section invalid_segment invalid_symbol invalid_relocation invalid_debug_info : ErrorCode
  address_overflow file_range_overflow mapping_overlap mapping_missing permission_denied : ErrorCode
  unresolved_import duplicate_export resource_limit internal_error : ErrorCode

pub record Error : Type 0 where
  pub code : ErrorCode
  pub offset : ℕ
  pub message : Text

-- `error = {code, offset, message}`.
abbrev pub error : ErrorCode → ℕ → Text → Error
error c o m = record { code = c; offset = o; message = m }

pub data Result {ℓ} (A : Type ℓ) : Type ℓ where
  err : Error → Result A
  ok : A → Result A

infixl 5 ◌>>◌ ◌>>=◌
abbrev pub ◌>>=◌ {ℓ ℓ'} : {A : Type ℓ} {B : Type ℓ'} → Result A → (A → Result B) → Result B
err e >>= next = err e
ok value >>= next = next value

-- A call whose result is only whether it succeeded.
abbrev pub ◌>>◌ {ℓ} : {A : Type ℓ} → Result (Unit {0}) → Result A → Result A
done >> rest = done >>= λ _. rest

-- `if (!test) { error = e; return false; }`
abbrev pub require : Bool → Error → Result (Unit {0})
require true e = ok tt
require false e = err e

-- `if (!value) { error = e; return ...; }`
abbrev pub expect {ℓ} : {A : Type ℓ} → Option A → Error → Result A
expect (some a) e = ok a
expect none e = err e

pub Result-cases {ℓ} :
    {A : Type ℓ} (r : Result A) → ((a : A) × (r ≡ ok a)) ⊎ ((e : Error) × (r ≡ err e))
Result-cases (ok a) = inl (a, refl)
Result-cases (err e) = inr (e, refl)

pub record Limits : Type 0 where
  pub max_file_size : ℕ
  pub max_mapped_bytes : ℕ
  pub max_section_bytes : ℕ
  pub max_debug_bytes : ℕ
  pub max_string_bytes : ℕ
  pub max_sections : ℕ
  pub max_segments : ℕ
  pub max_symbols : ℕ
  pub max_relocations : ℕ
  pub max_imports : ℕ
  pub max_exports : ℕ
  pub max_debug_units : ℕ
  pub max_debug_depth : ℕ
  pub max_line_rows : ℕ
  pub max_disassembly_instructions : ℕ
  pub page_size : ℕ

-- The default member initialisers.
abbrev pub default_limits : Limits
default_limits = record {
  max_file_size = 256 * 1024 * 1024;
  max_mapped_bytes = 512 * 1024 * 1024;
  max_section_bytes = 128 * 1024 * 1024;
  max_debug_bytes = 64 * 1024 * 1024;
  max_string_bytes = 1024 * 1024;
  max_sections = 65536;
  max_segments = 65536;
  max_symbols = 1_000_000;
  max_relocations = 2_000_000;
  max_imports = 250000;
  max_exports = 250000;
  max_debug_units = 65536;
  max_debug_depth = 128;
  max_line_rows = 2_000_000;
  max_disassembly_instructions = 1_000_000;
  page_size = 4096;
}

-- `std::numeric_limits<uint64_t>::max()`
abbrev pub u64_max : ℕ
u64_max = 2 ^ 64 - 1

-- `none` is a return of false, which leaves `result` alone.
unfoldable pub checked_add : ℕ → ℕ → Option ℕ
checked_add left right = if ltb (u64_max - left) right then none else some ((left + right) % 2 ^ 64)

unfoldable pub checked_multiply : ℕ → ℕ → Option ℕ
checked_multiply left right =
    if ltb 0 left && ltb (u64_max / left) right then none else some (left * right % 2 ^ 64)

-- `expanded & ~mask`, where `~mask` is `u64_max - mask`.
unfoldable pub checked_align_up : ℕ → ℕ → Option ℕ
checked_align_up value alignment =
    if alignment == 0 || not (bit_and alignment (alignment - 1) == 0)
    then none
    else let mask = alignment - 1 in
      elim (checked_add value mask) [
        | none ↦ none
        | some expanded ↦ some (bit_and expanded (u64_max - mask))
      ]

unfoldable pub range_inside : ℕ → ℕ → ℕ → Bool
range_inside offset len container_size =
    leb offset container_size && leb len (container_size - offset)

-- One round of the inner loop; `0u - (value & 1u)` wraps.
crc32_bit : ℕ → ℕ
crc32_bit value = bit_xor (value / 2) (bit_and 0xedb88320 ((2 ^ 32 - bit_and value 1) % 2 ^ 32))

crc32_bits : ℕ → ℕ → ℕ
crc32_bits zero value = value
crc32_bits (suc n) value = crc32_bits n (crc32_bit value)

crc32_byte : ℕ → ℕ → ℕ
crc32_byte value byte = crc32_bits 8 (bit_xor value byte)

-- `~value`, a `uint32_t`.
unfoldable pub crc32 : List ℕ → ℕ
unfolding crc32_bit crc32_bits crc32_byte
crc32 bytes = bit_xor (foldl crc32_byte 0xffffffff bytes) 0xffffffff % 2 ^ 32

unfoldable pub error_code_name : ErrorCode → Text
error_code_name no_error = text "none"
error_code_name truncated = text "truncated"
error_code_name bad_magic = text "bad_magic"
error_code_name unsupported_format = text "unsupported_format"
error_code_name unsupported_class = text "unsupported_class"
error_code_name unsupported_endian = text "unsupported_endian"
error_code_name invalid_header = text "invalid_header"
error_code_name invalid_offset = text "invalid_offset"
error_code_name invalid_count = text "invalid_count"
error_code_name invalid_alignment = text "invalid_alignment"
error_code_name invalid_string = text "invalid_string"
error_code_name invalid_section = text "invalid_section"
error_code_name invalid_segment = text "invalid_segment"
error_code_name invalid_symbol = text "invalid_symbol"
error_code_name invalid_relocation = text "invalid_relocation"
error_code_name invalid_debug_info = text "invalid_debug_info"
error_code_name address_overflow = text "address_overflow"
error_code_name file_range_overflow = text "file_range_overflow"
error_code_name mapping_overlap = text "mapping_overlap"
error_code_name mapping_missing = text "mapping_missing"
error_code_name permission_denied = text "permission_denied"
error_code_name unresolved_import = text "unresolved_import"
error_code_name duplicate_export = text "duplicate_export"
error_code_name resource_limit = text "resource_limit"
error_code_name internal_error = text "internal_error"
