-- ===== src/RelocationTable/Macho.antt =====
-- src/relocation_decoder.cc: `RelocationTableDecoder::decode_macho`.
pub mod Shape
use binforge.Prelude.{
  ℕ, zero, suc, ◌+◌, ◌*◌, ◌/◌, ◌%◌, ◌^◌, Bool, not, Option, none, some, List, ltb, leb, ◌==◌,
  if◌then◌else◌, text, length,
}
use binforge.Base.{
  Error, error, Result, ok, err, Limits, checked_add, truncated, invalid_relocation,
  address_overflow, resource_limit,
}
use binforge.Reader.{ByteReader, read_u32, read_i32}
use binforge.Reader.Decoder.{Decoder, ◌>>=◌, pure, try}
use binforge.Image.{Relocation}
use binforge.RelocationTable.{
  RelocationDecodeOptions, Decoding, and_then, macho_kind, append_relocation,
}
use binforge.RelocationTable.Elf.{room}

truncated_record : ℕ → ByteReader → Error
truncated_record index r = error truncated (index * 8) (text "Mach-O relocation entry is truncated")

unfoldable pub read_record : ℕ → Decoder (ℕ × ℕ)
unfolding truncated_record
read_record index = do
  address ← try read_i32 (truncated_record index)
  information ← try read_u32 (truncated_record index)
  pure (address, information)

unfoldable pub macho_relocation : RelocationDecodeOptions → ℕ → ℕ → ℕ → Relocation
unfolding macho_kind
macho_relocation options information target count =
    let external : Bool = not (information / 2 ^ 27 % 2 == 0) in
    let width : ℕ = 2 ^ (information / 2 ^ 25 % 4) in
    record {
      index = count % 2 ^ 32;
      kind = macho_kind (information / 2 ^ 28) external (not (information / 2 ^ 24 % 2 == 0)) width;
      target_section = options.target_section;
      symbol_index = if external then information % 2 ^ 24 else 0;
      offset = target;
      addend = 0;
      width = width;
    }

-- A record that was read: an address, whose sign bit marks a scattered record, and its information.
unfoldable pub put_record :
    Limits → RelocationDecodeOptions → ℕ → ℕ × ℕ → List Relocation → Decoding
unfolding macho_relocation
put_record limits options index (address, information) output =
    if leb (2 ^ 31) address
    then (
      err (
          error invalid_relocation (index * 8) (text "scattered Mach-O relocation is unsupported")),
      output,
    )
    else elim (checked_add options.base_address address) [
      | none ↦ (
        err (error address_overflow (index * 8) (text "Mach-O relocation target overflows")),
        output,
      )
      | some target ↦
          append_relocation (macho_relocation options information target (length output)) output
            limits
    ]

unfoldable pub macho_loop :
    Limits → RelocationDecodeOptions → ℕ → ℕ → ByteReader → List Relocation → Decoding
unfolding read_record put_record
macho_loop limits options zero index reader output = (ok tt, output)
macho_loop limits options (suc left) index reader output = elim (read_record index reader) [
  | err e ↦ (err e, output)
  | ok (fields, next) ↦
      and_then (put_record limits options index fields output)
        (macho_loop limits options left (index + 1) next)
]

unfoldable pub decode_macho : Limits → List ℕ → RelocationDecodeOptions → List Relocation → Decoding
unfolding macho_loop room
decode_macho limits bytes options output =
    if not (length bytes % 8 == 0)
    then (
      err (error invalid_relocation 0 (text "Mach-O relocation table is not record aligned")),
      output,
    )
    else if ltb (room limits output) (length bytes / 8)
    then (
      err (error resource_limit 0 (text "Mach-O relocation table exceeds record limit")),
      output,
    )
    else macho_loop limits options (length bytes / 8) 0
        (record { bytes = bytes; position = 0; order = options.byte_order }) output
