-- ===== src/RelocationTable/Elf.antt =====
-- src/relocation_decoder.cc: `RelocationTableDecoder::decode_elf`.
pub mod Shape
use binforge.Prelude.{
  ℕ, zero, suc, ◌+◌, ◌-◌, ◌*◌, ◌/◌, ◌%◌, ◌^◌, Bool, true, false, not, ◌||◌, Option, none, some,
  List, ltb, leb, ◌==◌, if◌then◌else◌, text, length,
}
use binforge.Base.{
  Error, error, Result, ok, err, Limits, checked_add, truncated, invalid_relocation, invalid_symbol,
  address_overflow, resource_limit,
}
use binforge.Reader.{ByteReader, Reading, got, short, seek, read_u32, read_u64, read_i32, read_i64}
use binforge.Reader.Decoder.{Decoder, ◌>>=◌, pure, try}
use binforge.Image.{WordSize, bits32, bits64, Relocation}
use binforge.Relocation.{is_wide}
use binforge.RelocationTable.{
  RelocationDecodeOptions, Decoding, and_then, elf_kind, append_relocation,
}

unfoldable pub is_wide_word : WordSize → Bool
is_wide_word bits64 = true
is_wide_word bits32 = false

unfoldable pub minimum_size : RelocationDecodeOptions → ℕ
unfolding is_wide_word
minimum_size options =
    if options.explicit_addends
    then (if is_wide_word options.word_size then 24 else 12)
    else (if is_wide_word options.word_size then 16 else 8)

unfoldable pub used_entry_size : RelocationDecodeOptions → ℕ
unfolding minimum_size
used_entry_size options =
    if options.entry_size == 0 then minimum_size options else options.entry_size

-- The fields of an entry, as 64-bit numbers.
pub record ElfEntry : Type 0 where
  pub offset : ℕ
  pub information : ℕ
  pub addend : ℕ

truncated_wide : ByteReader → Error
truncated_wide r = error truncated r.position (text "ELF64 relocation entry is truncated")

truncated_small : ByteReader → Error
truncated_small r = error truncated r.position (text "ELF32 relocation entry is truncated")

-- `int32_t` to `int64_t`, on the bit patterns.
unfoldable pub sign_extend : ℕ → ℕ
sign_extend v = if leb (2 ^ 31) v then v + (2 ^ 64 - 2 ^ 32) else v

unfoldable pub read_wide : Bool → Decoder ElfEntry
unfolding truncated_wide
read_wide explicit = do
  offset ← try read_u64 truncated_wide
  information ← try read_u64 truncated_wide
  addend ← if explicit then try read_i64 truncated_wide else pure 0
  pure (record { offset = offset; information = information; addend = addend })

unfoldable pub read_small : Bool → Decoder ElfEntry
unfolding truncated_small sign_extend
read_small explicit = do
  offset ← try read_u32 truncated_small
  information ← try read_u32 truncated_small
  addend ← if explicit then try read_i32 truncated_small else pure 0
  pure (record { offset = offset; information = information; addend = sign_extend addend })

-- The symbol and the type that an entry names.
unfoldable pub symbol_part : Bool → ℕ → ℕ
symbol_part wide information = if wide then information / 2 ^ 32 else information / 2 ^ 8

unfoldable pub type_part : Bool → ℕ → ℕ
type_part wide information = if wide then information % 2 ^ 32 else information % 2 ^ 8

unfoldable pub elf_relocation : RelocationDecodeOptions → ElfEntry → ℕ → ℕ → Relocation
unfolding elf_kind is_wide_word type_part symbol_part is_wide
elf_relocation options entry target count =
    let wide : Bool = is_wide_word options.word_size in
    let kind = elf_kind options.architecture (type_part wide entry.information) in
    record {
      index = count % 2 ^ 32;
      kind = kind;
      target_section = options.target_section;
      symbol_index = symbol_part wide entry.information % 2 ^ 32;
      offset = target;
      addend = entry.addend;
      width = if is_wide kind then 8 else 4;
    }

-- An entry that was read at an offset of the table.
unfoldable pub put_entry :
    Limits → RelocationDecodeOptions → ℕ → ElfEntry → List Relocation → Decoding
unfolding elf_relocation
put_entry limits options at entry output =
    if ltb (2 ^ 32 - 1) (symbol_part (is_wide_word options.word_size) entry.information)
    then (err (error invalid_symbol at (text "ELF relocation symbol index does not fit")), output)
    else elim (checked_add options.base_address entry.offset) [
      | none ↦ (err (error address_overflow at (text "ELF relocation target overflows")), output)
      | some target ↦
          append_relocation (elf_relocation options entry target (length output)) output limits
    ]

unfoldable pub read_entry : RelocationDecodeOptions → Decoder ElfEntry
unfolding read_wide read_small
read_entry options =
    if is_wide_word options.word_size
    then read_wide options.explicit_addends
    else read_small options.explicit_addends

-- One round of the loop. The product is below the size of the table and does not wrap.
unfoldable pub elf_round :
    Limits → RelocationDecodeOptions → ℕ → ℕ → ByteReader → List Relocation → Decoding
unfolding read_entry put_entry
elf_round limits options entry_size index reader output =
    let at : ℕ = index * entry_size in
    elim (seek at reader) [
      | short r ↦ (err (error truncated at (text "ELF relocation entry is truncated")), output)
      | got _ r ↦ elim (read_entry options r) [
        | err e ↦ (err e, output)
        | ok (entry, r') ↦ put_entry limits options at entry output
      ]
    ]

-- The loop; every round seeks, so the position that the last one left is of no account.
unfoldable pub elf_loop :
    Limits → RelocationDecodeOptions → ℕ → ℕ → ℕ → ByteReader → List Relocation → Decoding
unfolding elf_round
elf_loop limits options entry_size zero index reader output = (ok tt, output)
elf_loop limits options entry_size (suc left) index reader output =
    and_then (elf_round limits options entry_size index reader output)
      (elf_loop limits options entry_size left (index + 1) reader)

-- `limits_.max_relocations - output.size()` is a `size_t` and wraps.
unfoldable pub room : Limits → List Relocation → ℕ
room limits output = (limits.max_relocations + 2 ^ 64 - length output) % 2 ^ 64

unfoldable pub decode_elf : Limits → List ℕ → RelocationDecodeOptions → List Relocation → Decoding
unfolding elf_loop used_entry_size room
decode_elf limits bytes options output =
    let entry_size : ℕ = used_entry_size options in
    if ltb entry_size (minimum_size options)
      || (ltb (length bytes) entry_size || not (length bytes % entry_size == 0))
    then (err (error invalid_relocation 0 (text "ELF relocation entry size is invalid")), output)
    else if ltb (room limits output) (length bytes / entry_size)
    then (err (error resource_limit 0 (text "ELF relocation table exceeds record limit")), output)
    else elf_loop limits options entry_size (length bytes / entry_size) 0
        (record { bytes = bytes; position = 0; order = options.byte_order }) output
