-- ===== src/Manifest/Read.antt =====
-- src/manifest.cc: `ManifestReader`, and how `ImageManifestCodec::decode` reads each kind of item.
use binforge.Prelude.{
  ℕ, zero, suc, ◌%◌, ◌^◌, Bool, ◌&&◌, ◌||◌, not, List, [], ◌∷◌, ltb, leb, ◌==◌, Text, text, length,
  take, drop,
}
use binforge.Base.{
  Error, error, Limits, crc32, range_inside, truncated, invalid_header, invalid_section,
}
use binforge.Image.{
  FileHeader, Section, Segment, Symbol, Relocation, Import, Export, DebugUnit, no_entries,
}
use binforge.Reader.{ByteReader, read_u8, read_u32, read_u64, read_i64, read_bytes, remaining}
use binforge.Reader.Decoder.{Decoder, ◌>>=◌, ◌>>◌, pure, try, check, left_clear}
use binforge.Manifest.Codes.{
  format_of, word_of, order_of, kind_of, architecture_of, section_of, binding_of, symbol_of,
  relocation_of,
}

-- `ManifestReader::text`, whose failure the caller reports as `e`.
unfoldable pub read_text : ℕ → (ByteReader → Error) → Decoder Text
read_text maximum e = do
  size ← try read_u32 e
  check (λ r. not (ltb maximum size)) e
  check (λ r. not (ltb (remaining r) size)) e
  try (read_bytes size) e

-- The loop over the items that are left.
unfoldable pub repeat : {A : Type 0} → Decoder A → ℕ → Decoder (List A)
repeat item zero = pure []
repeat item (suc left) = do a ← item; rest ← repeat item left; pure (a ∷ rest)

-- `if (!reader.u32(count) || count > maximum) return std::nullopt;`, and the loop.
unfoldable pub read_table : {A : Type 0} → ℕ → Decoder A → Decoder (List A)
unfolding repeat
read_table maximum item = do
  count ← try read_u32 left_clear
  check (λ r. not (ltb maximum count)) left_clear
  repeat item count

abbrev pub header_error : ByteReader → Error
header_error r = error invalid_header 4 (text "manifest header is invalid")

unfoldable pub decode_header : Decoder FileHeader
unfolding format_of word_of order_of kind_of architecture_of
decode_header = do
  format ← try read_u8 header_error
  word ← try read_u8 header_error
  order ← try read_u8 header_error
  kind ← try read_u8 header_error
  architecture ← try read_u8 header_error
  entry_point ← try read_u64 header_error
  image_base ← try read_u64 header_error
  section_table_offset ← try read_u64 header_error
  segment_table_offset ← try read_u64 header_error
  section_count ← try read_u32 header_error
  segment_count ← try read_u32 header_error
  flags ← try read_u32 header_error
  check (λ r. leb format 3 && ((word == 4 || word == 8) && leb order 1)) header_error
  pure (record {
    format = format_of format;
    word_size = word_of word;
    byte_order = order_of order;
    kind = kind_of kind;
    architecture = architecture_of architecture;
    entry_point = entry_point;
    image_base = image_base;
    section_table_offset = section_table_offset;
    segment_table_offset = segment_table_offset;
    section_count = section_count;
    segment_count = segment_count;
    flags = flags;
  })

section_error : ByteReader → Error
section_error r = error truncated r.position (text "manifest section is truncated")

-- The test of a stored checksum, which is skipped where the bytes are not in the file.
unfoldable pub checksum_holds : List ℕ → Section → ℕ → Bool
checksum_holds file s stored = not (
    (not (stored == 0) && not (s.file_size == 0))
    && (range_inside s.file_offset s.file_size (length file)
        && not (crc32 (take s.file_size (drop s.file_offset file)) == stored)))

checksum_error : ℕ → ByteReader → Error
checksum_error offset r =
    error invalid_section offset (text "manifest section checksum does not match")

unfoldable pub decode_section : Limits → List ℕ → Decoder Section
unfolding read_text section_of checksum_holds section_error checksum_error
decode_section limits file = do
  index ← try read_u32 section_error
  name ← read_text limits.max_string_bytes section_error
  kind ← try read_u8 section_error
  file_offset ← try read_u64 section_error
  file_size ← try read_u64 section_error
  virtual_address ← try read_u64 section_error
  memory_size ← try read_u64 section_error
  alignment ← try read_u64 section_error
  entry_size ← try read_u64 section_error
  link ← try read_u32 section_error
  info ← try read_u32 section_error
  permissions ← try read_u8 section_error
  stored ← try read_u32 section_error
  let s : Section = record {
    index = index;
    name = name;
    kind = section_of kind;
    file_offset = file_offset;
    file_size = file_size;
    virtual_address = virtual_address;
    memory_size = memory_size;
    alignment = alignment;
    entry_size = entry_size;
    link = link;
    info = info;
    permissions = permissions;
  }
  check (λ r. checksum_holds file s stored) (checksum_error file_offset)
  pure s

-- An index that `count` sections have.
unfoldable pub decode_index : ℕ → Decoder ℕ
decode_index count = do
  value ← try read_u32 left_clear
  check (λ r. ltb value count) left_clear
  pure value

unfoldable pub decode_segment : Limits → ℕ → Decoder Segment
unfolding read_table decode_index
decode_segment limits count = do
  index ← try read_u32 left_clear
  file_offset ← try read_u64 left_clear
  file_size ← try read_u64 left_clear
  virtual_address ← try read_u64 left_clear
  memory_size ← try read_u64 left_clear
  alignment ← try read_u64 left_clear
  permissions ← try read_u8 left_clear
  sections ← read_table limits.max_sections (decode_index count)
  pure (record {
    index = index;
    file_offset = file_offset;
    file_size = file_size;
    virtual_address = virtual_address;
    memory_size = memory_size;
    alignment = alignment;
    permissions = permissions;
    sections = sections;
  })

unfoldable pub decode_symbol : Limits → Decoder Symbol
unfolding read_text binding_of symbol_of
decode_symbol limits = do
  index ← try read_u32 left_clear
  name ← read_text limits.max_string_bytes left_clear
  binding ← try read_u8 left_clear
  kind ← try read_u8 left_clear
  section_index ← try read_u32 left_clear
  value ← try read_u64 left_clear
  size ← try read_u64 left_clear
  visibility ← try read_u8 left_clear
  library ← read_text limits.max_string_bytes left_clear
  pure (record {
    index = index;
    name = name;
    binding = binding_of binding;
    kind = symbol_of kind;
    section_index = section_index;
    value = value;
    size = size;
    visibility = visibility;
    library = library;
  })

unfoldable pub decode_relocation : Decoder Relocation
unfolding relocation_of read_i64
decode_relocation = do
  index ← try read_u32 left_clear
  kind ← try read_u8 left_clear
  target_section ← try read_u32 left_clear
  symbol_index ← try read_u32 left_clear
  offset ← try read_u64 left_clear
  addend ← try read_i64 left_clear
  width ← try read_u8 left_clear
  pure (record {
    index = index;
    kind = relocation_of kind;
    target_section = target_section;
    symbol_index = symbol_index;
    offset = offset;
    addend = addend;
    width = width;
  })

unfoldable pub decode_import : Limits → Decoder Import
unfolding read_text
decode_import limits = do
  library ← read_text limits.max_string_bytes left_clear
  name ← read_text limits.max_string_bytes left_clear
  ordinal ← try read_u64 left_clear
  slot_address ← try read_u64 left_clear
  weak ← try read_u8 left_clear
  pure (record {
    library = library;
    name = name;
    ordinal = ordinal;
    slot_address = slot_address;
    weak = not (weak == 0);
  })

unfoldable pub decode_export : Limits → Decoder Export
unfolding read_text
decode_export limits = do
  name ← read_text limits.max_string_bytes left_clear
  address ← try read_u64 left_clear
  ordinal ← try read_u64 left_clear
  forwarded ← try read_u8 left_clear
  forward_target ← read_text limits.max_string_bytes left_clear
  pure (record {
    name = name;
    address = address;
    ordinal = ordinal;
    forwarded = not (forwarded == 0);
    forward_target = forward_target;
  })

-- The numbers of files, lines and entries are read and not kept.
unfoldable pub decode_debug_unit : Decoder DebugUnit
decode_debug_unit = do
  offset ← try read_u64 left_clear
  length_field ← try read_u64 left_clear
  version ← try read_u32 left_clear
  address_size ← try read_u8 left_clear
  files ← try read_u32 left_clear
  lines ← try read_u32 left_clear
  entries ← try read_u32 left_clear
  pure (record {
    offset = offset;
    length_field = length_field;
    version = version % 2 ^ 16;
    address_size = address_size;
    files = [];
    lines = [];
    entries = no_entries;
  })
