-- ===== src/Image.antt =====
-- include/binforge/binforge.h: the parsed image; and the lookups of src/base.cc.
use binforge.Prelude.{
  ℕ, ◌+◌, Bool, Option, none, some, List, [], ◌∷◌, Text, text_eq, get_elem?, if◌then◌else◌,
}
use binforge.Base.Word.{ByteOrder}

-- Constructors that two of the C++ enumerations share carry the name of theirs. A cast from a byte may
-- give a value that no enumerator names: where the source makes such a cast without a test, a last
-- constructor `other_...` holds the number.
pub data BinaryFormat : Type 0 where
  unknown_format elf_like pe_like macho_like : BinaryFormat

pub data WordSize : Type 0 where
  bits32 bits64 : WordSize

-- `static_cast<uint8_t>(word_size)`
unfoldable pub word_bytes : WordSize → ℕ
word_bytes bits32 = 4
word_bytes bits64 = 8

pub data BinaryKind : Type 0 where
  unknown_kind relocatable executable shared_library core : BinaryKind
  other_kind : ℕ → BinaryKind

pub data Architecture : Type 0 where
  unknown_architecture x86 x86_64 arm arm64 riscv32 riscv64 : Architecture
  other_architecture : ℕ → Architecture

pub data SectionKind : Type 0 where
  unknown_section program_bits no_bits string_table symbol_table dynamic_symbols relocation_section
        relocation_addends debug import_section export_section resources unwind notes :
      SectionKind
  other_section : ℕ → SectionKind

pub data SymbolBinding : Type 0 where
  local global weak_symbol import_symbol export_symbol : SymbolBinding
  other_binding : ℕ → SymbolBinding

pub data SymbolKind : Type 0 where
  unknown_symbol object_symbol function_symbol section_symbol file_symbol common tls_object :
      SymbolKind
  other_symbol : ℕ → SymbolKind

pub data RelocationKind : Type 0 where
  no_relocation absolute32 absolute64 relative32 relative64 pc_relative32 got_relative plt_relative
        high16 low16 :
      RelocationKind
  other_relocation : ℕ → RelocationKind

pub record FileHeader : Type 0 where
  pub format : BinaryFormat
  pub word_size : WordSize
  pub byte_order : ByteOrder
  pub kind : BinaryKind
  pub architecture : Architecture
  pub entry_point : ℕ
  pub image_base : ℕ
  pub section_table_offset : ℕ
  pub segment_table_offset : ℕ
  pub section_count : ℕ
  pub segment_count : ℕ
  pub flags : ℕ

pub record Section : Type 0 where
  pub index : ℕ
  pub name : Text
  pub kind : SectionKind
  pub file_offset : ℕ
  pub file_size : ℕ
  pub virtual_address : ℕ
  pub memory_size : ℕ
  pub alignment : ℕ
  pub entry_size : ℕ
  pub link : ℕ
  pub info : ℕ
  pub permissions : ℕ

pub record Segment : Type 0 where
  pub index : ℕ
  pub file_offset : ℕ
  pub file_size : ℕ
  pub virtual_address : ℕ
  pub memory_size : ℕ
  pub alignment : ℕ
  pub permissions : ℕ
  pub sections : List ℕ

pub record Symbol : Type 0 where
  pub index : ℕ
  pub name : Text
  pub binding : SymbolBinding
  pub kind : SymbolKind
  pub section_index : ℕ
  pub value : ℕ
  pub size : ℕ
  pub visibility : ℕ
  pub library : Text

-- The addend is an `int64_t`, held as its 64 bits: every use of it is a cast to `uint64_t`.
pub record Relocation : Type 0 where
  pub index : ℕ
  pub kind : RelocationKind
  pub target_section : ℕ
  pub symbol_index : ℕ
  pub offset : ℕ
  pub addend : ℕ
  pub width : ℕ

pub record Import : Type 0 where
  pub library : Text
  pub name : Text
  pub ordinal : ℕ
  pub slot_address : ℕ
  pub weak : Bool

pub record Export : Type 0 where
  pub name : Text
  pub address : ℕ
  pub ordinal : ℕ
  pub forwarded : Bool
  pub forward_target : Text

pub record DebugLineRow : Type 0 where
  pub address : ℕ
  pub file : ℕ
  pub line : ℕ
  pub column : ℕ
  pub statement : Bool
  pub end_sequence : Bool

-- The `std::variant` of an attribute; a signed number is held as its 64 bits.
pub data DebugValue : Type 0 where
  unsigned_value signed_value : ℕ → DebugValue
  string_value : Text → DebugValue
  block_value : List ℕ → DebugValue

pub record DebugAttribute : Type 0 where
  pub name : ℕ
  pub form : ℕ
  pub value : DebugValue

-- An entry: offset, tag, whether it has children, attributes and children.
mutual
  pub data DebugEntry : Type 0 where
    entry : ℕ → ℕ → Bool → List DebugAttribute → DebugEntries → DebugEntry

  pub data DebugEntries : Type 0 where
    no_entries : DebugEntries
    more_entries : DebugEntry → DebugEntries → DebugEntries

unfoldable pub count_entries : DebugEntries → ℕ
count_entries no_entries = 0
count_entries (more_entries e entries) = count_entries entries + 1

pub record DebugUnit : Type 0 where
  pub offset : ℕ
  pub length_field : ℕ
  pub version : ℕ
  pub address_size : ℕ
  pub files : List Text
  pub lines : List DebugLineRow
  pub entries : DebugEntries

-- `none` for `file_data` is a null pointer.
pub record BinaryImage : Type 0 where
  pub header : FileHeader
  pub sections : List Section
  pub segments : List Segment
  pub symbols : List Symbol
  pub relocations : List Relocation
  pub imports : List Import
  pub exports : List Export
  pub debug_units : List DebugUnit
  pub warnings : List Text
  pub file_data : Option (List ℕ)

unfoldable pub section_of : ℕ → BinaryImage → Option Section
section_of index image = get_elem? image.sections index

unfoldable pub symbol_of : ℕ → BinaryImage → Option Symbol
symbol_of index image = get_elem? image.symbols index

unfoldable pub find_named : Text → List Section → Option Section
find_named name [] = none
find_named name (s ∷ sections) = if text_eq s.name name then some s else find_named name sections

unfoldable pub section_named : Text → BinaryImage → Option Section
unfolding find_named
section_named name image = find_named name image.sections
