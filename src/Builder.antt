-- ===== src/Builder.antt =====
-- src/builder.cc: `BinaryImageBuilder`. An operation that fails leaves the builder as it was.
pub mod Rounds
pub mod Contents
pub mod History
pub mod Found
use binforge.Prelude.{
  ℕ, ◌+◌, ◌-◌, ◌%◌, ◌^◌, max, bit_and, Bool, true, false, ◌&&◌, ◌||◌, not, none, some, List, [],
  ◌∷◌, ◌++◌, reverse, ltb, leb, ◌==◌, if◌then◌else◌, Text, text, text_eq, length, take, replicate,
}
use binforge.Base.{
  Error, error, Result, ok, err, ◌>>=◌, ◌>>◌, require, expect, Limits, checked_add,
  checked_align_up, resource_limit, invalid_section, invalid_alignment, address_overflow,
}
use binforge.Base.Word.{ByteOrder}
use binforge.Region.{permission_execute, allows}
use binforge.Image.{
  BinaryImage, BinaryFormat, BinaryKind, Architecture, WordSize, FileHeader, Section, SectionKind,
  Segment, Symbol, Relocation, Import, Export,
}
use binforge.Validator.{ValidationReport, validate}

pub record BuilderSection : Type 0 where
  pub name : Text
  pub kind : SectionKind
  pub permissions : ℕ
  pub alignment : ℕ
  pub bytes : List ℕ
  pub zero_fill : ℕ

pub record BuilderOptions : Type 0 where
  pub format : BinaryFormat
  pub kind : BinaryKind
  pub architecture : Architecture
  pub word_size : WordSize
  pub byte_order : ByteOrder
  pub image_base : ℕ
  pub file_alignment : ℕ
  pub memory_alignment : ℕ
  pub separate_permissions : Bool

pub record ImageBuilder : Type 0 where
  pub limits : Limits
  pub sections : List BuilderSection
  pub symbols : List Symbol
  pub imports : List Import
  pub exports : List Export
  pub relocations : List Relocation

unfoldable pub empty_builder : Limits → ImageBuilder
empty_builder limits = record {
  limits = limits;
  sections = [];
  symbols = [];
  imports = [];
  exports = [];
  relocations = [];
}

-- `!alignment || (alignment & (alignment - 1))` is false.
unfoldable pub is_alignment : ℕ → Bool
is_alignment alignment = not (alignment == 0) && bit_and alignment (alignment - 1) == 0

unfoldable pub has_name : Text → List BuilderSection → Bool
has_name name [] = false
has_name name (s ∷ sections) = text_eq s.name name || has_name name sections

unfoldable pub add_section : BuilderSection → ImageBuilder → Result ImageBuilder
unfolding is_alignment has_name
add_section section b = do
  require
      (ltb (length b.sections) b.limits.max_sections
        && (leb (length section.name) b.limits.max_string_bytes
            && (leb (length section.bytes) b.limits.max_section_bytes
                && is_alignment section.alignment)))
      (error resource_limit (length b.sections)
        (text "builder section exceeds limits or has invalid alignment"))
  require (not (has_name section.name b.sections))
      (error invalid_section (length b.sections) (text "builder section name is duplicated"))
  ok (record b { sections = b.sections ++ (section ∷ []) })

unfoldable pub add_symbol : Symbol → ImageBuilder → Result ImageBuilder
add_symbol symbol b = do
  require
      (ltb (length b.symbols) b.limits.max_symbols
        && (leb (length symbol.name) b.limits.max_string_bytes
            && leb (length symbol.library) b.limits.max_string_bytes))
      (error resource_limit (length b.symbols) (text "builder symbol exceeds limits"))
  ok (record b {
    symbols = b.symbols ++ (record symbol { index = length b.symbols % 2 ^ 32 } ∷ []);
  })

unfoldable pub add_import : Import → ImageBuilder → Result ImageBuilder
add_import imported b = do
  require
      (ltb (length b.imports) b.limits.max_imports
        && (leb (length imported.name) b.limits.max_string_bytes
            && leb (length imported.library) b.limits.max_string_bytes))
      (error resource_limit (length b.imports) (text "builder import exceeds limits"))
  ok (record b { imports = b.imports ++ (imported ∷ []) })

unfoldable pub add_export : Export → ImageBuilder → Result ImageBuilder
add_export exported b = do
  require
      (ltb (length b.exports) b.limits.max_exports
        && (leb (length exported.name) b.limits.max_string_bytes
            && leb (length exported.forward_target) b.limits.max_string_bytes))
      (error resource_limit (length b.exports) (text "builder export exceeds limits"))
  ok (record b { exports = b.exports ++ (exported ∷ []) })

unfoldable pub add_relocation : Relocation → ImageBuilder → Result ImageBuilder
add_relocation relocation b = do
  require (ltb (length b.relocations) b.limits.max_relocations)
      (error resource_limit (length b.relocations) (text "builder relocation limit exceeded"))
  ok (record b {
    relocations =
        b.relocations ++ (record relocation { index = length b.relocations % 2 ^ 32 } ∷ []);
  })

unfoldable pub clear_builder : ImageBuilder → ImageBuilder
clear_builder b = empty_builder b.limits

-- The variables of the loop over the sections; the segments have the last one in front.
pub record Placing : Type 0 where
  pub storage : List ℕ
  pub file_cursor : ℕ
  pub memory_cursor : ℕ
  pub segments : List Segment

-- `std::vector::resize(count, 0)`
unfoldable pub resize : ℕ → List ℕ → List ℕ
resize count bytes = take count bytes ++ replicate (count - length bytes) 0

-- `-` of `uint64_t`.
unfoldable pub difference : ℕ → ℕ → ℕ
difference a b = (a + 2 ^ 64 - b) % 2 ^ 64

unfoldable pub new_segment : ℕ → Section → List Segment → Segment
new_segment memory_alignment section segments = record {
  index = length segments % 2 ^ 32;
  file_offset = section.file_offset;
  file_size = section.file_size;
  virtual_address = section.virtual_address;
  memory_size = section.memory_size;
  alignment = memory_alignment;
  permissions = section.permissions;
  sections = section.index ∷ [];
}

unfoldable pub widened_segment : ℕ → Section → Segment → Result Segment
unfolding difference
widened_segment index section segment = do
  file_end ←
      expect (checked_add section.file_offset section.file_size)
        (error address_overflow index (text "builder combined segment overflows"))
  memory_end ←
      expect (checked_add section.virtual_address section.memory_size)
        (error address_overflow index (text "builder combined segment overflows"))
  ok (record segment {
    file_size = difference file_end segment.file_offset;
    memory_size = difference memory_end segment.virtual_address;
    sections = segment.sections ++ (section.index ∷ []);
  })

-- The section starts a segment, or widens the last one.
unfoldable pub put_in_segments : Bool → ℕ → ℕ → Section → List Segment → Result (List Segment)
unfolding new_segment widened_segment
put_in_segments separate memory_alignment index section [] =
    ok (new_segment memory_alignment section [] ∷ [])
put_in_segments separate memory_alignment index section (last ∷ before) =
    if separate && not (last.permissions == section.permissions)
    then ok (new_segment memory_alignment section (last ∷ before) ∷ last ∷ before)
    else (widened_segment index section last >>= λ widened. ok (widened ∷ before))

unfoldable pub laid_section : ℕ → BuilderSection → ℕ → ℕ → ℕ → Section
laid_section index source file_offset virtual_address memory_size = record {
  index = index % 2 ^ 32;
  name = source.name;
  kind = source.kind;
  file_offset = file_offset;
  file_size = length source.bytes;
  virtual_address = virtual_address;
  memory_size = memory_size;
  alignment = source.alignment;
  entry_size = 0;
  link = 0;
  info = 0;
  permissions = source.permissions;
}

-- The rest of a round, when the section is there.
unfoldable pub advance_past :
    BuilderOptions → ℕ → BuilderSection → Section → Placing → Result (Section × Placing)
unfolding put_in_segments resize
advance_past options index source section p = do
  segments ←
      put_in_segments options.separate_permissions (max options.memory_alignment source.alignment)
        index section p.segments
  file_cursor ←
      expect (checked_add section.file_offset (length source.bytes))
        (error address_overflow index (text "builder cursor update overflows"))
  memory_cursor ←
      expect (checked_add section.virtual_address section.memory_size)
        (error address_overflow index (text "builder cursor update overflows"))
  ok (
    section,
    record {
      storage = resize section.file_offset p.storage ++ source.bytes;
      file_cursor = file_cursor;
      memory_cursor = memory_cursor;
      segments = segments;
    },
  )

-- One round of the loop.
unfoldable pub place_section :
    Limits → BuilderOptions → ℕ → BuilderSection → Placing → Result (Section × Placing)
unfolding laid_section advance_past
place_section limits options index source p = do
  file_offset ←
      expect (checked_align_up p.file_cursor (max options.file_alignment source.alignment))
        (error address_overflow index (text "builder section placement overflows"))
  virtual_address ←
      expect (checked_align_up p.memory_cursor (max options.memory_alignment source.alignment))
        (error address_overflow index (text "builder section placement overflows"))
  require
      (leb file_offset limits.max_file_size
        && leb (length source.bytes) (limits.max_file_size - file_offset))
      (error resource_limit index (text "builder file-size limit exceeded"))
  memory_size ←
      expect (checked_add (length source.bytes) source.zero_fill)
        (error address_overflow index (text "builder section memory size overflows"))
  advance_past options index source
      (laid_section index source file_offset virtual_address memory_size) p

-- The loop, with the sections in the order of the pushes.
unfoldable pub place_sections :
    Limits → BuilderOptions → ℕ → List BuilderSection → Placing → Result (List Section × Placing)
unfolding place_section
place_sections limits options index [] p = ok ([], p)
place_sections limits options index (source ∷ sources) p =
    place_section limits options index source p >>= λ here.
    place_sections limits options (index + 1) sources here.1 >>= λ rest.
    ok (here.0 ∷ rest.0, rest.1)

-- The address of the first section that is executable.
unfoldable pub entry_address : List Section → ℕ
entry_address [] = 0
entry_address (s ∷ sections) =
    if allows s.permissions permission_execute then s.virtual_address else entry_address sections

unfoldable pub options_accepted : Limits → BuilderOptions → Bool
unfolding is_alignment
options_accepted limits options =
    is_alignment options.file_alignment
    && (is_alignment options.memory_alignment
        && (leb options.file_alignment limits.max_section_bytes
            && leb options.memory_alignment limits.max_mapped_bytes))

unfoldable pub built_image : ImageBuilder → BuilderOptions → List Section → Placing → BinaryImage
unfolding entry_address
built_image b options sections p = record {
  header = record {
    format = options.format;
    word_size = options.word_size;
    byte_order = options.byte_order;
    kind = options.kind;
    architecture = options.architecture;
    entry_point = entry_address sections;
    image_base = options.image_base;
    section_table_offset = 0;
    segment_table_offset = 0;
    section_count = length sections % 2 ^ 32;
    segment_count = length p.segments % 2 ^ 32;
    flags = 0;
  };
  sections = sections;
  segments = reverse p.segments;
  symbols = b.symbols;
  relocations = b.relocations;
  imports = b.imports;
  exports = b.exports;
  debug_units = [];
  warnings = [];
  file_data = some p.storage;
}

-- `before` is the cleared error. An invalid report has a first error.
unfoldable pub accepted : Limits → Error → BinaryImage → Result BinaryImage
accepted limits before image =
    let report : ValidationReport = validate limits image in
    if report.valid then ok image else elim report.errors [ [] ↦ err before | e ∷ errors ↦ err e ]

unfoldable pub build : Error → BuilderOptions → ImageBuilder → Result BinaryImage
unfolding options_accepted place_sections built_image accepted
build before options b = do
  require (options_accepted b.limits options)
      (error invalid_alignment 0 (text "builder output alignments are invalid"))
  placed ←
      place_sections b.limits options 0 b.sections (record {
        storage = [];
        file_cursor = 0;
        memory_cursor = options.image_base;
        segments = [];
      })
  accepted b.limits before (built_image b options placed.0 placed.1)
