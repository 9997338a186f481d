-- ===== src/Translator.antt =====
-- src/symbol_index.cc: `AddressTranslator`.
pub mod Ranges
use binforge.Prelude.{
  ℕ, ◌-◌, ◌^◌, Bool, not, Option, none, some, List, [], ◌∷◌, ltb, ◌==◌, if◌then◌else◌,
}
use binforge.Base.{checked_add, range_inside}
use binforge.Image.{BinaryImage, FileHeader, Section, Segment}

pub record FileAddress : Type 0 where
  pub file_offset : ℕ
  pub available : ℕ
  pub section_index : ℕ

-- What a round of a loop does: it goes on, or the function returns.
pub data Search (A : Type 0) : Type 0 where
  next : Search A
  found : Option A → Search A

unfoldable pub search : {A B : Type 0} → (A → Search B) → List A → Search B
search try [] = next
search try (x ∷ xs) = elim (try x) [ next ↦ search try xs | found answer ↦ found answer ]

unfoldable pub or_else : {A : Type 0} → Search A → Option A → Option A
or_else next other = other
or_else (found answer) other = answer

-- `UINT32_MAX` stands for no section.
abbrev pub no_section : ℕ
no_section = 2 ^ 32 - 1

-- The place in the file, for a range that begins at the displacement.
unfoldable pub place_in : ℕ → ℕ → ℕ → ℕ → Option FileAddress
place_in file_offset file_size displacement index = elim (checked_add file_offset displacement) [
  | none ↦ none
  | some offset ↦
      some (record {
        file_offset = offset;
        available = file_size - displacement;
        section_index = index;
      })
]

unfoldable pub section_to_file : ℕ → ℕ → Section → Search FileAddress
unfolding place_in
section_to_file address length s =
    let displacement : ℕ = address - s.virtual_address in
    if ltb address s.virtual_address
    then next
    else if not (range_inside displacement length s.memory_size)
    then next
    else if not (range_inside displacement length s.file_size)
    then found none
    else found (place_in s.file_offset s.file_size displacement s.index)

unfoldable pub segment_to_file : ℕ → ℕ → Segment → Search FileAddress
unfolding place_in
segment_to_file address length s =
    let displacement : ℕ = address - s.virtual_address in
    if ltb address s.virtual_address
    then next
    else if not (range_inside displacement length s.file_size)
    then next
    else found (place_in s.file_offset s.file_size displacement no_section)

unfoldable pub virtual_to_file : ℕ → ℕ → BinaryImage → Option FileAddress
unfolding search or_else section_to_file segment_to_file
virtual_to_file address length image =
    or_else (search (section_to_file address length) image.sections)
      (or_else (search (segment_to_file address length) image.segments) none)

-- The address of a file range in a section or a segment of these bounds.
unfoldable pub range_to_virtual : ℕ → ℕ → ℕ → ℕ → ℕ → Search ℕ
range_to_virtual offset length file_offset file_size virtual_address =
    let displacement : ℕ = offset - file_offset in
    if ltb offset file_offset
    then next
    else if not (range_inside displacement length file_size)
    then next
    else found (checked_add virtual_address displacement)

unfoldable pub section_to_virtual : ℕ → ℕ → Section → Search ℕ
unfolding range_to_virtual
section_to_virtual offset length s =
    range_to_virtual offset length s.file_offset s.file_size s.virtual_address

unfoldable pub segment_to_virtual : ℕ → ℕ → Segment → Search ℕ
unfolding range_to_virtual
segment_to_virtual offset length s =
    range_to_virtual offset length s.file_offset s.file_size s.virtual_address

unfoldable pub file_to_virtual : ℕ → ℕ → BinaryImage → Option ℕ
unfolding search or_else section_to_virtual segment_to_virtual
file_to_virtual offset length image =
    or_else (search (section_to_virtual offset length) image.sections)
      (or_else (search (segment_to_virtual offset length) image.segments) none)

-- The loop of `rva_to_file`, which asks for the file size only.
unfoldable pub rva_in_section : ℕ → ℕ → Section → Search FileAddress
unfolding place_in
rva_in_section rva length s =
    let displacement : ℕ = rva - s.virtual_address in
    if ltb rva s.virtual_address
    then next
    else if not (range_inside displacement length s.file_size)
    then next
    else found (place_in s.file_offset s.file_size displacement s.index)

unfoldable pub rva_in_sections : ℕ → ℕ → BinaryImage → Option FileAddress
unfolding search or_else rva_in_section
rva_in_sections rva length image = or_else (search (rva_in_section rva length) image.sections) none

unfoldable pub rva_to_file : ℕ → ℕ → BinaryImage → Option FileAddress
unfolding virtual_to_file rva_in_sections
rva_to_file rva length image =
    if image.header.image_base == 0
    then rva_in_sections rva length image
    else elim (checked_add image.header.image_base rva) [
      | none ↦ none
      | some address ↦ elim (virtual_to_file address length image) [
        | some translated ↦ some translated
        | none ↦ rva_in_sections rva length image
      ]
    ]
