-- ===== src/Validator.antt =====
-- src/validator.cc: `BinaryValidator::validate`. The errors are in the order of the pushes.
pub mod Verdict
use binforge.Prelude.{
  ℕ, ◌+◌, ◌-◌, bit_and, Bool, true, false, ◌&&◌, ◌||◌, not, Option, none, some, List, [], ◌∷◌, ◌++◌,
  ltb, leb, ◌==◌, if◌then◌else◌, Text, text, length,
}
use binforge.Base.{
  Error, error, ErrorCode, Limits, checked_add, range_inside, resource_limit, invalid_header,
  invalid_section, file_range_overflow, invalid_alignment, invalid_segment, address_overflow,
  invalid_symbol,
}
use binforge.Image.{BinaryImage, Section, SectionKind, no_bits, Segment, Symbol, Relocation}

pub record ValidationReport : Type 0 where
  pub valid : Bool
  pub file_bytes_referenced : ℕ
  pub virtual_bytes_referenced : ℕ
  pub errors : List Error
  pub warnings : List Text

-- `if (test) r.errors.push_back(e);`
unfoldable pub push_if : Bool → Error → List Error
push_if true e = e ∷ []
push_if false e = []

unfoldable pub holds_bits : SectionKind → Bool
holds_bits no_bits = false
holds_bits _ = true

unfoldable pub section_errors : ℕ → Section → ℕ → List Error
unfolding push_if holds_bits
section_errors n s file_size =
    push_if (not (s.index == n)) (error invalid_section n (text "section index mismatch"))
    ++ (push_if (holds_bits s.kind && not (range_inside s.file_offset s.file_size file_size))
          (error file_range_overflow s.file_offset (text "section file range invalid"))
        ++ push_if ((s.alignment == 0) || not (bit_and s.alignment (s.alignment - 1) == 0))
            (error invalid_alignment s.file_offset (text "section alignment invalid")))

unfoldable pub all_section_errors : ℕ → List Section → ℕ → List Error
unfolding section_errors
all_section_errors n [] file_size = []
all_section_errors n (s ∷ sections) file_size =
    section_errors n s file_size ++ all_section_errors (n + 1) sections file_size

-- A `checked_add` into the total that it reads, whose result nobody looks at.
unfoldable pub added : ℕ → ℕ → ℕ
added total more = elim (checked_add total more) [ none ↦ total | some next ↦ next ]

unfoldable pub file_bytes : List Section → ℕ → ℕ
unfolding added
file_bytes [] total = total
file_bytes (s ∷ sections) total = file_bytes sections (added total s.file_size)

unfoldable pub virtual_bytes : List Section → ℕ → ℕ
unfolding added
virtual_bytes [] total = total
virtual_bytes (s ∷ sections) total = virtual_bytes sections (added total s.memory_size)

unfoldable pub wraps : ℕ → ℕ → Bool
wraps address size = elim (checked_add address size) [ none ↦ true | some end ↦ false ]

unfoldable pub segment_errors : List Segment → ℕ → List Error
unfolding push_if wraps
segment_errors [] file_size = []
segment_errors (s ∷ segments) file_size =
    push_if
      (ltb s.memory_size s.file_size || not (range_inside s.file_offset s.file_size file_size))
      (error invalid_segment s.file_offset (text "segment range invalid"))
    ++ (push_if (wraps s.virtual_address s.memory_size)
          (error address_overflow s.virtual_address (text "segment virtual range overflow"))
        ++ segment_errors segments file_size)

unfoldable pub symbol_errors : ℕ → List Symbol → List Error
unfolding push_if
symbol_errors n [] = []
symbol_errors n (s ∷ symbols) =
    push_if (not (s.index == n)) (error invalid_symbol n (text "symbol index mismatch"))
    ++ symbol_errors (n + 1) symbols

unfoldable pub relocation_errors : ℕ → List Relocation → List Error
unfolding push_if
relocation_errors symbols [] = []
relocation_errors symbols (rel ∷ relocations) =
    push_if (leb symbols rel.symbol_index && not (rel.symbol_index == 0))
      (error invalid_symbol rel.offset (text "relocation symbol out of range"))
    ++ relocation_errors symbols relocations

unfoldable pub limit_errors : Limits → BinaryImage → ℕ → List Error
unfolding push_if
limit_errors limits i file_size =
    push_if (ltb limits.max_file_size file_size) (error resource_limit 0 (text "file size limit"))
    ++ (push_if (ltb limits.max_sections (length i.sections))
          (error resource_limit 0 (text "section count limit"))
        ++ (push_if (ltb limits.max_segments (length i.segments))
              (error resource_limit 0 (text "segment count limit"))
            ++ (push_if (ltb limits.max_symbols (length i.symbols))
                  (error resource_limit 0 (text "symbol count limit"))
                ++ push_if (ltb limits.max_relocations (length i.relocations))
                    (error resource_limit 0 (text "relocation count limit")))))

unfoldable pub image_errors : Limits → BinaryImage → ℕ → List Error
unfolding limit_errors all_section_errors segment_errors symbol_errors relocation_errors
image_errors limits i file_size =
    limit_errors limits i file_size
    ++ (all_section_errors 0 i.sections file_size
        ++ (segment_errors i.segments file_size
            ++ (symbol_errors 0 i.symbols ++ relocation_errors (length i.symbols) i.relocations)))

unfoldable pub is_empty : List Error → Bool
is_empty [] = true
is_empty (e ∷ errors) = false

unfoldable pub validate : Limits → BinaryImage → ValidationReport
unfolding image_errors file_bytes virtual_bytes is_empty
validate limits i = elim i.file_data [
  | none ↦ record {
    valid = false;
    file_bytes_referenced = 0;
    virtual_bytes_referenced = 0;
    errors = error invalid_header 0 (text "image does not retain file bytes") ∷ [];
    warnings = [];
  }
  | some bytes ↦ record {
    valid = is_empty (image_errors limits i (length bytes));
    file_bytes_referenced = file_bytes i.sections 0;
    virtual_bytes_referenced = virtual_bytes i.sections 0;
    errors = image_errors limits i (length bytes);
    warnings = [];
  }
]
