-- ===== src/Validator/Verdict.antt =====
-- When `BinaryValidator::validate` finds an image valid.
use binforge.Prelude.{
  ℕ, ◌+◌, ◌≤◌, ◌<◌, ◌≡◌, refl, ◌⊎◌, inl, inr, true, false, some, Option-cases, List, [], ◌∷◌, ◌++◌,
  All, length, arith,
}
use binforge.Base.{Error, Limits, range_inside}
use binforge.Image.{BinaryImage, Segment, Relocation}
use binforge.Validator.{
  ValidationReport, push_if, wraps, segment_errors, image_errors, relocation_errors, limit_errors,
  symbol_errors, all_section_errors, is_empty, validate,
}

-- What the loader relies on.
pub record IsLoadable (limits : Limits) (i : BinaryImage) (bytes : List ℕ) : Type 0 where
  pub retained : i.file_data ≡ some bytes
  pub size_fits : length bytes ≤ limits.max_file_size
  pub segments_fit : length i.segments ≤ limits.max_segments
  pub relocations_fit : length i.relocations ≤ limits.max_relocations
  pub segments_inside :
      All
        (λ (s : Segment).
          (s.file_size ≤ s.memory_size)
          × (s.file_offset + s.file_size ≤ length bytes)
          × (wraps s.virtual_address s.memory_size ≡ false))
        i.segments
  pub symbols_exist :
      All
        (λ (rel : Relocation). (rel.symbol_index ≡ 0) ⊎ (rel.symbol_index < length i.symbols))
        i.relocations

empty_append :
    (xs ys : List Error) → is_empty (xs ++ ys) ≡ true → (is_empty xs ≡ true) × (is_empty ys ≡ true)
unfolding is_empty
empty_append [] ys h = (refl, h)
empty_append (x ∷ xs) ys h = ground arith

segment_checked :
    (s : Segment) (segments : List Segment) (n : ℕ)
    → is_empty (segment_errors (s ∷ segments) n) ≡ true
    → ((s.file_size ≤ s.memory_size)
        × (s.file_offset + s.file_size ≤ n)
        × (wraps s.virtual_address s.memory_size ≡ false))
      × (is_empty (segment_errors segments n) ≡ true)
unfolding segment_errors range_inside push_if is_empty
segment_checked s segments n h = ground arith

segments_checked :
    (segments : List Segment) (n : ℕ)
    → is_empty (segment_errors segments n) ≡ true
    → All
        (λ (s : Segment).
          (s.file_size ≤ s.memory_size)
          × (s.file_offset + s.file_size ≤ n)
          × (wraps s.virtual_address s.memory_size ≡ false))
        segments
segments_checked [] n h = tt
segments_checked (s ∷ segments) n h =
    let (first, rest) = segment_checked s segments n h in (first, segments_checked segments n rest)

relocation_checked :
    (symbols : ℕ) (rel : Relocation) (relocations : List Relocation)
    → is_empty (relocation_errors symbols (rel ∷ relocations)) ≡ true
    → ((rel.symbol_index ≡ 0) ⊎ (rel.symbol_index < symbols))
      × (is_empty (relocation_errors symbols relocations) ≡ true)
unfolding relocation_errors push_if is_empty
relocation_checked symbols rel relocations h = ground arith

relocations_checked :
    (symbols : ℕ) (relocations : List Relocation)
    → is_empty (relocation_errors symbols relocations) ≡ true
    → All (λ (rel : Relocation). (rel.symbol_index ≡ 0) ⊎ (rel.symbol_index < symbols)) relocations
relocations_checked symbols [] h = tt
relocations_checked symbols (rel ∷ relocations) h =
    let (first, rest) = relocation_checked symbols rel relocations h in
    (first, relocations_checked symbols relocations rest)

limits_checked :
    (limits : Limits) (i : BinaryImage) (n : ℕ)
    → is_empty (limit_errors limits i n) ≡ true
    → (n ≤ limits.max_file_size)
      × (length i.segments ≤ limits.max_segments)
      × (length i.relocations ≤ limits.max_relocations)
unfolding limit_errors push_if is_empty
limits_checked limits i n h = ground arith

checked :
    (limits : Limits) (i : BinaryImage) (bytes : List ℕ)
    → i.file_data ≡ some bytes
    → is_empty (image_errors limits i (length bytes)) ≡ true
    → IsLoadable limits i bytes
unfolding image_errors
checked limits i bytes there h =
    let (counts, others) = empty_append (limit_errors limits i (length bytes)) _ h in
    let (_, others1) = empty_append (all_section_errors 0 i.sections (length bytes)) _ others in
    let (segments, others2) = empty_append (segment_errors i.segments (length bytes)) _ others1 in
    let (_, relocations) = empty_append (symbol_errors 0 i.symbols) _ others2 in
    let (size, many, most) = limits_checked limits i (length bytes) counts in
    record {
      retained = there;
      size_fits = size;
      segments_fit = many;
      relocations_fit = most;
      segments_inside = segments_checked i.segments (length bytes) segments;
      symbols_exist = relocations_checked (length i.symbols) i.relocations relocations;
    }

-- An image that the validator finds valid keeps its file, whose size and whose numbers of segments
-- and relocations are within the limits; each segment has its file range in the file, is no larger
-- there than in memory and does not wrap; and each relocation has no symbol or an existing one.
pub validate-IsLoadable :
    (limits : Limits) (i : BinaryImage)
    → ValidationReport.valid (validate limits i) ≡ true
    → (bytes : List ℕ) × IsLoadable limits i bytes
unfolding validate
validate-IsLoadable limits i h = elim (Option-cases i.file_data) [
  | inl missing ↦ ground (arith, missing)
  | inr (bytes, there) ↦ (bytes, checked limits i bytes there (ground (arith, there, h)))
]
