-- ===== src/Builder/Rounds.antt =====
-- What a round of the loop of `BinaryImageBuilder::build`, src/builder.cc, computes.
use binforge.Prelude.{
  ℕ, ◌+◌, ◌-◌, ◌≤◌, ◌≡◌, inl, inr, max, some, Option-cases, Bool-cases, ◌++◌, length, leb, arith,
  ◌&&◌,
}
use binforge.Base.{ok, Result-cases, Limits, checked_add, checked_align_up}
use binforge.Image.{Section}
use binforge.Builder.{
  BuilderSection, BuilderOptions, Placing, resize, laid_section, advance_past, put_in_segments,
  place_section,
}

-- What the end of a round does.
pub record Advanced (source : BuilderSection) (p p' : Placing) (s : Section) : Type 0 where
  pub file_end : checked_add s.file_offset (length source.bytes) ≡ some p'.file_cursor
  pub memory_end : checked_add s.virtual_address s.memory_size ≡ some p'.memory_cursor
  pub stored : p'.storage ≡ resize s.file_offset p.storage ++ source.bytes

module _ (options : BuilderOptions) (index : ℕ) (source : BuilderSection) (p p' : Placing) where
  pub advance_past-Advanced :
      (section s : Section)
      → advance_past options index source section p ≡ ok (s, p')
      → (s ≡ section) × Advanced source p p' section
  unfolding advance_past
  advance_past-Advanced section s e =
      elim (Result-cases (
        put_in_segments options.separate_permissions (max options.memory_alignment source.alignment)
          index section p.segments)) [
            | inr (x, bad) ↦ ground (arith, bad)
            | inl (segments, good) ↦
                elim (Option-cases (checked_add section.file_offset (length source.bytes))) [
                  | inl wraps ↦ ground (arith, good, wraps)
                  | inr (fc, file_end) ↦
                      elim (Option-cases
                        (checked_add section.virtual_address section.memory_size)) [
                          | inl wraps ↦ ground (arith, good, file_end, wraps)
                          | inr (mc, memory_end) ↦ (
                            ground (arith, good, file_end, memory_end),
                            record {
                              file_end = ground (arith, good, file_end, memory_end);
                              memory_end = ground (arith, good, file_end, memory_end);
                              stored = ground (arith, good, file_end, memory_end);
                            },
                          )
                        ]
                ]
          ]

-- The values that a successful round computes on its way.
pub record Round (limits : Limits) (options : BuilderOptions) (index : ℕ) (source : BuilderSection)
    (p p' : Placing) (s : Section) : Type 0 where
  pub file_offset : ℕ
  pub virtual_address : ℕ
  pub memory_size : ℕ
  pub file_at :
      checked_align_up p.file_cursor (max options.file_alignment source.alignment)
      ≡ some file_offset
  pub memory_at :
      checked_align_up p.memory_cursor (max options.memory_alignment source.alignment)
      ≡ some virtual_address
  pub fits : file_offset + length source.bytes ≤ limits.max_file_size
  pub sum : checked_add (length source.bytes) source.zero_fill ≡ some memory_size
  pub is : s ≡ laid_section index source file_offset virtual_address memory_size
  pub advanced :
      Advanced source p p' (laid_section index source file_offset virtual_address memory_size)

module _ (limits : Limits) (options : BuilderOptions) (index : ℕ) (source : BuilderSection)
    (p p' : Placing) (s : Section) where
  pub place_section-Round :
      place_section limits options index source p ≡ ok (s, p')
      → Round limits options index source p p' s
  unfolding place_section
  place_section-Round e =
      elim (Option-cases
        (checked_align_up p.file_cursor (max options.file_alignment source.alignment))) [
          | inl bad ↦ ground (arith, bad)
          | inr (fo, file_at) ↦
              elim (Option-cases (
                checked_align_up p.memory_cursor (max options.memory_alignment source.alignment))) [
                  | inl bad ↦ ground (arith, file_at, bad)
                  | inr (va, memory_at) ↦
                      elim (Bool-cases (
                        leb fo limits.max_file_size
                        && leb (length source.bytes) (limits.max_file_size - fo))) [
                          | inr large ↦ ground (arith, file_at, memory_at, large)
                          | inl fits ↦
                              elim (Option-cases
                                (checked_add (length source.bytes) source.zero_fill)) [
                                  | inl bad ↦ ground (arith, file_at, memory_at, fits, bad)
                                  | inr (ms, sum) ↦
                                      let (is, past) =
                                        advance_past-Advanced options index source p p'
                                          (laid_section index source fo va ms) s
                                          (ground (arith, file_at, memory_at, fits, sum, e)) in
                                      record {
                                        file_offset = fo;
                                        virtual_address = va;
                                        memory_size = ms;
                                        file_at = file_at;
                                        memory_at = memory_at;
                                        fits = ground (arith, fits);
                                        sum = sum;
                                        is = is;
                                        advanced = past;
                                      }
                                ]
                        ]
                ]
        ]
