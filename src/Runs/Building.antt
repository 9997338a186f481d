-- ===== src/Runs/Building.antt =====
-- The theorems on src/builder.cc and src/query.cc at concrete inputs.
use binforge.Prelude.Tests.{text_eq}
use binforge.Prelude.{ℕ, ◌≡◌, refl, true, false, some, List, [], ◌∷◌, All, arith}
use binforge.Base.{
  error, Result, ok, err, no_error, default_limits, checked_add, checked_align_up, range_inside,
}
use binforge.Base.Word.{little}
use binforge.Region.{allows}
use binforge.Image.{
  BinaryImage, Section, elf_like, executable, x86_64, bits64, program_bits, section_named,
}
use binforge.Validator.{validate}
use binforge.Builder.{
  BuilderSection, BuilderOptions, ImageBuilder, empty_builder, has_name, is_alignment, build,
}
use binforge.Builder.Contents.{IsContent, IsBuilt, IsTypedOptions, build-IsBuilt}
use binforge.Builder.History.{
  Call, adds_section, adds_symbol, run, IsWithin, run-empty_builder-IsWithin,
}
use binforge.Builder.Found.{section_named-build}
use binforge.Query.{
  sections, address, number, greater_equal, ImageQuery, QueryResult, execute, predicates_typed,
}
use binforge.Query.Answer.{IsAnswer, execute-IsAnswer}
use binforge.Runs.Loading.{image, symbol}

abbrev code : BuilderSection
code = record {
  name = 99 ∷ [];
  kind = program_bits;
  permissions = 5;
  alignment = 4;
  bytes = 1 ∷ 2 ∷ 3 ∷ [];
  zero_fill = 0;
}

abbrev more : BuilderSection
more = record code { name = 100 ∷ []; permissions = 3; bytes = 4 ∷ []; zero_fill = 7 }

abbrev calls : List Call
calls = adds_section code ∷ adds_section code ∷ adds_section more ∷ adds_symbol symbol ∷ []

run-empty_builder-IsWithin_example : IsWithin (run calls (empty_builder default_limits))
run-empty_builder-IsWithin_example = run-empty_builder-IsWithin default_limits calls

abbrev builder : ImageBuilder
builder = record {
  limits = default_limits;
  sections = code ∷ more ∷ [];
  symbols = [];
  imports = [];
  exports = [];
  relocations = [];
}

abbrev options : BuilderOptions
options = record {
  format = elf_like;
  kind = executable;
  architecture = x86_64;
  word_size = bits64;
  byte_order = little;
  image_base = 4096;
  file_alignment = 4;
  memory_alignment = 4096;
  separate_permissions = true;
}

options_typed : IsTypedOptions options
options_typed = omega arith

abbrev image_of : Result BinaryImage → BinaryImage
image_of (ok i) = i
image_of (err e) = image

abbrev built : BinaryImage
built = image_of (build (error no_error 0 []) options builder)

built_is : build (error no_error 0 []) options builder ≡ ok built
unfolding build checked_align_up checked_add validate range_inside allows
built_is = refl

build-IsBuilt_example :
    IsBuilt options builder built × ((validate default_limits built).valid ≡ true)
build-IsBuilt_example =
    build-IsBuilt (error no_error 0 []) options builder built (omega arith) options_typed
      (omega arith, (omega arith, tt)) built_is

builder-IsWithin : IsWithin builder
unfolding has_name text_eq is_alignment
builder-IsWithin = record {
  apart = (refl, (refl, tt));
  aligned = (refl, (refl, tt));
  symbols_indexed = tt;
  relocations_indexed = tt;
  sections_few = omega arith;
  symbols_few = omega arith;
  imports_few = omega arith;
  exports_few = omega arith;
  relocations_few = omega arith;
}

section_named-build_example :
    (file : List ℕ) × (built.file_data ≡ some file)
    × All
        (λ (source : BuilderSection).
          (s : Section) × (section_named source.name built ≡ some s)
          × IsContent options file source s)
        (code ∷ more ∷ [])
section_named-build_example =
    section_named-build (error no_error 0 []) options builder built builder-IsWithin (omega arith)
      options_typed (omega arith, (omega arith, tt)) built_is

-- The sections from 8192 on, the first of them.
abbrev query : ImageQuery
query = record {
  entity = sections;
  predicates = record { field = address; operation = greater_equal; value = number 8192 } ∷ [];
  limit = 1;
  require_all = true;
  ascending = false;
}

execute-IsAnswer_example :
    (r : QueryResult) × (execute default_limits built query ≡ ok r) × IsAnswer query built r
unfolding predicates_typed
execute-IsAnswer_example =
    execute-IsAnswer default_limits built query (omega arith) (omega arith) (omega arith) refl
