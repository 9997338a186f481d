-- ===== src/Runs/Decoding.antt =====
-- The theorems on src/relocation_decoder.cc and src/layout.cc at concrete inputs.
use binforge.Prelude.{ℕ, ◌+◌, ◌/◌, ◌≡◌, refl, true, false, some, List, [], ◌∷◌, length, arith}
use binforge.Prelude.Tests.{text}
use binforge.Base.{error, ok, no_error, default_limits, checked_add, range_inside}
use binforge.Base.Word.{little}
use binforge.Image.{x86_64, bits64}
use binforge.RelocationTable.{RelocationDecodeOptions, Decoding}
use binforge.RelocationTable.Shape.{Extends}
use binforge.RelocationTable.Elf.{decode_elf, used_entry_size}
use binforge.RelocationTable.Elf.Shape.{decode_elf-Extends}
use binforge.RelocationTable.Macho.{decode_macho}
use binforge.RelocationTable.Macho.Shape.{decode_macho-Extends}
use binforge.RelocationTable.Pe.{decode_pe_base}
use binforge.RelocationTable.Pe.Shape.{decode_pe_base-ends}
use binforge.Validator.{validate}
use binforge.Region.{allows}
use binforge.Loader.{decimal}
use binforge.Layout.{LayoutPlan, plan}
use binforge.Layout.Plan.{IsPlan, plan-IsPlan}
use binforge.Runs.Loading.{image, segment}

abbrev options : RelocationDecodeOptions
options = record {
  architecture = x86_64;
  word_size = bits64;
  byte_order = little;
  entry_size = 0;
  base_address = 4096;
  target_section = 1;
  explicit_addends = false;
}

-- One entry: offset 16, symbol 1, type 1.
abbrev elf_table : List ℕ
elf_table = 16 ∷ 0 ∷ 0 ∷ 0 ∷ 0 ∷ 0 ∷ 0 ∷ 0 ∷ 1 ∷ 0 ∷ 0 ∷ 0 ∷ 1 ∷ 0 ∷ 0 ∷ 0 ∷ []

decode_elf-Extends_example :
    Extends default_limits [] (decode_elf default_limits elf_table options []).1
    × ((decode_elf default_limits elf_table options []).0 ≡ ok tt
        → length (decode_elf default_limits elf_table options []).1
          ≡ 0 + 16 / used_entry_size options)
decode_elf-Extends_example = decode_elf-Extends default_limits options elf_table []

-- One record: address 16, external symbol 1 of 8 bytes.
abbrev macho_table : List ℕ
macho_table = 16 ∷ 0 ∷ 0 ∷ 0 ∷ 1 ∷ 0 ∷ 0 ∷ 14 ∷ []

decode_macho-Extends_example :
    Extends default_limits [] (decode_macho default_limits macho_table options []).1
decode_macho-Extends_example = decode_macho-Extends default_limits options macho_table []

-- One block of two records, the second of which is padding.
abbrev pe_table : List ℕ
pe_table = 0 ∷ 16 ∷ 0 ∷ 0 ∷ 12 ∷ 0 ∷ 0 ∷ 0 ∷ 4 ∷ 48 ∷ 0 ∷ 0 ∷ []

decode_pe_base-ends_example :
    (d : Decoding) × (decode_pe_base default_limits pe_table 4096 [] ≡ some d)
    × Extends default_limits [] d.1
decode_pe_base-ends_example = decode_pe_base-ends default_limits 4096 pe_table []

-- The plan of one segment that is moved to 8192.
abbrev planned : LayoutPlan
planned = record {
  image_begin = 8192;
  image_end = 8196;
  mapped_bytes = 4;
  file_bytes = 2;
  regions =
      record {
        source_offset = 0;
        source_size = 2;
        target_address = 8192;
        target_size = 4;
        alignment = 4096;
        permissions = 5;
        name = text "segment.0";
      }
      ∷ [];
  warnings = [];
}

plan_run : plan default_limits (error no_error 0 []) image 8192 true ≡ ok planned
unfolding plan validate range_inside checked_add decimal text allows
plan_run = refl

plan-IsPlan_example : IsPlan default_limits (segment ∷ []) planned
plan-IsPlan_example =
    plan-IsPlan default_limits (error no_error 0 []) image 8192 true planned (omega arith) plan_run
