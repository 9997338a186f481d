-- ===== src/Runs/Loading.antt =====
-- The theorems on src/loader.cc, src/validator.cc and `SymbolResolver` at concrete inputs.
use binforge.Prelude.{ℕ, ◌≡◌, refl, true, false, none, some, List, [], ◌∷◌, ◌++◌, Text, text, arith}
use binforge.Base.{
  error, ok, err, Limits, default_limits, invalid_header, address_overflow, no_error, checked_add,
  range_inside, checked_align_up,
}
use binforge.Base.Word.{little, le_bytes, to_bytes}
use binforge.Memory.{
  AddressSpace, map_region, region_at, region_of_range, width_supported, write, write_integer,
}
use binforge.Memory.Invariant.{IsValid}
use binforge.Image.{
  BinaryImage, FileHeader, Segment, Symbol, Relocation, Export, elf_like, bits64, executable,
  x86_64, global, function_symbol, pc_relative32, symbol_of, word_bytes,
}
use binforge.Resolver.{SymbolResolver, add_export, resolve, find_name, is_nameless}
use binforge.Resolver.Lookup.{resolve-add_export}
use binforge.Relocation.{apply_one, apply_relocations, relocation_width, symbol_value, apply_each}
use binforge.Relocation.Effect.{apply_relocations-IsValid, backward-apply_one}
use binforge.Parser.{FormatParser, parse}
use binforge.Parser.Signature.{Routed, parse-Routed}
use binforge.Validator.{validate}
use binforge.Validator.Verdict.{IsLoadable, validate-IsLoadable}
use binforge.Loader.{
  LoadOptions, LoadResult, load, load_valid, and_then, load_segments, load_segment, place,
  original_base, load_placed, changed, map_segment, write_segment, decimal, import_target,
  initial_permissions, least_address, load_entry, load_imports, load_relocations, load_target,
  write_import, count_relocations,
}
use binforge.Loader.Correct.{IsOutcome, load-IsOutcome}
use binforge.Region.{
  clears_next, clears_previous, allows, before_lower_bound, before_upper_bound, contains, emplace,
  lower_bound, modify, splice,
}
use binforge.Runs.{two_regions, two_regions-IsValid}

abbrev entry_name : Text
entry_name = 101 ∷ 110 ∷ []

abbrev library_name : Text
library_name = 108 ∷ []

abbrev entry_export : Export
entry_export = record {
  name = entry_name;
  address = 64;
  ordinal = 3;
  forwarded = false;
  forward_target = [];
}

abbrev no_exports : SymbolResolver
no_exports = record { named = []; ordinals = [] }

abbrev one_export : SymbolResolver
one_export = record {
  named = (library_name, (entry_name, 64)) ∷ [];
  ordinals = (library_name, (3, 64)) ∷ [];
}

added_run : add_export library_name entry_export no_exports ≡ ok one_export
unfolding add_export
added_run = refl

resolve-add_export_example :
    ((o : ℕ)
      → is_nameless entry_name ≡ false
      → resolve library_name entry_name o one_export ≡ some 64)
    × (resolve library_name [] 3 one_export ≡ some 64)
    × ((l n : Text) (a : ℕ)
        → find_name l n no_exports.named ≡ some a
        → find_name l n one_export.named ≡ some a)
    × ((l : Text) (o a : ℕ)
        → resolve l [] o no_exports ≡ some a
        → resolve l [] o one_export ≡ some a)
resolve-add_export_example =
    resolve-add_export library_name entry_export no_exports one_export added_run

abbrev pub header : FileHeader
header = record {
  format = elf_like;
  word_size = bits64;
  byte_order = little;
  kind = executable;
  architecture = x86_64;
  entry_point = 16;
  image_base = 16;
  section_table_offset = 0;
  segment_table_offset = 0;
  section_count = 0;
  segment_count = 1;
  flags = 0;
}

abbrev pub segment : Segment
segment = record {
  index = 0;
  file_offset = 0;
  file_size = 2;
  virtual_address = 16;
  memory_size = 4;
  alignment = 1;
  permissions = 5;
  sections = [];
}

abbrev pub symbol : Symbol
symbol = record {
  index = 0;
  name = text "f";
  binding = global;
  kind = function_symbol;
  section_index = 0;
  value = 0;
  size = 0;
  visibility = 0;
  library = [];
}

-- The call at address 16 of a function at address 8.
abbrev backward : Relocation
backward = record {
  index = 0;
  kind = pc_relative32;
  target_section = 0;
  symbol_index = 1;
  offset = 16;
  addend = 0;
  width = 0;
}

abbrev pub image : BinaryImage
image = record {
  header = header;
  sections = [];
  segments = segment ∷ [];
  symbols = symbol ∷ record symbol { index = 1; value = 8 } ∷ [];
  relocations = backward ∷ [];
  imports = [];
  exports = [];
  debug_units = [];
  warnings = [];
  file_data = some (1 ∷ 2 ∷ []);
}

apply_relocations-IsValid_example :
    IsValid (apply_relocations default_limits image two_regions 0 none).1.1
    × ((apply_relocations default_limits image two_regions 0 none).0 ≡ ok tt
        → (apply_relocations default_limits image two_regions 0 none).1.0 ≡ 1)
apply_relocations-IsValid_example =
    apply_relocations-IsValid default_limits image two_regions 0 none two_regions-IsValid
      (omega arith)

width_is : relocation_width backward ≡ 4
unfolding relocation_width
width_is = refl

place_is : checked_add 16 0 ≡ some 16
unfolding checked_add
place_is = refl

symbol_is : symbol_value backward image 16 0 none ≡ ok 8
unfolding symbol_value symbol_of checked_add
symbol_is = refl

backward-apply_one_example :
    apply_one backward image two_regions 0 none
    ≡ err (error address_overflow 16 (text "relocation result does not fit"))
backward-apply_one_example =
    backward-apply_one backward image two_regions 0 none 16 8 refl width_is place_is (omega arith)
      symbol_is (omega arith) (omega arith)

pub valid_run : (validate default_limits image).valid ≡ true
unfolding validate range_inside checked_add
valid_run = refl

validate-IsLoadable_example : (bytes : List ℕ) × IsLoadable default_limits image bytes
validate-IsLoadable_example = validate-IsLoadable default_limits image valid_run

abbrev options : LoadOptions
options = record {
  preferred_base = 8192;
  apply_relocations = true;
  resolve_imports = true;
  enforce_wx = true;
  allow_overlapping_sections = false;
}

-- Pages of 16 bytes, and an import whose slot is behind the bytes of the file.
abbrev small_pages : Limits
small_pages = record default_limits { page_size = 16 }

abbrev importing : BinaryImage
importing = record image {
  relocations = [];
  imports =
      record {
        library = library_name;
        name = entry_name;
        ordinal = 0;
        slot_address = 20;
        weak = false;
      }
      ∷ [];
}

abbrev loading_result : LoadResult
loading_result = record {
  load_base = 8192;
  entry_point = 8192;
  mapped_bytes = 16;
  relocations_applied = 0;
  imports_resolved = 1;
  warnings = [];
}

abbrev after_load : AddressSpace
after_load = record two_regions {
  regions =
      two_regions.regions
      ++ (record {
        base = 8192;
        size = 16;
        permissions = 3;
        name = text "segment.0";
        bytes = 1 ∷ 2 ∷ 0 ∷ 0 ∷ 64 ∷ 0 ∷ 0 ∷ 0 ∷ 0 ∷ 0 ∷ 0 ∷ 0 ∷ 0 ∷ 0 ∷ 0 ∷ 0 ∷ [];
      }
          ∷ []);
  mapped_bytes = 24;
}

load_run :
    load small_pages (error no_error 0 []) importing two_regions options (some one_export)
    ≡ (ok loading_result, after_load)
unfolding load validate range_inside checked_add load_valid and_then load_segments load_segment
    place original_base checked_align_up load_placed changed map_segment map_region clears_next
    clears_previous write_segment le_bytes to_bytes word_bytes decimal import_target
    initial_permissions least_address load_entry load_imports load_relocations load_target
    write_import count_relocations region_at region_of_range width_supported write write_integer
    allows before_lower_bound before_upper_bound contains emplace lower_bound modify splice
    apply_relocations apply_each find_name is_nameless resolve binforge.Prelude.Tests.text_eq
    binforge.Prelude.Tests.text
load_run = refl

load-IsOutcome_example :
    (original : ℕ) × (bias : ℕ) × (file : List ℕ) × IsOutcome importing options
      (some one_export)
      two_regions
      after_load
      loading_result
      original
      bias
      file
load-IsOutcome_example =
    load-IsOutcome small_pages (error no_error 0 []) importing two_regions options (some one_export)
      loading_result after_load
      (record {
        page_size = omega arith;
        max_relocations = omega arith;
        preferred_base = omega arith;
        image_base = omega arith;
        entry_point = omega arith;
        addresses = (omega arith, tt);
        offsets = tt;
        slots = (omega arith, tt);
      })
      two_regions-IsValid load_run

-- A parser that keeps the bytes in a given image.
abbrev keeping : FormatParser
keeping limits bytes = ok (record image { file_data = some bytes })

abbrev elf_bytes : List ℕ
elf_bytes = 127 ∷ 69 ∷ 76 ∷ 70 ∷ 2 ∷ []

-- Parsers that refuse each file.
abbrev refusing : FormatParser
refusing limits bytes = err (error invalid_header 0 [])

parse-Routed_example :
    Routed keeping refusing refusing default_limits elf_bytes
      (parse keeping refusing refusing default_limits (some elf_bytes))
parse-Routed_example =
    parse-Routed keeping refusing refusing default_limits elf_bytes
      (omega arith, (omega arith, (omega arith, (omega arith, (omega arith, tt)))))
