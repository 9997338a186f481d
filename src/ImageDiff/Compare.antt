-- ===== src/ImageDiff/Compare.antt =====
-- src/image_diff.cc: `ImageDiffer::compare`, table by table.
use binforge.Prelude.{
  ℕ, ◌+◌, ◌*◌, Bool, true, false, ◌&&◌, none, List, [], ◌∷◌, ◌++◌, leb, ◌==◌, if◌then◌else◌, Text,
  text, length,
}
use binforge.Base.{error, Result, ok, ◌>>◌, require, Limits, resource_limit}
use binforge.Image.{
  BinaryImage, FileHeader, WordSize, bits32, bits64, Section, Segment, Symbol, Relocation, Import,
  Export,
}
use binforge.Resolver.{is_nameless}
use binforge.Manifest.Codes.{format_code, order_code, kind_code, architecture_code, relocation_code}
use binforge.Query.{to_string}
use binforge.ImageDiff.{
  ImageDifference, ImageDiffReport, empty_report, section_description, segment_description,
  symbol_description, add_difference, text_keys, number_keys, compare_tables, changed_description,
  header_changed, section_added, section_removed, section_changed, segment_added, segment_removed,
  segment_changed, symbol_added, symbol_removed, symbol_changed, import_added, import_removed,
  export_added, export_removed, relocation_changed,
}

-- A name, or the number that stands for it.
unfoldable pub name_or : Text → ℕ → Text
unfolding is_nameless to_string
name_or name number = if is_nameless name then text "#" ++ to_string number else name

unfoldable pub section_key : Section → Text
unfolding name_or
section_key s = name_or s.name s.index

unfoldable pub symbol_key : Symbol → Text
unfolding to_string
symbol_key s = s.library ++ text "!" ++ s.name ++ text "@" ++ to_string s.value

unfoldable pub import_key : Import → Text
unfolding name_or
import_key i = i.library ++ text "!" ++ name_or i.name i.ordinal

unfoldable pub export_key : Export → Text
unfolding name_or
export_key e = name_or e.name e.ordinal

unfoldable pub compare_sections : BinaryImage → BinaryImage → ImageDiffReport → ImageDiffReport
unfolding compare_tables changed_description section_key section_description
compare_sections before after =
    compare_tables text_keys section_key
      (λ key s. record {
        kind = section_removed;
        identity = key;
        before = section_description s;
        after = [];
        address = s.virtual_address;
      })
      (λ key s now.
        changed_description section_description
          (λ left right. record {
            kind = section_changed;
            identity = key;
            before = left;
            after = right;
            address = now.virtual_address;
          })
          s now)
      (λ key s. record {
        kind = section_added;
        identity = key;
        before = [];
        after = section_description s;
        address = s.virtual_address;
      })
      before.sections after.sections

unfoldable pub compare_segments : BinaryImage → BinaryImage → ImageDiffReport → ImageDiffReport
unfolding compare_tables changed_description segment_description to_string
compare_segments before after =
    compare_tables number_keys (λ (s : Segment). s.virtual_address)
      (λ key s. record {
        kind = segment_removed;
        identity = to_string key;
        before = segment_description s;
        after = [];
        address = key;
      })
      (λ key s now.
        changed_description segment_description
          (λ left right. record {
            kind = segment_changed;
            identity = to_string key;
            before = left;
            after = right;
            address = key;
          })
          s now)
      (λ key s. record {
        kind = segment_added;
        identity = to_string key;
        before = [];
        after = segment_description s;
        address = key;
      })
      before.segments after.segments

unfoldable pub compare_symbols : BinaryImage → BinaryImage → ImageDiffReport → ImageDiffReport
unfolding compare_tables changed_description symbol_key symbol_description
compare_symbols before after =
    compare_tables text_keys symbol_key
      (λ key s. record {
        kind = symbol_removed;
        identity = key;
        before = symbol_description s;
        after = [];
        address = s.value;
      })
      (λ key s now.
        changed_description symbol_description
          (λ left right. record {
            kind = symbol_changed;
            identity = key;
            before = left;
            after = right;
            address = now.value;
          })
          s now)
      (λ key s. record {
        kind = symbol_added;
        identity = key;
        before = [];
        after = symbol_description s;
        address = s.value;
      })
      before.symbols after.symbols

unfoldable pub compare_imports : BinaryImage → BinaryImage → ImageDiffReport → ImageDiffReport
unfolding compare_tables import_key
compare_imports before after =
    compare_tables text_keys import_key
      (λ key i. record {
        kind = import_removed;
        identity = key;
        before = text "present";
        after = [];
        address = i.slot_address;
      })
      (λ key i now. none)
      (λ key i. record {
        kind = import_added;
        identity = key;
        before = [];
        after = text "present";
        address = i.slot_address;
      })
      before.imports after.imports

unfoldable pub compare_exports : BinaryImage → BinaryImage → ImageDiffReport → ImageDiffReport
unfolding compare_tables export_key
compare_exports before after =
    compare_tables text_keys export_key
      (λ key e. record {
        kind = export_removed;
        identity = key;
        before = text "present";
        after = [];
        address = e.address;
      })
      (λ key e now. none)
      (λ key e. record {
        kind = export_added;
        identity = key;
        before = [];
        after = text "present";
        address = e.address;
      })
      before.exports after.exports

-- The four fields that the loop over the relocations compares.
unfoldable pub same_relocation : Relocation → Relocation → Bool
unfolding relocation_code
same_relocation a b =
    relocation_code a.kind == relocation_code b.kind
    && (a.offset == b.offset && (a.symbol_index == b.symbol_index && a.addend == b.addend))

-- The loop from this index on, over what is left of the two tables.
unfoldable pub compare_relocations :
    ℕ → List Relocation → List Relocation → ImageDiffReport → ImageDiffReport
unfolding same_relocation to_string add_difference
compare_relocations n [] [] report = report
compare_relocations n (old ∷ before) [] report = compare_relocations (n + 1) before [] (
    add_difference
      (record {
        kind = relocation_changed;
        identity = to_string n;
        before = text "present";
        after = [];
        address = old.offset;
      })
      false true report)
compare_relocations n [] (now ∷ after) report = compare_relocations (n + 1) [] after (
    add_difference
      (record {
        kind = relocation_changed;
        identity = to_string n;
        before = [];
        after = text "present";
        address = now.offset;
      })
      true false report)
compare_relocations n (old ∷ before) (now ∷ after) report =
    compare_relocations (n + 1) before after (
      if same_relocation old now
      then report
      else add_difference
          (record {
            kind = relocation_changed;
            identity = to_string n;
            before = text "present";
            after = text "present";
            address = now.offset;
          })
          false false report)

unfoldable pub word_bytes : WordSize → ℕ
word_bytes bits32 = 4
word_bytes bits64 = 8

unfoldable pub same_header : FileHeader → FileHeader → Bool
unfolding format_code word_bytes order_code kind_code architecture_code
same_header a b =
    format_code a.format == format_code b.format
    && (word_bytes a.word_size == word_bytes b.word_size
        && (order_code a.byte_order == order_code b.byte_order
            && (kind_code a.kind == kind_code b.kind
                && (architecture_code a.architecture == architecture_code b.architecture
                    && (a.entry_point == b.entry_point
                        && (a.image_base == b.image_base && a.flags == b.flags))))))

unfoldable pub compare_headers : BinaryImage → BinaryImage → ImageDiffReport → ImageDiffReport
unfolding same_header add_difference
compare_headers before after report =
    if same_header before.header after.header
    then report
    else add_difference
        (record {
          kind = header_changed;
          identity = text "header";
          before = text "before";
          after = text "after";
          address = after.header.entry_point;
        })
        false false report

unfoldable pub items : BinaryImage → ℕ
items i =
    length i.sections
    + length i.segments
    + length i.symbols
    + length i.imports
    + length i.exports
    + length i.relocations

unfoldable pub item_limit : Limits → ℕ
item_limit limits = limits.max_sections * 4 + limits.max_symbols * 4 + limits.max_relocations * 2

unfoldable pub is_empty : List ImageDifference → Bool
is_empty [] = true
is_empty (d ∷ differences) = false

unfoldable pub differences_of : BinaryImage → BinaryImage → ImageDiffReport
unfolding compare_headers compare_sections compare_segments compare_symbols compare_imports
    compare_exports compare_relocations
differences_of before after = compare_relocations 0 before.relocations after.relocations (
    compare_exports before after (
      compare_imports before after (
        compare_symbols before after (
          compare_segments before after
            (compare_sections before after (compare_headers before after empty_report))))))

unfoldable pub compare_images : Limits → BinaryImage → BinaryImage → Result ImageDiffReport
unfolding items item_limit differences_of is_empty
compare_images limits before after = do
  require (leb (items before + items after) (item_limit limits))
      (error resource_limit 0 (text "image comparison exceeds item limit"))
  let report : ImageDiffReport = differences_of before after
  ok (record report { equivalent = is_empty report.differences })
