-- ===== src/ImageDiff.antt =====
-- src/image_diff.cc: `ImageDiffer`. A std::map is the list of its entries in the order of the keys; a
-- comparison that fails returns the empty report, which is left out beside its error.
pub mod Compare
pub mod Tables
pub mod Rounds
pub mod Same
pub mod Verdict
use binforge.Prelude.{
  ℕ, ◌+◌, ◌*◌, ◌%◌, ◌^◌, Bool, true, false, ◌&&◌, not, Option, none, some, List, [], ◌∷◌, ◌++◌, ltb,
  leb, ◌==◌, if◌then◌else◌, Text, text, text_eq, length,
}
use binforge.Base.{error, Result, ok, ◌>>=◌, ◌>>◌, require, Limits, resource_limit}
use binforge.Image.{
  BinaryImage, FileHeader, WordSize, bits32, bits64, Section, Segment, Symbol, Relocation, Import,
  Export,
}
use binforge.Resolver.{is_nameless}
use binforge.SymbolIndex.{text_below}
use binforge.Manifest.Codes.{
  format_code, order_code, kind_code, architecture_code, section_code, binding_code, symbol_code,
  relocation_code,
}
use binforge.Query.{to_string}

pub data DifferenceKind : Type 0 where
  header_changed section_added section_removed section_changed segment_added segment_removed
        segment_changed symbol_added symbol_removed symbol_changed import_added import_removed
        export_added export_removed relocation_changed :
      DifferenceKind

pub record ImageDifference : Type 0 where
  pub kind : DifferenceKind
  pub identity : Text
  pub before : Text
  pub after : Text
  pub address : ℕ

pub record ImageDiffReport : Type 0 where
  pub equivalent : Bool
  pub additions : ℕ
  pub removals : ℕ
  pub modifications : ℕ
  pub differences : List ImageDifference

abbrev pub empty_report : ImageDiffReport
empty_report = record {
  equivalent = false;
  additions = 0;
  removals = 0;
  modifications = 0;
  differences = [];
}

unfoldable pub section_description : Section → Text
unfolding to_string section_code
section_description s =
    text "file="
    ++ to_string s.file_offset
    ++ text "+"
    ++ to_string s.file_size
    ++ text " virtual="
    ++ to_string s.virtual_address
    ++ text "+"
    ++ to_string s.memory_size
    ++ text " permissions="
    ++ to_string s.permissions
    ++ text " kind="
    ++ to_string (section_code s.kind)

unfoldable pub segment_description : Segment → Text
unfolding to_string
segment_description s =
    text "file="
    ++ to_string s.file_offset
    ++ text "+"
    ++ to_string s.file_size
    ++ text " virtual="
    ++ to_string s.virtual_address
    ++ text "+"
    ++ to_string s.memory_size
    ++ text " permissions="
    ++ to_string s.permissions

unfoldable pub symbol_description : Symbol → Text
unfolding to_string binding_code symbol_code
symbol_description s =
    text "value="
    ++ to_string s.value
    ++ text " size="
    ++ to_string s.size
    ++ text " section="
    ++ to_string s.section_index
    ++ text " binding="
    ++ to_string (binding_code s.binding)
    ++ text " kind="
    ++ to_string (symbol_code s.kind)

unfoldable pub add_difference : ImageDifference → Bool → Bool → ImageDiffReport → ImageDiffReport
add_difference difference addition removal report =
    let noted : ImageDiffReport = record report {
      differences = report.differences ++ (difference ∷ []);
    } in
    if addition
    then record noted { additions = (report.additions + 1) % 2 ^ 32 }
    else if removal
    then record noted { removals = (report.removals + 1) % 2 ^ 32 }
    else record noted { modifications = (report.modifications + 1) % 2 ^ 32 }

-- The comparisons that a std::map makes of its keys.
pub record Keys (K : Type 0) : Type 0 where
  pub same : K → K → Bool
  pub below : K → K → Bool

abbrev pub text_keys : Keys Text
text_keys = record { same = text_eq; below = text_below }

abbrev pub number_keys : Keys ℕ
number_keys = record { same = λ a b. a == b; below = ltb }

module _ {K T : Type 0} (keys : Keys K) where
  unfoldable pub find : K → List (K × T) → Option T
  find k [] = none
  find k (entry ∷ entries) = if keys.same k entry.0 then some entry.1 else find k entries

  -- The entry in its place, before the first key above its own.
  unfoldable pub place_entry : K → T → List (K × T) → List (K × T)
  place_entry k value [] = (k, value) ∷ []
  place_entry k value (entry ∷ entries) =
      if keys.below k entry.0
      then (k, value) ∷ entry ∷ entries
      else entry ∷ place_entry k value entries

  -- A key that is there keeps its value.
  unfoldable pub emplace : K → T → List (K × T) → List (K × T)
  unfolding find place_entry
  emplace k value entries = elim (find k entries) [
    | some there ↦ entries
    | none ↦ place_entry k value entries
  ]

  -- The loop from a map that has the entries of the values before.
  unfoldable pub index_from : (T → K) → List T → List (K × T) → List (K × T)
  unfolding emplace
  index_from key [] entries = entries
  index_from key (value ∷ values) entries =
      index_from key values (emplace (key value) value entries)

  unfoldable pub index_values : (T → K) → List T → List (K × T)
  unfolding index_from
  index_values key values = index_from key values []

  -- A round of the first loop over two maps: what is gone, or has changed.
  unfoldable pub report_old :
      (K → T → ImageDifference)
      → (K → T → T → Option ImageDifference)
      → List (K × T)
      → K × T
      → ImageDiffReport
      → ImageDiffReport
  unfolding find
  report_old removed changed after item report = elim (find item.0 after) [
    | none ↦ add_difference (removed item.0 item.1) false true report
    | some now ↦ elim (changed item.0 item.1 now) [
      | none ↦ report
      | some difference ↦ add_difference difference false false report
    ]
  ]

  -- A round of the second loop: what is new.
  unfoldable pub report_new :
      (K → T → ImageDifference) → List (K × T) → K × T → ImageDiffReport → ImageDiffReport
  unfolding find
  report_new added before item report = elim (find item.0 before) [
    | none ↦ add_difference (added item.0 item.1) true false report
    | some old ↦ report
  ]

unfoldable pub report_each :
    {A : Type 0}
    → (A → ImageDiffReport → ImageDiffReport)
    → List A
    → ImageDiffReport
    → ImageDiffReport
report_each step [] report = report
report_each step (item ∷ items) report = report_each step items (step item report)

-- The two loops over the maps of a table.
unfoldable pub compare_tables :
    {K T : Type 0}
    → Keys K
    → (T → K)
    → (K → T → ImageDifference)
    → (K → T → T → Option ImageDifference)
    → (K → T → ImageDifference)
    → List T
    → List T
    → ImageDiffReport
    → ImageDiffReport
unfolding index_values report_old report_new report_each
compare_tables keys key removed changed added before after report =
    report_each (report_new keys added (index_values keys key before)) (index_values keys key after)
      (report_each (report_old keys removed changed (index_values keys key after))
        (index_values keys key before) report)

-- The difference of two descriptions.
unfoldable pub changed_description :
    {T : Type 0} → (T → Text) → (Text → Text → ImageDifference) → T → T → Option ImageDifference
changed_description describe difference old now =
    if text_eq (describe old) (describe now)
    then none
    else some (difference (describe old) (describe now))
