-- ===== src/Query.antt =====
-- src/query.cc: `ImageQueryEngine`.
pub mod Answer
use binforge.Prelude.{
  ℕ, ◌+◌, ◌%◌, ◌^◌, bit_and, Bool, true, false, ◌&&◌, ◌||◌, not, List, [], ◌∷◌, ◌++◌, map, ltb, leb,
  ◌==◌, if◌then◌else◌, Text, text, text_eq, length,
}
use binforge.Prelude.Sort.{sort_by}
use binforge.Base.{
  Error, error, Result, ok, err, ◌>>=◌, ◌>>◌, require, Limits, resource_limit, invalid_header,
}
use binforge.Region.{permission_read, permission_write, permission_execute, allows}
use binforge.Image.{BinaryImage, Section, Segment, Symbol, Import, Export}
use binforge.Loader.{decimal}
use binforge.Manifest.Codes.{section_code, binding_code, symbol_code}
use binforge.SymbolIndex.{text_below, has_prefix}

pub data QueryEntity : Type 0 where
  sections segments symbols imports exports : QueryEntity

pub data QueryField : Type 0 where
  name library address size permissions kind binding ordinal : QueryField

pub data QueryOperator : Type 0 where
  equal not_equal less less_equal greater greater_equal contains starts_with bitwise_contains :
      QueryOperator

pub data QueryValue : Type 0 where
  number : ℕ → QueryValue
  words : Text → QueryValue

pub record QueryPredicate : Type 0 where
  pub field : QueryField
  pub operation : QueryOperator
  pub value : QueryValue

pub record ImageQuery : Type 0 where
  pub entity : QueryEntity
  pub predicates : List QueryPredicate
  pub limit : ℕ
  pub require_all : Bool
  pub ascending : Bool

-- The attributes are those of the std::map, in the order of its keys.
pub record QueryRow : Type 0 where
  pub index : ℕ
  pub identity : Text
  pub address : ℕ
  pub size : ℕ
  pub attributes : List (Text × Text)

pub record QueryResult : Type 0 where
  pub examined : ℕ
  pub truncated : Bool
  pub rows : List QueryRow

-- `std::to_string` of a `uint64_t`, which has at most twenty digits.
unfoldable pub to_string : ℕ → Text
to_string n = decimal 20 n

unfoldable pub compare_numbers : QueryOperator → ℕ → ℕ → Bool
compare_numbers equal actual expected = actual == expected
compare_numbers not_equal actual expected = not (actual == expected)
compare_numbers less actual expected = ltb actual expected
compare_numbers less_equal actual expected = leb actual expected
compare_numbers greater actual expected = ltb expected actual
compare_numbers greater_equal actual expected = leb expected actual
compare_numbers bitwise_contains actual expected = bit_and actual expected == expected
compare_numbers contains actual expected = false
compare_numbers starts_with actual expected = false

unfoldable pub numeric_compare : ℕ → QueryPredicate → Bool
unfolding compare_numbers
numeric_compare actual p = elim p.value [
  | number expected ↦ compare_numbers p.operation actual expected
  | words expected ↦ false
]

-- `actual.find(expected) != npos`
unfoldable pub holds_text : Text → Text → Bool
unfolding has_prefix
holds_text expected [] = has_prefix expected []
holds_text expected (c ∷ actual) = has_prefix expected (c ∷ actual) || holds_text expected actual

unfoldable pub compare_texts : QueryOperator → Text → Text → Bool
unfolding holds_text text_below
compare_texts equal actual expected = text_eq actual expected
compare_texts not_equal actual expected = not (text_eq actual expected)
compare_texts contains actual expected = holds_text expected actual
compare_texts starts_with actual expected = has_prefix expected actual
compare_texts less actual expected = text_below actual expected
compare_texts less_equal actual expected = not (text_below expected actual)
compare_texts greater actual expected = text_below expected actual
compare_texts greater_equal actual expected = not (text_below actual expected)
compare_texts bitwise_contains actual expected = false

unfoldable pub text_compare : Text → QueryPredicate → Bool
unfolding compare_texts
text_compare actual p = elim p.value [
  | number expected ↦ false
  | words expected ↦ compare_texts p.operation actual expected
]

unfoldable pub all_of : List Bool → Bool
all_of [] = true
all_of (value ∷ values) = value && all_of values

unfoldable pub any_of : List Bool → Bool
any_of [] = false
any_of (value ∷ values) = value || any_of values

unfoldable pub combine : List Bool → Bool → Bool
unfolding all_of any_of
combine [] require_all = true
combine (value ∷ values) require_all =
    if require_all then all_of (value ∷ values) else any_of (value ∷ values)

unfoldable pub permission_string : ℕ → Text
permission_string granted =
    (if allows granted permission_read then b'r' else b'-')
    ∷ (if allows granted permission_write then b'w' else b'-')
    ∷ (if allows granted permission_execute then b'x' else b'-')
    ∷ []

unfoldable pub section_row : ℕ → Section → QueryRow
unfolding to_string permission_string section_code
section_row n s = record {
  index = s.index;
  identity = s.name;
  address = s.virtual_address;
  size = s.memory_size;
  attributes =
      (text "file_offset", to_string s.file_offset)
      ∷ (text "kind", to_string (section_code s.kind))
      ∷ (text "permissions", permission_string s.permissions)
      ∷ [];
}

unfoldable pub section_matches : Section → QueryField → QueryPredicate → Bool
unfolding text_compare numeric_compare section_code
section_matches s name p = text_compare s.name p
section_matches s address p = numeric_compare s.virtual_address p
section_matches s size p = numeric_compare s.memory_size p
section_matches s permissions p = numeric_compare s.permissions p
section_matches s kind p = numeric_compare (section_code s.kind) p
section_matches s _ p = false

unfoldable pub segment_name : Segment → Text
unfolding to_string
segment_name s = text "segment." ++ to_string s.index

unfoldable pub segment_row : ℕ → Segment → QueryRow
unfolding to_string permission_string segment_name
segment_row n s = record {
  index = s.index;
  identity = segment_name s;
  address = s.virtual_address;
  size = s.memory_size;
  attributes =
      (text "file_offset", to_string s.file_offset)
      ∷ (text "permissions", permission_string s.permissions)
      ∷ [];
}

unfoldable pub segment_matches : Segment → QueryField → QueryPredicate → Bool
unfolding text_compare numeric_compare segment_name
segment_matches s name p = text_compare (segment_name s) p
segment_matches s address p = numeric_compare s.virtual_address p
segment_matches s size p = numeric_compare s.memory_size p
segment_matches s permissions p = numeric_compare s.permissions p
segment_matches s _ p = false

unfoldable pub symbol_row : ℕ → Symbol → QueryRow
unfolding to_string binding_code symbol_code
symbol_row n s = record {
  index = s.index;
  identity = s.name;
  address = s.value;
  size = s.size;
  attributes =
      (text "binding", to_string (binding_code s.binding))
      ∷ (text "kind", to_string (symbol_code s.kind))
      ∷ (text "library", s.library)
      ∷ [];
}

unfoldable pub symbol_matches : Symbol → QueryField → QueryPredicate → Bool
unfolding text_compare numeric_compare binding_code symbol_code
symbol_matches s name p = text_compare s.name p
symbol_matches s library p = text_compare s.library p
symbol_matches s address p = numeric_compare s.value p
symbol_matches s size p = numeric_compare s.size p
symbol_matches s binding p = numeric_compare (binding_code s.binding) p
symbol_matches s kind p = numeric_compare (symbol_code s.kind) p
symbol_matches s _ p = false

unfoldable pub import_row : ℕ → Import → QueryRow
unfolding to_string
import_row n i = record {
  index = n;
  identity = i.name;
  address = i.slot_address;
  size = 0;
  attributes = (text "library", i.library) ∷ (text "ordinal", to_string i.ordinal) ∷ [];
}

unfoldable pub import_matches : Import → QueryField → QueryPredicate → Bool
unfolding text_compare numeric_compare
import_matches i name p = text_compare i.name p
import_matches i library p = text_compare i.library p
import_matches i address p = numeric_compare i.slot_address p
import_matches i ordinal p = numeric_compare i.ordinal p
import_matches i _ p = false

unfoldable pub export_row : ℕ → Export → QueryRow
unfolding to_string
export_row n e = record {
  index = n;
  identity = e.name;
  address = e.address;
  size = 0;
  attributes = (text "forward", e.forward_target) ∷ (text "ordinal", to_string e.ordinal) ∷ [];
}

unfoldable pub export_matches : Export → QueryField → QueryPredicate → Bool
unfolding text_compare numeric_compare
export_matches e name p = text_compare e.name p
export_matches e address p = numeric_compare e.address p
export_matches e ordinal p = numeric_compare e.ordinal p
export_matches e _ p = false

unfoldable pub accept : ImageQuery → QueryRow → List Bool → QueryResult → QueryResult
unfolding combine
accept query row matches result =
    if not (combine matches query.require_all)
    then record result { examined = result.examined + 1 }
    else if leb query.limit (length result.rows)
    then record result { examined = result.examined + 1; truncated = true }
    else record result { examined = result.examined + 1; rows = result.rows ++ (row ∷ []) }

-- The loop over a table, from the item of this index on; a table has fewer than 2^32 items.
unfoldable pub examine :
    {A : Type 0}
    → (ℕ → A → QueryRow)
    → (A → QueryField → QueryPredicate → Bool)
    → ImageQuery
    → ℕ
    → List A
    → QueryResult
    → QueryResult
unfolding accept
examine row matches query n [] result = result
examine row matches query n (a ∷ items) result = examine row matches query (n + 1) items (
    accept query (row n a) (map (λ (p : QueryPredicate). matches a p.field p) query.predicates)
      result)

abbrev pub no_rows : QueryResult
no_rows = record { examined = 0; truncated = false; rows = [] }

unfoldable pub examine_entity : QueryEntity → ImageQuery → BinaryImage → QueryResult
unfolding examine section_row section_matches segment_row segment_matches symbol_row symbol_matches
    import_row import_matches export_row export_matches
examine_entity sections query image =
    examine section_row section_matches query 0 image.sections no_rows
examine_entity segments query image =
    examine segment_row segment_matches query 0 image.segments no_rows
examine_entity symbols query image = examine symbol_row symbol_matches query 0 image.symbols no_rows
examine_entity imports query image = examine import_row import_matches query 0 image.imports no_rows
examine_entity exports query image = examine export_row export_matches query 0 image.exports no_rows

unfoldable pub row_before : Bool → QueryRow → QueryRow → Bool
unfolding text_below
row_before ascending left right =
    if not (left.address == right.address)
    then (if ascending then ltb left.address right.address else ltb right.address left.address)
    else if ascending
    then text_below left.identity right.identity
    else text_below right.identity left.identity

unfoldable pub is_numeric : QueryField → Bool
is_numeric name = false
is_numeric library = false
is_numeric _ = true

unfoldable pub holds_number : QueryValue → Bool
holds_number (number n) = true
holds_number (words t) = false

unfoldable pub predicates_typed : List QueryPredicate → Bool
unfolding is_numeric holds_number
predicates_typed [] = true
predicates_typed (p ∷ predicates) =
    (if is_numeric p.field then holds_number p.value else not (holds_number p.value))
    && predicates_typed predicates

unfoldable pub execute : Limits → BinaryImage → ImageQuery → Result QueryResult
unfolding predicates_typed examine_entity row_before
execute limits image query = do
  require
      (not (query.limit == 0)
        && (leb query.limit limits.max_symbols
            && leb (length query.predicates) limits.max_sections))
      (error resource_limit 0 (text "query limits are invalid"))
  require (predicates_typed query.predicates)
      (error invalid_header 0 (text "query predicate type does not match field"))
  let result : QueryResult = examine_entity query.entity query image
  ok (record result { rows = sort_by (row_before query.ascending) result.rows })
