-- ===== src/Query/Answer.antt =====
-- What the queries of src/query.cc answer.
use binforge.Prelude.{
  ℕ, suc, ◌+◌, ◌≤◌, ◌<◌, ◌≡◌, refl, ap, sym, ◌∙◌, inl, inr, Bool, true, false, ◌||◌, Bool-cases,
  List, [], ◌∷◌, ◌++◌, append_assoc, append-nil, map, length, length-append, take,
  take-append_length, take_enough, ltb, leb, if◌then◌else◌, Text, arith,
}
use mathlib.Core.Path.{subst}
use mathlib.Core.List.{Perm}
use binforge.Prelude.Sort.{sort_by, sort_by-perm, IsSorted, sort_by-IsSorted}
use binforge.Base.{ok, Limits}
use binforge.Image.{BinaryImage}
use binforge.SymbolIndex.{text_below}
use binforge.SymbolIndex.Names.{below_irrefl, below_trans}
use binforge.Query.{
  QueryEntity, sections, segments, symbols, imports, exports, QueryField, QueryPredicate,
  ImageQuery, QueryRow, QueryResult, combine, section_row, section_matches, segment_row,
  segment_matches, symbol_row, symbol_matches, import_row, import_matches, export_row,
  export_matches, accept, examine, no_rows, examine_entity, row_before, predicates_typed, execute,
}

below_asymmetric : (xs ys : Text) → text_below xs ys ≡ true → text_below ys xs ≡ false
below_asymmetric xs ys h = elim (Bool-cases (text_below ys xs)) [
  | inl back ↦ ground (arith, below_irrefl xs, below_trans xs ys xs h back)
  | inr fine ↦ fine
]

row_before-asymmetric :
    (ascending : Bool) (x y : QueryRow)
    → row_before ascending x y ≡ true
    → row_before ascending y x ≡ false
unfolding row_before
row_before-asymmetric true x y h = ground (arith, below_asymmetric x.identity y.identity)
row_before-asymmetric false x y h = ground (arith, below_asymmetric y.identity x.identity)

-- A result that goes on from another by these rows, of which there are items enough.
record Continues (limit : ℕ) (from : QueryResult) (chosen : List QueryRow) (items : ℕ)
    (r : QueryResult) : Type 0 where
  examined : r.examined ≡ from.examined + items
  truncated : r.truncated ≡ (from.truncated || ltb limit (length from.rows + length chosen))
  rows : r.rows ≡ take limit (from.rows ++ chosen)

module _ (limit : ℕ) (from : QueryResult) (fits : length from.rows ≤ limit) where
  Continues-nil : Continues limit from [] 0 from
  Continues-nil = record {
    examined = omega arith;
    truncated = ground arith;
    rows = sym (ap (take limit) (append-nil from.rows) ∙ take_enough limit from.rows fits);
  }

  module _ (x : QueryRow) (chosen : List QueryRow) (items : ℕ) (r : QueryResult) where
    Continues-other :
        Continues limit (record from { examined = from.examined + 1 }) chosen items r
        → Continues limit from chosen (suc items) r
    Continues-other c = record {
      examined = omega (arith, c.examined);
      truncated = c.truncated;
      rows = c.rows;
    }

    Continues-full :
        leb limit (length from.rows) ≡ true
        → Continues limit
            (record from { examined = from.examined + 1; truncated = true })
            chosen
            items
            r
        → Continues limit from (x ∷ chosen) (suc items) r
    Continues-full full c =
        let exact : length from.rows ≡ limit = ground (arith, full, fits) in
        let cut : (ys : List QueryRow) → take limit (from.rows ++ ys) ≡ from.rows = λ ys.
          ap (λ (n : ℕ). take n (from.rows ++ ys)) (sym exact) ∙ take-append_length from.rows ys in
        record {
          examined = omega (arith, c.examined);
          truncated = ground (arith, c.truncated, exact);
          rows = c.rows ∙ cut chosen ∙ sym (cut (x ∷ chosen));
        }

    Continues-room :
        Continues limit
          (record from { examined = from.examined + 1; rows = from.rows ++ (x ∷ []) })
          chosen
          items
          r
        → Continues limit from (x ∷ chosen) (suc items) r
    Continues-room c = record {
      examined = omega (arith, c.examined);
      truncated = ground (arith, c.truncated, length-append from.rows (x ∷ []));
      rows = c.rows ∙ ap (take limit) (append_assoc from.rows (x ∷ []) chosen);
    }

module _ {A : Type 0} (row : ℕ → A → QueryRow) (matches : A → QueryField → QueryPredicate → Bool)
    (query : ImageQuery) where
  -- The item meets all predicates, or one of them, as the query asks; without predicates, any item does.
  unfoldable pub is_selected : A → Bool
  is_selected a =
      combine (map (λ (p : QueryPredicate). matches a p.field p) query.predicates) query.require_all

  -- The rows of the items that are selected, in the order of the table.
  unfoldable pub selected : ℕ → List A → List QueryRow
  unfolding is_selected
  selected n [] = []
  selected n (a ∷ items) =
      let rest = selected (n + 1) items in if is_selected a then row n a ∷ rest else rest

  accepted : ℕ → A → QueryResult → QueryResult
  accepted n a result =
      accept query (row n a) (map (λ (p : QueryPredicate). matches a p.field p) query.predicates)
        result

  skips :
      (n : ℕ) (a : A) (items : List A)
      → is_selected a ≡ false
      → selected n (a ∷ items) ≡ selected (n + 1) items
  unfolding selected
  skips n a items h = ground (arith, h)

  takes :
      (n : ℕ) (a : A) (items : List A)
      → is_selected a ≡ true
      → selected n (a ∷ items) ≡ row n a ∷ selected (n + 1) items
  unfolding selected
  takes n a items h = ground (arith, h)

  examine-Continues :
      (n : ℕ) (items : List A) (result : QueryResult)
      → length result.rows ≤ query.limit
      → Continues query.limit result
          (selected n items)
          (length items)
          (examine row matches query n items result)
  unfolding examine accepted
  examine-Continues n [] result h = unfold selected in Continues-nil query.limit result h
  examine-Continues n (a ∷ items) result h =
      let rest = selected (n + 1) items in
      let after = examine row matches query (n + 1) items (accepted n a result) in
      let ih : (next : QueryResult)
          → accepted n a result ≡ next
          → length next.rows ≤ query.limit
          → Continues query.limit next rest (length items) after =
        λ next is fits.
          subst
            (λ from.
              length from.rows ≤ query.limit → Continues query.limit from rest (length items) after)
            is (examine-Continues (n + 1) items (accepted n a result)) fits in
      elim (Bool-cases (is_selected a)) [
        | inr other ↦
            subst (λ l. Continues query.limit result l (suc (length items)) after)
              (sym (skips n a items other))
              (Continues-other query.limit result h (row n a) rest (length items) after (
                ih (record result { examined = result.examined + 1 })
                  (unfold is_selected in ground (arith, other)) h))
        | inl chosen ↦
            subst (λ l. Continues query.limit result l (suc (length items)) after)
              (sym (takes n a items chosen))
              (elim (Bool-cases (leb query.limit (length result.rows))) [
                | inl full ↦
                    Continues-full query.limit result h (row n a) rest (length items) after full (
                      ih (record result { examined = result.examined + 1; truncated = true })
                        (unfold is_selected in ground (arith, chosen, full)) h)
                | inr room ↦
                    Continues-room query.limit result h (row n a) rest (length items) after (
                      ih
                        (record result {
                          examined = result.examined + 1;
                          rows = result.rows ++ (row n a ∷ []);
                        })
                        (unfold is_selected in ground (arith, chosen, room))
                        (ground (arith, room, length-append result.rows (row n a ∷ []))))
              ])
      ]

-- The rows of the table that is asked, as far as the query selects them, and the size of the table.
unfoldable pub entity_rows : QueryEntity → ImageQuery → BinaryImage → List QueryRow
entity_rows sections query image = selected section_row section_matches query 0 image.sections
entity_rows segments query image = selected segment_row segment_matches query 0 image.segments
entity_rows symbols query image = selected symbol_row symbol_matches query 0 image.symbols
entity_rows imports query image = selected import_row import_matches query 0 image.imports
entity_rows exports query image = selected export_row export_matches query 0 image.exports

unfoldable pub entity_size : QueryEntity → BinaryImage → ℕ
entity_size sections image = length image.sections
entity_size segments image = length image.segments
entity_size symbols image = length image.symbols
entity_size imports image = length image.imports
entity_size exports image = length image.exports

examine_entity-Continues :
    (entity : QueryEntity) (query : ImageQuery) (image : BinaryImage)
    → Continues query.limit no_rows
        (entity_rows entity query image)
        (entity_size entity image)
        (examine_entity entity query image)
unfolding examine_entity entity_rows entity_size
examine_entity-Continues sections query image =
    examine-Continues section_row section_matches query 0 image.sections no_rows (omega arith)
examine_entity-Continues segments query image =
    examine-Continues segment_row segment_matches query 0 image.segments no_rows (omega arith)
examine_entity-Continues symbols query image =
    examine-Continues symbol_row symbol_matches query 0 image.symbols no_rows (omega arith)
examine_entity-Continues imports query image =
    examine-Continues import_row import_matches query 0 image.imports no_rows (omega arith)
examine_entity-Continues exports query image =
    examine-Continues export_row export_matches query 0 image.exports no_rows (omega arith)

-- What an answer promises: the whole table was examined, the rows are the first ones that the query
-- selects, up to its limit and in the order that it asks for, and it is marked as cut exactly when
-- more rows were selected.
pub record IsAnswer (query : ImageQuery) (image : BinaryImage) (r : QueryResult) : Type 0 where
  pub examined : r.examined ≡ entity_size query.entity image
  pub truncated : r.truncated ≡ ltb query.limit (length (entity_rows query.entity query image))
  pub rows : Perm r.rows (take query.limit (entity_rows query.entity query image))
  pub sorted : IsSorted (row_before query.ascending) r.rows

sorted-IsAnswer :
    (query : ImageQuery) (image : BinaryImage) (r : QueryResult)
    → r ≡ examine_entity query.entity query image
    → IsAnswer query image (record r { rows = sort_by (row_before query.ascending) r.rows })
sorted-IsAnswer query image r is =
    let c =
      subst
        (Continues query.limit no_rows (entity_rows query.entity query image)
          (entity_size query.entity image))
        (sym is) (examine_entity-Continues query.entity query image) in
    record {
      examined = omega (arith, c.examined);
      truncated = ground (arith, c.truncated);
      rows =
          subst (Perm (sort_by (row_before query.ascending) r.rows)) c.rows
            (sort_by-perm (row_before query.ascending) r.rows);
      sorted =
          sort_by-IsSorted (row_before query.ascending) (row_before-asymmetric query.ascending)
            r.rows;
    }

-- A query whose limit is from 1 to the symbol limit, that has no more predicates than the section
-- limit, and whose predicates have values of their fields' types, is answered: the whole table was
-- examined, the rows are the first ones that the query selects, up to its limit and in the order that
-- it asks for, and the answer is marked as cut exactly when more rows were selected.
pub execute-IsAnswer :
    (limits : Limits) (image : BinaryImage) (query : ImageQuery)
    → 0 < query.limit
    → query.limit ≤ limits.max_symbols
    → length query.predicates ≤ limits.max_sections
    → predicates_typed query.predicates ≡ true
    → (r : QueryResult) × (execute limits image query ≡ ok r) × IsAnswer query image r
unfolding execute
execute-IsAnswer limits image query some_rows few short typed =
    let r = examine_entity query.entity query image in
    (
      record r { rows = sort_by (row_before query.ascending) r.rows },
      ground (arith, typed, some_rows, few, short),
      sorted-IsAnswer query image r refl,
    )
