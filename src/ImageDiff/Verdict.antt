-- ===== src/ImageDiff/Verdict.antt =====
-- When src/image_diff.cc finds two images equivalent.
use binforge.Prelude.{ℕ, ◌+◌, ◌≤◌, ◌≡◌, refl, ◌↔◌, true, List, [], ◌∷◌, Text, arith}
use binforge.Base.{ok, Limits}
use binforge.Image.{BinaryImage, Segment, Import, Export}
use binforge.Query.{to_string}
use binforge.ImageDiff.{
  ImageDifference, ImageDiffReport, section_changed, segment_changed, symbol_changed, empty_report,
  section_description, segment_description, symbol_description, text_keys, number_keys,
}
use binforge.ImageDiff.Compare.{
  section_key, symbol_key, import_key, export_key, compare_sections, compare_segments,
  compare_symbols, compare_imports, compare_exports, compare_headers, items, item_limit,
  differences_of, is_empty, compare_images,
}
use binforge.ImageDiff.Tables.{described, first_with, text_keys-AreKeys, number_keys-AreKeys}
use binforge.ImageDiff.Rounds.{Clean, changed_description-Reports, compare_tables-Clean}
use binforge.ImageDiff.Same.{IsSame, compare_headers-Clean, compare_relocations-Clean}

module _ (a b : BinaryImage) (r : ImageDiffReport) where
  compare_sections-Clean : Clean (compare_sections a b r) ↔ (
      Clean r
      × ((k : Text)
          → described section_description (first_with text_keys section_key k a.sections)
            ≡ described section_description (first_with text_keys section_key k b.sections)))
  unfolding compare_sections
  compare_sections-Clean =
      compare_tables-Clean text_keys text_keys-AreKeys section_key section_description _ _ _
        (changed_description-Reports section_description λ key now left right. record {
          kind = section_changed;
          identity = key;
          before = left;
          after = right;
          address = now.virtual_address;
        })
        a.sections b.sections r

  compare_segments-Clean : Clean (compare_segments a b r) ↔ (
      Clean r
      × ((k : ℕ)
          → described segment_description
              (first_with number_keys (λ (s : Segment). s.virtual_address) k a.segments)
            ≡ described segment_description
                (first_with number_keys (λ (s : Segment). s.virtual_address) k b.segments)))
  unfolding compare_segments
  compare_segments-Clean =
      compare_tables-Clean number_keys number_keys-AreKeys (λ (s : Segment). s.virtual_address)
        segment_description _ _ _
        (changed_description-Reports segment_description λ key now left right. record {
          kind = segment_changed;
          identity = to_string key;
          before = left;
          after = right;
          address = key;
        })
        a.segments b.segments r

  compare_symbols-Clean : Clean (compare_symbols a b r) ↔ (
      Clean r
      × ((k : Text)
          → described symbol_description (first_with text_keys symbol_key k a.symbols)
            ≡ described symbol_description (first_with text_keys symbol_key k b.symbols)))
  unfolding compare_symbols
  compare_symbols-Clean =
      compare_tables-Clean text_keys text_keys-AreKeys symbol_key symbol_description _ _ _
        (changed_description-Reports symbol_description λ key now left right. record {
          kind = symbol_changed;
          identity = key;
          before = left;
          after = right;
          address = now.value;
        })
        a.symbols b.symbols r

  compare_imports-Clean : Clean (compare_imports a b r) ↔ (
      Clean r
      × ((k : Text)
          → described (λ (i : Import). []) (first_with text_keys import_key k a.imports)
            ≡ described (λ (i : Import). []) (first_with text_keys import_key k b.imports)))
  unfolding compare_imports
  compare_imports-Clean =
      compare_tables-Clean text_keys text_keys-AreKeys import_key (λ (i : Import). []) _ _ _
        (λ k v w. (λ h. refl, λ h. refl)) a.imports b.imports r

  compare_exports-Clean : Clean (compare_exports a b r) ↔ (
      Clean r
      × ((k : Text)
          → described (λ (e : Export). []) (first_with text_keys export_key k a.exports)
            ≡ described (λ (e : Export). []) (first_with text_keys export_key k b.exports)))
  unfolding compare_exports
  compare_exports-Clean =
      compare_tables-Clean text_keys text_keys-AreKeys export_key (λ (e : Export). []) _ _ _
        (λ k v w. (λ h. refl, λ h. refl)) a.exports b.exports r

differences_of-Clean : (a b : BinaryImage) → Clean (differences_of a b) ↔ IsSame a b
unfolding differences_of
differences_of-Clean a b =
    let r1 = compare_headers a b empty_report in
    let r2 = compare_sections a b r1 in
    let r3 = compare_segments a b r2 in
    let r4 = compare_symbols a b r3 in
    let r5 = compare_imports a b r4 in
    let c1 = compare_headers-Clean a b empty_report in
    let c2 = compare_sections-Clean a b r1 in
    let c3 = compare_segments-Clean a b r2 in
    let c4 = compare_symbols-Clean a b r3 in
    let c5 = compare_imports-Clean a b r4 in
    let c6 = compare_exports-Clean a b r5 in
    let c7 = compare_relocations-Clean 0 a.relocations b.relocations (compare_exports a b r5) in
    (
      λ h.
          let h7 = c7.0 h in
          let h6 = c6.0 h7.0 in
          let h5 = c5.0 h6.0 in
          let h4 = c4.0 h5.0 in
          let h3 = c3.0 h4.0 in
          let h2 = c2.0 h3.0 in
          let h1 = c1.0 h2.0 in
          record {
            header = h1.1;
            sections = h2.1;
            segments = h3.1;
            symbols = h4.1;
            imports = h5.1;
            exports = h6.1;
            relocations = h7.1;
          },
      λ h. c7.1 (
        c6.1 (
          c5.1 (
            c4.1 (c3.1 (c2.1 (c1.1 (refl, h.header), h.sections), h.segments), h.symbols),
            h.imports,
          ),
          h.exports,
        ),
        h.relocations,
      ),
    )

is_empty_iff : (ds : List ImageDifference) → (is_empty ds ≡ true) ↔ (ds ≡ [])
unfolding is_empty
is_empty_iff [] = (λ h. refl, λ h. refl)
is_empty_iff (d ∷ ds) = (λ h. ground (arith, h), λ h. ground (arith, h))

-- Two images that together have no more items than the limit are compared, and the report calls them
-- equivalent exactly when their headers agree, when behind every key each of their five other tables has
-- nothing in both or first values of the same description in both, and when their relocations agree in
-- order, number, kind, offset, symbol and addend.
pub compare_images-IsSame :
    (limits : Limits) (a b : BinaryImage)
    → items a + items b ≤ item_limit limits
    → (r : ImageDiffReport) × (compare_images limits a b ≡ ok r)
      × ((r.equivalent ≡ true) ↔ IsSame a b)
unfolding compare_images
compare_images-IsSame limits a b few =
    let d = differences_of a b in
    let clean = differences_of-Clean a b in
    let empty = is_empty_iff d.differences in
    (
      record d { equivalent = is_empty d.differences },
      ground (arith, few),
      (λ h. clean.0 (empty.0 h), λ h. empty.1 (clean.1 h)),
    )
