-- ===== src/ImageDiff/Same.antt =====
-- What two images share that src/image_diff.cc calls equivalent, and when its tests of the header and of
-- the relocations report nothing.
use binforge.Prelude.{
  ℕ, ◌+◌, ◌≡◌, refl, sym, ap, ◌↔◌, inl, inr, Bool, true, false, Bool-cases, List, [], ◌∷◌, map,
  Text, text, if◌then◌else◌, and_true, and_intro, ==→eq, arith, ◌==◌,
}
use mathlib.Core.Path.{subst}
use binforge.Image.{BinaryImage, FileHeader, Segment, Relocation, Import, Export}
use binforge.Manifest.Codes.{format_code, order_code, kind_code, architecture_code, relocation_code}
use binforge.ImageDiff.{
  ImageDifference, ImageDiffReport, header_changed, relocation_changed, add_difference,
  section_description, segment_description, symbol_description, text_keys, number_keys,
}
use binforge.ImageDiff.Compare.{
  section_key, symbol_key, import_key, export_key, same_relocation, compare_relocations, word_bytes,
  same_header, compare_headers,
}
use binforge.Query.{to_string}
use binforge.ImageDiff.Tables.{described, first_with}
use binforge.ImageDiff.Rounds.{Clean, add_difference-unclean}

pub record IsSameHeader (a b : FileHeader) : Type 0 where
  pub format : format_code a.format ≡ format_code b.format
  pub word_size : word_bytes a.word_size ≡ word_bytes b.word_size
  pub byte_order : order_code a.byte_order ≡ order_code b.byte_order
  pub kind : kind_code a.kind ≡ kind_code b.kind
  pub architecture : architecture_code a.architecture ≡ architecture_code b.architecture
  pub entry_point : a.entry_point ≡ b.entry_point
  pub image_base : a.image_base ≡ b.image_base
  pub flags : a.flags ≡ b.flags

-- What a comparison looks at of a relocation.
pub record Place : Type 0 where
  pub kind : ℕ
  pub offset : ℕ
  pub symbol_index : ℕ
  pub addend : ℕ

abbrev pub place_of : Relocation → Place
place_of r = record {
  kind = relocation_code r.kind;
  offset = r.offset;
  symbol_index = r.symbol_index;
  addend = r.addend;
}

-- The images have the same header; behind every key they have, in each table, nothing or values of the
-- same description; and they have the same relocations.
pub record IsSame (a b : BinaryImage) : Type 0 where
  pub header : IsSameHeader a.header b.header
  pub sections :
      (k : Text)
      → described section_description (first_with text_keys section_key k a.sections)
        ≡ described section_description (first_with text_keys section_key k b.sections)
  pub segments :
      (k : ℕ)
      → described segment_description
          (first_with number_keys (λ (s : Segment). s.virtual_address) k a.segments)
        ≡ described segment_description
            (first_with number_keys (λ (s : Segment). s.virtual_address) k b.segments)
  pub symbols :
      (k : Text)
      → described symbol_description (first_with text_keys symbol_key k a.symbols)
        ≡ described symbol_description (first_with text_keys symbol_key k b.symbols)
  pub imports :
      (k : Text)
      → described (λ (i : Import). []) (first_with text_keys import_key k a.imports)
        ≡ described (λ (i : Import). []) (first_with text_keys import_key k b.imports)
  pub exports :
      (k : Text)
      → described (λ (e : Export). []) (first_with text_keys export_key k a.exports)
        ≡ described (λ (e : Export). []) (first_with text_keys export_key k b.exports)
  pub relocations : map place_of a.relocations ≡ map place_of b.relocations

equal_test : (a b : ℕ) → a ≡ b → (a == b) ≡ true
equal_test a b h = ground (arith, h)

same_header_iff : (a b : FileHeader) → (same_header a b ≡ true) ↔ IsSameHeader a b
unfolding same_header
same_header_iff a b = (
  λ h.
      let (format, h1) = and_true h in
      let (word_size, h2) = and_true h1 in
      let (byte_order, h3) = and_true h2 in
      let (kind, h4) = and_true h3 in
      let (architecture, h5) = and_true h4 in
      let (entry_point, h6) = and_true h5 in
      let (image_base, flags) = and_true h6 in
      record {
        format = ==→eq (format_code a.format) (format_code b.format) format;
        word_size = ==→eq (word_bytes a.word_size) (word_bytes b.word_size) word_size;
        byte_order = ==→eq (order_code a.byte_order) (order_code b.byte_order) byte_order;
        kind = ==→eq (kind_code a.kind) (kind_code b.kind) kind;
        architecture =
            ==→eq (architecture_code a.architecture) (architecture_code b.architecture)
              architecture;
        entry_point = ==→eq a.entry_point b.entry_point entry_point;
        image_base = ==→eq a.image_base b.image_base image_base;
        flags = ==→eq a.flags b.flags flags;
      },
  λ h. and_intro (equal_test (format_code a.format) (format_code b.format) h.format) (
      and_intro (equal_test (word_bytes a.word_size) (word_bytes b.word_size) h.word_size) (
        and_intro (equal_test (order_code a.byte_order) (order_code b.byte_order) h.byte_order) (
          and_intro (equal_test (kind_code a.kind) (kind_code b.kind) h.kind) (
            and_intro
              (equal_test (architecture_code a.architecture) (architecture_code b.architecture)
                h.architecture)
              (and_intro (equal_test a.entry_point b.entry_point h.entry_point) (
                and_intro (equal_test a.image_base b.image_base h.image_base)
                  (equal_test a.flags b.flags h.flags))))))),
)

same_relocation_iff : (a b : Relocation) → (same_relocation a b ≡ true) ↔ (place_of a ≡ place_of b)
unfolding same_relocation
same_relocation_iff a b = (
  λ h.
      let kind : relocation_code a.kind ≡ relocation_code b.kind = ground (arith, h) in
      let offset : a.offset ≡ b.offset = ground (arith, h) in
      let symbol : a.symbol_index ≡ b.symbol_index = ground (arith, h) in
      let addend : a.addend ≡ b.addend = ground (arith, h) in cc (kind, offset, symbol, addend),
  λ h.
      let kind : relocation_code a.kind ≡ relocation_code b.kind = ap (λ (p : Place). p.kind) h in
      let offset : a.offset ≡ b.offset = ap (λ (p : Place). p.offset) h in
      let symbol : a.symbol_index ≡ b.symbol_index = ap (λ (p : Place). p.symbol_index) h in
      let addend : a.addend ≡ b.addend = ap (λ (p : Place). p.addend) h in
      ground (arith, kind, offset, symbol, addend),
)

pub compare_headers-Clean :
    (a b : BinaryImage) (r : ImageDiffReport)
    → Clean (compare_headers a b r) ↔ (Clean r × IsSameHeader a.header b.header)
unfolding compare_headers
compare_headers-Clean a b r = elim (Bool-cases (same_header a.header b.header)) [
  | inl same ↦
      let is : compare_headers a b r ≡ r = ground (arith, same) in
      (
        λ h. (subst Clean is h, (same_header_iff a.header b.header).0 same),
        λ h. subst Clean (sym is) h.0,
      )
  | inr differs ↦
      let d : ImageDifference = record {
        kind = header_changed;
        identity = text "header";
        before = text "before";
        after = text "after";
        address = b.header.entry_point;
      } in
      let is : compare_headers a b r ≡ add_difference d false false r = ground (arith, differs) in
      (
        λ h. absurd (add_difference-unclean d false false r (subst Clean is h)),
        λ h. ground (arith, (same_header_iff a.header b.header).1 h.1, differs),
      )
]

module _ {A : Type 0} where
  unlike : (x : A) (xs : List A) → x ∷ xs ≡ [] → ⊥
  unlike x xs h = ground (arith, h)

  cons_same : {x y : A} {xs ys : List A} → x ≡ y → xs ≡ ys → x ∷ xs ≡ y ∷ ys
  cons_same h k = cc (h, k)

  same_cons : {x y : A} {xs ys : List A} → x ∷ xs ≡ y ∷ ys → (x ≡ y) × (xs ≡ ys)
  same_cons h = (cc h, cc h)

abbrev changed_relocation : ℕ → Relocation → ImageDiffReport → ImageDiffReport
changed_relocation n now r =
    add_difference
      (record {
        kind = relocation_changed;
        identity = to_string n;
        before = text "present";
        after = text "present";
        address = now.offset;
      })
      false false r

changed_relocation-unclean :
    (n : ℕ) (now : Relocation) (r : ImageDiffReport) → Clean (changed_relocation n now r) → ⊥
changed_relocation-unclean n now r =
    add_difference-unclean
      (record {
        kind = relocation_changed;
        identity = to_string n;
        before = text "present";
        after = text "present";
        address = now.offset;
      })
      false false r

-- The relocations that are left agree.
pub compare_relocations-Clean :
    (n : ℕ) (before after : List Relocation) (r : ImageDiffReport)
    → Clean (compare_relocations n before after r)
      ↔ (Clean r × (map place_of before ≡ map place_of after))
unfolding compare_relocations
compare_relocations-Clean n [] [] r = (λ h. (h, refl), λ h. h.0)
compare_relocations-Clean n (old ∷ before) [] r =
    let d : ImageDifference = record {
      kind = relocation_changed;
      identity = to_string n;
      before = text "present";
      after = [];
      address = old.offset;
    } in
    let rest = compare_relocations-Clean (n + 1) before [] (add_difference d false true r) in
    (
      λ h. absurd (add_difference-unclean d false true r (rest.0 h).0),
      λ h. absurd (unlike (place_of old) (map place_of before) h.1),
    )
compare_relocations-Clean n [] (now ∷ after) r =
    let d : ImageDifference = record {
      kind = relocation_changed;
      identity = to_string n;
      before = [];
      after = text "present";
      address = now.offset;
    } in
    let rest = compare_relocations-Clean (n + 1) [] after (add_difference d true false r) in
    (
      λ h. absurd (add_difference-unclean d true false r (rest.0 h).0),
      λ h. absurd (unlike (place_of now) (map place_of after) (sym h.1)),
    )
compare_relocations-Clean n (old ∷ before) (now ∷ after) r =
    elim (Bool-cases (same_relocation old now)) [
      | inl same ↦
          let rest = compare_relocations-Clean (n + 1) before after r in
          let is : compare_relocations n (old ∷ before) (now ∷ after) r
              ≡ compare_relocations (n + 1) before after r =
            ap
              (λ (c : Bool).
                compare_relocations (n + 1) before after
                  (if c then r else changed_relocation n now r))
              same in
          let here : place_of old ≡ place_of now = (same_relocation_iff old now).0 same in
          (
            λ h. let x = rest.0 (subst Clean is h) in (x.0, cons_same here x.1),
            λ h. subst Clean (sym is) (rest.1 (h.0, (same_cons h.1).1)),
          )
      | inr differs ↦
          let rest = compare_relocations-Clean (n + 1) before after (changed_relocation n now r) in
          let is : compare_relocations n (old ∷ before) (now ∷ after) r
              ≡ compare_relocations (n + 1) before after (changed_relocation n now r) =
            ap
              (λ (c : Bool).
                compare_relocations (n + 1) before after
                  (if c then r else changed_relocation n now r))
              differs in
          (
            λ h. absurd (changed_relocation-unclean n now r (rest.0 (subst Clean is h)).0),
            λ h. ground (arith, (same_relocation_iff old now).1 (same_cons h.1).0, differs),
          )
    ]
