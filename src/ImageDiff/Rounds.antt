-- ===== src/ImageDiff/Rounds.antt =====
-- When the loops of src/image_diff.cc over two maps report nothing.
use binforge.Prelude.{
  ◌≡◌, sym, ap, ◌∙◌, ◌↔◌, inl, inr, Bool, true, false, Bool-cases, Option, none, some, Option-cases,
  List, [], ◌∷◌, ◌++◌, Text, text_eq, text_eq→eq, text_eq_self, All, All-map, arith,
}
use mathlib.Core.Path.{subst}
use binforge.ImageDiff.{
  ImageDifference, ImageDiffReport, add_difference, Keys, find, index_values, report_old,
  report_new, report_each, compare_tables, changed_description,
}
use binforge.ImageDiff.Tables.{
  AreKeys, described, first_with, find-index_values, IsMap, index_values-IsMap, All-find, distinct,
}

-- Nothing was reported.
abbrev pub Clean : ImageDiffReport → Type 0
Clean report = report.differences ≡ []

append-filled : (ds : List ImageDifference) (d : ImageDifference) → ds ++ (d ∷ []) ≡ [] → ⊥
append-filled [] d h = ground (arith, h)
append-filled (e ∷ ds) d h = ground (arith, h)

pub add_difference-unclean :
    (d : ImageDifference) (addition removal : Bool) (r : ImageDiffReport)
    → Clean (add_difference d addition removal r)
    → ⊥
unfolding add_difference
add_difference-unclean d true removal r h = append-filled r.differences d h
add_difference-unclean d false true r h = append-filled r.differences d h
add_difference-unclean d false false r h = append-filled r.differences d h

report_each-Clean :
    {A : Type 0} (step : A → ImageDiffReport → ImageDiffReport) (C : A → Type 0)
    → ((a : A) (r : ImageDiffReport) → Clean (step a r) ↔ (Clean r × C a))
    → (items : List A) (r : ImageDiffReport)
    → Clean (report_each step items r) ↔ (Clean r × All C items)
unfolding report_each
report_each-Clean step C each [] r = (λ h. (h, tt), λ h. h.0)
report_each-Clean step C each (a ∷ items) r =
    let rest = report_each-Clean step C each items (step a r) in
    let here = each a r in
    (
      λ h. let x = rest.0 h in let y = here.0 x.0 in (y.0, (y.1, x.1)),
      λ h. rest.1 (here.1 (h.0, h.1.0), h.1.1),
    )

-- A change is reported when the descriptions differ.
abbrev pub Reports : {K T : Type 0} → (T → Text) → (K → T → T → Option ImageDifference) → Type 0
Reports {K} {T} describe changed =
    (k : K) (v w : T) → (changed k v w ≡ none) ↔ (describe v ≡ describe w)

pub changed_description-Reports :
    {K T : Type 0} (describe : T → Text) (difference : K → T → Text → Text → ImageDifference)
    → Reports describe (λ (k : K) (v w : T). changed_description describe (difference k w) v w)
unfolding changed_description
changed_description-Reports describe difference k v w =
    elim (Bool-cases (text_eq (describe v) (describe w))) [
      | inl same ↦ (λ h. text_eq→eq (describe v) (describe w) same, λ h. ground (arith, same))
      | inr differs ↦ (
        λ h. ground (arith, h, differs),
        λ h.
            let self : text_eq (describe v) (describe w) ≡ true =
              subst (λ (t : Text). text_eq (describe v) t ≡ true) h (text_eq_self (describe v)) in
            ground (arith, self, differs),
      )
    ]

module _ {K T : Type 0} (keys : Keys K) (describe : T → Text) where
  abbrev Kept : List (K × T) → K × T → Type 0
  Kept after item = described describe (find keys item.0 after) ≡ some (describe item.1)

  abbrev Known : List (K × T) → K × T → Type 0
  Known before item = (w : T) × (find keys item.0 before ≡ some w)

  report_old-Clean :
      (removed : K → T → ImageDifference) (changed : K → T → T → Option ImageDifference)
      → Reports describe changed
      → (after : List (K × T)) (item : K × T) (r : ImageDiffReport)
      → Clean (report_old keys removed changed after item r) ↔ (Clean r × Kept after item)
  unfolding report_old
  report_old-Clean removed changed reports after (k, v) r =
      elim (Option-cases (find keys k after)) [
        | inl gone ↦ (
          λ h.
              let is : report_old keys removed changed after (k, v) r
                  ≡ add_difference (removed k v) false true r =
                ground (arith, gone) in
              absurd (add_difference-unclean (removed k v) false true r (subst Clean is h)),
          λ h. ground (arith, h.1, gone),
        )
        | inr (w, there) ↦ elim (Option-cases (changed k v w)) [
          | inl same ↦
              let alike : describe v ≡ describe w = (reports k v w).0 same in
              (
                λ h. (ground (arith, h, there, same), ground (arith, there, alike)),
                λ h. ground (arith, h.0, there, same),
              )
          | inr (d, differs) ↦ (
            λ h.
                let is : report_old keys removed changed after (k, v) r
                    ≡ add_difference d false false r =
                  ground (arith, there, differs) in
                absurd (add_difference-unclean d false false r (subst Clean is h)),
            λ h.
                let alike : describe w ≡ describe v = ground (arith, h.1, there) in
                absurd (distinct ((reports k v w).1 (sym alike)) differs),
          )
        ]
      ]

  report_new-Clean :
      (added : K → T → ImageDifference) (before : List (K × T)) (item : K × T) (r : ImageDiffReport)
      → Clean (report_new keys added before item r) ↔ (Clean r × Known before item)
  unfolding report_new
  report_new-Clean added before (k, v) r = elim (Option-cases (find keys k before)) [
    | inl gone ↦ (
      λ h.
          let is : report_new keys added before (k, v) r ≡ add_difference (added k v) true false r =
            ground (arith, gone) in
          absurd (add_difference-unclean (added k v) true false r (subst Clean is h)),
      λ h. absurd (distinct gone h.1.1),
    )
    | inr (w, there) ↦
        (λ h. (ground (arith, h, there), (w, there)), λ h. ground (arith, h.0, there))
  ]

  -- Two maps whose entries agree have the same description behind every key, and conversely.
  module _ (laws : AreKeys keys) (before after : List (K × T)) where
    agree-everywhere :
        All (Kept after) before
        → All (Known before) after
        → (k : K) → described describe (find keys k before) ≡ described describe (find keys k after)
    agree-everywhere old new k = elim (Option-cases (find keys k before)) [
      | inr (v, there) ↦
          let kept : described describe (find keys k after) ≡ some (describe v) =
            All-find keys laws (Kept after) k v before there old in
          ground (arith, there, kept)
      | inl gone ↦ elim (Option-cases (find keys k after)) [
        | inl gone' ↦ ground (arith, gone, gone')
        | inr (w, now) ↦
            let known : Known before (k, w) = All-find keys laws (Known before) k w after now new in
            absurd (distinct gone known.1)
      ]
    ]

    module _
        (agree : (k : K)
          → described describe (find keys k before) ≡ described describe (find keys k after)) where
      everywhere-Kept : IsMap keys laws before → All (Kept after) before
      everywhere-Kept is =
          All-map before is λ e found. sym (agree e.0) ∙ ap (described describe) found

      everywhere-Known : IsMap keys laws after → All (Known before) after
      everywhere-Known is = All-map after is λ e found. elim (Option-cases (find keys e.0 before)) [
        | inr known ↦ known
        | inl gone ↦
            let now : described describe (find keys e.0 before) ≡ some (describe e.1) =
              agree e.0 ∙ ap (described describe) found in
            ground (arith, now, gone)
      ]

pub compare_tables-Clean :
    {K T : Type 0} (keys : Keys K) (laws : AreKeys keys) (key : T → K) (describe : T → Text)
    (removed : K → T → ImageDifference) (changed : K → T → T → Option ImageDifference)
    (added : K → T → ImageDifference)
    → Reports describe changed
    → (before after : List T) (r : ImageDiffReport)
    → Clean (compare_tables keys key removed changed added before after r) ↔ (
        Clean r
        × ((k : K)
            → described describe (first_with keys key k before)
              ≡ described describe (first_with keys key k after)))
unfolding compare_tables
compare_tables-Clean {K} {T} keys laws key describe removed changed added reports before after r =
    let old : List (K × T) = index_values keys key before in
    let new : List (K × T) = index_values keys key after in
    let first =
      report_each-Clean (report_old keys removed changed new) (Kept keys describe new)
        (report_old-Clean keys describe removed changed reports new) old r in
    let second =
      report_each-Clean (report_new keys added old) (Known keys describe old)
        (report_new-Clean keys describe added old) new
        (report_each (report_old keys removed changed new) old r) in
    let is : (values : List T) (k : K)
        → described describe (find keys k (index_values keys key values))
          ≡ described describe (first_with keys key k values) =
      λ values k. ap (described describe) (find-index_values keys laws key k values) in
    (
      λ h.
          let x = second.0 h in
          let y = first.0 x.0 in
          (
            y.0,
            λ k.
                sym (is before k)
                ∙ agree-everywhere keys describe laws old new y.1 x.1 k
                ∙ is after k,
          ),
      λ h.
          let agree : (k : K)
              → described describe (find keys k old) ≡ described describe (find keys k new) =
            λ k. is before k ∙ h.1 k ∙ sym (is after k) in
          second.1 (
            first.1 (
              h.0,
              everywhere-Kept keys describe laws old new agree
                  (index_values-IsMap keys laws key before),
            ),
            everywhere-Known keys describe laws old new agree
                (index_values-IsMap keys laws key after),
          ),
    )
