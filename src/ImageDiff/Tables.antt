-- ===== src/ImageDiff/Tables.antt =====
-- The maps of src/image_diff.cc, and when its loops over two of them report nothing.
use binforge.Prelude.{
  ◌≡◌, refl, sym, inl, inr, true, Bool-cases, Option, none, some, Option-cases, List, [], ◌∷◌,
  if◌then◌else◌, Text, text_eq→eq, text_eq_self, ==→eq, ==_self, All, All-map, arith,
}
use mathlib.Core.Path.{subst}
use binforge.ImageDiff.{
  Keys, text_keys, number_keys, find, place_entry, emplace, index_from, index_values,
}

pub record AreKeys {K : Type 0} (keys : Keys K) : Type 0 where
  pub sound : (a b : K) → keys.same a b ≡ true → a ≡ b
  pub self : (a : K) → keys.same a a ≡ true

pub text_keys-AreKeys : AreKeys text_keys
text_keys-AreKeys = record { sound = text_eq→eq; self = text_eq_self }

pub number_keys-AreKeys : AreKeys number_keys
number_keys-AreKeys = record { sound = ==→eq; self = ==_self }

-- What stands behind an option.
abbrev pub described : {T : Type 0} → (T → Text) → Option T → Option Text
described describe none = none
described describe (some value) = some (describe value)

module _ {K T : Type 0} (keys : Keys K) where
  -- The first value of this key.
  unfoldable pub first_with : (T → K) → K → List T → Option T
  first_with key k [] = none
  first_with key k (value ∷ values) =
      if keys.same k (key value) then some value else first_with key k values

abbrev or_else : {T : Type 0} → Option T → Option T → Option T
or_else (some a) b = some a
or_else none b = b

pub distinct : {T : Type 0} {a : T} {o : Option T} → o ≡ none → o ≡ some a → ⊥
distinct {T} {a} {o} h k = ground (arith, h, k)

module _ {K T : Type 0} (keys : Keys K) (laws : AreKeys keys) where
  find-place_entry :
      (k k' : K) (v : T) (m : List (K × T))
      → find keys k m ≡ none
      → find keys k' (place_entry keys k v m) ≡ (if keys.same k' k then some v else find keys k' m)
  unfolding find place_entry
  find-place_entry k k' v [] h = refl
  find-place_entry k k' v ((key, value) ∷ m) h = elim (Bool-cases (keys.below k key)) [
    | inl lower ↦ ground (arith, lower)
    | inr higher ↦ elim (Bool-cases (keys.same k key)) [
      | inl there ↦ ground (arith, there)
      | inr other ↦
          let rest : find keys k' (place_entry keys k v m)
              ≡ (if keys.same k' k then some v else find keys k' m) =
            find-place_entry k k' v m (ground (arith, other)) in
          elim (Bool-cases (keys.same k' key)) [
            | inl here ↦ elim (Bool-cases (keys.same k' k)) [
              | inl same ↦
                  let clash : keys.same k key ≡ true =
                    subst (λ (x : K). keys.same x key ≡ true) (laws.sound k' k same) here in
                  ground (arith, clash, other)
              | inr differs ↦ ground (arith, higher, here, differs)
            ]
            | inr away ↦ ground (arith, higher, away, rest)
          ]
    ]
  ]

  find-emplace :
      (k k' : K) (v : T) (m : List (K × T))
      → find keys k' (emplace keys k v m)
        ≡ or_else (find keys k' m) (if keys.same k' k then some v else none)
  unfolding emplace
  find-emplace k k' v m = elim (Bool-cases (keys.same k' k)) [
    | inl same ↦
        let is : k' ≡ k = laws.sound k' k same in
        elim (Option-cases (find keys k m)) [
          | inl absent ↦
              let gone : find keys k' m ≡ none =
                subst (λ (x : K). find keys x m ≡ none) (sym is) absent in
              ground (arith, absent, gone, same, find-place_entry k k' v m absent)
          | inr (w, there) ↦
              let kept : find keys k' m ≡ some w =
                subst (λ (x : K). find keys x m ≡ some w) (sym is) there in
              ground (arith, there, kept, same)
        ]
    | inr differs ↦ elim (Option-cases (find keys k m)) [
      | inl absent ↦ elim (Option-cases (find keys k' m)) [
        | inl gone ↦ ground (arith, absent, gone, differs, find-place_entry k k' v m absent)
        | inr (w, kept) ↦ ground (arith, absent, kept, differs, find-place_entry k k' v m absent)
      ]
      | inr (w, there) ↦ elim (Option-cases (find keys k' m)) [
        | inl gone ↦ ground (arith, there, gone, differs)
        | inr (w', kept) ↦ ground (arith, there, kept, differs)
      ]
    ]
  ]

  find-index_from :
      (key : T → K) (k : K) (values : List T) (m : List (K × T))
      → find keys k (index_from keys key values m)
        ≡ or_else (find keys k m) (first_with keys key k values)
  unfolding index_from first_with
  find-index_from key k [] m = elim (Option-cases (find keys k m)) [
    | inl absent ↦ ground (arith, absent)
    | inr (w, there) ↦ ground (arith, there)
  ]
  find-index_from key k (v ∷ values) m =
      let rest = find-index_from key k values (emplace keys (key v) v m) in
      let step = find-emplace (key v) k v m in
      elim (Option-cases (find keys k m)) [
        | inl absent ↦ elim (Bool-cases (keys.same k (key v))) [
          | inl same ↦ ground (arith, absent, same, rest, step)
          | inr differs ↦ ground (arith, absent, differs, rest, step)
        ]
        | inr (w, there) ↦ ground (arith, there, rest, step)
      ]

  pub find-index_values :
      (key : T → K) (k : K) (values : List T)
      → find keys k (index_values keys key values) ≡ first_with keys key k values
  unfolding index_values find
  find-index_values key k values = find-index_from key k values []

  All-place_entry :
      (P : K × T → Type 0) (k : K) (v : T) (m : List (K × T))
      → P (k, v)
      → All P m
      → All P (place_entry keys k v m)
  unfolding place_entry
  All-place_entry P k v [] p all = (p, tt)
  All-place_entry P k v (entry ∷ m) p all =
      let rest = All-place_entry P k v m p all.1 in
      elim (Bool-cases (keys.below k entry.0)) [
        | inl lower ↦ rw lower (p, all)
        | inr higher ↦ rw higher (all.0, rest)
      ]

  -- Every entry of a map is the one that is found.
  abbrev pub IsMap : List (K × T) → Type 0
  IsMap m = All (λ (e : K × T). find keys e.0 m ≡ some e.1) m

  -- An entry of the map is found as well when another key was placed.
  found-place_entry :
      (k : K) (v : T) (m : List (K × T))
      → find keys k m ≡ none
      → (e : K × T) → find keys e.0 m ≡ some e.1
      → find keys e.0 (place_entry keys k v m) ≡ some e.1
  found-place_entry k v m absent e found = elim (Bool-cases (keys.same e.0 k)) [
    | inl same ↦
        let gone : find keys e.0 m ≡ none =
          subst (λ (x : K). find keys x m ≡ none) (sym (laws.sound e.0 k same)) absent in
        absurd (distinct gone found)
    | inr differs ↦ ground (arith, differs, found, find-place_entry k e.0 v m absent)
  ]

  place_entry-IsMap :
      (k : K) (v : T) (m : List (K × T))
      → find keys k m ≡ none
      → IsMap m
      → IsMap (place_entry keys k v m)
  place_entry-IsMap k v m absent is =
      All-place_entry (λ (e : K × T). find keys e.0 (place_entry keys k v m) ≡ some e.1) k v m
        (ground (arith, laws.self k, find-place_entry k k v m absent))
        (All-map m is (found-place_entry k v m absent))

  emplace-IsMap : (k : K) (v : T) (m : List (K × T)) → IsMap m → IsMap (emplace keys k v m)
  unfolding emplace
  emplace-IsMap k v m is = elim (Option-cases (find keys k m)) [
    | inr (w, there) ↦
        let same : emplace keys k v m ≡ m = ground (arith, there) in subst IsMap (sym same) is
    | inl absent ↦
        let placed : emplace keys k v m ≡ place_entry keys k v m = ground (arith, absent) in
        subst IsMap (sym placed) (place_entry-IsMap k v m absent is)
  ]

  index_from-IsMap :
      (key : T → K) (values : List T) (m : List (K × T))
      → IsMap m
      → IsMap (index_from keys key values m)
  unfolding index_from
  index_from-IsMap key [] m is = is
  index_from-IsMap key (v ∷ values) m is =
      index_from-IsMap key values (emplace keys (key v) v m) (emplace-IsMap (key v) v m is)

  pub index_values-IsMap : (key : T → K) (values : List T) → IsMap (index_values keys key values)
  unfolding index_values
  index_values-IsMap key values = index_from-IsMap key values [] tt

  -- What holds of all entries holds of the one that is found.
  pub All-find :
      (P : K × T → Type 0) (k : K) (v : T) (m : List (K × T))
      → find keys k m ≡ some v
      → All P m
      → P (k, v)
  unfolding find
  All-find P k v [] found all = ground (arith, found)
  All-find P k v ((key, value) ∷ m) found all = elim (Bool-cases (keys.same k key)) [
    | inl same ↦
        let is : value ≡ v = ground (arith, found, same) in
        subst (λ (x : K). P (x, v)) (sym (laws.sound k key same))
          (subst (λ (x : T). P (key, x)) is all.0)
    | inr differs ↦ All-find P k v m (ground (arith, found, differs)) all.1
  ]
