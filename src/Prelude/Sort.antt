-- ===== src/Prelude/Sort.antt =====
-- `std::sort` by a comparison, as insertion: items of which neither comes before the other keep their
-- order, as `std::stable_sort` says, and as `std::sort` leaves open.
use mathlib.Core.Path.{◌≡◌}
use mathlib.Core.Logic.{inl, inr}
use mathlib.Core.Bool.{Bool, true, false}
use mathlib.Core.List.{List, [], ◌∷◌, Perm}
use mathlib.Core.List.Perm
use binforge.Prelude.Tests.{if◌then◌else◌, Bool-cases}

module _ {A : Type 0} (before : A → A → Bool) where
  unfoldable pub insert_by : A → List A → List A
  insert_by x [] = x ∷ []
  insert_by x (y ∷ ys) = if before y x then y ∷ insert_by x ys else x ∷ y ∷ ys

  unfoldable pub sort_by : List A → List A
  unfolding insert_by
  sort_by [] = []
  sort_by (x ∷ xs) = insert_by x (sort_by xs)

  insert_by-perm : (x : A) (ys : List A) → Perm (insert_by x ys) (x ∷ ys)
  unfolding insert_by
  insert_by-perm x [] = Perm.rfl
  insert_by-perm x (y ∷ ys) = elim (Bool-cases (before y x)) [
    | inl later ↦ rw later (Perm.trans (Perm.cons y (insert_by-perm x ys)) (Perm.swap x y ys))
    | inr here ↦ rw here Perm.rfl
  ]

  pub sort_by-perm : (xs : List A) → Perm (sort_by xs) xs
  unfolding sort_by
  sort_by-perm [] = Perm.rfl
  sort_by-perm (x ∷ xs) = Perm.trans (insert_by-perm x (sort_by xs)) (Perm.cons x (sort_by-perm xs))

  -- No item comes before the one in front of it.
  abbrev pub IsAfter : A → List A → Type 0
  IsAfter x [] = Unit {0}
  IsAfter x (y ∷ ys) = before y x ≡ false

  abbrev pub IsSorted : List A → Type 0
  IsSorted [] = Unit {0}
  IsSorted (x ∷ xs) = IsAfter x xs × IsSorted xs

  module _ (asymmetric : (x y : A) → before x y ≡ true → before y x ≡ false) where
    insert_by-IsAfter :
        (p x : A) (ys : List A) → before x p ≡ false → IsAfter p ys → IsAfter p (insert_by x ys)
    unfolding insert_by
    insert_by-IsAfter p x [] h k = h
    insert_by-IsAfter p x (y ∷ ys) h k = elim (Bool-cases (before y x)) [
      | inl later ↦ rw later k
      | inr here ↦ rw here h
    ]

    insert_by-IsSorted : (x : A) (ys : List A) → IsSorted ys → IsSorted (insert_by x ys)
    unfolding insert_by
    insert_by-IsSorted x [] h = (tt, tt)
    insert_by-IsSorted x (y ∷ ys) h = elim (Bool-cases (before y x)) [
      | inl later ↦
          rw later
            (insert_by-IsAfter y x ys (asymmetric y x later) h.0, insert_by-IsSorted x ys h.1)
      | inr here ↦ rw here (here, h)
    ]

    pub sort_by-IsSorted : (xs : List A) → IsSorted (sort_by xs)
    unfolding sort_by
    sort_by-IsSorted [] = tt
    sort_by-IsSorted (x ∷ xs) = insert_by-IsSorted x (sort_by xs) (sort_by-IsSorted xs)
