-- ===== src/Layout/Order.antt =====
-- The steps of src/layout.cc keep the total size of the regions, and leave them in order and apart.
use binforge.Prelude.{
  ℕ, ◌+◌, ◌-◌, ◌^◌, ◌≤◌, ◌<◌, ◌≡◌, refl, inl, inr, Bool, true, false, Option-cases, Bool-cases,
  List, [], ◌∷◌, All, ◌==◌, arith,
}
use mathlib.Core.Path.{subst}
use binforge.Base.{ok, Result-cases, Limits, checked_add}
use binforge.Base.Checked.{checked_add_bound, checked_add-some}
use binforge.Image.{Segment}
use binforge.Layout.{
  LayoutRegion, planned_region, planned_regions, insert_region, sort_regions, check_neighbours,
  is_mergeable, merged_region, merge_after, merge_regions, comes_before,
}

-- In order, not empty, within 64 bits, each above the end of the one before it.
abbrev pub IsOrdered : ℕ → List LayoutRegion → Type 0
IsOrdered lo [] = Unit {0}
IsOrdered lo (r ∷ rs) =
    (lo ≤ r.target_address)
    × (0 < r.target_size)
    × (r.target_address + r.target_size < 2 ^ 64)
    × IsOrdered (r.target_address + r.target_size) rs

abbrev pub IsProper : LayoutRegion → Type 0
IsProper r = (0 < r.target_size) × (r.target_address + r.target_size < 2 ^ 64)

abbrev pub target_total : List LayoutRegion → ℕ
target_total [] = 0
target_total (r ∷ rs) = r.target_size + target_total rs

-- The bytes that the segments ask for.
abbrev pub memory_total : List Segment → ℕ
memory_total [] = 0
memory_total (s ∷ segments) = s.memory_size + memory_total segments

module _ (limits : Limits) (load_base original_base : ℕ) (small : load_base < 2 ^ 64) where
  planned_region-IsProper :
      (s : Segment) (r : LayoutRegion)
      → 0 < s.memory_size
      → planned_region limits load_base original_base s ≡ ok r
      → IsProper r × (r.target_size ≡ s.memory_size)
  unfolding planned_region
  planned_region-IsProper s r h e =
      elim (Option-cases (checked_add load_base (s.virtual_address - original_base))) [
        | inl wraps ↦ ground (arith, wraps)
        | inr (address, at) ↦ elim (Option-cases (checked_add address s.memory_size)) [
          | inl wraps ↦ ground (arith, at, wraps)
          | inr (end, is) ↦
              let a =
                checked_add_bound load_base (s.virtual_address - original_base) address small at in
              let b = checked_add_bound address s.memory_size end (omega (arith, a)) is in
              ground (arith, at, is, a, b)
        ]
      ]

  pub planned_regions-IsProper :
      (segments : List Segment) (rs : List LayoutRegion)
      → planned_regions limits load_base original_base segments ≡ ok rs
      → All IsProper rs × (target_total rs ≡ memory_total segments)
  unfolding planned_regions
  planned_regions-IsProper [] [] e = (tt, refl)
  planned_regions-IsProper [] (r ∷ rs) e = ground arith
  planned_regions-IsProper (s ∷ segments) rs e = elim (Bool-cases (s.memory_size == 0)) [
    | inl nothing ↦
        let (proper, total) = planned_regions-IsProper segments rs (ground (arith, nothing)) in
        (proper, ground (arith, nothing, total))
    | inr something ↦ elim (Result-cases (planned_region limits load_base original_base s)) [
      | inr (x, bad) ↦ ground (arith, something, bad)
      | inl (q, good) ↦
          elim (Result-cases (planned_regions limits load_base original_base segments)) [
            | inr (x, bad) ↦ ground (arith, something, good, bad)
            | inl (qs, goods) ↦
                let here = planned_region-IsProper s q (ground (arith, something)) good in
                let there = planned_regions-IsProper segments qs goods in
                let is : rs ≡ q ∷ qs = ground (arith, something, good, goods) in
                rw is ((here.0, there.0), omega (arith, here, there))
          ]
    ]
  ]

insert_region-IsProper :
    (r : LayoutRegion) (rs : List LayoutRegion)
    → IsProper r
    → All IsProper rs
    → All IsProper (insert_region r rs)
      × (target_total (insert_region r rs) ≡ r.target_size + target_total rs)
unfolding insert_region
insert_region-IsProper r [] h hs = ((h, tt), refl)
insert_region-IsProper r (q ∷ qs) h hs =
    let rest = insert_region-IsProper r qs h hs.1 in
    elim (Bool-cases (comes_before q r)) [
      | inl later ↦ rw (later) ((hs.0, rest.0), omega (arith, rest))
      | inr first ↦ rw (first) ((h, hs), refl)
    ]

pub sort_regions-IsProper :
    (rs : List LayoutRegion)
    → All IsProper rs
    → All IsProper (sort_regions rs) × (target_total (sort_regions rs) ≡ target_total rs)
unfolding sort_regions
sort_regions-IsProper [] h = (tt, refl)
sort_regions-IsProper (r ∷ rs) h =
    let rest = sort_regions-IsProper rs h.1 in
    let here = insert_region-IsProper r (sort_regions rs) h.0 rest.0 in
    (here.0, omega (arith, here.1, rest.1))

pub check_neighbours-IsOrdered :
    (lo : ℕ) (r : LayoutRegion) (rs : List LayoutRegion)
    → lo ≤ r.target_address
    → All IsProper (r ∷ rs)
    → check_neighbours (r ∷ rs) ≡ ok tt
    → IsOrdered lo (r ∷ rs)
unfolding check_neighbours
check_neighbours-IsOrdered lo r [] low h e = (low, h.0.0, h.0.1, tt)
check_neighbours-IsOrdered lo r (q ∷ qs) low h e =
    let end = checked_add-some r.target_address r.target_size h.0.1 in
    (
      low,
      h.0.0,
      h.0.1,
      check_neighbours-IsOrdered (r.target_address + r.target_size) q qs (ground (arith, end, e))
          h.1 (ground (arith, end, e)),
    )

merged_region-end :
    (p r m : LayoutRegion)
    → p.target_address + p.target_size < 2 ^ 64
    → is_mergeable p r ≡ true
    → merged_region p r ≡ ok m
    → (p.target_address + p.target_size ≡ r.target_address)
      × (m.target_address ≡ p.target_address)
      × (m.target_size ≡ p.target_size + r.target_size)
unfolding is_mergeable merged_region checked_add
merged_region-end p r m h t e = ground arith

pub merge_after-IsOrdered :
    (lo : ℕ) (p : LayoutRegion) (rs out : List LayoutRegion)
    → IsOrdered lo (p ∷ rs)
    → merge_after p rs ≡ ok out
    → IsOrdered lo out × (target_total out ≡ target_total (p ∷ rs))
unfolding merge_after
merge_after-IsOrdered lo p [] out h e = let is : p ∷ [] ≡ out = ground arith in rw (← is) (h, refl)
merge_after-IsOrdered lo p (r ∷ rs) out h e = elim (Bool-cases (is_mergeable p r)) [
  | inl joins ↦ elim (Result-cases (merged_region p r)) [
    | inr (x, bad) ↦ ground (arith, joins, bad)
    | inl (m, good) ↦
        let (meets, begins, sizes) = merged_region-end p r m h.2 joins good in
        let ordered : IsOrdered (m.target_address + m.target_size) rs =
          subst (λ (n : ℕ). IsOrdered n rs) (omega (arith, meets, begins, sizes)) h.3.3 in
        let (rest, total) =
          merge_after-IsOrdered lo m rs out
            (
              omega (arith, begins, h),
              omega (arith, sizes, h),
              omega (arith, meets, begins, sizes, h),
              ordered,
            )
            (ground (arith, joins, good, e)) in
        (rest, omega (arith, total, sizes))
  ]
  | inr stands ↦ elim (Result-cases (merge_after r rs)) [
    | inr (x, bad) ↦ ground (arith, stands, bad)
    | inl (more, good) ↦
        let (rest, total) =
          merge_after-IsOrdered (p.target_address + p.target_size) r rs more h.3 good in
        let is : out ≡ p ∷ more = ground (arith, stands, good) in
        rw is ((h.0, h.1, h.2, rest), omega (arith, total))
  ]
]

pub merge_regions-IsOrdered :
    (wanted : Bool) (rs out : List LayoutRegion)
    → IsOrdered 0 rs
    → merge_regions wanted rs ≡ ok out
    → IsOrdered 0 out × (target_total out ≡ target_total rs)
unfolding merge_regions
merge_regions-IsOrdered false rs out h e = let is : rs ≡ out = ground arith in rw (← is) (h, refl)
merge_regions-IsOrdered true [] out h e = let is : [] ≡ out = ground arith in rw (← is) (tt, refl)
merge_regions-IsOrdered true (r ∷ rs) out h e = merge_after-IsOrdered 0 r rs out h e
