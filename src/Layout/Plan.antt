-- ===== src/Layout/Plan.antt =====
-- What a plan of `LayoutPlanner::plan` says of its image.
use binforge.Prelude.{
  ℕ, ◌+◌, ◌^◌, ◌≤◌, ◌<◌, ◌≡◌, refl, ap, sym, inl, inr, min, Bool, Option-cases, Bool-cases, List,
  [], ◌∷◌, All, ◌==◌, if◌then◌else◌, arith,
}
use mathlib.Core.Path.{subst}
use binforge.Base.{Error, Result, ok, err, Result-cases, Limits, checked_add, u64_max}
use binforge.Base.Checked.{checked_add_bound, checked_add-some}
use binforge.Image.{BinaryImage, Segment}
use binforge.Validator.{validate}
use binforge.Layout.{
  LayoutRegion, LayoutPlan, lowest_address, planned_regions, sort_regions, check_neighbours,
  merge_regions, last_region, plan_bounds, plan_totals, finish_plan, plan_segments, plan,
  empty_plan,
}
use binforge.Layout.Order.{
  IsOrdered, IsProper, target_total, memory_total, planned_regions-IsProper, sort_regions-IsProper,
  check_neighbours-IsOrdered, merge_regions-IsOrdered,
}

-- What a plan promises: its regions are ordered, not empty and apart, they hold as many bytes as it
-- says, which are those that the segments ask for, within the limit, and its range is from the
-- first region's begin to an end that no region passes.
pub record IsPlan (limits : Limits) (segments : List Segment) (p : LayoutPlan) : Type 0 where
  pub ordered : IsOrdered 0 p.regions
  pub counted : p.mapped_bytes ≡ target_total p.regions
  pub whole : p.mapped_bytes ≡ memory_total segments
  pub within : p.mapped_bytes ≤ limits.max_mapped_bytes
  pub inside :
      All
        (λ r. (p.image_begin ≤ r.target_address) × (r.target_address + r.target_size ≤ p.image_end))
        p.regions

lowest_address-le : (segments : List Segment) (least : ℕ) → lowest_address segments least ≤ least
unfolding lowest_address
lowest_address-le [] least = omega arith
lowest_address-le (s ∷ segments) least =
    omega (arith, lowest_address-le segments (min least s.virtual_address))

plan_totals-target :
    (rs : List LayoutRegion) (mapped filed : ℕ) (t : ℕ × ℕ)
    → mapped < 2 ^ 64
    → plan_totals rs mapped filed ≡ ok t
    → t.0 ≡ mapped + target_total rs
unfolding plan_totals
plan_totals-target [] mapped filed t h e = ground arith
plan_totals-target (r ∷ rs) mapped filed t h e =
    elim (Option-cases (checked_add mapped r.target_size)) [
      | inl wraps ↦ ground (arith, wraps)
      | inr (m, good) ↦ elim (Option-cases (checked_add filed r.source_size)) [
        | inl wraps ↦ ground (arith, good, wraps)
        | inr (f, fine) ↦
            let b = checked_add_bound mapped r.target_size m h good in
            let rest =
              plan_totals-target rs m f t (omega (arith, b)) (ground (arith, good, fine, e)) in
            omega (arith, rest, b)
      ]
    ]

-- In an ordered list no region passes the end of the last.
within_last :
    (lo begin : ℕ) (r : LayoutRegion) (rs : List LayoutRegion)
    → IsOrdered lo (r ∷ rs)
    → begin ≤ r.target_address
    → All
        (λ q.
          (begin ≤ q.target_address)
          × (q.target_address + q.target_size
              ≤ (last_region r rs).target_address + (last_region r rs).target_size))
        (r ∷ rs)
unfolding last_region
within_last lo begin r [] h b = ((b, omega arith), tt)
within_last lo begin r (q ∷ qs) h b =
    let rest =
      within_last (r.target_address + r.target_size) begin q qs h.3 (omega (arith, h, b)) in
    ((b, omega (arith, rest.0.1, h)), rest)

last_fits :
    (lo : ℕ) (r : LayoutRegion) (rs : List LayoutRegion)
    → IsOrdered lo (r ∷ rs)
    → (last_region r rs).target_address + (last_region r rs).target_size < 2 ^ 64
unfolding last_region
last_fits lo r [] h = h.2
last_fits lo r (q ∷ qs) h = last_fits (r.target_address + r.target_size) q qs h.3

abbrev IsInside : ℕ → ℕ → LayoutRegion → Type 0
IsInside begin end r = (begin ≤ r.target_address) × (r.target_address + r.target_size ≤ end)

plan_bounds-IsInside :
    (rs : List LayoutRegion) (b : ℕ × ℕ)
    → IsOrdered 0 rs
    → plan_bounds rs ≡ ok b
    → All (IsInside b.0 b.1) rs
unfolding plan_bounds
plan_bounds-IsInside [] b h e = tt
plan_bounds-IsInside (r ∷ rs) b h e =
    let last = last_region r rs in
    let fits = checked_add-some last.target_address last.target_size (last_fits 0 r rs h) in
    let is : b ≡ (r.target_address, last.target_address + last.target_size) =
      ground (arith, fits, e) in
    subst (λ q. All (IsInside q.0 q.1) (r ∷ rs)) (sym is)
      (within_last 0 r.target_address r rs h (omega arith))

finish_plan-inverse :
    (limits : Limits) (rs : List LayoutRegion) (p : LayoutPlan)
    → finish_plan limits rs ≡ ok p
    → (b : ℕ × ℕ) × (t : ℕ × ℕ) × (plan_bounds rs ≡ ok b)
      × (plan_totals rs 0 0 ≡ ok t)
      × (t.0 ≤ limits.max_mapped_bytes)
      × (p.regions ≡ rs)
      × (p.mapped_bytes ≡ t.0)
      × (p.image_begin ≡ b.0)
      × (p.image_end ≡ b.1)
unfolding finish_plan
finish_plan-inverse limits rs p e = elim (Result-cases (plan_bounds rs)) [
  | inr (x, bad) ↦ ground (arith, bad)
  | inl (b, good) ↦ elim (Result-cases (plan_totals rs 0 0)) [
    | inr (x, bad) ↦ ground (arith, good, bad)
    | inl (t, fine) ↦ (
      b,
      t,
      good,
      fine,
      ground (arith, good, fine, e),
      ground (arith, good, fine, e),
      ground (arith, good, fine, e),
      ground (arith, good, fine, e),
      ground (arith, good, fine, e),
    )
  ]
]

finish_plan-IsPlan :
    (limits : Limits) (segments : List Segment) (rs : List LayoutRegion) (p : LayoutPlan)
    → IsOrdered 0 rs
    → target_total rs ≡ memory_total segments
    → finish_plan limits rs ≡ ok p
    → IsPlan limits segments p
finish_plan-IsPlan limits segments rs p h total e =
    let (b, t, bounds, totals, fits, same, mapped, begins, ends) =
      finish_plan-inverse limits rs p e in
    let sum = plan_totals-target rs 0 0 t (omega arith) totals in
    record {
      ordered = subst (IsOrdered 0) (sym same) h;
      counted = omega (arith, mapped, sum, ap target_total same);
      whole = omega (arith, mapped, sum, total);
      within = omega (arith, mapped, fits);
      inside =
          subst (λ qs. All (IsInside p.image_begin p.image_end) qs) (sym same)
            (subst (λ (n : ℕ). All (IsInside n p.image_end) rs) (sym begins)
              (subst (λ (n : ℕ). All (IsInside b.0 n) rs) (sym ends)
                (plan_bounds-IsInside rs b h bounds)));
    }

check_neighbours-All :
    (rs : List LayoutRegion) → All IsProper rs → check_neighbours rs ≡ ok tt → IsOrdered 0 rs
check_neighbours-All [] h e = tt
check_neighbours-All (r ∷ rs) h e = check_neighbours-IsOrdered 0 r rs (omega arith) h e

plan_segments-IsPlan :
    (limits : Limits) (segments : List Segment) (requested : ℕ) (merge : Bool) (p : LayoutPlan)
    → requested < 2 ^ 64
    → plan_segments limits segments requested merge ≡ ok p
    → IsPlan limits segments p
unfolding plan_segments
plan_segments-IsPlan limits segments requested merge p small e =
    let original = lowest_address segments u64_max in
    let load_base : ℕ = if requested == 0 then original else requested in
    elim (Result-cases (planned_regions limits load_base original segments)) [
      | inr (x, bad) ↦ ground (arith, bad)
      | inl (planned, good) ↦ elim (Result-cases (check_neighbours (sort_regions planned))) [
        | inr (x, bad) ↦ ground (arith, good, bad)
        | inl (u, apart) ↦ elim (Result-cases (merge_regions merge (sort_regions planned))) [
          | inr (x, bad) ↦ ground (arith, good, apart, bad)
          | inl (rs, merged) ↦
              let low = lowest_address-le segments u64_max in
              let (proper, total) =
                planned_regions-IsProper limits load_base original (ground (arith, small, low))
                  segments planned good in
              let (sorted, kept) = sort_regions-IsProper planned proper in
              let (ordered, same) =
                merge_regions-IsOrdered merge (sort_regions planned) rs
                  (check_neighbours-All (sort_regions planned) sorted apart) merged in
              finish_plan-IsPlan limits segments rs p ordered (omega (arith, same, kept, total))
                (ground (arith, good, apart, merged, e))
        ]
      ]
    ]

-- The two branches of `plan`: the one of a valid image, by its segments, and that of an invalid one.
planned-IsPlan :
    (limits : Limits) (segments : List Segment) (requested : ℕ) (merge : Bool) (p : LayoutPlan)
    → requested < 2 ^ 64
    → (elim segments as (λ _. Result LayoutPlan) [
      | [] ↦ ok (empty_plan requested)
      | s ∷ ss ↦ plan_segments limits (s ∷ ss) requested merge
    ])
      ≡ ok p
    → IsPlan limits segments p
planned-IsPlan limits [] requested merge p small e =
    let is : empty_plan requested ≡ p = ground arith in
    subst (IsPlan limits []) is
      (record { ordered = tt; counted = refl; whole = refl; within = omega arith; inside = tt })
planned-IsPlan limits (s ∷ ss) requested merge p small e =
    plan_segments-IsPlan limits (s ∷ ss) requested merge p small e

refused :
    (errors : List Error) (before : Error) (p : LayoutPlan)
    → ¬ ((elim errors as (λ _. Result LayoutPlan) [ [] ↦ err before | e ∷ es ↦ err e ]) ≡ ok p)
refused [] before p h = ground arith
refused (e ∷ es) before p h = ground arith

-- A plan that `LayoutPlanner` makes, for a base of 64 bits, merged or not, has regions in order, not
-- empty and apart, within its range; it counts all bytes that the segments ask for, and no more than
-- the limit.
pub plan-IsPlan :
    (limits : Limits) (before : Error) (image : BinaryImage) (requested : ℕ) (merge : Bool)
    (p : LayoutPlan)
    → requested < 2 ^ 64
    → plan limits before image requested merge ≡ ok p
    → IsPlan limits image.segments p
unfolding plan
plan-IsPlan limits before image requested merge p small e =
    elim (Bool-cases (validate limits image).valid) [
      | inl valid ↦ planned-IsPlan limits image.segments requested merge p small (rw valid at e)
      | inr invalid ↦ absurd (refused (validate limits image).errors before p (rw invalid at e))
    ]
