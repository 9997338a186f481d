-- ===== src/Layout.antt =====
-- src/layout.cc: `LayoutPlanner::plan`.
pub mod Order
pub mod Plan
use binforge.Prelude.{
  ℕ, ◌+◌, ◌-◌, ◌^◌, max, min, bit_and, Bool, true, false, ◌&&◌, ◌||◌, not, Option, none, some, List,
  [], ◌∷◌, ◌++◌, ltb, ◌==◌, if◌then◌else◌, Text, text,
}
use binforge.Base.{
  Error, error, Result, ok, err, ◌>>=◌, ◌>>◌, require, expect, Limits, u64_max, checked_add,
  address_overflow, invalid_alignment, mapping_overlap, resource_limit,
}
use binforge.Region.{permission_write, permission_execute, allows}
use binforge.Image.{BinaryImage, Segment}
use binforge.Validator.{ValidationReport, validate}
use binforge.Loader.{decimal}

pub record LayoutRegion : Type 0 where
  pub source_offset : ℕ
  pub source_size : ℕ
  pub target_address : ℕ
  pub target_size : ℕ
  pub alignment : ℕ
  pub permissions : ℕ
  pub name : Text

pub record LayoutPlan : Type 0 where
  pub image_begin : ℕ
  pub image_end : ℕ
  pub mapped_bytes : ℕ
  pub file_bytes : ℕ
  pub regions : List LayoutRegion
  pub warnings : List Text

-- The least virtual address, from the greatest number down.
unfoldable pub lowest_address : List Segment → ℕ → ℕ
lowest_address [] least = least
lowest_address (s ∷ segments) least = lowest_address segments (min least s.virtual_address)

-- The region of a segment that is not empty.
unfoldable pub planned_region : Limits → ℕ → ℕ → Segment → Result LayoutRegion
planned_region limits load_base original_base segment = do
  address ←
      expect (checked_add load_base (segment.virtual_address - original_base))
        (error address_overflow segment.virtual_address (text "planned segment address overflows"))
  let alignment : ℕ = max limits.page_size (if segment.alignment == 0 then 1 else segment.alignment)
  require (bit_and alignment (alignment - 1) == 0) (
      error invalid_alignment segment.virtual_address
        (text "planned segment alignment is not a power of two"))
  target_end ←
      expect (checked_add address segment.memory_size)
        (error address_overflow address (text "planned segment range overflows"))
  ok (record {
    source_offset = segment.file_offset;
    source_size = segment.file_size;
    target_address = address;
    target_size = segment.memory_size;
    alignment = alignment;
    permissions = segment.permissions;
    name = text "segment." ++ decimal 10 segment.index;
  })

unfoldable pub planned_regions : Limits → ℕ → ℕ → List Segment → Result (List LayoutRegion)
unfolding planned_region
planned_regions limits load_base original_base [] = ok []
planned_regions limits load_base original_base (s ∷ segments) = elim (s.memory_size == 0) [
  | true ↦ planned_regions limits load_base original_base segments
  | false ↦ planned_region limits load_base original_base s >>= λ region.
      planned_regions limits load_base original_base segments >>= λ regions. ok (region ∷ regions)
]

-- The comparison that the sort is given.
unfoldable pub comes_before : LayoutRegion → LayoutRegion → Bool
comes_before left right =
    if not (left.target_address == right.target_address)
    then ltb left.target_address right.target_address
    else ltb left.target_size right.target_size

-- `std::sort`. Regions that compare equal overlap, so that their order is lost with the plan.
unfoldable pub insert_region : LayoutRegion → List LayoutRegion → List LayoutRegion
unfolding comes_before
insert_region region [] = region ∷ []
insert_region region (r ∷ rs) =
    if comes_before r region then r ∷ insert_region region rs else region ∷ r ∷ rs

unfoldable pub sort_regions : List LayoutRegion → List LayoutRegion
unfolding insert_region
sort_regions [] = []
sort_regions (r ∷ rs) = insert_region r (sort_regions rs)

-- The test of each region against the one before it.
unfoldable pub check_neighbours : List LayoutRegion → Result (Unit {0})
check_neighbours [] = ok tt
check_neighbours (previous ∷ []) = ok tt
check_neighbours (previous ∷ (current ∷ rest)) = do
  previous_end ←
      expect (checked_add previous.target_address previous.target_size)
        (error address_overflow previous.target_address (text "planned region end overflows"))
  require (not (ltb current.target_address previous_end)) (
      error mapping_overlap current.target_address
        (previous.name ++ (text " overlaps " ++ current.name)))
  check_neighbours (current ∷ rest)

unfoldable pub ends_at : ℕ → ℕ → ℕ → Bool
ends_at begin size end = elim (checked_add begin size) [ none ↦ false | some at ↦ at == end ]

unfoldable pub is_mergeable : LayoutRegion → LayoutRegion → Bool
unfolding ends_at
is_mergeable previous region =
    ends_at previous.target_address previous.target_size region.target_address
    && (ends_at previous.source_offset previous.source_size region.source_offset
        && (previous.permissions == region.permissions))

unfoldable pub merged_region : LayoutRegion → LayoutRegion → Result LayoutRegion
merged_region previous region = do
  combined_target ←
      expect (checked_add previous.target_size region.target_size)
        (error address_overflow region.target_address (text "merged layout size overflows"))
  combined_source ←
      expect (checked_add previous.source_size region.source_size)
        (error address_overflow region.target_address (text "merged layout size overflows"))
  ok (record previous {
    target_size = combined_target;
    source_size = combined_source;
    name = previous.name ++ (text "+" ++ region.name);
  })

-- The loop, with the region at the back of `merged`.
unfoldable pub merge_after : LayoutRegion → List LayoutRegion → Result (List LayoutRegion)
unfolding is_mergeable merged_region
merge_after previous [] = ok (previous ∷ [])
merge_after previous (region ∷ regions) = elim (is_mergeable previous region) [
  | true ↦ merged_region previous region >>= λ merged. merge_after merged regions
  | false ↦ merge_after region regions >>= λ merged. ok (previous ∷ merged)
]

unfoldable pub merge_regions : Bool → List LayoutRegion → Result (List LayoutRegion)
unfolding merge_after
merge_regions false regions = ok regions
merge_regions true [] = ok []
merge_regions true (r ∷ rs) = merge_after r rs

unfoldable pub last_region : LayoutRegion → List LayoutRegion → LayoutRegion
last_region r [] = r
last_region r (next ∷ rs) = last_region next rs

-- `image_begin` and `image_end`
unfoldable pub plan_bounds : List LayoutRegion → Result (ℕ × ℕ)
unfolding last_region
plan_bounds [] = ok (0, 0)
plan_bounds (r ∷ rs) =
    let last : LayoutRegion = last_region r rs in
    expect (checked_add last.target_address last.target_size)
      (error address_overflow last.target_address (text "layout image end overflows"))
    >>= λ end. ok (r.target_address, end)

-- `mapped_bytes` and `file_bytes` so far.
unfoldable pub plan_totals : List LayoutRegion → ℕ → ℕ → Result (ℕ × ℕ)
plan_totals [] mapped_bytes file_bytes = ok (mapped_bytes, file_bytes)
plan_totals (r ∷ rs) mapped_bytes file_bytes = do
  mapped ←
      expect (checked_add mapped_bytes r.target_size)
        (error address_overflow r.target_address (text "layout mapped-byte total overflows"))
  filed ←
      expect (checked_add file_bytes r.source_size)
        (error address_overflow r.source_offset (text "layout file-byte total overflows"))
  plan_totals rs mapped filed

unfoldable pub plan_warnings : List LayoutRegion → List Text
plan_warnings [] = []
plan_warnings (r ∷ rs) =
    let rest : List Text = plan_warnings rs in
    if allows r.permissions permission_write && allows r.permissions permission_execute
    then (r.name ++ text " is writable and executable") ∷ rest
    else rest

-- What follows the merge.
unfoldable pub finish_plan : Limits → List LayoutRegion → Result LayoutPlan
unfolding plan_bounds plan_totals plan_warnings
finish_plan limits regions = do
  bounds ← plan_bounds regions
  totals ← plan_totals regions 0 0
  require (not (ltb limits.max_mapped_bytes totals.0))
      (error resource_limit bounds.0 (text "planned image exceeds mapped-byte limit"))
  ok (record {
    image_begin = bounds.0;
    image_end = bounds.1;
    mapped_bytes = totals.0;
    file_bytes = totals.1;
    regions = regions;
    warnings = plan_warnings regions;
  })

-- The plan of an image with segments.
unfoldable pub plan_segments : Limits → List Segment → ℕ → Bool → Result LayoutPlan
unfolding finish_plan planned_regions sort_regions check_neighbours merge_regions lowest_address
plan_segments limits segments requested_base merge_adjacent = do
  let original_base : ℕ = lowest_address segments u64_max
  let load_base : ℕ = if requested_base == 0 then original_base else requested_base
  planned ← planned_regions limits load_base original_base segments
  let sorted : List LayoutRegion = sort_regions planned
  check_neighbours sorted
  regions ← merge_regions merge_adjacent sorted
  finish_plan limits regions

abbrev pub empty_plan : ℕ → LayoutPlan
empty_plan base = record {
  image_begin = base;
  image_end = base;
  mapped_bytes = 0;
  file_bytes = 0;
  regions = [];
  warnings = [];
}

-- `before` is the cleared error. An invalid report has a first error.
unfoldable pub plan : Limits → Error → BinaryImage → ℕ → Bool → Result LayoutPlan
unfolding plan_segments
plan limits before image requested_base merge_adjacent =
    let report : ValidationReport = validate limits image in
    if report.valid
    then elim image.segments [
      | [] ↦ ok (empty_plan requested_base)
      | s ∷ segments ↦ plan_segments limits (s ∷ segments) requested_base merge_adjacent
    ]
    else elim report.errors [ [] ↦ err before | e ∷ errors ↦ err e ]
