-- ===== src/Region/Lookup.antt =====
-- What the searches find in a well-formed region list, against a plain scan of it.
use binforge.Prelude.{
  ℕ, ◌+◌, ◌^◌, ◌≤◌, ◌<◌, ◌≡◌, refl, inl, inr, ◌&&◌, Option, none, some, List, [], ◌∷◌, ltb, leb,
  ◌==◌, if◌then◌else◌, length, arith, Bool-cases, Option-cases,
}
use binforge.Region.{MemoryRegion, contains, before_upper_bound, find_region, modify}
use binforge.Base.{range_inside}
use binforge.Region.Order.{Chain}
use binforge.Region.Update.{KeepsShape}

pub find_region_base :
    (lo key : ℕ) (rs : List MemoryRegion) (q : MemoryRegion)
    → Chain lo rs
    → find_region key rs ≡ some q
    → (q.base ≡ key) × (lo ≤ key)
unfolding find_region
find_region_base lo key [] q c e = cc
find_region_base lo key (r ∷ rs) q c e =
    ground (arith, find_region_base (r.base + r.size) key rs q c.4)

-- The first region of the list whose range holds the address.
unfoldable pub scan : ℕ → List MemoryRegion → Option MemoryRegion
scan a [] = none
scan a (r ∷ rs) = if leb r.base a && ltb a (r.base + r.size) then some r else scan a rs

scan_below : (lo a : ℕ) (rs : List MemoryRegion) → Chain lo rs → a < lo → scan a rs ≡ none
unfolding scan
scan_below lo a [] c h = refl
scan_below lo a (r ∷ rs) c h = ground (arith, scan_below (r.base + r.size) a rs c.4)

pub record Found (lo a : ℕ) (rs : List MemoryRegion) (q : MemoryRegion) : Type 0 where
  pub low : lo ≤ q.base
  pub reached : q.base ≤ a
  pub found : find_region q.base rs ≡ some q
  pub whole : length q.bytes ≡ q.size
  pub fits : q.base + q.size < 2 ^ 64

pub before_upper_bound-Found :
    (lo a : ℕ) (rs : List MemoryRegion) (q : MemoryRegion)
    → Chain lo rs
    → before_upper_bound a rs ≡ some q
    → Found lo a rs q
unfolding before_upper_bound find_region
before_upper_bound-Found lo a [] q c e = cc
before_upper_bound-Found lo a (r ∷ rs) q c e =
    ground (arith, before_upper_bound-Found (r.base + r.size) a rs q c.4)

-- The ordered search and the test of `contains` give what the scan gives.
pub search-scan :
    (lo a : ℕ) (rs : List MemoryRegion)
    → Chain lo rs
    → a < 2 ^ 64
    → elim (before_upper_bound a rs) [
      | none ↦ none
      | some q ↦ if contains q a 1 then some q else none
    ]
      ≡ scan a rs
unfolding before_upper_bound scan contains range_inside
search-scan lo a [] c h = refl
search-scan lo a (r ∷ rs) c h = elim (Option-cases (before_upper_bound a rs)) [
  | inl last ↦
      ground (
        arith,
        last,
        search-scan (r.base + r.size) a rs c.4 h,
        scan_below (r.base + r.size) a rs c.4,
      )
  | inr (later, more) ↦ ground (
    arith,
    more,
    search-scan (r.base + r.size) a rs c.4 h,
    before_upper_bound-Found (r.base + r.size) a rs later c.4 more,
  )
]

pub before_upper_bound-modify :
    (lo a : ℕ) (rs : List MemoryRegion) (q : MemoryRegion) (change : MemoryRegion → MemoryRegion)
    → Chain lo rs
    → before_upper_bound a rs ≡ some q
    → KeepsShape change q
    → before_upper_bound a (modify q.base change rs) ≡ some (change q)
unfolding before_upper_bound modify
before_upper_bound-modify lo a [] q change c e k = cc
before_upper_bound-modify lo a (r ∷ rs) q change c e k =
    elim (Option-cases (before_upper_bound a rs)) [
      | inl last ↦ ground (arith, last)
      | inr (later, more) ↦ ground (
        arith,
        more,
        before_upper_bound-Found (r.base + r.size) a rs later c.4 more,
        before_upper_bound-modify (r.base + r.size) a rs later change c.4 more,
      )
    ]

before_upper_bound_above :
    (lo a : ℕ) (rs : List MemoryRegion) → Chain lo rs → a < lo → before_upper_bound a rs ≡ none
unfolding before_upper_bound
before_upper_bound_above lo a [] c h = refl
before_upper_bound_above lo a (r ∷ rs) c h = ground arith

-- The ordered search finds the region of a key from every address inside it.
pub before_upper_bound_inside :
    (lo key a : ℕ) (rs : List MemoryRegion) (q : MemoryRegion)
    → Chain lo rs
    → find_region key rs ≡ some q
    → key ≤ a
    → a < key + q.size
    → before_upper_bound a rs ≡ some q
unfolding before_upper_bound find_region
before_upper_bound_inside lo key a [] q c e h k = cc
before_upper_bound_inside lo key a (r ∷ rs) q c e h k = elim (Bool-cases (r.base == key)) [
  | inl hit ↦ ground (arith, hit, before_upper_bound_above (r.base + r.size) a rs c.4)
  | inr miss ↦ ground (
    arith,
    miss,
    before_upper_bound_inside (r.base + r.size) key a rs q c.4,
    find_region_base (r.base + r.size) key rs q c.4,
  )
]

pub scan-found :
    (lo key a : ℕ) (rs : List MemoryRegion) (q : MemoryRegion)
    → Chain lo rs
    → find_region key rs ≡ some q
    → key ≤ a
    → a < key + q.size
    → scan a rs ≡ some q
unfolding scan find_region
scan-found lo key a [] q c e h k = cc
scan-found lo key a (r ∷ rs) q c e h k = ground (
  arith,
  scan-found (r.base + r.size) key a rs q c.4,
  find_region_base (r.base + r.size) key rs q c.4,
)

-- A change of one region that keeps its range changes what a scan finds inside it, and nothing else.
pub scan-modify :
    (lo key a : ℕ) (rs : List MemoryRegion) (q : MemoryRegion)
    (change : MemoryRegion → MemoryRegion)
    → Chain lo rs
    → find_region key rs ≡ some q
    → KeepsShape change q
    → scan a (modify key change rs)
      ≡ (if leb key a && ltb a (key + q.size) then some (change q) else scan a rs)
unfolding scan find_region modify
scan-modify lo key a [] q change c e k = cc
scan-modify lo key a (r ∷ rs) q change c e k = ground (
  arith,
  k.base_kept,
  k.size_kept,
  scan-modify (r.base + r.size) key a rs q change c.4,
  find_region_base (r.base + r.size) key rs q c.4,
)
