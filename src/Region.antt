-- ===== src/Region.antt =====
-- src/address_space.cc: `MemoryRegion`, and what `AddressSpace` does with its `regions_`.
-- That `std::map` keyed by base address is the list of the regions in the order of their bases.
pub mod Order
pub mod Update
pub mod Lookup
pub mod View
pub mod Last
use binforge.Prelude.{
  ℕ, zero, suc, ◌+◌, ◌-◌, ◌%◌, ◌^◌, bit_and, Bool, true, false, not, Option, none, some, List, [],
  ◌∷◌, ◌++◌, ltb, leb, ◌==◌, if◌then◌else◌, Text, length, take, drop,
}
use binforge.Base.{checked_add, range_inside}

-- `enum Permission`.
abbrev pub permission_read : ℕ
permission_read = 1

abbrev pub permission_write : ℕ
permission_write = 2

abbrev pub permission_execute : ℕ
permission_execute = 4

-- `permissions & bit`, as a condition.
unfoldable pub allows : ℕ → ℕ → Bool
allows permissions bit = not (bit_and permissions bit == 0)

pub record MemoryRegion : Type 0 where
  pub base : ℕ
  pub size : ℕ
  pub permissions : ℕ
  pub name : Text
  pub bytes : List ℕ

unfoldable pub contains : MemoryRegion → ℕ → ℕ → Bool
contains r address len =
    if ltb address r.base then false else range_inside (address - r.base) len r.size

-- `regions_.lower_bound(base)`: the first region whose base is not below.
unfoldable pub lower_bound : ℕ → List MemoryRegion → Option MemoryRegion
lower_bound key [] = none
lower_bound key (r ∷ rs) = if ltb r.base key then lower_bound key rs else some r

-- `std::prev(regions_.lower_bound(base))`: the last region whose base is below, if there is one.
unfoldable pub before_lower_bound : ℕ → List MemoryRegion → Option MemoryRegion
before_lower_bound key [] = none
before_lower_bound key (r ∷ rs) =
    if ltb r.base key
    then elim (before_lower_bound key rs) [ none ↦ some r | some later ↦ some later ]
    else none

-- `std::prev(regions_.upper_bound(address))`: the last region whose base is not above.
unfoldable pub before_upper_bound : ℕ → List MemoryRegion → Option MemoryRegion
before_upper_bound key [] = none
before_upper_bound key (r ∷ rs) =
    if leb r.base key
    then elim (before_upper_bound key rs) [ none ↦ some r | some later ↦ some later ]
    else none

-- `regions_.emplace(region.base, region)`: an old entry of that key stays.
unfoldable pub emplace : MemoryRegion → List MemoryRegion → List MemoryRegion
emplace new [] = new ∷ []
emplace new (r ∷ rs) =
    if ltb r.base new.base
    then r ∷ emplace new rs
    else if r.base == new.base
    then r ∷ rs
    else new ∷ (r ∷ rs)

-- `regions_.find(base)`.
unfoldable pub find_region : ℕ → List MemoryRegion → Option MemoryRegion
find_region key [] = none
find_region key (r ∷ rs) = if r.base == key then some r else find_region key rs

-- `regions_.erase(found)`.
unfoldable pub erase_region : ℕ → List MemoryRegion → List MemoryRegion
erase_region key [] = []
erase_region key (r ∷ rs) = if r.base == key then rs else r ∷ erase_region key rs

-- A change of the region of that key through a pointer into the map.
unfoldable pub modify : ℕ → (MemoryRegion → MemoryRegion) → List MemoryRegion → List MemoryRegion
modify key change [] = []
modify key change (r ∷ rs) = if r.base == key then change r ∷ rs else r ∷ modify key change rs

-- Whether a new range up to `end` stays below the next region.
unfoldable pub clears_next : ℕ → ℕ → List MemoryRegion → Bool
unfolding lower_bound
clears_next base end regions = elim (lower_bound base regions) [
  | none ↦ true
  | some next ↦ leb end next.base
]

-- Whether the previous region ends before a new one begins.
unfoldable pub clears_previous : ℕ → List MemoryRegion → Bool
unfolding before_lower_bound checked_add
clears_previous base regions = elim (before_lower_bound base regions) [
  | none ↦ true
  | some previous ↦ elim (checked_add previous.base previous.size) [
    | none ↦ false
    | some previous_end ↦ leb previous_end base
  ]
]

-- `memcpy` over the bytes from `offset` on.
unfoldable pub splice : ℕ → List ℕ → List ℕ → List ℕ
splice offset input bytes = take offset bytes ++ (input ++ drop (offset + length input) bytes)
