-- ===== src/Memory.antt =====
-- src/address_space.cc: `AddressSpace`.
-- A method that returns false leaves the object as it was, so it is a function into `Result` that
-- gives the new address space on success only.
pub mod Invariant
pub mod Bytes
pub mod Restore
pub mod Integer
pub mod Protect
pub mod Permissions
pub mod Keeps
pub mod History
use binforge.Prelude.{
  ℕ, ◌+◌, ◌-◌, ◌%◌, ◌^◌, Bool, ◌&&◌, ◌||◌, not, Option, none, some, List, [], ltb, ◌==◌,
  if◌then◌else◌, Text, text, length, take, drop, replicate,
}
use binforge.Base.{
  error, Result, ok, ◌>>=◌, ◌>>◌, require, expect, Limits, checked_add, u64_max, invalid_segment,
  address_overflow, resource_limit, mapping_overlap, mapping_missing, permission_denied,
  invalid_relocation,
}
use binforge.Base.Word.{ByteOrder, from_bytes, to_bytes}
use binforge.Region.{
  MemoryRegion, contains, allows, permission_read, permission_write, before_upper_bound, emplace,
  find_region, erase_region, modify, clears_next, clears_previous, splice,
}

pub record AddressSpace : Type 0 where
  pub limits : Limits
  pub regions : List MemoryRegion
  pub mapped_bytes : ℕ

-- `AddressSpace(limits)`.
unfoldable pub empty_space : Limits → AddressSpace
empty_space l = record { limits = l; regions = []; mapped_bytes = 0 }

-- `SIZE_MAX` is that of a 64-bit target.
unfoldable pub map_region : ℕ → ℕ → ℕ → Text → AddressSpace → Result AddressSpace
map_region base size permissions name s = do
  require (not (size == 0)) (error invalid_segment base (text "cannot map an empty region"))
  end ←
      expect (checked_add base size)
        (error address_overflow base (text "mapping address overflows"))
  total ←
      expect (checked_add s.mapped_bytes size)
        (error resource_limit base (text "mapped byte limit exceeded"))
  require (not (ltb s.limits.max_mapped_bytes total || ltb u64_max size))
      (error resource_limit base (text "mapped byte limit exceeded"))
  require (clears_next base end s.regions)
      (error mapping_overlap base (text "mapping overlaps next region"))
  require (clears_previous base s.regions)
      (error mapping_overlap base (text "mapping overlaps previous region"))
  let region : MemoryRegion = record {
    base = base;
    size = size;
    permissions = permissions;
    name = name;
    bytes = replicate size 0;
  }
  ok (record s { regions = emplace region s.regions; mapped_bytes = total })

-- `mapped_bytes_ -= size` wraps.
unfoldable pub unmap : ℕ → AddressSpace → Result AddressSpace
unmap base s = do
  found ←
      expect (find_region base s.regions)
        (error mapping_missing base (text "mapping does not exist"))
  ok (record s {
    regions = erase_region base s.regions;
    mapped_bytes = (s.mapped_bytes + 2 ^ 64 - found.size) % 2 ^ 64;
  })

unfoldable pub region_at : ℕ → AddressSpace → Option MemoryRegion
region_at address s = elim (before_upper_bound address s.regions) [
  | none ↦ none
  | some candidate ↦ if contains candidate address 1 then some candidate else none
]

-- `region_at` and the test of `base` and `size` behind it.
unfoldable pub protect : ℕ → ℕ → ℕ → AddressSpace → Result AddressSpace
protect base size permissions s = do
  let missing = error mapping_missing base (text "protection range must match a complete mapping")
  region ← expect (region_at base s) missing
  require (region.base == base && region.size == size) missing
  ok (record s {
    regions = modify region.base (λ r. record r { permissions = permissions }) s.regions;
  })

-- `region_at(address)` with `contains(address, size)`.
unfoldable pub region_of_range : ℕ → ℕ → AddressSpace → Option MemoryRegion
region_of_range address size s = elim (region_at address s) [
  | none ↦ none
  | some r ↦ if contains r address size then some r else none
]

-- The `size` bytes that `memcpy` copies out.
unfoldable pub read : ℕ → ℕ → AddressSpace → Result (List ℕ)
read address size s = if size == 0 then ok [] else do
  region ←
      expect (region_of_range address size s)
        (error mapping_missing address (text "read crosses an unmapped boundary"))
  require (allows region.permissions permission_read)
      (error permission_denied address (text "mapping is not readable"))
  ok (take size (drop (address - region.base) region.bytes))

unfoldable pub write : ℕ → List ℕ → Bool → AddressSpace → Result AddressSpace
write address input ignore_permissions s = if length input == 0 then ok s else do
  region ←
      expect (region_of_range address (length input) s)
        (error mapping_missing address (text "write crosses an unmapped boundary"))
  require (ignore_permissions || allows region.permissions permission_write)
      (error permission_denied address (text "mapping is not writable"))
  ok (record s {
    regions =
        modify region.base (λ r. record r { bytes = splice (address - r.base) input r.bytes })
          s.regions;
  })

unfoldable pub width_supported : ℕ → Bool
width_supported width = width == 1 || width == 2 || width == 4 || width == 8

unfoldable pub read_integer : ℕ → ℕ → ByteOrder → AddressSpace → Result ℕ
read_integer address width order s = do
  require (width_supported width)
      (error invalid_relocation address (text "integer width is unsupported"))
  bytes ← read address width s
  ok (from_bytes (2 ^ 64) order bytes)

unfoldable pub write_integer : ℕ → ℕ → ByteOrder → ℕ → Bool → AddressSpace → Result AddressSpace
write_integer address width order value ignore_permissions s = do
  require (width_supported width)
      (error invalid_relocation address (text "integer width is unsupported"))
  write address (to_bytes width order value) ignore_permissions s

unfoldable pub clear : AddressSpace → AddressSpace
clear s = record s { regions = []; mapped_bytes = 0 }
