-- ===== src/Memory/Protect.antt =====
-- `region_at` and `protect`.
use binforge.Prelude.{
  ℕ, ◌+◌, ◌^◌, ◌≤◌, ◌<◌, ◌≡◌, refl, sym, inl, inr, false, some, List, length, arith, Option-cases,
  text,
}
use mathlib.Core.Path.{subst}
use binforge.Base.{ok, err, error, permission_denied, range_inside}
use binforge.Region.{MemoryRegion, contains, allows, permission_write, find_region}
use binforge.Region.Lookup.{scan, search-scan, before_upper_bound_inside}
use binforge.Region.Update.{KeepsShape}
use binforge.Memory.{AddressSpace, region_at, region_of_range, protect, write}
use binforge.Memory.Invariant.{IsValid, modify-IsValid}
use binforge.Memory.Bytes.{Holds, region_of_range-Holds, change_region, Holds-change_region}

-- In a well-formed address space, for a 64-bit address, the search by `upper_bound` finds the region
-- that a scan of all regions finds.
pub region_at-scan :
    (a : ℕ) (s : AddressSpace) → IsValid s → a < 2 ^ 64 → region_at a s ≡ scan a s.regions
unfolding region_at
region_at-scan a s v h = search-scan 0 a s.regions v.chain h

abbrev pub with_permissions : ℕ → MemoryRegion → MemoryRegion
with_permissions p r = record r { permissions = p }

pub with_permissions-KeepsShape : (p : ℕ) (r : MemoryRegion) → KeepsShape (with_permissions p) r
with_permissions-KeepsShape p r = record { base_kept = refl; size_kept = refl; length_kept = refl }

pub protect_inverse :
    (base size p : ℕ) (s t : AddressSpace)
    → IsValid s
    → protect base size p s ≡ ok t
    → (r : MemoryRegion) × Holds base size s r
      × (r.base ≡ base)
      × (r.size ≡ size)
      × (t ≡ change_region r (with_permissions p) s)
unfolding protect
protect_inverse base size p s t v e = elim (Option-cases (region_at base s)) [
  | inl nothing ↦ ground (arith, nothing)
  | inr (r, there) ↦
      let facts : (r.base ≡ base) × (r.size ≡ size) × (t ≡ change_region r (with_permissions p) s) =
        ground (arith, there) in
      let holds : region_of_range base size s ≡ some r =
        unfold region_of_range contains range_inside in ground (arith, there) in
      (r, region_of_range-Holds base size s r v holds, facts.0, facts.1, facts.2)
]

pub protect-IsValid :
    (base size p : ℕ) (s t : AddressSpace) → IsValid s → protect base size p s ≡ ok t → IsValid t
protect-IsValid base size p s t v e =
    let (r, h, _, _, is) = protect_inverse base size p s t v e in
    subst IsValid (sym is)
      (modify-IsValid r.base (with_permissions p) s (λ q _. with_permissions-KeepsShape p q) v)

pub inside-Holds :
    (a n : ℕ) (s : AddressSpace) (r : MemoryRegion)
    → IsValid s
    → find_region r.base s.regions ≡ some r
    → r.base ≤ a
    → 0 < n
    → a + n ≤ r.base + r.size
    → length r.bytes ≡ r.size
    → Holds a n s r
inside-Holds a n s r v found low p high whole = record {
  candidate = before_upper_bound_inside 0 r.base a s.regions r v.chain found low (omega arith);
  found = found;
  low = low;
  high = high;
  inside = omega arith;
  whole = whole;
}

-- In a well-formed address space, after a region was protected without write permission, every
-- write of some bytes inside it that respects permissions is denied.
pub write-protect_denied :
    (base size p a : ℕ) (input : List ℕ) (s t : AddressSpace)
    → IsValid s
    → protect base size p s ≡ ok t
    → allows p permission_write ≡ false
    → 0 < length input
    → base ≤ a
    → a + length input ≤ base + size
    → write a input false t ≡ err (error permission_denied a (text "mapping is not writable"))
unfolding write
write-protect_denied base size p a input s t v e deny n low high =
    let (r, h, at_base, of_size, is) = protect_inverse base size p s t v e in
    let held =
      inside-Holds a (length input) s r v h.found (omega (arith, at_base)) n
        (omega (arith, at_base, of_size)) h.whole in
    rw is (
      ground (
        arith,
        deny,
        Holds-change_region a (length input) s r (with_permissions p) v held
            (with_permissions-KeepsShape p r),
      ))
