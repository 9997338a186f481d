-- ===== src/Memory/Permissions.antt =====
-- `protect` on every range.
use binforge.Prelude.{
  ℕ, ◌+◌, ◌^◌, ◌≤◌, ◌<◌, ◌≡◌, ◌⊎◌, inl, inr, ◌&&◌, Bool-cases, Option, none, some, Option-cases,
  ◌==◌, arith, text,
}
use binforge.Base.{ok, err, error, mapping_missing}
use binforge.Region.{MemoryRegion, modify}
use binforge.Region.Lookup.{scan, scan-found, scan-modify}
use binforge.Memory.{AddressSpace, region_at, protect}
use binforge.Memory.Invariant.{IsValid}
use binforge.Memory.Protect.{
  region_at-scan, with_permissions, with_permissions-KeepsShape, protect_inverse,
}

-- Some region has this base and this size.
abbrev pub IsWhole : ℕ → ℕ → AddressSpace → Type 0
IsWhole base size s =
    (r : MemoryRegion) × (scan base s.regions ≡ some r) × (r.base ≡ base) × (r.size ≡ size)

abbrev pub permitted : ℕ → Option MemoryRegion → Option MemoryRegion
permitted p none = none
permitted p (some r) = some (with_permissions p r)

-- At the addresses of the range the region has the new permissions, and is otherwise as it was; at every
-- other address nothing has changed.
pub record IsProtected (base size p : ℕ) (s t : AddressSpace) : Type 0 where
  pub limits : t.limits ≡ s.limits
  pub mapped : t.mapped_bytes ≡ s.mapped_bytes
  pub inside :
      (a : ℕ) → base ≤ a → a < base + size → scan a t.regions ≡ permitted p (scan a s.regions)
  pub outside : (a : ℕ) → (a < base) ⊎ (base + size ≤ a) → scan a t.regions ≡ scan a s.regions

modify-IsProtected :
    (base size p : ℕ) (s t : AddressSpace)
    → IsValid s
    → protect base size p s ≡ ok t
    → IsProtected base size p s t
modify-IsProtected base size p s t v e =
    let (r, h, at_base, of_size, is) = protect_inverse base size p s t v e in
    let changed = λ (a : ℕ).
      scan-modify 0 r.base a s.regions r (with_permissions p) v.chain h.found
        (with_permissions-KeepsShape p r) in
    record {
      limits = ground (arith, is);
      mapped = ground (arith, is);
      inside = λ a low high. ground (
        arith,
        is,
        at_base,
        of_size,
        low,
        high,
        changed a,
        scan-found 0 r.base a s.regions r v.chain h.found,
      );
      outside = λ a away. ground (arith, is, at_base, of_size, away, changed a);
    }

-- In a well-formed address space, for a 64-bit base, `protect` succeeds exactly when the range is that of
-- a whole region. It then gives this region the new permissions, at each of its addresses, and changes
-- nothing else of it, of any other region, or of the byte count; otherwise it reports that the range
-- matches no mapping.
pub protect-IsProtected :
    (base size p : ℕ) (s : AddressSpace)
    → IsValid s
    → base < 2 ^ 64
    → (IsWhole base size s
        × ((t : AddressSpace) × (protect base size p s ≡ ok t) × IsProtected base size p s t))
      ⊎ (¬ (IsWhole base size s)
          × (protect base size p s
              ≡ err (
                  error mapping_missing base
                    (text "protection range must match a complete mapping"))))
unfolding protect
protect-IsProtected base size p s v small =
    let at : region_at base s ≡ scan base s.regions = region_at-scan base s v small in
    elim (Option-cases (scan base s.regions)) [
      | inl nothing ↦ inr ((λ w. ground (arith, nothing, w.1)), ground (arith, at, nothing))
      | inr (r, there) ↦ elim (Bool-cases (r.base == base && r.size == size)) [
        | inl same ↦ inl (
          (r, there, ground (arith, same), ground (arith, same)),
          let t : AddressSpace = record s {
            regions = modify r.base (with_permissions p) s.regions;
          } in
              let done : protect base size p s ≡ ok t = ground (arith, at, there, same) in
              (t, done, modify-IsProtected base size p s t v done),
        )
        | inr differs ↦ inr (
          (λ w.
              let is : r ≡ w.0 = ground (arith, there, w.1) in
              ground (arith, is, w.2, w.3, differs)),
          ground (arith, at, there, differs),
        )
      ]
    ]
