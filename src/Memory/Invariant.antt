-- ===== src/Memory/Invariant.antt =====
-- The invariant of `AddressSpace`, and when a mapping succeeds.
use binforge.Prelude.{
  ℕ, ◌+◌, ◌-◌, ◌%◌, ◌^◌, ◌≤◌, ◌<◌, ◌≡◌, refl, ap, sym, ◌∙◌, ◌↔◌, inl, inr, true, ◌&&◌, some, All,
  Text, replicate, arith, Option-cases, length-replicate,
}
use mathlib.Core.Path.{subst}
use binforge.Base.{ok, Limits, checked_add}
use binforge.Base.Checked.{checked_add-some}
use binforge.Region.{
  MemoryRegion, emplace, find_region, erase_region, modify, clears_next, clears_previous,
}
use binforge.Region.Order.{Chain, Apart, total_size, clears_iff}
use binforge.Region.Update.{
  emplace-Chain, total_size-emplace, erase_region-Chain, total_size-erase_region, KeepsShape,
  modify-Chain, total_size-modify,
}
use binforge.Memory.{AddressSpace, empty_space, map_region, unmap, clear}

pub record IsValid (s : AddressSpace) : Type 0 where
  pub chain : Chain 0 s.regions
  pub total : s.mapped_bytes ≡ total_size s.regions
  pub within : s.mapped_bytes ≤ s.limits.max_mapped_bytes
  pub bounded : s.limits.max_mapped_bytes < 2 ^ 64

-- What a request to map must meet, said of all regions at once.
pub record Mappable (base size : ℕ) (s : AddressSpace) : Type 0 where
  pub nonempty : 0 < size
  pub fits : base + size < 2 ^ 64
  pub room : s.mapped_bytes + size ≤ s.limits.max_mapped_bytes
  pub apart : All (Apart base (base + size)) s.regions

abbrev pub new_region : ℕ → ℕ → ℕ → Text → MemoryRegion
new_region base size permissions name = record {
  base = base;
  size = size;
  permissions = permissions;
  name = name;
  bytes = replicate size 0;
}

abbrev pub mapped : ℕ → ℕ → ℕ → Text → AddressSpace → AddressSpace
mapped base size permissions name s = record s {
  regions = emplace (new_region base size permissions name) s.regions;
  mapped_bytes = s.mapped_bytes + size;
}

module _ (base size permissions : ℕ) (name : Text) (s : AddressSpace) (v : IsValid s)
    (small : base < 2 ^ 64) where
  pub map_region-of-Mappable :
      Mappable base size s
      → map_region base size permissions name s ≡ ok (mapped base size permissions name s)
  unfolding map_region
  map_region-of-Mappable m =
      let both =
        (clears_iff 0 base (base + size) s.regions v.chain (omega (arith, m.nonempty))).1 m.apart in
      ground (
        arith,
        v.bounded,
        m.nonempty,
        checked_add-some base size m.fits,
        checked_add-some s.mapped_bytes size (omega (arith, m.room, v.bounded)),
        m.room,
        both,
      )

  map_region_guards :
      {t : AddressSpace}
      → map_region base size permissions name s ≡ ok t
      → (0 < size)
        × (base + size < 2 ^ 64)
        × (s.mapped_bytes + size ≤ s.limits.max_mapped_bytes)
        × ((clears_next base (base + size) s.regions && clears_previous base s.regions) ≡ true)
        × (t ≡ mapped base size permissions name s)
  unfolding map_region checked_add
  map_region_guards e = ground (arith, v.bounded, v.within)

  pub Mappable-of-map_region :
      {t : AddressSpace} → map_region base size permissions name s ≡ ok t → Mappable base size s
  Mappable-of-map_region e =
      let (nonempty, fits, room, tests, _) = map_region_guards e in
      record {
        nonempty = nonempty;
        fits = fits;
        room = room;
        apart = (clears_iff 0 base (base + size) s.regions v.chain (omega arith)).0 tests;
      }

  -- In a well-formed address space, for a base of 64 bits, a mapping succeeds exactly when the range is not empty, does not wrap, fits the byte limit and
  -- has no address in common with any region; it then adds a zeroed region of that range.
  pub map_region_iff :
      (t : AddressSpace)
      → (map_region base size permissions name s ≡ ok t)
        ↔ (Mappable base size s × (t ≡ mapped base size permissions name s))
  map_region_iff t = (
    λ e. (Mappable-of-map_region e, (map_region_guards e).4),
    λ h. map_region-of-Mappable h.0 ∙ ap ok (sym h.1),
  )

  pub mapped-IsValid : Mappable base size s → IsValid (mapped base size permissions name s)
  mapped-IsValid m =
      let new = new_region base size permissions name in
      record {
        chain =
            emplace-Chain 0 new s.regions (omega arith) m.nonempty m.fits (length-replicate size 0)
              v.chain m.apart;
        total =
            omega (arith, v.total, total_size-emplace 0 new s.regions m.nonempty v.chain m.apart);
        within = m.room;
        bounded = v.bounded;
      }

  pub map_region-IsValid :
      {t : AddressSpace} → map_region base size permissions name s ≡ ok t → IsValid t
  map_region-IsValid {t} e =
      subst IsValid (sym ((map_region_iff t).0 e).1) (mapped-IsValid (Mappable-of-map_region e))

pub empty_space-IsValid : (l : Limits) → l.max_mapped_bytes < 2 ^ 64 → IsValid (empty_space l)
unfolding empty_space
empty_space-IsValid l h = record { chain = tt; total = refl; within = omega arith; bounded = h }

pub clear-IsValid : {s : AddressSpace} → IsValid s → IsValid (clear s)
unfolding clear
clear-IsValid v = record { chain = tt; total = refl; within = omega arith; bounded = v.bounded }

abbrev pub without : ℕ → MemoryRegion → AddressSpace → AddressSpace
without base found s = record s {
  regions = erase_region base s.regions;
  mapped_bytes = (s.mapped_bytes + 2 ^ 64 - found.size) % 2 ^ 64;
}

without-IsValid :
    (base : ℕ) (found : MemoryRegion) (s : AddressSpace)
    → find_region base s.regions ≡ some found
    → IsValid s
    → IsValid (without base found s)
without-IsValid base found s there v =
    let left = total_size-erase_region base s.regions found there in
    record {
      chain = erase_region-Chain 0 base s.regions v.chain;
      total = omega (arith, left, v.total, v.within, v.bounded);
      within = omega (arith, left, v.total, v.within, v.bounded);
      bounded = v.bounded;
    }

unmap-inverse :
    (base : ℕ) (s t : AddressSpace)
    → unmap base s ≡ ok t
    → (found : MemoryRegion) × (find_region base s.regions ≡ some found)
      × (t ≡ without base found s)
unfolding unmap
unmap-inverse base s t e = elim (Option-cases (find_region base s.regions)) [
  | inl missing ↦ ground (arith, missing)
  | inr (found, there) ↦ (found, there, ground (arith, there))
]

pub unmap-IsValid : (base : ℕ) (s t : AddressSpace) → IsValid s → unmap base s ≡ ok t → IsValid t
unmap-IsValid base s t v e =
    let (found, there, is) = unmap-inverse base s t e in
    subst IsValid (sym is) (without-IsValid base found s there v)

-- A change of one region that keeps its range.
pub modify-IsValid :
    (key : ℕ) (change : MemoryRegion → MemoryRegion) (s : AddressSpace)
    → ((r : MemoryRegion) → find_region key s.regions ≡ some r → KeepsShape change r)
    → IsValid s
    → IsValid (record s { regions = modify key change s.regions })
modify-IsValid key change s k v = record {
  chain = modify-Chain 0 key change s.regions k v.chain;
  total = v.total ∙ sym (total_size-modify key change s.regions k);
  within = v.within;
  bounded = v.bounded;
}
