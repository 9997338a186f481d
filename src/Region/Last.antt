-- ===== src/Region/Last.antt =====
-- A well-formed region list that grows at its end.
use binforge.Prelude.{
  ℕ, ◌+◌, ◌^◌, ◌≤◌, ◌<◌, ◌≡◌, refl, inr, some, List, [], ◌∷◌, ◌++◌, All, length, arith,
}
use binforge.Region.{MemoryRegion, emplace, find_region, modify}
use binforge.Region.Order.{Chain, Apart, total_size}

-- Every region of the list ends at or before the address.
abbrev pub EndsBy : ℕ → List MemoryRegion → Type 0
EndsBy a = All (λ r. (r.base + r.size ≤ a) × (0 < r.size))

abbrev pub Sound : ℕ → MemoryRegion → Type 0
Sound lo r = (lo ≤ r.base) × (0 < r.size) × (r.base + r.size < 2 ^ 64) × (length r.bytes ≡ r.size)

pub Chain-prefix : (lo : ℕ) (xs ys : List MemoryRegion) → Chain lo (xs ++ ys) → Chain lo xs
Chain-prefix lo [] ys c = tt
Chain-prefix lo (x ∷ xs) ys c = (c.0, c.1, c.2, c.3, Chain-prefix (x.base + x.size) xs ys c.4)

Chain-Sound_parts :
    (lo : ℕ) (r : MemoryRegion)
    → Sound lo r
    → (lo ≤ r.base) × ((0 < r.size) × (r.base + r.size < 2 ^ 64) × (length r.bytes ≡ r.size))
Chain-Sound_parts lo r h = (h.0, (h.1, h.2, h.3))

pub Chain-Sound :
    (lo : ℕ) (xs : List MemoryRegion) (r : MemoryRegion) (ys : List MemoryRegion)
    → Chain lo (xs ++ (r ∷ ys))
    → Sound lo r
Chain-Sound lo [] r ys c = (c.0, c.1, c.2, c.3)
Chain-Sound lo (x ∷ xs) r ys c =
    let (above, rest) =
      Chain-Sound_parts (x.base + x.size) r (Chain-Sound (x.base + x.size) xs r ys c.4) in
    (omega arith, rest.0, rest.1, rest.2)

pub Chain-EndsBy :
    (lo : ℕ) (xs : List MemoryRegion) (r : MemoryRegion) (ys : List MemoryRegion)
    → Chain lo (xs ++ (r ∷ ys))
    → EndsBy r.base xs
Chain-EndsBy lo [] r ys c = tt
Chain-EndsBy lo (x ∷ xs) r ys c = (
  ((Chain-Sound (x.base + x.size) xs r ys c.4).0, c.1),
  Chain-EndsBy (x.base + x.size) xs r ys c.4,
)

pub EndsBy-Apart : (a end : ℕ) (xs : List MemoryRegion) → EndsBy a xs → All (Apart a end) xs
EndsBy-Apart a end [] h = tt
EndsBy-Apart a end (x ∷ xs) h = (inr h.0.0, EndsBy-Apart a end xs h.1)

pub total_size-append :
    (xs ys : List MemoryRegion) → total_size (xs ++ ys) ≡ total_size xs + total_size ys
total_size-append [] ys = omega arith
total_size-append (x ∷ xs) ys = omega (arith, total_size-append xs ys)

pub emplace_last :
    (new : MemoryRegion) (xs : List MemoryRegion)
    → EndsBy new.base xs
    → emplace new xs ≡ xs ++ (new ∷ [])
unfolding emplace
emplace_last new [] h = refl
emplace_last new (x ∷ xs) h = ground (arith, emplace_last new xs h.1)

pub find_region_last :
    (r : MemoryRegion) (xs : List MemoryRegion)
    → EndsBy r.base xs
    → find_region r.base (xs ++ (r ∷ [])) ≡ some r
unfolding find_region
find_region_last r [] h = ground arith
find_region_last r (x ∷ xs) h = ground (arith, find_region_last r xs h.1)

pub modify_last :
    (r : MemoryRegion) (change : MemoryRegion → MemoryRegion) (xs : List MemoryRegion)
    → EndsBy r.base xs
    → modify r.base change (xs ++ (r ∷ [])) ≡ xs ++ (change r ∷ [])
unfolding modify
modify_last r change [] h = ground arith
modify_last r change (x ∷ xs) h = ground (arith, modify_last r change xs h.1)
