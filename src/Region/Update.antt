-- ===== src/Region/Update.antt =====
-- What `emplace`, `erase` and a change through a pointer do to a well-formed region list.
use binforge.Prelude.{
  ℕ, ◌+◌, ◌^◌, ◌≤◌, ◌<◌, ◌≡◌, refl, ap, inl, inr, some, List, [], ◌∷◌, All, ◌==◌, length, arith,
  Bool-cases,
}
use binforge.Region.{MemoryRegion, emplace, find_region, erase_region, modify}
use binforge.Region.Order.{Chain, Chain-mono, total_size, Apart}

pub emplace-Chain :
    (lo : ℕ) (new : MemoryRegion) (rs : List MemoryRegion)
    → lo ≤ new.base
    → 0 < new.size
    → new.base + new.size < 2 ^ 64
    → length new.bytes ≡ new.size
    → Chain lo rs
    → All (Apart new.base (new.base + new.size)) rs
    → Chain lo (emplace new rs)
unfolding emplace
emplace-Chain lo new [] l p f b c a = (l, p, f, b, tt)
emplace-Chain lo new (r ∷ rs) l p f b c a = ground (arith, emplace-Chain (r.base + r.size) new rs)

pub total_size-emplace :
    (lo : ℕ) (new : MemoryRegion) (rs : List MemoryRegion)
    → 0 < new.size
    → Chain lo rs
    → All (Apart new.base (new.base + new.size)) rs
    → total_size (emplace new rs) ≡ new.size + total_size rs
unfolding emplace
total_size-emplace lo new [] p c a = refl
total_size-emplace lo new (r ∷ rs) p c a =
    ground (arith, total_size-emplace (r.base + r.size) new rs)

pub erase_region-Chain :
    (lo key : ℕ) (rs : List MemoryRegion) → Chain lo rs → Chain lo (erase_region key rs)
unfolding erase_region
erase_region-Chain lo key [] c = tt
erase_region-Chain lo key (r ∷ rs) c = elim (Bool-cases (r.base == key)) [
  | inl hit ↦ rw hit (Chain-mono (r.base + r.size) lo rs (omega arith) c.4)
  | inr miss ↦ rw miss (c.0, c.1, c.2, c.3, erase_region-Chain (r.base + r.size) key rs c.4)
]

pub total_size-erase_region :
    (key : ℕ) (rs : List MemoryRegion) (found : MemoryRegion)
    → find_region key rs ≡ some found
    → found.size + total_size (erase_region key rs) ≡ total_size rs
unfolding find_region erase_region
total_size-erase_region key [] found e = ground arith
total_size-erase_region key (r ∷ rs) found e = ground (arith, total_size-erase_region key rs found)

-- A change that keeps the base, the size and the number of bytes.
pub record KeepsShape (change : MemoryRegion → MemoryRegion) (r : MemoryRegion) : Type 0 where
  pub base_kept : (change r).base ≡ r.base
  pub size_kept : (change r).size ≡ r.size
  pub length_kept : length (change r).bytes ≡ length r.bytes

pub modify-Chain :
    (lo key : ℕ) (change : MemoryRegion → MemoryRegion) (rs : List MemoryRegion)
    → ((r : MemoryRegion) → find_region key rs ≡ some r → KeepsShape change r)
    → Chain lo rs
    → Chain lo (modify key change rs)
unfolding modify find_region
modify-Chain lo key change [] k c = tt
modify-Chain lo key change (r ∷ rs) k c = elim (Bool-cases (r.base == key)) [
  | inl hit ↦
      let shape = k r (rw hit) in
      rw hit (
        omega (arith, shape.base_kept),
        omega (arith, shape.size_kept),
        omega (arith, shape.base_kept, shape.size_kept),
        omega (arith, shape.length_kept, shape.size_kept),
        Chain-mono (r.base + r.size) _ rs (omega (arith, shape.base_kept, shape.size_kept)) c.4,
      )
  | inr miss ↦ rw miss (
    c.0,
    c.1,
    c.2,
    c.3,
    modify-Chain (r.base + r.size) key change rs (λ q e. k q (rw miss e)) c.4,
  )
]

pub total_size-modify :
    (key : ℕ) (change : MemoryRegion → MemoryRegion) (rs : List MemoryRegion)
    → ((r : MemoryRegion) → find_region key rs ≡ some r → KeepsShape change r)
    → total_size (modify key change rs) ≡ total_size rs
unfolding modify find_region
total_size-modify key change [] k = refl
total_size-modify key change (r ∷ rs) k = elim (Bool-cases (r.base == key)) [
  | inl hit ↦ rw hit (let shape = k r (rw hit) in omega (arith, shape.size_kept))
  | inr miss ↦ rw miss (ap (◌+◌ r.size) (total_size-modify key change rs (λ q e. k q (rw miss e))))
]

-- Two changes of one region in turn, the first of which keeps the base.
pub modify-modify :
    (key : ℕ) (first second : MemoryRegion → MemoryRegion) (rs : List MemoryRegion)
    → ((r : MemoryRegion) → find_region key rs ≡ some r → (first r).base ≡ r.base)
    → modify key second (modify key first rs) ≡ modify key (λ r. second (first r)) rs
unfolding modify find_region
modify-modify key first second [] k = refl
modify-modify key first second (r ∷ rs) k = elim (Bool-cases (r.base == key)) [
  | inl hit ↦ rw hit (rw (k r (rw hit)) (rw hit))
  | inr miss ↦
      rw miss (rw miss (ap (◌∷◌ r) (modify-modify key first second rs (λ q e. k q (rw miss e)))))
]

-- A change that gives back the region that it finds.
pub modify_same :
    (key : ℕ) (change : MemoryRegion → MemoryRegion) (rs : List MemoryRegion)
    → ((r : MemoryRegion) → find_region key rs ≡ some r → change r ≡ r)
    → modify key change rs ≡ rs
unfolding modify find_region
modify_same key change [] k = refl
modify_same key change (r ∷ rs) k = elim (Bool-cases (r.base == key)) [
  | inl hit ↦ rw hit (ap (λ q. q ∷ rs) (k r (rw hit)))
  | inr miss ↦ rw miss (ap (◌∷◌ r) (modify_same key change rs (λ q e. k q (rw miss e))))
]
