-- ===== src/Region/Order.antt =====
-- Well-formed region lists, and what the searches of the ordered map find in them.
use binforge.Prelude.{
  ℕ, ◌+◌, ◌^◌, ◌≤◌, ◌<◌, ◌≡◌, refl, ◌⊎◌, inl, inr, ◌↔◌, true, ◌&&◌, none, some, List, [], ◌∷◌, All,
  leb, length, arith, Option-cases, leb→le, le→leb, and_true, and_intro,
}
use native.Mathlib.Decide.{dec_lt}
use binforge.Base.Checked.{checked_add-some}
use binforge.Region.{MemoryRegion, before_lower_bound, clears_next, clears_previous}

-- The regions stand in the order of their addresses, each not empty, within 64 bits, above the end
-- of the one before it, and with as many bytes as its size says.
abbrev pub Chain : ℕ → List MemoryRegion → Type 0
Chain lo [] = Unit {0}
Chain lo (r ∷ rs) =
    (lo ≤ r.base)
    × (0 < r.size)
    × (r.base + r.size < 2 ^ 64)
    × (length r.bytes ≡ r.size)
    × Chain (r.base + r.size) rs

abbrev pub total_size : List MemoryRegion → ℕ
total_size [] = 0
total_size (r ∷ rs) = r.size + total_size rs

-- The ranges [base, end) and that of the region have no address in common.
abbrev pub Apart : ℕ → ℕ → MemoryRegion → Type 0
Apart base end r = (end ≤ r.base) ⊎ (r.base + r.size ≤ base)

pub Chain-mono : (lo lo' : ℕ) (rs : List MemoryRegion) → lo' ≤ lo → Chain lo rs → Chain lo' rs
Chain-mono lo lo' [] h c = tt
Chain-mono lo lo' (r ∷ rs) h c = (omega arith, c.1, c.2, c.3, c.4)

Chain-Apart :
    (lo base end : ℕ) (rs : List MemoryRegion) → end ≤ lo → Chain lo rs → All (Apart base end) rs
Chain-Apart lo base end [] h c = tt
Chain-Apart lo base end (r ∷ rs) h c =
    (inl (omega arith), Chain-Apart (r.base + r.size) base end rs (omega arith) c.4)

before_lower_bound_range :
    (lo key : ℕ) (rs : List MemoryRegion) (q : MemoryRegion)
    → Chain lo rs
    → before_lower_bound key rs ≡ some q
    → (lo ≤ q.base) × (q.base < key) × (q.base + q.size < 2 ^ 64) × (0 < q.size)
unfolding before_lower_bound
before_lower_bound_range lo key [] q c e = ground arith
before_lower_bound_range lo key (r ∷ rs) q c e =
    ground (arith, before_lower_bound_range (r.base + r.size) key rs q c.4)

module _ (base end : ℕ) (r : MemoryRegion) (rs : List MemoryRegion) where
  clears-cons_above :
      base ≤ r.base
      → (clears_next base end (r ∷ rs) && clears_previous base (r ∷ rs)) ≡ leb end r.base
  unfolding clears_next clears_previous
  clears-cons_above h = ground arith

  clears-cons_first :
      r.base < base
      → r.base + r.size < 2 ^ 64
      → before_lower_bound base rs ≡ none
      → (clears_next base end (r ∷ rs) && clears_previous base (r ∷ rs))
        ≡ ((clears_next base end rs && clears_previous base rs) && leb (r.base + r.size) base)
  unfolding clears_next clears_previous
  clears-cons_first h f e = ground (arith, checked_add-some r.base r.size f)

  clears-cons_later :
      {q : MemoryRegion}
      → r.base < base
      → before_lower_bound base rs ≡ some q
      → (clears_next base end (r ∷ rs) && clears_previous base (r ∷ rs))
        ≡ (clears_next base end rs && clears_previous base rs)
  unfolding clears_next clears_previous
  clears-cons_later h e = ground arith

-- The two tests of the neighbours speak for the whole list.
pub clears_iff :
    (lo base end : ℕ) (rs : List MemoryRegion)
    → Chain lo rs
    → base < end
    → ((clears_next base end rs && clears_previous base rs) ≡ true) ↔ All (Apart base end) rs
unfolding clears_next clears_previous
clears_iff lo base end [] c h = (λ _. tt, λ _. refl)
clears_iff lo base end (r ∷ rs) c h = elim (dec_lt r.base base) [
  | no above ↦ rw (clears-cons_above base end r rs (omega arith)) (
    (λ t. (
      inl (leb→le _ _ t),
      Chain-Apart (r.base + r.size) base end rs (omega (arith, leb→le _ _ t)) c.4,
    )),
    λ a. le→leb _ _ (omega (arith, a.0)),
  )
  | yes below ↦ elim (Option-cases (before_lower_bound base rs)) [
    | inl e ↦
        let ih = clears_iff (r.base + r.size) base end rs c.4 h in
        rw (clears-cons_first base end r rs below c.2 e) (
          λ t. let (l, p) = and_true t in (inr (leb→le _ _ p), ih.0 l),
          λ a. and_intro (ih.1 a.1) (le→leb _ _ (omega (arith, a.0))),
        )
    | inr (q, e) ↦
        let ih = clears_iff (r.base + r.size) base end rs c.4 h in
        let range = before_lower_bound_range (r.base + r.size) base rs q c.4 e in
        rw (clears-cons_later base end r rs below e)
          (λ t. (inr (omega (arith, range)), ih.0 t), λ a. ih.1 a.1)
  ]
]
