-- ===== src/Base/Checked.antt =====
-- The overflow-checked arithmetic of src/base.cc.
use binforge.Prelude.{
  ℕ, zero, suc, ◌+◌, ◌-◌, ◌*◌, ◌/◌, ◌%◌, ◌^◌, ◌≤◌, ◌<◌, ◌≡◌, refl, ap, ◌↔◌, bit_and, true, none,
  some, arith, Bool-cases, ◌==◌, inl, inr, ◌∙◌, if◌then◌else◌, ltb, ==→eq, ◌≢◌, sym, ◌⊎◌,
}
use binforge.Prelude.Bits.{bit_and-shifted, bit_and-mask, pow_two_test_iff, pow_two_test}
use binforge.Base.{checked_add, checked_multiply, checked_align_up, range_inside, u64_max}
use native.Mathlib.Nat.{
  one-le-pow, pow-le-pow_right, div-lt_iff_lt-mul, mod-add-div', pow-suc, mod-eq_of_lt,
  div-eq_of_lt-le, mod-lt, mul-mod_left,
}
use native.Mathlib.Decide.{dec_lt, ℕ_discrete}
use mathlib.Core.Path.{subst}

-- On 64-bit operands the checked sum is the true sum exactly when that fits 64 bits.
pub checked_add_iff :
    (a b c : ℕ)
    → a < 2 ^ 64
    → b < 2 ^ 64
    → (checked_add a b ≡ some c) ↔ ((c ≡ a + b) × (a + b < 2 ^ 64))
unfolding checked_add
checked_add_iff a b c ha hb = ground arith

pub checked_add-some : (a b : ℕ) → a + b < 2 ^ 64 → checked_add a b ≡ some (a + b)
unfolding checked_add
checked_add-some a b h = ground arith

pub checked_add_bound :
    (a b c : ℕ) → a < 2 ^ 64 → checked_add a b ≡ some c → (c ≡ a + b) × (a + b < 2 ^ 64)
unfolding checked_add
checked_add_bound a b c ha h = ground arith

-- A range is inside a container exactly when its true end, which does not wrap, is at most the size.
pub range_inside_iff : (o l n : ℕ) → (range_inside o l n ≡ true) ↔ (o + l ≤ n)
unfolding range_inside
range_inside_iff o l n = ground arith

product_bound : (a b : ℕ) → 0 < a → (b ≤ u64_max / a) ↔ (a * b < 2 ^ 64)
product_bound a b h =
    let test = div-lt_iff_lt-mul {k = a} {x = u64_max} {y = b} h in
    (λ p. grind (arith, test.1), λ p. grind (arith, test.0))

-- The checked product is the true product exactly when that fits 64 bits.
pub checked_multiply_iff :
    (a b c : ℕ) → (checked_multiply a b ≡ some c) ↔ ((c ≡ a * b) × (a * b < 2 ^ 64))
unfolding checked_multiply
checked_multiply_iff zero b c = ground arith
checked_multiply_iff (suc a) b c = ground (arith, product_bound (suc a) b (omega arith))

two_pow_split : (k n : ℕ) → 2 ^ (k + n) ≡ 2 ^ n * 2 ^ k
two_pow_split zero n = let e : zero + n ≡ n = omega arith in rw e (omega arith)
two_pow_split (suc k) n = omega (
  arith,
  pow-suc 2 (k + n),
  pow-suc 2 k,
  two_pow_split k n,
  ap (λ (t : ℕ). 2 ^ n * t) (pow-suc 2 k),
  ap (λ (t : ℕ). 2 ^ t) (let e : suc k + n ≡ suc (k + n) = omega arith in e),
)

-- The mask `~(2^k - 1)` on 64 bits clears the low `k` bits.
align_mask : (k e : ℕ) → k < 64 → e < 2 ^ 64 → bit_and e (u64_max - (2 ^ k - 1)) ≡ e / 2 ^ k * 2 ^ k
align_mask k e hk he =
    ap (bit_and e) ones
    ∙ bit_and-shifted k e (2 ^ (64 - k) - 1)
    ∙ ap (λ (t : ℕ). t * 2 ^ k)
        (bit_and-mask (64 - k) (e / 2 ^ k)
          ∙ mod-eq_of_lt
              ((div-lt_iff_lt-mul (one-le-pow k 2 (omega arith))).1 (omega (arith, split))))
  where
    split : 2 ^ 64 ≡ 2 ^ (64 - k) * 2 ^ k
    split =
        let e : 64 ≡ k + (64 - k) = omega arith in
        ap (λ (t : ℕ). 2 ^ t) e ∙ two_pow_split k (64 - k)

    ones : u64_max - (2 ^ k - 1) ≡ (2 ^ (64 - k) - 1) * 2 ^ k
    ones =
        let less : 2 ^ (64 - k) ≡ 2 ^ (64 - k) - 1 + 1 =
          omega (arith, one-le-pow (64 - k) 2 (omega arith)) in
        omega (arith, split, one-le-pow k 2 (omega arith), ap (λ (t : ℕ). t * 2 ^ k) less)

power_below : (k : ℕ) → k < 64 → (0 < 2 ^ k) × (2 ^ k < 2 ^ 64)
power_below k h = (
  one-le-pow k 2 (omega arith),
  omega (arith, pow-le-pow_right {n = 2} (omega arith) {i = k} {j = 63} (omega arith)),
)

exponent_below : (k : ℕ) → 2 ^ k < 2 ^ 64 → k < 64
exponent_below k h = elim (dec_lt k 64) [
  | yes p ↦ p
  | no p ↦
      absurd (omega (arith, pow-le-pow_right {n = 2} (omega arith) {i = 64} {j = k} (omega arith)))
]

align_up_pow :
    (v k : ℕ)
    → v < 2 ^ 64
    → k < 64
    → checked_align_up v (2 ^ k)
      ≡ (if ltb (v + (2 ^ k - 1)) (2 ^ 64) then some ((v + (2 ^ k - 1)) / 2 ^ k * 2 ^ k) else none)
unfolding checked_align_up checked_add
align_up_pow v k hv hk =
    ground (arith, power_below k hk, pow_two_test k, align_mask k (v + (2 ^ k - 1)) hk)

align_up_other : (v a : ℕ) → ((k : ℕ) → a ≢ 2 ^ k) → checked_align_up v a ≡ none
unfolding checked_align_up
align_up_other v zero h = refl
align_up_other v (suc a) h = elim (Bool-cases (bit_and (suc a) (suc a - 1) == 0)) [
  | inl e ↦ let (k, p) = (pow_two_test_iff (suc a) (omega arith)).0 (==→eq _ _ e) in absurd (h k p)
  | inr e ↦ ground (arith, e)
]

-- `r` is the least multiple of the power of two `a` that is not below `v`, and the way to it stays in 64 bits.
pub record IsAlignedUp (v a r : ℕ) : Type 0 where
  pub power : (k : ℕ) × (a ≡ 2 ^ k)
  pub multiple : r % a ≡ 0
  pub above : v ≤ r
  pub near : r < v + a
  pub fits : v + (a - 1) < 2 ^ 64

rounded : (x a r : ℕ) → 0 < a → r % a ≡ 0 → x < r + a → r ≤ x → x / a * a ≡ r
rounded x a r h m p q =
    let whole = mod-add-div' r a in
    let same : x / a ≡ r / a = div-eq_of_lt-le a (omega (arith, whole)) (omega (arith, whole)) in
    ap (λ (t : ℕ). t * a) same ∙ omega (arith, whole)

round_down : (x a : ℕ) → 0 < a → (x / a * a % a ≡ 0) × (x / a * a ≤ x) × (x < x / a * a + a)
round_down x a h = (
  mul-mod_left (x / a) a,
  omega (arith, mod-add-div' x a),
  omega (arith, mod-add-div' x a, mod-lt x h),
)

aligned_of_some :
    (v k r : ℕ)
    → v < 2 ^ 64
    → k < 64
    → checked_align_up v (2 ^ k) ≡ some r
    → IsAlignedUp v (2 ^ k) r
aligned_of_some v k r hv hk e =
    let (low, high) = power_below k hk in
    let (m, p, q) = round_down (v + (2 ^ k - 1)) (2 ^ k) low in
    let (is, fits) = facts in
    record {
      power = (k, refl);
      multiple = rw is m;
      above = omega (arith, is);
      near = omega (arith, is);
      fits = fits;
    }
  where
    facts : (r ≡ (v + (2 ^ k - 1)) / 2 ^ k * 2 ^ k) × (v + (2 ^ k - 1) < 2 ^ 64)
    facts = ground (arith, align_up_pow v k hv hk)

pow_two-cases : (a : ℕ) → ((k : ℕ) × (a ≡ 2 ^ k)) ⊎ ((k : ℕ) → a ≢ 2 ^ k)
pow_two-cases zero = inr (λ k e. omega (arith, one-le-pow k 2 (omega arith)))
pow_two-cases (suc a) = elim (ℕ_discrete (bit_and (suc a) (suc a - 1)) 0) [
  | yes e ↦ inl ((pow_two_test_iff (suc a) (omega arith)).0 e)
  | no n ↦ inr (λ k e. n ((pow_two_test_iff (suc a) (omega arith)).1 k e))
]

some_of_aligned :
    (v k r : ℕ)
    → v < 2 ^ 64
    → k < 64
    → r % 2 ^ k ≡ 0
    → v ≤ r
    → r < v + 2 ^ k
    → v + (2 ^ k - 1) < 2 ^ 64
    → checked_align_up v (2 ^ k) ≡ some r
some_of_aligned v k r hv hk m p q fits =
    let low = (power_below k hk).0 in
    ground (
      arith,
      align_up_pow v k hv hk,
      rounded (v + (2 ^ k - 1)) (2 ^ k) r low m (omega arith) (omega arith),
    )

-- On 64-bit operands `checked_align_up` succeeds exactly when the alignment is a power of two and the sum does not
-- overflow, and then returns the least multiple that is not below the value.
pub checked_align_up_iff :
    (v a r : ℕ) → v < 2 ^ 64 → a < 2 ^ 64 → (checked_align_up v a ≡ some r) ↔ IsAlignedUp v a r
checked_align_up_iff v a r hv ha = (
  λ e. elim (pow_two-cases a) [
    | inl (k, p) ↦
        subst (λ b. IsAlignedUp v b r) (sym p)
          (aligned_of_some v k r hv (exponent_below k (omega arith)) (rw (← p) e))
    | inr other ↦ cc (align_up_other v a other)
  ],
  λ al.
      let (k, p) = al.power in
      let hk = exponent_below k (omega arith) in
      rw p
        (some_of_aligned v k r hv hk (rw (← p) al.multiple) al.above (omega arith) (omega arith)),
)
