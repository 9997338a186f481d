-- ===== src/Prelude/Bits.antt =====
-- `&` and `|` at variables, as arithmetic: the digit recursions, masks and disjoint fields.
use Prim.Native.Nat.{
  ℕ, zero, suc, ◌+◌, ◌-◌, ◌*◌, ◌/◌, ◌%◌, ◌^◌, ◌≤◌, ◌<◌, min, max, bit_and, bit_or, digits, bitwise,
  bit_and-bitwise, bit_or-bitwise,
}
use mathlib.Core.Path.{◌≡◌, refl, ap, ◌∙◌}
use native.Mathlib.Nat.{pow-suc, le_refl, div-div-eq-div-mul, mod-add-div', one-le-pow}
use native.Mathlib.Omega.{arith}
use native.Mathlib.Decide.{dec_lt}

module _ (z : ℕ → ℕ) (f : ℕ → ℕ → ℕ) where
  -- More fuel than the first number changes nothing.
  digits_enough : (n m a b : ℕ) → a ≤ n → a ≤ m → digits z f n a b ≡ digits z f m a b
  digits_enough zero zero a b p q = refl
  digits_enough zero (suc m) zero b p q = refl
  digits_enough zero (suc m) (suc a) b p q = absurd (omega arith)
  digits_enough (suc n) zero zero b p q = refl
  digits_enough (suc n) zero (suc a) b p q = absurd (omega arith)
  digits_enough (suc n) (suc m) zero b p q = refl
  digits_enough (suc n) (suc m) (suc a) b p q =
      ap (λ (t : ℕ). t * 2 + f (suc a % 2) (b % 2))
        (digits_enough n m (suc a / 2) (b / 2) (omega arith) (omega arith))

  bitwise_digit :
      (a b : ℕ)
      → bitwise z f (suc a) b ≡ bitwise z f (suc a / 2) (b / 2) * 2 + f (suc a % 2) (b % 2)
  bitwise_digit a b =
      ap (λ (t : ℕ). t * 2 + f (suc a % 2) (b % 2))
        (digits_enough a (suc a / 2) (suc a / 2) (b / 2) (omega arith) (le_refl _))

pub bit_and-digit : (a b : ℕ) → bit_and a b ≡ bit_and (a / 2) (b / 2) * 2 + min (a % 2) (b % 2)
bit_and-digit zero b = simp bit_and-bitwise (omega arith)
bit_and-digit (suc a) b = simp bit_and-bitwise (bitwise_digit (λ y. 0) min a b)

pub bit_or-digit : (a b : ℕ) → bit_or a b ≡ bit_or (a / 2) (b / 2) * 2 + max (a % 2) (b % 2)
bit_or-digit zero b = simp bit_or-bitwise (omega arith)
bit_or-digit (suc a) b = simp bit_or-bitwise (bitwise_digit (λ y. y) max a b)

-- Zero on the right; the bound only drives the recursion.
and_zero_below : (n a : ℕ) → a ≤ n → bit_and a 0 ≡ 0
and_zero_below n zero h = simp bit_and-bitwise refl
and_zero_below zero (suc a) h = absurd (omega arith)
and_zero_below (suc n) (suc a) h =
    omega (arith, bit_and-digit (suc a) 0, and_zero_below n (suc a / 2) (omega arith))

or_zero_below : (n a : ℕ) → a ≤ n → bit_or a 0 ≡ a
or_zero_below n zero h = simp bit_or-bitwise refl
or_zero_below zero (suc a) h = absurd (omega arith)
or_zero_below (suc n) (suc a) h =
    omega (arith, bit_or-digit (suc a) 0, or_zero_below n (suc a / 2) (omega arith))

and_below : (n a b : ℕ) → a ≤ n → bit_and a b ≤ a
and_below n zero b h = simp bit_and-bitwise (omega arith)
and_below zero (suc a) b h = absurd (omega arith)
and_below (suc n) (suc a) b h =
    omega (arith, bit_and-digit (suc a) b, and_below n (suc a / 2) (b / 2) (omega arith))

pub bit_and-le : (a b : ℕ) → bit_and a b ≤ a
bit_and-le a b = and_below a a b (le_refl _)

pub bit_and-zero : (a : ℕ) → bit_and a 0 ≡ 0
bit_and-zero a = and_zero_below a a (le_refl _)

pub bit_or-zero : (a : ℕ) → bit_or a 0 ≡ a
bit_or-zero a = or_zero_below a a (le_refl _)

pub zero-bit_and : (a : ℕ) → bit_and 0 a ≡ 0
zero-bit_and a = simp bit_and-bitwise refl

double_scaled : (q k : ℕ) → q * 2 ^ suc k ≡ 2 * (q * 2 ^ k)
double_scaled q k = omega (arith, ap (λ (t : ℕ). q * t) (pow-suc 2 k))

-- A number that fits below a shifted one is added by `|`.
pub bit_or-shifted : (k q r : ℕ) → r < 2 ^ k → bit_or (q * 2 ^ k) r ≡ q * 2 ^ k + r
bit_or-shifted zero q r h = ground (arith, bit_or-zero q)
bit_or-shifted (suc k) q r h = ground (
  arith,
  bit_or-digit (q * 2 ^ suc k) r,
  double_scaled q k,
  pow-suc 2 k,
  bit_or-shifted k q (r / 2) (omega (arith, pow-suc 2 k)),
)

or_comm_below : (n a b : ℕ) → a ≤ n → bit_or a b ≡ bit_or b a
or_comm_below n zero b h = simp bit_or-bitwise (zero-or b)
  where
    zero-or : (c : ℕ) → c ≡ bitwise (λ y. y) max c 0
    zero-or c = simp (← bit_or-bitwise) (omega (arith, bit_or-zero c))
or_comm_below zero (suc a) b h = absurd (omega arith)
or_comm_below (suc n) (suc a) b h =
    ground
      (arith, bit_or-digit (suc a) b, bit_or-digit b (suc a), or_comm_below n (suc a / 2) (b / 2))

-- The same with the shifted number on the right.
pub bit_or-low : (k q r : ℕ) → r < 2 ^ k → bit_or r (q * 2 ^ k) ≡ q * 2 ^ k + r
bit_or-low k q r h = or_comm_below r r (q * 2 ^ k) (le_refl _) ∙ bit_or-shifted k q r h

halved_scaled : (x k : ℕ) → x / 2 / 2 ^ k ≡ x / 2 ^ suc k
halved_scaled x k =
    div-div-eq-div-mul x 2 (2 ^ k) ∙ ap (λ (t : ℕ). x / t) (omega (arith, pow-suc 2 k))

-- `&` with `m << k` keeps the bits above `k`.
pub bit_and-shifted : (k x m : ℕ) → bit_and x (m * 2 ^ k) ≡ bit_and (x / 2 ^ k) m * 2 ^ k
bit_and-shifted zero x m = ground arith
bit_and-shifted (suc k) x m = ground (
  arith,
  bit_and-digit x (m * 2 ^ suc k),
  double_scaled m k,
  bit_and-shifted k (x / 2) m,
  halved_scaled x k,
  double_scaled (bit_and (x / 2 ^ suc k) m) k,
)

-- `&` with `k` ones is the remainder.
pub bit_and-mask : (k x : ℕ) → bit_and x (2 ^ k - 1) ≡ x % 2 ^ k
bit_and-mask zero x = ground (arith, bit_and-zero x)
bit_and-mask (suc k) x = ground (
  arith,
  bit_and-digit x (2 ^ suc k - 1),
  bit_and-mask k (x / 2),
  pow-suc 2 k,
  one-le-pow k 2,
  halved_scaled x k,
  mod-add-div' (x / 2) (2 ^ k),
  mod-add-div' x (2 ^ suc k),
  double_scaled (x / 2 ^ suc k) k,
)

bit_and_self : (n a : ℕ) → a ≤ n → bit_and a a ≡ a
bit_and_self n zero h = simp bit_and-bitwise refl
bit_and_self zero (suc a) h = absurd (omega arith)
bit_and_self (suc n) (suc a) h =
    ground (arith, bit_and-digit (suc a) (suc a), bit_and_self n (suc a / 2) (omega arith))

-- `(a & (a - 1)) == 0` holds of a power of two, and of no other number but 0.
pub pow_two_test : (k : ℕ) → bit_and (2 ^ k) (2 ^ k - 1) ≡ 0
pow_two_test zero = refl
pow_two_test (suc k) =
    ground (
      arith,
      bit_and-digit (2 ^ suc k) (2 ^ suc k - 1),
      pow-suc 2 k,
      one-le-pow k 2,
      pow_two_test k,
    )

pow_two_of_test : (n a : ℕ) → a ≤ n → 0 < a → bit_and a (a - 1) ≡ 0 → (k : ℕ) × (a ≡ 2 ^ k)
pow_two_of_test n zero h p e = absurd (omega arith)
pow_two_of_test zero (suc a) h p e = absurd (omega arith)
pow_two_of_test (suc n) (suc a) h p e = elim (dec_lt 0 (suc a % 2)) [
  | yes odd ↦ (0, ground (arith, bit_and-digit (suc a) (suc a - 1), bit_and_self n (suc a / 2)))
  | no even ↦
      let halved : bit_and (suc a / 2) (suc a / 2 - 1) ≡ 0 =
        ground (arith, bit_and-digit (suc a) (suc a - 1)) in
      let (k, q) = pow_two_of_test n (suc a / 2) (omega arith) (omega arith) halved in
      (suc k, omega (arith, pow-suc 2 k))
]

pub pow_two_test_iff :
    (a : ℕ)
    → 0 < a
    → (bit_and a (a - 1) ≡ 0 → (k : ℕ) × (a ≡ 2 ^ k))
      × ((k : ℕ) → a ≡ 2 ^ k → bit_and a (a - 1) ≡ 0)
pow_two_test_iff a h = (pow_two_of_test a a (le_refl _) h, λ k e. rw e (pow_two_test k))

pub bit_or_lt : (k a b : ℕ) → a < 2 ^ k → b < 2 ^ k → bit_or a b < 2 ^ k
bit_or_lt zero a zero h1 h2 = omega (arith, bit_or-zero a)
bit_or_lt zero a (suc b) h1 h2 = absurd (omega arith)
bit_or_lt (suc k) a b h1 h2 =
    omega (arith, bit_or-digit a b, bit_or_lt k (a / 2) (b / 2) (omega arith) (omega arith))
