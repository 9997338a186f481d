-- ===== src/Base/Word.antt =====
-- The byte loops that src/reader.cc, src/address_space.cc, src/snapshot.cc and src/patch_engine.cc
-- share: `value = (value << 8) | byte` and `byte = (uint8_t)(value >> shift)`.
use binforge.Prelude.{
  ℕ, zero, suc, ◌+◌, ◌*◌, ◌/◌, ◌%◌, ◌^◌, ◌≤◌, ◌<◌, ◌≡◌, refl, ap, sym, ◌∙◌, arith, bit_or, List, [],
  ◌∷◌, foldl, reverse, length, length-append,
}
use binforge.Prelude.Bits.{bit_or-shifted, bit_or-low}
use mathlib.Core.List.{reverse-cons, foldl-append}
use native.Mathlib.Nat.{
  mod-add-div', div-div-eq-div-mul, pow-suc, mul_comm, mod-lt, mod-eq_of_lt, one-le-pow,
}

pub data ByteOrder : Type 0 where
  little big : ByteOrder

abbrev pub IsByte : ℕ → Type 0
IsByte b = b < 256

-- `value = (value << 8) | byte` in a type of `modulus` values.
unfoldable pub shift_in : ℕ → ℕ → ℕ → ℕ
shift_in modulus value byte = bit_or (value * 2 ^ 8 % modulus) byte

-- The loop goes down from the last byte in little endian order, and up from the first in big.
unfoldable pub from_bytes : ℕ → ByteOrder → List ℕ → ℕ
from_bytes modulus little bytes = foldl (shift_in modulus) 0 (reverse bytes)
from_bytes modulus big bytes = foldl (shift_in modulus) 0 bytes

-- The low `n` bytes of a value, lowest first: byte `i` is `(uint8_t)(value >> (8 * i))`.
unfoldable pub le_bytes : ℕ → ℕ → List ℕ
le_bytes zero value = []
le_bytes (suc n) value = (value % 2 ^ 8) ∷ le_bytes n (value / 2 ^ 8)

unfoldable pub to_bytes : ℕ → ByteOrder → ℕ → List ℕ
to_bytes n little value = le_bytes n value
to_bytes n big value = reverse (le_bytes n value)

-- The last four bytes of a container, joined by `|` with the lowest first.
unfoldable pub join_u32 : List ℕ → ℕ
join_u32 (a ∷ b ∷ c ∷ d ∷ bs) = bit_or (bit_or (bit_or a (b * 2 ^ 8)) (c * 2 ^ 16)) (d * 2 ^ 24)
join_u32 bs = 0

pub length-le_bytes : (n value : ℕ) → length (le_bytes n value) ≡ n
unfolding le_bytes
length-le_bytes zero value = refl
length-le_bytes (suc n) value = ap suc (length-le_bytes n (value / 2 ^ 8))

pub length-reverse {ℓ} : {A : Type ℓ} (xs : List A) → length (reverse xs) ≡ length xs
length-reverse [] = refl
length-reverse (x ∷ xs) =
    omega
      (arith, ap length (reverse-cons x xs), length-append (reverse xs) (x ∷ []), length-reverse xs)

pub length-to_bytes : (n : ℕ) (order : ByteOrder) (value : ℕ) → length (to_bytes n order value) ≡ n
unfolding to_bytes
length-to_bytes n little value = length-le_bytes n value
length-to_bytes n big value = length-reverse (le_bytes n value) ∙ length-le_bytes n value

low_split : (n v : ℕ) → v / 256 % 256 ^ n * 256 + v % 256 ≡ v % 256 ^ suc n
low_split n v = omega (
  arith,
  mod-add-div' (v / 256) (256 ^ n),
  mod-add-div' v (256 ^ suc n),
  div-div-eq-div-mul v 256 (256 ^ n)
      ∙ ap (λ (t : ℕ). v / t) (mul_comm 256 (256 ^ n) ∙ sym (pow-suc 256 n)),
  ap (λ (t : ℕ). v / 256 ^ suc n * t) (pow-suc 256 n),
  ap (λ (t : ℕ). t * 256 ^ n)
      (div-div-eq-div-mul v 256 (256 ^ n)
        ∙ ap (λ (t : ℕ). v / t) (mul_comm 256 (256 ^ n) ∙ sym (pow-suc 256 n))),
)

-- Shifting the low byte into the higher ones gives the low bytes of the value.
shift_in-low :
    (m n v : ℕ) → 256 ^ suc n ≤ m → shift_in m (v / 256 % 256 ^ n) (v % 256) ≡ v % 256 ^ suc n
unfolding shift_in
shift_in-low m n v h =
    ap (λ (t : ℕ). bit_or t (v % 256)) (mod-eq_of_lt room)
    ∙ bit_or-shifted 8 (v / 256 % 256 ^ n) (v % 256) (omega arith)
    ∙ low_split n v
  where
    room : v / 256 % 256 ^ n * 256 < m
    room = omega (arith, mod-lt (v / 256) (one-le-pow n 256 (omega arith)), pow-suc 256 n)

fold_le_bytes :
    (m n v : ℕ) → 256 ^ n ≤ m → foldl (shift_in m) 0 (reverse (le_bytes n v)) ≡ v % 256 ^ n
unfolding le_bytes
fold_le_bytes m zero v h = omega arith
fold_le_bytes m (suc n) v h =
    ap (foldl (shift_in m) 0) (reverse-cons (v % 256) (le_bytes n (v / 256)))
    ∙ foldl-append (shift_in m) 0 (reverse (le_bytes n (v / 256))) ((v % 256) ∷ [])
    ∙ ap (λ (t : ℕ). shift_in m t (v % 256))
        (fold_le_bytes m n (v / 256) (omega (arith, pow-suc 256 n, one-le-pow n 256 (omega arith))))
    ∙ shift_in-low m n v h

-- In either order, what `to_bytes` writes reads back as the value cut to that
-- many bytes, into a word that has room for them.
pub from_bytes-to_bytes :
    (modulus n : ℕ) (order : ByteOrder) (value : ℕ)
    → 256 ^ n ≤ modulus
    → from_bytes modulus order (to_bytes n order value) ≡ value % 256 ^ n
unfolding from_bytes to_bytes
from_bytes-to_bytes m n little v h = fold_le_bytes m n v h
from_bytes-to_bytes m n big v h = fold_le_bytes m n v h

pub join_u32-le_bytes : (v : ℕ) → v < 2 ^ 32 → join_u32 (le_bytes 4 v) ≡ v
unfolding join_u32 le_bytes
join_u32-le_bytes v h = ground (
  arith,
  bit_or-low 8 (v / 256 % 256) (v % 256),
  bit_or-low 16 (v / 256 / 256 % 256) (v / 256 % 256 * 2 ^ 8 + v % 256),
  bit_or-low 24 (v / 256 / 256 / 256 % 256)
      (v / 256 / 256 % 256 * 2 ^ 16 + (v / 256 % 256 * 2 ^ 8 + v % 256)),
)
