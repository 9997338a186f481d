-- ===== src/Reader/Laws.antt =====
-- What the reader gives on input that was written byte by byte, and where it stands after a call.
use binforge.Prelude.{
  ℕ, ◌^◌, ◌≤◌, ◌<◌, ◌≡◌, refl, ◌⊎◌, inl, inr, true, not, some, List, [], ◌∷◌, ◌++◌, append_assoc,
  length, length-append, get_elem?, take-append_length, drop-append_length, arith, ltb, ◌==◌,
}
use binforge.Base.{range_inside}
use binforge.Base.Word.{little, to_bytes, le_bytes, from_bytes-to_bytes, length-le_bytes}
use native.Mathlib.Nat.{mod-eq_of_lt}
use mathlib.Core.Path.{subst}
use binforge.Reader.{
  ByteReader, Reading, got, short, size, remaining, pointer, advance, read_u8, read_word, read_u32,
  read_u64, read_bytes,
}

-- A little endian reader that stands between two parts of its input.
abbrev pub between : List ℕ → List ℕ → ByteReader
between front back = record { bytes = front ++ back; position = length front; order = little }

pub remaining-between : (front back : List ℕ) → remaining (between front back) ≡ length back
unfolding remaining
remaining-between front back = ground (arith, length-append front back)

-- The test `size > reader.remaining()` of the decoders fails on a reader before such an item.
pub enough-between :
    (front item back : List ℕ)
    → not (ltb (remaining (between front (item ++ back))) (length item)) ≡ true
enough-between front item back =
    ground (arith, remaining-between front (item ++ back), length-append item back)

pub at_end-between : (front : List ℕ) → (remaining (between front []) == 0) ≡ true
at_end-between front = ground (arith, remaining-between front [])

pointer-between :
    (front item back : List ℕ)
    → pointer (length front) (length item) (between front (item ++ back)) ≡ some item
unfolding pointer size range_inside
pointer-between front item back = ground (
  arith,
  length-append front (item ++ back),
  length-append item back,
  drop-append_length front (item ++ back),
  take-append_length item back,
)

-- The reader behind the item stands after it.
advance-between :
    (n : ℕ) (front item back : List ℕ)
    → length item ≡ n
    → advance n (between front (item ++ back)) ≡ between (front ++ item) back
unfolding advance
advance-between n front item back h =
    ground (arith, h, append_assoc front item back, length-append front item)

pub read_u8-between :
    (front : List ℕ) (b : ℕ) (back : List ℕ)
    → read_u8 (between front (b ∷ back)) ≡ got b (between (front ++ (b ∷ [])) back)
unfolding read_u8
read_u8-between front b back = ground (
  arith,
  remaining-between front (b ∷ back),
  get_elem?-middle front,
  advance-between 1 front (b ∷ []) back refl,
)
  where
    get_elem?-middle : (xs : List ℕ) → get_elem? (xs ++ (b ∷ back)) (length xs) ≡ some b
    get_elem?-middle [] = refl
    get_elem?-middle (x ∷ xs) = get_elem?-middle xs

read_word-between :
    (modulus n v : ℕ) (front back : List ℕ)
    → 256 ^ n ≤ modulus
    → v < 256 ^ n
    → read_word modulus n (between front (le_bytes n v ++ back))
      ≡ got v (between (front ++ le_bytes n v) back)
unfolding read_word to_bytes
read_word-between modulus n v front back h lt = ground (
  arith,
  subst (λ k. pointer (length front) k (between front (le_bytes n v ++ back)) ≡ some (le_bytes n v))
      (length-le_bytes n v) (pointer-between front (le_bytes n v) back),
  advance-between n front (le_bytes n v) back (length-le_bytes n v),
  from_bytes-to_bytes modulus n little v h,
  mod-eq_of_lt {n = v} {m = 256 ^ n} lt,
)

pub read_u32-between :
    (v : ℕ) (front back : List ℕ)
    → v < 2 ^ 32
    → read_u32 (between front (le_bytes 4 v ++ back)) ≡ got v (between (front ++ le_bytes 4 v) back)
unfolding read_u32
read_u32-between v front back h =
    read_word-between (2 ^ 32) 4 v front back (omega arith) (omega arith)

pub read_u64-between :
    (v : ℕ) (front back : List ℕ)
    → v < 2 ^ 64
    → read_u64 (between front (le_bytes 8 v ++ back)) ≡ got v (between (front ++ le_bytes 8 v) back)
unfolding read_u64
read_u64-between v front back h =
    read_word-between (2 ^ 64) 8 v front back (omega arith) (omega arith)

pub read_bytes-between :
    (front item back : List ℕ)
    → read_bytes (length item) (between front (item ++ back))
      ≡ got item (between (front ++ item) back)
unfolding read_bytes
read_bytes-between front item back =
    ground
      (arith, pointer-between front item back, advance-between (length item) front item back refl)

pub Reading-cases :
    {A : Type 0} (r : Reading A)
    → ((a : A) × (r' : ByteReader) × (r ≡ got a r')) ⊎ ((r' : ByteReader) × (r ≡ short r'))
Reading-cases (got a r) = inl (a, r, refl)
Reading-cases (short r) = inr (r, refl)
