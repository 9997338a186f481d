-- ===== src/Reader.antt =====
-- src/reader.cc: `ByteReader`.
-- `data_` is the list of the `size_` bytes it points to, and is not null. A method that returns
-- false has a result too, the reader that it leaves behind.
pub mod Laws
pub mod Decoder
pub mod Container
use binforge.Prelude.{
  ℕ, zero, suc, ◌+◌, ◌-◌, ◌*◌, ◌%◌, ◌^◌, ◌<◌, bit_and, bit_or, Bool, true, false, ◌&&◌, ◌||◌, not,
  Option, none, some, List, [], ◌∷◌, ltb, leb, ◌==◌, if◌then◌else◌, Text, length, take, drop,
  get_elem?,
}
use binforge.Base.{checked_add, range_inside, u64_max}
use binforge.Base.Word.{ByteOrder, little, big, from_bytes}

pub record ByteReader : Type 0 where
  pub bytes : List ℕ
  pub position : ℕ
  pub order : ByteOrder

pub data Reading {ℓ} (A : Type ℓ) : Type ℓ where
  got : A → ByteReader → Reading A
  short : ByteReader → Reading A

unfoldable pub size : ByteReader → ℕ
size r = length r.bytes

unfoldable pub remaining : ByteReader → ℕ
unfolding size
remaining r = if leb r.position (size r) then size r - r.position else 0

unfoldable pub seek : ℕ → ByteReader → Reading (Unit {0})
unfolding size
seek position r =
    if ltb (size r) position then short r else got tt (record r { position = position })

unfoldable pub skip : ℕ → ByteReader → Reading (Unit {0})
unfolding seek
skip amount r = elim (checked_add r.position amount) [ none ↦ short r | some next ↦ seek next r ]

-- The bytes that the pointer leads to, as many as were asked for.
unfoldable pub pointer : ℕ → ℕ → ByteReader → Option (List ℕ)
unfolding size
pointer offset count r =
    if range_inside offset count (size r) then some (take count (drop offset r.bytes)) else none

advance : ℕ → ByteReader → ByteReader
advance n r = record r { position = r.position + n }

unfoldable pub read_u8 : ByteReader → Reading ℕ
unfolding advance remaining
read_u8 r =
    if remaining r == 0
    then short r
    else elim (get_elem? r.bytes r.position) [ none ↦ short r | some b ↦ got b (advance 1 r) ]

-- `count` bytes at the position, as a number of a type of `modulus` values.
read_word : ℕ → ℕ → ByteReader → Reading ℕ
unfolding pointer advance
read_word modulus count r = elim (pointer r.position count r) [
  | none ↦ short r
  | some p ↦ got (from_bytes modulus r.order p) (advance count r)
]

-- The two bytes of `read_u16`, joined by `|` in the order of the source.
join_u16 : ByteOrder → List ℕ → ℕ
join_u16 little (a ∷ b ∷ bs) = bit_or a (b * 2 ^ 8)
join_u16 big (a ∷ b ∷ bs) = bit_or (a * 2 ^ 8) b
join_u16 order bs = 0

unfoldable pub read_u16 : ByteReader → Reading ℕ
unfolding pointer advance join_u16
read_u16 r = elim (pointer r.position 2 r) [
  | none ↦ short r
  | some p ↦ got (join_u16 r.order p) (advance 2 r)
]

unfoldable pub read_u32 : ByteReader → Reading ℕ
unfolding read_word
read_u32 r = read_word (2 ^ 32) 4 r

unfoldable pub read_u64 : ByteReader → Reading ℕ
unfolding read_word
read_u64 r = read_word (2 ^ 64) 8 r

-- A signed integer is kept as its bit pattern, which is what `memcpy` copies.
unfoldable pub read_i32 : ByteReader → Reading ℕ
unfolding read_u32
read_i32 r = read_u32 r

unfoldable pub read_i64 : ByteReader → Reading ℕ
unfolding read_u64
read_i64 r = read_u64 r

-- `shift` passes 64 after ten rounds, so eleven are enough.
uleb_loop : ℕ → ℕ → ℕ → ByteReader → Reading ℕ
uleb_loop zero shift value r = short r
uleb_loop (suc rounds) shift value r = if leb 64 shift then short r else elim (read_u8 r) [
  | short r' ↦ short r'
  | got byte r' ↦
      let payload = bit_and byte 0x7f in
      let value' = bit_or value (payload * 2 ^ shift % 2 ^ 64) in
      let more = uleb_loop rounds (shift + 7) value' r' in
      if shift == 63 && ltb 1 payload
      then short r'
      else if bit_and byte 0x80 == 0
      then got value' r'
      else more
]

unfoldable pub read_uleb128 : ByteReader → Reading ℕ
unfolding uleb_loop
read_uleb128 r = uleb_loop 11 0 0 r

-- The result is a bit pattern of 64 bits; `sleb_sign` sets the bits above the last group.
sleb_sign : ℕ → ℕ → ℕ → ℕ
sleb_sign byte shift raw =
    if ltb shift 64 && not (bit_and byte 0x40 == 0)
    then bit_or raw (u64_max * 2 ^ shift % 2 ^ 64)
    else raw

sleb_loop : ℕ → ℕ → ℕ → ByteReader → Reading ℕ
unfolding sleb_sign
sleb_loop zero shift raw r = short r
sleb_loop (suc rounds) shift raw r = if leb 64 shift then short r else elim (read_u8 r) [
  | short r' ↦ short r'
  | got byte r' ↦
      let raw' = bit_or raw (bit_and byte 0x7f * 2 ^ shift % 2 ^ 64) in
      let more = sleb_loop rounds (shift + 7) raw' r' in
      if bit_and byte 0x80 == 0 then got (sleb_sign byte (shift + 7) raw') r' else more
]

unfoldable pub read_sleb128 : ByteReader → Reading ℕ
unfolding sleb_loop
read_sleb128 r = sleb_loop 11 0 0 r

unfoldable pub read_bytes : ℕ → ByteReader → Reading (List ℕ)
unfolding pointer advance
read_bytes count r = elim (pointer r.position count r) [
  | none ↦ short r
  | some p ↦ got p (advance count r)
]

-- The bytes before the first zero, or all of them.
before_zero : List ℕ → List ℕ
before_zero [] = []
before_zero (b ∷ bs) = if b == 0 then [] else b ∷ before_zero bs

has_zero : List ℕ → Bool
has_zero [] = false
has_zero (b ∷ bs) = b == 0 || has_zero bs

unfoldable pub read_fixed_string : ℕ → ByteReader → Reading Text
unfolding pointer advance before_zero
read_fixed_string count r = elim (pointer r.position count r) [
  | none ↦ short r
  | some p ↦ got (before_zero p) (advance count r)
]

-- `memchr` looks for the terminator among the `limit` bytes from `offset` on.
unfoldable pub read_c_string : ℕ → ℕ → ByteReader → Option Text
unfolding size before_zero has_zero
read_c_string offset limit r =
    if ltb (size r) offset || ltb (size r - offset) limit
    then none
    else let window = take limit (drop offset r.bytes) in
      if has_zero window then some (before_zero window) else none
