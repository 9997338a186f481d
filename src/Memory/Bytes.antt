-- ===== src/Memory/Bytes.antt =====
-- `read`, `write` and `protect` on a well-formed address space, and the bytes that it shows.
use binforge.Prelude.{
  ℕ, zero, suc, ◌+◌, ◌-◌, ◌≤◌, ◌<◌, ◌≡◌, refl, sym, inl, inr, Bool, true, ◌&&◌, some, List, [], ◌∷◌,
  length, take, drop, get_elem?, arith, Option-cases, ltb, leb, if◌then◌else◌, length-take,
  length-drop,
}
use mathlib.Core.Path.{subst}
use binforge.Base.{ok, range_inside}
use binforge.Region.{
  MemoryRegion, before_upper_bound, find_region, modify, splice, allows, contains, permission_read,
}
use binforge.Region.Lookup.{before_upper_bound-Found, before_upper_bound-modify}
use binforge.Region.View.{
  byte_at, byte_at-found, byte_at-modify, get_elem?-cut, length-splice, get_elem?-splice,
}
use binforge.Region.Update.{KeepsShape}
use binforge.Memory.{AddressSpace, region_at, region_of_range, read, write}
use binforge.Memory.Invariant.{IsValid, modify-IsValid}

-- The region that a range lies in, and what is known of it.
pub record Holds (a n : ℕ) (s : AddressSpace) (r : MemoryRegion) : Type 0 where
  pub candidate : before_upper_bound a s.regions ≡ some r
  pub found : find_region r.base s.regions ≡ some r
  pub low : r.base ≤ a
  pub high : a + n ≤ r.base + r.size
  pub inside : a < r.base + r.size
  pub whole : length r.bytes ≡ r.size

pub region_of_range-Holds :
    (a n : ℕ) (s : AddressSpace) (r : MemoryRegion)
    → IsValid s
    → region_of_range a n s ≡ some r
    → Holds a n s r
unfolding region_of_range region_at contains range_inside
region_of_range-Holds a n s r v e = elim (Option-cases (before_upper_bound a s.regions)) [
  | inl nothing ↦ ground (arith, nothing)
  | inr (q, there) ↦ ground (arith, there, before_upper_bound-Found 0 a s.regions q v.chain there)
]

pub region_of_range-of-Holds :
    (a n : ℕ) (s : AddressSpace) (r : MemoryRegion) → Holds a n s r → region_of_range a n s ≡ some r
unfolding region_of_range region_at contains range_inside
region_of_range-of-Holds a n s r h = ground (arith, h.candidate, h.low, h.high, h.inside)

abbrev pub change_region :
    MemoryRegion → (MemoryRegion → MemoryRegion) → AddressSpace → AddressSpace
change_region r change s = record s { regions = modify r.base change s.regions }

-- After a change of that region the range lies in the changed one.
pub Holds-change_region :
    (a n : ℕ) (s : AddressSpace) (r : MemoryRegion) (change : MemoryRegion → MemoryRegion)
    → IsValid s
    → Holds a n s r
    → KeepsShape change r
    → region_of_range a n (change_region r change s) ≡ some (change r)
unfolding region_of_range region_at contains range_inside
Holds-change_region a n s r change v h k = ground (
  arith,
  before_upper_bound-modify 0 a s.regions r change v.chain h.candidate k,
  h.low,
  h.high,
  h.inside,
  k.base_kept,
  k.size_kept,
)

abbrev pub overwrite : ℕ → List ℕ → MemoryRegion → MemoryRegion
overwrite a input r = record r { bytes = splice (a - r.base) input r.bytes }

pub overwrite-KeepsShape :
    (a : ℕ) (input : List ℕ) (s : AddressSpace) (r : MemoryRegion)
    → Holds a (length input) s r
    → KeepsShape (overwrite a input) r
overwrite-KeepsShape a input s r h = record {
  base_kept = refl;
  size_kept = refl;
  length_kept = length-splice (a - r.base) input r.bytes (omega (arith, h.low, h.high, h.whole));
}

pub write_inverse :
    (a : ℕ) (input : List ℕ) (ignore : Bool) (s t : AddressSpace)
    → IsValid s
    → 0 < length input
    → write a input ignore s ≡ ok t
    → (r : MemoryRegion) × Holds a (length input) s r × (t ≡ change_region r (overwrite a input) s)
unfolding write
write_inverse a input ignore s t v n e = elim (Option-cases (region_of_range a (length input) s)) [
  | inl nothing ↦ ground (arith, nothing)
  | inr (r, there) ↦ (r, region_of_range-Holds a (length input) s r v there, ground (arith, there))
]

pub read_inverse :
    (a n : ℕ) (s : AddressSpace) (bytes : List ℕ)
    → IsValid s
    → 0 < n
    → read a n s ≡ ok bytes
    → (r : MemoryRegion) × Holds a n s r
      × (allows r.permissions permission_read ≡ true)
      × (bytes ≡ take n (drop (a - r.base) r.bytes))
unfolding read
read_inverse a n s bytes v p e = elim (Option-cases (region_of_range a n s)) [
  | inl nothing ↦ ground (arith, nothing)
  | inr (r, there) ↦
      (r, region_of_range-Holds a n s r v there, ground (arith, there), ground (arith, there))
]

pub read_of :
    (a n : ℕ) (s : AddressSpace) (r : MemoryRegion)
    → region_of_range a n s ≡ some r
    → allows r.permissions permission_read ≡ true
    → 0 < n
    → read a n s ≡ ok (take n (drop (a - r.base) r.bytes))
unfolding read
read_of a n s r there may p = ground (arith, there, may)

pub write_of :
    (a : ℕ) (input : List ℕ) (s : AddressSpace) (r : MemoryRegion)
    → region_of_range a (length input) s ≡ some r
    → 0 < length input
    → write a input true s ≡ ok (change_region r (overwrite a input) s)
unfolding write
write_of a input s r there p = ground (arith, there)

-- Nothing else in the list has that base.
pub one_of_base :
    {s : AddressSpace} {r q : MemoryRegion} {a n : ℕ}
    → Holds a n s r
    → find_region r.base s.regions ≡ some q
    → r ≡ q
one_of_base h e = ground (arith, h.found, e)

pub write_nothing :
    (a : ℕ) (ignore : Bool) (s t : AddressSpace) → write a [] ignore s ≡ ok t → s ≡ t
unfolding write
write_nothing a ignore s t e = cc

pub write-IsValid :
    (a : ℕ) (input : List ℕ) (ignore : Bool) (s t : AddressSpace)
    → IsValid s
    → write a input ignore s ≡ ok t
    → IsValid t
write-IsValid a [] ignore s t v e = subst IsValid (write_nothing a ignore s t e) v
write-IsValid a (x ∷ xs) ignore s t v e =
    let (r, h, is) = write_inverse a (x ∷ xs) ignore s t v (omega arith) e in
    subst IsValid (sym is) (
      modify-IsValid r.base (overwrite a (x ∷ xs)) s
        (λ q there.
          subst (KeepsShape (overwrite a (x ∷ xs))) (one_of_base h there)
            (overwrite-KeepsShape a (x ∷ xs) s r h))
        v)

-- In a well-formed address space a successful write changes the bytes of its range to the input, and no other byte.
pub byte_at-write :
    (a x : ℕ) (input : List ℕ) (ignore : Bool) (s t : AddressSpace)
    → IsValid s
    → write a input ignore s ≡ ok t
    → byte_at t.regions x ≡ (
        if leb a x && ltb x (a + length input)
        then get_elem? input (x - a)
        else byte_at s.regions x)
byte_at-write a x [] ignore s t v e = unfold write in ground arith
byte_at-write a x (b ∷ bs) ignore s t v e =
    let input : List ℕ = b ∷ bs in
    let (r, h, is) = write_inverse a input ignore s t v (omega arith) e in
    ground (
      arith,
      is,
      byte_at-modify 0 r.base x s.regions r (overwrite a input) v.chain h.found
          (overwrite-KeepsShape a input s r h),
      byte_at-found 0 r.base x s.regions r v.chain h.found,
      get_elem?-splice (a - r.base) (x - r.base) input r.bytes,
      h.low,
      h.high,
      h.whole,
    )

-- In a well-formed address space a successful read gives as many bytes as were asked for, each the one
-- that the address has in the memory the regions stand for.
pub byte_at-read :
    (a n : ℕ) (s : AddressSpace) (bytes : List ℕ)
    → IsValid s
    → read a n s ≡ ok bytes
    → (length bytes ≡ n) × ((i : ℕ) → i < n → get_elem? bytes i ≡ byte_at s.regions (a + i))
byte_at-read a zero s bytes v e = unfold read in ground arith
byte_at-read a (suc n) s bytes v e =
    let (r, h, may, is) = read_inverse a (suc n) s bytes v (omega arith) e in
    (
      rw is (
          length-take (suc n) (drop (a - r.base) r.bytes)
            (omega (arith, length-drop (a - r.base) r.bytes, h.whole, h.low, h.high))),
      λ i lt. ground (
        arith,
        is,
        get_elem?-cut (suc n) (a - r.base) i r.bytes lt,
        byte_at-found 0 r.base (a + i) s.regions r v.chain h.found,
        h.low,
        h.high,
      ),
    )
