-- ===== src/Memory/Restore.antt =====
-- A write and a read of the same range, one after the other.
use binforge.Prelude.{
  ℕ, zero, suc, ◌-◌, ◌<◌, ◌≡◌, refl, ap, sym, ◌∙◌, Bool, true, List, [], ◌∷◌, length, take, drop,
  arith,
}
use mathlib.Core.Path.{subst}
use binforge.Base.{Result, ok}
use binforge.Region.{MemoryRegion, modify, allows, permission_read}
use binforge.Region.View.{cut-splice, splice_restores, splice_same}
use binforge.Region.Update.{modify-modify, modify_same}
use binforge.Memory.{AddressSpace, read, write}
use binforge.Memory.Invariant.{IsValid}
use binforge.Memory.Bytes.{
  Holds, change_region, Holds-change_region, overwrite, overwrite-KeepsShape, read_inverse,
  write_inverse, read_of, write_of, one_of_base, byte_at-read, region_of_range-of-Holds,
}

-- A readable range that a write succeeds on: the region, and both results.
read_then_write :
    (a : ℕ) (input before : List ℕ) (ignore : Bool) (s t : AddressSpace)
    → IsValid s
    → 0 < length input
    → read a (length input) s ≡ ok before
    → write a input ignore s ≡ ok t
    → (r : MemoryRegion) × Holds a (length input) s r
      × (allows r.permissions permission_read ≡ true)
      × (before ≡ take (length input) (drop (a - r.base) r.bytes))
      × (t ≡ change_region r (overwrite a input) s)
read_then_write a input before ignore s t v p e f =
    let (r, h, may, was) = read_inverse a (length input) s before v p e in
    let (q, k, is) = write_inverse a input ignore s t v p f in
    let same : q ≡ r = ground (arith, h.candidate, k.candidate) in
    (r, h, may, was, subst (λ z. t ≡ change_region z (overwrite a input) s) same is)

-- In a well-formed address space, what a successful write wrote reads back, where the range was
-- readable before.
pub read-write :
    (a : ℕ) (input before : List ℕ) (ignore : Bool) (s t : AddressSpace)
    → IsValid s
    → read a (length input) s ≡ ok before
    → write a input ignore s ≡ ok t
    → read a (length input) t ≡ ok input
read-write a [] before ignore s t v e f = unfold read in refl
read-write a (b ∷ bs) before ignore s t v e f =
    let input : List ℕ = b ∷ bs in
    let (r, h, may, was, is) = read_then_write a input before ignore s t v (omega arith) e f in
    let shape = overwrite-KeepsShape a input s r h in
    let there = Holds-change_region a (length input) s r (overwrite a input) v h shape in
    rw is (
      read_of a (length input) _ (overwrite a input r) there may (omega arith)
      ∙ ap ok (cut-splice (a - r.base) input r.bytes (omega (arith, h.low, h.high, h.whole))))

overwrite_restores :
    (a : ℕ) (input : List ℕ) (s : AddressSpace) (r : MemoryRegion)
    → Holds a (length input) s r
    → overwrite a (take (length input) (drop (a - r.base) r.bytes)) (overwrite a input r) ≡ r
overwrite_restores a input s r h =
    ap {B = MemoryRegion} (λ bytes. record r { bytes = bytes })
      (splice_restores (a - r.base) input r.bytes (omega (arith, h.low, h.high, h.whole)))

-- In a well-formed address space, writing back what was read before a successful write gives back
-- the address space as it was.
pub write_restores :
    (a : ℕ) (input before : List ℕ) (ignore : Bool) (s t : AddressSpace)
    → IsValid s
    → read a (length input) s ≡ ok before
    → write a input ignore s ≡ ok t
    → write a before true t ≡ ok s
write_restores a [] before ignore s t v e f = unfold read write in ground (arith)
write_restores a (b ∷ bs) before ignore s t v e f =
    let input : List ℕ = b ∷ bs in
    let (r, h, may, was, is) = read_then_write a input before ignore s t v (omega arith) e f in
    let shape = overwrite-KeepsShape a input s r h in
    let there = Holds-change_region a (length input) s r (overwrite a input) v h shape in
    let size : length before ≡ length input = (byte_at-read a (length input) s before v e).0 in
    let undone : modify r.base (overwrite a before) (modify r.base (overwrite a input) s.regions)
        ≡ s.regions =
      modify-modify r.base (overwrite a input) (overwrite a before) s.regions (λ q _. refl)
      ∙ modify_same r.base _ s.regions (λ q found.
        subst (λ z. overwrite a before (overwrite a input z) ≡ z) (one_of_base h found)
          (subst (λ w. overwrite a w (overwrite a input r) ≡ r) (sym was)
            (overwrite_restores a input s r h))) in
    rw is (
      write_of a before _ (overwrite a input r) (rw size there) (omega (arith, size))
      ∙ ap {B = Result AddressSpace} (λ rs. ok (record s { regions = rs })) undone)

-- Writing back at once what was read changes nothing.
pub write_same :
    (a n : ℕ) (before : List ℕ) (s : AddressSpace)
    → IsValid s
    → read a n s ≡ ok before
    → write a before true s ≡ ok s
write_same a zero before s v e = unfold read write in ground arith
write_same a (suc n) before s v e =
    let (r, h, may, was) = read_inverse a (suc n) s before v (omega arith) e in
    let size : length before ≡ suc n = (byte_at-read a (suc n) s before v e).0 in
    let same : overwrite a before r ≡ r = rw was (
      ap {B = MemoryRegion} (λ bytes. record r { bytes = bytes })
        (splice_same (a - r.base) (suc n) r.bytes (omega (arith, h.low, h.high, h.whole)))) in
    write_of a before s r (rw size (region_of_range-of-Holds a (suc n) s r h)) (omega (arith, size))
    ∙ ap {B = Result AddressSpace} (λ rs. ok (record s { regions = rs }))
        (modify_same r.base (overwrite a before) s.regions
          (λ q found. subst (λ z. overwrite a before z ≡ z) (one_of_base h found) same))
