-- ===== src/Memory/Integer.antt =====
-- `read_integer` and `write_integer`.
use binforge.Prelude.{ℕ, ◌%◌, ◌^◌, ◌≤◌, ◌≡◌, Bool, true, List, arith}
use native.Mathlib.Decide.{ℕ_discrete}
use binforge.Base.{ok}
use binforge.Base.Word.{ByteOrder, to_bytes, from_bytes-to_bytes, length-to_bytes}
use binforge.Memory.{AddressSpace, read, write, read_integer, write_integer, width_supported}
use binforge.Memory.Invariant.{IsValid}
use binforge.Memory.Bytes.{write-IsValid}
use binforge.Memory.Restore.{read-write}

-- The four widths cut a value to at most 64 bits.
width_bound : (width : ℕ) → width_supported width ≡ true → 256 ^ width ≤ 2 ^ 64
unfolding width_supported
width_bound width h = elim (ℕ_discrete width 1) [
  | yes e ↦ rw e (omega arith)
  | no n1 ↦ elim (ℕ_discrete width 2) [
    | yes e ↦ rw e (omega arith)
    | no n2 ↦ elim (ℕ_discrete width 4) [
      | yes e ↦ rw e (omega arith)
      | no n4 ↦ elim (ℕ_discrete width 8) [ yes e ↦ rw e (omega arith) | no n8 ↦ ground arith ]
    ]
  ]
]

pub write_integer_inverse :
    (a width : ℕ) (order : ByteOrder) (value : ℕ) (ignore : Bool) (s t : AddressSpace)
    → write_integer a width order value ignore s ≡ ok t
    → (width_supported width ≡ true) × (write a (to_bytes width order value) ignore s ≡ ok t)
unfolding write_integer
write_integer_inverse a width order value ignore s t e = ground arith

pub read_integer_inverse :
    (a width : ℕ) (order : ByteOrder) (value : ℕ) (s : AddressSpace)
    → read_integer a width order s ≡ ok value
    → (bytes : List ℕ) × (read a width s ≡ ok bytes)
unfolding read_integer
read_integer_inverse a width order value s e = ground arith

pub write_integer-IsValid :
    (a width : ℕ) (order : ByteOrder) (value : ℕ) (ignore : Bool) (s t : AddressSpace)
    → IsValid s
    → write_integer a width order value ignore s ≡ ok t
    → IsValid t
write_integer-IsValid a width order value ignore s t v e =
    write-IsValid a (to_bytes width order value) ignore s t v
      (write_integer_inverse a width order value ignore s t e).1

-- In a well-formed address space, an integer written to a readable place reads back in the same byte order, cut to its width; the
-- place may have been read in any order before.
pub read_integer-write_integer :
    (a width : ℕ) (order other : ByteOrder) (value before : ℕ) (ignore : Bool) (s t : AddressSpace)
    → IsValid s
    → read_integer a width other s ≡ ok before
    → write_integer a width order value ignore s ≡ ok t
    → read_integer a width order t ≡ ok (value % 256 ^ width)
unfolding read_integer
read_integer-write_integer a width order other value before ignore s t v e f =
    let (supported, written) = write_integer_inverse a width order value ignore s t f in
    let (old, readable) = read_integer_inverse a width other before s e in
    let size = length-to_bytes width order value in
    let back =
      read-write a (to_bytes width order value) old ignore s t v (rw size readable) written in
    ground (
      arith,
      supported,
      rw size at back,
      from_bytes-to_bytes (2 ^ 64) width order value (width_bound width supported),
    )
