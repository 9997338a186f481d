-- ===== src/Relocation/Effect.antt =====
-- What `RelocationProcessor` does to the address space and to its count.
use binforge.Prelude.{
  ℕ, ◌+◌, ◌%◌, ◌^◌, ◌≤◌, ◌<◌, ◌≡◌, inl, inr, true, Option, some, Option-cases, Bool-cases, List, [],
  ◌∷◌, ltb, text, length, arith,
}
use mathlib.Core.Path.{subst}
use binforge.Base.{error, ok, err, Result-cases, Limits, checked_add, address_overflow}
use binforge.Memory.{AddressSpace}
use binforge.Memory.Invariant.{IsValid}
use binforge.Memory.Integer.{write_integer-IsValid}
use binforge.Image.{BinaryImage, Relocation, pc_relative32}
use binforge.Resolver.{SymbolResolver}
use binforge.Relocation.{
  Relocated, value_of, nothing_to_do, unsupported, relocated, too_wide, put_relocated, symbol_value,
  relocation_width, apply_one, apply_each, apply_relocations,
}

put_relocated-IsValid :
    (q : Relocated) (target : ℕ) (image : BinaryImage) (s t : AddressSpace)
    → IsValid s
    → put_relocated q target image s ≡ ok t
    → IsValid t
unfolding put_relocated
put_relocated-IsValid nothing_to_do target image s t v e =
    let same : s ≡ t = ground arith in subst IsValid same v
put_relocated-IsValid unsupported target image s t v e = ground arith
put_relocated-IsValid (value_of value width) target image s t v e =
    write_integer-IsValid target width image.header.byte_order value true s t v (ground arith)

apply_one-put :
    (rel : Relocation) (image : BinaryImage) (s t : AddressSpace) (bias : ℕ)
    (r : Option SymbolResolver)
    → apply_one rel image s bias r ≡ ok t
    → (q : Relocated) × (target : ℕ) × (put_relocated q target image s ≡ ok t)
unfolding apply_one
apply_one-put rel image s t bias r e = elim (Option-cases (checked_add rel.offset bias)) [
  | inl wraps ↦ ground (arith, wraps)
  | inr (target, at) ↦ elim (Result-cases (symbol_value rel image target bias r)) [
    | inr (x, bad) ↦ ground (arith, at, bad)
    | inl (symbol, good) ↦ (
      relocated rel.kind (relocation_width rel) symbol rel.addend bias target,
      target,
      ground (arith, at, good),
    )
  ]
]

apply_one-IsValid :
    (rel : Relocation) (image : BinaryImage) (s t : AddressSpace) (bias : ℕ)
    (r : Option SymbolResolver)
    → IsValid s
    → apply_one rel image s bias r ≡ ok t
    → IsValid t
apply_one-IsValid rel image s t bias r v e =
    let (q, target, put) = apply_one-put rel image s t bias r e in
    put_relocated-IsValid q target image s t v put

apply_each-IsValid :
    (rels : List Relocation) (image : BinaryImage) (s : AddressSpace) (bias : ℕ)
    (r : Option SymbolResolver) (applied : ℕ)
    → IsValid s
    → IsValid (apply_each rels image s bias r applied).1.1
unfolding apply_each
apply_each-IsValid [] image s bias r applied v = v
apply_each-IsValid (rel ∷ rels) image s bias r applied v =
    elim (Result-cases (apply_one rel image s bias r)) [
      | inr (x, bad) ↦
          let same : s ≡ (apply_each (rel ∷ rels) image s bias r applied).1.1 =
            ground (arith, bad) in
          subst IsValid same v
      | inl (t, good) ↦
          let same : (apply_each rels image t bias r ((applied + 1) % 2 ^ 32)).1.1
              ≡ (apply_each (rel ∷ rels) image s bias r applied).1.1 =
            ground (arith, good) in
          subst IsValid same (
            apply_each-IsValid rels image t bias r ((applied + 1) % 2 ^ 32)
              (apply_one-IsValid rel image s t bias r v good))
    ]

apply_each-counts :
    (rels : List Relocation) (image : BinaryImage) (s : AddressSpace) (bias : ℕ)
    (r : Option SymbolResolver) (applied : ℕ)
    → applied + length rels < 2 ^ 32
    → (apply_each rels image s bias r applied).0 ≡ ok tt
    → (apply_each rels image s bias r applied).1.0 ≡ applied + length rels
unfolding apply_each
apply_each-counts [] image s bias r applied h e = omega arith
apply_each-counts (rel ∷ rels) image s bias r applied h e =
    elim (Result-cases (apply_one rel image s bias r)) [
      | inr (x, bad) ↦ ground (arith, bad)
      | inl (t, good) ↦
          ground (arith, good, apply_each-counts rels image t bias r ((applied + 1) % 2 ^ 32))
    ]

-- From a well-formed address space, for a relocation limit of 32 bits, the relocations leave a
-- well-formed one, also where one of them fails; where all succeed, the count is their number.
pub apply_relocations-IsValid :
    (limits : Limits) (image : BinaryImage) (s : AddressSpace) (bias : ℕ)
    (r : Option SymbolResolver)
    → IsValid s
    → limits.max_relocations < 2 ^ 32
    → IsValid (apply_relocations limits image s bias r).1.1
      × ((apply_relocations limits image s bias r).0 ≡ ok tt
          → (apply_relocations limits image s bias r).1.0 ≡ length image.relocations)
unfolding apply_relocations
apply_relocations-IsValid limits image s bias r v b =
    elim (Bool-cases (ltb limits.max_relocations (length image.relocations))) [
      | inl many ↦ rw many (v, λ e. ground arith)
      | inr few ↦ rw few (
        apply_each-IsValid image.relocations image s bias r 0 v,
        λ e.
            omega
              (arith, apply_each-counts image.relocations image s bias r 0 (ground (arith, few)) e),
      )
    ]

-- A pc-relative relocation of four bytes whose symbol and addend, in 64 bits, lie behind the place by
-- at most 2^32 fails as one that does not fit.
pub backward-apply_one :
    (rel : Relocation) (image : BinaryImage) (s : AddressSpace) (bias : ℕ)
    (r : Option SymbolResolver) (target symbol : ℕ)
    → rel.kind ≡ pc_relative32
    → relocation_width rel ≡ 4
    → checked_add rel.offset bias ≡ some target
    → target < 2 ^ 64
    → symbol_value rel image target bias r ≡ ok symbol
    → (symbol + rel.addend) % 2 ^ 64 < target
    → target ≤ (symbol + rel.addend) % 2 ^ 64 + 2 ^ 32
    → apply_one rel image s bias r
      ≡ err (error address_overflow target (text "relocation result does not fit"))
unfolding apply_one relocated put_relocated too_wide
backward-apply_one rel image s bias r target symbol k w at t value behind near =
    ground (arith, k, w, at, value, behind, near)
