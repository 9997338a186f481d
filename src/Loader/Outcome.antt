-- ===== src/Loader/Outcome.antt =====
-- What a load of src/loader.cc that succeeds makes of the memory and of its result.
use binforge.Prelude.{
  ℕ, ◌+◌, ◌%◌, ◌^◌, ◌<◌, ◌≡◌, ap, sym, ◌∙◌, inl, inr, Bool-cases, Option, none, some, Option-cases,
  List, [], ◌∷◌, All, arith,
}
use mathlib.Core.Path.{subst}
use binforge.Base.{Error, ok}
use binforge.Memory.{AddressSpace}
use binforge.Memory.Invariant.{IsValid}
use binforge.Memory.Keeps.{Keeps, Keeps-refl, Keeps-trans}
use binforge.Image.{BinaryImage, Import}
use binforge.Resolver.{SymbolResolver, resolve}
use binforge.Loader.{Loading, import_target, load_target, load_imports, changed, write_import}
use binforge.Loader.Segments.{and_then-ok, changed-ok}
use binforge.Loader.Steps.{SparesSlot, write_import-Keeps}

-- How many of the imports the resolver knows.
abbrev pub found : Option SymbolResolver → Import → ℕ
found none i = 0
found (some r) i = elim (resolve i.library i.name i.ordinal r) [ some target ↦ 1 | none ↦ 0 ]

abbrev pub found_all : Option SymbolResolver → List Import → ℕ
found_all r [] = 0
found_all r (i ∷ imports) = found r i + found_all r imports

abbrev known : Option ℕ → ℕ
known none = 0
known (some target) = 1

import_target-found :
    (i : Import) (r : Option SymbolResolver) (target : Option ℕ)
    → import_target i r ≡ ok target
    → known target ≡ found r i
unfolding import_target
import_target-found i none target e = elim (Bool-cases i.weak) [
  | inl weak ↦ ground (arith, e, weak)
  | inr strong ↦ ground (arith, e, strong)
]
import_target-found i (some r) target e =
    elim (Option-cases (resolve i.library i.name i.ordinal r)) [
      | inr (address, there) ↦ ground (arith, e, there)
      | inl missing ↦ elim (Bool-cases i.weak) [
        | inl weak ↦ ground (arith, e, missing, weak)
        | inr strong ↦ ground (arith, e, missing, strong)
      ]
    ]

add_more :
    (a b c d n : ℕ) → b ≡ c → n ≡ ((a + b) % 2 ^ 32 + d) % 2 ^ 32 → n ≡ (a + (c + d)) % 2 ^ 32
add_more a b c d n h k = omega (arith, h, k)

module _ (P : ℕ → Type 0) (before : Error) (r : Option SymbolResolver) (bias : ℕ)
    (image : BinaryImage) where
  load_target-Keeps :
      (i : Import) (target : Option ℕ) (m t : AddressSpace) (more : ℕ)
      → SparesSlot P bias i
      → IsValid m
      → load_target before i bias image target m ≡ (ok more, t)
      → Keeps P m t × (more ≡ known target)
  unfolding load_target
  load_target-Keeps i none m t more spares v e =
      let same : m ≡ t = ap (λ (z : Loading ℕ). z.1) e in
      (subst (Keeps P m) same (Keeps-refl P m v), ground (arith, e))
  load_target-Keeps i (some target) m t more spares v e =
      let (u, n, step, end) =
        and_then-ok (changed m (write_import before i target bias image m)) _ more t e in
      let last : n ≡ t = ap (λ (z : Loading ℕ). z.1) end in
      (
        subst (Keeps P m) last (
            write_import-Keeps P before i target bias image m n spares v
              (changed-ok m (write_import before i target bias image m) u n step)),
        ground (arith, end),
      )

  pub load_imports-Keeps :
      (imports : List Import) (resolved n : ℕ) (m t : AddressSpace)
      → All (SparesSlot P bias) imports
      → IsValid m
      → resolved < 2 ^ 32
      → load_imports before imports r bias image resolved m ≡ (ok n, t)
      → Keeps P m t × (n ≡ (resolved + found_all r imports) % 2 ^ 32)
  unfolding load_imports
  load_imports-Keeps [] resolved n m t spares v small e =
      let same : m ≡ t = ap (λ (z : Loading ℕ). z.1) e in
      let count : resolved ≡ n = ground (arith, e) in
      (subst (Keeps P m) same (Keeps-refl P m v), omega (arith, count, small))
  load_imports-Keeps (i ∷ imports) resolved n m t spares v small e =
      let (target, m0, at, rest) = and_then-ok (import_target i r, m) _ n t e in
      let aimed : import_target i r ≡ ok target = ap (λ (z : Loading (Option ℕ)). z.0) at in
      let here : m0 ≡ m = sym (ap (λ (z : Loading (Option ℕ)). z.1) at) in
      let (more, m1, step, last) =
        and_then-ok (load_target before i bias image target m0) _ n t rest in
      let step' : load_target before i bias image target m ≡ (ok more, m1) =
        subst (λ (x : AddressSpace). load_target before i bias image target x ≡ (ok more, m1)) here
          step in
      let (k, one) = load_target-Keeps i target m m1 more spares.0 v step' in
      let (l, others) =
        load_imports-Keeps imports ((resolved + more) % 2 ^ 32) n m1 t spares.1 k.valid
          (omega arith) last in
      (
        Keeps-trans P m m1 t k l,
        add_more resolved more (found r i) (found_all r imports) n
            (one ∙ import_target-found i r target aimed) others,
      )
