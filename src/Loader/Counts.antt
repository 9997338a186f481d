-- ===== src/Loader/Counts.antt =====
-- The relocations and the imports of src/loader.cc: what they leave of the memory, and their counts.
use binforge.Prelude.{
  ℕ, ◌+◌, ◌%◌, ◌^◌, ◌<◌, ◌≡◌, refl, ap, sym, ◌∙◌, inl, inr, Bool, true, false, Bool-cases, Option,
  List, [], ◌∷◌, All, length, ltb, if◌then◌else◌, arith,
}
use mathlib.Core.Path.{subst}
use binforge.Base.{Error, Result, ok, err, Limits}
use binforge.Memory.{AddressSpace}
use binforge.Memory.Invariant.{IsValid}
use binforge.Memory.Keeps.{Away, Keeps, Keeps-refl}
use binforge.Image.{BinaryImage, Segment, Relocation, Import}
use binforge.Resolver.{SymbolResolver}
use binforge.Relocation.{apply_each, apply_relocations}
use binforge.Relocation.Effect.{apply_relocations-IsValid}
use binforge.Loader.{Loading, LoadOptions, load_imports, count_relocations, load_relocations}
use binforge.Loader.Steps.{Spares, apply_each-Keeps, SparesSlot}
use binforge.Loader.Outcome.{found_all, load_imports-Keeps}

-- No relocation and no import slot reaches this address.
abbrev pub Untouched : ℕ → BinaryImage → ℕ → Type 0
Untouched bias image x =
    All (λ (rel : Relocation). Away (rel.offset + bias) 8 x) image.relocations
    × All (λ (i : Import). Away (i.slot_address + bias) 8 x) image.imports

-- The types of the C++ fields.
pub record IsTyped (limits : Limits) (image : BinaryImage) (options : LoadOptions) : Type 0 where
  pub page_size : limits.page_size < 2 ^ 64
  pub max_relocations : limits.max_relocations < 2 ^ 32
  pub preferred_base : options.preferred_base < 2 ^ 64
  pub image_base : image.header.image_base < 2 ^ 64
  pub entry_point : image.header.entry_point < 2 ^ 64
  pub addresses : All (λ (s : Segment). s.virtual_address < 2 ^ 64) image.segments
  pub offsets : All (λ (rel : Relocation). rel.offset < 2 ^ 64) image.relocations
  pub slots : All (λ (i : Import). i.slot_address < 2 ^ 64) image.imports

all_given :
    {A : Type 0} (P : ℕ → Type 0) (Q : ℕ → A → Type 0) (xs : List A)
    → ((x : ℕ) → P x → All (Q x) xs)
    → All (λ (a : A). (x : ℕ) → P x → Q x a) xs
all_given P Q [] h = tt
all_given P Q (a ∷ xs) h = (λ x p. (h x p).0, all_given P Q xs λ x p. (h x p).1)

pub all_both :
    {A : Type 0} (P Q : A → Type 0) (xs : List A)
    → All P xs
    → All Q xs
    → All (λ (a : A). P a × Q a) xs
all_both P Q [] h k = tt
all_both P Q (a ∷ xs) h k = ((h.0, k.0), all_both P Q xs h.1 k.1)

abbrev Applied : Type 0
Applied = Result (Unit {0}) × (ℕ × AddressSpace)

count_relocations-ok :
    (done : Applied) (n : ℕ) (t : AddressSpace)
    → count_relocations done ≡ (ok n, t)
    → done ≡ (ok tt, (n, t))
unfolding count_relocations
count_relocations-ok (err x, (applied, m)) n t e = ground (arith, e)
count_relocations-ok (ok u, (applied, m)) n t e =
    let count : applied ≡ n = ground (arith, ap (λ (z : Loading ℕ). z.0) e) in
    let last : m ≡ t = ap (λ (z : Loading ℕ). z.1) e in
    let pack : ℕ → AddressSpace → Applied = λ k s. (ok tt, (k, s)) in
    ap (λ (k : ℕ). pack k m) count ∙ ap (pack n) last

module _ (limits : Limits) (options : LoadOptions) (image : BinaryImage) (bias : ℕ)
    (r : Option SymbolResolver) (typed : IsTyped limits image options) where
  spares : All (Spares (Untouched bias image) bias) image.relocations
  spares = all_both _ _ image.relocations typed.offsets (
      all_given (Untouched bias image) (λ x rel. Away (rel.offset + bias) 8 x) image.relocations
        λ x p. p.0)

  spares_slots : All (SparesSlot (Untouched bias image) bias) image.imports
  spares_slots = all_both _ _ image.imports typed.slots (
      all_given (Untouched bias image) (λ x i. Away (i.slot_address + bias) 8 x) image.imports
        λ x p. p.1)

  pub load_relocations-Keeps :
      (m t : AddressSpace) (n : ℕ)
      → IsValid m
      → load_relocations limits options image bias r m ≡ (ok n, t)
      → Keeps (Untouched bias image) m t
        × (n ≡ (if options.apply_relocations then length image.relocations else 0))
  unfolding load_relocations apply_relocations
  load_relocations-Keeps m t n v e = elim (Bool-cases options.apply_relocations) [
    | inr skipped ↦
        let run : (ok 0, m) ≡ (ok n, t) =
          subst
            (λ (b : Bool).
              (if b then count_relocations (apply_relocations limits image m bias r) else (ok 0, m))
              ≡ (ok n, t))
            skipped e in
        let same : m ≡ t = ap (λ (z : Loading ℕ). z.1) run in
        let none_of : ok 0 ≡ ok n = ap (λ (z : Loading ℕ). z.0) run in
        (
          subst (Keeps (Untouched bias image) m) same (Keeps-refl (Untouched bias image) m v),
          ground (arith, none_of, skipped),
        )
    | inl wanted ↦
        let run : count_relocations (apply_relocations limits image m bias r) ≡ (ok n, t) =
          subst
            (λ (b : Bool).
              (if b then count_relocations (apply_relocations limits image m bias r) else (ok 0, m))
              ≡ (ok n, t))
            wanted e in
        let done = count_relocations-ok (apply_relocations limits image m bias r) n t run in
        let count : n ≡ length image.relocations =
          sym (ap (λ (z : Applied). z.1.0) done)
          ∙ (apply_relocations-IsValid limits image m bias r v typed.max_relocations).1
              (ap (λ (z : Applied). z.0) done) in
        elim (Bool-cases (ltb limits.max_relocations (length image.relocations))) [
          | inl many ↦ ground (arith, many, ap (λ (z : Applied). z.0) done)
          | inr few ↦
              let each : apply_relocations limits image m bias r
                  ≡ apply_each image.relocations image m bias r 0 =
                rw few refl in
              (
                apply_each-Keeps (Untouched bias image) image.relocations image m t bias r 0 n tt
                    spares v (sym each ∙ done),
                ground (arith, count, wanted),
              )
        ]
  ]

  pub load_imports-Counts :
      (before : Error) (wanted : Bool) (m t : AddressSpace) (n : ℕ)
      → IsValid m
      → (if wanted then load_imports before image.imports r bias image 0 m else (ok 0, m))
        ≡ (ok n, t)
      → Keeps (Untouched bias image) m t
        × (n ≡ (if wanted then found_all r image.imports % 2 ^ 32 else 0))
  load_imports-Counts before true m t n v e =
      let (k, count) =
        load_imports-Keeps (Untouched bias image) before r bias image image.imports 0 n m t
          spares_slots v (omega arith) e in
      (k, omega (arith, count))
  load_imports-Counts before false m t n v e =
      let same : m ≡ t = ap (λ (z : Loading ℕ). z.1) e in
      let none_of : ok 0 ≡ ok n = ap (λ (z : Loading ℕ). z.0) e in
      (
        subst (Keeps (Untouched bias image) m) same (Keeps-refl (Untouched bias image) m v),
        ground (arith, none_of),
      )
