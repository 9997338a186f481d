-- ===== src/Builder/History.antt =====
-- What every sequence of calls keeps true of a `BinaryImageBuilder` of src/builder.cc.
use binforge.Prelude.{
  ℕ, suc, ◌+◌, ◌%◌, ◌^◌, ◌≤◌, ◌<◌, ◌≡◌, refl, ap, inl, inr, true, false, Bool-cases, List, [], ◌∷◌,
  ◌++◌, All, All-append, length, length-append, text_eq, text_eq_self, text_eq→eq, arith, Text,
}
use mathlib.Core.Path.{subst}
use binforge.Base.{Result, ok, err, Limits}
use binforge.Image.{Symbol, Relocation, Import, Export}
use binforge.Builder.{
  BuilderSection, ImageBuilder, empty_builder, is_alignment, has_name, add_section, add_symbol,
  add_import, add_export, add_relocation, clear_builder,
}

pub data Call : Type 0 where
  adds_section : BuilderSection → Call
  adds_symbol : Symbol → Call
  adds_import : Import → Call
  adds_export : Export → Call
  adds_relocation : Relocation → Call
  clears : Call

-- A call that fails leaves the builder as it was.
or_same : ImageBuilder → Result ImageBuilder → ImageBuilder
or_same b (ok b') = b'
or_same b (err e) = b

call : Call → ImageBuilder → ImageBuilder
call (adds_section s) b = or_same b (add_section s b)
call (adds_symbol s) b = or_same b (add_symbol s b)
call (adds_import i) b = or_same b (add_import i b)
call (adds_export e) b = or_same b (add_export e b)
call (adds_relocation r) b = or_same b (add_relocation r b)
call clears b = clear_builder b

unfoldable pub run : List Call → ImageBuilder → ImageBuilder
unfolding call or_same
run [] b = b
run (c ∷ calls) b = run calls (call c b)

-- Names that differ from one another.
abbrev pub AreApart : List BuilderSection → Type 0
AreApart [] = Unit {0}
AreApart (s ∷ sections) = (has_name s.name sections ≡ false) × AreApart sections

-- Items whose index is their place.
abbrev pub AreIndexed : {A : Type 0} → (A → ℕ) → ℕ → List A → Type 0
AreIndexed index n [] = Unit {0}
AreIndexed index n (x ∷ xs) = (index x ≡ n % 2 ^ 32) × AreIndexed index (n + 1) xs

pub record IsWithin (b : ImageBuilder) : Type 0 where
  pub apart : AreApart b.sections
  pub aligned : All (λ (s : BuilderSection). is_alignment s.alignment ≡ true) b.sections
  pub symbols_indexed : AreIndexed (λ (s : Symbol). s.index) 0 b.symbols
  pub relocations_indexed : AreIndexed (λ (r : Relocation). r.index) 0 b.relocations
  pub sections_few : length b.sections ≤ b.limits.max_sections
  pub symbols_few : length b.symbols ≤ b.limits.max_symbols
  pub imports_few : length b.imports ≤ b.limits.max_imports
  pub exports_few : length b.exports ≤ b.limits.max_exports
  pub relocations_few : length b.relocations ≤ b.limits.max_relocations

pub text_eq_swap : (xs ys : Text) → text_eq xs ys ≡ false → text_eq ys xs ≡ false
text_eq_swap xs ys h = elim (Bool-cases (text_eq ys xs)) [
  | inl same ↦
      let e = text_eq→eq ys xs same in
      absurd (ground (arith, h, subst (λ (t : Text). text_eq t ys ≡ true) e (text_eq_self ys)))
  | inr other ↦ other
]

has_name-append :
    (name : Text) (xs : List BuilderSection) (s : BuilderSection)
    → has_name name xs ≡ false
    → text_eq s.name name ≡ false
    → has_name name (xs ++ (s ∷ [])) ≡ false
unfolding has_name
has_name-append name [] s h k = ground arith
has_name-append name (x ∷ xs) s h k = ground (arith, has_name-append name xs s)

AreApart-append :
    (xs : List BuilderSection) (s : BuilderSection)
    → AreApart xs
    → has_name s.name xs ≡ false
    → AreApart (xs ++ (s ∷ []))
unfolding has_name
AreApart-append [] s h k = (refl, tt)
AreApart-append (x ∷ xs) s h k = (
  has_name-append x.name xs s h.0 (text_eq_swap x.name s.name (ground (arith, k))),
  AreApart-append xs s h.1 (ground (arith, k)),
)

AreIndexed-append :
    {A : Type 0} (index : A → ℕ) (n : ℕ) (xs : List A) (a : A)
    → AreIndexed index n xs
    → index a ≡ (n + length xs) % 2 ^ 32
    → AreIndexed index n (xs ++ (a ∷ []))
AreIndexed-append index n [] a h k =
    (subst (λ (m : ℕ). index a ≡ m % 2 ^ 32) (let e : n + 0 ≡ n = omega arith in e) k, tt)
AreIndexed-append index n (x ∷ xs) a h k = (
  h.0,
  AreIndexed-append index (n + 1) xs a h.1 (
      subst (λ (m : ℕ). index a ≡ m % 2 ^ 32)
        (let e : n + suc (length xs) ≡ n + 1 + length xs = omega arith in e) k),
)

add_section-IsWithin :
    (s : BuilderSection) (b b' : ImageBuilder) → IsWithin b → add_section s b ≡ ok b' → IsWithin b'
unfolding add_section
add_section-IsWithin s b b' v e = elim (Bool-cases (has_name s.name b.sections)) [
  | inl taken ↦ ground (arith, taken)
  | inr free ↦
      let is : record b { sections = b.sections ++ (s ∷ []) } ≡ b' = ground (arith, free, e) in
      let fits : (length b.sections < b.limits.max_sections) × (is_alignment s.alignment ≡ true) =
        ground (arith, free, e) in
      subst IsWithin is (record {
        apart = AreApart-append b.sections s v.apart free;
        aligned = All-append _ b.sections s v.aligned fits.1;
        symbols_indexed = v.symbols_indexed;
        relocations_indexed = v.relocations_indexed;
        sections_few = omega (arith, length-append b.sections (s ∷ []), fits);
        symbols_few = v.symbols_few;
        imports_few = v.imports_few;
        exports_few = v.exports_few;
        relocations_few = v.relocations_few;
      })
]

add_symbol-IsWithin :
    (s : Symbol) (b b' : ImageBuilder) → IsWithin b → add_symbol s b ≡ ok b' → IsWithin b'
unfolding add_symbol
add_symbol-IsWithin s b b' v e =
    let added : Symbol = record s { index = length b.symbols % 2 ^ 32 } in
    let is : record b { symbols = b.symbols ++ (added ∷ []) } ≡ b' = ground arith in
    let fits : length b.symbols < b.limits.max_symbols = ground (arith, e) in
    subst IsWithin is (record {
      apart = v.apart;
      aligned = v.aligned;
      symbols_indexed =
          AreIndexed-append _ 0 b.symbols added v.symbols_indexed
            (ap (λ (n : ℕ). n % 2 ^ 32) (omega arith));
      relocations_indexed = v.relocations_indexed;
      sections_few = v.sections_few;
      symbols_few = omega (arith, length-append b.symbols (added ∷ []), fits);
      imports_few = v.imports_few;
      exports_few = v.exports_few;
      relocations_few = v.relocations_few;
    })

add_import-IsWithin :
    (i : Import) (b b' : ImageBuilder) → IsWithin b → add_import i b ≡ ok b' → IsWithin b'
unfolding add_import
add_import-IsWithin i b b' v e =
    let is : record b { imports = b.imports ++ (i ∷ []) } ≡ b' = ground arith in
    let fits : length b.imports < b.limits.max_imports = ground (arith, e) in
    subst IsWithin is (record {
      apart = v.apart;
      aligned = v.aligned;
      symbols_indexed = v.symbols_indexed;
      relocations_indexed = v.relocations_indexed;
      sections_few = v.sections_few;
      symbols_few = v.symbols_few;
      imports_few = omega (arith, length-append b.imports (i ∷ []), fits);
      exports_few = v.exports_few;
      relocations_few = v.relocations_few;
    })

add_export-IsWithin :
    (x : Export) (b b' : ImageBuilder) → IsWithin b → add_export x b ≡ ok b' → IsWithin b'
unfolding add_export
add_export-IsWithin x b b' v e =
    let is : record b { exports = b.exports ++ (x ∷ []) } ≡ b' = ground arith in
    let fits : length b.exports < b.limits.max_exports = ground (arith, e) in
    subst IsWithin is (record {
      apart = v.apart;
      aligned = v.aligned;
      symbols_indexed = v.symbols_indexed;
      relocations_indexed = v.relocations_indexed;
      sections_few = v.sections_few;
      symbols_few = v.symbols_few;
      imports_few = v.imports_few;
      exports_few = omega (arith, length-append b.exports (x ∷ []), fits);
      relocations_few = v.relocations_few;
    })

add_relocation-IsWithin :
    (r : Relocation) (b b' : ImageBuilder) → IsWithin b → add_relocation r b ≡ ok b' → IsWithin b'
unfolding add_relocation
add_relocation-IsWithin r b b' v e =
    let added : Relocation = record r { index = length b.relocations % 2 ^ 32 } in
    let is : record b { relocations = b.relocations ++ (added ∷ []) } ≡ b' = ground arith in
    let fits : length b.relocations < b.limits.max_relocations = ground (arith, e) in
    subst IsWithin is (record {
      apart = v.apart;
      aligned = v.aligned;
      symbols_indexed = v.symbols_indexed;
      relocations_indexed =
          AreIndexed-append _ 0 b.relocations added v.relocations_indexed
            (ap (λ (n : ℕ). n % 2 ^ 32) (omega arith));
      sections_few = v.sections_few;
      symbols_few = v.symbols_few;
      imports_few = v.imports_few;
      exports_few = v.exports_few;
      relocations_few = omega (arith, length-append b.relocations (added ∷ []), fits);
    })

empty_builder-IsWithin : (limits : Limits) → IsWithin (empty_builder limits)
unfolding empty_builder
empty_builder-IsWithin limits = record {
  apart = tt;
  aligned = tt;
  symbols_indexed = tt;
  relocations_indexed = tt;
  sections_few = omega arith;
  symbols_few = omega arith;
  imports_few = omega arith;
  exports_few = omega arith;
  relocations_few = omega arith;
}

or_same-IsWithin :
    (b : ImageBuilder) (r : Result ImageBuilder)
    → IsWithin b
    → ((b' : ImageBuilder) → r ≡ ok b' → IsWithin b')
    → IsWithin (or_same b r)
unfolding or_same
or_same-IsWithin b (ok b') v k = k b' refl
or_same-IsWithin b (err e) v k = v

call-IsWithin : (c : Call) (b : ImageBuilder) → IsWithin b → IsWithin (call c b)
unfolding call
call-IsWithin (adds_section s) b v =
    or_same-IsWithin b _ v (λ b' e. add_section-IsWithin s b b' v e)
call-IsWithin (adds_symbol s) b v = or_same-IsWithin b _ v (λ b' e. add_symbol-IsWithin s b b' v e)
call-IsWithin (adds_import i) b v = or_same-IsWithin b _ v (λ b' e. add_import-IsWithin i b b' v e)
call-IsWithin (adds_export x) b v = or_same-IsWithin b _ v (λ b' e. add_export-IsWithin x b b' v e)
call-IsWithin (adds_relocation r) b v =
    or_same-IsWithin b _ v (λ b' e. add_relocation-IsWithin r b b' v e)
call-IsWithin clears b v = unfold clear_builder in empty_builder-IsWithin b.limits

run-IsWithin : (calls : List Call) (b : ImageBuilder) → IsWithin b → IsWithin (run calls b)
unfolding run
run-IsWithin [] b v = v
run-IsWithin (c ∷ calls) b v = run-IsWithin calls (call c b) (call-IsWithin c b v)

-- Every sequence of calls, failed ones included, makes of a new builder one whose section names differ
-- from one another, whose section alignments are powers of two by the source's test, whose symbols and
-- relocations carry their place as index, and whose tables are within the limits.
pub run-empty_builder-IsWithin :
    (limits : Limits) (calls : List Call) → IsWithin (run calls (empty_builder limits))
run-empty_builder-IsWithin limits calls =
    run-IsWithin calls (empty_builder limits) (empty_builder-IsWithin limits)
