-- ===== src/RelocationTable/Shape.antt =====
-- What the decoders of src/relocation_decoder.cc append to the relocations that were there.
use binforge.Prelude.{
  ℕ, suc, ◌+◌, ◌%◌, ◌^◌, ◌≤◌, ◌≡◌, refl, ap, sym, ◌∙◌, inl, inr, max, Bool, true, false, Option,
  none, some, Bool-cases, List, [], ◌∷◌, ◌++◌, append-nil, append_assoc, length-append, leb,
  if◌then◌else◌, length, arith,
}
use mathlib.Core.Path.{subst}
use binforge.Base.{Error, Result, ok, err, Limits}
use binforge.Reader.{ByteReader, Reading, got, short}
use binforge.Image.{Relocation}
use binforge.Relocation.{is_wide}
use binforge.RelocationTable.{Decoding, and_then, append_relocation}

-- A relocation in its place of the output: its index is that place, and a 64-bit kind has 8 bytes.
abbrev pub IsPlaced : ℕ → Relocation → Type 0
IsPlaced n r = (r.index ≡ n % 2 ^ 32) × (is_wide r.kind ≡ true → r.width ≡ 8)

abbrev pub ArePlaced : ℕ → List Relocation → Type 0
ArePlaced n [] = Unit {0}
ArePlaced n (r ∷ rs) = IsPlaced n r × ArePlaced (n + 1) rs

-- The relocations that were there stay, those that follow are in their places, and none is appended
-- at or above the limit.
pub record Extends (limits : Limits) (before after : List Relocation) : Type 0 where
  pub added : List Relocation
  pub appended : after ≡ before ++ added
  pub placed : ArePlaced (length before) added
  pub bounded : length after ≤ max limits.max_relocations (length before)

pub Extends-refl : (limits : Limits) (before : List Relocation) → Extends limits before before
Extends-refl limits before = record {
  added = [];
  appended = sym (append-nil before);
  placed = tt;
  bounded = omega arith;
}

ArePlaced-append :
    (n : ℕ) (xs ys : List Relocation)
    → ArePlaced n xs
    → ArePlaced (n + length xs) ys
    → ArePlaced n (xs ++ ys)
ArePlaced-append n [] ys hx hy = let e : n + 0 ≡ n = omega arith in subst (λ k. ArePlaced k ys) e hy
ArePlaced-append n (x ∷ xs) ys hx hy =
    let e : n + suc (length xs) ≡ n + 1 + length xs = omega arith in
    (hx.0, ArePlaced-append (n + 1) xs ys hx.1 (subst (λ k. ArePlaced k ys) e hy))

pub Extends-trans :
    {limits : Limits} {a b c : List Relocation}
    → Extends limits a b
    → Extends limits b c
    → Extends limits a c
Extends-trans {limits} {a} {b} {c} p q =
    let longer : length b ≡ length a + length p.added =
      ap length p.appended ∙ length-append a p.added in
    record {
      added = p.added ++ q.added;
      appended =
          q.appended
          ∙ ap (λ (l : List Relocation). l ++ q.added) p.appended
          ∙ append_assoc a p.added q.added;
      placed =
          ArePlaced-append (length a) p.added q.added p.placed
            (subst (λ k. ArePlaced k q.added) longer q.placed);
      bounded = omega (arith, p.bounded, q.bounded);
    }

pub append_relocation-Extends :
    (r : Relocation) (output : List Relocation) (limits : Limits)
    → IsPlaced (length output) r
    → Extends limits output (append_relocation r output limits).1
unfolding append_relocation
append_relocation-Extends r output limits h =
    elim (Bool-cases (leb limits.max_relocations (length output))) [
      | inl full ↦ rw full (Extends-refl limits output)
      | inr open_place ↦ rw open_place (record {
        added = r ∷ [];
        appended = refl;
        placed = (h, tt);
        bounded = ground (arith, open_place, length-append output (r ∷ []));
      })
    ]

pub and_then-Extends :
    (limits : Limits) (before : List Relocation) (step : Decoding)
    (next : List Relocation → Decoding)
    → Extends limits before step.1
    → ((output : List Relocation) → Extends limits output (next output).1)
    → Extends limits before (and_then step next).1
unfolding and_then
and_then-Extends limits before (err e, output) next h k = h
and_then-Extends limits before (ok u, output) next h k = Extends-trans h (k output)

-- The ways in which a round stops before it appends.
module _ (limits : Limits) (output : List Relocation) where
  pub stop_if-Extends :
      (test : Bool) (e : Error) (next : Decoding)
      → Extends limits output next.1
      → Extends limits output (if test then (err e, output) else next).1
  stop_if-Extends true e next h = Extends-refl limits output
  stop_if-Extends false e next h = h

  pub some-Extends :
      {A : Type 0} (o : Option A) (e : Error) (next : A → Decoding)
      → ((a : A) → Extends limits output (next a).1)
      → Extends limits output
          (elim o as (λ _. Decoding) [ none ↦ (err e, output) | some a ↦ next a ]).1
  some-Extends none e next h = Extends-refl limits output
  some-Extends (some a) e next h = h a

  pub ok-Extends :
      {A : Type 0} (r : Result A) (next : A → Decoding)
      → ((a : A) → Extends limits output (next a).1)
      → Extends limits output
          (elim r as (λ _. Decoding) [ err e ↦ (err e, output) | ok a ↦ next a ]).1
  ok-Extends (err e) next h = Extends-refl limits output
  ok-Extends (ok a) next h = h a

  pub got-Extends :
      {A : Type 0} (r : Reading A) (e : ByteReader → Error) (next : A → ByteReader → Decoding)
      → ((a : A) (r' : ByteReader) → Extends limits output (next a r').1)
      → Extends limits output
          (elim r as (λ _. Decoding) [ short r' ↦ (err (e r'), output) | got a r' ↦ next a r' ]).1
  got-Extends (short r) e next h = Extends-refl limits output
  got-Extends (got a r) e next h = h a r

-- What a successful step adds to the length.
pub append_relocation-length :
    (r : Relocation) (output : List Relocation) (limits : Limits)
    → (append_relocation r output limits).0 ≡ ok tt
    → length (append_relocation r output limits).1 ≡ length output + 1
unfolding append_relocation
append_relocation-length r output limits h = ground (arith, length-append output (r ∷ []))
