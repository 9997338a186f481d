-- ===== src/SymbolIndex/Names.antt =====
-- Which symbol `SymbolIndex::by_name` finds.
use binforge.Prelude.{
  ◌≡◌, refl, ap, sym, ◌∙◌, inl, inr, true, false, ◌&&◌, not, Option, none, some, Option-cases,
  Bool-cases, List, [], ◌∷◌, All, All-map, Text, text_eq_self, text_eq→eq, if◌then◌else◌, arith,
}
use binforge.Prelude.Tests.{text_eq}
use mathlib.Core.Path.{subst}
use binforge.Image.{Symbol}
use binforge.Resolver.{is_nameless}
use binforge.SymbolIndex.{
  SymbolIndex, empty_index, is_local, preferred, put_name, text_below, index_symbol, index_symbols,
  find_name, by_name,
}

-- The symbol of a name after one more symbol was seen.
best_of : Text → Symbol → Option Symbol → Option Symbol
best_of name symbol best =
    if text_eq symbol.name name
    then elim best [ none ↦ some symbol | some existing ↦ some (preferred existing symbol) ]
    else best

scan_name : Text → List Symbol → Option Symbol → Option Symbol
unfolding best_of
scan_name name [] best = best
scan_name name (s ∷ symbols) best = scan_name name symbols (best_of name s best)

pub below_irrefl : (xs : Text) → text_below xs xs ≡ false
unfolding text_below
below_irrefl [] = refl
below_irrefl (x ∷ xs) = ground (arith, below_irrefl xs)

pub below_trans :
    (xs ys zs : Text) → text_below xs ys ≡ true → text_below ys zs ≡ true → text_below xs zs ≡ true
unfolding text_below
below_trans xs ys [] h k = k
below_trans xs [] (z ∷ zs) h k = ground arith
below_trans [] (y ∷ ys) (z ∷ zs) h k = refl
below_trans (x ∷ xs) (y ∷ ys) (z ∷ zs) h k = ground (arith, below_trans xs ys zs)

below_total :
    (xs ys : Text) → text_eq xs ys ≡ false → text_below xs ys ≡ false → text_below ys xs ≡ true
unfolding text_below text_eq
below_total [] [] h k = ground arith
below_total [] (y ∷ ys) h k = ground arith
below_total (x ∷ xs) [] h k = refl
below_total (x ∷ xs) (y ∷ ys) h k = ground (arith, below_total xs ys)

-- Names that ascend, each above all names before it.
abbrev Above : Text → List (Text × Symbol) → Type 0
Above name = All (λ (e : Text × Symbol). text_below name e.0 ≡ true)

abbrev IsAscending : List (Text × Symbol) → Type 0
IsAscending [] = Unit {0}
IsAscending (e ∷ es) = Above e.0 es × IsAscending es

Above-trans :
    (a b : Text) (es : List (Text × Symbol)) → text_below a b ≡ true → Above b es → Above a es
Above-trans a b es h k = All-map es k λ e above. below_trans a b e.0 h above

put_name-Above :
    (a : Text) (s : Symbol) (es : List (Text × Symbol))
    → text_below a s.name ≡ true
    → Above a es
    → Above a (put_name s es)
unfolding put_name
put_name-Above a s [] h k = (h, tt)
put_name-Above a s ((n, q) ∷ es) h k = elim (Bool-cases (text_eq n s.name)) [
  | inl here ↦ rw here k
  | inr other ↦ elim (Bool-cases (text_below s.name n)) [
    | inl first ↦ rw (other, first) (h, k)
    | inr later ↦ rw (other, later) (k.0, put_name-Above a s es h k.1)
  ]
]

put_name-IsAscending :
    (s : Symbol) (es : List (Text × Symbol)) → IsAscending es → IsAscending (put_name s es)
unfolding put_name
put_name-IsAscending s [] k = (tt, tt)
put_name-IsAscending s ((n, q) ∷ es) k = elim (Bool-cases (text_eq n s.name)) [
  | inl here ↦ rw here k
  | inr other ↦ elim (Bool-cases (text_below s.name n)) [
    | inl first ↦ rw (other, first) ((first, Above-trans s.name n es first k.0), (k.0, k.1))
    | inr later ↦
        rw (other, later)
          (
            put_name-Above n s es (below_total s.name n (ne_sym n s.name other) later) k.0,
            put_name-IsAscending s es k.1,
          )
  ]
]
  where
    ne_sym : (x y : Text) → text_eq x y ≡ false → text_eq y x ≡ false
    ne_sym x y h = elim (Bool-cases (text_eq y x)) [
      | inl same ↦ ground (arith, text_eq→eq y x same, text_eq_self x, h)
      | inr differ ↦ differ
    ]

find_name-Above :
    (name : Text) (es : List (Text × Symbol)) → Above name es → find_name name es ≡ none
unfolding find_name
find_name-Above name [] h = refl
find_name-Above name ((n, q) ∷ es) h = elim (Bool-cases (text_eq n name)) [
  | inl same ↦ ground (arith, text_eq→eq n name same, below_irrefl name, h.0)
  | inr other ↦ rw other (find_name-Above name es h.1)
]

find_name-put_name :
    (name : Text) (symbol : Symbol) (entries : List (Text × Symbol))
    → IsAscending entries
    → find_name name (put_name symbol entries) ≡ best_of name symbol (find_name name entries)
unfolding find_name put_name best_of
find_name-put_name name symbol [] k = refl
find_name-put_name name symbol ((n, q) ∷ es) k = elim (Bool-cases (text_eq n symbol.name)) [
  | inl here ↦ ground (arith, here, text_eq→eq n symbol.name here)
  | inr other ↦ elim (Bool-cases (text_below symbol.name n)) [
    | inl first ↦ ground (
      arith,
      other,
      first,
      text_eq→eq symbol.name name,
      find_name-Above symbol.name es (Above-trans symbol.name n es first k.0),
    )
    | inr later ↦ ground (
      arith,
      other,
      later,
      text_eq→eq symbol.name name,
      text_eq→eq n name,
      text_eq_self name,
      find_name-put_name name symbol es k.1,
    )
  ]
]

nameless-differs :
    (xs name : Text) → is_nameless xs ≡ true → is_nameless name ≡ false → text_eq xs name ≡ false
unfolding is_nameless text_eq
nameless-differs [] [] h k = ground arith
nameless-differs [] (y ∷ ys) h k = refl
nameless-differs (x ∷ xs) name h k = ground arith

index_symbols-scan :
    (name : Text) (symbols : List Symbol) (index : SymbolIndex)
    → is_nameless name ≡ false
    → IsAscending index.names
    → find_name name (index_symbols symbols index).names
      ≡ scan_name name symbols (find_name name index.names)
unfolding index_symbols scan_name index_symbol
index_symbols-scan name [] index h k = refl
index_symbols-scan name (s ∷ symbols) index h k = elim (Bool-cases (is_nameless s.name)) [
  | inl nameless ↦
      let same : (index_symbol s index).names ≡ index.names = ground (arith, nameless) in
      index_symbols-scan name symbols (index_symbol s index) h (subst IsAscending (sym same) k)
      ∙ ap (scan_name name symbols) (ground (arith, same, nameless-differs s.name name nameless h))
  | inr named ↦
      let same : (index_symbol s index).names ≡ put_name s index.names = ground (arith, named) in
      index_symbols-scan name symbols (index_symbol s index) h
        (subst IsAscending (sym same) (put_name-IsAscending s index.names k))
      ∙ ap (scan_name name symbols)
          (ap (find_name name) same ∙ find_name-put_name name s index.names k)
]

preferred-local :
    (b s : Symbol)
    → is_local (preferred b s).binding ≡ true
    → (is_local b.binding ≡ true) × (is_local s.binding ≡ true)
unfolding preferred
preferred-local b s h = elim (Bool-cases (is_local b.binding && not (is_local s.binding))) [
  | inl replaced ↦
      let swapped : preferred b s ≡ s = ground (arith, replaced) in
      ground (arith, replaced, ap (λ (q : Symbol). is_local q.binding) swapped, h)
  | inr stays ↦
      let kept : preferred b s ≡ b = ground (arith, stays) in
      ground (arith, stays, ap (λ (q : Symbol). is_local q.binding) kept, h)
]

-- A later symbol takes the place of an earlier one only if that is local and it is not.
scan_name-keeps :
    (name : Text) (symbols : List Symbol) (b : Symbol)
    → (c : Symbol) × (scan_name name symbols (some b) ≡ some c)
      × (is_local c.binding ≡ true → is_local b.binding ≡ true)
unfolding scan_name best_of
scan_name-keeps name [] b = (b, refl, λ h. h)
scan_name-keeps name (s ∷ symbols) b = elim (Bool-cases (text_eq s.name name)) [
  | inl same ↦
      let (c, e, f) = scan_name-keeps name symbols (preferred b s) in
      (c, ground (arith, same, e), λ h. (preferred-local b s (f h)).0)
  | inr other ↦ let (c, e, f) = scan_name-keeps name symbols b in (c, ground (arith, other, e), f)
]

best_of-none :
    (name : Text) (s : Symbol) (best : Option Symbol)
    → text_eq s.name name ≡ true
    → best ≡ none
    → best_of name s best ≡ some s
unfolding best_of
best_of-none name s best h e = ground (arith, h, e)

best_of-some :
    (name : Text) (s : Symbol) (best : Option Symbol) (b : Symbol)
    → text_eq s.name name ≡ true
    → best ≡ some b
    → best_of name s best ≡ some (preferred b s)
unfolding best_of
best_of-some name s best b h e = ground (arith, h, e)

best_of-named :
    (name : Text) (s : Symbol) (best : Option Symbol) (c : Symbol)
    → ((b : Symbol) → best ≡ some b → text_eq b.name name ≡ true)
    → best_of name s best ≡ some c
    → text_eq c.name name ≡ true
unfolding best_of preferred
best_of-named name s best c k h = elim (Option-cases best) [
  | inl nothing ↦ ground (arith, nothing, h)
  | inr (b, there) ↦ ground (arith, there, h, k b there)
]

scan_name-finds :
    (name : Text) (symbols : List Symbol) (best : Option Symbol)
    → All
        (λ (s : Symbol).
          text_eq s.name name ≡ true
          → (c : Symbol) × (scan_name name symbols best ≡ some c)
            × (is_local c.binding ≡ true → is_local s.binding ≡ true))
        symbols
unfolding scan_name
scan_name-finds name [] best = tt
scan_name-finds name (s ∷ symbols) best =
    (λ h. here h, scan_name-finds name symbols (best_of name s best))
  where
    here :
        text_eq s.name name ≡ true
        → (c : Symbol) × (scan_name name symbols (best_of name s best) ≡ some c)
          × (is_local c.binding ≡ true → is_local s.binding ≡ true)
    here h = elim (Option-cases best) [
      | inl nothing ↦
          let (c, e, f) = scan_name-keeps name symbols s in
          (c, ap (scan_name name symbols) (best_of-none name s best h nothing) ∙ e, f)
      | inr (b, there) ↦
          let (c, e, f) = scan_name-keeps name symbols (preferred b s) in
          (
            c,
            ap (scan_name name symbols) (best_of-some name s best b h there) ∙ e,
            λ l. (preferred-local b s (f l)).1,
          )
    ]

scan_name-named :
    (name : Text) (symbols : List Symbol) (best : Option Symbol) (c : Symbol)
    → ((b : Symbol) → best ≡ some b → text_eq b.name name ≡ true)
    → scan_name name symbols best ≡ some c
    → text_eq c.name name ≡ true
unfolding scan_name
scan_name-named name [] best c k h = k c h
scan_name-named name (s ∷ symbols) best c k h =
    scan_name-named name symbols (best_of name s best) c (λ b e. best_of-named name s best b k e) h

-- In the index of any symbols, a name that is not empty finds a symbol of that name, if there is
-- one, and one that is not local, if there is such a one.
pub by_name-index_symbols :
    (symbols : List Symbol) (name : Text)
    → is_nameless name ≡ false
    → ((c : Symbol) → by_name name (index_symbols symbols empty_index) ≡ some c → c.name ≡ name)
      × All
          (λ (s : Symbol).
            s.name ≡ name
            → (c : Symbol) × (by_name name (index_symbols symbols empty_index) ≡ some c)
              × (is_local c.binding ≡ true → is_local s.binding ≡ true))
          symbols
unfolding by_name
by_name-index_symbols symbols name h =
    let is = index_symbols-scan name symbols empty_index h tt in
    (
      λ c e.
          text_eq→eq c.name name
            (scan_name-named name symbols none c (λ b f. ground arith) (sym is ∙ e)),
      All-map symbols (scan_name-finds name symbols none) λ s found same.
          let (c, e, f) = found (subst (λ n. text_eq s.name n ≡ true) same (text_eq_self s.name)) in
          (c, is ∙ e, f),
    )
