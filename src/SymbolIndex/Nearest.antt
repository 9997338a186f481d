-- ===== src/SymbolIndex/Nearest.antt =====
-- Which symbol `SymbolIndex::nearest` finds.
use binforge.Prelude.{
  ℕ, ◌+◌, ◌-◌, ◌≤◌, ◌<◌, ◌≡◌, ◌≢◌, refl, ap, inl, inr, true, ◌&&◌, not, some, Option-cases,
  Bool-cases, List, [], ◌∷◌, All, All-map, Any, ltb, ◌==◌, arith,
}
use binforge.Image.{Symbol}
use binforge.SymbolIndex.{
  SymbolIndex, empty_index, put_address, has_address, index_symbol, index_symbols, before_upper,
  nearest,
}

-- The keys ascend, from a bound on, and each is the value of its symbol.
abbrev IsKeyed : ℕ → List (ℕ × Symbol) → Type 0
IsKeyed lo [] = Unit {0}
IsKeyed lo (e ∷ es) = (lo ≤ e.0) × (e.1.value ≡ e.0) × IsKeyed (e.0 + 1) es

abbrev Has : ℕ → List (ℕ × Symbol) → Type 0
Has v = Any (λ (e : ℕ × Symbol). e.0 ≡ v)

put_address-IsKeyed :
    (lo : ℕ) (s : Symbol) (es : List (ℕ × Symbol))
    → lo ≤ s.value
    → IsKeyed lo es
    → IsKeyed lo (put_address s es)
unfolding put_address
put_address-IsKeyed lo s [] h k = (h, refl, tt)
put_address-IsKeyed lo s ((a, q) ∷ es) h k = elim (Bool-cases (a == s.value)) [
  | inl here ↦ rw here (k.0, ground (arith, here, k), k.2)
  | inr other ↦ elim (Bool-cases (ltb s.value a)) [
    | inl first ↦ rw (other, first) (h, refl, (ground (arith, first), k.1, k.2))
    | inr later ↦
        rw (other, later)
          (k.0, k.1, put_address-IsKeyed (a + 1) s es (ground (arith, other, later)) k.2)
  ]
]

put_address-Has : (s : Symbol) (es : List (ℕ × Symbol)) → Has s.value (put_address s es)
unfolding put_address
put_address-Has s [] = inl refl
put_address-Has s ((a, q) ∷ es) = elim (Bool-cases (a == s.value)) [
  | inl here ↦ rw here (inl (ground (arith, here)))
  | inr other ↦ elim (Bool-cases (ltb s.value a)) [
    | inl first ↦ rw (other, first) (inl refl)
    | inr later ↦ rw (other, later) (inr (put_address-Has s es))
  ]
]

put_address-keeps :
    (v : ℕ) (s : Symbol) (es : List (ℕ × Symbol)) → Has v es → Has v (put_address s es)
unfolding put_address
put_address-keeps v s [] h = elim h [ ]
put_address-keeps v s ((a, q) ∷ es) h = elim (Bool-cases (a == s.value)) [
  | inl here ↦ rw here h
  | inr other ↦ elim (Bool-cases (ltb s.value a)) [
    | inl first ↦ rw (other, first) (inr h)
    | inr later ↦
        rw (other, later)
          (elim h [ inl e ↦ inl e | inr more ↦ inr (put_address-keeps v s es more) ])
  ]
]

before_upper-range :
    (lo a : ℕ) (es : List (ℕ × Symbol)) (e : ℕ × Symbol)
    → IsKeyed lo es
    → before_upper a es ≡ some e
    → (lo ≤ e.0) × (e.0 ≤ a) × (e.1.value ≡ e.0)
unfolding before_upper
before_upper-range lo a [] e k h = ground arith
before_upper-range lo a (x ∷ es) e k h = elim (Option-cases (before_upper a es)) [
  | inl nothing ↦ ground (arith, nothing)
  | inr (later, is) ↦ ground (arith, is, before_upper-range (x.0 + 1) a es later k.2 is)
]

before_upper-Has :
    (lo a v : ℕ) (es : List (ℕ × Symbol))
    → IsKeyed lo es
    → Has v es
    → v ≤ a
    → (e : ℕ × Symbol) × (before_upper a es ≡ some e) × (v ≤ e.0)
unfolding before_upper
before_upper-Has lo a v [] k h le = elim h [ ]
before_upper-Has lo a v (e ∷ es) k (inl here) le = elim (Option-cases (before_upper a es)) [
  | inl nothing ↦ (e, ground (arith, nothing, here), omega (arith, here))
  | inr (later, is) ↦
      let above = before_upper-range (e.0 + 1) a es later k.2 is in
      (later, ground (arith, is, here), omega (arith, above, here))
]
before_upper-Has lo a v (e ∷ es) k (inr more) le =
    let (later, is, above) = before_upper-Has (e.0 + 1) a v es k.2 more le in
    let range = before_upper-range (e.0 + 1) a es later k.2 is in
    (later, ground (arith, is, range), above)

-- The symbols that `build` puts into the map of addresses.
abbrev pub IsAddressed : Symbol → Type 0
IsAddressed s = (s.value ≢ 0) × (has_address s.kind ≡ true)

index_symbols-IsKeyed :
    (symbols : List Symbol) (index : SymbolIndex)
    → IsKeyed 0 index.addresses
    → IsKeyed 0 (index_symbols symbols index).addresses
unfolding index_symbols index_symbol
index_symbols-IsKeyed [] index k = k
index_symbols-IsKeyed (s ∷ symbols) index k =
    index_symbols-IsKeyed symbols (index_symbol s index)
      (elim (Bool-cases (not (s.value == 0) && has_address s.kind)) [
        | inl used ↦ rw used (put_address-IsKeyed 0 s index.addresses (omega arith) k)
        | inr unused ↦ rw unused k
      ])

index_symbols-keeps :
    (v : ℕ) (symbols : List Symbol) (index : SymbolIndex)
    → Has v index.addresses
    → Has v (index_symbols symbols index).addresses
unfolding index_symbols index_symbol
index_symbols-keeps v [] index h = h
index_symbols-keeps v (s ∷ symbols) index h =
    index_symbols-keeps v symbols (index_symbol s index)
      (elim (Bool-cases (not (s.value == 0) && has_address s.kind)) [
        | inl used ↦ rw used (put_address-keeps v s index.addresses h)
        | inr unused ↦ rw unused h
      ])

index_symbols-Has :
    (symbols : List Symbol) (index : SymbolIndex)
    → All
        (λ (s : Symbol). IsAddressed s → Has s.value (index_symbols symbols index).addresses)
        symbols
unfolding index_symbols index_symbol
index_symbols-Has [] index = tt
index_symbols-Has (s ∷ symbols) index = (
  λ used.
      let test : (not (s.value == 0) && has_address s.kind) ≡ true = ground (arith, used) in
      index_symbols-keeps s.value symbols (index_symbol s index)
        (unfold index_symbol in rw test (put_address-Has s index.addresses)),
  index_symbols-Has symbols (index_symbol s index),
)

nearest-of :
    (a : ℕ) (index : SymbolIndex) (e : ℕ × Symbol)
    → before_upper a index.addresses ≡ some e
    → (nearest a index).displacement ≡ a - e.0
unfolding nearest
nearest-of a index e h = ground (arith, h)

nearest-symbol :
    (a : ℕ) (index : SymbolIndex) (q : Symbol)
    → IsKeyed 0 index.addresses
    → (nearest a index).symbol ≡ some q
    → (q.value + (nearest a index).displacement ≡ a)
      × (q.size ≢ 0 → (nearest a index).displacement < q.size)
unfolding nearest
nearest-symbol a index q k h = elim (Option-cases (before_upper a index.addresses)) [
  | inl nothing ↦ ground (arith, nothing)
  | inr (e, is) ↦
      let range = before_upper-range 0 a index.addresses e k is in
      let same : e.1 ≡ q = ground (arith, is, h) in
      let value : e.1.value ≡ q.value = ap (λ (s : Symbol). s.value) same in
      let size : e.1.size ≡ q.size = ap (λ (s : Symbol). s.size) same in
      (ground (arith, is, range, value), λ n. ground (arith, is, range, size, h, n))
]

-- In the index of any symbols, a symbol that `nearest` gives has its address at the displacement
-- below the one that was asked for, within the symbol if it has a size; and no indexed symbol at or
-- below that address is nearer.
pub nearest-index_symbols :
    (symbols : List Symbol) (a : ℕ)
    → ((q : Symbol)
        → (nearest a (index_symbols symbols empty_index)).symbol ≡ some q
        → (q.value + (nearest a (index_symbols symbols empty_index)).displacement ≡ a)
          × (q.size ≢ 0 → (nearest a (index_symbols symbols empty_index)).displacement < q.size))
      × All
          (λ (s : Symbol).
            IsAddressed s
            → s.value ≤ a
            → (nearest a (index_symbols symbols empty_index)).displacement ≤ a - s.value)
          symbols
nearest-index_symbols symbols a =
    let index = index_symbols symbols empty_index in
    let keyed = index_symbols-IsKeyed symbols empty_index tt in
    (
      λ q h. nearest-symbol a index q keyed h,
      All-map symbols (index_symbols-Has symbols empty_index) λ s has used le.
          let (e, is, above) = before_upper-Has 0 a s.value index.addresses keyed (has used) le in
          let range = before_upper-range 0 a index.addresses e keyed is in
          omega (arith, nearest-of a index e is, range, above),
    )
