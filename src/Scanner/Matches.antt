-- ===== src/Scanner/Matches.antt =====
-- What `SignatureScanner::scan` of src/scanners.cc finds.
use binforge.Prelude.{
  ℕ, zero, suc, ◌+◌, ◌-◌, ◌%◌, ◌*◌, ◌/◌, ◌≤◌, ◌<◌, max, ◌≡◌, ap, sym, ◌∙◌, Bool, true, false, ◌&&◌,
  List, [], ◌∷◌, ◌++◌, append-nil, append_assoc, length, length-append, take, take_enough,
  take-append_length, drop, ltb, leb, ◌==◌, if◌then◌else◌, arith,
}
use mathlib.Core.Path.{subst}
use native.Mathlib.Nat.{mod-add-div', add-mul-mod_self_right, mod-eq_of_lt}
use binforge.Image.{Section}
use binforge.Scanner.{BytePattern, PatternMatch, masked_equal, match_at}

-- The offset is aligned, and the pattern stands there.
abbrev pub is_hit : BytePattern → List ℕ → ℕ → Bool
is_hit p file offset = (offset % p.alignment == 0) && masked_equal p.bytes p.mask (drop offset file)

-- The matches at so many offsets from this one on, one after the other.
unfoldable pub hits : List Section → BytePattern → List ℕ → ℕ → ℕ → List PatternMatch
hits sections p file zero offset = []
hits sections p file (suc n) offset =
    let rest : List PatternMatch = hits sections p file n (suc offset) in
    if is_hit p file offset then match_at sections p offset ∷ rest else rest

-- At every offset at which the whole pattern fits.
unfoldable pub pattern_hits : List Section → List ℕ → BytePattern → List PatternMatch
unfolding hits
pattern_hits sections file p =
    if ltb (length file) (length p.bytes)
    then []
    else hits sections p file (length file - length p.bytes + 1) 0

unfoldable pub all_hits : List Section → List ℕ → List BytePattern → List PatternMatch
unfolding pattern_hits
all_hits sections file [] = []
all_hits sections file (p ∷ patterns) =
    pattern_hits sections file p ++ all_hits sections file patterns

-- The matches of a scan that goes on from others by these, up to the limit, and whether it is over.
pub record IsScan (limit : ℕ) (from found : List PatternMatch) (r : List PatternMatch × Bool)
    : Type 0 where
  pub rows : r.0 ≡ take limit (from ++ found)
  pub full : r.1 ≡ leb limit (length from + length found)

module _ (limit : ℕ) (from : List PatternMatch) (open_ : length from < limit) where
  pub IsScan-nil : IsScan limit from [] (from, false)
  IsScan-nil = record {
    rows = sym (ap (take limit) (append-nil from) ∙ take_enough limit from (omega (arith, open_)));
    full = ground (arith, open_);
  }

  module _ (x : PatternMatch) (rest : List PatternMatch) where
    one_more : from ++ (x ∷ rest) ≡ (from ++ (x ∷ [])) ++ rest
    one_more = sym (append_assoc from (x ∷ []) rest)

    pub IsScan-fills :
        limit ≤ length from + 1 → IsScan limit from (x ∷ rest) (from ++ (x ∷ []), true)
    IsScan-fills fills_it =
        let exact : limit ≡ length (from ++ (x ∷ [])) =
          omega (arith, open_, fills_it, length-append from (x ∷ [])) in
        record {
          rows = sym (
              ap (take limit) one_more
              ∙ ap (λ (n : ℕ). take n ((from ++ (x ∷ [])) ++ rest)) exact
              ∙ take-append_length (from ++ (x ∷ [])) rest);
          full = ground (arith, fills_it);
        }

    pub IsScan-goes :
        (r : List PatternMatch × Bool)
        → IsScan limit (from ++ (x ∷ [])) rest r
        → IsScan limit from (x ∷ rest) r
    IsScan-goes r s =
        let longer : length (from ++ (x ∷ [])) ≡ length from + 1 =
          omega (arith, length-append from (x ∷ [])) in
        record {
          rows = s.rows ∙ sym (ap (take limit) one_more);
          full = ground (arith, s.full, longer);
        }

-- Between two multiples of the alignment there is none.
between-multiples : (a o e : ℕ) → o % a + e < a → 0 < o % a + e → (o + e) % a ≡ o % a + e
between-multiples a o e h k =
    let split : o + e ≡ (o % a + e) + o / a * a = omega (arith, mod-add-div' o a) in
    ap (λ (n : ℕ). n % a) split ∙ add-mul-mod_self_right (o % a + e) (o / a) a ∙ mod-eq_of_lt h

module _ (sections : List Section) (p : BytePattern) (file : List ℕ) where
  pub hits-miss :
      (n o : ℕ)
      → is_hit p file o ≡ false
      → hits sections p file (suc n) o ≡ hits sections p file n (suc o)
  unfolding hits
  hits-miss n o miss =
      ap
        (λ (b : Bool).
          if b
          then match_at sections p o ∷ hits sections p file n (suc o)
          else hits sections p file n (suc o))
        miss

  pub hits-hit :
      (n o : ℕ)
      → is_hit p file o ≡ true
      → hits sections p file (suc n) o ≡ match_at sections p o ∷ hits sections p file n (suc o)
  unfolding hits
  hits-hit n o hit =
      ap
        (λ (b : Bool).
          if b
          then match_at sections p o ∷ hits sections p file n (suc o)
          else hits sections p file n (suc o))
        hit

  hits_same : (n m o q : ℕ) → n ≡ m → o ≡ q → hits sections p file n o ≡ hits sections p file m q
  hits_same n m o q h k = cc (h, k)

  hits_none : (o m q : ℕ) → m ≡ 0 → hits sections p file zero o ≡ hits sections p file m q
  unfolding hits
  hits_none o m q h = sym (ap (λ (k : ℕ). hits sections p file k q) h)

  hits-skip :
      (d n o : ℕ)
      → ((e : ℕ) → e < d → 0 < (o + e) % p.alignment)
      → hits sections p file n o ≡ hits sections p file (n - d) (o + d)
  hits-skip zero n o away = hits_same n (n - 0) o (o + 0) (omega arith) (omega arith)
  hits-skip (suc d) zero o away = hits_none o (zero - suc d) (o + suc d) (omega arith)
  hits-skip (suc d) (suc n) o away =
      let off : 0 < (o + 0) % p.alignment = away 0 (omega arith) in
      let here : o + 0 ≡ o = omega arith in
      let miss : is_hit p file o ≡ false =
        ground (arith, subst (λ (x : ℕ). 0 < x % p.alignment) here off) in
      let next : (e : ℕ) → suc o + e ≡ o + suc e = λ e. omega arith in
      hits-miss n o miss
      ∙ hits-skip d n (suc o) (λ e h.
        subst (λ (x : ℕ). 0 < x % p.alignment) (sym (next e)) (away (suc e) (omega (arith, h))))
      ∙ hits_same (n - d) (suc n - suc d) (suc o + d) (o + suc d) (omega arith) (omega arith)

  -- The offsets up to the next multiple of the alignment.
  pub hits-unaligned :
      (n o : ℕ)
      → 0 < p.alignment
      → 0 < o % p.alignment
      → hits sections p file n o
        ≡ hits sections p file
            (n - (p.alignment - o % p.alignment))
            (o + (p.alignment - o % p.alignment))
  hits-unaligned n o positive off = hits-skip (p.alignment - o % p.alignment) n o λ e h.
      omega (arith, off, between-multiples p.alignment o e (omega (arith, h)) (omega (arith, off)))

  -- The offsets behind a multiple.
  pub hits-aligned :
      (n o : ℕ)
      → 0 < p.alignment
      → o % p.alignment ≡ 0
      → hits sections p file n (suc o)
        ≡ hits sections p file (suc n - max 1 p.alignment) (o + max 1 p.alignment)
  hits-aligned n o positive on =
      let next : (e : ℕ) → suc o + e ≡ o + suc e = λ e. omega arith in
      hits-skip (p.alignment - 1) n (suc o) (λ e h.
        subst (λ (x : ℕ). 0 < x % p.alignment) (sym (next e))
          (omega (
            arith,
            on,
            between-multiples p.alignment o (suc e) (omega (arith, h, on)) (omega arith),
          )))
      ∙ hits_same (n - (p.alignment - 1)) (suc n - max 1 p.alignment) (suc o + (p.alignment - 1))
          (o + max 1 p.alignment) (omega (arith, positive)) (omega (arith, positive))
