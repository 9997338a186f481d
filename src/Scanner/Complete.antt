-- ===== src/Scanner/Complete.antt =====
-- The loops of `SignatureScanner::scan` of src/scanners.cc find every place of their patterns, up to the
-- limit.
use binforge.Prelude.{
  ℕ, zero, suc, ◌+◌, ◌-◌, ◌%◌, ◌≤◌, ◌<◌, max, ◌≡◌, refl, ap, sym, ◌∙◌, inl, inr, Bool, true, false,
  Bool-cases, List, [], ◌∷◌, ◌++◌, append-nil, append_assoc, All, length, length-append, take,
  take_enough, drop, ltb, leb, ◌==◌, arith,
}
use mathlib.Core.Path.{subst}
use native.Mathlib.Nat.{mod-lt}
use binforge.Base.{Limits}
use binforge.Image.{Section}
use binforge.Scanner.{
  BytePattern, PatternMatch, masked_equal, match_at, Round, ends, goes, fills, scan_round,
  scan_pattern, scan_patterns,
}
use binforge.Scanner.Matches.{
  hits, pattern_hits, all_hits, IsScan, IsScan-nil, IsScan-fills, IsScan-goes, hits-miss, hits-hit,
  hits-unaligned, hits-aligned,
}

-- The matches after which the loop returns; the test follows the push, so there is one at least.
abbrev pub match_limit : Limits → ℕ
match_limit limits = max 1 limits.max_symbols

module _ (limits : Limits) (sections : List Section) (file : List ℕ) (p : BytePattern)
    (positive : 0 < p.alignment) where
  abbrev last : ℕ
  last = length file - length p.bytes

  -- What the loop makes of a round.
  abbrev after : ℕ → List PatternMatch → Round → List PatternMatch × Bool
  after more from ends = (from, false)
  after more from (goes next found) = scan_pattern more limits sections file p next found
  after more from (fills found) = (found, true)

  scan_pattern-after :
      (more n offset : ℕ) (from found : List PatternMatch) (round : Round)
      → scan_round limits sections file p offset from ≡ round
      → hits sections p file n offset ≡ found
      → IsScan (match_limit limits) from found (after more from round)
      → IsScan
          (match_limit limits)
          from
          (hits sections p file n offset)
          (scan_pattern (suc more) limits sections file p offset from)
  unfolding scan_pattern
  scan_pattern-after more n offset from found round is same s =
      subst
        (λ (f : List PatternMatch).
          IsScan (match_limit limits) from f
            (scan_pattern (suc more) limits sections file p offset from))
        (sym same)
        (subst (λ (r : Round). IsScan (match_limit limits) from found (after more from r)) (sym is)
          s)

  -- With a round for each offset that is left, and one more, the loop finds what stands at them.
  scan_pattern-IsScan :
      (fuel n offset : ℕ) (from : List PatternMatch)
      → n ≡ last + 1 - offset
      → n < fuel
      → length from < match_limit limits
      → IsScan
          (match_limit limits)
          from
          (hits sections p file n offset)
          (scan_pattern fuel limits sections file p offset from)
  unfolding scan_round hits
  scan_pattern-IsScan zero n offset from left enough open_ = absurd (omega (arith, enough))
  scan_pattern-IsScan (suc more) zero offset from left enough open_ =
      scan_pattern-after more zero offset from (hits sections p file zero offset) ends
        (ground (arith, left)) refl (IsScan-nil (match_limit limits) from open_)
  scan_pattern-IsScan (suc more) (suc n) offset from left enough open_ =
      let inside : ltb last offset ≡ false = ground (arith, left) in
      let a : ℕ = max 1 p.alignment in
      let d : ℕ = p.alignment - offset % p.alignment in
      let x : PatternMatch = match_at sections p offset in
      let later : List PatternMatch = hits sections p file (suc n - a) (offset + a) in
      elim (Bool-cases (offset % p.alignment == 0)) [
        | inr off ↦
            let step : 0 < d = omega (arith, mod-lt offset {m = p.alignment} positive) in
            scan_pattern-after more (suc n) offset from _ (goes (offset + d) from)
              (ground (arith, inside, off))
              (hits-unaligned sections p file (suc n) offset positive (ground (arith, off)))
              (scan_pattern-IsScan more (suc n - d) (offset + d) from (omega (arith, left))
                (omega (arith, enough, step)) open_)
        | inl on ↦
            let behind = hits-aligned sections p file n offset positive (ground (arith, on)) in
            elim (Bool-cases (masked_equal p.bytes p.mask (drop offset file))) [
              | inr differs ↦
                  scan_pattern-after more (suc n) offset from _ (goes (offset + a) from)
                    (ground (arith, inside, on, differs))
                    (hits-miss sections p file n offset (ground (arith, differs)) ∙ behind)
                    (scan_pattern-IsScan more (suc n - a) (offset + a) from (omega (arith, left))
                      (omega (arith, enough)) open_)
              | inl same ↦
                  let found : hits sections p file (suc n) offset ≡ x ∷ later =
                    hits-hit sections p file n offset (ground (arith, on, same))
                    ∙ ap (◌∷◌ x) behind in
                  let longer : List PatternMatch = from ++ (x ∷ []) in
                  elim (Bool-cases (leb limits.max_symbols (length from + 1))) [
                    | inl full ↦
                        scan_pattern-after more (suc n) offset from _ (fills longer)
                          (ground (arith, inside, on, same, full)) found
                          (IsScan-fills (match_limit limits) from open_ x later
                            (ground (arith, full)))
                    | inr room ↦
                        scan_pattern-after more (suc n) offset from _ (goes (offset + a) longer)
                          (ground (arith, inside, on, same, room)) found
                          (IsScan-goes (match_limit limits) from open_ x later _ (
                            scan_pattern-IsScan more (suc n - a) (offset + a) longer
                              (omega (arith, left)) (omega (arith, enough))
                              (ground (arith, room, length-append from (x ∷ [])))))
                  ]
            ]
      ]

take-append_enough :
    {A : Type 0} (n : ℕ) (xs ys : List A) → n ≤ length xs → take n (xs ++ ys) ≡ take n xs
take-append_enough zero xs ys h = refl
take-append_enough (suc n) [] ys h = absurd (omega (arith, h))
take-append_enough (suc n) (x ∷ xs) ys h =
    ap (◌∷◌ x) (take-append_enough n xs ys (omega (arith, h)))

-- The alignment of a pattern that `add` took.
abbrev pub IsAligning : List BytePattern → Type 0
IsAligning = All (λ (p : BytePattern). 0 < p.alignment)

pub scan_patterns-all_hits :
    (limits : Limits) (sections : List Section) (file : List ℕ) (patterns : List BytePattern)
    (from : List PatternMatch)
    → IsAligning patterns
    → length from < match_limit limits
    → scan_patterns limits sections file patterns from
      ≡ take (match_limit limits) (from ++ all_hits sections file patterns)
unfolding scan_patterns all_hits pattern_hits
scan_patterns-all_hits limits sections file [] from positive open_ = sym (
    ap (take (match_limit limits)) (append-nil from)
    ∙ take_enough (match_limit limits) from (omega (arith, open_)))
scan_patterns-all_hits limits sections file (p ∷ patterns) from positive open_ =
    let L : ℕ = match_limit limits in
    let rest : List PatternMatch = all_hits sections file patterns in
    elim (Bool-cases (ltb (length file) (length p.bytes))) [
      | inl long ↦
          let is : scan_patterns limits sections file (p ∷ patterns) from
              ≡ scan_patterns limits sections file patterns from =
            ground (arith, long) in
          let none_here : all_hits sections file (p ∷ patterns) ≡ rest = ground (arith, long) in
          is
          ∙ scan_patterns-all_hits limits sections file patterns from positive.1 open_
          ∙ ap (λ l. take L (from ++ l)) (sym none_here)
      | inr fits ↦
          let n : ℕ = length file - length p.bytes + 1 in
          let h : List PatternMatch = hits sections p file n 0 in
          let r : List PatternMatch × Bool =
            scan_pattern (length file + 2) limits sections file p 0 from in
          let s : IsScan L from h r =
            scan_pattern-IsScan limits sections file p positive.0 (length file + 2) n 0 from
              (omega arith) (omega arith) open_ in
          let here : all_hits sections file (p ∷ patterns) ≡ h ++ rest = ground (arith, fits) in
          let whole : from ++ all_hits sections file (p ∷ patterns) ≡ (from ++ h) ++ rest =
            ap (λ l. from ++ l) here ∙ sym (append_assoc from h rest) in
          elim (Bool-cases r.1) [
            | inl over ↦
                let is : scan_patterns limits sections file (p ∷ patterns) from ≡ r.0 =
                  ground (arith, fits, over) in
                let enough : L ≤ length (from ++ h) =
                  ground (arith, over, s.full, length-append from h) in
                is ∙ s.rows ∙ sym (ap (take L) whole ∙ take-append_enough L (from ++ h) rest enough)
            | inr going ↦
                let few : length (from ++ h) < L =
                  ground (arith, going, s.full, length-append from h) in
                let all : r.0 ≡ from ++ h =
                  s.rows ∙ take_enough L (from ++ h) (omega (arith, few)) in
                let is : scan_patterns limits sections file (p ∷ patterns) from
                    ≡ scan_patterns limits sections file patterns r.0 =
                  ground (arith, fits, going) in
                is
                ∙ ap (scan_patterns limits sections file patterns) all
                ∙ scan_patterns-all_hits limits sections file patterns (from ++ h) positive.1 few
                ∙ ap (take L) (sym whole)
          ]
    ]
