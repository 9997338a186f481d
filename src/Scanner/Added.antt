-- ===== src/Scanner/Added.antt =====
-- What `SignatureScanner` of src/scanners.cc finds of the patterns that it was given.
use binforge.Prelude.{
  ℕ, ◌<◌, ◌≡◌, refl, ap, sym, ◌∙◌, inl, inr, false, Bool-cases, some, List, [], ◌∷◌, ◌++◌,
  All-append, take, arith,
}
use mathlib.Core.Path.{subst}
use binforge.Base.{ok, err, Result-cases, Limits}
use binforge.Image.{BinaryImage}
use binforge.Resolver.{is_nameless}
use binforge.Builder.{is_alignment}
use binforge.Scanner.{
  BytePattern, SignatureScanner, new_scanner, add_pattern, is_malformed, with_mask, scan_patterns,
  scan_signatures,
}
use binforge.Scanner.Complete.{match_limit, IsAligning, scan_patterns-all_hits}
use binforge.Scanner.Matches.{all_hits}

-- The scanner that was given these patterns; one that `add` refuses leaves it as it was.
unfoldable pub add_each : List BytePattern → SignatureScanner → SignatureScanner
add_each [] s = s
add_each (p ∷ patterns) s = elim (add_pattern p s) [
  | ok s' ↦ add_each patterns s'
  | err e ↦ add_each patterns s
]

with_mask-alignment : (p : BytePattern) → (with_mask p).alignment ≡ p.alignment
unfolding with_mask
with_mask-alignment p = elim (Bool-cases (is_nameless p.mask)) [
  | inl bare ↦ ground (arith, bare)
  | inr masked ↦ ground (arith, masked)
]

accepted-aligning :
    (limits : Limits) (p : BytePattern) → is_malformed limits p ≡ false → 0 < p.alignment
unfolding is_malformed is_alignment
accepted-aligning limits p fine = ground (arith, fine)

add_pattern-IsAligning :
    (p : BytePattern) (s s' : SignatureScanner)
    → IsAligning s.patterns
    → add_pattern p s ≡ ok s'
    → IsAligning s'.patterns × (s'.limits ≡ s.limits)
unfolding add_pattern
add_pattern-IsAligning p s s' all added =
    let fine : is_malformed s.limits p ≡ false = ground (arith, added) in
    let is : s' ≡ record s { patterns = s.patterns ++ (with_mask p ∷ []) } =
      ground (arith, added) in
    let here : 0 < (with_mask p).alignment =
      subst (λ (n : ℕ). 0 < n) (sym (with_mask-alignment p)) (accepted-aligning s.limits p fine) in
    subst (λ (t : SignatureScanner). IsAligning t.patterns × (t.limits ≡ s.limits)) (sym is)
      (All-append (λ (q : BytePattern). 0 < q.alignment) s.patterns (with_mask p) all here, refl)

add_each-IsAligning :
    (patterns : List BytePattern) (s : SignatureScanner)
    → IsAligning s.patterns
    → IsAligning (add_each patterns s).patterns × ((add_each patterns s).limits ≡ s.limits)
unfolding add_each
add_each-IsAligning [] s all = (all, refl)
add_each-IsAligning (p ∷ patterns) s all = elim (Result-cases (add_pattern p s)) [
  | inl (s', added) ↦
      let is : add_each (p ∷ patterns) s ≡ add_each patterns s' = ground (arith, added) in
      let first = add_pattern-IsAligning p s s' all added in
      let rest = add_each-IsAligning patterns s' first.0 in
      subst (λ (t : SignatureScanner). IsAligning t.patterns × (t.limits ≡ s.limits)) (sym is)
        (rest.0, rest.1 ∙ first.1)
  | inr (e, refused) ↦
      let is : add_each (p ∷ patterns) s ≡ add_each patterns s = ground (arith, refused) in
      subst (λ (t : SignatureScanner). IsAligning t.patterns × (t.limits ≡ s.limits)) (sym is)
        (add_each-IsAligning patterns s all)
]

-- Whatever patterns a new scanner was given, its scan of an image with a file ends with the matches of
-- the patterns that it took, pattern by pattern and each at every aligned offset at which the pattern
-- fits and agrees with the file under its mask, in order; and it stops after as many matches as the
-- symbol limit, but not before the first.
pub scan_signatures-all_hits :
    (limits : Limits) (patterns : List BytePattern) (image : BinaryImage) (file : List ℕ)
    → image.file_data ≡ some file
    → scan_signatures image (add_each patterns (new_scanner limits))
      ≡ ok (
          take
            (match_limit limits)
            (all_hits image.sections file (add_each patterns (new_scanner limits)).patterns))
unfolding scan_signatures new_scanner
scan_signatures-all_hits limits patterns image file has =
    let s : SignatureScanner = add_each patterns (new_scanner limits) in
    let known = add_each-IsAligning patterns (new_scanner limits) tt in
    let scan : scan_signatures image s
        ≡ ok (scan_patterns s.limits image.sections file s.patterns []) =
      ground (arith, has) in
    scan
    ∙ ap ok
        (scan_patterns-all_hits s.limits image.sections file s.patterns [] known.0 (omega arith))
    ∙ ap (λ (l : Limits). ok (take (match_limit l) (all_hits image.sections file s.patterns)))
        known.1
