-- ===== src/Scanner.antt =====
-- src/scanners.cc: `SignatureScanner`. The bytes from an offset on are the rest of the file behind it.
pub mod Matches
pub mod Complete
pub mod Added
use binforge.Prelude.{
  ℕ, zero, suc, ◌+◌, ◌-◌, ◌%◌, ◌^◌, max, bit_and, Bool, true, false, ◌&&◌, ◌||◌, not, none, some,
  List, [], ◌∷◌, ◌++◌, ltb, leb, ◌==◌, if◌then◌else◌, Text, text, length, drop, replicate,
}
use binforge.Base.{
  error, Result, ok, err, ◌>>=◌, ◌>>◌, require, Limits, checked_add, invalid_header, resource_limit,
}
use binforge.Image.{BinaryImage, Section}
use binforge.Resolver.{is_nameless}
use binforge.Builder.{is_alignment}

pub record BytePattern : Type 0 where
  pub name : Text
  pub bytes : List ℕ
  pub mask : List ℕ
  pub alignment : ℕ

pub record PatternMatch : Type 0 where
  pub pattern : Text
  pub file_offset : ℕ
  pub virtual_address : ℕ
  pub section_index : ℕ

pub record SignatureScanner : Type 0 where
  pub limits : Limits
  pub patterns : List BytePattern

unfoldable pub new_scanner : Limits → SignatureScanner
new_scanner limits = record { limits = limits; patterns = [] }

-- `add` refuses this pattern.
unfoldable pub is_malformed : Limits → BytePattern → Bool
unfolding is_nameless is_alignment
is_malformed limits p =
    is_nameless p.name
    || (ltb limits.max_string_bytes (length p.name)
        || (is_nameless p.bytes
            || (ltb limits.max_section_bytes (length p.bytes)
                || ((not (is_nameless p.mask) && not (length p.mask == length p.bytes))
                    || not (is_alignment p.alignment)))))

-- An empty mask looks at every bit.
unfoldable pub with_mask : BytePattern → BytePattern
unfolding is_nameless
with_mask p = if is_nameless p.mask then record p { mask = replicate (length p.bytes) 255 } else p

unfoldable pub add_pattern : BytePattern → SignatureScanner → Result SignatureScanner
unfolding is_malformed with_mask
add_pattern p s = do
  require (not (is_malformed s.limits p)) (error invalid_header 0 (text "byte pattern is invalid"))
  require (ltb (length s.patterns) s.limits.max_sections)
      (error resource_limit 0 (text "signature pattern limit exceeded"))
  ok (record s { patterns = s.patterns ++ (with_mask p ∷ []) })

unfoldable pub clear_patterns : SignatureScanner → SignatureScanner
clear_patterns s = record s { patterns = [] }

-- The first section whose bytes in the file hold the offset; an address that overflows stays 0.
unfoldable pub populate_match_location : List Section → PatternMatch → PatternMatch
populate_match_location [] m = m
populate_match_location (s ∷ sections) m =
    if ltb m.file_offset s.file_offset || leb s.file_size (m.file_offset - s.file_offset)
    then populate_match_location sections m
    else record m {
      section_index = s.index;
      virtual_address = elim (checked_add s.virtual_address (m.file_offset - s.file_offset)) [
        | some at ↦ at
        | none ↦ m.virtual_address
      ];
    }

-- The bytes of the pattern and the first ones of the file agree where the mask has bits.
unfoldable pub masked_equal : List ℕ → List ℕ → List ℕ → Bool
masked_equal [] mask file = true
masked_equal (b ∷ bytes) (m ∷ mask) (d ∷ file) =
    (bit_and d m == bit_and b m) && masked_equal bytes mask file
masked_equal (b ∷ bytes) mask file = false

unfoldable pub match_at : List Section → BytePattern → ℕ → PatternMatch
unfolding populate_match_location
match_at sections p offset = populate_match_location sections (record {
  pattern = p.name;
  file_offset = offset;
  virtual_address = 0;
  section_index = 2 ^ 32 - 1;
})

-- What a round of the loop over the offsets does: it ends, goes on, or fills the result.
pub data Round : Type 0 where
  ends : Round
  goes : ℕ → List PatternMatch → Round
  fills : List PatternMatch → Round

unfoldable pub scan_round :
    Limits → List Section → List ℕ → BytePattern → ℕ → List PatternMatch → Round
unfolding masked_equal match_at
scan_round limits sections file p offset matches =
    if ltb (length file - length p.bytes) offset
    then ends
    else if not (offset % p.alignment == 0)
    then goes (offset + (p.alignment - offset % p.alignment)) matches
    else if masked_equal p.bytes p.mask (drop offset file)
    then (if leb limits.max_symbols (length matches + 1)
        then fills (matches ++ (match_at sections p offset ∷ []))
        else goes (offset + max 1 p.alignment) (matches ++ (match_at sections p offset ∷ [])))
    else goes (offset + max 1 p.alignment) matches

-- The matches, and whether the scan is over. A round takes one offset at least.
unfoldable pub scan_pattern :
    ℕ
    → Limits
    → List Section
    → List ℕ
    → BytePattern
    → ℕ
    → List PatternMatch
    → List PatternMatch × Bool
unfolding scan_round
scan_pattern zero limits sections file p offset matches = (matches, false)
scan_pattern (suc more) limits sections file p offset matches =
    elim (scan_round limits sections file p offset matches) [
      | ends ↦ (matches, false)
      | goes next found ↦ scan_pattern more limits sections file p next found
      | fills found ↦ (found, true)
    ]

unfoldable pub scan_patterns :
    Limits → List Section → List ℕ → List BytePattern → List PatternMatch → List PatternMatch
unfolding scan_pattern
scan_patterns limits sections file [] matches = matches
scan_patterns limits sections file (p ∷ patterns) matches =
    let (found, over) =
      if ltb (length file) (length p.bytes)
      then (matches, false)
      else scan_pattern (length file + 2) limits sections file p 0 matches in
    elim over [ true ↦ found | false ↦ scan_patterns limits sections file patterns found ]

unfoldable pub scan_signatures : BinaryImage → SignatureScanner → Result (List PatternMatch)
unfolding scan_patterns
scan_signatures image s = elim image.file_data [
  | none ↦ err (error invalid_header 0 (text "signature scanning requires backing file data"))
  | some file ↦ ok (scan_patterns s.limits image.sections file s.patterns [])
]
