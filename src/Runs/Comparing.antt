-- ===== src/Runs/Comparing.antt =====
-- The theorems on src/image_diff.cc and src/scanners.cc at concrete inputs.
use binforge.Prelude.{◌≡◌, ◌↔◌, refl, true, some, List, take, length, [], ◌∷◌, arith}
use binforge.Base.{ok, default_limits, checked_add}
use binforge.Image.{BinaryImage}
use binforge.ImageDiff.{ImageDiffReport}
use binforge.ImageDiff.Compare.{compare_images, items, item_limit}
use binforge.ImageDiff.Same.{IsSame}
use binforge.ImageDiff.Verdict.{compare_images-IsSame}
use binforge.Scanner.{BytePattern, PatternMatch, new_scanner, add_pattern, scan_signatures}
use binforge.Scanner.Matches.{all_hits}
use binforge.Scanner.Complete.{match_limit}
use binforge.Scanner.Added.{add_each, scan_signatures-all_hits}
use binforge.Runs.Loading.{image}

abbrev bare : BinaryImage
bare = record image { symbols = []; relocations = [] }

compare_images-IsSame_example :
    (r : ImageDiffReport) × (compare_images default_limits image bare ≡ ok r)
    × ((r.equivalent ≡ true) ↔ IsSame image bare)
unfolding items item_limit
compare_images-IsSame_example = compare_images-IsSame default_limits image bare (omega arith)

-- The patterns: two bytes, then one that matches any byte, then one whose alignment is refused.
abbrev patterns : List BytePattern
patterns =
    record { name = 97 ∷ []; bytes = 7 ∷ 8 ∷ []; mask = []; alignment = 1 }
    ∷ record { name = 98 ∷ []; bytes = 8 ∷ []; mask = 0 ∷ []; alignment = 2 }
    ∷ record { name = 99 ∷ []; bytes = 9 ∷ []; mask = []; alignment = 3 }
    ∷ []

abbrev filed : BinaryImage
filed = record image { file_data = some (7 ∷ 8 ∷ 7 ∷ 8 ∷ 9 ∷ []) }

scan_signatures-all_hits_example :
    scan_signatures filed (add_each patterns (new_scanner default_limits))
    ≡ ok (
        take (match_limit default_limits) (
          all_hits filed.sections
            (7 ∷ 8 ∷ 7 ∷ 8 ∷ 9 ∷ [])
            (add_each patterns (new_scanner default_limits)).patterns))
scan_signatures-all_hits_example =
    scan_signatures-all_hits default_limits patterns filed (7 ∷ 8 ∷ 7 ∷ 8 ∷ 9 ∷ []) refl

-- Two places of the first pattern and three of the second.
scan_run :
    (found : List PatternMatch) × (scan_signatures filed
        (add_each patterns (new_scanner default_limits))
      ≡ ok found)
    × (length found ≡ 5)
unfolding scan_signatures add_each add_pattern new_scanner checked_add
scan_run = (_, refl, refl)
