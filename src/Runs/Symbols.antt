-- ===== src/Runs/Symbols.antt =====
-- The theorems on src/symbol_index.cc at concrete inputs.
use binforge.Prelude.{
  ◌+◌, ◌-◌, ◌≤◌, ◌<◌, ◌≡◌, ◌≢◌, refl, ◌⊎◌, true, some, List, [], ◌∷◌, All, Any, Text, arith,
}
use binforge.Base.{checked_add, range_inside}
use binforge.Image.{Symbol, local}
use binforge.Resolver.{is_nameless}
use binforge.SymbolIndex.{empty_index, index_symbols, by_name, nearest, is_local}
use binforge.SymbolIndex.Names.{by_name-index_symbols}
use binforge.SymbolIndex.Nearest.{IsAddressed, nearest-index_symbols}
use binforge.Translator.{FileAddress, virtual_to_file, no_section}
use binforge.Translator.Ranges.{IsInSection, IsInSegment, virtual_to_file-IsPlace}
use binforge.Runs.Loading.{image, segment, symbol}

abbrev found_at : FileAddress
found_at = record { file_offset = 1; available = 1; section_index = no_section }

virtual_to_file_run : virtual_to_file 17 1 image ≡ some found_at
unfolding virtual_to_file range_inside checked_add
virtual_to_file_run = refl

virtual_to_file-IsPlace_example :
    Any (IsInSection 17 1 found_at) [] ⊎ Any (IsInSegment 17 1 found_at) (segment ∷ [])
virtual_to_file-IsPlace_example =
    virtual_to_file-IsPlace 17 1 found_at image (omega arith)
      (record { sections_fit = tt; segments_fit = (omega arith, tt) }) virtual_to_file_run

abbrev entry_name : Text
entry_name = 102 ∷ []

-- A local symbol at 4, and one of the same name at 8 that is not local.
abbrev symbols : List Symbol
symbols =
    record symbol { name = entry_name; binding = local; value = 4; size = 2 }
    ∷ record symbol { name = entry_name; index = 1; value = 8 }
    ∷ []

by_name-index_symbols_example :
    ((c : Symbol)
      → by_name entry_name (index_symbols symbols empty_index) ≡ some c
      → c.name ≡ entry_name)
    × All
        (λ (s : Symbol).
          s.name ≡ entry_name
          → (c : Symbol) × (by_name entry_name (index_symbols symbols empty_index) ≡ some c)
            × (is_local c.binding ≡ true → is_local s.binding ≡ true))
        symbols
unfolding is_nameless
by_name-index_symbols_example = by_name-index_symbols symbols entry_name refl

nearest-index_symbols_example :
    ((q : Symbol)
      → (nearest 9 (index_symbols symbols empty_index)).symbol ≡ some q
      → (q.value + (nearest 9 (index_symbols symbols empty_index)).displacement ≡ 9)
        × (q.size ≢ 0 → (nearest 9 (index_symbols symbols empty_index)).displacement < q.size))
    × All
        (λ (s : Symbol).
          IsAddressed s
          → s.value ≤ 9
          → (nearest 9 (index_symbols symbols empty_index)).displacement ≤ 9 - s.value)
        symbols
nearest-index_symbols_example = nearest-index_symbols symbols 9
