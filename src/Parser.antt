-- ===== src/Parser.antt =====
-- src/parser.cc: `BinaryParser`. The parsers of the three formats are arguments of `parse`.
pub mod Signature
use binforge.Prelude.{
  ℕ, Bool, true, false, ◌&&◌, ◌||◌, Option, none, some, List, [], ◌∷◌, ltb, ◌==◌, if◌then◌else◌,
  text, length,
}
use binforge.Base.{Error, error, Result, ok, err, Limits, truncated, resource_limit, bad_magic}
use binforge.Base.Word.{join_u32}
use binforge.Image.{BinaryImage, BinaryFormat, unknown_format, elf_like, pe_like, macho_like}

-- `0xfeedface`, `0xfeedfacf` and the two with their bytes swapped.
unfoldable pub is_macho_magic : ℕ → Bool
is_macho_magic magic =
    (magic == 4277009102)
    || ((magic == 4277009103) || ((magic == 3472551422) || (magic == 3489328638)))

-- `none` is a null pointer.
unfoldable pub detect : Option (List ℕ) → BinaryFormat
unfolding is_macho_magic
detect none = unknown_format
detect (some []) = unknown_format
detect (some (a ∷ [])) = unknown_format
detect (some (a ∷ (b ∷ []))) = unknown_format
detect (some (a ∷ (b ∷ (c ∷ [])))) = unknown_format
detect (some (a ∷ (b ∷ (c ∷ (d ∷ rest))))) =
    if (a == 127) && ((b == 69) && ((c == 76) && (d == 70)))
    then elf_like
    else if (a == 77) && (b == 90)
    then pe_like
    else if is_macho_magic (join_u32 (a ∷ b ∷ c ∷ d ∷ []))
    then macho_like
    else unknown_format

-- A parser of one format, from the bytes that the image retains.
abbrev pub FormatParser : Type 0
FormatParser = Limits → List ℕ → Result BinaryImage

module _ (parse_elf parse_pe parse_macho : FormatParser) where
  unfoldable pub parse_as : Limits → BinaryFormat → List ℕ → Result BinaryImage
  parse_as limits elf_like bytes = parse_elf limits bytes
  parse_as limits pe_like bytes = parse_pe limits bytes
  parse_as limits macho_like bytes = parse_macho limits bytes
  parse_as limits unknown_format bytes =
      err (error bad_magic 0 (text "unknown executable signature"))

  unfoldable pub parse : Limits → Option (List ℕ) → Result BinaryImage
  unfolding parse_as
  parse limits none = err (error truncated 0 (text "binary header is truncated"))
  parse limits (some bytes) =
      if ltb (length bytes) 4
      then err (error truncated 0 (text "binary header is truncated"))
      else if ltb limits.max_file_size (length bytes)
      then err (error resource_limit 0 (text "binary exceeds file limit"))
      else parse_as limits (detect (some bytes)) bytes
