-- ===== src/Parser/Signature.antt =====
-- Where `BinaryParser::parse` sends the bytes of a file.
use binforge.Prelude.Tests.{text}
use binforge.Prelude.{
  ℕ, ◌+◌, ◌*◌, ◌^◌, bit_or, ap, sym, ◌≤◌, ◌<◌, ◌≡◌, ◌⊎◌, inl, inr, true, Bool-cases, some, List, [],
  ◌∷◌, All, length, take, ltb, ◌==◌, ◌&&◌, arith,
}
use mathlib.Core.Path.{subst}
use binforge.Base.{Result, error, err, Limits, truncated, resource_limit, bad_magic}
use binforge.Prelude.Bits.{bit_or-low}
use binforge.Base.Word.{ByteOrder, little, big, le_bytes, to_bytes, join_u32, IsByte}
use binforge.Image.{BinaryImage}
use binforge.Parser.{FormatParser, parse_as, is_macho_magic, detect, parse}

-- The signatures: 127 and "ELF"; "MZ"; and the number 0xfeedface or 0xfeedfacf in four bytes of either order.
abbrev pub IsElf : List ℕ → Type 0
IsElf bytes = take 4 bytes ≡ 127 ∷ text "ELF"

abbrev pub IsPe : List ℕ → Type 0
IsPe bytes = take 2 bytes ≡ text "MZ"

abbrev pub IsMacho : List ℕ → Type 0
IsMacho bytes =
    (order : ByteOrder) × ((take 4 bytes ≡ to_bytes 4 order 4277009102)
      ⊎ (take 4 bytes ≡ to_bytes 4 order 4277009103))

-- What becomes of the bytes, by their length and their signature.
pub data Routed (parse_elf parse_pe parse_macho : FormatParser) (limits : Limits) (bytes : List ℕ)
    : Result BinaryImage → Type 0 where
  short :
      length bytes < 4
      → Routed parse_elf parse_pe parse_macho limits bytes
          (err (error truncated 0 (text "binary header is truncated")))
  long :
      4 ≤ length bytes
      → limits.max_file_size < length bytes
      → Routed parse_elf parse_pe parse_macho limits bytes
          (err (error resource_limit 0 (text "binary exceeds file limit")))
  elf :
      4 ≤ length bytes
      → length bytes ≤ limits.max_file_size
      → IsElf bytes
      → Routed parse_elf parse_pe parse_macho limits bytes (parse_elf limits bytes)
  pe :
      4 ≤ length bytes
      → length bytes ≤ limits.max_file_size
      → IsPe bytes
      → Routed parse_elf parse_pe parse_macho limits bytes (parse_pe limits bytes)
  macho :
      4 ≤ length bytes
      → length bytes ≤ limits.max_file_size
      → IsMacho bytes
      → Routed parse_elf parse_pe parse_macho limits bytes (parse_macho limits bytes)
  unknown :
      4 ≤ length bytes
      → length bytes ≤ limits.max_file_size
      → ¬ (IsElf bytes)
      → ¬ (IsPe bytes)
      → ¬ (IsMacho bytes)
      → Routed parse_elf parse_pe parse_macho limits bytes
          (err (error bad_magic 0 (text "unknown executable signature")))

join_u32-sum :
    (a b c d : ℕ)
    → IsByte a
    → IsByte b
    → IsByte c
    → IsByte d
    → join_u32 (a ∷ b ∷ c ∷ d ∷ []) ≡ a + b * 256 + c * 65536 + d * 16777216
unfolding join_u32
join_u32-sum a b c d ha hb hc hd =
    let first : bit_or a (b * 2 ^ 8) ≡ b * 2 ^ 8 + a = bit_or-low 8 b a ha in
    let second : bit_or (b * 2 ^ 8 + a) (c * 2 ^ 16) ≡ c * 2 ^ 16 + (b * 2 ^ 8 + a) =
      bit_or-low 16 c (b * 2 ^ 8 + a) (omega (arith, ha, hb)) in
    let third : bit_or (c * 2 ^ 16 + (b * 2 ^ 8 + a)) (d * 2 ^ 24)
        ≡ d * 2 ^ 24 + (c * 2 ^ 16 + (b * 2 ^ 8 + a)) =
      bit_or-low 24 d (c * 2 ^ 16 + (b * 2 ^ 8 + a)) (omega (arith, ha, hb, hc)) in
    rw (first, second, third) (omega arith)

module _ (a b c d : ℕ) (rest : List ℕ) where
  four_same :
      (p q r s : ℕ) → a ≡ p → b ≡ q → c ≡ r → d ≡ s → a ∷ b ∷ c ∷ d ∷ [] ≡ p ∷ q ∷ r ∷ s ∷ []
  four_same p q r s ha hb hc hd = cc (ha, hb, hc, hd)

  -- The test of the first four bytes, as a number, is the test of their signature.
  IsMacho-of-magic :
      All IsByte (a ∷ b ∷ c ∷ d ∷ rest)
      → is_macho_magic (join_u32 (a ∷ b ∷ c ∷ d ∷ [])) ≡ true
      → IsMacho (a ∷ b ∷ c ∷ d ∷ rest)
  unfolding is_macho_magic to_bytes le_bytes
  IsMacho-of-magic (ha, (hb, (hc, (hd, _)))) h =
      let sum = join_u32-sum a b c d ha hb hc hd in
      let v : ℕ = a + b * 256 + c * 65536 + d * 16777216 in
      let one_of : (v ≡ 4277009102) ⊎ ((v ≡ 4277009103) ⊎ ((v ≡ 3472551422) ⊎ (v ≡ 3489328638))) =
        ground (arith, sum, h) in
      elim one_of [
        | inl e ↦ (
          little,
          inl (four_same 206 250 237 254 (omega arith) (omega arith) (omega arith) (omega arith)),
        )
        | inr others ↦ elim others [
          | inl e ↦ (
            little,
            inr (four_same 207 250 237 254 (omega arith) (omega arith) (omega arith) (omega arith)),
          )
          | inr swapped ↦ elim swapped [
            | inl e ↦ (
              big,
              inl (
                  four_same 254 237 250 206 (omega arith) (omega arith) (omega arith)
                    (omega arith)),
            )
            | inr e ↦ (
              big,
              inr (
                  four_same 254 237 250 207 (omega arith) (omega arith) (omega arith)
                    (omega arith)),
            )
          ]
        ]
      ]

  magic-of-IsMacho :
      IsMacho (a ∷ b ∷ c ∷ d ∷ rest) → is_macho_magic (join_u32 (a ∷ b ∷ c ∷ d ∷ [])) ≡ true
  unfolding is_macho_magic to_bytes le_bytes join_u32
  magic-of-IsMacho (little, inl e) = ap (λ l. is_macho_magic (join_u32 l)) e
  magic-of-IsMacho (little, inr e) = ap (λ l. is_macho_magic (join_u32 l)) e
  magic-of-IsMacho (big, inl e) = ap (λ l. is_macho_magic (join_u32 l)) e
  magic-of-IsMacho (big, inr e) = ap (λ l. is_macho_magic (join_u32 l)) e

module _ (parse_elf parse_pe parse_macho : FormatParser) where
  -- What the signature test finds in four bytes and more.
  parse_as-Routed :
      (limits : Limits) (a b c d : ℕ) (rest : List ℕ)
      → All IsByte (a ∷ b ∷ c ∷ d ∷ rest)
      → length (a ∷ b ∷ c ∷ d ∷ rest) ≤ limits.max_file_size
      → Routed parse_elf parse_pe parse_macho limits (a ∷ b ∷ c ∷ d ∷ rest) (
          parse_as parse_elf parse_pe parse_macho limits
            (detect (some (a ∷ b ∷ c ∷ d ∷ rest)))
            (a ∷ b ∷ c ∷ d ∷ rest))
  unfolding parse_as detect text
  parse_as-Routed limits a b c d rest small within =
      let bytes : List ℕ = a ∷ b ∷ c ∷ d ∷ rest in
      let four : 4 ≤ length bytes = omega arith in
      let result : Result BinaryImage =
        parse_as parse_elf parse_pe parse_macho limits (detect (some bytes)) bytes in
      let R : Result BinaryImage → Type 0 = Routed parse_elf parse_pe parse_macho limits bytes in
      elim (Bool-cases ((a == 127) && ((b == 69) && ((c == 76) && (d == 70))))) [
        | inl is_elf ↦
            let is : result ≡ parse_elf limits bytes = ground (arith, is_elf) in
            subst R (sym is) (
              elf four within (
                four_same a b c d rest 127 69 76 70 (ground (arith, is_elf))
                  (ground (arith, is_elf)) (ground (arith, is_elf)) (ground (arith, is_elf))))
        | inr not_elf ↦ elim (Bool-cases ((a == 77) && (b == 90))) [
          | inl is_pe ↦
              let is : result ≡ parse_pe limits bytes = ground (arith, not_elf, is_pe) in
              let m : a ≡ 77 = ground (arith, is_pe) in
              let z : b ≡ 90 = ground (arith, is_pe) in
              subst R (sym is) (pe four within (cc (m, z)))
          | inr not_pe ↦ elim (Bool-cases (is_macho_magic (join_u32 (a ∷ b ∷ c ∷ d ∷ [])))) [
            | inl is_macho ↦
                let is : result ≡ parse_macho limits bytes =
                  ground (arith, not_elf, not_pe, is_macho) in
                subst R (sym is) (macho four within (IsMacho-of-magic a b c d rest small is_macho))
            | inr not_macho ↦
                let is : result ≡ err (error bad_magic 0 (text "unknown executable signature")) =
                  ground (arith, not_elf, not_pe, not_macho) in
                subst R (sym is) (
                  unknown four within (λ e. ground (arith, e, not_elf))
                    (λ e. ground (arith, e, not_pe))
                    (λ e. ground (arith, magic-of-IsMacho a b c d rest e, not_macho)))
          ]
        ]
      ]

  -- Whatever the parsers of the formats do, `parse` reports fewer than four bytes as truncated and
  -- more than the file limit as too large; it gives all others to the parser of the format whose
  -- signature they begin with (127 and "ELF", "MZ", or one of the two Mach-O numbers in either byte
  -- order) and returns what that parser does; and it reports bytes that begin with none of these as
  -- unknown.
  pub parse-Routed :
      (limits : Limits) (bytes : List ℕ)
      → All IsByte bytes
      → Routed parse_elf parse_pe parse_macho limits bytes
          (parse parse_elf parse_pe parse_macho limits (some bytes))
  unfolding parse
  parse-Routed limits [] small = short (omega arith)
  parse-Routed limits (a ∷ []) small = short (omega arith)
  parse-Routed limits (a ∷ b ∷ []) small = short (omega arith)
  parse-Routed limits (a ∷ b ∷ c ∷ []) small = short (omega arith)
  parse-Routed limits (a ∷ b ∷ c ∷ d ∷ rest) small =
      let bytes : List ℕ = a ∷ b ∷ c ∷ d ∷ rest in
      let four : 4 ≤ length bytes = omega arith in
      let result : Result BinaryImage = parse parse_elf parse_pe parse_macho limits (some bytes) in
      let R : Result BinaryImage → Type 0 = Routed parse_elf parse_pe parse_macho limits bytes in
      elim (Bool-cases (ltb limits.max_file_size (length bytes))) [
        | inl large ↦
            let is : result ≡ err (error resource_limit 0 (text "binary exceeds file limit")) =
              ground (arith, large) in
            subst R (sym is) (long four (ground (arith, large)))
        | inr fits ↦
            let within : length bytes ≤ limits.max_file_size = ground (arith, fits) in
            let sent : result
                ≡ parse_as parse_elf parse_pe parse_macho limits (detect (some bytes)) bytes =
              ground (arith, fits) in
            subst R (sym sent) (parse_as-Routed limits a b c d rest small within)
      ]
