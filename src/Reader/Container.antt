-- ===== src/Reader/Container.antt =====
-- The containers of src/patch_engine.cc and src/snapshot.cc: a magic of four bytes, a body, and the
-- checksum of all that stands before it.
use binforge.Prelude.{
  refl, true, text_eq, text_eq_self, ◌==◌, ==_self, ℕ, ◌+◌, ◌-◌, ◌^◌, ◌<◌, ◌≡◌, ap, sym, ◌∙◌, List,
  [], ◌++◌, append_assoc, length, length-append, take, drop, take-append_length, drop-append_length,
  arith,
}
use binforge.Base.{crc32}
use binforge.Base.Word.{little, le_bytes, length-le_bytes, join_u32, join_u32-le_bytes}
use binforge.Reader.{ByteReader}
use binforge.Reader.Laws.{between}

-- `ByteReader reader(data + 4, size - 8, ByteOrder::little)`
abbrev pub body_reader : List ℕ → ByteReader
body_reader bytes = record {
  bytes = take (length bytes - 8) (drop 4 bytes);
  position = 0;
  order = little;
}

-- What the two encoders write around a body.
unfoldable pub sealed : List ℕ → List ℕ → List ℕ
sealed magic body = (magic ++ body) ++ le_bytes 4 (crc32 (magic ++ body))

crc32-lt : (bytes : List ℕ) → crc32 bytes < 2 ^ 32
unfolding crc32
crc32-lt bytes = omega arith

module _ (magic body : List ℕ) (four : length magic ≡ 4) where
  pub length-sealed : length (sealed magic body) ≡ length body + 8
  unfolding sealed
  length-sealed = omega (
    arith,
    four,
    length-append (magic ++ body) (le_bytes 4 (crc32 (magic ++ body))),
    length-append magic body,
    length-le_bytes 4 (crc32 (magic ++ body)),
  )

  cut_at : length (sealed magic body) - 4 ≡ length (magic ++ body)
  cut_at = omega (arith, four, length-sealed, length-append magic body)

  pub sealed_front : take (length (sealed magic body) - 4) (sealed magic body) ≡ magic ++ body
  sealed_front =
      ap (λ (n : ℕ). take n (sealed magic body)) cut_at
      ∙ unfold sealed in take-append_length (magic ++ body) _

  pub sealed_checksum :
      join_u32 (drop (length (sealed magic body) - 4) (sealed magic body)) ≡ crc32 (magic ++ body)
  sealed_checksum =
      ap (λ (n : ℕ). join_u32 (drop n (sealed magic body))) cut_at
      ∙ ap join_u32 behind
      ∙ join_u32-le_bytes (crc32 (magic ++ body)) (crc32-lt (magic ++ body))
    where
      behind :
          drop (length (magic ++ body)) (sealed magic body) ≡ le_bytes 4 (crc32 (magic ++ body))
      behind = unfold sealed in drop-append_length (magic ++ body) _

  nested : sealed magic body ≡ magic ++ (body ++ le_bytes 4 (crc32 (magic ++ body)))
  unfolding sealed
  nested = append_assoc magic body _

  pub sealed_magic : take 4 (sealed magic body) ≡ magic
  sealed_magic =
      ap (take 4) nested
      ∙ ap (λ (n : ℕ). take n (magic ++ (body ++ le_bytes 4 (crc32 (magic ++ body))))) (sym four)
      ∙ take-append_length magic _

  pub sealed_body : body_reader (sealed magic body) ≡ between [] body
  sealed_body =
      ap {B = ByteReader} (λ bytes. record { bytes = bytes; position = 0; order = little }) cut
    where
      dropped : drop 4 (sealed magic body) ≡ body ++ le_bytes 4 (crc32 (magic ++ body))
      dropped =
          ap (drop 4) nested
          ∙ ap (λ (n : ℕ). drop n (magic ++ (body ++ le_bytes 4 (crc32 (magic ++ body)))))
              (sym four)
          ∙ drop-append_length magic _

      many : length (sealed magic body) - 8 ≡ length body
      many = omega (arith, length-sealed)

      cut : take (length (sealed magic body) - 8) (drop 4 (sealed magic body)) ≡ body
      cut =
          ap (λ (n : ℕ). take n (drop 4 (sealed magic body))) many
          ∙ ap (take (length body)) dropped
          ∙ take-append_length body _

  -- The tests of a decoder on its magic and on its checksum.
  pub sealed_tests :
      (text_eq (take 4 (sealed magic body)) magic ≡ true)
      × ((join_u32 (drop (length (sealed magic body) - 4) (sealed magic body))
            == crc32 (take (length (sealed magic body) - 4) (sealed magic body)))
          ≡ true)
  sealed_tests = (
    rw (sealed_magic, text_eq_self magic) refl,
    rw (sealed_checksum, sealed_front, ==_self (crc32 (magic ++ body))) refl,
  )
