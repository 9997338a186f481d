-- ===== src/RelocationTable/Macho/Shape.antt =====
-- What `decode_macho` appends.
use binforge.Prelude.{
  ℕ, zero, suc, ◌+◌, ◌/◌, ◌%◌, ◌^◌, ◌≡◌, refl, sym, ◌⊎◌, inl, inr, Bool, true, not, List, ◌==◌,
  length, arith,
}
use mathlib.Core.Path.{subst}
use binforge.Base.{Limits, checked_add}
use binforge.Reader.{ByteReader}
use binforge.Image.{Relocation}
use binforge.Relocation.{is_wide}
use binforge.RelocationTable.{RelocationDecodeOptions, macho_kind}
use binforge.RelocationTable.Shape.{
  IsPlaced, Extends, Extends-refl, append_relocation-Extends, and_then-Extends, stop_if-Extends,
  some-Extends, ok-Extends,
}
use binforge.RelocationTable.Macho.{
  macho_relocation, put_record, read_record, macho_loop, decode_macho,
}

macho_kind-wide :
    (type : ℕ) (external pc_relative : Bool) (width : ℕ)
    → is_wide (macho_kind type external pc_relative width) ≡ true
    → width ≡ 8
unfolding macho_kind is_wide
macho_kind-wide type external pc_relative width h = ground arith

module _ (limits : Limits) (options : RelocationDecodeOptions) where
  macho_relocation-IsPlaced :
      (information target n : ℕ) → IsPlaced n (macho_relocation options information target n)
  unfolding macho_relocation
  macho_relocation-IsPlaced information target n = (
    refl,
    macho_kind-wide (information / 2 ^ 28) (not (information / 2 ^ 27 % 2 == 0))
        (not (information / 2 ^ 24 % 2 == 0)) (2 ^ (information / 2 ^ 25 % 4)),
  )

  put_record-Extends :
      (index : ℕ) (fields : ℕ × ℕ) (output : List Relocation)
      → Extends limits output (put_record limits options index fields output).1
  unfolding put_record
  put_record-Extends index (address, information) output = stop_if-Extends limits output _ _ _ (
      some-Extends limits output (checked_add options.base_address address) _ _ λ target.
        append_relocation-Extends (macho_relocation options information target (length output))
          output limits (macho_relocation-IsPlaced information target (length output)))

  macho_loop-Extends :
      (left index : ℕ) (reader : ByteReader) (output : List Relocation)
      → Extends limits output (macho_loop limits options left index reader output).1
  unfolding macho_loop
  macho_loop-Extends zero index reader output = Extends-refl limits output
  macho_loop-Extends (suc left) index reader output =
      ok-Extends limits output (read_record index reader) _ λ q.
        and_then-Extends limits output _ _ (put_record-Extends index q.0 output)
          (macho_loop-Extends left (index + 1) q.1)

  decode_macho-cases :
      (bytes : List ℕ) (output : List Relocation)
      → ((decode_macho limits bytes options output).1 ≡ output)
        ⊎ ((decode_macho limits bytes options output).1
            ≡ (macho_loop limits options
                (length bytes / 8)
                0
                (record { bytes = bytes; position = 0; order = options.byte_order })
                output).1)
  unfolding decode_macho
  decode_macho-cases bytes output = ground arith

  -- The Mach-O decoder, whatever its outcome, leaves the relocations that were there, and appends
  -- ones whose index is their place, whose width is 8 where their kind has 64 bits, and none of which
  -- is at the limit.
  pub decode_macho-Extends :
      (bytes : List ℕ) (output : List Relocation)
      → Extends limits output (decode_macho limits bytes options output).1
  decode_macho-Extends bytes output = elim (decode_macho-cases bytes output) [
    | inl same ↦ subst (Extends limits output) (sym same) (Extends-refl limits output)
    | inr same ↦
        subst (Extends limits output) (sym same) (macho_loop-Extends (length bytes / 8) 0 _ output)
  ]
