-- ===== src/RelocationTable/Elf/Shape.antt =====
-- What `decode_elf` appends.
use binforge.Prelude.{
  ℕ, zero, suc, ◌+◌, ◌*◌, ◌/◌, ◌≡◌, refl, sym, ◌⊎◌, inl, inr, Option-cases, List, length, arith,
}
use mathlib.Core.Path.{subst}
use binforge.Base.{ok, Result-cases, Limits, checked_add}
use binforge.Reader.{ByteReader, seek}
use binforge.Reader.Laws.{Reading-cases}
use binforge.Image.{Relocation}
use binforge.RelocationTable.{RelocationDecodeOptions, and_then}
use binforge.RelocationTable.Shape.{
  IsPlaced, Extends, Extends-refl, append_relocation-Extends, and_then-Extends, stop_if-Extends,
  some-Extends, ok-Extends, got-Extends, append_relocation-length,
}
use binforge.RelocationTable.Elf.{
  ElfEntry, elf_relocation, put_entry, read_entry, elf_round, elf_loop, decode_elf, used_entry_size,
}

module _ (limits : Limits) (options : RelocationDecodeOptions) where
  elf_relocation-IsPlaced :
      (entry : ElfEntry) (target n : ℕ) → IsPlaced n (elf_relocation options entry target n)
  unfolding elf_relocation
  elf_relocation-IsPlaced entry target n = (refl, λ h. rw h refl)

  put_entry-Extends :
      (at : ℕ) (entry : ElfEntry) (output : List Relocation)
      → Extends limits output (put_entry limits options at entry output).1
  unfolding put_entry
  put_entry-Extends at entry output = stop_if-Extends limits output _ _ _ (
      some-Extends limits output (checked_add options.base_address entry.offset) _ _ λ target.
        append_relocation-Extends (elf_relocation options entry target (length output)) output
          limits (elf_relocation-IsPlaced entry target (length output)))

  elf_round-Extends :
      (entry_size index : ℕ) (reader : ByteReader) (output : List Relocation)
      → Extends limits output (elf_round limits options entry_size index reader output).1
  unfolding elf_round
  elf_round-Extends entry_size index reader output =
      got-Extends limits output (seek (index * entry_size) reader) _ _ λ _ r.
        ok-Extends limits output (read_entry options r) _
          λ e. put_entry-Extends (index * entry_size) e.0 output

  elf_loop-Extends :
      (entry_size left index : ℕ) (reader : ByteReader) (output : List Relocation)
      → Extends limits output (elf_loop limits options entry_size left index reader output).1
  unfolding elf_loop
  elf_loop-Extends entry_size zero index reader output = Extends-refl limits output
  elf_loop-Extends entry_size (suc left) index reader output =
      and_then-Extends limits output _ _ (elf_round-Extends entry_size index reader output)
        (elf_loop-Extends entry_size left (index + 1) reader)

  put_entry-length :
      (at : ℕ) (entry : ElfEntry) (output : List Relocation)
      → (put_entry limits options at entry output).0 ≡ ok tt
      → length (put_entry limits options at entry output).1 ≡ length output + 1
  unfolding put_entry
  put_entry-length at entry output h =
      elim (Option-cases (checked_add options.base_address entry.offset)) [
        | inl wraps ↦ ground (arith, wraps)
        | inr (target, good) ↦ ground (
          arith,
          good,
          append_relocation-length (elf_relocation options entry target (length output)) output
              limits,
        )
      ]

  elf_round-length :
      (entry_size index : ℕ) (reader : ByteReader) (output : List Relocation)
      → (elf_round limits options entry_size index reader output).0 ≡ ok tt
      → length (elf_round limits options entry_size index reader output).1 ≡ length output + 1
  unfolding elf_round
  elf_round-length entry_size index reader output h =
      elim (Reading-cases (seek (index * entry_size) reader)) [
        | inr (r, e) ↦ ground (arith, e)
        | inl (_, r, e) ↦ elim (Result-cases (read_entry options r)) [
          | inr (x, f) ↦ ground (arith, e, f)
          | inl (q, f) ↦ ground (arith, e, f, put_entry-length (index * entry_size) q.0 output)
        ]
      ]

  elf_loop-length :
      (entry_size left index : ℕ) (reader : ByteReader) (output : List Relocation)
      → (elf_loop limits options entry_size left index reader output).0 ≡ ok tt
      → length (elf_loop limits options entry_size left index reader output).1
        ≡ length output + left
  unfolding elf_loop and_then
  elf_loop-length entry_size zero index reader output h = omega arith
  elf_loop-length entry_size (suc left) index reader output h =
      let here = elf_round limits options entry_size index reader output in
      elim (Result-cases here.0) [
        | inr (x, e) ↦ ground (arith, e)
        | inl (u, e) ↦ ground (
          arith,
          e,
          elf_round-length entry_size index reader output,
          elf_loop-length entry_size left (index + 1) reader here.1,
        )
      ]

  decode_elf-cases :
      (bytes : List ℕ) (output : List Relocation)
      → ((decode_elf limits bytes options output).1 ≡ output)
        ⊎ ((decode_elf limits bytes options output).1
            ≡ (elf_loop limits options
                (used_entry_size options)
                (length bytes / used_entry_size options)
                0
                (record { bytes = bytes; position = 0; order = options.byte_order })
                output).1)
  unfolding decode_elf
  decode_elf-cases bytes output = ground arith

  -- The ELF decoder, whatever its outcome, leaves the relocations that were there, and appends ones
  -- whose index is their place, whose width is 8 where their kind has 64 bits, and none of which is
  -- at the limit; where it succeeds, one for each entry of the table.
  pub decode_elf-Extends :
      (bytes : List ℕ) (output : List Relocation)
      → Extends limits output (decode_elf limits bytes options output).1
        × ((decode_elf limits bytes options output).0 ≡ ok tt
            → length (decode_elf limits bytes options output).1
              ≡ length output + length bytes / used_entry_size options)
  unfolding decode_elf
  decode_elf-Extends bytes output = (
    elim (decode_elf-cases bytes output) [
      | inl same ↦ subst (Extends limits output) (sym same) (Extends-refl limits output)
      | inr same ↦ subst (Extends limits output) (sym same) (
          elf_loop-Extends (used_entry_size options) (length bytes / used_entry_size options) 0 _
            output)
    ],
    λ h. ground (
      arith,
      h,
      elf_loop-length (used_entry_size options) (length bytes / used_entry_size options) 0
          (record { bytes = bytes; position = 0; order = options.byte_order }) output,
    ),
  )
