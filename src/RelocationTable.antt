-- ===== src/RelocationTable.antt =====
-- src/relocation_decoder.cc: what the decoders of the three formats share. A decoder appends to the
-- output that it is given, also when it fails later, so its result is an outcome with that output.
pub mod Elf
pub mod Macho
pub mod Pe
pub mod Shape
use binforge.Prelude.{
  ℕ, ◌+◌, ◌%◌, ◌^◌, Bool, true, false, not, ◌&&◌, List, [], ◌∷◌, ◌++◌, leb, ◌==◌, if◌then◌else◌,
  text, length,
}
use binforge.Base.{Error, error, Result, ok, err, Limits, resource_limit}
use binforge.Base.Word.{ByteOrder}
use binforge.Image.{
  Architecture, x86, x86_64, arm, arm64, riscv32, riscv64, WordSize, Relocation, RelocationKind,
  no_relocation, absolute32, absolute64, relative32, relative64, pc_relative32, got_relative,
  plt_relative,
}

pub record RelocationDecodeOptions : Type 0 where
  pub architecture : Architecture
  pub word_size : WordSize
  pub byte_order : ByteOrder
  pub entry_size : ℕ
  pub base_address : ℕ
  pub target_section : ℕ
  pub explicit_addends : Bool

abbrev pub Decoding : Type 0
Decoding = Result (Unit {0}) × List Relocation

unfoldable pub and_then : Decoding → (List Relocation → Decoding) → Decoding
and_then (err e, output) next = (err e, output)
and_then (ok _, output) next = next output

-- The cases of a `switch` over numbers; its default is `none`.
unfoldable pub kind_in : List (ℕ × RelocationKind) → ℕ → RelocationKind
kind_in [] type = no_relocation
kind_in ((n, kind) ∷ cases) type = if type == n then kind else kind_in cases type

unfoldable pub elf_kind : Architecture → ℕ → RelocationKind
unfolding kind_in
elf_kind x86 type = kind_in ((1, absolute32) ∷ (2, pc_relative32) ∷ (8, relative32) ∷ []) type
elf_kind x86_64 type =
    kind_in ((1, absolute64) ∷ (2, pc_relative32) ∷ (8, relative64) ∷ (9, got_relative) ∷ []) type
elf_kind arm type = kind_in ((2, absolute32) ∷ (3, pc_relative32) ∷ (23, relative32) ∷ []) type
elf_kind arm64 type =
    kind_in ((257, absolute64) ∷ (260, pc_relative32) ∷ (1027, relative64) ∷ []) type
elf_kind riscv32 type = kind_in ((1, absolute32) ∷ (2, absolute64) ∷ (3, relative64) ∷ []) type
elf_kind riscv64 type = kind_in ((1, absolute32) ∷ (2, absolute64) ∷ (3, relative64) ∷ []) type
elf_kind _ type = no_relocation

unfoldable pub macho_kind : ℕ → Bool → Bool → ℕ → RelocationKind
macho_kind type external pc_relative width =
    if pc_relative
    then pc_relative32
    else if type == 0
    then (if width == 8 then absolute64 else absolute32)
    else if (type == 1) && not external
    then (if width == 8 then relative64 else relative32)
    else if type == 3
    then got_relative
    else if type == 4
    then plt_relative
    else no_relocation

unfoldable pub append_relocation : Relocation → List Relocation → Limits → Decoding
append_relocation relocation output limits =
    if leb limits.max_relocations (length output)
    then (
      err (error resource_limit relocation.offset (text "relocation output limit exceeded")),
      output,
    )
    else (ok tt, output ++ (relocation ∷ []))
