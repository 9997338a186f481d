-- ===== src/RelocationTable/Pe.antt =====
-- src/relocation_decoder.cc: `RelocationTableDecoder::decode_pe_base`.
pub mod Shape
use binforge.Prelude.{
  ℕ, zero, suc, ◌+◌, ◌-◌, ◌/◌, ◌%◌, ◌^◌, Bool, not, ◌||◌, Option, none, some, List, ltb, ◌==◌,
  if◌then◌else◌, text, length,
}
use binforge.Base.{
  Error, error, Result, ok, err, ◌>>=◌, expect, Limits, checked_add, truncated, invalid_relocation,
  address_overflow,
}
use binforge.Base.Word.{little}
use binforge.Reader.{ByteReader, Reading, got, short, remaining, seek, read_u16, read_u32}
use binforge.Image.{
  Relocation, RelocationKind, no_relocation, relative32, relative64, high16, low16,
}
use binforge.RelocationTable.{Decoding, and_then, append_relocation}

unfoldable pub pe_kind : ℕ → RelocationKind × ℕ
pe_kind type =
    if type == 3
    then (relative32, 4)
    else if type == 10
    then (relative64, 8)
    else if type == 1
    then (high16, 2)
    else if type == 2
    then (low16, 2)
    else (no_relocation, 0)

unfoldable pub pe_relocation : ℕ → ℕ → ℕ → Relocation
unfolding pe_kind
pe_relocation type target count = record {
  index = count % 2 ^ 32;
  kind = (pe_kind type).0;
  target_section = 0;
  symbol_index = 0;
  offset = target;
  addend = 0;
  width = (pe_kind type).1;
}

-- `checked_add(image_base, page_rva, page)` and `checked_add(page, offset, target)`
unfoldable pub pe_target : ℕ → ℕ → ℕ → ℕ → Result ℕ
pe_target image_base page_rva offset block_offset =
    expect (checked_add image_base page_rva)
      (error address_overflow block_offset (text "PE relocation target overflows"))
    >>= λ page.
        expect (checked_add page offset)
          (error address_overflow block_offset (text "PE relocation target overflows"))

-- A record of type 0 is padding.
unfoldable pub put_encoded : Limits → ℕ → ℕ → ℕ → ℕ → List Relocation → Decoding
unfolding pe_relocation pe_target
put_encoded limits image_base page_rva block_offset encoded output =
    if encoded / 2 ^ 12 == 0
    then (ok tt, output)
    else elim (pe_target image_base page_rva (encoded % 2 ^ 12) block_offset) [
      | err e ↦ (err e, output)
      | ok target ↦
          append_relocation (pe_relocation (encoded / 2 ^ 12) target (length output)) output limits
    ]

-- The records of a block; and the reader behind them.
unfoldable pub pe_records : Limits → ℕ → ℕ → ℕ → ℕ → ByteReader → List Relocation → Decoding
unfolding put_encoded
pe_records limits image_base page_rva block_offset zero reader output = (ok tt, output)
pe_records limits image_base page_rva block_offset (suc left) reader output =
    elim (read_u16 reader) [
      | short r ↦
          (err (error truncated r.position (text "PE relocation record is truncated")), output)
      | got encoded r ↦
          and_then (put_encoded limits image_base page_rva block_offset encoded output)
            (pe_records limits image_base page_rva block_offset left r)
    ]

pub record PeBlock : Type 0 where
  pub page_rva : ℕ
  pub block_size : ℕ
  pub reader : ByteReader

-- The header of a block, read and its size accepted, with the reader behind it.
unfoldable pub block_header : ByteReader → Result PeBlock
block_header reader = elim (read_u32 reader) [
  | short r ↦ err (error truncated reader.position (text "PE relocation block header is truncated"))
  | got page_rva r ↦ elim (read_u32 r) [
    | short r' ↦
        err (error truncated reader.position (text "PE relocation block header is truncated"))
    | got block_size r' ↦
        if ltb block_size 8
          || (ltb (length reader.bytes - reader.position) block_size
              || not ((block_size - 8) % 2 == 0))
        then err
            (error invalid_relocation reader.position (text "PE relocation block size is invalid"))
        else ok (record { page_rva = page_rva; block_size = block_size; reader = r' })
  ]
]

-- What follows the records of a block: the seek to the next one, unless they failed.
unfoldable pub after_block :
    ℕ → PeBlock → Decoding → (ByteReader → List Relocation → Option Decoding) → Option Decoding
after_block block_offset block (err e, output) next = some (err e, output)
after_block block_offset block (ok _, output) next =
    elim (seek (block_offset + block.block_size) block.reader) [
      | short r ↦ some (
        err (error truncated block_offset (text "PE relocation block extends beyond input")),
        output,
      )
      | got _ r ↦ next r output
    ]

-- The loop, on fuel; `none` when that runs out. The seek sets the position, so the one that the
-- records left is of no account.
unfoldable pub pe_loop : ℕ → Limits → ℕ → ByteReader → List Relocation → Option Decoding
unfolding block_header pe_records after_block
pe_loop zero limits image_base reader output = none
pe_loop (suc fuel) limits image_base reader output =
    if remaining reader == 0 then some (ok tt, output) else elim (block_header reader) [
      | err e ↦ some (err e, output)
      | ok block ↦
          after_block reader.position block
            (pe_records limits image_base block.page_rva reader.position
              ((block.block_size - 8) / 2) block.reader output)
            (pe_loop fuel limits image_base)
    ]

-- A round takes a byte at least.
unfoldable pub decode_pe_base : Limits → List ℕ → ℕ → List Relocation → Option Decoding
unfolding pe_loop
decode_pe_base limits bytes image_base output =
    pe_loop (length bytes + 1) limits image_base
      (record { bytes = bytes; position = 0; order = little }) output
