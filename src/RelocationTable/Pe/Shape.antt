-- ===== src/RelocationTable/Pe/Shape.antt =====
-- What `decode_pe_base` appends, and that its loop ends.
use binforge.Prelude.{
  ℕ, zero, suc, ◌+◌, ◌-◌, ◌/◌, ◌%◌, ◌^◌, ◌≤◌, ◌<◌, ◌≡◌, refl, ◌∙◌, inl, inr, true, Option, some,
  Option-cases, Bool-cases, List, ◌==◌, text, length, arith,
}
use binforge.Base.{error, truncated, ok, err, Result-cases, Limits}
use binforge.Reader.{ByteReader, got, seek, size, remaining, read_u16, read_u32, pointer}
use binforge.Reader.Laws.{Reading-cases}
use binforge.Image.{Relocation}
use binforge.Relocation.{is_wide}
use binforge.RelocationTable.{Decoding}
use binforge.RelocationTable.Shape.{
  Extends, Extends-refl, Extends-trans, append_relocation-Extends, and_then-Extends, ok-Extends,
  got-Extends,
}
use binforge.RelocationTable.Pe.{
  pe_kind, pe_relocation, pe_target, put_encoded, pe_records, PeBlock, block_header, after_block,
  pe_loop, decode_pe_base,
}

pe_kind-wide : (type : ℕ) → is_wide (pe_kind type).0 ≡ true → (pe_kind type).1 ≡ 8
unfolding pe_kind is_wide
pe_kind-wide type h = ground arith

module _ (limits : Limits) (image_base : ℕ) where
  put_encoded-Extends :
      (page_rva block_offset encoded : ℕ) (output : List Relocation)
      → Extends limits output (put_encoded limits image_base page_rva block_offset encoded output).1
  unfolding put_encoded pe_relocation
  put_encoded-Extends page_rva block_offset encoded output =
      elim (Bool-cases (encoded / 2 ^ 12 == 0)) [
        | inl padding ↦ rw padding (Extends-refl limits output)
        | inr used ↦ rw used (
            ok-Extends limits output (pe_target image_base page_rva (encoded % 2 ^ 12) block_offset)
              _
              λ target.
                append_relocation-Extends (pe_relocation (encoded / 2 ^ 12) target (length output))
                  output limits (refl, pe_kind-wide (encoded / 2 ^ 12)))
      ]

  pe_records-Extends :
      (page_rva block_offset left : ℕ) (reader : ByteReader) (output : List Relocation)
      → Extends limits output
          (pe_records limits image_base page_rva block_offset left reader output).1
  unfolding pe_records
  pe_records-Extends page_rva block_offset zero reader output = Extends-refl limits output
  pe_records-Extends page_rva block_offset (suc left) reader output =
      got-Extends limits output (read_u16 reader) _ _ λ encoded r.
        and_then-Extends limits output _ _
          (put_encoded-Extends page_rva block_offset encoded output)
          (pe_records-Extends page_rva block_offset left r)

  -- What the loop gives: an outcome, whose output extends the one before.
  abbrev Ends : List Relocation → Option Decoding → Type 0
  Ends before o = (d : Decoding) × (o ≡ some d) × Extends limits before d.1

  read_u32-keeps : (r r' : ByteReader) (v : ℕ) → read_u32 r ≡ got v r' → size r' ≡ size r
  unfolding read_u32 size
  read_u32-keeps r r' v h = elim (Option-cases (pointer r.position 4 r)) [
    | inl outside ↦ ground (arith, outside)
    | inr (p, inside) ↦ ground (arith, inside)
  ]

  block_header-size :
      (reader : ByteReader) (block : PeBlock)
      → block_header reader ≡ ok block
      → (8 ≤ block.block_size) × (size block.reader ≡ size reader)
  unfolding block_header
  block_header-size reader block h = elim (Reading-cases (read_u32 reader)) [
    | inr (r, e) ↦ ground (arith, e)
    | inl (page, r, e) ↦ elim (Reading-cases (read_u32 r)) [
      | inr (r', f) ↦ ground (arith, e, f)
      | inl (block_size, r', f) ↦
          let k : size r' ≡ size reader =
            read_u32-keeps r r' block_size f ∙ read_u32-keeps reader r page e in
          (ground (arith, e, f), ground (arith, e, f, k))
    ]
  ]

  seek-position :
      (n : ℕ) (r r' : ByteReader) (u : Unit {0})
      → seek n r ≡ got u r'
      → (r'.position ≡ n) × (size r' ≡ size r) × (r'.position ≤ size r')
  unfolding seek
  seek-position n r r' u h = ground arith

  after_block-Ends :
      (block_offset : ℕ) (block : PeBlock) (before : List Relocation) (step : Decoding)
      (next : ByteReader → List Relocation → Option Decoding)
      → Extends limits before step.1
      → ((r : ByteReader) (output : List Relocation)
          → r.position ≡ block_offset + block.block_size
          → size r ≡ size block.reader
          → r.position ≤ size r
          → Ends output (next r output))
      → Ends before (after_block block_offset block step next)
  unfolding after_block
  after_block-Ends block_offset block before (err e, output) next h k = ((err e, output), refl, h)
  after_block-Ends block_offset block before (ok u, output) next h k =
      elim (Reading-cases (seek (block_offset + block.block_size) block.reader)) [
        | inr (r, e) ↦ (
          (
            err (error truncated block_offset (text "PE relocation block extends beyond input")),
            output,
          ),
          ground (arith, e),
          h,
        )
        | inl (u, r, e) ↦
            let at = seek-position (block_offset + block.block_size) block.reader r u e in
            let (d, is, longer) = k r output at.0 at.1 at.2 in
            (d, ground (arith, e, is), Extends-trans h longer)
      ]

  pe_loop-Ends :
      (fuel : ℕ) (reader : ByteReader) (output : List Relocation)
      → reader.position ≤ size reader
      → size reader < reader.position + fuel
      → Ends output (pe_loop fuel limits image_base reader output)
  unfolding pe_loop
  pe_loop-Ends zero reader output h enough = absurd (omega arith)
  pe_loop-Ends (suc fuel) reader output h enough = elim (Bool-cases (remaining reader == 0)) [
    | inl done ↦ ((ok tt, output), rw done refl, Extends-refl limits output)
    | inr more ↦ elim (Result-cases (block_header reader)) [
      | inr (e, bad) ↦ ((err e, output), ground (arith, more, bad), Extends-refl limits output)
      | inl (block, good) ↦
          let (big, same) = block_header-size reader block good in
          let (d, is, longer) =
            after_block-Ends reader.position block output
              (pe_records limits image_base block.page_rva reader.position
                ((block.block_size - 8) / 2) block.reader output)
              (pe_loop fuel limits image_base)
              (pe_records-Extends block.page_rva reader.position ((block.block_size - 8) / 2)
                block.reader output)
              (λ r out at kept fits.
                pe_loop-Ends fuel r out fits (omega (arith, at, kept, same, big, enough))) in
          (d, ground (arith, more, good, is), longer)
    ]
  ]

  -- The PE decoder ends on every input; it leaves the relocations that were there, and appends ones
  -- whose index is their place, whose width is 8 where their kind has 64 bits, and none of which is
  -- at the limit.
  pub decode_pe_base-ends :
      (bytes : List ℕ) (output : List Relocation)
      → (d : Decoding) × (decode_pe_base limits bytes image_base output ≡ some d)
        × Extends limits output d.1
  unfolding decode_pe_base size
  decode_pe_base-ends bytes output =
      pe_loop-Ends (length bytes + 1) _ output (omega arith) (omega arith)
