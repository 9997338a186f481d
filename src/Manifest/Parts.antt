-- ===== src/Manifest/Parts.antt =====
-- The header, sections and segments of src/manifest.cc read back from the bytes that their writers
-- put.
use binforge.Prelude.{
  ℕ, ◌^◌, ◌≤◌, ◌<◌, ◌≡◌, refl, ap, ◌∙◌, Bool, true, ◌&&◌, ◌||◌, List, ◌++◌, All, length, leb, ◌==◌,
  lt→ltb, arith,
}
use binforge.Base.{Limits, crc32}
use binforge.Base.Word.{le_bytes, ByteOrder, little, big}
use binforge.Image.{
  FileHeader, BinaryFormat, unknown_format, elf_like, pe_like, macho_like, WordSize, bits32, bits64,
  word_bytes, Section, Segment,
}
use binforge.Reader.Decoder.{try_u8, try_u32, try_u64, check_passes, decoded_then}
use binforge.Manifest.Codes.{
  IsByteKind, IsByteArchitecture, IsByteSection, format_of, format_code, word_of, order_of,
  order_code, kind_of, kind_code, architecture_of, architecture_code, kind_of-code,
  architecture_of-code, section_of-code,
}
use binforge.Manifest.Write.{put_header, put_section, section_checksum, put_segment}
use binforge.Manifest.Read.{
  read_table, decode_header, decode_section, checksum_holds, decode_index, decode_segment,
}
use binforge.Manifest.Tables.{Reads, text_then, kept, IsText, read_table_same}

pub record IsTypedSection (limits : Limits) (s : Section) : Type 0 where
  pub index_fits : s.index < 2 ^ 32
  pub name_fits : IsText limits s.name
  pub kind_fits : IsByteSection s.kind
  pub offset_fits : s.file_offset < 2 ^ 64
  pub size_fits : s.file_size < 2 ^ 64
  pub address_fits : s.virtual_address < 2 ^ 64
  pub memory_fits : s.memory_size < 2 ^ 64
  pub alignment_fits : s.alignment < 2 ^ 64
  pub entry_fits : s.entry_size < 2 ^ 64
  pub link_fits : s.link < 2 ^ 32
  pub info_fits : s.info < 2 ^ 32

checksum-fits :
    (include : Bool) (file : List ℕ) (s : Section) → section_checksum include file s < 2 ^ 32
unfolding section_checksum crc32
checksum-fits include file s = ground arith

checksum_holds-put :
    (include : Bool) (file : List ℕ) (s : Section)
    → checksum_holds file s (section_checksum include file s) ≡ true
unfolding section_checksum checksum_holds
checksum_holds-put include file s = ground arith

pub decode_section-put :
    (limits : Limits) (include : Bool) (file : List ℕ) (s : Section)
    → IsTypedSection limits s
    → Reads (decode_section limits file) (put_section include file) (λ s. s) s
unfolding decode_section put_section Reads IsText checksum_holds
decode_section-put limits include file s t front back = (
  _,
  try_u32 _ _ _ _ _ t.index_fits
      ∙ text_then _ _ _ _ _ _ t.name_fits.0 t.name_fits.1
      ∙ try_u8 _ _ _ _ _
      ∙ try_u64 _ _ _ _ _ t.offset_fits
      ∙ try_u64 _ _ _ _ _ t.size_fits
      ∙ try_u64 _ _ _ _ _ t.address_fits
      ∙ try_u64 _ _ _ _ _ t.memory_fits
      ∙ try_u64 _ _ _ _ _ t.alignment_fits
      ∙ try_u64 _ _ _ _ _ t.entry_fits
      ∙ try_u32 _ _ _ _ _ t.link_fits
      ∙ try_u32 _ _ _ _ _ t.info_fits
      ∙ try_u8 _ _ _ _ _
      ∙ try_u32 _ _ _ _ _ (checksum-fits include file s)
      ∙ check_passes _ _ _ _ (checksum_holds-put include file s)
      ∙ kept _ (ap (λ kind. record s { kind = kind }) (section_of-code s.kind t.kind_fits)),
)

-- The fields fit their types, and the section indices name sections.
pub record IsTypedSegment (limits : Limits) (count : ℕ) (s : Segment) : Type 0 where
  pub index_fits : s.index < 2 ^ 32
  pub offset_fits : s.file_offset < 2 ^ 64
  pub size_fits : s.file_size < 2 ^ 64
  pub address_fits : s.virtual_address < 2 ^ 64
  pub memory_fits : s.memory_size < 2 ^ 64
  pub alignment_fits : s.alignment < 2 ^ 64
  pub few : length s.sections ≤ limits.max_sections
  pub few_fits : length s.sections < 2 ^ 32
  pub named : All (λ n. n < count) s.sections

decode_index-put :
    (count : ℕ)
    → count ≤ 2 ^ 32
    → (n : ℕ) → n < count
    → Reads (decode_index count) (λ n rest. le_bytes 4 n ++ rest) (λ n. n) n
unfolding decode_index Reads
decode_index-put count c n h front back =
    (_, try_u32 _ _ _ _ _ (omega (arith, c, h)) ∙ check_passes _ _ _ _ (lt→ltb n count h))

pub decode_segment-put :
    (limits : Limits) (count : ℕ)
    → count ≤ 2 ^ 32
    → (s : Segment) → IsTypedSegment limits count s
    → Reads (decode_segment limits count) put_segment (λ s. s) s
unfolding decode_segment put_segment Reads
decode_segment-put limits count c s t front back = (
  _,
  try_u32 _ _ _ _ _ t.index_fits
      ∙ try_u64 _ _ _ _ _ t.offset_fits
      ∙ try_u64 _ _ _ _ _ t.size_fits
      ∙ try_u64 _ _ _ _ _ t.address_fits
      ∙ try_u64 _ _ _ _ _ t.memory_fits
      ∙ try_u64 _ _ _ _ _ t.alignment_fits
      ∙ try_u8 _ _ _ _ _
      ∙ decoded_then (read_table limits.max_sections (decode_index count)) _ _ _ _
          (read_table_same (decode_index count) (λ n rest. le_bytes 4 n ++ rest) (λ n. n < count)
            limits.max_sections s.sections _ back t.few t.few_fits (decode_index-put count c)
            t.named).1,
)

pub record IsTypedHeader (h : FileHeader) : Type 0 where
  pub kind_fits : IsByteKind h.kind
  pub architecture_fits : IsByteArchitecture h.architecture
  pub entry_fits : h.entry_point < 2 ^ 64
  pub base_fits : h.image_base < 2 ^ 64
  pub sections_fit : h.section_table_offset < 2 ^ 64
  pub segments_fit : h.segment_table_offset < 2 ^ 64
  pub section_count_fits : h.section_count < 2 ^ 32
  pub segment_count_fits : h.segment_count < 2 ^ 32
  pub flags_fit : h.flags < 2 ^ 32

format_checks : (f : BinaryFormat) → leb (format_code f) 3 ≡ true
unfolding format_code
format_checks unknown_format = refl
format_checks elf_like = refl
format_checks pe_like = refl
format_checks macho_like = refl

word_checks : (w : WordSize) → (word_bytes w == 4 || word_bytes w == 8) ≡ true
unfolding word_bytes
word_checks bits32 = refl
word_checks bits64 = refl

order_checks : (o : ByteOrder) → leb (order_code o) 1 ≡ true
unfolding order_code
order_checks little = refl
order_checks big = refl

header_checks :
    (f : BinaryFormat) (w : WordSize) (o : ByteOrder)
    → (leb (format_code f) 3 && ((word_bytes w == 4 || word_bytes w == 8) && leb (order_code o) 1))
      ≡ true
header_checks f w o = rw (format_checks f, word_checks w, order_checks o) refl

format_of-code : (f : BinaryFormat) → format_of (format_code f) ≡ f
unfolding format_of format_code
format_of-code unknown_format = refl
format_of-code elf_like = refl
format_of-code pe_like = refl
format_of-code macho_like = refl

word_of-bytes : (w : WordSize) → word_of (word_bytes w) ≡ w
unfolding word_of word_bytes
word_of-bytes bits32 = refl
word_of-bytes bits64 = refl

order_of-code : (o : ByteOrder) → order_of (order_code o) ≡ o
unfolding order_of order_code
order_of-code little = refl
order_of-code big = refl

named_header :
    (h : FileHeader)
    → IsTypedHeader h
    → record h {
      format = format_of (format_code h.format);
      word_size = word_of (word_bytes h.word_size);
      byte_order = order_of (order_code h.byte_order);
      kind = kind_of (kind_code h.kind);
      architecture = architecture_of (architecture_code h.architecture);
    }
      ≡ h
named_header h t =
    rw
      (
        format_of-code h.format,
        word_of-bytes h.word_size,
        order_of-code h.byte_order,
        kind_of-code h.kind t.kind_fits,
        architecture_of-code h.architecture t.architecture_fits,
      )
      refl

pub decode_header-put :
    (h : FileHeader) → IsTypedHeader h → Reads decode_header put_header (λ h. h) h
unfolding decode_header put_header Reads
decode_header-put h t front back = (
  _,
  try_u8 _ _ _ _ _
      ∙ try_u8 _ _ _ _ _
      ∙ try_u8 _ _ _ _ _
      ∙ try_u8 _ _ _ _ _
      ∙ try_u8 _ _ _ _ _
      ∙ try_u64 _ _ _ _ _ t.entry_fits
      ∙ try_u64 _ _ _ _ _ t.base_fits
      ∙ try_u64 _ _ _ _ _ t.sections_fit
      ∙ try_u64 _ _ _ _ _ t.segments_fit
      ∙ try_u32 _ _ _ _ _ t.section_count_fits
      ∙ try_u32 _ _ _ _ _ t.segment_count_fits
      ∙ try_u32 _ _ _ _ _ t.flags_fit
      ∙ check_passes _ _ _ _ (header_checks h.format h.word_size h.byte_order)
      ∙ kept _ (named_header h t),
)
