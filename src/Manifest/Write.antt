-- ===== src/Manifest/Write.antt =====
-- src/manifest.cc: `ManifestWriter` and `ImageManifestCodec::encode`. Each `put_...` takes the bytes
-- that follow.
use binforge.Prelude.{
  ℕ, ◌%◌, ◌^◌, bit_or, Bool, true, false, ◌&&◌, ◌||◌, not, none, some, List, [], ◌∷◌, ◌++◌, ltb,
  ◌==◌, if◌then◌else◌, Text, text, length, take, drop,
}
use binforge.Base.{error, Result, ok, err, Limits, crc32, range_inside, resource_limit}
use binforge.Base.Word.{le_bytes}
use binforge.Image.{
  BinaryImage, FileHeader, Section, Segment, Symbol, Relocation, Import, Export, DebugUnit,
  count_entries, word_bytes,
}
use binforge.Manifest.Codes.{
  format_code, order_code, kind_code, architecture_code, section_code, binding_code, symbol_code,
  relocation_code,
}

pub record ManifestOptions : Type 0 where
  pub include_symbols : Bool
  pub include_relocations : Bool
  pub include_imports : Bool
  pub include_exports : Bool
  pub include_debug_summary : Bool
  pub include_checksums : Bool

-- `"BFMF"`
abbrev pub manifest_magic : List ℕ
manifest_magic = 66 ∷ 70 ∷ 77 ∷ 70 ∷ []

-- `include ? bit : 0u`
unfoldable pub flag : Bool → ℕ → ℕ
flag true bit = bit
flag false bit = 0

unfoldable pub flags_of : ManifestOptions → ℕ
unfolding flag
flags_of o =
    bit_or
      (bit_or
        (bit_or
          (bit_or (bit_or (bit_or 0 (flag o.include_symbols 1)) (flag o.include_relocations 2))
            (flag o.include_imports 4))
          (flag o.include_exports 8))
        (flag o.include_debug_summary 16))
      (flag o.include_checksums 32)

-- `ManifestWriter::text`
unfoldable pub put_text : Text → List ℕ → List ℕ
put_text value back = le_bytes 4 (length value % 2 ^ 32) ++ (value ++ back)

unfoldable pub put_all : {A : Type 0} → (A → List ℕ → List ℕ) → List A → List ℕ → List ℕ
put_all put [] back = back
put_all put (x ∷ xs) back = put x (put_all put xs back)

-- The number of the items, and the loop over them.
unfoldable pub put_table : {A : Type 0} → (A → List ℕ → List ℕ) → List A → List ℕ → List ℕ
unfolding put_all
put_table put xs back = le_bytes 4 (length xs % 2 ^ 32) ++ put_all put xs back

-- The items that a loop up to `include ? static_cast<uint32_t>(items.size()) : 0` writes.
unfoldable pub counted : {A : Type 0} → Bool → List A → List A
counted include xs = if include then take (length xs % 2 ^ 32) xs else []

unfoldable pub bool_code : Bool → ℕ
bool_code true = 1
bool_code false = 0

unfoldable pub put_header : FileHeader → List ℕ → List ℕ
unfolding format_code word_bytes order_code kind_code architecture_code
put_header h back =
    format_code h.format
    ∷ word_bytes h.word_size
    ∷ order_code h.byte_order
    ∷ kind_code h.kind
    ∷ architecture_code h.architecture
    ∷ (le_bytes 8 h.entry_point
        ++ (le_bytes 8 h.image_base
            ++ (le_bytes 8 h.section_table_offset
                ++ (le_bytes 8 h.segment_table_offset
                    ++ (le_bytes 4 h.section_count
                        ++ (le_bytes 4 h.segment_count ++ (le_bytes 4 h.flags ++ back)))))))

-- The checksum of the section's bytes, where it is asked for and they are in the file.
unfoldable pub section_checksum : Bool → List ℕ → Section → ℕ
section_checksum include file s =
    if include && not (s.file_size == 0) && range_inside s.file_offset s.file_size (length file)
    then crc32 (take s.file_size (drop s.file_offset file))
    else 0

unfoldable pub put_section : Bool → List ℕ → Section → List ℕ → List ℕ
unfolding put_text section_code section_checksum
put_section include file s back =
    le_bytes 4 s.index
    ++ put_text s.name (
        section_code s.kind
        ∷ (le_bytes 8 s.file_offset
            ++ (le_bytes 8 s.file_size
                ++ (le_bytes 8 s.virtual_address
                    ++ (le_bytes 8 s.memory_size
                        ++ (le_bytes 8 s.alignment
                            ++ (le_bytes 8 s.entry_size
                                ++ (le_bytes 4 s.link
                                    ++ (le_bytes 4 s.info
                                        ++ (s.permissions
                                            ∷ (le_bytes 4 (section_checksum include file s)
                                                ++ back)))))))))))

unfoldable pub put_segment : Segment → List ℕ → List ℕ
unfolding put_table
put_segment s back =
    le_bytes 4 s.index
    ++ (le_bytes 8 s.file_offset
        ++ (le_bytes 8 s.file_size
            ++ (le_bytes 8 s.virtual_address
                ++ (le_bytes 8 s.memory_size
                    ++ (le_bytes 8 s.alignment
                        ++ (s.permissions
                            ∷ put_table (λ n rest. le_bytes 4 n ++ rest) s.sections back))))))

unfoldable pub put_symbol : Symbol → List ℕ → List ℕ
unfolding put_text binding_code symbol_code
put_symbol s back =
    le_bytes 4 s.index
    ++ put_text s.name (
        binding_code s.binding
        ∷ symbol_code s.kind
        ∷ (le_bytes 4 s.section_index
            ++ (le_bytes 8 s.value
                ++ (le_bytes 8 s.size ++ (s.visibility ∷ put_text s.library back)))))

unfoldable pub put_relocation : Relocation → List ℕ → List ℕ
unfolding relocation_code
put_relocation r back =
    le_bytes 4 r.index
    ++ (relocation_code r.kind
        ∷ (le_bytes 4 r.target_section
            ++ (le_bytes 4 r.symbol_index
                ++ (le_bytes 8 r.offset ++ (le_bytes 8 r.addend ++ (r.width ∷ back))))))

unfoldable pub put_import : Import → List ℕ → List ℕ
unfolding put_text bool_code
put_import i back = put_text i.library (
    put_text i.name
      (le_bytes 8 i.ordinal ++ (le_bytes 8 i.slot_address ++ (bool_code i.weak ∷ back))))

unfoldable pub put_export : Export → List ℕ → List ℕ
unfolding put_text bool_code
put_export e back = put_text e.name (
    le_bytes 8 e.address
    ++ (le_bytes 8 e.ordinal ++ (bool_code e.forwarded ∷ put_text e.forward_target back)))

unfoldable pub put_debug_unit : DebugUnit → List ℕ → List ℕ
unfolding count_entries
put_debug_unit u back =
    le_bytes 8 u.offset
    ++ (le_bytes 8 u.length_field
        ++ (le_bytes 4 u.version
            ++ (u.address_size
                ∷ (le_bytes 4 (length u.files % 2 ^ 32)
                    ++ (le_bytes 4 (length u.lines % 2 ^ 32)
                        ++ (le_bytes 4 (count_entries u.entries % 2 ^ 32) ++ back))))))

-- Everything between the magic and the checksum.
unfoldable pub put_image : ManifestOptions → List ℕ → BinaryImage → List ℕ
unfolding flags_of put_header put_section put_segment put_symbol put_relocation put_import
    put_export put_debug_unit put_table counted
put_image o file i =
    le_bytes 4 1
    ++ (le_bytes 4 (flags_of o)
        ++ put_header i.header (
            le_bytes 8 (length file)
            ++ (file
                ++ put_table (put_section o.include_checksums file) i.sections (
                    put_table put_segment i.segments (
                      put_table put_symbol (counted o.include_symbols i.symbols) (
                        put_table put_relocation (counted o.include_relocations i.relocations) (
                          put_table put_import (counted o.include_imports i.imports) (
                            put_table put_export (counted o.include_exports i.exports) (
                              put_table put_debug_unit
                                (counted o.include_debug_summary i.debug_units) [])))))))))

unfoldable pub encode : Limits → BinaryImage → ManifestOptions → Result (List ℕ)
unfolding put_image
encode limits i o =
    let exceeds = error resource_limit 0 (text "image exceeds manifest encoding limits") in
    elim i.file_data [
      | none ↦ err exceeds
      | some file ↦
          if ltb limits.max_file_size (length file)
            || ltb limits.max_sections (length i.sections)
            || ltb limits.max_segments (length i.segments)
            || ltb limits.max_symbols (length i.symbols)
            || ltb limits.max_relocations (length i.relocations)
          then err exceeds
          else let result = manifest_magic ++ put_image o file i in
            ok (result ++ le_bytes 4 (crc32 result))
    ]
