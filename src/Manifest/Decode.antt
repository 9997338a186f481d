-- ===== src/Manifest/Decode.antt =====
-- src/manifest.cc: `ImageManifestCodec::decode`.
use binforge.Prelude.{
  ℕ, ◌-◌, ◌*◌, ◌%◌, ◌^◌, ◌||◌, not, Option, none, some, List, [], ◌∷◌, ltb, ◌==◌, if◌then◌else◌,
  text, text_eq, length, take, drop,
}
use binforge.Base.{
  Error, error, Result, ok, err, Limits, crc32, no_error, truncated, bad_magic, invalid_header,
  resource_limit,
}
use binforge.Base.Word.{join_u32}
use binforge.Image.{BinaryImage}
use binforge.Reader.{ByteReader, read_u32, read_u64, read_bytes, remaining}
use binforge.Reader.Container.{body_reader}
use binforge.Reader.Decoder.{Decoder, ◌>>=◌, ◌>>◌, pure, try, check, left_clear}
use binforge.Validator.{validate}
use binforge.Manifest.Write.{manifest_magic}
use binforge.Manifest.Read.{
  read_table, decode_header, decode_section, decode_segment, decode_symbol, decode_relocation,
  decode_import, decode_export, decode_debug_unit, header_error,
}

file_error : ByteReader → Error
file_error r = error resource_limit r.position (text "manifest backing-file size is invalid")

trailing_error : ByteReader → Error
trailing_error r = error invalid_header r.position (text "manifest contains trailing model data")

unfoldable pub decode_image : Limits → Decoder BinaryImage
unfolding decode_header decode_section decode_segment decode_symbol decode_relocation decode_import
    decode_export decode_debug_unit read_table file_error trailing_error
decode_image limits = do
  version ← try read_u32 header_error
  check (λ r. version == 1) header_error
  flags ← try read_u32 header_error
  header ← decode_header
  file_size ← try read_u64 file_error
  check (λ r. not (ltb limits.max_file_size file_size)) file_error
  check (λ r. not (ltb (remaining r) file_size)) file_error
  file ← try (read_bytes file_size) left_clear
  sections ← read_table limits.max_sections (decode_section limits file)
  segments ← read_table limits.max_segments (decode_segment limits (length sections))
  symbols ← read_table limits.max_symbols (decode_symbol limits)
  relocations ← read_table limits.max_relocations decode_relocation
  imports ← read_table limits.max_imports (decode_import limits)
  exports ← read_table limits.max_exports (decode_export limits)
  debug_units ← read_table limits.max_debug_units decode_debug_unit
  check (λ r. remaining r == 0) trailing_error
  pure (record {
    header = header;
    sections = sections;
    segments = segments;
    symbols = symbols;
    relocations = relocations;
    imports = imports;
    exports = exports;
    debug_units = debug_units;
    warnings = [];
    file_data = some file;
  })

-- `validation.errors.front()`, of a report that has errors.
unfoldable pub front : List Error → Error
front [] = error no_error 0 []
front (e ∷ errors) = e

unfoldable pub validated : Limits → BinaryImage → Result BinaryImage
unfolding front
validated limits image =
    if (validate limits image).valid then ok image else err (front (validate limits image).errors)

unfoldable pub decode_body : Limits → List ℕ → Result BinaryImage
unfolding decode_image validated
decode_body limits bytes =
    if ltb (length bytes) 16 || ltb (limits.max_file_size * 2 % 2 ^ 64) (length bytes)
    then err (error truncated 0 (text "manifest input size is invalid"))
    else if not (text_eq (take 4 bytes) manifest_magic)
    then err (error bad_magic 0 (text "manifest signature is invalid"))
    else if not (join_u32 (drop (length bytes - 4) bytes) == crc32 (take (length bytes - 4) bytes))
    then err (error invalid_header (length bytes - 4) (text "manifest checksum does not match"))
    else elim (decode_image limits (body_reader bytes)) [
      | err e ↦ err e
      | ok (image, r) ↦ validated limits image
    ]

-- `none` is a null pointer.
unfoldable pub decode : Limits → Option (List ℕ) → Result BinaryImage
unfolding decode_body
decode limits none = err (error truncated 0 (text "manifest input size is invalid"))
decode limits (some bytes) = decode_body limits bytes
