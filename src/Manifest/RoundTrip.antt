-- ===== src/Manifest/RoundTrip.antt =====
-- `ImageManifestCodec::decode` reads back what `ImageManifestCodec::encode` wrote.
use binforge.Prelude.{◌^◌, ◌≤◌, ◌<◌, Bool, List, [], map, All, length, if◌then◌else◌}
use binforge.Base.{Limits}
use binforge.Image.{BinaryImage}
use binforge.Reader.Decoder.{Decoder}
use binforge.Manifest.Write.{ManifestOptions}
use binforge.Manifest.Items.{
  IsTypedSymbol, IsTypedRelocation, IsTypedImport, IsTypedExport, IsTypedUnit, unit_summary,
}
use binforge.Manifest.Parts.{IsTypedHeader, IsTypedSection, IsTypedSegment}

unfoldable pub included : {A : Type 0} → Bool → List A → List A
included include xs = if include then xs else []

-- What a manifest keeps of an image: the tables that are asked for, no warnings, and of a debug unit
-- only its header.
unfoldable pub summary : ManifestOptions → BinaryImage → BinaryImage
unfolding included unit_summary
summary o i = record i {
  symbols = included o.include_symbols i.symbols;
  relocations = included o.include_relocations i.relocations;
  imports = included o.include_imports i.imports;
  exports = included o.include_exports i.exports;
  debug_units = map unit_summary (included o.include_debug_summary i.debug_units);
  warnings = [];
}

-- The limits that are numbers of 32 bits.
pub record IsTypedLimits (limits : Limits) : Type 0 where
  pub sections : limits.max_sections < 2 ^ 32
  pub segments : limits.max_segments < 2 ^ 32
  pub symbols : limits.max_symbols < 2 ^ 32
  pub relocations : limits.max_relocations < 2 ^ 32
  pub imports : limits.max_imports < 2 ^ 32
  pub exports : limits.max_exports < 2 ^ 32
  pub debug_units : limits.max_debug_units < 2 ^ 32
  pub file_size : limits.max_file_size < 2 ^ 64

-- Every field fits its type, and the tables that `encode` does not test are within the limits.
pub record IsTypedImage (limits : Limits) (i : BinaryImage) : Type 0 where
  pub header : IsTypedHeader i.header
  pub sections : All (IsTypedSection limits) i.sections
  pub segments : All (IsTypedSegment limits (length i.sections)) i.segments
  pub symbols : All (IsTypedSymbol limits) i.symbols
  pub relocations : All IsTypedRelocation i.relocations
  pub imports : All (IsTypedImport limits) i.imports
  pub exports : All (IsTypedExport limits) i.exports
  pub debug_units : All IsTypedUnit i.debug_units
  pub imports_few : length i.imports ≤ limits.max_imports
  pub exports_few : length i.exports ≤ limits.max_exports
  pub debug_units_few : length i.debug_units ≤ limits.max_debug_units
