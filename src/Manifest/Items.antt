-- ===== src/Manifest/Items.antt =====
-- The symbols, relocations, imports, exports and debug units of src/manifest.cc read back from the
-- bytes that their writers put.
use binforge.Prelude.{◌^◌, ◌<◌, ◌≡◌, refl, ap, ◌∙◌, Bool, true, false, not, [], ◌==◌, arith}
use native.Mathlib.Nat.{mod-eq_of_lt}
use binforge.Base.{Limits}
use binforge.Image.{Symbol, Relocation, Import, Export, DebugUnit, no_entries}
use binforge.Reader.Decoder.{try_u8, try_u32, try_u64}
use binforge.Manifest.Codes.{
  IsByteBinding, IsByteSymbol, IsByteRelocation, binding_of, binding_code, symbol_of, symbol_code,
  binding_of-code, symbol_of-code, relocation_of-code,
}
use binforge.Manifest.Write.{
  put_symbol, put_relocation, put_import, put_export, put_debug_unit, bool_code,
}
use binforge.Manifest.Read.{
  decode_symbol, decode_relocation, decode_import, decode_export, decode_debug_unit,
}
use binforge.Manifest.Tables.{Reads, text_then, kept, IsText}

pub record IsTypedSymbol (limits : Limits) (s : Symbol) : Type 0 where
  pub index_fits : s.index < 2 ^ 32
  pub name_fits : IsText limits s.name
  pub binding_fits : IsByteBinding s.binding
  pub kind_fits : IsByteSymbol s.kind
  pub section_fits : s.section_index < 2 ^ 32
  pub value_fits : s.value < 2 ^ 64
  pub size_fits : s.size < 2 ^ 64
  pub library_fits : IsText limits s.library

named_symbol :
    {limits : Limits} (s : Symbol)
    → IsTypedSymbol limits s
    → record s {
      binding = binding_of (binding_code s.binding);
      kind = symbol_of (symbol_code s.kind);
    }
      ≡ s
named_symbol s t =
    rw (binding_of-code s.binding t.binding_fits, symbol_of-code s.kind t.kind_fits) refl

pub decode_symbol-put :
    (limits : Limits) (s : Symbol)
    → IsTypedSymbol limits s
    → Reads (decode_symbol limits) put_symbol (λ s. s) s
unfolding decode_symbol put_symbol Reads IsText
decode_symbol-put limits s t front back = (
  _,
  try_u32 _ _ _ _ _ t.index_fits
      ∙ text_then _ _ _ _ _ _ t.name_fits.0 t.name_fits.1
      ∙ try_u8 _ _ _ _ _
      ∙ try_u8 _ _ _ _ _
      ∙ try_u32 _ _ _ _ _ t.section_fits
      ∙ try_u64 _ _ _ _ _ t.value_fits
      ∙ try_u64 _ _ _ _ _ t.size_fits
      ∙ try_u8 _ _ _ _ _
      ∙ text_then _ _ _ _ _ _ t.library_fits.0 t.library_fits.1
      ∙ kept _ (named_symbol s t),
)

pub record IsTypedRelocation (r : Relocation) : Type 0 where
  pub index_fits : r.index < 2 ^ 32
  pub kind_fits : IsByteRelocation r.kind
  pub section_fits : r.target_section < 2 ^ 32
  pub symbol_fits : r.symbol_index < 2 ^ 32
  pub offset_fits : r.offset < 2 ^ 64
  pub addend_fits : r.addend < 2 ^ 64

pub decode_relocation-put :
    (r : Relocation) → IsTypedRelocation r → Reads decode_relocation put_relocation (λ r. r) r
unfolding decode_relocation put_relocation Reads
decode_relocation-put r t front back = (
  _,
  try_u32 _ _ _ _ _ t.index_fits
      ∙ try_u8 _ _ _ _ _
      ∙ try_u32 _ _ _ _ _ t.section_fits
      ∙ try_u32 _ _ _ _ _ t.symbol_fits
      ∙ try_u64 _ _ _ _ _ t.offset_fits
      ∙ try_u64 _ _ _ _ _ t.addend_fits
      ∙ try_u8 _ _ _ _ _
      ∙ kept _ (ap (λ kind. record r { kind = kind }) (relocation_of-code r.kind t.kind_fits)),
)

pub record IsTypedImport (limits : Limits) (i : Import) : Type 0 where
  pub library_fits : IsText limits i.library
  pub name_fits : IsText limits i.name
  pub ordinal_fits : i.ordinal < 2 ^ 64
  pub slot_fits : i.slot_address < 2 ^ 64

bool_of-code : (b : Bool) → not (bool_code b == 0) ≡ b
unfolding bool_code
bool_of-code true = refl
bool_of-code false = refl

pub decode_import-put :
    (limits : Limits) (i : Import)
    → IsTypedImport limits i
    → Reads (decode_import limits) put_import (λ i. i) i
unfolding decode_import put_import Reads IsText
decode_import-put limits i t front back = (
  _,
  text_then _ _ _ _ _ _ t.library_fits.0 t.library_fits.1
      ∙ text_then _ _ _ _ _ _ t.name_fits.0 t.name_fits.1
      ∙ try_u64 _ _ _ _ _ t.ordinal_fits
      ∙ try_u64 _ _ _ _ _ t.slot_fits
      ∙ try_u8 _ _ _ _ _
      ∙ kept _ (ap (λ weak. record i { weak = weak }) (bool_of-code i.weak)),
)

pub record IsTypedExport (limits : Limits) (e : Export) : Type 0 where
  pub name_fits : IsText limits e.name
  pub address_fits : e.address < 2 ^ 64
  pub ordinal_fits : e.ordinal < 2 ^ 64
  pub target_fits : IsText limits e.forward_target

pub decode_export-put :
    (limits : Limits) (e : Export)
    → IsTypedExport limits e
    → Reads (decode_export limits) put_export (λ e. e) e
unfolding decode_export put_export Reads IsText
decode_export-put limits e t front back = (
  _,
  text_then _ _ _ _ _ _ t.name_fits.0 t.name_fits.1
      ∙ try_u64 _ _ _ _ _ t.address_fits
      ∙ try_u64 _ _ _ _ _ t.ordinal_fits
      ∙ try_u8 _ _ _ _ _
      ∙ text_then _ _ _ _ _ _ t.target_fits.0 t.target_fits.1
      ∙ kept _ (ap (λ forwarded. record e { forwarded = forwarded }) (bool_of-code e.forwarded)),
)

pub record IsTypedUnit (u : DebugUnit) : Type 0 where
  pub offset_fits : u.offset < 2 ^ 64
  pub length_fits : u.length_field < 2 ^ 64
  pub version_fits : u.version < 2 ^ 16

-- What a manifest keeps of a debug unit.
unfoldable pub unit_summary : DebugUnit → DebugUnit
unit_summary u = record u { files = []; lines = []; entries = no_entries }

pub decode_debug_unit-put :
    (u : DebugUnit) → IsTypedUnit u → Reads decode_debug_unit put_debug_unit unit_summary u
unfolding decode_debug_unit put_debug_unit Reads unit_summary
decode_debug_unit-put u t front back = (
  _,
  try_u64 _ _ _ _ _ t.offset_fits
      ∙ try_u64 _ _ _ _ _ t.length_fits
      ∙ try_u32 _ _ _ _ _ (omega (arith, t.version_fits))
      ∙ try_u8 _ _ _ _ _
      ∙ try_u32 _ _ _ _ _ (omega arith)
      ∙ try_u32 _ _ _ _ _ (omega arith)
      ∙ try_u32 _ _ _ _ _ (omega arith)
      ∙ kept _ (
          ap (λ version. record (unit_summary u) { version = version })
            (mod-eq_of_lt t.version_fits)),
)
