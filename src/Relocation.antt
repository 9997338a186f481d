-- ===== src/Relocation.antt =====
-- src/loader.cc: `RelocationProcessor`. Sums on `uint64_t` wrap, as they are written here.
pub mod Effect
use binforge.Prelude.{
  ℕ, ◌+◌, ◌-◌, ◌*◌, ◌/◌, ◌%◌, ◌^◌, Bool, true, false, ◌&&◌, not, Option, none, some, List, [], ◌∷◌,
  ltb, leb, ◌==◌, if◌then◌else◌, Text, text, length,
}
use binforge.Base.{
  error, Result, ok, err, ◌>>=◌, ◌>>◌, require, expect, Limits, checked_add, address_overflow,
  invalid_symbol, unresolved_import, invalid_relocation, resource_limit,
}
use binforge.Memory.{AddressSpace, write_integer}
use binforge.Image.{
  BinaryImage, Symbol, SymbolBinding, local, global, weak_symbol, import_symbol, export_symbol,
  Relocation, RelocationKind, no_relocation, absolute32, absolute64, relative32, relative64,
  pc_relative32, got_relative, plt_relative, other_relocation, high16, low16, symbol_of,
}
use binforge.Resolver.{SymbolResolver, resolve}

unfoldable pub is_wide : RelocationKind → Bool
is_wide absolute64 = true
is_wide relative64 = true
is_wide _ = false

unfoldable pub relocation_width : Relocation → ℕ
unfolding is_wide
relocation_width rel =
    if not (rel.width == 0) then rel.width else (if is_wide rel.kind then 8 else 4)

unfoldable pub is_import : SymbolBinding → Bool
is_import import_symbol = true
is_import _ = false

-- `none` for the resolver is a null pointer.
unfoldable pub symbol_address : Symbol → ℕ → ℕ → Option SymbolResolver → Result ℕ
unfolding is_import
symbol_address symbol target bias (some resolver) =
    if is_import symbol.binding
    then expect (resolve symbol.library symbol.name 0 resolver)
        (error unresolved_import target (text "relocation import unresolved"))
    else expect (checked_add symbol.value bias)
        (error address_overflow target (text "symbol address overflow"))
symbol_address symbol target bias none =
    expect (checked_add symbol.value bias)
      (error address_overflow target (text "symbol address overflow"))

unfoldable pub symbol_value : Relocation → BinaryImage → ℕ → ℕ → Option SymbolResolver → Result ℕ
unfolding symbol_address
symbol_value rel image target bias resolver =
    if rel.symbol_index == 0
    then ok 0
    else expect (symbol_of rel.symbol_index image)
        (error invalid_symbol target (text "relocation symbol index invalid"))
      >>= λ symbol. symbol_address symbol target bias resolver

-- What the `switch` of `apply_one` gives: a value with its width, a return of true, or an error.
pub data Relocated : Type 0 where
  value_of : ℕ → ℕ → Relocated
  nothing_to_do : Relocated
  unsupported : Relocated

-- `symbol_value + static_cast<uint64_t>(rel.addend)`
abbrev pub sum : ℕ → ℕ → ℕ
sum symbol addend = (symbol + addend) % 2 ^ 64

unfoldable pub relocated : RelocationKind → ℕ → ℕ → ℕ → ℕ → ℕ → Relocated
relocated relative32 width symbol addend bias target = value_of (sum bias addend) width
relocated relative64 width symbol addend bias target = value_of (sum bias addend) width
relocated pc_relative32 width symbol addend bias target =
    value_of ((sum symbol addend + 2 ^ 64 - target) % 2 ^ 64) width
relocated absolute32 width symbol addend bias target = value_of (sum symbol addend) width
relocated absolute64 width symbol addend bias target = value_of (sum symbol addend) width
relocated high16 width symbol addend bias target = value_of (sum symbol addend / 2 ^ 16) 2
relocated low16 width symbol addend bias target = value_of (sum symbol addend % 2 ^ 16) 2
relocated no_relocation width symbol addend bias target = nothing_to_do
relocated got_relative width symbol addend bias target = unsupported
relocated plt_relative width symbol addend bias target = unsupported
relocated (other_relocation n) width symbol addend bias target = unsupported

-- `width < 8 && value >= (uint64_t{1} << (width * 8))`
unfoldable pub too_wide : ℕ → ℕ → Bool
too_wide value width = ltb width 8 && leb (2 ^ (width * 8)) value

unfoldable pub put_relocated : Relocated → ℕ → BinaryImage → AddressSpace → Result AddressSpace
unfolding too_wide
put_relocated nothing_to_do target image memory = ok memory
put_relocated unsupported target image memory =
    err (error invalid_relocation target (text "unsupported relocation kind"))
put_relocated (value_of value width) target image memory = do
  require (not (too_wide value width))
      (error address_overflow target (text "relocation result does not fit"))
  write_integer target width image.header.byte_order value true memory

unfoldable pub apply_one :
    Relocation → BinaryImage → AddressSpace → ℕ → Option SymbolResolver → Result AddressSpace
apply_one rel image memory bias resolver = do
  target ←
      expect (checked_add rel.offset bias)
        (error address_overflow rel.offset (text "relocation target overflow"))
  symbol ← symbol_value rel image target bias resolver
  put_relocated (relocated rel.kind (relocation_width rel) symbol rel.addend bias target) target
      image memory

-- The loop of `apply`: the outcome, with what `applied` and the memory have become.
unfoldable pub apply_each :
    List Relocation
    → BinaryImage
    → AddressSpace
    → ℕ
    → Option SymbolResolver
    → ℕ
    → Result (Unit {0}) × (ℕ × AddressSpace)
apply_each [] image memory bias resolver applied = (ok tt, (applied, memory))
apply_each (rel ∷ relocations) image memory bias resolver applied =
    elim (apply_one rel image memory bias resolver) [
      | err e ↦ (err e, (applied, memory))
      | ok next ↦ apply_each relocations image next bias resolver ((applied + 1) % 2 ^ 32)
    ]

unfoldable pub apply_relocations :
    Limits
    → BinaryImage
    → AddressSpace
    → ℕ
    → Option SymbolResolver
    → Result (Unit {0}) × (ℕ × AddressSpace)
unfolding apply_each
apply_relocations limits image memory bias resolver =
    if ltb limits.max_relocations (length image.relocations)
    then (err (error resource_limit 0 (text "relocation count limit")), (0, memory))
    else apply_each image.relocations image memory bias resolver 0
