-- ===== src/SymbolIndex.antt =====
-- src/symbol_index.cc: `SymbolIndex`. A pointer to a symbol of the image is that symbol; a std::map is
-- the list of its entries in the order of the keys.
pub mod Names
pub mod Nearest
use binforge.Prelude.{
  ℕ, zero, suc, ◌-◌, Bool, true, false, ◌&&◌, not, Option, none, some, List, [], ◌∷◌, ltb, leb,
  ◌==◌, if◌then◌else◌, Text, text, text_eq, length,
}
use binforge.Base.{error, Result, ok, err, Limits, resource_limit}
use binforge.Image.{
  BinaryImage, Symbol, SymbolBinding, local, global, weak_symbol, import_symbol, export_symbol,
  SymbolKind, file_symbol, section_symbol,
}
use binforge.Resolver.{is_nameless}

pub record SymbolIndex : Type 0 where
  pub names : List (Text × Symbol)
  pub qualified : List ((Text × Text) × Symbol)
  pub addresses : List (ℕ × Symbol)

pub record SymbolLookupResult : Type 0 where
  pub symbol : Option Symbol
  pub displacement : ℕ
  pub exact : Bool

abbrev pub empty_index : SymbolIndex
empty_index = record { names = []; qualified = []; addresses = [] }

-- `std::string` compares byte by byte, a prefix first.
unfoldable pub text_below : Text → Text → Bool
text_below xs [] = false
text_below [] (y ∷ ys) = true
text_below (x ∷ xs) (y ∷ ys) = let rest = text_below xs ys in if x == y then rest else ltb x y

unfoldable pub is_local : SymbolBinding → Bool
is_local local = true
is_local _ = false

-- The one of two symbols of a name that the index keeps.
unfoldable pub preferred : Symbol → Symbol → Symbol
unfolding is_local
preferred existing symbol =
    if is_local existing.binding && not (is_local symbol.binding) then symbol else existing

-- `names_.emplace`, with what follows it when the name is there.
unfoldable pub put_name : Symbol → List (Text × Symbol) → List (Text × Symbol)
unfolding preferred text_below
put_name symbol [] = (symbol.name, symbol) ∷ []
put_name symbol ((name, existing) ∷ entries) =
    if text_eq name symbol.name
    then (name, preferred existing symbol) ∷ entries
    else if text_below symbol.name name
    then (symbol.name, symbol) ∷ (name, existing) ∷ entries
    else (name, existing) ∷ put_name symbol entries

unfoldable pub find_qualified : Text → Text → List ((Text × Text) × Symbol) → Option Symbol
find_qualified library name [] = none
find_qualified library name (((l, n), symbol) ∷ entries) =
    if text_eq l library && text_eq n name then some symbol else find_qualified library name entries

-- `qualified_.emplace`; the map is only ever searched for a key.
unfoldable pub put_qualified :
    Symbol → List ((Text × Text) × Symbol) → List ((Text × Text) × Symbol)
unfolding find_qualified
put_qualified symbol entries = elim (find_qualified symbol.library symbol.name entries) [
  | some existing ↦ entries
  | none ↦ ((symbol.library, symbol.name), symbol) ∷ entries
]

unfoldable pub sized : Symbol → Symbol → Symbol
sized existing symbol = if (existing.size == 0) && not (symbol.size == 0) then symbol else existing

-- `addresses_.emplace`, with what follows it when the address is there.
unfoldable pub put_address : Symbol → List (ℕ × Symbol) → List (ℕ × Symbol)
unfolding sized
put_address symbol [] = (symbol.value, symbol) ∷ []
put_address symbol ((address, existing) ∷ entries) =
    if address == symbol.value
    then (address, sized existing symbol) ∷ entries
    else if ltb symbol.value address
    then (symbol.value, symbol) ∷ (address, existing) ∷ entries
    else (address, existing) ∷ put_address symbol entries

unfoldable pub has_address : SymbolKind → Bool
has_address file_symbol = false
has_address section_symbol = false
has_address _ = true

unfoldable pub index_symbol : Symbol → SymbolIndex → SymbolIndex
unfolding put_name put_qualified put_address has_address
index_symbol symbol index = record {
  names = if is_nameless symbol.name then index.names else put_name symbol index.names;
  qualified =
      if is_nameless symbol.name then index.qualified else put_qualified symbol index.qualified;
  addresses =
      if not (symbol.value == 0) && has_address symbol.kind
      then put_address symbol index.addresses
      else index.addresses;
}

unfoldable pub index_symbols : List Symbol → SymbolIndex → SymbolIndex
unfolding index_symbol
index_symbols [] index = index
index_symbols (symbol ∷ symbols) index = index_symbols symbols (index_symbol symbol index)

-- The index is cleared first, also when the call fails.
unfoldable pub build : Limits → BinaryImage → Result (Unit {0}) × SymbolIndex
unfolding index_symbols
build limits image =
    if ltb limits.max_symbols (length image.symbols)
    then (err (error resource_limit 0 (text "symbol index limit exceeded")), empty_index)
    else (ok tt, index_symbols image.symbols empty_index)

unfoldable pub find_name : Text → List (Text × Symbol) → Option Symbol
find_name name [] = none
find_name name ((n, symbol) ∷ entries) =
    if text_eq n name then some symbol else find_name name entries

unfoldable pub by_name : Text → SymbolIndex → Option Symbol
unfolding find_name
by_name name index = find_name name index.names

unfoldable pub by_qualified_name : Text → Text → SymbolIndex → Option Symbol
unfolding find_qualified
by_qualified_name library name index = find_qualified library name index.qualified

-- `std::prev(addresses_.upper_bound(address))`
unfoldable pub before_upper : ℕ → List (ℕ × Symbol) → Option (ℕ × Symbol)
before_upper address [] = none
before_upper address (entry ∷ entries) =
    if ltb address entry.0
    then none
    else elim (before_upper address entries) [ some later ↦ some later | none ↦ some entry ]

unfoldable pub nearest : ℕ → SymbolIndex → SymbolLookupResult
unfolding before_upper
nearest address index = elim (before_upper address index.addresses) [
  | none ↦ record { symbol = none; displacement = 0; exact = false }
  | some found ↦
      let displacement : ℕ = address - found.0 in
      record {
        symbol =
            if not (found.1.size == 0) && leb found.1.size displacement then none else some found.1;
        displacement = displacement;
        exact = displacement == 0;
      }
]

-- `first.compare(0, prefix.size(), prefix) == 0`
unfoldable pub has_prefix : Text → Text → Bool
has_prefix [] name = true
has_prefix (p ∷ ps) [] = false
has_prefix (p ∷ ps) (c ∷ cs) = (c == p) && has_prefix ps cs

unfoldable pub lower_bound : Text → List (Text × Symbol) → List (Text × Symbol)
unfolding text_below
lower_bound name [] = []
lower_bound name (entry ∷ entries) =
    if text_below entry.0 name then lower_bound name entries else entry ∷ entries

-- The loop, which takes entries while they have the prefix, up to the maximum.
unfoldable pub take_prefixed : Text → ℕ → List (Text × Symbol) → List Symbol
unfolding has_prefix
take_prefixed prefix_value zero entries = []
take_prefixed prefix_value (suc more) [] = []
take_prefixed prefix_value (suc more) (entry ∷ entries) =
    if has_prefix prefix_value entry.0
    then entry.1 ∷ take_prefixed prefix_value more entries
    else []

unfoldable pub prefixed : Text → ℕ → SymbolIndex → List Symbol
unfolding lower_bound take_prefixed
prefixed prefix_value maximum index =
    take_prefixed prefix_value maximum (lower_bound prefix_value index.names)
