-- ===== src/Resolver.antt =====
-- src/address_space.cc: `SymbolResolver`. Its two maps are lists of keys with values, searched from the
-- front; a key is added only when it is absent.
pub mod Lookup
use binforge.Prelude.{
  ℕ, Bool, true, false, ◌&&◌, ◌||◌, not, Option, none, some, List, [], ◌∷◌, ◌==◌, Text, text,
  text_eq, if◌then◌else◌,
}
use binforge.Base.{error, Result, ok, err, duplicate_export}
use binforge.Image.{Export}

pub record SymbolResolver : Type 0 where
  pub named : List (Text × (Text × ℕ))
  pub ordinals : List (Text × (ℕ × ℕ))

unfoldable pub find_name : Text → Text → List (Text × (Text × ℕ)) → Option ℕ
find_name library name [] = none
find_name library name ((l, (n, address)) ∷ rest) =
    if text_eq l library && text_eq n name then some address else find_name library name rest

unfoldable pub find_ordinal : Text → ℕ → List (Text × (ℕ × ℕ)) → Option ℕ
find_ordinal library ordinal [] = none
find_ordinal library ordinal ((l, (n, address)) ∷ rest) =
    if text_eq l library && (n == ordinal) then some address else find_ordinal library ordinal rest

unfoldable pub is_nameless : Text → Bool
is_nameless [] = true
is_nameless (c ∷ cs) = false

-- `count`
unfoldable pub counted : Option ℕ → Bool
counted none = false
counted (some address) = true

unfoldable pub add_export : Text → Export → SymbolResolver → Result SymbolResolver
unfolding find_name find_ordinal is_nameless counted
add_export library symbol r =
    if not (is_nameless symbol.name) && counted (find_name library symbol.name r.named)
      || counted (find_ordinal library symbol.ordinal r.ordinals)
    then err (error duplicate_export 0 (text "duplicate exported symbol"))
    else ok (record {
      named =
          if is_nameless symbol.name
          then r.named
          else (library, (symbol.name, symbol.address)) ∷ r.named;
      ordinals = (library, (symbol.ordinal, symbol.address)) ∷ r.ordinals;
    })

-- The second search of `resolve`, behind a first one that a nameless import skips.
unfoldable pub resolve : Text → Text → ℕ → SymbolResolver → Option ℕ
unfolding find_name find_ordinal is_nameless
resolve library name ordinal r =
    let by_name : Option ℕ = if is_nameless name then none else find_name library name r.named in
    elim by_name [ some address ↦ some address | none ↦ find_ordinal library ordinal r.ordinals ]

unfoldable pub clear_exports : SymbolResolver → SymbolResolver
clear_exports r = record { named = []; ordinals = [] }
