-- ===== src/Resolver/Lookup.antt =====
-- What `SymbolResolver::resolve` finds of the exports that were added.
use binforge.Prelude.{ℕ, ◌≡◌, false, some, [], Text, text_eq_self, text_eq→eq, arith}
use binforge.Base.{ok}
use binforge.Image.{Export}
use binforge.Resolver.{
  SymbolResolver, find_name, find_ordinal, is_nameless, counted, add_export, resolve,
}

module _ (library : Text) (symbol : Export) (r r' : SymbolResolver)
    (e : add_export library symbol r ≡ ok r') where
  added_named :
      (o : ℕ)
      → is_nameless symbol.name ≡ false
      → resolve library symbol.name o r' ≡ some symbol.address
  unfolding add_export resolve find_name
  added_named o h = ground (arith, text_eq_self library, text_eq_self symbol.name)

  added_ordinal : resolve library [] symbol.ordinal r' ≡ some symbol.address
  unfolding add_export resolve find_ordinal is_nameless
  added_ordinal = ground (arith, text_eq_self library)

  kept_name :
      (l n : Text) (a : ℕ) → find_name l n r.named ≡ some a → find_name l n r'.named ≡ some a
  unfolding add_export find_name counted
  kept_name l n a f = ground (arith, text_eq→eq library l, text_eq→eq symbol.name n)

  kept_ordinal : (l : Text) (o a : ℕ) → resolve l [] o r ≡ some a → resolve l [] o r' ≡ some a
  unfolding add_export resolve find_ordinal is_nameless counted
  kept_ordinal l o a f = ground (arith, text_eq→eq library l)

-- After a successful `add_export`, the export is found by its name, whatever ordinal goes with it, if
-- it has a name, and by its ordinal alone; and of the exports there were, each name and each ordinal
-- is still found as before.
pub resolve-add_export :
    (library : Text) (symbol : Export) (r r' : SymbolResolver)
    → add_export library symbol r ≡ ok r'
    → ((o : ℕ)
        → is_nameless symbol.name ≡ false
        → resolve library symbol.name o r' ≡ some symbol.address)
      × (resolve library [] symbol.ordinal r' ≡ some symbol.address)
      × ((l n : Text) (a : ℕ) → find_name l n r.named ≡ some a → find_name l n r'.named ≡ some a)
      × ((l : Text) (o a : ℕ) → resolve l [] o r ≡ some a → resolve l [] o r' ≡ some a)
resolve-add_export library symbol r r' e = (
  added_named library symbol r r' e,
  added_ordinal library symbol r r' e,
  kept_name library symbol r r' e,
  kept_ordinal library symbol r r' e,
)
