-- ===== src/Memory/Keeps.antt =====
-- What `map` and `write` of src/address_space.cc leave as it was.
use binforge.Prelude.{
  ℕ, ◌+◌, ◌-◌, ◌^◌, ◌≤◌, ◌<◌, ◌≡◌, refl, ap, sym, ◌∙◌, ◌⊎◌, inl, inr, ◌&&◌, true, Bool-cases, none,
  some, List, [], ◌∷◌, All, length, get_elem?, ltb, leb, if◌then◌else◌, Text, arith,
}
use mathlib.Core.Path.{subst}
use binforge.Base.{ok}
use binforge.Region.{MemoryRegion, emplace}
use binforge.Region.Order.{Chain, Apart}
use binforge.Region.Lookup.{scan, scan-found, scan-modify}
use binforge.Region.View.{byte_at}
use binforge.Memory.{AddressSpace, map_region, write}
use binforge.Memory.Invariant.{IsValid, new_region, map_region_iff, map_region-IsValid}
use binforge.Memory.Bytes.{
  write_inverse, write_nothing, write-IsValid, byte_at-write, overwrite, overwrite-KeepsShape,
}

-- The address is outside of this range.
abbrev pub Away : ℕ → ℕ → ℕ → Type 0
Away base n x = (x < base) ⊎ (base + n ≤ x)

pub byte_at-emplace :
    (lo a : ℕ) (new : MemoryRegion) (rs : List MemoryRegion)
    → 0 < new.size
    → Chain lo rs
    → All (Apart new.base (new.base + new.size)) rs
    → byte_at (emplace new rs) a ≡ (
        if leb new.base a && ltb a (new.base + new.size)
        then get_elem? new.bytes (a - new.base)
        else byte_at rs a)
unfolding byte_at emplace
byte_at-emplace lo a new [] p c h = refl
byte_at-emplace lo a new (r ∷ rs) p c h =
    ground (arith, p, c, h.0, byte_at-emplace (r.base + r.size) a new rs p c.4 h.1)

pub scan-emplace :
    (lo a : ℕ) (new : MemoryRegion) (rs : List MemoryRegion)
    → 0 < new.size
    → Chain lo rs
    → All (Apart new.base (new.base + new.size)) rs
    → scan a (emplace new rs)
      ≡ (if leb new.base a && ltb a (new.base + new.size) then some new else scan a rs)
unfolding scan emplace
scan-emplace lo a new [] p c h = refl
scan-emplace lo a new (r ∷ rs) p c h =
    ground (arith, p, c, h.0, scan-emplace (r.base + r.size) a new rs p c.4 h.1)

pub byte_at-Apart :
    (lo base end a : ℕ) (rs : List MemoryRegion)
    → Chain lo rs
    → All (Apart base end) rs
    → base ≤ a
    → a < end
    → (byte_at rs a ≡ none) × (scan a rs ≡ none)
unfolding byte_at scan
byte_at-Apart lo base end a [] c h low high = (refl, refl)
byte_at-Apart lo base end a (r ∷ rs) c h low high =
    let rest = byte_at-Apart (r.base + r.size) base end a rs c.4 h.1 low high in
    (ground (arith, h.0, low, high, rest.0), ground (arith, h.0, low, high, rest.1))

-- From one memory to the next: at the addresses of the predicate each byte that was there is there
-- still, and a region stands with its permissions wherever one stood.
pub record Keeps (P : ℕ → Type 0) (s t : AddressSpace) : Type 0 where
  pub valid : IsValid t
  pub bytes : (x b : ℕ) → P x → byte_at s.regions x ≡ some b → byte_at t.regions x ≡ some b
  pub permissions :
      (x : ℕ) (r : MemoryRegion)
      → scan x s.regions ≡ some r
      → (q : MemoryRegion) × (scan x t.regions ≡ some q) × (q.permissions ≡ r.permissions)

module _ (P : ℕ → Type 0) where
  pub Keeps-refl : (s : AddressSpace) → IsValid s → Keeps P s s
  Keeps-refl s v = record { valid = v; bytes = λ x b p e. e; permissions = λ x r e. (r, e, refl) }

  pub Keeps-trans : (s t u : AddressSpace) → Keeps P s t → Keeps P t u → Keeps P s u
  Keeps-trans s t u k l = record {
    valid = l.valid;
    bytes = λ x b p e. l.bytes x b p (k.bytes x b p e);
    permissions = λ x r e.
        let (q, there, same) = k.permissions x r e in
        let (q', there', same') = l.permissions x q there in (q', there', same' ∙ same);
  }

  pub map_region-Keeps :
      (base size p : ℕ) (name : Text) (s t : AddressSpace)
      → IsValid s
      → base < 2 ^ 64
      → map_region base size p name s ≡ ok t
      → Keeps P s t
  map_region-Keeps base size p name s t v small e =
      let (m, is) = (map_region_iff base size p name s v small t).0 e in
      let new : MemoryRegion = new_region base size p name in
      record {
        valid = map_region-IsValid base size p name s v small e;
        bytes = λ x b _ there. ground (
          arith,
          is,
          there,
          byte_at-emplace 0 x new s.regions m.nonempty v.chain m.apart,
          byte_at-Apart 0 base (base + size) x s.regions v.chain m.apart,
        );
        permissions = λ x r there. (
          r,
          ground (
            arith,
            is,
            there,
            scan-emplace 0 x new s.regions m.nonempty v.chain m.apart,
            byte_at-Apart 0 base (base + size) x s.regions v.chain m.apart,
          ),
          refl,
        );
      }

  pub write-Keeps :
      (a : ℕ) (input : List ℕ) (s t : AddressSpace)
      → IsValid s
      → ((x : ℕ) → P x → Away a (length input) x)
      → write a input true s ≡ ok t
      → Keeps P s t
  write-Keeps a [] s t v away e = subst (Keeps P s) (write_nothing a true s t e) (Keeps-refl s v)
  write-Keeps a (x ∷ xs) s t v away e =
      let input : List ℕ = x ∷ xs in
      let (r, h, is) = write_inverse a input true s t v (omega arith) e in
      record {
        valid = write-IsValid a input true s t v e;
        bytes =
            λ y b p there. ground (arith, there, away y p, byte_at-write a y input true s t v e);
        permissions = λ y q there.
            let changed =
              scan-modify 0 r.base y s.regions r (overwrite a input) v.chain h.found
                (overwrite-KeepsShape a input s r h) in
            let found = scan-found 0 r.base y s.regions r v.chain h.found in
            elim (Bool-cases (leb r.base y && ltb y (r.base + r.size))) [
              | inl inside ↦
                  let same : q ≡ r = ground (arith, there, found, inside) in
                  (
                    overwrite a input r,
                    ground (arith, is, changed, inside),
                    ap (λ (z : MemoryRegion). z.permissions) (sym same),
                  )
              | inr outside ↦ (q, ground (arith, is, changed, outside, there), refl)
            ];
      }
