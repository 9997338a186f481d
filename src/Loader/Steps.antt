-- ===== src/Loader/Steps.antt =====
-- What the segments, the relocations and the imports of src/loader.cc keep of the memory, and what they count.
use binforge.Prelude.{
  ℕ, ◌+◌, ◌%◌, ◌^◌, ◌<◌, ◌≡◌, ap, sym, ◌⊎◌, inl, inr, true, Bool-cases, Option, some, Option-cases,
  List, [], ◌∷◌, All, ◌==◌, arith,
}
use mathlib.Core.Path.{subst}
use binforge.Base.{Error, ok, Result-cases, Limits, checked_add}
use binforge.Base.Checked.{checked_add_bound}
use binforge.Base.Word.{ByteOrder, to_bytes, length-to_bytes}
use binforge.Memory.{AddressSpace, write_integer, width_supported}
use binforge.Memory.Invariant.{IsValid}
use binforge.Memory.Integer.{write_integer_inverse}
use binforge.Memory.Keeps.{Away, Keeps, Keeps-refl, Keeps-trans, write-Keeps}
use binforge.Image.{BinaryImage, Segment, Relocation, Import, word_bytes}
use binforge.Resolver.{SymbolResolver}
use binforge.Relocation.{
  Relocated, value_of, nothing_to_do, unsupported, relocated, relocation_width, symbol_value,
  put_relocated, apply_one, apply_each,
}
use binforge.Loader.{
  Loading, LoadOptions, Placement, place, map_segment, write_segment, load_placed, load_segment,
  load_segments, and_then, changed, write_import,
}
use binforge.Loader.Place.{place-IsPlaced}
use binforge.Loader.Segments.{
  and_then-ok, changed-ok, IsHeld, IsHeld-Keeps, IsInside, Everywhere, placed-Keeps, placed-IsHeld,
}

-- A segment that is not empty is held.
abbrev pub IsLoaded : (ℕ → Type 0) → LoadOptions → List ℕ → ℕ → AddressSpace → Segment → Type 0
IsLoaded P options file bias t s = (s.memory_size ≡ 0) ⊎ IsHeld P options file bias s t

-- What the loop relies on.
abbrev pub IsLoadableSegment : List ℕ → Segment → Type 0
IsLoadableSegment file s = (s.virtual_address < 2 ^ 64) × IsInside file s

module _ (limits : Limits) (pages : limits.page_size < 2 ^ 64) (image : BinaryImage) (file : List ℕ)
    (has : image.file_data ≡ some file) (options : LoadOptions) (bias : ℕ) where
  load_segment-IsLoaded :
      (s : Segment) (m t : AddressSpace) (size : ℕ)
      → IsLoadableSegment file s
      → IsValid m
      → load_segment limits options s bias image m ≡ (ok size, t)
      → Keeps Everywhere m t × IsLoaded Everywhere options file bias t s
  unfolding load_segment load_placed
  load_segment-IsLoaded s m t size (small, inside) v e = elim (Bool-cases (s.memory_size == 0)) [
    | inl nothing ↦
        let same : m ≡ t = ground (arith, e, nothing) in
        (subst (Keeps Everywhere m) same (Keeps-refl Everywhere m v), inl (ground (arith, nothing)))
    | inr something ↦
        let run : and_then (place limits s bias, m)
              (λ placed here. load_placed options s placed image here)
            ≡ (ok size, t) =
          ground (arith, e, something) in
        let (p, m0, at, rest) =
          and_then-ok (place limits s bias, m)
            (λ placed here. load_placed options s placed image here) size t run in
        let placed : place limits s bias ≡ ok p = ap (λ (z : Loading Placement). z.0) at in
        let here : m0 ≡ m = sym (ap (λ (z : Loading Placement). z.1) at) in
        let rest' : load_placed options s p image m ≡ (ok size, t) =
          subst (λ (n : AddressSpace). load_placed options s p image n ≡ (ok size, t)) here rest in
        let (u, m1, mapping, more) =
          and_then-ok (changed m (map_segment options s p m)) _ size t rest' in
        let (u', m2, writing, end) =
          and_then-ok (changed m1 (write_segment s p.address image m1)) _ size t more in
        let last : m2 ≡ t = ap (λ (z : Loading ℕ). z.1) end in
        let good = place-IsPlaced limits s bias p pages small placed in
        let map_ok = changed-ok m (map_segment options s p m) u m1 mapping in
        let write_ok = changed-ok m1 (write_segment s p.address image m1) u' m2 writing in
        (
          subst (Keeps Everywhere m) last
              (placed-Keeps image file has options bias s p m m1 m2 good inside v map_ok write_ok),
          inr (
              subst (IsHeld Everywhere options file bias s) last (
                placed-IsHeld image file has options bias s p m m1 m2 good inside v map_ok
                  write_ok)),
        )
  ]

  pub IsLoaded-Keeps :
      (P : ℕ → Type 0) (t u : AddressSpace)
      → Keeps P t u
      → (s : Segment) → IsLoaded P options file bias t s
      → IsLoaded P options file bias u s
  IsLoaded-Keeps P t u k s (inl nothing) = inl nothing
  IsLoaded-Keeps P t u k s (inr held) = inr (IsHeld-Keeps P options file bias s t u k held)

  pub load_segments-IsLoaded :
      (segments : List Segment) (total size : ℕ) (m t : AddressSpace)
      → All (IsLoadableSegment file) segments
      → IsValid m
      → load_segments limits options segments bias image total m ≡ (ok size, t)
      → Keeps Everywhere m t × All (IsLoaded Everywhere options file bias t) segments
  unfolding load_segments
  load_segments-IsLoaded [] total size m t good v e =
      let same : m ≡ t = ground (arith, e) in
      (subst (Keeps Everywhere m) same (Keeps-refl Everywhere m v), tt)
  load_segments-IsLoaded (s ∷ segments) total size m t good v e =
      let (n, m1, first, rest) =
        and_then-ok (load_segment limits options s bias image m) _ size t e in
      let (k, held) = load_segment-IsLoaded s m m1 n good.0 v first in
      let (l, others) =
        load_segments-IsLoaded segments ((total + n) % 2 ^ 64) size m1 t good.1 k.valid rest in
      (Keeps-trans Everywhere m m1 t k l, (IsLoaded-Keeps Everywhere m1 t l s held, others))

module _ (P : ℕ → Type 0) where
  -- An integer has at most eight bytes.
  write_integer-Keeps :
      (a width : ℕ) (order : ByteOrder) (value : ℕ) (s t : AddressSpace)
      → IsValid s
      → ((x : ℕ) → P x → Away a 8 x)
      → write_integer a width order value true s ≡ ok t
      → Keeps P s t
  unfolding width_supported
  write_integer-Keeps a width order value s t v away e =
      let (supported, written) = write_integer_inverse a width order value true s t e in
      write-Keeps P a (to_bytes width order value) s t v
        (λ x p. ground (arith, away x p, supported, length-to_bytes width order value)) written

  -- The place of a relocation is not touched where the predicate holds.
  abbrev pub Spares : ℕ → Relocation → Type 0
  Spares bias rel = (rel.offset < 2 ^ 64) × ((x : ℕ) → P x → Away (rel.offset + bias) 8 x)

  put_relocated-Keeps :
      (q : Relocated) (target : ℕ) (image : BinaryImage) (s t : AddressSpace)
      → IsValid s
      → ((x : ℕ) → P x → Away target 8 x)
      → put_relocated q target image s ≡ ok t
      → Keeps P s t
  unfolding put_relocated
  put_relocated-Keeps nothing_to_do target image s t v away e =
      let same : s ≡ t = ground (arith, e) in subst (Keeps P s) same (Keeps-refl P s v)
  put_relocated-Keeps unsupported target image s t v away e = ground (arith, e)
  put_relocated-Keeps (value_of value width) target image s t v away e =
      write_integer-Keeps target width image.header.byte_order value s t v away (ground (arith, e))

  apply_one-Keeps :
      (rel : Relocation) (image : BinaryImage) (s t : AddressSpace) (bias : ℕ)
      (r : Option SymbolResolver)
      → Spares bias rel
      → IsValid s
      → apply_one rel image s bias r ≡ ok t
      → Keeps P s t
  unfolding apply_one
  apply_one-Keeps rel image s t bias r (small, away) v e =
      elim (Option-cases (checked_add rel.offset bias)) [
        | inl wraps ↦ ground (arith, e, wraps)
        | inr (target, at) ↦ elim (Result-cases (symbol_value rel image target bias r)) [
          | inr (x, bad) ↦ ground (arith, e, at, bad)
          | inl (symbol, good) ↦
              let is : target ≡ rel.offset + bias =
                (checked_add_bound rel.offset bias target small at).0 in
              put_relocated-Keeps
                (relocated rel.kind (relocation_width rel) symbol rel.addend bias target) target
                image s t v (λ x p. subst (λ (n : ℕ). Away n 8 x) (sym is) (away x p))
                (ground (arith, e, at, good))
        ]
      ]

  pub apply_each-Keeps :
      (rels : List Relocation) (image : BinaryImage) (s t : AddressSpace) (bias : ℕ)
      (r : Option SymbolResolver) (applied n : ℕ) (u : Unit {0})
      → All (Spares bias) rels
      → IsValid s
      → apply_each rels image s bias r applied ≡ (ok u, (n, t))
      → Keeps P s t
  unfolding apply_each
  apply_each-Keeps [] image s t bias r applied n u spares v e =
      let same : s ≡ t = ground (arith, e) in subst (Keeps P s) same (Keeps-refl P s v)
  apply_each-Keeps (rel ∷ rels) image s t bias r applied n u spares v e =
      elim (Result-cases (apply_one rel image s bias r)) [
        | inr (x, bad) ↦ ground (arith, e, bad)
        | inl (m, good) ↦
            let k = apply_one-Keeps rel image s m bias r spares.0 v good in
            let rest : apply_each rels image m bias r ((applied + 1) % 2 ^ 32) ≡ (ok u, (n, t)) =
              ground (arith, e, good) in
            Keeps-trans P s m t k (
              apply_each-Keeps rels image m t bias r ((applied + 1) % 2 ^ 32) n u spares.1 k.valid
                rest)
      ]

  -- The slot of an import is not touched where the predicate holds.
  abbrev pub SparesSlot : ℕ → Import → Type 0
  SparesSlot bias i = (i.slot_address < 2 ^ 64) × ((x : ℕ) → P x → Away (i.slot_address + bias) 8 x)

  pub write_import-Keeps :
      (before : Error) (i : Import) (target bias : ℕ) (image : BinaryImage) (s t : AddressSpace)
      → SparesSlot bias i
      → IsValid s
      → write_import before i target bias image s ≡ ok t
      → Keeps P s t
  unfolding write_import
  write_import-Keeps before i target bias image s t (small, away) v e =
      elim (Option-cases (checked_add i.slot_address bias)) [
        | inl wraps ↦ ground (arith, e, wraps)
        | inr (slot, at) ↦
            let is : slot ≡ i.slot_address + bias =
              (checked_add_bound i.slot_address bias slot small at).0 in
            write_integer-Keeps slot (word_bytes image.header.word_size) image.header.byte_order
              target s t v (λ x p. subst (λ (n : ℕ). Away n 8 x) (sym is) (away x p))
              (ground (arith, e, at))
      ]
