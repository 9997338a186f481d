-- ===== src/Loader/Correct.antt =====
-- `BinaryLoader::load` of src/loader.cc as a whole: what a load that succeeds makes of the memory and of
-- its result.
use binforge.Prelude.{
  ℕ, ◌+◌, ◌-◌, ◌%◌, ◌^◌, ◌<◌, ◌≡◌, refl, ap, sym, ◌∙◌, inl, inr, Bool-cases, Option, some, List, [],
  ◌∷◌, All, All-map, length, ◌==◌, if◌then◌else◌, arith,
}
use mathlib.Core.Path.{subst}
use binforge.Base.{Error, Result, ok, err, ◌>>=◌, Limits}
use binforge.Memory.{AddressSpace}
use binforge.Memory.Invariant.{IsValid}
use binforge.Memory.Keeps.{Keeps, Keeps-trans}
use binforge.Image.{BinaryImage, Segment}
use binforge.Resolver.{SymbolResolver}
use binforge.Validator.{validate}
use binforge.Validator.Verdict.{IsLoadable, validate-IsLoadable}
use binforge.Loader.{
  Loading, LoadOptions, LoadResult, original_base, load_segments, load_imports, load_relocations,
  load_entry, load_valid, load,
}
use binforge.Loader.Segments.{and_then-ok, Everywhere}
use binforge.Loader.Steps.{IsLoaded, IsLoaded-Keeps, IsLoadableSegment, load_segments-IsLoaded}
use binforge.Loader.Origin.{
  IsLinked, IsEntry, load_entry-IsEntry, original_base-small, original_base-IsLinked,
}
use binforge.Loader.Counts.{
  Untouched, IsTyped, all_both, load_relocations-Keeps, load_imports-Counts,
}
use binforge.Loader.Outcome.{found_all}

-- The image stands in the memory, `bias` from where it was linked to stand.
pub record IsOutcome (image : BinaryImage) (options : LoadOptions) (r : Option SymbolResolver)
    (m t : AddressSpace) (result : LoadResult) (original bias : ℕ) (file : List ℕ) : Type 0 where
  pub linked : IsLinked image original
  pub base :
      result.load_base ≡ (if options.preferred_base == 0 then original else options.preferred_base)
  pub shifted : (original + bias) % 2 ^ 64 ≡ result.load_base
  pub bias_small : bias < 2 ^ 64
  pub retained : image.file_data ≡ some file
  pub segments : All (IsLoaded (Untouched bias image) options file bias t) image.segments
  pub keeps : Keeps (Untouched bias image) m t
  pub relocated :
      result.relocations_applied
      ≡ (if options.apply_relocations then length image.relocations else 0)
  pub imported :
      result.imports_resolved
      ≡ (if options.resolve_imports then found_all r image.imports % 2 ^ 32 else 0)
  pub entry : IsEntry image.header.entry_point original bias result.entry_point

Keeps-Everywhere : (P : ℕ → Type 0) (m t : AddressSpace) → Keeps Everywhere m t → Keeps P m t
Keeps-Everywhere P m t k = record {
  valid = k.valid;
  bytes = λ x b _ there. k.bytes x b tt there;
  permissions = k.permissions;
}

IsLoaded-Everywhere :
    (P : ℕ → Type 0) (options : LoadOptions) (file : List ℕ) (bias : ℕ) (t : AddressSpace)
    (s : Segment)
    → IsLoaded Everywhere options file bias t s
    → IsLoaded P options file bias t s
IsLoaded-Everywhere P options file bias t s (inl nothing) = inl nothing
IsLoaded-Everywhere P options file bias t s (inr held) =
    inr (record { contents = λ i lt _. held.contents i lt tt; granted = held.granted })

shift_back :
    (base original : ℕ)
    → base < 2 ^ 64
    → original < 2 ^ 64
    → (original + (base + 2 ^ 64 - original) % 2 ^ 64) % 2 ^ 64 ≡ base
shift_back base original h k = omega (arith, h, k)

chosen_small :
    (preferred original : ℕ)
    → preferred < 2 ^ 64
    → original < 2 ^ 64
    → (if preferred == 0 then original else preferred) < 2 ^ 64
chosen_small preferred original h k = ground (arith, h, k)

loadable :
    (limits : Limits) (image : BinaryImage) (options : LoadOptions) (file : List ℕ)
    → IsTyped limits image options
    → IsLoadable limits image file
    → All (IsLoadableSegment file) image.segments
loadable limits image options file typed good =
    all_both _ _ image.segments typed.addresses
      (All-map image.segments good.segments_inside λ s h. (h.0, h.1))

finished :
    (r : Result ℕ) (build : ℕ → LoadResult) (m t : AddressSpace) (result : LoadResult)
    → ◌≡◌ {A = Loading LoadResult} (r >>= λ entry. ok (build entry), m) (ok result, t)
    → (entry : ℕ) × (r ≡ ok entry) × (build entry ≡ result) × (m ≡ t)
finished (err x) build m t result e =
    let failed : err x ≡ ok result = ap (λ (z : Loading LoadResult). z.0) e in
    ground (arith, failed)
finished (ok n) build m t result e = (
  n,
  refl,
  ap (λ (z : Loading LoadResult). elim z.0 [ ok x ↦ x | err _ ↦ build n ]) e,
  ap (λ (z : Loading LoadResult). z.1) e,
)

invalid_load :
    (errors : List Error) (before : Error) (m t : AddressSpace) (result : LoadResult)
    → ◌≡◌ {A = Loading LoadResult}
        (elim errors [ [] ↦ (err before, m) | e ∷ es ↦ (err e, m) ])
        (ok result, t)
    → ⊥
invalid_load [] before m t result e =
    let failed : err before ≡ ok result = ap (λ (z : Loading LoadResult). z.0) e in
    ground (arith, failed)
invalid_load (x ∷ errors) before m t result e =
    let failed : err x ≡ ok result = ap (λ (z : Loading LoadResult). z.0) e in
    ground (arith, failed)

module _ (limits : Limits) (before : Error) (image : BinaryImage) (m : AddressSpace)
    (options : LoadOptions) (r : Option SymbolResolver) where
  load_entry-IsOutcome :
      (base original bias mapped applied resolved : ℕ) (m1 m2 m3 t : AddressSpace)
      (result : LoadResult) (file : List ℕ)
      → IsTyped limits image options
      → IsLinked image original
      → base ≡ (if options.preferred_base == 0 then original else options.preferred_base)
      → ((original + bias) % 2 ^ 64 ≡ base) × (bias < 2 ^ 64)
      → image.file_data ≡ some file
      → Keeps Everywhere m m1 × All (IsLoaded Everywhere options file bias m1) image.segments
      → Keeps (Untouched bias image) m1 m2
        × (applied ≡ (if options.apply_relocations then length image.relocations else 0))
      → Keeps (Untouched bias image) m2 m3
        × (resolved ≡ (if options.resolve_imports then found_all r image.imports % 2 ^ 32 else 0))
      → ◌≡◌ {A = Loading LoadResult}
          (
            load_entry image original bias >>= λ entry. ok (record {
              load_base = base;
              entry_point = entry;
              mapped_bytes = mapped;
              relocations_applied = applied;
              imports_resolved = resolved;
              warnings = [];
            }),
            m3,
          )
          (ok result, t)
      → IsOutcome image options r m t result original bias file
  load_entry-IsOutcome base original bias mapped applied resolved m1 m2 m3 t result file typed
        linked chosen shift has first second third e =
      let build : ℕ → LoadResult = λ entry. record {
        load_base = base;
        entry_point = entry;
        mapped_bytes = mapped;
        relocations_applied = applied;
        imports_resolved = resolved;
        warnings = [];
      } in
      let (entry, enters, same, last) =
        finished (load_entry image original bias) build m3 t result e in
      let P : ℕ → Type 0 = Untouched bias image in
      let k : Keeps P m1 m3 = Keeps-trans P m1 m2 m3 second.0 third.0 in
      subst (λ (x : LoadResult). IsOutcome image options r m t x original bias file) same
        (subst
          (λ (x : AddressSpace). IsOutcome image options r m x (build entry) original bias file)
          last
          (record {
            linked = linked;
            base = chosen;
            shifted = shift.0;
            bias_small = shift.1;
            retained = has;
            segments = All-map image.segments first.1 λ s held.
                IsLoaded-Keeps limits typed.page_size image file has options bias P m1 m3 k s
                  (IsLoaded-Everywhere P options file bias m1 s held);
            keeps = Keeps-trans P m m1 m3 (Keeps-Everywhere P m m1 first.0) k;
            relocated = second.1;
            imported = third.1;
            entry = load_entry-IsEntry image original bias entry typed.entry_point enters;
          }))

  load_valid-IsOutcome :
      (result : LoadResult) (t : AddressSpace) (file : List ℕ)
      → IsTyped limits image options
      → IsValid m
      → IsLoadable limits image file
      → load_valid limits before image m options r ≡ (ok result, t)
      → (original : ℕ) × (bias : ℕ) × IsOutcome image options r m t result original bias file
  unfolding load_valid
  load_valid-IsOutcome result t file typed v good e =
      let original : ℕ = original_base image in
      let base : ℕ = if options.preferred_base == 0 then original else options.preferred_base in
      let bias : ℕ = (base + 2 ^ 64 - original) % 2 ^ 64 in
      let small = original_base-small image image.segments refl typed.image_base typed.addresses in
      let (mapped, m1, mapping, e1) =
        and_then-ok (load_segments limits options image.segments bias image 0 m) _ result t e in
      let first =
        load_segments-IsLoaded limits typed.page_size image file good.retained options bias
          image.segments 0 mapped m m1 (loadable limits image options file typed good) v mapping in
      let (applied, m2, moving, e2) =
        and_then-ok (load_relocations limits options image bias r m1) _ result t e1 in
      let second =
        load_relocations-Keeps limits options image bias r typed m1 m2 applied first.0.valid
          moving in
      let (resolved, m3, binding, e3) =
        and_then-ok
          (if options.resolve_imports
            then load_imports before image.imports r bias image 0 m2
            else (ok 0, m2))
          _ result t e2 in
      let third =
        load_imports-Counts limits options image bias r typed before options.resolve_imports m2 m3
          resolved second.0.valid binding in
      let shift =
        shift_back base original
          (chosen_small options.preferred_base original typed.preferred_base small) small in
      (
        original,
        bias,
        load_entry-IsOutcome base original bias mapped applied resolved m1 m2 m3 t result file typed
            (original_base-IsLinked image) refl (shift, omega arith) good.retained first second
            third e3,
      )

  -- A load of an image that succeeds, with fields of the C++ types and into a well-formed memory,
  -- keeps the memory well-formed. The result's base is the preferred one, or else the one that the
  -- image was linked for, and the bias is the difference of the two, in 64 bits. Each segment that
  -- is not empty stands at its address plus the bias, with its bytes of the file, zeros behind
  -- them, and the permissions that it asks for, writable too, and not executable under
  -- `enforce_wx`; its contents are stated save where a relocation or an import slot may reach. All
  -- that was in memory before is there still, with that same exception. The result counts the
  -- relocations, and the imports that the resolver knows, each where it was asked for; and the
  -- entry point moves by the bias if it is set and not below a base that is not zero.
  pub load-IsOutcome :
      (result : LoadResult) (t : AddressSpace)
      → IsTyped limits image options
      → IsValid m
      → load limits before image m options r ≡ (ok result, t)
      → (original : ℕ) × (bias : ℕ) × (file : List ℕ) × IsOutcome image options r m t result
          original bias file
  unfolding load
  load-IsOutcome result t typed v e = elim (Bool-cases (validate limits image).valid) [
    | inl valid ↦
        let (file, good) = validate-IsLoadable limits image valid in
        let is : load limits before image m options r ≡ load_valid limits before image m options r =
          rw valid refl in
        let (original, bias, out) = load_valid-IsOutcome result t file typed v good (sym is ∙ e) in
        (original, bias, file, out)
    | inr invalid ↦
        absurd (
          invalid_load (validate limits image).errors before m t result (sym (rw invalid refl) ∙ e))
  ]
