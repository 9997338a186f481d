-- ===== src/Loader/Segments.antt =====
-- What the loop of src/loader.cc over the segments leaves in memory.
use binforge.Prelude.{
  ℕ, zero, suc, ◌+◌, ◌-◌, ◌≤◌, ◌<◌, ◌≡◌, refl, ap, sym, ◌∙◌, ◌⊎◌, inl, inr, ◌&&◌, true, Bool-cases,
  none, some, List, [], ◌∷◌, ◌++◌, length, length-take, length-drop, take, drop, replicate,
  get_elem?, ltb, leb, ◌==◌, if◌then◌else◌, text, arith,
}
use mathlib.Core.Path.{subst}
use binforge.Base.{Result, ok, err}
use binforge.Region.{MemoryRegion}
use binforge.Region.Lookup.{scan}
use binforge.Region.View.{byte_at, get_elem?-cut}
use binforge.Memory.{AddressSpace, write}
use binforge.Memory.Invariant.{IsValid, new_region, map_region_iff}
use binforge.Memory.Bytes.{byte_at-write}
use binforge.Memory.Keeps.{
  Away, Keeps, Keeps-refl, map_region-Keeps, write-Keeps, byte_at-emplace, scan-emplace,
  byte_at-Apart,
}
use binforge.Image.{BinaryImage, Segment}
use binforge.Loader.{
  decimal, Loading, LoadOptions, Placement, initial_permissions, write_segment, map_segment,
  and_then, changed,
}
use binforge.Loader.Place.{IsGranted, initial_permissions-IsGranted, IsPlaced}

pub and_then-ok :
    {A B : Type 0} (step : Loading A) (next : A → AddressSpace → Loading B) (b : B)
    (t : AddressSpace)
    → and_then step next ≡ (ok b, t)
    → (a : A) × (m : AddressSpace) × (step ≡ (ok a, m)) × (next a m ≡ (ok b, t))
unfolding and_then
and_then-ok (err x, m) next b t e = ground (arith, e)
and_then-ok (ok a, m) next b t e = (a, m, refl, e)

pub changed-ok :
    (m : AddressSpace) (r : Result AddressSpace) (u : Unit {0}) (t : AddressSpace)
    → changed m r ≡ (ok u, t)
    → r ≡ ok t
unfolding changed
changed-ok m (ok s) u t e = ground (arith, e)
changed-ok m (err x) u t e = ground (arith, e)

-- Byte `i` of a segment: that of the file, or a zero behind the bytes of the file.
abbrev pub IsSource : List ℕ → Segment → ℕ → ℕ → Type 0
IsSource file s i b =
    ((i < s.file_size) × (get_elem? file (s.file_offset + i) ≡ some b))
    ⊎ ((s.file_size ≤ i) × (b ≡ 0))

-- The memory holds the segment behind the bias: its bytes, at the addresses of the predicate, and its
-- permissions, at all addresses.
pub record IsHeld (P : ℕ → Type 0) (options : LoadOptions) (file : List ℕ) (bias : ℕ) (s : Segment)
    (t : AddressSpace) : Type 0 where
  pub contents :
      (i : ℕ)
      → i < s.memory_size
      → P (s.virtual_address + bias + i)
      → (b : ℕ) × (byte_at t.regions (s.virtual_address + bias + i) ≡ some b) × IsSource file s i b
  pub granted :
      (i : ℕ)
      → i < s.memory_size
      → (r : MemoryRegion) × (scan (s.virtual_address + bias + i) t.regions ≡ some r)
        × IsGranted options s r.permissions

pub IsHeld-Keeps :
    (P : ℕ → Type 0) (options : LoadOptions) (file : List ℕ) (bias : ℕ) (s : Segment)
    (t u : AddressSpace)
    → Keeps P t u
    → IsHeld P options file bias s t
    → IsHeld P options file bias s u
IsHeld-Keeps P options file bias s t u k h = record {
  contents = λ i lt p.
      let (b, there, source) = h.contents i lt p in
      (b, k.bytes (s.virtual_address + bias + i) b p there, source);
  granted = λ i lt.
      let (r, there, granted) = h.granted i lt in
      let (q, now, same) = k.permissions (s.virtual_address + bias + i) r there in
      (q, now, subst (IsGranted options s) (sym same) granted);
}

get_elem?-replicate : (n i : ℕ) → i < n → get_elem? {A = ℕ} (replicate n 0) i ≡ some 0
get_elem?-replicate zero i h = absurd (omega arith)
get_elem?-replicate (suc n) zero h = refl
get_elem?-replicate (suc n) (suc i) h = get_elem?-replicate n i (omega (arith, h))

get_elem?-some : (xs : List ℕ) (i : ℕ) → i < length xs → (b : ℕ) × (get_elem? xs i ≡ some b)
get_elem?-some [] i h = absurd (omega arith)
get_elem?-some (x ∷ xs) zero h = (x, refl)
get_elem?-some (x ∷ xs) (suc i) h = get_elem?-some xs i (omega (arith, h))

-- What the validator says of a segment.
abbrev pub IsInside : List ℕ → Segment → Type 0
IsInside file s = (s.file_size ≤ s.memory_size) × (s.file_offset + s.file_size ≤ length file)

abbrev pub Everywhere : ℕ → Type 0
Everywhere x = Unit {0}

module _ (image : BinaryImage) (file : List ℕ) (has : image.file_data ≡ some file)
    (options : LoadOptions) (bias : ℕ) where
  -- The bytes of the file are at the address, and no other byte has changed.
  write_segment-bytes :
      (s : Segment) (address : ℕ) (m t : AddressSpace)
      → IsInside file s
      → IsValid m
      → write_segment s address image m ≡ ok t
      → ((x : ℕ)
          → byte_at t.regions x ≡ (
              if leb address x && ltb x (address + s.file_size)
              then get_elem? file (s.file_offset + (x - address))
              else byte_at m.regions x))
        × Keeps (Away address s.file_size) m t
  unfolding write_segment
  write_segment-bytes s address m t inside v e = elim (Bool-cases (s.file_size == 0)) [
    | inl nothing ↦
        let same : m ≡ t = ground (arith, nothing, e) in
        (
          λ x. ground (arith, nothing, same),
          subst (Keeps (Away address s.file_size) m) same
              (Keeps-refl (Away address s.file_size) m v),
        )
    | inr something ↦
        let input : List ℕ = take s.file_size (drop s.file_offset file) in
        let size : length input ≡ s.file_size =
          length-take s.file_size (drop s.file_offset file)
            (omega (arith, inside, length-drop s.file_offset file)) in
        let written : write address input true m ≡ ok t = ground (arith, e, something, has) in
        (
          λ x. ground (
            arith,
            size,
            byte_at-write address x input true m t v written,
            get_elem?-cut s.file_size s.file_offset (x - address) file,
          ),
          write-Keeps (Away address s.file_size) address input m t v
              (λ x away. subst (λ (n : ℕ). Away address n x) (sym size) away) written,
        )
  ]

  -- One mapping, and the bytes of the file in it.
  module _ (s : Segment) (p : Placement) (m m1 m2 : AddressSpace) (placed : IsPlaced s bias p)
      (inside : IsInside file s) (v : IsValid m) (map_ok : map_segment options s p m ≡ ok m1)
      (write_ok : write_segment s p.address image m1 ≡ ok m2) where
    abbrev region : MemoryRegion
    region =
        new_region p.aligned_base p.aligned_size (initial_permissions options s)
          (text "segment." ++ decimal 10 s.index)

    mapping-Keeps : (P : ℕ → Type 0) → Keeps P m m1
    unfolding map_segment
    mapping-Keeps P =
        map_region-Keeps P p.aligned_base p.aligned_size (initial_permissions options s)
          (text "segment." ++ decimal 10 s.index) m m1 v placed.small map_ok

    writing :
        ((x : ℕ)
          → byte_at m2.regions x ≡ (
              if leb p.address x && ltb x (p.address + s.file_size)
              then get_elem? file (s.file_offset + (x - p.address))
              else byte_at m1.regions x))
        × Keeps (Away p.address s.file_size) m1 m2
    writing = write_segment-bytes s p.address m1 m2 inside (mapping-Keeps Everywhere).valid write_ok

    -- At the addresses of the new region there was nothing, and there are zeros now.
    mapping-fresh :
        (x : ℕ)
        → p.aligned_base ≤ x
        → x < p.aligned_base + p.aligned_size
        → (byte_at m.regions x ≡ none)
          × (byte_at m1.regions x ≡ some 0)
          × (scan x m1.regions ≡ some region)
    unfolding map_segment
    mapping-fresh x low high =
        let (q, is) =
          (map_region_iff p.aligned_base p.aligned_size (initial_permissions options s)
              (text "segment." ++ decimal 10 s.index) m v placed.small m1).0
            map_ok in
        let zero_there : get_elem? {A = ℕ} (replicate p.aligned_size 0) (x - p.aligned_base)
            ≡ some 0 =
          get_elem?-replicate p.aligned_size (x - p.aligned_base) (omega (arith, low, high)) in
        (
          (byte_at-Apart 0 p.aligned_base (p.aligned_base + p.aligned_size) x m.regions v.chain
              q.apart low high).0,
          ground (
            arith,
            is,
            low,
            high,
            zero_there,
            byte_at-emplace 0 x region m.regions q.nonempty v.chain q.apart,
          ),
          ground
              (arith, is, low, high, scan-emplace 0 x region m.regions q.nonempty v.chain q.apart),
        )

    -- A byte that was there is not in the new region.
    mapped-Away : (x b : ℕ) → byte_at m.regions x ≡ some b → Away p.address s.file_size x
    mapped-Away x b there =
        elim (Bool-cases (leb p.aligned_base x && ltb x (p.aligned_base + p.aligned_size))) [
          | inl within ↦
              ground (
                arith,
                there,
                (mapping-fresh x (ground (arith, within)) (ground (arith, within))).0,
              )
          | inr outside ↦ elim (Bool-cases (ltb x p.address)) [
            | inl below ↦ inl (ground (arith, below))
            | inr above ↦ inr (ground (arith, above, outside, placed.low, placed.high, inside.0))
          ]
        ]

    pub placed-Keeps : Keeps Everywhere m m2
    placed-Keeps =
        let k = mapping-Keeps Everywhere in
        let l = writing.1 in
        record {
          valid = l.valid;
          bytes = λ x b _ there. l.bytes x b (mapped-Away x b there) (k.bytes x b tt there);
          permissions = λ x r there.
              let (q, now, same) = k.permissions x r there in
              let (q', now', same') = l.permissions x q now in (q', now', same' ∙ same);
        }

    pub placed-IsHeld : IsHeld Everywhere options file bias s m2
    placed-IsHeld = record {
      contents = λ i lt _.
          let x : ℕ = s.virtual_address + bias + i in
          let fresh =
            mapping-fresh x (omega (arith, placed.address, placed.low))
              (omega (arith, placed.address, placed.high, lt)) in
          elim (Bool-cases (ltb i s.file_size)) [
            | inl of_file ↦
                let below : i < s.file_size = ground (arith, of_file) in
                let (b, there) =
                  get_elem?-some file (s.file_offset + i) (omega (arith, inside, below)) in
                let at : s.file_offset + (x - p.address) ≡ s.file_offset + i =
                  omega (arith, placed.address) in
                (
                  b,
                  ground (arith, writing.0 x, below, placed.address, ap (get_elem? file) at, there),
                  inl (below, there),
                )
            | inr behind ↦
                let above : s.file_size ≤ i = ground (arith, behind) in
                (0, ground (arith, writing.0 x, above, placed.address, fresh.1), inr (above, refl))
          ];
      granted = λ i lt.
          let x : ℕ = s.virtual_address + bias + i in
          let fresh =
            mapping-fresh x (omega (arith, placed.address, placed.low))
              (omega (arith, placed.address, placed.high, lt)) in
          let (q, now, same) = writing.1.permissions x region fresh.2 in
          (
            q,
            now,
            subst (IsGranted options s) (sym same) (initial_permissions-IsGranted options s),
          );
    }
