-- ===== src/Builder/Contents.antt =====
-- Where the sections of an image that src/builder.cc built lie, and what they hold.
use binforge.Prelude.{
  ℕ, ◌+◌, ◌-◌, ◌%◌, ◌^◌, ◌≤◌, ◌<◌, ◌≡◌, refl, ap, sym, ◌∙◌, inl, inr, max, true, some, Bool-cases,
  List, [], ◌∷◌, ◌++◌, append-nil, append_assoc, All, length, length-append, length-replicate, take,
  take_enough, drop, replicate, take-append_length, drop-append_length, arith,
}
use mathlib.Core.Path.{subst}
use binforge.Base.{Error, Result, ok, err, Result-cases, Limits}
use binforge.Base.Checked.{checked_add_bound, checked_align_up_iff}
use binforge.Image.{BinaryImage, Section}
use binforge.Validator.{validate}
use binforge.Builder.{
  BuilderSection, BuilderOptions, ImageBuilder, Placing, resize, laid_section, place_section,
  place_sections, options_accepted, built_image, accepted, build,
}
use binforge.Builder.Rounds.{place_section-Round}

-- The section of the image has the name, kind and permissions that were added, its bytes stand in the
-- file at its offset, it has room for them and the zeros in memory, and its address is aligned.
pub record IsContent (options : BuilderOptions) (file : List ℕ) (source : BuilderSection)
    (s : Section) : Type 0 where
  pub named : s.name ≡ source.name
  pub kinded : s.kind ≡ source.kind
  pub permitted : s.permissions ≡ source.permissions
  pub holds : take s.file_size (drop s.file_offset file) ≡ source.bytes
  pub sized : s.file_size ≡ length source.bytes
  pub roomy : s.memory_size ≡ length source.bytes + source.zero_fill
  pub aligned : s.virtual_address % max options.memory_alignment source.alignment ≡ 0

-- Section by section, each behind the one before it, in the file and in memory.
abbrev pub AreContents :
    BuilderOptions → List ℕ → ℕ → ℕ → List BuilderSection → List Section → Type 0
AreContents options file file_end memory_end [] [] = Unit {0}
AreContents options file file_end memory_end [] (s ∷ sections) = ⊥
AreContents options file file_end memory_end (source ∷ sources) [] = ⊥
AreContents options file file_end memory_end (source ∷ sources) (s ∷ sections) =
    (file_end ≤ s.file_offset)
    × (memory_end ≤ s.virtual_address)
    × IsContent options file source s
    × AreContents options file (s.file_offset + s.file_size) (s.virtual_address + s.memory_size)
        sources sections

-- The types of the fields.
pub record IsTypedOptions (options : BuilderOptions) : Type 0 where
  pub base : options.image_base < 2 ^ 64
  pub file : options.file_alignment < 2 ^ 64
  pub memory : options.memory_alignment < 2 ^ 64

record IsReady (p : Placing) : Type 0 where
  filled : length p.storage ≡ p.file_cursor
  file : p.file_cursor < 2 ^ 64
  memory : p.memory_cursor < 2 ^ 64

resize_longer :
    (n : ℕ) (bytes : List ℕ)
    → length bytes ≤ n
    → resize n bytes ≡ bytes ++ replicate (n - length bytes) 0
unfolding resize
resize_longer n bytes h =
    ap (λ (l : List ℕ). l ++ replicate (n - length bytes) 0) (take_enough n bytes h)

held_between : (a b c : List ℕ) → take (length b) (drop (length a) ((a ++ b) ++ c)) ≡ b
held_between a b c =
    ap (λ (l : List ℕ). take (length b) (drop (length a) l)) (append_assoc a b c)
    ∙ ap (take (length b)) (drop-append_length a (b ++ c))
    ∙ take-append_length b c

-- What a round does to the storage and to the cursors.
record Placed (options : BuilderOptions) (source : BuilderSection) (p p' : Placing) (s : Section)
    : Type 0 where
  padding : List ℕ
  grown : p'.storage ≡ (p.storage ++ padding) ++ source.bytes
  begins : length (p.storage ++ padding) ≡ s.file_offset
  ready : IsReady p'
  behind : p.file_cursor ≤ s.file_offset
  above : p.memory_cursor ≤ s.virtual_address
  file_end : p'.file_cursor ≡ s.file_offset + s.file_size
  memory_end : p'.memory_cursor ≡ s.virtual_address + s.memory_size
  named : s.name ≡ source.name
  kinded : s.kind ≡ source.kind
  permitted : s.permissions ≡ source.permissions
  sized : s.file_size ≡ length source.bytes
  roomy : s.memory_size ≡ length source.bytes + source.zero_fill
  aligned : s.virtual_address % max options.memory_alignment source.alignment ≡ 0

module _ (limits : Limits) (options : BuilderOptions) (small : limits.max_file_size < 2 ^ 64)
    (typed : IsTypedOptions options) where
  place_section-Placed :
      (index : ℕ) (source : BuilderSection) (p p' : Placing) (s : Section)
      → source.alignment < 2 ^ 64
      → IsReady p
      → place_section limits options index source p ≡ ok (s, p')
      → Placed options source p p' s
  unfolding laid_section
  place_section-Placed index source p p' s a r e =
      let round = place_section-Round limits options index source p p' s e in
      let fo : ℕ = round.file_offset in
      let va : ℕ = round.virtual_address in
      let in_file =
        (checked_align_up_iff p.file_cursor (max options.file_alignment source.alignment) fo r.file
            (omega (arith, a, typed.file))).0
          round.file_at in
      let in_memory =
        (checked_align_up_iff p.memory_cursor (max options.memory_alignment source.alignment) va
            r.memory (omega (arith, a, typed.memory))).0
          round.memory_at in
      let room =
        checked_add_bound (length source.bytes) source.zero_fill round.memory_size
          (omega (arith, round.fits, small)) round.sum in
      let file_end =
        checked_add_bound fo (length source.bytes) p'.file_cursor (omega (arith, round.fits, small))
          round.advanced.file_end in
      let memory_end =
        checked_add_bound va round.memory_size p'.memory_cursor
          (omega (arith, in_memory.near, in_memory.fits)) round.advanced.memory_end in
      let pad : List ℕ = replicate (fo - length p.storage) 0 in
      let low : length p.storage ≤ fo = omega (arith, r.filled, in_file.above) in
      let stored : p'.storage ≡ (p.storage ++ pad) ++ source.bytes =
        round.advanced.stored
        ∙ ap (λ (l : List ℕ). l ++ source.bytes) (resize_longer fo p.storage low) in
      let long : length (p.storage ++ pad) ≡ fo = omega (
        arith,
        length-append p.storage pad,
        length-replicate {A = ℕ} (fo - length p.storage) 0,
        low,
      ) in
      rw round.is (record {
        padding = pad;
        grown = stored;
        begins = long;
        ready = record {
          filled = omega (
            arith,
            ap length stored,
            length-append (p.storage ++ pad) source.bytes,
            long,
            file_end,
          );
          file = omega (arith, file_end);
          memory = omega (arith, memory_end);
        };
        behind = in_file.above;
        above = in_memory.above;
        file_end = file_end.0;
        memory_end = memory_end.0;
        named = refl;
        kinded = refl;
        permitted = refl;
        sized = refl;
        roomy = room.0;
        aligned = in_memory.multiple;
      })

  -- The sections of a run of the loop, and the storage that it has grown.
  abbrev Grown : List BuilderSection → Placing → List Section × Placing → Type 0
  Grown sources p (sections, p') =
      (more : List ℕ) × (p'.storage ≡ p.storage ++ more)
      × AreContents options p'.storage p.file_cursor p.memory_cursor sources sections

  Placed-IsContent :
      (source : BuilderSection) (p p1 : Placing) (s : Section) (file more : List ℕ)
      → Placed options source p p1 s
      → file ≡ p1.storage ++ more
      → IsContent options file source s
  Placed-IsContent source p p1 s file more q grown = record {
    named = q.named;
    kinded = q.kinded;
    permitted = q.permitted;
    holds =
        subst (λ (l : List ℕ). take s.file_size (drop s.file_offset l) ≡ source.bytes)
          (sym (grown ∙ ap (λ (l : List ℕ). l ++ more) q.grown))
          (rw (q.sized, ← q.begins) (held_between (p.storage ++ q.padding) source.bytes more));
    sized = q.sized;
    roomy = q.roomy;
    aligned = q.aligned;
  }

  Grown-cons :
      (source : BuilderSection) (sources : List BuilderSection) (p p1 : Placing) (s : Section)
      (rest : List Section × Placing)
      → Placed options source p p1 s
      → Grown sources p1 rest
      → Grown (source ∷ sources) p (s ∷ rest.0, rest.1)
  Grown-cons source sources p p1 s rest q (more, grown, after) = (
    q.padding ++ (source.bytes ++ more),
    grown
        ∙ ap (λ (l : List ℕ). l ++ more) q.grown
        ∙ append_assoc (p.storage ++ q.padding) source.bytes more
        ∙ append_assoc p.storage q.padding (source.bytes ++ more),
    (
      q.behind,
      q.above,
      Placed-IsContent source p p1 s rest.1.storage more q grown,
      subst
          (λ (n : ℕ).
            AreContents options rest.1.storage n (s.virtual_address + s.memory_size) sources rest.0)
          q.file_end
          (subst (λ (n : ℕ). AreContents options rest.1.storage p1.file_cursor n sources rest.0)
            q.memory_end after),
    ),
  )

  place_sections-Grown :
      (index : ℕ) (sources : List BuilderSection) (p : Placing) (out : List Section × Placing)
      → All (λ (source : BuilderSection). source.alignment < 2 ^ 64) sources
      → IsReady p
      → place_sections limits options index sources p ≡ ok out
      → Grown sources p out
  unfolding place_sections
  place_sections-Grown index [] p out a r e =
      let is : ([], p) ≡ out = ground arith in
      subst (Grown [] p) is ([], sym (append-nil p.storage), tt)
  place_sections-Grown index (source ∷ sources) p out a r e =
      elim (Result-cases (place_section limits options index source p)) [
        | inr (x, bad) ↦ ground (arith, bad)
        | inl (here, good) ↦
            elim (Result-cases (place_sections limits options (index + 1) sources here.1)) [
              | inr (x, bad) ↦ ground (arith, good, bad)
              | inl (rest, fine) ↦
                  let q = place_section-Placed index source p here.1 here.0 a.0 r good in
                  let is : (here.0 ∷ rest.0, rest.1) ≡ out = ground (arith, good, fine, e) in
                  subst (Grown (source ∷ sources) p) is (
                    Grown-cons source sources p here.1 here.0 rest q
                      (place_sections-Grown (index + 1) sources here.1 rest a.1 q.ready fine))
            ]
      ]

refused :
    (errors : List Error) (before : Error) (image : BinaryImage)
    → ¬ ((elim errors as (λ _. Result BinaryImage) [ [] ↦ err before | e ∷ es ↦ err e ]) ≡ ok image)
refused [] before image h = ground arith
refused (e ∷ es) before image h = ground arith

accepted-valid :
    (limits : Limits) (before : Error) (image image' : BinaryImage)
    → accepted limits before image ≡ ok image'
    → (image ≡ image') × ((validate limits image).valid ≡ true)
unfolding accepted
accepted-valid limits before image image' e = elim (Bool-cases (validate limits image).valid) [
  | inl valid ↦ let is : ok image ≡ ok image' = rw valid at e in (cc, valid)
  | inr invalid ↦ absurd (refused (validate limits image).errors before image' (rw invalid at e))
]

-- What an image says of the builder that it comes from: each section that was added is there, in
-- order, its bytes are in the file, and the symbols and tables are those that were added.
pub record IsBuilt (options : BuilderOptions) (b : ImageBuilder) (image : BinaryImage)
    : Type 0 where
  pub file : List ℕ
  pub kept : image.file_data ≡ some file
  pub contents : AreContents options file 0 options.image_base b.sections image.sections
  pub symbols : image.symbols ≡ b.symbols
  pub imports : image.imports ≡ b.imports
  pub exports : image.exports ≡ b.exports
  pub relocations : image.relocations ≡ b.relocations

built_image-IsBuilt :
    (options : BuilderOptions) (b : ImageBuilder) (sections : List Section) (p : Placing)
    → AreContents options p.storage 0 options.image_base b.sections sections
    → IsBuilt options b (built_image b options sections p)
unfolding built_image
built_image-IsBuilt options b sections p contents = record {
  file = p.storage;
  kept = refl;
  contents = contents;
  symbols = refl;
  imports = refl;
  exports = refl;
  relocations = refl;
}

-- An image that is built, with options, alignments and a file limit of 64 bits, has the sections that
-- were added, in order and each behind the one before it in the file and in memory: each has its name,
-- kind and permissions, its bytes at its offset of the file, room for its bytes and zeros, and an
-- aligned address. The symbols, imports, exports and relocations are those that were added, and the
-- validator accepts the image.
pub build-IsBuilt :
    (before : Error) (options : BuilderOptions) (b : ImageBuilder) (image : BinaryImage)
    → b.limits.max_file_size < 2 ^ 64
    → IsTypedOptions options
    → All (λ (source : BuilderSection). source.alignment < 2 ^ 64) b.sections
    → build before options b ≡ ok image
    → IsBuilt options b image × ((validate b.limits image).valid ≡ true)
unfolding build
build-IsBuilt before options b image small typed a e =
    let start : Placing = record {
      storage = [];
      file_cursor = 0;
      memory_cursor = options.image_base;
      segments = [];
    } in
    elim (Bool-cases (options_accepted b.limits options)) [
      | inr bad ↦ ground (arith, bad)
      | inl fine ↦ elim (Result-cases (place_sections b.limits options 0 b.sections start)) [
        | inr (x, bad) ↦ ground (arith, fine, bad)
        | inl (out, good) ↦
            let (more, grown, contents) =
              place_sections-Grown b.limits options small typed 0 b.sections start out a
                (record { filled = refl; file = omega arith; memory = typed.base }) good in
            let (is, valid) =
              accepted-valid b.limits before (built_image b options out.0 out.1) image
                (ground (arith, fine, good, e)) in
            (
              subst (IsBuilt options b) is (built_image-IsBuilt options b out.0 out.1 contents),
              subst (λ i. (validate b.limits i).valid ≡ true) is valid,
            )
      ]
    ]
