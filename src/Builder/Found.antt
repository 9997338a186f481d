-- ===== src/Builder/Found.antt =====
-- What an image that src/builder.cc built says of its sections' names.
use binforge.Prelude.{
  ℕ, ◌+◌, ◌^◌, ◌<◌, ◌≡◌, refl, sym, true, false, some, List, [], ◌∷◌, All, text_eq, text_eq_self,
  arith, Text,
}
use mathlib.Core.Path.{subst}
use binforge.Base.{Error, ok}
use binforge.Image.{BinaryImage, Section, find_named, section_named}
use binforge.Builder.{BuilderSection, BuilderOptions, ImageBuilder, has_name, build}
use binforge.Builder.Contents.{IsContent, AreContents, IsTypedOptions, build-IsBuilt}
use binforge.Builder.History.{AreApart, IsWithin, text_eq_swap}

-- A section of this name, found by the image's lookup, that holds what was added.
abbrev IsFound : BuilderOptions → List ℕ → List Section → BuilderSection → Type 0
IsFound options file sections source =
    (s : Section) × (find_named source.name sections ≡ some s) × IsContent options file source s

IsFound-behind :
    (options : BuilderOptions) (file : List ℕ) (s : Section) (sections : List Section) (name : Text)
    (sources : List BuilderSection)
    → s.name ≡ name
    → has_name name sources ≡ false
    → All (IsFound options file sections) sources
    → All (IsFound options file (s ∷ sections)) sources
unfolding has_name find_named
IsFound-behind options file s sections name [] same free h = tt
IsFound-behind options file s sections name (q ∷ sources) same free h =
    let other : text_eq s.name q.name ≡ false =
      subst (λ (n : Text). text_eq n q.name ≡ false) (sym same)
        (text_eq_swap q.name name (ground (arith, free))) in
    let (found, is, holds) = h.0 in
    (
      (found, rw other is, holds),
      IsFound-behind options file s sections name sources same (ground (arith, free)) h.1,
    )

AreContents-IsFound :
    (options : BuilderOptions) (file : List ℕ) (file_end memory_end : ℕ)
    (sources : List BuilderSection) (sections : List Section)
    → AreApart sources
    → AreContents options file file_end memory_end sources sections
    → All (IsFound options file sections) sources
unfolding find_named
AreContents-IsFound options file file_end memory_end [] sections a h = tt
AreContents-IsFound options file file_end memory_end (source ∷ sources) [] a h = elim h [ ]
AreContents-IsFound options file file_end memory_end (source ∷ sources) (s ∷ sections) a h =
    let named : text_eq s.name source.name ≡ true =
      subst (λ (n : Text). text_eq s.name n ≡ true) h.2.named (text_eq_self s.name) in
    (
      (s, rw named refl, h.2),
      IsFound-behind options file s sections source.name sources h.2.named a.0 (
          AreContents-IsFound options file (s.file_offset + s.file_size)
            (s.virtual_address + s.memory_size) sources sections a.1 h.3),
    )

-- In an image that is built of a builder whose section names differ, with options, alignments and a
-- file limit of 64 bits, `section_named` finds for each name that was added a section that holds what
-- was added under it: its bytes in the file, its kind and permissions, and its size in memory.
pub section_named-build :
    (before : Error) (options : BuilderOptions) (b : ImageBuilder) (image : BinaryImage)
    → IsWithin b
    → b.limits.max_file_size < 2 ^ 64
    → IsTypedOptions options
    → All (λ (source : BuilderSection). source.alignment < 2 ^ 64) b.sections
    → build before options b ≡ ok image
    → (file : List ℕ) × (image.file_data ≡ some file)
      × All
          (λ (source : BuilderSection).
            (s : Section) × (section_named source.name image ≡ some s)
            × IsContent options file source s)
          b.sections
unfolding section_named
section_named-build before options b image v small typed a e =
    let built = (build-IsBuilt before options b image small typed a e).0 in
    (
      built.file,
      built.kept,
      AreContents-IsFound options built.file 0 options.image_base b.sections image.sections v.apart
          built.contents,
    )
