-- ===== src/Translator/Ranges.antt =====
-- Where `AddressTranslator` finds an address in the file.
use binforge.Prelude.{
  ℕ, ◌+◌, ◌-◌, ◌^◌, ◌≤◌, ◌<◌, ◌≡◌, refl, ◌⊎◌, inl, inr, Option, some, Option-cases, List, [], ◌∷◌,
  All, Any, arith,
}
use binforge.Base.{checked_add, range_inside}
use binforge.Base.Checked.{checked_add_bound, checked_add-some}
use binforge.Image.{BinaryImage, Section, Segment}
use binforge.Translator.{
  FileAddress, Search, next, found, search, or_else, no_section, place_in, section_to_file,
  segment_to_file, virtual_to_file, range_to_virtual,
}

-- The place of an address in a part of the file that is loaded at a virtual address: the part holds
-- the whole range, the place is as far in as the address, and the part maps the place back.
pub record IsPlace (address length : ℕ) (file_offset file_size virtual_address : ℕ)
    (f : FileAddress) : Type 0 where
  pub begins : virtual_address ≤ address
  pub moved : f.file_offset ≡ file_offset + (address - virtual_address)
  pub left : f.available ≡ file_size - (address - virtual_address)
  pub enough : length ≤ f.available
  pub back :
      range_to_virtual f.file_offset length file_offset file_size virtual_address
      ≡ found (some address)

place_in-IsPlace :
    (address length file_offset file_size virtual_address index : ℕ) (f : FileAddress)
    → virtual_address ≤ address
    → address < 2 ^ 64
    → file_offset < 2 ^ 64
    → address - virtual_address + length ≤ file_size
    → place_in file_offset file_size (address - virtual_address) index ≡ some f
    → IsPlace address length file_offset file_size virtual_address f
unfolding place_in range_to_virtual range_inside
place_in-IsPlace address length fo fs va index f low small fits inside e =
    elim (Option-cases (checked_add fo (address - va))) [
      | inl wraps ↦ ground (arith, wraps)
      | inr (offset, at) ↦
          let sum = checked_add_bound fo (address - va) offset fits at in
          let is : f.file_offset ≡ offset = ground (arith, at, e) in
          let rest : f.available ≡ fs - (address - va) = ground (arith, at, e) in
          record {
            begins = low;
            moved = omega (arith, is, sum);
            left = rest;
            enough = omega (arith, rest, inside);
            back =
                ground (arith, is, sum, inside, checked_add-some va (address - va) (omega arith));
          }
    ]

-- A section or a segment that holds the range, and the place that its fields give.
pub IsInSection : ℕ → ℕ → FileAddress → Section → Type 0
IsInSection address length f s =
    IsPlace address length s.file_offset s.file_size s.virtual_address f

pub IsInSegment : ℕ → ℕ → FileAddress → Segment → Type 0
IsInSegment address length f s =
    IsPlace address length s.file_offset s.file_size s.virtual_address f

module _ (address length : ℕ) (f : FileAddress) (small : address < 2 ^ 64) where
  section-IsPlace :
      (s : Section)
      → s.file_offset < 2 ^ 64
      → section_to_file address length s ≡ found (some f)
      → IsInSection address length f s
  unfolding section_to_file range_inside IsInSection
  section-IsPlace s fits e =
      place_in-IsPlace address length s.file_offset s.file_size s.virtual_address s.index f
        (ground (arith, e)) small fits (ground (arith, e)) (ground (arith, e))

  segment-IsPlace :
      (s : Segment)
      → s.file_offset < 2 ^ 64
      → segment_to_file address length s ≡ found (some f)
      → IsInSegment address length f s
  unfolding segment_to_file range_inside IsInSegment
  segment-IsPlace s fits e =
      place_in-IsPlace address length s.file_offset s.file_size s.virtual_address no_section f
        (ground (arith, e)) small fits (ground (arith, e)) (ground (arith, e))

Search-cases : {A : Type 0} (r : Search A) → (r ≡ next) ⊎ ((answer : Option A) × (r ≡ found answer))
Search-cases next = inl refl
Search-cases (found answer) = inr (answer, refl)

-- An answer of a search comes from an item.
search-Any :
    {A B : Type 0} (try : A → Search B) (P Q : A → Type 0) (xs : List A) (b : B)
    → ((x : A) → P x → try x ≡ found (some b) → Q x)
    → All P xs
    → search try xs ≡ found (some b)
    → Any Q xs
unfolding search
search-Any try P Q [] b k h e = ground (arith, e)
search-Any try P Q (x ∷ xs) b k h e = elim (Search-cases (try x)) [
  | inl goes ↦ inr (search-Any try P Q xs b k h.1 (ground (arith, e, goes)))
  | inr (answer, at) ↦ inl (k x h.0 (ground (arith, e, at)))
]

-- The offsets of the image are of 64 bits.
pub record IsWide (image : BinaryImage) : Type 0 where
  pub sections_fit : All (λ s. s.file_offset < 2 ^ 64) image.sections
  pub segments_fit : All (λ s. s.file_offset < 2 ^ 64) image.segments

-- A place that virtual_to_file gives to a range that begins at a 64-bit address, in an image whose
-- file offsets have 64 bits, lies in a section or in a segment that holds the whole range in the
-- file: it is as far behind the offset of that part as the address is behind its address, the rest
-- of the part's bytes are available, and the part maps the place back to the address.
pub virtual_to_file-IsPlace :
    (address length : ℕ) (f : FileAddress) (image : BinaryImage)
    → address < 2 ^ 64
    → IsWide image
    → virtual_to_file address length image ≡ some f
    → Any (IsInSection address length f) image.sections
      ⊎ Any (IsInSegment address length f) image.segments
unfolding virtual_to_file or_else
virtual_to_file-IsPlace address length f image small wide e =
    elim (Search-cases (search (section_to_file address length) image.sections)) [
      | inl goes ↦
          inr (elim (Search-cases (search (segment_to_file address length) image.segments)) [
            | inl ends ↦ ground (arith, e, goes, ends)
            | inr (answer, at) ↦
                search-Any (segment_to_file address length) _ _ image.segments f
                  (segment-IsPlace address length f small) wide.segments_fit
                  (ground (arith, e, goes, at))
          ])
      | inr (answer, at) ↦ inl (
          search-Any (section_to_file address length) _ _ image.sections f
            (section-IsPlace address length f small) wide.sections_fit (ground (arith, e, at)))
    ]
