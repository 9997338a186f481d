-- ===== src/Loader.antt =====
-- src/loader.cc: `BinaryLoader::load`. A call that fails keeps what it has mapped and written so far, so
-- each step returns the memory beside its outcome.
pub mod Place
pub mod Segments
pub mod Steps
pub mod Outcome
pub mod Origin
pub mod Counts
pub mod Correct
use binforge.Prelude.{
  ℕ, zero, suc, ◌+◌, ◌-◌, ◌*◌, ◌/◌, ◌%◌, ◌^◌, bit_and, bit_or, Bool, true, false, ◌&&◌, ◌||◌, not,
  Option, none, some, List, [], ◌∷◌, ◌++◌, ltb, leb, ◌==◌, if◌then◌else◌, Text, text, length, take,
  drop,
}
use binforge.Base.{
  Error, error, Result, ok, err, ◌>>=◌, ◌>>◌, require, expect, Limits, u64_max, checked_add,
  checked_align_up, range_inside, address_overflow, file_range_overflow, unresolved_import,
  internal_error,
}
use binforge.Region.{permission_write, permission_execute, allows}
use binforge.Memory.{AddressSpace, map_region, write, write_integer}
use binforge.Image.{BinaryImage, FileHeader, Segment, Import, word_bytes}
use binforge.Resolver.{SymbolResolver, resolve}
use binforge.Relocation.{apply_relocations}
use binforge.Validator.{ValidationReport, validate}

pub record LoadOptions : Type 0 where
  pub preferred_base : ℕ
  pub apply_relocations : Bool
  pub resolve_imports : Bool
  pub enforce_wx : Bool
  pub allow_overlapping_sections : Bool

pub record LoadResult : Type 0 where
  pub load_base : ℕ
  pub entry_point : ℕ
  pub mapped_bytes : ℕ
  pub relocations_applied : ℕ
  pub imports_resolved : ℕ
  pub warnings : List Text

-- The outcome of a step, with the memory it leaves.
abbrev pub Loading : Type 0 → Type 0
Loading A = Result A × AddressSpace

-- One step after another, on the memory that the first leaves.
unfoldable pub and_then : {A B : Type 0} → Loading A → (A → AddressSpace → Loading B) → Loading B
and_then step next = elim step.0 [ err e ↦ (err e, step.1) | ok a ↦ next a step.1 ]

-- A call that changes the memory when it succeeds.
unfoldable pub changed : AddressSpace → Result AddressSpace → Loading (Unit {0})
changed memory (ok next) = (ok tt, next)
changed memory (err e) = (err e, memory)

-- `std::to_string` of a `uint32_t`, which has at most ten digits.
unfoldable pub decimal : ℕ → ℕ → Text
decimal zero n = []
decimal (suc more) n =
    let front : Text = decimal more (n / 10) in
    if ltb n 10 then (48 + n) ∷ [] else front ++ ((48 + n % 10) ∷ [])

-- `std::min_element` over the virtual addresses, from the first.
unfoldable pub least_address : ℕ → List Segment → ℕ
least_address least [] = least
least_address least (s ∷ segments) =
    least_address (if ltb s.virtual_address least then s.virtual_address else least) segments

unfoldable pub original_base : BinaryImage → ℕ
unfolding least_address
original_base image =
    if not (image.header.image_base == 0)
    then image.header.image_base
    else elim image.segments [ [] ↦ 0 | s ∷ segments ↦ least_address s.virtual_address segments ]

-- Where a segment goes: its address, and the base and size of its mapping.
pub record Placement : Type 0 where
  pub address : ℕ
  pub aligned_base : ℕ
  pub aligned_size : ℕ

unfoldable pub place : Limits → Segment → ℕ → Result Placement
place limits segment bias = do
  address ←
      expect (checked_add segment.virtual_address bias)
        (error address_overflow segment.virtual_address (text "segment load address overflow"))
  let aligned_base : ℕ = bit_and address (u64_max - (limits.page_size + 2 ^ 32 - 1) % 2 ^ 32)
  total ←
      expect (checked_add (address - aligned_base) segment.memory_size)
        (error address_overflow address (text "aligned segment size overflow"))
  aligned_size ←
      expect (checked_align_up total limits.page_size)
        (error address_overflow address (text "aligned segment size overflow"))
  ok (record { address = address; aligned_base = aligned_base; aligned_size = aligned_size })

-- The permissions that a segment is mapped with.
unfoldable pub initial_permissions : LoadOptions → Segment → ℕ
initial_permissions options segment =
    let initial : ℕ = bit_or segment.permissions permission_write in
    if options.enforce_wx && (allows initial permission_write && allows initial permission_execute)
    then bit_and initial (255 - permission_execute)
    else initial

unfoldable pub write_segment : Segment → ℕ → BinaryImage → AddressSpace → Result AddressSpace
write_segment segment address image memory =
    if segment.file_size == 0 then ok memory else elim image.file_data [
      | none ↦ err (error file_range_overflow segment.file_offset (text "segment data unavailable"))
      | some bytes ↦ do
        require (range_inside segment.file_offset segment.file_size (length bytes))
            (error file_range_overflow segment.file_offset (text "segment data unavailable"))
        write address (take segment.file_size (drop segment.file_offset bytes)) true memory
    ]

unfoldable pub map_segment : LoadOptions → Segment → Placement → AddressSpace → Result AddressSpace
unfolding initial_permissions
map_segment options segment placed memory =
    map_region placed.aligned_base placed.aligned_size (initial_permissions options segment)
      (text "segment." ++ decimal 10 segment.index) memory

-- The steps of a segment that is not empty.
unfoldable pub load_placed :
    LoadOptions → Segment → Placement → BinaryImage → AddressSpace → Loading ℕ
load_placed options segment placed image memory =
    and_then (changed memory (map_segment options segment placed memory)) λ _ mapped.
      and_then (changed mapped (write_segment segment placed.address image mapped))
        λ _ written. (ok placed.aligned_size, written)

unfoldable pub load_segment :
    Limits → LoadOptions → Segment → ℕ → BinaryImage → AddressSpace → Loading ℕ
load_segment limits options segment bias image memory =
    if segment.memory_size == 0
    then (ok 0, memory)
    else and_then (place limits segment bias, memory)
        λ placed here. load_placed options segment placed image here

-- The loop over the segments, with `mapped_bytes` so far.
unfoldable pub load_segments :
    Limits → LoadOptions → List Segment → ℕ → BinaryImage → ℕ → AddressSpace → Loading ℕ
load_segments limits options [] bias image total memory = (ok total, memory)
load_segments limits options (s ∷ segments) bias image total memory =
    and_then (load_segment limits options s bias image memory)
      λ size next. load_segments limits options segments bias image ((total + size) % 2 ^ 64) next

-- An import that has no target is skipped when it is weak, and an error otherwise.
unfoldable pub import_target : Import → Option SymbolResolver → Result (Option ℕ)
import_target import none =
    if import.weak
    then ok none
    else err (error unresolved_import import.slot_address (text "no import resolver"))
import_target import (some resolver) =
    elim (resolve import.library import.name import.ordinal resolver) [
      | some target ↦ ok (some target)
      | none ↦
          if import.weak
          then ok none
          else err (
              error unresolved_import import.slot_address
                (text "unresolved import: " ++ import.name))
    ]

-- On a slot that wraps the C++ function leaves the error as it was before the call.
unfoldable pub write_import :
    Error → Import → ℕ → ℕ → BinaryImage → AddressSpace → Result AddressSpace
write_import before import target bias image memory = do
  slot ← expect (checked_add import.slot_address bias) before
  write_integer slot (word_bytes image.header.word_size) image.header.byte_order target true memory

-- The steps of an import whose target is known, or that is skipped: how many it resolves.
unfoldable pub load_target : Error → Import → ℕ → BinaryImage → Option ℕ → AddressSpace → Loading ℕ
load_target before import bias image none memory = (ok 0, memory)
load_target before import bias image (some target) memory =
    and_then (changed memory (write_import before import target bias image memory))
      λ _ next. (ok 1, next)

unfoldable pub load_imports :
    Error → List Import → Option SymbolResolver → ℕ → BinaryImage → ℕ → AddressSpace → Loading ℕ
load_imports before [] resolver bias image resolved memory = (ok resolved, memory)
load_imports before (i ∷ imports) resolver bias image resolved memory =
    and_then (import_target i resolver, memory)
      λ target here. and_then (load_target before i bias image target here) λ more next.
        load_imports before imports resolver bias image ((resolved + more) % 2 ^ 32) next

-- The count that `processor.apply` gave beside its outcome.
unfoldable pub count_relocations : Result (Unit {0}) × (ℕ × AddressSpace) → Loading ℕ
count_relocations (err e, (applied, memory)) = (err e, memory)
count_relocations (ok _, (applied, memory)) = (ok applied, memory)

unfoldable pub load_relocations :
    Limits → LoadOptions → BinaryImage → ℕ → Option SymbolResolver → AddressSpace → Loading ℕ
load_relocations limits options image bias resolver memory =
    if options.apply_relocations
    then count_relocations (apply_relocations limits image memory bias resolver)
    else (ok 0, memory)

unfoldable pub load_entry : BinaryImage → ℕ → ℕ → Result ℕ
load_entry image original bias =
    let entry : ℕ = image.header.entry_point in
    if not (entry == 0) && (not (original == 0) && leb original entry)
    then expect (checked_add entry bias)
        (error address_overflow entry (text "entry point overflow"))
    else ok entry

-- `load` behind the validator.
unfoldable pub load_valid :
    Limits
    → Error
    → BinaryImage
    → AddressSpace
    → LoadOptions
    → Option SymbolResolver
    → Loading LoadResult
load_valid limits before image memory options resolver =
    let original : ℕ = original_base image in
    let base : ℕ = if options.preferred_base == 0 then original else options.preferred_base in
    let bias : ℕ = (base + 2 ^ 64 - original) % 2 ^ 64 in
    and_then (load_segments limits options image.segments bias image 0 memory) λ mapped m1.
      and_then (load_relocations limits options image bias resolver m1) λ applied m2.
        and_then
          (if options.resolve_imports
            then load_imports before image.imports resolver bias image 0 m2
            else (ok 0, m2))
          λ resolved m3. (
            load_entry image original bias >>= λ entry. ok (record {
              load_base = base;
              entry_point = entry;
              mapped_bytes = mapped;
              relocations_applied = applied;
              imports_resolved = resolved;
              warnings = [];
            }),
            m3,
          )

-- `before` is the error object as the caller passes it. An invalid report has a first error.
unfoldable pub load :
    Limits
    → Error
    → BinaryImage
    → AddressSpace
    → LoadOptions
    → Option SymbolResolver
    → Loading LoadResult
load limits before image memory options resolver =
    let report : ValidationReport = validate limits image in
    if report.valid
    then load_valid limits before image memory options resolver
    else elim report.errors [ [] ↦ (err before, memory) | e ∷ errors ↦ (err e, memory) ]
