-- ===== src/Snapshot.antt =====
-- src/snapshot.cc: `MemorySnapshotCodec::capture` and `MemorySnapshotCodec::restore`.
pub mod Restore
pub mod Codec
use binforge.Prelude.{
  ℕ, Bool, true, false, ◌&&◌, ◌||◌, not, List, [], ◌∷◌, ltb, ◌==◌, if◌then◌else◌, Text, text,
  length,
}
use binforge.Base.{
  error, Result, ok, err, ◌>>=◌, ◌>>◌, require, expect, Limits, checked_add, crc32, resource_limit,
  invalid_segment, invalid_header,
}
use binforge.Region.{MemoryRegion}
use binforge.Memory.{AddressSpace, empty_space, map_region, write}

pub record SnapshotRegion : Type 0 where
  pub base : ℕ
  pub size : ℕ
  pub permissions : ℕ
  pub name : Text
  pub checksum : ℕ
  pub bytes : List ℕ

pub record MemorySnapshot : Type 0 where
  pub version : ℕ
  pub mapped_bytes : ℕ
  pub regions : List SnapshotRegion

-- The region of a snapshot, with the bytes if they are wanted.
capture_region : Bool → MemoryRegion → SnapshotRegion
capture_region include_bytes source = record {
  base = source.base;
  size = source.size;
  permissions = source.permissions;
  name = source.name;
  checksum = crc32 source.bytes;
  bytes = if include_bytes then source.bytes else [];
}

capture_regions : Bool → List MemoryRegion → List SnapshotRegion
unfolding capture_region
capture_regions include_bytes [] = []
capture_regions include_bytes (r ∷ rs) =
    capture_region include_bytes r ∷ capture_regions include_bytes rs

-- On an error the C++ function returns a snapshot without regions; its caller reads the error first.
unfoldable pub capture : Limits → AddressSpace → Bool → Result MemorySnapshot
unfolding capture_regions
capture limits memory include_bytes =
    if ltb limits.max_mapped_bytes memory.mapped_bytes
      || ltb limits.max_segments (length memory.regions)
    then err (error resource_limit 0 (text "address space exceeds snapshot limits"))
    else ok (record {
      version = 1;
      mapped_bytes = memory.mapped_bytes;
      regions = capture_regions include_bytes memory.regions;
    })

is_empty : List ℕ → Bool
is_empty [] = true
is_empty (b ∷ bs) = false

-- The bytes of a snapshot region, checked and written.
restore_bytes : SnapshotRegion → AddressSpace → Result AddressSpace
unfolding is_empty
restore_bytes source staged = if is_empty source.bytes then ok staged else do
  require (crc32 source.bytes == source.checksum)
      (error invalid_header source.base (text "snapshot region checksum does not match"))
  write source.base source.bytes true staged

-- One round of the loop of `restore`: `total` and the staged address space.
unfoldable pub restore_region :
    Limits → SnapshotRegion → ℕ → AddressSpace → Result (ℕ × AddressSpace)
unfolding restore_bytes is_empty
restore_region limits source total staged = do
  require
      (not (
        source.size == 0
        || ltb limits.max_mapped_bytes source.size
        || ltb limits.max_string_bytes (length source.name)
        || not (is_empty source.bytes) && not (length source.bytes == source.size)))
      (error invalid_segment source.base (text "snapshot region is invalid"))
  next ←
      expect (checked_add total source.size)
        (error resource_limit source.base (text "snapshot mapped-byte total exceeds limit"))
  require (not (ltb limits.max_mapped_bytes next))
      (error resource_limit source.base (text "snapshot mapped-byte total exceeds limit"))
  mapped ← map_region source.base source.size source.permissions source.name staged
  written ← restore_bytes source mapped
  ok (next, written)

unfoldable pub restore_regions :
    Limits → List SnapshotRegion → ℕ → AddressSpace → Result (ℕ × AddressSpace)
restore_regions limits [] total staged = ok (total, staged)
restore_regions limits (source ∷ sources) total staged =
    restore_region limits source total staged >>= λ next.
    restore_regions limits sources next.0 next.1

-- The address space that replaces the caller's; on an error that one stays as it is.
unfoldable pub restore : Limits → MemorySnapshot → Result AddressSpace
unfolding restore_regions
restore limits snapshot = do
  require
      (not (
        not (snapshot.version == 1)
        || ltb limits.max_mapped_bytes snapshot.mapped_bytes
        || ltb limits.max_segments (length snapshot.regions)))
      (error resource_limit 0 (text "memory snapshot metadata is invalid"))
  done ← restore_regions limits snapshot.regions 0 (empty_space limits)
  require (snapshot.mapped_bytes == done.0)
      (error invalid_header 0 (text "snapshot mapped-byte total does not match regions"))
  ok done.1
