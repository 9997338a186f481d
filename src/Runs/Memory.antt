-- ===== src/Runs/Memory.antt =====
-- The theorems on src/address_space.cc at concrete inputs.
use binforge.Prelude.{
  ℕ, ◌+◌, ◌<◌, ◌≡◌, refl, ◌↔◌, ◌⊎◌, true, false, some, List, [], ◌∷◌, text, length, get_elem?,
  arith,
}
use binforge.Base.{ok, err, error, default_limits, range_inside, permission_denied, mapping_missing}
use binforge.Base.Word.{little, big, from_bytes, shift_in, to_bytes, le_bytes}
use binforge.Region.{before_upper_bound, contains, allows, modify, splice}
use binforge.Region.Lookup.{scan}
use binforge.Region.View.{byte_at}
use binforge.Memory.{
  AddressSpace, empty_space, map_region, read, write, write_integer, read_integer, protect,
  region_at, region_of_range, width_supported,
}
use binforge.Memory.Invariant.{IsValid, Mappable, mapped, map_region_iff}
use binforge.Memory.Bytes.{byte_at-write, byte_at-read}
use binforge.Memory.Restore.{read-write, write_restores}
use binforge.Memory.Integer.{read_integer-write_integer}
use binforge.Memory.Protect.{region_at-scan, write-protect_denied}
use binforge.Memory.Permissions.{IsWhole, IsProtected, protect-IsProtected}
use binforge.Memory.History.{Call, run, maps, writes, unmaps, protects, run-empty_space-IsValid}
use binforge.Runs.{low_region, high_region, two_regions, two_regions-IsValid}

map_region_iff_example :
    (map_region 20 4 1 (text "new") two_regions ≡ ok (mapped 20 4 1 (text "new") two_regions)) ↔ (
      Mappable 20 4 two_regions
      × (mapped 20 4 1 (text "new") two_regions ≡ mapped 20 4 1 (text "new") two_regions))
map_region_iff_example =
    map_region_iff 20 4 1 (text "new") two_regions two_regions-IsValid (omega arith)
      (mapped 20 4 1 (text "new") two_regions)

abbrev calls : List Call
calls =
    maps 16 4 3 (text "a")
    ∷ maps 18 4 3 (text "b")
    ∷ maps 32 4 1 (text "c")
    ∷ writes 17 (9 ∷ []) false
    ∷ protects 16 4 1
    ∷ unmaps 32
    ∷ []

run-empty_space-IsValid_example : IsValid (run (empty_space default_limits) calls)
run-empty_space-IsValid_example =
    run-empty_space-IsValid default_limits calls (omega arith)
      (omega arith, (omega arith, (omega arith, (tt, (tt, (tt, tt))))))

abbrev written : AddressSpace
written = record two_regions {
  regions = record low_region { bytes = 1 ∷ 9 ∷ 8 ∷ 4 ∷ [] } ∷ high_region ∷ [];
}

write_run : write 17 (9 ∷ 8 ∷ []) false two_regions ≡ ok written
unfolding write region_of_range region_at before_upper_bound contains range_inside allows modify
    splice
write_run = refl

read_run : read 17 2 two_regions ≡ ok (2 ∷ 3 ∷ [])
unfolding read region_of_range region_at before_upper_bound contains range_inside allows
read_run = refl

byte_at-write_example : byte_at written.regions 18 ≡ some 8
byte_at-write_example =
    byte_at-write 17 18 (9 ∷ 8 ∷ []) false two_regions written two_regions-IsValid write_run

byte_at-read_example :
    (length {A = ℕ} (2 ∷ 3 ∷ []) ≡ 2)
    × ((i : ℕ) → i < 2 → get_elem? {A = ℕ} (2 ∷ 3 ∷ []) i ≡ byte_at two_regions.regions (17 + i))
byte_at-read_example = byte_at-read 17 2 two_regions (2 ∷ 3 ∷ []) two_regions-IsValid read_run

region_at-scan_example : region_at 33 two_regions ≡ scan 33 two_regions.regions
region_at-scan_example = region_at-scan 33 two_regions two_regions-IsValid (omega arith)

write_restores_example : write 17 (2 ∷ 3 ∷ []) true written ≡ ok two_regions
write_restores_example =
    write_restores 17 (9 ∷ 8 ∷ []) (2 ∷ 3 ∷ []) false two_regions written two_regions-IsValid
      read_run write_run

read-write_example : read 17 2 written ≡ ok (9 ∷ 8 ∷ [])
read-write_example =
    read-write 17 (9 ∷ 8 ∷ []) (2 ∷ 3 ∷ []) false two_regions written two_regions-IsValid read_run
      write_run

read_integer_run : read_integer 17 2 little two_regions ≡ ok 770
unfolding read_integer width_supported read region_of_range region_at before_upper_bound contains
    range_inside allows from_bytes shift_in
read_integer_run = refl

write_integer_run : write_integer 17 2 big 2312 false two_regions ≡ ok written
unfolding write_integer width_supported write region_of_range region_at before_upper_bound contains
    range_inside allows modify splice to_bytes le_bytes
write_integer_run = refl

read_integer-write_integer_example : read_integer 17 2 big written ≡ ok 2312
read_integer-write_integer_example =
    read_integer-write_integer 17 2 big little 2312 770 false two_regions written
      two_regions-IsValid read_integer_run write_integer_run

abbrev protected : AddressSpace
protected = record two_regions {
  regions = record low_region { permissions = 1 } ∷ high_region ∷ [];
}

protect_run : protect 16 4 1 two_regions ≡ ok protected
unfolding protect region_of_range region_at before_upper_bound contains range_inside allows modify
protect_run = refl

protect-IsProtected_example :
    (IsWhole 16 4 two_regions
      × ((t : AddressSpace) × (protect 16 4 1 two_regions ≡ ok t)
          × IsProtected 16 4 1 two_regions t))
    ⊎ (¬ (IsWhole 16 4 two_regions)
        × (protect 16 4 1 two_regions
            ≡ err
                (error mapping_missing 16 (text "protection range must match a complete mapping"))))
protect-IsProtected_example =
    protect-IsProtected 16 4 1 two_regions two_regions-IsValid (omega arith)

write-protect_denied_example :
    write 18 (9 ∷ []) false protected
    ≡ err (error permission_denied 18 (text "mapping is not writable"))
unfolding allows
write-protect_denied_example =
    write-protect_denied 16 4 1 18 (9 ∷ []) two_regions protected two_regions-IsValid protect_run
      refl (omega arith) (omega arith) (omega arith)
