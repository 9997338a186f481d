-- ===== src/Runs.antt =====
-- Concrete inputs for src/address_space.cc, src/patch_engine.cc and src/snapshot.cc.
pub mod Memory
pub mod Patch
pub mod Snapshot
pub mod Numbers
pub mod Loading
pub mod Decoding
pub mod Symbols
pub mod Manifest
pub mod Building
pub mod Comparing
pub mod Disassembling
use binforge.Prelude.{ℕ, ◌+◌, ◌≤◌, ◌<◌, ◌≡◌, refl, Bool, true, List, [], ◌∷◌, text, arith}
use binforge.Base.{default_limits}
use binforge.Region.{MemoryRegion}
use binforge.Memory.{AddressSpace}
use binforge.Memory.Invariant.{IsValid}

abbrev pub low_region : MemoryRegion
low_region = record {
  base = 16;
  size = 4;
  permissions = 3;
  name = text "low";
  bytes = 1 ∷ 2 ∷ 3 ∷ 4 ∷ [];
}

abbrev pub high_region : MemoryRegion
high_region = record {
  base = 32;
  size = 4;
  permissions = 1;
  name = text "high";
  bytes = 5 ∷ 6 ∷ 7 ∷ 8 ∷ [];
}

abbrev pub two_regions : AddressSpace
two_regions = record {
  limits = default_limits;
  regions = low_region ∷ high_region ∷ [];
  mapped_bytes = 8;
}

pub two_regions-IsValid : IsValid two_regions
two_regions-IsValid = record {
  chain = (
    omega arith,
    omega arith,
    omega arith,
    refl,
    (omega arith, omega arith, omega arith, refl, tt),
  );
  total = refl;
  within = omega arith;
  bounded = omega arith;
}
