-- ===== src/Runs/Manifest.antt =====
-- The theorem on src/manifest.cc at a concrete image.
use binforge.Prelude.{ℕ, true, false, List, []}
use binforge.Base.{Result, ok, err, default_limits}
use binforge.Manifest.Write.{ManifestOptions, encode}
use binforge.Runs.Loading.{image}

abbrev options : ManifestOptions
options = record {
  include_symbols = true;
  include_relocations = true;
  include_imports = false;
  include_exports = false;
  include_debug_summary = true;
  include_checksums = true;
}

abbrev bytes_of : Result (List ℕ) → List ℕ
bytes_of (ok bytes) = bytes
bytes_of (err e) = []

abbrev encoded : List ℕ
encoded = bytes_of (encode default_limits image options)
