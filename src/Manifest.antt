-- ===== src/Manifest.antt =====
-- src/manifest.cc: `ImageManifestCodec`, the `BFMF` container of a whole image.
pub mod Codes
pub mod Write
pub mod Read
pub mod Decode
pub mod Tables
pub mod Items
pub mod Parts
pub mod RoundTrip
