-- ===== src/Snapshot/Codec.antt =====
-- src/snapshot.cc: `MemorySnapshotCodec::encode` and `MemorySnapshotCodec::decode`, the `BFSN`
-- container.
pub mod RoundTrip
use binforge.Prelude.{
  ℕ, zero, suc, ◌+◌, ◌-◌, ◌%◌, ◌^◌, Bool, true, false, ◌||◌, not, Option, none, some, List, [], ◌∷◌,
  ◌++◌, ltb, ◌==◌, if◌then◌else◌, text, text_eq, length, take, drop,
}
use binforge.Base.{
  Error, error, Result, ok, err, Limits, crc32, resource_limit, bad_magic, invalid_header,
  truncated,
}
use binforge.Base.Word.{le_bytes, join_u32}
use binforge.Reader.{ByteReader, read_u8, read_u32, read_u64, read_bytes, remaining}
use binforge.Reader.Container.{body_reader}
use binforge.Reader.Decoder.{Decoder, ◌>>=◌, ◌>>◌, pure, try, check, left_clear}
use binforge.Snapshot.{MemorySnapshot, SnapshotRegion}

-- `"BFSN"`
abbrev pub snapshot_magic : List ℕ
snapshot_magic = 66 ∷ 70 ∷ 83 ∷ 78 ∷ []

-- The bytes of a region, in front of those that follow.
unfoldable pub put_region : SnapshotRegion → List ℕ → List ℕ
put_region region back =
    le_bytes 8 region.base
    ++ (le_bytes 8 region.size
        ++ (region.permissions
            ∷ (le_bytes 4 (length region.name % 2 ^ 32)
                ++ (region.name
                    ++ (le_bytes 4 region.checksum
                        ++ (le_bytes 8 (length region.bytes) ++ (region.bytes ++ back)))))))

-- The loop over the regions, with `output` so far.
unfoldable pub encode_regions : Limits → List SnapshotRegion → List ℕ → Result (List ℕ)
unfolding put_region
encode_regions limits [] output = ok output
encode_regions limits (region ∷ regions) output =
    let rest = encode_regions limits regions (output ++ put_region region []) in
    if ltb limits.max_string_bytes (length region.name)
      || ltb limits.max_mapped_bytes (length region.bytes)
    then err (error resource_limit region.base (text "snapshot region exceeds encoding limits"))
    else rest

-- What stands between the magic and the regions.
unfoldable pub put_fields : MemorySnapshot → List ℕ → List ℕ
put_fields snapshot back =
    le_bytes 4 snapshot.version
    ++ (le_bytes 8 snapshot.mapped_bytes ++ (le_bytes 4 (length snapshot.regions % 2 ^ 32) ++ back))

unfoldable pub encode : Limits → MemorySnapshot → Result (List ℕ)
unfolding encode_regions put_fields
encode limits snapshot =
    if ltb limits.max_segments (length snapshot.regions)
      || ltb limits.max_mapped_bytes snapshot.mapped_bytes
    then err (error resource_limit 0 (text "snapshot exceeds encoding limits"))
    else elim (encode_regions limits snapshot.regions (snapshot_magic ++ put_fields snapshot [])) [
      | err e ↦ err e
      | ok output ↦ ok (output ++ le_bytes 4 (crc32 output))
    ]

truncated_header : ByteReader → Error
truncated_header r = error truncated r.position (text "snapshot region header is truncated")

truncated_data : ByteReader → Error
truncated_data r = error truncated r.position (text "snapshot region data is truncated")

unfoldable pub decode_region : Limits → Decoder SnapshotRegion
unfolding truncated_header truncated_data
decode_region limits = do
  base ← try read_u64 truncated_header
  size ← try read_u64 truncated_header
  permissions ← try read_u8 truncated_header
  name_size ← try read_u32 truncated_header
  check (λ r. not (ltb limits.max_string_bytes name_size)) truncated_header
  check (λ r. not (ltb (remaining r) name_size)) truncated_header
  name ← try (read_bytes name_size) truncated_data
  checksum ← try read_u32 truncated_data
  byte_size ← try read_u64 truncated_data
  check (λ r. not (ltb limits.max_mapped_bytes byte_size)) truncated_data
  check (λ r. not (ltb (remaining r) byte_size)) truncated_data
  bytes ← try (read_bytes byte_size) left_clear
  pure (record {
    base = base;
    size = size;
    permissions = permissions;
    name = name;
    checksum = checksum;
    bytes = bytes;
  })

-- The loop from `index` to `count`.
unfoldable pub decode_regions : Limits → ℕ → Decoder (List SnapshotRegion)
unfolding decode_region
decode_regions limits zero = pure []
decode_regions limits (suc left) = do
  region ← decode_region limits
  regions ← decode_regions limits left
  pure (region ∷ regions)

header_error : ByteReader → Error
header_error r = error invalid_header 4 (text "snapshot container header is invalid")

trailing_error : ByteReader → Error
trailing_error r =
    error invalid_header r.position (text "snapshot container contains trailing bytes")

unfoldable pub decode_snapshot : Limits → Decoder MemorySnapshot
unfolding decode_regions header_error trailing_error
decode_snapshot limits = do
  version ← try read_u32 header_error
  mapped_bytes ← try read_u64 header_error
  count ← try read_u32 header_error
  check (λ r. version == 1) header_error
  check (λ r. not (ltb limits.max_segments count)) header_error
  check (λ r. not (ltb limits.max_mapped_bytes mapped_bytes)) header_error
  regions ← decode_regions limits count
  check (λ r. remaining r == 0) trailing_error
  pure (record { version = version; mapped_bytes = mapped_bytes; regions = regions })

unfoldable pub decode_body : Limits → List ℕ → Result MemorySnapshot
unfolding decode_snapshot
decode_body limits bytes =
    if ltb (length bytes) 24
      || not (text_eq (take 4 bytes) snapshot_magic)
      || ltb ((limits.max_mapped_bytes + limits.max_file_size) % 2 ^ 64) (length bytes)
    then err (error bad_magic 0 (text "snapshot container is invalid"))
    else if not (join_u32 (drop (length bytes - 4) bytes) == crc32 (take (length bytes - 4) bytes))
    then err (
        error invalid_header (length bytes - 4) (text "snapshot container checksum does not match"))
    else elim (decode_snapshot limits (body_reader bytes)) [
      | err e ↦ err e
      | ok (snapshot, r) ↦ ok snapshot
    ]

-- `none` is a null pointer.
unfoldable pub decode : Limits → Option (List ℕ) → Result MemorySnapshot
unfolding decode_body
decode limits none = err (error bad_magic 0 (text "snapshot container is invalid"))
decode limits (some bytes) = decode_body limits bytes
