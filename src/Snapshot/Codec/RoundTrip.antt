-- ===== src/Snapshot/Codec/RoundTrip.antt =====
-- `MemorySnapshotCodec::decode` reads back what `MemorySnapshotCodec::encode` wrote.
use binforge.Prelude.{
  ℕ, ◌+◌, ◌%◌, ◌^◌, ◌≤◌, ◌<◌, ◌≡◌, refl, ap, ◌∙◌, some, le→not_ltb, inl, inr, List, [], ◌∷◌, ◌++◌,
  All, append-nil, append_assoc, length, length-append, arith, text_eq_self,
}
use native.Mathlib.Nat.{mod-eq_of_lt}
use binforge.Base.{ok, err, Result-cases, Limits}
use binforge.Base.Word.{length-le_bytes}
use binforge.Reader.{ByteReader}
use binforge.Reader.Laws.{between, enough-between, at_end-between}
use binforge.Reader.Decoder.{try_u8, try_u32, try_u64, try_bytes, check_passes, decoded_then}
use binforge.Reader.Container.{
  sealed, length-sealed, sealed_front, sealed_magic, sealed_checksum, sealed_body,
}
use binforge.Snapshot.{MemorySnapshot, SnapshotRegion}
use binforge.Snapshot.Codec.{
  put_region, put_fields, encode_regions, encode, decode_region, decode_regions, decode_snapshot,
  decode_body, decode, snapshot_magic,
}

-- The fields fit their types.
pub record IsTyped (region : SnapshotRegion) : Type 0 where
  pub base_fits : region.base < 2 ^ 64
  pub size_fits : region.size < 2 ^ 64
  pub name_fits : length region.name < 2 ^ 32
  pub checksum_fits : region.checksum < 2 ^ 32
  pub bytes_fit : length region.bytes < 2 ^ 64

Within : Limits → SnapshotRegion → Type 0
Within limits region =
    (length region.name ≤ limits.max_string_bytes) × (length region.bytes ≤ limits.max_mapped_bytes)

decode_region-put :
    (limits : Limits) (region : SnapshotRegion) (front back : List ℕ)
    → IsTyped region
    → Within limits region
    → (front' : List ℕ) × (decode_region limits (between front (put_region region back))
        ≡ ok (region, between front' back))
unfolding decode_region put_region Within
decode_region-put limits region front back t w =
    rw (mod-eq_of_lt {n = length region.name} {m = 2 ^ 32} t.name_fits) (
      _,
      try_u64 _ _ _ _ _ t.base_fits
          ∙ try_u64 _ _ _ _ _ t.size_fits
          ∙ try_u8 _ _ _ _ _
          ∙ try_u32 _ _ _ _ _ t.name_fits
          ∙ check_passes _ _ _ _ (le→not_ltb _ _ w.0)
          ∙ check_passes _ _ _ _ (enough-between _ region.name _)
          ∙ try_bytes _ _ _ _ _
          ∙ try_u32 _ _ _ _ _ t.checksum_fits
          ∙ try_u64 _ _ _ _ _ t.bytes_fit
          ∙ check_passes _ _ _ _ (le→not_ltb _ _ w.1)
          ∙ check_passes _ _ _ _ (enough-between _ region.bytes back)
          ∙ try_bytes _ _ _ _ _,
    )

put_regions : List SnapshotRegion → List ℕ → List ℕ
put_regions [] back = back
put_regions (region ∷ regions) back = put_region region (put_regions regions back)

decode_regions-put :
    (limits : Limits) (regions : List SnapshotRegion) (front back : List ℕ)
    → All IsTyped regions
    → All (Within limits) regions
    → (front' : List ℕ) × (decode_regions limits
          (length regions)
          (between front (put_regions regions back))
        ≡ ok (regions, between front' back))
unfolding decode_regions put_regions
decode_regions-put limits [] front back t w = (front, refl)
decode_regions-put limits (region ∷ regions) front back t w =
    let (front1, first) =
      decode_region-put limits region front (put_regions regions back) t.0 w.0 in
    let (front2, rest) = decode_regions-put limits regions front1 back t.1 w.1 in
    (front2, ground (arith, first, rest))

put_region-append :
    (region : SnapshotRegion) (back : List ℕ)
    → put_region region [] ++ back ≡ put_region region back
unfolding put_region
put_region-append region back = simp (append_assoc, append-nil)

fields-append :
    (snapshot : MemorySnapshot) (back : List ℕ)
    → put_fields snapshot [] ++ back ≡ put_fields snapshot back
unfolding put_fields
fields-append snapshot back = simp (append_assoc, append-nil)

encode_regions-first :
    (limits : Limits) (region : SnapshotRegion) (regions : List SnapshotRegion)
    (output out : List ℕ)
    → encode_regions limits (region ∷ regions) output ≡ ok out
    → Within limits region
      × (encode_regions limits regions (output ++ put_region region []) ≡ ok out)
unfolding encode_regions Within
encode_regions-first limits region regions output out e = ground arith

encode_regions-put :
    (limits : Limits) (regions : List SnapshotRegion) (output out : List ℕ)
    → encode_regions limits regions output ≡ ok out
    → All (Within limits) regions × (out ≡ output ++ put_regions regions [])
unfolding encode_regions put_regions
encode_regions-put limits [] output out e = (tt, ground (arith, append-nil output))
encode_regions-put limits (region ∷ regions) output out e =
    let (first, later) = encode_regions-first limits region regions output out e in
    let (all, is) = encode_regions-put limits regions (output ++ put_region region []) out later in
    (
      (first, all),
      is
          ∙ append_assoc output (put_region region []) (put_regions regions [])
          ∙ ap (λ bytes. output ++ bytes) (put_region-append region (put_regions regions [])),
    )

-- Everything between the magic and the checksum.
content : MemorySnapshot → List ℕ
content snapshot = put_fields snapshot (put_regions snapshot.regions [])

content-append :
    (snapshot : MemorySnapshot)
    → (snapshot_magic ++ put_fields snapshot []) ++ put_regions snapshot.regions []
      ≡ snapshot_magic ++ content snapshot
unfolding content
content-append snapshot =
    append_assoc snapshot_magic (put_fields snapshot []) (put_regions snapshot.regions [])
    ∙ ap (◌++◌ snapshot_magic) (fields-append snapshot (put_regions snapshot.regions []))

encode-content :
    (limits : Limits) (snapshot : MemorySnapshot) (bytes : List ℕ)
    → encode limits snapshot ≡ ok bytes
    → (length snapshot.regions ≤ limits.max_segments)
      × (snapshot.mapped_bytes ≤ limits.max_mapped_bytes)
      × All (Within limits) snapshot.regions
      × (bytes ≡ sealed snapshot_magic (content snapshot))
unfolding encode sealed
encode-content limits snapshot bytes e =
    elim (Result-cases
      (encode_regions limits snapshot.regions (snapshot_magic ++ put_fields snapshot []))) [
        | inr (x, bad) ↦ ground (arith, bad)
        | inl (out, good) ↦
            let (all, put) = encode_regions-put limits snapshot.regions _ out good in
            let is = put ∙ content-append snapshot in
            (ground (arith, good), ground (arith, good), all, ground (arith, good, is))
      ]

decode_snapshot-content :
    (limits : Limits) (snapshot : MemorySnapshot)
    → snapshot.version ≡ 1
    → snapshot.mapped_bytes ≤ limits.max_mapped_bytes
    → snapshot.mapped_bytes < 2 ^ 64
    → length snapshot.regions ≤ limits.max_segments
    → length snapshot.regions < 2 ^ 32
    → All IsTyped snapshot.regions
    → All (Within limits) snapshot.regions
    → (r : ByteReader) × (decode_snapshot limits (between [] (content snapshot)) ≡ ok (snapshot, r))
unfolding decode_snapshot content put_fields
decode_snapshot-content limits snapshot one m1 m2 s1 s2 t w =
    rw (mod-eq_of_lt {n = length snapshot.regions} {m = 2 ^ 32} s2) (
      _,
      try_u32 _ [] snapshot.version _ _ (omega (arith, one))
          ∙ try_u64 _ _ _ _ _ m2
          ∙ try_u32 _ _ _ _ _ s2
          ∙ check_passes _ _ _ _ (ground (arith, one))
          ∙ check_passes _ _ _ _ (le→not_ltb _ _ s1)
          ∙ check_passes _ _ _ _ (le→not_ltb _ _ m1)
          ∙ decoded_then (decode_regions limits (length snapshot.regions)) _ _ _ _
              (decode_regions-put limits snapshot.regions _ [] t w).1
          ∙ check_passes _ _ _ _ (at_end-between _),
    )

snapshot_decode-sealed :
    (limits : Limits) (middle : List ℕ)
    → 16 ≤ length middle
    → length middle + 8 ≤ (limits.max_mapped_bytes + limits.max_file_size) % 2 ^ 64
    → decode limits (some (sealed snapshot_magic middle))
      ≡ (elim (decode_snapshot limits (between [] middle)) [ err e ↦ err e | ok (s, r) ↦ ok s ])
unfolding decode decode_body
snapshot_decode-sealed limits middle low high = rw (sealed_body snapshot_magic middle refl) (
    ground (
      arith,
      length-sealed snapshot_magic middle refl,
      sealed_front snapshot_magic middle refl,
      sealed_magic snapshot_magic middle refl,
      text_eq_self snapshot_magic,
      sealed_checksum snapshot_magic middle refl,
    ))

length-content : (snapshot : MemorySnapshot) → 16 ≤ length (content snapshot)
unfolding content put_fields
length-content snapshot = simp (length-append, length-le_bytes) (omega arith)

-- A snapshot of version 1, whose fields fit their types, reads back from its encoding, when the
-- encoding is no longer than what `decode` accepts and the segment limit is below 2^32.
pub snapshot_decode-encode :
    (limits : Limits) (snapshot : MemorySnapshot) (bytes : List ℕ)
    → encode limits snapshot ≡ ok bytes
    → length bytes ≤ (limits.max_mapped_bytes + limits.max_file_size) % 2 ^ 64
    → snapshot.version ≡ 1
    → snapshot.mapped_bytes < 2 ^ 64
    → limits.max_segments < 2 ^ 32
    → All IsTyped snapshot.regions
    → decode limits (some bytes) ≡ ok snapshot
snapshot_decode-encode limits snapshot bytes e fits one m2 s2 t =
    let (s1, m1, w, is) = encode-content limits snapshot bytes e in
    let (r, decoded) = decode_snapshot-content limits snapshot one m1 m2 s1 (omega arith) t w in
    rw is (
      snapshot_decode-sealed limits (content snapshot) (length-content snapshot)
        (omega (arith, length-sealed snapshot_magic (content snapshot) refl, ap length is))
      ∙ rw decoded)
