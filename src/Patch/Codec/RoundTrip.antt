-- ===== src/Patch/Codec/RoundTrip.antt =====
-- `PatchEngine::decode` reads back what `PatchEngine::encode` wrote.
use binforge.Prelude.{
  ℕ, ◌+◌, ◌^◌, ◌≤◌, ◌<◌, ◌≡◌, refl, ap, ◌∙◌, Option, some, le→not_ltb, inl, inr, List, [], ◌∷◌,
  ◌++◌, All, append-nil, append_assoc, length, length-append, arith, text_eq_self,
}
use native.Mathlib.Nat.{mod-eq_of_lt}
use binforge.Base.{Error, ok, err, Result-cases, Limits, crc32}
use binforge.Base.Word.{ByteOrder, little, big, le_bytes, length-le_bytes}
use binforge.Reader.{ByteReader}
use binforge.Reader.Laws.{between, enough-between, at_end-between}
use binforge.Reader.Decoder.{
  Decoder, ◌>>=◌, try_u8, try_u32, try_u64, try_bytes, check_passes, decoded_then,
}
use binforge.Reader.Container.{
  sealed, length-sealed, sealed_front, sealed_magic, sealed_checksum, sealed_body,
}
use binforge.Patch.{
  PatchOperation, PatchOperationKind, write_bytes, fill_bytes, write_integer, copy_bytes,
  assert_bytes, PatchPlan,
}
use binforge.Patch.Codec.{
  kind_code, kind_of, order_code, order_of, put_operation, put_fields, encode_operations, encode,
  decode_operation, decode_operations, decode_plan, decode, patch_magic, require_some,
}

-- The fields fit their types, and the bytes fit the limit that `decode` sets.
pub record IsTyped (limits : Limits) (op : PatchOperation) : Type 0 where
  pub address_fits : op.address < 2 ^ 64
  pub source_fits : op.source_address < 2 ^ 64
  pub length_fits : op.length_field < 2 ^ 64
  pub integer_fits : op.integer < 2 ^ 64
  pub bytes_fit : length op.bytes < 2 ^ 32
  pub bytes_within : length op.bytes ≤ limits.max_section_bytes

kind_of-kind_code : (k : PatchOperationKind) → kind_of (kind_code k) ≡ some k
unfolding kind_of kind_code
kind_of-kind_code write_bytes = refl
kind_of-kind_code fill_bytes = refl
kind_of-kind_code write_integer = refl
kind_of-kind_code copy_bytes = refl
kind_of-kind_code assert_bytes = refl

order_of-order_code : (o : ByteOrder) → order_of (order_code o) ≡ some o
unfolding order_of order_code
order_of-order_code little = refl
order_of-order_code big = refl

module _ {A B : Type 0} where
  require_some_passes :
      (e : ByteReader → Error) (o : Option A) (a : A) (r : ByteReader) (k : A → Decoder B)
      → o ≡ some a
      → (require_some o e >>= k) r ≡ k a r
  require_some_passes e o a r k h = rw (h, require_some, ◌>>=◌)

decode_operation-put :
    (limits : Limits) (op : PatchOperation) (front back : List ℕ)
    → IsTyped limits op
    → (front' : List ℕ) × (decode_operation limits (between front (put_operation op back))
        ≡ ok (op, between front' back))
unfolding decode_operation put_operation
decode_operation-put limits op front back t =
    rw (mod-eq_of_lt {n = length op.bytes} {m = 2 ^ 32} t.bytes_fit) (
      _,
      try_u8 _ _ _ _ _
          ∙ try_u64 _ _ _ _ _ t.address_fits
          ∙ try_u64 _ _ _ _ _ t.source_fits
          ∙ try_u64 _ _ _ _ _ t.length_fits
          ∙ try_u64 _ _ _ _ _ t.integer_fits
          ∙ try_u8 _ _ _ _ _
          ∙ try_u8 _ _ _ _ _
          ∙ try_u8 _ _ _ _ _
          ∙ try_u32 _ _ _ _ _ t.bytes_fit
          ∙ check_passes _ _ _ _ (le→not_ltb _ _ t.bytes_within)
          ∙ check_passes _ _ _ _ (enough-between _ op.bytes back)
          ∙ require_some_passes _ _ _ _ _ (kind_of-kind_code op.kind)
          ∙ require_some_passes _ _ _ _ _ (order_of-order_code op.byte_order)
          ∙ try_bytes _ _ _ _ _,
    )

pub put_operations : List PatchOperation → List ℕ → List ℕ
put_operations [] back = back
put_operations (op ∷ ops) back = put_operation op (put_operations ops back)

decode_operations-put :
    (limits : Limits) (ops : List PatchOperation) (front back : List ℕ)
    → All (IsTyped limits) ops
    → (front' : List ℕ) × (decode_operations limits
          (length ops)
          (between front (put_operations ops back))
        ≡ ok (ops, between front' back))
unfolding decode_operations put_operations
decode_operations-put limits [] front back t = (front, refl)
decode_operations-put limits (op ∷ ops) front back t =
    let (front1, first) = decode_operation-put limits op front (put_operations ops back) t.0 in
    let (front2, rest) = decode_operations-put limits ops front1 back t.1 in
    (front2, ground (arith, first, rest))

put_operation-append :
    (op : PatchOperation) (back : List ℕ) → put_operation op [] ++ back ≡ put_operation op back
unfolding put_operation
put_operation-append op back = simp (append_assoc, append-nil)

put_fields-append :
    (plan : PatchPlan) (back : List ℕ) → put_fields plan [] ++ back ≡ put_fields plan back
unfolding put_fields
put_fields-append plan back = simp (append_assoc, append-nil)

encode_operations-put :
    (limits : Limits) (ops : List PatchOperation) (output out : List ℕ)
    → encode_operations limits ops output ≡ ok out
    → out ≡ output ++ put_operations ops []
unfolding encode_operations put_operations
encode_operations-put limits [] output out e = ground (arith, append-nil output)
encode_operations-put limits (op ∷ ops) output out e = ground (
  arith,
  encode_operations-put limits ops (output ++ put_operation op []) out,
  append_assoc output (put_operation op []) (put_operations ops []),
  put_operation-append op (put_operations ops []),
)

-- Everything between the magic and the checksum.
payload : PatchPlan → List ℕ
payload plan = put_fields plan (put_operations plan.operations [])

payload-append :
    (plan : PatchPlan)
    → (patch_magic ++ put_fields plan []) ++ put_operations plan.operations []
      ≡ patch_magic ++ payload plan
unfolding payload
payload-append plan =
    append_assoc patch_magic (put_fields plan []) (put_operations plan.operations [])
    ∙ ap (◌++◌ patch_magic) (put_fields-append plan (put_operations plan.operations []))

encode-payload :
    (limits : Limits) (plan : PatchPlan) (bytes : List ℕ)
    → encode limits plan ≡ ok bytes
    → (length plan.name ≤ limits.max_string_bytes)
      × (length plan.operations ≤ limits.max_relocations)
      × (bytes ≡ (patch_magic ++ payload plan) ++ le_bytes 4 (crc32 (patch_magic ++ payload plan)))
unfolding encode
encode-payload limits plan bytes e =
    elim (Result-cases
      (encode_operations limits plan.operations (patch_magic ++ put_fields plan []))) [
        | inr (x, bad) ↦ ground (arith, bad)
        | inl (out, good) ↦
            let is =
              encode_operations-put limits plan.operations _ out good ∙ payload-append plan in
            (ground (arith, good), ground (arith, good), ground (arith, good, is))
      ]

decode_plan-payload :
    (limits : Limits) (plan : PatchPlan)
    → length plan.name ≤ limits.max_string_bytes
    → length plan.name < 2 ^ 32
    → length plan.operations ≤ limits.max_relocations
    → length plan.operations < 2 ^ 32
    → plan.expected_checksum < 2 ^ 32
    → plan.bytes_written < 2 ^ 64
    → All (IsTyped limits) plan.operations
    → (r : ByteReader) × (decode_plan limits (between [] (payload plan)) ≡ ok (plan, r))
unfolding decode_plan payload put_fields
decode_plan-payload limits plan n1 n2 o1 o2 c w t =
    rw
      (
        mod-eq_of_lt {n = length plan.name} {m = 2 ^ 32} n2,
        mod-eq_of_lt {n = length plan.operations} {m = 2 ^ 32} o2,
      )
      (
        _,
        try_u32 _ [] 1 _ _ (omega arith)
            ∙ check_passes _ _ _ _ refl
            ∙ try_u32 _ _ _ _ _ n2
            ∙ check_passes _ _ _ _ (le→not_ltb _ _ n1)
            ∙ check_passes _ _ _ _ (enough-between _ plan.name _)
            ∙ try_bytes _ _ _ _ _
            ∙ try_u32 _ _ _ _ _ c
            ∙ try_u64 _ _ _ _ _ w
            ∙ try_u32 _ _ _ _ _ o2
            ∙ check_passes _ _ _ _ (le→not_ltb _ _ o1)
            ∙ decoded_then (decode_operations limits (length plan.operations)) _ _ _ _
                (decode_operations-put limits plan.operations _ [] t).1
            ∙ check_passes _ _ _ _ (at_end-between _),
      )

decode-sealed :
    (limits : Limits) (middle : List ℕ)
    → 20 ≤ length middle
    → length middle + 8 ≤ limits.max_file_size
    → decode limits (some (sealed patch_magic middle))
      ≡ (elim (decode_plan limits (between [] middle)) [ err e ↦ err e | ok (plan, r) ↦ ok plan ])
unfolding decode
decode-sealed limits middle low high = rw (sealed_body patch_magic middle refl) (
    ground (
      arith,
      length-sealed patch_magic middle refl,
      sealed_front patch_magic middle refl,
      sealed_magic patch_magic middle refl,
      text_eq_self patch_magic,
      sealed_checksum patch_magic middle refl,
    ))

length-payload : (plan : PatchPlan) → 20 ≤ length (payload plan)
unfolding payload put_fields
length-payload plan = simp (length-append, length-le_bytes) (omega arith)

-- A plan whose fields fit their types, and whose bytes fit the limits that `decode` sets and `encode`
-- does not, reads back from its encoding.
pub decode-encode :
    (limits : Limits) (plan : PatchPlan) (bytes : List ℕ)
    → encode limits plan ≡ ok bytes
    → length bytes ≤ limits.max_file_size
    → length plan.name < 2 ^ 32
    → limits.max_relocations < 2 ^ 32
    → plan.expected_checksum < 2 ^ 32
    → plan.bytes_written < 2 ^ 64
    → All (IsTyped limits) plan.operations
    → decode limits (some bytes) ≡ ok plan
decode-encode limits plan bytes e fits n2 o2 c w t =
    let (n1, o1, is) = encode-payload limits plan bytes e in
    let (r, decoded) = decode_plan-payload limits plan n1 n2 o1 (omega arith) c w t in
    let sealed_is : bytes ≡ sealed patch_magic (payload plan) = unfold sealed in is in
    rw sealed_is (
      decode-sealed limits (payload plan) (length-payload plan)
        (omega (arith, length-sealed patch_magic (payload plan) refl, ap length sealed_is))
      ∙ rw decoded)
