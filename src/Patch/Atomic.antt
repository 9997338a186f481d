-- ===== src/Patch/Atomic.antt =====
-- `PatchEngine::apply` as a transaction.
use binforge.Prelude.{
  ℕ, ◌+◌, ◌%◌, ◌^◌, ◌≡◌, refl, ap, ◌∙◌, ◌⊎◌, inl, inr, true, List, [], ◌∷◌, length,
  length-replicate, replicate, arith,
}
use binforge.Base.{Error, ok, err, Result-cases, Limits}
use binforge.Base.Word.{to_bytes, length-to_bytes}
use binforge.Memory.{AddressSpace, read, write}
use binforge.Memory.Invariant.{IsValid}
use binforge.Memory.Bytes.{byte_at-read, write-IsValid}
use binforge.Memory.Integer.{write_integer_inverse}
use binforge.Memory.Restore.{write_restores, write_same}
use binforge.Patch.{
  PatchOperation, PatchOperationKind, write_bytes, fill_bytes, write_integer, copy_bytes,
  assert_bytes, PatchPlan, Undo, Round, passed, refused, failed, changed, round, operation_size,
  size_of, perform, write_ignored, roll_back, apply_from, apply, validate,
}

-- An operation that writes writes as many bytes as its size says, at its address.
perform_inverse :
    (kind : PatchOperationKind) (op : PatchOperation) (m after : AddressSpace)
    → IsValid m
    → perform kind op (size_of kind op) m ≡ ok after
    → (input : List ℕ) × (length input ≡ size_of kind op)
      × (write op.address input true m ≡ ok after)
unfolding perform size_of
perform_inverse write_bytes op m after v e = (op.bytes, refl, e)
perform_inverse fill_bytes op m after v e =
    (replicate op.length_field op.fill, length-replicate op.length_field op.fill, e)
perform_inverse write_integer op m after v e = (
  to_bytes op.width op.byte_order op.integer,
  length-to_bytes op.width op.byte_order op.integer,
  (write_integer_inverse op.address op.width op.byte_order op.integer true m after e).1,
)
perform_inverse copy_bytes op m after v e =
    elim (Result-cases (read op.source_address op.length_field m)) [
      | inl (copy, got) ↦ (
        copy,
        (byte_at-read op.source_address op.length_field m copy v got).0,
        ground (arith, got),
      )
      | inr (x, unread) ↦ ground (arith, unread)
    ]
perform_inverse assert_bytes op m after v e = cc

entry : PatchOperation → List ℕ → Undo
entry op before = record { address = op.address; bytes = before }

module _ (op : PatchOperation) (before : List ℕ) (m : AddressSpace) (v : IsValid m)
    (was : read op.address (size_of op.kind op) m ≡ ok before) where
  -- The undo entry takes a performed operation back.
  undo_performed :
      (after : AddressSpace)
      → perform op.kind op (size_of op.kind op) m ≡ ok after
      → write_ignored (entry op before) after ≡ m
  unfolding write_ignored entry
  undo_performed after e =
      let (input, size, written) = perform_inverse op.kind op m after v e in
      ground (arith, write_restores op.address input before true m after v (rw size was) written)

  -- It does nothing where the operation failed.
  undo_failed : write_ignored (entry op before) m ≡ m
  unfolding write_ignored entry
  undo_failed = ground (arith, write_same op.address (size_of op.kind op) before m v was)

  performed-IsValid :
      (after : AddressSpace) → perform op.kind op (size_of op.kind op) m ≡ ok after → IsValid after
  performed-IsValid after e =
      let (input, size, written) = perform_inverse op.kind op m after v e in
      write-IsValid op.address input true m after v written

Round-cases :
    (r : Round)
    → (r ≡ passed)
      ⊎ ((e : Error) × (r ≡ refused e))
      ⊎ ((e : Error) × (r ≡ failed e))
      ⊎ ((after : AddressSpace) × (r ≡ changed after))
Round-cases passed = inl refl
Round-cases (refused e) = inr (inl (e, refl))
Round-cases (failed e) = inr (inr (inl (e, refl)))
Round-cases (changed after) = inr (inr (inr (after, refl)))

round_effect :
    (kind : PatchOperationKind) (op : PatchOperation) (before : List ℕ) (m after : AddressSpace)
    → kind ≡ op.kind
    → round kind op before m ≡ changed after
    → perform kind op (size_of op.kind op) m ≡ ok after
unfolding round operation_size
round_effect assert_bytes op before m after k e = ground arith
round_effect write_bytes op before m after k e = ground arith
round_effect fill_bytes op before m after k e = ground arith
round_effect write_integer op before m after k e = ground arith
round_effect copy_bytes op before m after k e = ground arith

-- A loop that fails leaves the memory that its undo entries lead back to.
apply_from-failed :
    (ops : List PatchOperation) (undo : List Undo) (a w : ℕ) (m origin m' : AddressSpace)
    (e : Error)
    → IsValid m
    → roll_back undo m ≡ origin
    → apply_from ops undo a w m ≡ (err e, m')
    → m' ≡ origin
unfolding apply_from entry
apply_from-failed [] undo a w m origin m' e v back h = ground arith
apply_from-failed (op ∷ ops) undo a w m origin m' e v back h =
    elim (Result-cases (read op.address (operation_size op).0 m)) [
      | inr (x, unread) ↦ ground (arith, unread)
      | inl (before, was) ↦
          let was' : read op.address (size_of op.kind op) m ≡ ok before =
            unfold operation_size in was in
          elim (Round-cases (round op.kind op before m)) [
            | inl is ↦
                apply_from-failed ops undo ((a + 1) % 2 ^ 32) w m origin m' e v back
                  (rw (was, is, apply_from) at h)
            | inr (inl (x, is)) ↦ ground (arith, was, is)
            | inr (inr (inl (x, is))) ↦
                unfold roll_back in ground (arith, was, is, undo_failed op before m v was')
            | inr (inr (inr (after, is))) ↦
                let done = round_effect op.kind op before m after refl is in
                apply_from-failed ops (entry op before ∷ undo) ((a + 1) % 2 ^ 32)
                  ((w + (operation_size op).0) % 2 ^ 64) after origin m' e
                  (performed-IsValid op before m v was' after done)
                  (ap (roll_back undo) (undo_performed op before m v was' after done) ∙ back)
                  (rw (was, is, apply_from) at h)
          ]
    ]

-- A patch that fails, at whatever operation and for whatever reason, leaves a well-formed memory as it
-- was.
pub apply-failed :
    (limits : Limits) (plan : PatchPlan) (m m' : AddressSpace) (e : Error)
    → IsValid m
    → apply limits plan m ≡ (err e, m')
    → m' ≡ m
unfolding apply
apply-failed limits plan m m' e v h = elim (Result-cases (validate limits plan m)) [
  | inr (x, invalid) ↦ ground (arith, invalid)
  | inl (done, valid) ↦ elim (Result-cases (apply_from plan.operations [] 0 0 m).0) [
    | inl (counts, is) ↦ ground (arith, valid, is)
    | inr (x, is) ↦ ground (
      arith,
      valid,
      is,
      apply_from-failed plan.operations [] 0 0 m m (apply_from plan.operations [] 0 0 m).1 x v
          (unfold roll_back in refl) (λ i. (is i, (apply_from plan.operations [] 0 0 m).1)),
    )
  ]
]
