-- ===== src/Disassembly/Chain.antt =====
-- The instructions that src/disassembly_analyzer.cc decodes follow one another.
use binforge.Prelude.{
  ℕ, zero, suc, ◌+◌, ◌-◌, ◌^◌, ◌≤◌, ◌<◌, ◌≡◌, refl, ap, sym, ◌∙◌, ◌⊎◌, inl, inr, ◌&&◌, ◌||◌,
  Bool-cases, Option-cases, List, [], ◌∷◌, ◌++◌, length, length-append, drop, ltb, ◌==◌, text,
  arith,
}
use mathlib.Core.Path.{subst}
use binforge.Base.{
  error, invalid_offset, address_overflow, Error, Result, ok, err, Limits, checked_add,
}
use binforge.Base.Checked.{checked_add_bound}
use binforge.Disassembly.{
  Instruction, Decoder, Decoding, Decoded, goes, stops, fails, take_decoded, decode_round,
  decode_loop,
}

-- From this address each instruction begins where the one before it ends, up to that address.
abbrev pub IsChain : ℕ → List Instruction → ℕ → Type 0
IsChain from [] to = from ≡ to
IsChain from (i ∷ instructions) to =
    (i.address ≡ from) × (0 < i.size) × (i.size ≤ 16) × IsChain (from + i.size) instructions to

-- An instruction has the address that the decoder was asked for.
abbrev pub IsAddressed : Decoder → Type 0
IsAddressed decoder =
    (bytes : List ℕ) (at : ℕ) (i : Instruction) → decoder bytes at ≡ ok i → i.address ≡ at

IsChain-snoc :
    (from mid to : ℕ) (instructions : List Instruction) (i : Instruction)
    → IsChain from instructions mid
    → i.address ≡ mid
    → 0 < i.size
    → i.size ≤ 16
    → to ≡ mid + i.size
    → IsChain from (instructions ++ (i ∷ [])) to
IsChain-snoc from mid to [] i c at some_ few is =
    (at ∙ sym c, some_, few, ap (λ (n : ℕ). n + i.size) c ∙ sym is)
IsChain-snoc from mid to (j ∷ instructions) i c at some_ few is =
    (c.0, c.1, c.2, IsChain-snoc (from + j.size) mid to instructions i c.3 at some_ few is)

module _ (limits : Limits) (decoder : Decoder) (bytes : List ℕ) (address : ℕ) where
  -- What holds on every round.
  pub record IsDecoding (p : Decoding) : Type 0 where
    pub chain : IsChain address p.instructions (address + p.offset)
    pub inside : p.offset ≤ length bytes
    pub few : length p.instructions ≤ limits.max_disassembly_instructions

  -- The loop has a reason to end here: all bytes are decoded, there are as many instructions as the
  -- limit, or the decoder refuses what is left.
  abbrev pub IsDone : Decoding → Type 0
  IsDone p =
      (length bytes ≤ p.offset)
      ⊎ (limits.max_disassembly_instructions ≤ length p.instructions)
      ⊎ ((e : Error) × (decoder (drop p.offset bytes) (address + p.offset) ≡ err e))

  -- A round that goes on, and one that stops.
  abbrev Advances : Decoding → Decoded → Type 0
  Advances p (goes q) = IsDecoding q × (p.offset < q.offset)
  Advances p (stops q) = IsDecoding q × IsDone q
  Advances p (fails e) = Unit {0}

  take_decoded-Advances :
      IsAddressed decoder
      → (p : Decoding) → IsDecoding p
      → length p.instructions < limits.max_disassembly_instructions
      → (at : ℕ) → at ≡ address + p.offset
      → (r : Result Instruction) → decoder (drop p.offset bytes) at ≡ r
      → Advances p (take_decoded bytes at p r)
  unfolding take_decoded
  take_decoded-Advances addressed p d room at is (err e) refused = (
    record { chain = d.chain; inside = d.inside; few = d.few },
    inr (inr (e, subst (λ (n : ℕ). decoder (drop p.offset bytes) n ≡ err e) is refused)),
  )
  take_decoded-Advances addressed p d room at is (ok i) decoded =
      elim (Bool-cases (i.size == 0 || (ltb (length bytes - p.offset) i.size || ltb 16 i.size))) [
        | inl bad ↦
            let next : take_decoded bytes at p (ok i)
                ≡ fails (
                    error invalid_offset at
                      (text "decoder returned an invalid instruction length")) =
              ground (arith, bad) in
            subst (Advances p) (sym next) tt
        | inr fine ↦
            let q : Decoding = record p {
              offset = p.offset + i.size;
              instructions = p.instructions ++ (i ∷ []);
            } in
            let here : i.address ≡ address + p.offset =
              addressed (drop p.offset bytes) at i decoded ∙ is in
            let some_ : 0 < i.size = ground (arith, fine) in
            let next : take_decoded bytes at p (ok i) ≡ goes q = ground (arith, fine) in
            subst (Advances p) (sym next) (
              record {
                chain =
                    IsChain-snoc address (address + p.offset) (address + (p.offset + i.size))
                      p.instructions i d.chain here some_ (ground (arith, fine)) (omega arith);
                inside = ground (arith, fine, d.inside);
                few = omega (arith, room, length-append p.instructions (i ∷ []));
              },
              omega (arith, some_),
            )
      ]

  decode_round-Advances :
      IsAddressed decoder
      → address < 2 ^ 64
      → (p : Decoding) → IsDecoding p
      → Advances p (decode_round limits decoder bytes address p)
  unfolding decode_round
  decode_round-Advances addressed small p d =
      elim (Bool-cases (
        ltb p.offset (length bytes)
        && ltb (length p.instructions) limits.max_disassembly_instructions)) [
          | inr over ↦
              let is : decode_round limits decoder bytes address p ≡ stops p =
                ground (arith, over) in
              subst (Advances p) (sym is) (
                d,
                elim (Bool-cases (ltb p.offset (length bytes))) [
                  | inl more ↦ inr (inl (ground (arith, over, more)))
                  | inr all ↦ inl (ground (arith, all))
                ],
              )
          | inl open_ ↦ elim (Option-cases (checked_add address p.offset)) [
            | inl big ↦
                let is : decode_round limits decoder bytes address p
                    ≡ fails
                        (error address_overflow address (text "instruction address overflows")) =
                  ground (arith, open_, big) in
                subst (Advances p) (sym is) tt
            | inr (at, fits) ↦
                let is : decode_round limits decoder bytes address p
                    ≡ take_decoded bytes at p (decoder (drop p.offset bytes) at) =
                  ground (arith, open_, fits) in
                subst (Advances p) (sym is) (
                  take_decoded-Advances addressed p d (ground (arith, open_)) at
                    (checked_add_bound address p.offset at small fits).0
                    (decoder (drop p.offset bytes) at) refl)
          ]
        ]

  -- The loop behind a round, given what it does on one that goes on.
  decode_loop-behind :
      (more : ℕ) (p q : Decoding) (round : Decoded)
      → ((r : Decoding)
          → IsDecoding r
          → p.offset < r.offset
          → decode_loop more limits decoder bytes address r ≡ ok q
          → IsDecoding q × IsDone q)
      → Advances p round
      → elim round as (λ x. Result Decoding) [
        | goes r ↦ decode_loop more limits decoder bytes address r
        | stops r ↦ ok r
        | fails e ↦ err e
      ]
        ≡ ok q
      → IsDecoding q × IsDone q
  decode_loop-behind more p q (goes r) rest a e = rest r a.0 a.1 e
  decode_loop-behind more p q (stops r) rest a e =
      let is : r ≡ q = ground (arith, e) in subst (λ (x : Decoding). IsDecoding x × IsDone x) is a
  decode_loop-behind more p q (fails e') rest a e = ground (arith, e)

  -- With a round for each byte that is left, and one more, the loop ends for a reason.
  pub decode_loop-IsDone :
      IsAddressed decoder
      → address < 2 ^ 64
      → (fuel : ℕ) (p q : Decoding) → length bytes - p.offset < fuel
      → IsDecoding p
      → decode_loop fuel limits decoder bytes address p ≡ ok q
      → IsDecoding q × IsDone q
  unfolding decode_loop
  decode_loop-IsDone addressed small zero p q enough d e = absurd (omega (arith, enough))
  decode_loop-IsDone addressed small (suc more) p q enough d e =
      decode_loop-behind more p q (decode_round limits decoder bytes address p)
        (λ r d' further e'.
          decode_loop-IsDone addressed small more r q (omega (arith, enough, further, d'.inside)) d'
            e')
        (decode_round-Advances addressed small p d) e
