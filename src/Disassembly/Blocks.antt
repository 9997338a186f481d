-- ===== src/Disassembly/Blocks.antt =====
-- The blocks that src/disassembly_analyzer.cc makes are runs of the instructions.
use binforge.Prelude.{
  ℕ, suc, ◌+◌, ◌%◌, ◌^◌, ◌≤◌, ◌<◌, ◌≡◌, refl, ap, sym, ◌∙◌, inl, inr, ◌&&◌, not, Bool-cases,
  Option-cases, List, [], ◌∷◌, ◌++◌, length, leb, ◌==◌, arith,
}
use mathlib.Core.Path.{subst}
use binforge.Base.{ok, Result-cases, checked_add}
use binforge.Base.Checked.{checked_add_bound}
use binforge.Disassembly.{Instruction, BasicBlockInfo, take_instruction, fill_block, new_block}
use binforge.Disassembly.Chain.{IsChain}

-- The block is a run of these instructions that is not empty: it begins at the first one, ends where the
-- last one ends, and its count is their number.
pub record IsBlock (instructions : List Instruction) (b : BasicBlockInfo) : Type 0 where
  pub before : List Instruction
  pub run : List Instruction
  pub rest : List Instruction
  pub split : instructions ≡ before ++ (run ++ rest)
  pub filled : 0 < length run
  pub chain : IsChain b.begin run b.end
  pub counted : b.instruction_count ≡ length run % 2 ^ 32

-- What a block takes of the instructions from this address on.
record IsFilled (from : ℕ) (instructions : List Instruction) (b b' : BasicBlockInfo) : Type 0 where
  run : List Instruction
  rest : List Instruction
  split : instructions ≡ run ++ rest
  chain : IsChain from run b'.end
  begin : b'.begin ≡ b.begin
  counted :
      b.instruction_count < 2 ^ 32
      → b'.instruction_count ≡ (b.instruction_count + length run) % 2 ^ 32

record IsTaken (i : Instruction) (b b' : BasicBlockInfo) : Type 0 where
  end : b'.end ≡ i.address + i.size
  begin : b'.begin ≡ b.begin
  counted : b'.instruction_count ≡ (b.instruction_count + 1) % 2 ^ 32

pub IsChain-le :
    (from to : ℕ) (instructions : List Instruction) → IsChain from instructions to → from ≤ to
IsChain-le from to [] c = omega (arith, c)
IsChain-le from to (i ∷ instructions) c =
    omega (arith, IsChain-le (from + i.size) to instructions c.3)

take_instruction-IsTaken :
    (i : Instruction) (b b' : BasicBlockInfo)
    → i.address < 2 ^ 64
    → take_instruction i b ≡ ok b'
    → IsTaken i b b'
unfolding take_instruction
take_instruction-IsTaken i b b' small e = elim (Option-cases (checked_add i.address i.size)) [
  | inl big ↦ ground (arith, e, big)
  | inr (end, fits) ↦ record {
    end = ground (arith, e, fits, (checked_add_bound i.address i.size end small fits).0);
    begin = ground (arith, e, fits);
    counted = ground (arith, e, fits);
  }
]

IsFilled-nil :
    (from : ℕ) (instructions : List Instruction) (b : BasicBlockInfo)
    → b.end ≡ from
    → IsFilled from instructions b b
IsFilled-nil from instructions b at = record {
  run = [];
  rest = instructions;
  split = refl;
  chain = sym at;
  begin = refl;
  counted = λ h. omega (arith, h);
}

recount :
    (a n m k : ℕ)
    → m ≡ (a + 1) % 2 ^ 32
    → (m < 2 ^ 32 → k ≡ (m + n) % 2 ^ 32)
    → k ≡ (a + suc n) % 2 ^ 32
recount a n m k h rest =
    let known : k ≡ (m + n) % 2 ^ 32 = rest (omega (arith, h)) in omega (arith, known, h)

IsFilled-cons :
    (from : ℕ) (i : Instruction) (instructions : List Instruction) (b b1 b' : BasicBlockInfo)
    → i.address ≡ from
    → 0 < i.size
    → i.size ≤ 16
    → IsTaken i b b1
    → IsFilled (from + i.size) instructions b1 b'
    → IsFilled from (i ∷ instructions) b b'
IsFilled-cons from i instructions b b1 b' at some_ few t f = record {
  run = i ∷ f.run;
  rest = f.rest;
  split = ap (◌∷◌ i) f.split;
  chain = (at, some_, few, f.chain);
  begin = f.begin ∙ t.begin;
  counted = λ h.
      recount b.instruction_count (length f.run) b1.instruction_count b'.instruction_count t.counted
        f.counted;
}

fill_block-IsFilled :
    (next from to : ℕ) (instructions : List Instruction) (b b' : BasicBlockInfo)
    → IsChain from instructions to
    → to < 2 ^ 64
    → b.end ≡ from
    → fill_block next instructions b ≡ ok b'
    → IsFilled from instructions b b'
unfolding fill_block
fill_block-IsFilled next from to [] b b' chain small at e =
    let is : b ≡ b' = ground (arith, e) in subst (IsFilled from [] b) is (IsFilled-nil from [] b at)
fill_block-IsFilled next from to (i ∷ instructions) b b' chain small at e =
    elim (Bool-cases (leb next i.address && not (b.instruction_count == 0))) [
      | inl over ↦
          let is : b ≡ b' = ground (arith, e, over) in
          subst (IsFilled from (i ∷ instructions) b) is (IsFilled-nil from (i ∷ instructions) b at)
      | inr open_ ↦ elim (Result-cases (take_instruction i b)) [
        | inr (bad, refused) ↦ ground (arith, e, open_, refused)
        | inl (b1, taken) ↦
            let t =
              take_instruction-IsTaken i b b1
                (omega (arith, chain.0, small, IsChain-le from to (i ∷ instructions) chain))
                taken in
            let end : b1.end ≡ from + i.size = omega (arith, t.end, chain.0) in
            elim (Bool-cases b1.complete) [
              | inl done ↦
                  let is : b1 ≡ b' = ground (arith, e, open_, taken, done) in
                  IsFilled-cons from i instructions b b1 b' chain.0 chain.1 chain.2 t (
                    subst (IsFilled (from + i.size) instructions b1) is
                      (IsFilled-nil (from + i.size) instructions b1 end))
              | inr going ↦
                  let is : fill_block next instructions b1 ≡ ok b' =
                    ground (arith, e, open_, taken, going) in
                  IsFilled-cons from i instructions b b1 b' chain.0 chain.1 chain.2 t (
                    fill_block-IsFilled next (from + i.size) to instructions b1 b' chain.3 small end
                      is)
            ]
      ]
    ]

IsBlock-more :
    (before : List Instruction) (i : Instruction) (rest : List Instruction) (b1 b : BasicBlockInfo)
    → 0 < i.size
    → i.size ≤ 16
    → IsTaken i (new_block i.address) b1
    → IsFilled (i.address + i.size) rest b1 b
    → IsBlock (before ++ (i ∷ rest)) b
IsBlock-more before i rest b1 b some_ few t f =
    let begin : b.begin ≡ i.address = f.begin ∙ t.begin in
    record {
      before = before;
      run = i ∷ f.run;
      rest = f.rest;
      split = ap (λ l. before ++ (i ∷ l)) f.split;
      filled = omega arith;
      chain = (
        sym begin,
        some_,
        few,
        subst (λ (n : ℕ). IsChain (n + i.size) f.run b.end) (sym begin) f.chain,
      );
      counted = omega (
        arith,
        recount 0 (length f.run) b1.instruction_count b.instruction_count t.counted f.counted,
      );
    }

-- The first instruction of a new block is taken, whatever follows.
pub fill_block-IsBlock :
    (next to : ℕ) (before : List Instruction) (i : Instruction) (rest : List Instruction)
    (b : BasicBlockInfo)
    → IsChain i.address (i ∷ rest) to
    → to < 2 ^ 64
    → fill_block next (i ∷ rest) (new_block i.address) ≡ ok b
    → IsBlock (before ++ (i ∷ rest)) b
unfolding fill_block
fill_block-IsBlock next to before i rest b chain small e =
    elim (Result-cases (take_instruction i (new_block i.address))) [
      | inr (bad, refused) ↦ ground (arith, e, refused)
      | inl (b1, taken) ↦
          let t =
            take_instruction-IsTaken i (new_block i.address) b1
              (omega (arith, small, IsChain-le i.address to (i ∷ rest) chain)) taken in
          elim (Bool-cases b1.complete) [
            | inl done ↦
                let is : b1 ≡ b = ground (arith, e, taken, done) in
                subst (IsBlock (before ++ (i ∷ rest))) is (record {
                  before = before;
                  run = i ∷ [];
                  rest = rest;
                  split = refl;
                  filled = omega arith;
                  chain = (
                    sym t.begin,
                    chain.1,
                    chain.2,
                    ap (λ (n : ℕ). n + i.size) t.begin ∙ sym t.end,
                  );
                  counted = t.counted;
                })
            | inr going ↦
                let is : fill_block next rest b1 ≡ ok b = ground (arith, e, taken, going) in
                IsBlock-more before i rest b1 b chain.1 chain.2 t (
                  fill_block-IsFilled next (i.address + i.size) to rest b1 b chain.3 small t.end is)
          ]
    ]
