-- ===== src/Disassembly/Report.antt =====
-- What a report of src/disassembly_analyzer.cc says of the bytes.
use binforge.Prelude.{
  ℕ, ◌+◌, ◌^◌, ◌≤◌, ◌<◌, ◌≡◌, refl, ap, sym, ◌∙◌, inl, inr, ◌&&◌, not, Bool-cases, some,
  Option-cases, List, [], ◌∷◌, ◌++◌, append_assoc, All, length, length-append, drop,
  drop-append_length, ltb, ◌==◌, arith,
}
use mathlib.Core.Path.{subst}
use binforge.Base.{ok, Result-cases, Limits, checked_add}
use binforge.Base.Checked.{checked_add_bound}
use binforge.Disassembly.{
  decode_loop, add_targets, report_warnings, Instruction, Decoder, Decoding, BasicBlockInfo,
  DisassemblyReport, set_index, find_index, index_instructions, mark_leaders, fill_block,
  close_block, next_leader, new_block, make_blocks, report_of, analyze,
}
use binforge.Disassembly.Blocks.{IsBlock, fill_block-IsBlock}
use binforge.Disassembly.Chain.{IsChain, IsAddressed, IsDecoding, IsDone, decode_loop-IsDone}

-- An entry of the index names an instruction of this address.
abbrev Names : List Instruction → ℕ × ℕ → Type 0
Names instructions entry =
    (before : List Instruction) × (i : Instruction) × (rest : List Instruction) × (instructions
      ≡ before ++ (i ∷ rest))
    × (length before ≡ entry.1)
    × (i.address ≡ entry.0)

set_index-All :
    (P : ℕ × ℕ → Type 0) (a index : ℕ) (entries : List (ℕ × ℕ))
    → P (a, index)
    → All P entries
    → All P (set_index a index entries)
unfolding set_index
set_index-All P a index [] p all = (p, tt)
set_index-All P a index (entry ∷ entries) p all =
    let rest = set_index-All P a index entries p all.1 in
    elim (Bool-cases (entry.0 == a)) [
      | inl same ↦ rw same (p, all.1)
      | inr differs ↦ elim (Bool-cases (ltb a entry.0)) [
        | inl lower ↦ rw (differs, lower) (p, all)
        | inr higher ↦ rw (differs, higher) (all.0, rest)
      ]
    ]

find_index-All :
    (P : ℕ × ℕ → Type 0) (a index : ℕ) (entries : List (ℕ × ℕ))
    → find_index a entries ≡ some index
    → All P entries
    → P (a, index)
unfolding find_index
find_index-All P a index [] found all = ground (arith, found)
find_index-All P a index ((key, value) ∷ entries) found all = elim (Bool-cases (key == a)) [
  | inl same ↦
      let is : value ≡ index = ground (arith, found, same) in
      let key_is : key ≡ a = ground (arith, same) in
      subst (λ (k : ℕ). P (k, index)) key_is (subst (λ (v : ℕ). P (key, v)) is all.0)
  | inr differs ↦ find_index-All P a index entries (ground (arith, found, differs)) all.1
]

index_instructions-Names :
    (all before instructions : List Instruction) (n : ℕ) (entries : List (ℕ × ℕ)) (leaders : List ℕ)
    → all ≡ before ++ instructions
    → length before ≡ n
    → All (Names all) entries
    → All (Names all) (index_instructions n instructions entries leaders).0
unfolding index_instructions
index_instructions-Names all before [] n entries leaders is at known = known
index_instructions-Names all before (i ∷ instructions) n entries leaders is at known =
    index_instructions-Names all (before ++ (i ∷ [])) instructions (n + 1)
      (set_index i.address n entries) (mark_leaders i (set_index i.address n entries) leaders)
      (is ∙ sym (append_assoc before (i ∷ []) instructions))
      (omega (arith, at, length-append before (i ∷ [])))
      (set_index-All (Names all) i.address n entries (before, i, instructions, is, at, refl) known)

IsChain-behind :
    (from to : ℕ) (before : List Instruction) (i : Instruction) (rest : List Instruction)
    → IsChain from (before ++ (i ∷ rest)) to
    → IsChain i.address (i ∷ rest) to
IsChain-behind from to [] i rest c =
    (refl, c.1, c.2, subst (λ (n : ℕ). IsChain (n + i.size) rest to) (sym c.0) c.3)
IsChain-behind from to (j ∷ before) i rest c = IsChain-behind (from + j.size) to before i rest c.3

close_block-IsBlock :
    (instructions : List Instruction) (next : ℕ) (b : BasicBlockInfo)
    → IsBlock instructions b
    → IsBlock instructions (close_block next b)
unfolding close_block
close_block-IsBlock instructions next b is = elim (Bool-cases (not b.complete && b.end == next)) [
  | inl joins ↦ rw joins (record {
    before = is.before;
    run = is.run;
    rest = is.rest;
    split = is.split;
    filled = is.filled;
    chain = is.chain;
    counted = is.counted;
  })
  | inr ends ↦ rw ends is
]

make_blocks-IsBlock :
    (start end : ℕ) (instructions : List Instruction) (entries : List (ℕ × ℕ)) (leaders : List ℕ)
    (blocks : List BasicBlockInfo)
    → IsChain start instructions end
    → end < 2 ^ 64
    → All (Names instructions) entries
    → make_blocks instructions entries end leaders ≡ ok blocks
    → All (IsBlock instructions) blocks
unfolding make_blocks
make_blocks-IsBlock start end instructions entries [] blocks chain small known e =
    let is : [] ≡ blocks = ground (arith, e) in subst (All (IsBlock instructions)) is tt
make_blocks-IsBlock start end instructions entries (leader ∷ leaders) blocks chain small known e =
    elim (Option-cases (find_index leader entries)) [
      | inl absent ↦
          make_blocks-IsBlock start end instructions entries leaders blocks chain small known
            (ground (arith, e, absent))
      | inr (index, there) ↦
          let (before, i, rest, split, at, named) =
            find_index-All (Names instructions) leader index entries there known in
          let next : ℕ = next_leader end leaders in
          let suffix : drop index instructions ≡ i ∷ rest =
            ap (λ l. drop index l) split
            ∙ ap (λ (n : ℕ). drop n (before ++ (i ∷ rest))) (sym at)
            ∙ drop-append_length before (i ∷ rest) in
          elim (Result-cases (fill_block next (drop index instructions) (new_block leader))) [
            | inr (bad, refused) ↦ ground (arith, e, there, refused)
            | inl (b, filled) ↦ elim (Result-cases (make_blocks instructions entries end leaders)) [
              | inr (bad, refused) ↦ ground (arith, e, there, filled, refused)
              | inl (others, made) ↦
                  let is : close_block next b ∷ others ≡ blocks =
                    ground (arith, e, there, filled, made) in
                  let here : fill_block next (i ∷ rest) (new_block i.address) ≡ ok b =
                    ap (λ (a : ℕ). fill_block next (i ∷ rest) (new_block a)) named
                    ∙ ap (λ l. fill_block next l (new_block leader)) (sym suffix)
                    ∙ filled in
                  let behind : IsChain i.address (i ∷ rest) end =
                    IsChain-behind start end before i rest
                      (subst (λ l. IsChain start l end) split chain) in
                  let block : IsBlock instructions b =
                    subst (λ l. IsBlock l b) (sym split)
                      (fill_block-IsBlock next end before i rest b behind small here) in
                  subst (All (IsBlock instructions)) is (
                    close_block-IsBlock instructions next b block,
                    make_blocks-IsBlock start end instructions entries leaders others chain small
                        known made,
                  )
            ]
          ]
    ]

-- What a report says of the bytes that were analyzed at an address: its instructions follow one another
-- from start to end without a gap, the bytes that they take are counted and are no more than there are,
-- the analysis stopped for a reason, and every block is a run of the instructions.
pub record IsReport (limits : Limits) (decoder : Decoder) (bytes : List ℕ) (address : ℕ)
    (r : DisassemblyReport) : Type 0 where
  pub start : r.start ≡ address
  pub end : r.end ≡ address + r.bytes_decoded
  pub chain : IsChain r.start r.instructions r.end
  pub inside : r.bytes_decoded ≤ length bytes
  pub few : length r.instructions ≤ limits.max_disassembly_instructions
  pub done :
      IsDone limits decoder bytes address
        (record { offset = r.bytes_decoded; instructions = r.instructions; warnings = r.warnings })
  pub blocks : All (IsBlock r.instructions) r.blocks

report_of-IsReport :
    (limits : Limits) (decoder : Decoder) (bytes : List ℕ) (address : ℕ) (p : Decoding)
    (r : DisassemblyReport)
    → address < 2 ^ 64
    → IsDecoding limits decoder bytes address p
    → IsDone limits decoder bytes address p
    → report_of limits bytes address p ≡ ok r
    → IsReport limits decoder bytes address r
unfolding report_of
report_of-IsReport limits decoder bytes address p r small d done e =
    elim (Option-cases (checked_add address p.offset)) [
      | inl big ↦ ground (arith, e, big)
      | inr (end, fits) ↦
          let marked = index_instructions 0 p.instructions [] (address ∷ []) in
          let leaders : List ℕ = add_targets address end p.instructions marked.1 in
          let sum = checked_add_bound address p.offset end small fits in
          let chain : IsChain address p.instructions end =
            subst (IsChain address p.instructions) (sym sum.0) d.chain in
          elim (Result-cases (make_blocks p.instructions marked.0 end leaders)) [
            | inr (bad, refused) ↦ ground (arith, e, fits, refused)
            | inl (blocks, made) ↦
                let is : record {
                  start = address;
                  end = end;
                  bytes_decoded = p.offset;
                  instructions = p.instructions;
                  blocks = blocks;
                  warnings = report_warnings limits bytes p;
                }
                    ≡ r =
                  ground (arith, e, fits, made) in
                subst (IsReport limits decoder bytes address) is (record {
                  start = refl;
                  end = sum.0;
                  chain = chain;
                  inside = d.inside;
                  few = d.few;
                  done = done;
                  blocks =
                      make_blocks-IsBlock address end p.instructions marked.0 leaders blocks chain
                        (omega (arith, sum))
                        (index_instructions-Names p.instructions [] p.instructions 0 []
                          (address ∷ []) refl refl tt)
                        made;
                })
          ]
    ]

-- An analysis that succeeds, at a 64-bit address and with a decoder that gives an instruction the
-- address it was asked for, has instructions of 1 to 16 bytes that follow one another from its start to
-- its end without a gap; they take as many bytes as it counts; it stopped at the end of the bytes, at
-- the limit or where the decoder refuses; and each block is a run of the instructions that is not empty,
-- from the begin of the first one to the end of the last one, with their number as its count.
pub analyze-IsReport :
    (limits : Limits) (decoder : Decoder) (bytes : List ℕ) (address : ℕ) (r : DisassemblyReport)
    → IsAddressed decoder
    → address < 2 ^ 64
    → analyze limits decoder bytes address ≡ ok r
    → IsReport limits decoder bytes address r
unfolding analyze
analyze-IsReport limits decoder bytes address r addressed small e =
    let p0 : Decoding = record { offset = 0; instructions = []; warnings = [] } in
    elim (Result-cases (decode_loop (length bytes + 1) limits decoder bytes address p0)) [
      | inr (bad, refused) ↦ ground (arith, e, refused)
      | inl (p, decoded) ↦
          let start : IsDecoding limits decoder bytes address p0 = record {
            chain = omega arith;
            inside = omega arith;
            few = omega arith;
          } in
          let d =
            decode_loop-IsDone limits decoder bytes address addressed small (length bytes + 1) p0 p
              (omega arith) start decoded in
          report_of-IsReport limits decoder bytes address p r small d.0 d.1
            (ground (arith, e, decoded))
    ]
