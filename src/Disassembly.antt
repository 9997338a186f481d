-- ===== src/Disassembly.antt =====
-- src/disassembly_analyzer.cc: `DisassemblyAnalyzer`, on a pointer that is not null. A decoder is an
-- argument: what `decode` makes of the bytes that are left at an address.
pub mod Chain
pub mod Blocks
pub mod Report
use binforge.Prelude.{
  ℕ, zero, suc, ◌+◌, ◌-◌, ◌%◌, ◌^◌, Bool, true, false, ◌&&◌, ◌||◌, not, Option, none, some, List,
  [], ◌∷◌, ◌++◌, ltb, leb, ◌==◌, if◌then◌else◌, Text, text, length, drop,
}
use binforge.Base.{
  Error, error, Result, ok, err, ◌>>=◌, expect, Limits, checked_add, address_overflow,
  invalid_offset,
}
use binforge.Query.{to_string}

pub record Instruction : Type 0 where
  pub address : ℕ
  pub size : ℕ
  pub bytes : List ℕ
  pub mnemonic : Text
  pub operands : Text
  pub branch : Bool
  pub call : Bool
  pub terminal : Bool
  pub target : Option ℕ

abbrev pub Decoder : Type 0
Decoder = List ℕ → ℕ → Result Instruction

pub record ControlFlowEdge : Type 0 where
  pub source : ℕ
  pub target : ℕ
  pub conditional : Bool
  pub call : Bool
  pub fallthrough : Bool

pub record BasicBlockInfo : Type 0 where
  pub begin : ℕ
  pub end : ℕ
  pub instruction_count : ℕ
  pub complete : Bool
  pub outgoing : List ControlFlowEdge

pub record DisassemblyReport : Type 0 where
  pub start : ℕ
  pub end : ℕ
  pub bytes_decoded : ℕ
  pub instructions : List Instruction
  pub blocks : List BasicBlockInfo
  pub warnings : List Text

-- The variables of the loop that decodes.
pub record Decoding : Type 0 where
  pub offset : ℕ
  pub instructions : List Instruction
  pub warnings : List Text

pub data Decoded : Type 0 where
  goes stops : Decoding → Decoded
  fails : Error → Decoded

unfoldable pub take_decoded : List ℕ → ℕ → Decoding → Result Instruction → Decoded
take_decoded bytes at p (err e) = stops (record p {
  warnings =
      p.warnings ++ ((text "decode stopped at " ++ to_string at ++ text ": " ++ e.message) ∷ []);
})
take_decoded bytes at p (ok i) =
    if i.size == 0 || (ltb (length bytes - p.offset) i.size || ltb 16 i.size)
    then fails (error invalid_offset at (text "decoder returned an invalid instruction length"))
    else goes (record p { offset = p.offset + i.size; instructions = p.instructions ++ (i ∷ []) })

-- One round.
unfoldable pub decode_round : Limits → Decoder → List ℕ → ℕ → Decoding → Decoded
unfolding take_decoded
decode_round limits decoder bytes address p =
    if not (
      ltb p.offset (length bytes)
      && ltb (length p.instructions) limits.max_disassembly_instructions)
    then stops p
    else elim (checked_add address p.offset) [
      | none ↦ fails (error address_overflow address (text "instruction address overflows"))
      | some at ↦ take_decoded bytes at p (decoder (drop p.offset bytes) at)
    ]

-- Each round that goes on takes a byte at least.
unfoldable pub decode_loop : ℕ → Limits → Decoder → List ℕ → ℕ → Decoding → Result Decoding
unfolding decode_round
decode_loop zero limits decoder bytes address p = ok p
decode_loop (suc more) limits decoder bytes address p =
    elim (decode_round limits decoder bytes address p) [
      | goes q ↦ decode_loop more limits decoder bytes address q
      | stops q ↦ ok q
      | fails e ↦ err e
    ]

-- `insert` of a std::set, in order.
unfoldable pub insert_leader : ℕ → List ℕ → List ℕ
insert_leader a [] = a ∷ []
insert_leader a (leader ∷ leaders) =
    if a == leader
    then leader ∷ leaders
    else if ltb a leader
    then a ∷ leader ∷ leaders
    else leader ∷ insert_leader a leaders

-- `instruction_at[address] = index`, which replaces the index that was there.
unfoldable pub set_index : ℕ → ℕ → List (ℕ × ℕ) → List (ℕ × ℕ)
set_index a index [] = (a, index) ∷ []
set_index a index (entry ∷ entries) =
    if entry.0 == a
    then (a, index) ∷ entries
    else if ltb a entry.0
    then (a, index) ∷ entry ∷ entries
    else entry ∷ set_index a index entries

unfoldable pub find_index : ℕ → List (ℕ × ℕ) → Option ℕ
find_index a [] = none
find_index a (entry ∷ entries) = if entry.0 == a then some entry.1 else find_index a entries

-- The targets that are known already, and the places behind branches.
unfoldable pub mark_leaders : Instruction → List (ℕ × ℕ) → List ℕ → List ℕ
unfolding insert_leader find_index
mark_leaders i entries leaders = elim (checked_add i.address i.size) [
  | none ↦ leaders
  | some behind ↦
      let marked : List ℕ = elim i.target [
        | none ↦ leaders
        | some at ↦ elim (find_index at entries) [
          | none ↦ leaders
          | some index ↦ insert_leader at leaders
        ]
      ] in
      if i.branch && not i.terminal then insert_leader behind marked else marked
]

-- The first loop over the instructions, from this index on.
unfoldable pub index_instructions :
    ℕ → List Instruction → List (ℕ × ℕ) → List ℕ → List (ℕ × ℕ) × List ℕ
unfolding mark_leaders set_index
index_instructions n [] entries leaders = (entries, leaders)
index_instructions n (i ∷ instructions) entries leaders =
    index_instructions (n + 1) instructions (set_index i.address n entries)
      (mark_leaders i (set_index i.address n entries) leaders)

-- The second loop: the targets inside.
unfoldable pub add_targets : ℕ → ℕ → List Instruction → List ℕ → List ℕ
unfolding insert_leader
add_targets start end [] leaders = leaders
add_targets start end (i ∷ instructions) leaders =
    add_targets start end instructions (elim i.target [
      | none ↦ leaders
      | some at ↦ if leb start at && ltb at end then insert_leader at leaders else leaders
    ])

unfoldable pub target_edge : Instruction → List ControlFlowEdge
target_edge i = elim i.target [
  | none ↦ []
  | some at ↦
      record {
        source = i.address;
        target = at;
        conditional = i.branch && (not i.terminal && not i.call);
        call = i.call;
        fallthrough = false;
      }
      ∷ []
]

unfoldable pub fall_edge : ℕ → ℕ → ControlFlowEdge
fall_edge source target = record {
  source = source;
  target = target;
  conditional = false;
  call = false;
  fallthrough = true;
}

-- The block with one more instruction; one that branches or ends completes it.
unfoldable pub take_instruction : Instruction → BasicBlockInfo → Result BasicBlockInfo
unfolding target_edge fall_edge
take_instruction i b = elim (checked_add i.address i.size) [
  | none ↦ err (error address_overflow i.address (text "basic-block end overflows"))
  | some end ↦
      let edges : List ControlFlowEdge = b.outgoing ++ target_edge i in
      ok (record b {
        end = end;
        instruction_count = (b.instruction_count + 1) % 2 ^ 32;
        complete = i.branch || i.terminal;
        outgoing =
            if (i.branch || i.terminal) && (not i.terminal || i.call)
            then edges ++ (fall_edge i.address end ∷ [])
            else edges;
      })
]

unfoldable pub fill_block : ℕ → List Instruction → BasicBlockInfo → Result BasicBlockInfo
unfolding take_instruction
fill_block next [] b = ok b
fill_block next (i ∷ instructions) b =
    if leb next i.address && not (b.instruction_count == 0)
    then ok b
    else (take_instruction i b >>= λ b'.
        if b'.complete then ok b' else fill_block next instructions b')

-- The edge to the block behind.
unfoldable pub close_block : ℕ → BasicBlockInfo → BasicBlockInfo
unfolding fall_edge
close_block next b =
    if not b.complete && b.end == next
    then record b { outgoing = b.outgoing ++ (fall_edge b.end next ∷ []) }
    else b

unfoldable pub next_leader : ℕ → List ℕ → ℕ
next_leader end [] = end
next_leader end (leader ∷ leaders) = leader

abbrev pub new_block : ℕ → BasicBlockInfo
new_block leader = record {
  begin = leader;
  end = 0;
  instruction_count = 0;
  complete = false;
  outgoing = [];
}

-- The blocks of the leaders that are instructions.
unfoldable pub make_blocks :
    List Instruction → List (ℕ × ℕ) → ℕ → List ℕ → Result (List BasicBlockInfo)
unfolding find_index fill_block close_block next_leader
make_blocks instructions entries end [] = ok []
make_blocks instructions entries end (leader ∷ leaders) = elim (find_index leader entries) [
  | none ↦ make_blocks instructions entries end leaders
  | some index ↦
      fill_block (next_leader end leaders) (drop index instructions) (new_block leader) >>= λ b.
      make_blocks instructions entries end leaders >>= λ rest.
      ok (close_block (next_leader end leaders) b ∷ rest)
]

unfoldable pub report_warnings : Limits → List ℕ → Decoding → List Text
report_warnings limits bytes p =
    if leb limits.max_disassembly_instructions (length p.instructions)
      && ltb p.offset (length bytes)
    then p.warnings ++ (text "instruction limit reached" ∷ [])
    else p.warnings

-- What follows the loop that decodes.
unfoldable pub report_of : Limits → List ℕ → ℕ → Decoding → Result DisassemblyReport
unfolding index_instructions add_targets make_blocks report_warnings
report_of limits bytes address p =
    expect (checked_add address p.offset)
      (error address_overflow address (text "disassembly end address overflows"))
    >>= λ end.
        let marked : List (ℕ × ℕ) × List ℕ =
          index_instructions 0 p.instructions [] (address ∷ []) in
        make_blocks p.instructions marked.0 end (add_targets address end p.instructions marked.1)
        >>= λ blocks. ok (record {
          start = address;
          end = end;
          bytes_decoded = p.offset;
          instructions = p.instructions;
          blocks = blocks;
          warnings = report_warnings limits bytes p;
        })

unfoldable pub analyze : Limits → Decoder → List ℕ → ℕ → Result DisassemblyReport
unfolding decode_loop report_of
analyze limits decoder bytes address =
    decode_loop (length bytes + 1) limits decoder bytes address
      (record { offset = 0; instructions = []; warnings = [] })
    >>= λ p. report_of limits bytes address p
