-- ===== src/Runs/Disassembling.antt =====
-- The theorems on src/disassembly_analyzer.cc at concrete inputs.
use binforge.Prelude.{
  ℕ, ◌≡◌, refl, false, none, some, List, [], ◌∷◌, ◌==◌, if◌then◌else◌, length, arith,
}
use binforge.Base.{error, Result, ok, err, default_limits, checked_add, truncated}
use binforge.Disassembly.{Decoder, DisassemblyReport, analyze}
use binforge.Disassembly.Chain.{IsAddressed}
use binforge.Disassembly.Report.{IsReport, analyze-IsReport}

-- Instructions of one byte; 1 branches back to 4096.
abbrev one_byte : Decoder
one_byte [] at = err (error truncated at [])
one_byte (byte ∷ rest) at = ok (record {
  address = at;
  size = 1;
  bytes = byte ∷ [];
  mnemonic = [];
  operands = [];
  branch = byte == 1;
  call = false;
  terminal = false;
  target = if byte == 1 then some 4096 else none;
})

one_byte-IsAddressed : IsAddressed one_byte
one_byte-IsAddressed [] at i e = ground (arith, e)
one_byte-IsAddressed (byte ∷ rest) at i e = ground (arith, e)

abbrev report_in : Result DisassemblyReport → DisassemblyReport
report_in (ok r) = r
report_in (err e) = record {
  start = 0;
  end = 0;
  bytes_decoded = 0;
  instructions = [];
  blocks = [];
  warnings = [];
}

abbrev code_bytes : List ℕ
code_bytes = 0 ∷ 1 ∷ 2 ∷ 3 ∷ []

abbrev report : DisassemblyReport
report = report_in (analyze default_limits one_byte code_bytes 4096)

report_is : analyze default_limits one_byte code_bytes 4096 ≡ ok report
unfolding analyze checked_add
report_is = refl

-- Two blocks: the branch ends the first one.
two_blocks : length report.blocks ≡ 2
unfolding analyze checked_add
two_blocks = refl

analyze-IsReport_example : IsReport default_limits one_byte code_bytes 4096 report
analyze-IsReport_example =
    analyze-IsReport default_limits one_byte code_bytes 4096 report one_byte-IsAddressed
      (omega arith) report_is
