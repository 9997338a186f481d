-- ===== src/Manifest/Codes.antt =====
-- src/manifest.cc: the casts between the enumerations and the bytes of a manifest.
use binforge.Prelude.{
  ℕ, ◌%◌, ◌==◌, if◌then◌else◌, ◌^◌, ◌≤◌, ◌<◌, ◌≡◌, refl, none, some, List, [], ◌∷◌, length,
  get_elem?, get_elem?-none, arith,
}
use native.Mathlib.Nat.{mod-eq_of_lt}
use binforge.Base.Word.{ByteOrder, little, big}
use binforge.Image.{
  BinaryFormat, unknown_format, elf_like, pe_like, macho_like, WordSize, bits32, bits64, BinaryKind,
  unknown_kind, relocatable, executable, shared_library, core, other_kind, Architecture,
  unknown_architecture, x86, x86_64, arm, arm64, riscv32, riscv64, other_architecture, SectionKind,
  unknown_section, program_bits, no_bits, string_table, symbol_table, dynamic_symbols,
  relocation_section, relocation_addends, debug, import_section, export_section, resources, unwind,
  notes, other_section, SymbolBinding, local, global, weak_symbol, import_symbol, export_symbol,
  other_binding, SymbolKind, unknown_symbol, object_symbol, function_symbol, section_symbol,
  file_symbol, common, tls_object, other_symbol, RelocationKind, no_relocation, absolute32,
  absolute64, relative32, relative64, pc_relative32, got_relative, plt_relative, high16, low16,
  other_relocation,
}

-- `static_cast<uint8_t>` of an enumeration, and the cast back; `other` holds a byte past the last
-- enumerator.
unfoldable pub from_byte : {A : Type 0} → List A → (ℕ → A) → ℕ → A
from_byte names other byte = elim (get_elem? names byte) [ some a ↦ a | none ↦ other byte ]

from_byte-other :
    {A : Type 0} (names : List A) (other : ℕ → A) (n : ℕ)
    → length names ≤ n
    → from_byte names other n ≡ other n
unfolding from_byte
from_byte-other names other n h = ground (arith, get_elem?-none names n h)

unfoldable pub format_code : BinaryFormat → ℕ
format_code unknown_format = 0
format_code elf_like = 1
format_code pe_like = 2
format_code macho_like = 3

-- The cast of a byte that is at most 3.
unfoldable pub format_of : ℕ → BinaryFormat
unfolding from_byte
format_of = from_byte (unknown_format ∷ elf_like ∷ pe_like ∷ macho_like ∷ []) (λ _. macho_like)

-- The cast of a byte that is 4 or 8.
unfoldable pub word_of : ℕ → WordSize
word_of byte = if byte == 4 then bits32 else bits64

unfoldable pub order_code : ByteOrder → ℕ
order_code little = 0
order_code big = 1

-- The cast of a byte that is 0 or 1.
unfoldable pub order_of : ℕ → ByteOrder
order_of byte = if byte == 0 then little else big

unfoldable pub kind_code : BinaryKind → ℕ
kind_code unknown_kind = 0
kind_code relocatable = 1
kind_code executable = 2
kind_code shared_library = 3
kind_code core = 4
kind_code (other_kind n) = n % 2 ^ 8

abbrev kind_names : List BinaryKind
kind_names = unknown_kind ∷ relocatable ∷ executable ∷ shared_library ∷ core ∷ []

unfoldable pub kind_of : ℕ → BinaryKind
unfolding from_byte
kind_of = from_byte kind_names other_kind

-- A number that is a byte, and names no enumerator.
unfoldable pub IsByteKind : BinaryKind → Type 0
IsByteKind (other_kind n) = (5 ≤ n) × (n < 2 ^ 8)
IsByteKind _ = Unit

pub kind_of-code : (k : BinaryKind) → IsByteKind k → kind_of (kind_code k) ≡ k
unfolding kind_of kind_code IsByteKind
kind_of-code unknown_kind h = refl
kind_of-code relocatable h = refl
kind_of-code executable h = refl
kind_of-code shared_library h = refl
kind_of-code core h = refl
kind_of-code (other_kind n) h =
    rw (mod-eq_of_lt {n = n} {m = 2 ^ 8} h.1) (from_byte-other kind_names other_kind n h.0)

unfoldable pub architecture_code : Architecture → ℕ
architecture_code unknown_architecture = 0
architecture_code x86 = 1
architecture_code x86_64 = 2
architecture_code arm = 3
architecture_code arm64 = 4
architecture_code riscv32 = 5
architecture_code riscv64 = 6
architecture_code (other_architecture n) = n % 2 ^ 8

abbrev architecture_names : List Architecture
architecture_names = unknown_architecture ∷ x86 ∷ x86_64 ∷ arm ∷ arm64 ∷ riscv32 ∷ riscv64 ∷ []

unfoldable pub architecture_of : ℕ → Architecture
unfolding from_byte
architecture_of = from_byte architecture_names other_architecture

-- A number that is a byte, and names no enumerator.
unfoldable pub IsByteArchitecture : Architecture → Type 0
IsByteArchitecture (other_architecture n) = (7 ≤ n) × (n < 2 ^ 8)
IsByteArchitecture _ = Unit

pub architecture_of-code :
    (k : Architecture) → IsByteArchitecture k → architecture_of (architecture_code k) ≡ k
unfolding architecture_of architecture_code IsByteArchitecture
architecture_of-code unknown_architecture h = refl
architecture_of-code x86 h = refl
architecture_of-code x86_64 h = refl
architecture_of-code arm h = refl
architecture_of-code arm64 h = refl
architecture_of-code riscv32 h = refl
architecture_of-code riscv64 h = refl
architecture_of-code (other_architecture n) h =
    rw (mod-eq_of_lt {n = n} {m = 2 ^ 8} h.1)
      (from_byte-other architecture_names other_architecture n h.0)

unfoldable pub section_code : SectionKind → ℕ
section_code unknown_section = 0
section_code program_bits = 1
section_code no_bits = 2
section_code string_table = 3
section_code symbol_table = 4
section_code dynamic_symbols = 5
section_code relocation_section = 6
section_code relocation_addends = 7
section_code debug = 8
section_code import_section = 9
section_code export_section = 10
section_code resources = 11
section_code unwind = 12
section_code notes = 13
section_code (other_section n) = n % 2 ^ 8

abbrev section_names : List SectionKind
section_names =
    unknown_section ∷ program_bits ∷ no_bits ∷ string_table ∷ symbol_table ∷ dynamic_symbols
    ∷ relocation_section ∷ relocation_addends ∷ debug ∷ import_section ∷ export_section ∷ resources
    ∷ unwind ∷ notes ∷ []

unfoldable pub section_of : ℕ → SectionKind
unfolding from_byte
section_of = from_byte section_names other_section

-- A number that is a byte, and names no enumerator.
unfoldable pub IsByteSection : SectionKind → Type 0
IsByteSection (other_section n) = (14 ≤ n) × (n < 2 ^ 8)
IsByteSection _ = Unit

pub section_of-code : (k : SectionKind) → IsByteSection k → section_of (section_code k) ≡ k
unfolding section_of section_code IsByteSection
section_of-code unknown_section h = refl
section_of-code program_bits h = refl
section_of-code no_bits h = refl
section_of-code string_table h = refl
section_of-code symbol_table h = refl
section_of-code dynamic_symbols h = refl
section_of-code relocation_section h = refl
section_of-code relocation_addends h = refl
section_of-code debug h = refl
section_of-code import_section h = refl
section_of-code export_section h = refl
section_of-code resources h = refl
section_of-code unwind h = refl
section_of-code notes h = refl
section_of-code (other_section n) h =
    rw (mod-eq_of_lt {n = n} {m = 2 ^ 8} h.1) (from_byte-other section_names other_section n h.0)

unfoldable pub binding_code : SymbolBinding → ℕ
binding_code local = 0
binding_code global = 1
binding_code weak_symbol = 2
binding_code import_symbol = 3
binding_code export_symbol = 4
binding_code (other_binding n) = n % 2 ^ 8

abbrev binding_names : List SymbolBinding
binding_names = local ∷ global ∷ weak_symbol ∷ import_symbol ∷ export_symbol ∷ []

unfoldable pub binding_of : ℕ → SymbolBinding
unfolding from_byte
binding_of = from_byte binding_names other_binding

-- A number that is a byte, and names no enumerator.
unfoldable pub IsByteBinding : SymbolBinding → Type 0
IsByteBinding (other_binding n) = (5 ≤ n) × (n < 2 ^ 8)
IsByteBinding _ = Unit

pub binding_of-code : (k : SymbolBinding) → IsByteBinding k → binding_of (binding_code k) ≡ k
unfolding binding_of binding_code IsByteBinding
binding_of-code local h = refl
binding_of-code global h = refl
binding_of-code weak_symbol h = refl
binding_of-code import_symbol h = refl
binding_of-code export_symbol h = refl
binding_of-code (other_binding n) h =
    rw (mod-eq_of_lt {n = n} {m = 2 ^ 8} h.1) (from_byte-other binding_names other_binding n h.0)

unfoldable pub symbol_code : SymbolKind → ℕ
symbol_code unknown_symbol = 0
symbol_code object_symbol = 1
symbol_code function_symbol = 2
symbol_code section_symbol = 3
symbol_code file_symbol = 4
symbol_code common = 5
symbol_code tls_object = 6
symbol_code (other_symbol n) = n % 2 ^ 8

abbrev symbol_names : List SymbolKind
symbol_names =
    unknown_symbol ∷ object_symbol ∷ function_symbol ∷ section_symbol ∷ file_symbol ∷ common
    ∷ tls_object ∷ []

unfoldable pub symbol_of : ℕ → SymbolKind
unfolding from_byte
symbol_of = from_byte symbol_names other_symbol

-- A number that is a byte, and names no enumerator.
unfoldable pub IsByteSymbol : SymbolKind → Type 0
IsByteSymbol (other_symbol n) = (7 ≤ n) × (n < 2 ^ 8)
IsByteSymbol _ = Unit

pub symbol_of-code : (k : SymbolKind) → IsByteSymbol k → symbol_of (symbol_code k) ≡ k
unfolding symbol_of symbol_code IsByteSymbol
symbol_of-code unknown_symbol h = refl
symbol_of-code object_symbol h = refl
symbol_of-code function_symbol h = refl
symbol_of-code section_symbol h = refl
symbol_of-code file_symbol h = refl
symbol_of-code common h = refl
symbol_of-code tls_object h = refl
symbol_of-code (other_symbol n) h =
    rw (mod-eq_of_lt {n = n} {m = 2 ^ 8} h.1) (from_byte-other symbol_names other_symbol n h.0)

unfoldable pub relocation_code : RelocationKind → ℕ
relocation_code no_relocation = 0
relocation_code absolute32 = 1
relocation_code absolute64 = 2
relocation_code relative32 = 3
relocation_code relative64 = 4
relocation_code pc_relative32 = 5
relocation_code got_relative = 6
relocation_code plt_relative = 7
relocation_code high16 = 8
relocation_code low16 = 9
relocation_code (other_relocation n) = n % 2 ^ 8

abbrev relocation_names : List RelocationKind
relocation_names =
    no_relocation ∷ absolute32 ∷ absolute64 ∷ relative32 ∷ relative64 ∷ pc_relative32 ∷ got_relative
    ∷ plt_relative ∷ high16 ∷ low16 ∷ []

unfoldable pub relocation_of : ℕ → RelocationKind
unfolding from_byte
relocation_of = from_byte relocation_names other_relocation

-- A number that is a byte, and names no enumerator.
unfoldable pub IsByteRelocation : RelocationKind → Type 0
IsByteRelocation (other_relocation n) = (10 ≤ n) × (n < 2 ^ 8)
IsByteRelocation _ = Unit

pub relocation_of-code :
    (k : RelocationKind) → IsByteRelocation k → relocation_of (relocation_code k) ≡ k
unfolding relocation_of relocation_code IsByteRelocation
relocation_of-code no_relocation h = refl
relocation_of-code absolute32 h = refl
relocation_of-code absolute64 h = refl
relocation_of-code relative32 h = refl
relocation_of-code relative64 h = refl
relocation_of-code pc_relative32 h = refl
relocation_of-code got_relative h = refl
relocation_of-code plt_relative h = refl
relocation_of-code high16 h = refl
relocation_of-code low16 h = refl
relocation_of-code (other_relocation n) h =
    rw (mod-eq_of_lt {n = n} {m = 2 ^ 8} h.1)
      (from_byte-other relocation_names other_relocation n h.0)
