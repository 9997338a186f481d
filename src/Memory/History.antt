-- ===== src/Memory/History.antt =====
-- Every sequence of calls on an `AddressSpace`.
use binforge.Prelude.{ℕ, ◌^◌, ◌<◌, ◌≡◌, refl, Bool, List, [], ◌∷◌, All, Text}
use binforge.Base.{Limits, Result, ok, err}
use binforge.Base.Word.{ByteOrder}
use binforge.Memory.{
  AddressSpace, empty_space, map_region, unmap, protect, write, write_integer, clear,
}
use binforge.Memory.Invariant.{
  IsValid, empty_space-IsValid, clear-IsValid, map_region-IsValid, unmap-IsValid,
}
use binforge.Memory.Bytes.{write-IsValid}
use binforge.Memory.Integer.{write_integer-IsValid}
use binforge.Memory.Protect.{protect-IsValid}

-- The calls that may change the object, with their arguments.
pub data Call : Type 0 where
  maps : ℕ → ℕ → ℕ → Text → Call
  unmaps : ℕ → Call
  protects : ℕ → ℕ → ℕ → Call
  writes : ℕ → List ℕ → Bool → Call
  writes_integer : ℕ → ℕ → ByteOrder → ℕ → Bool → Call
  clears : Call

-- The object after a call that may have failed.
abbrev kept : AddressSpace → Result AddressSpace → AddressSpace
kept s (ok t) = t
kept s (err e) = s

unfoldable pub step : AddressSpace → Call → AddressSpace
step s (maps base size permissions name) = kept s (map_region base size permissions name s)
step s (unmaps base) = kept s (unmap base s)
step s (protects base size permissions) = kept s (protect base size permissions s)
step s (writes address input ignore) = kept s (write address input ignore s)
step s (writes_integer address width order value ignore) =
    kept s (write_integer address width order value ignore s)
step s clears = clear s

unfoldable pub run : AddressSpace → List Call → AddressSpace
run s [] = s
run s (c ∷ cs) = run (step s c) cs

-- The base of a mapping is a `uint64_t`.
abbrev pub IsTyped : Call → Type 0
IsTyped (maps base size permissions name) = base < 2 ^ 64
IsTyped c = Unit {0}

kept-IsValid :
    (s : AddressSpace) (r : Result AddressSpace)
    → ((t : AddressSpace) → r ≡ ok t → IsValid t)
    → IsValid s
    → IsValid (kept s r)
kept-IsValid s (ok t) h v = h t refl
kept-IsValid s (err e) h v = v

step-IsValid : (s : AddressSpace) (c : Call) → IsTyped c → IsValid s → IsValid (step s c)
unfolding step
step-IsValid s (maps base size p name) h v =
    kept-IsValid s _ (λ t e. map_region-IsValid base size p name s v h e) v
step-IsValid s (unmaps base) h v = kept-IsValid s _ (λ t e. unmap-IsValid base s t v e) v
step-IsValid s (protects base size p) h v =
    kept-IsValid s _ (λ t e. protect-IsValid base size p s t v e) v
step-IsValid s (writes a input ignore) h v =
    kept-IsValid s _ (λ t e. write-IsValid a input ignore s t v e) v
step-IsValid s (writes_integer a width order value ignore) h v =
    kept-IsValid s _ (λ t e. write_integer-IsValid a width order value ignore s t v e) v
step-IsValid s clears h v = clear-IsValid v

pub run-IsValid :
    (s : AddressSpace) (cs : List Call) → All IsTyped cs → IsValid s → IsValid (run s cs)
unfolding run
run-IsValid s [] h v = v
run-IsValid s (c ∷ cs) h v = run-IsValid (step s c) cs h.1 (step-IsValid s c h.0 v)

-- From a new address space with a byte limit below 2^64, and for 64-bit bases, every sequence of calls, failed ones included, leads to one whose regions
-- are ordered, not empty, apart and within 64 bits, hold as many bytes as their sizes say, and whose
-- byte count is the sum of those sizes and within the limit.
pub run-empty_space-IsValid :
    (l : Limits) (cs : List Call)
    → l.max_mapped_bytes < 2 ^ 64
    → All IsTyped cs
    → IsValid (run (empty_space l) cs)
run-empty_space-IsValid l cs h typed =
    run-IsValid (empty_space l) cs typed (empty_space-IsValid l h)
