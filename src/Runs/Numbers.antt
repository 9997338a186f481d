-- ===== src/Runs/Numbers.antt =====
-- The theorems on src/base.cc and on byte orders at concrete inputs.
use binforge.Prelude.{◌+◌, ◌-◌, ◌*◌, ◌^◌, ◌≤◌, ◌<◌, ◌≡◌, ◌↔◌, true, some, arith}
use binforge.Base.{checked_add, checked_multiply, checked_align_up, range_inside}
use binforge.Base.Word.{big, from_bytes, to_bytes, from_bytes-to_bytes}
use binforge.Base.Checked.{
  IsAlignedUp, checked_add_iff, checked_multiply_iff, checked_align_up_iff, range_inside_iff,
}

checked_add_iff_example :
    (checked_add 3 (2 ^ 64 - 4) ≡ some (2 ^ 64 - 1))
    ↔ ((2 ^ 64 - 1 ≡ 3 + (2 ^ 64 - 4)) × (3 + (2 ^ 64 - 4) < 2 ^ 64))
checked_add_iff_example = checked_add_iff 3 (2 ^ 64 - 4) (2 ^ 64 - 1) (omega arith) (omega arith)

checked_multiply_iff_example : (checked_multiply 6 7 ≡ some 42) ↔ ((42 ≡ 6 * 7) × (6 * 7 < 2 ^ 64))
checked_multiply_iff_example = checked_multiply_iff 6 7 42

checked_align_up_iff_example : (checked_align_up 4097 4096 ≡ some 8192) ↔ IsAlignedUp 4097 4096 8192
checked_align_up_iff_example = checked_align_up_iff 4097 4096 8192 (omega arith) (omega arith)

range_inside_iff_example : (range_inside 3 4 7 ≡ true) ↔ (3 + 4 ≤ 7)
range_inside_iff_example = range_inside_iff 3 4 7

from_bytes-to_bytes_example : from_bytes (2 ^ 64) big (to_bytes 2 big 66051) ≡ 515
from_bytes-to_bytes_example = from_bytes-to_bytes (2 ^ 64) 2 big 66051 (omega arith)
