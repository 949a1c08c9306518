-- ===== src/Prelude/Words.antt =====
-- `int64` as its bit pattern, a number below 2 ^ 64.
use Prim.Native.Nat.{ℕ, ◌+◌, ◌%◌, ◌^◌}
use mathlib.Core.Bool.{Bool, true, false}
use multi_agent_desk.Prelude.Tests.{ltb, leb, if◌then◌else◌}

-- The least pattern that stands for a negative number.
abbrev pub sign_bit : ℕ
sign_bit = 2 ^ 63

abbrev pub is_neg : ℕ → Bool
is_neg a = leb sign_bit a

-- `a < b` on the signed values.
abbrev pub slt : ℕ → ℕ → Bool
slt a b =
    if is_neg a then (if is_neg b then ltb a b else true) else (if is_neg b then false else ltb a b)

-- `a + 1`, with its wrap-around.
abbrev pub inc64 : ℕ → ℕ
inc64 a = (a + 1) % 2 ^ 64
