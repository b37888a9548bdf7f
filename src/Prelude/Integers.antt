-- ===== src/Prelude/Integers.antt =====
-- Integers over the native numbers, under the library's names, and the 64-bit signed ones of Rust.
use Prim.Native.Nat.{ℕ, suc, ◌+◌, ◌-◌, ◌^◌}
use mathlib.Core.Bool.{Bool}
use ten_cent_poker_client.Prelude.Tests.{ltb, leb, if◌then◌else◌}
use ten_cent_poker_client.Prelude.Errors.{Outcome, ok, panic, u64_mod}

pub data ℤ : Type 0 where
  pos : ℕ → ℤ
  negsuc : ℕ → ℤ

-- The difference of two natural numbers.
abbrev pub diff : ℕ → ℕ → ℤ
diff a b = if leb b a then pos (a - b) else negsuc (b - suc a)

infixl 6 ◌-ℤ◌
abbrev pub ◌-ℤ◌ : ℤ → ℤ → ℤ
pos a -ℤ pos b = diff a b
pos a -ℤ negsuc b = pos (a + suc b)
negsuc a -ℤ pos b = negsuc (a + b)
negsuc a -ℤ negsuc b = diff b a

abbrev pub i64_half : ℕ
i64_half = 2 ^ 63

-- Whether an integer is an `i64`.
abbrev pub fits_i64 : ℤ → Bool
fits_i64 (pos n) = ltb n i64_half
fits_i64 (negsuc n) = ltb n i64_half

-- `n as i64` for a u64: the upper half of the numbers wraps to the negative ones.
unfoldable pub to_i64 : ℕ → ℤ
to_i64 n = if ltb n i64_half then pos n else negsuc (u64_mod - suc n)

-- `a - b` on i64, with the overflow checks on.
unfoldable pub sub_i64 {ℓ} : {E : Type ℓ} → ℤ → ℤ → Outcome E ℤ
sub_i64 a b = if fits_i64 (a -ℤ b) then ok (a -ℤ b) else panic
