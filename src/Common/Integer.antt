-- ===== src/Common/Integer.antt =====
-- Go's `int` and `int64`, as the integers that they stand for.
pub mod Atoi
pub mod ParseInt
use log_morph.Common.{ℕ, ◌-◌, ◌%◌, ◌^◌, ◌<◌, Bool, false, ltb, if◌then◌else◌}

-- `negsuc n` is -(n + 1).
pub data ℤ : Type 0 where
  pos : ℕ → ℤ
  negsuc : ℕ → ℤ

-- `n > 0`
abbrev pub is_positive : ℤ → Bool
is_positive (pos n) = ltb 0 n
is_positive (negsuc _) = false

abbrev pub IsPositive : ℤ → Type 0
IsPositive (pos n) = 0 < n
IsPositive (negsuc _) = ⊥

-- `n > k` for a literal k
abbrev pub is_above : ℤ → ℕ → Bool
is_above (pos n) k = ltb k n
is_above (negsuc _) k = false

-- the `int64` that has the bits of `n` modulo 2^64
unfoldable pub int64 : ℕ → ℤ
int64 n = let r = n % 2 ^ 64 in if ltb r (2 ^ 63) then pos r else negsuc (2 ^ 64 - 1 - r)
