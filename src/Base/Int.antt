-- ===== src/Base/Int.antt =====
-- Signed C numbers: `int` fields that are counted up and down, and return codes.
use Prim.Native.Nat.{ℕ, zero, suc, ◌+◌, ◌-◌, ◌^◌}
use mathlib.Core.Bool.{Bool, true, false}

-- `negsuc n` is -(n + 1).
pub data ℤ : Type 0 where
  pos : ℕ → ℤ
  negsuc : ℕ → ℤ

-- `x++` and `x--`.
abbrev pub incr : ℤ → ℤ
incr (pos n) = pos (n + 1)
incr (negsuc zero) = pos 0
incr (negsuc (suc n)) = negsuc n

abbrev pub decr : ℤ → ℤ
decr (pos zero) = negsuc 0
decr (pos (suc n)) = pos n
decr (negsuc n) = negsuc (n + 1)

-- `x == 0`.
abbrev pub is_zero : ℤ → Bool
is_zero (pos zero) = true
is_zero (pos (suc n)) = false
is_zero (negsuc n) = false

-- `x < 0`.
abbrev pub is_neg : ℤ → Bool
is_neg (pos n) = false
is_neg (negsuc n) = true

-- `(unsigned long) x` on a 64-bit machine.
abbrev pub to_ulong : ℤ → ℕ
to_ulong (pos n) = n
to_ulong (negsuc n) = 2 ^ 64 - 1 - n

-- `-EACCES`, `-ENOMEM`, `-EFAULT`, `-EINVAL`, `-EAGAIN`, `-ENOSYS`.
abbrev pub minus_eagain : ℤ
minus_eagain = negsuc 10

abbrev pub minus_enomem : ℤ
minus_enomem = negsuc 11

abbrev pub minus_eacces : ℤ
minus_eacces = negsuc 12

abbrev pub minus_efault : ℤ
minus_efault = negsuc 13

abbrev pub minus_einval : ℤ
minus_einval = negsuc 21

abbrev pub minus_enosys : ℤ
minus_enosys = negsuc 37

-- A number that is not negative.
abbrev pub to_ℕ : ℤ → ℕ
to_ℕ (pos n) = n
to_ℕ (negsuc n) = 0
