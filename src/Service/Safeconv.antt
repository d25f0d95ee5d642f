-- ===== src/Service/Safeconv.antt =====
-- service/safeconv.go: `ToUnsigned[T](n)` for a T of w bits.
use local_kms.Prelude.{ℕ, ◌^◌, ◌-◌, ltb, if◌then◌else◌, ℤ, pos, negsuc}
use local_kms.Result.{Result, ok, panic}

-- The largest value of w bits, which `limit--` makes from 0.
abbrev pub limit : ℕ → ℕ
limit w = 2 ^ w - 1

unfoldable pub to_unsigned : {E : Type 0} → ℕ → ℤ → Result E ℕ
to_unsigned w (pos n) = if ltb (limit w) n then panic else ok n
to_unsigned w (negsuc n) = panic
