-- ===== src/Result.antt =====
-- Go's ways to end a call: a value, an error beside it, or a panic.
use local_kms.Prelude.{◌≡◌, refl, Bool, true, false, arith}

pub data Result {ℓ} (E A : Type ℓ) : Type ℓ where
  ok : A → Result E A
  err : E → Result E A
  panic : Result E A

module _ {ℓ} {E A B : Type ℓ} where
  infixl 5 ◌>>=◌ ◌>>◌
  abbrev pub ◌>>=◌ : Result E A → (A → Result E B) → Result E B
  ok a >>= f = f a
  err e >>= f = err e
  panic >>= f = panic

  abbrev pub ◌>>◌ : Result E A → Result E B → Result E B
  m >> k = m >>= λ _. k

-- `if cond { return err }`
abbrev pub fail_if {ℓ} : {E : Type ℓ} → Bool → E → Result E (Unit {ℓ})
fail_if true e = err e
fail_if false e = ok tt

-- When two calls in a row return a value, the first one did, and so did the second on this value.
pub calls-ok {ℓ} :
    {E A B : Type ℓ} (first : Result E A) (second : A → Result E B) {last : B}
    → (first >>= second) ≡ ok last
    → (value : A) × (first ≡ ok value) × (second value ≡ ok last)
calls-ok panic second e = absurd (ground arith)
calls-ok (err x) second e = absurd (ground arith)
calls-ok (ok value) second e = (value, refl, e)
