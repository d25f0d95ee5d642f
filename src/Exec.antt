-- ===== src/Exec.antt =====
-- Calls that work on a state. What a call wrote before it failed stays written, so the state comes
-- back in every case.
pub mod Hoare
pub mod Preserves
use local_kms.Prelude.{◌≡◌, refl, arith, Bool, true, false, Option, none, some}
use local_kms.Result.{Result, ok, err, panic}

abbrev pub Exec {ℓ} : Type ℓ → Type ℓ → Type ℓ → Type ℓ
Exec S E A = S → Result E A × S

module _ {ℓ} {S E A : Type ℓ} where
  abbrev pub pure : A → Exec S E A
  pure a s = (ok a, s)

  abbrev pub raise : E → Exec S E A
  raise e s = (err e, s)

  abbrev pub lift : Result E A → Exec S E A
  lift r s = (r, s)

  abbrev pub gets : (S → A) → Exec S E A
  gets f s = (ok (f s), s)

module _ {ℓ} {S E A B : Type ℓ} where
  abbrev pub continue : Result E A → (A → Exec S E B) → Exec S E B
  continue (ok a) f s = f a s
  continue (err e) f s = (err e, s)
  continue panic f s = (panic, s)

  infixl 5 ◌>>=◌ ◌>>◌
  abbrev pub ◌>>=◌ : Exec S E A → (A → Exec S E B) → Exec S E B
  ◌>>=◌ m f s = let (r, s') = m s in continue r f s'

  abbrev pub ◌>>◌ : Exec S E A → Exec S E B → Exec S E B
  m >> k = m >>= λ _. k

-- `if cond { return err }`
abbrev pub raise_if {ℓ} : {S E : Type ℓ} → Bool → E → Exec S E (Unit {ℓ})
raise_if true e s = (err e, s)
raise_if false e s = (ok tt, s)

-- `if err := f(); err != nil { return err }`, for an f that returns only an error
abbrev pub check {ℓ} : {S E : Type ℓ} → Option E → Exec S E (Unit {ℓ})
check none s = (ok tt, s)
check (some e) s = (err e, s)

-- A bind that returned a value, step by step.
pub data Steps {S E A B : Type 0} (m : Exec S E A) (f : A → Exec S E B) (s : S) (b : B) (s' : S)
    : Type 0 where
  steps : (a : A) (t : S) → m s ≡ (ok a, t) → f a t ≡ (ok b, s') → Steps m f s b s'

module _ {S E A B : Type 0} (f : A → Exec S E B) {b : B} {s' : S} where
  run-ok :
      (m : Exec S E A) (s : S) (r : Result E A) (t : S)
      → m s ≡ (r, t)
      → continue r f t ≡ (ok b, s')
      → Steps m f s b s'
  run-ok m s (ok a) t e h = steps a t e h
  run-ok m s (err x) t e h = absurd (ground arith)
  run-ok m s panic t e h = absurd (ground arith)

  -- Inversion of a bind that returned a value.
  pub bind-ok : (m : Exec S E A) (s : S) → (m >>= f) s ≡ (ok b, s') → Steps m f s b s'
  bind-ok m s h = run-ok m s (m s).0 (m s).1 refl h

-- A guard that let the call go on.
pub data Passes {S E A : Type 0} (b : Bool) (m : Exec S E A) (s : S) (a : A) (s' : S) : Type 0 where
  passes : b ≡ false → m s ≡ (ok a, s') → Passes b m s a s'

module _ {S E A : Type 0} (m : Exec S E A) {a : A} {s' : S} where
  pub guard-ok : (b : Bool) (x : E) (s : S) → (raise_if b x >> m) s ≡ (ok a, s') → Passes b m s a s'
  guard-ok true x s h = absurd (ground arith)
  guard-ok false x s h = passes refl h
