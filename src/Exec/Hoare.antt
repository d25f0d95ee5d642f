-- ===== src/Exec/Hoare.antt =====
-- Calls that keep a property of the state and return only values of a kind, one rule for each way to
-- build a call.
use local_kms.Prelude.{◌≡◌, refl, Bool, true, false}
use local_kms.Result.{Result, ok, err, panic}
use local_kms.Exec.{Exec, pure, raise, continue, ◌>>=◌, raise_if}

module _ {S A E : Type 0} where
  abbrev pub Post : (S → Type 0) → (A → Type 0) → Result E A × S → Type 0
  Post P Q (ok a, s) = P s × Q a
  Post P Q (err e, s) = P s
  Post P Q (panic, s) = P s

-- However `m` ends, P holds of the state that it leaves if it held before; what it returns is in Q.
pub record Hoare {S E A : Type 0} (P : S → Type 0) (Q : A → Type 0) (m : Exec S E A) : Type 0 where
  pub at : (s : S) → P s → Post P Q (m s)

pub Post-state :
    {S E A : Type 0} (P : S → Type 0) (Q : A → Type 0) (p : Result E A × S) → Post P Q p → P p.1
Post-state P Q (ok a, s) h = h.0
Post-state P Q (err e, s) h = h
Post-state P Q (panic, s) h = h

module _ {S E A : Type 0} (P : S → Type 0) where
  Post-weaken :
      (Q R : A → Type 0) (p : Result E A × S) → ((a : A) → Q a → R a) → Post P Q p → Post P R p
  Post-weaken Q R (ok a, s) f (h, q) = (h, f a q)
  Post-weaken Q R (err e, s) f h = h
  Post-weaken Q R (panic, s) f h = h

module _ {S E A : Type 0} {P : S → Type 0} where
  pub Hoare-pure : {Q : A → Type 0} (a : A) → Q a → Hoare {E = E} P Q (pure a)
  Hoare-pure a q = record { at = λ s h. (h, q) }

  pub Hoare-raise : {Q : A → Type 0} (e : E) → Hoare P Q (raise e)
  Hoare-raise e = record { at = λ s h. h }

  pub Hoare-weaken :
      {Q R : A → Type 0} (m : Exec S E A) → ((a : A) → Q a → R a) → Hoare P Q m → Hoare P R m
  Hoare-weaken {Q} {R} m f k = record { at = λ s h. Post-weaken P Q R (m s) f (k.at s h) }

module _ {S E A B : Type 0} (P : S → Type 0) where
  Post-continue :
      (Q : A → Type 0) (R : B → Type 0) (f : A → Exec S E B) (p : Result E A × S)
      → ((a : A) → Q a → Hoare P R (f a))
      → Post P Q p
      → Post P R (continue p.0 f p.1)
  Post-continue Q R f (ok a, s) k (h, q) = (k a q).at s h
  Post-continue Q R f (err e, s) k h = h
  Post-continue Q R f (panic, s) k h = h

module _ {S E A B : Type 0} {P : S → Type 0} where
  pub Hoare-bind :
      {Q : A → Type 0} {R : B → Type 0} (m : Exec S E A) (f : A → Exec S E B)
      → Hoare P Q m
      → ((a : A) → Q a → Hoare P R (f a))
      → Hoare P R (m >>= f)
  Hoare-bind {Q} {R} m f km kf = record { at = λ s h. Post-continue P Q R f (m s) kf (km.at s h) }

module _ {S E : Type 0} {P : S → Type 0} where
  -- Behind the test the call goes on only if it failed.
  pub Hoare-raise_if : (b : Bool) (e : E) → Hoare {S = S} P (λ _. b ≡ false) (raise_if b e)
  Hoare-raise_if true e = record { at = λ s h. h }
  Hoare-raise_if false e = record { at = λ s h. (h, refl) }
