-- ===== src/Exec/Preserves.antt =====
-- Calls that leave a property of the state as it was, whatever they return: the rules for the ways in
-- which the handlers build a call, and a set of them.
use local_kms.Prelude.{◌≡◌, Bool, true, false, Option, none, some, if◌then◌else◌}
use local_kms.Result.{Result, ok, err, panic}
use local_kms.Exec.{Exec, pure, raise, lift, raise_if, check, continue, ◌>>=◌}
use local_kms.Exec.Hoare.{Hoare, Post, Post-state}

-- P holds of the state that `m` leaves if it held before, however `m` ends.
pub record Preserves {S E A : Type 0} (P : S → Type 0) (m : Exec S E A) : Type 0 where
  pub after : (s : S) → P s → P (m s).1

module _ {S E A : Type 0} (P : S → Type 0) where
  kept-Post : (r : Result E A) (s : S) → P s → Post P (λ a. Unit {0}) (r, s)
  kept-Post (ok a) s p = (p, tt)
  kept-Post (err e) s p = p
  kept-Post panic s p = p

module _ {S E A : Type 0} {P : S → Type 0} where
  pub Preserves-Hoare : {Q : A → Type 0} (m : Exec S E A) → Hoare P Q m → Preserves P m
  Preserves-Hoare {Q} m h = record { after = λ s p. Post-state P Q (m s) (h.at s p) }

  pub Hoare-Preserves : (m : Exec S E A) → Preserves P m → Hoare P (λ a. Unit {0}) m
  Hoare-Preserves m h = record { at = λ s p. kept-Post P (m s).0 (m s).1 (h.after s p) }

  -- A call that leaves the state alone.
  pub Preserves-unchanged : (m : Exec S E A) → ((s : S) → (m s).1 ≡ s) → Preserves P m
  Preserves-unchanged m e = record { after = λ s p. rw e p }

  pub Preserves-pure : (a : A) → Preserves {E = E} P (pure a)
  Preserves-pure a = record { after = λ s p. p }

  pub Preserves-raise : (e : E) → Preserves {A = A} P (raise e)
  Preserves-raise e = record { after = λ s p. p }

  pub Preserves-lift : (r : Result E A) → Preserves P (lift r)
  Preserves-lift r = record { after = λ s p. p }

  pub Preserves-if :
      (b : Bool) (m n : Exec S E A)
      → Preserves P m
      → Preserves P n
      → Preserves P (if b then m else n)
  Preserves-if true m n p q = p
  Preserves-if false m n p q = q

module _ {S E : Type 0} {P : S → Type 0} where
  pub Preserves-raise_if : (b : Bool) (e : E) → Preserves {S = S} P (raise_if b e)
  Preserves-raise_if true e = record { after = λ s p. p }
  Preserves-raise_if false e = record { after = λ s p. p }

  pub Preserves-check : (o : Option E) → Preserves {S = S} P (check o)
  Preserves-check none = record { after = λ s p. p }
  Preserves-check (some e) = record { after = λ s p. p }

module _ {S E A B : Type 0} {P : S → Type 0} where
  kept-continue :
      (f : A → Exec S E B) (r : Result E A) (s : S)
      → ((a : A) → Preserves P (f a))
      → P s
      → P (continue r f s).1
  kept-continue f (ok a) s k p = (k a).after s p
  kept-continue f (err e) s k p = p
  kept-continue f panic s k p = p

  pub Preserves-bind :
      (m : Exec S E A) (f : A → Exec S E B)
      → Preserves P m
      → ((a : A) → Preserves P (f a))
      → Preserves P (m >>= f)
  Preserves-bind m f h k = record { after = λ s p. kept-continue f (m s).0 (m s).1 k (h.after s p) }

pub ruleset preserving = (
  Preserves-pure, Preserves-raise, Preserves-lift, Preserves-raise_if, Preserves-check,
  Preserves-if, Preserves-bind,
)
