-- ===== src/Handler/Rules.antt =====
-- Rules of `Hoare` for the calls that handlers are made of.
use local_kms.Prelude.{
  ◌≡◌, refl, arith, Bool, false, Text, codes, contains, Bool-cases, Option, none, some, inl, inr,
  [],
}
use local_kms.Config.{Env, ensure_arn}
use local_kms.Result.{Result, ok, err, panic}
use local_kms.Exec.{Exec, raise_if, lift, check, ◌>>=◌, ◌>>◌}
use local_kms.Exec.Hoare.{Hoare, Post, Hoare-bind, Hoare-raise_if}
use local_kms.Cmk.{KeyMetadata, get_metadata}
use local_kms.Data.{DataError}
use local_kms.Data.Backend.{Backend}
use local_kms.Data.Aliases.{load_alias}
use local_kms.Data.Keys.{load_key, reset_import}
use local_kms.Data.Keys.Sound.{IsSound, load_key-IsSound}
use local_kms.Handler.Responses.{Exception, expect, as_exception, require, not_found}
use local_kms.Handler.Lookup.{find_key, get_key}

module _ {S A : Type 0} {P : S → Type 0} where
  pub Hoare-require :
      (o : Option A) (x : Exception) → Hoare {S = S} P (λ a. o ≡ some a) (require o x)
  Hoare-require none x = record { at = λ s h. h }
  Hoare-require (some a) x = record { at = λ s h. (h, refl) }

module _ {S E A : Type 0} {P : S → Type 0} where
  pub Hoare-lift : (r : Result E A) → Hoare {S = S} P (λ a. r ≡ ok a) (lift r)
  Hoare-lift (ok a) = record { at = λ s h. (h, refl) }
  Hoare-lift (err e) = record { at = λ s h. h }
  Hoare-lift panic = record { at = λ s h. h }

module _ {S E : Type 0} {P : S → Type 0} where
  pub Hoare-check : (o : Option E) → Hoare {S = S} P (λ u. Unit {0}) (check o)
  Hoare-check none = record { at = λ s h. (h, tt) }
  Hoare-check (some e) = record { at = λ s h. h }

module _ {S A : Type 0} (P : S → Type 0) (Q : A → Type 0) where
  Post-as_exception :
      (x : Exception) (r : Result DataError A) (s : S)
      → Post P Q (r, s)
      → Post P Q (as_exception x r, s)
  Post-as_exception x (ok a) s h = h
  Post-as_exception x (err e) s h = h
  Post-as_exception x panic s h = h

module _ {S A : Type 0} {P : S → Type 0} {Q : A → Type 0} where
  pub Hoare-expect : (x : Exception) (m : Exec S DataError A) → Hoare P Q m → Hoare P Q (expect x m)
  Hoare-expect x m k = record { at = λ s h. Post-as_exception P Q x (m s).0 (m s).1 (k.at s h) }

module _ {S B : Type 0} {P : S → Type 0} {R : B → Type 0} where
  -- Behind `if b { return x }` the test failed, and behind a required field there is a value.
  pub Hoare-guard :
      (b : Bool) (x : Exception) (m : Exec S Exception B)
      → (b ≡ false → Hoare P R m)
      → Hoare P R (raise_if b x >> m)
  Hoare-guard b x m k = Hoare-bind (raise_if b x) (λ u. m) (Hoare-raise_if b x) (λ u e. k e)

  pub Hoare-given :
      {A : Type 0} (o : Option A) (x : Exception) (f : A → Exec S Exception B)
      → ((a : A) → Hoare P R (f a))
      → Hoare P R (require o x >>= f)
  Hoare-given o x f k = Hoare-bind (require o x) f (Hoare-require o x) (λ a e. k a)

-- A call that leaves the state alone keeps every property of it.
module _ {S E A : Type 0} (P : S → Type 0) where
  same-Post : (d : S) (p : Result E A × S) → P d → p.1 ≡ d → Post P (λ a. Unit {0}) p
  same-Post d (ok a, t) h e = (rw e h, tt)
  same-Post d (err x, t) h e = rw e h
  same-Post d (panic, t) h e = rw e h

module _ {S E A : Type 0} {P : S → Type 0} where
  pub Hoare-unchanged : (m : Exec S E A) → ((s : S) → (m s).1 ≡ s) → Hoare P (λ a. Unit {0}) m
  Hoare-unchanged m e = record { at = λ s h. same-Post P s (m s) h (e s) }

pub load_alias_same : (B : Backend) (arn : Text) (d : B.Store) → (load_alias B arn d).1 ≡ d
unfolding load_alias
load_alias_same B arn d = ground arith

module _ (B : Backend) (env : Env) (C : KeyMetadata → Type 0)
    (renamed : (m : KeyMetadata) → C m → C (record m { key_spec = m.customer_master_key_spec }))
    (reset : (m : KeyMetadata) → C m → C (reset_import m)) where
  pub find_key-IsSound :
      (id : Text) → Hoare (IsSound B C) (λ k. C (get_metadata k)) (find_key B env id)
  unfolding find_key
  find_key-IsSound id =
      Hoare-expect not_found (load_key B env (ensure_arn env (codes "key/") id))
        (load_key-IsSound B C env renamed reset (ensure_arn env (codes "key/") id))

  pub get_key-IsSound :
      (id : Text) → Hoare (IsSound B C) (λ k. C (get_metadata k)) (get_key B env id)
  unfolding get_key
  get_key-IsSound id = elim (Bool-cases (contains (codes "alias/") id)) [
    | inl named ↦ rw named (
        Hoare-bind (expect not_found (load_alias B (ensure_arn env [] id))) _
          (Hoare-expect not_found (load_alias B (ensure_arn env [] id)) (
            Hoare-unchanged (load_alias B (ensure_arn env [] id))
              (load_alias_same B (ensure_arn env [] id))))
          λ a u. find_key-IsSound a.target_key_id)
    | inr plain ↦ rw plain (find_key-IsSound id)
  ]
