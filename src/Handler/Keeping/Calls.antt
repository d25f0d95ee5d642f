-- ===== src/Handler/Keeping/Calls.antt =====
-- The calls of handlers, and the rules for them: the fields of a request, the errors of the database,
-- the lookups, and the writes of what is no key.
use local_kms.Prelude.{Text, Option, none, some}
use local_kms.Config.{Env}
use local_kms.Result.{Result, ok, err, panic}
use local_kms.Exec.{Exec}
use local_kms.Exec.Preserves.{Preserves, Preserves-Hoare, preserving}
use local_kms.Data.{DataError}
use local_kms.Data.Backend.{Backend}
use local_kms.Handler.Responses.{Exception, require, expect, attempt}
use local_kms.Handler.Listing.{expect_list}
use local_kms.Handler.Lookup.{find_key, get_key, get_usable_key}
use local_kms.Handler.Consistency.{AllConsistent, find-AllConsistent, get-AllConsistent}

module _ {S A : Type 0} (P : S → Type 0) where
  kept-attempt : (r : Result DataError A) (s : S) → P s → P (attempt (λ t. (r, s)) s).1
  kept-attempt (ok a) s p = p
  kept-attempt (err e) s p = p
  kept-attempt panic s p = p

  kept-expect_list : (r : Result DataError A) (s : S) → P s → P (expect_list (λ t. (r, s)) s).1
  kept-expect_list (ok a) s p = p
  kept-expect_list (err e) s p = p
  kept-expect_list panic s p = p

module _ {S A : Type 0} {P : S → Type 0} where
  pub Preserves-require : (o : Option A) (x : Exception) → Preserves {S = S} P (require o x)
  Preserves-require none x = record { after = λ s p. p }
  Preserves-require (some a) x = record { after = λ s p. p }

  pub Preserves-expect :
      (x : Exception) (m : Exec S DataError A) → Preserves P m → Preserves P (expect x m)
  Preserves-expect x m h = record { after = λ s p. h.after s p }

  pub Preserves-attempt : (m : Exec S DataError A) → Preserves P m → Preserves P (attempt m)
  Preserves-attempt m h = record { after = λ s p. kept-attempt P (m s).0 (m s).1 (h.after s p) }

  pub Preserves-expect_list : (m : Exec S DataError A) → Preserves P m → Preserves P (expect_list m)
  Preserves-expect_list m h = record {
    after = λ s p. kept-expect_list P (m s).0 (m s).1 (h.after s p);
  }

module _ (B : Backend) (env : Env) where
  abbrev pub Keeps : {E A : Type 0} → Exec B.Store E A → Type 0
  Keeps m = Preserves (AllConsistent B env) m

  pub Keeps-find_key : (id : Text) → Keeps (find_key B env id)
  Keeps-find_key id = Preserves-Hoare (find_key B env id) (find-AllConsistent B env id)

  pub Keeps-get_key : (id : Text) → Keeps (get_key B env id)
  Keeps-get_key id = Preserves-Hoare (get_key B env id) (get-AllConsistent B env id)

  pub Keeps-get_usable_key : (id : Text) → Keeps (get_usable_key B env id)
  unfolding get_usable_key
  Keeps-get_usable_key id = search (preserving, Keeps-get_key)

pub ruleset handling = (
  preserving, Preserves-require, Preserves-expect, Preserves-attempt, Preserves-expect_list,
  Keeps-find_key, Keeps-get_key, Keeps-get_usable_key,
)
