-- ===== src/Handler/Consistency.antt =====
-- The consistency of key metadata, for the lookups of handler/helpers.go and the saves of handlers.
use local_kms.Prelude.{◌≡◌, ◌≢◌, true, Text, arith}
use local_kms.Config.{Env}
use local_kms.Exec.{Exec, ◌>>◌}
use local_kms.Exec.Hoare.{Hoare, Hoare-bind}
use local_kms.Cmk.{Key, KeyMetadata, KeyState, get_metadata}
use local_kms.Data.Backend.{Backend}
use local_kms.Data.Keys.{save_key, reset_import}
use local_kms.Data.Keys.Sound.{IsSound, save_key-IsSound}
use local_kms.Handler.Responses.{Exception, expect, internal_failure}
use local_kms.Handler.Lookup.{find_key, get_key}
use local_kms.Handler.Rules.{Hoare-expect, find_key-IsSound, get_key-IsSound}

-- A key is enabled exactly in the state Enabled, and one that is pending deletion has a date.
pub record IsConsistent (m : KeyMetadata) : Type 0 where
  pub on : m.enabled ≡ true → m.key_state ≡ KeyState.enabled
  pub off : m.key_state ≡ KeyState.enabled → m.enabled ≡ true
  pub dated : m.key_state ≡ KeyState.pending_deletion → m.deletion_date ≢ 0

pub IsConsistent-renamed :
    (m : KeyMetadata)
    → IsConsistent m
    → IsConsistent (record m { key_spec = m.customer_master_key_spec })
IsConsistent-renamed m c = record { on = c.on; off = c.off; dated = c.dated }

pub IsConsistent-reset : (m : KeyMetadata) → IsConsistent m → IsConsistent (reset_import m)
unfolding reset_import
IsConsistent-reset m c = ground arith

module _ (B : Backend) (env : Env) where
  abbrev pub AllConsistent : B.Store → Type 0
  AllConsistent = IsSound B IsConsistent

  abbrev pub Returned : Key → Type 0
  Returned k = IsConsistent (get_metadata k)

  pub find-AllConsistent : (id : Text) → Hoare AllConsistent Returned (find_key B env id)
  find-AllConsistent = find_key-IsSound B env IsConsistent IsConsistent-renamed IsConsistent-reset

  pub get-AllConsistent : (id : Text) → Hoare AllConsistent Returned (get_key B env id)
  get-AllConsistent = get_key-IsSound B env IsConsistent IsConsistent-renamed IsConsistent-reset

  -- The save that ends a handler.
  pub expect-AllConsistent :
      (k : Key)
      → Returned k
      → Hoare AllConsistent (λ u. Unit {0}) (expect internal_failure (save_key B env k))
  expect-AllConsistent k c =
      Hoare-expect internal_failure (save_key B env k) (save_key-IsSound B IsConsistent env k c)

  -- A save that ends a handler, and its reply.
  pub saved-AllConsistent :
      {A : Type 0} {Q : A → Type 0} (k : Key) (m : Exec B.Store Exception A)
      → Returned k
      → Hoare AllConsistent Q m
      → Hoare AllConsistent Q (expect internal_failure (save_key B env k) >> m)
  saved-AllConsistent k m c h =
      Hoare-bind (expect internal_failure (save_key B env k)) (λ u. m) (expect-AllConsistent k c)
        (λ u q. h)
