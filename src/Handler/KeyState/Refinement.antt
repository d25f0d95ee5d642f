-- ===== src/Handler/KeyState/Refinement.antt =====
-- The table of key states that handler/enable_key.go, disable_key.go, schedule_key_deletion.go and
-- cancel_key_deletion.go implement.
use local_kms.Prelude.{
  ◌≡◌, ◌≢◌, refl, sym, ap, ◌∙◌, ◌||◌, false, Text, Option, none, some, ℤ, below, above, to_nat,
  arith,
}
use local_kms.Config.{Env}
use local_kms.Clock.{add_days}
use local_kms.Result.{Result, ok, err, panic}
use local_kms.Cmk.{Key, KeyMetadata, KeyState, get_metadata, set_metadata, get_arn}
use local_kms.Data.{DataError}
use local_kms.Data.Backend.{Backend}
use local_kms.Data.Keys.{save_key, read_key}
use local_kms.Data.Keys.Saving.{read-save_key, save_key-Sets}
use local_kms.Data.Keys.Loading.{get-set_metadata}
use local_kms.Data.Database.Writes.{Sets}
use local_kms.Exec.{pure, ◌>>◌}
use local_kms.Handler.Responses.{Exception, Api, expect, kms_invalid_state, internal_failure}
use local_kms.Handler.Lookup.{find_key, get_key}
use local_kms.Handler.KeyState.{
  enable, disable, schedule, cancel, window, update, enable_key, disable_key, schedule_key_deletion,
  cancel_key_deletion,
}

-- What is asked of a key.
pub data Event : Type 0 where
  enabling disabling cancelling : Event
  scheduling : Option ℤ → Event

-- The states of a key and the events that they allow: a key that waits for its deletion can only be
-- kept, which leaves it disabled, and one that waits for its material can only be scheduled.
pub next : Event → KeyState → Option KeyState
next Event.enabling KeyState.pending_deletion = none
next Event.enabling KeyState.pending_import = none
next Event.enabling s = some KeyState.enabled
next Event.disabling KeyState.pending_deletion = none
next Event.disabling KeyState.pending_import = none
next Event.disabling s = some KeyState.disabled
next (Event.scheduling days) KeyState.pending_deletion = none
next (Event.scheduling days) s = some KeyState.pending_deletion
next Event.cancelling KeyState.pending_deletion = some KeyState.disabled
next Event.cancelling s = none

-- The window of days is one that AWS allows.
abbrev pub Allowed : Event → Type 0
Allowed (Event.scheduling days) = (below (window days) 7 || above (window days) 30) ≡ false
Allowed _ = Unit

module _ (B : Backend) (env : Env) where
  open B use {Store, get}

  abbrev pub find : Event → Text → Api B Key
  find Event.enabling = get_key B env
  find Event.disabling = get_key B env
  find Event.cancelling = find_key B env
  find (Event.scheduling days) = find_key B env

  abbrev pub request : Event → Text → Api B Key
  request Event.enabling id = enable_key B env (some id)
  request Event.disabling id = disable_key B env (some id)
  request Event.cancelling id = cancel_key_deletion B env (some id)
  request (Event.scheduling days) id = schedule_key_deletion B env (some id) days

  -- How a request ended for a key that was found with the store t, if the table allows the event and
  -- leads to the state q: the key is stored in this state, and nothing else has changed; or the write
  -- failed, and nothing has changed.
  pub data Moved (k : Key) (t : Store) (q : KeyState) (p : Result Exception Key × Store)
      : Type 0 where
    moved :
        (k' : Key) (d' : Store)
        → p ≡ (ok k', d')
        → (get_metadata k').key_state ≡ q
        → get_arn k' ≡ get_arn k
        → read_key B (get_arn k) d' ≡ (ok k', d')
        → ((j : Text) → get_arn k ≢ j → get d' j ≡ get t j)
        → Moved k t q p
    unwritten : p ≡ (err internal_failure, t) → Moved k t q p

  -- The reply is the table's.
  abbrev pub Follows : Option KeyState → Key → Store → Result Exception Key × Store → Type 0
  Follows none k t p = p ≡ (err kms_invalid_state, t)
  Follows (some q) k t p = Moved k t q p

  saved-Moved :
      (k k' : Key) (t d' : Store) (q : KeyState) (r : Result DataError Unit)
      → save_key B env k' t ≡ (r, d')
      → (get_metadata k').key_state ≡ q
      → get_arn k' ≡ get_arn k
      → Sets B t (get_arn k') (some (B.encode_key k')) (r, d')
      → Moved k t q ((expect internal_failure (save_key B env k') >> pure k') t)
  saved-Moved k k' t d' q (ok u) e state own s =
      let (written, others) = read-save_key B env k' t d' e in
      moved k' d' (ground (arith, e)) state own (rw (← own) written)
        (λ j ne. others j (λ same. ne (sym own ∙ same)))
  saved-Moved k k' t d' q (err x) e state own s = unwritten (ground (arith, e, s))
  saved-Moved k k' t d' q panic e state own s = absurd s

  update-Moved :
      (f : KeyMetadata → KeyMetadata) (k : Key) (t : Store) (q : KeyState)
      → (f (get_metadata k)).key_state ≡ q
      → (f (get_metadata k)).arn ≡ get_arn k
      → Moved k t q (update B env f k t)
  update-Moved f k t q state own =
      let k' = set_metadata k (f (get_metadata k)) in
      saved-Moved k k' t (save_key B env k' t).1 q (save_key B env k' t).0 refl
        (rw (get-set_metadata k) state)
        (ap (λ m. m.arn) (get-set_metadata k (f (get_metadata k))) ∙ own) (save_key-Sets B env k' t)

  request-Follows_at :
      (e : Event) (s : KeyState) (id : Text) (d t : Store) (k : Key)
      → Allowed e
      → find e id d ≡ (ok k, t)
      → (get_metadata k).key_state ≡ s
      → Follows (next e s) k t (request e id d)
  unfolding next enable_key disable_key schedule_key_deletion cancel_key_deletion enable disable
      schedule cancel
  request-Follows_at Event.enabling KeyState.pending_deletion id d t k a f h = rw (f, h) refl
  request-Follows_at Event.enabling KeyState.pending_import id d t k a f h = rw (f, h) refl
  request-Follows_at Event.enabling s id d t k a f h =
      rw (f, h) (update-Moved enable k t KeyState.enabled refl refl)
  request-Follows_at Event.disabling KeyState.pending_deletion id d t k a f h = rw (f, h) refl
  request-Follows_at Event.disabling KeyState.pending_import id d t k a f h = rw (f, h) refl
  request-Follows_at Event.disabling s id d t k a f h =
      rw (f, h) (update-Moved disable k t KeyState.disabled refl refl)
  request-Follows_at Event.cancelling KeyState.pending_deletion id d t k a f h =
      rw (f, h) (update-Moved cancel k t KeyState.disabled refl refl)
  request-Follows_at Event.cancelling s id d t k a f h = rw (f, h) refl
  request-Follows_at (Event.scheduling days) KeyState.pending_deletion id d t k a f h =
      rw (a, f, h) refl
  request-Follows_at (Event.scheduling days) s id d t k a f h =
      rw (a, f, h)
        (update-Moved (schedule (add_days (to_nat (window days)) env.now)) k t
          KeyState.pending_deletion refl refl)

  -- The four handlers implement the table: when a key is found, an event that the table does not allow
  -- in the key's state ends in KMSInvalidStateException and writes nothing, and any other stores the
  -- key in the state that the table gives, under its ARN, and changes no other entry, or ends in
  -- InternalFailure with nothing written. A window of days is within 7 to 30.
  pub request-Follows :
      (e : Event) (id : Text) (d t : Store) (k : Key)
      → Allowed e
      → find e id d ≡ (ok k, t)
      → Follows (next e (get_metadata k).key_state) k t (request e id d)
  request-Follows e id d t k a f = request-Follows_at e (get_metadata k).key_state id d t k a f refl
