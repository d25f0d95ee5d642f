-- ===== src/Data/Keys/Sound.antt =====
-- A property of key metadata that holds of every key in a store, and the calls that keep it.
use local_kms.Prelude.{
  ◌≡◌, refl, ap, sym, ◌∙◌, Bool, true, false, Text, text_eq, Bool-cases, Option, none, some, arith,
  if◌then◌else◌, inl, inr,
}
use mathlib.Core.Path.{subst}
use local_kms.Config.{Env}
use local_kms.Result.{Result, ok, err, panic}
use local_kms.Exec.{pure, raise}
use local_kms.Exec.Hoare.{Hoare, Hoare-pure, Hoare-raise, Hoare-bind, Post}
use local_kms.Cmk.{Key, KeyMetadata, get_arn, get_metadata, set_metadata, is_pending_deletion}
use local_kms.Data.{DataError, not_found}
use local_kms.Data.Backend.{Backend}
use local_kms.Data.Database.{delete_object}
use local_kms.Data.Keys.{
  save_key, save_if, read_key, load_key, settle, expire, rotate, migrate, reset_import, is_expired,
  is_unset,
}
use local_kms.Data.Keys.Loading.{get-set_metadata, metadata-rotate}
use local_kms.Data.Keys.Stored.{
  stored, SetsKey, save_key-SetsKey, delete_object-SetsKey, stored_of-read_key,
}
use local_kms.Data.Keys.Saving.{read_key_same}

module _ (B : Backend) (C : KeyMetadata → Type 0) where
  -- C holds of the metadata of every key that is stored.
  pub record IsSound (d : B.Store) : Type 0 where
    pub at_name : (arn : Text) (k : Key) → stored B d arn ≡ some k → C (get_metadata k)

  set-IsSound :
      (d d' : B.Store) (name : Text) (o : Option Key)
      → ((k : Key) → o ≡ some k → C (get_metadata k))
      → IsSound d
      → ((j : Text) → stored B d' j ≡ (if text_eq name j then o else stored B d j))
      → IsSound d'
  set-IsSound d d' name o c h s = record {
    at_name = λ arn k e. elim (Bool-cases (text_eq name arn)) [
      | inl same ↦ c k (ground (arith, s arn))
      | inr other ↦ h.at_name arn k (ground (arith, s arn))
    ];
  }

  pub SetsKey-Post :
      (d : B.Store) (name : Text) (o : Option Key) (p : Result DataError Unit × B.Store)
      → ((k : Key) → o ≡ some k → C (get_metadata k))
      → IsSound d
      → SetsKey B d name o p
      → Post IsSound (λ u. Unit {0}) p
  SetsKey-Post d name o (ok u, d') c h s = (set-IsSound d d' name o c h s, tt)
  SetsKey-Post d name o (err e, d') c h s = rw s h
  SetsKey-Post d name o (panic, d') c h s = absurd s

  module _ (env : Env) where
    pub save_key-IsSound :
        (k : Key) → C (get_metadata k) → Hoare IsSound (λ u. Unit {0}) (save_key B env k)
    save_key-IsSound k c = record {
      at = λ d h.
          SetsKey-Post d (get_arn k) (some k) (save_key B env k d)
            (λ k' e. let same : k ≡ k' = cc in subst (λ x. C (get_metadata x)) same c) h
            (save_key-SetsKey B env k d);
    }

    pub delete_object-IsSound :
        (name : Text) → Hoare IsSound (λ u. Unit {0}) (delete_object B env name)
    delete_object-IsSound name = record {
      at = λ d h.
          SetsKey-Post d name none (delete_object B env name d) (λ k e. absurd (ground arith)) h
            (delete_object-SetsKey B env name d);
    }

    save_if-IsSound :
        (b : Bool) (k : Key)
        → C (get_metadata k)
        → Hoare IsSound (λ u. Unit {0}) (save_if B b env k)
    save_if-IsSound true k c = save_key-IsSound k c
    save_if-IsSound false k c = Hoare-pure tt tt

    read-Post :
        (arn : Text) (d : B.Store) (p : Result DataError Key × B.Store)
        → IsSound d
        → read_key B arn d ≡ p
        → Post IsSound (λ k. C (get_metadata k)) p
    read-Post arn d (r, t) h e = go r t e (sym (read_key_same B arn d) ∙ ap (λ p. p.1) e)
      where
        go :
            (r : Result DataError Key) (t : B.Store)
            → read_key B arn d ≡ (r, t)
            → d ≡ t
            → Post IsSound (λ k. C (get_metadata k)) (r, t)
        go (ok k) t e same =
            (subst IsSound same h, h.at_name arn k (stored_of-read_key B arn d t k e))
        go (err x) t e same = subst IsSound same h
        go panic t e same = subst IsSound same h

    read_key-IsSound : (arn : Text) → Hoare IsSound (λ k. C (get_metadata k)) (read_key B arn)
    read_key-IsSound arn = record { at = λ d h. read-Post arn d (read_key B arn d) h refl }

  -- What a load changes in the metadata keeps C.
  module _ (env : Env)
      (renamed : (m : KeyMetadata) → C m → C (record m { key_spec = m.customer_master_key_spec }))
      (reset : (m : KeyMetadata) → C m → C (reset_import m)) where
    migrated : (k : Key) → C (get_metadata k) → C (get_metadata (migrate k))
    unfolding migrate
    migrated k c = elim (Bool-cases (is_unset (get_metadata k).key_spec)) [
      | inl old ↦ rw (old, get-set_metadata k) (renamed (get_metadata k) c)
      | inr new ↦ rw new c
    ]

    expire-IsSound :
        (k : Key) → C (get_metadata k) → Hoare IsSound (λ k. C (get_metadata k)) (expire B env k)
    unfolding expire
    expire-IsSound k c = elim (Bool-cases (is_expired env (get_metadata k))) [
      | inl old ↦
          let k' = set_metadata k (reset_import (get_metadata k)) in
          let c' : C (get_metadata k') = rw (get-set_metadata k) (reset (get_metadata k) c) in
          rw old (
            Hoare-bind (save_key B env k') (λ u. pure k') (save_key-IsSound env k' c')
              (λ u q. Hoare-pure k' c'))
      | inr new ↦ rw new (Hoare-pure k c)
    ]

    settle-IsSound :
        (arn : Text) (k : Key)
        → C (get_metadata k)
        → Hoare IsSound (λ k. C (get_metadata k)) (settle B env arn k)
    unfolding settle
    settle-IsSound arn k c = elim (Bool-cases (is_pending_deletion env (get_metadata k))) [
      | inl gone ↦ rw gone (
          Hoare-bind (delete_object B env arn) (λ u. raise not_found)
            (delete_object-IsSound env arn) (λ u q. Hoare-raise not_found))
      | inr there ↦ rw there (expire-IsSound k c)
    ]

    -- A load keeps C of all stored keys, and returns a key in C.
    pub load_key-IsSound :
        (arn : Text) → Hoare IsSound (λ k. C (get_metadata k)) (load_key B env arn)
    unfolding load_key
    load_key-IsSound arn = Hoare-bind (read_key B arn) _ (read_key-IsSound env arn) λ k c.
        let c' : C (get_metadata (rotate env k).0) = rw (metadata-rotate env k) c in
        Hoare-bind (save_if B (rotate env k).1 env (rotate env k).0) _
          (save_if-IsSound env (rotate env k).1 (rotate env k).0 c')
          λ u q. settle-IsSound arn (migrate (rotate env k).0) (migrated (rotate env k).0 c')
