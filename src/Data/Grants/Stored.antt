-- ===== src/Data/Grants/Stored.antt =====
-- data/database_grant.go: grants that are saved, found by their token, and filtered.
use local_kms.Prelude.{
  ◌≡◌, refl, ◌↔◌, ◌⊎◌, Bool, true, false, Text, is_empty, text_eq, text_eq_refl, text_eq_iff, none,
  some, List, [], ◌∷◌, ◌++◌, inl, inr, arith, Option-cases, Bool-cases,
}
use local_kms.Config.{Env}
use local_kms.Result.{ok, err}
use local_kms.Data.{Grant, not_found}
use local_kms.Data.Backend.{Backend}
use local_kms.Data.Database.{validate_grant_data}
use local_kms.Data.Database.Writes.{Sets, put_object-Sets, delete_object-Sets}
use local_kms.Data.Grants.{
  GrantFilter, differs, matches, grant_storage_key, save_grant, load_grant, delete_grant, find_in,
}

-- A field of the filter that is not empty is the grant's.
abbrev pub Allows : Text → Text → Type 0
Allows f g = (is_empty f ≡ true) ⊎ (g ≡ f)

differs_iff : (f g : Text) → (differs f g ≡ false) ↔ Allows f g
unfolding differs
differs_iff f g = ground (arith, text_eq_iff g f)

-- A grant matches a filter when each of the six fields that the filter sets is the grant's.
pub matches_iff :
    (f : GrantFilter) (g : Grant)
    → (matches f g ≡ true) ↔ (
        Allows f.key_arn g.key_arn
        × Allows f.grant_id g.grant_id
        × Allows f.grantee_principal g.grantee_principal
        × Allows f.grantee_service_principal g.grantee_service_principal
        × Allows f.retiring_principal g.retiring_principal
        × Allows f.retiring_service_principal g.retiring_service_principal)
unfolding matches
matches_iff f g = ground (
  arith,
  differs_iff f.key_arn g.key_arn,
  differs_iff f.grant_id g.grant_id,
  differs_iff f.grantee_principal g.grantee_principal,
  differs_iff f.grantee_service_principal g.grantee_service_principal,
  differs_iff f.retiring_principal g.retiring_principal,
  differs_iff f.retiring_service_principal g.retiring_service_principal,
)

module _ (B : Backend) where
  open B use {Store, Value, get, iterate, encode_grant, decode_grant}

  pub save_grant-Sets :
      (env : Env) (g : Grant) (d : Store)
      → Sets B d (grant_storage_key g.grant_id) (some (encode_grant g)) (save_grant B env g d)
  unfolding save_grant validate_grant_data
  save_grant-Sets env g d =
      rw (B.grant-encode g)
        (put_object-Sets B env (grant_storage_key g.grant_id) (encode_grant g) d)

  -- After a save that returns no error, a load by the grant's id gives the grant, and after a
  -- deletion of it from there the grant is not found.
  pub load-save_grant :
      (env : Env) (g : Grant) (d d' d'' : Store)
      → save_grant B env g d ≡ (ok tt, d')
      → delete_grant B env g.grant_id d' ≡ (ok tt, d'')
      → (load_grant B g.grant_id d' ≡ (ok g, d'))
        × (load_grant B g.grant_id d'' ≡ (err not_found, d''))
  unfolding load_grant delete_grant
  load-save_grant env g d d' d'' h h' =
      let name = grant_storage_key g.grant_id in
      let written = rw h at (save_grant-Sets env g d) in
      let deleted = rw h' at (delete_object-Sets B env name d') in
      (
        ground (arith, written name, text_eq_refl name, B.grant-encode g),
        ground (arith, deleted name, text_eq_refl name),
      )

  -- Every entry of the list is a grant with another token.
  abbrev pub NoToken : Text → List (Text × Value) → Type 0
  NoToken token [] = Unit
  NoToken token ((name, v) ∷ es) =
      ((g : Grant) × (decode_grant v ≡ some g) × (text_eq g.grant_token token ≡ false))
      × NoToken token es

  -- Where the first of the entries that is not a grant with another token.
  pub data At (token : Text) (g : Grant) (es : List (Text × Value)) : Type 0 where
    at :
        (pre post : List (Text × Value)) (name : Text) (v : Value)
        → es ≡ pre ++ (name, v) ∷ post
        → NoToken token pre
        → decode_grant v ≡ some g
        → g.grant_token ≡ token
        → At token g es

  later :
      (token : Text) (g h : Grant) (name : Text) (v : Value) (es : List (Text × Value))
      → decode_grant v ≡ some h
      → text_eq h.grant_token token ≡ false
      → At token g es
      → At token g ((name, v) ∷ es)
  later token g h name v es e ne (at pre post n w split others d t) =
      at ((name, v) ∷ pre) post n w (rw split refl) ((h, e, ne), others) d t

  -- The grant that a search by token finds is one with that token, and all entries before it are
  -- grants with other tokens.
  pub find_in-At :
      (token : Text) (failed : Bool) (es : List (Text × Value)) (g : Grant)
      → find_in B token failed es ≡ ok (some g)
      → At token g es
  unfolding find_in
  find_in-At token failed [] g h = absurd (ground arith)
  find_in-At token failed ((name, v) ∷ es) g h = elim (Option-cases (decode_grant v)) [
    | inl unreadable ↦ absurd (ground arith)
    | inr (g', e) ↦ elim (Bool-cases (text_eq g'.grant_token token)) [
      | inl same ↦
          at [] es name v refl tt (ground arith) (ground (arith, text_eq_iff g'.grant_token token))
      | inr ne ↦ later token g g' name v es e ne (find_in-At token failed es g (ground arith))
    ]
  ]

  -- If every entry is a grant with another token, none is found.
  pub find_in-none :
      (token : Text) (es : List (Text × Value))
      → NoToken token es
      → find_in B token false es ≡ ok none
  unfolding find_in
  find_in-none token [] others = refl
  find_in-none token ((name, v) ∷ es) ((g, e, ne), others) =
      ground (arith, find_in-none token es others)
