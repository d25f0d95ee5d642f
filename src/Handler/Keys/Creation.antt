-- ===== src/Handler/Keys/Creation.antt =====
-- What handler/create_key.go leaves in the store.
use local_kms.Prelude.{
  ◌≡◌, ap, sym, ◌∙◌, false, Text, codes, text_eq, text_eq_iff, length-append, ◌++◌, some, List, [],
  ◌∷◌, arith,
}
use local_kms.Config.{Env}
use local_kms.Result.{ok}
use local_kms.Exec.{bind-ok, steps, guard-ok, passes, check, lift, pure, ◌>>◌}
use local_kms.Cmk.{Key, KeyMetadata, initialize, get_arn}
use local_kms.Data.{Tag}
use local_kms.Data.Backend.{Backend}
use local_kms.Data.Database.{put_object, validate_tag_data}
use local_kms.Data.Database.Writes.{put_object-Sets}
use local_kms.Data.Tags.{tag_name, save_tag}
use local_kms.Data.Keys.{save_key, read_key}
use local_kms.Data.Keys.Saving.{read-save_key}
use local_kms.Data.Keys.Stored.{stored, stored_of-read_key, read_key_of-stored}
use local_kms.Handler.Responses.{expect, internal_failure, require, validation}
use local_kms.Handler.Tags.{TagInput, tag_of, validate_tags, save_tags}
use local_kms.Cmk.Generate.{Generators}
use local_kms.Handler.Keys.{
  CreateKeyInput, DefaultPolicy, longer, policy_or, describe, empty_metadata, apply_origin,
  make_key, resolve_spec, create_key,
}

-- A tag is never stored in the place of its key.
tag_name_ne : (arn k : Text) → text_eq (tag_name arn k) arn ≡ false
unfolding tag_name
tag_name_ne arn k = ground (
  arith,
  text_eq_iff (arn ++ (codes "/tag/" ++ k)) arn,
  length-append arn (codes "/tag/" ++ k),
  length-append (codes "/tag/") k,
)

module _ (B : Backend) (env : Env) where
  open B use {Store, get}

  save_tag-stored :
      (key : Key) (t : Tag) (d d' : Store)
      → save_tag B env key t d ≡ (ok tt, d')
      → stored B d' (get_arn key) ≡ stored B d (get_arn key)
  unfolding save_tag validate_tag_data stored
  save_tag-stored key t d d' h =
      let name = tag_name (get_arn key) t.tag_key in
      let done : put_object B env name (B.encode_tag t) d ≡ (ok tt, d') =
        rw (B.tag-encode t) at h in
      let written = rw done at (put_object-Sets B env name (B.encode_tag t) d) in
      ground (arith, written (get_arn key), tag_name_ne (get_arn key) t.tag_key)

  -- Tags that are saved leave their key as it is stored.
  pub save_tags-stored :
      (key : Key) (ts : List TagInput) (d d' : Store)
      → save_tags B env key ts d ≡ (ok tt, d')
      → stored B d' (get_arn key) ≡ stored B d (get_arn key)
  unfolding save_tags
  save_tags-stored key [] d d' h = ap (λ p. stored B p.1 (get_arn key)) (sym h)
  save_tags-stored key (t ∷ ts) d d' h = elim (bind-ok _ (lift (tag_of t)) d h) [
    | steps tag d₁ read h₁ ↦
        elim (bind-ok _ (expect internal_failure (save_tag B env key tag)) d₁ h₁) [
          | steps u d₂ saved h₂ ↦
              save_tags-stored key ts d₂ d' h₂
              ∙ save_tag-stored key tag d₁ d₂ (ground arith)
              ∙ ap (λ p. stored B p.1 (get_arn key)) (sym read)
        ]
  ]

  save_then_tags :
      (key : Key) (ts : List TagInput) (k : Key) (d d' : Store)
      → (expect internal_failure (save_key B env key) >> (save_tags B env key ts >> pure key)) d
        ≡ (ok k, d')
      → read_key B (get_arn k) d' ≡ (ok k, d')
  save_then_tags key ts k d d' h =
      elim (bind-ok _ (expect internal_failure (save_key B env key)) d h) [
        | steps u t saved h₁ ↦ elim (bind-ok _ (save_tags B env key ts) t h₁) [
          | steps v w tagged end ↦
              let there =
                stored_of-read_key B (get_arn key) t t key
                  (read-save_key B env key d t (ground arith)).0 in
              let still : stored B w (get_arn key) ≡ some key =
                save_tags-stored key ts t w tagged ∙ there in
              let same : key ≡ k = ground arith in
              let last : w ≡ d' = ap (λ p. p.1) end in
              rw (← same, ← last) (read_key_of-stored B (get_arn key) w key still)
        ]
      ]

  abbrev new_metadata : Text → CreateKeyInput → KeyMetadata
  new_metadata id body = describe body.description (initialize env id empty_metadata)

  abbrev new_policy : DefaultPolicy → CreateKeyInput → Text
  new_policy default body = policy_or (default.policy_for env.aws_account_id) body.policy

  -- A key that was created is what a read of its ARN gives afterwards, whatever its kind and tags.
  pub read_key-create_key :
      (g : Generators) (default : DefaultPolicy) (body : CreateKeyInput) (d d' : Store) (k : Key)
      → create_key B env g default body d ≡ (ok k, d')
      → read_key B (get_arn k) d' ≡ (ok k, d')
  unfolding create_key
  read_key-create_key g default body d d' k h =
      elim (bind-ok _ (require env.uuid internal_failure) d h) [
        | steps id d₁ _ h₁ ↦ elim (guard-ok _ (longer 8192 body.description) validation d₁ h₁) [
          | passes _ h₂ ↦ elim (guard-ok _ (longer 32768 body.policy) validation d₁ h₂) [
            | passes _ h₃ ↦ elim (bind-ok _ (check (validate_tags body.tags)) d₁ h₃) [
              | steps _ d₂ _ h₄ ↦
                  elim (bind-ok _ (lift (resolve_spec body.key_spec body.customer_master_key_spec))
                    d₂ h₄) [
                      | steps spec d₃ _ h₅ ↦
                          elim (bind-ok _
                            (lift (apply_origin body.origin spec (new_metadata id body))) d₃ h₅) [
                              | steps m d₄ _ h₆ ↦
                                  elim (bind-ok _
                                    (lift (
                                      make_key g env m (new_policy default body) spec
                                        body.key_usage))
                                    d₄ h₆) [
                                      | steps key d₅ _ h₇ ↦ save_then_tags key body.tags k d₅ d' h₇
                                    ]
                            ]
                    ]
            ]
          ]
        ]
      ]
