-- ===== src/Handler/Signing/Requests.antt =====
-- Sign and Verify of handler/ as whole requests, one after the other.
use local_kms.Prelude.{◌≡◌, true, Text, is_empty, length, ltb, some, [], arith}
use mathlib.Core.List.{append-nil}
use local_kms.Config.{Env}
use local_kms.Result.{ok}
use local_kms.Exec.{bind-ok, steps, guard-ok, passes, lift}
use local_kms.Cmk.{Key, SigningAlgorithm, aes, rsa, ecc, hmac, get_arn}
use local_kms.Cmk.Signing.{Crypto}
use local_kms.Cmk.Signing.Roundtrip.{
  ecc_verify-ecc_sign, rsa_verify-rsa_sign, ecc_hash_and_verify-ecc_hash_and_sign,
  rsa_hash_and_verify-rsa_hash_and_sign,
}
use local_kms.Data.Backend.{Backend}
use local_kms.Handler.Responses.{validation}
use local_kms.Handler.Lookup.{get_usable_key}
use local_kms.Handler.Crypto.Requests.{Names, get_usable_key-get_usable_key}
use local_kms.Handler.Signing.{MessageType, is_other, sign_under, verify_under, sign, verify}

module _ (B : Backend) (env : Env) (C : Crypto) where
  verify_under-sign_under :
      (k : Key) (kind : MessageType) (m s : Text) (a : SigningAlgorithm)
      → sign_under B env C k kind m a ≡ ok s
      → verify_under B env C k kind s m a ≡ ok true
  unfolding sign_under verify_under
  verify_under-sign_under (rsa k) kind m s a h = ground (
    arith,
    rsa_verify-rsa_sign C env k m s a,
    rsa_hash_and_verify-rsa_hash_and_sign C env k m s a,
  )
  verify_under-sign_under (ecc k) kind m s a h = ground (
    arith,
    append-nil s,
    ecc_verify-ecc_sign C env k m s [] a,
    ecc_hash_and_verify-ecc_hash_and_sign C env k m s [] a,
  )
  verify_under-sign_under (aes k) kind m s a h = absurd (ground arith)
  verify_under-sign_under (hmac k) kind m s a h = absurd (ground arith)

  -- When Sign answers for a key that is named by its id or ARN, Verify, asked with the same key,
  -- message, type of message and algorithm at the same time, accepts the signature
  -- and leaves the store as it is.
  pub verify-sign :
      (id m : Text) (kind : MessageType) (a : SigningAlgorithm) (d d' : B.Store) (k : Key)
      (arn s : Text)
      → get_usable_key B env id d ≡ (ok k, d')
      → Names env id k
      → sign B env C (some id) (some m) kind (some a) d ≡ (ok (arn, s), d')
      → verify B env C (some id) (some s) (some m) kind (some a) d' ≡ (ok (arn, true), d')
  unfolding sign verify
  verify-sign id m kind a d d' k arn s found n h = elim (guard-ok _ (is_empty m) validation d h) [
    | passes e₁ h₁ ↦ elim (guard-ok _ (ltb 4096 (length m)) validation d h₁) [
      | passes e₂ h₂ ↦ elim (guard-ok _ (is_other kind) validation d h₂) [
        | passes e₃ h₃ ↦ elim (bind-ok _ (get_usable_key B env id) d h₃) [
          | steps k' t looked h₄ ↦ elim (bind-ok _ (lift (sign_under B env C k' kind m a)) t h₄) [
            | steps c u made end ↦
                let first = (get_usable_key-get_usable_key B env id k d d' n found) in
                let same : k' ≡ k = ground (arith, found, looked) in
                let made' : sign_under B env C k kind m a ≡ ok s =
                  ground (arith, same, made, end) in
                let own : get_arn k ≡ arn = ground (arith, same, end) in
                ground (arith, e₁, e₂, e₃, first, verify_under-sign_under k kind m s a made', own)
          ]
        ]
      ]
    ]
  ]
