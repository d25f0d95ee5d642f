-- ===== src/Tests/Signing.antt =====
-- Signatures, data keys and moved texts, in memory.
use local_kms.Prelude.{
  ◌≡◌, refl, true, false, ℤ, pos, negsuc, Bool, Text, codes, contains, has_prefix, text_eq,
  text_eq_refl, length, Option, some, none, [], ◌∷◌, ◌++◌, arith,
}
use local_kms.Config.{ensure_arn, arn_prefix}
use local_kms.Clock.{unix}
use local_kms.Result.{ok}
use local_kms.Cmk.{EccKey, KeySpec, KeyUsage, ecc, ecdsa_sha_256, is_pending_deletion}
use local_kms.Cmk.Algorithms.{supports}
use local_kms.Cmk.Hmac.{Hash, sha256_224, sha256, sha512_384, sha512}
use local_kms.Cmk.Signing.{Crypto, hash_size, ecc_hash_and_sign, ecc_hash_and_verify}
use local_kms.Cmk.Signing.Roundtrip.{ecc_hash_and_verify-ecc_hash_and_sign}
use local_kms.Data.Database.{unmarshal_key}
use local_kms.Data.Keys.{load_key, read_key, rotate, migrate, settle, expire, is_expired}
use local_kms.Handler.Lookup.{get_usable_key, get_key, find_key}
use local_kms.Handler.Crypto.Requests.{Names}
use local_kms.Handler.Signing.{MessageType, sign, verify, sign_under}
use local_kms.Handler.Signing.Requests.{verify-sign}
use local_kms.Tests.Memory.{memory, Store, key}
use local_kms.Tests.Samples.{env, key_arn, metadata, replicate}

-- A toy signature of ECDSA is the pair (1, 2), and is marshalled as two bytes.
abbrev pub accepts : ℤ × ℤ → Bool
accepts (pos r, pos s) = text_eq (r ∷ s ∷ []) (1 ∷ 2 ∷ [])
accepts _ = false

abbrev pub to_bytes : ℤ × ℤ → Option Text
to_bytes (pos r, pos s) = some (r ∷ s ∷ [])
to_bytes _ = none

abbrev pub of_bytes : Text → Option ((ℤ × ℤ) × Text)
of_bytes (r ∷ s ∷ rest) = some ((pos r, pos s), rest)
of_bytes _ = none

pub of_bytes-to_bytes :
    (rs : ℤ × ℤ) (t rest : Text) → to_bytes rs ≡ some t → of_bytes (t ++ rest) ≡ some (rs, rest)
of_bytes-to_bytes (pos r, pos s) t rest h =
    let same : r ∷ s ∷ [] ≡ t = ground (arith, h) in rw (← same) refl
of_bytes-to_bytes (pos r, negsuc s) t rest h = absurd (ground arith)
of_bytes-to_bytes (negsuc r, s) t rest h = absurd (ground arith)

pub length-zeros : (h : Hash) → length (replicate (hash_size h) 0) ≡ hash_size h
length-zeros sha256_224 = refl
length-zeros sha256 = refl
length-zeros sha512_384 = refl
length-zeros sha512 = refl

pub accepted : (rs : ℤ × ℤ) → some (pos 1, pos 2) ≡ some rs → accepts rs ≡ true
unfolding text_eq
accepted rs e = let same : (pos 1, pos 2) ≡ rs = ground (arith, e) in rw (← same) refl

pub marked : (d s : Text) → some (0 ∷ d) ≡ some s → text_eq s (0 ∷ d) ≡ true
marked d s e = ground (arith, e, text_eq_refl (0 ∷ d))

abbrev pub toy_crypto : Crypto
toy_crypto = record {
  digest = λ h m. replicate (hash_size h) 0;
  length-digest = λ h m. length-zeros h;
  sign_ecdsa = λ e k d. some (pos 1, pos 2);
  verify_ecdsa = λ k d rs. accepts rs;
  verify-sign_ecdsa = λ e k d rs h. accepted rs h;
  marshal = to_bytes;
  unmarshal = of_bytes;
  unmarshal-marshal = of_bytes-to_bytes;
  sign_pss = λ e k h d. some (0 ∷ d);
  verify_pss = λ k h d s. text_eq s (0 ∷ d);
  verify-sign_pss = λ e k h d s m. marked d s m;
  sign_pkcs1v15 = λ e k h d. some (0 ∷ d);
  verify_pkcs1v15 = λ k h d s. text_eq s (0 ∷ d);
  verify-sign_pkcs1v15 = λ e k h d s m. marked d s m;
}

abbrev ecc_key : EccKey
ecc_key = record {
  metadata = record metadata {
    key_usage = KeyUsage.sign_verify;
    key_spec = KeySpec.ecc_nist_p256;
    signing_algorithms = ecdsa_sha_256 ∷ [];
  };
  policy = [];
  private_key = codes "private";
}

abbrev ecc_store : Store
ecc_store = (key_arn, key (ecc ecc_key)) ∷ []

ecc_usable : get_usable_key memory env (codes "k1") ecc_store ≡ (ok (ecc ecc_key), ecc_store)
unfolding get_usable_key get_key find_key ensure_arn arn_prefix contains has_prefix load_key
    unmarshal_key text_eq read_key rotate migrate settle expire is_expired is_pending_deletion unix
ecc_usable = refl

ecc_named : Names env (codes "k1") (ecc ecc_key)
unfolding contains has_prefix ensure_arn arn_prefix rotate
ecc_named = (refl, refl, refl)

signed :
    sign memory env toy_crypto
      (some (codes "k1"))
      (some (codes "hello"))
      MessageType.unset
      (some ecdsa_sha_256)
      ecc_store
    ≡ (ok (key_arn, 1 ∷ 2 ∷ []), ecc_store)
unfolding sign sign_under ecc_hash_and_sign supports text_eq
signed = rw ecc_usable refl

verify-sign_example :
    verify memory env toy_crypto
      (some (codes "k1"))
      (some (1 ∷ 2 ∷ []))
      (some (codes "hello"))
      MessageType.unset
      (some ecdsa_sha_256)
      ecc_store
    ≡ (ok (key_arn, true), ecc_store)
verify-sign_example =
    verify-sign memory env toy_crypto (codes "k1") (codes "hello") MessageType.unset ecdsa_sha_256
      ecc_store ecc_store (ecc ecc_key) key_arn (1 ∷ 2 ∷ []) ecc_usable ecc_named signed

made : ecc_hash_and_sign toy_crypto env ecc_key (codes "hello") ecdsa_sha_256 ≡ ok (1 ∷ 2 ∷ [])
unfolding ecc_hash_and_sign supports text_eq
made = refl

ecc_hash_and_verify-ecc_hash_and_sign_example :
    ecc_hash_and_verify toy_crypto ecc_key
      ((1 ∷ 2 ∷ []) ++ codes "more")
      (codes "hello")
      ecdsa_sha_256
    ≡ ok true
ecc_hash_and_verify-ecc_hash_and_sign_example =
    ecc_hash_and_verify-ecc_hash_and_sign toy_crypto env ecc_key (codes "hello") (1 ∷ 2 ∷ [])
      (codes "more") ecdsa_sha_256 made
