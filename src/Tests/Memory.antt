-- ===== src/Tests/Memory.antt =====
-- A store in memory whose values are the records themselves, and toy ciphers.
use local_kms.Prelude.{
  ℕ, zero, suc, ◌≡◌, refl, false, Text, text_eq, text_eq_iff, has_prefix, Option, none, some, List,
  [], ◌∷◌, ◌++◌, length-append, filter, if◌then◌else◌, arith,
}
use local_kms.Cmk.{Key, AesKey, RsaKey, EccKey, HmacKey, aes, rsa, ecc, hmac}
use local_kms.Cmk.Encryption.{Aead}
use local_kms.Cmk.Rsa.{Oaep}
use local_kms.Data.{Alias, Tag, Grant}
use local_kms.Data.Backend.{Backend, type_of}

pub data Value : Type 0 where
  key : Key → Value
  alias : Alias → Value
  tag : Tag → Value
  grant : Grant → Value
  garbage : Value

abbrev pub Store : Type 0
Store = List (Text × Value)

abbrev get : Store → Text → Option Value
get [] j = none
get ((n, v) ∷ d) j = let rest = get d j in if text_eq n j then some v else rest

abbrev remove : Text → Store → Store
remove k [] = []
remove k ((n, v) ∷ d) = let rest = remove k d in if text_eq k n then rest else (n, v) ∷ rest

get-remove :
    (k : Text) (d : Store) (j : Text) → get (remove k d) j ≡ (if text_eq k j then none else get d j)
get-remove k [] j = ground arith
get-remove k ((n, v) ∷ d) j =
    ground (arith, get-remove k d j, text_eq_iff k n, text_eq_iff n j, text_eq_iff k j)

abbrev as_type : Value → Option ℕ
as_type (key k) = some (type_of k)
as_type _ = none

abbrev as_aes : Value → Option AesKey
as_aes (key (aes k)) = some k
as_aes _ = none

abbrev as_rsa : Value → Option RsaKey
as_rsa (key (rsa k)) = some k
as_rsa _ = none

abbrev as_ecc : Value → Option EccKey
as_ecc (key (ecc k)) = some k
as_ecc _ = none

abbrev as_hmac : Value → Option HmacKey
as_hmac (key (hmac k)) = some k
as_hmac _ = none

abbrev pub as_alias : Value → Option Alias
as_alias (alias a) = some a
as_alias _ = none

abbrev as_tag : Value → Option Tag
as_tag (tag t) = some t
as_tag _ = none

abbrev as_grant : Value → Option Grant
as_grant (grant g) = some g
as_grant _ = none

pub get-put :
    (d d' : Store) (k : Text) (v : Value) (j : Text)
    → some ((k, v) ∷ remove k d) ≡ some d'
    → get d' j ≡ (if text_eq k j then some v else get d j)
get-put d d' k v j h = ground (arith, get-remove k d j)

pub get-delete :
    (d d' : Store) (k : Text) (j : Text)
    → some (remove k d) ≡ some d'
    → get d' j ≡ (if text_eq k j then none else get d j)
get-delete d d' k j h = ground (arith, get-remove k d j)

abbrev pub memory : Backend
memory = record {
  Store = Store;
  Value = Value;
  get = get;
  put = λ d k v. some ((k, v) ∷ remove k d);
  delete = λ d k. some (remove k d);
  iterate = λ d p. filter (λ e. has_prefix p e.0) d;
  iterator_error = λ d p. false;
  get-put = λ {d} {d'} {k} {v} j h. get-put d d' k v j h;
  get-delete = λ {d} {d'} {k} j h. get-delete d d' k j h;
  encode_key = λ k. key k;
  encode_alias = λ a. alias a;
  encode_tag = λ t. tag t;
  encode_grant = λ g. grant g;
  decode_type = as_type;
  decode_aes = as_aes;
  decode_rsa = as_rsa;
  decode_ecc = as_ecc;
  decode_hmac = as_hmac;
  decode_alias = as_alias;
  decode_tag = as_tag;
  decode_grant = as_grant;
  type-encode = λ k. refl;
  aes-encode = λ k. refl;
  rsa-encode = λ k. refl;
  ecc-encode = λ k. refl;
  hmac-encode = λ k. refl;
  alias-encode = λ a. refl;
  tag-encode = λ t. refl;
  grant-encode = λ g. refl;
}

-- Sixteen zeros.
abbrev toy_tag : Text
toy_tag = 0 ∷ 0 ∷ 0 ∷ 0 ∷ 0 ∷ 0 ∷ 0 ∷ 0 ∷ 0 ∷ 0 ∷ 0 ∷ 0 ∷ 0 ∷ 0 ∷ 0 ∷ 0 ∷ []

abbrev pub strip : ℕ → Text → Option Text
strip zero t = some t
strip (suc n) [] = none
strip (suc n) (c ∷ t) = strip n t

-- The seal puts the tag in front and leaves the text as it is.
abbrev pub toy_gcm : Aead
toy_gcm = record {
  seal = λ key nonce p aad. toy_tag ++ p;
  unseal = λ key nonce s aad. strip 16 s;
  unseal-seal = λ key nonce p aad. refl;
  length-seal = λ key nonce p aad. omega (arith, length-append toy_tag p);
}

pub opens : (p c : Text) → some (0 ∷ p) ≡ some c → strip 1 c ≡ some p
opens p c e = ground arith

abbrev pub toy_oaep : Oaep
toy_oaep = record {
  encrypt_oaep = λ h key p. some (0 ∷ p);
  decrypt_oaep = λ h key c. strip 1 c;
  decrypt-encrypt = λ h key p c e. opens p c e;
}
