-- ===== src/Data/Backend.antt =====
-- What the database code takes from elsewhere: goleveldb, and encoding/json on the stored records.
use local_kms.Prelude.{ℕ, ◌≡◌, Bool, Text, text_eq, Option, none, some, List, if◌then◌else◌}
use local_kms.Cmk.{Key, AesKey, RsaKey, EccKey, HmacKey, aes, rsa, ecc, hmac}
use local_kms.Data.{Alias, Tag, Grant}

abbrev pub type_of : Key → ℕ
type_of (aes k) = 0
type_of (rsa k) = 1
type_of (ecc k) = 2
type_of (hmac k) = 3

-- A state of the store maps keys to values. A write may fail, and then there is no new state. An
-- iterator over a prefix yields the entries below it, as they were when it was made.
pub record Backend : Type 1 where
  pub Store : Type 0
  pub Value : Type 0
  pub get : Store → Text → Option Value
  pub put : Store → Text → Value → Option Store
  pub delete : Store → Text → Option Store
  pub iterate : Store → Text → List (Text × Value)
  pub iterator_error : Store → Text → Bool
  pub get-put :
      {d d' : Store} {k : Text} {v : Value} (j : Text)
      → put d k v ≡ some d'
      → get d' j ≡ (if text_eq k j then some v else get d j)
  pub get-delete :
      {d d' : Store} {k : Text} (j : Text)
      → delete d k ≡ some d'
      → get d' j ≡ (if text_eq k j then none else get d j)
  pub encode_key : Key → Value
  pub encode_alias : Alias → Value
  pub encode_tag : Tag → Value
  pub encode_grant : Grant → Value
  pub decode_type : Value → Option ℕ
  pub decode_aes : Value → Option AesKey
  pub decode_rsa : Value → Option RsaKey
  pub decode_ecc : Value → Option EccKey
  pub decode_hmac : Value → Option HmacKey
  pub decode_alias : Value → Option Alias
  pub decode_tag : Value → Option Tag
  pub decode_grant : Value → Option Grant
  pub type-encode : (k : Key) → decode_type (encode_key k) ≡ some (type_of k)
  pub aes-encode : (k : AesKey) → decode_aes (encode_key (aes k)) ≡ some k
  pub rsa-encode : (k : RsaKey) → decode_rsa (encode_key (rsa k)) ≡ some k
  pub ecc-encode : (k : EccKey) → decode_ecc (encode_key (ecc k)) ≡ some k
  pub hmac-encode : (k : HmacKey) → decode_hmac (encode_key (hmac k)) ≡ some k
  pub alias-encode : (a : Alias) → decode_alias (encode_alias a) ≡ some a
  pub tag-encode : (t : Tag) → decode_tag (encode_tag t) ≡ some t
  pub grant-encode : (g : Grant) → decode_grant (encode_grant g) ≡ some g
