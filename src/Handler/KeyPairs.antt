-- ===== src/Handler/KeyPairs.antt =====
-- The new key pairs of handler/generate_data_key_pair.go.
pub mod Made
use local_kms.Prelude.{ℕ, Text, Option, none, some}
use local_kms.Config.{Env}
use local_kms.Result.{Result, ok, err, ◌>>=◌}
use local_kms.Cmk.{
  KeySpec, ecc_nist_p256, ecc_nist_p384, ecc_nist_p521, ecc_secp256k1, rsa_2048, rsa_3072, rsa_4096,
}
use local_kms.Cmk.Generate.{Generators, Curve, p256, p384, p521, s256}
use local_kms.Handler.Responses.{Exception, validation}
use local_kms.Handler.Signing.{Encodings, or_internal}

-- What the switch on the spec of a pair selects.
pub data PairKind : Type 0 where
  on_curve : Curve → PairKind
  of_bits : ℕ → PairKind

unfoldable pub pair_kind : KeySpec → Option PairKind
pair_kind ecc_nist_p256 = some (on_curve p256)
pair_kind ecc_nist_p384 = some (on_curve p384)
pair_kind ecc_nist_p521 = some (on_curve p521)
pair_kind ecc_secp256k1 = some (on_curve s256)
pair_kind rsa_2048 = some (of_bits 2048)
pair_kind rsa_3072 = some (of_bits 3072)
pair_kind rsa_4096 = some (of_bits 4096)
pair_kind _ = none

-- A new pair in its encodings: the public key, and the private key.
unfoldable pub make_pair :
    Env → Generators → Encodings → Option PairKind → Result Exception (Text × Text)
make_pair env g e none = err validation
make_pair env g e (some (on_curve curve)) = (do
  key ← or_internal (g.generate_ecdsa env curve)
  public ← or_internal (e.pkix_ecdsa key)
  private ← or_internal (e.pkcs8_ecdsa key)
  ok (public, private))
make_pair env g e (some (of_bits bits)) = (do
  key ← or_internal (g.generate_rsa env bits)
  public ← or_internal (e.pkix_rsa key)
  private ← or_internal (e.pkcs8_rsa key)
  ok (public, private))
