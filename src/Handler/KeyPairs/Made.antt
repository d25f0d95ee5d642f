-- ===== src/Handler/KeyPairs/Made.antt =====
-- What the key pairs of handler/generate_data_key_pair.go are, spec by spec.
use local_kms.Prelude.{◌≡◌, Text, Option, some, arith}
use local_kms.Config.{Env}
use local_kms.Result.{Result, ok, calls-ok, ◌>>=◌}
use local_kms.Cmk.{KeySpec}
use local_kms.Cmk.Generate.{Generators, p256, p384, p521, s256}
use local_kms.Handler.Responses.{Exception}
use local_kms.Handler.Signing.{Encodings, or_internal}
use local_kms.Handler.KeyPairs.{make_pair, pair_kind}

module _ (env : Env) (g : Generators) (e : Encodings) where
  -- A key pair that Go made is encoded in the two texts.
  abbrev pub Encoded :
      Option Text → (Text → Option Text) → (Text → Option Text) → Text → Text → Type 0
  Encoded made pkix pkcs8 public private =
      (key : Text) × (made ≡ some key) × (pkix key ≡ some public) × (pkcs8 key ≡ some private)

  -- The new pairs of each spec: P-256, P-384, P-521 and secp256k1, and RSA of 2048, 3072 and 4096 bits.
  abbrev pub NewPair : KeySpec → Text → Text → Type 0
  NewPair KeySpec.ecc_nist_p256 = Encoded (g.generate_ecdsa env p256) e.pkix_ecdsa e.pkcs8_ecdsa
  NewPair KeySpec.ecc_nist_p384 = Encoded (g.generate_ecdsa env p384) e.pkix_ecdsa e.pkcs8_ecdsa
  NewPair KeySpec.ecc_nist_p521 = Encoded (g.generate_ecdsa env p521) e.pkix_ecdsa e.pkcs8_ecdsa
  NewPair KeySpec.ecc_secp256k1 = Encoded (g.generate_ecdsa env s256) e.pkix_ecdsa e.pkcs8_ecdsa
  NewPair KeySpec.rsa_2048 = Encoded (g.generate_rsa env 2048) e.pkix_rsa e.pkcs8_rsa
  NewPair KeySpec.rsa_3072 = Encoded (g.generate_rsa env 3072) e.pkix_rsa e.pkcs8_rsa
  NewPair KeySpec.rsa_4096 = Encoded (g.generate_rsa env 4096) e.pkix_rsa e.pkcs8_rsa
  NewPair _ = λ public private. ⊥

  abbrev encode_pair :
      Option Text → (Text → Option Text) → (Text → Option Text) → Result Exception (Text × Text)
  encode_pair made pkix pkcs8 = do
    key ← or_internal made
    public ← or_internal (pkix key)
    private ← or_internal (pkcs8 key)
    ok (public, private)

  encoded :
      (made : Option Text) (pkix pkcs8 : Text → Option Text) (public private : Text)
      → encode_pair made pkix pkcs8 ≡ ok (public, private)
      → Encoded made pkix pkcs8 public private
  encoded made pkix pkcs8 public private h =
      let (key, e₁, h₁) = calls-ok (or_internal made) _ h in
      let (public', e₂, h₂) = calls-ok (or_internal (pkix key)) _ h₁ in
      let (private', e₃, h₃) = calls-ok (or_internal (pkcs8 key)) _ h₂ in
      (key, ground (arith, e₁), ground (arith, e₂, h₃), ground (arith, e₃, h₃))

  pub NewPair-make_pair :
      (spec : KeySpec) (public private : Text)
      → make_pair env g e (pair_kind spec) ≡ ok (public, private)
      → NewPair spec public private
  unfolding make_pair pair_kind
  NewPair-make_pair KeySpec.ecc_nist_p256 public private h = encoded _ _ _ public private h
  NewPair-make_pair KeySpec.ecc_nist_p384 public private h = encoded _ _ _ public private h
  NewPair-make_pair KeySpec.ecc_nist_p521 public private h = encoded _ _ _ public private h
  NewPair-make_pair KeySpec.ecc_secp256k1 public private h = encoded _ _ _ public private h
  NewPair-make_pair KeySpec.rsa_2048 public private h = encoded _ _ _ public private h
  NewPair-make_pair KeySpec.rsa_3072 public private h = encoded _ _ _ public private h
  NewPair-make_pair KeySpec.rsa_4096 public private h = encoded _ _ _ public private h
  NewPair-make_pair _ public private h = absurd (ground arith)
