-- ===== src/Tests/Services.antt =====
-- The blobs and the records of cmk/ at concrete inputs.
use local_kms.Prelude.{
  ◌≡◌, ◌↔◌, refl, Text, codes, length, [], ◌∷◌, ◌++◌, arith, ◌+◌, ◌<◌, text_eq, true, false,
  if◌then◌else◌,
}
use mathlib.Core.List.{Perm, Permᴰ}
use local_kms.Result.{ok, panic}
use local_kms.Service.Ciphertext.{Blob, unpack_ciphertext_blob}
use local_kms.Service.Ciphertext.Packing.{packed, unpack-packed}
use local_kms.Service.Ciphertext.Panics.{Overflows, unpack_panics}
use local_kms.Cmk.{hmac_sha_256}
use local_kms.Cmk.Aes.{rotate_if_needed, generate_key}
use local_kms.Cmk.Aes.Rotation.{rotate_times, rotate_times_bound, rotate_if_needed_lem, HasPassed}
use local_kms.Cmk.Context.{Context, prepare_aes_encryption_context}
use local_kms.Cmk.Context.Order.{prepare-perm, prepare_ambiguous, IsMap}
use local_kms.Cmk.Hmac
use local_kms.Cmk.Hmac.{Hash, generate_mac, verify_mac, get_hash_function, matches_any}
use local_kms.Cmk.Hmac.Codes.{verify_mac-generate_mac, generate_mac-rotate_if_needed}
use local_kms.Cmk.Encryption.{encrypt_and_package, decrypt}
use local_kms.Cmk.Encryption.Roundtrip.{decrypt-encrypt_and_package, Extends}
use local_kms.Tests.Memory.{toy_gcm}
use local_kms.Tests.Samples.{env, key_arn, aes_key, hmac_key, replicate}

unpack-packed_example :
    unpack_ciphertext_blob (packed (codes "arn") (1 ∷ 2 ∷ []) 258)
    ≡ ok (record { ident = codes "arn"; version = 258; ciphertext = 1 ∷ 2 ∷ [] })
unpack-packed_example =
    unpack-packed (codes "arn") (1 ∷ 2 ∷ []) 258 (omega arith) (omega arith) (omega arith)

unpack_panics_example :
    (unpack_ciphertext_blob (251 ∷ codes "ciphertext") ≡ panic)
    ↔ Overflows 251 (length (codes "ciphertext"))
unpack_panics_example = unpack_panics 251 (codes "ciphertext") (omega arith)

rotate_times_bound_example :
    (length (rotate_times 3 env aes_key).backing_keys + 24
      ≡ 1 + (rotate_times 3 env aes_key).on_demand_rotation_count)
    × ((rotate_times 3 env aes_key).on_demand_rotation_count ≡ 25)
rotate_times_bound_example = rotate_times_bound 3 env aes_key (omega arith)

rotate_if_needed_lem_example :
    (((rotate_if_needed env aes_key).1 ≡ true) ↔ HasPassed env.now aes_key.next_key_rotation)
    × ((rotate_if_needed env aes_key).0.backing_keys ≡ (
        if (rotate_if_needed env aes_key).1
        then aes_key.backing_keys ++ generate_key env key_arn 0 ∷ []
        else aes_key.backing_keys))
    × (rotate_if_needed env (rotate_if_needed env aes_key).0
        ≡ ((rotate_if_needed env aes_key).0, false))
rotate_if_needed_lem_example = rotate_if_needed_lem env aes_key

abbrev two_pairs : Context
two_pairs = (codes "a", codes "1") ∷ (codes "b", codes "2") ∷ []

abbrev swapped_pairs : Context
swapped_pairs = (codes "b", codes "2") ∷ (codes "a", codes "1") ∷ []

is_map : IsMap two_pairs
unfolding text_eq
is_map = (refl, (refl, tt))

swap : Perm two_pairs swapped_pairs
swap = ∣ Permᴰ.swap refl refl ∣₁

prepare-perm_example :
    prepare_aes_encryption_context two_pairs ≡ prepare_aes_encryption_context swapped_pairs
prepare-perm_example = prepare-perm two_pairs swapped_pairs is_map swap

prepare_ambiguous_example :
    prepare_aes_encryption_context ((codes "user", codes "1") ∷ [])
    ≡ prepare_aes_encryption_context ((codes "us", codes "er1") ∷ [])
prepare_ambiguous_example = prepare_ambiguous (codes "us") (codes "er") (codes "1")

abbrev toy_mac : Hash → Text → Text → Text
toy_mac h key message = key ++ message

abbrev code : Text
code = replicate 32 7 ++ codes "m"

rotated_keys :
    (Hmac.rotate_if_needed env hmac_key).0.backing_keys
    ≡ [] ++ replicate 32 7 ∷ replicate 32 8 ∷ replicate 32 0 ∷ []
unfolding Hmac.rotate_if_needed
rotated_keys = refl

made_code : generate_mac toy_mac hmac_key (codes "m") hmac_sha_256 ≡ ok code
unfolding generate_mac
made_code = refl

verify_mac-generate_mac_example :
    verify_mac toy_mac (Hmac.rotate_if_needed env hmac_key).0 (codes "m") code hmac_sha_256
    ≡ ok true
verify_mac-generate_mac_example =
    verify_mac-generate_mac toy_mac hmac_key (Hmac.rotate_if_needed env hmac_key).0 (replicate 32 7)
      (replicate 32 8 ∷ []) [] (replicate 32 8 ∷ replicate 32 0 ∷ []) (codes "m") code hmac_sha_256
      refl rotated_keys made_code

generate_mac-rotate_if_needed_example :
    generate_mac toy_mac (Hmac.rotate_if_needed env hmac_key).0 (codes "m") hmac_sha_256
    ≡ generate_mac toy_mac hmac_key (codes "m") hmac_sha_256
generate_mac-rotate_if_needed_example =
    generate_mac-rotate_if_needed toy_mac env hmac_key (replicate 32 7) (replicate 32 8 ∷ [])
      (codes "m") hmac_sha_256 refl

abbrev sealed : Text
sealed = replicate 12 2 ++ (replicate 16 0 ++ codes "secret")

packaged :
    encrypt_and_package toy_gcm env aes_key (codes "secret") two_pairs
    ≡ ok (packed key_arn sealed 0)
unfolding encrypt_and_package
packaged = refl

later_keys : Extends aes_key (rotate_if_needed env aes_key).0
unfolding rotate_if_needed
later_keys = (replicate 32 0 ∷ [], refl)

few : length (rotate_if_needed env aes_key).0.backing_keys < 4294967296
unfolding rotate_if_needed
few = omega arith

decrypt-encrypt_and_package_example :
    (b : Blob) × (unpack_ciphertext_blob (packed key_arn sealed 0) ≡ ok b)
    × (b.ident ≡ key_arn)
    × (decrypt toy_gcm (rotate_if_needed env aes_key).0 b.version b.ciphertext swapped_pairs
        ≡ ok (codes "secret"))
decrypt-encrypt_and_package_example =
    decrypt-encrypt_and_package toy_gcm env aes_key (codes "secret") two_pairs swapped_pairs
      (rotate_if_needed env aes_key).0 (packed key_arn sealed 0) later_keys few (omega arith) refl
      prepare-perm_example packaged
