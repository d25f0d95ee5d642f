-- ===== src/Service/Ciphertext/Packing.antt =====
-- The packing of blobs in cmk/aes_encryption.go, and its unpacking.
use local_kms.Prelude.{
  ℕ, ◌+◌, ◌-◌, ◌/◌, ◌%◌, ◌<◌, Text, ◌≡◌, refl, ap, [], ◌∷◌, ◌++◌, ltb, length, length-append,
  take-append, drop-append, arith, false,
}
use mathlib.Core.List.{append_assoc, append-nil}
use local_kms.Result.{ok}
use local_kms.Service.Ciphertext.{slice, cut, uint32_le, unpack_ciphertext_blob}

-- `binary.LittleEndian.PutUint32`
abbrev pub put_uint32 : ℕ → Text
put_uint32 v = v % 256 ∷ v / 256 % 256 ∷ v / 65536 % 256 ∷ v / 16777216 % 256 ∷ []

slice-append :
    (a b c : Text) (lo hi : ℕ)
    → lo ≡ length a
    → hi ≡ length a + length b
    → slice (a ++ (b ++ c)) lo hi ≡ ok b
unfolding slice
slice-append a b c lo hi el eh =
    let fits : ltb hi lo ≡ false = ground arith in
    let inside : ltb (length (a ++ (b ++ c))) hi ≡ false =
      ground (arith, length-append a (b ++ c), length-append b c) in
    let width : hi - lo ≡ length b = omega arith in
    rw (fits, inside, width, el, drop-append, take-append)

uint32_le-put : (v : ℕ) → v < 4294967296 → uint32_le (put_uint32 v) ≡ ok v
unfolding uint32_le
uint32_le-put v h = ap ok (omega arith)

module _ (ident ct : Text) (v : ℕ) where
  -- The length byte, the ident, the version in four bytes and the rest.
  abbrev pub packed : Text
  packed = length ident ∷ (ident ++ (put_uint32 v ++ ct))

  length-packed : length packed ≡ 5 + length ident + length ct
  length-packed = omega (arith, length-append ident (put_uint32 v ++ ct))

  last : (hi : ℕ) → hi ≡ length ident + 5 → slice packed hi (length packed) ≡ ok ct
  last hi eh = rw (shape) (
      slice-append (length ident ∷ (ident ++ put_uint32 v)) ct [] hi _
        (omega (arith, length-append ident (put_uint32 v)))
        (omega (arith, length-packed, length-append ident (put_uint32 v))))
    where
      shape : packed ≡ (length ident ∷ (ident ++ put_uint32 v)) ++ (ct ++ [])
      shape = ap (λ l. length ident ∷ l) (simp (append_assoc, append-nil))

  cut-packed :
      (lo hi : ℕ)
      → v < 4294967296
      → lo ≡ length ident + 1
      → hi ≡ length ident + 5
      → cut packed lo hi ≡ ok (record { ident = ident; version = v; ciphertext = ct })
  unfolding cut
  cut-packed lo hi fits el eh =
      let first : slice packed 1 lo ≡ ok ident =
        slice-append (length ident ∷ []) ident (put_uint32 v ++ ct) 1 lo refl (omega arith) in
      let second : slice packed lo hi ≡ ok (put_uint32 v) =
        slice-append (length ident ∷ ident) (put_uint32 v) ct lo hi (omega arith) (omega arith) in
      let third : slice packed hi (length packed) ≡ ok ct = last hi eh in
      rw (first, second, uint32_le-put v fits, third)

  -- A blob that is packed from an identifier of fewer than 250 bytes, a version below 2 ^ 32 and a
  -- ciphertext that is not empty unpacks to these three.
  pub unpack-packed :
      length ident < 250
      → v < 4294967296
      → 0 < length ct
      → unpack_ciphertext_blob packed ≡ ok (record { ident = ident; version = v; ciphertext = ct })
  unfolding unpack_ciphertext_blob
  unpack-packed short fits some_left = ground (
    arith,
    length-packed,
    cut-packed ((length ident % 256 + 1) % 256) ((length ident % 256 + 5) % 256),
  )
