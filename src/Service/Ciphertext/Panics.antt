-- ===== src/Service/Ciphertext/Panics.antt =====
-- Which blobs make the unpacking panic.
use local_kms.Prelude.{
  ℕ, ◌+◌, ◌-◌, ◌%◌, ◌≤◌, ◌<◌, Text, ◌≡◌, ◌≢◌, ◌↔◌, ◌⊎◌, refl, [], ◌∷◌, length, take, drop,
  length-take, length-drop, arith,
}
use local_kms.Result.{ok, panic}
use local_kms.Service.Ciphertext.{slice, cut, uint32_le, unpack_ciphertext_blob}

uint32_le_total : (v : Text) → length v ≡ 4 → (n : ℕ) × (uint32_le v ≡ ok n)
unfolding uint32_le
uint32_le_total [] h = absurd (omega arith)
uint32_le_total (a ∷ []) h = absurd (omega arith)
uint32_le_total (a ∷ b ∷ []) h = absurd (omega arith)
uint32_le_total (a ∷ b ∷ c ∷ []) h = absurd (omega arith)
uint32_le_total (a ∷ b ∷ c ∷ d ∷ r) h = (_, refl)

slice_inside :
    (d : Text) (lo hi : ℕ)
    → lo ≤ hi
    → hi ≤ length d
    → slice d lo hi ≡ ok (take (hi - lo) (drop lo d))
unfolding slice
slice_inside d lo hi a b = ground arith

slice_outside : (d : Text) (lo hi : ℕ) → (hi < lo) ⊎ (length d < hi) → slice d lo hi ≡ panic
unfolding slice
slice_outside d lo hi a = ground arith

-- Within the blob the slices exist, if the version has its four bytes.
cut_inside : (d : Text) (lo : ℕ) → 1 ≤ lo → lo + 4 ≤ length d → cut d lo (lo + 4) ≢ panic
unfolding cut
cut_inside d lo a b =
    let v = take (lo + 4 - lo) (drop lo d) in
    let four : length v ≡ 4 =
      omega (arith, length-take (lo + 4 - lo) (drop lo d), length-drop lo d) in
    let (n, e) = uint32_le_total v four in
    ground (
      arith,
      e,
      slice_inside d 1 lo a,
      slice_inside d lo (lo + 4),
      slice_inside d (lo + 4) (length d),
    )

cut_outside : (d : Text) (lo hi : ℕ) → (lo < 1) ⊎ (hi < lo) ⊎ (length d < hi) → cut d lo hi ≡ panic
unfolding cut
cut_outside d lo hi h =
    ground (arith, slice_outside d 1 lo, slice_outside d lo hi, slice_inside d 1 lo)

-- The first byte and the number of bytes behind it for which a sum with `identlength` wraps.
abbrev pub Overflows : ℕ → ℕ → Type 0
Overflows x n = ((251 ≤ x) × (x ≤ n + 251)) ⊎ ((x ≡ 250) × (n < 254))

module _ (x : ℕ) (xs : Text) (byte : x < 256) where
  panic_of-Overflows : Overflows x (length xs) → unpack_ciphertext_blob (x ∷ xs) ≡ panic
  unfolding unpack_ciphertext_blob
  panic_of-Overflows h =
      ground (arith, cut_outside (x ∷ xs) ((x % 256 + 1) % 256) ((x % 256 + 5) % 256))

  no_panic : (¬ Overflows x (length xs)) → unpack_ciphertext_blob (x ∷ xs) ≢ panic
  unfolding unpack_ciphertext_blob
  no_panic h = ground (arith, cut_inside (x ∷ xs) (x + 1))

  -- For a blob of a first byte x and n bytes behind it, the unpacking panics exactly when x is at least
  -- 251 and at most n + 251, or x is 250 and n is below 254: a uint8 sum wraps, and the length test
  -- lets the blob pass.
  pub unpack_panics : (unpack_ciphertext_blob (x ∷ xs) ≡ panic) ↔ Overflows x (length xs)
  unpack_panics = (λ e. decide e, panic_of-Overflows)
    where
      decide : unpack_ciphertext_blob (x ∷ xs) ≡ panic → Overflows x (length xs)
      decide e = ground (arith, no_panic, panic_of-Overflows)
