-- ===== src/Service/Ciphertext.antt =====
-- service/ciphertext.go: taking a ciphertext blob apart, slice by slice.
pub mod Panics
pub mod Packing
use local_kms.Prelude.{
  ℕ, ◌+◌, ◌-◌, ◌*◌, ◌%◌, Text, ◌||◌, [], ◌∷◌, ltb, length, take, drop, if◌then◌else◌,
}
use local_kms.Result.{Result, ok, err, panic, ◌>>=◌}

pub record Blob : Type 0 where
  pub ident : Text
  pub version : ℕ
  pub ciphertext : Text

-- `ok == false`: the blob is refused.
pub data Refused : Type 0 where
  refused : Refused

-- `data[lo:hi]`
unfoldable pub slice : Text → ℕ → ℕ → Result Refused Text
slice d lo hi = if ltb hi lo || ltb (length d) hi then panic else ok (take (hi - lo) (drop lo d))

-- `binary.LittleEndian.Uint32(v)` and `PutUint32`
unfoldable pub uint32_le : Text → Result Refused ℕ
uint32_le (a ∷ b ∷ c ∷ d ∷ rest) = ok (a + b * 256 + c * 65536 + d * 16777216)
uint32_le _ = panic

-- The three slices, from the ends `lo` of the ident and `hi` of the version.
unfoldable pub cut : Text → ℕ → ℕ → Result Refused Blob
cut d lo hi = do
  ident ← slice d 1 lo
  v ← slice d lo hi
  version ← uint32_le v
  ciphertext ← slice d hi (length d)
  ok (record { ident = ident; version = version; ciphertext = ciphertext })

-- The sums with `identlength` are of type uint8, so they wrap at 256.
unfoldable pub unpack_ciphertext_blob : Text → Result Refused Blob
unpack_ciphertext_blob [] = err refused
unpack_ciphertext_blob (x ∷ xs) =
    let identlength = x % 256 in
    if ltb (length (x ∷ xs)) ((1 + identlength + 4 + 1) % 256)
    then err refused
    else cut (x ∷ xs) ((identlength + 1) % 256) ((identlength + 5) % 256)
