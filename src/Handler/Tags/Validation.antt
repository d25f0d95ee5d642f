-- ===== src/Handler/Tags/Validation.antt =====
-- validateTags of handler/helpers.go, and the fields that saveTags dereferences.
use local_kms.Prelude.{
  ◌≡◌, refl, ◌≤◌, false, Text, codes, has_prefix, length, Option, none, some, List, [], ◌∷◌, arith,
}
use local_kms.Result.{ok}
use local_kms.Data.{Tag}
use local_kms.Handler.Tags.{
  TagInput, validate_tags, tag_of, reserved, any_reserved, bad_key, bad_value, any_bad,
}

-- The fields are there, with lengths that KMS allows and a name that is not reserved.
abbrev pub IsProper : TagInput → Type 0
IsProper t =
    (tag : Tag) × (tag_of t ≡ ok tag)
    × (1 ≤ length tag.tag_key)
    × (length tag.tag_key ≤ 128)
    × (length tag.tag_value ≤ 256)
    × (has_prefix (codes "aws:") tag.tag_key ≡ false)

abbrev pub AllProper : List TagInput → Type 0
AllProper [] = Unit
AllProper (t ∷ ts) = IsProper t × AllProper ts

proper :
    (k v : Option Text)
    → reserved k ≡ false
    → bad_key k ≡ false
    → bad_value v ≡ false
    → IsProper (record { tag_key = k; tag_value = v })
unfolding tag_of
proper none v r b c = absurd (ground arith)
proper (some k) none r b c = absurd (ground arith)
proper (some k) (some v) r b c =
    (record { tag_key = k; tag_value = v }, refl, ground arith, ground arith, ground arith, r)

all_proper : (ts : List TagInput) → any_reserved ts ≡ false → any_bad ts ≡ false → AllProper ts
all_proper [] r b = tt
all_proper (t ∷ ts) r b = (
  proper t.tag_key t.tag_value (ground arith) (ground arith) (ground arith),
  all_proper ts (ground arith) (ground arith),
)

-- The tags that the validation lets pass can be read without a panic; the name of each has 1 to 128
-- bytes and does not begin with aws:, and its value has at most 256.
pub validate_tags-AllProper : (ts : List TagInput) → validate_tags ts ≡ none → AllProper ts
unfolding validate_tags
validate_tags-AllProper ts h = all_proper ts (ground arith) (ground arith)
