-- ===== src/Cmk/Context.antt =====
-- The encryption context of cmk/aes_encryption.go: a map, as the list of its entries in the order in
-- which Go happens to iterate over it, and the additional data that is made of it.
pub mod Order
use local_kms.Prelude.{
  ℕ, Bool, true, false, ltb, ◌==◌, ◌&&◌, ◌||◌, Text, text_eq, List, [], ◌∷◌, ◌++◌, map,
  if◌then◌else◌,
}

abbrev pub Context : Type 0
Context = List (Text × Text)

-- `sort.Strings` orders by bytes.
unfoldable pub text_le : Text → Text → Bool
text_le [] b = true
text_le (x ∷ xs) [] = false
text_le (x ∷ xs) (y ∷ ys) = ltb x y || (x == y && text_le xs ys)

unfoldable pub insert : Text → List Text → List Text
insert a [] = a ∷ []
insert a (b ∷ l) = if text_le a b then a ∷ b ∷ l else b ∷ insert a l

unfoldable pub sort : List Text → List Text
sort [] = []
sort (a ∷ l) = insert a (sort l)

-- `context[k]`, which is "" for a missing key.
unfoldable pub value_at : Context → Text → Text
value_at [] k = []
value_at ((j, v) ∷ c) k = if text_eq j k then v else value_at c k

unfoldable pub append_pairs : Context → List Text → Text
append_pairs c [] = []
append_pairs c (k ∷ ks) = k ++ (value_at c k ++ append_pairs c ks)

abbrev pub names : Context → List Text
names [] = []
names ((k, v) ∷ c) = k ∷ names c

-- An empty map has no additional data; so has the empty list of pairs.
unfoldable pub prepare_aes_encryption_context : Context → Text
prepare_aes_encryption_context c = append_pairs c (sort (names c))
