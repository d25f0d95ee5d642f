-- ===== src/Cmk/Context/Order.antt =====
-- prepareAesEncryptionContext of cmk/aes_encryption.go: which contexts share their additional data.
use local_kms.Prelude.{
  ◌≡◌, refl, ap, sym, ◌∙◌, Bool, ◌||◌, true, false, Text, text_eq_refl, text_eq, text_eq_iff, [],
  ◌∷◌, ◌++◌, List, arith,
}
use mathlib.Core.List.{Perm, Permᴰ, append_assoc, append-nil}
use mathlib.Core.Logic.{∥∥₁_elim}
use mathlib.Core.Path.{subst, subst₂}
use local_kms.Cmk.Context.{
  Context, text_le, insert, sort, value_at, append_pairs, names, prepare_aes_encryption_context,
}

text_le_total : (a b : Text) → text_le a b ≡ false → text_le b a ≡ true
unfolding text_le
text_le_total [] b h = cc
text_le_total (x ∷ xs) [] h = refl
text_le_total (x ∷ xs) (y ∷ ys) h = ground (arith, text_le_total xs ys)

text_le_antisymm : (a b : Text) → text_le a b ≡ true → text_le b a ≡ true → a ≡ b
unfolding text_le
text_le_antisymm [] [] h k = refl
text_le_antisymm [] (y ∷ ys) h k = cc
text_le_antisymm (x ∷ xs) [] h k = cc
text_le_antisymm (x ∷ xs) (y ∷ ys) h k = ground (arith, text_le_antisymm xs ys)

text_le_trans : (a b c : Text) → text_le a b ≡ true → text_le b c ≡ true → text_le a c ≡ true
unfolding text_le
text_le_trans [] b c h k = refl
text_le_trans (x ∷ xs) [] c h k = cc
text_le_trans (x ∷ xs) (y ∷ ys) [] h k = cc
text_le_trans (x ∷ xs) (y ∷ ys) (z ∷ zs) h k = ground (arith, text_le_trans xs ys zs)

insert-insert : (a b : Text) (l : List Text) → insert a (insert b l) ≡ insert b (insert a l)
unfolding insert
insert-insert a b [] = ground (arith, text_le_total a b, text_le_antisymm a b)
insert-insert a b (c ∷ l) = ground (
  arith,
  text_le_total a b,
  text_le_antisymm a b,
  text_le_total a c,
  text_le_total b c,
  text_le_trans a b c,
  text_le_trans b a c,
  insert-insert a b l,
)

abbrev pub mentions : Text → Context → Bool
mentions k [] = false
mentions k ((j, v) ∷ c) = text_eq j k || mentions k c

-- A Go map has every key once.
abbrev pub IsMap : Context → Type 0
IsMap [] = Unit
IsMap ((k, v) ∷ c) = (mentions k c ≡ false) × IsMap c

record SameMap (c d : Context) : Type 0 where
  is_map : IsMap d
  sorted : sort (names c) ≡ sort (names d)
  mentioned : (k : Text) → mentions k c ≡ mentions k d
  values : (k : Text) → value_at c k ≡ value_at d k

SameMap-cons :
    (a : Text × Text) (c d : Context) → IsMap (a ∷ c) → SameMap c d → SameMap (a ∷ c) (a ∷ d)
unfolding sort value_at
SameMap-cons (k, v) c d m same = record {
  is_map = (sym (same.mentioned k) ∙ m.0, same.is_map);
  sorted = ap (insert k) same.sorted;
  mentioned = λ j. cc (same.mentioned j);
  values = λ j. cc (same.values j);
}

SameMap-swap :
    (a b : Text × Text) (c : Context) → IsMap (a ∷ b ∷ c) → SameMap (a ∷ b ∷ c) (b ∷ a ∷ c)
unfolding sort value_at
SameMap-swap (k, v) (j, w) c m = record {
  is_map = ground (arith, text_eq_iff k j, text_eq_iff j k);
  sorted = insert-insert k j (sort (names c));
  mentioned = λ i. ground arith;
  values = λ i. ground (arith, text_eq_iff k j, text_eq_iff j k, text_eq_iff k i, text_eq_iff j i);
}

SameMap-of-Permᴰ : (c d : Context) → Permᴰ c d → IsMap c → SameMap c d
SameMap-of-Permᴰ c d Permᴰ.nil m = record {
  is_map = tt;
  sorted = refl;
  mentioned = λ k. refl;
  values = λ k. refl;
}
SameMap-of-Permᴰ c d (Permᴰ.cons {a = a} {l₁ = l} {l₂ = r} e p) m =
    subst (λ x. SameMap (a ∷ l) (x ∷ r)) e (SameMap-cons a l r m (SameMap-of-Permᴰ l r p m.1))
SameMap-of-Permᴰ c d (Permᴰ.swap {a = a} {b = b} {l = l} e f) m =
    subst₂ (λ x y. SameMap (a ∷ b ∷ l) (y ∷ x ∷ l)) e f (SameMap-swap a b l m)
SameMap-of-Permᴰ c d (Permᴰ.trans {l₂ = x} p q) m =
    let first = SameMap-of-Permᴰ c x p m in
    let second = SameMap-of-Permᴰ x d q first.is_map in
    record {
      is_map = second.is_map;
      sorted = first.sorted ∙ second.sorted;
      mentioned = λ k. first.mentioned k ∙ second.mentioned k;
      values = λ k. first.values k ∙ second.values k;
    }

Text-set : IsSet Text
Text-set = hlevel

append_pairs-ext :
    (c d : Context) (ks : List Text)
    → ((k : Text) → value_at c k ≡ value_at d k)
    → append_pairs c ks ≡ append_pairs d ks
unfolding append_pairs
append_pairs-ext c d [] h = refl
append_pairs-ext c d (k ∷ ks) h = cc (h k, append_pairs-ext c d ks h)

-- Two orders of the same map give the same additional data.
pub prepare-perm :
    (c d : Context)
    → IsMap c
    → Perm c d
    → prepare_aes_encryption_context c ≡ prepare_aes_encryption_context d
unfolding prepare_aes_encryption_context
prepare-perm c d m p = ∥∥₁_elim p (Text-set _ _) λ q.
    let same = SameMap-of-Permᴰ c d q m in
    ap (append_pairs c) same.sorted ∙ append_pairs-ext c d (sort (names d)) same.values

-- The names and values are joined with nothing between them, so two contexts that differ in where
-- a name ends have the same additional data.
pub prepare_ambiguous :
    (k s v : Text)
    → prepare_aes_encryption_context ((k ++ s, v) ∷ [])
      ≡ prepare_aes_encryption_context ((k, s ++ v) ∷ [])
unfolding prepare_aes_encryption_context sort insert append_pairs value_at
prepare_ambiguous k s v = simp (text_eq_refl, append_assoc, append-nil)
