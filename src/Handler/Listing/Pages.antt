-- ===== src/Handler/Listing/Pages.antt =====
-- The page and the marker that the listing handlers make of their results.
use local_kms.Prelude.{
  ℕ, zero, suc, ◌<◌, ◌≤◌, ◌≡◌, refl, ap, ltb, Text, length, length-take, take, take_all, get_elem?,
  none, List, [], ◌∷◌, arith, Bool-cases, inl, inr,
}
use mathlib.Core.Option
use local_kms.Handler.Listing.{last_name, paginate}

module _ {A : Type 0} where
  take-take : (n : ℕ) (l : List A) → take n (take (suc n) l) ≡ take n l
  take-take zero l = refl
  take-take (suc n) [] = refl
  take-take (suc n) (a ∷ l) = ap (λ r. a ∷ r) (take-take n l)

  get_elem?-none : (n : ℕ) (l : List A) → length l ≤ n → get_elem? l n ≡ none
  get_elem?-none n [] h = refl
  get_elem?-none zero (a ∷ l) h = absurd (omega arith)
  get_elem?-none (suc n) (a ∷ l) h = get_elem?-none n l (omega arith)

module _ {A : Type 0} (name : A → Text) where
  last_name-take :
      (n : ℕ) (l : List A)
      → n < length l
      → last_name name (take (suc n) l) ≡ Option.map name (get_elem? l n)
  unfolding last_name
  last_name-take n [] h = absurd (omega arith)
  last_name-take zero (a ∷ l) h = refl
  last_name-take (suc n) (a ∷ []) h = absurd (omega arith)
  last_name-take (suc n) (a ∷ b ∷ l) h = last_name-take n (b ∷ l) (omega arith)

  -- Of the first n + 1 results, a page of n shows the first n results, and its marker is the name of
  -- the first result that it does not show; there is none when it shows all.
  pub paginate-take :
      (n : ℕ) (l : List A)
      → ((paginate name n (take (suc n) l)).items ≡ take n l)
        × ((paginate name n (take (suc n) l)).next_marker ≡ Option.map name (get_elem? l n))
  unfolding paginate
  paginate-take n l = elim (Bool-cases (ltb n (length l))) [
    | inl more ↦ (
      ground (arith, length-take (suc n) l, take-take n l),
      ground (arith, length-take (suc n) l, last_name-take n l),
    )
    | inr all ↦ (
      ground (arith, length-take (suc n) l, take_all (suc n) l, take_all n l),
      ground (arith, length-take (suc n) l, get_elem?-none n l),
    )
  ]
