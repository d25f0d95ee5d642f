-- ===== src/Data/Listing/Naming.antt =====
-- The names of the entries that a listing goes through, and where a result stands among them.
use local_kms.Prelude.{
  ℕ, zero, suc, ◌≡◌, refl, sym, ap, ◌∙◌, true, false, Text, text_eq, text_eq_iff, is_empty, drop,
  get_elem?, some, List, [], ◌∷◌, ◌++◌, arith,
}
use local_kms.Data.Listing.{Reading, broken, skipped, found}
use local_kms.Data.Listing.Paging.{results, AllReadable, is_readable, Lacks}

-- Every entry can be read, and has a name that is not empty, that its result has too, and that no
-- later entry has.
module _ {V A : Type 0} (read : V → Reading A) (name : A → Text) where
  abbrev pub Listable : List (Text × V) → Type 0
  Listable [] = Unit
  Listable ((n, v) ∷ es) =
      ((is_readable read (read v) ≡ true)
        × (is_empty n ≡ false)
        × ((a : A) → read v ≡ found a → name a ≡ n)
        × Lacks read n es)
      × Listable es

  pub Listable-AllReadable : (es : List (Text × V)) → Listable es → AllReadable read es
  Listable-AllReadable [] h = tt
  Listable-AllReadable ((n, v) ∷ es) (h, hs) = (h.0, Listable-AllReadable es hs)

  text_eq_sym : (x y : Text) → text_eq x y ≡ false → text_eq y x ≡ false
  text_eq_sym x y h = ground (arith, text_eq_iff x y, text_eq_iff y x)

  Lacks-at :
      (n m : Text) (v : V) (pre rest : List (Text × V))
      → Lacks read n (pre ++ (m, v) ∷ rest)
      → text_eq n m ≡ false
  Lacks-at n m v [] rest h = h.0
  Lacks-at n m v (e ∷ pre) rest h = Lacks-at n m v pre rest h.1

  pub Listable-split :
      (pre : List (Text × V)) (m : Text) (v : V) (rest : List (Text × V))
      → Listable (pre ++ (m, v) ∷ rest)
      → Lacks read m pre × Listable ((m, v) ∷ rest)
  Listable-split [] m v rest h = (tt, h)
  Listable-split ((n, w) ∷ pre) m v rest (h, hs) =
      let (lacks, good) = Listable-split pre m v rest hs in
      ((text_eq_sym n m (Lacks-at n m v pre rest h.3), lacks), good)

  -- Where the result of a place stands among the entries.
  pub data At (es : List (Text × V)) (i : ℕ) (a : A) : Type 0 where
    at :
        (pre : List (Text × V)) (v : V) (rest : List (Text × V))
        → es ≡ pre ++ (name a, v) ∷ rest
        → drop i (results read es) ≡ results read ((name a, v) ∷ rest)
        → At es i a

  At-cons :
      (n : Text) (v : V) (es : List (Text × V)) (i j : ℕ) (a : A)
      → drop j (results read ((n, v) ∷ es)) ≡ drop i (results read es)
      → At es i a
      → At ((n, v) ∷ es) j a
  At-cons n v es i j a same (at pre w rest e f) =
      at ((n, v) ∷ pre) w rest (ap (λ l. (n, v) ∷ l) e) (same ∙ f)

  locate_read :
      (n : Text) (v : V) (es : List (Text × V)) (r : Reading A) (i : ℕ) (a : A)
      → read v ≡ r
      → Listable ((n, v) ∷ es)
      → ((j : ℕ) → get_elem? (results read es) j ≡ some a → At es j a)
      → get_elem? (results read ((n, v) ∷ es)) i ≡ some a
      → At ((n, v) ∷ es) i a
  unfolding results
  locate_read n v es broken i a e (h, hs) ih g = absurd (ground (arith, h, e))
  locate_read n v es skipped i a e (h, hs) ih g =
      At-cons n v es i i a (ground (arith, e)) (ih i (ground (arith, e)))
  locate_read n v es (found b) zero a e (h, hs) ih g =
      let same : b ≡ a = ground (arith, e) in
      at [] v es (ap (λ m. (m, v) ∷ es) (sym (h.2 a (e ∙ ap found same)))) (ground (arith, e))
  locate_read n v es (found b) (suc i) a e (h, hs) ih g =
      At-cons n v es i (suc i) a (ground (arith, e)) (ih i (ground (arith, e)))

  pub locate :
      (es : List (Text × V)) (i : ℕ) (a : A)
      → Listable es
      → get_elem? (results read es) i ≡ some a
      → At es i a
  unfolding results
  locate [] i a h g = absurd (ground arith)
  locate ((n, v) ∷ es) i a h g =
      locate_read n v es (read v) i a refl h (λ j f. locate es j a h.1 f) g
