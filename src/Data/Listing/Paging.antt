-- ===== src/Data/Listing/Paging.antt =====
-- The pages that the listing loop cuts out of what the store holds.
use local_kms.Prelude.{
  ℕ, zero, suc, Bool, true, false, Text, text_eq, text_eq_refl, none, some, List, [], ◌∷◌, ◌++◌,
  take, ◌≡◌, refl, arith,
}
use local_kms.Result.{ok, err}
use local_kms.Data.{DataError}
use local_kms.Data.Listing.{Marker, Reading, broken, skipped, found, waits, finish, page_from, page}

module _ {V A : Type 0} (read : V → Reading A) where
  -- The results of all entries; the entries must be readable.
  unfoldable pub results : List (Text × V) → List A
  results [] = []
  results ((name, v) ∷ es) = elim (read v) [
    | broken ↦ results es
    | skipped ↦ results es
    | found a ↦ a ∷ results es
  ]

  abbrev pub is_readable : Reading A → Bool
  is_readable broken = false
  is_readable _ = true

  abbrev pub AllReadable : List (Text × V) → Type 0
  AllReadable [] = Unit
  AllReadable ((name, v) ∷ es) = (is_readable (read v) ≡ true) × AllReadable es

  abbrev pub Lacks : Text → List (Text × V) → Type 0
  Lacks m [] = Unit
  Lacks m ((name, v) ∷ es) = (text_eq m name ≡ false) × Lacks m es

  page_from_past :
      (marker : Marker) (n : ℕ) (es : List (Text × V))
      → AllReadable es
      → page_from read marker n true es ≡ ok (take n (results es), true)
  unfolding page_from results waits
  page_from_past marker zero [] r = refl
  page_from_past marker (suc n) [] r = refl
  page_from_past none zero (e ∷ es) r = refl
  page_from_past (some m) zero (e ∷ es) r = refl
  page_from_past none (suc n) ((name, v) ∷ es) (r, rs) =
      ground (arith, page_from_past none n es rs, page_from_past none (suc n) es rs)
  page_from_past (some m) (suc n) ((name, v) ∷ es) (r, rs) =
      ground (arith, page_from_past (some m) n es rs, page_from_past (some m) (suc n) es rs)

  page_from_at :
      (m : Text) (n : ℕ) (pre : List (Text × V)) (v : V) (es : List (Text × V))
      → Lacks m pre
      → AllReadable ((m, v) ∷ es)
      → page_from read (some m) (suc n) false (pre ++ (m, v) ∷ es)
        ≡ ok (take (suc n) (results ((m, v) ∷ es)), true)
  unfolding page_from results waits
  page_from_at m n [] v es l (r, rs) = ground (
    arith,
    page_from_past (some m) n es rs,
    page_from_past (some m) (suc n) es rs,
    text_eq_refl m,
  )
  page_from_at m n ((name, w) ∷ pre) v es (l, ls) r = ground (arith, page_from_at m n pre v es ls r)

  page_from_unmet :
      (m : Text) (n : ℕ) (es : List (Text × V))
      → Lacks m es
      → page_from read (some m) n false es ≡ ok ([], false)
  unfolding page_from waits
  page_from_unmet m n [] l = ground arith
  page_from_unmet m zero (e ∷ es) l = refl
  page_from_unmet m (suc n) ((name, v) ∷ es) (l, ls) =
      ground (arith, page_from_unmet m (suc n) es ls)

  page_from_start :
      (n : ℕ) (es : List (Text × V))
      → AllReadable es
      → (past : Bool) × (page_from read none n false es ≡ ok (take n (results es), past))
  unfolding page_from results waits
  page_from_start zero [] r = (false, refl)
  page_from_start (suc n) [] r = (false, refl)
  page_from_start zero (e ∷ es) r = (false, refl)
  page_from_start (suc n) ((name, v) ∷ es) r =
      (true, page_from_past none (suc n) ((name, v) ∷ es) r)

  -- Without a marker a page is the first results, as many as are wanted.
  pub page_first :
      (n : ℕ) (es : List (Text × V))
      → AllReadable es
      → page read false none n es ≡ ok (take n (results es))
  unfolding page finish
  page_first n es r = let (past, e) = page_from_start n es r in rw e refl

  -- With the name of an entry as the marker, a page holds the results from this entry on.
  pub page_at :
      (m : Text) (n : ℕ) (pre : List (Text × V)) (v : V) (es : List (Text × V))
      → Lacks m pre
      → AllReadable ((m, v) ∷ es)
      → page read false (some m) (suc n) (pre ++ (m, v) ∷ es)
        ≡ ok (take (suc n) (results ((m, v) ∷ es)))
  unfolding page finish
  page_at m n pre v es l r = rw (page_from_at m n pre v es l r)

  -- A marker that is no entry's name is refused, whatever the limit.
  pub page_unmet :
      (m : Text) (n : ℕ) (failed : Bool) (es : List (Text × V))
      → Lacks m es
      → page read failed (some m) n es ≡ err DataError.invalid_marker
  unfolding page finish
  page_unmet m n failed es l = rw (page_from_unmet m n es l)

  results-append : (es fs : List (Text × V)) → results (es ++ fs) ≡ results es ++ results fs
  unfolding results
  results-append [] fs = refl
  results-append ((name, v) ∷ es) fs = ground (arith, results-append es fs)

  AllReadable-append :
      (es fs : List (Text × V)) → AllReadable es → AllReadable fs → AllReadable (es ++ fs)
  AllReadable-append [] fs r s = s
  AllReadable-append (e ∷ es) fs (r, rs) s = (r, AllReadable-append es fs rs s)
