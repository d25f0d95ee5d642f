-- ===== src/Handler/Listing/Walk.antt =====
-- A client that follows the markers of the listing handlers from page to page, over what the store
-- held at the start.
use local_kms.Prelude.{
  ℕ, zero, suc, ◌<◌, ◌≡◌, refl, sym, ap, ◌∙◌, false, Text, is_empty, length, take, drop, take_all,
  take-drop, length-le_of_none, get_elem?-lt, length-drop, get_elem?, Option, none, some, List, [],
  ◌∷◌, ◌++◌, arith, Option-cases, inl, inr,
}
use mathlib.Core.Path.{subst}
use mathlib.Core.List.{append_assoc}
use local_kms.Result.{Result, ok, err, panic}
use local_kms.Data.{DataError}
use local_kms.Data.Listing.{Marker, Reading, page}
use local_kms.Data.Listing.Naming.{Listable, Listable-AllReadable, Listable-split, at, locate}
use local_kms.Data.Listing.Paging.{results, page_first, page_at}
use local_kms.Handler.Responses.{Page}
use local_kms.Handler.Listing.{paginate, to_marker}
use local_kms.Handler.Listing.Pages.{paginate-take}

-- A page that is asked for, and its marker; `none` when the answer is an error.
module _ {V A : Type 0} (read : V → Reading A) (name : A → Text) (limit : ℕ) where
  abbrev paged : Result DataError (List A) → Option (Page A)
  paged (ok items) = some (paginate name limit items)
  paged (err e) = none
  paged panic = none

  -- The results of a page and of those that follow it.
  abbrev joined : List A → Option (List A) → Option (List A)
  joined items none = none
  joined items (some rest) = some (items ++ rest)

  -- The pages from a marker on, of at most `limit` results each, one after another; `none` when one is
  -- an error, or when there are more pages than fuel.
  pub walk : ℕ → List (Text × V) → Marker → Option (List A)
  walk zero es marker = none
  walk (suc fuel) es marker = elim (paged (page read false marker (suc limit) es)) [
    | none ↦ none
    | some p ↦ elim p.next_marker [
      | none ↦ some p.items
      | some m ↦ joined p.items (walk fuel es (to_marker (some m)))
    ]
  ]

module _ {V A : Type 0} (read : V → Reading A) (name : A → Text) (limit : ℕ)
    (some_results : 0 < limit) where
  -- One page, and the marker of the next.
  walk-last :
      (fuel : ℕ) (es : List (Text × V)) (marker : Marker) (l : List A)
      → page read false marker (suc limit) es ≡ ok (take (suc limit) l)
      → get_elem? l limit ≡ none
      → walk read name limit (suc fuel) es marker ≡ some l
  unfolding walk
  walk-last fuel es marker l got end =
      let (items, next) = paginate-take name limit l in
      ground (arith, got, items, next, take_all limit l (length-le_of_none l limit end))

  walk-more :
      (fuel : ℕ) (es : List (Text × V)) (marker : Marker) (l : List A) (a : A)
      → page read false marker (suc limit) es ≡ ok (take (suc limit) l)
      → get_elem? l limit ≡ some a
      → walk read name limit fuel es (to_marker (some (name a))) ≡ some (drop limit l)
      → walk read name limit (suc fuel) es marker ≡ some l
  unfolding walk
  walk-more fuel es marker l a got more rest =
      let (items, next) = paginate-take name limit l in
      ground (arith, got, items, next, rest, take-drop limit l)

  to_marker-name : (m : Text) → is_empty m ≡ false → to_marker (some m) ≡ some m
  unfolding to_marker
  to_marker-name [] h = absurd (ground arith)
  to_marker-name (c ∷ cs) h = refl

  walk-from :
      (fuel : ℕ) (es : List (Text × V)) (marker : Marker) (pre es' : List (Text × V))
      → Listable read name es
      → es ≡ pre ++ es'
      → page read false marker (suc limit) es ≡ ok (take (suc limit) (results read es'))
      → Listable read name es'
      → length (results read es') < fuel
      → walk read name limit fuel es marker ≡ some (results read es')
  walk-from zero es marker pre es' h e got h' enough = absurd (omega arith)
  walk-from (suc fuel) es marker pre es' h e got h' enough =
      elim (Option-cases (get_elem? (results read es') limit)) [
        | inl end ↦ walk-last fuel es marker (results read es') got end
        | inr (a, more) ↦ elim (locate read name es' limit a h' more) [
          | at pre' v rest e' f ↦
              let s = (name a, v) ∷ rest in
              let joint : es ≡ (pre ++ pre') ++ s =
                e ∙ ap (λ l. pre ++ l) e' ∙ sym (append_assoc pre pre' s) in
              let (lacks, good) =
                Listable-split read name (pre ++ pre') (name a) v rest
                  (subst (Listable read name) joint h) in
              let got' : page read false (some (name a)) (suc limit) es
                  ≡ ok (take (suc limit) (results read s)) =
                rw joint (
                  page_at read (name a) limit (pre ++ pre') v rest lacks
                    (Listable-AllReadable read name s good)) in
              let fewer : length (results read s) < fuel = omega (
                arith,
                ap length f,
                length-drop limit (results read es'),
                get_elem?-lt (results read es') limit more,
                enough,
                some_results,
              ) in
              let later =
                walk-from fuel es (some (name a)) (pre ++ pre') s h joint got' good fewer in
              walk-more fuel es marker (results read es') a got more
                (rw (to_marker-name (name a) good.0.1) (later ∙ ap some (sym f)))
        ]
      ]

  -- A client that asks for pages of at least one result and follows their markers comes to an end, with
  -- more fuel than there are results, and has then seen every result once and in order: if each entry
  -- can be read and has a name of its own that is not empty, which is the name of its result, and the
  -- entries stay the same from page to page.
  pub walk_lem :
      (fuel : ℕ) (es : List (Text × V))
      → Listable read name es
      → length (results read es) < fuel
      → walk read name limit fuel es none ≡ some (results read es)
  walk_lem fuel es h enough =
      walk-from fuel es none [] es h refl
        (page_first read (suc limit) es (Listable-AllReadable read name es h)) h enough
