-- ===== src/Data/Listing.antt =====
-- The loop that ListAlias, ListTags and scanGrants of data/ share: with an iterator, a limit, and the
-- marker at which the page begins.
pub mod Paging
pub mod Naming
use local_kms.Prelude.{
  ℕ, zero, suc, Bool, true, false, not, ◌&&◌, ◌||◌, Text, text_eq, Option, none, some, List, [],
  ◌∷◌, if◌then◌else◌,
}
use local_kms.Result.{Result, ok, err, panic, ◌>>=◌}
use local_kms.Data.{DataError, corrupted, iterator_failed, invalid_marker}

-- The name of the entry at which the page begins; `none` for an empty marker.
abbrev pub Marker : Type 0
Marker = Option Text

-- `marker != "" && !pastMarker && marker != key`
unfoldable pub waits : Marker → Bool → Text → Bool
waits none past name = false
waits (some m) past name = not past && not (text_eq m name)

-- After the loop: the iterator's error, which an unmet marker overrides.
unfoldable pub finish : {A : Type 0} → Bool → Marker → A × Bool → Result DataError A
finish failed (some m) (items, false) = err invalid_marker
finish failed _ (items, past) = if failed then err iterator_failed else ok items

-- What the body of the loop makes of an entry.
pub data Reading (A : Type 0) : Type 0 where
  broken skipped : Reading A
  found : A → Reading A

module _ {V A : Type 0} (read : V → Reading A) where
  -- How many results are still wanted, whether the marker is passed, the rest of the iterator.
  unfoldable pub page_from : Marker → ℕ → Bool → List (Text × V) → Result DataError (List A × Bool)
  page_from marker n past [] = ok ([], past)
  page_from marker zero past (e ∷ es) = ok ([], past)
  page_from marker (suc n) past ((name, v) ∷ es) =
      let skip = page_from marker (suc n) past es in
      let next = page_from marker (suc n) true es in
      let more = page_from marker n true es in
      if waits marker past name then skip else elim (read v) [
        | broken ↦ err corrupted
        | skipped ↦ next
        | found a ↦ do (items, past') ← more; ok (a ∷ items, past')
      ]

  unfoldable pub page : Bool → Marker → ℕ → List (Text × V) → Result DataError (List A)
  page failed marker limit es = do met ← page_from marker limit false es; finish failed marker met
