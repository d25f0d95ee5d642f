-- ===== src/Handler/Listing.antt =====
-- What the listing handlers do alike: the bounds of the limit, the marker, and the one result more
-- than asked for that becomes the marker of the next page.
pub mod Pages
pub mod Walk
use local_kms.Prelude.{
  ℕ, ◌||◌, Bool, ltb, below, above, ℤ, pos, Text, length, take, Option, none, some, List, [], ◌∷◌,
  if◌then◌else◌,
}
use local_kms.Result.{ok, err, panic}
use local_kms.Exec.{Exec}
use local_kms.Data.{DataError}
use local_kms.Data.Listing.{Marker}
use local_kms.Handler.Responses.{Exception, Page, invalid_marker, internal_failure}

-- An absent marker is the empty text.
unfoldable pub to_marker : Option Text → Marker
to_marker none = none
to_marker (some []) = none
to_marker (some (c ∷ cs)) = some (c ∷ cs)

unfoldable pub limit_or : ℕ → Option ℤ → ℤ
limit_or default none = pos default
limit_or default (some limit) = limit

abbrev pub out_of_range : ℤ → ℕ → Bool
out_of_range limit max = below limit 1 || above limit max

unfoldable pub last_name : {A : Type 0} → (A → Text) → List A → Option Text
last_name name [] = none
last_name name (a ∷ []) = some (name a)
last_name name (a ∷ b ∷ l) = last_name name (b ∷ l)

unfoldable pub paginate : {A : Type 0} → (A → Text) → ℕ → List A → Page A
unfolding last_name
paginate name limit items =
    if ltb limit (length items)
    then record { next_marker = last_name name items; items = take limit items }
    else record { next_marker = none; items = items }

-- An unknown marker has an exception of its own.
abbrev pub list_exception : DataError → Exception
list_exception DataError.invalid_marker = invalid_marker
list_exception _ = internal_failure

abbrev pub expect_list : {S A : Type 0} → Exec S DataError A → Exec S Exception A
expect_list m d = elim (m d).0 [
  | ok a ↦ (ok a, (m d).1)
  | err e ↦ (err (list_exception e), (m d).1)
  | panic ↦ (panic, (m d).1)
]
