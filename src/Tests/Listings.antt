-- ===== src/Tests/Listings.antt =====
-- A client that lists the aliases page by page.
use local_kms.Prelude.{◌≡◌, refl, Text, codes, text_eq, some, none, List, [], ◌∷◌, arith}
use local_kms.Data.{Alias}
use local_kms.Data.Aliases.{keep_alias}
use local_kms.Data.Listing.{Reading, found}
use local_kms.Data.Listing.Naming.{Listable}
use local_kms.Data.Listing.Paging.{results}
use local_kms.Handler.Listing.Walk.{walk, walk_lem}
use local_kms.Tests.Memory.{Value, alias, as_alias}
use local_kms.Tests.Samples.{alias_a1}

abbrev read_alias : Value → Reading Alias
read_alias v = keep_alias [] (as_alias v)

abbrev alias_name : Alias → Text
alias_name a = a.alias_arn

abbrev named : Text → Alias
named arn = record alias_a1 { alias_arn = arn }

abbrev entries : List (Text × Value)
entries =
    (codes "x", alias (named (codes "x")))
    ∷ (codes "y", alias (named (codes "y")))
    ∷ (codes "z", alias (named (codes "z")))
    ∷ []

its_name : (arn : Text) (a : Alias) → found (named arn) ≡ found a → a.alias_arn ≡ arn
its_name arn a e = ground (arith, e)

entries-Listable : Listable read_alias alias_name entries
unfolding text_eq
entries-Listable = (
  (refl, refl, its_name (codes "x"), (refl, (refl, tt))),
  ((refl, refl, its_name (codes "y"), (refl, tt)), ((refl, refl, its_name (codes "z"), tt), tt)),
)

walk_lem_example : walk read_alias alias_name 1 4 entries none ≡ some (results read_alias entries)
unfolding results
walk_lem_example =
    walk_lem read_alias alias_name 1 (omega arith) 4 entries entries-Listable (omega arith)
