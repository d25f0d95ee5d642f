-- ===== src/Tests/Stores.antt =====
-- Listings, aliases, grants and the health check in memory.
use local_kms.Prelude.{
  ◌≡◌, ◌↔◌, refl, true, false, Text, codes, length, List, [], ◌∷◌, none, some, text_eq, take,
  filter,
}
use local_kms.Result.{ok, err}
use local_kms.Data.{Alias, not_found, invalid_marker}
use local_kms.Data.DiskSpace.{check_disk_space}
use local_kms.Data.Database.{put_object, delete_object, validate_grant_data}
use local_kms.Data.Listing.{page, Reading}
use local_kms.Data.Listing.Paging.{results, page_at, page_unmet}
use local_kms.Data.Aliases.{keep_alias}
use local_kms.Data.Grants.{
  GrantFilter, matches, save_grant, load_grant, delete_grant, find_in, grant_storage_key,
}
use local_kms.Data.Grants.Stored.{
  Allows, matches_iff, load-save_grant, find_in-At, find_in-none, At,
}
use local_kms.Data.Recovery.{health_check}
use local_kms.Data.Recovery.Report.{names, is_bad, bad_tag, bad_alias, bad_key, health_check_lem}
use local_kms.Tests.Memory.{memory, Store, Value, alias, grant, garbage, as_alias}
use local_kms.Tests.Samples.{env, key_arn, alias_a1, grant_g1, store}

abbrev alias_named : Text → Alias
alias_named name = record alias_a1 { alias_arn = name; alias_name = name }

abbrev entries : List (Text × Value)
entries =
    (codes "a", alias (alias_named (codes "a")))
    ∷ (codes "b", alias (alias_named (codes "b")))
    ∷ (codes "c", alias (alias_named (codes "c")))
    ∷ []

abbrev read_alias : Value → Reading Alias
read_alias v = keep_alias [] (as_alias v)

lacks_b : text_eq (codes "b") (codes "a") ≡ false
unfolding text_eq
lacks_b = refl

page_at_example :
    page read_alias false (some (codes "b")) 2 entries
    ≡ ok (
        take 2 (
          results read_alias (
            (codes "b", alias (alias_named (codes "b")))
            ∷ (codes "c", alias (alias_named (codes "c")))
            ∷ [])))
page_at_example =
    page_at read_alias (codes "b") 1 ((codes "a", alias (alias_named (codes "a"))) ∷ [])
      (alias (alias_named (codes "b"))) ((codes "c", alias (alias_named (codes "c"))) ∷ [])
      (lacks_b, tt) (refl, (refl, tt))

page_unmet_example :
    page read_alias false (some (codes "b")) 5 ((codes "a", garbage) ∷ []) ≡ err invalid_marker
page_unmet_example =
    page_unmet read_alias (codes "b") 5 false ((codes "a", garbage) ∷ []) (lacks_b, tt)

abbrev with_grant : Store
with_grant = (codes "grant/g1", grant grant_g1) ∷ []

grant_saved : save_grant memory env grant_g1 [] ≡ (ok tt, with_grant)
unfolding save_grant validate_grant_data put_object check_disk_space grant_storage_key
grant_saved = refl

grant_deleted : delete_grant memory env (codes "g1") with_grant ≡ (ok tt, [])
unfolding delete_grant delete_object check_disk_space grant_storage_key text_eq
grant_deleted = refl

load-save_grant_example :
    (load_grant memory (codes "g1") with_grant ≡ (ok grant_g1, with_grant))
    × (load_grant memory (codes "g1") [] ≡ (err not_found, []))
load-save_grant_example =
    load-save_grant memory env grant_g1 [] with_grant [] grant_saved grant_deleted

token_found : find_in memory (codes "t1") false with_grant ≡ ok (some grant_g1)
unfolding find_in text_eq
token_found = refl

find_in-At_example : At memory (codes "t1") grant_g1 with_grant
find_in-At_example = find_in-At memory (codes "t1") false with_grant grant_g1 token_found

other_token : text_eq (codes "t1") (codes "t2") ≡ false
unfolding text_eq
other_token = refl

find_in-none_example : find_in memory (codes "t2") false with_grant ≡ ok none
find_in-none_example =
    find_in-none memory (codes "t2") with_grant ((grant_g1, refl, other_token), tt)

abbrev by_principal : GrantFilter
by_principal = record {
  key_arn = key_arn;
  grant_id = [];
  grantee_principal = codes "p1";
  grantee_service_principal = [];
  retiring_principal = [];
  retiring_service_principal = [];
}

matches_iff_example : (matches by_principal grant_g1 ≡ true) ↔ (
    Allows key_arn key_arn
    × Allows [] (codes "g1")
    × Allows (codes "p1") (codes "p1")
    × Allows [] []
    × Allows [] (codes "p2")
    × Allows [] [])
matches_iff_example = matches_iff by_principal grant_g1

abbrev damaged : Store
damaged = (key_arn, garbage) ∷ (codes "arn:alias/a", garbage) ∷ store

health_check_lem_example :
    let r = health_check memory env damaged in
    (r.entries ≡ names memory (filter (is_bad memory) (memory.iterate damaged [])))
    × (r.corrupted_tags ≡ length (filter (bad_tag memory) (memory.iterate damaged [])))
    × (r.corrupted_aliases ≡ length (filter (bad_alias memory) (memory.iterate damaged [])))
    × (r.corrupted_keys ≡ length (filter (bad_key memory) (memory.iterate damaged [])))
health_check_lem_example = health_check_lem memory env damaged
