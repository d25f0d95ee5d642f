-- ===== src/Data/Recovery.antt =====
-- data/data_recovery.go: the scan for entries that cannot be read, and their removal.
pub mod Report
use local_kms.Prelude.{
  ℕ, ◌+◌, Bool, true, false, Text, codes, contains, Option, none, some, List, [], ◌∷◌, ◌++◌,
  if◌then◌else◌,
}
use local_kms.Config.{Env}
use local_kms.Result.{Result, ok, err, panic}
use local_kms.Data.{DataError}
use local_kms.Data.Backend.{Backend}
use local_kms.Data.Database.{Db, delete_object, unmarshal_key}
use local_kms.Data.DiskSpace.{check_disk_space}

-- `entries` are the names of the corrupted entries; their descriptions are not modelled.
pub record CorruptionReport : Type 0 where
  pub corrupted_keys : ℕ
  pub corrupted_aliases : ℕ
  pub corrupted_tags : ℕ
  pub entries : List Text
  pub disk_space_issue : Option DataError

abbrev pub empty_report : CorruptionReport
empty_report = record {
  corrupted_keys = 0;
  corrupted_aliases = 0;
  corrupted_tags = 0;
  entries = [];
  disk_space_issue = none;
}

pub data Kind : Type 0 where
  tag alias key : Kind

unfoldable pub kind_of : Text → Kind
kind_of name =
    if contains (codes "/tag/") name
    then tag
    else if contains (codes ":alias/") name
    then alias
    else key

abbrev pub add : CorruptionReport → Kind → Text → CorruptionReport
add r tag name = record r {
  corrupted_tags = r.corrupted_tags + 1;
  entries = r.entries ++ name ∷ [];
}
add r alias name = record r {
  corrupted_aliases = r.corrupted_aliases + 1;
  entries = r.entries ++ name ∷ [];
}
add r key name = record r {
  corrupted_keys = r.corrupted_keys + 1;
  entries = r.entries ++ name ∷ [];
}

abbrev is_none : {A : Type 0} → Option A → Bool
is_none none = true
is_none (some a) = false

module _ (B : Backend) where
  open B use {Store, Value, iterate, decode_tag, decode_alias}

  unfoldable pub is_corrupted : Kind → Value → Bool
  is_corrupted tag v = is_none (decode_tag v)
  is_corrupted alias v = is_none (decode_alias v)
  is_corrupted key v = is_none (unmarshal_key B v)

  unfoldable pub scan_from : CorruptionReport → List (Text × Value) → CorruptionReport
  scan_from r [] = r
  scan_from r ((name, v) ∷ es) =
      scan_from (if is_corrupted (kind_of name) v then add r (kind_of name) name else r) es

  -- The iterator has no prefix, so it goes through all entries.
  unfoldable pub scan_for_corruption : Store → CorruptionReport
  unfolding scan_from
  scan_for_corruption d = scan_from empty_report (iterate d [])

  unfoldable pub remove_corrupted_entry : Env → Text → Db B Unit
  remove_corrupted_entry env name = delete_object B env name

  unfoldable pub health_check : Env → Store → CorruptionReport
  unfolding scan_for_corruption
  health_check env d = record (scan_for_corruption d) { disk_space_issue = check_disk_space env }
