-- ===== src/Data/Recovery/Report.antt =====
-- The report of ScanForCorruption and HealthCheck in data/data_recovery.go.
use local_kms.Prelude.{
  ℕ, ◌+◌, ◌≡◌, refl, ◌∙◌, ap, sym, Bool, true, false, not, ◌&&◌, ◌||◌, Text, codes, contains,
  Option, none, some, List, [], ◌∷◌, ◌++◌, map, length, filter, arith, Bool-cases, inl, inr,
  if◌then◌else◌,
}
use mathlib.Core.List.{append_assoc, append-nil}
use local_kms.Config.{Env}
use local_kms.Data.Backend.{Backend}
use local_kms.Data.Database.{unmarshal_key}
use local_kms.Data.Recovery.{
  CorruptionReport, kind_of, is_corrupted, add, scan_from, scan_for_corruption, health_check,
  empty_report,
}

abbrev pub unread : {A : Type 0} → Option A → Bool
unread none = true
unread (some a) = false

module _ (B : Backend) where
  open B use {Store, Value, iterate, decode_tag, decode_alias}

  -- A name with /tag/ in it has no tag behind it, one with :alias/ but not /tag/ no alias, and one with
  -- neither no key.
  abbrev pub bad_tag : Text × Value → Bool
  bad_tag (name, v) = contains (codes "/tag/") name && unread (decode_tag v)

  abbrev pub bad_alias : Text × Value → Bool
  bad_alias (name, v) =
      not (contains (codes "/tag/") name)
      && contains (codes ":alias/") name
      && unread (decode_alias v)

  abbrev pub bad_key : Text × Value → Bool
  bad_key (name, v) =
      not (contains (codes "/tag/") name)
      && not (contains (codes ":alias/") name)
      && unread (unmarshal_key B v)

  abbrev pub is_bad : Text × Value → Bool
  is_bad e = bad_tag e || bad_alias e || bad_key e

  abbrev pub names : List (Text × Value) → List Text
  names es = map (λ e. e.0) es

  -- A step of the scan.
  abbrev step : CorruptionReport → Text × Value → CorruptionReport
  step r (name, v) = if is_corrupted B (kind_of name) v then add r (kind_of name) name else r

  abbrev one : Bool → ℕ
  one true = 1
  one false = 0

  step-tags :
      (r : CorruptionReport) (e : Text × Value)
      → (step r e).corrupted_tags ≡ r.corrupted_tags + one (bad_tag e)
  unfolding kind_of is_corrupted
  step-tags r (name, v) = ground arith

  step-aliases :
      (r : CorruptionReport) (e : Text × Value)
      → (step r e).corrupted_aliases ≡ r.corrupted_aliases + one (bad_alias e)
  unfolding kind_of is_corrupted
  step-aliases r (name, v) = ground arith

  step-keys :
      (r : CorruptionReport) (e : Text × Value)
      → (step r e).corrupted_keys ≡ r.corrupted_keys + one (bad_key e)
  unfolding kind_of is_corrupted
  step-keys r (name, v) = ground arith

  step-entries :
      (r : CorruptionReport) (e : Text × Value)
      → (step r e).entries ≡ r.entries ++ (if is_bad e then e.0 ∷ [] else [])
  unfolding kind_of is_corrupted
  step-entries r (name, v) = ground (arith, append-nil r.entries)

  -- A count that each step raises by one for the entries of a kind.
  counted :
      (count : CorruptionReport → ℕ) (bad : Text × Value → Bool)
      → ((r : CorruptionReport) (e : Text × Value) → count (step r e) ≡ count r + one (bad e))
      → (r : CorruptionReport) (es : List (Text × Value))
      → count (scan_from B r es) ≡ count r + length (filter bad es)
  unfolding scan_from
  counted count bad h r [] = omega arith
  counted count bad h r (e ∷ es) = ground (arith, h r e, counted count bad h (step r e) es)

  names-filter :
      (e : Text × Value) (es : List (Text × Value))
      → names (filter is_bad (e ∷ es))
        ≡ (if is_bad e then e.0 ∷ [] else []) ++ names (filter is_bad es)
  names-filter e es = elim (Bool-cases (is_bad e)) [
    | inl bad ↦ rw bad refl
    | inr good ↦ rw good refl
  ]

  scan_from-entries :
      (r : CorruptionReport) (es : List (Text × Value))
      → (scan_from B r es).entries ≡ r.entries ++ names (filter is_bad es)
  unfolding scan_from
  scan_from-entries r [] = sym (append-nil r.entries)
  scan_from-entries r (e ∷ es) =
      scan_from-entries (step r e) es
      ∙ ap (λ l. l ++ names (filter is_bad es)) (step-entries r e)
      ∙ append_assoc r.entries (if is_bad e then e.0 ∷ [] else []) (names (filter is_bad es))
      ∙ ap (λ l. r.entries ++ l) (sym (names-filter e es))

  -- The report of a health check lists the names of the entries that cannot be read, in the store's
  -- order: those with /tag/ in their name that are no tag, of the others those with :alias/ that are no
  -- alias, and of the others those that are no key; and it counts each of these three kinds.
  pub health_check_lem :
      (env : Env) (d : Store)
      → let r = health_check B env d in
        (r.entries ≡ names (filter is_bad (iterate d [])))
        × (r.corrupted_tags ≡ length (filter bad_tag (iterate d [])))
        × (r.corrupted_aliases ≡ length (filter bad_alias (iterate d [])))
        × (r.corrupted_keys ≡ length (filter bad_key (iterate d [])))
  unfolding health_check scan_for_corruption
  health_check_lem env d = (
    scan_from-entries empty_report (iterate d []),
    omega (arith, counted (λ r. r.corrupted_tags) bad_tag step-tags empty_report (iterate d [])),
    omega (
      arith,
      counted (λ r. r.corrupted_aliases) bad_alias step-aliases empty_report (iterate d []),
    ),
    omega (arith, counted (λ r. r.corrupted_keys) bad_key step-keys empty_report (iterate d [])),
  )
