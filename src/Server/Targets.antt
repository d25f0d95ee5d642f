-- ===== src/Server/Targets.antt =====
-- What the second part of X-Amz-Target is: the text between the first dot and the next.
use local_kms.Prelude.{
  ◌≡◌, refl, ◌≢◌, ◌⊎◌, inl, inr, ℕ, ◌==◌, Bool-cases, true, false, Text, some, List, [], ◌∷◌, ◌++◌,
  All, arith,
}
use mathlib.Core.List.{append-nil}
use local_kms.Server.{split, second, dot}

abbrev pub Dotless : Text → Type 0
Dotless s = All (λ c. c ≢ dot) s

-- The name stands between the first dot of the target and the next one, or the end.
pub record Names (target name : Text) : Type 0 where
  pub service : Text
  pub rest : Text
  pub is_target : target ≡ service ++ (dot ∷ (name ++ rest))
  pub no_dot : Dotless service
  pub name_no_dot : Dotless name
  pub ends : (rest ≡ []) ⊎ ((after : Text) × (rest ≡ dot ∷ after))

-- How a text is split: its first part, and then nothing, or a dot and the parts of what follows.
record Parted (t : Text) (parts : Text × List Text) : Type 0 where
  rest : Text
  is_text : t ≡ parts.0 ++ rest
  no_dot : Dotless parts.0
  ends :
      ((rest ≡ []) × (parts.1 ≡ []))
      ⊎ ((after : Text) × (rest ≡ dot ∷ after) × (parts.1 ≡ (split after).0 ∷ (split after).1))

split-dot :
    (x : ℕ) (xs : Text) → (x == dot) ≡ true → split (x ∷ xs) ≡ ([], (split xs).0 ∷ (split xs).1)
unfolding split
split-dot x xs h = ground arith

split-other :
    (x : ℕ) (xs : Text) → (x == dot) ≡ false → split (x ∷ xs) ≡ (x ∷ (split xs).0, (split xs).1)
unfolding split
split-other x xs h = ground arith

Parted-dot : (x : ℕ) (xs : Text) → x ≡ dot → Parted (x ∷ xs) ([], (split xs).0 ∷ (split xs).1)
Parted-dot x xs e = record { rest = x ∷ xs; is_text = refl; no_dot = tt; ends = inr (xs, cc, refl) }

Parted-other :
    (x : ℕ) (xs : Text) (parts : Text × List Text)
    → x ≢ dot
    → Parted xs parts
    → Parted (x ∷ xs) (x ∷ parts.0, parts.1)
Parted-other x xs parts ne h = record {
  rest = h.rest;
  is_text = cc h.is_text;
  no_dot = (ne, h.no_dot);
  ends = h.ends;
}

parted : (t : Text) → Parted t (split t)
unfolding split
parted [] = record { rest = []; is_text = refl; no_dot = tt; ends = inl (refl, refl) }
parted (x ∷ xs) = elim (Bool-cases (x == dot)) [
  | inl same ↦ rw (split-dot x xs same) (Parted-dot x xs (ground arith))
  | inr other ↦
      rw (split-other x xs other)
        (Parted-other x xs (split xs) (λ e. absurd (ground arith)) (parted xs))
]

-- Where the parts of a text with a dotless beginning are.
split-append :
    (s rest : Text) → Dotless s → split (s ++ rest) ≡ (s ++ (split rest).0, (split rest).1)
unfolding split
split-append [] rest h = refl
split-append (x ∷ s) rest (ne, h) = ground (arith, split-append s rest h)

unparted :
    (t : Text) (parts : Text × List Text)
    → Parted t parts
    → {name : Text} → second parts ≡ some name
    → (rest : Text) × (after : Text) × (t ≡ parts.0 ++ rest)
      × (rest ≡ dot ∷ after)
      × (name ≡ (split after).0)
unparted t (part, []) h e = absurd (ground arith)
unparted t (part, next ∷ parts) h {name} e = elim h.ends [
  | inl (none_left, nothing) ↦ absurd (ground arith)
  | inr (after, is_rest, is_parts) ↦ (h.rest, after, h.is_text, is_rest, ground arith)
]

-- Where a part ends.
end_of :
    (rest : Text) (parts : List Text)
    → ((rest ≡ []) × (parts ≡ []))
      ⊎ ((after : Text) × (rest ≡ dot ∷ after) × (parts ≡ (split after).0 ∷ (split after).1))
    → (rest ≡ []) ⊎ ((after : Text) × (rest ≡ dot ∷ after))
end_of rest parts (inl (nothing, e)) = inl nothing
end_of rest parts (inr (after, is_rest, e)) = inr (after, is_rest)

joined :
    {t rest after first name : Text} (part last : Text)
    → t ≡ part ++ rest
    → rest ≡ dot ∷ after
    → after ≡ first ++ last
    → name ≡ first
    → t ≡ part ++ (dot ∷ (name ++ last))
joined part last is_text is_rest is_after is_name = cc

pub Names-second : (t name : Text) → second (split t) ≡ some name → Names t name
Names-second t name e =
    let (rest, after, is_text, is_rest, is_name) = unparted t (split t) (parted t) e in
    let next = parted after in
    record {
      service = (split t).0;
      rest = next.rest;
      is_target = joined (split t).0 next.rest is_text is_rest next.is_text is_name;
      no_dot = (parted t).no_dot;
      name_no_dot = rw is_name next.no_dot;
      ends = end_of next.rest (split after).1 next.ends;
    }

first_end :
    (rest : Text) → (rest ≡ []) ⊎ ((after : Text) × (rest ≡ dot ∷ after)) → (split rest).0 ≡ []
unfolding split
first_end rest (inl e) = rw e refl
first_end rest (inr (after, e)) = rw e refl

pub second-Names : (t name : Text) → Names t name → second (split t) ≡ some name
second-Names t name h = rw h.is_target (
    ground (
      arith,
      split-append h.service (dot ∷ (name ++ h.rest)) h.no_dot,
      split-append name h.rest h.name_no_dot,
      split-dot dot (name ++ h.rest) refl,
      first_end h.rest h.ends,
      append-nil name,
    ))
