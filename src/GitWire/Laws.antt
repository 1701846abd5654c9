-- ===== src/GitWire/Laws.antt =====
-- What the checks of Git messages guarantee.
use mathlib.Core.Path.{subst}
use idk.Common.{
  ℕ, ◌≤◌, ◌<◌, ◌≡◌, refl, List, [], ◌∷◌, Bool, true, ◌&&◌, ◌||◌, Text, every, ltb, ◌==◌, length,
  byte_len, len_utf8, is_ascii_hexdigit, map, ok, ensure, ◌>>◌, Distinct, arith, All, >>-eq-ok, ◌⊎◌,
  inl, inr,
}
use idk.Model.{invalid_object_id}
use idk.Model.Fields.{valid_id}
use idk.GitWire.{
  nat_Eq, parse_object_id, to_lower, count_distinct, check_entries, validate_task, check_task,
  GitTask, stage, unstage,
}

count_distinct-le : (xs : List ℕ) → count_distinct xs ≤ length xs
count_distinct-le [] = omega arith
count_distinct-le (x ∷ xs) = ground (arith, count_distinct-le xs)

-- The set is as large as the list only if nothing occurs twice.
count_distinct-Distinct : (xs : List ℕ) → count_distinct xs ≡ length xs → Distinct xs
count_distinct-Distinct [] h = tt
count_distinct-Distinct (x ∷ xs) h =
    ground (arith, count_distinct-le xs, count_distinct-Distinct xs)

entries-inside : (xs : List ℕ) → every (λ n. ltb n 100000) xs ≡ true → All (λ n. n < 100000) xs
entries-inside [] h = tt
entries-inside (x ∷ xs) h = ground (arith, entries-inside xs)

module _ (is_uuid : Text → Bool) where
  abbrev pub Selection : List ℕ → Type 0
  Selection entries =
      Distinct entries
      × All (λ n. n < 100000) entries
      × (1 ≤ length entries)
      × (length entries ≤ 4096)

  check_entries-Selection :
      (snapshot : Text) (entries : List ℕ)
      → check_entries is_uuid snapshot entries ≡ ok tt
      → Selection entries
  unfolding check_entries valid_id
  check_entries-Selection snapshot [] h = absurd (ground (arith, h))
  check_entries-Selection snapshot (x ∷ xs) h = (
    count_distinct-Distinct (x ∷ xs) (ground (arith, h)),
    entries-inside (x ∷ xs) (ground (arith, h)),
    ground (arith, h),
    ground (arith, h),
  )

  -- A task to stage or to unstage that is accepted names its context and its snapshot by UUIDs, and
  -- selects between 1 and 4096 entries, all different, with indices below 100000.
  pub validate_task-stage :
      (context snapshot : Text) (entries : List ℕ) (task : GitTask)
      → (task ≡ stage context snapshot entries) ⊎ (task ≡ unstage context snapshot entries)
      → validate_task is_uuid task ≡ ok tt
      → (is_uuid context ≡ true) × (is_uuid snapshot ≡ true) × Selection entries
  unfolding validate_task check_task check_entries valid_id
  validate_task-stage context snapshot entries task kind h = elim kind [
    | inl same ↦ accepted (subst (λ t. validate_task is_uuid t ≡ ok tt) same h)
    | inr same ↦ accepted (subst (λ t. validate_task is_uuid t ≡ ok tt) same h)
  ]
    where
      accepted :
          validate_task is_uuid (stage context snapshot entries) ≡ ok tt
          → (is_uuid context ≡ true) × (is_uuid snapshot ≡ true) × Selection entries
      accepted k =
          let (first, rest) =
            >>-eq-ok (valid_id is_uuid context) (check_entries is_uuid snapshot entries) k in
          (
            ground (arith, first),
            ground (arith, rest),
            check_entries-Selection snapshot entries rest,
          )

to_lower-len : (c : ℕ) → is_ascii_hexdigit c ≡ true → len_utf8 (to_lower c) ≡ len_utf8 c
to_lower-len c h = ground arith

to_lower-hex : (c : ℕ) → is_ascii_hexdigit c ≡ true → is_ascii_hexdigit (to_lower c) ≡ true
to_lower-hex c h = ground arith

lowered :
    (s : Text)
    → every is_ascii_hexdigit s ≡ true
    → (byte_len (map to_lower s) ≡ byte_len s)
      × (every is_ascii_hexdigit (map to_lower s) ≡ true)
      × (map to_lower (map to_lower s) ≡ map to_lower s)
lowered [] h = (refl, refl, refl)
lowered (c ∷ s) h =
    let (size, hex, again) = lowered s (ground (arith, h)) in
    let one : is_ascii_hexdigit c ≡ true = ground (arith, h) in
    (
      ground (arith, size, to_lower-len c one),
      ground (arith, hex, to_lower-hex c one),
      ground (arith, again),
    )

-- When an object identifier is accepted, its normal form is accepted, is its own normal form, and
-- is as long as the identifier.
pub parse_object_id_idem :
    (value oid : Text)
    → parse_object_id value ≡ ok oid
    → (parse_object_id oid ≡ ok oid) × (byte_len oid ≡ byte_len value)
unfolding parse_object_id
parse_object_id_idem value oid h =
    let (checked, result) =
      >>-eq-ok
        (ensure ((byte_len value == 40 || byte_len value == 64) && every is_ascii_hexdigit value)
          invalid_object_id)
        (ok (map to_lower value)) h in
    let same : map to_lower value ≡ oid = ground (arith, result) in
    let (size, hex, again) = lowered value (ground (arith, checked)) in
    subst
      (λ x.
        ((ensure ((byte_len x == 40 || byte_len x == 64) && every is_ascii_hexdigit x)
              invalid_object_id
            >> ok (map to_lower x))
          ≡ ok x)
        × (byte_len x ≡ byte_len value))
      same (ground (arith, checked, size, hex, again), size)
