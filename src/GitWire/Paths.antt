-- ===== src/GitWire/Paths.antt =====
-- The file names that `GitPath::from_bytes` of crates/idk/src/git/types.rs accepts.
use mathlib.Core.Path.{subst}
use idk.Common.{
  ℕ, ◌≤◌, ◌≡◌, ◌≢◌, refl, sym, ap, ◌∙◌, List, [], ◌∷◌, ◌++◌, false, ◌||◌, any, ◌==◌, length,
  is_empty, ok, segments, arith, All, Bool-cases, inl, inr, contains_char, text_eq_iff, text_eq,
}
use idk.GitWire.{from_bytes, bad_part, starts_with_slash}

-- The name of a file or a directory: some bytes, no slash and no NUL among them, and neither `.` nor `..`.
pub record FileName (part : List ℕ) : Type 0 where
  pub plain_bytes : All (λ b. (b ≢ b'/') × (b ≢ 0)) part
  pub not_empty : part ≢ []
  pub not_here : part ≢ b'.' ∷ []
  pub not_parent : part ≢ b'.' ∷ b'.' ∷ []

-- The names, with a slash between each and the next.
abbrev pub join : List ℕ → List (List ℕ) → List ℕ
join first [] = first
join first (next ∷ rest) = first ++ b'/' ∷ join next rest

-- There is always a first segment.
segments-some : (p : List ℕ) → (x : List ℕ) × (xs : List (List ℕ)) × (segments p ≡ x ∷ xs)
segments-some [] = ([], [], refl)
segments-some (c ∷ p) =
    let (x, xs, same) = segments-some p in
    elim (Bool-cases (c == b'/')) [
      | inl slash ↦ rw slash ([], segments p, refl)
      | inr other ↦ rw (other, same) (c ∷ x, xs, refl)
    ]

join-cons : (c : ℕ) (x : List ℕ) (xs : List (List ℕ)) → join (c ∷ x) xs ≡ c ∷ join x xs
join-cons c x [] = refl
join-cons c x (y ∷ xs) = refl

segments-append : (p q : List ℕ) → segments (p ++ b'/' ∷ q) ≡ segments p ++ segments q
segments-append [] q = refl
segments-append (c ∷ p) q =
    let (x, xs, same) = segments-some p in
    elim (Bool-cases (c == b'/')) [
      | inl slash ↦ rw (slash, segments-append p q) refl
      | inr other ↦ rw (other, segments-append p q, same) refl
    ]

segments-name : (part : List ℕ) → All (λ b. (b ≢ b'/') × (b ≢ 0)) part → segments part ≡ part ∷ []
segments-name [] h = refl
segments-name (c ∷ part) h =
    let other : (c == b'/') ≡ false = ground (arith, h.0.0) in
    rw (other, segments-name part h.1) refl

segments-join :
    (first : List ℕ) (rest : List (List ℕ))
    → FileName first
    → All FileName rest
    → segments (join first rest) ≡ first ∷ rest
segments-join first [] h hs = segments-name first h.plain_bytes
segments-join first (next ∷ rest) h hs =
    segments-append first (join next rest)
    ∙ rw (segments-name first h.plain_bytes, segments-join next rest hs.0 hs.1) refl

abbrev joined : List (List ℕ) → List ℕ
joined [] = []
joined (x ∷ xs) = join x xs

-- The segments, joined, are the bytes.
joined-segments : (p : List ℕ) → joined (segments p) ≡ p
joined-segments [] = refl
joined-segments (c ∷ p) =
    let (x, xs, same) = segments-some p in
    let rest : join x xs ≡ p = sym (ap joined same) ∙ joined-segments p in
    elim (Bool-cases (c == b'/')) [
      | inl slash ↦
          let is_slash : b'/' ≡ c = ground (arith, slash) in
          rw (slash, same, rest) (ap (λ b. b ∷ p) is_slash)
      | inr other ↦ rw (other, same) (join-cons c x xs ∙ ap (◌∷◌ c) rest)
    ]

-- No segment has a slash, nor a NUL if the bytes have none.
pub segments-plain :
    (p : List ℕ)
    → contains_char 0 p ≡ false
    → All (λ part. All (λ b. (b ≢ b'/') × (b ≢ 0)) part) (segments p)
segments-plain [] h = (tt, tt)
segments-plain (c ∷ p) h =
    let (x, xs, same) = segments-some p in
    let rest = segments-plain p (ground (arith, h)) in
    let no_nul : c ≢ 0 = λ e. absurd (ground (arith, h, e)) in
    elim (Bool-cases (c == b'/')) [
      | inl slash ↦ rw slash (tt, rest)
      | inr other ↦
          let no_slash : c ≢ b'/' = λ e. absurd (ground (arith, other, e)) in
          let kept : All (All (λ b. (b ≢ b'/') × (b ≢ 0))) (x ∷ xs) =
            subst (All (All (λ b. (b ≢ b'/') × (b ≢ 0)))) same rest in
          rw (other, same) (((no_slash, no_nul), kept.0), kept.1)
    ]

pub name-good :
    (part : List ℕ) → All (λ b. (b ≢ b'/') × (b ≢ 0)) part → bad_part part ≡ false → FileName part
name-good part plain h = record {
  plain_bytes = plain;
  not_empty = λ e. absurd (ground (arith, h, ap bad_part e));
  not_here = λ e. absurd (ground (arith, h, (text_eq_iff part (b'.' ∷ [])).1 e));
  not_parent = λ e. absurd (ground (arith, h, (text_eq_iff part (b'.' ∷ b'.' ∷ [])).1 e));
}

text_eq-differs : (s t : List ℕ) → s ≢ t → text_eq s t ≡ false
text_eq-differs s t h = elim (Bool-cases (text_eq s t)) [
  | inl same ↦ elim (h ((text_eq_iff s t).0 same)) [ ]
  | inr other ↦ other
]

name-not_bad : (part : List ℕ) → FileName part → bad_part part ≡ false
name-not_bad [] h = elim (h.not_empty refl) [ ]
name-not_bad (c ∷ part) h = ground (
  arith,
  text_eq-differs (c ∷ part) (b'.' ∷ []) h.not_here,
  text_eq-differs (c ∷ part) (b'.' ∷ b'.' ∷ []) h.not_parent,
)

names-good :
    (parts : List (List ℕ))
    → All (λ part. All (λ b. (b ≢ b'/') × (b ≢ 0)) part) parts
    → any bad_part parts ≡ false
    → All FileName parts
names-good [] plain h = tt
names-good (part ∷ parts) plain h =
    (name-good part plain.0 (ground (arith, h)), names-good parts plain.1 (ground (arith, h)))

names-not_bad : (parts : List (List ℕ)) → All FileName parts → any bad_part parts ≡ false
names-not_bad [] h = refl
names-not_bad (part ∷ parts) h = ground (arith, name-not_bad part h.0, names-not_bad parts h.1)

name-no_nul : (part : List ℕ) → All (λ b. (b ≢ b'/') × (b ≢ 0)) part → contains_char 0 part ≡ false
name-no_nul [] h = refl
name-no_nul (c ∷ part) h =
    let other : (c == 0) ≡ false = ground (arith, h.0.1) in rw other (name-no_nul part h.1)

contains_char-append :
    (c : ℕ) (p q : List ℕ) → contains_char c (p ++ q) ≡ contains_char c p || contains_char c q
contains_char-append c [] q = refl
contains_char-append c (x ∷ p) q = ground (arith, contains_char-append c p q)

join-no_nul :
    (first : List ℕ) (rest : List (List ℕ))
    → FileName first
    → All FileName rest
    → contains_char 0 (join first rest) ≡ false
join-no_nul first [] h hs = name-no_nul first h.plain_bytes
join-no_nul first (next ∷ rest) h hs =
    contains_char-append 0 first (b'/' ∷ join next rest)
    ∙ ground (arith, name-no_nul first h.plain_bytes, join-no_nul next rest hs.0 hs.1)

join-begins :
    (first : List ℕ) (rest : List (List ℕ))
    → FileName first
    → (is_empty (join first rest) ≡ false) × (starts_with_slash (join first rest) ≡ false)
join-begins [] rest h = elim (h.not_empty refl) [ ]
join-begins (c ∷ first) rest h =
    rw (join-cons c first rest) (refl, ground (arith, h.plain_bytes.0.0))

-- Accepted bytes are names joined by slashes, each name not empty, without a slash or a NUL, and neither
-- `.` nor `..`; they are at most 8192 bytes, and are kept as they are.
pub from_bytes-names :
    (bytes path : List ℕ)
    → from_bytes bytes ≡ ok path
    → (first : List ℕ) × (rest : List (List ℕ)) × (bytes ≡ join first rest)
      × FileName first
      × All FileName rest
      × (length bytes ≤ 8192)
      × (path ≡ bytes)
unfolding from_bytes
from_bytes-names bytes path h =
    let (first, rest, same) = segments-some bytes in
    let names : All FileName (segments bytes) =
      names-good (segments bytes) (segments-plain bytes (ground (arith, h))) (ground (arith, h)) in
    let named : All FileName (first ∷ rest) = subst (All FileName) same names in
    (
      first,
      rest,
      sym (joined-segments bytes) ∙ ap joined same,
      named.0,
      named.1,
      ground (arith, h),
      ground (arith, h),
    )

-- Names joined by slashes, each not empty, without a slash or a NUL, and neither `.` nor `..`, are
-- accepted if they have at most 8192 bytes with the slashes.
pub from_bytes-join :
    (first : List ℕ) (rest : List (List ℕ))
    → FileName first
    → All FileName rest
    → length (join first rest) ≤ 8192
    → from_bytes (join first rest) ≡ ok (join first rest)
unfolding from_bytes
from_bytes-join first rest h hs fits = ground (
  arith,
  fits,
  join-no_nul first rest h hs,
  segments-join first rest h hs,
  names-not_bad (first ∷ rest) (h, hs),
  join-begins first rest h,
)
