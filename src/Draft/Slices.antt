-- ===== src/Draft/Slices.antt =====
-- Slices at character boundaries, and where the searches for line breaks land.
use mathlib.Core.List.{append_assoc}
use idk.Common.{
  ℕ, ◌+◌, ◌-◌, ◌≡◌, refl, ap, sym, [], ◌∷◌, ◌++◌, none, some, Text, byte_len, len_utf8,
  len_utf8-pos, ok, arith, ◌⊎◌, inl, inr, Bool-cases, ◌==◌, ==_iff,
}
use idk.Draft.{newline, split_at, drain, find_newline, rfind_newline, last_index}

pub byte_len-append : (s t : Text) → byte_len (s ++ t) ≡ byte_len s + byte_len t
byte_len-append [] t = omega arith
byte_len-append (c ∷ s) t = omega (arith, byte_len-append s t)

pub split_at-append : (l r : Text) → split_at (l ++ r) (byte_len l) ≡ ok (l, r)
unfolding split_at
split_at-append [] [] = refl
split_at-append [] (c ∷ r) = refl
split_at-append (c ∷ l) r =
    let fits : len_utf8 c + byte_len l - len_utf8 c ≡ byte_len l = omega arith in
    ground (arith, fits, split_at-append l r, len_utf8-pos c)

pub drain-append :
    (a b c : Text) → drain (a ++ (b ++ c)) (byte_len a) (byte_len (a ++ b)) ≡ ok (a ++ c)
unfolding drain
drain-append a b c =
    rw (sym (append_assoc a b c), split_at-append (a ++ b) c) (rw (split_at-append a b))

-- A search finds nothing, or splits the text at the character that it finds.
pub find_newline-splits :
    (s : Text)
    → (find_newline s ≡ none)
      ⊎ ((a b : Text) × (s ≡ a ++ newline ∷ b) × (find_newline s ≡ some (byte_len a)))
unfolding find_newline
find_newline-splits [] = inl refl
find_newline-splits (c ∷ s) = elim (Bool-cases (c == newline)) [
  | inl here ↦ rw here (inr ([], s, ap (λ x. x ∷ s) ((==_iff c newline).0 here), refl))
  | inr later ↦ rw later (elim (find_newline-splits s) [
    | inl nowhere ↦ inl (rw nowhere)
    | inr (a, b, same, at) ↦ inr (c ∷ a, b, ap (◌∷◌ c) same, rw at)
  ])
]

pub rfind_newline-splits :
    (s : Text)
    → (rfind_newline s ≡ none)
      ⊎ ((a b : Text) × (s ≡ a ++ newline ∷ b) × (rfind_newline s ≡ some (byte_len a)))
unfolding rfind_newline
rfind_newline-splits [] = inl refl
rfind_newline-splits (c ∷ s) = elim (rfind_newline-splits s) [
  | inr (a, b, same, at) ↦ inr (c ∷ a, b, ap (◌∷◌ c) same, rw at)
  | inl nowhere ↦ rw nowhere (elim (Bool-cases (c == newline)) [
    | inl here ↦ rw here (inr ([], s, ap (λ x. x ∷ s) ((==_iff c newline).0 here), refl))
    | inr later ↦ rw later (inl refl)
  ])
]

pub last_index-splits :
    (s : Text)
    → ((s ≡ []) × (last_index s ≡ none))
      ⊎ ((a : Text) × (c : ℕ) × (s ≡ a ++ c ∷ []) × (last_index s ≡ some (byte_len a)))
unfolding last_index
last_index-splits [] = inl (refl, refl)
last_index-splits (c ∷ s) = elim (last_index-splits s) [
  | inr (a, x, same, at) ↦ inr (c ∷ a, x, ap (◌∷◌ c) same, rw at)
  | inl (nothing_left, at) ↦ inr ([], c, ap (◌∷◌ c) nothing_left, rw at)
]

pub split_at-eq :
    (text l r : Text) (n : ℕ) → text ≡ l ++ r → n ≡ byte_len l → split_at text n ≡ ok (l, r)
split_at-eq text l r n same e = rw (same, e) (split_at-append l r)

pub drain-eq :
    (text a b c : Text) (n m : ℕ)
    → text ≡ a ++ (b ++ c)
    → n ≡ byte_len a
    → m ≡ byte_len (a ++ b)
    → drain text n m ≡ ok (a ++ c)
drain-eq text a b c n m same e f = rw (same, e, f) (drain-append a b c)
