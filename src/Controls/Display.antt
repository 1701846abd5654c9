-- ===== src/Controls/Display.antt =====
-- `safe_utf8` and `display_text`: bounded text with no control character but line breaks and tabs, and
-- no bidirectional override.
use idk.Common.{
  ℕ, ◌+◌, ◌≤◌, ◌≡◌, refl, List, [], ◌∷◌, ◌++◌, false, Text, if◌then◌else◌, ltb, All, byte_len,
  len_utf8, from_utf8_lossy, arith, Bool-cases, inl, inr, ◌-◌, suc, ap, ltb→lt,
}
use idk.Controls.{forbidden_character, collect, safe_utf8}

-- The text without its forbidden characters.
abbrev pub allowed : Text → Text
allowed [] = []
allowed (c ∷ s) = if forbidden_character c then allowed s else c ∷ allowed s

collect-le :
    (maximum size : ℕ) (s : Text)
    → size ≤ maximum
    → size + byte_len (collect maximum size s) ≤ maximum
unfolding collect
collect-le maximum size [] h = omega arith
collect-le maximum size (c ∷ s) h =
    ground (arith, collect-le maximum size s h, collect-le maximum (size + len_utf8 c) s)

collect-allowed :
    (maximum size : ℕ) (s : Text)
    → All (λ c. forbidden_character c ≡ false) (collect maximum size s)
unfolding collect
collect-allowed maximum size [] = tt
collect-allowed maximum size (c ∷ s) =
    ground (arith, collect-allowed maximum size s, collect-allowed maximum (size + len_utf8 c) s)

-- What was cut off, and the character that did not fit.
abbrev pub Cut : ℕ → Text → Type 0
Cut room [] = Unit
Cut room (c ∷ s) = suc room ≤ len_utf8 c

-- Whatever the bytes are, the text that `safe_utf8` makes of them has at most `maximum` bytes and
-- no forbidden character.
pub safe_utf8_bounds :
    (bytes : List ℕ) (maximum : ℕ)
    → (byte_len (safe_utf8 bytes maximum) ≤ maximum)
      × All (λ c. forbidden_character c ≡ false) (safe_utf8 bytes maximum)
unfolding safe_utf8
safe_utf8_bounds bytes maximum = (
  omega (arith, collect-le maximum 0 (from_utf8_lossy bytes)),
  collect-allowed maximum 0 (from_utf8_lossy bytes),
)

Cut-assoc : (a b c d : ℕ) (rest : Text) → Cut (a - (b + c + d)) rest → Cut (a - (b + (c + d))) rest
Cut-assoc a b c d [] h = tt
Cut-assoc a b c d (x ∷ rest) h = omega arith

Cut-zero : (a b : ℕ) (rest : Text) → Cut (a - (0 + b)) rest → Cut (a - b) rest
Cut-zero a b [] h = tt
Cut-zero a b (x ∷ rest) h = omega arith

collect-prefix :
    (maximum size : ℕ) (s : Text)
    → size ≤ maximum
    → (rest : Text) × (allowed s ≡ collect maximum size s ++ rest)
      × Cut (maximum - (size + byte_len (collect maximum size s))) rest
unfolding collect
collect-prefix maximum size [] h = ([], refl, tt)
collect-prefix maximum size (c ∷ s) h = elim (Bool-cases (forbidden_character c)) [
  | inl bad ↦ rw bad (collect-prefix maximum size s h)
  | inr good ↦ elim (Bool-cases (ltb maximum (size + len_utf8 c))) [
    | inl full ↦ rw (good, full) (c ∷ allowed s, refl, omega (arith, ltb→lt _ _ full))
    | inr fits ↦
        let (rest, same, cut) = collect-prefix maximum (size + len_utf8 c) s (ground arith) in
        rw (good, fits) (rest, ap (◌∷◌ c) same, Cut-assoc maximum size _ _ rest cut)
  ]
]

-- The text that `safe_utf8` makes is a prefix of the decoded bytes without their forbidden
-- characters, and the next character, if there is one, would not fit.
pub safe_utf8_longest :
    (bytes : List ℕ) (maximum : ℕ)
    → (rest : Text) × (allowed (from_utf8_lossy bytes) ≡ safe_utf8 bytes maximum ++ rest)
      × Cut (maximum - byte_len (safe_utf8 bytes maximum)) rest
unfolding safe_utf8
safe_utf8_longest bytes maximum =
    let (rest, same, cut) = collect-prefix maximum 0 (from_utf8_lossy bytes) (omega arith) in
    (rest, same, Cut-zero maximum _ rest cut)
