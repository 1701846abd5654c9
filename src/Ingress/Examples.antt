-- ===== src/Ingress/Examples.antt =====
-- The filter on a few concrete streams, and instances of the theorems.
use idk.Common.{ℕ, zero, suc, ◌+◌, ◌≡◌, refl, inr, List, [], ◌∷◌, ◌++◌, true, All, length, arith}
use idk.Ingress.{default, ground_state, filter, filter_loop, filter_byte}
use idk.Ingress.Stream.{
  IsBounded, is_osc_body, filter-append, filter-IsBounded, filter_whole, filter_cut,
}

-- A title, and a letter after it.
abbrev title : List ℕ
title = b'0' ∷ b';' ∷ b'x' ∷ []

abbrev stream : List ℕ
stream = 0x1b ∷ b']' ∷ b'0' ∷ b';' ∷ b'x' ∷ []

-- A command that is longer than the limit.
repeat : ℕ → List ℕ → List ℕ
repeat zero bs = bs
repeat (suc n) bs = b'x' ∷ repeat n bs

repeat-inside :
    (n : ℕ) (bs : List ℕ)
    → All (λ b. is_osc_body b ≡ true) bs
    → All (λ b. is_osc_body b ≡ true) (repeat n bs)
unfolding repeat
repeat-inside zero bs h = h
repeat-inside (suc n) bs h = (refl, repeat-inside n bs h)

repeat-length : (n : ℕ) (bs : List ℕ) → length (repeat n bs) ≡ n + length bs
unfolding repeat
repeat-length zero bs = omega arith
repeat-length (suc n) bs = omega (arith, repeat-length n bs)

default-IsBounded : IsBounded default
default-IsBounded = record { held_in_osc = inr refl; held_le = omega arith }

held_run : (filter default stream).0.held ≡ b']' ∷ title
unfolding filter filter_loop filter_byte
held_run = refl

filter-append_example : filter default (stream ++ title) ≡ (
    let (i', out) = filter default stream in
    let (i'', rest) = filter i' title in (i'', out ++ rest))
filter-append_example = filter-append default stream title

filter-IsBounded_example : IsBounded (filter default stream).0
filter-IsBounded_example = filter-IsBounded default stream default-IsBounded

filter_whole_example :
    filter default (0x1b ∷ b']' ∷ (title ++ 7 ∷ title))
    ≡ (let (i', out) = filter default title in (i', 0x1b ∷ b']' ∷ (title ++ 7 ∷ out)))
filter_whole_example =
    filter_whole default title title refl refl (refl, (refl, (refl, tt))) (omega arith)

filter_cut_example : filter default (0x1b ∷ b']' ∷ (repeat 16384 [] ++ 7 ∷ title)) ≡ (
    let (i', out) = filter (record { state = ground_state; held = []; limited = true }) title in
    (i', 0x1b ∷ 0x18 ∷ out))
filter_cut_example =
    filter_cut default (repeat 16384 []) title refl refl (repeat-inside 16384 [] tt)
      (omega (arith, repeat-length 16384 []))
