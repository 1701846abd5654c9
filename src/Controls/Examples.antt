-- ===== src/Controls/Examples.antt =====
-- The filter on a few concrete bytes, and instances of the theorems.
use idk.Common.{
  ℕ, ◌≡◌, ◌≤◌, refl, List, [], ◌∷◌, ◌++◌, true, false, All, map, arith, byte_len, ◌-◌,
  from_utf8_lossy,
}
use idk.Controls.{default, feed, consume, forbidden_character, safe_utf8}
use idk.Controls.Visible.{
  is_passed_byte, newline, in_state, feed-All, feed_unremoved, feed-skips_osc,
}
use idk.Controls.Display.{allowed, Cut, safe_utf8_bounds, safe_utf8_longest}
use idk.Controls.{plain}

-- `ESC [ 1 m`, a letter, CR LF, NUL.
abbrev colored : List ℕ
colored = 0x1b ∷ b'[' ∷ b'1' ∷ b'm' ∷ b'a' ∷ 0xd ∷ 0xa ∷ 0 ∷ []

abbrev clean : List ℕ
clean = b'a' ∷ 0xd ∷ b'b' ∷ []

colored_run : (feed default colored).1 ≡ b'a' ∷ 0xa ∷ 0xa ∷ []
unfolding feed consume
colored_run = refl

feed-All_example :
    All (λ b. is_passed_byte b ≡ true) (feed default (0x1b ∷ b'[' ∷ b'm' ∷ b'a' ∷ [])).1
feed-All_example =
    feed-All default (0x1b ∷ b'[' ∷ b'm' ∷ b'a' ∷ [])
      (omega arith, (omega arith, (omega arith, (omega arith, tt))))

feed_unremoved_example :
    ((feed default clean).1 ≡ map newline clean) × ((feed default clean).0.state ≡ plain)
unfolding feed consume
feed_unremoved_example = feed_unremoved default clean refl refl

feed-skips_osc_example :
    feed default (0x1b ∷ b']' ∷ ((b'0' ∷ b'x' ∷ []) ++ 7 ∷ clean)) ≡ feed (in_state plain) clean
feed-skips_osc_example = feed-skips_osc default (b'0' ∷ b'x' ∷ []) clean refl (refl, (refl, tt))

safe_utf8_bounds_example :
    (byte_len (safe_utf8 colored 3) ≤ 3)
    × All (λ c. forbidden_character c ≡ false) (safe_utf8 colored 3)
safe_utf8_bounds_example = safe_utf8_bounds colored 3

safe_utf8_longest_example :
    (rest : List ℕ) × (allowed (from_utf8_lossy colored) ≡ safe_utf8 colored 3 ++ rest)
    × Cut (3 - byte_len (safe_utf8 colored 3)) rest
safe_utf8_longest_example = safe_utf8_longest colored 3
