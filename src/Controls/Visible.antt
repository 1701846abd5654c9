-- ===== src/Controls/Visible.antt =====
-- What the filter lets through, byte by byte and chunk by chunk.
use idk.Common.{
  ℕ, ◌<◌, ◌≡◌, refl, List, [], ◌∷◌, ◌++◌, Option, none, some, Bool, true, false, ◌||◌,
  if◌then◌else◌, ◌==◌, within, All, map, arith, ap, not,
}
use idk.Controls.{Controls, Escape, plain, start, csi, osc, consume, feed}

-- A line break, a tab, a byte of printable ASCII, or a byte from 0x80 on. What such a byte stands for is
-- known only when the bytes are decoded, and `safe_utf8` tests it then.
abbrev pub is_passed_byte : ℕ → Bool
is_passed_byte b = b == 0xa || b == 0x9 || within 0x20 0x7e b || within 0x80 0xff b

abbrev passed? : Option ℕ → Bool
passed? none = true
passed? (some b) = is_passed_byte b

consume_passed : (c : Controls) (b : ℕ) → b < 256 → passed? (consume c b).1 ≡ true
unfolding consume
consume_passed c b h = ground arith

-- Whatever state the filter is in and whatever bytes come, only line breaks, tabs, the bytes 0x20 to
-- 0x7e and bytes from 0x80 on leave it: no other ASCII control does, and in particular no ESC and
-- no carriage return.
pub feed-All :
    (c : Controls) (bs : List ℕ)
    → All (λ b. b < 256) bs
    → All (λ b. is_passed_byte b ≡ true) (feed c bs).1
unfolding feed
feed-All c [] h = tt
feed-All c (b ∷ bs) h = ground (arith, consume_passed c b h.0, feed-All (consume c b).0 bs h.1)

-- To filter two chunks one after the other gives the same bytes, and the same state, as to filter
-- them as one chunk.
pub feed-append :
    (c : Controls) (xs ys : List ℕ)
    → feed c (xs ++ ys)
      ≡ (let (c', out) = feed c xs in let (c'', rest) = feed c' ys in (c'', out ++ rest))
unfolding feed
feed-append c [] ys = refl
feed-append c (x ∷ xs) ys = ground (arith, feed-append (consume c x).0 xs ys)

-- A carriage return is read as a line break.
abbrev pub newline : ℕ → ℕ
newline b = if b == 0xd then 0xa else b

consume-removed : (c : Controls) (b : ℕ) → (consume c b).0.removed ≡ false → c.removed ≡ false
unfolding consume
consume-removed c b h = ground arith

feed-removed : (c : Controls) (bs : List ℕ) → (feed c bs).0.removed ≡ false → c.removed ≡ false
unfolding feed
feed-removed c [] h = h
feed-removed c (b ∷ bs) h = consume-removed c b (feed-removed (consume c b).0 bs h)

consume_unremoved :
    (c : Controls) (b : ℕ)
    → c.state ≡ plain
    → (consume c b).0.removed ≡ false
    → ((consume c b).1 ≡ some (newline b)) × ((consume c b).0.state ≡ plain)
unfolding consume
consume_unremoved c b h clean = ground arith

-- A filter that begins outside an escape sequence and ends with the flag `removed` down has passed
-- every byte on, a carriage return as a line break, and is outside an escape sequence again.
pub feed_unremoved :
    (c : Controls) (bs : List ℕ)
    → c.state ≡ plain
    → (feed c bs).0.removed ≡ false
    → ((feed c bs).1 ≡ map newline bs) × ((feed c bs).0.state ≡ plain)
unfolding feed
feed_unremoved c [] h clean = (refl, h)
feed_unremoved c (b ∷ bs) h clean =
    let (out, still) = consume_unremoved c b h (feed-removed (consume c b).0 bs clean) in
    let (rest, last) = feed_unremoved (consume c b).0 bs still clean in
    (rw out (ap (◌∷◌ (newline b)) rest), last)

abbrev pub in_state : Escape → Controls
in_state e = record { state = e; removed = true }

-- The body of an operating-system command: it holds neither BEL nor ESC.
abbrev pub is_osc_body : ℕ → Bool
is_osc_body b = not (b == 7 || b == 0x1b)

consume_osc : (b : ℕ) → is_osc_body b ≡ true → consume (in_state osc) b ≡ (in_state osc, none)
unfolding consume
consume_osc b h = ground arith

feed_osc :
    (body rest : List ℕ)
    → All (λ b. is_osc_body b ≡ true) body
    → feed (in_state osc) (body ++ 7 ∷ rest) ≡ feed (in_state plain) rest
unfolding feed
feed_osc [] rest inside = unfold consume in refl
feed_osc (b ∷ body) rest inside = rw (consume_osc b inside.0, feed_osc body rest inside.1)

-- The parameters and intermediates of a control sequence.
abbrev pub is_csi_body : ℕ → Bool
is_csi_body b = not (within 0x40 0x7e b || b == 0x1b)

consume_csi : (b : ℕ) → is_csi_body b ≡ true → consume (in_state csi) b ≡ (in_state csi, none)
unfolding consume
consume_csi b h = ground arith

consume_csi_final :
    (b : ℕ) → within 0x40 0x7e b ≡ true → consume (in_state csi) b ≡ (in_state plain, none)
unfolding consume
consume_csi_final b h = ground arith

feed_csi :
    (body rest : List ℕ) (final : ℕ)
    → All (λ b. is_csi_body b ≡ true) body
    → within 0x40 0x7e final ≡ true
    → feed (in_state csi) (body ++ final ∷ rest) ≡ feed (in_state plain) rest
unfolding feed
feed_csi [] rest final inside ends = rw (consume_csi_final final ends)
feed_csi (b ∷ body) rest final inside ends =
    rw (consume_csi b inside.0, feed_csi body rest final inside.1 ends)

consume_esc : (c : Controls) → c.state ≡ plain → consume c 0x1b ≡ (in_state start, none)
unfolding consume
consume_esc c h = ground arith

-- Outside an escape sequence, an operating-system command `ESC ] body BEL` whose body has neither
-- BEL nor ESC leaves no trace but the flag: none of its bytes reaches the display, and the rest is
-- filtered as from a plain state.
pub feed-skips_osc :
    (c : Controls) (body rest : List ℕ)
    → c.state ≡ plain
    → All (λ b. is_osc_body b ≡ true) body
    → feed c (0x1b ∷ b']' ∷ (body ++ 7 ∷ rest)) ≡ feed (in_state plain) rest
unfolding feed
feed-skips_osc c body rest h inside =
    rw (consume_esc c h) (unfold consume in feed_osc body rest inside)

-- Outside an escape sequence, a control sequence `ESC [ body final`, with no final byte and no ESC
-- in the body, leaves no trace but the flag: none of its bytes reaches the display, and the rest is
-- filtered as from a plain state.
pub feed-skips_csi :
    (c : Controls) (body rest : List ℕ) (final : ℕ)
    → c.state ≡ plain
    → All (λ b. is_csi_body b ≡ true) body
    → within 0x40 0x7e final ≡ true
    → feed c (0x1b ∷ b'[' ∷ (body ++ final ∷ rest)) ≡ feed (in_state plain) rest
unfolding feed
feed-skips_csi c body rest final h inside ends =
    rw (consume_esc c h) (unfold consume in feed_csi body rest final inside ends)
