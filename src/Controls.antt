-- ===== src/Controls.antt =====
-- The escape-sequence filter of crates/idk/src/problems.rs: `Escape`, `Controls`, `consume`, and the
-- display text that is made with it.
pub mod Visible
pub mod Display
mod Examples
use idk.Common.{
  ℕ, ◌*◌, ◌+◌, ◌≡◌, List, [], ◌∷◌, Option, none, some, Bool, true, false, ◌&&◌, ◌||◌, not, Text,
  if◌then◌else◌, ◌==◌, ltb, within, take, is_control, len_utf8, from_utf8_lossy, ◌++◌,
}

pub data Escape : Type 0 where
  plain start intermediate csi osc osc_terminator string string_terminator : Escape

pub record Controls : Type 0 where
  pub state : Escape
  pub removed : Bool

abbrev pub default : Controls
default = record { state = plain; removed = false }

abbrev esc : ℕ
esc = 0x1b

-- `b'\r'` becomes a line break; other controls are dropped.
consume_plain : Controls → ℕ → Controls × Option ℕ
consume_plain c b =
    if b == esc
    then (record { state = start; removed = true }, none)
    else if b == 0xd
    then (c, some 0xa)
    else if b == 0xa || b == 0x9 || within 0x20 0x7e b || within 0x80 0xff b
    then (c, some b)
    else (record c { removed = true }, none)

after_start : ℕ → Escape
after_start b =
    if b == b'['
    then csi
    else if b == b']'
    then osc
    else if b == b'P' || b == b'X' || b == b'^' || b == b'_'
    then string
    else if within 0x20 0x2f b
    then intermediate
    else if b == esc
    then start
    else plain

after_csi : ℕ → Escape
after_csi b = if within 0x40 0x7e b then plain else if b == esc then start else csi

after_osc : ℕ → Escape
after_osc b = if b == 7 then plain else if b == esc then osc_terminator else osc

after_osc_terminator : ℕ → Escape
after_osc_terminator b = if b == 0x5c then plain else if b == esc then osc_terminator else osc

after_string_terminator : ℕ → Escape
after_string_terminator b =
    if b == 0x5c then plain else if b == esc then string_terminator else string

dispatch : Escape → Controls → ℕ → Controls × Option ℕ
unfolding consume_plain after_start after_csi after_osc after_osc_terminator after_string_terminator
dispatch plain c b = consume_plain c b
dispatch start c b = (record c { state = after_start b }, none)
dispatch intermediate c b =
    (record c { state = if within 0x30 0x7e b then plain else intermediate }, none)
dispatch csi c b = (record c { state = after_csi b }, none)
dispatch osc c b = (record c { state = after_osc b }, none)
dispatch osc_terminator c b = (record c { state = after_osc_terminator b }, none)
dispatch string c b = (record c { state = if b == esc then string_terminator else string }, none)
dispatch string_terminator c b = (record c { state = after_string_terminator b }, none)

unfoldable pub consume : Controls → ℕ → Controls × Option ℕ
unfolding dispatch
consume c b = dispatch c.state c b

abbrev pub push_some : Option ℕ → List ℕ → List ℕ
push_some none bs = bs
push_some (some b) bs = b ∷ bs

-- `bytes.filter_map(|byte| controls.consume(byte))`
unfoldable pub feed : Controls → List ℕ → Controls × List ℕ
feed c [] = (c, [])
feed c (b ∷ bs) =
    let (c', out) = consume c b in let (c'', rest) = feed c' bs in (c'', push_some out rest)

unfoldable pub forbidden_character : ℕ → Bool
forbidden_character c =
    (is_control c && not (c == 0xa || c == 0x9)) || within 0x202a 0x202e c || within 0x2066 0x2069 c

-- The loop of `safe_utf8`: `size` is the length in bytes of what was kept so far.
collect : ℕ → ℕ → Text → Text
collect maximum size [] = []
collect maximum size (c ∷ s) =
    let kept = collect maximum (size + len_utf8 c) s in
    let rest = collect maximum size s in
    if forbidden_character c then rest else if ltb maximum (size + len_utf8 c) then [] else c ∷ kept

unfoldable pub safe_utf8 : List ℕ → ℕ → Text
unfolding collect
safe_utf8 bytes maximum = collect maximum 0 (from_utf8_lossy bytes)

-- `usize::saturating_mul(4)`
abbrev pub four_times : ℕ → ℕ
four_times n = let m = n * 4 in if ltb 18446744073709551615 m then 18446744073709551615 else m

unfoldable pub display_text : List ℕ → ℕ → Text
unfolding safe_utf8
display_text bytes max_bytes =
    safe_utf8 (take (four_times max_bytes) (feed default bytes).1) max_bytes
