-- ===== src/Draft.antt =====
-- The commit message editor of crates/idk/src/ui/git_draft.rs: `CommitDraft` with `insert`,
-- `line_start`, `line_end`, `position`, `vertical` and `key`.
-- The cursor is a byte offset. A slice of a `str` at an offset inside a character panics, so every
-- slice is a `Result Panic`. `width` is the display width by ratatui, which is not in the repository;
-- nothing is assumed of it. Key events are crossterm's, cut to what `key` looks at.
pub mod Slices
pub mod Keys
mod Examples
use idk.Common.{
  ℕ, ◌+◌, ◌-◌, ◌≡◌, List, [], ◌∷◌, ◌++◌, Option, none, some, Bool, true, false, ◌&&◌, ◌||◌, not,
  Text, if◌then◌else◌, ◌==◌, ltb, leb, any, byte_len, len_utf8, is_control, Result, Check, ok, err,
  ◌>>=◌,
}

pub record CommitDraft : Type 0 where
  pub text : Text
  pub cursor : ℕ

pub data Panic : Type 0 where
  not_a_boundary : Panic

-- only text and line breaks; exceeds 64 KiB
pub data Refusal : Type 0 where
  control_character too_long : Refusal

abbrev pub limit : ℕ
limit = 65536

abbrev pub newline : ℕ
newline = 0xa

abbrev pub cons_front : ℕ → Result Panic (Text × Text) → Result Panic (Text × Text)
cons_front c (ok (l, r)) = ok (c ∷ l, r)
cons_front c (err e) = err e

-- `(&s[..n], &s[n..])`
pub split_at : Text → ℕ → Result Panic (Text × Text)
split_at [] n = if n == 0 then ok ([], []) else err not_a_boundary
split_at (c ∷ s) n =
    let rest = cons_front c (split_at s (n - len_utf8 c)) in
    if n == 0 then ok ([], c ∷ s) else if leb (len_utf8 c) n then rest else err not_a_boundary

-- `s.drain(from..to)`
pub drain : Text → ℕ → ℕ → Result Panic Text
drain s from to = do outer ← split_at s to; inner ← split_at outer.0 from; ok (inner.0 ++ outer.1)

abbrev shifted : ℕ → Option ℕ → Option ℕ
shifted n none = none
shifted n (some i) = some (n + i)

-- `s.find('\n')`
pub find_newline : Text → Option ℕ
find_newline [] = none
find_newline (c ∷ s) = if c == newline then some 0 else shifted (len_utf8 c) (find_newline s)

abbrev first_of_last : Bool → Option ℕ → Option ℕ
first_of_last here (some i) = some i
first_of_last true none = some 0
first_of_last false none = none

-- `s.rfind('\n')`
pub rfind_newline : Text → Option ℕ
rfind_newline [] = none
rfind_newline (c ∷ s) = first_of_last (c == newline) (shifted (len_utf8 c) (rfind_newline s))

-- `s.char_indices().next_back()`, the offset of the last character.
pub last_index : Text → Option ℕ
last_index [] = none
last_index (c ∷ s) = first_of_last true (shifted (len_utf8 c) (last_index s))

abbrev pub count_newlines : Text → ℕ
count_newlines [] = 0
count_newlines (c ∷ s) = (if c == newline then 1 else 0) + count_newlines s

abbrev starts_line : Text → Bool
starts_line [] = false
starts_line (c ∷ s) = c == newline

-- `text.replace("\r\n", "\n")`
pub normalized : Text → Text
normalized [] = []
normalized (c ∷ s) = let rest = normalized s in if c == 0xd && starts_line s then rest else c ∷ rest

pub insert : CommitDraft → Text → Result Panic (CommitDraft × Check Refusal)
insert d raw =
    let text = normalized raw in
    if any (λ c. is_control c && not (c == newline)) text
    then ok (d, err control_character)
    else if ltb limit (byte_len d.text + byte_len text)
    then ok (d, err too_long)
    else (do
      parts ← split_at d.text d.cursor
      ok (record { text = parts.0 ++ (text ++ parts.1); cursor = d.cursor + byte_len text }, ok tt))

abbrev after_newline : Option ℕ → ℕ
after_newline none = 0
after_newline (some i) = i + 1

abbrev pub or_end : ℕ → ℕ → Option ℕ → ℕ
or_end length base none = length
or_end length base (some i) = base + i

pub line_start : CommitDraft → Result Panic ℕ
line_start d = do parts ← split_at d.text d.cursor; ok (after_newline (rfind_newline parts.0))

pub line_end : CommitDraft → Result Panic ℕ
line_end d = do
  parts ← split_at d.text d.cursor
  ok (or_end (byte_len d.text) d.cursor (find_newline parts.1))

abbrev pub or_zero : Option ℕ → ℕ
or_zero none = 0
or_zero (some i) = i

-- `Home`, `End` and their kin: the draft with the cursor moved.
abbrev pub moved : CommitDraft → ℕ → CommitDraft × Check Refusal
moved d n = (record d { cursor = n }, ok tt)

pub left : CommitDraft → Result Panic (CommitDraft × Check Refusal)
left d = do parts ← split_at d.text d.cursor; ok (moved d (or_zero (last_index parts.0)))

abbrev pub first_len : Text → ℕ
first_len [] = 0
first_len (c ∷ s) = len_utf8 c

pub right : CommitDraft → Result Panic (CommitDraft × Check Refusal)
right d = do parts ← split_at d.text d.cursor; ok (moved d (d.cursor + first_len parts.1))

pub kill_to_start : CommitDraft → Result Panic (CommitDraft × Check Refusal)
kill_to_start d = do
  start ← line_start d
  text ← drain d.text start d.cursor
  ok (record { text = text; cursor = start }, ok tt)

pub kill_to_end : CommitDraft → Result Panic (CommitDraft × Check Refusal)
kill_to_end d = do
  stop ← line_end d
  text ← drain d.text d.cursor stop
  ok (record d { text = text }, ok tt)

-- `Backspace if self.cursor > 0`; the `unwrap` is of a nonempty prefix.
pub backspace : CommitDraft → Result Panic (CommitDraft × Check Refusal)
backspace d = do
  parts ← split_at d.text d.cursor
  text ← drain d.text (or_zero (last_index parts.0)) d.cursor
  ok (record { text = text; cursor = or_zero (last_index parts.0) }, ok tt)

-- With no character behind the cursor nothing is drained.
pub delete : CommitDraft → Result Panic (CommitDraft × Check Refusal)
delete d = do
  parts ← split_at d.text d.cursor
  text ← drain d.text d.cursor (d.cursor + first_len parts.1)
  ok (record d { text = text }, ok tt)

pub data KeyCode : Type 0 where
  home_key end_key left_key right_key up_key down_key enter_key : KeyCode
  backspace_key delete_key other_key : KeyCode
  char : ℕ → KeyCode

pub record KeyEvent : Type 0 where
  pub code : KeyCode
  pub control : Bool
  pub alt : Bool
  pub super : Bool

module _ (width : Text → ℕ) where
  pub position : CommitDraft → Result Panic (ℕ × ℕ)
  position d = do
    parts ← split_at d.text d.cursor
    start ← line_start d
    line ← split_at parts.0 start
    ok (count_newlines parts.0, width line.1)

  -- The loop over the characters of the other line: the offset behind the last one that fits.
  pub advance : ℕ → ℕ → ℕ → Text → ℕ
  advance column used cursor [] = cursor
  advance column used cursor (c ∷ s) =
      let next = width (c ∷ []) in
      let rest = advance column (used + next) (cursor + len_utf8 c) s in
      if ltb column (used + next) then cursor else rest

  -- The line between `start` and `stop`, entered at `column`.
  pub enter_line : CommitDraft → ℕ → ℕ → ℕ → Result Panic (CommitDraft × Check Refusal)
  enter_line d column start stop = do
    outer ← split_at d.text stop
    inner ← split_at outer.0 start
    ok (moved d (advance column 0 start inner.1))

  pub down : CommitDraft → Result Panic (CommitDraft × Check Refusal)
  down d = do
    place ← position d
    stop ← line_end d
    if stop == byte_len d.text then ok (d, ok tt) else (do
      below ← split_at d.text (stop + 1)
      enter_line d place.1 (stop + 1) (or_end (byte_len d.text) (stop + 1) (find_newline below.1)))

  pub up : CommitDraft → Result Panic (CommitDraft × Check Refusal)
  up d = do
    place ← position d
    start ← line_start d
    if start == 0 then ok (d, ok tt) else (do
      above ← split_at d.text (start - 1)
      enter_line d place.1 (after_newline (rfind_newline above.0)) (start - 1))

  at_line_start : CommitDraft → Result Panic (CommitDraft × Check Refusal)
  at_line_start d = do start ← line_start d; ok (moved d start)

  at_line_end : CommitDraft → Result Panic (CommitDraft × Check Refusal)
  at_line_end d = do stop ← line_end d; ok (moved d stop)

  character : KeyEvent → CommitDraft → ℕ → Result Panic (CommitDraft × Check Refusal)
  character k d c =
      if c == b'a' && k.control
      then at_line_start d
      else if c == b'e' && k.control
      then at_line_end d
      else if c == b'u' && k.control
      then kill_to_start d
      else if c == b'k' && k.control
      then kill_to_end d
      else if not (k.control || k.alt || k.super)
      then insert d (c ∷ [])
      else ok (d, ok tt)

  -- The `match` of `key`.
  pub press : KeyCode → KeyEvent → CommitDraft → Result Panic (CommitDraft × Check Refusal)
  press home_key k d = if k.control then ok (moved d 0) else at_line_start d
  press end_key k d = if k.control then ok (moved d (byte_len d.text)) else at_line_end d
  press (char c) k d = character k d c
  press left_key k d = left d
  press right_key k d = right d
  press up_key k d = up d
  press down_key k d = down d
  press enter_key k d = insert d (newline ∷ [])
  press backspace_key k d = if ltb 0 d.cursor then backspace d else ok (d, ok tt)
  press delete_key k d = delete d
  press other_key k d = ok (d, ok tt)

  pub key : CommitDraft → KeyEvent → Result Panic (CommitDraft × Check Refusal)
  key d k = press k.code k d
