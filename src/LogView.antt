-- ===== src/LogView.antt =====
-- The streaming log view of crates/idk/src/ui/run_log.rs: `LogView::new` and `LogView::push`.
-- `decode` is the base64 decoder of the crate `base64`, which is not in the repository; nothing is
-- assumed of it. A method returns the new state with its result, so a refusal that had changed the
-- view would show.
pub mod Follow
mod Examples
use idk.Common.{
  ℕ, ◌+◌, ◌-◌, ◌%◌, ◌≡◌, List, [], ◌∷◌, ◌++◌, Option, none, some, Bool, true, false, ◌&&◌, not,
  Text, text_eq, if◌then◌else◌, ◌==◌, ltb, within, length, drop, Check, ok, err,
}
use idk.Controls.{Controls, default, feed}
use idk.RunWire.{LogChunk}

pub record LogView : Type 0 where
  pub run_id : Text
  pub generation : ℕ
  pub next : ℕ
  pub limited : Bool
  pub follow : Bool
  pub scroll : ℕ
  pub eof : Bool
  pub bytes : List ℕ
  pub controls : Controls

-- generation changed; byte position changed; invalid base64; invalid offset
pub data Refusal : Type 0 where
  changed stale encoding position : Refusal

abbrev pub new : Text → ℕ → ℕ → LogView
new run_id generation offset = record {
  run_id = run_id;
  generation = generation;
  next = offset;
  limited = false;
  follow = true;
  scroll = 0;
  eof = false;
  bytes = [];
  controls = default;
}

abbrev pub limit : ℕ
limit = 262144

-- `byte & 0xc0 == 0x80`
abbrev pub is_continuation : ℕ → Bool
is_continuation b = within 0x80 0xbf b

skip_continuation : List ℕ → List ℕ
skip_continuation [] = []
skip_continuation (b ∷ bs) =
    let rest = skip_continuation bs in if is_continuation b then rest else b ∷ bs

-- `drain(..cut)`, with `cut` moved on to the start of a character.
trim_front : List ℕ → List ℕ
unfolding skip_continuation
trim_front bs = skip_continuation (drop (length bs - limit) bs)

-- `u64 + u64`
abbrev pub add_u64 : ℕ → ℕ → ℕ
add_u64 a b = (a + b) % 18446744073709551616

accept : LogView → LogChunk → List ℕ → LogView
unfolding trim_front
accept v chunk bytes =
    let (controls, out) = feed v.controls bytes in
    let grown = v.bytes ++ out in
    let over = ltb limit (length grown) in
    record v {
      bytes = if over then trim_front grown else grown;
      limited = if over then true else v.limited;
      controls = controls;
      next = chunk.next_offset;
      eof = chunk.eof;
    }

module _ (decode : Text → Option (List ℕ)) where
  pub push : LogView → LogChunk → LogView × Check Refusal
  unfolding accept
  push v chunk =
      if not
        (text_eq v.run_id chunk.descriptor.run_id && v.generation == chunk.descriptor.generation)
      then (v, err changed)
      else if not (v.next == chunk.offset)
      then (v, err stale)
      else elim (decode chunk.data_base64) [
        | none ↦ (v, err encoding)
        | some bytes ↦
            if not (chunk.next_offset == add_u64 chunk.offset (length bytes))
            then (v, err position)
            else (accept v chunk bytes, ok tt)
      ]
