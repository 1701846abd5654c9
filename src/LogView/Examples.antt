-- ===== src/LogView/Examples.antt =====
-- The view on a few concrete chunks, and instances of the theorems. The decoder of the examples takes
-- the text for the bytes.
use idk.Common.{ℕ, ◌+◌, ◌≡◌, ◌≤◌, refl, List, [], ◌∷◌, none, some, true, false, length, arith}
use idk.Controls.{default, feed, consume}
use idk.RunWire.{LogChunk, LogDescriptor, recording}
use idk.LogView.{LogView, new, push, limit, add_u64, accept}
use idk.LogView.Follow.{Suffix, follow, decoded, follow-new}

abbrev descriptor : LogDescriptor
descriptor = record {
  run_id = b'r' ∷ [];
  generation = 1;
  state = recording;
  bytes = 2;
  observed_bytes = 2;
  limit_bytes = 100;
  merged_pty = true;
  file_identity = none;
}

abbrev chunk_at : ℕ → LogChunk
chunk_at n = record {
  descriptor = descriptor;
  offset = n;
  next_offset = n + 2;
  data_base64 = b'a' ∷ 0xa ∷ [];
  eof = false;
}

abbrev chunks : List LogChunk
chunks = chunk_at 5 ∷ chunk_at 7 ∷ []

abbrev last_view : LogView
last_view = record {
  run_id = b'r' ∷ [];
  generation = 1;
  next = 9;
  limited = false;
  follow = true;
  scroll = 0;
  eof = false;
  bytes = b'a' ∷ 0xa ∷ b'a' ∷ 0xa ∷ [];
  controls = default;
}

follow_run : follow some (new (b'r' ∷ []) 1 5) chunks ≡ some last_view
unfolding follow push accept feed consume
follow_run = refl

follow-new_example :
    Suffix last_view.bytes (feed default (decoded some chunks)).1
    × (length last_view.bytes ≤ limit)
    × (last_view.next ≡ add_u64 5 (length (decoded some chunks)))
follow-new_example = follow-new some (b'r' ∷ []) 1 5 last_view chunks (omega arith) follow_run
