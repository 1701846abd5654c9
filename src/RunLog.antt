-- ===== src/RunLog.antt =====
-- The private log of a run, `RunOutputSink` of crates/idk/src/run.rs: the calls of the host, which
-- never wait, and the thread that writes the file. They share the descriptor's mutex, the bounded
-- channel and the flags; one step below is what happens between two of those accesses. The writes of
-- the file and its `sync_data` end as the events say. A poisoned mutex is left out, since no
-- holder of it can panic.
pub mod Steps
pub mod Prefix
pub mod Stages
pub mod Sound
pub mod Contents
pub mod Drain
mod Examples
use idk.Common.{
  ℕ, zero, suc, ◌+◌, ◌-◌, ◌%◌, List, [], ◌∷◌, ◌++◌, Option, none, some, Bool, true, false, ◌&&◌,
  ◌||◌, not, if◌then◌else◌, ltb, is_some, length, take, drop,
}
use idk.RunWire.{
  LogDescriptor, LogState, disabled, recording, complete, limited, write_failed, expired, partial,
}

-- Where the writing thread stands: before a receive, after a receive that timed out, with a chunk to
-- write, with a chunk whose write has ended, after the loop, or ended.
pub data Worker : Type 0 where
  waiting timed_out closing ended : Worker
  writing : (bytes : List ℕ) → (count : ℕ) → Worker
  wrote : (bytes : List ℕ) → (count : ℕ) → (failed : Bool) → Worker

pub record RunOutputSink : Type 0 where
  pub channel : List (List ℕ)
  pub descriptor : LogDescriptor
  pub observed : ℕ
  pub is_stopped : Bool
  pub is_limited : Bool
  pub is_partial : Bool
  pub is_finished : Bool
  pub is_dropped : Bool  -- every sink is gone, and the sending end of the channel with it
  pub unsent : List (List ℕ)  -- the chunks that the `push` under way has still to send
  pub worker : Worker
  pub is_open : Bool
  pub contents : List ℕ

abbrev pub channel_size : ℕ
channel_size = 32

abbrev pub chunk_size : ℕ
chunk_size = 8192

abbrev pub is_disabled : LogState → Bool
is_disabled disabled = true
is_disabled _ = false

-- `RunOutputSink::new`: a disabled log has no file.
unfoldable pub with_file : LogDescriptor → Option (ℕ × ℕ) → RunOutputSink
with_file d identity = record {
  channel = [];
  descriptor = if is_disabled d.state then d else record d { file_identity = identity };
  observed = 0;
  is_stopped = false;
  is_limited = false;
  is_partial = false;
  is_finished = false;
  is_dropped = false;
  unsent = [];
  worker = waiting;
  is_open = not (is_disabled d.state);
  contents = [];
}

-- `slice::chunks`; a byte string of `fuel` bytes has at most `fuel` chunks.
unfoldable pub chunks : ℕ → ℕ → List ℕ → List (List ℕ)
chunks zero size bytes = []
chunks (suc fuel) size [] = []
chunks (suc fuel) size (b ∷ bytes) =
    take size (b ∷ bytes) ∷ chunks fuel size (drop size (b ∷ bytes))

-- `u64` addition
abbrev pub add_u64 : ℕ → ℕ → ℕ
add_u64 a b = (a + b) % 18446744073709551616

-- `recording` or `complete`: the states that a flag overrides.
abbrev pub is_open_ended : LogState → Bool
is_open_ended recording = true
is_open_ended complete = true
is_open_ended _ = false

-- The descriptor as a client reads it.
unfoldable pub shown_state : RunOutputSink → LogState
shown_state s =
    let after_limit =
      if s.is_limited && is_open_ended s.descriptor.state then limited else s.descriptor.state in
    if s.is_partial && is_open_ended after_limit then partial else after_limit

unfoldable pub descriptor : RunOutputSink → LogDescriptor
unfolding shown_state
descriptor s = record s.descriptor { observed_bytes = s.observed; state = shown_state s }

-- `push` up to its loop.
unfoldable pub push : RunOutputSink → List ℕ → RunOutputSink
unfolding descriptor chunks
push s bytes =
    let seen = record s { observed = add_u64 s.observed (length bytes) } in
    if s.is_stopped || is_disabled (descriptor s).state
    then seen
    else record seen { unsent = chunks (length bytes) chunk_size bytes }

abbrev pub has_ended : Worker → Bool
has_ended ended = true
has_ended _ = false

-- One turn of the loop of `push`; `try_send` fails on a full channel and on one without a receiver.
unfoldable pub send_next : RunOutputSink → List (List ℕ) → RunOutputSink
send_next s [] = s
send_next s (chunk ∷ rest) =
    if ltb (length s.channel) channel_size && not (has_ended s.worker)
    then record s { channel = s.channel ++ (chunk ∷ []); unsent = rest }
    else record s { is_limited = true; is_stopped = true; unsent = [] }

unfoldable pub send : RunOutputSink → RunOutputSink
unfolding send_next
send s = send_next s s.unsent

unfoldable pub mark_partial : RunOutputSink → RunOutputSink
mark_partial s = record s { is_partial = true }

unfoldable pub finish : RunOutputSink → RunOutputSink
finish s = record s { is_stopped = true; is_finished = true }

-- The last `RunOutputSink` of the log is dropped.
unfoldable pub drop_sinks : RunOutputSink → RunOutputSink
drop_sinks s = record s { is_dropped = true }

abbrev pub is_writable : LogState → Bool
is_writable recording = true
is_writable limited = true
is_writable _ = false

abbrev pub min : ℕ → ℕ → ℕ
min a b = if ltb a b then a else b

-- `recv_timeout`, and the part of the chunk that may be written. An empty channel without a sender ends
-- the loop.
unfoldable pub receive : RunOutputSink → List (List ℕ) → RunOutputSink
receive s [] = record s { worker = if s.is_dropped then closing else timed_out }
receive s (bytes ∷ rest) =
    let count = min (s.descriptor.limit_bytes - s.descriptor.bytes) (length bytes) in
    record s {
      channel = rest;
      worker = if is_writable s.descriptor.state then writing bytes count else waiting;
    }

-- A receive that timed out ends the loop once the host has finished.
unfoldable pub check_done : RunOutputSink → RunOutputSink
check_done s = record s { worker = if s.is_finished then closing else waiting }

-- `write_all`: on an error (`some n`) some `n` bytes at the front have been written.
unfoldable pub write : RunOutputSink → List ℕ → ℕ → Option ℕ → RunOutputSink
write s bytes count none =
    if s.is_open
    then record s { contents = s.contents ++ take count bytes; worker = wrote bytes count false }
    else record s { worker = wrote bytes count false }
write s bytes count (some n) =
    if s.is_open
    then record s {
      contents = s.contents ++ take n (take count bytes);
      worker = wrote bytes count true;
    }
    else record s { worker = wrote bytes count false }

unfoldable pub account : RunOutputSink → List ℕ → ℕ → Bool → RunOutputSink
account s bytes count true = record s {
  descriptor = record s.descriptor { state = write_failed };
  is_open = false;
  worker = waiting;
}
account s bytes count false = record s {
  descriptor = record s.descriptor {
    bytes = add_u64 s.descriptor.bytes count;
    state = if ltb count (length bytes) then limited else s.descriptor.state;
  };
  worker = waiting;
}

abbrev pub is_recording : LogState → Bool
is_recording recording = true
is_recording _ = false

-- After the loop: `sync_data`, which may fail too.
unfoldable pub sync : RunOutputSink → Option ℕ → RunOutputSink
sync s failure = record s {
  descriptor = record s.descriptor {
    state =
        if s.is_open && is_some failure
        then write_failed
        else if is_recording s.descriptor.state
        then complete
        else s.descriptor.state;
  };
  worker = ended;
}

-- The next access of the writing thread; `outcome` is the error of a write or of the sync, if any.
unfoldable pub work_at : RunOutputSink → Worker → Option ℕ → RunOutputSink
unfolding receive check_done write account sync
work_at s waiting outcome = receive s s.channel
work_at s timed_out outcome = check_done s
work_at s (writing bytes count) outcome = write s bytes count outcome
work_at s (wrote bytes count failed) outcome = account s bytes count failed
work_at s closing outcome = sync s outcome
work_at s ended outcome = s

unfoldable pub work : RunOutputSink → Option ℕ → RunOutputSink
unfolding work_at
work s outcome = work_at s s.worker outcome
