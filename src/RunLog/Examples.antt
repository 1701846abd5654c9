-- ===== src/RunLog/Examples.antt =====
-- Concrete orders of the accesses to a log, and instances of the theorems.
use idk.Common.{ℕ, ◌≡◌, ◌≤◌, refl, List, [], ◌∷◌, Option, none, some, true, false, length, arith}
use idk.RunWire.{LogDescriptor, recording, complete}
use idk.RunLog.{
  RunOutputSink, is_recording, ended, with_file, push, descriptor, shown_state, chunks, send,
  send_next, work, work_at, finish, receive, check_done, write, account, sync,
}
use idk.RunLog.Steps.{
  Access, sends, finishes, works, access, run_accesses, run_accesses-Reaches, Reaches, starts,
  pushes, run_worker,
}
use idk.RunLog.Prefix.{Prefix}
use idk.RunLog.Contents.{contents-Prefix, contents-whole}
use idk.RunLog.Drain.{run_worker-ends}

abbrev small_log : LogDescriptor
small_log = record {
  run_id = b'r' ∷ [];
  generation = 1;
  state = recording;
  bytes = 0;
  observed_bytes = 0;
  limit_bytes = 3;
  merged_pty = true;
  file_identity = none;
}

-- One push of `bytes`, and then the accesses.
unfoldable after : List ℕ → List Access → RunOutputSink
unfolding push run_accesses with_file
after bytes accesses = run_accesses (push (with_file small_log (some (1, 2))) bytes) accesses

after-Reaches :
    (bytes : List ℕ) (accesses : List Access)
    → Reaches small_log (some (1, 2)) bytes (after bytes accesses)
unfolding with_file after run_accesses
after-Reaches bytes accesses =
    run_accesses-Reaches small_log (some (1, 2)) bytes
      (push (with_file small_log (some (1, 2))) bytes) accesses
      (pushes [] bytes (with_file small_log (some (1, 2))) starts refl)

-- Four bytes go to a log of three.
overfull : List Access
overfull = sends ∷ works none ∷ works none ∷ works none ∷ []

overfull_file : (after (7 ∷ 8 ∷ 9 ∷ 9 ∷ []) overfull).contents ≡ 7 ∷ 8 ∷ 9 ∷ []
unfolding after overfull push chunks run_accesses access with_file send send_next work work_at
    receive write account
overfull_file = refl

-- The thread's receive times out, then the host pushes, sends and finishes, and then the thread looks
-- at the flag: the chunk is lost, and the log is complete.
lost_chunk : RunOutputSink
unfolding push run_accesses with_file
lost_chunk =
    run_accesses
      (push (run_accesses (with_file small_log (some (1, 2))) (works none ∷ [])) (7 ∷ []))
      (sends ∷ finishes ∷ works none ∷ works none ∷ [])

lost_chunk_run :
    (lost_chunk.contents ≡ [])
    × ((descriptor lost_chunk).state ≡ complete)
    × ((descriptor lost_chunk).observed_bytes ≡ 1)
unfolding lost_chunk push chunks run_accesses access with_file send send_next work work_at receive
    check_done finish sync descriptor shown_state
lost_chunk_run = (refl, refl, refl)

contents-Prefix_example :
    Prefix (after (7 ∷ 8 ∷ 9 ∷ 9 ∷ []) overfull).contents (7 ∷ 8 ∷ 9 ∷ 9 ∷ [])
    × (length (after (7 ∷ 8 ∷ 9 ∷ 9 ∷ []) overfull).contents ≤ 3)
    × ((after (7 ∷ 8 ∷ 9 ∷ 9 ∷ []) overfull).descriptor.bytes
        ≤ length (after (7 ∷ 8 ∷ 9 ∷ 9 ∷ []) overfull).contents)
contents-Prefix_example =
    contents-Prefix small_log (some (1, 2)) (7 ∷ 8 ∷ 9 ∷ 9 ∷ [])
      (after (7 ∷ 8 ∷ 9 ∷ 9 ∷ []) overfull) refl refl (omega arith)
      (after-Reaches (7 ∷ 8 ∷ 9 ∷ 9 ∷ []) overfull)

contents-whole_example : (after (7 ∷ 8 ∷ []) overfull).contents ≡ 7 ∷ 8 ∷ []
unfolding after overfull push chunks run_accesses access with_file send send_next work work_at
    receive write account descriptor
contents-whole_example =
    contents-whole small_log (some (1, 2)) (7 ∷ 8 ∷ []) (after (7 ∷ 8 ∷ []) overfull) refl refl
      (omega arith) (omega arith) (after-Reaches (7 ∷ 8 ∷ []) overfull) refl

abbrev no_failures : List (Option ℕ)
no_failures = none ∷ none ∷ none ∷ none ∷ none ∷ none ∷ none ∷ none ∷ []

run_worker-ends_example :
    ((run_worker (after (7 ∷ []) (sends ∷ finishes ∷ [])) no_failures).worker ≡ ended)
    × (is_recording
          (run_worker (after (7 ∷ []) (sends ∷ finishes ∷ [])) no_failures).descriptor.state
        ≡ false)
    × Prefix (run_worker (after (7 ∷ []) (sends ∷ finishes ∷ [])) no_failures).contents (7 ∷ [])
unfolding after push chunks run_accesses access with_file send send_next finish
run_worker-ends_example =
    run_worker-ends small_log (some (1, 2)) (7 ∷ []) (after (7 ∷ []) (sends ∷ finishes ∷ []))
      no_failures refl refl (omega arith) (after-Reaches (7 ∷ []) (sends ∷ finishes ∷ [])) refl
      (omega arith)
