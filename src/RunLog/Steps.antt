-- ===== src/RunLog/Steps.antt =====
-- The accesses of the host and of the writing thread to a log in every order.
use idk.Common.{◌≡◌, ℕ, List, [], ◌∷◌, ◌++◌, Option, true, is_empty}
use idk.RunWire.{LogDescriptor}
use idk.RunLog.{RunOutputSink, with_file, push, send, work, mark_partial, finish, drop_sinks}

-- One access to the shared state: a turn of the loop of a push, a call of the host, or the next access
-- of the writing thread, whose write or sync may fail.
pub data Access : Type 0 where
  sends marks finishes drops : Access
  works : (failure : Option ℕ) → Access

unfoldable pub access : RunOutputSink → Access → RunOutputSink
unfolding send mark_partial finish drop_sinks work
access s sends = send s
access s marks = mark_partial s
access s finishes = finish s
access s drops = drop_sinks s
access s (works failure) = work s failure

-- The states that a log reaches, and the output that the host has pushed on the way. The host pushes
-- again after the last push has ended.
pub data Reaches (d : LogDescriptor) (identity : Option (ℕ × ℕ))
    : List ℕ → RunOutputSink → Type 0 where
  starts : Reaches d identity [] (with_file d identity)
  pushes :
      (seen bytes : List ℕ) (s : RunOutputSink)
      → Reaches d identity seen s
      → is_empty s.unsent ≡ true
      → Reaches d identity (seen ++ bytes) (push s bytes)
  steps :
      (seen : List ℕ) (s : RunOutputSink) (a : Access)
      → Reaches d identity seen s
      → Reaches d identity seen (access s a)

-- The accesses of the writing thread alone, with the errors of its writes.
unfoldable pub run_worker : RunOutputSink → List (Option ℕ) → RunOutputSink
unfolding work
run_worker s [] = s
run_worker s (failure ∷ failures) = run_worker (work s failure) failures

unfoldable pub run_accesses : RunOutputSink → List Access → RunOutputSink
unfolding access
run_accesses s [] = s
run_accesses s (a ∷ accesses) = run_accesses (access s a) accesses

pub run_accesses-Reaches :
    (d : LogDescriptor) (identity : Option (ℕ × ℕ)) (seen : List ℕ) (s : RunOutputSink)
    (accesses : List Access)
    → Reaches d identity seen s
    → Reaches d identity seen (run_accesses s accesses)
unfolding run_accesses
run_accesses-Reaches d identity seen s [] h = h
run_accesses-Reaches d identity seen s (a ∷ accesses) h =
    run_accesses-Reaches d identity seen (access s a) accesses (steps seen s a h)
