-- ===== src/RunLog/Drain.antt =====
-- The thread that writes a log ends once the host has finished.
use mathlib.Core.Path.{subst}
use idk.Common.{
  ℕ, ◌+◌, ◌*◌, ◌-◌, ◌≤◌, ◌<◌, ◌≡◌, refl, List, [], ◌∷◌, Option, none, some, Bool, true, false,
  length, arith, Bool-cases, inl, inr,
}
use idk.RunWire.{
  LogDescriptor, LogState, disabled, recording, complete, limited, write_failed, expired, partial,
}
use idk.RunLog.{
  RunOutputSink, Worker, waiting, timed_out, closing, ended, writing, wrote, work, work_at, receive,
  check_done, write, account, sync, is_writable, is_recording,
}
use idk.RunLog.Steps.{works, access, Reaches, steps, run_worker}
use idk.RunLog.Prefix.{Closed, Prefix}
use idk.RunLog.Contents.{contents-Prefix, Reaches-Sound}
use idk.RunLog.Stages.{Stage}

-- How many accesses the thread still makes at most once the host has finished.
abbrev remaining : ℕ → Worker → ℕ
remaining n ended = 0
remaining n closing = 1 + 3 * n
remaining n timed_out = 2 + 3 * n
remaining n waiting = 3 + 3 * n
remaining n (wrote bytes count failed) = 4 + 3 * n
remaining n (writing bytes count) = 5 + 3 * n

remaining_le : (n : ℕ) (w : Worker) → remaining n w ≤ 3 * n + 5
remaining_le n ended = omega arith
remaining_le n closing = omega arith
remaining_le n timed_out = omega arith
remaining_le n waiting = omega arith
remaining_le n (wrote bytes count failed) = omega arith
remaining_le n (writing bytes count) = omega arith

remaining-zero : (n : ℕ) (w : Worker) → remaining n w ≤ 0 → w ≡ ended
remaining-zero n ended h = refl
remaining-zero n closing h = absurd (omega arith)
remaining-zero n timed_out h = absurd (omega arith)
remaining-zero n waiting h = absurd (omega arith)
remaining-zero n (wrote bytes count failed) h = absurd (omega arith)
remaining-zero n (writing bytes count) h = absurd (omega arith)

abbrev measure : RunOutputSink → ℕ
measure s = remaining (length s.channel) s.worker

receive-measure :
    (s : RunOutputSink) (channel : List (List ℕ))
    → s.is_finished ≡ true
    → s.channel ≡ channel
    → (measure (receive s channel) ≤ remaining (length channel) waiting - 1)
      × ((receive s channel).is_finished ≡ true)
unfolding receive
receive-measure s [] done ch = elim (Bool-cases s.is_dropped) [
  | inl gone ↦ rw (gone, ch) (omega arith, done)
  | inr there ↦ rw (there, ch) (omega arith, done)
]
receive-measure s (bytes ∷ rest) done ch = elim (Bool-cases (is_writable s.descriptor.state)) [
  | inl w ↦ rw w (omega arith, done)
  | inr w ↦ rw w (omega arith, done)
]

write-measure :
    (s : RunOutputSink) (bytes : List ℕ) (n : ℕ) (failure : Option ℕ)
    → s.is_finished ≡ true
    → (measure (write s bytes n failure) ≤ remaining (length s.channel) (writing bytes n) - 1)
      × ((write s bytes n failure).is_finished ≡ true)
unfolding write
write-measure s bytes n none done = elim (Bool-cases s.is_open) [
  | inl o ↦ rw o (omega arith, done)
  | inr o ↦ rw o (omega arith, done)
]
write-measure s bytes n (some k) done = elim (Bool-cases s.is_open) [
  | inl o ↦ rw o (omega arith, done)
  | inr o ↦ rw o (omega arith, done)
]

work_at-measure :
    (s : RunOutputSink) (w : Worker) (failure : Option ℕ)
    → s.worker ≡ w
    → s.is_finished ≡ true
    → (measure (work_at s w failure) ≤ remaining (length s.channel) w - 1)
      × ((work_at s w failure).is_finished ≡ true)
unfolding work_at check_done account sync
work_at-measure s waiting failure is done = receive-measure s s.channel done refl
work_at-measure s timed_out failure is done = rw done (omega arith, refl)
work_at-measure s closing failure is done = (omega arith, done)
work_at-measure s ended failure is done = (rw is (omega arith), done)
work_at-measure s (writing bytes n) failure is done = write-measure s bytes n failure done
work_at-measure s (wrote bytes n true) failure is done = (omega arith, done)
work_at-measure s (wrote bytes n false) failure is done = (omega arith, done)

run_worker-ended :
    (s : RunOutputSink) (failures : List (Option ℕ))
    → s.is_finished ≡ true
    → measure s ≤ length failures
    → (run_worker s failures).worker ≡ ended
unfolding run_worker work
run_worker-ended s [] done enough = remaining-zero (length s.channel) s.worker enough
run_worker-ended s (failure ∷ failures) done enough =
    let (less, still) = work_at-measure s s.worker failure refl done in
    run_worker-ended (work_at s s.worker failure) failures still (omega (arith, less))

Closed-is_recording :
    (st : LogState) (r c : List ℕ) (b limit : ℕ) (o : Bool)
    → Stage ended r st c b limit o
    → is_recording st ≡ false
unfolding Stage Closed
Closed-is_recording recording r c b limit o h = elim h [ ]
Closed-is_recording complete r c b limit o h = refl
Closed-is_recording limited r c b limit o h = refl
Closed-is_recording write_failed r c b limit o h = refl
Closed-is_recording disabled r c b limit o h = refl
Closed-is_recording expired r c b limit o h = refl
Closed-is_recording partial r c b limit o h = refl

run_worker-Reaches :
    (d : LogDescriptor) (identity : Option (ℕ × ℕ)) (seen : List ℕ) (s : RunOutputSink)
    (failures : List (Option ℕ))
    → Reaches d identity seen s
    → Reaches d identity seen (run_worker s failures)
unfolding run_worker access work
run_worker-Reaches d identity seen s [] h = h
run_worker-Reaches d identity seen s (failure ∷ failures) h =
    run_worker-Reaches d identity seen (work_at s s.worker failure) failures
      (steps seen s (works failure) h)

-- Once the host has finished with a new recording log, three accesses of the writing thread for each
-- chunk in the channel and five more end it, whatever its writes return: the descriptor no longer says
-- recording, and the file still holds a front part of what the host has pushed.
pub run_worker-ends :
    (d : LogDescriptor) (identity : Option (ℕ × ℕ)) (seen : List ℕ) (s : RunOutputSink)
    (failures : List (Option ℕ))
    → d.state ≡ recording
    → d.bytes ≡ 0
    → d.limit_bytes < 18446744073709551616
    → Reaches d identity seen s
    → s.is_finished ≡ true
    → 3 * length s.channel + 5 ≤ length failures
    → ((run_worker s failures).worker ≡ ended)
      × (is_recording (run_worker s failures).descriptor.state ≡ false)
      × Prefix (run_worker s failures).contents seen
run_worker-ends d identity seen s failures is zero_bytes small h done enough =
    let t = run_worker s failures in
    let last =
      run_worker-ended s failures done (omega (arith, remaining_le (length s.channel) s.worker)) in
    let reached = run_worker-Reaches d identity seen s failures h in
    let sound = Reaches-Sound d identity seen t is zero_bytes small reached in
    let closed =
      subst
        (λ w.
          Stage w sound.taken t.descriptor.state t.contents t.descriptor.bytes d.limit_bytes
            t.is_open)
        last sound.stage in
    (
      last,
      Closed-is_recording t.descriptor.state sound.taken t.contents t.descriptor.bytes d.limit_bytes
          t.is_open closed,
      (contents-Prefix d identity seen t is zero_bytes small reached).0,
    )
