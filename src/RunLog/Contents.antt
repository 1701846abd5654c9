-- ===== src/RunLog/Contents.antt =====
-- What the file of a log holds, and what its descriptor tells of it, whatever the order of the
-- accesses.
use mathlib.Core.List.{append-nil}
use mathlib.Core.Path.{subst}
use idk.Common.{
  ℕ, ◌%◌, ◌≤◌, ◌<◌, ◌≡◌, refl, sym, ap, ◌∙◌, List, [], ◌∷◌, ◌++◌, Option, none, some, true, false,
  length, length-append, arith,
}
use idk.RunWire.{LogDescriptor, recording}
use idk.RunLog.{
  RunOutputSink, Worker, waiting, timed_out, closing, ended, writing, wrote, with_file, push, send,
  work, work_at, send_next, mark_partial, finish, add_u64, descriptor, receive, check_done, write,
  account, sync, drop_sinks,
}
use idk.RunLog.Steps.{
  Access, sends, marks, finishes, drops, works, access, Reaches, starts, pushes, steps,
}
use idk.RunLog.Prefix.{Prefix, Prefix-append, concat}
use idk.RunLog.Sound.{
  Sound, start-Sound, push-Sound, send_next-Sound, mark_partial-Sound, finish-Sound,
  drop_sinks-Sound, work_at-Sound,
}
use idk.RunLog.Stages.{Stage-Kept}

access-Sound :
    (limit : ℕ) (seen : List ℕ) (s : RunOutputSink)
    → Sound limit seen s
    → limit < 18446744073709551616
    → (a : Access) → Sound limit seen (access s a)
unfolding access send work
access-Sound limit seen s h small sends = send_next-Sound limit seen s h s.unsent refl
access-Sound limit seen s h small marks = mark_partial-Sound limit seen s h
access-Sound limit seen s h small finishes = finish-Sound limit seen s h
access-Sound limit seen s h small drops = drop_sinks-Sound limit seen s h
access-Sound limit seen s h small (works failure) =
    work_at-Sound limit seen s h small s.worker failure refl

pub Reaches-Sound :
    (d : LogDescriptor) (identity : Option (ℕ × ℕ)) (seen : List ℕ) (s : RunOutputSink)
    → d.state ≡ recording
    → d.bytes ≡ 0
    → d.limit_bytes < 18446744073709551616
    → Reaches d identity seen s
    → Sound d.limit_bytes seen s
Reaches-Sound d identity seen s is zero_bytes small starts = start-Sound d identity is zero_bytes
Reaches-Sound d identity seen s is zero_bytes small (pushes before bytes t h idle) =
    push-Sound d.limit_bytes before t (Reaches-Sound d identity before t is zero_bytes small h)
      bytes idle
Reaches-Sound d identity seen s is zero_bytes small (steps same t a h) =
    access-Sound d.limit_bytes same t (Reaches-Sound d identity same t is zero_bytes small h) small
      a

-- In every state that a new recording log reaches, the bytes in its file are a front part of all that
-- the host has pushed, are at most `limit_bytes`, and are at least as many as the descriptor counts.
pub contents-Prefix :
    (d : LogDescriptor) (identity : Option (ℕ × ℕ)) (seen : List ℕ) (s : RunOutputSink)
    → d.state ≡ recording
    → d.bytes ≡ 0
    → d.limit_bytes < 18446744073709551616
    → Reaches d identity seen s
    → Prefix s.contents seen
      × (length s.contents ≤ d.limit_bytes)
      × (s.descriptor.bytes ≤ length s.contents)
contents-Prefix d identity seen s is zero_bytes small h =
    let sound = Reaches-Sound d identity seen s is zero_bytes small h in
    let (front, short, grows) =
      Stage-Kept s.worker sound.taken s.descriptor.state s.contents s.descriptor.bytes d.limit_bytes
        s.is_open small sound.stage in
    (
      subst (Prefix s.contents) sound.flows (
          Prefix-append s.contents sound.taken (concat s.channel ++ (concat s.unsent ++ sound.lost))
            front),
      short,
      grows,
    )

receive-observed :
    (s : RunOutputSink) (channel : List (List ℕ)) → (receive s channel).observed ≡ s.observed
unfolding receive
receive-observed s [] = refl
receive-observed s (bytes ∷ rest) = refl

write-observed :
    (s : RunOutputSink) (bytes : List ℕ) (n : ℕ) (failure : Option ℕ)
    → (write s bytes n failure).observed ≡ s.observed
unfolding write
write-observed s bytes n none = ground arith
write-observed s bytes n (some k) = ground arith

work_at-observed :
    (s : RunOutputSink) (w : Worker) (failure : Option ℕ)
    → (work_at s w failure).observed ≡ s.observed
unfolding work_at check_done account sync
work_at-observed s waiting failure = receive-observed s s.channel
work_at-observed s timed_out failure = refl
work_at-observed s closing failure = refl
work_at-observed s ended failure = refl
work_at-observed s (writing bytes n) failure = write-observed s bytes n failure
work_at-observed s (wrote bytes n true) failure = refl
work_at-observed s (wrote bytes n false) failure = refl

send_next-observed :
    (s : RunOutputSink) (unsent : List (List ℕ)) → (send_next s unsent).observed ≡ s.observed
unfolding send_next
send_next-observed s [] = refl
send_next-observed s (bytes ∷ rest) = ground arith

access-observed : (s : RunOutputSink) (a : Access) → (access s a).observed ≡ s.observed
unfolding access send work mark_partial finish drop_sinks
access-observed s sends = send_next-observed s s.unsent
access-observed s marks = refl
access-observed s finishes = refl
access-observed s drops = refl
access-observed s (works failure) = work_at-observed s s.worker failure

push-observed :
    (s : RunOutputSink) (bytes : List ℕ)
    → (push s bytes).observed ≡ add_u64 s.observed (length bytes)
unfolding push
push-observed s bytes = ground arith

-- The pushes are all counted.
Reaches-observed :
    (d : LogDescriptor) (identity : Option (ℕ × ℕ)) (seen : List ℕ) (s : RunOutputSink)
    → Reaches d identity seen s
    → s.observed ≡ length seen % 18446744073709551616
unfolding with_file
Reaches-observed d identity seen s starts = omega arith
Reaches-observed d identity seen s (pushes before bytes t h idle) =
    let counted = Reaches-observed d identity before t h in
    push-observed t bytes ∙ omega (arith, length-append before bytes, counted)
Reaches-observed d identity seen s (steps same t a h) =
    access-observed t a ∙ Reaches-observed d identity same t h

length-zero : (xs : List ℕ) → length xs ≡ 0 → xs ≡ []
length-zero [] h = refl
length-zero (x ∷ xs) h = absurd (omega arith)

-- When the descriptor that a client reads counts as many bytes in the file as were observed, less than
-- 2 ^ 64, the file of a new recording log holds exactly what the host has pushed.
pub contents-whole :
    (d : LogDescriptor) (identity : Option (ℕ × ℕ)) (seen : List ℕ) (s : RunOutputSink)
    → d.state ≡ recording
    → d.bytes ≡ 0
    → d.limit_bytes < 18446744073709551616
    → length seen < 18446744073709551616
    → Reaches d identity seen s
    → (descriptor s).bytes ≡ (descriptor s).observed_bytes
    → s.contents ≡ seen
unfolding descriptor
contents-whole d identity seen s is zero_bytes small few h same =
    let ((back, whole), short, grows) = contents-Prefix d identity seen s is zero_bytes small h in
    let counted = Reaches-observed d identity seen s h in
    let nothing_left : length back ≡ 0 =
      omega (arith, length-append s.contents back, ap (length) whole) in
    sym (append-nil s.contents) ∙ ap (◌++◌ s.contents) (sym (length-zero back nothing_left)) ∙ whole
