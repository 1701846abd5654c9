-- ===== src/RunLog/Sound.antt =====
-- Every access keeps the account of what the log of a run holds.
use mathlib.Core.List.{append-nil}
use mathlib.Core.Path.{subst}
use idk.Common.{
  ℕ, ◌-◌, ◌<◌, ◌≡◌, refl, sym, ap, ◌∙◌, List, [], ◌∷◌, ◌++◌, Option, none, some, inl, inr, true,
  false, ◌&&◌, not, length, is_empty, ltb, take, arith, Bool-cases,
}
use idk.RunWire.{LogDescriptor, recording}
use idk.RunLog.{
  RunOutputSink, Worker, waiting, timed_out, closing, ended, writing, wrote, with_file, push,
  has_ended, work_at, send_next, mark_partial, finish, min, is_writable, write, account, check_done,
  receive, sync, drop_sinks,
}
use idk.RunLog.Prefix.{Tally, concat, concat-chunks, Tally-account, Tally-failed, Tally-writable}
use idk.RunLog.Stages.{
  Stage, Stage-enabled, shown_state-enabled, is_empty→[], more_lost, sends-flows, takes-flows,
  Tally-skipped, Tally-sync,
}

pub record Sound (limit : ℕ) (seen : List ℕ) (s : RunOutputSink) : Type 0 where
  pub taken : List ℕ
  pub lost : List ℕ
  pub flows : taken ++ (concat s.channel ++ (concat s.unsent ++ lost)) ≡ seen
  pub loses : s.is_stopped ≡ false → lost ≡ []
  pub limits : s.descriptor.limit_bytes ≡ limit
  pub stage : Stage s.worker taken s.descriptor.state s.contents s.descriptor.bytes limit s.is_open

pub start-Sound :
    (d : LogDescriptor) (identity : Option (ℕ × ℕ))
    → d.state ≡ recording
    → d.bytes ≡ 0
    → Sound d.limit_bytes [] (with_file d identity)
unfolding with_file Stage Tally
start-Sound d identity is zero_bytes = rw is (record {
  taken = [];
  lost = [];
  flows = refl;
  loses = λ h. refl;
  limits = refl;
  stage = (refl, zero_bytes, omega arith, refl);
})

module _ (limit : ℕ) (seen : List ℕ) (s : RunOutputSink) (h : Sound limit seen s) where
  pub push-Sound :
      (bytes : List ℕ) → is_empty s.unsent ≡ true → Sound limit (seen ++ bytes) (push s bytes)
  unfolding push
  push-Sound bytes idle =
      let none_unsent = is_empty→[] s.unsent idle in
      let enabled = shown_state-enabled s (
        Stage-enabled s.worker h.taken s.descriptor.state s.contents s.descriptor.bytes limit
          s.is_open h.stage) in
      elim (Bool-cases s.is_stopped) [
        | inl stopped ↦ rw stopped (record {
          taken = h.taken;
          lost = h.lost ++ bytes;
          flows = more_lost h.taken (concat s.channel) (concat s.unsent) h.lost bytes seen h.flows;
          loses = λ e. absurd cc;
          limits = h.limits;
          stage = h.stage;
        })
        | inr going ↦
            rw (going, enabled)
              (record {
                taken = h.taken;
                lost = [];
                flows =
                    rw (concat-chunks (length bytes) 8191 bytes (omega arith), append-nil bytes)
                      (more_lost h.taken (concat s.channel) [] [] bytes seen
                        (rw (sym h.flows, none_unsent, h.loses going) refl));
                loses = λ e. refl;
                limits = h.limits;
                stage = h.stage;
              })
      ]

  pub send_next-Sound :
      (unsent : List (List ℕ)) → s.unsent ≡ unsent → Sound limit seen (send_next s unsent)
  unfolding send_next
  send_next-Sound [] is = h
  send_next-Sound (bytes ∷ rest) is =
      elim (Bool-cases (ltb (length s.channel) 32 && not (has_ended s.worker))) [
        | inl sent ↦ rw sent (record {
          taken = h.taken;
          lost = h.lost;
          flows =
              sym (sends-flows h.taken h.lost bytes s.channel rest)
              ∙ sym (ap (λ u. h.taken ++ (concat s.channel ++ (concat u ++ h.lost))) is)
              ∙ h.flows;
          loses = h.loses;
          limits = h.limits;
          stage = h.stage;
        })
        | inr failed ↦ rw failed (record {
          taken = h.taken;
          lost = concat s.unsent ++ h.lost;
          flows = h.flows;
          loses = λ e. absurd cc;
          limits = h.limits;
          stage = h.stage;
        })
      ]

  pub mark_partial-Sound : Sound limit seen (mark_partial s)
  unfolding mark_partial
  mark_partial-Sound = record {
    taken = h.taken;
    lost = h.lost;
    flows = h.flows;
    loses = h.loses;
    limits = h.limits;
    stage = h.stage;
  }

  pub finish-Sound : Sound limit seen (finish s)
  unfolding finish
  finish-Sound = record {
    taken = h.taken;
    lost = h.lost;
    flows = h.flows;
    loses = λ e. absurd cc;
    limits = h.limits;
    stage = h.stage;
  }

  pub drop_sinks-Sound : Sound limit seen (drop_sinks s)
  unfolding drop_sinks
  drop_sinks-Sound = record {
    taken = h.taken;
    lost = h.lost;
    flows = h.flows;
    loses = h.loses;
    limits = h.limits;
    stage = h.stage;
  }

  kept_at :
      (w : Worker)
      → s.worker ≡ w
      → Stage w h.taken s.descriptor.state s.contents s.descriptor.bytes limit s.is_open
  kept_at w is =
      subst (λ x. Stage x h.taken s.descriptor.state s.contents s.descriptor.bytes limit s.is_open)
        is h.stage

  moved :
      (t : RunOutputSink)
      → t.channel ≡ s.channel
      → t.unsent ≡ s.unsent
      → h.taken ++ (concat t.channel ++ (concat t.unsent ++ h.lost)) ≡ seen
  moved t c u = rw (c, u) h.flows

  receive-Sound :
      (channel : List (List ℕ))
      → s.worker ≡ waiting
      → s.channel ≡ channel
      → Sound limit seen (receive s channel)
  unfolding receive Stage
  receive-Sound [] is ch = record {
    taken = h.taken;
    lost = h.lost;
    flows = h.flows;
    loses = h.loses;
    limits = h.limits;
    stage = elim (Bool-cases s.is_dropped) [
      | inl e ↦ rw e (kept_at waiting is)
      | inr e ↦ rw e (kept_at waiting is)
    ];
  }
  receive-Sound (bytes ∷ rest) is ch =
      let flows : (h.taken ++ bytes) ++ (concat rest ++ (concat s.unsent ++ h.lost)) ≡ seen =
        sym (takes-flows h.taken bytes (concat s.unsent ++ h.lost) rest)
        ∙ sym (ap (λ u. h.taken ++ (concat u ++ (concat s.unsent ++ h.lost))) ch)
        ∙ h.flows in
      record {
        taken = h.taken ++ bytes;
        lost = h.lost;
        flows = flows;
        loses = h.loses;
        limits = h.limits;
        stage = elim (Bool-cases (is_writable s.descriptor.state)) [
          | inl w ↦ rw (w, h.limits) (h.taken, refl, kept_at waiting is, w, refl)
          | inr w ↦ rw w (
              Tally-skipped s.descriptor.state h.taken s.contents bytes s.descriptor.bytes limit
                s.is_open (kept_at waiting is) w)
        ];
      }

  write-Sound :
      (before bytes : List ℕ) (count : ℕ) (failure : Option ℕ)
      → before ++ bytes ≡ h.taken
      → Tally s.descriptor.state before s.contents s.descriptor.bytes limit s.is_open
      → is_writable s.descriptor.state ≡ true
      → count ≡ min (limit - s.descriptor.bytes) (length bytes)
      → Sound limit seen (write s bytes count failure)
  unfolding write Stage
  write-Sound before bytes count none same tally w sized =
      let (_, _, _, opened, _) =
        Tally-writable limit before s.contents bytes s.descriptor.bytes s.is_open s.descriptor.state
          tally w in
      rw opened (record {
        taken = h.taken;
        lost = h.lost;
        flows = h.flows;
        loses = h.loses;
        limits = h.limits;
        stage = (before, s.contents, same, rw (sym opened) tally, w, sized, refl);
      })
  write-Sound before bytes count (some n) same tally w sized =
      let (_, _, _, opened, _) =
        Tally-writable limit before s.contents bytes s.descriptor.bytes s.is_open s.descriptor.state
          tally w in
      let (front, short, grows) =
        Tally-failed limit before s.contents bytes s.descriptor.bytes s.is_open s.descriptor.state n
          tally w in
      rw opened (record {
        taken = h.taken;
        lost = h.lost;
        flows = h.flows;
        loses = h.loses;
        limits = h.limits;
        stage = rw (sized, sym same) (front, short, grows, w);
      })

  account-Sound :
      limit < 18446744073709551616
      → (before old bytes : List ℕ) (count : ℕ) → before ++ bytes ≡ h.taken
      → Tally s.descriptor.state before old s.descriptor.bytes limit s.is_open
      → is_writable s.descriptor.state ≡ true
      → count ≡ min (limit - s.descriptor.bytes) (length bytes)
      → s.contents ≡ old ++ take count bytes
      → Sound limit seen (account s bytes count false)
  unfolding account Stage
  account-Sound small before old bytes count same tally w sized grown = record {
    taken = h.taken;
    lost = h.lost;
    flows = h.flows;
    loses = h.loses;
    limits = h.limits;
    stage =
        rw (grown, sized, sym same)
          (Tally-account limit before old bytes s.descriptor.bytes s.is_open s.descriptor.state
            small tally w);
  }

  pub work_at-Sound :
      limit < 18446744073709551616
      → (w : Worker) (failure : Option ℕ) → s.worker ≡ w
      → Sound limit seen (work_at s w failure)
  unfolding work_at check_done Stage write account sync Tally
  work_at-Sound small waiting failure is = receive-Sound s.channel is refl
  work_at-Sound small timed_out failure is = elim (Bool-cases s.is_finished) [
    | inl e ↦ record {
      taken = h.taken;
      lost = h.lost;
      flows = h.flows;
      loses = h.loses;
      limits = h.limits;
      stage = rw e (kept_at timed_out is);
    }
    | inr e ↦ record {
      taken = h.taken;
      lost = h.lost;
      flows = h.flows;
      loses = h.loses;
      limits = h.limits;
      stage = rw e (kept_at timed_out is);
    }
  ]
  work_at-Sound small ended failure is = h
  work_at-Sound small closing failure is = record {
    taken = h.taken;
    lost = h.lost;
    flows = h.flows;
    loses = h.loses;
    limits = h.limits;
    stage =
        Tally-sync s.descriptor.state h.taken s.contents s.descriptor.bytes limit s.is_open failure
          (kept_at closing is);
  }
  work_at-Sound small (writing bytes count) failure is =
      let (before, same, tally, w, sized) = kept_at (writing bytes count) is in
      write-Sound before bytes count failure same tally w sized
  work_at-Sound small (wrote bytes count true) failure is =
      let st = kept_at (wrote bytes count true) is in
      record {
        taken = h.taken;
        lost = h.lost;
        flows = h.flows;
        loses = h.loses;
        limits = h.limits;
        stage = (st.0, st.1, st.2);
      }
  work_at-Sound small (wrote bytes count false) failure is =
      let (before, old, same, tally, w, sized, grown) = kept_at (wrote bytes count false) is in
      account-Sound small before old bytes count same tally w sized grown
