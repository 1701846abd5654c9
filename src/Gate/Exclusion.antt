-- ===== src/Gate/Exclusion.antt =====
-- Leases of one worktree exclude one another as the gate promises.
use mathlib.Core.Path.{subst}
use idk.Common.{
  ℕ, zero, suc, ◌≡◌, refl, List, [], ◌∷◌, Option, none, some, Bool, true, false, Text, text_eq,
  text_eq_iff, text_Eq, Eq, ok, err, is_ok, All, All-map, arith, if◌then◌else◌, Option-cases, inl,
  inr, Result, is_none, is_empty, not, ◌&&◌, ◌||◌,
}
use idk.Common.Assoc.{
  contains_key, insert, lookup-insert, contains_key-insert, contains_key-remove_ne,
}
use idk.Gate.{
  SourceGate, GateLease, GateState, Refusal, entry, is_operation, update, block, unblock,
  set_unavailable, set_ready, reserve, reserve_run, reserve_mutation, drop_lease, released, granted,
}
use idk.Gate.Steps.{
  World, Call, blocks, unblocks, loses, readies, runs, mutates, drops, poisons, nth, without, keep,
  step, run, drop_nth,
}

module _ {K : Type 0} where
  -- The state of a lease's worktree shows the lease.
  abbrev pub shows : GateState → GateLease K → Bool
  shows s l =
      if l.mutation then is_operation s.mutation l.operation else contains_key l.operation s.runs

module _ {K : Type 0} ⦃e : Eq K⦄ where
  -- Two leases of one worktree are both for runs, and for different operations.
  abbrev pub Compatible : GateLease K → GateLease K → Type 0
  Compatible l m =
      (not (e.eqb l.identity m.identity)
        || (not l.mutation && not m.mutation && not (text_eq l.operation m.operation)))
      ≡ true

  abbrev pub Exclusive : List (GateLease K) → Type 0
  Exclusive [] = Unit
  Exclusive (l ∷ ls) = All (Compatible l) ls × Exclusive ls

  abbrev Recorded : SourceGate K → GateLease K → Type 0
  Recorded g l = shows (entry l.identity g.states) l ≡ true

  record Inv (w : World K) : Type 0 where
    recorded : All (Recorded w.gate) w.held
    exclusive : Exclusive w.held

  entry-insert :
      (k j : K) (s : GateState) (m : List (K × GateState))
      → entry j (insert k s m) ≡ (if e.eqb k j then s else entry j m)
  entry-insert k j s m = ground (arith, lookup-insert k j s m)

  update-Recorded :
      (g : SourceGate K) (k : K) (f : GateState → GateState)
      → ((s : GateState) (l : GateLease K) → shows (f s) l ≡ shows s l)
      → (l : GateLease K) → Recorded g l
      → Recorded (update g k f).0 l
  unfolding update
  update-Recorded g k f same l h = ground (
    arith,
    e.eqb_iff k l.identity,
    entry-insert k l.identity (f (entry k g.states)) g.states,
    same (entry k g.states) l,
  )

  reserve-Recorded :
      (g : SourceGate K) (k : K) (op : Text) (run : Option Text) (m : GateLease K)
      → Recorded g m
      → Recorded (reserve g k op run).0 m
  unfolding reserve contains_key
  reserve-Recorded g k op (some name) m h = ground (
    arith,
    e.eqb_iff k m.identity,
    entry-insert k m.identity (entry k g.states) g.states,
    entry-insert k m.identity (granted (entry k g.states) op (some name)) g.states,
    contains_key-insert op m.operation name (entry k g.states).runs,
  )
  reserve-Recorded g k op none m h = ground (
    arith,
    e.eqb_iff k m.identity,
    entry-insert k m.identity (entry k g.states) g.states,
    entry-insert k m.identity (granted (entry k g.states) op none) g.states,
  )

  granted_Compatible :
      (s : GateState) (op : Text) (m : GateLease K) (name : Option Text)
      → s.mutation ≡ none
      → (is_none name && not (is_empty s.runs)) ≡ false
      → contains_key op s.runs ≡ false
      → shows s m ≡ true
      → (is_none name ≡ false) × (m.mutation ≡ false) × (text_eq op m.operation ≡ false)
  unfolding contains_key
  granted_Compatible s op m none none_held idle fresh shown = ground arith
  granted_Compatible s op m (some name) none_held idle fresh shown =
      ground (arith, text_eq_iff op m.operation)

  reserve-Compatible :
      (g : SourceGate K) (k : K) (op : Text) (name : Option Text) (l m : GateLease K)
      → (reserve g k op name).1 ≡ ok l
      → Recorded g m
      → Compatible l m
  unfolding reserve
  reserve-Compatible g k op name l m granted_l h =
      ground (arith, e.eqb_iff k m.identity, granted_Compatible (entry k g.states) op m name)

  reserve-shows :
      (g : SourceGate K) (k : K) (op : Text) (name : Option Text) (l : GateLease K)
      → (reserve g k op name).1 ≡ ok l
      → Recorded (reserve g k op name).0 l
  unfolding reserve
  reserve-shows g k op (some name) l h = ground (
    arith,
    e.eqb_iff k k,
    text_eq_iff op op,
    entry-insert k k (granted (entry k g.states) op (some name)) g.states,
    contains_key-insert op op name (entry k g.states).runs,
  )
  reserve-shows g k op none l h = ground (
    arith,
    e.eqb_iff k k,
    text_eq_iff op op,
    entry-insert k k (granted (entry k g.states) op none) g.states,
  )

  drop-Recorded :
      (g : SourceGate K) (l m : GateLease K)
      → Recorded g l
      → Recorded g m
      → Compatible l m
      → Recorded (drop_lease g l) m
  unfolding drop_lease
  drop-Recorded g l m hl hm apart = ground (
    arith,
    e.eqb_iff l.identity m.identity,
    entry-insert l.identity m.identity (released (entry l.identity g.states) l) g.states,
    contains_key-remove_ne l.operation m.operation (entry l.identity g.states).runs,
  )

  Compatible-sym : (l m : GateLease K) → Compatible l m → Compatible m l
  Compatible-sym l m apart = ground (
    arith,
    e.eqb_iff l.identity m.identity,
    e.eqb_iff m.identity l.identity,
    text_eq_iff l.operation m.operation,
    text_eq_iff m.operation l.operation,
  )

  update-Inv :
      (w : World K) (k : K) (f : GateState → GateState)
      → ((s : GateState) (l : GateLease K) → shows (f s) l ≡ shows s l)
      → Inv w
      → Inv (record w { gate = (update w.gate k f).0 })
  update-Inv w k f same v = record {
    recorded = All-map (update-Recorded w.gate k f same) w.held v.recorded;
    exclusive = v.exclusive;
  }

  keep-Inv :
      (g : SourceGate K) (held : List (GateLease K)) (r : Result Refusal (GateLease K))
      → ((l : GateLease K) → r ≡ ok l → Recorded g l × All (Compatible l) held)
      → All (Recorded g) held
      → Exclusive held
      → Inv (record { gate = g; held = keep held r })
  keep-Inv g held (ok l) fresh recorded exclusive = record {
    recorded = ((fresh l refl).0, recorded);
    exclusive = ((fresh l refl).1, exclusive);
  }
  keep-Inv g held (err r) fresh recorded exclusive = record {
    recorded = recorded;
    exclusive = exclusive;
  }

  reserve-Inv :
      (w : World K) (k : K) (op : Text) (name : Option Text)
      → Inv w
      → Inv (record {
        gate = (reserve w.gate k op name).0;
        held = keep w.held (reserve w.gate k op name).1;
      })
  reserve-Inv w k op name v =
      keep-Inv _ w.held _
        (λ l h. (
          reserve-shows w.gate k op name l h,
          All-map (λ m. reserve-Compatible w.gate k op name l m h) w.held v.recorded,
        ))
        (All-map (reserve-Recorded w.gate k op name) w.held v.recorded) v.exclusive

  All-without :
      (P : GateLease K → Type 0) (ls : List (GateLease K)) (n : ℕ) → All P ls → All P (without ls n)
  All-without P [] n h = tt
  All-without P (l ∷ ls) zero h = h.1
  All-without P (l ∷ ls) (suc n) h = (h.0, All-without P ls n h.1)

  All-nth :
      (P : GateLease K → Type 0) (ls : List (GateLease K)) (n : ℕ) {l : GateLease K}
      → All P ls
      → nth ls n ≡ some l
      → P l
  All-nth P [] n h found = cc
  All-nth P (m ∷ ls) zero {l} h found = let e : m ≡ l = cc in subst P e h.0
  All-nth P (m ∷ ls) (suc n) h found = All-nth P ls n h.1 found

  Exclusive-without : (ls : List (GateLease K)) (n : ℕ) → Exclusive ls → Exclusive (without ls n)
  Exclusive-without [] n h = tt
  Exclusive-without (l ∷ ls) zero h = h.1
  Exclusive-without (l ∷ ls) (suc n) h = (All-without _ ls n h.0, Exclusive-without ls n h.1)

  -- The others are compatible with the lease at `n`.
  Exclusive-nth :
      (ls : List (GateLease K)) (n : ℕ) {l : GateLease K}
      → Exclusive ls
      → nth ls n ≡ some l
      → All (Compatible l) (without ls n)
  Exclusive-nth [] n h found = tt
  Exclusive-nth (m ∷ ls) zero {l} h found =
      let same : m ≡ l = cc in subst (λ x. All (Compatible x) ls) same h.0
  Exclusive-nth (m ∷ ls) (suc n) {l} h found =
      (Compatible-sym m l (All-nth _ ls n h.0 found), Exclusive-nth ls n h.1 found)

  drop-All :
      (g : SourceGate K) (l : GateLease K) (ls : List (GateLease K))
      → Recorded g l
      → All (Compatible l) ls
      → All (Recorded g) ls
      → All (Recorded (drop_lease g l)) ls
  drop-All g l [] hl apart h = tt
  drop-All g l (m ∷ ls) hl apart h =
      (drop-Recorded g l m hl h.0 apart.0, drop-All g l ls hl apart.1 h.1)

  drop_nth-Inv : (w : World K) (n : ℕ) → Inv w → Inv (drop_nth w n)
  unfolding drop_nth
  drop_nth-Inv w n v = elim (Option-cases (nth w.held n)) [
    | inl e ↦ rw (e, drop_nth) v
    | inr (l, e) ↦
        rw (e, drop_nth)
          (record {
            recorded =
                drop-All w.gate l (without w.held n) (All-nth _ w.held n v.recorded e)
                  (Exclusive-nth w.held n v.exclusive e) (All-without _ w.held n v.recorded);
            exclusive = Exclusive-without w.held n v.exclusive;
          })
  ]

  step-Inv : (w : World K) (c : Call K) → Inv w → Inv (step w c)
  unfolding step block unblock set_unavailable set_ready reserve_run reserve_mutation
  step-Inv w (blocks k id reason) v = update-Inv w k _ (λ s l. refl) v
  step-Inv w (unblocks k id) v = update-Inv w k _ (λ s l. refl) v
  step-Inv w (loses k) v = update-Inv w k _ (λ s l. refl) v
  step-Inv w (readies k) v = update-Inv w k _ (λ s l. refl) v
  step-Inv w (runs k op name) v = reserve-Inv w k op (some name) v
  step-Inv w (mutates k op) v = reserve-Inv w k op none v
  step-Inv w (drops n) v = drop_nth-Inv w n v
  step-Inv w poisons v = record { recorded = v.recorded; exclusive = v.exclusive }

  run-Inv : (w : World K) (cs : List (Call K)) → Inv w → Inv (run w cs)
  unfolding run
  run-Inv w [] v = v
  run-Inv w (c ∷ cs) v = run-Inv (step w c) cs (step-Inv w c v)

  -- From a gate with no lease out, whatever its state, and after any calls in any order: of two
  -- leases held on one worktree both are run leases, and their operations differ.
  pub run-Exclusive :
      (g : SourceGate K) (cs : List (Call K))
      → Exclusive (run (record { gate = g; held = [] }) cs).held
  run-Exclusive g cs = (run-Inv _ cs (record { recorded = tt; exclusive = tt })).exclusive

  -- While a lease is held, after any calls from a gate with no lease out, no source change is
  -- admitted in its worktree, and, if the lease is for a source change, no run either.
  pub held_lease_refuses :
      (g : SourceGate K) (cs : List (Call K)) (n : ℕ) (l : GateLease K) (op name : Text)
      → nth (run (record { gate = g; held = [] }) cs).held n ≡ some l
      → (is_ok (reserve_mutation (run (record { gate = g; held = [] }) cs).gate l.identity op).1
          ≡ false)
        × ((l.mutation
              && is_ok
                  (reserve_run (run (record { gate = g; held = [] }) cs).gate l.identity op name).1)
            ≡ false)
  unfolding reserve_mutation reserve_run reserve contains_key
  held_lease_refuses g cs n l op name found =
      let w : World K = run (record { gate = g; held = [] }) cs in
      let shown : Recorded w.gate l =
        All-nth _ w.held n (run-Inv _ cs (record { recorded = tt; exclusive = tt })).recorded
          found in
      ground arith
