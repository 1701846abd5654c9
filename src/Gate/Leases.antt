-- ===== src/Gate/Leases.antt =====
-- When a lease is granted, what dropping it restores, and how long a block lasts.
use idk.Common.{
  ◌≡◌, List, [], ◌∷◌, Option, none, some, Bool, true, false, not, ◌&&◌, ◌||◌, Text, text_eq,
  text_eq_iff, text_Eq, Eq, All, arith, if◌then◌else◌, is_some, is_none, is_empty, ok, is_ok,
  Option-cases, inl, inr,
}
use idk.Common.Assoc.{
  contains_key, insert, remove, lookup-insert, contains_key-insert, contains_key-remove_ne,
  remove-insert_fresh,
}
use idk.Gate.{
  SourceGate, GateLease, GateState, entry, granted, released, next_generation, state, update, block,
  unblock, set_unavailable, set_ready, reserve, reserve_run, reserve_mutation, drop_lease,
}
use idk.Gate.Steps.{
  World, Call, blocks, unblocks, loses, readies, runs, mutates, drops, poisons, nth, step, run,
  drop_nth,
}

module _ {K : Type 0} ⦃e : Eq K⦄ where
  -- A reservation is granted exactly when the reported state is ready, no source change holds the
  -- worktree, no run does if this one is a source change, and the operation is new.
  pub reserve_by_state :
      (g : SourceGate K) (k : K) (op : Text) (name : Option Text) (s : GateState)
      → state g k ≡ ok s
      → is_ok (reserve g k op name).1 ≡ (
          s.provider_ready
          && (is_none s.mutation && (is_some name || is_empty s.runs))
          && not (contains_key op s.runs))
  unfolding state reserve
  reserve_by_state g k op name s reported = ground arith

  -- Dropping a lease as soon as it is granted gives every worktree its state back, but that a source
  -- change has moved its worktree's generation on.
  pub drop_lease-reserve :
      (g : SourceGate K) (k j : K) (op : Text) (name : Option Text) (l : GateLease K)
      → (reserve g k op name).1 ≡ ok l
      → entry j (drop_lease (reserve g k op name).0 l).states ≡ (
          if e.eqb k j && is_none name
          then (let s = entry k g.states in record s { generation = next_generation s.generation })
          else entry j g.states)
  unfolding reserve drop_lease
  drop_lease-reserve g k j op (some name) l granted_l =
      let s = entry k g.states in
      let given = granted s op (some name) in
      let lease : GateLease K = record { identity = k; operation = op; mutation = false } in
      ground (
        arith,
        e.eqb_iff k k,
        e.eqb_iff k j,
        lookup-insert k k given g.states,
        lookup-insert k j given g.states,
        lookup-insert k j (released given lease) (insert k given g.states),
        remove-insert_fresh op name s.runs,
      )
  drop_lease-reserve g k j op none l granted_l =
      let s = entry k g.states in
      let given = granted s op none in
      let lease : GateLease K = record { identity = k; operation = op; mutation = true } in
      ground (
        arith,
        e.eqb_iff k k,
        e.eqb_iff k j,
        text_eq_iff op op,
        lookup-insert k k given g.states,
        lookup-insert k j given g.states,
        lookup-insert k j (released given lease) (insert k given g.states),
      )

  -- The call lifts the block `id` of the worktree `k`.
  abbrev pub lifts : K → Text → Call K → Bool
  lifts k id (unblocks j other) = e.eqb j k && text_eq other id
  lifts k id _ = false

  abbrev Blocked : SourceGate K → K → Text → Type 0
  Blocked g k id = contains_key id (entry k g.states).blocks ≡ true

  update-Blocked :
      (g : SourceGate K) (j k : K) (id : Text) (f : GateState → GateState)
      → (e.eqb j k ≡ true
          → contains_key id (entry j g.states).blocks ≡ true
          → contains_key id (f (entry j g.states)).blocks ≡ true)
      → Blocked g k id
      → Blocked (update g j f).0 k id
  unfolding update
  update-Blocked g j k id f same h =
      ground (arith, e.eqb_iff j k, lookup-insert j k (f (entry j g.states)) g.states)

  reserve-Blocked :
      (g : SourceGate K) (j k : K) (op id : Text) (name : Option Text)
      → Blocked g k id
      → Blocked (reserve g j op name).0 k id
  unfolding reserve
  reserve-Blocked g j k op id (some name) h = ground (
    arith,
    e.eqb_iff j k,
    lookup-insert j k (entry j g.states) g.states,
    lookup-insert j k (granted (entry j g.states) op (some name)) g.states,
  )
  reserve-Blocked g j k op id none h = ground (
    arith,
    e.eqb_iff j k,
    lookup-insert j k (entry j g.states) g.states,
    lookup-insert j k (granted (entry j g.states) op none) g.states,
  )

  drop_lease-Blocked :
      (g : SourceGate K) (l : GateLease K) (k : K) (id : Text)
      → Blocked g k id
      → Blocked (drop_lease g l) k id
  unfolding drop_lease
  drop_lease-Blocked g l k id h = ground (
    arith,
    e.eqb_iff l.identity k,
    lookup-insert l.identity k (released (entry l.identity g.states) l) g.states,
  )

  step-Blocked :
      (w : World K) (c : Call K) (k : K) (id : Text)
      → lifts k id c ≡ false
      → Blocked w.gate k id
      → Blocked (step w c).gate k id
  unfolding step block unblock set_unavailable set_ready reserve_run reserve_mutation drop_nth
  step-Blocked w (blocks j other reason) k id kept h =
      update-Blocked w.gate j k id (λ s. record s { blocks = insert other reason s.blocks })
        (λ same held.
          ground (arith, contains_key-insert other id reason (entry j w.gate.states).blocks))
        h
  step-Blocked w (unblocks j other) k id kept h =
      update-Blocked w.gate j k id (λ s. record s { blocks = remove other s.blocks })
        (λ same held.
          ground (arith, contains_key-remove_ne other id (entry j w.gate.states).blocks))
        h
  step-Blocked w (loses j) k id kept h =
      update-Blocked w.gate j k id (λ s. record s { provider_ready = false }) (λ same held. held) h
  step-Blocked w (readies j) k id kept h =
      update-Blocked w.gate j k id (λ s. record s { provider_ready = true }) (λ same held. held) h
  step-Blocked w (runs j op name) k id kept h = reserve-Blocked w.gate j k op id (some name) h
  step-Blocked w (mutates j op) k id kept h = reserve-Blocked w.gate j k op id none h
  step-Blocked w (drops n) k id kept h = elim (Option-cases (nth w.held n)) [
    | inl missing ↦ rw (missing, drop_nth) h
    | inr (l, found) ↦ rw (found, drop_nth) (drop_lease-Blocked w.gate l k id h)
  ]
  step-Blocked w poisons k id kept h = h

  run-Blocked :
      (w : World K) (cs : List (Call K)) (k : K) (id : Text)
      → All (λ c. lifts k id c ≡ false) cs
      → Blocked w.gate k id
      → Blocked (run w cs).gate k id
  unfolding run
  run-Blocked w [] k id kept h = h
  run-Blocked w (c ∷ cs) k id kept h =
      run-Blocked (step w c) cs k id kept.1 (step-Blocked w c k id kept.0 h)

  Blocked-refuses :
      (g : SourceGate K) (k : K) (id op : Text) (name : Option Text)
      → Blocked g k id
      → is_ok (reserve g k op name).1 ≡ false
  unfolding reserve contains_key
  Blocked-refuses g k id op name h = ground arith

  block-Blocked :
      (g : SourceGate K) (k : K) (id reason : Text)
      → (block g k id reason).1 ≡ ok tt
      → Blocked (block g k id reason).0 k id
  unfolding block update
  block-Blocked g k id reason done =
      let s = entry k g.states in
      ground (
        arith,
        e.eqb_iff k k,
        text_eq_iff id id,
        lookup-insert k k (record s { blocks = insert id reason s.blocks }) g.states,
        contains_key-insert id id reason s.blocks,
      )

  -- Once a worktree is blocked for a reason, no reservation there is granted after any further calls,
  -- readiness included, as long as none of them lifts that reason.
  pub block_lasts :
      (w : World K) (cs : List (Call K)) (k : K) (id reason op : Text) (name : Option Text)
      → (block w.gate k id reason).1 ≡ ok tt
      → All (λ c. lifts k id c ≡ false) cs
      → is_ok (reserve (run (step w (blocks k id reason)) cs).gate k op name).1 ≡ false
  unfolding step
  block_lasts w cs k id reason op name done kept =
      Blocked-refuses _ k id op name
        (run-Blocked _ cs k id kept (block-Blocked w.gate k id reason done))
