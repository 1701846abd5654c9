-- ===== src/Gate/Steps.antt =====
-- The gate with the leases that are held: what callers of the gate can do, one call at a time.
use idk.Common.{ℕ, zero, suc, List, [], ◌∷◌, Option, none, some, true, Text, Eq, Result, ok, err}
use idk.Gate.{
  SourceGate, GateLease, Refusal, block, unblock, set_unavailable, set_ready, reserve_run,
  reserve_mutation, drop_lease,
}

pub record World (K : Type 0) : Type 0 where
  pub gate : SourceGate K
  pub held : List (GateLease K)

pub data Call (K : Type 0) : Type 0 where
  blocks : K → Text → Text → Call K
  unblocks : K → Text → Call K
  loses : K → Call K
  readies : K → Call K
  runs : K → Text → Text → Call K
  mutates : K → Text → Call K
  drops : ℕ → Call K
  poisons : Call K

module _ {K : Type 0} where
  abbrev pub nth : List (GateLease K) → ℕ → Option (GateLease K)
  nth [] n = none
  nth (l ∷ ls) zero = some l
  nth (l ∷ ls) (suc n) = nth ls n

  abbrev pub without : List (GateLease K) → ℕ → List (GateLease K)
  without [] n = []
  without (l ∷ ls) zero = ls
  without (l ∷ ls) (suc n) = l ∷ without ls n

  abbrev pub keep : List (GateLease K) → Result Refusal (GateLease K) → List (GateLease K)
  keep held (ok l) = l ∷ held
  keep held (err r) = held

module _ {K : Type 0} ⦃e : Eq K⦄ where
  -- The lease at position `n` goes out of scope.
  unfoldable pub drop_nth : World K → ℕ → World K
  drop_nth w n = elim (nth w.held n) [
    | none ↦ w
    | some l ↦ record { gate = drop_lease w.gate l; held = without w.held n }
  ]

  unfoldable pub step : World K → Call K → World K
  unfolding drop_nth
  step w (blocks k id reason) = record w { gate = (block w.gate k id reason).0 }
  step w (unblocks k id) = record w { gate = (unblock w.gate k id).0 }
  step w (loses k) = record w { gate = (set_unavailable w.gate k).0 }
  step w (readies k) = record w { gate = (set_ready w.gate k).0 }
  step w (runs k op name) =
      let (g, r) = reserve_run w.gate k op name in record { gate = g; held = keep w.held r }
  step w (mutates k op) =
      let (g, r) = reserve_mutation w.gate k op in record { gate = g; held = keep w.held r }
  step w (drops n) = drop_nth w n
  step w poisons = let g = w.gate in record w { gate = record g { poisoned = true } }

  unfoldable pub run : World K → List (Call K) → World K
  run w [] = w
  run w (c ∷ cs) = run (step w c) cs
