-- ===== src/Gate.antt =====
-- The source-use gate of crates/idk/src/model.rs: `SourceGate`, `GateState`, `GateLease`.
-- The mutex-guarded map is the field `states`; `poisoned` is the lock that cannot be taken.
-- A lease is dropped by `drop_lease`, which is the body of `Drop for GateLease`.
pub mod Steps
pub mod Exclusion
pub mod Leases
mod Examples
use idk.Common.{
  ℕ, ◌+◌, ◌%◌, List, [], Option, none, some, Bool, true, false, ◌&&◌, ◌||◌, not, Text, text_eq,
  text_Eq, Eq, Result, Check, ok, err, if◌then◌else◌, is_some, is_none, is_empty,
}
use idk.Common.Assoc.{lookup, contains_key, insert, remove}

pub record GateState : Type 0 where
  pub provider_ready : Bool
  pub blocks : List (Text × Text)
  pub runs : List (Text × Text)
  pub mutation : Option Text
  pub generation : ℕ  -- u64

abbrev pub default : GateState
default = record { provider_ready = false; blocks = []; runs = []; mutation = none; generation = 0 }

pub record SourceGate (K : Type 0) : Type 0 where
  pub poisoned : Bool
  pub states : List (K × GateState)

pub record GateLease (K : Type 0) : Type 0 where
  pub identity : K
  pub operation : Text
  pub mutation : Bool

-- provider unavailable; state unknown; worktree in use; duplicate operation id
pub data Refusal : Type 0 where
  unavailable unknown in_use duplicate : Refusal

abbrev pub or_default : Option GateState → GateState
or_default none = default
or_default (some s) = s

abbrev pub granted : GateState → Text → Option Text → GateState
granted s operation (some name) = record s { runs = insert operation name s.runs }
granted s operation none = record s { mutation = some operation }

abbrev pub is_operation : Option Text → Text → Bool
is_operation none operation = false
is_operation (some o) operation = text_eq o operation

-- `u64 += 1`
abbrev pub next_generation : ℕ → ℕ
next_generation g = (g + 1) % 18446744073709551616

module _ {K : Type 0} ⦃e : Eq K⦄ where
  abbrev pub entry : K → List (K × GateState) → GateState
  entry k states = or_default (lookup k states)

  pub update : SourceGate K → K → (GateState → GateState) → SourceGate K × Check Refusal
  update g k f =
      if g.poisoned
      then (g, err unavailable)
      else (record g { states = insert k (f (entry k g.states)) g.states }, ok tt)

  pub block : SourceGate K → K → Text → Text → SourceGate K × Check Refusal
  block g k id reason = update g k (λ s. record s { blocks = insert id reason s.blocks })

  pub unblock : SourceGate K → K → Text → SourceGate K × Check Refusal
  unblock g k id = update g k (λ s. record s { blocks = remove id s.blocks })

  pub set_unavailable : SourceGate K → K → SourceGate K × Check Refusal
  set_unavailable g k = update g k (λ s. record s { provider_ready = false })

  pub set_ready : SourceGate K → K → SourceGate K × Check Refusal
  set_ready g k = update g k (λ s. record s { provider_ready = true })

  pub state : SourceGate K → K → Result Refusal GateState
  state g k =
      let s = entry k g.states in
      if g.poisoned
      then err unavailable
      else ok (record s { provider_ready = s.provider_ready && is_empty s.blocks })

  -- `entry(..).or_default()` stays in the map also when the reservation is refused.
  pub reserve : SourceGate K → K → Text → Option Text → SourceGate K × Result Refusal (GateLease K)
  reserve g k operation run =
      let s = entry k g.states in
      let opened = record g { states = insert k s g.states } in
      if g.poisoned
      then (g, err unavailable)
      else if not s.provider_ready || not (is_empty s.blocks)
      then (opened, err unknown)
      else if is_some s.mutation || (is_none run && not (is_empty s.runs))
      then (opened, err in_use)
      else if contains_key operation s.runs
      then (opened, err duplicate)
      else (
        record g { states = insert k (granted s operation run) g.states },
        ok (record { identity = k; operation = operation; mutation = is_none run }),
      )

  pub reserve_run : SourceGate K → K → Text → Text → SourceGate K × Result Refusal (GateLease K)
  unfolding reserve
  reserve_run g k operation name = reserve g k operation (some name)

  pub reserve_mutation : SourceGate K → K → Text → SourceGate K × Result Refusal (GateLease K)
  unfolding reserve
  reserve_mutation g k operation = reserve g k operation none

  released : GateState → GateLease K → GateState
  released s l =
      if l.mutation && is_operation s.mutation l.operation
      then record s { mutation = none; generation = next_generation s.generation }
      else if not l.mutation
      then record s { runs = remove l.operation s.runs }
      else s

  -- `get_mut` leaves a missing identity missing.
  pub drop_lease : SourceGate K → GateLease K → SourceGate K
  unfolding released
  drop_lease g l = if g.poisoned then g else elim (lookup l.identity g.states) [
    | none ↦ g
    | some s ↦ record g { states = insert l.identity (released s l) g.states }
  ]
