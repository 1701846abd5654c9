-- ===== src/Ingress.antt =====
-- The bounded filter in front of the terminal parser, crates/idk/src/terminal.rs: `IngressState`,
-- `Ingress`, `filter`. `Cow::Borrowed` and `Cow::Owned` are both the bytes that they hold.
pub mod Stream
mod Examples
use idk.Common.{
  ℕ, ◌≡◌, List, [], ◌∷◌, ◌++◌, Bool, true, false, ◌&&◌, ◌||◌, not, if◌then◌else◌, ◌==◌, ltb, within,
  any, length,
}

pub data IngressState : Type 0 where
  ground_state escape osc discard_osc : IngressState

pub record Ingress : Type 0 where
  pub state : IngressState
  pub held : List ℕ
  pub limited : Bool

abbrev pub default : Ingress
default = record { state = ground_state; held = []; limited = false }

abbrev pub max_osc_bytes : ℕ
max_osc_bytes = 16384

abbrev pub is_ground : IngressState → Bool
is_ground ground_state = true
is_ground _ = false

-- The body of the loop for one byte: the new state and what is passed on.
ground_byte : Ingress → ℕ → Ingress × List ℕ
ground_byte i b = (if b == 0x1b then record i { state = escape } else i, b ∷ [])

-- C0, DEL and bytes outside ASCII leave the parser in its escape state.
escape_byte : Ingress → ℕ → Ingress × List ℕ
escape_byte i b =
    if b == b']'
    then (record i { held = i.held ++ b ∷ []; state = osc }, [])
    else if b == 0x18 || b == 0x1a || within 0x20 0x7e b
    then (record i { state = ground_state }, b ∷ [])
    else (i, b ∷ [])

osc_byte : Ingress → ℕ → Ingress × List ℕ
osc_byte i b =
    if b == 0x07 || b == 0x18 || b == 0x1a || b == 0x1b
    then (
      record i { held = []; state = if b == 0x1b then escape else ground_state },
      i.held ++ b ∷ [],
    )
    else if ltb (length i.held) max_osc_bytes
    then (record i { held = i.held ++ b ∷ [] }, [])
    else (record { state = discard_osc; held = []; limited = true }, 0x18 ∷ [])

discard_byte : Ingress → ℕ → Ingress × List ℕ
discard_byte i b =
    if b == 0x07
    then (record i { state = ground_state }, [])
    else if b == 0x18 || b == 0x1a
    then (record i { state = ground_state }, b ∷ [])
    else if b == 0x1b
    then (record i { state = escape }, b ∷ [])
    else (i, [])

dispatch : IngressState → Ingress → ℕ → Ingress × List ℕ
unfolding ground_byte escape_byte osc_byte discard_byte
dispatch ground_state i b = ground_byte i b
dispatch escape i b = escape_byte i b
dispatch osc i b = osc_byte i b
dispatch discard_osc i b = discard_byte i b

unfoldable pub filter_byte : Ingress → ℕ → Ingress × List ℕ
unfolding dispatch
filter_byte i b = dispatch i.state i b

unfoldable pub filter_loop : Ingress → List ℕ → Ingress × List ℕ
filter_loop i [] = (i, [])
filter_loop i (b ∷ bs) =
    let (i', out) = filter_byte i b in let (i'', rest) = filter_loop i' bs in (i'', out ++ rest)

unfoldable pub filter : Ingress → List ℕ → Ingress × List ℕ
filter i bs =
    if is_ground i.state && not (any (λ b. b == 0x1b) bs) then (i, bs) else filter_loop i bs
