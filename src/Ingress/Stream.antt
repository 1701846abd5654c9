-- ===== src/Ingress/Stream.antt =====
-- The filter over whole streams: chunks, bounds, and what is passed on unchanged.
use mathlib.Core.List.{append_assoc, append-nil}
use idk.Common.{
  ℕ, ◌+◌, ◌≤◌, ◌≡◌, refl, sym, ap, ◌∙◌, List, [], ◌∷◌, ◌++◌, Bool, true, false, not, ◌==◌, any,
  length, length-append, arith, Bool-cases, inl, inr, ◌⊎◌, ◌||◌, All, ◌<◌, ltb, ltb→lt,
}
use idk.Ingress.{
  Ingress, IngressState, ground_state, osc, discard_osc, max_osc_bytes, is_ground, filter_byte,
  filter_loop, filter,
}

-- The bytes that are held back: none outside an OSC, and at most `MAX_OSC_BYTES`.
abbrev pub is_osc : IngressState → Bool
is_osc osc = true
is_osc _ = false

pub record IsBounded (i : Ingress) : Type 0 where
  pub held_in_osc : (is_osc i.state ≡ true) ⊎ (i.held ≡ [])
  pub held_le : length i.held ≤ max_osc_bytes

filter_byte-IsBounded : (i : Ingress) (b : ℕ) → IsBounded i → IsBounded (filter_byte i b).0
unfolding filter_byte
filter_byte-IsBounded i b h = ground (arith, length-append i.held (b ∷ []))

filter_byte-ground :
    (i : Ingress) (b : ℕ)
    → is_ground i.state ≡ true
    → (b == 0x1b) ≡ false
    → filter_byte i b ≡ (i, b ∷ [])
unfolding filter_byte
filter_byte-ground i b h e = ground arith

-- Without an escape character in reach the fast path is the loop.
filter_loop-ground :
    (i : Ingress) (bs : List ℕ)
    → is_ground i.state ≡ true
    → any (λ b. b == 0x1b) bs ≡ false
    → filter_loop i bs ≡ (i, bs)
unfolding filter_loop
filter_loop-ground i [] h none_in = refl
filter_loop-ground i (b ∷ bs) h none_in =
    rw (filter_byte-ground i b h (ground arith), filter_loop-ground i bs h (ground arith))

-- In every state and for all bytes the filter, with its fast path that borrows the input, gives
-- what the loop over the bytes gives.
pub filter-eq : (i : Ingress) (bs : List ℕ) → filter i bs ≡ filter_loop i bs
unfolding filter
filter-eq i bs = ground (arith, filter_loop-ground i bs)

filter_loop-append :
    (i : Ingress) (xs ys : List ℕ)
    → filter_loop i (xs ++ ys) ≡ (
        let (i', out) = filter_loop i xs in
        let (i'', rest) = filter_loop i' ys in (i'', out ++ rest))
unfolding filter_loop
filter_loop-append i [] ys = refl
filter_loop-append i (x ∷ xs) ys = ground (
  arith,
  filter_loop-append (filter_byte i x).0 xs ys,
  append_assoc (filter_byte i x).1 (filter_loop (filter_byte i x).0 xs).1
      (filter_loop (filter_loop (filter_byte i x).0 xs).0 ys).1,
)

-- To filter two reads one after the other gives the same bytes, and the same state, as to filter
-- them as one read, whichever of them take the fast path.
pub filter-append :
    (i : Ingress) (xs ys : List ℕ)
    → filter i (xs ++ ys)
      ≡ (let (i', out) = filter i xs in let (i'', rest) = filter i' ys in (i'', out ++ rest))
filter-append i xs ys =
    rw (filter-eq i (xs ++ ys), filter-eq i xs, filter-eq _ ys) (filter_loop-append i xs ys)

filter_loop-IsBounded : (i : Ingress) (bs : List ℕ) → IsBounded i → IsBounded (filter_loop i bs).0
unfolding filter_loop
filter_loop-IsBounded i [] h = h
filter_loop-IsBounded i (b ∷ bs) h =
    filter_loop-IsBounded (filter_byte i b).0 bs (filter_byte-IsBounded i b h)

-- A filter that holds nothing outside an operating-system command and at most 16 KiB inside is
-- again such a filter after any bytes.
pub filter-IsBounded : (i : Ingress) (bs : List ℕ) → IsBounded i → IsBounded (filter i bs).0
filter-IsBounded i bs h = rw filter-eq (filter_loop-IsBounded i bs h)

abbrev is_discarding : IngressState → Bool
is_discarding discard_osc = true
is_discarding _ = false

filter_byte-limited :
    (i : Ingress) (b : ℕ) → (filter_byte i b).0.limited ≡ false → i.limited ≡ false
unfolding filter_byte
filter_byte-limited i b h = ground arith

filter_loop-limited :
    (i : Ingress) (bs : List ℕ) → (filter_loop i bs).0.limited ≡ false → i.limited ≡ false
unfolding filter_loop
filter_loop-limited i [] h = h
filter_loop-limited i (b ∷ bs) h =
    filter_byte-limited i b (filter_loop-limited (filter_byte i b).0 bs h)

filter_byte_keeps :
    (i : Ingress) (b : ℕ)
    → IsBounded i
    → is_discarding i.state ≡ false
    → (filter_byte i b).0.limited ≡ false
    → ((filter_byte i b).1 ++ (filter_byte i b).0.held ≡ i.held ++ b ∷ [])
      × (is_discarding (filter_byte i b).0.state ≡ false)
unfolding filter_byte
filter_byte_keeps i b v h clean = ground (arith, append-nil (i.held ++ b ∷ []), append-nil i.held)

filter_loop_keeps :
    (i : Ingress) (bs : List ℕ)
    → IsBounded i
    → is_discarding i.state ≡ false
    → (filter_loop i bs).0.limited ≡ false
    → (filter_loop i bs).1 ++ (filter_loop i bs).0.held ≡ i.held ++ bs
unfolding filter_loop
filter_loop_keeps i [] v h clean = sym (append-nil i.held)
filter_loop_keeps i (b ∷ bs) v h clean =
    let i' : Ingress = (filter_byte i b).0 in
    let (one, inside) = filter_byte_keeps i b v h (filter_loop-limited i' bs clean) in
    append_assoc (filter_byte i b).1 (filter_loop i' bs).1 (filter_loop i' bs).0.held
    ∙ ap (◌++◌ (filter_byte i b).1)
        (filter_loop_keeps i' bs (filter_byte-IsBounded i b v) inside clean)
    ∙ sym (append_assoc (filter_byte i b).1 i'.held bs)
    ∙ ap (λ t. t ++ bs) one
    ∙ append_assoc i.held (b ∷ []) bs

-- When a bounded filter that does not discard reads bytes and ends with the flag `limited` down,
-- what it passed on and what it holds are together what it held before and the bytes.
pub filter_keeps :
    (i : Ingress) (bs : List ℕ)
    → IsBounded i
    → is_discarding i.state ≡ false
    → (filter i bs).0.limited ≡ false
    → (filter i bs).1 ++ (filter i bs).0.held ≡ i.held ++ bs
filter_keeps i bs v h clean = rw filter-eq (filter_loop_keeps i bs v h (rw filter-eq at clean))

-- Neither BEL nor CAN, SUB or ESC.
abbrev pub is_osc_body : ℕ → Bool
is_osc_body b = not (b == 0x07 || b == 0x18 || b == 0x1a || b == 0x1b)

abbrev in_osc : List ℕ → Bool → Ingress
in_osc held limited = record { state = osc; held = held; limited = limited }

abbrev cut_off : Ingress
cut_off = record { state = discard_osc; held = []; limited = true }

filter_byte-osc :
    (held : List ℕ) (limited : Bool) (b : ℕ)
    → is_osc_body b ≡ true
    → length held < max_osc_bytes
    → filter_byte (in_osc held limited) b ≡ (in_osc (held ++ b ∷ []) limited, [])
unfolding filter_byte
filter_byte-osc held limited b inside room = ground arith

filter_byte-full :
    (held : List ℕ) (limited : Bool) (b : ℕ)
    → is_osc_body b ≡ true
    → max_osc_bytes ≤ length held
    → filter_byte (in_osc held limited) b ≡ (cut_off, 0x18 ∷ [])
unfolding filter_byte
filter_byte-full held limited b inside full = ground arith

filter_byte-discard : (b : ℕ) → is_osc_body b ≡ true → filter_byte cut_off b ≡ (cut_off, [])
unfolding filter_byte
filter_byte-discard b inside = ground arith

filter_loop-discard :
    (body rest : List ℕ)
    → All (λ b. is_osc_body b ≡ true) body
    → filter_loop cut_off (body ++ 7 ∷ rest)
      ≡ filter_loop (record { state = ground_state; held = []; limited = true }) rest
unfolding filter_loop
filter_loop-discard [] rest inside = unfold filter_byte in refl
filter_loop-discard (b ∷ body) rest inside =
    rw (filter_byte-discard b inside.0, filter_loop-discard body rest inside.1)

filter_loop-osc :
    (body rest held : List ℕ) (limited : Bool)
    → All (λ b. is_osc_body b ≡ true) body
    → length held + length body ≤ max_osc_bytes
    → filter_loop (in_osc held limited) (body ++ 7 ∷ rest) ≡ (
        let (i, out) =
          filter_loop (record { state = ground_state; held = []; limited = limited }) rest in
        (i, held ++ (body ++ 7 ∷ out)))
unfolding filter_loop
filter_loop-osc [] rest held limited inside room =
    unfold filter_byte in (ap (λ t. (ended.0, t)) (append_assoc held (7 ∷ []) ended.1))
  where
    ended : Ingress × List ℕ
    ended = filter_loop (record { state = ground_state; held = []; limited = limited }) rest
filter_loop-osc (b ∷ body) rest held limited inside room =
    rw
      (
        filter_byte-osc held limited b inside.0 (omega arith),
        filter_loop-osc body rest (held ++ b ∷ []) limited inside.1
            (omega (arith, length-append held (b ∷ []))),
      )
      (ap (λ t. (ended.0, t)) (append_assoc held (b ∷ []) (body ++ 7 ∷ ended.1)))
  where
    ended : Ingress × List ℕ
    ended = filter_loop (record { state = ground_state; held = []; limited = limited }) rest

filter_loop-long :
    (body rest held : List ℕ) (limited : Bool)
    → All (λ b. is_osc_body b ≡ true) body
    → length held ≤ max_osc_bytes
    → max_osc_bytes < length held + length body
    → filter_loop (in_osc held limited) (body ++ 7 ∷ rest) ≡ (
        let (i, out) =
          filter_loop (record { state = ground_state; held = []; limited = true }) rest in
        (i, 0x18 ∷ out))
unfolding filter_loop
filter_loop-long [] rest held limited inside le long = absurd (omega arith)
filter_loop-long (b ∷ body) rest held limited inside le long =
    elim (Bool-cases (ltb (length held) max_osc_bytes)) [
      | inl room ↦ rw (filter_byte-osc held limited b inside.0 (ltb→lt _ _ room)) (
          filter_loop-long body rest (held ++ b ∷ []) limited inside.1
            (omega (arith, ltb→lt _ _ room, length-append held (b ∷ [])))
            (omega (arith, length-append held (b ∷ []))))
      | inr full ↦ rw (
        filter_byte-full held limited b inside.0 (ground arith),
        filter_loop-discard body rest inside.1,
      )
    ]

filter_loop-opens :
    (i : Ingress) (bs : List ℕ)
    → i.state ≡ ground_state
    → i.held ≡ []
    → filter_loop i (0x1b ∷ b']' ∷ bs)
      ≡ (let (i', out) = filter_loop (in_osc (b']' ∷ []) i.limited) bs in (i', 0x1b ∷ out))
unfolding filter_loop filter_byte
filter_loop-opens i bs h none_held = ground arith

-- When a filter outside an escape sequence, with nothing held, reads an operating-system command
-- `ESC ] body BEL` whose body has less than 16 KiB and no BEL, CAN, SUB or ESC, the parser gets it
-- whole, and then what the filter passes on of the rest.
pub filter_whole :
    (i : Ingress) (body rest : List ℕ)
    → i.state ≡ ground_state
    → i.held ≡ []
    → All (λ b. is_osc_body b ≡ true) body
    → length body < max_osc_bytes
    → filter i (0x1b ∷ b']' ∷ (body ++ 7 ∷ rest)) ≡ (
        let (i', out) =
          filter (record { state = ground_state; held = []; limited = i.limited }) rest in
        (i', 0x1b ∷ b']' ∷ (body ++ 7 ∷ out)))
filter_whole i body rest h none_held inside short = rw (
  filter-eq i _,
  filter-eq _ rest,
  filter_loop-opens i _ h none_held,
  filter_loop-osc body rest (b']' ∷ []) i.limited inside (omega arith),
)

-- When a filter outside an escape sequence, with nothing held, reads an operating-system command
-- `ESC ] body BEL` whose body has 16 KiB or more and no BEL, CAN, SUB or ESC, the parser gets `ESC
-- CAN`, none of the body, and then what the filter passes on of the rest.
pub filter_cut :
    (i : Ingress) (body rest : List ℕ)
    → i.state ≡ ground_state
    → i.held ≡ []
    → All (λ b. is_osc_body b ≡ true) body
    → max_osc_bytes ≤ length body
    → filter i (0x1b ∷ b']' ∷ (body ++ 7 ∷ rest)) ≡ (
        let (i', out) = filter (record { state = ground_state; held = []; limited = true }) rest in
        (i', 0x1b ∷ 0x18 ∷ out))
filter_cut i body rest h none_held inside long = rw (
  filter-eq i _,
  filter-eq _ rest,
  filter_loop-opens i _ h none_held,
  filter_loop-long body rest (b']' ∷ []) i.limited inside (omega arith) (omega arith),
)
