-- ===== src/LogView/Follow.antt =====
-- What a view shows after the chunks that it accepted.
use idk.Common.{
  ℕ, zero, suc, ◌-◌, ◌≤◌, ◌≡◌, refl, ap, sym, ◌∙◌, List, [], ◌∷◌, ◌++◌, Option, none, some, Text,
  if◌then◌else◌, ltb, length, drop, length-append, length-drop, ok, err, is_ok, is_ok→ok, ◌<◌,
  arith, Bool-cases, inl, inr,
}
use mathlib.Core.List.{append_assoc, append-nil}
use mathlib.Core.Path.{subst, subst₂}
use idk.Controls.{default, feed}
use idk.Controls.Visible.{feed-append}
use idk.RunWire.{LogChunk}
use idk.LogView.{
  LogView, Refusal, new, limit, skip_continuation, trim_front, accept, add_u64, push,
  is_continuation,
}

-- `back` is what is left of `whole` when a front part is dropped.
abbrev pub Suffix : List ℕ → List ℕ → Type 0
Suffix back whole = (front : List ℕ) × (whole ≡ front ++ back)

skip_continuation-Suffix : (bs : List ℕ) → Suffix (skip_continuation bs) bs
unfolding skip_continuation
skip_continuation-Suffix [] = ([], refl)
skip_continuation-Suffix (b ∷ bs) = elim (Bool-cases (is_continuation b)) [
  | inl more ↦
      let (front, same) = skip_continuation-Suffix bs in rw more (b ∷ front, ap (◌∷◌ b) same)
  | inr done ↦ rw done ([], refl)
]

skip_continuation-le : (bs : List ℕ) → length (skip_continuation bs) ≤ length bs
unfolding skip_continuation
skip_continuation-le [] = omega arith
skip_continuation-le (b ∷ bs) = ground (arith, skip_continuation-le bs)

drop-Suffix : (n : ℕ) (bs : List ℕ) → Suffix (drop n bs) bs
drop-Suffix zero bs = ([], refl)
drop-Suffix (suc n) [] = ([], refl)
drop-Suffix (suc n) (b ∷ bs) = let (front, same) = drop-Suffix n bs in (b ∷ front, ap (◌∷◌ b) same)

Suffix-trans : (a b c : List ℕ) → Suffix a b → Suffix b c → Suffix a c
Suffix-trans a b c (p, e) (q, f) = (q ++ p, f ∙ ap (◌++◌ q) e ∙ sym (append_assoc q p a))

trim_front-Suffix : (bs : List ℕ) → Suffix (trim_front bs) bs
unfolding trim_front
trim_front-Suffix bs =
    Suffix-trans _ (drop (length bs - limit) bs) bs (skip_continuation-Suffix _) (drop-Suffix _ bs)

trim_front-le : (bs : List ℕ) → length (trim_front bs) ≤ limit
unfolding trim_front
trim_front-le bs =
    omega (
      arith,
      skip_continuation-le (drop (length bs - limit) bs),
      length-drop (length bs - limit) bs,
    )

-- The view holds what is left of `past`, the bytes that were accepted so far.
pub record Shows (past : List ℕ) (v : LogView) : Type 0 where
  pub same_controls : (feed default past).0 ≡ v.controls
  pub shown : Suffix v.bytes (feed default past).1
  pub bounded : length v.bytes ≤ limit

accept-Shows :
    (past : List ℕ) (v : LogView) (chunk : LogChunk) (bytes : List ℕ)
    → Shows past v
    → Shows (past ++ bytes) (accept v chunk bytes)
unfolding accept
accept-Shows past v chunk bytes h =
    let out : List ℕ = (feed v.controls bytes).1 in
    let whole : feed default (past ++ bytes)
        ≡ ((feed v.controls bytes).0, (feed default past).1 ++ out) =
      rw h.same_controls at (feed-append default past bytes) in
    let grown : Suffix (v.bytes ++ out) (feed default (past ++ bytes)).1 = (
      h.shown.0,
      ap (λ r. r.1) whole ∙ ap (λ t. t ++ out) h.shown.1 ∙ append_assoc _ v.bytes out,
    ) in
    elim (Bool-cases (ltb limit (length (v.bytes ++ out)))) [
      | inl over ↦ rw over (record {
        same_controls = ap (λ r. r.0) whole;
        shown = Suffix-trans _ (v.bytes ++ out) _ (trim_front-Suffix (v.bytes ++ out)) grown;
        bounded = trim_front-le (v.bytes ++ out);
      })
      | inr under ↦
          rw under
            (record { same_controls = ap (λ r. r.0) whole; shown = grown; bounded = ground arith })
    ]

-- `decode(..)` of a chunk that was accepted.
abbrev pub or_empty : Option (List ℕ) → List ℕ
or_empty none = []
or_empty (some bs) = bs

accept-next :
    (v : LogView) (c : LogChunk) (bytes : List ℕ) → (accept v c bytes).next ≡ c.next_offset
unfolding accept
accept-next v c bytes = refl

module _ (decode : Text → Option (List ℕ)) where
  -- The view after a list of chunks, if each one is accepted.
  unfoldable pub follow : LogView → List LogChunk → Option LogView
  follow v [] = some v
  follow v (c ∷ cs) =
      let (w, r) = push decode v c in let rest = follow w cs in if is_ok r then rest else none

  -- The raw bytes of the chunks.
  unfoldable pub decoded : List LogChunk → List ℕ
  decoded [] = []
  decoded (c ∷ cs) = or_empty (decode c.data_base64) ++ decoded cs

  push-accept :
      (v : LogView) (c : LogChunk)
      → (push decode v c).1 ≡ ok tt
      → ((push decode v c).0 ≡ accept v c (or_empty (decode c.data_base64)))
        × (c.next_offset ≡ add_u64 v.next (length (or_empty (decode c.data_base64))))
  unfolding push
  push-accept v c h = ground arith

  follow-Shows :
      (past : List ℕ) (v w : LogView) (cs : List LogChunk)
      → Shows past v
      → follow v cs ≡ some w
      → Shows (past ++ decoded cs) w
  unfolding follow decoded
  follow-Shows past v w [] h e =
      let same : v ≡ w = cc in subst₂ Shows (sym (append-nil past)) same h
  follow-Shows past v w (c ∷ cs) h e = elim (Bool-cases (is_ok (push decode v c).1)) [
    | inl good ↦
        let bytes : List ℕ = or_empty (decode c.data_base64) in
        let (same, at) = push-accept v c (is_ok→ok _ good) in
        let next : Shows (past ++ bytes) (push decode v c).0 =
          subst (Shows (past ++ bytes)) (sym same) (accept-Shows past v c bytes h) in
        subst (λ x. Shows x w) (append_assoc past bytes (decoded cs))
          (follow-Shows (past ++ bytes) (push decode v c).0 w cs next (rw good at e))
    | inr bad ↦ absurd (ground (arith, bad))
  ]

  follow-next :
      (v w : LogView) (cs : List LogChunk)
      → v.next < 18446744073709551616
      → follow v cs ≡ some w
      → w.next ≡ add_u64 v.next (length (decoded cs))
  unfolding follow decoded
  follow-next v w [] h e = ground arith
  follow-next v w (c ∷ cs) h e = elim (Bool-cases (is_ok (push decode v c).1)) [
    | inl good ↦
        let bytes : List ℕ = or_empty (decode c.data_base64) in
        let (same, at) = push-accept v c (is_ok→ok _ good) in
        let stands : (push decode v c).0.next ≡ add_u64 v.next (length bytes) =
          ap (λ x. x.next) same ∙ accept-next v c bytes ∙ at in
        omega (
          arith,
          stands,
          follow-next (push decode v c).0 w cs (omega (arith, stands)) (rw good at e),
          length-append bytes (decoded cs),
        )
    | inr bad ↦ absurd (ground (arith, bad))
  ]

  -- When a new view at an offset below 2^64 accepts all of a list of chunks, its bytes are a suffix
  -- of what the escape filter lets through of the bytes of the chunks taken together, at most 256
  -- KiB of it, and it stands behind the last byte of them.
  pub follow-new :
      (run_id : Text) (generation offset : ℕ) (w : LogView) (cs : List LogChunk)
      → offset < 18446744073709551616
      → follow (new run_id generation offset) cs ≡ some w
      → Suffix w.bytes (feed default (decoded cs)).1
        × (length w.bytes ≤ limit)
        × (w.next ≡ add_u64 offset (length (decoded cs)))
  follow-new run_id generation offset w cs h e =
      let shows =
        follow-Shows [] (new run_id generation offset) w cs
          (record {
            same_controls = unfold feed in refl;
            shown = unfold feed in ([], refl);
            bounded = omega arith;
          })
          e in
      (shows.shown, shows.bounded, follow-next (new run_id generation offset) w cs h e)

  -- For every reason of refusal, a refused chunk leaves the view as it was.
  pub push_refused :
      (v : LogView) (c : LogChunk) (r : Refusal)
      → (push decode v c).1 ≡ err r
      → (push decode v c).0 ≡ v
  unfolding push
  push_refused v c r h = ground arith
