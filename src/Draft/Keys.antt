-- ===== src/Draft/Keys.antt =====
-- No key panics, and every key leaves the cursor between two characters.
use mathlib.Core.List.{append_assoc, append-nil}
use mathlib.Core.Path.{subst}
use idk.Common.{
  ℕ, ◌+◌, ◌-◌, ◌≤◌, ◌≡◌, refl, ap, sym, ◌∙◌, [], ◌∷◌, ◌++◌, Bool, true, false, Text, byte_len,
  len_utf8, Result, Check, ok, err, arith, ◌⊎◌, inl, inr, Bool-cases, ◌==◌, ltb, if◌then◌else◌, any,
  is_control, ◌&&◌, ◌||◌, not,
}
use idk.Draft.{
  CommitDraft, Panic, Refusal, control_character, too_long, KeyCode, KeyEvent, newline, limit,
  find_newline, rfind_newline, normalized, insert, line_start, line_end, moved, left, right,
  kill_to_start, kill_to_end, backspace, delete, position, advance, enter_line, down, up, press,
  key, character, at_line_start, at_line_end, home_key, end_key, left_key, right_key, up_key,
  down_key, enter_key, backspace_key, delete_key, other_key, char, after_newline, or_end,
  count_newlines,
}
use idk.Draft.Slices.{
  byte_len-append, split_at-append, find_newline-splits, rfind_newline-splits, last_index-splits,
  split_at-eq, drain-eq,
}

-- The draft with `l` before its cursor and `r` behind it.
abbrev at : Text → Text → CommitDraft
at l r = record { text = l ++ r; cursor = byte_len l }

-- The cursor stands between two characters, and the text is within its limit.
pub record IsValid (d : CommitDraft) : Type 0 where
  pub before : Text
  pub behind : Text
  pub parts : d.text ≡ before ++ behind
  pub stands : d.cursor ≡ byte_len before
  pub fits : byte_len d.text ≤ limit

-- The call returns, the new draft is valid, and a refusal has changed nothing.
abbrev pub Lands : CommitDraft → Result Panic (CommitDraft × Check Refusal) → Type 0
Lands d m =
    (d' : CommitDraft) × (res : Check Refusal) × (m ≡ ok (d', res))
    × IsValid d'
    × ((res ≡ ok tt) ⊎ (d' ≡ d))

at-IsValid : (l r : Text) → byte_len (l ++ r) ≤ limit → IsValid (at l r)
at-IsValid l r h = record { before = l; behind = r; parts = refl; stands = refl; fits = h }

-- The cursor of a draft moves to another boundary of its text.
moved-IsValid :
    (d : CommitDraft) (a b : Text)
    → d.text ≡ a ++ b
    → byte_len d.text ≤ limit
    → IsValid (record d { cursor = byte_len a })
moved-IsValid d a b same h = record {
  before = a;
  behind = b;
  parts = same;
  stands = refl;
  fits = h;
}

moved-Lands :
    (d : CommitDraft) (a b : Text) (n : ℕ)
    → d.text ≡ a ++ b
    → n ≡ byte_len a
    → byte_len d.text ≤ limit
    → Lands d (ok (moved d n))
moved-Lands d a b n same e h =
    subst (λ k. Lands d (ok (moved d k))) (sym e)
      (record d { cursor = byte_len a }, ok tt, refl, moved-IsValid d a b same h, inl refl)

-- The start of the line: `a` is empty or ends in a line break.
line_start-at :
    (l r : Text)
    → (a b : Text) × (l ≡ a ++ b)
      × (line_start (at l r) ≡ ok (byte_len a))
      × ((a ≡ []) ⊎ ((a' : Text) × (a ≡ a' ++ newline ∷ [])))
unfolding line_start
line_start-at l r = elim (rfind_newline-splits l) [
  | inl nowhere ↦ ([], l, refl, rw (split_at-append l r, nowhere), inl refl)
  | inr (a', b, same, found) ↦ (
    a' ++ newline ∷ [],
    b,
    same ∙ sym (append_assoc a' (newline ∷ []) b),
    rw (split_at-append l r, found) (ap ok (omega (arith, byte_len-append a' (newline ∷ [])))),
    inr (a', refl),
  )
]

-- The end of the line: what follows is empty or begins with a line break.
line_end-at :
    (l r : Text)
    → (a b : Text) × (r ≡ a ++ b)
      × (line_end (at l r) ≡ ok (byte_len (l ++ a)))
      × ((b ≡ []) ⊎ ((b' : Text) × (b ≡ newline ∷ b')))
unfolding line_end
line_end-at l r = elim (find_newline-splits r) [
  | inl nowhere ↦ (r, [], sym (append-nil r), rw (split_at-append l r, nowhere), inl refl)
  | inr (a, b, same, found) ↦ (
    a,
    newline ∷ b,
    same,
    rw (split_at-append l r, found) (ap ok (omega (arith, byte_len-append l a))),
    inr (b, refl),
  )
]

unchanged :
    (l r : Text) (res : Check Refusal)
    → byte_len (l ++ r) ≤ limit
    → Lands (at l r) (ok (at l r, res))
unchanged l r res h = (at l r, res, refl, at-IsValid l r h, inr refl)

insert-Lands : (l r raw : Text) → byte_len (l ++ r) ≤ limit → Lands (at l r) (insert (at l r) raw)
unfolding insert
insert-Lands l r raw h =
    let t : Text = normalized raw in
    elim (Bool-cases (any (λ c. is_control c && not (c == newline)) t)) [
      | inl bad ↦ rw bad (unchanged l r (err control_character) h)
      | inr good ↦ elim (Bool-cases (ltb limit (byte_len (l ++ r) + byte_len t))) [
        | inl long ↦ rw (good, long) (unchanged l r (err too_long) h)
        | inr short ↦
            rw (good, short, split_at-append l r)
              (
                record { text = l ++ (t ++ r); cursor = byte_len l + byte_len t },
                ok tt,
                refl,
                record {
                  before = l ++ t;
                  behind = r;
                  parts = sym (append_assoc l t r);
                  stands = sym (byte_len-append l t);
                  fits =
                      ground (
                        arith,
                        byte_len-append l r,
                        byte_len-append t r,
                        byte_len-append l (t ++ r),
                      );
                },
                inl refl,
              )
      ]
    ]

left-Lands : (l r : Text) → byte_len (l ++ r) ≤ limit → Lands (at l r) (left (at l r))
unfolding left
left-Lands l r h = rw (split_at-append l r) (elim (last_index-splits l) [
  | inl (none_left, found) ↦ rw found (moved-Lands (at l r) [] (l ++ r) 0 refl refl h)
  | inr (a, c, same, found) ↦ rw found (
      moved-Lands (at l r) a (c ∷ [] ++ r) (byte_len a)
        (ap (λ x. x ++ r) same ∙ append_assoc a (c ∷ []) r) refl h)
])

right-Lands : (l r : Text) → byte_len (l ++ r) ≤ limit → Lands (at l r) (right (at l r))
unfolding right
right-Lands l [] h =
    rw (split_at-append l []) (moved-Lands (at l []) l [] (byte_len l + 0) refl (omega arith) h)
right-Lands l (c ∷ r) h = rw (split_at-append l (c ∷ r)) (
    moved-Lands (at l (c ∷ r)) (l ++ c ∷ []) r (byte_len l + len_utf8 c)
      (sym (append_assoc l (c ∷ []) r)) (omega (arith, byte_len-append l (c ∷ []))) h)

-- What a draft is after the part `b` of its text is cut out.
cut-Lands :
    (d : CommitDraft) (a b c : Text)
    → d.text ≡ a ++ (b ++ c)
    → byte_len d.text ≤ limit
    → Lands d (ok (at a c, ok tt))
cut-Lands d a b c same h = (
  at a c,
  ok tt,
  refl,
  at-IsValid a c (
      omega (
        arith,
        h,
        ap byte_len same,
        byte_len-append a (b ++ c),
        byte_len-append b c,
        byte_len-append a c,
      )),
  inl refl,
)

kill_to_start-Lands :
    (l r : Text) → byte_len (l ++ r) ≤ limit → Lands (at l r) (kill_to_start (at l r))
unfolding kill_to_start
kill_to_start-Lands l r h =
    let (a, b, same, start, _) = line_start-at l r in
    let parts : l ++ r ≡ a ++ (b ++ r) = ap (λ x. x ++ r) same ∙ append_assoc a b r in
    rw (start, drain-eq (l ++ r) a b r (byte_len a) (byte_len l) parts refl (ap byte_len same))
      (cut-Lands (at l r) a b r parts h)

kill_to_end-Lands : (l r : Text) → byte_len (l ++ r) ≤ limit → Lands (at l r) (kill_to_end (at l r))
unfolding kill_to_end
kill_to_end-Lands l r h =
    let (a, b, same, stop, _) = line_end-at l r in
    let parts : l ++ r ≡ l ++ (a ++ b) = ap (◌++◌ l) same in
    rw (stop, drain-eq (l ++ r) l a b (byte_len l) (byte_len (l ++ a)) parts refl refl)
      (cut-Lands (at l r) l a b parts h)

backspace-Lands : (l r : Text) → byte_len (l ++ r) ≤ limit → Lands (at l r) (backspace (at l r))
unfolding backspace
backspace-Lands l r h = rw (split_at-append l r) (elim (last_index-splits l) [
  | inl (none_left, found) ↦
      rw (found, drain-eq (l ++ r) [] l r 0 (byte_len l) refl refl refl)
        (cut-Lands (at l r) [] l r refl h)
  | inr (a, c, same, found) ↦
      let parts : l ++ r ≡ a ++ (c ∷ [] ++ r) = ap (λ x. x ++ r) same ∙ append_assoc a (c ∷ []) r in
      rw
        (
          found,
          drain-eq (l ++ r) a (c ∷ []) r (byte_len a) (byte_len l) parts refl (ap byte_len same),
        )
        (cut-Lands (at l r) a (c ∷ []) r parts h)
])

delete-Lands : (l r : Text) → byte_len (l ++ r) ≤ limit → Lands (at l r) (delete (at l r))
unfolding delete
delete-Lands l [] h = rw (split_at-append l []) (
    rw
      (drain-eq (l ++ []) l [] [] (byte_len l) (byte_len l + 0) refl refl
        (omega (arith, byte_len-append l [])))
      (cut-Lands (at l []) l [] [] refl h))
delete-Lands l (c ∷ r) h = rw (split_at-append l (c ∷ r)) (
    rw
      (drain-eq (l ++ c ∷ r) l (c ∷ []) r (byte_len l) (byte_len l + len_utf8 c) refl refl
        (omega (arith, byte_len-append l (c ∷ []))))
      (cut-Lands (at l (c ∷ r)) l (c ∷ []) r refl h))

module _ (width : Text → ℕ) where
  -- The loop stops behind some of the characters.
  advance-splits :
      (column used n : ℕ) (s : Text)
      → (p q : Text) × (s ≡ p ++ q) × (advance width column used n s ≡ n + byte_len p)
  unfolding advance
  advance-splits column used n [] = ([], [], refl, omega arith)
  advance-splits column used n (c ∷ s) = elim (Bool-cases (ltb column (used + width (c ∷ [])))) [
    | inl full ↦ ([], c ∷ s, refl, rw full (omega arith))
    | inr fits ↦
        let (p, q, same, e) = advance-splits column (used + width (c ∷ [])) (n + len_utf8 c) s in
        (c ∷ p, q, ap (◌∷◌ c) same, rw fits (omega (arith, e)))
  ]

  enter_line-Lands :
      (d : CommitDraft) (a m z : Text) (column start stop : ℕ)
      → d.text ≡ a ++ (m ++ z)
      → start ≡ byte_len a
      → stop ≡ byte_len (a ++ m)
      → byte_len d.text ≤ limit
      → Lands d (enter_line width d column start stop)
  unfolding enter_line
  enter_line-Lands d a m z column start stop same e f h =
      let (p, q, parts, lands) = advance-splits column 0 start m in
      rw
        (
          split_at-eq d.text (a ++ m) z stop (same ∙ sym (append_assoc a m z)) f,
          split_at-eq (a ++ m) a m start refl e,
        )
        (moved-Lands d (a ++ p) (q ++ z) (advance width column 0 start m)
          (same
            ∙ ap (λ x. a ++ (x ++ z)) parts
            ∙ ap (◌++◌ a) (append_assoc p q z)
            ∙ sym (append_assoc a p (q ++ z)))
          (omega (arith, lands, e, byte_len-append a p)) h)

  position-returns : (l r : Text) → (n : ℕ × ℕ) × (position width (at l r) ≡ ok n)
  unfolding position
  position-returns l r =
      let (a, b, same, start, _) = line_start-at l r in
      (
        (count_newlines l, width b),
        rw (split_at-append l r, start, split_at-eq l a b (byte_len a) same refl),
      )

  -- The line below, after the text `head` that ends in a line break.
  below-Lands :
      (d : CommitDraft) (head tail : Text) (column start : ℕ)
      → d.text ≡ head ++ tail
      → start ≡ byte_len head
      → byte_len d.text ≤ limit
      → Lands d
          (enter_line width d column start (or_end (byte_len d.text) start (find_newline tail)))
  below-Lands d head tail column start same e h = elim (find_newline-splits tail) [
    | inl nowhere ↦ rw nowhere (
        enter_line-Lands d head tail [] column start (byte_len d.text)
          (same ∙ ap (◌++◌ head) (sym (append-nil tail))) e (ap byte_len same) h)
    | inr (m, z, parts, found) ↦ rw found (
        enter_line-Lands d head m (newline ∷ z) column start (start + byte_len m)
          (same ∙ ap (◌++◌ head) parts) e (omega (arith, e, byte_len-append head m)) h)
  ]

  -- The last line of the text `head`.
  above-Lands :
      (d : CommitDraft) (head tail : Text) (column stop : ℕ)
      → d.text ≡ head ++ tail
      → stop ≡ byte_len head
      → byte_len d.text ≤ limit
      → Lands d (enter_line width d column (after_newline (rfind_newline head)) stop)
  above-Lands d head tail column stop same e h = elim (rfind_newline-splits head) [
    | inl nowhere ↦ rw nowhere (enter_line-Lands d [] head tail column 0 stop same refl e h)
    | inr (x, y, parts, found) ↦
        let split : head ≡ (x ++ newline ∷ []) ++ y =
          parts ∙ sym (append_assoc x (newline ∷ []) y) in
        rw found (
          enter_line-Lands d (x ++ newline ∷ []) y tail column (byte_len x + 1) stop
            (same ∙ ap (λ t. t ++ tail) split ∙ append_assoc (x ++ newline ∷ []) y tail)
            (omega (arith, byte_len-append x (newline ∷ []))) (e ∙ ap byte_len split) h)
  ]

  down-Lands : (l r : Text) → byte_len (l ++ r) ≤ limit → Lands (at l r) (down width (at l r))
  unfolding down
  down-Lands l r h =
      let (place, placed) = position-returns l r in
      let (a, b, same, stop, follows) = line_end-at l r in
      rw (placed, stop)
        (elim (Bool-cases (byte_len (l ++ a) == byte_len (l ++ r))) [
          | inl last ↦ rw last (unchanged l r (ok tt) h)
          | inr more ↦ rw more (elim follows [
            | inl ends ↦
                let whole : a ≡ r = sym (append-nil a) ∙ ap (◌++◌ a) (sym ends) ∙ sym same in
                absurd (ground (arith, more, ap (λ x. byte_len (l ++ x)) whole))
            | inr (b', breaks) ↦
                let head : Text = (l ++ a) ++ newline ∷ [] in
                let parts : l ++ r ≡ head ++ b' =
                  ap (◌++◌ l) (same ∙ ap (◌++◌ a) breaks)
                  ∙ sym (append_assoc l a (newline ∷ b'))
                  ∙ sym (append_assoc (l ++ a) (newline ∷ []) b') in
                let begins : byte_len (l ++ a) + 1 ≡ byte_len head =
                  omega (arith, byte_len-append (l ++ a) (newline ∷ [])) in
                rw (split_at-eq (l ++ r) head b' (byte_len (l ++ a) + 1) parts begins)
                  (below-Lands (at l r) head b' place.1 (byte_len (l ++ a) + 1) parts begins h)
          ])
        ])

  up-Lands : (l r : Text) → byte_len (l ++ r) ≤ limit → Lands (at l r) (up width (at l r))
  unfolding up
  up-Lands l r h =
      let (place, placed) = position-returns l r in
      let (a, b, same, start, before) = line_start-at l r in
      rw (placed, start)
        (elim (Bool-cases (byte_len a == 0)) [
          | inl first ↦ rw first (unchanged l r (ok tt) h)
          | inr more ↦ rw more (elim before [
            | inl none_before ↦ absurd (ground (arith, more, ap byte_len none_before))
            | inr (a', breaks) ↦
                let parts : l ++ r ≡ a' ++ (newline ∷ (b ++ r)) =
                  ap (λ x. x ++ r) same
                  ∙ append_assoc a b r
                  ∙ ap (λ x. x ++ (b ++ r)) breaks
                  ∙ append_assoc a' (newline ∷ []) (b ++ r) in
                let stops : byte_len a - 1 ≡ byte_len a' =
                  omega (arith, ap byte_len breaks, byte_len-append a' (newline ∷ [])) in
                rw (split_at-eq (l ++ r) a' (newline ∷ (b ++ r)) (byte_len a - 1) parts stops) (
                  above-Lands (at l r) a' (newline ∷ (b ++ r)) place.1 (byte_len a - 1) parts stops
                    h)
          ])
        ])

  at_line_start-Lands :
      (l r : Text) → byte_len (l ++ r) ≤ limit → Lands (at l r) (at_line_start width (at l r))
  unfolding at_line_start
  at_line_start-Lands l r h =
      let (a, b, same, start, _) = line_start-at l r in
      rw start (
        moved-Lands (at l r) a (b ++ r) (byte_len a) (ap (λ x. x ++ r) same ∙ append_assoc a b r)
          refl h)

  at_line_end-Lands :
      (l r : Text) → byte_len (l ++ r) ≤ limit → Lands (at l r) (at_line_end width (at l r))
  unfolding at_line_end
  at_line_end-Lands l r h =
      let (a, b, same, stop, _) = line_end-at l r in
      rw stop (
        moved-Lands (at l r) (l ++ a) b (byte_len (l ++ a))
          (ap (◌++◌ l) same ∙ sym (append_assoc l a b)) refl h)

  if-Lands :
      (d : CommitDraft) (b : Bool) (m n : Result Panic (CommitDraft × Check Refusal))
      → Lands d m
      → Lands d n
      → Lands d (if b then m else n)
  if-Lands d true m n h k = h
  if-Lands d false m n h k = k

  press-Lands :
      (code : KeyCode) (k : KeyEvent) (l r : Text)
      → byte_len (l ++ r) ≤ limit
      → Lands (at l r) (press width code k (at l r))
  unfolding press character
  press-Lands home_key k l r h =
      if-Lands _ k.control _ _ (moved-Lands (at l r) [] (l ++ r) 0 refl refl h)
        (at_line_start-Lands l r h)
  press-Lands end_key k l r h =
      if-Lands _ k.control _ _
        (moved-Lands (at l r) (l ++ r) [] (byte_len (l ++ r)) (sym (append-nil (l ++ r))) refl h)
        (at_line_end-Lands l r h)
  press-Lands (char c) k l r h =
      if-Lands _ (c == b'a' && k.control) _ _ (at_line_start-Lands l r h) (
        if-Lands _ (c == b'e' && k.control) _ _ (at_line_end-Lands l r h) (
          if-Lands _ (c == b'u' && k.control) _ _ (kill_to_start-Lands l r h) (
            if-Lands _ (c == b'k' && k.control) _ _ (kill_to_end-Lands l r h) (
              if-Lands _ (not (k.control || k.alt || k.super)) _ _ (insert-Lands l r (c ∷ []) h)
                (unchanged l r (ok tt) h)))))
  press-Lands left_key k l r h = left-Lands l r h
  press-Lands right_key k l r h = right-Lands l r h
  press-Lands up_key k l r h = up-Lands l r h
  press-Lands down_key k l r h = down-Lands l r h
  press-Lands enter_key k l r h = insert-Lands l r (newline ∷ []) h
  press-Lands backspace_key k l r h =
      if-Lands _ (ltb 0 (byte_len l)) _ _ (backspace-Lands l r h) (unchanged l r (ok tt) h)
  press-Lands delete_key k l r h = delete-Lands l r h
  press-Lands other_key k l r h = unchanged l r (ok tt) h

  -- In a valid draft (the cursor stands between two characters, at most 64 KiB of text) no key
  -- panics: the draft after it is valid again, and if the key was refused it is the draft before
  -- it.
  pub key-IsValid : (d : CommitDraft) (k : KeyEvent) → IsValid d → Lands d (key width d k)
  unfolding key
  key-IsValid d k v =
      let same : at v.before v.behind ≡ d =
        λ i. record { text = sym v.parts i; cursor = sym v.stands i } in
      subst (λ x. Lands x (press width k.code k x)) same
        (press-Lands k.code k v.before v.behind (subst (λ t. byte_len t ≤ limit) v.parts v.fits))
