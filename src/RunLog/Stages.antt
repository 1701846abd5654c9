-- ===== src/RunLog/Stages.antt =====
-- What the file of a log holds at each stage of the writing thread.
use mathlib.Core.List.{append_assoc, append-nil}
use mathlib.Core.Path.{subst}
use idk.Common.{
  ℕ, ◌-◌, ◌≤◌, ◌<◌, ◌≡◌, refl, sym, ap, ◌∙◌, List, [], ◌∷◌, ◌++◌, Option, none, some, Bool, inl,
  inr, true, false, ◌&&◌, length, is_empty, take, is_some, length-append, if◌then◌else◌, arith,
}
use idk.RunWire.{LogState, disabled, recording, complete, limited, write_failed, expired, partial}
use idk.RunLog.{
  RunOutputSink, Worker, waiting, timed_out, closing, ended, writing, wrote, min, is_writable,
  is_recording, is_disabled, shown_state,
}
use idk.RunLog.Prefix.{
  Tally, Closed, Prefix, Prefix-append, concat, concat-append, Tally-writable, Tally-added,
  part-Prefix,
}

unfoldable pub Stage :
    Worker → List ℕ → LogState → (contents : List ℕ) → (bytes limit : ℕ) → Bool → Type 0
unfolding Tally Closed
Stage waiting r st c b limit o = Tally st r c b limit o
Stage timed_out r st c b limit o = Tally st r c b limit o
Stage closing r st c b limit o = Tally st r c b limit o
Stage ended r st c b limit o = Closed st r c b limit o
Stage (writing bs n) r st c b limit o =
    (before : List ℕ) × (before ++ bs ≡ r)
    × Tally st before c b limit o
    × (is_writable st ≡ true)
    × (n ≡ min (limit - b) (length bs))
Stage (wrote bs n true) r st c b limit o =
    Prefix c r × (length c ≤ limit) × (b ≤ length c) × (is_writable st ≡ true)
Stage (wrote bs n false) r st c b limit o =
    (before : List ℕ) × (old : List ℕ) × (before ++ bs ≡ r)
    × Tally st before old b limit o
    × (is_writable st ≡ true)
    × (n ≡ min (limit - b) (length bs))
    × (c ≡ old ++ take n bs)

pub Tally-enabled :
    (st : LogState) (r c : List ℕ) (b limit : ℕ) (o : Bool)
    → Tally st r c b limit o
    → is_disabled st ≡ false
unfolding Tally
Tally-enabled recording r c b limit o h = refl
Tally-enabled complete r c b limit o h = elim h [ ]
Tally-enabled limited r c b limit o h = refl
Tally-enabled write_failed r c b limit o h = refl
Tally-enabled disabled r c b limit o h = elim h [ ]
Tally-enabled expired r c b limit o h = refl
Tally-enabled partial r c b limit o h = refl

Closed-enabled :
    (st : LogState) (r c : List ℕ) (b limit : ℕ) (o : Bool)
    → Closed st r c b limit o
    → is_disabled st ≡ false
unfolding Closed
Closed-enabled recording r c b limit o h = refl
Closed-enabled complete r c b limit o h = refl
Closed-enabled limited r c b limit o h = refl
Closed-enabled write_failed r c b limit o h = refl
Closed-enabled disabled r c b limit o h = elim h [ ]
Closed-enabled expired r c b limit o h = refl
Closed-enabled partial r c b limit o h = refl

writable-enabled : (st : LogState) → is_writable st ≡ true → is_disabled st ≡ false
writable-enabled recording h = refl
writable-enabled limited h = refl
writable-enabled disabled h = absurd cc
writable-enabled expired h = refl
writable-enabled partial h = refl
writable-enabled complete h = refl
writable-enabled write_failed h = refl

pub Stage-enabled :
    (w : Worker) (r : List ℕ) (st : LogState) (c : List ℕ) (b limit : ℕ) (o : Bool)
    → Stage w r st c b limit o
    → is_disabled st ≡ false
unfolding Stage
Stage-enabled waiting r st c b limit o h = Tally-enabled st r c b limit o h
Stage-enabled timed_out r st c b limit o h = Tally-enabled st r c b limit o h
Stage-enabled closing r st c b limit o h = Tally-enabled st r c b limit o h
Stage-enabled ended r st c b limit o h = Closed-enabled st r c b limit o h
Stage-enabled (writing bs n) r st c b limit o h = Tally-enabled st h.0 c b limit o h.2
Stage-enabled (wrote bs n true) r st c b limit o h = writable-enabled st h.3
Stage-enabled (wrote bs n false) r st c b limit o h = Tally-enabled st h.0 h.1 b limit o h.3

pub shown_state-enabled :
    (s : RunOutputSink)
    → is_disabled s.descriptor.state ≡ false
    → is_disabled (shown_state s) ≡ false
unfolding shown_state
shown_state-enabled s h = ground arith

pub is_empty→[] : (xs : List (List ℕ)) → is_empty xs ≡ true → xs ≡ []
is_empty→[] [] h = refl
is_empty→[] (x ∷ xs) h = absurd cc

pub more_lost :
    (a b c l x seen : List ℕ)
    → a ++ (b ++ (c ++ l)) ≡ seen
    → a ++ (b ++ (c ++ (l ++ x))) ≡ seen ++ x
more_lost a b c l x seen h =
    sym (ap (λ t. a ++ (b ++ t)) (append_assoc c l x))
    ∙ sym (ap (λ t. a ++ t) (append_assoc b (c ++ l) x))
    ∙ sym (append_assoc a (b ++ (c ++ l)) x)
    ∙ ap (λ t. t ++ x) h

pub sends-flows :
    (a lost bytes : List ℕ) (ch rest : List (List ℕ))
    → a ++ (concat ch ++ (concat (bytes ∷ rest) ++ lost))
      ≡ a ++ (concat (ch ++ (bytes ∷ [])) ++ (concat rest ++ lost))
sends-flows a lost bytes ch rest = simp (concat-append ch (bytes ∷ []), append_assoc, append-nil)

pub takes-flows :
    (a bytes tail : List ℕ) (rest : List (List ℕ))
    → a ++ (concat (bytes ∷ rest) ++ tail) ≡ (a ++ bytes) ++ (concat rest ++ tail)
takes-flows a bytes tail rest = simp (append_assoc)

-- A chunk that may not be written is lost from the file, which stays a prefix.
pub Tally-skipped :
    (st : LogState) (r c bs : List ℕ) (b limit : ℕ) (o : Bool)
    → Tally st r c b limit o
    → is_writable st ≡ false
    → Tally st (r ++ bs) c b limit o
unfolding Tally
Tally-skipped write_failed r c bs b limit o h w = (Prefix-append c r bs h.0, h.1, h.2)
Tally-skipped recording r c bs b limit o h w = absurd cc
Tally-skipped limited r c bs b limit o h w = absurd cc
Tally-skipped complete r c bs b limit o h w = elim h [ ]
Tally-skipped disabled r c bs b limit o h w = elim h [ ]
Tally-skipped expired r c bs b limit o h w = elim h [ ]
Tally-skipped partial r c bs b limit o h w = elim h [ ]

-- The sync turns what the thread kept into what it leaves.
pub Tally-sync :
    (st : LogState) (r c : List ℕ) (b limit : ℕ) (o : Bool) (failure : Option ℕ)
    → Tally st r c b limit o
    → Closed
        (if o && is_some failure then write_failed else if is_recording st then complete else st)
        r
        c
        b
        limit
        o
unfolding Tally Closed
Tally-sync recording r c b limit true (some n) h =
    (([], append-nil c ∙ h.0), omega arith, omega arith)
Tally-sync recording r c b limit false (some n) h = (h.0, h.1, h.2)
Tally-sync recording r c b limit true none h = (h.0, h.1, h.2)
Tally-sync recording r c b limit false none h = (h.0, h.1, h.2)
Tally-sync limited r c b limit true (some n) h = (h.0, omega arith, omega arith)
Tally-sync limited r c b limit false (some n) h = h
Tally-sync limited r c b limit true none h = h
Tally-sync limited r c b limit false none h = h
Tally-sync write_failed r c b limit true (some n) h = h
Tally-sync write_failed r c b limit false (some n) h = h
Tally-sync write_failed r c b limit true none h = h
Tally-sync write_failed r c b limit false none h = h
Tally-sync complete r c b limit o failure h = elim h [ ]
Tally-sync disabled r c b limit o failure h = elim h [ ]
Tally-sync expired r c b limit o failure h = elim h [ ]
Tally-sync partial r c b limit o failure h = elim h [ ]

-- What holds of the bytes in the file at every stage of the writing thread.
abbrev pub Kept : (r contents : List ℕ) → (bytes limit : ℕ) → Type 0
Kept r c b limit = Prefix c r × (length c ≤ limit) × (b ≤ length c)

Tally-Kept :
    (st : LogState) (r c : List ℕ) (b limit : ℕ) (o : Bool)
    → Tally st r c b limit o
    → Kept r c b limit
unfolding Tally
Tally-Kept recording r c b limit o h = (([], append-nil c ∙ h.0), omega arith, omega arith)
Tally-Kept limited r c b limit o h = (h.0, omega arith, omega arith)
Tally-Kept write_failed r c b limit o h = h
Tally-Kept complete r c b limit o h = elim h [ ]
Tally-Kept disabled r c b limit o h = elim h [ ]
Tally-Kept expired r c b limit o h = elim h [ ]
Tally-Kept partial r c b limit o h = elim h [ ]

pub Closed-Kept :
    (st : LogState) (r c : List ℕ) (b limit : ℕ) (o : Bool)
    → Closed st r c b limit o
    → Kept r c b limit
unfolding Closed
Closed-Kept recording r c b limit o h = elim h [ ]
Closed-Kept complete r c b limit o h = (([], append-nil c ∙ h.0), omega arith, omega arith)
Closed-Kept limited r c b limit o h = Tally-Kept limited r c b limit o h
Closed-Kept write_failed r c b limit o h = Tally-Kept write_failed r c b limit o h
Closed-Kept disabled r c b limit o h = Tally-Kept disabled r c b limit o h
Closed-Kept expired r c b limit o h = Tally-Kept expired r c b limit o h
Closed-Kept partial r c b limit o h = Tally-Kept partial r c b limit o h

Tally-Kept_part :
    (st : LogState) (r c bs : List ℕ) (b limit : ℕ) (o : Bool)
    → limit < 18446744073709551616
    → Tally st r c b limit o
    → is_writable st ≡ true
    → Kept (r ++ bs) (c ++ take (min (limit - b) (length bs)) bs) b limit
Tally-Kept_part st r c bs b limit o small h w =
    let n = min (limit - b) (length bs) in
    let (front, sum, _, _, kind) = Tally-writable limit r c bs b o st h w in
    let (total, fits) = Tally-added limit r c bs b o st small h w in
    (
      part-Prefix limit r c bs b o front
          (elim kind [ inl (_, same) ↦ inl same | inr (_, full) ↦ inr full ]),
      omega arith,
      ground (arith, length-append c (take n bs)),
    )

pub Stage-Kept :
    (w : Worker) (r : List ℕ) (st : LogState) (c : List ℕ) (b limit : ℕ) (o : Bool)
    → limit < 18446744073709551616
    → Stage w r st c b limit o
    → Kept r c b limit
unfolding Stage
Stage-Kept waiting r st c b limit o small h = Tally-Kept st r c b limit o h
Stage-Kept timed_out r st c b limit o small h = Tally-Kept st r c b limit o h
Stage-Kept closing r st c b limit o small h = Tally-Kept st r c b limit o h
Stage-Kept ended r st c b limit o small h = Closed-Kept st r c b limit o h
Stage-Kept (writing bs n) r st c b limit o small h =
    let (front, short, grows) = Tally-Kept st h.0 c b limit o h.2 in
    (subst (Prefix c) h.1 (Prefix-append c h.0 bs front), short, grows)
Stage-Kept (wrote bs n true) r st c b limit o small h = (h.0, h.1, h.2)
Stage-Kept (wrote bs n false) r st c b limit o small h =
    let (before, old, same, tally, w, sized, grown) = h in
    rw (grown, sized, sym same) (Tally-Kept_part st before old bs b limit o small tally w)
