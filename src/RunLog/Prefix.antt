-- ===== src/RunLog/Prefix.antt =====
-- The bytes of a log in its chunks, and what the descriptor says of the file.
use mathlib.Core.List.{append_assoc, append-nil}
use idk.Common.{
  ℕ, zero, suc, ◌-◌, ◌≤◌, ◌<◌, ◌≡◌, refl, sym, ap, ◌∙◌, List, [], ◌∷◌, ◌++◌, Bool, ◌⊎◌, inl, inr,
  true, length, ltb, take, drop, if◌then◌else◌, length-append, length-drop, arith, Bool-cases,
}
use idk.RunWire.{LogState, disabled, recording, complete, limited, write_failed, expired, partial}
use idk.RunLog.{chunks, min, is_writable, add_u64}

abbrev pub concat : List (List ℕ) → List ℕ
concat [] = []
concat (x ∷ xs) = x ++ concat xs

abbrev pub Prefix : List ℕ → List ℕ → Type 0
Prefix front whole = (back : List ℕ) × (front ++ back ≡ whole)

take-drop : (n : ℕ) (xs : List ℕ) → take n xs ++ drop n xs ≡ xs
take-drop zero xs = refl
take-drop (suc n) [] = refl
take-drop (suc n) (x ∷ xs) = ap (◌∷◌ x) (take-drop n xs)

length-take : (n : ℕ) (xs : List ℕ) → length (take n xs) ≤ n
length-take zero xs = omega arith
length-take (suc n) [] = omega arith
length-take (suc n) (x ∷ xs) = omega (arith, length-take n xs)

length-take_le : (n : ℕ) (xs : List ℕ) → length (take n xs) ≤ length xs
length-take_le zero xs = omega arith
length-take_le (suc n) [] = omega arith
length-take_le (suc n) (x ∷ xs) = omega (arith, length-take_le n xs)

length-take_full : (n : ℕ) (xs : List ℕ) → n ≤ length xs → length (take n xs) ≡ n
length-take_full zero xs h = refl
length-take_full (suc n) [] h = omega arith
length-take_full (suc n) (x ∷ xs) h = omega (arith, length-take_full n xs (omega arith))

take-length : (xs : List ℕ) → take (length xs) xs ≡ xs
take-length [] = refl
take-length (x ∷ xs) = ap (◌∷◌ x) (take-length xs)

pub concat-append : (xs ys : List (List ℕ)) → concat (xs ++ ys) ≡ concat xs ++ concat ys
concat-append [] ys = refl
concat-append (x ∷ xs) ys =
    ap (◌++◌ x) (concat-append xs ys) ∙ sym (append_assoc x (concat xs) (concat ys))

take-Prefix : (n : ℕ) (xs : List ℕ) → Prefix (take n xs) xs
take-Prefix n xs = (drop n xs, take-drop n xs)

pub Prefix-append : (a b c : List ℕ) → Prefix a b → Prefix a (b ++ c)
Prefix-append a b c (back, same) = (back ++ c, sym (append_assoc a back c) ∙ ap (λ t. t ++ c) same)

pub append-Prefix : (a b c : List ℕ) → Prefix b c → Prefix (a ++ b) (a ++ c)
append-Prefix a b c (back, same) = (back, append_assoc a b back ∙ ap (◌++◌ a) same)

pub Prefix-trans : (a b c : List ℕ) → Prefix a b → Prefix b c → Prefix a c
Prefix-trans a b c (p, e) (q, f) = (p ++ q, sym (append_assoc a p q) ∙ ap (λ t. t ++ q) e ∙ f)

pub concat-chunks :
    (fuel n : ℕ) (bs : List ℕ) → length bs ≤ fuel → concat (chunks fuel (suc n) bs) ≡ bs
unfolding chunks
concat-chunks zero n [] h = refl
concat-chunks zero n (b ∷ bs) h = absurd (omega arith)
concat-chunks (suc fuel) n [] h = refl
concat-chunks (suc fuel) n (b ∷ bs) h =
    let rest : length (drop n bs) ≤ fuel = ground (arith, length-drop n bs) in
    rw (concat-chunks fuel n (drop n bs) rest) (take-drop (suc n) (b ∷ bs))

-- What the descriptor says of the file, when the writing thread has taken the bytes `r`.
unfoldable pub Tally : LogState → (r contents : List ℕ) → (bytes limit : ℕ) → Bool → Type 0
Tally recording r c b limit o = (c ≡ r) × (b ≡ length c) × (b ≤ limit) × (o ≡ true)
Tally complete r c b limit o = ⊥
Tally limited r c b limit o = Prefix c r × (b ≡ length c) × (b ≡ limit) × (o ≡ true)
Tally write_failed r c b limit o = Prefix c r × (length c ≤ limit) × (b ≤ length c)
Tally disabled r c b limit o = ⊥
Tally expired r c b limit o = ⊥
Tally partial r c b limit o = ⊥

-- The same after the thread has ended.
unfoldable pub Closed : LogState → (r contents : List ℕ) → (bytes limit : ℕ) → Bool → Type 0
unfolding Tally
Closed recording r c b limit o = ⊥
Closed complete r c b limit o = (c ≡ r) × (b ≡ length c) × (b ≤ limit)
Closed st r c b limit o = Tally st r c b limit o

abbrev part : ℕ → ℕ → List ℕ → List ℕ
part limit b bs = take (min (limit - b) (length bs)) bs

length-part : (limit b : ℕ) (bs : List ℕ) → length (part limit b bs) ≡ min (limit - b) (length bs)
length-part limit b bs = length-take_full (min (limit - b) (length bs)) bs (ground arith)

part-full : (limit : ℕ) (bs : List ℕ) → part limit limit bs ≡ []
part-full limit bs =
    let none_left : min (limit - limit) (length bs) ≡ 0 = ground arith in
    ap (λ n. take n bs) none_left

take_empty : (k : ℕ) (xs : List ℕ) → xs ≡ [] → take k xs ≡ []
take_empty zero xs h = refl
take_empty (suc k) [] h = refl
take_empty (suc k) (x ∷ xs) h = absurd cc

module _ (limit : ℕ) (r c bs : List ℕ) (b : ℕ) (o : Bool) where
  -- While the thread may write, the file is whole, or it is full.
  pub Tally-writable :
      (st : LogState)
      → Tally st r c b limit o
      → is_writable st ≡ true
      → Prefix c r
        × (b ≡ length c)
        × (b ≤ limit)
        × (o ≡ true)
        × ((st ≡ recording) × (c ≡ r) ⊎ (st ≡ limited) × (b ≡ limit))
  unfolding Tally
  Tally-writable recording (same, sum, fits, open_) w =
      (([], append-nil c ∙ same), sum, fits, open_, inl (refl, same))
  Tally-writable limited (front, sum, full, open_) w =
      (front, sum, omega arith, open_, inr (refl, full))
  Tally-writable disabled h w = elim h [ ]
  Tally-writable expired h w = elim h [ ]
  Tally-writable partial h w = elim h [ ]
  Tally-writable complete h w = elim h [ ]
  Tally-writable write_failed h w = absurd cc

  -- What a write that fails may leave.
  pub Tally-failed :
      (st : LogState) (k : ℕ)
      → Tally st r c b limit o
      → is_writable st ≡ true
      → Prefix (c ++ take k (part limit b bs)) (r ++ bs)
        × (length (c ++ take k (part limit b bs)) ≤ limit)
        × (b ≤ length (c ++ take k (part limit b bs)))
  Tally-failed st k h w =
      let (front, sum, fits, _, kind) = Tally-writable st h w in
      let short : length (c ++ take k (part limit b bs)) ≤ limit = ground (
        arith,
        length-append c (take k (part limit b bs)),
        length-take_le k (part limit b bs),
        length-part limit b bs,
      ) in
      let grows : b ≤ length (c ++ take k (part limit b bs)) =
        ground (arith, length-append c (take k (part limit b bs))) in
      elim kind [
        | inl (_, same) ↦ (
          rw same (
              append-Prefix r (take k (part limit b bs)) bs (
                Prefix-trans (take k (part limit b bs)) (part limit b bs) bs
                  (take-Prefix k (part limit b bs))
                  (take-Prefix (min (limit - b) (length bs)) bs))),
          short,
          grows,
        )
        | inr (_, full) ↦ (
          rw (full, take_empty k (part limit limit bs) (part-full limit bs), append-nil c)
              (Prefix-append c r bs front),
          short,
          grows,
        )
      ]

  pub Tally-added :
      (st : LogState)
      → limit < 18446744073709551616
      → Tally st r c b limit o
      → is_writable st ≡ true
      → (add_u64 b (min (limit - b) (length bs)) ≡ length (c ++ part limit b bs))
        × (add_u64 b (min (limit - b) (length bs)) ≤ limit)
  Tally-added st small h w =
      let (_, sum, fits, _, _) = Tally-writable st h w in
      ground (arith, length-append c (part limit b bs), length-part limit b bs)

  pub part-Prefix : Prefix c r → (c ≡ r) ⊎ (b ≡ limit) → Prefix (c ++ part limit b bs) (r ++ bs)
  part-Prefix front (inl same) =
      rw same (append-Prefix r (part limit b bs) bs (take-Prefix (min (limit - b) (length bs)) bs))
  part-Prefix front (inr full) =
      rw (full, part-full limit bs, append-nil c) (Prefix-append c r bs front)

  part-whole : min (limit - b) (length bs) ≡ length bs → part limit b bs ≡ bs
  part-whole e = ap (λ n. take n bs) e ∙ take-length bs

  -- A chunk whose write has ended is accounted for.
  pub Tally-account :
      (st : LogState)
      → limit < 18446744073709551616
      → Tally st r c b limit o
      → is_writable st ≡ true
      → let n = min (limit - b) (length bs) in
        Tally
          (if ltb n (length bs) then limited else st)
          (r ++ bs)
          (c ++ take n bs)
          (add_u64 b n)
          limit
          o
  unfolding Tally
  Tally-account st small h w =
      let (front, _, before, open_, kind) = Tally-writable st h w in
      let (sum, fits) = Tally-added st small h w in
      elim (Bool-cases (ltb (min (limit - b) (length bs)) (length bs))) [
        | inl cut ↦ rw cut (
          part-Prefix front (elim kind [ inl (_, same) ↦ inl same | inr (_, full) ↦ inr full ]),
          sum,
          ground arith,
          open_,
        )
        | inr whole ↦
            let same_size : min (limit - b) (length bs) ≡ length bs = ground arith in
            rw whole (elim kind [
              | inl (at, same) ↦ rw at (
                ap (λ t. c ++ t) (part-whole same_size) ∙ ap (λ t. t ++ bs) same,
                sum,
                fits,
                open_,
              )
              | inr (at, full) ↦ rw at (part-Prefix front (inr full), sum, ground arith, open_)
            ])
      ]
