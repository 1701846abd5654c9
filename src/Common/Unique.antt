-- ===== src/Common/Unique.antt =====
-- Sets that a loop fills: `HashSet::insert` and loops that stop at the first repeated key.
use mathlib.Core.Path.{◌≡◌, refl, sym, subst}
use mathlib.Core.Bool.{Bool, false, ◌||◌}
use mathlib.Core.List.{List, [], ◌∷◌, map}
use native.Mathlib.Omega.{arith}
use idk.Common.Tests.{if◌then◌else◌}
use idk.Common.Lists.{All}
use idk.Common.Equality.{Eq}
use idk.Common.Outcome.{Result, ok, err, ◌>>=◌}

-- `for item in items { state = step(state, item)?; }`
abbrev pub try_fold {ℓ κ} :
    {E : Type 0} {S : Type ℓ} {A : Type κ} → S → List A → (S → A → Result E S) → Result E S
try_fold s [] step = ok s
try_fold s (x ∷ xs) step = step s x >>= (λ s'. try_fold s' xs step)

module _ {ℓ} {K : Type ℓ} ⦃e : Eq K⦄ where
  abbrev pub contains : K → List K → Bool
  contains k [] = false
  contains k (x ∷ xs) = e.eqb k x || contains k xs

  -- `if !seen.insert(key) { bail!(..) }`
  abbrev pub insert_new : {E : Type 0} → List K → K → E → Result E (List K)
  insert_new seen k repeated = if contains k seen then err repeated else ok (k ∷ seen)

  -- No element occurs twice.
  abbrev pub Distinct : List K → Type 0
  Distinct [] = Unit
  Distinct (x ∷ xs) = (contains x xs ≡ false) × Distinct xs

pub >>=-eq-ok {ℓ κ} :
    {E : Type 0} {X : Type ℓ} {Y : Type κ} (r : Result E X) (k : X → Result E Y) {y : Y}
    → (r >>= k) ≡ ok y
    → (x : X) × (r ≡ ok x) × (k x ≡ ok y)
>>=-eq-ok (ok x) k same = (x, refl, same)
>>=-eq-ok (err e) k same = absurd cc

module _ {ℓ} {K : Type ℓ} ⦃e : Eq K⦄ where
  pub insert_new-eq-ok :
      {E : Type 0} (seen : List K) (k : K) (repeated : E) (seen' : List K)
      → insert_new seen k repeated ≡ ok seen'
      → (contains k seen ≡ false) × (k ∷ seen ≡ seen')
  insert_new-eq-ok seen k repeated seen' h = ground arith

  contains-map-All {κ} :
      {A : Type κ} (key : A → K) (k : K) (s : List K) (xs : List A)
      → All (λ y. contains (key y) (k ∷ s) ≡ false) xs
      → (contains k (map key xs) ≡ false) × All (λ y. contains (key y) s ≡ false) xs
  contains-map-All key k s [] h = (refl, tt)
  contains-map-All key k s (y ∷ ys) h =
      ground (arith, contains-map-All key k s ys h.1, e.eqb_iff (key y) k, e.eqb_iff k (key y))

  -- A loop whose every step inserts the key of its item, in a set that is a part of its state, accepts
  -- only distinct keys, and ends with the set of them.
  module _ {κ μ} {A : Type κ} {S : Type μ} {E : Type 0} (key : A → K) (seen : S → List K)
      (step : S → A → Result E S) where
    abbrev pub InsertsIn : Type (ℓ ⊔ κ ⊔ μ)
    InsertsIn =
        (s : S) (x : A) (s' : S)
        → step s x ≡ ok s'
        → (contains (key x) (seen s) ≡ false) × (key x ∷ seen s ≡ seen s')

    pub try_fold_fresh :
        InsertsIn
        → (s s' : S) (xs : List A) → try_fold s xs step ≡ ok s'
        → Distinct (map key xs)
          × All (λ x. contains (key x) (seen s) ≡ false) xs
          × ((z : K) → contains z (seen s') ≡ contains z (seen s) || contains z (map key xs))
    try_fold_fresh ins s s' [] h = (tt, tt, (λ z. ground (arith, h)))
    try_fold_fresh ins s s' (x ∷ xs) h =
        let (s1, first, rest) = >>=-eq-ok (step s x) (λ t. try_fold t xs step) h in
        let (fresh, grows) = ins s x s1 first in
        let (distinct, outside, same) = try_fold_fresh ins s1 s' xs rest in
        let (one, others) =
          contains-map-All key (key x) (seen s) xs
            (subst (λ t. All (λ y. contains (key y) t ≡ false) xs) (sym grows) outside) in
        ((one, distinct), (fresh, others), (λ z. ground (arith, same z, grows)))

  -- The same where the state is the set.
  module _ {κ} {A : Type κ} {E : Type 0} (key : A → K) (step : List K → A → Result E (List K)) where
    abbrev pub Inserts : Type (ℓ ⊔ κ)
    Inserts =
        (s : List K) (x : A) (s' : List K)
        → step s x ≡ ok s'
        → (contains (key x) s ≡ false) × (key x ∷ s ≡ s')

    pub try_fold_unique :
        Inserts
        → (s s' : List K) (xs : List A) → try_fold s xs step ≡ ok s'
        → Distinct (map key xs)
          × All (λ x. contains (key x) s ≡ false) xs
          × ((z : K) → contains z s' ≡ contains z s || contains z (map key xs))
    try_fold_unique ins s s' xs h = try_fold_fresh key (λ t. t) step ins s s' xs h

-- What every step that succeeds shows of its item holds of all of them.
pub try_fold-All {ℓ κ μ} :
    {E : Type 0} {S : Type ℓ} {A : Type κ} (P : A → Type μ) (step : S → A → Result E S)
    → ((s : S) (x : A) (s' : S) → step s x ≡ ok s' → P x)
    → (s s' : S) (xs : List A) → try_fold s xs step ≡ ok s'
    → All P xs
try_fold-All P step shows s s' [] h = tt
try_fold-All P step shows s s' (x ∷ xs) h =
    let (s1, first, rest) = >>=-eq-ok (step s x) (λ t. try_fold t xs step) h in
    (shows s x s1 first, try_fold-All P step shows s1 s' xs rest)
