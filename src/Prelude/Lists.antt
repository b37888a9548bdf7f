-- ===== src/Prelude/Lists.antt =====
-- Lists measured and indexed by the native numbers, under the library's names, and sums.
use Prim.Native.Nat.{ℕ, zero, suc, ◌+◌, ◌<◌, ◌≤◌}
use mathlib.Core.Path.{◌≡◌, refl, ap, subst}
use mathlib.Core.Logic.{◌≢◌}
use mathlib.Core.Bool.{Bool}
use mathlib.Core.List.{List, [], ◌∷◌, ◌++◌, map}
use mathlib.Core.Option.{Option, none, some}
use native.Mathlib.Omega.{arith}
use ten_cent_poker_client.Prelude.Tests.{if◌then◌else◌}

module _ {ℓ} {A : Type ℓ} where
  abbrev pub length : List A → ℕ
  length [] = 0
  length (x ∷ xs) = suc (length xs)

  abbrev pub get_elem? : List A → ℕ → Option A
  get_elem? [] i = none
  get_elem? (x ∷ xs) zero = some x
  get_elem? (x ∷ xs) (suc i) = get_elem? xs i

  abbrev pub get_or : List A → ℕ → A → A
  get_or [] i d = d
  get_or (x ∷ xs) zero d = x
  get_or (x ∷ xs) (suc i) d = get_or xs i d

  -- A write out of bounds changes nothing.
  abbrev pub set : List A → ℕ → A → List A
  set [] i v = []
  set (x ∷ xs) zero v = v ∷ xs
  set (x ∷ xs) (suc i) v = x ∷ set xs i v

  abbrev pub replicate : ℕ → A → List A
  replicate zero a = []
  replicate (suc n) a = a ∷ replicate n a

  -- `iter().filter(p)`.
  abbrev pub keep : (A → Bool) → List A → List A
  keep p [] = []
  keep p (x ∷ xs) = let rest = keep p xs in if p x then x ∷ rest else rest

  -- A predicate of every element.
  abbrev pub All {κ} : (A → Type κ) → List A → Type κ
  All P [] = Unit
  All P (x ∷ xs) = P x × All P xs

  -- The sum of a measure over a list.
  abbrev pub sum_of : (A → ℕ) → List A → ℕ
  sum_of f [] = 0
  sum_of f (x ∷ xs) = f x + sum_of f xs

abbrev pub sum : List ℕ → ℕ
sum [] = 0
sum (x ∷ xs) = x + sum xs

-- A strictly ascending list of numbers from `lo` on.
abbrev pub Ascends : ℕ → List ℕ → Type 0
Ascends lo [] = Unit
Ascends lo (x ∷ xs) = (lo ≤ x) × Ascends (suc x) xs

pub Ascends-push :
    (lo : ℕ) (xs : List ℕ) (i : ℕ)
    → Ascends lo xs
    → All (λ (j : ℕ). j < i) xs
    → lo ≤ i
    → Ascends lo (xs ++ i ∷ [])
Ascends-push lo [] i h k le = (le, tt)
Ascends-push lo (x ∷ xs) i h k le = (h.0, Ascends-push (suc x) xs i h.1 k.1 k.0)

pub All-lt-grow :
    (a b : ℕ) (xs : List ℕ) → a ≤ b → All (λ (j : ℕ). j < a) xs → All (λ (j : ℕ). j < b) xs
All-lt-grow a b [] le h = tt
All-lt-grow a b (x ∷ xs) le h = (omega (arith, h.0), All-lt-grow a b xs le h.1)

-- `start..start + n`
abbrev pub range_from : ℕ → ℕ → List ℕ
range_from start zero = []
range_from start (suc n) = start ∷ range_from (suc start) n

module _ {ℓ} {A : Type ℓ} where
  pub length-append : (xs ys : List A) → length (xs ++ ys) ≡ length xs + length ys
  length-append [] ys = omega arith
  length-append (x ∷ xs) ys = omega (arith, length-append xs ys)

  pub length-set : (xs : List A) (i : ℕ) (v : A) → length (set xs i v) ≡ length xs
  length-set [] i v = refl
  length-set (x ∷ xs) zero v = refl
  length-set (x ∷ xs) (suc i) v = ap suc (length-set xs i v)

  pub length-replicate : (n : ℕ) (a : A) → length (replicate n a) ≡ n
  length-replicate zero a = refl
  length-replicate (suc n) a = ap suc (length-replicate n a)

  pub length-map {κ} : {B : Type κ} (xs : List A) (f : A → B) → length (map f xs) ≡ length xs
  length-map [] f = refl
  length-map (x ∷ xs) f = ap suc (length-map xs f)

  pub get_elem?-lt : (xs : List A) (i : ℕ) → i < length xs → (a : A) × (get_elem? xs i ≡ some a)
  get_elem?-lt [] i h = elim h [ ]
  get_elem?-lt (x ∷ xs) zero h = (x, refl)
  get_elem?-lt (x ∷ xs) (suc i) h = get_elem?-lt xs i (omega arith)

  pub get_elem?-some-lt : (xs : List A) (i : ℕ) {a : A} → get_elem? xs i ≡ some a → i < length xs
  get_elem?-some-lt [] i h = cc
  get_elem?-some-lt (x ∷ xs) zero h = omega arith
  get_elem?-some-lt (x ∷ xs) (suc i) h = omega (arith, get_elem?-some-lt xs i h)

  pub get_elem?-set_self :
      (xs : List A) (i : ℕ) (v : A) → i < length xs → get_elem? (set xs i v) i ≡ some v
  get_elem?-set_self [] i v h = elim h [ ]
  get_elem?-set_self (x ∷ xs) zero v h = refl
  get_elem?-set_self (x ∷ xs) (suc i) v h = get_elem?-set_self xs i v (omega arith)

  pub get_elem?-set_ne :
      (xs : List A) {i j : ℕ} (v : A) → i ≢ j → get_elem? (set xs i v) j ≡ get_elem? xs j
  get_elem?-set_ne [] v h = refl
  get_elem?-set_ne (x ∷ xs) {i = zero} {j = zero} v h = absurd (h refl)
  get_elem?-set_ne (x ∷ xs) {i = zero} {j = suc j} v h = refl
  get_elem?-set_ne (x ∷ xs) {i = suc i} {j = zero} v h = refl
  get_elem?-set_ne (x ∷ xs) {i = suc i} {j = suc j} v h = get_elem?-set_ne xs v (λ e. h (ap suc e))

  -- Writing back what is there changes nothing.
  pub set-get_elem? : (xs : List A) (i : ℕ) (a : A) → get_elem? xs i ≡ some a → set xs i a ≡ xs
  set-get_elem? [] i a h = refl
  set-get_elem? (x ∷ xs) zero a h = cc
  set-get_elem? (x ∷ xs) (suc i) a h = ap (◌∷◌ x) (set-get_elem? xs i a h)

  pub All-append {κ} : (P : A → Type κ) (xs ys : List A) → All P xs → All P ys → All P (xs ++ ys)
  All-append P [] ys hx hy = hy
  All-append P (x ∷ xs) ys hx hy = (hx.0, All-append P xs ys hx.1 hy)

  pub All-get_elem? {κ} :
      (P : A → Type κ) (xs : List A) (i : ℕ) (a : A) → All P xs → get_elem? xs i ≡ some a → P a
  All-get_elem? P [] i a h e = cc
  All-get_elem? P (x ∷ xs) zero a h e = subst P (cc) h.0
  All-get_elem? P (x ∷ xs) (suc i) a h e = All-get_elem? P xs i a h.1 e

  pub All-set {κ} :
      (P : A → Type κ) (xs : List A) (i : ℕ) (v : A) → All P xs → P v → All P (set xs i v)
  All-set P [] i v h p = tt
  All-set P (x ∷ xs) zero v h p = (p, h.1)
  All-set P (x ∷ xs) (suc i) v h p = (h.0, All-set P xs i v h.1 p)

  -- A write moves a sum by the difference of the measures.
  pub sum_of-set :
      (f : A → ℕ) (xs : List A) (i : ℕ) (v : A) {a : A}
      → get_elem? xs i ≡ some a
      → sum_of f (set xs i v) + f a ≡ sum_of f xs + f v
  sum_of-set f [] i v h = cc
  sum_of-set f (x ∷ xs) zero v h = ground arith
  sum_of-set f (x ∷ xs) (suc i) v h = omega (arith, sum_of-set f xs i v h)

  pub sum_of-append : (f : A → ℕ) (xs ys : List A) → sum_of f (xs ++ ys) ≡ sum_of f xs + sum_of f ys
  sum_of-append f [] ys = omega arith
  sum_of-append f (x ∷ xs) ys = omega (arith, sum_of-append f xs ys)

  pub get_elem?-le-sum_of :
      (f : A → ℕ) (xs : List A) (i : ℕ) {a : A} → get_elem? xs i ≡ some a → f a ≤ sum_of f xs
  get_elem?-le-sum_of f [] i h = cc
  get_elem?-le-sum_of f (x ∷ xs) zero h = ground arith
  get_elem?-le-sum_of f (x ∷ xs) (suc i) h = omega (arith, get_elem?-le-sum_of f xs i h)

module _ {ℓ κ} {A : Type ℓ} {B : Type κ} where
  pub get_elem?-map :
      (f : A → B) (xs : List A) (i : ℕ) {a : A}
      → get_elem? xs i ≡ some a
      → get_elem? (map f xs) i ≡ some (f a)
  get_elem?-map f [] i h = cc
  get_elem?-map f (x ∷ xs) zero h = cc
  get_elem?-map f (x ∷ xs) (suc i) h = get_elem?-map f xs i h

  -- A write that keeps `f` of the element keeps the image of the list.
  pub map-set_same :
      (f : A → B) (xs : List A) (i : ℕ) (v : A) {a : A}
      → get_elem? xs i ≡ some a
      → f v ≡ f a
      → map f (set xs i v) ≡ map f xs
  map-set_same f [] i v h e = refl
  map-set_same f (x ∷ xs) zero v h e = cc
  map-set_same f (x ∷ xs) (suc i) v h e = ap (◌∷◌ (f x)) (map-set_same f xs i v h e)

pub sum-map {ℓ} : {A : Type ℓ} (f : A → ℕ) (xs : List A) → sum (map f xs) ≡ sum_of f xs
sum-map f [] = refl
sum-map f (x ∷ xs) = ap (λ (t : ℕ). f x + t) (sum-map f xs)

pub sum-set :
    (xs : List ℕ) (i v : ℕ) {a : ℕ} → get_elem? xs i ≡ some a → sum (set xs i v) + a ≡ sum xs + v
sum-set [] i v h = cc
sum-set (x ∷ xs) zero v h = ground arith
sum-set (x ∷ xs) (suc i) v h = omega (arith, sum-set xs i v h)

pub get_elem?-le-sum : (xs : List ℕ) (i a : ℕ) → get_elem? xs i ≡ some a → a ≤ sum xs
get_elem?-le-sum [] i a h = cc
get_elem?-le-sum (x ∷ xs) zero a h = ground arith
get_elem?-le-sum (x ∷ xs) (suc i) a h = omega (arith, get_elem?-le-sum xs i a h)

pub get_elem?-replicate {ℓ} :
    {A : Type ℓ} (n j : ℕ) (a : A) → j < n → get_elem? (replicate n a) j ≡ some a
get_elem?-replicate zero j a lt = elim lt [ ]
get_elem?-replicate (suc n) zero a lt = refl
get_elem?-replicate (suc n) (suc j) a lt = get_elem?-replicate n j a (omega arith)

pub sum-replicate : (n : ℕ) → sum (replicate n 0) ≡ 0
sum-replicate zero = refl
sum-replicate (suc n) = omega (arith, sum-replicate n)
