-- ===== src/Prelude/Errors.antt =====
-- What a Rust function call comes to: a value, an error that it returns, or a panic (an index out
-- of range, an arithmetic overflow, an `unwrap` of `None`).
use Prim.Native.Nat.{ℕ, ◌+◌, ◌-◌, ◌*◌, ◌/◌, ◌%◌, ◌^◌, ◌≤◌, ◌<◌}
use mathlib.Core.Path.{◌≡◌, refl}
use mathlib.Core.Bool.{Bool, true, false}
use mathlib.Core.Option.{none, some}
use mathlib.Core.List.{List}
use native.Mathlib.Omega.{arith}
use ten_cent_poker_client.Prelude.Tests.{ltb, leb, ◌==◌, if◌then◌else◌, lt→ltb, le→ltb, le→leb}
use ten_cent_poker_client.Prelude.Lists.{length, get_elem?, set}

pub data Outcome {ℓ κ} (E : Type ℓ) (A : Type κ) : Type (ℓ ⊔ κ) where
  ok : A → Outcome E A
  err : E → Outcome E A
  panic : Outcome E A

abbrev pub is_ok {ℓ κ} : {E : Type ℓ} {A : Type κ} → Outcome E A → Bool
is_ok (ok a) = true
is_ok (err e) = false
is_ok panic = false

infixl 5 ◌>>=◌ ◌>>◌
abbrev pub ◌>>=◌ {ℓ κ μ} :
    {E : Type ℓ} {A : Type κ} {B : Type μ} → Outcome E A → (A → Outcome E B) → Outcome E B
ok a >>= f = f a
err e >>= f = err e
panic >>= f = panic

abbrev pub ◌>>◌ {ℓ κ} : {E : Type ℓ} {B : Type κ} → Outcome E (Unit {0}) → Outcome E B → Outcome E B
m >> k = m >>= λ _. k

-- The number of values of a `u64` (and of a `usize` on the 64-bit targets).
abbrev pub u64_mod : ℕ
u64_mod = 2 ^ 64

module _ {ℓ} {E : Type ℓ} where
  -- `if c { return Err(e) }`
  abbrev pub err_if : Bool → E → Outcome E (Unit {0})
  err_if true e = err e
  err_if false e = ok tt

  -- `a + b`, `a - b` and `a % b` on u64, with the overflow checks on.
  unfoldable pub add64 : ℕ → ℕ → Outcome E ℕ
  add64 a b = if ltb (a + b) u64_mod then ok (a + b) else panic

  unfoldable pub sub64 : ℕ → ℕ → Outcome E ℕ
  sub64 a b = if leb b a then ok (a - b) else panic

  unfoldable pub mul64 : ℕ → ℕ → Outcome E ℕ
  mul64 a b = if ltb (a * b) u64_mod then ok (a * b) else panic

  unfoldable pub rem64 : ℕ → ℕ → Outcome E ℕ
  rem64 a b = if b == 0 then panic else ok (a % b)

  unfoldable pub div64 : ℕ → ℕ → Outcome E ℕ
  div64 a b = if b == 0 then panic else ok (a / b)

  -- `xs[i]` and `xs[i] = v`.
  unfoldable pub index {κ} : {A : Type κ} → List A → ℕ → Outcome E A
  index xs i = elim (get_elem? xs i) [ none ↦ panic | some a ↦ ok a ]

  unfoldable pub write {κ} : {A : Type κ} → List A → ℕ → A → Outcome E (List A)
  write xs i v = if ltb i (length xs) then ok (set xs i v) else panic

  pub add64-ok : (a b : ℕ) → a + b < u64_mod → add64 a b ≡ ok (a + b)
  unfolding add64
  add64-ok a b h = rw (lt→ltb (a + b) u64_mod h)

  pub add64-panic : (a b : ℕ) → u64_mod ≤ a + b → add64 a b ≡ panic
  unfolding add64
  add64-panic a b h = rw (le→ltb (a + b) u64_mod h)

  pub sub64-ok : (a b : ℕ) → b ≤ a → sub64 a b ≡ ok (a - b)
  unfolding sub64
  sub64-ok a b h = rw (le→leb b a h)

  pub mul64-ok : (a b : ℕ) → a * b < u64_mod → mul64 a b ≡ ok (a * b)
  unfolding mul64
  mul64-ok a b h = rw (lt→ltb (a * b) u64_mod h)

  pub rem64-ok : (a b : ℕ) → 0 < b → rem64 a b ≡ ok (a % b)
  unfolding rem64
  rem64-ok a b h = ground arith

  pub div64-ok : (a b : ℕ) → 0 < b → div64 a b ≡ ok (a / b)
  unfolding div64
  div64-ok a b h = ground arith

  pub index-ok {κ} :
      {A : Type κ} (xs : List A) (i : ℕ) {a : A} → get_elem? xs i ≡ some a → index xs i ≡ ok a
  unfolding index
  index-ok xs i h = rw (h, index)

  pub write-ok {κ} :
      {A : Type κ} (xs : List A) (i : ℕ) (v : A) → i < length xs → write xs i v ≡ ok (set xs i v)
  unfolding write
  write-ok xs i v h = rw (lt→ltb i (length xs) h)

-- Total correctness: the call returns a value, and the value has the property.
abbrev pub Returns {ℓ κ} : {E : Type ℓ} {A : Type κ} → Outcome E A → (A → Type 0) → Type 0
Returns (ok a) P = P a
Returns (err e) P = ⊥
Returns panic P = ⊥

-- The call comes to a value or an error, never to a panic; the value has the property.
abbrev pub Safe {ℓ κ} : {E : Type ℓ} {A : Type κ} → Outcome E A → (A → Type 0) → Type 0
Safe (ok a) P = P a
Safe (err e) P = Unit
Safe panic P = ⊥

module _ {ℓ κ} {E : Type ℓ} {A : Type κ} where
  pub Returns-value : (P : A → Type 0) (m : Outcome E A) → Returns m P → (a : A) × (m ≡ ok a) × P a
  Returns-value P (ok a) h = (a, refl, h)
  Returns-value P (err e) h = absurd h
  Returns-value P panic h = absurd h

  pub Returns-mono :
      (P Q : A → Type 0) (m : Outcome E A) → Returns m P → ((a : A) → P a → Q a) → Returns m Q
  Returns-mono P Q (ok a) h k = k a h
  Returns-mono P Q (err e) h k = h
  Returns-mono P Q panic h k = h

  pub Returns-both :
      (P Q : A → Type 0) (m : Outcome E A) → Returns m P → Returns m Q → Returns m (λ a. P a × Q a)
  Returns-both P Q (ok a) h k = (h, k)
  Returns-both P Q (err e) h k = h
  Returns-both P Q panic h k = h

  pub Returns-bind {μ} :
      {B : Type μ} (P : A → Type 0) (Q : B → Type 0) (m : Outcome E A) (f : A → Outcome E B)
      → Returns m P
      → ((a : A) → P a → Returns (f a) Q)
      → Returns (m >>= f) Q
  Returns-bind P Q (ok a) f h k = k a h
  Returns-bind P Q (err e) f h k = absurd h
  Returns-bind P Q panic f h k = absurd h

  pub Safe-of-Returns : (P : A → Type 0) (m : Outcome E A) → Returns m P → Safe m P
  Safe-of-Returns P (ok a) h = h
  Safe-of-Returns P (err e) h = tt
  Safe-of-Returns P panic h = h

  pub Safe-mono : (P Q : A → Type 0) (m : Outcome E A) → Safe m P → ((a : A) → P a → Q a) → Safe m Q
  Safe-mono P Q (ok a) h k = k a h
  Safe-mono P Q (err e) h k = h
  Safe-mono P Q panic h k = h

  pub Safe-bind {μ} :
      {B : Type μ} (P : A → Type 0) (Q : B → Type 0) (m : Outcome E A) (f : A → Outcome E B)
      → Safe m P
      → ((a : A) → P a → Safe (f a) Q)
      → Safe (m >>= f) Q
  Safe-bind P Q (ok a) f h k = k a h
  Safe-bind P Q (err e) f h k = tt
  Safe-bind P Q panic f h k = absurd h

-- Past `if c { return Err(e) }` the test is false.
pub Safe-guard {ℓ κ} :
    {E : Type ℓ} {A : Type κ} (P : A → Type 0) (c : Bool) (e : E) (m : Outcome E A)
    → (c ≡ false → Safe m P)
    → Safe (err_if c e >> m) P
Safe-guard P true e m h = tt
Safe-guard P false e m h = h refl
