-- ===== src/Prelude/Exec.antt =====
-- Methods on `&mut self` that may fail. What was written before an error stays written, so the state
-- comes back beside the error too.
use mathlib.Core.Path.{◌≡◌, refl}
use mathlib.Core.Logic.{◌⊎◌, inl, inr}
use mathlib.Core.Bool.{Bool, true, false, not}
use mathlib.Core.Option.{Option, none, some}
use ten_cent_poker_client.Prelude.Tests.{if◌then◌else◌}
use ten_cent_poker_client.Prelude.Errors.{Outcome, ok, err, panic}

abbrev pub Exec {ℓ} : Type ℓ → Type ℓ → Type ℓ → Type ℓ
Exec S E A = S → Outcome E A × S

module _ {ℓ} {S E A : Type ℓ} where
  abbrev pub pure : A → Exec S E A
  pure a s = (ok a, s)

  abbrev pub fail : E → Exec S E A
  fail e s = (err e, s)

  -- A result that does not depend on the state.
  abbrev pub lift : Outcome E A → Exec S E A
  lift r s = (r, s)

  abbrev pub gets : (S → A) → Exec S E A
  gets f s = (ok (f s), s)

  -- `o.ok_or(e)?`
  abbrev pub or_fail : Option A → E → Exec S E A
  or_fail none e s = (err e, s)
  or_fail (some a) e s = (ok a, s)

-- `match o { None => b, Some(a) => f(a) }`
abbrev pub maybe {ℓ κ} : {A : Type ℓ} {B : Type κ} → Option A → B → (A → B) → B
maybe none b f = b
maybe (some a) b f = f a

module _ {ℓ} {S E : Type ℓ} where
  abbrev pub modify : (S → S) → Exec S E (Unit {ℓ})
  modify f s = (ok tt, f s)

  -- `if c { return Err(e) }`
  abbrev pub fail_if : Bool → E → Exec S E (Unit {ℓ})
  fail_if true e s = (err e, s)
  fail_if false e s = (ok tt, s)

  -- `if c { m }`
  abbrev pub when : Bool → Exec S E (Unit {ℓ}) → Exec S E (Unit {ℓ})
  when true m s = m s
  when false m s = (ok tt, s)

module _ {ℓ} {S E A B : Type ℓ} where
  abbrev pub continue : Outcome E A → (A → Exec S E B) → Exec S E B
  continue (ok a) f s = f a s
  continue (err e) f s = (err e, s)
  continue panic f s = (panic, s)

  infixl 5 ◌>>=◌ ◌>>◌
  abbrev pub ◌>>=◌ : Exec S E A → (A → Exec S E B) → Exec S E B
  ◌>>=◌ m f s = let (r, s') = m s in continue r f s'

  abbrev pub ◌>>◌ : Exec S E A → Exec S E B → Exec S E B
  m >> n = m >>= λ _. n

module _ {ℓ} {E F A : Type ℓ} where
  -- `map_err`, and the conversion that `?` makes.
  abbrev pub map_err : (E → F) → Outcome E A → Outcome F A
  map_err f (ok a) = ok a
  map_err f (err e) = err (f e)
  map_err f panic = panic

module _ {ℓ} {S T E F A : Type ℓ} where
  -- A method of a part of the state, whose errors are converted.
  abbrev pub within : (S → T) → (T → S → S) → (E → F) → Exec T E A → Exec S F A
  within get put f m s = let (r, t) = m (get s) in (map_err f r, put t s)

-- `m` keeps `P`, whether it returns, fails or panics.
pub record Keeps {ℓ} {S E A : Type ℓ} (P : S → Type ℓ) (m : Exec S E A) : Type ℓ where
  pub at : (s : S) → P s → P (m s).1

module _ {ℓ} {S E A : Type ℓ} {P : S → Type ℓ} where
  pub Keeps-pure : (a : A) → Keeps {E = E} P (pure a)
  Keeps-pure a = record { at = λ s h. h }

  pub Keeps-fail : (e : E) → Keeps {A = A} P (fail e)
  Keeps-fail e = record { at = λ s h. h }

  pub Keeps-lift : (r : Outcome E A) → Keeps P (lift r)
  Keeps-lift r = record { at = λ s h. h }

  pub Keeps-gets : (f : S → A) → Keeps {E = E} P (gets f)
  Keeps-gets f = record { at = λ s h. h }

  pub Keeps-or_fail : (o : Option A) (e : E) → Keeps P (or_fail o e)
  Keeps-or_fail none e = record { at = λ s h. h }
  Keeps-or_fail (some a) e = record { at = λ s h. h }

  pub Keeps-maybe {κ} :
      {B : Type κ} (o : Option B) (m : Exec S E A) (f : B → Exec S E A)
      → Keeps P m
      → ((b : B) → Keeps P (f b))
      → Keeps P (maybe o m f)
  Keeps-maybe none m f km kf = km
  Keeps-maybe (some b) m f km kf = kf b

  pub Keeps-if :
      (b : Bool) (m n : Exec S E A) → Keeps P m → Keeps P n → Keeps P (if b then m else n)
  Keeps-if true m n km kn = km
  Keeps-if false m n km kn = kn

module _ {ℓ} {S E : Type ℓ} {P : S → Type ℓ} where
  pub Keeps-fail_if : (b : Bool) (e : E) → Keeps P (fail_if b e)
  Keeps-fail_if true e = record { at = λ s h. h }
  Keeps-fail_if false e = record { at = λ s h. h }

  pub Keeps-when : (b : Bool) (m : Exec S E (Unit {ℓ})) → Keeps P m → Keeps P (when b m)
  Keeps-when true m k = k
  Keeps-when false m k = record { at = λ s h. h }

  pub Keeps-modify : (f : S → S) → ((s : S) → P s → P (f s)) → Keeps {E = E} P (modify f)
  Keeps-modify f k = record { at = k }

module _ {ℓ} {S E A B : Type ℓ} {P : S → Type ℓ} where
  continue-keeps :
      (r : Outcome E A) (f : A → Exec S E B) (s : S)
      → ((a : A) → Keeps P (f a))
      → P s
      → P (continue r f s).1
  continue-keeps (ok a) f s k h = (k a).at s h
  continue-keeps (err e) f s k h = h
  continue-keeps panic f s k h = h

  pub Keeps-bind :
      (m : Exec S E A) (f : A → Exec S E B)
      → Keeps P m
      → ((a : A) → Keeps P (f a))
      → Keeps P (m >>= f)
  Keeps-bind m f km kf = record { at = λ s h. continue-keeps (m s).0 f (m s).1 kf (km.at s h) }

module _ {ℓ} {S E A B : Type ℓ} {P : S → Type ℓ} where
  pub Keeps-next : (m : Exec S E A) (n : Exec S E B) → Keeps P m → Keeps P n → Keeps P (m >> n)
  Keeps-next m n km kn = Keeps-bind m (λ a. n) km (λ a. kn)

pub ruleset keeps_rules = (
  Keeps-pure, Keeps-fail, Keeps-lift, Keeps-gets, Keeps-or_fail, Keeps-maybe, Keeps-if,
  Keeps-fail_if, Keeps-when, Keeps-bind, Keeps-next,
)

-- `m` reports an error from `s` and changes nothing.
pub record Rejects {ℓ} {S E A : Type ℓ} (s : S) (m : Exec S E A) : Type ℓ where
  pub reported : (e : E) × (m s ≡ (err e, s))

-- `m` does not change `s`: it reports an error or returns a value.
pub record Reads {ℓ} {S E A : Type ℓ} (s : S) (m : Exec S E A) : Type ℓ where
  pub outcome : ((e : E) × (m s ≡ (err e, s))) ⊎ ((a : A) × (m s ≡ (ok a, s)))

module _ {ℓ} {S E : Type ℓ} (s : S) where
  pub Reads-fail_if : (b : Bool) (e : E) → Reads s (fail_if b e)
  Reads-fail_if true e = record { outcome = inl (e, refl) }
  Reads-fail_if false e = record { outcome = inr (tt, refl) }

module _ {ℓ} {S E A : Type ℓ} (s : S) where
  pub or_fail-Reads :
      (o : Option A) (e : E)
      → ((e' : E) × (or_fail o e s ≡ (err e', s))) ⊎ ((a : A) × (or_fail o e s ≡ (ok a, s)))
  or_fail-Reads none e = inl (e, refl)
  or_fail-Reads (some a) e = inr (a, refl)

  pub or_fail-some : (o : Option A) (e : E) {a : A} → or_fail o e s ≡ (ok a, s) → o ≡ some a
  or_fail-some none e h = cc
  or_fail-some (some a) e h = cc

module _ {ℓ} {S E A B : Type ℓ} (s : S) (m : Exec S E A) (f : A → Exec S E B) where
  pub Rejects-first : Rejects s m → Rejects s (m >>= f)
  Rejects-first r = let (e, h) = r.reported in record { reported = (e, rw (h)) }

  pub Rejects-then : Reads s m → ((a : A) → m s ≡ (ok a, s) → Rejects s (f a)) → Rejects s (m >>= f)
  Rejects-then r k = elim r.outcome [
    | inl (e, h) ↦ record { reported = (e, rw (h)) }
    | inr (a, h) ↦ let (e, g) = (k a h).reported in record { reported = (e, rw (h) g) }
  ]

module _ {ℓ} {S E A B : Type ℓ} (s : S) (m : Exec S E A) (n : Exec S E B) where
  pub Rejects-start : Rejects s m → Rejects s (m >> n)
  Rejects-start = Rejects-first s m (λ a. n)

  pub Rejects-next : Reads s m → Rejects s n → Rejects s (m >> n)
  Rejects-next r k = Rejects-then s m (λ a. n) r (λ a h. k)

module _ {ℓ} {S E B : Type ℓ} (s : S) where
  -- `if !b { return Err(e) }` and what follows, which needs an error only where `b` holds.
  pub Rejects-unless :
      (b : Bool) (e : E) (n : Exec S E B)
      → (b ≡ true → Rejects s n)
      → Rejects s (fail_if (not b) e >> n)
  Rejects-unless true e n k = record { reported = (k refl).reported }
  Rejects-unless false e n k = record { reported = (e, refl) }
