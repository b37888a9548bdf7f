-- ===== src/Prelude/Map.antt =====
-- `BTreeMap` and `BTreeSet` with numbers for keys: a list of entries in the order of the keys.
use Prim.Native.Nat.{ℕ, ◌<◌}
use mathlib.Core.Path.{◌≡◌, ap, sym, ◌∙◌}
use mathlib.Core.Logic.{◌≢◌, inl, inr}
use native.Mathlib.Omega.{arith}
use mathlib.Core.Bool.{Bool, true, false}
use mathlib.Core.Option.{Option, none, some}
use mathlib.Core.List.{List, [], ◌∷◌, map}
use ten_cent_poker_client.Prelude.Tests.{
  ltb, ◌==◌, if◌then◌else◌, lt→ltb, le→ltb, ne→==, eq→==, ltb→lt, ltb→le, Bool-cases,
}

abbrev pub Map {ℓ} : Type ℓ → Type ℓ
Map A = List (ℕ × A)

abbrev pub NumberSet : Type 0
NumberSet = Map (Unit {0})

module _ {ℓ} {A : Type ℓ} where
  abbrev pub get : Map A → ℕ → Option A
  get [] k = none
  get ((j, a) ∷ m) k = let rest = get m k in if j == k then some a else rest

  -- An entry under the same key is replaced.
  abbrev pub insert : ℕ → A → Map A → Map A
  insert k a [] = (k, a) ∷ []
  insert k a ((j, b) ∷ m) =
      let rest = insert k a m in
      if ltb k j then (k, a) ∷ (j, b) ∷ m else (if k == j then (k, a) ∷ m else (j, b) ∷ rest)

  abbrev pub values : Map A → List A
  values m = map (λ (e : ℕ × A). e.1) m

  abbrev pub is_some : Option A → Bool
  is_some none = false
  is_some (some a) = true

  abbrev pub has : Map A → ℕ → Bool
  has m k = is_some (get m k)

data Trichotomy (a b : ℕ) : Type 0 where
  below : a < b → Trichotomy a b
  level : a ≡ b → Trichotomy a b
  above : b < a → Trichotomy a b

trichotomy : (a b : ℕ) → Trichotomy a b
trichotomy a b = elim (Bool-cases (ltb a b)) [
  | inl l ↦ below (ltb→lt a b l)
  | inr n ↦ elim (Bool-cases (ltb b a)) [
    | inl l ↦ above (ltb→lt b a l)
    | inr n' ↦ level (omega (arith, ltb→le a b n, ltb→le b a n'))
  ]
]

module _ {ℓ} {A : Type ℓ} where
  module _ (k : ℕ) (a : A) (h : ℕ) (c : A) (m : Map A) where
    insert-before : k < h → insert k a ((h, c) ∷ m) ≡ (k, a) ∷ (h, c) ∷ m
    insert-before lt = rw (lt→ltb k h lt)

    insert-at : k ≡ h → insert k a ((h, c) ∷ m) ≡ (k, a) ∷ m
    insert-at e = rw (le→ltb k h (omega (arith, e)), eq→== k h e)

    insert-behind : h < k → insert k a ((h, c) ∷ m) ≡ (h, c) ∷ insert k a m
    insert-behind lt = rw (le→ltb k h (omega arith), ne→== k h (λ (e : k ≡ h). omega (arith, e)))

  -- The entry of `k` comes before the head, and that of `j` behind it.
  insert_before_head :
      (k : ℕ) (a : A) (j : ℕ) (b : A) (h : ℕ) (c : A) (m : Map A)
      → k < j
      → k < h
      → Trichotomy h j
      → insert k a (insert j b ((h, c) ∷ m)) ≡ (k, a) ∷ insert j b ((h, c) ∷ m)
  insert_before_head k a j b h c m lt kh (below hj) =
      ap (insert k a) (insert-behind j b h c m hj)
      ∙ insert-before k a h c (insert j b m) kh
      ∙ sym (ap (λ (l : Map A). (k, a) ∷ l) (insert-behind j b h c m hj))
  insert_before_head k a j b h c m lt kh (level hj) =
      ap (insert k a) (insert-at j b h c m (sym hj))
      ∙ insert-before k a j b m lt
      ∙ sym (ap (λ (l : Map A). (k, a) ∷ l) (insert-at j b h c m (sym hj)))
  insert_before_head k a j b h c m lt kh (above jh) =
      ap (insert k a) (insert-before j b h c m jh)
      ∙ insert-before k a j b ((h, c) ∷ m) lt
      ∙ sym (ap (λ (l : Map A). (k, a) ∷ l) (insert-before j b h c m jh))

  insert_below :
      (k : ℕ) (a : A) (j : ℕ) (b : A) (m : Map A)
      → k < j
      → insert k a (insert j b m) ≡ insert j b (insert k a m)
  insert_below k a j b [] lt = insert-before k a j b [] lt ∙ sym (insert-behind j b k a [] lt)
  insert_below k a j b ((h, c) ∷ m) lt = elim (trichotomy h k) [
    | below hk ↦
        ap (insert k a) (insert-behind j b h c m (omega arith))
        ∙ insert-behind k a h c (insert j b m) hk
        ∙ ap (λ (l : Map A). (h, c) ∷ l) (insert_below k a j b m lt)
        ∙ sym (insert-behind j b h c (insert k a m) (omega arith))
        ∙ sym (ap (insert j b) (insert-behind k a h c m hk))
    | level hk ↦
        ap (insert k a) (insert-behind j b h c m (omega (arith, hk)))
        ∙ insert-at k a h c (insert j b m) (sym hk)
        ∙ sym (insert-behind j b k a m lt)
        ∙ sym (ap (insert j b) (insert-at k a h c m (sym hk)))
    | above kh ↦
        insert_before_head k a j b h c m lt kh (trichotomy h j)
        ∙ sym (insert-behind j b k a ((h, c) ∷ m) lt)
        ∙ sym (ap (insert j b) (insert-before k a h c m kh))
  ]

  -- Entries under different keys may be inserted in either order.
  pub insert_comm :
      (k : ℕ) (a : A) (j : ℕ) (b : A) (m : Map A)
      → k ≢ j
      → insert k a (insert j b m) ≡ insert j b (insert k a m)
  insert_comm k a j b m ne = elim (trichotomy k j) [
    | below lt ↦ insert_below k a j b m lt
    | level e ↦ elim (ne e) [ ]
    | above lt ↦ sym (insert_below j b k a m lt)
  ]
