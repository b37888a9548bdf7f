-- ===== src/Prelude/Ordered.antt =====
-- `BTreeSet` and `BTreeMap` over any ordered type: lists in the order of the keys, each of which
-- stands once. The equality and the order, `==` and `<`, are parameters.
use mathlib.Core.Path.{◌≡◌, refl, ap}
use mathlib.Core.Bool.{Bool, true, false, ◌&&◌, ◌||◌, not}
use mathlib.Core.List.{List, [], ◌∷◌}
use ten_cent_poker_client.Prelude.Tests.{if◌then◌else◌}
use native.Mathlib.Omega.{arith}

-- The equality decides whether two keys are the same.
pub record Decides {A : Type 0} (eq : A → A → Bool) : Type 0 where
  pub sound : (a b : A) → eq a b ≡ true → a ≡ b
  pub reflexive : (a : A) → eq a a ≡ true

-- `contains`
abbrev pub member : {A : Type 0} → (A → A → Bool) → List A → A → Bool
member eq [] a = false
member eq (b ∷ s) a = let rest = member eq s a in if eq b a then true else rest

module _ {A : Type 0} (eq lt : A → A → Bool) where
  -- `insert`
  abbrev pub add : A → List A → List A
  add a [] = a ∷ []
  add a (b ∷ s) =
      let rest = add a s in if eq b a then b ∷ s else (if lt a b then a ∷ b ∷ s else b ∷ rest)

  -- `into_iter().collect()`
  abbrev pub collect : List A → List A → List A
  collect [] s = s
  collect (a ∷ xs) s = collect xs (add a s)

module _ {A : Type 0} (eq : A → A → Bool) where
  -- `remove`
  abbrev pub discard : A → List A → List A
  discard a [] = []
  discard a (b ∷ s) = let rest = discard a s in if eq b a then rest else b ∷ rest

module _ {A : Type 0} (eq lt : A → A → Bool) (d : Decides eq) where
  -- Past an equal key nothing is added.
  same_key :
      (a b x : A) (r : Bool)
      → eq b a ≡ true
      → (if eq b x then true else r) ≡ (eq a x || (if eq b x then true else r))
  same_key a b x r e = let p = ap (λ (y : A). eq y x) (d.sound b a e) in ground (arith, p)

  pub member-add :
      (a : A) (s : List A) (x : A) → member eq (add eq lt a s) x ≡ (eq a x || member eq s x)
  member-add a [] x = ground arith
  member-add a (b ∷ s) x = ground (arith, member-add a s x, same_key a b x (member eq s x))

  pub member-collect :
      (xs s : List A) (x : A) → member eq (collect eq lt xs s) x ≡ (member eq xs x || member eq s x)
  member-collect [] s x = refl
  member-collect (a ∷ xs) s x =
      ground (arith, member-collect xs (add eq lt a s) x, member-add a s x)

module _ {A : Type 0} (eq : A → A → Bool) (d : Decides eq) where
  differ : (a b x : A) → eq b a ≡ true → eq b x ≡ eq a x
  differ a b x e = ap (λ (y : A). eq y x) (d.sound b a e)

  agree : (a b x : A) → eq a x ≡ true → eq b a ≡ eq b x
  agree a b x e = ap (eq b) (d.sound a x e)

  pub member-discard :
      (a : A) (s : List A) (x : A) → member eq (discard eq a s) x ≡ (not (eq a x) && member eq s x)
  member-discard a [] x = ground arith
  member-discard a (b ∷ s) x = ground (arith, member-discard a s x, differ a b x, agree a b x)
