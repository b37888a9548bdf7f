-- ===== src/HandEval/Order.antt =====
-- The order of hand values is total and transitive.
use ten_cent_poker_client.Prelude.{ℕ, ◌≡◌, refl, true, false, List, [], ◌∷◌, arith}
use ten_cent_poker_client.HandEval.Defs.{HandValue, key, lex_le, value_le}

lex_le_refl : (xs : List ℕ) → lex_le xs xs ≡ true
unfolding lex_le
lex_le_refl [] = refl
lex_le_refl (x ∷ xs) = ground (arith, lex_le_refl xs)

lex_le_total : (xs ys : List ℕ) → lex_le xs ys ≡ false → lex_le ys xs ≡ true
unfolding lex_le
lex_le_total [] ys h = cc
lex_le_total (x ∷ xs) [] h = refl
lex_le_total (x ∷ xs) (y ∷ ys) h = ground (arith, lex_le_total xs ys)

lex_le_trans : (xs ys zs : List ℕ) → lex_le xs ys ≡ true → lex_le ys zs ≡ true → lex_le xs zs ≡ true
unfolding lex_le
lex_le_trans [] ys zs h k = refl
lex_le_trans (x ∷ xs) [] zs h k = cc
lex_le_trans (x ∷ xs) (y ∷ ys) [] h k = cc
lex_le_trans (x ∷ xs) (y ∷ ys) (z ∷ zs) h k = ground (arith, lex_le_trans xs ys zs)

pub value_le_refl : (a : HandValue) → value_le a a ≡ true
unfolding value_le
value_le_refl a = lex_le_refl (key a)

pub value_le_total : (a b : HandValue) → value_le a b ≡ false → value_le b a ≡ true
unfolding value_le
value_le_total a b h = lex_le_total (key a) (key b) h

pub value_le_trans :
    (a b c : HandValue) → value_le a b ≡ true → value_le b c ≡ true → value_le a c ≡ true
unfolding value_le
value_le_trans a b c h k = lex_le_trans (key a) (key b) (key c) h k
