-- ===== src/Pot/Defs.antt =====
-- game/src/pot.rs: `compute_pots` and its helpers. No function here returns an error, so the error
-- type is a parameter.
use ten_cent_poker_client.Prelude.{
  ℕ, zero, suc, ◌-◌, not, Bool, true, false, ◌&&◌, Option, none, some, List, [], ◌∷◌, ◌++◌, ltb,
  leb, ◌==◌, if◌then◌else◌, min, Outcome, ok, panic, ◌>>=◌, length, keep, add64, sub64, div64,
  rem64,
}

pub record Pot : Type 0 where
  pub amount : ℕ
  pub eligible : List ℕ

pub record Layer : Type 0 where
  pub amount : ℕ
  pub eligible : List ℕ
  pub contributors : List ℕ

abbrev pub min_with : ℕ → Option ℕ → Option ℕ
min_with x none = some x
min_with x (some m) = some (min x m)

-- `Iterator::min`.
unfoldable pub min_of : List ℕ → Option ℕ
min_of [] = none
min_of (x ∷ xs) = min_with x (min_of xs)

-- `remaining.iter().filter(|&&c| c > 0).copied().min()`
unfoldable pub next_level : List ℕ → Option ℕ
next_level remaining = min_of (keep (ltb 0) remaining)

abbrev pub is_empty : List ℕ → Bool
is_empty [] = true
is_empty (x ∷ xs) = false

-- `Vec<usize> == Vec<usize>`
unfoldable pub seats_eq : List ℕ → List ℕ → Bool
seats_eq [] [] = true
seats_eq [] (y ∷ ys) = false
seats_eq (x ∷ xs) [] = false
seats_eq (x ∷ xs) (y ∷ ys) = (x == y) && seats_eq xs ys

abbrev pub empty_layer : Layer
empty_layer = record { amount = 0; eligible = []; contributors = [] }

abbrev pub push_unless : Bool → List ℕ → ℕ → List ℕ
push_unless true xs i = xs
push_unless false xs i = xs ++ i ∷ []

-- The pots that return the refunds.
unfoldable pub refund_pots : List (ℕ × ℕ) → List Pot
refund_pots [] = []
refund_pots ((seat, amount) ∷ refunds) =
    let rest = refund_pots refunds in
    if ltb 0 amount then (record { amount = amount; eligible = seat ∷ [] }) ∷ rest else rest

abbrev pub is_nil : List Pot → Bool
is_nil [] = true
is_nil (p ∷ ps) = false

module _ {ℓ} {E : Type ℓ} where
  -- The body of the `for` loop at seat `i`, whose remaining chips are `r`: what is left of `r`,
  -- and the layer so far.
  unfoldable pub visit : ℕ → ℕ → ℕ → Bool → Layer → Outcome E (ℕ × Layer)
  visit level i r folded layer =
      if leb level r && ltb 0 r
      then (do
        amount ← add64 layer.amount level
        left ← sub64 r level
        ok (
          left,
          record {
            amount = amount;
            eligible = push_unless folded layer.eligible i;
            contributors = layer.contributors ++ i ∷ [];
          },
        ))
      else ok (r, layer)

  -- The `for` loop over the seats from `i` on.
  unfoldable pub peel : ℕ → ℕ → List ℕ → List Bool → Layer → Outcome E (List ℕ × Layer)
  peel level i [] folded layer = ok ([], layer)
  peel level i (r ∷ rs) [] layer = panic
  peel level i (r ∷ rs) (f ∷ fs) layer = do
    one ← visit level i r f layer
    rest ← peel level (suc i) rs fs one.1
    ok (one.0 ∷ rest.0, rest.1)

  -- The `loop`, with the rounds left; `panic` when they run out.
  unfoldable pub layers : ℕ → List ℕ → List Bool → Outcome E (List Layer)
  layers zero remaining folded = panic
  layers (suc rounds) remaining folded = elim (next_level remaining) [
    | none ↦ ok []
    | some level ↦ do
      peeled ← peel level 0 remaining folded empty_layer
      rest ← layers rounds peeled.0 folded
      ok (peeled.1 ∷ rest)
  ]

  -- `last_mut()` and the addition to its amount; the list is not empty where it is called.
  unfoldable pub add_to_last : List Pot → ℕ → Outcome E (List Pot)
  add_to_last [] amount = ok []
  add_to_last (p ∷ []) amount = do
    total ← add64 p.amount amount
    ok (record p { amount = total } ∷ [])
  add_to_last (p ∷ q ∷ ps) amount = do rest ← add_to_last (q ∷ ps) amount; ok (p ∷ rest)

  -- The `for` loop over the contributors of a dead layer.
  unfoldable pub share_out : ℕ → ℕ → List ℕ → Outcome E (List (ℕ × ℕ))
  share_out share rem [] = ok []
  share_out share rem (c ∷ cs) = do
    give ← if ltb 0 rem then add64 share 1 else ok share
    rest ← share_out share (if ltb 0 rem then rem - 1 else rem) cs
    ok ((c, give) ∷ rest)

  -- The refunds of a dead layer with no contested pot before it.
  unfoldable pub refund : Layer → Outcome E (List (ℕ × ℕ))
  refund layer = do
    share ← div64 layer.amount (length layer.contributors)
    rem ← rem64 layer.amount (length layer.contributors)
    share_out share rem layer.contributors

  -- The body of the loop of `absorb_dead_layers`, on `out` and `refunds` as they stand.
  unfoldable pub absorb_layer :
      Layer → List Pot × List (ℕ × ℕ) → Outcome E (List Pot × List (ℕ × ℕ))
  absorb_layer layer (out, refunds) =
      if is_empty layer.eligible
      then (if not (is_nil out)
          then (do grown ← add_to_last out layer.amount; ok (grown, refunds))
          else (if not (is_empty layer.contributors)
              then (do more ← refund layer; ok (out, refunds ++ more))
              else ok (out, refunds)))
      else ok (out ++ (record { amount = layer.amount; eligible = layer.eligible }) ∷ [], refunds)

  unfoldable pub absorb : List Layer → List Pot × List (ℕ × ℕ) → Outcome E (List Pot × List (ℕ × ℕ))
  absorb [] state = ok state
  absorb (layer ∷ rest) state = do next ← absorb_layer layer state; absorb rest next

  unfoldable pub absorb_dead_layers : List Layer → Outcome E (List Pot)
  absorb_dead_layers ls = do state ← absorb ls ([], []); ok (state.0 ++ refund_pots state.1)

  -- The body of the loop of `merge_equal_eligible`: it joins the pot to the last one, or pushes it.
  unfoldable pub merge_pot : List Pot → Pot → Outcome E (List Pot)
  merge_pot [] pot = ok (pot ∷ [])
  merge_pot (p ∷ []) pot =
      if seats_eq p.eligible pot.eligible
      then (do total ← add64 p.amount pot.amount; ok (record p { amount = total } ∷ []))
      else ok (p ∷ pot ∷ [])
  merge_pot (p ∷ q ∷ ps) pot = do rest ← merge_pot (q ∷ ps) pot; ok (p ∷ rest)

  unfoldable pub merge : List Pot → List Pot → Outcome E (List Pot)
  merge merged [] = ok merged
  merge merged (pot ∷ pots) = do next ← merge_pot merged pot; merge next pots

  unfoldable pub merge_equal_eligible : List Pot → Outcome E (List Pot)
  merge_equal_eligible pots = merge [] pots

  -- Every round of the loop leaves fewer seats with chips, so that one round more than there are
  -- seats is enough.
  unfoldable pub compute_pots : List ℕ → List Bool → Outcome E (List Pot)
  compute_pots contributions folded =
      if length contributions == length folded
      then (do
        ls ← layers (suc (length contributions)) contributions folded
        pots ← absorb_dead_layers ls
        merge_equal_eligible pots)
      else panic
