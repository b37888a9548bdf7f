-- ===== src/Showdown/Defs.antt =====
-- game/src/showdown.rs: `distribute` and its helpers. No function here returns an error, so the
-- error type is a parameter. A hole hand `[Card; 2]` is a pair.
use ten_cent_poker_client.Prelude.{
  ℕ, zero, suc, ◌+◌, ◌-◌, ◌%◌, Bool, true, false, Option, none, some, List, [], ◌∷◌, ◌++◌, ltb, leb,
  ◌==◌, if◌then◌else◌, Outcome, ok, panic, ◌>>=◌, ◌>>◌, sum, length, get_elem?, replicate, index,
  write, add64, div64, rem64,
}
use ten_cent_poker_client.Cards.{Card}
use ten_cent_poker_client.Pot.Defs.{Pot}
use ten_cent_poker_client.HandEval.Defs.{HandValue, value_le, evaluate_best}

pub record PotAward : Type 0 where
  pub winners : List ℕ
  pub amount : ℕ
  pub payouts : List ℕ

abbrev pub Hole : Type 0
Hole = Card × Card

-- `hole.get(seat).and_then(|h| *h)`
abbrev pub hole_of : List (Option Hole) → ℕ → Option Hole
hole_of holes seat = elim (get_elem? holes seat) [ none ↦ none | some h ↦ h ]

-- The best value so far and the seats that have it.
abbrev pub Leaders : Type 0
Leaders = Option HandValue × List ℕ

-- The `match &best` of `distribute_one`: a higher value starts anew, an equal one joins.
unfoldable pub take_lead : ℕ → HandValue → Leaders → Leaders
take_lead seat v (none, winners) = (some v, seat ∷ [])
take_lead seat v (some b, winners) =
    if value_le v b
    then (if value_le b v then (some b, winners ++ seat ∷ []) else (some b, winners))
    else (some v, seat ∷ [])

abbrev pub lead_with : ℕ → Option HandValue → Leaders → Leaders
lead_with seat none leaders = leaders
lead_with seat (some v) leaders = take_lead seat v leaders

-- The stable `sort_by_key` of `odd_chip_order`, by the key function `place`.
unfoldable pub insert_by : (ℕ → ℕ) → ℕ → List ℕ → List ℕ
insert_by place x [] = x ∷ []
insert_by place x (y ∷ ys) =
    let rest = insert_by place x ys in if leb (place x) (place y) then x ∷ y ∷ ys else y ∷ rest

unfoldable pub sort_by : (ℕ → ℕ) → List ℕ → List ℕ
sort_by place [] = []
sort_by place (x ∷ xs) = insert_by place x (sort_by place xs)

-- How far a seat stands clockwise from `start`.
abbrev pub seat_place : ℕ → ℕ → ℕ → ℕ
seat_place start num_seats seat = (seat + num_seats - start) % num_seats

module _ {ℓ} {E : Type ℓ} where
  -- The body of the loop over the eligible seats.
  unfoldable pub consider : List (Option Hole) → List Card → ℕ → Leaders → Outcome E Leaders
  consider holes community seat leaders = elim (hole_of holes seat) [
    | none ↦ ok leaders
    | some h ↦ do
      best ← evaluate_best (community ++ h.0 ∷ h.1 ∷ [])
      ok (lead_with seat best leaders)
  ]

  unfoldable pub leaders_of : List (Option Hole) → List Card → List ℕ → Leaders → Outcome E Leaders
  leaders_of holes community [] leaders = ok leaders
  leaders_of holes community (seat ∷ seats) leaders = do
    next ← consider holes community seat leaders
    leaders_of holes community seats next

  unfoldable pub odd_chip_order : List ℕ → ℕ → ℕ → Outcome E (List ℕ)
  odd_chip_order winners button num_seats = do
    left ← add64 button 1
    start ← rem64 left num_seats
    ok (sort_by (seat_place start num_seats) winners)

  -- `for &w in &winners { payouts[w] = share; }`
  unfoldable pub pay_shares : ℕ → List ℕ → List ℕ → Outcome E (List ℕ)
  pay_shares share [] payouts = ok payouts
  pay_shares share (w ∷ ws) payouts = do next ← write payouts w share; pay_shares share ws next

  -- The loop that hands out the odd chips, `remainder` of them.
  unfoldable pub pay_odd : ℕ → List ℕ → List ℕ → Outcome E (List ℕ)
  pay_odd remainder [] payouts = ok payouts
  pay_odd zero (w ∷ ws) payouts = ok payouts
  pay_odd (suc remainder) (w ∷ ws) payouts = do
    paid ← index payouts w
    more ← add64 paid 1
    next ← write payouts w more
    pay_odd remainder ws next

  -- The end of `distribute_one`: what each winner gets.
  unfoldable pub split_pot : Pot → List ℕ → ℕ → ℕ → Outcome E PotAward
  split_pot pot [] button num_seats =
      ok (record { winners = []; amount = pot.amount; payouts = replicate num_seats 0 })
  split_pot pot (w ∷ ws) button num_seats = do
    let winners = w ∷ ws
    share ← div64 pot.amount (length winners)
    remainder ← rem64 pot.amount (length winners)
    shared ← pay_shares share winners (replicate num_seats 0)
    payouts ←
        if ltb 0 remainder
        then (do order ← odd_chip_order winners button num_seats; pay_odd remainder order shared)
        else ok shared
    ok (record { winners = winners; amount = pot.amount; payouts = payouts })

  -- The part of `distribute_one` behind the test for a single eligible seat.
  unfoldable pub contest : Pot → List (Option Hole) → List Card → ℕ → ℕ → Outcome E PotAward
  contest pot holes community button num_seats = do
    leaders ← leaders_of holes community pot.eligible (none, [])
    split_pot pot leaders.1 button num_seats

  -- A pot with one eligible seat is won without a look at the cards.
  unfoldable pub uncontested : Pot → ℕ → ℕ → Outcome E PotAward
  uncontested pot seat num_seats = do
    payouts ← write (replicate num_seats 0) seat pot.amount
    ok (record { winners = pot.eligible; amount = pot.amount; payouts = payouts })

  unfoldable pub distribute_one : Pot → List (Option Hole) → List Card → ℕ → ℕ → Outcome E PotAward
  distribute_one pot holes community button num_seats =
      if length pot.eligible == 1
      then (do seat ← index pot.eligible 0; uncontested pot seat num_seats)
      else contest pot holes community button num_seats

  -- `winnings[i] += p` for every entry of the payouts, from the entry `i` on.
  unfoldable pub add_payouts : ℕ → List ℕ → List ℕ → Outcome E (List ℕ)
  add_payouts i [] winnings = ok winnings
  add_payouts i (p ∷ ps) winnings = do
    old ← index winnings i
    new ← add64 old p
    next ← write winnings i new
    add_payouts (suc i) ps next

  -- `debug_assert_eq!`, which the same builds check as the overflows.
  abbrev pub debug_assert : Bool → Outcome E (Unit {0})
  debug_assert true = ok tt
  debug_assert false = panic

  unfoldable pub distribute_from :
      List Pot
      → List (Option Hole)
      → List Card
      → ℕ
      → ℕ
      → List ℕ
      → List PotAward
      → Outcome E (List ℕ × List PotAward)
  distribute_from [] holes community button num_seats winnings awards = ok (winnings, awards)
  distribute_from (pot ∷ pots) holes community button num_seats winnings awards = do
    award ← distribute_one pot holes community button num_seats
    debug_assert (sum award.payouts == pot.amount)
    next ← add_payouts 0 award.payouts winnings
    distribute_from pots holes community button num_seats next (awards ++ award ∷ [])

  unfoldable pub distribute :
      List Pot → List (Option Hole) → List Card → ℕ → ℕ → Outcome E (List ℕ × List PotAward)
  distribute pots holes community button num_seats =
      distribute_from pots holes community button num_seats (replicate num_seats 0) []
