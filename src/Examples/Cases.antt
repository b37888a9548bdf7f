-- ===== src/Examples/Cases.antt =====
-- Each theorem applied at an example.
use ten_cent_poker_client.Prelude.{
  ℕ, ◌%◌, ◌≤◌, ◌<◌, ◌≡◌, ◌≢◌, refl, Bool, true, false, Option, none, some, inl, inr, ◌⊎◌, List, [],
  ◌∷◌, ◌++◌, map, arith, ok, err, ◌>>=◌, length, sum, Returns, Returns-value, Safe, ◌∙◌,
}
use ten_cent_poker_client.Cards.{Card, to_index, from_index, to_index-from_index}
use ten_cent_poker_client.Core as Core
use ten_cent_poker_client.Betting.State.{
  call, check, raise, fold, preflop, flop, new, invalid_seat_count,
}
use ten_cent_poker_client.Betting.Actions.{apply, do_raise, next_street, street_after}
use ten_cent_poker_client.Betting.Invariant.{chips_of, IsValid}
use ten_cent_poker_client.Betting.Turns.{Owes}
use ten_cent_poker_client.Betting.Apply.{table_chips, Applied, apply-Applied, apply_closes}
use ten_cent_poker_client.Betting.Rounds.{StreetStarted, next_street_lem}
use ten_cent_poker_client.Betting.Blinds.{new_lem}
use ten_cent_poker_client.Betting.Raises.{RaiseEffect, raise_accepted, raise_effect}
use ten_cent_poker_client.Pot.Defs.{Pot, compute_pots}
use ten_cent_poker_client.Pot.Compute.{IsDivision, compute_pots-IsDivision}
use ten_cent_poker_client.Pot.Merge.{total}
use ten_cent_poker_client.HandEval.Defs.{HandValue, value_le, evaluate_best, combinations5}
use ten_cent_poker_client.HandEval.Best.{Has, Evaluates, combinations5_complete, evaluate_best_lem}
use ten_cent_poker_client.Showdown.Defs.{Hole, distribute}
use ten_cent_poker_client.Showdown.Leaders.{ValueOf}
use ten_cent_poker_client.Showdown.Shares.{entry}
use ten_cent_poker_client.Showdown.Distribute.{
  IsAwardable, AllAwarded, collected, distribute-AllAwarded,
}
use ten_cent_poker_client.Hand.Dealing.{
  Consumes, deal_remaining_community, deal_street, slice, deal_street-Consumes,
}
use ten_cent_poker_client.Hand.Board.{IsComplete, deal_remaining-Completes}
use ten_cent_poker_client.Hand.Rounds.{
  scripted_action, ask, ask-Applied, run_betting_round, run_betting_round-keeps,
}
use ten_cent_poker_client.Protocol.Bot.{check_fold, call_station, to_game, bots-Applied}
use ten_cent_poker_client.Deal.{
  placeholder_shuffled_deck, Rearranges, full_deck, placeholder_shuffled_deck-Rearranges,
}
use ten_cent_poker_client.Net.Reachability.{
  Ipv4Addr, classify_ipv4, ipv4_number, HasClass, classify_ipv4-HasClass,
}
use ten_cent_poker_client.Examples.Tables.{
  seat_with, three_seats, three_seats-IsValid, big_blind_to_act, check-closes, heads_up-IsValid,
  closed-goes_on, board, queens, tens,
}

apply-Applied_example : Safe (apply three_seats 0 (raise 30)) (Applied three_seats 0)
apply-Applied_example = apply-Applied three_seats three_seats-IsValid 0 (raise 30)

apply_closes_example : ¬ Owes (big_blind_to_act none true) 0
apply_closes_example =
    apply_closes (big_blind_to_act (some 1) false) 1 check (big_blind_to_act none true)
      heads_up-IsValid check-closes closed-goes_on refl 0 (omega arith)

some_bet : three_seats.current_bet ≢ 0
some_bet e = omega arith

raise_effect_example :
    Safe (do_raise three_seats 0 30) (RaiseEffect three_seats 0 (seat_with 1000 0) 30)
raise_effect_example =
    raise_effect three_seats three_seats-IsValid.sound 0 (seat_with 1000 0) refl some_bet 30

raise_accepted_example :
    Returns (do_raise three_seats 0 30) (RaiseEffect three_seats 0 (seat_with 1000 0) 30)
raise_accepted_example =
    raise_accepted three_seats three_seats-IsValid.sound 0 (seat_with 1000 0) refl some_bet 30
      (omega arith) refl (omega arith) (inl (omega arith))

abbrev stacks : List ℕ
stacks = 1000 ∷ 7 ∷ 1000 ∷ []

new_example :
    ((2 ≤ length stacks)
      × (length stacks ≤ 9)
      × Returns (new stacks 4 5 10) (λ s.
        IsValid s
        × (map chips_of s.seats ≡ stacks)
        × (s.street ≡ preflop)
        × (s.button ≡ 4 % length stacks)
        × (s.current_bet ≡ 10)
        × (s.min_raise ≡ 10)))
    ⊎ (¬ ((2 ≤ length stacks) × (length stacks ≤ 9))
        × (new stacks 4 5 10 ≡ err (invalid_seat_count (length stacks))))
new_example = new_lem stacks 4 5 10 (omega arith) (omega arith)

next_street_example :
    ((street_after preflop ≡ none) × (next_street three_seats ≡ ok (three_seats, none)))
    ⊎ ((next : _) × (street_after preflop ≡ some next)
        × Returns
            (next_street three_seats)
            (λ p. (p.1 ≡ some next) × StreetStarted three_seats next p.0))
next_street_example = next_street_lem three_seats three_seats-IsValid

abbrev paid_in : List ℕ
paid_in = 100 ∷ 250 ∷ 250 ∷ 40 ∷ []

abbrev folded_seats : List Bool
folded_seats = false ∷ false ∷ false ∷ true ∷ []

compute_pots_example :
    Returns (compute_pots {E = Unit {0}} paid_in folded_seats) (IsDivision paid_in folded_seats)
compute_pots_example = compute_pots-IsDivision (Unit {0}) paid_in folded_seats refl (omega arith)

evaluate_best_example :
    Returns (evaluate_best {E = Unit {0}} (board ++ queens.0 ∷ queens.1 ∷ [])) (λ out.
      ((7 < 5) × (out ≡ none))
      ⊎ ((5 ≤ 7)
          × ((w : HandValue) × (out ≡ some w)
              × ((combo : List ℕ) × Has combo (combinations5 7)
                  × Evaluates (Unit {0}) (board ++ queens.0 ∷ queens.1 ∷ []) combo w)
              × ((combo : List ℕ)
                  → Has combo (combinations5 7)
                  → (v : HandValue) × Evaluates
                      (Unit {0})
                      (board ++ queens.0 ∷ queens.1 ∷ [])
                      combo
                      v
                    × (value_le v w ≡ true)))))
evaluate_best_example = evaluate_best_lem (Unit {0}) (board ++ queens.0 ∷ queens.1 ∷ [])

combinations5_example : Has (0 ∷ 2 ∷ 3 ∷ 5 ∷ 6 ∷ []) (combinations5 7)
combinations5_example =
    combinations5_complete 7 0 2 3 5 6 (omega arith) (omega arith) (omega arith) (omega arith)
      (omega arith)

abbrev two_hands : List (Option Hole)
two_hands = some queens ∷ some tens ∷ none ∷ []

abbrev main_pot : Pot
main_pot = record { amount = 61; eligible = 0 ∷ 1 ∷ [] }

-- The first of the two hands has a value.
first_value : (v : HandValue) × ValueOf (Unit {0}) two_hands board 0 v
first_value =
    let cards = board ++ queens.0 ∷ queens.1 ∷ [] in
    let (out, returned, valued) =
      Returns-value _ (evaluate_best {E = Unit {0}} cards) (evaluate_best_lem (Unit {0}) cards) in
    elim valued [
      | inl (few, nothing) ↦ absurd (omega arith)
      | inr (enough, (w, found, attained, best)) ↦ (w, (queens, refl, returned ∙ rw found refl))
    ]

main_pot-IsAwardable :
    IsAwardable (Unit {0}) two_hands board 2 3 (omega arith) (omega arith) main_pot
main_pot-IsAwardable = record {
  in_table = (omega arith, (omega arith, tt));
  ascend = (omega arith, (omega arith, tt));
  shown = inr (0, first_value.0, inl refl, first_value.1);
}

distribute_example : Returns (distribute {E = Unit {0}} (main_pot ∷ []) two_hands board 2 3) (λ out.
    (sum out.0 ≡ total (main_pot ∷ []))
    × (length out.0 ≡ 3)
    × AllAwarded (Unit {0}) two_hands board 2 3 (omega arith) (omega arith) (main_pot ∷ []) out.1
    × ((j : ℕ) → entry out.0 j ≡ collected out.1 j))
distribute_example =
    distribute-AllAwarded (Unit {0}) two_hands board 2 3 (omega arith) (omega arith) (main_pot ∷ [])
      (main_pot-IsAwardable, tt) (omega arith)

deal_street_example : Consumes board 1 4 (slice board 2 3) (deal_street flop board 1 [])
deal_street_example = deal_street-Consumes board flop 1 [] (omega arith)

deal_remaining_example : Safe (deal_remaining_community preflop board 0 []) (IsComplete board)
deal_remaining_example = deal_remaining-Completes board preflop 0 [] (omega arith) refl

ask_example :
    Returns (ask scripted_action three_seats (raise 5 ∷ []) 0) (λ p. Applied three_seats 0 p.0)
ask_example = ask-Applied scripted_action three_seats (raise 5 ∷ []) 0 three_seats-IsValid refl

run_betting_round_example :
    Returns
      (run_betting_round scripted_action three_seats (raise 30 ∷ call ∷ fold ∷ []))
      (λ p. IsValid p.0 × (table_chips p.0 ≡ table_chips three_seats))
run_betting_round_example =
    run_betting_round-keeps scripted_action three_seats (raise 30 ∷ call ∷ fold ∷ [])
      three_seats-IsValid

bots_example :
    Returns
      (check_fold three_seats 0 >>= λ a. apply three_seats 0 (to_game a))
      (Applied three_seats 0)
    × Returns
        (call_station three_seats 0 >>= λ a. apply three_seats 0 (to_game a))
        (Applied three_seats 0)
bots_example = bots-Applied three_seats three_seats-IsValid 0 refl

to_index-from_index_example :
    ((43 < 52) × ((c : Card) × (from_index {E = Unit {0}} 43 ≡ ok (some c)) × (to_index c ≡ 43)))
    ⊎ ((52 ≤ 43) × (from_index {E = Unit {0}} 43 ≡ ok none))
to_index-from_index_example = to_index-from_index 43

winner_by_stack_example :
    Returns
      (Core.winner_by_stack {E = Unit {0}} (40 ∷ 90 ∷ 90 ∷ []))
      (Core.IsChipLeader (40 ∷ 90 ∷ 90 ∷ []) 3)
winner_by_stack_example =
    Core.winner_by_stack-IsChipLeader (Unit {0}) (40 ∷ 90 ∷ 90 ∷ []) (omega arith)

total_pot_example :
    (Core.total_pot {E = Unit {0}} (40 ∷ 90 ∷ []) ≡ Core.fitting 130)
    × (Core.sum_contribs (40 ∷ 90 ∷ []) 2 ≡ 130)
total_pot_example = Core.total_pot-fitting (Unit {0}) (40 ∷ 90 ∷ [])

abbrev carrier_address : Ipv4Addr
carrier_address = record { o0 = 100; o1 = 127; o2 = 255; o3 = 254 }

classify_ipv4_example : HasClass (classify_ipv4 carrier_address) (ipv4_number carrier_address)
classify_ipv4_example =
    classify_ipv4-HasClass carrier_address (omega arith) (omega arith) (omega arith) (omega arith)

placeholder_deck_example :
    Returns (placeholder_shuffled_deck {E = Unit {0}} 42) (Rearranges full_deck)
placeholder_deck_example = placeholder_shuffled_deck-Rearranges (Unit {0}) 42
