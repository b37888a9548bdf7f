-- ===== src/Examples/Tables.antt =====
-- The tables and hands of the examples.
use ten_cent_poker_client.Prelude.{
  ℕ, ◌≡◌, refl, Bool, true, false, Option, none, some, ok, List, [], ◌∷◌, arith, index, sub64,
  write, add64, rem64,
}
use ten_cent_poker_client.Cards.{
  amount_to_call, Card, clubs, diamonds, hearts, spades, two, five, nine, ten, queen, king, ace,
}
use ten_cent_poker_client.Betting.State.{
  Seat, BettingState, preflop, hand_over_by_folds, players_remaining, next_seat, is_active, to_call,
  check,
}
use ten_cent_poker_client.Betting.Actions.{
  apply, perform, do_check, mark_acted, advance, scan_owing, owes_decision,
}
use ten_cent_poker_client.Betting.Invariant.{IsValid}
use ten_cent_poker_client.Showdown.Defs.{Hole}

abbrev pub seat_with : ℕ → ℕ → Seat
seat_with stack committed = record {
  stack = stack;
  committed = committed;
  total_committed = committed;
  folded = false;
  is_all_in = false;
}

-- Three seats with 1000 chips each, the button at seat 0, behind the blinds of 5 and 10.
abbrev pub three_seats : BettingState
three_seats = record {
  seats = seat_with 1000 0 ∷ seat_with 995 5 ∷ seat_with 990 10 ∷ [];
  button = 0;
  small_blind = 5;
  big_blind = 10;
  street = preflop;
  current_bet = 10;
  min_raise = 10;
  last_full_raise_to = 10;
  to_act = some 0;
  acted_since_raise = false ∷ false ∷ false ∷ [];
}

pub three_seats-IsValid : IsValid three_seats
unfolding is_active
three_seats-IsValid = record {
  sound = record {
    seats_min = omega arith;
    seats_max = omega arith;
    button_lt = omega arith;
    acted_len = refl;
    covered = (omega arith, (omega arith, (omega arith, tt)));
    counted = (omega arith, (omega arith, (omega arith, tt)));
    chips_fit = omega arith;
  };
  turn = (seat_with 1000 0, refl, refl);
}

-- Heads-up, the button has called and the big blind is to speak; behind its check the round closes.
abbrev pub big_blind_to_act : Option ℕ → Bool → BettingState
big_blind_to_act turn acted = record {
  seats = seat_with 990 10 ∷ seat_with 990 10 ∷ [];
  button = 0;
  small_blind = 5;
  big_blind = 10;
  street = preflop;
  current_bet = 10;
  min_raise = 10;
  last_full_raise_to = 10;
  to_act = turn;
  acted_since_raise = true ∷ acted ∷ [];
}

pub heads_up-IsValid : IsValid (big_blind_to_act (some 1) false)
unfolding is_active
heads_up-IsValid = record {
  sound = record {
    seats_min = omega arith;
    seats_max = omega arith;
    button_lt = omega arith;
    acted_len = refl;
    covered = (omega arith, (omega arith, tt));
    counted = (omega arith, (omega arith, tt));
    chips_fit = omega arith;
  };
  turn = (seat_with 990 10, refl, refl);
}

pub check-closes : apply (big_blind_to_act (some 1) false) 1 check ≡ ok (big_blind_to_act none true)
unfolding apply perform do_check mark_acted to_call advance hand_over_by_folds index amount_to_call
    sub64 write players_remaining next_seat add64 rem64 scan_owing owes_decision is_active
check-closes = refl

pub closed-goes_on : hand_over_by_folds (big_blind_to_act none true) ≡ false
unfolding hand_over_by_folds players_remaining
closed-goes_on = refl

abbrev pub board : List Card
board =
    record { rank = ace; suit = spades }
    ∷ record { rank = king; suit = spades }
    ∷ record { rank = two; suit = hearts }
    ∷ record { rank = nine; suit = clubs }
    ∷ record { rank = five; suit = diamonds }
    ∷ []

abbrev pub queens : Hole
queens = (record { rank = queen; suit = hearts }, record { rank = queen; suit = clubs })

abbrev pub tens : Hole
tens = (record { rank = ten; suit = hearts }, record { rank = ten; suit = clubs })
