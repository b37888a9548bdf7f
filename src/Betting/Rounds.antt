-- ===== src/Betting/Rounds.antt =====
-- `BettingState::new` and `next_street`: the states at the start of a hand and of a street.
use ten_cent_poker_client.Prelude.{
  ℕ, ◌+◌, ◌%◌, ◌≤◌, ◌<◌, ◌≡◌, refl, Bool, true, false, Option, none, some, inl, inr, List, [], ◌∷◌,
  map, arith, ok, length-map, length-replicate, replicate, All, sum_of, Returns, Returns-bind,
  Option-cases, ◌⊎◌, ap, ◌∙◌, sym,
}
use ten_cent_poker_client.Betting.State.{Seat, Street, BettingState, num_seats, next_active}
use ten_cent_poker_client.Betting.Actions.{street_after, uncommit, start_street, next_street}
use ten_cent_poker_client.Betting.Invariant.{
  chips_of, IsTurn, IsSound, IsValid, next_seat-ok, next_seat-lt, scan_active-IsTurn,
}
use ten_cent_poker_client.Betting.Apply.{table_chips}

pub next_active-IsTurn :
    (s : BettingState) (from : ℕ) (include_from : Bool)
    → from < num_seats s
    → num_seats s ≤ 9
    → Returns (next_active s from include_from) (IsTurn s.seats)
unfolding next_active
next_active-IsTurn s from true lt small = scan_active-IsTurn s (num_seats s) from lt small
next_active-IsTurn s from false lt small =
    rw (next_seat-ok s from lt small)
      (scan_active-IsTurn s (num_seats s) ((from + 1) % num_seats s) (next_seat-lt s from lt) small)

covered-uncommit :
    (b : ℕ) (seats : List Seat) → All (λ (st : Seat). st.committed ≤ b) (map uncommit seats)
covered-uncommit b [] = tt
covered-uncommit b (x ∷ seats) = (omega arith, covered-uncommit b seats)

counted-uncommit :
    (seats : List Seat)
    → All (λ (st : Seat). st.committed ≤ st.total_committed) (map uncommit seats)
counted-uncommit [] = tt
counted-uncommit (x ∷ seats) = (omega arith, counted-uncommit seats)

chips-uncommit : (seats : List Seat) → sum_of chips_of (map uncommit seats) ≡ sum_of chips_of seats
chips-uncommit [] = refl
chips-uncommit (x ∷ seats) = ap (λ (t : ℕ). chips_of x + t) (chips-uncommit seats)

-- The state at the start of the street `next`, after `s`.
pub record StreetStarted (s : BettingState) (next : Street) (t : BettingState) : Type 0 where
  pub valid : IsValid t
  pub at_street : t.street ≡ next
  pub seats : t.seats ≡ map uncommit s.seats
  pub chips : table_chips t ≡ table_chips s
  pub no_bet : t.current_bet ≡ 0
  pub min_raise : t.min_raise ≡ s.big_blind
  pub nobody_acted : t.acted_since_raise ≡ replicate (num_seats s) false
  pub same_button : t.button ≡ s.button

started-IsSound :
    (s : BettingState) (next : Street) (turn : Option ℕ)
    → IsSound s
    → IsSound (record s {
      street = next;
      current_bet = 0;
      min_raise = s.big_blind;
      last_full_raise_to = 0;
      seats = map uncommit s.seats;
      acted_since_raise = replicate (num_seats s) false;
      to_act = turn;
    })
started-IsSound s next turn h =
    let same = length-map s.seats uncommit in
    record {
      seats_min = omega (arith, same, h.seats_min);
      seats_max = omega (arith, same, h.seats_max);
      button_lt = omega (arith, same, h.button_lt);
      acted_len = length-replicate (num_seats s) false ∙ sym same;
      covered = covered-uncommit 0 s.seats;
      counted = counted-uncommit s.seats;
      chips_fit = rw (chips-uncommit s.seats) h.chips_fit;
    }

pub start_street-Started :
    (s : BettingState) (next : Street)
    → IsValid s
    → Returns (start_street s next) (λ p. (p.1 ≡ some next) × StreetStarted s next p.0)
unfolding start_street
start_street-Started s next v =
    let fresh = started-IsSound s next s.to_act v.sound in
    Returns-bind (IsTurn (map uncommit s.seats)) _ _ _
      (next_active-IsTurn _ s.button false fresh.button_lt fresh.seats_max)
      (λ turn is_turn. (
        refl,
        record {
          valid = record { sound = started-IsSound s next turn v.sound; turn = is_turn };
          at_street = refl;
          seats = refl;
          chips = chips-uncommit s.seats;
          no_bet = refl;
          min_raise = refl;
          nobody_acted = refl;
          same_button = refl;
        },
      ))

-- From a valid state: after the river there is no next street and the state stays; before it the
-- next street starts, with a valid state, the bets of the last street cleared, no bet, nobody having
-- acted, and the chips of the table kept.
pub next_street_lem :
    (s : BettingState)
    → IsValid s
    → ((street_after s.street ≡ none) × (next_street s ≡ ok (s, none)))
      ⊎ ((next : Street) × (street_after s.street ≡ some next)
          × Returns (next_street s) (λ p. (p.1 ≡ some next) × StreetStarted s next p.0))
unfolding next_street
next_street_lem s v = elim (Option-cases (street_after s.street)) [
  | inl last ↦ inl (last, rw (last, next_street))
  | inr (next, e) ↦ inr (next, e, rw (e, next_street) (start_street-Started s next v))
]
