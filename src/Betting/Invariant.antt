-- ===== src/Betting/Invariant.antt =====
-- What holds of a betting state between two calls of its methods, and the loops that look for the
-- next seat.
use ten_cent_poker_client.Prelude.{
  ℕ, suc, zero, ◌+◌, ◌%◌, ◌≤◌, ◌<◌, ◌≡◌, true, Option, none, some, inl, inr, arith, ok, length,
  get_elem?, get_elem?-lt, All, sum_of, u64_mod, Returns, index-ok, add64-ok, rem64-ok, Bool-cases,
  List,
}
use ten_cent_poker_client.Betting.State.{
  Seat, is_active, BettingState, num_seats, next_seat, scan_active,
}

-- A seat's chips: those in front of the player and those put into the pot this hand.
abbrev pub chips_of : Seat → ℕ
chips_of st = st.stack + st.total_committed

-- The seat to act, if there is one, is a seat of the table that can act.
abbrev pub IsTurn : List Seat → Option ℕ → Type 0
IsTurn seats none = Unit
IsTurn seats (some i) = (st : Seat) × (get_elem? seats i ≡ some st) × (is_active st ≡ true)

-- The part of the invariant that does not speak of whose turn it is.
pub record IsSound (s : BettingState) : Type 0 where
  pub seats_min : 2 ≤ num_seats s
  pub seats_max : num_seats s ≤ 9
  pub button_lt : s.button < num_seats s
  pub acted_len : length s.acted_since_raise ≡ num_seats s
  pub covered : All (λ (st : Seat). st.committed ≤ s.current_bet) s.seats
  pub counted : All (λ (st : Seat). st.committed ≤ st.total_committed) s.seats
  pub chips_fit : sum_of chips_of s.seats < u64_mod

pub record IsValid (s : BettingState) : Type 0 where
  pub sound : IsSound s
  pub turn : IsTurn s.seats s.to_act

module _ (s : BettingState) where
  pub next_seat-ok :
      (from : ℕ)
      → from < num_seats s
      → num_seats s ≤ 9
      → next_seat s from ≡ ok ((from + 1) % num_seats s)
  unfolding next_seat
  next_seat-ok from lt small =
      rw (add64-ok from 1 (omega arith), rem64-ok (from + 1) (num_seats s) (omega arith))

  pub next_seat-lt : (from : ℕ) → from < num_seats s → (from + 1) % num_seats s < num_seats s
  next_seat-lt from lt = grind arith

  -- The loop of `next_active` stays in range and stops at a seat that can act.
  pub scan_active-IsTurn :
      (rounds i : ℕ)
      → i < num_seats s
      → num_seats s ≤ 9
      → Returns (scan_active s rounds i) (IsTurn s.seats)
  unfolding scan_active
  scan_active-IsTurn zero i lt small = tt
  scan_active-IsTurn (suc rounds) i lt small =
      let (st, e) = get_elem?-lt s.seats i lt in
      rw (index-ok s.seats i e) (elim (Bool-cases (is_active st)) [
        | inl active ↦ rw active (st, e, active)
        | inr idle ↦
            rw (idle, next_seat-ok i lt small)
              (scan_active-IsTurn rounds ((i + 1) % num_seats s) (next_seat-lt i lt) small)
      ])
