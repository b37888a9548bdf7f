-- ===== src/Betting/Apply.antt =====
-- `BettingState::apply` on a valid state: what holds after every action, and when it is refused.
use ten_cent_poker_client.Prelude.{
  ok, ℕ, ◌+◌, ◌%◌, ◌≤◌, ◌<◌, ◌≡◌, ◌≢◌, refl, true, false, not, Option, none, some, inl, inr, List,
  [], ◌∷◌, arith, err, ◌>>=◌, get_elem?, get_elem?-set_ne, All, All-set, length-set, sum_of,
  sum_of-set, Returns, Returns-mono, Safe, Safe-bind, get_elem?-some-lt, Safe-of-Returns,
  Bool-cases, err_if, ◌>>◌, Option-cases, ◌⊎◌, ==→eq, ==_refl, ◌==◌, ap, ◌∙◌, sym, subst,
}
use ten_cent_poker_client.Betting.State.{
  Seat, Res, is_active, BettingState, num_seats, Action, not_in_action, not_your_turn,
  hand_over_by_folds, players_remaining,
}
use ten_cent_poker_client.Betting.Actions.{perform, advance, apply, acting}
use ten_cent_poker_client.Betting.Invariant.{chips_of, IsSound, IsTurn, IsValid}
use ten_cent_poker_client.Betting.Turns.{Owes, IsFirstOwing, advance-Returns, none_owing}
use ten_cent_poker_client.Betting.Moves.{Moved, Done, perform-Done}

-- All the chips of the hand: in front of the players and in the pot.
abbrev pub table_chips : BettingState → ℕ
table_chips s = sum_of chips_of s.seats

All-le-grow :
    (a b : ℕ) (seats : List Seat)
    → a ≤ b
    → All (λ (st : Seat). st.committed ≤ a) seats
    → All (λ (st : Seat). st.committed ≤ b) seats
All-le-grow a b [] le h = tt
All-le-grow a b (x ∷ seats) le h = (omega (arith, h.0), All-le-grow a b seats le h.1)

module _ {s t : BettingState} {i : ℕ} (m : Moved s i t) where
  -- A step on one seat neither makes nor loses chips.
  pub Moved-table_chips : table_chips t ≡ table_chips s
  Moved-table_chips =
      rw m.seats (omega (arith, sum_of-set chips_of s.seats i m.now m.found, m.chips))

  pub Moved-others : (j : ℕ) → i ≢ j → get_elem? t.seats j ≡ get_elem? s.seats j
  Moved-others j ne = rw m.seats (get_elem?-set_ne s.seats m.now ne)

  Moved-num_seats : num_seats t ≡ num_seats s
  Moved-num_seats = rw m.seats (length-set s.seats i m.now)

  pub Moved-IsSound : IsSound s → IsSound t
  Moved-IsSound h = record {
    seats_min = rw Moved-num_seats h.seats_min;
    seats_max = rw Moved-num_seats h.seats_max;
    button_lt = rw (Moved-num_seats, m.same_button) h.button_lt;
    acted_len = m.acted_len ∙ h.acted_len ∙ sym Moved-num_seats;
    covered = rw m.seats (
        All-set (λ (st : Seat). st.committed ≤ t.current_bet) s.seats i m.now
          (All-le-grow s.current_bet t.current_bet s.seats m.bet_grows h.covered) m.covers);
    counted = rw m.seats (
        All-set (λ (st : Seat). st.committed ≤ st.total_committed) s.seats i m.now h.counted
          m.counts);
    chips_fit = rw Moved-table_chips h.chips_fit;
  }

-- What holds of the state `t` after an action of `seat` that succeeds in the state `s`.
pub record Applied (s : BettingState) (seat : ℕ) (t : BettingState) : Type 0 where
  pub was_turn : s.to_act ≡ some seat
  pub valid : IsValid t
  pub chips : table_chips t ≡ table_chips s
  pub others : (j : ℕ) → seat ≢ j → get_elem? t.seats j ≡ get_elem? s.seats j
  pub bet_grows : s.current_bet ≤ t.current_bet
  pub acted : get_elem? t.acted_since_raise seat ≡ some true
  pub passed :
      ((hand_over_by_folds t ≡ false)
        × IsFirstOwing t ((seat + 1) % num_seats t) (num_seats t) t.to_act)
      ⊎ ((hand_over_by_folds t ≡ true) × (t.to_act ≡ none))

hand_over-frame :
    (s : BettingState) (o : Option ℕ)
    → hand_over_by_folds (record s { to_act = o }) ≡ hand_over_by_folds s
unfolding hand_over_by_folds players_remaining
hand_over-frame s o = refl

IsSound-frame : (s : BettingState) (o : Option ℕ) → IsSound s → IsSound (record s { to_act = o })
IsSound-frame s o h = record {
  seats_min = h.seats_min;
  seats_max = h.seats_max;
  button_lt = h.button_lt;
  acted_len = h.acted_len;
  covered = h.covered;
  counted = h.counted;
  chips_fit = h.chips_fit;
}

module _ (s : BettingState) (seat : ℕ) where
  -- What `apply` does for each value of `to_act`.
  after_turn : Action → ℕ → Res BettingState
  after_turn a actor = do
    err_if (not (actor == seat)) (not_your_turn seat)
    u ← perform s seat a
    advance u seat

  apply-after_turn : (a : Action) → apply s seat a ≡ (acting s.to_act >>= after_turn a)
  unfolding apply after_turn
  apply-after_turn a = refl

  pub apply_nobody : (a : Action) → s.to_act ≡ none → apply s seat a ≡ err not_in_action
  apply_nobody a e = apply-after_turn a ∙ ap (λ (o : Option ℕ). acting o >>= after_turn a) e

  pub apply_wrong :
      (actor : ℕ) (a : Action)
      → s.to_act ≡ some actor
      → (actor == seat) ≡ false
      → apply s seat a ≡ err (not_your_turn seat)
  unfolding after_turn
  apply_wrong actor a e wrong =
      apply-after_turn a ∙ ap (λ (o : Option ℕ). acting o >>= after_turn a) e ∙ rw wrong

  pub apply_in_turn :
      (a : Action)
      → s.to_act ≡ some seat
      → apply s seat a ≡ (perform s seat a >>= λ u. advance u seat)
  unfolding after_turn
  apply_in_turn a e =
      apply-after_turn a ∙ ap (λ (o : Option ℕ). acting o >>= after_turn a) e ∙ rw (==_refl seat)

module _ (s : BettingState) (v : IsValid s) (seat : ℕ) where
  -- The end of `apply`, after the action itself.
  pub advance-Applied :
      (u : BettingState) (turn : s.to_act ≡ some seat) (st : Seat)
      → get_elem? s.seats seat ≡ some st
      → Moved s seat u × (get_elem? u.acted_since_raise seat ≡ some true)
      → Returns (advance u seat) (Applied s seat)
  advance-Applied u turn st e (m, acted) =
      let sound = Moved-IsSound m v.sound in
      let lt : seat < num_seats u = rw (Moved-num_seats m) (get_elem?-some-lt s.seats seat e) in
      Returns-mono _ (Applied s seat) (advance u seat) (advance-Returns u sound seat lt)
        (λ t (same, turn', over, up).
          subst (λ (w : BettingState). Applied s seat w) (sym same)
            (record {
              was_turn = turn;
              valid = record { sound = IsSound-frame u t.to_act sound; turn = turn' };
              chips = Moved-table_chips m;
              others = Moved-others m;
              bet_grows = m.bet_grows;
              acted = acted;
              passed = elim (Bool-cases (hand_over_by_folds u)) [
                | inl closed ↦ inr (hand_over-frame u t.to_act ∙ closed, over closed)
                | inr open_hand ↦ inl (hand_over-frame u t.to_act ∙ open_hand, up open_hand)
              ];
            }))

  pub turn_seat :
      (turn : s.to_act ≡ some seat)
      → (st : Seat) × (get_elem? s.seats seat ≡ some st) × (is_active st ≡ true)
  turn_seat turn = subst (IsTurn s.seats) turn v.turn

  -- On a valid state `apply` never panics, whatever the seat and the action. When it succeeds it was
  -- the seat's turn, the state behind it is valid, the chips of the table are the same, no other seat
  -- has changed, the bet has not gone down, the seat has acted, and the turn is with the first seat
  -- that owes a decision, or with nobody once all but one have folded.
  pub apply-Applied : (a : Action) → Safe (apply s seat a) (Applied s seat)
  apply-Applied a = elim (Option-cases s.to_act) [
    | inl nobody ↦ rw (apply_nobody s seat a nobody) tt
    | inr (actor, e) ↦ elim (Bool-cases (actor == seat)) [
      | inr wrong ↦ rw (apply_wrong s seat actor a e wrong) tt
      | inl right ↦
          let turn : s.to_act ≡ some seat = e ∙ ap some (==→eq actor seat right) in
          let (st, found, active) = turn_seat turn in
          rw (apply_in_turn s seat a turn) (
            Safe-bind (Done s v.sound seat st found) (Applied s seat) (perform s seat a)
              (λ u. advance u seat) (perform-Done s v.sound seat st found a)
              (λ u d.
                Safe-of-Returns (Applied s seat) (advance u seat)
                  (advance-Applied u turn st found d)))
    ]
  ]

-- When an action on a valid state succeeds and leaves the turn with nobody although the hand is not
-- over by folds, no seat of the table owes a decision.
pub apply_closes :
    (s : BettingState) (seat : ℕ) (a : Action) (t : BettingState)
    → IsValid s
    → apply s seat a ≡ ok t
    → hand_over_by_folds t ≡ false
    → t.to_act ≡ none
    → (j : ℕ) → j < num_seats t
    → ¬ Owes t j
apply_closes s seat a t v e open_hand closed =
    let p : Applied s seat t =
      subst (λ (m : Res BettingState). Safe m (Applied s seat)) e (apply-Applied s v seat a) in
    let n = num_seats t in
    let lt : seat < n =
      omega (arith, get_elem?-some-lt t.acted_since_raise seat p.acted, p.valid.sound.acted_len) in
    elim p.passed [
      | inr (over, nobody) ↦ cc (over, open_hand)
      | inl (same, first) ↦
          none_owing t ((seat + 1) % n) (grind arith)
            (subst (IsFirstOwing t ((seat + 1) % n) n) closed first)
    ]
