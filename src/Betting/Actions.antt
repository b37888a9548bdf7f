-- ===== src/Betting/Actions.antt =====
-- game/src/betting.rs: the player actions, `apply`, `advance` and `next_street`.
use ten_cent_poker_client.Prelude.{
  ℕ, suc, zero, Bool, true, false, ◌&&◌, not, Option, none, some, List, [], ◌∷◌, map, ltb, leb,
  ◌==◌, if◌then◌else◌, min, ok, err, ◌>>=◌, ◌>>◌, err_if, replicate, index, write, add64, sub64,
}
use ten_cent_poker_client.Betting.State.{
  Street, preflop, flop, turn, river, Action, fold, check, call, bet, raise, all_in, not_in_action,
  not_your_turn, cannot_check, nothing_to_call, already_bet, below_minimum, raise_not_higher,
  action_not_reopened, insufficient_stack, Seat, is_active, BettingState, Res, num_seats, next_seat,
  next_active, commit, hand_over_by_folds, to_call,
}

-- `self.acted_since_raise[seat] = true`
unfoldable pub mark_acted : BettingState → ℕ → Res BettingState
mark_acted s seat = do
  acted ← write s.acted_since_raise seat true
  ok (record s { acted_since_raise = acted })

-- The loop of `reopen_action`: entry `i` becomes `i == raiser`, with `i` counted from `start`.
unfoldable pub only_raiser : ℕ → ℕ → List Bool → List Bool
only_raiser start raiser [] = []
only_raiser start raiser (acted ∷ rest) = (start == raiser) ∷ only_raiser (suc start) raiser rest

unfoldable pub reopen_action : BettingState → ℕ → BettingState
reopen_action s raiser = record s { acted_since_raise = only_raiser 0 raiser s.acted_since_raise }

unfoldable pub do_fold : BettingState → ℕ → Res BettingState
do_fold s seat = do
  st ← index s.seats seat
  seats ← write s.seats seat (record st { folded = true })
  mark_acted (record s { seats = seats }) seat

unfoldable pub do_check : BettingState → ℕ → Res BettingState
do_check s seat = do
  need ← to_call s seat
  err_if (ltb 0 need) (cannot_check s.current_bet)
  mark_acted s seat

unfoldable pub do_call : BettingState → ℕ → Res BettingState
do_call s seat = do
  need ← to_call s seat
  err_if (need == 0) nothing_to_call
  st ← index s.seats seat
  let pay = min need st.stack
  s₁ ← commit s seat pay
  mark_acted s₁ seat

unfoldable pub do_bet : BettingState → ℕ → ℕ → Res BettingState
do_bet s seat total = do
  err_if (not (s.current_bet == 0)) already_bet
  st ← index s.seats seat
  let is_full_stack = leb st.stack total
  err_if (ltb st.stack total) (insufficient_stack seat st.stack total)
  err_if (ltb total s.big_blind && not is_full_stack) (below_minimum total s.big_blind)
  s₁ ← commit s seat total
  paid ← index s₁.seats seat
  let s₂ = record s₁ { current_bet = paid.committed }
  let s₃ =
      if leb s.big_blind paid.committed
      then reopen_action
          (record s₂ { min_raise = paid.committed; last_full_raise_to = paid.committed }) seat
      else s₂
  mark_acted s₃ seat

unfoldable pub may_reopen : BettingState → ℕ → Res Bool
may_reopen s seat = do acted ← index s.acted_since_raise seat; ok (not acted)

unfoldable pub do_raise : BettingState → ℕ → ℕ → Res BettingState
do_raise s seat target_total = do
  err_if (s.current_bet == 0) nothing_to_call
  may ← may_reopen s seat
  err_if (not may) (action_not_reopened seat)
  err_if (leb target_total s.current_bet) (raise_not_higher target_total s.current_bet)
  st ← index s.seats seat
  needed ← sub64 target_total st.committed
  err_if (ltb st.stack needed) (insufficient_stack seat st.stack needed)
  increment ← sub64 target_total s.current_bet
  let is_full_stack = needed == st.stack
  err_if (ltb increment s.min_raise && not is_full_stack) (below_minimum increment s.min_raise)
  s₁ ← commit s seat needed
  paid ← index s₁.seats seat
  let s₂ = record s₁ { current_bet = paid.committed }
  let s₃ =
      if leb s.min_raise increment
      then reopen_action (record s₂ { min_raise = increment; last_full_raise_to = paid.committed })
          seat
      else s₂
  mark_acted s₃ seat

-- The branch of `do_all_in` in which the shove raises or opens the bet; `s` is the state before
-- the chips moved, `s₁` the state after.
unfoldable pub shove_over : BettingState → BettingState → ℕ → ℕ → Res BettingState
shove_over s s₁ seat new_total = do
  increment ← sub64 new_total s.current_bet
  let opening = s.current_bet == 0
  let s₂ = record s₁ { current_bet = new_total }
  full ← if leb s.min_raise increment then may_reopen s₂ seat else ok false
  ok (
      if full
      then reopen_action (record s₂ { min_raise = increment; last_full_raise_to = new_total }) seat
      else (if opening then reopen_action s₂ seat else s₂))

unfoldable pub do_all_in : BettingState → ℕ → Res BettingState
do_all_in s seat = do
  st ← index s.seats seat
  err_if (st.stack == 0) (insufficient_stack seat st.stack 1)
  new_total ← add64 st.committed st.stack
  s₁ ← commit s seat st.stack
  s₂ ← if ltb s.current_bet new_total then shove_over s s₁ seat new_total else ok s₁
  mark_acted s₂ seat

-- Whether the seat `i` owes a decision: the test of the loop of `advance`.
unfoldable pub owes_decision : BettingState → ℕ → Res Bool
owes_decision s i = do
  st ← index s.seats i
  if is_active st
      then (do
        acted ← index s.acted_since_raise i
        if not acted then ok true else (do need ← to_call s i; ok (ltb 0 need)))
      else ok false

-- The `for` loop of `advance`, with the rounds left.
unfoldable pub scan_owing : BettingState → ℕ → ℕ → Res (Option ℕ)
scan_owing s zero i = ok none
scan_owing s (suc rounds) i = do
  owes ← owes_decision s i
  if owes then ok (some i) else do j ← next_seat s i; scan_owing s rounds j

unfoldable pub advance : BettingState → ℕ → Res BettingState
advance s last = if hand_over_by_folds s then ok (record s { to_act = none }) else do
  i ← next_seat s last
  to_act ← scan_owing s (num_seats s) i
  ok (record s { to_act = to_act })

-- The `match action` of `apply`.
unfoldable pub perform : BettingState → ℕ → Action → Res BettingState
perform s seat fold = do_fold s seat
perform s seat check = do_check s seat
perform s seat call = do_call s seat
perform s seat (bet n) = do_bet s seat n
perform s seat (raise n) = do_raise s seat n
perform s seat all_in = do_all_in s seat

-- `self.to_act.ok_or(NotInAction)?`
abbrev pub acting : Option ℕ → Res ℕ
acting none = err not_in_action
acting (some i) = ok i

unfoldable pub apply : BettingState → ℕ → Action → Res BettingState
apply s seat action = do
  actor ← acting s.to_act
  err_if (not (actor == seat)) (not_your_turn seat)
  s₁ ← perform s seat action
  advance s₁ seat

abbrev pub street_after : Street → Option Street
street_after preflop = some flop
street_after flop = some turn
street_after turn = some river
street_after river = none

abbrev pub uncommit : Seat → Seat
uncommit st = record st { committed = 0 }

-- The part of `next_street` behind the `match` on the street.
unfoldable pub start_street : BettingState → Street → Res (BettingState × Option Street)
start_street s next = do
  let s₁ = record s {
    street = next;
    current_bet = 0;
    min_raise = s.big_blind;
    last_full_raise_to = 0;
    seats = map uncommit s.seats;
    acted_since_raise = replicate (num_seats s) false;
  }
  to_act ← next_active s₁ s.button false
  ok (record s₁ { to_act = to_act }, some next)

-- `next_street`: the new state, and the street that it returns.
unfoldable pub next_street : BettingState → Res (BettingState × Option Street)
next_street s = elim (street_after s.street) [
  | none ↦ ok (s, none)
  | some next ↦ start_street s next
]
