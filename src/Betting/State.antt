-- ===== src/Betting/State.antt =====
-- game/src/betting.rs: the betting state of one hand, its queries, and the moves of chips.
-- A call that Rust's overflow or bounds checks would stop is `panic`.
use ten_cent_poker_client.Prelude.{
  ℕ, suc, zero, Bool, true, false, ◌&&◌, not, Option, none, some, List, map, leb, ◌==◌,
  if◌then◌else◌, min, Outcome, ok, err, ◌>>=◌, length, keep, replicate, index, write, add64, sub64,
  rem64,
}
use ten_cent_poker_client.Cards.{amount_to_call}

pub data Street : Type 0 where
  preflop flop turn river : Street

pub data Action : Type 0 where
  fold check call : Action
  bet : ℕ → Action
  raise : ℕ → Action
  all_in : Action

pub data BettingError : Type 0 where
  not_in_action : BettingError
  not_your_turn : ℕ → BettingError
  -- the current bet
  cannot_check : ℕ → BettingError
  nothing_to_call : BettingError
  already_bet : BettingError
  -- what was requested, and the minimum
  below_minimum : ℕ → ℕ → BettingError
  -- the target, and the current bet
  raise_not_higher : ℕ → ℕ → BettingError
  action_not_reopened : ℕ → BettingError
  -- the seat, its stack, and what was needed
  insufficient_stack : ℕ → ℕ → ℕ → BettingError
  invalid_seat_count : ℕ → BettingError

pub record Seat : Type 0 where
  pub stack : ℕ
  pub committed : ℕ
  pub total_committed : ℕ
  pub folded : Bool
  pub is_all_in : Bool

-- `Seat::new` and `Seat::active`.
unfoldable pub new_seat : ℕ → Seat
new_seat stack = record {
  stack = stack;
  committed = 0;
  total_committed = 0;
  folded = false;
  is_all_in = false;
}

unfoldable pub is_active : Seat → Bool
is_active s = not s.folded && not s.is_all_in

pub record BettingState : Type 0 where
  pub seats : List Seat
  pub button : ℕ
  pub small_blind : ℕ
  pub big_blind : ℕ
  pub street : Street
  pub current_bet : ℕ
  pub min_raise : ℕ
  pub last_full_raise_to : ℕ
  pub to_act : Option ℕ
  pub acted_since_raise : List Bool

-- What a method that may fail returns. An error comes before the first write of every method, so
-- the state behind an `err` is the state before the call.
abbrev pub Res : Type 0 → Type 0
Res = Outcome BettingError

abbrev pub num_seats : BettingState → ℕ
num_seats s = length s.seats

unfoldable pub next_seat : BettingState → ℕ → Res ℕ
next_seat s from = do j ← add64 from 1; rem64 j (num_seats s)

-- The `for` loop of `next_active`, with the rounds left and the seat `i` looked at.
unfoldable pub scan_active : BettingState → ℕ → ℕ → Res (Option ℕ)
scan_active s zero i = ok none
scan_active s (suc rounds) i = do
  st ← index s.seats i
  if is_active st then ok (some i) else do j ← next_seat s i; scan_active s rounds j

unfoldable pub next_active : BettingState → ℕ → Bool → Res (Option ℕ)
next_active s from include_from = do
  start ← if include_from then ok from else next_seat s from
  scan_active s (num_seats s) start

-- The three assignments and the all-in flag that `post_blind` and `commit` share.
unfoldable pub move_chips : Seat → ℕ → Res Seat
move_chips st amount = do
  stack ← sub64 st.stack amount
  committed ← add64 st.committed amount
  total_committed ← add64 st.total_committed amount
  ok (record st {
    stack = stack;
    committed = committed;
    total_committed = total_committed;
    is_all_in = if stack == 0 then true else st.is_all_in;
  })

unfoldable pub commit : BettingState → ℕ → ℕ → Res BettingState
commit s seat amount = do
  st ← index s.seats seat
  paid ← move_chips st amount
  seats ← write s.seats seat paid
  ok (record s { seats = seats })

unfoldable pub post_blind : BettingState → ℕ → ℕ → Res BettingState
post_blind s seat amount = do
  st ← index s.seats seat
  let pay = min amount st.stack
  commit s seat pay

-- Who posts the small and the big blind.
unfoldable pub blind_seats : BettingState → Res (ℕ × ℕ)
blind_seats s =
    if num_seats s == 2
    then (do other ← next_seat s s.button; ok (s.button, other))
    else do sb ← next_seat s s.button; bb ← next_seat s sb; ok (sb, bb)

unfoldable pub post_blinds : BettingState → Res BettingState
post_blinds s = do
  blinds ← blind_seats s
  s₁ ← post_blind s blinds.0 s.small_blind
  s₂ ← post_blind s₁ blinds.1 s.big_blind
  let s₃ = record s₂ {
    current_bet = s.big_blind;
    min_raise = s.big_blind;
    last_full_raise_to = s.big_blind;
  }
  first ← if num_seats s == 2 then ok blinds.0 else next_seat s₃ blinds.1
  to_act ← next_active s₃ first true
  ok (record s₃ { to_act = to_act; acted_since_raise = replicate (num_seats s) false })

-- `BettingState::new`.
unfoldable pub new : List ℕ → ℕ → ℕ → ℕ → Res BettingState
new stacks button small_blind big_blind =
    let n = length stacks in
    if leb 2 n && leb n 9
    then (do
      b ← rem64 button n
      post_blinds (record {
        seats = map new_seat stacks;
        button = b;
        small_blind = small_blind;
        big_blind = big_blind;
        street = preflop;
        current_bet = 0;
        min_raise = big_blind;
        last_full_raise_to = 0;
        to_act = none;
        acted_since_raise = replicate n false;
      }))
    else err (invalid_seat_count n)

unfoldable pub players_remaining : BettingState → ℕ
players_remaining s = length (keep (λ st. not st.folded) s.seats)

unfoldable pub hand_over_by_folds : BettingState → Bool
hand_over_by_folds s = leb (players_remaining s) 1

unfoldable pub to_call : BettingState → ℕ → Res ℕ
to_call s seat = do st ← index s.seats seat; amount_to_call s.current_bet st.committed

unfoldable pub contributions : BettingState → List ℕ
contributions s = map (λ (st : Seat). st.total_committed) s.seats

unfoldable pub folded_flags : BettingState → List Bool
folded_flags s = map (λ (st : Seat). st.folded) s.seats

abbrev pub is_none : Option ℕ → Bool
is_none none = true
is_none (some i) = false

unfoldable pub round_closed : BettingState → Bool
round_closed s = is_none s.to_act

unfoldable pub betting_complete_for_hand : BettingState → Bool
betting_complete_for_hand s =
    if hand_over_by_folds s
    then true
    else (leb (length (keep is_active s.seats)) 1 && round_closed s)
