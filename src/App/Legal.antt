-- ===== src/App/Legal.antt =====
-- app/src/gui_state.rs and app/src/freeplay/conn.rs: the actions that the client offers to the local
-- player, and the action that it sends for a choice.
use ten_cent_poker_client.Prelude.{
  ℕ, Bool, true, false, ◌&&◌, Option, none, some, ltb, leb, ◌==◌, if◌then◌else◌, min, ok, ◌>>=◌,
  index, add64,
}
use ten_cent_poker_client.Betting.State.{Res, BettingState, to_call}
use ten_cent_poker_client.Protocol.Bot.{WireAction, fold, check, call, bet, raise, all_in}

pub record LegalActions : Type 0 where
  pub can_check : Bool
  pub can_call : Bool
  pub call_amount : ℕ
  pub call_is_all_in : Bool
  pub can_bet : Bool
  pub can_raise : Bool
  pub can_all_in : Bool
  pub min_bet : ℕ
  pub min_raise_to : ℕ
  pub max_to : ℕ

-- `LegalActions::default()`
unfoldable pub no_actions : LegalActions
no_actions = record {
  can_check = false;
  can_call = false;
  call_amount = 0;
  call_is_all_in = false;
  can_bet = false;
  can_raise = false;
  can_all_in = false;
  min_bet = 0;
  min_raise_to = 0;
  max_to = 0;
}

unfoldable pub compute_legal : BettingState → ℕ → Res LegalActions
compute_legal b seat = do
  owed ← to_call b seat
  st ← index b.seats seat
  raise_to ← add64 b.current_bet b.min_raise
  whole ← add64 st.stack st.committed
  let can_call = ltb 0 owed && ltb 0 st.stack
  ok (record {
    can_check = owed == 0;
    can_call = can_call;
    call_amount = owed;
    call_is_all_in = can_call && leb st.stack owed;
    can_bet = (b.current_bet == 0) && ltb 0 st.stack;
    can_raise = ltb 0 b.current_bet && ltb owed st.stack;
    can_all_in = ltb 0 st.stack;
    min_bet = min b.big_blind st.stack;
    min_raise_to = min raise_to whole;
    max_to = whole;
  })

-- A choice of the player, with the total that a bet or a raise goes to.
pub data Act : Type 0 where
  fold_act check_call_act : Act
  bet_act : ℕ → Act
  raise_act : ℕ → Act
  all_in_act : Act

abbrev pub max : ℕ → ℕ → ℕ
max a b = if leb a b then b else a

-- `n.clamp(lo, hi)` where `lo` is at most `hi`.
unfoldable pub clamp : ℕ → ℕ → ℕ → ℕ
clamp n lo hi = if ltb n lo then lo else (if ltb hi n then hi else n)

-- `b.then_some(a)`
abbrev pub only_if : {A : Type 0} → Bool → A → Option A
only_if true a = some a
only_if false a = none

unfoldable pub map_action : Act → LegalActions → Option WireAction
map_action fold_act legal = some fold
map_action check_call_act legal =
    if legal.can_check
    then some check
    else (if legal.call_is_all_in then some all_in else only_if legal.can_call call)
map_action (bet_act n) legal =
    only_if legal.can_bet (bet (clamp n legal.min_bet (max legal.max_to legal.min_bet)))
map_action (raise_act n) legal =
    only_if legal.can_raise
      (raise (clamp n legal.min_raise_to (max legal.max_to legal.min_raise_to)))
map_action all_in_act legal = only_if legal.can_all_in all_in
