-- ===== src/Protocol/Table/Advance.antt =====
-- protocol/src/table.rs: `advance_streets_and_settle`, what follows an action.
use ten_cent_poker_client.Prelude.{ℕ, zero, suc, Bool, true, false, not, if◌then◌else◌, some, panic}
use ten_cent_poker_client.Prelude.Exec.{pure, lift, gets, modify, maybe, when, map_err, ◌>>=◌, ◌>>◌}
use ten_cent_poker_client.Prelude.Map.{is_some}
use ten_cent_poker_client.Betting.State.{
  BettingState, hand_over_by_folds, round_closed, betting_complete_for_hand,
}
use ten_cent_poker_client.Betting.Actions.{next_street}
use ten_cent_poker_client.Protocol.Setting.{Setting, betting}
use ten_cent_poker_client.Protocol.Table.{Running, put_live, the_live, is_mental}
use ten_cent_poker_client.Protocol.Table.Settle.{settle, deal_street_event}
use ten_cent_poker_client.Protocol.Table.Pump.{pump_mental}

module _ (W : Setting) where
  unfoldable pub set_betting : BettingState → Running W (Unit {0})
  set_betting b = do live ← the_live W; modify (put_live W (some (record live { betting = b })))

  -- The `loop` of `advance_streets_and_settle`, with the rounds left: whether it breaks, so that the
  -- betting is over, or returns; `panic` when the rounds run out.
  unfoldable pub advance_streets : ℕ → Running W Bool
  advance_streets zero = lift panic
  advance_streets (suc rounds) = do
    live ← the_live W
    let again = advance_streets rounds
    let next_round : Running W Bool = do
      moved ← lift (map_err betting (next_street live.betting))
      set_betting moved.0
      maybe moved.1 (pure true) λ street.
          let revealed : Running W Bool = pump_mental W >> pure false in
          let dealt : Running W Bool = deal_street_event W street >> again in
          if is_mental W live.deal then revealed else dealt
    let closed = if betting_complete_for_hand live.betting then pure true else next_round
    let played = if not (round_closed live.betting) then pure false else closed
    if hand_over_by_folds live.betting then pure true else played

  -- Every round but the last starts a street, and there are three to start, so four are enough.
  unfoldable pub advance_streets_and_settle : Running W (Unit {0})
  advance_streets_and_settle = do
    there ← gets (λ s. is_some s.table.live)
    over ← if there then advance_streets 4 else pure false
    when over (do
      live ← the_live W
      let deferred = do
        modify (put_live W (some (record live { pending_settle = true })))
        pump_mental W
      if is_mental W live.deal then deferred else settle W)
