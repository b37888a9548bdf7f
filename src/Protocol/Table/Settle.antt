-- ===== src/Protocol/Table/Settle.antt =====
-- protocol/src/table.rs: `settle`. The deck of a placeholder hand has 52 cards, more than a hand
-- takes, so dealing a street does not fail; an error of it leaves the board without the street.
use ten_cent_poker_client.Prelude.{
  ℕ, zero, suc, ltb, if◌then◌else◌, not, Option, none, some, panic, length,
}
use Prim.Native.Nat.{max}
use ten_cent_poker_client.Prelude.Exec.{pure, lift, modify, maybe, when, map_err, ◌>>=◌, ◌>>◌}
use ten_cent_poker_client.Betting.State.{Street, hand_over_by_folds}
use ten_cent_poker_client.Betting.Actions.{street_after}
use ten_cent_poker_client.Hand.Dealing.{deal_community_street}
use ten_cent_poker_client.Protocol.Setting.{Setting, dealing}
use ten_cent_poker_client.Protocol.Table.{
  placeholder, mental, Deal, LiveHand, is_mental, Running, put_live, push_event, the_live, if_live,
  street_dealt, hand_ended,
}
use ten_cent_poker_client.Protocol.Table.Result.{hand_outcome}

module _ (W : Setting) where
  -- `deal_community_street(street, deck, deck_idx, &mut live.community)?` on a placeholder hand, and
  -- the event; nothing on a mental one.
  unfoldable pub deal_onto : LiveHand W → Deal W → Street → Running W (Unit {0})
  deal_onto live (mental m) street = pure tt
  deal_onto live (placeholder seed deck deck_idx hole) street = do
    dealt ← lift (map_err dealing (deal_community_street street deck deck_idx live.community))
    modify (
        put_live W
          (some (record live { deal = placeholder seed deck dealt.0 hole; community = dealt.1 })))
    push_event W (street_dealt live.hand_no street)

  unfoldable pub deal_street_event : Street → Running W (Unit {0})
  deal_street_event street = do live ← the_live W; deal_onto live live.deal street

  -- The `while` loop, with the rounds left; `panic` when they run out.
  unfoldable pub run_out : ℕ → Street → Running W (Unit {0})
  run_out zero street = lift panic
  run_out (suc rounds) street = do
    live ← the_live W
    let more =
        maybe (street_after street) (pure tt) λ next. do deal_street_event next; run_out rounds next
    if ltb (length live.community) 5 then more else pure tt

  -- The run-out of `settle`. A hand has three streets after the first, and the fourth round leaves
  -- the loop.
  unfoldable pub run_out_placeholder : LiveHand W → Running W (Unit {0})
  run_out_placeholder live =
      if is_mental W live.deal then pure tt else run_out 4 live.betting.street

  abbrev pub latest : Option ℕ → ℕ → ℕ
  latest none completed = completed
  latest (some previous) completed = max previous completed

  unfoldable pub settle : Running W (Unit {0})
  settle = if_live W λ live. do
    when (not (hand_over_by_folds live.betting)) (run_out_placeholder live)
    at_end ← the_live W
    outcome ← lift (map_err dealing (hand_outcome W at_end))
    modify (λ s. record s {
      table = record s.table {
        live = none;
        last_completed = some (latest s.table.last_completed outcome.hand_no);
      };
    })
    push_event W (hand_ended outcome)
