-- ===== src/Protocol/Driver/Host.antt =====
-- protocol/src/driver.rs: `play_one_hand`, the host's loop over the events of a hand.
use ten_cent_poker_client.Prelude.{
  ℕ, Bool, true, ◌&&◌, not, Option, none, some, List, [], ◌∷◌, ◌==◌, if◌then◌else◌, Outcome, ok,
}
use ten_cent_poker_client.Prelude.Exec.{pure, fail, gets, modify, maybe, when, fail_if, ◌>>=◌, ◌>>◌}
use ten_cent_poker_client.Prelude.Ordered.{member, add}
use ten_cent_poker_client.Betting.State.{BettingState}
use ten_cent_poker_client.Showdown.Defs.{Hole}
use ten_cent_poker_client.Protocol.Bot.{WireAction}
use ten_cent_poker_client.Protocol.Setting.{Setting, TableError, TableMessage, hand_complete}
use ten_cent_poker_client.Protocol.Table.{Table, Step, HandOutcome, is_local_turn}
use ten_cent_poker_client.Protocol.Table.Handle.{local_turn}
use ten_cent_poker_client.Protocol.Driver.{
  is_act, Network, is_ignorable, Decider, bot, human, Event, tick, send_result, human_action,
  peer_disconnected, message, deal_received, closed, Driver, Driving, table, node_closed,
  peer_left_mid_hand, waiting, Answer,
}
use ten_cent_poker_client.Protocol.Driver.Sender.{new_sender, ack}
use ten_cent_poker_client.Protocol.Driver.Steps.{
  the_table, on_table, either, try_handle, observe_state, broadcast_retry, broadcast_last,
  pump_sender, on_sender, remember_last_act, snapshot_hole,
}
use ten_cent_poker_client.Protocol.Driver.Payloads.{
  relay_targets, apply_deal_payload, absorb_step, replay_deferred, pump_local_deal,
}

-- The hand that a `HandComplete` acknowledges.
unfoldable pub completed_hand : TableMessage → Option ℕ
completed_hand (hand_complete hand_no final_stacks) = some hand_no
completed_hand msg = none

module _ (W : Setting) (N : Network W) where
  open W use {PeerId, peer_eq}
  open N use {decode, peer_lt}

  unfoldable pub host_turn :
      (BettingState → ℕ → Outcome (TableError W) WireAction) → Driving W N (Unit {0})
  host_turn decide = do
    step ← on_table W N (local_turn W decide)
    remember_last_act W N step
    absorb_step W N step

  unfoldable pub host_bot_act : Decider W → Driving W N (Unit {0})
  host_bot_act (bot decide) = host_turn decide
  host_bot_act human = pure tt

  -- What follows a message that the table has taken.
  unfoldable pub host_follow_up : Decider W → Driving W N (Unit {0})
  host_follow_up decider = do
    replay_deferred W N
    pump_local_deal W N
    host_bot_act decider
    pump_sender W N
    observe_state W N

  unfoldable pub host_tick : TableMessage → Driving W N (Unit {0})
  host_tick start = do
    broadcast_retry W N start
    last ← gets (λ d. d.last_act)
    broadcast_last W N last
    pump_local_deal W N
    replay_deferred W N
    pump_sender W N

  -- The action of a human, by way of `OneShot`.
  unfoldable pub host_human : WireAction → Driving W N (Unit {0})
  host_human action = do
    t ← the_table W N
    when (is_local_turn W t) (do
      host_turn (λ state seat. ok action)
      pump_local_deal W N
      pump_sender W N
      observe_state W N)

  unfoldable pub host_payload : Decider W → PeerId → TableMessage → Driving W N (Unit {0})
  host_payload decider author msg = do
    guests ← gets (λ d. d.targets)
    step ← apply_deal_payload W N (some (relay_targets W N author guests)) author msg
    maybe step (pure tt) (absorb_step W N)
    host_follow_up decider

  unfoldable pub host_applied : Decider W → TableMessage → Step → Driving W N (Unit {0})
  host_applied decider msg step = do
    when (is_act msg) (modify (λ d. record d { last_act = some msg }))
    absorb_step W N step
    host_follow_up decider

  unfoldable pub host_message : Decider W → ℕ → PeerId → TableMessage → Driving W N (Unit {0})
  host_message decider hand_no from msg = do
    let acknowledge = λ (h : ℕ).
        when (h == hand_no) (modify (λ d. record d { acked = add peer_eq peer_lt from d.acked }))
    let apply = do
      r ← try_handle W N msg from
      either W N r (host_applied decider msg)
          (λ e. if is_ignorable W e then pure tt else fail (table e))
    maybe (completed_hand msg) apply acknowledge

  unfoldable pub host_event : Decider W → ℕ → TableMessage → Event W → Driving W N (Unit {0})
  host_event decider hand_no start tick = host_tick start
  host_event decider hand_no start (send_result key target succeeded) =
      on_sender W N (ack W key target succeeded)
  host_event decider hand_no start (human_action action) = maybe action (pure tt) host_human
  host_event decider hand_no start (deal_received author bytes) =
      maybe (decode bytes) (pure tt) (host_payload decider author)
  host_event decider hand_no start (message from bytes) =
      maybe (decode bytes) (pure tt) (host_message decider hand_no from)
  host_event decider hand_no start (peer_disconnected p) = do
    d ← gets (λ d. d)
    fail_if (member peer_eq d.targets p && not (member peer_eq d.acked p)) peer_left_mid_hand
  host_event decider hand_no start closed = fail node_closed
  host_event decider hand_no start other = pure tt

  -- `guests.iter().all(|g| acked.contains(g))`
  unfoldable pub all_acked : List PeerId → List PeerId → Bool
  all_acked [] acked = true
  all_acked (g ∷ guests) acked = member peer_eq acked g && all_acked guests acked

  -- The outcome, once the table has settled and every guest has acknowledged it.
  unfoldable pub barrier : Driver W N → Option HandOutcome
  barrier d = if all_acked d.targets d.acked then d.last_outcome else none

  -- The loop of `play_one_hand`, which leaves the events that it has not taken.
  unfoldable pub host_loop :
      Decider W
      → ℕ
      → TableMessage
      → List (Event W)
      → Driving W N (HandOutcome × Option Hole × List (Event W))
  host_loop decider hand_no start [] = do
    snapshot_hole W N
    d ← gets (λ d. d)
    maybe (barrier d) (fail waiting) (λ o. pure (o, d.hole, []))
  host_loop decider hand_no start (e ∷ events) = do
    snapshot_hole W N
    d ← gets (λ d. d)
    let rest = host_event decider hand_no start e >> host_loop decider hand_no start events
    maybe (barrier d) rest (λ o. pure (o, d.hole, e ∷ events))

  -- What comes before the loop, for a driver whose variables are those of a new hand.
  unfoldable pub open_hand : Decider W → TableMessage → Step → Driving W N (Unit {0})
  open_hand decider start start_step = do
    broadcast_retry W N start
    absorb_step W N start_step
    pump_local_deal W N
    host_bot_act decider
    pump_sender W N
    observe_state W N

  abbrev pub for_hand : List PeerId → Driver W N → Driver W N
  for_hand guests d = record d {
    targets = guests;
    sender = new_sender W;
    deferred = [];
    hole = none;
    last_act = none;
    last_outcome = none;
    acked = [];
  }

  unfoldable pub play_one_hand :
      Decider W
      → ℕ
      → TableMessage
      → Step
      → List PeerId
      → List (Event W)
      → Driving W N (HandOutcome × Option Hole × List (Event W))
  play_one_hand decider hand_no start start_step guests events = do
    modify (for_hand guests)
    open_hand decider start start_step
    host_loop decider hand_no start events

  -- The driver of a peer that has not played yet.
  unfoldable pub new_driver : PeerId → Option (Table W) → List (Answer W N) → Driver W N
  new_driver me replica answers = record {
    me = me;
    targets = [];
    replica = replica;
    sender = new_sender W;
    deferred = [];
    hole = none;
    last_act = none;
    last_outcome = none;
    acked = [];
    last_ack = none;
    reports = [];
    answers = answers;
    broadcasts = [];
    sends = [];
    updates = [];
    handled = 0;
  }
