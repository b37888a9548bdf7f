-- ===== src/Protocol/Driver/Guest.antt =====
-- protocol/src/driver.rs: `run_guest_generic`. The node is running and has joined; how it is made and
-- shut down is left out. `expected_host` is the peer that the URI names, as `host_peer_id_from_uri`
-- reads it with the libraries of the network.
pub mod Loop
mod Seating
pub mod Allegiance
use ten_cent_poker_client.Prelude.{
  ℕ, zero, suc, ◌+◌, Bool, true, false, ◌&&◌, not, Option, none, some, List, [], ◌∷◌, ◌++◌, ◌==◌,
  leb, if◌then◌else◌, Outcome, ok, err, panic, length, keep,
}
use ten_cent_poker_client.Prelude.Exec.{
  Exec, pure, fail, lift, gets, modify, maybe, when, within, ◌>>=◌, ◌>>◌,
}
use ten_cent_poker_client.Prelude.Map.{is_some}
use ten_cent_poker_client.Betting.State.{BettingState}
use ten_cent_poker_client.Showdown.Defs.{Hole}
use ten_cent_poker_client.Protocol.Bot.{WireAction}
use ten_cent_poker_client.Protocol.Setting.{
  Setting, TableError, TableMessage, hand_complete, join_table,
}
use ten_cent_poker_client.Protocol.Table.{
  Table, Step, HandOutcome, TableEvent, new_table, is_local_turn, local_hole_of,
}
use ten_cent_poker_client.Protocol.Table.Handle.{local_turn}
use ten_cent_poker_client.Protocol.Driver.{
  start_hand_no, deal_hand_no, Network, is_ignorable, DriverUpdate, hand_result, ended, Decider,
  bot, human, Event, tick, send_result, human_action, table_uri, reachability_warning,
  peer_connected, peer_disconnected, message, deal_received, dial_failed, closed, deadline, Driver,
  Driving, DriverError, table, waiting, Answer, HandReport, GameReport,
}
use ten_cent_poker_client.Protocol.Driver.Sender.{ack, clear}
use ten_cent_poker_client.Protocol.Driver.Steps.{
  ended_hand, last_act_of, the_table, on_table, either, try_handle, observe, observe_state,
  broadcast_retry, broadcast_last, pump_sender, on_sender, send_step, snapshot_hole,
}
use ten_cent_poker_client.Protocol.Driver.Payloads.{
  apply_deal_payload, replay_all, pump_steps, pump_fuel,
}
use ten_cent_poker_client.Protocol.Driver.Host.{completed_hand, new_driver}

-- `slot = msg` where there is a message, as `msg.or(slot)`.
abbrev pub or_last : Option TableMessage → Option TableMessage → Option TableMessage
or_last none slot = slot
or_last (some msg) slot = some msg

module _ (W : Setting) (N : Network W) where
  open W use {PeerId, peer_eq}
  open N use {decode}

  -- The reports and the acknowledgements of a step, with the hole that they show.
  unfoldable pub finish_events :
      List TableEvent → Option Hole → Option TableMessage → Driving W N (Option TableMessage)
  finish_events [] hole last = pure last
  finish_events (event ∷ events) hole last =
      let report = λ (o : HandOutcome). (do
        modify (λ d. record d {
          reports = d.reports ++ record { outcome = o; local_hole = hole } ∷ [];
        })
        let msg = hand_complete o.hand_no o.final_stacks
        broadcast_retry W N msg
        finish_events events hole (some msg)) in
      let skip = finish_events events hole last in maybe (ended_hand event) skip report

  unfoldable pub finish_step : Step → Option Hole → Driving W N (Option TableMessage)
  finish_step step hole = do
    acknowledged ← finish_events step.events hole none
    send_step W N step
    pure acknowledged

  unfoldable pub note_ack : Option TableMessage → Driving W N (Unit {0})
  note_ack msg = modify (λ d. record d { last_ack = or_last msg d.last_ack })

  unfoldable pub finish : Step → Driving W N (Unit {0})
  finish step = do d ← gets (λ d. d); acknowledged ← finish_step step d.hole; note_ack acknowledged

  -- The guest, on a step of the deal.
  unfoldable pub absorb_guest : Step → Driving W N (Unit {0})
  absorb_guest step = do snapshot_hole W N; finish step

  unfoldable pub guest_replay_deferred : Driving W N (Unit {0})
  guest_replay_deferred = replay_all W N false absorb_guest

  unfoldable pub pump_local_deal_guest : Driving W N (Unit {0})
  pump_local_deal_guest = pump_steps W N pump_fuel absorb_guest (pure false)

  unfoldable pub act_if_local_turn :
      (BettingState → ℕ → Outcome (TableError W) WireAction) → Driving W N (Unit {0})
  act_if_local_turn decide = do
    t ← the_table W N
    step ← on_table W N (local_turn W decide)
    acknowledged ← finish_step step (local_hole_of W t)
    note_ack acknowledged
    modify (λ d. record d { last_act = or_last (last_act_of step.broadcasts none) d.last_act })

  unfoldable pub guest_bot_act : Decider W → Driving W N (Unit {0})
  guest_bot_act (bot decide) = act_if_local_turn decide
  guest_bot_act human = pure tt

  unfoldable pub guest_follow_up : Decider W → Driving W N (Unit {0})
  guest_follow_up decider = do guest_replay_deferred; pump_local_deal_guest; guest_bot_act decider
