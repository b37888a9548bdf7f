-- ===== src/Protocol/Driver/Roll.antt =====
-- protocol/src/driver.rs: what the host does in a hand leaves its guests alone, and those who have
-- acknowledged the hand.
use ten_cent_poker_client.Prelude.{
  ℕ, zero, suc, ◌≡◌, true, Option, none, some, List, [], ◌∷◌, Outcome, inl, inr, ◌⊎◌,
}
use ten_cent_poker_client.Prelude.Exec.{
  Exec, pure, fail, lift, gets, modify, maybe, when, fail_if, continue, ◌>>=◌, ◌>>◌, Keeps,
  keeps_rules, Keeps-modify,
}
use ten_cent_poker_client.Betting.State.{BettingState}
use ten_cent_poker_client.Protocol.Bot.{WireAction}
use ten_cent_poker_client.Protocol.Setting.{Setting, TableError, TableMessage}
use ten_cent_poker_client.Protocol.Table.{Table, Step}
use ten_cent_poker_client.Protocol.Driver.{
  Network, Driver, Driving, decode_failed, Answer, published, no_subscribers_yet, refused, Decider,
  bot, human,
}
use ten_cent_poker_client.Protocol.Driver.Steps.{
  Tried, applied, rejected, either, the_table, try_table, on_table, try_handle, observe,
  observe_state, publish, broadcast_retry, broadcast_last, pump_sender, on_sender, send_messages,
  send_step, capture_outcome, remember_last_act, snapshot_hole,
}
use ten_cent_poker_client.Protocol.Driver.Payloads.{
  defer, reject, accept, apply_deal_payload, absorb_step, replay_batch, replay, replay_all,
  replay_deferred, pump_steps, is_settled, pump_local_deal,
}
use ten_cent_poker_client.Protocol.Driver.Host.{
  open_hand, completed_hand, host_turn, host_bot_act, host_follow_up, host_tick, host_human,
  host_payload, host_applied, host_message,
}

module _ (W : Setting) (N : Network W) (guests acked : List W.PeerId) where
  open W use {PeerId, peer_eq}

  -- The guests of the hand, and who has acknowledged it.
  abbrev pub Roll : Driver W N → Type 0
  Roll d = (d.targets ≡ guests) × (d.acked ≡ acked)

  pub Keeps-either :
      {A B : Type 0} (r : Tried W A) (f : A → Driving W N B) (g : TableError W → Driving W N B)
      → ((a : A) → Keeps Roll (f a))
      → ((e : TableError W) → Keeps Roll (g e))
      → Keeps Roll (either W N r f g)
  Keeps-either (applied a) f g kf kg = kf a
  Keeps-either (rejected e) f g kf kg = kg e

  pub ruleset roll_rules = (keeps_rules, Keeps-modify, Keeps-either)

  pub Keeps-the_table : Keeps Roll (the_table W N)
  unfolding the_table
  Keeps-the_table = search roll_rules depth 14

  Keeps-try_table :
      {A : Type 0} (m : Exec (Table W) (TableError W) A) → Keeps Roll (try_table W N m)
  unfolding try_table
  Keeps-try_table m = search (roll_rules, Keeps-the_table) depth 14

  pub Keeps-on_table :
      {A : Type 0} (m : Exec (Table W) (TableError W) A) → Keeps Roll (on_table W N m)
  unfolding on_table
  Keeps-on_table m = search (roll_rules, Keeps-try_table) depth 14

  pub Keeps-try_handle : (msg : TableMessage) (from : PeerId) → Keeps Roll (try_handle W N msg from)
  unfolding try_handle
  Keeps-try_handle msg from = search (roll_rules, Keeps-try_table) depth 14

  pub Keeps-observe_state : Keeps Roll (observe_state W N)
  unfolding observe_state observe
  Keeps-observe_state = search (roll_rules, Keeps-the_table) depth 14

  Keeps-publish :
      (bytes : List ℕ) (answers : List (Answer W N)) → Keeps Roll (publish W N bytes answers)
  unfolding publish
  Keeps-publish bytes [] = search roll_rules
  Keeps-publish bytes (published ∷ answers) = search roll_rules
  Keeps-publish bytes (no_subscribers_yet ∷ answers) = Keeps-publish bytes answers
  Keeps-publish bytes (refused e ∷ answers) = search roll_rules

  pub Keeps-broadcast_retry : (msg : TableMessage) → Keeps Roll (broadcast_retry W N msg)
  unfolding broadcast_retry
  Keeps-broadcast_retry msg = written (N.encode msg)
    where
      written :
          (r : N.JsonError ⊎ List ℕ)
          → Keeps Roll (elim r as (λ r'. Driving W N (Unit {0})) [
            | inl e ↦ fail (decode_failed e)
            | inr bytes ↦ gets (λ d. d.answers) >>= publish W N bytes
          ])
      written (inl e) = search roll_rules
      written (inr bytes) = search (roll_rules, Keeps-publish) depth 14

  pub Keeps-broadcast_last : (msg : Option TableMessage) → Keeps Roll (broadcast_last W N msg)
  unfolding broadcast_last
  Keeps-broadcast_last none = search roll_rules
  Keeps-broadcast_last (some msg) = Keeps-broadcast_retry msg

  Keeps-send_messages : (msgs : List TableMessage) → Keeps Roll (send_messages W N msgs)
  unfolding send_messages on_sender
  Keeps-send_messages [] = search roll_rules
  Keeps-send_messages (msg ∷ msgs) =
      let rest = Keeps-send_messages msgs in search (roll_rules, Keeps-broadcast_retry) depth 14

  pub Keeps-absorb_step : (step : Step) → Keeps Roll (absorb_step W N step)
  unfolding absorb_step capture_outcome send_step
  Keeps-absorb_step step = search (roll_rules, Keeps-send_messages) depth 14

  pub Keeps-apply_deal_payload :
      (relay : Option (List PeerId)) (author : PeerId) (msg : TableMessage)
      → Keeps Roll (apply_deal_payload W N relay author msg)
  unfolding apply_deal_payload accept reject defer on_sender
  Keeps-apply_deal_payload relay author msg = search (roll_rules, Keeps-try_handle) depth 14

  Keeps-replay_batch :
      (batch : List (PeerId × TableMessage))
      → Keeps Roll (replay_batch W N true (absorb_step W N) batch)
  unfolding replay_batch
  Keeps-replay_batch [] = search roll_rules
  Keeps-replay_batch ((author, msg) ∷ batch) =
      let rest = Keeps-replay_batch batch in
      search (roll_rules, Keeps-apply_deal_payload, Keeps-absorb_step) depth 14

  Keeps-replay : (fuel : ℕ) → Keeps Roll (replay W N fuel true (absorb_step W N))
  unfolding replay
  Keeps-replay zero = search roll_rules
  Keeps-replay (suc fuel) =
      let again = Keeps-replay fuel in search (roll_rules, Keeps-replay_batch) depth 14

  pub Keeps-replay_deferred : Keeps Roll (replay_deferred W N)
  unfolding replay_deferred replay_all
  Keeps-replay_deferred = search (roll_rules, Keeps-replay) depth 14

  Keeps-pump_steps :
      (fuel : ℕ) → Keeps Roll (pump_steps W N fuel (absorb_step W N) (is_settled W N))
  unfolding pump_steps is_settled
  Keeps-pump_steps zero = search roll_rules
  Keeps-pump_steps (suc fuel) =
      let again = Keeps-pump_steps fuel in
      search (roll_rules, Keeps-on_table, Keeps-absorb_step, Keeps-the_table) depth 14

  pub Keeps-pump_local_deal : Keeps Roll (pump_local_deal W N)
  unfolding pump_local_deal
  Keeps-pump_local_deal = Keeps-pump_steps _

  Keeps-host_turn :
      (decide : BettingState → ℕ → Outcome (TableError W) WireAction)
      → Keeps Roll (host_turn W N decide)
  unfolding host_turn remember_last_act
  Keeps-host_turn decide = search (roll_rules, Keeps-on_table, Keeps-absorb_step) depth 14

  pub Keeps-host_bot_act : (decider : Decider W) → Keeps Roll (host_bot_act W N decider)
  unfolding host_bot_act
  Keeps-host_bot_act (bot decide) = Keeps-host_turn decide
  Keeps-host_bot_act human = search roll_rules

  pub Keeps-pump_sender : Keeps Roll (pump_sender W N)
  unfolding pump_sender
  Keeps-pump_sender = search roll_rules

  pub Keeps-snapshot_hole : Keeps Roll (snapshot_hole W N)
  unfolding snapshot_hole
  Keeps-snapshot_hole = search roll_rules

  ruleset host_rules = (
    roll_rules, Keeps-absorb_step, Keeps-replay_deferred, Keeps-pump_local_deal, Keeps-host_turn,
    Keeps-host_bot_act, Keeps-pump_sender, Keeps-observe_state, Keeps-broadcast_retry,
    Keeps-broadcast_last, Keeps-the_table,
  )

  Keeps-host_follow_up : (decider : Decider W) → Keeps Roll (host_follow_up W N decider)
  unfolding host_follow_up
  Keeps-host_follow_up decider = search host_rules depth 14

  pub Keeps-host_tick : (start : TableMessage) → Keeps Roll (host_tick W N start)
  unfolding host_tick
  Keeps-host_tick start = search host_rules depth 14

  pub Keeps-host_human : (action : WireAction) → Keeps Roll (host_human W N action)
  unfolding host_human
  Keeps-host_human action = search host_rules depth 14

  pub Keeps-host_payload :
      (decider : Decider W) (author : PeerId) (msg : TableMessage)
      → Keeps Roll (host_payload W N decider author msg)
  unfolding host_payload
  Keeps-host_payload decider author msg =
      search (host_rules, Keeps-host_follow_up, Keeps-apply_deal_payload) depth 14

  Keeps-host_applied :
      (decider : Decider W) (msg : TableMessage) (step : Step)
      → Keeps Roll (host_applied W N decider msg step)
  unfolding host_applied
  Keeps-host_applied decider msg step = search (host_rules, Keeps-host_follow_up) depth 14

  -- A message that is no `HandComplete`.
  pub Keeps-host_message :
      (decider : Decider W) (hand_no : ℕ) (from : PeerId) (msg : TableMessage)
      → completed_hand msg ≡ none
      → Keeps Roll (host_message W N decider hand_no from msg)
  unfolding host_message
  Keeps-host_message decider hand_no from msg other =
      rw other (search (host_rules, Keeps-host_applied, Keeps-try_handle) depth 14)

  pub Keeps-open_hand :
      (decider : Decider W) (start : TableMessage) (step : Step)
      → Keeps Roll (open_hand W N decider start step)
  unfolding open_hand
  Keeps-open_hand decider start step = search host_rules depth 14
