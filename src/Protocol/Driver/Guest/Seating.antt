-- ===== src/Protocol/Driver/Guest/Seating.antt =====
-- protocol/src/driver.rs: what a guest does behind its seat leaves the host of its table, and the
-- peers that its payloads go to, as they are.
use ten_cent_poker_client.Prelude.{
  ℕ, zero, suc, ◌≡◌, refl, subst, true, false, Option, none, some, List, [], ◌∷◌, Outcome, inl, inr,
  ◌⊎◌, All, Option-cases,
}
use ten_cent_poker_client.Prelude.Exec.{
  Exec, pure, fail, gets, maybe, ◌>>=◌, Keeps, keeps_rules, Keeps-modify,
}
use ten_cent_poker_client.Betting.State.{BettingState}
use ten_cent_poker_client.Showdown.Defs.{Hole}
use ten_cent_poker_client.Protocol.Bot.{WireAction}
use ten_cent_poker_client.Protocol.Setting.{Setting, TableError, TableMessage}
use ten_cent_poker_client.Protocol.Table.{Table, Step, TableEvent}
use ten_cent_poker_client.Protocol.Table.Handle.{handle, local_turn, local_deal_step}
use ten_cent_poker_client.Protocol.Table.Past.{same_host}
use ten_cent_poker_client.Protocol.Table.Replay.{call, receive, take_turn, deal_step, call-Lasting}
use ten_cent_poker_client.Protocol.Driver.{
  Network, Driver, Driving, decode_failed, Answer, published, no_subscribers_yet, refused, Decider,
  bot, human, HandReport, DealSender,
}
use ten_cent_poker_client.Protocol.Driver.Steps.{
  Tried, applied, rejected, either, the_table, try_table, on_table, try_handle, observe,
  observe_state, publish, broadcast_retry, broadcast_last, pump_sender, on_sender, send_messages,
  send_step, snapshot_hole,
}
use ten_cent_poker_client.Protocol.Driver.Payloads.{
  defer, reject, accept, apply_deal_payload, replay_batch, replay, replay_all, pump_steps,
}
use ten_cent_poker_client.Protocol.Driver.Guest.{
  finish_events, finish_step, note_ack, finish, absorb_guest, guest_replay_deferred,
  pump_local_deal_guest, act_if_local_turn, guest_bot_act, guest_follow_up,
}
use ten_cent_poker_client.Protocol.Driver.Guest.Loop.{
  guest_tick, guest_human, guest_payload, guest_applied, guest_apply, tell,
}

module _ (W : Setting) (N : Network W) (host : W.PeerId) where
  open W use {PeerId, peer_eq}

  abbrev pub IsHost : PeerId → Type 0
  IsHost p = peer_eq p host ≡ true

  -- The table, where there is one, is the host's, and payloads go to nobody else.
  abbrev pub Sits : Driver W N → Type 0
  Sits d = (maybe d.replica true (λ t. peer_eq t.host host) ≡ true) × All IsHost d.targets

  -- A method of the table that leaves its host as it is.
  abbrev KeepsHost : {A : Type 0} → Exec (Table W) (TableError W) A → Type 0
  KeepsHost m = (t : Table W) → IsHost t.host → IsHost (m t).1.host

  handle-KeepsHost :
      (g : W.scheme.Rng) (msg : TableMessage) (from : PeerId) → KeepsHost (handle W g msg from)
  unfolding call
  handle-KeepsHost g msg from t h = call-Lasting W (same_host W host) (receive g msg from) t h

  local_turn-KeepsHost :
      (decide : BettingState → ℕ → Outcome (TableError W) WireAction)
      → KeepsHost (local_turn W decide)
  unfolding call
  local_turn-KeepsHost decide t h = call-Lasting W (same_host W host) (take_turn decide) t h

  local_deal_step-KeepsHost : KeepsHost (local_deal_step W)
  unfolding call
  local_deal_step-KeepsHost t h = call-Lasting W (same_host W host) deal_step t h

  pub Keeps-either :
      {A B : Type 0} (r : Tried W A) (f : A → Driving W N B) (g : TableError W → Driving W N B)
      → ((a : A) → Keeps Sits (f a))
      → ((e : TableError W) → Keeps Sits (g e))
      → Keeps Sits (either W N r f g)
  Keeps-either (applied a) f g kf kg = kf a
  Keeps-either (rejected e) f g kf kg = kg e

  ruleset sit_rules = (keeps_rules, Keeps-modify, Keeps-either)

  pub Keeps-the_table : Keeps Sits (the_table W N)
  unfolding the_table
  Keeps-the_table = search sit_rules depth 14

  Keeps-try_table :
      {A : Type 0} (m : Exec (Table W) (TableError W) A)
      → KeepsHost m
      → Keeps Sits (try_table W N m)
  unfolding try_table the_table
  Keeps-try_table m km = record {
    at = λ d h. elim (Option-cases d.replica) [
      | inl alone ↦ rw alone (refl, h.1)
      | inr (t, e) ↦
          let same : IsHost t.host =
            subst (λ (o : Option (Table W)). maybe o true (λ t. peer_eq t.host host) ≡ true) e
              h.0 in
          rw e (km t same, h.1)
    ];
  }

  Keeps-on_table :
      {A : Type 0} (m : Exec (Table W) (TableError W) A) → KeepsHost m → Keeps Sits (on_table W N m)
  unfolding on_table
  Keeps-on_table m km = search (sit_rules, Keeps-try_table) depth 14

  pub Keeps-try_handle : (msg : TableMessage) (from : PeerId) → Keeps Sits (try_handle W N msg from)
  unfolding try_handle
  Keeps-try_handle msg from = search (sit_rules, Keeps-try_table, handle-KeepsHost) depth 14

  pub Keeps-observe_state : Keeps Sits (observe_state W N)
  unfolding observe_state observe
  Keeps-observe_state = search (sit_rules, Keeps-the_table) depth 14

  Keeps-publish :
      (bytes : List ℕ) (answers : List (Answer W N)) → Keeps Sits (publish W N bytes answers)
  unfolding publish
  Keeps-publish bytes [] = search sit_rules
  Keeps-publish bytes (published ∷ answers) = search sit_rules
  Keeps-publish bytes (no_subscribers_yet ∷ answers) = Keeps-publish bytes answers
  Keeps-publish bytes (refused e ∷ answers) = search sit_rules

  pub Keeps-broadcast_retry : (msg : TableMessage) → Keeps Sits (broadcast_retry W N msg)
  unfolding broadcast_retry
  Keeps-broadcast_retry msg = written (N.encode msg)
    where
      written :
          (r : N.JsonError ⊎ List ℕ)
          → Keeps Sits (elim r as (λ r'. Driving W N (Unit {0})) [
            | inl e ↦ fail (decode_failed e)
            | inr bytes ↦ gets (λ d. d.answers) >>= publish W N bytes
          ])
      written (inl e) = search sit_rules
      written (inr bytes) = search (sit_rules, Keeps-publish) depth 14

  Keeps-broadcast_last : (msg : Option TableMessage) → Keeps Sits (broadcast_last W N msg)
  unfolding broadcast_last
  Keeps-broadcast_last none = search sit_rules
  Keeps-broadcast_last (some msg) = Keeps-broadcast_retry msg

  Keeps-send_messages : (msgs : List TableMessage) → Keeps Sits (send_messages W N msgs)
  unfolding send_messages on_sender
  Keeps-send_messages [] = search sit_rules
  Keeps-send_messages (msg ∷ msgs) =
      let rest = Keeps-send_messages msgs in search (sit_rules, Keeps-broadcast_retry) depth 14

  Keeps-finish_events :
      (events : List TableEvent) (hole : Option Hole) (last : Option TableMessage)
      → Keeps Sits (finish_events W N events hole last)
  unfolding finish_events
  Keeps-finish_events [] hole last = search sit_rules
  Keeps-finish_events (event ∷ events) hole last =
      search (sit_rules, Keeps-broadcast_retry, Keeps-finish_events events) depth 14

  Keeps-finish_step : (step : Step) (hole : Option Hole) → Keeps Sits (finish_step W N step hole)
  unfolding finish_step send_step
  Keeps-finish_step step hole =
      search (sit_rules, Keeps-finish_events, Keeps-send_messages) depth 14

  pub Keeps-finish : (step : Step) → Keeps Sits (finish W N step)
  unfolding finish note_ack
  Keeps-finish step = search (sit_rules, Keeps-finish_step) depth 14

  pub Keeps-snapshot_hole : Keeps Sits (snapshot_hole W N)
  unfolding snapshot_hole
  Keeps-snapshot_hole = search sit_rules

  Keeps-absorb_guest : (step : Step) → Keeps Sits (absorb_guest W N step)
  unfolding absorb_guest
  Keeps-absorb_guest step = search (sit_rules, Keeps-finish, Keeps-snapshot_hole) depth 14

  Keeps-apply_deal_payload :
      (relay : Option (List PeerId)) (author : PeerId) (msg : TableMessage)
      → Keeps Sits (apply_deal_payload W N relay author msg)
  unfolding apply_deal_payload accept reject defer on_sender
  Keeps-apply_deal_payload relay author msg = search (sit_rules, Keeps-try_handle) depth 14

  Keeps-replay_batch :
      (batch : List (PeerId × TableMessage))
      → Keeps Sits (replay_batch W N false (absorb_guest W N) batch)
  unfolding replay_batch
  Keeps-replay_batch [] = search sit_rules
  Keeps-replay_batch ((author, msg) ∷ batch) =
      let rest = Keeps-replay_batch batch in
      search (sit_rules, Keeps-apply_deal_payload, Keeps-absorb_guest) depth 14

  Keeps-replay : (fuel : ℕ) → Keeps Sits (replay W N fuel false (absorb_guest W N))
  unfolding replay
  Keeps-replay zero = search sit_rules
  Keeps-replay (suc fuel) =
      let again = Keeps-replay fuel in search (sit_rules, Keeps-replay_batch) depth 14

  Keeps-guest_replay_deferred : Keeps Sits (guest_replay_deferred W N)
  unfolding guest_replay_deferred replay_all
  Keeps-guest_replay_deferred = search (sit_rules, Keeps-replay) depth 14

  Keeps-pump_steps : (fuel : ℕ) → Keeps Sits (pump_steps W N fuel (absorb_guest W N) (pure false))
  unfolding pump_steps
  Keeps-pump_steps zero = search sit_rules
  Keeps-pump_steps (suc fuel) =
      let again = Keeps-pump_steps fuel in
      search (sit_rules, Keeps-on_table, local_deal_step-KeepsHost, Keeps-absorb_guest) depth 14

  Keeps-pump_local_deal_guest : Keeps Sits (pump_local_deal_guest W N)
  unfolding pump_local_deal_guest
  Keeps-pump_local_deal_guest = Keeps-pump_steps _

  Keeps-act_if_local_turn :
      (decide : BettingState → ℕ → Outcome (TableError W) WireAction)
      → Keeps Sits (act_if_local_turn W N decide)
  unfolding act_if_local_turn note_ack
  Keeps-act_if_local_turn decide =
      search (sit_rules, Keeps-the_table, Keeps-on_table, local_turn-KeepsHost, Keeps-finish_step)
        depth 16

  Keeps-guest_bot_act : (decider : Decider W) → Keeps Sits (guest_bot_act W N decider)
  unfolding guest_bot_act
  Keeps-guest_bot_act (bot decide) = Keeps-act_if_local_turn decide
  Keeps-guest_bot_act human = search sit_rules

  pub Keeps-pump_sender : Keeps Sits (pump_sender W N)
  unfolding pump_sender
  Keeps-pump_sender = search sit_rules

  pub Keeps-on_sender : (f : DealSender W → DealSender W) → Keeps Sits (on_sender W N f)
  unfolding on_sender
  Keeps-on_sender f = search sit_rules

  pub Keeps-guest_follow_up : (decider : Decider W) → Keeps Sits (guest_follow_up W N decider)
  unfolding guest_follow_up
  Keeps-guest_follow_up decider =
      search
        (sit_rules, Keeps-guest_replay_deferred, Keeps-pump_local_deal_guest, Keeps-guest_bot_act)
        depth 14

  ruleset guest_rules = (
    sit_rules, Keeps-guest_follow_up, Keeps-pump_sender, Keeps-observe_state, Keeps-absorb_guest,
    Keeps-broadcast_retry, Keeps-broadcast_last, Keeps-guest_replay_deferred,
    Keeps-pump_local_deal_guest, Keeps-act_if_local_turn, Keeps-apply_deal_payload,
    Keeps-try_handle,
  )

  pub Keeps-guest_tick : (join : TableMessage) → Keeps Sits (guest_tick W N join)
  unfolding guest_tick
  Keeps-guest_tick join = search guest_rules depth 14

  pub Keeps-guest_human : (action : WireAction) → Keeps Sits (guest_human W N action)
  unfolding guest_human
  Keeps-guest_human action = search guest_rules depth 14

  pub Keeps-guest_payload :
      (decider : Decider W) (author : PeerId) (msg : TableMessage)
      → Keeps Sits (guest_payload W N decider author msg)
  unfolding guest_payload
  Keeps-guest_payload decider author msg = search guest_rules depth 16

  Keeps-guest_applied :
      (decider : Decider W) (step : Step) → Keeps Sits (guest_applied W N decider step)
  unfolding guest_applied
  Keeps-guest_applied decider step = search guest_rules depth 14

  pub Keeps-guest_apply :
      (decider : Decider W) (from : PeerId) (msg : TableMessage)
      → Keeps Sits (guest_apply W N decider from msg)
  unfolding guest_apply
  Keeps-guest_apply decider from msg = search (guest_rules, Keeps-guest_applied) depth 14

  pub Keeps-tell : (told : ℕ) (reports : List (HandReport W)) → Keeps Sits (tell W N told reports)
  unfolding tell observe
  Keeps-tell told [] = search sit_rules
  Keeps-tell zero (report ∷ reports) =
      let rest = Keeps-tell zero reports in search sit_rules depth 14
  Keeps-tell (suc told) (report ∷ reports) = Keeps-tell told reports
