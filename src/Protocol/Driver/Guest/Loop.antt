-- ===== src/Protocol/Driver/Guest/Loop.antt =====
-- protocol/src/driver.rs: the events of `run_guest_generic`, its loop and its report. The events and
-- the steps of the guest's table are in the parent.
use ten_cent_poker_client.Prelude.{
  ℕ, zero, suc, Bool, true, false, not, Option, none, some, List, [], ◌∷◌, ◌++◌, ◌==◌, leb,
  if◌then◌else◌, Outcome, ok, length, keep,
}
use ten_cent_poker_client.Prelude.Exec.{
  Exec, pure, fail, gets, modify, maybe, when, within, ◌>>=◌, ◌>>◌,
}
use ten_cent_poker_client.Prelude.Map.{is_some}
use ten_cent_poker_client.Protocol.Bot.{WireAction}
use ten_cent_poker_client.Protocol.Setting.{Setting, TableMessage, join_table}
use ten_cent_poker_client.Protocol.Table.{Step, new_table, is_local_turn}
use ten_cent_poker_client.Protocol.Driver.{
  start_hand_no, deal_hand_no, Network, is_ignorable, hand_result, ended, Decider, Event, tick,
  send_result, human_action, peer_disconnected, message, deal_received, closed, Driver, Driving,
  DriverError, table, waiting, Answer, HandReport, GameReport,
}
use ten_cent_poker_client.Protocol.Driver.Sender.{ack, clear}
use ten_cent_poker_client.Protocol.Driver.Steps.{
  the_table, either, try_handle, observe, observe_state, broadcast_retry, broadcast_last,
  pump_sender, on_sender, snapshot_hole,
}
use ten_cent_poker_client.Protocol.Driver.Payloads.{apply_deal_payload}
use ten_cent_poker_client.Protocol.Driver.Host.{completed_hand, new_driver}
use ten_cent_poker_client.Protocol.Driver.Guest.{
  finish, absorb_guest, guest_replay_deferred, pump_local_deal_guest, act_if_local_turn,
  guest_follow_up,
}

module _ (W : Setting) (N : Network W) where
  open W use {PeerId, peer_eq}
  open N use {decode}

  -- The variables of the guest that the driver does not share with the host.
  pub record Guest : Type 0 where
    pub driver : Driver W N
    pub host_peer : Option PeerId
    pub current_hand : Option ℕ
    pub seats : List PeerId
    pub emitted_hands : ℕ

  abbrev pub Guesting : Type 0 → Type 0
  Guesting A = Exec Guest (DriverError W N) A

  unfoldable pub driving : {A : Type 0} → Driving W N A → Guesting A
  driving m = within (λ g. g.driver) (λ d g. record g { driver = d }) (λ e. e) m

  -- `format!("guest-{}", me)` in bytes is an argument.
  unfoldable pub guest_tick : TableMessage → Driving W N (Unit {0})
  guest_tick join = do
    d ← gets (λ d. d)
    let seated = do
      broadcast_last W N d.last_act
      broadcast_last W N d.last_ack
      guest_replay_deferred W N
      pump_local_deal_guest W N
      pump_sender W N
    if is_some d.replica then seated else broadcast_retry W N join

  unfoldable pub guest_human : WireAction → Driving W N (Unit {0})
  guest_human action = do
    d ← gets (λ d. d)
    let turn = maybe d.replica false (is_local_turn W)
    when turn (do
      act_if_local_turn W N (λ state seat. ok action)
      pump_local_deal_guest W N
      pump_sender W N
      observe_state W N)

  unfoldable pub guest_payload : Decider W → PeerId → TableMessage → Driving W N (Unit {0})
  guest_payload decider author msg = do
    d ← gets (λ d. d)
    let early = modify (λ d. record d { deferred = d.deferred ++ (author, msg) ∷ [] })
    let seated = do
      step ← apply_deal_payload W N none author msg
      maybe step (pure tt) (absorb_guest W N)
      guest_follow_up W N decider
      observe_state W N
      pump_sender W N
    if is_some d.replica then seated else early

  -- Whether a message is worth keeping when the hand `hand_no` starts.
  abbrev pub is_current : ℕ → PeerId × TableMessage → Bool
  is_current hand_no (author, msg) = maybe (deal_hand_no msg) true (λ h. leb hand_no h)

  -- `current_hand != Some(hand_no)`
  abbrev pub is_new_hand : Option ℕ → ℕ → Bool
  is_new_hand none hand_no = true
  is_new_hand (some h) hand_no = not (h == hand_no)

  unfoldable pub reset_hand : ℕ → Guesting (Unit {0})
  reset_hand hand_no = do
    g ← gets (λ g. g)
    when (is_new_hand g.current_hand hand_no) (
        modify (λ g. record g {
          current_hand = some hand_no;
          driver = record g.driver {
            last_act = none;
            hole = none;
            sender = clear W g.driver.sender;
            deferred = keep (is_current hand_no) g.driver.deferred;
          };
        }))

  -- The first start that is accepted seats the guest.
  unfoldable pub take_seat : Decider W → PeerId → TableMessage → Guesting (Unit {0})
  take_seat decider from msg = do
    modify (λ g. record g {
      host_peer = some from;
      driver = record g.driver {
        targets = from ∷ [];
        replica = some (new_table W g.driver.me from);
      };
    })
    tried ← driving (try_handle W N msg from)
    step ← either W N tried pure (λ e. fail (table e))
    t ← driving (the_table W N)
    modify (λ g. record g { seats = t.roster })
    driving (do finish W N step; guest_follow_up W N decider; pump_sender W N; observe_state W N)

  unfoldable pub guest_applied : Decider W → Step → Driving W N (Unit {0})
  guest_applied decider step = do
    absorb_guest W N step
    guest_follow_up W N decider
    observe_state W N
    pump_sender W N

  unfoldable pub guest_apply : Decider W → PeerId → TableMessage → Driving W N (Unit {0})
  guest_apply decider from msg = do
    r ← try_handle W N msg from
    either W N r (guest_applied decider) (λ e. if is_ignorable W e then pure tt else fail (table e))

  -- `expected_host` is some other peer.
  abbrev pub is_foreign : Option PeerId → PeerId → Bool
  is_foreign none from = false
  is_foreign (some expected) from = not (peer_eq from expected)

  -- A message that starts a hand, from a peer that may be the host.
  unfoldable pub guest_start : Decider W → PeerId → ℕ → TableMessage → Guesting (Unit {0})
  guest_start decider from hand_no msg = do
    reset_hand hand_no
    g ← gets (λ g. g)
    if is_some g.driver.replica
        then driving (guest_apply decider from msg)
        else take_seat decider from msg

  unfoldable pub guest_message :
      Decider W → Option PeerId → PeerId → TableMessage → Guesting (Unit {0})
  guest_message decider expected_host from msg = do
    g ← gets (λ g. g)
    let other = when (is_some g.driver.replica) (driving (guest_apply decider from msg))
    let start = λ (hand_no : ℕ).
        if is_foreign expected_host from then pure tt else guest_start decider from hand_no msg
    if is_some (completed_hand msg) then pure tt else maybe (start_hand_no msg) other start

  -- Whether the loop ends.
  unfoldable pub guest_event : Decider W → Option PeerId → TableMessage → Event W → Guesting Bool
  guest_event decider expected_host join tick = driving (guest_tick join) >> pure false
  guest_event decider expected_host join (send_result key target succeeded) =
      driving (on_sender W N (ack W key target succeeded)) >> pure false
  guest_event decider expected_host join (human_action action) =
      driving (maybe action (pure tt) guest_human) >> pure false
  guest_event decider expected_host join (deal_received author bytes) =
      driving (maybe (decode bytes) (pure tt) (guest_payload decider author)) >> pure false
  guest_event decider expected_host join (message from bytes) =
      maybe (decode bytes) (pure tt) (guest_message decider expected_host from) >> pure false
  guest_event decider expected_host join (peer_disconnected p) =
      gets (λ g. maybe g.host_peer false (λ host. peer_eq host p))
  guest_event decider expected_host join closed = pure true
  guest_event decider expected_host join other = pure false

  -- The reports that the front end has not been told of.
  unfoldable pub tell : ℕ → List (HandReport W) → Driving W N (Unit {0})
  tell told [] = pure tt
  tell zero (report ∷ reports) = do
    observe W N (hand_result report.outcome report.local_hole)
    tell zero reports
  tell (suc told) (report ∷ reports) = tell told reports

  unfoldable pub emit_hands : Guesting (Unit {0})
  emit_hands = do
    g ← gets (λ g. g)
    driving (tell g.emitted_hands g.driver.reports)
    modify (λ g. record g { emitted_hands = length g.driver.reports })

  unfoldable pub guest_loop :
      Decider W → Option PeerId → TableMessage → List (Event W) → Guesting (Unit {0})
  guest_loop decider expected_host join [] = do
    driving (snapshot_hole W N)
    emit_hands
    fail waiting
  guest_loop decider expected_host join (e ∷ events) = do
    driving (snapshot_hole W N)
    emit_hands
    let rest = guest_loop decider expected_host join events
    stopped ← guest_event decider expected_host join e
    if stopped then pure tt else rest

  unfoldable pub new_guest : PeerId → List (Answer W N) → Guest
  new_guest me answers = record {
    driver = new_driver W N me none answers;
    host_peer = none;
    current_hand = none;
    seats = [];
    emitted_hands = 0;
  }

  unfoldable pub guest_game :
      Decider W → Option PeerId → TableMessage → List (Event W) → Guesting (GameReport W)
  guest_game decider expected_host join events = do
    driving (broadcast_retry W N join)
    guest_loop decider expected_host join events
    driving (observe W N ended)
    g ← gets (λ g. g)
    pure (record { uri = none; seats = g.seats; hands = g.driver.reports })

  unfoldable pub run_guest :
      Decider W
      → Option PeerId
      → PeerId
      → List ℕ
      → List (Answer W N)
      → List (Event W)
      → Outcome (DriverError W N) (GameReport W)
  run_guest decider expected_host me display_name answers events =
      (guest_game decider expected_host (join_table display_name) events (new_guest me answers)).0
