-- ===== src/Examples/Drivers.antt =====
-- The theorems about the driver, the URI of a table and the client, each at an example.
use ten_cent_poker_client.Prelude.{
  ℕ, zero, suc, ◌≡◌, ◌≢◌, ◌≤◌, refl, true, false, not, ◌&&◌, ◌||◌, arith, Option, none, some, List,
  [], ◌∷◌, inr, ok, err, length,
}
use ten_cent_poker_client.Prelude.Ordered.{member}
use ten_cent_poker_client.Protocol.Setting.{
  TableMessage, IsEquality, join_table, hand_complete, start_hand,
}
use ten_cent_poker_client.Protocol.Table.{HandOutcome, Step, hand_ended}
use ten_cent_poker_client.Protocol.Driver.{
  DealKey, DealSender, Network, human, Event, message, published, Driver, out_of_fuel,
}
use ten_cent_poker_client.Protocol.Driver.Sender.{pump, new_sender, ack, pair_eq}
use ten_cent_poker_client.Protocol.Driver.Delivery.{queued, sent, pump-ack}
use ten_cent_poker_client.Protocol.Driver.Payloads.{replay_deferred}
use ten_cent_poker_client.Protocol.Driver.Guest.{guest_replay_deferred}
use ten_cent_poker_client.Protocol.Driver.Replaying.{replay_deferred-ends}
use ten_cent_poker_client.Protocol.Driver.Host.{new_driver}
use ten_cent_poker_client.Protocol.Setting.{key_announce, shuffle_announce}
use ten_cent_poker_client.Protocol.Table.{local_hole_of, is_mental_hand}
use ten_cent_poker_client.Protocol.Table.Handle.{local_deal_step, stepping}
use ten_cent_poker_client.Protocol.Driver.{deal_relay_key}
use ten_cent_poker_client.Protocol.Table.Pump.{pump_mental}
use ten_cent_poker_client.Protocol.Driver.Sender.{enqueue, enqueue_to, or_insert, to_send, take_off}
use ten_cent_poker_client.Protocol.Driver.Landing.{
  Operation, enqueue_op, operate, operations, land, land-pump,
}
use ten_cent_poker_client.Protocol.Driver.Lobby.{
  is_join, new_lobby, seat_peer, lobby_event, lobby_step, lobby,
}
use ten_cent_poker_client.Protocol.Driver.Roster.{has_joined, AllOnce, lobby-AllOnce}
use ten_cent_poker_client.Protocol.Driver.Steps.{
  ended_hand, capture_from, the_table, try_table, on_table, observe, observe_state, publish,
  broadcast_retry, pump_sender, send_messages, send_step, capture_outcome, snapshot_hole,
}
use ten_cent_poker_client.Protocol.Driver.Payloads.{absorb_step, pump_steps, pump_local_deal}
use ten_cent_poker_client.Protocol.Driver.Host.{
  completed_hand, host_bot_act, host_message, host_event, all_acked, barrier, host_loop, open_hand,
  play_one_hand,
}
use ten_cent_poker_client.Protocol.Driver.Barrier.{has_acknowledged, play_one_hand-acknowledged}
use ten_cent_poker_client.Examples.Toy.{toy, two_peers}

toy-IsEquality : IsEquality toy
toy-IsEquality = record { sound = λ p q e. ground arith; reflexive = λ p. ground arith }

-- The first byte and the length tell the messages apart.
abbrev toy_decode : List ℕ → Option TableMessage
toy_decode [] = none
toy_decode (zero ∷ bytes) = some (join_table [])
toy_decode (suc n ∷ []) = some (hand_complete n [])
toy_decode (suc n ∷ button ∷ bytes) = some (start_hand n button 0 [] [] 1 2)

abbrev pub toy_network : Network toy
toy_network = record {
  JsonError = Unit;
  NetError = Unit;
  Keypair = Unit;
  encode = λ msg. inr [];
  decode = toy_decode;
  peer_lt = λ p q. false;
  peer_bytes = λ p. p ∷ [];
  generator = λ n. n;
  session_seed = λ n. [];
}

-- A driver of the host with a start that came too early.
abbrev seated_driver : Driver toy toy_network
seated_driver = record (new_driver toy toy_network 7 (some two_peers) (published ∷ [])) {
  deferred = (8, start_hand 9 0 0 [] [] 1 2) ∷ [];
}

replay_deferred_example :
    ((replay_deferred toy toy_network seated_driver).0 ≢ err out_of_fuel)
    × ((guest_replay_deferred toy toy_network seated_driver).0 ≢ err out_of_fuel)
replay_deferred_example = replay_deferred-ends toy toy_network seated_driver

-- Peer 9 starts a hand, which is not its to start.
abbrev some_events : List (Event toy)
some_events = message 9 (1 ∷ 0 ∷ []) ∷ message 8 (4 ∷ []) ∷ []

abbrev some_key : DealKey
some_key = record { slot = 0; kind = 1; round = 0 }

abbrev one_payload : DealSender toy
one_payload = record {
  pending = (some_key, record { author = 7; bytes = 3 ∷ []; targets = 8 ∷ 9 ∷ [] }) ∷ [];
  in_flight = [];
}

pump-ack_example :
    sent toy
      (pump toy toy_network (ack toy some_key 8 false (pump toy toy_network one_payload).0)).1
      some_key
      8
    ≡ (true
        && (queued toy one_payload.pending some_key 8 && pair_eq toy (some_key, 8) (some_key, 8)))
pump-ack_example = pump-ack toy toy-IsEquality toy_network one_payload some_key 8 false some_key 8

abbrev two_sends : List (Operation toy)
two_sends =
    enqueue_op (key_announce 5 0 []) 7 (8 ∷ 9 ∷ [])
    ∷ enqueue_op (shuffle_announce 5 0 []) 7 (9 ∷ [])
    ∷ []

abbrev queue : DealSender toy
queue = operations toy toy_network two_sends (new_sender toy)

queue-idle : queue.in_flight ≡ []
unfolding operations operate enqueue enqueue_to or_insert deal_relay_key
queue-idle = refl

land-pump_example :
    land toy (pump toy toy_network queue).1 (pump toy toy_network queue).0 ≡ new_sender toy
land-pump_example =
    land-pump toy toy-IsEquality toy_network two_sends (pump toy toy_network queue).1 queue-idle
      λ k t h. h

abbrev some_joins : List (Event toy)
some_joins = message 9 (4 ∷ []) ∷ message 8 (0 ∷ []) ∷ []

-- A lobby that peer 8 joins.
joins : (lobby toy toy_network 2 some_joins (new_lobby toy 7)).0 ≡ ok []
unfolding lobby lobby_step lobby_event new_lobby is_join seat_peer
joins = refl

lobby-AllOnce_example :
    (2 ≤ length (lobby toy toy_network 2 some_joins (new_lobby toy 7)).1.roster)
    × AllOnce toy toy_network (lobby toy toy_network 2 some_joins (new_lobby toy 7)).1.roster
    × ((not (member toy.peer_eq (lobby toy toy_network 2 some_joins (new_lobby toy 7)).1.roster 8)
          || has_joined toy toy_network 8 some_joins
          || toy.peer_eq 7 8)
        ≡ true)
lobby-AllOnce_example = lobby-AllOnce toy toy_network toy-IsEquality 2 some_joins [] 7 8 joins

abbrev settled : HandOutcome
settled = record {
  hand_no = 5;
  button = 0;
  community = [];
  deltas = [];
  final_stacks = [];
  awards = [];
}

-- A start that ends the hand at once.
abbrev short_hand : Step
short_hand = record { broadcasts = []; deal_effects = []; events = hand_ended settled ∷ [] }

abbrev acks : List (Event toy)
acks = message 8 (6 ∷ []) ∷ []

abbrev first_driver : Driver toy toy_network
first_driver = new_driver toy toy_network 7 (some two_peers) (published ∷ [])

hand-played :
    (play_one_hand toy toy_network human 5 (join_table []) short_hand (8 ∷ []) acks first_driver).0
    ≡ ok (settled, none, [])
unfolding play_one_hand open_hand new_driver broadcast_retry publish absorb_step capture_outcome
    capture_from ended_hand send_step send_messages pump_local_deal pump_steps on_table try_table
    the_table local_deal_step stepping host_bot_act pump_sender pump to_send take_off observe_state
    observe host_loop snapshot_hole local_hole_of barrier all_acked host_event host_message
    completed_hand pump_mental is_mental_hand
hand-played = refl

play_one_hand-acknowledged_example : has_acknowledged toy toy_network 5 acks 8 ≡ true
play_one_hand-acknowledged_example =
    play_one_hand-acknowledged toy toy_network toy-IsEquality human 5 (join_table []) 8 short_hand
      (8 ∷ []) acks first_driver (settled, none, []) hand-played refl
