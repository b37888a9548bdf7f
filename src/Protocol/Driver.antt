-- ===== src/Protocol/Driver.antt =====
-- protocol/src/driver.rs: the glue between a node of the network and the table of a peer. The
-- messages that it tells apart, its options and reports, and the state of a running peer are here;
-- the children are the sender of the deal's payloads, what both kinds of peer do with them, the
-- host, and the guest. Events and the answers to broadcasts come from outside and are inputs; what
-- a peer hands to its node is a log. The pauses between two attempts have no model.
pub mod Sender
pub mod Delivery
pub mod Landing
pub mod Steps
pub mod Payloads
pub mod Replaying
mod Roll
pub mod Barrier
pub mod Roster
pub mod Refused
pub mod Lobby
pub mod Host
pub mod Game
pub mod Guest
use ten_cent_poker_client.Prelude.{
  ℕ, ◌+◌, ◌*◌, ◌%◌, ◌<◌, ◌≡◌, Bool, true, false, ◌&&◌, ◌||◌, Option, none, some, List, [], ◌∷◌,
  ◌==◌, ltb, if◌then◌else◌, Outcome, u64_mod, ◌⊎◌,
}
use ten_cent_poker_client.Prelude.Exec.{Exec}
use ten_cent_poker_client.Betting.State.{BettingState}
use ten_cent_poker_client.Showdown.Defs.{Hole}
use ten_cent_poker_client.Protocol.Bot.{WireAction}
use ten_cent_poker_client.Protocol.Setting.{
  Setting, TableError, TableMessage, RevealRound, round_order, not_host, wrong_hand,
  no_hand_in_progress, act_out_of_turn, betting, deal2, deal_out_of_turn, deal_author,
  no_mental_hand, not_betting_yet, start_hand, act, start_mental_hand, key_announce,
  shuffle_announce, reveal_announce,
}
use ten_cent_poker_client.Protocol.Table.{Table, HandOutcome}

-- The hand of a message that starts one.
unfoldable pub start_hand_no : TableMessage → Option ℕ
start_hand_no (start_hand hand_no button seed seats stacks sb bb) = some hand_no
start_hand_no (start_mental_hand hand_no button session seats stacks sb bb) = some hand_no
start_hand_no msg = none

-- The hand of a payload of the deal.
unfoldable pub deal_hand_no : TableMessage → Option ℕ
deal_hand_no (key_announce hand_no seat payload) = some hand_no
deal_hand_no (shuffle_announce hand_no turn payload) = some hand_no
deal_hand_no (reveal_announce hand_no seat round tokens) = some hand_no
deal_hand_no msg = none

unfoldable pub is_deal_payload : TableMessage → Bool
is_deal_payload (key_announce hand_no seat payload) = true
is_deal_payload (shuffle_announce hand_no turn payload) = true
is_deal_payload (reveal_announce hand_no seat round tokens) = true
is_deal_payload msg = false

unfoldable pub is_act : TableMessage → Bool
is_act (act hand_no action) = true
is_act msg = false

-- The seat or the turn, the kind of payload, and the round.
pub record DealKey : Type 0 where
  pub slot : ℕ
  pub kind : ℕ
  pub round : ℕ

unfoldable pub deal_relay_key : TableMessage → Option DealKey
deal_relay_key (key_announce hand_no seat payload) =
    some (record { slot = seat; kind = 0; round = 0 })
deal_relay_key (shuffle_announce hand_no turn payload) =
    some (record { slot = turn; kind = 1; round = 0 })
deal_relay_key (reveal_announce hand_no seat round tokens) =
    some (record { slot = seat; kind = 2; round = round_order round })
deal_relay_key msg = none

-- The equality and the order that the tuple derives.
unfoldable pub key_eq : DealKey → DealKey → Bool
key_eq j k = j.slot == k.slot && (j.kind == k.kind && j.round == k.round)

unfoldable pub key_lt : DealKey → DealKey → Bool
key_lt j k =
    if j.slot == k.slot
    then (if j.kind == k.kind then ltb j.round k.round else ltb j.kind k.kind)
    else ltb j.slot k.slot

-- A seed for the placeholder's deck; the multiplication and the addition wrap around.
unfoldable pub demo_seed : ℕ → ℕ
demo_seed hand_no = (hand_no * 0x9E37_79B9_7F4A_7C15 % u64_mod + 0xD1B5_4A32_D192_ED03) % u64_mod

-- The libraries below the driver: the JSON of a message (`decode(data).ok()`), the order of peer ids,
-- and the errors of both. `generator n` is the thread's generator at the n-th message that the peer
-- handles, `session_seed n` the random seed of the n-th hand, and `peer_bytes` is `to_bytes`.
pub record Network (W : Setting) : Type 1 where
  pub JsonError : Type 0
  pub NetError : Type 0
  pub Keypair : Type 0
  pub encode : TableMessage → JsonError ⊎ List ℕ
  pub decode : List ℕ → Option TableMessage
  pub peer_lt : W.PeerId → W.PeerId → Bool
  pub peer_bytes : W.PeerId → List ℕ
  pub generator : ℕ → W.scheme.Rng
  pub session_seed : ℕ → List ℕ

module _ (W : Setting) where
  open W use {PeerId}

  -- Errors that a peer survives.
  unfoldable pub is_ignorable : TableError W → Bool
  is_ignorable (act_out_of_turn from seat owner) = true
  is_ignorable (not_host from) = true
  is_ignorable (wrong_hand hand_no live) = true
  is_ignorable no_hand_in_progress = true
  is_ignorable (betting e) = true
  is_ignorable deal_out_of_turn = true
  is_ignorable deal_author = true
  is_ignorable no_mental_hand = true
  is_ignorable not_betting_yet = true
  is_ignorable (deal2 e) = true
  is_ignorable e = false

  -- Errors of a payload that came too early.
  unfoldable pub is_deferrable_deal : TableError W → Bool
  is_deferrable_deal deal_out_of_turn = true
  is_deferrable_deal no_mental_hand = true
  is_deferrable_deal e = false

  -- A payload that waits for the acknowledgements of its targets.
  pub record DealOut : Type 0 where
    pub author : PeerId
    pub bytes : List ℕ
    pub targets : List PeerId

  pub record DealSender : Type 0 where
    pub pending : List (DealKey × DealOut)
    pub in_flight : List (DealKey × PeerId)

  -- A send that `pump` spawns.
  pub record Send : Type 0 where
    pub key : DealKey
    pub target : PeerId
    pub author : PeerId
    pub bytes : List ℕ

  pub record HandReport : Type 0 where
    pub outcome : HandOutcome
    pub local_hole : Option Hole

  pub record GameReport : Type 0 where
    pub uri : Option (List ℕ)
    pub seats : List PeerId
    pub hands : List HandReport

  -- The source of the local seat's decisions. The actions of a human are events.
  pub data Decider : Type 0 where
    bot : (BettingState → ℕ → Outcome (TableError W) WireAction) → Decider
    human : Decider

  -- What a front end is told. The reachability is the text of the warning.
  pub data DriverUpdate : Type 0 where
    uri_ready : List ℕ → DriverUpdate
    reachability : List ℕ → DriverUpdate
    state : Table W → DriverUpdate
    hand_result : HandOutcome → Option Hole → DriverUpdate
    ended : DriverUpdate

  -- What a loop waits for: its ticker, the result of a send, an action of the human (`none` from a
  -- closed channel), the events of the node up to the closing of their stream, and the deadline of the
  -- lobby.
  pub data Event : Type 0 where
    tick : Event
    send_result : DealKey → PeerId → Bool → Event
    human_action : Option WireAction → Event
    table_uri : List ℕ → Event
    reachability_warning : List ℕ → Event
    peer_connected : PeerId → Event
    peer_disconnected : PeerId → Event
    message : PeerId → List ℕ → Event
    deal_received : PeerId → List ℕ → Event
    dial_failed : Event
    closed : Event
    deadline : Event

  module _ (N : Network W) where
    open N use {JsonError, NetError, Keypair}

    -- The last two are the model's own: the inputs have run out while the peer waits for one, and
    -- the fuel of a loop has run out.
    pub data DriverError : Type 0 where
      net : NetError → DriverError
      table : TableError W → DriverError
      decode_failed : JsonError → DriverError
      node_closed : DriverError
      lobby_timeout : DriverError
      peer_left_mid_hand : DriverError
      no_uri : DriverError
      waiting : DriverError
      out_of_fuel : DriverError

    -- How the node answers a broadcast.
    pub data Answer : Type 0 where
      published no_subscribers_yet : Answer
      refused : NetError → Answer

    pub record HostOptions : Type 0 where
      pub hands : ℕ
      pub starting_stack : ℕ
      pub small_blind : ℕ
      pub big_blind : ℕ
      pub min_players : ℕ
      pub keypair : Option Keypair
      pub enable_mdns : Bool
      pub is_mental : Bool
      pub listen_port : Option ℕ

    unfoldable pub default_options : HostOptions
    default_options = record {
      hands = 3;
      starting_stack = 1000;
      small_blind = 5;
      big_blind = 10;
      min_players = 2;
      keypair = none;
      enable_mdns = true;
      is_mental = true;
      listen_port = none;
    }

    -- The variables of `play_one_hand` and of `run_guest_generic` behind its `JoinTable`, in one
    -- record: `hole` is `local_hole` or `current_hole`, `last_act` also stands for
    -- `last_applied_act`, `targets` are the host's guests or the guest's host. The host has
    -- `last_outcome` and `acked`, the guest `last_ack` and `reports`. The rest is the world: the
    -- answers to come, the broadcasts and the sends so far, what the front end was told, and how
    -- many messages were handled.
    pub record Driver : Type 0 where
      pub me : PeerId
      pub targets : List PeerId
      pub replica : Option (Table W)
      pub sender : DealSender
      pub deferred : List (PeerId × TableMessage)
      pub hole : Option Hole
      pub last_act : Option TableMessage
      pub last_outcome : Option HandOutcome
      pub acked : List PeerId
      pub last_ack : Option TableMessage
      pub reports : List HandReport
      pub answers : List Answer
      pub broadcasts : List (List ℕ)
      pub sends : List Send
      pub updates : List DriverUpdate
      pub handled : ℕ

    abbrev pub Driving : Type 0 → Type 0
    Driving A = Exec Driver DriverError A
