-- ===== src/Examples/Clients.antt =====
-- The theorems about the URI of a table and about the client, each at an example.
use ten_cent_poker_client.Prelude.{
  ℕ, ◌≡◌, ◌≢◌, ◌<◌, refl, true, false, arith, none, some, List, [], ◌∷◌, inl, inr, ◌⊎◌, ok, err,
  panic, Returns, get_elem?, index, add64, sub64,
}
use ten_cent_poker_client.Betting.State.{BettingState, to_call, action_not_reopened}
use ten_cent_poker_client.Betting.Actions.{apply, do_raise, may_reopen, perform}
use ten_cent_poker_client.Cards.{amount_to_call}
use ten_cent_poker_client.Betting.Apply.{Applied}
use ten_cent_poker_client.Protocol.Bot.{raise, to_game}
use ten_cent_poker_client.Protocol.Setting.{betting, join_table}
use ten_cent_poker_client.Protocol.Table.{
  Table, LiveHand, is_local_turn, local_seat, seat_to_act, deal_seat_of, position_from, placeholder,
  betting_open,
}
use ten_cent_poker_client.Protocol.Driver.{Driver, table, human, human_action, published}
use ten_cent_poker_client.Protocol.Driver.Host.{host_event, new_driver}
use ten_cent_poker_client.Protocol.Driver.Guest.Loop.{guest_human}
use ten_cent_poker_client.Protocol.Driver.Refused.{human-refused}
use ten_cent_poker_client.Net.Uri.{
  Encodings, RoundTrips, encode_table_uri, decode_table_uri, decode-encode_table_uri,
}
use ten_cent_poker_client.App.Legal.{
  LegalActions, no_actions, compute_legal, raise_act, map_action, clamp,
}
use ten_cent_poker_client.App.Offered.{map_action-Applied}
use ten_cent_poker_client.App.Snapshot.{SeatView, GuiState, idle}
use ten_cent_poker_client.App.Project.{rotate, model_seat, project}
use ten_cent_poker_client.App.Rotation.{project-rotate}
use ten_cent_poker_client.Examples.Tables.{three_seats, three_seats-IsValid}
use ten_cent_poker_client.Examples.Toy.{toy, two_peers}
use ten_cent_poker_client.Examples.Drivers.{toy_network}

abbrev first_byte : List ℕ → Unit {0} ⊎ ℕ
first_byte [] = inl tt
first_byte (n ∷ bytes) = inr n

-- An address is a byte.
abbrev toy_encodings : Encodings
toy_encodings = record {
  Multiaddr = ℕ;
  Base58Error = Unit;
  MultiaddrError = Unit;
  to_vec = λ n. n ∷ [];
  from_vec = first_byte;
  base58 = λ bytes. bytes;
  from_base58 = λ bytes. inr bytes;
}

abbrev two_addresses : List ℕ
two_addresses = 1 ∷ 2 ∷ []

toy_encodings-RoundTrips : RoundTrips toy_encodings two_addresses
toy_encodings-RoundTrips = record {
  addresses = (refl, (refl, tt));
  short = (omega arith, (omega arith, tt));
  base58_back = λ bytes. refl;
}

two_addresses-≢ : two_addresses ≢ []
two_addresses-≢ e = cc

decode-encode_table_uri_example :
    ((uri : List ℕ) → decode_table_uri toy_encodings uri ≢ panic)
    × (decode_table_uri toy_encodings (encode_table_uri toy_encodings two_addresses)
        ≡ ok two_addresses)
decode-encode_table_uri_example =
    decode-encode_table_uri toy_encodings two_addresses two_addresses-≢ toy_encodings-RoundTrips

abbrev offered : LegalActions
offered = record {
  can_check = false;
  can_call = true;
  call_amount = 10;
  call_is_all_in = false;
  can_bet = false;
  can_raise = true;
  can_all_in = true;
  min_bet = 10;
  min_raise_to = 20;
  max_to = 1000;
}

three_seats-offered : compute_legal three_seats 0 ≡ ok offered
unfolding compute_legal to_call add64 sub64 index amount_to_call
three_seats-offered = refl

raise-sent : map_action (raise_act 5) offered ≡ some (raise 20)
unfolding map_action clamp
raise-sent = refl

-- A raise to 5 is sent as the smallest one, to 20.
map_action-Applied_example :
    Returns (apply three_seats 0 (to_game (raise 20))) (Applied three_seats 0)
map_action-Applied_example =
    map_action-Applied three_seats three_seats-IsValid 0 refl offered three_seats-offered
      (raise_act 5) (raise 20) (refl, omega arith) raise-sent

-- The seat to act has acted since the last full raise.
abbrev not_reopened : BettingState
not_reopened = record three_seats { acted_since_raise = true ∷ false ∷ false ∷ [] }

abbrev live_hand : LiveHand toy
live_hand = record {
  hand_no = 5;
  button = 0;
  deal = placeholder 9 [] 0 [];
  community = [];
  betting = not_reopened;
  starting = 100 ∷ 100 ∷ 100 ∷ [];
  pending_settle = false;
}

abbrev refusing_table : Table toy
refusing_table = record two_peers { live = some live_hand }

its_turn : is_local_turn toy refusing_table ≡ true
unfolding is_local_turn local_seat seat_to_act deal_seat_of position_from betting_open
its_turn = refl

raise-refused : apply not_reopened 0 (to_game (raise 30)) ≡ err (action_not_reopened 0)
unfolding apply do_raise may_reopen to_game perform index
raise-refused = refl

abbrev refusing_driver : Driver toy toy_network
refusing_driver = new_driver toy toy_network 7 (some refusing_table) (published ∷ [])

refusing_driver-seated : refusing_driver.replica ≡ some refusing_table
unfolding new_driver
refusing_driver-seated = refl

human-refused_example :
    ((host_event toy toy_network human 5
        (join_table [])
        (human_action (some (raise 30)))
        refusing_driver).0
      ≡ err (table (betting (action_not_reopened 0))))
    × ((guest_human toy toy_network (raise 30) refusing_driver).0
        ≡ err (table (betting (action_not_reopened 0))))
human-refused_example =
    human-refused toy toy_network refusing_table live_hand 0 (raise 30) (action_not_reopened 0)
      its_turn refl refl raise-refused refusing_driver refusing_driver-seated human 5
      (join_table [])

abbrev view : ℕ → SeatView
view seat = record {
  seat = seat;
  label = 65 ∷ [];
  stack = 100;
  committed = 0;
  folded = false;
  is_all_in = false;
  is_button = false;
  is_me = false;
  is_to_act = false;
}

-- A snapshot of two seats, of which the second is the local player's.
abbrev snapshot : GuiState
snapshot = record {
  role = none;
  conn = idle;
  my_peer_short = [];
  table_uri = none;
  reachability_warning = none;
  hand_no = none;
  is_mental = false;
  deal_phase = none;
  dealing = false;
  street = none;
  button = none;
  pot = 0;
  board = [];
  my_seat = some 1;
  my_hole = none;
  seats = view 0 ∷ view 1 ∷ [];
  is_my_turn = false;
  legal = no_actions;
  last_result = none;
}

project-rotate_example :
    (rotate 2 1 0 < 2)
    × (get_elem? (project snapshot 1).seats (rotate 2 1 0) ≡ some (model_seat (view 0)))
project-rotate_example = project-rotate snapshot 1 0 (view 0) (omega arith) refl
