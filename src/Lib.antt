-- ===== src/Lib.antt =====
-- A model of Ten-Cent Poker: the poker engine of the `game` crate, the checked arithmetic of the
-- `core` crate, the placeholder deck and the distributed deal of the `deal` crate, the replicated
-- table with the deal of its hands, the strategies and the driver of the `protocol` crate, the
-- addresses, frames and URIs of the `net` crate, and the state of the client in the `app` crate.
--
-- A hand is a betting state that actions change, one seat at a time. `BettingState::new` posts the
-- blinds, `apply` validates and carries out an action and passes the turn on, and `next_street`
-- starts the next round of bets. The hand driver asks a source of actions for each decision and deals
-- the board between the rounds. At the end `compute_pots` turns what the seats have put in into a
-- main pot and side pots, `distribute` awards each pot to the best hands that `evaluate_best` finds,
-- and a strategy of the protocol crate is what takes decisions for a seat.
--
-- Over the network every peer keeps a `Table` and feeds it the same messages. A hand is dealt from a
-- deck that all know, or by a `MentalDeal`: the peers announce keys, shuffle the masked deck in the
-- order of the seats, and reveal tokens that decrypt single cards. `Table::handle` checks who sent a
-- message, passes a part of the deal on to the `MentalDeal`, which passes it to the `PeerDeal`, and
-- then contributes to the deal as far as it can (`pump_mental`). When the betting is over and the
-- cards are shown, `settle` computes the outcome of the hand.
--
-- The driver is the glue between a peer's node and its table. The host collects the peers that send a
-- `JoinTable` in its lobby, starts each hand, relays what it has verified, and deals the next hand
-- once every guest has acknowledged the last one by a `HandComplete`. A guest takes part once the
-- start of a hand has come from its host. Both send the payloads of the deal again until they are
-- received (`DealSender`), and keep those that come too early for later (`replay_deferred`). The client
-- draws a snapshot of the table (`update_from_table`, `project`), offers actions (`compute_legal`) and
-- sends what is chosen (`map_action`) to the driver, as an action of its human.
--
-- Which file models what:
--   Prelude               shared names, tests on numbers, lists, and the outcome of a Rust call;
--                         Prelude/Exec is for methods that may fail behind a write, Prelude/Map for maps
--   Core                  core/src/lib.rs: amount_to_call, winner_by_stack, total_pot
--   Cards                 game/src/lib.rs: Suit, Rank, Card, to_index, from_index, amount_to_call
--   Betting/State         game/src/betting.rs: Seat, BettingState, new, the blinds and the queries
--   Betting/Actions       game/src/betting.rs: the actions, apply, advance, next_street
--   Betting/Invariant, Turns, Moves, Apply, Rounds, Blinds, Raises   proofs on these
--   Pot/Defs              game/src/pot.rs: compute_pots and its stages; proofs in Pot/Layers, Absorb,
--                         Merge, Compute
--   HandEval/Defs         game/src/hand_eval.rs: evaluate_best; proofs in HandEval/Order, Groups, Best
--   Showdown/Defs         game/src/showdown.rs: distribute; proofs in Showdown/Leaders, Shares,
--                         OddChips, Payouts, Distribute
--   Hand/Dealing          game/src/hand.rs: deal_hole, deal_street, deal_remaining_community
--   Hand/Board            proofs on the board that deal_remaining_community deals
--   Hand/Rounds           game/src/hand.rs: ScriptedActions, run_betting_round
--   Hand/Play             game/src/hand.rs: play_hand
--   Deal                  deal/src/lib.rs: placeholder_shuffled_deck
--   Deal/Scheme           the calls of the card protocol that the deal makes
--   Deal/Encoding         deal/src/mental.rs: DealError, CardEncoding
--   Deal/Peer             deal/src/distributed.rs: the messages and PeerDeal
--   Deal/Local            deal/src/mental.rs: MentalDeal, a deal in one process
--   Deal/Wire             deal/src/distributed.rs: the module wire; proofs in Deal/RoundTrip, and on the
--                         arrival of keys in Deal/Order
--   Protocol/Setting      protocol/src/lib.rs: RevealRound, TableMessage; the errors of table.rs
--   Protocol/Layout       protocol/src/mental.rs: DeckLayout; proofs in Protocol/Agreement
--   Protocol/Mental       protocol/src/mental.rs: MentalDeal, with Mental/Tokens (the tokens and the
--                         cards they decrypt) and Mental/Messages; proofs in Mental/Distinct, Once,
--                         Shuffles, Counts, Turns
--   Protocol/Table        protocol/src/table.rs: Table, with Table/Result and Settle (the end of a
--                         hand), Pump (the deal), Advance (the streets) and Handle (the messages);
--                         proofs in Table/Authority, Past, Replay
--   Protocol/Bot          protocol/src/bot.rs, and the Action of protocol/src/lib.rs
--   Protocol/Driver       protocol/src/driver.rs: its types, with Driver/Sender (DealSender), Steps and
--                         Payloads (what host and guest share), Host (play_one_hand), Lobby and
--                         Game (run_host_generic), Guest and Guest/Loop (run_guest_generic); proofs in
--                         Driver/Delivery, Landing, Replaying, Roll, Barrier, Roster, Refused and
--                         Guest/Seating, Guest/Allegiance
--   Net/Reachability      net/src/reachability.rs: the classes of IP addresses
--   Net/Frames            net/src/node.rs: DealEnvelope
--   Net/AddrBook          net/src/node.rs: AddrBook, maybe_emit_uri, maybe_warn
--   Net/Uri               net/src/lib.rs: encode_table_uri, decode_table_uri
--   App/Text              app/src/freeplay/model.rs: parse_blinds, is_valid_invite
--   App/Legal             app/src/gui_state.rs: compute_legal; app/src/freeplay/conn.rs: map_action;
--                         proofs in App/Accepted, Offered
--   App/Snapshot          app/src/gui_state.rs: GuiState, update_from_table
--   App/Model             app/src/freeplay/model.rs: Table, Leave, HostConfig
--   App/State             app/src/freeplay/model.rs: AppState
--   App/Project           app/src/freeplay/project.rs: project; proofs in App/Rotation
--   App/Control           app/src/freeplay/mod.rs: FreePlayApp; app/src/freeplay/conn.rs: reap_status
--   Examples              inputs at which the theorems hold
--
-- How the code is written down. A Rust call is an `Outcome`: a value (`ok`), an error that it returns
-- (`err`), or a panic. Chips and indices are natural numbers below 2^64; `add64`, `sub64`, `mul64`,
-- `rem64` and `div64` panic where Rust's overflow checks would, `index` and `write` panic out of
-- bounds, and `debug_assert_eq!` is checked too, as in a debug build. Where a theorem excludes the
-- panic, a release build computes the same values. A method on `&mut self` takes the state and
-- returns the new one. Every method of the betting state that returns an error does so before its
-- first write, so the state behind an error is the state before the call. The methods of the deal and
-- of the table may fail behind a write: they are in `Exec`, where an error comes with the state. A
-- field is named as in the source, but for `all_in`, which is `is_all_in` here, `act` of the client's
-- table, which is `to_act`, `host` of its state, which is `host_config`,
-- `seats` of a host's configuration, which is `num_seats`, and `mental`, which is
-- `is_mental`.
--
-- Loops. A `for` loop over a list is recursion on it, a loop over a range is recursion on the rounds
-- left. The loop of `compute_pots` gets one round more than there are seats: each round empties a
-- seat. The loops of `deal_remaining_community` and `play_hand` get four rounds, one for each street.
-- A loop of these three that runs out of rounds is a panic in the model. The betting round has the
-- source's own guard, which stops it behind the 10,001st action. The loop of `pump_mental` gets 16
-- passes, since every pass but the last makes one of the seven broadcasts and eight events of a hand,
-- and that of `advance_streets_and_settle` four rounds. The sorts of the standard library are
-- insertion sorts, stable where the source's is. The loop that replays deferred payloads gets one round
-- more than there are payloads, and that of `pump_local_deal` 16, as `pump_mental`; a driver that runs
-- out of them ends with an error of the model's own. The loops of the driver over its events are
-- recursions on the list of events, and end with another such error where the events run out. The
-- loop of `decode_table_uri` gets a round for every byte.
--
-- Parameters. The `ActionSource` of a betting round is any state with any function from it, the
-- betting state and the seat to an action.
--
-- The card protocol (a vendored library) is a `Scheme`: its types, and its calls with their
-- randomness, which a generator state stands for. A `Setting` adds the bytes of its values, and the
-- peer ids of libp2p. The generator of the thread is the field `rng` of a peer's deal; the one that a
-- new hand starts with is an argument. The strategy of `local_turn` is any function that returns an
-- action or panics.
--
-- A `Network` is what the driver calls: the JSON of messages, the order of peer ids, and the random
-- seeds. The events of the node, of the channels and of the clock are a list, in the order in which
-- the `select!` of a loop takes them, and so are the node's answers to broadcasts. What a peer
-- broadcasts, sends and tells its front end is a log. `Encodings` and `Transport` are the parts of
-- libp2p and bs58 that addresses and URIs need, and what formats a peer id or a number is a parameter
-- of the snapshot. The client's time is in whole milliseconds.
--
-- Not modelled: the vendored card protocol, the serde encoding and the diagnostic texts; the
-- event loop of the network node and the making of one, which are asynchronous I/O of libp2p, and so
-- the reading of a host's peer id from a URI; the tasks behind a connection of the client, its
-- keyboard and its drawing; the wallet and the interfaces of the crypto crate.
pub mod Prelude
pub mod Cards
pub mod Betting
pub mod Pot
pub mod HandEval
pub mod Showdown
pub mod Core
pub mod Hand
pub mod Protocol
pub mod Deal
pub mod Net
pub mod App
mod Examples
