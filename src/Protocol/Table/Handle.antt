-- ===== src/Protocol/Table/Handle.antt =====
-- protocol/src/table.rs: the messages that the table handles, and the turns of the local peer. The
-- generator that a new mental hand draws its key from, the thread's own, is an argument.
use ten_cent_poker_client.Prelude.{
  ℕ, suc, Bool, false, ◌&&◌, ◌||◌, not, ◌==◌, leb, if◌then◌else◌, Option, none, some, List, [], ◌∷◌,
  Outcome, length, index,
}
use ten_cent_poker_client.Prelude.Exec.{
  Exec, pure, lift, gets, modify, fail_if, or_fail, map_err, ◌>>=◌, ◌>>◌,
}
use ten_cent_poker_client.Betting.State.{
  Street, BettingState, hand_over_by_folds, round_closed, betting_complete_for_hand,
}
use ten_cent_poker_client.Betting.State as State
use ten_cent_poker_client.Betting.Actions.{apply}
use ten_cent_poker_client.Hand.Dealing.{deal_hole, hole_card_count}
use ten_cent_poker_client.Deal.{placeholder_shuffled_deck}
use ten_cent_poker_client.Protocol.Bot.{WireAction, to_game}
use ten_cent_poker_client.Protocol.Setting.{
  Setting, TableError, TableMessage, RevealRound, not_host, seat_stack_mismatch, bad_seat_peer_id,
  bad_seat_count, wrong_hand, no_hand_in_progress, act_out_of_turn, betting, dealing, deal_author,
  no_mental_hand, not_betting_yet, bad_session_seed, join_table, start_hand, act, start_mental_hand,
  key_announce, shuffle_announce, reveal_announce, hand_complete, deal_payload,
}
use ten_cent_poker_client.Protocol.Mental.{Mental, new_mental}
use ten_cent_poker_client.Protocol.Mental.Messages.{ingest_key, ingest_shuffle, ingest_reveal}
use ten_cent_poker_client.Protocol.Table.{
  Deal, placeholder, mental, LiveHand, Table, Step, new_step, Running, push_event, on_mental,
  is_mental, betting_open, deal_seat_of, is_local_turn, position_from, hand_started,
}
use ten_cent_poker_client.Protocol.Table.Pump.{pump_mental}
use ten_cent_poker_client.Protocol.Table.Advance.{set_betting, advance_streets_and_settle}

module _ (W : Setting) where
  open W use {PeerId, peer_eq, peer_from_bytes}

  -- A method of the table that fills a new step and returns it.
  unfoldable pub stepping : Running W (Unit {0}) → Exec (Table W) (TableError W) Step
  stepping m t =
      let (r, s) = (m >> gets (λ s. s.step)) (record { table = t; step = new_step }) in (r, s.table)

  -- `live.ok_or(e)?`, in a call that has not changed the table.
  unfoldable pub live_or : TableError W → Running W (LiveHand W)
  live_or e s = or_fail s.table.live e s

  -- The loop of `validate_start`, from the seat `i` on.
  unfoldable pub parse_roster : ℕ → List (List ℕ) → Running W (List PeerId)
  parse_roster i [] = pure []
  parse_roster i (bytes ∷ seats) = do
    peer ← or_fail (peer_from_bytes bytes) (bad_seat_peer_id i)
    rest ← parse_roster (suc i) seats
    pure (peer ∷ rest)

  unfoldable pub validate_start : List (List ℕ) → List ℕ → Running W (List PeerId × List ℕ)
  validate_start seats stacks = do
    let n = length seats
    fail_if (not (n == length stacks)) (seat_stack_mismatch n (length stacks))
    fail_if (not (leb 2 n && leb n 9)) (bad_seat_count n)
    roster ← parse_roster 0 seats
    pure (roster, stacks)

  -- `Some(done)` with `hand_no <= done`
  abbrev pub is_completed : Option ℕ → ℕ → Bool
  is_completed none hand_no = false
  is_completed (some done) hand_no = leb hand_no done

  unfoldable pub is_live_placeholder : Table W → ℕ → ℕ → Bool
  is_live_placeholder t hand_no seed = elim t.live [
    | none ↦ false
    | some live ↦ elim live.deal [
      | placeholder s deck deck_idx hole ↦ live.hand_no == hand_no && s == seed
      | mental m ↦ false
    ]
  ]

  unfoldable pub is_live_mental : Table W → ℕ → Bool
  is_live_mental t hand_no = elim t.live [
    | none ↦ false
    | some live ↦ live.hand_no == hand_no && is_mental W live.deal
  ]

  -- The hand that both messages start.
  unfoldable pub begin_hand :
      ℕ → ℕ → List PeerId → List ℕ → Deal W → BettingState → Running W (Unit {0})
  begin_hand hand_no button roster stacks deal state = do
    modify (λ s. record s {
      table = record s.table {
        roster = roster;
        live = some (record {
          hand_no = hand_no;
          button = button;
          deal = deal;
          community = [];
          betting = state;
          starting = stacks;
          pending_settle = false;
        });
      };
    })
    push_event W (hand_started hand_no)

  unfoldable pub apply_start_hand :
      PeerId → ℕ → ℕ → ℕ → List (List ℕ) → List ℕ → ℕ → ℕ → Running W (Unit {0})
  apply_start_hand from hand_no button seed seats stacks small_blind big_blind = do
    t ← gets (λ s. s.table)
    fail_if (not (peer_eq from t.host)) (not_host from)
    let begin = do
      valid ← validate_start seats stacks
      let n = length valid.0
      deck ← lift (placeholder_shuffled_deck seed)
      holes ← lift (map_err dealing (deal_hole deck n button))
      state ← lift (map_err betting (State.new valid.1 button small_blind big_blind))
      begin_hand hand_no button valid.0 valid.1 (placeholder seed deck (hole_card_count n) holes)
          state
    let known = is_live_placeholder t hand_no seed || is_completed t.last_completed hand_no
    if known then pure tt else begin

  -- `MentalDeal::new(…)?`
  unfoldable pub starting_deal : W.scheme.Rng → List ℕ → ℕ → ℕ → ℕ → Running W (Deal W)
  starting_deal g session seat n button = do
    m ← lift (new_mental W session seat n button g).0
    pure (mental m)

  unfoldable pub apply_start_mental_hand :
      W.scheme.Rng → PeerId → ℕ → ℕ → List ℕ → List (List ℕ) → List ℕ → ℕ → ℕ → Running W (Unit {0})
  apply_start_mental_hand g from hand_no button session seats stacks small_blind big_blind = do
    t ← gets (λ s. s.table)
    fail_if (not (peer_eq from t.host)) (not_host from)
    let begin = do
      fail_if (not (length session == 32)) (bad_session_seed (length session))
      valid ← validate_start seats stacks
      let n = length valid.0
      seat ← or_fail (position_from W 0 valid.0 t.local) no_mental_hand
      deal ← starting_deal g session seat n button
      state ← lift (map_err betting (State.new valid.1 button small_blind big_blind))
      begin_hand hand_no button valid.0 valid.1 deal state
      pump_mental W
    if is_live_mental t hand_no || is_completed t.last_completed hand_no then pure tt else begin

  unfoldable pub apply_act : PeerId → ℕ → WireAction → Running W (Unit {0})
  apply_act from hand_no action = do
    live ← live_or no_hand_in_progress
    fail_if (not (hand_no == live.hand_no)) (wrong_hand hand_no (some live.hand_no))
    fail_if (not (betting_open W live)) not_betting_yet
    seat ← or_fail live.betting.to_act no_hand_in_progress
    roster ← gets (λ s. s.table.roster)
    owner ← lift (index roster seat)
    fail_if (not (peer_eq from owner)) (act_out_of_turn from seat owner)
    state ← lift (map_err betting (apply live.betting seat (to_game action)))
    set_betting W state
    advance_streets_and_settle W

  -- `Some(s) if s == seat`
  abbrev pub is_seat : Option ℕ → ℕ → Bool
  is_seat none seat = false
  is_seat (some s) seat = s == seat

  unfoldable pub check_mental_msg : PeerId → ℕ → ℕ → Running W (Unit {0})
  check_mental_msg from hand_no seat = do
    live ← live_or no_mental_hand
    fail_if (not (is_mental W live.deal)) no_mental_hand
    fail_if (not (hand_no == live.hand_no)) (wrong_hand hand_no (some live.hand_no))
    author ← gets (λ s. deal_seat_of W s.table from)
    fail_if (not (is_seat author seat)) deal_author

  -- A checked message: what it does to the deal, and the pump.
  unfoldable pub apply_to_deal : PeerId → ℕ → ℕ → Mental W (Unit {0}) → Running W (Unit {0})
  apply_to_deal from hand_no seat ingest = do
    check_mental_msg from hand_no seat
    on_mental W ingest
    pump_mental W

  unfoldable pub apply_key_announce : PeerId → ℕ → ℕ → List ℕ → Running W (Unit {0})
  apply_key_announce from hand_no seat payload =
      apply_to_deal from hand_no seat (ingest_key W seat payload)

  unfoldable pub apply_shuffle_announce : PeerId → ℕ → ℕ → List ℕ → Running W (Unit {0})
  apply_shuffle_announce from hand_no turn payload =
      apply_to_deal from hand_no turn (ingest_shuffle W turn turn payload)

  unfoldable pub apply_reveal_announce :
      PeerId → ℕ → ℕ → RevealRound → List (List ℕ) → Running W (Unit {0})
  apply_reveal_announce from hand_no seat round tokens =
      apply_to_deal from hand_no seat (ingest_reveal W seat round tokens)

  unfoldable pub dispatch : W.scheme.Rng → TableMessage → PeerId → Running W (Unit {0})
  dispatch g (join_table name) from = pure tt
  dispatch g (deal_payload hand_no payload) from = pure tt
  dispatch g (hand_complete hand_no result) from = pure tt
  dispatch g (start_hand hand_no button seed seats stacks sb bb) from =
      apply_start_hand from hand_no button seed seats stacks sb bb
  dispatch g (start_mental_hand hand_no button session seats stacks sb bb) from =
      apply_start_mental_hand g from hand_no button session seats stacks sb bb
  dispatch g (act hand_no action) from = apply_act from hand_no action
  dispatch g (key_announce hand_no seat payload) from = apply_key_announce from hand_no seat payload
  dispatch g (shuffle_announce hand_no turn payload) from =
      apply_shuffle_announce from hand_no turn payload
  dispatch g (reveal_announce hand_no seat round tokens) from =
      apply_reveal_announce from hand_no seat round tokens

  unfoldable pub handle : W.scheme.Rng → TableMessage → PeerId → Exec (Table W) (TableError W) Step
  handle g msg from = stepping (dispatch g msg from)

  -- The body of `local_turn`, whose strategy returns an action or panics.
  unfoldable pub take_local_turn :
      (BettingState → ℕ → Outcome (TableError W) WireAction) → Running W (Unit {0})
  take_local_turn decide = do
    mine ← gets (λ s. is_local_turn W s.table)
    let take_turn = do
      live ← live_or no_hand_in_progress
      seat ← or_fail live.betting.to_act no_hand_in_progress
      action ← lift (decide live.betting seat)
      state ← lift (map_err betting (apply live.betting seat (to_game action)))
      set_betting W state
      modify (λ s. record s { step = record s.step { broadcasts = act live.hand_no action ∷ [] } })
      advance_streets_and_settle W
    if mine then take_turn else pure tt

  unfoldable pub local_turn :
      (BettingState → ℕ → Outcome (TableError W) WireAction) → Exec (Table W) (TableError W) Step
  local_turn decide = stepping (take_local_turn decide)

  unfoldable pub local_deal_step : Exec (Table W) (TableError W) Step
  local_deal_step = stepping (pump_mental W)
