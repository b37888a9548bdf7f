-- ===== src/Protocol/Driver/Game.antt =====
-- protocol/src/driver.rs: `run_host_generic`, the hands of the host behind its lobby. The node is
-- running: how it is made and shut down is left out, and `fallback` is what it knows of the table's
-- URI behind the lobby.
use ten_cent_poker_client.Prelude.{
  ℕ, zero, suc, ◌+◌, ◌%◌, not, Option, some, List, [], ◌∷◌, ◌++◌, map, ltb, if◌then◌else◌, Outcome,
  ok, err, panic, length, keep, replicate,
}
use ten_cent_poker_client.Prelude.Exec.{pure, fail, gets, modify, maybe, ◌>>=◌, ◌>>◌}
use ten_cent_poker_client.Protocol.Setting.{Setting, TableMessage, start_hand, start_mental_hand}
use ten_cent_poker_client.Protocol.Table.{new_table}
use ten_cent_poker_client.Protocol.Driver.{
  demo_seed, Network, hand_result, ended, Decider, Event, Driving, DriverError, table, Answer,
  GameReport, HostOptions,
}
use ten_cent_poker_client.Protocol.Driver.Steps.{either, try_handle, observe}
use ten_cent_poker_client.Protocol.Driver.Lobby.{Lobby, new_lobby, lobby}
use ten_cent_poker_client.Protocol.Driver.Host.{play_one_hand, new_driver}

module _ (W : Setting) (N : Network W) where
  open W use {PeerId, peer_eq}
  open N use {peer_bytes, session_seed}

  -- The message that starts a hand.
  unfoldable pub start_message : HostOptions W N → ℕ → ℕ → List PeerId → List ℕ → TableMessage
  start_message opts hand_no button roster stacks =
      let seats = map peer_bytes roster in
      if opts.is_mental
      then start_mental_hand hand_no button (session_seed hand_no) seats stacks opts.small_blind
          opts.big_blind
      else start_hand hand_no button (demo_seed hand_no) seats stacks opts.small_blind
          opts.big_blind

  -- The hands from `hand_no` on, as many as are left.
  unfoldable pub play_hands :
      Decider W
      → HostOptions W N
      → List PeerId
      → ℕ
      → ℕ
      → List ℕ
      → ℕ
      → List (Event W)
      → Driving W N (Unit {0})
  play_hands decider opts roster zero hand_no stacks button events = pure tt
  play_hands decider opts roster (suc left) hand_no stacks button events = do
    d ← gets (λ d. d)
    let start = start_message opts hand_no button roster stacks
    let guests = keep (λ p. not (peer_eq p d.me)) roster
    let hand = do
      tried ← try_handle W N start d.me
      start_step ← either W N tried pure (λ e. fail (table e))
      played ← play_one_hand W N decider hand_no start start_step guests events
      let outcome = played.0
      observe W N (hand_result outcome played.1)
      modify (λ d. record d {
        reports = d.reports ++ record { outcome = outcome; local_hole = played.1 } ∷ [];
      })
      play_hands decider opts roster left (suc hand_no) outcome.final_stacks
          ((button + 1) % length roster) played.2
    if ltb (length roster) opts.min_players then pure tt else hand

  -- The hands behind the lobby, and the report.
  unfoldable pub host_game :
      Decider W
      → HostOptions W N
      → Option (List ℕ)
      → Lobby W
      → List (Event W)
      → Driving W N (GameReport W)
  host_game decider opts fallback l events = do
    let stacks = replicate (length l.roster) opts.starting_stack
    play_hands decider opts l.roster opts.hands 1 stacks 0 events
    observe W N ended
    d ← gets (λ d. d)
    pure (record { uri = maybe l.uri fallback some; seats = l.roster; hands = d.reports })

  unfoldable pub run_host :
      Decider W
      → HostOptions W N
      → PeerId
      → Option (List ℕ)
      → List (Answer W N)
      → List (Event W)
      → Outcome (DriverError W N) (GameReport W)
  run_host decider opts me fallback answers events =
      let lobbied = lobby W N opts.min_players events (new_lobby W me) in
      let d = new_driver W N me (some (new_table W me me)) answers in
      elim lobbied.0 [
        | ok rest ↦ (host_game decider opts fallback lobbied.1 rest d).0
        | err e ↦ err e
        | panic ↦ panic
      ]
