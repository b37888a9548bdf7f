-- ===== src/Protocol/Mental/Messages.antt =====
-- protocol/src/mental.rs: the messages that a peer makes and takes in, and the phases they lead to.
use ten_cent_poker_client.Prelude.{
  ℕ, suc, true, ◌&&◌, ◌||◌, not, List, [], ◌∷◌, ◌==◌, if◌then◌else◌, length, range_from,
}
use ten_cent_poker_client.Prelude.Exec.{
  pure, lift, gets, modify, fail_if, or_fail, when, ◌>>=◌, ◌>>◌,
}
use ten_cent_poker_client.Prelude.Map
use ten_cent_poker_client.Deal.Peer.{
  RevealMessage, registered_public, key_announcement, all_keys_in, finalize_aggregate_key,
  mask_initial_deck, is_my_shuffle_turn, own_reveal_contribution, reveal_tokens, verify_reveal,
}
use ten_cent_poker_client.Deal.Peer as Peer
use ten_cent_poker_client.Deal.Wire.{
  serialize_key, deserialize_key, serialize_shuffle, deserialize_shuffle, serialize_reveal,
  deserialize_reveal,
}
use ten_cent_poker_client.Protocol.Setting.{
  Setting, RevealRound, hole, showdown, deal_author, deal_out_of_turn,
}
use ten_cent_poker_client.Protocol.Layout.{hole_of_seat, community_positions}
use ten_cent_poker_client.Protocol.Mental.{
  Mental, on_peer, or_deal2, insert_round, phase_eq, keygen, shuffle, ready,
}
use ten_cent_poker_client.Protocol.Mental.Tokens.{collect, have_token}

module _ (W : Setting) where
  unfoldable pub maybe_finalize_keys : Mental W (Unit {0})
  maybe_finalize_keys = do
    complete ← gets (λ s.
        phase_eq s.phase keygen
        && (length s.keys_in == s.num_players && all_keys_in W.scheme s.peer))
    when complete (do
      on_peer W (finalize_aggregate_key W.scheme)
      on_peer W (mask_initial_deck W.scheme)
      modify (λ s. record s { phase = shuffle }))

  unfoldable pub maybe_ready : Mental W (Unit {0})
  maybe_ready = modify (λ s.
      if phase_eq s.phase shuffle && s.shuffles_done == s.num_players
      then record s { phase = ready }
      else s)

  unfoldable pub make_key_announcement : Mental W (List ℕ)
  make_key_announcement = do
    ann ← on_peer W (key_announcement W.scheme)
    modify (λ s. record s { keys_in = Map.insert s.seat tt s.keys_in })
    maybe_finalize_keys
    modify (λ s. record s { announced_key = true })
    or_deal2 W (serialize_key W.scheme W.key_codec W.key_proof_codec W.scalar_codec ann)

  unfoldable pub make_shuffle : Mental W (ℕ × List ℕ)
  make_shuffle = do
    mine ← gets (λ s. is_my_shuffle_turn W.scheme s.peer s.shuffles_done)
    fail_if (not mine) deal_out_of_turn
    msg ← on_peer W (Peer.shuffle W.scheme)
    turn ← gets (λ s. s.shuffles_done)
    modify (λ s. record s {
      shuffles_done = suc s.shuffles_done;
      announced_shuffle_for = Map.insert turn tt s.announced_shuffle_for;
    })
    maybe_ready
    bytes ← or_deal2 W (serialize_shuffle W.scheme W.card_codec W.shuffle_proof_codec msg)
    pure (turn, bytes)

  -- The serialization of `reveal_for`, up to the first error.
  unfoldable pub serialize_each : List (RevealMessage W.scheme) → Mental W (List (List ℕ))
  serialize_each [] = pure []
  serialize_each (msg ∷ msgs) = do
    bytes ←
        or_deal2 W (serialize_reveal W.scheme W.token_codec W.reveal_proof_codec W.key_codec msg)
    rest ← serialize_each msgs
    pure (bytes ∷ rest)

  unfoldable pub reveal_for : List ℕ → Mental W (List (List ℕ))
  reveal_for positions = do msgs ← on_peer W (reveal_tokens W.scheme positions); serialize_each msgs

  unfoldable pub self_collect : RevealRound → List ℕ → Mental W (Unit {0})
  self_collect round [] = pure tt
  self_collect round (position ∷ positions) = do
    own ← on_peer W (own_reveal_contribution W.scheme position)
    seat ← gets (λ s. s.seat)
    collect W round seat position own.0 own.1
    self_collect round positions

  -- The positions of the seats but this peer's, in `make_hole_reveal`.
  unfoldable pub other_positions : List ℕ → Mental W (List ℕ)
  other_positions [] = pure []
  other_positions (seat ∷ seats) = do
    mine ← gets (λ s. seat == s.seat)
    found ← gets (λ s. hole_of_seat s.layout seat)
    let rest = other_positions seats
    let with_seat = do
      positions ← lift found
      others ← rest
      pure (positions.0 ∷ positions.1 ∷ others)
    if mine then rest else with_seat

  unfoldable pub make_hole_reveal : Mental W (List (List ℕ))
  make_hole_reveal = do
    seats ← gets (λ s. range_from 0 s.num_players)
    positions ← other_positions seats
    out ← reveal_for positions
    self_collect hole positions
    modify (λ s. record s { announced_hole = true })
    pure out

  unfoldable pub make_community_reveal : RevealRound → Mental W (List (List ℕ))
  make_community_reveal round = do
    positions ← gets (λ s. community_positions round s.num_players)
    out ← reveal_for positions
    self_collect round positions
    modify (λ s. record s { announced_community = insert_round round s.announced_community })
    pure out

  unfoldable pub make_showdown_reveal : Mental W (List (List ℕ))
  make_showdown_reveal = do
    found ← gets (λ s. hole_of_seat s.layout s.seat)
    mine ← lift found
    let positions = mine.0 ∷ mine.1 ∷ []
    out ← reveal_for positions
    self_collect showdown positions
    modify (λ s. record s { announced_showdown = true })
    pure out

  unfoldable pub ingest_key : ℕ → List ℕ → Mental W (Unit {0})
  ingest_key from_seat payload = do
    ann ← or_deal2 W (deserialize_key W.scheme W.key_codec W.key_proof_codec W.scalar_codec payload)
    fail_if (not (ann.seat == from_seat)) deal_author
    own ← gets (λ s. from_seat == s.seat)
    when (not own) (do
      on_peer W (Peer.ingest_key W.scheme ann)
      modify (λ s. record s { keys_in = Map.insert from_seat tt s.keys_in })
      maybe_finalize_keys)

  unfoldable pub ingest_shuffle : ℕ → ℕ → List ℕ → Mental W (Unit {0})
  ingest_shuffle from_seat turn payload = do
    phase ← gets (λ s. s.phase)
    fail_if (not (phase_eq phase shuffle)) deal_out_of_turn
    next ← gets (λ s. s.shuffles_done)
    fail_if (not (turn == next) || not (from_seat == turn)) deal_out_of_turn
    own ← gets (λ s. from_seat == s.seat)
    when (not own) (do
      msg ← or_deal2 W (deserialize_shuffle W.scheme W.card_codec W.shuffle_proof_codec payload)
      fail_if (not (msg.seat == from_seat)) deal_author
      on_peer W (Peer.ingest_shuffle W.scheme msg)
      modify (λ s. record s { shuffles_done = suc s.shuffles_done })
      maybe_ready)

  -- The loop of `ingest_reveal`.
  unfoldable pub ingest_tokens : RevealRound → List (List ℕ) → Mental W (Unit {0})
  ingest_tokens round [] = pure tt
  ingest_tokens round (raw ∷ tokens) = do
    msg ←
        or_deal2 W (deserialize_reveal W.scheme W.token_codec W.reveal_proof_codec W.key_codec raw)
    found ← gets (λ s. registered_public W.scheme s.peer msg.seat)
    registered ← or_fail found deal_author
    fail_if (not (W.scheme.key_eq msg.public registered)) deal_author
    known ← gets (λ s. have_token W s round registered msg.position)
    when (not known) (do
      verified ← on_peer W (verify_reveal W.scheme msg)
      collect W round msg.seat msg.position verified.0 verified.1)
    ingest_tokens round tokens

  unfoldable pub ingest_reveal : ℕ → RevealRound → List (List ℕ) → Mental W (Unit {0})
  ingest_reveal from_seat round tokens = do
    phase ← gets (λ s. s.phase)
    fail_if (not (phase_eq phase ready)) deal_out_of_turn
    ingest_tokens round tokens
