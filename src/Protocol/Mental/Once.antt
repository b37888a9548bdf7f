-- ===== src/Protocol/Mental/Once.antt =====
-- protocol/src/mental.rs: no message makes a peer count a token twice.
use ten_cent_poker_client.Prelude.{ℕ, Bool, true, false, List, [], ◌∷◌, if◌then◌else◌}
use ten_cent_poker_client.Prelude.Exec.{Keeps}
use ten_cent_poker_client.Deal.Peer.{RevealMessage}
use ten_cent_poker_client.Protocol.Setting.{Setting, RevealRound}
use ten_cent_poker_client.Protocol.Mental.{MentalDeal, ready}
use ten_cent_poker_client.Protocol.Mental.Messages.{
  maybe_finalize_keys, maybe_ready, make_key_announcement, make_shuffle, serialize_each, reveal_for,
  self_collect, other_positions, make_hole_reveal, make_community_reveal, make_showdown_reveal,
  ingest_key, ingest_shuffle, ingest_tokens, ingest_reveal,
}
use ten_cent_poker_client.Protocol.Mental.Distinct.{TokensOnce, once_rules, Keeps-collect}

module _ (W : Setting) where
  Keeps-maybe_finalize_keys : Keeps (TokensOnce W) (maybe_finalize_keys W)
  unfolding maybe_finalize_keys
  Keeps-maybe_finalize_keys = search once_rules depth 14

  Keeps-maybe_ready : Keeps (TokensOnce W) (maybe_ready W)
  unfolding maybe_ready
  Keeps-maybe_ready = record { at = λ s h. either _ s h }
    where
      either :
          (b : Bool) (s : MentalDeal W)
          → TokensOnce W s
          → TokensOnce W (if b then record s { phase = ready } else s)
      either true s h = h
      either false s h = h

  Keeps-make_key_announcement : Keeps (TokensOnce W) (make_key_announcement W)
  unfolding make_key_announcement
  Keeps-make_key_announcement = search (once_rules, Keeps-maybe_finalize_keys) depth 14

  Keeps-make_shuffle : Keeps (TokensOnce W) (make_shuffle W)
  unfolding make_shuffle
  Keeps-make_shuffle = search (once_rules, Keeps-maybe_ready) depth 14

  Keeps-serialize_each :
      (msgs : List (RevealMessage W.scheme)) → Keeps (TokensOnce W) (serialize_each W msgs)
  unfolding serialize_each
  Keeps-serialize_each [] = search once_rules depth 14
  Keeps-serialize_each (msg ∷ msgs) =
      let rest = Keeps-serialize_each msgs in search once_rules depth 14

  Keeps-reveal_for : (positions : List ℕ) → Keeps (TokensOnce W) (reveal_for W positions)
  unfolding reveal_for
  Keeps-reveal_for positions = search (once_rules, Keeps-serialize_each) depth 14

  Keeps-self_collect :
      (round : RevealRound) (positions : List ℕ)
      → Keeps (TokensOnce W) (self_collect W round positions)
  unfolding self_collect
  Keeps-self_collect round [] = search once_rules
  Keeps-self_collect round (position ∷ positions) =
      let rest = Keeps-self_collect round positions in search (once_rules, Keeps-collect) depth 14

  Keeps-other_positions : (seats : List ℕ) → Keeps (TokensOnce W) (other_positions W seats)
  unfolding other_positions
  Keeps-other_positions [] = search once_rules depth 14
  Keeps-other_positions (seat ∷ seats) =
      let rest = Keeps-other_positions seats in search once_rules depth 14

  Keeps-make_hole_reveal : Keeps (TokensOnce W) (make_hole_reveal W)
  unfolding make_hole_reveal
  Keeps-make_hole_reveal =
      search (once_rules, Keeps-other_positions, Keeps-reveal_for, Keeps-self_collect) depth 14

  Keeps-make_community_reveal :
      (round : RevealRound) → Keeps (TokensOnce W) (make_community_reveal W round)
  unfolding make_community_reveal
  Keeps-make_community_reveal round =
      search (once_rules, Keeps-reveal_for, Keeps-self_collect) depth 14

  Keeps-make_showdown_reveal : Keeps (TokensOnce W) (make_showdown_reveal W)
  unfolding make_showdown_reveal
  Keeps-make_showdown_reveal = search (once_rules, Keeps-reveal_for, Keeps-self_collect) depth 14

  Keeps-ingest_key :
      (from_seat : ℕ) (payload : List ℕ) → Keeps (TokensOnce W) (ingest_key W from_seat payload)
  unfolding ingest_key
  Keeps-ingest_key from_seat payload = search (once_rules, Keeps-maybe_finalize_keys) depth 14

  Keeps-ingest_shuffle :
      (from_seat next : ℕ) (payload : List ℕ)
      → Keeps (TokensOnce W) (ingest_shuffle W from_seat next payload)
  unfolding ingest_shuffle
  Keeps-ingest_shuffle from_seat next payload = search (once_rules, Keeps-maybe_ready) depth 14

  Keeps-ingest_tokens :
      (round : RevealRound) (tokens : List (List ℕ))
      → Keeps (TokensOnce W) (ingest_tokens W round tokens)
  unfolding ingest_tokens
  Keeps-ingest_tokens round [] = search once_rules
  Keeps-ingest_tokens round (raw ∷ tokens) =
      let rest = Keeps-ingest_tokens round tokens in search (once_rules, Keeps-collect) depth 14

  Keeps-ingest_reveal :
      (from_seat : ℕ) (round : RevealRound) (tokens : List (List ℕ))
      → Keeps (TokensOnce W) (ingest_reveal W from_seat round tokens)
  unfolding ingest_reveal
  Keeps-ingest_reveal from_seat round tokens = search (once_rules, Keeps-ingest_tokens) depth 14

-- What the table does with the deal of its hand.
pub data DealCall : Type 0 where
  send_key : DealCall
  send_shuffle : DealCall
  send_hole : DealCall
  send_community : RevealRound → DealCall
  send_showdown : DealCall
  take_key : ℕ → List ℕ → DealCall
  take_shuffle : ℕ → ℕ → List ℕ → DealCall
  take_reveal : ℕ → RevealRound → List (List ℕ) → DealCall

module _ (W : Setting) where
  -- The deal after a call, and after several, whether they succeed or not.
  unfoldable pub deal_call : DealCall → MentalDeal W → MentalDeal W
  deal_call send_key s = (make_key_announcement W s).1
  deal_call send_shuffle s = (make_shuffle W s).1
  deal_call send_hole s = (make_hole_reveal W s).1
  deal_call (send_community round) s = (make_community_reveal W round s).1
  deal_call send_showdown s = (make_showdown_reveal W s).1
  deal_call (take_key from_seat payload) s = (ingest_key W from_seat payload s).1
  deal_call (take_shuffle from_seat next payload) s = (ingest_shuffle W from_seat next payload s).1
  deal_call (take_reveal from_seat round tokens) s = (ingest_reveal W from_seat round tokens s).1

  unfoldable pub deal_calls : List DealCall → MentalDeal W → MentalDeal W
  deal_calls [] s = s
  deal_calls (c ∷ cs) s = deal_calls cs (deal_call c s)

  deal_call-TokensOnce :
      (c : DealCall) (s : MentalDeal W) → TokensOnce W s → TokensOnce W (deal_call c s)
  unfolding deal_call
  deal_call-TokensOnce send_key s h = (Keeps-make_key_announcement W).at s h
  deal_call-TokensOnce send_shuffle s h = (Keeps-make_shuffle W).at s h
  deal_call-TokensOnce send_hole s h = (Keeps-make_hole_reveal W).at s h
  deal_call-TokensOnce (send_community round) s h = (Keeps-make_community_reveal W round).at s h
  deal_call-TokensOnce send_showdown s h = (Keeps-make_showdown_reveal W).at s h
  deal_call-TokensOnce (take_key from_seat payload) s h =
      (Keeps-ingest_key W from_seat payload).at s h
  deal_call-TokensOnce (take_shuffle from_seat next payload) s h =
      (Keeps-ingest_shuffle W from_seat next payload).at s h
  deal_call-TokensOnce (take_reveal from_seat round tokens) s h =
      (Keeps-ingest_reveal W from_seat round tokens).at s h

  -- From a deal in which no position has two tokens of one key, as in a new one, the messages that
  -- the peer sends and takes in, accepted or refused, in any order, never lead to two tokens of one
  -- key at a position of the holes, the community cards or the showdown.
  pub deal_calls-TokensOnce :
      (cs : List DealCall) (s : MentalDeal W) → TokensOnce W s → TokensOnce W (deal_calls cs s)
  unfolding deal_calls
  deal_calls-TokensOnce [] s h = h
  deal_calls-TokensOnce (c ∷ cs) s h =
      deal_calls-TokensOnce cs (deal_call c s) (deal_call-TokensOnce c s h)
