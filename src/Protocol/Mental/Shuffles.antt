-- ===== src/Protocol/Mental/Shuffles.antt =====
-- protocol/src/mental.rs: what a peer does with a deal, but for a shuffle, leaves the number of shuffles
-- as it is.
use ten_cent_poker_client.Prelude.{
  ℕ, ◌≡◌, Bool, true, false, Option, Outcome, List, [], ◌∷◌, if◌then◌else◌,
}
use ten_cent_poker_client.Prelude.Exec.{
  Exec, Keeps, Keeps-modify, keeps_rules, Rejects, modify, gets, fail_if, when, ◌>>=◌, ◌>>◌,
}
use ten_cent_poker_client.Cards.{Card}
use ten_cent_poker_client.Deal.Peer.{PeerDeal, RevealMessage}
use ten_cent_poker_client.Deal.Encoding.{DealError}
use ten_cent_poker_client.Protocol.Setting.{Setting, RevealRound, hole, flop, turn, river, showdown}
use ten_cent_poker_client.Protocol.Layout.{Positions}
use ten_cent_poker_client.Protocol.Mental.{MentalDeal, Mental, on_peer, or_deal2, ready}
use ten_cent_poker_client.Protocol.Mental.Tokens.{
  hole_owner, local_card, both_cards, try_decrypt_local_hole, push_decrypted, try_decrypt_community,
  showdown_card, try_decrypt_showdown, collect_community, collect,
}
use ten_cent_poker_client.Protocol.Mental.Messages.{
  maybe_finalize_keys, maybe_ready, make_key_announcement, serialize_each, reveal_for, self_collect,
  other_positions, make_hole_reveal, make_community_reveal, make_showdown_reveal, ingest_key,
  ingest_tokens, ingest_reveal,
}

module _ (W : Setting) (n : ℕ) where
  -- So many shuffles are done.
  abbrev pub Done : MentalDeal W → Type 0
  Done s = s.shuffles_done ≡ n

  pub Keeps-on_peer :
      {A : Type 0} (m : Exec (PeerDeal W.scheme) (DealError W.scheme) A) → Keeps Done (on_peer W m)
  unfolding on_peer
  Keeps-on_peer m = record { at = λ s h. h }

  pub Keeps-or_deal2 : {A : Type 0} (r : Outcome (DealError W.scheme) A) → Keeps Done (or_deal2 W r)
  unfolding or_deal2
  Keeps-or_deal2 r = search keeps_rules

  pub Keeps-hole_owner : (position : ℕ) → Keeps Done (hole_owner W position)
  unfolding hole_owner
  Keeps-hole_owner position = record { at = λ s h. h }

  pub ruleset done_rules =
      (keeps_rules, Keeps-modify, Keeps-on_peer, Keeps-or_deal2, Keeps-hole_owner)

  Keeps-local_card : (position : ℕ) → Keeps Done (local_card W position)
  unfolding local_card
  Keeps-local_card position = search done_rules depth 12

  Keeps-both_cards :
      (round : ℕ → Mental W (Option Card)) (positions : Positions)
      (store : Card × Card → Mental W (Unit {0}))
      → ((i : ℕ) → Keeps Done (round i))
      → ((c : Card × Card) → Keeps Done (store c))
      → Keeps Done (both_cards W round positions store)
  unfolding both_cards
  Keeps-both_cards round positions store kr ks = search done_rules depth 12

  Keeps-try_decrypt_local_hole : Keeps Done (try_decrypt_local_hole W)
  unfolding try_decrypt_local_hole
  Keeps-try_decrypt_local_hole = search (done_rules, Keeps-local_card, Keeps-both_cards) depth 14

  Keeps-push_decrypted : (positions : List ℕ) → Keeps Done (push_decrypted W positions)
  unfolding push_decrypted
  Keeps-push_decrypted [] = search done_rules
  Keeps-push_decrypted (position ∷ positions) =
      let rest = Keeps-push_decrypted positions in search done_rules depth 14

  Keeps-showdown_card : (position : ℕ) → Keeps Done (showdown_card W position)
  unfolding showdown_card
  Keeps-showdown_card position = search done_rules depth 14

  Keeps-try_decrypt_showdown : (position : ℕ) → Keeps Done (try_decrypt_showdown W position)
  unfolding try_decrypt_showdown
  Keeps-try_decrypt_showdown position =
      search (done_rules, Keeps-showdown_card, Keeps-both_cards) depth 14

  Keeps-collect_community :
      (round : RevealRound) (position : ℕ) (tok : W.scheme.RevealToken) (pk : W.scheme.PublicKey)
      → Keeps Done (collect_community W round position tok pk)
  unfolding collect_community try_decrypt_community
  Keeps-collect_community round position tok pk = search (done_rules, Keeps-push_decrypted) depth 16

  Keeps-collect :
      (round : RevealRound) (from_seat position : ℕ) (tok : W.scheme.RevealToken)
      (pk : W.scheme.PublicKey)
      → Keeps Done (collect W round from_seat position tok pk)
  unfolding collect
  Keeps-collect hole from_seat position tok pk =
      search (done_rules, Keeps-try_decrypt_local_hole) depth 14
  Keeps-collect flop from_seat position tok pk = search Keeps-collect_community
  Keeps-collect turn from_seat position tok pk = search Keeps-collect_community
  Keeps-collect river from_seat position tok pk = search Keeps-collect_community
  Keeps-collect showdown from_seat position tok pk =
      search (done_rules, Keeps-try_decrypt_showdown) depth 14

  Keeps-maybe_finalize_keys : Keeps Done (maybe_finalize_keys W)
  unfolding maybe_finalize_keys
  Keeps-maybe_finalize_keys = search done_rules depth 14

  pub Keeps-maybe_ready : Keeps Done (maybe_ready W)
  unfolding maybe_ready
  Keeps-maybe_ready = record { at = λ s h. either _ s h }
    where
      either :
          (b : Bool) (s : MentalDeal W)
          → Done s
          → Done (if b then record s { phase = ready } else s)
      either true s h = h
      either false s h = h

  pub Keeps-make_key_announcement : Keeps Done (make_key_announcement W)
  unfolding make_key_announcement
  Keeps-make_key_announcement = search (done_rules, Keeps-maybe_finalize_keys) depth 14

  Keeps-serialize_each : (msgs : List (RevealMessage W.scheme)) → Keeps Done (serialize_each W msgs)
  unfolding serialize_each
  Keeps-serialize_each [] = search done_rules
  Keeps-serialize_each (msg ∷ msgs) =
      let rest = Keeps-serialize_each msgs in search done_rules depth 14

  Keeps-reveal_for : (positions : List ℕ) → Keeps Done (reveal_for W positions)
  unfolding reveal_for
  Keeps-reveal_for positions = search (done_rules, Keeps-serialize_each) depth 14

  Keeps-self_collect :
      (round : RevealRound) (positions : List ℕ) → Keeps Done (self_collect W round positions)
  unfolding self_collect
  Keeps-self_collect round [] = search done_rules
  Keeps-self_collect round (position ∷ positions) =
      let rest = Keeps-self_collect round positions in search (done_rules, Keeps-collect) depth 14

  Keeps-other_positions : (seats : List ℕ) → Keeps Done (other_positions W seats)
  unfolding other_positions
  Keeps-other_positions [] = search done_rules
  Keeps-other_positions (seat ∷ seats) =
      let rest = Keeps-other_positions seats in search done_rules depth 14

  pub Keeps-make_hole_reveal : Keeps Done (make_hole_reveal W)
  unfolding make_hole_reveal
  Keeps-make_hole_reveal =
      search (done_rules, Keeps-other_positions, Keeps-reveal_for, Keeps-self_collect) depth 14

  pub Keeps-make_community_reveal :
      (round : RevealRound) → Keeps Done (make_community_reveal W round)
  unfolding make_community_reveal
  Keeps-make_community_reveal round =
      search (done_rules, Keeps-reveal_for, Keeps-self_collect) depth 14

  pub Keeps-make_showdown_reveal : Keeps Done (make_showdown_reveal W)
  unfolding make_showdown_reveal
  Keeps-make_showdown_reveal = search (done_rules, Keeps-reveal_for, Keeps-self_collect) depth 14

  pub Keeps-ingest_key :
      (from_seat : ℕ) (payload : List ℕ) → Keeps Done (ingest_key W from_seat payload)
  unfolding ingest_key
  Keeps-ingest_key from_seat payload = search (done_rules, Keeps-maybe_finalize_keys) depth 14

  Keeps-ingest_tokens :
      (round : RevealRound) (tokens : List (List ℕ)) → Keeps Done (ingest_tokens W round tokens)
  unfolding ingest_tokens
  Keeps-ingest_tokens round [] = search done_rules
  Keeps-ingest_tokens round (raw ∷ tokens) =
      let rest = Keeps-ingest_tokens round tokens in search (done_rules, Keeps-collect) depth 14

  pub Keeps-ingest_reveal :
      (from_seat : ℕ) (round : RevealRound) (tokens : List (List ℕ))
      → Keeps Done (ingest_reveal W from_seat round tokens)
  unfolding ingest_reveal
  Keeps-ingest_reveal from_seat round tokens = search (done_rules, Keeps-ingest_tokens) depth 14
