-- ===== src/Protocol/Mental.antt =====
-- protocol/src/mental.rs: `MentalDeal`, one peer's runtime of a hand that is dealt without a dealer:
-- its state, and the methods that read or mark it. The children are about the decryption of the
-- cards and about the messages.
pub mod Tokens
pub mod Messages
pub mod Distinct
pub mod Once
mod Shuffles
mod Counts
pub mod Turns
use ten_cent_poker_client.Prelude.{
  ℕ, Bool, true, false, ◌&&◌, not, Option, none, some, List, [], ◌==◌, if◌then◌else◌, Outcome,
}
use ten_cent_poker_client.Prelude.Exec.{Exec, lift, gets, map_err, within, ◌>>=◌}
use ten_cent_poker_client.Prelude.Map
use ten_cent_poker_client.Prelude.Map.{Map, NumberSet, has, is_some}
use ten_cent_poker_client.Cards.{Card}
use ten_cent_poker_client.Deal.Encoding.{DealError}
use ten_cent_poker_client.Deal.Peer.{PeerDeal, is_my_shuffle_turn}
use ten_cent_poker_client.Deal.Peer as Peer
use ten_cent_poker_client.Protocol.Setting.{Setting, TableError, RevealRound, round_order, deal2}
use ten_cent_poker_client.Protocol.Layout.{DeckLayout, new_layout}

pub data DealPhase : Type 0 where
  keygen shuffle ready : DealPhase

abbrev pub phase_order : DealPhase → ℕ
phase_order keygen = 0
phase_order shuffle = 1
phase_order ready = 2

abbrev pub phase_eq : DealPhase → DealPhase → Bool
phase_eq p q = phase_order p == phase_order q

pub data DealEffect : Type 0 where
  announce_key : DealEffect
  shuffle_turn : ℕ → DealEffect
  reveal_hole : DealEffect
  reveal_community : RevealRound → DealEffect
  reveal_showdown : DealEffect

-- A set of rounds.
abbrev pub insert_round : RevealRound → NumberSet → NumberSet
insert_round round rounds = Map.insert (round_order round) tt rounds

abbrev pub has_round : NumberSet → RevealRound → Bool
has_round rounds round = has rounds (round_order round)

-- `Option<DealPhase> == Some(phase)`
abbrev pub is_phase : Option DealPhase → DealPhase → Bool
is_phase none phase = false
is_phase (some last) phase = phase_eq last phase

module _ (W : Setting) where
  abbrev pub Tokens : Type 0
  Tokens = List (W.scheme.RevealToken × W.scheme.PublicKey)

  abbrev pub TokenSet : Type 0
  TokenSet = Map Tokens

  pub record MentalDeal : Type 0 where
    pub peer : PeerDeal W.scheme
    pub num_players : ℕ
    pub seat : ℕ
    pub layout : DeckLayout
    pub phase : DealPhase
    pub keys_in : NumberSet
    pub shuffles_done : ℕ
    pub hole_tokens : TokenSet
    pub local_hole : Option (Card × Card)
    pub community_tokens : TokenSet
    pub community : List Card
    pub community_done : NumberSet
    pub showdown_tokens : TokenSet
    pub showdown_hole : Map (Card × Card)
    pub announced_key : Bool
    pub announced_hole : Bool
    pub announced_shuffle_for : NumberSet
    pub announced_community : NumberSet
    pub announced_showdown : Bool
    pub emitted_phase : Option DealPhase
    pub emitted_hole_ready : Bool
    pub emitted_streets : NumberSet

  abbrev pub Mental : Type 0 → Type 0
  Mental A = Exec MentalDeal (TableError W) A

  -- `self.peer.…().map_err(TableError::Deal2)?`
  unfoldable pub on_peer : {A : Type 0} → Exec (PeerDeal W.scheme) (DealError W.scheme) A → Mental A
  on_peer m = within (λ s. s.peer) (λ p s. record s { peer = p }) deal2 m

  unfoldable pub or_deal2 : {A : Type 0} → Outcome (DealError W.scheme) A → Mental A
  or_deal2 r = lift (map_err deal2 r)

  -- `MentalDeal::new`, with the thread's generator as the state.
  unfoldable pub new_mental : List ℕ → ℕ → ℕ → ℕ → Exec W.scheme.Rng (TableError W) MentalDeal
  new_mental session_seed seat num_players button = do
    peer ← λ g.
        let (r, g') = Peer.new W.scheme session_seed 4 13 seat num_players g in
        (map_err deal2 r, g')
    layout ← lift (new_layout num_players button)
    gets (λ g. record {
      peer = peer;
      num_players = num_players;
      seat = seat;
      layout = layout;
      phase = keygen;
      keys_in = [];
      shuffles_done = 0;
      hole_tokens = [];
      local_hole = none;
      community_tokens = [];
      community = [];
      community_done = [];
      showdown_tokens = [];
      showdown_hole = [];
      announced_key = false;
      announced_hole = false;
      announced_shuffle_for = [];
      announced_community = [];
      announced_showdown = false;
      emitted_phase = none;
      emitted_hole_ready = false;
      emitted_streets = [];
    })

  unfoldable pub take_phase_changed : DealPhase → MentalDeal → Bool × MentalDeal
  take_phase_changed phase s =
      if is_phase s.emitted_phase phase
      then (false, s)
      else (true, record s { emitted_phase = some phase })

  unfoldable pub take_hole_ready_once : MentalDeal → Bool × MentalDeal
  take_hole_ready_once s =
      if s.emitted_hole_ready then (false, s) else (true, record s { emitted_hole_ready = true })

  unfoldable pub take_street_announced : RevealRound → MentalDeal → Bool × MentalDeal
  take_street_announced round s =
      if not (has_round s.community_done round)
      then (false, s)
      else (if has_round s.emitted_streets round
          then (false, s)
          else (true, record s { emitted_streets = insert_round round s.emitted_streets }))

  unfoldable pub ready_for_betting : MentalDeal → Bool
  ready_for_betting s = phase_eq s.phase ready && is_some s.local_hole

  unfoldable pub showdown_hole_of : MentalDeal → ℕ → Option (Card × Card)
  showdown_hole_of s seat = Map.get s.showdown_hole seat

  unfoldable pub pending_effect : MentalDeal → Option DealEffect
  pending_effect s = elim s.phase [
    | keygen ↦ if s.announced_key then none else some announce_key
    | shuffle ↦
        if is_my_shuffle_turn W.scheme s.peer s.shuffles_done
          && not (has s.announced_shuffle_for s.shuffles_done)
        then some (shuffle_turn s.shuffles_done)
        else none
    | ready ↦ if s.announced_hole then none else some reveal_hole
  ]

  unfoldable pub needs_key_announce : MentalDeal → Bool
  needs_key_announce s = phase_eq s.phase keygen && not s.announced_key

  unfoldable pub needs_community_reveal : MentalDeal → RevealRound → Bool
  needs_community_reveal s round =
      phase_eq s.phase ready && not (has_round s.announced_community round)

  unfoldable pub needs_showdown_reveal : MentalDeal → Bool
  needs_showdown_reveal s = phase_eq s.phase ready && not s.announced_showdown

  unfoldable pub community_revealed : MentalDeal → RevealRound → Bool
  community_revealed s round = has_round s.community_done round
