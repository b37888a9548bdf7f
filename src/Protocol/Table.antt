-- ===== src/Protocol/Table.antt =====
-- protocol/src/table.rs: `Table`, the replica of the table that every peer keeps: its state, and the
-- methods that read it. The children are about the end of a hand, the deal that a peer drives
-- forward, and the messages.
pub mod Result
pub mod Settle
pub mod Pump
pub mod Advance
pub mod Handle
pub mod Authority
pub mod Past
pub mod Replay
use ten_cent_poker_client.Prelude.{
  ℕ, suc, Bool, true, false, ◌&&◌, not, Option, none, some, List, [], ◌∷◌, ◌++◌, ◌==◌,
  if◌then◌else◌, Outcome, ok, panic, ℤ, get_elem?,
}
use ten_cent_poker_client.Prelude.Exec.{Exec, pure, lift, gets, modify, maybe, ◌>>=◌, ◌>>◌}
use ten_cent_poker_client.Cards.{Card}
use ten_cent_poker_client.Betting.State.{Street, preflop, flop, turn, river, BettingState}
use ten_cent_poker_client.Showdown.Defs.{PotAward, Hole}
use ten_cent_poker_client.Protocol.Setting.{Setting, TableError, TableMessage, RevealRound}
use ten_cent_poker_client.Protocol.Setting as Setting
use ten_cent_poker_client.Protocol.Mental.{
  DealPhase, DealEffect, MentalDeal, Mental, ready_for_betting, community_revealed,
}

pub record HandOutcome : Type 0 where
  pub hand_no : ℕ
  pub button : ℕ
  pub community : List Card
  pub deltas : List ℤ
  pub final_stacks : List ℕ
  pub awards : List PotAward

pub data TableEvent : Type 0 where
  hand_started : ℕ → TableEvent
  street_dealt : ℕ → Street → TableEvent
  deal_phase : ℕ → DealPhase → TableEvent
  local_hole_ready : ℕ → TableEvent
  hand_ended : HandOutcome → TableEvent

pub record Step : Type 0 where
  pub broadcasts : List TableMessage
  pub deal_effects : List DealEffect
  pub events : List TableEvent

abbrev pub new_step : Step
new_step = record { broadcasts = []; deal_effects = []; events = [] }

-- The community round that a street needs revealed before play.
unfoldable pub street_community_round : Street → Option RevealRound
street_community_round preflop = none
street_community_round flop = some Setting.flop
street_community_round turn = some Setting.turn
street_community_round river = some Setting.river

module _ (W : Setting) where
  open W use {PeerId, peer_eq}

  -- The placeholder's seed, deck, next index and holes.
  pub data Deal : Type 0 where
    placeholder : ℕ → List Card → ℕ → List Hole → Deal
    mental : MentalDeal W → Deal

  pub record LiveHand : Type 0 where
    pub hand_no : ℕ
    pub button : ℕ
    pub deal : Deal
    pub community : List Card
    pub betting : BettingState
    pub starting : List ℕ
    pub pending_settle : Bool

  pub record Table : Type 0 where
    pub local : PeerId
    pub host : PeerId
    pub roster : List PeerId
    pub live : Option LiveHand
    pub last_completed : Option ℕ

  unfoldable pub is_mental : Deal → Bool
  is_mental (placeholder seed deck deck_idx hole) = false
  is_mental (mental m) = true

  unfoldable pub mental_of : Deal → Option (MentalDeal W)
  mental_of (placeholder seed deck deck_idx hole) = none
  mental_of (mental m) = some m

  unfoldable pub new_table : PeerId → PeerId → Table
  new_table local host = record {
    local = local;
    host = host;
    roster = [];
    live = none;
    last_completed = none;
  }

  -- `roster.iter().position(|p| *p == peer)`, counted from `i` on.
  unfoldable pub position_from : ℕ → List PeerId → PeerId → Option ℕ
  position_from i [] peer = none
  position_from i (p ∷ roster) peer =
      let later = position_from (suc i) roster peer in if peer_eq p peer then some i else later

  -- `deal_seat_of`, and `local_seat`.
  unfoldable pub deal_seat_of : Table → PeerId → Option ℕ
  deal_seat_of t peer = position_from 0 t.roster peer

  unfoldable pub local_seat : Table → Option ℕ
  local_seat t = deal_seat_of t t.local

  unfoldable pub is_host : Table → Bool
  is_host t = peer_eq t.local t.host

  unfoldable pub live_hand_no : Table → Option ℕ
  live_hand_no t = elim t.live [ none ↦ none | some live ↦ some live.hand_no ]

  unfoldable pub community_of : Table → List Card
  community_of t = elim t.live [ none ↦ [] | some live ↦ live.community ]

  unfoldable pub local_hole_of : Table → Option Hole
  local_hole_of t = elim t.live [
    | none ↦ none
    | some live ↦ elim live.deal [
      | placeholder seed deck deck_idx hole ↦ elim (local_seat t) [
        | none ↦ none
        | some seat ↦ get_elem? hole seat
      ]
      | mental m ↦ m.local_hole
    ]
  ]

  unfoldable pub is_mental_hand : Table → Bool
  is_mental_hand t = elim t.live [ none ↦ false | some live ↦ is_mental live.deal ]

  unfoldable pub deal_phase_of : Table → Option DealPhase
  deal_phase_of t = elim t.live [
    | none ↦ none
    | some live ↦ elim (mental_of live.deal) [ none ↦ none | some m ↦ some m.phase ]
  ]

  unfoldable pub live_seed : Table → Option ℕ
  live_seed t = elim t.live [
    | none ↦ none
    | some live ↦ elim live.deal [
      | placeholder seed deck deck_idx hole ↦ some seed
      | mental m ↦ none
    ]
  ]

  unfoldable pub community_revealed_for_street : MentalDeal W → Street → Bool
  community_revealed_for_street m street = elim (street_community_round street) [
    | none ↦ true
    | some round ↦ community_revealed W m round
  ]

  unfoldable pub betting_open : LiveHand → Bool
  betting_open live = elim live.deal [
    | placeholder seed deck deck_idx hole ↦ true
    | mental m ↦
        if not (ready_for_betting W m)
        then false
        else community_revealed_for_street m live.betting.street
  ]

  unfoldable pub seat_to_act : Table → Option ℕ
  seat_to_act t = elim t.live [
    | none ↦ none
    | some live ↦ if not (betting_open live) then none else live.betting.to_act
  ]

  unfoldable pub is_local_turn : Table → Bool
  is_local_turn t = elim (seat_to_act t) [
    | none ↦ false
    | some actor ↦ elim (local_seat t) [ none ↦ false | some seat ↦ actor == seat ]
  ]

  -- A call: the table, and the step that it is filling.
  pub record Run : Type 0 where
    pub table : Table
    pub step : Step

  abbrev pub Running : Type 0 → Type 0
  Running A = Exec Run (TableError W) A

  abbrev pub put_live : Option LiveHand → Run → Run
  put_live live s = record s { table = record s.table { live = live } }

  unfoldable pub push_event : TableEvent → Running (Unit {0})
  push_event e =
      modify (λ s. record s { step = record s.step { events = s.step.events ++ e ∷ [] } })

  -- A broadcast with the effect that it carries out.
  unfoldable pub push_deal : TableMessage → DealEffect → Running (Unit {0})
  push_deal msg effect = modify (λ s. record s {
    step = record s.step {
      broadcasts = s.step.broadcasts ++ msg ∷ [];
      deal_effects = s.step.deal_effects ++ effect ∷ [];
    };
  })

  -- `match self.live.as_mut() { Some(l) => …, None => return }`, for a live hand that must be there
  -- (`unwrap`) and for one that may be.
  unfoldable pub the_live : Running LiveHand
  the_live = do live ← gets (λ (s : Run). s.table.live); maybe live (lift panic) pure

  unfoldable pub if_live : (LiveHand → Running (Unit {0})) → Running (Unit {0})
  if_live f = do live ← gets (λ (s : Run). s.table.live); maybe live (pure tt) f

  unfoldable pub if_mental : LiveHand → (MentalDeal W → Running (Unit {0})) → Running (Unit {0})
  if_mental live f = maybe (mental_of live.deal) (pure tt) f

  abbrev pub run_deal : {A : Type 0} → Mental W A → Deal → Outcome (TableError W) A × Deal
  run_deal act (placeholder seed deck deck_idx hole) = (panic, placeholder seed deck deck_idx hole)
  run_deal act (mental m) = let (r, m') = act m in (r, mental m')

  -- `live.mental_mut().unwrap()`, and a method of it.
  unfoldable pub on_mental : {A : Type 0} → Mental W A → Running A
  on_mental act = do
    live ← the_live
    let ran = run_deal act live.deal
    modify (put_live (some (record live { deal = ran.1 })))
    lift ran.0
