-- ===== src/Hand/Play.antt =====
-- game/src/hand.rs: `play_hand`, with the action source as a parameter.
use ten_cent_poker_client.Prelude.{
  ℕ, zero, suc, Bool, Option, none, some, List, [], ◌∷◌, if◌then◌else◌, Outcome, ok, err, panic,
  ◌>>=◌, length, add64, sub64, ℤ, to_i64, sub_i64,
}
use ten_cent_poker_client.Cards.{Card}
use ten_cent_poker_client.Betting.State.{
  Action, BettingError, BettingState, new, contributions, folded_flags, hand_over_by_folds,
  betting_complete_for_hand,
}
use ten_cent_poker_client.Betting.Actions.{next_street}
use ten_cent_poker_client.Pot.Defs.{compute_pots}
use ten_cent_poker_client.Showdown.Defs.{Hole, PotAward, distribute}
use ten_cent_poker_client.Hand.Dealing.{
  HandError, betting, deal_hole, hole_card_count, deal_street, deal_remaining_community,
}
use ten_cent_poker_client.Hand.Rounds.{run_betting_round}

pub record HandResult : Type 0 where
  pub hole : List Hole
  pub community : List Card
  pub deltas : List ℤ
  pub final_stacks : List ℕ
  pub awards : List PotAward
  pub contributed : List ℕ

-- `#[from] BettingError`.
abbrev pub from_betting {ℓ} : {A : Type ℓ} → Outcome BettingError A → Outcome HandError A
from_betting (ok a) = ok a
from_betting (err e) = err (betting e)
from_betting panic = panic

-- `hole_for_showdown`: a folded seat shows no hand.
unfoldable pub showdown_holes : List Bool → List Hole → Outcome HandError (List (Option Hole))
showdown_holes [] holes = ok []
showdown_holes (folded ∷ flags) [] = panic
showdown_holes (folded ∷ flags) (h ∷ holes) = do
  rest ← showdown_holes flags holes
  ok ((if folded then none else some h) ∷ rest)

-- The last loop: the final stack and the delta of every seat.
unfoldable pub settle_seats : List ℕ → List ℕ → List ℕ → Outcome HandError (List ℕ × List ℤ)
settle_seats [] paid won = ok ([], [])
settle_seats (start ∷ starting) [] won = panic
settle_seats (start ∷ starting) (p ∷ paid) [] = panic
settle_seats (start ∷ starting) (p ∷ paid) (w ∷ won) = do
  leftover ← sub64 start p
  final ← add64 leftover w
  delta ← sub_i64 (to_i64 final) (to_i64 start)
  rest ← settle_seats starting paid won
  ok (final ∷ rest.0, delta ∷ rest.1)

module _ {ℓ} {Source : Type ℓ} (next_action : Source → BettingState → ℕ → Action × Source) where
  -- The `loop` over the streets, with the rounds left: the betting state and the board at its end.
  -- Every round but the last starts a street, and there are three to start, so four are enough.
  unfoldable pub play_streets :
      ℕ
      → List Card
      → BettingState
      → Source
      → ℕ
      → List Card
      → Outcome HandError (BettingState × List Card)
  play_streets zero deck s source idx community = panic
  play_streets (suc rounds) deck s source idx community =
      if hand_over_by_folds s
      then ok (s, community)
      else (if betting_complete_for_hand s
          then (do dealt ← deal_remaining_community s.street deck idx community; ok (s, dealt.1))
          else (do
            moved ← from_betting (next_street s)
            elim moved.1 [
              | none ↦ ok (moved.0, community)
              | some street ↦ do
                dealt ← deal_street street deck idx community
                ran ← run_betting_round next_action moved.0 source
                play_streets rounds deck ran.0 ran.1 dealt.0 dealt.1
            ]))

  unfoldable pub play_hand : List ℕ → ℕ → ℕ → ℕ → List Card → Source → Outcome HandError HandResult
  play_hand stacks button small_blind big_blind deck source = do
    state ← from_betting (new stacks button small_blind big_blind)
    holes ← deal_hole deck (length stacks) button
    ran ← run_betting_round next_action state source
    played ← play_streets 4 deck ran.0 ran.1 (hole_card_count (length stacks)) []
    let contributed = contributions played.0
    let folded = folded_flags played.0
    pots ← compute_pots contributed folded
    shown ← showdown_holes folded holes
    shared ← distribute pots shown played.1 (played.0).button (length stacks)
    settled ← settle_seats stacks contributed shared.0
    ok (record {
      hole = holes;
      community = played.1;
      deltas = settled.1;
      final_stacks = settled.0;
      awards = shared.1;
      contributed = contributed;
    })
