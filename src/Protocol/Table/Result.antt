-- ===== src/Protocol/Table/Result.antt =====
-- protocol/src/table.rs: the part of `settle` that computes the outcome of the hand.
use ten_cent_poker_client.Prelude.{
  ℕ, zero, suc, ◌==◌, if◌then◌else◌, Bool, Option, none, some, List, [], ◌∷◌, Outcome, ok, ◌>>=◌,
  length, index,
}
use ten_cent_poker_client.Betting.State.{contributions, folded_flags}
use ten_cent_poker_client.Pot.Defs.{compute_pots}
use ten_cent_poker_client.Showdown.Defs.{Hole, distribute}
use ten_cent_poker_client.Hand.Dealing.{HandError}
use ten_cent_poker_client.Hand.Play.{settle_seats}
use ten_cent_poker_client.Protocol.Setting.{Setting}
use ten_cent_poker_client.Protocol.Mental.{showdown_hole_of}
use ten_cent_poker_client.Protocol.Table.{Deal, placeholder, mental, LiveHand, HandOutcome}

-- `a.or_else(|| b)`
abbrev pub or_else : Option Hole → Option Hole → Option Hole
or_else none b = b
or_else (some a) b = some a

module _ (W : Setting) where
  -- The hole of a seat that has not folded.
  unfoldable pub shown_hole : Deal W → ℕ → Outcome HandError (Option Hole)
  shown_hole (placeholder seed deck deck_idx hole) i = do h ← index hole i; ok (some h)
  shown_hole (mental m) i =
      let shown = showdown_hole_of W m i in
      ok (if i == m.seat then or_else m.local_hole shown else shown)

  -- `hole_for_showdown`, for the next `n` seats from `i` on.
  unfoldable pub shown_holes : Deal W → List Bool → ℕ → ℕ → Outcome HandError (List (Option Hole))
  shown_holes deal folded zero i = ok []
  shown_holes deal folded (suc n) i = do
    mucked ← index folded i
    h ← if mucked then ok none else shown_hole deal i
    rest ← shown_holes deal folded n (suc i)
    ok (h ∷ rest)

  unfoldable pub hand_outcome : LiveHand W → Outcome HandError HandOutcome
  hand_outcome live = do
    let n = length live.starting
    let paid = contributions live.betting
    let folded = folded_flags live.betting
    pots ← compute_pots paid folded
    holes ← shown_holes live.deal folded n 0
    won ← distribute pots holes live.community live.button n
    settled ← settle_seats live.starting paid won.0
    ok (record {
      hand_no = live.hand_no;
      button = live.button;
      community = live.community;
      deltas = settled.1;
      final_stacks = settled.0;
      awards = won.1;
    })
