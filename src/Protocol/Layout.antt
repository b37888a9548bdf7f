-- ===== src/Protocol/Layout.antt =====
-- protocol/src/mental.rs: `DeckLayout`, which position of the deck holds which card.
use ten_cent_poker_client.Prelude.{
  ℕ, zero, suc, ◌+◌, ◌*◌, List, [], ◌∷◌, Outcome, ok, ◌>>=◌, index, write, add64, rem64, replicate,
}
use ten_cent_poker_client.Showdown.Defs.{sort_by}
use ten_cent_poker_client.Protocol.Setting.{RevealRound, hole, flop, turn, river, showdown}

-- The two positions of a seat's hole cards.
abbrev pub Positions : Type 0
Positions = ℕ × ℕ

pub record DeckLayout : Type 0 where
  pub holes : List Positions

-- `hole[seat][round] = idx` on the seat's positions, for the rounds 0 and 1.
abbrev pub put_position : ℕ → ℕ → Positions → Positions
put_position zero idx p = (idx, p.1)
put_position (suc round) idx p = (p.0, idx)

module _ {E : Type 0} where
  -- One pass around the table: the next `rounds` positions, to `seat` and the seats after it.
  unfoldable pub lay_pass : ℕ → ℕ → ℕ → ℕ → ℕ → List Positions → Outcome E (ℕ × List Positions)
  lay_pass n round zero seat idx holes = ok (idx, holes)
  lay_pass n round (suc rounds) seat idx holes = do
    p ← index holes seat
    laid ← write holes seat (put_position round idx p)
    up ← add64 seat 1
    next ← rem64 up n
    lay_pass n round rounds next (suc idx) laid

  unfoldable pub new_layout : ℕ → ℕ → Outcome E DeckLayout
  new_layout num_seats button = do
    let holes = replicate num_seats (0, 0)
    up ← add64 button 1
    first ← rem64 up num_seats
    once ← lay_pass num_seats 0 num_seats first 0 holes
    twice ← lay_pass num_seats 1 num_seats first once.0 once.1
    ok (record { holes = twice.1 })

  unfoldable pub hole_of_seat : DeckLayout → ℕ → Outcome E Positions
  hole_of_seat layout seat = index layout.holes seat

abbrev pub flatten : List Positions → List ℕ
flatten [] = []
flatten (p ∷ rest) = p.0 ∷ p.1 ∷ flatten rest

unfoldable pub all_hole : DeckLayout → List ℕ
all_hole layout = sort_by (λ position. position) (flatten layout.holes)

-- `DeckLayout::community`, for a table of `n` seats.
unfoldable pub community_positions : RevealRound → ℕ → List ℕ
community_positions flop n = (2 * n + 1) ∷ (2 * n + 2) ∷ (2 * n + 3) ∷ []
community_positions turn n = (2 * n + 5) ∷ []
community_positions river n = (2 * n + 7) ∷ []
community_positions hole n = []
community_positions showdown n = []
