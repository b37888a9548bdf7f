-- ===== src/Hand/Board.antt =====
-- game/src/hand.rs: the board behind `deal_remaining_community`.
use ten_cent_poker_client.Prelude.{
  ℕ, zero, suc, ◌+◌, ◌≤◌, ◌<◌, ◌≡◌, refl, ◌∙◌, ap, List, [], ◌∷◌, arith, inl, inr, lt→ltb, le→ltb,
  length, length-append, Safe, Safe-bind,
}
use ten_cent_poker_client.Cards.{Card}
use ten_cent_poker_client.Betting.State.{Street, preflop, flop, turn, river}
use ten_cent_poker_client.Hand.Dealing.{
  deal_street, deal_rest, deal_remaining_community, board_cards, deck_cards, slice,
  deal_street-Consumes,
}

length-slice : (deck : List Card) (i n : ℕ) → i + n ≤ length deck → length (slice deck i n) ≡ n
length-slice deck i zero fits = refl
length-slice [] i (suc n) fits = absurd (omega arith)
length-slice (c ∷ deck) zero (suc n) fits = ap suc (length-slice deck 0 n (omega arith))
length-slice (c ∷ deck) (suc i) (suc n) fits = length-slice deck i (suc n) (omega arith)

-- The cards on the board during a street, and the streets behind it.
abbrev pub board_size : Street → ℕ
board_size preflop = 0
board_size flop = 3
board_size turn = 4
board_size river = 5

abbrev streets_left : Street → ℕ
streets_left preflop = 3
streets_left flop = 2
streets_left turn = 1
streets_left river = 0

-- A board is complete when it has five cards and the deck was not overdrawn.
abbrev pub IsComplete : List Card → ℕ × List Card → Type 0
IsComplete deck out = (length out.1 ≡ 5) × (out.0 ≤ length deck)

module _ (deck : List Card) where
  length-dealt :
      (street : Street) (idx : ℕ)
      → idx + deck_cards street ≤ length deck
      → length (slice deck (suc idx) (board_cards street)) ≡ board_cards street
  length-dealt preflop idx fits = refl
  length-dealt flop idx fits = length-slice deck (suc idx) 3 (omega arith)
  length-dealt turn idx fits = length-slice deck (suc idx) 1 (omega arith)
  length-dealt river idx fits = length-slice deck (suc idx) 1 (omega arith)

  -- A street dealt on the board of the one before it.
  next_board :
      (street : Street) (idx : ℕ) (community : List Card)
      → idx ≤ length deck
      → Safe
          (deal_street street deck idx community)
          (λ out. (length out.1 ≡ length community + board_cards street) × (out.0 ≤ length deck))
  next_board street idx community le = elim (deal_street-Consumes deck street idx community le) [
    | inr (short, e) ↦ rw e tt
    | inl (fits, e) ↦ rw e (
      length-append community (slice deck (suc idx) (board_cards street))
          ∙ ap (λ (k : ℕ). length community + k) (length-dealt street idx fits),
      fits,
    )
  ]

  deal_rest-Completes :
      (rounds : ℕ) (street : Street) (idx : ℕ) (community : List Card)
      → streets_left street < rounds
      → idx ≤ length deck
      → length community ≡ board_size street
      → Safe (deal_rest deck rounds street idx community) (IsComplete deck)
  unfolding deal_rest
  deal_rest-Completes zero street idx community enough le size = absurd (omega arith)
  deal_rest-Completes (suc rounds) river idx community enough le size =
      rw (le→ltb (length community) 5 (omega arith)) (size, le)
  deal_rest-Completes (suc rounds) turn idx community enough le size =
      rw (lt→ltb (length community) 5 (omega arith)) (
        Safe-bind _ (IsComplete deck) (deal_street river deck idx community) _
          (next_board river idx community le)
          (λ out (len, le').
            deal_rest-Completes rounds river out.0 out.1 (omega arith) le' (omega arith)))
  deal_rest-Completes (suc rounds) flop idx community enough le size =
      rw (lt→ltb (length community) 5 (omega arith)) (
        Safe-bind _ (IsComplete deck) (deal_street turn deck idx community) _
          (next_board turn idx community le)
          (λ out (len, le').
            deal_rest-Completes rounds turn out.0 out.1 (omega arith) le' (omega arith)))
  deal_rest-Completes (suc rounds) preflop idx community enough le size =
      rw (lt→ltb (length community) 5 (omega arith)) (
        Safe-bind _ (IsComplete deck) (deal_street flop deck idx community) _
          (next_board flop idx community le)
          (λ out (len, le').
            deal_rest-Completes rounds flop out.0 out.1 (omega arith) le' (omega arith)))

  -- On the board of any street, and for an index within the deck, `deal_remaining_community` never
  -- panics: it deals until the board has five cards, or the deck is too small.
  pub deal_remaining-Completes :
      (street : Street) (idx : ℕ) (community : List Card)
      → idx ≤ length deck
      → length community ≡ board_size street
      → Safe (deal_remaining_community street deck idx community) (IsComplete deck)
  unfolding deal_remaining_community
  deal_remaining-Completes street idx community le size =
      deal_rest-Completes 4 street idx community (few street) le size
    where
      few : (st : Street) → streets_left st < 4
      few preflop = omega arith
      few flop = omega arith
      few turn = omega arith
      few river = omega arith
