-- ===== src/App/Project.antt =====
-- app/src/freeplay/project.rs: the table that the client draws, from the snapshot, with the local
-- player at its first seat; and app/src/freeplay/cards.rs: the reading of the cards' texts.
use ten_cent_poker_client.Prelude.{
  ℕ, zero, suc, ◌+◌, ◌-◌, ◌%◌, ◌&&◌, not, Option, none, some, List, [], ◌∷◌, ◌++◌, ◌==◌,
  if◌then◌else◌, length, get_elem?,
}
use ten_cent_poker_client.Prelude.Exec.{maybe}
use ten_cent_poker_client.Cards.{
  Suit, clubs, diamonds, hearts, spades, Rank, two, three, four, five, six, seven, eight, nine, ten,
  jack, queen, king, ace, Card,
}
use ten_cent_poker_client.App.Snapshot.{SeatView, GuiState}
use ten_cent_poker_client.App.Model.{
  holdem, Seat, filled, empty, Table, timer_total_ms, default_blinds,
}

-- The characters of `card_token`, as bytes.
unfoldable pub rank_char : Rank → ℕ
rank_char two = 50
rank_char three = 51
rank_char four = 52
rank_char five = 53
rank_char six = 54
rank_char seven = 55
rank_char eight = 56
rank_char nine = 57
rank_char ten = 84
rank_char jack = 74
rank_char queen = 81
rank_char king = 75
rank_char ace = 65

unfoldable pub suit_char : Suit → ℕ
suit_char spades = 115
suit_char hearts = 104
suit_char diamonds = 100
suit_char clubs = 99

unfoldable pub card_token : Card → List ℕ
card_token c = rank_char c.rank ∷ suit_char c.suit ∷ []

-- The tokens with a space between any two.
unfoldable pub cards_tokens : List Card → List ℕ
cards_tokens [] = []
cards_tokens (c ∷ []) = card_token c
cards_tokens (c ∷ d ∷ cards) = card_token c ++ 32 ∷ cards_tokens (d ∷ cards)

-- `rotate`: where the seat `orig` of `n` stands when `offset` comes first.
unfoldable pub rotate : ℕ → ℕ → ℕ → ℕ
rotate n offset orig = if n == 0 then 0 else (orig + n - offset % n) % n

unfoldable pub model_seat : SeatView → Seat
model_seat sv = if length sv.label == 0 then empty else filled sv.label sv.stack sv.folded

-- The seats `(offset + i) % n` for the `left` values of `i` from `i` on.
unfoldable pub rotated : List SeatView → ℕ → ℕ → ℕ → List Seat
rotated views offset i zero = []
rotated views offset i (suc left) =
    let rest = rotated views offset (suc i) left in
    maybe (get_elem? views ((offset + i) % length views)) rest (λ sv. model_seat sv ∷ rest)

-- `position(|s| s.is_to_act)`, counted from `i` on.
unfoldable pub acting_from : ℕ → List SeatView → Option ℕ
acting_from i [] = none
acting_from i (sv ∷ views) =
    let later = acting_from (suc i) views in if sv.is_to_act then some i else later

-- `Free Table` in bytes.
abbrev pub free_table_name : List ℕ
free_table_name = 70 ∷ 114 ∷ 101 ∷ 101 ∷ 32 ∷ 84 ∷ 97 ∷ 98 ∷ 108 ∷ 101 ∷ []

unfoldable pub project : GuiState → ℕ → Table
project gui id =
    let n = length gui.seats in
    let offset = maybe gui.my_seat 0 (λ seat. seat) in
    record {
      id = id;
      name = free_table_name;
      game = holdem;
      blinds = default_blinds;
      pot = gui.pot;
      board = cards_tokens gui.board;
      hero = maybe gui.my_hole [] (λ h. cards_tokens (h.0 ∷ h.1 ∷ []));
      seats = rotated gui.seats offset 0 n;
      dealer = maybe gui.button 0 (rotate n offset);
      to_act = maybe (acting_from 0 gui.seats) 0 (rotate n offset);
      your_turn = gui.is_my_turn && not gui.dealing;
      to_call = gui.legal.call_amount;
      time_left = timer_total_ms;
      invite_uri = gui.table_uri;
      reachability = gui.reachability_warning;
      can_check = gui.legal.can_check;
      can_call = gui.legal.can_call;
      can_bet = gui.legal.can_bet;
      can_raise = gui.legal.can_raise;
      can_all_in = gui.legal.can_all_in;
      min_bet = gui.legal.min_bet;
      min_raise_to = gui.legal.min_raise_to;
      max_to = gui.legal.max_to;
      bet_to = if gui.legal.can_bet then gui.legal.min_bet else gui.legal.min_raise_to;
    }
