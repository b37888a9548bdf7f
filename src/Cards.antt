-- ===== src/Cards.antt =====
-- game/src/lib.rs: the 52-card model, the canonical card index and `amount_to_call`.
use ten_cent_poker_client.Prelude.{
  ℕ, ◌+◌, ◌-◌, ◌*◌, ◌/◌, ◌%◌, ◌≤◌, ◌<◌, ◌≡◌, Option, none, some, List, [], ◌∷◌, arith, leb,
  if◌then◌else◌, Outcome, ok, ◌>>=◌, index, sub64, sub64-ok, get_elem?, get_elem?-lt, index-ok,
  Bool-cases, leb→le, leb→lt, inl, inr, ◌⊎◌,
}

pub data Suit : Type 0 where
  clubs diamonds hearts spades : Suit

pub data Rank : Type 0 where
  two three four five six seven eight nine ten jack queen king ace : Rank

-- `suit as u8` and `rank as u8`.
abbrev pub suit_value : Suit → ℕ
suit_value clubs = 0
suit_value diamonds = 1
suit_value hearts = 2
suit_value spades = 3

abbrev pub rank_value : Rank → ℕ
rank_value two = 0
rank_value three = 1
rank_value four = 2
rank_value five = 3
rank_value six = 4
rank_value seven = 5
rank_value eight = 6
rank_value nine = 7
rank_value ten = 8
rank_value jack = 9
rank_value queen = 10
rank_value king = 11
rank_value ace = 12

-- `Suit::ALL` and `Rank::ALL`.
abbrev pub all_suits : List Suit
all_suits = clubs ∷ diamonds ∷ hearts ∷ spades ∷ []

abbrev pub all_ranks : List Rank
all_ranks =
    two ∷ three ∷ four ∷ five ∷ six ∷ seven ∷ eight ∷ nine ∷ ten ∷ jack ∷ queen ∷ king ∷ ace ∷ []

pub record Card : Type 0 where
  pub rank : Rank
  pub suit : Suit

-- `Card::to_index`: at most 51, so the u8 arithmetic does not wrap.
unfoldable pub to_index : Card → ℕ
to_index c = rank_value c.rank * 4 + suit_value c.suit

-- `Card::from_index`; an array access out of range would be a panic.
unfoldable pub from_index {ℓ} : {E : Type ℓ} → ℕ → Outcome E (Option Card)
from_index i = if leb 52 i then ok none else do
  r ← index all_ranks (i / 4)
  s ← index all_suits (i % 4)
  ok (some (record { rank = r; suit = s }))

-- `amount_to_call`: the plain u64 subtraction.
unfoldable pub amount_to_call {ℓ} : {E : Type ℓ} → ℕ → ℕ → Outcome E ℕ
amount_to_call current_bet already_in = sub64 current_bet already_in

pub amount_to_call-ok {ℓ} :
    {E : Type ℓ} (current_bet already_in : ℕ)
    → already_in ≤ current_bet
    → amount_to_call {E = E} current_bet already_in ≡ ok (current_bet - already_in)
unfolding amount_to_call
amount_to_call-ok b a h = sub64-ok b a h

from_index-parts {ℓ} :
    {E : Type ℓ} (r : Rank) (s : Suit)
    → from_index {E = E} (rank_value r * 4 + suit_value s)
      ≡ ok (some (record { rank = r; suit = s }))
unfolding from_index index
from_index-parts r clubs = ground arith
from_index-parts r s = ground arith

-- Decoding the index of a card gives that card back.
pub from_index-to_index {ℓ} :
    {E : Type ℓ} (c : Card) → from_index {E = E} (to_index c) ≡ ok (some c)
unfolding to_index
from_index-to_index c = from_index-parts c.rank c.suit

rank_at : (q : ℕ) (r : Rank) → get_elem? all_ranks q ≡ some r → rank_value r ≡ q
rank_at q r h = ground arith

suit_at : (q : ℕ) (s : Suit) → get_elem? all_suits q ≡ some s → suit_value s ≡ q
suit_at q s h = ground arith

-- Every index below 52 decodes to a card with that index, and every other index to none.
pub to_index-from_index {ℓ} :
    {E : Type ℓ} (i : ℕ)
    → ((i < 52) × ((c : Card) × (from_index {E = E} i ≡ ok (some c)) × (to_index c ≡ i)))
      ⊎ ((52 ≤ i) × (from_index {E = E} i ≡ ok none))
unfolding from_index to_index
to_index-from_index {E} i = elim (Bool-cases (leb 52 i)) [
  | inl out ↦ inr (leb→le 52 i out, rw out)
  | inr within ↦
      let lt = leb→lt 52 i within in
      let (r, er) = get_elem?-lt all_ranks (i / 4) (omega arith) in
      let (s, es) = get_elem?-lt all_suits (i % 4) (omega arith) in
      inl (
        lt,
        (
          record { rank = r; suit = s },
          rw (within, index-ok all_ranks (i / 4) er, index-ok all_suits (i % 4) es),
          omega (arith, rank_at (i / 4) r er, suit_at (i % 4) s es),
        ),
      )
]
