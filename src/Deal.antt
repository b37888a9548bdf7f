-- ===== src/Deal.antt =====
-- deal/src/lib.rs: the placeholder deck, shuffled by a splitmix64 stream. A shift to the right is a
-- division, and a wrapping operation is one modulo 2^64. No function here returns an error, so the
-- error type is a parameter.
pub mod Scheme
pub mod Encoding
pub mod Local
pub mod Peer
pub mod Wire
pub mod RoundTrip
pub mod Order
use Prim.Native.Nat.{bit_xor}
use ten_cent_poker_client.Prelude.{
  ℕ, zero, suc, ◌+◌, ◌*◌, ◌/◌, ◌%◌, ◌^◌, ◌≤◌, ◌<◌, ◌≡◌, refl, ◌∙◌, Option, none, some, List, [],
  ◌∷◌, arith, Outcome, ok, panic, ◌>>=◌, length, length-set, get_elem?, get_elem?-lt,
  get_elem?-set_self, get_elem?-set_ne, set, sum_of, sum_of-set, index, index-ok, write, write-ok,
  u64_mod, Returns, Returns-bind, Returns-mono, Bool-cases, inl, inr, ◌==◌, ==→eq,
}
use ten_cent_poker_client.Cards.{Rank, Card, clubs, diamonds, hearts, spades, all_ranks, from_index}

-- `next_u64`: the new state, and the number.
unfoldable pub next_u64 : ℕ → ℕ × ℕ
next_u64 state =
    let s = (state + 11400714819323198485) % u64_mod in
    let y = (bit_xor s (s / 2 ^ 30) * 13787848793156543929) % u64_mod in
    let z = (bit_xor y (y / 2 ^ 27) * 10723151780598845931) % u64_mod in (s, bit_xor z (z / 2 ^ 31))

module _ {ℓ} {E : Type ℓ} where
  -- `Option::unwrap`
  abbrev pub unwrap : Option Card → Outcome E Card
  unwrap none = panic
  unwrap (some c) = ok c

  -- `(i..i + n).map(|i| Card::from_index(i).unwrap()).collect()`
  unfoldable pub cards_from : ℕ → ℕ → Outcome E (List Card)
  cards_from i zero = ok []
  cards_from i (suc n) = do
    found ← from_index i
    c ← unwrap found
    rest ← cards_from (suc i) n
    ok (c ∷ rest)

  -- `deck.swap(i, j)`
  unfoldable pub swap : List Card → ℕ → ℕ → Outcome E (List Card)
  swap deck i j = do a ← index deck i; b ← index deck j; moved ← write deck i b; write moved j a

  -- The loop, for the positions from `i` down to 1.
  unfoldable pub shuffle_down : ℕ → ℕ → List Card → Outcome E (List Card)
  shuffle_down zero state deck = ok deck
  shuffle_down (suc i) state deck = do
    let drawn = next_u64 state
    swapped ← swap deck (suc i) (drawn.1 % suc (suc i))
    shuffle_down i drawn.0 swapped

  unfoldable pub placeholder_shuffled_deck : ℕ → Outcome E (List Card)
  placeholder_shuffled_deck seed = do deck ← cards_from 0 52; shuffle_down 51 seed deck

-- Every rank in every suit, once.
abbrev pub every_suit : List Rank → List Card
every_suit [] = []
every_suit (r ∷ ranks) =
    record { rank = r; suit = clubs }
    ∷ record { rank = r; suit = diamonds }
    ∷ record { rank = r; suit = hearts }
    ∷ record { rank = r; suit = spades }
    ∷ every_suit ranks

abbrev pub full_deck : List Card
full_deck = every_suit all_ranks

-- The same cards, each as often: no measure of the cards tells the two lists apart.
abbrev pub Rearranges : List Card → List Card → Type 0
Rearranges deck other =
    (length other ≡ length deck) × ((f : Card → ℕ) → sum_of f other ≡ sum_of f deck)

module _ {ℓ} (E : Type ℓ) where
  swapped_at :
      (deck : List Card) (i j : ℕ) (b : Card)
      → i < length deck
      → get_elem? deck j ≡ some b
      → get_elem? (set deck i b) j ≡ some b
  swapped_at deck i j b lt e = elim (Bool-cases (i == j)) [
    | inl same ↦ rw⁻¹ (==→eq i j same) (get_elem?-set_self deck i b lt)
    | inr apart ↦ get_elem?-set_ne deck b (λ (h : i ≡ j). ground arith) ∙ e
  ]

  swap-Rearranges :
      (deck : List Card) (i j : ℕ)
      → i < length deck
      → j < length deck
      → Returns (swap {E = E} deck i j) (Rearranges deck)
  unfolding swap
  swap-Rearranges deck i j li lj =
      let (a, ea) = get_elem?-lt deck i li in
      let (b, eb) = get_elem?-lt deck j lj in
      let len = length-set deck i b in
      let at = swapped_at deck i j b li eb in
      rw
        (
          index-ok deck i ea,
          index-ok deck j eb,
          write-ok deck i b li,
          write-ok (set deck i b) j a (omega (arith, len)),
        )
        (
          length-set (set deck i b) j a ∙ len,
          λ f. omega (arith, sum_of-set f deck i b ea, sum_of-set f (set deck i b) j a at),
        )

  shuffle_down-Rearranges :
      (i state : ℕ) (deck : List Card)
      → suc i ≤ length deck
      → Returns (shuffle_down {E = E} i state deck) (Rearranges deck)
  unfolding shuffle_down
  shuffle_down-Rearranges zero state deck le = (refl, λ f. refl)
  shuffle_down-Rearranges (suc i) state deck le =
      let j = (next_u64 state).1 % suc (suc i) in
      let jl : j < suc (suc i) = omega arith in
      Returns-bind (Rearranges deck) (Rearranges deck) (swap {E = E} deck (suc i) j) _
        (swap-Rearranges deck (suc i) j (omega arith) (omega arith))
        (λ moved (len, same).
          Returns-mono (Rearranges moved) (Rearranges deck)
            (shuffle_down {E = E} i (next_u64 state).0 moved)
            (shuffle_down-Rearranges i (next_u64 state).0 moved (omega (arith, len)))
            (λ out (len', same'). (len' ∙ len, λ f. same' f ∙ same f)))

  in_order : cards_from {E = E} 0 52 ≡ ok full_deck
  unfolding cards_from from_index index
  in_order = refl

  -- For every seed `placeholder_shuffled_deck` returns a deck with the same cards as the full deck
  -- of every rank in every suit, each as often.
  pub placeholder_shuffled_deck-Rearranges :
      (seed : ℕ) → Returns (placeholder_shuffled_deck {E = E} seed) (Rearranges full_deck)
  unfolding placeholder_shuffled_deck
  placeholder_shuffled_deck-Rearranges seed =
      rw in_order (shuffle_down-Rearranges 51 seed full_deck (omega arith))
