-- ===== src/Hand/Dealing.antt =====
-- game/src/hand.rs: dealing from a deck that is given, with `*idx` and `community` passed on. The
-- callers drop both when a call fails, so an error carries neither. A deck is a slice, so an index
-- up to its length plus one does not overflow.
use ten_cent_poker_client.Prelude.{
  ℕ, zero, suc, ◌+◌, ◌*◌, ◌≤◌, ◌<◌, ◌≡◌, refl, sym, ◌∙◌, ap, Option, none, some, List, [], ◌∷◌,
  ◌++◌, arith, ltb, leb, if◌then◌else◌, le→leb, lt→leb, Outcome, ok, err, panic, ◌>>=◌, length,
  replicate, get_elem?, get_elem?-lt, index, index-ok, ap₂, Bool-cases, inl, inr, ◌⊎◌, ltb→lt,
  ltb→le, write, add64, rem64,
}
use mathlib.Core.List.{append-nil, append_assoc}
use ten_cent_poker_client.Cards.{Card}
use ten_cent_poker_client.Betting.State.{Street, preflop, flop, turn, river, BettingError}
use ten_cent_poker_client.Betting.Actions.{street_after}
use ten_cent_poker_client.Showdown.Defs.{Hole}

pub data HandError : Type 0 where
  betting : BettingError → HandError
  -- the cards needed, and the cards there are
  deck_too_small : ℕ → ℕ → HandError

-- A hand that is being dealt: `[Option<Card>; 2]`.
abbrev pub Slots : Type 0
Slots = Option Card × Option Card

-- `hole[seat][round] = Some(card)` on the seat's slots, for the rounds 0 and 1.
abbrev pub put_card : ℕ → Card → Slots → Slots
put_card zero c slots = (some c, slots.1)
put_card (suc round) c slots = (slots.0, some c)

-- One pass around the table: the next `rounds` cards, to `seat` and the seats after it.
unfoldable pub deal_pass :
    List Card → ℕ → ℕ → ℕ → ℕ → ℕ → List Slots → Outcome HandError (ℕ × List Slots)
deal_pass deck n round zero seat idx hole = ok (idx, hole)
deal_pass deck n round (suc rounds) seat idx hole = do
  c ← index deck idx
  slots ← index hole seat
  dealt ← write hole seat (put_card round c slots)
  up ← add64 seat 1
  next ← rem64 up n
  deal_pass deck n round rounds next (suc idx) dealt

-- `h[0].unwrap()` and `h[1].unwrap()` of every seat.
abbrev pub unwrap_holes : List Slots → Outcome HandError (List Hole)
unwrap_holes [] = ok []
unwrap_holes ((some a, some b) ∷ hole) = do rest ← unwrap_holes hole; ok ((a, b) ∷ rest)
unwrap_holes ((some a, none) ∷ hole) = panic
unwrap_holes ((none, second) ∷ hole) = panic

unfoldable pub deal_hole : List Card → ℕ → ℕ → Outcome HandError (List Hole)
deal_hole deck n button =
    if ltb (length deck) (2 * n) then err (deck_too_small (2 * n) (length deck)) else do
      up ← add64 button 1
      first ← rem64 up n
      once ← deal_pass deck n 0 n first 0 (replicate n (none, none))
      twice ← deal_pass deck n 1 n first once.0 once.1
      unwrap_holes twice.1

unfoldable pub hole_card_count : ℕ → ℕ
hole_card_count n = 2 * n

-- The card that is taken and the index behind it.
unfoldable pub take : List Card → ℕ → Outcome HandError (Card × ℕ)
take deck idx =
    if leb (length deck) idx
    then err (deck_too_small (suc idx) (length deck))
    else do c ← index deck idx; ok (c, suc idx)

unfoldable pub burn : List Card → ℕ → Outcome HandError ℕ
burn deck idx = do taken ← take deck idx; ok taken.1

-- `community.push(take(deck, idx)?)`, `rounds` times.
unfoldable pub push_cards : List Card → ℕ → ℕ → List Card → Outcome HandError (ℕ × List Card)
push_cards deck zero idx community = ok (idx, community)
push_cards deck (suc rounds) idx community = do
  taken ← take deck idx
  push_cards deck rounds taken.1 (community ++ taken.0 ∷ [])

unfoldable pub deal_street : Street → List Card → ℕ → List Card → Outcome HandError (ℕ × List Card)
deal_street preflop deck idx community = ok (idx, community)
deal_street flop deck idx community = do behind ← burn deck idx; push_cards deck 3 behind community
deal_street turn deck idx community = do behind ← burn deck idx; push_cards deck 1 behind community
deal_street river deck idx community = do behind ← burn deck idx; push_cards deck 1 behind community

unfoldable pub deal_community_street :
    Street → List Card → ℕ → List Card → Outcome HandError (ℕ × List Card)
deal_community_street = deal_street

-- The `while` loop of `deal_remaining_community`, with the rounds left; `panic` when they run out.
unfoldable pub deal_rest :
    List Card → ℕ → Street → ℕ → List Card → Outcome HandError (ℕ × List Card)
deal_rest deck zero street idx community = panic
deal_rest deck (suc rounds) street idx community =
    if ltb (length community) 5
    then elim (street_after street) [
      | none ↦ ok (idx, community)
      | some next ↦ do
        dealt ← deal_street next deck idx community
        deal_rest deck rounds next dealt.0 dealt.1
    ]
    else ok (idx, community)

-- No hand has more than three streets after the first, and the fourth round leaves the loop.
unfoldable pub deal_remaining_community :
    Street → List Card → ℕ → List Card → Outcome HandError (ℕ × List Card)
deal_remaining_community street deck idx community = deal_rest deck 4 street idx community

-- The cards that a street puts on the board, and those that it takes from the deck.
abbrev pub board_cards : Street → ℕ
board_cards preflop = 0
board_cards flop = 3
board_cards turn = 1
board_cards river = 1

abbrev pub deck_cards : Street → ℕ
deck_cards preflop = 0
deck_cards flop = 4
deck_cards turn = 2
deck_cards river = 2

-- The `n` cards of the deck from index `i` on.
abbrev pub slice : List Card → ℕ → ℕ → List Card
slice deck i zero = []
slice [] i (suc n) = []
slice (c ∷ deck) zero (suc n) = c ∷ slice deck 0 n
slice (c ∷ deck) (suc i) (suc n) = slice deck i (suc n)

slice-step :
    (deck : List Card) (i n : ℕ) {c : Card}
    → get_elem? deck i ≡ some c
    → slice deck i (suc n) ≡ c ∷ slice deck (suc i) n
slice-step [] i n e = cc
slice-step (x ∷ deck) zero zero e = cc
slice-step (x ∷ deck) zero (suc n) e = ap (λ (y : Card). y ∷ slice deck 0 (suc n)) (cc)
slice-step (x ∷ deck) (suc i) zero e = slice-step deck i zero e
slice-step (x ∷ deck) (suc i) (suc n) e = slice-step deck i (suc n) e

-- A call from `idx` that needs `need` cards: with enough of them it returns `result` and the index
-- behind them, and otherwise it asks for one card more than the deck has.
abbrev pub Consumes : List Card → ℕ → ℕ → List Card → Outcome HandError (ℕ × List Card) → Type 0
Consumes deck idx need result m =
    ((idx + need ≤ length deck) × (m ≡ ok (idx + need, result)))
    ⊎ ((length deck < idx + need) × (m ≡ err (deck_too_small (suc (length deck)) (length deck))))

module _ (deck : List Card) where
  take-ok :
      (idx : ℕ) {c : Card}
      → get_elem? deck idx ≡ some c
      → idx < length deck
      → take deck idx ≡ ok (c, suc idx)
  unfolding take
  take-ok idx e lt = rw (lt→leb (length deck) idx lt, index-ok deck idx e)

  take-none : take deck (length deck) ≡ err (deck_too_small (suc (length deck)) (length deck))
  unfolding take
  take-none = rw (le→leb (length deck) (length deck) (omega arith))

  taken_append :
      (community : List Card) (idx n : ℕ) {c : Card}
      → get_elem? deck idx ≡ some c
      → (community ++ c ∷ []) ++ slice deck (suc idx) n ≡ community ++ slice deck idx (suc n)
  taken_append community idx n {c} e =
      append_assoc community (c ∷ []) (slice deck (suc idx) n)
      ∙ ap (λ (cards : List Card). community ++ cards) (sym (slice-step deck idx n e))

  push_cards-Consumes :
      (n idx : ℕ) (community : List Card)
      → idx ≤ length deck
      → Consumes deck idx n (community ++ slice deck idx n) (push_cards deck n idx community)
  unfolding push_cards
  push_cards-Consumes zero idx community le = inl (
    omega arith,
    ap₂ (λ (i : ℕ) (cards : List Card). ok (i, cards)) (omega arith) (sym (append-nil community)),
  )
  push_cards-Consumes (suc n) idx community le = elim (Bool-cases (ltb idx (length deck))) [
    | inl within ↦
        let lt = ltb→lt idx (length deck) within in
        let (c, e) = get_elem?-lt deck idx lt in
        rw (take-ok idx e lt)
          (elim (push_cards-Consumes n (suc idx) (community ++ c ∷ []) (omega arith)) [
            | inl (fits, same) ↦ inl (
              omega arith,
              same
                  ∙ ap₂ (λ (i : ℕ) (cards : List Card). ok (i, cards)) (omega arith)
                      (taken_append community idx n e),
            )
            | inr (short, same) ↦ inr (omega arith, same)
          ])
    | inr behind ↦
        let last : idx ≡ length deck = (let ge = ltb→le idx (length deck) behind in omega arith) in
        rw last (inr (omega arith, rw take-none refl))
  ]

  -- A street that burns a card and then puts `n` on the board.
  burnt-Consumes :
      (n idx : ℕ) (community : List Card)
      → idx ≤ length deck
      → Consumes deck idx
          (suc n)
          (community ++ slice deck (suc idx) n)
          (burn deck idx >>= λ behind. push_cards deck n behind community)
  unfolding burn
  burnt-Consumes n idx community le = elim (Bool-cases (ltb idx (length deck))) [
    | inl within ↦
        let lt = ltb→lt idx (length deck) within in
        let (c, e) = get_elem?-lt deck idx lt in
        rw (take-ok idx e lt) (elim (push_cards-Consumes n (suc idx) community (omega arith)) [
          | inl (fits, same) ↦ inl (
            omega arith,
            same ∙ ap (λ (i : ℕ). ok (i, community ++ slice deck (suc idx) n)) (omega arith),
          )
          | inr (short, same) ↦ inr (omega arith, same)
        ])
    | inr behind ↦
        let last : idx ≡ length deck = (let ge = ltb→le idx (length deck) behind in omega arith) in
        rw last (inr (omega arith, rw take-none refl))
  ]

  -- For an index within the deck `deal_street` burns one card and appends the street's cards to the
  -- board, in the order of the deck, when the deck has them all, and otherwise asks for one card more than the deck has. The
  -- preflop street takes no card and leaves the board.
  pub deal_street-Consumes :
      (street : Street) (idx : ℕ) (community : List Card)
      → idx ≤ length deck
      → Consumes deck idx
          (deck_cards street)
          (community ++ slice deck (suc idx) (board_cards street))
          (deal_street street deck idx community)
  unfolding deal_street
  deal_street-Consumes preflop idx community le = inl (
    omega arith,
    ap₂ (λ (i : ℕ) (cards : List Card). ok (i, cards)) (omega arith) (sym (append-nil community)),
  )
  deal_street-Consumes flop idx community le = burnt-Consumes 3 idx community le
  deal_street-Consumes turn idx community le = burnt-Consumes 1 idx community le
  deal_street-Consumes river idx community le = burnt-Consumes 1 idx community le
