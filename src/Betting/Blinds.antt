-- ===== src/Betting/Blinds.antt =====
-- `BettingState::new`: posting the blinds gives a valid state with the chips of the stacks.
use ten_cent_poker_client.Prelude.{
  ℕ, ◌+◌, ◌%◌, ◌≤◌, ◌<◌, ◌≡◌, ◌≢◌, refl, Bool, true, false, Option, none, some, inl, inr, List, [],
  ◌∷◌, map, arith, ok, err, ◌>>=◌, length, length-map, length-replicate, replicate, get_elem?,
  get_elem?-lt, get_elem?-set_ne, get_elem?-map, get_elem?-le-sum_of, All, All-set, length-set, set,
  sum, sum-map, map-set_same, u64_mod, Returns, Returns-bind, Returns-mono, index-ok, rem64-ok,
  Bool-cases, ◌⊎◌, ==→eq, ◌==◌, ap, ap₂, ◌∙◌, sym, if◌then◌else◌, min, leb, ◌&&◌,
}
use native.Mathlib.Nat.{mod-eq_of_lt}
use ten_cent_poker_client.Betting.State.{
  Seat, preflop, BettingState, num_seats, new_seat, next_seat, next_active, blind_seats, post_blind,
  post_blinds, new, invalid_seat_count,
}
use ten_cent_poker_client.Betting.Invariant.{
  chips_of, IsTurn, IsSound, IsValid, next_seat-ok, next_seat-lt,
}
use ten_cent_poker_client.Betting.Moves.{paid, commit_raw-ok}
use ten_cent_poker_client.Betting.Rounds.{next_active-IsTurn}

post_blind-ok :
    (s : BettingState) (i : ℕ) (amount : ℕ) (st : Seat)
    → get_elem? s.seats i ≡ some st
    → st.committed ≤ st.total_committed
    → chips_of st < u64_mod
    → post_blind s i amount
      ≡ ok (record s { seats = set s.seats i (paid st (min amount st.stack)) })
unfolding post_blind
post_blind-ok s i amount st e counted fits = rw (
  index-ok s.seats i e,
  commit_raw-ok s i st e (min amount st.stack) (omega arith) (omega arith) (omega arith),
)

-- Two different seats of the table.
abbrev AreSeats : BettingState → ℕ × ℕ → Type 0
AreSeats s (i, j) = (i < num_seats s) × (j < num_seats s) × (i ≢ j)

next_ne : (n i : ℕ) → 2 ≤ n → i < n → i ≢ (i + 1) % n
next_ne n i two lt e = elim (Bool-cases ((i + 1) == n)) [
  | inl wraps ↦ absurd (grind (arith, ==→eq (i + 1) n wraps))
  | inr stays ↦ absurd (grind (arith, mod-eq_of_lt))
]

blind_seats-AreSeats :
    (s : BettingState)
    → 2 ≤ num_seats s
    → num_seats s ≤ 9
    → s.button < num_seats s
    → Returns (blind_seats s) (AreSeats s)
unfolding blind_seats
blind_seats-AreSeats s two small lt =
    let n = num_seats s in
    let sb = (s.button + 1) % n in
    let sb_lt = next_seat-lt s s.button lt in
    elim (Bool-cases (n == 2)) [
      | inl heads_up ↦
          rw (heads_up, next_seat-ok s s.button lt small) (lt, sb_lt, next_ne n s.button two lt)
      | inr ring ↦
          rw (ring, next_seat-ok s s.button lt small, next_seat-ok s sb sb_lt small)
            (sb_lt, next_seat-lt s sb sb_lt, next_ne n sb two sb_lt)
    ]

fresh_covered :
    (b : ℕ) (stacks : List ℕ) → All (λ (st : Seat). st.committed ≤ b) (map new_seat stacks)
unfolding new_seat
fresh_covered b [] = tt
fresh_covered b (x ∷ stacks) = (omega arith, fresh_covered b stacks)

fresh_counted :
    (stacks : List ℕ) → All (λ (st : Seat). st.committed ≤ st.total_committed) (map new_seat stacks)
unfolding new_seat
fresh_counted [] = tt
fresh_counted (x ∷ stacks) = (omega arith, fresh_counted stacks)

fresh_chips : (stacks : List ℕ) → map chips_of (map new_seat stacks) ≡ stacks
unfolding new_seat
fresh_chips [] = refl
fresh_chips (x ∷ stacks) = ap₂ ◌∷◌ (omega arith) (fresh_chips stacks)

module _ (s : BettingState) (stacks : List ℕ) (e : s.seats ≡ map new_seat stacks) where
  new_seat_at : (i : ℕ) → i < num_seats s → (x : ℕ) × (get_elem? s.seats i ≡ some (new_seat x))
  new_seat_at i lt =
      let (x, ex) =
        get_elem?-lt stacks i (omega (arith, ap length e, length-map stacks new_seat)) in
      (x, ap (λ (l : List Seat). get_elem? l i) e ∙ get_elem?-map new_seat stacks i ex)

first_in_range :
    (s : BettingState) (heads_up : Bool) (i j : ℕ)
    → i < num_seats s
    → j < num_seats s
    → num_seats s ≤ 9
    → Returns (if heads_up then ok i else next_seat s j) (λ (f : ℕ). f < num_seats s)
first_in_range s true i j il jl small = il
first_in_range s false i j il jl small = rw (next_seat-ok s j jl small) (next_seat-lt s j jl)

-- What holds once the blinds are posted.
pub record BlindsPosted (stacks : List ℕ) (s t : BettingState) : Type 0 where
  pub valid : IsValid t
  pub chips : map chips_of t.seats ≡ stacks
  pub at_street : t.street ≡ s.street
  pub same_button : t.button ≡ s.button
  pub bet : t.current_bet ≡ s.big_blind
  pub min_raise : t.min_raise ≡ s.big_blind
  pub nobody_acted : t.acted_since_raise ≡ replicate (length stacks) false

module _ (s : BettingState) (stacks : List ℕ) (e : s.seats ≡ map new_seat stacks)
    (two : 2 ≤ length stacks) (nine : length stacks ≤ 9) (btn : s.button < length stacks)
    (blinds : s.small_blind ≤ s.big_blind) (fits : sum stacks < u64_mod) where
  num_seats-eq : num_seats s ≡ length stacks
  num_seats-eq = ap length e ∙ length-map stacks new_seat

  seats_chips : map chips_of s.seats ≡ stacks
  seats_chips = rw e (fresh_chips stacks)

  fits_at : (i x : ℕ) → get_elem? s.seats i ≡ some (new_seat x) → x < u64_mod
  unfolding new_seat
  fits_at i x ei = omega (
    arith,
    get_elem?-le-sum_of chips_of s.seats i ei,
    sum-map chips_of s.seats,
    ap sum seats_chips,
  )

  -- The state between the blinds and the choice of the first to act.
  abbrev posted : ℕ → ℕ → ℕ → ℕ → Option ℕ → BettingState
  posted i j x y turn = record s {
    seats =
        set (set s.seats i (paid (new_seat x) (min s.small_blind x))) j
          (paid (new_seat y) (min s.big_blind y));
    current_bet = s.big_blind;
    min_raise = s.big_blind;
    last_full_raise_to = s.big_blind;
    to_act = turn;
    acted_since_raise = replicate (num_seats s) false;
  }

  module _ (i j x y : ℕ) (ne : i ≢ j) (ei : get_elem? s.seats i ≡ some (new_seat x))
      (ej : get_elem? s.seats j ≡ some (new_seat y)) where
    ej' : get_elem? (set s.seats i (paid (new_seat x) (min s.small_blind x))) j ≡ some (new_seat y)
    ej' = get_elem?-set_ne s.seats (paid (new_seat x) (min s.small_blind x)) ne ∙ ej

    posted_len : (turn : Option ℕ) → num_seats (posted i j x y turn) ≡ length stacks
    posted_len turn = length-set (set s.seats i _) j _ ∙ length-set s.seats i _ ∙ num_seats-eq

    posted_chips : (turn : Option ℕ) → map chips_of (posted i j x y turn).seats ≡ stacks
    unfolding new_seat
    posted_chips turn =
        map-set_same chips_of (set s.seats i _) j _ ej' (omega arith)
        ∙ map-set_same chips_of s.seats i _ ei (omega arith)
        ∙ seats_chips

    posted-IsSound : (turn : Option ℕ) → IsSound (posted i j x y turn)
    unfolding new_seat
    posted-IsSound turn = record {
      seats_min = omega (arith, posted_len turn);
      seats_max = omega (arith, posted_len turn);
      button_lt = omega (arith, posted_len turn);
      acted_len = length-replicate (num_seats s) false ∙ num_seats-eq ∙ sym (posted_len turn);
      covered =
          All-set (λ (st : Seat). st.committed ≤ s.big_blind) _ j _
            (All-set (λ (st : Seat). st.committed ≤ s.big_blind) s.seats i _
              (rw e (fresh_covered s.big_blind stacks)) (omega arith))
            (omega arith);
      counted =
          All-set (λ (st : Seat). st.committed ≤ st.total_committed) _ j _
            (All-set (λ (st : Seat). st.committed ≤ st.total_committed) s.seats i _
              (rw e (fresh_counted stacks)) (omega arith))
            (omega arith);
      chips_fit =
          omega (arith, sum-map chips_of (posted i j x y turn).seats, ap sum (posted_chips turn));
    }

  -- The rest of `post_blinds`, once it is known which seats pay.
  blinds_from :
      (i j : ℕ)
      → AreSeats s (i, j)
      → Returns
          (do
            s₁ ← post_blind s i s.small_blind
            s₂ ← post_blind s₁ j s.big_blind
            let s₃ = record s₂ {
              current_bet = s.big_blind;
              min_raise = s.big_blind;
              last_full_raise_to = s.big_blind;
            }
            first ← if num_seats s == 2 then ok i else next_seat s₃ j
            to_act ← next_active s₃ first true
            ok (record s₃ { to_act = to_act; acted_since_raise = replicate (num_seats s) false }))
          (BlindsPosted stacks s)
  unfolding new_seat
  blinds_from i j (il, jl, ne) =
      let (x, ei) = new_seat_at s stacks e i il in
      let (y, ej) = new_seat_at s stacks e j jl in
      let s₁ = record s { seats = set s.seats i (paid (new_seat x) (min s.small_blind x)) } in
      let s₃ = record s {
        seats = set s₁.seats j (paid (new_seat y) (min s.big_blind y));
        current_bet = s.big_blind;
        min_raise = s.big_blind;
        last_full_raise_to = s.big_blind;
      } in
      let len = posted_len i j x y ne ei ej s.to_act in
      rw
        (
          post_blind-ok s i s.small_blind (new_seat x) ei (omega arith)
              (omega (arith, fits_at i x ei)),
          post_blind-ok s₁ j s.big_blind (new_seat y) (ej' i j x y ne ei ej) (omega arith)
              (omega (arith, fits_at j y ej)),
        )
        (Returns-bind (λ (f : ℕ). f < num_seats s₃) (BlindsPosted stacks s) _ _
          (first_in_range s₃ (num_seats s == 2) i j (omega (arith, len, num_seats-eq))
            (omega (arith, len, num_seats-eq)) (omega (arith, len)))
          (λ first lt.
            Returns-bind (IsTurn s₃.seats) (BlindsPosted stacks s) (next_active s₃ first true) _
              (next_active-IsTurn s₃ first true lt (omega (arith, len)))
              (λ turn is_turn. record {
                valid = record { sound = posted-IsSound i j x y ne ei ej turn; turn = is_turn };
                chips = posted_chips i j x y ne ei ej turn;
                at_street = refl;
                same_button = refl;
                bet = refl;
                min_raise = refl;
                nobody_acted = ap (λ (n : ℕ). replicate n false) num_seats-eq;
              })))

  post_blinds-Posted : Returns (post_blinds s) (BlindsPosted stacks s)
  unfolding post_blinds
  post_blinds-Posted =
      Returns-bind (AreSeats s) (BlindsPosted stacks s) (blind_seats s) _
        (blind_seats-AreSeats s (omega (arith, num_seats-eq)) (omega (arith, num_seats-eq))
          (omega (arith, num_seats-eq)))
        (λ (i, j) are. blinds_from i j are)

-- A table of 2 to 9 seats with a small blind no larger than the big blind, and with stacks whose
-- sum fits a u64, starts a hand: the state is valid, the chips of every seat are its stack, the
-- street is preflop, the button is taken modulo the seats, and the bet to match and the minimum raise
-- are the big blind. Any other number of seats is an error.
pub new_lem :
    (stacks : List ℕ) (button small_blind big_blind : ℕ)
    → small_blind ≤ big_blind
    → sum stacks < u64_mod
    → ((2 ≤ length stacks)
        × (length stacks ≤ 9)
        × Returns (new stacks button small_blind big_blind) (λ s.
          IsValid s
          × (map chips_of s.seats ≡ stacks)
          × (s.street ≡ preflop)
          × (s.button ≡ button % length stacks)
          × (s.current_bet ≡ big_blind)
          × (s.min_raise ≡ big_blind)))
      ⊎ (¬ ((2 ≤ length stacks) × (length stacks ≤ 9))
          × (new stacks button small_blind big_blind ≡ err (invalid_seat_count (length stacks))))
unfolding new
new_lem stacks button small_blind big_blind blinds fits =
    elim (Bool-cases (leb 2 (length stacks) && leb (length stacks) 9)) [
      | inr bad ↦ inr ((λ ok_count. ground (arith, ok_count)), rw bad)
      | inl good ↦
          let two : 2 ≤ length stacks = ground arith in
          let nine : length stacks ≤ 9 = ground arith in
          inl (
            two,
            nine,
            rw (good, rem64-ok button (length stacks) (omega arith))
                (Returns-mono (BlindsPosted stacks _) _ (post_blinds _)
                  (post_blinds-Posted
                    (record {
                      seats = map new_seat stacks;
                      button = button % length stacks;
                      small_blind = small_blind;
                      big_blind = big_blind;
                      street = preflop;
                      current_bet = 0;
                      min_raise = big_blind;
                      last_full_raise_to = 0;
                      to_act = none;
                      acted_since_raise = replicate (length stacks) false;
                    })
                    stacks refl two nine (grind arith) blinds fits)
                  (λ t p. (p.valid, p.chips, p.at_street, p.same_button, p.bet, p.min_raise))),
          )
    ]
