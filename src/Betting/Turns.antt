-- ===== src/Betting/Turns.antt =====
-- Whose turn it is after an action: what the loop of `advance` finds.
use ten_cent_poker_client.Prelude.{
  ℕ, suc, zero, ◌+◌, ◌%◌, ◌≤◌, ◌<◌, ◌≡◌, refl, Bool, true, false, Option, none, some, inl, inr,
  arith, ok, get_elem?, get_elem?-lt, All-get_elem?, Returns, Returns-bind, Returns-mono, index-ok,
  Bool-cases, ltb, ltb→lt, ltb→le, ◌-◌, ◌⊎◌, sym, subst, ap, ◌∙◌, Returns-value,
}
use ten_cent_poker_client.Cards.{amount_to_call-ok}
use ten_cent_poker_client.Betting.State.{
  Seat, is_active, BettingState, num_seats, to_call, hand_over_by_folds,
}
use ten_cent_poker_client.Betting.Invariant.{IsSound, IsTurn, next_seat-ok, next_seat-lt}
use native.Mathlib.Nat.{mod-add-mod, mod-eq_of_lt}
use ten_cent_poker_client.Betting.Actions.{owes_decision, scan_owing, advance}

-- The seat `i` is active and has either not acted since the last full raise or still owes chips.
abbrev pub Owes : BettingState → ℕ → Type 0
Owes s i =
    (st : Seat) × (get_elem? s.seats i ≡ some st)
    × (is_active st ≡ true)
    × ((get_elem? s.acted_since_raise i ≡ some false) ⊎ (st.committed < s.current_bet))

-- The first of `rounds` seats, clockwise from `i`, that owes a decision.
abbrev pub IsFirstOwing : BettingState → ℕ → ℕ → Option ℕ → Type 0
IsFirstOwing s i rounds none = (k : ℕ) → k < rounds → ¬ Owes s ((i + k) % num_seats s)
IsFirstOwing s i rounds (some j) =
    (k : ℕ) × (k < rounds)
    × (j ≡ (i + k) % num_seats s)
    × Owes s j
    × ((m : ℕ) → m < k → ¬ Owes s ((i + m) % num_seats s))

-- What the test of the loop says.
abbrev Decides : Type 0 → Bool → Type 0
Decides P true = P
Decides P false = ¬ P

pub to_call-ok :
    (s : BettingState) (i : ℕ) (st : Seat)
    → get_elem? s.seats i ≡ some st
    → st.committed ≤ s.current_bet
    → to_call s i ≡ ok (s.current_bet - st.committed)
unfolding to_call
to_call-ok s i st e le = rw (index-ok s.seats i e) (amount_to_call-ok s.current_bet st.committed le)

module _ (s : BettingState) (h : IsSound s) where
  pub covered_at :
      (i : ℕ) (st : Seat) → get_elem? s.seats i ≡ some st → st.committed ≤ s.current_bet
  covered_at i st e =
      All-get_elem? (λ (st : Seat). st.committed ≤ s.current_bet) s.seats i st h.covered e

  owes_decision-acted :
      (i : ℕ) (st : Seat) (acted : Bool)
      → get_elem? s.seats i ≡ some st
      → get_elem? s.acted_since_raise i ≡ some acted
      → is_active st ≡ true
      → Returns (owes_decision s i) (Decides (Owes s i))
  unfolding owes_decision
  owes_decision-acted i st false e ea active =
      rw (index-ok s.seats i e, active, index-ok s.acted_since_raise i ea) (st, e, active, inl ea)
  owes_decision-acted i st true e ea active =
      rw
        (
          index-ok s.seats i e,
          active,
          index-ok s.acted_since_raise i ea,
          to_call-ok s i st e (covered_at i st e),
        )
        (elim (Bool-cases (ltb 0 (s.current_bet - st.committed))) [
          | inl owing ↦ rw owing (st, e, active, inr (omega (arith, ltb→lt _ _ owing)))
          | inr even ↦
              rw even (λ o. ground (arith, ltb→le 0 (s.current_bet - st.committed) even, o.1, o.3))
        ])

  pub owes_decision-Decides :
      (i : ℕ) → i < num_seats s → Returns (owes_decision s i) (Decides (Owes s i))
  unfolding owes_decision
  owes_decision-Decides i lt =
      let (st, e) = get_elem?-lt s.seats i lt in
      let (acted, ea) = get_elem?-lt s.acted_since_raise i (omega (arith, h.acted_len)) in
      elim (Bool-cases (is_active st)) [
        | inl active ↦ owes_decision-acted i st acted e ea active
        | inr idle ↦ rw (index-ok s.seats i e, idle) (λ o. cc (o.1, o.2))
      ]

wrap_step : (n i k : ℕ) → ((i + 1) % n + k) % n ≡ (i + suc k) % n
wrap_step n i k = mod-add-mod (i + 1) n k ∙ ap (λ t. t % n) (omega arith)

module _ (s : BettingState) (i : ℕ) (lt : i < num_seats s) (settled : ¬ Owes s i) where
  later_settled :
      (rounds : ℕ)
      → ((k : ℕ) → k < rounds → ¬ Owes s (((i + 1) % num_seats s + k) % num_seats s))
      → (k : ℕ) → k < suc rounds
      → ¬ Owes s ((i + k) % num_seats s)
  later_settled rounds h zero kl o =
      settled (subst (λ (t : ℕ). Owes s t) (grind (arith, mod-eq_of_lt)) o)
  later_settled rounds h (suc k) kl o =
      h k (omega arith) (subst (λ (t : ℕ). Owes s t) (sym (wrap_step (num_seats s) i k)) o)

  IsFirstOwing-later :
      (rounds : ℕ) (r : Option ℕ)
      → IsFirstOwing s ((i + 1) % num_seats s) rounds r
      → IsFirstOwing s i (suc rounds) r
  IsFirstOwing-later rounds none h = later_settled rounds h
  IsFirstOwing-later rounds (some j) (k, kl, e, o, before) =
      (suc k, omega arith, e ∙ wrap_step (num_seats s) i k, o, later_settled k before)

module _ (s : BettingState) (h : IsSound s) where
  -- The loop of `advance` finds the first seat that owes a decision, and none if there is none.
  pub scan_owing-IsFirstOwing :
      (rounds i : ℕ) → i < num_seats s → Returns (scan_owing s rounds i) (IsFirstOwing s i rounds)
  unfolding scan_owing
  scan_owing-IsFirstOwing zero i lt = λ k kl. absurd (omega arith)
  scan_owing-IsFirstOwing (suc rounds) i lt =
      let (b, e, d) =
        Returns-value (Decides (Owes s i)) (owes_decision s i) (owes_decision-Decides s h i lt) in
      branch b e d (scan_owing-IsFirstOwing rounds ((i + 1) % num_seats s) (next_seat-lt s i lt))
    where
      branch :
          (b : Bool)
          → owes_decision s i ≡ ok b
          → Decides (Owes s i) b
          → Returns
              (scan_owing s rounds ((i + 1) % num_seats s))
              (IsFirstOwing s ((i + 1) % num_seats s) rounds)
          → Returns (scan_owing s (suc rounds) i) (IsFirstOwing s i (suc rounds))
      branch true e d later =
          rw e (0, omega arith, grind (arith, mod-eq_of_lt), d, λ m ml. absurd (omega arith))
      branch false e d later =
          rw (e, next_seat-ok s i lt h.seats_max)
            (Returns-mono (IsFirstOwing s ((i + 1) % num_seats s) rounds)
              (IsFirstOwing s i (suc rounds)) (scan_owing s rounds ((i + 1) % num_seats s)) later
              (IsFirstOwing-later s i lt d rounds))

  IsFirstOwing-IsTurn : (i rounds : ℕ) (r : Option ℕ) → IsFirstOwing s i rounds r → IsTurn s.seats r
  IsFirstOwing-IsTurn i rounds none f = tt
  IsFirstOwing-IsTurn i rounds (some j) (k, kl, e, o, before) = (o.0, o.1, o.2)

  -- What `advance` makes of the state after an action of the seat `last`: nobody is to act once
  -- the hand is over, and otherwise the first seat after `last` that owes a decision.
  pub advance-Returns :
      (last : ℕ)
      → last < num_seats s
      → Returns (advance s last) (λ s'.
        (s' ≡ record s { to_act = s'.to_act })
        × IsTurn s.seats s'.to_act
        × (hand_over_by_folds s ≡ true → s'.to_act ≡ none)
        × (hand_over_by_folds s ≡ false
            → IsFirstOwing s ((last + 1) % num_seats s) (num_seats s) s'.to_act))
  unfolding advance
  advance-Returns last lt = elim (Bool-cases (hand_over_by_folds s)) [
    | inl over ↦ rw over (refl, tt, λ _. refl, λ e. cc)
    | inr open_hand ↦
        let first = (last + 1) % num_seats s in
        rw (open_hand, next_seat-ok s last lt h.seats_max)
          (Returns-bind (IsFirstOwing s first (num_seats s)) _ (scan_owing s (num_seats s) first) _
            (scan_owing-IsFirstOwing (num_seats s) first (next_seat-lt s last lt))
            (λ r f. (refl, IsFirstOwing-IsTurn first (num_seats s) r f, λ e. cc, λ _. f)))
  ]

-- If the loop finds no seat, then no seat at all owes a decision.
pub none_owing :
    (s : BettingState) (i : ℕ)
    → i < num_seats s
    → IsFirstOwing s i (num_seats s) none
    → (j : ℕ) → j < num_seats s
    → ¬ Owes s j
none_owing s i lt h j jl o = elim (Bool-cases (ltb j i)) [
  | inl wrapped ↦
      h (j + num_seats s - i) (omega (arith, ltb→lt j i wrapped))
        (subst (λ (t : ℕ). Owes s t) (wraps (omega (arith, ltb→lt j i wrapped))) o)
  | inr ahead ↦
      h (j - i) (omega arith)
        (subst (λ (t : ℕ). Owes s t) (stays (omega (arith, ltb→le j i ahead))) o)
]
  where
    wraps : j < i → j ≡ (i + (j + num_seats s - i)) % num_seats s
    wraps l = grind (arith, mod-eq_of_lt)

    stays : i ≤ j → j ≡ (i + (j - i)) % num_seats s
    stays l = grind (arith, mod-eq_of_lt)
