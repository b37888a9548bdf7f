-- ===== src/App/Offered.antt =====
-- app/src/gui_state.rs and app/src/freeplay/conn.rs: what the client offers, the engine accepts.
use ten_cent_poker_client.Prelude.{
  ℕ, ◌+◌, ◌-◌, ◌≤◌, ◌<◌, ◌≡◌, refl, ap, subst, ◌∙◌, Bool, true, false, ◌&&◌, some, inl, inr, ◌⊎◌,
  arith, ok, panic, leb, ltb, ◌==◌, ==→eq, if◌then◌else◌, min, add64, u64_mod, add64-ok,
  add64-panic, ltb→lt, ltb→le, index-ok, get_elem?, Returns, Bool-cases,
}
use ten_cent_poker_client.Betting.State.{Seat, BettingState, BettingError, to_call}
use ten_cent_poker_client.Betting.Actions.{apply}
use ten_cent_poker_client.Betting.Invariant.{IsValid}
use ten_cent_poker_client.Betting.Turns.{to_call-ok, covered_at}
use ten_cent_poker_client.Betting.Apply.{Applied, turn_seat}
use ten_cent_poker_client.Hand.Rounds.{fold-Applied, check-Applied}
use ten_cent_poker_client.Protocol.Bot.{
  WireAction, fold, check, call, all_in, to_game, call-Applied,
}
use ten_cent_poker_client.App.Legal.{
  LegalActions, compute_legal, Act, fold_act, check_call_act, bet_act, raise_act, all_in_act, max,
  clamp, only_if, map_action,
}
use ten_cent_poker_client.App.Accepted.{all_in-Applied, bet-Applied, raise-Applied}

-- The bounds of a seat, with the sums as numbers.
abbrev legal_of : BettingState → Seat → LegalActions
legal_of s st =
    let owed = s.current_bet - st.committed in
    let can_call = ltb 0 owed && ltb 0 st.stack in
    record {
      can_check = owed == 0;
      can_call = can_call;
      call_amount = owed;
      call_is_all_in = can_call && leb st.stack owed;
      can_bet = (s.current_bet == 0) && ltb 0 st.stack;
      can_raise = ltb 0 s.current_bet && ltb owed st.stack;
      can_all_in = ltb 0 st.stack;
      min_bet = min s.big_blind st.stack;
      min_raise_to = min (s.current_bet + s.min_raise) (st.stack + st.committed);
      max_to = st.stack + st.committed;
    }

summed :
    (a b : ℕ) → (add64 {E = BettingError} a b ≡ ok (a + b)) ⊎ (add64 {E = BettingError} a b ≡ panic)
summed a b = elim (Bool-cases (ltb (a + b) u64_mod)) [
  | inl fits ↦ inl (add64-ok a b (ltb→lt (a + b) u64_mod fits))
  | inr over ↦ inr (add64-panic a b (ltb→le (a + b) u64_mod over))
]

-- A raise is open to the seat, and the minimum raise is not nothing. Any other choice needs neither.
abbrev pub MayRaise : BettingState → ℕ → Act → Type 0
MayRaise s seat (raise_act n) =
    (get_elem? s.acted_since_raise seat ≡ some false) × (0 < s.min_raise)
MayRaise s seat fold_act = Unit
MayRaise s seat check_call_act = Unit
MayRaise s seat (bet_act n) = Unit
MayRaise s seat all_in_act = Unit

only_if-some : {A : Type 0} (b : Bool) (a w : A) → only_if b a ≡ some w → (b ≡ true) × (a ≡ w)
only_if-some true a w h = (refl, cc)
only_if-some false a w h = cc

-- The three answers to a check or a call.
answered :
    (free short may : Bool) (w : WireAction)
    → (if free then some check else (if short then some all_in else only_if may call)) ≡ some w
    → ((free ≡ true) × (check ≡ w))
      ⊎ (((short ≡ true) × (all_in ≡ w)) ⊎ ((free ≡ false) × (call ≡ w)))
answered true short may w h = inl (refl, cc)
answered false true may w h = inr (inl (refl, cc))
answered false false true w h = inr (inr (refl, cc))
answered false false false w h = cc

-- Where a bet and a raise are clamped to.
clamp-bounds : (n lo hi : ℕ) → lo ≤ hi → (lo ≤ clamp n lo hi) × (clamp n lo hi ≤ hi)
unfolding clamp
clamp-bounds n lo hi h = ground arith

bet_size :
    (n blind stack committed : ℕ)
    → committed ≤ 0
    → (clamp n (min blind stack) (max (stack + committed) (min blind stack)) ≤ stack)
      × (min blind stack ≤ clamp n (min blind stack) (max (stack + committed) (min blind stack)))
bet_size n blind stack committed h =
    ground (arith, clamp-bounds n (min blind stack) (max (stack + committed) (min blind stack)))

raise_size :
    (n wager min_raise stack committed total : ℕ)
    → 0 < min_raise
    → committed ≤ wager
    → wager - committed < stack
    → total
      ≡ clamp n
          (min (wager + min_raise) (stack + committed))
          (max (stack + committed) (min (wager + min_raise) (stack + committed)))
    → (wager < total)
      × (total ≤ committed + stack)
      × ((min_raise ≤ total - wager) ⊎ (total ≡ committed + stack))
raise_size n wager min_raise stack committed total pos le more e = ground (
  arith,
  clamp-bounds n (min (wager + min_raise) (stack + committed))
      (max (stack + committed) (min (wager + min_raise) (stack + committed))),
)

module _ (s : BettingState) (v : IsValid s) (seat : ℕ) (turn : s.to_act ≡ some seat) (st : Seat)
    (found : get_elem? s.seats seat ≡ some st) where
  covers : st.committed ≤ s.current_bet
  covers = covered_at s v.sound seat st found

  owed : to_call s seat ≡ ok (s.current_bet - st.committed)
  owed = to_call-ok s seat st found covers

  compute_legal-of :
      (legal : LegalActions) → compute_legal s seat ≡ ok legal → legal_of s st ≡ legal
  unfolding compute_legal
  compute_legal-of legal h = elim (summed s.current_bet s.min_raise) [
    | inr over ↦
        let p : compute_legal s seat ≡ panic = rw (owed, index-ok s.seats seat found, over) refl in
        cc
    | inl sum ↦ elim (summed st.stack st.committed) [
      | inr over ↦
          let p : compute_legal s seat ≡ panic =
            rw (owed, index-ok s.seats seat found, sum, over) refl in
          cc
      | inl whole ↦
          let p : compute_legal s seat ≡ ok (legal_of s st) =
            rw (owed, index-ok s.seats seat found, sum, whole) refl in
          cc
    ]
  ]

  abbrev Accepted : WireAction → Type 0
  Accepted w = Returns (apply s seat (to_game w)) (Applied s seat)

  check_call-Accepted :
      (w : WireAction) → map_action check_call_act (legal_of s st) ≡ some w → Accepted w
  unfolding map_action to_game
  check_call-Accepted w h =
      let need = s.current_bet - st.committed in
      elim (answered (need == 0) (ltb 0 need && ltb 0 st.stack && leb st.stack need)
        (ltb 0 need && ltb 0 st.stack) w h) [
          | inl (free, e) ↦
              subst Accepted e (check-Applied s v seat turn (owed ∙ ap ok (==→eq need 0 free)))
          | inr (inl (short, e)) ↦
              subst Accepted e (all_in-Applied s v seat turn st found (ground arith))
          | inr (inr (owing, e)) ↦ subst Accepted e (call-Applied s v seat turn need owed owing)
        ]

  bet-Accepted :
      (n : ℕ) (w : WireAction) → map_action (bet_act n) (legal_of s st) ≡ some w → Accepted w
  unfolding map_action to_game clamp
  bet-Accepted n w h =
      let (can, e) = only_if-some ((s.current_bet == 0) && ltb 0 st.stack) _ w h in
      let unbet : s.current_bet ≡ 0 = ground arith in
      let (fits, size) = bet_size n s.big_blind st.stack st.committed (omega (arith, covers)) in
      subst Accepted e (bet-Applied s v seat turn st found _ unbet fits size)

  raise-Accepted :
      (n : ℕ) (w : WireAction)
      → MayRaise s seat (raise_act n)
      → map_action (raise_act n) (legal_of s st) ≡ some w
      → Accepted w
  unfolding map_action to_game clamp
  raise-Accepted n w may h =
      let (can, e) =
        only_if-some (ltb 0 s.current_bet && ltb (s.current_bet - st.committed) st.stack) _ w h in
      let wagered : 0 < s.current_bet = ground arith in
      let more : s.current_bet - st.committed < st.stack = ground arith in
      let (higher, fits, size) =
        raise_size n s.current_bet s.min_raise st.stack st.committed _ may.1 covers more refl in
      subst Accepted e
        (raise-Applied s v seat turn st found _ higher (λ z. omega (arith, z)) may.0 fits size)

  offered-Accepted :
      (act : Act) (w : WireAction)
      → MayRaise s seat act
      → map_action act (legal_of s st) ≡ some w
      → Accepted w
  unfolding map_action to_game
  offered-Accepted fold_act w may h =
      let e : fold ≡ w = cc in subst Accepted e (fold-Applied s v seat turn)
  offered-Accepted check_call_act w may h = check_call-Accepted w h
  offered-Accepted (bet_act n) w may h = bet-Accepted n w h
  offered-Accepted (raise_act n) w may h = raise-Accepted n w may h
  offered-Accepted all_in_act w may h =
      let (can, e) = only_if-some (ltb 0 st.stack) all_in w h in
      subst Accepted e (all_in-Applied s v seat turn st found (ltb→lt 0 st.stack can))

-- In a valid state the client sends no action that the engine refuses: whatever the player on turn
-- chooses, by the bounds that the client computed, `apply` carries out what `map_action` sends. A
-- choice to raise needs a minimum raise that is not nothing and a seat that has not acted since the
-- last full raise.
pub map_action-Applied :
    (s : BettingState) (v : IsValid s) (seat : ℕ)
    → s.to_act ≡ some seat
    → (legal : LegalActions) → compute_legal s seat ≡ ok legal
    → (act : Act) (w : WireAction) → MayRaise s seat act
    → map_action act legal ≡ some w
    → Returns (apply s seat (to_game w)) (Applied s seat)
map_action-Applied s v seat turn legal computed act w may sent =
    let (st, found, active) = turn_seat s v seat turn in
    let e = compute_legal-of s v seat turn st found legal computed in
    offered-Accepted s v seat turn st found act w may (ap (map_action act) e ∙ sent)
