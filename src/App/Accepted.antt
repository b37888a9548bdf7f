-- ===== src/App/Accepted.antt =====
-- game/src/betting.rs: actions that `apply` accepts on the seat's turn.
use ten_cent_poker_client.Prelude.{
  ℕ, ◌+◌, ◌-◌, ◌≤◌, ◌<◌, ◌≡◌, ◌≢◌, Bool, true, false, ◌&&◌, not, min, Option, none, some, ◌⊎◌,
  arith, ok, err, panic, ◌>>=◌, index, write, add64, sub64, List, ltb, leb, ◌==◌, if◌then◌else◌,
  get_elem?, u64_mod, length, set, Returns, Returns-mono, Safe, le→ltb, eq→==, index-ok,
}
use ten_cent_poker_client.Betting.State.{
  Res, Seat, BettingState, Action, bet, raise, all_in, commit, move_chips,
}
use ten_cent_poker_client.Betting.Actions.{
  mark_acted, may_reopen, do_bet, do_raise, do_all_in, shove_over, perform, apply,
}
use ten_cent_poker_client.Betting.Invariant.{IsValid}
use ten_cent_poker_client.Betting.Moves.{Done, perform-Done}
use ten_cent_poker_client.Betting.Raises.{RaiseEffect, raise_accepted}
use ten_cent_poker_client.Betting.Apply.{Applied, turn_seat}
use ten_cent_poker_client.Hand.Rounds.{unrefused}

-- A result that is no error.
abbrev NoError : {A : Type 0} → Res A → Type 0
NoError (ok a) = Unit
NoError (err e) = ⊥
NoError panic = Unit

pub record Unrefused {A : Type 0} (m : Res A) : Type 0 where
  pub outcome : NoError m

module _ {A B : Type 0} where
  Unrefused-bind :
      (m : Res A) (f : A → Res B) → Unrefused m → ((a : A) → Unrefused (f a)) → Unrefused (m >>= f)
  Unrefused-bind (ok a) f h k = k a
  Unrefused-bind (err e) f h k = absurd h.outcome
  Unrefused-bind panic f h k = record { outcome = tt }

module _ {A : Type 0} where
  Unrefused-ok : (a : A) → Unrefused (ok a)
  Unrefused-ok a = record { outcome = tt }

  Unrefused-if :
      (b : Bool) (m n : Res A) → Unrefused m → Unrefused n → Unrefused (if b then m else n)
  Unrefused-if true m n hm hn = hm
  Unrefused-if false m n hm hn = hn

  Unrefused-index : (xs : List A) (i : ℕ) → Unrefused (index xs i)
  unfolding index
  Unrefused-index xs i = found (get_elem? xs i)
    where
      found : (o : Option A) → Unrefused (elim o as (λ o'. Res A) [ none ↦ panic | some a ↦ ok a ])
      found none = record { outcome = tt }
      found (some a) = record { outcome = tt }

  or_panic : (b : Bool) (a : A) → Unrefused (if b then ok a else panic)
  or_panic true a = record { outcome = tt }
  or_panic false a = record { outcome = tt }

module _ {A : Type 0} where
  Unrefused-write : (xs : List A) (i : ℕ) (a : A) → Unrefused (write xs i a)
  unfolding write
  Unrefused-write xs i a = or_panic (ltb i (length xs)) (set xs i a)

Unrefused-add64 : (a b : ℕ) → Unrefused (add64 a b)
unfolding add64
Unrefused-add64 a b = or_panic (ltb (a + b) u64_mod) (a + b)

Unrefused-sub64 : (a b : ℕ) → Unrefused (sub64 a b)
unfolding sub64
Unrefused-sub64 a b = or_panic (leb b a) (a - b)

ruleset unrefused_rules = (
  Unrefused-bind, Unrefused-ok, Unrefused-if, Unrefused-index, Unrefused-write, Unrefused-add64,
  Unrefused-sub64,
)

Unrefused-commit : (s : BettingState) (seat amount : ℕ) → Unrefused (commit s seat amount)
unfolding commit move_chips
Unrefused-commit s seat amount = search unrefused_rules depth 14

Unrefused-mark_acted : (s : BettingState) (seat : ℕ) → Unrefused (mark_acted s seat)
unfolding mark_acted
Unrefused-mark_acted s seat = search unrefused_rules depth 14

Unrefused-shove_over :
    (s s₁ : BettingState) (seat total : ℕ) → Unrefused (shove_over s s₁ seat total)
unfolding shove_over may_reopen
Unrefused-shove_over s s₁ seat total = search unrefused_rules depth 14

-- Behind the tests of the three bets nothing is refused.
all_in-Unrefused :
    (s : BettingState) (seat : ℕ) (st : Seat)
    → get_elem? s.seats seat ≡ some st
    → 0 < st.stack
    → Unrefused (do_all_in s seat)
unfolding do_all_in
all_in-Unrefused s seat st found chips =
    rw (index-ok s.seats seat found, pos→== st.stack chips)
      (search (unrefused_rules, Unrefused-commit, Unrefused-mark_acted, Unrefused-shove_over) depth
        14)
  where
    pos→== : (n : ℕ) → 0 < n → (n == 0) ≡ false
    pos→== n h = ground arith

bet-Unrefused :
    (s : BettingState) (seat : ℕ) (st : Seat) (total : ℕ)
    → get_elem? s.seats seat ≡ some st
    → s.current_bet ≡ 0
    → total ≤ st.stack
    → min s.big_blind st.stack ≤ total
    → Unrefused (do_bet s seat total)
unfolding do_bet
bet-Unrefused s seat st total found unbet afford size =
    rw
      (
        eq→== s.current_bet 0 unbet,
        index-ok s.seats seat found,
        le→ltb st.stack total afford,
        large st.stack s.big_blind total afford size,
      )
      (search (unrefused_rules, Unrefused-commit, Unrefused-mark_acted) depth 14)
  where
    large :
        (stack blind total : ℕ)
        → total ≤ stack
        → min blind stack ≤ total
        → (ltb total blind && not (leb stack total)) ≡ false
    large stack blind total le h = ground arith

module _ (s : BettingState) (v : IsValid s) (seat : ℕ) (turn : s.to_act ≡ some seat) where
  -- What is not refused is carried out, since it never panics.
  carried : (a : Action) → Unrefused (perform s seat a) → Returns (apply s seat a) (Applied s seat)
  carried a u =
      let (st, found, active) = turn_seat s v seat turn in
      unrefused s v seat turn a (
        both (Done s v.sound seat st found) (perform s seat a) u
          (perform-Done s v.sound seat st found a))
    where
      both :
          (P : BettingState → Type 0) (m : Res BettingState)
          → Unrefused m
          → Safe m P
          → Returns m (λ t. Unit)
      both P (ok t) u h = tt
      both P (err e) u h = u.outcome
      both P panic u h = h

  module _ (st : Seat) (found : get_elem? s.seats seat ≡ some st) where
    pub all_in-Applied : 0 < st.stack → Returns (apply s seat all_in) (Applied s seat)
    unfolding perform
    all_in-Applied chips = carried all_in (all_in-Unrefused s seat st found chips)

    pub bet-Applied :
        (total : ℕ)
        → s.current_bet ≡ 0
        → total ≤ st.stack
        → min s.big_blind st.stack ≤ total
        → Returns (apply s seat (bet total)) (Applied s seat)
    unfolding perform
    bet-Applied total unbet afford size =
        carried (bet total) (bet-Unrefused s seat st total found unbet afford size)

    pub raise-Applied :
        (total : ℕ)
        → s.current_bet < total
        → s.current_bet ≢ 0
        → get_elem? s.acted_since_raise seat ≡ some false
        → total ≤ st.committed + st.stack
        → (s.min_raise ≤ total - s.current_bet) ⊎ (total ≡ st.committed + st.stack)
        → Returns (apply s seat (raise total)) (Applied s seat)
    unfolding perform
    raise-Applied total higher wagered open_action afford size =
        unrefused s v seat turn (raise total) (
          Returns-mono (RaiseEffect s seat st total) (λ t. Unit) (do_raise s seat total)
            (raise_accepted s v.sound seat st found wagered total higher open_action afford size)
            (λ t r. tt))
