-- ===== src/Betting/Moves.antt =====
-- What each player action of game/src/betting.rs does to a sound state: it changes one seat, keeps
-- that seat's chips, never lowers the bet, and never panics.
use ten_cent_poker_client.Prelude.{
  ℕ, suc, ◌+◌, ◌-◌, ◌≤◌, ◌<◌, ◌≡◌, refl, Bool, true, false, not, ◌&&◌, some, inl, inr, List, [],
  ◌∷◌, arith, ok, ◌>>=◌, ◌>>◌, err_if, length, get_elem?, get_elem?-lt, get_elem?-set_self,
  get_elem?-le-sum_of, All-get_elem?, length-set, get_elem?-some-lt, set, u64_mod, Returns, Safe,
  Safe-of-Returns, index-ok, write-ok, add64-ok, sub64-ok, sub64, Bool-cases, ==→eq, index, ltb,
  leb, ◌==◌, if◌then◌else◌, ltb→lt, ltb→le, leb→lt, min, ap, ◌∙◌, sym, set-get_elem?,
}
use ten_cent_poker_client.Betting.State.{
  Seat, BettingState, num_seats, move_chips, commit, Action, fold, check, call, bet, raise, all_in,
  insufficient_stack, below_minimum,
}
use ten_cent_poker_client.Betting.Actions.{
  mark_acted, only_raiser, reopen_action, do_fold, do_check, do_call, do_bet, do_raise, do_all_in,
  may_reopen, shove_over, perform,
}
use ten_cent_poker_client.Betting.Invariant.{chips_of, IsSound}
use ten_cent_poker_client.Betting.Turns.{covered_at, to_call-ok}

-- The seat after it paid `amount`.
abbrev pub paid : Seat → ℕ → Seat
paid st amount = record st {
  stack = st.stack - amount;
  committed = st.committed + amount;
  total_committed = st.total_committed + amount;
  is_all_in = if (st.stack - amount) == 0 then true else st.is_all_in;
}

-- The step from `s` to `t` concerns the seat `i` alone, and moves its chips only into the pot.
pub record Moved (s : BettingState) (i : ℕ) (t : BettingState) : Type 0 where
  pub was : Seat
  pub now : Seat
  pub found : get_elem? s.seats i ≡ some was
  pub seats : t.seats ≡ set s.seats i now
  pub chips : chips_of now ≡ chips_of was
  pub covers : now.committed ≤ t.current_bet
  pub counts : now.committed ≤ now.total_committed
  pub bet_grows : s.current_bet ≤ t.current_bet
  pub same_button : t.button ≡ s.button
  pub same_street : t.street ≡ s.street
  pub acted_len : length t.acted_since_raise ≡ length s.acted_since_raise

pub length-only_raiser :
    (start raiser : ℕ) (acted : List Bool) → length (only_raiser start raiser acted) ≡ length acted
unfolding only_raiser
length-only_raiser start raiser [] = refl
length-only_raiser start raiser (a ∷ acted) = ap suc (length-only_raiser (suc start) raiser acted)

move_chips-ok :
    (st : Seat) (amount : ℕ)
    → amount ≤ st.stack
    → st.committed + amount < u64_mod
    → st.total_committed + amount < u64_mod
    → move_chips st amount ≡ ok (paid st amount)
unfolding move_chips
move_chips-ok st amount le lt₁ lt₂ = rw (
  sub64-ok st.stack amount le,
  add64-ok st.committed amount lt₁,
  add64-ok st.total_committed amount lt₂,
)

module _ {s t : BettingState} {i : ℕ} (m : Moved s i t) where
  -- The bookkeeping of raises is no part of `Moved`.
  pub Moved-reopen_action :
      (min_raise last_full_raise_to : ℕ)
      → Moved s i (
          reopen_action
            (record t { min_raise = min_raise; last_full_raise_to = last_full_raise_to })
            i)
  unfolding reopen_action
  Moved-reopen_action a b = record {
    was = m.was;
    now = m.now;
    found = m.found;
    seats = m.seats;
    chips = m.chips;
    covers = m.covers;
    counts = m.counts;
    bet_grows = m.bet_grows;
    same_button = m.same_button;
    same_street = m.same_street;
    acted_len = length-only_raiser 0 i t.acted_since_raise ∙ m.acted_len;
  }

  -- `mark_acted` ends every action.
  pub mark_acted-Moved :
      i < length s.acted_since_raise
      → Returns (mark_acted t i) (λ u. Moved s i u × (get_elem? u.acted_since_raise i ≡ some true))
  unfolding mark_acted
  mark_acted-Moved lt =
      let lt' : i < length t.acted_since_raise = omega (arith, m.acted_len) in
      rw (write-ok t.acted_since_raise i true lt') (
        record {
          was = m.was;
          now = m.now;
          found = m.found;
          seats = m.seats;
          chips = m.chips;
          covers = m.covers;
          counts = m.counts;
          bet_grows = m.bet_grows;
          same_button = m.same_button;
          same_street = m.same_street;
          acted_len = length-set t.acted_since_raise i true ∙ m.acted_len;
        },
        get_elem?-set_self t.acted_since_raise i true lt',
      )

pub commit_raw-ok :
    (s : BettingState) (i : ℕ) (st : Seat)
    → get_elem? s.seats i ≡ some st
    → (amount : ℕ) → amount ≤ st.stack
    → st.committed + amount < u64_mod
    → st.total_committed + amount < u64_mod
    → commit s i amount ≡ ok (record s { seats = set s.seats i (paid st amount) })
unfolding commit
commit_raw-ok s i st e amount le lt₁ lt₂ = rw (
  index-ok s.seats i e,
  move_chips-ok st amount le lt₁ lt₂,
  write-ok s.seats i (paid st amount) (get_elem?-some-lt s.seats i e),
)

module _ (s : BettingState) (h : IsSound s) (i : ℕ) (st : Seat)
    (e : get_elem? s.seats i ≡ some st) where
  counted_at : st.committed ≤ st.total_committed
  counted_at =
      All-get_elem? (λ (st : Seat). st.committed ≤ st.total_committed) s.seats i st h.counted e

  chips_fit_at : chips_of st < u64_mod
  chips_fit_at = omega (arith, get_elem?-le-sum_of chips_of s.seats i e, h.chips_fit)

  seat_lt : i < num_seats s
  seat_lt = get_elem?-some-lt s.seats i e

  pub acted_lt : i < length s.acted_since_raise
  acted_lt = omega (arith, seat_lt, h.acted_len)

  pub commit-ok :
      (amount : ℕ)
      → amount ≤ st.stack
      → commit s i amount ≡ ok (record s { seats = set s.seats i (paid st amount) })
  commit-ok amount le =
      commit_raw-ok s i st e amount le (omega (arith, counted_at, chips_fit_at))
        (omega (arith, chips_fit_at))

  Moved-paid :
      (amount b : ℕ)
      → amount ≤ st.stack
      → s.current_bet ≤ b
      → st.committed + amount ≤ b
      → Moved s i (record s { seats = set s.seats i (paid st amount); current_bet = b })
  Moved-paid amount b le grows covers = record {
    was = st;
    now = paid st amount;
    found = e;
    seats = refl;
    chips = omega arith;
    covers = covers;
    counts = omega (arith, counted_at);
    bet_grows = grows;
    same_button = refl;
    same_street = refl;
    acted_len = refl;
  }

  Moved-self : Moved s i s
  Moved-self = record {
    was = st;
    now = st;
    found = e;
    seats = sym (set-get_elem? s.seats i st e);
    chips = refl;
    covers = covered_at s h i st e;
    counts = counted_at;
    bet_grows = omega arith;
    same_button = refl;
    same_street = refl;
    acted_len = refl;
  }

  -- The step of an action that succeeds: the seat is marked as having acted.
  abbrev pub Done : BettingState → Type 0
  Done u = Moved s i u × (get_elem? u.acted_since_raise i ≡ some true)

  mark_acted-Done : (t : BettingState) → Moved s i t → Safe (mark_acted t i) Done
  mark_acted-Done t m = Safe-of-Returns Done (mark_acted t i) (mark_acted-Moved m acted_lt)

  do_fold-Done : Safe (do_fold s i) Done
  unfolding do_fold
  do_fold-Done =
      rw (index-ok s.seats i e, write-ok s.seats i (record st { folded = true }) seat_lt)
        (mark_acted-Done (record s { seats = set s.seats i (record st { folded = true }) })
          (record {
            was = st;
            now = record st { folded = true };
            found = e;
            seats = refl;
            chips = refl;
            covers = covered_at s h i st e;
            counts = counted_at;
            bet_grows = omega arith;
            same_button = refl;
            same_street = refl;
            acted_len = refl;
          }))

  do_check-Done : Safe (do_check s i) Done
  unfolding do_check
  do_check-Done =
      let need = s.current_bet - st.committed in
      rw (to_call-ok s i st e (covered_at s h i st e)) (elim (Bool-cases (ltb 0 need)) [
        | inl owing ↦ rw owing tt
        | inr even ↦ rw even (mark_acted-Done s Moved-self)
      ])

  do_call-Done : Safe (do_call s i) Done
  unfolding do_call
  do_call-Done =
      let need = s.current_bet - st.committed in
      let pay = min need st.stack in
      rw (to_call-ok s i st e (covered_at s h i st e)) (elim (Bool-cases (need == 0)) [
        | inl even ↦ rw even tt
        | inr owing ↦
            rw (owing, index-ok s.seats i e, commit-ok pay (omega arith))
              (mark_acted-Done (record s { seats = set s.seats i (paid st pay) })
                (Moved-paid pay s.current_bet (omega arith) (omega arith)
                  (omega (arith, covered_at s h i st e))))
      ])

  -- The choice that `do_bet` and `do_raise` make at their end.
  reopen_if-Done :
      (c : Bool) (a b : ℕ) (t : BettingState)
      → Moved s i t
      → Safe
          (mark_acted
            (if c then reopen_action (record t { min_raise = a; last_full_raise_to = b }) i else t)
            i)
          Done
  reopen_if-Done true a b t m = mark_acted-Done _ (Moved-reopen_action m a b)
  reopen_if-Done false a b t m = mark_acted-Done t m

  pub paid_at : (amount : ℕ) → get_elem? (set s.seats i (paid st amount)) i ≡ some (paid st amount)
  paid_at amount = get_elem?-set_self s.seats i (paid st amount) seat_lt

  do_bet-Done : (total : ℕ) → Safe (do_bet s i total) Done
  unfolding do_bet
  do_bet-Done total = elim (Bool-cases (s.current_bet == 0)) [
    | inr wagered ↦ rw wagered tt
    | inl unbet ↦
        rw (unbet, index-ok s.seats i e)
          (elim (Bool-cases (ltb st.stack total)) [
            | inl short ↦ rw short tt
            | inr enough ↦
                rw enough (elim (Bool-cases (ltb total s.big_blind && not (leb st.stack total))) [
                  | inl low ↦ rw low tt
                  | inr fine ↦
                      let le = ltb→le st.stack total enough in
                      let zero_bet = ==→eq s.current_bet 0 unbet in
                      rw
                        (
                          fine,
                          commit-ok total le,
                          index-ok (set s.seats i (paid st total)) i (paid_at total),
                        )
                        (reopen_if-Done (leb s.big_blind (st.committed + total))
                          (st.committed + total) (st.committed + total)
                          (record s {
                            seats = set s.seats i (paid st total);
                            current_bet = st.committed + total;
                          })
                          (Moved-paid total (st.committed + total) le (omega arith) (omega arith)))
                ])
          ])
  ]

  -- The part of `do_raise` behind the test that the target is higher than the bet.
  raise_to-Done :
      (target : ℕ)
      → s.current_bet < target
      → Safe
          (do
            needed ← sub64 target st.committed
            err_if (ltb st.stack needed) (insufficient_stack i st.stack needed)
            increment ← sub64 target s.current_bet
            let is_full_stack = needed == st.stack
            err_if
                (ltb increment s.min_raise && not is_full_stack)
                (below_minimum increment s.min_raise)
            s₁ ← commit s i needed
            paid ← index s₁.seats i
            let s₂ = record s₁ { current_bet = paid.committed }
            let s₃ =
                if leb s.min_raise increment
                then reopen_action
                    (record s₂ { min_raise = increment; last_full_raise_to = paid.committed })
                    i
                else s₂
            mark_acted s₃ i)
          Done
  raise_to-Done target lt =
      let needed = target - st.committed in
      let increment = target - s.current_bet in
      let over = covered_at s h i st e in
      rw (sub64-ok target st.committed (omega arith)) (elim (Bool-cases (ltb st.stack needed)) [
        | inl short ↦ rw short tt
        | inr enough ↦
            rw (enough, sub64-ok target s.current_bet (omega arith))
              (elim (Bool-cases (ltb increment s.min_raise && not (needed == st.stack))) [
                | inl low ↦ rw low tt
                | inr fine ↦
                    let le = ltb→le st.stack needed enough in
                    rw
                      (
                        fine,
                        commit-ok needed le,
                        index-ok (set s.seats i (paid st needed)) i (paid_at needed),
                      )
                      (reopen_if-Done (leb s.min_raise increment) increment (st.committed + needed)
                        (record s {
                          seats = set s.seats i (paid st needed);
                          current_bet = st.committed + needed;
                        })
                        (Moved-paid needed (st.committed + needed) le (omega arith) (omega arith)))
              ])
      ])

  do_raise-Done : (target : ℕ) → Safe (do_raise s i target) Done
  unfolding do_raise may_reopen
  do_raise-Done target =
      let (acted, ea) = get_elem?-lt s.acted_since_raise i acted_lt in
      elim (Bool-cases (s.current_bet == 0)) [
        | inl unbet ↦ rw unbet tt
        | inr wagered ↦
            rw (wagered, index-ok s.acted_since_raise i ea)
              (elim (Bool-cases acted) [
                | inl closed ↦ rw closed tt
                | inr reopened ↦ rw reopened (elim (Bool-cases (leb target s.current_bet)) [
                  | inl low ↦ rw low tt
                  | inr higher ↦
                      rw (higher, index-ok s.seats i e)
                        (raise_to-Done target (leb→lt target s.current_bet higher))
                ])
              ])
      ]

  shove-Moved :
      (b : ℕ)
      → s.current_bet ≤ b
      → st.committed + st.stack ≤ b
      → Moved s i (record s { seats = set s.seats i (paid st st.stack); current_bet = b })
  shove-Moved b grows covers = Moved-paid st.stack b (omega arith) grows covers

  -- The three ways in which a shove that raises leaves the bookkeeping.
  shove_choice-Done :
      (full opening : Bool) (a b : ℕ) (t : BettingState)
      → Moved s i t
      → Safe
          (mark_acted
            (if full
              then reopen_action (record t { min_raise = a; last_full_raise_to = b }) i
              else (if opening then reopen_action t i else t))
            i)
          Done
  shove_choice-Done true opening a b t m = mark_acted-Done _ (Moved-reopen_action m a b)
  shove_choice-Done false true a b t m =
      mark_acted-Done _ (Moved-reopen_action m t.min_raise t.last_full_raise_to)
  shove_choice-Done false false a b t m = mark_acted-Done t m

  do_all_in-Done : Safe (do_all_in s i) Done
  unfolding do_all_in shove_over may_reopen
  do_all_in-Done =
      let (acted, ea) = get_elem?-lt s.acted_since_raise i acted_lt in
      let total = st.committed + st.stack in
      rw (index-ok s.seats i e) (elim (Bool-cases (st.stack == 0)) [
        | inl broke ↦ rw broke tt
        | inr some_chips ↦
            rw
              (
                some_chips,
                add64-ok st.committed st.stack (omega (arith, counted_at, chips_fit_at)),
                commit-ok st.stack (omega arith),
              )
              (elim (Bool-cases (ltb s.current_bet total)) [
                | inr short ↦ rw short (
                    mark_acted-Done (record s { seats = set s.seats i (paid st st.stack) })
                      (shove-Moved s.current_bet (omega arith) (ltb→le s.current_bet total short)))
                | inl over ↦
                    let up = ltb→lt s.current_bet total over in
                    let t = record s {
                      seats = set s.seats i (paid st st.stack);
                      current_bet = total;
                    } in
                    let m = shove-Moved total (omega arith) (omega arith) in
                    rw (over, sub64-ok total s.current_bet (omega arith))
                      (elim (Bool-cases (leb s.min_raise (total - s.current_bet))) [
                        | inl big ↦
                            rw (big, index-ok s.acted_since_raise i ea)
                              (shove_choice-Done (not acted) (s.current_bet == 0)
                                (total - s.current_bet) total t m)
                        | inr small ↦ rw small (
                            shove_choice-Done false (s.current_bet == 0) (total - s.current_bet)
                              total t m)
                      ])
              ])
      ])

  -- Every action on a seat of a sound state either is refused or is done: it never panics.
  pub perform-Done : (a : Action) → Safe (perform s i a) Done
  unfolding perform
  perform-Done fold = do_fold-Done
  perform-Done check = do_check-Done
  perform-Done call = do_call-Done
  perform-Done (bet n) = do_bet-Done n
  perform-Done (raise n) = do_raise-Done n
  perform-Done all_in = do_all_in-Done
