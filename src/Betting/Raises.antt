-- ===== src/Betting/Raises.antt =====
-- `do_raise`: which raises are accepted, and whether they reopen the action.
use ten_cent_poker_client.Prelude.{
  ℕ, suc, zero, ◌+◌, ◌-◌, ◌≤◌, ◌<◌, ◌≡◌, ◌≢◌, refl, Bool, true, false, not, ◌&&◌, some, inl, inr,
  List, [], ◌∷◌, ◌⊎◌, arith, err, length, get_elem?, get_elem?-lt, get_elem?-set_ne, set, Returns,
  Safe, Safe-of-Returns, index-ok, write-ok, sub64-ok, Bool-cases, ne→==, le→ltb, lt→leb, ltb, leb,
  ◌==◌, if◌then◌else◌, ltb→le, leb→lt, leb→le, ap, ◌∙◌,
}
use ten_cent_poker_client.Betting.State.{Seat, BettingState, num_seats, action_not_reopened}
use ten_cent_poker_client.Betting.Actions.{
  mark_acted, only_raiser, reopen_action, do_raise, may_reopen,
}
use ten_cent_poker_client.Betting.Invariant.{IsSound}
use ten_cent_poker_client.Betting.Turns.{covered_at}
use ten_cent_poker_client.Betting.Moves.{paid, length-only_raiser, commit-ok, paid_at, acted_lt}

-- What is true of a raise to `target` by the seat `i`, now `st`, that is accepted in the state `s`.
pub record RaiseEffect (s : BettingState) (i : ℕ) (st : Seat) (target : ℕ) (t : BettingState)
    : Type 0 where
  pub higher : s.current_bet < target
  pub allowed : get_elem? s.acted_since_raise i ≡ some false
  pub afforded : target ≤ st.committed + st.stack
  pub size : (s.min_raise ≤ target - s.current_bet) ⊎ (target ≡ st.committed + st.stack)
  pub bet : t.current_bet ≡ target
  pub reopens :
      ((s.min_raise ≤ target - s.current_bet)
        × (t.min_raise ≡ target - s.current_bet)
        × ((j : ℕ) → j < num_seats s → i ≢ j → get_elem? t.acted_since_raise j ≡ some false))
      ⊎ ((target - s.current_bet < s.min_raise)
          × (t.min_raise ≡ s.min_raise)
          × (t.acted_since_raise ≡ set s.acted_since_raise i true))

only_raiser_at :
    (start raiser : ℕ) (acted : List Bool) (j : ℕ)
    → j < length acted
    → get_elem? (only_raiser start raiser acted) j ≡ some ((start + j) == raiser)
unfolding only_raiser
only_raiser_at start raiser [] j lt = elim lt [ ]
only_raiser_at start raiser (a ∷ acted) zero lt = ap (λ (k : ℕ). some (k == raiser)) (omega arith)
only_raiser_at start raiser (a ∷ acted) (suc j) lt =
    only_raiser_at (suc start) raiser acted j (omega arith)
    ∙ ap (λ (k : ℕ). some (k == raiser)) (omega arith)

only_raiser_other :
    (raiser : ℕ) (acted : List Bool) (j : ℕ)
    → j < length acted
    → raiser ≢ j
    → get_elem? (only_raiser 0 raiser acted) j ≡ some false
only_raiser_other raiser acted j lt ne = only_raiser_at 0 raiser acted j lt ∙ ap some (ground arith)

module _ (s : BettingState) (h : IsSound s) (i : ℕ) (st : Seat) (e : get_elem? s.seats i ≡ some st)
    (target : ℕ) (lt : s.current_bet < target)
    (open_action : get_elem? s.acted_since_raise i ≡ some false)
    (afford : target - st.committed ≤ st.stack)
    (size : (s.min_raise ≤ target - s.current_bet) ⊎ (target - st.committed ≡ st.stack)) where
  -- The state once the chips are in.
  abbrev raised : BettingState
  raised = record s {
    seats = set s.seats i (paid st (target - st.committed));
    current_bet = st.committed + (target - st.committed);
  }

  covers : st.committed ≤ s.current_bet
  covers = covered_at s h i st e

  finish_full :
      s.min_raise ≤ target - s.current_bet
      → Returns
          (mark_acted
            (reopen_action
              (record raised {
                min_raise = target - s.current_bet;
                last_full_raise_to = st.committed + (target - st.committed);
              })
              i)
            i)
          (RaiseEffect s i st target)
  unfolding mark_acted reopen_action
  finish_full big =
      let cleared = only_raiser 0 i s.acted_since_raise in
      let len = length-only_raiser 0 i s.acted_since_raise in
      rw (write-ok cleared i true (omega (arith, len, acted_lt s h i st e))) (record {
        higher = lt;
        allowed = open_action;
        afforded = omega (arith, covers);
        size = inl big;
        bet = omega (arith, covers);
        reopens = inl (
          big,
          refl,
          λ j jl ne.
              get_elem?-set_ne cleared true ne
              ∙ only_raiser_other i s.acted_since_raise j (omega (arith, h.acted_len)) ne,
        );
      })

  finish_under :
      target - s.current_bet < s.min_raise
      → Returns (mark_acted raised i) (RaiseEffect s i st target)
  unfolding mark_acted
  finish_under small = rw (write-ok s.acted_since_raise i true (acted_lt s h i st e)) (record {
    higher = lt;
    allowed = open_action;
    afforded = omega (arith, covers);
    size = omega (arith, covers);
    bet = omega (arith, covers);
    reopens = inr (small, refl, refl);
  })

  finish_raise :
      Returns
        (mark_acted
          (if leb s.min_raise (target - s.current_bet)
            then reopen_action
                (record raised {
                  min_raise = target - s.current_bet;
                  last_full_raise_to = st.committed + (target - st.committed);
                })
                i
            else raised)
          i)
        (RaiseEffect s i st target)
  finish_raise = elim (Bool-cases (leb s.min_raise (target - s.current_bet))) [
    | inl big ↦ rw big (finish_full (leb→le _ _ big))
    | inr small ↦ rw small (finish_under (leb→lt _ _ small))
  ]

small_enough :
    (min_raise increment needed stack : ℕ)
    → (min_raise ≤ increment) ⊎ (needed ≡ stack)
    → (ltb increment min_raise && not (needed == stack)) ≡ false
small_enough min_raise increment needed stack h = ground arith

sized :
    (min_raise increment needed stack : ℕ)
    → (ltb increment min_raise && not (needed == stack)) ≡ false
    → (min_raise ≤ increment) ⊎ (needed ≡ stack)
sized min_raise increment needed stack h = ground arith

module _ (s : BettingState) (h : IsSound s) (i : ℕ) (st : Seat) (e : get_elem? s.seats i ≡ some st)
    (wagered : s.current_bet ≢ 0) (target : ℕ) where
  -- In a sound state with a bet, a raise above the bet that the seat can pay, by a seat that has not
  -- acted since the last full raise, is accepted if it is a full raise or takes the whole stack, with
  -- the effect that `RaiseEffect` states.
  pub raise_accepted :
      s.current_bet < target
      → get_elem? s.acted_since_raise i ≡ some false
      → target ≤ st.committed + st.stack
      → (s.min_raise ≤ target - s.current_bet) ⊎ (target ≡ st.committed + st.stack)
      → Returns (do_raise s i target) (RaiseEffect s i st target)
  unfolding do_raise may_reopen
  raise_accepted lt open_action afford size =
      let covers = covered_at s h i st e in
      let needed = target - st.committed in
      let size' : (s.min_raise ≤ target - s.current_bet) ⊎ (needed ≡ st.stack) =
        omega (arith, covers) in
      let enough : needed ≤ st.stack = omega (arith, covers) in
      rw
        (
          ne→== s.current_bet 0 wagered,
          index-ok s.acted_since_raise i open_action,
          lt→leb target s.current_bet lt,
          index-ok s.seats i e,
          sub64-ok target st.committed (omega (arith, covers)),
          le→ltb st.stack needed enough,
          sub64-ok target s.current_bet (omega arith),
          small_enough s.min_raise (target - s.current_bet) needed st.stack size',
          commit-ok s h i st e needed enough,
          index-ok (set s.seats i (paid st needed)) i (paid_at s h i st e needed),
        )
        (finish_raise s h i st e target lt open_action enough size')

  -- Once a seat has acted, an under-raise does not give it the right to raise again: the raise is
  -- refused, whatever its size.
  pub raise_closed :
      get_elem? s.acted_since_raise i ≡ some true
      → do_raise s i target ≡ err (action_not_reopened i)
  unfolding do_raise may_reopen
  raise_closed acted = rw (ne→== s.current_bet 0 wagered, index-ok s.acted_since_raise i acted)

  -- In a sound state with a bet a raise by any seat of the table never panics. When it is accepted the
  -- target is above the bet, the seat had not acted since the last full raise, it can pay, and the
  -- raise is at least the minimum or takes the whole stack. A full raise sets the minimum and reopens
  -- the action for every other seat; a smaller one leaves both.
  pub raise_effect : Safe (do_raise s i target) (RaiseEffect s i st target)
  unfolding do_raise may_reopen
  raise_effect =
      let (acted, ea) = get_elem?-lt s.acted_since_raise i (acted_lt s h i st e) in
      let covers = covered_at s h i st e in
      let needed = target - st.committed in
      rw (ne→== s.current_bet 0 wagered, index-ok s.acted_since_raise i ea)
        (elim (Bool-cases acted) [
          | inl closed ↦ rw closed tt
          | inr allowed ↦ rw allowed (elim (Bool-cases (leb target s.current_bet)) [
            | inl low ↦ rw low tt
            | inr higher ↦
                let lt = leb→lt target s.current_bet higher in
                rw
                  (
                    higher,
                    index-ok s.seats i e,
                    sub64-ok target st.committed (omega (arith, covers)),
                  )
                  (elim (Bool-cases (ltb st.stack needed)) [
                    | inl short ↦ rw short tt
                    | inr enough ↦
                        rw (enough, sub64-ok target s.current_bet (omega arith))
                          (elim (Bool-cases (
                            ltb (target - s.current_bet) s.min_raise && not (needed == st.stack))) [
                              | inl small ↦ rw small tt
                              | inr fine ↦
                                  let le = ltb→le st.stack needed enough in
                                  rw
                                    (
                                      fine,
                                      commit-ok s h i st e needed le,
                                      index-ok (set s.seats i (paid st needed)) i
                                          (paid_at s h i st e needed),
                                    )
                                    (Safe-of-Returns (RaiseEffect s i st target) _ (
                                      finish_raise s h i st e target lt (ea ∙ ap some allowed) le (
                                        sized s.min_raise (target - s.current_bet) needed st.stack
                                          fine)))
                            ])
                  ])
          ])
        ])
