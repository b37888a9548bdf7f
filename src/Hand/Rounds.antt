-- ===== src/Hand/Rounds.antt =====
-- game/src/hand.rs: `run_betting_round` and the scripted source of actions. The `ActionSource` is a
-- parameter: its own state, and the action that it gives for a betting state and a seat.
use ten_cent_poker_client.Prelude.{
  ℕ, zero, suc, ◌-◌, ◌<◌, ◌≡◌, refl, ◌∙◌, subst, true, Option, none, some, List, [], ◌∷◌, arith,
  ◌==◌, if◌then◌else◌, ==→eq, Bool-cases, inl, inr, Outcome, ok, err, panic, ◌>>=◌, length,
  get_elem?-some-lt, index-ok, write-ok, Returns, Returns-bind, Returns-mono, Returns-value, Safe,
}
use ten_cent_poker_client.Betting.State.{Action, fold, check, BettingState, to_call, Res}
use ten_cent_poker_client.Betting.Actions.{perform, apply, do_fold, do_check, mark_acted}
use ten_cent_poker_client.Betting.Invariant.{IsValid}
use ten_cent_poker_client.Betting.Turns.{to_call-ok, covered_at}
use ten_cent_poker_client.Betting.Moves.{Done, perform-Done}
use ten_cent_poker_client.Betting.Apply.{
  table_chips, Applied, apply-Applied, apply_in_turn, advance-Applied, turn_seat,
}
use ten_cent_poker_client.Hand.Dealing.{HandError, betting}

-- `ScriptedActions::next_action`: `pop_front().unwrap_or(Fold)`.
unfoldable pub scripted_action : List Action → BettingState → ℕ → Action × List Action
scripted_action [] s seat = (fold, [])
scripted_action (a ∷ queue) s seat = (a, queue)

-- The safe action when the source's action is refused.
unfoldable pub fallback : ℕ → Action
fallback need = if need == 0 then check else fold

-- `let _ = state.apply(seat, fallback)`: a refused fallback leaves the state.
abbrev pub ignoring : BettingState → Res BettingState → Outcome HandError BettingState
ignoring s (ok t) = ok t
ignoring s (err e) = ok s
ignoring s panic = panic

-- A query that cannot fail: its error type is that of the betting methods.
abbrev pub querying : Res ℕ → Outcome HandError ℕ
querying (ok n) = ok n
querying (err e) = err (betting e)
querying panic = panic

-- The rest of the loop's body, from the result of the first `apply` on.
unfoldable pub or_fallback : BettingState → ℕ → Res BettingState → Outcome HandError BettingState
or_fallback s seat (ok t) = ok t
or_fallback s seat (err e) = do
  need ← querying (to_call s seat)
  ignoring s (apply s seat (fallback need))
or_fallback s seat panic = panic

module _ {ℓ} {Source : Type ℓ} (next_action : Source → BettingState → ℕ → Action × Source) where
  -- One round of the `while` loop, for the seat to act.
  unfoldable pub ask : BettingState → Source → ℕ → Outcome HandError (BettingState × Source)
  ask s source seat =
      let chosen = next_action source s seat in
      do t ← or_fallback s seat (apply s seat chosen.0); ok (t, chosen.1)

  -- The `while` loop, with the rounds left.
  unfoldable pub ask_round : ℕ → BettingState → Source → Outcome HandError (BettingState × Source)
  ask_round zero s source = ok (s, source)
  ask_round (suc rounds) s source = elim s.to_act [
    | none ↦ ok (s, source)
    | some seat ↦ do asked ← ask s source seat; ask_round rounds asked.0 asked.1
  ]

  -- The safety valve leaves the loop behind its 10,001st action.
  unfoldable pub run_betting_round :
      BettingState → Source → Outcome HandError (BettingState × Source)
  run_betting_round s source = ask_round 10001 s source

-- What is asked for and not refused is carried out.
pub unrefused :
    (s : BettingState) (v : IsValid s) (seat : ℕ) (turn : s.to_act ≡ some seat) (a : Action)
    → Returns (perform s seat a) (λ u. Unit)
    → Returns (apply s seat a) (Applied s seat)
unrefused s v seat turn a carried =
    let (u, e, nothing) = Returns-value (λ u. Unit) (perform s seat a) carried in
    let (st, found, active) = turn_seat s v seat turn in
    let done =
      subst (λ (m : Res BettingState). Safe m (Done s v.sound seat st found)) e
        (perform-Done s v.sound seat st found a) in
    rw (apply_in_turn s seat a turn, e) (advance-Applied s v seat u turn st found done)

module _ (s : BettingState) (v : IsValid s) (seat : ℕ) (turn : s.to_act ≡ some seat) where
  pub acted_lt : seat < length s.acted_since_raise
  acted_lt =
      let (st, found, active) = turn_seat s v seat turn in
      omega (arith, get_elem?-some-lt s.seats seat found, v.sound.acted_len)

  pub fold-Applied : Returns (apply s seat fold) (Applied s seat)
  unfolding perform do_fold mark_acted
  fold-Applied =
      let (st, found, active) = turn_seat s v seat turn in
      unrefused s v seat turn fold (
        rw
          (
            index-ok s.seats seat found,
            write-ok s.seats seat (record st { folded = true })
                (get_elem?-some-lt s.seats seat found),
            write-ok s.acted_since_raise seat true acted_lt,
          )
          tt)

  pub check-Applied : to_call s seat ≡ ok 0 → Returns (apply s seat check) (Applied s seat)
  unfolding perform do_check mark_acted
  check-Applied even =
      unrefused s v seat turn check (rw (even, write-ok s.acted_since_raise seat true acted_lt) tt)

  -- The safe action is never refused.
  fallback-Applied :
      (need : ℕ)
      → to_call s seat ≡ ok need
      → Returns (apply s seat (fallback need)) (Applied s seat)
  unfolding fallback
  fallback-Applied need e = elim (Bool-cases (need == 0)) [
    | inl free ↦ rw free (check-Applied (e ∙ rw (==→eq need 0 free) refl))
    | inr owing ↦ rw owing fold-Applied
  ]

  ignoring-Returns :
      (m : Res BettingState) → Returns m (Applied s seat) → Returns (ignoring s m) (Applied s seat)
  ignoring-Returns (ok t) h = h
  ignoring-Returns (err e) h = absurd h
  ignoring-Returns panic h = absurd h

  or_fallback-Safe :
      (m : Res BettingState)
      → Safe m (Applied s seat)
      → Returns (or_fallback s seat m) (Applied s seat)
  unfolding or_fallback
  or_fallback-Safe (ok t) h = h
  or_fallback-Safe panic h = h
  or_fallback-Safe (err e) h =
      let (st, found, active) = turn_seat s v seat turn in
      let owed = to_call-ok s seat st found (covered_at s v.sound seat st found) in
      rw owed (
        ignoring-Returns (apply s seat (fallback (s.current_bet - st.committed)))
          (fallback-Applied (s.current_bet - st.committed) owed))

module _ {ℓ} {Source : Type ℓ} (next_action : Source → BettingState → ℕ → Action × Source) where
  -- From a valid state the seat to act makes a move, whatever the source asks for: its action
  -- succeeds, or the safe action that replaces it does.
  pub ask-Applied :
      (s : BettingState) (source : Source) (seat : ℕ)
      → IsValid s
      → s.to_act ≡ some seat
      → Returns (ask next_action s source seat) (λ p. Applied s seat p.0)
  unfolding ask
  ask-Applied s source seat v turn =
      Returns-bind (Applied s seat) _
        (or_fallback s seat (apply s seat (next_action source s seat).0)) _
        (or_fallback-Safe s v seat turn _ (apply-Applied s v seat (next_action source s seat).0))
        (λ t applied. applied)

  ask_round-keeps :
      (rounds : ℕ) (s : BettingState) (source : Source)
      → IsValid s
      → Returns
          (ask_round next_action rounds s source)
          (λ p. IsValid p.0 × (table_chips p.0 ≡ table_chips s))
  unfolding ask_round
  ask_round-keeps zero s source v = (v, refl)
  ask_round-keeps (suc rounds) s source v =
      by_turn s.to_act refl (λ t source'. ask_round-keeps rounds t source')
    where
      Kept : BettingState → BettingState × Source → Type 0
      Kept t p = IsValid p.0 × (table_chips p.0 ≡ table_chips t)

      by_turn :
          (o : Option ℕ)
          → s.to_act ≡ o
          → ((t : BettingState) (source' : Source)
              → IsValid t
              → Returns (ask_round next_action rounds t source') (Kept t))
          → Returns
              (elim o [
                | none ↦ ok (s, source)
                | some seat ↦ do
                  asked ← ask next_action s source seat
                  ask_round next_action rounds asked.0 asked.1
              ])
              (Kept s)
      by_turn none e keeps = (v, refl)
      by_turn (some seat) e keeps =
          Returns-bind (λ p. Applied s seat p.0) (Kept s) (ask next_action s source seat) _
            (ask-Applied s source seat v e)
            (λ asked applied.
              Returns-mono _ (Kept s) (ask_round next_action rounds asked.0 asked.1)
                (keeps asked.0 asked.1 applied.valid)
                (λ out (v', same). (v', same ∙ applied.chips)))

  -- From a valid state `run_betting_round` returns, whatever actions the source gives: it never
  -- panics, and the state behind it is valid and holds the same chips.
  pub run_betting_round-keeps :
      (s : BettingState) (source : Source)
      → IsValid s
      → Returns
          (run_betting_round next_action s source)
          (λ p. IsValid p.0 × (table_chips p.0 ≡ table_chips s))
  unfolding run_betting_round
  run_betting_round-keeps s source v = ask_round-keeps 10001 s source v
