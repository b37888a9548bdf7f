-- ===== src/Protocol/Bot.antt =====
-- protocol/src/bot.rs: the strategies of a seat that is controlled locally; and protocol/src/lib.rs:
-- the action of the wire format, with its conversions.
use ten_cent_poker_client.Prelude.{
  ℕ, ◌-◌, ◌≡◌, refl, ◌∙◌, true, false, Option, none, some, arith, ◌==◌, if◌then◌else◌, min, ==→eq,
  Bool-cases, inl, inr, ok, panic, ◌>>=◌, index-ok, write-ok, Returns,
}
use ten_cent_poker_client.Betting.State.{BettingState, BettingError, Res, to_call, Seat}
use ten_cent_poker_client.Betting.State as State
use ten_cent_poker_client.Betting.Actions.{perform, apply, do_call, mark_acted}
use ten_cent_poker_client.Betting.Invariant.{IsValid}
use ten_cent_poker_client.Betting.Turns.{to_call-ok, covered_at}
use ten_cent_poker_client.Betting.Moves.{commit-ok}
use ten_cent_poker_client.Betting.Apply.{Applied, turn_seat}
use ten_cent_poker_client.Hand.Rounds.{unrefused, fold-Applied, check-Applied, acted_lt}

-- `poker_protocol::Action`.
pub data WireAction : Type 0 where
  fold check call : WireAction
  bet : ℕ → WireAction
  raise : ℕ → WireAction
  all_in : WireAction

-- `Action::to_game` and `Action::from_game`.
unfoldable pub to_game : WireAction → State.Action
to_game fold = State.fold
to_game check = State.check
to_game call = State.call
to_game (bet n) = State.bet n
to_game (raise n) = State.raise n
to_game all_in = State.all_in

unfoldable pub from_game : State.Action → WireAction
from_game State.fold = fold
from_game State.check = check
from_game State.call = call
from_game (State.bet n) = bet n
from_game (State.raise n) = raise n
from_game State.all_in = all_in

-- `CheckFoldBot::decide` and `CallStationBot::decide`.
unfoldable pub check_fold : BettingState → ℕ → Res WireAction
check_fold s seat = do need ← to_call s seat; ok (if need == 0 then check else fold)

unfoldable pub call_station : BettingState → ℕ → Res WireAction
call_station s seat = do need ← to_call s seat; ok (if need == 0 then check else call)

-- `OneShot::decide`: the action, once, and a panic from then on.
unfoldable pub one_shot : Option WireAction → Res (WireAction × Option WireAction)
one_shot none = panic
one_shot (some a) = ok (a, none)

-- The two conversions undo each other.
pub to_game-from_game :
    ((a : WireAction) → from_game (to_game a) ≡ a)
    × ((a : State.Action) → to_game (from_game a) ≡ a)
unfolding to_game from_game
to_game-from_game = (λ a. there a, λ a. back a)
  where
    there : (a : WireAction) → from_game (to_game a) ≡ a
    there a = ground arith

    back : (a : State.Action) → to_game (from_game a) ≡ a
    back a = ground arith

module _ (s : BettingState) (v : IsValid s) (seat : ℕ) (turn : s.to_act ≡ some seat) where
  pub call-Applied :
      (need : ℕ)
      → to_call s seat ≡ ok need
      → (need == 0) ≡ false
      → Returns (apply s seat State.call) (Applied s seat)
  unfolding perform do_call mark_acted
  call-Applied need e owing =
      let (st, found, active) = turn_seat s v seat turn in
      unrefused s v seat turn State.call (
        rw
          (
            e,
            owing,
            index-ok s.seats seat found,
            commit-ok s v.sound seat st found (min need st.stack) (omega arith),
            write-ok s.acted_since_raise seat true (acted_lt s v seat turn),
          )
          tt)

  -- On its turn in a valid state each of the two bots returns a decision, and `apply` carries it out.
  pub bots-Applied :
      Returns (check_fold s seat >>= λ a. apply s seat (to_game a)) (Applied s seat)
      × Returns (call_station s seat >>= λ a. apply s seat (to_game a)) (Applied s seat)
  unfolding check_fold call_station to_game
  bots-Applied =
      let (st, found, active) = turn_seat s v seat turn in
      let owed = to_call-ok s seat st found (covered_at s v.sound seat st found) in
      let need = s.current_bet - st.committed in
      rw owed (elim (Bool-cases (need == 0)) [
        | inl free ↦
            let even : to_call s seat ≡ ok 0 = (owed ∙ rw (==→eq need 0 free) refl) in
            rw free (check-Applied s v seat turn even, check-Applied s v seat turn even)
        | inr owing ↦ rw owing (fold-Applied s v seat turn, call-Applied need owed owing)
      ])
