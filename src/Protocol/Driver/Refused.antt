-- ===== src/Protocol/Driver/Refused.antt =====
-- protocol/src/driver.rs: what becomes of a human's action that the betting engine refuses.
use ten_cent_poker_client.Prelude.{ℕ, ◌≡◌, true, some, ok, err}
use ten_cent_poker_client.Betting.State.{BettingError}
use ten_cent_poker_client.Betting.Actions.{apply}
use ten_cent_poker_client.Protocol.Bot.{WireAction, to_game}
use ten_cent_poker_client.Protocol.Setting.{Setting, TableMessage, betting}
use ten_cent_poker_client.Protocol.Table.{Table, LiveHand, is_local_turn}
use ten_cent_poker_client.Protocol.Table.Handle.{local_turn, take_local_turn, stepping, live_or}
use ten_cent_poker_client.Protocol.Driver.{Network, Driver, table, Decider, human_action}
use ten_cent_poker_client.Protocol.Driver.Steps.{the_table, try_table, on_table}
use ten_cent_poker_client.Protocol.Driver.Host.{host_turn, host_human, host_event}
use ten_cent_poker_client.Protocol.Driver.Guest.{act_if_local_turn}
use ten_cent_poker_client.Protocol.Driver.Guest.Loop.{guest_human}

module _ (W : Setting) (N : Network W) (t : Table W) (live : LiveHand W) (seat : ℕ)
    (action : WireAction) (e : BettingError) (mine : is_local_turn W t ≡ true)
    (there : t.live ≡ some live) (turn : live.betting.to_act ≡ some seat)
    (refusal : apply live.betting seat (to_game action) ≡ err e) where
  local_turn-refused : local_turn W (λ state seat. ok action) t ≡ (err (betting e), t)
  unfolding local_turn stepping take_local_turn live_or
  local_turn-refused = simp (mine, there, turn, refusal)

  -- An action of the human on turn that the engine refuses ends the host's hand, and the guest's
  -- game, with that error: it is not ignored.
  pub human-refused :
      (d : Driver W N)
      → d.replica ≡ some t
      → (decider : Decider W) (hand_no : ℕ) (start : TableMessage)
      → ((host_event W N decider hand_no start (human_action (some action)) d).0
          ≡ err (table (betting e)))
        × ((guest_human W N action d).0 ≡ err (table (betting e)))
  unfolding host_event host_human host_turn on_table try_table the_table guest_human
      act_if_local_turn
  human-refused d seated decider hand_no start =
      (simp (seated, mine, local_turn-refused), simp (seated, mine, local_turn-refused))
