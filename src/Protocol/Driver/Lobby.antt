-- ===== src/Protocol/Driver/Lobby.antt =====
-- protocol/src/driver.rs: the lobby of `run_host_generic`. `display`, which nothing reads, is left out.
use ten_cent_poker_client.Prelude.{
  ℕ, Bool, true, false, not, Option, none, some, List, [], ◌∷◌, ◌++◌, ltb, if◌then◌else◌, length,
  keep,
}
use ten_cent_poker_client.Prelude.Exec.{Exec, pure, fail, gets, modify, maybe, ◌>>=◌, ◌>>◌}
use ten_cent_poker_client.Prelude.Ordered.{member}
use ten_cent_poker_client.Protocol.Setting.{Setting, TableMessage, join_table}
use ten_cent_poker_client.Protocol.Driver.{
  Network, DriverUpdate, uri_ready, reachability, Event, table_uri, reachability_warning,
  peer_disconnected, message, closed, deadline, DriverError, node_closed, lobby_timeout, waiting,
}

-- Whether a message is a `JoinTable`.
unfoldable pub is_join : TableMessage → Bool
is_join (join_table name) = true
is_join msg = false

module _ (W : Setting) where
  open W use {PeerId, peer_eq}

  pub record Lobby : Type 0 where
    pub roster : List PeerId
    pub uri : Option (List ℕ)
    pub told : List (DriverUpdate W)

  unfoldable pub new_lobby : PeerId → Lobby
  new_lobby me = record { roster = me ∷ []; uri = none; told = [] }

  -- `if !roster.contains(&from) { roster.push(from) }`
  unfoldable pub seat_peer : PeerId → Lobby → Lobby
  seat_peer from l =
      if member peer_eq l.roster from then l else record l { roster = l.roster ++ from ∷ [] }

  module _ (N : Network W) where
    open N use {decode}

    -- One round of the loop, for an event that does not end it.
    unfoldable pub lobby_event : Event W → Lobby → Lobby
    lobby_event (table_uri u) l = record l { uri = some u; told = l.told ++ uri_ready u ∷ [] }
    lobby_event (reachability_warning r) l = record l { told = l.told ++ reachability r ∷ [] }
    lobby_event (peer_disconnected p) l = record l {
      roster = keep (λ x. not (peer_eq x p)) l.roster;
    }
    lobby_event (message from bytes) l =
        maybe (decode bytes) l λ msg. if is_join msg then seat_peer from l else l
    lobby_event e l = l

    unfoldable pub lobby_step : Event W → Exec Lobby (DriverError W N) (Unit {0})
    lobby_step deadline = fail lobby_timeout
    lobby_step closed = fail node_closed
    lobby_step e = modify (lobby_event e)

    -- The loop, which leaves the events that it has not taken.
    unfoldable pub lobby : ℕ → List (Event W) → Exec Lobby (DriverError W N) (List (Event W))
    lobby min_players [] = do
      l ← gets (λ l. l)
      if ltb (length l.roster) min_players then fail waiting else pure []
    lobby min_players (e ∷ events) = do
      l ← gets (λ l. l)
      let rest = lobby min_players events
      let next = lobby_step e >> rest
      if ltb (length l.roster) min_players then next else pure (e ∷ events)
