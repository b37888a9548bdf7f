-- ===== src/Protocol/Driver/Guest/Allegiance.antt =====
-- protocol/src/driver.rs: a guest sits down only at the table of the host that its URI names.
use ten_cent_poker_client.Prelude.{◌≡◌, true}
use ten_cent_poker_client.Prelude.Exec.{maybe, Keeps, keeps_rules, Keeps-modify}
use ten_cent_poker_client.Protocol.Setting.{Setting}
use ten_cent_poker_client.Protocol.Driver.{Network, Driving}
use ten_cent_poker_client.Protocol.Driver.Guest.Loop.{Guest, driving}
use ten_cent_poker_client.Protocol.Driver.Guest.Seating.{
  Sits, Keeps-the_table, Keeps-try_handle, Keeps-finish, Keeps-guest_follow_up, Keeps-pump_sender,
  Keeps-observe_state, Keeps-broadcast_retry, Keeps-snapshot_hole, Keeps-on_sender,
  Keeps-guest_tick, Keeps-guest_human, Keeps-guest_payload, Keeps-guest_apply, Keeps-tell,
}

module _ (W : Setting) (N : Network W) (host : W.PeerId) where
  open W use {PeerId, peer_eq}

  -- The guest has no host, or this one; its table, where it has one, is that host's; and nobody else
  -- gets its payloads.
  abbrev pub Serves : Guest W N → Type 0
  Serves g = (maybe g.host_peer true (λ p. peer_eq p host) ≡ true) × Sits W N host g.driver

  Keeps-driving :
      {A : Type 0} (m : Driving W N A) → Keeps (Sits W N host) m → Keeps Serves (driving W N m)
  unfolding driving
  Keeps-driving m k = record { at = λ g h. (h.0, k.at g.driver h.1) }

  ruleset serve_rules = (
    keeps_rules, Keeps-modify, Keeps-driving, Keeps-the_table, Keeps-try_handle, Keeps-finish,
    Keeps-guest_follow_up, Keeps-pump_sender, Keeps-observe_state, Keeps-broadcast_retry,
    Keeps-snapshot_hole, Keeps-on_sender, Keeps-guest_tick, Keeps-guest_human, Keeps-guest_payload,
    Keeps-guest_apply, Keeps-tell,
  )
