-- ===== src/Protocol/Driver/Sender.antt =====
-- protocol/src/driver.rs: `DealSender`, the reliable delivery of the deal's payloads.
use ten_cent_poker_client.Prelude.{
  Bool, ◌&&◌, none, some, List, [], ◌∷◌, ◌++◌, if◌then◌else◌, inl, inr,
}
use ten_cent_poker_client.Prelude.Ordered.{member, add, collect, discard}
use ten_cent_poker_client.Protocol.Setting.{Setting, TableMessage}
use ten_cent_poker_client.Protocol.Driver.{
  DealKey, key_eq, key_lt, deal_relay_key, Network, DealOut, DealSender, Send,
}

module _ (W : Setting) where
  open W use {PeerId, peer_eq}

  abbrev pub new_sender : DealSender W
  new_sender = record { pending = []; in_flight = [] }

  abbrev pub pair_eq : DealKey × PeerId → DealKey × PeerId → Bool
  pair_eq p q = key_eq p.0 q.0 && peer_eq p.1 q.1

  abbrev pub send_of : DealKey → DealOut W → PeerId → Send W
  send_of key out target = record {
    key = key;
    target = target;
    author = out.author;
    bytes = out.bytes;
  }

  -- The sends of one payload that are not in flight, and of all of them.
  unfoldable pub sends_of :
      List (DealKey × PeerId) → DealKey → DealOut W → List PeerId → List (Send W)
  sends_of in_flight key out [] = []
  sends_of in_flight key out (target ∷ targets) =
      let rest = sends_of in_flight key out targets in
      if member pair_eq in_flight (key, target) then rest else send_of key out target ∷ rest

  unfoldable pub to_send : List (DealKey × PeerId) → List (DealKey × DealOut W) → List (Send W)
  to_send in_flight [] = []
  to_send in_flight ((key, out) ∷ pending) =
      sends_of in_flight key out out.targets ++ to_send in_flight pending

  -- A payload with these targets, or none without a target.
  unfoldable pub put_back :
      DealKey → DealOut W → List PeerId → List (DealKey × DealOut W) → List (DealKey × DealOut W)
  put_back k out [] rest = rest
  put_back k out (t ∷ ts) rest = (k, record out { targets = t ∷ ts }) ∷ rest

  -- What an acknowledgement leaves of the payloads: the key has one entry.
  unfoldable pub drop_target :
      DealKey → PeerId → List (DealKey × DealOut W) → List (DealKey × DealOut W)
  drop_target key target [] = []
  drop_target key target ((k, out) ∷ pending) =
      let rest = drop_target key target pending in
      if key_eq k key
      then put_back k out (discard peer_eq target out.targets) rest
      else (k, out) ∷ rest

  unfoldable pub ack : DealKey → PeerId → Bool → DealSender W → DealSender W
  ack key target succeeded s =
      let landed = discard pair_eq (key, target) s.in_flight in
      if succeeded
      then record { pending = drop_target key target s.pending; in_flight = landed }
      else record s { in_flight = landed }

  unfoldable pub clear : DealSender W → DealSender W
  clear s = record { pending = []; in_flight = [] }

  module _ (N : Network W) where
    open N use {peer_lt, encode}

    abbrev pub pair_lt : DealKey × PeerId → DealKey × PeerId → Bool
    pair_lt p q = if key_eq p.0 q.0 then peer_lt p.1 q.1 else key_lt p.0 q.0

    -- `entry(key).or_insert(out)`
    unfoldable pub or_insert :
        DealKey → DealOut W → List (DealKey × DealOut W) → List (DealKey × DealOut W)
    or_insert key out [] = (key, out) ∷ []
    or_insert key out ((k, other) ∷ pending) =
        let rest = or_insert key out pending in
        if key_eq k key
        then (k, other) ∷ pending
        else (if key_lt key k then (key, out) ∷ (k, other) ∷ pending else (k, other) ∷ rest)

    -- `enqueue` behind its first test, for the targets as a set.
    unfoldable pub enqueue_to :
        TableMessage → PeerId → DealKey → List PeerId → DealSender W → DealSender W
    enqueue_to msg author key [] s = s
    enqueue_to msg author key (t ∷ targets) s = elim (encode msg) [
      | inr bytes ↦ record s {
        pending =
            or_insert key (record { author = author; bytes = bytes; targets = t ∷ targets })
              s.pending;
      }
      | inl e ↦ s
    ]

    unfoldable pub enqueue : TableMessage → PeerId → List PeerId → DealSender W → DealSender W
    enqueue msg author targets s = elim (deal_relay_key msg) [
      | none ↦ s
      | some key ↦ enqueue_to msg author key (collect peer_eq peer_lt targets []) s
    ]

    -- The loop over `to_send`.
    unfoldable pub take_off : List (Send W) → List (DealKey × PeerId) → List (DealKey × PeerId)
    take_off [] in_flight = in_flight
    take_off (send ∷ sends) in_flight =
        take_off sends (add pair_eq pair_lt (send.key, send.target) in_flight)

    -- The sender, and the sends that are spawned.
    unfoldable pub pump : DealSender W → DealSender W × List (Send W)
    pump s =
        let sends = to_send s.in_flight s.pending in
        (record s { in_flight = take_off sends s.in_flight }, sends)
