-- ===== src/Protocol/Driver/Landing.antt =====
-- protocol/src/driver.rs: a payload is dropped once every peer that it is for has it.
use ten_cent_poker_client.Prelude.{
  ◌<◌, ◌≡◌, refl, Bool, true, false, ◌&&◌, ◌||◌, not, List, [], ◌∷◌, All, arith, Bool-cases, inl,
  inr, length, Option-cases, ◌⊎◌,
}
use ten_cent_poker_client.Prelude.Ordered.{member, collect, discard, member-discard}
use ten_cent_poker_client.Protocol.Setting.{Setting, IsEquality, TableMessage}
use ten_cent_poker_client.Protocol.Driver.{
  DealKey, key_eq, key_lt, Network, DealOut, DealSender, Send, deal_relay_key,
}
use ten_cent_poker_client.Protocol.Driver.Sender.{
  new_sender, pair_eq, put_back, drop_target, ack, clear, or_insert, enqueue, enqueue_to, pump,
}
use ten_cent_poker_client.Protocol.Driver.Delivery.{
  queued, sent, key_eq-Decides, pair_eq-Decides, queued-drop_target, pump_lem, member-pump,
}

sum_cases : {A B : Type 0} (r : A ⊎ B) → ((a : A) × (r ≡ inl a)) ⊎ ((b : B) × (r ≡ inr b))
sum_cases (inl a) = inl (a, refl)
sum_cases (inr b) = inr (b, refl)

-- The operations of the sender.
pub data Operation (W : Setting) : Type 0 where
  enqueue_op : TableMessage → W.PeerId → List W.PeerId → Operation W
  pump_op : Operation W
  ack_op : DealKey → W.PeerId → Bool → Operation W
  clear_op : Operation W

module _ (W : Setting) where
  open W use {PeerId, peer_eq}

  -- Every payload waits for somebody.
  abbrev pub AllWait : List (DealKey × DealOut W) → Type 0
  AllWait pending = All (λ (e : DealKey × DealOut W). 0 < length e.1.targets) pending

  AllWait-put_back :
      (k : DealKey) (out : DealOut W) (left : List PeerId) (rest : List (DealKey × DealOut W))
      → AllWait rest
      → AllWait (put_back W k out left rest)
  unfolding put_back
  AllWait-put_back k out [] rest h = h
  AllWait-put_back k out (t ∷ left) rest h = (omega arith, h)

  AllWait-drop_target :
      (key : DealKey) (target : PeerId) (pending : List (DealKey × DealOut W))
      → AllWait pending
      → AllWait (drop_target W key target pending)
  unfolding drop_target
  AllWait-drop_target key target [] h = h
  AllWait-drop_target key target ((k, out) ∷ pending) h =
      let rest = AllWait-drop_target key target pending h.1 in
      elim (Bool-cases (key_eq k key)) [
        | inl e ↦ rw e (AllWait-put_back k out (discard peer_eq target out.targets) _ rest)
        | inr e ↦ rw e (h.0, rest)
      ]

  module _ (N : Network W) where
    AllWait-or_insert :
        (key : DealKey) (out : DealOut W) (pending : List (DealKey × DealOut W))
        → 0 < length out.targets
        → AllWait pending
        → AllWait (or_insert W N key out pending)
    unfolding or_insert
    AllWait-or_insert key out [] w h = (w, tt)
    AllWait-or_insert key out ((k, other) ∷ pending) w h =
        let rest = AllWait-or_insert key out pending w h.1 in
        elim (Bool-cases (key_eq k key)) [
          | inl e ↦ rw e h
          | inr e ↦ elim (Bool-cases (key_lt key k)) [
            | inl l ↦ rw (e, l) (w, h)
            | inr n ↦ rw (e, n) (h.0, rest)
          ]
        ]

    unfoldable pub operate : Operation W → DealSender W → DealSender W
    operate (enqueue_op msg author targets) s = enqueue W N msg author targets s
    operate pump_op s = (pump W N s).0
    operate (ack_op key target succeeded) s = ack W key target succeeded s
    operate clear_op s = clear W s

    unfoldable pub operations : List (Operation W) → DealSender W → DealSender W
    operations [] s = s
    operations (o ∷ os) s = operations os (operate o s)

    AllWait-enqueue_to :
        (msg : TableMessage) (author : PeerId) (key : DealKey) (targets : List PeerId)
        (s : DealSender W)
        → AllWait s.pending
        → AllWait (enqueue_to W N msg author key targets s).pending
    unfolding enqueue_to
    AllWait-enqueue_to msg author key [] s h = h
    AllWait-enqueue_to msg author key (t ∷ targets) s h = elim (sum_cases (N.encode msg)) [
      | inl (e, failed) ↦ rw (failed, enqueue_to) h
      | inr (bytes, written) ↦
          rw (written, enqueue_to)
            (AllWait-or_insert key
              (record { author = author; bytes = bytes; targets = t ∷ targets }) s.pending
              (omega arith) h)
    ]

    AllWait-operate :
        (o : Operation W) (s : DealSender W) → AllWait s.pending → AllWait (operate o s).pending
    unfolding operate enqueue ack clear pump
    AllWait-operate (enqueue_op msg author targets) s h = elim (Option-cases (deal_relay_key msg)) [
      | inl other ↦ rw (other, enqueue) h
      | inr (key, payload) ↦
          rw (payload, enqueue)
            (AllWait-enqueue_to msg author key (collect peer_eq N.peer_lt targets []) s h)
    ]
    AllWait-operate pump_op s h = h
    AllWait-operate (ack_op key target true) s h = AllWait-drop_target key target s.pending h
    AllWait-operate (ack_op key target false) s h = h
    AllWait-operate clear_op s h = tt

    AllWait-operations :
        (os : List (Operation W)) (s : DealSender W)
        → AllWait s.pending
        → AllWait (operations os s).pending
    unfolding operations
    AllWait-operations [] s h = h
    AllWait-operations (o ∷ os) s h = AllWait-operations os (operate o s) (AllWait-operate o s h)

  -- The successful results of some sends, in their order.
  unfoldable pub land : List (Send W) → DealSender W → DealSender W
  land [] s = s
  land (send ∷ sends) s = land sends (ack W send.key send.target true s)

module _ (W : Setting) (equality : IsEquality W) where
  open W use {PeerId, peer_eq}

  queued-land :
      (k : DealKey) (t : PeerId) (sends : List (Send W)) (s : DealSender W)
      → queued W (land W sends s).pending k t ≡ (queued W s.pending k t && not (sent W sends k t))
  unfolding land ack
  queued-land k t [] s = ground arith
  queued-land k t (send ∷ sends) s = ground (
    arith,
    queued-land k t sends (ack W send.key send.target true s),
    queued-drop_target W equality k t send.key send.target s.pending,
  )

  member-land :
      (k : DealKey) (t : PeerId) (sends : List (Send W)) (s : DealSender W)
      → member (pair_eq W) (land W sends s).in_flight (k, t)
        ≡ (member (pair_eq W) s.in_flight (k, t) && not (sent W sends k t))
  unfolding land ack
  member-land k t [] s = ground arith
  member-land k t (send ∷ sends) s = ground (
    arith,
    member-land k t sends (ack W send.key send.target true s),
    member-discard (pair_eq W) (pair_eq-Decides W equality) (send.key, send.target) s.in_flight
        (k, t),
  )

  nothing_queued :
      (pending : List (DealKey × DealOut W))
      → AllWait W pending
      → ((k : DealKey) (t : PeerId) → queued W pending k t ≡ false)
      → pending ≡ []
  nothing_queued [] w h = refl
  nothing_queued ((j, out) ∷ pending) w h = absurd (waits out.targets w.0 (λ t. h j t))
    where
      waits :
          (targets : List PeerId)
          → 0 < length targets
          → ((t : PeerId)
              → (key_eq j j && member peer_eq targets t || queued W pending j t) ≡ false)
          → ⊥
      waits [] l g = elim l [ ]
      waits (t ∷ targets) l g =
          ground (arith, g t, key_eq-Decides.reflexive j, equality.reflexive t)

  nothing_flies :
      (in_flight : List (DealKey × PeerId))
      → ((k : DealKey) (t : PeerId) → member (pair_eq W) in_flight (k, t) ≡ false)
      → in_flight ≡ []
  nothing_flies [] h = refl
  nothing_flies (p ∷ in_flight) h =
      absurd (ground (arith, h p.0 p.1, (pair_eq-Decides W equality).reflexive p))

  AllWait-land :
      (N : Network W) (sends : List (Send W)) (s : DealSender W)
      → AllWait W s.pending
      → AllWait W (land W sends s).pending
  unfolding land ack operate
  AllWait-land N [] s h = h
  AllWait-land N (send ∷ sends) s h =
      AllWait-land N sends (ack W send.key send.target true s)
        (AllWait-operate W N (ack_op send.key send.target true) s h)

  -- Where nothing is in flight, the results of all the sends of a pump leave nothing.
  module _ (N : Network W) (s : DealSender W) (results : List (Send W)) (idle : s.in_flight ≡ [])
      (all : (k : DealKey) (t : PeerId)
        → sent W (pump W N s).1 k t ≡ true
        → sent W results k t ≡ true)
      (k : DealKey) (t : PeerId) where
    idle_at : member (pair_eq W) s.in_flight (k, t) ≡ false
    idle_at = rw idle refl

    none_queued : queued W (land W results (pump W N s).0).pending k t ≡ false
    unfolding pump
    none_queued = ground (
      arith,
      queued-land k t results (pump W N s).0,
      (pump_lem W equality N s k t).0,
      all k t,
      idle_at,
      queued-pump,
    )
      where
        queued-pump : queued W (pump W N s).0.pending k t ≡ queued W s.pending k t
        queued-pump = refl

    none_flying : member (pair_eq W) (land W results (pump W N s).0).in_flight (k, t) ≡ false
    none_flying = ground (
      arith,
      member-land k t results (pump W N s).0,
      (pump_lem W equality N s k t).0,
      member-pump W equality N s k t,
      all k t,
      idle_at,
    )

  -- From a sender that its operations reach with nothing in flight, once every send of a pump has
  -- succeeded, in any order and with any others, no payload is pending and nothing is in flight.
  pub land-pump :
      (N : Network W) (os : List (Operation W)) (results : List (Send W))
      → (operations W N os (new_sender W)).in_flight ≡ []
      → ((k : DealKey) (t : PeerId)
          → sent W (pump W N (operations W N os (new_sender W))).1 k t ≡ true
          → sent W results k t ≡ true)
      → land W results (pump W N (operations W N os (new_sender W))).0 ≡ new_sender W
  unfolding pump operate
  land-pump N os results idle all =
      let s = operations W N os (new_sender W) in
      let p = (pump W N s).0 in
      let wait = AllWait-operate W N pump_op s (AllWait-operations W N os (new_sender W) tt) in
      let pending =
        nothing_queued (land W results p).pending (AllWait-land N results p wait)
          (none_queued N s results idle all) in
      let in_flight =
        nothing_flies (land W results p).in_flight (none_flying N s results idle all) in
      λ i. record { pending = pending i; in_flight = in_flight i }
