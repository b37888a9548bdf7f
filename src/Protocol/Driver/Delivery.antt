-- ===== src/Protocol/Driver/Delivery.antt =====
-- protocol/src/driver.rs: which payloads `DealSender` sends, and to whom. The payloads are told apart
-- by their keys, and the sends by their keys and targets.
use ten_cent_poker_client.Prelude.{
  ◌≡◌, refl, sym, ap, ap₂, ◌∙◌, Bool, true, false, ◌&&◌, ◌||◌, not, List, [], ◌∷◌, ◌++◌, arith,
  Bool-cases, inl, inr,
}
use ten_cent_poker_client.Prelude.Ordered.{
  Decides, member, add, discard, member-add, member-discard,
}
use ten_cent_poker_client.Protocol.Setting.{Setting, IsEquality}
use ten_cent_poker_client.Protocol.Driver.{DealKey, key_eq, Network, DealOut, DealSender, Send}
use ten_cent_poker_client.Protocol.Driver.Sender.{
  pair_eq, sends_of, to_send, put_back, drop_target, ack, take_off, pump, pair_lt,
}

pub key_eq-Decides : Decides key_eq
unfolding key_eq
key_eq-Decides = record { sound = λ j k h. same j k h; reflexive = λ k. ground arith }
  where
    same : (j k : DealKey) → key_eq j k ≡ true → j ≡ k
    same j k h =
        let slots : j.slot ≡ k.slot = ground arith in
        let kinds : j.kind ≡ k.kind = ground arith in
        let rounds : j.round ≡ k.round = ground arith in
        λ i. record { slot = slots i; kind = kinds i; round = rounds i }

-- What is left of a payload's targets, where the keys agree and where they do not.
drop_same :
    (jk kk m q pt : Bool)
    → jk ≡ kk
    → (jk && (not pt && m) || q && not (kk && pt)) ≡ ((jk && m || q) && not (kk && pt))
drop_same jk kk m q pt e = ground arith

drop_other :
    (jk kk m q pt : Bool)
    → (kk ≡ true → jk ≡ false)
    → (jk && m || q && not (kk && pt)) ≡ ((jk && m || q) && not (kk && pt))
drop_other jk kk m q pt e = ground arith

module _ (W : Setting) where
  open W use {PeerId, peer_eq}

  -- Whether a payload waits for a target, and whether a send is among others.
  abbrev pub queued : List (DealKey × DealOut W) → DealKey → PeerId → Bool
  queued [] k t = false
  queued ((j, out) ∷ pending) k t = key_eq j k && member peer_eq out.targets t || queued pending k t

  abbrev pub sent : List (Send W) → DealKey → PeerId → Bool
  sent [] k t = false
  sent (send ∷ sends) k t = pair_eq W (send.key, send.target) (k, t) || sent sends k t

module _ (W : Setting) (equality : IsEquality W) where
  open W use {PeerId, peer_eq}

  pub peer_eq-Decides : Decides peer_eq
  peer_eq-Decides = record { sound = equality.sound; reflexive = equality.reflexive }

  pub pair_eq-Decides : Decides (pair_eq W)
  pair_eq-Decides = record { sound = λ p q h. same p q h; reflexive = λ p. whole p }
    where
      same : (p q : DealKey × PeerId) → pair_eq W p q ≡ true → p ≡ q
      same p q h =
          let keys : p.0 ≡ q.0 = key_eq-Decides.sound p.0 q.0 (ground arith) in
          let peers : p.1 ≡ q.1 = equality.sound p.1 q.1 (ground arith) in λ i. (keys i, peers i)

      whole : (p : DealKey × PeerId) → pair_eq W p p ≡ true
      whole p = ground (arith, key_eq-Decides.reflexive p.0, equality.reflexive p.1)

  sent-append :
      (xs ys : List (Send W)) (k : DealKey) (t : PeerId)
      → sent W (xs ++ ys) k t ≡ (sent W xs k t || sent W ys k t)
  sent-append [] ys k t = refl
  sent-append (x ∷ xs) ys k t = ground (arith, sent-append xs ys k t)

  module _ (k : DealKey) (t : PeerId) where
    same_flight :
        (in_flight : List (DealKey × PeerId)) (p : DealKey × PeerId)
        → pair_eq W p (k, t) ≡ true
        → member (pair_eq W) in_flight p ≡ member (pair_eq W) in_flight (k, t)
    same_flight in_flight p e = ap (member (pair_eq W) in_flight) (pair_eq-Decides.sound p (k, t) e)

    sent-sends_of :
        (in_flight : List (DealKey × PeerId)) (key : DealKey) (out : DealOut W)
        (targets : List PeerId)
        → sent W (sends_of W in_flight key out targets) k t
          ≡ (key_eq key k && member peer_eq targets t && not (member (pair_eq W) in_flight (k, t)))
    unfolding sends_of
    sent-sends_of in_flight key out [] = ground arith
    sent-sends_of in_flight key out (target ∷ targets) =
        ground (arith, sent-sends_of in_flight key out targets, same_flight in_flight (key, target))

    sent-to_send :
        (in_flight : List (DealKey × PeerId)) (pending : List (DealKey × DealOut W))
        → sent W (to_send W in_flight pending) k t
          ≡ (queued W pending k t && not (member (pair_eq W) in_flight (k, t)))
    unfolding to_send
    sent-to_send in_flight [] = refl
    sent-to_send in_flight ((key, out) ∷ pending) = ground (
      arith,
      sent-append (sends_of W in_flight key out out.targets) (to_send W in_flight pending) k t,
      sent-sends_of in_flight key out out.targets,
      sent-to_send in_flight pending,
    )

    member-take_off :
        (N : Network W) (sends : List (Send W)) (fl : List (DealKey × PeerId))
        → member (pair_eq W) (take_off W N sends fl) (k, t)
          ≡ (sent W sends k t || member (pair_eq W) fl (k, t))
    unfolding take_off
    member-take_off N [] fl = refl
    member-take_off N (send ∷ sends) fl =
        let pair : DealKey × PeerId = (send.key, send.target) in
        let more = add (pair_eq W) (pair_lt W N) pair fl in
        ground (
          arith,
          member-take_off N sends more,
          member-add (pair_eq W) (pair_lt W N) pair_eq-Decides pair fl (k, t),
        )

    queued-put_back :
        (j : DealKey) (out : DealOut W) (left : List PeerId) (rest : List (DealKey × DealOut W))
        → queued W (put_back W j out left rest) k t
          ≡ (key_eq j k && member peer_eq left t || queued W rest k t)
    unfolding put_back
    queued-put_back j out [] rest = ground arith
    queued-put_back j out (x ∷ left) rest = refl

    pub queued-drop_target :
        (key : DealKey) (target : PeerId) (pending : List (DealKey × DealOut W))
        → queued W (drop_target W key target pending) k t
          ≡ (queued W pending k t && not (pair_eq W (key, target) (k, t)))
    unfolding drop_target
    queued-drop_target key target [] = refl
    queued-drop_target key target ((j, out) ∷ pending) =
        let rest = drop_target W key target pending in
        let left = discard peer_eq target out.targets in
        let later = queued-drop_target key target pending in
        let left_of = member-discard peer_eq peer_eq-Decides target out.targets t in
        let jk = key_eq j k in
        let kk = key_eq key k in
        let m = member peer_eq out.targets t in
        let q = queued W pending k t in
        let pt = peer_eq target t in
        elim (Bool-cases (key_eq j key)) [
          | inl e ↦ rw e (
              queued-put_back j out left rest
              ∙ ap₂ (λ (a b : Bool). jk && a || b) left_of later
              ∙ drop_same jk kk m q pt
                  (ap (λ (x : DealKey). key_eq x k) (key_eq-Decides.sound j key e)))
          | inr e ↦ rw e (
              ap (λ (b : Bool). jk && m || b) later
              ∙ drop_other jk kk m q pt
                  (λ f. sym (ap (key_eq j) (key_eq-Decides.sound key k f)) ∙ e))
        ]

  pub no_sends :
      (sends : List (Send W)) → ((k : DealKey) (t : PeerId) → sent W sends k t ≡ false) → sends ≡ []
  no_sends [] h = refl
  no_sends (send ∷ sends) h = absurd (
      ground (
        arith,
        h send.key send.target,
        key_eq-Decides.reflexive send.key,
        equality.reflexive send.target,
      ))

  module _ (N : Network W) (s : DealSender W) where
    pub member-pump :
        (k : DealKey) (t : PeerId)
        → member (pair_eq W) (pump W N s).0.in_flight (k, t)
          ≡ (queued W s.pending k t || member (pair_eq W) s.in_flight (k, t))
    unfolding pump
    member-pump k t = ground (
      arith,
      member-take_off k t N (to_send W s.in_flight s.pending) s.in_flight,
      sent-to_send k t s.in_flight s.pending,
    )

    -- A pump sends every payload to every target that it waits for and that no send is in flight
    -- to, and nothing else; all of these are then in flight, and a second pump sends nothing.
    pub pump_lem :
        (k : DealKey) (t : PeerId)
        → (sent W (pump W N s).1 k t
            ≡ (queued W s.pending k t && not (member (pair_eq W) s.in_flight (k, t))))
          × (member (pair_eq W) (pump W N s).0.in_flight (k, t)
              ≡ (queued W s.pending k t || member (pair_eq W) s.in_flight (k, t)))
          × ((pump W N (pump W N s).0).1 ≡ [])
    unfolding pump
    pump_lem k t =
        (sent-to_send k t s.in_flight s.pending, member-pump k t, no_sends _ λ k' t'. again k' t')
      where
        again : (k' : DealKey) (t' : PeerId) → sent W (pump W N (pump W N s).0).1 k' t' ≡ false
        again k' t' =
            ground (arith, member-pump k' t', sent-to_send k' t' (pump W N s).0.in_flight s.pending)

    -- After a pump, the result of one send decides what the next pump sends: that send once more
    -- if it was due and has failed, and nothing if it has succeeded.
    pub pump-ack :
        (key : DealKey) (target : PeerId) (succeeded : Bool) (k : DealKey) (t : PeerId)
        → sent W (pump W N (ack W key target succeeded (pump W N s).0)).1 k t
          ≡ (not succeeded && (queued W s.pending k t && pair_eq W (key, target) (k, t)))
    unfolding ack pump
    pump-ack key target true k t =
        let flying = (pump W N s).0.in_flight in
        ground (
          arith,
          sent-to_send k t (discard (pair_eq W) (key, target) flying)
              (drop_target W key target s.pending),
          queued-drop_target k t key target s.pending,
          member-discard (pair_eq W) pair_eq-Decides (key, target) flying (k, t),
          member-pump k t,
        )
    pump-ack key target false k t =
        let flying = (pump W N s).0.in_flight in
        ground (
          arith,
          sent-to_send k t (discard (pair_eq W) (key, target) flying) s.pending,
          member-discard (pair_eq W) pair_eq-Decides (key, target) flying (k, t),
          member-pump k t,
        )
