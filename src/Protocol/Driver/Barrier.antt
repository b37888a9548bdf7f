-- ===== src/Protocol/Driver/Barrier.antt =====
-- protocol/src/driver.rs: the host waits for every guest before it goes on to the next hand.
use ten_cent_poker_client.Prelude.{
  ℕ, ◌≡◌, refl, sym, ap, ◌∙◌, Bool, true, false, ◌&&◌, ◌||◌, Option, none, some, List, [], ◌∷◌,
  if◌then◌else◌, arith, ◌==◌, Outcome, ok, err, panic, Bool-cases, Option-cases, inl, inr, ◌⊎◌,
}
use ten_cent_poker_client.Prelude.Exec.{fail, modify, maybe, when, fail_if, continue, ◌>>◌}
use ten_cent_poker_client.Prelude.Ordered.{member, add, member-add}
use ten_cent_poker_client.Showdown.Defs.{Hole}
use ten_cent_poker_client.Protocol.Setting.{Setting, IsEquality, TableMessage}
use ten_cent_poker_client.Protocol.Table.{Step, HandOutcome}
use ten_cent_poker_client.Protocol.Driver.{
  Network, Driver, Driving, DriverError, waiting, Decider, Event, tick, send_result, human_action,
  table_uri, reachability_warning, peer_connected, peer_disconnected, message, deal_received,
  dial_failed, closed, deadline,
}
use ten_cent_poker_client.Protocol.Driver.Steps.{on_sender, snapshot_hole}
use ten_cent_poker_client.Protocol.Driver.Host.{
  completed_hand, host_message, host_event, all_acked, barrier, host_loop, for_hand, open_hand,
  play_one_hand,
}
use ten_cent_poker_client.Protocol.Driver.Roll.{
  Roll, Keeps-host_tick, Keeps-host_human, Keeps-host_payload, Keeps-host_message, Keeps-open_hand,
}
use ten_cent_poker_client.Protocol.Driver.Delivery.{peer_eq-Decides}

-- Whether a message acknowledges the hand.
abbrev completes : ℕ → TableMessage → Bool
completes hand_no msg = maybe (completed_hand msg) false (λ h. h == hand_no)

module _ (W : Setting) (N : Network W) where
  open W use {PeerId, peer_eq}
  open N use {decode}

  -- Whether an event is a `HandComplete` of the hand from `g`, and whether one of several is.
  abbrev pub acknowledgement : ℕ → PeerId → Event W → Bool
  acknowledgement hand_no g (message from bytes) =
      peer_eq from g && maybe (decode bytes) false (completes hand_no)
  acknowledgement hand_no g e = false

  abbrev pub has_acknowledged : ℕ → List (Event W) → PeerId → Bool
  has_acknowledged hand_no [] g = false
  has_acknowledged hand_no (e ∷ events) g =
      acknowledgement hand_no g e || has_acknowledged hand_no events g

  -- What an event makes of the list of those who have acknowledged the hand.
  unfoldable note : ℕ → Event W → List PeerId → List PeerId
  note hand_no (message from bytes) acked =
      if maybe (decode bytes) false (completes hand_no)
      then add peer_eq N.peer_lt from acked
      else acked
  note hand_no e acked = acked

  abbrev RollAfter : Decider W → ℕ → TableMessage → Event W → Driver W N → Type 0
  RollAfter decider hand_no start e d =
      Roll W N d.targets (note hand_no e d.acked) (host_event W N decider hand_no start e d).1

  module _ (decider : Decider W) (hand_no : ℕ) (start : TableMessage) (d : Driver W N) where
    noted :
        (same : Bool) (from : PeerId)
        → Roll W N d.targets
            (if same then add peer_eq N.peer_lt from d.acked else d.acked)
            (when {S = Driver W N} {E = DriverError W N} same
              (modify (λ d. record d { acked = add peer_eq N.peer_lt from d.acked }))
              d).1
    noted true from = (refl, refl)
    noted false from = (refl, refl)

    stays : (b : Bool) (e : DriverError W N) → Roll W N d.targets d.acked (fail_if b e d).1
    stays true e = (refl, refl)
    stays false e = (refl, refl)

    completed :
        (from : PeerId) (msg : TableMessage) (h : ℕ)
        → completed_hand msg ≡ some h
        → Roll W N d.targets
            (if completes hand_no msg then add peer_eq N.peer_lt from d.acked else d.acked)
            (host_message W N decider hand_no from msg d).1
    unfolding host_message
    completed from msg h done = rw done (noted (h == hand_no) from)

    Roll-message :
        (from : PeerId) (msg : TableMessage)
        → Roll W N d.targets
            (if completes hand_no msg then add peer_eq N.peer_lt from d.acked else d.acked)
            (host_message W N decider hand_no from msg d).1
    Roll-message from msg = elim (Option-cases (completed_hand msg)) [
      | inl other ↦ rw other (
          (Keeps-host_message W N d.targets d.acked decider hand_no from msg other).at d
            (refl, refl))
      | inr (h, done) ↦ completed from msg h done
    ]

    -- An event leaves the guests alone, and notes an acknowledgement.
    roll_event : (e : Event W) → RollAfter decider hand_no start e d
    unfolding note host_event on_sender
    roll_event (message from bytes) = elim (Option-cases (decode bytes)) [
      | inl broken ↦ rw broken (refl, refl)
      | inr (msg, read) ↦ rw read (Roll-message from msg)
    ]
    roll_event (deal_received author bytes) = elim (Option-cases (decode bytes)) [
      | inl broken ↦ rw broken (refl, refl)
      | inr (msg, read) ↦
          rw read ((Keeps-host_payload W N d.targets d.acked decider author msg).at d (refl, refl))
    ]
    roll_event tick = (Keeps-host_tick W N d.targets d.acked start).at d (refl, refl)
    roll_event (send_result key target succeeded) = (refl, refl)
    roll_event (human_action none) = (refl, refl)
    roll_event (human_action (some action)) =
        (Keeps-host_human W N d.targets d.acked action).at d (refl, refl)
    roll_event (peer_disconnected p) = stays _ _
    roll_event closed = (refl, refl)
    roll_event deadline = (refl, refl)
    roll_event (table_uri u) = (refl, refl)
    roll_event (reachability_warning r) = (refl, refl)
    roll_event (peer_connected p) = (refl, refl)
    roll_event dial_failed = (refl, refl)

  module _ (equality : IsEquality W) where
    member-note :
        (hand_no : ℕ) (e : Event W) (acked : List PeerId) (g : PeerId)
        → member peer_eq (note hand_no e acked) g ≡ true
        → (acknowledgement hand_no g e || member peer_eq acked g) ≡ true
    unfolding note
    member-note hand_no (message from bytes) acked g h =
        ground (arith, member-add peer_eq N.peer_lt (peer_eq-Decides W equality) from acked g)
    member-note hand_no (deal_received author bytes) acked g h = h
    member-note hand_no tick acked g h = h
    member-note hand_no (send_result key target succeeded) acked g h = h
    member-note hand_no (human_action action) acked g h = h
    member-note hand_no (peer_disconnected p) acked g h = h
    member-note hand_no closed acked g h = h
    member-note hand_no deadline acked g h = h
    member-note hand_no (table_uri u) acked g h = h
    member-note hand_no (reachability_warning r) acked g h = h
    member-note hand_no (peer_connected p) acked g h = h
    member-note hand_no dial_failed acked g h = h

    all_acked-member :
        (guests acked : List PeerId) (g : PeerId)
        → all_acked W N guests acked ≡ true
        → member peer_eq guests g ≡ true
        → member peer_eq acked g ≡ true
    unfolding all_acked
    all_acked-member [] acked g all h = cc
    all_acked-member (x ∷ guests) acked g all h =
        ground (arith, all_acked-member guests acked g, same)
      where
        same : peer_eq x g ≡ true → member peer_eq acked x ≡ member peer_eq acked g
        same e = ap (member peer_eq acked) (equality.sound x g e)

    barrier-all_acked :
        (d : Driver W N) (o : HandOutcome)
        → barrier W N d ≡ some o
        → all_acked W N d.targets d.acked ≡ true
    unfolding barrier
    barrier-all_acked d o h = elim (Bool-cases (all_acked W N d.targets d.acked)) [
      | inl all ↦ all
      | inr missing ↦ ground arith
    ]

    continued :
        {A B : Type 0} (r : Outcome (DriverError W N) A) (f : A → Driving W N B) (d : Driver W N)
        (b : B)
        → (continue r f d).0 ≡ ok b
        → (a : A) × (f a d).0 ≡ ok b
    continued (ok a) f d b h = (a, h)
    continued (err e) f d b h = cc
    continued panic f d b h = cc

    -- A round of the loop that ends in a result has passed the barrier, or goes on.
    passed :
        {A : Type 0} (o : Option HandOutcome) (m : Driving W N A) (f : HandOutcome → Driving W N A)
        (d : Driver W N) (a : A)
        → (maybe o m f d).0 ≡ ok a
        → ((result : HandOutcome) × (o ≡ some result)) ⊎ ((m d).0 ≡ ok a)
    passed none m f d a h = inr h
    passed (some o) m f d a h = inl (o, refl)

    third : (a b c : Bool) → c ≡ true → ((a || b) || c) ≡ true
    third a b c h = ground arith

    nobody : (b n : Bool) → (b || n) ≡ true → n ≡ false → b ≡ true
    nobody b n h e = ground arith

    either_way :
        (a b c n : Bool) → (b || n) ≡ true → (n ≡ true → (a || c) ≡ true) → ((a || b) || c) ≡ true
    either_way a b c n h k = ground arith

    module _ (decider : Decider W) (hand_no : ℕ) (start : TableMessage) (g : PeerId) where
      host_loop-acknowledged :
          (events : List (Event W)) (d : Driver W N)
          (played : HandOutcome × Option Hole × List (Event W))
          → (host_loop W N decider hand_no start events d).0 ≡ ok played
          → member peer_eq d.targets g ≡ true
          → (has_acknowledged hand_no events g || member peer_eq d.acked g) ≡ true
      unfolding host_loop snapshot_hole
      host_loop-acknowledged [] d played h seated =
          elim (passed (barrier W N (snapshot_hole W N d).1) (fail waiting) _ _ played h) [
            | inl (o, met) ↦ all_acked-member d.targets d.acked g (barrier-all_acked _ o met) seated
            | inr stuck ↦ cc
          ]
      host_loop-acknowledged (e ∷ events) d played h seated =
          let d' = (snapshot_hole W N d).1 in
          let after = host_event W N decider hand_no start e d' in
          elim (passed (barrier W N d')
            (host_event W N decider hand_no start e >> host_loop W N decider hand_no start events) _
            _ played h) [
              | inl (o, met) ↦
                  third (acknowledgement hand_no g e) (has_acknowledged hand_no events g)
                    (member peer_eq d.acked g)
                    (all_acked-member d.targets d.acked g (barrier-all_acked _ o met) seated)
              | inr on ↦
                  let (u, later) =
                    continued after.0 (λ v. host_loop W N decider hand_no start events) after.1
                      played on in
                  let roll = roll_event decider hand_no start d' e in
                  either_way (acknowledgement hand_no g e) (has_acknowledged hand_no events g)
                    (member peer_eq d.acked g) (member peer_eq after.1.acked g)
                    (host_loop-acknowledged events after.1 played later
                      (ap (λ (targets : List PeerId). member peer_eq targets g) roll.0 ∙ seated))
                    (λ noted_then.
                      member-note hand_no e d.acked g
                        (ap (λ (l : List PeerId). member peer_eq l g) (sym roll.1) ∙ noted_then))
            ]

      -- When a hand of the host comes to a result, a `HandComplete` with the hand's number has come
      -- from every guest of the hand, among the events that the host was given.
      pub play_one_hand-acknowledged :
          (step : Step) (guests : List PeerId) (events : List (Event W)) (d : Driver W N)
          (played : HandOutcome × Option Hole × List (Event W))
          → (play_one_hand W N decider hand_no start step guests events d).0 ≡ ok played
          → member peer_eq guests g ≡ true
          → has_acknowledged hand_no events g ≡ true
      unfolding play_one_hand
      play_one_hand-acknowledged step guests events d played h seated =
          let opened = open_hand W N decider start step (for_hand W N guests d) in
          let (u, later) =
            continued opened.0 (λ v. host_loop W N decider hand_no start events) opened.1 played
              h in
          let roll =
            (Keeps-open_hand W N guests [] decider start step).at (for_hand W N guests d)
              (refl, refl) in
          nobody (has_acknowledged hand_no events g) (member peer_eq opened.1.acked g)
            (host_loop-acknowledged events opened.1 played later
              (ap (λ (l : List PeerId). member peer_eq l g) roll.0 ∙ seated))
            (ap (λ (l : List PeerId). member peer_eq l g) roll.1)
