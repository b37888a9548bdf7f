-- ===== src/Protocol/Driver/Replaying.antt =====
-- protocol/src/driver.rs: the loops over the deferred payloads end.
use ten_cent_poker_client.Prelude.{
  ℕ, zero, suc, ◌<◌, ◌≡◌, ◌≢◌, ap, Bool, true, false, Option, none, some, List, [], ◌∷◌, leb,
  leb→lt, if◌then◌else◌, arith, length, Outcome, ok, err, panic, Bool-cases, inl, inr, ◌⊎◌,
}
use ten_cent_poker_client.Prelude.Exec.{
  Exec, pure, fail, lift, gets, modify, maybe, continue, ◌>>=◌, ◌>>◌,
}
use ten_cent_poker_client.Showdown.Defs.{Hole}
use ten_cent_poker_client.Protocol.Setting.{Setting, TableError, TableMessage}
use ten_cent_poker_client.Protocol.Table.{Table, Step, TableEvent}
use ten_cent_poker_client.Protocol.Driver.{
  Network, Driver, Driving, DriverError, net, table, decode_failed, waiting, out_of_fuel, Answer,
  published, no_subscribers_yet, refused,
}
use ten_cent_poker_client.Protocol.Driver.Steps.{
  Tried, applied, rejected, either, tried, the_table, try_table, try_handle, publish,
  broadcast_retry, on_sender, send_messages, send_step, capture_outcome, snapshot_hole,
}
use ten_cent_poker_client.Protocol.Driver.Payloads.{
  defer, reject, accept, apply_deal_payload, absorb_step, replay_batch, replay, replay_all,
  replay_deferred,
}
use ten_cent_poker_client.Protocol.Driver.Guest.{
  finish_events, finish_step, note_ack, finish, absorb_guest, guest_replay_deferred,
}

module _ (W : Setting) (N : Network W) where
  -- `m` does not run out of fuel.
  pub record Ends {A : Type 0} (m : Driving W N A) : Type 0 where
    pub at : (d : Driver W N) → (m d).0 ≢ err out_of_fuel

  Ends-modify : (f : Driver W N → Driver W N) → Ends (modify f)
  Ends-modify f = record { at = λ d h. cc }

  module _ {A : Type 0} where
    Ends-pure : (a : A) → Ends (pure a)
    Ends-pure a = record { at = λ d h. cc }

    Ends-gets : (f : Driver W N → A) → Ends (gets f)
    Ends-gets f = record { at = λ d h. cc }

    Ends-waiting : Ends {A = A} (fail waiting)
    Ends-waiting = record { at = λ d h. cc }

    Ends-net : (e : N.NetError) → Ends {A = A} (fail (net e))
    Ends-net e = record { at = λ d h. cc }

    Ends-table : (e : TableError W) → Ends {A = A} (fail (table e))
    Ends-table e = record { at = λ d h. cc }

    Ends-decode : (e : N.JsonError) → Ends {A = A} (fail (decode_failed e))
    Ends-decode e = record { at = λ d h. cc }

    Ends-panic : Ends {A = A} (lift panic)
    Ends-panic = record { at = λ d h. cc }

    Ends-if : (b : Bool) (m n : Driving W N A) → Ends m → Ends n → Ends (if b then m else n)
    Ends-if true m n km kn = km
    Ends-if false m n km kn = kn

    Ends-maybe {κ} :
        {B : Type κ} (o : Option B) (m : Driving W N A) (f : B → Driving W N A)
        → Ends m
        → ((b : B) → Ends (f b))
        → Ends (maybe o m f)
    Ends-maybe none m f km kf = km
    Ends-maybe (some b) m f km kf = kf b

  module _ {A B : Type 0} where
    Ends-either :
        (r : Tried W A) (f : A → Driving W N B) (g : TableError W → Driving W N B)
        → ((a : A) → Ends (f a))
        → ((e : TableError W) → Ends (g e))
        → Ends (either W N r f g)
    Ends-either (applied a) f g kf kg = kf a
    Ends-either (rejected e) f g kf kg = kg e

    ends_at :
        (r : Outcome (DriverError W N) A) (f : A → Driving W N B) (d : Driver W N)
        → r ≢ err out_of_fuel
        → ((a : A) → (f a d).0 ≢ err out_of_fuel)
        → (continue r f d).0 ≢ err out_of_fuel
    ends_at (ok a) f d h k = k a
    ends_at (err e) f d h k = λ g. let p : e ≡ out_of_fuel = cc in h (ap err p)
    ends_at panic f d h k = λ g. cc

    Ends-bind :
        (m : Driving W N A) (f : A → Driving W N B)
        → Ends m
        → ((a : A) → Ends (f a))
        → Ends (m >>= f)
    Ends-bind m f km kf = record {
      at = λ d. ends_at (m d).0 f (m d).1 (km.at d) (λ a. (kf a).at (m d).1);
    }

    Ends-next : (m : Driving W N A) (n : Driving W N B) → Ends m → Ends n → Ends (m >> n)
    Ends-next m n km kn = Ends-bind m (λ a. n) km (λ a. kn)

  ruleset ends_rules = (
    Ends-pure, Ends-gets, Ends-modify, Ends-waiting, Ends-net, Ends-table, Ends-decode, Ends-panic,
    Ends-if, Ends-maybe, Ends-either, Ends-bind, Ends-next,
  )

  Ends-publish : (bytes : List ℕ) (answers : List (Answer W N)) → Ends (publish W N bytes answers)
  unfolding publish
  Ends-publish bytes [] = search ends_rules
  Ends-publish bytes (published ∷ answers) = search ends_rules
  Ends-publish bytes (no_subscribers_yet ∷ answers) = Ends-publish bytes answers
  Ends-publish bytes (refused e ∷ answers) = search ends_rules

  Ends-the_table : Ends (the_table W N)
  unfolding the_table
  Ends-the_table = search ends_rules depth 14

  Ends-try_table : {A : Type 0} (m : Exec (Table W) (TableError W) A) → Ends (try_table W N m)
  unfolding try_table
  Ends-try_table m = search (ends_rules, Ends-the_table, Ends-tried) depth 14
    where
      Ends-tried : {A : Type 0} (r : Outcome (TableError W) A) → Ends (lift (tried W N r))
      Ends-tried (ok a) = record { at = λ d h. cc }
      Ends-tried (err e) = record { at = λ d h. cc }
      Ends-tried panic = record { at = λ d h. cc }

  Ends-try_handle : (msg : TableMessage) (from : W.PeerId) → Ends (try_handle W N msg from)
  unfolding try_handle
  Ends-try_handle msg from = search (ends_rules, Ends-try_table) depth 14

  Ends-broadcast_retry : (msg : TableMessage) → Ends (broadcast_retry W N msg)
  unfolding broadcast_retry
  Ends-broadcast_retry msg = written (N.encode msg)
    where
      written :
          (r : N.JsonError ⊎ List ℕ)
          → Ends (elim r as (λ r'. Driving W N (Unit {0})) [
            | inl e ↦ fail (decode_failed e)
            | inr bytes ↦ gets (λ d. d.answers) >>= publish W N bytes
          ])
      written (inl e) = search ends_rules
      written (inr bytes) = search (ends_rules, Ends-publish) depth 14

  Ends-send_messages : (msgs : List TableMessage) → Ends (send_messages W N msgs)
  unfolding send_messages on_sender
  Ends-send_messages [] = search ends_rules
  Ends-send_messages (msg ∷ msgs) =
      let rest = Ends-send_messages msgs in search (ends_rules, Ends-broadcast_retry) depth 14

  Ends-absorb_step : (step : Step) → Ends (absorb_step W N step)
  unfolding absorb_step capture_outcome send_step
  Ends-absorb_step step = search (ends_rules, Ends-send_messages) depth 14

  Ends-finish_events :
      (events : List TableEvent) (hole : Option Hole) (last : Option TableMessage)
      → Ends (finish_events W N events hole last)
  unfolding finish_events
  Ends-finish_events [] hole last = search ends_rules
  Ends-finish_events (event ∷ events) hole last =
      let rest = λ (o : Option TableMessage). Ends-finish_events events hole o in
      search (ends_rules, Ends-broadcast_retry) depth 14

  Ends-absorb_guest : (step : Step) → Ends (absorb_guest W N step)
  unfolding absorb_guest snapshot_hole finish finish_step send_step note_ack
  Ends-absorb_guest step = search (ends_rules, Ends-finish_events, Ends-send_messages) depth 14

  Ends-apply_deal_payload :
      (relay : Option (List W.PeerId)) (author : W.PeerId) (msg : TableMessage)
      → Ends (apply_deal_payload W N relay author msg)
  unfolding apply_deal_payload accept reject defer on_sender
  Ends-apply_deal_payload relay author msg = search (ends_rules, Ends-try_handle) depth 14

  module _ (relay : Bool) (absorb : Step → Driving W N (Unit {0}))
      (ka : (step : Step) → Ends (absorb step)) where
    Ends-replay_batch :
        (batch : List (W.PeerId × TableMessage)) → Ends (replay_batch W N relay absorb batch)
    unfolding replay_batch
    Ends-replay_batch [] = search ends_rules
    Ends-replay_batch ((author, msg) ∷ batch) =
        let rest = Ends-replay_batch batch in
        search (ends_rules, Ends-apply_deal_payload, ka) depth 14

    -- A pass is over: the loop ends, or goes on with fewer payloads.
    after :
        (fuel before : ℕ)
        → before < suc fuel
        → ((d : Driver W N)
            → length d.deferred < fuel
            → (replay W N fuel relay absorb d).0 ≢ err out_of_fuel)
        → (d : Driver W N)
        → ((if leb before (length d.deferred)
              then pure {S = Driver W N} {E = DriverError W N} tt
              else replay W N fuel relay absorb)
            d).0
          ≢ err out_of_fuel
    after fuel before enough again d = elim (Bool-cases (leb before (length d.deferred))) [
      | inl stalled ↦ rw stalled (λ g. cc)
      | inr fewer ↦ rw fewer (again d (omega (arith, leb→lt before (length d.deferred) fewer)))
    ]

    -- The loop, with more fuel than there are payloads.
    replay_ends :
        (fuel : ℕ) (d : Driver W N)
        → length d.deferred < fuel
        → (replay W N fuel relay absorb d).0 ≢ err out_of_fuel
    unfolding replay
    replay_ends zero d h = elim h [ ]
    replay_ends (suc fuel) d h = elim (Bool-cases (leb (length d.deferred) 0)) [
      | inl none_left ↦ rw none_left (λ g. cc)
      | inr some_left ↦ rw some_left (
          ends_at (replay_batch W N relay absorb d.deferred started).0 _ _
            ((Ends-replay_batch d.deferred).at started)
            (λ u.
              after fuel (length d.deferred) (omega arith) (replay_ends fuel)
                (replay_batch W N relay absorb d.deferred started).1))
    ]
      where
        started : Driver W N
        started = record d { deferred = [] }

  -- The host's loop over the deferred payloads and the guest's end, in whatever state, for any
  -- number of payloads and whatever the table makes of them: with one round more than there are
  -- payloads the fuel of the model does not run out.
  pub replay_deferred-ends :
      (d : Driver W N)
      → ((replay_deferred W N d).0 ≢ err out_of_fuel)
        × ((guest_replay_deferred W N d).0 ≢ err out_of_fuel)
  unfolding replay_deferred guest_replay_deferred replay_all
  replay_deferred-ends d = (
    replay_ends true (absorb_step W N) Ends-absorb_step (suc (length d.deferred)) d (omega arith),
    replay_ends false (absorb_guest W N) Ends-absorb_guest (suc (length d.deferred)) d
        (omega arith),
  )
