-- ===== src/Protocol/Driver/Steps.antt =====
-- protocol/src/driver.rs: calls of the table, broadcasts, and what the host and the guest do with a
-- step of their table.
use ten_cent_poker_client.Prelude.{
  ℕ, suc, Option, none, some, List, [], ◌∷◌, ◌++◌, if◌then◌else◌, Outcome, ok, err, panic, inl, inr,
}
use ten_cent_poker_client.Prelude.Exec.{Exec, pure, fail, lift, gets, modify, maybe, ◌>>=◌, ◌>>◌}
use ten_cent_poker_client.Prelude.Map.{is_some}
use ten_cent_poker_client.Protocol.Setting.{Setting, TableError, TableMessage}
use ten_cent_poker_client.Protocol.Table.{
  Table, Step, HandOutcome, TableEvent, hand_ended, local_hole_of,
}
use ten_cent_poker_client.Protocol.Table.Handle.{handle}
use ten_cent_poker_client.Protocol.Driver.{
  is_deal_payload, is_act, Network, DealSender, DriverUpdate, Driving, DriverError, net, table,
  decode_failed, waiting, Answer, published, no_subscribers_yet, refused,
}
use ten_cent_poker_client.Protocol.Driver.Sender.{enqueue, pump}

-- What a call of the table came to.
pub data Tried (W : Setting) (A : Type 0) : Type 0 where
  applied : A → Tried W A
  rejected : TableError W → Tried W A

-- The events `HandEnded` of a step, of which the last counts.
unfoldable pub ended_hand : TableEvent → Option HandOutcome
ended_hand (hand_ended outcome) = some outcome
ended_hand event = none

unfoldable pub capture_from : List TableEvent → Option HandOutcome → Option HandOutcome
capture_from [] out = out
capture_from (event ∷ events) out = capture_from events (maybe (ended_hand event) out some)

-- The last `Act` among broadcasts, or `slot`.
unfoldable pub last_act_of : List TableMessage → Option TableMessage → Option TableMessage
last_act_of [] slot = slot
last_act_of (msg ∷ msgs) slot = last_act_of msgs (if is_act msg then some msg else slot)

module _ (W : Setting) (N : Network W) where
  open W use {PeerId, peer_eq}
  open N use {encode, generator}

  unfoldable pub the_table : Driving W N (Table W)
  the_table = do replica ← gets (λ d. d.replica); maybe replica (lift panic) pure

  abbrev pub tried : {A : Type 0} → Outcome (TableError W) A → Outcome (DriverError W N) (Tried W A)
  tried (ok a) = ok (applied a)
  tried (err e) = ok (rejected e)
  tried panic = panic

  -- A method of the table, whose error is matched on.
  unfoldable pub try_table :
      {A : Type 0} → Exec (Table W) (TableError W) A → Driving W N (Tried W A)
  try_table m = do
    t ← the_table
    let ran = m t
    modify (λ d. record d { replica = some ran.1 })
    lift (tried ran.0)

  -- `match` on the result, and `?`.
  abbrev pub either : {A B : Type 0} → Tried W A → (A → B) → (TableError W → B) → B
  either (applied a) f g = f a
  either (rejected e) f g = g e

  unfoldable pub on_table : {A : Type 0} → Exec (Table W) (TableError W) A → Driving W N A
  on_table m = do r ← try_table m; either r pure (λ e. fail (table e))

  -- `table.handle(msg, from)`, with the thread's generator.
  unfoldable pub try_handle : TableMessage → PeerId → Driving W N (Tried W Step)
  try_handle msg from = do
    n ← gets (λ d. d.handled)
    modify (λ d. record d { handled = suc n })
    try_table (handle W (generator n) msg from)

  -- `observer(DriverUpdate::…)`
  unfoldable pub observe : DriverUpdate W → Driving W N (Unit {0})
  observe u = modify (λ d. record d { updates = d.updates ++ u ∷ [] })

  unfoldable pub observe_state : Driving W N (Unit {0})
  observe_state = do t ← the_table; observe (DriverUpdate.state t)

  -- The attempts to publish some bytes, one for each answer.
  unfoldable pub publish : List ℕ → List (Answer W N) → Driving W N (Unit {0})
  publish bytes [] = fail waiting
  publish bytes (published ∷ answers) =
      modify (λ d. record d { answers = answers; broadcasts = d.broadcasts ++ bytes ∷ [] })
  publish bytes (no_subscribers_yet ∷ answers) = publish bytes answers
  publish bytes (refused e ∷ answers) = do
    modify (λ d. record d { answers = answers })
    fail (net e)

  unfoldable pub broadcast_retry : TableMessage → Driving W N (Unit {0})
  broadcast_retry msg = elim (encode msg) [
    | inl e ↦ fail (decode_failed e)
    | inr bytes ↦ do answers ← gets (λ d. d.answers); publish bytes answers
  ]

  -- `if let Some(m) = msg { broadcast_retry(m) }`
  unfoldable pub broadcast_last : Option TableMessage → Driving W N (Unit {0})
  broadcast_last none = pure tt
  broadcast_last (some msg) = broadcast_retry msg

  unfoldable pub pump_sender : Driving W N (Unit {0})
  pump_sender = modify λ d.
      let pumped = pump W N d.sender in record d { sender = pumped.0; sends = d.sends ++ pumped.1 }

  unfoldable pub on_sender : (DealSender W → DealSender W) → Driving W N (Unit {0})
  on_sender f = modify (λ d. record d { sender = f d.sender })

  unfoldable pub send_messages : List TableMessage → Driving W N (Unit {0})
  send_messages [] = pure tt
  send_messages (msg ∷ msgs) = do
    d ← gets (λ d. d)
    if is_deal_payload msg then on_sender (enqueue W N msg d.me d.targets) else broadcast_retry msg
    send_messages msgs

  unfoldable pub send_step : Step → Driving W N (Unit {0})
  send_step step = send_messages step.broadcasts

  unfoldable pub capture_outcome : Step → Driving W N (Unit {0})
  capture_outcome step =
      modify (λ d. record d { last_outcome = capture_from step.events d.last_outcome })

  unfoldable pub remember_last_act : Step → Driving W N (Unit {0})
  remember_last_act step =
      modify (λ d. record d { last_act = last_act_of step.broadcasts d.last_act })

  -- The peer's own hole, once it is known.
  unfoldable pub snapshot_hole : Driving W N (Unit {0})
  snapshot_hole = modify λ d.
      let own = maybe d.replica none (local_hole_of W) in
      record d { hole = if is_some d.hole then d.hole else own }
