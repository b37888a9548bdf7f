-- ===== src/Protocol/Driver/Payloads.antt =====
-- protocol/src/driver.rs: payloads of the deal that are applied, relayed, and deferred until they can
-- be applied, and the local peer's own. A loop that ends when the table has nothing more to give runs
-- on fuel.
use ten_cent_poker_client.Prelude.{
  ℕ, zero, suc, Bool, true, ◌&&◌, not, Option, none, some, List, [], ◌∷◌, ◌++◌, leb, if◌then◌else◌,
  length, keep,
}
use ten_cent_poker_client.Prelude.Exec.{pure, fail, gets, modify, maybe, ◌>>=◌, ◌>>◌}
use ten_cent_poker_client.Prelude.Map.{is_some}
use ten_cent_poker_client.Protocol.Setting.{Setting, TableError, TableMessage}
use ten_cent_poker_client.Protocol.Table.{Step, is_mental_hand}
use ten_cent_poker_client.Protocol.Table.Handle.{local_deal_step}
use ten_cent_poker_client.Protocol.Driver.{
  Network, is_ignorable, is_deferrable_deal, Driving, table, out_of_fuel,
}
use ten_cent_poker_client.Protocol.Driver.Sender.{enqueue}
use ten_cent_poker_client.Protocol.Driver.Steps.{
  either, try_handle, on_table, the_table, on_sender, capture_outcome, send_step,
}

-- Every step but the last has a broadcast or an event of the local peer, and a hand has seven and
-- eight of these, as for `pump_mental`.
abbrev pub pump_fuel : ℕ
pump_fuel = 16

module _ (W : Setting) (N : Network W) where
  open W use {PeerId, peer_eq}

  -- The targets that a payload of `author` is relayed to: all the others.
  unfoldable pub relay_targets : PeerId → List PeerId → List PeerId
  relay_targets author targets = keep (λ t. not (peer_eq t author)) targets

  unfoldable pub defer : PeerId → TableMessage → Driving W N (Option Step)
  defer author msg = do
    modify (λ d. record d { deferred = d.deferred ++ (author, msg) ∷ [] })
    pure none

  -- A payload that was rejected: it waits, is dropped, or stops the peer.
  unfoldable pub reject : PeerId → TableMessage → TableError W → Driving W N (Option Step)
  reject author msg e =
      if is_deferrable_deal W e
      then defer author msg
      else (if is_ignorable W e then pure none else fail (table e))

  -- A payload that was applied, for the relay.
  unfoldable pub accept :
      Option (List PeerId) → PeerId → TableMessage → Step → Driving W N (Option Step)
  accept relay author msg step = do
    maybe relay (pure tt) (λ targets. on_sender W N (enqueue W N msg author targets))
    pure (some step)

  unfoldable pub apply_deal_payload :
      Option (List PeerId) → PeerId → TableMessage → Driving W N (Option Step)
  apply_deal_payload relay author msg = do
    r ← try_handle W N msg author
    either W N r (accept relay author msg) (reject author msg)

  -- The host, on a step of the deal.
  unfoldable pub absorb_step : Step → Driving W N (Unit {0})
  absorb_step step = do capture_outcome W N step; send_step W N step

  -- A pass over a batch of deferred payloads. What becomes of a step is a parameter.
  unfoldable pub replay_batch :
      Bool → (Step → Driving W N (Unit {0})) → List (PeerId × TableMessage) → Driving W N (Unit {0})
  replay_batch relay absorb [] = pure tt
  replay_batch relay absorb ((author, msg) ∷ batch) = do
    d ← gets (λ d. d)
    step ←
        apply_deal_payload (if relay then some (relay_targets author d.targets) else none) author
          msg
    maybe step (pure tt) absorb
    replay_batch relay absorb batch

  -- The loop of `replay_deferred` and of `guest_replay_deferred`.
  unfoldable pub replay : ℕ → Bool → (Step → Driving W N (Unit {0})) → Driving W N (Unit {0})
  replay zero relay absorb = fail out_of_fuel
  replay (suc fuel) relay absorb = do
    batch ← gets (λ d. d.deferred)
    let again = replay fuel relay absorb
    let once = do
      modify (λ d. record d { deferred = [] })
      replay_batch relay absorb batch
      left ← gets (λ d. d.deferred)
      if leb (length batch) (length left) then pure tt else again
    if leb (length batch) 0 then pure tt else once

  -- Every round but the last applies a payload, so one more than the payloads is enough.
  unfoldable pub replay_all : Bool → (Step → Driving W N (Unit {0})) → Driving W N (Unit {0})
  replay_all relay absorb = do
    batch ← gets (λ d. d.deferred)
    replay (suc (length batch)) relay absorb

  -- `replay_deferred`, as the host calls it.
  unfoldable pub replay_deferred : Driving W N (Unit {0})
  replay_deferred = replay_all true absorb_step

  -- Whether a step has nothing to pass on.
  abbrev pub is_quiet : Step → Bool
  is_quiet step = leb (length step.broadcasts) 0 && leb (length step.events) 0

  -- The loops of `pump_local_deal` and of `pump_local_deal_guest`: what becomes of a step that is
  -- not quiet, and whether the loop then ends, are parameters.
  unfoldable pub pump_steps :
      ℕ → (Step → Driving W N (Unit {0})) → Driving W N Bool → Driving W N (Unit {0})
  pump_steps zero absorb done = fail out_of_fuel
  pump_steps (suc fuel) absorb done = do
    step ← on_table W N (local_deal_step W)
    let again = pump_steps fuel absorb done
    let once = do absorb step; ended ← done; if ended then pure tt else again
    if is_quiet step then pure tt else once

  -- `last_outcome.is_some() && !table.is_mental_hand()`
  unfoldable pub is_settled : Driving W N Bool
  is_settled = do
    t ← the_table W N
    d ← gets (λ d. d)
    pure (is_some d.last_outcome && not (is_mental_hand W t))

  unfoldable pub pump_local_deal : Driving W N (Unit {0})
  pump_local_deal = pump_steps pump_fuel absorb_step is_settled
