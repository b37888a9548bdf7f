-- ===== src/Protocol/Table/Pump.antt =====
-- protocol/src/table.rs: `pump_mental` and what it calls, by which a peer contributes to the deal of
-- its hand as far as the messages that it has seen allow.
use ten_cent_poker_client.Prelude.{
  ℕ, zero, suc, Bool, true, ◌&&◌, not, ◌==◌, leb, if◌then◌else◌, some, List, [], ◌∷◌, Outcome,
  panic, length, keep, index,
}
use ten_cent_poker_client.Prelude.Exec.{pure, lift, gets, modify, maybe, when, ◌>>=◌, ◌>>◌}
use ten_cent_poker_client.Prelude.Map.{is_some}
use ten_cent_poker_client.Cards.{Card}
use ten_cent_poker_client.Betting.State.{Street, folded_flags}
use ten_cent_poker_client.Betting.State as State
use ten_cent_poker_client.Protocol.Setting.{
  Setting, RevealRound, hole, flop, turn, river, showdown, key_announce, shuffle_announce,
  reveal_announce,
}
use ten_cent_poker_client.Protocol.Mental.{
  MentalDeal, DealEffect, announce_key, shuffle_turn, reveal_hole, reveal_community,
  reveal_showdown, ready, phase_eq, take_phase_changed, take_hole_ready_once, take_street_announced,
  pending_effect, needs_community_reveal, needs_showdown_reveal, community_revealed,
  showdown_hole_of,
}
use ten_cent_poker_client.Protocol.Mental.Messages.{
  make_key_announcement, make_shuffle, make_hole_reveal, make_community_reveal,
  make_showdown_reveal,
}
use ten_cent_poker_client.Protocol.Table.{
  LiveHand, Running, put_live, push_event, push_deal, the_live, if_live, if_mental, on_mental,
  is_mental_hand, street_community_round, deal_phase, local_hole_ready, street_dealt,
}
use ten_cent_poker_client.Protocol.Table.Settle.{settle}

-- The streets of `sync_community`, with the cards that are then on the board.
abbrev pub completed_streets : List (RevealRound × State.Street × ℕ)
completed_streets = (flop, State.flop, 3) ∷ (turn, State.turn, 4) ∷ (river, State.river, 5) ∷ []

module _ (W : Setting) where
  -- A one-shot method of the deal.
  unfoldable pub taking : (MentalDeal W → Bool × MentalDeal W) → Running W Bool
  taking take = on_mental W λ m. let (b, m') = take m in (Outcome.ok b, m')

  unfoldable pub emit_phase_events : Running W (Unit {0})
  emit_phase_events = if_live W λ live. if_mental W live λ m. do
    let hand_no = live.hand_no
    changed ← taking (take_phase_changed W m.phase)
    when changed (push_event W (deal_phase hand_no m.phase))
    when (is_some m.local_hole) (do
      first ← taking (take_hole_ready_once W)
      when first (push_event W (local_hole_ready hand_no)))

  unfoldable pub carry_out : ℕ → ℕ → DealEffect → Running W (Unit {0})
  carry_out hand_no seat announce_key = do
    payload ← on_mental W (make_key_announcement W)
    push_deal W (key_announce hand_no seat payload) announce_key
  carry_out hand_no seat (shuffle_turn next) = do
    made ← on_mental W (make_shuffle W)
    push_deal W (shuffle_announce hand_no made.0 made.1) (shuffle_turn made.0)
  carry_out hand_no seat reveal_hole = do
    tokens ← on_mental W (make_hole_reveal W)
    push_deal W (reveal_announce hand_no seat hole tokens) reveal_hole
  carry_out hand_no seat (reveal_community round) = pure tt
  carry_out hand_no seat reveal_showdown = pure tt

  unfoldable pub emit_pending_deal_effect : Running W (Unit {0})
  emit_pending_deal_effect = if_live W λ live.
      if_mental W live
        λ m. maybe (pending_effect W m) (pure tt) λ effect. carry_out live.hand_no m.seat effect

  -- The broadcast of this peer's tokens for a street.
  unfoldable pub send_community : ℕ → ℕ → RevealRound → Running W (Unit {0})
  send_community hand_no seat round = do
    tokens ← on_mental W (make_community_reveal W round)
    push_deal W (reveal_announce hand_no seat round tokens) (reveal_community round)

  -- The `while` loop of `sync_community`: the board, and the revealed cards behind it.
  unfoldable pub extend : List Card → List Card → List Card
  extend community [] = community
  extend [] (c ∷ revealed) = c ∷ extend [] revealed
  extend (b ∷ community) (c ∷ revealed) = b ∷ extend community revealed

  unfoldable pub announce_streets :
      ℕ → ℕ → List (RevealRound × State.Street × ℕ) → Running W (Unit {0})
  announce_streets hand_no revealed [] = pure tt
  announce_streets hand_no revealed ((round, street, count) ∷ streets) = do
    when (leb count revealed) (do
      first ← taking (take_street_announced W round)
      when first (push_event W (street_dealt hand_no street)))
    announce_streets hand_no revealed streets

  unfoldable pub sync_community : Running W (Unit {0})
  sync_community = if_live W λ live. if_mental W live λ m. do
    let revealed = m.community
    modify (λ s. put_live W (some (record live { community = extend live.community revealed })) s)
    announce_streets live.hand_no (length revealed) completed_streets

  unfoldable pub drive_community_and_betting : Running W (Unit {0})
  drive_community_and_betting = if_live W λ live. if_mental W live λ m.
      let current = maybe (street_community_round live.betting.street) sync_community λ round.
        when (needs_community_reveal W m round) (send_community live.hand_no m.seat round)
        >> sync_community in
      if live.pending_settle then pure tt else (if phase_eq m.phase ready then current else pure tt)

  -- The run-out of the streets, in `drive_showdown_and_settle`.
  unfoldable pub reveal_streets : ℕ → ℕ → List RevealRound → Running W (Unit {0})
  reveal_streets hand_no seat [] = pure tt
  reveal_streets hand_no seat (round ∷ rounds) = do
    m ← on_mental W (gets (λ m. m))
    when (not (community_revealed W m round) && needs_community_reveal W m round)
        (send_community hand_no seat round)
    reveal_streets hand_no seat rounds

  unfoldable pub send_showdown : ℕ → ℕ → Running W (Unit {0})
  send_showdown hand_no seat = do
    m ← on_mental W (gets (λ m. m))
    when (needs_showdown_reveal W m) (do
      tokens ← on_mental W (make_showdown_reveal W)
      push_deal W (reveal_announce hand_no seat showdown tokens) reveal_showdown)

  -- Whether every seat from `i` on that has not folded has shown its hole.
  unfoldable pub holes_shown : MentalDeal W → ℕ → List Bool → Bool
  holes_shown m i [] = true
  holes_shown m i (folded ∷ flags) =
      let rest = holes_shown m (suc i) flags in
      if folded then rest else (is_some (showdown_hole_of W m i) && rest)

  unfoldable pub drive_contested : LiveHand W → ℕ → Running W (Unit {0})
  drive_contested live seat = do
    let folded = folded_flags live.betting
    reveal_streets live.hand_no seat (flop ∷ turn ∷ river ∷ [])
    sync_community
    mucked ← lift (index folded seat)
    when (not mucked) (send_showdown live.hand_no seat)
    at_end ← the_live W
    m ← on_mental W (gets (λ m. m))
    when (length at_end.community == 5 && holes_shown m 0 folded) (settle W)

  unfoldable pub drive_showdown_and_settle : Running W (Unit {0})
  drive_showdown_and_settle = if_live W λ live. if_mental W live λ m.
      let active = length (keep not (folded_flags live.betting)) in
      let showdown = if leb active 1 then settle W else drive_contested live m.seat in
      if live.pending_settle
      then (if phase_eq m.phase ready then showdown else pure tt)
      else pure tt

  unfoldable pub pass : Running W (Unit {0})
  pass = do
    emit_phase_events
    emit_pending_deal_effect
    drive_community_and_betting
    drive_showdown_and_settle

  -- The `loop`, with the passes left; `panic` when they run out.
  unfoldable pub pump : ℕ → Running W (Unit {0})
  pump zero = lift panic
  pump (suc passes) = do
    before ← gets (λ s. s.step)
    pass
    same ← gets (λ s.
        length s.step.broadcasts == length before.broadcasts
        && length s.step.events == length before.events)
    settled ← gets (λ s. not (is_some s.table.live))
    let more = pump passes
    if same then pure tt else (if settled then pure tt else more)

  -- Every pass but the last makes a broadcast or an event. A hand has seven broadcasts of this peer
  -- (its key, its shuffle, and its tokens of five rounds) and eight events (three phases, its hole,
  -- three streets, and the end), so 16 passes are enough.
  unfoldable pub pump_mental : Running W (Unit {0})
  pump_mental = do is ← gets (λ s. is_mental_hand W s.table); when is (pump 16)
