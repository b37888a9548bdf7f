-- ===== src/Protocol/Table/Replay.antt =====
-- protocol/src/table.rs: a hand that has ended is never played again.
use ten_cent_poker_client.Prelude.{ℕ, suc, Option, none, some, List, [], ◌∷◌, Outcome}
use ten_cent_poker_client.Prelude.Exec.{
  Keeps, keeps_rules, modify, or_fail, gets, Keeps-next, Keeps-gets,
}
use ten_cent_poker_client.Betting.State.{BettingState}
use ten_cent_poker_client.Protocol.Setting.{
  Setting, TableError, TableMessage, join_table, start_hand, act, start_mental_hand, key_announce,
  shuffle_announce, reveal_announce, hand_complete, deal_payload,
}
use ten_cent_poker_client.Protocol.Bot.{WireAction}
use ten_cent_poker_client.Protocol.Mental.{Mental}
use ten_cent_poker_client.Protocol.Table.{Table, Deal, LiveHand, Run, Running, new_step}
use ten_cent_poker_client.Protocol.Table.Handle.{
  stepping, live_or, parse_roster, validate_start, begin_hand, apply_start_hand, starting_deal,
  apply_start_mental_hand, apply_act, check_mental_msg, apply_to_deal, apply_key_announce,
  apply_shuffle_announce, apply_reveal_announce, dispatch, handle, take_local_turn, local_turn,
  local_deal_step,
}
use ten_cent_poker_client.Protocol.Table.Past.{
  Lasting, Past, Keeps-push_event, Keeps-on_mental, Keeps-pump_mental, Keeps-set_betting,
  Keeps-advance_streets_and_settle,
}

module _ (W : Setting) (L : Lasting W) where
  open W use {PeerId}

  Keeps-live_or : (e : TableError W) → Keeps (Past W L) (live_or W e)
  unfolding live_or
  Keeps-live_or e = record { at = λ s h. at_live s s.table.live h }
    where
      at_live : (s : Run W) (o : Option (LiveHand W)) → Past W L s → Past W L (or_fail o e s).1
      at_live s none h = h
      at_live s (some live) h = h

  Keeps-begin_hand :
      (hand_no button : ℕ) (roster : List PeerId) (stacks : List ℕ) (deal : Deal W)
      (state : BettingState)
      → Keeps (Past W L) (begin_hand W hand_no button roster stacks deal state)
  unfolding begin_hand
  Keeps-begin_hand hand_no button roster stacks deal state =
      search (keeps_rules, Keeps-push_event W L, started-IsPast)
    where
      started-IsPast :
          (live : Option (LiveHand W))
          → Keeps {E = TableError W} (Past W L) (
              modify (λ (s : Run W). record s {
                table = record s.table { roster = roster; live = live };
              }))
      started-IsPast live = record { at = λ s h. h }

  ruleset replay_rules = (
    keeps_rules, Keeps-push_event, Keeps-on_mental, Keeps-pump_mental, Keeps-set_betting,
    Keeps-advance_streets_and_settle, Keeps-live_or, Keeps-begin_hand,
  )

  Keeps-parse_roster : (i : ℕ) (seats : List (List ℕ)) → Keeps (Past W L) (parse_roster W i seats)
  unfolding parse_roster
  Keeps-parse_roster i [] = search replay_rules
  Keeps-parse_roster i (bytes ∷ seats) =
      let rest = Keeps-parse_roster (suc i) seats in search replay_rules depth 12

  Keeps-validate_start :
      (seats : List (List ℕ)) (stacks : List ℕ) → Keeps (Past W L) (validate_start W seats stacks)
  unfolding validate_start
  Keeps-validate_start seats stacks = search (replay_rules, Keeps-parse_roster) depth 12

  Keeps-starting_deal :
      (g : W.scheme.Rng) (session : List ℕ) (seat n button : ℕ)
      → Keeps (Past W L) (starting_deal W g session seat n button)
  unfolding starting_deal
  Keeps-starting_deal g session seat n button = search replay_rules

  Keeps-check :
      (from : PeerId) (hand_no seat : ℕ) → Keeps (Past W L) (check_mental_msg W from hand_no seat)
  unfolding check_mental_msg
  Keeps-check from hand_no seat = search replay_rules depth 12

  Keeps-apply_to_deal :
      (from : PeerId) (hand_no seat : ℕ) (ingest : Mental W (Unit {0}))
      → Keeps (Past W L) (apply_to_deal W from hand_no seat ingest)
  unfolding apply_to_deal
  Keeps-apply_to_deal from hand_no seat ingest = search (replay_rules, Keeps-check) depth 12

  Keeps-dispatch :
      (g : W.scheme.Rng) (msg : TableMessage) (from : PeerId)
      → Keeps (Past W L) (dispatch W g msg from)
  unfolding dispatch apply_start_hand apply_start_mental_hand apply_act apply_key_announce
      apply_shuffle_announce apply_reveal_announce
  Keeps-dispatch g (start_hand hand_no button seed seats stacks sb bb) from =
      search (replay_rules, Keeps-validate_start) depth 16
  Keeps-dispatch g (start_mental_hand hand_no button session seats stacks sb bb) from =
      search (replay_rules, Keeps-validate_start, Keeps-starting_deal) depth 16
  Keeps-dispatch g (act hand_no action) from = search replay_rules depth 16
  Keeps-dispatch g (key_announce hand_no seat payload) from = search Keeps-apply_to_deal
  Keeps-dispatch g (shuffle_announce hand_no turn payload) from = search Keeps-apply_to_deal
  Keeps-dispatch g (reveal_announce hand_no seat round tokens) from = search Keeps-apply_to_deal
  Keeps-dispatch g (join_table name) from = search replay_rules
  Keeps-dispatch g (deal_payload hand_no payload) from = search replay_rules
  Keeps-dispatch g (hand_complete hand_no result) from = search replay_rules

  Keeps-local_turn_steps :
      (decide : BettingState → ℕ → Outcome (TableError W) WireAction)
      → Keeps (Past W L) (take_local_turn W decide)
  unfolding take_local_turn
  Keeps-local_turn_steps decide = search (replay_rules, pushed) depth 16
    where
      pushed :
          (msgs : List TableMessage)
          → Keeps {E = TableError W}
              (Past W L)
              (modify (λ (s : Run W). record s { step = record s.step { broadcasts = msgs } }))
      pushed msgs = record { at = λ s h. h }

-- What a peer's driver does with its table.
pub data Call (W : Setting) : Type 0 where
  receive : W.scheme.Rng → TableMessage → W.PeerId → Call W
  take_turn : (BettingState → ℕ → Outcome (TableError W) WireAction) → Call W
  deal_step : Call W

module _ (W : Setting) where
  -- The table after a call, and after several.
  unfoldable pub call : Call W → Table W → Table W
  call (receive g msg from) t = (handle W g msg from t).1
  call (take_turn decide) t = (local_turn W decide t).1
  call deal_step t = (local_deal_step W t).1

  unfoldable pub calls : List (Call W) → Table W → Table W
  calls [] t = t
  calls (c ∷ cs) t = calls cs (call c t)

  -- A step keeps what lasts, and so does every call.
  pub stepping-Lasting :
      (L : Lasting W) (m : Running W (Unit {0})) (t : Table W)
      → Keeps (Past W L) m
      → L.holds t.last_completed t.host
      → L.holds (stepping W m t).1.last_completed (stepping W m t).1.host
  unfolding stepping
  stepping-Lasting L m t km h =
      (Keeps-next m (gets (λ (s : Run W). s.step)) km (Keeps-gets (λ (s : Run W). s.step))).at
        (record { table = t; step = new_step }) h

  pub call-Lasting :
      (L : Lasting W) (c : Call W) (t : Table W)
      → L.holds t.last_completed t.host
      → L.holds (call c t).last_completed (call c t).host
  unfolding call handle local_turn local_deal_step
  call-Lasting L (receive g msg from) t h = stepping-Lasting L _ t (Keeps-dispatch W L g msg from) h
  call-Lasting L (take_turn decide) t h =
      stepping-Lasting L _ t (Keeps-local_turn_steps W L decide) h
  call-Lasting L deal_step t h = stepping-Lasting L _ t (Keeps-pump_mental W L) h
