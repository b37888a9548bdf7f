-- ===== src/Protocol/Table/Past.antt =====
-- protocol/src/table.rs: what a table has settled stays settled, whatever a peer does in a hand.
use ten_cent_poker_client.Prelude.{
  ℕ, zero, suc, ◌≤◌, ◌≡◌, Bool, true, Option, none, some, List, [], ◌∷◌, arith,
}
use ten_cent_poker_client.Prelude.Exec.{Keeps, keeps_rules, modify}
use ten_cent_poker_client.Betting.State.{Street, BettingState}
use ten_cent_poker_client.Betting.State as State
use ten_cent_poker_client.Protocol.Setting.{Setting, TableError, TableMessage, RevealRound}
use ten_cent_poker_client.Protocol.Mental.{
  MentalDeal, Mental, DealEffect, announce_key, shuffle_turn, reveal_hole, reveal_community,
  reveal_showdown,
}
use ten_cent_poker_client.Protocol.Table.{
  LiveHand, Deal, Run, Running, TableEvent, push_event, push_deal, the_live, if_live, if_mental,
  on_mental, put_live, placeholder, mental,
}
use ten_cent_poker_client.Protocol.Table.Settle.{
  deal_onto, deal_street_event, run_out, run_out_placeholder, settle, latest,
}
use ten_cent_poker_client.Protocol.Table.Pump.{
  taking, emit_phase_events, carry_out, emit_pending_deal_effect, send_community, announce_streets,
  sync_community, drive_community_and_betting, reveal_streets, send_showdown, drive_contested,
  drive_showdown_and_settle, pass, pump, pump_mental,
}
use ten_cent_poker_client.Protocol.Table.Advance.{
  set_betting, advance_streets, advance_streets_and_settle,
}

-- The hand `k` or a later one has been settled.
abbrev pub IsPast : ℕ → Option ℕ → Type 0
IsPast k none = ⊥
IsPast k (some done) = k ≤ done

-- A predicate of the last settled hand and of the host that the settling of any hand keeps.
pub record Lasting (W : Setting) : Type 1 where
  pub holds : Option ℕ → W.PeerId → Type 0
  pub later :
      (last : Option ℕ) (host : W.PeerId) (n : ℕ)
      → holds last host
      → holds (some (latest W last n)) host

module _ (W : Setting) where
  pub latest-IsPast :
      (k : ℕ) (last : Option ℕ) (n : ℕ) → IsPast k last → IsPast k (some (latest W last n))
  latest-IsPast k none n h = elim h [ ]
  latest-IsPast k (some d) n h = ground arith

  abbrev pub past_hand : ℕ → Lasting W
  past_hand k = record {
    holds = λ last host. IsPast k last;
    later = λ last host n h. latest-IsPast k last n h;
  }

  abbrev pub same_host : W.PeerId → Lasting W
  same_host host = record {
    holds = λ last h. W.peer_eq h host ≡ true;
    later = λ last h n same. same;
  }

module _ (W : Setting) (L : Lasting W) where
  abbrev pub Past : Run W → Type 0
  Past s = L.holds s.table.last_completed s.table.host

  pub Keeps-push_event : (e : TableEvent) → Keeps Past (push_event W e)
  unfolding push_event
  Keeps-push_event e = record { at = λ s h. h }

  pub Keeps-push_deal :
      (msg : TableMessage) (effect : DealEffect) → Keeps Past (push_deal W msg effect)
  unfolding push_deal
  Keeps-push_deal msg effect = record { at = λ s h. h }

  pub Keeps-the_live : Keeps Past (the_live W)
  unfolding the_live
  Keeps-the_live = search keeps_rules

  pub Keeps-if_live :
      (f : LiveHand W → Running W (Unit {0}))
      → ((live : LiveHand W) → Keeps Past (f live))
      → Keeps Past (if_live W f)
  unfolding if_live
  Keeps-if_live f kf = search keeps_rules

  pub Keeps-if_mental :
      (live : LiveHand W) (f : MentalDeal W → Running W (Unit {0}))
      → ((m : MentalDeal W) → Keeps Past (f m))
      → Keeps Past (if_mental W live f)
  unfolding if_mental
  Keeps-if_mental live f kf = search keeps_rules

  pub Keeps-put_live :
      (o : Option (LiveHand W)) → Keeps Past (modify {E = TableError W} (put_live W o))
  Keeps-put_live o = record { at = λ s h. h }

  pub Keeps-on_mental : {A : Type 0} (m : Mental W A) → Keeps Past (on_mental W m)
  unfolding on_mental
  Keeps-on_mental m = search (keeps_rules, Keeps-the_live, Keeps-put_live) depth 12

  ruleset past_rules = (
    keeps_rules, Keeps-push_event, Keeps-push_deal, Keeps-the_live, Keeps-if_live, Keeps-if_mental,
    Keeps-put_live, Keeps-on_mental,
  )

  pub Keeps-deal_onto :
      (live : LiveHand W) (deal : Deal W) (street : Street)
      → Keeps Past (deal_onto W live deal street)
  unfolding deal_onto
  Keeps-deal_onto live (mental m) street = search past_rules depth 12
  Keeps-deal_onto live (placeholder seed deck deck_idx hole) street = search past_rules depth 12

  pub Keeps-deal_street_event : (street : Street) → Keeps Past (deal_street_event W street)
  unfolding deal_street_event
  Keeps-deal_street_event street = search (past_rules, Keeps-deal_onto) depth 12

  pub Keeps-run_out : (rounds : ℕ) (street : Street) → Keeps Past (run_out W rounds street)
  unfolding run_out
  Keeps-run_out zero street = search past_rules depth 12
  Keeps-run_out (suc rounds) street =
      search (past_rules, Keeps-deal_street_event, Keeps-run_out rounds) depth 12

  pub Keeps-run_out_placeholder : (live : LiveHand W) → Keeps Past (run_out_placeholder W live)
  unfolding run_out_placeholder
  Keeps-run_out_placeholder live = search (past_rules, Keeps-run_out) depth 12

  settled-IsPast :
      (n : ℕ)
      → Keeps Past (
          modify {E = TableError W} (λ (s : Run W). record s {
            table = record s.table {
              live = none;
              last_completed = some (latest W s.table.last_completed n);
            };
          }))
  settled-IsPast n = record { at = λ s h. L.later s.table.last_completed s.table.host n h }

  pub Keeps-settle : Keeps Past (settle W)
  unfolding settle
  Keeps-settle = search (past_rules, Keeps-run_out_placeholder, settled-IsPast) depth 12

  pub Keeps-taking : (take : MentalDeal W → Bool × MentalDeal W) → Keeps Past (taking W take)
  unfolding taking
  Keeps-taking take = search past_rules depth 12

  pub Keeps-emit_phase_events : Keeps Past (emit_phase_events W)
  unfolding emit_phase_events
  Keeps-emit_phase_events = search (past_rules, Keeps-taking) depth 12

  pub Keeps-carry_out :
      (hand_no seat : ℕ) (effect : DealEffect) → Keeps Past (carry_out W hand_no seat effect)
  unfolding carry_out
  Keeps-carry_out hand_no seat announce_key = search past_rules depth 12
  Keeps-carry_out hand_no seat (shuffle_turn next) = search past_rules depth 12
  Keeps-carry_out hand_no seat reveal_hole = search past_rules depth 12
  Keeps-carry_out hand_no seat (reveal_community round) = search past_rules depth 12
  Keeps-carry_out hand_no seat reveal_showdown = search past_rules depth 12

  pub Keeps-emit_pending_deal_effect : Keeps Past (emit_pending_deal_effect W)
  unfolding emit_pending_deal_effect
  Keeps-emit_pending_deal_effect = search (past_rules, Keeps-carry_out) depth 12

  pub Keeps-send_community :
      (hand_no seat : ℕ) (round : RevealRound) → Keeps Past (send_community W hand_no seat round)
  unfolding send_community
  Keeps-send_community hand_no seat round = search past_rules depth 12

  pub Keeps-announce_streets :
      (hand_no revealed : ℕ) (streets : List (RevealRound × State.Street × ℕ))
      → Keeps Past (announce_streets W hand_no revealed streets)
  unfolding announce_streets
  Keeps-announce_streets hand_no revealed [] = search past_rules depth 12
  Keeps-announce_streets hand_no revealed ((round, street, count) ∷ streets) =
      let rest = Keeps-announce_streets hand_no revealed streets in
      search (past_rules, Keeps-taking) depth 12

  pub Keeps-sync_community : Keeps Past (sync_community W)
  unfolding sync_community
  Keeps-sync_community = search (past_rules, Keeps-announce_streets) depth 12

  pub Keeps-drive_community_and_betting : Keeps Past (drive_community_and_betting W)
  unfolding drive_community_and_betting
  Keeps-drive_community_and_betting =
      search (past_rules, Keeps-send_community, Keeps-sync_community) depth 12

  pub Keeps-reveal_streets :
      (hand_no seat : ℕ) (rounds : List RevealRound)
      → Keeps Past (reveal_streets W hand_no seat rounds)
  unfolding reveal_streets
  Keeps-reveal_streets hand_no seat [] = search past_rules depth 12
  Keeps-reveal_streets hand_no seat (round ∷ rounds) =
      let rest = Keeps-reveal_streets hand_no seat rounds in
      search (past_rules, Keeps-send_community) depth 12

  pub Keeps-send_showdown : (hand_no seat : ℕ) → Keeps Past (send_showdown W hand_no seat)
  unfolding send_showdown
  Keeps-send_showdown hand_no seat = search past_rules depth 12

  pub Keeps-drive_contested :
      (live : LiveHand W) (seat : ℕ) → Keeps Past (drive_contested W live seat)
  unfolding drive_contested
  Keeps-drive_contested live seat =
      search
        (past_rules, Keeps-reveal_streets, Keeps-sync_community, Keeps-send_showdown, Keeps-settle)
        depth 12

  pub Keeps-drive_showdown_and_settle : Keeps Past (drive_showdown_and_settle W)
  unfolding drive_showdown_and_settle
  Keeps-drive_showdown_and_settle =
      search (past_rules, Keeps-drive_contested, Keeps-settle) depth 12

  pub Keeps-pass : Keeps Past (pass W)
  unfolding pass
  Keeps-pass =
      search
        (
          past_rules, Keeps-emit_phase_events, Keeps-emit_pending_deal_effect,
          Keeps-drive_community_and_betting, Keeps-drive_showdown_and_settle,
        )
        depth 12

  pub Keeps-pump : (passes : ℕ) → Keeps Past (pump W passes)
  unfolding pump
  Keeps-pump zero = search past_rules depth 12
  Keeps-pump (suc passes) = let rest = Keeps-pump passes in search (past_rules, Keeps-pass) depth 12

  pub Keeps-pump_mental : Keeps Past (pump_mental W)
  unfolding pump_mental
  Keeps-pump_mental = search (past_rules, Keeps-pump) depth 12

  pub Keeps-set_betting : (b : BettingState) → Keeps Past (set_betting W b)
  unfolding set_betting
  Keeps-set_betting b = search past_rules depth 12

  pub Keeps-advance_streets : (rounds : ℕ) → Keeps Past (advance_streets W rounds)
  unfolding advance_streets
  Keeps-advance_streets zero = search past_rules depth 12
  Keeps-advance_streets (suc rounds) =
      let rest = Keeps-advance_streets rounds in
      search (past_rules, Keeps-set_betting, Keeps-pump_mental, Keeps-deal_street_event) depth 12

  pub Keeps-advance_streets_and_settle : Keeps Past (advance_streets_and_settle W)
  unfolding advance_streets_and_settle
  Keeps-advance_streets_and_settle =
      search (past_rules, Keeps-advance_streets, Keeps-pump_mental, Keeps-settle) depth 12
