-- ===== src/Protocol/Table/Authority.antt =====
-- protocol/src/table.rs: who may send which message. libp2p authenticates the author of a message,
-- `from`; the table decides what the author may do.
use ten_cent_poker_client.Prelude.{
  ℕ, ◌≡◌, refl, subst, Bool, true, false, ◌&&◌, not, ◌==◌, Option, none, some, List, get_elem?,
  index-ok,
}
use ten_cent_poker_client.Prelude.Exec.{
  gets, or_fail, fail_if, ◌>>=◌, Rejects, Reads, or_fail-Reads, or_fail-some, Rejects-then,
  Rejects-start, Rejects-unless,
}
use ten_cent_poker_client.Protocol.Setting.{
  Setting, TableError, TableMessage, not_host, deal_author, act_out_of_turn, no_hand_in_progress,
  join_table, start_hand, act, start_mental_hand, key_announce, shuffle_announce, reveal_announce,
  hand_complete, deal_payload,
}
use ten_cent_poker_client.Protocol.Bot.{WireAction}
use ten_cent_poker_client.Protocol.Mental.{Mental}
use ten_cent_poker_client.Protocol.Table.{
  Table, LiveHand, Run, Running, deal_seat_of, betting_open, is_mental, new_step,
}
use ten_cent_poker_client.Protocol.Table.Handle.{
  handle, dispatch, apply_start_hand, apply_start_mental_hand, apply_act, check_mental_msg,
  apply_to_deal, apply_key_announce, apply_shuffle_announce, apply_reveal_announce, is_seat,
  stepping, live_or,
}

and_last : (a b c : Bool) → a ≡ true → b ≡ true → (a && b) && c ≡ false → c ≡ false
and_last true true c ea eb h = h
and_last true false c ea eb h = cc
and_last false b c ea eb h = cc

and_next : (a b c : Bool) → a ≡ true → b ≡ true → a && (b && c) ≡ false → c ≡ false
and_next true true c ea eb h = h
and_next true false c ea eb h = cc
and_next false b c ea eb h = cc

module _ (W : Setting) where
  open W use {PeerId, peer_eq}

  -- The owner of the seat to act, in a table whose roster has that seat.
  abbrev owns : Option PeerId → PeerId → Bool
  owns none from = true
  owns (some owner) from = peer_eq from owner

  abbrev owns_seat : List PeerId → Option ℕ → PeerId → Bool
  owns_seat roster none from = false
  owns_seat roster (some seat) from = owns (get_elem? roster seat) from

  -- The action is for the live hand, its betting is open, and it is the owner's turn.
  abbrev may_act : List PeerId → Option (LiveHand W) → ℕ → PeerId → Bool
  may_act roster none hand_no from = false
  may_act roster (some live) hand_no from =
      hand_no == live.hand_no && (betting_open W live && owns_seat roster live.betting.to_act from)

  -- The live hand is the one of the message, and its cards are dealt by the peers.
  abbrev is_dealt : Option (LiveHand W) → ℕ → Bool
  is_dealt none hand_no = false
  is_dealt (some live) hand_no = is_mental W live.deal && hand_no == live.hand_no

  abbrev may_deal : Table W → ℕ → ℕ → PeerId → Bool
  may_deal t hand_no seat from = is_dealt t.live hand_no && is_seat W (deal_seat_of W t from) seat

  -- Only the host starts a hand, only the owner of the seat to act acts, in the live hand and while
  -- its betting is open, and a part of the deal comes from the owner of the seat that it is for, in
  -- a live hand that the peers deal. The other messages change nothing.
  abbrev pub is_authorised : Table W → TableMessage → PeerId → Bool
  is_authorised t (join_table name) from = true
  is_authorised t (deal_payload hand_no payload) from = true
  is_authorised t (hand_complete hand_no result) from = true
  is_authorised t (start_hand hand_no button seed seats stacks sb bb) from = peer_eq from t.host
  is_authorised t (start_mental_hand hand_no button session seats stacks sb bb) from =
      peer_eq from t.host
  is_authorised t (act hand_no action) from = may_act t.roster t.live hand_no from
  is_authorised t (key_announce hand_no seat payload) from = may_deal t hand_no seat from
  is_authorised t (shuffle_announce hand_no turn payload) from = may_deal t hand_no turn from
  is_authorised t (reveal_announce hand_no seat round tokens) from = may_deal t hand_no seat from

  live_or-Reads : (s : Run W) (e : TableError W) → Reads s (live_or W e)
  unfolding live_or
  live_or-Reads s e = record { outcome = or_fail-Reads s s.table.live e }

  author-Rejects :
      (from : PeerId) (seat : ℕ) (s : Run W)
      → is_seat W (deal_seat_of W s.table from) seat ≡ false
      → Rejects {E = TableError W} s (do
        author ← gets (λ (s : Run W). deal_seat_of W s.table from)
        fail_if (not (is_seat W author seat)) deal_author)
  author-Rejects from seat s h = record { reported = (deal_author, rw (h)) }

  check-Rejects :
      (from : PeerId) (hand_no seat : ℕ) (s : Run W)
      → may_deal s.table hand_no seat from ≡ false
      → Rejects s (check_mental_msg W from hand_no seat)
  unfolding check_mental_msg live_or
  check-Rejects from hand_no seat s h = Rejects-then s _ _ (live_or-Reads s _) λ live e.
      let at_live : (is_mental W live.deal && hand_no == live.hand_no)
            && is_seat W (deal_seat_of W s.table from) seat
          ≡ false =
        subst (λ o. is_dealt o hand_no && is_seat W (deal_seat_of W s.table from) seat ≡ false)
          (or_fail-some s s.table.live _ e) h in
      Rejects-unless s (is_mental W live.deal) _ _ λ dealt.
        Rejects-unless s (hand_no == live.hand_no) _ _ λ current.
          author-Rejects from seat s
            (and_last (is_mental W live.deal) (hand_no == live.hand_no) _ dealt current at_live)

  owner_Rejects :
      (from : PeerId) (s : Run W) (live : LiveHand W) (f : ℕ → Running W (Unit {0}))
      → owns_seat s.table.roster live.betting.to_act from ≡ false
      → ((seat : ℕ) → owns (get_elem? s.table.roster seat) from ≡ false → Rejects s (f seat))
      → Rejects s (or_fail live.betting.to_act no_hand_in_progress >>= f)
  owner_Rejects from s live f h k =
      Rejects-then s _ f
        (record { outcome = or_fail-Reads s live.betting.to_act no_hand_in_progress })
        λ seat e. k seat (
          subst (λ o. owns_seat s.table.roster o from ≡ false)
            (or_fail-some s live.betting.to_act no_hand_in_progress e) h)

  owner-cases :
      (o : Option PeerId) (from : PeerId)
      → owns o from ≡ false
      → (owner : PeerId) × (o ≡ some owner) × (peer_eq from owner ≡ false)
  owner-cases none from h = cc
  owner-cases (some owner) from h = (owner, refl, h)

  act-Rejects :
      (from : PeerId) (hand_no : ℕ) (action : WireAction) (s : Run W)
      → may_act s.table.roster s.table.live hand_no from ≡ false
      → Rejects s (apply_act W from hand_no action)
  unfolding apply_act live_or
  act-Rejects from hand_no action s h = Rejects-then s _ _ (live_or-Reads s _) λ live e.
      let at_live =
        subst (λ o. may_act s.table.roster o hand_no from ≡ false) (or_fail-some s s.table.live _ e)
          h in
      Rejects-unless s (hand_no == live.hand_no) _ _ λ current.
        Rejects-unless s (betting_open W live) _ _ λ opened.
          owner_Rejects from s live _
            (and_next (hand_no == live.hand_no) (betting_open W live) _ current opened at_live)
            λ seat at_seat.
              let (owner, e, apart) = owner-cases (get_elem? s.table.roster seat) from at_seat in
              record {
                reported = (
                  act_out_of_turn from seat owner,
                  rw (index-ok {E = TableError W} s.table.roster seat e, apart),
                );
              }

  stepping-Rejects :
      (t : Table W) (m : Running W (Unit {0}))
      → Rejects (record { table = t; step = new_step }) m
      → Rejects t (stepping W m)
  unfolding stepping
  stepping-Rejects t m r = let (e, h) = r.reported in record { reported = (e, rw (h)) }

  deal-Rejects :
      (from : PeerId) (hand_no seat : ℕ) (ingest : Mental W (Unit {0})) (t : Table W)
      → may_deal t hand_no seat from ≡ false
      → Rejects t (stepping W (apply_to_deal W from hand_no seat ingest))
  unfolding apply_to_deal
  deal-Rejects from hand_no seat ingest t h =
      stepping-Rejects t _ (Rejects-start _ _ _ (check-Rejects from hand_no seat _ h))

  -- A message whose author may not send it is answered with an error and changes nothing: a start of
  -- a hand that is not the host's, an action that is not the owner's of the seat to act, that is for
  -- another hand or that comes before the betting is open, and a part of the deal that is not the
  -- owner's of the seat that it is for, or not for the live hand, or for a hand that is not dealt by
  -- the peers.
  pub handle-Rejects :
      (g : W.scheme.Rng) (t : Table W) (msg : TableMessage) (from : PeerId)
      → is_authorised t msg from ≡ false
      → Rejects t (handle W g msg from)
  unfolding handle stepping dispatch apply_start_hand apply_start_mental_hand apply_key_announce
      apply_shuffle_announce apply_reveal_announce
  handle-Rejects g t (start_hand hand_no button seed seats stacks sb bb) from h = record {
    reported = (not_host from, rw (h));
  }
  handle-Rejects g t (start_mental_hand hand_no button session seats stacks sb bb) from h = record {
    reported = (not_host from, rw (h));
  }
  handle-Rejects g t (act hand_no action) from h =
      stepping-Rejects t _ (act-Rejects from hand_no action _ h)
  handle-Rejects g t (key_announce hand_no seat payload) from h =
      deal-Rejects from hand_no seat _ t h
  handle-Rejects g t (shuffle_announce hand_no turn payload) from h =
      deal-Rejects from hand_no turn _ t h
  handle-Rejects g t (reveal_announce hand_no seat round tokens) from h =
      deal-Rejects from hand_no seat _ t h
  handle-Rejects g t (join_table name) from h = cc
  handle-Rejects g t (deal_payload hand_no payload) from h = cc
  handle-Rejects g t (hand_complete hand_no result) from h = cc
