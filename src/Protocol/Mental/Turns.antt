-- ===== src/Protocol/Mental/Turns.antt =====
-- protocol/src/mental.rs: the shuffles of a deal are counted in the order of the seats.
use ten_cent_poker_client.Prelude.{
  ℕ, suc, ◌+◌, ◌≡◌, refl, sym, ap, ◌∙◌, Bool, true, false, ◌&&◌, ◌||◌, not, ◌==◌, ==→eq, eq→==,
  ne→==, Outcome, is_ok, List, [], ◌∷◌, ◌++◌, length, range_from, if◌then◌else◌, arith, Bool-cases,
  inl, inr, ◌⊎◌,
}
use ten_cent_poker_client.Prelude.Exec.{Rejects}
use ten_cent_poker_client.Deal.Peer.{is_my_shuffle_turn}
use ten_cent_poker_client.Protocol.Setting.{Setting, TableError, deal_out_of_turn}
use ten_cent_poker_client.Protocol.Mental.{MentalDeal, Mental, phase_eq, shuffle}
use ten_cent_poker_client.Protocol.Mental.Messages.{make_shuffle, ingest_shuffle}
use ten_cent_poker_client.Protocol.Mental.Shuffles.{
  Keeps-make_key_announcement, Keeps-make_hole_reveal, Keeps-make_community_reveal,
  Keeps-make_showdown_reveal, Keeps-ingest_key, Keeps-ingest_reveal,
}
use ten_cent_poker_client.Protocol.Mental.Counts.{Counts-make_shuffle, Counts-take}
use ten_cent_poker_client.Protocol.Mental.Once.{
  DealCall, send_key, send_shuffle, send_hole, send_community, send_showdown, take_key,
  take_shuffle, take_reveal, deal_call, deal_calls,
}

-- The seats with `author` before them, when it is to be counted.
abbrev joined : (counted : Bool) (author later : List ℕ) → List ℕ
joined counted author later = if counted then author ++ later else later

or_true : (b : Bool) → (b || true) ≡ true
or_true true = refl
or_true false = refl

-- A count that stays, or goes up by the seat that is next, goes on through the seats that follow.
in_order :
    (done : Bool) (d' d : ℕ) (author later : List ℕ) (last : ℕ)
    → ((done ≡ false) × (d' ≡ d)) ⊎ ((d' ≡ suc d) × (author ≡ d ∷ []))
    → later ≡ range_from d' (length later)
    → last ≡ d' + length later
    → (joined (done || not (d' == d)) author later
        ≡ range_from d (length (joined (done || not (d' == d)) author later)))
      × (last ≡ d + length (joined (done || not (d' == d)) author later))
in_order done d' d author later last (inl (failed, same)) order count =
    rw (failed, eq→== d' d same)
      (order ∙ ap (λ (k : ℕ). range_from k (length later)) same, omega arith)
in_order done d' d author later last (inr (more, seat)) order count =
    rw (ne→== d' d (λ same. omega arith), or_true done, seat)
      (
        ap (λ (l : List ℕ). d ∷ l) (order ∙ ap (λ (k : ℕ). range_from k (length later)) more),
        omega arith,
      )

module _ (W : Setting) where
  -- The seat whose shuffle a call brings: the peer's own, or that of the sender.
  abbrev pub shuffler : DealCall → MentalDeal W → List ℕ
  shuffler send_shuffle s = s.peer.seat ∷ []
  shuffler (take_shuffle from_seat next payload) s = from_seat ∷ []
  shuffler send_key s = []
  shuffler send_hole s = []
  shuffler (send_community round) s = []
  shuffler send_showdown s = []
  shuffler (take_key from_seat payload) s = []
  shuffler (take_reveal from_seat round tokens) s = []

  -- Whether a call makes a shuffle, or takes that of another seat in, without an error. The echo of
  -- the peer's own shuffle is none.
  abbrev pub shuffles : DealCall → MentalDeal W → Bool
  shuffles send_shuffle s = is_ok (make_shuffle W s).0
  shuffles (take_shuffle from_seat next payload) s =
      is_ok (ingest_shuffle W from_seat next payload s).0 && not (from_seat == s.seat)
  shuffles send_key s = false
  shuffles send_hole s = false
  shuffles (send_community round) s = false
  shuffles send_showdown s = false
  shuffles (take_key from_seat payload) s = false
  shuffles (take_reveal from_seat round tokens) s = false

  -- The seats whose shuffles some calls bring, without an error or with another number of shuffles
  -- done behind them.
  abbrev pub shufflers : List DealCall → MentalDeal W → List ℕ
  shufflers [] s = []
  shufflers (c ∷ cs) s =
      let later = shufflers cs (deal_call W c s) in
      let counted = shuffles c s || not ((deal_call W c s).shuffles_done == s.shuffles_done) in
      joined counted (shuffler c s) later

  -- A call that brings no shuffle and leaves their number, or one of the seat that is next.
  abbrev IsNext : DealCall → MentalDeal W → MentalDeal W → Type 0
  IsNext c s s' =
      ((shuffles c s ≡ false) × (s'.shuffles_done ≡ s.shuffles_done))
      ⊎ ((s'.shuffles_done ≡ suc s.shuffles_done) × (shuffler c s ≡ s.shuffles_done ∷ []))

  module _ (s : MentalDeal W) where
    rejected :
        {A : Type 0} {m : Mental W A}
        → Rejects s m
        → (is_ok (m s).0 ≡ false) × ((m s).1.shuffles_done ≡ s.shuffles_done)
    rejected {A = A} r =
        let (e, same) = r.reported in
        (
          ap (λ (out : Outcome (TableError W) A × MentalDeal W). is_ok out.0) same,
          ap (λ (out : Outcome (TableError W) A × MentalDeal W). out.1.shuffles_done) same,
        )

    ingest_shuffle-Rejects :
        (from_seat next : ℕ) (payload : List ℕ)
        → (phase_eq s.phase shuffle && next == s.shuffles_done && from_seat == next) ≡ false
        → Rejects s (ingest_shuffle W from_seat next payload)
    unfolding ingest_shuffle
    ingest_shuffle-Rejects from_seat next payload h = elim (Bool-cases (phase_eq s.phase shuffle)) [
      | inl shuffling ↦ elim (Bool-cases (next == s.shuffles_done)) [
        | inl current ↦ elim (Bool-cases (from_seat == next)) [
          | inl author ↦ cc
          | inr other ↦ record { reported = (deal_out_of_turn, rw (shuffling, current, other)) }
        ]
        | inr other ↦ record { reported = (deal_out_of_turn, rw (shuffling, other)) }
      ]
      | inr other ↦ record { reported = (deal_out_of_turn, rw (other)) }
    ]

    make_shuffle-Rejects :
        is_my_shuffle_turn W.scheme s.peer s.shuffles_done ≡ false → Rejects s (make_shuffle W)
    unfolding make_shuffle
    make_shuffle-Rejects h = record { reported = (deal_out_of_turn, rw (h)) }

    own_turn :
        is_my_shuffle_turn W.scheme s.peer s.shuffles_done ≡ true
        → (s.peer.seat ∷ []) ≡ (s.shuffles_done ∷ [])
    unfolding is_my_shuffle_turn
    own_turn h = ap (λ (n : ℕ). n ∷ []) (sym (==→eq s.shuffles_done s.peer.seat h))

    make_shuffle-IsNext : IsNext send_shuffle s (make_shuffle W s).1
    make_shuffle-IsNext = elim (Bool-cases (is_my_shuffle_turn W.scheme s.peer s.shuffles_done)) [
      | inl mine ↦ elim ((Counts-make_shuffle W s.shuffles_done).at s refl) [
        | inl failed ↦ inl failed
        | inr more ↦ inr (more, own_turn mine)
      ]
      | inr other ↦ inl (rejected (make_shuffle-Rejects other))
    ]

    -- In its turn the shuffle of another seat is taken in, and the peer's own is let pass.
    ingest_shuffle-in_turn :
        (from_seat next : ℕ) (payload : List ℕ)
        → phase_eq s.phase shuffle ≡ true
        → (next == s.shuffles_done) ≡ true
        → (from_seat == next) ≡ true
        → IsNext
            (take_shuffle from_seat next payload)
            s
            (ingest_shuffle W from_seat next payload s).1
    unfolding ingest_shuffle
    ingest_shuffle-in_turn from_seat next payload shuffling current author =
        let e = ==→eq from_seat next author ∙ ==→eq next s.shuffles_done current in
        elim (Bool-cases (from_seat == s.seat)) [
          | inl own ↦ rw (shuffling, current, author, own) (inl (refl, refl))
          | inr other ↦
              rw (shuffling, current, author, other)
                (elim ((Counts-take W s.shuffles_done from_seat payload).at s refl) [
                  | inl (failed, same) ↦ inl (rw failed, same)
                  | inr more ↦ inr (more, ap (λ (seat : ℕ). seat ∷ []) e)
                ])
        ]

    deal_call-IsNext : (c : DealCall) → IsNext c s (deal_call W c s)
    unfolding deal_call
    deal_call-IsNext send_key = inl (refl, (Keeps-make_key_announcement W _).at s refl)
    deal_call-IsNext send_hole = inl (refl, (Keeps-make_hole_reveal W _).at s refl)
    deal_call-IsNext (send_community round) =
        inl (refl, (Keeps-make_community_reveal W _ round).at s refl)
    deal_call-IsNext send_showdown = inl (refl, (Keeps-make_showdown_reveal W _).at s refl)
    deal_call-IsNext (take_key from_seat payload) =
        inl (refl, (Keeps-ingest_key W _ from_seat payload).at s refl)
    deal_call-IsNext (take_reveal from_seat round tokens) =
        inl (refl, (Keeps-ingest_reveal W _ from_seat round tokens).at s refl)
    deal_call-IsNext send_shuffle = make_shuffle-IsNext
    deal_call-IsNext (take_shuffle from_seat next payload) =
        elim (Bool-cases
          (phase_eq s.phase shuffle && next == s.shuffles_done && from_seat == next)) [
            | inl due ↦
                ingest_shuffle-in_turn from_seat next payload (ground arith) (ground arith)
                  (ground arith)
            | inr not_due ↦
                let (failed, same) =
                  rejected (ingest_shuffle-Rejects from_seat next payload not_due) in
                inl (rw failed, same)
          ]

  -- In any run of the calls of a peer, the shuffles that it makes or takes in from another seat
  -- without an error, and all other calls that change the number of shuffles done, are those of
  -- the seats that follow, one after the other, from the first seat whose shuffle was missing: no
  -- seat is skipped, none shuffles twice or out of its turn, the peer itself included, and the
  -- number goes up by one for each.
  pub deal_calls-shufflers :
      (cs : List DealCall) (s : MentalDeal W)
      → (shufflers cs s ≡ range_from s.shuffles_done (length (shufflers cs s)))
        × ((deal_calls W cs s).shuffles_done ≡ s.shuffles_done + length (shufflers cs s))
  unfolding deal_calls
  deal_calls-shufflers [] s = (refl, omega arith)
  deal_calls-shufflers (c ∷ cs) s =
      let s' = deal_call W c s in
      let (order, count) = deal_calls-shufflers cs s' in
      in_order (shuffles c s) s'.shuffles_done s.shuffles_done (shuffler c s) (shufflers cs s')
        (deal_calls W cs s').shuffles_done (deal_call-IsNext s c) order count
