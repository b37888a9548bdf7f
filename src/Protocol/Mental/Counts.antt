-- ===== src/Protocol/Mental/Counts.antt =====
-- protocol/src/mental.rs: a shuffle that the peer makes or takes in adds one to the shuffles done.
use ten_cent_poker_client.Prelude.{
  ℕ, suc, ◌≡◌, refl, ap, false, not, ◌==◌, Outcome, is_ok, ok, err, panic, List, inl, inr, ◌⊎◌,
}
use ten_cent_poker_client.Prelude.Exec.{fail_if, Keeps, modify, continue, ◌>>=◌, ◌>>◌}
use ten_cent_poker_client.Deal.Wire.{deserialize_shuffle}
use ten_cent_poker_client.Deal.Peer as Peer
use ten_cent_poker_client.Deal.Peer.{is_my_shuffle_turn}
use ten_cent_poker_client.Protocol.Setting.{Setting, TableError, deal_author}
use ten_cent_poker_client.Protocol.Mental.{MentalDeal, Mental, on_peer, or_deal2}
use ten_cent_poker_client.Protocol.Mental.Messages.{maybe_ready, make_shuffle}
use ten_cent_poker_client.Protocol.Mental.Shuffles.{Done, done_rules, Keeps-maybe_ready}

-- A failure behind which the number of shuffles done is `n`, or one shuffle more.
abbrev pub Advanced :
    (W : Setting) (n : ℕ) {A : Type 0} → Outcome (TableError W) A × MentalDeal W → Type 0
Advanced W n (r, s) = ((is_ok r ≡ false) × Done W n s) ⊎ Done W (suc n) s

module _ (W : Setting) (n : ℕ) where
  -- With `n` shuffles done the method fails and leaves as many, or there is one more.
  pub record Counts {A : Type 0} (m : Mental W A) : Type 0 where
    pub at : (s : MentalDeal W) → Done W n s → Advanced W n (m s)

  Counts-bind :
      {A B : Type 0} (m : Mental W A) (f : A → Mental W B)
      → Keeps (Done W n) m
      → ((a : A) → Counts (f a))
      → Counts (m >>= f)
  Counts-bind {A = A} m f km kf = record { at = λ s h. counted (m s).0 (m s).1 (km.at s h) }
    where
      counted :
          (r : Outcome (TableError W) A) (s : MentalDeal W)
          → Done W n s
          → Advanced W n (continue r f s)
      counted (ok a) s h = (kf a).at s h
      counted (err e) s h = inl (refl, h)
      counted panic s h = inl (refl, h)

  Counts-next :
      {A B : Type 0} (m : Mental W A) (m' : Mental W B)
      → Keeps (Done W n) m
      → Counts m'
      → Counts (m >> m')
  Counts-next m m' km k = Counts-bind m (λ a. m') km (λ a. k)

  -- The count goes up, and what follows leaves it.
  Counts-more :
      {A : Type 0} (f : MentalDeal W → MentalDeal W) (m : Mental W A)
      → ((s : MentalDeal W) → Done W n s → Done W (suc n) (f s))
      → Keeps (Done W (suc n)) m
      → Counts (modify f >> m)
  Counts-more f m up k = record { at = λ s h. inr (k.at (f s) (up s h)) }

  one_more : {k : ℕ} → k ≡ n → suc k ≡ suc n
  one_more e = ap suc e

  ruleset counts_rules =
      (Counts-more, Counts-next, Counts-bind, one_more, done_rules, Keeps-maybe_ready)

  pub Counts-make_shuffle : Counts (make_shuffle W)
  unfolding make_shuffle
  Counts-make_shuffle = search counts_rules depth 16

  -- What `ingest_shuffle` does with the shuffle of another seat whose turn it is.
  pub Counts-take :
      (from_seat : ℕ) (payload : List ℕ)
      → Counts (do
        msg ← or_deal2 W (deserialize_shuffle W.scheme W.card_codec W.shuffle_proof_codec payload)
        fail_if (not (msg.seat == from_seat)) deal_author
        on_peer W (Peer.ingest_shuffle W.scheme msg)
        modify (λ s. record s { shuffles_done = suc s.shuffles_done })
        maybe_ready W)
  Counts-take from_seat payload = search counts_rules depth 16
