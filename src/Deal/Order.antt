-- ===== src/Deal/Order.antt =====
-- deal/src/distributed.rs: the keys of a deal may arrive in any order.
use ten_cent_poker_client.Prelude.{
  ◌+◌, ◌≡◌, ◌≢◌, refl, sym, ap, ◌∙◌, Bool, true, false, not, ◌||◌, ◌&&◌, leb, if◌then◌else◌, List,
  [], ◌∷◌, Outcome, ok, err, panic, is_ok, Bool-cases, inl, inr,
}
use ten_cent_poker_client.Prelude.Exec.{fail_if, gets, modify, ◌>>=◌, ◌>>◌}
use ten_cent_poker_client.Prelude.Map.{insert_comm}
use ten_cent_poker_client.Deal.Scheme.{Scheme}
use ten_cent_poker_client.Deal.Peer.{
  KeyAnnouncement, PeerDeal, announce, checking, ingest_key, finalize_aggregate_key,
}
use ten_cent_poker_client.Deal.Encoding.{DealError, seat_mismatch}

module _ (C : Scheme) where
  open C use {scalar_eq, scalar_of}

  -- The announcements that a peer takes in, one after the other, and what is left of it; those that
  -- it refuses change nothing.
  unfoldable pub ingest_keys : List (KeyAnnouncement C) → PeerDeal C → PeerDeal C
  ingest_keys [] s = s
  ingest_keys (ann ∷ anns) s = ingest_keys anns (ingest_key C ann s).1

  -- Two lists of announcements in which those of each seat come in the same order.
  pub data Reorders : List (KeyAnnouncement C) → List (KeyAnnouncement C) → Type 0 where
    same : (anns : List (KeyAnnouncement C)) → Reorders anns anns
    later :
        (ann : KeyAnnouncement C) {anns others : List (KeyAnnouncement C)}
        → Reorders anns others
        → Reorders (ann ∷ anns) (ann ∷ others)
    exchange :
        (a b : KeyAnnouncement C) (anns : List (KeyAnnouncement C))
        → a.seat ≢ b.seat
        → Reorders (a ∷ b ∷ anns) (b ∷ a ∷ anns)
    compose :
        {anns others rest : List (KeyAnnouncement C)}
        → Reorders anns others
        → Reorders others rest
        → Reorders anns rest

  abbrev foreign : PeerDeal C → KeyAnnouncement C → Bool
  foreign s ann = leb s.num_players ann.seat || not (scalar_eq ann.info (scalar_of (ann.seat + 1)))

  abbrev proved : PeerDeal C → KeyAnnouncement C → Bool
  proved s ann = is_ok (C.verify_key_ownership s.parameters ann.public ann.info ann.proof)

  abbrev accepts : PeerDeal C → KeyAnnouncement C → Bool
  accepts s ann = not (foreign s ann) && proved s ann

  abbrev announced : KeyAnnouncement C → PeerDeal C → PeerDeal C
  announced ann s = announce C ann.seat (ann.public, ann.proof, ann.info) s

  module _ (f : PeerDeal C → PeerDeal C) (s : PeerDeal C) where
    checked :
        (r : Outcome C.CryptoError (Unit {0}))
        → ((checking C r >> modify f) s).1 ≡ (if is_ok r then f s else s)
    checked (ok u) = refl
    checked (err x) = refl
    checked panic = refl

    guarded_check :
        (b : Bool) (e : DealError C) (v : C.Parameters → Outcome C.CryptoError (Unit {0}))
        → ((fail_if b e
              >> (gets (λ (t : PeerDeal C). t.parameters) >>= λ p. checking C (v p) >> modify f))
            s).1
          ≡ (if not b && is_ok (v s.parameters) then f s else s)
    guarded_check true e v = refl
    guarded_check false e v = checked (v s.parameters)

  abbrev absorb : KeyAnnouncement C → PeerDeal C → PeerDeal C
  absorb ann s = (ingest_key C ann s).1

  module _ (ann : KeyAnnouncement C) (s : PeerDeal C) where
    absorb-accepts : absorb ann s ≡ (if accepts s ann then announced ann s else s)
    unfolding ingest_key
    absorb-accepts =
        guarded_check (announced ann) s (foreign s ann) (seat_mismatch ann.seat)
          (λ p. C.verify_key_ownership p ann.public ann.info ann.proof)

    accepted : accepts s ann ≡ true → absorb ann s ≡ announced ann s
    accepted h = absorb-accepts ∙ ap (λ (b : Bool). if b then announced ann s else s) h

    refused : accepts s ann ≡ false → absorb ann s ≡ s
    refused h = absorb-accepts ∙ ap (λ (b : Bool). if b then announced ann s else s) h

  absorb_comm :
      (a b : KeyAnnouncement C) (s : PeerDeal C)
      → a.seat ≢ b.seat
      → absorb b (absorb a s) ≡ absorb a (absorb b s)
  absorb_comm a b s apart = elim (Bool-cases (accepts s a)) [
    | inl ya ↦ elim (Bool-cases (accepts s b)) [
      | inl yb ↦
          ap (absorb b) (accepted a s ya)
          ∙ accepted b (announced a s) yb
          ∙ ap (λ m. record s { announced = m })
              (insert_comm b.seat (b.public, b.proof, b.info) a.seat (a.public, a.proof, a.info)
                s.announced (λ e. apart (sym e)))
          ∙ sym (accepted a (announced b s) ya)
          ∙ sym (ap (absorb a) (accepted b s yb))
      | inr nb ↦
          ap (absorb b) (accepted a s ya)
          ∙ refused b (announced a s) nb
          ∙ sym (accepted a s ya)
          ∙ sym (ap (absorb a) (refused b s nb))
    ]
    | inr na ↦ elim (Bool-cases (accepts s b)) [
      | inl yb ↦
          ap (absorb b) (refused a s na)
          ∙ accepted b s yb
          ∙ sym (refused a (announced b s) na)
          ∙ sym (ap (absorb a) (accepted b s yb))
      | inr nb ↦
          ap (absorb b) (refused a s na)
          ∙ refused b s nb
          ∙ sym (refused a s na)
          ∙ sym (ap (absorb a) (refused b s nb))
    ]
  ]

  -- Whatever the order in which the announcements of different seats arrive, if those of each seat
  -- come in the same order, the peer is left in the same state: with the same registered keys, and
  -- so with the same aggregate key. Announcements that it refuses may be among them.
  pub ingest_keys-Reorders :
      (anns others : List (KeyAnnouncement C)) (s : PeerDeal C)
      → Reorders anns others
      → (ingest_keys anns s ≡ ingest_keys others s)
        × (finalize_aggregate_key C (ingest_keys anns s)
            ≡ finalize_aggregate_key C (ingest_keys others s))
  unfolding ingest_keys
  ingest_keys-Reorders anns others s r = let e = states r s in (e, ap (finalize_aggregate_key C) e)
    where
      states :
          {xs ys : List (KeyAnnouncement C)}
          → Reorders xs ys
          → (s : PeerDeal C) → ingest_keys xs s ≡ ingest_keys ys s
      states (same xs) s = refl
      states (later a r) s = states r (absorb a s)
      states (exchange a b xs apart) s = ap (ingest_keys xs) (absorb_comm a b s apart)
      states (compose r q) s = states r s ∙ states q s
