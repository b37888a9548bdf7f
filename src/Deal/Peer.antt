-- ===== src/Deal/Peer.antt =====
-- deal/src/distributed.rs: `PeerDeal`, one peer's replica of the distributed deal. The generator that
-- the callers hand to the methods, the thread's own, is the field `rng` here.
use ten_cent_poker_client.Prelude.{
  ℕ, zero, suc, ◌+◌, ◌*◌, Bool, not, ◌||◌, Option, none, some, List, [], ◌∷◌, ◌++◌, leb, ◌==◌,
  Outcome, ok, length, get_elem?, u64_mod, ◌-◌,
}
use ten_cent_poker_client.Prelude.Exec.{
  Exec, pure, lift, gets, modify, fail_if, or_fail, map_err, ◌>>=◌, ◌>>◌,
}
use ten_cent_poker_client.Prelude.Map
use ten_cent_poker_client.Prelude.Map.{Map}
use ten_cent_poker_client.Cards.{Card}
use ten_cent_poker_client.Deal.Scheme.{Scheme}
use ten_cent_poker_client.Deal.Encoding.{
  DealError, protocol, verification, unknown_card, bad_deck_size, bad_position, seat_mismatch,
  CardEncoding, deck_size, new_encoding, open_deck, decode,
}

-- `usize::MAX`
abbrev pub usize_max : ℕ
usize_max = u64_mod - 1

module _ (C : Scheme) where
  open C use {
    Rng, Parameters, PublicKey, SecretKey, Scalar, Plaintext, MaskedCard, RevealToken, KeyProof,
    ShuffleProof, RevealProof, scalar_of, scalar_eq,
  }

  pub record KeyAnnouncement : Type 0 where
    pub seat : ℕ
    pub public : PublicKey
    pub proof : KeyProof
    pub info : Scalar

  pub record ShuffleMessage : Type 0 where
    pub seat : ℕ
    pub deck : List MaskedCard
    pub proof : ShuffleProof

  pub record RevealMessage : Type 0 where
    pub seat : ℕ
    pub position : ℕ
    pub token : RevealToken
    pub proof : RevealProof
    pub public : PublicKey

  -- A seat's key with its proof and info.
  abbrev pub Announced : Type 0
  Announced = PublicKey × KeyProof × Scalar

  pub record PeerDeal : Type 0 where
    pub parameters : Parameters
    pub encoding : CardEncoding C
    pub num_players : ℕ
    pub seat : ℕ
    pub info : Scalar
    pub secret : SecretKey
    pub public : PublicKey
    pub announced : Map Announced
    pub aggregate_key : Option PublicKey
    pub deck : List MaskedCard
    pub rng : Rng

  abbrev pub Peer : Type 0 → Type 0
  Peer A = Exec PeerDeal (DealError C) A

  -- A call of the protocol that draws, and the check of a proof.
  abbrev pub drawing : {A : Type 0} → Exec Rng C.ProtocolError A → Peer A
  drawing m s = let (r, g) = m s.rng in (map_err protocol r, record s { rng = g })

  abbrev pub checking : {A : Type 0} → Outcome C.CryptoError A → Peer A
  checking r s = (map_err verification r, s)

  -- `PeerDeal::new`: the generator is the state.
  unfoldable pub new : List ℕ → ℕ → ℕ → ℕ → ℕ → Exec Rng (DealError C) PeerDeal
  new session_seed m n seat num_players = do
    fail_if (not (m * n == deck_size)) (bad_deck_size (m * n))
    fail_if (leb num_players seat) (bad_position seat)
    parameters ← lift (map_err protocol (C.setup m n (C.from_seed session_seed)).0)
    keys ← λ g. let (r, g') = C.player_keygen parameters g in (map_err protocol r, g')
    encoding ← lift (new_encoding C)
    gets (λ g. record {
      parameters = parameters;
      encoding = encoding;
      num_players = num_players;
      seat = seat;
      info = scalar_of (seat + 1);
      secret = keys.1;
      public = keys.0;
      announced = [];
      aggregate_key = none;
      deck = [];
      rng = g;
    })

  unfoldable pub registered_public : PeerDeal → ℕ → Option PublicKey
  registered_public s seat = elim (Map.get s.announced seat) [
    | none ↦ none
    | some announced ↦ some announced.0
  ]

  -- `self.announced.insert(seat, …)`
  abbrev pub announce : ℕ → Announced → PeerDeal → PeerDeal
  announce seat a s = record s { announced = Map.insert seat a s.announced }

  unfoldable pub key_announcement : Peer KeyAnnouncement
  key_announcement = do
    proof ← λ s.
        let (r, g) = C.prove_key_ownership s.parameters s.public s.secret s.info s.rng in
        (map_err verification r, record s { rng = g })
    modify (λ s. announce s.seat (s.public, proof, s.info) s)
    gets (λ s. record { seat = s.seat; public = s.public; proof = proof; info = s.info })

  unfoldable pub ingest_key : KeyAnnouncement → Peer (Unit {0})
  ingest_key ann = do
    foreign ←
        gets
          (λ s. leb s.num_players ann.seat || not (scalar_eq ann.info (scalar_of (ann.seat + 1))))
    fail_if foreign (seat_mismatch ann.seat)
    parameters ← gets (λ s. s.parameters)
    checking (C.verify_key_ownership parameters ann.public ann.info ann.proof)
    modify (announce ann.seat (ann.public, ann.proof, ann.info))

  unfoldable pub all_keys_in : PeerDeal → Bool
  all_keys_in s = length s.announced == s.num_players

  unfoldable pub finalize_aggregate_key : Peer PublicKey
  finalize_aggregate_key = do
    complete ← gets all_keys_in
    missing ← gets (λ s. bad_position (length s.announced))
    fail_if (not complete) missing
    called ← gets (λ s. C.compute_aggregate_key s.parameters (Map.values s.announced))
    aggregate ← lift (map_err protocol called)
    modify (λ s. record s { aggregate_key = some aggregate })
    pure aggregate

  -- `self.aggregate_key.ok_or(…)?`
  abbrev pub the_aggregate : Peer PublicKey
  the_aggregate s = or_fail s.aggregate_key (bad_position usize_max) s

  -- The loop of `mask_initial_deck`, with the throwaway generator as the state.
  unfoldable pub mask_all :
      Parameters
      → PublicKey
      → List Plaintext
      → List MaskedCard
      → Exec Rng (DealError C) (List MaskedCard)
  mask_all parameters aggregate [] deck = pure deck
  mask_all parameters aggregate (card ∷ cards) deck = do
    masked ← λ g.
        let (r, g') = C.mask parameters aggregate card C.scalar_zero g in (map_err protocol r, g')
    lift (map_err verification (C.verify_mask parameters aggregate card masked.0 masked.1))
    mask_all parameters aggregate cards (deck ++ masked.0 ∷ [])

  -- 32 zero bytes
  abbrev pub zero_seed : ℕ → List ℕ
  zero_seed zero = []
  zero_seed (suc n) = 0 ∷ zero_seed n

  unfoldable pub mask_initial_deck : Peer (Unit {0})
  mask_initial_deck = do
    aggregate ← the_aggregate
    masked ← gets (λ s.
        mask_all s.parameters aggregate (open_deck C s.encoding) [] (C.from_seed (zero_seed 32)))
    deck ← lift masked.0
    modify (λ s. record s { deck = deck })

  unfoldable pub is_my_shuffle_turn : PeerDeal → ℕ → Bool
  is_my_shuffle_turn s shuffles_done = shuffles_done == s.seat

  unfoldable pub shuffle : Peer ShuffleMessage
  shuffle = do
    aggregate ← the_aggregate
    permutation ←
        λ s. let (p, g) = C.new_permutation deck_size s.rng in (ok p, record s { rng = g })
    factors ← λ s. let (f, g) = C.sample_vector deck_size s.rng in (ok f, record s { rng = g })
    old ← gets (λ s. s.deck)
    parameters ← gets (λ s. s.parameters)
    shuffled ← drawing (C.shuffle_and_remask parameters aggregate old factors permutation)
    checking (C.verify_shuffle parameters aggregate old shuffled.0 shuffled.1)
    modify (λ s. record s { deck = shuffled.0 })
    gets (λ s. record { seat = s.seat; deck = shuffled.0; proof = shuffled.1 })

  unfoldable pub ingest_shuffle : ShuffleMessage → Peer (Unit {0})
  ingest_shuffle msg = do
    aggregate ← the_aggregate
    verdict ← gets (λ s. C.verify_shuffle s.parameters aggregate s.deck msg.deck msg.proof)
    checking verdict
    modify (λ s. record s { deck = msg.deck })

  -- `self.deck.get(position).ok_or(…)?`
  abbrev pub masked_at : ℕ → Peer MaskedCard
  masked_at position s = or_fail (get_elem? s.deck position) (bad_position position) s

  -- A token of this peer's for a position, verified before it is handed out.
  unfoldable pub own_token : ℕ → Peer (RevealToken × RevealProof)
  own_token position = do
    masked ← masked_at position
    parameters ← gets (λ s. s.parameters)
    public ← gets (λ s. s.public)
    made ← λ s. drawing (C.compute_reveal_token s.parameters s.secret s.public masked) s
    checking (C.verify_reveal parameters public made.0 masked made.1)
    pure made

  -- The loop of `reveal_tokens`.
  unfoldable pub reveal_each : List ℕ → List RevealMessage → Peer (List RevealMessage)
  reveal_each [] out = pure out
  reveal_each (position ∷ positions) out = do
    made ← own_token position
    message ← gets (λ s. record {
      seat = s.seat;
      position = position;
      token = made.0;
      proof = made.1;
      public = s.public;
    })
    reveal_each positions (out ++ message ∷ [])

  unfoldable pub reveal_tokens : List ℕ → Peer (List RevealMessage)
  reveal_tokens positions = reveal_each positions []

  unfoldable pub verify_reveal : RevealMessage → Peer (RevealToken × PublicKey)
  verify_reveal msg = do
    masked ← masked_at msg.position
    parameters ← gets (λ s. s.parameters)
    checking (C.verify_reveal parameters msg.public msg.token masked msg.proof)
    pure (msg.token, msg.public)

  unfoldable pub own_reveal_contribution : ℕ → Peer (RevealToken × PublicKey)
  own_reveal_contribution position = do made ← own_token position; gets (λ s. (made.0, s.public))

  -- The loop that adds up the tokens.
  unfoldable pub add_tokens : RevealToken → List (RevealToken × PublicKey) → RevealToken
  add_tokens total [] = total
  add_tokens total (c ∷ contributions) = add_tokens (C.token_add total c.0) contributions

  unfoldable pub unmask_with : ℕ → List (RevealToken × PublicKey) → Peer Card
  unmask_with position contributions = do
    players ← gets (λ s. s.num_players)
    fail_if (not (length contributions == players)) unknown_card
    masked ← masked_at position
    plaintext ← lift (map_err protocol (C.reveal (add_tokens C.token_zero contributions) masked))
    encoding ← gets (λ s. s.encoding)
    lift (decode C encoding plaintext)
