-- ===== src/Deal/Local.antt =====
-- deal/src/mental.rs: `MentalDeal`, a deal among players that share one process. The generator that
-- the callers hand to the methods is the field `rng` here.
use ten_cent_poker_client.Prelude.{ℕ, ◌*◌, not, List, [], ◌∷◌, ◌++◌, ◌==◌, Outcome, get_elem?}
use ten_cent_poker_client.Prelude.Exec.{
  Exec, pure, lift, gets, modify, fail_if, or_fail, map_err, ◌>>=◌, ◌>>◌,
}
use ten_cent_poker_client.Cards.{Card}
use ten_cent_poker_client.Deal.Scheme.{Scheme}
use ten_cent_poker_client.Deal.Encoding.{
  DealError, protocol, verification, bad_deck_size, bad_position, CardEncoding, deck_size,
  new_encoding, open_deck, decode,
}

module _ (C : Scheme) where
  open C use {
    Rng, Parameters, PublicKey, SecretKey, Scalar, Plaintext, MaskedCard, RevealToken, KeyProof,
    MaskProof, ShuffleProof, RevealProof,
  }

  pub record PlayerKeys : Type 0 where
    pub public : PublicKey
    pub secret : SecretKey
    pub info : Scalar

  abbrev pub RevealContribution : Type 0
  RevealContribution = RevealToken × RevealProof × PublicKey

  pub record LocalDeal : Type 0 where
    pub parameters : Parameters
    pub aggregate_key : PublicKey
    pub encoding : CardEncoding C
    pub deck : List MaskedCard
    pub rng : Rng

  abbrev pub Local : Type 0 → Type 0
  Local A = Exec LocalDeal (DealError C) A

  -- A call that draws, with its errors converted.
  abbrev pub sampling : {E A : Type 0} → (E → DealError C) → (LocalDeal → Exec Rng E A) → Local A
  sampling convert m s = let (r, g) = m s s.rng in (map_err convert r, record s { rng = g })

  -- `MentalDeal::setup`: the generator is the state.
  unfoldable pub setup_local : ℕ → ℕ → Exec Rng (DealError C) LocalDeal
  setup_local m n = do
    fail_if (not (m * n == deck_size)) (bad_deck_size (m * n))
    parameters ← λ g. let (r, g') = C.setup m n g in (map_err protocol r, g')
    encoding ← lift (new_encoding C)
    gets (λ g. record {
      parameters = parameters;
      aggregate_key = C.default_key;
      encoding = encoding;
      deck = [];
      rng = g;
    })

  unfoldable pub local_keygen : Scalar → Local (PlayerKeys × KeyProof)
  local_keygen info = do
    keys ← sampling protocol (λ s. C.player_keygen s.parameters)
    proof ← sampling verification (λ s. C.prove_key_ownership s.parameters keys.0 keys.1 info)
    pure (record { public = keys.0; secret = keys.1; info = info }, proof)

  unfoldable pub aggregate_keys : List (PublicKey × KeyProof × Scalar) → Local PublicKey
  aggregate_keys key_proof_info = do
    computed ← gets (λ s. C.compute_aggregate_key s.parameters key_proof_info)
    aggregate ← lift (map_err protocol computed)
    modify (λ s. record s { aggregate_key = aggregate })
    pure aggregate

  -- The loop of `mask_initial_deck`.
  unfoldable pub mask_each :
      List Plaintext → List MaskedCard → List MaskProof → Local (List MaskedCard × List MaskProof)
  mask_each [] deck proofs = pure (deck, proofs)
  mask_each (card ∷ cards) deck proofs = do
    alpha ← sampling protocol (λ s g. let (a, g') = C.rand_scalar g in (Outcome.ok a, g'))
    masked ← sampling protocol (λ s. C.mask s.parameters s.aggregate_key card alpha)
    verdict ← gets (λ s. C.verify_mask s.parameters s.aggregate_key card masked.0 masked.1)
    lift (map_err verification verdict)
    mask_each cards (deck ++ masked.0 ∷ []) (proofs ++ masked.1 ∷ [])

  unfoldable pub mask_local_deck : Local (List MaskProof)
  mask_local_deck = do
    cards ← gets (λ s. open_deck C s.encoding)
    masked ← mask_each cards [] []
    modify (λ s. record s { deck = masked.0 })
    pure masked.1

  unfoldable pub local_shuffle : Local (List MaskedCard × ShuffleProof)
  local_shuffle = do
    permutation ←
        sampling protocol (λ s g. let (p, g') = C.new_permutation deck_size g in (Outcome.ok p, g'))
    factors ←
        sampling protocol (λ s g. let (f, g') = C.sample_vector deck_size g in (Outcome.ok f, g'))
    shuffled ←
        sampling protocol
          (λ s. C.shuffle_and_remask s.parameters s.aggregate_key s.deck factors permutation)
    verdict ← gets (λ s. C.verify_shuffle s.parameters s.aggregate_key s.deck shuffled.0 shuffled.1)
    lift (map_err verification verdict)
    modify (λ s. record s { deck = shuffled.0 })
    pure shuffled

  unfoldable pub verify_local_shuffle :
      List MaskedCard → List MaskedCard → ShuffleProof → Local (Unit {0})
  verify_local_shuffle original shuffled proof = do
    verdict ← gets (λ s. C.verify_shuffle s.parameters s.aggregate_key original shuffled proof)
    lift (map_err verification verdict)

  -- `self.deck.get(position).ok_or(…)?`
  unfoldable pub local_masked_at : ℕ → Local MaskedCard
  local_masked_at position = do
    found ← gets (λ s. get_elem? s.deck position)
    or_fail found (bad_position position)

  unfoldable pub local_reveal_token : PlayerKeys → ℕ → Local RevealContribution
  local_reveal_token keys position = do
    masked ← local_masked_at position
    made ←
        sampling protocol (λ s. C.compute_reveal_token s.parameters keys.secret keys.public masked)
    verdict ← gets (λ s. C.verify_reveal s.parameters keys.public made.0 masked made.1)
    lift (map_err verification verdict)
    pure (made.0, made.1, keys.public)

  unfoldable pub unmask_position : ℕ → List RevealContribution → Local Card
  unmask_position position contributions = do
    masked ← local_masked_at position
    computed ← gets (λ s. C.unmask s.parameters contributions masked)
    plaintext ← lift (map_err protocol computed)
    encoding ← gets (λ s. s.encoding)
    lift (decode C encoding plaintext)
