-- ===== src/Deal/Scheme.antt =====
-- The card protocol that the deal crate calls: types and operations of the vendored libraries, a
-- parameter of the model. A `Rng` is a state of a random number generator; an operation that draws
-- returns the next one.
use ten_cent_poker_client.Prelude.{ℕ, Bool, List, Outcome}
use ten_cent_poker_client.Prelude.Exec.{Exec}

pub record Scheme : Type 1 where
  pub Rng : Type 0
  pub Parameters : Type 0
  pub PublicKey : Type 0
  pub SecretKey : Type 0
  pub Scalar : Type 0
  pub Plaintext : Type 0
  pub MaskedCard : Type 0
  pub RevealToken : Type 0
  pub KeyProof : Type 0
  pub MaskProof : Type 0
  pub ShuffleProof : Type 0
  pub RevealProof : Type 0
  pub Permutation : Type 0
  -- `CardProtocolError` and `CryptoError`
  pub ProtocolError : Type 0
  pub CryptoError : Type 0
  -- `ChaCha20Rng::from_seed`
  pub from_seed : List ℕ → Rng
  pub setup : ℕ → ℕ → Exec Rng ProtocolError Parameters
  pub player_keygen : Parameters → Exec Rng ProtocolError (PublicKey × SecretKey)
  pub prove_key_ownership :
      Parameters → PublicKey → SecretKey → Scalar → Exec Rng CryptoError KeyProof
  pub verify_key_ownership :
      Parameters → PublicKey → Scalar → KeyProof → Outcome CryptoError (Unit {0})
  pub compute_aggregate_key :
      Parameters → List (PublicKey × KeyProof × Scalar) → Outcome ProtocolError PublicKey
  pub mask :
      Parameters → PublicKey → Plaintext → Scalar → Exec Rng ProtocolError (MaskedCard × MaskProof)
  pub verify_mask :
      Parameters → PublicKey → Plaintext → MaskedCard → MaskProof → Outcome CryptoError (Unit {0})
  -- `Permutation::new` and `sample_vector`
  pub new_permutation : ℕ → Rng → Permutation × Rng
  pub sample_vector : ℕ → Rng → List Scalar × Rng
  pub shuffle_and_remask :
      Parameters
      → PublicKey
      → List MaskedCard
      → List Scalar
      → Permutation
      → Exec Rng ProtocolError (List MaskedCard × ShuffleProof)
  pub verify_shuffle :
      Parameters
      → PublicKey
      → List MaskedCard
      → List MaskedCard
      → ShuffleProof
      → Outcome CryptoError (Unit {0})
  pub compute_reveal_token :
      Parameters
      → SecretKey
      → PublicKey
      → MaskedCard
      → Exec Rng ProtocolError (RevealToken × RevealProof)
  pub verify_reveal :
      Parameters
      → PublicKey
      → RevealToken
      → MaskedCard
      → RevealProof
      → Outcome CryptoError (Unit {0})
  -- `RevealToken::zero`, `+` and `Reveal::reveal`
  pub token_zero : RevealToken
  pub token_add : RevealToken → RevealToken → RevealToken
  pub reveal : RevealToken → MaskedCard → Outcome ProtocolError Plaintext
  -- `Scalar::from`, `Scalar::zero` and the equalities
  pub scalar_of : ℕ → Scalar
  pub scalar_zero : Scalar
  pub scalar_eq : Scalar → Scalar → Bool
  pub key_eq : PublicKey → PublicKey → Bool
  -- `CardProtocol::unmask`, `Scalar::rand` and `AggregatePublicKey::default`
  pub unmask :
      Parameters
      → List (RevealToken × RevealProof × PublicKey)
      → MaskedCard
      → Outcome ProtocolError Plaintext
  pub rand_scalar : Rng → Scalar × Rng
  pub default_key : PublicKey
  -- The generator of the curve times a scalar, and the compressed bytes of a point.
  pub base_times : Scalar → Plaintext
  pub plaintext_bytes : Plaintext → Outcome CryptoError (List ℕ)
