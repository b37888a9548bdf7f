-- ===== src/Examples/Toy.antt =====
-- A card protocol and a setting in which every value is a number. Nothing is hidden in it: it serves
-- to run the model.
use ten_cent_poker_client.Prelude.{
  ℕ, ◌+◌, true, false, Option, none, some, List, [], ◌∷◌, ◌==◌, Outcome, ok, err,
}
use ten_cent_poker_client.Deal.Scheme.{Scheme}
use ten_cent_poker_client.Deal.Wire.{Codec}
use ten_cent_poker_client.Protocol.Setting.{Setting}
use ten_cent_poker_client.Protocol.Mental.{MentalDeal, ready}
use ten_cent_poker_client.Protocol.Table.{Table, mental}
use ten_cent_poker_client.Examples.Tables.{three_seats}

abbrev pub toy_scheme : Scheme
toy_scheme = record {
  Rng = ℕ;
  Parameters = ℕ;
  PublicKey = ℕ;
  SecretKey = ℕ;
  Scalar = ℕ;
  Plaintext = ℕ;
  MaskedCard = ℕ;
  RevealToken = ℕ;
  KeyProof = ℕ;
  MaskProof = ℕ;
  ShuffleProof = ℕ;
  RevealProof = ℕ;
  Permutation = ℕ;
  ProtocolError = Unit;
  CryptoError = Unit;
  from_seed = λ seed. 0;
  setup = λ m n g. (ok m, g);
  player_keygen = λ parameters g. (ok (g, g), g + 1);
  prove_key_ownership = λ parameters public secret info g. (ok 0, g);
  verify_key_ownership = λ parameters public info proof. ok tt;
  compute_aggregate_key = λ parameters keys. ok 0;
  mask = λ parameters key card factor g. (ok (card, 0), g);
  verify_mask = λ parameters key card masked proof. ok tt;
  new_permutation = λ n g. (0, g);
  sample_vector = λ n g. ([], g);
  shuffle_and_remask = λ parameters key deck factors permutation g. (ok (deck, 0), g);
  verify_shuffle = λ parameters key old new proof. ok tt;
  compute_reveal_token = λ parameters secret public masked g. (ok (public, 0), g);
  verify_reveal = λ parameters public token masked proof. ok tt;
  token_zero = 0;
  token_add = λ a b. a + b;
  reveal = λ token masked. ok masked;
  scalar_of = λ n. n;
  scalar_zero = 0;
  scalar_eq = λ a b. a == b;
  key_eq = λ a b. a == b;
  unmask = λ parameters contributions masked. ok masked;
  rand_scalar = λ g. (0, g);
  default_key = 0;
  base_times = λ s. s;
  plaintext_bytes = λ p. ok (p ∷ []);
}

-- One number per value.
abbrev of_bytes : List ℕ → Outcome (Unit {0}) ℕ
of_bytes [] = err tt
of_bytes (n ∷ bytes) = ok n

abbrev pub toy_codec : Codec toy_scheme ℕ
toy_codec = record { serialize_compressed = λ n. ok (n ∷ []); deserialize_compressed = of_bytes }

abbrev peer_of_bytes : List ℕ → Option ℕ
peer_of_bytes [] = none
peer_of_bytes (n ∷ bytes) = some n

abbrev pub toy : Setting
toy = record {
  scheme = toy_scheme;
  key_codec = toy_codec;
  key_proof_codec = toy_codec;
  scalar_codec = toy_codec;
  card_codec = toy_codec;
  shuffle_proof_codec = toy_codec;
  token_codec = toy_codec;
  reveal_proof_codec = toy_codec;
  PeerId = ℕ;
  peer_eq = λ p q. p == q;
  peer_from_bytes = peer_of_bytes;
}

-- A table of the peers 7 and 8 at which hand 4 has been settled.
abbrev pub two_peers : Table toy
two_peers = record {
  local = 7;
  host = 7;
  roster = 7 ∷ 8 ∷ [];
  live = none;
  last_completed = some 4;
}

-- The deal of the peer at seat 0 of 2, behind the shuffles.
abbrev pub toy_deal : MentalDeal toy
toy_deal = record {
  peer = record {
    parameters = 4;
    encoding = record { points = []; lookup = [] };
    num_players = 2;
    seat = 0;
    info = 1;
    secret = 5;
    public = 5;
    announced = (0, (5, 0, 1)) ∷ (1, (6, 0, 2)) ∷ [];
    aggregate_key = some 0;
    deck = 10 ∷ 11 ∷ 12 ∷ 13 ∷ [];
    rng = 0;
  };
  num_players = 2;
  seat = 0;
  layout = record { holes = (1, 3) ∷ (0, 2) ∷ [] };
  phase = ready;
  keys_in = (0, tt) ∷ (1, tt) ∷ [];
  shuffles_done = 2;
  hole_tokens = [];
  local_hole = none;
  community_tokens = [];
  community = [];
  community_done = [];
  showdown_tokens = [];
  showdown_hole = [];
  announced_key = true;
  announced_hole = false;
  announced_shuffle_for = [];
  announced_community = [];
  announced_showdown = false;
  emitted_phase = none;
  emitted_hole_ready = false;
  emitted_streets = [];
}

-- The same table in the middle of hand 5.
abbrev pub dealt_table : Table toy
dealt_table = record two_peers {
  live = some (record {
    hand_no = 5;
    button = 0;
    deal = mental toy_deal;
    community = [];
    betting = three_seats;
    starting = 100 ∷ 100 ∷ 100 ∷ [];
    pending_settle = false;
  });
}
