-- ===== src/Protocol/Setting.antt =====
-- protocol/src/lib.rs and the errors of protocol/src/table.rs. What the crate takes from outside is a
-- parameter: the card protocol, the bytes of its values, and the peer ids of libp2p.
use ten_cent_poker_client.Prelude.{ℕ, Bool, true, ◌≡◌, Option, List}
use ten_cent_poker_client.Betting.State.{BettingError}
use ten_cent_poker_client.Hand.Dealing.{HandError}
use ten_cent_poker_client.Deal.Scheme.{Scheme}
use ten_cent_poker_client.Deal.Encoding.{DealError}
use ten_cent_poker_client.Deal.Wire.{Codec}
use ten_cent_poker_client.Protocol.Bot.{WireAction}

pub record Setting : Type 1 where
  pub scheme : Scheme
  pub key_codec : Codec scheme scheme.PublicKey
  pub key_proof_codec : Codec scheme scheme.KeyProof
  pub scalar_codec : Codec scheme scheme.Scalar
  pub card_codec : Codec scheme scheme.MaskedCard
  pub shuffle_proof_codec : Codec scheme scheme.ShuffleProof
  pub token_codec : Codec scheme scheme.RevealToken
  pub reveal_proof_codec : Codec scheme scheme.RevealProof
  -- `PeerId`, its equality, and `PeerId::from_bytes(bytes).ok()`
  pub PeerId : Type 0
  pub peer_eq : PeerId → PeerId → Bool
  pub peer_from_bytes : List ℕ → Option PeerId

-- What the table relies on: the equality of peer ids decides whether they are the same.
pub record IsEquality (W : Setting) : Type 0 where
  pub sound : (p q : W.PeerId) → W.peer_eq p q ≡ true → p ≡ q
  pub reflexive : (p : W.PeerId) → W.peer_eq p p ≡ true

pub data TableError (W : Setting) : Type 0 where
  not_host : W.PeerId → TableError W
  -- the seats, and the stacks
  seat_stack_mismatch : ℕ → ℕ → TableError W
  bad_seat_peer_id : ℕ → TableError W
  bad_seat_count : ℕ → TableError W
  -- the hand of the message, and the live one
  wrong_hand : ℕ → Option ℕ → TableError W
  no_hand_in_progress : TableError W
  -- who sent it, the seat to act, and its owner
  act_out_of_turn : W.PeerId → ℕ → W.PeerId → TableError W
  betting : BettingError → TableError W
  dealing : HandError → TableError W
  deal2 : DealError W.scheme → TableError W
  deal_out_of_turn : TableError W
  deal_author : TableError W
  no_mental_hand : TableError W
  not_betting_yet : TableError W
  bad_session_seed : ℕ → TableError W

pub data RevealRound : Type 0 where
  hole flop turn river showdown : RevealRound

-- The order of the rounds that `Ord` derives, by which a `BTreeSet` of them is sorted.
abbrev pub round_order : RevealRound → ℕ
round_order hole = 0
round_order flop = 1
round_order turn = 2
round_order river = 3
round_order showdown = 4

-- A text is the list of its bytes.
pub data TableMessage : Type 0 where
  join_table : List ℕ → TableMessage
  -- the hand, the button, the seed, the seats, the stacks, and the blinds
  start_hand : ℕ → ℕ → ℕ → List (List ℕ) → List ℕ → ℕ → ℕ → TableMessage
  act : ℕ → WireAction → TableMessage
  -- the same with a session seed
  start_mental_hand : ℕ → ℕ → List ℕ → List (List ℕ) → List ℕ → ℕ → ℕ → TableMessage
  -- the hand, the seat, and the payload
  key_announce : ℕ → ℕ → List ℕ → TableMessage
  shuffle_announce : ℕ → ℕ → List ℕ → TableMessage
  reveal_announce : ℕ → ℕ → RevealRound → List (List ℕ) → TableMessage
  hand_complete : ℕ → List ℕ → TableMessage
  deal_payload : ℕ → List ℕ → TableMessage
