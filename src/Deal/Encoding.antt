-- ===== src/Deal/Encoding.antt =====
-- deal/src/mental.rs: the errors of the deal crate and `CardEncoding`. The `HashMap` is a list of
-- entries with the newest first, so that an entry under the same key hides the older one.
use ten_cent_poker_client.Prelude.{
  ℕ, zero, suc, ◌+◌, Bool, true, false, ◌&&◌, Option, none, some, List, [], ◌∷◌, ◌++◌, ◌==◌,
  if◌then◌else◌, Outcome, ok, err, panic, ◌>>=◌, index,
}
use ten_cent_poker_client.Cards.{Card, to_index, from_index}
use ten_cent_poker_client.Deal.Scheme.{Scheme}

abbrev pub deck_size : ℕ
deck_size = 52

pub data DealError (C : Scheme) : Type 0 where
  protocol : C.ProtocolError → DealError C
  verification : C.CryptoError → DealError C
  unknown_card : DealError C
  bad_deck_size : ℕ → DealError C
  bad_position : ℕ → DealError C
  seat_mismatch : ℕ → DealError C

-- `Vec<u8> == Vec<u8>`
unfoldable pub bytes_eq : List ℕ → List ℕ → Bool
bytes_eq [] [] = true
bytes_eq [] (y ∷ ys) = false
bytes_eq (x ∷ xs) [] = false
bytes_eq (x ∷ xs) (y ∷ ys) = (x == y) && bytes_eq xs ys

unfoldable pub lookup_bytes : List (List ℕ × ℕ) → List ℕ → Option ℕ
lookup_bytes [] bytes = none
lookup_bytes ((key, i) ∷ rest) bytes =
    let later = lookup_bytes rest bytes in if bytes_eq key bytes then some i else later

module _ (C : Scheme) where
  open C use {Plaintext, base_times, scalar_of, plaintext_bytes}

  pub record CardEncoding : Type 0 where
    pub points : List Plaintext
    pub lookup : List (List ℕ × ℕ)

  -- A serialization under `expect`.
  abbrev pub expect_bytes : Outcome C.CryptoError (List ℕ) → Outcome (DealError C) (List ℕ)
  expect_bytes (ok bytes) = ok bytes
  expect_bytes (err e) = panic
  expect_bytes panic = panic

  -- The `for` loop of `CardEncoding::new`, with the rounds left.
  unfoldable pub encode_from : ℕ → ℕ → CardEncoding → Outcome (DealError C) CardEncoding
  encode_from zero i encoding = ok encoding
  encode_from (suc rounds) i encoding = do
    let point = base_times (scalar_of (i + 1))
    bytes ← expect_bytes (plaintext_bytes point)
    encode_from rounds (suc i)
        (record { points = encoding.points ++ point ∷ []; lookup = (bytes, i) ∷ encoding.lookup })

  unfoldable pub new_encoding : Outcome (DealError C) CardEncoding
  new_encoding = encode_from deck_size 0 (record { points = []; lookup = [] })

  unfoldable pub encode : CardEncoding → Card → Outcome (DealError C) Plaintext
  encode encoding card = index encoding.points (to_index card)

  unfoldable pub encode_index : CardEncoding → ℕ → Outcome (DealError C) Plaintext
  encode_index encoding i = index encoding.points i

  -- `map_err(|_| DealError::UnknownCard)?`
  abbrev pub or_unknown : {A : Type 0} → Outcome C.CryptoError A → Outcome (DealError C) A
  or_unknown (ok a) = ok a
  or_unknown (err e) = err unknown_card
  or_unknown panic = panic

  abbrev pub known : {A : Type 0} → Option A → Outcome (DealError C) A
  known none = err unknown_card
  known (some a) = ok a

  unfoldable pub decode : CardEncoding → Plaintext → Outcome (DealError C) Card
  decode encoding plaintext = do
    bytes ← or_unknown (plaintext_bytes plaintext)
    i ← known (lookup_bytes encoding.lookup bytes)
    card ← from_index i
    known card

  unfoldable pub open_deck : CardEncoding → List Plaintext
  open_deck encoding = encoding.points
