-- ===== src/Deal/Wire.antt =====
-- deal/src/distributed.rs, the module `wire`: the bytes of the deal's messages. A reader takes what is
-- left of the buffer, where the source moves an index `at` through it. How the vendored library turns
-- one value into bytes and back is a parameter.
use ten_cent_poker_client.Prelude.{
  ℕ, zero, suc, ◌+◌, ◌*◌, ◌/◌, ◌%◌, ◌^◌, ◌<◌, ◌≡◌, List, [], ◌∷◌, ◌++◌, Outcome, ok, err, ◌>>=◌,
  length,
}
use ten_cent_poker_client.Prelude.Exec.{map_err}
use ten_cent_poker_client.Deal.Scheme.{Scheme}
use ten_cent_poker_client.Deal.Encoding.{DealError, unknown_card}
use ten_cent_poker_client.Deal.Peer.{KeyAnnouncement, ShuffleMessage, RevealMessage}

-- `write_u32`: the four bytes of `v as u32`, the lowest first.
unfoldable pub write_u32 : List ℕ → ℕ → List ℕ
write_u32 buf v = buf ++ v % 256 ∷ v / 256 % 256 ∷ v / 65536 % 256 ∷ v / 16777216 % 256 ∷ []

-- The first `n` bytes and the rest, or none if there are fewer.
unfoldable pub split_bytes {ℓ} : {E : Type ℓ} → E → ℕ → List ℕ → Outcome E (List ℕ × List ℕ)
split_bytes e zero buf = ok ([], buf)
split_bytes e (suc n) [] = err e
split_bytes e (suc n) (b ∷ buf) = do parts ← split_bytes e n buf; ok (b ∷ parts.0, parts.1)

unfoldable pub u32_of : List ℕ → ℕ
u32_of [] = 0
u32_of (b ∷ bytes) = b + 256 * u32_of bytes

-- How `ark_serialize` turns the values of a type into compressed bytes and back.
pub record Codec (C : Scheme) (A : Type 0) : Type 0 where
  pub serialize_compressed : A → Outcome C.CryptoError (List ℕ)
  pub deserialize_compressed : List ℕ → Outcome C.CryptoError A

-- What the wire relies on: a value of at most `2^32 - 1` bytes comes back from its bytes.
pub record IsCodec {C : Scheme} {A : Type 0} (c : Codec C A) : Type 0 where
  pub bytes_of : A → List ℕ
  pub serializes : (a : A) → c.serialize_compressed a ≡ ok (bytes_of a)
  pub deserializes : (a : A) → c.deserialize_compressed (bytes_of a) ≡ ok a
  pub short : (a : A) → length (bytes_of a) < 2 ^ 32

module _ (C : Scheme) where
  abbrev pub Wire : Type 0 → Type 0
  Wire A = Outcome (DealError C) A

  -- `map_ser`: every serialization error becomes `UnknownCard`.
  abbrev pub map_ser : {A : Type 0} → Outcome C.CryptoError A → Wire A
  map_ser r = map_err (λ _. unknown_card) r

  unfoldable pub read_u32 : List ℕ → Wire (ℕ × List ℕ)
  read_u32 buf = do parts ← split_bytes unknown_card 4 buf; ok (u32_of parts.0, parts.1)

  module _ {A : Type 0} (c : Codec C A) where
    unfoldable pub to_bytes : A → Wire (List ℕ)
    to_bytes a = map_ser (c.serialize_compressed a)

    unfoldable pub from_bytes : List ℕ → Wire A
    from_bytes bytes = map_ser (c.deserialize_compressed bytes)

    unfoldable pub write_field : List ℕ → A → Wire (List ℕ)
    write_field buf a = do bytes ← to_bytes a; ok (write_u32 buf (length bytes) ++ bytes)

    unfoldable pub read_field : List ℕ → Wire (A × List ℕ)
    read_field buf = do
      len ← read_u32 buf
      parts ← split_bytes unknown_card len.0 len.1
      a ← from_bytes parts.0
      ok (a, parts.1)

    -- The loops over the cards of a deck.
    unfoldable pub write_fields : List ℕ → List A → Wire (List ℕ)
    write_fields buf [] = ok buf
    write_fields buf (a ∷ rest) = do next ← write_field buf a; write_fields next rest

    unfoldable pub read_fields : ℕ → List ℕ → Wire (List A × List ℕ)
    read_fields zero buf = ok ([], buf)
    read_fields (suc n) buf = do
      first ← read_field buf
      others ← read_fields n first.1
      ok (first.0 ∷ others.0, others.1)

  module _ (key : Codec C C.PublicKey) (proof : Codec C C.KeyProof)
      (scalar : Codec C C.Scalar) where
    unfoldable pub serialize_key : KeyAnnouncement C → Wire (List ℕ)
    serialize_key a = do
      let buf = write_u32 [] a.seat
      buf₁ ← write_field key buf a.public
      buf₂ ← write_field proof buf₁ a.proof
      write_field scalar buf₂ a.info

    unfoldable pub deserialize_key : List ℕ → Wire (KeyAnnouncement C)
    deserialize_key buf = do
      seat ← read_u32 buf
      public ← read_field key seat.1
      shown ← read_field proof public.1
      info ← read_field scalar shown.1
      ok (record { seat = seat.0; public = public.0; proof = shown.0; info = info.0 })

  module _ (card : Codec C C.MaskedCard) (proof : Codec C C.ShuffleProof) where
    unfoldable pub serialize_shuffle : ShuffleMessage C → Wire (List ℕ)
    serialize_shuffle m = do
      let buf = write_u32 (write_u32 [] m.seat) (length m.deck)
      buf₁ ← write_fields card buf m.deck
      write_field proof buf₁ m.proof

    unfoldable pub deserialize_shuffle : List ℕ → Wire (ShuffleMessage C)
    deserialize_shuffle buf = do
      seat ← read_u32 buf
      n ← read_u32 seat.1
      deck ← read_fields card n.0 n.1
      shown ← read_field proof deck.1
      ok (record { seat = seat.0; deck = deck.0; proof = shown.0 })

  module _ (token : Codec C C.RevealToken) (proof : Codec C C.RevealProof)
      (key : Codec C C.PublicKey) where
    unfoldable pub serialize_reveal : RevealMessage C → Wire (List ℕ)
    serialize_reveal m = do
      let buf = write_u32 (write_u32 [] m.seat) m.position
      buf₁ ← write_field token buf m.token
      buf₂ ← write_field proof buf₁ m.proof
      write_field key buf₂ m.public

    unfoldable pub deserialize_reveal : List ℕ → Wire (RevealMessage C)
    deserialize_reveal buf = do
      seat ← read_u32 buf
      position ← read_u32 seat.1
      t ← read_field token position.1
      shown ← read_field proof t.1
      public ← read_field key shown.1
      ok (record {
        seat = seat.0;
        position = position.0;
        token = t.0;
        proof = shown.0;
        public = public.0;
      })
