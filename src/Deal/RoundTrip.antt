-- ===== src/Deal/RoundTrip.antt =====
-- What the wire module writes, it reads back.
use ten_cent_poker_client.Prelude.{
  ℕ, ◌/◌, ◌%◌, ◌^◌, ◌<◌, ◌≡◌, refl, sym, ◌∙◌, ap, List, [], ◌∷◌, ◌++◌, arith, ok, ◌>>=◌, length,
}
use mathlib.Core.List.{append-nil, append_assoc}
use ten_cent_poker_client.Deal.Scheme.{Scheme}
use ten_cent_poker_client.Deal.Encoding.{DealError, unknown_card}
use ten_cent_poker_client.Deal.Peer.{KeyAnnouncement, ShuffleMessage, RevealMessage}
use ten_cent_poker_client.Deal.Wire.{
  Codec, IsCodec, write_u32, u32_of, split_bytes, read_u32, to_bytes, from_bytes, write_field,
  read_field, write_fields, read_fields, serialize_key, deserialize_key, serialize_shuffle,
  deserialize_shuffle, serialize_reveal, deserialize_reveal,
}

-- The four bytes of a number.
abbrev u32_bytes : ℕ → List ℕ
u32_bytes v = v % 256 ∷ v / 256 % 256 ∷ v / 65536 % 256 ∷ v / 16777216 % 256 ∷ []

u32_of_bytes : (v : ℕ) → v < 2 ^ 32 → u32_of (u32_bytes v) ≡ v
unfolding u32_of
u32_of_bytes v h = omega arith

split_bytes-append {ℓ} :
    {E : Type ℓ} (e : E) (bytes rest : List ℕ)
    → split_bytes e (length bytes) (bytes ++ rest) ≡ ok (bytes, rest)
unfolding split_bytes
split_bytes-append e [] rest = refl
split_bytes-append e (b ∷ bytes) rest = rw (split_bytes-append e bytes rest)

module _ (C : Scheme) where
  read_u32-bytes :
      (v : ℕ) (rest : List ℕ) → v < 2 ^ 32 → read_u32 C (u32_bytes v ++ rest) ≡ ok (v, rest)
  unfolding read_u32 split_bytes
  read_u32-bytes v rest h = rw (u32_of_bytes v h)

  module _ {A : Type 0} (c : Codec C A) (h : IsCodec c) where
    abbrev field_bytes : A → List ℕ
    field_bytes a = u32_bytes (length (h.bytes_of a)) ++ h.bytes_of a

    write_field-bytes : (buf : List ℕ) (a : A) → write_field C c buf a ≡ ok (buf ++ field_bytes a)
    unfolding write_field to_bytes write_u32
    write_field-bytes buf a =
        rw (h.serializes a)
          (ap ok (append_assoc buf (u32_bytes (length (h.bytes_of a))) (h.bytes_of a)))

    read_field-bytes :
        (a : A) (rest : List ℕ) → read_field C c (field_bytes a ++ rest) ≡ ok (a, rest)
    unfolding read_field from_bytes
    read_field-bytes a rest = rw (
      read_u32-bytes (length (h.bytes_of a)) (h.bytes_of a ++ rest) (h.short a),
      split_bytes-append {E = DealError C} unknown_card (h.bytes_of a) rest,
      h.deserializes a,
    )

    abbrev fields_bytes : List A → List ℕ
    fields_bytes [] = []
    fields_bytes (a ∷ rest) = field_bytes a ++ fields_bytes rest

    write_fields-bytes :
        (buf : List ℕ) (values : List A)
        → write_fields C c buf values ≡ ok (buf ++ fields_bytes values)
    unfolding write_fields
    write_fields-bytes buf [] = ap ok (sym (append-nil buf))
    write_fields-bytes buf (a ∷ rest) = rw (write_field-bytes buf a) (
        write_fields-bytes (buf ++ field_bytes a) rest
        ∙ ap ok (append_assoc buf (field_bytes a) (fields_bytes rest)))

    read_fields-bytes :
        (values : List A) (rest : List ℕ)
        → read_fields C c (length values) (fields_bytes values ++ rest) ≡ ok (values, rest)
    unfolding read_fields
    read_fields-bytes [] rest = refl
    read_fields-bytes (a ∷ more) rest = rw (
      append_assoc (field_bytes a) (fields_bytes more) rest,
      read_field-bytes a (fields_bytes more ++ rest),
      read_fields-bytes more rest,
    )

  module _ (key : Codec C C.PublicKey) (proof : Codec C C.KeyProof) (scalar : Codec C C.Scalar)
      (hk : IsCodec key) (hp : IsCodec proof) (hs : IsCodec scalar) (a : KeyAnnouncement C) where
    serialize_key-bytes :
        serialize_key C key proof scalar a
        ≡ ok (
            u32_bytes a.seat
            ++ (field_bytes key hk a.public
                ++ (field_bytes proof hp a.proof ++ (field_bytes scalar hs a.info ++ []))))
    unfolding serialize_key write_u32
    serialize_key-bytes =
        rw
          (
            write_field-bytes key hk (u32_bytes a.seat) a.public,
            write_field-bytes proof hp (u32_bytes a.seat ++ field_bytes key hk a.public) a.proof,
            write_field-bytes scalar hs
                ((u32_bytes a.seat ++ field_bytes key hk a.public) ++ field_bytes proof hp a.proof)
                a.info,
          )
          (simp (append_assoc, append-nil))

    -- A key announcement comes back from its bytes, for a seat below 2^32 and codecs that work.
    pub deserialize_key-serialize_key :
        a.seat < 2 ^ 32
        → (serialize_key C key proof scalar a >>= deserialize_key C key proof scalar) ≡ ok a
    unfolding deserialize_key
    deserialize_key-serialize_key lt =
        let i = field_bytes scalar hs a.info ++ [] in
        let p = field_bytes proof hp a.proof ++ i in
        let k = field_bytes key hk a.public ++ p in
        rw
          (
            serialize_key-bytes,
            read_u32-bytes a.seat k lt,
            read_field-bytes key hk a.public p,
            read_field-bytes proof hp a.proof i,
            read_field-bytes scalar hs a.info [],
          )
          refl

  module _ (card : Codec C C.MaskedCard) (proof : Codec C C.ShuffleProof) (hc : IsCodec card)
      (hp : IsCodec proof) (m : ShuffleMessage C) where
    serialize_shuffle-bytes :
        serialize_shuffle C card proof m
        ≡ ok (
            u32_bytes m.seat
            ++ (u32_bytes (length m.deck)
                ++ (fields_bytes card hc m.deck ++ (field_bytes proof hp m.proof ++ []))))
    unfolding serialize_shuffle write_u32
    serialize_shuffle-bytes =
        rw
          (
            write_fields-bytes card hc (u32_bytes m.seat ++ u32_bytes (length m.deck)) m.deck,
            write_field-bytes proof hp
                ((u32_bytes m.seat ++ u32_bytes (length m.deck)) ++ fields_bytes card hc m.deck)
                m.proof,
          )
          (simp (append_assoc, append-nil))

    -- A shuffle message comes back from its bytes, for a seat and a deck size below 2^32 and codecs
    -- that work.
    pub deserialize_shuffle-serialize_shuffle :
        m.seat < 2 ^ 32
        → length m.deck < 2 ^ 32
        → (serialize_shuffle C card proof m >>= deserialize_shuffle C card proof) ≡ ok m
    unfolding deserialize_shuffle
    deserialize_shuffle-serialize_shuffle lt lt' =
        let p = field_bytes proof hp m.proof ++ [] in
        let d = fields_bytes card hc m.deck ++ p in
        rw
          (
            serialize_shuffle-bytes,
            read_u32-bytes m.seat (u32_bytes (length m.deck) ++ d) lt,
            read_u32-bytes (length m.deck) d lt',
            read_fields-bytes card hc m.deck p,
            read_field-bytes proof hp m.proof [],
          )
          refl

  module _ (token : Codec C C.RevealToken) (proof : Codec C C.RevealProof)
      (key : Codec C C.PublicKey) (ht : IsCodec token) (hp : IsCodec proof) (hk : IsCodec key)
      (m : RevealMessage C) where
    serialize_reveal-bytes :
        serialize_reveal C token proof key m
        ≡ ok (
            u32_bytes m.seat
            ++ (u32_bytes m.position
                ++ (field_bytes token ht m.token
                    ++ (field_bytes proof hp m.proof ++ (field_bytes key hk m.public ++ [])))))
    unfolding serialize_reveal write_u32
    serialize_reveal-bytes =
        let b = u32_bytes m.seat ++ u32_bytes m.position in
        rw
          (
            write_field-bytes token ht b m.token,
            write_field-bytes proof hp (b ++ field_bytes token ht m.token) m.proof,
            write_field-bytes key hk
                ((b ++ field_bytes token ht m.token) ++ field_bytes proof hp m.proof) m.public,
          )
          (simp (append_assoc, append-nil))

    -- A reveal message comes back from its bytes, for a seat and a position below 2^32 and codecs that
    -- work.
    pub deserialize_reveal-serialize_reveal :
        m.seat < 2 ^ 32
        → m.position < 2 ^ 32
        → (serialize_reveal C token proof key m >>= deserialize_reveal C token proof key) ≡ ok m
    unfolding deserialize_reveal
    deserialize_reveal-serialize_reveal lt lt' =
        let k = field_bytes key hk m.public ++ [] in
        let p = field_bytes proof hp m.proof ++ k in
        let t = field_bytes token ht m.token ++ p in
        rw
          (
            serialize_reveal-bytes,
            read_u32-bytes m.seat (u32_bytes m.position ++ t) lt,
            read_u32-bytes m.position t lt',
            read_field-bytes token ht m.token p,
            read_field-bytes proof hp m.proof k,
            read_field-bytes key hk m.public [],
          )
          refl
