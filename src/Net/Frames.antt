-- ===== src/Net/Frames.antt =====
-- net/src/node.rs: `DealEnvelope`, the frame of a payload with its author. A frame is a list of bytes;
-- the bytes of a peer id are libp2p's and a parameter.
use ten_cent_poker_client.Prelude.{
  ℕ, zero, suc, ◌+◌, ◌*◌, ◌/◌, ◌%◌, ◌<◌, ◌≡◌, refl, ap, false, Option, none, some, List, [], ◌∷◌,
  ◌++◌, arith, ltb, le→ltb, if◌then◌else◌, length, length-append,
}
use ten_cent_poker_client.Prelude.Exec.{maybe}

-- `(n as u16).to_be_bytes()` and `u16::from_be_bytes`.
unfoldable pub u16_bytes : ℕ → List ℕ
u16_bytes n = n % 65536 / 256 ∷ n % 256 ∷ []

unfoldable pub u16_of : ℕ → ℕ → ℕ
u16_of hi lo = hi * 256 + lo

-- `&xs[..n]` and `&xs[n..]` for `n` up to the length.
unfoldable pub take {ℓ} : {A : Type ℓ} → ℕ → List A → List A
take zero xs = []
take (suc n) [] = []
take (suc n) (x ∷ xs) = x ∷ take n xs

unfoldable pub drop {ℓ} : {A : Type ℓ} → ℕ → List A → List A
drop zero xs = xs
drop (suc n) [] = []
drop (suc n) (x ∷ xs) = drop n xs

module _ {ℓ} {A : Type ℓ} where
  pub take-append : (xs ys : List A) → take (length xs) (xs ++ ys) ≡ xs
  unfolding take
  take-append [] ys = refl
  take-append (x ∷ xs) ys = ap (◌∷◌ x) (take-append xs ys)

  pub drop-append : (xs ys : List A) → drop (length xs) (xs ++ ys) ≡ ys
  unfolding drop
  drop-append [] ys = refl
  drop-append (x ∷ xs) ys = drop-append xs ys

pub u16_of-bytes : (n : ℕ) → n < 65536 → u16_of (n % 65536 / 256) (n % 256) ≡ n
unfolding u16_of
u16_of-bytes n h = omega arith

module _ (PeerId : Type 0) (to_bytes : PeerId → List ℕ) (from_bytes : List ℕ → Option PeerId) where
  pub record DealEnvelope : Type 0 where
    pub author : PeerId
    pub payload : List ℕ

  unfoldable pub to_wire : DealEnvelope → List ℕ
  to_wire e = let author = to_bytes e.author in u16_bytes (length author) ++ author ++ e.payload

  unfoldable pub from_wire : List ℕ → Option DealEnvelope
  from_wire [] = none
  from_wire (hi ∷ []) = none
  from_wire (hi ∷ lo ∷ rest) =
      let alen = u16_of hi lo in
      if ltb (length rest) alen
      then none
      else maybe (from_bytes (take alen rest)) none
          λ author. some (record { author = author; payload = drop alen rest })

  -- An envelope comes back from its frame, where the bytes of its author are fewer than 2^16 and
  -- give the author back.
  pub from_wire-to_wire :
      (e : DealEnvelope)
      → length (to_bytes e.author) < 65536
      → from_bytes (to_bytes e.author) ≡ some e.author
      → from_wire (to_wire e) ≡ some e
  unfolding from_wire to_wire u16_bytes
  from_wire-to_wire e small back =
      let author = to_bytes e.author in
      let enough : ltb (length (author ++ e.payload)) (length author) ≡ false =
        le→ltb _ _ (omega (arith, length-append author e.payload)) in
      rw
        (
          u16_of-bytes (length author) small,
          enough,
          take-append author e.payload,
          drop-append author e.payload,
          back,
        )
        refl
