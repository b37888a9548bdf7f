-- ===== src/Net/Uri.antt =====
-- net/src/lib.rs: the URI of a table. The bytes of a multiaddr are libp2p's and base58 is bs58's: both
-- are parameters. The loop over the blob runs on what is left of it.
use ten_cent_poker_client.Prelude.{
  ℕ, zero, suc, ◌<◌, ◌≤◌, ◌≡◌, ◌≢◌, refl, false, Option, none, some, List, [], ◌∷◌, ◌++◌, arith,
  ltb, le→ltb, ◌==◌, ==_refl, if◌then◌else◌, length, length-append, Outcome, ok, err, panic, ◌>>=◌,
  All, ◌⊎◌, inl, inr, Bool-cases,
}
use ten_cent_poker_client.Net.Frames.{
  u16_bytes, u16_of, take, drop, take-append, drop-append, u16_of-bytes,
}

-- `tcpoker://` in bytes.
abbrev pub scheme : List ℕ
scheme = 116 ∷ 99 ∷ 112 ∷ 111 ∷ 107 ∷ 101 ∷ 114 ∷ 58 ∷ 47 ∷ 47 ∷ []

unfoldable pub strip_prefix : List ℕ → List ℕ → Option (List ℕ)
strip_prefix [] s = some s
strip_prefix (p ∷ prefix) [] = none
strip_prefix (p ∷ prefix) (c ∷ s) =
    let rest = strip_prefix prefix s in if p == c then rest else none

-- The two libraries.
pub record Encodings : Type 1 where
  pub Multiaddr : Type 0
  pub Base58Error : Type 0
  pub MultiaddrError : Type 0
  pub to_vec : Multiaddr → List ℕ
  pub from_vec : List ℕ → MultiaddrError ⊎ Multiaddr
  pub base58 : List ℕ → List ℕ
  pub from_base58 : List ℕ → Base58Error ⊎ List ℕ

-- What the URI relies on for some addresses: they come back from their bytes, which are fewer than
-- 2^16, and bytes come back from base58.
pub record RoundTrips (E : Encodings) (addrs : List E.Multiaddr) : Type 0 where
  pub addresses : All (λ a. E.from_vec (E.to_vec a) ≡ inr a) addrs
  pub short : All (λ a. length (E.to_vec a) < 65536) addrs
  pub base58_back : (bytes : List ℕ) → E.from_base58 (E.base58 bytes) ≡ inr bytes

module _ (E : Encodings) where
  open E use {Multiaddr, Base58Error, MultiaddrError, to_vec, from_vec, base58, from_base58}

  pub data UriError : Type 0 where
    missing_scheme : UriError
    base58_error : Base58Error → UriError
    malformed : UriError
    multiaddr_error : MultiaddrError → UriError

  unfoldable pub pack : List Multiaddr → List ℕ
  pack [] = []
  pack (a ∷ addrs) = let bytes = to_vec a in u16_bytes (length bytes) ++ bytes ++ pack addrs

  unfoldable pub encode_table_uri : List Multiaddr → List ℕ
  encode_table_uri addrs = scheme ++ base58 (pack addrs)

  abbrev pub with_error : {A F : Type 0} → (F → UriError) → F ⊎ A → Outcome UriError A
  with_error f (inl e) = err (f e)
  with_error f (inr a) = ok a

  -- The loop, on fuel; `panic` is its end.
  unfoldable pub unpack : ℕ → List ℕ → Outcome UriError (List Multiaddr)
  unpack fuel [] = ok []
  unpack zero (b ∷ blob) = panic
  unpack (suc fuel) (hi ∷ []) = err malformed
  unpack (suc fuel) (hi ∷ lo ∷ rest) =
      let len = u16_of hi lo in
      let later = unpack fuel (drop len rest) in
      if ltb (length rest) len then err malformed else (do
        a ← with_error multiaddr_error (from_vec (take len rest))
        addrs ← later
        ok (a ∷ addrs))

  abbrev pub some_address : List Multiaddr → Outcome UriError (List Multiaddr)
  some_address [] = err malformed
  some_address (a ∷ addrs) = ok (a ∷ addrs)

  abbrev pub payload_of : Option (List ℕ) → Outcome UriError (List ℕ)
  payload_of none = err missing_scheme
  payload_of (some payload) = ok payload

  -- One round takes two bytes at least.
  unfoldable pub decode_table_uri : List ℕ → Outcome UriError (List Multiaddr)
  decode_table_uri uri = do
    payload ← payload_of (strip_prefix scheme uri)
    blob ← with_error base58_error (from_base58 payload)
    addrs ← unpack (length blob) blob
    some_address addrs

  strip_prefix-append : (prefix s : List ℕ) → strip_prefix prefix (prefix ++ s) ≡ some s
  unfolding strip_prefix
  strip_prefix-append [] s = refl
  strip_prefix-append (p ∷ prefix) s = rw (==_refl p) (strip_prefix-append prefix s)

  unpack-pack :
      (fuel : ℕ) (addrs : List Multiaddr)
      → RoundTrips E addrs
      → length (pack addrs) ≤ fuel
      → unpack fuel (pack addrs) ≡ ok addrs
  unfolding unpack pack u16_bytes
  unpack-pack fuel [] trips enough = refl
  unpack-pack zero (a ∷ addrs) trips enough = elim enough [ ]
  unpack-pack (suc fuel) (a ∷ addrs) trips enough =
      let bytes = to_vec a in
      let tail = pack addrs in
      let ih =
        unpack-pack fuel addrs
          (record {
            addresses = trips.addresses.1;
            short = trips.short.1;
            base58_back = trips.base58_back;
          })
          (omega (arith, length-append bytes tail)) in
      let whole : ltb (length (bytes ++ tail)) (length bytes) ≡ false =
        le→ltb _ _ (omega (arith, length-append bytes tail)) in
      rw
        (
          u16_of-bytes (length bytes) trips.short.0,
          whole,
          take-append bytes tail,
          drop-append bytes tail,
          trips.addresses.0,
          ih,
        )
        refl

  length-drop : (n : ℕ) (xs : List ℕ) → length (drop n xs) ≤ length xs
  unfolding drop
  length-drop zero xs = omega arith
  length-drop (suc n) [] = omega arith
  length-drop (suc n) (x ∷ xs) = omega (arith, length-drop n xs)

  -- What follows a round does not run out of fuel.
  round_ends :
      (r : MultiaddrError ⊎ Multiaddr) (later : Outcome UriError (List Multiaddr))
      → later ≢ panic
      → (with_error multiaddr_error r >>= λ a. later >>= λ addrs. ok (a ∷ addrs)) ≢ panic
  round_ends (inl e) later h = λ g. cc
  round_ends (inr a) (ok addrs) h = λ g. cc
  round_ends (inr a) (err e) h = λ g. cc
  round_ends (inr a) panic h = λ g. h refl

  unpack-ends : (fuel : ℕ) (blob : List ℕ) → length blob ≤ fuel → unpack fuel blob ≢ panic
  unfolding unpack
  unpack-ends zero [] h = λ g. cc
  unpack-ends (suc fuel) [] h = λ g. cc
  unpack-ends zero (b ∷ blob) h = elim h [ ]
  unpack-ends (suc fuel) (hi ∷ []) h = λ g. cc
  unpack-ends (suc fuel) (hi ∷ lo ∷ rest) h =
      let len = u16_of hi lo in
      elim (Bool-cases (ltb (length rest) len)) [
        | inl cut ↦ rw cut (λ g. cc)
        | inr whole ↦ rw whole (
            round_ends (from_vec (take len rest)) (unpack fuel (drop len rest))
              (unpack-ends fuel (drop len rest) (omega (arith, length-drop len rest))))
      ]

  decoded :
      (payload : Option (List ℕ))
      → (payload_of payload >>= λ p. with_error base58_error (from_base58 p) >>= λ blob.
          unpack (length blob) blob >>= some_address)
        ≢ panic
  decoded none = λ g. cc
  decoded (some p) = unpacked (from_base58 p)
    where
      found : (r : Outcome UriError (List Multiaddr)) → r ≢ panic → (r >>= some_address) ≢ panic
      found (ok []) h = λ g. cc
      found (ok (a ∷ addrs)) h = λ g. cc
      found (err e) h = λ g. cc
      found panic h = λ g. h refl

      unpacked :
          (r : Base58Error ⊎ List ℕ)
          → (with_error base58_error r >>= λ blob. unpack (length blob) blob >>= some_address)
            ≢ panic
      unpacked (inl e) = λ g. cc
      unpacked (inr blob) =
          found (unpack (length blob) blob) (unpack-ends (length blob) blob (omega arith))

  come_back :
      (addrs : List Multiaddr)
      → addrs ≢ []
      → RoundTrips E addrs
      → decode_table_uri (encode_table_uri addrs) ≡ ok addrs
  unfolding decode_table_uri encode_table_uri
  come_back [] some_there trips = absurd (some_there refl)
  come_back (a ∷ addrs) some_there trips =
      rw
        (
          strip_prefix-append scheme (base58 (pack (a ∷ addrs))),
          trips.base58_back (pack (a ∷ addrs)),
          unpack-pack (length (pack (a ∷ addrs))) (a ∷ addrs) trips (omega arith),
        )
        refl

  -- Decoding ends for every text, in addresses or in an error, and the URI of one or more addresses
  -- decodes to these addresses, in their order.
  pub decode-encode_table_uri :
      (addrs : List Multiaddr)
      → addrs ≢ []
      → RoundTrips E addrs
      → ((uri : List ℕ) → decode_table_uri uri ≢ panic)
        × (decode_table_uri (encode_table_uri addrs) ≡ ok addrs)
  unfolding decode_table_uri
  decode-encode_table_uri addrs some_there trips =
      (λ uri. decoded (strip_prefix scheme uri), come_back addrs some_there trips)
