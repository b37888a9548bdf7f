-- ===== src/Net/AddrBook.antt =====
-- net/src/node.rs: the addresses that a node has learned, the URI that it builds from them, and the
-- warning about them. A multiaddr is the list of its protocols; what libp2p says of one is a parameter.
use ten_cent_poker_client.Prelude.{
  ℕ, Bool, true, false, ◌&&◌, ◌||◌, not, Option, none, some, List, [], ◌∷◌, ◌++◌, map, ltb,
  if◌then◌else◌, keep, length, ◌⊎◌, ◌==◌,
}
use ten_cent_poker_client.Prelude.Exec.{maybe}
use ten_cent_poker_client.Prelude.Ordered.{member}
use ten_cent_poker_client.Net.Reachability.{
  Reachability, publicly_routable, private_lan, cgnat_likely, loopback, Protocol,
  is_internet_routable, classify_multiaddr, is_dialable,
}
use ten_cent_poker_client.Net.Uri.{Encodings, encode_table_uri}

-- Protocols of a multiaddr: the IP address of one, `Protocol::P2p(_)`, `Protocol::QuicV1` and `==`;
-- and the bytes of addresses and of texts.
pub record Transport : Type 1 where
  pub Part : Type 0
  pub ip_of : Part → Protocol
  pub is_p2p : Part → Bool
  pub is_quic_v1 : Part → Bool
  pub part_eq : Part → Part → Bool
  -- `Protocol::P2p(local_peer_id)`
  pub own_p2p : Part
  pub MultiaddrError : Type 0
  pub Base58Error : Type 0
  pub to_vec : List Part → List ℕ
  pub from_vec : List ℕ → MultiaddrError ⊎ List Part
  pub base58 : List ℕ → List ℕ
  pub from_base58 : List ℕ → Base58Error ⊎ List ℕ

module _ (T : Transport) where
  open T use {Part, ip_of, is_p2p, is_quic_v1, part_eq, own_p2p}

  abbrev pub Addr : Type 0
  Addr = List Part

  abbrev pub encodings : Encodings
  encodings = record {
    Multiaddr = Addr;
    Base58Error = T.Base58Error;
    MultiaddrError = T.MultiaddrError;
    to_vec = T.to_vec;
    from_vec = T.from_vec;
    base58 = T.base58;
    from_base58 = T.from_base58;
  }

  abbrev pub addr_eq : Addr → Addr → Bool
  addr_eq [] [] = true
  addr_eq [] (q ∷ b) = false
  addr_eq (p ∷ a) [] = false
  addr_eq (p ∷ a) (q ∷ b) = part_eq p q && addr_eq a b

  pub record AddrBook : Type 0 where
    pub listen : List Addr
    pub external : List Addr

  unfoldable pub new_book : AddrBook
  new_book = record { listen = []; external = [] }

  -- `if !addrs.contains(&addr) { addrs.push(addr) }`
  unfoldable pub learn : List Addr → Addr → List Addr
  learn addrs addr = if member addr_eq addrs addr then addrs else addrs ++ addr ∷ []

  unfoldable pub add_listen : AddrBook → Addr → AddrBook
  add_listen book addr = record book { listen = learn book.listen addr }

  unfoldable pub add_external : AddrBook → Addr → AddrBook
  add_external book addr = record book { external = learn book.external addr }

  unfoldable pub with_self_p2p : Addr → Addr
  with_self_p2p addr = keep (λ p. not (is_p2p p)) addr ++ own_p2p ∷ []

  unfoldable pub is_quic : Addr → Bool
  is_quic [] = false
  is_quic (p ∷ addr) = is_quic_v1 p || is_quic addr

  abbrev pub class_of : Addr → Option Reachability
  class_of addr = classify_multiaddr (map ip_of addr)

  -- A listening address that is on the internet or in a private network.
  abbrev pub is_lan : Addr → Bool
  is_lan addr = elim (class_of addr) [
    | none ↦ false
    | some publicly_routable ↦ true
    | some private_lan ↦ true
    | some cgnat_likely ↦ false
    | some loopback ↦ false
  ]

  abbrev pub is_loopback : Addr → Bool
  is_loopback addr = elim (class_of addr) [
    | none ↦ false
    | some publicly_routable ↦ false
    | some private_lan ↦ false
    | some cgnat_likely ↦ false
    | some loopback ↦ true
  ]

  -- The candidates of `best_uri`, in their order.
  unfoldable pub pool : AddrBook → List Addr
  pool book =
      let routable = keep (λ a. is_dialable (map ip_of a)) book.external in
      let lan = keep is_lan book.listen in
      let fallback = lan ++ keep (λ a. not (is_loopback a)) book.external in
      if ltb 0 (length routable) then routable ++ lan else fallback

  -- The loop that picks one QUIC address and one other, with the two flags.
  unfoldable pub pick : Bool → Bool → List Addr → List Addr
  pick have_quic have_tcp [] = []
  pick have_quic have_tcp (a ∷ addrs) =
      let quic = pick true have_tcp addrs in
      let tcp = pick have_quic true addrs in
      let skip = pick have_quic have_tcp addrs in
      if have_quic && have_tcp
      then []
      else (if is_quic a && not have_quic
          then with_self_p2p a ∷ quic
          else (if not (is_quic a) && not have_tcp then with_self_p2p a ∷ tcp else skip))

  -- `chosen.retain(|a| seen.insert(a.clone()))`
  unfoldable pub first_only : List Addr → List Addr → List Addr
  first_only seen [] = []
  first_only seen (a ∷ addrs) =
      let rest = first_only (a ∷ seen) addrs in
      let skip = first_only seen addrs in if member addr_eq seen a then skip else a ∷ rest

  -- `if chosen.is_empty() { chosen.push(pool[0]) }`
  unfoldable pub or_first : List Addr → Addr → List Addr
  or_first [] a = with_self_p2p a ∷ []
  or_first (c ∷ chosen) a = c ∷ chosen

  unfoldable pub chosen_from : List Addr → Option (List Addr)
  chosen_from [] = none
  chosen_from (a ∷ addrs) = some (first_only [] (or_first (pick false false (a ∷ addrs)) a))

  unfoldable pub best_uri : AddrBook → Option (List ℕ)
  best_uri book =
      maybe (chosen_from (pool book)) none λ addrs. some (encode_table_uri encodings addrs)

  -- The key of `min_by_key`.
  abbrev pub class_rank : Reachability → ℕ
  class_rank publicly_routable = 0
  class_rank private_lan = 1
  class_rank cgnat_likely = 2
  class_rank loopback = 3

  -- The first of the classes with the smallest key, where `best` is the smallest so far.
  unfoldable pub best_from : Option Reachability → List Addr → Option Reachability
  best_from best [] = best
  best_from best (a ∷ addrs) =
      let better = λ (r : Reachability).
        maybe best (some r) (λ b. if ltb (class_rank r) (class_rank b) then some r else some b) in
      best_from (maybe (class_of a) best better) addrs

  unfoldable pub best_reachability : AddrBook → Option Reachability
  best_reachability book = best_from none (book.external ++ book.listen)

  -- What the node tells the application, of an event channel that has room.
  pub data Notice : Type 0 where
    table_uri_ready : List ℕ → Notice
    reachability_warning : Reachability → Notice

  abbrev pub text_eq : List ℕ → List ℕ → Bool
  text_eq [] [] = true
  text_eq [] (d ∷ t) = false
  text_eq (c ∷ s) [] = false
  text_eq (c ∷ s) (d ∷ t) = (c == d) && text_eq s t

  -- The last URI, and what is emitted.
  unfoldable pub maybe_emit_uri : AddrBook → Option (List ℕ) → Option (List ℕ) × List Notice
  maybe_emit_uri book last_uri = elim (best_uri book) [
    | none ↦ (last_uri, [])
    | some uri ↦
        if maybe last_uri false (λ last. text_eq last uri)
        then (last_uri, [])
        else (some uri, table_uri_ready uri ∷ [])
  ]

  -- Whether it has warned, and what is emitted.
  unfoldable pub maybe_warn : AddrBook → Bool → Bool × List Notice
  maybe_warn book true = (true, [])
  maybe_warn book false = elim (best_reachability book) [
    | none ↦ (false, [])
    | some best ↦
        if is_internet_routable best then (false, []) else (true, reachability_warning best ∷ [])
  ]
