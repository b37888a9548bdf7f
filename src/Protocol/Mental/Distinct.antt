-- ===== src/Protocol/Mental/Distinct.antt =====
-- protocol/src/mental.rs: the collection of tokens counts no peer's token for a position twice.
use ten_cent_poker_client.Prelude.{
  ℕ, ◌≡◌, refl, sym, subst, Bool, true, false, ◌||◌, Option, List, [], ◌∷◌, ◌++◌, All, All-append,
  Bool-cases, inl, inr, ltb, ◌==◌, Outcome,
}
use ten_cent_poker_client.Prelude.Exec.{Exec, Keeps, keeps_rules, Keeps-modify, modify}
use ten_cent_poker_client.Prelude.Map
use ten_cent_poker_client.Prelude.Map.{Map}
use ten_cent_poker_client.Cards.{Card}
use ten_cent_poker_client.Deal.Encoding.{DealError}
use ten_cent_poker_client.Deal.Peer.{PeerDeal}
use ten_cent_poker_client.Protocol.Setting.{
  Setting, TableError, RevealRound, hole, flop, turn, river, showdown,
}
use ten_cent_poker_client.Protocol.Layout.{Positions}
use ten_cent_poker_client.Protocol.Mental.{MentalDeal, Mental, Tokens, TokenSet, on_peer, or_deal2}
use ten_cent_poker_client.Protocol.Mental.Tokens.{
  has_key, tokens_at, push_unique, hole_owner, local_card, both_cards, try_decrypt_local_hole,
  push_decrypted, try_decrypt_community, showdown_card, try_decrypt_showdown, collect_community,
  collect,
}

module _ (W : Setting) where
  open W.scheme use {RevealToken, PublicKey, key_eq}

  -- No token has the key of a later one.
  abbrev pub IsOnce : Tokens W → Type 0
  IsOnce [] = Unit
  IsOnce (t ∷ tokens) =
      All (λ (u : RevealToken × PublicKey). key_eq t.1 u.1 ≡ false) tokens × IsOnce tokens

  abbrev pub AllOnce : TokenSet W → Type 0
  AllOnce tokens = All (λ (e : ℕ × Tokens W). IsOnce e.1) tokens

  -- At every position and in every round, each key has at most one token.
  abbrev pub TokensOnce : MentalDeal W → Type 0
  TokensOnce s = AllOnce s.hole_tokens × AllOnce s.community_tokens × AllOnce s.showdown_tokens

  or-false : (a b : Bool) → (a || b) ≡ false → (a ≡ false) × (b ≡ false)
  or-false true b h = cc
  or-false false b h = (refl, h)

  append-IsOnce :
      (tokens : Tokens W) (tok : RevealToken) (pk : PublicKey)
      → IsOnce tokens
      → has_key W tokens pk ≡ false
      → IsOnce (tokens ++ (tok, pk) ∷ [])
  unfolding has_key
  append-IsOnce [] tok pk once h = (tt, tt)
  append-IsOnce (t ∷ tokens) tok pk once h =
      let (apart, rest) = or-false (key_eq t.1 pk) (has_key W tokens pk) h in
      (
        All-append (λ (u : RevealToken × PublicKey). key_eq t.1 u.1 ≡ false) tokens ((tok, pk) ∷ [])
            once.0 (apart, tt),
        append-IsOnce tokens tok pk once.1 rest,
      )

  get-IsOnce : (m : TokenSet W) (i : ℕ) → AllOnce m → IsOnce (tokens_at W m i)
  get-IsOnce [] i h = tt
  get-IsOnce ((j, ts) ∷ m) i h = elim (Bool-cases (j == i)) [
    | inl same ↦ subst IsOnce (sym (found same)) h.0
    | inr other ↦ subst IsOnce (sym (passed other)) (get-IsOnce m i h.1)
  ]
    where
      found : (j == i) ≡ true → tokens_at W ((j, ts) ∷ m) i ≡ ts
      found same = rw (same, tokens_at)

      passed : (j == i) ≡ false → tokens_at W ((j, ts) ∷ m) i ≡ tokens_at W m i
      passed other = rw (other, tokens_at)

  insert-AllOnce :
      (i : ℕ) (ts : Tokens W) (m : TokenSet W) → IsOnce ts → AllOnce m → AllOnce (Map.insert i ts m)
  insert-AllOnce i ts [] once h = (once, tt)
  insert-AllOnce i ts ((j, us) ∷ m) once h = elim (Bool-cases (ltb i j)) [
    | inl before ↦ rw (before) (once, h)
    | inr behind ↦ elim (Bool-cases (i == j)) [
      | inl same ↦ rw (behind, same) (once, h.1)
      | inr other ↦ rw (behind, other) (h.0, insert-AllOnce i ts m once h.1)
    ]
  ]

  push_unique-AllOnce :
      (m : TokenSet W) (i : ℕ) (tok : RevealToken) (pk : PublicKey)
      → AllOnce m
      → AllOnce (push_unique W m i tok pk)
  unfolding push_unique
  push_unique-AllOnce m i tok pk h =
      let once = get-IsOnce m i h in
      elim (Bool-cases (has_key W (tokens_at W m i) pk)) [
        | inl known ↦ rw (known) (insert-AllOnce i (tokens_at W m i) m once h)
        | inr fresh ↦ rw (fresh) (
            insert-AllOnce i (tokens_at W m i ++ (tok, pk) ∷ []) m
              (append-IsOnce (tokens_at W m i) tok pk once fresh) h)
      ]

  pub Keeps-on_peer :
      {A : Type 0} (m : Exec (PeerDeal W.scheme) (DealError W.scheme) A)
      → Keeps TokensOnce (on_peer W m)
  unfolding on_peer
  Keeps-on_peer m = record { at = λ s h. h }

  pub Keeps-or_deal2 :
      {A : Type 0} (r : Outcome (DealError W.scheme) A) → Keeps TokensOnce (or_deal2 W r)
  unfolding or_deal2
  Keeps-or_deal2 r = search keeps_rules

  pub Keeps-hole_owner : (position : ℕ) → Keeps TokensOnce (hole_owner W position)
  unfolding hole_owner
  Keeps-hole_owner position = record { at = λ s h. h }

  pub ruleset once_rules =
      (keeps_rules, Keeps-modify, Keeps-on_peer, Keeps-or_deal2, Keeps-hole_owner)

  pub Keeps-local_card : (position : ℕ) → Keeps TokensOnce (local_card W position)
  unfolding local_card
  Keeps-local_card position = search once_rules depth 12

  pub Keeps-both_cards :
      (round : ℕ → Mental W (Option Card)) (positions : Positions)
      (store : Card × Card → Mental W (Unit {0}))
      → ((i : ℕ) → Keeps TokensOnce (round i))
      → ((c : Card × Card) → Keeps TokensOnce (store c))
      → Keeps TokensOnce (both_cards W round positions store)
  unfolding both_cards
  Keeps-both_cards round positions store kr ks = search keeps_rules depth 12

  pub Keeps-try_decrypt_local_hole : Keeps TokensOnce (try_decrypt_local_hole W)
  unfolding try_decrypt_local_hole
  Keeps-try_decrypt_local_hole = search (once_rules, Keeps-local_card, Keeps-both_cards) depth 14

  pub Keeps-push_decrypted : (positions : List ℕ) → Keeps TokensOnce (push_decrypted W positions)
  unfolding push_decrypted
  Keeps-push_decrypted [] = search once_rules depth 14
  Keeps-push_decrypted (position ∷ positions) =
      let rest = Keeps-push_decrypted positions in search once_rules depth 14

  pub Keeps-try_decrypt_community :
      (round : RevealRound) → Keeps TokensOnce (try_decrypt_community W round)
  unfolding try_decrypt_community
  Keeps-try_decrypt_community round = search (once_rules, Keeps-push_decrypted) depth 14

  pub Keeps-showdown_card : (position : ℕ) → Keeps TokensOnce (showdown_card W position)
  unfolding showdown_card
  Keeps-showdown_card position = search once_rules depth 14

  pub Keeps-try_decrypt_showdown :
      (position : ℕ) → Keeps TokensOnce (try_decrypt_showdown W position)
  unfolding try_decrypt_showdown
  Keeps-try_decrypt_showdown position =
      search (once_rules, Keeps-showdown_card, Keeps-both_cards) depth 14

  module _ (position : ℕ) (tok : RevealToken) (pk : PublicKey) where
    Keeps-push_hole : Keeps {E = TableError W} TokensOnce (
        modify (λ (s : MentalDeal W). record s {
          hole_tokens = push_unique W s.hole_tokens position tok pk;
        }))
    Keeps-push_hole = record {
      at = λ s h. (push_unique-AllOnce s.hole_tokens position tok pk h.0, h.1, h.2);
    }

    Keeps-push_community : Keeps {E = TableError W} TokensOnce (
        modify (λ (s : MentalDeal W). record s {
          community_tokens = push_unique W s.community_tokens position tok pk;
        }))
    Keeps-push_community = record {
      at = λ s h. (h.0, push_unique-AllOnce s.community_tokens position tok pk h.1, h.2);
    }

    Keeps-push_showdown : Keeps {E = TableError W} TokensOnce (
        modify (λ (s : MentalDeal W). record s {
          showdown_tokens = push_unique W s.showdown_tokens position tok pk;
        }))
    Keeps-push_showdown = record {
      at = λ s h. (h.0, h.1, push_unique-AllOnce s.showdown_tokens position tok pk h.2);
    }

  pub Keeps-collect_community :
      (round : RevealRound) (position : ℕ) (tok : RevealToken) (pk : PublicKey)
      → Keeps TokensOnce (collect_community W round position tok pk)
  unfolding collect_community
  Keeps-collect_community round position tok pk =
      search (once_rules, Keeps-try_decrypt_community, Keeps-push_community) depth 14

  pub Keeps-collect :
      (round : RevealRound) (from_seat position : ℕ) (tok : RevealToken) (pk : PublicKey)
      → Keeps TokensOnce (collect W round from_seat position tok pk)
  unfolding collect
  Keeps-collect hole from_seat position tok pk =
      search (once_rules, Keeps-try_decrypt_local_hole, Keeps-push_hole) depth 14
  Keeps-collect flop from_seat position tok pk = search Keeps-collect_community
  Keeps-collect turn from_seat position tok pk = search Keeps-collect_community
  Keeps-collect river from_seat position tok pk = search Keeps-collect_community
  Keeps-collect showdown from_seat position tok pk =
      search (once_rules, Keeps-try_decrypt_showdown, Keeps-push_showdown) depth 14
