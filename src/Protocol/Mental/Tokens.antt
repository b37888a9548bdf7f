-- ===== src/Protocol/Mental/Tokens.antt =====
-- protocol/src/mental.rs: the reveal tokens that a peer collects, and the cards that they decrypt.
use ten_cent_poker_client.Prelude.{
  ℕ, Bool, true, false, ◌||◌, not, Option, none, some, List, [], ◌∷◌, ◌++◌, ◌==◌, if◌then◌else◌,
  length, sub64, range_from,
}
use ten_cent_poker_client.Prelude.Exec.{Exec, pure, lift, gets, modify, maybe, fail_if, ◌>>=◌, ◌>>◌}
use ten_cent_poker_client.Prelude.Map
use ten_cent_poker_client.Prelude.Map.{Map, has}
use ten_cent_poker_client.Cards.{Card}
use ten_cent_poker_client.Deal.Peer.{own_reveal_contribution, unmask_with}
use ten_cent_poker_client.Protocol.Setting.{
  Setting, RevealRound, hole, flop, turn, river, showdown, deal_author,
}
use ten_cent_poker_client.Protocol.Layout.{DeckLayout, Positions, hole_of_seat, community_positions}
use ten_cent_poker_client.Protocol.Mental.{
  MentalDeal, Mental, Tokens, TokenSet, on_peer, insert_round, has_round,
}

-- `[a, b].contains(&position)`
abbrev pub in_pair : Positions → ℕ → Bool
in_pair p position = p.0 == position || p.1 == position

-- `Option<usize> == Some(seat)`
abbrev pub is_seat : Option ℕ → ℕ → Bool
is_seat none seat = false
is_seat (some owner) seat = owner == seat

module _ {E : Type 0} where
  -- The first of the seats that has the position for a hole card.
  unfoldable pub find_owner : DeckLayout → ℕ → List ℕ → Exec (Unit {0}) E (Option ℕ)
  find_owner layout position [] = pure none
  find_owner layout position (seat ∷ seats) = do
    positions ← lift (hole_of_seat layout seat)
    let later = find_owner layout position seats
    if in_pair positions position then pure (some seat) else later

module _ (W : Setting) where
  open W.scheme use {RevealToken, PublicKey, key_eq}

  -- `v.iter().any(|(_, p)| *p == pk)`
  unfoldable pub has_key : Tokens W → PublicKey → Bool
  has_key [] pk = false
  has_key (t ∷ tokens) pk = key_eq t.1 pk || has_key tokens pk

  -- `set.get(&position).cloned().unwrap_or_default()`
  abbrev pub tokens_at : TokenSet W → ℕ → Tokens W
  tokens_at tokens position = elim (Map.get tokens position) [ none ↦ [] | some found ↦ found ]

  unfoldable pub push_unique : TokenSet W → ℕ → RevealToken → PublicKey → TokenSet W
  push_unique tokens position tok pk =
      let entry = tokens_at tokens position in
      if has_key entry pk
      then Map.insert position entry tokens
      else Map.insert position (entry ++ (tok, pk) ∷ []) tokens

  unfoldable pub token_set : MentalDeal W → RevealRound → TokenSet W
  token_set s hole = s.hole_tokens
  token_set s flop = s.community_tokens
  token_set s turn = s.community_tokens
  token_set s river = s.community_tokens
  token_set s showdown = s.showdown_tokens

  unfoldable pub have_token : MentalDeal W → RevealRound → PublicKey → ℕ → Bool
  have_token s round pk position = elim (Map.get (token_set s round) position) [
    | none ↦ false
    | some found ↦ has_key found pk
  ]

  unfoldable pub hole_owner : ℕ → Mental W (Option ℕ)
  hole_owner position s = ((find_owner s.layout position (range_from 0 s.num_players) tt).0, s)

  -- One round of the loop of `try_decrypt_local_hole`: no card when tokens are missing.
  unfoldable pub local_card : ℕ → Mental W (Option Card)
  local_card position = do
    received ← gets (λ s. tokens_at s.hole_tokens position)
    n ← gets (λ s. s.num_players)
    others ← lift (sub64 n 1)
    let decrypted = do
      own ← on_peer W (own_reveal_contribution W.scheme position)
      card ← on_peer W (unmask_with W.scheme position (received ++ own ∷ []))
      pure (some card)
    if not (length received == others) then pure none else decrypted

  -- The two rounds of a loop that leaves the method when there is no card, and what is done with
  -- both cards.
  unfoldable pub both_cards :
      (ℕ → Mental W (Option Card))
      → Positions
      → (Card × Card → Mental W (Unit {0}))
      → Mental W (Unit {0})
  both_cards round positions store = do
    first ← round positions.0
    maybe first (pure tt)
        λ a. do second ← round positions.1; maybe second (pure tt) λ b. store (a, b)

  unfoldable pub try_decrypt_local_hole : Mental W (Unit {0})
  try_decrypt_local_hole = do
    known ← gets (λ s. s.local_hole)
    let decrypted = do
      found ← gets (λ (s : MentalDeal W). hole_of_seat s.layout s.seat)
      mine ← lift found
      both_cards local_card mine (λ cards. modify (λ s. record s { local_hole = some cards }))
    maybe known decrypted (λ cards. pure tt)

  -- The first loop of `try_decrypt_community`: whether every position has all tokens.
  unfoldable pub all_in : TokenSet W → ℕ → List ℕ → Bool
  all_in tokens n [] = true
  all_in tokens n (position ∷ positions) =
      let rest = all_in tokens n positions in
      if not (length (tokens_at tokens position) == n) then false else rest

  -- The second loop.
  unfoldable pub push_decrypted : List ℕ → Mental W (Unit {0})
  push_decrypted [] = pure tt
  push_decrypted (position ∷ positions) = do
    tokens ← gets (λ s. tokens_at s.community_tokens position)
    card ← on_peer W (unmask_with W.scheme position tokens)
    modify (λ s. record s { community = s.community ++ card ∷ [] })
    push_decrypted positions

  unfoldable pub try_decrypt_community : RevealRound → Mental W (Unit {0})
  try_decrypt_community round = do
    done ← gets (λ s. has_round s.community_done round)
    positions ← gets (λ s. community_positions round s.num_players)
    complete ← gets (λ s. all_in s.community_tokens s.num_players positions)
    let decrypted = do
      push_decrypted positions
      modify (λ s. record s { community_done = insert_round round s.community_done })
    if done then pure tt else (if complete then decrypted else pure tt)

  -- The inner loop of `merged_showdown_tokens`.
  unfoldable pub merge_tokens : Tokens W → Tokens W → Tokens W
  merge_tokens out [] = out
  merge_tokens out (t ∷ tokens) =
      merge_tokens (if has_key out t.1 then out else out ++ t ∷ []) tokens

  unfoldable pub merged_showdown_tokens : MentalDeal W → ℕ → Tokens W
  merged_showdown_tokens s position =
      merge_tokens (merge_tokens [] (tokens_at s.hole_tokens position))
        (tokens_at s.showdown_tokens position)

  -- One round of the loop of `try_decrypt_showdown`.
  unfoldable pub showdown_card : ℕ → Mental W (Option Card)
  showdown_card position = do
    merged ← gets (λ s. merged_showdown_tokens s position)
    n ← gets (λ s. s.num_players)
    let decrypted = do card ← on_peer W (unmask_with W.scheme position merged); pure (some card)
    if not (length merged == n) then pure none else decrypted

  unfoldable pub try_decrypt_showdown : ℕ → Mental W (Unit {0})
  try_decrypt_showdown position = do
    found ← hole_owner position
    maybe found (pure tt) λ owner. do
      shown ← gets (λ s. has s.showdown_hole owner)
      let decrypted = do
        at ← gets (λ (s : MentalDeal W). hole_of_seat s.layout owner)
        positions ← lift at
        both_cards showdown_card positions λ cards.
            modify (λ s. record s { showdown_hole = Map.insert owner cards s.showdown_hole })
      if shown then pure tt else decrypted

  unfoldable pub collect_community : RevealRound → ℕ → RevealToken → PublicKey → Mental W (Unit {0})
  collect_community round position tok pk = do
    modify (λ s. record s { community_tokens = push_unique s.community_tokens position tok pk })
    try_decrypt_community round

  unfoldable pub collect : RevealRound → ℕ → ℕ → RevealToken → PublicKey → Mental W (Unit {0})
  collect hole from_seat position tok pk = do
    owner ← hole_owner position
    fail_if (is_seat owner from_seat) deal_author
    modify (λ s. record s { hole_tokens = push_unique s.hole_tokens position tok pk })
    try_decrypt_local_hole
  collect flop from_seat position tok pk = collect_community flop position tok pk
  collect turn from_seat position tok pk = collect_community turn position tok pk
  collect river from_seat position tok pk = collect_community river position tok pk
  collect showdown from_seat position tok pk = do
    modify (λ s. record s { showdown_tokens = push_unique s.showdown_tokens position tok pk })
    try_decrypt_showdown position
