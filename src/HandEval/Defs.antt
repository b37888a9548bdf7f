-- ===== src/HandEval/Defs.antt =====
-- game/src/hand_eval.rs: `evaluate_best` and its helpers. Ranks are their u8 values, 0 to 12, and a
-- count is at most 5, so the u8 arithmetic does not wrap.
use ten_cent_poker_client.Prelude.{
  ℕ, zero, suc, ◌+◌, ◌-◌, Bool, true, false, ◌&&◌, ◌||◌, Option, none, some, List, [], ◌∷◌, ◌++◌,
  map, ltb, leb, ◌==◌, if◌then◌else◌, Outcome, ok, ◌>>=◌, length, get_elem?, index, write,
  replicate,
}
use ten_cent_poker_client.Cards.{Card, rank_value, suit_value}

pub data HandRank : Type 0 where
  high_card pair two_pair three_of_a_kind straight flush full_house four_of_a_kind straight_flush :
      HandRank

abbrev pub hand_rank_value : HandRank → ℕ
hand_rank_value high_card = 0
hand_rank_value pair = 1
hand_rank_value two_pair = 2
hand_rank_value three_of_a_kind = 3
hand_rank_value straight = 4
hand_rank_value flush = 5
hand_rank_value full_house = 6
hand_rank_value four_of_a_kind = 7
hand_rank_value straight_flush = 8

pub record HandValue : Type 0 where
  pub rank : HandRank
  pub tiebreak : List ℕ

-- `<=` of `Vec<u8>`, and of `HandValue`: the rank first, then the tiebreak.
unfoldable pub lex_le : List ℕ → List ℕ → Bool
lex_le [] ys = true
lex_le (x ∷ xs) [] = false
lex_le (x ∷ xs) (y ∷ ys) = ltb x y || ((x == y) && lex_le xs ys)

abbrev pub key : HandValue → List ℕ
key v = hand_rank_value v.rank ∷ v.tiebreak

unfoldable pub value_le : HandValue → HandValue → Bool
value_le a b = lex_le (key a) (key b)

-- `sort_unstable_by(|a, b| b.cmp(a))` on ranks and on groups: the largest first.
unfoldable pub insert_desc : ℕ → List ℕ → List ℕ
insert_desc x [] = x ∷ []
insert_desc x (y ∷ ys) = let rest = insert_desc x ys in if leb y x then x ∷ y ∷ ys else y ∷ rest

unfoldable pub sort_desc : List ℕ → List ℕ
sort_desc [] = []
sort_desc (x ∷ xs) = insert_desc x (sort_desc xs)

abbrev pub group_le : ℕ × ℕ → ℕ × ℕ → Bool
group_le (c, r) (d, q) = ltb c d || ((c == d) && leb r q)

unfoldable pub insert_group : ℕ × ℕ → List (ℕ × ℕ) → List (ℕ × ℕ)
insert_group g [] = g ∷ []
insert_group g (h ∷ gs) =
    let rest = insert_group g gs in if group_le h g then g ∷ h ∷ gs else h ∷ rest

unfoldable pub sort_groups : List (ℕ × ℕ) → List (ℕ × ℕ)
sort_groups [] = []
sort_groups (g ∷ gs) = insert_group g (sort_groups gs)

-- `Vec::dedup`
unfoldable pub dedup : List ℕ → List ℕ
dedup [] = []
dedup (x ∷ []) = x ∷ []
dedup (x ∷ y ∷ ys) = let rest = dedup (y ∷ ys) in if x == y then rest else x ∷ rest

-- `windows(2).all(|w| w[0] == w[1] + 1)`
unfoldable pub is_run : List ℕ → Bool
is_run [] = true
is_run (x ∷ []) = true
is_run (x ∷ y ∷ ys) = (x == (y + 1)) && is_run (y ∷ ys)

unfoldable pub ranks_eq : List ℕ → List ℕ → Bool
ranks_eq [] [] = true
ranks_eq [] (y ∷ ys) = false
ranks_eq (x ∷ xs) [] = false
ranks_eq (x ∷ xs) (y ∷ ys) = (x == y) && ranks_eq xs ys

-- Ace, Five, Four, Three, Two.
abbrev pub wheel : List ℕ
wheel = 12 ∷ 3 ∷ 2 ∷ 1 ∷ 0 ∷ []

abbrev pub first_of_run : List ℕ → Option ℕ
first_of_run [] = none
first_of_run (x ∷ xs) = some x

unfoldable pub straight_high_card : List ℕ → Option ℕ
straight_high_card ranks_desc =
    let distinct = dedup ranks_desc in
    if length distinct == 5
    then (if is_run distinct
        then first_of_run distinct
        else (if ranks_eq distinct wheel then some 3 else none))
    else none

unfoldable pub all_suit : ℕ → List Card → Bool
all_suit s [] = true
all_suit s (c ∷ cs) = (suit_value c.suit == s) && all_suit s cs

-- `cards.iter().all(|c| c.suit == cards[0].suit)`
unfoldable pub is_flush_hand : List Card → Bool
is_flush_hand [] = true
is_flush_hand (c ∷ cs) = all_suit (suit_value c.suit) (c ∷ cs)

-- `counts[r] += 1` for every rank.
module _ {ℓ} {E : Type ℓ} where
  unfoldable pub tally : List ℕ → List ℕ → Outcome E (List ℕ)
  tally counts [] = ok counts
  tally counts (r ∷ rs) = do c ← index counts r; next ← write counts r (c + 1); tally next rs

-- `(0..13).filter(counts[r] > 0).map((counts[r], r))`, from the rank `r` on.
unfoldable pub groups_from : ℕ → List ℕ → List (ℕ × ℕ)
groups_from r [] = []
groups_from r (c ∷ cs) =
    let rest = groups_from (suc r) cs in if ltb 0 c then (c, r) ∷ rest else rest

abbrev pub seconds : List (ℕ × ℕ) → List ℕ
seconds gs = map (λ (g : ℕ × ℕ). g.1) gs

abbrev pub tail : List (ℕ × ℕ) → List (ℕ × ℕ)
tail [] = []
tail (g ∷ gs) = gs

-- `counts_pattern.get(i) == Some(&k)`
abbrev pub count_is : List (ℕ × ℕ) → ℕ → ℕ → Bool
count_is gs i k = elim (get_elem? gs i) [ none ↦ false | some g ↦ g.0 == k ]

abbrev pub value : HandRank → List ℕ → HandValue
value r t = record { rank = r; tiebreak = t }

module _ {ℓ} {E : Type ℓ} where
  -- The chain of tests of `evaluate_five`, on the sorted ranks and groups.
  unfoldable pub classify : Bool → Option ℕ → List ℕ → List (ℕ × ℕ) → Outcome E HandValue
  classify true (some high) ranks gs = ok (value straight_flush (high ∷ []))
  classify is_flush run ranks gs =
      if count_is gs 0 4
      then (do
        quad ← index gs 0
        kicker ← index gs 1
        ok (value four_of_a_kind (quad.1 ∷ kicker.1 ∷ [])))
      else (if count_is gs 0 3 && count_is gs 1 2
          then (do
            trip ← index gs 0
            twin ← index gs 1
            ok (value full_house (trip.1 ∷ twin.1 ∷ [])))
          else (if is_flush then ok (value flush ranks) else elim run [
            | some high ↦ ok (value straight (high ∷ []))
            | none ↦
                if count_is gs 0 3
                then (do trip ← index gs 0; ok (value three_of_a_kind (trip.1 ∷ seconds (tail gs))))
                else (if count_is gs 0 2 && count_is gs 1 2
                    then (do
                      hi ← index gs 0
                      lo ← index gs 1
                      kicker ← index gs 2
                      ok (value two_pair (hi.1 ∷ lo.1 ∷ kicker.1 ∷ [])))
                    else (if count_is gs 0 2
                        then (do twin ← index gs 0; ok (value pair (twin.1 ∷ seconds (tail gs))))
                        else ok (value high_card ranks)))
          ]))

  unfoldable pub evaluate_five : List Card → Outcome E HandValue
  evaluate_five cards = do
    let ranks = sort_desc (map (λ (c : Card). rank_value c.rank) cards)
    counts ← tally (replicate 13 0) ranks
    classify (is_flush_hand cards) (straight_high_card ranks) ranks
        (sort_groups (groups_from 0 counts))

-- One `for` loop of `combinations5`: `for i in lo..n { body }`, with `n - lo` rounds.
unfoldable pub for_from {ℓ} : {A : Type ℓ} → ℕ → ℕ → (ℕ → List A) → List A
for_from lo zero body = []
for_from lo (suc rounds) body = body lo ++ for_from (suc lo) rounds body

unfoldable pub for_range {ℓ} : {A : Type ℓ} → ℕ → ℕ → (ℕ → List A) → List A
for_range lo n body = for_from lo (n - lo) body

unfoldable pub combinations5 : ℕ → List (List ℕ)
combinations5 n = for_range 0 n λ a. for_range (a + 1) n λ b.
    for_range (b + 1) n
      λ c. for_range (c + 1) n λ d. for_range (d + 1) n λ e. (a ∷ b ∷ c ∷ d ∷ e ∷ []) ∷ []

-- The `match` that keeps the better value; of two equal ones it keeps the first.
abbrev pub better : Option HandValue → HandValue → Option HandValue
better none v = some v
better (some b) v = if value_le v b then some b else some v

module _ {ℓ} {E : Type ℓ} where
  -- `[cards[combo[0]], …, cards[combo[4]]]`
  unfoldable pub pick : List Card → List ℕ → Outcome E (List Card)
  pick cards [] = ok []
  pick cards (i ∷ is) = do c ← index cards i; rest ← pick cards is; ok (c ∷ rest)

  unfoldable pub best_of :
      List Card → List (List ℕ) → Option HandValue → Outcome E (Option HandValue)
  best_of cards [] best = ok best
  best_of cards (combo ∷ combos) best = do
    five ← pick cards combo
    v ← evaluate_five five
    best_of cards combos (better best v)

  unfoldable pub evaluate_best : List Card → Outcome E (Option HandValue)
  evaluate_best cards =
      if ltb (length cards) 5 then ok none else best_of cards (combinations5 (length cards)) none
