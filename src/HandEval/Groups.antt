-- ===== src/HandEval/Groups.antt =====
-- `evaluate_five` returns a value for every five cards: no index of it is out of range.
use ten_cent_poker_client.Prelude.{
  ℕ, suc, ◌+◌, ◌<◌, ◌≡◌, refl, Bool, Option, List, [], ◌∷◌, map, arith, leb, length, length-map,
  length-set, get_elem?-lt, set, sum, sum-set, sum_of, All, replicate, Returns, Returns-bind,
  Returns-mono, index, index-ok, write-ok, Bool-cases, inl, inr, ◌∙◌, ap,
}
use ten_cent_poker_client.Cards.{Card, Rank, rank_value}
use ten_cent_poker_client.HandEval.Defs.{
  group_le, insert_desc, sort_desc, insert_group, sort_groups, groups_from, tally, classify,
  evaluate_five,
}

rank_value-lt : (r : Rank) → rank_value r < 13
rank_value-lt r = ground arith

insert_desc-All :
    (x : ℕ) (xs : List ℕ)
    → x < 13
    → All (λ (r : ℕ). r < 13) xs
    → All (λ (r : ℕ). r < 13) (insert_desc x xs) × (length (insert_desc x xs) ≡ suc (length xs))
unfolding insert_desc
insert_desc-All x [] h hs = ((h, tt), refl)
insert_desc-All x (y ∷ ys) h hs = elim (Bool-cases (leb y x)) [
  | inl le ↦ rw le ((h, hs), refl)
  | inr gt ↦ let rest = insert_desc-All x ys h hs.1 in rw gt ((hs.0, rest.0), ap suc rest.1)
]

sort_desc-All :
    (xs : List ℕ)
    → All (λ (r : ℕ). r < 13) xs
    → All (λ (r : ℕ). r < 13) (sort_desc xs) × (length (sort_desc xs) ≡ length xs)
unfolding sort_desc
sort_desc-All [] h = (tt, refl)
sort_desc-All (x ∷ xs) h =
    let rest = sort_desc-All xs h.1 in
    let all = insert_desc-All x (sort_desc xs) h.0 rest.0 in (all.0, all.1 ∙ ap suc rest.1)

ranks-All :
    (cards : List Card) → All (λ (r : ℕ). r < 13) (map (λ (c : Card). rank_value c.rank) cards)
ranks-All [] = tt
ranks-All (c ∷ cards) = (rank_value-lt c.rank, ranks-All cards)

-- The counts add up to the number of cards.
tally-Returns {ℓ} :
    (E : Type ℓ) (counts rs : List ℕ)
    → length counts ≡ 13
    → All (λ (r : ℕ). r < 13) rs
    → Returns (tally {E = E} counts rs) (λ cs. sum cs ≡ sum counts + length rs)
unfolding tally
tally-Returns E counts [] len h = omega arith
tally-Returns E counts (r ∷ rs) len h =
    let (c, e) = get_elem?-lt counts r (omega (arith, h.0)) in
    rw (index-ok counts r e, write-ok counts r (c + 1) (omega (arith, h.0)))
      (Returns-mono (λ cs. sum cs ≡ sum (set counts r (c + 1)) + length rs) _
        (tally {E = E} (set counts r (c + 1)) rs)
        (tally-Returns E (set counts r (c + 1)) rs (length-set counts r (c + 1) ∙ len) h.1)
        (λ cs s. omega (arith, s, sum-set counts r (c + 1) e)))

abbrev group_sum : List (ℕ × ℕ) → ℕ
group_sum gs = sum_of (λ (g : ℕ × ℕ). g.0) gs

groups_from-sum : (r : ℕ) (cs : List ℕ) → group_sum (groups_from r cs) ≡ sum cs
unfolding groups_from
groups_from-sum r [] = refl
groups_from-sum r (c ∷ cs) = ground (arith, groups_from-sum (suc r) cs)

insert_group-sum :
    (g : ℕ × ℕ) (gs : List (ℕ × ℕ)) → group_sum (insert_group g gs) ≡ g.0 + group_sum gs
unfolding insert_group
insert_group-sum g [] = refl
insert_group-sum g (h ∷ gs) = elim (Bool-cases (group_le h g)) [
  | inl le ↦ rw le
  | inr gt ↦ rw gt (omega (arith, insert_group-sum g gs))
]

sort_groups-sum : (gs : List (ℕ × ℕ)) → group_sum (sort_groups gs) ≡ group_sum gs
unfolding sort_groups
sort_groups-sum [] = refl
sort_groups-sum (g ∷ gs) =
    insert_group-sum g (sort_groups gs) ∙ ap (λ (t : ℕ). g.0 + t) (sort_groups-sum gs)

classify-Returns {ℓ} :
    (E : Type ℓ) (flush : Bool) (run : Option ℕ) (ranks : List ℕ) (gs : List (ℕ × ℕ))
    → group_sum gs ≡ 5
    → Returns (classify {E = E} flush run ranks gs) (λ v. Unit)
unfolding classify index
classify-Returns E flush run ranks [] e = absurd (omega arith)
classify-Returns E flush run ranks (g ∷ []) e = ground arith
classify-Returns E flush run ranks (g ∷ h ∷ []) e = ground arith
classify-Returns E flush run ranks (g ∷ h ∷ i ∷ gs) e = ground arith

pub evaluate_five-Returns {ℓ} :
    (E : Type ℓ) (cards : List Card)
    → length cards ≡ 5
    → Returns (evaluate_five {E = E} cards) (λ v. Unit)
unfolding evaluate_five
evaluate_five-Returns E cards five =
    let ranks = map (λ (c : Card). rank_value c.rank) cards in
    let sorted = sort_desc-All ranks (ranks-All cards) in
    let len = length-map cards (λ (c : Card). rank_value c.rank) in
    Returns-bind (λ cs. sum cs ≡ 5) _ (tally {E = E} (replicate 13 0) (sort_desc ranks)) _
      (Returns-mono _ _ (tally {E = E} (replicate 13 0) (sort_desc ranks))
        (tally-Returns E (replicate 13 0) (sort_desc ranks) refl sorted.0)
        (λ cs s. omega (arith, s, sorted.1, len)))
      (λ cs s.
        classify-Returns E _ _ _ (sort_groups (groups_from 0 cs))
          (sort_groups-sum (groups_from 0 cs) ∙ groups_from-sum 0 cs ∙ s))
