-- ===== src/Showdown/Distribute.antt =====
-- `distribute`: every chip of every pot is paid out, to the best hands.
use ten_cent_poker_client.Prelude.{
  ℕ, zero, suc, ◌+◌, ap, if◌then◌else◌, ◌≤◌, ◌<◌, ◌≡◌, ◌≢◌, refl, Bool, true, false, Option, none,
  some, List, [], ◌∷◌, ◌++◌, arith, length, length-set, length-replicate, get_elem?-lt, set,
  replicate, sum, sum-set, sum-replicate, get_elem?-le-sum, get_elem?-replicate, All, All-get_elem?,
  Ascends, u64_mod, Returns, Returns-bind, Returns-mono, add64-ok, index-ok, write-ok, Bool-cases,
  ◌==◌, ==→eq, eq→==, inl, inr, ◌⊎◌, ◌∙◌, sym, subst,
}
use mathlib.Core.List.{append-nil, append_assoc}
use ten_cent_poker_client.Cards.{Card}
use ten_cent_poker_client.Pot.Defs.{Pot, is_empty}
use ten_cent_poker_client.Pot.Merge.{total}
use ten_cent_poker_client.HandEval.Defs.{HandValue, value_le}
use ten_cent_poker_client.HandEval.Best.{Has}
use ten_cent_poker_client.Showdown.Defs.{
  Hole, Leaders, PotAward, leaders_of, split_pot, contest, uncontested, distribute_one, add_payouts,
  distribute_from, distribute,
}
use ten_cent_poker_client.Showdown.Leaders.{ValueOf, Leads, leaders_of-Leads}
use ten_cent_poker_client.Showdown.Payouts.{PaysOut, split_pot-PaysOut}
use ten_cent_poker_client.Showdown.Shares.{
  entry, entry-set, entry-get_elem?, entry-replicate, sole_share,
}

-- The payouts `ps` of the seats from `i` on.
abbrev shifted : ℕ → List ℕ → ℕ → ℕ
shifted i [] j = 0
shifted i (p ∷ ps) j = (if i == j then p else 0) + shifted (suc i) ps j

shifted_below : (i : ℕ) (ps : List ℕ) (j : ℕ) → j < i → shifted i ps j ≡ 0
shifted_below i [] j lt = refl
shifted_below i (p ∷ ps) j lt = ground (arith, shifted_below (suc i) ps j)

shifted-entry : (i : ℕ) (ps : List ℕ) (k m : ℕ) → m ≡ i + k → shifted i ps m ≡ entry ps k
shifted-entry i [] k m e = refl
shifted-entry i (p ∷ ps) zero m e =
    let none = shifted_below (suc i) ps m (omega (arith, e)) in ground (arith, none, e)
shifted-entry i (p ∷ ps) (suc k) m e =
    let rest = shifted-entry (suc i) ps k m (omega (arith, e)) in ground (arith, rest, e)

-- What a seat gets of the pots of some awards.
abbrev pub collected : List PotAward → ℕ → ℕ
collected [] j = 0
collected (award ∷ awards) j = entry award.payouts j + collected awards j

paid_at :
    (j i old p rest : ℕ) {paid moved before : ℕ}
    → paid ≡ moved + rest
    → moved ≡ (if i == j then old + p else before)
    → (i ≡ j → before ≡ old)
    → paid ≡ before + ((if i == j then p else 0) + rest)
paid_at j i old p rest e m there = elim (Bool-cases (i == j)) [
  | inl same ↦ let b = there (==→eq i j same) in ground (arith, e, m, same, b)
  | inr other ↦ ground (arith, e, m, other)
]

module _ (E : Type 0) where
  add_payouts-Returns :
      (i : ℕ) (ps winnings : List ℕ)
      → i + length ps ≤ length winnings
      → sum winnings + sum ps < u64_mod
      → Returns (add_payouts {E = E} i ps winnings) (λ out.
        (sum out ≡ sum winnings + sum ps)
        × (length out ≡ length winnings)
        × ((j : ℕ) → entry out j ≡ entry winnings j + shifted i ps j))
  unfolding add_payouts
  add_payouts-Returns i [] winnings le fits = (omega arith, refl, λ j. omega arith)
  add_payouts-Returns i (p ∷ ps) winnings le fits =
      let (old, e) = get_elem?-lt winnings i (omega arith) in
      let next = set winnings i (old + p) in
      let len = length-set winnings i (old + p) in
      let moved = sum-set winnings i (old + p) e in
      rw
        (
          index-ok winnings i e,
          add64-ok old p (omega (arith, get_elem?-le-sum winnings i old e)),
          write-ok winnings i (old + p) (omega arith),
        )
        (Returns-mono _ _ (add_payouts {E = E} (suc i) ps next)
          (add_payouts-Returns (suc i) ps next (omega (arith, len)) (omega (arith, moved)))
          (λ out (s, l, each). (
            omega (arith, s, moved),
            l ∙ len,
            λ j.
                paid_at j i old p (shifted (suc i) ps j) (each j)
                  (entry-set winnings i (old + p) j (omega arith))
                  (λ same. ap (entry winnings) (sym same) ∙ entry-get_elem? winnings i e),
          )))

module _ (E : Type 0) (holes : List (Option Hole)) (community : List Card) (button n : ℕ)
    (btn : button < n) (small : n ≤ 9) where
  -- A pot that can be awarded: its seats are seats of the table in order, and there is just one,
  -- or one of them shows a hand.
  pub record IsAwardable (pot : Pot) : Type 0 where
    pub in_table : All (λ (j : ℕ). j < n) pot.eligible
    pub ascend : Ascends 0 pot.eligible
    pub shown :
        (length pot.eligible ≡ 1)
        ⊎ ((seat : ℕ) × (v : HandValue) × Has seat pot.eligible × ValueOf E holes community seat v)

  -- The winners of a pot are the eligible seats whose hand no other eligible hand beats.
  abbrev pub AreBest : List ℕ → List ℕ → Type 0
  AreBest eligible winners =
      (b : HandValue) × ((seat : ℕ) (v : HandValue)
        → Has seat eligible
        → ValueOf E holes community seat v
        → (value_le v b ≡ true) × (value_le b v ≡ true → Has seat winners))
      × ((seat : ℕ)
          → Has seat winners
          → Has seat eligible
            × ((v : HandValue) × ValueOf E holes community seat v × (value_le b v ≡ true)))

  -- What an award is: all of the pot is paid, to the only eligible seat or to the best hands.
  abbrev pub IsAward : Pot → PotAward → Type 0
  IsAward pot award =
      PaysOut button n pot award
      × ((length pot.eligible ≡ 1) × (award.winners ≡ pot.eligible)
          ⊎ (length pot.eligible ≢ 1) × AreBest pot.eligible award.winners)

  nothing : is_empty [] ≡ false → ⊥
  nothing e = cc

  split-IsAward :
      (pot : Pot) (l : Leaders)
      → pot.amount < u64_mod
      → length pot.eligible ≢ 1
      → ((seat : ℕ) × (v : HandValue) × Has seat pot.eligible × ValueOf E holes community seat v)
      → Leads E holes community (λ x. ⊥ ⊎ Has x pot.eligible) l
      → Ascends 0 l.1
      → All (λ (j : ℕ). j < n) l.1
      → Returns (split_pot {E = E} pot l.1 button n) (IsAward pot)
  unfolding Leads
  split-IsAward pot (none, ws) fits many (seat, v, h, val) leads asc lts =
      absurd (leads.1 seat v (inr h) val)
  split-IsAward pot (some b, []) fits many (seat, v, h, val) leads asc lts =
      absurd (nothing leads.2)
  split-IsAward pot (some b, w ∷ ws) fits many shown leads asc lts =
      Returns-mono _ (IsAward pot) (split_pot {E = E} pot (w ∷ ws) button n)
        (split_pot-PaysOut E n button btn small pot w ws fits asc lts)
        (λ award (pays, same). (
          pays,
          inr (
            many,
            subst (AreBest pot.eligible) (sym same) (
              b,
              (λ x v h val. leads.0 x v (inr h) val),
              λ x h. let (p, rest) = leads.1 x h in (strip p, rest),
            ),
          ),
        ))
    where
      strip : {A : Type 0} → ⊥ ⊎ A → A
      strip (inl z) = absurd z
      strip (inr a) = a

  nobody-Leads : Leads E holes community (λ x. ⊥) (none, [])
  unfolding Leads
  nobody-Leads = (refl, λ x v p val. p)

  shown_hand :
      {pot : Pot}
      → IsAwardable pot
      → length pot.eligible ≢ 1
      → (seat : ℕ) × (v : HandValue) × Has seat pot.eligible × ValueOf E holes community seat v
  shown_hand ok_pot several = elim ok_pot.shown [ inl one ↦ absurd (several one) | inr s ↦ s ]

  -- An awardable pot is awarded.
  pub distribute_one-IsAward :
      (pot : Pot)
      → IsAwardable pot
      → pot.amount < u64_mod
      → Returns (distribute_one {E = E} pot holes community button n) (IsAward pot)
  unfolding distribute_one contest uncontested
  distribute_one-IsAward pot ok_pot fits = elim (Bool-cases (length pot.eligible == 1)) [
    | inl one ↦
        let single = ==→eq (length pot.eligible) 1 one in
        let (seat, e) = get_elem?-lt pot.eligible 0 (omega arith) in
        let lt = All-get_elem? (λ (j : ℕ). j < n) pot.eligible 0 seat ok_pot.in_table e in
        let len : length (replicate {A = ℕ} n 0) ≡ n = length-replicate n 0 in
        rw
          (
            one,
            index-ok pot.eligible 0 e,
            write-ok (replicate n 0) seat pot.amount (omega (arith, len)),
          )
          (
            (
              omega (
                arith,
                sum-replicate n,
                sum-set (replicate n 0) seat pot.amount (get_elem?-replicate n seat 0 lt),
              ),
              length-set (replicate n 0) seat pot.amount ∙ len,
              refl,
              λ j.
                  entry-set (replicate n 0) seat pot.amount j (omega (arith, len))
                  ∙ sole_share button n pot.amount seat j pot.eligible single e
                      (entry-replicate n j),
            ),
            inl (single, refl),
          )
    | inr many ↦
        let several : length pot.eligible ≢ 1 =
          λ e. contra many (eq→== (length pot.eligible) 1 e) in
        rw many (
          Returns-bind _ (IsAward pot) (leaders_of {E = E} holes community pot.eligible (none, []))
            _
            (leaders_of-Leads E holes community n (λ x. ⊥) 0 pot.eligible (none, []) ok_pot.ascend
              ok_pot.in_table nobody-Leads (tt, tt, tt))
            (λ l (leads, asc, lts).
              split-IsAward pot l fits several (shown_hand ok_pot several) leads asc lts))
  ]
    where
      contra : {b : Bool} → b ≡ false → b ≡ true → ⊥
      contra p q = cc

  -- An award for each pot, in order.
  abbrev pub AllAwarded : List Pot → List PotAward → Type 0
  AllAwarded [] [] = Unit
  AllAwarded [] (award ∷ awards) = ⊥
  AllAwarded (p ∷ ps) [] = ⊥
  AllAwarded (p ∷ ps) (award ∷ awards) = IsAward p award × AllAwarded ps awards

  distribute_from-Returns :
      (pots : List Pot) (winnings : List ℕ) (awards : List PotAward)
      → All IsAwardable pots
      → length winnings ≡ n
      → sum winnings + total pots < u64_mod
      → Returns (distribute_from {E = E} pots holes community button n winnings awards) (λ out.
        (sum out.0 ≡ sum winnings + total pots)
        × (length out.0 ≡ n)
        × ((new : List PotAward) × (out.1 ≡ awards ++ new)
            × AllAwarded pots new
            × ((j : ℕ) → entry out.0 j ≡ entry winnings j + collected new j)))
  unfolding distribute_from
  distribute_from-Returns [] winnings awards oks len fits =
      (omega arith, len, ([], sym (append-nil awards), tt, λ j. omega arith))
  distribute_from-Returns (pot ∷ pots) winnings awards oks len fits =
      Returns-bind (IsAward pot) _ (distribute_one {E = E} pot holes community button n) _
        (distribute_one-IsAward pot oks.0 (omega arith))
        (λ award is_award.
          let paid = is_award.0 in
          rw (eq→== (sum award.payouts) pot.amount paid.0) (
            Returns-bind _ _ (add_payouts {E = E} 0 award.payouts winnings) _
              (add_payouts-Returns E 0 award.payouts winnings (omega (arith, paid))
                (omega (arith, paid)))
              (λ next (s, l, added).
                Returns-mono _ _
                  (distribute_from {E = E} pots holes community button n next
                    (awards ++ award ∷ []))
                  (distribute_from-Returns pots next (awards ++ award ∷ []) oks.1 (l ∙ len)
                    (omega (arith, s, paid)))
                  (λ out (s', l', (new, e, all, each)). (
                    omega (arith, s', s, paid),
                    l',
                    (
                      award ∷ new,
                      e ∙ append_assoc awards (award ∷ []) new,
                      (is_award, all),
                      λ j.
                          let own = shifted-entry 0 award.payouts j j (omega arith) in
                          omega (arith, each j, added j, own),
                    ),
                  )))))

  -- With at most nine seats and the button at one of them, `distribute` returns for awardable pots
  -- whose chips fit a u64. Every pot is won by its only eligible seat, or by the eligible seats whose
  -- hand no other eligible hand beats; each winner is paid an equal part of it, one chip more where
  -- fewer winners than there are odd chips come before it, clockwise from the button, and nobody else
  -- is paid. The payouts of a pot add up to the pot, the winnings of each seat are its payouts of all
  -- pots, and the winnings of all seats add up to the pots.
  pub distribute-AllAwarded :
      (pots : List Pot)
      → All IsAwardable pots
      → total pots < u64_mod
      → Returns (distribute {E = E} pots holes community button n) (λ out.
        (sum out.0 ≡ total pots)
        × (length out.0 ≡ n)
        × AllAwarded pots out.1
        × ((j : ℕ) → entry out.0 j ≡ collected out.1 j))
  unfolding distribute
  distribute-AllAwarded pots oks fits =
      Returns-mono _ _ (distribute_from {E = E} pots holes community button n (replicate n 0) [])
        (distribute_from-Returns pots (replicate n 0) [] oks (length-replicate n 0)
          (omega (arith, sum-replicate n)))
        (λ out (s, l, (new, e, all, each)). (
          omega (arith, s, sum-replicate n),
          l,
          subst (AllAwarded pots) (sym e) all,
          λ j.
              let none = entry-replicate n j in
              subst (λ (awards : List PotAward). entry out.0 j ≡ collected awards j) (sym e)
                (omega (arith, each j, none)),
        ))
