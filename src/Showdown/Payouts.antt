-- ===== src/Showdown/Payouts.antt =====
-- `split_pot` and `distribute`: the payouts of every pot add up to the pot.
use ten_cent_poker_client.Prelude.{
  ℕ, zero, suc, ◌+◌, ◌*◌, ◌/◌, ◌%◌, ◌≤◌, ◌<◌, ◌≡◌, refl, some, List, [], ◌∷◌, arith, length,
  if◌then◌else◌, ◌&&◌, ◌==◌, length-set, length-replicate, get_elem?, get_elem?-lt,
  get_elem?-set_ne, set, replicate, sum, sum-set, sum-replicate, get_elem?-le-sum,
  get_elem?-replicate, All, Ascends, u64_mod, Returns, Returns-bind, Returns-mono, add64-ok,
  rem64-ok, div64-ok, index-ok, write-ok, Bool-cases, ltb, ltb→le, inl, inr, ==→eq, Bool, true,
  false, ◌∙◌, ap, sym, subst,
}
use native.Mathlib.Nat.{div-add-mod}
use ten_cent_poker_client.Pot.Defs.{Pot}
use ten_cent_poker_client.Showdown.Shares.{
  entry, is_winner, clockwise, ahead, share_of, entry-get_elem?, entry-set, entry-replicate,
  first_odd,
}
use ten_cent_poker_client.Showdown.OddChips.{odd_chips, sort_by-All, sort_by-length}
use ten_cent_poker_client.Showdown.Defs.{
  PotAward, sort_by, seat_place, odd_chip_order, pay_shares, pay_odd, split_pot,
}

-- From `lo` on nothing is paid yet.
abbrev ZeroFrom : ℕ → List ℕ → Type 0
ZeroFrom lo xs = (j : ℕ) → lo ≤ j → j < length xs → get_elem? xs j ≡ some 0

ZeroFrom-set : (lo w v : ℕ) (xs : List ℕ) → lo ≤ w → ZeroFrom lo xs → ZeroFrom (suc w) (set xs w v)
ZeroFrom-set lo w v xs le h j jl lt =
    get_elem?-set_ne xs v (λ (e : w ≡ j). omega arith)
    ∙ h j (omega arith) (omega (arith, length-set xs w v))

-- The entry `j`, when that of `w` has grown by one.
one_more :
    (j w a more : ℕ) {paid moved before : ℕ}
    → paid ≡ moved + more
    → moved ≡ (if w == j then a + 1 else before)
    → (w ≡ j → before ≡ a)
    → paid ≡ before + ((if w == j then 1 else 0) + more)
one_more j w a more p m there = elim (Bool-cases (w == j)) [
  | inl same ↦ let e = there (==→eq w j same) in ground (arith, p, m, same, e)
  | inr other ↦ ground (arith, p, m, other)
]

-- A share without and with the odd chips.
only_shares :
    (winner : Bool) (before share nothing : ℕ) {paid remainder : ℕ}
    → paid ≡ (if winner then share else nothing)
    → nothing ≡ 0
    → remainder ≤ 0
    → paid ≡ (if winner then share + (if ltb before remainder then 1 else 0) else 0)
only_shares true before share nothing p z none = ground (arith, p, none)
only_shares false before share nothing p z none = p ∙ z

with_odd_chip :
    (winner early : Bool) (equal share nothing odd : ℕ) {paid : ℕ}
    → paid ≡ equal + odd
    → equal ≡ (if winner then share else nothing)
    → nothing ≡ 0
    → odd ≡ (if winner && early then 1 else 0)
    → paid ≡ (if winner then share + (if early then 1 else 0) else 0)
with_odd_chip true early equal share nothing odd p q z o = ground (arith, p, q, o)
with_odd_chip false early equal share nothing odd p q z o = omega (arith, p, q, z, o)

module _ {ℓ} (E : Type ℓ) where
  -- Each winner gets the share once.
  pay_shares-Returns :
      (share lo : ℕ) (ws payouts : List ℕ)
      → Ascends lo ws
      → All (λ (j : ℕ). j < length payouts) ws
      → ZeroFrom lo payouts
      → Returns (pay_shares {E = E} share ws payouts) (λ out.
        (sum out ≡ sum payouts + share * length ws)
        × (length out ≡ length payouts)
        × ((j : ℕ) → entry out j ≡ (if is_winner j ws then share else entry payouts j)))
  unfolding pay_shares
  pay_shares-Returns share lo [] payouts asc lts z = (omega arith, refl, λ j. refl)
  pay_shares-Returns share lo (w ∷ ws) payouts asc lts z =
      let next = set payouts w share in
      let len = length-set payouts w share in
      rw (write-ok payouts w share lts.0) (
        Returns-mono _ _ (pay_shares {E = E} share ws next)
          (pay_shares-Returns share (suc w) ws next asc.1
            (subst (λ (k : ℕ). All (λ (j : ℕ). j < k) ws) (sym len) lts.1)
            (ZeroFrom-set lo w share payouts asc.0 z))
          (λ out (s, l, each). (
            omega (arith, s, sum-set payouts w share (z w asc.0 lts.0)),
            l ∙ len,
            λ j. ground (arith, each j, entry-set payouts w share j lts.0),
          )))

  -- As many winners as there are odd chips get one more.
  pay_odd-Returns :
      (remainder : ℕ) (ws payouts : List ℕ)
      → remainder ≤ length ws
      → All (λ (j : ℕ). j < length payouts) ws
      → sum payouts + remainder < u64_mod
      → Returns (pay_odd {E = E} remainder ws payouts) (λ out.
        (sum out ≡ sum payouts + remainder)
        × (length out ≡ length payouts)
        × ((j : ℕ) → entry out j ≡ entry payouts j + first_odd remainder ws j))
  unfolding pay_odd
  pay_odd-Returns remainder [] payouts le lts fits = (omega arith, refl, λ j. omega arith)
  pay_odd-Returns zero (w ∷ ws) payouts le lts fits = (omega arith, refl, λ j. omega arith)
  pay_odd-Returns (suc remainder) (w ∷ ws) payouts le lts fits =
      let (a, e) = get_elem?-lt payouts w lts.0 in
      let next = set payouts w (a + 1) in
      let len = length-set payouts w (a + 1) in
      let moved = sum-set payouts w (a + 1) e in
      rw
        (
          index-ok payouts w e,
          add64-ok a 1 (omega (arith, get_elem?-le-sum payouts w a e)),
          write-ok payouts w (a + 1) lts.0,
        )
        (Returns-mono _ _ (pay_odd {E = E} remainder ws next)
          (pay_odd-Returns remainder ws next (omega arith)
            (subst (λ (k : ℕ). All (λ (j : ℕ). j < k) ws) (sym len) lts.1) (omega (arith, moved)))
          (λ out (s, l, each). (
            omega (arith, s, moved),
            l ∙ len,
            λ j.
                one_more j w a (first_odd remainder ws j) (each j)
                  (entry-set payouts w (a + 1) j lts.0)
                  (λ same. ap (entry payouts) (sym same) ∙ entry-get_elem? payouts w e),
          )))

-- The payouts of a pot add up to the pot, one entry for every seat, and the entry of a seat is its
-- share of the pot among the winners.
abbrev pub PaysOut : ℕ → ℕ → Pot → PotAward → Type 0
PaysOut button n pot award =
    (sum award.payouts ≡ pot.amount)
    × (length award.payouts ≡ n)
    × (award.amount ≡ pot.amount)
    × ((j : ℕ) → entry award.payouts j ≡ share_of button n pot.amount award.winners j)

module _ {ℓ} (E : Type ℓ) (n button : ℕ) (btn : button < n) (small : n ≤ 9) where
  pub split_pot-PaysOut :
      (pot : Pot) (w : ℕ) (ws : List ℕ)
      → pot.amount < u64_mod
      → Ascends 0 (w ∷ ws)
      → All (λ (j : ℕ). j < n) (w ∷ ws)
      → Returns
          (split_pot {E = E} pot (w ∷ ws) button n)
          (λ award. PaysOut button n pot award × (award.winners ≡ w ∷ ws))
  unfolding split_pot odd_chip_order
  split_pot-PaysOut pot w ws fits asc lts =
      let winners = w ∷ ws in
      let k = length winners in
      let share = pot.amount / k in
      let remainder = pot.amount % k in
      let split = div-add-mod pot.amount k in
      let len : length (replicate {A = ℕ} n 0) ≡ n = length-replicate n 0 in
      rw (div64-ok pot.amount k (omega arith), rem64-ok pot.amount k (omega arith))
        (Returns-bind _ _ (pay_shares {E = E} share winners (replicate n 0)) _
          (pay_shares-Returns E share 0 winners (replicate n 0) asc
            (subst (λ (t : ℕ). All (λ (j : ℕ). j < t) winners) (sym len) lts)
            (λ j le lt. get_elem?-replicate n j 0 (omega (arith, len))))
          (λ shared (s, l, each).
            let whole : sum shared + remainder ≡ pot.amount =
              omega (arith, s, sum-replicate n, split) in
            elim (Bool-cases (ltb 0 remainder)) [
              | inr even ↦ rw even (
                (
                  omega (arith, whole, ltb→le 0 remainder even),
                  l ∙ len,
                  refl,
                  λ j.
                      only_shares (is_winner j winners) (ahead (clockwise button n) j winners) share
                        (entry (replicate n 0) j) (each j) (entry-replicate n j)
                        (ltb→le 0 remainder even),
                ),
                refl,
              )
              | inl odd ↦
                  let start = (button + 1) % n in
                  let place = seat_place start n in
                  let sorted = sort_by-All (λ j. j < n) place winners lts in
                  let same = sort_by-length place winners in
                  let order = sort_by (seat_place start n) winners in
                  rw (odd, add64-ok button 1 (omega arith), rem64-ok (button + 1) n (omega arith))
                    (Returns-bind _ _ (pay_odd {E = E} remainder order shared) _
                      (pay_odd-Returns E remainder order shared
                        (omega (arith, same, mod_le pot.amount k (omega arith)))
                        (subst (λ (t : ℕ). All (λ (j : ℕ). j < t) order) (sym (l ∙ len)) sorted)
                        (omega (arith, whole)))
                      (λ out (s', l', more). (
                        (
                          omega (arith, s', whole),
                          l' ∙ l ∙ len,
                          refl,
                          λ j.
                              with_odd_chip (is_winner j winners)
                                (ltb (ahead (clockwise button n) j winners) remainder)
                                (entry shared j) share (entry (replicate n 0) j)
                                (first_odd remainder order j) (more j) (each j)
                                (entry-replicate n j)
                                (odd_chips button n btn remainder winners j asc lts),
                        ),
                        refl,
                      )))
            ]))
    where
      mod_le : (a k : ℕ) → 0 < k → a % k < k
      mod_le a k pos = grind arith
