-- ===== src/Core.antt =====
-- core/src/lib.rs: the functions of the core crate that Verus checks, with the loops written as the
-- rounds left. A `while` loop over the indices of a vector makes as many rounds as there are indices
-- left, and its index stays below the vector's length, so it does not overflow. No function here
-- returns an error, so the error type is a parameter.
use ten_cent_poker_client.Prelude.{
  ℕ, zero, suc, ◌+◌, ◌-◌, ◌≤◌, ◌<◌, ◌≡◌, refl, sym, ◌∙◌, ap, Bool, true, false, inl, inr, List, [],
  ◌∷◌, some, arith, ltb, if◌then◌else◌, ltb→lt, ltb→le, le→ltb, lt→ltb, Bool-cases, Outcome, ok,
  panic, ◌>>=◌, length, sum, get_elem?, get_elem?-lt, get_or, index, index-ok, add64, add64-ok,
  add64-panic, sub64, u64_mod, Returns,
}

module _ {ℓ} {E : Type ℓ} where
  unfoldable pub amount_to_call : ℕ → ℕ → Outcome E ℕ
  amount_to_call current_bet already_in = sub64 current_bet already_in

  -- The `while` loop of `winner_by_stack`, with the rounds left.
  unfoldable pub scan_best : List ℕ → ℕ → ℕ → ℕ → Outcome E ℕ
  scan_best stacks zero i best = ok best
  scan_best stacks (suc rounds) i best = do
    here ← index stacks i
    top ← index stacks best
    scan_best stacks rounds (suc i) (if ltb top here then i else best)

  unfoldable pub winner_by_stack : List ℕ → Outcome E ℕ
  winner_by_stack stacks = scan_best stacks (length stacks - 1) 1 0

  -- The `while` loop of `total_pot`, with the rounds left.
  unfoldable pub scan_total : List ℕ → ℕ → ℕ → ℕ → Outcome E ℕ
  scan_total contribs zero i pot = ok pot
  scan_total contribs (suc rounds) i pot = do
    c ← index contribs i
    more ← add64 pot c
    scan_total contribs rounds (suc i) more

  unfoldable pub total_pot : List ℕ → Outcome E ℕ
  total_pot contribs = scan_total contribs (length contribs) 0 0

-- The specification sum of the first `n` contributions; behind the end there is nothing to add.
abbrev pub sum_contribs : List ℕ → ℕ → ℕ
sum_contribs contribs zero = 0
sum_contribs contribs (suc n) = sum_contribs contribs n + get_or contribs n 0

-- Among the first `upto` stacks the seat `w` has the largest, and every seat before it has less.
abbrev pub IsChipLeader : List ℕ → ℕ → ℕ → Type 0
IsChipLeader stacks upto w =
    (top : ℕ) × (get_elem? stacks w ≡ some top)
    × ((j v : ℕ) → get_elem? stacks j ≡ some v → j < upto → (v ≤ top) × (j < w → v < top))

module _ {ℓ} (E : Type ℓ) (stacks : List ℕ) where
  leader_step :
      (i best : ℕ) (here top : ℕ)
      → get_elem? stacks i ≡ some here
      → get_elem? stacks best ≡ some top
      → best < i
      → ((j v : ℕ) → get_elem? stacks j ≡ some v → j < i → (v ≤ top) × (j < best → v < top))
      → IsChipLeader stacks (suc i) (if ltb top here then i else best)
  leader_step i best here top eh et lt leads = elim (Bool-cases (ltb top here)) [
    | inl higher ↦
        let more = ltb→lt top here higher in
        rw higher (
          here,
          eh,
          λ j v e below. elim (Bool-cases (ltb j i)) [
            | inl before ↦
                let old = (leads j v e (ltb→lt j i before)).0 in (omega arith, λ first. omega arith)
            | inr at ↦
                let same : j ≡ i = (let le = ltb→le j i at in omega arith) in
                let v_here : v ≡ here = (let f = ap (λ (k : ℕ). get_elem? stacks k) same in cc) in
                (omega arith, λ first. absurd (omega arith))
          ],
        )
    | inr no_higher ↦
        let less = ltb→le top here no_higher in
        rw no_higher (
          top,
          et,
          λ j v e below. elim (Bool-cases (ltb j i)) [
            | inl before ↦ leads j v e (ltb→lt j i before)
            | inr at ↦
                let same : j ≡ i = (let le = ltb→le j i at in omega arith) in
                let v_here : v ≡ here = (let f = ap (λ (k : ℕ). get_elem? stacks k) same in cc) in
                (omega arith, λ first. absurd (omega arith))
          ],
        )
  ]

  if_lt : (b : Bool) (i best : ℕ) → best < i → (if b then i else best) < suc i
  if_lt true i best lt = omega arith
  if_lt false i best lt = omega arith

  scan_best-Leads :
      (rounds i best : ℕ)
      → i + rounds ≡ length stacks
      → best < i
      → IsChipLeader stacks i best
      → Returns (scan_best {E = E} stacks rounds i best) (IsChipLeader stacks (length stacks))
  unfolding scan_best
  scan_best-Leads zero i best all lt (top, et, leads) =
      (top, et, λ j v e below. leads j v e (omega arith))
  scan_best-Leads (suc rounds) i best all lt (top, et, leads) =
      let (here, eh) = get_elem?-lt stacks i (omega arith) in
      rw (index-ok stacks i eh, index-ok stacks best et)
        (scan_best-Leads rounds (suc i) (if ltb top here then i else best) (omega arith)
          (if_lt (ltb top here) i best lt) (leader_step i best here top eh et lt leads))

  -- On a table with a seat, `winner_by_stack` returns a seat of the table that has the largest
  -- stack, and the first of those that have it.
  pub winner_by_stack-IsChipLeader :
      0 < length stacks
      → Returns (winner_by_stack {E = E} stacks) (IsChipLeader stacks (length stacks))
  unfolding winner_by_stack
  winner_by_stack-IsChipLeader some_seat =
      let (first, e) = get_elem?-lt stacks 0 some_seat in
      scan_best-Leads (length stacks - 1) 1 0 (omega arith) (omega arith) (
        first,
        e,
        λ j v ej lt.
            let zero_index : j ≡ 0 = (omega arith) in
            let same : v ≡ first = (let f = ap (λ (k : ℕ). get_elem? stacks k) zero_index in cc) in
            (omega arith, λ none_before. absurd (omega arith)),
      )

get_or-index : (xs : List ℕ) (i : ℕ) {v : ℕ} → get_elem? xs i ≡ some v → get_or xs i 0 ≡ v
get_or-index [] i e = cc
get_or-index (x ∷ xs) zero e = cc
get_or-index (x ∷ xs) (suc i) e = get_or-index xs i e

sum_contribs-le :
    (contribs : List ℕ) (more i hi : ℕ)
    → i + more ≡ hi
    → sum_contribs contribs i ≤ sum_contribs contribs hi
sum_contribs-le contribs zero i hi e = let same : i ≡ hi = (omega arith) in rw same (omega arith)
sum_contribs-le contribs (suc more) i hi e =
    omega (arith, sum_contribs-le contribs more (suc i) hi (omega arith))

sum_contribs-cons :
    (x : ℕ) (xs : List ℕ) (n : ℕ) → sum_contribs (x ∷ xs) (suc n) ≡ x + sum_contribs xs n
sum_contribs-cons x xs zero = omega arith
sum_contribs-cons x xs (suc n) = omega (arith, sum_contribs-cons x xs n)

sum_contribs-sum : (xs : List ℕ) → sum_contribs xs (length xs) ≡ sum xs
sum_contribs-sum [] = refl
sum_contribs-sum (x ∷ xs) = omega (arith, sum_contribs-cons x xs (length xs), sum_contribs-sum xs)

-- The value of a sum that fits a u64, and a panic otherwise.
abbrev pub fitting {ℓ} : {E : Type ℓ} → ℕ → Outcome E ℕ
fitting total = if ltb total u64_mod then ok total else panic

module _ {ℓ} (E : Type ℓ) (contribs : List ℕ) where
  scan_total-fitting :
      (rounds i : ℕ)
      → i + rounds ≡ length contribs
      → sum_contribs contribs i < u64_mod
      → scan_total {E = E} contribs rounds i (sum_contribs contribs i)
        ≡ fitting (sum_contribs contribs (length contribs))
  unfolding scan_total
  scan_total-fitting zero i all fits =
      let same : i ≡ length contribs = (omega arith) in
      rw (sym same, lt→ltb (sum_contribs contribs i) u64_mod fits)
  scan_total-fitting (suc rounds) i all fits =
      let (c, e) = get_elem?-lt contribs i (omega arith) in
      let here = get_or-index contribs i e in
      rw (index-ok contribs i e) (
        rw (sym here) (elim (Bool-cases (ltb (sum_contribs contribs (suc i)) u64_mod)) [
          | inl small ↦
              let lt = ltb→lt (sum_contribs contribs (suc i)) u64_mod small in
              rw (add64-ok (sum_contribs contribs i) (get_or contribs i 0) lt)
                (scan_total-fitting rounds (suc i) (omega arith) lt)
          | inr large ↦
              let ge = ltb→le (sum_contribs contribs (suc i)) u64_mod large in
              let le = sum_contribs-le contribs rounds (suc i) (length contribs) (omega arith) in
              rw (
                add64-panic (sum_contribs contribs i) (get_or contribs i 0) ge,
                le→ltb (sum_contribs contribs (length contribs)) u64_mod (omega arith),
              )
        ]))

  -- `total_pot` returns the sum of all contributions when it fits a u64 and overflows otherwise;
  -- that sum is the specification sum of the whole list.
  pub total_pot-fitting :
      (total_pot {E = E} contribs ≡ fitting (sum contribs))
      × (sum_contribs contribs (length contribs) ≡ sum contribs)
  unfolding total_pot
  total_pot-fitting = (
    scan_total-fitting (length contribs) 0 (omega arith) (omega arith)
        ∙ ap fitting (sum_contribs-sum contribs),
    sum_contribs-sum contribs,
  )
