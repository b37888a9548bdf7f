-- ===== src/Showdown/Shares.antt =====
-- game/src/showdown.rs: what each seat is to get of a pot, described without the loops that pay it.
use ten_cent_poker_client.Prelude.{
  ℕ, zero, suc, ◌+◌, ◌-◌, ◌/◌, ◌%◌, ◌≤◌, ◌<◌, ◌≡◌, refl, ap, subst, ==→eq, ◌∙◌, Bool, true, false,
  ◌&&◌, ◌||◌, some, List, [], ◌∷◌, arith, length, get_elem?, set, replicate, ltb, ◌==◌,
  if◌then◌else◌, All, Bool-cases, inl, inr,
}
use ten_cent_poker_client.Showdown.Defs.{insert_by, sort_by}

-- The entry `j` of a list, 0 behind its end.
abbrev pub entry : List ℕ → ℕ → ℕ
entry [] j = 0
entry (x ∷ xs) zero = x
entry (x ∷ xs) (suc j) = entry xs j

abbrev pub is_winner : ℕ → List ℕ → Bool
is_winner j [] = false
is_winner j (w ∷ ws) = (w == j) || is_winner j ws

-- How many seats lie between the button and the seat `j` of `n`, clockwise.
abbrev pub clockwise : ℕ → ℕ → ℕ → ℕ
clockwise button n j = if ltb button j then j - suc button else j + n - suc button

-- How many of the winners come before `j`.
abbrev pub ahead : (ℕ → ℕ) → ℕ → List ℕ → ℕ
ahead place j [] = 0
ahead place j (w ∷ ws) = (if ltb (place w) (place j) then 1 else 0) + ahead place j ws

-- A winner gets an equal part of the pot, and one of the odd chips where fewer winners come before it,
-- clockwise from the button, than there are odd chips. Nobody else gets anything.
abbrev pub share_of : ℕ → ℕ → ℕ → List ℕ → ℕ → ℕ
share_of button n amount winners j =
    if is_winner j winners
    then amount / length winners
      + (if ltb (ahead (clockwise button n) j winners) (amount % length winners) then 1 else 0)
    else 0

pub entry-get_elem? : (xs : List ℕ) (i : ℕ) {a : ℕ} → get_elem? xs i ≡ some a → entry xs i ≡ a
entry-get_elem? [] i e = cc
entry-get_elem? (x ∷ xs) zero e = cc
entry-get_elem? (x ∷ xs) (suc i) e = entry-get_elem? xs i e

pub entry-set :
    (xs : List ℕ) (i v j : ℕ)
    → i < length xs
    → entry (set xs i v) j ≡ (if i == j then v else entry xs j)
entry-set [] i v j h = elim h [ ]
entry-set (x ∷ xs) zero v zero h = refl
entry-set (x ∷ xs) zero v (suc j) h = ground arith
entry-set (x ∷ xs) (suc i) v zero h = ground arith
entry-set (x ∷ xs) (suc i) v (suc j) h = ground (arith, entry-set xs i v j)

pub entry-replicate : (n j : ℕ) → entry (replicate n 0) j ≡ 0
entry-replicate zero j = refl
entry-replicate (suc n) zero = refl
entry-replicate (suc n) (suc j) = entry-replicate n j

-- The only eligible seat gets the pot.
pub sole_share :
    (button n amount seat j : ℕ) (eligible : List ℕ) {before : ℕ}
    → length eligible ≡ 1
    → get_elem? eligible 0 ≡ some seat
    → before ≡ 0
    → (if seat == j then amount else before) ≡ share_of button n amount eligible j
sole_share button n amount seat j [] one there z = cc
sole_share button n amount seat j (x ∷ y ∷ more) one there z = absurd (two one)
  where
    two : suc (suc (length more)) ≡ 1 → ⊥
    two e = omega (arith, e)
sole_share button n amount seat j (x ∷ []) one there z =
    let same : x ≡ seat = cc in
    let whole : amount / 1 ≡ amount = omega arith in
    let even : amount % 1 ≡ 0 = omega arith in
    rw (same, even, whole)
      (elim (Bool-cases (seat == j)) [ inl own ↦ rw own (ground arith) | inr other ↦ rw other z ])

-- How many of the first `r` entries are `j`.
abbrev pub first_odd : ℕ → List ℕ → ℕ → ℕ
first_odd r [] j = 0
first_odd zero (w ∷ ws) j = 0
first_odd (suc r) (w ∷ ws) j = (if w == j then 1 else 0) + first_odd r ws j

module _ (place : ℕ → ℕ) where
  -- The places rise strictly.
  abbrev pub Rises : List ℕ → Type 0
  Rises [] = Unit
  Rises (x ∷ xs) = All (λ y. place x < place y) xs × Rises xs

  ahead_none :
      (x j : ℕ) (xs : List ℕ)
      → All (λ y. place x < place y) xs
      → place j ≤ place x
      → ahead place j xs ≡ 0
  ahead_none x j [] h le = refl
  ahead_none x j (y ∷ xs) h le = ground (arith, ahead_none x j xs h.1, h.0)

  is_winner-behind :
      (x j : ℕ) (xs : List ℕ)
      → All (λ y. place x < place y) xs
      → is_winner j xs ≡ true
      → place x < place j
  is_winner-behind x j [] h e = cc
  is_winner-behind x j (y ∷ xs) h e = elim (Bool-cases (y == j)) [
    | inl same ↦ subst (λ (z : ℕ). place x < place z) (==→eq y j same) h.0
    | inr other ↦ is_winner-behind x j xs h.1 (ground arith)
  ]

  -- In a list whose places rise, the first `r` entries are those with fewer than `r` before them.
  pub first_odd-ahead :
      (r : ℕ) (xs : List ℕ) (j : ℕ)
      → Rises xs
      → first_odd r xs j ≡ (if is_winner j xs && ltb (ahead place j xs) r then 1 else 0)
  first_odd-ahead r [] j h = refl
  first_odd-ahead zero (x ∷ xs) j h = ground arith
  first_odd-ahead (suc r) (x ∷ xs) j h =
      let ih = first_odd-ahead r xs j h.1 in
      elim (Bool-cases (x == j)) [
        | inl same ↦
            let at : place x ≡ place j = ap place (==→eq x j same) in
            let none = ahead_none x j xs h.0 (omega (arith, at)) in
            elim (Bool-cases (is_winner j xs)) [
              | inl later ↦ absurd (irrefl at (is_winner-behind x j xs h.0 later))
              | inr once ↦ ground (arith, ih, same, none, once, at)
            ]
        | inr other ↦ elim (Bool-cases (is_winner j xs)) [
          | inl later ↦
              let behind = is_winner-behind x j xs h.0 later in
              ground (arith, ih, other, later, behind)
          | inr never ↦ ground (arith, ih, other, never)
        ]
      ]
    where
      irrefl : {a b : ℕ} → a ≡ b → a < b → ⊥
      irrefl e lt = omega (arith, e, lt)

  ahead-insert_by :
      (j x : ℕ) (xs : List ℕ) → ahead place j (insert_by place x xs) ≡ ahead place j (x ∷ xs)
  unfolding insert_by
  ahead-insert_by j x [] = refl
  ahead-insert_by j x (y ∷ ys) = ground (arith, ahead-insert_by j x ys)

  is_winner-insert_by :
      (j x : ℕ) (xs : List ℕ) → is_winner j (insert_by place x xs) ≡ is_winner j (x ∷ xs)
  unfolding insert_by
  is_winner-insert_by j x [] = refl
  is_winner-insert_by j x (y ∷ ys) = ground (arith, is_winner-insert_by j x ys)

  pub ahead-sort_by : (j : ℕ) (xs : List ℕ) → ahead place j (sort_by place xs) ≡ ahead place j xs
  unfolding sort_by
  ahead-sort_by j [] = refl
  ahead-sort_by j (x ∷ xs) =
      ahead-insert_by j x (sort_by place xs)
      ∙ ap (λ (k : ℕ). (if ltb (place x) (place j) then 1 else 0) + k) (ahead-sort_by j xs)

  pub is_winner-sort_by : (j : ℕ) (xs : List ℕ) → is_winner j (sort_by place xs) ≡ is_winner j xs
  unfolding sort_by
  is_winner-sort_by j [] = refl
  is_winner-sort_by j (x ∷ xs) =
      is_winner-insert_by j x (sort_by place xs)
      ∙ ap (λ (b : Bool). (x == j) || b) (is_winner-sort_by j xs)
