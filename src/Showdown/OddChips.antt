-- ===== src/Showdown/OddChips.antt =====
-- game/src/showdown.rs: odd_chip_order brings the winners into the order clockwise from the button.
use ten_cent_poker_client.Prelude.{
  ℕ, suc, ◌+◌, ◌-◌, ◌%◌, ◌≤◌, ◌<◌, ◌≡◌, ◌≢◌, refl, ap, ◌∙◌, false, ◌&&◌, List, [], ◌∷◌, arith,
  length, ltb, leb, if◌then◌else◌, All, Ascends, Bool-cases, inl, inr, ltb→lt, ltb→le, leb→le,
}
use native.Mathlib.Nat.{mod-eq_of_lt, mod-eq-sub-mod}
use ten_cent_poker_client.Showdown.Defs.{insert_by, sort_by, seat_place}
use ten_cent_poker_client.Showdown.Shares.{
  is_winner, clockwise, ahead, first_odd, Rises, first_odd-ahead, ahead-sort_by, is_winner-sort_by,
}

pub insert_by-All :
    (P : ℕ → Type 0) (place : ℕ → ℕ) (x : ℕ) (xs : List ℕ)
    → P x
    → All P xs
    → All P (insert_by place x xs)
unfolding insert_by
insert_by-All P place x [] h hs = (h, tt)
insert_by-All P place x (y ∷ ys) h hs = elim (Bool-cases (leb (place x) (place y))) [
  | inl le ↦ rw le (h, hs)
  | inr gt ↦ rw gt (hs.0, insert_by-All P place x ys h hs.1)
]

pub sort_by-All :
    (P : ℕ → Type 0) (place : ℕ → ℕ) (xs : List ℕ) → All P xs → All P (sort_by place xs)
unfolding sort_by
sort_by-All P place [] h = tt
sort_by-All P place (x ∷ xs) h =
    insert_by-All P place x (sort_by place xs) h.0 (sort_by-All P place xs h.1)

insert_by-length :
    (place : ℕ → ℕ) (x : ℕ) (xs : List ℕ) → length (insert_by place x xs) ≡ suc (length xs)
unfolding insert_by
insert_by-length place x [] = refl
insert_by-length place x (y ∷ ys) = ground (arith, insert_by-length place x ys)

pub sort_by-length : (place : ℕ → ℕ) (xs : List ℕ) → length (sort_by place xs) ≡ length xs
unfolding sort_by
sort_by-length place [] = refl
sort_by-length place (x ∷ xs) =
    insert_by-length place x (sort_by place xs) ∙ ap suc (sort_by-length place xs)

module _ (place : ℕ → ℕ) where
  -- No two entries have the same place.
  abbrev Apart : List ℕ → Type 0
  Apart [] = Unit
  Apart (x ∷ xs) = All (λ y. place x ≢ place y) xs × Apart xs

  below-All :
      (x y : ℕ) (ys : List ℕ)
      → place x < place y
      → All (λ z. place y < place z) ys
      → All (λ z. place x < place z) ys
  below-All x y [] h hs = tt
  below-All x y (z ∷ ys) h hs = (omega (arith, h, hs.0), below-All x y ys h hs.1)

  insert_by-Rises :
      (x : ℕ) (xs : List ℕ)
      → All (λ y. place x ≢ place y) xs
      → Rises place xs
      → Rises place (insert_by place x xs)
  unfolding insert_by
  insert_by-Rises x [] apart h = (tt, tt)
  insert_by-Rises x (y ∷ ys) apart h = elim (Bool-cases (leb (place x) (place y))) [
    | inl le ↦
        let below = le_ne (place x) (place y) (leb→le (place x) (place y) le) apart.0 in
        rw le ((below, below-All x y ys below h.0), h)
    | inr gt ↦ rw gt (
      insert_by-All (λ z. place y < place z) place x ys (leb→gt (place x) (place y) gt) h.0,
      insert_by-Rises x ys apart.1 h.1,
    )
  ]
    where
      le_ne : (a b : ℕ) → a ≤ b → a ≢ b → a < b
      le_ne a b le ne = omega (arith, le, ne)

      leb→gt : (a b : ℕ) → leb a b ≡ false → b < a
      leb→gt a b e = ground arith

  sort_by-Rises : (xs : List ℕ) → Apart xs → Rises place (sort_by place xs)
  unfolding sort_by
  sort_by-Rises [] h = tt
  sort_by-Rises (x ∷ xs) h =
      insert_by-Rises x (sort_by place xs) (sort_by-All (λ y. place x ≢ place y) place xs h.0)
        (sort_by-Rises xs h.1)

module _ (button n : ℕ) (btn : button < n) where
  clockwise-apart : (a b : ℕ) → a < b → b < n → clockwise button n a ≢ clockwise button n b
  clockwise-apart a b lt in_table = λ e. ground (arith, e)

  clockwise-Apart :
      (lo : ℕ) (xs : List ℕ) → Ascends lo xs → All (λ j. j < n) xs → Apart (clockwise button n) xs
  clockwise-Apart lo [] asc lts = tt
  clockwise-Apart lo (x ∷ xs) asc lts =
      (from (suc x) xs (omega arith) asc.1 lts.1, clockwise-Apart (suc x) xs asc.1 lts.1)
    where
      from :
          (lo : ℕ) (ys : List ℕ)
          → x < lo
          → Ascends lo ys
          → All (λ j. j < n) ys
          → All (λ y. clockwise button n x ≢ clockwise button n y) ys
      from lo [] lt asc lts = tt
      from lo (y ∷ ys) lt asc lts = (
        clockwise-apart x y (omega (arith, lt, asc.0)) lts.0,
        from (suc y) ys (omega (arith, lt, asc.0)) asc.1 lts.1,
      )

  -- The key of the sort is the place clockwise from the button.
  seat_place-clockwise : (j : ℕ) → j < n → seat_place ((button + 1) % n) n j ≡ clockwise button n j
  seat_place-clockwise j lt = elim (Bool-cases (ltb (suc button) n)) [
    | inl more ↦
        let room = ltb→lt (suc button) n more in
        rw (mod-eq_of_lt {n = button + 1} {m = n} (omega arith)) (elim (Bool-cases (ltb button j)) [
          | inl left ↦
              let past = ltb→lt button j left in
              rw left (
                mod-eq-sub-mod {n = j + n - (button + 1)} {m = n} (omega arith)
                ∙ ap (λ (x : ℕ). x % n) (omega arith)
                ∙ mod-eq_of_lt (omega arith))
          | inr right ↦
              let upto = ltb→le button j right in
              rw right (mod-eq_of_lt {n = j + n - (button + 1)} {m = n} (omega arith) ∙ omega arith)
        ])
    | inr last ↦
        let full = ltb→le (suc button) n last in
        let whole : (button + 1) % n ≡ 0 =
          mod-eq-sub-mod {n = button + 1} {m = n} (omega arith)
          ∙ ap (λ (x : ℕ). x % n) (omega arith)
          ∙ mod-eq_of_lt {n = 0} {m = n} (omega arith) in
        rw whole (
          ap (λ (x : ℕ). x % n) (omega arith)
          ∙ mod-eq-sub-mod {n = j + n} {m = n} (omega arith)
          ∙ ap (λ (x : ℕ). x % n) (omega arith)
          ∙ mod-eq_of_lt lt
          ∙ ground arith)
  ]

  insert_by-agree :
      (x : ℕ) (xs : List ℕ)
      → x < n
      → All (λ j. j < n) xs
      → insert_by (seat_place ((button + 1) % n) n) x xs ≡ insert_by (clockwise button n) x xs
  unfolding insert_by
  insert_by-agree x [] h hs = refl
  insert_by-agree x (y ∷ ys) h hs =
      rw (seat_place-clockwise x h, seat_place-clockwise y hs.0, insert_by-agree x ys h hs.1) refl

  sort_by-agree :
      (xs : List ℕ)
      → All (λ j. j < n) xs
      → sort_by (seat_place ((button + 1) % n) n) xs ≡ sort_by (clockwise button n) xs
  unfolding sort_by
  sort_by-agree [] hs = refl
  sort_by-agree (x ∷ xs) hs = rw (sort_by-agree xs hs.1) (
      insert_by-agree x (sort_by (clockwise button n) xs) hs.0
        (sort_by-All (λ j. j < n) (clockwise button n) xs hs.1))

  -- Who gets the odd chips, of winners in ascending order.
  pub odd_chips :
      (r : ℕ) (winners : List ℕ) (j : ℕ)
      → Ascends 0 winners
      → All (λ i. i < n) winners
      → first_odd r (sort_by (seat_place ((button + 1) % n) n) winners) j
        ≡ (if is_winner j winners && ltb (ahead (clockwise button n) j winners) r then 1 else 0)
  odd_chips r winners j asc lts =
      let place = clockwise button n in
      rw (sort_by-agree winners lts) (
        first_odd-ahead place r (sort_by place winners) j
          (sort_by-Rises place winners (clockwise-Apart 0 winners asc lts))
        ∙ rw (ahead-sort_by place j winners, is_winner-sort_by place j winners) refl)
