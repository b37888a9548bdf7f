-- ===== src/HandEval/Best.antt =====
-- `combinations5` lists the five-card subsets, and `evaluate_best` returns the largest value of one.
use ten_cent_poker_client.Prelude.{
  ℕ, zero, suc, ◌+◌, ◌-◌, ◌≤◌, ◌<◌, ◌≡◌, refl, true, Option, none, some, List, [], ◌∷◌, ◌++◌, arith,
  ltb, Outcome, ok, ◌>>=◌, length, get_elem?-lt, All, All-append, Returns, Returns-bind,
  Returns-mono, Returns-value, index-ok, Bool-cases, inl, inr, ◌⊎◌, ◌∙◌, ap, sym, subst, ltb→lt,
  ltb→le,
}
use mathlib.Core.Logic.{Lift}
use ten_cent_poker_client.Cards.{Card}
use ten_cent_poker_client.HandEval.Defs.{
  HandValue, value_le, for_from, for_range, combinations5, pick, better, best_of, evaluate_five,
  evaluate_best,
}
use ten_cent_poker_client.HandEval.Order.{value_le_refl, value_le_total, value_le_trans}
use ten_cent_poker_client.HandEval.Groups.{evaluate_five-Returns}

-- `x` stands in the list.
abbrev pub Has {ℓ} : {A : Type ℓ} → A → List A → Type ℓ
Has x [] = Lift ⊥
Has x (y ∷ ys) = (x ≡ y) ⊎ Has x ys

module _ {ℓ} {A : Type ℓ} (x : A) where
  pub Has-append_left : (xs ys : List A) → Has x xs → Has x (xs ++ ys)
  Has-append_left [] ys h = absurd h.lower
  Has-append_left (y ∷ xs) ys (inl e) = inl e
  Has-append_left (y ∷ xs) ys (inr h) = inr (Has-append_left xs ys h)

  pub Has-append_right : (xs ys : List A) → Has x ys → Has x (xs ++ ys)
  Has-append_right [] ys h = h
  Has-append_right (y ∷ xs) ys h = inr (Has-append_right xs ys h)

  pub Has-append_cases : (xs ys : List A) → Has x (xs ++ ys) → Has x xs ⊎ Has x ys
  Has-append_cases [] ys h = inr h
  Has-append_cases (y ∷ xs) ys (inl e) = inl (inl e)
  Has-append_cases (y ∷ xs) ys (inr h) = elim (Has-append_cases xs ys h) [
    | inl l ↦ inl (inr l)
    | inr r ↦ inr r
  ]

  Has-for_from :
      (lo rounds : ℕ) (body : ℕ → List A) (i : ℕ)
      → lo ≤ i
      → i < lo + rounds
      → Has x (body i)
      → Has x (for_from lo rounds body)
  unfolding for_from
  Has-for_from lo zero body i le lt h = absurd (omega arith)
  Has-for_from lo (suc rounds) body i le lt h = elim (Bool-cases (ltb lo i)) [
    | inl later ↦
        Has-append_right (body lo) (for_from (suc lo) rounds body)
          (Has-for_from (suc lo) rounds body i (omega (arith, ltb→lt lo i later)) (omega arith) h)
    | inr now ↦
        Has-append_left (body lo) (for_from (suc lo) rounds body)
          (subst (λ (k : ℕ). Has x (body k)) (omega (arith, ltb→le lo i now)) h)
  ]

  Has-for_range :
      (lo n : ℕ) (body : ℕ → List A) (i : ℕ)
      → lo ≤ i
      → i < n
      → Has x (body i)
      → Has x (for_range lo n body)
  unfolding for_range
  Has-for_range lo n body i le lt h = Has-for_from lo (n - lo) body i le (omega arith) h

module _ {ℓ κ} {A : Type ℓ} (P : A → Type κ) where
  All-for_from :
      (lo rounds : ℕ) (body : ℕ → List A)
      → ((i : ℕ) → lo ≤ i → i < lo + rounds → All P (body i))
      → All P (for_from lo rounds body)
  unfolding for_from
  All-for_from lo zero body h = tt
  All-for_from lo (suc rounds) body h =
      All-append P (body lo) (for_from (suc lo) rounds body) (h lo (omega arith) (omega arith))
        (All-for_from (suc lo) rounds body (λ i le lt. h i (omega arith) (omega arith)))

  All-for_range :
      (lo n : ℕ) (body : ℕ → List A)
      → ((i : ℕ) → lo ≤ i → i < n → All P (body i))
      → All P (for_range lo n body)
  unfolding for_range
  All-for_range lo n body h = All-for_from lo (n - lo) body (λ i le lt. h i le (omega arith))

-- Five indices into a list of length `n`.
abbrev IsCombo : ℕ → List ℕ → Type 0
IsCombo n combo = (length combo ≡ 5) × All (λ (i : ℕ). i < n) combo

combinations5-All : (n : ℕ) → All (IsCombo n) (combinations5 n)
unfolding combinations5
combinations5-All n = All-for_range (IsCombo n) 0 n _ λ a la ha.
    All-for_range (IsCombo n) (a + 1) n _ λ b lb hb.
      All-for_range (IsCombo n) (b + 1) n _ λ c lc hc.
        All-for_range (IsCombo n) (c + 1) n _ λ d ld hd.
          All-for_range (IsCombo n) (d + 1) n _
            λ e le he. ((refl, (ha, (hb, (hc, (hd, (he, tt)))))), tt)

-- Every strictly increasing choice of five indices below `n` is listed.
pub combinations5_complete :
    (n a b c d e : ℕ)
    → a < b
    → b < c
    → c < d
    → d < e
    → e < n
    → Has (a ∷ b ∷ c ∷ d ∷ e ∷ []) (combinations5 n)
unfolding combinations5
combinations5_complete n a b c d e ab bc cd de en =
    let x = a ∷ b ∷ c ∷ d ∷ e ∷ [] in
    Has-for_range x 0 n _ a (omega arith) (omega arith) (
      Has-for_range x (a + 1) n _ b (omega arith) (omega arith) (
        Has-for_range x (b + 1) n _ c (omega arith) (omega arith) (
          Has-for_range x (c + 1) n _ d (omega arith) (omega arith)
            (Has-for_range x (d + 1) n _ e (omega arith) en (inl refl)))))

module _ (E : Type 0) (cards : List Card) where
  pick-Returns :
      (is : List ℕ)
      → All (λ (i : ℕ). i < length cards) is
      → Returns (pick {E = E} cards is) (λ five. length five ≡ length is)
  unfolding pick
  pick-Returns [] h = refl
  pick-Returns (i ∷ is) h =
      let (c, e) = get_elem?-lt cards i h.0 in
      rw (index-ok cards i e) (
        Returns-bind (λ five. length five ≡ length is) _ (pick {E = E} cards is) _
          (pick-Returns is h.1) (λ five same. ap suc same))

  -- The value of the cards at the indices of a combination.
  abbrev pub Evaluates : List ℕ → HandValue → Type 0
  Evaluates combo v = (pick {E = E} cards combo >>= evaluate_five) ≡ ok v

  evaluates : (combo : List ℕ) → IsCombo (length cards) combo → (v : HandValue) × Evaluates combo v
  evaluates combo (five, inside) =
      let (hand, picked, len) =
        Returns-value (λ hand. length hand ≡ length combo) (pick {E = E} cards combo)
          (pick-Returns combo inside) in
      let (v, valued, _) =
        Returns-value (λ v. Unit) (evaluate_five {E = E} hand)
          (evaluate_five-Returns E hand (len ∙ five)) in
      (v, ap (λ (m : Outcome E (List Card)). m >>= evaluate_five) picked ∙ valued)

  -- The value `v` is no larger than the best one so far.
  abbrev AtMost : HandValue → Option HandValue → Type 0
  AtMost v none = ⊥
  AtMost v (some b) = value_le v b ≡ true

  -- What the loop makes of `best` over the combinations.
  record Best (combos : List (List ℕ)) (best out : Option HandValue) : Type 0 where
    above : (combo : List ℕ) → Has combo combos → (v : HandValue) × Evaluates combo v × AtMost v out
    grows : (v : HandValue) → AtMost v best → AtMost v out
    attained :
        (out ≡ best)
        ⊎ ((combo : List ℕ) × (v : HandValue) × Has combo combos
            × Evaluates combo v
            × (out ≡ some v))

  better_new : (best : Option HandValue) (v : HandValue) → AtMost v (better best v)
  better_new none v = value_le_refl v
  better_new (some b) v = elim (Bool-cases (value_le v b)) [
    | inl le ↦ rw (le, AtMost) le
    | inr gt ↦ rw (gt, AtMost) (value_le_refl v)
  ]

  better_grows :
      (best : Option HandValue) (v w : HandValue) → AtMost w best → AtMost w (better best v)
  better_grows none v w h = absurd h
  better_grows (some b) v w h = elim (Bool-cases (value_le v b)) [
    | inl le ↦ rw (le, AtMost) h
    | inr gt ↦ rw (gt, AtMost) (value_le_trans w b v h (value_le_total v b gt))
  ]

  better_either :
      (best : Option HandValue) (v : HandValue) → (better best v ≡ best) ⊎ (better best v ≡ some v)
  better_either none v = inr refl
  better_either (some b) v = elim (Bool-cases (value_le v b)) [
    | inl le ↦ rw le (inl refl)
    | inr gt ↦ rw gt (inr refl)
  ]

  Best-step :
      (combo : List ℕ) (combos : List (List ℕ)) (best out : Option HandValue) (v : HandValue)
      → Evaluates combo v
      → Best combos (better best v) out
      → Best (combo ∷ combos) best out
  Best-step combo combos best out v e b = record {
    above = above;
    grows = λ w h. b.grows w (better_grows best v w h);
    attained = elim b.attained [
      | inr (c, w, h, ew, o) ↦ inr (c, w, inr h, ew, o)
      | inl same ↦ elim (better_either best v) [
        | inl kept ↦ inl (same ∙ kept)
        | inr new ↦ inr (combo, v, inl refl, e, same ∙ new)
      ]
    ];
  }
    where
      above : (c : List ℕ) → Has c (combo ∷ combos) → (w : HandValue) × Evaluates c w × AtMost w out
      above c (inl same) =
          (v, subst (λ (k : List ℕ). Evaluates k v) (sym same) e, b.grows v (better_new best v))
      above c (inr h) = b.above c h

  best_of-Best :
      (combos : List (List ℕ)) (best : Option HandValue)
      → All (IsCombo (length cards)) combos
      → Returns (best_of {E = E} cards combos best) (Best combos best)
  unfolding best_of
  best_of-Best [] best all = record {
    above = λ c h. absurd h.lower;
    grows = λ v h. h;
    attained = inl refl;
  }
  best_of-Best (combo ∷ combos) best all =
      let (hand, picked, len) =
        Returns-value (λ hand. length hand ≡ length combo) (pick {E = E} cards combo)
          (pick-Returns combo all.0.1) in
      let (v, valued, _) =
        Returns-value (λ v. Unit) (evaluate_five {E = E} hand)
          (evaluate_five-Returns E hand (len ∙ all.0.0)) in
      let e : Evaluates combo v =
        ap (λ (m : Outcome E (List Card)). m >>= evaluate_five) picked ∙ valued in
      rw (picked, valued)
        (Returns-mono (Best combos (better best v)) (Best (combo ∷ combos) best)
          (best_of {E = E} cards combos (better best v)) (best_of-Best combos (better best v) all.1)
          (λ out b. Best-step combo combos best out v e b))

  -- `evaluate_best` returns for all cards: none for fewer than five, and otherwise the value of some
  -- five of them, which no five of them exceed.
  pub evaluate_best_lem : Returns (evaluate_best {E = E} cards) (λ out.
      ((length cards < 5) × (out ≡ none))
      ⊎ ((5 ≤ length cards)
          × ((w : HandValue) × (out ≡ some w)
              × ((combo : List ℕ) × Has combo (combinations5 (length cards)) × Evaluates combo w)
              × ((combo : List ℕ)
                  → Has combo (combinations5 (length cards))
                  → (v : HandValue) × Evaluates combo v × (value_le v w ≡ true)))))
  unfolding evaluate_best
  evaluate_best_lem = elim (Bool-cases (ltb (length cards) 5)) [
    | inl few ↦ rw few (inl (ltb→lt (length cards) 5 few, refl))
    | inr enough ↦
        let le = ltb→le (length cards) 5 enough in
        rw enough (
          Returns-mono (Best (combinations5 (length cards)) none) _
            (best_of {E = E} cards (combinations5 (length cards)) none)
            (best_of-Best (combinations5 (length cards)) none (combinations5-All (length cards)))
            (λ out b. inr (le, found out b le)))
  ]
    where
      found :
          (out : Option HandValue)
          → Best (combinations5 (length cards)) none out
          → 5 ≤ length cards
          → (w : HandValue) × (out ≡ some w)
            × ((combo : List ℕ) × Has combo (combinations5 (length cards)) × Evaluates combo w)
            × ((combo : List ℕ)
                → Has combo (combinations5 (length cards))
                → (v : HandValue) × Evaluates combo v × (value_le v w ≡ true))
      found none b le =
          absurd
            (b.above _ (
              combinations5_complete (length cards) 0 1 2 3 4 (omega arith) (omega arith)
                (omega arith) (omega arith) (omega arith))).2
      found (some w) b le = elim b.attained [
        | inl same ↦ cc
        | inr (combo, v, h, e, o) ↦ (w, refl, (combo, h, subst (Evaluates combo) (cc) e), b.above)
      ]
