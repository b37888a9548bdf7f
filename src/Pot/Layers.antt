-- ===== src/Pot/Layers.antt =====
-- The loop of `compute_pots`: each round takes one level off every seat that still has chips.
use ten_cent_poker_client.Prelude.{
  ℕ, zero, suc, ◌+◌, ◌-◌, ◌*◌, ◌≤◌, ◌<◌, ◌≡◌, refl, Bool, true, false, none, some, List, [], ◌∷◌,
  ◌++◌, inl, inr, ◌⊎◌, arith, ltb, leb, if◌then◌else◌, ok, length, length-append, get_elem?, All,
  Ascends, Ascends-push, All-lt-grow, All-append, subst, All-get_elem?, sum, sum_of, u64_mod,
  Returns, Returns-bind, add64-ok, sub64-ok, Bool-cases, leb→le, leb→lt, lt→ltb, le→leb, lt→leb, ap,
  sym,
}
use ten_cent_poker_client.Pot.Defs.{
  Layer, min_of, next_level, is_empty, empty_layer, push_unless, visit, peel, layers,
}

-- How many seats still have chips.
abbrev pub positives : List ℕ → ℕ
positives [] = 0
positives (r ∷ rs) = (if ltb 0 r then 1 else 0) + positives rs

pub positives-le : (rs : List ℕ) → positives rs ≤ length rs
positives-le [] = omega arith
positives-le (r ∷ rs) = ground (arith, positives-le rs)

abbrev pub IsLevel : ℕ → List ℕ → Type 0
IsLevel level rs =
    (0 < level)
    × ((k : ℕ) × (get_elem? rs k ≡ some level))
    × All (λ (r : ℕ). (r ≡ 0) ⊎ (level ≤ r)) rs

All-weaken :
    (m n : ℕ) (rs : List ℕ)
    → m ≤ n
    → All (λ (r : ℕ). (r ≡ 0) ⊎ (n ≤ r)) rs
    → All (λ (r : ℕ). (r ≡ 0) ⊎ (m ≤ r)) rs
All-weaken m n [] le h = tt
All-weaken m n (r ∷ rs) le h = (omega (arith, h.0), All-weaken m n rs le h.1)

All-zero : (m : ℕ) (rs : List ℕ) → sum rs ≡ 0 → All (λ (r : ℕ). (r ≡ 0) ⊎ (m ≤ r)) rs
All-zero m [] h = tt
All-zero m (r ∷ rs) h = (inl (omega arith), All-zero m rs (omega arith))

-- The next level is the least positive amount, and there is none when no chips are left.
pub next_level_lem :
    (rs : List ℕ)
    → ((next_level rs ≡ none) × (sum rs ≡ 0))
      ⊎ ((level : ℕ) × (next_level rs ≡ some level) × IsLevel level rs)
unfolding next_level min_of
next_level_lem [] = inl (refl, refl)
next_level_lem (zero ∷ rs) = elim (next_level_lem rs) [
  | inl (e, z) ↦ inl (e, omega (arith, z))
  | inr (level, e, (pos, (k, at), least)) ↦ inr (level, e, (pos, (suc k, at), (inl refl, least)))
]
next_level_lem (suc r ∷ rs) =
    let test = lt→ltb 0 (suc r) (omega arith) in
    elim (next_level_lem rs) [
      | inl (e, z) ↦ inr (
        suc r,
        rw (test, e),
        (omega arith, (0, refl), (inr (omega arith), All-zero (suc r) rs z)),
      )
      | inr (level, e, (pos, (k, at), least)) ↦ elim (Bool-cases (leb level (suc r))) [
        | inl le ↦ inr (
          level,
          rw (test, e) (ap some (omega (arith, leb→le level (suc r) le))),
          (pos, (suc k, at), (inr (leb→le level (suc r) le), least)),
        )
        | inr gt ↦
            let below = leb→lt level (suc r) gt in
            inr (
              suc r,
              rw (test, e) (ap some (omega arith)),
              (
                omega arith,
                (0, refl),
                (inr (omega arith), All-weaken (suc r) level rs (omega arith) least),
              ),
            )
      ]
    ]

-- What one round makes of the remaining chips `rs` and of the layer so far.
pub record Peeled (Q : ℕ → Type 0) (i : ℕ) (level : ℕ) (rs : List ℕ) (fs : List Bool)
    (layer : Layer) (out : List ℕ × Layer) : Type 0 where
  pub len : length out.0 ≡ length rs
  pub chips : out.1.amount + sum out.0 ≡ layer.amount + sum rs
  pub shares :
      layer.amount ≡ level * length layer.contributors
      → out.1.amount ≡ level * length out.1.contributors
  pub fewer : positives out.0 ≤ positives rs
  pub strictly : (k : ℕ) → get_elem? rs k ≡ some level → positives out.0 < positives rs
  pub keeps : is_empty layer.eligible ≡ false → is_empty out.1.eligible ≡ false
  pub contested :
      (k r : ℕ)
      → get_elem? rs k ≡ some r
      → level ≤ r
      → get_elem? fs k ≡ some false
      → is_empty out.1.eligible ≡ false
  pub opens :
      ((k : ℕ) → get_elem? fs k ≡ some false → Q (i + k))
      → All Q layer.eligible
      → All Q out.1.eligible
  pub placed :
      ((k : ℕ) → k < length rs → Q (i + k)) → All Q layer.contributors → All Q out.1.contributors
  pub ascends :
      Ascends 0 layer.eligible → All (λ (j : ℕ). j < i) layer.eligible → Ascends 0 out.1.eligible

push_keeps :
    (f : Bool) (xs : List ℕ) (i : ℕ) → is_empty xs ≡ false → is_empty (push_unless f xs i) ≡ false
push_keeps true xs i h = h
push_keeps false [] i h = refl
push_keeps false (x ∷ xs) i h = refl

pub push_fills : (xs : List ℕ) (i : ℕ) → is_empty (xs ++ i ∷ []) ≡ false
push_fills [] i = refl
push_fills (x ∷ xs) i = refl

-- The layer after a visit that takes the level.
abbrev pub taken : ℕ → ℕ → Bool → Layer → Layer
taken level i f layer = record {
  amount = layer.amount + level;
  eligible = push_unless f layer.eligible i;
  contributors = layer.contributors ++ i ∷ [];
}

module _ {ℓ} {E : Type ℓ} where
  pub visit_takes :
      (level i r : ℕ) (f : Bool) (layer : Layer)
      → 0 < level
      → level ≤ r
      → layer.amount + r < u64_mod
      → visit {E = E} level i r f layer ≡ ok (r - level, taken level i f layer)
  unfolding visit
  visit_takes level i r f layer pos le fits = rw (
    le→leb level r le,
    lt→ltb 0 r (omega arith),
    add64-ok layer.amount level (omega arith),
    sub64-ok r level le,
  )

  pub visit_skips :
      (level i r : ℕ) (f : Bool) (layer : Layer)
      → r < level
      → visit {E = E} level i r f layer ≡ ok (r, layer)
  unfolding visit
  visit_skips level i r f layer lt = rw (lt→leb level r lt)

push-All :
    (Q : ℕ → Type 0) (f : Bool) (xs : List ℕ) (i : ℕ)
    → (some f ≡ some false → Q i)
    → All Q xs
    → All Q (push_unless f xs i)
push-All Q true xs i open_seat all = all
push-All Q false xs i open_seat all = All-append Q xs (i ∷ []) all (open_seat refl, tt)

shift_open :
    (Q : ℕ → Type 0) (i : ℕ) (f : Bool) (fs : List Bool)
    → ((k : ℕ) → get_elem? (f ∷ fs) k ≡ some false → Q (i + k))
    → (k : ℕ) → get_elem? fs k ≡ some false
    → Q (suc i + k)
shift_open Q i f fs h k e = subst Q (omega arith) (h (suc k) e)

push-Ascends :
    (f : Bool) (xs : List ℕ) (i : ℕ)
    → Ascends 0 xs
    → All (λ (j : ℕ). j < i) xs
    → Ascends 0 (push_unless f xs i) × All (λ (j : ℕ). j < suc i) (push_unless f xs i)
push-Ascends true xs i h k = (h, All-lt-grow i (suc i) xs (omega arith) k)
push-Ascends false xs i h k = (
  Ascends-push 0 xs i h k (omega arith),
  All-append (λ (j : ℕ). j < suc i) xs (i ∷ []) (All-lt-grow i (suc i) xs (omega arith) k)
      (omega arith, tt),
)

shift_placed :
    (Q : ℕ → Type 0) (i r : ℕ) (rs : List ℕ)
    → ((k : ℕ) → k < length (r ∷ rs) → Q (i + k))
    → (k : ℕ) → k < length rs
    → Q (suc i + k)
shift_placed Q i r rs h k lt = subst Q (omega arith) (h (suc k) (omega arith))

shares_step : (level a n m : ℕ) → m ≡ n + 1 → a ≡ level * n → a + level ≡ level * m
shares_step level a n m e h = rw e (omega arith)

push_open :
    (f : Bool) (xs : List ℕ) (i : ℕ) → some f ≡ some false → is_empty (push_unless f xs i) ≡ false
push_open true xs i h = cc
push_open false xs i h = push_fills xs i

module _ (Q : ℕ → Type 0) (level : ℕ) (pos : 0 < level) (r : ℕ) (rs : List ℕ) (f : Bool)
    (fs : List Bool) (layer : Layer) where
  Peeled-takes :
      (i : ℕ) (out : List ℕ × Layer)
      → level ≤ r
      → Peeled Q (suc i) level rs fs (taken level i f layer) out
      → Peeled Q i level (r ∷ rs) (f ∷ fs) layer ((r - level) ∷ out.0, out.1)
  Peeled-takes i out le p = record {
    len = ap suc p.len;
    chips = omega (arith, p.chips);
    shares = λ e. p.shares (
        shares_step level layer.amount (length layer.contributors)
          (length (layer.contributors ++ i ∷ [])) (length-append layer.contributors (i ∷ [])) e);
    fewer = ground (arith, p.fewer);
    strictly = strictly;
    keeps = λ h. p.keeps (push_keeps f layer.eligible i h);
    contested = contested;
    opens = λ h all.
        p.opens (shift_open Q i f fs h)
          (push-All Q f layer.eligible i (λ e. subst Q (omega arith) (h 0 e)) all);
    placed = λ h all. p.placed (shift_placed Q i r rs h) (
        All-append Q layer.contributors (i ∷ []) all
          (subst Q (omega arith) (h 0 (omega arith)), tt));
    ascends = λ h k.
        p.ascends (push-Ascends f layer.eligible i h k).0 (push-Ascends f layer.eligible i h k).1;
  }
    where
      strictly :
          (k : ℕ)
          → get_elem? (r ∷ rs) k ≡ some level
          → positives ((r - level) ∷ out.0) < positives (r ∷ rs)
      strictly zero e = ground (arith, p.fewer)
      strictly (suc k) e = ground (arith, p.strictly k e)

      contested :
          (k r' : ℕ)
          → get_elem? (r ∷ rs) k ≡ some r'
          → level ≤ r'
          → get_elem? (f ∷ fs) k ≡ some false
          → is_empty out.1.eligible ≡ false
      contested zero r' e l open_seat = p.keeps (push_open f layer.eligible i open_seat)
      contested (suc k) r' e l open_seat = p.contested k r' e l open_seat

  Peeled-skips :
      (i : ℕ) (out : List ℕ × Layer)
      → r < level
      → Peeled Q (suc i) level rs fs layer out
      → Peeled Q i level (r ∷ rs) (f ∷ fs) layer (r ∷ out.0, out.1)
  Peeled-skips i out lt p = record {
    len = ap suc p.len;
    chips = omega (arith, p.chips);
    shares = p.shares;
    fewer = omega (arith, p.fewer);
    strictly = strictly;
    keeps = p.keeps;
    contested = contested;
    opens = λ h all. p.opens (shift_open Q i f fs h) all;
    placed = λ h all. p.placed (shift_placed Q i r rs h) all;
    ascends = λ h k. p.ascends h (All-lt-grow i (suc i) layer.eligible (omega arith) k);
  }
    where
      strictly :
          (k : ℕ) → get_elem? (r ∷ rs) k ≡ some level → positives (r ∷ out.0) < positives (r ∷ rs)
      strictly zero e = ground arith
      strictly (suc k) e = omega (arith, p.strictly k e)

      contested :
          (k r' : ℕ)
          → get_elem? (r ∷ rs) k ≡ some r'
          → level ≤ r'
          → get_elem? (f ∷ fs) k ≡ some false
          → is_empty out.1.eligible ≡ false
      contested zero r' e l open_seat = ground arith
      contested (suc k) r' e l open_seat = p.contested k r' e l open_seat

module _ {ℓ} (E : Type ℓ) (Q : ℕ → Type 0) (level : ℕ) (pos : 0 < level) where
  pub peel-Peeled :
      (i : ℕ) (rs : List ℕ) (fs : List Bool) (layer : Layer)
      → length rs ≡ length fs
      → layer.amount + sum rs < u64_mod
      → Returns (peel {E = E} level i rs fs layer) (Peeled Q i level rs fs layer)
  unfolding peel
  peel-Peeled i [] fs layer same fits = record {
    len = refl;
    chips = refl;
    shares = λ e. e;
    fewer = omega arith;
    strictly = λ k e. cc;
    keeps = λ e. e;
    contested = λ k r e l o. cc;
    opens = λ h all. all;
    placed = λ h all. all;
    ascends = λ h k. h;
  }
  peel-Peeled i (r ∷ rs) [] layer same fits = absurd (omega arith)
  peel-Peeled i (r ∷ rs) (f ∷ fs) layer same fits = elim (Bool-cases (leb level r)) [
    | inl big ↦
        let le = leb→le level r big in
        rw (visit_takes {E = E} level i r f layer pos le (omega arith)) (
          Returns-bind (Peeled Q (suc i) level rs fs (taken level i f layer)) _
            (peel {E = E} level (suc i) rs fs (taken level i f layer)) _
            (peel-Peeled (suc i) rs fs (taken level i f layer) (omega arith) (omega arith))
            (λ out p. Peeled-takes Q level pos r rs f fs layer i out le p))
    | inr small ↦
        let lt = leb→lt level r small in
        rw (visit_skips {E = E} level i r f layer lt) (
          Returns-bind (Peeled Q (suc i) level rs fs layer) _
            (peel {E = E} level (suc i) rs fs layer) _
            (peel-Peeled (suc i) rs fs layer (omega arith) (omega arith))
            (λ out p. Peeled-skips Q level pos r rs f fs layer i out lt p))
  ]

-- A layer takes the level from each of its contributors.
abbrev pub IsShared : Layer → Type 0
IsShared l = (n : ℕ) × (l.amount ≡ n * length l.contributors)

-- A seat that still has chips and has not folded.
abbrev pub HasOpen : List ℕ → List Bool → Type 0
HasOpen rs fs = (k r : ℕ) × (get_elem? rs k ≡ some r) × (0 < r) × (get_elem? fs k ≡ some false)

-- If some seat with chips has not folded, then the first layer is contested.
abbrev pub StartsContested : List Layer → Type 0
StartsContested [] = ⊥
StartsContested (l ∷ ls) = is_empty l.eligible ≡ false

pub record Layered (Q : ℕ → Type 0) (rs : List ℕ) (fs : List Bool) (ls : List Layer) : Type 0 where
  pub chips : sum_of (λ (l : Layer). l.amount) ls ≡ sum rs
  pub shared : All IsShared ls
  pub contested : HasOpen rs fs → StartsContested ls
  pub opens :
      ((k : ℕ) → get_elem? fs k ≡ some false → Q k) → All (λ (l : Layer). All Q l.eligible) ls
  pub placed : ((k : ℕ) → k < length rs → Q k) → All (λ (l : Layer). All Q l.contributors) ls
  pub ascend : All (λ (l : Layer). Ascends 0 l.eligible) ls

sum-pos : (rs : List ℕ) (k r : ℕ) → get_elem? rs k ≡ some r → r ≤ sum rs
sum-pos [] k r e = cc
sum-pos (x ∷ rs) zero r e = ground arith
sum-pos (x ∷ rs) (suc k) r e = omega (arith, sum-pos rs k r e)

least_at :
    (level : ℕ) (rs : List ℕ) (k r : ℕ)
    → All (λ (r : ℕ). (r ≡ 0) ⊎ (level ≤ r)) rs
    → get_elem? rs k ≡ some r
    → 0 < r
    → level ≤ r
least_at level rs k r all e pos =
    ground (arith, All-get_elem? (λ (r : ℕ). (r ≡ 0) ⊎ (level ≤ r)) rs k r all e)

-- With more rounds than seats that have chips, the loop ends, and its layers hold all the chips.
pub layers-Layered {ℓ} :
    (E : Type ℓ) (Q : ℕ → Type 0) (rounds : ℕ) (rs : List ℕ) (fs : List Bool)
    → positives rs < rounds
    → length rs ≡ length fs
    → sum rs < u64_mod
    → Returns (layers {E = E} rounds rs fs) (Layered Q rs fs)
unfolding layers
layers-Layered E Q zero rs fs enough same fits = elim enough [ ]
layers-Layered E Q (suc rounds) rs fs enough same fits = elim (next_level_lem rs) [
  | inl (e, z) ↦
      rw (e, layers, Returns)
        (record {
          chips = sym z;
          shared = tt;
          contested = λ (k, r, at, pos, open_seat). omega (arith, sum-pos rs k r at);
          opens = λ h. tt;
          placed = λ h. tt;
          ascend = tt;
        })
  | inr (level, e, (pos, (k, at), least)) ↦
      rw (e, layers, Returns)
        (Returns-bind (Peeled Q 0 level rs fs empty_layer) (Layered Q rs fs)
          (peel {E = E} level 0 rs fs empty_layer) _
          (peel-Peeled E Q level pos 0 rs fs empty_layer same (omega arith))
          (λ out p.
            Returns-bind (Layered Q out.0 fs) (Layered Q rs fs) (layers {E = E} rounds out.0 fs) _
              (layers-Layered E Q rounds out.0 fs (omega (arith, p.strictly k at))
                (omega (arith, p.len)) (omega (arith, p.chips)))
              (λ ls q. record {
                chips = omega (arith, p.chips, q.chips);
                shared = ((level, p.shares (omega arith)), q.shared);
                contested = λ (j, r, at', pos', open_seat).
                    p.contested j r at' (least_at level rs j r least at' pos') open_seat;
                opens = λ h. (p.opens (λ k e. subst Q (omega arith) (h k e)) tt, q.opens h);
                placed = λ h. (
                  p.placed (λ k lt. subst Q (omega arith) (h k lt)) tt,
                  q.placed (λ k lt. h k (omega (arith, p.len))),
                );
                ascend = (p.ascends tt tt, q.ascend);
              })))
]
