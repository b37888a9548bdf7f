-- ===== src/Pot/Merge.antt =====
-- `absorb_dead_layers` and `merge_equal_eligible`: no chip is lost and every pot is contested.
use ten_cent_poker_client.Prelude.{
  ℕ, ◌+◌, ◌-◌, ◌*◌, ◌/◌, ◌%◌, ◌≤◌, ◌<◌, ◌≡◌, refl, false, List, [], ◌∷◌, inl, inr, arith, ltb,
  length, All, sum_of, u64_mod, Returns, Returns-bind, Returns-mono, add64-ok, div64-ok, rem64-ok,
  Bool-cases, ltb→lt, ltb→le, ◌∙◌,
}
use native.Mathlib.Nat.{div-add-mod}
use ten_cent_poker_client.Pot.Defs.{
  Pot, Layer, is_empty, is_nil, seats_eq, add_to_last, share_out, refund, refund_pots, merge_pot,
  merge,
}

abbrev pub total : List Pot → ℕ
total ps = sum_of (λ (p : Pot). p.amount) ps

abbrev pub layer_total : List Layer → ℕ
layer_total ls = sum_of (λ (l : Layer). l.amount) ls

abbrev pub refunded : List (ℕ × ℕ) → ℕ
refunded rs = sum_of (λ (r : ℕ × ℕ). r.1) rs

-- A pot has a seat that can win it, and all they have the property `R` together.
abbrev pub IsContested : Pot → Type 0
IsContested p = is_empty p.eligible ≡ false

abbrev pub AllEligible : (List ℕ → Type 0) → Pot → Type 0
AllEligible R p = R p.eligible

-- Adding to one pot, or pushing one, keeps what is true of the seats of all pots.
pub record Grown (R : List ℕ → Type 0) (ps : List Pot) (a : ℕ) (qs : List Pot) : Type 0 where
  pub chips : total qs ≡ total ps + a
  pub contested : All IsContested ps → All IsContested qs
  pub eligible : All (AllEligible R) ps → All (AllEligible R) qs

module _ {ℓ} (E : Type ℓ) (R : List ℕ → Type 0) where
  pub add_to_last-Grown :
      (ps : List Pot) (a : ℕ)
      → is_nil ps ≡ false
      → total ps + a < u64_mod
      → Returns (add_to_last {E = E} ps a) (λ qs. Grown R ps a qs × (is_nil qs ≡ false))
  unfolding add_to_last
  add_to_last-Grown [] a some_pot fits = cc
  add_to_last-Grown (p ∷ []) a some_pot fits =
      rw (add64-ok p.amount a (omega arith))
        (record { chips = omega arith; contested = λ h. h; eligible = λ h. h }, refl)
  add_to_last-Grown (p ∷ q ∷ ps) a some_pot fits =
      Returns-bind (λ qs. Grown R (q ∷ ps) a qs × (is_nil qs ≡ false)) _
        (add_to_last {E = E} (q ∷ ps) a) _ (add_to_last-Grown (q ∷ ps) a refl (omega arith))
        (λ qs (g, _). (
          record {
            chips = omega (arith, g.chips);
            contested = λ h. (h.0, g.contested h.1);
            eligible = λ h. (h.0, g.eligible h.1);
          },
          refl,
        ))

  -- What the refunds of `cs` add up to, and to whom they go.
  abbrev pub Refunds : List ℕ → ℕ → List (ℕ × ℕ) → Type 0
  Refunds cs amount rs =
      (refunded rs ≡ amount)
      × (All (λ (c : ℕ). R (c ∷ [])) cs → All (λ (r : ℕ × ℕ). R (r.0 ∷ [])) rs)

  share_out-Refunds :
      (share rem : ℕ) (cs : List ℕ)
      → rem ≤ length cs
      → share * length cs + rem < u64_mod
      → Returns (share_out {E = E} share rem cs) (Refunds cs (share * length cs + rem))
  unfolding share_out
  share_out-Refunds share rem [] le fits = (omega arith, λ h. tt)
  share_out-Refunds share rem (c ∷ cs) le fits = elim (Bool-cases (ltb 0 rem)) [
    | inl more ↦
        let pos = ltb→lt 0 rem more in
        rw (more, add64-ok share 1 (omega arith))
          (Returns-bind (Refunds cs (share * length cs + (rem - 1))) _
            (share_out {E = E} share (rem - 1) cs) _
            (share_out-Refunds share (rem - 1) cs (omega arith) (omega arith))
            (λ rs (e, q). (omega (arith, e), λ h. (h.0, q h.1))))
    | inr none_left ↦
        let z = ltb→le 0 rem none_left in
        rw none_left (
          Returns-bind (Refunds cs (share * length cs + rem)) _ (share_out {E = E} share rem cs) _
            (share_out-Refunds share rem cs (omega arith) (omega arith))
            (λ rs (e, q). (omega (arith, e), λ h. (h.0, q h.1))))
  ]

  pub refund-Refunds :
      (l : Layer)
      → is_empty l.contributors ≡ false
      → l.amount < u64_mod
      → Returns (refund {E = E} l) (Refunds l.contributors l.amount)
  unfolding refund
  refund-Refunds l nonempty fits =
      let k = length l.contributors in
      let pos = length_pos l.contributors nonempty in
      let split = div_split l.amount k in
      rw (div64-ok l.amount k pos, rem64-ok l.amount k pos)
        (Returns-mono (Refunds l.contributors ((l.amount / k) * k + l.amount % k)) _
          (share_out {E = E} (l.amount / k) (l.amount % k) l.contributors)
          (share_out-Refunds (l.amount / k) (l.amount % k) l.contributors (mod_le l.amount k pos)
            (omega (arith, split)))
          (λ rs (e, q). (e ∙ split, q)))
    where
      length_pos : (xs : List ℕ) → is_empty xs ≡ false → 0 < length xs
      length_pos [] h = cc
      length_pos (x ∷ xs) h = omega arith

      div_split : (a k : ℕ) → (a / k) * k + a % k ≡ a
      div_split a k = omega (arith, div-add-mod a k)

      mod_le : (a k : ℕ) → 0 < k → a % k ≤ k
      mod_le a k pos = grind arith

pub refund_pots-total : (rs : List (ℕ × ℕ)) → total (refund_pots rs) ≡ refunded rs
unfolding refund_pots
refund_pots-total [] = refl
refund_pots-total ((seat, amount) ∷ rs) = ground (arith, refund_pots-total rs)

pub refund_pots-IsContested : (rs : List (ℕ × ℕ)) → All IsContested (refund_pots rs)
unfolding refund_pots
refund_pots-IsContested [] = tt
refund_pots-IsContested ((seat, amount) ∷ rs) = elim (Bool-cases (ltb 0 amount)) [
  | inl some_chips ↦ rw some_chips (refl, refund_pots-IsContested rs)
  | inr nothing ↦ rw nothing (refund_pots-IsContested rs)
]

pub refund_pots-eligible :
    (R : List ℕ → Type 0) (rs : List (ℕ × ℕ))
    → All (λ (r : ℕ × ℕ). R (r.0 ∷ [])) rs
    → All (AllEligible R) (refund_pots rs)
unfolding refund_pots
refund_pots-eligible R [] h = tt
refund_pots-eligible R ((seat, amount) ∷ rs) h = elim (Bool-cases (ltb 0 amount)) [
  | inl some_chips ↦ rw some_chips (h.0, refund_pots-eligible R rs h.1)
  | inr nothing ↦ rw nothing (refund_pots-eligible R rs h.1)
]

-- The pots `qs` are the pots `ps` with those of `more` joined on.
pub record Merged (R : List ℕ → Type 0) (ps more qs : List Pot) : Type 0 where
  pub chips : total qs ≡ total ps + total more
  pub contested : All IsContested ps → All IsContested more → All IsContested qs
  pub eligible : All (AllEligible R) ps → All (AllEligible R) more → All (AllEligible R) qs

module _ {ℓ} (E : Type ℓ) (R : List ℕ → Type 0) where
  merge_pot-Merged :
      (ps : List Pot) (pot : Pot)
      → total ps + pot.amount < u64_mod
      → Returns (merge_pot {E = E} ps pot) (Merged R ps (pot ∷ []))
  unfolding merge_pot
  merge_pot-Merged [] pot fits = record {
    chips = omega arith;
    contested = λ h k. k;
    eligible = λ h k. k;
  }
  merge_pot-Merged (p ∷ []) pot fits = elim (Bool-cases (seats_eq p.eligible pot.eligible)) [
    | inl same ↦
        rw (same, add64-ok p.amount pot.amount (omega arith))
          (record { chips = omega arith; contested = λ h k. h; eligible = λ h k. h })
    | inr other ↦
        rw other
          (record { chips = omega arith; contested = λ h k. (h.0, k); eligible = λ h k. (h.0, k) })
  ]
  merge_pot-Merged (p ∷ q ∷ ps) pot fits =
      Returns-bind (Merged R (q ∷ ps) (pot ∷ [])) _ (merge_pot {E = E} (q ∷ ps) pot) _
        (merge_pot-Merged (q ∷ ps) pot (omega arith))
        (λ qs m. record {
          chips = omega (arith, m.chips);
          contested = λ h k. (h.0, m.contested h.1 k);
          eligible = λ h k. (h.0, m.eligible h.1 k);
        })

  -- `merge_equal_eligible` neither makes nor loses chips, and brings in no seat.
  pub merge-Merged :
      (ps more : List Pot)
      → total ps + total more < u64_mod
      → Returns (merge {E = E} ps more) (Merged R ps more)
  unfolding merge
  merge-Merged ps [] fits = record {
    chips = omega arith;
    contested = λ h k. h;
    eligible = λ h k. h;
  }
  merge-Merged ps (pot ∷ more) fits =
      Returns-bind (Merged R ps (pot ∷ [])) _ (merge_pot {E = E} ps pot) _
        (merge_pot-Merged ps pot (omega arith))
        (λ qs one.
          Returns-mono (Merged R qs more) _ (merge {E = E} qs more)
            (merge-Merged qs more (omega (arith, one.chips)))
            (λ rs rest. record {
              chips = omega (arith, one.chips, rest.chips);
              contested = λ h k. rest.contested (one.contested h (k.0, tt)) k.1;
              eligible = λ h k. rest.eligible (one.eligible h (k.0, tt)) k.1;
            }))
