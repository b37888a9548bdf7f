-- ===== src/Pot/Absorb.antt =====
-- `absorb_dead_layers`, `merge_equal_eligible` and `compute_pots` as a whole.
use ten_cent_poker_client.Prelude.{
  ℕ, ◌+◌, ◌*◌, ◌<◌, ◌≡◌, refl, true, false, List, [], ◌∷◌, ◌++◌, inl, inr, ◌⊎◌, arith, length, All,
  All-append, sum_of-append, u64_mod, Returns, Returns-bind, Returns-mono, Bool-cases, ◌∙◌,
}
use ten_cent_poker_client.Pot.Defs.{
  Pot, Layer, is_empty, is_nil, add_to_last, refund, absorb_layer, absorb,
}
use ten_cent_poker_client.Pot.Layers.{IsShared, StartsContested}
use ten_cent_poker_client.Pot.Merge.{
  total, layer_total, refunded, IsContested, AllEligible, Grown, add_to_last-Grown, Refunds,
  refund-Refunds,
}

abbrev pub Pending : Type 0
Pending = List Pot × List (ℕ × ℕ)

-- One layer has gone into the pots or the refunds.
record AbsorbedOne (R : List ℕ → Type 0) (l : Layer) (st st' : Pending) : Type 0 where
  chips : total st'.0 + refunded st'.1 ≡ total st.0 + refunded st.1 + l.amount
  contested : All IsContested st.0 → All IsContested st'.0
  eligible : All (AllEligible R) st.0 → R l.eligible → All (AllEligible R) st'.0
  grows :
      (is_nil st.0 ≡ false) ⊎ (is_empty l.eligible ≡ false)
      → (is_nil st'.0 ≡ false) × (st'.1 ≡ st.1)
  refunds_to :
      All (λ (r : ℕ × ℕ). R (r.0 ∷ [])) st.1
      → All (λ (c : ℕ). R (c ∷ [])) l.contributors
      → All (λ (r : ℕ × ℕ). R (r.0 ∷ [])) st'.1

pub record Absorbed (R : List ℕ → Type 0) (ls : List Layer) (st st' : Pending) : Type 0 where
  pub chips : total st'.0 + refunded st'.1 ≡ total st.0 + refunded st.1 + layer_total ls
  pub contested : All IsContested st.0 → All IsContested st'.0
  pub eligible :
      All (AllEligible R) st.0 → All (λ (l : Layer). R l.eligible) ls → All (AllEligible R) st'.0
  pub keeps_refunds : (is_nil st.0 ≡ false) ⊎ StartsContested ls → st'.1 ≡ st.1
  pub refunds_to :
      All (λ (r : ℕ × ℕ). R (r.0 ∷ [])) st.1
      → All (λ (l : Layer). All (λ (c : ℕ). R (c ∷ [])) l.contributors) ls
      → All (λ (r : ℕ × ℕ). R (r.0 ∷ [])) st'.1

append_not_nil : (ps : List Pot) (p : Pot) → is_nil (ps ++ p ∷ []) ≡ false
append_not_nil [] p = refl
append_not_nil (q ∷ ps) p = refl

nobody_paid : (l : Layer) → IsShared l → is_empty l.contributors ≡ true → l.amount ≡ 0
nobody_paid l (n, e) none_there = go l.contributors e none_there
  where
    go : (cs : List ℕ) → l.amount ≡ n * length cs → is_empty cs ≡ true → l.amount ≡ 0
    go [] e h = omega arith
    go (c ∷ cs) e h = cc

module _ {ℓ} (E : Type ℓ) (R : List ℕ → Type 0) where
  absorb_layer-AbsorbedOne :
      (l : Layer) (st : Pending)
      → IsShared l
      → total st.0 + refunded st.1 + l.amount < u64_mod
      → Returns (absorb_layer {E = E} l st) (AbsorbedOne R l st)
  unfolding absorb_layer
  absorb_layer-AbsorbedOne l (out, refunds) shared fits = elim (Bool-cases (is_empty l.eligible)) [
    | inr contested ↦ rw contested (record {
      chips = omega (arith, sum_of-append (λ (p : Pot). p.amount) out (pot ∷ []));
      contested = λ h. All-append IsContested out (pot ∷ []) h (contested, tt);
      eligible = λ h q. All-append (AllEligible R) out (pot ∷ []) h (q, tt);
      grows = λ _. (append_not_nil out pot, refl);
      refunds_to = λ h q. h;
    })
    | inl dead ↦ rw dead (elim (Bool-cases (is_nil out)) [
      | inr before ↦ rw before (
          Returns-bind (λ qs. Grown R out l.amount qs × (is_nil qs ≡ false)) _
            (add_to_last {E = E} out l.amount) _
            (add_to_last-Grown E R out l.amount before (omega arith))
            (λ qs (g, more). record {
              chips = omega (arith, g.chips);
              contested = g.contested;
              eligible = λ h q. g.eligible h;
              grows = λ _. (more, refl);
              refunds_to = λ h q. h;
            }))
      | inl first ↦ rw first (elim (Bool-cases (is_empty l.contributors)) [
        | inl nobody ↦ rw nobody (record {
          chips = omega (arith, nobody_paid l shared nobody);
          contested = λ h. h;
          eligible = λ h q. h;
          grows = λ g. absurd (impossible first dead g);
          refunds_to = λ h q. h;
        })
        | inr paid ↦ rw paid (
            Returns-bind (Refunds E R l.contributors l.amount) _ (refund {E = E} l) _
              (refund-Refunds E R l paid (omega arith))
              (λ rs (e, to). record {
                chips = omega (arith, e, sum_of-append (λ (r : ℕ × ℕ). r.1) refunds rs);
                contested = λ h. h;
                eligible = λ h q. h;
                grows = λ g. absurd (impossible first dead g);
                refunds_to = λ h q. All-append (λ (r : ℕ × ℕ). R (r.0 ∷ [])) refunds rs h (to q);
              }))
      ])
    ])
  ]
    where
      pot : Pot
      pot = record { amount = l.amount; eligible = l.eligible }

      impossible :
          is_nil out ≡ true
          → is_empty l.eligible ≡ true
          → (is_nil out ≡ false) ⊎ (is_empty l.eligible ≡ false)
          → ⊥
      impossible a b (inl c) = cc
      impossible a b (inr c) = cc

  pub absorb-Absorbed :
      (ls : List Layer) (st : Pending)
      → All IsShared ls
      → total st.0 + refunded st.1 + layer_total ls < u64_mod
      → Returns (absorb {E = E} ls st) (Absorbed R ls st)
  unfolding absorb
  absorb-Absorbed [] st shared fits = record {
    chips = omega arith;
    contested = λ h. h;
    eligible = λ h q. h;
    keeps_refunds = λ _. refl;
    refunds_to = λ h q. h;
  }
  absorb-Absorbed (l ∷ ls) st shared fits =
      Returns-bind (AbsorbedOne R l st) (Absorbed R (l ∷ ls) st) (absorb_layer {E = E} l st) _
        (absorb_layer-AbsorbedOne l st shared.0 (omega arith))
        (λ st' one.
          Returns-mono (Absorbed R ls st') (Absorbed R (l ∷ ls) st) (absorb {E = E} ls st')
            (absorb-Absorbed ls st' shared.1 (omega (arith, one.chips)))
            (λ st'' rest. record {
              chips = omega (arith, one.chips, rest.chips);
              contested = λ h. rest.contested (one.contested h);
              eligible = λ h q. rest.eligible (one.eligible h q.0) q.1;
              keeps_refunds = λ g. rest.keeps_refunds (inl (one.grows g).0) ∙ (one.grows g).1;
              refunds_to = λ h q. rest.refunds_to (one.refunds_to h q.0) q.1;
            }))
