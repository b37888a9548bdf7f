-- ===== src/Pot/Compute.antt =====
-- `compute_pots` as a whole: it loses no chip, every pot can be won, and no folded seat can win one.
use ten_cent_poker_client.Prelude.{
  ℕ, suc, ◌<◌, ◌≡◌, Bool, false, some, List, [], ◌∷◌, inr, arith, Outcome, ◌>>=◌, length, get_elem?,
  get_elem?-some-lt, All, All-append, sum, sum_of-append, u64_mod, Returns, Returns-bind,
  Returns-mono, Returns-both, Ascends, sym, subst, eq→==,
}
use ten_cent_poker_client.Pot.Defs.{
  Pot, Layer, refund_pots, absorb, layers, absorb_dead_layers, merge, merge_equal_eligible,
  compute_pots,
}
use ten_cent_poker_client.Pot.Layers.{
  IsShared, HasOpen, StartsContested, Layered, layers-Layered, positives-le,
}
use ten_cent_poker_client.Pot.Merge.{
  total, layer_total, IsContested, AllEligible, Merged, merge-Merged, refund_pots-total,
  refund_pots-IsContested, refund_pots-eligible,
}
use ten_cent_poker_client.Pot.Absorb.{Absorbed, absorb-Absorbed}

-- What is true of the pots of the layers `ls`.
record Resolved (R : List ℕ → Type 0) (ls : List Layer) (ps : List Pot) : Type 0 where
  chips : total ps ≡ layer_total ls
  contested : All IsContested ps
  eligible_open : StartsContested ls → All (λ (l : Layer). R l.eligible) ls → All (AllEligible R) ps
  eligible_placed :
      All (λ (l : Layer). R l.eligible) ls
      → All (λ (l : Layer). All (λ (c : ℕ). R (c ∷ [])) l.contributors) ls
      → All (AllEligible R) ps

module _ {ℓ} (E : Type ℓ) (R : List ℕ → Type 0) where
  absorb_dead_layers-Resolved :
      (ls : List Layer)
      → All IsShared ls
      → layer_total ls < u64_mod
      → Returns (absorb_dead_layers {E = E} ls) (Resolved R ls)
  unfolding absorb_dead_layers
  absorb_dead_layers-Resolved ls shared fits =
      Returns-bind (Absorbed R ls ([], [])) (Resolved R ls) (absorb {E = E} ls ([], [])) _
        (absorb-Absorbed E R ls ([], []) shared (omega arith))
        (λ st a. record {
          chips = omega (
            arith,
            a.chips,
            refund_pots-total st.1,
            sum_of-append (λ (p : Pot). p.amount) st.0 (refund_pots st.1),
          );
          contested =
              All-append IsContested st.0 (refund_pots st.1) (a.contested tt)
                (refund_pots-IsContested st.1);
          eligible_open = λ first q.
              All-append (AllEligible R) st.0 (refund_pots st.1) (a.eligible tt q) (
                refund_pots-eligible R st.1 (
                  subst (All (λ (r : ℕ × ℕ). R (r.0 ∷ []))) (sym (a.keeps_refunds (inr first)))
                    tt));
          eligible_placed = λ q c.
              All-append (AllEligible R) st.0 (refund_pots st.1) (a.eligible tt q)
                (refund_pots-eligible R st.1 (a.refunds_to tt c));
        })

-- The pots of the layers that the loop finds.
record Computed (R : List ℕ → Type 0) (cs : List ℕ) (ls : List Layer) (ps : List Pot) : Type 0 where
  chips : total ps ≡ sum cs
  contested : All IsContested ps
  eligible_open : StartsContested ls → All (λ (l : Layer). R l.eligible) ls → All (AllEligible R) ps
  eligible_placed :
      All (λ (l : Layer). R l.eligible) ls
      → All (λ (l : Layer). All (λ (c : ℕ). R (c ∷ [])) l.contributors) ls
      → All (AllEligible R) ps

All-singletons :
    (Q : ℕ → Type 0) (ls : List Layer)
    → All (λ (l : Layer). All Q l.contributors) ls
    → All (λ (l : Layer). All (λ (c : ℕ). All Q (c ∷ [])) l.contributors) ls
All-singletons Q [] h = tt
All-singletons Q (l ∷ ls) h = (each l.contributors h.0, All-singletons Q ls h.1)
  where
    each : (cs : List ℕ) → All Q cs → All (λ (c : ℕ). All Q (c ∷ [])) cs
    each [] h = tt
    each (c ∷ cs) h = ((h.0, tt), each cs h.1)

All-ascending :
    (ls : List Layer) → All (λ (l : Layer). All (λ (c : ℕ). Ascends 0 (c ∷ [])) l.contributors) ls
All-ascending [] = tt
All-ascending (l ∷ ls) = (each l.contributors, All-ascending ls)
  where
    each : (cs : List ℕ) → All (λ (c : ℕ). Ascends 0 (c ∷ [])) cs
    each [] = tt
    each (c ∷ cs) = ((omega arith, tt), each cs)

-- What is promised of the pots: their chips, and who can win them.
pub record IsDivision (cs : List ℕ) (fs : List Bool) (ps : List Pot) : Type 0 where
  pub chips : total ps ≡ sum cs
  pub contested : All IsContested ps
  pub in_table : All (AllEligible (All (λ (j : ℕ). j < length cs))) ps
  pub ascend : All (AllEligible (Ascends 0)) ps
  pub unfolded : HasOpen cs fs → All (AllEligible (All (λ (j : ℕ). get_elem? fs j ≡ some false))) ps

module _ {ℓ} (E : Type ℓ) (cs : List ℕ) (fs : List Bool) where
  -- `compute_pots` behind the loop.
  abbrev after_layers : List Layer → Outcome E (List Pot)
  after_layers ls = absorb_dead_layers ls >>= λ pots. merge_equal_eligible pots

  after_layers-Computed :
      (R : List ℕ → Type 0) (ls : List Layer)
      → All IsShared ls
      → layer_total ls ≡ sum cs
      → sum cs < u64_mod
      → Returns (after_layers ls) (Computed R cs ls)
  unfolding merge_equal_eligible
  after_layers-Computed R ls shared chips fits =
      Returns-bind (Resolved R ls) _ (absorb_dead_layers {E = E} ls) _
        (absorb_dead_layers-Resolved E R ls shared (omega (arith, chips)))
        (λ ps r.
          Returns-mono (Merged R [] ps) _ (merge {E = E} [] ps)
            (merge-Merged E R [] ps (omega (arith, chips, r.chips)))
            (λ qs m. record {
              chips = omega (arith, chips, r.chips, m.chips);
              contested = m.contested tt r.contested;
              eligible_open = λ first q. m.eligible tt (r.eligible_open first q);
              eligible_placed = λ q c. m.eligible tt (r.eligible_placed q c);
            }))

  -- `compute_pots` returns for every table whose contributions fit a u64: the pots hold exactly the
  -- chips that were contributed, each pot has a seat that can win it, such seats are seats of the
  -- table in ascending order, and if some seat with chips in the pot has not folded then no folded
  -- seat can win.
  pub compute_pots-IsDivision :
      length cs ≡ length fs
      → sum cs < u64_mod
      → Returns (compute_pots {E = E} cs fs) (IsDivision cs fs)
  unfolding compute_pots
  compute_pots-IsDivision same fits =
      let open_seats = λ (j : ℕ). get_elem? fs j ≡ some false in
      let seats = λ (j : ℕ). j < length cs in
      let loop = layers {E = E} (suc (length cs)) cs fs in
      rw (eq→== (length cs) (length fs) same) (
        Returns-bind (λ ls. Layered open_seats cs fs ls × Layered seats cs fs ls) _ loop
          after_layers
          (Returns-both _ _ loop
            (layers-Layered E open_seats (suc (length cs)) cs fs (omega (arith, positives-le cs))
              same fits)
            (layers-Layered E seats (suc (length cs)) cs fs (omega (arith, positives-le cs)) same
              fits))
          (λ ls (o, t).
            Returns-mono _ _ (after_layers ls)
              (Returns-both _ _ (after_layers ls)
                (after_layers-Computed (All open_seats) ls o.shared o.chips fits)
                (Returns-both _ _ (after_layers ls)
                  (after_layers-Computed (All seats) ls o.shared o.chips fits)
                  (after_layers-Computed (Ascends 0) ls o.shared o.chips fits)))
              (λ ps (a, (b, c)). record {
                chips = a.chips;
                contested = a.contested;
                in_table =
                    b.eligible_placed (t.opens (λ k e. omega (arith, get_elem?-some-lt fs k e)))
                      (All-singletons seats ls (t.placed (λ k lt. lt)));
                ascend = c.eligible_placed o.ascend (All-ascending ls);
                unfolded =
                    λ some_open. a.eligible_open (o.contested some_open) (o.opens (λ k e. e));
              })))
