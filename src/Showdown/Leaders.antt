-- ===== src/Showdown/Leaders.antt =====
-- The loop of `distribute_one` over the eligible seats: its winners are the seats with the best hand.
use ten_cent_poker_client.Prelude.{
  ℕ, suc, ◌≤◌, ◌<◌, ◌≡◌, refl, true, false, Option, none, some, List, [], ◌∷◌, ◌++◌, arith, ok, All,
  All-append, Ascends, Ascends-push, All-lt-grow, Returns, Returns-mono, Returns-value, Bool-cases,
  Option-cases, inl, inr, ◌⊎◌, ◌∙◌, ap, sym, subst,
}
use ten_cent_poker_client.Cards.{Card}
use ten_cent_poker_client.Pot.Defs.{is_empty}
use ten_cent_poker_client.Pot.Layers.{push_fills}
use ten_cent_poker_client.HandEval.Defs.{HandValue, value_le, evaluate_best}
use ten_cent_poker_client.HandEval.Order.{value_le_refl, value_le_total, value_le_trans}
use ten_cent_poker_client.HandEval.Best.{
  Has, Has-append_left, Has-append_right, Has-append_cases, evaluate_best_lem,
}
use ten_cent_poker_client.Showdown.Defs.{
  Hole, hole_of, Leaders, lead_with, take_lead, consider, leaders_of,
}

module _ (E : Type 0) (holes : List (Option Hole)) (community : List Card) where
  -- The seat shows two cards, and with the board they are worth `v`.
  abbrev pub ValueOf : ℕ → HandValue → Type 0
  ValueOf seat v =
      (h : Hole) × (hole_of holes seat ≡ some h)
      × (evaluate_best {E = E} (community ++ h.0 ∷ h.1 ∷ []) ≡ ok (some v))

  -- What a seat brings to the showdown.
  abbrev Brings : ℕ → Option HandValue → Type 0
  Brings seat o =
      ((v : HandValue) → o ≡ some v → ValueOf seat v)
      × ((v : HandValue) → ValueOf seat v → o ≡ some v)

  consider-Brings :
      (seat : ℕ) (leaders : Leaders)
      → (o : Option HandValue) × (consider {E = E} holes community seat leaders
          ≡ ok (lead_with seat o leaders))
        × Brings seat o
  unfolding consider
  consider-Brings seat leaders = elim (Option-cases (hole_of holes seat)) [
    | inl mucked ↦ (none, rw (mucked, consider), ((λ v e. cc), λ v (h, eh, ev). cc))
    | inr (h, shown) ↦
        let m = evaluate_best {E = E} (community ++ h.0 ∷ h.1 ∷ []) in
        let (o, e, _) = Returns-value _ m (evaluate_best_lem E (community ++ h.0 ∷ h.1 ∷ [])) in
        (
          o,
          rw (shown, consider, e),
          (
            (λ v eo. (h, shown, e ∙ ap ok eo)),
            λ v (k, ek, ev).
                let hk : h ≡ k = cc in
                let e' : evaluate_best {E = E} (community ++ k.0 ∷ k.1 ∷ []) ≡ ok o =
                  subst (λ (k : Hole). evaluate_best {E = E} (community ++ k.0 ∷ k.1 ∷ []) ≡ ok o)
                    hk e in
                cc,
          ),
        )
  ]

  -- Who leads after the seats with `P`: with no value shown nobody, and else the seats whose value
  -- is as good as every other.
  unfoldable pub Leads : (ℕ → Type 0) → Leaders → Type 0
  Leads P (none, ws) = (ws ≡ []) × ((seat : ℕ) (v : HandValue) → P seat → ¬ ValueOf seat v)
  Leads P (some b, ws) =
      ((seat : ℕ) (v : HandValue)
        → P seat
        → ValueOf seat v
        → (value_le v b ≡ true) × (value_le b v ≡ true → Has seat ws))
      × ((seat : ℕ)
          → Has seat ws
          → P seat × ((v : HandValue) × ValueOf seat v × (value_le b v ≡ true)))
      × (is_empty ws ≡ false)

  Leads-iff :
      (P Q : ℕ → Type 0) (l : Leaders)
      → ((x : ℕ) → P x → Q x)
      → ((x : ℕ) → Q x → P x)
      → Leads P l
      → Leads Q l
  unfolding Leads
  Leads-iff P Q (none, ws) to from h = (h.0, λ x v q. h.1 x v (from x q))
  Leads-iff P Q (some b, ws) to from h =
      (λ x v q. h.0 x v (from x q), λ x hx. let (p, rest) = h.1 x hx in (to x p, rest), h.2)

  -- The seats with `P`, and one more.
  abbrev And : ℕ → (ℕ → Type 0) → ℕ → Type 0
  And seat P x = (x ≡ seat) ⊎ P x

  module _ (P : ℕ → Type 0) (seat : ℕ) where
    no_value : Brings seat none → (x : ℕ) (v : HandValue) → x ≡ seat → ValueOf x v → ⊥
    no_value br x v e val =
        let n : none ≡ some v = br.1 v (subst (λ (y : ℕ). ValueOf y v) e val) in cc

    the_value :
        (v : HandValue)
        → Brings seat (some v)
        → (x : ℕ) (w : HandValue) → x ≡ seat
        → ValueOf x w
        → w ≡ v
    the_value v br x w e val =
        let n : some v ≡ some w = br.1 w (subst (λ (y : ℕ). ValueOf y w) e val) in cc

    skip-Leads : (l : Leaders) → Brings seat none → Leads P l → Leads (And seat P) l
    unfolding Leads
    skip-Leads (none, ws) br h =
        (h.0, λ x v p val. elim p [ inl e ↦ no_value br x v e val | inr q ↦ h.1 x v q val ])
    skip-Leads (some b, ws) br h = (
      λ x v p val. elim p [ inl e ↦ absurd (no_value br x v e val) | inr q ↦ h.0 x v q val ],
      λ x hx. let (p, rest) = h.1 x hx in (inr p, rest),
      h.2,
    )

    module _ (v : HandValue) (br : Brings seat (some v)) where
      -- The seat leads alone.
      alone :
          ((x : ℕ) (w : HandValue)
            → P x
            → ValueOf x w
            → (value_le w v ≡ true) × (value_le v w ≡ true → ⊥))
          → Leads (And seat P) (some v, seat ∷ [])
      unfolding Leads
      alone beats = (
        λ x w p val. elim p [
          | inl e ↦ (
            subst (λ (u : HandValue). value_le u v ≡ true) (sym (the_value v br x w e val))
                (value_le_refl v),
            λ _. inl e,
          )
          | inr q ↦ let (le, lt) = beats x w q val in (le, λ ge. absurd (lt ge))
        ],
        λ x hx. elim hx [
          | inl e ↦
              (inl e, (v, subst (λ (y : ℕ). ValueOf y v) (sym e) (br.0 v refl), value_le_refl v))
          | inr none_else ↦ absurd none_else.lower
        ],
        refl,
      )

      -- The seat joins the leaders, or stays behind them.
      joins :
          (b : HandValue) (ws ws' : List ℕ)
          → value_le v b ≡ true
          → (value_le b v ≡ true → Has seat ws')
          → ((x : ℕ) → Has x ws → Has x ws')
          → ((x : ℕ) → Has x ws' → Has x ws ⊎ ((x ≡ seat) × (value_le b v ≡ true)))
          → is_empty ws' ≡ false
          → Leads P (some b, ws)
          → Leads (And seat P) (some b, ws')
      unfolding Leads
      joins b ws ws' le join keep back nonempty h = (
        λ x w p val. elim p [
          | inl e ↦
              let ev = the_value v br x w e val in
              (
                subst (λ (u : HandValue). value_le u b ≡ true) (sym ev) le,
                λ ge.
                    subst (λ (y : ℕ). Has y ws') (sym e)
                      (join (subst (λ (u : HandValue). value_le b u ≡ true) ev ge)),
              )
          | inr q ↦ let (le', ge) = h.0 x w q val in (le', λ g. keep x (ge g))
        ],
        λ x hx. elim (back x hx) [
          | inl old ↦ let (p, rest) = h.1 x old in (inr p, rest)
          | inr (e, ge) ↦ (inl e, (v, subst (λ (y : ℕ). ValueOf y v) (sym e) (br.0 v refl), ge))
        ],
        nonempty,
      )

      take_lead-Leads : (l : Leaders) → Leads P l → Leads (And seat P) (take_lead seat v l)
      unfolding take_lead Leads
      take_lead-Leads (none, ws) h = alone (λ x w p val. absurd (h.1 x w p val))
      take_lead-Leads (some b, ws) h = elim (Bool-cases (value_le v b)) [
        | inr above ↦
            rw (above, Leads)
              (alone (λ x w p val.
                let (le, _) = h.0 x w p val in
                let bv = value_le_total v b above in
                (
                  value_le_trans w b v le bv,
                  λ ge. let vb : value_le v b ≡ true = value_le_trans v w b ge le in cc,
                )))
        | inl le ↦ elim (Bool-cases (value_le b v)) [
          | inl ge ↦
              rw (le, ge, Leads)
                (joins b ws (ws ++ seat ∷ []) le
                  (λ _. Has-append_right seat ws (seat ∷ []) (inl refl))
                  (λ x hx. Has-append_left x ws (seat ∷ []) hx)
                  (λ x hx. elim (Has-append_cases x ws (seat ∷ []) hx) [
                    | inl old ↦ inl old
                    | inr (inl e) ↦ inr (e, ge)
                    | inr (inr none_else) ↦ absurd none_else.lower
                  ])
                  (push_fills ws seat) h)
          | inr behind ↦
              rw (le, behind, Leads)
                (joins b ws ws le (λ ge. absurd (contra ge behind)) (λ x hx. hx) (λ x hx. inl hx)
                  h.2 h)
        ]
      ]
        where
          contra : value_le b v ≡ true → value_le b v ≡ false → ⊥
          contra p q = cc

-- The leaders stand in ascending order below `lo`, and are seats of a table of `n`.
abbrev pub Ordered : ℕ → ℕ → Leaders → Type 0
Ordered n lo l = Ascends 0 l.1 × All (λ (j : ℕ). j < lo) l.1 × All (λ (j : ℕ). j < n) l.1

take_lead-Ordered :
    (n lo seat : ℕ) (v : HandValue) (l : Leaders)
    → lo ≤ seat
    → seat < n
    → Ordered n lo l
    → Ordered n (suc seat) (take_lead seat v l)
unfolding take_lead
take_lead-Ordered n lo seat v (none, ws) le lt h = ((omega arith, tt), (omega arith, tt), (lt, tt))
take_lead-Ordered n lo seat v (some b, ws) le lt h = elim (Bool-cases (value_le v b)) [
  | inr above ↦ rw above ((omega arith, tt), (omega arith, tt), (lt, tt))
  | inl le' ↦ elim (Bool-cases (value_le b v)) [
    | inr behind ↦ rw (le', behind) (h.0, All-lt-grow lo (suc seat) ws (omega arith) h.1, h.2)
    | inl ge ↦
        rw (le', ge)
          (
            Ascends-push 0 ws seat h.0 (All-lt-grow lo seat ws le h.1) (omega arith),
            All-append (λ (j : ℕ). j < suc seat) ws (seat ∷ [])
                (All-lt-grow lo (suc seat) ws (omega arith) h.1) (omega arith, tt),
            All-append (λ (j : ℕ). j < n) ws (seat ∷ []) h.2 (lt, tt),
          )
  ]
]

lead_with-Ordered :
    (n lo seat : ℕ) (o : Option HandValue) (l : Leaders)
    → lo ≤ seat
    → seat < n
    → Ordered n lo l
    → Ordered n (suc seat) (lead_with seat o l)
lead_with-Ordered n lo seat none l le lt h =
    (h.0, All-lt-grow lo (suc seat) l.1 (omega arith) h.1, h.2)
lead_with-Ordered n lo seat (some v) l le lt h = take_lead-Ordered n lo seat v l le lt h

module _ (E : Type 0) (holes : List (Option Hole)) (community : List Card) (n : ℕ) where
  lead_with-Leads :
      (P : ℕ → Type 0) (seat : ℕ) (o : Option HandValue) (l : Leaders)
      → Brings E holes community seat o
      → Leads E holes community P l
      → Leads E holes community (And E holes community seat P) (lead_with seat o l)
  lead_with-Leads P seat none l br h = skip-Leads E holes community P seat l br h
  lead_with-Leads P seat (some v) l br h = take_lead-Leads E holes community P seat v br l h

  -- The loop finds, in ascending order, the seats whose hand no other eligible hand beats.
  pub leaders_of-Leads :
      (P : ℕ → Type 0) (lo : ℕ) (seats : List ℕ) (l : Leaders)
      → Ascends lo seats
      → All (λ (j : ℕ). j < n) seats
      → Leads E holes community P l
      → Ordered n lo l
      → Returns (leaders_of {E = E} holes community seats l) (λ l'.
        Leads E holes community (λ x. P x ⊎ Has x seats) l'
        × Ascends 0 l'.1
        × All (λ (j : ℕ). j < n) l'.1)
  unfolding leaders_of
  leaders_of-Leads P lo [] l asc lts h ord = (
    Leads-iff E holes community P _ l (λ x p. inl p)
        (λ x q. elim q [ inl p ↦ p | inr z ↦ absurd z.lower ]) h,
    ord.0,
    ord.2,
  )
  leaders_of-Leads P lo (seat ∷ seats) l asc lts h ord =
      let (o, e, br) = consider-Brings E holes community seat l in
      let more = And E holes community seat P in
      rw e (
        Returns-mono _ _ (leaders_of {E = E} holes community seats (lead_with seat o l))
          (leaders_of-Leads more (suc seat) seats (lead_with seat o l) asc.1 lts.1
            (lead_with-Leads P seat o l br h) (lead_with-Ordered n lo seat o l asc.0 lts.0 ord))
          (λ l' (leads, asc', in_table). (
            Leads-iff E holes community (λ x. more x ⊎ Has x seats) _ l' to from leads,
            asc',
            in_table,
          )))
    where
      to : (x : ℕ) → ((x ≡ seat) ⊎ P x) ⊎ Has x seats → P x ⊎ Has x (seat ∷ seats)
      to x (inl (inl e)) = inr (inl e)
      to x (inl (inr p)) = inl p
      to x (inr h) = inr (inr h)

      from : (x : ℕ) → P x ⊎ Has x (seat ∷ seats) → ((x ≡ seat) ⊎ P x) ⊎ Has x seats
      from x (inl p) = inl (inr p)
      from x (inr (inl e)) = inl (inl e)
      from x (inr (inr h)) = inr h
