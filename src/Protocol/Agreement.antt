-- ===== src/Protocol/Agreement.antt =====
-- protocol/src/mental.rs and game/src/hand.rs: the layout of the deck agrees with the dealing from a
-- known deck.
use ten_cent_poker_client.Prelude.{
  ℕ, zero, suc, ◌+◌, ◌*◌, ◌%◌, ◌≡◌, refl, sym, subst, Option, none, some, List, [], ◌∷◌, ◌==◌, ltb,
  Bool-cases, Option-cases, ◌⊎◌, inl, inr, Outcome, ok, err, panic, ◌>>=◌, length, get_elem?,
  get_elem?-some-lt, set, replicate, index, index-ok, write-ok, add64, rem64, u64_mod,
}
use ten_cent_poker_client.Cards.{Card}
use ten_cent_poker_client.Hand.Dealing.{
  HandError, Slots, put_card, deal_pass, unwrap_holes, deal_hole,
}
use ten_cent_poker_client.Showdown.Defs.{Hole}
use ten_cent_poker_client.Protocol.Layout.{
  Positions, DeckLayout, put_position, lay_pass, new_layout,
}

index-panic :
    {E A : Type 0} (xs : List A) (i : ℕ) → get_elem? xs i ≡ none → index {E = E} xs i ≡ panic
unfolding index
index-panic xs i h = rw (h, index)

-- Where the first call returns, the second returns too, and their values are related.
abbrev Agree : {E F A B : Type 0} → (A → B → Type 0) → Outcome E A → Outcome F B → Type 0
Agree R (ok a) (ok b) = R a b
Agree R (ok a) (err e) = ⊥
Agree R (ok a) panic = ⊥
Agree R (err e) y = Unit
Agree R panic y = Unit

bind-Agree :
    {E F A B C D : Type 0} (R : A → B → Type 0) (Q : C → D → Type 0) (x : Outcome E A)
    (y : Outcome F B) (f : A → Outcome E C) (g : B → Outcome F D)
    → Agree R x y
    → ((a : A) (b : B) → R a b → Agree Q (f a) (g b))
    → Agree Q (x >>= f) (y >>= g)
bind-Agree R Q (ok a) (ok b) f g h k = k a b h
bind-Agree R Q (ok a) (err e) f g h k = elim h [ ]
bind-Agree R Q (ok a) panic f g h k = elim h [ ]
bind-Agree R Q (err e) y f g h k = tt
bind-Agree R Q panic y f g h k = tt

Agree-ok :
    {E F A B : Type 0} (R : A → B → Type 0) (x : Outcome E A) (y : Outcome F B) (a : A)
    → Agree R x y
    → x ≡ ok a
    → (b : B) × (y ≡ ok b) × R a b
Agree-ok {E = E} {F = F} {B = B} R x y a h e = returned y (subst (λ o. Agree R o y) e h)
  where
    returned : (y : Outcome F B) → Agree {E = E} R (ok a) y → (b : B) × (y ≡ ok b) × R a b
    returned (ok b) r = (b, refl, r)
    returned (err f) r = elim r [ ]
    returned panic r = elim r [ ]

-- `(seat + 1) % n` on both sides.
module _ (E F : Type 0) {A B : Type 0} (R : A → B → Type 0) (seat n : ℕ) where
  next_seat-Agree :
      (f : ℕ → Outcome E A) (g : ℕ → Outcome F B)
      → ((k : ℕ) → Agree R (f k) (g k))
      → Agree R (add64 seat 1 >>= λ up. rem64 up n >>= f) (add64 seat 1 >>= λ up. rem64 up n >>= g)
  unfolding add64 rem64
  next_seat-Agree f g k = elim (Bool-cases (ltb (seat + 1) u64_mod)) [
    | inl fits ↦ elim (Bool-cases (n == 0)) [
      | inl none_left ↦ rw (fits, none_left) tt
      | inr some_left ↦ rw (fits, some_left) (k ((seat + 1) % n))
    ]
    | inr over ↦ rw (over) tt
  ]

module _ (deck : List Card) where
  -- A slot that has a card has the card of the position.
  abbrev Fits : Option Card → ℕ → Type 0
  Fits slot i = (slot ≡ none) ⊎ (slot ≡ get_elem? deck i)

  abbrev SeatFits : Slots → Positions → Type 0
  SeatFits slots p = Fits slots.0 p.0 × Fits slots.1 p.1

  abbrev AllFit : List Slots → List Positions → Type 0
  AllFit [] [] = Unit
  AllFit [] (p ∷ ps) = ⊥
  AllFit (s ∷ ss) [] = ⊥
  AllFit (s ∷ ss) (p ∷ ps) = SeatFits s p × AllFit ss ps

  AllFit-get :
      (ss : List Slots) (ps : List Positions) (i : ℕ) {slots : Slots}
      → AllFit ss ps
      → get_elem? ss i ≡ some slots
      → (p : Positions) × (get_elem? ps i ≡ some p) × SeatFits slots p
  AllFit-get [] ps i h e = cc
  AllFit-get (s ∷ ss) [] i h e = elim h [ ]
  AllFit-get (s ∷ ss) (p ∷ ps) zero h e = (p, refl, subst (λ o. SeatFitsOr o p) e h.0)
    where
      SeatFitsOr : Option Slots → Positions → Type 0
      SeatFitsOr none p = Unit
      SeatFitsOr (some s) p = SeatFits s p
  AllFit-get (s ∷ ss) (p ∷ ps) (suc i) h e = AllFit-get ss ps i h.1 e

  AllFit-set :
      (ss : List Slots) (ps : List Positions) (i : ℕ) (slots : Slots) (p : Positions)
      → AllFit ss ps
      → SeatFits slots p
      → AllFit (set ss i slots) (set ps i p)
  AllFit-set [] [] i slots p h f = tt
  AllFit-set [] (q ∷ ps) i slots p h f = elim h [ ]
  AllFit-set (s ∷ ss) [] i slots p h f = elim h [ ]
  AllFit-set (s ∷ ss) (q ∷ ps) zero slots p h f = (f, h.1)
  AllFit-set (s ∷ ss) (q ∷ ps) (suc i) slots p h f = (h.0, AllFit-set ss ps i slots p h.1 f)

  put-SeatFits :
      (round idx : ℕ) (slots : Slots) (p : Positions) {c : Card}
      → get_elem? deck idx ≡ some c
      → SeatFits slots p
      → SeatFits (put_card round c slots) (put_position round idx p)
  put-SeatFits zero idx slots p e f = (inr (sym e), f.1)
  put-SeatFits (suc round) idx slots p e f = (f.0, inr (sym e))

  abbrev PassFits : ℕ × List Slots → ℕ × List Positions → Type 0
  PassFits dealt laid = (dealt.0 ≡ laid.0) × AllFit dealt.1 laid.1

  module _ (E : Type 0) (n round : ℕ) where
    pass-Agree :
        (rounds seat idx : ℕ) (ss : List Slots) (ps : List Positions)
        → AllFit ss ps
        → Agree PassFits
            (deal_pass deck n round rounds seat idx ss)
            (lay_pass {E = E} n round rounds seat idx ps)
    unfolding deal_pass lay_pass add64 rem64
    pass-Agree zero seat idx ss ps h = (refl, h)
    pass-Agree (suc rounds) seat idx ss ps h = elim (Option-cases (get_elem? deck idx)) [
      | inl e ↦ rw (index-panic deck idx e) tt
      | inr (c, ec) ↦ elim (Option-cases (get_elem? ss seat)) [
        | inl e ↦ rw (index-ok deck idx ec, index-panic ss seat e) tt
        | inr (slots, es) ↦
            let (p, ep, f) = AllFit-get ss ps seat h es in
            let ss' = set ss seat (put_card round c slots) in
            let ps' = set ps seat (put_position round idx p) in
            let fits : AllFit ss' ps' =
              AllFit-set ss ps seat (put_card round c slots) (put_position round idx p) h
                (put-SeatFits round idx slots p ec f) in
            rw
              (
                index-ok deck idx ec,
                index-ok ss seat es,
                index-ok ps seat ep,
                write-ok ss seat (put_card round c slots) (get_elem?-some-lt ss seat es),
                write-ok ps seat (put_position round idx p) (get_elem?-some-lt ps seat ep),
              )
              (next_seat-Agree HandError E PassFits seat n
                (λ next. deal_pass deck n round rounds next (suc idx) ss')
                (λ next. lay_pass n round rounds next (suc idx) ps')
                (λ next. pass-Agree rounds next (suc idx) ss' ps' fits))
      ]
    ]

  -- The two cards of a seat stand at its two positions.
  abbrev pub AllDealt : List Hole → List Positions → Type 0
  AllDealt [] [] = Unit
  AllDealt [] (p ∷ ps) = ⊥
  AllDealt (h ∷ hs) [] = ⊥
  AllDealt (h ∷ hs) (p ∷ ps) =
      (get_elem? deck p.0 ≡ some h.0) × (get_elem? deck p.1 ≡ some h.1) × AllDealt hs ps

  slot_card : (c : Card) (i : ℕ) → Fits (some c) i → get_elem? deck i ≡ some c
  slot_card c i (inl e) = cc
  slot_card c i (inr e) = sym e

  unwrap-Agree :
      (E : Type 0) (ss : List Slots) (ps : List Positions)
      → AllFit ss ps
      → Agree {F = E} AllDealt (unwrap_holes ss) (ok ps)
  unwrap-Agree E [] [] h = tt
  unwrap-Agree E [] (p ∷ ps) h = elim h [ ]
  unwrap-Agree E (s ∷ ss) [] h = elim h [ ]
  unwrap-Agree E ((none, second) ∷ ss) (p ∷ ps) h = tt
  unwrap-Agree E ((some a, none) ∷ ss) (p ∷ ps) h = tt
  unwrap-Agree E ((some a, some b) ∷ ss) (p ∷ ps) h =
      bind-Agree {F = E} AllDealt AllDealt (unwrap_holes ss) (ok ps) (λ rest. ok ((a, b) ∷ rest))
        (λ qs. ok (p ∷ qs)) (unwrap-Agree E ss ps h.1)
        λ rest qs dealt. (slot_card a p.0 h.0.0, slot_card b p.1 h.0.1, dealt)

  replicate-AllFit : (n : ℕ) → AllFit (replicate n (none, none)) (replicate n (0, 0))
  replicate-AllFit zero = tt
  replicate-AllFit (suc n) = ((inl refl, inl refl), replicate-AllFit n)

  abbrev pub LaidOut : List Hole → DeckLayout → Type 0
  LaidOut holes layout = AllDealt holes layout.holes

  layout-Agree :
      (E : Type 0) (x : Outcome HandError (List Hole)) (ps : List Positions)
      → Agree {F = E} AllDealt x (ok ps)
      → Agree {F = E} LaidOut x (ok (record { holes = ps }))
  layout-Agree E (ok holes) ps h = h
  layout-Agree E (err e) ps h = tt
  layout-Agree E panic ps h = tt

  deal_hole-Agree :
      (E : Type 0) (n button : ℕ)
      → Agree LaidOut (deal_hole deck n button) (new_layout {E = E} n button)
  unfolding deal_hole new_layout
  deal_hole-Agree E n button = elim (Bool-cases (ltb (length deck) (2 * n))) [
    | inl small ↦ rw (small) tt
    | inr enough ↦ rw (enough) (
        next_seat-Agree HandError E LaidOut button n _ _ λ first.
          bind-Agree PassFits LaidOut _ _ _ _
            (pass-Agree E n 0 n first 0 (replicate n (none, none)) (replicate n (0, 0))
              (replicate-AllFit n))
            λ once once' fits.
              bind-Agree PassFits LaidOut _ _ _ _
                (subst
                  (λ i.
                    Agree PassFits (deal_pass deck n 1 n first once.0 once.1)
                      (lay_pass {E = E} n 1 n first i once'.1))
                  fits.0 (pass-Agree E n 1 n first once.0 once.1 once'.1 fits.1))
                λ twice twice' full.
                  layout-Agree E (unwrap_holes twice.1) twice'.1
                    (unwrap-Agree E twice.1 twice'.1 full.1))
  ]

-- Where dealing from the deck returns the hole cards of `n` seats, the layout of the mental deal for
-- the same seats and button exists, and the two cards of every seat are the cards of the deck at the
-- two positions that the layout gives the seat.
pub new_layout-LaidOut :
    (E : Type 0) (deck : List Card) (n button : ℕ) (holes : List Hole)
    → deal_hole deck n button ≡ ok holes
    → (layout : DeckLayout) × (new_layout {E = E} n button ≡ ok layout) × LaidOut deck holes layout
new_layout-LaidOut E deck n button holes e =
    Agree-ok (LaidOut deck) (deal_hole deck n button) (new_layout n button) holes
      (deal_hole-Agree deck E n button) e
