-- ===== src/App/Rotation.antt =====
-- app/src/freeplay/project.rs: where the players of the snapshot stand on the table that is drawn.
use ten_cent_poker_client.Prelude.{
  ℕ, zero, suc, ◌+◌, ◌-◌, ◌%◌, ◌<◌, ◌≡◌, refl, ap, sym, ◌∙◌, some, List, arith, length, get_elem?,
  get_elem?-lt, ne→==, ltb, ltb→lt, ltb→le, Bool-cases, inl, inr,
}
use native.Mathlib.Nat.{mod-add-mod, mod-eq_of_lt, mod-eq-sub-mod, mod-lt}
use ten_cent_poker_client.Prelude.Exec.{maybe}
use ten_cent_poker_client.App.Snapshot.{SeatView, GuiState}
use ten_cent_poker_client.App.Project.{rotate, model_seat, rotated, project}

rotate-lt : (n offset orig : ℕ) → 0 < n → rotate n offset orig < n
unfolding rotate
rotate-lt n offset orig h =
    rw (ne→== n 0 (λ (e : n ≡ 0). omega (arith, e))) (mod-lt (orig + n - offset % n) h)

mod_wraps : (n r orig : ℕ) → r < n → orig < n → (r + (orig + n - r) % n) % n ≡ orig
mod_wraps n r orig low h = elim (Bool-cases (ltb orig r)) [
  | inl e ↦
      let gt = ltb→lt orig r e in
      ap (λ (x : ℕ). (r + x) % n) (mod-eq_of_lt {n = orig + n - r} {m = n} (omega arith))
      ∙ ap (λ (x : ℕ). x % n) (omega arith)
      ∙ mod-eq-sub-mod {n = orig + n} {m = n} (omega arith)
      ∙ ap (λ (x : ℕ). x % n) (omega arith)
      ∙ mod-eq_of_lt h
  | inr e ↦
      let le = ltb→le orig r e in
      ap (λ (x : ℕ). (r + x) % n)
        (mod-eq-sub-mod {n = orig + n - r} {m = n} (omega arith) ∙ mod-eq_of_lt (omega arith))
      ∙ ap (λ (x : ℕ). x % n) (omega arith)
      ∙ mod-eq_of_lt h
]

-- The seat that is drawn at the rotated place is the original one.
rotate_back : (n offset orig : ℕ) → orig < n → (offset + rotate n offset orig) % n ≡ orig
unfolding rotate
rotate_back n offset orig h = rw (ne→== n 0 (λ (e : n ≡ 0). omega (arith, e))) (
    sym (mod-add-mod offset n ((orig + n - offset % n) % n))
    ∙ mod_wraps n (offset % n) orig (mod-lt offset (omega arith)) h)

same_place :
    (views : List SeatView) (offset a b : ℕ)
    → a ≡ b
    → get_elem? views ((offset + a) % length views) ≡ get_elem? views ((offset + b) % length views)
same_place views offset a b e = ap (λ (x : ℕ). get_elem? views ((offset + x) % length views)) e

rotated_at :
    (views : List SeatView) (offset i left k : ℕ)
    → k < left
    → 0 < length views
    → (sv : SeatView) → get_elem? views ((offset + (i + k)) % length views) ≡ some sv
    → get_elem? (rotated views offset i left) k ≡ some (model_seat sv)
unfolding rotated
rotated_at views offset i zero k h pos sv e = elim h [ ]
rotated_at views offset i (suc left) zero h pos sv e =
    rw (same_place views offset i (i + 0) (omega arith) ∙ e) refl
rotated_at views offset i (suc left) (suc k) h pos sv e =
    let seat = get_elem?-lt views ((offset + i) % length views) (mod-lt (offset + i) pos) in
    rw seat.1 (
      rotated_at views offset (suc i) left k (omega arith) pos sv
        (same_place views offset (suc i + k) (i + suc k) (omega arith) ∙ e))

-- The player of the seat `orig` of the snapshot, `sv`, is drawn at the place that `rotate` gives,
-- which is a place of the table that `project` builds.
pub project-rotate :
    (gui : GuiState) (id orig : ℕ) (sv : SeatView)
    → orig < length gui.seats
    → get_elem? gui.seats orig ≡ some sv
    → (rotate (length gui.seats) (maybe gui.my_seat 0 (λ seat. seat)) orig < length gui.seats)
      × (get_elem?
            (project gui id).seats
            (rotate (length gui.seats) (maybe gui.my_seat 0 (λ seat. seat)) orig)
          ≡ some (model_seat sv))
unfolding project
project-rotate gui id orig sv h e =
    let n = length gui.seats in
    let offset = maybe gui.my_seat 0 (λ seat. seat) in
    let low = rotate-lt n offset orig (omega arith) in
    (
      low,
      rotated_at gui.seats offset 0 n (rotate n offset orig) low (omega arith) sv (
          same_place gui.seats offset (0 + rotate n offset orig) (rotate n offset orig)
            (omega arith)
          ∙ ap (get_elem? gui.seats) (rotate_back n offset orig h)
          ∙ e),
    )
