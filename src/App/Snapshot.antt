-- ===== src/App/Snapshot.antt =====
-- app/src/gui_state.rs: the snapshot that the client draws, and how it is made from the table. What
-- formats a number and a peer id is a parameter; a text is the list of its bytes.
use ten_cent_poker_client.Prelude.{
  ℕ, suc, ◌-◌, Bool, true, false, ◌&&◌, ◌||◌, not, Option, none, some, List, [], ◌∷◌, ◌++◌, ◌==◌,
  if◌then◌else◌, ok, ◌>>=◌, get_elem?, length, ℤ, add64,
}
use ten_cent_poker_client.Prelude.Exec.{maybe}
use ten_cent_poker_client.Prelude.Map.{is_some}
use ten_cent_poker_client.Cards.{Card}
use ten_cent_poker_client.Betting.State.{Street, BettingState, Res, contributions}
use ten_cent_poker_client.Betting.State as State
use ten_cent_poker_client.Showdown.Defs.{Hole}
use ten_cent_poker_client.Protocol.Setting.{Setting}
use ten_cent_poker_client.Protocol.Mental.{DealPhase, ready, phase_eq}
use ten_cent_poker_client.Protocol.Table.{
  Table, HandOutcome, local_seat, live_hand_no, is_mental_hand, deal_phase_of, community_of,
  local_hole_of, is_local_turn,
}
use ten_cent_poker_client.App.Legal.{LegalActions, no_actions, compute_legal}
use ten_cent_poker_client.Net.Frames.{drop}

pub data Role : Type 0 where
  host guest : Role

pub data Conn : Type 0 where
  idle connecting waiting playing game_over : Conn
  error : List ℕ → Conn

pub record SeatView : Type 0 where
  pub seat : ℕ
  pub label : List ℕ
  pub stack : ℕ
  pub committed : ℕ
  pub folded : Bool
  pub is_all_in : Bool
  pub is_button : Bool
  pub is_me : Bool
  pub is_to_act : Bool

pub record ResultView : Type 0 where
  pub hand_no : ℕ
  pub board : List Card
  pub my_hole : Option Hole
  pub deltas : List ℤ
  pub final_stacks : List ℕ

unfoldable pub from_outcome : HandOutcome → Option Hole → ResultView
from_outcome o my_hole = record {
  hand_no = o.hand_no;
  board = o.community;
  my_hole = my_hole;
  deltas = o.deltas;
  final_stacks = o.final_stacks;
}

pub record GuiState : Type 0 where
  pub role : Option Role
  pub conn : Conn
  pub my_peer_short : List ℕ
  pub table_uri : Option (List ℕ)
  pub reachability_warning : Option (List ℕ)
  pub hand_no : Option ℕ
  pub is_mental : Bool
  pub deal_phase : Option DealPhase
  pub dealing : Bool
  pub street : Option Street
  pub button : Option ℕ
  pub pot : ℕ
  pub board : List Card
  pub my_seat : Option ℕ
  pub my_hole : Option Hole
  pub seats : List SeatView
  pub is_my_turn : Bool
  pub legal : LegalActions
  pub last_result : Option ResultView

-- `Some(i) == o`
abbrev pub is_at : Option ℕ → ℕ → Bool
is_at none i = false
is_at (some j) i = j == i

-- `iter().sum()` on u64, with the overflow checks on.
unfoldable pub sum64 : ℕ → List ℕ → Res ℕ
sum64 n [] = ok n
sum64 n (x ∷ xs) = do next ← add64 n x; sum64 next xs

-- `you`, `host`, `seat `, ` (…` and `)` in bytes.
abbrev pub label_you : List ℕ
label_you = 121 ∷ 111 ∷ 117 ∷ []

abbrev pub label_host : List ℕ
label_host = 104 ∷ 111 ∷ 115 ∷ 116 ∷ []

abbrev pub label_seat : List ℕ
label_seat = 115 ∷ 101 ∷ 97 ∷ 116 ∷ 32 ∷ []

abbrev pub label_open : List ℕ
label_open = 32 ∷ 40 ∷ 226 ∷ 128 ∷ 166 ∷ []

-- A phase other than `Ready`, or none.
abbrev pub is_unready : Option DealPhase → Bool
is_unready none = true
is_unready (some phase) = not (phase_eq phase ready)

module _ (W : Setting) (number_text : ℕ → List ℕ) (peer_text : W.PeerId → List ℕ) where
  open W use {PeerId}

  unfoldable pub seat_label : Option (List ℕ) → ℕ → Option ℕ → List ℕ
  seat_label peer i me =
      let short = λ (s : List ℕ).
        label_seat ++ number_text i ++ label_open ++ drop (length s - 6) s ++ 41 ∷ [] in
      let other = maybe peer (label_seat ++ number_text i) short in
      if is_at me i then label_you else (if i == 0 then label_host else other)

  -- The label of the seat `i` of a roster.
  unfoldable pub label_at : List PeerId → ℕ → Option ℕ → List ℕ
  label_at roster i me = seat_label (maybe (get_elem? roster i) none (λ p. some (peer_text p))) i me

  unfoldable pub betting_seats :
      List PeerId → Option ℕ → BettingState → ℕ → List State.Seat → List SeatView
  betting_seats roster me b i [] = []
  betting_seats roster me b i (s ∷ seats) =
      record {
        seat = i;
        label = label_at roster i me;
        stack = s.stack;
        committed = s.committed;
        folded = s.folded;
        is_all_in = s.is_all_in;
        is_button = i == b.button;
        is_me = is_at me i;
        is_to_act = is_at b.to_act i;
      }
      ∷ betting_seats roster me b (suc i) seats

  unfoldable pub roster_seats : List PeerId → Option ℕ → ℕ → List PeerId → List SeatView
  roster_seats roster me i [] = []
  roster_seats roster me i (p ∷ peers) =
      record {
        seat = i;
        label = label_at roster i me;
        stack = 0;
        committed = 0;
        folded = false;
        is_all_in = false;
        is_button = false;
        is_me = is_at me i;
        is_to_act = false;
      }
      ∷ roster_seats roster me (suc i) peers

  -- `match (is_my_turn, my_seat)`
  unfoldable pub legal_for : BettingState → Bool → Option ℕ → Res LegalActions
  legal_for b true (some seat) = compute_legal b seat
  legal_for b true none = ok no_actions
  legal_for b false me = ok no_actions

  -- The assignments before the `match`.
  unfoldable pub common_part : Table W → GuiState → GuiState
  common_part t g = record g {
    my_seat = local_seat W t;
    hand_no = live_hand_no W t;
    is_mental = is_mental_hand W t;
    deal_phase = deal_phase_of W t;
    board = community_of W t;
    my_hole = local_hole_of W t;
  }

  unfoldable pub with_betting : Table W → BettingState → GuiState → Res GuiState
  with_betting t b g = do
    pot ← sum64 0 (contributions b)
    let turn = is_local_turn W t
    legal ← legal_for b turn g.my_seat
    ok (record g {
      street = some b.street;
      button = some b.button;
      pot = pot;
      is_my_turn = turn;
      seats = betting_seats t.roster g.my_seat b 0 b.seats;
      legal = legal;
      dealing =
          is_mental_hand W t
          && (is_unready (deal_phase_of W t) || not (is_some (local_hole_of W t)));
    })

  unfoldable pub without_betting : Table W → GuiState → GuiState
  without_betting t g = record g {
    is_my_turn = false;
    legal = no_actions;
    dealing = is_mental_hand W t && is_some (live_hand_no W t);
    seats = roster_seats t.roster g.my_seat 0 t.roster;
  }

  unfoldable pub update_from_table : Table W → GuiState → Res GuiState
  update_from_table t g = elim t.live [
    | none ↦ ok (without_betting t (common_part t g))
    | some live ↦ with_betting t live.betting (common_part t g)
  ]
