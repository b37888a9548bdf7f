-- ===== src/App/State.antt =====
-- app/src/freeplay/model.rs: the tables that the client shows, the focus among them, the flow of
-- leaving one, and the making of one. The clock of the animation is left out.
use ten_cent_poker_client.Prelude.{
  ℕ, zero, suc, Bool, false, not, Option, none, some, List, [], ◌∷◌, ◌++◌, map, leb, ◌==◌,
  if◌then◌else◌, Outcome, ok, ◌>>=◌, keep, length, index, add64, rem64, replicate,
}
use ten_cent_poker_client.Prelude.Exec.{maybe}
use ten_cent_poker_client.App.Model.{
  Seat, Table, hero_stack, Leave, leave_processing_ms, HostConfig, default_config, host_start_stack,
  filled, empty, confirm, processing, done,
}

pub data Screen : Type 0 where
  grid host : Screen

pub record AppState : Type 0 where
  pub tables : List Table
  pub next_id : ℕ
  pub focus_id : Option ℕ
  pub open_menu_id : Option ℕ
  pub leave : Option Leave
  pub host_open : Bool
  pub join_open : Bool
  pub join_uri : List ℕ
  pub host_config : HostConfig
  pub screen : Screen

unfoldable pub new_state : AppState
new_state = record {
  tables = [];
  next_id = 1;
  focus_id = none;
  open_menu_id = none;
  leave = none;
  host_open = false;
  join_open = false;
  join_uri = [];
  host_config = default_config;
  screen = host;
}

-- `find`
unfoldable pub find_table : (Table → Bool) → List Table → Option Table
find_table p [] = none
find_table p (t ∷ tables) = let rest = find_table p tables in if p t then some t else rest

unfoldable pub table : AppState → ℕ → Option Table
table s id = find_table (λ t. t.id == id) s.tables

unfoldable pub active_count : AppState → ℕ
active_count s = length s.tables

-- The ids of the tables that await an action.
unfoldable pub turn_ids : List Table → List ℕ
turn_ids tables = map (λ (t : Table). t.id) (keep (λ t. t.your_turn) tables)

unfoldable pub need_count : AppState → ℕ
need_count s = length (keep (λ t. t.your_turn) s.tables)

-- The sum, with the overflow checks on.
unfoldable pub sum_stacks {ℓ} : {E : Type ℓ} → ℕ → List Table → Outcome E ℕ
sum_stacks n [] = ok n
sum_stacks n (t ∷ tables) = do next ← add64 n (hero_stack t); sum_stacks next tables

unfoldable pub chips_in_play {ℓ} : {E : Type ℓ} → AppState → Outcome E ℕ
chips_in_play s = sum_stacks 0 s.tables

unfoldable pub grid_cols : AppState → ℕ
grid_cols s = if leb (length s.tables) 1 then 1 else (if leb (length s.tables) 4 then 2 else 3)

unfoldable pub move_focus : AppState → AppState
move_focus s = record s {
  focus_id = maybe (find_table (λ t. t.your_turn) s.tables) none (λ t. some t.id);
}

-- `position`, counted from `i` on.
unfoldable pub position_of : ℕ → List ℕ → ℕ → Option ℕ
position_of i [] id = none
position_of i (x ∷ ids) id =
    let later = position_of (suc i) ids id in if x == id then some i else later

-- The id behind the focus, where some table awaits an action.
unfoldable pub next_turn {ℓ} : {E : Type ℓ} → Option ℕ → List ℕ → Outcome E ℕ
next_turn focus turns =
    let at = maybe focus none (position_of 0 turns) in
    let behind =
      λ (i : ℕ). (do past ← add64 i 1; next ← rem64 past (length turns); index turns next) in
    maybe at (index turns 0) behind

unfoldable pub focus_next {ℓ} : {E : Type ℓ} → AppState → Outcome E AppState
focus_next s = elim (turn_ids s.tables) [
  | [] ↦ ok (record s { focus_id = none })
  | id ∷ ids ↦ do next ← next_turn s.focus_id (id ∷ ids); ok (record s { focus_id = some next })
]

unfoldable pub begin_leave : ℕ → AppState → AppState
begin_leave id s = record s {
  open_menu_id = none;
  leave = some (record { id = id; stage = confirm; elapsed_ms = 0 });
}

unfoldable pub advance_stage : Leave → Leave
advance_stage l = elim l.stage [
  | confirm ↦ record l { stage = processing; elapsed_ms = 0 }
  | processing ↦ record l { stage = done; elapsed_ms = 0 }
  | done ↦ l
]

unfoldable pub advance_leave : AppState → AppState
advance_leave s = record s { leave = maybe s.leave none (λ l. some (advance_stage l)) }

unfoldable pub cancel_leave : AppState → AppState
cancel_leave s = record s { leave = none }

-- `Some(id) == o`
abbrev pub is_id : Option ℕ → ℕ → Bool
is_id none id = false
is_id (some i) id = i == id

-- `finish_leave` behind its first line, for the table `id`.
unfoldable pub remove_table : ℕ → AppState → AppState
remove_table id s =
    let left = record s { leave = none; tables = keep (λ t. not (t.id == id)) s.tables } in
    let focused = if is_id s.focus_id id then move_focus left else left in
    let closed =
      if is_id s.open_menu_id id then record focused { open_menu_id = none } else focused in
    if leb (length left.tables) 0 then record closed { screen = host } else closed

unfoldable pub finish_leave : AppState → AppState
finish_leave s = maybe s.leave s (λ l. remove_table l.id s)

-- `New Table` and `You` in bytes.
abbrev pub new_table_name : List ℕ
new_table_name = 78 ∷ 101 ∷ 119 ∷ 32 ∷ 84 ∷ 97 ∷ 98 ∷ 108 ∷ 101 ∷ []

abbrev pub you : List ℕ
you = 89 ∷ 111 ∷ 117 ∷ []

-- The open seats of `create_free_table`: `1..n`.
unfoldable pub open_seats : ℕ → List Seat
open_seats zero = []
open_seats (suc n) = replicate n empty

unfoldable pub free_table : ℕ → HostConfig → Table
free_table id cfg = record {
  id = id;
  name = new_table_name;
  game = cfg.game;
  blinds = cfg.blinds;
  pot = 0;
  board = [];
  hero = [];
  seats = filled you host_start_stack false ∷ open_seats cfg.num_seats;
  dealer = 0;
  to_act = 0;
  your_turn = false;
  to_call = 0;
  time_left = 0;
  invite_uri = none;
  reachability = none;
  can_check = false;
  can_call = false;
  can_bet = false;
  can_raise = false;
  can_all_in = false;
  min_bet = 0;
  min_raise_to = 0;
  max_to = 0;
  bet_to = 0;
}

unfoldable pub create_free_table {ℓ} :
    {E : Type ℓ} → HostConfig → AppState → Outcome E (ℕ × AppState)
create_free_table cfg s = do
  next ← add64 s.next_id 1
  ok (s.next_id, record s { next_id = next; tables = s.tables ++ free_table s.next_id cfg ∷ [] })

unfoldable pub create_from_host {ℓ} : {E : Type ℓ} → AppState → Outcome E (ℕ × AppState)
create_from_host s = do
  made ← create_free_table s.host_config s
  ok (made.0, record (made.1) { host_open = false })

-- The timer of `tick`, for the whole milliseconds of the frame.
unfoldable pub tick_leave {ℓ} : {E : Type ℓ} → ℕ → Leave → Outcome E Leave
tick_leave dt l = elim l.stage [
  | confirm ↦ ok l
  | processing ↦ do
    elapsed ← add64 l.elapsed_ms dt
    ok (
        if leb leave_processing_ms elapsed
        then record l { stage = done; elapsed_ms = 0 }
        else record l { elapsed_ms = elapsed })
  | done ↦ ok l
]

unfoldable pub tick {ℓ} : {E : Type ℓ} → ℕ → AppState → Outcome E AppState
tick dt s = elim s.leave [
  | none ↦ ok s
  | some l ↦ do l' ← tick_leave dt l; ok (record s { leave = some l' })
]
