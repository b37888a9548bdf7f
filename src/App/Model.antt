-- ===== src/App/Model.antt =====
-- app/src/freeplay/model.rs: a table that the client shows, its seats, the stages of leaving it, and
-- what is chosen for a new one. A text is the list of its bytes.
use ten_cent_poker_client.Prelude.{
  ℕ, Bool, true, false, Option, none, some, List, [], ◌∷◌, ◌==◌, if◌then◌else◌, get_elem?,
}
use ten_cent_poker_client.Prelude.Exec.{maybe}

pub data Game : Type 0 where
  holdem omaha stud : Game

pub data Visibility : Type 0 where
  private_table public_table : Visibility

pub data Seat : Type 0 where
  -- the name, the stack, and whether the player has folded
  filled : List ℕ → ℕ → Bool → Seat
  empty : Seat

unfoldable pub is_empty : Seat → Bool
is_empty (filled name stack folded) = false
is_empty empty = true

unfoldable pub is_folded : Seat → Bool
is_folded (filled name stack folded) = folded
is_folded empty = false

pub record Table : Type 0 where
  pub id : ℕ
  pub name : List ℕ
  pub game : Game
  pub blinds : List ℕ
  pub pot : ℕ
  pub board : List ℕ
  pub hero : List ℕ
  pub seats : List Seat
  pub dealer : ℕ
  pub to_act : ℕ
  pub your_turn : Bool
  pub to_call : ℕ
  pub time_left : ℕ
  pub invite_uri : Option (List ℕ)
  pub reachability : Option (List ℕ)
  pub can_check : Bool
  pub can_call : Bool
  pub can_bet : Bool
  pub can_raise : Bool
  pub can_all_in : Bool
  pub min_bet : ℕ
  pub min_raise_to : ℕ
  pub max_to : ℕ
  pub bet_to : ℕ

abbrev pub timer_total_ms : ℕ
timer_total_ms = 18000

-- `hero_stack` of the seats.
unfoldable pub stack_of_first : List Seat → ℕ
stack_of_first [] = 0
stack_of_first (filled name stack folded ∷ seats) = stack
stack_of_first (empty ∷ seats) = 0

unfoldable pub hero_stack : Table → ℕ
hero_stack t = stack_of_first t.seats

unfoldable pub seat_name : Seat → Option (List ℕ)
seat_name (filled name stack folded) = some name
seat_name empty = none

unfoldable pub acting_name : Table → Option (List ℕ)
acting_name t = if t.to_act == 0 then none else maybe (get_elem? t.seats t.to_act) none seat_name

pub data LeaveStage : Type 0 where
  confirm processing done : LeaveStage

pub record Leave : Type 0 where
  pub id : ℕ
  pub stage : LeaveStage
  pub elapsed_ms : ℕ

abbrev pub leave_processing_ms : ℕ
leave_processing_ms = 1600

pub record HostConfig : Type 0 where
  pub game : Game
  pub num_seats : ℕ
  pub visibility : Visibility
  pub blinds : List ℕ

-- `20 / 40`
abbrev pub default_blinds : List ℕ
default_blinds = 50 ∷ 48 ∷ 32 ∷ 47 ∷ 32 ∷ 52 ∷ 48 ∷ []

unfoldable pub default_config : HostConfig
default_config = record {
  game = holdem;
  num_seats = 6;
  visibility = private_table;
  blinds = default_blinds;
}

abbrev pub host_start_stack : ℕ
host_start_stack = 1500
