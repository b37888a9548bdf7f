-- ===== src/App/Control.antt =====
-- app/src/freeplay/mod.rs and app/src/freeplay/conn.rs: the running client, without what it draws. Time
-- is in whole milliseconds. What a connection shows in a frame is an input, and what is sent through
-- it is a log; the tasks behind it are left out.
use ten_cent_poker_client.Prelude.{
  ℕ, ◌-◌, Bool, true, false, ◌&&◌, ◌||◌, not, Option, none, some, List, [], ◌∷◌, ◌++◌, ltb, leb,
  if◌then◌else◌, min,
}
use ten_cent_poker_client.Prelude.Exec.{maybe}
use ten_cent_poker_client.Prelude.Map.{is_some}
use ten_cent_poker_client.Protocol.Bot.{WireAction}
use ten_cent_poker_client.App.Legal.{
  LegalActions, Act, fold_act, check_call_act, max, clamp, map_action,
}
use ten_cent_poker_client.App.Text.{parse_blinds}
use ten_cent_poker_client.App.Snapshot.{
  Conn, idle, connecting, waiting, playing, game_over, error, GuiState,
}
use ten_cent_poker_client.App.Model.{timer_total_ms}
use ten_cent_poker_client.App.State.{
  Screen, grid, host, AppState, new_state, need_count, finish_leave,
}
use ten_cent_poker_client.App.Project.{project}

-- A connection in a frame: its snapshot, whether its driver has finished, and with which error.
pub record TableConn : Type 0 where
  pub snapshot : GuiState
  pub is_finished : Bool
  pub failure : Option (List ℕ)

-- `keep_error_or`
unfoldable pub keep_error_or : Conn → Conn → Conn
keep_error_or (error text) fallback = error text
keep_error_or idle fallback = fallback
keep_error_or connecting fallback = fallback
keep_error_or waiting fallback = fallback
keep_error_or playing fallback = fallback
keep_error_or game_over fallback = fallback

abbrev pub live_table_id : ℕ
live_table_id = 1

pub record FreePlayApp : Type 0 where
  pub state : AppState
  pub conn : Option TableConn
  pub lifecycle : Conn
  pub bet_to : ℕ
  pub was_my_turn : Bool
  pub turn_remaining_ms : ℕ
  pub turn_submitted : Bool
  pub sent : List WireAction

unfoldable pub new_app : FreePlayApp
new_app = record {
  state = new_state;
  conn = none;
  lifecycle = idle;
  bet_to = 0;
  was_my_turn = false;
  turn_remaining_ms = timer_total_ms;
  turn_submitted = false;
  sent = [];
}

unfoldable pub is_animating : FreePlayApp → Bool
is_animating app =
    ltb 0 (need_count app.state)
    || is_some app.state.leave
    || app.state.host_open
    || app.state.join_open

unfoldable pub reset_turn : FreePlayApp → FreePlayApp
reset_turn app = record app {
  was_my_turn = false;
  turn_remaining_ms = timer_total_ms;
  turn_submitted = false;
}

-- `if let Some(a) = map_action(act, legal) { conn.send(a) }`
unfoldable pub send_mapped : Act → LegalActions → FreePlayApp → FreePlayApp
send_mapped act legal app =
    maybe (map_action act legal) app (λ a. record app { sent = app.sent ++ a ∷ [] })

-- What is sent when the time is over.
unfoldable pub timeout_act : LegalActions → Act
timeout_act legal = if legal.can_check then check_call_act else fold_act

-- A frame in which it was this player's turn before.
unfoldable pub count_down : GuiState → ℕ → FreePlayApp → FreePlayApp
count_down snap dt app =
    let left = app.turn_remaining_ms - dt in
    let over = record app { turn_remaining_ms = 0; turn_submitted = true } in
    let act = send_mapped (timeout_act snap.legal) snap.legal over in
    if leb left 0
    then (if is_some app.conn then act else over)
    else record app { turn_remaining_ms = left }

unfoldable pub update_turn_timer : GuiState → ℕ → FreePlayApp → FreePlayApp
update_turn_timer snap dt app =
    let my_turn = snap.is_my_turn && not snap.dealing in
    let rising = record app {
      turn_remaining_ms = timer_total_ms;
      turn_submitted = false;
      bet_to = if snap.legal.can_bet then snap.legal.min_bet else snap.legal.min_raise_to;
    } in
    let counted = if app.turn_submitted then app else count_down snap dt app in
    let waiting_now = record app { turn_remaining_ms = timer_total_ms; turn_submitted = false } in
    record (if my_turn then (if app.was_my_turn then counted else rising) else waiting_now) {
      was_my_turn = my_turn;
    }

-- `matches!(conn, Conn::Error(_) | Conn::GameOver)`
abbrev pub is_terminal : Conn → Bool
is_terminal (error text) = true
is_terminal game_over = true
is_terminal idle = false
is_terminal connecting = false
is_terminal waiting = false
is_terminal playing = false

abbrev pub is_playing : Conn → Bool
is_playing playing = true
is_playing (error text) = false
is_playing game_over = false
is_playing idle = false
is_playing connecting = false
is_playing waiting = false

abbrev pub is_host_screen : Screen → Bool
is_host_screen host = true
is_host_screen grid = false

-- `reap_status`: the error of the driver, or that of the snapshot, or a game that is over.
unfoldable pub reap_status : TableConn → Conn
reap_status c = maybe c.failure (keep_error_or c.snapshot.conn game_over) error

-- A driver that has finished.
unfoldable pub reap : TableConn → FreePlayApp → FreePlayApp
reap c app =
    let status = reap_status c in
    let leave_host = is_host_screen app.state.screen && is_terminal status in
    reset_turn (record app {
      conn = none;
      lifecycle = status;
      state = record app.state {
        tables = [];
        focus_id = none;
        open_menu_id = none;
        screen = if leave_host then grid else app.state.screen;
      };
    })

-- A driver that runs.
unfoldable pub show_live : TableConn → ℕ → FreePlayApp → FreePlayApp
show_live c dt app =
    let snap = c.snapshot in
    let leave_host = is_host_screen app.state.screen && is_playing snap.conn in
    let screen = if leave_host then grid else app.state.screen in
    let timed =
      update_turn_timer snap dt
        (record app { lifecycle = snap.conn; state = record app.state { screen = screen } }) in
    let t = project snap live_table_id in
    let lo = if t.can_bet then t.min_bet else t.min_raise_to in
    let hi = max t.max_to lo in
    let bet = clamp timed.bet_to (min lo hi) hi in
    record timed {
      bet_to = bet;
      state = record timed.state {
        tables =
            record t {
              blinds = timed.state.host_config.blinds;
              time_left = timed.turn_remaining_ms;
              bet_to = bet;
            }
            ∷ [];
        focus_id = if snap.is_my_turn then some live_table_id else none;
      };
    }

unfoldable pub sync_conn : ℕ → FreePlayApp → FreePlayApp
sync_conn dt app =
    maybe app.conn app (λ c. if c.is_finished then reap c app else show_live c dt app)

-- The blinds that a host starts with: the selected ones, or the engine's defaults.
unfoldable pub host_blinds : FreePlayApp → ℕ × ℕ
host_blinds app = maybe (parse_blinds app.state.host_config.blinds) (5, 10) (λ blinds. blinds)

-- The new connection is an argument.
unfoldable pub start_host : TableConn → FreePlayApp → FreePlayApp
start_host c app =
    let started = reset_turn (record app {
      conn = some c;
      lifecycle = waiting;
      bet_to = 0;
      state = record app.state { host_open = false; join_open = false };
    }) in
    if is_some app.conn then app else started

unfoldable pub start_guest : TableConn → FreePlayApp → FreePlayApp
start_guest c app =
    let started = reset_turn (record app {
      conn = some c;
      lifecycle = connecting;
      bet_to = 0;
      state = record app.state {
        host_open = false;
        join_open = false;
        join_uri = [];
        screen = grid;
      };
    }) in
    if is_some app.conn then app else started

unfoldable pub app_finish_leave : FreePlayApp → FreePlayApp
app_finish_leave app =
    let left = reset_turn (record app { conn = none; lifecycle = idle }) in
    record left { state = finish_leave left.state }

unfoldable pub submit_act : Act → FreePlayApp → FreePlayApp
submit_act act app = maybe app.conn app λ c.
    maybe (map_action act c.snapshot.legal) app
      λ a. record app { sent = app.sent ++ a ∷ []; turn_submitted = true }
