-- ===== src/Socket.antt =====
-- The live connection of the client: client/src/hooks/useWebSocket.ts.
-- The refs of the hook and the state of every socket that it made are one state. A timer is there as
-- long as it can fire; what the browser and the server do, and what timers do, are events. `pause` and
-- `native` stand for `shouldPauseWhenHidden` and `isNativeAndroid`. An event may repeat what holds.
pub mod Beating
pub mod Events
pub mod Single
pub mod Sound
pub mod Stale
use coachman.Common.{
  ℕ, ◌+◌, String, Bool, true, false, ◌&&◌, ◌||◌, not, Option, none, some, List, [], ◌∷◌, eqb,
  is_some, present, default, if◌then◌else◌,
}
use coachman.WsPolicy.{reconnect_delay_ms, should_close_socket_immediately}

pub data ReadyState : Type 0 where
  opening open_state closing closed : ReadyState

pub data WsConnectionState : Type 0 where
  connected connecting disconnected : WsConnectionState

pub data Frame : Type 0 where
  auth : String → Frame
  ping_frame : Frame
  typing_frame : String → Bool → Frame

pub record SocketHook : Type 0 where
  -- the sockets by their order of creation, and how many there are
  pub ready : ℕ → ReadyState
  pub made : ℕ
  -- the token that the handlers of a socket have
  pub token_of : ℕ → String
  pub ws : Option ℕ
  pub connection : WsConnectionState
  -- the delay of the timer
  pub reconnect_timer : Option ℕ
  pub hide_grace_timer : Bool
  -- the sockets that the timers have
  pub auth_timer : Option ℕ
  pub ping_timer : Option ℕ
  pub pong_watchdog : Option ℕ
  pub reconnect_attempt : ℕ
  -- what the hook is given, and reads from the page
  pub enabled : Bool
  pub keep_alive : Bool
  -- `keepAliveRefExternal`, which no effect watches
  pub keep_alive_ref : Bool
  pub hidden : Bool
  pub token : Option String
  -- what was sent, the latest first, and how often `onReconnect` was called
  pub sent : List (ℕ × Frame)
  pub reconnects : ℕ

abbrev pub is_live : ReadyState → Bool
is_live opening = true
is_live open_state = true
is_live closing = false
is_live closed = false

abbrev pub is_open : ReadyState → Bool
is_open open_state = true
is_open opening = false
is_open closing = false
is_open closed = false

abbrev pub set_ready : ℕ → ReadyState → (ℕ → ReadyState) → ℕ → ReadyState
set_ready i r ready j = if eqb j i then r else ready j

-- `wsRef.current === ws`
abbrev pub is_current : Option ℕ → ℕ → Bool
is_current none i = false
is_current (some j) i = eqb j i

abbrev pub after_close : ReadyState → ReadyState
after_close opening = closing
after_close open_state = closing
after_close closing = closing
after_close closed = closed

-- `ws.close()`
abbrev pub close_ws : ℕ → (ℕ → ReadyState) → ℕ → ReadyState
close_ws i ready = set_ready i (after_close (ready i)) ready

-- `wsRef.current?.close()`
abbrev pub close_current : Option ℕ → (ℕ → ReadyState) → ℕ → ReadyState
close_current none ready = ready
close_current (some i) ready = close_ws i ready

abbrev pub send : ℕ → Frame → SocketHook → SocketHook
send i frame st = record st { sent = (i, frame) ∷ st.sent }

abbrev pub clear_heartbeat : SocketHook → SocketHook
clear_heartbeat st = record st { ping_timer = none; pong_watchdog = none }

-- The ping of the heartbeat. An open socket takes what is sent.
unfoldable pub ping : ℕ → SocketHook → SocketHook
ping i st =
    if is_current st.ws i && is_open (st.ready i)
    then record (send i ping_frame st) { pong_watchdog = some i }
    else st

unfoldable pub start_heartbeat : ℕ → SocketHook → SocketHook
unfolding ping
start_heartbeat i st = ping i (record (clear_heartbeat st) { ping_timer = some i })

abbrev pub arm_connection_timer : ℕ → SocketHook → SocketHook
arm_connection_timer i st = record st { auth_timer = some i }

unfoldable pub close_socket : SocketHook → SocketHook
close_socket st = record st {
  ready = close_current st.ws st.ready;
  reconnect_timer = none;
  hide_grace_timer = false;
  auth_timer = none;
  ping_timer = none;
  pong_watchdog = none;
  ws = none;
  connection = disconnected;
}

abbrev pub live_socket : Option ℕ → (ℕ → ReadyState) → Bool
live_socket none ready = false
live_socket (some i) ready = is_live (ready i)

-- `new WebSocket`, with its timer
unfoldable pub open_socket : SocketHook → SocketHook
open_socket st = record st {
  ready = set_ready st.made opening st.ready;
  made = st.made + 1;
  token_of = λ j. if eqb j st.made then default "" st.token else st.token_of j;
  ws = some st.made;
  reconnect_timer = none;
  auth_timer = some st.made;
  connection = connecting;
}

abbrev pub should_keep_alive : SocketHook → Bool
should_keep_alive st = st.keep_alive || st.keep_alive_ref

module _ (pause : Bool) where
  -- The page is hidden, and the connection rests.
  abbrev pub is_paused : SocketHook → Bool
  is_paused st = pause && (st.hidden && not (should_keep_alive st))

  unfoldable pub connect : SocketHook → SocketHook
  unfolding open_socket
  connect st =
      if not (st.enabled && present st.token)
      then record st { connection = disconnected }
      else if is_paused st
      then st
      else if live_socket st.ws st.ready
      then st
      else open_socket st

  -- `ws.onclose`
  unfoldable pub on_close : ℕ → SocketHook → SocketHook
  on_close i st =
      let dropped = record st {
        auth_timer = none;
        ping_timer = none;
        pong_watchdog = none;
        ws = if is_current st.ws i then none else st.ws;
        connection = disconnected;
      } in
      if not (present st.token) then dropped else if is_paused st then dropped else record dropped {
        connection = connecting;
        reconnect_attempt = st.reconnect_attempt + 1;
        reconnect_timer = some (reconnect_delay_ms (st.reconnect_attempt + 1));
      }
