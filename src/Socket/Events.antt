-- ===== src/Socket/Events.antt =====
-- What happens to the live connection: client/src/hooks/useWebSocket.ts.
use coachman.Common.{
  ℕ, ◌+◌, String, Bool, true, false, ◌&&◌, not, Option, none, some, List, [], ◌∷◌, is_some, present,
  default, if◌then◌else◌,
}
use coachman.WsPolicy.{should_close_socket_immediately}
use coachman.Socket.{
  ReadyState, opening, open_state, closing, closed, connected, connecting, disconnected, auth,
  typing_frame, SocketHook, is_open, set_ready, is_current, close_ws, send, ping, start_heartbeat,
  arm_connection_timer, close_socket, should_keep_alive, connect, on_close,
}

-- What a frame of the server is. Those of a kind that has a handler go to it and change nothing here.
pub data Inbound : Type 0 where
  broken pong auth_ok payload : Inbound

pub data Event : Type 0 where
  -- of a socket
  opens : ℕ → Event
  receives : ℕ → Inbound → Event
  closes : ℕ → Event
  -- of the timers
  reconnect_fires : Event
  grace_fires : Event
  auth_fires : Event
  ping_fires : Event
  pong_fires : Event
  -- of the page, and of the component
  goes_online : Event
  hides : Event
  shows : Event
  gets_token : Option String → Event
  keeps_alive : Bool → Event
  keeps_alive_ref : Bool → Event
  enables : Bool → Event
  types : String → Bool → Event

abbrev pub is_opening : ReadyState → Bool
is_opening opening = true
is_opening open_state = false
is_opening closing = false
is_opening closed = false

abbrev pub is_closed : ReadyState → Bool
is_closed opening = false
is_closed open_state = false
is_closed closing = false
is_closed closed = true

-- `ws.onopen`
unfoldable pub on_open : ℕ → SocketHook → SocketHook
on_open i st =
    arm_connection_timer i
      (send i (auth (st.token_of i)) (record st { reconnect_attempt = 0; connection = connecting }))

-- `ws.onmessage`
unfoldable pub on_message : ℕ → Inbound → SocketHook → SocketHook
unfolding start_heartbeat
on_message i broken st = st
on_message i pong st = record st { pong_watchdog = none }
on_message i payload st = record st { pong_watchdog = none }
on_message i auth_ok st =
    let live =
      start_heartbeat i
        (record st { pong_watchdog = none; auth_timer = none; connection = connected }) in
    record live { reconnects = live.reconnects + 1 }

-- A timer closes its socket if that is the one that the hook holds.
abbrev pub close_if_current : Option ℕ → SocketHook → ℕ → ReadyState
close_if_current none st = st.ready
close_if_current (some i) st = if is_current st.ws i then close_ws i st.ready else st.ready

-- The timer that was armed last has fired.
unfoldable pub expire_auth : SocketHook → SocketHook
expire_auth st = record st { ready = close_if_current st.auth_timer st; auth_timer = none }

unfoldable pub expire_pong : SocketHook → SocketHook
expire_pong st = record st { ready = close_if_current st.pong_watchdog st; pong_watchdog = none }

abbrev pub ping_due : Option ℕ → SocketHook → SocketHook
ping_due none st = st
ping_due (some i) st = ping i st

-- `sendTyping`
abbrev pub send_typing : Option ℕ → String → Bool → SocketHook → SocketHook
send_typing none chat_id typing st = st
send_typing (some i) chat_id typing st =
    if is_open (st.ready i) then send i (typing_frame chat_id typing) st else st

abbrev pub afresh : SocketHook → SocketHook
afresh st = record st { reconnect_timer = none; reconnect_attempt = 0; connection = connecting }

module _ (pause native : Bool) where
  abbrev pub connect_afresh : SocketHook → SocketHook
  connect_afresh st = connect pause (afresh st)

  -- The listener for a new token: an open socket signs in again, and one that is opening goes on.
  unfoldable pub on_token : String → Option ℕ → SocketHook → SocketHook
  unfolding connect
  on_token token none st = connect_afresh st
  on_token token (some i) st =
      if is_open (st.ready i)
      then arm_connection_timer i (send i (auth token) (record st { connection = connecting }))
      else if is_opening (st.ready i)
      then st
      else connect_afresh st

  abbrev pub token_changed : Option String → SocketHook → SocketHook
  token_changed token st =
      if st.enabled && present token then on_token (default "" token) st.ws st else st

  unfoldable pub on_hide : SocketHook → SocketHook
  unfolding close_socket
  on_hide st =
      if should_keep_alive st
      then record st { hide_grace_timer = false }
      else if should_close_socket_immediately native false
      then close_socket st
      else record st { hide_grace_timer = true }

  unfoldable pub on_show : SocketHook → SocketHook
  unfolding connect
  on_show st =
      connect pause
        (record st { hide_grace_timer = false; reconnect_attempt = 0; connection = connecting })

  unfoldable pub grace_over : SocketHook → SocketHook
  unfolding close_socket
  grace_over st =
      let over = record st { hide_grace_timer = false } in
      if st.hidden && not (should_keep_alive st) then close_socket over else over

  abbrev pub keep_alive_changed : SocketHook → SocketHook
  keep_alive_changed st = if st.enabled && st.keep_alive then connect pause st else st

  abbrev pub enabled_changed : SocketHook → SocketHook
  enabled_changed st = if st.enabled then connect pause st else close_socket st

  -- An event that cannot happen changes nothing.
  unfoldable pub step : Event → SocketHook → SocketHook
  unfolding on_open on_message on_close connect grace_over expire_auth expire_pong ping on_hide
      on_show on_token close_socket
  step (opens i) st =
      if is_opening (st.ready i)
      then on_open i (record st { ready = set_ready i open_state st.ready })
      else st
  step (receives i frame) st = if is_open (st.ready i) then on_message i frame st else st
  step (closes i) st =
      if is_closed (st.ready i)
      then st
      else on_close pause i (record st { ready = set_ready i closed st.ready })
  step reconnect_fires st =
      if is_some st.reconnect_timer
      then connect pause (record st { reconnect_timer = none })
      else st
  step grace_fires st = if st.hide_grace_timer then grace_over st else st
  step auth_fires st = expire_auth st
  step ping_fires st = ping_due st.ping_timer st
  step pong_fires st = expire_pong st
  step goes_online st =
      if st.enabled then connect pause (record st { reconnect_attempt = 0 }) else st
  step hides st =
      let now = record st { hidden = true } in if st.enabled && pause then on_hide now else now
  step shows st =
      let now = record st { hidden = false } in if st.enabled && pause then on_show now else now
  step (gets_token token) st = token_changed token (record st { token = token })
  step (keeps_alive b) st = keep_alive_changed (record st { keep_alive = b })
  step (keeps_alive_ref b) st = record st { keep_alive_ref = b }
  step (enables b) st = enabled_changed (record st { enabled = b })
  step (types chat_id typing) st = send_typing st.ws chat_id typing st

  unfoldable pub run : List Event → SocketHook → SocketHook
  unfolding step
  run [] st = st
  run (e ∷ es) st = run es (step e st)

-- Before the first effect.
abbrev pub unconnected : Bool → Option String → SocketHook
unconnected hidden token = record {
  ready = λ i. closed;
  made = 0;
  token_of = λ i. "";
  ws = none;
  connection = disconnected;
  reconnect_timer = none;
  hide_grace_timer = false;
  auth_timer = none;
  ping_timer = none;
  pong_watchdog = none;
  reconnect_attempt = 0;
  enabled = false;
  keep_alive = false;
  keep_alive_ref = false;
  hidden = hidden;
  token = token;
  sent = [];
  reconnects = 0;
}
