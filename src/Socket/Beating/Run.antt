-- ===== src/Socket/Beating/Run.antt =====
-- What keeps the heartbeat of a shown connection: the events of client/src/hooks/useWebSocket.ts.
use coachman.Common.{
  ℕ, String, Bool, true, false, ◌&&◌, not, Option, none, some, List, [], ◌∷◌, is_some, present,
  default, if◌then◌else◌,
}
use coachman.WsPolicy.{should_close_socket_immediately}
use coachman.Socket.{
  open_state, closed, connecting, auth, SocketHook, is_open, set_ready, send, arm_connection_timer,
  close_socket, should_keep_alive, connect, on_close,
}
use coachman.Socket.Events.{
  is_opening, is_closed, Event, opens, receives, closes, reconnect_fires, grace_fires, auth_fires,
  ping_fires, pong_fires, goes_online, hides, shows, gets_token, keeps_alive, keeps_alive_ref,
  enables, types, on_open, expire_auth, expire_pong, afresh, connect_afresh, on_token, on_hide,
  on_show, grace_over, step, run, unconnected,
}
use coachman.Socket.Single.{IsSingle}
use coachman.Socket.Single.Run.{step-IsSingle, run-IsSingle}
use coachman.Socket.Beating.{
  IsBeating, unconnected-IsBeating, either-IsBeating, connecting_not, connect-IsBeating,
  on_close-IsBeating, close_socket-IsBeating, ping_due-IsBeating, typing-IsBeating,
  receives-IsBeating,
}

module _ (pause native : Bool) where
  connect_afresh-IsBeating : (st : SocketHook) → IsBeating (connect_afresh pause native st)
  connect_afresh-IsBeating st =
      connect-IsBeating pause (afresh st) (unconnected-IsBeating (afresh st) connecting_not)

  on_token-IsBeating :
      (token : String) (w : Option ℕ) (st : SocketHook)
      → IsBeating st
      → IsBeating (on_token pause native token w st)
  unfolding on_token
  on_token-IsBeating token none st h = connect_afresh-IsBeating st
  on_token-IsBeating token (some i) st h =
      let again =
        arm_connection_timer i (send i (auth token) (record st { connection = connecting })) in
      either-IsBeating (is_open (st.ready i)) again
        (if is_opening (st.ready i) then st else connect_afresh pause native st)
        (unconnected-IsBeating again connecting_not)
        (either-IsBeating (is_opening (st.ready i)) st (connect_afresh pause native st) h
          (connect_afresh-IsBeating st))

  on_hide-IsBeating : (st : SocketHook) → IsBeating st → IsBeating (on_hide pause native st)
  unfolding on_hide
  on_hide-IsBeating st h =
      either-IsBeating (should_keep_alive st) (record st { hide_grace_timer = false })
        (if should_close_socket_immediately native false
          then close_socket st
          else record st { hide_grace_timer = true })
        (record { held = h.held; beats = h.beats })
        (either-IsBeating (should_close_socket_immediately native false) (close_socket st)
          (record st { hide_grace_timer = true }) (close_socket-IsBeating st)
          (record { held = h.held; beats = h.beats }))

  on_show-IsBeating : (st : SocketHook) → IsBeating (on_show pause native st)
  unfolding on_show
  on_show-IsBeating st =
      let shown = record st {
        hide_grace_timer = false;
        reconnect_attempt = 0;
        connection = connecting;
      } in
      connect-IsBeating pause shown (unconnected-IsBeating shown connecting_not)

  grace_over-IsBeating : (st : SocketHook) → IsBeating st → IsBeating (grace_over pause native st)
  unfolding grace_over
  grace_over-IsBeating st h =
      let over = record st { hide_grace_timer = false } in
      either-IsBeating (st.hidden && not (should_keep_alive st)) (close_socket over) over
        (close_socket-IsBeating over) (record { held = h.held; beats = h.beats })

  step-IsBeating :
      (e : Event) (st : SocketHook)
      → IsSingle st
      → IsBeating st
      → IsBeating (step pause native e st)
  unfolding step on_open expire_auth expire_pong
  step-IsBeating (opens i) st s h =
      let opened = on_open i (record st { ready = set_ready i open_state st.ready }) in
      either-IsBeating (is_opening (st.ready i)) opened st
        (unconnected-IsBeating opened connecting_not) h
  step-IsBeating (receives i frame) st s h = receives-IsBeating i frame st s h
  step-IsBeating (closes i) st s h =
      let over = record st { ready = set_ready i closed st.ready } in
      either-IsBeating (is_closed (st.ready i)) st (on_close pause i over) h
        (on_close-IsBeating pause i over)
  step-IsBeating reconnect_fires st s h =
      let due = record st { reconnect_timer = none } in
      either-IsBeating (is_some st.reconnect_timer) (connect pause due) st
        (connect-IsBeating pause due (record { held = h.held; beats = h.beats })) h
  step-IsBeating grace_fires st s h =
      either-IsBeating st.hide_grace_timer (grace_over pause native st) st
        (grace_over-IsBeating st h) h
  step-IsBeating auth_fires st s h = record { held = h.held; beats = h.beats }
  step-IsBeating ping_fires st s h = ping_due-IsBeating st.ping_timer st h
  step-IsBeating pong_fires st s h = record { held = h.held; beats = h.beats }
  step-IsBeating goes_online st s h =
      let now = record st { reconnect_attempt = 0 } in
      either-IsBeating st.enabled (connect pause now) st
        (connect-IsBeating pause now (record { held = h.held; beats = h.beats })) h
  step-IsBeating hides st s h =
      let now = record st { hidden = true } in
      either-IsBeating (st.enabled && pause) (on_hide pause native now) now
        (on_hide-IsBeating now (record { held = h.held; beats = h.beats }))
        (record { held = h.held; beats = h.beats })
  step-IsBeating shows st s h =
      let now = record st { hidden = false } in
      either-IsBeating (st.enabled && pause) (on_show pause native now) now (on_show-IsBeating now)
        (record { held = h.held; beats = h.beats })
  step-IsBeating (gets_token token) st s h =
      let now = record st { token = token } in
      either-IsBeating (st.enabled && present token)
        (on_token pause native (default "" token) st.ws now) now
        (on_token-IsBeating (default "" token) st.ws now
          (record { held = h.held; beats = h.beats }))
        (record { held = h.held; beats = h.beats })
  step-IsBeating (keeps_alive b) st s h =
      let now = record st { keep_alive = b } in
      either-IsBeating (st.enabled && b) (connect pause now) now
        (connect-IsBeating pause now (record { held = h.held; beats = h.beats }))
        (record { held = h.held; beats = h.beats })
  step-IsBeating (keeps_alive_ref b) st s h = record { held = h.held; beats = h.beats }
  step-IsBeating (enables b) st s h =
      let now = record st { enabled = b } in
      either-IsBeating b (connect pause now) (close_socket now)
        (connect-IsBeating pause now (record { held = h.held; beats = h.beats }))
        (close_socket-IsBeating now)
  step-IsBeating (types chat_id typing) st s h = typing-IsBeating st.ws chat_id typing st h

  run_keeps_IsBeating :
      (es : List Event) (st : SocketHook)
      → IsSingle st
      → IsBeating st
      → IsBeating (run pause native es st)
  unfolding run
  run_keeps_IsBeating [] st s h = h
  run_keeps_IsBeating (e ∷ es) st s h =
      run_keeps_IsBeating es (step pause native e st) (step-IsSingle pause native e st s)
        (step-IsBeating e st s h)

-- After any sequence of events: a connection that is shown as connected is one whose heartbeat pings
-- the socket that the hook holds.
pub run-IsBeating :
    (pause native hidden : Bool) (token : Option String) (es : List Event)
    → IsBeating (run pause native es (unconnected hidden token))
unfolding run
run-IsBeating pause native hidden token es =
    run_keeps_IsBeating pause native es (unconnected hidden token)
      (run-IsSingle pause native hidden token []) (record { held = λ c. cc; beats = λ c. cc })
