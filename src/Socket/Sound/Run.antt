-- ===== src/Socket/Sound/Run.antt =====
-- What keeps the hook waiting for its connection: the events of client/src/hooks/useWebSocket.ts.
use coachman.Common.{
  ℕ, String, Bool, true, false, ◌&&◌, ◌||◌, not, Option, none, some, List, [], ◌∷◌, is_some,
  present, default, if◌then◌else◌, ◌≡◌, refl, arith,
}
use coachman.WsPolicy.{should_close_socket_immediately}
use coachman.Socket.{
  SocketHook, open_state, connecting, connected, is_open, set_ready, is_current, auth, typing_frame,
  send, arm_connection_timer, ping, start_heartbeat, close_socket, should_keep_alive, connect,
}
use coachman.Socket.Events.{
  is_opening, is_closed, Inbound, broken, pong, auth_ok, payload, Event, opens, receives, closes,
  reconnect_fires, grace_fires, auth_fires, ping_fires, pong_fires, goes_online, hides, shows,
  gets_token, keeps_alive, keeps_alive_ref, enables, types, on_open, on_message, expire_auth,
  expire_pong, ping_due, send_typing, afresh, connect_afresh, on_token, on_hide, on_show,
  grace_over, step, run, unconnected,
}
use coachman.Socket.Sound.{
  is_wanted, IsWaiting, either-IsWaiting, when-IsWaiting, connect-IsWaiting, closes-IsWaiting,
  close_socket-IsWaiting,
}

module _ (pause : Bool) where
  ping-IsWaiting : (i : ℕ) (st : SocketHook) → IsWaiting pause st → IsWaiting pause (ping i st)
  unfolding ping
  ping-IsWaiting i st h =
      either-IsWaiting pause (is_current st.ws i && is_open (st.ready i)) _ st
        (record { waiting = h.waiting; grace = h.grace }) h

  ping_due-IsWaiting :
      (timer : Option ℕ) (st : SocketHook)
      → IsWaiting pause st
      → IsWaiting pause (ping_due timer st)
  ping_due-IsWaiting none st h = h
  ping_due-IsWaiting (some i) st h = ping-IsWaiting i st h

  on_message-IsWaiting :
      (i : ℕ) (frame : Inbound) (st : SocketHook)
      → IsWaiting pause st
      → IsWaiting pause (on_message i frame st)
  unfolding on_message start_heartbeat
  on_message-IsWaiting i broken st h = h
  on_message-IsWaiting i pong st h = record { waiting = h.waiting; grace = h.grace }
  on_message-IsWaiting i payload st h = record { waiting = h.waiting; grace = h.grace }
  on_message-IsWaiting i auth_ok st h =
      let live =
        ping-IsWaiting i
          (record st {
            pong_watchdog = none;
            auth_timer = none;
            connection = connected;
            ping_timer = some i;
          })
          (record { waiting = h.waiting; grace = h.grace }) in
      record { waiting = live.waiting; grace = live.grace }

  typing-IsWaiting :
      (w : Option ℕ) (chat_id : String) (typing : Bool) (st : SocketHook)
      → IsWaiting pause st
      → IsWaiting pause (send_typing w chat_id typing st)
  typing-IsWaiting none chat_id typing st h = h
  typing-IsWaiting (some i) chat_id typing st h =
      either-IsWaiting pause (is_open (st.ready i)) (send i (typing_frame chat_id typing) st) st
        (record { waiting = h.waiting; grace = h.grace }) h

  module _ (native : Bool) where
    -- A new token: the hook has a socket, or connects. Before, it need not have waited.
    on_token-IsWaiting :
        (token : String) (w : Option ℕ) (st : SocketHook)
        → st.ws ≡ w
        → (st.hide_grace_timer ≡ true → pause ≡ true)
        → IsWaiting pause (on_token pause native token w st)
    unfolding on_token
    on_token-IsWaiting token none st e g = connect-IsWaiting pause (afresh st) g
    on_token-IsWaiting token (some i) st e g =
        let held : (is_some st.ws || is_some st.reconnect_timer) ≡ true = rw e refl in
        either-IsWaiting pause (is_open (st.ready i))
          (arm_connection_timer i (send i (auth token) (record st { connection = connecting })))
          (if is_opening (st.ready i) then st else connect_afresh pause native st)
          (record { waiting = λ w. held; grace = g })
          (either-IsWaiting pause (is_opening (st.ready i)) st (connect_afresh pause native st)
            (record { waiting = λ w. held; grace = g }) (connect-IsWaiting pause (afresh st) g))

    on_hide-IsWaiting :
        (st : SocketHook)
        → st.hidden ≡ true
        → pause ≡ true
        → IsWaiting pause st
        → IsWaiting pause (on_hide pause native st)
    unfolding on_hide
    on_hide-IsWaiting st hid p h =
        when-IsWaiting pause (should_keep_alive st) (record st { hide_grace_timer = false })
          (if should_close_socket_immediately native false
            then close_socket st
            else record st { hide_grace_timer = true })
          (λ k. record { waiting = h.waiting; grace = λ g. cc })
          (λ k.
            either-IsWaiting pause (should_close_socket_immediately native false) (close_socket st)
              (record st { hide_grace_timer = true })
              (close_socket-IsWaiting pause st (ground arith))
              (record { waiting = h.waiting; grace = λ g. p }))

    on_show-IsWaiting : (st : SocketHook) → IsWaiting pause (on_show pause native st)
    unfolding on_show
    on_show-IsWaiting st =
        connect-IsWaiting pause
          (record st { hide_grace_timer = false; reconnect_attempt = 0; connection = connecting })
          (λ g. cc)

    grace_over-IsWaiting :
        (st : SocketHook)
        → pause ≡ true
        → IsWaiting pause st
        → IsWaiting pause (grace_over pause native st)
    unfolding grace_over
    grace_over-IsWaiting st p h =
        let over = record st { hide_grace_timer = false } in
        when-IsWaiting pause (st.hidden && not (should_keep_alive st)) (close_socket over) over
          (λ e. close_socket-IsWaiting pause over (ground arith))
          (λ e. record { waiting = h.waiting; grace = λ g. cc })

    step-IsWaiting :
        (e : Event) (st : SocketHook)
        → IsWaiting pause st
        → IsWaiting pause (step pause native e st)
    unfolding step on_open expire_auth expire_pong
    step-IsWaiting (opens i) st h =
        either-IsWaiting pause (is_opening (st.ready i))
          (on_open i (record st { ready = set_ready i open_state st.ready })) st
          (record { waiting = h.waiting; grace = h.grace }) h
    step-IsWaiting (receives i frame) st h =
        either-IsWaiting pause (is_open (st.ready i)) _ st (on_message-IsWaiting i frame st h) h
    step-IsWaiting (closes i) st h =
        either-IsWaiting pause (is_closed (st.ready i)) st _ h (closes-IsWaiting pause i st h)
    step-IsWaiting reconnect_fires st h =
        either-IsWaiting pause (is_some st.reconnect_timer)
          (connect pause (record st { reconnect_timer = none })) st
          (connect-IsWaiting pause (record st { reconnect_timer = none }) h.grace) h
    step-IsWaiting grace_fires st h =
        when-IsWaiting pause st.hide_grace_timer (grace_over pause native st) st
          (λ e. grace_over-IsWaiting st (h.grace e) h) (λ e. h)
    step-IsWaiting auth_fires st h = record { waiting = h.waiting; grace = h.grace }
    step-IsWaiting ping_fires st h = ping_due-IsWaiting st.ping_timer st h
    step-IsWaiting pong_fires st h = record { waiting = h.waiting; grace = h.grace }
    step-IsWaiting goes_online st h =
        either-IsWaiting pause st.enabled (connect pause (record st { reconnect_attempt = 0 })) st
          (connect-IsWaiting pause (record st { reconnect_attempt = 0 }) h.grace) h
    step-IsWaiting hides st h =
        let now = record st { hidden = true } in
        when-IsWaiting pause (st.enabled && pause) (on_hide pause native now) now
          (λ e.
            on_hide-IsWaiting now refl (ground arith)
              (record { waiting = λ w. h.waiting (ground arith); grace = h.grace }))
          (λ e. record { waiting = λ w. h.waiting (ground arith); grace = h.grace })
    step-IsWaiting shows st h =
        let now = record st { hidden = false } in
        when-IsWaiting pause (st.enabled && pause) (on_show pause native now) now
          (λ e. on_show-IsWaiting now)
          (λ e. record { waiting = λ w. h.waiting (ground arith); grace = h.grace })
    step-IsWaiting (gets_token token) st h =
        let now = record st { token = token } in
        when-IsWaiting pause (st.enabled && present token)
          (on_token pause native (default "" token) st.ws now) now
          (λ e. on_token-IsWaiting (default "" token) st.ws now refl h.grace)
          (λ e. record { waiting = λ w. absurd (ground arith); grace = h.grace })
    step-IsWaiting (keeps_alive b) st h =
        let now = record st { keep_alive = b } in
        when-IsWaiting pause (st.enabled && b) (connect pause now) now
          (λ e. connect-IsWaiting pause now h.grace)
          (λ e. record { waiting = λ w. h.waiting (ground arith); grace = h.grace })
    step-IsWaiting (keeps_alive_ref b) st h = record { waiting = h.waiting; grace = h.grace }
    step-IsWaiting (enables b) st h =
        let now = record st { enabled = b } in
        when-IsWaiting pause b (connect pause now) (close_socket now)
          (λ e. connect-IsWaiting pause now h.grace)
          (λ e. close_socket-IsWaiting pause now (ground arith))
    step-IsWaiting (types chat_id typing) st h = typing-IsWaiting st.ws chat_id typing st h

    run_keeps_IsWaiting :
        (es : List Event) (st : SocketHook)
        → IsWaiting pause st
        → IsWaiting pause (run pause native es st)
    unfolding run
    run_keeps_IsWaiting [] st h = h
    run_keeps_IsWaiting (e ∷ es) st h =
        run_keeps_IsWaiting es (step pause native e st) (step-IsWaiting e st h)

-- Whatever happened before: while the user is signed in and the page is shown, kept alive or not one
-- that pauses when it is hidden, the hook holds a socket or its timer will connect.
pub run-waiting :
    (pause native hidden : Bool) (token : Option String) (es : List Event)
    → is_wanted pause (run pause native es (unconnected hidden token)) ≡ true
    → let st = run pause native es (unconnected hidden token) in
      (is_some st.ws || is_some st.reconnect_timer) ≡ true
run-waiting pause native hidden token es =
    let h =
      run_keeps_IsWaiting pause native es (unconnected hidden token)
        (record { waiting = λ w. absurd (ground arith); grace = λ g. cc }) in
    h.waiting
