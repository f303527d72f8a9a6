-- ===== src/Socket/Sound.antt =====
-- The hook never stops waiting for its connection: client/src/hooks/useWebSocket.ts.
pub mod Run
use coachman.Common.{
  ℕ, String, Bool, true, false, ◌&&◌, ◌||◌, not, Option, none, some, List, [], ◌∷◌, is_some,
  present, default, if◌then◌else◌, Bool-cases, ◌≡◌, refl, inl, inr, arith,
}
use coachman.WsPolicy.{should_close_socket_immediately, reconnect_delay_ms}
use coachman.Socket.{
  SocketHook, ReadyState, closed, opening, open_state, connecting, connected, is_open, set_ready,
  is_current, auth, typing_frame, send, arm_connection_timer, ping, start_heartbeat, close_socket,
  should_keep_alive, live_socket, open_socket, is_paused, connect, on_close,
}
use coachman.Socket.Events.{
  is_opening, is_closed, Inbound, broken, pong, auth_ok, payload, Event, opens, receives, closes,
  reconnect_fires, grace_fires, auth_fires, ping_fires, pong_fires, goes_online, hides, shows,
  gets_token, keeps_alive, keeps_alive_ref, enables, types, on_open, on_message, expire_auth,
  expire_pong, ping_due, send_typing, connect_afresh, on_token, on_hide, on_show, grace_over, step,
  run, unconnected,
}

live_held : (w : Option ℕ) (ready : ℕ → ReadyState) → live_socket w ready ≡ true → is_some w ≡ true
live_held none ready e = cc
live_held (some i) ready e = refl

module _ (pause : Bool) where
  -- The user is signed in and looks at the page, or is in a call.
  abbrev pub is_wanted : SocketHook → Bool
  is_wanted st = st.enabled && (present st.token && not (pause && (st.hidden && not st.keep_alive)))

  -- While the connection is wanted, the hook holds a socket or waits to connect.
  pub record IsWaiting (st : SocketHook) : Type 0 where
    pub waiting : is_wanted st ≡ true → (is_some st.ws || is_some st.reconnect_timer) ≡ true
    -- The grace period is for a page that pauses when it is hidden.
    pub grace : st.hide_grace_timer ≡ true → pause ≡ true

  pub either-IsWaiting :
      (b : Bool) (x y : SocketHook) → IsWaiting x → IsWaiting y → IsWaiting (if b then x else y)
  either-IsWaiting true x y p q = p
  either-IsWaiting false x y p q = q

  pub when-IsWaiting :
      (b : Bool) (x y : SocketHook)
      → (b ≡ true → IsWaiting x)
      → (b ≡ false → IsWaiting y)
      → IsWaiting (if b then x else y)
  when-IsWaiting true x y p q = p refl
  when-IsWaiting false x y p q = q refl

  -- `connect` leads there from any state.
  pub connect-IsWaiting :
      (st : SocketHook) → (st.hide_grace_timer ≡ true → pause ≡ true) → IsWaiting (connect pause st)
  unfolding connect open_socket
  connect-IsWaiting st g = elim (Bool-cases (st.enabled && present st.token)) [
    | inr e ↦ rw e (record { waiting = λ w. absurd (ground arith); grace = g })
    | inl e ↦ elim (Bool-cases (is_paused pause st)) [
      | inl p ↦ rw (e, p) (record { waiting = λ w. absurd (ground arith); grace = g })
      | inr p ↦ elim (Bool-cases (live_socket st.ws st.ready)) [
        | inl l ↦
            rw (e, p, l)
              (record {
                waiting = λ w. (let held = live_held st.ws st.ready l in ground arith);
                grace = g;
              })
        | inr l ↦ rw (e, p, l) (record { waiting = λ w. refl; grace = g })
      ]
    ]
  ]

  pub closes-IsWaiting :
      (i : ℕ) (st : SocketHook)
      → IsWaiting st
      → IsWaiting (on_close pause i (record st { ready = set_ready i closed st.ready }))
  unfolding on_close
  closes-IsWaiting i st h = elim (Bool-cases (present st.token)) [
    | inr e ↦ rw e (record { waiting = λ w. absurd (ground arith); grace = h.grace })
    | inl e ↦ elim (Bool-cases (is_paused pause st)) [
      | inl p ↦ rw (e, p) (record { waiting = λ w. absurd (ground arith); grace = h.grace })
      | inr p ↦ rw (e, p) (record { waiting = λ w. ground arith; grace = h.grace })
    ]
  ]

  -- A socket is closed only when the page is hidden or the user has left.
  pub close_socket-IsWaiting :
      (st : SocketHook) → is_wanted st ≡ false → IsWaiting (close_socket st)
  unfolding close_socket
  close_socket-IsWaiting st e = record { waiting = λ w. absurd (ground arith); grace = λ g. cc }
