-- ===== src/Socket/Stale.antt =====
-- The close of a socket that was let go: `ws.onclose` in client/src/hooks/useWebSocket.ts.
use coachman.Common.{
  ℕ, ◌+◌, Bool, true, false, ◌&&◌, Option, none, some, [], ◌∷◌, eqb, present, if◌then◌else◌, ◌≡◌,
  refl, ap, ◌∙◌, arith,
}
use coachman.WsPolicy.{reconnect_delay_ms}
use coachman.Socket.{
  SocketHook, closed, connecting, is_live, is_paused, is_current, set_ready, connect, on_close,
  live_socket,
}
use coachman.Socket.Events.{is_closed, closes, reconnect_fires, ping_fires, step, run}

-- After the close of an older socket.
abbrev dropped : ℕ → SocketHook → SocketHook
dropped old st = record st {
  ready = set_ready old closed st.ready;
  connection = connecting;
  auth_timer = none;
  ping_timer = none;
  pong_watchdog = none;
  reconnect_attempt = st.reconnect_attempt + 1;
  reconnect_timer = some (reconnect_delay_ms (st.reconnect_attempt + 1));
}

kept_socket :
    (w : Option ℕ) (old current : ℕ)
    → w ≡ some current
    → eqb current old ≡ false
    → (if is_current w old then none else w) ≡ w
kept_socket none old current e other = refl
kept_socket (some j) old current e other = ground arith

old_close :
    (pause native : Bool) (old current : ℕ) (st : SocketHook)
    → st.ws ≡ some current
    → eqb current old ≡ false
    → is_closed (st.ready old) ≡ false
    → present st.token ≡ true
    → is_paused pause st ≡ false
    → step pause native (closes old) st ≡ dropped old st
unfolding step on_close
old_close pause native old current st held other unclosed signed shown =
    rw (unclosed, signed, shown, kept_socket st.ws old current held other) refl

idle_connect :
    (pause : Bool) (st : SocketHook)
    → st.enabled && present st.token ≡ true
    → is_paused pause st ≡ false
    → live_socket st.ws st.ready ≡ true
    → connect pause st ≡ st
unfolding connect
idle_connect pause st signed shown live = rw (signed, shown, live) refl

still_live :
    (w : Option ℕ) (old current : ℕ) (st : SocketHook)
    → w ≡ some current
    → eqb current old ≡ false
    → is_live (st.ready current) ≡ true
    → live_socket w (set_ready old closed st.ready) ≡ true
still_live none old current st held other live = cc
still_live (some j) old current st held other live =
    let same : j ≡ current = ground arith in rw (same, other) live

-- The three events come to this.
after_old_close :
    (pause native : Bool) (old current : ℕ) (st : SocketHook)
    → st.ws ≡ some current
    → eqb current old ≡ false
    → is_live (st.ready current) ≡ true
    → is_closed (st.ready old) ≡ false
    → st.enabled && present st.token ≡ true
    → is_paused pause st ≡ false
    → run pause native (closes old ∷ reconnect_fires ∷ ping_fires ∷ []) st
      ≡ record (dropped old st) { reconnect_timer = none }
unfolding run step
after_old_close pause native old current st held other live unclosed signed shown =
    ap (λ s. step pause native ping_fires (step pause native reconnect_fires s))
      (old_close pause native old current st held other unclosed (ground arith) shown)
    ∙ ap (step pause native ping_fires) reconnect
    ∙ ping
  where
    idle : SocketHook
    idle = record (dropped old st) { reconnect_timer = none }

    reconnect : step pause native reconnect_fires (dropped old st) ≡ idle
    reconnect =
        idle_connect pause idle signed shown (still_live st.ws old current st held other live)

    ping : step pause native ping_fires idle ≡ idle
    ping = refl

-- The hook holds one live socket, and an older one that it let go closes only now. The timers of the
-- live one are gone then: it is shown as connecting, no ping is sent, and the reconnect does nothing.
pub old_close_stops_heartbeat :
    (pause native : Bool) (old current : ℕ) (st : SocketHook)
    → st.ws ≡ some current
    → eqb current old ≡ false
    → is_live (st.ready current) ≡ true
    → is_closed (st.ready old) ≡ false
    → st.enabled && present st.token ≡ true
    → is_paused pause st ≡ false
    → let st' = run pause native (closes old ∷ reconnect_fires ∷ ping_fires ∷ []) st in
      (st'.ws ≡ some current)
      × ((st'.connection ≡ connecting)
          × ((st'.ping_timer ≡ none) × ((st'.auth_timer ≡ none) × (st'.sent ≡ st.sent))))
old_close_stops_heartbeat pause native old current st held other live unclosed signed shown =
    rw (after_old_close pause native old current st held other live unclosed signed shown)
      (held, (refl, (refl, (refl, refl))))
