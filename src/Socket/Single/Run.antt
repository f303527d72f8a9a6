-- ===== src/Socket/Single/Run.antt =====
-- What keeps at most one socket live: the events of client/src/hooks/useWebSocket.ts.
use coachman.Common.{
  ℕ, String, Bool, true, false, ◌&&◌, not, Option, none, some, List, [], ◌∷◌, default, is_some,
  present, if◌then◌else◌, Bool-cases, ◌≡◌, refl, inl, inr,
}
use coachman.WsPolicy.{should_close_socket_immediately}
use coachman.Socket.{
  ReadyState, opening, open_state, connecting, auth, typing_frame, send, arm_connection_timer,
  closing, closed, SocketHook, is_live, is_open, set_ready, is_current, ping, start_heartbeat,
  should_keep_alive, connect,
}
use coachman.Socket.Events.{
  is_opening, ping_due, afresh, send_typing, is_closed, Inbound, broken, pong, auth_ok, payload,
  Event, opens, receives, closes, reconnect_fires, grace_fires, auth_fires, ping_fires, pong_fires,
  goes_online, hides, shows, gets_token, keeps_alive, keeps_alive_ref, enables, types, on_message,
  close_if_current, on_token, on_hide, on_show, grace_over, step, run, unconnected,
}
use coachman.Socket.Single.{
  IsSingle, set_ready-IsSingle, close_ws-IsSingle, close_socket-IsSingle, connect-IsSingle,
  on_close-IsSingle,
}

-- The parts that the invariant reads are those of another state.
same-IsSingle :
    (st st' : SocketHook)
    → st'.ready ≡ st.ready
    → st'.ws ≡ st.ws
    → st'.made ≡ st.made
    → IsSingle st
    → IsSingle st'
same-IsSingle st st' ready ws made h = record {
  single = λ i. rw (ready, ws) (h.single i);
  held = λ i. rw (ready, ws) (h.held i);
  fresh = λ i. rw (ready, made) (h.fresh i);
}

either-IsSingle :
    (b : Bool) (x y : SocketHook) → IsSingle x → IsSingle y → IsSingle (if b then x else y)
either-IsSingle true x y p q = p
either-IsSingle false x y p q = q

opened-IsSingle :
    (i : ℕ) (st : SocketHook)
    → is_opening (st.ready i) ≡ true
    → IsSingle st
    → IsSingle (record st { ready = set_ready i open_state st.ready })
opened-IsSingle i st e h =
    set_ready-IsSingle i open_state st (λ l. opening_live (st.ready i) e)
      (opening_closed (st.ready i) e) h
  where
    opening_live : (r : ReadyState) → is_opening r ≡ true → is_live r ≡ true
    opening_live opening e = refl
    opening_live open_state e = refl
    opening_live closing e = cc
    opening_live closed e = cc

    opening_closed : (r : ReadyState) → is_opening r ≡ true → false ≡ is_closed r
    opening_closed opening e = refl
    opening_closed open_state e = cc
    opening_closed closing e = cc
    opening_closed closed e = cc

ping-IsSingle : (i : ℕ) (st : SocketHook) → IsSingle st → IsSingle (ping i st)
unfolding ping
ping-IsSingle i st h =
    either-IsSingle (is_current st.ws i && is_open (st.ready i)) _ st
      (record { single = h.single; held = h.held; fresh = h.fresh }) h

on_message-IsSingle :
    (i : ℕ) (frame : Inbound) (st : SocketHook) → IsSingle st → IsSingle (on_message i frame st)
unfolding on_message start_heartbeat
on_message-IsSingle i broken st h = h
on_message-IsSingle i pong st h = record { single = h.single; held = h.held; fresh = h.fresh }
on_message-IsSingle i payload st h = record { single = h.single; held = h.held; fresh = h.fresh }
on_message-IsSingle i auth_ok st h =
    same-IsSingle _ _ refl refl refl (ping-IsSingle i _ (same-IsSingle st _ refl refl refl h))

ping_due-IsSingle :
    (timer : Option ℕ) (st : SocketHook) → IsSingle st → IsSingle (ping_due timer st)
ping_due-IsSingle none st h = h
ping_due-IsSingle (some i) st h = ping-IsSingle i st h

typing-IsSingle :
    (w : Option ℕ) (chat_id : String) (typing : Bool) (st : SocketHook)
    → IsSingle st
    → IsSingle (send_typing w chat_id typing st)
typing-IsSingle none chat_id typing st h = h
typing-IsSingle (some i) chat_id typing st h =
    either-IsSingle (is_open (st.ready i)) (send i (typing_frame chat_id typing) st) st
      (same-IsSingle st _ refl refl refl h) h

expire-IsSingle :
    (timer : Option ℕ) (st : SocketHook)
    → IsSingle st
    → IsSingle (record st { ready = close_if_current timer st })
expire-IsSingle none st h = h
expire-IsSingle (some i) st h = elim (Bool-cases (is_current st.ws i)) [
  | inl e ↦ rw e (close_ws-IsSingle i st h)
  | inr e ↦ rw e h
]

module _ (pause native : Bool) where
  -- `connect`, after other parts were set.
  reconnect-IsSingle :
      (st st' : SocketHook)
      → st'.ready ≡ st.ready
      → st'.ws ≡ st.ws
      → st'.made ≡ st.made
      → IsSingle st
      → IsSingle (connect pause st')
  reconnect-IsSingle st st' ready ws made h =
      connect-IsSingle pause st' (same-IsSingle st st' ready ws made h)

  on_token-IsSingle :
      (token : String) (w : Option ℕ) (st : SocketHook)
      → IsSingle st
      → IsSingle (on_token pause native token w st)
  unfolding on_token
  on_token-IsSingle token none st h = reconnect-IsSingle st (afresh st) refl refl refl h
  on_token-IsSingle token (some i) st h =
      either-IsSingle (is_open (st.ready i))
        (arm_connection_timer i (send i (auth token) (record st { connection = connecting })))
        (if is_opening (st.ready i) then st else connect pause (afresh st))
        (same-IsSingle st _ refl refl refl h)
        (either-IsSingle (is_opening (st.ready i)) st (connect pause (afresh st)) h
          (reconnect-IsSingle st (afresh st) refl refl refl h))

  on_hide-IsSingle : (st : SocketHook) → IsSingle st → IsSingle (on_hide pause native st)
  unfolding on_hide
  on_hide-IsSingle st h =
      either-IsSingle (should_keep_alive st) _ _ (same-IsSingle st _ refl refl refl h) (
        either-IsSingle (should_close_socket_immediately native false) _ _
          (close_socket-IsSingle st h) (same-IsSingle st _ refl refl refl h))

  on_show-IsSingle : (st : SocketHook) → IsSingle st → IsSingle (on_show pause native st)
  unfolding on_show
  on_show-IsSingle st h =
      reconnect-IsSingle st
        (record st { hide_grace_timer = false; reconnect_attempt = 0; connection = connecting })
        refl refl refl h

  grace_over-IsSingle : (st : SocketHook) → IsSingle st → IsSingle (grace_over pause native st)
  unfolding grace_over
  grace_over-IsSingle st h =
      let over = same-IsSingle st (record st { hide_grace_timer = false }) refl refl refl h in
      either-IsSingle (st.hidden && not (should_keep_alive st)) _ _ (close_socket-IsSingle _ over)
        over

  pub step-IsSingle :
      (e : Event) (st : SocketHook) → IsSingle st → IsSingle (step pause native e st)
  unfolding step
  step-IsSingle (opens i) st h = elim (Bool-cases (is_opening (st.ready i))) [
    | inl e ↦ rw e (same-IsSingle _ _ refl refl refl (opened-IsSingle i st e h))
    | inr e ↦ rw e h
  ]
  step-IsSingle (receives i frame) st h =
      either-IsSingle (is_open (st.ready i)) _ st (on_message-IsSingle i frame st h) h
  step-IsSingle (closes i) st h =
      either-IsSingle (is_closed (st.ready i)) st _ h (on_close-IsSingle pause i st h)
  step-IsSingle reconnect_fires st h =
      either-IsSingle (is_some st.reconnect_timer) _ st
        (reconnect-IsSingle st (record st { reconnect_timer = none }) refl refl refl h) h
  step-IsSingle grace_fires st h =
      either-IsSingle st.hide_grace_timer _ st (grace_over-IsSingle st h) h
  step-IsSingle auth_fires st h =
      same-IsSingle _ _ refl refl refl (expire-IsSingle st.auth_timer st h)
  step-IsSingle ping_fires st h = ping_due-IsSingle st.ping_timer st h
  step-IsSingle pong_fires st h =
      same-IsSingle _ _ refl refl refl (expire-IsSingle st.pong_watchdog st h)
  step-IsSingle goes_online st h =
      either-IsSingle st.enabled _ st
        (reconnect-IsSingle st (record st { reconnect_attempt = 0 }) refl refl refl h) h
  step-IsSingle hides st h =
      let now = same-IsSingle st (record st { hidden = true }) refl refl refl h in
      either-IsSingle (st.enabled && pause) _ _ (on_hide-IsSingle _ now) now
  step-IsSingle shows st h =
      let now = same-IsSingle st (record st { hidden = false }) refl refl refl h in
      either-IsSingle (st.enabled && pause) (on_show pause native (record st { hidden = false })) _
        (on_show-IsSingle (record st { hidden = false }) now) now
  step-IsSingle (gets_token token) st h =
      let now = same-IsSingle st (record st { token = token }) refl refl refl h in
      either-IsSingle (st.enabled && present token) _ _
        (on_token-IsSingle (default "" token) st.ws (record st { token = token }) now) now
  step-IsSingle (keeps_alive b) st h =
      let now = same-IsSingle st (record st { keep_alive = b }) refl refl refl h in
      either-IsSingle (st.enabled && b) _ (record st { keep_alive = b })
        (connect-IsSingle pause (record st { keep_alive = b }) now) now
  step-IsSingle (keeps_alive_ref b) st h = same-IsSingle st _ refl refl refl h
  step-IsSingle (enables b) st h =
      let now = same-IsSingle st (record st { enabled = b }) refl refl refl h in
      either-IsSingle b (connect pause (record st { enabled = b })) _
        (connect-IsSingle pause (record st { enabled = b }) now) (close_socket-IsSingle _ now)
  step-IsSingle (types chat_id typing) st h = typing-IsSingle st.ws chat_id typing st h

  run_keeps : (es : List Event) (st : SocketHook) → IsSingle st → IsSingle (run pause native es st)
  unfolding run
  run_keeps [] st h = h
  run_keeps (e ∷ es) st h = run_keeps es (step pause native e st) (step-IsSingle e st h)

-- After any sequence of events that the page, the timers, the server and the component cause, a socket
-- that is opening or open is the one that the hook holds, so that there is at most one. The hook holds
-- no socket that is closed, and a socket that it has not made yet is not there.
pub run-IsSingle :
    (pause native hidden : Bool) (token : Option String) (es : List Event)
    → IsSingle (run pause native es (unconnected hidden token))
run-IsSingle pause native hidden token es =
    run_keeps pause native es (unconnected hidden token)
      (record { single = λ i l. cc; held = λ i w. cc; fresh = λ i m. refl })
