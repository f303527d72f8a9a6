-- ===== src/Socket/Beating.antt =====
-- A shown connection has its heartbeat: client/src/hooks/useWebSocket.ts.
pub mod Run
use coachman.Common.{
  ℕ, String, Bool, true, false, ◌&&◌, not, Option, none, some, List, [], ◌∷◌, is_some, present,
  default, if◌then◌else◌, Bool-cases, ◌≡◌, ◌≢◌, refl, sym, inl, inr,
}
use coachman.WsPolicy.{should_close_socket_immediately}
use coachman.Socket.{
  ReadyState, opening, open_state, closing, closed, connected, connecting, disconnected, auth,
  typing_frame, SocketHook, is_live, is_open, set_ready, is_current, send, ping, start_heartbeat,
  arm_connection_timer, close_socket, should_keep_alive, live_socket, open_socket, is_paused,
  connect, on_close,
}
use coachman.Socket.Events.{
  is_opening, is_closed, Inbound, broken, pong, auth_ok, payload, Event, opens, receives, closes,
  reconnect_fires, grace_fires, auth_fires, ping_fires, pong_fires, goes_online, hides, shows,
  gets_token, keeps_alive, keeps_alive_ref, enables, types, on_open, on_message, expire_auth,
  expire_pong, ping_due, send_typing, afresh, connect_afresh, on_token, on_hide, on_show,
  grace_over, step, run, unconnected,
}
use coachman.Socket.Single.{IsSingle}
use coachman.Socket.Single.Run.{step-IsSingle, run-IsSingle}

-- A connection that is shown as connected has its heartbeat, on the socket that the hook holds.
pub record IsBeating (st : SocketHook) : Type 0 where
  pub held : st.connection ≡ connected → is_some st.ws ≡ true
  pub beats : st.connection ≡ connected → st.ping_timer ≡ st.ws

-- What is not shown as connected needs none.
pub unconnected-IsBeating : (st : SocketHook) → st.connection ≢ connected → IsBeating st
unconnected-IsBeating st e = record { held = λ c. absurd (e c); beats = λ c. absurd (e c) }

pub either-IsBeating :
    (b : Bool) (x y : SocketHook) → IsBeating x → IsBeating y → IsBeating (if b then x else y)
either-IsBeating true x y p q = p
either-IsBeating false x y p q = q

pub connecting_not : connecting ≢ connected
connecting_not = λ e. cc

disconnected_not : disconnected ≢ connected
disconnected_not = λ e. cc

module _ (pause : Bool) where
  -- `connect`, from a state that is shown so or as connecting.
  pub connect-IsBeating : (st : SocketHook) → IsBeating st → IsBeating (connect pause st)
  unfolding connect open_socket
  connect-IsBeating st h =
      either-IsBeating (not (st.enabled && present st.token))
        (record st { connection = disconnected })
        (if is_paused pause st
          then st
          else if live_socket st.ws st.ready
          then st
          else open_socket st)
        (unconnected-IsBeating (record st { connection = disconnected }) disconnected_not)
        (either-IsBeating (is_paused pause st) st
          (if live_socket st.ws st.ready then st else open_socket st) h
          (either-IsBeating (live_socket st.ws st.ready) st (open_socket st) h
            (unconnected-IsBeating (open_socket st) connecting_not)))

  pub on_close-IsBeating : (i : ℕ) (st : SocketHook) → IsBeating (on_close pause i st)
  unfolding on_close
  on_close-IsBeating i st = elim (Bool-cases (present st.token)) [
    | inr e ↦ rw e (unconnected-IsBeating _ disconnected_not)
    | inl e ↦ elim (Bool-cases (is_paused pause st)) [
      | inl p ↦ rw (e, p) (unconnected-IsBeating _ disconnected_not)
      | inr p ↦ rw (e, p) (unconnected-IsBeating _ connecting_not)
    ]
  ]

pub close_socket-IsBeating : (st : SocketHook) → IsBeating (close_socket st)
unfolding close_socket
close_socket-IsBeating st = unconnected-IsBeating _ disconnected_not

ping-IsBeating : (i : ℕ) (st : SocketHook) → IsBeating st → IsBeating (ping i st)
unfolding ping
ping-IsBeating i st h =
    either-IsBeating (is_current st.ws i && is_open (st.ready i)) _ st
      (record { held = h.held; beats = h.beats }) h

pub ping_due-IsBeating :
    (timer : Option ℕ) (st : SocketHook) → IsBeating st → IsBeating (ping_due timer st)
ping_due-IsBeating none st h = h
ping_due-IsBeating (some i) st h = ping-IsBeating i st h

-- The socket that the server confirms is the one that the hook holds, since it is open.
on_message-IsBeating :
    (i : ℕ) (frame : Inbound) (st : SocketHook)
    → st.ws ≡ some i
    → IsBeating st
    → IsBeating (on_message i frame st)
unfolding on_message start_heartbeat
on_message-IsBeating i broken st e h = h
on_message-IsBeating i pong st e h = record { held = h.held; beats = h.beats }
on_message-IsBeating i payload st e h = record { held = h.held; beats = h.beats }
on_message-IsBeating i auth_ok st e h =
    let live =
      ping-IsBeating i
        (record st {
          pong_watchdog = none;
          auth_timer = none;
          connection = connected;
          ping_timer = some i;
        })
        (record { held = λ c. rw e refl; beats = λ c. sym e }) in
    record { held = live.held; beats = live.beats }

pub typing-IsBeating :
    (w : Option ℕ) (chat_id : String) (typing : Bool) (st : SocketHook)
    → IsBeating st
    → IsBeating (send_typing w chat_id typing st)
typing-IsBeating none chat_id typing st h = h
typing-IsBeating (some i) chat_id typing st h =
    either-IsBeating (is_open (st.ready i)) (send i (typing_frame chat_id typing) st) st
      (record { held = h.held; beats = h.beats }) h

open_live : (r : ReadyState) → is_open r ≡ true → is_live r ≡ true
open_live open_state e = refl
open_live opening e = cc
open_live closing e = cc
open_live closed e = cc

pub receives-IsBeating :
    (i : ℕ) (frame : Inbound) (st : SocketHook)
    → IsSingle st
    → IsBeating st
    → IsBeating (if is_open (st.ready i) then on_message i frame st else st)
receives-IsBeating i frame st s h = elim (Bool-cases (is_open (st.ready i))) [
  | inl e ↦ rw e (on_message-IsBeating i frame st (s.single i (open_live (st.ready i) e)) h)
  | inr e ↦ rw e h
]
