-- ===== src/Tests/Socket.antt =====
-- Runs of the live connection: client/src/hooks/useWebSocket.ts.
use coachman.Common.{true, false, some, none, List, [], ◌∷◌, ◌≡◌, refl, is_some, ◌||◌}
use coachman.WsPolicy.{
  should_pause_when_hidden, has_word, starts_with_word, should_close_socket_immediately,
  reconnect_delay_ms,
}
use coachman.Socket.{
  SocketHook, auth, ping_frame, connecting, connect, open_socket, close_socket, ping,
  start_heartbeat,
}
use coachman.Socket.Events.{
  Event, opens, receives, closes, reconnect_fires, ping_fires, hides, shows, enables, auth_ok,
  on_open, on_message, on_hide, on_show, step, run, unconnected,
}
use coachman.Socket.Single.{IsSingle}
use coachman.Socket.Single.Run.{run-IsSingle}
use coachman.Socket.Beating.{IsBeating}
use coachman.Socket.Beating.Run.{run-IsBeating}
use coachman.Socket.Sound.Run.{run-waiting}
use coachman.Socket.Stale.{old_close_stops_heartbeat}

-- The application of Android is covered and shown again. The server confirms the second socket before
-- the first one is closed.
abbrev covered : List Event
covered =
    enables true ∷ opens 0 ∷ receives 0 auth_ok ∷ hides ∷ shows ∷ opens 1 ∷ receives 1 auth_ok ∷ []

abbrev back : SocketHook
unfolding run step on_open on_message start_heartbeat ping connect open_socket close_socket on_hide
    on_show should_close_socket_immediately
back = run true true covered (unconnected false (some "token"))

fifth_attempt : reconnect_delay_ms 5 ≡ 3200
unfolding reconnect_delay_ms
fifth_attempt = refl

iphone_pauses : should_pause_when_hidden "Mozilla/5.0 (iPhone; CPU)" false ≡ true
unfolding should_pause_when_hidden has_word starts_with_word
iphone_pauses = refl

desktop_stays : should_pause_when_hidden "Mozilla/5.0 (X11; Linux)" false ≡ false
unfolding should_pause_when_hidden has_word starts_with_word
desktop_stays = refl

sent_so_far :
    back.sent ≡ (1, ping_frame) ∷ (1, auth "token") ∷ (0, ping_frame) ∷ (0, auth "token") ∷ []
unfolding back
sent_so_far = refl

run-IsSingle_example : IsSingle (run true true covered (unconnected false (some "token")))
run-IsSingle_example = run-IsSingle true true false (some "token") covered

run-IsBeating_example : IsBeating (run true true covered (unconnected false (some "token")))
run-IsBeating_example = run-IsBeating true true false (some "token") covered

run-waiting_example :
    let st = run true true covered (unconnected false (some "token")) in
    (is_some st.ws || is_some st.reconnect_timer) ≡ true
unfolding run step on_open on_message start_heartbeat ping connect open_socket close_socket on_hide
    on_show should_close_socket_immediately
run-waiting_example = run-waiting true true false (some "token") covered refl

old_close_stops_heartbeat_example :
    let st' = run true true (closes 0 ∷ reconnect_fires ∷ ping_fires ∷ []) back in
    (st'.ws ≡ some 1)
    × ((st'.connection ≡ connecting)
        × ((st'.ping_timer ≡ none) × ((st'.auth_timer ≡ none) × (st'.sent ≡ back.sent))))
unfolding back
old_close_stops_heartbeat_example =
    old_close_stops_heartbeat true true 0 1 back refl refl refl refl refl refl
