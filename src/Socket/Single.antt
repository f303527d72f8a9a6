-- ===== src/Socket/Single.antt =====
-- At most one socket is live: client/src/hooks/useWebSocket.ts.
pub mod Run
use coachman.Common.{
  ℕ, ◌+◌, ◌≤◌, String, Bool, true, false, ◌&&◌, ◌||◌, not, Option, none, some, List, [], ◌∷◌, eqb,
  is_some, present, if◌then◌else◌, Bool-cases, Option-cases, ◌≡◌, refl, sym, ap, ◌∙◌, inl, inr,
  arith,
}
use coachman.WsPolicy.{should_close_socket_immediately}
use coachman.Socket.{
  ReadyState, opening, open_state, closing, closed, SocketHook, is_live, is_open, set_ready,
  is_current, after_close, close_ws, close_current, ping, start_heartbeat, close_socket,
  should_keep_alive, live_socket, open_socket, is_paused, connect, on_close,
}
use coachman.Socket.Events.{
  is_opening, is_closed, Inbound, broken, pong, auth_ok, payload, Event, opens, receives, closes,
  reconnect_fires, grace_fires, auth_fires, ping_fires, pong_fires, goes_online, hides, shows,
  gets_token, keeps_alive, keeps_alive_ref, enables, types, on_open, on_message, close_if_current,
  expire_auth, expire_pong, on_token, on_hide, on_show, grace_over, step, run, unconnected,
}

-- Only the socket that the hook holds is live, and the hook holds none that is closed.
pub record IsSingle (st : SocketHook) : Type 0 where
  pub single : (i : ℕ) → is_live (st.ready i) ≡ true → st.ws ≡ some i
  pub held : (i : ℕ) → st.ws ≡ some i → is_closed (st.ready i) ≡ false
  pub fresh : (i : ℕ) → st.made ≤ i → is_closed (st.ready i) ≡ true

set_ready_if :
    (P : ReadyState → Type 0) (i j : ℕ) (r : ReadyState) (ready : ℕ → ReadyState)
    → (j ≡ i → P r)
    → (eqb j i ≡ false → P (ready j))
    → P (set_ready i r ready j)
set_ready_if P i j r ready same other = elim (Bool-cases (eqb j i)) [
  | inl e ↦ rw e (same (ground arith))
  | inr e ↦ rw e (other e)
]

-- A socket that moves on without coming to life, and is not closed.
pub set_ready-IsSingle :
    (i : ℕ) (r : ReadyState) (st : SocketHook)
    → (is_live r ≡ true → is_live (st.ready i) ≡ true)
    → is_closed r ≡ is_closed (st.ready i)
    → IsSingle st
    → IsSingle (record st { ready = set_ready i r st.ready })
set_ready-IsSingle i r st live shut h = record {
  single = λ j.
      set_ready_if (λ s. is_live s ≡ true → st.ws ≡ some j) i j r st.ready
        (λ e l. rw e (h.single i (live l))) (λ e. h.single j);
  held = λ j w.
      set_ready_if (λ s. is_closed s ≡ false) i j r st.ready (λ e. shut ∙ h.held i (w ∙ ap some e))
        (λ e. h.held j w);
  fresh = λ j m.
      set_ready_if (λ s. is_closed s ≡ true) i j r st.ready
        (λ e. let m' : st.made ≤ i = rw e at m in shut ∙ h.fresh i m') (λ e. h.fresh j m);
}

after_close_dead : (r : ReadyState) → is_live (after_close r) ≡ true → is_live r ≡ true
after_close_dead opening e = refl
after_close_dead open_state e = refl
after_close_dead closing e = cc
after_close_dead closed e = cc

after_close_closed : (r : ReadyState) → is_closed (after_close r) ≡ is_closed r
after_close_closed opening = refl
after_close_closed open_state = refl
after_close_closed closing = refl
after_close_closed closed = refl

pub close_ws-IsSingle :
    (i : ℕ) (st : SocketHook) → IsSingle st → IsSingle (record st { ready = close_ws i st.ready })
close_ws-IsSingle i st h =
    set_ready-IsSingle i (after_close (st.ready i)) st (after_close_dead (st.ready i))
      (after_close_closed (st.ready i)) h

after_close_not_live : (r : ReadyState) → is_live (after_close r) ≡ false
after_close_not_live opening = refl
after_close_not_live open_state = refl
after_close_not_live closing = refl
after_close_not_live closed = refl

-- The socket that the hook held is told to close and is let go.
let_go-IsSingle :
    (w : Option ℕ) (st : SocketHook)
    → st.ws ≡ w
    → IsSingle st
    → IsSingle (record st { ready = close_current w st.ready; ws = none })
let_go-IsSingle none st e h = record {
  single = λ j l. absurd (let none_held : none ≡ some j = sym e ∙ h.single j l in cc);
  held = λ j w. cc;
  fresh = h.fresh;
}
let_go-IsSingle (some i) st e h =
    let closing' = close_ws-IsSingle i st h in
    record {
      single = λ j.
          set_ready_if (λ s. is_live s ≡ true → none ≡ some j) i j (after_close (st.ready i))
            st.ready
            (λ same l.
              absurd
                (let dead = after_close_not_live (st.ready i) in let clash = sym l ∙ dead in cc))
            (λ other l. absurd (let one : some i ≡ some j = sym e ∙ h.single j l in ground arith));
      held = λ j w. cc;
      fresh = closing'.fresh;
    }

pub close_socket-IsSingle : (st : SocketHook) → IsSingle st → IsSingle (close_socket st)
unfolding close_socket
close_socket-IsSingle st h =
    let gone = let_go-IsSingle st.ws st refl h in
    record { single = gone.single; held = gone.held; fresh = gone.fresh }

-- A socket comes to life only when none is.
open_socket-IsSingle :
    (st : SocketHook) → live_socket st.ws st.ready ≡ false → IsSingle st → IsSingle (open_socket st)
unfolding open_socket
open_socket-IsSingle st idle h = record {
  single = λ j.
      set_ready_if (λ s. is_live s ≡ true → some st.made ≡ some j) st.made j opening st.ready
        (λ same l. ap some (sym same))
        (λ other l. absurd (
          let live : live_socket st.ws st.ready ≡ true =
            ap (λ (w : Option ℕ). live_socket w st.ready) (h.single j l) ∙ l in
          let clash = sym live ∙ idle in cc));
  held = λ j w.
      set_ready_if (λ s. is_closed s ≡ false) st.made j opening st.ready (λ same. refl)
        (λ other. absurd (let one : some st.made ≡ some j = w in ground arith));
  fresh = λ j m.
      set_ready_if (λ s. is_closed s ≡ true) st.made j opening st.ready
        (λ same. absurd (omega arith)) (λ other. h.fresh j (omega arith));
}

dropped_current :
    (w : Option ℕ) (i j : ℕ)
    → (if is_current w i then none else w) ≡ some j
    → (w ≡ some j) × (eqb j i ≡ false)
dropped_current none i j e = cc
dropped_current (some k) i j e = ground arith

closed-IsSingle :
    (i : ℕ) (st : SocketHook)
    → IsSingle st
    → IsSingle (record st {
      ready = set_ready i closed st.ready;
      ws = if is_current st.ws i then none else st.ws;
    })
closed-IsSingle i st h = record {
  single = λ j.
      set_ready_if (λ s. is_live s ≡ true → (if is_current st.ws i then none else st.ws) ≡ some j) i
        j closed st.ready (λ same l. cc) (λ other l. let e = h.single j l in rw (e, other) refl);
  held = λ j w.
      let (e, other) = dropped_current st.ws i j w in
      set_ready_if (λ s. is_closed s ≡ false) i j closed st.ready (λ same. absurd (ground arith))
        (λ _. h.held j e);
  fresh = λ j m.
      set_ready_if (λ s. is_closed s ≡ true) i j closed st.ready (λ same. refl)
        (λ other. h.fresh j m);
}

module _ (pause : Bool) where
  pub connect-IsSingle : (st : SocketHook) → IsSingle st → IsSingle (connect pause st)
  unfolding connect
  connect-IsSingle st h = elim (Bool-cases (st.enabled && present st.token)) [
    | inr e ↦ rw e (record { single = h.single; held = h.held; fresh = h.fresh })
    | inl e ↦ elim (Bool-cases (is_paused pause st)) [
      | inl p ↦ rw (e, p) h
      | inr p ↦ elim (Bool-cases (live_socket st.ws st.ready)) [
        | inl l ↦ rw (e, p, l) h
        | inr l ↦ rw (e, p, l) (open_socket-IsSingle st l h)
      ]
    ]
  ]

  pub on_close-IsSingle :
      (i : ℕ) (st : SocketHook)
      → IsSingle st
      → IsSingle (on_close pause i (record st { ready = set_ready i closed st.ready }))
  unfolding on_close
  on_close-IsSingle i st h =
      let k = closed-IsSingle i st h in
      elim (Bool-cases (present st.token)) [
        | inr e ↦ rw e (record { single = k.single; held = k.held; fresh = k.fresh })
        | inl e ↦ elim (Bool-cases (is_paused pause st)) [
          | inl p ↦ rw (e, p) (record { single = k.single; held = k.held; fresh = k.fresh })
          | inr p ↦ rw (e, p) (record { single = k.single; held = k.held; fresh = k.fresh })
        ]
      ]
