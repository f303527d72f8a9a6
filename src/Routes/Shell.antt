-- ===== src/Routes/Shell.antt =====
-- The history of the application in its tab: client/src/hooks/useAppRoute.ts.
-- `window.history` is the entries of the document, and an entry is its state and the route that its
-- address stands for. A move of the browser and its `popstate` handler are one step. Addresses are
-- compared by the routes they are built from, and a chat of a route has an id that is not empty.
pub mod Arrival
pub mod Stack
use coachman.Common.{
  String, ℕ, zero, suc, max, Bool, true, false, ◌&&◌, not, Option, none, some, List, [], ◌∷◌,
  default, present, is_some, is_true, ltb, if◌then◌else◌, ◌==◌,
}
use coachman.Routes.{AppRoute, chat_list, routes_equal}

-- The index of a shell state, `none` for a state of another kind.
pub record HistoryEntry : Type 0 where
  pub idx : Option ℕ
  pub route : AppRoute

pub record SessionHistory : Type 0 where
  -- nearest first
  pub behind : List HistoryEntry
  pub current : HistoryEntry
  -- nearest first
  pub forward : List HistoryEntry

abbrev pub push_state : HistoryEntry → SessionHistory → SessionHistory
push_state e h = record { behind = h.current ∷ h.behind; current = e; forward = [] }

abbrev pub replace_state : HistoryEntry → SessionHistory → SessionHistory
replace_state e h = record h { current = e }

-- One step back among the entries that are given; `none` if the page is left.
abbrev pub step_back : List HistoryEntry → SessionHistory → Option SessionHistory
step_back [] h = none
step_back (e ∷ behind) h =
    some (record { behind = behind; current = e; forward = h.current ∷ h.forward })

-- The window and the route that the hook has in its state.
pub record Shell : Type 0 where
  pub history : SessionHistory
  pub route : AppRoute

abbrev pub current_idx : SessionHistory → ℕ
current_idx h = default 0 h.current.idx

abbrev pub is_list : AppRoute → Bool
is_list r = not (present r.chat_id) && not (is_some r.panel)

abbrev pub shell_entry : ℕ → AppRoute → HistoryEntry
shell_entry idx route = record { idx = some idx; route = route }

-- `onPopState`
unfoldable pub on_pop_state : SessionHistory → Shell
on_pop_state h =
    if is_some h.current.idx
    then record { history = h; route = h.current.route }
    else record { history = push_state (shell_entry 0 chat_list) h; route = chat_list }

abbrev pub moved : Option SessionHistory → Option Shell
moved none = none
moved (some h) = some (on_pop_state h)

abbrev pub back_again :
    (SessionHistory → Option SessionHistory) → Option SessionHistory → Option SessionHistory
back_again go none = none
back_again go (some h) = go h

-- `history.go(-n)`
unfoldable pub go_back : ℕ → SessionHistory → Option SessionHistory
go_back zero h = some h
go_back (suc n) h = back_again (go_back n) (step_back h.behind h)

abbrev pub pushed : AppRoute → Shell → Shell
pushed next s = record {
  history = push_state (shell_entry (suc (current_idx s.history)) next) s.history;
  route = next;
}

abbrev pub replaced : ℕ → AppRoute → Shell → Shell
replaced idx next s = record {
  history = replace_state (shell_entry idx next) s.history;
  route = next;
}

-- `Math.max(1, currentIdx())`
abbrev pub frame_idx : Shell → ℕ
frame_idx s = max 1 (current_idx s.history)

-- The address is the one that is shown already.
abbrev pub same_address : AppRoute → Shell → Shell
same_address next s = record {
  history =
      if is_some s.history.current.idx
      then s.history
      else replace_state (shell_entry (current_idx s.history) next) s.history;
  route = if routes_equal s.route next then s.route else next;
}

abbrev pub to_list : AppRoute → Shell → Option Shell
to_list next s =
    if ltb 0 (current_idx s.history)
    then moved (go_back (current_idx s.history) s.history)
    else some (replaced 0 next s)

abbrev pub close_panel : AppRoute → Shell → Option Shell
close_panel next s =
    if ltb 0 (current_idx s.history)
    then moved (go_back 1 s.history)
    else some (replaced (frame_idx s) next s)

abbrev pub open_chat : AppRoute → AppRoute → Shell → Shell
open_chat cur next s = if is_list cur then pushed next s else replaced (frame_idx s) next s

abbrev pub open_panel : AppRoute → AppRoute → Shell → Shell
open_panel cur next s = if is_some cur.panel then replaced (frame_idx s) next s else pushed next s

abbrev pub same_chat : Option String → Option String → Bool
same_chat none none = true
same_chat (some a) (some b) = a == b
same_chat _ b = false

-- A panel closes over its chat.
abbrev pub closes_panel : AppRoute → AppRoute → Bool
closes_panel cur next =
    is_some cur.panel
    && (not (is_some next.panel) && (present next.chat_id && same_chat next.chat_id cur.chat_id))

-- `navigate`, without and with `replace`; `none` if the page is left.
unfoldable pub navigate : AppRoute → Shell → Option Shell
unfolding on_pop_state go_back routes_equal
navigate next s =
    let cur = s.history.current.route in
    if routes_equal next cur
    then some (same_address next s)
    else if is_list next && not (is_list cur)
    then to_list next s
    else if closes_panel cur next
    then close_panel next s
    else if present next.chat_id && not (is_some next.panel)
    then some (open_chat cur next s)
    else if is_some next.panel
    then some (open_panel cur next s)
    else some (pushed next s)

unfoldable pub navigate_replace : AppRoute → Shell → Shell
unfolding routes_equal
navigate_replace next s =
    if routes_equal next s.history.current.route
    then same_address next s
    else replaced (if is_list next then 0 else frame_idx s) next s

-- The first effect of the hook: the list is put under a chat or a panel that is opened directly.
unfoldable pub bootstrap : SessionHistory → Shell
bootstrap h =
    let current = h.current.route in
    if is_list current
    then record { history = replace_state (shell_entry 0 current) h; route = current }
    else record {
      history = push_state (shell_entry 1 current) (replace_state (shell_entry 0 chat_list) h);
      route = current;
    }
