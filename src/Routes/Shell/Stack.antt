-- ===== src/Routes/Shell/Stack.antt =====
-- The chat list lies under every entry of the application: client/src/hooks/useAppRoute.ts.
use coachman.Common.{
  ℕ, zero, suc, Bool, true, false, Option, none, some, List, [], ◌∷◌, default, is_some, ltb,
  if◌then◌else◌, Bool-cases, ◌≡◌, refl, sym, ap, ◌∙◌, inl, inr, arith,
}
use coachman.Routes.{AppRoute}
use coachman.Routes.Shell.{
  HistoryEntry, SessionHistory, Shell, current_idx, is_list, on_pop_state, moved, go_back, pushed,
  replaced, frame_idx, to_list, close_panel, bootstrap,
}

-- The entry of index 0 shows the list, and any other lies on the entry of the index before.
abbrev pub Fits : Option ℕ → AppRoute → Option ℕ → Type 0
Fits none route under = ⊥
Fits (some zero) route under = is_list route ≡ true
Fits (some (suc i)) route under = under ≡ some i

abbrev pub under_of : List HistoryEntry → Option ℕ
under_of [] = none
under_of (e ∷ es) = e.idx

abbrev pub Down : List HistoryEntry → Type 0
Down [] = Unit
Down (e ∷ es) = Fits e.idx e.route (under_of es) × Down es

abbrev pub Up : Option ℕ → List HistoryEntry → Type 0
Up under [] = Unit
Up under (e ∷ es) = Fits e.idx e.route under × Up e.idx es

pub record IsStack (h : SessionHistory) : Type 0 where
  pub fits : Fits h.current.idx h.current.route (under_of h.behind)
  pub down : Down h.behind
  pub up : Up h.current.idx h.forward

-- The hook shows the route of the current entry.
pub record IsShown (s : Shell) : Type 0 where
  pub stack : IsStack s.history
  pub shown : s.route ≡ s.history.current.route

pub Fits-some :
    (o : Option ℕ) (route : AppRoute) (under : Option ℕ)
    → Fits o route under
    → (i : ℕ) × (o ≡ some i)
Fits-some none route under h = absurd h
Fits-some (some i) route under h = (i, refl)

-- An entry that is not the list has an index above 0, and lies on the one before.
Fits-frame :
    (o : Option ℕ) (route : AppRoute) (under : Option ℕ)
    → Fits o route under
    → is_list route ≡ false
    → (i : ℕ) × (o ≡ some (suc i)) × (under ≡ some i)
Fits-frame none route under h l = absurd h
Fits-frame (some zero) route under h l = let clash = sym h ∙ l in cc
Fits-frame (some (suc i)) route under h l = (i, refl, h)

pub pushed-IsShown : (next : AppRoute) (s : Shell) → IsShown s → IsShown (pushed next s)
pushed-IsShown next s h =
    let (i, e) = Fits-some _ s.history.current.route _ h.stack.fits in
    record {
      stack = record { fits = rw e refl; down = (h.stack.fits, h.stack.down); up = tt };
      shown = refl;
    }

-- A chat or a panel is replaced in its frame.
pub replaced-IsShown :
    (next : AppRoute) (s : Shell)
    → is_list s.history.current.route ≡ false
    → IsShown s
    → IsShown (replaced (frame_idx s) next s)
replaced-IsShown next s not_list h =
    let (i, e, under) = Fits-frame _ s.history.current.route _ h.stack.fits not_list in
    let same : frame_idx s ≡ suc i = rw e (ground arith) in
    record {
      stack = record {
        fits = rw same under;
        down = h.stack.down;
        up = let up' : Up (some (suc i)) s.history.forward = rw e at h.stack.up in rw same up';
      };
      shown = refl;
    }

step_back-IsStack :
    (e : HistoryEntry) (es : List HistoryEntry) (h : SessionHistory)
    → h.behind ≡ e ∷ es
    → IsStack h
    → IsStack (record { behind = es; current = e; forward = h.current ∷ h.forward })
step_back-IsStack e es h same k =
    let down : Down (e ∷ es) = rw same at k.down in
    let fits : Fits h.current.idx h.current.route e.idx = rw same at k.fits in
    record { fits = down.0; down = down.1; up = (fits, k.up) }

-- Going back by the index of the current entry reaches the list.
pub record IsRoot (h : SessionHistory) : Type 0 where
  pub stack : IsStack h
  pub root : h.current.idx ≡ some 0

go_back-IsRoot :
    (n : ℕ) (behind : List HistoryEntry) (h : SessionHistory)
    → h.behind ≡ behind
    → h.current.idx ≡ some n
    → IsStack h
    → (r : SessionHistory) × (go_back n h ≡ some r) × IsRoot r
unfolding go_back
go_back-IsRoot zero behind h same e k = (h, refl, record { stack = k; root = e })
go_back-IsRoot (suc n) [] h same e k =
    let fits : Fits (some (suc n)) h.current.route none = rw (same, e) at k.fits in
    absurd (let clash : none ≡ some n = fits in cc)
go_back-IsRoot (suc n) (f ∷ fs) h same e k =
    let fits : Fits (some (suc n)) h.current.route f.idx = rw (same, e) at k.fits in
    let h' : SessionHistory = record {
      behind = fs;
      current = f;
      forward = h.current ∷ h.forward;
    } in
    let (r, back, root) = go_back-IsRoot n fs h' refl fits (step_back-IsStack f fs h same k) in
    (r, rw same back, root)

pub if_true : {A : Type 0} (b : Bool) (x y : A) → b ≡ true → (if b then x else y) ≡ x
if_true true x y e = refl
if_true false x y e = cc

-- The handler of the move shows the entry that was reached.
on_pop_state_lem :
    (h : SessionHistory)
    → IsStack h
    → on_pop_state h ≡ record { history = h; route = h.current.route }
unfolding on_pop_state
on_pop_state_lem h k =
    let (i, e) = Fits-some _ h.current.route _ k.fits in
    if_true (is_some h.current.idx) _ _ (ap is_some e)

root_list : (h : SessionHistory) → IsRoot h → is_list h.current.route ≡ true
root_list h r =
    let fits = r.stack.fits in
    let fits' : Fits (some 0) h.current.route (under_of h.behind) = rw r.root at fits in fits'

-- After a navigation: the page is not left, and a navigation to the list shows the list.
abbrev pub Arrives : AppRoute → Option Shell → Type 0
Arrives next none = ⊥
Arrives next (some s) = IsShown s × (is_list next ≡ true → is_list s.route ≡ true)

moved-Arrives :
    (next : AppRoute) (o : Option SessionHistory) (r : SessionHistory)
    → o ≡ some r
    → IsStack r
    → (is_list next ≡ true → is_list r.current.route ≡ true)
    → Arrives next (moved o)
moved-Arrives next o r e k l = rw (e, on_pop_state_lem r k) (record { stack = k; shown = refl }, l)

has_under :
    (es : List HistoryEntry) (i : ℕ)
    → under_of es ≡ some i
    → (f : HistoryEntry) × (fs : List HistoryEntry) × (es ≡ f ∷ fs)
has_under [] i e = cc
has_under (f ∷ fs) i e = (f, fs, refl)

pub to_list-Arrives :
    (next : AppRoute) (s : Shell)
    → is_list s.history.current.route ≡ false
    → IsShown s
    → Arrives next (to_list next s)
to_list-Arrives next s not_list h =
    let (i, e, under) = Fits-frame _ s.history.current.route _ h.stack.fits not_list in
    let (r, back, root) = go_back-IsRoot (suc i) s.history.behind s.history refl e h.stack in
    let deep : current_idx s.history ≡ suc i = ap (default 0) e in
    let positive : ltb 0 (suc i) ≡ true = ground arith in
    rw (deep, positive)
      (moved-Arrives next (go_back (suc i) s.history) r back root.stack (λ l. root_list r root))

pub close_panel-Arrives :
    (next : AppRoute) (s : Shell)
    → is_list s.history.current.route ≡ false
    → is_list next ≡ false
    → IsShown s
    → Arrives next (close_panel next s)
unfolding go_back
close_panel-Arrives next s not_list no_list h =
    let (i, e, under) = Fits-frame _ s.history.current.route _ h.stack.fits not_list in
    let deep : current_idx s.history ≡ suc i = ap (default 0) e in
    let positive : ltb 0 (suc i) ≡ true = ground arith in
    let (f, fs, same) = has_under s.history.behind i under in
    rw (deep, positive)
      (moved-Arrives next (go_back 1 s.history) _ (rw same refl)
        (step_back-IsStack f fs s.history same h.stack) (λ l. let clash = sym l ∙ no_list in cc))

-- The stack of a document that was opened at an address.
pub bootstrap-IsShown :
    (e : HistoryEntry) → IsShown (bootstrap (record { behind = []; current = e; forward = [] }))
unfolding bootstrap
bootstrap-IsShown e = elim (Bool-cases (is_list e.route)) [
  | inl l ↦ rw l (record { stack = record { fits = l; down = tt; up = tt }; shown = refl })
  | inr l ↦
      rw l (record { stack = record { fits = refl; down = (refl, tt); up = tt }; shown = refl })
]
