-- ===== src/Routes/Roundtrip.antt =====
-- An address that was built is read back: client/src/lib/routes.ts.
use Prim.Native.String
use coachman.Common.{
  String, true, false, not, Option, none, some, strip, strip-append, truthy, Bool-cases, ◌==◌,
  eq_iff, ◌≡◌, refl, sym, ap, ◌∙◌, inl, inr, arith,
}
use coachman.Routes.{
  AppPanel, group, invite, users, settings, calls, call_diagnostics, AppRoute, panel_name, panel_of,
  UrlCodec, chat_component, route_of_match, parse_route, set_panel, without_question, build_query,
  path_of, search_of,
}

pub panel_of-panel_name : (panel : AppPanel) → panel_of (some (panel_name panel)) ≡ some panel
panel_of-panel_name group = refl
panel_of-panel_name invite = refl
panel_of-panel_name users = refl
panel_of-panel_name settings = refl
panel_of-panel_name calls = refl
panel_of-panel_name call_diagnostics = refl

-- The route names no chat, or one with an id.
abbrev pub IsNamed : Option String → Type 0
IsNamed none = Unit
IsNamed (some chat_id) = truthy chat_id ≡ true

module _ (url : UrlCodec) where
  parse-search_of :
      (qs : String) → strip "?" qs ≡ none → url.parse (search_of url qs) ≡ url.parse qs
  parse-search_of qs plain = elim (Bool-cases (truthy qs)) [
    | inl e ↦ rw e (url.parse-question qs plain)
    | inr e ↦ rw e (ap url.parse (empty qs e))
  ]
    where
      empty : (qs : String) → truthy qs ≡ false → "" ≡ qs
      empty qs e = sym ((eq_iff qs "").0 (let h : not (qs == "") ≡ false = e in ground arith))

  panel_back :
      (panel : Option AppPanel) (params : url.Params)
      → panel_of (url.get "panel" (set_panel url panel (url.delete "panel" params))) ≡ panel
  panel_back none params = rw (url.get-delete "panel" params) refl
  panel_back (some panel) params =
      rw (url.get-set "panel" (panel_name panel) (url.delete "panel" params))
        (panel_of-panel_name panel)

  query_back :
      (route : AppRoute) (search : String)
      → panel_of (url.get "panel" (url.parse (search_of url (build_query url route search))))
        ≡ route.panel
  unfolding build_query
  query_back route search =
      ap (λ (params : url.Params). panel_of (url.get "panel" params))
        (parse-search_of (build_query url route search) (url.strip-print _) ∙ url.parse-print _)
      ∙ panel_back route.panel (url.parse (without_question url search))

  component_back :
      (chat_id : String)
      → truthy chat_id ≡ true
      → chat_component (String.◌++◌ "/c/" (url.encode chat_id)) ≡ some (url.encode chat_id)
  unfolding chat_component
  component_back chat_id named =
      rw
        (
          strip-append "/c/" (url.encode chat_id),
          url.encode_truthy chat_id,
          named,
          url.encode_plain chat_id,
        )
        refl

  path_back :
      (chat_id : Option String) (panel : Option AppPanel)
      → IsNamed chat_id
      → route_of_match url (chat_component (path_of url chat_id)) (path_of url chat_id) panel
        ≡ some (record { chat_id = chat_id; panel = panel })
  unfolding chat_component strip
  path_back none panel named = refl
  path_back (some chat_id) panel named =
      rw (named, component_back chat_id named, url.decode-encode chat_id) refl

  -- The pathname and the query of the address that is built for a route give that route again, whatever
  -- other parameters the address had. A chat of the route has an id that is not empty.
  pub parse_route-build :
      (route : AppRoute) (search : String)
      → IsNamed route.chat_id
      → parse_route url (path_of url route.chat_id) (search_of url (build_query url route search))
        ≡ some route
  unfolding parse_route
  parse_route-build route search named =
      rw (query_back route search) (path_back route.chat_id route.panel named)
