-- ===== src/Routes.antt =====
-- The address of a screen: client/src/lib/routes.ts.
-- URLSearchParams and the encoding of a path component are parameters.
pub mod Roundtrip
pub mod Shell
use Prim.Native.Char.{code}
use Prim.Native.String
use coachman.Common.{
  String, Bool, true, false, ◌&&◌, ◌||◌, not, Option, none, some, strip, eqb, truthy, present,
  default, if◌then◌else◌, ◌==◌, ◌≡◌,
}

pub data AppPanel : Type 0 where
  group invite users settings calls call_diagnostics : AppPanel

pub record AppRoute : Type 0 where
  pub chat_id : Option String
  pub panel : Option AppPanel

abbrev pub chat_list : AppRoute
chat_list = record { chat_id = none; panel = none }

abbrev pub panel_name : AppPanel → String
panel_name group = "group"
panel_name invite = "invite"
panel_name users = "users"
panel_name settings = "settings"
panel_name calls = "calls"
panel_name call_diagnostics = "call-diagnostics"

-- `PANELS.has`
abbrev pub panel_of : Option String → Option AppPanel
panel_of none = none
panel_of (some name) =
    if name == "group"
    then some group
    else if name == "invite"
    then some invite
    else if name == "users"
    then some users
    else if name == "settings"
    then some settings
    else if name == "calls"
    then some calls
    else if name == "call-diagnostics"
    then some call_diagnostics
    else none

unfoldable pub has_slash : String → Bool
has_slash String.[] = false
has_slash (String.◌∷◌ c rest) = eqb (code c) b'/' || has_slash rest

-- What the code uses of URLSearchParams and of the encoding of a component.
pub record UrlCodec : Type 1 where
  pub Params : Type 0
  pub parse : String → Params
  pub print : Params → String
  pub get : String → Params → Option String
  pub delete : String → Params → Params
  pub set : String → String → Params → Params
  pub encode : String → String
  -- `none` for a URIError
  pub decode : String → Option String
  -- a query that was printed is read back; it starts with no question mark, which is encoded
  pub parse-print : (params : Params) → parse (print params) ≡ params
  pub strip-print : (params : Params) → strip "?" (print params) ≡ none
  -- one question mark is passed over, that of `location.search`
  pub parse-question :
      (query : String) → strip "?" query ≡ none → parse (String.◌++◌ "?" query) ≡ parse query
  pub get-set : (key value : String) (params : Params) → get key (set key value params) ≡ some value
  pub get-delete : (key : String) (params : Params) → get key (delete key params) ≡ none
  -- a component that was encoded has no slash, and is empty only for the empty text
  pub decode-encode : (s : String) → decode (encode s) ≡ some s
  pub encode_plain : (s : String) → has_slash (encode s) ≡ false
  pub encode_truthy : (s : String) → truthy (encode s) ≡ truthy s

abbrev pub component_of : Option String → Option String
component_of none = none
component_of (some rest) = if truthy rest && not (has_slash rest) then some rest else none

-- `pathname.match(/^\/c\/([^/]+)$/)`
unfoldable pub chat_component : String → Option String
unfolding has_slash
chat_component pathname = component_of (strip "/c/" pathname)

module _ (url : UrlCodec) where
  abbrev pub with_chat : Option AppPanel → Option String → Option AppRoute
  with_chat panel none = none
  with_chat panel (some chat_id) = some (record { chat_id = some chat_id; panel = panel })

  -- The route of an address that has no chat.
  abbrev pub route_of_root : String → Option AppPanel → AppRoute
  route_of_root pathname panel =
      if pathname == "/" || pathname == ""
      then record { chat_id = none; panel = panel }
      else chat_list

  abbrev pub route_of_match : Option String → String → Option AppPanel → Option AppRoute
  route_of_match none pathname panel = some (route_of_root pathname panel)
  route_of_match (some component) pathname panel = with_chat panel (url.decode component)

  -- `none` stands for the exception of `decodeURIComponent`.
  unfoldable pub parse_route : String → String → Option AppRoute
  unfolding chat_component
  parse_route pathname search =
      route_of_match (chat_component pathname) pathname
        (panel_of (url.get "panel" (url.parse search)))

  abbrev pub set_panel : Option AppPanel → url.Params → url.Params
  set_panel none params = params
  set_panel (some panel) params = url.set "panel" (panel_name panel) params

  abbrev pub without_question : String → String
  without_question search = default search (strip "?" search)

  -- The query of `buildPath`.
  unfoldable pub build_query : AppRoute → String → String
  build_query route search =
      url.print (set_panel route.panel (url.delete "panel" (url.parse (without_question search))))

  abbrev pub path_of : Option String → String
  path_of none = "/"
  path_of (some chat_id) = if truthy chat_id then String.◌++◌ "/c/" (url.encode chat_id) else "/"

  unfoldable pub build_path : AppRoute → String → String
  unfolding build_query
  build_path route search =
      let qs = build_query route search in
      if truthy qs
      then String.◌++◌ (path_of route.chat_id) (String.◌++◌ "?" qs)
      else path_of route.chat_id

  -- `location.search` of an address with this query.
  abbrev pub search_of : String → String
  search_of qs = if truthy qs then String.◌++◌ "?" qs else ""

abbrev pub same_text : Option String → Option String → Bool
same_text none none = true
same_text (some a) (some b) = a == b
same_text _ b = false

abbrev pub same_panel : Option AppPanel → Option AppPanel → Bool
same_panel none none = true
same_panel (some a) (some b) = panel_name a == panel_name b
same_panel _ b = false

unfoldable pub routes_equal : AppRoute → AppRoute → Bool
routes_equal a b = same_text a.chat_id b.chat_id && same_panel a.panel b.panel
