-- ===== src/Tests/Routes.antt =====
-- Addresses over a small codec, and moves of the tab: client/src/lib/routes.ts and
-- client/src/hooks/useAppRoute.ts.
use Prim.Native.Char.{Char, code}
use Prim.Native.String
use mathlib.Core.Path.{ap₂}
use text.Mathlib.TextEquality.{Char-path}
use text.Mathlib.TextLemmas.{cons-append, nil-append, cons-ne-nil}
use coachman.Common.{
  String, default, strip, strip-append, Bool, true, false, not, Option, none, some, [], ◌∷◌, eqb,
  truthy, if◌then◌else◌, Bool-cases, ◌==◌, eq_iff, ◌≡◌, refl, sym, ap, ◌∙◌, inl, inr, arith,
}
use coachman.Routes.{
  settings, AppRoute, chat_list, has_slash, UrlCodec, parse_route, build_query, path_of, search_of,
}
use coachman.Routes.Roundtrip.{parse_route-build}
use coachman.Routes.Shell.{
  HistoryEntry, shell_entry, Shell, on_pop_state, go_back, navigate, navigate_replace, bootstrap,
}

-- A query that holds at most one parameter, written `=value`.
abbrev value_of : String → Option String
value_of String.[] = none
value_of (String.◌∷◌ c rest) = some rest

-- One question mark at the start is passed over.
abbrev read_query : String → Option String
read_query query = value_of (default query (strip "?" query))

abbrev write_query : Option String → String
write_query none = ""
write_query (some value) = String.◌++◌ "=" value

write-plain : (p : Option String) → strip "?" (write_query p) ≡ none
unfolding strip
write-plain none = refl
write-plain (some value) = rw cons-append refl

read-write : (p : Option String) → read_query (write_query p) ≡ p
read-write none = rw (write-plain none) refl
read-write (some value) = rw (write-plain (some value)) (rw (cons-append, nil-append) refl)

read-question :
    (query : String)
    → strip "?" query ≡ none
    → read_query (String.◌++◌ "?" query) ≡ read_query query
read-question query plain = rw (strip-append "?" query, plain) refl

abbrev escape : Char → String → String
escape c rest =
    if eqb (code c) b'/'
    then String.◌∷◌ "!" (String.◌∷◌ "s" rest)
    else if eqb (code c) b'!'
    then String.◌∷◌ "!" (String.◌∷◌ "!" rest)
    else String.◌∷◌ c rest

abbrev escape_all : String → String
escape_all String.[] = ""
escape_all (String.◌∷◌ c s) = escape c (escape_all s)

abbrev unescape : Bool → String → String
unescape escaped String.[] = ""
unescape true (String.◌∷◌ c s) =
    String.◌∷◌ (if eqb (code c) b's' then "/" else c) (unescape false s)
unescape false (String.◌∷◌ c s) =
    let inside = unescape true s in
    let plain = unescape false s in if eqb (code c) b'!' then inside else String.◌∷◌ c plain

unescape-escape : (s : String) → unescape false (escape_all s) ≡ s
unescape-escape String.[] = refl
unescape-escape (String.◌∷◌ c s) = elim (Bool-cases (eqb (code c) b'/')) [
  | inl e ↦ rw e (ap₂ String.◌∷◌ (Char-path "/" c (ground arith)) (unescape-escape s))
  | inr e ↦ elim (Bool-cases (eqb (code c) b'!')) [
    | inl f ↦ rw (e, f) (ap₂ String.◌∷◌ (Char-path "!" c (ground arith)) (unescape-escape s))
    | inr f ↦ rw (e, f, f) (ap (String.◌∷◌ c) (unescape-escape s))
  ]
]

escape-plain : (s : String) → has_slash (escape_all s) ≡ false
unfolding has_slash
escape-plain String.[] = refl
escape-plain (String.◌∷◌ c s) = elim (Bool-cases (eqb (code c) b'/')) [
  | inl e ↦ rw e (escape-plain s)
  | inr e ↦ elim (Bool-cases (eqb (code c) b'!')) [
    | inl f ↦ rw (e, f) (escape-plain s)
    | inr f ↦ rw (e, f, e) (escape-plain s)
  ]
]

cons-truthy : (c : Char) (s : String) → truthy (String.◌∷◌ c s) ≡ true
cons-truthy c s = elim (Bool-cases (String.◌∷◌ c s == "")) [
  | inl e ↦ absurd (cons-ne-nil c s ((eq_iff (String.◌∷◌ c s) "").0 e))
  | inr e ↦ ap not e
]

escape-truthy : (s : String) → truthy (escape_all s) ≡ truthy s
escape-truthy String.[] = refl
escape-truthy (String.◌∷◌ c s) = elim (Bool-cases (eqb (code c) b'/')) [
  | inl e ↦ rw e (cons-truthy "!" _ ∙ sym (cons-truthy c s))
  | inr e ↦ elim (Bool-cases (eqb (code c) b'!')) [
    | inl f ↦ rw (e, f) (cons-truthy "!" _ ∙ sym (cons-truthy c s))
    | inr f ↦ rw (e, f) (cons-truthy c _ ∙ sym (cons-truthy c s))
  ]
]

abbrev codec : UrlCodec
codec = record {
  Params = Option String;
  parse = read_query;
  print = write_query;
  get = λ key params. params;
  delete = λ key params. none;
  set = λ key value params. some value;
  encode = escape_all;
  decode = λ s. some (unescape false s);
  parse-print = read-write;
  strip-print = write-plain;
  parse-question = read-question;
  get-set = λ key value params. refl;
  get-delete = λ key params. refl;
  decode-encode = λ s. ap some (unescape-escape s);
  encode_plain = escape-plain;
  encode_truthy = escape-truthy;
}

abbrev settings_of_chat : AppRoute
settings_of_chat = record { chat_id = some "a/b"; panel = some settings }

abbrev chat : AppRoute
chat = record { chat_id = some "a/b"; panel = none }

parse_route-build_example :
    parse_route codec
      (path_of codec (some "a/b"))
      (search_of codec (build_query codec settings_of_chat "?old"))
    ≡ some settings_of_chat
parse_route-build_example = parse_route-build codec settings_of_chat "?old" refl

-- A tab that is opened at a chat, where the panel of the chat is opened.
abbrev opened : Shell
opened =
    bootstrap (record { behind = []; current = record { idx = none; route = chat }; forward = [] })

abbrev list_entry : HistoryEntry
list_entry = shell_entry 0 chat_list

-- The way to the list from the panel of a chat goes back by two.
back_by_two :
    navigate chat_list (record {
      history = record {
        behind = shell_entry 1 chat ∷ list_entry ∷ [];
        current = shell_entry 2 settings_of_chat;
        forward = [];
      };
      route = settings_of_chat;
    })
    ≡ some (record {
      history = record {
        behind = [];
        current = list_entry;
        forward = shell_entry 1 chat ∷ shell_entry 2 settings_of_chat ∷ [];
      };
      route = chat_list;
    })
unfolding navigate go_back on_pop_state
back_by_two = refl

-- A replacement from the list gives a chat the index 1 with nothing below, and the way back to the list
-- leaves the page.
replaced_root :
    navigate chat_list (
      navigate_replace chat
        (bootstrap (record { behind = []; current = list_entry; forward = [] })))
    ≡ none
unfolding navigate navigate_replace go_back on_pop_state bootstrap
replaced_root = refl
