-- ===== src/Outbox/Errors.antt =====
-- The classes of errors of a send: client/src/lib/outbox.ts. Its regular expressions are tests on the
-- code points of a message. Upper and lower case are one for Latin and Russian letters, which are all
-- that the expressions hold.
use Prim.Native.Char.{code}
use coachman.Common.{
  ℕ, ◌+◌, String, Bool, true, false, ◌&&◌, ◌||◌, not, List, [], ◌∷◌, any, eqb, leb, if◌then◌else◌,
  ◌==◌,
}

-- What was thrown: an `Error`, or some other value by its text.
pub data Thrown : Type 0 where
  error : (name message : String) (is_dom_exception is_type_error : Bool) → Thrown
  other : String → Thrown

-- `err instanceof Error ? err.message : String(err)`
unfoldable pub message_of : Thrown → String
message_of (error name message d t) = message
message_of (other text) = text

abbrev fold_code : ℕ → ℕ
fold_code c =
    if (leb 65 c && leb c 90) || (leb 1040 c && leb c 1071)
    then c + 32
    else if eqb c 1025
    then 1105
    else c

abbrev folded : String → List ℕ
folded String.[] = []
folded (String.◌∷◌ c s) = fold_code (code c) ∷ folded s

abbrev is_prefix : List ℕ → List ℕ → Bool
is_prefix [] s = true
is_prefix (a ∷ p) [] = false
is_prefix (a ∷ p) (b ∷ s) = eqb a b && is_prefix p s

abbrev occurs : List ℕ → List ℕ → Bool
occurs p [] = is_prefix p []
occurs p (c ∷ s) = is_prefix p (c ∷ s) || occurs p s

-- `/a|b|c/i.test(message)`
unfoldable pub has_any : List String → String → Bool
has_any patterns message = let s = folded message in any (λ p. occurs (folded p) s) patterns

-- The class `\s`.
abbrev pub is_space : ℕ → Bool
is_space c =
    (leb 9 c && leb c 13)
    || (eqb c 32
        || (eqb c 160
            || (eqb c 5760
                || ((leb 8192 c && leb c 8202)
                    || (eqb c 8232
                        || (eqb c 8233
                            || (eqb c 8239 || (eqb c 8287 || (eqb c 12288 || eqb c 65279)))))))))

abbrev without_spaces : List ℕ → List ℕ
without_spaces [] = []
without_spaces (c ∷ s) = let rest = without_spaces s in if is_space c then rest else c ∷ s

-- The class `\w`, of folded characters.
abbrev is_word : ℕ → Bool
is_word c = (leb 48 c && leb c 57) || ((leb 97 c && leb c 122) || eqb c 95)

abbrev ends_here : List ℕ → Bool
ends_here [] = true
ends_here (c ∷ s) = not (is_word c)

abbrev after_code : List ℕ → List ℕ → Bool
after_code [] s = ends_here s
after_code (a ∷ p) [] = false
after_code (a ∷ p) (b ∷ s) = eqb a b && after_code p s

-- `/^\s*502\b/`
unfoldable pub starts_with_code : String → String → Bool
starts_with_code status message = after_code (folded status) (without_spaces (folded message))

-- `!message.trim()`
abbrev is_blank : List ℕ → Bool
is_blank [] = true
is_blank (c ∷ s) = is_space c && is_blank s

-- `/unsupported.*(video|media|format)/i`, within one line
abbrev later_in_line : List (List ℕ) → List ℕ → Bool
later_in_line ps [] = any (λ p. is_prefix p []) ps
later_in_line ps (c ∷ s) =
    any (λ p. is_prefix p (c ∷ s)) ps
    || (not (eqb c 10 || (eqb c 13 || (eqb c 8232 || eqb c 8233))) && later_in_line ps s)

abbrev skip_prefix : List ℕ → List ℕ → List ℕ
skip_prefix [] s = s
skip_prefix (a ∷ p) [] = []
skip_prefix (a ∷ p) (b ∷ s) = skip_prefix p s

abbrev followed_by : List ℕ → List (List ℕ) → List ℕ → Bool
followed_by p ps [] = false
followed_by p ps (c ∷ s) =
    (is_prefix p (c ∷ s) && later_in_line ps (skip_prefix p (c ∷ s))) || followed_by p ps s

abbrev unavailable_texts : List String
unavailable_texts =
    "сервер временно недоступен" ∷ "bad gateway" ∷ "service unavailable" ∷ "gateway timeout" ∷ []

abbrev application_texts : List String
application_texts =
    "unauthorized" ∷ "forbidden" ∷ "internal error" ∷ "bad request" ∷ "ciphertext required"
    ∷ "request failed" ∷ []

abbrev type_error_texts : List String
type_error_texts =
    "fetch" ∷ "network" ∷ "offline" ∷ "load failed" ∷ "connection" ∷ "internet" ∷ "aborted"
    ∷ "cancelled" ∷ "canceled" ∷ "timed out" ∷ "timeout" ∷ "lost" ∷ "hostname" ∷ "unreachable"
    ∷ "SSL" ∷ "TLS" ∷ "kCF" ∷ []

abbrev network_texts : List String
network_texts =
    "failed to fetch" ∷ "networkerror" ∷ "network request failed" ∷ "timeout" ∷ "превышено время"
    ∷ "ожидания ответа" ∷ "offline" ∷ "err_network" ∷ "connection was lost" ∷ "internet connection"
    ∷ []

unfoldable pub is_offline_error : Thrown → Bool
unfolding has_any starts_with_code
is_offline_error (other text) = false
is_offline_error (error name msg is_dom_exception is_type_error) =
    if is_dom_exception && (name == "AbortError" || name == "TimeoutError")
    then true
    else if has_any unavailable_texts msg
        || (starts_with_code "502" msg
            || (starts_with_code "503" msg || starts_with_code "504" msg))
    then true
    else if has_any application_texts msg
    then false
    else if name == "TypeError" || is_type_error
    then is_blank (folded msg) || has_any type_error_texts msg
    else has_any network_texts msg

unfoldable pub is_auth_error : Thrown → Bool
unfolding has_any starts_with_code
is_auth_error (other text) = false
is_auth_error (error name msg d t) = has_any ("unauthorized" ∷ []) msg || starts_with_code "401" msg

unfoldable pub is_forbidden_error : Thrown → Bool
unfolding has_any starts_with_code
is_forbidden_error (other text) = false
is_forbidden_error (error name msg d t) =
    has_any ("forbidden" ∷ []) msg || starts_with_code "403" msg

unfoldable pub is_retryable_error : Thrown → Bool
unfolding is_offline_error is_auth_error
is_retryable_error err = is_offline_error err || is_auth_error err

unfoldable pub is_disposable_system_error : Thrown → Bool
unfolding has_any
is_disposable_system_error (other text) = false
is_disposable_system_error (error name msg d t) =
    has_any ("ciphertext required" ∷ "bad request" ∷ "forbidden" ∷ "not found" ∷ "unsupported" ∷ [])
      msg

abbrev poison_texts : List String
poison_texts =
    "empty image" ∷ "empty video" ∷ "file, iv, mimeType required" ∷ "invalid multipart"
    ∷ "detached arraybuffer" ∷ "слишком бол" ∷ "too large" ∷ "entity too large" ∷ "413" ∷ []

unfoldable pub is_poison_image_error : Thrown → Bool
unfolding has_any
is_poison_image_error (other text) = false
is_poison_image_error (error name msg d t) =
    has_any poison_texts msg
    || followed_by (folded "unsupported") (folded "video" ∷ folded "media" ∷ folded "format" ∷ [])
        (folded msg)
