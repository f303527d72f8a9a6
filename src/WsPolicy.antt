-- ===== src/WsPolicy.antt =====
-- The policy of the live socket: client/src/lib/ws-policy.ts.
pub mod Backoff
use Prim.Native.Char.{code}
use Prim.Native.String
use coachman.Common.{
  ℕ, ◌+◌, ◌-◌, ◌*◌, ◌^◌, min, String, Bool, true, false, ◌&&◌, ◌||◌, leb, eqb, if◌then◌else◌, ◌==◌,
}

-- `location.protocol` and `location.host` of the page.
unfoldable pub websocket_url : String → String → String
websocket_url protocol host =
    let scheme : String = if protocol == "https:" then "wss:" else "ws:" in
    String.◌++◌ scheme (String.◌++◌ "//" (String.◌++◌ host "/ws"))

abbrev pub lower : ℕ → ℕ
lower c = if leb b'A' c && leb c b'Z' then c + 32 else c

-- The text starts with the word, whose letters are small ones, in any case.
unfoldable pub starts_with_word : String → String → Bool
starts_with_word String.[] text = true
starts_with_word (String.◌∷◌ c word) String.[] = false
starts_with_word (String.◌∷◌ c word) (String.◌∷◌ d text) =
    eqb (code c) (lower (code d)) && starts_with_word word text

unfoldable pub has_word : String → String → Bool
unfolding starts_with_word
has_word word String.[] = starts_with_word word ""
has_word word (String.◌∷◌ c text) = starts_with_word word (String.◌∷◌ c text) || has_word word text

-- `/iPhone|iPad|iPod|Android/i`
unfoldable pub should_pause_when_hidden : String → Bool → Bool
unfolding has_word
should_pause_when_hidden user_agent standalone =
    standalone
    || (has_word "iphone" user_agent
        || (has_word "ipad" user_agent
            || (has_word "ipod" user_agent || has_word "android" user_agent)))

unfoldable pub should_close_socket_immediately : Bool → Bool → Bool
should_close_socket_immediately native_android keep_alive =
    if keep_alive then false else native_android

-- The first reconnect is immediate.
unfoldable pub reconnect_delay_ms : ℕ → ℕ
reconnect_delay_ms attempt = if leb attempt 1 then 0 else min 8000 (400 * 2 ^ min (attempt - 2) 8)
