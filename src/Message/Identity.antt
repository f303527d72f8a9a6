-- ===== src/Message/Identity.antt =====
-- Which rows are one logical message: client/src/lib/message-identity.ts.
pub mod Laws
use coachman.Common.{
  String, Bool, true, false, ◌&&◌, ◌||◌, not, Option, none, some, truthy, present, strip, is_true,
  is_some, default, if◌then◌else◌, ◌==◌,
}
use coachman.Message.{StoredMessage}

abbrev pub pending_prefix : String
pending_prefix = "pending-"

-- `s.startsWith('pending-')`
abbrev pub is_temp : String → Bool
is_temp s = is_some (strip pending_prefix s)

-- `s.replace(/^pending-/, '')`
unfoldable pub bare : String → String
bare s = default s (strip pending_prefix s)

-- The server id of a row with these flags and this `id`.
unfoldable pub server_id_of : Option Bool → Option Bool → String → Option String
server_id_of pending provisional id =
    if is_true pending || is_true provisional
    then none
    else if not (truthy id) || is_temp id
    then none
    else some id

unfoldable pub message_server_id : StoredMessage → Option String
message_server_id m = server_id_of m.pending m.provisional m.id

-- The client key of a row with this `id` and `clientId`.
unfoldable pub client_key_of : String → Option String → Option String
unfolding bare
client_key_of id none = strip pending_prefix id
client_key_of id (some c) = if truthy c then some (bare c) else strip pending_prefix id

unfoldable pub message_client_key : StoredMessage → Option String
message_client_key m = client_key_of m.id m.client_id

-- `a && b && a === b`
abbrev pub same_key : Option String → Option String → Bool
same_key none b = false
same_key (some a) none = false
same_key (some a) (some b) = truthy a && truthy b && a == b

unfoldable pub same_message_identity : StoredMessage → StoredMessage → Bool
same_message_identity a b =
    same_key (some a.id) (some b.id) || same_key (message_client_key a) (message_client_key b)

unfoldable pub is_confirmed : StoredMessage → Bool
is_confirmed m = is_some (message_server_id m)
