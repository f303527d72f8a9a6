-- ===== src/Tests/Reconcile.antt =====
-- Incoming messages at concrete lists: client/src/lib/message-reconcile.ts.
use coachman.Common.{true, false, some, List, [], ◌∷◌, ◌++◌, ◌≡◌, refl}
use coachman.Message.{StoredMessage}
use coachman.Message.Reconcile.{reconcile_base, reconcile_message, upsert_message_in_list}
use coachman.Message.Reconcile.Laws.{MadeOf, Stays, reconcile_message-MadeOf}
use coachman.Tests.Message.{by_code_point, pending_row, echo_row, peer_row, program}

-- The list preview that the peer's message replaces.
abbrev preview_row : StoredMessage
preview_row = record peer_row { id = "s0"; provisional = some true }

abbrev feed : List StoredMessage
feed = preview_row ∷ pending_row ∷ []

peer_is_inserted :
    (reconcile_message by_code_point feed peer_row).messages ≡ pending_row ∷ peer_row ∷ []
unfolding program reconcile_base reconcile_message
peer_is_inserted = refl

echo_is_merged : (reconcile_message by_code_point feed echo_row).updated ≡ true
unfolding program reconcile_base reconcile_message
echo_is_merged = refl

echo_is_upserted : (upsert_message_in_list by_code_point feed echo_row).inserted ≡ false
unfolding program upsert_message_in_list
echo_is_upserted = refl

reconcile_message-MadeOf_example :
    (kept : List StoredMessage) × Stays peer_row feed kept
    × MadeOf (reconcile_message by_code_point feed peer_row).messages (kept ++ peer_row ∷ [])
unfolding program
reconcile_message-MadeOf_example = reconcile_message-MadeOf by_code_point feed peer_row refl
