-- ===== src/Tests/Priority.antt =====
-- Batches of message types: client/src/lib/message-priority.ts.
use coachman.Common.{String, Option, none, some, List, [], ◌∷◌, ◌≡◌, refl}
use coachman.Message.Priority.{push_row, split_rows, prioritize_text_messages}

abbrev batch : List (Option String)
batch = some "image" ∷ some "text" ∷ some "video" ∷ none ∷ []

texts_go_first :
    prioritize_text_messages (λ type. type) batch
    ≡ some "text" ∷ none ∷ some "image" ∷ some "video" ∷ []
unfolding prioritize_text_messages split_rows push_row
texts_go_first = refl
