-- ===== src/Store/Messages/Roundtrip.antt =====
-- Writing an outbox item and reading it again: client/src/lib/storage.ts.
use coachman.Common.{
  ℕ, ◌<◌, Bool, true, false, ◌&&◌, not, List, length, eqb, ltb, Bool-cases, ◌≡◌, refl, inl, inr,
  arith,
}
use coachman.Outbox.{OutboxItem, is_media}
use coachman.Outbox.Safe.Failure.{payload}
use coachman.Store.Messages.{
  written_preview, read_preview, prepare_outbox_for_write, normalize_outbox_item,
}

-- Whether the preview of an item is written.
abbrev keeps_preview : OutboxItem → Bool
keeps_preview item =
    ltb 0 (length item.preview_data)
    && not (eqb (length item.preview_data) (length item.image_bytes))

read_written :
    (b : Bool) (preview bytes : List ℕ)
    → ((ltb 0 (length preview) && not (eqb (length preview) (length bytes))) ≡ true
        → read_preview b (written_preview b preview bytes) bytes ≡ preview)
      × (b ≡ true
          → 0 < length bytes
          → 0 < length (read_preview b (written_preview b preview bytes) bytes))
read_written false preview bytes = (λ h. refl, λ e. cc)
read_written true preview bytes =
    elim (Bool-cases (ltb 0 (length preview) && not (eqb (length preview) (length bytes)))) [
      | inr f ↦ rw f (λ h. cc, λ e h. h)
      | inl f ↦
          let some_bytes : eqb (length preview) 0 ≡ false = ground arith in
          rw (f, some_bytes) (λ h. refl, λ e h. ground arith)
    ]

-- What is promised of the row that is read.
pub record ReadsBack (item row : OutboxItem) : Type 0 where
  pub content : payload row ≡ payload item
  pub upload : row.uploaded_image_id ≡ item.uploaded_image_id
  pub failure : row.failed_at ≡ item.failed_at
  pub preview : keeps_preview item ≡ true → row.preview_data ≡ item.preview_data
  pub shown : is_media item.kind ≡ true → 0 < length item.image_bytes → 0 < length row.preview_data

-- An item that was written is read with all that it carries, the id of its upload and the mark of its
-- failure. A preview that is not empty and has another length than the payload comes back as it was,
-- and a photo or video with bytes is never read without a preview.
pub normalize_outbox_item-prepare :
    (item : OutboxItem) → ReadsBack item (normalize_outbox_item (prepare_outbox_for_write item))
unfolding normalize_outbox_item prepare_outbox_for_write payload
normalize_outbox_item-prepare item =
    let (kept, some_shown) = read_written (is_media item.kind) item.preview_data item.image_bytes in
    record { content = refl; upload = refl; failure = refl; preview = kept; shown = some_shown }
