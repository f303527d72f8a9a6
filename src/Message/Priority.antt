-- ===== src/Message/Priority.antt =====
-- Text before media in a batch: client/src/lib/message-priority.ts.
use coachman.Common.{
  String, Bool, false, ◌||◌, ◌&&◌, not, Option, none, some, List, [], ◌∷◌, ◌++◌, filter, length,
  ltb, if◌then◌else◌, Bool-cases, ◌==◌, ◌≡◌, refl, ap, ◌∙◌, inl, inr, arith,
}
use mathlib.Core.List.{append_assoc, append-nil}

abbrev pub is_media_message_type : Option String → Bool
is_media_message_type none = false
is_media_message_type (some type) = type == "image" || type == "video"

module _ {ℓ} {T : Type ℓ} (type_of : T → Option String) where
  -- One round of the loop on the texts and the media that were pushed.
  unfoldable pub push_row : T → List T × List T → List T × List T
  push_row row (texts, media) =
      if is_media_message_type (type_of row)
      then (texts, media ++ (row ∷ []))
      else (texts ++ (row ∷ []), media)

  unfoldable pub split_rows : List T → List T × List T → List T × List T
  unfolding push_row
  split_rows [] pushed = pushed
  split_rows (row ∷ rows) pushed = split_rows rows (push_row row pushed)

  unfoldable pub prioritize_text_messages : List T → List T
  unfolding split_rows
  prioritize_text_messages rows =
      let (texts, media) = split_rows rows ([], []) in
      if ltb 0 (length texts) && ltb 0 (length media) then texts ++ media else rows

  abbrev pub texts_of : List T → List T
  texts_of rows = filter (λ row. not (is_media_message_type (type_of row))) rows

  abbrev pub media_of : List T → List T
  media_of rows = filter (λ row. is_media_message_type (type_of row)) rows

  no_length : (rows : List T) → ltb 0 (length rows) ≡ false → rows ≡ []
  no_length [] h = refl
  no_length (row ∷ rows) h = ground arith

  split_rows_lem :
      (rows texts media : List T)
      → split_rows rows (texts, media) ≡ (texts ++ texts_of rows, media ++ media_of rows)
  unfolding split_rows push_row
  split_rows_lem [] texts media = rw (append-nil texts, append-nil media) refl
  split_rows_lem (row ∷ rows) texts media =
      elim (Bool-cases (is_media_message_type (type_of row))) [
        | inl e ↦
            rw (e, split_rows)
              (split_rows_lem rows texts (media ++ (row ∷ []))
                ∙ ap (λ r. (texts ++ texts_of rows, r))
                    (append_assoc media (row ∷ []) (media_of rows)))
        | inr e ↦
            rw (e, split_rows)
              (split_rows_lem rows (texts ++ (row ∷ [])) media
                ∙ ap (λ r. (r, media ++ media_of rows))
                    (append_assoc texts (row ∷ []) (texts_of rows)))
      ]

  no_texts :
      (rows : List T)
      → ltb 0 (length (texts_of rows)) ≡ false
      → rows ≡ texts_of rows ++ media_of rows
  no_texts [] h = refl
  no_texts (row ∷ rows) h = elim (Bool-cases (is_media_message_type (type_of row))) [
    | inl e ↦
        let rest = no_texts rows (rw e at h) in
        let none_before : texts_of rows ≡ [] = no_length (texts_of rows) (rw e at h) in
        rw (e, none_before) (ap (λ r. row ∷ r) (rest ∙ rw none_before refl))
    | inr e ↦ let absurd = rw e at h in ground arith
  ]

  no_media :
      (rows : List T)
      → ltb 0 (length (media_of rows)) ≡ false
      → rows ≡ texts_of rows ++ media_of rows
  no_media [] h = refl
  no_media (row ∷ rows) h = elim (Bool-cases (is_media_message_type (type_of row))) [
    | inl e ↦ let absurd = rw e at h in ground arith
    | inr e ↦ let rest = no_media rows (rw e at h) in rw e (ap (λ r. row ∷ r) rest)
  ]

  one_kind :
      (rows : List T)
      → (ltb 0 (length (texts_of rows)) && ltb 0 (length (media_of rows))) ≡ false
      → rows ≡ texts_of rows ++ media_of rows
  one_kind rows h = elim (Bool-cases (ltb 0 (length (texts_of rows)))) [
    | inl e ↦ no_media rows (rw e at h)
    | inr e ↦ no_texts rows e
  ]

  -- The rows are always the texts in their order and then the media in theirs, also when the rows are
  -- returned as they are.
  prioritize_text_messages-texts_first :
      (rows : List T) → prioritize_text_messages rows ≡ texts_of rows ++ media_of rows
  unfolding prioritize_text_messages
  prioritize_text_messages-texts_first rows =
      rw (split_rows_lem rows [] [])
        (elim (Bool-cases (ltb 0 (length (texts_of rows)) && ltb 0 (length (media_of rows)))) [
          | inl e ↦ rw e refl
          | inr e ↦ rw e (one_kind rows e)
        ])
