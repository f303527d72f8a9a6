-- ===== src/Message/Merge/Again.antt =====
-- The fields of a row that is merged again: client/src/lib/message-identity.ts.
use coachman.Common.{
  String, true, false, ◌||◌, Option, none, some, present, ◌≡◌, refl, sym, ◌∙◌, strip, arith,
  Option-cases, inl, inr,
}
use coachman.Message.{StoredMessage}
use coachman.Message.Identity.{
  pending_prefix, message_server_id, client_key_of, message_client_key, is_confirmed,
}
use coachman.Message.Merge.{merge_rows}
use coachman.Message.Merge.Confirm.{
  server_id_of-inv, message_server_id-own, message_server_id-merge_rows, is_confirmed-merge_rows,
}
use coachman.Message.Unchanged.{same_opt_text}
use coachman.Message.Merge.Fields.{
  coalesce-left, coalesce-right, coalesce-again, or_opt-left, or_opt-right, prefer-left,
  prefer-right, prefer-again, or_opt_again, same_opt_text_of_eq, present-or_opt, join-left,
  join-right, join-again,
}

-- Field by field: what `message_unchanged` asks for, the fields joined by `||` up to falsy values.
pub record Agrees (a b : StoredMessage) : Type 0 where
  pub id : a.id ≡ b.id
  pub chat_id : a.chat_id ≡ b.chat_id
  pub sender_id : a.sender_id ≡ b.sender_id
  pub sender_name : a.sender_name ≡ b.sender_name
  pub text : a.text ≡ b.text
  pub type : a.type ≡ b.type
  pub image_url : same_opt_text a.image_url b.image_url ≡ true
  pub poster_url : same_opt_text a.poster_url b.poster_url ≡ true
  pub image_id : a.image_id ≡ b.image_id
  pub album_id : a.album_id ≡ b.album_id
  pub reply_to_message_id : a.reply_to_message_id ≡ b.reply_to_message_id
  pub reply_to_sender_id : a.reply_to_sender_id ≡ b.reply_to_sender_id
  pub reply_to_sender_name : a.reply_to_sender_name ≡ b.reply_to_sender_name
  pub reply_to_preview : a.reply_to_preview ≡ b.reply_to_preview
  pub reply_to_type : a.reply_to_type ≡ b.reply_to_type
  pub client_id : same_opt_text a.client_id b.client_id ≡ true
  pub sequence : a.sequence ≡ b.sequence
  pub created_at : a.created_at ≡ b.created_at
  pub pending : a.pending ≡ b.pending
  pub provisional : a.provisional ≡ b.provisional
  pub failed : a.failed ≡ b.failed
  pub error : a.error ≡ b.error

-- Without a client id the client key can only come from a temporary id.
absent_key :
    (id : String) (c : Option String)
    → present c ≡ false
    → client_key_of id c ≡ strip pending_prefix id
unfolding client_key_of
absent_key id none h = refl
absent_key id (some x) h = ground arith

module _ (p s : StoredMessage) where
  abbrev pub merged : StoredMessage
  merged = merge_rows p s

  conf-left : (is_confirmed p || is_confirmed merged) ≡ (is_confirmed p || is_confirmed s)
  conf-left = rw is_confirmed-merge_rows (ground arith)

  conf-right : (is_confirmed merged || is_confirmed s) ≡ (is_confirmed p || is_confirmed s)
  conf-right = rw is_confirmed-merge_rows (ground arith)

  conf-again : (is_confirmed merged || is_confirmed p) ≡ (is_confirmed p || is_confirmed s)
  conf-again = rw is_confirmed-merge_rows (ground arith)

  id-left : merged.id ≡ (merge_rows p merged).id
  unfolding merge_rows
  id-left = ground (arith, message_server_id-merge_rows p s)

  id-right : merged.id ≡ (merge_rows merged s).id
  unfolding merge_rows
  id-right = ground (arith, message_server_id-merge_rows p s)

  id-again : merged.id ≡ (merge_rows merged p).id
  unfolding merge_rows
  id-again = ground (arith, message_server_id-merge_rows p s)

  pub joined : present merged.client_id ≡ (
      present p.client_id
      || (present s.client_id
          || (present (message_client_key p) || present (message_client_key s))))
  unfolding merge_rows
  joined = rw (present-or_opt, present-or_opt, present-or_opt)

  unconfirmed_id : message_server_id merged ≡ none → merged.id ≡ p.id
  unfolding merge_rows
  unconfirmed_id e = rw (sym (message_server_id-merge_rows p s) ∙ e)

  -- Where the merged row has no client id, it has no client key either.
  pub no_client_id : present merged.client_id ≡ false → present (message_client_key merged) ≡ false
  unfolding message_client_key message_server_id
  no_client_id h =
      rw (absent_key merged.id merged.client_id h) (elim (Option-cases (message_server_id merged)) [
        | inr (x, e) ↦
            let own : x ≡ merged.id = message_server_id-own merged e in
            let inv = server_id_of-inv merged.pending merged.provisional merged.id e in
            rw (← own, inv.2) refl
        | inl e ↦
            let q = sym joined ∙ h in
            let k : present p.client_id ≡ false = ground arith in
            rw (unconfirmed_id e, ← absent_key p.id p.client_id k) (ground arith)
      ])

  client-left : same_opt_text merged.client_id (merge_rows p merged).client_id ≡ true
  unfolding merge_rows
  client-left =
      join-left p.client_id s.client_id (message_client_key p) (message_client_key s)
        (message_client_key merged) no_client_id

  client-right : same_opt_text merged.client_id (merge_rows merged s).client_id ≡ true
  unfolding merge_rows
  client-right =
      join-right p.client_id s.client_id (message_client_key p) (message_client_key s)
        (message_client_key merged) no_client_id

  client-again : same_opt_text merged.client_id (merge_rows merged p).client_id ≡ true
  unfolding merge_rows
  client-again =
      join-again p.client_id s.client_id (message_client_key p) (message_client_key s)
        (message_client_key merged) no_client_id

  pub Agrees-left : Agrees merged (merge_rows p merged)
  unfolding merge_rows
  Agrees-left = record {
    id = id-left;
    chat_id = refl;
    sender_id = refl;
    sender_name = ground arith;
    text = sym (prefer-left p.text s.text);
    type = refl;
    image_url = same_opt_text_of_eq (sym (or_opt-left p.image_url s.image_url));
    poster_url = same_opt_text_of_eq (sym (or_opt-left p.poster_url s.poster_url));
    image_id = sym (coalesce-left p.image_id s.image_id);
    album_id = sym (coalesce-left p.album_id s.album_id);
    reply_to_message_id = sym (coalesce-left p.reply_to_message_id s.reply_to_message_id);
    reply_to_sender_id = sym (coalesce-left p.reply_to_sender_id s.reply_to_sender_id);
    reply_to_sender_name = sym (coalesce-left p.reply_to_sender_name s.reply_to_sender_name);
    reply_to_preview = sym (coalesce-left p.reply_to_preview s.reply_to_preview);
    reply_to_type = sym (coalesce-left p.reply_to_type s.reply_to_type);
    client_id = client-left;
    sequence = sym (coalesce-left p.sequence s.sequence);
    created_at = refl;
    pending = rw conf-left (ground arith);
    provisional = rw conf-left (ground arith);
    failed = rw conf-left (ground arith);
    error = rw conf-left (ground arith);
  }

  pub Agrees-right : Agrees merged (merge_rows merged s)
  unfolding merge_rows
  Agrees-right = record {
    id = id-right;
    chat_id = refl;
    sender_id = refl;
    sender_name = ground arith;
    text = sym (prefer-right p.text s.text);
    type = refl;
    image_url = same_opt_text_of_eq (sym (or_opt-right p.image_url s.image_url));
    poster_url = same_opt_text_of_eq (sym (or_opt-right p.poster_url s.poster_url));
    image_id = sym (coalesce-right p.image_id s.image_id);
    album_id = sym (coalesce-right p.album_id s.album_id);
    reply_to_message_id = sym (coalesce-right p.reply_to_message_id s.reply_to_message_id);
    reply_to_sender_id = sym (coalesce-right p.reply_to_sender_id s.reply_to_sender_id);
    reply_to_sender_name = sym (coalesce-right p.reply_to_sender_name s.reply_to_sender_name);
    reply_to_preview = sym (coalesce-right p.reply_to_preview s.reply_to_preview);
    reply_to_type = sym (coalesce-right p.reply_to_type s.reply_to_type);
    client_id = client-right;
    sequence = sym (coalesce-right p.sequence s.sequence);
    created_at = refl;
    pending = rw conf-right (ground arith);
    provisional = rw conf-right (ground arith);
    failed = rw conf-right (ground arith);
    error = rw conf-right (ground arith);
  }

  pub Agrees-again : Agrees merged (merge_rows merged p)
  unfolding merge_rows
  Agrees-again = record {
    id = id-again;
    chat_id = refl;
    sender_id = refl;
    sender_name = ground arith;
    text = sym (prefer-again p.text s.text);
    type = refl;
    image_url = or_opt_again p.image_url s.image_url;
    poster_url = or_opt_again p.poster_url s.poster_url;
    image_id = sym (coalesce-again p.image_id s.image_id);
    album_id = sym (coalesce-again p.album_id s.album_id);
    reply_to_message_id = sym (coalesce-again p.reply_to_message_id s.reply_to_message_id);
    reply_to_sender_id = sym (coalesce-again p.reply_to_sender_id s.reply_to_sender_id);
    reply_to_sender_name = sym (coalesce-again p.reply_to_sender_name s.reply_to_sender_name);
    reply_to_preview = sym (coalesce-again p.reply_to_preview s.reply_to_preview);
    reply_to_type = sym (coalesce-again p.reply_to_type s.reply_to_type);
    client_id = client-again;
    sequence = sym (coalesce-again p.sequence s.sequence);
    created_at = refl;
    pending = rw conf-again (ground arith);
    provisional = rw conf-again (ground arith);
    failed = rw conf-again (ground arith);
    error = rw conf-again (ground arith);
  }
