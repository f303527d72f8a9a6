-- ===== src/Lists/Flush/Kept.antt =====
-- Which queued changes a pass of client/src/lib/list-sync.ts takes away.
use coachman.Common.{
  ℕ, String, Bool, true, false, subst, some, List, [], ◌∷◌, All, All-of-In, All-sort, ◌≡◌, refl,
  sym, ap, ◌∙◌, ◌⊎◌, inl, inr,
}
use mathlib.Core.Option.{some-injective}
use coachman.Lists.{ListOutboxItem, ListDatabase}
use coachman.Lists.Flush.{
  Answers, Outcome, flushed, skipped, broken, Lists, get_list_outbox_items, flush_known, after_op,
  flush_ops, flush_list_outbox,
}
use coachman.Lists.Flush.Handled.{Handled, Handled-more, flush_op-Keeps}
use coachman.Lists.Flush.Sent.{More, flush_ops-More}

module _ (db : ListDatabase) (k : String) where
  module _ (answers : ListOutboxItem → Answers) (known : String → Bool) where
    -- The row under `k` is as before, or its op, of a known chat, is handled.
    abbrev pub Survives : (ListOutboxItem → Type 0) → db.ops.Rows → Lists db → Type 0
    Survives Q rows r =
        (db.ops.get k r.ops ≡ db.ops.get k rows)
        ⊎ ((op : ListOutboxItem) × Q op
            × (op.id ≡ k)
            × (known op.chat_id ≡ true)
            × Handled op.chat_id (answers op) op.kind r.sent)

    flush_known-Survives :
        (Q : ListOutboxItem → Type 0) (b : Bool) (op : ListOutboxItem) (st : Lists db)
        → known op.chat_id ≡ b
        → Q op
        → Survives Q st.ops (flush_known db answers known b op st).1
    unfolding flush_known
    flush_known-Survives Q false op st e q = inl refl
    flush_known-Survives Q true op st e q =
        elim (flush_op-Keeps db k (answers op) op.kind op st refl) [
          | inl same ↦ inl same
          | inr (under, done) ↦ inr (op, q, under, e, done)
        ]

    Survives-trans :
        (Q : ListOutboxItem → Type 0) (rows : db.ops.Rows) (mid r : Lists db)
        → More db mid r
        → Survives Q rows mid
        → Survives Q mid.ops r
        → Survives Q rows r
    Survives-trans Q rows mid r more (inr (op, q, under, e, done)) h =
        inr
          (op, q, under, e, Handled-more op.chat_id (answers op) op.kind mid.sent r.sent more done)
    Survives-trans Q rows mid r more (inl e) (inr done) = inr done
    Survives-trans Q rows mid r more (inl e) (inl f) = inl (f ∙ e)

    after_op-Survives :
        (Q : ListOutboxItem → Type 0) (rows : db.ops.Rows) (x : Outcome × Lists db)
        (rest : Lists db → ℕ × Lists db)
        → ((st : Lists db) → More db st (rest st).1)
        → ((st : Lists db) → Survives Q st.ops (rest st).1)
        → Survives Q rows x.1
        → Survives Q rows (after_op db answers known x rest).1
    unfolding after_op
    after_op-Survives Q rows (broken, st) rest m h s = s
    after_op-Survives Q rows (skipped, st) rest m h s =
        Survives-trans Q rows st (rest st).1 (m st) s (h st)
    after_op-Survives Q rows (flushed, st) rest m h s =
        Survives-trans Q rows st (rest st).1 (m st) s (h st)

    flush_ops-Survives :
        (Q : ListOutboxItem → Type 0) (ops : List ListOutboxItem) (st : Lists db)
        → All Q ops
        → Survives Q st.ops (flush_ops db answers known ops st).1
    unfolding flush_ops
    flush_ops-Survives Q [] st q = inl refl
    flush_ops-Survives Q (op ∷ ops) st (q, qs) =
        after_op-Survives Q st.ops _ (flush_ops db answers known ops)
          (flush_ops-More db answers known ops) (λ st'. flush_ops-Survives Q ops st' qs)
          (flush_known-Survives Q (known op.chat_id) op st refl q)

  -- After a pass, online or not, a change that was queued under `k` is queued as it was, or its chat is
  -- known and its own request is among those that were sent. Then the server has accepted it, unless it
  -- is a deletion, which is taken out whatever its request comes to, or the addition of an empty text.
  pub flush_list_outbox-keeps :
      (answers : ListOutboxItem → Answers) (known : String → Bool) (online : Bool) (st : Lists db)
      {op : ListOutboxItem}
      → db.ops.get k st.ops ≡ some op
      → (db.ops.get k (flush_list_outbox db answers known online st).1.ops ≡ some op)
        ⊎ ((known op.chat_id ≡ true)
            × Handled op.chat_id
                (answers op)
                op.kind
                (flush_list_outbox db answers known online st).1.sent)
  unfolding flush_list_outbox
  flush_list_outbox-keeps answers known false st e = inl e
  flush_list_outbox-keeps answers known true st {op} e =
      elim (flush_ops-Survives answers known Queued (get_list_outbox_items db st) st all_queued) [
        | inl same ↦ inl (same ∙ e)
        | inr (done_op, queued, under, is_known, done) ↦
            let same : done_op ≡ op =
              some-injective _ _ (sym queued ∙ ap (λ key. db.ops.get key st.ops) under ∙ e) in
            inr (
              subst (λ (o : ListOutboxItem). known o.chat_id ≡ true) same is_known,
              subst
                  (λ (o : ListOutboxItem).
                    Handled o.chat_id (answers o) o.kind
                      (flush_ops db answers known (get_list_outbox_items db st) st).1.sent)
                  same done,
            )
      ]
    where
      Queued : ListOutboxItem → Type 0
      Queued o = db.ops.get o.id st.ops ≡ some o

      all_queued : All Queued (get_list_outbox_items db st)
      all_queued =
          All-sort _ Queued (db.ops.all st.ops)
            (All-of-In Queued (db.ops.all st.ops) (λ o i. (db.ops.all-get o st.ops).0 i))
