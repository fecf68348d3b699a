-- ===== src/Store/Progress.antt =====
-- When a command's append succeeds.
use stackhour.Prelude.{
  ◌+◌, ◌<◌, ◌≡◌, refl, ap, ◌∙◌, Bool, true, false, Option, none, some, List, [], ◌∷◌, arith, ◌++◌,
  str_eq,
}
use stackhour.Result.{Result, ok, err}
use stackhour.Sql.{exists, first, max_of}
use stackhour.Sql.Laws.{insert_new}
use stackhour.Domain.Codec.{Codec}
use stackhour.Domain.Ids.{EventId, CommandId, NodeId, Time}
use stackhour.Domain.Event.{EventDraft}
use stackhour.Domain.Protocol.{HubToNode}
use stackhour.Store.Rows.{EventRow, ReceiptRow, DispatchRow, event_row}
use stackhour.Store.Db.{Db, Tx, settle, ◌>>=◌, ◌>>◌, pure}
use stackhour.Store.Tables.{
  head, i64_max, next_sequence, same_event, insert_event, insert_event_row, insert_receipt_row,
}
use stackhour.Store.Append.{
  AppendOutcome, append_command_bundle, append_new, no_entity, find_receipt, find_event,
  write_entity, write_dispatch, insert_dispatch_row,
}
use stackhour.Store.Log.Effect.{receipt_row}
use stackhour.Store.Atomic.{dispatches_after, after_new, bundle_fresh}

exists-absent {ℓ} :
    {R : Type ℓ} (p : R → Bool) (xs : List R) → first p xs ≡ none → exists p xs ≡ false
unfolding first exists
exists-absent p [] h = refl
exists-absent p (x ∷ xs) h = ground (arith, exists-absent p xs)

same_event-above :
    (r : EventRow) (rows : List EventRow)
    → first (λ (s : EventRow). str_eq s.event_id r.event_id) rows ≡ none
    → max_of (λ (s : EventRow). s.sequence) rows < r.sequence
    → exists (same_event r) rows ≡ false
unfolding first exists max_of
same_event-above r [] h lo = refl
same_event-above r (x ∷ xs) h lo = ground (arith, same_event-above r xs)

next_sequence-room : (db : Db) → head db < i64_max → next_sequence db ≡ ok (head db + 1, db)
unfolding next_sequence
next_sequence-room db h = ground arith

bind-ok :
    {A B : Type 0} (m : Tx A) (f : A → Tx B) (db : Db) {a : A} {db' : Db}
    → m db ≡ ok (a, db')
    → (m >>= f) db ≡ f a db'
bind-ok {A} m f db h =
    ap (λ (x : Result (A × Db)). elim x [ ok (a, db') ↦ f a db' | err e ↦ err e ]) h

then-ok :
    {B : Type 0} (m : Tx (Unit {0})) (k : Tx B) (db : Db) {db' : Db}
    → m db ≡ ok (tt, db')
    → (m >> k) db ≡ k db'
then-ok m k db h = bind-ok m (λ u. k) db h

module _ (c : Codec) where
  insert_event-new :
      (now : Time) (e : EventId) (k : CommandId) (d : EventDraft) (db : Db)
      → find_event (c.uuid_text e) db ≡ none
      → insert_event c (head db + 1) e (some k) d now db
        ≡ ok (
          tt,
          record db { events = db.events ++ event_row c (head db + 1) e (some k) d now ∷ [] },
        )
  unfolding insert_event insert_event_row event_row find_event head
  insert_event-new now e k d db h = ground (
    arith,
    insert_new (same_event (event_row c (head db + 1) e (some k) d now))
        (event_row c (head db + 1) e (some k) d now) db.events
        (same_event-above (event_row c (head db + 1) e (some k) d now) db.events h (omega arith)),
  )

  insert_receipt_row-new :
      (r : ReceiptRow) (db : Db)
      → find_receipt r.command_id db ≡ none
      → insert_receipt_row r db
        ≡ ok (tt, record db { command_receipts = db.command_receipts ++ r ∷ [] })
  unfolding insert_receipt_row find_receipt
  insert_receipt_row-new r db h = ground (
    arith,
    insert_new (λ (s : ReceiptRow). str_eq s.command_id r.command_id) r db.command_receipts
        (exists-absent (λ (s : ReceiptRow). str_eq s.command_id r.command_id) db.command_receipts
          h),
  )

  write_dispatch-new :
      (k : CommandId) (q : Option (NodeId × HubToNode)) (now : Time) (db : Db)
      → exists (λ (s : DispatchRow). str_eq s.command_id (c.uuid_text k)) db.pending_dispatches
        ≡ false
      → write_dispatch c k q now db
        ≡ ok (
          tt,
          record db { pending_dispatches = dispatches_after c k q now db.pending_dispatches },
        )
  unfolding write_dispatch insert_dispatch_row
  write_dispatch-new k none now db h = refl
  write_dispatch-new k (some (n, m)) now db h =
      let row : DispatchRow = record {
        command_id = c.uuid_text k;
        node_id = n;
        message = c.message_text m;
        created_at = c.time_text now;
        acked_at = none;
      } in
      ground (
        arith,
        insert_new (λ (s : DispatchRow). str_eq s.command_id (c.uuid_text k)) row
            db.pending_dispatches h,
      )

  -- A command that is new succeeds: if the log has room, the command has no receipt and no
  -- dispatch, and its fresh event id is not in the log, then the append without an entity returns
  -- the next sequence and leaves the tables with everything written.
  pub append_command_bundle-succeeds :
      (now : Time) (e : EventId) (k : CommandId) (d : EventDraft) (q : Option (NodeId × HubToNode))
      (db : Db)
      → find_receipt (c.uuid_text k) db ≡ none
      → find_event (c.uuid_text e) db ≡ none
      → exists (λ (s : DispatchRow). str_eq s.command_id (c.uuid_text k)) db.pending_dispatches
        ≡ false
      → head db < i64_max
      → append_command_bundle c now e k d no_entity q db ≡ (
        ok (record { sequence = head db + 1; event_id = e; created = true }),
        after_new c now e k d no_entity q db,
      )
  unfolding append_command_bundle append_new write_entity find_receipt
  append_command_bundle-succeeds now e k d q db unseen fresh free room =
      let logged : Db = record db {
        events = db.events ++ event_row c (head db + 1) e (some k) d now ∷ [];
      } in
      let noted : Db = record logged {
        command_receipts = db.command_receipts ++ receipt_row c k (head db + 1) e now ∷ [];
      } in
      let finish : Tx AppendOutcome =
        pure (record { sequence = head db + 1; event_id = e; created = true }) in
      rw (append_command_bundle, bundle_fresh c now e k d no_entity q db unseen)
        (ap (settle db) (
          bind-ok next_sequence _ db (next_sequence-room db room)
          ∙ then-ok (insert_event c (head db + 1) e (some k) d now) _ db
              (insert_event-new now e k d db fresh)
          ∙ then-ok (insert_receipt_row (receipt_row c k (head db + 1) e now))
              (write_entity c no_entity >> (write_dispatch c k q now >> finish)) logged
              (insert_receipt_row-new (receipt_row c k (head db + 1) e now) logged unseen)
          ∙ then-ok (write_entity c no_entity) (write_dispatch c k q now >> finish) noted refl
          ∙ then-ok (write_dispatch c k q now) finish noted
              (write_dispatch-new k q now noted free)))
