-- ===== src/Store/Idempotent.antt =====
-- Retries of a command: `append_command_bundle` and `command_outcome` on a stored receipt.
use stackhour.Prelude.{◌+◌, ◌≡◌, ap, ◌∙◌, false, Option, none, some, List, arith, eq_refl}
use stackhour.Result.{Result, ok}
use stackhour.Sql
use stackhour.Sql.Laws.{first-append}
use stackhour.Domain.Codec.{Codec, IsLawful}
use stackhour.Domain.Ids.{EventId, CommandId, NodeId, Time}
use stackhour.Domain.Event.{EventDraft}
use stackhour.Domain.Protocol.{HubToNode}
use stackhour.Store.Rows.{ReceiptRow}
use stackhour.Store.Db.{Db, lift}
use stackhour.Store.Tables.{head}
use stackhour.Store.Append.{
  AppendOutcome, EntityWrite, append_command_bundle, find_receipt, stored_outcome, command_outcome,
}
use stackhour.Store.Machine.{Step, history}
use stackhour.Store.Log.Effect.{receipt_row}
use stackhour.Store.Log.Growth.{history-Grows, find_receipt-Grows}
use stackhour.Store.Atomic.{
  Ending, refused, replayed, applied, append_command_bundle-Ending, bundle_seen, after_new,
}

module _ (c : Codec) where
  -- the database holds the result `o` for the command `k`
  abbrev pub Stored : CommandId → AppendOutcome → Db → Type 0
  Stored k o db =
      (r : ReceiptRow) × (find_receipt (c.uuid_text k) db ≡ some r)
      × (r.sequence ≡ o.sequence)
      × (c.parse_uuid r.event_id ≡ some o.event_id)

  abbrev again : AppendOutcome → AppendOutcome
  again o = record o { created = false }

  module _ (lawful : IsLawful c) where
    find_receipt-after_new :
        (now : Time) (e : EventId) (k : CommandId) (d : EventDraft) (w : EntityWrite)
        (q : Option (NodeId × HubToNode)) (db : Db)
        → find_receipt (c.uuid_text k) db ≡ none
        → find_receipt (c.uuid_text k) (after_new c now e k d w q db)
          ≡ some (receipt_row c k (head db + 1) e now)
    unfolding find_receipt Sql.first
    find_receipt-after_new now e k d w q db h =
        rw first-append (rw h (ground (arith, eq_refl (c.uuid_text k))))

    Ending-Stored :
        (now : Time) (e : EventId) (k : CommandId) (d : EventDraft) (w : EntityWrite)
        (q : Option (NodeId × HubToNode)) (db : Db) {x : Result AppendOutcome × Db}
        {o : AppendOutcome} {db' : Db}
        → Ending c now e k d w q db x
        → x ≡ (ok o, db')
        → Stored k o db'
    Ending-Stored now e k d w q db (refused y) h =
        absurd (cc (ap (λ (r : Result AppendOutcome × Db). r.0) h))
    Ending-Stored now e k d w q db (replayed row i seen good) h =
        (row, ground arith, ground arith, ground arith)
    Ending-Stored now e k d w q db {o = o} (applied fresh) h = (
      receipt_row c k (head db + 1) e now,
      ground (arith, find_receipt-after_new now e k d w q db fresh),
      ground arith,
      lawful.uuid_round e ∙ ground arith,
    )

    replay_Stored :
        (now : Time) (e : EventId) (k : CommandId) (d : EventDraft) (w : EntityWrite)
        (q : Option (NodeId × HubToNode)) (o : AppendOutcome) (db : Db)
        → Stored k o db
        → append_command_bundle c now e k d w q db ≡ (ok (again o), db)
    unfolding append_command_bundle stored_outcome
    replay_Stored now e k d w q o db (r, seen, n, good) =
        rw (bundle_seen c now e k d w q db seen) (rw (good, lift) (ground arith))

    -- Once a command has succeeded, any retry of it succeeds, with any draft, entity, dispatch and
    -- fresh id, after any operations between: it returns the first sequence and event, says that
    -- it created nothing, and changes nothing.
    pub append_command_bundle-replay :
        (now : Time) (e : EventId) (k : CommandId) (d : EventDraft) (w : EntityWrite)
        (q : Option (NodeId × HubToNode)) (db : Db) {o : AppendOutcome} {db' : Db} (ss : List Step)
        (now' : Time) (e' : EventId) (d' : EventDraft) (w' : EntityWrite)
        (q' : Option (NodeId × HubToNode))
        → append_command_bundle c now e k d w q db ≡ (ok o, db')
        → append_command_bundle c now' e' k d' w' q' (history c ss db')
          ≡ (ok (record o { created = false }), history c ss db')
    append_command_bundle-replay now e k d w q db {o} {db'} ss now' e' d' w' q' h =
        let (r, seen, n, good) =
          Ending-Stored now e k d w q db (append_command_bundle-Ending c now e k d w q db) h in
        replay_Stored now' e' k d' w' q' o (history c ss db')
          (r, find_receipt-Grows (c.uuid_text k) (history-Grows c ss db') seen, n, good)

    -- `command_outcome` returns the same result as a retry would.
    pub command_outcome-replay :
        (now : Time) (e : EventId) (k : CommandId) (d : EventDraft) (w : EntityWrite)
        (q : Option (NodeId × HubToNode)) (db : Db) {o : AppendOutcome} {db' : Db} (ss : List Step)
        → append_command_bundle c now e k d w q db ≡ (ok o, db')
        → command_outcome c k (history c ss db') ≡ ok (some (record o { created = false }))
    unfolding command_outcome stored_outcome
    command_outcome-replay now e k d w q db {o} {db'} ss h =
        let (r, seen, n, good) =
          Ending-Stored now e k d w q db (append_command_bundle-Ending c now e k d w q db) h in
        ground (arith, find_receipt-Grows (c.uuid_text k) (history-Grows c ss db') seen)
