-- ===== src/Store/Dispatch/Queue.antt =====
-- A node's queue under `append_command_bundle` and `acknowledge_dispatch_from`.
use stackhour.Prelude.{
  ◌<◌, String, ◌≡◌, refl, true, false, not, none, some, List, [], ◌∷◌, ◌++◌, arith, str_eq, eq_refl,
  ◌&&◌,
}
use mathlib.Core.List.{append-nil}
use stackhour.Result.{ok}
use stackhour.Sql.{select, update}
use stackhour.Sql.Laws.{select-append, collect-snoc, changed-update, update-update}
use stackhour.Domain.Codec.{Codec, IsLawful, year_10000}
use stackhour.Domain.Ids.{EventId, CommandId, NodeId, Time}
use stackhour.Domain.Event.{EventDraft}
use stackhour.Domain.Protocol.{HubToNode}
use stackhour.Store.Rows.{DispatchRow}
use stackhour.Store.Db.{Db}
use stackhour.Store.Append.{AppendOutcome, EntityWrite, append_command_bundle}
use stackhour.Store.Dispatch.{
  PendingDispatch, waits_for, unacked_at, waiting, row_to_dispatch, pending_dispatches,
  acknowledge_dispatch_from,
}
use stackhour.Store.Atomic.{append_command_bundle-created}

-- the rows that an acknowledgement of the command by the node leaves
abbrev pub left_by : String → String → List DispatchRow → List DispatchRow
left_by k node_id =
    select (λ (r : DispatchRow). not (str_eq r.command_id k && str_eq r.node_id node_id))

waiting-acked :
    (k node_id m at : String) (rows : List DispatchRow)
    → select
        (waits_for m)
        (update (unacked_at k node_id) (λ (r : DispatchRow). record r { acked_at = some at }) rows)
      ≡ left_by k node_id (select (waits_for m) rows)
unfolding select update
waiting-acked k node_id m at [] = refl
waiting-acked k node_id m at (r ∷ rows) = ground (arith, waiting-acked k node_id m at rows)

acked_fails :
    (k node_id at : String) (r : DispatchRow)
    → unacked_at k node_id r ≡ true
    → unacked_at k node_id (record r { acked_at = some at }) ≡ false
acked_fails k node_id at r h = ground arith

module _ (c : Codec) where
  -- An acknowledgement takes just the command's dispatch to the acknowledging node out of every
  -- node's queue: no other command's, and no other node's.
  pub acknowledge_dispatch_from-waiting :
      (now : Time) (k : CommandId) (node_id m : NodeId) (db : Db)
      → waiting m (acknowledge_dispatch_from c now k node_id db).1
        ≡ left_by (c.uuid_text k) node_id (waiting m db)
  unfolding acknowledge_dispatch_from waiting
  acknowledge_dispatch_from-waiting now k node_id m db =
      waiting-acked (c.uuid_text k) node_id m (c.time_text now) db.pending_dispatches

  -- A repeated acknowledgement reports that nothing changed, and changes nothing.
  pub acknowledge_dispatch_from-again :
      (now later : Time) (k : CommandId) (node_id : NodeId) (db : Db)
      → let after = (acknowledge_dispatch_from c now k node_id db).1 in
        acknowledge_dispatch_from c later k node_id after ≡ (false, after)
  unfolding acknowledge_dispatch_from
  acknowledge_dispatch_from-again now later k node_id db = ground (
    arith,
    changed-update (unacked_at (c.uuid_text k) node_id)
        (λ (r : DispatchRow). record r { acked_at = some (c.time_text now) })
        (acked_fails (c.uuid_text k) node_id (c.time_text now)) db.pending_dispatches,
    update-update (unacked_at (c.uuid_text k) node_id)
        (λ (r : DispatchRow). record r { acked_at = some (c.time_text now) })
        (λ (r : DispatchRow). record r { acked_at = some (c.time_text later) })
        (acked_fails (c.uuid_text k) node_id (c.time_text now)) db.pending_dispatches,
  )

  module _ (now : Time) (e : EventId) (k : CommandId) (d : EventDraft) (w : EntityWrite)
      (node_id : NodeId) (message : HubToNode) (db : Db) {o : AppendOutcome} {db' : Db}
      (applied : append_command_bundle c now e k d w (some (node_id, message)) db ≡ (ok o, db'))
      (new : o.created ≡ true) where
    row : DispatchRow
    row = record {
      command_id = c.uuid_text k;
      node_id = node_id;
      message = c.message_text message;
      created_at = c.time_text now;
      acked_at = none;
    }

    queue_after : (m : NodeId) → waiting m db' ≡ waiting m db ++ select (waits_for m) (row ∷ [])
    unfolding waiting row
    queue_after m =
        rw
          ((append_command_bundle-created c now e k d w (some (node_id, message)) db applied new).2)
          (select-append (waits_for m) db.pending_dispatches (row ∷ []))

    own_row : select (waits_for node_id) (row ∷ []) ≡ row ∷ []
    unfolding select row
    own_row = ground (arith, eq_refl node_id)

    row_reads :
        IsLawful c
        → now < year_10000
        → c.parse_message (c.message_text message) ≡ some message
        → row_to_dispatch c row
          ≡ ok (record { command_id = k; node_id = node_id; message = message; created_at = now })
    unfolding row_to_dispatch row
    row_reads lawful dated readable =
        ground (arith, readable, lawful.uuid_round k, lawful.time_round now dated)

    -- A new command's dispatch is the last one in its node's queue, with its command, its message
    -- and the time of the command; what waited before still waits.
    pub pending_dispatches-bundle :
        {before : List PendingDispatch}
        → IsLawful c
        → now < year_10000
        → c.parse_message (c.message_text message) ≡ some message
        → pending_dispatches c node_id db ≡ ok before
        → pending_dispatches c node_id db'
          ≡ ok (
              before
              ++ record { command_id = k; node_id = node_id; message = message; created_at = now }
                ∷ [])
    unfolding pending_dispatches
    pending_dispatches-bundle lawful dated readable h = rw (queue_after node_id) (
        rw own_row (
          collect-snoc (row_to_dispatch c) (waiting node_id db) row h
            (row_reads lawful dated readable)))

    -- The queues of the other nodes stay as they are.
    pub waiting-bundle_other :
        (m : NodeId) → str_eq node_id m ≡ false → waiting m db' ≡ waiting m db
    unfolding select row
    waiting-bundle_other m h = ground (arith, queue_after m, append-nil (waiting m db))
