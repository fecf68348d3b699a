-- ===== src/Store/Dispatch.antt =====
-- The durable queue of hub-to-node commands, of crates/stackhour-domain/src/store.rs.
pub mod Queue
use stackhour.Prelude.{ℕ, String, Bool, true, false, Option, none, some, List, str_eq, ◌&&◌, ◌==◌}
use stackhour.Result.{Result, ok, err, conversion, or_fail, ◌>>=◌}
use stackhour.Sql
use stackhour.Domain.Codec.{Codec}
use stackhour.Domain.Ids.{CommandId, NodeId, Time}
use stackhour.Domain.Protocol.{HubToNode}
use stackhour.Store.Rows.{DispatchRow, req_id, read_time}
use stackhour.Store.Db.{Db}

pub record PendingDispatch : Type 0 where
  pub command_id : CommandId
  pub node_id : NodeId
  pub message : HubToNode
  pub created_at : Time

abbrev pub is_null {ℓ} : {A : Type ℓ} → Option A → Bool
is_null none = true
is_null (some a) = false

-- WHERE node_id = ?1 AND acked_at IS NULL
abbrev pub waits_for : String → DispatchRow → Bool
waits_for node_id r = str_eq r.node_id node_id && is_null r.acked_at

-- WHERE command_id = ?2 AND acked_at IS NULL
abbrev pub unacked : String → DispatchRow → Bool
unacked k r = str_eq r.command_id k && is_null r.acked_at

-- WHERE command_id = ?2 AND node_id = ?3 AND acked_at IS NULL
abbrev pub unacked_at : String → String → DispatchRow → Bool
unacked_at k node_id r = str_eq r.command_id k && (str_eq r.node_id node_id && is_null r.acked_at)

-- UPDATE pending_dispatches SET acked_at = … WHERE …, and whether one row changed
unfoldable pub acknowledge : (DispatchRow → Bool) → String → Db → Bool × Db
acknowledge p acked_at db = (
  Sql.changed p db.pending_dispatches == 1,
  record db {
    pending_dispatches =
        Sql.update p (λ (r : DispatchRow). record r { acked_at = some acked_at })
          db.pending_dispatches;
  },
)

-- the rows that wait for a node, in the order of their insertion
unfoldable pub waiting : String → Db → List DispatchRow
waiting node_id db = Sql.select (waits_for node_id) db.pending_dispatches

module _ (c : Codec) where
  unfoldable pub row_to_dispatch : DispatchRow → Result PendingDispatch
  row_to_dispatch row = do
    command_id ← req_id c row.command_id
    message ← or_fail (c.parse_message row.message) conversion
    created_at ← read_time c row.created_at
    ok (record {
      command_id = command_id;
      node_id = row.node_id;
      message = message;
      created_at = created_at;
    })

  unfoldable pub pending_dispatches : NodeId → Db → Result (List PendingDispatch)
  unfolding waiting
  pending_dispatches node_id db = Sql.collect row_to_dispatch (waiting node_id db)

  unfoldable pub acknowledge_dispatch : Time → CommandId → Db → Bool × Db
  unfolding acknowledge
  acknowledge_dispatch now command_id =
      acknowledge (unacked (c.uuid_text command_id)) (c.time_text now)

  unfoldable pub acknowledge_dispatch_from : Time → CommandId → NodeId → Db → Bool × Db
  unfolding acknowledge
  acknowledge_dispatch_from now command_id node_id =
      acknowledge (unacked_at (c.uuid_text command_id) node_id) (c.time_text now)
