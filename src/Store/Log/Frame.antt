-- ===== src/Store/Log/Frame.antt =====
-- The writes beside an event: what they do to the log and to the receipts.
use stackhour.Prelude.{ℕ, ◌≡◌, Option, none, some, arith}
use stackhour.Result.{ok}
use stackhour.Domain.Codec.{Codec}
use stackhour.Domain.Ids.{EventId, CommandId, NodeId, Time}
use stackhour.Domain.Event.{EventDraft}
use stackhour.Domain.Protocol.{HubToNode}
use stackhour.Store.Db.{Db}
use stackhour.Store.Append.{
  EntityWrite, no_entity, task_entity, run_entity, write_entity, write_dispatch, wake_assistant,
  insert_wake_row, set_run_status, set_task_status, apply_terminal_lifecycle_and_wake,
}

pub record SameLog (a b : Db) : Type 0 where
  pub events : b.events ≡ a.events
  pub receipts : b.command_receipts ≡ a.command_receipts

module _ (c : Codec) where
  pub write_entity-SameLog :
      (e : EntityWrite) (db : Db) {u : Unit {0}} {db' : Db}
      → write_entity c e db ≡ ok (u, db')
      → SameLog db db'
  unfolding write_entity
  write_entity-SameLog no_entity db h = ground arith
  write_entity-SameLog (task_entity t) db h = ground arith
  write_entity-SameLog (run_entity r) db h = ground arith

  pub write_dispatch-SameLog :
      (k : CommandId) (d : Option (NodeId × HubToNode)) (now : Time) (db : Db) {u : Unit {0}}
      {db' : Db}
      → write_dispatch c k d now db ≡ ok (u, db')
      → SameLog db db'
  unfolding write_dispatch
  write_dispatch-SameLog k none now db h = ground arith
  write_dispatch-SameLog k (some (node_id, message)) now db h = ground arith

  pub terminal-SameLog :
      (e : EventId) (n : ℕ) (d : EventDraft) (now : Time) (db : Db) {u : Unit {0}} {db' : Db}
      → apply_terminal_lifecycle_and_wake c e n d now db ≡ ok (u, db')
      → SameLog db db'
  unfolding apply_terminal_lifecycle_and_wake wake_assistant insert_wake_row set_run_status
      set_task_status
  terminal-SameLog e n d now db h = ground arith
