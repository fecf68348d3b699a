-- ===== src/Store/Entities.antt =====
-- Direct writes of tasks, runs and nodes, of crates/stackhour-domain/src/store.rs.
use stackhour.Prelude.{String, none, str_eq}
use stackhour.Result.{Result, ok}
use stackhour.Sql
use stackhour.Domain.Codec.{Codec}
use stackhour.Domain.Ids.{TaskId, RunId, NodeId, Time}
use stackhour.Domain.TaskStatus
use stackhour.Domain.RunStatus
use stackhour.Domain.AccessPolicy.{AccessPolicy}
use stackhour.Domain.Entities.{Task, Run, Node}
use stackhour.Store.Rows.{NodeRow, node_row}
use stackhour.Store.Db.{Db, pure, write, transaction, ◌>>◌}
use stackhour.Store.Tables.{insert_task_row, insert_run_row}

module _ (c : Codec) where
  unfoldable pub insert_task : Task → Db → Result (Unit {0}) × Db
  insert_task task = transaction (insert_task_row c task)

  -- `id` is the fresh `TaskId::new()`, `now` is `Utc::now()`
  unfoldable pub create_task : TaskId → Time → String → Db → Result Task × Db
  create_task id now title =
      let task : Task = record {
        id = id;
        title = title;
        status = TaskStatus.opened;
        created_at = now;
      } in
      transaction (do insert_task_row c task; pure task)

  unfoldable pub insert_run : Run → Db → Result (Unit {0}) × Db
  insert_run run = transaction (insert_run_row c run)

  unfoldable pub start_run :
      RunId → Time → TaskId → NodeId → String → AccessPolicy → Db → Result Run × Db
  start_run id now task_id node_id engine access_policy =
      let run : Run = record {
        id = id;
        task_id = task_id;
        node_id = node_id;
        engine = engine;
        model = none;
        reasoning_effort = none;
        system_prompt = none;
        access_policy = access_policy;
        workspace_path = none;
        status = RunStatus.started;
        started_at = now;
      } in
      transaction (do insert_run_row c run; pure run)

  -- every column but the key is replaced
  unfoldable pub upsert_node : Node → Db → Result (Unit {0}) × Db
  unfolding node_row
  upsert_node node =
      let r = node_row c node in
      transaction (
        write λ db. ok (record db {
          nodes = Sql.upsert (λ (s : NodeRow). str_eq s.node_id r.node_id) (λ s. r) r db.nodes;
        }))
