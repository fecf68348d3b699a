-- ===== src/Store/Rows/Roundtrip.antt =====
-- The mappers `row_to_*` on the rows that the store writes.
use stackhour.Prelude.{ℕ, ◌<◌, ◌≡◌, refl, Option, none, some, arith}
use stackhour.Result.{ok}
use stackhour.Domain.Codec.{Codec, IsLawful, year_10000}
use stackhour.Domain.Ids.{EventId, CommandId, Time}
use stackhour.Domain.EventKind
use stackhour.Domain.TaskStatus
use stackhour.Domain.RunStatus
use stackhour.Domain.AccessPolicy
use stackhour.Domain.Decision
use stackhour.Domain.ConnectionStatus
use stackhour.Domain.Event.{Event, EventDraft}
use stackhour.Domain.Entities.{Node, Task, Run, Approval}
use stackhour.Store.Rows.{
  event_row, row_to_event, task_row, row_to_task, run_row, row_to_run, approval_row,
  row_to_approval, node_row, row_to_node, opt_id, req_id, map_text, opt_time,
}

-- The event that a draft becomes.
abbrev pub stamped : ℕ → EventId → Option CommandId → EventDraft → Time → Event
stamped n e k d now = record {
  sequence = n;
  event_id = e;
  command_id = k;
  kind = d.kind;
  task_id = d.task_id;
  run_id = d.run_id;
  provider_session_id = d.provider_session_id;
  node_id = d.node_id;
  protocol_version = d.protocol_version;
  occurred_at = d.occurred_at;
  hub_received_at = now;
  payload = d.payload;
}

-- an optional time within the range that has a text
abbrev pub Dated : Option Time → Type 0
Dated none = Unit {0}
Dated (some t) = t < year_10000

module _ (c : Codec) (lawful : IsLawful c) where
  req_id-uuid_text : (u : ℕ) → req_id c (c.uuid_text u) ≡ ok u
  req_id-uuid_text u = ground (arith, lawful.uuid_round u)

  opt_id-map_text : (o : Option ℕ) → opt_id c (map_text c.uuid_text o) ≡ ok o
  opt_id-map_text none = refl
  opt_id-map_text (some u) = ground (arith, lawful.uuid_round u)

  opt_time-map_text : (o : Option Time) → Dated o → opt_time c (map_text c.time_text o) ≡ ok o
  opt_time-map_text none h = refl
  opt_time-map_text (some t) h = ground (arith, lawful.time_round t h)

  -- A draft whose payload survives its JSON text, written at a time before the year 10000, reads
  -- back as the event with the draft's fields and the hub's stamps.
  pub row_to_event-event_row :
      (n : ℕ) (e : EventId) (k : Option CommandId) (d : EventDraft) (now : Time)
      → c.parse_json (c.json_text d.payload) ≡ some d.payload
      → d.occurred_at < year_10000
      → now < year_10000
      → row_to_event c (event_row c n e k d now) ≡ ok (stamped n e k d now)
  unfolding row_to_event event_row
  row_to_event-event_row n e k d now payload occurred received =
      rw (EventKind.from_dotted-as_str d.kind) (
        rw
          (
            payload,
            req_id-uuid_text e,
            opt_id-map_text k,
            req_id-uuid_text d.task_id,
            opt_id-map_text d.run_id,
            lawful.time_round d.occurred_at occurred,
            lawful.time_round now received,
          )
          refl)

  -- A task created before the year 10000 reads back as it was written.
  pub row_to_task-task_row :
      (t : Task) → t.created_at < year_10000 → row_to_task c (task_row c t) ≡ ok t
  unfolding row_to_task task_row
  row_to_task-task_row t h =
      rw (req_id-uuid_text t.id)
        (rw (TaskStatus.from_db-as_str t.status, lawful.time_round t.created_at h) refl)

  -- A run started before the year 10000 reads back as it was written.
  pub row_to_run-run_row : (r : Run) → r.started_at < year_10000 → row_to_run c (run_row c r) ≡ ok r
  unfolding row_to_run run_row
  row_to_run-run_row r h = rw (req_id-uuid_text r.id) (
      rw
        (
          req_id-uuid_text r.task_id,
          AccessPolicy.from_db-as_str r.access_policy,
          RunStatus.from_db-as_str r.status,
          lawful.time_round r.started_at h,
        )
        refl)

  -- A request is written with no resolution, so only an unresolved approval reads back whole.
  pub row_to_approval-approval_row :
      (a : Approval)
      → c.parse_texts (c.texts_text a.options) ≡ some a.options
      → Dated a.expires_at
      → a.created_at < year_10000
      → row_to_approval c (approval_row c a)
        ≡ ok (record a { resolved_by = none; resolved_at = none })
  unfolding row_to_approval approval_row
  row_to_approval-approval_row a options expiry created =
      rw (options, req_id-uuid_text a.id)
        (rw
          (
            req_id-uuid_text a.run_id,
            req_id-uuid_text a.task_id,
            opt_time-map_text a.expires_at expiry,
            Decision.from_db-as_str a.decision,
            lawful.time_round a.created_at created,
          )
          refl)

  -- A node whose capabilities survive their JSON text reads back as it was written.
  pub row_to_node-node_row :
      (n : Node)
      → c.parse_json (c.json_text n.capabilities) ≡ some n.capabilities
      → row_to_node c (node_row c n) ≡ ok n
  unfolding row_to_node node_row
  row_to_node-node_row n h = rw (h, ConnectionStatus.from_db-as_str n.status) refl
