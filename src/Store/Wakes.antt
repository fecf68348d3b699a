-- ===== src/Store/Wakes.antt =====
-- Assistant workers and the durable wakes, of crates/stackhour-domain/src/store.rs.
pub mod Timing
use Prim.Native.String
use stackhour.Prelude.{
  ℕ, zero, suc, ◌+◌, ◌-◌, ◌*◌, ◌^◌, min, String, Bool, true, false, Option, none, some, List,
  str_eq, text_le, leb, ◌&&◌, ◌==◌,
}
use stackhour.Result.{Result, ok, err, conversion, or_fail, ◌>>=◌}
use stackhour.Sql
use stackhour.Domain.Codec.{Codec}
use stackhour.Domain.Ids.{TaskId, RunId, EventId, Time}
use stackhour.Domain.EventKind
use stackhour.Domain.EventKind.{EventKind}
use stackhour.Store.Rows.{WorkerRow, WakeRow, req_id}
use stackhour.Store.Db.{Db}
use stackhour.Store.Dispatch.{is_null}

pub record AssistantWake : Type 0 where
  pub event_id : EventId
  pub sequence : ℕ
  pub channel : String
  pub task_id : TaskId
  pub run_id : RunId
  pub kind : EventKind
  pub attempt_count : ℕ

-- `5 * 2.pow((next_attempt - 1).clamp(0, 8))` seconds
unfoldable pub delay_seconds : ℕ → ℕ
delay_seconds next_attempt = 5 * 2 ^ min (next_attempt - 1) 8

abbrev pub nanos_per_second : ℕ
nanos_per_second = 10 ^ 9

-- `error.chars().take(n).collect()`
unfoldable pub take_chars : ℕ → String → String
take_chars zero s = ""
take_chars (suc n) String.[] = ""
take_chars (suc n) (String.◌∷◌ ch s) = String.◌∷◌ ch (take_chars n s)

-- WHERE event_id = … AND processed_at IS NULL
abbrev pub open_wake : String → WakeRow → Bool
open_wake k r = str_eq r.event_id k && is_null r.processed_at

-- WHERE channel = ?1 AND processed_at IS NULL AND next_attempt_at <= ?2
abbrev pub due : String → String → WakeRow → Bool
due channel now r =
    str_eq r.channel channel && (is_null r.processed_at && text_le r.next_attempt_at now)

unfoldable pub due_rows : String → String → Db → List WakeRow
due_rows channel now db =
    Sql.order_by (λ (r s : WakeRow). leb r.sequence s.sequence)
      (Sql.select (due channel now) db.assistant_wakes)

module _ (c : Codec) where
  -- only the channel of a worker that is registered already is replaced
  unfoldable pub register_assistant_worker : Time → String → TaskId → Db → Db
  register_assistant_worker now channel task_id db = record db {
    assistant_workers =
        Sql.upsert (λ (r : WorkerRow). str_eq r.task_id (c.uuid_text task_id))
          (λ (r : WorkerRow). record r { channel = channel })
          (record {
            task_id = c.uuid_text task_id;
            channel = channel;
            created_at = c.time_text now;
          })
          db.assistant_workers;
  }

  unfoldable pub row_to_wake : WakeRow → Result AssistantWake
  row_to_wake row = do
    kind ← or_fail (EventKind.from_dotted row.kind) conversion
    event_id ← req_id c row.event_id
    task_id ← req_id c row.task_id
    run_id ← req_id c row.run_id
    ok (record {
      event_id = event_id;
      sequence = row.sequence;
      channel = row.channel;
      task_id = task_id;
      run_id = run_id;
      kind = kind;
      attempt_count = row.attempt_count;
    })

  unfoldable pub pending_assistant_wakes : Time → String → Db → Result (List AssistantWake)
  unfolding due_rows
  pending_assistant_wakes now channel db =
      Sql.collect row_to_wake (due_rows channel (c.time_text now) db)

  unfoldable pub complete_assistant_wake : Time → EventId → Db → Bool × Db
  complete_assistant_wake now event_id db = (
    Sql.changed (open_wake (c.uuid_text event_id)) db.assistant_wakes == 1,
    record db {
      assistant_wakes =
          Sql.update (open_wake (c.uuid_text event_id))
            (λ (r : WakeRow). record r { processed_at = some (c.time_text now) })
            db.assistant_wakes;
    },
  )

  -- the UPDATE of `defer_assistant_wake`
  abbrev pub deferred : Time → ℕ → String → WakeRow → WakeRow
  deferred now next_attempt error r = record r {
    attempt_count = next_attempt;
    next_attempt_at = c.time_text (now + delay_seconds next_attempt * nanos_per_second);
    last_error = some (take_chars 500 error);
  }

  unfoldable pub defer_assistant_wake : Time → EventId → String → Db → Bool × Db
  unfolding delay_seconds
  defer_assistant_wake now event_id error db =
      elim (Sql.first (open_wake (c.uuid_text event_id)) db.assistant_wakes) [
        | none ↦ (false, db)
        | some r ↦ (
          true,
          record db {
            assistant_wakes =
                Sql.update (open_wake (c.uuid_text event_id))
                  (deferred now (r.attempt_count + 1) error) db.assistant_wakes;
          },
        )
      ]
