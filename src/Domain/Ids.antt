-- ===== src/Domain/Ids.antt =====
-- crates/stackhour-domain/src/ids.rs. A UUID is its numeric value; its text is the `uuid` crate's.
use stackhour.Prelude.{ℕ, String}

abbrev pub Uuid : Type 0
Uuid = ℕ

abbrev pub TaskId : Type 0
TaskId = Uuid

abbrev pub RunId : Type 0
RunId = Uuid

abbrev pub EventId : Type 0
EventId = Uuid

abbrev pub CommandId : Type 0
CommandId = Uuid

abbrev pub ApprovalId : Type 0
ApprovalId = Uuid

abbrev pub NodeId : Type 0
NodeId = String

-- `DateTime<Utc>`: nanoseconds since the first instant of the year 0.
abbrev pub Time : Type 0
Time = ℕ
