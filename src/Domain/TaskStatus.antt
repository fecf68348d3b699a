-- ===== src/Domain/TaskStatus.antt =====
-- `TaskStatus` of crates/stackhour-domain/src/entities.rs: the enum, `as_str` and `from_db`.
use stackhour.Prelude.{String, ◌≡◌, refl, str_eq, if◌then◌else◌, eq_iff, arith}
use stackhour.Result.{Result, ok, err, unknown}

pub data TaskStatus : Type 0 where
  opened running completed failed interrupted : TaskStatus

unfoldable pub as_str : TaskStatus → String
as_str opened = "open"
as_str running = "running"
as_str completed = "completed"
as_str failed = "failed"
as_str interrupted = "interrupted"

unfoldable pub from_db : String → Result TaskStatus
from_db s =
    if str_eq s "open"
    then ok opened
    else if str_eq s "running"
    then ok running
    else if str_eq s "completed"
    then ok completed
    else if str_eq s "failed"
    then ok failed
    else if str_eq s "interrupted"
    then ok interrupted
    else err (unknown "task status" s)

pub from_db-as_str : (x : TaskStatus) → from_db (as_str x) ≡ ok x
unfolding from_db as_str
from_db-as_str opened = refl
from_db-as_str running = refl
from_db-as_str completed = refl
from_db-as_str failed = refl
from_db-as_str interrupted = refl

pub as_str-from_db : (s : String) {x : TaskStatus} → from_db s ≡ ok x → s ≡ as_str x
unfolding from_db as_str
as_str-from_db s h = ground (
  arith,
  eq_iff s "open",
  eq_iff s "running",
  eq_iff s "completed",
  eq_iff s "failed",
  eq_iff s "interrupted",
)
