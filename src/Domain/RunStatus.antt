-- ===== src/Domain/RunStatus.antt =====
-- `RunStatus` of crates/stackhour-domain/src/entities.rs: the enum, `as_str` and `from_db`.
use stackhour.Prelude.{String, ◌≡◌, refl, str_eq, if◌then◌else◌, eq_iff, arith}
use stackhour.Result.{Result, ok, err, unknown}

pub data RunStatus : Type 0 where
  started interrupted completed failed : RunStatus

unfoldable pub as_str : RunStatus → String
as_str started = "started"
as_str interrupted = "interrupted"
as_str completed = "completed"
as_str failed = "failed"

unfoldable pub from_db : String → Result RunStatus
from_db s =
    if str_eq s "started"
    then ok started
    else if str_eq s "interrupted"
    then ok interrupted
    else if str_eq s "completed"
    then ok completed
    else if str_eq s "failed"
    then ok failed
    else err (unknown "run status" s)

pub from_db-as_str : (x : RunStatus) → from_db (as_str x) ≡ ok x
unfolding from_db as_str
from_db-as_str started = refl
from_db-as_str interrupted = refl
from_db-as_str completed = refl
from_db-as_str failed = refl

pub as_str-from_db : (s : String) {x : RunStatus} → from_db s ≡ ok x → s ≡ as_str x
unfolding from_db as_str
as_str-from_db s h =
    ground
      (arith, eq_iff s "started", eq_iff s "interrupted", eq_iff s "completed", eq_iff s "failed")
