-- ===== src/Domain/Decision.antt =====
-- `Decision` of crates/stackhour-domain/src/entities.rs: the enum, `as_str` and `from_db`.
use stackhour.Prelude.{String, ◌≡◌, refl, str_eq, if◌then◌else◌, eq_iff, arith}
use stackhour.Result.{Result, ok, err, unknown}

pub data Decision : Type 0 where
  pending allowed denied : Decision

unfoldable pub as_str : Decision → String
as_str pending = "pending"
as_str allowed = "allowed"
as_str denied = "denied"

unfoldable pub from_db : String → Result Decision
from_db s =
    if str_eq s "pending"
    then ok pending
    else if str_eq s "allowed"
    then ok allowed
    else if str_eq s "denied"
    then ok denied
    else err (unknown "decision" s)

pub from_db-as_str : (x : Decision) → from_db (as_str x) ≡ ok x
unfolding from_db as_str
from_db-as_str pending = refl
from_db-as_str allowed = refl
from_db-as_str denied = refl

pub as_str-from_db : (s : String) {x : Decision} → from_db s ≡ ok x → s ≡ as_str x
unfolding from_db as_str
as_str-from_db s h = ground (arith, eq_iff s "pending", eq_iff s "allowed", eq_iff s "denied")
