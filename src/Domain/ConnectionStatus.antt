-- ===== src/Domain/ConnectionStatus.antt =====
-- `ConnectionStatus` of crates/stackhour-domain/src/entities.rs: the enum, `as_str` and `from_db`.
use stackhour.Prelude.{String, ◌≡◌, refl, str_eq, if◌then◌else◌, eq_iff, arith}
use stackhour.Result.{Result, ok, err, unknown}

pub data ConnectionStatus : Type 0 where
  connected disconnected : ConnectionStatus

unfoldable pub as_str : ConnectionStatus → String
as_str connected = "connected"
as_str disconnected = "disconnected"

unfoldable pub from_db : String → Result ConnectionStatus
from_db s =
    if str_eq s "connected"
    then ok connected
    else if str_eq s "disconnected"
    then ok disconnected
    else err (unknown "connection status" s)

pub from_db-as_str : (x : ConnectionStatus) → from_db (as_str x) ≡ ok x
unfolding from_db as_str
from_db-as_str connected = refl
from_db-as_str disconnected = refl

pub as_str-from_db : (s : String) {x : ConnectionStatus} → from_db s ≡ ok x → s ≡ as_str x
unfolding from_db as_str
as_str-from_db s h = ground (arith, eq_iff s "connected", eq_iff s "disconnected")
