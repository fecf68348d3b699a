-- ===== src/Domain/AccessPolicy.antt =====
-- `AccessPolicy` of crates/stackhour-domain/src/entities.rs: the enum, `as_str` and `from_db`.
use stackhour.Prelude.{String, ◌≡◌, refl, str_eq, if◌then◌else◌, eq_iff, arith}
use stackhour.Result.{Result, ok, err, unknown}

pub data AccessPolicy : Type 0 where
  supervised automatic full_access : AccessPolicy

unfoldable pub as_str : AccessPolicy → String
as_str supervised = "supervised"
as_str automatic = "automatic"
as_str full_access = "full_access"

unfoldable pub from_db : String → Result AccessPolicy
from_db s =
    if str_eq s "supervised"
    then ok supervised
    else if str_eq s "automatic"
    then ok automatic
    else if str_eq s "full_access"
    then ok full_access
    else err (unknown "access policy" s)

pub from_db-as_str : (x : AccessPolicy) → from_db (as_str x) ≡ ok x
unfolding from_db as_str
from_db-as_str supervised = refl
from_db-as_str automatic = refl
from_db-as_str full_access = refl

pub as_str-from_db : (s : String) {x : AccessPolicy} → from_db s ≡ ok x → s ≡ as_str x
unfolding from_db as_str
as_str-from_db s h =
    ground (arith, eq_iff s "supervised", eq_iff s "automatic", eq_iff s "full_access")
