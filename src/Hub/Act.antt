-- ===== src/Hub/Act.antt =====
-- A method of `HubState` that returns a `Result`: `?` returns early, and keeps what was done before.
use stackhour.Prelude.{Bool, Option, none, some, if◌then◌else◌, String}
use stackhour.Result.{Result, ok, err, Error, refused}
use stackhour.Store.Db.{Db}
use stackhour.Hub.State.{HubState}

abbrev pub Act {ℓ} : Type ℓ → Type ℓ
Act A = HubState → Result A × HubState

abbrev pub continue {ℓ κ} :
    {A : Type ℓ} {B : Type κ} → (A → Act B) → Result A × HubState → Result B × HubState
continue f (ok a, s) = f a s
continue f (err e, s) = (err e, s)

infixl 5 ◌>>=◌ ◌>>◌
unfoldable pub ◌>>=◌ {ℓ κ} : {A : Type ℓ} {B : Type κ} → Act A → (A → Act B) → Act B
◌>>=◌ m f s = continue f (m s)

unfoldable pub ◌>>◌ {ℓ} : {B : Type ℓ} → Act (Unit {0}) → Act B → Act B
unfolding ◌>>=◌
m >> k = m >>= λ _. k

-- a result that needs no state
unfoldable pub give {ℓ} : {A : Type ℓ} → Result A → Act A
give r s = (r, s)

-- a read of the store
unfoldable pub read {ℓ} : {A : Type ℓ} → (Db → Result A) → Act A
read f s = (f s.hub, s)

-- a write to the store that does not fail
unfoldable pub write : (Db → Db) → Act (Unit {0})
write f s = (ok tt, record s { hub = f s.hub })

-- `map_err(Error::msg)?` of a check
unfoldable pub checked : Option String → Act (Unit {0})
checked none s = (ok tt, s)
checked (some message) s = (err (refused message), s)

unfoldable pub unless : Bool → Error → Act (Unit {0})
unless test e s = if test then (err e, s) else (ok tt, s)
