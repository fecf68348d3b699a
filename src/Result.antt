-- ===== src/Result.antt =====
-- `stackhour_core::Error` and `Result`. An error's text is abstracted to the constructor that names
-- where it is raised; the code never branches on the text.
use stackhour.Prelude.{ℕ, String, ◌≡◌, refl, ◌⊎◌, inl, inr, Bool, true, false, Option, none, some}

pub data Error : Type 0 where
  -- a PRIMARY KEY or UNIQUE column has the value already
  constraint : Error
  -- `MAX(sequence) + 1` leaves the range of `i64`
  sequence_overflow : Error
  -- a column's text does not decode
  conversion : Error
  -- `unknown {kind}: {got}`
  unknown : String → String → Error
  resolve_to_pending : Error
  unknown_approval : ℕ → Error
  newer_schema : ℕ → Error
  invalid_history : ℕ → Error
  -- `Error::msg` of a check's message
  refused : String → Error
  -- `Error::msg` of a protocol error
  protocol : Error
  hub_rejected : Error
  invalid_receipt : Error
  event_missing : Error
  no_worker_run : Error
  unknown_worker_run : Error
  not_node_owned : Error
  unsupported_kind : Error

pub data Result {ℓ} (A : Type ℓ) : Type ℓ where
  ok : A → Result A
  err : Error → Result A

infixl 5 ◌>>=◌
abbrev pub ◌>>=◌ {ℓ κ} : {A : Type ℓ} {B : Type κ} → Result A → (A → Result B) → Result B
ok a >>= f = f a
err e >>= f = err e

-- `ok_or`
abbrev pub or_fail {ℓ} : {A : Type ℓ} → Option A → Error → Result A
or_fail none e = err e
or_fail (some a) e = ok a

-- `map_err(|_| e)`
abbrev pub map_err {ℓ} : {A : Type ℓ} → Result A → Error → Result A
map_err (ok a) e = ok a
map_err (err _) e = err e

abbrev pub is_ok {ℓ} : {A : Type ℓ} → Result A → Bool
is_ok (ok a) = true
is_ok (err e) = false

-- To split on a result and keep the equation.
pub Result-cases {ℓ} :
    {A : Type ℓ} (r : Result A) → ((a : A) × (r ≡ ok a)) ⊎ ((e : Error) × (r ≡ err e))
Result-cases (ok a) = inl (a, refl)
Result-cases (err e) = inr (e, refl)
