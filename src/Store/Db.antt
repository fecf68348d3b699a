-- ===== src/Store/Db.antt =====
-- The database's tables, statements that write them, and transactions.
use stackhour.Prelude.{List, []}
use stackhour.Result.{Result, ok, err}
use stackhour.Store.Rows.{
  EventRow, ReceiptRow, TaskRow, RunRow, ApprovalRow, NodeRow, DispatchRow, SettingRow, WorkerRow,
  WakeRow,
}

pub record Db : Type 0 where
  pub events : List EventRow
  pub command_receipts : List ReceiptRow
  pub tasks : List TaskRow
  pub runs : List RunRow
  pub approvals : List ApprovalRow
  pub nodes : List NodeRow
  pub pending_dispatches : List DispatchRow
  pub control_settings : List SettingRow
  pub assistant_workers : List WorkerRow
  pub assistant_wakes : List WakeRow

-- The tables as the migrations create them.
abbrev pub empty : Db
empty = record {
  events = [];
  command_receipts = [];
  tasks = [];
  runs = [];
  approvals = [];
  nodes = [];
  pending_dispatches = [];
  control_settings = [];
  assistant_workers = [];
  assistant_wakes = [];
}

-- Statements inside a transaction: the result, and the tables as the transaction sees them.
abbrev pub Tx {ℓ} : Type ℓ → Type ℓ
Tx A = Db → Result (A × Db)

abbrev pub pure {ℓ} : {A : Type ℓ} → A → Tx A
pure a db = ok (a, db)

abbrev pub lift {ℓ} : {A : Type ℓ} → Result A → Tx A
lift (ok a) db = ok (a, db)
lift (err e) db = err e

-- a write that gives new tables
abbrev pub write : (Db → Result Db) → Tx (Unit {0})
write f db = elim (f db) [ ok db' ↦ ok (tt, db') | err e ↦ err e ]

infixl 5 ◌>>=◌ ◌>>◌
abbrev pub ◌>>=◌ {ℓ κ} : {A : Type ℓ} {B : Type κ} → Tx A → (A → Tx B) → Tx B
◌>>=◌ m f db = elim (m db) [ ok (a, db') ↦ f a db' | err e ↦ err e ]

abbrev pub ◌>>◌ {ℓ} : {B : Type ℓ} → Tx (Unit {0}) → Tx B → Tx B
m >> k = m >>= λ _. k

-- A transaction commits if its body succeeds, and else rolls back. One statement is one transaction.
abbrev pub settle {ℓ} : {A : Type ℓ} → Db → Result (A × Db) → Result A × Db
settle db (ok (a, db')) = (ok a, db')
settle db (err e) = (err e, db)

abbrev pub transaction {ℓ} : {A : Type ℓ} → Tx A → Db → Result A × Db
transaction m db = settle db (m db)
