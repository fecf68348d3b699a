-- ===== src/Store/Migrations.antt =====
-- `MIGRATIONS`, `applied_migrations`, `run_migrations` and `schema_version`, of
-- crates/stackhour-domain/src/store.rs. The DDL text of a migration is SQLite's to run: `ddl` takes
-- the schema to the one after the migration's statements, or fails.
pub mod Laws
use stackhour.Prelude.{
  ℕ, ◌+◌, String, Bool, true, false, List, [], ◌∷◌, ◌++◌, drop, length, leb, str_eq, ◌&&◌, ◌==◌,
  if◌then◌else◌,
}
use stackhour.Result.{Result, ok, err, newer_schema, invalid_history, constraint, Error}
use stackhour.Sql

pub record Migration : Type 0 where
  pub version : ℕ
  pub name : String

abbrev pub latest_hub_schema_version : ℕ
latest_hub_schema_version = 3

abbrev pub migrations : List Migration
migrations =
    record { version = 1; name = "create control-plane schema" }
    ∷ record { version = 2; name = "add run model configuration and control settings" }
    ∷ record { version = 3; name = "add durable assistant worker wakeups" }
    ∷ []

-- SELECT … ORDER BY version
unfoldable pub applied_migrations : List Migration → List Migration
applied_migrations rows = Sql.order_by (λ (r s : Migration). leb r.version s.version) rows

-- the first loop: each applied migration is the known one at its place
unfoldable pub check_history : List Migration → List Migration → Result (Unit {0})
check_history [] known = ok tt
check_history (a ∷ applied) [] = err (newer_schema a.version)
check_history (a ∷ applied) (m ∷ known) =
    let rest = check_history applied known in
    if (a.version == m.version) && str_eq a.name m.name
    then rest
    else err (invalid_history a.version)

-- `ddl` runs the statements of one migration on a schema
module _ {S : Type 0} (ddl : Migration → S → Result S) where
  -- one migration is one transaction: its DDL and its row; a failure rolls both back
  unfoldable pub apply_migration :
      Migration → S × List Migration → Result (Unit {0}) × S × List Migration
  apply_migration m (schema, rows) = elim (ddl m schema) [
    | err e ↦ (err e, schema, rows)
    | ok schema' ↦ elim (Sql.insert (λ (r : Migration). r.version == m.version) m rows) [
      | err e ↦ (err e, schema, rows)
      | ok rows' ↦ (ok tt, schema', rows')
    ]
  ]

  -- the second loop stops at the first failure and keeps what is applied
  unfoldable pub apply_all :
      List Migration → S × List Migration → Result (Unit {0}) × S × List Migration
  unfolding apply_migration
  apply_all [] (schema, rows) = (ok tt, schema, rows)
  apply_all (m ∷ ms) (schema, rows) =
      let (r, schema', rows') = apply_migration m (schema, rows) in
      elim r [ err e ↦ (err e, schema', rows') | ok _ ↦ apply_all ms (schema', rows') ]

  unfoldable pub run_migrations : S × List Migration → Result (Unit {0}) × S × List Migration
  unfolding applied_migrations check_history apply_all
  run_migrations (schema, rows) =
      let applied = applied_migrations rows in
      elim (check_history applied migrations) [
        | err e ↦ (err e, schema, rows)
        | ok _ ↦ apply_all (drop (length applied) migrations) (schema, rows)
      ]

unfoldable pub schema_version : List Migration → ℕ
schema_version rows = Sql.max_of (λ (m : Migration). m.version) rows
