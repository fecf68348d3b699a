-- ===== src/Examples/Values.antt =====
-- Rows, settings, migrations and the backoff.
use stackhour.Prelude.{◌≤◌, ◌/◌, ◌≡◌, refl, some, List, [], ◌∷◌, ◌++◌, arith, drop, String}
use stackhour.Result.{Result, ok, err, newer_schema}
use stackhour.Store.Rows.{event_row, row_to_event}
use stackhour.Store.Rows.Roundtrip.{stamped, row_to_event-event_row}
use stackhour.Store.Migrations.{Migration, migrations, run_migrations}
use stackhour.Store.Migrations.Laws.{
  Migrated, released, run_migrations-Migrated, run_migrations-newer,
}
use stackhour.Node.Backoff.{capped_delay, delay, delay-bounds}
use stackhour.Examples.World.{codec, codec-IsLawful, prompt}

row_to_event-event_row_example :
    row_to_event codec (event_row codec 1 7 (some 8) prompt 3) ≡ ok (stamped 1 7 (some 8) prompt 3)
unfolding stackhour.Examples.Unary.unary
row_to_event-event_row_example =
    row_to_event-event_row codec codec-IsLawful 1 7 (some 8) prompt 3 refl (omega arith)
      (omega arith)

-- a schema is the names of the migrations that made it
abbrev all_apply : Migration → List String → Result (List String)
all_apply m schema = ok (schema ++ m.name ∷ [])

run_migrations-Migrated_example :
    Migrated all_apply
      (drop 1 migrations)
      ([], released 1)
      (run_migrations all_apply ([], released 1))
run_migrations-Migrated_example = run_migrations-Migrated all_apply 1 [] (omega arith)

abbrev future : Migration
future = record { version = 4; name = "from a later release" }

run_migrations-newer_example :
    run_migrations all_apply ([], migrations ++ future ∷ [])
    ≡ (err (newer_schema 4), [], migrations ++ future ∷ [])
run_migrations-newer_example =
    run_migrations-newer all_apply future [] [] (refl, (refl, (refl, tt)))

delay-bounds_example :
    (capped_delay 3 500 16000 / 2 ≤ delay (λ n. n / 2) 3 500 16000)
    × (delay (λ n. n / 2) 3 500 16000 ≤ capped_delay 3 500 16000)
    × (capped_delay 3 500 16000 ≤ 16000)
delay-bounds_example = delay-bounds (λ n. n / 2) 3 500 16000 (λ n. omega arith)
