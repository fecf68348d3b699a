-- ===== src/Store/Migrations/Laws.antt =====
-- Where migration leaves the schema, from every history that a release has written.
use mathlib.Core.List.{append-nil, append_assoc}
use stackhour.Prelude.{
  ℕ, zero, suc, ◌≤◌, ◌≡◌, refl, ap, false, List, [], ◌∷◌, ◌++◌, arith, take, drop, ◌⊎◌, inl, inr,
  leb, ◌==◌,
}
use stackhour.Result.{Result, ok, err, Error, newer_schema, Result-cases}
use stackhour.Sql
use stackhour.Sql.Laws.{Sorted, order_by-Sorted, insert_new}
use stackhour.Store.Migrations.{
  Migration, migrations, applied_migrations, check_history, apply_migration, apply_all,
  run_migrations,
}

-- The history of a database that stopped at some version: the first `n` migrations.
abbrev pub released : ℕ → List Migration
released n = take n migrations

-- the statements of these migrations, one after the other, take one schema to the other
abbrev pub Applied : {S : Type 0} → (Migration → S → Result S) → List Migration → S → S → Type 0
Applied {S} ddl [] a b = a ≡ b
Applied {S} ddl (m ∷ ms) a b = (mid : S) × (ddl m a ≡ ok mid) × Applied ddl ms mid b

-- A run of the migrations `ms` on a schema and its history: all of them were applied; or the
-- statements of one of them failed, those before it were applied, and it left nothing.
abbrev pub Migrated :
    {S : Type 0}
    → (Migration → S → Result S)
    → List Migration
    → S × List Migration
    → Result (Unit {0}) × S × List Migration
    → Type 0
Migrated {S} ddl ms (a, rows) r =
    ((b : S) × Applied ddl ms a b × (r ≡ (ok tt, b, rows ++ ms)))
    ⊎ ((done : List Migration) × (m : Migration) × (rest : List Migration) × (b : S) × (x : Error)
        × (ms ≡ done ++ m ∷ rest)
        × Applied ddl done a b
        × (ddl m b ≡ err x)
        × (r ≡ (err x, b, rows ++ done)))

-- no migration of the list has a row yet when its turn comes
abbrev IsNew : List Migration → List Migration → Type 0
IsNew [] rows = Unit
IsNew (m ∷ ms) rows =
    (Sql.exists (λ (r : Migration). r.version == m.version) rows ≡ false)
    × IsNew ms (rows ++ m ∷ [])

released-IsNew : (n : ℕ) → n ≤ 3 → IsNew (drop n migrations) (released n)
unfolding Sql.exists
released-IsNew zero h = (refl, (refl, (refl, tt)))
released-IsNew (suc zero) h = (refl, (refl, tt))
released-IsNew (suc (suc zero)) h = (refl, tt)
released-IsNew (suc (suc (suc zero))) h = tt
released-IsNew (suc (suc (suc (suc n)))) h = absurd (omega arith)

module _ {S : Type 0} (ddl : Migration → S → Result S) where
  apply_migration-ok :
      (m : Migration) (a : S) (rows : List Migration) {b : S}
      → Sql.exists (λ (r : Migration). r.version == m.version) rows ≡ false
      → ddl m a ≡ ok b
      → apply_migration ddl m (a, rows) ≡ (ok tt, b, rows ++ m ∷ [])
  unfolding apply_migration
  apply_migration-ok m a rows new good =
      ground (arith, good, insert_new (λ (r : Migration). r.version == m.version) m rows new)

  apply_migration-err :
      (m : Migration) (a : S) (rows : List Migration) {x : Error}
      → ddl m a ≡ err x
      → apply_migration ddl m (a, rows) ≡ (err x, a, rows)
  unfolding apply_migration
  apply_migration-err m a rows bad = ground (arith, bad)

  Migrated-cons :
      (m : Migration) (ms : List Migration) (a b : S) (rows : List Migration)
      {r : Result (Unit {0}) × S × List Migration}
      → ddl m a ≡ ok b
      → Migrated ddl ms (b, rows ++ m ∷ []) r
      → Migrated ddl (m ∷ ms) (a, rows) r
  Migrated-cons m ms a b rows good (inl (t, applied, e)) =
      inl (t, (b, good, applied), rw (← append_assoc rows (m ∷ []) ms) e)
  Migrated-cons m ms a b rows good (inr (done, k, rest, t, x, split, applied, bad, e)) = inr (
    m ∷ done,
    k,
    rest,
    t,
    x,
    ap (λ (l : List Migration). m ∷ l) split,
    (b, good, applied),
    bad,
    rw (← append_assoc rows (m ∷ []) done) e,
  )

  apply_all-ok :
      (m : Migration) (ms : List Migration) (a b : S) (rows : List Migration)
      → apply_migration ddl m (a, rows) ≡ (ok tt, b, rows ++ m ∷ [])
      → apply_all ddl (m ∷ ms) (a, rows) ≡ apply_all ddl ms (b, rows ++ m ∷ [])
  unfolding apply_all
  apply_all-ok m ms a b rows h = ground (arith, h)

  apply_all-err :
      (m : Migration) (ms : List Migration) (a : S) (rows : List Migration) {x : Error}
      → apply_migration ddl m (a, rows) ≡ (err x, a, rows)
      → apply_all ddl (m ∷ ms) (a, rows) ≡ (err x, a, rows)
  unfolding apply_all
  apply_all-err m ms a rows h = ground (arith, h)

  apply_all-Migrated :
      (ms : List Migration) (a : S) (rows : List Migration)
      → IsNew ms rows
      → Migrated ddl ms (a, rows) (apply_all ddl ms (a, rows))
  apply_all-Migrated [] a rows new = unfold apply_all in inl (a, refl, rw (append-nil rows) refl)
  apply_all-Migrated (m ∷ ms) a rows new = elim (Result-cases (ddl m a)) [
    | inl (b, good) ↦
        rw (apply_all-ok m ms a b rows (apply_migration-ok m a rows new.0 good))
          (Migrated-cons m ms a b rows good (apply_all-Migrated ms b (rows ++ m ∷ []) new.1))
    | inr (x, bad) ↦
        rw (apply_all-err m ms a rows (apply_migration-err m a rows bad))
          (inr ([], m, ms, a, x, refl, refl, bad, rw (append-nil rows) refl))
  ]

  run_migrations-released :
      (n : ℕ) (a : S)
      → n ≤ 3
      → run_migrations ddl (a, released n) ≡ apply_all ddl (drop n migrations) (a, released n)
  unfolding run_migrations Sql.order_by
  run_migrations-released zero a h = refl
  run_migrations-released (suc zero) a h = refl
  run_migrations-released (suc (suc zero)) a h = refl
  run_migrations-released (suc (suc (suc zero))) a h = refl
  run_migrations-released (suc (suc (suc (suc n)))) a h = absurd (omega arith)

  -- Migration from any version that a release wrote applies the statements of the later migrations
  -- in their order, with a row for each; or the statements of one of them fail on the schema that
  -- those before it made, and then that schema and their rows are what is left, with the failure
  -- returned.
  pub run_migrations-Migrated :
      (n : ℕ) (a : S)
      → n ≤ 3
      → Migrated ddl (drop n migrations) (a, released n) (run_migrations ddl (a, released n))
  run_migrations-Migrated n a h =
      rw (run_migrations-released n a h)
        (apply_all-Migrated (drop n migrations) a (released n) (released-IsNew n h))

  -- A database that a newer release has migrated further is refused with its first unknown version,
  -- and its schema and its history stay as they are.
  pub run_migrations-newer :
      (m : Migration) (rest : List Migration) (a : S)
      → Sorted (λ (r s : Migration). leb r.version s.version) (migrations ++ m ∷ rest)
      → run_migrations ddl (a, migrations ++ m ∷ rest)
        ≡ (err (newer_schema m.version), a, migrations ++ m ∷ rest)
  unfolding run_migrations applied_migrations check_history
  run_migrations-newer m rest a h =
      let sorted =
        order_by-Sorted (λ (r s : Migration). leb r.version s.version) (migrations ++ m ∷ rest) h in
      ground (arith, sorted)
