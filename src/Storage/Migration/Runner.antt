-- ===== src/Storage/Migration/Runner.antt =====
-- `run_pg_migrations` and `run_sqlite_migrations` of crates/z8run-storage/src/migration.rs, which can
-- be ended before any of their queries.
use z8run.Base.{
  ℕ, zero, suc, Bool, true, false, Option, none, some, List, [], ◌∷◌, ◌++◌, map, find,
  if◌then◌else◌, ◌==◌, is_some,
}
use z8run.Storage.Migration.{Schema, Statement, create_table, table, exec}
use z8run.Storage.Migration.Scripts.{
  pg_migration_v1, pg_migration_v2, pg_migration_v3, pg_migration_v4, pg_migration_v5,
  sqlite_migration_v1, sqlite_migration_v2, sqlite_migration_v3, sqlite_migration_v4,
  sqlite_migration_v5,
}

-- A query that changes the schema: a statement, where an error may be logged only, or the insert
-- into schema_migrations.
pub data Query : Type 0 where
  run : (log_only : Bool) → Statement → Query
  record_version : ℕ → Query

abbrev pub is_applied : (version : ℕ) → Schema → Bool
is_applied version s = is_some (find (λ v. v == version) s.applied)

abbrev pub or_logged : (log_only : Bool) → Schema → Option Schema → Option Schema
or_logged log_only s (some s') = some s'
or_logged true s none = some s
or_logged false s none = none

unfoldable pub perform : Query → Schema → Option Schema
unfolding exec
perform (run log_only statement) s = or_logged log_only s (exec statement s)
perform (record_version v) s =
    if is_applied v s then none else some (record s { applied = s.applied ++ v ∷ [] })

pub record Migration : Type 0 where
  pub version : ℕ
  pub log_only : Bool
  pub statements : List Statement

abbrev pub queries : Migration → List Query
queries m = map (run m.log_only) m.statements ++ record_version m.version ∷ []

-- A run that is under way, with the queries that it can still make before it is ended, if it is;
-- one that has been ended, and one that has returned an error.
pub data MigrationRun : Type 0 where
  running : Option ℕ → Schema → MigrationRun
  ended : Schema → MigrationRun
  failed : Schema → MigrationRun

abbrev pub schema_of : MigrationRun → Schema
schema_of (running b s) = s
schema_of (ended s) = s
schema_of (failed s) = s

abbrev pub done : Option ℕ → Schema → Option Schema → MigrationRun
done b s none = failed s
done b s (some s') = running b s'

abbrev pub attempt : Option ℕ → Query → Schema → MigrationRun
attempt (some zero) q s = ended s
attempt (some (suc b)) q s = done (some b) s (perform q s)
attempt none q s = done none s (perform q s)

-- The operator `?`.
abbrev pub and_then : MigrationRun → (Option ℕ → Schema → MigrationRun) → MigrationRun
and_then (running b s) next = next b s
and_then (ended s) next = ended s
and_then (failed s) next = failed s

unfoldable pub run_queries : List Query → Option ℕ → Schema → MigrationRun
unfolding perform
run_queries [] b s = running b s
run_queries (q ∷ qs) b s = and_then (attempt b q s) (run_queries qs)

unfoldable pub run_versions : List Migration → Option ℕ → Schema → MigrationRun
unfolding run_queries
run_versions [] b s = running b s
run_versions (m ∷ ms) b s =
    if is_applied m.version s
    then run_versions ms b s
    else and_then (run_queries (queries m) b s) (run_versions ms)

abbrev pub schema_migrations : Query
schema_migrations =
    run false (create_table true (table "schema_migrations" ("version" ∷ "applied_at" ∷ [])))

pub data Backend : Type 0 where
  postgres : Backend
  sqlite : Backend

abbrev pub numbered : ℕ → Bool → List Statement → Migration
numbered version log_only statements = record {
  version = version;
  log_only = log_only;
  statements = statements;
}

-- The five versions. SQLite logs the errors of its second one only.
abbrev pub versions : Backend → List Migration
versions postgres =
    numbered 1 false pg_migration_v1
    ∷ numbered 2 false pg_migration_v2
    ∷ numbered 3 false pg_migration_v3
    ∷ numbered 4 false pg_migration_v4
    ∷ numbered 5 false pg_migration_v5
    ∷ []
versions sqlite =
    numbered 1 false sqlite_migration_v1
    ∷ numbered 2 true sqlite_migration_v2
    ∷ numbered 3 false sqlite_migration_v3
    ∷ numbered 4 false sqlite_migration_v4
    ∷ numbered 5 false sqlite_migration_v5
    ∷ []

unfoldable pub run_migrations : Backend → Option ℕ → Schema → MigrationRun
unfolding run_queries run_versions
run_migrations backend b s =
    and_then (run_queries (schema_migrations ∷ []) b s) (run_versions (versions backend))
