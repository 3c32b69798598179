-- ===== src/Tests/Migration.antt =====
-- Migrations that are ended twice.
use z8run.Base.{ℕ, Option, none, some, [], ◌∷◌, find, filter, ◌≡◌, refl}
use z8run.Storage.Migration.{Schema, exec}
use z8run.Storage.Migration.Runner.{
  postgres, sqlite, perform, run_queries, run_versions, run_migrations, running, schema_of,
}
use z8run.Storage.Migration.Resume.{empty_schema, fresh, again, run_migrations-resumes}

all_applied :
    (schema_of (run_migrations postgres none empty_schema)).applied ≡ 1 ∷ 2 ∷ 3 ∷ 4 ∷ 5 ∷ []
unfolding run_migrations run_queries run_versions perform exec find filter
all_applied = refl

-- Ended behind the column that SQLite adds in version 2, and then in version 1 of a new run.
abbrev twice : Schema
twice =
    schema_of
      (run_migrations sqlite (some 4) (schema_of (run_migrations sqlite (some 17) empty_schema)))

run_migrations-resumes_example :
    (b : Option ℕ) × (run_migrations sqlite none twice
      ≡ running b (schema_of (run_migrations sqlite none empty_schema)))
run_migrations-resumes_example =
    run_migrations-resumes sqlite twice (again (again fresh (some 17)) (some 4))
