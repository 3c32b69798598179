-- ===== src/Storage/Migration/Resume.antt =====
-- Migrations that are ended and started again.
use z8run.Base.{
  find, filter, ℕ, Bool, true, false, Option, none, List, [], ◌∷◌, if◌then◌else◌, ◌≡◌, refl, sym,
  ap, subst, Memᴰ, Bool-cases, inl, inr,
}
use z8run.Storage.Migration.{Schema, exec}
use z8run.Storage.Migration.Runner.{
  perform, MigrationRun, running, ended, failed, schema_of, run_queries, run_versions, Backend,
  postgres, sqlite, run_migrations,
}
use z8run.Storage.Migration.Schemas.{same_schema, same_schema_sound}
use z8run.Storage.Migration.Stops.{visited, visited_versions, stops, Covers, stops-Covers}

contains : Schema → List Schema → Bool
contains s [] = false
contains s (t ∷ ts) = if same_schema s t then true else contains s ts

all_in : List Schema → List Schema → Bool
all_in [] known = true
all_in (s ∷ ss) known = if contains s known then all_in ss known else false

add_new : List Schema → List Schema → List Schema
add_new [] known = known
add_new (s ∷ ss) known = if contains s known then add_new ss known else add_new ss (s ∷ known)

add_stops : Backend → List Schema → List Schema → List Schema
add_stops backend [] known = known
add_stops backend (s ∷ ss) known = add_stops backend ss (add_new (stops backend s) known)

abbrev pub empty_schema : Schema
empty_schema = record { tables = []; indexes = []; applied = [] }

known : Backend → List Schema
known backend = add_stops backend (stops backend empty_schema) []

closed_from : Backend → List Schema → List Schema → Bool
closed_from backend [] all = true
closed_from backend (s ∷ ss) all =
    if all_in (stops backend s) all then closed_from backend ss all else false

known-Closed : (backend : Backend) → closed_from backend (known backend) (known backend) ≡ true
unfolding closed_from all_in contains known add_stops add_new stops visited visited_versions perform
    exec same_schema find filter
known-Closed postgres = refl
known-Closed sqlite = refl

contains-Mem : (s : Schema) (ts : List Schema) → contains s ts ≡ true → Memᴰ s ts
unfolding contains
contains-Mem s [] e = cc
contains-Mem s (t ∷ ts) e = elim (Bool-cases (same_schema s t)) [
  | inl f ↦ Memᴰ.head (same_schema_sound s t f)
  | inr f ↦ Memᴰ.tail (contains-Mem s ts (rw f at e))
]

all_in-Mem : (ss all : List Schema) → all_in ss all ≡ true → (s : Schema) → Memᴰ s ss → Memᴰ s all
unfolding all_in
all_in-Mem [] all e s m = elim m [ ]
all_in-Mem (t ∷ ts) all e s m = elim (Bool-cases (contains t all)) [
  | inl f ↦ elim m [
    | Memᴰ.head p ↦ subst (λ u. Memᴰ u all) (sym p) (contains-Mem t all f)
    | Memᴰ.tail n ↦ all_in-Mem ts all (rw f at e) s n
  ]
  | inr f ↦ let no = rw f at e in cc
]

closed_from-Mem :
    (backend : Backend) (ss all : List Schema)
    → closed_from backend ss all ≡ true
    → (s t : Schema) → Memᴰ s ss
    → Memᴰ t (stops backend s)
    → Memᴰ t all
unfolding closed_from
closed_from-Mem backend [] all e s t m n = elim m [ ]
closed_from-Mem backend (u ∷ us) all e s t m n = elim (Bool-cases (all_in (stops backend u) all)) [
  | inl f ↦ elim m [
    | Memᴰ.head p ↦ all_in-Mem (stops backend u) all f t (subst (λ v. Memᴰ t (stops backend v)) p n)
    | Memᴰ.tail k ↦ closed_from-Mem backend us all (rw f at e) s t k n
  ]
  | inr f ↦ let no = rw f at e in cc
]

-- What a database can be after any runs, each of which was ended before one of its queries or ran
-- to its end.
pub data Started (backend : Backend) : Schema → Type 0 where
  fresh : Started backend empty_schema
  again :
      {s : Schema}
      → Started backend s
      → (b : Option ℕ) → Started backend (schema_of (run_migrations backend b s))

empty-known : (backend : Backend) → contains empty_schema (known backend) ≡ true
unfolding contains known add_stops add_new stops visited visited_versions perform exec same_schema
    find filter
empty-known postgres = refl
empty-known sqlite = refl

Started-Mem : (backend : Backend) (s : Schema) → Started backend s → Memᴰ s (known backend)
unfolding Covers
Started-Mem backend s fresh = contains-Mem empty_schema (known backend) (empty-known backend)
Started-Mem backend s (again {s = t} h b) =
    closed_from-Mem backend (known backend) (known backend) (known-Closed backend) t _
      (Started-Mem backend t h) (stops-Covers backend b t)

-- The schema of a run that has returned without an error.
abbrev finishes : Schema → MigrationRun → Bool
finishes f (running b s) = same_schema s f
finishes f (ended s) = false
finishes f (failed s) = false

all_finish : Backend → List Schema → Bool
all_finish backend [] = true
all_finish backend (s ∷ ss) =
    if finishes (schema_of (run_migrations backend none empty_schema))
      (run_migrations backend none s)
    then all_finish backend ss
    else false

known-Finishes : (backend : Backend) → all_finish backend (known backend) ≡ true
unfolding all_finish contains known add_stops add_new stops visited visited_versions perform exec
    same_schema find filter run_migrations run_queries run_versions
known-Finishes postgres = refl
known-Finishes sqlite = refl

all_finish-Mem :
    (backend : Backend) (ss : List Schema)
    → all_finish backend ss ≡ true
    → (s : Schema) → Memᴰ s ss
    → finishes
        (schema_of (run_migrations backend none empty_schema))
        (run_migrations backend none s)
      ≡ true
unfolding all_finish
all_finish-Mem backend [] e s m = elim m [ ]
all_finish-Mem backend (t ∷ ts) e s m =
    elim (Bool-cases (
      finishes (schema_of (run_migrations backend none empty_schema))
        (run_migrations backend none t))) [
          | inl f ↦ elim m [
            | Memᴰ.head p ↦ rw p f
            | Memᴰ.tail n ↦ all_finish-Mem backend ts (rw f at e) s n
          ]
          | inr f ↦ let no = rw f at e in cc
        ]

finishes_inv :
    (f : Schema) (p : MigrationRun) → finishes f p ≡ true → (b : Option ℕ) × (p ≡ running b f)
finishes_inv f (running b s) e = (b, ap (running b) (same_schema_sound s f e))
finishes_inv f (ended s) e = cc
finishes_inv f (failed s) e = cc

-- However often the migrations of an empty database were ended between two queries and started
-- again, the next run that is not ended returns without an error, with the schema that a single
-- run from the empty database gives.
pub run_migrations-resumes :
    (backend : Backend) (s : Schema)
    → Started backend s
    → (b : Option ℕ) × (run_migrations backend none s
        ≡ running b (schema_of (run_migrations backend none empty_schema)))
run_migrations-resumes backend s h =
    finishes_inv _ _
      (all_finish-Mem backend (known backend) (known-Finishes backend) s (Started-Mem backend s h))
