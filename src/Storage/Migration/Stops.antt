-- ===== src/Storage/Migration/Stops.antt =====
-- Where a run of the migrations can be ended.
use z8run.Base.{
  ℕ, zero, suc, Option, none, some, List, [], ◌∷◌, if◌then◌else◌, ◌≡◌, refl, Memᴰ, Bool-cases, inl,
  inr,
}
use z8run.Storage.Migration.{Schema}
use z8run.Storage.Migration.Runner.{
  Query, perform, is_applied, Migration, queries, MigrationRun, running, ended, failed, schema_of,
  attempt, done, and_then, run_queries, run_versions, schema_migrations, Backend, versions,
  run_migrations,
}

-- The schemas at which a run can be ended, or ends.
abbrev pub going_on : (Schema → List Schema) → Option Schema → List Schema
going_on next none = []
going_on next (some s) = next s

unfoldable pub visited : List Query → (Schema → List Schema) → Schema → List Schema
unfolding perform
visited [] next s = next s
visited (q ∷ qs) next s = s ∷ going_on (visited qs next) (perform q s)

unfoldable pub visited_versions : List Migration → Schema → List Schema
unfolding visited
visited_versions [] s = s ∷ []
visited_versions (m ∷ ms) s =
    if is_applied m.version s
    then visited_versions ms s
    else visited (queries m) (visited_versions ms) s

unfoldable pub stops : Backend → Schema → List Schema
unfolding visited visited_versions
stops backend s = visited (schema_migrations ∷ []) (visited_versions (versions backend)) s

unfoldable pub Covers : (Option ℕ → Schema → MigrationRun) → (Schema → List Schema) → Type 0
Covers next listed = (b : Option ℕ) (s : Schema) → Memᴰ (schema_of (next b s)) (listed s)

going_on-Covers :
    (next : Option ℕ → Schema → MigrationRun) (listed : Schema → List Schema) (s : Schema)
    → Covers next listed
    → (b : Option ℕ) (o : Option Schema)
    → Memᴰ (schema_of (and_then (done b s o) next)) (s ∷ going_on listed o)
unfolding Covers
going_on-Covers next listed s h b none = Memᴰ.head refl
going_on-Covers next listed s h b (some s') = Memᴰ.tail (h b s')

attempt-Covers :
    (next : Option ℕ → Schema → MigrationRun) (listed : Schema → List Schema) (q : Query)
    (s : Schema)
    → Covers next listed
    → (b : Option ℕ)
    → Memᴰ (schema_of (and_then (attempt b q s) next)) (s ∷ going_on listed (perform q s))
attempt-Covers next listed q s h (some zero) = Memᴰ.head refl
attempt-Covers next listed q s h (some (suc b)) =
    going_on-Covers next listed s h (some b) (perform q s)
attempt-Covers next listed q s h none = going_on-Covers next listed s h none (perform q s)

and_then_assoc :
    (p : MigrationRun) (f g : Option ℕ → Schema → MigrationRun)
    → and_then (and_then p f) g ≡ and_then p (λ b s. and_then (f b s) g)
and_then_assoc (running b s) f g = refl
and_then_assoc (ended s) f g = refl
and_then_assoc (failed s) f g = refl

visited-Covers :
    (next : Option ℕ → Schema → MigrationRun) (listed : Schema → List Schema)
    → Covers next listed
    → (qs : List Query) → Covers (λ b s. and_then (run_queries qs b s) next) (visited qs listed)
unfolding Covers visited run_queries
visited-Covers next listed h [] b s = h b s
visited-Covers next listed h (q ∷ qs) b s =
    rw (and_then_assoc (attempt b q s) (run_queries qs) next)
      (attempt-Covers _ _ q s (visited-Covers next listed h qs) b)

versions-Covers : (ms : List Migration) → Covers (run_versions ms) (visited_versions ms)
unfolding Covers run_versions visited_versions
versions-Covers [] b s = Memᴰ.head refl
versions-Covers (m ∷ ms) b s =
    let later = versions-Covers ms in
    elim (Bool-cases (is_applied m.version s)) [
      | inl e ↦ rw (e) (later b s)
      | inr e ↦
          rw (e) (visited-Covers (run_versions ms) (visited_versions ms) later (queries m) b s)
    ]

pub stops-Covers : (backend : Backend) → Covers (run_migrations backend) (stops backend)
unfolding Covers run_migrations stops
stops-Covers backend b s =
    visited-Covers (run_versions (versions backend)) (visited_versions (versions backend))
      (versions-Covers (versions backend)) (schema_migrations ∷ []) b s
