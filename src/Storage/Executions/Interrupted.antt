-- ===== src/Storage/Executions/Interrupted.antt =====
-- The executions that a stop of the server leaves running, which the next start interrupts.
use z8run.Base.{
  ℕ, String, true, false, none, some, List, [], ◌∷◌, map, filter, length, Memᴰ, if◌then◌else◌, ◌≡◌,
  refl, ap, ◌∙◌, Bool-cases, inl, inr, subst,
}
use z8run.Storage.{StorageResult}
use z8run.Storage.Flows.{ExecutionRecord, FlowTables}
use z8run.Storage.Executions.{is_stale, interrupt_running}

abbrev pub stopped_as : (now : ℕ) (reason : String) → ExecutionRecord → ExecutionRecord
stopped_as now reason x = record x {
  status = "stopped";
  completed_at = some now;
  error_text = some reason;
}

module _ (now before : ℕ) (reason : String) where
  abbrev step : ExecutionRecord → ExecutionRecord
  step x = if is_stale before x then stopped_as now reason x else x

  step-fresh : (x : ExecutionRecord) → is_stale before (step x) ≡ false
  step-fresh x = elim (Bool-cases (is_stale before x)) [ inl e ↦ rw e refl | inr e ↦ rw e e ]

  none_stale : (xs : List ExecutionRecord) → filter (is_stale before) (map step xs) ≡ []
  unfolding filter
  none_stale [] = refl
  none_stale (x ∷ xs) = rw (step-fresh x) (none_stale xs)

  Mem-step :
      (x : ExecutionRecord) (xs : List ExecutionRecord) → Memᴰ x xs → Memᴰ (step x) (map step xs)
  Mem-step x [] m = elim m [ ]
  Mem-step x (y ∷ ys) (Memᴰ.head e) = Memᴰ.head (ap step e)
  Mem-step x (y ∷ ys) (Memᴰ.tail m) = Memᴰ.tail (Mem-step x ys m)

step_later :
    (now later before : ℕ) (reason : String) (xs : List ExecutionRecord)
    → map (step later before reason) (map (step now before reason) xs)
      ≡ map (step now before reason) xs
step_later now later before reason [] = refl
step_later now later before reason (x ∷ xs) =
    let h = step-fresh now before reason x in
    let ih = step_later now later before reason xs in
    let y = step now before reason x in
    ap (λ ys. step later before reason y ∷ ys) ih
    ∙ ap (λ b. (if b then stopped_as later reason y else y) ∷ map (step now before reason) xs) h

-- If the database works, the executions that run since before a moment are stopped with the reason,
-- every other one is as it was, and the same call at any later time finds none and changes nothing.
pub interrupt_running-again :
    (now later before : ℕ) (reason : String) (t : FlowTables)
    → (n : ℕ) × (t' : FlowTables) × (interrupt_running now none before reason t
        ≡ StorageResult.ok (n, t'))
      × (interrupt_running later none before reason t' ≡ StorageResult.ok (0, t'))
      × ((x : ExecutionRecord)
          → Memᴰ x t.executions
          → is_stale before x ≡ true
          → Memᴰ (stopped_as now reason x) t'.executions)
      × ((x : ExecutionRecord)
          → Memᴰ x t.executions
          → is_stale before x ≡ false
          → Memᴰ x t'.executions)
unfolding interrupt_running
interrupt_running-again now later before reason t =
    let xs = t.executions in
    let f = step now before reason in
    let again : interrupt_running later none before reason (record t { executions = map f xs })
        ≡ StorageResult.ok (0, record t { executions = map f xs }) =
      rw (none_stale now before reason xs, step_later now later before reason xs) refl in
    (
      length (filter (is_stale before) xs),
      record t { executions = map f xs },
      refl,
      again,
      (λ x m e.
          subst (λ b. Memᴰ (if b then stopped_as now reason x else x) (map f xs)) e
            (Mem-step now before reason x xs m)),
      (λ x m e.
          subst (λ b. Memᴰ (if b then stopped_as now reason x else x) (map f xs)) e
            (Mem-step now before reason x xs m)),
    )
