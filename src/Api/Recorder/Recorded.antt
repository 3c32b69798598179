-- ===== src/Api/Recorder/Recorded.antt =====
-- What the table says of an execution after the recorder has seen the events.
use z8run.Base.{
  ℕ, String, Bool, true, false, Option, none, some, [], ◌∷◌, ◌++◌, is_some, if◌then◌else◌, ◌==◌,
  ◌≡◌, refl, sym, ap, ◌∙◌, arith, ==→≡, ==-refl, Bool-cases, inl, inr, some_inv, subst,
}
use z8run.Error.{Uuid, Z8Error}
use z8run.Storage.{Failure}
use z8run.Storage.Flows.{FlowTables}
use z8run.Storage.Executions.{new_execution, record_start, record_completion}
use z8run.Engine.{flow_started, flow_completed, flow_error, flow_stopped}
use z8run.Api.Recorder.{Recorder, Received, event, lagged, with_entry, opened, closed, receive}
use z8run.Api.Recorder.Rows.{
  status_of, Agree, status_of-snoc_other, status_of-snoc_new, Agree-snoc, Agree-new, Agree-apart,
  Agree-completing, status_of-completing_other, status_of-completing, completing,
}
use z8run.Api.Recorder.Log.{
  Log, tracked, end, begin, follow, log_status, is_open, IsNew, earlier, Run, spawn, next,
  open_running, end_not_open, end_again, end_unwritten, end_written,
}

record Inv (r : Recorder) (log : Uuid → Log) : Type 0 where
  ids : (t i : Uuid) → r.in_flight t ≡ some i → Agree i t r.tables.executions
  flying : (t : Uuid) → is_some (r.in_flight t) ≡ is_open (log t)
  status : (t : Uuid) → status_of t r.tables.executions ≡ log_status (log t)

-- What a step does to the trace that it is about, and to the others.
at_trace {ℓ} :
    (P : Uuid → Bool → Type ℓ) (t : Uuid)
    → P t true
    → ((k : Uuid) → (k == t) ≡ false → P k false)
    → (k : Uuid) → P k (k == t)
at_trace P t first others k = elim (Bool-cases (k == t)) [
  | inl e ↦ subst (λ j. P j (j == t)) (sym (==→≡ k t e)) (subst (P t) (sym (==-refl t)) first)
  | inr e ↦ subst (P k) (sym e) (others k e)
]

module _ (r : Recorder) (log : Uuid → Log) (inv : Inv r log) (now : ℕ) where
  opened_lem :
      (fails : Failure) (id f t : Uuid)
      → IsNew id (event (flow_started f t)) r
      → Inv
          (opened t id (record_start now fails id f t r.tables) r)
          (λ k. if k == t then begin fails (log k) else log k)
  unfolding record_start
  opened_lem (some text) id f t (fresh, new, stored) = rw stored (record {
    ids = inv.ids;
    flying =
        at_trace (λ k b. is_some (r.in_flight k) ≡ is_open (if b then log k else log k)) t
          (inv.flying t) (λ k e. inv.flying k);
    status =
        at_trace (λ k b. status_of k r.tables.executions ≡ log_status (if b then log k else log k))
          t (inv.status t) (λ k e. inv.status k);
  })
  opened_lem none id f t (fresh, new, stored) =
      let xs = r.tables.executions in
      let x = new_execution id f t now in
      rw stored (record {
        ids =
            at_trace
              (λ k b.
                (i : Uuid)
                → (if b then some id else r.in_flight k) ≡ some i
                → Agree i k (xs ++ x ∷ []))
              t
              (λ i e.
                subst (λ i. Agree i t (xs ++ x ∷ [])) (some_inv e)
                  (Agree-snoc x id t xs (==-refl id ∙ sym (==-refl t))
                    (Agree-new id t xs new fresh)))
              (λ k apart i e.
                let running =
                  inv.status k ∙ open_running (log k) (sym (inv.flying k) ∙ ap is_some e) in
                let other = Agree-apart id i k "running" xs new (inv.ids k i e) running in
                Agree-snoc x i k xs (ground (arith, other, apart)) (inv.ids k i e));
        flying =
            at_trace
              (λ k b.
                is_some (if b then some id else r.in_flight k)
                ≡ is_open (if b then tracked else log k))
              t refl (λ k e. inv.flying k);
        status =
            at_trace (λ k b. status_of k (xs ++ x ∷ []) ≡ log_status (if b then tracked else log k))
              t (status_of-snoc_new x t xs (==-refl t) fresh)
              (λ k apart. status_of-snoc_other x k xs (ground (arith, apart)) ∙ inv.status k);
      })

  closing :
      (fails : Failure) (t : Uuid) (status : String) (tables : FlowTables)
      → ((i k : Uuid) → Agree i k r.tables.executions → Agree i k tables.executions)
      → status_of t tables.executions ≡ log_status (end fails status (log t))
      → ((k : Uuid)
          → (k == t) ≡ false
          → status_of k tables.executions ≡ status_of k r.tables.executions)
      → Inv
          (record { in_flight = with_entry t none r.in_flight; tables = tables })
          (λ k. if k == t then end fails status (log k) else log k)
  closing fails t status tables keeps at others = record {
    ids =
        at_trace
          (λ k b.
            (i : Uuid) → (if b then none else r.in_flight k) ≡ some i → Agree i k tables.executions)
          t (λ i e. cc) (λ k apart i e. keeps i k (inv.ids k i e));
    flying =
        at_trace
          (λ k b.
            is_some (if b then none else r.in_flight k)
            ≡ is_open (if b then end fails status (log k) else log k))
          t (sym (end_not_open fails status (log t))) (λ k apart. inv.flying k);
    status =
        at_trace
          (λ k b.
            status_of k tables.executions
            ≡ log_status (if b then end fails status (log k) else log k))
          t at (λ k apart. others k apart ∙ inv.status k);
  }

  closed_lem :
      (fails : Failure) (t : Uuid) (status : String) (ms : ℕ) (text : Option String)
      → Inv
          (closed now fails t status ms text r (r.in_flight t))
          (λ k. if k == t then end fails status (log k) else log k)
  unfolding record_completion
  closed_lem fails t status ms text = go (r.in_flight t) refl
    where
      ended : Uuid → Log
      ended k = if k == t then end fails status (log k) else log k

      go : (o : Option Uuid) → r.in_flight t ≡ o → Inv (closed now fails t status ms text r o) ended
      go none e =
          let shut = sym (inv.flying t) ∙ ap is_some e in
          record {
            ids = inv.ids;
            flying =
                at_trace
                  (λ k b.
                    is_some (r.in_flight k)
                    ≡ is_open (if b then end fails status (log k) else log k))
                  t (ap is_some e ∙ sym (end_not_open fails status (log t))) (λ k a. inv.flying k);
            status =
                at_trace
                  (λ k b.
                    status_of k r.tables.executions
                    ≡ log_status (if b then end fails status (log k) else log k))
                  t (inv.status t ∙ sym (end_again fails status (log t) shut))
                  (λ k a. inv.status k);
          }
      go (some i) e = written fails
        where
          running : is_open (log t) ≡ true
          running = sym (inv.flying t) ∙ ap is_some e

          written :
              (fails : Failure)
              → Inv
                  (closed now fails t status ms text r (some i))
                  (λ k. if k == t then end fails status (log k) else log k)
          written (some error) =
              closing (some error) t status r.tables (λ j k a. a)
                (inv.status t ∙ sym (end_unwritten error status (log t))) (λ k apart. refl)
          written none =
              let xs = r.tables.executions in
              closing none t status
                (record r.tables { executions = completing now i status ms text xs })
                (λ j k a. Agree-completing now i status ms text j k xs a)
                (status_of-completing now i status ms text t xs (inv.ids t i e)
                    (inv.status t ∙ open_running (log t) running)
                  ∙ sym (end_written status (log t) running))
                (λ k apart.
                  status_of-completing_other now i status ms text t k xs (inv.ids t i e) apart)

receive-Inv :
    (show_error : Z8Error → String) (r : Recorder) (log : Uuid → Log) (now : ℕ) (fails : Failure)
    (id : Uuid) (e : Received)
    → Inv r log
    → IsNew id e r
    → Inv (receive show_error now fails id e r) (λ k. follow k fails e (log k))
unfolding receive follow
receive-Inv show_error r log now fails id (event (flow_started f t)) inv new =
    opened_lem r log inv now fails id f t new
receive-Inv show_error r log now fails id (event (flow_completed f t ms)) inv new =
    closed_lem r log inv now fails t "completed" ms none
receive-Inv show_error r log now fails id (event (flow_error f t e)) inv new =
    closed_lem r log inv now fails t "error" 0 (some (show_error e))
receive-Inv show_error r log now fails id (event (flow_stopped f t ms)) inv new =
    closed_lem r log inv now fails t "stopped" ms none
receive-Inv show_error r log now fails id (event _) inv new = inv
receive-Inv show_error r log now fails id (lagged n) inv new = inv

logged : (o : Option String) → o ≡ log_status (earlier o)
logged none = refl
logged (some s) = refl

not_flying : (o : Option String) → false ≡ is_open (earlier o)
not_flying none = refl
not_flying (some s) = refl

Run-Inv :
    {show_error : Z8Error → String} {t : FlowTables} {r : Recorder} {log : Uuid → Log}
    → Run show_error t r log
    → Inv r log
Run-Inv {t = t} spawn = record {
  ids = λ k i e. cc;
  flying = λ k. not_flying (status_of k t.executions);
  status = λ k. logged (status_of k t.executions);
}
Run-Inv {show_error = show} (next {s = s} {log = log} run now fails id e new) =
    receive-Inv show s log now fails id e (Run-Inv run) new

-- Whatever events the engine reports, whichever of them the recorder misses and whichever writes
-- fail, the table says of the execution of each trace what its log says: nothing before its start
-- is written, then that it runs, then the status of its first end from then on, or that it runs if
-- that end could not be written. The trace and the identifier of a start are assumed to be new and
-- its flow to be stored.
pub recorder_refines :
    (show_error : Z8Error → String) (t : FlowTables) (r : Recorder) (log : Uuid → Log)
    → Run show_error t r log
    → (trace : Uuid) → status_of trace r.tables.executions ≡ log_status (log trace)
recorder_refines show_error t r log run trace = (Run-Inv run).status trace
