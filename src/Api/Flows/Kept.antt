-- ===== src/Api/Flows/Kept.antt =====
-- What the steps of a handler keep of a flow that is not the user's.
use z8run.Base.{
  ℕ, not, false, Option, none, some, find, filter, ◌==◌, ==→≡, ◌≡◌, refl, sym, ap, ◌∙◌, subst,
  arith, Bool-cases, inl, inr,
}
use z8run.Error.{Uuid}
use z8run.Flow.{Flow}
use z8run.Engine.{ActiveFlow, get_active}
use z8run.HookLimits.{find_slot, release}
use z8run.HookLimits.Slots.{find-remove}
use z8run.Storage.{StorageResult, ◌>>=◌, Failure, query}
use z8run.Storage.Flows.{
  FlowRow, FlowTables, has_id, owned_row, upsert_flow, get_flow_for_user, flow_or_not_found,
  delete_where, then_undeploy,
}
use z8run.Storage.Flows.Rows.{upsert-other, delete-other, owned_inv}
use z8run.Api.Hooks.Deploy.{AreSame, undeploy_flow_lem}
use z8run.Api.Flows.{Server, Env, Handled, having, after_delete, retired}

-- A flow is as it was: its row with its owner, its public hooks and their snapshot, its slots, and
-- its executions in progress.
pub record IsKept (id : Uuid) (s s' : Server) : Type 0 where
  pub row : find (has_id id) s'.tables.flows ≡ find (has_id id) s.tables.flows
  pub hooks : AreSame id s.tables.deployments s'.tables.deployments
  pub slot : find_slot id s'.limits.slots ≡ find_slot id s.limits.slots
  pub running :
      (t : Uuid) (a : ActiveFlow)
      → get_active t s.engine.active_flows ≡ some a
      → a.flow_id ≡ id
      → get_active t s'.engine.active_flows ≡ some a

pub unchanged : (id : Uuid) (s : Server) → IsKept id s s
unchanged id s = record {
  row = refl;
  hooks = (λ m p. refl, refl);
  slot = refl;
  running = λ t a e f. e;
}

pub having_lem {ℓ} :
    {A : Type ℓ} (env : Env) (P : Server → Type 0) (x : StorageResult A) (s : Server)
    (next : A → Handled)
    → P s
    → ((a : A) → x ≡ StorageResult.ok a → P (next a).0)
    → P (having env x s next).0
having_lem env P (StorageResult.err e) s next h k = h
having_lem env P (StorageResult.ok a) s next h k = k a refl

-- A user who gets at a flow owns it.
granted :
    (fails : Failure) (target user : Uuid) (t : FlowTables) (f : Flow)
    → get_flow_for_user fails target user t ≡ StorageResult.ok f
    → (r : FlowRow) × (find (owned_row target user) t.flows ≡ some r) × (f.id ≡ target)
unfolding get_flow_for_user
granted fails target user t f e = go fails (find (owned_row target user) t.flows) refl e
  where
    go :
        (fails : Failure) (o : Option FlowRow)
        → find (owned_row target user) t.flows ≡ o
        → (query fails o >>= flow_or_not_found target) ≡ StorageResult.ok f
        → (r : FlowRow) × (find (owned_row target user) t.flows ≡ some r) × (f.id ≡ target)
    go (some text) o g h = cc
    go none none g h = cc
    go none (some r) g h =
        let same =
          ap (λ x. elim x [ StorageResult.ok y ↦ y.id | StorageResult.err _ ↦ r.flow.id ]) h in
        (r, g, sym same ∙ (owned_inv target user t.flows r g).0)

module _ (env : Env) (user id : Uuid) (s : Server)
    (foreign : find (owned_row id user) s.tables.flows ≡ none) where
  other :
      (target : Uuid) (r : FlowRow)
      → find (owned_row target user) s.tables.flows ≡ some r
      → (target == id) ≡ false
  other target r e = elim (Bool-cases (target == id)) [
    | inl same ↦
        let no = ap (λ i. find (owned_row i user) s.tables.flows) (==→≡ target id same) in cc
    | inr apart ↦ apart
  ]

  pub accessed :
      (fails : Failure) (target : Uuid) (f : Flow)
      → get_flow_for_user fails target user s.tables ≡ StorageResult.ok f
      → (f.id ≡ target) × ((target == id) ≡ false)
  accessed fails target f e =
      let (r, g, same) = granted fails target user s.tables f e in (same, other target r g)

  pub saved :
      (now : ℕ) (fails : Failure) (f : Flow) (owner : Option Uuid) (t : FlowTables)
      → (f.id == id) ≡ false
      → query fails (record s.tables { flows = upsert_flow owner now f s.tables.flows })
        ≡ StorageResult.ok t
      → IsKept id s (record s { tables = t })
  saved now (some text) f owner t apart e = cc
  saved now none f owner t apart e =
      let same : record s.tables { flows = upsert_flow owner now f s.tables.flows } ≡ t =
        ap (λ x. elim x [ StorageResult.ok y ↦ y | StorageResult.err _ ↦ s.tables ]) e in
      subst (λ t. IsKept id s (record s { tables = t })) same
        (record {
          row = upsert-other owner now f id s.tables.flows apart;
          hooks = (λ m p. refl, refl);
          slot = refl;
          running = λ t a e f. e;
        })

  -- The hooks of another flow are retired.
  pub retired_lem : (target : Uuid) → (target == id) ≡ false → IsKept id s (retired env target s)
  unfolding release
  retired_lem target apart = record {
    row = refl;
    hooks = (undeploy_flow_lem target s.tables.deployments).2 id (ground (arith, apart));
    slot = find-remove id target s.limits.slots ∙ rw apart refl;
    running = λ t a e f. e;
  }

  pub deleted_lem :
      (fails undeploy_fails : Failure) (target : Uuid)
      → IsKept id s
          (after_delete env target s
            (delete_where fails undeploy_fails target (owned_row target user) s.tables)).0
  unfolding owned_row
  deleted_lem (some text) undeploy_fails target = unchanged id s
  deleted_lem none undeploy_fails target =
      go undeploy_fails (find (owned_row target user) s.tables.flows) refl
    where
      left : FlowTables
      left = record s.tables {
        flows = filter (λ r. not (owned_row target user r)) s.tables.flows;
        executions = filter (λ x. not (x.flow_id == target)) s.tables.executions;
      }

      go :
          (undeploy_fails : Failure) (o : Option FlowRow)
          → find (owned_row target user) s.tables.flows ≡ o
          → IsKept id s
              (after_delete env target s (then_undeploy undeploy_fails target o s.tables left)).0
      go undeploy_fails none g = unchanged id s
      go (some text) (some r) g =
          let apart = other target r g in
          record {
            row =
                delete-other (owned_row target user) id s.tables.flows
                  (λ x h. ground (arith, h, apart));
            hooks = (λ m p. refl, refl);
            slot = refl;
            running = λ t a e f. e;
          }
      go none (some r) g =
          let apart = other target r g in
          let kept = retired_lem target apart in
          record {
            row =
                delete-other (owned_row target user) id s.tables.flows
                  (λ x h. ground (arith, h, apart));
            hooks = kept.hooks;
            slot = kept.slot;
            running = λ t a e f. e;
          }
