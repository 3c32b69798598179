-- ===== src/Storage/Flows/Rows.antt =====
-- The rows of the table of flows.
use z8run.Base.{
  ℕ, Bool, true, false, ◌&&◌, not, Option, none, some, List, [], ◌∷◌, filter, find, find-filter,
  ◌==◌, ◌≡◌, refl, sym, ap, ◌∙◌, arith, Bool-cases, inl, inr, some_inv,
}
use z8run.Error.{Uuid}
use z8run.Flow.{Flow}
use z8run.Storage.Flows.{FlowRow, has_id, is_user, owned_row, upsert_flow}

pub upsert-other :
    (user : Option Uuid) (now : ℕ) (f : Flow) (id : Uuid) (rows : List FlowRow)
    → (f.id == id) ≡ false
    → find (has_id id) (upsert_flow user now f rows) ≡ find (has_id id) rows
unfolding upsert_flow find has_id
upsert-other user now f id [] e = rw e refl
upsert-other user now f id (r ∷ rows) e =
    let rest = upsert-other user now f id rows e in
    elim (Bool-cases (r.flow.id == f.id)) [
      | inl hit ↦
          let same : (r.flow.id == id) ≡ false = ground (arith, hit, e) in rw (hit, e, same) refl
      | inr miss ↦ elim (Bool-cases (r.flow.id == id)) [
        | inl g ↦ rw (miss, g) refl
        | inr g ↦ rw (miss, g) rest
      ]
    ]

pub delete-other :
    (hit : FlowRow → Bool) (id : Uuid) (rows : List FlowRow)
    → ((r : FlowRow) → has_id id r ≡ true → hit r ≡ false)
    → find (has_id id) (filter (λ r. not (hit r)) rows) ≡ find (has_id id) rows
delete-other hit id rows h = find-filter (has_id id) (λ r. not (hit r)) rows (λ r e. ap not (h r e))

-- A row that is found for a user is one of the flow, and of the user.
pub owned_inv :
    (id user : Uuid) (rows : List FlowRow) (r : FlowRow)
    → find (owned_row id user) rows ≡ some r
    → (r.flow.id ≡ id) × (r.user_id ≡ some user)
unfolding owned_row has_id find
owned_inv id user [] r e = cc
owned_inv id user (s ∷ rows) r e = elim (Bool-cases (owned_row id user s)) [
  | inl hit ↦ go s.user_id refl (rw hit at e) hit
  | inr miss ↦ owned_inv id user rows r (rw miss at e)
]
  where
    go :
        (o : Option Uuid)
        → s.user_id ≡ o
        → some s ≡ some r
        → ((s.flow.id == id) && is_user user o) ≡ true
        → (r.flow.id ≡ id) × (r.user_id ≡ some user)
    go none f same h = ground (arith, h)
    go (some u) f same h =
        let both : (s.flow.id ≡ id) × (u ≡ user) = ground (arith, h) in
        let row = sym (some_inv same) in
        (ap (λ x. x.flow.id) row ∙ both.0, ap (λ x. x.user_id) row ∙ f ∙ ap some both.1)
