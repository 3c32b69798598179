-- ===== src/Api/Recorder/Rows.antt =====
-- The rows of the executions under the writes of the recorder.
use z8run.Base.{
  ℕ, String, Bool, true, false, Option, none, some, List, [], ◌∷◌, ◌++◌, map, if◌then◌else◌, ◌==◌,
  str_eq, ◌≡◌, refl, sym, ap, ◌∙◌, arith, Bool-cases, inl, inr, some_inv,
}
use z8run.Error.{Uuid}
use z8run.Storage.Flows.{ExecutionRecord}
use z8run.Storage.Executions.{runs_as, completed_as}

-- The status of the first row of a trace.
abbrev pub status_of : Uuid → List ExecutionRecord → Option String
status_of t [] = none
status_of t (x ∷ xs) = if x.trace_id == t then some x.status else status_of t xs

abbrev pub has_row : (id : Uuid) → List ExecutionRecord → Bool
has_row id [] = false
has_row id (x ∷ xs) = if x.id == id then true else has_row id xs

-- The rows with an identifier are those of a trace.
abbrev pub Agree : (id t : Uuid) → List ExecutionRecord → Type 0
Agree id t [] = Unit
Agree id t (x ∷ xs) = ((x.id == id) ≡ (x.trace_id == t)) × Agree id t xs

abbrev pub completing :
    (now : ℕ) (id : Uuid) (status : String) (ms : ℕ) (e : Option String)
    → List ExecutionRecord
    → List ExecutionRecord
completing now id status ms e =
    map (λ x. if runs_as id x then completed_as now status ms e x else x)

module _ (x : ExecutionRecord) where
  pub status_of-snoc_other :
      (t : Uuid) (xs : List ExecutionRecord)
      → (x.trace_id == t) ≡ false
      → status_of t (xs ++ x ∷ []) ≡ status_of t xs
  status_of-snoc_other t [] apart = rw apart refl
  status_of-snoc_other t (y ∷ ys) apart =
      ap (λ r. if y.trace_id == t then some y.status else r) (status_of-snoc_other t ys apart)

  pub status_of-snoc_new :
      (t : Uuid) (xs : List ExecutionRecord)
      → (x.trace_id == t) ≡ true
      → status_of t xs ≡ none
      → status_of t (xs ++ x ∷ []) ≡ some x.status
  status_of-snoc_new t [] same e = rw same refl
  status_of-snoc_new t (y ∷ ys) same e = let ih = status_of-snoc_new t ys same in ground (arith, ih)

  pub Agree-snoc :
      (id t : Uuid) (xs : List ExecutionRecord)
      → (x.id == id) ≡ (x.trace_id == t)
      → Agree id t xs
      → Agree id t (xs ++ x ∷ [])
  Agree-snoc id t [] h a = (h, tt)
  Agree-snoc id t (y ∷ ys) h (g, a) = (g, Agree-snoc id t ys h a)

-- A new row: neither its identifier nor its trace is in use.
pub Agree-new :
    (id t : Uuid) (xs : List ExecutionRecord)
    → has_row id xs ≡ false
    → status_of t xs ≡ none
    → Agree id t xs
Agree-new id t [] f g = tt
Agree-new id t (y ∷ ys) f g = let ih = Agree-new id t ys in ground (arith, ih)

-- A trace with a row has the identifier of that row.
pub Agree-apart :
    (id other t : Uuid) (s : String) (xs : List ExecutionRecord)
    → has_row id xs ≡ false
    → Agree other t xs
    → status_of t xs ≡ some s
    → (id == other) ≡ false
Agree-apart id other t s [] f a e = cc
Agree-apart id other t s (y ∷ ys) f (g, a) e =
    let ih = Agree-apart id other t s ys in ground (arith, ih)

module _ (now : ℕ) (id : Uuid) (status : String) (ms : ℕ) (text : Option String) where
  pub Agree-completing :
      (other t : Uuid) (xs : List ExecutionRecord)
      → Agree other t xs
      → Agree other t (completing now id status ms text xs)
  Agree-completing other t [] a = tt
  Agree-completing other t (y ∷ ys) (g, a) =
      let ih = Agree-completing other t ys a in
      elim (Bool-cases (runs_as id y)) [ inl e ↦ rw e (g, ih) | inr e ↦ rw e (g, ih) ]

  pub status_of-completing_other :
      (t other : Uuid) (xs : List ExecutionRecord)
      → Agree id t xs
      → (other == t) ≡ false
      → status_of other (completing now id status ms text xs) ≡ status_of other xs
  status_of-completing_other t other [] a apart = refl
  status_of-completing_other t other (y ∷ ys) (g, a) apart =
      let ih = status_of-completing_other t other ys a apart in ground (arith, ih)

  pub status_of-completing :
      (t : Uuid) (xs : List ExecutionRecord)
      → Agree id t xs
      → status_of t xs ≡ some "running"
      → status_of t (completing now id status ms text xs) ≡ some status
  status_of-completing t [] a e = cc
  status_of-completing t (y ∷ ys) (g, a) e =
      let ih = status_of-completing t ys a in
      let runs : (y.trace_id == t) ≡ true → str_eq y.status "running" ≡ true =
        λ h. ap (λ s. str_eq s "running") (some_inv (sym (rw h refl) ∙ e)) in
      ground (arith, ih, runs)
