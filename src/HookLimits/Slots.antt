-- ===== src/HookLimits/Slots.antt =====
-- Hook executions under any order of calls: how many run at once.
use z8run.Base.{
  ℕ, zero, suc, ◌+◌, ◌≤◌, ◌<◌, ◌≡◌, refl, ap, inl, inr, ◌↔◌, true, false, Option, none, some, List,
  [], ◌∷◌, ◌++◌, length, length-append, count, ◌==◌, ==→≡, ◌⊎◌, ltb, is_some, if◌then◌else◌,
  Bool-cases, arith,
}
use z8run.Error.{Uuid}
use z8run.HookLimits.{
  Semaphore, HookLimits, new_limits, find_slot, remove_slot, permits, set_permits, entry_of,
  take_permit, try_acquire, drop_permit, release,
}

-- The limits with the permits that executions hold.
pub record Hooks : Type 0 where
  pub limits : HookLimits
  pub held : List Semaphore

abbrev pub hold : Option Semaphore → List Semaphore → List Semaphore
hold none held = held
hold (some s) held = s ∷ held

-- A hook call begins, one that holds a permit ends, and the hooks of a flow are retired.
pub data Step : Hooks → Hooks → Type 0 where
  begin :
      (h : Hooks) (flow_id : Uuid)
      → Step h (record {
        limits = (try_acquire flow_id h.limits).1;
        held = hold (try_acquire flow_id h.limits).0 h.held;
      })
  end :
      (l : HookLimits) (before : List Semaphore) (s : Semaphore) (after : List Semaphore)
      → Step
          (record { limits = l; held = before ++ s ∷ after })
          (record { limits = drop_permit s l; held = before ++ after })
  retire : (h : Hooks) (flow_id : Uuid) → Step h (record h { limits = release flow_id h.limits })

pub data Reach (h : Hooks) : Hooks → Type 0 where
  here : Reach h h
  next : {u v : Hooks} → Reach h u → Step u v → Reach h v

pub record Inv (max : ℕ) (h : Hooks) : Type 0 where
  pub max_kept : h.limits.max_concurrency ≡ max
  pub balance :
      (s : Semaphore)
      → permits s h.limits.available + count s h.held
        ≡ (if ltb s (length h.limits.available) then max else 0)
  pub known :
      (flow_id : Uuid) (s : Semaphore)
      → find_slot flow_id h.limits.slots ≡ some s
      → s < length h.limits.available

permits-set_permits :
    (t s v : ℕ) (ns : List ℕ)
    → permits t (set_permits s v ns)
      ≡ (if ltb s (length ns) then (if s == t then v else permits t ns) else permits t ns)
unfolding permits set_permits
permits-set_permits t s v [] = ground arith
permits-set_permits zero zero v (n ∷ ns) = ground arith
permits-set_permits (suc t) zero v (n ∷ ns) = ground arith
permits-set_permits zero (suc s) v (n ∷ ns) = ground arith
permits-set_permits (suc t) (suc s) v (n ∷ ns) = ground (arith, permits-set_permits t s v ns)

length-set_permits : (s v : ℕ) (ns : List ℕ) → length (set_permits s v ns) ≡ length ns
unfolding set_permits
length-set_permits s v [] = refl
length-set_permits zero v (n ∷ ns) = refl
length-set_permits (suc s) v (n ∷ ns) = ap suc (length-set_permits s v ns)

permits-append :
    (t v : ℕ) (ns : List ℕ)
    → permits t (ns ++ v ∷ []) ≡ (if t == length ns then v else permits t ns)
unfolding permits
permits-append zero v [] = refl
permits-append (suc t) v [] = ground arith
permits-append zero v (n ∷ ns) = ground arith
permits-append (suc t) v (n ∷ ns) = ground (arith, permits-append t v ns)

find-append :
    (f k : Uuid) (s : Semaphore) (m : List (Uuid × Semaphore))
    → find_slot f (m ++ (k, s) ∷ [])
      ≡ (if is_some (find_slot f m) then find_slot f m else (if k == f then some s else none))
unfolding find_slot
find-append f k s [] = ground arith
find-append f k s ((j, r) ∷ m) = ground (arith, find-append f k s m)

pub find-remove :
    (f k : Uuid) (m : List (Uuid × Semaphore))
    → find_slot f (remove_slot k m) ≡ (if k == f then none else find_slot f m)
unfolding find_slot remove_slot
find-remove f k [] = ground arith
find-remove f k ((j, r) ∷ m) = ground (arith, find-remove f k m)

count-split :
    (t s : ℕ) (before after : List ℕ)
    → count t (before ++ s ∷ after) ≡ (if s == t then 1 else 0) + count t (before ++ after)
unfolding count
count-split t s [] after = ground arith
count-split t s (x ∷ before) after = ground (arith, count-split t s before after)

abbrev pub start : (max : ℕ) → Hooks
start max = record { limits = new_limits 1048576 max 10; held = [] }

start-Inv : (max : ℕ) → Inv max (start max)
unfolding new_limits permits find_slot count
start-Inv max = record { max_kept = refl; balance = λ s. ground arith; known = λ f s h. cc }

module _ (max : ℕ) where
  -- The entry of a flow keeps the invariant and knows its semaphore.
  entry-Inv :
      (l : HookLimits) (held : List Semaphore) (flow_id : Uuid) (o : Option Semaphore)
      → find_slot flow_id l.slots ≡ o
      → Inv max (record { limits = l; held = held })
      → Inv max (record { limits = (entry_of flow_id o l).1; held = held })
        × ((entry_of flow_id o l).0 < length (entry_of flow_id o l).1.available)
  entry-Inv l held flow_id (some s) e inv = (inv, inv.known flow_id s e)
  entry-Inv l held flow_id none e inv = (
    record {
      max_kept = inv.max_kept;
      balance = λ s. ground (
        arith,
        inv.balance s,
        inv.max_kept,
        permits-append s l.max_concurrency l.available,
        length-append l.available (l.max_concurrency ∷ []),
      );
      known = λ f s h. ground (
        arith,
        inv.known f s,
        h,
        find-append f flow_id (length l.available) l.slots,
        length-append l.available (l.max_concurrency ∷ []),
      );
    },
    omega (arith, length-append l.available (l.max_concurrency ∷ [])),
  )

  take-Inv :
      (l : HookLimits) (held : List Semaphore) (s : Semaphore) (n : ℕ)
      → permits s l.available ≡ n
      → s < length l.available
      → Inv max (record { limits = l; held = held })
      → Inv max (record { limits = (take_permit s n l).1; held = hold (take_permit s n l).0 held })
  unfolding count
  take-Inv l held s zero e k inv = inv
  take-Inv l held s (suc n) e k inv = record {
    max_kept = inv.max_kept;
    balance = λ t. balance t (Bool-cases (s == t));
    known = λ f t h. ground (arith, inv.known f t h, length-set_permits s n l.available);
  }
    where
      balance :
          (t : Semaphore)
          → ((s == t) ≡ true) ⊎ ((s == t) ≡ false)
          → permits t (set_permits s n l.available) + count t (s ∷ held)
            ≡ (if ltb t (length (set_permits s n l.available)) then max else 0)
      balance t (inl same) = ground (
        arith,
        inv.balance t,
        permits-set_permits t s n l.available,
        length-set_permits s n l.available,
        ap (λ x. permits x l.available) (==→≡ s t same),
      )
      balance t (inr other) = ground (
        arith,
        inv.balance t,
        permits-set_permits t s n l.available,
        length-set_permits s n l.available,
      )

  Step-Inv : {u v : Hooks} → Step u v → Inv max u → Inv max v
  unfolding try_acquire release drop_permit
  Step-Inv (begin h flow_id) inv =
      let (entered, k) =
        entry-Inv h.limits h.held flow_id (find_slot flow_id h.limits.slots) refl inv in
      let (s, l) = entry_of flow_id (find_slot flow_id h.limits.slots) h.limits in
      take-Inv l h.held s (permits s l.available) refl k entered
  Step-Inv (end l before s after) inv = record {
    max_kept = inv.max_kept;
    balance = λ t. balance t (Bool-cases (s == t));
    known = λ f t h.
        ground
          (arith, inv.known f t h, length-set_permits s (permits s l.available + 1) l.available);
  }
    where
      balance :
          (t : Semaphore)
          → ((s == t) ≡ true) ⊎ ((s == t) ≡ false)
          → permits t (set_permits s (permits s l.available + 1) l.available)
              + count t (before ++ after)
            ≡ (if ltb t (length (set_permits s (permits s l.available + 1) l.available))
                then max
                else 0)
      balance t (inl same) = ground (
        arith,
        inv.balance t,
        inv.balance s,
        count-split t s before after,
        permits-set_permits t s (permits s l.available + 1) l.available,
        length-set_permits s (permits s l.available + 1) l.available,
        ==→≡ s t same,
      )
      balance t (inr other) = ground (
        arith,
        inv.balance t,
        count-split t s before after,
        permits-set_permits t s (permits s l.available + 1) l.available,
        length-set_permits s (permits s l.available + 1) l.available,
      )
  Step-Inv (retire h flow_id) inv = record {
    max_kept = inv.max_kept;
    balance = inv.balance;
    known = λ f s g. ground (arith, inv.known f s, find-remove f flow_id h.limits.slots, g);
  }

  Reach-Inv : {v : Hooks} → Reach (start max) v → Inv max v
  Reach-Inv here = start-Inv max
  Reach-Inv (next r s) = Step-Inv s (Reach-Inv r)

  -- Under every order of calls, permits that end and hooks that are retired, from limits without
  -- slots: no semaphore has more than `max_concurrency` permits out, and a flow whose semaphore is
  -- known is refused just when all of them are out.
  pub try_acquire_bound :
      {h : Hooks} (flow_id : Uuid) (s : Semaphore)
      → Reach (start max) h
      → (count s h.held ≤ max)
        × (find_slot flow_id h.limits.slots ≡ some s
            → ((try_acquire flow_id h.limits).0 ≡ none) ↔ (count s h.held ≡ max))
  unfolding try_acquire
  try_acquire_bound {h} flow_id s r =
      let inv = Reach-Inv r in
      (
        ground (arith, inv.balance s),
        λ g. rw g (
            go (permits s h.limits.available)
              (ground (arith, inv.balance s, inv.known flow_id s g))),
      )
    where
      go :
          (n : ℕ)
          → n + count s h.held ≡ max
          → ((take_permit s n h.limits).0 ≡ none) ↔ (count s h.held ≡ max)
      go zero b = ((λ e. omega (arith, b)), (λ e. refl))
      go (suc n) b = ((λ e. cc), (λ e. absurd (omega (arith, b, e))))
