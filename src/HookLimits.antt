-- ===== src/HookLimits.antt =====
-- crates/z8run-api/src/hook_limits.rs: the slots for hook executions of a flow.
pub mod Slots
use z8run.Base.{
  ℕ, zero, suc, ◌+◌, ◌*◌, Bool, true, false, Option, none, some, List, [], ◌∷◌, ◌++◌, length, ◌==◌,
  if◌then◌else◌,
}
use z8run.Error.{Uuid}

-- A semaphore is shared by the map and the permits taken from it, so it is a name: its position
-- in the list of all semaphores.
abbrev pub Semaphore : Type 0
Semaphore = ℕ

-- `available` holds the permits that each semaphore has left, `slots` is the map of `HookLimits`.
pub record HookLimits : Type 0 where
  pub max_body_bytes : ℕ
  pub max_concurrency : ℕ
  pub timeout_secs : ℕ
  pub slots : List (Uuid × Semaphore)
  pub available : List ℕ

unfoldable pub new_limits : (max_body_bytes max_concurrency timeout_secs : ℕ) → HookLimits
new_limits b n t = record {
  max_body_bytes = b;
  max_concurrency = n;
  timeout_secs = t;
  slots = [];
  available = [];
}

-- `positive`, with the number that the variable holds, if it holds one.
abbrev pub positive : Option ℕ → ℕ → ℕ
positive none default = default
positive (some zero) default = default
positive (some (suc n)) default = suc n

unfoldable pub limits_from_env : (body concurrency timeout : Option ℕ) → HookLimits
unfolding new_limits
limits_from_env body concurrency timeout =
    new_limits (positive body (1024 * 1024)) (positive concurrency 10) (positive timeout 10)

unfoldable pub find_slot : Uuid → List (Uuid × Semaphore) → Option Semaphore
find_slot flow_id [] = none
find_slot flow_id ((k, s) ∷ m) =
    let rest = find_slot flow_id m in if k == flow_id then some s else rest

unfoldable pub remove_slot : Uuid → List (Uuid × Semaphore) → List (Uuid × Semaphore)
remove_slot flow_id [] = []
remove_slot flow_id ((k, s) ∷ m) =
    let rest = remove_slot flow_id m in if k == flow_id then rest else (k, s) ∷ rest

-- The permits left at a semaphore, and their change.
unfoldable pub permits : Semaphore → List ℕ → ℕ
permits s [] = 0
permits zero (n ∷ ns) = n
permits (suc s) (n ∷ ns) = permits s ns

unfoldable pub set_permits : Semaphore → ℕ → List ℕ → List ℕ
set_permits s v [] = []
set_permits zero v (n ∷ ns) = v ∷ ns
set_permits (suc s) v (n ∷ ns) = n ∷ set_permits s v ns

-- `slots.entry(flow_id).or_insert_with(|| Arc::new(Semaphore::new(self.max_concurrency)))`
abbrev pub entry_of : Uuid → Option Semaphore → HookLimits → Semaphore × HookLimits
entry_of flow_id (some s) l = (s, l)
entry_of flow_id none l = (
  length l.available,
  record l {
    slots = l.slots ++ (flow_id, length l.available) ∷ [];
    available = l.available ++ l.max_concurrency ∷ [];
  },
)

-- `semaphore.try_acquire_owned()`, with the permits that are left.
abbrev pub take_permit : Semaphore → ℕ → HookLimits → Option Semaphore × HookLimits
take_permit s zero l = (none, l)
take_permit s (suc n) l = (some s, record l { available = set_permits s n l.available })

unfoldable pub try_acquire : Uuid → HookLimits → Option Semaphore × HookLimits
unfolding set_permits permits
try_acquire flow_id l =
    let (s, l') = entry_of flow_id (find_slot flow_id l.slots) l in
    take_permit s (permits s l'.available) l'

-- A permit is dropped: it goes back to its semaphore, also if the map has forgotten it.
unfoldable pub drop_permit : Semaphore → HookLimits → HookLimits
drop_permit s l = record l { available = set_permits s (permits s l.available + 1) l.available }

unfoldable pub release : Uuid → HookLimits → HookLimits
release flow_id l = record l { slots = remove_slot flow_id l.slots }

unfoldable pub tracked_flows : HookLimits → ℕ
tracked_flows l = length l.slots
