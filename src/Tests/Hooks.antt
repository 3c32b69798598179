-- ===== src/Tests/Hooks.antt =====
-- Hook executions of one flow.
use z8run.Base.{◌≤◌, ◌≡◌, ◌↔◌, refl, some, none, [], count}
use z8run.HookLimits.{new_limits, find_slot, permits, set_permits, try_acquire, drop_permit}
use z8run.HookLimits.Slots.{Hooks, here, next, begin, start, hold, try_acquire_bound}

-- After one call of flow 5, with one slot.
abbrev one_call : Hooks
one_call = record {
  limits = (try_acquire 5 (start 1).limits).1;
  held = hold (try_acquire 5 (start 1).limits).0 [];
}

second_call_refused : (try_acquire 5 one_call.limits).0 ≡ none
unfolding try_acquire find_slot permits set_permits new_limits
second_call_refused = refl

freed_slot_reusable : (try_acquire 5 (drop_permit 0 one_call.limits)).0 ≡ some 0
unfolding try_acquire find_slot permits set_permits new_limits drop_permit
freed_slot_reusable = refl

try_acquire_bound_example :
    (count 0 one_call.held ≤ 1)
    × (find_slot 5 one_call.limits.slots ≡ some 0
        → ((try_acquire 5 one_call.limits).0 ≡ none) ↔ (count 0 one_call.held ≡ 1))
try_acquire_bound_example = try_acquire_bound 1 5 0 (next here (begin (start 1) 5))
