-- ===== src/Degrade/Tests.antt =====
-- A breaker that trips, opens again from half-open once, and recovers.
use hc_framework_go.Prelude.{ℕ, Bool, List, refl, ◌≡◌, true, false, [], ◌∷◌, arith, pos, ◌+ℤ◌, ◌-ℤ◌}
use hc_framework_go.Degrade.{
  Degradation, closed, half_open, open_, Service, get_or_create, sync, on_state_change,
  on_breaker_open, on_breaker_closed, trips, cools, relapses, recovers, looked_up, changed_state,
  stored, State, Steps, stop, step,
}
use hc_framework_go.Degrade.Leak.{fresh, Counts, open_count-Counts, relapse-active}

abbrev degradation : ℕ → Bool → List Bool → Degradation
degradation open_count active stores = record {
  open_count = pos open_count;
  active = active;
  stores = stores;
}

abbrev one_route : State → Degradation → Service
one_route state d = record {
  degradation = d;
  breakers = record { route = 3; state = state; is_current = true } ∷ [];
}

-- The breaker opens, the degradation starts, and it opens once more from half-open.
abbrev relapsed_service : Service
relapsed_service = one_route open_ (degradation 2 true [])

relapsed : Steps fresh relapsed_service 1
unfolding get_or_create sync on_state_change on_breaker_open ◌+ℤ◌
relapsed = step (looked_up fresh 3 true) (
    step (changed_state fresh.degradation [] [] 3 true closed open_ trips) (
      step (stored (pos 1) false true [] [] (one_route open_ fresh.degradation).breakers) (
        step (changed_state (degradation 1 true []) [] [] 3 true open_ half_open cools) (
          step (changed_state (degradation 1 true []) [] [] 3 true half_open open_ relapses)
            (stop relapsed_service)))))

abbrev healthy : Service
healthy = one_route closed (degradation 1 true [])

recovered : Steps relapsed_service healthy 0
unfolding on_state_change on_breaker_closed ◌-ℤ◌
recovered = step (changed_state (degradation 2 true []) [] [] 3 true open_ half_open cools) (
    step (changed_state (degradation 2 true []) [] [] 3 true half_open closed recovers)
      (stop healthy))

open_count-Counts_example : Counts relapsed_service 1
open_count-Counts_example = open_count-Counts relapsed_service 1 relapsed

-- Every breaker is closed, and the degradation is active.
relapse-active_example : healthy.degradation.active ≡ true
relapse-active_example =
    relapse-active relapsed_service healthy 1 0 relapsed (omega arith) (refl, tt) recovered
