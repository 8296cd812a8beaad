-- ===== src/Degrade/Leak.antt =====
-- The count of open breakers against the breakers themselves: internal/degrade/degrade.go under
-- internal/middleware/circuitbreaker.go.
use hc_framework_go.Prelude.{
  ℕ, suc, ◌+◌, ◌<◌, ◌≡◌, refl, Bool, true, false, List, [], ◌∷◌, ◌++◌, arith, map, if◌then◌else◌,
  find?, All, All-around, Bool-cases, pos, ◌+ℤ◌, ◌-ℤ◌, count, count-append, Option-cases, inl, inr,
  ap, ◌∙◌, ℤ,
}
use hc_framework_go.Degrade.{
  Degradation, on_breaker_open, on_breaker_closed, State, closed, half_open, open_, on_state_change,
  Breaker, Service, get_or_create, sync, retire, holds_route, IsTransition, trips, cools, relapses,
  recovers, relapse_count, Step, looked_up, changed_state, stored, is_one, is_zero, Steps, stop,
  step,
}

abbrev pub is_unhealthy : Breaker → Bool
is_unhealthy b = not_closed b.state
  where
    not_closed : State → Bool
    not_closed closed = false
    not_closed _ = true

-- How many breakers are not closed.
abbrev pub unhealthy : List Breaker → ℕ
unhealthy = count is_unhealthy

abbrev pub Tally : Degradation → ℕ → Type 0
Tally d n = d.open_count ≡ pos n

-- The count says how many breakers are not closed, and `extra` more.
abbrev pub Counts : Service → ℕ → Type 0
Counts s extra = Tally s.degradation (unhealthy s.breakers + extra)

retally : {z : ℤ} (m n : ℕ) → m ≡ n → z ≡ pos m → z ≡ pos n
retally m n e c = c ∙ ap pos e

opened-Tally : (d : Degradation) (n : ℕ) → Tally d n → Tally (on_breaker_open d) (suc n)
unfolding on_breaker_open ◌+ℤ◌
opened-Tally d n c = rw c (ground arith)

closed-Tally : (d : Degradation) (n : ℕ) → Tally d (suc n) → Tally (on_breaker_closed d) n
unfolding on_breaker_closed ◌-ℤ◌
closed-Tally d n c = rw c (ground arith)

unhealthy-split :
    (before after : List Breaker) (b : Breaker)
    → unhealthy (before ++ b ∷ after)
      ≡ (if is_unhealthy b then 1 else 0) + (unhealthy before + unhealthy after)
unhealthy-split before after b = ground (arith, count-append is_unhealthy before (b ∷ after))

unhealthy-retire : (bs : List Breaker) → unhealthy (map retire bs) ≡ unhealthy bs
unhealthy-retire [] = refl
unhealthy-retire (b ∷ bs) = ground (arith, unhealthy-retire bs)

sync-Counts :
    (s : Service) (changed : Bool) (extra : ℕ) → Counts s extra → Counts (sync changed s) extra
unfolding sync
sync-Counts s true extra c = rw (unhealthy-retire s.breakers) c
sync-Counts s false extra c = c

created-Counts :
    (s : Service) (route extra : ℕ) → Counts s extra → Counts (get_or_create route s) extra
unfolding get_or_create
created-Counts s route extra c = elim (Option-cases (find? (holds_route route) s.breakers)) [
  | inl missing ↦ rw (missing, get_or_create) c
  | inr (b, there) ↦ rw (there, get_or_create) c
]

-- The breakers around one whose state changes.
module _ (before after : List Breaker) (route : ℕ) (is_current : Bool) where
  abbrev with_state : State → List Breaker
  with_state state =
      before ++ record { route = route; state = state; is_current = is_current } ∷ after

  split :
      (state : State)
      → unhealthy (with_state state)
        ≡ (if is_unhealthy (record { route = route; state = state; is_current = is_current })
            then 1
            else 0)
          + (unhealthy before + unhealthy after)
  split state =
      unhealthy-split before after
        (record { route = route; state = state; is_current = is_current })

  changed-Counts :
      (d : Degradation) (from to : State) (extra : ℕ)
      → IsTransition from to
      → Counts (record { degradation = d; breakers = with_state from }) extra
      → Counts
          (record { degradation = on_state_change to d; breakers = with_state to })
          (extra + relapse_count from to)
  unfolding on_state_change
  changed-Counts d _ _ extra trips c =
      retally _ _ (omega (arith, split closed, split open_)) (opened-Tally d _ c)
  changed-Counts d _ _ extra cools c = retally _ _ (omega (arith, split half_open, split open_)) c
  changed-Counts d _ _ extra relapses c =
      retally _ _ (omega (arith, split half_open, split open_)) (opened-Tally d _ c)
  changed-Counts d _ _ extra recovers c =
      closed-Tally d _ (retally _ _ (omega (arith, split half_open, split closed)) c)

Step-Counts : (s s' : Service) (n extra : ℕ) → Step s s' n → Counts s extra → Counts s' (extra + n)
Step-Counts s _ _ extra (looked_up _ route changed) c =
    retally _ _ (omega arith)
      (created-Counts (sync changed s) route extra (sync-Counts s changed extra c))
Step-Counts _ _ _ extra (changed_state d before after route is_current from to t) c =
    changed-Counts before after route is_current d from to extra t c
Step-Counts _ _ _ extra (stored open_count active value before after breakers) c =
    retally _ _ (omega arith) c

Steps-Counts :
    (s s' : Service) (n extra : ℕ) → Steps s s' n → Counts s extra → Counts s' (extra + n)
Steps-Counts s _ _ extra (stop _) c = retally _ _ (omega arith) c
Steps-Counts s s' _ extra (step {u = u} {m = m} {n = n} one rest) c =
    retally _ _ (omega arith) (Steps-Counts u s' n (extra + m) rest (Step-Counts s u m extra one c))

abbrev pub fresh : Service
fresh = record {
  degradation = record { open_count = pos 0; active = false; stores = [] };
  breakers = [];
}

-- After any requests, reloads and changes of state, in whatever order the calls of different breakers
-- make their stores, the count of open breakers is the number of breakers that are not closed, those
-- that a reload has dropped included, and one more for every time that a half-open breaker opened
-- again.
pub open_count-Counts : (s : Service) (n : ℕ) → Steps fresh s n → Counts s n
open_count-Counts s n run = retally _ _ (omega arith) (Steps-Counts fresh s n 0 run refl)

-- The degradation is active, and no call is about to end it.
abbrev pub IsOn : Degradation → Type 0
IsOn d = (d.active ≡ true) × All (λ value. value ≡ true) d.stores

opened-IsOn : (d : Degradation) → IsOn d → IsOn (on_breaker_open d)
unfolding on_breaker_open
opened-IsOn d (a, all) = (
  a,
  elim (Bool-cases (is_one (d.open_count +ℤ pos 1))) [
    | inl first ↦ rw first (refl, all)
    | inr more ↦ rw more all
  ],
)

-- Where the count does not reach zero, nothing ends it.
closed-IsOn :
    (d : Degradation) (n : ℕ) → Tally d (suc n) → 0 < n → IsOn d → IsOn (on_breaker_closed d)
unfolding on_breaker_closed ◌-ℤ◌
closed-IsOn d n c h (a, all) =
    let some_left : is_zero (d.open_count -ℤ pos 1) ≡ false = rw c (ground (arith, h)) in
    (a, rw some_left all)

module _ (before after : List Breaker) (route : ℕ) (is_current : Bool) where
  changed-IsOn :
      (d : Degradation) (from to : State) (extra : ℕ)
      → IsTransition from to
      → 0 < extra
      → Counts
          (record { degradation = d; breakers = with_state before after route is_current from })
          extra
      → IsOn d
      → IsOn (on_state_change to d)
  unfolding on_state_change
  changed-IsOn d _ _ extra trips h c on = opened-IsOn d on
  changed-IsOn d _ _ extra cools h c on = on
  changed-IsOn d _ _ extra relapses h c on = opened-IsOn d on
  changed-IsOn d _ _ extra recovers h c on =
      closed-IsOn d (unhealthy before + unhealthy after + extra)
        (retally _ _ (omega (arith, split before after route is_current half_open)) c)
        (omega (arith, h)) on

looked-IsOn :
    (s : Service) (route : ℕ) (changed : Bool)
    → (get_or_create route (sync changed s)).degradation ≡ s.degradation
unfolding get_or_create sync
looked-IsOn s route changed = ground arith

Step-IsOn :
    (s s' : Service) (n extra : ℕ)
    → Step s s' n
    → 0 < extra
    → Counts s extra
    → IsOn s.degradation
    → IsOn s'.degradation
Step-IsOn s _ _ extra (looked_up _ route changed) h c on = rw (looked-IsOn s route changed) on
Step-IsOn _ _ _ extra (changed_state d before after route is_current from to t) h c on =
    changed-IsOn before after route is_current d from to extra t h c on
Step-IsOn _ _ _ extra (stored open_count active value before after breakers) h c (a, all) =
    let (v, rest, put) = All-around before value after all in (v, rest)

Steps-IsOn :
    (s s' : Service) (n extra : ℕ)
    → Steps s s' n
    → 0 < extra
    → Counts s extra
    → IsOn s.degradation
    → IsOn s'.degradation
Steps-IsOn s _ _ extra (stop _) h c on = on
Steps-IsOn s s' _ extra (step {u = u} {m = m} {n = n} one rest) h c on =
    Steps-IsOn u s' n (extra + m) rest (omega (arith, h)) (Step-Counts s u m extra one c)
      (Step-IsOn s u m extra one h c on)

-- Once a half-open breaker has opened again and the degradation is active, with no call about to end
-- it, it stays active for good: after any further requests, reloads, changes of state and stores, also
-- where every breaker is closed.
pub relapse-active :
    (s s' : Service) (n m : ℕ)
    → Steps fresh s n
    → 0 < n
    → IsOn s.degradation
    → Steps s s' m
    → s'.degradation.active ≡ true
relapse-active s s' n m run h on later =
    (Steps-IsOn s s' m n later h (open_count-Counts s n run) on).0
