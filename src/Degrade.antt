-- ===== src/Degrade.antt =====
-- The circuit breakers and the global degradation that they switch: internal/degrade/degrade.go and
-- internal/middleware/circuitbreaker.go. The breakers are github.com/sony/gobreaker; when one changes
-- its state is up to it, and `IsTransition` lists the changes that it documents.
pub mod Leak
mod Tests
use hc_framework_go.Prelude.{
  ℕ, suc, ◌+◌, ◌-◌, ◌*◌, ◌≡◌, Bool, true, false, ◌&&◌, not, Option, none, some, List, [], ◌∷◌, ◌++◌,
  map, ◌==◌, leb, ltb, if◌then◌else◌, find?, ℤ, pos, negsuc, ◌+ℤ◌, ◌-ℤ◌,
}

-- `stores` are the values that calls behind their addition are about to store as `active`.
pub record Degradation : Type 0 where
  pub open_count : ℤ
  pub active : Bool
  pub stores : List Bool

abbrev pub is_one : ℤ → Bool
is_one (pos n) = n == 1
is_one (negsuc n) = false

abbrev pub is_zero : ℤ → Bool
is_zero (pos n) = n == 0
is_zero (negsuc n) = false

-- Up to the addition, which is atomic. The store that follows is a step of its own, since nothing
-- orders the calls of different breakers.
unfoldable pub on_breaker_open : Degradation → Degradation
on_breaker_open d =
    let n = d.open_count +ℤ pos 1 in
    record d { open_count = n; stores = if is_one n then true ∷ d.stores else d.stores }

unfoldable pub on_breaker_closed : Degradation → Degradation
on_breaker_closed d =
    let n = d.open_count -ℤ pos 1 in
    record d { open_count = n; stores = if is_zero n then false ∷ d.stores else d.stores }

pub data State : Type 0 where
  closed half_open open_ : State

-- `OnStateChange`, by the state that the breaker goes to.
unfoldable pub on_state_change : State → Degradation → Degradation
unfolding on_breaker_open on_breaker_closed
on_state_change open_ d = on_breaker_open d
on_state_change half_open d = d
on_state_change closed d = on_breaker_closed d

-- `is_current` says that the manager's map holds the breaker; a breaker that a reload has dropped may
-- still be at work in requests that began before.
pub record Breaker : Type 0 where
  pub route : ℕ
  pub state : State
  pub is_current : Bool

pub record Service : Type 0 where
  pub degradation : Degradation
  pub breakers : List Breaker

abbrev pub holds_route : ℕ → Breaker → Bool
holds_route route b = b.is_current && (b.route == route)

-- The part of `getOrCreate` behind `sync`.
unfoldable pub get_or_create : ℕ → Service → Service
get_or_create route s = elim (find? (holds_route route) s.breakers) [
  | some b ↦ s
  | none ↦ record s {
    breakers = record { route = route; state = closed; is_current = true } ∷ s.breakers;
  }
]

abbrev pub retire : Breaker → Breaker
retire b = record b { is_current = false }

-- `changed` says that the configuration is not the one seen last.
unfoldable pub sync : Bool → Service → Service
sync changed s = if changed then record s { breakers = map retire s.breakers } else s

-- ReadyToTrip, with the ratio as a comparison of products; `threshold` is in thousandths.
unfoldable pub ready_to_trip : ℕ → ℕ → ℕ → Bool
ready_to_trip threshold requests total_failures =
    leb 5 requests && leb (threshold * requests) (total_failures * 1000)

-- The changes of state that the breaker library makes.
pub data IsTransition : State → State → Type 0 where
  trips : IsTransition closed open_
  cools : IsTransition open_ half_open
  relapses : IsTransition half_open open_
  recovers : IsTransition half_open closed

abbrev pub relapse_count : State → State → ℕ
relapse_count half_open open_ = 1
relapse_count _ _ = 0

-- A step: a request looks its breaker up, perhaps after a reload; a breaker changes its state, with the
-- addition of its callback, which it makes under its lock; or a call makes its store. The number counts
-- relapses.
pub data Step : Service → Service → ℕ → Type 0 where
  looked_up :
      (s : Service) (route : ℕ) (changed : Bool) → Step s (get_or_create route (sync changed s)) 0
  changed_state :
      (d : Degradation) (before after : List Breaker) (route : ℕ) (is_current : Bool)
      (from to : State)
      → IsTransition from to
      → Step
          (record {
            degradation = d;
            breakers =
                before ++ record { route = route; state = from; is_current = is_current } ∷ after;
          })
          (record {
            degradation = on_state_change to d;
            breakers =
                before ++ record { route = route; state = to; is_current = is_current } ∷ after;
          })
          (relapse_count from to)
  stored :
      (open_count : ℤ) (active value : Bool) (before after : List Bool) (breakers : List Breaker)
      → Step
          (record {
            degradation = record {
              open_count = open_count;
              active = active;
              stores = before ++ value ∷ after;
            };
            breakers = breakers;
          })
          (record {
            degradation = record {
              open_count = open_count;
              active = value;
              stores = before ++ after;
            };
            breakers = breakers;
          })
          0

pub data Steps : Service → Service → ℕ → Type 0 where
  stop : (s : Service) → Steps s s 0
  step : {s u v : Service} {m n : ℕ} → Step s u m → Steps u v n → Steps s v (m + n)
