-- ===== src/Auth/Agreement.antt =====
-- Where the two stores of failed logins answer alike: internal/service/auth/account_lock.go and
-- internal/cache/manager.go.
use hc_framework_go.Prelude.{
  ℕ, suc, ◌<◌, ◌≤◌, ◌-◌, if◌then◌else◌, ◌≡◌, ◌↔◌, ◌≢◌, refl, ap, Bool, true, false, ◌&&◌, not,
  Option, none, some, List, [], ◌∷◌, arith, ltb, Bool-cases, inl, inr,
}
use hc_framework_go.Auth.{
  LoginFailEntry, LockKey, LockConfig, Answer, until, counted, Call, fails, asks_lock, asks_count,
  clears, sweeps, reaches,
}
use hc_framework_go.Auth.Memory
use hc_framework_go.Auth.Redis
use hc_framework_go.Auth.Redis.{live}
use hc_framework_go.Auth.Calls.{memory_call, redis_call, memory_answers, redis_answers}

abbrev is_some {ℓ} : {A : Type ℓ} → Option A → Bool
is_some none = false
is_some (some a) = true

abbrev minds_presence : Call → Bool
minds_presence fails = true
minds_presence asks_count = true
minds_presence _ = false

-- There is an entry in memory and no key that Redis still has, or the other way round.
abbrev out_of_step : ℕ → Option LoginFailEntry → Option LockKey → Bool
out_of_step now e k = if is_some e then not (is_some (live now k)) else is_some (live now k)

-- Each failure and each question for the count finds an entry and a key that has not expired, or
-- neither.
abbrev pub in_step : LockConfig → List (ℕ × Call) → Option LoginFailEntry → Option LockKey → Bool
in_step cfg [] e k = true
in_step cfg ((now, c) ∷ cs) e k =
    let rest = in_step cfg cs (memory_call cfg now c e).0 (redis_call cfg now c k).0 in
    not (minds_presence c && out_of_step now e k) && rest

-- The clock does not go back.
abbrev pub Rising : ℕ → List (ℕ × Call) → Type 0
Rising before [] = Unit
Rising before ((now, c) ∷ cs) = (before ≤ now) × Rising now cs

abbrev LastsAsKey : Option ℕ → ℕ → Type 0
LastsAsKey none expires_at = Unit
LastsAsKey (some t) expires_at = expires_at ≡ t

abbrev IsOver : ℕ → Option ℕ → Type 0
IsOver now none = Unit
IsOver now (some t) = t < now

-- The entry and the key tell the same, and a lock lasts as long as its key; of a key whose entry the
-- cleaner took, the lock is over.
abbrev Agree : ℕ → Option LoginFailEntry → Option LockKey → Type 0
Agree now none none = Unit
Agree now (some e) (some k) =
    (e.count ≡ k.count) × (e.locked_until ≡ k.lock) × (0 < k.count) × LastsAsKey k.lock k.expires_at
Agree now none (some k) = (0 < k.count) × LastsAsKey k.lock k.expires_at × IsOver now k.lock
Agree now (some e) none = ⊥

later : (before now : ℕ) (lock : Option ℕ) → before ≤ now → IsOver before lock → IsOver now lock
later before now none h o = tt
later before now (some t) h o = omega (arith, h, o)

Agree-later :
    (before now : ℕ) (e : Option LoginFailEntry) (k : Option LockKey)
    → before ≤ now
    → Agree before e k
    → Agree now e k
Agree-later before now none none h a = tt
Agree-later before now (some e) (some k) h a = a
Agree-later before now none (some k) h (c, l, o) = (c, l, later before now k.lock h o)
Agree-later before now (some e) none h a = elim a [ ]

module _ (cfg : LockConfig) (now : ℕ) where
  -- Both stores count from nothing.
  first-Agree :
      (k : Option LockKey)
      → live now k ≡ none
      → (let (e', a) = Memory.record_failure cfg now none in
          let (k', b) = Redis.record_failure cfg now k in (a ≡ b) × Agree now e' k')
  unfolding Memory.record_failure Redis.record_failure
  first-Agree k gone = rw gone (elim (Bool-cases (reaches cfg 1)) [
    | inl r ↦ rw r (refl, (refl, refl, omega arith, refl))
    | inr r ↦ rw r (refl, (refl, refl, omega arith, tt))
  ])

  failure-Agree :
      (e : Option LoginFailEntry) (k : Option LockKey)
      → Agree now e k
      → out_of_step now e k ≡ false
      → (let (e', a) = Memory.record_failure cfg now e in
          let (k', b) = Redis.record_failure cfg now k in (a ≡ b) × Agree now e' k')
  unfolding Memory.record_failure Redis.record_failure
  failure-Agree none none h x = first-Agree none refl
  failure-Agree (some e) (some k) (same, locks, some_count, lasts) x =
      let alive : ltb now k.expires_at ≡ true = ground (arith, x) in
      rw (alive, same)
        (elim (Bool-cases (reaches cfg (suc k.count))) [
          | inl r ↦ rw r (refl, (refl, refl, omega arith, refl))
          | inr r ↦ rw r (refl, (refl, locks, omega arith, lasts))
        ])
  failure-Agree none (some k) h x =
      let gone : live now (some k) ≡ none = ground (arith, x) in first-Agree (some k) gone
  failure-Agree (some e) none h x = elim h [ ]

  lasting :
      (lock : Option ℕ) (k : LockKey)
      → k.lock ≡ lock
      → LastsAsKey lock k.expires_at
      → Memory.ahead now lock ≡ Redis.get_lock_until now (some k)
  unfolding Redis.get_lock_until
  lasting none k e h = ground (arith, e)
  lasting (some t) k e h = ground (arith, e, h)

  -- The key whose entry is gone tells of no lock.
  over :
      (lock : Option ℕ) (k : LockKey)
      → k.lock ≡ lock
      → LastsAsKey lock k.expires_at
      → IsOver now lock
      → none ≡ Redis.get_lock_until now (some k)
  unfolding Redis.get_lock_until
  over none k e h o = ground (arith, e)
  over (some t) k e h o = ground (arith, e, h, o)

  lock-Agree :
      (e : Option LoginFailEntry) (k : Option LockKey)
      → Agree now e k
      → Memory.get_lock_until now e ≡ Redis.get_lock_until now k
  unfolding Memory.get_lock_until Redis.get_lock_until
  lock-Agree none none h = refl
  lock-Agree (some e) (some k) (same, locks, some_count, lasts) =
      rw locks (lasting k.lock k refl lasts)
  lock-Agree none (some k) (some_count, lasts, o) = over k.lock k refl lasts o
  lock-Agree (some e) none h = elim h [ ]

  count-Agree :
      (e : Option LoginFailEntry) (k : Option LockKey)
      → Agree now e k
      → out_of_step now e k ≡ false
      → Memory.get_failure_count e ≡ Redis.get_failure_count now k
  unfolding Memory.get_failure_count Redis.get_failure_count
  count-Agree none none h x = refl
  count-Agree (some e) (some k) h x = ground (arith, x, h.0)
  count-Agree none (some k) h x = ground (arith, x)
  count-Agree (some e) none h x = elim h [ ]

  over-lock : (lock : Option ℕ) → Memory.is_over now lock ≡ true → IsOver now lock
  over-lock none h = tt
  over-lock (some t) h = ground (arith, h)

  sweep-Agree :
      (e : Option LoginFailEntry) (k : Option LockKey)
      → Agree now e k
      → Agree now (Memory.cleanup now e) k
  unfolding Memory.cleanup
  sweep-Agree none k h = h
  sweep-Agree (some e) none h = elim h [ ]
  sweep-Agree (some e) (some k) (same, locks, some_count, lasts) =
      elim (Bool-cases (Memory.is_over now e.locked_until && ltb 3600 (now - e.last_seen))) [
        | inl out ↦
            rw out (some_count, lasts, over-lock k.lock (rw (← locks) (ground (arith, out))))
        | inr kept ↦ rw kept (same, locks, some_count, lasts)
      ]

  out-differs :
      (c : Call) (e : Option LoginFailEntry) (k : Option LockKey)
      → Agree now e k
      → (minds_presence c && out_of_step now e k) ≡ true
      → (memory_call cfg now c e).1 ≢ (redis_call cfg now c k).1
  unfolding memory_call redis_call Memory.record_failure Redis.record_failure
      Memory.get_failure_count Redis.get_failure_count
  out-differs fails none none h x same = cc
  out-differs fails (some e) (some k) h x same = ground (arith, h, x, same)
  out-differs fails none (some k) h x same = ground (arith, h, x, same)
  out-differs asks_count none none h x same = cc
  out-differs asks_count (some e) (some k) h x same = ground (arith, h, x, same)
  out-differs asks_count none (some k) h x same = ground (arith, h, x, same)
  out-differs asks_lock e k h x same = cc
  out-differs clears e k h x same = cc
  out-differs sweeps e k h x same = cc
  out-differs fails (some e) none h x same = elim h [ ]
  out-differs asks_count (some e) none h x same = elim h [ ]

  call-Agree :
      (c : Call) (e : Option LoginFailEntry) (k : Option LockKey)
      → Agree now e k
      → (minds_presence c && out_of_step now e k) ≡ false
      → (let (e', a) = memory_call cfg now c e in
          let (k', b) = redis_call cfg now c k in (a ≡ b) × Agree now e' k')
  unfolding memory_call redis_call
  call-Agree fails e k h x = failure-Agree e k h x
  call-Agree asks_lock e k h x = (ap until (lock-Agree e k h), h)
  call-Agree asks_count e k h x = (ap counted (count-Agree e k h x), h)
  call-Agree clears e k h x = (refl, tt)
  call-Agree sweeps e k h x = (refl, sweep-Agree e k h)

head_of : {a b : Answer} {xs ys : List Answer} → (a ∷ xs) ≡ (b ∷ ys) → a ≡ b
head_of h = cc

tail_of : {a b : Answer} {xs ys : List Answer} → (a ∷ xs) ≡ (b ∷ ys) → xs ≡ ys
tail_of h = cc

answers-same :
    (cfg : LockConfig) (before : ℕ) (cs : List (ℕ × Call)) (e : Option LoginFailEntry)
    (k : Option LockKey)
    → Rising before cs
    → Agree before e k
    → (memory_answers cfg cs e ≡ redis_answers cfg cs k) ↔ (in_step cfg cs e k ≡ true)
unfolding memory_answers redis_answers
answers-same cfg before [] e k t h = (λ x. refl, λ x. refl)
answers-same cfg before ((now, c) ∷ cs) e k (t, rising) h =
    let agreed = Agree-later before now e k t h in
    elim (Bool-cases (minds_presence c && out_of_step now e k)) [
      | inl x ↦ (
        λ same. absurd (out-differs cfg now c e k agreed x (head_of same)),
        λ fine. absurd (ground (arith, x, fine)),
      )
      | inr x ↦
          let (now_same, agree) = call-Agree cfg now c e k agreed x in
          let rest =
            answers-same cfg now cs (memory_call cfg now c e).0 (redis_call cfg now c k).0 rising
              agree in
          (
            λ same. rw x (rest.0 (tail_of same)),
            λ fine.
                rw now_same
                  (ap (λ xs. (redis_call cfg now c k).1 ∷ xs) (rest.1 (ground (arith, x, fine)))),
          )
    ]

-- For an account that neither store knows, and a clock that does not go back: through calls and rounds
-- of the cleaner in any order, the two stores give the same answers exactly when each failure and each
-- question for the count finds an entry in memory and a Redis key that has not expired, or neither.
pub memory_answers-redis_answers :
    (cfg : LockConfig) (calls : List (ℕ × Call))
    → Rising 0 calls
    → (memory_answers cfg calls none ≡ redis_answers cfg calls none)
      ↔ (in_step cfg calls none none ≡ true)
memory_answers-redis_answers cfg calls rising = answers-same cfg 0 calls none none rising tt
