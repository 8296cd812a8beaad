-- ===== src/Concurrency/Tests.antt =====
-- A limit of one: a request is let in, a probe of the health passes beside it, a second request is
-- refused, and the first ends.
use hc_framework_go.Prelude.{
  ℕ, suc, ◌+◌, ◌-◌, ◌≤◌, ◌≡◌, refl, Bool, true, false, List, [], ◌∷◌, ◌++◌, arith, pos, ltb,
  if◌then◌else◌,
}
use hc_framework_go.Concurrency.{
  Semaphore, admitted, rejected, Event, arrives, ends, health, swagger, enter, serve_all,
  get_concurrency_limiter, is_concurrency_exempt,
}
use hc_framework_go.Concurrency.InFlight.{in_flight, started, serve_all-in_flight}

-- A semaphore is its capacity and what is free of it.
abbrev acquire : ℕ × ℕ → Bool × (ℕ × ℕ)
acquire s = if ltb 0 s.1 then (true, (s.0, s.1 - 1)) else (false, s)

counter_acquire : (s : ℕ × ℕ) → (acquire s).0 ≡ ltb 0 s.1
counter_acquire s = ground arith

counter_size : (s : ℕ × ℕ) → (acquire s).1.0 ≡ s.0
counter_size s = ground arith

counter_free : (s : ℕ × ℕ) → (acquire s).1.1 + (if (acquire s).0 then 1 else 0) ≡ s.1
counter_free s = ground arith

abbrev counter : Semaphore (ℕ × ℕ)
counter = record {
  new_weighted = λ n. (n, n);
  try_acquire = acquire;
  release = λ s. (s.0, suc s.1);
  size = λ s. s.0;
  free = λ s. s.1;
  size-new_weighted = λ n. refl;
  free-new_weighted = λ n. refl;
  try_acquire-free = counter_acquire;
  size-try_acquire = counter_size;
  free-try_acquire = counter_free;
  size-release = λ s h. refl;
  free-release = λ s h. refl;
}

abbrev shop : List ℕ
shop = 47 ∷ 115 ∷ []

abbrev history : List Event
history = arrives shop ∷ arrives health ∷ arrives shop ∷ ends 1 ∷ []

serve_all-in_flight_example :
    (in_flight (serve_all counter history (started counter (pos 1))).running ≤ 1)
    × ((serve_all counter history (started counter (pos 1))).limiter.inflight
        ≡ pos (in_flight (serve_all counter history (started counter (pos 1))).running))
    × ((enter counter shop (serve_all counter history (started counter (pos 1))).limiter).0 ≡ (
        if ltb (in_flight (serve_all counter history (started counter (pos 1))).running) 1
        then admitted
        else rejected))
unfolding is_concurrency_exempt
serve_all-in_flight_example = serve_all-in_flight counter 0 history shop refl

-- No path under "/swagger" is exempt.
swagger-guarded : (rest : List ℕ) → is_concurrency_exempt (swagger ++ rest) ≡ false
unfolding is_concurrency_exempt
swagger-guarded [] = refl
swagger-guarded (x ∷ xs) = ground arith

served-one :
    in_flight
      (serve_all counter (arrives shop ∷ arrives shop ∷ []) (started counter (pos 1))).running
    ≡ 1
unfolding serve_all enter get_concurrency_limiter
served-one = refl
