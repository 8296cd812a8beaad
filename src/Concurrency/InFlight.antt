-- ===== src/Concurrency/InFlight.antt =====
-- Requests in progress behind the middleware of internal/middleware/concurrency.go.
use hc_framework_go.Prelude.{
  ℕ, zero, suc, ◌+◌, ◌≤◌, ◌≡◌, refl, false, none, some, List, [], ◌∷◌, arith, ℤ, pos, negsuc, ◌+ℤ◌,
  ltb, count, if◌then◌else◌, Bool-cases, ◌⊎◌, ◌∙◌, ap, inl, inr,
}
use hc_framework_go.Concurrency.{
  Semaphore, ConcurrencyLimiter, Entry, passed, admitted, rejected, is_admitted, Server, Event,
  arrives, ends, is_concurrency_exempt, get_concurrency_limiter, enter, leave, at, remove_at, serve,
  serve_all,
}

abbrev pub in_flight : List Entry → ℕ
in_flight running = count is_admitted running

-- The process starts with no request in progress.
abbrev pub started : {S : Type 0} → Semaphore S → ℤ → Server S
started semaphore limit = record {
  limiter = get_concurrency_limiter semaphore none limit;
  running = [];
}

-- The units of the semaphore are free or held by a request in progress, and the gauge says how many
-- these are.
record Sound {S : Type 0} (semaphore : Semaphore S) (limit : ℕ) (w : Server S) : Type 0 where
  pub units : S
  pub there : w.limiter.sem ≡ some units
  pub capacity : semaphore.size units ≡ limit
  pub share : semaphore.free units + in_flight w.running ≡ limit
  pub gauge : w.limiter.inflight ≡ pos (in_flight w.running)

count_up : (n : ℕ) → pos n +ℤ pos 1 ≡ pos (suc n)
unfolding ◌+ℤ◌
count_up n = ground arith

count_down : (n : ℕ) → pos (suc n) +ℤ negsuc 0 ≡ pos n
unfolding ◌+ℤ◌
count_down n = ground arith

ends-count :
    (i : ℕ) (running : List Entry)
    → count is_admitted running
      ≡ count is_admitted (remove_at i running) + (if is_admitted (at i running) then 1 else 0)
ends-count i [] = refl
ends-count zero (x ∷ xs) = ground arith
ends-count (suc i) (x ∷ xs) = ground (arith, ends-count i xs)

ends-held :
    (i : ℕ) (running : List Entry)
    → at i running ≡ admitted
    → count is_admitted running ≡ suc (count is_admitted (remove_at i running))
ends-held i running h = ground (arith, ends-count i running, ap is_admitted h)

module _ {S : Type 0} (semaphore : Semaphore S) (limit : ℕ) where
  Entry-cases :
      (entry : Entry)
      → (entry ≡ admitted)
        ⊎ ((is_admitted entry ≡ false)
            × ((limiter : ConcurrencyLimiter S) → leave semaphore entry limiter ≡ limiter))
  unfolding leave
  Entry-cases passed = inr (refl, λ limiter. refl)
  Entry-cases admitted = inl refl
  Entry-cases rejected = inr (refl, λ limiter. refl)

  -- What the middleware answers follows from the requests in progress.
  enter-answer :
      (path : List ℕ) (w : Server S)
      → is_concurrency_exempt path ≡ false
      → Sound semaphore limit w
      → (enter semaphore path w.limiter).0
        ≡ (if ltb (in_flight w.running) limit then admitted else rejected)
  unfolding enter
  enter-answer path w e s =
      rw (e, s.there, semaphore.try_acquire-free s.units) (ground (arith, s.share))

  leave-Sound :
      (i : ℕ) (w : Server S)
      → Sound semaphore limit w
      → Sound semaphore limit (serve semaphore (ends i) w)
  unfolding serve leave
  leave-Sound i w s = elim (Entry-cases (at i w.running)) [
    | inl held ↦
        rw (held, s.there)
          (record {
            units = semaphore.release s.units;
            there = refl;
            capacity =
                semaphore.size-release s.units
                  (omega (arith, s.capacity, s.share, ends-held i w.running held))
                ∙ s.capacity;
            share = omega (
              arith,
              semaphore.free-release s.units
                  (omega (arith, s.capacity, s.share, ends-held i w.running held)),
              s.share,
              ends-held i w.running held,
            );
            gauge =
                rw (s.gauge, ends-held i w.running held)
                  (count_down (in_flight (remove_at i w.running)));
          })
    | inr (other, idle) ↦ rw (idle w.limiter) (record {
      units = s.units;
      there = s.there;
      capacity = s.capacity;
      share = ground (arith, s.share, ends-count i w.running, other);
      gauge = s.gauge ∙ ap pos (ground (arith, ends-count i w.running, other));
    })
  ]

  enter-Sound :
      (path : List ℕ) (w : Server S)
      → Sound semaphore limit w
      → Sound semaphore limit (serve semaphore (arrives path) w)
  unfolding serve enter
  enter-Sound path w s = elim (Bool-cases (is_concurrency_exempt path)) [
    | inl exempt ↦ rw exempt (record {
      units = s.units;
      there = s.there;
      capacity = s.capacity;
      share = s.share;
      gauge = s.gauge;
    })
    | inr guarded ↦
        rw (guarded, s.there)
          (elim (Bool-cases (semaphore.try_acquire s.units).0) [
            | inl granted ↦ rw granted (record {
              units = (semaphore.try_acquire s.units).1;
              there = refl;
              capacity = rw (semaphore.size-try_acquire s.units) s.capacity;
              share = ground (arith, granted, semaphore.free-try_acquire s.units, s.share);
              gauge = rw (s.gauge) (count_up (in_flight w.running));
            })
            | inr full ↦ rw full (record {
              units = (semaphore.try_acquire s.units).1;
              there = refl;
              capacity = rw (semaphore.size-try_acquire s.units) s.capacity;
              share = ground (arith, full, semaphore.free-try_acquire s.units, s.share);
              gauge = s.gauge;
            })
          ])
  ]

  serve_all-Sound :
      (es : List Event) (w : Server S)
      → Sound semaphore limit w
      → Sound semaphore limit (serve_all semaphore es w)
  unfolding serve_all
  serve_all-Sound [] w s = s
  serve_all-Sound (arrives path ∷ es) w s = serve_all-Sound es _ (enter-Sound path w s)
  serve_all-Sound (ends i ∷ es) w s = serve_all-Sound es _ (leave-Sound i w s)

started-Sound :
    {S : Type 0} (semaphore : Semaphore S) (limit : ℕ)
    → Sound semaphore (suc limit) (started semaphore (pos (suc limit)))
unfolding get_concurrency_limiter
started-Sound semaphore limit = record {
  units = semaphore.new_weighted (suc limit);
  there = refl;
  capacity = semaphore.size-new_weighted (suc limit);
  share = omega (arith, semaphore.free-new_weighted (suc limit));
  gauge = refl;
}

-- With a limit above zero and any semaphore that keeps its documented laws, whatever requests come in
-- and end in whatever order: no more of the requests let in are in progress than the limit, the gauge
-- says how many they are, and the next request to a guarded path is let in exactly when they are
-- fewer than the limit, and refused when not, so that no unit is ever lost.
pub serve_all-in_flight :
    {S : Type 0} (semaphore : Semaphore S) (limit : ℕ) (es : List Event) (path : List ℕ)
    → is_concurrency_exempt path ≡ false
    → (let w = serve_all semaphore es (started semaphore (pos (suc limit))) in
        (in_flight w.running ≤ suc limit)
        × (w.limiter.inflight ≡ pos (in_flight w.running))
        × ((enter semaphore path w.limiter).0
            ≡ (if ltb (in_flight w.running) (suc limit) then admitted else rejected)))
serve_all-in_flight semaphore limit es path guarded =
    let sound =
      serve_all-Sound semaphore (suc limit) es (started semaphore (pos (suc limit)))
        (started-Sound semaphore limit) in
    (
      omega (arith, sound.share),
      sound.gauge,
      enter-answer semaphore (suc limit) path _ guarded sound,
    )
