-- ===== src/Concurrency.antt =====
-- The limit on requests in progress: internal/middleware/concurrency.go. The semaphore of
-- golang.org/x/sync is a parameter.
mod InFlight
mod Tests
use hc_framework_go.Prelude.{
  ℕ, zero, suc, ◌+◌, ◌<◌, ◌≡◌, Bool, true, false, ◌||◌, ◌&&◌, Option, none, some, List, [], ◌∷◌, ℤ,
  pos, negsuc, ◌+ℤ◌, ltb, leb, ◌==◌, if◌then◌else◌, length, take,
}

-- A weighted semaphore, each caller taking one unit: `free` is what is left of its capacity.
pub record Semaphore (S : Type 0) : Type 0 where
  pub new_weighted : ℕ → S
  pub try_acquire : S → Bool × S
  pub release : S → S
  pub size : S → ℕ
  pub free : S → ℕ
  pub size-new_weighted : (n : ℕ) → size (new_weighted n) ≡ n
  pub free-new_weighted : (n : ℕ) → free (new_weighted n) ≡ n
  -- `TryAcquire` does not wait, and where it fails the semaphore is unchanged.
  pub try_acquire-free : (s : S) → (try_acquire s).0 ≡ ltb 0 (free s)
  pub size-try_acquire : (s : S) → size (try_acquire s).1 ≡ size s
  pub free-try_acquire :
      (s : S) → free (try_acquire s).1 + (if (try_acquire s).0 then 1 else 0) ≡ free s
  -- `Release` panics where nothing is held, and there nothing is said of it.
  pub size-release : (s : S) → free s < size s → size (release s) ≡ size s
  pub free-release : (s : S) → free s < size s → free (release s) ≡ suc (free s)

-- No semaphore where the limit is not positive.
pub record ConcurrencyLimiter (S : Type 0) : Type 0 where
  pub sem : Option S
  pub inflight : ℤ

-- A path is a list of bytes.
abbrev pub same : List ℕ → List ℕ → Bool
same [] [] = true
same [] (y ∷ ys) = false
same (x ∷ xs) [] = false
same (x ∷ xs) (y ∷ ys) = (x == y) && same xs ys

abbrev pub health : List ℕ
health = 47 ∷ 104 ∷ 101 ∷ 97 ∷ 108 ∷ 116 ∷ 104 ∷ []

abbrev pub ready : List ℕ
ready = 47 ∷ 114 ∷ 101 ∷ 97 ∷ 100 ∷ 121 ∷ []

abbrev pub metrics : List ℕ
metrics = 47 ∷ 109 ∷ 101 ∷ 116 ∷ 114 ∷ 105 ∷ 99 ∷ 115 ∷ []

abbrev pub debug : List ℕ
debug = 47 ∷ 100 ∷ 101 ∷ 98 ∷ 117 ∷ 103 ∷ 47 ∷ []

abbrev pub swagger : List ℕ
swagger = 47 ∷ 115 ∷ 119 ∷ 97 ∷ 103 ∷ 103 ∷ 101 ∷ 114 ∷ []

-- The code compares nine bytes of the path with the eight of "/swagger".
unfoldable pub is_concurrency_exempt : List ℕ → Bool
is_concurrency_exempt path =
    same path health
    || same path ready
    || (leb 8 (length path) && same (take 8 path) metrics)
    || (leb 7 (length path) && same (take 7 path) debug)
    || (leb 9 (length path) && same (take 9 path) swagger)

-- What the middleware did with a request: let it pass uncounted, let it in, or answered 503.
pub data Entry : Type 0 where
  passed : Entry
  admitted : Entry
  rejected : Entry

abbrev pub is_admitted : Entry → Bool
is_admitted admitted = true
is_admitted _ = false

module _ {S : Type 0} (semaphore : Semaphore S) where
  -- The limiter of the process is made at the first call, from the limit of that moment.
  unfoldable pub get_concurrency_limiter : Option (ConcurrencyLimiter S) → ℤ → ConcurrencyLimiter S
  get_concurrency_limiter (some limiter) limit = limiter
  get_concurrency_limiter none (pos zero) = record { sem = none; inflight = pos 0 }
  get_concurrency_limiter none (pos (suc n)) = record {
    sem = some (semaphore.new_weighted (suc n));
    inflight = pos 0;
  }
  get_concurrency_limiter none (negsuc n) = record { sem = none; inflight = pos 0 }

  -- The middleware up to its call of the next handler.
  unfoldable pub enter : List ℕ → ConcurrencyLimiter S → Entry × ConcurrencyLimiter S
  unfolding is_concurrency_exempt
  enter path limiter = if is_concurrency_exempt path then (passed, limiter) else elim limiter.sem [
    | none ↦ (passed, limiter)
    | some s ↦
        let (granted, s') = semaphore.try_acquire s in
        if granted
        then (admitted, record { sem = some s'; inflight = limiter.inflight +ℤ pos 1 })
        else (rejected, record limiter { sem = some s' })
  ]

  abbrev pub release_sem : Option S → Option S
  release_sem none = none
  release_sem (some s) = some (semaphore.release s)

  -- What is deferred, so that it runs also behind a panic of the handler.
  unfoldable pub leave : Entry → ConcurrencyLimiter S → ConcurrencyLimiter S
  leave admitted limiter = record {
    sem = release_sem limiter.sem;
    inflight = limiter.inflight +ℤ negsuc 0;
  }
  leave passed limiter = limiter
  leave rejected limiter = limiter

-- The limiter and the requests that the next handler works on.
pub record Server (S : Type 0) : Type 0 where
  pub limiter : ConcurrencyLimiter S
  pub running : List Entry

-- A request comes in, or the request at a position of the list ends.
pub data Event : Type 0 where
  arrives : List ℕ → Event
  ends : ℕ → Event

abbrev pub remove_at : ℕ → List Entry → List Entry
remove_at i [] = []
remove_at zero (x ∷ xs) = xs
remove_at (suc i) (x ∷ xs) = x ∷ remove_at i xs

abbrev pub keep : Entry → List Entry → List Entry
keep rejected running = running
keep passed running = passed ∷ running
keep admitted running = admitted ∷ running

-- A position behind the list is no request, and nothing ends.
abbrev pub at : ℕ → List Entry → Entry
at i [] = passed
at zero (x ∷ xs) = x
at (suc i) (x ∷ xs) = at i xs

module _ {S : Type 0} (semaphore : Semaphore S) where
  unfoldable pub serve : Event → Server S → Server S
  unfolding enter leave
  serve (arrives path) w =
      let (entry, limiter) = enter semaphore path w.limiter in
      record { limiter = limiter; running = keep entry w.running }
  serve (ends i) w = record {
    limiter = leave semaphore (at i w.running) w.limiter;
    running = remove_at i w.running;
  }

  unfoldable pub serve_all : List Event → Server S → Server S
  unfolding serve
  serve_all [] w = w
  serve_all (e ∷ es) w = serve_all es (serve e w)
