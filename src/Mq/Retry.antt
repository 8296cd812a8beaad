-- ===== src/Mq/Retry.antt =====
-- Attempts at a message: `retryProcess` of internal/mq/retry.go and the loop of `process` in
-- internal/mq/kafka_consumer.go. The handler and the context are arguments.
use hc_framework_go.Prelude.{
  ok, err, Except, ℕ, zero, suc, ◌+◌, ◌*◌, ◌≤◌, ◌<◌, ◌≡◌, refl, Bool, false, List, [], ◌∷◌, arith,
  ltb, if◌then◌else◌, length,
}

-- How a call of the handler ends, with the panic that was recovered from.
pub data Reply : Type 0 where
  handled refused panicked : Reply

pub data RetryError : Type 0 where
  cancelled last_error handler_panic : RetryError

-- `delay *= 2`, up to the maximum.
unfoldable pub next_delay : ℕ → ℕ → ℕ
next_delay max_delay delay = if ltb max_delay (2 * delay) then max_delay else 2 * delay

abbrev pub slept_first :
    ℕ → Except RetryError (Unit {0}) × List ℕ → Except RetryError (Unit {0}) × List ℕ
slept_first delay (r, slept) = (r, delay ∷ slept)

-- What follows an attempt, where `again` is the attempt behind it.
abbrev pub follow :
    Reply → Except RetryError (Unit {0}) × List ℕ → Except RetryError (Unit {0}) × List ℕ
follow handled again = (ok tt, [])
follow panicked again = (err handler_panic, [])
follow refused again = again

-- The attempts from `attempt` on, of which `left` may be made after it; the delays that were slept.
unfoldable pub attempts :
    (ℕ → Reply) → (ℕ → Bool) → ℕ → ℕ → ℕ → ℕ → Except RetryError (Unit {0}) × List ℕ
unfolding next_delay
attempts replies is_cancelled max_delay attempt zero delay =
    follow (replies attempt) (err last_error, [])
attempts replies is_cancelled max_delay attempt (suc left) delay =
    let rest =
      attempts replies is_cancelled max_delay (suc attempt) left (next_delay max_delay delay) in
    follow (replies attempt)
      (if is_cancelled (suc attempt) then (err cancelled, delay ∷ []) else slept_first delay rest)

-- A negative number of retries is 0.
unfoldable pub retry_process :
    (ℕ → Reply) → (ℕ → Bool) → ℕ → ℕ → ℕ → Except RetryError (Unit {0}) × List ℕ
unfolding attempts
retry_process replies is_cancelled retry_max base max_delay =
    attempts replies is_cancelled max_delay 0 retry_max base

-- The handler is called once more than there are sleeps at most, so `retry_max + 1` times at most.
pub attempts-length :
    (replies : ℕ → Reply) (is_cancelled : ℕ → Bool) (max_delay attempt left delay : ℕ)
    → length (attempts replies is_cancelled max_delay attempt left delay).1 ≤ left
unfolding attempts
attempts-length replies is_cancelled max_delay attempt zero delay = ground arith
attempts-length replies is_cancelled max_delay attempt (suc left) delay = ground (
  arith,
  attempts-length replies is_cancelled max_delay (suc attempt) left (next_delay max_delay delay),
)

-- Where the context lives on and attempt `i` is the first that the handler does not refuse, a message
-- that it then handles is answered as handled, if `i` is within the retries.
pub attempts-handled :
    (replies : ℕ → Reply) (is_cancelled : ℕ → Bool) (max_delay attempt left delay i : ℕ)
    → ((j : ℕ) → is_cancelled j ≡ false)
    → ((j : ℕ) → j < i → replies (attempt + j) ≡ refused)
    → replies (attempt + i) ≡ handled
    → i ≤ left
    → (attempts replies is_cancelled max_delay attempt left delay).0 ≡ ok tt
unfolding attempts
attempts-handled replies is_cancelled max_delay attempt zero delay zero live before h l =
    rw (eq_of attempt h) refl
  where
    eq_of : (n : ℕ) → replies (n + 0) ≡ handled → replies n ≡ handled
    eq_of n e = let z : n + 0 ≡ n = omega arith in rw (← z) e
attempts-handled replies is_cancelled max_delay attempt zero delay (suc i) live before h l =
    absurd (omega arith)
attempts-handled replies is_cancelled max_delay attempt (suc left) delay zero live before h l =
    let z : attempt + 0 ≡ attempt = omega arith in rw (← z) (rw h refl)
attempts-handled replies is_cancelled max_delay attempt (suc left) delay (suc i) live before h l =
    let z : attempt + 0 ≡ attempt = omega arith in
    let first : replies attempt ≡ refused = rw (← z) (before 0 (omega arith)) in
    let shift : (j : ℕ) → suc attempt + j ≡ attempt + suc j = λ j. omega arith in
    rw (first, live (suc attempt))
      (attempts-handled replies is_cancelled max_delay (suc attempt) left
        (next_delay max_delay delay) i live (λ j b. rw (shift j) (before (suc j) (omega arith)))
        (rw (shift i) h) (omega arith))
