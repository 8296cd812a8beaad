-- ===== src/Idle/Scan/Chunks.antt =====
-- The loop over the chunks of members: `collectDeadSessions` of internal/service/idle/idle_service.go.
use hc_framework_go.Prelude.{
  ℕ, zero, suc, ◌+◌, ◌*◌, ◌≤◌, ◌≡◌, refl, sym, ◌∙◌, ap, Bool, false, List, ◌++◌, arith, ltb, length,
  take, drop, select, take-drop, drop-drop, drop-all, select-append, Bool-cases, inl, inr,
}
use hc_framework_go.Idle.Scan.{
  Member, is_dead, batch_heartbeat_alive, hb_batch_size, dead_chunks, collect_dead_sessions,
}

-- A chunk and what is behind it make up what is behind the index.
chunk-select :
    (p : Member → Bool) (i n : ℕ) (members : List Member)
    → select p (take n (drop i members)) ++ select p (drop (i + n) members)
      ≡ select p (drop i members)
chunk-select p i n members = rw (← drop-drop i n members) (
    sym (select-append p (take n (drop i members)) (drop n (drop i members)))
    ∙ ap (select p) (take-drop n (drop i members)))

chunks-select :
    (fuel : ℕ) (fails : ℕ → Bool) (alive : ℕ → ℕ → Bool) (i : ℕ) (members : List Member)
    → ((j : ℕ) → fails j ≡ false)
    → length members ≤ i + fuel * hb_batch_size
    → dead_chunks fuel fails alive i members ≡ select (is_dead alive) (drop i members)
unfolding dead_chunks batch_heartbeat_alive
chunks-select zero fails alive i members f h = rw (drop-all i members (omega arith)) refl
chunks-select (suc fuel) fails alive i members f h = elim (Bool-cases (ltb i (length members))) [
  | inl more ↦
      rw (more, f i)
        (rw (chunks-select fuel fails alive (i + hb_batch_size) members f (omega arith))
          (chunk-select (is_dead alive) i hb_batch_size members))
  | inr over ↦ rw (over, drop-all i members (ground (arith, over))) refl
]

-- Where no chunk fails, the loop over the chunks ends by its own test after at most a round for each
-- thousand members, whatever more rounds it is allowed, and it has found the members that have no
-- heartbeat, each as often as it stands in the set and in that order.
pub dead_chunks-ends :
    (fuel : ℕ) (fails : ℕ → Bool) (alive : ℕ → ℕ → Bool) (members : List Member)
    → ((j : ℕ) → fails j ≡ false)
    → length members ≤ fuel * hb_batch_size
    → (dead_chunks fuel fails alive 0 members ≡ select (is_dead alive) members)
      × (collect_dead_sessions fails alive members ≡ select (is_dead alive) members)
unfolding collect_dead_sessions
dead_chunks-ends fuel fails alive members f h = (
  chunks-select fuel fails alive 0 members f (omega arith),
  chunks-select (length members) fails alive 0 members f (omega arith),
)
