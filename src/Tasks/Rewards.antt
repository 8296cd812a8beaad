-- ===== src/Tasks/Rewards.antt =====
-- A reward is granted once: `Claim` of internal/service/task/task_service.go against the rows that
-- `ClaimReward` and `IncrProgress` of internal/repository/task_repo.go change.
use hc_framework_go.Prelude.{
  ℕ, ◌+◌, ◌≡◌, refl, Bool, true, ◌&&◌, not, [], ◌∷◌, arith, count, ◌==◌, if◌then◌else◌,
}
use hc_framework_go.Tasks.{Rows, UserTaskProgress, is_row, claim_rows}

-- The rows of a key that have a property.
abbrev pub rows_with : (UserTaskProgress → Bool) → ℕ → ℕ → ℕ → Rows → ℕ
rows_with p user task period = count (λ r. is_row user task period r && p r)

abbrev pub any_row : UserTaskProgress → Bool
any_row r = true

abbrev pub claimed_row : UserTaskProgress → Bool
claimed_row r = r.is_claimed

abbrev pub open_row : UserTaskProgress → Bool
open_row r = r.is_completed && not r.is_claimed

module _ (user task period : ℕ) where
  pub claim-count :
      (rows : Rows)
      → (claim_rows user task period rows).1 ≡ rows_with open_row user task period rows
  unfolding claim_rows
  claim-count [] = refl
  claim-count (r ∷ rs) = ground (arith, claim-count rs)

  pub claim-claimed :
      (u t p : ℕ) (rows : Rows)
      → rows_with claimed_row u t p (claim_rows user task period rows).0
        ≡ rows_with claimed_row u t p rows
          + (if (u == user) && ((t == task) && (p == period))
              then (claim_rows user task period rows).1
              else 0)
  unfolding claim_rows
  claim-claimed u t p [] = ground arith
  claim-claimed u t p (r ∷ rs) = ground (arith, claim-claimed u t p rs)

  pub claim-all :
      (u t p : ℕ) (rows : Rows)
      → rows_with any_row u t p (claim_rows user task period rows).0 ≡ rows_with any_row u t p rows
  unfolding claim_rows
  claim-all u t p [] = refl
  claim-all u t p (r ∷ rs) = ground (arith, claim-all u t p rs)
