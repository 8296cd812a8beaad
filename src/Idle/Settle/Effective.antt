-- ===== src/Idle/Settle/Effective.antt =====
-- The ledger rows are those of the settlements that took effect: the transaction of `settleSession`
-- of internal/service/idle/idle_service.go.
use hc_framework_go.Prelude.{
  ℕ, ◌≡◌, sym, ◌∙◌, ap, Bool, ◌&&◌, List, ◌∷◌, map, arith, if◌then◌else◌, ℤ,
}
use hc_framework_go.Shop.Model.{PointsTransaction}
use hc_framework_go.Idle.Session.{IdleRecord, Store, insert_record, new_session}
use hc_framework_go.Idle.Settle.{
  IdleService, SettleEnv, reward_row, add_reward, settle_statements, commit_of, settle_tx,
  close_for_nothing,
}
use hc_framework_go.Idle.Settle.Steps.{
  Run, takes_effect, decide, World, Step, opened, others, recounted, begun, failed, closed, settled,
  finished, died, Steps, stop, step, is_kept, answer_of, IsEmpty,
}
use hc_framework_go.Idle.Settle.Grows.{after_tx-SameTables, reserve-SameTables, counter-SameTables}

abbrev pub rows_of : List Run → List PointsTransaction
rows_of = map (λ (run : Run). reward_row run.session run.points)

statements-rows :
    (svc : IdleService) (env : SettleEnv) (r : IdleRecord) (is_completed : Bool) (points : ℤ)
    (s : Store)
    → (commit_of env.commit s (settle_statements svc env r is_completed points s)).0.transactions
      ≡ (if is_kept env.commit && answer_of (settle_statements svc env r is_completed points s)
          then reward_row r points ∷ s.transactions
          else s.transactions)
unfolding settle_statements add_reward
statements-rows svc env r is_completed points s = ground arith

decide-rows :
    (svc : IdleService) (run : Run) (s : Store) (effective : List Run)
    → s.transactions ≡ rows_of effective
    → (decide svc run s).0.transactions
      ≡ rows_of (if takes_effect svc run s then run ∷ effective else effective)
unfolding decide takes_effect settle_tx
decide-rows svc run s effective h =
    ground (arith, h, statements-rows svc run.env run.session run.is_completed run.points s)

opened_rows :
    (s : Store) (user device now : ℕ)
    → (insert_record (new_session user device now) s).0.transactions ≡ s.transactions
unfolding insert_record
opened_rows s user device now = ground arith

closed_rows :
    (run : Run) (s : Store)
    → (close_for_nothing run.env run.session run.is_completed s).0.transactions ≡ s.transactions
unfolding close_for_nothing
closed_rows run s = ground arith

module _ (svc : IdleService) {Allowed : SettleEnv → Type 0} {Sets : ℕ → ℕ → Type 0} where
  Step-rows :
      {w u : World}
      → Step svc Allowed Sets w u
      → w.store.transactions ≡ rows_of w.effective
      → u.store.transactions ≡ rows_of u.effective
  Step-rows (opened s runs effective user device now) h = opened_rows s user device now ∙ h
  Step-rows (others s runs effective heartbeats members cached daily) h = h
  Step-rows (recounted s runs effective day user c a) h =
      (counter-SameTables day user c s).transactions_are ∙ h
  Step-rows (begun s runs effective env r is_completed points a k e) h =
      (reserve-SameTables svc env r s).transactions_are ∙ h
  Step-rows (failed s runs effective env r a e) h =
      (reserve-SameTables svc env r s).transactions_are ∙ h
  Step-rows (closed s before after effective run p z) h = closed_rows run s ∙ h
  Step-rows (settled s before after effective run p z) h = decide-rows svc run s effective h
  Step-rows (finished s before after effective run answer p) h =
      (after_tx-SameTables svc run.env run.session run.points answer s).transactions_are ∙ h
  Step-rows (died s before after effective run) h = h

  -- However settlements interleave, fail and die: starting from empty tables, the ledger is the list
  -- of the rewards of the settlements that took effect, in their order.
  pub Steps-effective :
      {w u : World}
      → IsEmpty w
      → Steps svc Allowed Sets w u
      → u.store.transactions ≡ rows_of u.effective
  Steps-effective e steps = go (e.1 ∙ ap rows_of (sym e.4)) steps
    where
      go :
          {w u : World}
          → w.store.transactions ≡ rows_of w.effective
          → Steps svc Allowed Sets w u
          → u.store.transactions ≡ rows_of u.effective
      go h (stop w) = h
      go h (step st rest) = go (Step-rows st h) rest
