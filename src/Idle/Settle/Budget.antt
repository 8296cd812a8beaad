-- ===== src/Idle/Settle/Budget.antt =====
-- The points that take effect on a day, over any history of settlements that interleave:
-- `settleSession` of internal/service/idle/idle_service.go.
use hc_framework_go.Prelude.{
  ok, err, Except, ℕ, ◌+◌, ◌≤◌, ◌≡◌, ◌≢◌, refl, Bool, true, false, ◌&&◌, not, Option, List, [], ◌∷◌,
  ◌++◌, arith, ltb, ◌==◌, if◌then◌else◌, ℤ, pos, ◌≤ℤ◌, pos_part, All, All-around, ==_iff,
  Bool-cases, inl, inr,
}
use hc_framework_go.Shop.Counter.{has_l2}
use hc_framework_go.Idle.Session.{IdleRecord, Store, Counter, insert_record, new_session}
use hc_framework_go.Idle.Daily.{value_of}
use hc_framework_go.Idle.Settle.{
  IdleService, SettleEnv, Commit, commits, rolls_back, unknown, SettleError, reserve, set_counter,
  release, after_tx, settle_tx, settle_statements, commit_of, close_for_nothing, finalize,
  invalidate, add_to_summary, add_reward,
}
use hc_framework_go.Idle.Settle.Steps.{
  Phase, reserved, decided, Run, takes_effect, decide, World, Step, opened, others, recounted,
  begun, failed, closed, settled, finished, died, Steps, stop, step, answer_of, is_kept,
}
use hc_framework_go.Idle.Settle.Limit.{IsClear, Fits, points_in, try_acquire-Fits, release-Fits}

-- The points of a run, where it is one of the user on the day.
abbrev pub points_at : ℕ → ℕ → Run → ℕ
points_at day user run =
    if (day == run.env.day) && (user == run.session.user_id) then pos_part run.points else 0

-- What the runs of a list put on the user's day.
abbrev pub total_at : ℕ → ℕ → List Run → ℕ
total_at day user [] = 0
total_at day user (run ∷ runs) = points_at day user run + total_at day user runs

-- A run holds its reservation until its transaction has taken effect.
abbrev pub is_holding : Phase → Bool
is_holding (decided (ok true)) = false
is_holding _ = true

abbrev pub held_by : ℕ → ℕ → Run → ℕ
held_by day user run = if is_holding run.phase then points_at day user run else 0

abbrev pub held_at : ℕ → ℕ → List Run → ℕ
held_at day user [] = 0
held_at day user (run ∷ runs) = held_by day user run + held_at day user runs

held-around :
    (day user : ℕ) (before : List Run) (run : Run) (after : List Run)
    → held_at day user (before ++ run ∷ after)
      ≡ held_at day user (before ++ after) + held_by day user run
held-around day user [] run after = omega arith
held-around day user (b ∷ bs) run after = omega (arith, held-around day user bs run after)

-- The counter of another day or another user.
abbrev pub IsOther : ℕ → ℕ → ℕ → ℕ → Type 0
IsOther day user d u = ((day == d) && (user == u)) ≡ false

module _ (svc : IdleService) (redis : has_l2 svc.cache ≡ true)
    (limited : ltb 0 svc.daily_points_limit ≡ true) (day user : ℕ) where
  abbrev FitsIn : ℕ → Store → Type 0
  FitsIn n s = Fits svc.daily_points_limit n (s.counters day user)

  fewer : (m n : ℕ) (s : Store) → n ≤ m → FitsIn m s → FitsIn n s
  fewer m n s h f = record {
    covered = omega (arith, f.covered, h);
    bounded = omega (arith, f.bounded, h);
  }

  abbrev is_own : SettleEnv → IdleRecord → Bool
  is_own env r = (day == env.day) && (user == r.user_id)

  acquired :
      (env : SettleEnv) (r : IdleRecord) (n : ℕ) (s : Store)
      → FitsIn n s
      → FitsIn
          (n + (if is_own env r then points_in (reserve svc env r s).0 else 0))
          (reserve svc env r s).1
  unfolding reserve set_counter
  acquired env r n s f =
      rw (redis, limited)
        (elim (Bool-cases (day == env.day)) [
          | inr d ↦ rw d (fewer n (n + 0) s (omega arith) f)
          | inl d ↦ elim (Bool-cases (user == r.user_id)) [
            | inr u ↦ rw (d, u, ← (==_iff day env.day).0 d) (fewer n (n + 0) s (omega arith) f)
            | inl u ↦
                rw (d, u)
                  (try_acquire-Fits svc redis limited env.counter.script_fails _ _ n _
                    (rw (← (==_iff day env.day).0 d, ← (==_iff user r.user_id).0 u) f))
          ]
        ])

  -- Another counter is set.
  recounted-Fits :
      (d u n : ℕ) (c : Option Counter) (s : Store)
      → IsOther day user d u
      → FitsIn n s
      → FitsIn n (set_counter d u c s)
  unfolding set_counter
  recounted-Fits d u n c s other f = elim (Bool-cases (day == d)) [
    | inr apart ↦ rw apart f
    | inl at ↦
        let who : (user == u) ≡ false = ground (arith, other, at) in
        rw (at, who, ← (==_iff day d).0 at) f
  ]

  released :
      (env : SettleEnv) (r : IdleRecord) (points : ℤ) (n : ℕ) (s : Store)
      → IsClear env
      → FitsIn (n + (if is_own env r then pos_part points else 0)) s
      → FitsIn n (release svc env r points s)
  unfolding release set_counter
  released env r points n s c f = rw c.same_day (elim (Bool-cases (day == env.day)) [
    | inr d ↦ rw d (fewer _ n s (omega arith) f)
    | inl d ↦ elim (Bool-cases (user == r.user_id)) [
      | inr u ↦ rw (d, u, ← (==_iff day env.day).0 d) (fewer _ n s (omega arith) f)
      | inl u ↦
          rw (d, u)
            (release-Fits svc redis limited env.counter svc.daily_points_limit n points _
              (rw (← (==_iff day env.day).0 d, ← (==_iff user r.user_id).0 u) (own_of d u)))
    ]
  ])
    where
      own_of : (day == env.day) ≡ true → (user == r.user_id) ≡ true → FitsIn (n + pos_part points) s
      own_of d u = fewer _ (n + pos_part points) s (ground (arith, d, u)) f

  -- Nothing else touches the counters.
  same_counters :
      (svc' : IdleService) (env : SettleEnv) (r : IdleRecord) (is_completed : Bool) (points : ℤ)
      (s : Store)
      → ((close_for_nothing env r is_completed s).0.counters ≡ s.counters)
        × ((settle_tx svc' env r is_completed points s).0.counters ≡ s.counters)
        × ((after_tx svc' env r points (ok true) s).counters ≡ s.counters)
  unfolding close_for_nothing settle_tx settle_statements add_reward after_tx finalize invalidate
      add_to_summary
  same_counters svc' env r is_completed points s = (ground arith, ground arith, ground arith)

  -- The same budget over the same counters.
  moved_to : (s u : Store) (m n : ℕ) → u.counters ≡ s.counters → n ≤ m → FitsIn m s → FitsIn n u
  moved_to s u m n e h f = rw e (fewer m n s h f)

  -- A transaction that takes effect ends the holding, and no other does.
  commit-holding :
      (c : Commit) (s : Store) (x : Except SettleError (Store × Bool))
      → c ≢ unknown
      → is_holding (decided (commit_of c s x).1) ≡ not (is_kept c && answer_of x)
  commit-holding commits s (err e) h = refl
  commit-holding rolls_back s (err e) h = refl
  commit-holding commits s (ok (u, true)) h = refl
  commit-holding commits s (ok (u, false)) h = refl
  commit-holding rolls_back s (ok (u, applied)) h = refl
  commit-holding unknown s x h = absurd (h refl)

  decide-holding :
      (run : Run) (s : Store)
      → IsClear run.env
      → is_holding (decide svc run s).1.phase ≡ not (takes_effect svc run s)
  unfolding decide takes_effect settle_tx
  decide-holding run s c = commit-holding run.env.commit s _ c.clear

  decide-counters : (run : Run) (s : Store) → (decide svc run s).0.counters ≡ s.counters
  unfolding decide
  decide-counters run s = (same_counters svc run.env run.session run.is_completed run.points s).1

  decide-points :
      (run : Run) (s : Store) → points_at day user (decide svc run s).1 ≡ points_at day user run
  unfolding decide
  decide-points run s = refl

  decide-calm : (run : Run) (s : Store) → IsClear run.env → IsClear (decide svc run s).1.env
  unfolding decide
  decide-calm run s c = c

  finish :
      (run : Run) (answer : Except SettleError Bool) (n : ℕ) (s : Store)
      → IsClear run.env
      → FitsIn (n + held_by day user (record run { phase = decided answer })) s
      → FitsIn n (after_tx svc run.env run.session run.points answer s)
  unfolding after_tx
  finish run (err e) n s c f = released run.env run.session run.points n s c f
  finish run (ok false) n s c f = released run.env run.session run.points n s c f
  finish run (ok true) n s c f =
      moved_to s (after_tx svc run.env run.session run.points (ok true) s) _ n
        (same_counters svc run.env run.session true run.points s).2 (omega arith) f

  -- What the runs hold and what took effect make up the same sum behind a transaction.
  decide-sum :
      (before after effective : List Run) (run : Run) (s : Store)
      → IsClear run.env
      → run.phase ≡ reserved
      → total_at day user (if takes_effect svc run s then run ∷ effective else effective)
          + held_at day user (before ++ (decide svc run s).1 ∷ after)
        ≡ total_at day user effective + held_at day user (before ++ run ∷ after)
  decide-sum before after effective run s c p = ground (
    arith,
    held-around day user before run after,
    held-around day user before (decide svc run s).1 after,
    decide-holding run s c,
    decide-points run s,
    p,
  )

  -- The reservations and what took effect fit, and every run is calm.
  pub record IsWithin (w : World) : Type 0 where
    pub fits : FitsIn (total_at day user w.effective + held_at day user w.runs) w.store
    pub calm : All (λ (run : Run). IsClear run.env) w.runs

  opened_counters :
      (s : Store) (user device now : ℕ)
      → (insert_record (new_session user device now) s).0.counters ≡ s.counters
  unfolding insert_record
  opened_counters s user device now = ground arith

  Step-IsWithin : {w u : World} → Step svc IsClear (IsOther day user) w u → IsWithin w → IsWithin u
  Step-IsWithin (opened s runs effective who device now) h = record {
    fits =
        moved_to s (insert_record (new_session who device now) s).0 _ _
          (opened_counters s who device now) (omega arith) h.fits;
    calm = h.calm;
  }
  Step-IsWithin (others s runs effective heartbeats members cached daily) h = record {
    fits = h.fits;
    calm = h.calm;
  }
  Step-IsWithin (recounted s runs effective d u c other) h = record {
    fits = recounted-Fits d u _ c s other h.fits;
    calm = h.calm;
  }
  Step-IsWithin (begun s runs effective env r is_completed points a k e) h = record {
    fits = fewer _ _ (reserve svc env r s).1 (ground (arith, e)) (acquired env r _ s h.fits);
    calm = (a, h.calm);
  }
  Step-IsWithin (failed s runs effective env r a e) h = record {
    fits = fewer _ _ (reserve svc env r s).1 (omega arith) (acquired env r _ s h.fits);
    calm = h.calm;
  }
  Step-IsWithin (closed s before after effective run p z) h =
      let (calm, rest, put) = All-around before run after h.calm in
      record {
        fits =
            moved_to s (close_for_nothing run.env run.session run.is_completed s).0 _ _
              (same_counters svc run.env run.session run.is_completed run.points s).0
              (omega (arith, held-around day user before run after)) h.fits;
        calm = rest;
      }
  Step-IsWithin (settled s before after effective run p z) h =
      let (calm, rest, put) = All-around before run after h.calm in
      record {
        fits =
            moved_to s (decide svc run s).0 _ _ (decide-counters run s)
              (omega (arith, decide-sum before after effective run s calm p)) h.fits;
        calm = put (decide svc run s).1 (decide-calm run s calm);
      }
  Step-IsWithin (finished s before after effective run answer p) h =
      let (calm, rest, put) = All-around before run after h.calm in
      record {
        fits =
            finish run answer _ s calm
              (fewer _ _ s (ground (arith, held-around day user before run after, p)) h.fits);
        calm = rest;
      }
  Step-IsWithin (died s before after effective run) h =
      let (calm, rest, put) = All-around before run after h.calm in
      record {
        fits = fewer _ _ s (omega (arith, held-around day user before run after)) h.fits;
        calm = rest;
      }

  Steps-IsWithin :
      {w u : World} → IsWithin w → Steps svc IsClear (IsOther day user) w u → IsWithin u
  Steps-IsWithin h (stop w) = h
  Steps-IsWithin h (step st rest) = Steps-IsWithin (Step-IsWithin st h) rest

-- With Redis and a limit, where no commit is unclear and no midnight falls into a run, and where the
-- counter of a user on a day starts at zero or above and is neither lost nor set anew, as by a run that
-- did not find it: however settlements interleave, fail and die, from tables with no run at work the
-- points that take effect for the user on the day stay within the limit.
pub Steps-within_limit :
    (svc : IdleService) {w u : World} (day user : ℕ)
    → has_l2 svc.cache ≡ true
    → ltb 0 svc.daily_points_limit ≡ true
    → pos 0 ≤ℤ value_of (w.store.counters day user)
    → w.runs ≡ []
    → w.effective ≡ []
    → Steps svc IsClear (IsOther day user) w u
    → total_at day user u.effective ≤ svc.daily_points_limit
Steps-within_limit svc {w = w} day user redis limited c runs effective steps =
    let start : IsWithin svc redis limited day user w = record {
      fits = record {
        covered = rw (runs, effective) c;
        bounded = rw (runs, effective) (omega arith);
      };
      calm = rw runs tt;
    } in
    let end = (Steps-IsWithin svc redis limited day user start steps).fits in
    omega (arith, end.bounded)
