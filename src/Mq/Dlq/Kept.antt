-- ===== src/Mq/Dlq/Kept.antt =====
-- A message that was put into the file is relayed or still in a file: internal/mq/dlq.go.
use hc_framework_go.Prelude.{
  ℕ, suc, ◌+◌, ◌≤◌, ◌≡◌, refl, Bool, true, false, Option, none, List, [], ◌∷◌, ◌++◌, arith, ◌==◌,
  if◌then◌else◌, take, count, count-append, Option-cases, inl, inr, All, ap,
}
use hc_framework_go.Mq.Dlq.{
  Line, DlqStore, FileEnv, lines_of, append, recover_leftovers, rename_main, drain_lines,
  write_back, drain_snapshot, die_draining, DlqEvent, appends, starts_replay, drains, dies,
  dlq_step, dlq_run, taken_by,
}

-- How often a list of lines holds a message.
abbrev pub times_of : ℕ → List Line → ℕ
times_of key = count (λ (l : Line). l.key == key)

-- What is kept and what is relayed make up the lines.
drain-times :
    (key batch_max : ℕ) (relays : ℕ → Bool) (i recovered : ℕ) (stop : Bool) (lines : List Line)
    → (let (kept, sent) = drain_lines batch_max relays i recovered stop lines in
        times_of key kept + times_of key sent ≡ times_of key lines)
unfolding drain_lines
drain-times key batch_max relays i recovered stop [] = refl
drain-times key batch_max relays i recovered stop (l ∷ ls) = ground (
  arith,
  drain-times key batch_max relays (suc i) recovered stop ls,
  drain-times key batch_max relays (suc i) (suc recovered) stop ls,
  drain-times key batch_max relays (suc i) recovered true ls,
)

-- The calls on the file system go well.
pub record IsHealthy (env : FileEnv) : Type 0 where
  pub opens : env.open_fails ≡ false
  pub writes : env.write_fails ≡ false
  pub reads : env.read_fails ≡ false
  pub scans : env.scanned ≡ none

abbrev pub AllHealthy : DlqEvent → Type 0
AllHealthy (appends env line) = Unit
AllHealthy (starts_replay env) = IsHealthy env
AllHealthy (drains env relays) = IsHealthy env
AllHealthy (dies relays n) = Unit

-- Relayed, or in the main file or the snapshot.
abbrev pub held : ℕ → DlqStore → ℕ
held key d =
    times_of key d.relayed + times_of key (lines_of d.main) + times_of key (lines_of d.replaying)

module _ (key max_bytes batch_max : ℕ) where
  recover-held :
      (env : FileEnv) (d : DlqStore)
      → IsHealthy env
      → (held key d ≤ held key (recover_leftovers env d))
        × ((recover_leftovers env d).replaying ≡ none)
  unfolding recover_leftovers
  recover-held env d h = elim (Option-cases d.replaying) [
    | inl e ↦ rw e (omega arith, refl)
    | inr (lines, e) ↦
        rw (e, h.reads, h.opens, h.writes)
          (omega (arith, count-append (λ (l : Line). l.key == key) (lines_of d.main) lines), refl)
  ]

  rename-held :
      (env : FileEnv) (d : DlqStore)
      → d.replaying ≡ none
      → held key d ≤ held key (rename_main env d)
  unfolding rename_main
  rename-held env d e = elim (Option-cases d.main) [
    | inl m ↦ rw m (omega (arith, ap (λ o. times_of key (lines_of o)) m))
    | inr (lines, m) ↦ ground (arith, m, e)
  ]

  append-held :
      (env : FileEnv) (line : Line) (d : DlqStore)
      → held key d + times_of key (if (append env max_bytes line d).1 then line ∷ [] else [])
        ≤ held key (append env max_bytes line d).0
  unfolding append
  append-held env line d =
      ground (arith, count-append (λ (l : Line). l.key == key) (lines_of d.main) (line ∷ []))

  write-held :
      (env : FileEnv) (lines : List Line) (main : Option (List Line))
      → IsHealthy env
      → times_of key (lines_of (write_back env lines main))
        ≡ times_of key (lines_of main) + times_of key lines
  unfolding write_back
  write-held env [] main h = omega arith
  write-held env (l ∷ ls) main h =
      rw (h.opens, h.writes) (count-append (λ (l : Line). l.key == key) (lines_of main) (l ∷ ls))

  drain-held :
      (env : FileEnv) (relays : ℕ → Bool) (d : DlqStore)
      → IsHealthy env
      → held key d ≤ held key (drain_snapshot env batch_max relays d)
  unfolding drain_snapshot
  drain-held env relays d h = elim (Option-cases d.replaying) [
    | inl e ↦ rw e (omega (arith, ap (λ o. times_of key (lines_of o)) e))
    | inr (lines, e) ↦
        let (kept, sent) = drain_lines batch_max relays 0 0 false lines in
        rw (e, h.reads, h.scans)
          (omega (
            arith,
            drain-times key batch_max relays 0 0 false lines,
            write-held env kept d.main h,
            count-append (λ (l : Line). l.key == key) sent d.relayed,
          ))
  ]

  die-held :
      (relays : ℕ → Bool) (n : ℕ) (d : DlqStore)
      → held key d ≤ held key (die_draining batch_max relays n d)
  unfolding die_draining
  die-held relays n d =
      let sent = (drain_lines batch_max relays 0 0 false (take n (lines_of d.replaying))).1 in
      omega (arith, count-append (λ (l : Line). l.key == key) sent d.relayed)

  step-held :
      (e : DlqEvent) (d : DlqStore)
      → AllHealthy e
      → held key d + times_of key (taken_by max_bytes e d)
        ≤ held key (dlq_step max_bytes batch_max e d)
  unfolding dlq_step taken_by
  step-held (appends env line) d h = append-held env line d
  step-held (starts_replay env) d h =
      let (more, gone) = recover-held env d h in
      omega (arith, more, rename-held env (recover_leftovers env d) gone)
  step-held (drains env relays) d h = omega (arith, drain-held env relays d h)
  step-held (dies relays n) d h = omega (arith, die-held relays n d)

-- However appends, replays and ends of the process follow one another, where the replays' calls on the
-- file system go well and every message taken so far is relayed or still in a file: so is every
-- message at the end, as often as the file has taken it.
pub dlq_run-kept :
    (max_bytes batch_max key : ℕ) (es : List DlqEvent) (d : DlqStore) (taken : List Line)
    → All AllHealthy es
    → times_of key taken ≤ held key d
    → (let (d', taken') = dlq_run max_bytes batch_max es d taken in
        times_of key taken' ≤ held key d')
unfolding dlq_run
dlq_run-kept max_bytes batch_max key [] d taken h t = t
dlq_run-kept max_bytes batch_max key (e ∷ es) d taken (h, hs) t =
    dlq_run-kept max_bytes batch_max key es (dlq_step max_bytes batch_max e d)
      (taken_by max_bytes e d ++ taken) hs
      (omega (
        arith,
        t,
        step-held key max_bytes batch_max e d h,
        count-append (λ (l : Line). l.key == key) (taken_by max_bytes e d) taken,
      ))
