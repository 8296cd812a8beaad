-- ===== src/Points/Balance.antt =====
-- The balances and the adjustments agree: `UpdatePoints` of internal/repository/user_repo.go under
-- the workers of internal/service/common/points_outbox.go.
use hc_framework_go.Prelude.{
  ℕ, suc, ◌+◌, ◌≡◌, refl, Option, none, some, List, [], ◌∷◌, arith, ◌==◌, if◌then◌else◌, ℤ, pos,
  negsuc, Bool-cases, inl, inr, ==_iff, true, false, Bool, update, subst, ap, ◌∙◌,
}
use hc_framework_go.Points.{
  Users, add_amount, set_balance, update_points, Worker, Stage, claiming, updating, requeueing,
  marking, Reply, answered, refused, lost, died, Tables, after_update, act, World, Step, appended,
  started, moved, Steps, stop, step, claim,
}

abbrev pub credit_of : ℤ → ℕ
credit_of (pos a) = a
credit_of (negsuc a) = 0

abbrev pub debit_of : ℤ → ℕ
debit_of (pos a) = 0
debit_of (negsuc a) = suc a

-- What the adjustments of a user sum up to.
abbrev pub total_of : (ℤ → ℕ) → ℕ → List Worker → ℕ
total_of part user [] = 0
total_of part user (w ∷ ws) =
    let rest = total_of part user ws in if user == w.user then part w.delta + rest else rest

abbrev pub Agrees : Option ℕ → Option ℕ → ℕ → ℕ → Type 0
Agrees none none credits debits = Unit
Agrees (some b0) (some b) credits debits = b + debits ≡ b0 + credits
Agrees _ _ credits debits = ⊥

-- The balance of every user, against the balance at the start.
abbrev pub Agree : Users → Tables → Type 0
Agree start t =
    (u : ℕ)
    → Agrees (start u) (t.users u) (total_of credit_of u t.applied) (total_of debit_of u t.applied)

step-amount :
    (start : Option ℕ) (b b' credits debits : ℕ) (delta : ℤ)
    → add_amount delta b ≡ some b'
    → Agrees start (some b) credits debits
    → Agrees start (some b') (credit_of delta + credits) (debit_of delta + debits)
step-amount none b b' credits debits delta h a = a
step-amount (some b0) b b' credits debits (pos n) h a = ground arith
step-amount (some b0) b b' credits debits (negsuc n) h a = ground arith

-- What an adjustment has been through.
updated :
    (user : ℕ) (delta : ℤ) (users users' : Users) (o : Option ℕ)
    → users user ≡ o
    → update_points user delta users ≡ some users'
    → (b b' : ℕ) × (users user ≡ some b)
      × (add_amount delta b ≡ some b')
      × (users' ≡ update users user (some b'))
unfolding update_points
updated user delta users users' none e h = absurd (let h' = rw (e, update_points) at h in cc)
updated user delta users users' (some b) e h =
    let (b', a, s) = written (add_amount delta b) refl (rw (e, update_points) at h) in
    (b, b', e, a, s)
  where
    written :
        (o : Option ℕ)
        → add_amount delta b ≡ o
        → set_balance users user o ≡ some users'
        → (b' : ℕ) × (add_amount delta b ≡ some b') × (users' ≡ update users user (some b'))
    written none a s = cc
    written (some b') a s = (b', a, ground arith)

module _ (start : Users) where
  applied-Agree :
      (t : Tables) (w : Worker) (users' : Users)
      → update_points w.user w.delta t.users ≡ some users'
      → Agree start t
      → Agree start (record t { users = users'; applied = w ∷ t.applied })
  applied-Agree t w users' h a u =
      let (b, b', read, amount, s) = updated w.user w.delta t.users users' _ refl h in
      elim (Bool-cases (u == w.user)) [
        | inl hit ↦
            rw (s, hit)
              (step-amount (start u) b b' _ _ w.delta amount (
                subst
                  (λ (o : Option ℕ).
                    Agrees (start u) o (total_of credit_of u t.applied)
                      (total_of debit_of u t.applied))
                  (ap t.users ((==_iff u w.user).0 hit) ∙ read) (a u)))
        | inr miss ↦ rw (s, miss) (a u)
      ]

  update-Agree :
      (t : Tables) (w : Worker) (next : Stage) (o : Option Users)
      → update_points w.user w.delta t.users ≡ o
      → Agree start t
      → Agree start (after_update t w next o).0
  unfolding after_update
  update-Agree t w next none h a = a
  update-Agree t w next (some users') h a = applied-Agree t w users' h a

  abbrev AgreeAfter : Tables × Option Worker → Type 0
  AgreeAfter r = Agree start r.0

  act-Agree :
      (stage : Stage) (reply : Reply) (t : Tables) (w : Worker)
      → Agree start t
      → AgreeAfter (act stage reply t w)
  unfolding act
  act-Agree stage died t w a = a
  act-Agree claiming answered t w a = claimed-Agree (claim w.event t.outbox).1
    where
      claimed-Agree :
          (b : Bool)
          → AgreeAfter (
              if b
              then (
                record t { outbox = (claim w.event t.outbox).0 },
                some (record w { stage = updating }),
              )
              else (record t { outbox = (claim w.event t.outbox).0 }, none))
      claimed-Agree true = a
      claimed-Agree false = a
  act-Agree claiming lost t w a = a
  act-Agree claiming refused t w a = a
  act-Agree updating answered t w a = update-Agree t w marking _ refl a
  act-Agree updating lost t w a = update-Agree t w requeueing _ refl a
  act-Agree updating refused t w a = a
  act-Agree requeueing answered t w a = a
  act-Agree requeueing lost t w a = a
  act-Agree requeueing refused t w a = a
  act-Agree marking answered t w a = a
  act-Agree marking lost t w a = a
  act-Agree marking refused t w a = a

  Step-Agree :
      (can_be : Stage → Reply → Bool) (s s' : World)
      → Step can_be s s'
      → Agree start s.tables
      → Agree start s'.tables
  Step-Agree can_be _ _ (appended t ws event user delta now n) a = a
  Step-Agree can_be _ _ (started t ws event user delta) a = a
  Step-Agree can_be _ _ (moved t before after w reply allowed) a = act-Agree w.stage reply t w a

  -- In every world that workers can reach from one where this holds, whatever fails, is lost or
  -- dies, each user's balance and what was debited from it make up the balance at the start and
  -- what was credited to it, no user appears or disappears, and no balance goes below zero.
  pub Steps-Agree :
      (can_be : Stage → Reply → Bool) (s s' : World)
      → Steps can_be s s'
      → Agree start s.tables
      → Agree start s'.tables
  Steps-Agree can_be s _ (stop _) a = a
  Steps-Agree can_be s s' (step {u = u} one rest) a =
      Steps-Agree can_be u s' rest (Step-Agree can_be s u one a)
