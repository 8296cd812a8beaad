-- ===== src/Idle/Settle/Grows.antt =====
-- What each part of a settlement, as cut in Idle/Settle, does to the ledger: `settleSession` of
-- internal/service/idle/idle_service.go.
use hc_framework_go.Prelude.{
  Option, ok, err, Except, ℕ, ◌≡◌, refl, sym, ◌∙◌, Bool, true, false, ◌&&◌, some, arith, ℤ, pos,
  Bool-cases, inl, inr, refuse, ◌>>◌,
}
use hc_framework_go.Idle.Session.{IdleRecord, Store, Counter}
use hc_framework_go.Idle.Settle.{
  IdleService, SettleEnv, Commit, commits, rolls_back, unknown, mark, settle_statements, commit_of,
  settle_tx, close_for_nothing, is_zero, SettleError, after_tx, release, finalize, invalidate,
  add_to_summary, set_counter, acquire, reserve, add_reward,
}
use hc_framework_go.Idle.Settle.Steps.{owner_of}
use hc_framework_go.Idle.Settle.Ledger.{IsLedgered, reward-IsLedgered, close-IsLedgered, mark-kept}

-- The two stores agree on the tables that the ledger is about.
pub record SameTables (s u : Store) : Type 0 where
  pub records_are : u.records ≡ s.records
  pub next_is : u.next_record ≡ s.next_record
  pub transactions_are : u.transactions ≡ s.transactions
  pub outbox_is : u.outbox ≡ s.outbox

-- The ledger holds, and every session that had an owner has it still.
pub record Grows (svc : IdleService) (s u : Store) : Type 0 where
  pub ledgered : IsLedgered svc u
  pub owners : (id user : ℕ) → owner_of id s.records ≡ some user → owner_of id u.records ≡ some user

pub same-Grows :
    (svc : IdleService) (s u : Store) → SameTables s u → IsLedgered svc s → Grows svc s u
same-Grows svc s u e l = record {
  ledgered = record {
    fresh = λ id h. rw e.records_are (l.fresh id (rw (sym e.next_is) h));
    unique = λ id. rw e.records_are (l.unique id);
    paid_is = λ id. rw (e.records_are, e.transactions_are) (l.paid_is id);
    sent_is = λ on id. rw (e.records_are, e.outbox_is) (l.sent_is on id);
  };
  owners = λ id user h. rw e.records_are h;
}

pub unchanged-Grows : (svc : IdleService) (s : Store) → IsLedgered svc s → Grows svc s s
unchanged-Grows svc s l = record { ledgered = l; owners = λ id user h. h }

-- Nothing but counters, heartbeats, members, the cache and the summary changes behind a transaction.
pub after_tx-SameTables :
    (svc : IdleService) (env : SettleEnv) (r : IdleRecord) (points : ℤ)
    (answer : Except SettleError Bool) (s : Store)
    → SameTables s (after_tx svc env r points answer s)
unfolding after_tx release set_counter finalize invalidate add_to_summary
after_tx-SameTables svc env r points answer s = record {
  records_are = ground arith;
  next_is = ground arith;
  transactions_are = ground arith;
  outbox_is = ground arith;
}

pub acquire-SameTables :
    (svc : IdleService) (env : SettleEnv) (r : IdleRecord) (s : Store)
    → SameTables s (acquire svc env r s).1
unfolding acquire set_counter
acquire-SameTables svc env r s = record {
  records_are = refl;
  next_is = refl;
  transactions_are = refl;
  outbox_is = refl;
}

pub counter-SameTables :
    (day user : ℕ) (c : Option Counter) (s : Store) → SameTables s (set_counter day user c s)
unfolding set_counter
counter-SameTables day user c s = record {
  records_are = refl;
  next_is = refl;
  transactions_are = refl;
  outbox_is = refl;
}

pub reserve-SameTables :
    (svc : IdleService) (env : SettleEnv) (r : IdleRecord) (s : Store)
    → SameTables s (reserve svc env r s).1
unfolding reserve set_counter
reserve-SameTables svc env r s = record {
  records_are = ground arith;
  next_is = ground arith;
  transactions_are = ground arith;
  outbox_is = ground arith;
}

module _ (svc : IdleService) (env : SettleEnv) (r : IdleRecord) (is_completed : Bool) (s : Store)
    (l : IsLedgered svc s) (known : owner_of r.id s.records ≡ some r.user_id) where
  pub close-Grows : Grows svc s (close_for_nothing env r is_completed s).0
  unfolding close_for_nothing
  close-Grows = elim (Bool-cases env.mark_fails) [
    | inl f ↦ rw f (unchanged-Grows svc s l)
    | inr f ↦ rw f (record {
      ledgered = close-IsLedgered svc env r is_completed s l known;
      owners = λ id user h. mark-kept svc env r is_completed s l known (pos 0) id ∙ h;
    })
  ]

  -- What the commit of the statements' answer would leave.
  abbrev GrowsIf : Except SettleError (Store × Bool) → Type 0
  GrowsIf (err e) = Unit
  GrowsIf (ok (u, applied)) = Grows svc s u

  module _ (points : ℤ) (nz : is_zero points ≡ false) where
    rewarded-Grows :
        (mark env r is_completed points s.records).1 ≡ true
        → Grows svc s (add_reward svc env r points (mark env r is_completed points s.records).0 s)
    unfolding add_reward
    rewarded-Grows m = record {
      ledgered = reward-IsLedgered svc env r is_completed s l known points nz m;
      owners = λ id user h. mark-kept svc env r is_completed s l known points id ∙ h;
    }

    inserted-Grows :
        (fails : Bool) (e : SettleError) (next : Except SettleError (Store × Bool))
        → GrowsIf next
        → GrowsIf (refuse fails e >> next)
    inserted-Grows true e next g = tt
    inserted-Grows false e next g = g

    statements-Grows : GrowsIf (settle_statements svc env r is_completed points s)
    unfolding settle_statements
    statements-Grows =
        inserted-Grows env.mark_fails _ _
          (elim (Bool-cases (mark env r is_completed points s.records).1) [
            | inl m ↦ rw m (
                inserted-Grows env.ledger_fails _ _
                  (inserted-Grows (svc.points_on && env.append_fails) _ _ (rewarded-Grows m)))
            | inr m ↦ rw m (unchanged-Grows svc s l)
          ])

    committed-Grows :
        (c : Commit) (x : Except SettleError (Store × Bool))
        → GrowsIf x
        → Grows svc s (commit_of c s x).0
    committed-Grows c (err e) g = unchanged-Grows svc s l
    committed-Grows commits (ok (u, applied)) g = g
    committed-Grows rolls_back (ok (u, applied)) g = unchanged-Grows svc s l
    committed-Grows unknown (ok (u, applied)) g = g

    pub tx-Grows : Grows svc s (settle_tx svc env r is_completed points s).0
    unfolding settle_tx
    tx-Grows = committed-Grows env.commit _ statements-Grows
