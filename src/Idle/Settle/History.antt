-- ===== src/Idle/Settle/History.antt =====
-- The ledger over any history: settlements of internal/service/idle/idle_service.go that interleave,
-- fail and die between their calls.
use hc_framework_go.Prelude.{
  ℕ, ◌≤◌, ◌≡◌, refl, sym, ap, ◌∙◌, true, some, List, [], ◌∷◌, ◌++◌, arith, All, All-map, All-around,
  length, ==_iff, Option-cases, inl, inr,
}
use hc_framework_go.Idle.Session.{IdleRecord, Store, find_one_by, insert_record, new_session}
use hc_framework_go.Idle.Settle.{IdleService, SettleEnv}
use hc_framework_go.Idle.Settle.Steps.{
  Run, decide, owner_of, World, world, Step, opened, others, recounted, begun, failed, closed,
  settled, finished, died, Steps, stop, step, IsEmpty,
}
use hc_framework_go.Idle.Settle.Ledger.{earned, paid, sent, rows_with, IsLedgered, unknown_key}
use hc_framework_go.Idle.Settle.Grows.{
  Grows, same-Grows, after_tx-SameTables, reserve-SameTables, counter-SameTables, unchanged-Grows,
  close-Grows, tx-Grows,
}

inserted-Grows :
    (svc : IdleService) (s : Store) (user device now : ℕ)
    → IsLedgered svc s
    → Grows svc s (insert_record (new_session user device now) s).0
unfolding insert_record new_session owner_of
inserted-Grows svc s user device now l = elim (Option-cases (find_one_by user device s.records)) [
  | inr (other, e) ↦ rw (e, insert_record) (unchanged-Grows svc s l)
  | inl e ↦
      rw (e, insert_record)
        (record {
          ledgered = record {
            fresh = λ id h. ground (arith, l.fresh id);
            unique = λ id. ground (arith, l.unique id, l.fresh id, ==_iff s.next_record id);
            paid_is = λ id. ground (arith, l.paid_is id);
            sent_is = λ on id. ground (arith, l.sent_is on id);
          };
          owners = λ id user' h.
              ground (arith, h, l.fresh id, unknown_key id s.records, ==_iff s.next_record id);
        })
]

-- The run's copy is one of a session that has its owner.
pub IsCopy : Store → Run → Type 0
IsCopy s run = owner_of run.session.id s.records ≡ some run.session.user_id

-- The ledger holds, and every run is about a session of its owner.
pub record IsSound (svc : IdleService) (w : World) : Type 0 where
  pub ledgered : IsLedgered svc w.store
  pub copies : All (IsCopy w.store) w.runs

module _ (svc : IdleService) where
  grown :
      (s u : Store) (runs effective : List Run)
      → Grows svc s u
      → All (IsCopy s) runs
      → IsSound svc (world u runs effective)
  unfolding IsCopy
  grown s u runs effective g c = record {
    ledgered = g.ledgered;
    copies = All-map runs (λ run h. g.owners run.session.id run.session.user_id h) c;
  }

  pub Step-IsSound :
      {Allowed : SettleEnv → Type 0} {Sets : ℕ → ℕ → Type 0} {w u : World}
      → Step svc Allowed Sets w u
      → IsSound svc w
      → IsSound svc u
  unfolding IsCopy decide
  Step-IsSound (opened s runs effective user device now) h =
      grown s _ runs effective (inserted-Grows svc s user device now h.ledgered) h.copies
  Step-IsSound (others s runs effective heartbeats members cached daily) h =
      grown s _ runs effective
        (same-Grows svc s _
          (record { records_are = refl; next_is = refl; transactions_are = refl; outbox_is = refl })
          h.ledgered)
        h.copies
  Step-IsSound (recounted s runs effective day user c a) h =
      grown s _ runs effective (same-Grows svc s _ (counter-SameTables day user c s) h.ledgered)
        h.copies
  Step-IsSound (begun s runs effective env r is_completed points a k e) h =
      let g = same-Grows svc s _ (reserve-SameTables svc env r s) h.ledgered in
      record {
        ledgered = g.ledgered;
        copies = (g.owners r.id r.user_id k, (grown s _ runs effective g h.copies).copies);
      }
  Step-IsSound (failed s runs effective env r a e) h =
      grown s _ runs effective (same-Grows svc s _ (reserve-SameTables svc env r s) h.ledgered)
        h.copies
  Step-IsSound (closed s before after effective run p z) h =
      let (copy, rest, put) = All-around before run after h.copies in
      grown s _ (before ++ after) effective
        (close-Grows svc run.env run.session run.is_completed s h.ledgered copy) rest
  Step-IsSound (settled s before after effective run p z) h =
      let (copy, rest, put) = All-around before run after h.copies in
      grown s _ (before ++ (decide svc run s).1 ∷ after) _
        (tx-Grows svc run.env run.session run.is_completed s h.ledgered copy run.points z)
        (put (decide svc run s).1 copy)
  Step-IsSound (finished s before after effective run answer p) h =
      let (copy, rest, put) = All-around before run after h.copies in
      grown s _ (before ++ after) effective
        (same-Grows svc s _ (after_tx-SameTables svc run.env run.session run.points answer s)
          h.ledgered)
        rest
  Step-IsSound (died s before after effective run) h =
      let (copy, rest, put) = All-around before run after h.copies in
      record { ledgered = h.ledgered; copies = rest }

  pub Steps-IsSound :
      {Allowed : SettleEnv → Type 0} {Sets : ℕ → ℕ → Type 0} {w u : World}
      → IsSound svc w
      → Steps svc Allowed Sets w u
      → IsSound svc u
  Steps-IsSound h (stop w) = h
  Steps-IsSound h (step st rest) = Steps-IsSound (Step-IsSound st h) rest

empty-IsSound : (svc : IdleService) (w : World) → IsEmpty w → IsSound svc w
empty-IsSound svc w (r, t, o, n, f) = record {
  ledgered = record {
    fresh = λ id h. rw r refl;
    unique = λ id. rw r (omega arith);
    paid_is = λ id. rw (r, t) refl;
    sent_is = λ on id. rw (r, o) refl;
  };
  copies = rw n tt;
}

earned-le : (id : ℕ) (rows : List IdleRecord) → length (earned id rows) ≤ rows_with id rows
earned-le id [] = omega arith
earned-le id (r ∷ rs) = ground (arith, earned-le id rs)

-- However settlements interleave, fail and die, starting from empty tables: the ledger rows of a
-- session are its owner and the points that its row says it earned, of which there is one at most.
pub Steps-paid_once :
    (svc : IdleService) {Allowed : SettleEnv → Type 0} {Sets : ℕ → ℕ → Type 0} {w u : World}
    (id : ℕ)
    → IsEmpty w
    → Steps svc Allowed Sets w u
    → (paid id u.store.transactions ≡ earned id u.store.records)
      × (length (paid id u.store.transactions) ≤ 1)
Steps-paid_once svc {u = u} id e steps =
    let l = (Steps-IsSound svc (empty-IsSound svc _ e) steps).ledgered in
    (
      l.paid_is id,
      omega (arith, ap length (l.paid_is id), earned-le id u.store.records, l.unique id),
    )

-- And where the outbox is on, the outbox rows of a session carry the user and amount of its ledger
-- rows.
pub Steps-sent_as_paid :
    (svc : IdleService) {Allowed : SettleEnv → Type 0} {Sets : ℕ → ℕ → Type 0} {w u : World}
    (id : ℕ)
    → IsEmpty w
    → svc.points_on ≡ true
    → Steps svc Allowed Sets w u
    → sent id u.store.outbox ≡ paid id u.store.transactions
Steps-sent_as_paid svc id e on steps =
    let l = (Steps-IsSound svc (empty-IsSound svc _ e) steps).ledgered in
    l.sent_is on id ∙ sym (l.paid_is id)
