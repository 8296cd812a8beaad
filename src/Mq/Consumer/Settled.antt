-- ===== src/Mq/Consumer/Settled.antt =====
-- No message is passed over in the mode `ordered_commit` of internal/mq/kafka_consumer.go.
use hc_framework_go.Prelude.{
  ℕ, suc, ◌≤◌, ◌<◌, ◌≡◌, ap, subst, Bool, true, false, Option, none, some, max, List, [], ◌∷◌,
  arith, ◌==◌, if◌then◌else◌, All, Option-cases, Bool-cases, inl, inr, ==_iff, ==_refl, ltb,
}
use hc_framework_go.Mq.Progress.{ProgressStore, or_zero, has}
use hc_framework_go.Mq.Consumer.{
  Message, ConsumerConfig, HandleEnv, append_dlq, process, decide, handle, Partition, ConsumerEvent,
  reads, restarts, is_lost, consume, consume_all, start_position,
}

-- The dead letters are written where they are needed.
abbrev pub KeepsDeadLetters : ConsumerEvent → Type 0
KeepsDeadLetters (reads env) = env.dlq_fails ≡ false
KeepsDeadLetters (restarts get_fails latest) = Unit

-- The offset that a restarted process starts from.
abbrev pub durable : {S : Type 0} → ProgressStore S → S → ℕ
durable store s = or_zero (store.get (store.restart s))

module _ {S : Type 0} (store : ProgressStore S) (cfg : ConsumerConfig) (log : ℕ → Option Message)
    (dlq : cfg.dlq_local_path ≡ true) (first : cfg.start_from_latest ≡ false) where
  -- All below `high` is settled, and neither the store nor the reader is beyond it.
  record Inv (p : Partition S) : Type 0 where
    pub high : ℕ
    pub behind : durable store p.store ≤ or_zero (store.get p.store)
    pub stored : or_zero (store.get p.store) ≤ high
    pub reached : p.position ≤ high
    pub done :
        (offset : ℕ) (m : Message)
        → ltb offset high ≡ true
        → log offset ≡ some m
        → has offset p.settled ≡ true

  kept :
      (env : HandleEnv) (m : Message) (s : S)
      → env.dlq_fails ≡ false
      → is_lost (decide store cfg env m s).0 ≡ false
  unfolding decide process append_dlq
  kept env m s h = ground (arith, h, dlq)

  -- The messages below the mark, when the reader has passed one more.
  passed_one :
      (p : Partition S) (settled : List ℕ) (i : Inv p)
      → ((offset : ℕ) → has offset p.settled ≡ true → has offset settled ≡ true)
      → ((m : Message) → log p.position ≡ some m → has p.position settled ≡ true)
      → (offset : ℕ) (m : Message) → ltb offset (max i.high (suc p.position)) ≡ true
      → log offset ≡ some m
      → has offset settled ≡ true
  passed_one p settled i more here offset m l e = elim (Bool-cases (offset == p.position)) [
    | inl at ↦
        let same = (==_iff offset p.position).0 at in
        rw same (here m (subst (λ o. log o ≡ some m) same e))
    | inr below ↦ more offset (i.done offset m (ground (arith, l, below, i.reached)) e)
  ]

  read-Inv :
      (env : HandleEnv) (p : Partition S) (m : Message)
      → log p.position ≡ some m
      → env.dlq_fails ≡ false
      → Inv p
      → (let (s, outcome) = handle store cfg env p.position m p.store in
          Inv (record p {
            store = s;
            position = suc p.position;
            settled = if is_lost outcome then p.settled else p.position ∷ p.settled;
          }))
  unfolding handle
  read-Inv env p m e h i =
      let event = (decide store cfg env m p.store).1 in
      let (behind, raised) =
        store.commit-restart env.commit_fails true (suc p.position) event p.store i.behind in
      rw (kept env m p.store h) (record {
        high = max i.high (suc p.position);
        behind = behind;
        stored = omega (arith, raised, i.stored);
        reached = omega arith;
        done =
            passed_one p (p.position ∷ p.settled) i (λ o x. ground (arith, x))
              (λ m' x. ground (arith, ==_refl p.position));
      })

  start-reached :
      (found : Option ℕ) (latest high : ℕ)
      → or_zero found ≤ high
      → start_position cfg.start_from_latest latest found ≤ high
  start-reached none latest high h = rw first (omega arith)
  start-reached (some off) latest high h = h

  asked_le :
      (get_fails : Bool) (found : Option ℕ) (high : ℕ)
      → or_zero found ≤ high
      → or_zero (if get_fails then none else found) ≤ high
  asked_le true found high h = omega arith
  asked_le false found high h = h

  consume-Inv :
      (e : ConsumerEvent) (p : Partition S)
      → KeepsDeadLetters e
      → Inv p
      → Inv (consume store cfg log e p)
  unfolding consume
  consume-Inv (restarts get_fails latest) p h i = record {
    high = i.high;
    behind = omega (arith, ap or_zero (store.restart-restart p.store));
    stored = omega (arith, i.behind, i.stored);
    reached =
        start-reached (if get_fails then none else store.get (store.restart p.store)) latest i.high
          (asked_le get_fails (store.get (store.restart p.store)) i.high
            (omega (arith, i.behind, i.stored)));
    done = i.done;
  }
  consume-Inv (reads env) p h i = elim (Option-cases (log p.position)) [
    | inl e ↦
        rw (e, consume)
          (record {
            high = max i.high (suc p.position);
            behind = i.behind;
            stored = omega (arith, i.stored);
            reached = omega arith;
            done = passed_one p p.settled i (λ o x. x) (λ m x. absurd (ground (arith, e, x)));
          })
    | inr (m, e) ↦ rw (e, consume) (read-Inv env p m e h i)
  ]

  consume_all-Inv :
      (es : List ConsumerEvent) (p : Partition S)
      → All KeepsDeadLetters es
      → Inv p
      → Inv (consume_all store cfg log es p)
  unfolding consume_all
  consume_all-Inv [] p h i = i
  consume_all-Inv (e ∷ es) p (h, hs) i =
      consume_all-Inv es (consume store cfg log e p) hs (consume-Inv e p h i)

-- In the ordered mode, over either kind of store, with a path for dead letters to which none fails to
-- be written, and with `start_from_latest` off: however reads, failed commits, ends of the process and
-- starts that the store does not answer follow one another, starting with a store that holds nothing,
-- each message below the offset that the store holds for a restarted process was processed, skipped as
-- a duplicate or put into the dead letters.
pub consume_all-settled :
    {S : Type 0} (store : ProgressStore S) (cfg : ConsumerConfig) (log : ℕ → Option Message)
    (es : List ConsumerEvent) (p : Partition S) (offset : ℕ) (m : Message)
    → cfg.dlq_local_path ≡ true
    → cfg.start_from_latest ≡ false
    → All KeepsDeadLetters es
    → or_zero (store.get p.store) ≡ 0
    → or_zero (store.get (store.restart p.store)) ≡ 0
    → p.position ≡ 0
    → offset < durable store (consume_all store cfg log es p).store
    → log offset ≡ some m
    → has offset (consume_all store cfg log es p).settled ≡ true
consume_all-settled store cfg log es p offset m dlq from_first keeps new newer at below e =
    let start : Inv store cfg log dlq from_first p = record {
      high = 0;
      behind = omega (arith, new, newer);
      stored = omega (arith, new);
      reached = omega (arith, at);
      done = λ o m' l x. absurd (ground (arith, l));
    } in
    let end = consume_all-Inv store cfg log dlq from_first es p keeps start in
    end.done offset m (ground (arith, below, end.behind, end.stored)) e
