-- ===== src/Backfill/Queue/Exclusive.antt =====
-- backfill/coordinator.go: a table is queued once, and never while a lane runs it.
use gtc.Base.{
  ℕ, ◌≡◌, refl, sym, subst, ◌∙◌, String, eq_iff, eq_refl, Bool, true, false, ◌||◌, Bool-cases, List,
  [], ◌∷◌, ◌++◌, any, keep, arith, inl, inr,
}
use gtc.Base.Dict
use gtc.Domain.Sink.{Ctx}
use gtc.Dlq.Store.{Answer, got, failed}
use gtc.Backfill.State.{TableRef, name_of, same_table, Db, Coordinator}
use gtc.Backfill.Queue.{
  is_excluded, wanted, busy_locked, enqueue_locked, pop, pop_first, delete_running, replay_locked,
  queue_one, queue_each, candidate, replayable, enqueue_unless_busy, enqueue_table, after_listed,
  enqueue_all, replay_all,
}

pub same_table-eq : (t u : TableRef) → same_table t u ≡ true → t ≡ u
unfolding same_table
same_table-eq t u h = ground (arith, eq_iff t.schema u.schema, eq_iff t.table u.table)

pub same_table_self : (t : TableRef) → same_table t t ≡ true
unfolding same_table
same_table_self t = rw (eq_refl t.schema, eq_refl t.table) refl

abbrev pub Distinct : List TableRef → Type 0
Distinct [] = Unit
Distinct (t ∷ ts) = (any (same_table t) ts ≡ false) × Distinct ts

pub record Exclusive (c : Coordinator) : Type 0 where
  pub queued_once : Distinct c.queue
  pub apart :
      (t : TableRef) → any (same_table t) c.queue ≡ true → any (same_table t) c.running ≡ false

pub any-append :
    (p : TableRef → Bool) (xs ys : List TableRef) → any p (xs ++ ys) ≡ (any p xs || any p ys)
any-append p [] ys = refl
any-append p (x ∷ xs) ys = ground (arith, any-append p xs ys)

pub same_table_comm : (t u : TableRef) → same_table t u ≡ same_table u t
unfolding same_table
same_table_comm t u = ground (
  arith,
  eq_iff t.schema u.schema,
  eq_iff t.table u.table,
  eq_iff u.schema t.schema,
  eq_iff u.table t.table,
)

Distinct-snoc :
    (t : TableRef) (ts : List TableRef)
    → any (same_table t) ts ≡ false
    → Distinct ts
    → Distinct (ts ++ (t ∷ []))
Distinct-snoc t [] h d = (refl, tt)
Distinct-snoc t (u ∷ ts) h (n, d) = (
  any-append (same_table u) ts (t ∷ []) ∙ rw (n, same_table_comm u t) (ground arith),
  Distinct-snoc t ts (ground arith) d,
)

any-keep :
    (p q : TableRef → Bool) (ts : List TableRef) → any p ts ≡ false → any p (keep q ts) ≡ false
any-keep p q [] h = refl
any-keep p q (t ∷ ts) h = ground (arith, any-keep p q ts)

pub enqueue_locked-Exclusive :
    (t : TableRef) (c : Coordinator)
    → busy_locked t c ≡ false
    → Exclusive c
    → Exclusive (enqueue_locked t c)
unfolding enqueue_locked busy_locked
enqueue_locked-Exclusive t c free ex = record {
  queued_once = Distinct-snoc t c.queue (ground arith) ex.queued_once;
  apart = λ u h. elim (Bool-cases (any (same_table u) c.queue)) [
    | inl old ↦ ex.apart u old
    | inr n ↦
        subst (λ v. any (same_table v) c.running ≡ false)
          (sym (same_table-eq u t (ground (arith, any-append (same_table u) c.queue (t ∷ [])))))
          (ground arith)
  ];
}

pop_first-Exclusive :
    (q : List TableRef) (c : Coordinator)
    → Exclusive c
    → Distinct q
    → ((t : TableRef) → any (same_table t) q ≡ true → any (same_table t) c.running ≡ false)
    → Exclusive (pop_first q c).0
unfolding pop_first
pop_first-Exclusive [] c ex d apart = ex
pop_first-Exclusive (t ∷ q) c ex (n, d) apart = record {
  queued_once = d;
  apart = λ u h. elim (Bool-cases (same_table u t)) [
    | inl same ↦
        absurd (cc (sym (subst (λ v. any (same_table v) q ≡ true) (same_table-eq u t same) h) ∙ n))
    | inr other ↦ rw (other) (apart u (rw (h) (ground arith)))
  ];
}

pub pop-Exclusive : (c : Coordinator) → Exclusive c → Exclusive (pop c).0
unfolding pop
pop-Exclusive c ex = pop_first-Exclusive c.queue c ex ex.queued_once ex.apart

pub delete_running-Exclusive :
    (t : TableRef) (c : Coordinator) → Exclusive c → Exclusive (delete_running t c)
unfolding delete_running
delete_running-Exclusive t c ex = record {
  queued_once = ex.queued_once;
  apart = λ u h. any-keep (same_table u) _ c.running (ex.apart u h);
}

pub replay_locked-Exclusive :
    (t : TableRef) (c : Coordinator)
    → busy_locked t c ≡ false
    → Exclusive c
    → Exclusive (replay_locked t c)
unfolding replay_locked busy_locked
replay_locked-Exclusive t c free ex =
    enqueue_locked-Exclusive t (record c { state = Dict.remove (name_of t) c.state }) free
      (record { queued_once = ex.queued_once; apart = ex.apart })

-- The function keeps the invariant on a table that is not busy.
abbrev pub Queues : (TableRef → Coordinator → Coordinator) → Type 0
Queues queued =
    (t : TableRef) (c : Coordinator)
    → busy_locked t c ≡ false
    → Exclusive c
    → Exclusive (queued t c)

queue_one-Exclusive :
    (queued : TableRef → Coordinator → Coordinator)
    → Queues queued
    → (t : TableRef) (c : Coordinator) (n : ℕ) → Exclusive c
    → Exclusive (queue_one queued t (c, n)).0
unfolding queue_one
queue_one-Exclusive queued q t c n ex = elim (Bool-cases (busy_locked t c)) [
  | inl busy ↦ rw (busy) ex
  | inr free ↦ rw (free) (q t c free ex)
]

queue_each-Exclusive :
    (queued : TableRef → Coordinator → Coordinator)
    → Queues queued
    → (ts : List TableRef) (r : Coordinator × ℕ) → Exclusive r.0
    → Exclusive (queue_each queued ts r).0
unfolding queue_each
queue_each-Exclusive queued q [] r ex = ex
queue_each-Exclusive queued q (t ∷ ts) (c, n) ex =
    queue_each-Exclusive queued q ts (queue_one queued t (c, n))
      (queue_one-Exclusive queued q t c n ex)

module _ {W : Type 0} (db : Db W) (between : Coordinator → Coordinator)
    (calm : (c : Coordinator) → Exclusive c → Exclusive (between c)) where
  enqueue_unless_busy-Exclusive :
      (t : TableRef) (c : Coordinator)
      → Exclusive c
      → Exclusive (enqueue_unless_busy db between t c).0
  unfolding enqueue_unless_busy
  enqueue_unless_busy-Exclusive t c ex = elim (Bool-cases (busy_locked t c)) [
    | inl busy ↦ rw (busy) ex
    | inr free ↦ rw (free) (replay_locked-Exclusive t c free ex)
  ]

  enqueue_table-Exclusive :
      (t : TableRef) (c : Coordinator) (w : W)
      → Exclusive c
      → Exclusive (enqueue_table db between t c w).1
  unfolding enqueue_table
  enqueue_table-Exclusive t c w ex = elim (Bool-cases (is_excluded t c.cfg)) [
    | inl out ↦ rw (out) ex
    | inr kept ↦ elim (Bool-cases (wanted t c.cfg)) [
      | inr unwanted ↦ rw (kept, unwanted) ex
      | inl want ↦ elim (Bool-cases (busy_locked t c)) [
        | inl busy ↦ rw (kept, want, busy) ex
        | inr free ↦ rw (kept, want, free) (enqueue_unless_busy-Exclusive t (between c) (calm c ex))
      ]
    ]
  ]

  after_listed-Exclusive :
      (ctx : Ctx) (chosen : Coordinator → TableRef → Bool)
      (queued : TableRef → Coordinator → Coordinator)
      → Queues queued
      → (c : Coordinator) (r : W × Answer (List (String × String))) → Exclusive c
      → Exclusive (after_listed db between ctx chosen queued c r).1
  unfolding after_listed
  after_listed-Exclusive ctx chosen queued q c (w, failed e) ex = ex
  after_listed-Exclusive ctx chosen queued q c (w, got tables) ex =
      queue_each-Exclusive queued q (keep (chosen c) _) (between c, 0) (calm c ex)

  -- EnqueueTable, EnqueueAll and ReplayAll keep it that a table is queued at most once and never while a lane
  -- runs it, when what the other goroutines do between the two sections of the call keeps it too.
  pub manager-Exclusive :
      (t : TableRef) (ctx : Ctx) (c : Coordinator) (w : W)
      → Exclusive c
      → Exclusive (enqueue_table db between t c w).1
        × Exclusive (enqueue_all db between ctx c w).1
        × Exclusive (replay_all db between ctx c w).1
  unfolding enqueue_all replay_all
  manager-Exclusive t ctx c w ex = (
    enqueue_table-Exclusive t c w ex,
    after_listed-Exclusive ctx candidate enqueue_locked enqueue_locked-Exclusive c
        (db.publication_tables ctx c.cfg.publication_name w) ex,
    after_listed-Exclusive ctx replayable replay_locked replay_locked-Exclusive c
        (db.publication_tables ctx c.cfg.publication_name w) ex,
  )
