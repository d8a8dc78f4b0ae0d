-- ===== src/Backfill/Queue/Owned.antt =====
-- lane of backfill/coordinator.go: the tables marked as running are those that the lanes work on.
use gtc.Base.{
  ℕ, ◌≡◌, refl, sym, ap, subst, ◌∙◌, inl, inr, Bool, true, false, not, ◌&&◌, ◌||◌, Bool-cases, List,
  [], ◌∷◌, String, any, keep, arith, zero, suc,
}
use gtc.Base.Int.{ℤ}
use gtc.Backfill.State.{TableRef, same_table, Config, Coordinator, new_coordinator}
use gtc.Backfill.Queue.{enqueue_locked, pop, pop_first, delete_running}
use gtc.Backfill.Queue.Exclusive.{
  Distinct, Exclusive, same_table-eq, same_table_self, same_table_comm, enqueue_locked-Exclusive,
  pop-Exclusive, delete_running-Exclusive,
}
use gtc.Backfill.Queue.Lanes.{
  Lane, looks, sleeps, works, Pool, At, here, there, after_pop, Step, enqueues, pops, wakes, ends,
  initial, replicate, Reach, begins, next, worked,
}

has : TableRef → List TableRef → Bool
has t ts = any (same_table t) ts

abbrev Idle : Lane → Type 0
Idle looks = Unit
Idle sleeps = Unit
Idle (works t) = ⊥

worked-Idle :
    {l k : Lane} {ls ls' : List Lane} → At l ls k ls' → Idle l → Idle k → worked ls' ≡ worked ls
unfolding worked
worked-Idle {l = looks} {k = looks} here i j = refl
worked-Idle {l = looks} {k = sleeps} here i j = refl
worked-Idle {l = sleeps} {k = looks} here i j = refl
worked-Idle {l = sleeps} {k = sleeps} here i j = refl
worked-Idle {l = works t} here i j = absurd i
worked-Idle {l = looks} {k = works t} here i j = absurd j
worked-Idle {l = sleeps} {k = works t} here i j = absurd j
worked-Idle (there {m = looks} at) i j = worked-Idle at i j
worked-Idle (there {m = sleeps} at) i j = worked-Idle at i j
worked-Idle (there {m = works t} at) i j = ap (◌∷◌ t) (worked-Idle at i j)

-- a looking lane takes a table
worked_more :
    (t : TableRef) {ls ls' : List Lane}
    → At looks ls (works t) ls'
    → (u : TableRef) → has u (worked ls') ≡ (same_table u t || has u (worked ls))
unfolding worked has
worked_more t here u = refl
worked_more t (there {m = looks} at) u = worked_more t at u
worked_more t (there {m = sleeps} at) u = worked_more t at u
worked_more t (there {m = works v} at) u = ground (arith, worked_more t at u)

Distinct-more :
    (t : TableRef) {ls ls' : List Lane}
    → At looks ls (works t) ls'
    → has t (worked ls) ≡ false
    → Distinct (worked ls)
    → Distinct (worked ls')
unfolding worked has
Distinct-more t here n d = (n, d)
Distinct-more t (there {m = looks} at) n d = Distinct-more t at n d
Distinct-more t (there {m = sleeps} at) n d = Distinct-more t at n d
Distinct-more t (there {m = works v} at) n (a, d) =
    (ground (arith, worked_more t at v, same_table_comm v t), Distinct-more t at (ground arith) d)

-- a lane is done with its table
has_works :
    (t : TableRef) {ls ls' : List Lane} → At (works t) ls looks ls' → has t (worked ls) ≡ true
unfolding worked has
has_works t (here {ls = ls}) = ground (arith, same_table_self t)
has_works t (there {m = looks} at) = has_works t at
has_works t (there {m = sleeps} at) = has_works t at
has_works t (there {m = works v} at) = ground (arith, has_works t at)

has_same : (t u : TableRef) (ts : List TableRef) → same_table t u ≡ true → has u ts ≡ has t ts
has_same t u ts s = ap (λ x. has x ts) (sym (same_table-eq t u s))

apart :
    (t v : TableRef) (ts : List TableRef)
    → has t ts ≡ true
    → has v ts ≡ false
    → same_table t v ≡ false
apart t v ts h n = ground (arith, has_same t v ts)

less_here :
    (t u : TableRef) (ts : List TableRef)
    → has t ts ≡ false
    → has u ts ≡ ((same_table u t || has u ts) && not (same_table t u))
less_here t u ts n = ground (arith, has_same t u ts, same_table_comm t u)

less_there :
    (t u v : TableRef) (ts ts' : List TableRef)
    → has v ts ≡ false
    → has t ts ≡ true
    → has u ts' ≡ (has u ts && not (same_table t u))
    → (same_table u v || has u ts') ≡ ((same_table u v || has u ts) && not (same_table t u))
less_there t u v ts ts' n h r = ground (arith, has_same t u ts, has_same u v ts)

worked_less :
    (t : TableRef) {ls ls' : List Lane}
    → At (works t) ls looks ls'
    → Distinct (worked ls)
    → (u : TableRef) → has u (worked ls') ≡ (has u (worked ls) && not (same_table t u))
unfolding worked has
worked_less t (here {ls = ls}) (n, d) u = less_here t u (worked ls) n
worked_less t (there {m = looks} at) d u = worked_less t at d u
worked_less t (there {m = sleeps} at) d u = worked_less t at d u
worked_less t (there {m = works v} {ls = ls} {ls' = ls'} at) (n, d) u =
    less_there t u v (worked ls) (worked ls') n (has_works t at) (worked_less t at d u)

Distinct-less :
    (t : TableRef) {ls ls' : List Lane}
    → At (works t) ls looks ls'
    → Distinct (worked ls)
    → Distinct (worked ls')
unfolding worked has
Distinct-less t here (n, d) = d
Distinct-less t (there {m = looks} at) d = Distinct-less t at d
Distinct-less t (there {m = sleeps} at) d = Distinct-less t at d
Distinct-less t (there {m = works v} at) (n, d) =
    (worked_less t at d v ∙ ground arith, Distinct-less t at d)

has-keep :
    (t u : TableRef) (ts : List TableRef)
    → has u (keep (λ x. not (same_table t x)) ts) ≡ (has u ts && not (same_table t u))
unfolding has
has-keep t u [] = refl
has-keep t u (x ∷ xs) = elim (Bool-cases (same_table u x)) [
  | inl s ↦
      subst
        (λ y.
          has u (keep (λ x. not (same_table t x)) (y ∷ xs))
          ≡ (has u (y ∷ xs) && not (same_table t u)))
        (same_table-eq u x s) (ground (arith, has-keep t u xs, same_table_self u))
  | inr n ↦ ground (arith, has-keep t u xs)
]

-- The lanes work on tables that differ, and these are the ones marked as running.
pub record Owned (p : Pool) : Type 0 where
  pub exclusive : Exclusive p.c
  pub distinct : Distinct (worked p.lanes)
  pub marked : (u : TableRef) → any (same_table u) (worked p.lanes) ≡ any (same_table u) p.c.running

Idle-Owned :
    (c c' : Coordinator) {l k : Lane} {ls ls' : List Lane}
    → At l ls k ls'
    → Idle l
    → Idle k
    → Exclusive c'
    → c'.running ≡ c.running
    → Owned (record { c = c; lanes = ls })
    → Owned (record { c = c'; lanes = ls' })
Idle-Owned c c' at i j ex r o = record {
  exclusive = ex;
  distinct = subst Distinct (sym (worked-Idle at i j)) o.distinct;
  marked = λ u.
      ap (any (same_table u)) (worked-Idle at i j) ∙ o.marked u ∙ ap (any (same_table u)) (sym r);
}

pop_Owned :
    (q : List TableRef) (c : Coordinator) {ls ls' : List Lane}
    → At looks ls (after_pop (pop_first q c).1) ls'
    → c.queue ≡ q
    → Exclusive (pop_first q c).0
    → Owned (record { c = c; lanes = ls })
    → Owned (record { c = (pop_first q c).0; lanes = ls' })
unfolding pop_first has
pop_Owned [] c at h ex o = Idle-Owned c c at tt tt ex refl o
pop_Owned (t ∷ q) c {ls = ls} at h ex o =
    let free : has t (worked ls) ≡ false =
      o.marked t ∙ o.exclusive.apart t (rw (h) (ground (arith, same_table_self t))) in
    record {
      exclusive = ex;
      distinct = Distinct-more t at free o.distinct;
      marked = λ u. worked_more t at u ∙ ap (λ b. same_table u t || b) (o.marked u);
    }

Step-Owned : {p q : Pool} → Step p q → Owned p → Owned q
unfolding enqueue_locked delete_running pop has
Step-Owned (enqueues {c = c} t free) o = record {
  exclusive = enqueue_locked-Exclusive t c free o.exclusive;
  distinct = o.distinct;
  marked = o.marked;
}
Step-Owned (pops {c = c} at) o = pop_Owned c.queue c at refl (pop-Exclusive c o.exclusive) o
Step-Owned (wakes {c = c} n h at) o =
    Idle-Owned c (record c { wake = n }) at tt tt
      (record { queued_once = o.exclusive.queued_once; apart = o.exclusive.apart }) refl o
Step-Owned (ends {c = c} {ls = ls} {ls' = ls'} t at) o = record {
  exclusive = delete_running-Exclusive t c o.exclusive;
  distinct = Distinct-less t at o.distinct;
  marked = λ u.
      worked_less t at o.distinct u
      ∙ ap (λ b. b && not (same_table t u)) (o.marked u)
      ∙ sym (has-keep t u c.running);
}

worked-replicate : (n : ℕ) → worked (replicate n) ≡ []
unfolding worked
worked-replicate zero = refl
worked-replicate (suc n) = worked-replicate n

-- In every state that a new coordinator and its lanes can reach, no two lanes work on the same table, the tables
-- marked as running are exactly those that the lanes work on, and a table waits at most once and only while no
-- lane works on it.
pub Reach-Owned :
    (cfg : Config) (chunk_size lanes : ℤ) (instance_id : String) (p : Pool)
    → Reach (initial cfg chunk_size lanes instance_id) p
    → Owned p
unfolding initial new_coordinator
Reach-Owned cfg chunk_size lanes instance_id p begins =
    let w = worked-replicate (new_coordinator cfg chunk_size lanes instance_id).cfg.lanes in
    record {
      exclusive = record { queued_once = tt; apart = λ t h. refl };
      distinct = subst Distinct (sym w) tt;
      marked = λ u. ap (any (same_table u)) w;
    }
Reach-Owned cfg chunk_size lanes instance_id p (next {p = q} r s) =
    Step-Owned s (Reach-Owned cfg chunk_size lanes instance_id q r)
