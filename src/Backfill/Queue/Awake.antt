-- ===== src/Backfill/Queue/Awake.antt =====
-- lane of backfill/coordinator.go: no table waits while a lane sleeps and nothing wakes it.
use gtc.Base.{
  ℕ, zero, suc, ◌+◌, ◌≤◌, ◌≡◌, refl, sym, ap, subst, ◌∙◌, ◌⊎◌, inl, inr, Bool-cases, List, [], ◌∷◌,
  String, length, length-append, ltb, arith,
}
use gtc.Base.Int.{ℤ}
use gtc.Backfill.State.{TableRef, Config, Coordinator, new_coordinator}
use gtc.Backfill.Queue.{signal, enqueue_locked, pop, pop_first, delete_running}
use gtc.Backfill.Queue.Lanes.{
  Lane, looks, sleeps, works, Pool, At, here, there, after_pop, Step, enqueues, pops, wakes, ends,
  initial, replicate, Reach, begins, next, sleeping, looking,
}

-- what one lane counts for
abbrev sleeps_one : Lane → ℕ
sleeps_one looks = 0
sleeps_one sleeps = 1
sleeps_one (works t) = 0

abbrev looks_one : Lane → ℕ
looks_one looks = 1
looks_one sleeps = 0
looks_one (works t) = 0

sleeping-cons : (l : Lane) (ls : List Lane) → sleeping (l ∷ ls) ≡ sleeps_one l + sleeping ls
unfolding sleeping
sleeping-cons looks ls = omega arith
sleeping-cons sleeps ls = omega arith
sleeping-cons (works t) ls = omega arith

looking-cons : (l : Lane) (ls : List Lane) → looking (l ∷ ls) ≡ looks_one l + looking ls
unfolding looking
looking-cons looks ls = omega arith
looking-cons sleeps ls = omega arith
looking-cons (works t) ls = omega arith

abbrev Counts : Lane → List Lane → Lane → List Lane → Type 0
Counts l ls k ls' =
    (sleeps_one l + sleeping ls' ≡ sleeps_one k + sleeping ls)
    × (looks_one l + looking ls' ≡ looks_one k + looking ls)
    × (length ls' ≡ length ls)

At-Counts : {l k : Lane} {ls ls' : List Lane} → At l ls k ls' → Counts l ls k ls'
At-Counts {l = l} {k = k} (here {ls = ls}) = (
  omega (arith, sleeping-cons l ls, sleeping-cons k ls),
  omega (arith, looking-cons l ls, looking-cons k ls),
  omega arith,
)
At-Counts (there {m = m} {ls = ls} {ls' = ls'} at) =
    let (a, b, n) = At-Counts at in
    (
      omega (arith, sleeping-cons m ls, sleeping-cons m ls'),
      omega (arith, looking-cons m ls, looking-cons m ls'),
      omega arith,
    )

-- There are tokens for the sleeping lanes, or tokens and looking lanes for the tables that wait.
pub record Awake (p : Pool) : Type 0 where
  pub capacity : p.c.cfg.lanes ≡ length p.lanes
  pub served : (sleeping p.lanes ≤ p.c.wake) ⊎ (length p.c.queue ≤ p.c.wake + looking p.lanes)

sleeping-within : (ls : List Lane) → sleeping ls ≤ length ls
unfolding sleeping
sleeping-within [] = omega arith
sleeping-within (looks ∷ ls) = omega (arith, sleeping-within ls)
sleeping-within (sleeps ∷ ls) = omega (arith, sleeping-within ls)
sleeping-within (works t ∷ ls) = omega (arith, sleeping-within ls)

signals :
    (s l q w n : ℕ) → s ≤ n → (s ≤ w) ⊎ (q ≤ w + l) → (s ≤ signal n w) ⊎ (q + 1 ≤ signal n w + l)
unfolding signal
signals s l q w n h (inl a) = elim (Bool-cases (ltb w n)) [
  | inl lt ↦ rw (lt) (inl (omega arith))
  | inr ge ↦ rw (ge) (inl a)
]
signals s l q w n h (inr a) = elim (Bool-cases (ltb w n)) [
  | inl lt ↦ rw (lt) (inr (omega arith))
  | inr ge ↦ rw (ge) (inl (ground arith))
]

-- pop takes a table for a looking lane, or puts it to sleep when none waits
pop_at :
    (q : List TableRef) (c : Coordinator) (ls ls' : List Lane)
    → Counts looks ls (after_pop (pop_first q c).1) ls'
    → c.queue ≡ q
    → Awake (record { c = c; lanes = ls })
    → Awake (record { c = (pop_first q c).0; lanes = ls' })
unfolding pop_first
pop_at [] c ls ls' (s, l, k) h a = record {
  capacity = a.capacity ∙ sym k;
  served = inr (subst (λ q. length q ≤ c.wake + looking ls') (sym h) (omega arith));
}
pop_at (t ∷ q) c ls ls' (s, l, k) h a = record {
  capacity = a.capacity ∙ sym k;
  served = elim a.served [ inl x ↦ inl (omega arith) | inr x ↦ inr (omega (arith, ap length h)) ];
}

Step-Awake : {p q : Pool} → Step p q → Awake p → Awake q
unfolding enqueue_locked delete_running pop
Step-Awake (enqueues {c = c} {ls = ls} t free) a = record {
  capacity = a.capacity;
  served =
      subst
        (λ k.
          (sleeping ls ≤ signal c.cfg.lanes c.wake) ⊎ (k ≤ signal c.cfg.lanes c.wake + looking ls))
        (sym (length-append c.queue (t ∷ [])))
        (signals (sleeping ls) (looking ls) (length c.queue) c.wake c.cfg.lanes
          (omega (arith, sleeping-within ls, a.capacity)) a.served);
}
Step-Awake (pops {c = c} {ls = ls} {ls' = ls'} at) a = pop_at c.queue c ls ls' (At-Counts at) refl a
Step-Awake (wakes {c = c} {ls = ls} {ls' = ls'} n h at) a =
    let (s, l, k) = At-Counts at in
    record {
      capacity = a.capacity ∙ sym k;
      served = elim a.served [ inl x ↦ inl (omega arith) | inr x ↦ inr (omega arith) ];
    }
Step-Awake (ends {c = c} {ls = ls} {ls' = ls'} t at) a =
    let (s, l, k) = At-Counts at in
    record {
      capacity = a.capacity ∙ sym k;
      served = elim a.served [ inl x ↦ inl (omega arith) | inr x ↦ inr (omega arith) ];
    }

initial-lanes : (n : ℕ) → (sleeping (replicate n) ≡ 0) × (length (replicate n) ≡ n)
unfolding sleeping
initial-lanes zero = (refl, refl)
initial-lanes (suc n) = let (s, l) = initial-lanes n in (s, ap (λ k. suc k) l)

initial-Awake :
    (cfg : Config) (chunk_size lanes : ℤ) (instance_id : String)
    → Awake (initial cfg chunk_size lanes instance_id)
unfolding initial new_coordinator
initial-Awake cfg chunk_size lanes instance_id =
    let (s, l) = initial-lanes (new_coordinator cfg chunk_size lanes instance_id).cfg.lanes in
    record { capacity = sym l; served = inl (omega arith) }

pub Reach-Awake :
    (cfg : Config) (chunk_size lanes : ℤ) (instance_id : String) {p : Pool}
    → Reach (initial cfg chunk_size lanes instance_id) p
    → Awake p
Reach-Awake cfg chunk_size lanes instance_id begins = initial-Awake cfg chunk_size lanes instance_id
Reach-Awake cfg chunk_size lanes instance_id (next r s) =
    Step-Awake s (Reach-Awake cfg chunk_size lanes instance_id r)
