-- ===== src/Backfill/Queue/Wakeup.antt =====
-- lane of backfill/coordinator.go: a table that waits is taken by a lane that is free.
use gtc.Base.{
  ℕ, zero, suc, ◌+◌, ◌<◌, ◌≡◌, refl, sym, ap, subst, ◌⊎◌, inl, inr, true, List, [], ◌∷◌, String,
  any, length, arith,
}
use gtc.Base.Int.{ℤ}
use gtc.Backfill.State.{TableRef, same_table, Config}
use gtc.Backfill.Queue.{pop, pop_first}
use gtc.Backfill.Queue.Exclusive.{same_table_self}
use gtc.Backfill.Queue.Lanes.{
  Lane, looks, sleeps, works, Pool, At, here, there, Step, pops, wakes, initial, Reach, sleeping,
  looking,
}
use gtc.Backfill.Queue.Awake.{Awake, Reach-Awake}

-- a lane that looks can step
find_looking : (ls : List Lane) (k : Lane) → 0 < looking ls → (ls' : List Lane) × At looks ls k ls'
unfolding looking
find_looking [] k h = absurd (omega arith)
find_looking (looks ∷ ls) k h = (k ∷ ls, here)
find_looking (sleeps ∷ ls) k h = let (ls', at) = find_looking ls k h in (sleeps ∷ ls', there at)
find_looking (works t ∷ ls) k h = let (ls', at) = find_looking ls k h in (works t ∷ ls', there at)

find_sleeping :
    (ls : List Lane) (k : Lane) → 0 < sleeping ls → (ls' : List Lane) × At sleeps ls k ls'
unfolding sleeping
find_sleeping [] k h = absurd (omega arith)
find_sleeping (sleeps ∷ ls) k h = (k ∷ ls, here)
find_sleeping (looks ∷ ls) k h = let (ls', at) = find_sleeping ls k h in (looks ∷ ls', there at)
find_sleeping (works t ∷ ls) k h = let (ls', at) = find_sleeping ls k h in (works t ∷ ls', there at)

-- One step, or two.
pub data Soon : Pool → Pool → Type 0 where
  one_step : {p q : Pool} → Step p q → Soon p q
  two_steps : {p q r : Pool} → Step p q → Step q r → Soon p r

-- The first table that waited runs, and the others wait as before.
abbrev pub Taken : TableRef → List TableRef → Pool → Type 0
Taken t queue p = (p.c.queue ≡ queue) × (any (same_table t) p.c.running ≡ true)

take_at :
    (t : TableRef) (queue : List TableRef) (p : Pool)
    → p.c.queue ≡ t ∷ queue
    → 0 < looking p.lanes
    → (q : Pool) × (Step p q × Taken t queue q)
unfolding pop pop_first
take_at t queue p h l =
    let (ls', at) = find_looking p.lanes (works t) l in
    (
      record { c = (pop p.c).0; lanes = ls' },
      (
        pops (subst (λ k. At looks p.lanes k ls') (sym (rw (h) refl)) at),
        (rw (h) refl, rw (h) (rw (same_table_self t) refl)),
      ),
    )

At-looking : {ls ls' : List Lane} → At sleeps ls looks ls' → 0 < looking ls'
unfolding looking
At-looking (here {ls = ls}) = omega arith
At-looking (there {m = looks} at) = omega arith
At-looking (there {m = sleeps} at) = At-looking at
At-looking (there {m = works t} at) = At-looking at

wake_and_take :
    (t : TableRef) (queue : List TableRef) (p : Pool) (n : ℕ)
    → p.c.wake ≡ suc n
    → p.c.queue ≡ t ∷ queue
    → 0 < sleeping p.lanes
    → (r : Pool) × (Soon p r × Taken t queue r)
wake_and_take t queue p n w h s =
    let (ls', at) = find_sleeping p.lanes looks s in
    let (r, (step, taken)) =
      take_at t queue (record { c = record p.c { wake = n }; lanes = ls' }) h (At-looking at) in
    (r, (two_steps (wakes n w at) step, taken))

has_token : (n : ℕ) → 0 < n → (m : ℕ) × (n ≡ suc m)
has_token zero h = absurd (omega arith)
has_token (suc m) h = (m, refl)

zero_or_more : (n : ℕ) → (n ≡ 0) ⊎ (0 < n)
zero_or_more zero = inl refl
zero_or_more (suc n) = inr (omega arith)

token-Awake :
    (t : TableRef) (queue : List TableRef) (p : Pool)
    → Awake p
    → p.c.queue ≡ t ∷ queue
    → 0 < sleeping p.lanes
    → looking p.lanes ≡ 0
    → 0 < p.c.wake
token-Awake t queue p a h s l = elim a.served [
  | inl x ↦ omega arith
  | inr x ↦ omega (arith, ap length h)
]

-- In every state that a new coordinator and its lanes can reach, when a table waits and some lane does not work
-- on one, at most two steps make the first table that waits run, with the queue otherwise as it was: no wake-up
-- is lost, though a token is dropped when the channel is full.
pub waiting-Taken :
    (cfg : Config) (chunk_size lanes : ℤ) (instance_id : String) (t : TableRef)
    (queue : List TableRef) (p : Pool)
    → Reach (initial cfg chunk_size lanes instance_id) p
    → p.c.queue ≡ t ∷ queue
    → 0 < looking p.lanes + sleeping p.lanes
    → (r : Pool) × (Soon p r × Taken t queue r)
waiting-Taken cfg chunk_size lanes instance_id t queue p reach h idle =
    elim (zero_or_more (looking p.lanes)) [
      | inr l ↦ (let (q, (step, taken)) = take_at t queue p h l in (q, (one_step step, taken)))
      | inl z ↦
          (let s : 0 < sleeping p.lanes = omega arith in
            let (n, w) =
              has_token p.c.wake (
                token-Awake t queue p (Reach-Awake cfg chunk_size lanes instance_id reach) h s z) in
            wake_and_take t queue p n w h s)
    ]
