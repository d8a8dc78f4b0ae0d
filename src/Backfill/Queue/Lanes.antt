-- ===== src/Backfill/Queue/Lanes.antt =====
-- lane of backfill/coordinator.go: the lanes that take tables from the queue, and the tokens that wake them.
use gtc.Base.Int.{ℤ}
use gtc.Base.{ℕ, zero, suc, ◌≡◌, false, List, [], ◌∷◌, String, Option, none, some}
use gtc.Backfill.State.{TableRef, Config, Coordinator, new_coordinator}
use gtc.Backfill.Queue.{busy_locked, enqueue_locked, pop, delete_running}

-- Where a lane is in its loop: before pop, in the select, or in backfillTable.
pub data Lane : Type 0 where
  looks : Lane
  sleeps : Lane
  works : TableRef → Lane

-- The coordinator, and the lanes before and after the one that steps.
pub record Pool : Type 0 where
  pub c : Coordinator
  pub lanes : List Lane

-- `At l ls k ls'`: the lanes ls, and ls' where one lane l has become k
pub data At : Lane → List Lane → Lane → List Lane → Type 0 where
  here : {l k : Lane} {ls : List Lane} → At l (l ∷ ls) k (k ∷ ls)
  there : {l k m : Lane} {ls ls' : List Lane} → At l ls k ls' → At l (m ∷ ls) k (m ∷ ls')

-- what a lane becomes after pop
abbrev pub after_pop : Option TableRef → Lane
after_pop none = sleeps
after_pop (some t) = works t

-- A step of a lane, or a table that is queued. Other steps of the coordinator leave the queue, the running
-- tables and the tokens as they are.
pub data Step : Pool → Pool → Type 0 where
  enqueues :
      {c : Coordinator} {ls : List Lane} (t : TableRef)
      → busy_locked t c ≡ false
      → Step (record { c = c; lanes = ls }) (record { c = enqueue_locked t c; lanes = ls })
  pops :
      {c : Coordinator} {ls ls' : List Lane}
      → At looks ls (after_pop (pop c).1) ls'
      → Step (record { c = c; lanes = ls }) (record { c = (pop c).0; lanes = ls' })
  wakes :
      {c : Coordinator} {ls ls' : List Lane} (n : ℕ)
      → c.wake ≡ suc n
      → At sleeps ls looks ls'
      → Step (record { c = c; lanes = ls }) (record { c = record c { wake = n }; lanes = ls' })
  ends :
      {c : Coordinator} {ls ls' : List Lane} (t : TableRef)
      → At (works t) ls looks ls'
      → Step (record { c = c; lanes = ls }) (record { c = delete_running t c; lanes = ls' })

abbrev pub replicate : ℕ → List Lane
replicate zero = []
replicate (suc n) = looks ∷ replicate n

-- A new coordinator with its lanes. Start queues the tables that it resumes before it starts the lanes.
unfoldable pub initial : Config → ℤ → ℤ → String → Pool
initial cfg chunk_size lanes instance_id =
    let c = new_coordinator cfg chunk_size lanes instance_id in
    record { c = c; lanes = replicate c.cfg.lanes }

pub data Reach (start : Pool) : Pool → Type 0 where
  begins : Reach start start
  next : {p q : Pool} → Reach start p → Step p q → Reach start q

unfoldable pub sleeping : List Lane → ℕ
sleeping [] = 0
sleeping (looks ∷ ls) = sleeping ls
sleeping (sleeps ∷ ls) = suc (sleeping ls)
sleeping (works t ∷ ls) = sleeping ls

unfoldable pub looking : List Lane → ℕ
looking [] = 0
looking (looks ∷ ls) = suc (looking ls)
looking (sleeps ∷ ls) = looking ls
looking (works t ∷ ls) = looking ls

-- the tables that the lanes work on
unfoldable pub worked : List Lane → List TableRef
worked [] = []
worked (looks ∷ ls) = worked ls
worked (sleeps ∷ ls) = worked ls
worked (works t ∷ ls) = t ∷ worked ls
