-- ===== src/Backfill/Queue.antt =====
-- ports.BackfillManager of backfill/coordinator.go: the tables that wait for a lane. A call holds the mutex
-- twice, and `between` is what the other goroutines make of the coordinator meanwhile.
pub mod Exclusive
pub mod Resume
pub mod Lanes
pub mod Awake
pub mod Wakeup
pub mod Owned
use Prim.Native.String.{◌++◌ as ◌<>◌}
use gtc.Base.{
  ℕ, suc, ◌+◌, String, str_eq, Bool, true, false, not, ◌&&◌, ◌||◌, List, [], ◌∷◌, ◌++◌, map, Option,
  none, some, any, keep, ltb, if◌then◌else◌,
}
use gtc.Base.Dict
use gtc.Base.Dict.{Dict}
use gtc.Domain.Errors.{Error, message}
use gtc.Domain.Sink.{Ctx, root}
use gtc.Dlq.Store.{Answer, got, failed}
use gtc.Backfill.State.{
  TableRef, name_of, same_table, TableState, BackfillState, unset, pending, running, done, skipped,
  failed_state, BackfillTableStatus, Db, Config, Coordinator,
}

-- isExcluded
unfoldable pub is_excluded : TableRef → Config → Bool
unfolding name_of
is_excluded t cfg =
    any (str_eq (name_of t)) cfg.excluded_tables || any (str_eq t.table) cfg.excluded_tables

-- wanted
unfoldable pub wanted : TableRef → Config → Bool
wanted t cfg = elim cfg.wanted [ none ↦ true | some f ↦ f t.schema t.table ]

-- busyLocked
unfoldable pub busy_locked : TableRef → Coordinator → Bool
unfolding same_table
busy_locked t c = any (same_table t) c.running || any (same_table t) c.queue

-- signal: the channel holds a token for each lane at most
unfoldable pub signal : ℕ → ℕ → ℕ
signal capacity tokens = if ltb tokens capacity then suc tokens else tokens

abbrev pub is_running : Option BackfillTableStatus → Bool
is_running none = false
is_running (some s) = elim s.state [
  | unset ↦ false
  | pending ↦ false
  | running ↦ true
  | done ↦ false
  | skipped ↦ false
  | failed_state ↦ false
]

abbrev pub new_status : TableRef → BackfillState → BackfillTableStatus
new_status t s = record {
  schema = t.schema;
  table = t.table;
  state = s;
  rows_copied = 0;
  started_at = none;
  completed_at = none;
  error = "";
}

-- enqueueLocked
unfoldable pub enqueue_locked : TableRef → Coordinator → Coordinator
unfolding name_of signal
enqueue_locked t c = record c {
  queue = c.queue ++ (t ∷ []);
  status =
      if is_running (Dict.get (name_of t) c.status)
      then c.status
      else Dict.put (name_of t) (new_status t pending) c.status;
  wake = signal c.cfg.lanes c.wake;
}

unfoldable pub pop_first : List TableRef → Coordinator → Coordinator × Option TableRef
pop_first [] c = (c, none)
pop_first (t ∷ queue) c = (record c { queue = queue; running = t ∷ c.running }, some t)

-- pop
unfoldable pub pop : Coordinator → Coordinator × Option TableRef
unfolding pop_first
pop c = pop_first c.queue c

-- delete(c.running, ref)
unfoldable pub delete_running : TableRef → Coordinator → Coordinator
unfolding same_table
delete_running t c = record c { running = keep (λ u. not (same_table t u)) c.running }

-- the status that setStatus updates
abbrev pub status_or_new : TableRef → Option BackfillTableStatus → BackfillTableStatus
status_or_new t none = new_status t unset
status_or_new t (some s) = s

-- setStatus
unfoldable pub set_status :
    TableRef → (BackfillTableStatus → BackfillTableStatus) → Coordinator → Coordinator
unfolding name_of
set_status t update c = record c {
  status = Dict.put (name_of t) (update (status_or_new t (Dict.get (name_of t) c.status))) c.status;
}

-- Status
unfoldable pub all_status : Coordinator → List BackfillTableStatus
all_status c = map (λ (name, s). s) c.status

-- delete(c.state, ref.String()) and enqueueLocked
unfoldable pub replay_locked : TableRef → Coordinator → Coordinator
unfolding enqueue_locked name_of
replay_locked t c = enqueue_locked t (record c { state = Dict.remove (name_of t) c.state })

-- the loops of EnqueueAll and ReplayAll over the tables that they queue, with the number queued
unfoldable pub queue_one :
    (TableRef → Coordinator → Coordinator) → TableRef → Coordinator × ℕ → Coordinator × ℕ
unfolding busy_locked
queue_one queued t (c, n) = if busy_locked t c then (c, n) else (queued t c, suc n)

unfoldable pub queue_each :
    (TableRef → Coordinator → Coordinator) → List TableRef → Coordinator × ℕ → Coordinator × ℕ
unfolding queue_one
queue_each queued [] r = r
queue_each queued (t ∷ ts) r = queue_each queued ts (queue_one queued t r)

unfoldable pub ref_of : String × String → TableRef
ref_of (schema, table) = record { schema = schema; table = table }

-- ts.Done of the state of a table, if it has one
unfoldable pub is_done : Option TableState → Bool
is_done none = false
is_done (some ts) = ts.done

unfoldable pub replayable : Coordinator → TableRef → Bool
unfolding busy_locked is_excluded wanted
replayable c t = not (is_excluded t c.cfg || (not (wanted t c.cfg) || busy_locked t c))

unfoldable pub candidate : Coordinator → TableRef → Bool
unfolding replayable is_done name_of
candidate c t = replayable c t && not (is_done (Dict.get (name_of t) c.state))

module _ {W : Type 0} (db : Db W) (between : Coordinator → Coordinator) where
  unfoldable pub enqueue_unless_busy : TableRef → Coordinator → Coordinator × Option Error
  unfolding busy_locked replay_locked name_of
  enqueue_unless_busy t c =
      if busy_locked t c
      then (c, some (message ("backfill for " <> name_of t <> " is already running or queued")))
      else (replay_locked t c, none)

  -- EnqueueTable; an error of MarkPending is logged
  unfoldable pub enqueue_table : TableRef → Coordinator → W → W × Coordinator × Option Error
  unfolding is_excluded wanted busy_locked enqueue_unless_busy name_of
  enqueue_table t c w =
      if is_excluded t c.cfg
      then (w, c, some (message ("table " <> name_of t <> " is excluded from CDC")))
      else if not (wanted t c.cfg)
      then (
        w,
        c,
        some (message ("no sink consumes rows of " <> name_of t <> ", nothing to backfill")),
      )
      else if busy_locked t c
      then (w, c, some (message ("backfill for " <> name_of t <> " is already running or queued")))
      else (let (w₁, marked) = db.mark_pending root (name_of t ∷ []) w in
          let (c₁, err) = enqueue_unless_busy t (between c) in (w₁, c₁, err))

  after_listed :
      Ctx
      → (Coordinator → TableRef → Bool)
      → (TableRef → Coordinator → Coordinator)
      → Coordinator
      → W × Answer (List (String × String))
      → W × Coordinator × Answer ℕ
  unfolding queue_each ref_of name_of
  after_listed ctx chosen queued c (w, failed e) = (w, c, failed e)
  after_listed ctx chosen queued c (w, got tables) =
      let refs = keep (chosen c) (map ref_of tables) in
      let (w₁, marked) = db.mark_pending ctx (map name_of refs) w in
      let (c₁, n) = queue_each queued refs (between c, 0) in (w₁, c₁, got n)

  -- EnqueueAll, with the number that it logs
  unfoldable pub enqueue_all : Ctx → Coordinator → W → W × Coordinator × Answer ℕ
  unfolding after_listed candidate enqueue_locked
  enqueue_all ctx c w =
      after_listed ctx candidate enqueue_locked c
        (db.publication_tables ctx c.cfg.publication_name w)

  -- ReplayAll
  unfoldable pub replay_all : Ctx → Coordinator → W → W × Coordinator × Answer ℕ
  unfolding after_listed replayable replay_locked
  replay_all ctx c w =
      after_listed ctx replayable replay_locked c
        (db.publication_tables ctx c.cfg.publication_name w)
