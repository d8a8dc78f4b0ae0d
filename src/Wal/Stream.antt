-- ===== src/Wal/Stream.antt =====
-- streamLoop of wal/reader.go: the reading goroutine (batching, the queue, keepalives) and the
-- delivery goroutine, as steps that interleave in any order.
pub mod Flow
pub mod Chunks
pub mod Batching
pub mod Confirmed
use gtc.Base.{
  ℕ, zero, suc, ◌+◌, ◌-◌, ◌≤◌, ◌<◌, ◌≡◌, min, String, Bool, true, false, ◌&&◌, List, [], ◌∷◌, ◌++◌,
  Option, none, some, ltb, leb, ◌==◌, str_eq, length, take, drop, if◌then◌else◌,
}
use gtc.Domain.Event.{CdcEvent}
use gtc.Wal.Decoder.{DecodeResult, LogicalMessage}

-- The type delivery: `ack` 0 confirms nothing.
pub record Delivery : Type 0 where
  pub events : List CdcEvent
  pub ack : ℕ
  pub watermark : Option String

-- What a loop iteration reads of Config and of the defaults: MaxBatchEvents is 5000 where it is not
-- positive, BatchLinger 10 ms; `controller` says whether a backfill controller is set.
pub record Config : Type 0 where
  pub max_batch : ℕ
  pub linger : ℕ
  pub controller : Bool

abbrev watermark_prefix : String
watermark_prefix = "gtc-backfill"

abbrev delivery_queue_depth : ℕ
delivery_queue_depth = 2

-- The reading goroutine's variables.
pub record Open : Type 0 where
  pub batch : List CdcEvent
  pub flush_at : ℕ
  pub pending_ack : ℕ

flush_batch : List CdcEvent → Open → List Delivery × Open
flush_batch [] o = ([], o)
flush_batch (e ∷ es) o = (
  record { events = e ∷ es; ack = o.pending_ack; watermark = none } ∷ [],
  record { batch = []; flush_at = 0; pending_ack = 0 },
)

-- flush: the unit to enqueue, if any, and the variables after
pub flush : Open → List Delivery × Open
unfolding flush_batch
flush o = flush_batch o.batch o

-- if len(batch) == 0 { flushAt = time.Now().Add(linger) }
opened : ℕ → List CdcEvent → Open → Open
opened deadline [] o = record o { flush_at = deadline }
opened deadline (e ∷ es) o = o

-- one round of the loop over result.Events
pub add_event : Config → ℕ → CdcEvent → Open → List Delivery × Open
unfolding opened flush
add_event cfg now e o =
    let o' = opened (now + cfg.linger) o.batch o in
    let added = record o' { batch = o'.batch ++ e ∷ [] } in
    if leb cfg.max_batch (length added.batch) then flush added else ([], added)

pub add_events : Config → ℕ → List CdcEvent → Open → List Delivery × Open
unfolding add_event
add_events cfg now [] o = ([], o)
add_events cfg now (e ∷ es) o =
    let (units, o') = add_event cfg now e o in
    let (more, o'') = add_events cfg now es o' in (units ++ more, o'')

-- for start := 0; ; start += maxBatch, on the number of rounds left
unfoldable pub chunk_from : ℕ → ℕ → ℕ → String → List CdcEvent → List Delivery
chunk_from zero max_batch start content rows = []
chunk_from (suc rounds) max_batch start content rows =
    let stop = min (start + max_batch) (length rows) in
    let events = take (stop - start) (drop start rows) in
    let rest = chunk_from rounds max_batch (start + max_batch) content rows in
    if stop == length rows
    then record { events = events; ack = 0; watermark = some content } ∷ []
    else record { events = events; ack = 0; watermark = none } ∷ rest

-- the units that carry the rows of a chunk: enough rounds for any of them
unfoldable pub chunk_units : ℕ → String → List CdcEvent → List Delivery
unfolding chunk_from
chunk_units max_batch content rows = chunk_from (suc (length rows)) max_batch 0 content rows

-- msg != nil && msg.Prefix == WatermarkPrefix && r.config.Controller != nil
pub is_watermark : Config → LogicalMessage → Bool
is_watermark cfg msg = str_eq msg.prefix watermark_prefix && cfg.controller

-- The units of a watermark, whose chunk the controller answers with `rows`.
units_at : Config → Option LogicalMessage → List CdcEvent → Open → List Delivery × Open
unfolding is_watermark flush chunk_units
units_at cfg none rows o = ([], o)
units_at cfg (some msg) rows o =
    if is_watermark cfg msg
    then (let (units, o') = flush o in (units ++ chunk_units cfg.max_batch msg.content rows, o'))
    else ([], o)

-- if result.AckLSN > 0 && result.AckLSN > pendingAck { pendingAck = result.AckLSN }
pub raise_ack : ℕ → Open → Open
raise_ack ack o = if ltb o.pending_ack ack then record o { pending_ack = ack } else o

-- The part of an iteration that handles a decoded message: what it enqueues, in order.
pub receive : Config → ℕ → DecodeResult → List CdcEvent → Open → List Delivery × Open
unfolding add_events units_at raise_ack
receive cfg now result rows o =
    let (units, o') = add_events cfg now result.events o in
    let (more, o'') = units_at cfg result.message rows o' in
    (units ++ more, raise_ack result.ack_lsn o'')

-- The delivery goroutine: `settling` with a unit that its handler accepted and that it has still to subtract from
-- `outstanding`, `stopped` with the unit that its handler refused.
pub data Worker : Type 0 where
  idle : Worker
  busy : Delivery → Worker
  settling : Delivery → Worker
  stopped : Delivery → Worker

-- `outbox` holds the units that the current iteration has still to send to the channel `queue`;
-- `waiting` says that enqueue has counted the first of them in `outstanding` and not sent it yet; `reported`
-- is the last position sent to the server. The last three fields are the history: the events received and
-- chunk rows added, the positions that the decoder offered, each with the number of events received before
-- it, and the events that the handler accepted.
pub record State : Type 0 where
  pub vars : Open
  pub outbox : List Delivery
  pub waiting : Bool
  pub queue : List Delivery
  pub outstanding : ℕ
  pub worker : Worker
  pub client_lsn : ℕ
  pub reported : ℕ
  pub exited : Bool
  pub received : List CdcEvent
  pub offered : List (ℕ × ℕ)
  pub handled : List CdcEvent

-- streamLoop begins: `start` is the position that replication was started at
unfoldable pub init : ℕ → State
init start = record {
  vars = record { batch = []; flush_at = 0; pending_ack = 0 };
  outbox = [];
  waiting = false;
  queue = [];
  outstanding = 0;
  worker = idle;
  client_lsn = start;
  reported = 0;
  exited = false;
  received = [];
  offered = [];
  handled = [];
}

-- confirm
pub confirm : ℕ → State → State
confirm lsn s = if ltb s.client_lsn lsn then record s { client_lsn = lsn } else s

pub rows_of : Config → Option LogicalMessage → List CdcEvent → List CdcEvent
unfolding is_watermark
rows_of cfg none rows = []
rows_of cfg (some msg) rows = if is_watermark cfg msg then rows else []

unfoldable pub receives_at : Config → ℕ → DecodeResult → List CdcEvent → State → State
unfolding receive rows_of
receives_at cfg now result rows s =
    let (units, vars) = receive cfg now result rows s.vars in
    let received = s.received ++ (result.events ++ rows_of cfg result.message rows) in
    record s {
      vars = vars;
      outbox = units;
      received = received;
      offered = (result.ack_lsn, length received) ∷ s.offered;
    }

-- if pendingAck > 0 && len(batch) == 0 && outstanding.Load() == 0
confirm_idle : State → State
unfolding confirm
confirm_idle s =
    if ltb 0 s.vars.pending_ack && length s.vars.batch == 0 && s.outstanding == 0
    then (let t = confirm s.vars.pending_ack s in
        record t { vars = record s.vars { pending_ack = 0 } })
    else s

-- the top of an iteration: a due batch is flushed, or a position with no batch confirmed
unfoldable pub ticks_at : ℕ → State → State
unfolding flush confirm_idle
ticks_at now s =
    if ltb 0 (length s.vars.batch) && leb s.vars.flush_at now
    then (let (units, vars) = flush s.vars in record s { vars = vars; outbox = units })
    else confirm_idle s

-- the delivery goroutine after the handler accepted the unit, up to outstanding.Add(-1)
unfoldable pub delivered : Delivery → State → State
unfolding confirm
delivered d s =
    let t = record s { worker = settling d; handled = s.handled ++ d.events } in
    if ltb 0 d.ack then confirm d.ack t else t

-- One step of one of the two goroutines: enqueue is `counts`, the increment of `outstanding`, and then `sends`,
-- between which the other goroutine may step any number of times; in the same way the delivery goroutine
-- confirms a position in `delivers` and subtracts the unit in `settles`. The environment chooses the message,
-- the time, the rows that the controller answers with, when a delivery fails, and when the loop returns.
pub data Step (cfg : Config) : State → State → Type 0 where
  receives :
      (s : State) (now : ℕ) (result : DecodeResult) (rows : List CdcEvent)
      → s.exited ≡ false
      → s.outbox ≡ []
      → Step cfg s (receives_at cfg now result rows s)
  ticks : (s : State) (now : ℕ) → s.exited ≡ false → s.outbox ≡ [] → Step cfg s (ticks_at now s)
  counts :
      (s : State) (d : Delivery) (ds : List Delivery)
      → s.exited ≡ false
      → s.waiting ≡ false
      → s.outbox ≡ d ∷ ds
      → Step cfg s (record s { waiting = true; outstanding = s.outstanding + 1 })
  sends :
      (s : State) (d : Delivery) (ds : List Delivery)
      → s.exited ≡ false
      → s.waiting ≡ true
      → s.outbox ≡ d ∷ ds
      → length s.queue < delivery_queue_depth
      → Step cfg s (record s { outbox = ds; waiting = false; queue = s.queue ++ d ∷ [] })
  keepalive : (s : State) → s.exited ≡ false → Step cfg s (record s { reported = s.client_lsn })
  exits :
      (s : State)
      → s.exited ≡ false
      → Step cfg s (record s { exited = true; outbox = []; waiting = false })
  drops :
      (s : State) (d : Delivery) (ds : List Delivery)
      → s.exited ≡ true
      → s.queue ≡ d ∷ ds
      → Step cfg s (record s { queue = ds })
  takes :
      (s : State) (d : Delivery) (ds : List Delivery)
      → s.worker ≡ idle
      → s.queue ≡ d ∷ ds
      → Step cfg s (record s { queue = ds; worker = busy d })
  delivers : (s : State) (d : Delivery) → s.worker ≡ busy d → Step cfg s (delivered d s)
  settles :
      (s : State) (d : Delivery)
      → s.worker ≡ settling d
      → Step cfg s (record s { worker = idle; outstanding = s.outstanding - 1 })
  fails :
      (s : State) (d : Delivery)
      → s.worker ≡ busy d
      → 0 < length d.events
      → Step cfg s (record s { worker = stopped d })

-- What the two goroutines can reach from the start of the stream loop.
pub data Reach (cfg : Config) (start : ℕ) : State → Type 0 where
  begins : Reach cfg start (init start)
  next : {s t : State} → Reach cfg start s → Step cfg s t → Reach cfg start t
