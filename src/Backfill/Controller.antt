-- ===== src/Backfill/Controller.antt =====
-- ports.BackfillController of backfill/coordinator.go: what the stream's goroutine calls. Each method runs
-- under the mutex. `parse` is json.Unmarshal of a watermarkPayload, and the text of a value is that of %v.
pub mod Touched
pub mod Observed
use Prim.Native.String.{◌++◌ as ◌<>◌}
use gtc.Base.{
  ℕ, suc, ◌+◌, String, str_eq, Bool, true, false, not, ◌&&◌, ◌||◌, List, [], ◌∷◌, map, Option, none,
  some, any, keep, length, if◌then◌else◌,
}
use gtc.Base.Dict
use gtc.Base.Dict.{Dict}
use gtc.Domain.Event.{
  CdcEvent, Operation, insert, update, delete, truncate, read, other, Value, null, str, boxed,
}
use gtc.Backfill.State.{TableRef, Row, ChunkInFlight, Coordinator}

-- watermarkPayload
pub record WatermarkPayload : Type 0 where
  pub slot : String
  pub chunk : String
  pub mark : String

-- fmt.Sprintf("%v", val)
abbrev pub text_of : Value → String
text_of null = "<nil>"
text_of (str s) = s
text_of (boxed type text) = text

with_part : Option Value → Option (List String) → Option (List String)
with_part none ps = none
with_part (some v) none = none
with_part (some v) (some ps) = some (text_of v ∷ ps)

parts : Dict Value → List String → Option (List String)
unfolding with_part
parts m [] = some []
parts m (c ∷ cs) = with_part (Dict.get c m) (parts m cs)

-- the loop that appends the further parts
joined : String → List String → String
joined key [] = key
joined key (p ∷ ps) = joined (key <> "\u{1f}" <> p) ps

key_of_parts : Option (List String) → Option String
unfolding joined
key_of_parts none = none
key_of_parts (some []) = none
key_of_parts (some (p ∷ ps)) = some (joined p ps)

-- pkKeyFromData; the primary key has a column, or backfillTable skips the table
pub pk_key_from_data : Dict Value → List String → Option String
unfolding parts key_of_parts
pk_key_from_data m pk_cols = key_of_parts (parts m pk_cols)

key_of_row : Option (Dict Value) → List String → Option String
unfolding pk_key_from_data
key_of_row none pk_cols = none
key_of_row (some m) pk_cols = pk_key_from_data m pk_cols

-- the row that an event is looked up by: the old one of a delete, the new one of any other operation
abbrev pub observed_row : Operation → CdcEvent → Option (Dict Value)
observed_row delete e = e.old_data
observed_row insert e = e.new_data
observed_row update e = e.new_data
observed_row truncate e = e.new_data
observed_row read e = e.new_data
observed_row (other n) e = e.new_data

-- the key that ObserveEvent finds for an event, `none` where it returns
unfoldable pub observed_key : CdcEvent → List String → Option String
unfolding key_of_row
observed_key e pk_cols = key_of_row (observed_row e.operation e) pk_cols

-- !ch.collecting || event.Schema != ch.table.Schema || event.Table != ch.table.Table, negated
unfoldable pub concerns : CdcEvent → ChunkInFlight → Bool
concerns e ch = ch.collecting && (str_eq e.schema ch.table.schema && str_eq e.table ch.table.table)

-- `key`, once it is known
abbrev pub known_or : Option String → Option String → Option String
known_or none found = found
known_or (some k) found = some k

-- the loop of ObserveEvent over the ids of the map, in one of its orders, with the key once it is known
unfoldable pub observe_each :
    CdcEvent → Option String → List String → Dict ChunkInFlight → Dict ChunkInFlight
observe_each e key [] chunks = chunks
observe_each e key (id ∷ ids) chunks =
    let skipped = observe_each e key ids chunks in
    elim (Dict.get id chunks) [
      | none ↦ skipped
      | some ch ↦
          if not (concerns e ch) then skipped else elim (known_or key (observed_key e ch.pk_cols)) [
            | none ↦ chunks
            | some k ↦
                observe_each e (some k) ids (Dict.put id (record ch { seen = k ∷ ch.seen }) chunks)
          ]
    ]

-- ObserveEvent
unfoldable pub observe_event : CdcEvent → Coordinator → Coordinator
unfolding observe_each
observe_event e c = record c { chunks = observe_each e none c.inflight c.chunks }

-- _, superseded := ch.seen[row.Key]
unfoldable pub superseded : ChunkInFlight → Row → Bool
superseded ch row = any (str_eq row.key) ch.seen

unfoldable pub read_event : String → ℕ → String → TableRef → Row → CdcEvent
read_event lsn now id table row = record {
  id = "bf:" <> id <> ":" <> row.key;
  operation = read;
  schema = table.schema;
  table = table.table;
  old_data = none;
  new_data = some row.values;
  unchanged_toast_columns = [];
  metadata = record { lsn = lsn; transaction_id = 0; timestamp = now };
}

-- the events of the high watermark
unfoldable pub chunk_events : String → ℕ → String → ChunkInFlight → List CdcEvent
unfolding superseded read_event
chunk_events lsn now id ch =
    map (read_event lsn now id ch.table) (keep (λ row. not (superseded ch row)) ch.pending)

unfoldable pub put_chunk : String → ChunkInFlight → Coordinator → Coordinator
put_chunk id ch c = record c { chunks = Dict.put id ch c.chunks }

-- ch := c.inflight[id]
unfoldable pub in_flight : String → Coordinator → Option ChunkInFlight
in_flight id c = if any (str_eq id) c.inflight then Dict.get id c.chunks else none

-- the switch of HandleWatermark
unfoldable pub marked :
    String → ℕ → String → String → Option ChunkInFlight → Coordinator → Coordinator × List CdcEvent
unfolding put_chunk chunk_events
marked lsn now mark id none c = (c, [])
marked lsn now mark id (some ch) c =
    if str_eq mark "low"
    then (put_chunk id (record ch { collecting = true }) c, [])
    else if str_eq mark "high"
    then (
      (let events = chunk_events lsn now id ch in
          put_chunk id (record ch { collecting = false; delivered = length events; pending = [] })
            c),
      chunk_events lsn now id ch,
    )
    else (c, [])

-- HandleWatermark, on the parsed payload
unfoldable pub handle_watermark :
    String → ℕ → Option WatermarkPayload → Coordinator → Coordinator × List CdcEvent
unfolding marked in_flight
handle_watermark lsn now none c = (c, [])
handle_watermark lsn now (some p) c =
    if str_eq p.slot c.cfg.slot_name
    then marked lsn now p.mark p.chunk (in_flight p.chunk c) c
    else (c, [])

unfoldable pub completes : String → Option ChunkInFlight → Coordinator → Coordinator
completes id none c = c
completes id (some ch) c = record c {
  inflight = keep (λ j. not (str_eq id j)) c.inflight;
  chunks = Dict.put id (record ch { completed = true }) c.chunks;
}

-- WatermarkDelivered
unfoldable pub watermark_delivered : Option WatermarkPayload → Coordinator → Coordinator
unfolding completes in_flight
watermark_delivered none c = c
watermark_delivered (some p) c =
    if str_eq p.mark "high" then completes p.chunk (in_flight p.chunk c) c else c

-- restartLocked
unfoldable pub restart_locked : Coordinator → Coordinator
restart_locked c = record c { inflight = []; restarts = suc c.restarts }

unfoldable pub restart_if_busy : List String → Coordinator → Coordinator
unfolding restart_locked
restart_if_busy [] c = c
restart_if_busy (id ∷ ids) c = restart_locked c

-- OnStreamStart and OnStreamStop
unfoldable pub on_stream_start : Coordinator → Coordinator
unfolding restart_if_busy
on_stream_start c = restart_if_busy c.inflight (record c { streaming = true })

unfoldable pub on_stream_stop : Coordinator → Coordinator
unfolding restart_if_busy
on_stream_stop c = restart_if_busy c.inflight (record c { streaming = false })

-- abandon
unfoldable pub abandon : List String → Coordinator → Coordinator
abandon ids c = record c { inflight = keep (λ j. not (any (λ id. str_eq id j) ids)) c.inflight }
