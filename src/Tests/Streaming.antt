-- ===== src/Tests/Streaming.antt =====
-- wal/reader.go, streamLoop: one row, its commit, the flush, the delivery and the status update.
use gtc.Base.{◌+◌, ◌≡◌, refl, [], ◌∷◌, ◌++◌, true, false, none, length, arith}
use gtc.Wal.Decoder.{DecodeResult}
use gtc.Wal.Stream.{
  chunk_units, chunk_from, Config, State, Delivery, Reach, busy, begins, next, init, receives,
  ticks, counts, sends, takes, delivers, keepalive, receives_at, ticks_at, delivered,
}
use gtc.Wal.Stream.Flow.{flow}
use gtc.Wal.Stream.Chunks.{CarriesChunk, chunk_units_lem}
use gtc.Wal.Stream.Confirmed.{Covered, pipeline, held_by, counted_ahead}
use gtc.Wal.Stream.Confirmed.AtLeastOnce.{reported-Covered, Reach-order}
use gtc.Tests.World.{event, batch}

abbrev cfg : Config
cfg = record { max_batch = 2; linger = 10; controller = false }

abbrev nothing : DecodeResult
nothing = record {
  events = [];
  schema_changes = [];
  message = none;
  ack_lsn = 0;
  server_wal_end = 0;
  request_reply = false;
}

abbrev row : DecodeResult
row = record nothing { events = event "1" "a" ∷ [] }

abbrev commit : DecodeResult
commit = record nothing { ack_lsn = 40 }

abbrev rest : State
rest = init 7

abbrev with_row : State
with_row = receives_at cfg 100 row [] rest

abbrev committed : State
committed = receives_at cfg 101 commit [] with_row

abbrev flushed : State
flushed = ticks_at 120 committed

abbrev unit : Delivery
unit = record { events = event "1" "a" ∷ []; ack = 40; watermark = none }

abbrev counted : State
counted = record flushed { waiting = true; outstanding = flushed.outstanding + 1 }

abbrev queued : State
queued = record counted { outbox = []; waiting = false; queue = counted.queue ++ unit ∷ [] }

abbrev taken : State
taken = record queued { queue = []; worker = busy unit }

abbrev done : State
done = delivered unit taken

abbrev reported : State
reported = record done { reported = done.client_lsn }

Reach-counted : Reach cfg 7 counted
unfolding receives_at ticks_at init
Reach-counted =
    next
      (next
        (next (next begins (receives rest 100 row [] refl refl))
          (receives with_row 101 commit [] refl refl))
        (ticks committed 120 refl refl))
      (counts flushed unit [] refl refl refl)

Reach-queued : Reach cfg 7 queued
unfolding receives_at ticks_at init
Reach-queued = next Reach-counted (sends counted unit [] refl refl refl (omega arith))

Reach-reported : Reach cfg 7 reported
unfolding receives_at ticks_at init delivered
Reach-reported =
    next (next (next Reach-queued (takes queued unit [] refl refl)) (delivers taken unit refl))
      (keepalive done refl)

-- The commit position is sent once its row is handled.
reported_lsn : reported.reported ≡ 40
unfolding receives_at ticks_at init delivered
reported_lsn = refl

reported-Covered_example : Covered 7 reported reported.reported
reported-Covered_example = reported-Covered cfg 7 (omega arith) Reach-reported

Reach-order_example :
    (counted.received ≡ counted.handled ++ (flow (pipeline counted) ++ counted.vars.batch))
    × (counted.outstanding
        ≡ held_by counted.worker + length counted.queue + counted_ahead counted.waiting)
    × (counted.outbox ≡ [] → counted.waiting ≡ false)
unfolding receives_at ticks_at init
Reach-order_example = Reach-order cfg 7 (omega arith) Reach-counted refl

one_ahead : counted.outstanding ≡ 1
unfolding receives_at ticks_at init
one_ahead = refl

-- Five rows in units of at most two: three units.
chunk_in_three : length (chunk_units 2 "chunk" batch) ≡ 3
unfolding chunk_units chunk_from
chunk_in_three = refl

chunk_units_lem_example :
    (flow (chunk_units 2 "chunk" batch) ≡ batch)
    × CarriesChunk 2 "chunk" (chunk_units 2 "chunk" batch)
chunk_units_lem_example = chunk_units_lem 2 "chunk" batch (omega arith)
