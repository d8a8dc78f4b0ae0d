-- ===== src/Backfill/Chunks.antt =====
-- startChunk and emitWatermark of backfill/coordinator.go. The other goroutines run while the mutex is free:
-- `others` is what they make of the coordinator at each such point, in turn.
pub mod Window
pub mod Emission
use Prim.Native.String.{◌++◌ as ◌<>◌}
use gtc.Base.{
  ℕ, suc, ◌+◌, String, str_eq, Bool, true, false, not, List, [], ◌∷◌, Option, none, some, keep,
  length, if◌then◌else◌,
}
use gtc.Base.Dict
use gtc.Domain.Errors.{Error, wrap}
use gtc.Domain.Sink.{Ctx, Runtime}
use gtc.Dlq.Store.{Answer, got, failed}
use gtc.Backfill.State.{TableRef, name_of, Row, Chunk, Db, ChunkInFlight, Coordinator}
use gtc.Backfill.Controller.{WatermarkPayload, abandon}

-- fmt.Sprintf("%s-%s-%d", c.instance, ref.String(), c.chunkSeq)
unfoldable pub chunk_id : (ℕ → String) → String → TableRef → ℕ → String
unfolding name_of
chunk_id number_text instance_id table seq =
    instance_id <> "-" <> name_of table <> "-" <> number_text seq

-- the first locked section: a new chunk, which the map holds from now on
unfoldable pub register_chunk :
    (ℕ → String) → TableRef → List String → Coordinator → Coordinator × String
unfolding chunk_id
register_chunk number_text table pk_cols c =
    let id = chunk_id number_text c.instance_id table (suc c.chunk_seq) in
    (
      record c {
        chunk_seq = suc c.chunk_seq;
        inflight = id ∷ c.inflight;
        chunks =
            Dict.put id
              (record {
                table = table;
                collecting = false;
                seen = [];
                pending = [];
                pk_cols = pk_cols;
                row_count = 0;
                last_cursor = [];
                delivered = 0;
                completed = false;
                restart = c.restarts;
              })
              c.chunks;
      },
      id,
    )

-- the second locked section, on the chunk: an empty selection completes it at once
unfoldable pub selected :
    String → List Row → List String → Option ChunkInFlight → Coordinator → Coordinator
selected id rows cursor none c = c
selected id [] cursor (some ch) c = record c {
  inflight = keep (λ j. not (str_eq id j)) c.inflight;
  chunks =
      Dict.put id
        (record ch { pending = []; row_count = 0; last_cursor = cursor; completed = true })
        c.chunks;
}
selected id (row ∷ rows) cursor (some ch) c = record c {
  chunks =
      Dict.put id
        (record ch { pending = row ∷ rows; row_count = length (row ∷ rows); last_cursor = cursor })
        c.chunks;
}

unfoldable pub take_selection : String → List Row → List String → Coordinator → Coordinator
unfolding selected
take_selection id rows cursor c = selected id rows cursor (Dict.get id c.chunks) c

module _ {W : Type 0} (db : Db W) (print : WatermarkPayload → String)
    (others : ℕ → Coordinator → Coordinator) where
  emit_failed : String → W × Option Error → W × Option Error
  emit_failed mark (w, none) = (w, none)
  emit_failed mark (w, some e) = (w, some (wrap ("emit " <> mark <> " watermark: ") e))

  -- emitWatermark; json.Marshal of the payload does not fail
  pub emit_watermark : Ctx → String → String → Coordinator → W → W × Option Error
  unfolding emit_failed
  emit_watermark ctx id mark c w =
      emit_failed mark (
        db.emit_watermark ctx (print (record { slot = c.cfg.slot_name; chunk = id; mark = mark }))
          w)

  -- the end of startChunk, after the high watermark
  after_high : String → Coordinator → W × Option Error → W × Coordinator × Answer String
  after_high id c (w, none) = (w, c, got id)
  after_high id c (w, some e) = (w, abandon (id ∷ []) c, failed e)

  raise_high : Ctx → String → List Row → Coordinator → W → W × Coordinator × Answer String
  unfolding after_high emit_watermark
  raise_high ctx id [] c w = (w, c, got id)
  raise_high ctx id (row ∷ rows) c w = after_high id (others 2 c) (emit_watermark ctx id "high" c w)

  after_select : Ctx → String → Coordinator → W × Answer Chunk → W × Coordinator × Answer String
  unfolding raise_high take_selection
  after_select ctx id c (w, failed e) = (w, abandon (id ∷ []) c, failed e)
  after_select ctx id c (w, got chunk) =
      raise_high ctx id chunk.rows (take_selection id chunk.rows chunk.last_cursor c) w

  after_low :
      Ctx
      → TableRef
      → List String
      → List String
      → String
      → Coordinator
      → W × Option Error
      → W × Coordinator × Answer String
  unfolding after_select
  after_low ctx table pk_cols cursor id c (w, some e) = (w, abandon (id ∷ []) c, failed e)
  after_low ctx table pk_cols cursor id c (w, none) =
      after_select ctx id (others 1 c)
        (db.select_chunk ctx table.schema table.table pk_cols cursor c.cfg.chunk_size w)

  -- startChunk once waitForStream has returned: the id of the chunk in flight, or an error
  unfoldable pub start_chunk :
      (ℕ → String)
      → Ctx
      → TableRef
      → List String
      → List String
      → Coordinator
      → W
      → W × Coordinator × Answer String
  unfolding after_low register_chunk emit_watermark
  start_chunk number_text ctx table pk_cols cursor c w =
      let (c₁, id) = register_chunk number_text table pk_cols c in
      after_low ctx table pk_cols cursor id (others 0 c₁) (emit_watermark ctx id "low" c₁ w)

  -- waitForStream: the error of a context that is done while the stream is down. A round of the loop looks at
  -- `streaming`, and `downs` gives what each round finds the context to be.
  unfoldable pub wait_for_stream : List (Coordinator × Option Error) → Option (Option Error)
  wait_for_stream [] = none
  wait_for_stream ((c, done) ∷ rounds) =
      let rest = wait_for_stream rounds in
      if c.streaming then some none else elim done [ some e ↦ some (some e) | none ↦ rest ]
