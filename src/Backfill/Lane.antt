-- ===== src/Backfill/Lane.antt =====
-- lane and backfillTable of backfill/coordinator.go. The loop of backfillTable is a step relation: the
-- environment says what a select finds, when a chunk is delivered and when the stream restarts.
pub mod Window
pub mod Pages
use gtc.Base.{
  ℕ, zero, suc, ◌+◌, ◌<◌, ◌≡◌, ◌⊎◌, String, str_eq, Bool, true, false, not, List, [], ◌∷◌, ◌++◌,
  map, Option, none, some, length, ltb, if◌then◌else◌,
}
use gtc.Base.Dict
use gtc.Base.Dict.{Dict}
use gtc.Domain.Errors.{Error}
use gtc.Domain.Sink.{Ctx}
use gtc.Dlq.Store.{Answer, got, failed}
use gtc.Backfill.State.{
  TableRef, name_of, Row, Chunk, TableState, no_state, BackfillState, running, done, skipped,
  failed_state, BackfillTableStatus, Db, Config, Coordinator, pipeline_depth,
}
use gtc.Backfill.Controller.{abandon}
use gtc.Backfill.Queue.{set_status, delete_running}

-- What a call of backfillTable ends with: its error, or an index out of range.
pub data LoopEnd : Type 0 where
  returned : Option Error → LoopEnd
  panicked : LoopEnd

-- A chunk of the window: its id, and what its select found.
pub record Windowed : Type 0 where
  pub id : String
  pub chunk : Chunk

-- The variables of the loop, and in `sent` the rows of the chunks that it saw delivered.
pub record Loop (W : Type 0) : Type 0 where
  pub c : Coordinator
  pub w : W
  pub cursor : List String
  pub copied : ℕ
  pub window : List Windowed
  pub next : List String
  pub exhausted : Bool
  pub ended : Option LoopEnd
  pub sent : List Row

-- ch.rowCount < c.cfg.ChunkSize
abbrev pub short : Config → Chunk → Bool
short cfg chunk = ltb (length chunk.rows) cfg.chunk_size

-- The running status; the start of an earlier attempt is kept.
abbrev pub started_or : ℕ → Option ℕ → Option ℕ
started_or now none = some now
started_or now (some t) = some t

unfoldable pub as_running : ℕ → ℕ → BackfillTableStatus → BackfillTableStatus
as_running copied now s = record s {
  state = running;
  rows_copied = copied;
  error = "";
  started_at = started_or now s.started_at;
}

unfoldable pub as_done : ℕ → ℕ → BackfillTableStatus → BackfillTableStatus
as_done copied at s = record s {
  state = done;
  rows_copied = copied;
  completed_at = some at;
  error = "";
}

unfoldable pub as_skipped : BackfillTableStatus → BackfillTableStatus
as_skipped s = record s { state = skipped; error = "no primary key" }

unfoldable pub as_failed : String → BackfillTableStatus → BackfillTableStatus
as_failed text s = record s { state = failed_state; error = text }

abbrev pub state_or_none : Option TableState → TableState
state_or_none none = no_state
state_or_none (some ts) = ts

abbrev pub copied_before : TableState → ℕ
copied_before ts = elim ts.cursor [ [] ↦ 0 | c ∷ cs ↦ ts.rows_copied ]

-- the end of a round of lane: the error is logged and kept unless the lane's context is done
unfoldable pub after_table :
    TableRef → (Error → String) → Option Error → Option Error → Coordinator → Coordinator
unfolding delete_running set_status as_failed
after_table t text ctx_err none c = delete_running t c
after_table t text (some done_) (some e) c = delete_running t c
after_table t text none (some e) c = set_status t (as_failed (text e)) (delete_running t c)

module _ {W : Type 0} (t : TableRef) where
  -- the window is abandoned when backfillTable returns
  unfoldable pub stop : Option Error → Loop W → Loop W
  unfolding abandon
  stop e s = record s { c = abandon (map (λ x. x.id) s.window) s.c; ended = some (returned e) }

  -- window = append(window, ch), and what follows
  unfoldable pub add_chunk : Windowed → Loop W → Loop W
  add_chunk x s = record s {
    window = s.window ++ (x ∷ []);
    next = x.chunk.last_cursor;
    exhausted = if short s.c.cfg x.chunk then true else s.exhausted;
  }

  -- the case <-head.restart
  unfoldable pub restart_window : Loop W → Loop W
  unfolding abandon
  restart_window s = record s {
    c = abandon (map (λ x. x.id) s.window) s.c;
    window = [];
    next = s.cursor;
    exhausted = false;
  }

  module _ (db : Db W) (ctx : Ctx) (now : ℕ) where
    -- c.state[ref.String()] = ts, and SaveState, whose error is logged
    unfoldable pub save : TableState → Coordinator → W → W × Coordinator
    unfolding name_of
    save ts c w = (
      (db.save_state ctx (name_of t) ts w).0,
      record c { state = Dict.put (name_of t) ts c.state },
    )

    -- the last chunk of the table was delivered
    unfoldable pub finished : ℕ → List Windowed → List Row → Loop W → Loop W
    unfolding save set_status as_done stop
    finished copied rest sent s =
        let (w, c) =
          save (record { cursor = []; done = true; rows_copied = copied; updated_at = 0 }) s.c
            s.w in
        stop none (record s {
          c = set_status t (as_done copied now) c;
          w = w;
          copied = copied;
          window = rest;
          sent = sent;
        })

    -- a chunk was delivered that is not the last
    unfoldable pub advanced : ℕ → List String → List Windowed → List Row → Loop W → Loop W
    unfolding save set_status
    advanced copied cursor rest sent s =
        let (w, c) =
          save (record { cursor = cursor; done = false; rows_copied = copied; updated_at = 0 }) s.c
            s.w in
        record s {
          c = set_status t (λ x. record x { rows_copied = copied }) c;
          w = w;
          cursor = cursor;
          copied = copied;
          window = rest;
          sent = sent;
        }

    -- the case <-head.done; `delivered` is the number in the chunk
    unfoldable pub head_done : Windowed → List Windowed → ℕ → Loop W → Loop W
    unfolding finished advanced
    head_done head rest delivered s =
        if short s.c.cfg head.chunk
        then finished (s.copied + delivered) rest (s.sent ++ head.chunk.rows) s
        else advanced (s.copied + delivered) head.chunk.last_cursor rest (s.sent ++ head.chunk.rows)
            s

    unfoldable pub begin_loop : Coordinator → W → Loop W
    unfolding set_status as_running name_of
    begin_loop c w =
        let prev = state_or_none (Dict.get (name_of t) c.state) in
        record {
          c = set_status t (as_running (copied_before prev) now) c;
          w = w;
          cursor = prev.cursor;
          copied = copied_before prev;
          window = [];
          next = prev.cursor;
          exhausted = false;
          ended = none;
          sent = [];
        }

    end_early : Option Error → Coordinator → W → Loop W
    unfolding begin_loop
    end_early e c w = record {
      c = c;
      w = w;
      cursor = [];
      copied = 0;
      window = [];
      next = [];
      exhausted = false;
      ended = some (returned e);
      sent = [];
    }

    -- the state that LoadTableState finds is the truth; its error is logged
    reloaded : Coordinator → W × Answer (Option TableState) → Loop W
    unfolding begin_loop end_early set_status as_done name_of
    reloaded c (w, failed e) = begin_loop c w
    reloaded c (w, got none) = begin_loop (record c { state = Dict.remove (name_of t) c.state }) w
    reloaded c (w, got (some ts)) =
        let c₁ = record c { state = Dict.put (name_of t) ts c.state } in
        if ts.done
        then end_early none (set_status t (as_done ts.rows_copied ts.updated_at) c₁) w
        else begin_loop c₁ w

    with_key : Coordinator → W × Answer (List String) → Loop W
    unfolding reloaded end_early set_status as_skipped name_of
    with_key c (w, failed e) = end_early (some e) c w
    with_key c (w, got []) = end_early none (set_status t as_skipped c) w
    with_key c (w, got (col ∷ cols)) = reloaded c (db.load_table_state ctx (name_of t) w)

    -- backfillTable up to its loop
    unfoldable pub prepare : Coordinator → W → Loop W
    unfolding with_key
    prepare c w = with_key c (db.primary_key ctx t.schema t.table w)

    -- for !exhausted && len(window) < pipelineDepth, negated
    abbrev pub Full : Loop W → Type 0
    Full s = (s.exhausted ≡ true) ⊎ (ltb (length s.window) pipeline_depth ≡ false)

    -- The steps of the loop. `finds` says what a select at a cursor may answer.
    pub data Step (finds : List String → Chunk → Type 0) : Loop W → Loop W → Type 0 where
      fills :
          (s : Loop W) (x : Windowed)
          → s.ended ≡ none
          → s.exhausted ≡ false
          → length s.window < pipeline_depth
          → finds s.next x.chunk
          → Step finds s (add_chunk x s)
      fails :
          (s : Loop W) (e : Error)
          → s.ended ≡ none
          → s.exhausted ≡ false
          → length s.window < pipeline_depth
          → Step finds s (stop (some e) s)
      out_of_range :
          (s : Loop W)
          → s.ended ≡ none
          → Full s
          → s.window ≡ []
          → Step finds s (record s { ended = some panicked })
      cancels : (s : Loop W) (e : Error) → s.ended ≡ none → Step finds s (stop (some e) s)
      restarts :
          (s : Loop W) (head : Windowed) (rest : List Windowed)
          → s.ended ≡ none
          → Full s
          → s.window ≡ head ∷ rest
          → Step finds s (restart_window s)
      completes :
          (s : Loop W) (head : Windowed) (rest : List Windowed) (delivered : ℕ)
          → s.ended ≡ none
          → Full s
          → s.window ≡ head ∷ rest
          → Step finds s (head_done head rest delivered s)
      -- the other goroutines; the configuration is never written
      interferes :
          (s : Loop W) (c : Coordinator) (w : W)
          → c.cfg ≡ s.c.cfg
          → Step finds s (record s { c = c; w = w })

    pub data Reach (finds : List String → Chunk → Type 0) (start : Loop W) : Loop W → Type 0 where
      begins : Reach finds start start
      next_step : {s r : Loop W} → Reach finds start s → Step finds s r → Reach finds start r
