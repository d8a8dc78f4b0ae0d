-- ===== src/Services/Batch.antt =====
-- internal/core/services/cdc_service.go: admit, ProcessBatch, processSink and handleBatch, which fan a
-- batch out to the registered sinks. With ParallelSinks each sink has a goroutine: `order` is the order in
-- which the deliveries run, the indexes of the sinks in All(). Without it, they run in the order 0, 1, 2.
-- The metrics and the log are left out.
pub mod Accepted
pub mod Refused
use Prim.Native.String.{◌++◌ as ◌<>◌}
use gtc.Base.{
  ℕ, zero, suc, ◌+◌, String, str_eq, Bool, true, false, ◌&&◌, ◌||◌, ltb, List, [], ◌∷◌, ◌++◌, map,
  Option, none, some, is_none, length, any, keep, not, if◌then◌else◌,
}
use gtc.Domain.Errors.{
  Error, wrap, wrap_all, is, is_permanent, sentinel, cons, nil, message, join, from_list,
  shutting_down, sink_process_failed, circuit_open, deadline_exceeded, canceled,
}
use gtc.Domain.Event.{CdcEvent}
use gtc.Domain.Sink.{Sink, Ctx, SinkResult}
use gtc.Services.Deliver.{deliver}

pub record CdcServiceConfig : Type 0 where
  pub parallel_sinks : Bool
  pub excluded_tables : List String

-- isTableExcluded: the table's name alone, or with its schema
is_table_excluded : CdcServiceConfig → String → String → Bool
is_table_excluded cfg schema table =
    any (str_eq table) cfg.excluded_tables
    || any (str_eq (schema <> "." <> table)) cfg.excluded_tables

-- admit
pub admit : CdcServiceConfig → List CdcEvent → List CdcEvent
unfolding is_table_excluded
admit cfg events = keep (λ e. not (is_table_excluded cfg e.schema e.table)) events

pub at : {A : Type 0} → ℕ → List A → Option A
at n [] = none
at zero (x ∷ xs) = some x
at (suc n) (x ∷ xs) = at n xs

-- xs[n] = x
unfoldable pub put_at : {A : Type 0} → ℕ → A → List A → List A
put_at n x [] = []
put_at zero x (y ∷ ys) = x ∷ ys
put_at (suc n) x (y ∷ ys) = y ∷ put_at n x ys

-- 0, 1, ..., from `start`
pub indexes : {A : Type 0} → ℕ → List A → List ℕ
indexes start [] = []
indexes start (x ∷ xs) = start ∷ indexes (suc start) xs

-- The zero value, which make fills the results with
abbrev pub no_result : SinkResult
no_result = record { sink_name = ""; success = false; error = none }

-- classifyError
unfoldable pub classify_error : Error → String
classify_error e =
    if is e circuit_open
    then "circuit_open"
    else if is_permanent e
    then "permanent"
    else if is e deadline_exceeded
    then "timeout"
    else if is e canceled
    then "canceled"
    else "other"

-- fmt.Errorf("sink %s: %w", r.SinkName, r.Error) of a result that is not a success;
-- one without an error, which no delivery leaves, would make the log line before it panic
unfoldable pub sink_error : SinkResult → Error
sink_error r = elim r.error [
  | none ↦ message ("sink " <> r.sink_name <> ": nil")
  | some e ↦ wrap ("sink " <> r.sink_name <> ": ") e
]

pub errors_of : List SinkResult → List Error
errors_of [] = []
errors_of (r ∷ rs) = if r.success then errors_of rs else sink_error r ∷ errors_of rs

pub outcome_of : List Error → Option Error
outcome_of [] = none
outcome_of (e ∷ es) = some (
    wrap_all "sink processing failed: "
      (cons (sentinel sink_process_failed) (cons (join (from_list (e ∷ es))) nil)))

module _ {W : Type 0} (ctx : Ctx) where
  -- processSink
  pub result_of : Sink W → W × Option Error → W × SinkResult
  result_of s (w, err) = (w, record { sink_name = s.name; success = is_none err; error = err })

  unfoldable pub process_sink : Sink W → List CdcEvent → W → W × SinkResult
  unfolding result_of
  process_sink s events w = result_of s (deliver s ctx events w)

  -- results[i] = s.processSink(ctx, sink, events), for one index
  pub fill : Option (Sink W) → ℕ → List CdcEvent → W × List SinkResult → W × List SinkResult
  fill none i events (w, results) = (w, results)
  fill (some s) i events (w, results) =
      let (v, r) = process_sink s events w in (v, put_at i r results)

  pub fill_all : List (Sink W) → List ℕ → List CdcEvent → W × List SinkResult → W × List SinkResult
  unfolding at fill
  fill_all sinks [] events r = r
  fill_all sinks (i ∷ is) events r = fill_all sinks is events (fill (at i sinks) i events r)

  -- ProcessBatch
  pub process_batch :
      CdcServiceConfig → List (Sink W) → List ℕ → List CdcEvent → W → W × List SinkResult
  unfolding fill_all indexes
  process_batch cfg sinks order events w =
      fill_all sinks (if cfg.parallel_sinks && ltb 1 (length sinks) then order else indexes 0 sinks)
        events (w, map (λ s. no_result) sinks)

  pub answer : W × List SinkResult → W × Option Error
  unfolding outcome_of errors_of
  answer (w, results) = (w, outcome_of (errors_of results))

  pub handle_admitted :
      CdcServiceConfig → List (Sink W) → List ℕ → List CdcEvent → W → W × Option Error
  unfolding answer process_batch
  handle_admitted cfg sinks order [] w = (w, none)
  handle_admitted cfg sinks order (e ∷ es) w = answer (process_batch cfg sinks order (e ∷ es) w)

  -- handleBatch; `stopping` says that Stop has closed the shutdown channel
  unfoldable pub handle_batch :
      CdcServiceConfig → List (Sink W) → List ℕ → Bool → List CdcEvent → W → W × Option Error
  unfolding handle_admitted admit
  handle_batch cfg sinks order stopping events w =
      if stopping
      then (w, some (sentinel shutting_down))
      else handle_admitted cfg sinks order (admit cfg events) w
