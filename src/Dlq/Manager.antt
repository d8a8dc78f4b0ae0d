-- ===== src/Dlq/Manager.antt =====
-- dlq/manager.go: the failure counts, parking, and the triage API. Metrics and logs are left out.
use Prim.Native.String.{◌++◌}
use text.Mathlib.TextLemmas.{append_cancel_left}
use gtc.Base.{
  ◌≡◌, ℕ, zero, suc, ◌+◌, String, Bool, List, [], ◌∷◌, Option, none, some, leb, ltb, if◌then◌else◌,
}
use gtc.Base.Int.{ℤ, pos, negsuc}
use gtc.Base.Dict
use gtc.Base.Dict.{Dict}
use gtc.Domain.Errors.{Error}
use gtc.Domain.Event.{CdcEvent, to_string}
use gtc.Domain.Sink.{Ctx, Sink, Runtime}
use gtc.Dlq.Store.{DeadLetterEntry, Store}

pub record FailureRecord : Type 0 where
  pub count : ℕ
  pub first : ℕ

-- The manager, with the mutex held by each access; `world` is all that lies outside of it.
pub record Manager (W : Type 0) : Type 0 where
  pub threshold : ℕ
  pub retry_timeout : ℕ
  pub failures : Dict FailureRecord
  pub sinks : Dict (Sink W)
  pub world : W

abbrev at_least_one : ℤ → ℕ → ℕ
at_least_one (pos zero) other = other
at_least_one (pos (suc n)) other = suc n
at_least_one (negsuc n) other = other

-- NewManager: 3 failures and 10 s (in nanoseconds) where the parameters are not positive
unfoldable pub new_manager : {W : Type 0} → ℤ → ℤ → W → Manager W
new_manager threshold retry_timeout w = record {
  threshold = at_least_one threshold 3;
  retry_timeout = at_least_one retry_timeout 10_000_000_000;
  failures = [];
  sinks = [];
  world = w;
}

unfoldable pub failure_key : String → String → String
failure_key sink_name event_id = sink_name ++ ":" ++ event_id

-- At one sink, distinct events have distinct keys.
pub failure_key-injective :
    (sink_name a b : String) → failure_key sink_name a ≡ failure_key sink_name b → a ≡ b
unfolding failure_key
failure_key-injective sink_name a b p =
    append_cancel_left ":" a b (append_cancel_left sink_name (":" ++ a) (":" ++ b) p)

-- rec := m.failures[key], the zero record if there is none
abbrev recorded : Option FailureRecord → FailureRecord
recorded none = record { count = 0; first = 0 }
recorded (some r) = r

clear_each : String → List CdcEvent → Dict FailureRecord → Dict FailureRecord
clear_each sink_name [] fs = fs
clear_each sink_name (e ∷ es) fs =
    clear_each sink_name es (Dict.remove (failure_key sink_name e.id) fs)

module _ {W : Type 0} where
  -- the registration of WrapSink
  unfoldable pub wrap_sink : Sink W → Manager W → Manager W
  wrap_sink inner m = record m { sinks = Dict.put inner.name inner m.sinks }

  clear_failure : String → String → Manager W → Manager W
  clear_failure sink_name event_id m = record m {
    failures = Dict.remove (failure_key sink_name event_id) m.failures;
  }

  -- the early return on an empty map is that of `remove` on an empty list
  unfoldable pub clear_failures : String → List CdcEvent → Manager W → Manager W
  unfolding clear_each
  clear_failures sink_name events m = record m { failures = clear_each sink_name events m.failures }

module _ {W : Type 0} (rt : Runtime W) where
  -- if rec.count == 0 { rec.first = time.Now().UTC() }
  stamped : ℕ → ℕ → W → W × ℕ
  stamped zero first w = rt.now w
  stamped (suc n) first w = (w, first)

  -- the new count, the time of the first failure, and whether the threshold is reached
  pub record_failure : String → String → Manager W → Manager W × ℕ × ℕ × Bool
  unfolding stamped failure_key
  record_failure sink_name event_id m =
      let key = failure_key sink_name event_id in
      let r = recorded (Dict.get key m.failures) in
      let (w, first) = stamped r.count r.first m.world in
      let r' : FailureRecord = record { count = r.count + 1; first = first } in
      (
        record m { failures = Dict.put key r' m.failures; world = w },
        r'.count,
        first,
        leb m.threshold r'.count,
      )

  unfoldable pub info_of : Option FailureRecord → W → W × ℕ × ℕ
  info_of none w = let (w', t) = rt.now w in (w', 1, t)
  info_of (some r) w =
      let (w', t) = rt.now w in if ltb 0 r.count then (w, r.count, r.first) else (w', 1, t)

  unfoldable pub failure_info : String → String → Manager W → Manager W × ℕ × ℕ
  unfolding info_of failure_key
  failure_info sink_name event_id m =
      let (w, attempts, first) =
        info_of (Dict.get (failure_key sink_name event_id) m.failures) m.world in
      (record m { world = w }, attempts, first)

  unfoldable pub entry_of : String → CdcEvent → Error → ℕ → ℕ → ℕ → DeadLetterEntry
  unfolding failure_key
  entry_of sink_name event cause attempts first_failed now = record {
    id = failure_key sink_name event.id;
    sink_name = sink_name;
    schema = event.schema;
    table = event.table;
    operation = to_string event.operation;
    lsn = event.metadata.lsn;
    error = rt.error_text cause;
    attempts = attempts;
    first_failed_at = first_failed;
    last_failed_at = now;
    event = event;
  }

module _ {W : Type 0} (rt : Runtime W) (store : Store W) where
  -- updateDepthGauge: the call of Len; the gauge is a metric
  pub update_depth_gauge : Ctx → Manager W → Manager W
  update_depth_gauge ctx m = record m { world = (store.len ctx m.world).0 }

  unfoldable pub parked :
      Ctx → String → String → Manager W → W × Option Error → Manager W × Option Error
  unfolding clear_failure update_depth_gauge
  parked ctx sink_name event_id m (w, none) =
      (update_depth_gauge ctx (clear_failure sink_name event_id (record m { world = w })), none)
  parked ctx sink_name event_id m (w, some e) = (record m { world = w }, some e)

  unfoldable pub park :
      Ctx → String → CdcEvent → Error → ℕ → ℕ → Manager W → Manager W × Option Error
  unfolding parked
  park ctx sink_name event cause attempts first_failed m =
      let (w, now) = rt.now m.world in
      parked ctx sink_name event.id m
        (store.park ctx (entry_of rt sink_name event cause attempts first_failed now) w)
