-- ===== src/Tests/World.antt =====
-- A small world for the tests: a destination that rejects rows of one table, and a store in memory.
use gtc.Base.{
  ℕ, suc, String, Bool, false, List, [], ◌∷◌, ◌++◌, Option, none, some, any, str_eq, length,
  if◌then◌else◌,
}
use gtc.Base.Int.{ℤ}
use gtc.Domain.Errors.{Error, message, permanent}
use gtc.Domain.Event.{CdcEvent, insert}
use gtc.Domain.Sink.{Sink, Runtime}
use gtc.Dlq.Store.{Store, DeadLetterEntry, got, failed}
use gtc.Dlq.Manager.{Manager}

pub record World : Type 0 where
  pub applied : List CdcEvent
  pub held : List DeadLetterEntry
  pub calls : ℕ

abbrev pub event : String → String → CdcEvent
event id table = record {
  id = id;
  operation = insert;
  schema = "public";
  table = table;
  old_data = none;
  new_data = some [];
  unchanged_toast_columns = [];
  metadata = record { lsn = id; transaction_id = 7; timestamp = 100 };
}

abbrev pub is_poison : CdcEvent → Bool
is_poison e = str_eq e.table "bad"

abbrev pub rejected : Error
rejected = permanent (message "rejected")

abbrev pub process : List CdcEvent → World → World × Option Error
process es w =
    if any is_poison es
    then (record w { calls = suc w.calls }, some rejected)
    else (record w { applied = w.applied ++ es; calls = suc w.calls }, none)

abbrev pub sink_of : Option ℤ → Sink World
sink_of limit = record {
  name = "search";
  initialize = λ ctx w. (w, none);
  process = λ ctx es w. process es w;
  shutdown = λ ctx w. (w, none);
  health_check = λ ctx w. (w, none);
  batch_limiter = limit;
  router = none;
}

abbrev pub sink : Sink World
sink = sink_of none

abbrev pub runtime : Runtime World
runtime = record {
  now = λ w. (w, 5);
  ctx_err = λ ctx w. none;
  sleep = λ ctx d w. (w, false);
  error_text = λ e. "error";
}

abbrev pub store : Store World
store = record {
  park = λ ctx x w. (record w { held = w.held ++ x ∷ [] }, none);
  get = λ ctx id w. (w, failed rejected);
  list = λ ctx n w. (w, got w.held);
  remove = λ ctx id w. (w, none);
  len = λ ctx w. (w, got (length w.held));
}

abbrev pub empty : World
empty = record { applied = []; held = []; calls = 0 }

abbrev pub manager : Manager World
manager = record { threshold = 3; retry_timeout = 10; failures = []; sinks = []; world = empty }

-- Five events, of which the second is poison.
abbrev pub batch : List CdcEvent
batch = event "1" "a" ∷ event "2" "bad" ∷ event "3" "a" ∷ event "4" "b" ∷ event "5" "b" ∷ []
