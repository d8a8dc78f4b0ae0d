-- ===== src/Tests/Triage.antt =====
-- dlq/manager.go, Retry and RetryAll, on a store that holds one entry.
use gtc.Base.{◌≡◌, refl, [], ◌∷◌, none}
use gtc.Base.Dict
use gtc.Domain.Sink.{root}
use gtc.Dlq.Store.{DeadLetterEntry, Store, got}
use gtc.Dlq.Manager.{Manager}
use gtc.Dlq.Triage.{retry, retry_all}
use gtc.Dlq.Triage.Delivered.{Delivered, Accounted, retry-Delivered, retry_all-counts}
use gtc.Tests.World.{World, sink, runtime, store, manager, event}

abbrev entry : DeadLetterEntry
entry = record {
  id = "search:1";
  sink_name = "search";
  schema = "public";
  table = "a";
  operation = "INSERT";
  lsn = "1";
  error = "error";
  attempts = 3;
  first_failed_at = 1;
  last_failed_at = 2;
  event = event "1" "a";
}

abbrev holding : Store World
holding = record store {
  get = λ ctx id w. (w, got entry);
  list = λ ctx n w. (w, got (entry ∷ entry ∷ []));
}

abbrev running : Manager World
running = record manager { sinks = ("search", sink) ∷ [] }

retried : (retry runtime holding root "search:1" running).1 ≡ none
unfolding retry Dict.get
retried = refl

retry-Delivered_example : Delivered runtime holding root "search:1" running
retry-Delivered_example = retry-Delivered runtime holding root "search:1" running retried

retry_all-counts_example :
    Accounted runtime holding root running (retry_all runtime holding root running)
retry_all-counts_example = retry_all-counts runtime holding root running
