-- ===== src/Tests/Values.antt =====
-- The small operations of the components, on concrete values.
use gtc.Base.{◌⊎◌, ℕ, ◌≡◌, refl, true, false, [], ◌∷◌, none, some, length}
use gtc.Base.Int.{pos, negsuc}
use gtc.Base.Dict
use gtc.Domain.Errors.{
  sentinel, message, permanent, wrap, as_permanent, is, same, is_permanent, open_state,
  deadline_exceeded, join_list,
}
use gtc.Domain.Event.{other, insert, update, to_string, of_string, full_table_name}
use gtc.Domain.Schema.{SchemaChange, column_added, breaking, summary}
use gtc.Domain.Sink.{root, wants}
use gtc.Dlq.Store.{got}
use gtc.Dlq.Manager.{new_manager, wrap_sink}
use gtc.Dlq.Triage.{discard, list, len}
use gtc.Resilience.{default_resilience_config, ready_to_trip, is_successful, CircuitBreaker}
use gtc.Resilience as Resilience
use gtc.Services.Batch.{classify_error}
use gtc.Services.Registry.{
  new_registry, register, lookup, all, initialize_all, shutdown_all, health_check_all,
}
use gtc.Transform.Chain.{CompiledSpec, rejects_all, apply, bool}
use gtc.Transform.Decorator.{Transforms, wants_through}
use gtc.Transform.Decorator as Decorator
use gtc.Wal.Decoder.{new_decoder}
use gtc.Domain.RoundTrip.{of_string-to_string}
use gtc.Tests.World.{World, sink, runtime, store, manager, empty, batch, event}

nil_stays_nil : as_permanent none ≡ none
unfolding as_permanent
nil_stays_nil = refl

named : full_table_name (event "1" "users") ≡ "public.users"
unfolding full_table_name
named = refl

abbrev pub change : SchemaChange
change = record {
  schema = "public";
  table = "users";
  relation_id = 1;
  previous_schema = "";
  previous_table = "";
  added_columns =
      record { name = "bio"; type_name = "text"; type_oid = 25; part_of_key = false } ∷ [];
  dropped_columns = [];
  changed_columns = [];
  key_columns = "id" ∷ [];
  previous_key_columns = "id" ∷ [];
  replica_identity = "d";
  previous_replica_identity = "";
  kinds = column_added ∷ [];
  lsn = "0/1";
  transaction_id = 1;
  timestamp = 2;
}

added_is_compatible : breaking change ≡ false
unfolding breaking
added_is_compatible = refl

added_summary : summary change ≡ "added bio"
unfolding summary
added_summary = refl

defaults : (new_manager (negsuc 0) (pos 0) empty).threshold ≡ 3
unfolding new_manager
defaults = refl

wrapped_once : length (wrap_sink sink (wrap_sink sink manager)).sinks ≡ 1
unfolding wrap_sink Dict.put
wrapped_once = refl

nothing_to_discard : (discard runtime store root "search:1" manager).1 ≡ none
unfolding discard
nothing_to_discard = refl

listed_none : (list runtime store root (pos 5) manager).1 ≡ got []
unfolding list
listed_none = refl

none_held : (len runtime store root manager).1 ≡ got 0
unfolding len
none_held = refl

trips : ready_to_trip default_resilience_config 5 ≡ true
unfolding ready_to_trip
trips = refl

data_errors_do_not_trip : is_successful (some (permanent (message "bad row"))) ≡ true
unfolding is_successful is_permanent
data_errors_do_not_trip = refl

abbrev open_circuit : CircuitBreaker World
open_circuit = record { execute = λ request w. (w, some (sentinel open_state)) }

refused_calls :
    (Resilience.process runtime default_resilience_config sink open_circuit root batch
      empty).0.calls
    ≡ 0
unfolding Resilience.process is same
refused_calls = refl

timeouts : classify_error (wrap "sink: " (sentinel deadline_exceeded)) ≡ "timeout"
unfolding classify_error is is_permanent same
timeouts = refl

registered_once : length (all (new_registry (sink ∷ sink ∷ []) [])) ≡ 1
unfolding all new_registry register Dict.get Dict.put
registered_once = refl

found : lookup "search" (new_registry (sink ∷ []) []) ≡ got sink
unfolding lookup new_registry register Dict.get Dict.put
found = refl

all_start : (initialize_all root (sink ∷ sink ∷ []) empty).1 ≡ none
unfolding initialize_all
all_start = refl

all_stop : (shutdown_all root (sink ∷ sink ∷ []) empty).1 ≡ none
unfolding shutdown_all join_list
all_stop = refl

all_healthy : (health_check_all root (("search", sink) ∷ []) empty).1 ≡ ("search", none) ∷ []
unfolding health_check_all Dict.put
all_healthy = refl

abbrev only_updates : CompiledSpec
only_updates = record {
  filter = some (λ v. got (bool false));
  partial = some (λ op schema table. some (got (bool false)));
  drop_columns = [];
  mask = [];
}

abbrev transforms : Transforms
transforms = record { global = none; tables = ("public.users", some (only_updates ∷ [])) ∷ [] }

filtered_table : wants_through sink transforms "public" "users" insert ≡ false
unfolding wants_through rejects_all Decorator.table_chain Dict.get
filtered_table = refl

other_table : wants_through sink transforms "public" "orders" insert ≡ true
unfolding wants_through rejects_all Decorator.table_chain Dict.get wants
other_table = refl

filtered_batch : (Decorator.process sink transforms root (event "1" "users" ∷ []) empty).0.calls ≡ 0
unfolding Decorator.process Decorator.table_chain apply Dict.get
filtered_batch = refl

starts_outside : new_decoder.txn.in_txn ≡ false
unfolding new_decoder
starts_outside = refl

of_string-to_string_example :
    (of_string (to_string update) ≡ update)
    ⊎ ((n : ℕ) × (update ≡ other n) × (of_string (to_string update) ≡ insert))
of_string-to_string_example = of_string-to_string update
