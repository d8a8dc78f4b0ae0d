-- ===== src/Tests/Dashboard.antt =====
-- The dashboard's data and the schema history on concrete values.
use gtc.Base.{
  ℕ, ◌≤◌, ◌≡◌, refl, String, true, false, List, [], ◌∷◌, Option, none, some, last, length,
}
use gtc.Base.Dict
use gtc.Base.Dict.{Dict}
use gtc.Domain.Errors.{message}
use gtc.Server.History.{
  MetricFamily, run_sampler, new_sampler, points, point_at, sampler_capacity, run_sampler-last,
}
use gtc.Server.Stats.{count_families, new_stats, list_backfilled}
use gtc.Server.Stats.Sums.{total_of, sum_of, stats_agree}
use gtc.Server.Health.{check, health_of, check-statuses}
use gtc.Schema.Recorder.{newest_first, record_each, newest_first-reversed}
use gtc.Tests.Values.{change}

-- Three inserts into users, and one update.
abbrev families : List MetricFamily
families =
    record {
      name = "cdc_events_received_total";
      metrics =
          record {
            labels = ("schema", "public") ∷ ("table", "users") ∷ ("operation", "INSERT") ∷ [];
            counter = some 3;
            gauge = none;
          }
          ∷ record {
            labels = ("schema", "public") ∷ ("table", "users") ∷ ("operation", "UPDATE") ∷ [];
            counter = some 1;
            gauge = none;
          }
          ∷ [];
    }
    ∷ []

abbrev ticks : List (ℕ × Option (List MetricFamily))
ticks = (1, some families) ∷ (2, none) ∷ (3, some []) ∷ []

run_sampler-last_example :
    (run_sampler ticks new_sampler ≡ last sampler_capacity (points ticks))
    × (length (run_sampler ticks new_sampler) ≤ sampler_capacity)
run_sampler-last_example = run_sampler-last ticks

stats_agree_example :
    (let s = count_families families new_stats in
      (4 ≡ total_of (list_backfilled ("public.orders" ∷ []) s.tables))
      × (4 ≡ sum_of s.operations)
      × (4 ≡ (point_at 5 families).events_total))
unfolding count_families new_stats Dict.get
stats_agree_example = stats_agree families ("public.orders" ∷ []) 5

check-statuses_example :
    ((check (("redis", none) ∷ ("nats", some (message "down")) ∷ []) true).ready ≡ false)
    × ((k : String)
        → Dict.get k
            (check (("redis", none) ∷ ("nats", some (message "down")) ∷ []) true).sink_status
          ≡ health_of (Dict.get k (("redis", none) ∷ ("nats", some (message "down")) ∷ [])) none)
unfolding Dict.get
check-statuses_example =
    check-statuses (("redis", none) ∷ ("nats", some (message "down")) ∷ []) true (refl, (refl, tt))

newest_first-reversed_example :
    newest_first (record_each (change ∷ record change { table = "orders" } ∷ []) [])
    ≡ (some (record change { table = "orders" }) ∷ some change ∷ [])
newest_first-reversed_example =
    newest_first-reversed (change ∷ record change { table = "orders" } ∷ [])
