-- ===== src/Server/History.antt =====
-- server/history.go: the history of the pipeline that the dashboard charts. A metric's value is a whole number.
-- `gathered` is the answer of the Prometheus registry, none for an error.
use gtc.Base.{
  ℕ, ◌+◌, ◌-◌, ◌≤◌, ◌≡◌, sym, ap, ◌∙◌, String, str_eq, List, [], ◌∷◌, ◌++◌, append_assoc,
  append-nil, Option, none, some, length, length-drop, trim, last, trim-append, arith,
  if◌then◌else◌,
}
use gtc.Base.Dict.{Dict}

-- dto.Metric and dto.MetricFamily, of which the code reads these
pub record Metric : Type 0 where
  pub labels : Dict String
  pub counter : Option ℕ
  pub gauge : Option ℕ

pub record MetricFamily : Type 0 where
  pub name : String
  pub metrics : List Metric

abbrev pub value_or_zero : Option ℕ → ℕ
value_or_zero none = 0
value_or_zero (some n) = n

-- metricValue
unfoldable pub metric_value : Metric → ℕ
metric_value m = elim m.counter [ some n ↦ n | none ↦ value_or_zero m.gauge ]

unfoldable pub first_value : List Metric → ℕ
unfolding metric_value
first_value [] = 0
first_value (m ∷ ms) = metric_value m

-- singleValue
unfoldable pub single_value : MetricFamily → ℕ
unfolding first_value
single_value fam = first_value fam.metrics

pub record Sample : Type 0 where
  pub t : ℕ
  pub events_total : ℕ
  pub wal_lag_bytes : ℕ
  pub inflight : ℕ
  pub dlq_entries : ℕ

abbrev pub sampler_capacity : ℕ
sampler_capacity = 360

unfoldable pub sum_into : List Metric → ℕ → ℕ
unfolding metric_value
sum_into [] n = n
sum_into (m ∷ ms) n = sum_into ms (n + metric_value m)

-- the switch of collect
unfoldable pub read_family : MetricFamily → Sample → Sample
unfolding sum_into single_value
read_family fam p =
    if str_eq fam.name "cdc_events_received_total"
    then record p { events_total = sum_into fam.metrics p.events_total }
    else if str_eq fam.name "cdc_wal_lag_bytes"
    then record p { wal_lag_bytes = single_value fam }
    else if str_eq fam.name "cdc_inflight_events"
    then record p { inflight = single_value fam }
    else if str_eq fam.name "cdc_dlq_entries"
    then record p { dlq_entries = single_value fam }
    else p

unfoldable pub read_families : List MetricFamily → Sample → Sample
unfolding read_family
read_families [] p = p
read_families (fam ∷ fams) p = read_families fams (read_family fam p)

-- the point that a collection at a time takes
unfoldable pub point_at : ℕ → List MetricFamily → Sample
unfolding read_families
point_at now fams =
    read_families fams
      (record { t = now; events_total = 0; wal_lag_bytes = 0; inflight = 0; dlq_entries = 0 })

-- collect, on the samples
unfoldable pub collect_sample : ℕ → Option (List MetricFamily) → List Sample → List Sample
unfolding point_at
collect_sample now none samples = samples
collect_sample now (some fams) samples = trim sampler_capacity (samples ++ (point_at now fams ∷ []))

-- run: a collection at the start and at each tick, until the sampler is closed
unfoldable pub run_sampler : List (ℕ × Option (List MetricFamily)) → List Sample → List Sample
unfolding collect_sample
run_sampler [] samples = samples
run_sampler ((now, gathered) ∷ ticks) samples =
    run_sampler ticks (collect_sample now gathered samples)

-- newSampler
unfoldable pub new_sampler : List Sample
new_sampler = []

-- every point taken, with no bound on how many are kept
unfoldable pub points : List (ℕ × Option (List MetricFamily)) → List Sample
unfolding point_at
points [] = []
points ((now, none) ∷ ticks) = points ticks
points ((now, some fams) ∷ ticks) = point_at now fams ∷ points ticks

run-last :
    (ticks : List (ℕ × Option (List MetricFamily))) (before : List Sample)
    → run_sampler ticks (last sampler_capacity before)
      ≡ last sampler_capacity (before ++ points ticks)
unfolding run_sampler points collect_sample
run-last [] before = ap (last sampler_capacity) (sym (append-nil before))
run-last ((now, none) ∷ ticks) before = run-last ticks before
run-last ((now, some fams) ∷ ticks) before =
    ap (run_sampler ticks) (trim-append sampler_capacity before (point_at now fams))
    ∙ run-last ticks (before ++ (point_at now fams ∷ []))
    ∙ ap (last sampler_capacity) (append_assoc before (point_at now fams ∷ []) (points ticks))

-- After any run of the sampler, its samples are the last 360, or all, of the points that a sampler without a bound
-- takes; these are in order of time, and a failed collection takes none.
pub run_sampler-last :
    (ticks : List (ℕ × Option (List MetricFamily)))
    → (run_sampler ticks new_sampler ≡ last sampler_capacity (points ticks))
      × (length (run_sampler ticks new_sampler) ≤ sampler_capacity)
unfolding new_sampler
run_sampler-last ticks =
    let kept = run-last ticks [] in
    (
      kept,
      omega (
        arith,
        ap length kept,
        length-drop (length (points ticks) - sampler_capacity) (points ticks),
      ),
    )
