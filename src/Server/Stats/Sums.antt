-- ===== src/Server/Stats/Sums.antt =====
-- server/stats.go: the counters of the events add up.
use gtc.Base.{
  ℕ, ◌+◌, ◌≡◌, refl, sym, ap, ◌∙◌, String, str_eq, eq_iff, Bool, true, false, Bool-cases, List, [],
  ◌∷◌, Option, none, some, arith, if◌then◌else◌, inl, inr, Option-cases,
}
use gtc.Base.Dict
use gtc.Base.Dict.{Dict}
use gtc.Server.History.{
  Metric, MetricFamily, Sample, metric_value, sum_into, read_family, read_families, point_at,
}
use gtc.Server.Stats.{
  TableStats, EventStats, new_table, text_or_empty, count_or_zero, table_or_new, count_operation,
  table_name, count_metric, count_metrics, count_family, count_families, new_stats, list_backfilled,
}

abbrev pub total_of : Dict TableStats → ℕ
total_of [] = 0
total_of ((name, ts) ∷ m) = ts.total + total_of m

abbrev pub sum_of : Dict ℕ → ℕ
sum_of [] = 0
sum_of ((name, n) ∷ m) = n + sum_of m

abbrev total_at : Option TableStats → ℕ
total_at none = 0
total_at (some ts) = ts.total

total-put :
    (k : String) (ts : TableStats) (m : Dict TableStats)
    → total_of (Dict.put k ts m) + total_at (Dict.get k m) ≡ total_of m + ts.total
unfolding Dict.put Dict.get
total-put k ts [] = omega arith
total-put k ts ((j, us) ∷ m) = elim (Bool-cases (str_eq j k)) [
  | inl same ↦ rw (same) (omega arith)
  | inr other ↦ rw (other) (omega (arith, total-put k ts m))
]

sum-put :
    (k : String) (n : ℕ) (m : Dict ℕ)
    → sum_of (Dict.put k n m) + count_or_zero (Dict.get k m) ≡ sum_of m + n
unfolding Dict.put Dict.get
sum-put k n [] = omega arith
sum-put k n ((j, i) ∷ m) = elim (Bool-cases (str_eq j k)) [
  | inl same ↦ rw (same) (omega arith)
  | inr other ↦ rw (other) (omega (arith, sum-put k n m))
]

count-total : (op : String) (v : ℕ) (ts : TableStats) → (count_operation op v ts).total ≡ ts.total
unfolding count_operation
count-total op v ts = ground arith

total_or_new : (name : String) (o : Option TableStats) → (table_or_new name o).total ≡ total_at o
total_or_new name none = refl
total_or_new name (some ts) = refl

-- The counts agree.
pub record Agrees (s : EventStats) : Type 0 where
  pub by_table : s.events_total ≡ total_of s.tables
  pub by_operation : s.events_total ≡ sum_of s.operations

count_metric-Agrees : (m : Metric) (s : EventStats) → Agrees s → Agrees (count_metric m s)
unfolding count_metric
count_metric-Agrees m s a =
    let op = text_or_empty (Dict.get "operation" m.labels) in
    let name = table_name m in
    let ts = table_or_new name (Dict.get name s.tables) in
    let counted =
      count_operation op (metric_value m) (record ts { total = ts.total + metric_value m }) in
    record {
      by_table = omega (
        arith,
        a.by_table,
        total-put name counted s.tables,
        count-total op (metric_value m) (record ts { total = ts.total + metric_value m }),
        total_or_new name (Dict.get name s.tables),
      );
      by_operation = omega (
        arith,
        a.by_operation,
        sum-put op (count_or_zero (Dict.get op s.operations) + metric_value m) s.operations,
      );
    }

count_metrics-Agrees : (ms : List Metric) (s : EventStats) → Agrees s → Agrees (count_metrics ms s)
unfolding count_metrics
count_metrics-Agrees [] s a = a
count_metrics-Agrees (m ∷ ms) s a =
    count_metrics-Agrees ms (count_metric m s) (count_metric-Agrees m s a)

count_family-Agrees : (fam : MetricFamily) (s : EventStats) → Agrees s → Agrees (count_family fam s)
unfolding count_family
count_family-Agrees fam s a = elim (Bool-cases (str_eq fam.name "cdc_wal_lag_bytes")) [
  | inl lag ↦ rw (lag) (record { by_table = a.by_table; by_operation = a.by_operation })
  | inr n ↦ elim (Bool-cases (str_eq fam.name "cdc_inflight_events")) [
    | inl inflight ↦
        rw (n, inflight) (record { by_table = a.by_table; by_operation = a.by_operation })
    | inr m ↦ elim (Bool-cases (str_eq fam.name "cdc_events_received_total")) [
      | inl received ↦ rw (n, m, received) (count_metrics-Agrees fam.metrics s a)
      | inr k ↦ rw (n, m, k) a
    ]
  ]
]

count_families-Agrees :
    (fams : List MetricFamily) (s : EventStats) → Agrees s → Agrees (count_families fams s)
unfolding count_families
count_families-Agrees [] s a = a
count_families-Agrees (fam ∷ fams) s a =
    count_families-Agrees fams (count_family fam s) (count_family-Agrees fam s a)

listed-total :
    (names : List String) (m : Dict TableStats) → total_of (list_backfilled names m) ≡ total_of m
unfolding list_backfilled
listed-total [] m = refl
listed-total (name ∷ names) m = elim (Option-cases (Dict.get name m)) [
  | inl absent ↦ rw (absent) (
      listed-total names (Dict.put name (new_table name) m)
      ∙ omega (arith, total-put name (new_table name) m, ap total_at absent))
  | inr (ts, here) ↦ rw (here) (listed-total names m)
]

-- the history's count of the events
metrics-events :
    (ms : List Metric) (s : EventStats)
    → (count_metrics ms s).events_total ≡ sum_into ms s.events_total
unfolding count_metrics count_metric sum_into
metrics-events [] s = refl
metrics-events (m ∷ ms) s = metrics-events ms (count_metric m s)

abbrev received : String → Bool
received name = str_eq name "cdc_events_received_total"

other_name : (name a b : String) → str_eq name a ≡ true → str_eq a b ≡ false → str_eq name b ≡ false
other_name name a b h n = ap (λ x. str_eq x b) ((eq_iff name a).0 h) ∙ n

family-counted :
    (fam : MetricFamily) (s : EventStats)
    → (count_family fam s).events_total
      ≡ (if received fam.name then sum_into fam.metrics s.events_total else s.events_total)
unfolding count_family
family-counted fam s = elim (Bool-cases (str_eq fam.name "cdc_wal_lag_bytes")) [
  | inl lag ↦
      rw (lag, other_name fam.name "cdc_wal_lag_bytes" "cdc_events_received_total" lag refl) refl
  | inr n ↦ elim (Bool-cases (str_eq fam.name "cdc_inflight_events")) [
    | inl flying ↦
        rw
          (
            n,
            flying,
            other_name fam.name "cdc_inflight_events" "cdc_events_received_total" flying refl,
          )
          refl
    | inr m ↦ elim (Bool-cases (received fam.name)) [
      | inl r ↦ rw (n, m, r) (metrics-events fam.metrics s)
      | inr k ↦ rw (n, m, k) refl
    ]
  ]
]

family-sampled :
    (fam : MetricFamily) (p : Sample)
    → (read_family fam p).events_total
      ≡ (if received fam.name then sum_into fam.metrics p.events_total else p.events_total)
unfolding read_family
family-sampled fam p = ground arith

families-events :
    (fams : List MetricFamily) (s : EventStats) (p : Sample)
    → s.events_total ≡ p.events_total
    → (count_families fams s).events_total ≡ (read_families fams p).events_total
unfolding count_families read_families
families-events [] s p h = h
families-events (fam ∷ fams) s p h = families-events fams (count_family fam s) (read_family fam p) (
    family-counted fam s
    ∙ ap (λ (n : ℕ). if received fam.name then sum_into fam.metrics n else n) h
    ∙ sym (family-sampled fam p))

-- For any metrics, the number of events that the dashboard shows is the sum over its tables, those listed for a
-- backfill included, it is the sum over its operations, and it is the number that the history's sampler takes
-- from the same metrics.
pub stats_agree :
    (fams : List MetricFamily) (names : List String) (now : ℕ)
    → (let s = count_families fams new_stats in
        (s.events_total ≡ total_of (list_backfilled names s.tables))
        × (s.events_total ≡ sum_of s.operations)
        × (s.events_total ≡ (point_at now fams).events_total))
unfolding new_stats point_at
stats_agree fams names now =
    let a =
      count_families-Agrees fams new_stats (record { by_table = refl; by_operation = refl }) in
    (
      a.by_table ∙ sym (listed-total names (count_families fams new_stats).tables),
      a.by_operation,
      families-events fams _ _ refl,
    )
