-- ===== src/Server/Stats.antt =====
-- server/stats.go: the counters of the events, as handleStats shapes them. A counter is a whole number.
pub mod Sums
use Prim.Native.String.{◌++◌ as ◌<>◌}
use gtc.Base.{
  ℕ, zero, suc, ◌+◌, ◌≤◌, ◌≡◌, refl, sym, ap, ◌∙◌, String, str_eq, eq_iff, eq_refl, Bool, true,
  false, Bool-cases, List, [], ◌∷◌, Option, none, some, arith, if◌then◌else◌, inl, inr,
}
use gtc.Base.Dict
use gtc.Base.Dict.{Dict}
use gtc.Server.History.{Metric, MetricFamily, metric_value, single_value}

-- tableStats
pub record TableStats : Type 0 where
  pub table : String
  pub insert : ℕ
  pub update : ℕ
  pub delete : ℕ
  pub read : ℕ
  pub truncate : ℕ
  pub total : ℕ

abbrev pub new_table : String → TableStats
new_table name = record {
  table = name;
  insert = 0;
  update = 0;
  delete = 0;
  read = 0;
  truncate = 0;
  total = 0;
}

-- the part of statsResponse, and of the map tables, that the events' counters fill
pub record EventStats : Type 0 where
  pub wal_lag_bytes : ℕ
  pub inflight : ℕ
  pub events_total : ℕ
  pub operations : Dict ℕ
  pub tables : Dict TableStats

-- m[k], with the zero value of a missing key
abbrev pub text_or_empty : Option String → String
text_or_empty none = ""
text_or_empty (some s) = s

abbrev pub count_or_zero : Option ℕ → ℕ
count_or_zero none = 0
count_or_zero (some n) = n

abbrev pub table_or_new : String → Option TableStats → TableStats
table_or_new name none = new_table name
table_or_new name (some ts) = ts

-- the switch over the operation
unfoldable pub count_operation : String → ℕ → TableStats → TableStats
count_operation op v ts =
    if str_eq op "INSERT"
    then record ts { insert = ts.insert + v }
    else if str_eq op "UPDATE"
    then record ts { update = ts.update + v }
    else if str_eq op "DELETE"
    then record ts { delete = ts.delete + v }
    else if str_eq op "READ"
    then record ts { read = ts.read + v }
    else if str_eq op "TRUNCATE"
    then record ts { truncate = ts.truncate + v }
    else ts

unfoldable pub table_name : Metric → String
table_name m =
    text_or_empty (Dict.get "schema" m.labels) <> "." <> text_or_empty (Dict.get "table" m.labels)

-- the body of the loop over the metrics of cdc_events_received_total
unfoldable pub count_metric : Metric → EventStats → EventStats
unfolding metric_value table_name count_operation
count_metric m s =
    let op = text_or_empty (Dict.get "operation" m.labels) in
    let ts = table_or_new (table_name m) (Dict.get (table_name m) s.tables) in
    let v = metric_value m in
    record s {
      tables =
          Dict.put (table_name m) (count_operation op v (record ts { total = ts.total + v }))
            s.tables;
      operations = Dict.put op (count_or_zero (Dict.get op s.operations) + v) s.operations;
      events_total = s.events_total + v;
    }

unfoldable pub count_metrics : List Metric → EventStats → EventStats
unfolding count_metric
count_metrics [] s = s
count_metrics (m ∷ ms) s = count_metrics ms (count_metric m s)

-- the switch over the family's name, for these counters
unfoldable pub count_family : MetricFamily → EventStats → EventStats
unfolding count_metrics single_value
count_family fam s =
    if str_eq fam.name "cdc_wal_lag_bytes"
    then record s { wal_lag_bytes = single_value fam }
    else if str_eq fam.name "cdc_inflight_events"
    then record s { inflight = single_value fam }
    else if str_eq fam.name "cdc_events_received_total"
    then count_metrics fam.metrics s
    else s

unfoldable pub count_families : List MetricFamily → EventStats → EventStats
unfolding count_family
count_families [] s = s
count_families (fam ∷ fams) s = count_families fams (count_family fam s)

unfoldable pub new_stats : EventStats
new_stats = record {
  wal_lag_bytes = 0;
  inflight = 0;
  events_total = 0;
  operations = [];
  tables = [];
}

-- a backfilled table is listed even before its first event
unfoldable pub list_backfilled : List String → Dict TableStats → Dict TableStats
list_backfilled [] tables = tables
list_backfilled (name ∷ names) tables = list_backfilled names (elim (Dict.get name tables) [
  | none ↦ Dict.put name (new_table name) tables
  | some ts ↦ tables
])
