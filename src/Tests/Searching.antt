-- ===== src/Tests/Searching.antt =====
-- The plan of a batch for Meilisearch on concrete events, with an index that is a function.
use gtc.Base.{◌≡◌, refl, String, str_eq, List, [], ◌∷◌, none, some, any, if◌then◌else◌}
use gtc.Base.Dict
use gtc.Domain.Event.{CdcEvent, update, delete, str}
use gtc.Dlq.Store.{got, failed}
use gtc.Sinks.Meilisearch.{
  Mapper, Doc, Index, BatchPlan, plan, enqueue_each, runs_or_none, replaces, partially,
}
use gtc.Sinks.Meilisearch.Effects.{View, write_found, doc_of}
use gtc.Sinks.Meilisearch.Moves.{apply_events}
use gtc.Sinks.Meilisearch.Refines.{Documented, plan-refines}
use gtc.Tests.World.{event}

abbrev mapper : Mapper
mapper = record { get_index = λ schema table. some "people"; primary_key = λ schema table. "id" }

abbrev index : Index View
index = record {
  add_documents = λ key docs d k. write_found replaces (doc_of key k docs) (d k);
  update_documents = λ key docs d k. write_found partially (doc_of key k docs) (d k);
  delete_documents = λ ids d k. if any (str_eq k) ids then none else d k;
  delete_all_documents = λ d k. none;
}

index-Documented : Documented index (λ d. d)
index-Documented = record {
  adds = λ key docs d k u. refl;
  updates = λ key docs d k u. refl;
  removes = λ ids d k. refl;
  empties = λ d k. refl;
}

abbrev doc : String → Doc
doc name = ("id", str "1") ∷ ("name", str name) ∷ []

-- A row is inserted, updated twice, and another one deleted.
abbrev changes : List CdcEvent
changes =
    record (event "1" "users") { new_data = some (doc "a") }
    ∷ record (event "2" "users") { operation = update; new_data = some (doc "b") }
    ∷ record (event "3" "users") {
      operation = update;
      new_data = some (("id", str "1") ∷ ("age", str "5") ∷ []);
    }
    ∷ record (event "4" "users") { operation = delete; old_data = some (("id", str "2") ∷ []) }
    ∷ []

abbrev planned : BatchPlan
planned = elim (plan mapper changes) [ got p ↦ p | failed e ↦ record { order = []; runs = [] } ]

plan-refines_example :
    enqueue_each index (runs_or_none (Dict.get "people" planned.runs)) (λ k. none) "1"
    ≡ apply_events mapper "people" changes "1" none
unfolding plan Dict.get
plan-refines_example =
    plan-refines mapper (λ i. "id") (λ schema table i h. refl) index (λ d. d) index-Documented
      changes planned refl "people" (λ k. none) "1"
