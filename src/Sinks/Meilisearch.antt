-- ===== src/Sinks/Meilisearch.antt =====
-- meilisearch/sink.go: the plan of a batch, which groups its events to few tasks of each index. `Mapper` is the
-- table mapper, and the text of a key is that of fmt.Sprint.
pub mod Effects
pub mod Distinct
pub mod Grouped
pub mod Planned
pub mod Moves
pub mod Refines
use gtc.Base.{
  ℕ, zero, suc, ◌+◌, String, str_eq, Bool, true, false, not, ◌&&◌, List, [], ◌∷◌, ◌++◌, Option,
  none, some, is_some, length, if◌then◌else◌,
}
use gtc.Base.Dict
use gtc.Base.Dict.{Dict}
use gtc.Domain.Errors.{Error, message, permanent}
use gtc.Domain.Event.{
  CdcEvent, Operation, insert, update, delete, truncate, read, other, Value, null, str, boxed,
}
use gtc.Dlq.Store.{Answer, got, failed}
use gtc.Backfill.Controller.{text_of}

pub record Mapper : Type 0 where
  pub get_index : String → String → Option String
  pub primary_key : String → String → String

pub data RunKind : Type 0 where
  replaces partially deletes clears : RunKind

abbrev pub Doc : Type 0
Doc = Dict Value

-- run
pub record Run : Type 0 where
  pub kind : RunKind
  pub primary_key : String
  pub docs : List Doc
  pub ids : List String
  pub pos : Dict ℕ
  pub event_ids : List String

abbrev pub new_run : RunKind → String → Run
new_run kind key = record {
  kind = kind;
  primary_key = key;
  docs = [];
  ids = [];
  pos = [];
  event_ids = [];
}

-- batchPlan
pub record BatchPlan : Type 0 where
  pub order : List String
  pub runs : Dict (List Run)

-- r.docs[n] = f(r.docs[n])
unfoldable pub modify : ℕ → (Doc → Doc) → List Doc → List Doc
modify n f [] = []
modify zero f (d ∷ ds) = f d ∷ ds
modify (suc n) f (d ∷ ds) = d ∷ modify n f ds

-- `m` with the entries of `d` over it
unfoldable pub merge : Doc → Doc → Doc
merge m [] = m
merge m ((k, v) ∷ d) = Dict.put k v (merge m d)

abbrev pub is_partial : RunKind → Bool
is_partial replaces = false
is_partial partially = true
is_partial deletes = false
is_partial clears = false

unfoldable pub doc_at : Option ℕ → String → Doc → Run → Run
unfolding modify merge
doc_at none id d r = record r { pos = Dict.put id (length r.docs) r.pos; docs = r.docs ++ (d ∷ []) }
doc_at (some n) id d r = record r {
  docs = modify n (if is_partial r.kind then (λ old. merge old d) else (λ old. d)) r.docs;
}

-- addDoc
unfoldable pub add_doc : String → Doc → Run → Run
unfolding doc_at
add_doc id d r = doc_at (Dict.get id r.pos) id d r

unfoldable pub id_at : Option ℕ → String → Run → Run
id_at none id r = record r { pos = Dict.put id (length r.ids) r.pos; ids = r.ids ++ (id ∷ []) }
id_at (some n) id r = r

-- addID
unfoldable pub add_id : String → Run → Run
unfolding id_at
add_id id r = id_at (Dict.get id r.pos) id r

abbrev pub same_kind : RunKind → RunKind → Bool
same_kind replaces k = elim k [
  | replaces ↦ true
  | partially ↦ false
  | deletes ↦ false
  | clears ↦ false
]
same_kind partially k = elim k [
  | replaces ↦ false
  | partially ↦ true
  | deletes ↦ false
  | clears ↦ false
]
same_kind deletes k = elim k [
  | replaces ↦ false
  | partially ↦ false
  | deletes ↦ true
  | clears ↦ false
]
same_kind clears k = false

-- runFor, and what the caller does to the run: `same_kind` is false for runClear
unfoldable pub with_run : RunKind → String → (Run → Run) → List Run → List Run
with_run kind key f [] = f (new_run kind key) ∷ []
with_run kind key f (r ∷ []) =
    if same_kind kind r.kind then f r ∷ [] else r ∷ f (new_run kind key) ∷ []
with_run kind key f (r ∷ s ∷ rs) = r ∷ with_run kind key f (s ∷ rs)

abbrev pub runs_or_none : Option (List Run) → List Run
runs_or_none none = []
runs_or_none (some rs) = rs

unfoldable pub run_for : String → RunKind → String → (Run → Run) → BatchPlan → BatchPlan
unfolding with_run
run_for index kind key f p = record {
  order = if is_some (Dict.get index p.runs) then p.order else p.order ++ (index ∷ []);
  runs = Dict.put index (with_run kind key f (runs_or_none (Dict.get index p.runs))) p.runs;
}

-- r.eventIDs = append(r.eventIDs, event.ID)
unfoldable pub note_event : String → Run → Run
note_event id r = record r { event_ids = r.event_ids ++ (id ∷ []) }

-- id, ok := data[primaryKey], where ok and id != nil
abbrev pub key_text : Option Value → Option String
key_text none = none
key_text (some null) = none
key_text (some (str s)) = some s
key_text (some (boxed type text)) = some text

unfoldable pub key_in : String → Doc → Option String
key_in key d = key_text (Dict.get key d)

write_keyed :
    CdcEvent → String → RunKind → String → Doc → Option String → BatchPlan → Answer BatchPlan
unfolding run_for add_doc note_event
write_keyed e index kind key d none p =
    failed (permanent (message "event has no value for meilisearch primary key"))
write_keyed e index kind key d (some id) p =
    got (run_for index kind key (λ r. note_event e.id (add_doc id d r)) p)

-- the case of an insert, a read or an update
unfoldable pub write_doc :
    CdcEvent → String → RunKind → String → Option Doc → BatchPlan → Answer BatchPlan
unfolding write_keyed key_in
write_doc e index kind key none p = got p
write_doc e index kind key (some d) p = write_keyed e index kind key d (key_in key d) p

delete_keyed : CdcEvent → String → String → Option String → BatchPlan → BatchPlan
unfolding run_for add_id note_event
delete_keyed e index key none p = p
delete_keyed e index key (some id) p =
    run_for index deletes key (λ r. note_event e.id (add_id id r)) p

-- the case of a delete
unfoldable pub delete_doc : CdcEvent → String → String → Option Doc → BatchPlan → BatchPlan
unfolding delete_keyed key_in
delete_doc e index key none p = p
delete_doc e index key (some d) p = delete_keyed e index key (key_in key d) p

-- the switch over the operation
unfoldable pub plan_operation :
    Operation → CdcEvent → String → String → BatchPlan → Answer BatchPlan
unfolding write_doc delete_doc run_for note_event
plan_operation insert e index key p = write_doc e index replaces key e.new_data p
plan_operation read e index key p = write_doc e index replaces key e.new_data p
plan_operation update e index key p = write_doc e index partially key e.new_data p
plan_operation delete e index key p = got (delete_doc e index key e.old_data p)
plan_operation truncate e index key p = got (run_for index clears key (note_event e.id) p)
plan_operation (other n) e index key p = got p

unfoldable pub plan_at : Mapper → Option String → CdcEvent → BatchPlan → Answer BatchPlan
unfolding plan_operation
plan_at m none e p = got p
plan_at m (some index) e p = plan_operation e.operation e index (m.primary_key e.schema e.table) p

-- the body of the loop of plan
unfoldable pub plan_event : Mapper → CdcEvent → BatchPlan → Answer BatchPlan
unfolding plan_at
plan_event m e p = plan_at m (m.get_index e.schema e.table) e p

-- the loop of plan
unfoldable pub plan_each : Mapper → List CdcEvent → Answer BatchPlan → Answer BatchPlan
unfolding plan_event
plan_each m events (failed err) = failed err
plan_each m [] (got p) = got p
plan_each m (e ∷ events) (got p) = plan_each m events (plan_event m e p)

-- plan
unfoldable pub plan : Mapper → List CdcEvent → Answer BatchPlan
unfolding plan_each
plan m events = plan_each m events (got (record { order = []; runs = [] }))

-- The calls of an index that enqueue makes, on what the index holds.
pub record Index (D : Type 0) : Type 0 where
  pub add_documents : String → List Doc → D → D
  pub update_documents : String → List Doc → D → D
  pub delete_documents : List String → D → D
  pub delete_all_documents : D → D

-- enqueue, when the call and its task succeed
unfoldable pub enqueue : {D : Type 0} → Index D → Run → D → D
enqueue x r d = elim r.kind [
  | replaces ↦ x.add_documents r.primary_key r.docs d
  | partially ↦ x.update_documents r.primary_key r.docs d
  | deletes ↦ x.delete_documents r.ids d
  | clears ↦ x.delete_all_documents d
]

-- the loop of Process over the runs of an index
unfoldable pub enqueue_each : {D : Type 0} → Index D → List Run → D → D
unfolding enqueue
enqueue_each x [] d = d
enqueue_each x (r ∷ rs) d = enqueue_each x rs (enqueue x r d)
