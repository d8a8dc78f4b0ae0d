-- ===== src/Sinks/Meilisearch/Moves.antt =====
-- meilisearch/sink.go: what each operation of an event does to the runs that are planned.
use gtc.Base.{
  ◌≡◌, sym, ap, subst, ◌∙◌, inl, inr, String, str_eq, eq_iff, Bool, true, false, Bool-cases,
  Option-cases, List, [], ◌∷◌, Option, none, some, arith, if◌then◌else◌,
}
use gtc.Base.Dict
use gtc.Base.Dict.{Dict, get-put}
use gtc.Domain.Event.{CdcEvent, Operation, insert, update, delete, truncate, read, other}
use gtc.Dlq.Store.{got}
use gtc.Sinks.Meilisearch.{
  Mapper, RunKind, replaces, partially, deletes, clears, Doc, Run, BatchPlan, add_doc, add_id,
  note_event, with_run, runs_or_none, run_for, key_in, write_keyed, write_doc, delete_keyed,
  delete_doc, plan_operation,
}
use gtc.Sinks.Meilisearch.Effects.{Fields, Writes}
use gtc.Sinks.Meilisearch.Grouped.{written}
use gtc.Sinks.Meilisearch.Planned.{
  effects, AllIndexed, Does, with_run-Does, write-Does, delete-Does, clear-Does, erased,
}

-- What an event does to a document by itself.
abbrev pub write_event : RunKind → String → Option Doc → String → Option Fields → Option Fields
write_event kind key none k b = b
write_event kind key (some d) k b = elim (key_in key d) [
  | none ↦ b
  | some id ↦ written kind id d k b
]

abbrev pub delete_event : String → Option Doc → String → Option Fields → Option Fields
delete_event key none k b = b
delete_event key (some d) k b = elim (key_in key d) [ none ↦ b | some id ↦ erased id k b ]

abbrev pub event_effect : Operation → CdcEvent → String → String → Option Fields → Option Fields
event_effect insert e key k b = write_event replaces key e.new_data k b
event_effect read e key k b = write_event replaces key e.new_data k b
event_effect update e key k b = write_event partially key e.new_data k b
event_effect delete e key k b = delete_event key e.old_data k b
event_effect truncate e key k b = none
event_effect (other n) e key k b = b

abbrev pub goes_to : Option String → String → Bool
goes_to none i = false
goes_to (some j) i = str_eq j i

-- the events of a batch, one by one, on an index
abbrev pub apply_events : Mapper → String → List CdcEvent → String → Option Fields → Option Fields
apply_events m i [] k b = b
apply_events m i (e ∷ es) k b = apply_events m i es k (
    if goes_to (m.get_index e.schema e.table) i
    then event_effect e.operation e (m.primary_key e.schema e.table) k b
    else b)

abbrev pub runs_of : String → BatchPlan → List Run
runs_of i p = runs_or_none (Dict.get i p.runs)

pub got-eq : {A : Type 0} {x y : A} → got x ≡ got y → x ≡ y
got-eq h = cc h

module _ (pk : String → String) where
  abbrev pub Fits : BatchPlan → Type 0
  Fits p = (i : String) → AllIndexed (pk i) (runs_of i p)

  pub record Moved (p p' : BatchPlan) (j : String) (step : String → Option Fields → Option Fields)
      : Type 0 where
    pub fits : Fits p'
    pub moves :
        (i k : String) (b : Option Fields)
        → effects (runs_of i p') k b
          ≡ (if str_eq j i then step k (effects (runs_of i p) k b) else effects (runs_of i p) k b)

  stays-Moved : (p : BatchPlan) (j : String) → Fits p → Moved p p j (λ k b. b)
  stays-Moved p j h = record { fits = h; moves = λ i k b. ground arith }

  runs-same :
      (p : BatchPlan) (j i : String) (kind : RunKind) (f : Run → Run)
      → str_eq j i ≡ true
      → runs_of i (run_for j kind (pk j) f p) ≡ with_run kind (pk j) f (runs_of j p)
  unfolding run_for
  runs-same p j i kind f same = ap runs_or_none (
      get-put j i (with_run kind (pk j) f (runs_of j p)) p.runs
      ∙ ap (λ b. if b then some (with_run kind (pk j) f (runs_of j p)) else Dict.get i p.runs) same)

  runs-other :
      (p : BatchPlan) (j i : String) (kind : RunKind) (f : Run → Run)
      → str_eq j i ≡ false
      → runs_of i (run_for j kind (pk j) f p) ≡ runs_of i p
  unfolding run_for
  runs-other p j i kind f n = ap runs_or_none (
      get-put j i (with_run kind (pk j) f (runs_of j p)) p.runs
      ∙ ap (λ b. if b then some (with_run kind (pk j) f (runs_of j p)) else Dict.get i p.runs) n)

  run_for-Moved :
      (p : BatchPlan) (j : String) (kind : RunKind) (f : Run → Run)
      (step : String → Option Fields → Option Fields)
      → Does kind (pk j) f step
      → Fits p
      → Moved p (run_for j kind (pk j) f p) j step
  run_for-Moved p j kind f step does h =
      let (ix, e) = with_run-Does kind (pk j) f step does (runs_of j p) (h j) in
      record {
        fits = λ i. elim (Bool-cases (str_eq j i)) [
          | inl same ↦ subst (AllIndexed (pk i)) (sym (runs-same p j i kind f same)) (
              subst (λ x. AllIndexed (pk x) (with_run kind (pk j) f (runs_of j p)))
                ((eq_iff j i).0 same) ix)
          | inr n ↦ subst (AllIndexed (pk i)) (sym (runs-other p j i kind f n)) (h i)
        ];
        moves = λ i k b. elim (Bool-cases (str_eq j i)) [
          | inl same ↦
              ap (λ rs. effects rs k b) (runs-same p j i kind f same)
              ∙ e k b
              ∙ ap (λ x. step k (effects (runs_of x p) k b)) ((eq_iff j i).0 same)
              ∙ sym (
                  ap
                    (λ c.
                      if c then step k (effects (runs_of i p) k b) else effects (runs_of i p) k b)
                    same)
          | inr n ↦
              ap (λ rs. effects rs k b) (runs-other p j i kind f n)
              ∙ sym (
                  ap
                    (λ c.
                      if c then step k (effects (runs_of i p) k b) else effects (runs_of i p) k b)
                    n)
        ];
      }

  -- the operation does to the plan what the event does by itself
  write_doc-Moved :
      (e : CdcEvent) (j : String) (kind : RunKind) (o : Option Doc) (p p' : BatchPlan)
      → Writes kind
      → Fits p
      → write_doc e j kind (pk j) o p ≡ got p'
      → Moved p p' j (write_event kind (pk j) o)
  unfolding write_doc write_keyed
  write_doc-Moved e j kind none p p' w h g =
      subst (λ q. Moved p q j (λ k b. b)) (got-eq g) (stays-Moved p j h)
  write_doc-Moved e j kind (some d) p p' w h g = elim (Option-cases (key_in (pk j) d)) [
    | inl absent ↦ absurd (cc (sym (ap (λ o. write_keyed e j kind (pk j) d o p) absent) ∙ g))
    | inr (id, here) ↦
        subst (λ o. Moved p p' j (λ k b. elim o [ none ↦ b | some id ↦ written kind id d k b ]))
          (sym here)
          (subst (λ q. Moved p q j (written kind id d))
            (got-eq (sym (ap (λ o. write_keyed e j kind (pk j) d o p) here) ∙ g))
            (run_for-Moved p j kind (λ r. note_event e.id (add_doc id d r)) (written kind id d)
              (write-Does kind (pk j) e.id id d w here) h))
  ]

  delete_doc-Moved :
      (e : CdcEvent) (j : String) (o : Option Doc) (p : BatchPlan)
      → Fits p
      → Moved p (delete_doc e j (pk j) o p) j (delete_event (pk j) o)
  unfolding delete_doc delete_keyed
  delete_doc-Moved e j none p h = stays-Moved p j h
  delete_doc-Moved e j (some d) p h = elim (Option-cases (key_in (pk j) d)) [
    | inl absent ↦
        subst
          (λ o.
            Moved p (delete_keyed e j (pk j) o p) j
              (λ k b. elim o [ none ↦ b | some id ↦ erased id k b ]))
          (sym absent) (stays-Moved p j h)
    | inr (id, here) ↦
        subst
          (λ o.
            Moved p (delete_keyed e j (pk j) o p) j
              (λ k b. elim o [ none ↦ b | some id ↦ erased id k b ]))
          (sym here)
          (run_for-Moved p j deletes (λ r. note_event e.id (add_id id r)) (erased id)
            (delete-Does (pk j) e.id id) h)
  ]

  pub plan_operation-Moved :
      (op : Operation) (e : CdcEvent) (j : String) (p p' : BatchPlan)
      → Fits p
      → plan_operation op e j (pk j) p ≡ got p'
      → Moved p p' j (event_effect op e (pk j))
  unfolding plan_operation
  plan_operation-Moved insert e j p p' h g = write_doc-Moved e j replaces e.new_data p p' tt h g
  plan_operation-Moved read e j p p' h g = write_doc-Moved e j replaces e.new_data p p' tt h g
  plan_operation-Moved update e j p p' h g = write_doc-Moved e j partially e.new_data p p' tt h g
  plan_operation-Moved delete e j p p' h g =
      subst (λ q. Moved p q j (delete_event (pk j) e.old_data)) (got-eq g)
        (delete_doc-Moved e j e.old_data p h)
  plan_operation-Moved truncate e j p p' h g =
      subst (λ q. Moved p q j (λ k b. none)) (got-eq g)
        (run_for-Moved p j clears (note_event e.id) (λ k b. none) (clear-Does (pk j) e.id) h)
  plan_operation-Moved (other n) e j p p' h g =
      subst (λ q. Moved p q j (λ k b. b)) (got-eq g) (stays-Moved p j h)
