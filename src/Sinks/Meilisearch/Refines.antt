-- ===== src/Sinks/Meilisearch/Refines.antt =====
-- meilisearch/sink.go: sending the plan of a batch leaves an index as the events of the batch, applied one by one.
use gtc.Base.{
  ◌≡◌, refl, sym, ap, subst, ◌∙◌, ◌⊎◌, inl, inr, String, str_eq, Option-cases, List, [], ◌∷◌,
  Option, none, some, any, if◌then◌else◌,
}
use gtc.Base.Dict
use gtc.Base.Dict.{Dict, get-put}
use gtc.Domain.Event.{CdcEvent}
use gtc.Domain.Errors.{Error}
use gtc.Dlq.Store.{Answer, got, failed}
use gtc.Sinks.Meilisearch.{
  Mapper, RunKind, replaces, partially, deletes, clears, Doc, Run, BatchPlan, runs_or_none,
  plan_operation, plan_at, plan_event, plan_each, plan, Index, enqueue, enqueue_each,
}
use gtc.Sinks.Meilisearch.Effects.{
  Fields, View, Distinct, Indexed, Writes, write_found, doc_of, effect_at, effect,
}
use gtc.Sinks.Meilisearch.Planned.{effects, AllIndexed}
use gtc.Sinks.Meilisearch.Moves.{
  event_effect, goes_to, apply_events, runs_of, got-eq, Fits, plan_operation-Moved,
}

-- The tables of an index have its primary key.
abbrev pub OneKey : Mapper → (String → String) → Type 0
OneKey m pk =
    (schema table i : String)
    → m.get_index schema table ≡ some i
    → m.primary_key schema table ≡ pk i

-- What Meilisearch documents of its calls: documents that have a key each, no two the same, replace what is there
-- or are laid over it, and keys, or all, are deleted. Nothing is assumed of a payload with two documents of one
-- key. `view` is what a reader of the index sees.
pub record Documented {D : Type 0} (x : Index D) (view : D → View) : Type 0 where
  pub adds :
      (key : String) (docs : List Doc) (d : D) (k : String)
      → Distinct key docs
      → view (x.add_documents key docs d) k ≡ write_found replaces (doc_of key k docs) (view d k)
  pub updates :
      (key : String) (docs : List Doc) (d : D) (k : String)
      → Distinct key docs
      → view (x.update_documents key docs d) k
        ≡ write_found partially (doc_of key k docs) (view d k)
  pub removes :
      (ids : List String) (d : D) (k : String)
      → view (x.delete_documents ids d) k ≡ (if any (str_eq k) ids then none else view d k)
  pub empties : (d : D) (k : String) → view (x.delete_all_documents d) k ≡ none

module _ (m : Mapper) (pk : String → String) (one_key : OneKey m pk) where
  answer_cases :
      {A : Type 0} (a : Answer A) → ((x : A) × (a ≡ got x)) ⊎ ((e : Error) × (a ≡ failed e))
  answer_cases (got x) = inl (x, refl)
  answer_cases (failed e) = inr (e, refl)

  failed-plan :
      (events : List CdcEvent) (err : Error) → plan_each m events (failed err) ≡ failed err
  unfolding plan_each
  failed-plan [] err = refl
  failed-plan (e ∷ events) err = refl

  elsewhere-plan_event :
      (e : CdcEvent) (p : BatchPlan)
      → m.get_index e.schema e.table ≡ none
      → plan_event m e p ≡ got p
  unfolding plan_event plan_at
  elsewhere-plan_event e p h = ap (λ o. plan_at m o e p) h

  here-plan_event :
      (e : CdcEvent) (p : BatchPlan) (j : String)
      → m.get_index e.schema e.table ≡ some j
      → plan_event m e p ≡ plan_operation e.operation e j (pk j) p
  unfolding plan_event plan_at
  here-plan_event e p j h =
      ap (λ o. plan_at m o e p) h
      ∙ (ap (λ key. plan_operation e.operation e j key p) (one_key e.schema e.table j h))

  plan_each-effects :
      (events : List CdcEvent) (p p' : BatchPlan)
      → Fits pk p
      → plan_each m events (got p) ≡ got p'
      → Fits pk p'
        × ((i k : String) (b : Option Fields)
            → effects (runs_of i p') k b ≡ apply_events m i events k (effects (runs_of i p) k b))
  unfolding plan_each plan_event
  plan_each-effects [] p p' h g =
      (subst (Fits pk) (got-eq g) h, λ i k b. ap (λ q. effects (runs_of i q) k b) (sym (got-eq g)))
  plan_each-effects (e ∷ events) p p' h g =
      let alone = λ (o : Option String) (key i k : String) (b : Option Fields).
        apply_events m i events k (
          if goes_to o i
          then event_effect e.operation e key k (effects (runs_of i p) k b)
          else effects (runs_of i p) k b) in
      let own = m.primary_key e.schema e.table in
      elim (Option-cases (m.get_index e.schema e.table)) [
        | inl elsewhere ↦
            (let (fits, moves) =
                plan_each-effects events p p' h
                  (sym (ap (plan_each m events) (elsewhere-plan_event e p elsewhere)) ∙ g) in
              (fits, λ i k b. moves i k b ∙ ap (λ o. alone o own i k b) (sym elsewhere)))
        | inr (j, here) ↦ elim (answer_cases (plan_operation e.operation e j (pk j) p)) [
          | inr (err, bad) ↦ absurd (
              cc (
                sym (failed-plan events err)
                ∙ sym (ap (plan_each m events) (here-plan_event e p j here ∙ bad))
                ∙ g))
          | inl (p₁, good) ↦
              (let moved = plan_operation-Moved pk e.operation e j p p₁ h good in
                let (fits, moves) =
                  plan_each-effects events p₁ p' moved.fits
                    (sym (ap (plan_each m events) (here-plan_event e p j here ∙ good)) ∙ g) in
                (
                  fits,
                  λ i k b.
                      moves i k b
                      ∙ ap (apply_events m i events k) (moved.moves i k b)
                      ∙ ap (λ key. alone (some j) key i k b) (sym (one_key e.schema e.table j here))
                      ∙ ap (λ o. alone o own i k b) (sym here),
                ))
        ]
      ]

  module _ {D : Type 0} (x : Index D) (view : D → View) (doc : Documented x view) where
    enqueue-effect :
        (r : Run) (d : D) (k : String) → Indexed r → view (enqueue x r d) k ≡ effect r k (view d k)
    unfolding enqueue
    enqueue-effect r d k ix = kinds r.kind r ix.unique
      where
        kinds :
            (kind : RunKind) (r : Run)
            → (Writes kind → Distinct r.primary_key r.docs)
            → view
                (elim kind [
                  | replaces ↦ x.add_documents r.primary_key r.docs d
                  | partially ↦ x.update_documents r.primary_key r.docs d
                  | deletes ↦ x.delete_documents r.ids d
                  | clears ↦ x.delete_all_documents d
                ])
                k
              ≡ effect_at kind r k (view d k)
        kinds replaces r u = doc.adds r.primary_key r.docs d k (u tt)
        kinds partially r u = doc.updates r.primary_key r.docs d k (u tt)
        kinds deletes r u = doc.removes r.ids d k
        kinds clears r u = doc.empties d k

    enqueue_each-effects :
        (key : String) (rs : List Run) (d : D) (k : String)
        → AllIndexed key rs
        → view (enqueue_each x rs d) k ≡ effects rs k (view d k)
    unfolding enqueue_each effects
    enqueue_each-effects key [] d k ix = refl
    enqueue_each-effects key (r ∷ rs) d k ((i, p), ix) =
        enqueue_each-effects key rs (enqueue x r d) k ix
        ∙ ap (effects rs k) (enqueue-effect r d k i)

    -- When plan succeeds on a batch, the tables of an index share its primary key, and Meilisearch does what it
    -- documents, sending the runs of an index in turn leaves each of its documents as it would be after the
    -- batch's events on that index, applied one by one in order.
    pub plan-refines :
        (events : List CdcEvent) (p : BatchPlan)
        → plan m events ≡ got p
        → (i : String) (d : D) (k : String)
        → view (enqueue_each x (runs_or_none (Dict.get i p.runs)) d) k
          ≡ apply_events m i events k (view d k)
    unfolding plan Dict.get effects
    plan-refines events p g i d k =
        let (fits, moves) =
          plan_each-effects events (record { order = []; runs = [] }) p (λ j. tt) g in
        enqueue_each-effects (pk i) (runs_of i p) d k (fits i) ∙ moves i k (view d k)
