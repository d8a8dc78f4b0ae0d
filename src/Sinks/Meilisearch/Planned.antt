-- ===== src/Sinks/Meilisearch/Planned.antt =====
-- meilisearch/sink.go: the runs of an index, sent in turn, do what the events of the batch do one by one.
use gtc.Base.{
  ◌≡◌, refl, sym, ap, subst, ◌∙◌, inl, inr, String, str_eq, eq_iff, Bool, true, ◌||◌, Bool-cases,
  Option-cases, List, [], ◌∷◌, Option, none, some, any, arith, if◌then◌else◌,
}
use gtc.Base.Dict
use gtc.Base.Dict.{Dict, get-put}
use gtc.Sinks.Meilisearch.{
  RunKind, replaces, partially, deletes, clears, Doc, Run, new_run, add_doc, add_id, id_at,
  note_event, same_kind, with_run, key_in,
}
use gtc.Sinks.Meilisearch.Effects.{Fields, doc_of, index_of, effect_at, effect, Writes, Indexed}
use gtc.Sinks.Meilisearch.Grouped.{add_doc-Grows, add_id-Removes, written}

-- what runs do to a document in turn
unfoldable pub effects : List Run → String → Option Fields → Option Fields
effects [] k b = b
effects (r ∷ rs) k b = effects rs k (effect r k b)

abbrev pub AllIndexed : String → List Run → Type 0
AllIndexed key [] = Unit
AllIndexed key (r ∷ rs) = (Indexed r × (r.primary_key ≡ key)) × AllIndexed key rs

new-Indexed : (kind : RunKind) (key : String) → Indexed (new_run kind key)
unfolding index_of Dict.get
new-Indexed kind key = record { docs_at = λ v k. refl; unique = λ v. tt; ids_at = λ v k. refl }

-- What a change of a run of a kind does to the documents.
pub record Does (kind : RunKind) (key : String) (f : Run → Run)
    (step : String → Option Fields → Option Fields) : Type 0 where
  pub fresh :
      (Indexed (f (new_run kind key)) × ((f (new_run kind key)).primary_key ≡ key))
      × ((k : String) (b : Option Fields) → effect (f (new_run kind key)) k b ≡ step k b)
  pub more :
      (r : Run)
      → Indexed r
      → r.primary_key ≡ key
      → same_kind kind r.kind ≡ true
      → (Indexed (f r) × ((f r).primary_key ≡ key))
        × ((k : String) (b : Option Fields) → effect (f r) k b ≡ step k (effect r k b))

pub with_run-Does :
    (kind : RunKind) (key : String) (f : Run → Run) (step : String → Option Fields → Option Fields)
    → Does kind key f step
    → (rs : List Run) → AllIndexed key rs
    → AllIndexed key (with_run kind key f rs)
      × ((k : String) (b : Option Fields)
          → effects (with_run kind key f rs) k b ≡ step k (effects rs k b))
unfolding with_run effects
with_run-Does kind key f step does [] ix = ((does.fresh.0, tt), does.fresh.1)
with_run-Does kind key f step does (r ∷ []) ((i, p), ix) =
    elim (Bool-cases (same_kind kind r.kind)) [
      | inl same ↦ rw (same) (((does.more r i p same).0, tt), (does.more r i p same).1)
      | inr n ↦ rw (n) (((i, p), (does.fresh.0, tt)), λ k b. does.fresh.1 k (effect r k b))
    ]
with_run-Does kind key f step does (r ∷ s ∷ rs) (h, ix) =
    let (i, e) = with_run-Does kind key f step does (s ∷ rs) ix in
    ((h, i), λ k b. e k (effect r k b))

-- the changes that plan makes
write-effect :
    (kind : RunKind) (key id : String) (d : Doc) (k : String) (b : Option Fields)
    → Writes kind
    → effect (new_run kind key) k b ≡ b
unfolding doc_of
write-effect replaces key id d k b w = refl
write-effect partially key id d k b w = refl
write-effect deletes key id d k b w = absurd w
write-effect clears key id d k b w = absurd w

same_kind-eq : (a b : RunKind) → same_kind a b ≡ true → b ≡ a
same_kind-eq replaces replaces h = refl
same_kind-eq replaces partially h = absurd (cc h)
same_kind-eq replaces deletes h = absurd (cc h)
same_kind-eq replaces clears h = absurd (cc h)
same_kind-eq partially replaces h = absurd (cc h)
same_kind-eq partially partially h = refl
same_kind-eq partially deletes h = absurd (cc h)
same_kind-eq partially clears h = absurd (cc h)
same_kind-eq deletes replaces h = absurd (cc h)
same_kind-eq deletes partially h = absurd (cc h)
same_kind-eq deletes deletes h = refl
same_kind-eq deletes clears h = absurd (cc h)
same_kind-eq clears b h = absurd (cc h)

note_event-Indexed : (e : String) (r : Run) → Indexed r → Indexed (note_event e r)
unfolding note_event
note_event-Indexed e r i = record { docs_at = i.docs_at; unique = i.unique; ids_at = i.ids_at }

effect_at-note_event :
    (kind : RunKind) (e : String) (r : Run) (k : String) (b : Option Fields)
    → effect_at kind (note_event e r) k b ≡ effect_at kind r k b
unfolding note_event
effect_at-note_event replaces e r k b = refl
effect_at-note_event partially e r k b = refl
effect_at-note_event deletes e r k b = refl
effect_at-note_event clears e r k b = refl

effect-note_event :
    (e : String) (r : Run) (k : String) (b : Option Fields)
    → effect (note_event e r) k b ≡ effect r k b
unfolding note_event
effect-note_event e r k b = effect_at-note_event r.kind e r k b

pub write-Does :
    (kind : RunKind) (key e id : String) (d : Doc)
    → Writes kind
    → key_in key d ≡ some id
    → Does kind key (λ r. note_event e (add_doc id d r)) (written kind id d)
unfolding note_event
write-Does kind key e id d w h =
    let g = add_doc-Grows (new_run kind key) id d w (new-Indexed kind key) h in
    record {
      fresh = (
        (note_event-Indexed e (add_doc id d (new_run kind key)) g.indexed, g.same_key),
        λ k b.
            effect-note_event e (add_doc id d (new_run kind key)) k b
            ∙ g.effects k b
            ∙ ap (written kind id d k) (write-effect kind key id d k b w),
      );
      more = λ r i p same.
          (let is = same_kind-eq kind r.kind same in
            let g =
              add_doc-Grows r id d (subst Writes (sym is) w) i
                (subst (λ j. key_in j d ≡ some id) (sym p) h) in
            (
              (note_event-Indexed e (add_doc id d r) g.indexed, g.same_key ∙ p),
              λ k b.
                  effect-note_event e (add_doc id d r) k b
                  ∙ g.effects k b
                  ∙ ap (λ j. written j id d k (effect r k b)) is,
            ));
    }

-- a key is deleted
abbrev pub erased : String → String → Option Fields → Option Fields
erased id k b = if str_eq id k then none else b

delete_effect :
    (r : Run) (k : String) (b : Option Fields)
    → r.kind ≡ deletes
    → effect r k b ≡ (if any (str_eq k) r.ids then none else b)
delete_effect r k b h = ap (λ kind. effect_at kind r k b) h

add_id-key : (id : String) (r : Run) → (add_id id r).primary_key ≡ r.primary_key
unfolding add_id id_at
add_id-key id r = elim (Option-cases (Dict.get id r.pos)) [
  | inl absent ↦ ap (λ o. (id_at o id r).primary_key) absent
  | inr (n, here) ↦ ap (λ o. (id_at o id r).primary_key) here
]

two_tests :
    (held : Bool) (k id : String) (b : Option Fields)
    → (if held || str_eq k id then none else b)
      ≡ (if str_eq id k then none else (if held then none else b))
two_tests held k id b = ground (arith, eq_iff id k, eq_iff k id)

pub delete-Does :
    (key e id : String) → Does deletes key (λ r. note_event e (add_id id r)) (erased id)
unfolding note_event
delete-Does key e id =
    let g = add_id-Removes (new_run deletes key) id refl (new-Indexed deletes key) in
    record {
      fresh = (
        (
          note_event-Indexed e (add_id id (new_run deletes key)) g.indexed,
          add_id-key id (new_run deletes key),
        ),
        λ k b.
            effect-note_event e (add_id id (new_run deletes key)) k b
            ∙ delete_effect (add_id id (new_run deletes key)) k b g.same_kind
            ∙ ap (λ c. if c then none else b) (g.effects k)
            ∙ ground (arith, eq_iff id k, eq_iff k id),
      );
      more = λ r i p same.
          (let is = same_kind-eq deletes r.kind same in
            let g = add_id-Removes r id is i in
            (
              (note_event-Indexed e (add_id id r) g.indexed, add_id-key id r ∙ p),
              λ k b.
                  effect-note_event e (add_id id r) k b
                  ∙ delete_effect (add_id id r) k b g.same_kind
                  ∙ ap (λ c. if c then none else b) (g.effects k)
                  ∙ two_tests (any (str_eq k) r.ids) k id b
                  ∙ ap (λ x. if str_eq id k then none else x) (sym (delete_effect r k b is)),
            ));
    }

pub clear-Does : (key e : String) → Does clears key (note_event e) (λ k b. none)
unfolding note_event
clear-Does key e = record {
  fresh = ((note_event-Indexed e (new_run clears key) (new-Indexed clears key), refl), λ k b. refl);
  more = λ r i p same. absurd (cc same);
}
