-- ===== src/Sinks/Meilisearch/Grouped.antt =====
-- meilisearch/sink.go, addDoc and addID: a run does to each document what its events do in turn.
use gtc.Base.{
  ℕ, ◌≡◌, ◌≢◌, refl, sym, ap, subst, ◌∙◌, inl, inr, String, str_eq, eq_iff, true, ◌||◌, Bool-cases,
  Option-cases, List, [], ◌∷◌, ◌++◌, Option, none, some, is_some, any, length, arith, if◌then◌else◌,
}
use gtc.Base.Dict
use gtc.Base.Dict.{Dict, get-put}
use gtc.Domain.Event.{Value}
use gtc.Sinks.Meilisearch.{
  RunKind, replaces, partially, deletes, clears, Doc, Run, modify, merge, doc_at, add_doc, id_at,
  add_id, key_in, is_partial,
}
use gtc.Sinks.Meilisearch.Effects.{
  Fields, or_else, over, write, write_found, doc_of, index_of, none_is, is_id, effect_at, effect,
  Writes, Indexed, merge-get, merge-key, modify-Modified, append-index, found,
}
use gtc.Sinks.Meilisearch.Distinct.{append-Distinct, modify-Distinct}

-- what a document becomes when it is written with a key
abbrev pub written : RunKind → String → Doc → String → Option Fields → Option Fields
written kind id d k b = if str_eq id k then write kind d b else b

or_else_assoc : (x y z : Option Value) → or_else (or_else x y) z ≡ or_else x (or_else y z)
or_else_assoc none y z = refl
or_else_assoc (some v) y z = refl

not_deletes : (kind : RunKind) → Writes kind → kind ≢ deletes
not_deletes replaces w h = cc h
not_deletes partially w h = cc h
not_deletes deletes w h = w
not_deletes clears w h = w

-- a later partial document composes with an earlier one
over-merge : (old d : Doc) (b : Option Fields) → over (merge old d) b ≡ over d (some (over old b))
over-merge old d none = λ i f. merge-get old d f i
over-merge old d (some b) = λ i f.
    (ap (λ o. or_else o (b f)) (merge-get old d f)
        ∙ or_else_assoc (Dict.get f d) (Dict.get f old) (b f))
      i

-- what addDoc makes of a document that is there
abbrev stepped : RunKind → Doc → Doc → Doc
stepped kind d old = if is_partial kind then merge old d else d

write-stepped :
    (kind : RunKind) (d old : Doc) (b : Option Fields)
    → write kind (stepped kind d old) b ≡ write kind d (write kind old b)
write-stepped replaces d old b = refl
write-stepped partially d old b = ap some (over-merge old d b)
write-stepped deletes d old b = refl
write-stepped clears d old b = refl

stepped-key :
    (kind : RunKind) (key id : String) (d old : Doc)
    → key_in key d ≡ some id
    → key_in key (stepped kind d old) ≡ some id
stepped-key replaces key id d old h = h
stepped-key partially key id d old h = merge-key key old d id h
stepped-key deletes key id d old h = h
stepped-key clears key id d old h = h

effect-Writes :
    (r : Run) (k : String) (b : Option Fields)
    → Writes r.kind
    → effect r k b ≡ write_found r.kind (doc_of r.primary_key k r.docs) b
effect-Writes r k b w = kinds r.kind r w
  where
    kinds :
        (kind : RunKind) (r : Run)
        → Writes kind
        → effect_at kind r k b ≡ write_found kind (doc_of r.primary_key k r.docs) b
    kinds replaces r w = refl
    kinds partially r w = refl
    kinds deletes r w = absurd w
    kinds clears r w = absurd w

index-doc_none :
    (key k : String) (ds : List Doc) → index_of key k ds ≡ none → doc_of key k ds ≡ none
unfolding index_of doc_of
index-doc_none key k [] h = refl
index-doc_none key k (d ∷ ds) h =
    let (n, later) = none_is (is_id (key_in key d) k) (index_of key k ds) h in
    rw (n) (index-doc_none key k ds later)

index-doc_some :
    (key k : String) (n : ℕ) (ds : List Doc)
    → index_of key k ds ≡ some n
    → (d : Doc) × (doc_of key k ds ≡ some d)
unfolding index_of doc_of
index-doc_some key k n [] h = absurd (cc h)
index-doc_some key k n (d ∷ ds) h = elim (Bool-cases (is_id (key_in key d) k)) [
  | inl this ↦ (d, rw (this) refl)
  | inr skip ↦ elim (Option-cases (index_of key k ds)) [
    | inl absent ↦ absurd (cc (rw (skip, absent) at h))
    | inr (m, there) ↦ (let (x, g) = index-doc_some key k m ds there in (x, rw (skip) g))
  ]
]

-- a run grows by a document, and does this to the documents
pub record Grows (r r' : Run) (id : String) (d : Doc) : Type 0 where
  pub same_kind : r'.kind ≡ r.kind
  pub same_key : r'.primary_key ≡ r.primary_key
  pub indexed : Indexed r'
  pub effects :
      (k : String) (b : Option Fields) → effect r' k b ≡ written r.kind id d k (effect r k b)

append-Grows :
    (r : Run) (id : String) (d : Doc)
    → Writes r.kind
    → Indexed r
    → key_in r.primary_key d ≡ some id
    → Dict.get id r.pos ≡ none
    → Grows r (record r { pos = Dict.put id (length r.docs) r.pos; docs = r.docs ++ (d ∷ []) }) id d
append-Grows r id d w ix h absent =
    let gone = sym (ix.docs_at w id) ∙ absent in
    record {
      same_kind = refl;
      same_key = refl;
      indexed = record {
        docs_at = λ v k.
            get-put id k (length r.docs) r.pos
            ∙ ap (λ o. if str_eq id k then some (length r.docs) else o) (ix.docs_at w k)
            ∙ sym (append-index r.primary_key id d r.docs k h gone).0;
        unique = λ v. append-Distinct r.primary_key id d r.docs h gone (ix.unique w);
        ids_at = λ v. absurd (not_deletes r.kind w v);
      };
      effects = λ k b.
          effect-Writes
            (record r { pos = Dict.put id (length r.docs) r.pos; docs = r.docs ++ (d ∷ []) }) k b w
          ∙ ap (λ o. write_found r.kind o b) (append-index r.primary_key id d r.docs k h gone).1
          ∙ elim (Bool-cases (str_eq id k)) [
            | inl same ↦ rw (same) (
                ap (write r.kind d) (
                  sym (
                    effect-Writes r k b w
                    ∙ ap (λ o. write_found r.kind o b)
                        (subst (λ j. doc_of r.primary_key j r.docs ≡ none) ((eq_iff id k).0 same)
                          (index-doc_none r.primary_key id r.docs gone)))))
            | inr n ↦ rw (n) (sym (effect-Writes r k b w))
          ];
    }

modify-Grows :
    (r : Run) (id : String) (d : Doc) (n : ℕ)
    → Writes r.kind
    → Indexed r
    → key_in r.primary_key d ≡ some id
    → Dict.get id r.pos ≡ some n
    → Grows r (record r { docs = modify n (stepped r.kind d) r.docs }) id d
modify-Grows r id d n w ix h here =
    let at = sym (ix.docs_at w id) ∙ here in
    let changed = λ (k : String).
      modify-Modified r.primary_key id (stepped r.kind d)
        (λ old. stepped-key r.kind r.primary_key id d old h) n r.docs k at in
    let (old, there) = index-doc_some r.primary_key id n r.docs at in
    record {
      same_kind = refl;
      same_key = refl;
      indexed = record {
        docs_at = λ v k. ix.docs_at w k ∙ sym (changed k).0;
        unique = λ v.
            modify-Distinct r.primary_key id (stepped r.kind d)
              (λ old. stepped-key r.kind r.primary_key id d old h) n r.docs at (ix.unique w);
        ids_at = λ v. absurd (not_deletes r.kind w v);
      };
      effects = λ k b.
          effect-Writes (record r { docs = modify n (stepped r.kind d) r.docs }) k b w
          ∙ ap (λ o. write_found r.kind o b) (changed k).1
          ∙ elim (Bool-cases (str_eq id k)) [
            | inl same ↦ rw (same) (
                ap (λ o. write_found r.kind (found (stepped r.kind d) o) b) there
                ∙ write-stepped r.kind d old b
                ∙ ap (write r.kind d) (
                    sym (
                      effect-Writes r k b w
                      ∙ ap (λ o. write_found r.kind o b)
                          (subst (λ j. doc_of r.primary_key j r.docs ≡ some old)
                            ((eq_iff id k).0 same) there))))
            | inr m ↦ rw (m) (sym (effect-Writes r k b w))
          ];
    }

stepped-eq :
    (kind : RunKind) (d : Doc)
    → (if is_partial kind then (λ old. merge old d) else (λ old. d)) ≡ stepped kind d
stepped-eq replaces d = refl
stepped-eq partially d = refl
stepped-eq deletes d = refl
stepped-eq clears d = refl

pub add_doc-Grows :
    (r : Run) (id : String) (d : Doc)
    → Writes r.kind
    → Indexed r
    → key_in r.primary_key d ≡ some id
    → Grows r (add_doc id d r) id d
unfolding add_doc doc_at
add_doc-Grows r id d w ix h = elim (Option-cases (Dict.get id r.pos)) [
  | inl absent ↦
      subst (λ o. Grows r (doc_at o id d r) id d) (sym absent) (append-Grows r id d w ix h absent)
  | inr (n, here) ↦
      subst (λ o. Grows r (doc_at o id d r) id d) (sym here)
        (subst (λ f. Grows r (record r { docs = modify n f r.docs }) id d)
          (sym (stepped-eq r.kind d)) (modify-Grows r id d n w ix h here))
]

any-snoc :
    (k id : String) (ids : List String)
    → any (str_eq k) (ids ++ (id ∷ [])) ≡ (any (str_eq k) ids || str_eq k id)
any-snoc k id [] = ground arith
any-snoc k id (j ∷ ids) = ground (arith, any-snoc k id ids)

-- a run of deletes and one more key
pub record Removes (r r' : Run) (id : String) : Type 0 where
  pub same_kind : r'.kind ≡ deletes
  pub indexed : Indexed r'
  pub effects : (k : String) → any (str_eq k) r'.ids ≡ (any (str_eq k) r.ids || str_eq k id)

pub add_id-Removes :
    (r : Run) (id : String) → r.kind ≡ deletes → Indexed r → Removes r (add_id id r) id
unfolding add_id id_at
add_id-Removes r id w ix = elim (Option-cases (Dict.get id r.pos)) [
  | inl absent ↦
      subst (λ o. Removes r (id_at o id r) id) (sym absent)
        (record {
          same_kind = w;
          indexed = record {
            docs_at = λ v. absurd (not_deletes r.kind v w);
            unique = λ v. absurd (not_deletes r.kind v w);
            ids_at = λ v k.
                ap is_some (get-put id k (length r.ids) r.pos)
                ∙ put_some id k (length r.ids) (Dict.get k r.pos)
                ∙ ap (λ b. b || str_eq k id) (ix.ids_at w k)
                ∙ sym (any-snoc k id r.ids);
          };
          effects = λ k. any-snoc k id r.ids;
        })
  | inr (n, here) ↦
      subst (λ o. Removes r (id_at o id r) id) (sym here)
        (record {
          same_kind = w;
          indexed = ix;
          effects = λ k. elim (Bool-cases (str_eq k id)) [
            | inr m ↦ rw (m) (ground arith)
            | inl same ↦
                (let held : any (str_eq k) r.ids ≡ true =
                    sym (ix.ids_at w k)
                    ∙ subst (λ j. is_some (Dict.get j r.pos) ≡ true) (sym ((eq_iff k id).0 same))
                        (ap is_some here) in
                  rw (same, held) refl)
          ];
        })
]
  where
    put_some :
        (id k : String) (n : ℕ) (o : Option ℕ)
        → is_some (if str_eq id k then some n else o) ≡ (is_some o || str_eq k id)
    put_some id k n o = elim (Bool-cases (str_eq id k)) [
      | inl same ↦ rw (same) (ground (arith, eq_iff id k, eq_iff k id))
      | inr m ↦ rw (m) (ground (arith, eq_iff id k, eq_iff k id))
    ]
