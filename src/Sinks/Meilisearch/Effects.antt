-- ===== src/Sinks/Meilisearch/Effects.antt =====
-- meilisearch/sink.go: what events do to the documents of an index, one by one, and what a run does.
use gtc.Base.{
  ℕ, zero, suc, ◌≡◌, refl, sym, ap, ◌∙◌, inl, inr, String, str_eq, eq_iff, eq_refl, Bool, true,
  false, Bool-cases, Option-cases, List, [], ◌∷◌, ◌++◌, Option, none, some, is_some, any, length,
  arith, if◌then◌else◌,
}
use gtc.Base.Dict
use gtc.Base.Dict.{Dict, get-put}
use gtc.Domain.Event.{Value}
use gtc.Sinks.Meilisearch.{
  RunKind, replaces, partially, deletes, clears, Doc, Run, modify, merge, key_text, key_in,
}

-- A document is seen by its fields, and an index by its documents.
abbrev pub Fields : Type 0
Fields = String → Option Value

abbrev pub View : Type 0
View = String → Option Fields

abbrev pub or_else : Option Value → Option Value → Option Value
or_else none v = v
or_else (some x) v = some x

-- a document over what is there
abbrev pub over : Doc → Option Fields → Fields
over d none = λ f. Dict.get f d
over d (some b) = λ f. or_else (Dict.get f d) (b f)

abbrev pub write : RunKind → Doc → Option Fields → Option Fields
write replaces d b = some (λ f. Dict.get f d)
write partially d b = some (over d b)
write deletes d b = b
write clears d b = b

abbrev pub is_id : Option String → String → Bool
is_id none k = false
is_id (some id) k = str_eq id k

abbrev pub write_found : RunKind → Option Doc → Option Fields → Option Fields
write_found kind none b = b
write_found kind (some d) b = write kind d b

-- the first document with a key
unfoldable pub doc_of : String → String → List Doc → Option Doc
doc_of key k [] = none
doc_of key k (d ∷ ds) = if is_id (key_in key d) k then some d else doc_of key k ds

abbrev pub one_more : Option ℕ → Option ℕ
one_more none = none
one_more (some n) = some (suc n)

unfoldable pub index_of : String → String → List Doc → Option ℕ
index_of key k [] = none
index_of key k (d ∷ ds) = if is_id (key_in key d) k then some 0 else one_more (index_of key k ds)

-- Each document has a key, and no two have the same.
abbrev pub Distinct : String → List Doc → Type 0
Distinct key [] = Unit
Distinct key (d ∷ ds) =
    ((id : String) × (key_in key d ≡ some id) × (index_of key id ds ≡ none)) × Distinct key ds

-- what a run does to a document
abbrev pub effect_at : RunKind → Run → String → Option Fields → Option Fields
effect_at replaces r k b = write_found replaces (doc_of r.primary_key k r.docs) b
effect_at partially r k b = write_found partially (doc_of r.primary_key k r.docs) b
effect_at deletes r k b = if any (str_eq k) r.ids then none else b
effect_at clears r k b = none

abbrev pub effect : Run → String → Option Fields → Option Fields
effect r k b = effect_at r.kind r k b

abbrev pub Writes : RunKind → Type 0
Writes replaces = Unit
Writes partially = Unit
Writes deletes = ⊥
Writes clears = ⊥

-- the positions are those of the documents, whose keys are distinct, and the deleted keys those that have one
pub record Indexed (r : Run) : Type 0 where
  pub docs_at : Writes r.kind → (k : String) → Dict.get k r.pos ≡ index_of r.primary_key k r.docs
  pub unique : Writes r.kind → Distinct r.primary_key r.docs
  pub ids_at : r.kind ≡ deletes → (k : String) → is_some (Dict.get k r.pos) ≡ any (str_eq k) r.ids

pub merge-get :
    (m d : Doc) (f : String) → Dict.get f (merge m d) ≡ or_else (Dict.get f d) (Dict.get f m)
unfolding merge Dict.get
merge-get m [] f = refl
merge-get m ((k, v) ∷ d) f = get-put k f v (merge m d) ∙ elim (Bool-cases (str_eq k f)) [
  | inl same ↦ rw (same) refl
  | inr n ↦ rw (n) (merge-get m d f)
]

-- a merged document has the key of the later one
pub merge-key :
    (key : String) (m d : Doc) (id : String)
    → key_in key d ≡ some id
    → key_in key (merge m d) ≡ some id
unfolding key_in
merge-key key m d id h = elim (Option-cases (Dict.get key d)) [
  | inl absent ↦ absurd (cc (sym (ap key_text absent) ∙ h))
  | inr (v, here) ↦
      ap key_text (merge-get m d key ∙ ap (λ o. or_else o (Dict.get key m)) here)
      ∙ sym (ap key_text here)
      ∙ h
]

pub is_id-eq : (o : Option String) (k : String) → is_id o k ≡ true → o ≡ some k
is_id-eq none k h = absurd (cc h)
is_id-eq (some j) k h = ap some ((eq_iff j k).0 h)

pub first_is : (b : Bool) (o : Option ℕ) → (if b then some 0 else one_more o) ≡ some 0 → b ≡ true
first_is true o h = refl
first_is false none h = absurd (cc h)
first_is false (some n) h = absurd (cc h)

pub later_is :
    (b : Bool) (o : Option ℕ) (n : ℕ)
    → (if b then some 0 else one_more o) ≡ some (suc n)
    → (b ≡ false) × (o ≡ some n)
later_is true o n h = absurd (cc h)
later_is false none n h = absurd (cc h)
later_is false (some m) n h = (refl, cc h)

pub none_is :
    (b : Bool) (o : Option ℕ) → (if b then some 0 else one_more o) ≡ none → (b ≡ false) × (o ≡ none)
none_is true o h = absurd (cc h)
none_is false none h = (refl, refl)
none_is false (some m) h = absurd (cc h)

pub differ :
    (o : Option String) (id k : String)
    → is_id o id ≡ false
    → is_id o k ≡ true
    → str_eq id k ≡ false
differ o id k n this = elim (Bool-cases (str_eq id k)) [
  | inr m ↦ m
  | inl same ↦ absurd (cc (sym this ∙ ap (is_id o) (sym ((eq_iff id k).0 same)) ∙ n))
]

abbrev pub found : (Doc → Doc) → Option Doc → Option Doc
found f none = none
found f (some d) = some (f d)

module _ (key id : String) (f : Doc → Doc)
    (keyed : (old : Doc) → key_in key (f old) ≡ some id) where
  -- the documents with the one at the key changed
  abbrev pub Modified : List Doc → List Doc → String → Type 0
  Modified ds ds' k =
      (index_of key k ds' ≡ index_of key k ds)
      × (doc_of key k ds' ≡ (if str_eq id k then found f (doc_of key id ds) else doc_of key k ds))

  modify_here :
      (d : Doc) (ds : List Doc) (k : String)
      → key_in key d ≡ some id
      → Modified (d ∷ ds) (f d ∷ ds) k
  unfolding index_of doc_of
  modify_here d ds k here = rw (keyed d, here, eq_refl id) (refl, ground arith)

  modify_later :
      (d : Doc) (ds ds' : List Doc) (k : String)
      → is_id (key_in key d) id ≡ false
      → Modified ds ds' k
      → Modified (d ∷ ds) (d ∷ ds') k
  unfolding index_of doc_of
  modify_later d ds ds' k n (i, o) = elim (Bool-cases (is_id (key_in key d) k)) [
    | inl this ↦ rw (this, differ (key_in key d) id k n this) (refl, refl)
    | inr skip ↦ rw (skip, n) (ap one_more i, o)
  ]

  pub modify-Modified :
      (n : ℕ) (ds : List Doc) (k : String)
      → index_of key id ds ≡ some n
      → Modified ds (modify n f ds) k
  unfolding index_of modify
  modify-Modified n [] k h = absurd (cc h)
  modify-Modified zero (d ∷ ds) k h =
      modify_here d ds k
        (is_id-eq (key_in key d) id (first_is (is_id (key_in key d) id) (index_of key id ds) h))
  modify-Modified (suc n) (d ∷ ds) k h =
      let (not_here, later) = later_is (is_id (key_in key d) id) (index_of key id ds) n h in
      modify_later d ds (modify n f ds) k not_here (modify-Modified n ds k later)

more :
    (b : Bool) (n : ℕ) (o : Option ℕ)
    → one_more (if b then some n else o) ≡ (if b then some (suc n) else one_more o)
more true n o = refl
more false n o = refl

-- a document with a new key at the end
pub append-index :
    (key id : String) (x : Doc) (ds : List Doc) (k : String)
    → key_in key x ≡ some id
    → index_of key id ds ≡ none
    → (index_of key k (ds ++ (x ∷ []))
        ≡ (if str_eq id k then some (length ds) else index_of key k ds))
      × (doc_of key k (ds ++ (x ∷ [])) ≡ (if str_eq id k then some x else doc_of key k ds))
unfolding index_of doc_of
append-index key id x [] k h n = rw (h) (refl, refl)
append-index key id x (d ∷ ds) k h n =
    let (not_here, later) = none_is (is_id (key_in key d) id) (index_of key id ds) n in
    let (i, o) = append-index key id x ds k h later in
    elim (Bool-cases (is_id (key_in key d) k)) [
      | inl this ↦ rw (this, differ (key_in key d) id k not_here this) (refl, refl)
      | inr skip ↦ rw (skip) (ap one_more i ∙ more (str_eq id k) (length ds) (index_of key k ds), o)
    ]
