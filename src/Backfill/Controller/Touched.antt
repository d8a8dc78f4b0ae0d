-- ===== src/Backfill/Controller/Touched.antt =====
-- backfill/coordinator.go, ObserveEvent: which key an event has on a table, said without the loop and its key lookup.
use Prim.Native.String.{◌++◌ as ◌<>◌}
use text.Mathlib.TextLemmas.{append_assoc}
use gtc.Base.{
  ◌≡◌, refl, sym, ap, ◌∙◌, inl, inr, String, str_eq, Bool, true, false, ◌&&◌, Option-cases, List,
  [], ◌∷◌, map, Option, none, some, is_some, if◌then◌else◌,
}
use gtc.Base.Dict
use gtc.Base.Dict.{Dict}
use gtc.Domain.Event.{CdcEvent, Operation, insert, update, delete, truncate, read, other, Value}
use gtc.Backfill.State.{TableRef}
use gtc.Backfill.Controller.{
  text_of, with_part, parts, joined, key_of_parts, pk_key_from_data, key_of_row, observed_row,
  observed_key,
}

abbrev pub of_table : CdcEvent → TableRef → Bool
of_table e t = str_eq e.schema t.schema && str_eq e.table t.table

-- The row that an event leaves in the table or, for a delete, takes out of it. It is not the row that an update
-- replaces; and a truncate has none, since the decoder gives it no data.
abbrev pub live_row : Operation → CdcEvent → Option (Dict Value)
live_row insert e = e.new_data
live_row update e = e.new_data
live_row delete e = e.old_data
live_row truncate e = e.new_data
live_row read e = e.new_data
live_row (other n) e = e.new_data

-- a row has all of the columns
abbrev pub has_all : Dict Value → List String → Bool
has_all m [] = true
has_all m (c ∷ cs) = is_some (Dict.get c m) && has_all m cs

abbrev pub cell : Option Value → String
cell none = ""
cell (some v) = text_of v

-- texts with the separator between them
abbrev pub separated : List String → String
separated [] = ""
separated (p ∷ []) = p
separated (p ∷ q ∷ ps) = p <> ("\u{1f}" <> separated (q ∷ ps))

-- The row has all the columns, of which there is one, and the key is their texts in order.
abbrev pub has_key : List String → Dict Value → String → Bool
has_key [] m k = false
has_key (c ∷ cs) m k =
    has_all m (c ∷ cs) && str_eq k (separated (map (λ x. cell (Dict.get x m)) (c ∷ cs)))

abbrev pub row_has_key : List String → Option (Dict Value) → String → Bool
row_has_key pk none k = false
row_has_key pk (some m) k = has_key pk m k

-- The event is one of this table, and the row that it leaves or takes out has this key.
abbrev pub touches : List String → CdcEvent → TableRef → String → Bool
touches pk e t k = of_table e t && row_has_key pk (live_row e.operation e) k

abbrev pub is_same_key : Option String → String → Bool
is_same_key none k = false
is_same_key (some j) k = str_eq k j

-- pkKeyFromData finds that key
parts-map :
    (m : Dict Value) (cs : List String)
    → parts m cs ≡ (if has_all m cs then some (map (λ x. cell (Dict.get x m)) cs) else none)
unfolding parts with_part
parts-map m [] = refl
parts-map m (c ∷ cs) = elim (Option-cases (Dict.get c m)) [
  | inl absent ↦ rw (absent) refl
  | inr (v, here) ↦
      rw (here, parts-map m cs) (in_both v (map (λ x. cell (Dict.get x m)) cs) (has_all m cs))
]
  where
    in_both :
        (v : Value) (ps : List String) (b : Bool)
        → with_part (some v) (if b then some ps else none)
          ≡ (if b then some (text_of v ∷ ps) else none)
    in_both v ps true = refl
    in_both v ps false = refl

joined-prefix : (a b : String) (ps : List String) → joined (a <> b) ps ≡ a <> joined b ps
unfolding joined
joined-prefix a b [] = refl
joined-prefix a b (p ∷ ps) =
    ap (λ x. joined x ps) (append_assoc a b ("\u{1f}" <> p))
    ∙ joined-prefix a (b <> ("\u{1f}" <> p)) ps

joined-separated : (p : String) (ps : List String) → joined p ps ≡ separated (p ∷ ps)
unfolding joined
joined-separated p [] = refl
joined-separated p (q ∷ ps) =
    joined-prefix p ("\u{1f}" <> q) ps
    ∙ ap (λ x. p <> x)
        (joined-prefix "\u{1f}" q ps ∙ ap (λ x. "\u{1f}" <> x) (joined-separated q ps))

key-has_key :
    (pk : List String) (m : Dict Value) (k : String)
    → has_key pk m k ≡ is_same_key (pk_key_from_data m pk) k
unfolding pk_key_from_data key_of_parts parts
key-has_key [] m k = refl
key-has_key (c ∷ cs) m k =
    tested (has_all m (c ∷ cs))
    ∙ ap (λ o. is_same_key (key_of_parts o) k) (sym (parts-map m (c ∷ cs)))
  where
    tested :
        (b : Bool)
        → (b && str_eq k (separated (map (λ x. cell (Dict.get x m)) (c ∷ cs))))
          ≡ is_same_key
              (key_of_parts (if b then some (map (λ x. cell (Dict.get x m)) (c ∷ cs)) else none))
              k
    tested false = refl
    tested true =
        ap (str_eq k)
          (sym (joined-separated (cell (Dict.get c m)) (map (λ x. cell (Dict.get x m)) cs)))

row-row_has_key :
    (pk : List String) (o : Option (Dict Value)) (k : String)
    → row_has_key pk o k ≡ is_same_key (key_of_row o pk) k
unfolding key_of_row
row-row_has_key pk none k = refl
row-row_has_key pk (some m) k = key-has_key pk m k

live-observed : (op : Operation) (e : CdcEvent) → live_row op e ≡ observed_row op e
live-observed insert e = refl
live-observed update e = refl
live-observed delete e = refl
live-observed truncate e = refl
live-observed read e = refl
live-observed (other n) e = refl

pub touches-observed :
    (pk : List String) (e : CdcEvent) (t : TableRef) (k : String)
    → touches pk e t k ≡ (of_table e t && is_same_key (observed_key e pk) k)
unfolding observed_key
touches-observed pk e t k =
    ap (λ b. of_table e t && b)
      (ap (λ o. row_has_key pk o k) (live-observed e.operation e)
        ∙ row-row_has_key pk (observed_row e.operation e) k)
