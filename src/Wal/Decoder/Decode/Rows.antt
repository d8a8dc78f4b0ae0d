-- ===== src/Wal/Decoder/Decode/Rows.antt =====
-- wal/decoder.go, decodeTuple: which columns a decoded row has, and which it reports as unchanged.
use gtc.Base.{
  ◌≡◌, refl, sym, ap, ◌∙◌, ◌⊎◌, inl, inr, String, str_eq, eq_iff, true, Bool-cases, List, [], ◌∷◌,
  ◌++◌, append-nil, append_assoc, none, some, is_some, In, arith, if◌then◌else◌,
}
use gtc.Base.Dict
use gtc.Base.Dict.{Dict, get-put}
use gtc.Domain.Event.{Value, null}
use gtc.Wal.Decoder.{
  Library, Column, Relation, TupleColumn, null_column, toast_column, text_column, unknown, Outcome,
  ok, err, panics,
}
use gtc.Wal.Decoder.Decode.{put_column, decode_columns, decode_tuple, decode_text, text_value}
use gtc.Wal.Decoder.Decode.Acks.{Holds, Holds-then_do}

-- The names of the columns that the tuple has a value or NULL for, and of those it marks as unchanged TOAST.
abbrev pub written : List Column → List TupleColumn → List String
written [] ts = []
written (c ∷ cs) [] = []
written (c ∷ cs) (null_column ∷ ts) = c.name ∷ written cs ts
written (c ∷ cs) (text_column s ∷ ts) = c.name ∷ written cs ts
written (c ∷ cs) (toast_column ∷ ts) = written cs ts
written (c ∷ cs) (unknown ∷ ts) = written cs ts

abbrev pub toasted : List Column → List TupleColumn → List String
toasted [] ts = []
toasted (c ∷ cs) [] = []
toasted (c ∷ cs) (null_column ∷ ts) = toasted cs ts
toasted (c ∷ cs) (text_column s ∷ ts) = toasted cs ts
toasted (c ∷ cs) (toast_column ∷ ts) = c.name ∷ toasted cs ts
toasted (c ∷ cs) (unknown ∷ ts) = toasted cs ts

abbrev pub Present : String → Dict Value → Type 0
Present n m = is_some (Dict.get n m) ≡ true

abbrev pub Absent : String → Dict Value → Type 0
Absent n m = Dict.get n m ≡ none

-- What the loop makes of the columns and the names it starts with.
abbrev Reads :
    List String → List String → Dict Value → List String → Dict Value × List String → Type 0
Reads ws us m l r =
    (r.1 ≡ l ++ us)
    × ((n : String)
        → (In n ws → Present n r.0)
          × (Present n m → Present n r.0)
          × (Absent n m → (In n ws → ⊥) → Absent n r.0))

Present-put :
    (n c : String) (v : Value) (m : Dict Value) → (n ≡ c) ⊎ Present n m → Present n (Dict.put c v m)
Present-put n c v m h = elim (Bool-cases (str_eq c n)) [
  | inl q ↦ ap is_some (get-put c n v m) ∙ ap (λ b. is_some (if b then some v else Dict.get n m)) q
  | inr q ↦
      ap is_some (get-put c n v m)
      ∙ ap (λ b. is_some (if b then some v else Dict.get n m)) q
      ∙ (elim h [ inl e ↦ absurd (ground (arith, eq_iff c n)) | inr p ↦ p ])
]

Absent-put :
    (n c : String) (v : Value) (m : Dict Value)
    → (n ≡ c → ⊥)
    → Absent n m
    → Absent n (Dict.put c v m)
Absent-put n c v m d h = elim (Bool-cases (str_eq c n)) [
  | inl q ↦ absurd (d (ground (arith, eq_iff c n)))
  | inr q ↦ get-put c n v m ∙ ap (λ b. if b then some v else Dict.get n m) q ∙ h
]

-- one more column with a value in front
Reads-put :
    (ws us l : List String) (c : String) (v : Value) (m : Dict Value) (r : Dict Value × List String)
    → Reads ws us (Dict.put c v m) l r
    → Reads (c ∷ ws) us m l r
Reads-put ws us l c v m r (u, f) = (
  u,
  λ n. (
    (λ i. elim i [ inl e ↦ (f n).1 (Present-put n c v m (inl e)) | inr j ↦ (f n).0 j ]),
    (λ p. (f n).1 (Present-put n c v m (inr p))),
    (λ a d. (f n).2 (Absent-put n c v m (λ e. d (inl e)) a) (λ i. d (inr i))),
  ),
)

Holds-map :
    {A : Type 0} (P Q : A → Type 0) (f : (a : A) → P a → Q a) (o : Outcome A)
    → Holds P o
    → Holds Q o
Holds-map P Q f (ok a) h = f a h
Holds-map P Q f (err e) h = tt
Holds-map P Q f panics h = tt

module _ (lib : Library) where
  decode_columns-Reads :
      (cs : List Column) (ts : List TupleColumn) (m : Dict Value) (l : List String)
      → Holds (Reads (written cs ts) (toasted cs ts) m l) (decode_columns lib cs ts (m, l))
  unfolding decode_columns put_column
  decode_columns-Reads [] [] m l = (sym (append-nil l), λ n. (λ i. absurd i, λ p. p, λ a d. a))
  decode_columns-Reads (c ∷ cs) [] m l =
      (sym (append-nil l), λ n. (λ i. absurd i, λ p. p, λ a d. a))
  decode_columns-Reads [] (t ∷ ts) m l = tt
  decode_columns-Reads (c ∷ cs) (unknown ∷ ts) m l = decode_columns-Reads cs ts m l
  decode_columns-Reads (c ∷ cs) (null_column ∷ ts) m l =
      Holds-map _ _ (Reads-put (written cs ts) (toasted cs ts) l c.name null m)
        (decode_columns lib cs ts (Dict.put c.name null m, l))
        (decode_columns-Reads cs ts (Dict.put c.name null m) l)
  decode_columns-Reads (c ∷ cs) (text_column s ∷ ts) m l =
      (let v = text_value lib s (decode_text lib c.data_type s) in
        Holds-map _ _ (Reads-put (written cs ts) (toasted cs ts) l c.name v m)
          (decode_columns lib cs ts (Dict.put c.name v m, l))
          (decode_columns-Reads cs ts (Dict.put c.name v m) l))
  decode_columns-Reads (c ∷ cs) (toast_column ∷ ts) m l =
      Holds-map _ _ (λ r h. (h.0 ∙ append_assoc l (c.name ∷ []) (toasted cs ts), h.1))
        (decode_columns lib cs ts (m, l ++ c.name ∷ []))
        (decode_columns-Reads cs ts m (l ++ c.name ∷ []))

  -- When decodeTuple returns for a tuple that is there, it returns a row, which has exactly the columns with
  -- a value or NULL, and reports exactly those marked as unchanged TOAST, in order.
  pub decode_tuple-columns :
      (ts : List TupleColumn) (rel : Relation)
      → Holds
          (λ r.
            (m : Dict Value) × (r.0 ≡ some m)
            × (r.1 ≡ toasted rel.columns ts)
            × ((n : String)
                → (In n (written rel.columns ts) → Present n m)
                  × ((In n (written rel.columns ts) → ⊥) → Absent n m)))
          (decode_tuple lib (some ts) rel)
  unfolding decode_tuple Dict.get
  decode_tuple-columns ts rel =
      Holds-then_do (Reads (written rel.columns ts) (toasted rel.columns ts) [] []) _
        (decode_columns lib rel.columns ts ([], [])) _ (decode_columns-Reads rel.columns ts [] [])
        (λ r h. (r.0, refl, h.0, λ n. ((h.1 n).0, (h.1 n).2 refl)))
