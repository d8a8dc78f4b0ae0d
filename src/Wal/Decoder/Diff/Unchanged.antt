-- ===== src/Wal/Decoder/Diff/Unchanged.antt =====
-- wal/decoder.go, diffRelation: when it reports nothing.
use gtc.Base.{
  ℕ, ◌≡◌, refl, ap, inl, inr, String, str_eq, eq_iff, Bool, true, false, Bool-cases, Option-cases,
  List, [], ◌∷◌, ◌++◌, none, some, All, arith, ◌==◌, is_some,
}
use gtc.Base.Dict
use gtc.Base.Dict.{Dict}
use gtc.Domain.Schema.{
  Kind, table_renamed, column_added, column_dropped, column_type_changed, equal_strings,
}
use gtc.Wal.Decoder.{Library, Column, Relation, TxnState, key_columns, by_name}
use gtc.Wal.Decoder.Diff.{
  added, retyped, dropped, some_items, kind_if, renamed, identity_kinds, kinds_of, diff_relation,
}

-- A column of this name was there, with the same type.
abbrev pub Same : Dict Column → Column → Type 0
Same prev c = (b : Column) × (Dict.get c.name prev ≡ some b) × (b.data_type ≡ c.data_type)

-- The two descriptions differ in nothing that consumers can see.
abbrev pub Unchanged : Relation → Relation → Type 0
Unchanged prev cur =
    (prev.namespace ≡ cur.namespace)
    × (prev.relation_name ≡ cur.relation_name)
    × (prev.replica_identity ≡ cur.replica_identity)
    × (key_columns prev ≡ key_columns cur)
    × All (Same (by_name prev.columns [])) cur.columns
    × All (λ c. is_some (Dict.get c.name (by_name cur.columns [])) ≡ true) prev.columns

equal_strings-eq : (a b : List String) → equal_strings a b ≡ true → a ≡ b
unfolding equal_strings
equal_strings-eq [] [] p = refl
equal_strings-eq [] (y ∷ b) p = absurd (ground arith)
equal_strings-eq (x ∷ a) [] p = absurd (ground arith)
equal_strings-eq (x ∷ a) (y ∷ b) p = ground (arith, eq_iff x y, equal_strings-eq a b)

module _ (lib : Library) where
  all_kept :
      (prev : Dict Column) (cs : List Column)
      → some_items lib (added lib prev cs) ≡ false
      → some_items lib (retyped lib prev cs) ≡ false
      → All (Same prev) cs
  unfolding added retyped some_items
  all_kept prev [] p q = tt
  all_kept prev (c ∷ cs) p q = elim (Option-cases (Dict.get c.name prev)) [
    | inl e ↦ absurd (ground (arith, rw (added, e) at p))
    | inr (b, e) ↦ elim (Bool-cases (b.data_type == c.data_type)) [
      | inl t ↦
          ((b, e, ground arith), all_kept prev cs (rw (added, e) at p) (rw (retyped, e, t) at q))
      | inr t ↦ absurd (ground (arith, rw (retyped, e, t) at q))
    ]
  ]

  none_dropped :
      (cur : Dict Column) (cs : List Column)
      → some_items lib (dropped lib cur cs) ≡ false
      → All (λ c. is_some (Dict.get c.name cur) ≡ true) cs
  unfolding dropped some_items
  none_dropped cur [] p = tt
  none_dropped cur (c ∷ cs) p = elim (Option-cases (Dict.get c.name cur)) [
    | inl e ↦ absurd (ground (arith, rw (dropped, e) at p))
    | inr (b, e) ↦ (ap is_some e, none_dropped cur cs (rw (dropped, e) at p))
  ]

  kind_if-none :
      (t : Bool) (k : Kind) (ks : List Kind)
      → some_items lib (kind_if lib t k ++ ks) ≡ false
      → (t ≡ false) × (some_items lib ks ≡ false)
  unfolding kind_if some_items
  kind_if-none true k ks p = absurd (ground arith)
  kind_if-none false k ks p = (refl, p)

  renamed-none :
      (prev cur : Relation)
      → renamed lib prev cur ≡ false
      → (prev.namespace ≡ cur.namespace) × (prev.relation_name ≡ cur.relation_name)
  unfolding renamed
  renamed-none prev cur p =
      ground
        (arith, eq_iff prev.namespace cur.namespace, eq_iff prev.relation_name cur.relation_name)

  identity_kinds-none :
      (prev cur : Relation)
      → some_items lib (identity_kinds lib prev cur) ≡ false
      → (prev.replica_identity ≡ cur.replica_identity) × (key_columns prev ≡ key_columns cur)
  unfolding identity_kinds some_items
  identity_kinds-none prev cur p =
      elim (Bool-cases (str_eq prev.replica_identity cur.replica_identity)) [
        | inr e ↦ absurd (ground (arith, rw (identity_kinds, e) at p))
        | inl e ↦ elim (Bool-cases (equal_strings (key_columns prev) (key_columns cur))) [
          | inr k ↦ absurd (ground (arith, rw (identity_kinds, e, k) at p))
          | inl k ↦ (
            ground (arith, eq_iff prev.replica_identity cur.replica_identity),
            equal_strings-eq (key_columns prev) (key_columns cur) k,
          )
        ]
      ]

  kinds_of-none :
      (prev cur : Relation) → some_items lib (kinds_of lib prev cur) ≡ false → Unchanged prev cur
  unfolding kinds_of
  kinds_of-none prev cur p =
      let (a, p₁) = kind_if-none (renamed lib prev cur) table_renamed _ p in
      let (b, p₂) =
        kind_if-none (some_items lib (added lib (by_name prev.columns []) cur.columns)) column_added
          _ p₁ in
      let (c, p₃) =
        kind_if-none (some_items lib (dropped lib (by_name cur.columns []) prev.columns))
          column_dropped _ p₂ in
      let (d, p₄) =
        kind_if-none (some_items lib (retyped lib (by_name prev.columns []) cur.columns))
          column_type_changed _ p₃ in
      let (ns, name) = renamed-none prev cur a in
      let (identity, keys) = identity_kinds-none prev cur p₄ in
      (
        ns,
        name,
        identity,
        keys,
        all_kept (by_name prev.columns []) cur.columns b d,
        none_dropped (by_name cur.columns []) prev.columns c,
      )

  -- When diffRelation reports no change, the two descriptions have the same table name and namespace, the
  -- same replica identity and key columns, each column of the new one was in the old one under its name with
  -- the same type, and no column of the old one is gone.
  pub diff_relation-Unchanged :
      (txn : TxnState) (lsn : ℕ) (prev cur : Relation)
      → diff_relation lib txn lsn prev cur ≡ none
      → Unchanged prev cur
  unfolding diff_relation
  diff_relation-Unchanged txn lsn prev cur p =
      elim (Bool-cases (some_items lib (kinds_of lib prev cur))) [
        | inl e ↦ absurd (ground (arith, rw (diff_relation, e) at p))
        | inr e ↦ kinds_of-none prev cur e
      ]
