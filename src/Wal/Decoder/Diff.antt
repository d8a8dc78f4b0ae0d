-- ===== src/Wal/Decoder/Diff.antt =====
-- wal/decoder.go, diffRelation: what a new description of a table changes.
pub mod Unchanged
use Prim.Native.String.{◌++◌ as ◌<>◌}
use gtc.Base.{
  ℕ, String, str_eq, Bool, true, false, not, ◌&&◌, ◌||◌, List, [], ◌∷◌, ◌++◌, map, Option, none,
  some, ◌==◌, if◌then◌else◌, ltb, length,
}
use gtc.Base.Dict
use gtc.Base.Dict.{Dict}
use gtc.Domain.Schema.{
  SchemaChange, ColumnDef, ColumnTypeChange, Kind, column_added, column_dropped,
  column_type_changed, key_changed, replica_identity_changed, table_renamed, equal_strings,
}
use gtc.Wal.Decoder.{Library, Column, Relation, TxnState, is_key, key_columns, by_name}

module _ (lib : Library) where
  -- typeName
  pub type_name : ℕ → String
  type_name oid = elim (lib.type_for_oid oid) [
    | some name ↦ name
    | none ↦ "oid:" <> lib.number_text oid
  ]

  pub column_def : Column → ColumnDef
  unfolding type_name is_key
  column_def c = record {
    name = c.name;
    type_name = type_name c.data_type;
    type_oid = c.data_type;
    part_of_key = is_key c;
  }

  -- the first loop of diffRelation: what is added, and what changed its type
  pub added : Dict Column → List Column → List ColumnDef
  added prev [] = []
  added prev (c ∷ cs) =
      (let rest = added prev cs in
        elim (Dict.get c.name prev) [ none ↦ column_def c ∷ rest | some b ↦ rest ])

  pub retyped : Dict Column → List Column → List ColumnTypeChange
  retyped prev [] = []
  retyped prev (c ∷ cs) =
      (let rest = retyped prev cs in
        elim (Dict.get c.name prev) [
          | none ↦ rest
          | some b ↦
              if b.data_type == c.data_type
              then rest
              else record { name = c.name; before = column_def b; after = column_def c } ∷ rest
        ])

  -- the second loop
  pub dropped : Dict Column → List Column → List ColumnDef
  dropped cur [] = []
  dropped cur (c ∷ cs) =
      (let rest = dropped cur cs in
        elim (Dict.get c.name cur) [ none ↦ column_def c ∷ rest | some b ↦ rest ])

  -- the empty list is nil
  pub kind_if : Bool → Kind → List Kind
  kind_if test kind = if test then kind ∷ [] else []

  pub some_items : {A : Type 0} → List A → Bool
  some_items [] = false
  some_items (x ∷ xs) = true

  -- prev.Namespace != cur.Namespace || prev.RelationName != cur.RelationName
  pub renamed : Relation → Relation → Bool
  renamed prev cur =
      not (str_eq prev.namespace cur.namespace) || not (str_eq prev.relation_name cur.relation_name)

  pub identity_kinds : Relation → Relation → List Kind
  unfolding equal_strings
  identity_kinds prev cur =
      if not (str_eq prev.replica_identity cur.replica_identity)
      then replica_identity_changed ∷ []
      else (if not (equal_strings (key_columns prev) (key_columns cur))
          then key_changed ∷ []
          else [])

  pub kinds_of : Relation → Relation → List Kind
  unfolding kind_if some_items renamed identity_kinds added retyped dropped
  kinds_of prev cur =
      kind_if (renamed prev cur) table_renamed
      ++ (kind_if (some_items (added (by_name prev.columns []) cur.columns)) column_added
          ++ (kind_if (some_items (dropped (by_name cur.columns []) prev.columns)) column_dropped
              ++ (kind_if (some_items (retyped (by_name prev.columns []) cur.columns))
                    column_type_changed
                  ++ identity_kinds prev cur)))

  change_of : TxnState → ℕ → Relation → Relation → SchemaChange
  unfolding kinds_of
  change_of txn lsn prev cur = record {
    schema = cur.namespace;
    table = cur.relation_name;
    relation_id = cur.relation_id;
    previous_schema = (if renamed prev cur then prev.namespace else "");
    previous_table = (if renamed prev cur then prev.relation_name else "");
    added_columns = added (by_name prev.columns []) cur.columns;
    dropped_columns = dropped (by_name cur.columns []) prev.columns;
    changed_columns = retyped (by_name prev.columns []) cur.columns;
    key_columns = key_columns cur;
    previous_key_columns = key_columns prev;
    replica_identity = cur.replica_identity;
    previous_replica_identity =
        (if not (str_eq prev.replica_identity cur.replica_identity)
          then prev.replica_identity
          else "");
    kinds = kinds_of prev cur;
    lsn = lib.lsn_text (if lsn == 0 then txn.final_lsn else lsn);
    transaction_id = txn.xid;
    timestamp = txn.commit_time;
  }

  -- diffRelation
  unfoldable pub diff_relation : TxnState → ℕ → Relation → Relation → Option SchemaChange
  unfolding change_of
  diff_relation txn lsn prev cur =
      if some_items (kinds_of prev cur) then some (change_of txn lsn prev cur) else none
