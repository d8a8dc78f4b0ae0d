-- ===== src/Domain/Schema.antt =====
-- internal/core/domain/schema.go: columns and the changes that DDL makes to a published table.
use Prim.Native.String.{◌++◌ as ◌<>◌}
use gtc.Base.{
  ℕ, String, Bool, true, false, List, [], ◌∷◌, ◌++◌, map, if◌then◌else◌, str_eq, not, any,
}

pub data Kind : Type 0 where
  column_added column_dropped column_type_changed key_changed : Kind
  replica_identity_changed table_renamed : Kind

pub record ColumnDef : Type 0 where
  pub name : String
  pub type_name : String
  pub type_oid : ℕ
  pub part_of_key : Bool

pub record ColumnTypeChange : Type 0 where
  pub name : String
  pub before : ColumnDef
  pub after : ColumnDef

pub record SchemaChange : Type 0 where
  pub schema : String
  pub table : String
  pub relation_id : ℕ
  pub previous_schema : String
  pub previous_table : String
  pub added_columns : List ColumnDef
  pub dropped_columns : List ColumnDef
  pub changed_columns : List ColumnTypeChange
  pub key_columns : List String
  pub previous_key_columns : List String
  pub replica_identity : String
  pub previous_replica_identity : String
  pub kinds : List Kind
  pub lsn : String
  pub transaction_id : ℕ
  pub timestamp : ℕ

-- The cases of the switch in Breaking.
abbrev breaks : Kind → Bool
breaks column_added = false
breaks _ = true

unfoldable pub breaking : SchemaChange → Bool
breaking change = any breaks change.kinds

column_names : List ColumnDef → List String
column_names = map (λ c. c.name)

-- equalStrings of wal/decoder.go; slicesDiffer is its negation
unfoldable pub equal_strings : List String → List String → Bool
equal_strings [] [] = true
equal_strings [] (b ∷ bs) = false
equal_strings (a ∷ as') [] = false
equal_strings (a ∷ as') (b ∷ bs) = if str_eq a b then equal_strings as' bs else false

slices_differ : List String → List String → Bool
unfolding equal_strings
slices_differ a b = not (equal_strings a b)

-- strings.Join
pub join : String → List String → String
join sep [] = ""
join sep (s ∷ []) = s
join sep (s ∷ t ∷ ts) = s <> sep <> join sep (t ∷ ts)

-- if names := ...; len(names) > 0 { parts = append(parts, prefix + join) }
listed : String → List String → List String
unfolding join
listed prefix [] = []
listed prefix (n ∷ ns) = (prefix <> join ", " (n ∷ ns)) ∷ []

identity_part : SchemaChange → List String
unfolding slices_differ join
identity_part s =
    if not (str_eq s.previous_replica_identity "")
    then ("replica identity " <> s.previous_replica_identity <> "->" <> s.replica_identity) ∷ []
    else if slices_differ s.previous_key_columns s.key_columns
    then ("key [" <> join " " s.previous_key_columns <> "]->[" <> join " " s.key_columns <> "]")
      ∷ []
    else []

parts : SchemaChange → List String
unfolding listed identity_part column_names
parts s =
    (if str_eq s.previous_table ""
      then []
      else ("renamed from " <> s.previous_schema <> "." <> s.previous_table) ∷ [])
    ++ listed "added " (column_names s.added_columns)
    ++ listed "dropped " (column_names s.dropped_columns)
    ++ map (λ c. c.name <> " " <> c.before.type_name <> "->" <> c.after.type_name) s.changed_columns
    ++ identity_part s

summary_of : List String → String
unfolding join
summary_of [] = "no change"
summary_of (p ∷ ps) = join "; " (p ∷ ps)

unfoldable pub summary : SchemaChange → String
unfolding parts summary_of
summary s = summary_of (parts s)
