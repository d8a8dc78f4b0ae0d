-- ===== src/Domain/Event.antt =====
-- internal/core/domain/event.go, and the JSON form of Operation in dlq.go.
use Prim.Native.String.{◌++◌}
use gtc.Base.{ℕ, String, List, Option, str_eq, if◌then◌else◌}
use gtc.Base.Dict.{Dict}

-- The constants of the int type Operation, and any other int.
pub data Operation : Type 0 where
  insert update delete truncate read : Operation
  other : ℕ → Operation

unfoldable pub to_string : Operation → String
to_string insert = "INSERT"
to_string update = "UPDATE"
to_string delete = "DELETE"
to_string truncate = "TRUNCATE"
to_string read = "READ"
to_string (other n) = "UNKNOWN"

-- UnmarshalJSON, after encoding/json has read a string
unfoldable pub of_string : String → Operation
of_string s =
    if str_eq s "INSERT"
    then insert
    else if str_eq s "UPDATE"
    then update
    else if str_eq s "DELETE"
    then delete
    else if str_eq s "TRUNCATE"
    then truncate
    else if str_eq s "READ"
    then read
    else insert

-- A value of `any` in a row: nil, a Go string, or a value of another type with its %v text.
pub data Value : Type 0 where
  null : Value
  str : String → Value
  boxed : String → String → Value

-- A map[string]any that may be nil.
abbrev pub Row : Type 0
Row = Option (Dict Value)

pub record EventMetadata : Type 0 where
  pub lsn : String
  pub transaction_id : ℕ
  pub timestamp : ℕ

pub record CdcEvent : Type 0 where
  pub id : String
  pub operation : Operation
  pub schema : String
  pub table : String
  pub old_data : Row
  pub new_data : Row
  pub unchanged_toast_columns : List String
  pub metadata : EventMetadata

unfoldable pub full_table_name : CdcEvent → String
full_table_name e = e.schema ++ "." ++ e.table
