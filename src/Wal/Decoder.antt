-- ===== src/Wal/Decoder.antt =====
-- internal/adapters/primary/wal/decoder.go: from the messages of the replication stream to events, schema
-- changes and acknowledgements. The parsers are pglogrepl's and the values pgtype's: parameters here.
pub mod Diff
pub mod Decode
use Prim.Native.String.{◌++◌ as ◌<>◌}
use gtc.Base.{
  ℕ, zero, suc, ◌+◌, ◌%◌, String, str_eq, Bool, true, false, not, ◌&&◌, List, [], ◌∷◌, ◌++◌, map,
  keep, Option, none, some, ◌==◌, if◌then◌else◌, is_some,
}
use gtc.Base.Dict
use gtc.Base.Dict.{Dict}
use gtc.Domain.Errors.{Error, message}
use gtc.Domain.Event.{CdcEvent, Operation, Value, Row, null, str}
use gtc.Domain.Event
use gtc.Domain.Schema.{
  SchemaChange, ColumnDef, ColumnTypeChange, Kind, column_added, column_dropped,
  column_type_changed, key_changed, replica_identity_changed, table_renamed, equal_strings,
}
use gtc.Dlq.Store.{Answer, got, failed}

pub record LogicalMessage : Type 0 where
  pub prefix : String
  pub content : String
  pub lsn : ℕ

pub record DecodeResult : Type 0 where
  pub events : List CdcEvent
  pub schema_changes : List SchemaChange
  pub message : Option LogicalMessage
  pub ack_lsn : ℕ
  pub server_wal_end : ℕ
  pub request_reply : Bool

abbrev pub no_result : DecodeResult
no_result = record {
  events = [];
  schema_changes = [];
  message = none;
  ack_lsn = 0;
  server_wal_end = 0;
  request_reply = false;
}

-- pglogrepl.RelationMessageColumn and RelationMessageV2; the byte ReplicaIdentity is a string of one character.
pub record Column : Type 0 where
  pub name : String
  pub data_type : ℕ
  pub flags : ℕ

pub record Relation : Type 0 where
  pub relation_id : ℕ
  pub namespace : String
  pub relation_name : String
  pub replica_identity : String
  pub columns : List Column

-- pglogrepl.TupleDataColumn by its DataType byte; `unknown` is any other byte.
pub data TupleColumn : Type 0 where
  null_column toast_column unknown : TupleColumn
  text_column : String → TupleColumn

-- A *TupleData
abbrev pub Tuple : Type 0
Tuple = Option (List TupleColumn)

-- The messages of ParseV2; `streamed` is a StreamStart, StreamStop, StreamCommit or StreamAbort, and
-- `unused` any other one, such as Origin and Type.
pub data Message : Type 0 where
  begin : ℕ → ℕ → ℕ → Message
  commit : ℕ → Message
  relation_message : Relation → Message
  insert_row : ℕ → Tuple → Message
  update_row : ℕ → Tuple → Tuple → Message
  delete_row : ℕ → Tuple → Message
  truncate_tables : List ℕ → Message
  logical : LogicalMessage → Message
  streamed : String → Message
  unused : Message

pub record Keepalive : Type 0 where
  pub server_wal_end : ℕ
  pub reply_requested : Bool

pub record XLogData : Type 0 where
  pub wal_start : ℕ
  pub server_wal_end : ℕ
  pub wal_data : String

-- What the decoder calls: the parsers, the text of an LSN, the type map and its codecs.
pub record Library : Type 0 where
  pub parse_keepalive : String → Answer Keepalive
  pub parse_xlog_data : String → Answer XLogData
  pub parse_message : String → Answer Message
  pub lsn_text : ℕ → String
  pub number_text : ℕ → String
  pub type_for_oid : ℕ → Option String
  pub decode_value : ℕ → String → Answer Value

-- A pgproto3.BackendMessage: a CopyData by its first byte and the rest, or another message.
pub data BackendMessage : Type 0 where
  copy_data : ℕ → String → BackendMessage
  other_message : BackendMessage

-- The result of a call: a value, an error, or an index out of range.
pub data Outcome (A : Type 0) : Type 0 where
  ok : A → Outcome A
  err : Error → Outcome A
  panics : Outcome A

abbrev pub then_do : {A B : Type 0} → Outcome A → (A → Outcome B) → Outcome B
then_do (ok a) f = f a
then_do (err e) f = err e
then_do panics f = panics

pub record TxnState : Type 0 where
  pub in_txn : Bool
  pub xid : ℕ
  pub commit_time : ℕ
  pub final_lsn : ℕ

-- The map of the relations, as its lookup
pub record Decoder : Type 0 where
  pub relations : ℕ → Option Relation
  pub txn : TxnState

unfoldable pub new_decoder : Decoder
new_decoder = record {
  relations = λ id. none;
  txn = record { in_txn = false; xid = 0; commit_time = 0; final_lsn = 0 };
}

-- d.relations[id] = rel
pub store_relation : Relation → Decoder → Decoder
store_relation rel d = record d {
  relations = λ id. if id == rel.relation_id then some rel else d.relations id;
}

-- col.Flags&1 == 1
pub is_key : Column → Bool
is_key c = c.flags % 2 == 1

unfoldable pub key_columns : Relation → List String
unfolding is_key
key_columns rel = map (λ c. c.name) (keep is_key rel.columns)

-- prevCols and curCols
unfoldable pub by_name : List Column → Dict Column → Dict Column
by_name [] m = m
by_name (c ∷ cs) m = by_name cs (Dict.put c.name c m)
