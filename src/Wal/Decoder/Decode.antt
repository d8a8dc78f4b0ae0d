-- ===== src/Wal/Decoder/Decode.antt =====
-- wal/decoder.go: Decode, decodeWALData and decodeTuple.
pub mod Heard
pub mod Acks
pub mod Rows
use Prim.Native.String.{◌++◌ as ◌<>◌}
use gtc.Base.{
  ℕ, zero, suc, ◌+◌, String, Bool, true, false, List, [], ◌∷◌, ◌++◌, Option, none, some, ◌==◌,
  if◌then◌else◌,
}
use gtc.Base.Dict
use gtc.Base.Dict.{Dict}
use gtc.Domain.Errors.{Error, message}
use gtc.Domain.Event.{CdcEvent, Operation, insert, update, delete, truncate, Value, Row, null, str}
use gtc.Domain.Schema.{SchemaChange}
use gtc.Dlq.Store.{Answer, got, failed}
use gtc.Wal.Decoder.{
  Library, Column, Relation, Tuple, TupleColumn, null_column, toast_column, text_column, unknown,
  Message, begin, commit, relation_message, insert_row, update_row, delete_row, truncate_tables,
  logical, streamed, unused, Keepalive, XLogData, BackendMessage, copy_data, other_message, Outcome,
  ok, err, panics, then_do, Decoder, TxnState, DecodeResult, no_result, store_relation,
}
use gtc.Wal.Decoder.Diff.{diff_relation}

module _ (lib : Library) where
  -- DecodeText, with the OIDs of uuid and numeric
  decode_text : ℕ → String → Answer Value
  decode_text oid data_text =
      if oid == 2950
      then got (str data_text)
      else if oid == 1700
      then got (str data_text)
      else elim (lib.type_for_oid oid) [
        | some name ↦ lib.decode_value oid data_text
        | none ↦ got (str data_text)
      ]

  -- the value of a text column: the text itself where decoding fails
  text_value : String → Answer Value → Value
  text_value s (got v) = v
  text_value s (failed e) = str s

  -- one column of decodeTuple
  pub put_column : Column → TupleColumn → Dict Value × List String → Dict Value × List String
  unfolding text_value decode_text
  put_column c null_column (values, toast) = (Dict.put c.name null values, toast)
  put_column c toast_column (values, toast) = (values, toast ++ c.name ∷ [])
  put_column c unknown (values, toast) = (values, toast)
  put_column c (text_column s) (values, toast) =
      (Dict.put c.name (text_value s (decode_text c.data_type s)) values, toast)

  -- the loop of decodeTuple: rel.Columns[idx] is out of range where the tuple has more columns
  pub decode_columns :
      List Column → List TupleColumn → Dict Value × List String → Outcome (Dict Value × List String)
  unfolding put_column
  decode_columns cs [] r = ok r
  decode_columns [] (t ∷ ts) r = panics
  decode_columns (c ∷ cs) (t ∷ ts) r = decode_columns cs ts (put_column c t r)

  -- decodeTuple
  pub decode_tuple : Tuple → Relation → Outcome (Row × List String)
  unfolding decode_columns
  decode_tuple none rel = ok (none, [])
  decode_tuple (some ts) rel =
      then_do (decode_columns rel.columns ts ([], [])) (λ r. ok (some r.0, r.1))

  -- newEvent
  pub new_event : TxnState → ℕ → Operation → Relation → Row → Row → List String → CdcEvent
  new_event txn lsn op rel old new toast = record {
    id = lib.lsn_text lsn;
    operation = op;
    schema = rel.namespace;
    table = rel.relation_name;
    old_data = old;
    new_data = new;
    unchanged_toast_columns = toast;
    metadata = record {
      lsn = lib.lsn_text lsn;
      transaction_id = txn.xid;
      timestamp = txn.commit_time;
    };
  }

  -- relation
  pub relation : Decoder → ℕ → Outcome Relation
  relation d id = elim (d.relations id) [
    | some rel ↦ ok rel
    | none ↦ err (message ("no relation message received for relation ID " <> lib.number_text id))
  ]

  pub with_event : CdcEvent → DecodeResult
  with_event e = record no_result { events = e ∷ [] }

  -- the loop over the tables of a Truncate, from index i
  pub truncated : Decoder → ℕ → ℕ → List ℕ → Outcome (List CdcEvent)
  unfolding relation new_event
  truncated d lsn i [] = ok []
  truncated d lsn i (id ∷ ids) = then_do (relation d id) (λ rel.
      then_do (truncated d lsn (suc i) ids) (λ es.
        (let e = new_event d.txn lsn truncate rel none none [] in
          ok (record e { id = lib.lsn_text lsn <> "-" <> lib.number_text i } ∷ es))))

  changes_of : Decoder → ℕ → Relation → List SchemaChange
  unfolding diff_relation
  changes_of d lsn rel = elim (d.relations rel.relation_id) [
    | none ↦ []
    | some prev ↦ elim (diff_relation lib d.txn lsn prev rel) [
      | none ↦ []
      | some change ↦ change ∷ []
    ]
  ]

  inserted : Decoder → ℕ → Relation → Row × List String → DecodeResult
  unfolding with_event new_event
  inserted d lsn rel r = with_event (new_event d.txn lsn insert rel none r.0 [])

  updated : Decoder → ℕ → Relation → Row × List String → Row × List String → DecodeResult
  unfolding with_event new_event
  updated d lsn rel new old = with_event (new_event d.txn lsn update rel old.0 new.0 new.1)

  deleted : Decoder → ℕ → Relation → Row × List String → DecodeResult
  unfolding with_event new_event
  deleted d lsn rel old = with_event (new_event d.txn lsn delete rel old.0 none [])

  -- decodeWALData after ParseV2
  pub decode_message : Message → ℕ → Decoder → Decoder × Outcome DecodeResult
  unfolding changes_of inserted updated deleted truncated decode_tuple relation store_relation
  decode_message (begin xid commit_time final_lsn) lsn d = (
    record d {
      txn = record { in_txn = true; xid = xid; commit_time = commit_time; final_lsn = final_lsn };
    },
    ok no_result,
  )
  decode_message (commit end_lsn) lsn d = (
    record d { txn = record d.txn { in_txn = false } },
    ok (record no_result { ack_lsn = end_lsn }),
  )
  decode_message (relation_message rel) lsn d =
      (store_relation rel d, ok (record no_result { schema_changes = changes_of d lsn rel }))
  decode_message (insert_row id tuple) lsn d = (
    d,
    then_do (relation d id)
        (λ rel. then_do (decode_tuple tuple rel) (λ r. ok (inserted d lsn rel r))),
  )
  decode_message (update_row id old new) lsn d = (
    d,
    then_do (relation d id) (λ rel.
        then_do (decode_tuple new rel)
          (λ r. then_do (decode_tuple old rel) (λ before. ok (updated d lsn rel r before)))),
  )
  decode_message (delete_row id old) lsn d = (
    d,
    then_do (relation d id) (λ rel. then_do (decode_tuple old rel) (λ r. ok (deleted d lsn rel r))),
  )
  decode_message (truncate_tables ids) lsn d =
      (d, then_do (truncated d lsn 0 ids) (λ es. ok (record no_result { events = es })))
  decode_message (logical m) lsn d = (d, ok (record no_result { message = some m }))
  decode_message (streamed kind) lsn d = (
    d,
    err (
        message ("unexpected streamed-transaction message " <> kind <> " (streaming is disabled)")),
  )
  decode_message unused lsn d = (d, ok no_result)

  pub decode_wal_data : Answer Message → ℕ → Decoder → Decoder × Outcome DecodeResult
  unfolding decode_message
  decode_wal_data (failed e) lsn d = (d, err e)
  decode_wal_data (got m) lsn d = decode_message m lsn d

  pub decode_xlog : Answer XLogData → Decoder → Decoder × Outcome DecodeResult
  unfolding decode_wal_data
  decode_xlog (failed e) d = (d, err e)
  decode_xlog (got x) d =
      (let (d', r) = decode_wal_data (lib.parse_message x.wal_data) x.wal_start d in
        (d', then_do r (λ v. ok (record v { server_wal_end = x.server_wal_end }))))

  pub decode_keepalive : Answer Keepalive → Decoder → Outcome DecodeResult
  decode_keepalive (failed e) d = err e
  decode_keepalive (got k) d = ok (record no_result {
    ack_lsn = (if d.txn.in_txn then 0 else k.server_wal_end);
    server_wal_end = k.server_wal_end;
    request_reply = k.reply_requested;
  })

  -- Decode: 'k' is a keepalive and 'w' is WAL data
  pub decode : BackendMessage → Decoder → Decoder × Outcome DecodeResult
  unfolding decode_xlog decode_keepalive
  decode other_message d = (d, ok no_result)
  decode (copy_data tag rest) d =
      if tag == 107
      then (d, decode_keepalive (lib.parse_keepalive rest) d)
      else if tag == 119
      then decode_xlog (lib.parse_xlog_data rest) d
      else (d, ok no_result)
