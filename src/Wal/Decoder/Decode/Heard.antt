-- ===== src/Wal/Decoder/Decode/Heard.antt =====
-- wal/decoder.go: what the stream has said so far, and that the transaction state of the decoder follows it.
use gtc.Base.{
  ℕ, ◌≡◌, refl, ◌⊎◌, inl, inr, Bool, true, false, Bool-cases, List, [], ◌∷◌, ◌++◌, ◌==◌, arith,
  if◌then◌else◌,
}
use gtc.Dlq.Store.{Answer, got, failed}
use gtc.Wal.Decoder.{
  Library, Message, begin, commit, relation_message, insert_row, update_row, delete_row,
  truncate_tables, logical, streamed, unused, Keepalive, XLogData, BackendMessage, copy_data,
  other_message, Decoder, store_relation, new_decoder,
}
use gtc.Wal.Decoder.Decode.{decode_message, decode_wal_data, decode_xlog, decode}

-- What the stream has said, read off its messages alone, the latest first: the replication messages in it,
-- whether a transaction is open, and the id and commit time of the last Begin, both 0 before the first.
abbrev pub of_answer : Answer Message → List Message
of_answer (failed e) = []
of_answer (got m) = m ∷ []

abbrev pub of_xlog : Library → Answer XLogData → List Message
of_xlog lib (failed e) = []
of_xlog lib (got x) = of_answer (lib.parse_message x.wal_data)

-- a copy of which the first byte is 'w'
abbrev pub heard : Library → BackendMessage → List Message
heard lib other_message = []
heard lib (copy_data tag rest) = if tag == 119 then of_xlog lib (lib.parse_xlog_data rest) else []

abbrev pub messages : Library → List BackendMessage → List Message
messages lib [] = []
messages lib (raw ∷ history) = heard lib raw ++ messages lib history

abbrev pub opens : Message → Bool → Bool
opens (begin xid time lsn) before = true
opens (commit lsn) before = false
opens (relation_message rel) before = before
opens (insert_row id new) before = before
opens (update_row id old new) before = before
opens (delete_row id old) before = before
opens (truncate_tables ids) before = before
opens (logical m) before = before
opens (streamed kind) before = before
opens unused before = before

abbrev pub in_transaction : List Message → Bool
in_transaction [] = false
in_transaction (m ∷ ms) = opens m (in_transaction ms)

abbrev pub begun : Message → ℕ × ℕ → ℕ × ℕ
begun (begin xid time lsn) before = (xid, time)
begun (commit lsn) before = before
begun (relation_message rel) before = before
begun (insert_row id new) before = before
begun (update_row id old new) before = before
begun (delete_row id old) before = before
begun (truncate_tables ids) before = before
begun (logical m) before = before
begun (streamed kind) before = before
begun unused before = before

abbrev pub last_begin : List Message → ℕ × ℕ
last_begin [] = (0, 0)
last_begin (m ∷ ms) = begun m (last_begin ms)

abbrev pub end_of : Answer Keepalive → List ℕ
end_of (failed e) = []
end_of (got k) = k.server_wal_end ∷ []

-- The position is the end of a commit that the message is, or the server's end of WAL in a keepalive.
abbrev pub Told : Library → BackendMessage → ℕ → Type 0
Told lib other_message n = ⊥
Told lib (copy_data tag rest) n =
    ((tag ≡ 119) × (of_xlog lib (lib.parse_xlog_data rest) ≡ commit n ∷ []))
    ⊎ ((tag ≡ 107) × (end_of (lib.parse_keepalive rest) ≡ n ∷ []))

-- The decoder after the messages, the latest first.
unfoldable pub decoder_after : Library → List BackendMessage → Decoder
decoder_after lib [] = new_decoder
decoder_after lib (raw ∷ history) = (decode lib raw (decoder_after lib history)).0

abbrev pub stamp : Decoder → ℕ × ℕ
stamp d = (d.txn.xid, d.txn.commit_time)

-- The decoder's variables are what the stream has said.
pub record Follows (d : Decoder) (ms : List Message) : Type 0 where
  pub in_step : d.txn.in_txn ≡ in_transaction ms
  pub last : stamp d ≡ last_begin ms

module _ (lib : Library) where
  decode_message-Follows :
      (m : Message) (lsn : ℕ) (d : Decoder) (ms : List Message)
      → Follows d ms
      → Follows (decode_message lib m lsn d).0 (m ∷ ms)
  unfolding decode_message store_relation
  decode_message-Follows (begin xid t l) lsn d ms f = record { in_step = refl; last = refl }
  decode_message-Follows (commit l) lsn d ms f = record { in_step = refl; last = f.last }
  decode_message-Follows (relation_message rel) lsn d ms f = record {
    in_step = f.in_step;
    last = f.last;
  }
  decode_message-Follows (insert_row id new) lsn d ms f = record {
    in_step = f.in_step;
    last = f.last;
  }
  decode_message-Follows (update_row id old new) lsn d ms f = record {
    in_step = f.in_step;
    last = f.last;
  }
  decode_message-Follows (delete_row id old) lsn d ms f = record {
    in_step = f.in_step;
    last = f.last;
  }
  decode_message-Follows (truncate_tables ids) lsn d ms f = record {
    in_step = f.in_step;
    last = f.last;
  }
  decode_message-Follows (logical m) lsn d ms f = record { in_step = f.in_step; last = f.last }
  decode_message-Follows (streamed k) lsn d ms f = record { in_step = f.in_step; last = f.last }
  decode_message-Follows unused lsn d ms f = record { in_step = f.in_step; last = f.last }

  decode_wal_data-Follows :
      (a : Answer Message) (lsn : ℕ) (d : Decoder) (ms : List Message)
      → Follows d ms
      → Follows (decode_wal_data lib a lsn d).0 (of_answer a ++ ms)
  unfolding decode_wal_data
  decode_wal_data-Follows (failed e) lsn d ms f = f
  decode_wal_data-Follows (got m) lsn d ms f = decode_message-Follows m lsn d ms f

  decode_xlog-Follows :
      (a : Answer XLogData) (d : Decoder) (ms : List Message)
      → Follows d ms
      → Follows (decode_xlog lib a d).0 (of_xlog lib a ++ ms)
  unfolding decode_xlog
  decode_xlog-Follows (failed e) d ms f = f
  decode_xlog-Follows (got x) d ms f =
      decode_wal_data-Follows (lib.parse_message x.wal_data) x.wal_start d ms f

  pub decode-Follows :
      (raw : BackendMessage) (d : Decoder) (ms : List Message)
      → Follows d ms
      → Follows (decode lib raw d).0 (heard lib raw ++ ms)
  unfolding decode
  decode-Follows other_message d ms f = f
  decode-Follows (copy_data tag rest) d ms f = elim (Bool-cases (tag == 107)) [
    | inl p ↦ (let q : (tag == 119) ≡ false = ground (arith, p) in rw (p, q) f)
    | inr p ↦ elim (Bool-cases (tag == 119)) [
      | inl q ↦ rw (p, q) (decode_xlog-Follows (lib.parse_xlog_data rest) d ms f)
      | inr q ↦ rw (p, q) f
    ]
  ]

  pub decoder_after-Follows :
      (history : List BackendMessage) → Follows (decoder_after lib history) (messages lib history)
  unfolding decoder_after new_decoder
  decoder_after-Follows [] = record { in_step = refl; last = refl }
  decoder_after-Follows (raw ∷ history) =
      decode-Follows raw (decoder_after lib history) (messages lib history)
        (decoder_after-Follows history)
