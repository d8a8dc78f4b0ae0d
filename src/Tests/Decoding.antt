-- ===== src/Tests/Decoding.antt =====
-- wal/decoder.go: a table is described, a row is inserted in a transaction, and a keepalive arrives in it.
use gtc.Base.{
  ℕ, inl, String, str_eq, ◌≡◌, refl, true, false, List, [], ◌∷◌, none, some, if◌then◌else◌,
}
use gtc.Domain.Event.{str}
use gtc.Dlq.Store.{got}
use gtc.Base.Dict
use gtc.Wal.Decoder.{
  by_name, key_columns, Library, Relation, Decoder, text_column, toast_column, insert_row, begin,
  commit, relation_message, BackendMessage, copy_data,
}
use gtc.Base.{In}
use gtc.Base.Dict.{Dict}
use gtc.Domain.Event.{Value}
use gtc.Wal.Decoder.Decode.{decode_tuple}
use gtc.Wal.Decoder.Decode.Rows.{Present, Absent, decode_tuple-columns}
use gtc.Wal.Decoder.Diff.{diff_relation}
use gtc.Wal.Decoder.Diff.Unchanged.{Unchanged, diff_relation-Unchanged}
use gtc.Wal.Decoder.Decode.{decode}
use gtc.Wal.Decoder.Decode.Heard.{messages, in_transaction, last_begin, Told, decoder_after}
use gtc.Wal.Decoder.Decode.Acks.{Holds, Sound, decode-Sound}

abbrev users : Relation
users = record {
  relation_id = 7;
  namespace = "public";
  relation_name = "users";
  replica_identity = "d";
  columns =
      record { name = "id"; data_type = 20; flags = 1 }
      ∷ record { name = "bio"; data_type = 25; flags = 0 }
      ∷ [];
}

abbrev lib : Library
lib = record {
  parse_keepalive = λ s. got (record { server_wal_end = 90; reply_requested = true });
  parse_xlog_data = λ s. got (record { wal_start = 50; server_wal_end = 90; wal_data = s });
  parse_message = λ s.
      if str_eq s "begin"
      then got (begin 12 3 60)
      else if str_eq s "relation"
      then got (relation_message users)
      else if str_eq s "commit"
      then got (commit 61)
      else got (insert_row 7 (some (text_column "1" ∷ toast_column ∷ [])));
  lsn_text = λ n. "0/32";
  number_text = λ n. "7";
  type_for_oid = λ n. none;
  decode_value = λ n s. got (str s);
}

abbrev decoder : Decoder
decoder = record {
  relations = λ id. some users;
  txn = record { in_txn = true; xid = 12; commit_time = 3; final_lsn = 60 };
}

-- what the decoder has seen, the latest first: a Begin, and then the table's relation
abbrev seen : List BackendMessage
seen = copy_data 119 "relation" ∷ copy_data 119 "begin" ∷ []

decode-Sound_example :
    Holds
      (Sound lib seen (copy_data 119 "insert"))
      (decode lib (copy_data 119 "insert") (decoder_after lib seen)).1
    × ((n : ℕ)
        → Told lib (copy_data 119 "insert") n
        → in_transaction (messages lib (copy_data 119 "insert" ∷ seen)) ≡ false
        → Holds
            (λ r. r.ack_lsn ≡ n)
            (decode lib (copy_data 119 "insert") (decoder_after lib seen)).1)
decode-Sound_example = decode-Sound lib seen (copy_data 119 "insert")

-- the commit of that transaction, whose end is offered
commit_offers :
    Holds (λ r. r.ack_lsn ≡ 61) (decode lib (copy_data 119 "commit") (decoder_after lib seen)).1
commit_offers = (decode-Sound lib seen (copy_data 119 "commit")).1 61 (inl (refl, refl)) refl

-- a keepalive inside of the transaction, and one after its commit
inside_txn : in_transaction (messages lib (copy_data 107 "" ∷ seen)) ≡ true
inside_txn = refl

outside_txn : in_transaction (messages lib (copy_data 119 "commit" ∷ seen)) ≡ false
outside_txn = refl

begun_last : last_begin (messages lib (copy_data 119 "commit" ∷ seen)) ≡ (12, 3)
begun_last = refl

same_users : diff_relation lib decoder.txn 0 users users ≡ none
unfolding diff_relation Dict.get by_name key_columns Dict.put
same_users = refl

diff_relation-Unchanged_example : Unchanged users users
diff_relation-Unchanged_example = diff_relation-Unchanged lib decoder.txn 0 users users same_users

decode_tuple-columns_example :
    Holds
      (λ r.
        (m : Dict Value) × (r.0 ≡ some m)
        × (r.1 ≡ "bio" ∷ [])
        × ((n : String) → (In n ("id" ∷ []) → Present n m) × ((In n ("id" ∷ []) → ⊥) → Absent n m)))
      (decode_tuple lib (some (text_column "1" ∷ toast_column ∷ [])) users)
decode_tuple-columns_example = decode_tuple-columns lib (text_column "1" ∷ toast_column ∷ []) users
