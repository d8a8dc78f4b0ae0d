-- ===== src/Wal/Decoder/Decode/Acks.antt =====
-- wal/decoder.go: which positions the decoder offers to confirm, and how it stamps events.
use gtc.Base.{
  ℕ, suc, ◌≡◌, refl, sym, ap, subst, ◌∙◌, ◌⊎◌, inl, inr, Bool, true, false, Bool-cases, List, [],
  ◌∷◌, All, ◌==◌, arith, if◌then◌else◌,
}
use gtc.Domain.Event.{CdcEvent}
use gtc.Dlq.Store.{Answer, got, failed}
use gtc.Wal.Decoder.{
  Library, Message, begin, commit, relation_message, insert_row, update_row, delete_row,
  truncate_tables, logical, streamed, unused, Keepalive, XLogData, BackendMessage, copy_data,
  other_message, Outcome, ok, err, panics, then_do, Decoder, DecodeResult, store_relation,
}
use gtc.Wal.Decoder.Decode.{
  relation, decode_tuple, new_event, with_event, truncated, inserted, updated, deleted,
  decode_message, decode_wal_data, decode_xlog, decode_keepalive, decode,
}
use gtc.Wal.Decoder.Decode.Heard.{
  of_answer, of_xlog, messages, in_transaction, last_begin, end_of, Told, decoder_after, stamp,
  decode-Follows, decoder_after-Follows,
}

-- The value, if there is one, has the property.
abbrev pub Holds : {A : Type 0} → (A → Type 0) → Outcome A → Type 0
Holds P (ok a) = P a
Holds P (err e) = Unit
Holds P panics = Unit

pub Holds-then_do :
    {A B : Type 0} (P : A → Type 0) (Q : B → Type 0) (o : Outcome A) (f : A → Outcome B)
    → Holds P o
    → ((a : A) → P a → Holds Q (f a))
    → Holds Q (then_do o f)
Holds-then_do P Q (ok a) f h k = k a h
Holds-then_do P Q (err e) f h k = tt
Holds-then_do P Q panics f h k = tt

then_do-Holds :
    {A B : Type 0} (Q : B → Type 0) (o : Outcome A) (f : A → Outcome B)
    → ((a : A) → Holds Q (f a))
    → Holds Q (then_do o f)
then_do-Holds Q (ok a) f k = k a
then_do-Holds Q (err e) f k = tt
then_do-Holds Q panics f k = tt

Holds-mono :
    {A : Type 0} (P Q : A → Type 0) (o : Outcome A) → Holds P o → ((a : A) → P a → Q a) → Holds Q o
Holds-mono P Q (ok a) h k = k a h
Holds-mono P Q (err e) h k = tt
Holds-mono P Q panics h k = tt

-- The event carries this transaction id and this commit time.
abbrev pub Stamped : ℕ × ℕ → CdcEvent → Type 0
Stamped (xid, time) e = (e.metadata.transaction_id ≡ xid) × (e.metadata.timestamp ≡ time)

-- A position to confirm comes without events, outside of a transaction and from the message itself; the events
-- carry the data of the last Begin.
abbrev pub Sound : Library → List BackendMessage → BackendMessage → DecodeResult → Type 0
Sound lib history raw r =
    ((r.ack_lsn ≡ 0)
      ⊎ ((in_transaction (messages lib (raw ∷ history)) ≡ false)
          × (r.events ≡ [])
          × Told lib raw r.ack_lsn))
    × All (Stamped (last_begin (messages lib history))) r.events

-- The same by the decoder's own variables.
abbrev Settled : (ℕ → Type 0) → Decoder → Decoder → DecodeResult → Type 0
Settled told d after r =
    ((r.ack_lsn ≡ 0) ⊎ ((after.txn.in_txn ≡ false) × (r.events ≡ []) × told r.ack_lsn))
    × All (Stamped (stamp d)) r.events

module _ (lib : Library) where
  truncated-Stamped :
      (d : Decoder) (lsn i : ℕ) (ids : List ℕ)
      → Holds (All (Stamped (stamp d))) (truncated lib d lsn i ids)
  unfolding truncated new_event
  truncated-Stamped d lsn i [] = tt
  truncated-Stamped d lsn i (id ∷ ids) =
      then_do-Holds (All (Stamped (stamp d))) (relation lib d id) _ (λ rel.
        Holds-then_do (All (Stamped (stamp d))) (All (Stamped (stamp d)))
          (truncated lib d lsn (suc i) ids) _ (truncated-Stamped d lsn (suc i) ids)
          (λ es h. ((refl, refl), h)))

  decode_message-Settled :
      (told : ℕ → Type 0) (m : Message) (lsn : ℕ) (d : Decoder)
      → ((n : ℕ) → m ≡ commit n → told n)
      → Holds (Settled told d (decode_message lib m lsn d).0) (decode_message lib m lsn d).1
  unfolding decode_message inserted updated deleted with_event new_event store_relation
  decode_message-Settled told (begin xid t l) lsn d commits = (inl refl, tt)
  decode_message-Settled told (commit l) lsn d commits = (inr (refl, refl, commits l refl), tt)
  decode_message-Settled told (relation_message rel) lsn d commits = (inl refl, tt)
  decode_message-Settled told (insert_row id tuple) lsn d commits =
      then_do-Holds (Settled told d d) (relation lib d id) _ (λ rel.
        then_do-Holds (Settled told d d) (decode_tuple lib tuple rel) _
          (λ r. (inl refl, ((refl, refl), tt))))
  decode_message-Settled told (update_row id old new) lsn d commits =
      then_do-Holds (Settled told d d) (relation lib d id) _ (λ rel.
        then_do-Holds (Settled told d d) (decode_tuple lib new rel) _ (λ r.
          then_do-Holds (Settled told d d) (decode_tuple lib old rel) _
            (λ b. (inl refl, ((refl, refl), tt)))))
  decode_message-Settled told (delete_row id old) lsn d commits =
      then_do-Holds (Settled told d d) (relation lib d id) _ (λ rel.
        then_do-Holds (Settled told d d) (decode_tuple lib old rel) _
          (λ r. (inl refl, ((refl, refl), tt))))
  decode_message-Settled told (truncate_tables ids) lsn d commits =
      Holds-then_do (All (Stamped (stamp d))) (Settled told d d) (truncated lib d lsn 0 ids) _
        (truncated-Stamped d lsn 0 ids) (λ es h. (inl refl, h))
  decode_message-Settled told (logical m) lsn d commits = (inl refl, tt)
  decode_message-Settled told (streamed k) lsn d commits = tt
  decode_message-Settled told unused lsn d commits = (inl refl, tt)

  decode_wal_data-Settled :
      (told : ℕ → Type 0) (a : Answer Message) (lsn : ℕ) (d : Decoder)
      → ((n : ℕ) → of_answer a ≡ commit n ∷ [] → told n)
      → Holds (Settled told d (decode_wal_data lib a lsn d).0) (decode_wal_data lib a lsn d).1
  unfolding decode_wal_data
  decode_wal_data-Settled told (failed e) lsn d commits = tt
  decode_wal_data-Settled told (got m) lsn d commits =
      decode_message-Settled told m lsn d (λ n h. commits n (ap (λ x. x ∷ []) h))

  decode_xlog-Settled :
      (told : ℕ → Type 0) (a : Answer XLogData) (d : Decoder)
      → ((n : ℕ) → of_xlog lib a ≡ commit n ∷ [] → told n)
      → Holds (Settled told d (decode_xlog lib a d).0) (decode_xlog lib a d).1
  unfolding decode_xlog
  decode_xlog-Settled told (failed e) d commits = tt
  decode_xlog-Settled told (got x) d commits =
      Holds-then_do
        (Settled told d (decode_wal_data lib (lib.parse_message x.wal_data) x.wal_start d).0)
        (Settled told d (decode_wal_data lib (lib.parse_message x.wal_data) x.wal_start d).0)
        (decode_wal_data lib (lib.parse_message x.wal_data) x.wal_start d).1 _
        (decode_wal_data-Settled told (lib.parse_message x.wal_data) x.wal_start d commits)
        (λ r h. h)

  decode_keepalive-Settled :
      (told : ℕ → Type 0) (a : Answer Keepalive) (d : Decoder)
      → ((n : ℕ) → end_of a ≡ n ∷ [] → told n)
      → Holds (Settled told d d) (decode_keepalive lib a d)
  unfolding decode_keepalive
  decode_keepalive-Settled told (failed e) d ends = tt
  decode_keepalive-Settled told (got k) d ends =
      let ack = λ (b : Bool). if b then 0 else k.server_wal_end in
      elim (Bool-cases d.txn.in_txn) [
        | inl p ↦ (inl (ap ack p), tt)
        | inr p ↦ (inr (p, refl, subst told (ap ack (sym p)) (ends k.server_wal_end refl)), tt)
      ]

  decode-Settled :
      (raw : BackendMessage) (d : Decoder)
      → Holds (Settled (Told lib raw) d (decode lib raw d).0) (decode lib raw d).1
  unfolding decode
  decode-Settled other_message d = (inl refl, tt)
  decode-Settled (copy_data tag rest) d = elim (Bool-cases (tag == 107)) [
    | inl p ↦ rw (p) (
        decode_keepalive-Settled (Told lib (copy_data tag rest)) (lib.parse_keepalive rest) d
          (λ n h. inr (ground (arith, p), h)))
    | inr p ↦ elim (Bool-cases (tag == 119)) [
      | inl q ↦
          rw (p, q)
            (decode_xlog-Settled (Told lib (copy_data tag rest)) (lib.parse_xlog_data rest) d
              (λ n h. inl (ground (arith, q), h)))
      | inr q ↦ rw (p, q) (inl refl, tt)
    ]
  ]

  -- what the message tells is offered
  decode_wal_data-Offers :
      (a : Answer Message) (lsn : ℕ) (d : Decoder) (n : ℕ)
      → of_answer a ≡ commit n ∷ []
      → Holds (λ r. r.ack_lsn ≡ n) (decode_wal_data lib a lsn d).1
  unfolding decode_wal_data decode_message
  decode_wal_data-Offers (failed e) lsn d n h = absurd (cc h)
  decode_wal_data-Offers (got m) lsn d n h =
      let same : commit n ≡ m = cc (sym h) in
      subst (λ x. Holds (λ r. r.ack_lsn ≡ n) (decode_message lib x lsn d).1) same refl

  decode_xlog-Offers :
      (a : Answer XLogData) (d : Decoder) (n : ℕ)
      → of_xlog lib a ≡ commit n ∷ []
      → Holds (λ r. r.ack_lsn ≡ n) (decode_xlog lib a d).1
  unfolding decode_xlog
  decode_xlog-Offers (failed e) d n h = absurd (cc h)
  decode_xlog-Offers (got x) d n h =
      Holds-then_do (λ r. r.ack_lsn ≡ n) (λ r. r.ack_lsn ≡ n)
        (decode_wal_data lib (lib.parse_message x.wal_data) x.wal_start d).1 _
        (decode_wal_data-Offers (lib.parse_message x.wal_data) x.wal_start d n h) (λ r g. g)

  decode_keepalive-Offers :
      (a : Answer Keepalive) (d : Decoder) (n : ℕ)
      → end_of a ≡ n ∷ []
      → d.txn.in_txn ≡ false
      → Holds (λ r. r.ack_lsn ≡ n) (decode_keepalive lib a d)
  unfolding decode_keepalive
  decode_keepalive-Offers (failed e) d n h c = absurd (cc h)
  decode_keepalive-Offers (got k) d n h c =
      ap (λ (b : Bool). if b then 0 else k.server_wal_end) c ∙ cc h

  decode-Offers :
      (raw : BackendMessage) (d : Decoder) (n : ℕ)
      → Told lib raw n
      → (decode lib raw d).0.txn.in_txn ≡ false
      → Holds (λ r. r.ack_lsn ≡ n) (decode lib raw d).1
  unfolding decode
  decode-Offers other_message d n told c = absurd told
  decode-Offers (copy_data tag rest) d n (inl (t, h)) c =
      let not_k : (tag == 107) ≡ false = ground (arith, t) in
      let is_w : (tag == 119) ≡ true = ground (arith, t) in
      rw (not_k, is_w) (decode_xlog-Offers (lib.parse_xlog_data rest) d n h)
  decode-Offers (copy_data tag rest) d n (inr (t, h)) c =
      let is_k : (tag == 107) ≡ true = ground (arith, t) in
      let closed : d.txn.in_txn ≡ false = rw (is_k) at c in
      rw (is_k) (decode_keepalive-Offers (lib.parse_keepalive rest) d n h closed)

  -- After any messages, and whatever message arrives then: if Decode returns a result, then it offers a position to
  -- confirm only when by the messages of the stream no transaction is open, the result has no events, and the
  -- position is the end of the commit or keepalive that arrived; and each event of the result carries the
  -- transaction id and the commit time of the last Begin of the stream, or 0 before the first. What a commit
  -- tells, or a keepalive outside of a transaction, is offered.
  pub decode-Sound :
      (history : List BackendMessage) (raw : BackendMessage)
      → Holds (Sound lib history raw) (decode lib raw (decoder_after lib history)).1
        × ((n : ℕ)
            → Told lib raw n
            → in_transaction (messages lib (raw ∷ history)) ≡ false
            → Holds (λ r. r.ack_lsn ≡ n) (decode lib raw (decoder_after lib history)).1)
  decode-Sound history raw =
      let d = decoder_after lib history in
      let before = decoder_after-Follows lib history in
      let now = decode-Follows lib raw d (messages lib history) before in
      (
        Holds-mono (Settled (Told lib raw) d (decode lib raw d).0) (Sound lib history raw)
            (decode lib raw d).1 (decode-Settled raw d)
            (λ r s. (
              elim s.0 [
                | inl zero_ack ↦ inl zero_ack
                | inr (closed, none, told) ↦ inr (sym now.in_step ∙ closed, none, told)
              ],
              subst (λ x. All (Stamped x) r.events) before.last s.1,
            )),
        λ n told closed. decode-Offers raw d n told (now.in_step ∙ closed),
      )
