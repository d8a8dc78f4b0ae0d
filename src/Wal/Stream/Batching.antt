-- ===== src/Wal/Stream/Batching.antt =====
-- wal/reader.go, streamLoop: batching neither loses nor reorders events, and a position rides on a
-- unit only behind the events that it covers.
use gtc.Base.{
  ℕ, ◌+◌, ◌<◌, ◌≡◌, refl, sym, subst, ap, ◌∙◌, inl, inr, List, [], ◌∷◌, ◌++◌, append_assoc,
  append-nil, arith, Option, none, some, String, length, length-append, In, Bool-cases, leb, ltb,
}
use gtc.Domain.Event.{CdcEvent}
use gtc.Wal.Decoder.{DecodeResult, LogicalMessage}
use gtc.Wal.Stream.{
  Delivery, Config, Open, flush, flush_batch, opened, add_event, add_events, chunk_units,
  is_watermark, units_at, raise_ack, receive, rows_of,
}
use gtc.Wal.Stream.Chunks.{chunk_units_lem, CarriesChunk-Marks}
use gtc.Wal.Stream.Flow.{flow, flow-append, Sound, Marks, Sound-mono, Sound-at, Marks-append}

module _ (start : ℕ) (offered : List (ℕ × ℕ)) (p : ℕ) where
  -- From variables `o`, whose batch begins after `p` events, a piece of the loop that takes in `es`
  -- emits the units and leaves `v`.
  pub record Batches (o : Open) (es : List CdcEvent) (units : List Delivery) (v : Open)
      : Type 0 where
    pub events : flow units ++ v.batch ≡ o.batch ++ es
    pub marks : Marks start offered p units
    pub pending : Sound start offered v.pending_ack (p + length (o.batch ++ es))

flush_batch-Batches :
    (start : ℕ) (offered : List (ℕ × ℕ)) (p : ℕ) (o : Open) (b : List CdcEvent)
    → o.batch ≡ b
    → Sound start offered o.pending_ack (p + length o.batch)
    → Batches start offered p o [] (flush_batch b o).0 (flush_batch b o).1
unfolding flush_batch
flush_batch-Batches start offered p o [] e s = record {
  events = sym (append-nil o.batch);
  marks = tt;
  pending = rw append-nil s;
}
flush_batch-Batches start offered p o (x ∷ xs) e s = record {
  events = append-nil _ ∙ append-nil _ ∙ sym (append-nil o.batch ∙ e);
  marks = (rw (e) at s, tt);
  pending = inl (omega arith);
}

pub flush-Batches :
    (start : ℕ) (offered : List (ℕ × ℕ)) (p : ℕ) (o : Open)
    → Sound start offered o.pending_ack (p + length o.batch)
    → Batches start offered p o [] (flush o).0 (flush o).1
unfolding flush
flush-Batches start offered p o s = flush_batch-Batches start offered p o o.batch refl s

-- After a flush the batch is empty.
flush_empties : (o : Open) (b : List CdcEvent) → o.batch ≡ b → (flush_batch b o).1.batch ≡ []
unfolding flush_batch
flush_empties o [] e = e
flush_empties o (x ∷ xs) e = refl

-- One piece of the loop after another.
Batches-trans :
    (start : ℕ) (offered : List (ℕ × ℕ)) (p : ℕ) (o v u : Open) (es ds : List CdcEvent)
    (xs ys : List Delivery)
    → Batches start offered p o es xs v
    → Batches start offered (p + length (flow xs)) v ds ys u
    → Batches start offered p o (es ++ ds) (xs ++ ys) u
Batches-trans start offered p o v u es ds xs ys f g = record {
  events =
      ap (λ l. l ++ u.batch) (flow-append xs ys)
      ∙ append_assoc (flow xs) (flow ys) u.batch
      ∙ ap (◌++◌ (flow xs)) g.events
      ∙ sym (append_assoc (flow xs) v.batch ds)
      ∙ ap (λ l. l ++ ds) f.events
      ∙ append_assoc o.batch es ds;
  marks = Marks-append start offered p xs ys f.marks g.marks;
  pending = Sound-at start offered u.pending_ack _ _ count g.pending;
}
  where
    count : p + length (flow xs) + length (v.batch ++ ds) ≡ p + length (o.batch ++ (es ++ ds))
    count = omega (
      arith,
      ap length f.events,
      length-append (flow xs) v.batch,
      length-append v.batch ds,
      length-append o.batch (es ++ ds),
      length-append es ds,
      length-append o.batch es,
    )

-- What the variables keep of an open batch, if only flush_at or the batch's end changes.
stays-Batches :
    (start : ℕ) (offered : List (ℕ × ℕ)) (p : ℕ) (o v : Open) (es : List CdcEvent)
    → v.batch ≡ o.batch ++ es
    → v.pending_ack ≡ o.pending_ack
    → Sound start offered o.pending_ack (p + length o.batch)
    → Batches start offered p o es [] v
stays-Batches start offered p o v es e q s = record {
  events = e;
  marks = tt;
  pending = rw (q) (
      Sound-mono start offered o.pending_ack (p + length o.batch) (p + length (o.batch ++ es))
        (omega (arith, length-append o.batch es)) s);
}

opened_lem :
    (deadline : ℕ) (b : List CdcEvent) (o : Open)
    → ((opened deadline b o).batch ≡ o.batch) × ((opened deadline b o).pending_ack ≡ o.pending_ack)
unfolding opened
opened_lem deadline [] o = (refl, refl)
opened_lem deadline (e ∷ es) o = (refl, refl)

add_event-Batches :
    (start : ℕ) (offered : List (ℕ × ℕ)) (cfg : Config) (now p : ℕ) (e : CdcEvent) (o : Open)
    → Sound start offered o.pending_ack (p + length o.batch)
    → Batches start offered p o (e ∷ []) (add_event cfg now e o).0 (add_event cfg now e o).1
unfolding add_event
add_event-Batches start offered cfg now p e o s =
    elim (Bool-cases (leb cfg.max_batch (length (o'.batch ++ e ∷ [])))) [
      | inl full ↦ rw (full) closed
      | inr room ↦ rw (room) first
    ]
  where
    o' : Open
    o' = opened (now + cfg.linger) o.batch o

    same : (o'.batch ≡ o.batch) × (o'.pending_ack ≡ o.pending_ack)
    same = opened_lem (now + cfg.linger) o.batch o

    added : Open
    added = record o' { batch = o'.batch ++ e ∷ [] }

    first : Batches start offered p o (e ∷ []) [] added
    first = stays-Batches start offered p o added (e ∷ []) (ap (λ b. b ++ e ∷ []) same.0) same.1 s

    from : ℕ
    from = p + length (flow [])

    closed : Batches start offered p o (e ∷ []) (flush added).0 (flush added).1
    closed =
        subst (λ l. Batches start offered p o l (flush added).0 (flush added).1)
          (append-nil (e ∷ []))
          (Batches-trans start offered p o added (flush added).1 (e ∷ []) [] [] (flush added).0
            first
            (flush-Batches start offered from added (
              Sound-at start offered added.pending_ack (p + length (o.batch ++ e ∷ []))
                (from + length added.batch) (omega (arith, ap length first.events)) first.pending)))

add_events-Batches :
    (start : ℕ) (offered : List (ℕ × ℕ)) (cfg : Config) (now p : ℕ) (es : List CdcEvent) (o : Open)
    → Sound start offered o.pending_ack (p + length o.batch)
    → Batches start offered p o es (add_events cfg now es o).0 (add_events cfg now es o).1
unfolding add_events
add_events-Batches start offered cfg now p [] o s =
    stays-Batches start offered p o o [] (sym (append-nil o.batch)) refl s
add_events-Batches start offered cfg now p (e ∷ es) o s =
    let (units, v) = add_event cfg now e o in
    let first = add_event-Batches start offered cfg now p e o s in
    let from = p + length (flow units) in
    let rest = add_events-Batches start offered cfg now from es v (
      Sound-at start offered v.pending_ack (p + length (o.batch ++ e ∷ [])) (from + length v.batch)
        (omega (arith, ap length first.events, length-append (flow units) v.batch))
        first.pending) in
    Batches-trans start offered p o v (add_events cfg now es v).1 (e ∷ []) es units
      (add_events cfg now es v).0 first rest

-- Units that confirm nothing, behind an empty batch.
chunk-Batches :
    (start : ℕ) (offered : List (ℕ × ℕ)) (p n : ℕ) (content : String) (o : Open)
    (rows : List CdcEvent)
    → 0 < n
    → o.batch ≡ []
    → Sound start offered o.pending_ack (p + length o.batch)
    → Batches start offered p o rows (chunk_units n content rows) o
chunk-Batches start offered p n content o rows pos empty s =
    let (carried, chunk) = chunk_units_lem n content rows pos in
    record {
      events =
          ap (λ b. flow (chunk_units n content rows) ++ b) empty
          ∙ append-nil _
          ∙ carried
          ∙ sym (ap (λ b. b ++ rows) empty);
      marks = CarriesChunk-Marks start offered p n content (chunk_units n content rows) chunk;
      pending =
          Sound-mono start offered o.pending_ack (p + length o.batch) (p + length (o.batch ++ rows))
            (omega (arith, length-append o.batch rows)) s;
    }

units_at-Batches :
    (start : ℕ) (offered : List (ℕ × ℕ)) (cfg : Config) (p : ℕ) (msg : Option LogicalMessage)
    (rows : List CdcEvent) (o : Open)
    → 0 < cfg.max_batch
    → Sound start offered o.pending_ack (p + length o.batch)
    → Batches start offered p o
        (rows_of cfg msg rows)
        (units_at cfg msg rows o).0
        (units_at cfg msg rows o).1
unfolding units_at rows_of
units_at-Batches start offered cfg p none rows o pos s =
    stays-Batches start offered p o o [] (sym (append-nil o.batch)) refl s
units_at-Batches start offered cfg p (some msg) rows o pos s =
    elim (Bool-cases (is_watermark cfg msg)) [
      | inr other ↦
          rw (other) (stays-Batches start offered p o o [] (sym (append-nil o.batch)) refl s)
      | inl mark ↦ rw (mark) (
          let (units, v) = flush o in
          let first = flush-Batches start offered p o s in
          Batches-trans start offered p o v v [] rows units
            (chunk_units cfg.max_batch msg.content rows) first
            (chunk-Batches start offered (p + length (flow units)) cfg.max_batch msg.content v rows
              pos (unfold flush in flush_empties o o.batch refl)
              (Sound-at start offered v.pending_ack _ _
                (omega (arith, ap length first.events, length-append (flow units) v.batch))
                first.pending)))
    ]

-- A position offered after all that was taken in may be confirmed behind it.
raise_ack-Batches :
    (start : ℕ) (offered : List (ℕ × ℕ)) (p ack : ℕ) (o v : Open) (es : List CdcEvent)
    (units : List Delivery)
    → In (ack, p + length (o.batch ++ es)) offered
    → Batches start offered p o es units v
    → Batches start offered p o es units (raise_ack ack v)
unfolding raise_ack
raise_ack-Batches start offered p ack o v es units known b =
    elim (Bool-cases (ltb v.pending_ack ack)) [
      | inl higher ↦ rw (higher) (record {
        events = b.events;
        marks = b.marks;
        pending = inr (p + length (o.batch ++ es), known, omega arith);
      })
      | inr lower ↦ rw (lower) b
    ]

pub receive-Batches :
    (start : ℕ) (offered : List (ℕ × ℕ)) (cfg : Config) (now p : ℕ) (result : DecodeResult)
    (rows : List CdcEvent) (o : Open)
    → 0 < cfg.max_batch
    → In
        (result.ack_lsn, p + length (o.batch ++ (result.events ++ rows_of cfg result.message rows)))
        offered
    → Sound start offered o.pending_ack (p + length o.batch)
    → Batches start offered p o
        (result.events ++ rows_of cfg result.message rows)
        (receive cfg now result rows o).0
        (receive cfg now result rows o).1
unfolding receive
receive-Batches start offered cfg now p result rows o pos known s =
    let (units, v) = add_events cfg now result.events o in
    let first = add_events-Batches start offered cfg now p result.events o s in
    let from = p + length (flow units) in
    let second = units_at-Batches start offered cfg from result.message rows v pos (
      Sound-at start offered v.pending_ack (p + length (o.batch ++ result.events))
        (from + length v.batch)
        (omega (arith, ap length first.events, length-append (flow units) v.batch))
        first.pending) in
    let (more, u) = units_at cfg result.message rows v in
    raise_ack-Batches start offered p result.ack_lsn o u
      (result.events ++ rows_of cfg result.message rows) (units ++ more) known
      (Batches-trans start offered p o v u result.events (rows_of cfg result.message rows) units
        more first second)
