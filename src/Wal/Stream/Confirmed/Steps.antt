-- ===== src/Wal/Stream/Confirmed/Steps.antt =====
-- wal/reader.go, streamLoop: each step of the two goroutines keeps the order of the events and the
-- cover of the positions.
use gtc.Base.{
  ℕ, ◌+◌, ◌≤◌, ◌<◌, ◌≡◌, refl, sym, subst, ap, ◌∙◌, ◌⊎◌, inl, inr, List, [], ◌∷◌, ◌++◌,
  append_assoc, append-nil, arith, Bool, false, ◌&&◌, length, length-append, Bool-cases, leb, ltb,
  ◌==◌,
}
use gtc.Domain.Event.{CdcEvent}
use gtc.Wal.Decoder.{DecodeResult}
use gtc.Wal.Stream.{
  Delivery, Config, Open, State, Worker, busy, settling, stopped, idle, confirm, confirm_idle,
  receives_at, ticks_at, delivered, receive, rows_of, flush,
}
use gtc.Wal.Stream.Flow.{
  flow, flow-append, Sound, Marks, Sound-mono, Sound-at, Marks-at, Marks-append, Sound-offer,
  Marks-offer,
}
use gtc.Wal.Stream.Batching.{Batches, receive-Batches, flush-Batches}
use gtc.Wal.Stream.Confirmed.{in_hand, pipeline, counted_ahead, held_by, Live}

module _ (start : ℕ) where
  -- The reading goroutine takes in `es`: from an empty outbox, with the positions offered so far.
  Live-Batches :
      (s : State) (es : List CdcEvent) (units : List Delivery) (v : Open) (offered : List (ℕ × ℕ))
      → Live start s
      → s.outbox ≡ []
      → ((a n : ℕ) → Sound start s.offered a n → Sound start offered a n)
      → ((p : ℕ) (ds : List Delivery) → Marks start s.offered p ds → Marks start offered p ds)
      → Batches start offered (length s.handled + length (flow (pipeline s))) s.vars es units v
      → Live start
          (record s { vars = v; outbox = units; received = s.received ++ es; offered = offered })
  Live-Batches s es units v offered l empty sound marks b = record {
    order = ap (λ r. r ++ es) l.order ∙ order';
    marks =
        Marks-append start offered (length s.handled) base units
          (subst (Marks start offered (length s.handled)) whole (marks _ _ l.marks))
          (Marks-at start offered _ _ units (ap (λ ds. length s.handled + length (flow ds)) whole)
            b.marks);
    pending = Sound-at start offered v.pending_ack _ _ count b.pending;
    client = sound s.client_lsn (length s.handled) l.client;
    counted = l.counted;
    held = λ none_left. l.held empty;
  }
    where
      base : List Delivery
      base = in_hand s.worker ++ s.queue

      whole : pipeline s ≡ base
      whole = ap (◌++◌ base) empty ∙ append-nil base

      order' :
          (s.handled ++ (flow (pipeline s) ++ s.vars.batch)) ++ es
          ≡ s.handled ++ (flow (base ++ units) ++ v.batch)
      order' = rw (whole, flow-append base units) (simp (append_assoc, b.events))

      count :
          length s.handled + length (flow (pipeline s)) + length (s.vars.batch ++ es)
          ≡ length (s.received ++ es)
      count = omega (
        arith,
        ap length l.order,
        length-append s.handled (flow (pipeline s) ++ s.vars.batch),
        length-append (flow (pipeline s)) s.vars.batch,
        length-append s.vars.batch es,
        length-append s.received es,
      )

  received_length :
      (s : State)
      → Live start s
      → length s.received ≡ length s.handled + length (flow (pipeline s)) + length s.vars.batch
  received_length s l = omega (
    arith,
    ap length l.order,
    length-append s.handled (flow (pipeline s) ++ s.vars.batch),
    length-append (flow (pipeline s)) s.vars.batch,
  )

  pub Live-receives :
      (cfg : Config) (now : ℕ) (result : DecodeResult) (rows : List CdcEvent) (s : State)
      → 0 < cfg.max_batch
      → s.outbox ≡ []
      → Live start s
      → Live start (receives_at cfg now result rows s)
  unfolding receives_at
  Live-receives cfg now result rows s pos empty l =
      let (units, v) = receive cfg now result rows s.vars in
      Live-Batches s es units v (offer ∷ s.offered) l empty (Sound-offer start s.offered offer)
        (Marks-offer start s.offered offer)
        (receive-Batches start (offer ∷ s.offered) cfg now p result rows s.vars pos
          (inl (ap (λ k. (result.ack_lsn, k)) count))
          (Sound-offer start s.offered offer s.vars.pending_ack (p + length s.vars.batch) (
            Sound-at start s.offered s.vars.pending_ack (length s.received)
              (p + length s.vars.batch) (received_length s l) l.pending)))
    where
      es : List CdcEvent
      es = result.events ++ rows_of cfg result.message rows

      p : ℕ
      p = length s.handled + length (flow (pipeline s))

      offer : ℕ × ℕ
      offer = (result.ack_lsn, length (s.received ++ es))

      count : p + length (s.vars.batch ++ es) ≡ length (s.received ++ es)
      count =
          omega
            (arith, received_length s l, length-append s.vars.batch es, length-append s.received es)

  Live-flush :
      (s : State)
      → s.outbox ≡ []
      → Live start s
      → Live start (record s { vars = (flush s.vars).1; outbox = (flush s.vars).0 })
  Live-flush s empty l =
      subst
        (λ r.
          Live start
            (record s { vars = (flush s.vars).1; outbox = (flush s.vars).0; received = r }))
        (append-nil s.received)
        (Live-Batches s [] (flush s.vars).0 (flush s.vars).1 s.offered l empty (λ a n h. h)
          (λ p ds h. h)
          (flush-Batches start s.offered (length s.handled + length (flow (pipeline s))) s.vars (
            Sound-at start s.offered s.vars.pending_ack (length s.received) _ (received_length s l)
              l.pending)))

  none_in_hand : (w : Worker) → length (in_hand w) ≤ held_by w
  none_in_hand idle = omega arith
  none_in_hand (busy d) = omega arith
  none_in_hand (settling d) = omega arith
  none_in_hand (stopped d) = omega arith

  -- With nothing outstanding and no open batch every event received is handled.
  all_handled :
      (s : State)
      → s.outbox ≡ []
      → s.outstanding ≡ 0
      → length s.vars.batch ≡ 0
      → Live start s
      → length s.received ≡ length s.handled
  all_handled s empty none_out no_batch l = omega (
    arith,
    received_length s l,
    nothing_in (in_hand s.worker ++ s.queue)
        (omega (arith, l.counted, none_in_hand s.worker, length-append (in_hand s.worker) s.queue)),
    ap (λ ds. length (flow ((in_hand s.worker ++ s.queue) ++ ds))) empty,
    ap (λ ds. length (flow ds)) (append-nil (in_hand s.worker ++ s.queue)),
  )
    where
      nothing_in : (ds : List Delivery) → length ds ≡ 0 → length (flow ds) ≡ 0
      nothing_in [] h = omega arith
      nothing_in (d ∷ ds) h = absurd (omega arith)

  -- The confirmation of a position: the client position stays, or becomes that position.
  confirm_cases :
      (a : ℕ) (s : State)
      → (c : ℕ) × ((c ≡ s.client_lsn) ⊎ (c ≡ a)) × (confirm a s ≡ record s { client_lsn = c })
  unfolding confirm
  confirm_cases a s = elim (Bool-cases (ltb s.client_lsn a)) [
    | inl h ↦ (a, inr refl, rw (h))
    | inr h ↦ (s.client_lsn, inl refl, rw (h))
  ]

  Sound-of_cases :
      (offered : List (ℕ × ℕ)) (c a b n : ℕ)
      → ((c ≡ a) ⊎ (c ≡ b))
      → Sound start offered a n
      → Sound start offered b n
      → Sound start offered c n
  Sound-of_cases offered c a b n (inl e) f g = rw (e) f
  Sound-of_cases offered c a b n (inr e) f g = rw (e) g

  Live-confirmed :
      (s : State) (c : ℕ)
      → Sound start s.offered c (length s.handled)
      → Live start s
      → Live start (record s { client_lsn = c; vars = record s.vars { pending_ack = 0 } })
  Live-confirmed s c sound l = record {
    order = l.order;
    marks = l.marks;
    pending = inl (omega arith);
    client = sound;
    counted = l.counted;
    held = l.held;
  }

  Live-confirm_idle : (s : State) → s.outbox ≡ [] → Live start s → Live start (confirm_idle s)
  unfolding confirm_idle
  Live-confirm_idle s empty l = elim (Bool-cases idle_now) [
    | inr busy_now ↦ rw (busy_now) l
    | inl h ↦
        let same : length s.received ≡ length s.handled =
          all_handled s empty (ground (arith, h)) (ground (arith, h)) l in
        let (c, which, e) = confirm_cases s.vars.pending_ack s in
        rw (h, e)
          (Live-confirmed s c
            (Sound-of_cases s.offered c s.client_lsn s.vars.pending_ack (length s.handled) which
              l.client
              (Sound-at start s.offered s.vars.pending_ack (length s.received) (length s.handled)
                same l.pending))
            l)
  ]
    where
      idle_now : Bool
      idle_now = ltb 0 s.vars.pending_ack && length s.vars.batch == 0 && s.outstanding == 0

  pub Live-ticks :
      (now : ℕ) (s : State) → s.outbox ≡ [] → Live start s → Live start (ticks_at now s)
  unfolding ticks_at
  Live-ticks now s empty l =
      elim (Bool-cases (ltb 0 (length s.vars.batch) && leb s.vars.flush_at now)) [
        | inl due ↦ rw (due) (Live-flush s empty l)
        | inr later ↦ rw (later) (Live-confirm_idle s empty l)
      ]

  pub delivered_cases :
      (d : Delivery) (s : State)
      → (c : ℕ) × ((c ≡ s.client_lsn) ⊎ (c ≡ d.ack))
        × (delivered d s
            ≡ record s { worker = settling d; handled = s.handled ++ d.events; client_lsn = c })
  unfolding delivered
  delivered_cases d s = elim (Bool-cases (ltb 0 d.ack)) [
    | inl h ↦
        rw (h)
          (confirm_cases d.ack (record s { worker = settling d; handled = s.handled ++ d.events }))
    | inr h ↦ rw (h) (s.client_lsn, inl refl, refl)
  ]

  pub Live-delivered :
      (d : Delivery) (s : State) → s.worker ≡ busy d → Live start s → Live start (delivered d s)
  Live-delivered d s working l =
      let (c, which, e) = delivered_cases d s in
      rw (e) (record {
        order =
            l.order ∙ ap (λ ds. s.handled ++ (flow ds ++ s.vars.batch)) whole ∙ simp append_assoc;
        marks =
            Marks-at start s.offered _ _ (s.queue ++ s.outbox)
              (sym (length-append s.handled d.events)) marked.1;
        pending = l.pending;
        client =
            Sound-of_cases s.offered c s.client_lsn d.ack (length (s.handled ++ d.events)) which
              (Sound-mono start s.offered s.client_lsn (length s.handled)
                (length (s.handled ++ d.events)) (omega (arith, length-append s.handled d.events))
                l.client)
              (Sound-at start s.offered d.ack (length s.handled + length d.events)
                (length (s.handled ++ d.events)) (sym (length-append s.handled d.events)) marked.0);
        counted = omega (arith, l.counted, ap held_by working);
        held = l.held;
      })
    where
      whole : pipeline s ≡ d ∷ (s.queue ++ s.outbox)
      whole = ap (λ w. (in_hand w ++ s.queue) ++ s.outbox) working

      marked : Marks start s.offered (length s.handled) (d ∷ (s.queue ++ s.outbox))
      marked = subst (Marks start s.offered (length s.handled)) whole l.marks

  -- A unit is counted, or moves along the pipeline.
  pub Live-moved :
      (s : State) (outbox queue : List Delivery) (waiting : Bool) (outstanding : ℕ)
      (worker : Worker)
      → (in_hand worker ++ queue) ++ outbox ≡ pipeline s
      → outstanding ≡ held_by worker + length queue + counted_ahead waiting
      → (outbox ≡ [] → waiting ≡ false)
      → Live start s
      → Live start (record s {
        outbox = outbox;
        waiting = waiting;
        queue = queue;
        outstanding = outstanding;
        worker = worker;
      })
  Live-moved s outbox queue waiting outstanding worker same count held l = record {
    order = rw (same) l.order;
    marks = rw (same) l.marks;
    pending = l.pending;
    client = l.client;
    counted = count;
    held = held;
  }
