-- ===== src/Wal/Stream/Confirmed/AtLeastOnce.antt =====
-- wal/reader.go, streamLoop: the invariant over all interleavings, and what it gives.
use gtc.Base.{
  ℕ, ◌+◌, ◌-◌, ◌<◌, ◌≡◌, refl, sym, subst, ap, ◌∙◌, inl, inr, [], ◌∷◌, ◌++◌, append_assoc,
  append-nil, arith, true, false, length, length-append, In,
}
use gtc.Wal.Stream.{
  Delivery, Config, State, idle, busy, settling, stopped, init, confirm, confirm_idle, receives_at,
  ticks_at, delivered, Step, Reach, receives, ticks, counts, sends, keepalive, exits, drops, takes,
  delivers, settles, fails, begins, next, rows_of,
}
use gtc.Wal.Stream.Flow.{flow}
use gtc.Wal.Stream.Confirmed.{
  in_hand, pipeline, counted_ahead, held_by, Covered, Inv, Covered-client, Covered-grows,
}
use gtc.Wal.Stream.Confirmed.Steps.{
  Live-receives, Live-ticks, Live-delivered, Live-moved, delivered_cases,
}

-- The step leaves the history, the reported position and the loop as they are.
record Quiet (s t : State) : Type 0 where
  exited : t.exited ≡ s.exited
  reported : t.reported ≡ s.reported
  received : t.received ≡ s.received
  offered : t.offered ≡ s.offered
  handled : t.handled ≡ s.handled

ticks-Quiet : (now : ℕ) (s : State) → Quiet s (ticks_at now s)
unfolding ticks_at confirm_idle confirm
ticks-Quiet now s = ground arith

Covered-Quiet : (start a : ℕ) (s t : State) → Quiet s t → Covered start s a → Covered start t a
Covered-Quiet start a s t q c =
    Covered-grows start a s t [] [] [] (q.received ∙ sym (append-nil s.received))
      (q.handled ∙ sym (append-nil s.handled)) (λ x i. subst (In x) (sym q.offered) i) c

module _ (cfg : Config) (start : ℕ) (pos : 0 < cfg.max_batch) where
  Inv-init : Inv start (init start)
  unfolding init
  Inv-init = record {
    live = λ e. record {
      order = refl;
      marks = tt;
      pending = inl (omega arith);
      client = inl (omega arith);
      counted = omega arith;
      held = λ h. refl;
    };
    reported = inl (omega arith);
  }

  Inv-delivered :
      (d : Delivery) (s : State) → s.worker ≡ busy d → Inv start s → Inv start (delivered d s)
  Inv-delivered d s working v =
      let (c, which, e) = delivered_cases start d s in
      record {
        live = λ f.
            Live-delivered start d s working (v.live (sym (ap (λ (t : State). t.exited) e) ∙ f));
        reported =
            subst (λ t. Covered start t t.reported) (sym e)
              (Covered-grows start s.reported s
                (record s { worker = settling d; handled = s.handled ++ d.events; client_lsn = c })
                [] d.events [] (sym (append-nil s.received)) refl (λ x i. i) v.reported);
      }

  Inv-Step : {s t : State} → Step cfg s t → Inv start s → Inv start t
  unfolding receives_at
  Inv-Step (receives s now result rows running empty) v = record {
    live = λ e. Live-receives start cfg now result rows s pos empty (v.live running);
    reported =
        Covered-grows start s.reported s (receives_at cfg now result rows s)
          (result.events ++ rows_of cfg result.message rows) [] [] refl (sym (append-nil s.handled))
          (λ x i. inr i) v.reported;
  }
  Inv-Step (ticks s now running empty) v =
      let q = ticks-Quiet now s in
      record {
        live = λ e. Live-ticks start now s empty (v.live running);
        reported = rw (q.reported) (Covered-Quiet start s.reported s (ticks_at now s) q v.reported);
      }
  Inv-Step (counts s d ds running not_yet e) v =
      let l = v.live running in
      record {
        live = λ f.
            Live-moved start s s.outbox s.queue true (s.outstanding + 1) s.worker refl
              (omega (arith, l.counted, ap counted_ahead not_yet)) (λ h. absurd (cc (sym h ∙ e))) l;
        reported = v.reported;
      }
  Inv-Step (sends s d ds running now e room) v =
      let l = v.live running in
      let base = in_hand s.worker ++ s.queue in
      let moved : (in_hand s.worker ++ (s.queue ++ d ∷ [])) ++ ds ≡ base ++ (d ∷ ds) =
        simp append_assoc in
      record {
        live = λ f.
            Live-moved start s ds (s.queue ++ d ∷ []) false s.outstanding s.worker
              (moved ∙ sym (ap (◌++◌ base) e))
              (omega (arith, l.counted, ap counted_ahead now, length-append s.queue (d ∷ [])))
              (λ h. refl) l;
        reported = v.reported;
      }
  Inv-Step (keepalive s running) v =
      let l = v.live running in
      record {
        live = λ f. record {
          order = l.order;
          marks = l.marks;
          pending = l.pending;
          client = l.client;
          counted = l.counted;
          held = l.held;
        };
        reported = Covered-client start s l;
      }
  Inv-Step (exits s running) v = record { live = λ f. cc; reported = v.reported }
  Inv-Step (drops s d ds out e) v = record { live = λ f. cc; reported = v.reported }
  Inv-Step (takes s d ds free e) v = record {
    live = λ f.
        let l = v.live f in
        Live-moved start s s.outbox ds s.waiting s.outstanding (busy d)
          (sym (ap (λ w. (in_hand w ++ s.queue) ++ s.outbox) free ∙ ap (λ q. q ++ s.outbox) e))
          (omega (arith, l.counted, ap held_by free, ap length e)) l.held l;
    reported = v.reported;
  }
  Inv-Step (delivers s d working) v = Inv-delivered d s working v
  Inv-Step (settles s d working) v = record {
    live = λ f.
        let l = v.live f in
        Live-moved start s s.outbox s.queue s.waiting (s.outstanding - 1) idle
          (sym (ap (λ w. (in_hand w ++ s.queue) ++ s.outbox) working))
          (omega (arith, l.counted, ap held_by working)) l.held l;
    reported = v.reported;
  }
  Inv-Step (fails s d working some_events) v = record {
    live = λ f.
        let l = v.live f in
        Live-moved start s s.outbox s.queue s.waiting s.outstanding (stopped d)
          (sym (ap (λ w. (in_hand w ++ s.queue) ++ s.outbox) working))
          (omega (arith, l.counted, ap held_by working)) l.held l;
    reported = v.reported;
  }

  Inv-Reach : {s : State} → Reach cfg start s → Inv start s
  Inv-Reach begins = Inv-init
  Inv-Reach (next r st) = Inv-Step st (Inv-Reach r)

  -- At-least-once delivery, with a positive batch size. In every state that the two goroutines can reach, by any
  -- interleaving and any answers of the network and of the handler, the position last sent to the server is not past
  -- the start of replication, or it was offered by the decoder after some number of received events
  -- that the handler has all accepted, as its first and in the order in which they were received.
  pub reported-Covered : {s : State} → Reach cfg start s → Covered start s s.reported
  reported-Covered r = (Inv-Reach r).reported

  -- With a positive batch size, while the loop runs, the events that the handler has accepted, then those of the
  -- units in the delivery goroutine, the queue and the outbox, then the open batch, are exactly the events
  -- received, in order; and `outstanding` counts the unit that the delivery goroutine has taken and not subtracted
  -- yet, the units in the queue, and the one that enqueue has counted and not sent yet, which there is only while
  -- the outbox holds a unit.
  pub Reach-order :
      {s : State}
      → Reach cfg start s
      → s.exited ≡ false
      → (s.received ≡ s.handled ++ (flow (pipeline s) ++ s.vars.batch))
        × (s.outstanding ≡ held_by s.worker + length s.queue + counted_ahead s.waiting)
        × (s.outbox ≡ [] → s.waiting ≡ false)
  Reach-order r running = let l = (Inv-Reach r).live running in (l.order, l.counted, l.held)
