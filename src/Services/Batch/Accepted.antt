-- ===== src/Services/Batch/Accepted.antt =====
-- services/cdc_service.go: what it means that handleBatch returns no error.
use gtc.Base.{
  subst, arith, ℕ, zero, suc, ◌≡◌, refl, sym, ◌⊎◌, inl, inr, Bool, true, false, List, [], ◌∷◌,
  Option, none, some, Bool-cases, map, ltb, length, ◌&&◌, if◌then◌else◌, All,
}
use gtc.Domain.Errors.{Error}
use gtc.Domain.Event.{CdcEvent}
use gtc.Domain.Sink.{Sink, Ctx, SinkResult}
use gtc.Services.Deliver.{deliver}
use gtc.Services.Batch.{
  CdcServiceConfig, admit, at, put_at, indexes, no_result, sink_error, errors_of, outcome_of,
  process_sink, result_of, fill, fill_all, process_batch, answer, handle_admitted, handle_batch,
}

refused_none :
    (r : SinkResult) (rs : List SinkResult) → outcome_of (sink_error r ∷ errors_of rs) ≡ none → ⊥
unfolding outcome_of
refused_none r rs p = ground arith

module _ {W : Type 0} (ctx : Ctx) where
  -- Some delivery of all these events to the sink ended without an error.
  abbrev pub Took : List CdcEvent → Sink W → Type 0
  Took events s = (u : W) × (v : W) × (deliver s ctx events u ≡ (v, none))

  -- Slot by slot, a result that says success is that of such a delivery.
  abbrev Justified : List CdcEvent → List (Sink W) → List SinkResult → Type 0
  Justified events [] rs = Unit
  Justified events (s ∷ ss) [] = ⊥
  Justified events (s ∷ ss) (r ∷ rs) = (r.success ≡ true → Took events s) × Justified events ss rs

  Justified-put_at :
      (events : List CdcEvent) (i : ℕ) (r : SinkResult) (s : Sink W) (ss : List (Sink W))
      (rs : List SinkResult)
      → at i ss ≡ some s
      → (r.success ≡ true → Took events s)
      → Justified events ss rs
      → Justified events ss (put_at i r rs)
  unfolding at put_at
  Justified-put_at events i r s [] rs p t j = tt
  Justified-put_at events zero r s (x ∷ ss) [] p t j = j
  Justified-put_at events (suc i) r s (x ∷ ss) [] p t j = j
  Justified-put_at events zero r s (x ∷ ss) (y ∷ rs) p t (j, js) =
      (λ q. (let same : x ≡ s = ground arith in subst (Took events) (sym same) (t q)), js)
  Justified-put_at events (suc i) r s (x ∷ ss) (y ∷ rs) p t (j, js) =
      (j, Justified-put_at events i r s ss rs p t js)

  Justified-none :
      (events : List CdcEvent) (ss : List (Sink W)) → Justified events ss (map (λ s. no_result) ss)
  Justified-none events [] = tt
  Justified-none events (s ∷ ss) = (λ p. absurd (ground arith), Justified-none events ss)

  result_of-Took :
      (events : List CdcEvent) (s : Sink W) (w : W) (r : W × Option Error)
      → deliver s ctx events w ≡ r
      → (result_of ctx s r).1.success ≡ true
      → Took events s
  unfolding result_of
  result_of-Took events s w (v, none) p q = (w, v, p)
  result_of-Took events s w (v, some e) p q = absurd (ground arith)

  Justified-fill :
      (events : List CdcEvent) (ss : List (Sink W)) (i : ℕ) (o : Option (Sink W)) (w : W)
      (rs : List SinkResult)
      → at i ss ≡ o
      → Justified events ss rs
      → Justified events ss (fill ctx o i events (w, rs)).1
  unfolding fill process_sink
  Justified-fill events ss i none w rs p j = j
  Justified-fill events ss i (some s) w rs p j =
      Justified-put_at events i (result_of ctx s (deliver s ctx events w)).1 s ss rs p
        (result_of-Took events s w (deliver s ctx events w) refl) j

  Justified-fill_all :
      (events : List CdcEvent) (ss : List (Sink W)) (order : List ℕ) (r : W × List SinkResult)
      → Justified events ss r.1
      → Justified events ss (fill_all ctx ss order events r).1
  unfolding fill_all
  Justified-fill_all events ss [] r j = j
  Justified-fill_all events ss (i ∷ order) (w, rs) j =
      Justified-fill_all events ss order (fill ctx (at i ss) i events (w, rs))
        (Justified-fill events ss i (at i ss) w rs refl j)

  all-Took :
      (events : List CdcEvent) (ss : List (Sink W)) (rs : List SinkResult)
      → Justified events ss rs
      → outcome_of (errors_of rs) ≡ none
      → All (Took events) ss
  unfolding outcome_of errors_of
  all-Took events [] rs j p = tt
  all-Took events (s ∷ ss) [] j p = absurd j
  all-Took events (s ∷ ss) (r ∷ rs) (j, js) p = elim (Bool-cases r.success) [
    | inl q ↦ (
      j q,
      all-Took events ss rs js (
          subst (λ b. outcome_of (if b then errors_of rs else sink_error r ∷ errors_of rs) ≡ none) q
            p),
    )
    | inr q ↦ absurd (
        refused_none r rs (
          subst (λ b. outcome_of (if b then errors_of rs else sink_error r ∷ errors_of rs) ≡ none) q
            p))
  ]

  process_batch-Took :
      (cfg : CdcServiceConfig) (sinks : List (Sink W)) (order : List ℕ) (events : List CdcEvent)
      (w : W)
      → (answer ctx (process_batch ctx cfg sinks order events w)).1 ≡ none
      → All (Took events) sinks
  unfolding process_batch answer
  process_batch-Took cfg sinks order events w p =
      let chosen : List ℕ =
        if cfg.parallel_sinks && ltb 1 (length sinks) then order else indexes 0 sinks in
      all-Took events sinks (fill_all ctx sinks chosen events (w, map (λ s. no_result) sinks)).1
        (Justified-fill_all events sinks chosen (w, map (λ s. no_result) sinks)
          (Justified-none events sinks))
        p

  handle_admitted-Took :
      (cfg : CdcServiceConfig) (sinks : List (Sink W)) (order : List ℕ) (events : List CdcEvent)
      (w : W)
      → (handle_admitted ctx cfg sinks order events w).1 ≡ none
      → (events ≡ []) ⊎ All (Took events) sinks
  unfolding handle_admitted
  handle_admitted-Took cfg sinks order [] w p = inl refl
  handle_admitted-Took cfg sinks order (e ∷ es) w p =
      inr (process_batch-Took cfg sinks order (e ∷ es) w p)

  -- When handleBatch returns no error, the service is not shutting down, and either no event of the batch is
  -- admitted or every registered sink took all the admitted events in one delivery without an error: whether
  -- the sinks run in turn or in parallel, in any order.
  pub handle_batch-accepts :
      (cfg : CdcServiceConfig) (sinks : List (Sink W)) (order : List ℕ) (stopping : Bool)
      (events : List CdcEvent) (w : W)
      → (handle_batch ctx cfg sinks order stopping events w).1 ≡ none
      → (stopping ≡ false) × ((admit cfg events ≡ []) ⊎ All (Took (admit cfg events)) sinks)
  unfolding handle_batch
  handle_batch-accepts cfg sinks order true events w p = absurd (ground arith)
  handle_batch-accepts cfg sinks order false events w p =
      (refl, handle_admitted-Took cfg sinks order (admit cfg events) w p)
