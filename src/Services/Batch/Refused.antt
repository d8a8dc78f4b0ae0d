-- ===== src/Services/Batch/Refused.antt =====
-- services/cdc_service.go: what it means that handleBatch returns an error, with the sinks in turn.
use gtc.Base.{
  ℕ, suc, ◌≡◌, refl, sym, ap, subst, ◌∙◌, ◌⊎◌, inl, inr, Bool, true, false, List, [], ◌∷◌, ◌++◌,
  append-nil, append_assoc, length-append, Option, none, some, Bool-cases, map, In, length, arith,
}
use gtc.Domain.Errors.{Error}
use gtc.Domain.Event.{CdcEvent}
use gtc.Domain.Sink.{Sink, Ctx, SinkResult}
use gtc.Services.Deliver.{deliver}
use gtc.Services.Batch.{
  CdcServiceConfig, admit, at, put_at, indexes, no_result, errors_of, outcome_of, process_sink,
  result_of, fill, fill_all, process_batch, answer, handle_admitted, handle_batch,
}

put_at-append :
    {A : Type 0} (x y : A) (pre post : List A)
    → put_at (length pre) x (pre ++ y ∷ post) ≡ pre ++ x ∷ post
unfolding put_at
put_at-append x y [] post = refl
put_at-append x y (z ∷ pre) post = ap (◌∷◌ z) (put_at-append x y pre post)

In-last : {A : Type 0} (x y : A) (xs : List A) → In x (xs ++ y ∷ []) → In x xs ⊎ (x ≡ y)
In-last x y [] (inl p) = inr p
In-last x y [] (inr i) = absurd i
In-last x y (z ∷ xs) (inl p) = inl (inl p)
In-last x y (z ∷ xs) (inr i) = elim (In-last x y xs i) [ inl j ↦ inl (inr j) | inr p ↦ inr p ]

In-middle : {A : Type 0} (x : A) (xs ys : List A) → In x (xs ++ x ∷ ys)
In-middle x [] ys = inl refl
In-middle x (z ∷ xs) ys = inr (In-middle x xs ys)

module _ {W : Type 0} (ctx : Ctx) where
  -- Some delivery of these events to the sink ended with an error.
  abbrev pub Refused : List CdcEvent → Sink W → Type 0
  Refused events s = (u : W) × (v : W) × (e : Error) × (deliver s ctx events u ≡ (v, some e))

  at-append :
      (pre : List (Sink W)) (s : Sink W) (ss : List (Sink W))
      → at (length pre) (pre ++ s ∷ ss) ≡ some s
  unfolding at
  at-append [] s ss = refl
  at-append (x ∷ pre) s ss = at-append pre s ss

  -- Each result that is not a success is that of a refusal by one of the sinks.
  abbrev Blamed : List CdcEvent → List (Sink W) → List SinkResult → Type 0
  Blamed events ss rs =
      (r : SinkResult) → In r rs → r.success ≡ false → (s : Sink W) × In s ss × Refused events s

  result_of-Refused :
      (events : List CdcEvent) (s : Sink W) (w : W) (r : W × Option Error)
      → deliver s ctx events w ≡ r
      → (result_of ctx s r).1.success ≡ false
      → Refused events s
  unfolding result_of
  result_of-Refused events s w (v, none) p q = absurd (ground arith)
  result_of-Refused events s w (v, some e) p q = (w, v, e, p)

  errors_of-Refused :
      (events : List CdcEvent) (ss : List (Sink W)) (rs : List SinkResult) (e : Error)
      → Blamed events ss rs
      → outcome_of (errors_of rs) ≡ some e
      → (s : Sink W) × In s ss × Refused events s
  unfolding outcome_of errors_of
  errors_of-Refused events ss [] e b p = absurd (ground arith)
  errors_of-Refused events ss (r ∷ rs) e b p = elim (Bool-cases r.success) [
    | inr q ↦ b r (inl refl) q
    | inl q ↦ errors_of-Refused events ss rs e (λ x i f. b x (inr i) f) (rw (errors_of, q) at p)
  ]

  Blamed-last :
      (events : List CdcEvent) (sinks : List (Sink W)) (s : Sink W) (w : W) (done : List SinkResult)
      → In s sinks
      → Blamed events sinks done
      → Blamed events sinks (done ++ (process_sink ctx s events w).1 ∷ [])
  unfolding process_sink
  Blamed-last events sinks s w done i b r j f =
      elim (In-last r (process_sink ctx s events w).1 done j) [
        | inl k ↦ b r k f
        | inr p ↦ (
          s,
          i,
          result_of-Refused events s w (deliver s ctx events w) refl
              (sym (ap (λ x. x.success) p) ∙ f),
        )
      ]

  fill_all-Blamed :
      (events : List CdcEvent) (sinks pre ss : List (Sink W)) (n : ℕ) (done rs : List SinkResult)
      (w : W)
      → sinks ≡ pre ++ ss
      → n ≡ length pre
      → n ≡ length done
      → rs ≡ done ++ map (λ s. no_result) ss
      → Blamed events sinks done
      → Blamed events sinks (fill_all ctx sinks (indexes n ss) events (w, rs)).1
  unfolding fill_all indexes fill
  fill_all-Blamed events sinks pre [] n done rs w p q t e b =
      subst (Blamed events sinks) (sym (e ∙ append-nil done)) b
  fill_all-Blamed events sinks pre (s ∷ ss) n done rs w p q t e b =
      let r = process_sink ctx s events w in
      let here : at n sinks ≡ some s = rw (p, q) (at-append pre s ss) in
      let filled : put_at n r.1 rs ≡ done ++ r.1 ∷ map (λ s. no_result) ss =
        rw (e, t) (put_at-append r.1 no_result done (map (λ s. no_result) ss)) in
      subst
        (λ o.
          Blamed events sinks
            (fill_all ctx sinks (indexes (suc n) ss) events (fill ctx o n events (w, rs))).1)
        (sym here)
        (fill_all-Blamed events sinks (pre ++ s ∷ []) ss (suc n) (done ++ r.1 ∷ [])
          (put_at n r.1 rs) r.0 (p ∙ sym (append_assoc pre (s ∷ []) ss))
          (omega (arith, q, length-append pre (s ∷ [])))
          (omega (arith, t, length-append done (r.1 ∷ [])))
          (filled ∙ sym (append_assoc done (r.1 ∷ []) (map (λ s. no_result) ss)))
          (Blamed-last events sinks s w done (subst (In s) (sym p) (In-middle s pre ss)) b))

  process_batch-Refused :
      (cfg : CdcServiceConfig) (sinks : List (Sink W)) (order : List ℕ) (events : List CdcEvent)
      (w : W) (e : Error)
      → cfg.parallel_sinks ≡ false
      → (answer ctx (process_batch ctx cfg sinks order events w)).1 ≡ some e
      → (s : Sink W) × In s sinks × Refused events s
  unfolding process_batch answer
  process_batch-Refused cfg sinks order events w e turn p =
      errors_of-Refused events sinks
        (fill_all ctx sinks (indexes 0 sinks) events (w, map (λ s. no_result) sinks)).1 e
        (fill_all-Blamed events sinks [] sinks 0 [] (map (λ s. no_result) sinks) w refl refl refl
          refl (λ r i f. absurd i))
        (rw (process_batch, turn) at p)

  handle_admitted-Refused :
      (cfg : CdcServiceConfig) (sinks : List (Sink W)) (order : List ℕ) (events : List CdcEvent)
      (w : W) (e : Error)
      → cfg.parallel_sinks ≡ false
      → (handle_admitted ctx cfg sinks order events w).1 ≡ some e
      → (s : Sink W) × In s sinks × Refused events s
  unfolding handle_admitted
  handle_admitted-Refused cfg sinks order [] w e turn p = absurd (ground arith)
  handle_admitted-Refused cfg sinks order (x ∷ xs) w e turn p =
      process_batch-Refused cfg sinks order (x ∷ xs) w e turn p

  -- When the sinks are called in turn and handleBatch returns an error, the service is shutting down, or a
  -- delivery of the admitted events to one of the registered sinks ended with an error.
  pub handle_batch-refuses :
      (cfg : CdcServiceConfig) (sinks : List (Sink W)) (order : List ℕ) (stopping : Bool)
      (events : List CdcEvent) (w : W) (e : Error)
      → cfg.parallel_sinks ≡ false
      → (handle_batch ctx cfg sinks order stopping events w).1 ≡ some e
      → (stopping ≡ true) ⊎ ((s : Sink W) × In s sinks × Refused (admit cfg events) s)
  unfolding handle_batch
  handle_batch-refuses cfg sinks order true events w e turn p = inl refl
  handle_batch-refuses cfg sinks order false events w e turn p =
      inr (handle_admitted-Refused cfg sinks order (admit cfg events) w e turn p)
