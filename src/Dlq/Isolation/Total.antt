-- ===== src/Dlq/Isolation/Total.antt =====
-- dlq/sink.go: the bisection ends, whatever the sink and the store answer.
use gtc.Base.{
  ℕ, zero, suc, ◌/◌, ◌≤◌, ◌<◌, Bool, true, false, List, [], ◌∷◌, Option, none, some, length, take,
  drop, length-take, length-drop, ◌≡◌, refl, arith, Bool-cases, inl, inr,
}
use gtc.Domain.Errors.{Error, is_permanent}
use gtc.Domain.Event.{CdcEvent}
use gtc.Domain.Sink.{Ctx, Sink, Runtime}
use gtc.Dlq.Store.{Store}
use gtc.Dlq.Manager.{Manager, record_failure}
use gtc.Dlq.Isolation.{
  Run, stalls, continue, half, after_half, halves, isolate, isolate_all, retry_or_isolate,
  after_batch, process,
}

-- The run ends within its fuel.
abbrev pub Ends : {W : Type 0} → Run W → Type 0
Ends {W} r = (m : Manager W) × (err : Option Error) × (r ≡ some (m, err))

module _ {W : Type 0} (rt : Runtime W) (store : Store W) (inner : Sink W) where
  Ends-continue :
      (r : Run W) (rest : Manager W → Run W)
      → Ends r
      → ((m : Manager W) → Ends (rest m))
      → Ends (continue r rest)
  Ends-continue none rest h k = ground arith
  Ends-continue (some (m, none)) rest h k = k m
  Ends-continue (some (m, some e)) rest h k = (m, some e, refl)

  Ends-after_half :
      (recurse : List CdcEvent → Error → Manager W → Run W) (ctx : Ctx) (events : List CdcEvent)
      → ((e : Error) (m : Manager W) → Ends (recurse events e m))
      → (m : Manager W) (r : W × Option Error)
      → Ends (after_half rt store inner recurse ctx events m r)
  unfolding after_half
  Ends-after_half recurse ctx events h m (w, none) = (_, none, refl)
  Ends-after_half recurse ctx events h m (w, some e) = elim (Bool-cases (stalls rt ctx e w)) [
    | inl s ↦ rw s (_, some e, refl)
    | inr s ↦ rw s (h e _)
  ]

  isolate-Ends :
      (fuel : ℕ) (ctx : Ctx) (events : List CdcEvent) (err : Error) (m : Manager W)
      → 0 < length events
      → length events ≤ fuel
      → Ends (isolate rt store inner fuel ctx events err m)
  unfolding isolate halves half
  isolate-Ends zero ctx events err m some_event fits = absurd (omega arith)
  isolate-Ends (suc fuel) ctx [] err m some_event fits = absurd (omega arith)
  isolate-Ends (suc fuel) ctx (e ∷ []) err m some_event fits = (_, _, refl)
  isolate-Ends (suc fuel) ctx (e ∷ d ∷ es) err m some_event fits =
      let all : List CdcEvent = e ∷ d ∷ es in
      let mid = length all / 2 in
      let left : (0 < length (take mid all)) × (length (take mid all) ≤ fuel) =
        omega (arith, length-take mid all) in
      let right : (0 < length (drop mid all)) × (length (drop mid all) ≤ fuel) =
        omega (arith, length-drop mid all) in
      Ends-continue _ _
        (Ends-after_half _ ctx (take mid all)
          (λ c n. isolate-Ends fuel ctx (take mid all) c n left.0 left.1) m _)
        (λ k.
          Ends-after_half _ ctx (drop mid all)
            (λ c n. isolate-Ends fuel ctx (drop mid all) c n right.0 right.1) k _)

  Ends-retry_or_isolate :
      (ctx : Ctx) (events : List CdcEvent) (err : Error) (c : Manager W × ℕ × ℕ × Bool)
      → 0 < length events
      → Ends (retry_or_isolate rt store inner ctx events err c)
  unfolding retry_or_isolate isolate_all
  Ends-retry_or_isolate ctx events err (m, count, first, true) h =
      isolate-Ends (length events) ctx events err m h (omega arith)
  Ends-retry_or_isolate ctx events err (m, count, first, false) h = (m, some err, refl)

  Ends-after_batch :
      (ctx : Ctx) (event : CdcEvent) (events : List CdcEvent) (m : Manager W) (r : W × Option Error)
      → Ends (after_batch rt store inner ctx event events m r)
  unfolding after_batch isolate_all
  Ends-after_batch ctx event events m (w, none) = (_, none, refl)
  Ends-after_batch ctx event events m (w, some e) = elim (Bool-cases (stalls rt ctx e w)) [
    | inl s ↦ rw s (_, some e, refl)
    | inr s ↦ rw s (elim (Bool-cases (is_permanent e)) [
      | inl p ↦ rw p (isolate-Ends _ ctx (event ∷ events) e _ (omega arith) (omega arith))
      | inr p ↦ rw p (
          Ends-retry_or_isolate ctx (event ∷ events) e
            (record_failure rt inner.name event.id (record m { world = w })) (omega arith))
    ])
  ]

  -- Whatever the sink, the store and the contexts answer, Process returns: the bisection always ends
  -- within the fuel that it is given.
  pub process-Ends :
      (ctx : Ctx) (events : List CdcEvent) (m : Manager W)
      → Ends (process rt store inner ctx events m)
  unfolding process
  process-Ends ctx [] m = (m, none, refl)
  process-Ends ctx (event ∷ events) m = Ends-after_batch ctx event events m _
