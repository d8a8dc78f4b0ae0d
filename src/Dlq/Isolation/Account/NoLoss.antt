-- ===== src/Dlq/Isolation/Account/NoLoss.antt =====
-- dlq/sink.go: under the contracts of the sink and the store, every event of a batch that Process
-- accepts is applied or parked.
use gtc.Base.{
  ℕ, zero, suc, ◌/◌, Bool, true, false, List, [], ◌∷◌, ◌++◌, Option, none, some, length, take, drop,
  take-drop, ◌≡◌, refl, sym, subst, Bool-cases, inl, inr, All, All-map,
}
use gtc.Domain.Errors.{Error, is_permanent}
use gtc.Domain.Event.{CdcEvent}
use gtc.Domain.Sink.{Ctx, Sink, Runtime}
use gtc.Dlq.Store.{Store, DeadLetterEntry}
use gtc.Dlq.Manager.{Manager, record_failure, clear_failures}
use gtc.Dlq.Isolation.{
  Run, stalls, half, halves, isolate, isolate_all, retry_or_isolate, after_batch, process,
}
use gtc.Dlq.Isolation.Account
use gtc.Dlq.Isolation.Account.{
  Fresh, Distinct, Op, processes, reads_clock, Contract, Fresh-left, Fresh-right, Distinct-append,
}
use gtc.Dlq.Isolation.Account.Steps

module _ {W : Type 0} (rt : Runtime W) (store : Store W) (inner : Sink W)
    (Applied : CdcEvent → W → Type 0) (Holds : DeadLetterEntry → W → Type 0)
    (c : Contract rt store inner Applied Holds) where
  abbrev Settled : W → CdcEvent → Type 0
  Settled = Account.Settled rt store inner Applied Holds

  abbrev Keeps : CdcEvent → W → Run W → Type 0
  Keeps = Account.Keeps rt store inner Applied Holds

  abbrev Settles : List CdcEvent → Run W → Type 0
  Settles = Account.Settles rt store inner Applied Holds

  abbrev Recurse : Type 0
  Recurse = List CdcEvent → Error → Manager W → Run W

  -- The recursive calls keep what is settled, and settle their events.
  record IsSound (recurse : Recurse) : Type 0 where
    keeps :
        (d : CdcEvent) (es : List CdcEvent) (err : Error) (m : Manager W)
        → Fresh d.id es
        → Keeps d m.world (recurse es err m)
    settles :
        (es : List CdcEvent) (err : Error) (m : Manager W)
        → Distinct es
        → Settles es (recurse es err m)

  half-Keeps :
      (recurse : Recurse) (s : IsSound recurse) (d : CdcEvent) (ctx : Ctx) (es : List CdcEvent)
      (m : Manager W)
      → Fresh d.id es
      → Keeps d m.world (half rt store inner recurse ctx es m)
  unfolding half
  half-Keeps recurse s d ctx es m fresh =
      Steps.Keeps-after_half rt store inner Applied Holds c d recurse ctx es m.world
        (λ err n. s.keeps d es err n fresh) m (inner.process ctx es m.world)
        (Steps.settled-op rt store inner Applied Holds c d (processes ctx es))

  half-Settles :
      (recurse : Recurse) (s : IsSound recurse) (ctx : Ctx) (es : List CdcEvent) (m : Manager W)
      → Distinct es
      → Settles es (half rt store inner recurse ctx es m)
  unfolding half
  half-Settles recurse s ctx es m distinct =
      Steps.Settles-after_half rt store inner Applied Holds c recurse ctx es
        (λ err n. s.settles es err n distinct) m (inner.process ctx es m.world)
        (c.applies ctx es m.world)

  halves-IsSound :
      (recurse : Recurse) (ctx : Ctx)
      → IsSound recurse
      → IsSound (λ es err. halves rt store inner recurse ctx es)
  unfolding halves
  halves-IsSound recurse ctx s = record {
    keeps = λ d es err m fresh.
        let mid = length es / 2 in
        let both : Fresh d.id (take mid es ++ drop mid es) =
          subst (Fresh d.id) (sym (take-drop mid es)) fresh in
        Account.Keeps-continue rt store inner Applied Holds d m.world _ _
          (half-Keeps recurse s d ctx (take mid es) m
            (Fresh-left d.id (take mid es) (drop mid es) both))
          (λ n.
            half-Keeps recurse s d ctx (drop mid es) n
              (Fresh-right d.id (take mid es) (drop mid es) both));
    settles = λ es err m distinct.
        let mid = length es / 2 in
        let (left, right, apart) =
          Distinct-append (take mid es) (drop mid es)
            (subst Distinct (sym (take-drop mid es)) distinct) in
        subst (λ xs. Settles xs (halves rt store inner recurse ctx es m)) (take-drop mid es)
          (Account.Settles-continue rt store inner Applied Holds (take mid es) (drop mid es) _ _
            (half-Settles recurse s ctx (take mid es) m left)
            (λ n. half-Settles recurse s ctx (drop mid es) n right)
            (λ n.
              All-map (λ x fresh. half-Keeps recurse s x ctx (drop mid es) n fresh) (take mid es)
                apart));
  }

  isolate_step :
      (fuel : ℕ) (ctx : Ctx)
      → IsSound (λ es err. halves rt store inner (isolate rt store inner fuel ctx) ctx es)
      → IsSound (isolate rt store inner (suc fuel) ctx)
  unfolding isolate
  isolate_step fuel ctx more = record { keeps = keeps; settles = settles }
    where
      keeps :
          (d : CdcEvent) (es : List CdcEvent) (err : Error) (m : Manager W)
          → Fresh d.id es
          → Keeps d m.world (isolate rt store inner (suc fuel) ctx es err m)
      keeps d [] err m f = more.keeps d [] err m f
      keeps d (e ∷ []) err m f = Steps.Keeps-park rt store inner Applied Holds c d e ctx err m f.0
      keeps d (e ∷ e' ∷ es) err m f = more.keeps d (e ∷ e' ∷ es) err m f

      settles :
          (es : List CdcEvent) (err : Error) (m : Manager W)
          → Distinct es
          → Settles es (isolate rt store inner (suc fuel) ctx es err m)
      settles [] err m f = more.settles [] err m f
      settles (e ∷ []) err m f = Steps.Settles-park rt store inner Applied Holds c e ctx err m
      settles (e ∷ e' ∷ es) err m f = more.settles (e ∷ e' ∷ es) err m f

  isolate-IsSound : (fuel : ℕ) (ctx : Ctx) → IsSound (isolate rt store inner fuel ctx)
  unfolding isolate
  isolate-IsSound zero ctx = record { keeps = λ d es err m f. tt; settles = λ es err m f. tt }
  isolate-IsSound (suc fuel) ctx =
      isolate_step fuel ctx
        (halves-IsSound (isolate rt store inner fuel ctx) ctx (isolate-IsSound fuel ctx))

  retry_or_isolate-Settles :
      (ctx : Ctx) (es : List CdcEvent) (err : Error) (r : Manager W × ℕ × ℕ × Bool)
      → Distinct es
      → Settles es (retry_or_isolate rt store inner ctx es err r)
  unfolding retry_or_isolate isolate_all
  retry_or_isolate-Settles ctx es err (m, count, first, true) d =
      (isolate-IsSound (length es) ctx).settles es err m d
  retry_or_isolate-Settles ctx es err (m, count, first, false) d = tt

  after_batch-Settles :
      (ctx : Ctx) (e : CdcEvent) (es : List CdcEvent) (m : Manager W) (r : W × Option Error)
      → Distinct (e ∷ es)
      → ((v : W) → r ≡ (v, none) → All (λ x. Applied x v) (e ∷ es))
      → Settles (e ∷ es) (after_batch rt store inner ctx e es m r)
  unfolding after_batch clear_failures isolate_all
  after_batch-Settles ctx e es m (v, none) d applied =
      All-map (λ x a. inl a) (e ∷ es) (applied v refl)
  after_batch-Settles ctx e es m (v, some err) d applied =
      let n = record m { world = v } in
      elim (Bool-cases (stalls rt ctx err v)) [
        | inl q ↦ rw (q) tt
        | inr q ↦ rw (q) (elim (Bool-cases (is_permanent err)) [
          | inl p ↦ rw (p) ((isolate-IsSound (suc (length es)) ctx).settles (e ∷ es) err n d)
          | inr p ↦
              rw (p)
                (retry_or_isolate-Settles ctx (e ∷ es) err (record_failure rt inner.name e.id n) d)
        ])
      ]

  -- Take a sink that has applied a whole batch when it says nil and forgets nothing, and a store that
  -- holds what it parked until the same id is parked again. When Process accepts a batch of events
  -- with distinct ids, by returning a nil error, then each of them is applied at the sink, or the
  -- store holds an entry with that event, this sink's name and the key of both.
  pub process-no_loss :
      (ctx : Ctx) (es : List CdcEvent) (m n : Manager W)
      → Distinct es
      → process rt store inner ctx es m ≡ some (n, none)
      → All (Settled n.world) es
  unfolding process
  process-no_loss ctx [] m n d h = tt
  process-no_loss ctx (e ∷ es) m n d h = subst (Settles (e ∷ es)) h (
      after_batch-Settles ctx e es m (inner.process ctx (e ∷ es) m.world) d
        (c.applies ctx (e ∷ es) m.world))
