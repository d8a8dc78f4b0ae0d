-- ===== src/Dlq/Isolation.antt =====
-- dlq/sink.go: the decorator that isolates poison events by bisection. `none` is only ever the end
-- of the fuel, which `Isolation.Total` shows is never reached.
pub mod Total
pub mod Account
pub mod Exact
use gtc.Base.{
  ℕ, zero, suc, ◌+◌, ◌/◌, Bool, true, false, ◌||◌, List, [], ◌∷◌, Option, none, some, is_some,
  length, take, drop, if◌then◌else◌,
}
use gtc.Domain.Errors.{Error, is, is_permanent, circuit_open, deadline_exceeded, join_list}
use gtc.Domain.Event.{CdcEvent}
use gtc.Domain.Sink.{Ctx, Sink, Runtime}
use gtc.Dlq.Store.{Store}
use gtc.Dlq.Manager
use gtc.Dlq.Manager.{Manager, record_failure, clear_failures, failure_info}

-- A manager and an error, or the end of the fuel.
abbrev pub Run : Type 0 → Type 0
Run W = Option (Manager W × Option Error)

-- if err != nil { return err }, and the rest
abbrev pub continue : {W : Type 0} → Run W → (Manager W → Run W) → Run W
continue none rest = none
continue (some (m, none)) rest = rest m
continue (some (m, some e)) rest = some (m, some e)

module _ {W : Type 0} (rt : Runtime W) where
  unfoldable pub stalls : Ctx → Error → W → Bool
  stalls ctx e w = is e circuit_open || is e deadline_exceeded || is_some (rt.ctx_err ctx w)

module _ {W : Type 0} (rt : Runtime W) (store : Store W) (inner : Sink W) where
  pub parked_or_both : Error → Manager W × Option Error → Manager W × Option Error
  parked_or_both cause (m, none) = (m, none)
  parked_or_both cause (m, some e) = (m, join_list (cause ∷ e ∷ []))

  unfoldable pub park : Ctx → CdcEvent → Error → Manager W → Manager W × Option Error
  unfolding parked_or_both
  park ctx event cause m =
      let (m', attempts, first) = failure_info rt inner.name event.id m in
      parked_or_both cause (Manager.park rt store ctx inner.name event cause attempts first m')

  unfoldable pub after_half :
      (List CdcEvent → Error → Manager W → Run W)
      → Ctx
      → List CdcEvent
      → Manager W
      → W × Option Error
      → Run W
  after_half recurse ctx events m (w, none) =
      some (clear_failures inner.name events (record m { world = w }), none)
  after_half recurse ctx events m (w, some e) =
      if stalls rt ctx e w
      then some (record m { world = w }, some e)
      else recurse events e (record m { world = w })

  -- one round of the loop over the halves
  unfoldable pub half :
      (List CdcEvent → Error → Manager W → Run W) → Ctx → List CdcEvent → Manager W → Run W
  half recurse ctx events m = after_half recurse ctx events m (inner.process ctx events m.world)

  unfoldable pub halves :
      (List CdcEvent → Error → Manager W → Run W) → Ctx → List CdcEvent → Manager W → Run W
  halves recurse ctx events m =
      let mid = length events / 2 in
      continue (half recurse ctx (take mid events) m) (half recurse ctx (drop mid events))

  -- the error of a batch of several is dropped, as in the source
  unfoldable pub isolate : ℕ → Ctx → List CdcEvent → Error → Manager W → Run W
  isolate zero ctx events err m = none
  isolate (suc fuel) ctx (e ∷ []) err m = some (park ctx e err m)
  isolate (suc fuel) ctx events err m = halves (isolate fuel ctx) ctx events m

  isolate_all : Ctx → List CdcEvent → Error → Manager W → Run W
  isolate_all ctx events err m = isolate (length events) ctx events err m

  -- the count of a transient failure, on the batch's first event
  retry_or_isolate : Ctx → List CdcEvent → Error → Manager W × ℕ × ℕ × Bool → Run W
  unfolding isolate_all
  retry_or_isolate ctx events err (m, count, first, true) = isolate_all ctx events err m
  retry_or_isolate ctx events err (m, count, first, false) = some (m, some err)

  after_batch : Ctx → CdcEvent → List CdcEvent → Manager W → W × Option Error → Run W
  unfolding retry_or_isolate
  after_batch ctx event events m (w, none) =
      some (clear_failures inner.name (event ∷ events) (record m { world = w }), none)
  after_batch ctx event events m (w, some e) =
      let m' = record m { world = w } in
      if stalls rt ctx e w
      then some (m', some e)
      else if is_permanent e
      then isolate_all ctx (event ∷ events) e m'
      else retry_or_isolate ctx (event ∷ events) e (record_failure rt inner.name event.id m')

  -- Process
  unfoldable pub process : Ctx → List CdcEvent → Manager W → Run W
  unfolding after_batch
  process ctx [] m = some (m, none)
  process ctx (event ∷ events) m =
      after_batch ctx event events m (inner.process ctx (event ∷ events) m.world)
