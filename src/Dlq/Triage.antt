-- ===== src/Dlq/Triage.antt =====
-- dlq/manager.go, the triage API of ports.DLQManager: List, Len, Retry, RetryAll and Discard.
pub mod Delivered
use Prim.Native.String.{◌++◌ as ◌<>◌}
use gtc.Base.{ℕ, zero, suc, ◌+◌, String, Bool, true, false, List, [], ◌∷◌, Option, none, some}
use gtc.Base.Int.{ℤ, pos}
use gtc.Base.Dict
use gtc.Domain.Errors.{Error, wrap, message}
use gtc.Domain.Event.{CdcEvent}
use gtc.Domain.Sink.{Ctx, with_timeout, Sink, Runtime}
use gtc.Dlq.Store.{DeadLetterEntry, Store, Answer, got, failed}
use gtc.Dlq.Manager.{Manager, update_depth_gauge}

pub record RetryResult : Type 0 where
  pub retried : ℕ
  pub succeeded : ℕ
  pub failed_count : ℕ

module _ {W : Type 0} (rt : Runtime W) (store : Store W) where
  -- List
  unfoldable pub list : Ctx → ℤ → Manager W → Manager W × Answer (List DeadLetterEntry)
  list ctx limit m = let (w, r) = store.list ctx limit m.world in (record m { world = w }, r)

  -- Len
  unfoldable pub len : Ctx → Manager W → Manager W × Answer ℕ
  len ctx m = let (w, r) = store.len ctx m.world in (record m { world = w }, r)

  -- the entry that Retry parks again
  failed_again : DeadLetterEntry → Error → ℕ → DeadLetterEntry
  failed_again x cause now = record x {
    attempts = x.attempts + 1;
    error = rt.error_text cause;
    last_failed_at = now;
  }

  -- if err := m.store.Remove(ctx, id); err != nil { return ... }, and the gauge
  pub removed : Ctx → Manager W → (Error → Error) → W × Option Error → Manager W × Option Error
  removed ctx m wrapping (w, some e) = (record m { world = w }, some (wrapping e))
  removed ctx m wrapping (w, none) =
      (update_depth_gauge rt store ctx (record m { world = w }), none)

  -- The rest of Retry after the sink's answer; an error of Park is logged.
  pub after_process :
      Ctx → String → DeadLetterEntry → Manager W → W × Option Error → Manager W × Option Error
  unfolding removed failed_again
  after_process ctx id x m (w, some e) =
      let (w₁, now) = rt.now w in
      (
        record m { world = (store.park ctx (failed_again x e now) w₁).0 },
        some (wrap "retry failed: " e),
      )
  after_process ctx id x m (w, none) =
      removed ctx m (wrap "retry succeeded but entry removal failed: ") (store.remove ctx id w)

  pub with_sink :
      Ctx → String → DeadLetterEntry → Manager W → Option (Sink W) → Manager W × Option Error
  unfolding after_process
  with_sink ctx id x m none =
      (m, some (message ("sink \"" <> x.sink_name <> "\" is not active in this instance")))
  with_sink ctx id x m (some s) =
      after_process ctx id x m (s.process (with_timeout ctx m.retry_timeout) (x.event ∷ []) m.world)

  pub with_entry : Ctx → String → Manager W → W × Answer DeadLetterEntry → Manager W × Option Error
  unfolding with_sink
  with_entry ctx id m (w, failed e) = (record m { world = w }, some e)
  with_entry ctx id m (w, got x) =
      with_sink ctx id x (record m { world = w }) (Dict.get x.sink_name m.sinks)

  -- Retry
  unfoldable pub retry : Ctx → String → Manager W → Manager W × Option Error
  unfolding with_entry
  retry ctx id m = with_entry ctx id m (store.get ctx id m.world)

  pub counted : RetryResult → Option Error → RetryResult
  counted r none = record r { retried = r.retried + 1; succeeded = r.succeeded + 1 }
  counted r (some e) = record r { retried = r.retried + 1; failed_count = r.failed_count + 1 }

  -- the loop of RetryAll, with what it has counted
  pub retry_each :
      Ctx → List DeadLetterEntry → RetryResult → Manager W → Manager W × RetryResult × Option Error
  unfolding retry counted
  retry_each ctx [] r m = (m, r, none)
  retry_each ctx (x ∷ xs) r m = elim (rt.ctx_err ctx m.world) [
    | some e ↦ (m, r, some e)
    | none ↦ (let (m₁, err) = retry ctx x.id m in retry_each ctx xs (counted r err) m₁)
  ]

  pub retry_listed :
      Ctx → Manager W → W × Answer (List DeadLetterEntry) → Manager W × RetryResult × Option Error
  unfolding retry_each
  retry_listed ctx m (w, failed e) =
      (record m { world = w }, record { retried = 0; succeeded = 0; failed_count = 0 }, some e)
  retry_listed ctx m (w, got xs) =
      retry_each ctx xs (record { retried = 0; succeeded = 0; failed_count = 0 })
        (record m { world = w })

  -- RetryAll
  pub retry_all : Ctx → Manager W → Manager W × RetryResult × Option Error
  unfolding retry_listed
  retry_all ctx m = retry_listed ctx m (store.list ctx (pos 0) m.world)

  -- Discard
  unfoldable pub discard : Ctx → String → Manager W → Manager W × Option Error
  unfolding removed
  discard ctx id m = removed ctx m (λ e. e) (store.remove ctx id m.world)
