-- ===== src/Services/Deliver.antt =====
-- deliver of internal/core/services/cdc_service.go: a batch goes to one sink in pieces of at most
-- the sink's own delivery unit.
pub mod Pieces
use gtc.Base.{
  ℕ, zero, suc, ◌+◌, List, Option, none, some, ltb, leb, min, length, slice, if◌then◌else◌,
}
use gtc.Base.Int.{ℤ, pos, negsuc}
use gtc.Domain.Errors.{Error}
use gtc.Domain.Event.{CdcEvent}
use gtc.Domain.Sink.{Sink, Ctx, if_ok, max_batch_events}

module _ {W : Type 0} (s : Sink W) (ctx : Ctx) where
  -- for start := 0; start < len(events); start += limit, on the number of rounds left
  pub deliver_from : ℕ → ℕ → ℕ → List CdcEvent → W → W × Option Error
  deliver_from zero limit start events w = (w, none)
  deliver_from (suc rounds) limit start events w =
      if ltb start (length events)
      then if_ok (s.process ctx (slice start (min (start + limit) (length events)) events) w)
          (λ v. deliver_from rounds limit (start + limit) events v)
      else (w, none)

  deliver_at : ℤ → List CdcEvent → W → W × Option Error
  deliver_at (pos zero) events w = s.process ctx events w
  deliver_at (pos (suc n)) events w =
      if leb (length events) (suc n)
      then s.process ctx events w
      else deliver_from (length events) (suc n) 0 events w
  deliver_at (negsuc n) events w = s.process ctx events w

  unfoldable pub deliver : List CdcEvent → W → W × Option Error
  unfolding deliver_at deliver_from max_batch_events
  deliver events w = deliver_at (max_batch_events s) events w
