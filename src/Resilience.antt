-- ===== src/Resilience.antt =====
-- internal/infrastructure/resilience/circuit_breaker.go: retries with exponential backoff, and the
-- circuit breaker around them. The breaker itself is the library gobreaker, a parameter here.
pub mod Retry
pub mod Breaker
use gtc.Base.{
  ℕ, zero, suc, ◌+◌, ◌*◌, min, Bool, true, false, not, ◌||◌, List, [], ◌∷◌, Option, none, some,
  is_none, is_some, leb, ltb, ◌==◌, if◌then◌else◌, String,
}
use gtc.Base.Int.{ℤ, pos, negsuc}
use gtc.Domain.Errors.{
  Error, wrap, is, is_permanent, circuit_open, canceled, open_state, too_many_requests, sentinel,
}
use gtc.Domain.Event.{CdcEvent}
use gtc.Domain.Sink.{Sink, Ctx, Runtime, with_timeout, max_batch_events}

-- Durations are in nanoseconds; those that the code compares with 0 may be negative. The configuration is
-- validated: MaxRetries is at least 0 (internal/infrastructure/config/config.go).
pub record ResilienceConfig : Type 0 where
  pub attempt_timeout : ℤ
  pub max_retries : ℕ
  pub initial_backoff : ℕ
  pub max_backoff : ℕ
  pub circuit_open_duration : ℕ
  pub failure_threshold : ℕ

abbrev pub default_resilience_config : ResilienceConfig
default_resilience_config = record {
  attempt_timeout = pos 30_000_000_000;
  max_retries = 3;
  initial_backoff = 100_000_000;
  max_backoff = 5_000_000_000;
  circuit_open_duration = 30_000_000_000;
  failure_threshold = 5;
}

-- gobreaker: Execute runs the request, or refuses it with an error of its own. `is_successful` is the
-- callback of the settings, `trips` the other one.
pub record CircuitBreaker (W : Type 0) : Type 0 where
  pub execute : (W → W × Option Error) → W → W × Option Error

-- ReadyToTrip, on the count of consecutive failures
unfoldable pub ready_to_trip : ResilienceConfig → ℕ → Bool
ready_to_trip cfg consecutive_failures = leb cfg.failure_threshold consecutive_failures

-- IsSuccessful
unfoldable pub is_successful : Option Error → Bool
is_successful none = true
is_successful (some e) = is_permanent e || is e canceled

module _ {W : Type 0} (rt : Runtime W) (cfg : ResilienceConfig) (inner : Sink W) where
  attempt_within : ℤ → Ctx → List CdcEvent → W → W × Option Error
  attempt_within (pos zero) ctx events w = inner.process ctx events w
  attempt_within (pos (suc t)) ctx events w = inner.process (with_timeout ctx (suc t)) events w
  attempt_within (negsuc n) ctx events w = inner.process ctx events w

  pub attempt : Ctx → List CdcEvent → W → W × Option Error
  unfolding attempt_within
  attempt ctx events w = attempt_within cfg.attempt_timeout ctx events w

  -- The rest of a round after an attempt: `left` rounds may follow, and `again` is the next one.
  pub after_attempt : Ctx → ℕ → ℕ → (W → W × Option Error) → W × Option Error → W × Option Error
  after_attempt ctx left backoff again (w, none) = (w, none)
  after_attempt ctx left backoff again (w, some e) =
      if is_permanent e || is_some (rt.ctx_err ctx w) || left == 0
      then (w, some e)
      else (let (v, cancelled) = rt.sleep ctx backoff w in
          if cancelled then (v, some e) else again v)

  -- for i := 0; i <= MaxRetries; i++, on the number of rounds that may follow this one
  pub rounds : ℕ → ℕ → Ctx → List CdcEvent → W → W × Option Error
  unfolding after_attempt
  rounds zero backoff ctx events w =
      after_attempt ctx 0 backoff (λ v. (v, none)) (attempt ctx events w)
  rounds (suc left) backoff ctx events w =
      after_attempt ctx (suc left) backoff
        (rounds left (min (backoff * 2) cfg.max_backoff) ctx events) (attempt ctx events w)

  pub process_with_retry : Ctx → List CdcEvent → W → W × Option Error
  unfolding rounds
  process_with_retry ctx events w = rounds cfg.max_retries cfg.initial_backoff ctx events w

  -- errors.Is(err, ErrOpenState) || errors.Is(err, ErrTooManyRequests)
  unfoldable pub refused : Error → Bool
  refused e = is e open_state || is e too_many_requests

  pub wrapped : W × Option Error → W × Option Error
  unfolding refused
  wrapped (w, none) = (w, none)
  wrapped (w, some e) =
      if refused e then (w, some (wrap (rt.error_text e) (sentinel circuit_open))) else (w, some e)

  -- Process
  unfoldable pub process : CircuitBreaker W → Ctx → List CdcEvent → W → W × Option Error
  unfolding wrapped
  process breaker ctx [] w = (w, none)
  process breaker ctx (e ∷ es) w = wrapped (breaker.execute (process_with_retry ctx (e ∷ es)) w)
