-- ===== src/Resilience/Breaker.antt =====
-- resilience/circuit_breaker.go, Process: what a refusal of the breaker becomes for the dead-letter queue.
use gtc.Base.{◌≡◌, ◌⊎◌, Option, some}
use gtc.Domain.Errors.{Error, sentinel, open_state, too_many_requests}
use gtc.Domain.Sink.{Sink, Runtime}
use gtc.Resilience.{ResilienceConfig, CircuitBreaker}

-- The documented behaviour of Execute: it runs the request, or refuses it with ErrOpenState or
-- ErrTooManyRequests and runs nothing.
abbrev pub Obeys : {W : Type 0} → Runtime W → ResilienceConfig → Sink W → CircuitBreaker W → Type 0
Obeys {W} rt cfg inner breaker =
    (request : W → W × Option Error) (w : W)
    → (breaker.execute request w ≡ request w)
      ⊎ (breaker.execute request w ≡ (w, some (sentinel open_state)))
      ⊎ (breaker.execute request w ≡ (w, some (sentinel too_many_requests)))
