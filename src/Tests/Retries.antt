-- ===== src/Tests/Retries.antt =====
-- resilience/circuit_breaker.go: a sink that always fails is tried four times.
use gtc.Base.{inl, refl, suc, ◌≤◌, some}
use gtc.Domain.Errors.{Error, message}
use gtc.Domain.Sink.{Sink, root}
use gtc.Resilience.{default_resilience_config, process_with_retry}
use gtc.Base.{inr}
use gtc.Domain.Errors.{sentinel, open_state, too_many_requests}
use gtc.Resilience as Resilience
use gtc.Resilience.{CircuitBreaker, refused}
use gtc.Resilience.Breaker.{Obeys}
use gtc.Resilience.Retry.{Runs, attempts, process_with_retry-Runs}
use gtc.Tests.World.{World, sink, runtime, batch, empty}

abbrev down : Error
down = message "connection refused"

abbrev failing : Sink World
failing = record sink { process = λ ctx es w. (record w { calls = suc w.calls }, some down) }

process_with_retry-Runs_example :
    (run : Runs runtime default_resilience_config failing root batch
      default_resilience_config.max_retries default_resilience_config.initial_backoff empty
      (process_with_retry runtime default_resilience_config failing root batch empty))
    × (attempts runtime default_resilience_config failing root batch run
        ≤ suc default_resilience_config.max_retries)
process_with_retry-Runs_example =
    process_with_retry-Runs runtime default_resilience_config failing root batch empty

abbrev open_breaker : CircuitBreaker World
open_breaker = record { execute = λ request w. (w, some (sentinel open_state)) }

open_breaker-Obeys : Obeys runtime default_resilience_config sink open_breaker
open_breaker-Obeys request w = inr (inl refl)

-- a half-open breaker that has its request
abbrev busy_breaker : CircuitBreaker World
busy_breaker = record { execute = λ request w. (w, some (sentinel too_many_requests)) }
