-- ===== src/Resilience/Retry.antt =====
-- resilience/circuit_breaker.go, processWithRetry: how often the sink is called, and what is returned.
use gtc.Base.{
  ℕ, zero, suc, ◌*◌, ◌≤◌, ◌≡◌, refl, ◌⊎◌, inl, inr, min, Bool, true, false, List, Option, none,
  some, is_some, ◌==◌, Bool-cases, Option-cases, if◌then◌else◌, arith, ap,
}
use gtc.Domain.Errors.{Error, is_permanent}
use gtc.Domain.Event.{CdcEvent}
use gtc.Domain.Sink.{Sink, Ctx, Runtime}
use gtc.Resilience.{ResilienceConfig, after_attempt, rounds, attempt, process_with_retry}

module _ {W : Type 0} (rt : Runtime W) (cfg : ResilienceConfig) (inner : Sink W) (ctx : Ctx)
    (events : List CdcEvent) where
  abbrev tries : W → W × Option Error
  tries = attempt rt cfg inner ctx events

  -- The loop gives up on this error: it is permanent, the context is done, or no round is left.
  abbrev Final : ℕ → Error → W → Type 0
  Final left e w = (is_permanent e ≡ true) ⊎ (is_some (rt.ctx_err ctx w) ≡ true) ⊎ (left ≡ 0)

  -- How the loop goes from world `w` to the result `r`, with at most `left` further rounds and this
  -- backoff: each attempt that failed with a transient error is followed by a wait of the backoff, and
  -- the next one by twice that wait, up to the maximum.
  pub data Runs : ℕ → ℕ → W → W × Option Error → Type 0 where
    succeeds : {left backoff : ℕ} {w v : W} → tries w ≡ (v, none) → Runs left backoff w (v, none)
    gives_up :
        {left backoff : ℕ} {w v : W} {e : Error}
        → tries w ≡ (v, some e)
        → Final left e v
        → Runs left backoff w (v, some e)
    interrupted :
        {left backoff : ℕ} {w v u : W} {e : Error}
        → tries w ≡ (v, some e)
        → is_permanent e ≡ false
        → rt.sleep ctx backoff v ≡ (u, true)
        → Runs left backoff w (u, some e)
    retries :
        {left backoff : ℕ} {w v u : W} {e : Error} {r : W × Option Error}
        → tries w ≡ (v, some e)
        → is_permanent e ≡ false
        → rt.ctx_err ctx v ≡ none
        → rt.sleep ctx backoff v ≡ (u, false)
        → Runs left (min (backoff * 2) cfg.max_backoff) u r
        → Runs (suc left) backoff w r

  -- The number of attempts of a run
  pub attempts : {left backoff : ℕ} {w : W} {r : W × Option Error} → Runs left backoff w r → ℕ
  attempts (succeeds p) = 1
  attempts (gives_up p f) = 1
  attempts (interrupted p q s) = 1
  attempts (retries p q c s rest) = suc (attempts rest)

  attempts-le :
      {left backoff : ℕ} {w : W} {r : W × Option Error} (run : Runs left backoff w r)
      → attempts run ≤ suc left
  unfolding attempts
  attempts-le (succeeds p) = omega arith
  attempts-le (gives_up p f) = omega arith
  attempts-le (interrupted p q s) = omega arith
  attempts-le (retries p q c s rest) = (let h = attempts-le rest in omega arith)

  abbrev Again : ℕ → ℕ → (W → W × Option Error) → Type 0
  Again zero backoff again = Unit
  Again (suc left) backoff again =
      (v : W) → Runs left (min (backoff * 2) cfg.max_backoff) v (again v)

  waited :
      (left backoff : ℕ) (again : W → W × Option Error) {w v : W} {e : Error}
      → Again left backoff again
      → tries w ≡ (v, some e)
      → is_permanent e ≡ false
      → rt.ctx_err ctx v ≡ none
      → (left == 0) ≡ false
      → (s : W × Bool) → rt.sleep ctx backoff v ≡ s
      → Runs left backoff w (let (u, cancelled) = s in if cancelled then (u, some e) else again u)
  waited zero backoff again h t p c n s q = absurd (ground arith)
  waited (suc left) backoff again h t p c n (u, true) q = interrupted t p q
  waited (suc left) backoff again h t p c n (u, false) q = retries t p c q (h u)

  failed_attempt :
      (left backoff : ℕ) (again : W → W × Option Error) {w : W} (v : W) (e : Error)
      → Again left backoff again
      → tries w ≡ (v, some e)
      → Runs left backoff w (after_attempt rt cfg inner ctx left backoff again (v, some e))
  unfolding after_attempt
  failed_attempt left backoff again v e h t = elim (Bool-cases (is_permanent e)) [
    | inl p ↦ rw (p) (gives_up t (inl p))
    | inr p ↦ elim (Option-cases (rt.ctx_err ctx v)) [
      | inl c ↦ elim (Bool-cases (left == 0)) [
        | inl z ↦ rw (p, c, z) (gives_up t (inr (inr (ground arith))))
        | inr z ↦ rw (p, c, z) (waited left backoff again h t p c z (rt.sleep ctx backoff v) refl)
      ]
      | inr (x, c) ↦ rw (p, c) (gives_up t (inr (inl (ap is_some c))))
    ]
  ]

  after_attempt-Runs :
      (left backoff : ℕ) (again : W → W × Option Error) {w : W} (r : W × Option Error)
      → Again left backoff again
      → tries w ≡ r
      → Runs left backoff w (after_attempt rt cfg inner ctx left backoff again r)
  unfolding after_attempt
  after_attempt-Runs left backoff again (v, none) h t = succeeds t
  after_attempt-Runs left backoff again (v, some e) h t = failed_attempt left backoff again v e h t

  rounds-Runs :
      (left backoff : ℕ) (w : W)
      → Runs left backoff w (rounds rt cfg inner left backoff ctx events w)
  unfolding rounds
  rounds-Runs zero backoff w = after_attempt-Runs 0 backoff (λ v. (v, none)) (tries w) tt refl
  rounds-Runs (suc left) backoff w =
      after_attempt-Runs (suc left) backoff
        (rounds rt cfg inner left (min (backoff * 2) cfg.max_backoff) ctx events) (tries w)
        (rounds-Runs left (min (backoff * 2) cfg.max_backoff)) refl

  -- The retries of a batch are such a run: attempts, each followed by a wait of the backoff that doubles up
  -- to its maximum, until one succeeds, fails for good, finds its context done, or is the last one. The
  -- result is the last attempt's, and there are at most MaxRetries + 1 of them.
  pub process_with_retry-Runs :
      (w : W)
      → (run : Runs cfg.max_retries cfg.initial_backoff w
          (process_with_retry rt cfg inner ctx events w))
        × (attempts run ≤ suc cfg.max_retries)
  unfolding process_with_retry
  process_with_retry-Runs w = (
    rounds-Runs cfg.max_retries cfg.initial_backoff w,
    attempts-le (rounds-Runs cfg.max_retries cfg.initial_backoff w),
  )
