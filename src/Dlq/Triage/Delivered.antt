-- ===== src/Dlq/Triage/Delivered.antt =====
-- dlq/manager.go: what a successful Retry has done, and what RetryAll counts.
use gtc.Base.{
  ℕ, zero, suc, ◌+◌, ◌≡◌, refl, ap, subst, ◌∙◌, ◌⊎◌, inl, inr, String, List, [], ◌∷◌, ◌++◌, Option,
  none, some, Option-cases, arith,
}
use gtc.Base.Int.{pos}
use gtc.Base.Dict
use gtc.Domain.Errors.{Error}
use gtc.Domain.Sink.{Ctx, with_timeout, Sink, Runtime}
use gtc.Dlq.Store.{DeadLetterEntry, Store, Answer, got, failed}
use gtc.Dlq.Manager.{Manager}
use gtc.Dlq.Triage.{
  RetryResult, removed, after_process, with_sink, with_entry, retry, counted, retry_each,
  retry_listed, retry_all,
}

module _ {W : Type 0} (rt : Runtime W) (store : Store W) (ctx : Ctx) where
  -- The entry was read, its sink took its event alone, within the timeout, and then the entry was removed.
  abbrev pub Delivered : String → Manager W → Type 0
  Delivered id m =
      (x : DeadLetterEntry) × (s : Sink W) × (w : W) × (v : W) × (u : W) × (store.get ctx id m.world
        ≡ (w, got x))
      × (Dict.get x.sink_name m.sinks ≡ some s)
      × (s.process (with_timeout ctx m.retry_timeout) (x.event ∷ []) w ≡ (v, none))
      × (store.remove ctx id v ≡ (u, none))

  removed-none :
      (m : Manager W) (f : Error → Error) (r : W × Option Error)
      → (removed rt store ctx m f r).1 ≡ none
      → (u : W) × (r ≡ (u, none))
  unfolding removed
  removed-none m f (u, none) p = (u, refl)
  removed-none m f (u, some e) p = absurd (ground arith)

  after_process-none :
      (id : String) (x : DeadLetterEntry) (m : Manager W) (r : W × Option Error)
      → (after_process rt store ctx id x m r).1 ≡ none
      → (v : W) × (u : W) × (r ≡ (v, none)) × (store.remove ctx id v ≡ (u, none))
  unfolding after_process
  after_process-none id x m (v, some e) p = absurd (ground arith)
  after_process-none id x m (v, none) p =
      let (u, q) = removed-none m _ (store.remove ctx id v) p in (v, u, refl, q)

  with_sink-none :
      (id : String) (x : DeadLetterEntry) (m : Manager W) (o : Option (Sink W))
      → (with_sink rt store ctx id x m o).1 ≡ none
      → (s : Sink W) × (v : W) × (u : W) × (o ≡ some s)
        × (s.process (with_timeout ctx m.retry_timeout) (x.event ∷ []) m.world ≡ (v, none))
        × (store.remove ctx id v ≡ (u, none))
  unfolding with_sink
  with_sink-none id x m none p = absurd (ground arith)
  with_sink-none id x m (some s) p =
      let (v, u, q, q') =
        after_process-none id x m
          (s.process (with_timeout ctx m.retry_timeout) (x.event ∷ []) m.world) p in
      (s, v, u, refl, q, q')

  with_entry-none :
      (id : String) (m : Manager W) (r : W × Answer DeadLetterEntry)
      → store.get ctx id m.world ≡ r
      → (with_entry rt store ctx id m r).1 ≡ none
      → Delivered id m
  unfolding with_entry
  with_entry-none id m (w, failed e) g p = absurd (ground arith)
  with_entry-none id m (w, got x) g p =
      let (s, v, u, k, q, q') =
        with_sink-none id x (record m { world = w }) (Dict.get x.sink_name m.sinks) p in
      (x, s, w, v, u, g, k, q, q')

  -- When Retry returns no error, the entry was read from the store, the sink registered under its name took
  -- its event as a batch of one without an error, and only after that the entry was removed, without an error.
  pub retry-Delivered :
      (id : String) (m : Manager W) → (retry rt store ctx id m).1 ≡ none → Delivered id m
  unfolding retry
  retry-Delivered id m p = with_entry-none id m (store.get ctx id m.world) refl p

  -- The entries were retried one after the other, each on what the one before it left and with the context live:
  -- so many have been delivered and removed, and so many have failed.
  pub data Retries : Manager W → List DeadLetterEntry → ℕ → ℕ → Manager W → Type 0 where
    nothing : {m : Manager W} → Retries m [] zero zero m
    delivers :
        {x : DeadLetterEntry} {xs : List DeadLetterEntry} {m m₁ m' : Manager W} {s f : ℕ}
        → rt.ctx_err ctx m.world ≡ none
        → retry rt store ctx x.id m ≡ (m₁, none)
        → Delivered x.id m
        → Retries m₁ xs s f m'
        → Retries m (x ∷ xs) (suc s) f m'
    fails :
        {x : DeadLetterEntry} {xs : List DeadLetterEntry} {m m₁ m' : Manager W} {s f : ℕ}
        (e : Error)
        → rt.ctx_err ctx m.world ≡ none
        → retry rt store ctx x.id m ≡ (m₁, some e)
        → Retries m₁ xs s f m'
        → Retries m (x ∷ xs) s (suc f) m'

  -- what is left is nothing and there is no error, or there is something and the context has ended
  abbrev pub Ended : List DeadLetterEntry → Manager W → Option Error → Type 0
  Ended rest m err =
      ((rest ≡ []) × (err ≡ none))
      ⊎ ((e : Error) × (x : DeadLetterEntry) × (xs : List DeadLetterEntry) × (rest ≡ x ∷ xs)
          × (rt.ctx_err ctx m.world ≡ some e)
          × (err ≡ some e))

  abbrev pub Out : Type 0
  Out = Manager W × RetryResult × Option Error

  -- from these counts, a part of the entries is retried, and the counts grow by what the retries did
  record Tries (xs : List DeadLetterEntry) (r : RetryResult) (m : Manager W) (out : Out)
      : Type 0 where
    tried : List DeadLetterEntry
    rest : List DeadLetterEntry
    successes : ℕ
    failures : ℕ
    split : xs ≡ tried ++ rest
    trace : Retries m tried successes failures out.0
    of_succeeded : out.1.succeeded ≡ r.succeeded + successes
    of_failed : out.1.failed_count ≡ r.failed_count + failures
    of_retried : out.1.retried ≡ r.retried + (successes + failures)
    ended : Ended rest out.0 out.2

  retry_first :
      (x : DeadLetterEntry) (xs : List DeadLetterEntry) (r : RetryResult) (m m₁ : Manager W)
      (err : Option Error) (out : Out)
      → rt.ctx_err ctx m.world ≡ none
      → retry rt store ctx x.id m ≡ (m₁, err)
      → Tries xs (counted rt store r err) m₁ out
      → Tries (x ∷ xs) r m out
  unfolding counted
  retry_first x xs r m m₁ none out live p t = record {
    tried = x ∷ t.tried;
    rest = t.rest;
    successes = suc t.successes;
    failures = t.failures;
    split = ap (λ ys. x ∷ ys) t.split;
    trace = delivers live p (retry-Delivered x.id m (ap (λ o. o.1) p)) t.trace;
    of_succeeded = omega (arith, t.of_succeeded);
    of_failed = t.of_failed;
    of_retried = omega (arith, t.of_retried);
    ended = t.ended;
  }
  retry_first x xs r m m₁ (some e) out live p t = record {
    tried = x ∷ t.tried;
    rest = t.rest;
    successes = t.successes;
    failures = suc t.failures;
    split = ap (λ ys. x ∷ ys) t.split;
    trace = fails e live p t.trace;
    of_succeeded = t.of_succeeded;
    of_failed = omega (arith, t.of_failed);
    of_retried = omega (arith, t.of_retried);
    ended = t.ended;
  }

  retry_each-Tries :
      (xs : List DeadLetterEntry) (r : RetryResult) (m : Manager W)
      → Tries xs r m (retry_each rt store ctx xs r m)
  unfolding retry_each
  retry_each-Tries [] r m = record {
    tried = [];
    rest = [];
    successes = zero;
    failures = zero;
    split = refl;
    trace = nothing;
    of_succeeded = omega arith;
    of_failed = omega arith;
    of_retried = omega arith;
    ended = inl (refl, refl);
  }
  retry_each-Tries (x ∷ xs) r m = elim (Option-cases (rt.ctx_err ctx m.world)) [
    | inr (e, p) ↦
        rw (retry_each, p)
          (record {
            tried = [];
            rest = x ∷ xs;
            successes = zero;
            failures = zero;
            split = refl;
            trace = nothing;
            of_succeeded = omega arith;
            of_failed = omega arith;
            of_retried = omega arith;
            ended = inr (e, x, xs, refl, p, refl);
          })
    | inl p ↦
        (let step = retry rt store ctx x.id m in
          rw (retry_each, p)
            (retry_first x xs r m step.0 step.1
              (retry_each rt store ctx xs (counted rt store r step.1) step.0) p refl
              (retry_each-Tries xs (counted rt store r step.1) step.0)))
  ]

  -- The store could not list its entries, and nothing is counted; or a part of the listed entries, from the front,
  -- has been retried, and the counts are those of the retries that delivered and of those that failed.
  abbrev pub Accounted : Manager W → Out → Type 0
  Accounted m out =
      ((w : W) × (e : Error) × (store.list ctx (pos 0) m.world ≡ (w, failed e))
        × (out ≡ (
          record m { world = w },
          record { retried = 0; succeeded = 0; failed_count = 0 },
          some e,
        )))
      ⊎ ((w : W) × (tried : List DeadLetterEntry) × (rest : List DeadLetterEntry) × (store.list ctx
              (pos 0) m.world
            ≡ (w, got (tried ++ rest)))
          × Retries (record m { world = w }) tried out.1.succeeded out.1.failed_count out.0
          × (out.1.retried ≡ out.1.succeeded + out.1.failed_count)
          × Ended rest out.0 out.2)

  retry_listed-Accounted :
      (m : Manager W) (l : W × Answer (List DeadLetterEntry))
      → store.list ctx (pos 0) m.world ≡ l
      → Accounted m (retry_listed rt store ctx m l)
  unfolding retry_listed
  retry_listed-Accounted m (w, failed e) p = inl (w, e, p, refl)
  retry_listed-Accounted m (w, got xs) p =
      let zeros : RetryResult = record { retried = 0; succeeded = 0; failed_count = 0 } in
      let out = retry_each rt store ctx xs zeros (record m { world = w }) in
      let t = retry_each-Tries xs zeros (record m { world = w }) in
      let good : t.successes ≡ out.1.succeeded = omega (arith, t.of_succeeded) in
      let bad : t.failures ≡ out.1.failed_count = omega (arith, t.of_failed) in
      inr (
        w,
        t.tried,
        t.rest,
        p ∙ ap (λ ys. (w, got ys)) t.split,
        subst (λ s. Retries (record m { world = w }) t.tried s out.1.failed_count out.0) good
            (subst (λ f. Retries (record m { world = w }) t.tried t.successes f out.0) bad t.trace),
        omega (arith, t.of_retried, t.of_succeeded, t.of_failed),
        t.ended,
      )

  -- When the store lists its entries, RetryAll calls Retry on them from the front, each on what the one before left
  -- and while the context is live. It counts as succeeded the ones that Retry delivered and removed, as failed the
  -- ones on which Retry returned an error, and as retried both. It returns no error when all the entries were
  -- tried, and else the context's error. When they cannot be listed it counts nothing and returns that error.
  pub retry_all-counts : (m : Manager W) → Accounted m (retry_all rt store ctx m)
  unfolding retry_all
  retry_all-counts m = retry_listed-Accounted m (store.list ctx (pos 0) m.world) refl
