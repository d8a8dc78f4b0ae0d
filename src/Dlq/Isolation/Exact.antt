-- ===== src/Dlq/Isolation/Exact.antt =====
-- dlq/sink.go on a healthy sink that rejects exactly the batches with a poison event: what the
-- bisection delivers and parks, in which order, and how many calls it makes.
use native.Mathlib.Nat.{pow-suc}
use gtc.Base.{
  ℕ, zero, suc, ◌+◌, ◌*◌, ◌/◌, ◌^◌, ◌≤◌, ◌<◌, ltb, Bool, true, false, not, List, [], ◌∷◌, ◌++◌,
  Option, none, some, length, take, drop, take-drop, length-take, length-drop, length-append, keep,
  keep-append, any, ◌≡◌, refl, arith, Bool-cases, inl, inr, sym, subst, ap, ◌∙◌, append-nil,
  append_assoc,
}
use gtc.Base.Dict
use gtc.Domain.Errors.{Error, is, is_permanent, circuit_open, deadline_exceeded}
use gtc.Domain.Event.{CdcEvent}
use gtc.Domain.Sink.{Ctx, Sink, Runtime}
use gtc.Dlq.Store.{Store, DeadLetterEntry}
use gtc.Dlq.Manager
use gtc.Dlq.Manager.{
  Manager, FailureRecord, failure_info, failure_key, info_of, parked, entry_of, clear_failures,
}
use gtc.Dlq.Isolation.{
  Run, stalls, continue, half, after_half, halves, isolate, isolate_all, after_batch, process, park,
  parked_or_both,
}

split_cost : (k p a b : ℕ) → p ≡ a + b → 0 < p → (1 + 2 * k * a) + (1 + 2 * k * b) ≤ 2 * suc k * p
split_cost k p a b e h = omega (arith, ap (λ (t : ℕ). k * t) e)

module _ {W : Type 0} (rt : Runtime W) (store : Store W) (inner : Sink W) (poison : CdcEvent → Bool)
    (log dead : W → List CdcEvent) (calls : W → ℕ) where
  -- The world with the same deliveries, parked events and number of calls.
  pub record Same (w v : W) : Type 0 where
    pub same_log : log v ≡ log w
    pub same_dead : dead v ≡ dead w
    pub same_calls : calls v ≡ calls w

  -- A batch with a poison event fails as a whole with a permanent error that is no outage; any other
  -- batch is delivered. Parking succeeds, and no context is done.
  pub record Healthy : Type 0 where
    pub accepts :
        (ctx : Ctx) (es : List CdcEvent) (w : W)
        → any poison es ≡ false
        → ((inner.process ctx es w).1 ≡ none) × (log (inner.process ctx es w).0 ≡ log w ++ es)
    pub rejects :
        (ctx : Ctx) (es : List CdcEvent) (w : W)
        → any poison es ≡ true
        → (err : Error) × ((inner.process ctx es w).1 ≡ some err)
          × (is_permanent err ≡ true)
          × (is err circuit_open ≡ false)
          × (is err deadline_exceeded ≡ false)
          × (log (inner.process ctx es w).0 ≡ log w)
    pub process_dead :
        (ctx : Ctx) (es : List CdcEvent) (w : W) → dead (inner.process ctx es w).0 ≡ dead w
    pub process_calls :
        (ctx : Ctx) (es : List CdcEvent) (w : W) → calls (inner.process ctx es w).0 ≡ calls w + 1
    pub parks :
        (ctx : Ctx) (x : DeadLetterEntry) (w : W)
        → ((store.park ctx x w).1 ≡ none)
          × (log (store.park ctx x w).0 ≡ log w)
          × (dead (store.park ctx x w).0 ≡ dead w ++ x.event ∷ [])
          × (calls (store.park ctx x w).0 ≡ calls w)
    pub clock : (w : W) → Same w (rt.now w).0
    pub counting : (ctx : Ctx) (w : W) → Same w (store.len ctx w).0
    pub running : (ctx : Ctx) (w : W) → rt.ctx_err ctx w ≡ none

  -- From `w` the good events are delivered and the poison ones parked, each in order, with at most
  -- `extra` calls.
  pub record Sorts (es : List CdcEvent) (extra : ℕ) (w v : W) : Type 0 where
    pub delivered : log v ≡ log w ++ keep (λ e. not (poison e)) es
    pub parked : dead v ≡ dead w ++ keep poison es
    cost : calls v ≤ calls w + extra

  -- The run ends with a nil error and has sorted the events.
  abbrev pub Succeeds : List CdcEvent → ℕ → W → Run W → Type 0
  Succeeds es extra w none = ⊥
  Succeeds es extra w (some (m, none)) = Sorts es extra w m.world
  Succeeds es extra w (some (m, some e)) = ⊥

  abbrev poisoned : List CdcEvent → ℕ
  poisoned es = length (keep poison es)

  keep_clean :
      (es : List CdcEvent)
      → any poison es ≡ false
      → (keep poison es ≡ []) × (keep (λ e. not (poison e)) es ≡ es)
  keep_clean [] h = (refl, refl)
  keep_clean (e ∷ es) h = ground (arith, keep_clean es)

  poisoned_pos : (es : List CdcEvent) → any poison es ≡ true → 0 < poisoned es
  poisoned_pos [] h = cc
  poisoned_pos (e ∷ es) h = ground (arith, poisoned_pos es)

  poisoned-append : (xs ys : List CdcEvent) → poisoned (xs ++ ys) ≡ poisoned xs + poisoned ys
  poisoned-append xs ys =
      ap length (keep-append poison xs ys) ∙ length-append (keep poison xs) (keep poison ys)

  Succeeds-weaken :
      (es : List CdcEvent) (a b : ℕ) (w : W) (r : Run W)
      → a ≤ b
      → Succeeds es a w r
      → Succeeds es b w r
  Succeeds-weaken es a b w none le s = s
  Succeeds-weaken es a b w (some (m, some e)) le s = s
  Succeeds-weaken es a b w (some (m, none)) le s = record {
    delivered = s.delivered;
    parked = s.parked;
    cost = omega (arith, s.cost);
  }

  Sorts-append :
      (xs ys : List CdcEvent) (a b : ℕ) (w u v : W)
      → Sorts xs a w u
      → Sorts ys b u v
      → Sorts (xs ++ ys) (a + b) w v
  Sorts-append xs ys a b w u v f g = record {
    delivered =
        g.delivered
        ∙ ap (λ l. l ++ keep (λ e. not (poison e)) ys) f.delivered
        ∙ append_assoc (log w) (keep (λ e. not (poison e)) xs) (keep (λ e. not (poison e)) ys)
        ∙ ap (◌++◌ (log w)) (sym (keep-append (λ e. not (poison e)) xs ys));
    parked =
        g.parked
        ∙ ap (λ l. l ++ keep poison ys) f.parked
        ∙ append_assoc (dead w) (keep poison xs) (keep poison ys)
        ∙ ap (◌++◌ (dead w)) (sym (keep-append poison xs ys));
    cost = omega (arith, f.cost, g.cost);
  }

  Succeeds-continue :
      (xs ys : List CdcEvent) (a b : ℕ) (w : W) (r : Run W) (rest : Manager W → Run W)
      → Succeeds xs a w r
      → ((m : Manager W) → Succeeds ys b m.world (rest m))
      → Succeeds (xs ++ ys) (a + b) w (continue r rest)
  Succeeds-continue xs ys a b w none rest h k = h
  Succeeds-continue xs ys a b w (some (m, some e)) rest h k = absurd h
  Succeeds-continue xs ys a b w (some (m, none)) rest h k = next (rest m) (k m)
    where
      next : (r : Run W) → Succeeds ys b m.world r → Succeeds (xs ++ ys) (a + b) w r
      next none s = s
      next (some (n, some e)) s = s
      next (some (n, none)) s = Sorts-append xs ys a b w m.world n.world h s

  abbrev Recurse : Type 0
  Recurse = List CdcEvent → Error → Manager W → Run W

  module _ (h : Healthy) where
    Same-trans : {u v w : W} → Same u v → Same v w → Same u w
    Same-trans a b = record {
      same_log = b.same_log ∙ a.same_log;
      same_dead = b.same_dead ∙ a.same_dead;
      same_calls = b.same_calls ∙ a.same_calls;
    }

    info_of-Same : (r : Option FailureRecord) (w : W) → Same w (info_of rt r w).0
    unfolding info_of
    info_of-Same none w = h.clock w
    info_of-Same (some r) w = elim (Bool-cases (ltb 0 r.count)) [
      | inl e ↦ rw (e) (record { same_log = refl; same_dead = refl; same_calls = refl })
      | inr e ↦ rw (e) (h.clock w)
    ]

    Succeeds-parked :
        (e : CdcEvent) (ctx : Ctx) (cause : Error) (m : Manager W) (w u : W) (r : W × Option Error)
        → poison e ≡ true
        → Same w u
        → (r.1 ≡ none) × (log r.0 ≡ log u) × (dead r.0 ≡ dead u ++ e ∷ []) × (calls r.0 ≡ calls u)
        → Succeeds
            (e ∷ [])
            0
            w
            (some (parked_or_both rt store inner cause (parked rt store ctx inner.name e.id m r)))
    unfolding parked parked_or_both
    Succeeds-parked e ctx cause m w u (v, some x) bad s q = cc (q.0)
    Succeeds-parked e ctx cause m w u (v, none) bad s q =
        let t =
          Same-trans {u = v} (record { same_log = refl; same_dead = refl; same_calls = refl })
            (h.counting ctx v) in
        record {
          delivered = rw (bad) (t.same_log ∙ q.1 ∙ s.same_log ∙ sym (append-nil (log w)));
          parked = rw (bad) (t.same_dead ∙ q.2 ∙ ap (λ l. l ++ e ∷ []) s.same_dead);
          cost = omega (arith, t.same_calls, q.3, s.same_calls);
        }

    Succeeds-park :
        (e : CdcEvent) (ctx : Ctx) (cause : Error) (m : Manager W)
        → poison e ≡ true
        → Succeeds (e ∷ []) 0 m.world (some (park rt store inner ctx e cause m))
    unfolding park Manager.park failure_info entry_of
    Succeeds-park e ctx cause m bad =
        let (m', attempts, first) = failure_info rt inner.name e.id m in
        let (w, now) = rt.now m'.world in
        let x = entry_of rt inner.name e cause attempts first now in
        Succeeds-parked e ctx cause m' m.world w (store.park ctx x w) bad
          (Same-trans (info_of-Same (Dict.get (failure_key inner.name e.id) m.failures) m.world)
            (h.clock m'.world))
          (h.parks ctx x w)

    after_call :
        (es : List CdcEvent) (extra : ℕ) (w v : W) (r : Run W)
        → log v ≡ log w
        → dead v ≡ dead w
        → calls v ≡ calls w + 1
        → Succeeds es extra v r
        → Succeeds es (1 + extra) w r
    after_call es extra w v none l d c s = s
    after_call es extra w v (some (n, some e)) l d c s = s
    after_call es extra w v (some (n, none)) l d c s = record {
      delivered = s.delivered ∙ ap (λ x. x ++ keep (λ e. not (poison e)) es) l;
      parked = s.parked ∙ ap (λ x. x ++ keep poison es) d;
      cost = omega (arith, s.cost, c);
    }

    -- A clean batch needs nothing after its call.
    Sorts-clean :
        (es : List CdcEvent) (extra : ℕ) (w v : W)
        → any poison es ≡ false
        → log v ≡ log w ++ es
        → dead v ≡ dead w
        → calls v ≡ calls w + 1
        → Sorts es (1 + extra) w v
    Sorts-clean es extra w v clean l d c =
        let (nothing, everything) = keep_clean es clean in
        record {
          delivered = rw (everything) l;
          parked = rw (nothing) (d ∙ sym (append-nil (dead w)));
          cost = omega (arith, c);
        }

    no_stall :
        (ctx : Ctx) (err : Error) (w : W)
        → is err circuit_open ≡ false
        → is err deadline_exceeded ≡ false
        → stalls rt ctx err w ≡ false
    unfolding stalls
    no_stall ctx err w opened late = rw (opened, late, h.running ctx w) refl

    after_half_clean :
        (recurse : Recurse) (ctx : Ctx) (es : List CdcEvent) (extra : ℕ) (m : Manager W)
        (r : W × Option Error)
        → any poison es ≡ false
        → r.1 ≡ none
        → log r.0 ≡ log m.world ++ es
        → dead r.0 ≡ dead m.world
        → calls r.0 ≡ calls m.world + 1
        → Succeeds es (1 + extra) m.world (after_half rt store inner recurse ctx es m r)
    unfolding after_half clear_failures
    after_half_clean recurse ctx es extra m (v, some x) clean q l d c = cc
    after_half_clean recurse ctx es extra m (v, none) clean q l d c =
        Sorts-clean es extra m.world v clean l d c

    after_half_poison :
        (recurse : Recurse) (ctx : Ctx) (es : List CdcEvent) (extra : ℕ) (m : Manager W)
        (r : W × Option Error) (err : Error)
        → ((n : Manager W) → Succeeds es extra n.world (recurse es err n))
        → r.1 ≡ some err
        → is err circuit_open ≡ false
        → is err deadline_exceeded ≡ false
        → log r.0 ≡ log m.world
        → dead r.0 ≡ dead m.world
        → calls r.0 ≡ calls m.world + 1
        → Succeeds es (1 + extra) m.world (after_half rt store inner recurse ctx es m r)
    unfolding after_half
    after_half_poison recurse ctx es extra m (v, none) err deeper q o t l d c = cc
    after_half_poison recurse ctx es extra m (v, some x) err deeper q o t l d c =
        let same : x ≡ err = cc in
        rw (same, no_stall ctx err v o t)
          (after_call es extra m.world v (recurse es err (record m { world = v })) l d c
            (deeper (record m { world = v })))

    -- One half: a clean one is delivered; one with poison goes on with one call made.
    half-Succeeds :
        (recurse : Recurse) (ctx : Ctx) (es : List CdcEvent) (extra : ℕ)
        → (any poison es ≡ true
            → (err : Error) (n : Manager W) → Succeeds es extra n.world (recurse es err n))
        → (m : Manager W) → Succeeds es (1 + extra) m.world (half rt store inner recurse ctx es m)
    unfolding half
    half-Succeeds recurse ctx es extra deeper m = elim (Bool-cases (any poison es)) [
      | inl bad ↦
          let (err, q, permanent, o, t, l) = h.rejects ctx es m.world bad in
          after_half_poison recurse ctx es extra m (inner.process ctx es m.world) err
            (deeper bad err) q o t l (h.process_dead ctx es m.world)
            (h.process_calls ctx es m.world)
      | inr clean ↦
          let (q, l) = h.accepts ctx es m.world clean in
          after_half_clean recurse ctx es extra m (inner.process ctx es m.world) clean q l
            (h.process_dead ctx es m.world) (h.process_calls ctx es m.world)
    ]

    -- With at most 2 ^ k events, k rounds of halving reach each poison event.
    isolate-Succeeds :
        (fuel k : ℕ) (ctx : Ctx) (es : List CdcEvent) (err : Error) (m : Manager W)
        → any poison es ≡ true
        → length es ≤ fuel
        → length es ≤ 2 ^ k
        → Succeeds es (2 * k * poisoned es) m.world (isolate rt store inner fuel ctx es err m)
    unfolding isolate halves
    isolate-Succeeds fuel k ctx [] err m bad f s = cc
    isolate-Succeeds zero k ctx (e ∷ es) err m bad f s = absurd (omega arith)
    isolate-Succeeds (suc fuel) k ctx (e ∷ []) err m bad f s =
        Succeeds-weaken (e ∷ []) 0 (2 * k * poisoned (e ∷ [])) m.world
          (some (park rt store inner ctx e err m)) (omega arith)
          (Succeeds-park e ctx err m (ground arith))
    isolate-Succeeds (suc fuel) zero ctx (e ∷ d ∷ es) err m bad f s = absurd (omega arith)
    isolate-Succeeds (suc fuel) (suc k) ctx (e ∷ d ∷ es) err m bad f s =
        let all : List CdcEvent = e ∷ d ∷ es in
        let mid = length all / 2 in
        let recurse = isolate rt store inner fuel ctx in
        let pow : 2 ^ suc k ≡ 2 ^ k * 2 = pow-suc 2 k in
        let xs = take mid all in
        let ys = drop mid all in
        let total : poisoned all ≡ poisoned xs + poisoned ys =
          ap poisoned (sym (take-drop mid all)) ∙ poisoned-append xs ys in
        subst
          (λ zs.
            Succeeds zs (2 * suc k * poisoned all) m.world
              (halves rt store inner recurse ctx all m))
          (take-drop mid all)
          (Succeeds-weaken (xs ++ ys) ((1 + 2 * k * poisoned xs) + (1 + 2 * k * poisoned ys))
            (2 * suc k * poisoned all) m.world (halves rt store inner recurse ctx all m)
            (split_cost k (poisoned all) (poisoned xs) (poisoned ys) total (poisoned_pos all bad))
            (Succeeds-continue xs ys (1 + 2 * k * poisoned xs) (1 + 2 * k * poisoned ys) m.world
              (half rt store inner recurse ctx xs m) (half rt store inner recurse ctx ys)
              (half-Succeeds recurse ctx xs (2 * k * poisoned xs)
                (λ b c n.
                  isolate-Succeeds fuel k ctx xs c n b (omega (arith, length-take mid all))
                    (omega (arith, length-take mid all)))
                m)
              (half-Succeeds recurse ctx ys (2 * k * poisoned ys) (λ b c n.
                isolate-Succeeds fuel k ctx ys c n b (omega (arith, length-drop mid all))
                  (omega (arith, length-drop mid all))))))

    after_batch-Succeeds :
        (k : ℕ) (ctx : Ctx) (e : CdcEvent) (es : List CdcEvent) (m : Manager W)
        (r : W × Option Error) (err : Error)
        → any poison (e ∷ es) ≡ true
        → length (e ∷ es) ≤ 2 ^ k
        → r.1 ≡ some err
        → is_permanent err ≡ true
        → is err circuit_open ≡ false
        → is err deadline_exceeded ≡ false
        → log r.0 ≡ log m.world
        → dead r.0 ≡ dead m.world
        → calls r.0 ≡ calls m.world + 1
        → Succeeds
            (e ∷ es)
            (1 + 2 * k * poisoned (e ∷ es))
            m.world
            (after_batch rt store inner ctx e es m r)
    unfolding after_batch isolate_all
    after_batch-Succeeds k ctx e es m (v, none) err bad s q p o t l d c = cc
    after_batch-Succeeds k ctx e es m (v, some x) err bad s q p o t l d c =
        let same : x ≡ err = cc in
        let n = record m { world = v } in
        rw (same, no_stall ctx err v o t, p)
          (after_call (e ∷ es) (2 * k * poisoned (e ∷ es)) m.world v
            (isolate rt store inner (length (e ∷ es)) ctx (e ∷ es) err n) l d c
            (isolate-Succeeds (length (e ∷ es)) k ctx (e ∷ es) err n bad (omega arith) s))

    -- Take a sink that delivers a batch with no poison event and fails any other batch as a whole, with
    -- a permanent error that is no outage, a store that can park, and contexts that are not done. On a
    -- batch of at most 2 ^ k events with poison among them, Process returns a nil error; it has
    -- delivered exactly the other events and parked exactly the poison ones, each in batch order, with
    -- at most 1 + 2 * k * p calls of the sink, p the number of poison events.
    pub process_sorts :
        (k : ℕ) (ctx : Ctx) (es : List CdcEvent) (m : Manager W)
        → any poison es ≡ true
        → length es ≤ 2 ^ k
        → Succeeds es
            (1 + 2 * k * length (keep poison es))
            m.world
            (process rt store inner ctx es m)
    unfolding process
    process_sorts k ctx [] m bad s = cc
    process_sorts k ctx (e ∷ es) m bad s =
        let (err, q, p, o, t, l) = h.rejects ctx (e ∷ es) m.world bad in
        after_batch-Succeeds k ctx e es m (inner.process ctx (e ∷ es) m.world) err bad s q p o t l
          (h.process_dead ctx (e ∷ es) m.world) (h.process_calls ctx (e ∷ es) m.world)
