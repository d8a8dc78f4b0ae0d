-- ===== src/Dlq/Isolation/Account/Steps.antt =====
-- dlq/sink.go: what parking and one half do to what was settled, and what they settle.

use gtc.Base.{
  ℕ, ltb, String, List, [], ◌∷◌, Option, none, some, ◌≡◌, ◌≢◌, refl, Bool-cases, inl, inr, All,
  All-map, sym, ◌∙◌,
}
use gtc.Base.Dict
use gtc.Domain.Errors.{Error, join_list}
use gtc.Domain.Event.{CdcEvent}
use gtc.Domain.Sink.{Ctx, Sink, Runtime}
use gtc.Dlq.Store.{Store, DeadLetterEntry}
use gtc.Dlq.Manager
use gtc.Dlq.Manager.{
  Manager, FailureRecord, record_failure, failure_key, failure_key-injective, failure_info, info_of,
  entry_of, parked, update_depth_gauge, clear_failures,
}
use gtc.Dlq.Isolation.{Run, stalls, after_half, park, parked_or_both}
use gtc.Dlq.Isolation.Account
use gtc.Dlq.Isolation.Account.{
  Fresh, Distinct, Op, processes, reads_clock, counts, Contract, Fresh-left, Fresh-right,
  Distinct-append,
}

module _ {W : Type 0} (rt : Runtime W) (store : Store W) (inner : Sink W)
    (Applied : CdcEvent → W → Type 0) (Holds : DeadLetterEntry → W → Type 0)
    (c : Contract rt store inner Applied Holds) where
  abbrev pub Settled : W → CdcEvent → Type 0
  Settled = Account.Settled rt store inner Applied Holds

  abbrev pub Keeps : CdcEvent → W → Run W → Type 0
  Keeps = Account.Keeps rt store inner Applied Holds

  abbrev pub Settles : List CdcEvent → Run W → Type 0
  Settles = Account.Settles rt store inner Applied Holds

  pub settled-op : (d : CdcEvent) {w v : W} → Op rt store inner w v → Settled w d → Settled v d
  settled-op d op (inl a) = inl (c.applied_stays d op a)
  settled-op d op (inr (x, e, n, k, h)) = inr (x, e, n, k, c.held_stays x op h)

  settled-info_of :
      (d : CdcEvent) (r : Option FailureRecord) (w : W) → Settled w d → Settled (info_of rt r w).0 d
  unfolding info_of
  settled-info_of d none w s = settled-op d reads_clock s
  settled-info_of d (some r) w s = elim (Bool-cases (ltb 0 r.count)) [
    | inl e ↦ rw (e) s
    | inr e ↦ rw (e) (settled-op d reads_clock s)
  ]

  settled-store_park :
      (d e : CdcEvent) (ctx : Ctx) (y : DeadLetterEntry) (w : W)
      → d.id ≢ e.id
      → y.id ≡ failure_key inner.name e.id
      → Settled w d
      → Settled (store.park ctx y w).0 d
  unfolding failure_key
  settled-store_park d e ctx y w other key (inl a) = inl (c.applied_past_park d ctx y w a)
  settled-store_park d e ctx y w other key (inr (x, ev, n, k, h)) =
      inr (x, ev, n, k, c.held_past_park x ctx y w differ h)
    where
      differ : x.id ≢ y.id
      differ p = other (failure_key-injective inner.name d.id e.id (sym k ∙ p ∙ key))

  settled-parked :
      (d : CdcEvent) (ctx : Ctx) (name id : String) (m : Manager W) (r : W × Option Error)
      → Settled r.0 d
      → Settled (parked rt store ctx name id m r).0.world d
  unfolding parked
  settled-parked d ctx name id m (w, none) s = settled-op d (counts ctx) s
  settled-parked d ctx name id m (w, some e) s = s

  Keeps-parked_or_both :
      (d : CdcEvent) (w : W) (cause : Error) (r : Manager W × Option Error)
      → Keeps d w (some r)
      → Keeps d w (some (parked_or_both rt store inner cause r))
  unfolding parked_or_both
  Keeps-parked_or_both d w cause (m, none) h = h
  Keeps-parked_or_both d w cause (m, some e) h = h

  settled-failure_info :
      (d : CdcEvent) (name id : String) (m : Manager W)
      → Settled m.world d
      → Settled (failure_info rt name id m).0.world d
  unfolding failure_info
  settled-failure_info d name id m s =
      settled-info_of d (Dict.get (failure_key name id) m.failures) m.world s

  settled-manager_park :
      (d e : CdcEvent) (ctx : Ctx) (cause : Error) (attempts first : ℕ) (m : Manager W)
      → d.id ≢ e.id
      → Settled m.world d
      → Settled (Manager.park rt store ctx inner.name e cause attempts first m).0.world d
  unfolding Manager.park entry_of
  settled-manager_park d e ctx cause attempts first m other s =
      let (w, now) = rt.now m.world in
      let x = entry_of rt inner.name e cause attempts first now in
      settled-parked d ctx inner.name e.id m (store.park ctx x w)
        (settled-store_park d e ctx x w other refl (settled-op d reads_clock s))

  pub Keeps-park :
      (d e : CdcEvent) (ctx : Ctx) (cause : Error) (m : Manager W)
      → d.id ≢ e.id
      → Keeps d m.world (some (park rt store inner ctx e cause m))
  unfolding park
  Keeps-park d e ctx cause m other =
      let (m', attempts, first) = failure_info rt inner.name e.id m in
      Keeps-parked_or_both d m.world cause
        (Manager.park rt store ctx inner.name e cause attempts first m')
        (λ s.
          settled-manager_park d e ctx cause attempts first m' other
            (settled-failure_info d inner.name e.id m s))

  Settles-parked_or_both :
      (es : List CdcEvent) (cause : Error) (r : Manager W × Option Error)
      → Settles es (some r)
      → Settles es (some (parked_or_both rt store inner cause r))
  unfolding parked_or_both join_list
  Settles-parked_or_both es cause (m, none) h = h
  Settles-parked_or_both es cause (m, some e) h = tt

  Settles-parked :
      (e : CdcEvent) (x : DeadLetterEntry) (ctx : Ctx) (m : Manager W) (r : W × Option Error)
      → x.event ≡ e
      → x.sink_name ≡ inner.name
      → x.id ≡ failure_key inner.name e.id
      → ((v : W) → r ≡ (v, none) → Holds x v)
      → Settles (e ∷ []) (some (parked rt store ctx inner.name e.id m r))
  unfolding parked
  Settles-parked e x ctx m (w, none) ev n k h =
      (settled-op e (counts ctx) (inr (x, ev, n, k, h w refl)), tt)
  Settles-parked e x ctx m (w, some f) ev n k h = tt

  Settles-manager_park :
      (e : CdcEvent) (ctx : Ctx) (cause : Error) (attempts first : ℕ) (m : Manager W)
      → Settles (e ∷ []) (some (Manager.park rt store ctx inner.name e cause attempts first m))
  unfolding Manager.park entry_of
  Settles-manager_park e ctx cause attempts first m =
      let (w, now) = rt.now m.world in
      let x = entry_of rt inner.name e cause attempts first now in
      Settles-parked e x ctx m (store.park ctx x w) refl refl refl (λ v p. c.parks ctx x w v p)

  pub Settles-park :
      (e : CdcEvent) (ctx : Ctx) (cause : Error) (m : Manager W)
      → Settles (e ∷ []) (some (park rt store inner ctx e cause m))
  unfolding park
  Settles-park e ctx cause m =
      let (m', attempts, first) = failure_info rt inner.name e.id m in
      Settles-parked_or_both (e ∷ []) cause
        (Manager.park rt store ctx inner.name e cause attempts first m')
        (Settles-manager_park e ctx cause attempts first m')

  pub Keeps-after_half :
      (d : CdcEvent) (recurse : List CdcEvent → Error → Manager W → Run W) (ctx : Ctx)
      (es : List CdcEvent) (w : W)
      → ((err : Error) (n : Manager W) → Keeps d n.world (recurse es err n))
      → (m : Manager W) (r : W × Option Error) → (Settled w d → Settled r.0 d)
      → Keeps d w (after_half rt store inner recurse ctx es m r)
  unfolding after_half clear_failures
  Keeps-after_half d recurse ctx es w h m (v, none) s = s
  Keeps-after_half d recurse ctx es w h m (v, some e) s = elim (Bool-cases (stalls rt ctx e v)) [
    | inl q ↦ rw (q) s
    | inr q ↦ rw (q) (after (recurse es e (record m { world = v })) (h e (record m { world = v })))
  ]
    where
      after : (r : Run W) → Keeps d v r → Keeps d w r
      after none k = tt
      after (some (n, x)) k = λ t. k (s t)

  pub Settles-after_half :
      (recurse : List CdcEvent → Error → Manager W → Run W) (ctx : Ctx) (es : List CdcEvent)
      → ((err : Error) (n : Manager W) → Settles es (recurse es err n))
      → (m : Manager W) (r : W × Option Error)
      → ((v : W) → r ≡ (v, none) → All (λ e. Applied e v) es)
      → Settles es (after_half rt store inner recurse ctx es m r)
  unfolding after_half clear_failures
  Settles-after_half recurse ctx es h m (v, none) applied =
      All-map (λ e a. inl a) es (applied v refl)
  Settles-after_half recurse ctx es h m (v, some e) applied =
      elim (Bool-cases (stalls rt ctx e v)) [
        | inl q ↦ rw (q) tt
        | inr q ↦ rw (q) (h e (record m { world = v }))
      ]
