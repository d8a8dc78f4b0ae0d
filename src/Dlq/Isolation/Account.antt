-- ===== src/Dlq/Isolation/Account.antt =====
-- dlq/sink.go against what it relies on: a sink that says nil has applied the whole batch, a store
-- that says nil holds the entry, and neither forgets. No event is lost.
mod Steps
pub mod NoLoss
use Prim.Native.String.{◌++◌ as ◌<>◌}
use Prim.Native.String
use Prim.Native.String.append
use gtc.Base.{
  ℕ, zero, suc, ◌+◌, ◌/◌, ◌-◌, ◌≤◌, ◌<◌, min, Bool, true, false, String, List, [], ◌∷◌, ◌++◌,
  Option, none, some, length, take, drop, take-drop, ◌≡◌, ◌≢◌, ◌⊎◌, refl, arith, Bool-cases, inl,
  inr, if◌then◌else◌, All, All-append, All-map, sym, subst, ap, ◌∙◌,
}
use gtc.Domain.Errors.{Error, is_permanent}
use gtc.Domain.Event.{CdcEvent}
use gtc.Domain.Sink.{Ctx, Sink, Runtime}
use gtc.Dlq.Store.{Store, DeadLetterEntry}
use gtc.Dlq.Manager
use gtc.Dlq.Manager.{
  Manager, record_failure, failure_key, failure_info, entry_of, parked, update_depth_gauge,
}
use gtc.Dlq.Isolation.{
  Run, stalls, continue, half, after_half, halves, isolate, isolate_all, retry_or_isolate,
  after_batch, process, park, parked_or_both,
}

-- The id is that of none of the events.
abbrev pub Fresh : String → List CdcEvent → Type 0
Fresh i [] = Unit
Fresh i (e ∷ es) = (i ≢ e.id) × Fresh i es

-- The events have distinct ids.
abbrev pub Distinct : List CdcEvent → Type 0
Distinct [] = Unit
Distinct (e ∷ es) = Fresh e.id es × Distinct es

-- Every step by which the decorator changes the world.
pub data Op {W : Type 0} (rt : Runtime W) (store : Store W) (inner : Sink W) (w : W)
    : W → Type 0 where
  processes : (ctx : Ctx) (es : List CdcEvent) → Op rt store inner w (inner.process ctx es w).0
  reads_clock : Op rt store inner w (rt.now w).0
  counts : (ctx : Ctx) → Op rt store inner w (store.len ctx w).0

-- The documented contract of the sink (domain/sink.go: a nil error means every event of the batch is
-- durably applied) and of the store (Park inserts or overwrites the entry of that id).
pub record Contract {W : Type 0} (rt : Runtime W) (store : Store W) (inner : Sink W)
    (Applied : CdcEvent → W → Type 0) (Holds : DeadLetterEntry → W → Type 0) : Type 0 where
  pub applies :
      (ctx : Ctx) (es : List CdcEvent) (w v : W)
      → inner.process ctx es w ≡ (v, none)
      → All (λ e. Applied e v) es
  pub parks :
      (ctx : Ctx) (x : DeadLetterEntry) (w v : W) → store.park ctx x w ≡ (v, none) → Holds x v
  pub applied_stays : (e : CdcEvent) {w v : W} → Op rt store inner w v → Applied e w → Applied e v
  pub held_stays : (x : DeadLetterEntry) {w v : W} → Op rt store inner w v → Holds x w → Holds x v
  pub applied_past_park :
      (e : CdcEvent) (ctx : Ctx) (y : DeadLetterEntry) (w : W)
      → Applied e w
      → Applied e (store.park ctx y w).0
  pub held_past_park :
      (x : DeadLetterEntry) (ctx : Ctx) (y : DeadLetterEntry) (w : W)
      → x.id ≢ y.id
      → Holds x w
      → Holds x (store.park ctx y w).0

pub Fresh-left : (i : String) (xs ys : List CdcEvent) → Fresh i (xs ++ ys) → Fresh i xs
Fresh-left i [] ys h = tt
Fresh-left i (x ∷ xs) ys h = (h.0, Fresh-left i xs ys h.1)

pub Fresh-right : (i : String) (xs ys : List CdcEvent) → Fresh i (xs ++ ys) → Fresh i ys
Fresh-right i [] ys h = h
Fresh-right i (x ∷ xs) ys h = Fresh-right i xs ys h.1

pub Distinct-append :
    (xs ys : List CdcEvent)
    → Distinct (xs ++ ys)
    → Distinct xs × Distinct ys × All (λ x. Fresh x.id ys) xs
Distinct-append [] ys h = (tt, h, tt)
Distinct-append (x ∷ xs) ys h =
    let (dx, dy, apart) = Distinct-append xs ys h.1 in
    ((Fresh-left x.id xs ys h.0, dx), dy, (Fresh-right x.id xs ys h.0, apart))

module _ {W : Type 0} (rt : Runtime W) (store : Store W) (inner : Sink W)
    (Applied : CdcEvent → W → Type 0) (Holds : DeadLetterEntry → W → Type 0) where
  -- The store holds an entry of the event, for this sink, under the key of both.
  abbrev Parked : CdcEvent → W → Type 0
  Parked e w =
      (x : DeadLetterEntry) × (x.event ≡ e)
      × (x.sink_name ≡ inner.name)
      × (x.id ≡ failure_key inner.name e.id)
      × Holds x w

  abbrev pub Settled : W → CdcEvent → Type 0
  Settled w e = Applied e w ⊎ Parked e w

  -- What was settled before the run is settled after it.
  abbrev pub Keeps : CdcEvent → W → Run W → Type 0
  Keeps d w none = Unit
  Keeps d w (some (m, err)) = Settled w d → Settled m.world d

  -- A run with no error settles the events.
  abbrev pub Settles : List CdcEvent → Run W → Type 0
  Settles es none = Unit
  Settles es (some (m, none)) = All (Settled m.world) es
  Settles es (some (m, some e)) = Unit

  pub Keeps-continue :
      (d : CdcEvent) (w : W) (r : Run W) (rest : Manager W → Run W)
      → Keeps d w r
      → ((m : Manager W) → Keeps d m.world (rest m))
      → Keeps d w (continue r rest)
  Keeps-continue d w none rest h k = tt
  Keeps-continue d w (some (m, some e)) rest h k = h
  Keeps-continue d w (some (m, none)) rest h k = next (rest m) h (k m)
    where
      next : (r : Run W) → (Settled w d → Settled m.world d) → Keeps d m.world r → Keeps d w r
      next none f g = tt
      next (some (n, e)) f g = λ s. g (f s)

  kept :
      (w v : W) (xs : List CdcEvent)
      → All (λ x. Settled w x → Settled v x) xs
      → All (Settled w) xs
      → All (Settled v) xs
  kept w v [] f h = tt
  kept w v (x ∷ xs) f h = (f.0 h.0, kept w v xs f.1 h.1)

  pub Settles-continue :
      (xs ys : List CdcEvent) (r : Run W) (rest : Manager W → Run W)
      → Settles xs r
      → ((m : Manager W) → Settles ys (rest m))
      → ((m : Manager W) → All (λ x. Keeps x m.world (rest m)) xs)
      → Settles (xs ++ ys) (continue r rest)
  Settles-continue xs ys none rest h k stay = tt
  Settles-continue xs ys (some (m, some e)) rest h k stay = tt
  Settles-continue xs ys (some (m, none)) rest h k stay = next (rest m) (k m) (stay m)
    where
      next : (r : Run W) → Settles ys r → All (λ x. Keeps x m.world r) xs → Settles (xs ++ ys) r
      next none g f = tt
      next (some (n, some e)) g f = tt
      next (some (n, none)) g f = All-append (Settled n.world) xs ys (kept m.world n.world xs f h) g
