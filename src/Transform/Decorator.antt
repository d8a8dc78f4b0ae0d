-- ===== src/Transform/Decorator.antt =====
-- transform/sink.go: the decorator that transforms a batch in front of a sink.
use Prim.Native.String.{◌++◌ as ◌<>◌}
use gtc.Base.{String, Bool, true, false, List, [], ◌∷◌, Option, none, some, if◌then◌else◌}
use gtc.Base.Dict
use gtc.Base.Dict.{Dict}
use gtc.Domain.Errors.{Error, permanent}
use gtc.Domain.Event.{CdcEvent, Operation}
use gtc.Domain.Sink.{Sink, Ctx, wants}
use gtc.Dlq.Store.{Answer, got, failed}
use gtc.Transform.Chain.{CompiledSpec, apply, rejects_all}

-- Sink of the package, without the sink that it wraps
pub record Transforms : Type 0 where
  pub global : Option (List CompiledSpec)
  pub tables : Dict (Option (List CompiledSpec))

abbrev chain_or_nil : Option (Option (List CompiledSpec)) → Option (List CompiledSpec)
chain_or_nil none = none
chain_or_nil (some chain) = chain

-- tableChain
unfoldable pub table_chain : Transforms → String → String → Option (List CompiledSpec)
table_chain t schema table = elim (Dict.get (schema <> "." <> table) t.tables) [
  | some chain ↦ chain
  | none ↦ chain_or_nil (Dict.get table t.tables)
]

-- the two chains on one event
apply_table : Transforms → CdcEvent × Bool × Option Error → CdcEvent × Bool × Option Error
apply_table t (e, keep, some x) = (e, keep, some x)
apply_table t (e, false, none) = (e, false, none)
apply_table t (e, true, none) = apply (table_chain t e.schema e.table) e

pub transform : Transforms → CdcEvent → CdcEvent × Bool × Option Error
unfolding apply_table table_chain
transform t e = apply_table t (apply t.global e)

collect : CdcEvent × Bool × Option Error → Answer (List CdcEvent) → Answer (List CdcEvent)
collect (e, keep, some x) rest = failed (permanent x)
collect (e, keep, none) (failed x) = failed x
collect (e, true, none) (got es) = got (e ∷ es)
collect (e, false, none) (got es) = got es

-- the loop of Process: the events to hand over, or the first error, as a permanent one
transform_all : Transforms → List CdcEvent → Answer (List CdcEvent)
unfolding collect transform
transform_all t [] = got []
transform_all t (e ∷ es) = collect (transform t e) (transform_all t es)

module _ {W : Type 0} (inner : Sink W) (t : Transforms) where
  hand_over : Ctx → Answer (List CdcEvent) → W → W × Option Error
  hand_over ctx (failed x) w = (w, some x)
  hand_over ctx (got []) w = (w, none)
  hand_over ctx (got (e ∷ es)) w = inner.process ctx (e ∷ es) w

  -- Process
  unfoldable pub process : Ctx → List CdcEvent → W → W × Option Error
  unfolding hand_over transform_all
  process ctx events w = hand_over ctx (transform_all t events) w

  -- Wants: neither chain rejects every event, and the sink takes them
  unfoldable pub wants_through : String → String → Operation → Bool
  wants_through schema table op =
      if rejects_all t.global schema table op
      then false
      else if rejects_all (table_chain t schema table) schema table op
      then false
      else wants inner schema table op
