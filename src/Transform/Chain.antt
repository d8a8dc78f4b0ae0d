-- ===== src/Transform/Chain.antt =====
-- transform/transform.go: a compiled chain of steps, Apply and RejectsAll. A CEL program is a parameter: the
-- function from its variables to its result. The maps of the event are values here, so that a step never
-- changes those that other sinks share, which the source gets from cloneMap.
pub mod Columns
use Prim.Native.String.{◌++◌ as ◌<>◌}
use gtc.Base.{ℕ, String, Bool, true, false, List, [], ◌∷◌, Option, none, some, if◌then◌else◌}
use gtc.Base.Dict
use gtc.Base.Dict.{Dict}
use gtc.Domain.Errors.{Error, message, wrap}
use gtc.Domain.Event.{CdcEvent, Operation, to_string, Value, null, Row}
use gtc.Dlq.Store.{Answer, got, failed}

-- The variables of a filter, and its result: a Boolean, or a value of another type.
pub record Vars : Type 0 where
  pub op : String
  pub schema : String
  pub table : String
  pub new : Dict Value
  pub old : Dict Value

pub data CelValue : Type 0 where
  bool : Bool → CelValue
  other_value : String → CelValue

-- compiledSpec; `partial` is the program that knows only the operation, the schema and the table, `none` where
-- PartialVars fails. The maps
-- drop and mask are lists in the order in which Go ranges over them.
pub record CompiledSpec : Type 0 where
  pub filter : Option (Vars → Answer CelValue)
  pub partial : Option (String → String → String → Option (Answer CelValue))
  pub drop_columns : List String
  pub mask : List (String × (Value → Value))

-- A *Chain: `none` is nil
abbrev pub Chain : Type 0
Chain = Option (List CompiledSpec)

-- a nil map reads as an empty one
abbrev pub columns_of : Row → Dict Value
columns_of none = []
columns_of (some m) = m

pub kept : CdcEvent → Answer CelValue → Answer Bool
kept e (failed x) = failed (wrap ("evaluate filter for " <> e.schema <> "." <> e.table <> ": ") x)
kept e (got (bool b)) = got b
kept e (got (other_value type)) = failed (
    message
      ("filter for " <> e.schema <> "." <> e.table <> " returned " <> type <> ", expected bool"))

-- evalFilter
eval_filter : (Vars → Answer CelValue) → CdcEvent → Answer Bool
unfolding kept
eval_filter prg e = kept e (
    prg (record {
      op = to_string e.operation;
      schema = e.schema;
      table = e.table;
      new = columns_of e.new_data;
      old = columns_of e.old_data;
    }))

masked : (Value → Value) → String → Dict Value → Option Value → Dict Value
masked fn col m none = m
masked fn col m (some null) = m
masked fn col m (some v) = Dict.put col (fn v) m

-- maskColumn on a map that is not nil: a missing or nil value stays as it is
unfoldable pub mask_column : Dict Value → String → (Value → Value) → Dict Value
unfolding masked
mask_column m col fn = masked fn col m (Dict.get col m)

pub drop_each : List String → Dict Value → Dict Value
drop_each [] m = m
drop_each (c ∷ cs) m = drop_each cs (Dict.remove c m)

pub mask_each : List (String × (Value → Value)) → Dict Value → Dict Value
mask_each [] m = m
mask_each ((c, fn) ∷ cs) m = mask_each cs (mask_column m c fn)

-- what a step does to one of the two maps; a nil map stays nil
pub rewrite : CompiledSpec → Row → Row
unfolding drop_each mask_each
rewrite s none = none
rewrite s (some m) = some (mask_each s.mask (drop_each s.drop_columns m))

pub passes : CompiledSpec → CdcEvent → Answer Bool
unfolding eval_filter
passes s e = elim s.filter [ none ↦ got true | some prg ↦ eval_filter prg e ]

pub rewritten : CompiledSpec → CdcEvent → CdcEvent
unfolding rewrite
rewritten s e = record e { new_data = rewrite s e.new_data; old_data = rewrite s e.old_data }

-- one round of the loop of Apply, with the rounds that follow
pub step_on :
    (CdcEvent → CdcEvent × Bool × Option Error)
    → CdcEvent
    → CdcEvent
    → Answer Bool
    → CdcEvent × Bool × Option Error
step_on rest e e' (failed x) = (e, false, some x)
step_on rest e e' (got false) = (e, false, none)
step_on rest e e' (got true) = rest e'

-- the loop of Apply
pub apply_steps : List CompiledSpec → CdcEvent → CdcEvent × Bool × Option Error
unfolding step_on passes rewritten
apply_steps [] e = (e, true, none)
apply_steps (s ∷ ss) e = step_on (apply_steps ss) e (rewritten s e) (passes s e)

-- Apply
unfoldable pub apply : Option (List CompiledSpec) → CdcEvent → CdcEvent × Bool × Option Error
unfolding apply_steps
apply none e = (e, true, none)
apply (some steps) e = apply_steps steps e

rejects_with : Bool → Option (Answer CelValue) → Bool
rejects_with rest none = false
rejects_with rest (some (failed x)) = rest
rejects_with rest (some (got (bool b))) = if b then rest else true
rejects_with rest (some (got (other_value t))) = rest

rejects_steps : List CompiledSpec → String → String → Operation → Bool
unfolding rejects_with
rejects_steps [] schema table op = false
rejects_steps (s ∷ ss) schema table op =
    (let rest = rejects_steps ss schema table op in
      elim s.partial [
        | none ↦ rest
        | some prg ↦ rejects_with rest (prg (to_string op) schema table)
      ])

-- RejectsAll
unfoldable pub rejects_all : Option (List CompiledSpec) → String → String → Operation → Bool
unfolding rejects_steps
rejects_all none schema table op = false
rejects_all (some steps) schema table op = rejects_steps steps schema table op
