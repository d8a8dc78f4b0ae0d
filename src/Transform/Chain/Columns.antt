-- ===== src/Transform/Chain/Columns.antt =====
-- transform/transform.go: a column that a step drops is gone from what the chain lets through.
use gtc.Base.{
  ◌≡◌, refl, sym, subst, ap, ◌∙◌, String, str_eq, eq_iff, Bool, true, false, Bool-cases, inl, inr,
  List, [], ◌∷◌, Option, none, some, In, arith, if◌then◌else◌,
}
use gtc.Base.Dict
use gtc.Base.Dict.{Dict, get-put, get-remove}
use gtc.Domain.Errors.{Error}
use gtc.Domain.Event.{CdcEvent, Value, null, Row}
use gtc.Dlq.Store.{Answer, got, failed}
use gtc.Transform.Chain.{
  CompiledSpec, columns_of, masked, mask_column, mask_each, drop_each, rewrite, rewritten, passes,
  step_on, apply_steps, apply,
}

-- Neither row of the event has the column.
abbrev pub Gone : String → CdcEvent → Type 0
Gone col e =
    (Dict.get col (columns_of e.new_data) ≡ none) × (Dict.get col (columns_of e.old_data) ≡ none)

put-none :
    (c col : String) (v x : Value) (m : Dict Value)
    → Dict.get c m ≡ some v
    → Dict.get col m ≡ none
    → Dict.get col (Dict.put c x m) ≡ none
put-none c col v x m p h = elim (Bool-cases (str_eq c col)) [
  | inl q ↦
      (let same : c ≡ col = ground (arith, eq_iff c col) in
        absurd (ground (arith, sym p ∙ ap (λ k. Dict.get k m) same ∙ h)))
  | inr q ↦ get-put c col x m ∙ ap (λ b. if b then some x else Dict.get col m) q ∙ h
]

masked-none :
    (fn : Value → Value) (c col : String) (m : Dict Value) (o : Option Value)
    → Dict.get c m ≡ o
    → Dict.get col m ≡ none
    → Dict.get col (masked fn c m o) ≡ none
unfolding masked
masked-none fn c col m none p h = h
masked-none fn c col m (some null) p h = h
masked-none fn c col m (some v) p h = put-none c col v (fn v) m p h

mask_each-none :
    (cs : List (String × (Value → Value))) (col : String) (m : Dict Value)
    → Dict.get col m ≡ none
    → Dict.get col (mask_each cs m) ≡ none
unfolding mask_each mask_column
mask_each-none [] col m h = h
mask_each-none ((c, fn) ∷ cs) col m h =
    mask_each-none cs col (mask_column m c fn) (masked-none fn c col m (Dict.get c m) refl h)

drop_each-none :
    (cs : List String) (col : String) (m : Dict Value)
    → Dict.get col m ≡ none
    → Dict.get col (drop_each cs m) ≡ none
unfolding drop_each
drop_each-none [] col m h = h
drop_each-none (c ∷ cs) col m h =
    drop_each-none cs col (Dict.remove c m) (ground (arith, get-remove c col m))

drop_each-In :
    (cs : List String) (col : String) (m : Dict Value)
    → In col cs
    → Dict.get col (drop_each cs m) ≡ none
unfolding drop_each
drop_each-In [] col m i = absurd i
drop_each-In (c ∷ cs) col m (inl p) =
    drop_each-none cs col (Dict.remove c m) (ground (arith, get-remove c col m, eq_iff c col))
drop_each-In (c ∷ cs) col m (inr i) = drop_each-In cs col (Dict.remove c m) i

rewrite-keeps :
    (s : CompiledSpec) (col : String) (r : Row)
    → Dict.get col (columns_of r) ≡ none
    → Dict.get col (columns_of (rewrite s r)) ≡ none
unfolding rewrite Dict.get
rewrite-keeps s col none h = refl
rewrite-keeps s col (some m) h =
    mask_each-none s.mask col (drop_each s.drop_columns m) (drop_each-none s.drop_columns col m h)

rewrite-drops :
    (s : CompiledSpec) (col : String) (r : Row)
    → In col s.drop_columns
    → Dict.get col (columns_of (rewrite s r)) ≡ none
unfolding rewrite Dict.get
rewrite-drops s col none i = refl
rewrite-drops s col (some m) i =
    mask_each-none s.mask col (drop_each s.drop_columns m) (drop_each-In s.drop_columns col m i)

-- A step lets an event through only if the steps that follow do.
step_on-through :
    (rest : CdcEvent → CdcEvent × Bool × Option Error) (e e' out : CdcEvent) (a : Answer Bool)
    → step_on rest e e' a ≡ (out, true, none)
    → rest e' ≡ (out, true, none)
unfolding step_on
step_on-through rest e e' out (failed x) p = absurd (ground arith)
step_on-through rest e e' out (got false) p = absurd (ground arith)
step_on-through rest e e' out (got true) p = p

apply_steps-Gone :
    (ss : List CompiledSpec) (col : String) (e out : CdcEvent)
    → Gone col e
    → apply_steps ss e ≡ (out, true, none)
    → Gone col out
unfolding apply_steps rewritten
apply_steps-Gone [] col e out g p =
    subst (Gone col) (ap (λ (r : CdcEvent × Bool × Option Error). r.0) p) g
apply_steps-Gone (s ∷ ss) col e out g p =
    apply_steps-Gone ss col (rewritten s e) out
      (rewrite-keeps s col e.new_data g.0, rewrite-keeps s col e.old_data g.1)
      (step_on-through (apply_steps ss) e (rewritten s e) out (passes s e) p)

apply_steps-drops :
    (ss : List CompiledSpec) (s : CompiledSpec) (col : String) (e out : CdcEvent)
    → In s ss
    → In col s.drop_columns
    → apply_steps ss e ≡ (out, true, none)
    → Gone col out
unfolding apply_steps rewritten
apply_steps-drops [] s col e out i j p = absurd i
apply_steps-drops (t ∷ ss) s col e out (inl q) j p =
    let dropped : In col t.drop_columns = subst (λ x. In col x.drop_columns) q j in
    apply_steps-Gone ss col (rewritten t e) out
      (rewrite-drops t col e.new_data dropped, rewrite-drops t col e.old_data dropped)
      (step_on-through (apply_steps ss) e (rewritten t e) out (passes t e) p)
apply_steps-drops (t ∷ ss) s col e out (inr i) j p =
    apply_steps-drops ss s col (rewritten t e) out i j
      (step_on-through (apply_steps ss) e (rewritten t e) out (passes t e) p)

-- When Apply lets an event through, it has no column that one of the chain's steps drops, in the new row or
-- in the old one: no later step brings it back.
pub apply-drops :
    (ss : List CompiledSpec) (s : CompiledSpec) (col : String) (e out : CdcEvent)
    → In s ss
    → In col s.drop_columns
    → apply (some ss) e ≡ (out, true, none)
    → Gone col out
unfolding apply
apply-drops ss s col e out i j p = apply_steps-drops ss s col e out i j p
