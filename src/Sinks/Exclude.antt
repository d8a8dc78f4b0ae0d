-- ===== src/Sinks/Exclude.antt =====
-- outbox/exclude.go: the sink that never sees the events of one table.
use gtc.Base.{
  ◌≡◌, refl, sym, ap, ◌∙◌, inl, inr, String, str_eq, Bool, false, not, ◌&&◌, Bool-cases, List, [],
  ◌∷◌, ◌++◌, append_assoc, append-nil, Option, none, some, keep, arith, if◌then◌else◌,
}
use gtc.Domain.Errors.{Error}
use gtc.Domain.Event.{CdcEvent, Operation}
use gtc.Domain.Sink.{Ctx, Sink, wants}

unfoldable pub excluded : String → String → CdcEvent → Bool
excluded schema table e = str_eq e.schema schema && str_eq e.table table

-- the loop of Process: the events before the one it looks at, and the rest
unfoldable pub cut_from : String → String → List CdcEvent → List CdcEvent → List CdcEvent
unfolding excluded
cut_from schema table before [] = before
cut_from schema table before (e ∷ es) =
    let rest = cut_from schema table (before ++ (e ∷ [])) es in
    if excluded schema table e then before ++ keep (λ x. not (excluded schema table x)) es else rest

module _ {W : Type 0} where
  unfoldable pub send : Sink W → Ctx → List CdcEvent → W → W × Option Error
  send inner ctx [] w = (w, none)
  send inner ctx (e ∷ es) w = inner.process ctx (e ∷ es) w

  -- ExcludeTable, with the methods of excludingSink
  unfoldable pub exclude_table : Sink W → String → String → Sink W
  unfolding send cut_from wants
  exclude_table inner schema table = record inner {
    router =
        some (λ s t op. if str_eq s schema && str_eq t table then false else wants inner s t op);
    process = λ ctx events w. send inner ctx (cut_from schema table [] events) w;
  }

cut-keep :
    (schema table : String) (before es : List CdcEvent)
    → cut_from schema table before es ≡ before ++ keep (λ x. not (excluded schema table x)) es
unfolding cut_from
cut-keep schema table before [] = sym (append-nil before)
cut-keep schema table before (e ∷ es) = elim (Bool-cases (excluded schema table e)) [
  | inl out ↦ rw (out) refl
  | inr stays ↦ rw (stays) (
      cut-keep schema table (before ++ (e ∷ [])) es
      ∙ append_assoc before (e ∷ []) (keep (λ x. not (excluded schema table x)) es))
]

-- the events of the tables other than the given one
abbrev pub of_others : String → String → List CdcEvent → List CdcEvent
of_others schema table events =
    keep (λ x. not (str_eq x.schema schema && str_eq x.table table)) events

cut-of_others :
    (schema table : String) (events : List CdcEvent)
    → cut_from schema table [] events ≡ of_others schema table events
unfolding excluded
cut-of_others schema table events = cut-keep schema table [] events

-- The sink that excludes a table leaves the world as it is, without an error, when no event is of another table;
-- otherwise it is one call of its inner sink on the events of the other tables, in order. It wants nothing of the
-- table, and of the others what the inner sink wants.
pub exclude_table-filters :
    {W : Type 0} (inner : Sink W) (schema table : String) (ctx : Ctx) (events : List CdcEvent)
    (w : W)
    → ((of_others schema table events ≡ [])
        → (exclude_table inner schema table).process ctx events w ≡ (w, none))
      × ((x : CdcEvent) (xs : List CdcEvent)
          → of_others schema table events ≡ x ∷ xs
          → (exclude_table inner schema table).process ctx events w ≡ inner.process ctx (x ∷ xs) w)
      × ((s t : String) (op : Operation)
          → wants (exclude_table inner schema table) s t op
            ≡ (not (str_eq s schema && str_eq t table) && wants inner s t op))
unfolding exclude_table wants send
exclude_table-filters inner schema table ctx events w = (
  λ p. ap (λ es. send inner ctx es w) (cut-of_others schema table events ∙ p),
  λ x xs p. ap (λ es. send inner ctx es w) (cut-of_others schema table events ∙ p),
  λ s t op. ground arith,
)
