-- ===== src/Server/Health.antt =====
-- server/health.go: whether the gateway is ready.
use gtc.Base.{
  ◌≡◌, refl, ap, subst, eq_iff, inl, inr, Bool-cases, ◌∙◌, String, str_eq, Bool, true, false, ◌&&◌,
  [], ◌∷◌, Option, none, some, is_none, any, is_some, not, arith, if◌then◌else◌,
}
use gtc.Base.Dict
use gtc.Base.Dict.{Dict, get-put}
use gtc.Domain.Errors.{Error}

pub record HealthStatus : Type 0 where
  pub ready : Bool
  pub sink_status : Dict Bool

-- NewHealthStatus
unfoldable pub new_health_status : HealthStatus
new_health_status = record { ready = false; sink_status = [] }

-- the loop of check over the results
unfoldable pub statuses_of : Dict (Option Error) → Dict Bool × Bool → Dict Bool × Bool
statuses_of [] r = r
statuses_of ((name, err) ∷ results) (statuses, all_healthy) =
    statuses_of results
      (Dict.put name (is_none err) statuses, if not (is_none err) then false else all_healthy)

-- check, with the results of HealthCheckAll and the answer of walHealthy
unfoldable pub check : Dict (Option Error) → Bool → HealthStatus
unfolding statuses_of
check results wal_healthy =
    let (statuses, all_healthy) = statuses_of results ([], true) in
    record { ready = all_healthy && wal_healthy; sink_status = statuses }

abbrev pub failing : Dict (Option Error) → Bool
failing results = any (λ (name, err). is_some err) results

healthy_all :
    (results : Dict (Option Error)) (m : Dict Bool) (b : Bool)
    → (statuses_of results (m, b)).1 ≡ (b && not (failing results))
unfolding statuses_of
healthy_all [] m b = ground arith
healthy_all ((name, none) ∷ results) m b = healthy_all results _ b
healthy_all ((name, some e) ∷ results) m b = healthy_all results _ false ∙ ground arith

-- the map that holds each name once
abbrev pub Once : Dict (Option Error) → Type 0
Once [] = Unit
Once ((name, err) ∷ results) = (Dict.get name results ≡ none) × Once results

abbrev pub health_of : Option (Option Error) → Option Bool → Option Bool
health_of none before = before
health_of (some err) before = some (is_none err)

status_kept :
    (results : Dict (Option Error)) (m : Dict Bool) (b : Bool) (k : String)
    → Once results
    → Dict.get k (statuses_of results (m, b)).0 ≡ health_of (Dict.get k results) (Dict.get k m)
unfolding statuses_of Dict.get
status_kept [] m b k once = refl
status_kept ((name, err) ∷ results) m b k (fresh, once) =
    let next =
      status_kept results (Dict.put name (is_none err) m) (if not (is_none err) then false else b) k
        once in
    elim (Bool-cases (str_eq name k)) [
      | inl same ↦
          (let absent : Dict.get k results ≡ none =
              subst (λ j. Dict.get j results ≡ none) ((eq_iff name k).0 same) fresh in
            rw (same) (
              next
              ∙ ap (λ o. health_of o (Dict.get k (Dict.put name (is_none err) m))) absent
              ∙ get-put name k (is_none err) m
              ∙ rw (same) refl))
      | inr other ↦ rw (other) (
          next
          ∙ ap (health_of (Dict.get k results)) (get-put name k (is_none err) m ∙ rw (other) refl))
    ]

-- After a check with results that hold each name once, the gateway is ready exactly when no sink's health check
-- failed and the stream is healthy, and the status of a sink is whether its check returned no error, for the
-- checked sinks and no others.
pub check-statuses :
    (results : Dict (Option Error)) (wal_healthy : Bool)
    → Once results
    → ((check results wal_healthy).ready ≡ (not (failing results) && wal_healthy))
      × ((k : String)
          → Dict.get k (check results wal_healthy).sink_status
            ≡ health_of (Dict.get k results) none)
unfolding check Dict.get
check-statuses results wal_healthy once = (
  ap (λ b. b && wal_healthy) (healthy_all results [] true),
  λ k. status_kept results [] true k once,
)
