-- ===== src/Services/Registry.antt =====
-- internal/core/services/registry.go: the sinks by name. A range over a Go map visits the keys in an order
-- that the language leaves open: the functions that range take the order, `visit`, as the sinks visited.
pub mod Laws
use gtc.Base.{String, Bool, List, [], ◌∷◌, ◌++◌, map, Option, none, some}
use gtc.Base.Dict
use gtc.Base.Dict.{Dict}
use gtc.Domain.Errors.{Error, sentinel, join_list, sink_already_exists, sink_not_found}
use gtc.Domain.Sink.{Sink, Ctx}
use gtc.Dlq.Store.{Answer, got, failed}

module _ {W : Type 0} where
  -- Register
  unfoldable pub register : Sink W → Dict (Sink W) → Dict (Sink W) × Option Error
  register sink r = elim (Dict.get sink.name r) [
    | some s ↦ (r, some (sentinel sink_already_exists))
    | none ↦ (Dict.put sink.name sink r, none)
  ]

  -- NewSinkRegistryWithSinks, which ignores the errors of Register
  unfoldable pub new_registry : List (Sink W) → Dict (Sink W) → Dict (Sink W)
  unfolding register
  new_registry [] r = r
  new_registry (s ∷ ss) r = new_registry ss (register s r).0

  -- Unregister
  pub unregister : String → Dict (Sink W) → Dict (Sink W) × Option Error
  unregister name r = elim (Dict.get name r) [
    | none ↦ (r, some (sentinel sink_not_found))
    | some s ↦ (Dict.remove name r, none)
  ]

  -- Get
  unfoldable pub lookup : String → Dict (Sink W) → Answer (Sink W)
  lookup name r = elim (Dict.get name r) [
    | none ↦ failed (sentinel sink_not_found)
    | some s ↦ got s
  ]

  -- All, in the order of the association list
  unfoldable pub all : Dict (Sink W) → List (Sink W)
  all r = map (λ p. p.1) r

  -- InitializeAll
  unfoldable pub initialize_all : Ctx → List (Sink W) → W → W × Option Error
  initialize_all ctx [] w = (w, none)
  initialize_all ctx (s ∷ ss) w =
      (let (v, err) = s.initialize ctx w in
        elim err [ some e ↦ (v, some e) | none ↦ initialize_all ctx ss v ])

  -- the loop of ShutdownAll, with the errors so far
  shutdown_each : Ctx → List (Sink W) → W → W × List Error
  shutdown_each ctx [] w = (w, [])
  shutdown_each ctx (s ∷ ss) w =
      (let (v, err) = s.shutdown ctx w in
        let (u, errs) = shutdown_each ctx ss v in (u, elim err [ none ↦ errs | some e ↦ e ∷ errs ]))

  -- ShutdownAll
  unfoldable pub shutdown_all : Ctx → List (Sink W) → W → W × Option Error
  unfolding shutdown_each
  shutdown_all ctx ss w = let (u, errs) = shutdown_each ctx ss w in (u, join_list errs)

  -- HealthCheckAll: every sink's answer, under its name
  unfoldable pub health_check_all : Ctx → List (String × Sink W) → W → W × Dict (Option Error)
  health_check_all ctx [] w = (w, [])
  health_check_all ctx ((name, s) ∷ ss) w =
      (let (v, err) = s.health_check ctx w in
        let (u, results) = health_check_all ctx ss v in (u, Dict.put name err results))
