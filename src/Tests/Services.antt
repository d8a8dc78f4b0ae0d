-- ===== src/Tests/Services.antt =====
-- services/cdc_service.go and services/registry.go: two sinks, one batch, one excluded table.
use gtc.Base.{
  ◌≡◌, refl, ◌⊎◌, true, false, List, [], ◌∷◌, none, some, is_some, str_eq, if◌then◌else◌, All,
}
use gtc.Base.Int.{pos}
use gtc.Base.Dict
use gtc.Domain.Errors.{
  wrap, wrap_all, cons, nil, join, sentinel, sink_process_failed, from_list, Error,
}
use gtc.Domain.Sink.{Sink, root}
use gtc.Services.Deliver.{deliver}
use gtc.Services.Batch.{CdcServiceConfig, admit, handle_batch, put_at, process_sink, sink_error}
use gtc.Services.Batch.Accepted.{Took, handle_batch-accepts}
use gtc.Services.Registry.{register, unregister}
use gtc.Services.Registry.Laws.{register-unregister}
use gtc.Base.{In}
use gtc.Services.Batch.Refused.{Refused, handle_batch-refuses}
use gtc.Tests.World.{rejected, World, sink, sink_of, batch, empty}

abbrev cfg : CdcServiceConfig
cfg = record { parallel_sinks = true; excluded_tables = "bad" ∷ "public.b" ∷ [] }

abbrev sinks : List (Sink World)
sinks = sink ∷ sink_of (some (pos 1)) ∷ []

-- The second sink runs first; the poison table and another one are excluded.
accepted : (handle_batch root cfg sinks (1 ∷ 0 ∷ []) false batch empty).1 ≡ none
unfolding handle_batch deliver put_at process_sink
accepted = refl

-- With nothing excluded, the poison event makes the batch fail.
refused_batch :
    is_some
      (handle_batch root
        (record cfg { excluded_tables = [] })
        sinks
        (1 ∷ 0 ∷ [])
        false
        batch
        empty).1
    ≡ true
unfolding handle_batch deliver put_at process_sink
refused_batch = refl

handle_batch-accepts_example :
    (false ≡ false) × ((admit cfg batch ≡ []) ⊎ All (Took root (admit cfg batch)) sinks)
handle_batch-accepts_example =
    handle_batch-accepts root cfg sinks (1 ∷ 0 ∷ []) false batch empty accepted

register-unregister_example :
    (((s : Sink World) × (Dict.get sink.name [] ≡ some s)
        × ((register sink []).0 ≡ [])
        × (is_some (register sink []).1 ≡ true))
      ⊎ ((Dict.get {V = Sink World} sink.name [] ≡ none)
          × ((register sink []).1 ≡ none)
          × (Dict.get "search" (register sink []).0
              ≡ (if str_eq sink.name "search" then some sink else Dict.get "search" []))))
    × (((Dict.get {V = Sink World} "search" [] ≡ none)
          × ((unregister {W = World} "search" []).0 ≡ [])
          × (is_some (unregister {W = World} "search" []).1 ≡ true))
        ⊎ ((s : Sink World) × (Dict.get "search" [] ≡ some s)
            × ((unregister {W = World} "search" []).1 ≡ none)
            × (Dict.get "search" (unregister {W = World} "search" []).0
                ≡ (if str_eq "search" "search" then none else Dict.get "search" []))))
register-unregister_example = register-unregister sink "search" "search" []

abbrev turn : CdcServiceConfig
turn = record { parallel_sinks = false; excluded_tables = [] }

abbrev poison_error : Error
poison_error = wrap_all "sink processing failed: " (
    cons (sentinel sink_process_failed) (
      cons (join (cons (wrap "sink search: " rejected) (cons (wrap "sink search: " rejected) nil)))
        nil))

turn_refused : (handle_batch root turn sinks [] false batch empty).1 ≡ some poison_error
unfolding handle_batch deliver put_at process_sink from_list sink_error
turn_refused = refl

handle_batch-refuses_example :
    (false ≡ true) ⊎ ((s : Sink World) × In s sinks × Refused root (admit turn batch) s)
handle_batch-refuses_example =
    handle_batch-refuses root turn sinks [] false batch empty poison_error refl turn_refused
