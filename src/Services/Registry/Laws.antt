-- ===== src/Services/Registry/Laws.antt =====
-- services/registry.go: the registry keeps one sink to a name, the first that was registered.
use gtc.Base.{
  ◌≡◌, refl, String, true, none, some, Option-cases, if◌then◌else◌, inl, inr, is_some, ◌⊎◌, str_eq,
}
use gtc.Base.Dict
use gtc.Base.Dict.{Dict, get-put, get-remove, dict_laws}
use gtc.Domain.Sink.{Sink}
use gtc.Services.Registry.{register, unregister}

module _ {W : Type 0} where
  -- Register refuses a name that is taken, and then changes nothing; otherwise the name, and no other one,
  -- leads to the sink. Unregister refuses a name that is free, and otherwise frees it and no other one.
  pub register-unregister :
      (sink : Sink W) (name key : String) (r : Dict (Sink W))
      → (((s : Sink W) × (Dict.get sink.name r ≡ some s)
            × ((register sink r).0 ≡ r)
            × (is_some (register sink r).1 ≡ true))
          ⊎ ((Dict.get sink.name r ≡ none)
              × ((register sink r).1 ≡ none)
              × (Dict.get key (register sink r).0
                  ≡ (if str_eq sink.name key then some sink else Dict.get key r))))
        × (((Dict.get name r ≡ none)
              × ((unregister name r).0 ≡ r)
              × (is_some (unregister name r).1 ≡ true))
            ⊎ ((s : Sink W) × (Dict.get name r ≡ some s)
                × ((unregister name r).1 ≡ none)
                × (Dict.get key (unregister name r).0
                    ≡ (if str_eq name key then none else Dict.get key r))))
  unfolding register unregister
  register-unregister sink name key r = (
    elim (Option-cases (Dict.get sink.name r)) [
      | inl p ↦ inr (p, rw (register, p) refl, rw (register, p) (get-put sink.name key sink r))
      | inr (s, p) ↦ inl (s, p, rw (register, p) refl, rw (register, p) refl)
    ],
    elim (Option-cases (Dict.get name r)) [
      | inl p ↦ inl (p, rw (unregister, p) refl, rw (unregister, p) refl)
      | inr (s, p) ↦ inr (s, p, rw (unregister, p) refl, rw (unregister, p) (get-remove name key r))
    ],
  )
