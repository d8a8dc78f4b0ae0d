-- ===== src/Tests/Sinking.antt =====
-- The key templates and the excluding sink on concrete events.
use gtc.Base.{◌≡◌, refl, String, str_eq, true, not, ◌&&◌, List, [], ◌∷◌, none, some}
use gtc.Base.Dict
use gtc.Domain.Event.{CdcEvent, Operation, str}
use gtc.Domain.Sink.{root, wants}
use gtc.Dlq.Store.{Answer, got}
use gtc.Sinks.Exclude.{exclude_table, of_others, exclude_table-filters}
use gtc.Sinks.Keys.{
  KeyTemplateContext, KeyResolver, Cached, without_cache, generate_key, new_key_resolver,
  should_process, field, generate_key-Cached,
}
use gtc.Tests.World.{sink, empty, event}

exclude_table-filters_example :
    ((of_others "public" "outbox" (event "1" "outbox" ∷ event "2" "users" ∷ []) ≡ [])
      → (exclude_table sink "public" "outbox").process root
          (event "1" "outbox" ∷ event "2" "users" ∷ [])
          empty
        ≡ (empty, none))
    × ((x : CdcEvent) (xs : List CdcEvent)
        → of_others "public" "outbox" (event "1" "outbox" ∷ event "2" "users" ∷ []) ≡ x ∷ xs
        → (exclude_table sink "public" "outbox").process root
            (event "1" "outbox" ∷ event "2" "users" ∷ [])
            empty
          ≡ sink.process root (x ∷ xs) empty)
    × ((s t : String) (op : Operation)
        → wants (exclude_table sink "public" "outbox") s t op
          ≡ (not (str_eq s "public" && str_eq t "outbox") && wants sink s t op))
exclude_table-filters_example =
    exclude_table-filters sink "public" "outbox" root (event "1" "outbox" ∷ event "2" "users" ∷ [])
      empty

one_stays :
    of_others "public" "outbox" (event "1" "outbox" ∷ event "2" "users" ∷ [])
    ≡ event "2" "users" ∷ []
one_stays = refl

-- A library in which a template is its pattern, and answers the value of a field.
abbrev parse : String → Answer String
parse s = got s

abbrev execute : String → KeyTemplateContext → Answer String
execute t c = got (field c t)

abbrev resolver : KeyResolver parse execute
resolver = record {
  get_key_pattern = λ schema table. "name";
  filter = none;
  prefix_template = record { pattern = "id"; template = "id" };
  default_pattern = "id";
  template_cache = [];
}

abbrev ann : CdcEvent
ann = record (event "1" "users") { new_data = some (("id", str "1") ∷ ("name", str "ann") ∷ []) }

empty-Cached : Cached parse execute resolver
unfolding Dict.get
empty-Cached pattern t h = absurd (cc h)

-- the resolver that has cached its pattern
abbrev warm : KeyResolver parse execute
warm = (generate_key parse execute ann resolver).0

generate_key-Cached_example :
    Cached parse execute (generate_key parse execute ann warm).0
    × ((generate_key parse execute ann warm).1
        ≡ (generate_key parse execute ann (without_cache parse execute warm)).1)
generate_key-Cached_example =
    generate_key-Cached parse execute ann warm
      (generate_key-Cached parse execute ann resolver empty-Cached).0

warm_key : (generate_key parse execute ann warm).1 ≡ got "ann"
unfolding generate_key field Dict.get Dict.put
warm_key = refl

every_table : should_process parse execute resolver "public" "users" ≡ true
unfolding should_process
every_table = refl

new_resolver : new_key_resolver parse execute (λ schema table. "name") none "id" "id" ≡ got resolver
unfolding new_key_resolver
new_resolver = refl
