-- ===== src/Sinks/Keys.antt =====
-- redis/key_template.go: the keys of the Redis sinks. `parse` and `execute` are those of the library
-- text/template, and `Template` is its type of templates.
use gtc.Base.{
  ◌≡◌, refl, sym, ap, subst, ◌∙◌, inl, inr, String, str_eq, eq_iff, Bool, true, Bool-cases, [],
  Option, none, some, if◌then◌else◌,
}
use Prim.Native.String.{◌++◌ as ◌<>◌}
use gtc.Base.Dict
use gtc.Base.Dict.{Dict, get-put}
use gtc.Domain.Errors.{wrap}
use gtc.Domain.Event.{CdcEvent, Value, null, str, boxed, to_string}
use gtc.Dlq.Store.{Answer, got, failed}

abbrev pub default_stream_key_pattern : String
default_stream_key_pattern = "{{.Prefix}}:{{.Schema}}:{{.Table}}"

-- KeyTemplateContext
pub record KeyTemplateContext : Type 0 where
  pub prefix : String
  pub schema : String
  pub table : String
  pub operation : String
  pub id : String
  pub new_data : Option (Dict Value)
  pub old_data : Option (Dict Value)

-- NewKeyTemplateContext
unfoldable pub new_key_template_context : String → CdcEvent → KeyTemplateContext
unfolding to_string
new_key_template_context prefix e = record {
  prefix = prefix;
  schema = e.schema;
  table = e.table;
  operation = to_string e.operation;
  id = e.id;
  new_data = e.new_data;
  old_data = e.old_data;
}

-- formatFieldValue
abbrev pub format_field_value : Value → String
format_field_value null = "null"
format_field_value (str s) = s
format_field_value (boxed type text) = text

abbrev pub value_in : String → Option (Dict Value) → Option Value
value_in name none = none
value_in name (some m) = Dict.get name m

-- Field
unfoldable pub field : KeyTemplateContext → String → String
field c name = elim (value_in name c.new_data) [
  | some v ↦ format_field_value v
  | none ↦ elim (value_in name c.old_data) [ some v ↦ format_field_value v | none ↦ "" ]
]

module _ {Template : Type 0} (parse : String → Answer Template)
    (execute : Template → KeyTemplateContext → Answer String) where
  pub record KeyTemplate : Type 0 where
    pub pattern : String
    pub template : Template

  parsed : String → Answer Template → Answer KeyTemplate
  parsed pattern (failed e) = failed (wrap ("invalid key pattern " <> pattern <> ": ") e)
  parsed pattern (got t) = got (record { pattern = pattern; template = t })

  -- ParseKeyTemplate
  unfoldable pub parse_key_template : String → Answer KeyTemplate
  unfolding parsed
  parse_key_template pattern = parsed pattern (parse pattern)

  executed : Answer String → Answer String
  executed (failed e) = failed (wrap "failed to execute key template: " e)
  executed (got s) = got s

  -- Execute
  unfoldable pub execute_template : KeyTemplate → KeyTemplateContext → Answer String
  unfolding executed
  execute_template t c = executed (execute t.template c)

  -- KeyResolver, whose filter may be nil
  pub record KeyResolver : Type 0 where
    pub get_key_pattern : String → String → String
    pub filter : Option (String → String → Bool)
    pub prefix_template : KeyTemplate
    pub default_pattern : String
    pub template_cache : Dict KeyTemplate

  resolver_of :
      (String → String → String)
      → Option (String → String → Bool)
      → String
      → Answer KeyTemplate
      → Answer KeyResolver
  resolver_of patterns filter default_pattern (failed e) =
      failed (wrap "invalid prefix template: " e)
  resolver_of patterns filter default_pattern (got t) = got (record {
    get_key_pattern = patterns;
    filter = filter;
    prefix_template = t;
    default_pattern =
        if str_eq default_pattern "" then default_stream_key_pattern else default_pattern;
    template_cache = [];
  })

  -- NewKeyResolver
  unfoldable pub new_key_resolver :
      (String → String → String)
      → Option (String → String → Bool)
      → String
      → String
      → Answer KeyResolver
  unfolding resolver_of parse_key_template
  new_key_resolver patterns filter prefix default_pattern =
      resolver_of patterns filter default_pattern (parse_key_template prefix)

  -- ShouldProcess
  unfoldable pub should_process : KeyResolver → String → String → Bool
  should_process kr schema table = elim kr.filter [ none ↦ true | some f ↦ f schema table ]

  parsed_now : String → KeyResolver → Answer KeyTemplate → KeyResolver × Answer KeyTemplate
  parsed_now pattern kr (failed e) = (kr, failed (wrap "invalid pattern: " e))
  parsed_now pattern kr (got t) =
      (record kr { template_cache = Dict.put pattern t kr.template_cache }, got t)

  cached_or : String → KeyResolver → Option KeyTemplate → KeyResolver × Answer KeyTemplate
  unfolding parsed_now parse_key_template
  cached_or pattern kr (some t) = (kr, got t)
  cached_or pattern kr none = parsed_now pattern kr (parse_key_template pattern)

  -- cachedTemplate
  unfoldable pub cached_template : String → KeyResolver → KeyResolver × Answer KeyTemplate
  unfolding cached_or
  cached_template pattern kr = cached_or pattern kr (Dict.get pattern kr.template_cache)

  unfoldable pub pattern_for : KeyResolver → CdcEvent → String
  pattern_for kr e =
      let pattern = kr.get_key_pattern e.schema e.table in
      if str_eq pattern "" then kr.default_pattern else pattern

  with_template : String → CdcEvent → KeyResolver × Answer KeyTemplate → KeyResolver × Answer String
  unfolding execute_template new_key_template_context
  with_template prefix e (kr, failed err) = (kr, failed err)
  with_template prefix e (kr, got t) = (kr, execute_template t (new_key_template_context prefix e))

  with_prefix : CdcEvent → KeyResolver → Answer String → KeyResolver × Answer String
  unfolding with_template cached_template pattern_for
  with_prefix e kr (failed err) = (kr, failed (wrap "failed to resolve prefix: " err))
  with_prefix e kr (got prefix) = with_template prefix e (cached_template (pattern_for kr e) kr)

  -- GenerateKey
  unfoldable pub generate_key : CdcEvent → KeyResolver → KeyResolver × Answer String
  unfolding with_prefix execute_template new_key_template_context
  generate_key e kr =
      with_prefix e kr (execute_template kr.prefix_template (new_key_template_context "" e))

  -- The cache holds what parsing gives.
  abbrev pub Cached : KeyResolver → Type 0
  Cached kr =
      (pattern : String) (t : KeyTemplate)
      → Dict.get pattern kr.template_cache ≡ some t
      → parse_key_template pattern ≡ got t

  -- the resolver without what it has cached
  abbrev pub without_cache : KeyResolver → KeyResolver
  without_cache kr = record kr { template_cache = [] }

  put-Cached :
      (kr : KeyResolver) (pattern : String) (t : KeyTemplate)
      → Cached kr
      → parse_key_template pattern ≡ got t
      → Cached (record kr { template_cache = Dict.put pattern t kr.template_cache })
  put-Cached kr pattern t c h p x g = elim (Bool-cases (str_eq pattern p)) [
    | inl same ↦
        subst (λ q. parse_key_template q ≡ got x) ((eq_iff pattern p).0 same)
          (h
            ∙ ap got (
                cc (
                  sym (
                    get-put pattern p t kr.template_cache
                    ∙ ap (λ b. if b then some t else Dict.get p kr.template_cache) same)
                  ∙ g)))
    | inr n ↦ c p x (
        sym (
          get-put pattern p t kr.template_cache
          ∙ ap (λ b. if b then some t else Dict.get p kr.template_cache) n)
        ∙ g)
  ]

  parsed_now-Cached :
      (pattern : String) (kr : KeyResolver) (a : Answer KeyTemplate)
      → parse_key_template pattern ≡ a
      → Cached kr
      → Cached (parsed_now pattern kr a).0
  unfolding parsed_now
  parsed_now-Cached pattern kr (failed e) h c = c
  parsed_now-Cached pattern kr (got t) h c = put-Cached kr pattern t c h

  parsed_now-answer :
      (pattern : String) (kr other : KeyResolver) (a : Answer KeyTemplate)
      → (parsed_now pattern kr a).1 ≡ (parsed_now pattern other a).1
  unfolding parsed_now
  parsed_now-answer pattern kr other (failed e) = refl
  parsed_now-answer pattern kr other (got t) = refl

  cached_or-Cached :
      (pattern : String) (kr : KeyResolver) (o : Option KeyTemplate)
      → Dict.get pattern kr.template_cache ≡ o
      → Cached kr
      → Cached (cached_or pattern kr o).0
        × ((cached_or pattern kr o).1
            ≡ (parsed_now pattern (without_cache kr) (parse_key_template pattern)).1)
  unfolding cached_or parsed_now
  cached_or-Cached pattern kr (some t) h c =
      (c, sym (ap (λ a. (parsed_now pattern (without_cache kr) a).1) (c pattern t h)))
  cached_or-Cached pattern kr none h c = (
    parsed_now-Cached pattern kr (parse_key_template pattern) refl c,
    parsed_now-answer pattern kr (without_cache kr) (parse_key_template pattern),
  )

  with_template-Cached :
      (prefix : String) (e : CdcEvent) (r s : KeyResolver × Answer KeyTemplate)
      → Cached r.0
      → r.1 ≡ s.1
      → Cached (with_template prefix e r).0
        × ((with_template prefix e r).1 ≡ (with_template prefix e s).1)
  unfolding with_template
  with_template-Cached prefix e (kr, failed x) (lr, failed y) c h =
      (c, ap (λ a. (with_template prefix e (lr, a)).1) h)
  with_template-Cached prefix e (kr, failed x) (lr, got y) c h = absurd (cc h)
  with_template-Cached prefix e (kr, got x) (lr, failed y) c h = absurd (cc h)
  with_template-Cached prefix e (kr, got x) (lr, got y) c h =
      (c, ap (λ a. (with_template prefix e (lr, a)).1) h)

  with_prefix-Cached :
      (e : CdcEvent) (kr : KeyResolver) (a : Answer String)
      → Cached kr
      → Cached (with_prefix e kr a).0
        × ((with_prefix e kr a).1 ≡ (with_prefix e (without_cache kr) a).1)
  unfolding with_prefix cached_template Dict.get pattern_for
  with_prefix-Cached e kr (failed x) c = (c, refl)
  with_prefix-Cached e kr (got prefix) c =
      let (keeps, same) =
        cached_or-Cached (pattern_for kr e) kr (Dict.get (pattern_for kr e) kr.template_cache) refl
          c in
      with_template-Cached prefix e (cached_template (pattern_for kr e) kr)
        (cached_template (pattern_for kr e) (without_cache kr)) keeps same

  -- When the cache of a resolver holds what parsing its patterns gives, GenerateKey answers what it answers without
  -- a cache, errors included, and the cache it leaves holds what parsing gives too.
  pub generate_key-Cached :
      (e : CdcEvent) (kr : KeyResolver)
      → Cached kr
      → Cached (generate_key e kr).0
        × ((generate_key e kr).1 ≡ (generate_key e (without_cache kr)).1)
  unfolding generate_key
  generate_key-Cached e kr c = with_prefix-Cached e kr _ c
