-- ===== src/Backfill/Controller/Observed.antt =====
-- backfill/coordinator.go, ObserveEvent: what an event of the stream adds to the chunks in flight.
use gtc.Base.{
  ◌≡◌, refl, sym, ap, subst, ◌∙◌, ◌⊎◌, inl, inr, String, str_eq, eq_iff, eq_refl, Bool, true, false,
  ◌&&◌, ◌||◌, Bool-cases, Option-cases, List, [], ◌∷◌, Option, none, some, any, arith,
  if◌then◌else◌,
}
use gtc.Base.Dict
use gtc.Base.Dict.{Dict, get-put}
use gtc.Domain.Event.{CdcEvent}
use gtc.Backfill.State.{ChunkInFlight}
use gtc.Backfill.Controller.{observed_key, concerns, known_or, observe_each}
use gtc.Backfill.Controller.Touched.{of_table, touches, touches-observed}

-- The chunks of the event's table have these key columns.
abbrev pub Keyed : List String → CdcEvent → Dict ChunkInFlight → Type 0
Keyed pk e h =
    (id : String) (ch : ChunkInFlight)
    → Dict.get id h ≡ some ch
    → of_table e ch.table ≡ true
    → ch.pk_cols ≡ pk

-- The chunk with more keys seen: these, if `hit`.
abbrev pub Grown : List String → CdcEvent → Bool → ChunkInFlight → ChunkInFlight → Type 0
Grown pk e hit ch ch' =
    (ch' ≡ record ch { seen = ch'.seen })
    × ((k : String)
        → any (str_eq k) ch'.seen
          ≡ (any (str_eq k) ch.seen || (hit && (ch.collecting && touches pk e ch.table k))))

abbrev pub Left :
    List String → CdcEvent → Bool → String → ChunkInFlight → Dict ChunkInFlight → Type 0
Left pk e hit id ch h = (ch' : ChunkInFlight) × (Dict.get id h ≡ some ch') × Grown pk e hit ch ch'

pub get-put_self :
    (id : String) (ch : ChunkInFlight) (h : Dict ChunkInFlight)
    → Dict.get id (Dict.put id ch h) ≡ some ch
get-put_self id ch h =
    get-put id id ch h ∙ ap (λ b. if b then some ch else Dict.get id h) (eq_refl id)

pub get-put_at :
    (i id : String) (ch : ChunkInFlight) (h : Dict ChunkInFlight)
    → str_eq i id ≡ true
    → Dict.get id (Dict.put i ch h) ≡ some ch
get-put_at i id ch h s = get-put i id ch h ∙ ap (λ b. if b then some ch else Dict.get id h) s

pub get-put_other :
    (i id : String) (ch : ChunkInFlight) (h : Dict ChunkInFlight)
    → str_eq i id ≡ false
    → Dict.get id (Dict.put i ch h) ≡ Dict.get id h
get-put_other i id ch h n = get-put i id ch h ∙ ap (λ b. if b then some ch else Dict.get id h) n

or_merge :
    (a m b t here : Bool) → t ≡ a → here ≡ true → ((a || m) || (b && t)) ≡ (m || ((here || b) && t))
or_merge a m b t here p q = ground arith

pub str_eq_sym : (a b : String) → str_eq a b ≡ str_eq b a
str_eq_sym a b = ground (arith, eq_iff a b, eq_iff b a)

-- No chunk appears.
pub observe_each-none :
    (e : CdcEvent) (key : Option String) (ids : List String) (h : Dict ChunkInFlight) (id : String)
    → Dict.get id h ≡ none
    → Dict.get id (observe_each e key ids h) ≡ none
unfolding observe_each
observe_each-none e key [] h id g = g
observe_each-none e key (i ∷ ids) h id g = elim (Option-cases (Dict.get i h)) [
  | inl none_here ↦ rw (observe_each, none_here) (observe_each-none e key ids h id g)
  | inr (x, here) ↦ elim (Bool-cases (concerns e x)) [
    | inr skip ↦ rw (observe_each, here, skip) (observe_each-none e key ids h id g)
    | inl does ↦ elim (Option-cases (known_or key (observed_key e x.pk_cols))) [
      | inl unknown ↦ rw (observe_each, here, does, unknown) g
      | inr (j, found) ↦
          rw (observe_each, here, does, found)
            (observe_each-none e (some j) ids (Dict.put i (record x { seen = j ∷ x.seen }) h) id
              (elim (Bool-cases (str_eq i id)) [
                | inr n ↦ get-put_other i id _ h n ∙ g
                | inl s ↦
                    absurd
                      (cc (sym here ∙ subst (λ y. Dict.get y h ≡ none) (sym ((eq_iff i id).0 s)) g))
              ]))
    ]
  ]
]

module _ (pk : List String) (e : CdcEvent) where
  Keyed-put :
      (h : Dict ChunkInFlight) (i k : String) (ch : ChunkInFlight)
      → Keyed pk e h
      → Dict.get i h ≡ some ch
      → Keyed pk e (Dict.put i (record ch { seen = k ∷ ch.seen }) h)
  Keyed-put h i k ch u g id x p t = elim (Bool-cases (str_eq i id)) [
    | inr n ↦ u id x (sym (get-put_other i id _ h n) ∙ p) t
    | inl s ↦
        (let same : record ch { seen = k ∷ ch.seen } ≡ x = cc (
            sym (
              get-put i id (record ch { seen = k ∷ ch.seen }) h
              ∙ ap (λ b. if b then some (record ch { seen = k ∷ ch.seen }) else Dict.get id h) s)
            ∙ p) in
          sym (ap (λ c. c.pk_cols) same) ∙ u i ch g (ap (λ c. of_table e c.table) same ∙ t))
  ]

  known-observed :
      (key : Option String) (cols : List String)
      → (key ≡ none) ⊎ (key ≡ observed_key e pk)
      → cols ≡ pk
      → known_or key (observed_key e cols) ≡ observed_key e pk
  known-observed none cols k p = ap (observed_key e) p
  known-observed (some j) cols (inl q) p = cc
  known-observed (some j) cols (inr q) p = q

  Left-same :
      (id : String) (ch : ChunkInFlight) (h : Dict ChunkInFlight) (hit : Bool)
      → Dict.get id h ≡ some ch
      → ((k : String) → (hit && (ch.collecting && touches pk e ch.table k)) ≡ false)
      → Left pk e hit id ch h
  Left-same id ch h hit g off = (ch, g, (refl, λ k. ground (arith, off k)))

  -- one chunk of the loop is skipped
  Left-skip :
      (id i : String) (ids : List String) (ch : ChunkInFlight) (h : Dict ChunkInFlight)
      → ((k : String) → str_eq id i ≡ true → (ch.collecting && touches pk e ch.table k) ≡ false)
      → Left pk e (any (str_eq id) ids) id ch h
      → Left pk e (any (str_eq id) (i ∷ ids)) id ch h
  Left-skip id i ids ch h off (ch', g, (same, f)) =
      (ch', g, (same, λ k. ground (arith, f k, off k)))

  concerns-of_table : (x : ChunkInFlight) → concerns e x ≡ true → of_table e x.table ≡ true
  unfolding concerns
  concerns-of_table x h = ground arith

  not_concerned :
      (x : ChunkInFlight) (k : String)
      → concerns e x ≡ false
      → (x.collecting && touches pk e x.table k) ≡ false
  unfolding concerns
  not_concerned x k h = rw (touches-observed pk e x.table k) (ground arith)

  concerned :
      (x : ChunkInFlight) (j k : String)
      → concerns e x ≡ true
      → observed_key e pk ≡ some j
      → (x.collecting && touches pk e x.table k) ≡ str_eq k j
  unfolding concerns
  concerned x j k h found = rw (touches-observed pk e x.table k, found) (ground arith)

  no_key :
      (x : ChunkInFlight) (k : String) (b : Bool)
      → observed_key e pk ≡ none
      → (b && (x.collecting && touches pk e x.table k)) ≡ false
  no_key x k b unknown = rw (touches-observed pk e x.table k, unknown) (ground arith)

  Dict_at :
      (id i : String) (ch : ChunkInFlight) (h : Dict ChunkInFlight)
      → Dict.get id h ≡ some ch
      → str_eq id i ≡ true
      → Dict.get i h ≡ some ch
  Dict_at id i ch h g s = subst (λ j. Dict.get j h ≡ some ch) ((eq_iff id i).0 s) g

  found_same :
      (id i : String) (ch x : ChunkInFlight) (h : Dict ChunkInFlight)
      → Dict.get id h ≡ some ch
      → Dict.get i h ≡ some x
      → str_eq id i ≡ true
      → x ≡ ch
  found_same id i ch x h g here s = cc (sym here ∙ Dict_at id i ch h g s)

  -- the loop goes on after it has added the key to chunk `i`
  Left-through :
      (id i j : String) (ids : List String) (ch x : ChunkInFlight) (h h' : Dict ChunkInFlight)
      → Dict.get id h ≡ some ch
      → Dict.get i h ≡ some x
      → concerns e x ≡ true
      → observed_key e pk ≡ some j
      → ((y : ChunkInFlight)
          → Dict.get id (Dict.put i (record x { seen = j ∷ x.seen }) h) ≡ some y
          → Left pk e (any (str_eq id) ids) id y h')
      → Left pk e (any (str_eq id) (i ∷ ids)) id ch h'
  Left-through id i j ids ch x h h' g here does found ih = elim (Bool-cases (str_eq id i)) [
    | inr n ↦
        (let (ch', r, (same, f)) = ih ch (get-put_other i id _ h (str_eq_sym i id ∙ n) ∙ g) in
          (
            ch',
            r,
            (
              same,
              λ k.
                  f k
                  ∙ ap
                      (λ b.
                        any (str_eq k) ch.seen
                        || ((b || any (str_eq id) ids)
                            && (ch.collecting && touches pk e ch.table k)))
                      (sym n),
            ),
          ))
    | inl s ↦
        (let one : x ≡ ch = found_same id i ch x h g here s in
          let at_id : Dict.get id (Dict.put i (record x { seen = j ∷ x.seen }) h)
              ≡ some (record x { seen = j ∷ x.seen }) =
            get-put i id _ h
            ∙ ap (λ b. if b then some (record x { seen = j ∷ x.seen }) else Dict.get id h)
                (str_eq_sym i id ∙ s) in
          let (ch', r, (same, f)) = ih (record x { seen = j ∷ x.seen }) at_id in
          (
            ch',
            r,
            (
              same
                  ∙ ap {B = ChunkInFlight} (λ (y : ChunkInFlight). record y { seen = ch'.seen })
                      one,
              λ k.
                  subst
                    (λ y. any (str_eq k) ch'.seen ≡ (
                      any (str_eq k) y.seen
                      || ((str_eq id i || any (str_eq id) ids)
                          && (y.collecting && touches pk e y.table k))))
                    one
                    (f k
                      ∙ or_merge (str_eq k j) (any (str_eq k) x.seen) (any (str_eq id) ids)
                          (x.collecting && touches pk e x.table k) (str_eq id i)
                          (concerned x j k does found) s),
            ),
          ))
  ]

  pub observe_each-Left :
      (key : Option String) (ids : List String) (h : Dict ChunkInFlight)
      → (key ≡ none) ⊎ (key ≡ observed_key e pk)
      → Keyed pk e h
      → (id : String) (ch : ChunkInFlight) → Dict.get id h ≡ some ch
      → Left pk e (any (str_eq id) ids) id ch (observe_each e key ids h)
  unfolding observe_each
  observe_each-Left key [] h known u id ch g = Left-same id ch h false g (λ k. refl)
  observe_each-Left key (i ∷ ids) h known u id ch g = elim (Option-cases (Dict.get i h)) [
    | inl none_here ↦
        rw (observe_each, none_here)
          (Left-skip id i ids ch _ (λ k s. absurd (cc (none_here, Dict_at id i ch h g s)))
            (observe_each-Left key ids h known u id ch g))
    | inr (x, here) ↦ elim (Bool-cases (concerns e x)) [
      | inr skip ↦
          rw (observe_each, here, skip)
            (Left-skip id i ids ch _
              (λ k s.
                not_concerned ch k
                  (subst (λ y. concerns e y ≡ false) (found_same id i ch x h g here s) skip))
              (observe_each-Left key ids h known u id ch g))
      | inl does ↦
          (let at_key =
              known-observed key x.pk_cols known (u i x here (concerns-of_table x does)) in
            elim (Option-cases (observed_key e pk)) [
              | inl unknown ↦
                  rw (observe_each, here, does, at_key ∙ unknown)
                    (Left-same id ch h (any (str_eq id) (i ∷ ids)) g
                      (λ k. no_key ch k (any (str_eq id) (i ∷ ids)) unknown))
              | inr (j, found) ↦
                  rw (observe_each, here, does, at_key ∙ found)
                    (Left-through id i j ids ch x h
                      (observe_each e (some j) ids (Dict.put i (record x { seen = j ∷ x.seen }) h))
                      g here does found
                      (λ y q.
                        observe_each-Left (some j) ids
                          (Dict.put i (record x { seen = j ∷ x.seen }) h) (inr (sym found))
                          (Keyed-put h i j x u here) id y q))
            ])
    ]
  ]
