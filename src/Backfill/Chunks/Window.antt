-- ===== src/Backfill/Chunks/Window.antt =====
-- backfill/coordinator.go: the window of a chunk, from its low to its high watermark in the stream.
use gtc.Base.{
  ◌≡◌, refl, sym, ap, subst, ◌∙◌, inl, inr, String, str_eq, eq_iff, Bool, true, false, ◌||◌,
  Bool-cases, Option-cases, List, [], ◌∷◌, none, some, any, length, arith, if◌then◌else◌,
}
use gtc.Base.Dict
use gtc.Base.Dict.{Dict}
use gtc.Domain.Event.{CdcEvent}
use gtc.Backfill.State.{TableRef, Row, ChunkInFlight, Coordinator}
use gtc.Backfill.Controller.{observe_each, observe_event}
use gtc.Backfill.Controller.Observed.{
  Keyed, observe_each-Left, observe_each-none, get-put_at, get-put_other,
}
use gtc.Backfill.Controller.Touched.{of_table, touches}
use gtc.Backfill.Chunks.{selected, take_selection}

-- What happens between the two watermarks: an event of the stream, or a selection that found rows.
pub data Act : Type 0 where
  observes : CdcEvent → Act
  selects : String → Row → List Row → List String → Act

unfoldable pub act : Act → Coordinator → Coordinator
unfolding observe_event take_selection
act (observes e) c = observe_event e c
act (selects id row rows cursor) c = take_selection id (row ∷ rows) cursor c

unfoldable pub run : List Act → Coordinator → Coordinator
run [] c = c
run (a ∷ as') c = run as' (act a c)

abbrev pub selected_rows : String → Act → List Row → List Row
selected_rows id (observes e) rows = rows
selected_rows id (selects j row rest cursor) rows = if str_eq j id then row ∷ rest else rows

-- the rows that the last selection for the chunk found
unfoldable pub rows_after : String → List Act → List Row → List Row
rows_after id [] rows = rows
rows_after id (a ∷ as') rows = rows_after id as' (selected_rows id a rows)

abbrev pub touched_by : List String → TableRef → String → Act → Bool
touched_by pk t k (observes e) = touches pk e t k
touched_by pk t k (selects id row rows cursor) = false

-- Each chunk has the key columns of its table.
abbrev pub KeysOf : (TableRef → List String) → Dict ChunkInFlight → Type 0
KeysOf pk_of h =
    (id : String) (ch : ChunkInFlight) → Dict.get id h ≡ some ch → ch.pk_cols ≡ pk_of ch.table

module _ (pk_of : TableRef → List String) where
  event_table : CdcEvent → TableRef
  event_table e = record { schema = e.schema; table = e.table }

  of_table-eq : (e : CdcEvent) (t : TableRef) → of_table e t ≡ true → event_table e ≡ t
  unfolding event_table
  of_table-eq e t h = ground (arith, eq_iff e.schema t.schema, eq_iff e.table t.table)

  KeysOf-Keyed :
      (e : CdcEvent) (h : Dict ChunkInFlight) → KeysOf pk_of h → Keyed (pk_of (event_table e)) e h
  KeysOf-Keyed e h u id ch g t = u id ch g ∙ ap pk_of (sym (of_table-eq e ch.table t))

  touches-eq :
      (e : CdcEvent) (t : TableRef) (k : String)
      → touches (pk_of (event_table e)) e t k ≡ touches (pk_of t) e t k
  touches-eq e t k = elim (Bool-cases (of_table e t)) [
    | inl same ↦ ap (λ u. touches (pk_of u) e t k) (of_table-eq e t same)
    | inr other ↦ rw (other)
  ]

  observe-KeysOf :
      (e : CdcEvent) (ids : List String) (h : Dict ChunkInFlight)
      → KeysOf pk_of h
      → KeysOf pk_of (observe_each e none ids h)
  observe-KeysOf e ids h u id x p = elim (Option-cases (Dict.get id h)) [
    | inl absent ↦ absurd (cc (sym p ∙ observe_each-none e none ids h id absent))
    | inr (ch, g) ↦
        (let (ch', r, (same, f)) =
            observe_each-Left (pk_of (event_table e)) e none ids h (inl refl) (KeysOf-Keyed e h u)
              id ch g in
          let is : ch' ≡ x = cc (sym r ∙ p) in
          subst (λ y. y.pk_cols ≡ pk_of y.table) is
            (ap (λ y. y.pk_cols) same
              ∙ u id ch g
              ∙ ap (λ (y : ChunkInFlight). pk_of y.table) (sym same)))
  ]

  -- The chunk while its window is open: these events were observed, and these rows selected.
  pub record Collects (id : String) (t : TableRef) (seen_by : String → Bool) (rows : List Row)
      (c : Coordinator) : Type 0 where
    pub ch : ChunkInFlight
    pub flying : any (str_eq id) c.inflight ≡ true
    pub held : Dict.get id c.chunks ≡ some ch
    pub table : ch.table ≡ t
    pub open_ : ch.collecting ≡ true
    pub pending : ch.pending ≡ rows
    pub seen : (k : String) → any (str_eq k) ch.seen ≡ seen_by k
    pub keys : KeysOf pk_of c.chunks

  observes-Collects :
      (id : String) (t : TableRef) (seen_by : String → Bool) (rows : List Row) (c : Coordinator)
      (e : CdcEvent)
      → Collects id t seen_by rows c
      → Collects id t (λ k. seen_by k || touches (pk_of t) e t k) rows (observe_event e c)
  unfolding observe_event
  observes-Collects id t seen_by rows c e q =
      let (ch', r, (same, f)) =
        observe_each-Left (pk_of (event_table e)) e none c.inflight c.chunks (inl refl)
          (KeysOf-Keyed e c.chunks q.keys) id q.ch q.held in
      record {
        ch = ch';
        flying = q.flying;
        held = r;
        table = ap (λ (y : ChunkInFlight). y.table) same ∙ q.table;
        open_ = ap (λ (y : ChunkInFlight). y.collecting) same ∙ q.open_;
        pending = ap (λ (y : ChunkInFlight). y.pending) same ∙ q.pending;
        seen = λ k. f k ∙ rw (q.flying, q.open_, q.table, q.seen k, touches-eq e t k) refl;
        keys = observe-KeysOf e c.inflight c.chunks q.keys;
      }

  pub put-KeysOf :
      (i : String) (ch ch' : ChunkInFlight) (h : Dict ChunkInFlight)
      → KeysOf pk_of h
      → Dict.get i h ≡ some ch
      → ch'.table ≡ ch.table
      → ch'.pk_cols ≡ ch.pk_cols
      → KeysOf pk_of (Dict.put i ch' h)
  put-KeysOf i ch ch' h u g t p id x q = elim (Bool-cases (str_eq i id)) [
    | inr n ↦ u id x (sym (get-put_other i id ch' h n) ∙ q)
    | inl s ↦
        (let is : ch' ≡ x = cc (sym (get-put_at i id ch' h s) ∙ q) in
          subst (λ (y : ChunkInFlight). y.pk_cols ≡ pk_of y.table) is
            (p ∙ u i ch g ∙ ap pk_of (sym t)))
  ]

  selects-Collects :
      (id : String) (t : TableRef) (seen_by : String → Bool) (rows : List Row) (c : Coordinator)
      (j : String) (row : Row) (rest : List Row) (cursor : List String)
      → Collects id t seen_by rows c
      → Collects id t
          (λ k. seen_by k || false)
          (if str_eq j id then row ∷ rest else rows)
          (take_selection j (row ∷ rest) cursor c)
  unfolding take_selection selected
  selects-Collects id t seen_by rows c j row rest cursor q =
      elim (Option-cases (Dict.get j c.chunks)) [
        | inl absent ↦ rw (absent) (record {
          ch = q.ch;
          flying = q.flying;
          held = q.held;
          table = q.table;
          open_ = q.open_;
          pending = elim (Bool-cases (str_eq j id)) [
            | inr n ↦ rw (n) q.pending
            | inl s ↦ absurd (
                cc (
                  sym absent
                  ∙ subst (λ y. Dict.get y c.chunks ≡ some q.ch) (sym ((eq_iff j id).0 s)) q.held))
          ];
          seen = λ k. q.seen k ∙ ground arith;
          keys = q.keys;
        })
        | inr (x, here) ↦ elim (Bool-cases (str_eq j id)) [
          | inr n ↦
              rw (here, n)
                (record {
                  ch = q.ch;
                  flying = q.flying;
                  held = get-put_other j id _ c.chunks n ∙ q.held;
                  table = q.table;
                  open_ = q.open_;
                  pending = q.pending;
                  seen = λ k. q.seen k ∙ ground arith;
                  keys = put-KeysOf j x _ c.chunks q.keys here refl refl;
                })
          | inl s ↦
              (let same : x ≡ q.ch = cc (
                  sym here
                  ∙ subst (λ y. Dict.get y c.chunks ≡ some q.ch) (sym ((eq_iff j id).0 s))
                      q.held) in
                rw (here, s)
                  (record {
                    ch = record x {
                      pending = row ∷ rest;
                      row_count = length (row ∷ rest);
                      last_cursor = cursor;
                    };
                    flying = q.flying;
                    held = get-put_at j id _ c.chunks s;
                    table = ap (λ (y : ChunkInFlight). y.table) same ∙ q.table;
                    open_ = ap (λ (y : ChunkInFlight). y.collecting) same ∙ q.open_;
                    pending = refl;
                    seen = λ k.
                        ap (λ (y : ChunkInFlight). any (str_eq k) y.seen) same
                        ∙ q.seen k
                        ∙ ground arith;
                    keys = put-KeysOf j x _ c.chunks q.keys here refl refl;
                  }))
        ]
      ]

  act-Collects :
      (id : String) (t : TableRef) (seen_by : String → Bool) (rows : List Row) (c : Coordinator)
      (a : Act)
      → Collects id t seen_by rows c
      → Collects id t
          (λ k. seen_by k || touched_by (pk_of t) t k a)
          (selected_rows id a rows)
          (act a c)
  unfolding act
  act-Collects id t seen_by rows c (observes e) q = observes-Collects id t seen_by rows c e q
  act-Collects id t seen_by rows c (selects j row rest cursor) q =
      selects-Collects id t seen_by rows c j row rest cursor q

  or_any :
      (f : Act → Bool) (a b : Bool) (as' : List Act)
      → ((a || b) || any f as') ≡ (a || (b || any f as'))
  or_any f a b as' = ground arith

  pub run-Collects :
      (id : String) (t : TableRef) (seen_by : String → Bool) (rows : List Row) (c : Coordinator)
      (as' : List Act)
      → Collects id t seen_by rows c
      → Collects id t
          (λ k. seen_by k || any (touched_by (pk_of t) t k) as')
          (rows_after id as' rows)
          (run as' c)
  unfolding run rows_after
  run-Collects id t seen_by rows c [] q = record {
    ch = q.ch;
    flying = q.flying;
    held = q.held;
    table = q.table;
    open_ = q.open_;
    pending = q.pending;
    seen = λ k. q.seen k ∙ ground arith;
    keys = q.keys;
  }
  run-Collects id t seen_by rows c (a ∷ as') q =
      let r =
        run-Collects id t (λ k. seen_by k || touched_by (pk_of t) t k a) (selected_rows id a rows)
          (act a c) as' (act-Collects id t seen_by rows c a q) in
      record {
        ch = r.ch;
        flying = r.flying;
        held = r.held;
        table = r.table;
        open_ = r.open_;
        pending = r.pending;
        seen = λ k.
            r.seen k
            ∙ or_any (touched_by (pk_of t) t k) (seen_by k) (touched_by (pk_of t) t k a) as';
        keys = r.keys;
      }
