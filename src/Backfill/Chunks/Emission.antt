-- ===== src/Backfill/Chunks/Emission.antt =====
-- backfill/coordinator.go, HandleWatermark: the rows that a chunk emits at its high watermark.
use gtc.Base.{
  ℕ, ◌≡◌, refl, ap, ◌∙◌, inl, inr, String, str_eq, eq_refl, Bool, true, false, not, Bool-cases,
  List, [], ◌∷◌, Option, none, some, any, keep, map,
}
use gtc.Base.Dict
use gtc.Base.Dict.{Dict}
use gtc.Backfill.State.{TableRef, Row, ChunkInFlight, Coordinator}
use gtc.Backfill.Controller.{
  observe_event, superseded, read_event, chunk_events, put_chunk, in_flight, marked,
  handle_watermark,
}
use gtc.Backfill.Controller.Observed.{get-put_self}
use gtc.Backfill.Chunks.{selected, take_selection}
use gtc.Backfill.Chunks.Window.{
  Act, observes, selects, act, run, rows_after, touched_by, KeysOf, put-KeysOf, Collects,
  run-Collects,
}

module _ (pk_of : TableRef → List String) where
  -- where the low watermark leaves the chunk
  low-Collects :
      (id : String) (ch : ChunkInFlight) (c : Coordinator)
      → any (str_eq id) c.inflight ≡ true
      → Dict.get id c.chunks ≡ some ch
      → ch.seen ≡ []
      → KeysOf pk_of c.chunks
      → Collects pk_of id ch.table
          (λ k. false)
          ch.pending
          (put_chunk id (record ch { collecting = true }) c)
  unfolding put_chunk
  low-Collects id ch c f g fresh u = record {
    ch = record ch { collecting = true };
    flying = f;
    held = get-put_self id _ c.chunks;
    table = refl;
    open_ = refl;
    pending = refl;
    seen = λ k. ap (any (str_eq k)) fresh;
    keys = put-KeysOf pk_of id ch _ c.chunks u g refl refl;
  }

  selected-cfg :
      (id : String) (rows : List Row) (cursor : List String) (found : Option ChunkInFlight)
      (c : Coordinator)
      → (selected id rows cursor found c).cfg ≡ c.cfg
  unfolding selected
  selected-cfg id rows cursor none c = refl
  selected-cfg id [] cursor (some ch) c = refl
  selected-cfg id (row ∷ rows) cursor (some ch) c = refl

  run-cfg : (as' : List Act) (c : Coordinator) → (run as' c).cfg ≡ c.cfg
  unfolding run act observe_event take_selection
  run-cfg [] c = refl
  run-cfg (observes e ∷ as') c = run-cfg as' (observe_event e c)
  run-cfg (selects id row rows cursor ∷ as') c =
      run-cfg as' (take_selection id (row ∷ rows) cursor c)
      ∙ selected-cfg id (row ∷ rows) cursor (Dict.get id c.chunks) c

  in_flight-parts :
      (id : String) (ch : ChunkInFlight) (c : Coordinator)
      → in_flight id c ≡ some ch
      → (any (str_eq id) c.inflight ≡ true) × (Dict.get id c.chunks ≡ some ch)
  unfolding in_flight
  in_flight-parts id ch c h = elim (Bool-cases (any (str_eq id) c.inflight)) [
    | inl here ↦ (here, rw (here) at h)
    | inr absent ↦ absurd (cc (rw (absent) at h))
  ]

  Collects-in_flight :
      (id : String) (t : TableRef) (seen_by : String → Bool) (rows : List Row) (c : Coordinator)
      (q : Collects pk_of id t seen_by rows c)
      → in_flight id c ≡ some q.ch
  unfolding in_flight
  Collects-in_flight id t seen_by rows c q = rw (q.flying) q.held

  keep_ext :
      {A : Type 0} → (p q : A → Bool) (xs : List A) → ((x : A) → p x ≡ q x) → keep p xs ≡ keep q xs
  keep_ext p q [] f = refl
  keep_ext p q (x ∷ xs) f = rw (f x, keep_ext p q xs f) refl

  chunk_events-eq :
      (lsn : String) (now : ℕ) (id : String) (t : TableRef) (seen_by : String → Bool)
      (rows : List Row) (c : Coordinator) (q : Collects pk_of id t seen_by rows c)
      → chunk_events lsn now id q.ch
        ≡ map (read_event lsn now id t) (keep (λ row. not (seen_by row.key)) rows)
  unfolding chunk_events superseded
  chunk_events-eq lsn now id t seen_by rows c q =
      ap
        (λ u.
          map (read_event lsn now id u)
            (keep (λ row. not (any (str_eq row.key) q.ch.seen)) q.ch.pending))
        q.table
      ∙ ap
          (λ rs.
            map (read_event lsn now id t) (keep (λ row. not (any (str_eq row.key) q.ch.seen)) rs))
          q.pending
      ∙ ap (map (read_event lsn now id t)) (keep_ext _ _ rows (λ row. ap not (q.seen row.key)))

  -- A chunk that no event has reached yet is between its watermarks: the low one, then any events and any
  -- selections of rows, in any order, then the high one. The coordinator answers the high watermark with a read
  -- of exactly the rows last selected for the chunk, in their order, less those whose key is that of an event in
  -- between on the same table: of its new row, or of the old row for a delete, with all the key columns there. So
  -- an update that changes the key counts under the new one only, and an event without that row, such as a
  -- truncate, under none. Every chunk has the key columns of its table.
  pub window-events :
      (lsn₁ lsn₂ : String) (now₁ now₂ : ℕ) (id : String) (ch : ChunkInFlight) (c : Coordinator)
      (as' : List Act)
      → in_flight id c ≡ some ch
      → ch.seen ≡ []
      → KeysOf pk_of c.chunks
      → (let low =
            handle_watermark lsn₁ now₁
              (some (record { slot = c.cfg.slot_name; chunk = id; mark = "low" }))
              c in
          (handle_watermark lsn₂ now₂
            (some (record { slot = c.cfg.slot_name; chunk = id; mark = "high" }))
            (run as' low.0)).1)
        ≡ map (read_event lsn₂ now₂ id ch.table) (
            keep
              (λ row. not (any (touched_by (pk_of ch.table) ch.table row.key) as'))
              (rows_after id as' ch.pending))
  unfolding handle_watermark marked put_chunk
  window-events lsn₁ lsn₂ now₁ now₂ id ch c as' h fresh u =
      let (f, g) = in_flight-parts id ch c h in
      let q =
        run-Collects pk_of id ch.table (λ k. false) ch.pending _ as'
          (low-Collects id ch c f g fresh u) in
      rw
        (
          h,
          eq_refl c.cfg.slot_name,
          run-cfg as' (put_chunk id (record ch { collecting = true }) c),
          eq_refl c.cfg.slot_name,
          Collects-in_flight _ _ _ _ _ q,
        )
        (chunk_events-eq lsn₂ now₂ id ch.table _ _ _ q)
