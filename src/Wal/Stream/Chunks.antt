-- ===== src/Wal/Stream/Chunks.antt =====
-- wal/reader.go, streamLoop: the units in which the rows of a backfill chunk are handed over.
use gtc.Base.{
  ℕ, zero, suc, ◌+◌, ◌-◌, ◌≤◌, ◌<◌, min, ◌≡◌, refl, sym, ap, ◌∙◌, inl, inr, List, [], ◌∷◌, ◌++◌,
  append-nil, arith, none, some, String, length, take, drop, take-drop, length-take, length-drop,
  take_all, drop-drop, Bool-cases, ◌==◌,
}
use gtc.Domain.Event.{CdcEvent}
use gtc.Wal.Stream.{Delivery, chunk_from, chunk_units}
use gtc.Wal.Stream.Flow.{flow, Marks}

-- Each unit holds at most `n` events and confirms nothing; the last one alone carries the watermark.
abbrev pub CarriesChunk : ℕ → String → List Delivery → Type 0
CarriesChunk n content [] = ⊥
CarriesChunk n content (d ∷ []) = (length d.events ≤ n) × (d.ack ≡ 0) × (d.watermark ≡ some content)
CarriesChunk n content (d ∷ e ∷ ds) =
    ((length d.events ≤ n) × (d.ack ≡ 0) × (d.watermark ≡ none)) × CarriesChunk n content (e ∷ ds)

CarriesChunk-cons :
    (n : ℕ) (content : String) (d : Delivery) (ds : List Delivery)
    → length d.events ≤ n
    → d.ack ≡ 0
    → d.watermark ≡ none
    → CarriesChunk n content ds
    → CarriesChunk n content (d ∷ ds)
CarriesChunk-cons n content d [] short a w c = absurd c
CarriesChunk-cons n content d (e ∷ ds) short a w c = ((short, a, w), c)

chunk_from_lem :
    (rounds n start : ℕ) (content : String) (rows : List CdcEvent)
    → 0 < n
    → start ≤ length rows
    → length rows - start < rounds
    → (flow (chunk_from rounds n start content rows) ≡ drop start rows)
      × CarriesChunk n content (chunk_from rounds n start content rows)
unfolding chunk_from
chunk_from_lem zero n start content rows pos inside fuel = absurd (omega arith)
chunk_from_lem (suc rounds) n start content rows pos inside fuel =
    elim (Bool-cases (min (start + n) (length rows) == length rows)) [
      | inl last ↦
          let stop : min (start + n) (length rows) ≡ length rows = ground arith in
          rw (last) (
            append-nil _
                ∙ ap (λ (k : ℕ). take (k - start) (drop start rows)) stop
                ∙ take_all (length rows - start) (drop start rows)
                    (omega (arith, length-drop start rows)),
            (
              omega (arith, length-take (min (start + n) (length rows) - start) (drop start rows)),
              refl,
              refl,
            ),
          )
      | inr more ↦
          let stop : min (start + n) (length rows) ≡ start + n = ground arith in
          let size : min (start + n) (length rows) - start ≡ n = omega (arith, stop) in
          let (rest, marked) =
            chunk_from_lem rounds n (start + n) content rows pos (omega arith) (omega arith) in
          rw (more, size)
            (
              ap (◌++◌ (take n (drop start rows))) rest
                  ∙ ap (◌++◌ (take n (drop start rows))) (sym (drop-drop n start rows))
                  ∙ take-drop n (drop start rows),
              CarriesChunk-cons n content _ _
                  (omega (
                    arith,
                    stop,
                    length-take (min (start + n) (length rows) - start) (drop start rows),
                  ))
                  refl refl marked,
            )
    ]

-- With a positive batch size, the rows of a chunk are handed over in order and without loss, in units of
-- at most that size,
-- and the watermark is on the last of them only, so that it is reported delivered behind every row.
pub chunk_units_lem :
    (n : ℕ) (content : String) (rows : List CdcEvent)
    → 0 < n
    → (flow (chunk_units n content rows) ≡ rows)
      × CarriesChunk n content (chunk_units n content rows)
unfolding chunk_units
chunk_units_lem n content rows pos =
    chunk_from_lem (suc (length rows)) n 0 content rows pos (omega arith) (omega arith)

-- Units that confirm nothing are sound wherever they stand.
pub CarriesChunk-Marks :
    (start : ℕ) (offered : List (ℕ × ℕ)) (p n : ℕ) (content : String) (ds : List Delivery)
    → CarriesChunk n content ds
    → Marks start offered p ds
CarriesChunk-Marks start offered p n content [] c = tt
CarriesChunk-Marks start offered p n content (d ∷ []) c = (inl (omega arith), tt)
CarriesChunk-Marks start offered p n content (d ∷ e ∷ ds) c = (
  inl (omega (arith, c.0.1)),
  CarriesChunk-Marks start offered (p + length d.events) n content (e ∷ ds) c.1,
)
