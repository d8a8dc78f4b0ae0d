-- ===== src/Schema/Recorder.antt =====
-- schema/recorder.go: the history of the schema changes.
use gtc.Base.{
  ℕ, zero, suc, ◌+◌, ◌-◌, ◌<◌, ◌≡◌, refl, sym, ap, ◌∙◌, List, [], ◌∷◌, ◌++◌, append_assoc,
  append-nil, map, Option, none, some, length, drop, trim, last, trim-append, arith,
}
use mathlib.Core.List.{map-append}
use gtc.Domain.Schema.{SchemaChange}

abbrev pub history_capacity : ℕ
history_capacity = 200

-- OnSchemaChange, on the history
unfoldable pub on_schema_change : SchemaChange → List SchemaChange → List SchemaChange
on_schema_change change history = trim history_capacity (history ++ (change ∷ []))

unfoldable pub record_each : List SchemaChange → List SchemaChange → List SchemaChange
unfolding on_schema_change
record_each [] history = history
record_each (change ∷ changes) history = record_each changes (on_schema_change change history)

-- out[i] = x
unfoldable pub set_at : {A : Type 0} → ℕ → A → List A → List A
set_at i x [] = []
set_at zero x (y ∷ ys) = x ∷ ys
set_at (suc i) x (y ∷ ys) = y ∷ set_at i x ys

-- make([]domain.SchemaChange, n), where none is the zero value
unfoldable pub zeros : {A : Type 0} → ℕ → List (Option A)
zeros zero = []
zeros (suc n) = none ∷ zeros n

-- the loop of History from the index i, on a history of n changes
unfoldable pub fill_from : {A : Type 0} → ℕ → ℕ → List A → List (Option A) → List (Option A)
unfolding set_at
fill_from n i [] out = out
fill_from n i (x ∷ xs) out = fill_from n (suc i) xs (set_at (n - 1 - i) (some x) out)

-- History
unfoldable pub newest_first : List SchemaChange → List (Option SchemaChange)
unfolding fill_from zeros
newest_first history = fill_from (length history) 0 history (zeros (length history))

record-last :
    (changes before : List SchemaChange)
    → record_each changes (last history_capacity before) ≡ last history_capacity (before ++ changes)
unfolding record_each on_schema_change
record-last [] before = ap (last history_capacity) (sym (append-nil before))
record-last (change ∷ changes) before =
    ap (record_each changes) (trim-append history_capacity before change)
    ∙ record-last changes (before ++ (change ∷ []))
    ∙ ap (last history_capacity) (append_assoc before (change ∷ []) changes)

abbrev pub reversed : {A : Type 0} → List A → List A
reversed [] = []
reversed (x ∷ xs) = reversed xs ++ (x ∷ [])

length-zeros : (A : Type 0) (n : ℕ) → length (zeros {A = A} n) ≡ n
unfolding zeros
length-zeros A zero = refl
length-zeros A (suc n) = omega (arith, length-zeros A n)

drop-zeros : (A : Type 0) (n : ℕ) → drop n (zeros {A = A} n) ≡ []
unfolding zeros
drop-zeros A zero = refl
drop-zeros A (suc n) = drop-zeros A n

module _ {A : Type 0} where
  length-set_at : (i : ℕ) (x : A) (xs : List A) → length (set_at i x xs) ≡ length xs
  unfolding set_at
  length-set_at i x [] = refl
  length-set_at zero x (y ∷ ys) = refl
  length-set_at (suc i) x (y ∷ ys) = omega (arith, length-set_at i x ys)

  drop-set_at :
      (i : ℕ) (x : A) (xs : List A) → i < length xs → drop i (set_at i x xs) ≡ x ∷ drop (suc i) xs
  unfolding set_at
  drop-set_at i x [] h = absurd (omega arith)
  drop-set_at zero x (y ∷ ys) h = refl
  drop-set_at (suc i) x (y ∷ ys) h = drop-set_at i x ys (omega arith)

module _ {A : Type 0} where
  fill_from-reversed :
      (n i : ℕ) (xs : List A) (out : List (Option A))
      → i + length xs ≡ n
      → length out ≡ n
      → fill_from n i xs out ≡ map some (reversed xs) ++ drop (length xs) out
  unfolding fill_from
  fill_from-reversed n i [] out h l = refl
  fill_from-reversed n i (x ∷ xs) out h l =
      let at : n - 1 - i ≡ length xs = omega arith in
      ap (λ (k : ℕ). fill_from n (suc i) xs (set_at k (some x) out)) at
      ∙ fill_from-reversed n (suc i) xs (set_at (length xs) (some x) out) (omega arith)
          (omega (arith, length-set_at (length xs) (some x) out))
      ∙ ap (λ rest. map some (reversed xs) ++ rest)
          (drop-set_at (length xs) (some x) out (omega arith))
      ∙ sym (append_assoc (map some (reversed xs)) (some x ∷ []) (drop (suc (length xs)) out))
      ∙ ap (λ front. front ++ drop (suc (length xs)) out)
          (sym (map-append some (reversed xs) (x ∷ [])))

-- After any schema changes, History returns the last 200 of them, or all, newest first, and every slot of its
-- result is filled.
pub newest_first-reversed :
    (changes : List SchemaChange)
    → newest_first (record_each changes []) ≡ map some (reversed (last history_capacity changes))
unfolding newest_first
newest_first-reversed changes =
    let kept = last history_capacity changes in
    ap newest_first (record-last changes [])
    ∙ fill_from-reversed (length kept) 0 kept (zeros (length kept)) (omega arith)
        (length-zeros SchemaChange (length kept))
    ∙ ap (λ rest. map some (reversed kept) ++ rest) (drop-zeros SchemaChange (length kept))
    ∙ append-nil (map some (reversed kept))
