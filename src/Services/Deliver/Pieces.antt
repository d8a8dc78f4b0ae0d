-- ===== src/Services/Deliver/Pieces.antt =====
-- What `deliver` hands over, piece by piece.
use gtc.Base.{
  ℕ, zero, suc, ◌+◌, ◌-◌, ◌≤◌, ◌≡◌, refl, ◌∙◌, ap, List, [], ◌∷◌, Option, none, ltb, leb, min,
  length, take, drop, concat, arith, append-nil, Bool-cases, inl, inr, length-take, length-drop,
  take-drop, take-min, drop-drop, leb→le, ◌<◌, ltb→lt, slice,
}
use mathlib.Core.Path.{fun_ext}
use gtc.Base.Int.{ℤ, pos, negsuc}
use gtc.Domain.Errors.{Error}
use gtc.Domain.Event.{CdcEvent}
use gtc.Domain.Sink.{Sink, Ctx, if_ok, if_ok-pure, max_batch_events}
use gtc.Services.Deliver.{deliver_from, deliver_at, deliver}

-- Pieces that are handed over in order, stopping at the first failure.
pub process_each : {W : Type 0} → Sink W → Ctx → List (List CdcEvent) → W → W × Option Error
process_each s ctx [] w = (w, none)
process_each s ctx (p ∷ ps) w = if_ok (s.process ctx p w) (process_each s ctx ps)

-- No piece passes the limit, and each but the last has exactly that size.
abbrev Filled : ℕ → List (List CdcEvent) → Type 0
Filled n [] = Unit
Filled n (p ∷ []) = length p ≤ n
Filled n (p ∷ q ∷ ps) = (length p ≡ n) × Filled n (q ∷ ps)

-- The same for an int limit, where a limit of 0 or less asks for a single piece.
abbrev pub Fits : ℤ → List (List CdcEvent) → Type 0
Fits (pos zero) ps = length ps ≡ 1
Fits (pos (suc n)) ps = Filled (suc n) ps
Fits (negsuc n) ps = length ps ≡ 1

-- The pieces of the loop.
split : ℕ → ℕ → List CdcEvent → List (List CdcEvent)
split zero n es = []
split (suc rounds) n [] = []
split (suc rounds) n (e ∷ es) = take n (e ∷ es) ∷ split rounds n (drop n (e ∷ es))

split_step :
    (rounds n : ℕ) (es : List CdcEvent)
    → 0 < length es
    → split (suc rounds) n es ≡ take n es ∷ split rounds n (drop n es)
unfolding split
split_step rounds n [] h = absurd (omega arith)
split_step rounds n (e ∷ es) h = refl

split_done : (rounds n : ℕ) (es : List CdcEvent) → length es ≤ 0 → split rounds n es ≡ []
unfolding split
split_done zero n es h = refl
split_done (suc rounds) n [] h = refl
split_done (suc rounds) n (e ∷ es) h = absurd (omega arith)

concat-split :
    (rounds n : ℕ) (es : List CdcEvent) → length es ≤ rounds → concat (split rounds (suc n) es) ≡ es
unfolding split
concat-split zero n [] h = refl
concat-split zero n (e ∷ es) h = absurd (omega arith)
concat-split (suc rounds) n [] h = refl
concat-split (suc rounds) n (e ∷ es) h =
    let rest : length (drop n es) ≤ rounds = omega (arith, length-drop n es) in
    rw (concat-split rounds n (drop n es) rest) (ap (◌∷◌ e) (take-drop n es))

-- A piece in front of the pieces of what follows it.
Filled-cons :
    (rounds n : ℕ) (p rest : List CdcEvent)
    → length p ≤ n
    → (0 < length rest → length p ≡ n)
    → Filled n (split rounds n rest)
    → Filled n (p ∷ split rounds n rest)
unfolding split
Filled-cons zero n p rest short full f = short
Filled-cons (suc rounds) n p [] short full f = short
Filled-cons (suc rounds) n p (x ∷ rest) short full f = (full (omega arith), f)

split-Filled : (rounds n : ℕ) (es : List CdcEvent) → Filled n (split rounds n es)
unfolding split
split-Filled zero n es = tt
split-Filled (suc rounds) n [] = tt
split-Filled (suc rounds) n (e ∷ es) =
    Filled-cons rounds n (take n (e ∷ es)) (drop n (e ∷ es)) (omega (arith, length-take n (e ∷ es)))
      (λ more. omega (arith, length-take n (e ∷ es), length-drop n (e ∷ es)))
      (split-Filled rounds n (drop n (e ∷ es)))

slice-eq-take :
    (start n : ℕ) (es : List CdcEvent)
    → slice start (min (start + n) (length es)) es ≡ take n (drop start es)
slice-eq-take start n es = ap (λ (k : ℕ). take k (drop start es)) bound ∙ take-min n (drop start es)
  where
    bound : min (start + n) (length es) - start ≡ min n (length (drop start es))
    bound = omega (arith, length-drop start es)

deliver_from-split :
    {W : Type 0} (s : Sink W) (ctx : Ctx) (rounds n start : ℕ) (es : List CdcEvent) (w : W)
    → deliver_from s ctx rounds n start es w ≡ process_each s ctx (split rounds n (drop start es)) w
unfolding deliver_from process_each split
deliver_from-split s ctx zero n start es w = refl
deliver_from-split s ctx (suc rounds) n start es w = elim (Bool-cases (ltb start (length es))) [
  | inl more ↦
      let e : 0 < length (drop start es) = omega (arith, ltb→lt _ _ more, length-drop start es) in
      rw (more, split_step rounds n _ e, slice-eq-take start n es)
        (ap (if_ok (s.process ctx (take n (drop start es)) w))
          (fun_ext λ v. rw drop-drop (deliver_from-split s ctx rounds n (start + n) es v)))
  | inr done ↦
      let e : length (drop start es) ≤ 0 = ground (arith, length-drop start es) in
      rw (done, split_done (suc rounds) n _ e)
]

deliver_at_pieces :
    {W : Type 0} (s : Sink W) (ctx : Ctx) (limit : ℤ) (es : List CdcEvent) (w : W)
    → (ps : List (List CdcEvent)) × (concat ps ≡ es)
      × Fits limit ps
      × (deliver_at s ctx limit es w ≡ process_each s ctx ps w)
unfolding deliver_at process_each
deliver_at_pieces s ctx (pos zero) es w = (es ∷ [], append-nil es, omega arith, if_ok-pure _)
deliver_at_pieces s ctx (pos (suc n)) es w = elim (Bool-cases (leb (length es) (suc n))) [
  | inl small ↦ rw small (es ∷ [], append-nil es, leb→le _ _ small, if_ok-pure _)
  | inr large ↦ rw large (
    split (length es) (suc n) es,
    concat-split (length es) n es (omega arith),
    split-Filled (length es) (suc n) es,
    deliver_from-split s ctx (length es) (suc n) 0 es w,
  )
]
deliver_at_pieces s ctx (negsuc n) es w = (es ∷ [], append-nil es, omega arith, if_ok-pure _)

-- Whatever the sink's limit, `deliver` hands over consecutive pieces that together are the batch,
-- none above the limit and each but the last of exactly that size (one piece where the limit is not
-- positive), and stops at the first piece that fails.
pub deliver_pieces :
    {W : Type 0} (s : Sink W) (ctx : Ctx) (es : List CdcEvent) (w : W)
    → (ps : List (List CdcEvent)) × (concat ps ≡ es)
      × Fits (max_batch_events s) ps
      × (deliver s ctx es w ≡ process_each s ctx ps w)
unfolding deliver
deliver_pieces s ctx es w = deliver_at_pieces s ctx (max_batch_events s) es w
