-- ===== src/Wal/Stream/Flow.antt =====
-- wal/reader.go, streamLoop: what a list of units carries, and which positions it may confirm.
use gtc.Base.{
  ℕ, ◌+◌, ◌≤◌, ◌≡◌, refl, sym, ap, ◌∙◌, ◌⊎◌, inl, inr, List, [], ◌∷◌, ◌++◌, append_assoc, arith,
  length, length-append, In,
}
use gtc.Domain.Event.{CdcEvent}
use gtc.Wal.Stream.{Delivery}

-- The events that the units carry, in order.
abbrev pub flow : List Delivery → List CdcEvent
flow [] = []
flow (d ∷ ds) = d.events ++ flow ds

pub flow-append : (xs ys : List Delivery) → flow (xs ++ ys) ≡ flow xs ++ flow ys
flow-append [] ys = refl
flow-append (d ∷ ds) ys =
    ap (◌++◌ d.events) (flow-append ds ys) ∙ sym (append_assoc d.events (flow ds) (flow ys))

module _ (start : ℕ) (offered : List (ℕ × ℕ)) where
  -- Position `a` may be confirmed once `n` events are handled: replication started at or after it, or
  -- the decoder offered it after at most `n` events.
  abbrev pub Sound : ℕ → ℕ → Type 0
  Sound a n = (a ≤ start) ⊎ ((k : ℕ) × In (a, k) offered × (k ≤ n))

  -- The units after `p` events may each confirm their position when they are handled.
  abbrev pub Marks : ℕ → List Delivery → Type 0
  Marks p [] = Unit
  Marks p (d ∷ ds) = Sound d.ack (p + length d.events) × Marks (p + length d.events) ds

  pub Sound-mono : (a m n : ℕ) → m ≤ n → Sound a m → Sound a n
  Sound-mono a m n h (inl s) = inl s
  Sound-mono a m n h (inr (k, i, l)) = inr (k, i, omega arith)

  pub Sound-at : (a m n : ℕ) → m ≡ n → Sound a m → Sound a n
  Sound-at a m n h s = Sound-mono a m n (omega arith) s

  pub Marks-at : (m n : ℕ) (ds : List Delivery) → m ≡ n → Marks m ds → Marks n ds
  Marks-at m n ds h s = rw (← h) s

  pub Marks-append :
      (p : ℕ) (xs ys : List Delivery)
      → Marks p xs
      → Marks (p + length (flow xs)) ys
      → Marks p (xs ++ ys)
  Marks-append p [] ys f g = Marks-at (p + 0) p ys (omega arith) g
  Marks-append p (d ∷ ds) ys f g = (
    f.0,
    Marks-append (p + length d.events) ds ys f.1
        (Marks-at _ _ ys (omega (arith, length-append d.events (flow ds))) g),
  )

pub Sound-offer :
    (start : ℕ) (offered : List (ℕ × ℕ)) (o : ℕ × ℕ) (a n : ℕ)
    → Sound start offered a n
    → Sound start (o ∷ offered) a n
Sound-offer start offered o a n (inl s) = inl s
Sound-offer start offered o a n (inr (k, i, l)) = inr (k, inr i, l)

pub Marks-offer :
    (start : ℕ) (offered : List (ℕ × ℕ)) (o : ℕ × ℕ) (p : ℕ) (ds : List Delivery)
    → Marks start offered p ds
    → Marks start (o ∷ offered) p ds
Marks-offer start offered o p [] h = tt
Marks-offer start offered o p (d ∷ ds) h = (
  Sound-offer start offered o d.ack (p + length d.events) h.0,
  Marks-offer start offered o (p + length d.events) ds h.1,
)
