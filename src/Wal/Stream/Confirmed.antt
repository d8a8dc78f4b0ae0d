-- ===== src/Wal/Stream/Confirmed.antt =====
-- wal/reader.go, streamLoop: at-least-once delivery. Whatever the interleaving of the two goroutines,
-- a position is sent to the server only when every event before it was accepted by the handler.
mod Steps
pub mod AtLeastOnce
use gtc.Base.{
  ℕ, zero, suc, ◌+◌, ◌-◌, ◌≤◌, ◌<◌, ◌≡◌, refl, sym, subst, ap, ◌∙◌, ◌⊎◌, inl, inr, List, [], ◌∷◌,
  ◌++◌, append_assoc, append-nil, arith, Option, none, some, Bool, true, false, ◌&&◌, length,
  length-append, In, take, take-append, Bool-cases, leb, ltb, ◌==◌,
}
use gtc.Domain.Event.{CdcEvent}
use gtc.Wal.Decoder.{DecodeResult}
use gtc.Wal.Stream.{
  Delivery, Config, Open, State, Worker, idle, busy, settling, stopped, init, confirm, confirm_idle,
  receives_at, ticks_at, delivered, Step, Reach, receives, ticks, counts, sends, keepalive, exits,
  drops, takes, delivers, fails, begins, next, receive, rows_of, flush,
}
use gtc.Wal.Stream.Flow.{
  flow, flow-append, Sound, Marks, Sound-mono, Sound-at, Marks-at, Marks-append, Sound-offer,
  Marks-offer,
}
use gtc.Wal.Stream.Batching.{Batches, receive-Batches, flush-Batches}

abbrev pub in_hand : Worker → List Delivery
in_hand idle = []
in_hand (busy d) = d ∷ []
in_hand (settling d) = []
in_hand (stopped d) = d ∷ []

-- The units that are not yet accepted, in the order in which they are handed over.
abbrev pub pipeline : State → List Delivery
pipeline s = (in_hand s.worker ++ s.queue) ++ s.outbox

-- the unit that the delivery goroutine has taken and not subtracted yet
abbrev pub held_by : Worker → ℕ
held_by idle = 0
held_by (busy d) = 1
held_by (settling d) = 1
held_by (stopped d) = 1

-- the unit that enqueue has counted and not sent yet
abbrev pub counted_ahead : Bool → ℕ
counted_ahead false = 0
counted_ahead true = 1

-- While the loop runs: nothing received is lost or reordered, and each position that is waiting to be
-- confirmed is covered by the events in front of it.
pub record Live (start : ℕ) (s : State) : Type 0 where
  pub order : s.received ≡ s.handled ++ (flow (pipeline s) ++ s.vars.batch)
  pub marks : Marks start s.offered (length s.handled) (pipeline s)
  pub pending : Sound start s.offered s.vars.pending_ack (length s.received)
  pub client : Sound start s.offered s.client_lsn (length s.handled)
  pub counted : s.outstanding ≡ held_by s.worker + length s.queue + counted_ahead s.waiting
  pub held : s.outbox ≡ [] → s.waiting ≡ false

-- The position is covered: replication started at or after it, or the decoder offered it after `k`
-- events, and the handler has accepted these as its first `k` events.
abbrev pub Covered : ℕ → State → ℕ → Type 0
Covered start s a =
    (a ≤ start)
    ⊎ ((k : ℕ) × In (a, k) s.offered
        × (k ≤ length s.handled)
        × (k ≤ length s.received)
        × (take k s.received ≡ take k s.handled))

pub record Inv (start : ℕ) (s : State) : Type 0 where
  pub live : s.exited ≡ false → Live start s
  pub reported : Covered start s s.reported

-- A sound client position is covered.
pub Covered-client : (start : ℕ) (s : State) → Live start s → Covered start s s.client_lsn
Covered-client start s l = elim l.client [
  | inl h ↦ inl h
  | inr (k, i, le) ↦ inr (
    k,
    i,
    le,
    omega (arith, ap length l.order, length-append s.handled (flow (pipeline s) ++ s.vars.batch)),
    ap (take k) l.order ∙ take-append k s.handled (flow (pipeline s) ++ s.vars.batch) le,
  )
]

-- What was covered stays covered when more is received, offered or handled.
pub Covered-grows :
    (start a : ℕ) (s t : State) (rs hs : List CdcEvent) (os : List (ℕ × ℕ))
    → t.received ≡ s.received ++ rs
    → t.handled ≡ s.handled ++ hs
    → ((x : ℕ × ℕ) → In x s.offered → In x t.offered)
    → Covered start s a
    → Covered start t a
Covered-grows start a s t rs hs os er eh more (inl h) = inl h
Covered-grows start a s t rs hs os er eh more (inr (k, i, lh, lr, e)) = inr (
  k,
  more (a, k) i,
  omega (arith, ap length eh, length-append s.handled hs),
  omega (arith, ap length er, length-append s.received rs),
  ap (take k) er
      ∙ take-append k s.received rs lr
      ∙ e
      ∙ sym (take-append k s.handled hs lh)
      ∙ sym (ap (take k) eh),
)
