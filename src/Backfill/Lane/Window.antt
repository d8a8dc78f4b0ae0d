-- ===== src/Backfill/Lane/Window.antt =====
-- backfillTable of backfill/coordinator.go: the window of the loop, whatever the selects find.
use gtc.Base.{
  ℕ, String, ◌<◌, ◌≤◌, ◌≡◌, ◌≢◌, refl, sym, ap, subst, ◌∙◌, inl, inr, Bool, true, false, Bool-cases,
  List, [], ◌∷◌, ◌++◌, none, some, length, length-append, arith,
}
use gtc.Domain.Sink.{Ctx}
use gtc.Backfill.State.{TableRef, Chunk, Db, Config, Coordinator, pipeline_depth}
use gtc.Backfill.Lane.{
  LoopEnd, panicked, Windowed, Loop, short, stop, add_chunk, restart_window, save, finished,
  advanced, head_done, begin_loop, Full, Step, fills, fails, out_of_range, cancels, restarts,
  completes, interferes, Reach, begins, next_step,
}

-- Only the last chunk can be short, and it is when the table is exhausted.
abbrev pub Tail : Config → Bool → List Windowed → Type 0
Tail cfg false [] = Unit
Tail cfg true [] = ⊥
Tail cfg false (x ∷ xs) = (short cfg x.chunk ≡ false) × Tail cfg false xs
Tail cfg true (x ∷ []) = short cfg x.chunk ≡ true
Tail cfg true (x ∷ y ∷ xs) = (short cfg x.chunk ≡ false) × Tail cfg true (y ∷ xs)

Tail-full :
    (cfg : Config) (x : Windowed) (xs : List Windowed)
    → Tail cfg false xs
    → short cfg x.chunk ≡ false
    → Tail cfg false (xs ++ (x ∷ []))
Tail-full cfg x [] h n = (n, tt)
Tail-full cfg x (y ∷ ys) h n = (h.0, Tail-full cfg x ys h.1 n)

Tail-last :
    (cfg : Config) (x : Windowed) (xs : List Windowed)
    → Tail cfg false xs
    → short cfg x.chunk ≡ true
    → Tail cfg true (xs ++ (x ∷ []))
Tail-last cfg x [] h s = s
Tail-last cfg x (y ∷ []) h s = (h.0, s)
Tail-last cfg x (y ∷ z ∷ zs) h s = (h.0, Tail-last cfg x (z ∷ zs) h.1 s)

Tail-rest :
    (cfg : Config) (e : Bool) (x : Windowed) (xs : List Windowed)
    → Tail cfg e (x ∷ xs)
    → short cfg x.chunk ≡ false
    → Tail cfg e xs
Tail-rest cfg false x xs h n = h.1
Tail-rest cfg true x [] h n = absurd (cc (sym h ∙ n))
Tail-rest cfg true x (y ∷ ys) h n = h.1

Tail-none : (cfg : Config) (e : Bool) → Tail cfg e [] → e ≡ false
Tail-none cfg false h = refl
Tail-none cfg true h = absurd h

pub record Kept {W : Type 0} (cfg : Config) (s : Loop W) : Type 0 where
  pub same : s.c.cfg ≡ cfg
  pub within : length s.window ≤ pipeline_depth
  pub sound : s.ended ≢ some panicked
  pub tail : s.ended ≡ none → Tail cfg s.exhausted s.window

module _ {W : Type 0} (t : TableRef) (db : Db W) (ctx : Ctx) (now : ℕ) (cfg : Config) where
  some_none : {o : LoopEnd} {P : Type 0} → some o ≡ none → P
  some_none h = absurd (cc h)

  add_chunk-Kept :
      (x : Windowed) (s : Loop W)
      → s.ended ≡ none
      → s.exhausted ≡ false
      → length s.window < pipeline_depth
      → Kept cfg s
      → Kept cfg (add_chunk t x s)
  unfolding add_chunk
  add_chunk-Kept x s run more room k =
      let full = subst (λ b. Tail cfg b s.window) more (k.tail run) in
      elim (Bool-cases (short cfg x.chunk)) [
        | inl last ↦ record {
          same = k.same;
          within = omega (arith, length-append s.window (x ∷ []));
          sound = k.sound;
          tail = λ h. rw (k.same, last) (Tail-last cfg x s.window full last);
        }
        | inr longer ↦ record {
          same = k.same;
          within = omega (arith, length-append s.window (x ∷ []));
          sound = k.sound;
          tail = λ h. rw (k.same, longer, more) (Tail-full cfg x s.window full longer);
        }
      ]

  head_done-Kept :
      (head : Windowed) (rest : List Windowed) (delivered : ℕ) (s : Loop W)
      → s.ended ≡ none
      → s.window ≡ head ∷ rest
      → Kept cfg s
      → Kept cfg (head_done t db ctx now head rest delivered s)
  unfolding head_done finished advanced save stop
  head_done-Kept head rest delivered s run w k = elim (Bool-cases (short cfg head.chunk)) [
    | inl last ↦ rw (ap (λ c. short c head.chunk) k.same ∙ last) (record {
      same = k.same;
      within = omega (arith, k.within, ap length w);
      sound = λ h. cc h;
      tail = some_none;
    })
    | inr more ↦ rw (ap (λ c. short c head.chunk) k.same ∙ more) (record {
      same = k.same;
      within = omega (arith, k.within, ap length w);
      sound = k.sound;
      tail = λ h.
          Tail-rest cfg s.exhausted head rest (subst (Tail cfg s.exhausted) w (k.tail run)) more;
    })
  ]

  Full-empty : (s : Loop W) → Full t db ctx now s → s.window ≡ [] → s.exhausted ≡ true
  Full-empty s (inl e) w = e
  Full-empty s (inr f) w = absurd (cc (rw (w) at f))

  Step-Kept :
      (finds : List String → Chunk → Type 0) {s r : Loop W}
      → Step t db ctx now finds s r
      → Kept cfg s
      → Kept cfg r
  unfolding stop restart_window
  Step-Kept finds (fills s x run more room f) k = add_chunk-Kept x s run more room k
  Step-Kept finds (fails s e run more room) k = record {
    same = k.same;
    within = k.within;
    sound = λ h. cc h;
    tail = some_none;
  }
  Step-Kept finds (out_of_range s run full w) k = absurd (
      cc (
        sym (Full-empty s full w)
        ∙ Tail-none cfg s.exhausted (subst (Tail cfg s.exhausted) w (k.tail run))))
  Step-Kept finds (cancels s e run) k = record {
    same = k.same;
    within = k.within;
    sound = λ h. cc h;
    tail = some_none;
  }
  Step-Kept finds (restarts s head rest run full w) k = record {
    same = k.same;
    within = omega arith;
    sound = k.sound;
    tail = λ h. tt;
  }
  Step-Kept finds (completes s head rest delivered run full w) k =
      head_done-Kept head rest delivered s run w k
  Step-Kept finds (interferes s c w h) k = record {
    same = h ∙ k.same;
    within = k.within;
    sound = k.sound;
    tail = k.tail;
  }

  begin_loop-Kept : (c : Coordinator) (w : W) → c.cfg ≡ cfg → Kept cfg (begin_loop t db ctx now c w)
  unfolding begin_loop
  begin_loop-Kept c w h = record {
    same = h;
    within = omega arith;
    sound = λ p. cc p;
    tail = λ p. tt;
  }

  -- Whatever the selects find, in every state of the loop of backfillTable the window holds at most the depth of
  -- the pipeline, and the loop never takes the head of an empty window.
  pub Reach-Kept :
      (finds : List String → Chunk → Type 0) (c : Coordinator) (w : W) (s : Loop W)
      → c.cfg ≡ cfg
      → Reach t db ctx now finds (begin_loop t db ctx now c w) s
      → Kept cfg s
  Reach-Kept finds c w s h begins = begin_loop-Kept c w h
  Reach-Kept finds c w s h (next_step {s = r} reach step) =
      Step-Kept finds step (Reach-Kept finds c w r h reach)
