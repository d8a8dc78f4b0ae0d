-- ===== src/Backfill/Lane/Pages.antt =====
-- backfillTable of backfill/coordinator.go: a table that does not change is read as a whole, page by page.
use gtc.Base.{
  ℕ, ◌≤◌, ◌≡◌, refl, sym, ap, subst, ◌∙◌, inl, inr, String, true, false, Bool-cases, List, [], ◌∷◌,
  ◌++◌, Option, none, some, length, length-take, take, drop, take_all, take-drop, append_assoc,
  arith,
}
use gtc.Domain.Errors.{Error}
use gtc.Domain.Sink.{Ctx}
use gtc.Backfill.State.{TableRef, Row, Chunk, Db, Config, Coordinator}
use gtc.Backfill.Lane.{
  LoopEnd, returned, Windowed, Loop, short, stop, add_chunk, restart_window, save, finished,
  advanced, head_done, begin_loop, Step, fills, fails, out_of_range, cancels, restarts, completes,
  interferes, Reach, begins, next_step,
}

-- The select of a page: the first rows past the cursor in the order of the key, and the key of the last of them.
pub record Paged (n : ℕ) (rows_from : List String → List Row) (page : List String → Chunk)
    : Type 0 where
  pub first_rows : (cur : List String) → (page cur).rows ≡ take n (rows_from cur)
  pub rest_rows :
      (cur : List String)
      → n ≤ length (rows_from cur)
      → rows_from (page cur).last_cursor ≡ drop n (rows_from cur)

-- The window is made of consecutive pages.
abbrev pub Linked : (List String → Chunk) → List String → List Windowed → List String → Type 0
Linked page cur [] next = cur ≡ next
Linked page cur (x ∷ xs) next = (x.chunk ≡ page cur) × Linked page x.chunk.last_cursor xs next

Linked-snoc :
    (page : List String → Chunk) (cur next : List String) (x : Windowed) (xs : List Windowed)
    → Linked page cur xs next
    → x.chunk ≡ page next
    → Linked page cur (xs ++ (x ∷ [])) x.chunk.last_cursor
Linked-snoc page cur next x [] h p = (p ∙ ap page (sym h), refl)
Linked-snoc page cur next x (y ∷ ys) h p =
    (h.0, Linked-snoc page y.chunk.last_cursor next x ys h.1 p)

module _ (cfg : Config) (rows_from : List String → List Row) (page : List String → Chunk)
    (paged : Paged cfg.chunk_size rows_from page) where
  page_rows :
      (cur : List String) (ch : Chunk)
      → ch ≡ page cur
      → short cfg ch ≡ false
      → ch.rows ++ rows_from ch.last_cursor ≡ rows_from cur
  page_rows cur ch h n =
      let rows : ch.rows ≡ take cfg.chunk_size (rows_from cur) =
        ap (λ (c : Chunk). c.rows) h ∙ paged.first_rows cur in
      let long : cfg.chunk_size ≤ length (rows_from cur) =
        ground (arith, length-take cfg.chunk_size (rows_from cur), ap length rows) in
      ap (λ rs. rs ++ rows_from ch.last_cursor) rows
      ∙ ap (λ rs. take cfg.chunk_size (rows_from cur) ++ rs)
          (ap (λ (c : Chunk). rows_from c.last_cursor) h ∙ paged.rest_rows cur long)
      ∙ take-drop cfg.chunk_size (rows_from cur)

  last_rows :
      (cur : List String) (ch : Chunk)
      → ch ≡ page cur
      → short cfg ch ≡ true
      → ch.rows ≡ rows_from cur
  last_rows cur ch h s =
      let rows : ch.rows ≡ take cfg.chunk_size (rows_from cur) =
        ap (λ (c : Chunk). c.rows) h ∙ paged.first_rows cur in
      rows
      ∙ take_all cfg.chunk_size (rows_from cur)
          (ground (arith, length-take cfg.chunk_size (rows_from cur), ap length rows))

  -- where the loop stands, when `all` is what it has to read
  record Reads {W : Type 0} (all : List Row) (s : Loop W) : Type 0 where
    same : s.c.cfg ≡ cfg
    linked : s.ended ≡ none → Linked page s.cursor s.window s.next
    left : s.ended ≡ none → s.sent ++ rows_from s.cursor ≡ all
    whole : s.ended ≡ some (returned none) → s.sent ≡ all

  abbrev pub Finds : List String → Chunk → Type 0
  Finds cur ch = ch ≡ page cur

  module _ {W : Type 0} (t : TableRef) (db : Db W) (ctx : Ctx) (now : ℕ) (all : List Row) where
    returned_error : {e : Error} {P : Type 0} → some (returned (some e)) ≡ some (returned none) → P
    returned_error h = absurd (cc h)

    running_not_whole : {o : Option LoopEnd} {P : Type 0} → o ≡ none → o ≡ some (returned none) → P
    running_not_whole h g = absurd (cc (sym h ∙ g))

    stopped-Reads : (e : Error) (s : Loop W) → Reads all s → Reads all (stop t (some e) s)
    unfolding stop
    stopped-Reads e s k = record {
      same = k.same;
      linked = λ h. absurd (cc h);
      left = λ h. absurd (cc h);
      whole = returned_error;
    }

    head_done-Reads :
        (head : Windowed) (rest : List Windowed) (delivered : ℕ) (s : Loop W)
        → s.ended ≡ none
        → s.window ≡ head ∷ rest
        → Reads all s
        → Reads all (head_done t db ctx now head rest delivered s)
    unfolding head_done finished advanced save stop
    head_done-Reads head rest delivered s run w k =
        let (page_at, linked) = subst (λ ws. Linked page s.cursor ws s.next) w (k.linked run) in
        elim (Bool-cases (short cfg head.chunk)) [
          | inl last ↦ rw (ap (λ c. short c head.chunk) k.same ∙ last) (record {
            same = k.same;
            linked = λ h. absurd (cc h);
            left = λ h. absurd (cc h);
            whole = λ h.
                ap (λ rs. s.sent ++ rs) (last_rows s.cursor head.chunk page_at last) ∙ k.left run;
          })
          | inr more ↦ rw (ap (λ c. short c head.chunk) k.same ∙ more) (record {
            same = k.same;
            linked = λ h. linked;
            left = λ h.
                append_assoc s.sent head.chunk.rows (rows_from head.chunk.last_cursor)
                ∙ ap (λ rs. s.sent ++ rs) (page_rows s.cursor head.chunk page_at more)
                ∙ k.left run;
            whole = running_not_whole run;
          })
        ]

    Step-Reads : {s r : Loop W} → Step t db ctx now Finds s r → Reads all s → Reads all r
    unfolding add_chunk restart_window
    Step-Reads (fills s x run more room f) k = record {
      same = k.same;
      linked = λ h. Linked-snoc page s.cursor s.next x s.window (k.linked run) f;
      left = k.left;
      whole = k.whole;
    }
    Step-Reads (fails s e run more room) k = stopped-Reads e s k
    Step-Reads (out_of_range s run full w) k = record {
      same = k.same;
      linked = λ h. absurd (cc h);
      left = λ h. absurd (cc h);
      whole = λ h. absurd (cc h);
    }
    Step-Reads (cancels s e run) k = stopped-Reads e s k
    Step-Reads (restarts s head rest run full w) k = record {
      same = k.same;
      linked = λ h. refl;
      left = k.left;
      whole = k.whole;
    }
    Step-Reads (completes s head rest delivered run full w) k =
        head_done-Reads head rest delivered s run w k
    Step-Reads (interferes s c w h) k = record {
      same = h ∙ k.same;
      linked = k.linked;
      left = k.left;
      whole = k.whole;
    }

  begin_loop-Reads :
      {W : Type 0} (t : TableRef) (db : Db W) (ctx : Ctx) (now : ℕ) (c : Coordinator) (w : W)
      → c.cfg ≡ cfg
      → Reads (rows_from (begin_loop t db ctx now c w).cursor) (begin_loop t db ctx now c w)
  unfolding begin_loop
  begin_loop-Reads t db ctx now c w h = record {
    same = h;
    linked = λ p. refl;
    left = λ p. refl;
    whole = λ p. absurd (cc p);
  }

  Reach-Reads :
      {W : Type 0} (t : TableRef) (db : Db W) (ctx : Ctx) (now : ℕ) (c : Coordinator) (w : W)
      (s : Loop W)
      → c.cfg ≡ cfg
      → Reach t db ctx now Finds (begin_loop t db ctx now c w) s
      → Reads (rows_from (begin_loop t db ctx now c w).cursor) s
  Reach-Reads t db ctx now c w s h begins = begin_loop-Reads t db ctx now c w h
  Reach-Reads t db ctx now c w s h (next_step {s = r} reach step) =
      Step-Reads t db ctx now _ step (Reach-Reads t db ctx now c w r h reach)

  -- On a table whose rows do not change, with selects that answer the page past their cursor: as long as the loop
  -- of backfillTable runs, the rows of the chunks that it saw delivered and those past its cursor are together the
  -- rows past the cursor that it began with, in order; and when it returns no error, it has seen all of these
  -- delivered, each once, whatever restarts and interferences there were.
  pub loop-reads_all :
      {W : Type 0} (t : TableRef) (db : Db W) (ctx : Ctx) (now : ℕ) (c : Coordinator) (w : W)
      (s : Loop W)
      → c.cfg ≡ cfg
      → Reach t db ctx now Finds (begin_loop t db ctx now c w) s
      → (s.ended ≡ none
          → s.sent ++ rows_from s.cursor ≡ rows_from (begin_loop t db ctx now c w).cursor)
        × (s.ended ≡ some (returned none) → s.sent ≡ rows_from (begin_loop t db ctx now c w).cursor)
  loop-reads_all t db ctx now c w s h reach =
      let k = Reach-Reads t db ctx now c w s h reach in (k.left, k.whole)
