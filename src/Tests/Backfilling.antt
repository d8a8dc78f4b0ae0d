-- ===== src/Tests/Backfilling.antt =====
-- The backfill coordinator on concrete tables.
use gtc.Base.{
  ℕ, suc, ◌≤◌, ◌≡◌, refl, String, str_eq, Bool, true, false, List, [], ◌∷◌, ◌++◌, Option, none,
  some, take, drop, length, arith, inl, if◌then◌else◌,
}
use gtc.Base.Int.{pos}
use gtc.Base.Dict
use gtc.Domain.Event.{CdcEvent, update, delete, str}
use gtc.Domain.Sink.{root}
use gtc.Dlq.Store.{got}
use gtc.Backfill.State.{
  TableRef, name_of, Row, Chunk, TableState, Db, Config, ChunkInFlight, Coordinator,
  new_coordinator,
}
use gtc.Backfill.Controller.{handle_watermark, read_event, in_flight, observed_key}
use gtc.Backfill.Controller.Touched.{touches}
use gtc.Backfill.Chunks.Window.{Act, observes, selects, run, rows_after}
use gtc.Backfill.Chunks.Emission.{window-events}
use gtc.Backfill.Queue.{
  busy_locked, enqueue_locked, enqueue_table, enqueue_all, replay_all, is_excluded, wanted,
}
use gtc.Backfill.Queue.Exclusive.{Exclusive, manager-Exclusive}
use gtc.Backfill.Queue.Lanes.{Pool, looks, enqueues, initial, Reach, begins, next, looking}
use gtc.Backfill.Queue.Wakeup.{Soon, Taken, waiting-Taken}
use gtc.Backfill.Queue.Owned.{Owned, Reach-Owned}
use gtc.Backfill.Queue.Resume.{
  split_table_name, resume_each, split_table_name-name_of, resume_each-queue,
}
use gtc.Backfill.Lane.{
  Loop, Windowed, Reach as Loops, begins as loop_begins, next_step, fills, completes, begin_loop,
  add_chunk, head_done, returned,
}
use gtc.Backfill.Lane.Window.{Kept, Reach-Kept}
use gtc.Backfill.Lane.Pages.{Paged, Finds, loop-reads_all}
use gtc.Tests.World.{event}

abbrev users : TableRef
users = record { schema = "public"; table = "users" }

abbrev config : Config
config = record {
  slot_name = "s";
  publication_name = "p";
  chunk_size = 2;
  chunk_delay = 0;
  lanes = 1;
  excluded_tables = [];
  wanted = none;
}

abbrev row : String → Row
row key = record { key = key; values = [] }

abbrev chunk : ChunkInFlight
chunk = record {
  table = users;
  collecting = false;
  seen = [];
  pending = [];
  pk_cols = "id" ∷ [];
  row_count = 0;
  last_cursor = [];
  delivered = 0;
  completed = false;
  restart = 0;
}

abbrev coordinator : Coordinator
coordinator = record {
  cfg = config;
  queue = [];
  running = [];
  state = [];
  status = [];
  chunks = ("k", chunk) ∷ [];
  inflight = "k" ∷ [];
  wake = 0;
  chunk_seq = 1;
  streaming = true;
  restarts = 0;
  instance_id = "n";
}

-- The chunk is selected, and one of its rows is updated before the high watermark.
abbrev acts : List Act
acts =
    selects "k" (row "1") (row "2" ∷ []) ("2" ∷ [])
    ∷ observes
        (record (event "9" "users") { operation = update; new_data = some (("id", str "1") ∷ []) })
    ∷ []

only_chunk :
    (id : String) (ch : ChunkInFlight)
    → Dict.get id coordinator.chunks ≡ some ch
    → ch.pk_cols ≡ ("id" ∷ [])
unfolding Dict.get
only_chunk id ch h =
    elim (str_eq "k" id)
        as (λ b.
          Path (Option ChunkInFlight) (if◌then◌else◌ b (some chunk) none) (some ch)
          → ch.pk_cols ≡ ("id" ∷ [])) [ true ↦ λ p. cc | false ↦ λ p. absurd (cc p) ]
      h

window-events_example :
    (handle_watermark "b" 9 (some (record { slot = "s"; chunk = "k"; mark = "high" })) (
      run acts
        (handle_watermark "a" 8
          (some (record { slot = "s"; chunk = "k"; mark = "low" }))
          coordinator).0)).1
    ≡ (read_event "b" 9 "k" users (row "2") ∷ [])
unfolding rows_after observed_key in_flight Dict.get
window-events_example =
    window-events (λ t. "id" ∷ []) "a" "b" 8 9 "k" chunk coordinator acts refl refl
      (λ id ch h. only_chunk id ch h)

-- A delete has the key of its old row; an update that changes the key has the new one only.
abbrev renamed : CdcEvent
renamed = record (event "9" "users") {
  operation = update;
  old_data = some (("id", str "1") ∷ []);
  new_data = some (("id", str "2") ∷ []);
}

delete_touches : touches ("id" ∷ []) (record renamed { operation = delete }) users "1" ≡ true
unfolding Dict.get
delete_touches = refl

update_touches : touches ("id" ∷ []) renamed users "2" ≡ true
unfolding Dict.get
update_touches = refl

update_leaves_old : touches ("id" ∷ []) renamed users "1" ≡ false
unfolding Dict.get
update_leaves_old = refl

abbrev db : Db ℕ
db = record {
  emit_watermark = λ ctx payload w. (w, none);
  primary_key = λ ctx schema table w. (w, got ("id" ∷ []));
  select_chunk = λ ctx schema table cols cur n w. (w, got (record { rows = []; last_cursor = [] }));
  publication_tables = λ ctx name w. (w, got (("public", "users") ∷ ("public", "orders") ∷ []));
  ensure_state_table = λ ctx w. (w, none);
  load_state = λ ctx w. (w, got []);
  load_table_state = λ ctx table w. (w, got none);
  save_state = λ ctx table ts w. (suc w, none);
  mark_pending = λ ctx tables w. (suc w, none);
}

-- Both tables of the publication are queued, once each.
manager-Exclusive_example :
    Exclusive (enqueue_table db (λ c. c) users coordinator 0).1
    × Exclusive (enqueue_all db (λ c. c) root coordinator 0).1
    × Exclusive (replay_all db (λ c. c) root coordinator 0).1
manager-Exclusive_example =
    manager-Exclusive db (λ c. c) (λ c ex. ex) users root coordinator 0
      (record { queued_once = tt; apart = λ t h. refl })

split_table_name-name_of_example : name_of users ≡ "public.users"
unfolding split_table_name
split_table_name-name_of_example = split_table_name-name_of "public.users" users refl

abbrev new : Coordinator
new = new_coordinator config (pos 2) (pos 1) "n"

-- One table waits, and the only lane looks.
abbrev waiting : Pool
waiting = record { c = enqueue_locked users new; lanes = looks ∷ [] }

waiting_reached : Reach (initial config (pos 2) (pos 1) "n") waiting
unfolding initial new_coordinator busy_locked
waiting_reached = next begins (enqueues users refl)

waiting-Taken_example : (r : Pool) × (Soon waiting r × Taken users [] r)
unfolding enqueue_locked new_coordinator looking
waiting-Taken_example =
    waiting-Taken config (pos 2) (pos 1) "n" users [] waiting waiting_reached refl (omega arith)

Reach-Owned_example : Owned waiting
Reach-Owned_example = Reach-Owned config (pos 2) (pos 1) "n" waiting waiting_reached

-- What an earlier run left: one table is done, and one is not.
abbrev left : List (String × TableState)
left =
    ("public.users", record { cursor = []; done = true; rows_copied = 3; updated_at = 5 })
    ∷ ("public.orders", record { cursor = "7" ∷ []; done = false; rows_copied = 7; updated_at = 6 })
    ∷ []

resume_each-queue_example :
    (c : Coordinator) × ((resume_each left (some new) ≡ some c)
      × ((c.cfg ≡ new.cfg) × (c.queue ≡ (record { schema = "public"; table = "orders" } ∷ []))))
unfolding new_coordinator split_table_name is_excluded wanted
resume_each-queue_example = resume_each-queue left new

-- A table of three rows, in pages of two.
abbrev rows_from : List String → List Row
rows_from [] = row "1" ∷ row "2" ∷ row "3" ∷ []
rows_from (c ∷ cs) = if str_eq c "2" then row "3" ∷ [] else []

abbrev page : List String → Chunk
page [] = record { rows = row "1" ∷ row "2" ∷ []; last_cursor = "2" ∷ [] }
page (c ∷ cs) = record { rows = take 2 (rows_from (c ∷ cs)); last_cursor = "3" ∷ [] }

short_rest : (b : Bool) → 2 ≤ length (if b then row "3" ∷ [] else []) → ⊥
short_rest true h = omega arith
short_rest false h = omega arith

paged : Paged 2 rows_from page
paged = record {
  first_rows =
      λ cur. elim cur as (λ x. (page x).rows ≡ take 2 (rows_from x)) [ [] ↦ refl | c ∷ cs ↦ refl ];
  rest_rows = λ cur.
      elim cur
        as (λ x. 2 ≤ length (rows_from x) → rows_from (page x).last_cursor ≡ drop 2 (rows_from x)) [
          | [] ↦ λ h. refl
          | c ∷ cs ↦ λ h. absurd (short_rest (str_eq c "2") h)
        ];
}

abbrev start : Loop ℕ
start = begin_loop users db root 9 coordinator 0

abbrev first_page : Windowed
first_page = record { id = "a"; chunk = page [] }

abbrev second_page : Windowed
second_page = record { id = "b"; chunk = page ("2" ∷ []) }

abbrev both : Loop ℕ
both = add_chunk users second_page (add_chunk users first_page start)

abbrev end : Loop ℕ
end =
    head_done users db root 9 second_page [] 1
      (head_done users db root 9 first_page (second_page ∷ []) 2 both)

both_reached : Loops users db root 9 (Finds config rows_from page paged) start both
unfolding begin_loop add_chunk Dict.get
both_reached =
    next_step (next_step loop_begins (fills start first_page refl refl (omega arith) refl))
      (fills (add_chunk users first_page start) second_page refl refl (omega arith) refl)

end_reached : Loops users db root 9 (Finds config rows_from page paged) start end
unfolding begin_loop add_chunk head_done Dict.get
end_reached =
    next_step
      (next_step both_reached (completes both first_page (second_page ∷ []) 2 refl (inl refl) refl))
      (completes (head_done users db root 9 first_page (second_page ∷ []) 2 both) second_page [] 1
        refl (inl refl) refl)

Reach-Kept_example : Kept config both
Reach-Kept_example =
    Reach-Kept users db root 9 config (Finds config rows_from page paged) coordinator 0 both refl
      both_reached

loop-reads_all_example :
    (end.ended ≡ none → end.sent ++ rows_from end.cursor ≡ rows_from start.cursor)
    × (end.ended ≡ some (returned none) → end.sent ≡ rows_from start.cursor)
loop-reads_all_example =
    loop-reads_all config rows_from page paged users db root 9 coordinator 0 end refl end_reached

-- The loop has ended there.
loop_ended : end.ended ≡ some (returned none)
unfolding begin_loop add_chunk head_done Dict.get
loop_ended = refl
