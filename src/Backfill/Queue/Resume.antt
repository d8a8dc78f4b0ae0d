-- ===== src/Backfill/Queue/Resume.antt =====
-- Start and splitTableName of backfill/coordinator.go: the tables that a new process goes on with.
use Prim.Native.Char.{Char}
use Prim.Native.String.{String, ◌++◌ as ◌<>◌}
use Prim.Native.String.append
use gtc.Base.{
  ℕ, ◌≡◌, refl, sym, ap, subst, ◌∙◌, inl, inr, str_eq, eq_iff, eq_refl, true, not, ◌||◌, Bool-cases,
  Option-cases, List, [], ◌∷◌, ◌++◌, append_assoc, append-nil, Option, none, some, if◌then◌else◌,
}
use gtc.Base.Dict
use gtc.Base.Dict.{Dict, get-put}
use gtc.Domain.Errors.{Error}
use gtc.Domain.Sink.{Ctx}
use gtc.Dlq.Store.{Answer, got, failed}
use gtc.Backfill.State.{
  TableRef, name_of, TableState, done, BackfillTableStatus, Config, Db, Coordinator,
}
use gtc.Backfill.Queue.{is_excluded, wanted, is_running, new_status, enqueue_locked, pending}

abbrev pub longer : Char → Option TableRef → Option TableRef
longer c none = none
longer c (some t) = some (record t { schema = String.◌∷◌ c t.schema })

-- splitTableName
unfoldable pub split_table_name : String → Option TableRef
split_table_name String.[] = none
split_table_name (String.◌∷◌ c s) =
    let rest = split_table_name s in
    if str_eq (String.◌∷◌ c String.[]) "."
    then some (record { schema = ""; table = s })
    else longer c rest

-- c.status[name].RowsCopied = n; none is a nil pointer
unfoldable pub set_copied :
    String → ℕ → Coordinator → Option BackfillTableStatus → Option Coordinator
set_copied name n c none = none
set_copied name n c (some s) =
    some (record c { status = Dict.put name (record s { rows_copied = n }) c.status })

-- the body of the loop of Start, on a name that splits
unfoldable pub resume_ref : String → TableState → TableRef → Coordinator → Option Coordinator
unfolding is_excluded wanted enqueue_locked set_copied
resume_ref name ts t c =
    if ts.done
    then some (record c {
      status =
          Dict.put name
            (record (new_status t done) {
              rows_copied = ts.rows_copied;
              completed_at = some ts.updated_at;
            })
            c.status;
    })
    else if is_excluded t c.cfg || not (wanted t c.cfg)
    then some c
    else set_copied name ts.rows_copied (enqueue_locked t c)
        (Dict.get name (enqueue_locked t c).status)

unfoldable pub resume_one : String → TableState → Option TableRef → Coordinator → Option Coordinator
unfolding resume_ref
resume_one name ts none c = some c
resume_one name ts (some t) c = resume_ref name ts t c

-- the loop of Start over the loaded state
unfoldable pub resume_each : Dict TableState → Option Coordinator → Option Coordinator
unfolding resume_one split_table_name
resume_each state none = none
resume_each [] (some c) = some c
resume_each ((name, ts) ∷ state) (some c) =
    resume_each state (resume_one name ts (split_table_name name) c)

module _ {W : Type 0} (db : Db W) where
  after_load : Coordinator → W × Answer (Dict TableState) → W × Option Coordinator
  unfolding resume_each
  after_load c (w, failed e) = (w, some c)
  after_load c (w, got state) = (w, resume_each state (some (record c { state = state })))

  after_ensure : Ctx → Coordinator → W × Option Error → W × Option Coordinator
  unfolding after_load
  after_ensure ctx c (w, some e) = (w, some c)
  after_ensure ctx c (w, none) = after_load c (db.load_state ctx w)

  -- Start, up to where it starts the lanes; none is a nil pointer, errors are logged
  unfoldable pub start : Ctx → Coordinator → W → W × Option Coordinator
  unfolding after_ensure
  start ctx c w = after_ensure ctx c (db.ensure_state_table ctx w)

found_dot :
    (c : Char) (s : String)
    → str_eq (String.◌∷◌ c String.[]) "." ≡ true
    → "" <> "." <> s ≡ String.◌∷◌ c s
found_dot c s h =
    append.nil ("." <> s)
    ∙ ap (λ d. d <> s) (sym ((eq_iff (String.◌∷◌ c String.[]) ".").0 h))
    ∙ append.cons c String.[] s
    ∙ ap (String.◌∷◌ c) (append.nil s)

-- A name that splits is the name of the table that it splits to.
pub split_table_name-name_of :
    (name : String) (t : TableRef) → split_table_name name ≡ some t → name_of t ≡ name
unfolding split_table_name name_of
split_table_name-name_of String.[] t h = absurd (cc h)
split_table_name-name_of (String.◌∷◌ c s) t h =
    elim (Bool-cases (str_eq (String.◌∷◌ c String.[]) ".")) [
      | inl dot ↦
          subst (λ (u : TableRef). u.schema <> "." <> u.table ≡ String.◌∷◌ c s) (cc (rw (dot) at h))
            (found_dot c s dot)
      | inr other ↦ elim (Option-cases (split_table_name s)) [
        | inl absent ↦ absurd (cc (rw (other, absent) at h))
        | inr (u, found) ↦
            subst (λ (v : TableRef). v.schema <> "." <> v.table ≡ String.◌∷◌ c s)
              (cc (rw (other, found) at h))
              (append.cons c u.schema ("." <> u.table)
                ∙ ap (String.◌∷◌ c) (split_table_name-name_of s u found))
      ]
    ]

enqueued-status :
    (t : TableRef) (c : Coordinator)
    → (s : BackfillTableStatus) × (Dict.get (name_of t) (enqueue_locked t c).status ≡ some s)
unfolding enqueue_locked
enqueued-status t c = elim (Bool-cases (is_running (Dict.get (name_of t) c.status))) [
  | inr n ↦ (
    new_status t pending,
    rw (n) (
        get-put (name_of t) (name_of t) (new_status t pending) c.status
        ∙ ap (λ b. if b then some (new_status t pending) else Dict.get (name_of t) c.status)
            (eq_refl (name_of t))),
  )
  | inl r ↦ elim (Option-cases (Dict.get (name_of t) c.status)) [
    | inl absent ↦ absurd (cc (rw (absent) at r))
    | inr (s, here) ↦ (s, rw (r) here)
  ]
]

-- What the loop queues, said of the loaded state alone.
abbrev resumed : Config → TableState → Option TableRef → List TableRef
resumed cfg ts none = []
resumed cfg ts (some t) =
    if ts.done then [] else if is_excluded t cfg || not (wanted t cfg) then [] else t ∷ []

abbrev pub resumable : Config → Dict TableState → List TableRef
resumable cfg [] = []
resumable cfg ((name, ts) ∷ state) = resumed cfg ts (split_table_name name) ++ resumable cfg state

abbrev Resumes : List TableRef → Coordinator → Option Coordinator → Type 0
Resumes ts c r =
    (c' : Coordinator) × ((r ≡ some c') × ((c'.cfg ≡ c.cfg) × (c'.queue ≡ c.queue ++ ts)))

copied-Resumes :
    (name : String) (n : ℕ) (t : TableRef) (c : Coordinator)
    → name_of t ≡ name
    → Resumes
        (t ∷ [])
        c
        (set_copied name n (enqueue_locked t c) (Dict.get name (enqueue_locked t c).status))
unfolding set_copied enqueue_locked
copied-Resumes name n t c h =
    let (s, g) = enqueued-status t c in
    let at_name : Dict.get name (enqueue_locked t c).status ≡ some s =
      subst (λ k. Dict.get k (enqueue_locked t c).status ≡ some s) h g in
    rw (at_name) (
      record (enqueue_locked t c) {
        status = Dict.put name (record s { rows_copied = n }) (enqueue_locked t c).status;
      },
      (refl, (refl, refl)),
    )

resume_one-Resumes :
    (name : String) (ts : TableState) (o : Option TableRef) (c : Coordinator)
    → ((t : TableRef) → o ≡ some t → name_of t ≡ name)
    → Resumes (resumed c.cfg ts o) c (resume_one name ts o c)
unfolding resume_one resume_ref
resume_one-Resumes name ts none c h = (c, (refl, (refl, sym (append-nil c.queue))))
resume_one-Resumes name ts (some t) c h = elim (Bool-cases ts.done) [
  | inl d ↦ rw (d) (_, (refl, (refl, sym (append-nil c.queue))))
  | inr more ↦ elim (Bool-cases (is_excluded t c.cfg || not (wanted t c.cfg))) [
    | inl out ↦ rw (more, out) (c, (refl, (refl, sym (append-nil c.queue))))
    | inr in_ ↦ rw (more, in_) (copied-Resumes name ts.rows_copied t c (h t refl))
  ]
]

-- The loop of Start over any loaded state ends without a nil pointer, and adds to the queue, in the state's
-- order, the tables that the state names as unfinished and that are neither excluded nor unwanted.
pub resume_each-queue :
    (state : Dict TableState) (c : Coordinator)
    → Resumes (resumable c.cfg state) c (resume_each state (some c))
unfolding resume_each
resume_each-queue [] c = (c, (refl, (refl, sym (append-nil c.queue))))
resume_each-queue ((name, ts) ∷ state) c =
    let (c₁, (e, (f, q))) =
      resume_one-Resumes name ts (split_table_name name) c (split_table_name-name_of name) in
    let (c₂, (e₂, (f₂, q₂))) = resume_each-queue state c₁ in
    (
      c₂,
      (
        ap (resume_each state) e ∙ e₂,
        (
          f₂ ∙ f,
          q₂
              ∙ ap (λ cfg. c₁.queue ++ resumable cfg state) f
              ∙ ap (λ qs. qs ++ resumable c.cfg state) q
              ∙ append_assoc c.queue (resumed c.cfg ts (split_table_name name))
                  (resumable c.cfg state),
        ),
      ),
    )
