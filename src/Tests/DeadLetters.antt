-- ===== src/Tests/DeadLetters.antt =====
-- dlq/sink.go on a batch with one poison event.
use mathlib.Core.List.{map-append}
use gtc.Base.{
  ap, subst, ◌≡◌, refl, List, [], ◌∷◌, ◌++◌, Option, none, some, any, All, In, inl, inr, Bool-cases,
  arith, eq_iff, map,
}
use gtc.Domain.Errors.{Error, is, is_permanent, same}
use gtc.Domain.Event.{CdcEvent, to_string}
use gtc.Domain.Sink.{Ctx, root}
use gtc.Dlq.Store.{DeadLetterEntry}
use gtc.Dlq.Manager
use gtc.Dlq.Manager.{Manager, failure_info, entry_of, clear_failures}
use gtc.Base.Dict
use gtc.Dlq.Isolation.{process, isolate, halves, half, after_half, park, stalls}
use gtc.Dlq.Isolation.Total.{Ends, process-Ends}
use gtc.Dlq.Isolation.Account.{Contract, Distinct, Op, processes, reads_clock, counts, Settled}
use gtc.Dlq.Isolation.Account.NoLoss.{process-no_loss}
use gtc.Dlq.Isolation.Exact.{Healthy, Succeeds, process_sorts}
use gtc.Tests.World.{World, sink, store, runtime, is_poison, rejected, manager, batch, empty, event}

process-Ends_example : Ends (process runtime store sink root batch manager)
process-Ends_example = process-Ends runtime store sink root batch manager

abbrev Applied : CdcEvent → World → Type 0
Applied e w = In e w.applied

abbrev Holds : DeadLetterEntry → World → Type 0
Holds x w = In x w.held

In-left : {A : Type 0} (x : A) (xs ys : List A) → In x xs → In x (xs ++ ys)
In-left x [] ys h = absurd h
In-left x (z ∷ xs) ys (inl e) = inl e
In-left x (z ∷ xs) ys (inr i) = inr (In-left x xs ys i)

In-right : {A : Type 0} (x : A) (xs ys : List A) → In x ys → In x (xs ++ ys)
In-right x [] ys h = h
In-right x (z ∷ xs) ys h = inr (In-right x xs ys h)

All_In : (es xs : List CdcEvent) → ((e : CdcEvent) → In e es → In e xs) → All (λ e. In e xs) es
All_In [] xs f = tt
All_In (e ∷ es) xs f = (f e (inl refl), All_In es xs (λ x i. f x (inr i)))

sink_applies :
    (ctx : Ctx) (es : List CdcEvent) (w v : World)
    → sink.process ctx es w ≡ (v, none)
    → All (λ e. Applied e v) es
sink_applies ctx es w v h = elim (Bool-cases (any is_poison es)) [
  | inl bad ↦ cc (rw (bad) at (ap (λ (r : World × Option Error). r.1) h))
  | inr clean ↦
      let applied : w.applied ++ es ≡ v.applied =
        rw (clean) at (ap (λ (r : World × Option Error). r.0.applied) h) in
      subst (λ l. All (λ e. In e l) es) applied (All_In es _ (λ e i. In-right e w.applied es i))
]

Applied-stays : (e : CdcEvent) {w v : World} → Op runtime store sink w v → Applied e w → Applied e v
Applied-stays e {w} (processes ctx es) a = elim (Bool-cases (any is_poison es)) [
  | inl bad ↦ rw (bad) a
  | inr clean ↦ rw (clean) (In-left e w.applied es a)
]
Applied-stays e reads_clock a = a
Applied-stays e (counts ctx) a = a

held_stays : (x : DeadLetterEntry) {w v : World} → Op runtime store sink w v → Holds x w → Holds x v
held_stays x (processes ctx es) a = elim (Bool-cases (any is_poison es)) [
  | inl bad ↦ rw (bad) a
  | inr clean ↦ rw (clean) a
]
held_stays x reads_clock a = a
held_stays x (counts ctx) a = a

contract : Contract runtime store sink Applied Holds
contract = record {
  applies = sink_applies;
  parks = λ ctx x w v h.
      subst (λ l. In x l) (ap (λ (r : World × Option Error). r.0.held) h)
        (In-right x w.held (x ∷ []) (inl refl));
  applied_stays = Applied-stays;
  held_stays = held_stays;
  applied_past_park = λ e ctx y w a. a;
  held_past_park = λ x ctx y w differ a. In-left x w.held (y ∷ []) a;
}

batch-Distinct : Distinct batch
batch-Distinct = ground (
  arith,
  eq_iff "1" "2",
  eq_iff "1" "3",
  eq_iff "1" "4",
  eq_iff "1" "5",
  eq_iff "2" "3",
  eq_iff "2" "4",
  eq_iff "2" "5",
  eq_iff "3" "4",
  eq_iff "3" "5",
  eq_iff "4" "5",
)

-- What Process leaves of the batch: the poison event is parked, the others are delivered.
abbrev after : Manager World
after = record manager {
  world = record {
    applied = event "1" "a" ∷ event "3" "a" ∷ event "4" "b" ∷ event "5" "b" ∷ [];
    held =
        record {
          id = "search:2";
          sink_name = "search";
          schema = "public";
          table = "bad";
          operation = "INSERT";
          lsn = "2";
          error = "error";
          attempts = 1;
          first_failed_at = 5;
          last_failed_at = 5;
          event = event "2" "bad";
        }
        ∷ [];
    calls = 5;
  };
}

process_runs : process runtime store sink root batch manager ≡ some (after, none)
unfolding process isolate halves half after_half park stalls is is_permanent same failure_info
    Manager.park entry_of to_string clear_failures Dict.get Dict.remove
process_runs = refl

process-no_loss_example : All (Settled runtime store sink Applied Holds after.world) batch
process-no_loss_example =
    process-no_loss runtime store sink Applied Holds contract root batch manager after
      batch-Distinct process_runs

healthy :
    Healthy runtime store sink is_poison
      (λ w. w.applied)
      (λ w. map (λ x. x.event) w.held)
      (λ w. w.calls)
unfolding is_permanent is same
healthy = record {
  accepts = λ ctx es w clean. rw (clean) (refl, refl);
  rejects = λ ctx es w bad. rw (bad) (rejected, refl, refl, refl, refl, refl);
  process_dead =
      λ ctx es w. elim (Bool-cases (any is_poison es)) [ inl b ↦ rw (b) | inr b ↦ rw (b) ];
  process_calls = λ ctx es w. elim (Bool-cases (any is_poison es)) [
    | inl b ↦ rw (b) (omega arith)
    | inr b ↦ rw (b) (omega arith)
  ];
  parks = λ ctx x w. (refl, refl, map-append _ w.held (x ∷ []), refl);
  clock = λ w. record { same_log = refl; same_dead = refl; same_calls = refl };
  counting = λ ctx w. record { same_log = refl; same_dead = refl; same_calls = refl };
  running = λ ctx w. refl;
}

process_sorts_example :
    Succeeds runtime store sink is_poison
      (λ w. w.applied)
      (λ w. map (λ x. x.event) w.held)
      (λ w. w.calls)
      batch
      7
      empty
      (process runtime store sink root batch manager)
process_sorts_example =
    process_sorts runtime store sink is_poison (λ w. w.applied) (λ w. map (λ x. x.event) w.held)
      (λ w. w.calls) healthy 3 root batch manager refl (omega arith)
