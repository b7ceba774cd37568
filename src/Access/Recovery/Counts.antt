-- ===== src/Access/Recovery/Counts.antt =====
-- internal/access/recovery.go: the numbers that Reconcile reports.
use Prim.Native.Nat.{min}
use nats_guest_access.Prelude.{
  ℕ, suc, ◌+◌, ◌≤◌, ◌<◌, ◌≡◌, refl, Bool, true, false, Bool-cases, ◌⊎◌, inl, inr, ◌||◌, Option,
  none, some, List, [], ◌∷◌, arith, ltb, leb, if◌then◌else◌, length, length-sort_by, insert_by,
  sort_by,
}
use nats_guest_access.Errors.{Error, Result, ok, err}
use nats_guest_access.Platform.{Platform}
use nats_guest_access.World.{World}
use nats_guest_access.World.Results.{Gives, Gives-bind, Gives-pure, Gives-if}
use nats_guest_access.Access.{Service}
use nats_guest_access.Access.Recovery
use nats_guest_access.Access.Recovery.{
  CleanupTask, RecoveryReport, empty_report, due_first, counted, run_tasks, run_found,
}

-- How many of the tasks are due.
abbrev pub count_due : ℕ → List CleanupTask → ℕ
count_due time [] = 0
count_due time (t ∷ ts) = (if ltb time t.due then 0 else 1) + count_due time ts

count_due-insert_by :
    (time : ℕ) (t : CleanupTask) (ts : List CleanupTask)
    → count_due time (insert_by due_first t ts) ≡ count_due time (t ∷ ts)
unfolding insert_by
count_due-insert_by time t [] = refl
count_due-insert_by time t (u ∷ ts) = elim (Bool-cases (due_first t u)) [
  | inl here ↦ rw here refl
  | inr later ↦ rw later (omega (arith, count_due-insert_by time t ts))
]

count_due-sort_by :
    (time : ℕ) (ts : List CleanupTask) → count_due time (sort_by due_first ts) ≡ count_due time ts
unfolding sort_by
count_due-sort_by time [] = refl
count_due-sort_by time (t ∷ ts) =
    omega (arith, count_due-insert_by time t (sort_by due_first ts), count_due-sort_by time ts)

-- A report on the way through `n` tasks, of which `left` are still to be looked at.
pub record Adds (batch n left : ℕ) (report : RecoveryReport) : Type 0 where
  pub within : report.attempted ≤ batch
  pub outcomes : report.completed + report.failed ≤ report.attempted
  pub all_counted : report.pending + report.completed ≡ n
  pub room : report.completed + left ≤ n

counted-Adds :
    (batch n left : ℕ) (done : Result (Unit {0})) (report : RecoveryReport)
    → report.attempted < batch
    → Adds batch n (left + 1) report
    → Adds batch n left (counted done (Recovery.begun report))
unfolding counted Recovery.begun
counted-Adds batch n left (ok u) report h a = ground arith
counted-Adds batch n left (err e) report h a = ground arith

-- What a finished run has attempted, with `had` attempts before.
abbrev pub Attempts : ℕ → ℕ → ℕ → Option Error → RecoveryReport → Type 0
Attempts batch had due none report = report.attempted ≡ min batch (had + due)
Attempts batch had due (some e) report = report.attempted ≤ min batch (had + due)

Attempts-skip :
    (batch had due : ℕ) (b : Bool) (o : Option Error) (report : RecoveryReport)
    → (b ≡ true) ⊎ (batch ≤ had)
    → had ≤ batch
    → Attempts batch had due o report
    → Attempts batch had ((if b then 0 else 1) + due) o report
Attempts-skip batch had due b none report h le a = ground arith
Attempts-skip batch had due b (some e) report h le a = ground arith

pub counted-attempted :
    (done : Result (Unit {0})) (report : RecoveryReport)
    → (counted done report).attempted ≡ report.attempted
unfolding counted
counted-attempted done report = ground arith

seen-Adds :
    (batch n left time : ℕ) (t : CleanupTask) (report : RecoveryReport)
    → Adds batch n (suc left) report
    → Adds batch n (left + 1) (Recovery.seen time t report)
unfolding Recovery.seen
seen-Adds batch n left time t report a = ground arith

Adds-less :
    (batch n left less : ℕ) (report : RecoveryReport)
    → less ≤ left
    → Adds batch n left report
    → Adds batch n less report
Adds-less batch n left less report h a = ground arith

Attempts-tried :
    (batch had due : ℕ) (o : Option Error) (report : RecoveryReport)
    → Attempts batch (had + 1) due o report
    → Attempts batch had (1 + due) o report
Attempts-tried batch had due none report a = omega (arith, a)
Attempts-tried batch had due (some e) report a = omega (arith, a)

module _ (p : Platform) (s : Service) (batch : ℕ) (over : ℕ → Bool) (time : ℕ) where
  Gives-run_tasks :
      (ts : List CleanupTask) (n : ℕ) (report : RecoveryReport)
      → Adds batch n (length ts) report
      → Gives
          (run_tasks p s batch over time ts report)
          (λ r. Adds batch n 0 r.0 × Attempts batch report.attempted (count_due time ts) r.1 r.0)
  unfolding run_tasks Recovery.seen Recovery.begun
  Gives-run_tasks [] n report a = Gives-pure _ (a, ground arith)
  Gives-run_tasks (t ∷ ts) n report a =
      let seen_adds = seen-Adds batch n (length ts) time t report a in
      Gives-if (ltb time t.due || leb batch report.attempted)
        (λ skip. record {
          at = λ w r h.
              let (adds, attempts) =
                (Gives-run_tasks ts n (Recovery.seen time t report)
                    (Adds-less batch n (length ts + 1) (length ts) _ (omega arith) seen_adds)).at
                  w r h in
              (
                adds,
                Attempts-skip batch report.attempted (count_due time ts) (ltb time t.due) r.1 r.0
                    (ground arith) a.within attempts,
              );
        })
        (λ go.
          Gives-if (over report.attempted)
            (λ stop.
              Gives-pure _
                (Adds-less batch n (length ts + 1) 0 _ (omega arith) seen_adds, ground arith))
            (λ on. Gives-bind _ λ done. record {
              at = λ w r h.
                  let (adds, attempts) =
                    (Gives-run_tasks ts n
                        (counted done (Recovery.begun (Recovery.seen time t report)))
                        (counted-Adds batch n (length ts) done _ (ground arith) seen_adds)).at
                      w r h in
                  let due : ltb time t.due ≡ false = ground arith in
                  (
                    adds,
                    rw due (
                        Attempts-tried batch report.attempted (count_due time ts) r.1 r.0
                          (rw counted-attempted at attempts)),
                  );
            }))

  -- Whatever the part of Reconcile that follows the search reports, the cleanups that were
  -- attempted are at most the batch and at least as many as those that completed or failed,
  -- those that are pending and those that completed make up the tasks, and without an error the
  -- attempted ones are as many as are due, or the batch if that is less.
  pub run_found-counts :
      (tasks : List CleanupTask) (w : World p.Bytes) (report : RecoveryReport) (e : Option Error)
      → (run_found p s batch over time (ok tasks) w).0 ≡ ok (report, e)
      → Adds batch (length tasks) 0 report × Attempts batch 0 (count_due time tasks) e report
  unfolding run_found
  run_found-counts tasks w report e h = rw (← count_due-sort_by time tasks) (
      (Gives-run_tasks (sort_by due_first tasks) (length tasks)
          (record empty_report { pending = length tasks })
          (record {
            within = omega arith;
            outcomes = omega arith;
            all_counted = omega arith;
            room = omega (arith, length-sort_by due_first tasks);
          })).at
        w (report, e) h)
