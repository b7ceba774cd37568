-- ===== src/Access/Recovery/Batch.antt =====
-- internal/access/recovery.go: which tasks Reconcile attempts, and in which order.
use mathlib.Core.List.{Perm}
use nats_guest_access.Prelude.{
  ℕ, suc, zero, ◌-◌, ◌<◌, ◌≡◌, refl, false, Bool-cases, inl, inr, List, [], ◌∷◌, arith, ltb, leb,
  if◌then◌else◌, length, InOrder, sort_by-perm, sort_by-InOrder, sort_by,
}
use nats_guest_access.Errors.{ok}
use nats_guest_access.Platform.{Platform}
use nats_guest_access.World
use nats_guest_access.World.{World}
use nats_guest_access.Access.{Service}
use nats_guest_access.Access.Readers.{take}
use nats_guest_access.Access.Recovery
use nats_guest_access.Access.Recovery.{
  CleanupTask, RecoveryReport, empty_report, due_first, counted, attempt, run_tasks, run_found,
}
use nats_guest_access.Access.Recovery.Counts.{counted-attempted}

-- The tasks whose time has come, in their order.
abbrev pub due_tasks : ℕ → List CleanupTask → List CleanupTask
due_tasks time [] = []
due_tasks time (t ∷ ts) = let more = due_tasks time ts in if ltb time t.due then more else t ∷ more

module _ (p : Platform) (s : Service) where
  -- One attempt after the other, whether they fail or not.
  unfoldable pub attempt_each : List CleanupTask → World p.Bytes → World p.Bytes
  attempt_each [] w = w
  attempt_each (t ∷ ts) w = attempt_each ts (attempt p s t w).1

  take_none : {A : Type 0} (l : List A) → take 0 l ≡ []
  unfolding take
  take_none [] = refl
  take_none (x ∷ l) = refl

  take_some :
      {A : Type 0} (n : ℕ) (x : A) (l : List A) → 0 < n → take n (x ∷ l) ≡ x ∷ take (n - 1) l
  unfolding take
  take_some zero x l h = absurd (omega arith)
  take_some (suc n) x l h = let less : suc n - 1 ≡ n = omega arith in rw less refl

  take_empty : (n : ℕ) → take {A = CleanupTask} n [] ≡ []
  unfolding take
  take_empty zero = refl
  take_empty (suc n) = refl

  run_tasks-attempt_each :
      (batch time : ℕ) (ts : List CleanupTask) (report : RecoveryReport) (w : World p.Bytes)
      → (run_tasks p s batch (λ n. false) time ts report w).1
        ≡ attempt_each (take (batch - report.attempted) (due_tasks time ts)) w
  unfolding run_tasks attempt_each Recovery.seen Recovery.begun World.◌>>=◌ World.try World.pure
  run_tasks-attempt_each batch time [] report w = rw (take_empty (batch - report.attempted)) refl
  run_tasks-attempt_each batch time (t ∷ ts) report w =
      let onward = run_tasks-attempt_each batch time ts (Recovery.seen time t report) w in
      elim (Bool-cases (ltb time t.due)) [
        | inl early ↦ rw early onward
        | inr due ↦ rw due (elim (Bool-cases (leb batch report.attempted)) [
          | inl full ↦
              let none_left : batch - report.attempted ≡ 0 = ground arith in
              rw (full, none_left, take_none (t ∷ due_tasks time ts))
                (rw (none_left, take_none (due_tasks time ts)) at onward)
          | inr room ↦
              let some_left : 0 < batch - report.attempted = ground arith in
              let done = (attempt p s t w).0 in
              let next = (attempt p s t w).1 in
              let report' = counted done (Recovery.begun (Recovery.seen time t report)) in
              let one_more : batch - report'.attempted ≡ batch - report.attempted - 1 =
                omega
                  (arith, counted-attempted done (Recovery.begun (Recovery.seen time t report))) in
              rw (room, take_some (batch - report.attempted) t (due_tasks time ts) some_left)
                (rw one_more at (run_tasks-attempt_each batch time ts report' next))
        ])
      ]

  -- Where the context is never over, the part of Reconcile that follows the search leaves the
  -- world that the attempts of the first `batch` due tasks leave, one after the other in the
  -- order of their due times, which is an order of all the tasks.
  pub run_found-takes_oldest :
      (batch time : ℕ) (tasks : List CleanupTask) (w : World p.Bytes)
      → ((run_found p s batch (λ n. false) time (ok tasks) w).1
          ≡ attempt_each (take batch (due_tasks time (sort_by due_first tasks))) w)
        × InOrder due_first (sort_by due_first tasks)
        × Perm (sort_by due_first tasks) tasks
  unfolding run_found
  run_found-takes_oldest batch time tasks w =
      let all : batch - 0 ≡ batch = omega arith in
      (
        rw all at (
            run_tasks-attempt_each batch time (sort_by due_first tasks)
              (record empty_report { pending = length tasks }) w),
        sort_by-InOrder due_first (λ x y h. ground arith) tasks,
        sort_by-perm due_first tasks,
      )
