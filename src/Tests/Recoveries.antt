-- ===== src/Tests/Recoveries.antt =====
-- Recovery passes on a store with one slot whose guest has left, and lists of receipts.
use nats_guest_access.Prelude.{
  ℕ, ◌<◌, String, ◌≡◌, refl, Bool, true, false, Option, none, some, List, [], ◌∷◌, arith, pos, ℤ,
  length, InOrder, sort_by,
}
use mathlib.Core.List.{Perm}
use nats_guest_access.Errors.{Error, Result, ok}
use nats_guest_access.Model.{DeletionReceipt}
use nats_guest_access.Store
use nats_guest_access.Store.Table
use nats_guest_access.World
use nats_guest_access.World.{World}
use nats_guest_access.Access
use nats_guest_access.Access.Readers
use nats_guest_access.Access.Readers.{take}
use nats_guest_access.Access.Readers.Listed.{IsPage, list_receipts-IsPage}
use nats_guest_access.Access.Recovery.{CleanupTask, RecoveryReport, due_first, run_found}
use nats_guest_access.Access.Recovery.Counts.{Adds, Attempts, count_due, run_found-counts}
use nats_guest_access.Access.Recovery.Batch.{due_tasks, attempt_each, run_found-takes_oldest}
use nats_guest_access.Recovery.{Controller, new, ticks, positive_part}
use nats_guest_access.Recovery.Counters.{InRange, passes, summarized, ticks-summary}
use nats_guest_access.Samples.{Stored, receipt, sample, service, fresh}
use nats_guest_access.Tests.Requests.{at_lunch, opened, taken, stored}

abbrev left_behind : CleanupTask
left_behind = record { event = opened; slot = some taken; revision = 2; due = 20; started = 20 }

abbrev not_yet : CleanupTask
not_yet = record left_behind { due = 5000 }

abbrev two_tasks : List CleanupTask
two_tasks = not_yet ∷ left_behind ∷ []

abbrev never : ℕ → Bool
never n = false

-- The cleaner gives no answer.
abbrev one_failure : RecoveryReport
one_failure = record { pending = 2; attempted = 1; completed = 0; failed = 1; oldest = 980 }

run_found_runs :
    (run_found sample service 5 never 1000 (ok two_tasks) at_lunch).0 ≡ ok (one_failure, none)
unfolding run_found nats_guest_access.Prelude.insert_by World.◌>>=◌ World.try World.pure
    Store.update Table.find Store.apply_all Access.slot_key nats_guest_access.Prelude.pad3
    Store.write World.give nats_guest_access.Errors.is Table.put Store.next_revision
run_found_runs = refl

run_found-counts_example :
    Adds 5 2 0 one_failure × Attempts 5 0 (count_due 1000 two_tasks) none one_failure
run_found-counts_example =
    run_found-counts sample service 5 never 1000 two_tasks at_lunch one_failure none run_found_runs

run_found-takes_oldest_example :
    ((run_found sample service 1 (λ n. false) 1000 (ok two_tasks) at_lunch).1
      ≡ attempt_each sample service
          (take 1 (due_tasks 1000 (sort_by due_first two_tasks)))
          at_lunch)
    × InOrder due_first (sort_by due_first two_tasks)
    × Perm (sort_by due_first two_tasks) two_tasks
run_found-takes_oldest_example = run_found-takes_oldest sample service 1 1000 two_tasks at_lunch

abbrev controller : Controller
controller = new (pos 10) (pos 5)

controller-InRange : InRange controller
unfolding new
controller-InRange = record {
  passes = omega arith;
  completed = omega arith;
  failures = omega arith;
}

ticks-summary_example :
    ticks sample service (never ∷ never ∷ []) controller at_lunch
    ≡ summarized sample service controller
        (passes sample service (positive_part controller.batch) (never ∷ never ∷ []) at_lunch)
ticks-summary_example =
    ticks-summary sample service (never ∷ never ∷ []) controller at_lunch controller-InRange

abbrev kept : DeletionReceipt
kept = record {
  deletion_id = "d";
  event_id = "E";
  application_id = "demo";
  owner_subject = "owner";
  deleted_by_subject = "helper";
  created_at = 0;
  deleted_at = 9;
  identities_deleted = 1;
}

abbrev archive : World Stored
archive = record fresh {
  memory = record { revision = 9; entries = stored "receipt.E" (receipt kept) 1 ∷ [] };
}

list_receipts_runs : (Readers.list_receipts sample "owner" archive).0 ≡ ok (kept ∷ [])
unfolding Readers.list_receipts World.◌>>=◌ Store.list World.give Table.with_prefix Store.apply_all
    nats_guest_access.Prelude.has_prefix World.pure nats_guest_access.Prelude.insert_by
list_receipts_runs = refl

list_receipts-IsPage_example : IsPage sample "owner" (kept ∷ [])
list_receipts-IsPage_example =
    list_receipts-IsPage sample "owner" archive (kept ∷ []) list_receipts_runs
