-- ===== src/Access/Recovery.antt =====
-- internal/access/recovery.go: Reconcile, which takes up the cleanups that are due.
pub mod Counts
pub mod Batch
use nats_guest_access.Prelude.{
  ℕ, ◌+◌, ◌-◌, ◌^◌, String, Bool, not, ◌&&◌, ◌||◌, Option, none, some, List, [], ◌∷◌, ltb, leb,
  ◌==◌, if◌then◌else◌, sort_by, length,
}
use Prim.Native.Nat.{min, max}
use mathlib.Core.List.{◌++◌}
use nats_guest_access.Errors.{
  Error, failure, store_not_found, store_conflict, cleanup_pending, decoding, cancelled, is, Result,
  ok, err,
}
use nats_guest_access.Model.{open_state, deleting, CleanupProgress, Event, Slot}
use nats_guest_access.Platform.{Platform}
use nats_guest_access.Store.{Entry}
use nats_guest_access.World
use nats_guest_access.World.{Action, ◌>>=◌, ◌>>◌, pure, give, try, handle, or_fail}
use nats_guest_access.Access.{Service, same_state, slot_prefix}
use nats_guest_access.Access.Cleanup.{clean_slot}
use nats_guest_access.Access.Deletion.{clean_event}

-- OldestSeconds is kept in nanoseconds.
pub record RecoveryReport : Type 0 where
  pub pending : ℕ
  pub attempted : ℕ
  pub completed : ℕ
  pub failed : ℕ
  pub oldest : ℕ

abbrev pub empty_report : RecoveryReport
empty_report = record { pending = 0; attempted = 0; completed = 0; failed = 0; oldest = 0 }

pub record CleanupTask : Type 0 where
  pub event : Event
  pub slot : Option Slot
  pub revision : ℕ
  pub due : ℕ
  pub started : ℕ

abbrev pub due_first : CleanupTask → CleanupTask → Bool
due_first a b = ltb a.due b.due

-- The task of an event that is being deleted.
unfoldable pub event_task : Event → ℕ → CleanupTask
event_task event revision = record {
  event = event;
  slot = none;
  revision = revision;
  due = elim event.cleanup [ none ↦ 0 | some progress ↦ progress.next_attempt_at ];
  started = elim event.cleanup [ none ↦ event.updated_at | some progress ↦ progress.started_at ];
}

-- The task of a slot, if its cleanup has begun or its guest's time in an open event is over.
unfoldable pub slot_task : Event → ℕ → Slot → ℕ → Option CleanupTask
unfolding same_state
slot_task event time slot revision = elim slot.cleanup [
  | none ↦
      if not (same_state event.state open_state) || slot.reserved || ltb time slot.grace_expires_at
      then none
      else some (record {
        event = event;
        slot = some slot;
        revision = revision;
        due = slot.grace_expires_at;
        started = slot.grace_expires_at;
      })
  | some progress ↦ some (record {
    event = event;
    slot = some slot;
    revision = revision;
    due = progress.next_attempt_at;
    started = progress.started_at;
  })
]

-- now.Sub(started), where it is positive: a Duration is an int64 and saturates.
unfoldable pub age : ℕ → ℕ → ℕ
age time started = min (time - started) (2 ^ 63 - 1)

unfoldable pub seen : ℕ → CleanupTask → RecoveryReport → RecoveryReport
unfolding age
seen time task report = record report { oldest = max report.oldest (age time task.started) }

unfoldable pub begun : RecoveryReport → RecoveryReport
begun report = record report { attempted = report.attempted + 1 }

-- The report after an attempt.
unfoldable pub counted : Result (Unit {0}) → RecoveryReport → RecoveryReport
counted (ok done) report = record report {
  completed = report.completed + 1;
  pending = report.pending - 1;
}
counted (err e) report =
    if not (is e store_conflict) && not (is e store_not_found) && not (is e cleanup_pending)
    then record report { failed = report.failed + 1 }
    else report

module _ (p : Platform) where
  unfoldable pub slot_tasks : Event → ℕ → List (String × Entry p.Bytes) → Result (List CleanupTask)
  unfolding slot_task
  slot_tasks event time [] = ok []
  slot_tasks event time ((key, entry) ∷ others) =
      let more = slot_tasks event time others in
      elim (p.decode_slot entry.value) [
        | none ↦ err (failure decoding)
        | some slot ↦ elim more [
          | ok tasks ↦ ok (elim (slot_task event time slot entry.revision) [
            | none ↦ tasks
            | some task ↦ task ∷ tasks
          ])
          | err e ↦ err e
        ]
      ]

  -- The tasks of the events' entries, in their order.
  unfoldable pub find_tasks : ℕ → List (String × Entry p.Bytes) → Action p.Bytes (List CleanupTask)
  unfolding same_state event_task slot_prefix slot_tasks World.list
  find_tasks time [] = pure []
  find_tasks time ((key, entry) ∷ others) = do
    event ← give (or_fail decoding (p.decode_event entry.value))
    found ←
        if same_state event.state deleting
        then pure (event_task event entry.revision ∷ [])
        else do entries ← World.list (slot_prefix event.id); give (slot_tasks event time entries)
    more ← find_tasks time others
    pure (found ++ more)

module _ (p : Platform) (s : Service) where
  unfoldable pub attempt : CleanupTask → Action p.Bytes (Unit {0})
  unfolding clean_event clean_slot
  attempt task = elim task.slot [
    | none ↦ clean_event p s task.event task.revision >> pure tt
    | some slot ↦ clean_slot p s task.event slot task.revision
  ]

  -- The loop over the sorted tasks. `over n` tells whether the context is over before the attempt
  -- that follows the n-th. Go returns the report beside an error, so this never fails.
  unfoldable pub run_tasks :
      ℕ
      → (ℕ → Bool)
      → ℕ
      → List CleanupTask
      → RecoveryReport
      → Action p.Bytes (RecoveryReport × Option Error)
  unfolding seen begun counted attempt
  run_tasks batch over time [] report = pure (report, none)
  run_tasks batch over time (task ∷ tasks) report =
      let report' = seen time task report in
      let onward = run_tasks batch over time tasks report' in
      if ltb time task.due || leb batch report.attempted
      then onward
      else if over report.attempted
      then pure (report', some (failure cancelled))
      else do
        done ← try (attempt task)
        run_tasks batch over time tasks (counted done (begun report'))

  -- What follows the search for tasks.
  unfoldable pub run_found :
      ℕ
      → (ℕ → Bool)
      → ℕ
      → Result (List CleanupTask)
      → Action p.Bytes (RecoveryReport × Option Error)
  unfolding run_tasks sort_by
  run_found batch over time (err e) = pure (empty_report, some e)
  run_found batch over time (ok tasks) =
      run_tasks batch over time (sort_by due_first tasks)
        (record empty_report { pending = length tasks })

  -- A batch below 1 is 0.
  unfoldable pub reconcile : ℕ → (ℕ → Bool) → Action p.Bytes (RecoveryReport × Option Error)
  unfolding find_tasks run_found World.list World.now
  reconcile batch over = if batch == 0 || not s.cleaner then pure (empty_report, none) else do
    listed ← try (World.list "event.")
    handle listed
        (λ events. do
          time ← World.now
          found ← try (find_tasks p time events)
          run_found batch over time found)
        λ e. pure (empty_report, some e)
