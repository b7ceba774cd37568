-- ===== src/Recovery.antt =====
-- internal/recovery/controller.go: the controller that runs recovery passes and counts them.
pub mod Counters
use nats_guest_access.Prelude.{
  ℕ, ◌+◌, ◌-◌, ltb, ◌*◌, ◌/◌, ◌%◌, ◌^◌, Bool, true, false, not, ◌||◌, Option, none, some, List, [],
  ◌∷◌, ℤ, pos, negsuc, if◌then◌else◌, ◌==◌, String,
}
use nats_guest_access.Errors.{Error, Result, ok, err}
use nats_guest_access.Platform.{Platform}
use nats_guest_access.World
use nats_guest_access.World.{World}
use nats_guest_access.Access.{Service}
use nats_guest_access.Access.Recovery.{RecoveryReport, empty_report, reconcile}

-- `last_success` is 0 for time.Time{}.
pub record Controller : Type 0 where
  pub interval : ℤ
  pub batch : ℤ
  pub report : RecoveryReport
  pub passes : ℕ
  pub completed : ℕ
  pub failures : ℕ
  pub last_success : ℕ

unfoldable pub new : ℤ → ℤ → Controller
new interval batch = record {
  interval = interval;
  batch = batch;
  report = empty_report;
  passes = 0;
  completed = 0;
  failures = 0;
  last_success = 0;
}

-- uint64
abbrev pub word : ℕ → ℕ
word n = n % 2 ^ 64

-- The changes of Tick under the lock, for what Reconcile returned and, if there is no error, the
-- time after it.
unfoldable pub recorded : RecoveryReport × Option Error → ℕ → Controller → Controller
recorded (report, none) time c = record c {
  passes = word (c.passes + 1);
  completed = word (c.completed + report.completed);
  failures = word (c.failures + report.failed);
  report = report;
  last_success = time;
}
recorded (report, some e) time c = record c {
  passes = word (c.passes + 1);
  completed = word (c.completed + report.completed);
  failures = word (word (c.failures + report.failed) + 1);
}

-- Reconcile's batch: below 1 it does nothing.
abbrev pub positive_part : ℤ → ℕ
positive_part (pos n) = n
positive_part (negsuc n) = 0

-- if c.interval <= 0 || c.batch < 1
unfoldable pub runs : Controller → Bool
runs c = not (positive_part c.interval == 0 || positive_part c.batch == 0)

-- What Reconcile returned: its report with its error, if it has one.
unfoldable pub outcome : Result (RecoveryReport × Option Error) → RecoveryReport × Option Error
outcome (ok found) = found
outcome (err e) = (empty_report, some e)

module _ (p : Platform) (s : Service) where
  -- The clock is read only after a pass without an error.
  unfoldable pub stamp : Option Error → World p.Bytes → ℕ × World p.Bytes
  stamp none w = World.read_clock w
  stamp (some e) w = (0, w)

  unfoldable pub tick : (ℕ → Bool) → Controller → World p.Bytes → Controller × World p.Bytes
  unfolding reconcile outcome stamp recorded
  tick over c w =
      let (r, reconciled) = reconcile p s (positive_part c.batch) over w in
      let found = outcome r in
      let (time, stamped) = stamp found.1 reconciled in (recorded found time c, stamped)

  -- The ticks until the context is over: for each, when its own context is over.
  unfoldable pub ticks : List (ℕ → Bool) → Controller → World p.Bytes → Controller × World p.Bytes
  unfolding tick
  ticks [] c w = (c, w)
  ticks (over ∷ overs) c w = let (c', w') = tick over c w in ticks overs c' w'

  -- The first tick comes before the ticker's.
  unfoldable pub run :
      (ℕ → Bool) → List (ℕ → Bool) → Controller → World p.Bytes → Controller × World p.Bytes
  unfolding runs ticks
  run over overs c w = if not (runs c) then (c, w) else ticks (over ∷ overs) c w

-- The seconds from time.Time{} to 1970-01-01.
abbrev epoch : ℕ
epoch = 62135596800

-- time.Time.Unix
unfoldable pub unix : ℕ → ℤ
unix time =
    let seconds = time / 1000000000 in
    if ltb seconds epoch then negsuc (epoch - seconds - 1) else pos (seconds - epoch)

-- The numbers that ServeHTTP prints. `oldest` is in nanoseconds, printed in seconds.
pub record Metrics : Type 0 where
  pub passes : ℕ
  pub completed : ℕ
  pub failures : ℕ
  pub pending : ℕ
  pub oldest : ℕ
  pub last_success_seconds : ℤ

unfoldable pub metrics : Controller → Metrics
unfolding unix
metrics c = record {
  passes = c.passes;
  completed = c.completed;
  failures = c.failures;
  pending = c.report.pending;
  oldest = c.report.oldest;
  last_success_seconds = if c.last_success == 0 then pos 0 else unix c.last_success;
}
