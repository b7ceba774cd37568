-- ===== src/Recovery/Counters.antt =====
-- The counters of internal/recovery/controller.go over a run, against a sum over its passes.
use nats_guest_access.Prelude.{
  ℕ, ◌+◌, ◌<◌, ◌^◌, ◌≡◌, ◌∙◌, ap, sym, refl, Bool, Option, none, some, List, [], ◌∷◌, length, arith,
}
use nats_guest_access.Errors.{Error}
use nats_guest_access.Platform.{Platform}
use nats_guest_access.World.{World}
use nats_guest_access.Access.{Service}
use nats_guest_access.Access.Recovery.{RecoveryReport, reconcile}
use nats_guest_access.Recovery.{
  Controller, word, outcome, recorded, positive_part, stamp, tick, ticks,
}

-- What a pass returned, and when it ended.
pub record Pass : Type 0 where
  pub report : RecoveryReport
  pub failed_with : Option Error
  pub time : ℕ

module _ (p : Platform) (s : Service) (batch : ℕ) where
  -- The passes alone, without a controller.
  unfoldable pub passes : List (ℕ → Bool) → World p.Bytes → List Pass × World p.Bytes
  passes [] w = ([], w)
  passes (over ∷ overs) w =
      let (r, reconciled) = reconcile p s batch over w in
      let found = outcome r in
      let (time, stamped) = stamp p s found.1 reconciled in
      let (more, after) = passes overs stamped in
      (record { report = found.0; failed_with = found.1; time = time } ∷ more, after)

abbrev completed_in : List Pass → ℕ
completed_in [] = 0
completed_in (x ∷ xs) = x.report.completed + completed_in xs

-- The cleanups that failed, and the passes that did.
abbrev failures_in : List Pass → ℕ
failures_in [] = 0
failures_in (x ∷ xs) =
    x.report.failed + (elim x.failed_with [ none ↦ 0 | some e ↦ 1 ]) + failures_in xs

-- The report and the time of the last pass without an error, the given ones if there is none.
abbrev last_good : RecoveryReport × ℕ → List Pass → RecoveryReport × ℕ
last_good kept [] = kept
last_good kept (x ∷ xs) =
    last_good (elim x.failed_with [ none ↦ (x.report, x.time) | some e ↦ kept ]) xs

abbrev pub summary : Controller → List Pass → Controller
summary c xs = record c {
  passes = word (c.passes + length xs);
  completed = word (c.completed + completed_in xs);
  failures = word (c.failures + failures_in xs);
  report = (last_good (c.report, c.last_success) xs).0;
  last_success = (last_good (c.report, c.last_success) xs).1;
}

pub record InRange (c : Controller) : Type 0 where
  pub passes : c.passes < 2 ^ 64
  pub completed : c.completed < 2 ^ 64
  pub failures : c.failures < 2 ^ 64

InRange-recorded :
    (report : RecoveryReport) (o : Option Error) (time : ℕ) (c : Controller)
    → InRange (recorded (report, o) time c)
unfolding recorded
InRange-recorded report none time c = record {
  passes = omega arith;
  completed = omega arith;
  failures = omega arith;
}
InRange-recorded report (some e) time c = record {
  passes = omega arith;
  completed = omega arith;
  failures = omega arith;
}

word-below : (n : ℕ) → n < 2 ^ 64 → word (n + 0) ≡ n
word-below n h = omega arith

word-word : (a b c d : ℕ) → b + c ≡ d → word (word (a + b) + c) ≡ word (a + d)
word-word a b c d h = omega arith

-- A controller is its settings and its counts.
abbrev with_counts : Controller → RecoveryReport × ℕ → ℕ → ℕ → ℕ → Controller
with_counts c good passes completed failures = record c {
  passes = passes;
  completed = completed;
  failures = failures;
  report = good.0;
  last_success = good.1;
}

same_counts :
    (c : Controller) (good : RecoveryReport × ℕ) {a b d a' b' d' : ℕ}
    → a ≡ a'
    → b ≡ b'
    → d ≡ d'
    → with_counts c good a b d ≡ with_counts c good a' b' d'
same_counts c good e f g = λ i. with_counts c good (e i) (f i) (g i)

summary-nil : (c : Controller) → InRange c → summary c [] ≡ c
summary-nil c r =
    same_counts c (c.report, c.last_success) (word-below c.passes r.passes)
      (word-below c.completed r.completed) (word-below c.failures r.failures)

summary-recorded :
    (c : Controller) (report : RecoveryReport) (o : Option Error) (time : ℕ) (xs : List Pass)
    → summary (recorded (report, o) time c) xs
      ≡ summary c (record { report = report; failed_with = o; time = time } ∷ xs)
unfolding recorded
summary-recorded c report none time xs =
    same_counts c (last_good (report, time) xs) (word-word c.passes 1 (length xs) _ (omega arith))
      (word-word c.completed report.completed (completed_in xs) _ refl)
      (word-word c.failures report.failed (failures_in xs) _ (omega arith))
summary-recorded c report (some e) time xs =
    same_counts c (last_good (c.report, c.last_success) xs)
      (word-word c.passes 1 (length xs) _ (omega arith))
      (word-word c.completed report.completed (completed_in xs) _ refl)
      (ap (λ n. word (n + failures_in xs)) (word-word c.failures report.failed 1 _ refl)
        ∙ word-word c.failures (report.failed + 1) (failures_in xs) _ refl)

recorded-batch :
    (found : RecoveryReport × Option Error) (time : ℕ) (c : Controller)
    → (recorded found time c).batch ≡ c.batch
unfolding recorded
recorded-batch (report, none) time c = refl
recorded-batch (report, some e) time c = refl

module _ (p : Platform) (s : Service) where
  -- The controller after passes.
  abbrev pub summarized : Controller → List Pass × World p.Bytes → Controller × World p.Bytes
  summarized c (xs, w) = (summary c xs, w)

  -- For a controller whose counters are below 2^64, any number of ticks end as the same passes
  -- without a controller do, with the controller's counters increased by the sums over the
  -- passes modulo 2^64, and with the report and the time of the last pass without an error.
  pub ticks-summary :
      (overs : List (ℕ → Bool)) (c : Controller) (w : World p.Bytes)
      → InRange c
      → ticks p s overs c w ≡ summarized c (passes p s (positive_part c.batch) overs w)
  unfolding ticks tick passes
  ticks-summary [] c w r = ap (λ x. (x, w)) (sym (summary-nil c r))
  ticks-summary (over ∷ overs) c w r =
      let pass = reconcile p s (positive_part c.batch) over w in
      let found = outcome pass.0 in
      let stamped = stamp p s found.1 pass.1 in
      let c' = recorded found stamped.0 c in
      let more = passes p s (positive_part c.batch) overs stamped.1 in
      ticks-summary overs c' stamped.1 (InRange-recorded found.0 found.1 stamped.0 c)
      ∙ ap (λ b. summarized c' (passes p s (positive_part b) overs stamped.1))
          (recorded-batch found stamped.0 c)
      ∙ ap (λ x. (x, more.1)) (summary-recorded c found.0 found.1 stamped.0 more.0)
