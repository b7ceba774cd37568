-- ===== src/Access/Timing.antt =====
-- internal/access/recovery.go: when an application cleanup may be tried again.
use native.Mathlib.Omega.{pow_step}
use nats_guest_access.Prelude.{
  ℕ, zero, suc, ◌+◌, ◌*◌, ◌-◌, ◌^◌, ◌≤◌, ◌<◌, ◌≡◌, refl, Option, some, ltb, arith, if◌then◌else◌,
}
use nats_guest_access.Errors.{sentinel, cleanup_pending, ok, err}
use nats_guest_access.Model.{CleanupProgress}
use nats_guest_access.Platform.{Platform}
use nats_guest_access.World
use nats_guest_access.World.{World}
use nats_guest_access.World.Results.{Gives, Gives-bind, Gives-pure, Gives-fail, Gives-if}
use nats_guest_access.Access.Cleanup
use nats_guest_access.Access.Cleanup.{second, retry_delay, after_failure, claim_cleanup}

power_grows : (a b : ℕ) → a ≤ b → (1 ≤ 2 ^ a) × (2 ^ a ≤ 2 ^ b)
power_grows zero zero h = omega arith
power_grows zero (suc b) h = omega (arith, pow_step 2 b, power_grows zero b (omega arith))
power_grows (suc a) zero h = absurd (omega arith)
power_grows (suc a) (suc b) h =
    omega (arith, pow_step 2 a, pow_step 2 b, power_grows a b (omega arith))

-- The exponent for an attempt.
clamped : ℕ → ℕ
clamped n = let a = if ltb 6 n then 6 else n in let b = if ltb a 1 then 1 else a in b - 1

clamped-grows : (n m : ℕ) → n ≤ m → (clamped n ≤ clamped m) × (clamped m ≤ 5)
unfolding clamped
clamped-grows n m h = ground arith

-- The delay before another attempt is between 5 and 160 seconds, and for a later attempt it is
-- not shorter.
pub retry_delay-grows :
    (n m : ℕ)
    → n ≤ m
    → (5 * second ≤ retry_delay n)
      × (retry_delay n ≤ retry_delay m)
      × (retry_delay m ≤ 160 * second)
unfolding retry_delay clamped
retry_delay-grows n m h =
    let (up, most) = clamped-grows n m h in
    let (one, grows) = power_grows (clamped n) (clamped m) up in
    let (one', below) = power_grows (clamped m) 5 most in omega (arith, one, grows, below)

module _ (p : Platform) where
  claim-lease :
      (progress : Option CleanupProgress) (time lease : ℕ)
      → Gives (claim_cleanup p progress time lease) (λ held. held.next_attempt_at ≡ time + lease)
  unfolding claim_cleanup
  claim-lease progress time lease = Gives-bind _ λ current.
      Gives-if (ltb time current.next_attempt_at) (λ _. Gives-fail _) (λ _. Gives-pure _ refl)

  -- A claim of progress that is stored, at a time before and not before its next attempt.
  claim-early :
      (progress : CleanupProgress) (time lease : ℕ) (w : World p.Bytes)
      → time < progress.next_attempt_at
      → claim_cleanup p (some progress) time lease w ≡ (err (sentinel cleanup_pending), w)
  unfolding claim_cleanup Cleanup.started World.◌>>=◌ World.pure World.fail
  claim-early progress time lease w h = ground arith

  claim-due :
      (progress : CleanupProgress) (time lease : ℕ) (w : World p.Bytes)
      → progress.next_attempt_at ≤ time
      → claim_cleanup p (some progress) time lease w ≡ (
        ok (record progress { attempts = progress.attempts + 1; next_attempt_at = time + lease }),
        w,
      )
  unfolding claim_cleanup Cleanup.started World.◌>>=◌ World.pure World.fail
  claim-due progress time lease w h = ground arith

  -- After a claim of a cleanup at some time succeeded, a claim of the progress that it gave is
  -- refused as pending at every time before the lease has passed, and changes nothing.
  pub lease_excludes :
      (progress : Option CleanupProgress) (time later lease lease' : ℕ) (w w' : World p.Bytes)
      (held : CleanupProgress)
      → (claim_cleanup p progress time lease w).0 ≡ ok held
      → later < time + lease
      → claim_cleanup p (some held) later lease' w' ≡ (err (sentinel cleanup_pending), w')
  lease_excludes progress time later lease lease' w w' held claimed early =
      claim-early held later lease' w'
        (omega (arith, (claim-lease progress time lease).at w held claimed))

  -- Within 5 seconds after a cleanup failed a claim of it is refused as pending, and changes
  -- nothing.
  pub retry_too_early :
      (progress : CleanupProgress) (failed_at later lease : ℕ) (w : World p.Bytes)
      → later < failed_at + 5 * second
      → claim_cleanup p (some (after_failure progress failed_at)) later lease w
        ≡ (err (sentinel cleanup_pending), w)
  unfolding after_failure
  retry_too_early progress failed_at later lease w h =
      claim-early (after_failure progress failed_at) later lease w
        (omega (arith, retry_delay-grows progress.attempts progress.attempts (omega arith)))

  -- However often a cleanup failed, 160 seconds after its last failure a claim of it succeeds,
  -- counts one more attempt and holds the lease from then on.
  pub retry_comes :
      (progress : CleanupProgress) (failed_at later lease : ℕ) (w : World p.Bytes)
      → failed_at + 160 * second ≤ later
      → claim_cleanup p (some (after_failure progress failed_at)) later lease w ≡ (
        ok (record (after_failure progress failed_at) {
          attempts = progress.attempts + 1;
          next_attempt_at = later + lease;
        }),
        w,
      )
  unfolding after_failure
  retry_comes progress failed_at later lease w h =
      claim-due (after_failure progress failed_at) later lease w
        (omega (arith, retry_delay-grows progress.attempts progress.attempts (omega arith)))
