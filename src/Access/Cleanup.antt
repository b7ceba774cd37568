-- ===== src/Access/Cleanup.antt =====
-- internal/access/recovery.go: the claim that comes before a call of the application's cleaner,
-- its retry times, and the cleanup of one slot.
use nats_guest_access.Prelude.{
  ℕ, ◌+◌, ◌*◌, ◌-◌, ◌^◌, String, Option, none, some, [], ◌∷◌, ltb, ◌==◌, not, if◌then◌else◌,
}
use nats_guest_access.Errors.{failure, cleanup_pending, unconfigured, incomplete, Result, ok, err}
use nats_guest_access.Model.{CleanupProgress, Event, Slot}
use nats_guest_access.Platform.{Platform}
use nats_guest_access.World
use nats_guest_access.World.{Action, CleanupRequest, ◌>>=◌, ◌>>◌, pure, give, fail, try}
use nats_guest_access.Access.{
  Service, slot_key, session_key, forgive_missing, join, delete_if_exists,
}

abbrev pub second : ℕ
second = 1000000000

-- 5s, 10s, ... for the first attempt, the second, ..., and 160s from the sixth on.
unfoldable pub retry_delay : ℕ → ℕ
retry_delay attempt =
    let attempt = if ltb 6 attempt then 6 else attempt in
    let attempt = if ltb attempt 1 then 1 else attempt in 2 ^ (attempt - 1) * (5 * second)

-- ConfigureCleanupLease, `none` where its sum of int64 durations wraps to a negative lease, which
-- a service here does not have.
unfoldable pub configure_cleanup_lease : Service → ℕ → Option Service
configure_cleanup_lease s timeout =
    let lease = timeout + 15 * second in
    if ltb lease (2 ^ 63) then some (record s { cleanup_lease = lease }) else none

-- The progress that a failed attempt stores.
unfoldable pub after_failure : CleanupProgress → ℕ → CleanupProgress
unfolding retry_delay
after_failure progress time = record progress {
  last_error = "application_cleanup_failed";
  next_attempt_at = time + retry_delay progress.attempts;
}

-- The cleaner's answer, an error unless it counts exactly `expected` identities.
unfoldable pub acknowledged : ℕ → Result ℕ → Result ℕ
acknowledged expected (ok count) = if count == expected then ok count else err (failure incomplete)
acknowledged expected (err e) = err e

module _ (p : Platform) where
  unfoldable pub started : Option CleanupProgress → ℕ → Action p.Bytes CleanupProgress
  unfolding World.new_uuid
  started (some progress) time = pure progress
  started none time = do
    id ← World.new_uuid p
    pure (record { id = id; attempts = 0; started_at = time; next_attempt_at = 0; last_error = "" })

  unfoldable pub claim_cleanup : Option CleanupProgress → ℕ → ℕ → Action p.Bytes CleanupProgress
  unfolding started
  claim_cleanup progress time lease = do
    current ← started progress time
    if ltb time current.next_attempt_at
        then fail cleanup_pending
        else pure
            (record current { attempts = current.attempts + 1; next_attempt_at = time + lease })

  -- After the cleaner's answer: a failure is stored for a later attempt, and only a complete
  -- acknowledgement deletes the slot and its session index.
  unfoldable pub settle_slot :
      Slot → CleanupProgress → String → ℕ → Result ℕ → Action p.Bytes (Unit {0})
  unfolding after_failure join delete_if_exists forgive_missing World.now World.update
      World.delete_revision
  settle_slot slot progress key revision (err e) = do
    time ← World.now
    let failed = record slot { cleanup = some (after_failure progress time) }
    saved ← try (World.update key (p.encode_slot failed) revision)
    give (err (join e saved))
  settle_slot slot progress key revision (ok count) = do
    delete_if_exists (session_key slot.resume_digest)
    gone ← try (World.delete_revision key revision)
    give (forgive_missing gone)

  unfoldable pub clean_slot : Service → Event → Slot → ℕ → Action p.Bytes (Unit {0})
  unfolding claim_cleanup settle_slot acknowledged World.now World.update World.cleanup
  clean_slot s event slot revision = if not s.cleaner then give (err (failure unconfigured)) else do
    time ← World.now
    progress ← claim_cleanup slot.cleanup time s.cleanup_lease
    let claimed = record slot { cleanup = some progress }
    let key = slot_key event.id slot.number
    revision' ← World.update key (p.encode_slot claimed) revision
    answer ← try (
        World.cleanup (record {
          deletion_id = progress.id;
          application_id = event.application_id;
          event_id = event.id;
          subjects = slot.subject ∷ [];
          reason = "guest_slot_released";
        }))
    settle_slot claimed progress key revision' (acknowledged 1 answer)
