-- ===== src/Access/Terminal/Cleanup.antt =====
-- internal/access/recovery.go and ReleaseSlot of service.go, on a store with a started deletion.
use nats_guest_access.Prelude.{ℕ, String, not, Option, none, some, ltb}
use nats_guest_access.Errors.{Result, ok, err}
use nats_guest_access.Model.{deleting, operate, Event, Slot, CleanupProgress}
use nats_guest_access.Platform.{Platform}
use nats_guest_access.World.Logic.{Fact, Keeps}
use nats_guest_access.World.Rules.{
  plain, Keeps-bind, Keeps-try, Keeps-done, Keeps-plain, Keeps-if, Keeps-fail, Keeps-error,
}
use nats_guest_access.World.Primitives.{
  Patient, Keeps-update, Keeps-delete, Keeps-delete_revision, Keeps-now, Keeps-new_uuid,
  Keeps-cleanup,
}
use nats_guest_access.Access.{
  Service, session_key, slot_key, same_state, can, is_member, delete_if_exists,
}
use nats_guest_access.Access.Keys.{not_event_slot}
use nats_guest_access.Access.Loaded.{Keeps-load_event, Keeps-load_slot}
use nats_guest_access.Access.Terminal.{Terminal, other_kind, removal, removal_any}
use nats_guest_access.Access.Events
use nats_guest_access.Access.Cleanup
use nats_guest_access.Access.Deletion

module _ (p : Platform) (id : String) where
  pub patient : Patient (Terminal p id)
  patient r m done i = i

  pub Keeps-delete_if_exists :
      (F : Fact p.Bytes) (key : String) → Keeps (Terminal p id) F (delete_if_exists key) plain
  unfolding delete_if_exists
  Keeps-delete_if_exists F key =
      Keeps-bind (Keeps-try (Keeps-delete key (removal_any p id key))) λ gone. Keeps-plain _

  Keeps-started :
      (F : Fact p.Bytes) (progress : Option CleanupProgress) (time : ℕ)
      → Keeps (Terminal p id) F (Cleanup.started p progress time) plain
  unfolding Cleanup.started
  Keeps-started F none time = Keeps-bind (Keeps-new_uuid p) λ u. Keeps-done _
  Keeps-started F (some progress) time = Keeps-done progress

  pub Keeps-claim_cleanup :
      (F : Fact p.Bytes) (progress : Option CleanupProgress) (time lease : ℕ)
      → Keeps (Terminal p id) F (Cleanup.claim_cleanup p progress time lease) plain
  unfolding Cleanup.claim_cleanup
  Keeps-claim_cleanup F progress time lease =
      Keeps-bind (Keeps-started F progress time) λ current.
        Keeps-if (ltb time current.next_attempt_at) (λ _. Keeps-fail _) (λ _. Keeps-done _)

  Keeps-settle_slot :
      (F : Fact p.Bytes) (event_id : String) (n : ℕ) (slot : Slot) (progress : CleanupProgress)
      (revision : ℕ) (r : Result ℕ)
      → Keeps
          (Terminal p id)
          F
          (Cleanup.settle_slot p slot progress (slot_key event_id n) revision r)
          plain
  unfolding Cleanup.settle_slot
  Keeps-settle_slot F event_id n slot progress revision (err e) = Keeps-bind Keeps-now λ time.
      Keeps-bind
        (Keeps-try (
          Keeps-update (slot_key event_id n) _ revision
            (other_kind p id _ (not_event_slot event_id n))))
        λ saved. Keeps-error _
  Keeps-settle_slot F event_id n slot progress revision (ok count) =
      Keeps-bind (Keeps-delete_if_exists F (session_key slot.resume_digest)) λ u.
        Keeps-bind
          (Keeps-try
            (Keeps-delete_revision (slot_key event_id n) revision (removal p id _ revision)))
          λ gone. Keeps-plain _

  pub Keeps-get_event :
      (F : Fact p.Bytes) (principal event_id : String)
      → Keeps (Terminal p id) F (Events.get_event p principal event_id) plain
  unfolding Events.get_event
  Keeps-get_event F principal event_id =
      Keeps-bind (Keeps-load_event p event_id)
        λ l. Keeps-if (is_member l.0 principal) (λ _. Keeps-done l.0) (λ _. Keeps-fail _)

  module _ (s : Service) where
    pub Keeps-clean_slot :
        (F : Fact p.Bytes) (event : Event) (slot : Slot) (revision : ℕ)
        → Keeps (Terminal p id) F (Cleanup.clean_slot p s event slot revision) plain
    unfolding Cleanup.clean_slot
    Keeps-clean_slot F event slot revision =
        Keeps-if (not s.cleaner) (λ _. Keeps-error _)
          λ configured. Keeps-bind Keeps-now λ time.
            Keeps-bind (Keeps-claim_cleanup _ slot.cleanup time s.cleanup_lease) λ progress.
              Keeps-bind
                (Keeps-update (slot_key event.id slot.number) _ revision
                  (other_kind p id _ (not_event_slot event.id slot.number)))
                λ revision'. Keeps-bind (Keeps-try (Keeps-cleanup _ patient)) λ answer.
                  Keeps-settle_slot _ event.id slot.number (record slot { cleanup = some progress })
                    progress revision' _

    pub Keeps-release_slot :
        (F : Fact p.Bytes) (principal event_id : String) (n : ℕ)
        → Keeps (Terminal p id) F (Deletion.release_slot p s principal event_id n) plain
    unfolding Deletion.release_slot
    Keeps-release_slot F principal event_id n =
        Keeps-bind (Keeps-get_event F principal event_id) λ event.
          Keeps-if (not (can event principal operate)) (λ _. Keeps-fail _)
            λ allowed.
              Keeps-if (same_state event.state deleting) (λ _. Keeps-fail _)
                λ live.
                  Keeps-bind (Keeps-load_slot p event_id n) λ l. Keeps-clean_slot _ event l.0 l.1
