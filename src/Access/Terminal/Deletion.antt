-- ===== src/Access/Terminal/Deletion.antt =====
-- DeleteEvent of internal/access/service.go and what it calls, on a store with a started deletion.
use nats_guest_access.Prelude.{
  arith, ℕ, zero, suc, String, ◌≡◌, ◌∙◌, true, not, some, List, [], ◌∷◌, refl,
}
use nats_guest_access.Errors.{store_exists, not_found, is, Result, ok, err}
use nats_guest_access.Model
use nats_guest_access.Model.{deleting, Event, Slot, CleanupProgress}
use nats_guest_access.Platform.{Platform, IsLawful}
use nats_guest_access.Store.{Entry}
use nats_guest_access.World.Logic.{Fact, Keeps}
use nats_guest_access.World.Rules.{
  plain, Keeps-bind, Keeps-try, Keeps-check, Keeps-done, Keeps-plain, Keeps-if, Keeps-handle,
  Keeps-fail, Keeps-error,
}
use nats_guest_access.World.Primitives.{
  Keeps-create, Keeps-update, Keeps-delete_revision, Keeps-list, Keeps-now, Keeps-new_uuid,
  Keeps-get, Keeps-cleanup,
}
use nats_guest_access.Access.{
  Service, event_key, session_key, receipt_key, slot_prefix, same_state, can,
}
use nats_guest_access.Access.Keys.{not_event_session, not_event_receipt}
use nats_guest_access.Access.Loaded.{Keeps-load_event, Keeps-retry}
use nats_guest_access.Access.Terminal.{Terminal, other_kind, removal, write_deleting}
use nats_guest_access.Access.Terminal.Cleanup.{Keeps-delete_if_exists, Keeps-claim_cleanup, patient}
use nats_guest_access.Access.Deletion
use nats_guest_access.Access.Cleanup

pub is_deleting : (s : Model.EventState) → same_state s deleting ≡ true → s ≡ deleting
unfolding same_state
is_deleting s h = ground arith

module _ (p : Platform) (laws : IsLawful p) (id : String) where
  Keeps-receipt :
      (F : Fact p.Bytes) (event_id : String)
      → Keeps (Terminal p id) F (Deletion.receipt p event_id) plain
  unfolding Deletion.receipt
  Keeps-receipt F event_id =
      Keeps-bind (Keeps-try (Keeps-get (receipt_key event_id)))
        λ found. Keeps-check _ λ entry q. Keeps-plain _

  pub Keeps-get_receipt :
      (F : Fact p.Bytes) (principal event_id : String)
      → Keeps (Terminal p id) F (Deletion.get_receipt p principal event_id) plain
  unfolding Deletion.get_receipt
  Keeps-get_receipt F principal event_id =
      Keeps-bind (Keeps-receipt F event_id)
        λ r. Keeps-if (Deletion.may_read r principal) (λ _. Keeps-done r) (λ _. Keeps-fail _)

  Keeps-mark_attempts :
      (n : ℕ) (F : Fact p.Bytes) (slot : Slot)
      → Keeps (Terminal p id) F (Deletion.mark_attempts p n slot) plain
  unfolding Deletion.mark_attempts
  Keeps-mark_attempts zero F slot = Keeps-fail _
  Keeps-mark_attempts (suc n) F slot =
      Keeps-bind (Keeps-try (Keeps-get (session_key slot.resume_digest))) λ found.
        Keeps-handle found
          (λ entry q.
            Keeps-bind
              (Keeps-try (
                Keeps-update (session_key slot.resume_digest) _ entry.revision
                  (other_kind p id _ (not_event_session _))))
              λ saved. Keeps-retry saved (Keeps-mark_attempts n _ slot) (Keeps-done tt))
          (λ e q. Keeps-plain _)

  Keeps-finalize_slots :
      (entries : List (String × Entry p.Bytes)) (F : Fact p.Bytes)
      → Keeps (Terminal p id) F (Deletion.finalize_slots p entries) plain
  unfolding Deletion.finalize_slots Deletion.mark_session_deleted
  Keeps-finalize_slots [] F = Keeps-done tt
  Keeps-finalize_slots ((key, entry) ∷ others) F = Keeps-check _ λ slot q.
      Keeps-bind (Keeps-mark_attempts 5 _ slot) λ u.
        Keeps-bind (Keeps-try (Keeps-delete_revision key entry.revision (removal p id key _)))
          λ gone. Keeps-bind (Keeps-plain _) λ v. Keeps-finalize_slots others _

  pub Keeps-finalize_event :
      (F : Fact p.Bytes) (event : Event) (revision : ℕ)
      → Keeps (Terminal p id) F (Deletion.finalize_event p event revision) plain
  unfolding Deletion.finalize_event
  Keeps-finalize_event F event revision = Keeps-bind (Keeps-list (slot_prefix event.id)) λ entries.
      Keeps-bind (Keeps-finalize_slots entries _) λ u.
        Keeps-bind (Keeps-delete_if_exists p id _ _) λ v.
          Keeps-bind
            (Keeps-try
              (Keeps-delete_revision (event_key event.id) revision (removal p id _ revision)))
            λ gone. Keeps-plain _

  pub Keeps-save_receipt :
      (F : Fact p.Bytes) (event : Event) (count : ℕ)
      → Keeps (Terminal p id) F (Deletion.save_receipt p event count) plain
  unfolding Deletion.save_receipt
  Keeps-save_receipt F event count = Keeps-bind Keeps-now λ time.
      Keeps-bind
        (Keeps-try
          (Keeps-create (receipt_key event.id) _ (other_kind p id _ (not_event_receipt event.id))))
        λ created.
          Keeps-handle created (λ r q. Keeps-done _)
            (λ e q.
              Keeps-if (is e store_exists) (λ _. Keeps-receipt _ event.id) (λ _. Keeps-error e))

  Keeps-settle_event :
      (F : Fact p.Bytes) (event : Event) (progress : CleanupProgress) (revision : ℕ) (r : Result ℕ)
      → event.state ≡ deleting
      → Keeps (Terminal p id) F (Deletion.settle_event p event progress revision r) plain
  unfolding Deletion.settle_event
  Keeps-settle_event F event progress revision (err e) gone = Keeps-bind Keeps-now λ time.
      Keeps-bind
        (Keeps-try (
          Keeps-update (event_key event.id) _ revision (
            write_deleting p id laws event.id
              (record event { cleanup = some (Cleanup.after_failure progress time) }) revision
              gone)))
        λ saved. Keeps-error _
  Keeps-settle_event F event progress revision (ok count) gone =
      Keeps-bind (Keeps-save_receipt _ event count)
        λ r. Keeps-bind (Keeps-finalize_event _ event revision) λ u. Keeps-done r

  pub upgraded-state : (event : Event) → (Deletion.upgraded event).state ≡ event.state
  unfolding Deletion.upgraded
  upgraded-state event = ground arith

  module _ (s : Service) where
    pub Keeps-claim_event :
        (F : Fact p.Bytes) (event : Event) (revision : ℕ)
        → event.state ≡ deleting
        → Keeps (Terminal p id) F (Deletion.claim_event p s event revision) plain
    unfolding Deletion.claim_event
    Keeps-claim_event F event revision gone = Keeps-bind Keeps-now λ time.
        Keeps-bind (Keeps-claim_cleanup p id _ event.cleanup time s.cleanup_lease) λ progress.
          Keeps-bind
            (Keeps-update (event_key event.id) _ revision (
              write_deleting p id laws event.id (record event { cleanup = some progress }) revision
                gone))
            λ revision'. Keeps-done _

    Keeps-erase_listed :
        (F : Fact p.Bytes) (event : Event) (progress : CleanupProgress) (revision : ℕ)
        (entries : List (String × Entry p.Bytes))
        → event.state ≡ deleting
        → Keeps (Terminal p id) F (Deletion.erase_listed p s event progress revision entries) plain
    unfolding Deletion.erase_listed
    Keeps-erase_listed F event progress revision entries gone = Keeps-check _ λ subjects q.
        Keeps-bind (Keeps-try (Keeps-cleanup _ (patient p id))) λ answer.
          Keeps-settle_event _ (record event { cleanup = some progress }) progress revision _ gone

    Keeps-erase_event :
        (F : Fact p.Bytes) (event : Event) (revision : ℕ)
        → event.state ≡ deleting
        → Keeps (Terminal p id) F (Deletion.erase_event p s event revision) plain
    unfolding Deletion.erase_event
    Keeps-erase_event F given revision gone =
        let event = Deletion.upgraded given in
        let still : event.state ≡ deleting = upgraded-state given ∙ gone in
        Keeps-if (not s.cleaner) (λ _. Keeps-error _)
          λ configured. Keeps-bind (Keeps-claim_event _ event revision still) λ claimed.
            Keeps-bind (Keeps-list (slot_prefix event.id))
              λ entries. Keeps-erase_listed _ event claimed.0 claimed.1 entries still

    pub Keeps-clean_event :
        (F : Fact p.Bytes) (event : Event) (revision : ℕ)
        → event.state ≡ deleting
        → Keeps (Terminal p id) F (Deletion.clean_event p s event revision) plain
    unfolding Deletion.clean_event
    Keeps-clean_event F event revision gone =
        Keeps-bind (Keeps-try (Keeps-receipt _ event.id)) λ found.
          Keeps-handle found
            (λ r q. Keeps-bind (Keeps-finalize_event _ event revision) λ u. Keeps-done r)
            (λ e q.
              Keeps-if (is e not_found) (λ _. Keeps-erase_event _ event revision gone)
                (λ _. Keeps-error e))

    Keeps-delete_loaded :
        (F : Fact p.Bytes) (principal event_id : String) (event : Event) (revision : ℕ)
        → Keeps
            (Terminal p id)
            F
            (Deletion.delete_loaded p s principal event_id event revision)
            plain
    unfolding Deletion.delete_loaded Deletion.marked_deleting
    Keeps-delete_loaded F principal event_id event revision =
        Keeps-if (not (can event principal Model.delete)) (λ _. Keeps-fail _)
          λ allowed.
            Keeps-if (not s.cleaner) (λ _. Keeps-error _)
              λ configured.
                Keeps-if (same_state event.state deleting)
                  (λ already. Keeps-clean_event _ event revision (is_deleting _ already))
                  λ first. Keeps-bind (Keeps-new_uuid p) λ uuid. Keeps-bind Keeps-now λ started_at.
                    Keeps-bind Keeps-now λ updated_at.
                      Keeps-bind
                        (Keeps-update (event_key event_id) _ revision (
                          write_deleting p id laws event_id
                            (Deletion.marked_deleting event principal uuid started_at updated_at)
                            revision refl))
                        λ revision'.
                          Keeps-clean_event _
                            (Deletion.marked_deleting event principal uuid started_at updated_at)
                            revision' refl

    pub Keeps-delete_event :
        (F : Fact p.Bytes) (principal event_id : String)
        → Keeps (Terminal p id) F (Deletion.delete_event p s principal event_id) plain
    unfolding Deletion.delete_event
    Keeps-delete_event F principal event_id =
        Keeps-bind (Keeps-try (Keeps-load_event p event_id)) λ found.
          Keeps-handle found (λ l q. Keeps-delete_loaded _ principal event_id l.0 l.1)
            (λ e q.
              Keeps-if (is e not_found) (λ _. Keeps-get_receipt _ principal event_id)
                (λ _. Keeps-error e))
