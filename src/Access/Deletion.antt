-- ===== src/Access/Deletion.antt =====
-- internal/access/service.go and internal/access/recovery.go: receipts, the deletion of an event
-- and the reclaiming of one slot by a presenter.
use text.Mathlib.Text.{is_lt}
use Prim.Native.String.{compare}
use nats_guest_access.Prelude.{
  ℕ, zero, suc, String, Bool, true, not, ◌||◌, none, some, List, [], ◌∷◌, str_eq, if◌then◌else◌,
  length, sort_by,
}
use nats_guest_access.Errors.{
  failure, forbidden, conflict, not_found, store_exists, unconfigured, decoding, is, Result, ok,
  err,
}
use nats_guest_access.Model
use nats_guest_access.Model.{
  deleting, operate, inspect, CleanupProgress, Event, Slot, SessionIndex, DeletionReceipt,
}
use nats_guest_access.Platform.{Platform}
use nats_guest_access.Store.{Entry}
use nats_guest_access.World
use nats_guest_access.World.{Action, ◌>>=◌, ◌>>◌, pure, give, fail, try, handle, or_fail}
use nats_guest_access.Access.{
  Service, event_key, invitation_key, session_key, slot_prefix, receipt_key, same_state, can,
  on_missing, forgive_missing, join, retry, load_event, load_slot, delete_if_exists,
}
use nats_guest_access.Access.Events.{get_event}
use nats_guest_access.Access.Cleanup.{after_failure, acknowledged, claim_cleanup, clean_slot}

-- principal == OwnerSubject || principal == DeletedBySubject
unfoldable pub may_read : DeletionReceipt → String → Bool
may_read r principal = str_eq principal r.owner_subject || str_eq principal r.deleted_by_subject

-- sort.Strings
unfoldable pub sort_texts : List String → List String
unfolding sort_by
sort_texts = sort_by (λ a b. is_lt (compare a b))

-- A deletion that was tracked before cleanup had durable progress.
unfoldable pub upgraded : Event → Event
upgraded event = elim event.cleanup [
  | some progress ↦ event
  | none ↦ record event {
    cleanup = some (record {
      id = event.deletion_id;
      attempts = 0;
      started_at = event.updated_at;
      next_attempt_at = 0;
      last_error = "";
    });
    deleted_by_subject = event.owner_subject;
  }
]

unfoldable pub receipt_of : Event → ℕ → ℕ → DeletionReceipt
receipt_of event time count = record {
  deletion_id = event.deletion_id;
  event_id = event.id;
  application_id = event.application_id;
  owner_subject = event.owner_subject;
  deleted_by_subject = event.deleted_by_subject;
  created_at = event.created_at;
  deleted_at = time;
  identities_deleted = count;
}

-- The event as DeleteEvent stores it, with the two readings of the clock.
unfoldable pub marked_deleting : Event → String → String → ℕ → ℕ → Event
marked_deleting event principal id started_at updated_at = record event {
  state = deleting;
  deletion_id = id;
  deleted_by_subject = principal;
  cleanup = some (record {
    id = id;
    attempts = 0;
    started_at = started_at;
    next_attempt_at = 0;
    last_error = "";
  });
  updated_at = updated_at;
}

module _ (p : Platform) where
  unfoldable pub subjects_of : List (String × Entry p.Bytes) → Result (List String)
  subjects_of [] = ok []
  subjects_of ((key, entry) ∷ others) =
      let more = subjects_of others in
      elim (p.decode_slot entry.value) [
        | none ↦ err (failure decoding)
        | some slot ↦ elim more [ ok ss ↦ ok (slot.subject ∷ ss) | err e ↦ err e ]
      ]

module _ (p : Platform) where
  unfoldable pub receipt : String → Action p.Bytes DeletionReceipt
  unfolding on_missing World.get
  receipt event_id = do
    found ← try (World.get (receipt_key event_id))
    entry ← give (on_missing not_found found)
    give (or_fail decoding (p.decode_receipt entry.value))

  unfoldable pub get_receipt : String → String → Action p.Bytes DeletionReceipt
  unfolding receipt may_read
  get_receipt principal event_id = do
    r ← receipt event_id
    if may_read r principal then pure r else fail forbidden

  -- The index of a deleted session stays, marked, so that its holder learns of the deletion.
  unfoldable pub mark_attempts : ℕ → Slot → Action p.Bytes (Unit {0})
  unfolding retry World.get World.update
  mark_attempts zero slot = fail conflict
  mark_attempts (suc n) slot = do
    found ← try (World.get (session_key slot.resume_digest))
    handle found
        (λ entry. do
          let index : SessionIndex = record {
            deleted = true;
            event_id = slot.event_id;
            slot = slot.number;
          }
          let key = session_key slot.resume_digest
          saved ← try (World.update key (p.encode_index index) entry.revision)
          retry saved (mark_attempts n slot) (pure tt))
        λ e. give (forgive_missing (err e))

  unfoldable pub mark_session_deleted : Slot → Action p.Bytes (Unit {0})
  unfolding mark_attempts
  mark_session_deleted = mark_attempts 5

  unfoldable pub finalize_slots : List (String × Entry p.Bytes) → Action p.Bytes (Unit {0})
  unfolding mark_session_deleted forgive_missing World.delete_revision
  finalize_slots [] = pure tt
  finalize_slots ((key, entry) ∷ others) = do
    slot ← give (or_fail decoding (p.decode_slot entry.value))
    mark_session_deleted slot
    gone ← try (World.delete_revision key entry.revision)
    give (forgive_missing gone)
    finalize_slots others

  unfoldable pub finalize_event : Event → ℕ → Action p.Bytes (Unit {0})
  unfolding finalize_slots delete_if_exists forgive_missing World.list World.delete_revision
  finalize_event event revision = do
    entries ← World.list (slot_prefix event.id)
    finalize_slots entries
    delete_if_exists (invitation_key event.invitation_digest)
    gone ← try (World.delete_revision (event_key event.id) revision)
    give (forgive_missing gone)

  -- The receipt that counts: an earlier one, if there is one.
  unfoldable pub save_receipt : Event → ℕ → Action p.Bytes DeletionReceipt
  unfolding receipt receipt_of World.now World.create
  save_receipt event count = do
    time ← World.now
    let r = receipt_of event time count
    created ← try (World.create (receipt_key event.id) (p.encode_receipt r))
    handle created (λ revision. pure r)
        λ e. if is e store_exists then receipt event.id else give (err e)

  -- After the cleaner's answer for a claimed event.
  unfoldable pub settle_event :
      Event → CleanupProgress → ℕ → Result ℕ → Action p.Bytes DeletionReceipt
  unfolding after_failure join save_receipt finalize_event World.now World.update
  settle_event event progress revision (err e) = do
    time ← World.now
    let failed = record event { cleanup = some (after_failure progress time) }
    saved ← try (World.update (event_key event.id) (p.encode_event failed) revision)
    give (err (join e saved))
  settle_event event progress revision (ok count) = do
    r ← save_receipt event count
    finalize_event event revision
    pure r

module _ (p : Platform) (s : Service) where
  -- The claim of an event's cleanup, stored before the cleaner is called.
  unfoldable pub claim_event : Event → ℕ → Action p.Bytes (CleanupProgress × ℕ)
  unfolding claim_cleanup World.now World.update
  claim_event event revision = do
    time ← World.now
    progress ← claim_cleanup p event.cleanup time s.cleanup_lease
    let claimed = record event { cleanup = some progress }
    revision' ← World.update (event_key event.id) (p.encode_event claimed) revision
    pure (progress, revision')

  -- The erasure of the guests in the slots that were listed.
  unfoldable pub erase_listed :
      Event → CleanupProgress → ℕ → List (String × Entry p.Bytes) → Action p.Bytes DeletionReceipt
  unfolding subjects_of sort_texts acknowledged settle_event World.cleanup
  erase_listed event progress revision entries = do
    subjects ← give (subjects_of p entries)
    answer ← try (
        World.cleanup (record {
          deletion_id = event.deletion_id;
          application_id = event.application_id;
          event_id = event.id;
          subjects = sort_texts subjects;
          reason = "demo_event_deleted";
        }))
    settle_event p (record event { cleanup = some progress }) progress revision
        (acknowledged (length subjects) answer)

  -- cleanEvent where there is no receipt yet.
  unfoldable pub erase_event : Event → ℕ → Action p.Bytes DeletionReceipt
  unfolding upgraded claim_event erase_listed World.list
  erase_event given revision = if not s.cleaner then give (err (failure unconfigured)) else do
    let event = upgraded given
    (progress, revision') ← claim_event event revision
    entries ← World.list (slot_prefix event.id)
    erase_listed event progress revision' entries

  unfoldable pub clean_event : Event → ℕ → Action p.Bytes DeletionReceipt
  unfolding erase_event receipt finalize_event
  clean_event event revision = do
    found ← try (receipt p event.id)
    handle found (λ r. do finalize_event p event revision; pure r)
        λ e. if is e not_found then erase_event event revision else give (err e)

  unfoldable pub delete_loaded : String → String → Event → ℕ → Action p.Bytes DeletionReceipt
  unfolding can same_state marked_deleting clean_event World.now World.new_uuid World.update
  delete_loaded principal event_id event revision =
      if not (can event principal Model.delete)
      then fail forbidden
      else if not s.cleaner
      then give (err (failure unconfigured))
      else if same_state event.state deleting
      then clean_event event revision
      else do
        id ← World.new_uuid p
        started_at ← World.now
        updated_at ← World.now
        let event' = marked_deleting event principal id started_at updated_at
        revision' ← World.update (event_key event_id) (p.encode_event event') revision
        clean_event event' revision'

  unfoldable pub delete_event : String → String → Action p.Bytes DeletionReceipt
  unfolding load_event get_receipt delete_loaded
  delete_event principal event_id = do
    loaded ← try (load_event p event_id)
    handle loaded (λ l. delete_loaded principal event_id l.0 l.1)
        λ e. if is e not_found then get_receipt p principal event_id else give (err e)

  unfoldable pub release_slot : String → String → ℕ → Action p.Bytes (Unit {0})
  unfolding get_event can same_state load_slot clean_slot
  release_slot principal event_id number = do
    event ← get_event p principal event_id
    if not (can event principal operate)
        then fail forbidden
        else if same_state event.state deleting
        then fail conflict
        else do (slot, revision) ← load_slot p event_id number; clean_slot p s event slot revision
