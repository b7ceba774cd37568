-- ===== src/Access/Purge.antt =====
-- internal/access/recovery.go: cleanSlot and what the application's cleaner acknowledged.
pub mod Events
pub mod Listing
use nats_guest_access.Prelude.{
  ℕ, ◌<◌, String, ◌≡◌, refl, inr, not, ltb, Option, none, some, List, [], ◌∷◌, arith,
}
use nats_guest_access.Errors.{Result, ok, err}
use nats_guest_access.Model.{CleanupProgress, Event, Slot}
use nats_guest_access.Platform.{Platform}
use nats_guest_access.Store.{Call, revision_limit}
use nats_guest_access.World.{World, CleanupRequest}
use nats_guest_access.World.Logic.{Assertion, Fact, nothing, IsSound, Post, Keeps}
use nats_guest_access.World.Rules.{
  plain, tried, Keeps-bind, Keeps-try, Keeps-give, Keeps-done, Keeps-plain, Keeps-if, Keeps-fail,
  Keeps-error,
}
use nats_guest_access.World.Primitives.{
  Permitted, Patient, Keeps-update, Keeps-delete, Keeps-delete_revision, Keeps-now, Keeps-new_uuid,
}
use nats_guest_access.World.Answers.{Logged, answered, Keeps-cleanup_answered, result_fact}
use nats_guest_access.Access.{Service, slot_key, session_key, forgive_missing, delete_if_exists}
use nats_guest_access.Access.Cleanup

-- No invariant: these theorems are about any store and any interference.
abbrev pub anything : {V : Type 0} → Assertion V
anything m done = Unit

module _ (p : Platform) where
  free : {F : Assertion p.Bytes} (c : Call p.Bytes) → Permitted anything F c
  free c = record { at = λ m done h fresh i f. tt }

  idle : Patient {V = p.Bytes} anything
  idle r m done i = tt

  -- That an erasure of the slot's guest, and of nobody else, was acknowledged.
  abbrev pub purged : Event → Slot → Fact p.Bytes
  purged event slot = record {
    holds = λ m done.
        (r : CleanupRequest) × Logged r done
        × (r.subjects ≡ slot.subject ∷ [])
        × (r.event_id ≡ event.id)
        × (r.application_id ≡ event.application_id);
    call_keeps = λ c m done h x. x;
    answer_keeps = λ other m done x. (x.0, inr x.1, x.2, x.3, x.4);
  }

  Keeps-delete_if_exists :
      (F : Fact p.Bytes) (key : String) → Keeps anything F (delete_if_exists key) plain
  unfolding delete_if_exists
  Keeps-delete_if_exists F key =
      Keeps-bind (Keeps-try (Keeps-delete key (free (Call.deleting key)))) λ gone. Keeps-plain _

  Keeps-started :
      (F : Fact p.Bytes) (progress : Option CleanupProgress) (time : ℕ)
      → Keeps anything F (Cleanup.started p progress time) plain
  unfolding Cleanup.started
  Keeps-started F none time = Keeps-bind (Keeps-new_uuid p) λ u. Keeps-done _
  Keeps-started F (some progress) time = Keeps-done progress

  Keeps-claim_cleanup :
      (F : Fact p.Bytes) (progress : Option CleanupProgress) (time lease : ℕ)
      → Keeps anything F (Cleanup.claim_cleanup p progress time lease) plain
  unfolding Cleanup.claim_cleanup
  Keeps-claim_cleanup F progress time lease =
      Keeps-bind (Keeps-started F progress time) λ current.
        Keeps-if (ltb time current.next_attempt_at) (λ _. Keeps-fail _) (λ _. Keeps-done _)

  Keeps-settle_slot :
      (F : Fact p.Bytes) (G : Unit {0} → Fact p.Bytes) (slot : Slot) (progress : CleanupProgress)
      (key : String) (revision : ℕ) (r : Result ℕ)
      → ((count : ℕ)
          → r ≡ ok count
          → (m : _) (done : List CleanupRequest) → F.holds m done
          → (G tt).holds m done)
      → Keeps anything F (Cleanup.settle_slot p slot progress key revision r) G
  unfolding Cleanup.settle_slot
  Keeps-settle_slot F G slot progress key revision (err e) k =
      Keeps-bind Keeps-now
        λ time. Keeps-bind (Keeps-try (Keeps-update key _ revision (free _))) λ saved. Keeps-error _
  Keeps-settle_slot F G slot progress key revision (ok count) k =
      Keeps-bind (Keeps-delete_if_exists F (session_key slot.resume_digest)) λ u.
        Keeps-bind (Keeps-try (Keeps-delete_revision key revision (free _))) λ gone.
          Keeps-give anything _ G (forgive_missing gone) (λ a q m done x. k count refl m done x.0.0)

  -- A count that is accepted is the cleaner's, and it is the expected one.
  pub accepted :
      (expected : ℕ) (answer : Result ℕ) (count : ℕ)
      → Cleanup.acknowledged expected answer ≡ ok count
      → (answer ≡ ok count) × (count ≡ expected)
  unfolding Cleanup.acknowledged
  accepted expected (ok n) count h = ground arith
  accepted expected (err e) count h = absurd (cc)

  pub logged :
      (r : CleanupRequest) (answer : Result ℕ) (count : ℕ) (m : _) (done : List CleanupRequest)
      → answer ≡ ok count
      → (tried (answered {V = p.Bytes} r) answer).holds m done
      → (answered {V = p.Bytes} r count).holds m done
  logged r answer count m done e x = rw e at x

  module _ (s : Service) where
    Keeps-clean_slot :
        (F : Fact p.Bytes) (event : Event) (slot : Slot) (revision : ℕ)
        → Keeps anything F (Cleanup.clean_slot p s event slot revision) (λ u. purged event slot)
    unfolding Cleanup.clean_slot
    Keeps-clean_slot F event slot revision =
        Keeps-if (not s.cleaner) (λ _. Keeps-error _)
          λ configured. Keeps-bind Keeps-now λ time.
            Keeps-bind (Keeps-claim_cleanup _ slot.cleanup time s.cleanup_lease) λ progress.
              Keeps-bind (Keeps-update (slot_key event.id slot.number) _ revision (free _))
                λ revision'.
                  let request : CleanupRequest = record {
                    deletion_id = progress.id;
                    application_id = event.application_id;
                    event_id = event.id;
                    subjects = slot.subject ∷ [];
                    reason = "guest_slot_released";
                  } in
                  Keeps-bind (Keeps-try (Keeps-cleanup_answered _ request idle)) λ answer.
                    Keeps-settle_slot _ (λ u. purged event slot)
                      (record slot { cleanup = some progress }) progress
                      (slot_key event.id slot.number) revision' (Cleanup.acknowledged 1 answer)
                      (λ count q m done x.
                        let (e, one) = accepted 1 answer count q in
                        (request, logged request answer count m done e x.1 one, refl, refl, refl))

    -- If cleanSlot ends without an error, the cleaner has acknowledged a request with the slot's
    -- guest as its only subject, with this event and its application, whatever others do, as
    -- long as the entries' revisions are those that the store gave out and fewer calls than
    -- revisions were made.
    pub clean_slot-purged :
        (event : Event) (slot : Slot) (revision : ℕ) (w : World p.Bytes)
        → IsSound anything nothing.holds w
        → (Cleanup.clean_slot p s event slot revision w).0 ≡ ok tt
        → (Cleanup.clean_slot p s event slot revision w).1.calls < revision_limit
        → (r : CleanupRequest) × Logged r
            (Cleanup.clean_slot p s event slot revision w).1.acknowledged
          × (r.subjects ≡ slot.subject ∷ [])
          × (r.event_id ≡ event.id)
          × (r.application_id ≡ event.application_id)
    clean_slot-purged event slot revision w h done left =
        let after = Cleanup.clean_slot p s event slot revision w in
        result_fact anything nothing (λ u. purged event slot) after.0 tt after.1
          ((Keeps-clean_slot nothing event slot revision).at w (λ _. h)) done left
