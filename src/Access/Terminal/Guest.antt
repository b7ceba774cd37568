-- ===== src/Access/Terminal/Guest.antt =====
-- The requests of guests in internal/access/service.go, on a store with a started deletion.
use nats_guest_access.Prelude.{
  ℕ, zero, suc, ◌+◌, ◌==◌, String, not, ◌||◌, ◌&&◌, none, some, Option, ltb, str_eq,
}
use nats_guest_access.Errors.{store_exists, is, Result, ok, err}
use nats_guest_access.Model.{open_state, paused, deleting, deleted, Event, Slot, SessionIndex}
use nats_guest_access.Platform.{Platform}
use nats_guest_access.World
use nats_guest_access.World.{Action, or_fail}
use nats_guest_access.World.Logic.{Fact, Keeps}
use nats_guest_access.World.Rules.{
  plain, Keeps-bind, Keeps-try, Keeps-check, Keeps-done, Keeps-plain, Keeps-if, Keeps-handle,
  Keeps-fail, Keeps-error, Keeps-weaker,
}
use nats_guest_access.World.Primitives.{
  Keeps-create, Keeps-update, Keeps-delete_revision, Keeps-now, Keeps-new_uuid, Keeps-get,
  Keeps-random_secret,
}
use nats_guest_access.Access.{
  Service, session_key, slot_key, invitation_key, same_state, is_some, digest,
}
use nats_guest_access.Access.Keys.{not_event_slot, not_event_session}
use nats_guest_access.Access.Loaded.{Keeps-load_event, Keeps-load_slot, Keeps-retry}
use nats_guest_access.Access.Terminal.{Terminal, other_kind, removal}
use nats_guest_access.Access.Terminal.Cleanup.{Keeps-clean_slot}
use nats_guest_access.Access.Sessions

module _ (p : Platform) (s : Service) (id : String) where
  Keeps-mint :
      (F : Fact p.Bytes) (event : Event) (slot : Slot) (secret : String)
      → Keeps (Terminal p id) F (Sessions.mint p s event slot secret) plain
  unfolding Sessions.mint
  Keeps-mint F event slot secret =
      Keeps-bind Keeps-now
        λ time. Keeps-bind (Keeps-new_uuid p) λ u. Keeps-bind (Keeps-plain _) λ token. Keeps-done _

  Keeps-created_or_taken :
      (F : Fact p.Bytes) (r : Result ℕ)
      → Keeps (Terminal p id) F (Sessions.created_or_taken r) plain
  unfolding Sessions.created_or_taken
  Keeps-created_or_taken F (ok revision) = Keeps-done _
  Keeps-created_or_taken F (err e) =
      Keeps-if (is e store_exists) (λ _. Keeps-done _) (λ _. Keeps-error e)

  Keeps-reclaim :
      (F : Fact p.Bytes) (event : Event) (time : ℕ) (slot : Slot) (r : Result (Slot × ℕ))
      → Keeps (Terminal p id) F (Sessions.reclaim p s event time slot r) plain
  unfolding Sessions.reclaim
  Keeps-reclaim F event time slot (err e) = Keeps-done _
  Keeps-reclaim F event time slot (ok (existing, revision)) =
      Keeps-if (Sessions.is_held time existing) (λ _. Keeps-done _)
        λ _. Keeps-bind (Keeps-try (Keeps-clean_slot p id s _ event existing revision)) λ cleaned.
          Keeps-handle cleaned
            (λ u q.
              Keeps-bind
                (Keeps-try (
                  Keeps-create (slot_key event.id slot.number) _
                    (other_kind p id _ (not_event_slot event.id slot.number))))
                λ created. Keeps-created_or_taken _ created)
            (λ e q. Keeps-done _)

  Keeps-take_place :
      (F : Fact p.Bytes) (event : Event) (time : ℕ) (slot : Slot)
      → Keeps (Terminal p id) F (Sessions.take_place p s event time slot) plain
  unfolding Sessions.take_place
  Keeps-take_place F event time slot =
      Keeps-bind
        (Keeps-try (
          Keeps-create (slot_key event.id slot.number) _
            (other_kind p id _ (not_event_slot event.id slot.number))))
        λ created.
          Keeps-handle created (λ r q. Keeps-done _)
            (λ e q.
              Keeps-if (is e store_exists)
                (λ _.
                  Keeps-bind (Keeps-try (Keeps-load_slot p event.id slot.number))
                    λ existing. Keeps-reclaim _ event time slot existing)
                (λ _. Keeps-error e))

  Keeps-undo :
      (F : Fact p.Bytes) (key : String) (revision : ℕ)
      → Keeps (Terminal p id) F (World.try (World.delete_revision key revision)) plain
  Keeps-undo F key revision =
      Keeps-weaker (Keeps-try (Keeps-delete_revision key revision (removal p id key revision)))

  Keeps-confirm :
      (F : Fact p.Bytes) (event : Event) (slot : Slot) (secret : String) (revision : ℕ)
      (next : Action p.Bytes Sessions.Session)
      → ((K : Fact p.Bytes) → Keeps (Terminal p id) K next plain)
      → Keeps (Terminal p id) F (Sessions.confirm p s event slot secret revision next) plain
  unfolding Sessions.confirm
  Keeps-confirm F event slot secret revision next kn =
      Keeps-bind (Keeps-try (Keeps-load_event p event.id)) λ current.
        Keeps-handle current
          (λ l q.
            Keeps-if (not (same_state l.0.state open_state) || ltb l.0.capacity slot.number)
              (λ _. Keeps-bind (Keeps-undo _ _ revision) λ u. Keeps-fail _)
              (λ _.
                Keeps-bind
                  (Keeps-try (
                    Keeps-create (session_key slot.resume_digest) _
                      (other_kind p id _ (not_event_session _))))
                  λ indexed.
                    Keeps-handle indexed (λ r q. Keeps-mint _ event slot secret)
                      (λ e q. Keeps-bind (Keeps-undo _ _ revision) λ u. kn _)))
          (λ e q. Keeps-bind (Keeps-undo _ _ revision) λ u. Keeps-error e)

  Keeps-settle_place :
      (F : Fact p.Bytes) (event : Event) (slot : Slot) (secret : String)
      (next : Action p.Bytes Sessions.Session) (place : Option ℕ)
      → ((K : Fact p.Bytes) → Keeps (Terminal p id) K next plain)
      → Keeps (Terminal p id) F (Sessions.settle_place p s event slot secret next place) plain
  unfolding Sessions.settle_place
  Keeps-settle_place F event slot secret next none kn = kn F
  Keeps-settle_place F event slot secret next (some revision) kn =
      Keeps-confirm F event slot secret revision next kn

  Keeps-seat :
      (left number : ℕ) (F : Fact p.Bytes) (event : Event) (time : ℕ)
      → Keeps (Terminal p id) F (Sessions.seat p s event time left number) plain
  unfolding Sessions.seat
  Keeps-seat zero number F event time = Keeps-fail _
  Keeps-seat (suc left) number F event time = Keeps-bind (Keeps-random_secret p) λ secret.
      Keeps-bind (Keeps-new_uuid p) λ generation.
        let slot = Sessions.new_slot p s event number time secret generation in
        Keeps-bind (Keeps-take_place _ event time slot) λ place.
          Keeps-settle_place _ event slot secret _ place
            (λ K. Keeps-seat left (number + 1) K event time)

  pub Keeps-start_session :
      (F : Fact p.Bytes) (invitation : String)
      → Keeps (Terminal p id) F (Sessions.start_session p s invitation) plain
  unfolding Sessions.start_session
  Keeps-start_session F invitation =
      Keeps-if (s.max_capacity == 0) (λ _. Keeps-fail _)
        λ _. Keeps-bind (Keeps-try (Keeps-get (invitation_key (digest p s invitation)))) λ found.
          Keeps-check _ λ index q. Keeps-bind (Keeps-load_event p _) λ l.
            Keeps-if (same_state l.0.state paused) (λ _. Keeps-fail _)
              λ _.
                Keeps-if (not (same_state l.0.state open_state) || l.0.capacity == 0)
                  (λ _. Keeps-fail _)
                  λ _. Keeps-bind Keeps-now λ time. Keeps-seat l.0.capacity 1 _ l.0 time

  Keeps-renew_slot :
      (F : Fact p.Bytes) (secret_digest : String) (index : SessionIndex) (event : Event)
      (r : Result (Slot × ℕ)) (again : Action p.Bytes (Event × Slot))
      → ((K : Fact p.Bytes) → Keeps (Terminal p id) K again plain)
      → Keeps (Terminal p id) F (Sessions.renew_slot p s secret_digest index event r again) plain
  unfolding Sessions.renew_slot
  Keeps-renew_slot F secret_digest index event (err e) again ka = Keeps-fail _
  Keeps-renew_slot F secret_digest index event (ok (slot, revision)) again ka =
      Keeps-if (not (str_eq slot.resume_digest secret_digest)) (λ _. Keeps-fail _)
        λ _. Keeps-bind Keeps-now λ time.
          Keeps-if
            (is_some slot.cleanup || not slot.reserved && not (ltb time slot.grace_expires_at))
            (λ _. Keeps-fail _)
            λ _.
              Keeps-bind
                (Keeps-try (
                  Keeps-update (slot_key index.event_id index.slot) _ revision
                    (other_kind p id _ (not_event_slot index.event_id index.slot))))
                λ saved. Keeps-retry saved (ka _) (Keeps-done _)

  Keeps-renew_attempts :
      (n : ℕ) (F : Fact p.Bytes) (secret_digest : String) (index : SessionIndex)
      → Keeps (Terminal p id) F (Sessions.renew_attempts p s n secret_digest index) plain
  unfolding Sessions.renew_attempts
  Keeps-renew_attempts zero F secret_digest index = Keeps-fail _
  Keeps-renew_attempts (suc n) F secret_digest index =
      Keeps-bind (Keeps-load_event p index.event_id) λ l.
        Keeps-if (same_state l.0.state paused) (λ _. Keeps-fail _)
          λ _.
            Keeps-if (same_state l.0.state deleting || same_state l.0.state deleted)
              (λ _. Keeps-fail _)
              λ _.
                Keeps-if (not (same_state l.0.state open_state)) (λ _. Keeps-fail _)
                  λ _. Keeps-bind (Keeps-try (Keeps-load_slot p index.event_id index.slot)) λ r.
                    Keeps-renew_slot _ secret_digest index l.0 r _
                      (λ K. Keeps-renew_attempts n K secret_digest index)

  Keeps-renew_lease :
      (F : Fact p.Bytes) (secret : String)
      → Keeps (Terminal p id) F (Sessions.renew_lease p s secret) plain
  unfolding Sessions.renew_lease
  Keeps-renew_lease F secret =
      Keeps-bind (Keeps-try (Keeps-get (session_key (digest p s secret)))) λ found.
        Keeps-check _ λ entry q. Keeps-check _ λ index q'.
          Keeps-if index.deleted (λ _. Keeps-fail _)
            (λ _. Keeps-renew_attempts 5 _ (digest p s secret) index)

  pub Keeps-renew_session :
      (F : Fact p.Bytes) (secret : String)
      → Keeps (Terminal p id) F (Sessions.renew_session p s secret) plain
  unfolding Sessions.renew_session
  Keeps-renew_session F secret =
      Keeps-bind (Keeps-renew_lease F secret) λ l. Keeps-mint _ l.0 l.1 secret

  pub Keeps-heartbeat_session :
      (F : Fact p.Bytes) (secret : String)
      → Keeps (Terminal p id) F (Sessions.heartbeat_session p s secret) plain
  unfolding Sessions.heartbeat_session
  Keeps-heartbeat_session F secret = Keeps-bind (Keeps-renew_lease F secret) λ l. Keeps-done _
