-- ===== src/Access/Terminal/Presenter.antt =====
-- The presenter's requests in internal/access/service.go, on a store with a started deletion.
use nats_guest_access.Prelude.{
  ℕ, zero, suc, String, ◌≡◌, false, not, ◌&&◌, ◌||◌, List, [], ◌∷◌, arith, length, str_eq, ℤ,
}
use nats_guest_access.Errors.{decoding}
use nats_guest_access.Model.{EventState, deleting, paused, Capability, operate, Event}
use nats_guest_access.Platform.{Platform, IsLawful}
use nats_guest_access.Store.{Entry}
use nats_guest_access.World.{Action, or_fail}
use nats_guest_access.World.Logic.{Fact, nothing, ◌&◌, Keeps}
use nats_guest_access.World.Rules.{
  plain, tried, Keeps-bind, Keeps-try, Keeps-check, Keeps-done, Keeps-if, Keeps-handle, Keeps-fail,
  Keeps-error,
}
use nats_guest_access.World.Primitives.{
  KeysHavePrefix, Keeps-create, Keeps-update, Keeps-delete, Keeps-list_bind, Keeps-now,
  Keeps-random_secret,
}
use nats_guest_access.Access.{
  Service, event_key, invitation_key, slot_prefix, same_state, is_some, can, valid_transition,
  digest,
}
use nats_guest_access.Access.Keys.{not_event_slot_prefix, not_event_invitation}
use nats_guest_access.Access.Loaded.{Keeps-load_event, Keeps-retry}
use nats_guest_access.Access.Terminal.{Terminal, other_kind, removal_any, rewrite_event}
use nats_guest_access.Access.Events

-- A transition that SetState lets through does not leave a deletion.
stays_deleting :
    (s t : EventState)
    → (not (same_state s t) && not (valid_transition s t)) ≡ false
    → s ≡ deleting
    → t ≡ deleting
unfolding same_state valid_transition
stays_deleting s t h e = ground arith

not_deleting : (s : EventState) → same_state s deleting ≡ false → s ≡ deleting → ⊥
unfolding same_state
not_deleting s h e = ground arith

module _ (p : Platform) (laws : IsLawful p) (id : String) where
  Keeps-reserve_each :
      (F : Fact p.Bytes) (event_id : String) (again : Action p.Bytes (Unit {0}))
      (entries : List (String × Entry p.Bytes))
      → ((K : Fact p.Bytes) → Keeps (Terminal p id) K again plain)
      → KeysHavePrefix (slot_prefix event_id) entries
      → Keeps (Terminal p id) F (Events.reserve_each p again entries) plain
  unfolding Events.reserve_each
  Keeps-reserve_each F event_id again [] ka prefixed = Keeps-done tt
  Keeps-reserve_each F event_id again ((key, entry) ∷ others) ka prefixed =
      Keeps-check (or_fail decoding (p.decode_slot entry.value)) λ slot q.
        Keeps-if (slot.reserved || is_some slot.cleanup)
          (λ _. Keeps-reserve_each F event_id again others ka prefixed.1)
          (λ _.
            Keeps-bind
              (Keeps-try (
                Keeps-update key _ entry.revision
                  (other_kind p id _ (not_event_slot_prefix event_id key prefixed.0))))
              (λ saved.
                Keeps-retry saved (ka _)
                  (Keeps-reserve_each (F & tried plain saved) event_id again others ka prefixed.1)))

  Keeps-reserve_slots :
      (fuel : ℕ) (F : Fact p.Bytes) (event_id : String)
      → Keeps (Terminal p id) F (Events.reserve_slots p fuel event_id) plain
  unfolding Events.reserve_slots
  Keeps-reserve_slots zero F event_id = Keeps-error _
  Keeps-reserve_slots (suc fuel) F event_id =
      Keeps-list_bind (slot_prefix event_id) λ entries prefixed.
        Keeps-reserve_each (F & nothing) event_id (Events.reserve_slots p fuel event_id) entries
          (λ K. Keeps-reserve_slots fuel K event_id) prefixed

  Keeps-after_transition :
      (F : Fact p.Bytes) (event_id : String) (event : Event) (target : EventState)
      → Keeps (Terminal p id) F (Events.after_transition p event_id event target) plain
  unfolding Events.after_transition
  Keeps-after_transition F event_id event paused = record {
    at = λ w.
        (Keeps-bind (Keeps-reserve_slots (suc (length w.turns)) F event_id)
            (λ u. Keeps-done event)).at
          w;
  }
  Keeps-after_transition F event_id event _ = Keeps-done event

  Keeps-set_state_attempts :
      (n : ℕ) (F : Fact p.Bytes) (principal event_id : String) (target : EventState)
      → Keeps (Terminal p id) F (Events.set_state_attempts p n principal event_id target) plain
  unfolding Events.set_state_attempts
  Keeps-set_state_attempts zero F principal event_id target = Keeps-fail _
  Keeps-set_state_attempts (suc n) F principal event_id target =
      Keeps-bind (Keeps-load_event p event_id) λ l.
        Keeps-if (not (can l.0 principal operate)) (λ _. Keeps-fail _)
          λ allowed.
            Keeps-if (not (same_state l.0.state target) && not (valid_transition l.0.state target))
              (λ _. Keeps-fail _)
              λ moves. Keeps-bind (Keeps-now) λ time.
                Keeps-bind
                  (Keeps-try (
                    Keeps-update (event_key event_id) _ l.1 (
                      rewrite_event p id laws event_id l.0
                        (record l.0 { state = target; updated_at = time }) l.1 (λ m d x. x.0.1)
                        (stays_deleting l.0.state target moves))))
                  λ saved.
                    Keeps-retry saved (Keeps-set_state_attempts n _ principal event_id target)
                      (Keeps-after_transition _ event_id _ target)

  pub Keeps-set_state :
      (F : Fact p.Bytes) (principal event_id : String) (target : EventState)
      → Keeps (Terminal p id) F (Events.set_state p principal event_id target) plain
  unfolding Events.set_state
  Keeps-set_state = Keeps-set_state_attempts 5

  Keeps-update_capacity_attempts :
      (n : ℕ) (F : Fact p.Bytes) (principal event_id : String) (capacity : ℕ)
      → Keeps
          (Terminal p id)
          F
          (Events.update_capacity_attempts p n principal event_id capacity)
          plain
  unfolding Events.update_capacity_attempts
  Keeps-update_capacity_attempts zero F principal event_id capacity = Keeps-fail _
  Keeps-update_capacity_attempts (suc n) F principal event_id capacity =
      Keeps-bind (Keeps-load_event p event_id) λ l.
        Keeps-if (not (can l.0 principal operate)) (λ _. Keeps-fail _)
          λ allowed.
            Keeps-if (same_state l.0.state deleting) (λ _. Keeps-fail _)
              λ live. Keeps-bind (Keeps-now) λ time.
                Keeps-bind
                  (Keeps-try (
                    Keeps-update (event_key event_id) _ l.1 (
                      rewrite_event p id laws event_id l.0
                        (record l.0 { capacity = capacity; updated_at = time }) l.1 (λ m d x. x.0.1)
                        (λ q. absurd (not_deleting l.0.state live q)))))
                  λ saved.
                    Keeps-retry saved
                      (Keeps-update_capacity_attempts n _ principal event_id capacity)
                      (Keeps-done _)

  Keeps-set_cohost_attempts :
      (n : ℕ) (F : Fact p.Bytes) (principal event_id cohost : String) (cs : List Capability)
      → Keeps (Terminal p id) F (Events.set_cohost_attempts p n principal event_id cohost cs) plain
  unfolding Events.set_cohost_attempts
  Keeps-set_cohost_attempts zero F principal event_id cohost cs = Keeps-fail _
  Keeps-set_cohost_attempts (suc n) F principal event_id cohost cs =
      Keeps-bind (Keeps-load_event p event_id) λ l.
        Keeps-if
          (not (str_eq l.0.owner_subject principal) || str_eq cohost "" || str_eq cohost principal)
          (λ _. Keeps-fail _)
          λ allowed.
            Keeps-if (same_state l.0.state deleting) (λ _. Keeps-fail _)
              λ live. Keeps-bind (Keeps-now) λ time.
                Keeps-bind
                  (Keeps-try (
                    Keeps-update (event_key event_id) _ l.1 (
                      rewrite_event p id laws event_id l.0
                        (record (Events.with_cohost l.0 cohost cs) { updated_at = time }) l.1
                        (λ m d x. x.0.1) (λ q. absurd (not_deleting l.0.state live q)))))
                  λ saved.
                    Keeps-retry saved (Keeps-set_cohost_attempts n _ principal event_id cohost cs)
                      (Keeps-done _)

  pub Keeps-set_cohost :
      (F : Fact p.Bytes) (principal event_id cohost : String) (cs : List Capability)
      → Keeps (Terminal p id) F (Events.set_cohost p principal event_id cohost cs) plain
  unfolding Events.set_cohost
  Keeps-set_cohost F principal event_id cohost cs =
      Keeps-if (Events.all_known cs)
        (λ _. Keeps-set_cohost_attempts 5 F principal event_id cohost cs) (λ _. Keeps-fail _)

  module _ (s : Service) where
    pub Keeps-update_capacity :
        (F : Fact p.Bytes) (principal event_id : String) (requested : ℤ)
        → Keeps (Terminal p id) F (Events.update_capacity p s principal event_id requested) plain
    unfolding Events.update_capacity
    Keeps-update_capacity F principal event_id requested =
        Keeps-check _ λ capacity q. Keeps-update_capacity_attempts 5 F principal event_id capacity

    pub Keeps-rotate_invitation :
        (F : Fact p.Bytes) (principal event_id : String)
        → Keeps (Terminal p id) F (Events.rotate_invitation p s principal event_id) plain
    unfolding Events.rotate_invitation
    Keeps-rotate_invitation F principal event_id = Keeps-bind (Keeps-load_event p event_id) λ l.
        Keeps-if (not (can l.0 principal operate)) (λ _. Keeps-fail _)
          λ allowed.
            Keeps-if (same_state l.0.state deleting) (λ _. Keeps-fail _)
              λ live. Keeps-bind (Keeps-random_secret p) λ secret.
                Keeps-bind
                  (Keeps-create (invitation_key (digest p s secret)) _
                    (other_kind p id _ (not_event_invitation _)))
                  λ r. Keeps-bind (Keeps-now) λ time.
                    Keeps-bind
                      (Keeps-try (
                        Keeps-update (event_key event_id) _ l.1 (
                          rewrite_event p id laws event_id l.0
                            (record l.0 {
                              invitation_digest = digest p s secret;
                              updated_at = time;
                            })
                            l.1 (λ m d x. x.0.0.0.1)
                            (λ q. absurd (not_deleting l.0.state live q)))))
                      λ saved.
                        Keeps-handle saved
                          (λ r e.
                            Keeps-bind (Keeps-try (Keeps-delete _ (removal_any p id _)))
                              (λ u. Keeps-done _))
                          (λ x e.
                            Keeps-bind (Keeps-try (Keeps-delete _ (removal_any p id _)))
                              (λ u. Keeps-error x))
