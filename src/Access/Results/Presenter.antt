-- ===== src/Access/Results/Presenter.antt =====
-- internal/access/service.go: the events that the presenter's requests return.
use native.Mathlib.Omega.{arith}
use Prim.Native.String.{len}
use nats_guest_access.Prelude.{
  ℕ, zero, suc, ◌≤◌, ◌∙◌, Bool, String, ◌≡◌, ◌≢◌, refl, true, false, not, ◌&&◌, Option, some,
  length, eq_iff, ℤ, pos, negsuc, up_to,
}
use nats_guest_access.Errors.{store_conflict, is, Result, ok, err}
use nats_guest_access.Model.{EventState, draft, paused, deleting, operate, Event}
use nats_guest_access.Platform.{Platform}
use nats_guest_access.World.{World, Action}
use nats_guest_access.World.Results.{
  Gives, Gives-bind, Gives-check, Gives-pure, Gives-fail, Gives-error, Gives-if, Gives-handle,
}
use nats_guest_access.Access
use nats_guest_access.Access.{
  Service, event_key, invitation_key, digest, same_state, can, valid_transition, retry, load_event,
}
use nats_guest_access.Access.Names.{is_application_id}
use nats_guest_access.Access.Events
use nats_guest_access.Access.Events.{CreateEventInput, checked_input, trimmed}

pub Gives-retry :
    {V A : Type 0} {P : A → Type 0} (r : Result ℕ) {again done : Action V A}
    → Gives again P
    → Gives done P
    → Gives (retry r again done) P
unfolding retry
Gives-retry (ok n) ga gd = gd
Gives-retry (err e) ga gd = Gives-if (is e store_conflict) (λ _. ga) (λ _. Gives-error e)

module _ (p : Platform) where
  Gives-after_transition :
      (event_id : String) (event : Event) (target : EventState)
      → event.state ≡ target
      → Gives (Events.after_transition p event_id event target) (λ e. e.state ≡ target)
  unfolding Events.after_transition
  Gives-after_transition event_id event paused q = record {
    at = λ w.
        (Gives-bind (Events.reserve_slots p (suc (length w.turns)) event_id)
            (λ u. Gives-pure event q)).at
          w;
  }
  Gives-after_transition event_id event _ q = Gives-pure event q

  Gives-set_state_attempts :
      (n : ℕ) (principal event_id : String) (target : EventState)
      → Gives (Events.set_state_attempts p n principal event_id target) (λ e. e.state ≡ target)
  unfolding Events.set_state_attempts
  Gives-set_state_attempts zero principal event_id target = Gives-fail _
  Gives-set_state_attempts (suc n) principal event_id target = Gives-bind _ λ l.
      Gives-if (not (can l.0 principal operate)) (λ _. Gives-fail _)
        λ allowed.
          Gives-if (not (same_state l.0.state target) && not (valid_transition l.0.state target))
            (λ _. Gives-fail _)
            λ moves. Gives-bind _ λ time. Gives-bind _ λ saved.
              Gives-retry saved (Gives-set_state_attempts n principal event_id target)
                (Gives-after_transition event_id _ target refl)

  -- If SetState ends with an event, that event is in the state that was asked for.
  pub set_state-target :
      (principal event_id : String) (target : EventState) (w : World p.Bytes) (event : Event)
      → (Events.set_state p principal event_id target w).0 ≡ ok event
      → event.state ≡ target
  unfolding Events.set_state
  set_state-target principal event_id target =
      (Gives-set_state_attempts 5 principal event_id target).at

-- What an update of the capacity leads to.
module _ (limit : ℕ) where
  abbrev Resized : String → ℤ → Event → Type 0
  Resized principal requested e =
      (pos e.capacity ≡ requested)
      × (e.capacity ≤ limit)
      × (can e principal operate ≡ true)
      × (e.state ≢ deleting)

  not_deleting : (state : EventState) → same_state state deleting ≡ false → state ≢ deleting
  unfolding same_state
  not_deleting state h q = ground arith

  same_rights :
      (e f : Event) (principal : String)
      → e.owner_subject ≡ f.owner_subject
      → e.cohosts ≡ f.cohosts
      → can e principal operate ≡ can f principal operate
  unfolding can Access.granted_to
  same_rights e f principal h k = ground arith

  Gives-update_capacity_attempts :
      (p : Platform) (n : ℕ) (principal event_id : String) (capacity : ℕ) (requested : ℤ)
      → pos capacity ≡ requested
      → capacity ≤ limit
      → Gives
          (Events.update_capacity_attempts p n principal event_id capacity)
          (Resized principal requested)
  unfolding Events.update_capacity_attempts
  Gives-update_capacity_attempts p zero principal event_id capacity requested same le = Gives-fail _
  Gives-update_capacity_attempts p (suc n) principal event_id capacity requested same le =
      Gives-bind _ λ l.
        Gives-if (not (can l.0 principal operate)) (λ _. Gives-fail _)
          λ allowed.
            Gives-if (same_state l.0.state deleting) (λ _. Gives-fail _)
              λ live. Gives-bind _ λ time. Gives-bind _ λ saved.
                Gives-retry saved
                  (Gives-update_capacity_attempts p n principal event_id capacity requested same le)
                  (Gives-pure _ (
                    same,
                    le,
                    same_rights (record l.0 { capacity = capacity; updated_at = time }) l.0
                          principal refl refl
                        ∙ not_false _ allowed,
                    not_deleting l.0.state live,
                  ))
    where
      not_false : (b : Bool) → not b ≡ false → b ≡ true
      not_false b h = ground arith

-- An event made of a valid request.
pub record CreatedFrom (s : Service) (owner : String) (given : CreateEventInput) (event : Event)
    : Type 0 where
  pub owned : event.owner_subject ≡ owner
  pub has_owner : owner ≢ ""
  pub named : event.name ≡ (trimmed given).name
  pub has_name : event.name ≢ ""
  pub short_name : len event.name ≤ 200
  pub application : is_application_id event.application_id ≡ true
  pub capacity : pos event.capacity ≡ given.capacity
  pub within_limit : event.capacity ≤ s.max_capacity
  pub drafted : event.state ≡ draft

module _ (limit : ℕ) where
  up_to-within : (z : ℤ) (n : ℕ) → up_to limit z ≡ some n → (pos n ≡ z) × (n ≤ limit)
  unfolding up_to
  up_to-within (pos m) n h = ground arith
  up_to-within (negsuc m) n h = absurd (cc)

or_conflict-ok : {A : Type 0} (o : Option A) (a : A) → Events.or_conflict o ≡ ok a → o ≡ some a
or_conflict-ok o a h = ground arith

module _ (p : Platform) (s : Service) where
  checked_input-some :
      (owner : String) (input : CreateEventInput) (capacity : ℕ)
      → checked_input s owner input ≡ some capacity
      → (owner ≢ "")
        × (input.name ≢ "")
        × (len input.name ≤ 200)
        × (is_application_id input.application_id ≡ true)
        × (up_to s.max_capacity input.capacity ≡ some capacity)
  unfolding checked_input
  checked_input-some owner input capacity h = (
    λ q. ground (arith, eq_iff owner ""),
    λ q. ground (arith, eq_iff input.name ""),
    ground arith,
    ground arith,
    ground arith,
  )

  checked-CreatedFrom :
      (owner : String) (given : CreateEventInput) (capacity : ℕ) (event : Event)
      → checked_input s owner (trimmed given) ≡ some capacity
      → event.owner_subject ≡ owner
      → event.name ≡ (trimmed given).name
      → event.application_id ≡ (trimmed given).application_id
      → event.capacity ≡ capacity
      → event.state ≡ draft
      → CreatedFrom s owner given event
  checked-CreatedFrom owner given capacity event h eo en ea ec es =
      let (has_owner, has_name, short, app, up) =
        checked_input-some owner (trimmed given) capacity h in
      let (same, le) = up_to-within s.max_capacity given.capacity capacity up in
      record {
        owned = eo;
        has_owner = has_owner;
        named = en;
        has_name = rw en has_name;
        short_name = rw en short;
        application = rw ea app;
        capacity = rw ec same;
        within_limit = rw ec le;
        drafted = es;
      }

  -- If CreateEvent ends with an event, it belongs to the caller, who is not the empty subject,
  -- it is a draft with the trimmed name, which is not empty and at most 200 bytes long, its
  -- application ID has the required form, and its capacity is the one asked for and at most the
  -- service's maximum.
  pub create_event-valid :
      (owner : String) (given : CreateEventInput) (w : World p.Bytes) (event : Event) (url : String)
      → (Events.create_event p s owner given w).0 ≡ ok (event, url)
      → CreatedFrom s owner given event
  unfolding Events.create_event
  create_event-valid owner given w event url h =
      Gives.at {P = λ r. CreatedFrom s owner given r.0}
        (Gives-check _ λ capacity q. Gives-bind _ λ secret. Gives-bind _ λ time. Gives-bind _ λ id.
          Gives-bind _ λ r. Gives-bind _ λ indexed.
            Gives-handle indexed
              (λ r' e. Gives-pure _ (
                checked-CreatedFrom owner given capacity _ (or_conflict-ok _ capacity q) refl refl
                  refl refl refl))
              (λ x e. Gives-bind _ λ z. Gives-error x))
        w (event, url) h

  -- If UpdateCapacity ends with an event, its capacity is the one asked for, so not negative,
  -- and at most the service's maximum, the caller may operate it, and it is not being deleted.
  pub update_capacity-within :
      (principal event_id : String) (requested : ℤ) (w : World p.Bytes) (event : Event)
      → (Events.update_capacity p s principal event_id requested w).0 ≡ ok event
      → (pos event.capacity ≡ requested)
        × (event.capacity ≤ s.max_capacity)
        × (can event principal operate ≡ true)
        × (event.state ≢ deleting)
  unfolding Events.update_capacity
  update_capacity-within principal event_id requested w event h =
      Gives.at
        {P = λ e.
          (pos e.capacity ≡ requested)
          × (e.capacity ≤ s.max_capacity)
          × (can e principal operate ≡ true)
          × (e.state ≢ deleting)}
        (Gives-check _ λ capacity q.
          let (same, le) =
            up_to-within s.max_capacity requested capacity (or_conflict-ok _ capacity q) in
          Gives-update_capacity_attempts s.max_capacity p 5 principal event_id capacity requested
            same le)
        w event h
