-- ===== src/Access/Events.antt =====
-- internal/access/service.go: the presenter's requests on events. Each `… _attempts n` is the
-- body of a loop of at most `n` rounds, which a revision conflict sends round again.
use Prim.Native.String.{len}
use nats_guest_access.Prelude.{
  ℕ, zero, suc, String, Bool, true, false, not, ◌&&◌, ◌||◌, Option, none, some, List, [], ◌∷◌, ℤ,
  up_to, ltb, str_eq, if◌then◌else◌, length, sort_by,
}
use nats_guest_access.Errors
use nats_guest_access.Errors.{failure, out_of_fuel, decoding, forbidden, conflict, Result, ok, err}
use nats_guest_access.Model.{
  EventState, draft, paused, deleting, Capability, operate, unknown, Event,
}
use nats_guest_access.Platform.{Platform}
use nats_guest_access.Store.{Entry}
use nats_guest_access.Store.Table.{put, remove}
use nats_guest_access.World
use nats_guest_access.World.{Action, ◌>>=◌, ◌>>◌, pure, give, fail, try, handle, or_fail}
use nats_guest_access.Access.{
  Service, event_key, invitation_key, slot_prefix, same_state, is_some, can, is_member,
  valid_transition, retry, load_event, digest, invitation_url,
}
use nats_guest_access.Access.Names.{trim_space, is_application_id}

pub record CreateEventInput : Type 0 where
  pub application_id : String
  pub name : String
  pub capacity : ℤ
  pub inspect_live_workspaces : Bool

-- The capacity to store, if the trimmed input is valid.
unfoldable pub checked_input : Service → String → CreateEventInput → Option ℕ
unfolding is_application_id up_to
checked_input s owner input =
    if str_eq owner ""
      || str_eq input.name ""
      || ltb 200 (len input.name)
      || not (is_application_id input.application_id)
    then none
    else up_to s.max_capacity input.capacity

abbrev pub trimmed : CreateEventInput → CreateEventInput
trimmed input = record input {
  name = trim_space input.name;
  application_id = trim_space input.application_id;
}

abbrev pub or_conflict : {A : Type 0} → Option A → Result A
or_conflict none = err (Errors.sentinel conflict)
or_conflict (some a) = ok a

module _ (p : Platform) where
  -- The slots of an event, the loop of reserveSlots over what the store listed.
  unfoldable pub reserve_each :
      Action p.Bytes (Unit {0}) → List (String × Entry p.Bytes) → Action p.Bytes (Unit {0})
  unfolding retry World.update
  reserve_each again [] = pure tt
  reserve_each again ((key, entry) ∷ others) = do
    slot ← give (or_fail decoding (p.decode_slot entry.value))
    let onward = reserve_each again others
    if slot.reserved || is_some slot.cleanup then onward else do
      saved ←
          try (World.update key (p.encode_slot (record slot { reserved = true })) entry.revision)
      retry saved again onward

  unfoldable pub reserve_slots : ℕ → String → Action p.Bytes (Unit {0})
  unfolding reserve_each World.list
  reserve_slots zero event_id = give (err (failure out_of_fuel))
  reserve_slots (suc fuel) event_id = do
    entries ← World.list (slot_prefix event_id)
    reserve_each (reserve_slots fuel event_id) entries

  -- After the event is stored: pausing it reserves its slots. Each retry takes a turn in which
  -- others act, so the turns left bound the retries.
  unfoldable pub after_transition : String → Event → EventState → Action p.Bytes Event
  unfolding reserve_slots
  after_transition event_id event paused w =
      (do reserve_slots (suc (length w.turns)) event_id; pure event) w
  after_transition event_id event _ w = pure event w

unfoldable pub is_known : Capability → Bool
is_known (unknown text) = false
is_known _ = true

unfoldable pub all_known : List Capability → Bool
unfolding is_known
all_known [] = true
all_known (c ∷ cs) = is_known c && all_known cs

-- The capabilities of a cohost after the request; none removes the cohost.
unfoldable pub with_cohost : Event → String → List Capability → Event
with_cohost event cohost [] = record event { cohosts = remove cohost event.cohosts }
with_cohost event cohost (c ∷ cs) = record event { cohosts = put cohost (c ∷ cs) event.cohosts }

module _ (p : Platform) where
  -- The events among the entries that decode and that the principal may see.
  unfoldable pub visible_events : String → List (String × Entry p.Bytes) → List Event
  unfolding is_member
  visible_events principal [] = []
  visible_events principal ((key, entry) ∷ others) =
      let more = visible_events principal others in
      elim (p.decode_event entry.value) [
        | none ↦ more
        | some event ↦ if is_member event principal then event ∷ more else more
      ]

module _ (p : Platform) where
  unfoldable pub list_events : String → Action p.Bytes (List Event)
  unfolding visible_events World.list sort_by
  list_events principal = do
    entries ← World.list "event."
    pure (sort_by (λ a b. ltb a.created_at b.created_at) (visible_events p principal entries))

  unfoldable pub get_event : String → String → Action p.Bytes Event
  unfolding load_event is_member
  get_event principal event_id = do
    (event, _) ← load_event p event_id
    if is_member event principal then pure event else fail forbidden

  unfoldable pub set_state_attempts : ℕ → String → String → EventState → Action p.Bytes Event
  unfolding load_event can same_state valid_transition retry after_transition World.now World.update
  set_state_attempts zero principal event_id target = fail conflict
  set_state_attempts (suc n) principal event_id target = do
    (event, revision) ← load_event p event_id
    if not (can event principal operate)
        then fail forbidden
        else if not (same_state event.state target) && not (valid_transition event.state target)
        then fail conflict
        else do
          time ← World.now
          let event' = record event { state = target; updated_at = time }
          saved ← try (World.update (event_key event_id) (p.encode_event event') revision)
          retry saved (set_state_attempts n principal event_id target)
              (after_transition p event_id event' target)

  unfoldable pub set_state : String → String → EventState → Action p.Bytes Event
  unfolding set_state_attempts
  set_state = set_state_attempts 5

  unfoldable pub update_capacity_attempts : ℕ → String → String → ℕ → Action p.Bytes Event
  unfolding load_event can same_state retry World.now World.update
  update_capacity_attempts zero principal event_id capacity = fail conflict
  update_capacity_attempts (suc n) principal event_id capacity = do
    (event, revision) ← load_event p event_id
    if not (can event principal operate)
        then fail forbidden
        else if same_state event.state deleting
        then fail conflict
        else do
          time ← World.now
          let event' = record event { capacity = capacity; updated_at = time }
          saved ← try (World.update (event_key event_id) (p.encode_event event') revision)
          retry saved (update_capacity_attempts n principal event_id capacity) (pure event')

  unfoldable pub set_cohost_attempts :
      ℕ → String → String → String → List Capability → Action p.Bytes Event
  unfolding load_event same_state with_cohost retry World.now World.update
  set_cohost_attempts zero principal event_id cohost capabilities = fail conflict
  set_cohost_attempts (suc n) principal event_id cohost capabilities = do
    (event, revision) ← load_event p event_id
    if not (str_eq event.owner_subject principal) || str_eq cohost "" || str_eq cohost principal
        then fail forbidden
        else if same_state event.state deleting
        then fail conflict
        else do
          time ← World.now
          let event' = record (with_cohost event cohost capabilities) { updated_at = time }
          saved ← try (World.update (event_key event_id) (p.encode_event event') revision)
          retry saved (set_cohost_attempts n principal event_id cohost capabilities) (pure event')

  unfoldable pub set_cohost : String → String → String → List Capability → Action p.Bytes Event
  unfolding set_cohost_attempts all_known
  set_cohost principal event_id cohost capabilities =
      if all_known capabilities
      then set_cohost_attempts 5 principal event_id cohost capabilities
      else fail conflict

module _ (p : Platform) (s : Service) where
  unfoldable pub create_event : String → CreateEventInput → Action p.Bytes (Event × String)
  unfolding checked_input World.random_secret World.now World.new_uuid World.create World.delete
  create_event owner given = do
    let input = trimmed given
    capacity ← give (or_conflict (checked_input s owner input))
    secret ← World.random_secret p
    time ← World.now
    id ← World.new_uuid p
    let event : Event = record {
      cleanup = none;
      deleted_by_subject = "";
      id = id;
      application_id = input.application_id;
      name = input.name;
      owner_subject = owner;
      capacity = capacity;
      inspect_live_workspaces = input.inspect_live_workspaces;
      state = draft;
      invitation_digest = digest p s secret;
      deletion_id = "";
      cohosts = [];
      created_at = time;
      updated_at = time;
    }
    World.create (event_key id) (p.encode_event event)
    indexed ← try (World.create (invitation_key (digest p s secret)) (p.of_text id))
    handle indexed (λ revision. pure (event, invitation_url s secret))
        λ e. do try (World.delete (event_key id)); give (err e)

  unfoldable pub update_capacity : String → String → ℤ → Action p.Bytes Event
  unfolding update_capacity_attempts up_to
  update_capacity principal event_id requested = do
    capacity ← give (or_conflict (up_to s.max_capacity requested))
    update_capacity_attempts p 5 principal event_id capacity

  unfoldable pub rotate_invitation : String → String → Action p.Bytes String
  unfolding load_event can same_state World.random_secret World.create World.now World.update
      World.delete
  rotate_invitation principal event_id = do
    (event, revision) ← load_event p event_id
    if not (can event principal operate)
        then fail forbidden
        else if same_state event.state deleting
        then fail conflict
        else do
          secret ← World.random_secret p
          let new_digest = digest p s secret
          World.create (invitation_key new_digest) (p.of_text event_id)
          time ← World.now
          let event' = record event { invitation_digest = new_digest; updated_at = time }
          saved ← try (World.update (event_key event_id) (p.encode_event event') revision)
          handle saved
              (λ r. do
                try (World.delete (invitation_key event.invitation_digest))
                pure (invitation_url s secret))
              λ e. do try (World.delete (invitation_key new_digest)); give (err e)
