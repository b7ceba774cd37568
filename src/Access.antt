-- ===== src/Access.antt =====
-- internal/access/service.go: the service's configuration, its keys in the store, who may do
-- what, which transitions an event has, and the loading of events and slots. The requests are
-- in the modules below.
pub mod Names
pub mod Keys
pub mod Loaded
pub mod Requests
pub mod Results
pub mod Timing
pub mod Reserve
pub mod Readers
pub mod Recovery
pub mod Authority
pub mod Purge
pub mod Terminal
pub mod Events
pub mod Cleanup
pub mod Sessions
pub mod Deletion
use nats_guest_access.Prelude.{
  ℕ, String, ◌++◌, Bool, true, false, ◌||◌, Option, none, some, List, [], ◌∷◌, str_eq,
  if◌then◌else◌, pad3, is_slash, trim_right_of,
}
use nats_guest_access.Errors.{
  Error, sentinel, joined, Sentinel, not_found, store_not_found, store_conflict, decoding, is,
  Result, ok, err,
}
use nats_guest_access.Model.{
  EventState, draft, open_state, paused, deleting, deleted, Capability, operate, inspect, delete,
  unknown, Event, Slot, other_state,
}
use nats_guest_access.Platform.{Platform}
use nats_guest_access.Store.Table.{find}
use nats_guest_access.World
use nats_guest_access.World.{Action, ◌>>=◌, ◌>>◌, pure, give, try, or_fail}

pub record Issuer : Type 0 where
  pub issuer_url : String
  pub audience : String
  pub ttl : ℕ

-- The fields of Service that requests read; the store, the clock and the cleaner's answers are
-- the world's. `cleaner` says whether one is configured.
pub record Service : Type 0 where
  pub issuer : Issuer
  pub hmac_key : String
  pub public_demo_url : String
  pub max_capacity : ℕ
  pub lease_ttl : ℕ
  pub grace_period : ℕ
  pub cleaner : Bool
  pub cleanup_lease : ℕ

-- internal/access: New. The cleanup lease is set again from the configuration.
unfoldable pub new_service : Issuer → String → String → ℕ → ℕ → ℕ → Bool → Service
unfolding trim_right_of is_slash
new_service issuer hmac_key public_demo_url max_capacity lease_ttl grace_period cleaner = record {
  issuer = issuer;
  hmac_key = hmac_key;
  public_demo_url = trim_right_of is_slash public_demo_url;
  max_capacity = max_capacity;
  lease_ttl = lease_ttl;
  grace_period = grace_period;
  cleaner = cleaner;
  cleanup_lease = 45000000000;
}

unfoldable pub event_key : String → String
event_key id = "event." ++ id

unfoldable pub invitation_key : String → String
invitation_key digest = "invitation." ++ digest

unfoldable pub session_key : String → String
session_key digest = "session." ++ digest

unfoldable pub receipt_key : String → String
receipt_key id = "receipt." ++ id

-- The prefix of the keys of an event's slots.
unfoldable pub slot_prefix : String → String
slot_prefix id = "slot." ++ id ++ "."

unfoldable pub slot_key : String → ℕ → String
unfolding slot_prefix
slot_key id number = "slot." ++ id ++ "." ++ pad3 number

unfoldable pub same_state : EventState → EventState → Bool
same_state draft draft = true
same_state open_state open_state = true
same_state paused paused = true
same_state deleting deleting = true
same_state deleted deleted = true
same_state (other_state a) (other_state b) = str_eq a b
same_state _ _ = false

unfoldable pub same_capability : Capability → Capability → Bool
same_capability operate operate = true
same_capability inspect inspect = true
same_capability delete delete = true
same_capability (unknown a) (unknown b) = str_eq a b
same_capability _ _ = false

unfoldable pub grants : List Capability → Capability → Bool
unfolding same_capability
grants [] c = false
grants (granted ∷ more) c = same_capability granted c || grants more c

abbrev pub is_some {ℓ} : {A : Type ℓ} → Option A → Bool
is_some none = false
is_some (some a) = true

-- Cohosts[principal], no capability if it is missing.
unfoldable pub granted_to : Event → String → List Capability
granted_to event principal = elim (find principal event.cohosts) [ none ↦ [] | some cs ↦ cs ]

unfoldable pub can : Event → String → Capability → Bool
unfolding grants granted_to
can event principal capability =
    str_eq event.owner_subject principal || grants (granted_to event principal) capability

-- event.OwnerSubject == principal || event.Cohosts[principal] != nil
unfoldable pub is_member : Event → String → Bool
is_member event principal =
    str_eq event.owner_subject principal || is_some (find principal event.cohosts)

unfoldable pub valid_transition : EventState → EventState → Bool
valid_transition draft open_state = true
valid_transition open_state paused = true
valid_transition paused open_state = true
valid_transition _ _ = false

-- A store's `not found` as another error; any other result as it is.
unfoldable pub on_missing : {A : Type 0} → Sentinel → Result A → Result A
on_missing s (ok a) = ok a
on_missing s (err e) = if is e store_not_found then err (sentinel s) else err e

-- A store's `not found` as a success.
unfoldable pub forgive_missing : Result (Unit {0}) → Result (Unit {0})
forgive_missing (ok u) = ok u
forgive_missing (err e) = if is e store_not_found then ok tt else err e

-- errors.Join(cleanErr, saveErr), the second being that of a store call
unfoldable pub join : {A : Type 0} → Error → Result A → Error
join e (ok a) = e
join e (err f) = joined e f

module _ {V A : Type 0} where
  -- After a CAS: `again` on a conflict, `done` on success, any other error is returned.
  unfoldable pub retry : Result ℕ → Action V A → Action V A → Action V A
  retry (ok revision) again done = done
  retry (err e) again done = if is e store_conflict then again else give (err e)

module _ (p : Platform) where
  unfoldable pub load_event : String → Action p.Bytes (Event × ℕ)
  unfolding on_missing World.get
  load_event id = do
    found ← try (World.get (event_key id))
    entry ← give (on_missing not_found found)
    event ← give (or_fail decoding (p.decode_event entry.value))
    pure (event, entry.revision)

  unfoldable pub load_slot : String → ℕ → Action p.Bytes (Slot × ℕ)
  unfolding World.get
  load_slot event_id number = do
    entry ← World.get (slot_key event_id number)
    slot ← give (or_fail decoding (p.decode_slot entry.value))
    pure (slot, entry.revision)

module _ {V : Type 0} where
  unfoldable pub delete_if_exists : String → Action V (Unit {0})
  unfolding forgive_missing World.delete
  delete_if_exists key = do gone ← try (World.delete key); give (forgive_missing gone)

module _ (p : Platform) (s : Service) where
  unfoldable pub digest : String → String
  digest value = p.hmac_hex s.hmac_key value

unfoldable pub invitation_url : Service → String → String
invitation_url s secret = s.public_demo_url ++ "#" ++ secret
