-- ===== src/Access/Terminal.antt =====
-- internal/access: what a started deletion is in the store, and the store calls on its event. The
-- requests are in the modules below.

pub mod Presenter
pub mod Cleanup
pub mod Deletion
pub mod Guest
pub mod Recovery
pub mod Requests
use nats_guest_access.Prelude.{
  ℕ, String, ◌≡◌, ◌≢◌, sym, inl, inr, some, false, List, ◌∙◌, has_prefix,
}
use nats_guest_access.Model.{deleting, Event}
use nats_guest_access.Platform.{Platform, IsLawful}
use nats_guest_access.Store
use nats_guest_access.Store.{
  Entry, Memory, Call, creating, updating, deleting_revision, apply, lookup,
}
use nats_guest_access.Store.Revisions.{key_of, lookup_after_delete, lookup_after_update}
use nats_guest_access.World.{CleanupRequest}
use nats_guest_access.World.Logic.{Assertion}
use nats_guest_access.World.Primitives.{Permitted}
use nats_guest_access.Access.{event_key}
use nats_guest_access.Access.Keys.{apart, event_key-prefix, event_key-injective}
use nats_guest_access.Access.Loaded.{loaded, lookup_other}

module _ (p : Platform) (id : String) where
  -- The event is gone, or it is being deleted.
  abbrev pub Terminal : Assertion p.Bytes
  Terminal m done =
      (e : Entry p.Bytes) (event : Event)
      → lookup (event_key id) m ≡ some e
      → p.decode_event e.value ≡ some event
      → event.state ≡ deleting

  module _ {F : Assertion p.Bytes} where
    pub other_key : (c : Call p.Bytes) → event_key id ≢ key_of c → Permitted Terminal F c
    other_key c ne = record {
      at = λ m done h fresh inv fact e event q d.
          inv e event (lookup_other c m (event_key id) e h ne q) d;
    }

    pub other_kind :
        (c : Call p.Bytes) → has_prefix "event." (key_of c) ≡ false → Permitted Terminal F c
    other_kind c k = other_key c (apart "event." _ _ (event_key-prefix id) k)

    pub removal : (k : String) (r : ℕ) → Permitted Terminal F (deleting_revision k r)
    removal k r = record {
      at = λ m done h fresh inv fact e event q d.
          inv e event ((lookup_after_delete k (event_key id) r m e).1 q) d;
    }

    pub removal_any : (k : String) → Permitted Terminal F (Call.deleting k)
    removal_any k = record {
      at = λ m done h fresh inv fact e event q d.
          inv e event ((lookup_after_delete k (event_key id) 0 m e).0 q) d;
    }

    pub new_event :
        (id' : String) (event : Event)
        → id ≢ id'
        → Permitted Terminal F (creating (event_key id') (p.encode_event event))
    new_event id' event ne = other_key _ (λ q. ne (event_key-injective id id' q))

    -- A write of an event that was read, and that stays in deletion if it was.
    pub rewrite_event :
        IsLawful p
        → (id' : String) (old new : Event) (revision : ℕ)
        → ((m : Memory p.Bytes) (done : List CleanupRequest)
            → F m done
            → (loaded p (event_key id') old revision).holds m done)
        → (old.state ≡ deleting → new.state ≡ deleting)
        → Permitted Terminal F (updating (event_key id') (p.encode_event new) revision)
    rewrite_event laws id' old new revision from stays = record {
      at = λ m done h fresh inv fact e event q d.
          elim (lookup_after_update (event_key id') (event_key id) (p.encode_event new) revision m e
            q) [
              | inl before ↦ inv e event before d
              | inr (same_key, value, was, there, at_revision) ↦
                  let (seen, s, decoded, r) = from m done fact in
                  let e1 : was ≡ seen = s.same was there (cc) in
                  let e2 : old.state ≡ deleting = inv was old (rw same_key there) (rw e1 decoded) in
                  let e3 : some new ≡ some event = sym (laws.event_round new) ∙ rw value at d in
                  let e4 : new ≡ event = cc in rw (← e4) (stays e2)
            ];
    }

    -- A write of an event that is being deleted.
    pub write_deleting :
        IsLawful p
        → (id' : String) (event : Event) (revision : ℕ) → event.state ≡ deleting
        → Permitted Terminal F (updating (event_key id') (p.encode_event event) revision)
    write_deleting laws id' new revision gone = record {
      at = λ m done h fresh inv fact e event q d.
          elim (lookup_after_update (event_key id') (event_key id) (p.encode_event new) revision m e
            q) [
              | inl before ↦ inv e event before d
              | inr (same_key, value, was, there, at_revision) ↦
                  let e3 : some new ≡ some event = sym (laws.event_round new) ∙ rw value at d in
                  let e4 : new ≡ event = cc in rw (← e4) gone
            ];
    }
