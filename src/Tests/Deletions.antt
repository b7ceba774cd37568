-- ===== src/Tests/Deletions.antt =====
-- A store with one event that is being deleted, and requests on it.
use nats_guest_access.Prelude.{
  ℕ, ◌≤◌, pad3, has_prefix, ◌++◌, ◌≡◌, ◌≢◌, refl, sym, inl, inr, false, none, some, List, [], ◌∷◌,
  arith, itoa, has_prefix-append, pos,
}
use nats_guest_access.Model.{deleting, open_state, Event, Slot, DeletionReceipt}
use nats_guest_access.Store
use nats_guest_access.Store.{
  Entry, Memory, creating, updating, apply, new_memory, lookup, revision_limit,
}
use nats_guest_access.Store.Table
use nats_guest_access.Store.Revisions.{
  IsFresh, IsFresh-new_memory, IsFresh-apply, lookup_after_create,
}
use nats_guest_access.World
use nats_guest_access.World.{World, CleanupRequest, Turn, reliable}
use nats_guest_access.World.Logic.{nothing, IsSound, Respects}
use nats_guest_access.Access.{event_key, slot_key}
use nats_guest_access.Errors.{ok}
use nats_guest_access.Access
use nats_guest_access.Access.Deletion
use nats_guest_access.Access.Purge.Events.{AllErased, found_store, erase_event-purged}
use nats_guest_access.Access.Keys.{apart, not_event_slot}
use nats_guest_access.Access.Requests.{Request, set_state, update_capacity, serve_all}
use nats_guest_access.Access.Terminal.{Terminal, other_kind}
use nats_guest_access.Access.Terminal.Requests.{deletion_is_final}
use nats_guest_access.Samples.{Stored, event, slot, text, sample, sample-IsLawful, service, fresh}

abbrev ending : Event
ending = record {
  cleanup = none;
  deleted_by_subject = "owner";
  id = "E";
  application_id = "demo";
  name = "Talk";
  owner_subject = "owner";
  capacity = 1;
  inspect_live_workspaces = false;
  state = deleting;
  invitation_digest = "i";
  deletion_id = "d";
  cohosts = [];
  created_at = 0;
  updated_at = 0;
}

abbrev ending_store : Memory Stored
ending_store = apply (creating (event_key "E") (event ending)) new_memory

-- Another replica creates a slot meanwhile.
abbrev pub busy : Turn Stored
busy = record { others = λ m. creating (slot_key "E" 1) (text "") ∷ []; fault = reliable }

abbrev ending_world : World Stored
ending_world = record fresh { memory = ending_store; turns = busy ∷ []; calls = 1 }

ending_store-IsFresh : IsFresh ending_store
unfolding new_memory
ending_store-IsFresh =
    IsFresh-apply (creating (event_key "E") (event ending)) {m = new_memory} (omega arith)
      IsFresh-new_memory

ending_store-Terminal : Terminal sample "E" ending_store []
unfolding new_memory Table.find
ending_store-Terminal e found q d =
    elim (lookup_after_create (event_key "E") (event_key "E") (event ending) new_memory e q) [
      | inl before ↦ absurd (ground arith)
      | inr (same, value) ↦ ground arith
    ]

busy-Respects : Respects (Terminal sample "E") busy.others
unfolding Store.apply_all
busy-Respects m done h fresh inv =
    (other_kind sample "E" {F = λ n d. Unit} (creating (slot_key "E" 1) (text ""))
        (not_event_slot "E" 1)).at
      m done (omega arith) fresh inv tt

ending_world-IsSound : IsSound (Terminal sample "E") nothing.holds ending_world
unfolding apply Store.create new_memory Table.find Store.write Store.next_revision
ending_world-IsSound = record {
  counted = counted;
  fresh = ending_store-IsFresh;
  inv = ending_store-Terminal;
  fact = tt;
  calm = (busy-Respects, tt);
}
  where
    counted : ending_store.revision ≤ 1
    counted = omega arith

other_ids : (n : ℕ) → "E" ≢ "uuid-" ++ itoa n
unfolding has_prefix
other_ids n q = apart "uuid-" _ _ (has_prefix-append "uuid-" (itoa n)) refl (sym q)

wishes : List Request
wishes = set_state "owner" "E" open_state ∷ update_capacity "owner" "E" (pos 3) ∷ []

abbrev afterwards : World Stored
afterwards = serve_all sample service wishes ending_world

few_calls : afterwards.calls ≡ 4
unfolding serve_all wishes World.◌>>=◌ World.give World.try Store.get Table.find Store.apply_all
    apply new_memory Store.write Table.put event_key slot_key pad3 World.pure World.fail
few_calls = refl

deletion_is_final_example : Terminal sample "E" afterwards.memory afterwards.acknowledged
deletion_is_final_example =
    deletion_is_final sample sample-IsLawful service "E" other_ids wishes ending_world
      ending_world-IsSound (rw few_calls (omega arith))

abbrev guest : Slot
guest = record {
  cleanup = none;
  event_id = "E";
  number = 1;
  generation = "g";
  subject = "guest:E:g";
  resume_digest = "r";
  reserved = false;
  lease_expires_at = 0;
  grace_expires_at = 0;
  created_at = 0;
  last_seen_at = 0;
}

-- The event's store with a guest in its first slot.
abbrev guest_store : Memory Stored
guest_store = apply (creating (slot_key "E" 1) (slot guest)) ending_store

ending_revision : ending_store.revision ≡ 1
unfolding apply Store.create new_memory Table.find Store.write Store.next_revision
ending_revision = refl

guest_store-IsFresh : IsFresh guest_store
guest_store-IsFresh =
    IsFresh-apply (creating (slot_key "E" 1) (slot guest)) {m = ending_store}
      (rw ending_revision (omega arith)) ending_store-IsFresh

guest_store-Terminal : Terminal sample "E" guest_store []
guest_store-Terminal =
    (other_kind sample "E" {F = λ n d. Unit} (creating (slot_key "E" 1) (slot guest))
        (not_event_slot "E" 1)).at
      ending_store [] (rw ending_revision (omega arith)) ending_store-IsFresh ending_store-Terminal
      tt

-- The cleaner is about to answer for one guest.
abbrev answered_world : World Stored
answered_world = record fresh { memory = guest_store; calls = 2; answers = some 1 ∷ [] }

guest_revision : guest_store.revision ≡ 2
unfolding apply Store.create new_memory Table.find Store.write Store.next_revision Table.put
    event_key slot_key pad3
guest_revision = refl

answered_world-IsSound : IsSound (Terminal sample "E") nothing.holds answered_world
answered_world-IsSound = record {
  counted = rw guest_revision (omega arith);
  fresh = guest_store-IsFresh;
  inv = guest_store-Terminal;
  fact = tt;
  calm = tt;
}

abbrev last_word : DeletionReceipt
last_word = record {
  deletion_id = "d";
  event_id = "E";
  application_id = "demo";
  owner_subject = "owner";
  deleted_by_subject = "owner";
  created_at = 0;
  deleted_at = 1000;
  identities_deleted = 1;
}

erase_runs : (Deletion.erase_event sample service ending 1 answered_world).0 ≡ ok last_word
unfolding Deletion.erase_event World.◌>>=◌ World.pure Table.find Store.apply_all apply new_memory
    Store.write Table.put event_key Store.next_revision Store.list World.give Table.with_prefix
    has_prefix Access.slot_prefix World.try Access.invitation_key Access.receipt_key
    nats_guest_access.Errors.is Store.erase World.handle slot_key pad3 Access.session_key Store.get
    Table.remove nats_guest_access.Prelude.insert_by Deletion.subjects_of
erase_runs = refl

erase_calls : (Deletion.erase_event sample service ending 1 answered_world).1.calls ≡ 10
unfolding Deletion.erase_event World.◌>>=◌ World.pure Table.find Store.apply_all apply new_memory
    Store.write Table.put event_key Store.next_revision Store.list World.give Table.with_prefix
    has_prefix Access.slot_prefix World.try Access.invitation_key Access.receipt_key
    nats_guest_access.Errors.is Store.erase World.handle slot_key pad3 Access.session_key Store.get
    Table.remove nats_guest_access.Prelude.insert_by Deletion.subjects_of
erase_calls = refl

erase_event-purged_example :
    AllErased sample
      (Deletion.upgraded ending)
      (found_store
        (Deletion.claim_event sample service (Deletion.upgraded ending) 1 answered_world).1)
      (Deletion.erase_event sample service ending 1 answered_world).1.acknowledged
erase_event-purged_example =
    erase_event-purged sample sample-IsLawful service ending 1 answered_world last_word refl
      answered_world-IsSound erase_runs (rw erase_calls (omega arith))
