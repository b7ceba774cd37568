-- ===== src/Tests/Purges.antt =====
-- A slot that is cleaned, with the cleaner's acknowledgement.
use nats_guest_access.Prelude.{pad3, ◌≡◌, refl, some, [], ◌∷◌, arith}
use nats_guest_access.Errors.{is, wraps, ok}
use nats_guest_access.Store
use nats_guest_access.Store.{Memory, creating, apply, new_memory}
use nats_guest_access.Store.Table
use nats_guest_access.Store.Revisions.{IsFresh, IsFresh-new_memory, IsFresh-apply}
use nats_guest_access.World
use nats_guest_access.World.{World, CleanupRequest}
use nats_guest_access.World.Logic.{nothing, IsSound}
use nats_guest_access.World.Answers.{Logged}
use nats_guest_access.Access
use nats_guest_access.Access.Cleanup.{clean_slot}
use nats_guest_access.Access.Purge.{anything, clean_slot-purged}
use nats_guest_access.Samples.{Stored, slot, sample, service, fresh}
use nats_guest_access.Tests.Requests.{opened, taken}

abbrev one_slot : Memory Stored
one_slot = apply (creating "slot.uuid-0.001" (slot taken)) new_memory

abbrev answering : World Stored
answering = record fresh { memory = one_slot; calls = 1; answers = some 1 ∷ [] }

one_slot-IsFresh : IsFresh one_slot
unfolding new_memory
one_slot-IsFresh =
    IsFresh-apply (creating "slot.uuid-0.001" (slot taken)) {m = new_memory} (omega arith)
      IsFresh-new_memory

answering-IsSound : IsSound anything nothing.holds answering
unfolding apply Store.create new_memory Table.find Store.write Store.next_revision
answering-IsSound = record {
  counted = omega arith;
  fresh = one_slot-IsFresh;
  inv = tt;
  fact = tt;
  calm = tt;
}

cleaned : (clean_slot sample service opened taken 1 answering).0 ≡ ok tt
unfolding clean_slot World.◌>>=◌ World.pure Store.update Table.find Store.apply_all apply new_memory
    Store.write Table.put Access.slot_key pad3 Store.next_revision World.try World.give
    Access.session_key is wraps Store.erase Table.remove Store.delete Store.delete_revision
cleaned = refl

four_calls : (clean_slot sample service opened taken 1 answering).1.calls ≡ 4
unfolding clean_slot World.◌>>=◌ World.pure Store.update Table.find Store.apply_all apply new_memory
    Store.write Table.put Access.slot_key pad3 Store.next_revision World.try World.give
    Access.session_key is
four_calls = refl

clean_slot-purged_example :
    (r : CleanupRequest) × Logged r
      (clean_slot sample service opened taken 1 answering).1.acknowledged
    × (r.subjects ≡ "guest:uuid-0:g" ∷ [])
    × (r.event_id ≡ "uuid-0")
    × (r.application_id ≡ "whengas")
clean_slot-purged_example =
    clean_slot-purged sample service opened taken 1 answering answering-IsSound cleaned
      (rw four_calls (omega arith))
