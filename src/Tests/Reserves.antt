-- ===== src/Tests/Reserves.antt =====
-- An event with a slot, reserved while another replica is at work.
use nats_guest_access.Prelude.{◌≢◌, refl, [], ◌∷◌}
use nats_guest_access.Errors.{failure, out_of_fuel, err}
use nats_guest_access.Store.Table.{find}
use nats_guest_access.Store.Distinct.{Distinct}
use nats_guest_access.World.{World}
use nats_guest_access.Access.Events.{reserve_slots}
use nats_guest_access.Access.Reserve.{reserve_slots-ends}
use nats_guest_access.Samples.{Stored, sample}
use nats_guest_access.Tests.Requests.{at_lunch}
use nats_guest_access.Tests.Deletions.{busy}

abbrev crowded : World Stored
crowded = record at_lunch { turns = busy ∷ busy ∷ [] }

crowded-Distinct : Distinct crowded.memory.entries
unfolding find
crowded-Distinct = (refl, (refl, (refl, tt)))

reserve_slots-ends_example : (reserve_slots sample 3 "uuid-0" crowded).0 ≢ err (failure out_of_fuel)
reserve_slots-ends_example = reserve_slots-ends sample "uuid-0" crowded crowded-Distinct
