-- ===== src/Tests/Requests.antt =====
-- Requests on worlds with one event.
use nats_guest_access.Prelude.{
  ℕ, ◌≤◌, ◌*◌, ◌+◌, String, ◌≡◌, ◌≢◌, refl, true, false, some, none, List, [], ◌∷◌, arith, pos,
}
use nats_guest_access.Errors.{sentinel, cleanup_pending, ok, err}
use nats_guest_access.Model.{draft, open_state, deleting, operate, CleanupProgress, Event, Slot}
use nats_guest_access.Store
use nats_guest_access.Store.{Entry, Memory}
use nats_guest_access.Store.Table
use nats_guest_access.World
use nats_guest_access.World.{World}
use nats_guest_access.Access
use nats_guest_access.Access.{can, digest}
use nats_guest_access.Access.Events
use nats_guest_access.Access.Sessions
use nats_guest_access.Access.Sessions.{Session}
use nats_guest_access.Access.Cleanup.{second, retry_delay, after_failure, claim_cleanup}
use nats_guest_access.Access.Results.Presenter.{
  CreatedFrom, create_event-valid, update_capacity-within,
}
use nats_guest_access.Access.Results.Guarded.{MayMove, set_state-guarded}
use nats_guest_access.Access.Results.Guest.{IsPlace, seat-IsPlace, IsRenewed, renew_lease-IsRenewed}
use nats_guest_access.Access.Timing.{
  retry_delay-grows, lease_excludes, retry_too_early, retry_comes,
}
use nats_guest_access.Samples.{Stored, event, slot, index, sample, service, fresh, talk}

abbrev planned : Event
planned = record {
  cleanup = none;
  deleted_by_subject = "";
  id = "uuid-0";
  application_id = "whengas";
  name = "Talk";
  owner_subject = "owner";
  capacity = 1;
  inspect_live_workspaces = false;
  state = draft;
  invitation_digest = "key/secret-0";
  deletion_id = "";
  cohosts = [];
  created_at = 1000;
  updated_at = 1000;
}

abbrev pub stored : String → Stored → ℕ → String × Entry Stored
stored k v r = (k, record { value = v; revision = r })

-- A world in which the event is stored, with other entries.
abbrev holding : Event → List (String × Entry Stored) → World Stored
holding e others = record fresh {
  memory = record { revision = 9; entries = stored "event.uuid-0" (event e) 1 ∷ others };
}

create_event_runs :
    (Events.create_event sample service "owner" talk fresh).0
    ≡ ok (planned, "https://demo.example#secret-0")
unfolding Events.create_event World.◌>>=◌ World.give nats_guest_access.Access.Names.trim_space
    Store.create Table.find Store.apply_all Store.write World.try World.handle Table.put
    Access.event_key nats_guest_access.Prelude.itoa Access.invitation_key digest World.pure
    Access.invitation_url
create_event_runs = refl

create_event-valid_example : CreatedFrom service "owner" talk planned
create_event-valid_example =
    create_event-valid sample service "owner" talk fresh planned "https://demo.example#secret-0"
      create_event_runs

abbrev pub opened : Event
opened = record planned { state = open_state }

set_state_runs :
    (Events.set_state sample "owner" "uuid-0" open_state (holding planned [])).0 ≡ ok opened
unfolding Events.set_state World.◌>>=◌ World.try World.give Store.get Table.find Store.apply_all
    Access.event_key World.pure Store.update Store.write
set_state_runs = refl

first_read : (Access.load_event sample "uuid-0" (holding planned [])).0 ≡ ok (planned, 1)
unfolding Access.load_event World.◌>>=◌ World.try World.give Store.get Table.find Store.apply_all
    Access.event_key World.pure
first_read = refl

set_state-guarded_example :
    (opened.state ≡ open_state)
    × (can planned "owner" operate ≡ true)
    × MayMove planned.state open_state
set_state-guarded_example =
    set_state-guarded sample "owner" "uuid-0" open_state (holding planned []) planned 1 opened
      first_read set_state_runs

abbrev larger : Event
larger = record planned { capacity = 3 }

update_capacity_runs :
    (Events.update_capacity sample service "owner" "uuid-0" (pos 3) (holding planned [])).0
    ≡ ok larger
unfolding Events.update_capacity World.◌>>=◌ World.give World.try Store.get Table.find
    Store.apply_all Access.event_key World.pure Store.update Store.write
update_capacity_runs = refl

update_capacity-within_example :
    (pos larger.capacity ≡ pos 3)
    × (larger.capacity ≤ 10)
    × (can larger "owner" operate ≡ true)
    × (larger.state ≢ deleting)
update_capacity-within_example =
    update_capacity-within sample service "owner" "uuid-0" (pos 3) (holding planned []) larger
      update_capacity_runs

abbrev seated : Session
seated = record {
  event_id = "uuid-0";
  subject = "guest:uuid-0:uuid-0";
  display_name = "Demo User 1";
  slot = 1;
  token = "token";
  token_expires_at = 1300;
  lease_expires_at = 1030;
  grace_expires_at = 1330;
  resume_secret = "secret-0";
}

seat_runs : (Sessions.seat sample service opened 1000 1 1 (holding opened [])).0 ≡ ok seated
unfolding Sessions.seat World.◌>>=◌ World.try World.handle Store.create Table.find Store.apply_all
    Access.slot_key nats_guest_access.Prelude.pad3 Store.write World.pure World.give Store.get
    Table.put Access.event_key Access.session_key digest
seat_runs = refl

seat-IsPlace_example : IsPlace service opened 1000 1 2 seated
seat-IsPlace_example =
    seat-IsPlace sample service opened 1000 (holding opened []) seated (omega arith) seat_runs

abbrev pub taken : Slot
taken = record {
  cleanup = none;
  event_id = "uuid-0";
  number = 1;
  generation = "g";
  subject = "guest:uuid-0:g";
  resume_digest = "key/s";
  reserved = true;
  lease_expires_at = 10;
  grace_expires_at = 20;
  created_at = 0;
  last_seen_at = 0;
}

abbrev resumed : Slot
resumed = record taken {
  reserved = false;
  last_seen_at = 1000;
  lease_expires_at = 1030;
  grace_expires_at = 1330;
}

abbrev pub at_lunch : World Stored
at_lunch = holding opened (
    stored "slot.uuid-0.001" (slot taken) 2
    ∷ stored "session.key/s" (index (record { deleted = false; event_id = "uuid-0"; slot = 1 })) 3
    ∷ [])

renew_lease_runs : (Sessions.renew_lease sample service "s" at_lunch).0 ≡ ok (opened, resumed)
unfolding Sessions.renew_lease World.◌>>=◌ World.try World.give Store.get Table.find Store.apply_all
    Access.session_key digest Access.event_key World.pure Access.slot_key
    nats_guest_access.Prelude.pad3 Store.update Store.write
renew_lease_runs = refl

renew_lease-IsRenewed_example : IsRenewed service (digest sample service "s") opened resumed
renew_lease-IsRenewed_example =
    renew_lease-IsRenewed sample service "s" at_lunch opened resumed renew_lease_runs

abbrev tried_once : CleanupProgress
tried_once = record { id = "d"; attempts = 1; started_at = 0; next_attempt_at = 7; last_error = "" }

retry_delay-grows_example :
    (5 * second ≤ retry_delay 1) × (retry_delay 1 ≤ retry_delay 4) × (retry_delay 4 ≤ 160 * second)
retry_delay-grows_example = retry_delay-grows 1 4 (omega arith)

claim_runs :
    (claim_cleanup sample (some tried_once) 7 45 fresh).0
    ≡ ok (record tried_once { attempts = 2; next_attempt_at = 52 })
unfolding claim_cleanup World.◌>>=◌ World.pure
claim_runs = refl

lease_excludes_example :
    claim_cleanup sample
      (some (record tried_once { attempts = 2; next_attempt_at = 52 }))
      51
      45
      fresh
    ≡ (err (sentinel cleanup_pending), fresh)
lease_excludes_example =
    lease_excludes sample (some tried_once) 7 51 45 45 fresh fresh
      (record tried_once { attempts = 2; next_attempt_at = 52 }) claim_runs (omega arith)

retry_too_early_example :
    claim_cleanup sample (some (after_failure tried_once 10)) 4999999999 45 fresh
    ≡ (err (sentinel cleanup_pending), fresh)
retry_too_early_example = retry_too_early sample tried_once 10 4999999999 45 fresh (omega arith)

retry_comes_example :
    claim_cleanup sample (some (after_failure tried_once 10)) 160000000010 45 fresh ≡ (
      ok (record (after_failure tried_once 10) { attempts = 2; next_attempt_at = 160000000055 }),
      fresh,
    )
retry_comes_example = retry_comes sample tried_once 10 160000000010 45 fresh (omega arith)
