-- ===== src/Tests/Authority.antt =====
-- A cohost who may operate an event.
use nats_guest_access.Prelude.{String, ◌≡◌, ◌≢◌, str_eq, eq_iff, [], ◌∷◌, if◌then◌else◌, arith}
use nats_guest_access.Model.{operate, inspect}
use nats_guest_access.Access.{can, grants}
use nats_guest_access.Access.Events.{with_cohost}
use nats_guest_access.Access.Authority.{can-with_cohost}
use nats_guest_access.Tests.Requests.{opened}

abbrev helper : String
helper = "helper"

other_person : helper ≢ opened.owner_subject
other_person q = ground (arith, eq_iff "helper" "owner")

can-with_cohost_example :
    can (with_cohost opened helper (operate ∷ [])) "guest" inspect
    ≡ (if str_eq helper "guest" then grants (operate ∷ []) inspect else can opened "guest" inspect)
can-with_cohost_example = can-with_cohost opened helper (operate ∷ []) "guest" inspect other_person
