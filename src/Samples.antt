-- ===== src/Samples.antt =====
-- A concrete platform, a service and requests on it, on which the definitions run.
use nats_guest_access.Prelude.{String, ◌++◌, refl, true, false, Option, none, some, [], itoa, pos}
use nats_guest_access.Model.{Event, Slot, SessionIndex, DeletionReceipt}
use nats_guest_access.Platform.{Platform, IsLawful}
use nats_guest_access.World.{World, Action}
use nats_guest_access.Access.{Service}
use nats_guest_access.Access.Events.{CreateEventInput}

-- The bytes of a stored value, by what was encoded.
pub data Stored : Type 0 where
  text : String → Stored
  event : Event → Stored
  slot : Slot → Stored
  index : SessionIndex → Stored
  receipt : DeletionReceipt → Stored

abbrev to_text : Stored → String
to_text (text t) = t
to_text _ = ""

abbrev decode_event : Stored → Option Event
decode_event (event e) = some e
decode_event _ = none

abbrev decode_slot : Stored → Option Slot
decode_slot (slot s) = some s
decode_slot _ = none

abbrev decode_index : Stored → Option SessionIndex
decode_index (index i) = some i
decode_index _ = none

abbrev decode_receipt : Stored → Option DeletionReceipt
decode_receipt (receipt r) = some r
decode_receipt _ = none

abbrev pub sample : Platform
sample = record {
  Bytes = Stored;
  of_text = text;
  to_text = to_text;
  encode_event = event;
  decode_event = decode_event;
  encode_slot = slot;
  decode_slot = decode_slot;
  encode_index = index;
  decode_index = decode_index;
  encode_receipt = receipt;
  decode_receipt = decode_receipt;
  hmac_hex = λ key value. key ++ "/" ++ value;
  uuid = λ n. "uuid-" ++ itoa n;
  secret = λ n. some ("secret-" ++ itoa n);
  sign = λ claims. some "token";
}

pub sample-IsLawful : IsLawful sample
sample-IsLawful = record {
  text_round = λ t. refl;
  event_round = λ e. refl;
  slot_round = λ s. refl;
  index_round = λ i. refl;
  receipt_round = λ r. refl;
}

abbrev pub service : Service
service = record {
  issuer = record { issuer_url = "https://guest.example"; audience = "demo"; ttl = 300 };
  hmac_key = "key";
  public_demo_url = "https://demo.example";
  max_capacity = 10;
  lease_ttl = 30;
  grace_period = 300;
  cleaner = true;
  cleanup_lease = 45;
}

abbrev pub fresh : World Stored
fresh = record {
  memory = record { revision = 0; entries = [] };
  turns = [];
  calls = 0;
  time = 1000;
  ticks = [];
  uuids = 0;
  secrets = 0;
  answers = [];
  requests = [];
  acknowledged = [];
}

abbrev pub talk : CreateEventInput
talk = record {
  application_id = " whengas ";
  name = "Talk";
  capacity = pos 1;
  inspect_live_workspaces = false;
}

-- The world after an action.
abbrev pub after : {A : Type 0} → Action Stored A → World Stored → World Stored
after m w = (m w).1
