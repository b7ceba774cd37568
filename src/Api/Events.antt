-- ===== src/Api/Events.antt =====
-- internal/api/api.go: the endpoints for presenters, each of which verifies its caller first.
use nats_guest_access.Prelude.{
  ℕ, String, not, ◌&&◌, ◌||◌, Option, none, some, List, [], ◌∷◌, map, pos, negsuc, str_eq, ◌==◌,
  if◌then◌else◌, is_slash, trim_prefix, trim_left_of, trim_right_of, split_path, atoi,
}
use nats_guest_access.Model.{open_state, paused, Event, Slot, DeletionReceipt}
use nats_guest_access.Platform.{Platform}
use nats_guest_access.World.{World}
use nats_guest_access.Access.{Service}
use nats_guest_access.Access.Events
use nats_guest_access.Access.Readers
use nats_guest_access.Access.Deletion
use nats_guest_access.Api.{HttpRequest, Web, Body, Reply, fixed, decoder_text}
use nats_guest_access.Api.Presenters.{PresenterVerifier, verify}
use nats_guest_access.Api.Guests.{decode_json}
use nats_guest_access.Api.Replies.{
  event_view, slot_view, write_json, write_error, say, respond, unauthorized, method_not_allowed,
}

-- The parts of the path behind "/v1/events/".
unfoldable pub path_parts : String → List String
unfolding split_path trim_right_of trim_left_of trim_prefix is_slash
path_parts path =
    split_path (trim_right_of is_slash (trim_left_of is_slash (trim_prefix "/v1/events/" path)))

-- A slot number that is at least 1.
unfoldable pub slot_number : String → Option ℕ
unfolding atoi
slot_number text = elim (atoi text) [
  | none ↦ none
  | some (pos number) ↦ if number == 0 then none else some number
  | some (negsuc n) ↦ none
]

module _ (p : Platform) (web : Web) (s : Service) where
  abbrev pub Handler : Type 0
  Handler = World p.Bytes → Reply web.KeySet × World p.Bytes

  unfoldable pub show_event : Event → Reply web.KeySet
  unfolding write_json event_view
  show_event event = write_json 200 (Body.event (event_view event))

  unfoldable pub show_created : Event × String → Reply web.KeySet
  unfolding write_json event_view
  show_created (event, url) = write_json 201 (Body.created (event_view event) url)

  unfoldable pub show_events : List Event → Reply web.KeySet
  unfolding write_json event_view
  show_events events = write_json 200 (Body.events (map event_view events))

  unfoldable pub show_invitation : String → Reply web.KeySet
  unfolding write_json
  show_invitation url = write_json 200 (Body.invitation url)

  unfoldable pub show_slots : List Slot → Reply web.KeySet
  unfolding write_json slot_view
  show_slots slots = write_json 200 (Body.slots (map slot_view slots))

  unfoldable pub show_receipt : DeletionReceipt → Reply web.KeySet
  unfolding write_json
  show_receipt receipt = write_json 200 (Body.receipt receipt)

  unfoldable pub show_receipts : List DeletionReceipt → Reply web.KeySet
  unfolding write_json
  show_receipts rs = write_json 200 (Body.receipts rs)

  -- The body of `events` after the caller is verified.
  unfoldable pub events_for : String → HttpRequest → Handler
  unfolding decode_json write_error method_not_allowed show_created show_events say respond
      Events.create_event Events.list_events
  events_for principal r =
      if str_eq r.method "POST"
      then elim (decode_json web.decode_event_input r) [
        | none ↦ say (write_error 400 "invalid_request" decoder_text)
        | some input ↦ respond (Events.create_event p s principal input) show_created
      ]
      else if str_eq r.method "GET"
      then respond (Events.list_events p principal) show_events
      else say (record method_not_allowed { headers = ("Allow", "GET, POST") ∷ [] })

  -- A request on a path with two parts: the event and the operation.
  unfoldable pub operation : String → String → String → HttpRequest → Handler
  unfolding decode_json write_error method_not_allowed show_event show_invitation show_slots
      show_receipt say respond Events.set_state Events.rotate_invitation Events.update_capacity
      Events.set_cohost Readers.list_slots Deletion.get_receipt Deletion.delete_event
  operation principal event_id name r =
      if str_eq name "open" || str_eq name "pause" || str_eq name "reopen"
      then if not (str_eq r.method "POST")
        then say method_not_allowed
        else respond
            (Events.set_state p principal event_id
              (if str_eq name "pause" then paused else open_state))
            show_event
      else if str_eq name "invitation"
      then if not (str_eq r.method "POST")
        then say method_not_allowed
        else respond (Events.rotate_invitation p s principal event_id) show_invitation
      else if str_eq name "capacity"
      then if not (str_eq r.method "PUT")
        then say (write_error 400 "invalid_request" (fixed "capacity is required"))
        else elim (decode_json web.decode_capacity r) [
          | none ↦ say (write_error 400 "invalid_request" (fixed "capacity is required"))
          | some capacity ↦
              respond (Events.update_capacity p s principal event_id capacity) show_event
        ]
      else if str_eq name "cohosts"
      then if not (str_eq r.method "PUT")
        then say (write_error 400 "invalid_request" (fixed "cohost is invalid"))
        else elim (decode_json web.decode_cohost r) [
          | none ↦ say (write_error 400 "invalid_request" (fixed "cohost is invalid"))
          | some (subject, capabilities) ↦
              respond (Events.set_cohost p principal event_id subject capabilities) show_event
        ]
      else if str_eq name "slots"
      then if not (str_eq r.method "GET")
        then say method_not_allowed
        else respond (Readers.list_slots p principal event_id) show_slots
      else if str_eq name "receipt"
      then if not (str_eq r.method "GET")
        then say method_not_allowed
        else respond (Deletion.get_receipt p principal event_id) show_receipt
      else if str_eq name "delete"
      then if not (str_eq r.method "POST")
        then say method_not_allowed
        else respond (Deletion.delete_event p s principal event_id) show_receipt
      else say (write_error 404 "not_found" (fixed "operation not found"))

  unfoldable pub release : String → String → String → Handler
  unfolding slot_number write_json write_error say respond Deletion.release_slot
  release principal event_id text = elim (slot_number text) [
    | none ↦ say (write_error 400 "invalid_request" (fixed "slot number is invalid"))
    | some number ↦
        respond (Deletion.release_slot p s principal event_id number) λ u. write_json 204 Body.empty
  ]

  -- The parts after the first, which is not empty.
  unfoldable pub on_event : String → String → List String → HttpRequest → Handler
  unfolding operation release show_event write_error say respond Events.get_event
  on_event principal event_id [] r =
      if str_eq r.method "GET"
      then respond (Events.get_event p principal event_id) show_event
      else say (write_error 404 "not_found" (fixed "operation not found"))
  on_event principal event_id (name ∷ []) r = operation principal event_id name r
  on_event principal event_id (name ∷ text ∷ []) r =
      if str_eq name "slots" && str_eq r.method "DELETE"
      then release principal event_id text
      else say (write_error 404 "not_found" (fixed "operation not found"))
  on_event principal event_id _ r = say (write_error 404 "not_found" (fixed "operation not found"))

  unfoldable pub event_for : String → List String → HttpRequest → Handler
  unfolding on_event write_error say
  event_for principal [] r = say (write_error 404 "not_found" (fixed "event not found"))
  event_for principal (event_id ∷ parts) r =
      if str_eq event_id ""
      then say (write_error 404 "not_found" (fixed "event not found"))
      else on_event principal event_id parts r

  -- What follows the verification of the caller, and the refusal without it.
  unfoldable pub verified :
      Option (PresenterVerifier web) → HttpRequest → (String → Handler) → Handler
  unfolding verify unauthorized say
  verified presenters r handler = elim (verify web presenters r) [
    | none ↦ say unauthorized
    | some principal ↦ handler principal
  ]

  module _ (presenters : Option (PresenterVerifier web)) where
    unfoldable pub events : HttpRequest → Handler
    unfolding verified events_for
    events r = verified presenters r λ principal. events_for principal r

    unfoldable pub event : HttpRequest → Handler
    unfolding verified event_for path_parts
    event r = verified presenters r λ principal. event_for principal (path_parts r.path) r

    unfoldable pub receipts : HttpRequest → Handler
    unfolding verified show_receipts respond Readers.list_receipts
    receipts r =
        verified presenters r λ principal. respond (Readers.list_receipts p principal) show_receipts
