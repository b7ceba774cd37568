-- ===== src/Access/Requests.antt =====
-- internal/access/service.go and internal/access/recovery.go: the requests of presenters and guests
-- that the service answers and the recovery pass, one constructor for each method, and their run one
-- after the other on one store.
use nats_guest_access.Prelude.{ℕ, Bool, String, List, [], ◌∷◌, ℤ}
use nats_guest_access.Model.{EventState, Capability}
use nats_guest_access.Platform.{Platform}
use nats_guest_access.World.{World, Action, ◌>>◌, pure}
use nats_guest_access.Access.{Service}
use nats_guest_access.Access.Events
use nats_guest_access.Access.Events.{CreateEventInput}
use nats_guest_access.Access.Sessions
use nats_guest_access.Access.Deletion
use nats_guest_access.Access.Readers
use nats_guest_access.Access.Recovery

pub data Request : Type 0 where
  create_event : (owner : String) (input : CreateEventInput) → Request
  list_events : (principal : String) → Request
  get_event : (principal event_id : String) → Request
  set_state : (principal event_id : String) (target : EventState) → Request
  update_capacity : (principal event_id : String) (capacity : ℤ) → Request
  set_cohost : (principal event_id cohost : String) (capabilities : List Capability) → Request
  rotate_invitation : (principal event_id : String) → Request
  release_slot : (principal event_id : String) (number : ℕ) → Request
  delete_event : (principal event_id : String) → Request
  get_receipt : (principal event_id : String) → Request
  start_session : (invitation : String) → Request
  renew_session : (resume_secret : String) → Request
  heartbeat_session : (resume_secret : String) → Request
  list_slots : (principal event_id : String) → Request
  list_receipts : (principal : String) → Request
  reconcile : (batch : ℕ) (over : ℕ → Bool) → Request

module _ (p : Platform) (s : Service) where
  -- The request's method, its result left out.
  unfoldable pub serve : Request → Action p.Bytes (Unit {0})
  unfolding Events.create_event Events.list_events Events.get_event Events.set_state
      Events.update_capacity Events.set_cohost Events.rotate_invitation Deletion.release_slot
      Deletion.delete_event Deletion.get_receipt Sessions.start_session Sessions.renew_session
      Sessions.heartbeat_session Readers.list_slots Readers.list_receipts Recovery.reconcile
  serve (create_event owner input) = Events.create_event p s owner input >> pure tt
  serve (list_events principal) = Events.list_events p principal >> pure tt
  serve (get_event principal event_id) = Events.get_event p principal event_id >> pure tt
  serve (set_state principal event_id target) =
      Events.set_state p principal event_id target >> pure tt
  serve (update_capacity principal event_id capacity) =
      Events.update_capacity p s principal event_id capacity >> pure tt
  serve (set_cohost principal event_id cohost capabilities) =
      Events.set_cohost p principal event_id cohost capabilities >> pure tt
  serve (rotate_invitation principal event_id) =
      Events.rotate_invitation p s principal event_id >> pure tt
  serve (release_slot principal event_id number) =
      Deletion.release_slot p s principal event_id number >> pure tt
  serve (delete_event principal event_id) = Deletion.delete_event p s principal event_id >> pure tt
  serve (get_receipt principal event_id) = Deletion.get_receipt p principal event_id >> pure tt
  serve (start_session invitation) = Sessions.start_session p s invitation >> pure tt
  serve (renew_session resume_secret) = Sessions.renew_session p s resume_secret >> pure tt
  serve (heartbeat_session resume_secret) = Sessions.heartbeat_session p s resume_secret >> pure tt
  serve (list_slots principal event_id) = Readers.list_slots p principal event_id >> pure tt
  serve (list_receipts principal) = Readers.list_receipts p principal >> pure tt
  serve (reconcile batch over) = Recovery.reconcile p s batch over >> pure tt

  -- The world after the requests, whether they fail or not.
  unfoldable pub serve_all : List Request → World p.Bytes → World p.Bytes
  unfolding serve
  serve_all [] w = w
  serve_all (r ∷ rs) w = serve_all rs (serve r w).1
