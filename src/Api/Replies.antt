-- ===== src/Api/Replies.antt =====
-- internal/api/api.go: writeJSON, writeError, writeAccessError, the views and the cookie.
use nats_guest_access.Prelude.{ℕ, String, Bool, false, none, some, [], ◌==◌, if◌then◌else◌}
use nats_guest_access.Errors.{
  Error, is, cleanup_pending, event_deleted, event_paused, session_expired, not_found, forbidden,
  conflict, at_capacity, admission_closed, Result, ok, err,
}
use nats_guest_access.Model.{Event, Slot}
use nats_guest_access.World.{World, Action}
use nats_guest_access.Access.{is_some}
use nats_guest_access.Access.Sessions.{Session}
use nats_guest_access.Api.{
  EventView, SlotView, SessionView, Message, fixed, text_of, Body, refusal, Reply,
}

unfoldable pub event_view : Event → EventView
event_view event = record {
  cleanup = event.cleanup;
  id = event.id;
  application_id = event.application_id;
  name = event.name;
  owner_subject = event.owner_subject;
  capacity = event.capacity;
  inspect_live_workspaces = event.inspect_live_workspaces;
  state = event.state;
  cohosts = event.cohosts;
  created_at = event.created_at;
  updated_at = event.updated_at;
}

unfoldable pub slot_view : Slot → SlotView
slot_view slot = record {
  cleanup_pending = is_some slot.cleanup;
  number = slot.number;
  subject = slot.subject;
  reserved = slot.reserved;
  lease_expires_at = slot.lease_expires_at;
  grace_expires_at = slot.grace_expires_at;
  created_at = slot.created_at;
  last_seen_at = slot.last_seen_at;
}

unfoldable pub session_view : Session → SessionView
session_view session = record {
  event_id = session.event_id;
  subject = session.subject;
  display_name = session.display_name;
  slot = session.slot;
  token = session.token;
  token_expires_at = session.token_expires_at;
  lease_expires_at = session.lease_expires_at;
  grace_expires_at = session.grace_expires_at;
}

-- The status and the code for an error of the access service; the first match counts.
unfoldable pub status_of : Error → ℕ × String
unfolding is
status_of e =
    if is e cleanup_pending
    then (503, "cleanup_pending")
    else if is e event_deleted
    then (410, "event_deleted")
    else if is e event_paused
    then (503, "event_paused")
    else if is e session_expired
    then (410, "session_expired")
    else if is e not_found
    then (404, "not_found")
    else if is e forbidden
    then (403, "forbidden")
    else if is e conflict
    then (409, "conflict")
    else if is e at_capacity
    then (429, "capacity_reached")
    else if is e admission_closed
    then (503, "admission_closed")
    else (500, "internal_error")

module _ {K : Type 0} where
  unfoldable pub write_json : ℕ → Body K → Reply K
  write_json status body = record { status = status; headers = []; cookie = none; body = body }

  unfoldable pub write_error : ℕ → String → Message → Reply K
  unfolding write_json
  write_error status code message = write_json status (refusal code message)

  unfoldable pub write_access_error : Error → Reply K
  unfolding write_error status_of
  write_access_error e =
      let (status, code) = status_of e in
      if status == 500
      then write_error status code (fixed "request failed")
      else write_error status code (text_of e)

  -- The answer for a result: the view of a value, or the error's reply.
  unfoldable pub reply_of : {A : Type 0} → (A → Reply K) → Result A → Reply K
  unfolding write_access_error
  reply_of view (ok a) = view a
  reply_of view (err e) = write_access_error e

  -- A handler ends in every world with a reply. Most of them call the service once.
  module _ {V : Type 0} where
    unfoldable pub say : Reply K → World V → Reply K × World V
    say reply w = (reply, w)

    unfoldable pub respond : {A : Type 0} → Action V A → (A → Reply K) → World V → Reply K × World V
    unfolding reply_of
    respond m view w = let (r, w') = m w in (reply_of view r, w')

  unfoldable pub unauthorized : Reply K
  unfolding write_error
  unauthorized = write_error 401 "unauthorized" (fixed "presenter authentication failed")

  unfoldable pub method_not_allowed : Reply K
  unfolding write_error
  method_not_allowed = write_error 405 "method_not_allowed" (fixed "method not allowed")

  -- http.SetCookie with the resume secret, before the reply is written.
  unfoldable pub set_resume_cookie : Bool → String → Reply K → Reply K
  set_resume_cookie secure_cookies secret reply = record reply {
    cookie = some (record { value = secret; secure = secure_cookies; expired = false });
  }
