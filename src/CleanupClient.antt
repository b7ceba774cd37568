-- ===== src/CleanupClient.antt =====
-- internal/cleanup/nats.go: the client that asks an application to erase guests.
pub mod Acknowledged
use nats_guest_access.Prelude.{
  ℕ, String, ◌++◌, Bool, true, false, not, ◌&&◌, ◌||◌, Option, none, some, List, ℤ, pos, negsuc,
  str_eq, ◌==◌, if◌then◌else◌, length,
}
use nats_guest_access.Errors.{
  Error, failure, no_reply, decoding, mismatched, cleaner_failed, incomplete, Result, ok, err,
}
use nats_guest_access.World.{CleanupRequest}

pub record Request : Type 0 where
  pub schema_version : ℤ
  pub deletion_id : String
  pub application_id : String
  pub event_id : String
  pub guest_subjects : List String
  pub reason : String

pub record Response : Type 0 where
  pub schema_version : ℤ
  pub deletion_id : String
  pub application_id : String
  pub status : String
  pub identities_processed : ℤ
  pub error : String

-- What the client takes from nats.go, encoding/json and uuid. `request` answers a payload on a
-- subject, `none` for any error, a timeout included.
pub record Connection : Type 1 where
  pub Payload : Type 0
  pub encode_request : Request → Payload
  pub request : String → Payload → Option Payload
  pub decode_response : Payload → Option Response
  pub new_uuid : String

unfoldable pub same_number : ℤ → ℤ → Bool
same_number (pos a) (pos b) = a == b
same_number (negsuc a) (negsuc b) = a == b
same_number _ _ = false

pub record Client : Type 0 where
  pub subject : String

-- NewNATS: nil without a subject. The timeout is the connection's.
unfoldable pub new_client : String → Option Client
new_client subject = if str_eq subject "" then none else some (record { subject = subject })

-- The count, if it is the expected one.
abbrev exactly : ℕ → ℤ → Result ℕ
exactly expected (pos n) = if n == expected then ok n else err (failure incomplete)
exactly expected (negsuc n) = err (failure incomplete)

-- The checks of a response to a request.
unfoldable pub checked_response : Request → Response → Result ℕ
unfolding same_number
checked_response request response =
    if not (same_number response.schema_version (pos 1))
      || not (str_eq response.deletion_id request.deletion_id)
      || not (str_eq response.application_id request.application_id)
    then err (failure mismatched)
    else if not (str_eq response.status "complete")
    then err (failure cleaner_failed)
    else exactly (length request.guest_subjects) response.identities_processed

module _ (c : Connection) where
  unfoldable pub request_of : CleanupRequest → Request
  request_of r = record {
    schema_version = pos 1;
    deletion_id = if str_eq r.deletion_id "" then c.new_uuid else r.deletion_id;
    application_id = r.application_id;
    event_id = r.event_id;
    guest_subjects = r.subjects;
    reason = r.reason;
  }

  unfoldable pub cleanup : Client → CleanupRequest → Result ℕ
  unfolding request_of checked_response
  cleanup client r =
      let request = request_of r in
      elim (c.request (client.subject ++ "." ++ request.application_id)
        (c.encode_request request)) [
          | none ↦ err (failure no_reply)
          | some payload ↦ elim (c.decode_response payload) [
            | none ↦ err (failure decoding)
            | some response ↦ checked_response request response
          ]
        ]
