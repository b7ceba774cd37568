-- ===== src/Api/Refusals.antt =====
-- internal/api/api.go: writeAccessError, whatever the error.
use nats_guest_access.Prelude.{◌≡◌, ◌≢◌, refl, Bool, true, false, ◌||◌, List, [], ◌∷◌, arith, ◌==◌}
use nats_guest_access.Errors.{
  Error, is, Sentinel, cleanup_pending, event_deleted, event_paused, session_expired, not_found,
  forbidden, conflict, at_capacity, admission_closed,
}
use nats_guest_access.Api.{fixed, text_of}
use nats_guest_access.Api.Replies.{status_of, write_error, write_access_error}

-- The errors that the access service tells its callers apart by.
abbrev pub access_errors : List Sentinel
access_errors =
    not_found ∷ forbidden ∷ conflict ∷ at_capacity ∷ admission_closed ∷ session_expired
    ∷ event_paused ∷ event_deleted ∷ cleanup_pending ∷ []

abbrev pub is_any : Error → List Sentinel → Bool
is_any e [] = false
is_any e (s ∷ ss) = is e s || is_any e ss

status_of-known : (e : Error) → is_any e access_errors ≡ true → ((status_of e).0 == 500) ≡ false
unfolding status_of
status_of-known e h = ground arith

status_of-unknown :
    (e : Error) → is_any e access_errors ≡ false → status_of e ≡ (500, "internal_error")
unfolding status_of
status_of-unknown e h = ground arith

module _ {K : Type 0} (e : Error) where
  -- An error that is none of the access service's nine is answered with 500 and a fixed text, so
  -- that nothing of it is told, and one that is any of them with another status and its text.
  pub access_error-told :
      (is_any e access_errors ≡ false
        → write_access_error {K = K} e ≡ write_error 500 "internal_error" (fixed "request failed"))
      × (is_any e access_errors ≡ true
          → ((status_of e).0 ≢ 500)
            × (write_access_error {K = K} e
                ≡ write_error (status_of e).0 (status_of e).1 (text_of e)))
  unfolding write_access_error
  access_error-told = (
    (λ h. rw (status_of-unknown e h) refl),
    λ h. ((λ q. absurd (ground (arith, status_of-known e h))), rw (status_of-known e h) refl),
  )
