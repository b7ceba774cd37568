-- ===== src/Api/Guests.antt =====
-- internal/api/api.go: the endpoints for guests, who show an invitation or the resume cookie.
use nats_guest_access.Prelude.{
  ℕ, Bool, true, not, Option, none, some, List, ltb, length, str_eq, if◌then◌else◌,
}
use nats_guest_access.Errors.{sentinel, not_found, session_expired}
use nats_guest_access.Platform.{Platform}
use nats_guest_access.World.{World}
use nats_guest_access.Access.{Service}
use nats_guest_access.Access.Readers.{take}
use nats_guest_access.Access.Sessions
use nats_guest_access.Access.Sessions.{Session}
use nats_guest_access.Api.{HttpRequest, Web, Body, Reply, decoder_text}
use nats_guest_access.Api.Replies.{
  write_json, write_error, write_access_error, say, respond, session_view, set_resume_cookie,
}

-- 64<<10
abbrev pub body_limit : ℕ
body_limit = 65536

-- What http.MaxBytesReader lets through, and whether it fails then.
unfoldable pub limited : List ℕ → List ℕ × Bool
unfolding take
limited body = (take body_limit body, ltb body_limit (length body))

-- A decoder on the limited body of a request.
unfoldable pub decode_json : {A : Type 0} → (List ℕ → Bool → Option A) → HttpRequest → Option A
unfolding limited
decode_json decode r = let (bytes, cut) = limited r.body in decode bytes cut

module _ (p : Platform) (web : Web) (s : Service) (secure_cookies : Bool) where
  -- The reply to an admitted guest: the session, and its secret in the cookie.
  unfoldable pub admit : ℕ → Session → Reply web.KeySet
  unfolding write_json session_view set_resume_cookie
  admit status session =
      set_resume_cookie secure_cookies session.resume_secret
        (write_json status (Body.session (session_view session)))

  unfoldable pub start_session : HttpRequest → World p.Bytes → Reply web.KeySet × World p.Bytes
  unfolding decode_json admit write_error write_access_error say respond Sessions.start_session
      Sessions.renew_session
  start_session r = elim (decode_json web.decode_invitation r) [
    | none ↦ say (write_error 400 "invalid_request" decoder_text)
    | some invitation ↦
        if not (str_eq invitation "")
        then respond (Sessions.start_session p s invitation) (admit 201)
        else elim r.cookie [
          | none ↦ say (write_access_error (sentinel not_found))
          | some secret ↦ respond (Sessions.renew_session p s secret) (admit 201)
        ]
  ]

  unfoldable pub renew_session : HttpRequest → World p.Bytes → Reply web.KeySet × World p.Bytes
  unfolding admit write_access_error say respond Sessions.renew_session
  renew_session r = elim r.cookie [
    | none ↦ say (write_access_error (sentinel session_expired))
    | some secret ↦ respond (Sessions.renew_session p s secret) (admit 200)
  ]

  unfoldable pub heartbeat_session : HttpRequest → World p.Bytes → Reply web.KeySet × World p.Bytes
  unfolding write_json write_access_error say respond Sessions.heartbeat_session
  heartbeat_session r = elim r.cookie [
    | none ↦ say (write_access_error (sentinel session_expired))
    | some secret ↦
        respond (Sessions.heartbeat_session p s secret)
          λ expires. write_json 200 (Body.lease expires)
  ]

  -- The reply removes the cookie, and the session goes on until its lease ends.
  unfoldable pub end_session : HttpRequest → World p.Bytes → Reply web.KeySet × World p.Bytes
  unfolding write_json say
  end_session r = say (record (write_json 204 Body.empty) {
    cookie = some (record { value = ""; secure = secure_cookies; expired = true });
  })
