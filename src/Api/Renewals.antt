-- ===== src/Api/Renewals.antt =====
-- internal/api/api.go: the reply to a guest whose session is renewed.
use nats_guest_access.Prelude.{String, ◌≡◌, ◌∙◌, ap, refl, Bool, false, Option, none, some, arith}
use nats_guest_access.Platform.{Platform}
use nats_guest_access.World.{World}
use nats_guest_access.World.Results.{Gives, Gives-bind, Gives-pure}
use nats_guest_access.Access.{Service}
use nats_guest_access.Access.Sessions
use nats_guest_access.Access.Sessions.{Session}
use nats_guest_access.Api.{HttpRequest, Web, Reply, Body, ResumeCookie}
use nats_guest_access.Api.Events.{Handler}
use nats_guest_access.Api.Guests
use nats_guest_access.Api.Guests.{admit}
use nats_guest_access.Api.Outcomes.{reply_of-value}
use nats_guest_access.Api.Routing.{Server, route, only, takes, serve_http, security_headers}
use nats_guest_access.Api.Replies.{
  write_access_error, reply_of, respond, say, set_resume_cookie, session_view, write_json,
}
use nats_guest_access.Errors.{ok, sentinel, session_expired}

-- A cookie that stays until the browser closes.
abbrev resume_cookie : Bool → String → ResumeCookie
resume_cookie secure secret = record { value = secret; secure = secure; expired = false }

module _ (p : Platform) (s : Service) where
  Gives-renew_session :
      (secret : String)
      → Gives (Sessions.renew_session p s secret) (λ session. session.resume_secret ≡ secret)
  unfolding Sessions.renew_session Sessions.mint
  Gives-renew_session secret =
      Gives-bind _
        λ lease. Gives-bind _ λ time. Gives-bind _ λ id. Gives-bind _ λ token. Gives-pure _ refl

  module _ (web : Web) (server : Server web) where
    -- What a renewal that is answered with 200 shows.
    pub record Renewed (r : HttpRequest) (w : World p.Bytes) : Type 0 where
      pub secret : String
      pub session : Session
      pub shown : r.cookie ≡ some secret
      pub renewed : (Sessions.renew_session p s secret w).0 ≡ ok session
      pub body : (serve_http p web s server r w).0.body ≡ Body.session (session_view session)
      pub cookie :
          (serve_http p web s server r w).0.cookie
          ≡ some (resume_cookie server.secure_cookies secret)

    module _ (r : HttpRequest) (w : World p.Bytes) (path : r.path ≡ "/v1/guest-sessions/token")
        (method : r.method ≡ "POST") where
      -- The reply, by the cookie and what the service gives.
      answer : Option String → Reply web.KeySet
      answer none = write_access_error (sentinel session_expired)
      answer (some secret) =
          reply_of (admit p web s server.secure_cookies 200) (Sessions.renew_session p s secret w).0

      route-token : route p web s server r ≡ Guests.renew_session p web s server.secure_cookies r
      unfolding route only takes
      route-token = simp (path, method) refl

      renew-answer : (Guests.renew_session p web s server.secure_cookies r w).0 ≡ answer r.cookie
      unfolding Guests.renew_session answer say respond
      renew-answer = go r.cookie
        where
          go :
              (o : Option String)
              → ((elim o as (λ x. Handler p web s) [
                | none ↦ say (write_access_error (sentinel session_expired))
                | some secret ↦
                    respond
                      (Sessions.renew_session p s secret)
                      (admit p web s server.secure_cookies 200)
              ])
                  w).0
                ≡ answer o
          go none = refl
          go (some secret) = refl

      serve-answer : (serve_http p web s server r w).0 ≡ security_headers (answer r.cookie)
      unfolding serve_http
      serve-answer = rw route-token (ap security_headers renew-answer)

      answered : (o : Option String) → r.cookie ≡ o → (answer o).status ≡ 200 → Renewed r w
      unfolding answer security_headers admit set_resume_cookie write_json write_access_error
      answered none q status = absurd (ground arith)
      answered (some secret) q status =
          let (session, given, shown) =
            reply_of-value (admit p web s server.secure_cookies 200)
              (Sessions.renew_session p s secret w).0 (omega arith) in
          let same : session.resume_secret ≡ secret =
            (Gives-renew_session secret).at w session given in
          record {
            secret = secret;
            session = session;
            shown = q;
            renewed = given;
            body = rw serve-answer (rw q (ap (λ reply. reply.body) shown));
            cookie = rw serve-answer (
                rw q (
                  ap (λ reply. reply.cookie) shown
                  ∙ ap (λ v. some (resume_cookie server.secure_cookies v)) same));
          }

    -- If a POST request on /v1/guest-sessions/token is answered with 200, it had a resume
    -- cookie, RenewSession ended with a session for that cookie's secret, the body is that
    -- session without the secret, and the cookie is set to the same secret.
    pub renewal-keeps_secret :
        (r : HttpRequest) (w : World p.Bytes)
        → r.path ≡ "/v1/guest-sessions/token"
        → r.method ≡ "POST"
        → (serve_http p web s server r w).0.status ≡ 200
        → Renewed r w
    unfolding security_headers
    renewal-keeps_secret r w path method status =
        answered r w path method r.cookie refl (rw (serve-answer r w path method) at status)
