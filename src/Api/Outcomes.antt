-- ===== src/Api/Outcomes.antt =====
-- internal/api/api.go: what a reply without an error says of the access service.
use nats_guest_access.Prelude.{◌<◌, ◌≤◌, String, ◌≡◌, ap, refl, Option, none, some, arith}
use nats_guest_access.Errors.{Error, Result, ok, err}
use nats_guest_access.Model.{Event}
use nats_guest_access.Platform.{Platform}
use nats_guest_access.World.{World}
use nats_guest_access.Access.{Service}
use nats_guest_access.Access.Events.{CreateEventInput, create_event}
use nats_guest_access.Access.Results.Presenter.{CreatedFrom, create_event-valid}
use nats_guest_access.Api.{HttpRequest, Web, Reply, Body, decoder_text}
use nats_guest_access.Api.Events
use nats_guest_access.Api.Events.{events_for}
use nats_guest_access.Api.Guests.{decode_json}
use nats_guest_access.Api.Presenters.{verify}
use nats_guest_access.Api.Routing.{Server, route, serve_http, security_headers}
use nats_guest_access.Api.Replies.{
  unauthorized, say, status_of, write_json, write_error, write_access_error, reply_of, respond,
  event_view,
}

status_of-error : (e : Error) → 400 ≤ (status_of e).0
unfolding status_of
status_of-error e = ground arith

module _ {K : Type 0} where
  access_error-status :
      (e : Error) (reply : Reply K) → reply ≡ write_access_error e → 400 ≤ reply.status
  unfolding write_access_error
  access_error-status e reply h = rw h (ground (arith, status_of-error e))

  -- A reply below 400 is the view of a value.
  pub reply_of-value :
      {A : Type 0} (view : A → Reply K) (r : Result A)
      → (reply_of view r).status < 400
      → (a : A) × (r ≡ ok a) × (reply_of view r ≡ view a)
  unfolding reply_of
  reply_of-value view (ok a) h = (a, refl, refl)
  reply_of-value view (err e) h = absurd (ground (arith, access_error-status e _ refl))

module _ (p : Platform) (web : Web) (s : Service) (server : Server web) where
  -- What a POST of an event that is answered with 201 shows.
  pub record Created (r : HttpRequest) (w : World p.Bytes) : Type 0 where
    pub principal : String
    pub input : CreateEventInput
    pub shown : Event
    pub url : String
    pub caller : verify web server.presenters r ≡ some principal
    pub asked : decode_json web.decode_event_input r ≡ some input
    pub body : (serve_http p web s server r w).0.body ≡ Body.created (event_view shown) url
    pub created : CreatedFrom s principal input shown

  module _ (r : HttpRequest) (w : World p.Bytes) (path : r.path ≡ "/v1/events")
      (method : r.method ≡ "POST") where
    -- The reply, by what the request and the service give.
    answer : Option String → Option CreateEventInput → Reply web.KeySet
    answer none input = unauthorized
    answer (some principal) none = write_error 400 "invalid_request" decoder_text
    answer (some principal) (some input) =
        reply_of (Events.show_created p web s) (create_event p s principal input w).0

    for-answer :
        (principal : String)
        → (events_for p web s principal r w).0
          ≡ answer (some principal) (decode_json web.decode_event_input r)
    unfolding events_for answer respond say
    for-answer principal = simp (method) (go (decode_json web.decode_event_input r))
      where
        go :
            (i : Option CreateEventInput)
            → ((elim i as (λ x. Events.Handler p web s) [
              | none ↦ say (write_error 400 "invalid_request" decoder_text)
              | some input ↦
                  respond (create_event p s principal input) (Events.show_created p web s)
            ])
                w).0
              ≡ answer (some principal) i
        go none = refl
        go (some input) = refl

    events-answer :
        (Events.events p web s server.presenters r w).0
        ≡ answer (verify web server.presenters r) (decode_json web.decode_event_input r)
    unfolding Events.events Events.verified answer say
    events-answer = go (verify web server.presenters r)
      where
        go :
            (o : Option String)
            → ((elim o as (λ x. Events.Handler p web s) [
              | none ↦ say unauthorized
              | some principal ↦ events_for p web s principal r
            ])
                w).0
              ≡ answer o (decode_json web.decode_event_input r)
        go none = refl
        go (some principal) = for-answer principal

    route-events : route p web s server r ≡ Events.events p web s server.presenters r
    unfolding route
    route-events = simp (path) refl

    serve-answer :
        (serve_http p web s server r w).0
        ≡ security_headers
            (answer (verify web server.presenters r) (decode_json web.decode_event_input r))
    unfolding serve_http
    serve-answer = rw route-events (ap security_headers events-answer)

  module _ (r : HttpRequest) (w : World p.Bytes) (path : r.path ≡ "/v1/events")
      (method : r.method ≡ "POST") where
    answered :
        (o : Option String) (i : Option CreateEventInput)
        → verify web server.presenters r ≡ o
        → decode_json web.decode_event_input r ≡ i
        → (answer r w path method o i).status ≡ 201
        → Created r w
    unfolding answer unauthorized write_error security_headers event_view Events.show_created
        write_json
    answered none i q q' status = absurd (ground arith)
    answered (some principal) none q q' status = absurd (ground arith)
    answered (some principal) (some input) q q' status =
        let (created, given, shown) =
          reply_of-value (Events.show_created p web s) (create_event p s principal input w).0
            (omega arith) in
        record {
          principal = principal;
          input = input;
          shown = created.0;
          url = created.1;
          caller = q;
          asked = q';
          body = rw (serve-answer r w path method) (rw q (rw q' (ap (λ reply. reply.body) shown)));
          created = create_event-valid p s principal input w created.0 created.1 given;
        }

  -- If a POST request on /v1/events is answered with 201, its caller was verified, its body was
  -- decoded, and the reply shows an event that meets what CreateEvent promises for that caller
  -- and that input.
  pub post_event-created :
      (r : HttpRequest) (w : World p.Bytes)
      → r.path ≡ "/v1/events"
      → r.method ≡ "POST"
      → (serve_http p web s server r w).0.status ≡ 201
      → Created r w
  unfolding security_headers
  post_event-created r w path method status =
      answered r w path method (verify web server.presenters r)
        (decode_json web.decode_event_input r) refl refl
        (rw (serve-answer r w path method) at status)
