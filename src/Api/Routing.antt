-- ===== src/Api/Routing.antt =====
-- internal/api/api.go: New, the middleware, and the endpoints that need no service. The path of a
-- request is one that http.ServeMux neither cleans nor unescapes.
use nats_guest_access.Prelude.{
  String, Bool, ◌&&◌, ◌||◌, Option, [], ◌∷◌, str_eq, has_prefix, if◌then◌else◌,
}
use nats_guest_access.Platform.{Platform}
use nats_guest_access.Issuer
use nats_guest_access.Access.{Service}
use nats_guest_access.Api.{HttpRequest, Web, Body, Reply}
use nats_guest_access.Api.Presenters.{PresenterVerifier}
use nats_guest_access.Api.Guests
use nats_guest_access.Api.Events
use nats_guest_access.Api.Events.{Handler}
use nats_guest_access.Api.Replies.{write_json, say}

-- http.ServeMux: a pattern for GET takes HEAD too.
unfoldable pub takes : String → String → Bool
takes pattern method = str_eq pattern method || str_eq pattern "GET" && str_eq method "HEAD"

unfoldable pub allow_header : String → String
allow_header pattern = if str_eq pattern "GET" then "GET, HEAD" else pattern

module _ {K : Type 0} where
  -- http.ServeMux's answers where no pattern fits, and where only the method does not.
  unfoldable pub no_route : Reply K
  unfolding write_json
  no_route = write_json 404 (Body.plain_text "404 page not found")

  unfoldable pub wrong_method : String → Reply K
  unfolding write_json allow_header
  wrong_method pattern = record (write_json 405 (Body.plain_text "Method Not Allowed")) {
    headers = ("Allow", allow_header pattern) ∷ [];
  }

  unfoldable pub security_headers : Reply K → Reply K
  security_headers reply = record reply {
    headers =
        ("Cache-Control", "no-store")
        ∷ ("X-Content-Type-Options", "nosniff")
        ∷ ("Referrer-Policy", "no-referrer")
        ∷ reply.headers;
  }

-- The struct API, beside the service. The issuer is the service's.
pub record Server (web : Web) : Type 0 where
  pub presenters : Option (PresenterVerifier web)
  pub secure_cookies : Bool
  pub keys : web.KeySet

module _ (p : Platform) (web : Web) (s : Service) (api : Server web) where
  unfoldable pub discovery : HttpRequest → Handler p web s
  unfolding write_json say Issuer.discovery
  discovery r = say (write_json 200 (Body.discovery (Issuer.discovery s.issuer)))

  unfoldable pub jwks : HttpRequest → Handler p web s
  unfolding write_json say
  jwks r = say (write_json 200 (Body.keys api.keys))

  unfoldable pub health : HttpRequest → Handler p web s
  unfolding write_json say
  health r = say (write_json 200 Body.healthy)

  -- The handler of a pattern with a method.
  unfoldable pub only : String → (HttpRequest → Handler p web s) → HttpRequest → Handler p web s
  unfolding takes wrong_method say
  only pattern handler r = if takes pattern r.method then handler r else say (wrong_method pattern)

  -- The handler of the pattern that fits the path.
  unfoldable pub route : HttpRequest → Handler p web s
  unfolding discovery jwks health only no_route say has_prefix Guests.start_session
      Guests.renew_session Guests.heartbeat_session Guests.end_session Events.receipts Events.events
      Events.event
  route r =
      if str_eq r.path "/.well-known/openid-configuration"
      then only "GET" discovery r
      else if str_eq r.path "/jwks"
      then only "GET" jwks r
      else if str_eq r.path "/healthz"
      then only "GET" health r
      else if str_eq r.path "/readyz"
      then only "GET" health r
      else if str_eq r.path "/v1/guest-sessions"
      then only "POST" (Guests.start_session p web s api.secure_cookies) r
      else if str_eq r.path "/v1/guest-sessions/token"
      then only "POST" (Guests.renew_session p web s api.secure_cookies) r
      else if str_eq r.path "/v1/guest-sessions/heartbeat"
      then only "POST" (Guests.heartbeat_session p web s api.secure_cookies) r
      else if str_eq r.path "/v1/guest-sessions/current"
      then only "DELETE" (Guests.end_session p web s api.secure_cookies) r
      else if str_eq r.path "/v1/receipts"
      then only "GET" (Events.receipts p web s api.presenters) r
      else if str_eq r.path "/v1/events"
      then Events.events p web s api.presenters r
      else if has_prefix "/v1/events/" r.path
      then Events.event p web s api.presenters r
      else say no_route

  -- The handler that New returns.
  unfoldable pub serve_http : HttpRequest → Handler p web s
  unfolding route security_headers
  serve_http r w = let (reply, w') = route r w in (security_headers reply, w')
