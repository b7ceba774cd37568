-- ===== src/Api/Unauthorized.antt =====
-- internal/api/api.go: requests of callers that are not verified.
use nats_guest_access.Prelude.{
  String, ◌≡◌, ◌∙◌, refl, true, false, Bool-cases, ◌⊎◌, inl, inr, none, str_eq, eq_iff, has_prefix,
}
use nats_guest_access.Platform.{Platform}
use nats_guest_access.World.{World}
use nats_guest_access.Access.{Service}
use nats_guest_access.Api.{HttpRequest, Web}
use nats_guest_access.Api.Events
use nats_guest_access.Api.Presenters.{verify}
use nats_guest_access.Api.Routing.{Server, route, only, takes, serve_http, security_headers}
use nats_guest_access.Api.Replies.{say, unauthorized}

-- The requests for presenters.
abbrev pub IsForPresenters : HttpRequest → Type 0
IsForPresenters r =
    ((r.path ≡ "/v1/receipts") × (takes "GET" r.method ≡ true))
    ⊎ ((r.path ≡ "/v1/events") ⊎ (has_prefix "/v1/events/" r.path ≡ true))

-- A path with a prefix is no text without it.
other_path :
    (prefix path text : String)
    → has_prefix prefix path ≡ true
    → has_prefix prefix text ≡ false
    → str_eq path text ≡ false
other_path prefix path text h g = elim (Bool-cases (str_eq path text)) [
  | inl same ↦ absurd (impossible ((eq_iff path text).0 same))
  | inr e ↦ e
]
  where
    impossible : path ≡ text → ⊥
    impossible e = cc

module _ (p : Platform) (web : Web) (s : Service) (server : Server web) where
  verified-none :
      (r : HttpRequest) (handler : String → Events.Handler p web s)
      → verify web server.presenters r ≡ none
      → Events.verified p web s server.presenters r handler ≡ say unauthorized
  unfolding Events.verified
  verified-none r handler h = rw (h, Events.verified) refl

  pub route-event :
      (r : HttpRequest)
      → has_prefix "/v1/events/" r.path ≡ true
      → route p web s server r ≡ Events.event p web s server.presenters r
  unfolding route has_prefix
  route-event r x =
      simp
        (
          other_path "/v1/events/" r.path "/.well-known/openid-configuration" x refl,
          other_path "/v1/events/" r.path "/jwks" x refl,
          other_path "/v1/events/" r.path "/healthz" x refl,
          other_path "/v1/events/" r.path "/readyz" x refl,
          other_path "/v1/events/" r.path "/v1/guest-sessions" x refl,
          other_path "/v1/events/" r.path "/v1/guest-sessions/token" x refl,
          other_path "/v1/events/" r.path "/v1/guest-sessions/heartbeat" x refl,
          other_path "/v1/events/" r.path "/v1/guest-sessions/current" x refl,
          other_path "/v1/events/" r.path "/v1/receipts" x refl,
          other_path "/v1/events/" r.path "/v1/events" x refl,
          x,
        )
        refl

  route-refused :
      (r : HttpRequest)
      → IsForPresenters r
      → verify web server.presenters r ≡ none
      → route p web s server r ≡ say unauthorized
  unfolding route only has_prefix Events.receipts Events.events Events.event
  route-refused r (inl x) h = simp (x.0, x.1) (verified-none r _ h)
  route-refused r (inr (inl x)) h = simp (x) (verified-none r _ h)
  route-refused r (inr (inr x)) h = route-event r x ∙ verified-none r _ h

  -- A request for presenters, which is one on /v1/events or below it with any method or one on
  -- /v1/receipts with GET or HEAD, whose caller is not verified is answered with the status 401
  -- and leaves the world as it was.
  pub presenters_only :
      (r : HttpRequest) (w : World p.Bytes)
      → IsForPresenters r
      → verify web server.presenters r ≡ none
      → serve_http p web s server r w ≡ (security_headers unauthorized, w)
  unfolding serve_http say
  presenters_only r w x h = rw (route-refused r x h) refl
