-- ===== src/Api/ReadOnly.antt =====
-- internal/api/api.go: requests with the method GET or HEAD.
use nats_guest_access.Prelude.{
  String, ◌≡◌, refl, Bool, true, false, not, ◌||◌, ◌&&◌, Option, none, some, List, [], ◌∷◌, str_eq,
  eq_iff, if◌then◌else◌, arith, has_prefix,
}
use nats_guest_access.Platform.{Platform}
use nats_guest_access.World.{World, Action}
use nats_guest_access.World.Reads.{Watched, Watched-refl, Reads}
use nats_guest_access.Access.{Service}
use nats_guest_access.Access.Readers.ReadOnly.{
  Reads-get_event, Reads-list_events, Reads-list_slots, Reads-get_receipt, Reads-list_receipts,
}
use nats_guest_access.Api.{HttpRequest, Web, Reply}
use nats_guest_access.Api.Events
use nats_guest_access.Api.Guests
use nats_guest_access.Api.Replies
use nats_guest_access.Api.Presenters.{verify}
use nats_guest_access.Api.Routing
use nats_guest_access.Api.Routing.{Server, route, only, takes, serve_http}
use nats_guest_access.Api.Replies.{say, respond}

other_method :
    (method other : String)
    → takes "GET" method ≡ true
    → takes "GET" other ≡ false
    → str_eq method other ≡ false
unfolding takes
other_method method other h g = ground (arith, eq_iff method other)

never_takes :
    (pattern method : String)
    → str_eq method pattern ≡ false
    → str_eq pattern "GET" ≡ false
    → takes pattern method ≡ false
unfolding takes
never_takes pattern method e g = ground (arith, eq_iff method pattern, eq_iff pattern method)

refuted : {b : Bool} → b ≡ false → not b ≡ false → ⊥
refuted e q = ground arith

module _ (p : Platform) (web : Web) (s : Service) where
  -- The handler only reads.
  pub record Calm (h : Events.Handler p web s) : Type 0 where
    pub at : (w : World p.Bytes) → Watched w (h w).1

  Calm-say : (reply : Reply web.KeySet) → Calm (say reply)
  unfolding say
  Calm-say reply = record { at = Watched-refl }

  Calm-respond :
      {A : Type 0} {m : Action p.Bytes A} (view : A → Reply web.KeySet)
      → Reads m
      → Calm (respond m view)
  unfolding respond
  Calm-respond view x = record { at = x.at }

  Calm-if :
      (b : Bool) {h k : Events.Handler p web s}
      → (b ≡ true → Calm h)
      → (b ≡ false → Calm k)
      → Calm (if b then h else k)
  Calm-if true x y = x refl
  Calm-if false x y = y refl

  module _ (r : HttpRequest) (post : str_eq r.method "POST" ≡ false)
      (put : str_eq r.method "PUT" ≡ false) (delete : str_eq r.method "DELETE" ≡ false) where
    -- What only a writing method runs.
    needs :
        (needed : String) (reply : Reply web.KeySet) (k : Events.Handler p web s)
        → str_eq r.method needed ≡ false
        → Calm (if not (str_eq r.method needed) then say reply else k)
    needs needed reply k e =
        Calm-if (not (str_eq r.method needed)) (λ _. Calm-say _) (λ q. absurd (refuted e q))

    Calm-operation :
        (principal event_id name : String)
        → Calm (Events.operation p web s principal event_id name r)
    unfolding Events.operation
    Calm-operation principal event_id name =
        Calm-if (str_eq name "open" || str_eq name "pause" || str_eq name "reopen")
          (λ _. needs "POST" _ _ post)
          λ _.
            Calm-if (str_eq name "invitation") (λ _. needs "POST" _ _ post)
              λ _.
                Calm-if (str_eq name "capacity") (λ _. needs "PUT" _ _ put)
                  λ _.
                    Calm-if (str_eq name "cohosts") (λ _. needs "PUT" _ _ put)
                      λ _.
                        Calm-if (str_eq name "slots")
                          (λ _.
                            Calm-if (not (str_eq r.method "GET")) (λ _. Calm-say _)
                              (λ _. Calm-respond _ (Reads-list_slots p _ _)))
                          λ _.
                            Calm-if (str_eq name "receipt")
                              (λ _.
                                Calm-if (not (str_eq r.method "GET")) (λ _. Calm-say _)
                                  (λ _. Calm-respond _ (Reads-get_receipt p _ _)))
                              λ _.
                                Calm-if (str_eq name "delete") (λ _. needs "POST" _ _ post)
                                  λ _. Calm-say _

    Calm-on_event :
        (principal event_id : String) (parts : List String)
        → Calm (Events.on_event p web s principal event_id parts r)
    unfolding Events.on_event
    Calm-on_event principal event_id [] =
        Calm-if (str_eq r.method "GET") (λ _. Calm-respond _ (Reads-get_event p _ _))
          (λ _. Calm-say _)
    Calm-on_event principal event_id (name ∷ []) = Calm-operation principal event_id name
    Calm-on_event principal event_id (name ∷ text ∷ []) =
        Calm-if (str_eq name "slots" && str_eq r.method "DELETE") (λ q. absurd (ground arith))
          (λ _. Calm-say _)
    Calm-on_event principal event_id (name ∷ text ∷ more ∷ parts) = Calm-say _

    Calm-events_for : (principal : String) → Calm (Events.events_for p web s principal r)
    unfolding Events.events_for
    Calm-events_for principal =
        Calm-if (str_eq r.method "POST") (λ q. absurd (ground arith))
          λ _.
            Calm-if (str_eq r.method "GET") (λ _. Calm-respond _ (Reads-list_events p _))
              (λ _. Calm-say _)

    Calm-event_for :
        (principal : String) (parts : List String)
        → Calm (Events.event_for p web s principal parts r)
    unfolding Events.event_for
    Calm-event_for principal [] = Calm-say _
    Calm-event_for principal (event_id ∷ parts) =
        Calm-if (str_eq event_id "") (λ _. Calm-say _) (λ _. Calm-on_event principal event_id parts)

    module _ (server : Server web) where
      Calm-verified :
          {handler : String → Events.Handler p web s}
          → ((principal : String) → Calm (handler principal))
          → Calm (Events.verified p web s server.presenters r handler)
      unfolding Events.verified
      Calm-verified {handler} x = go (verify web server.presenters r)
        where
          go :
              (o : Option String)
              → Calm
                  (elim o [ none ↦ say Replies.unauthorized | some principal ↦ handler principal ])
          go none = Calm-say _
          go (some principal) = x principal

      Calm-other :
          (pattern : String) (handler : HttpRequest → Events.Handler p web s)
          → takes pattern r.method ≡ false
          → Calm (only p web s server pattern handler r)
      unfolding only
      Calm-other pattern handler e = rw e (Calm-say _)

      Calm-only :
          (pattern : String) (handler : HttpRequest → Events.Handler p web s)
          → Calm (handler r)
          → Calm (only p web s server pattern handler r)
      unfolding only
      Calm-only pattern handler x = Calm-if (takes pattern r.method) (λ _. x) (λ _. Calm-say _)

      Calm-route : Calm (route p web s server r)
      unfolding route Routing.discovery Routing.jwks Routing.health Events.receipts Events.events
          Events.event
      Calm-route =
          Calm-if (str_eq r.path "/.well-known/openid-configuration")
            (λ _. Calm-only "GET" (Routing.discovery p web s server) (Calm-say _))
            λ _.
              Calm-if (str_eq r.path "/jwks")
                (λ _. Calm-only "GET" (Routing.jwks p web s server) (Calm-say _))
                λ _.
                  Calm-if (str_eq r.path "/healthz")
                    (λ _. Calm-only "GET" (Routing.health p web s server) (Calm-say _))
                    λ _.
                      Calm-if (str_eq r.path "/readyz")
                        (λ _. Calm-only "GET" (Routing.health p web s server) (Calm-say _))
                        λ _.
                          Calm-if (str_eq r.path "/v1/guest-sessions")
                            (λ _.
                              Calm-other "POST" (Guests.start_session p web s server.secure_cookies)
                                posts)
                            λ _.
                              Calm-if (str_eq r.path "/v1/guest-sessions/token")
                                (λ _.
                                  Calm-other "POST"
                                    (Guests.renew_session p web s server.secure_cookies) posts)
                                λ _.
                                  Calm-if (str_eq r.path "/v1/guest-sessions/heartbeat")
                                    (λ _.
                                      Calm-other "POST"
                                        (Guests.heartbeat_session p web s server.secure_cookies)
                                        posts)
                                    λ _.
                                      Calm-if (str_eq r.path "/v1/guest-sessions/current")
                                        (λ _.
                                          Calm-other "DELETE"
                                            (Guests.end_session p web s server.secure_cookies)
                                            deletes)
                                        λ _.
                                          Calm-if (str_eq r.path "/v1/receipts")
                                            (λ _.
                                              Calm-only "GET"
                                                (Events.receipts p web s server.presenters)
                                                (Calm-verified λ principal.
                                                  Calm-respond _ (Reads-list_receipts p principal)))
                                            λ _.
                                              Calm-if (str_eq r.path "/v1/events")
                                                (λ _. Calm-verified Calm-events_for)
                                                λ _.
                                                  Calm-if (has_prefix "/v1/events/" r.path)
                                                    (λ _. Calm-verified λ principal.
                                                      Calm-event_for principal
                                                        (Events.path_parts r.path))
                                                    λ _. Calm-say _
        where
          posts : takes "POST" r.method ≡ false
          posts = never_takes "POST" r.method post refl

          deletes : takes "DELETE" r.method ≡ false
          deletes = never_takes "DELETE" r.method delete refl

  -- Whatever the path, the headers and the body of a request with the method GET or HEAD, from
  -- the world before it to the world after it the store is only changed by others, in the turns
  -- that the request's store calls used up, and the cleaner is not asked.
  pub get_reads_only :
      (server : Server web) (r : HttpRequest) (w : World p.Bytes)
      → takes "GET" r.method ≡ true
      → Watched w (serve_http p web s server r w).1
  unfolding serve_http
  get_reads_only server r w h =
      (Calm-route r (other_method r.method "POST" h refl) (other_method r.method "PUT" h refl)
          (other_method r.method "DELETE" h refl) server).at
        w
