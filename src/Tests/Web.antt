-- ===== src/Tests/Web.antt =====
-- Requests on the HTTP API, with a provider that knows one token.
use nats_guest_access.Prelude.{
  ℕ, ◌<◌, String, ◌≡◌, ◌≢◌, refl, Bool, true, false, Option, none, some, List, [], ◌∷◌, arith, pos,
  ℤ, ◌↔◌, str_eq, eq_iff, has_prefix, itoa, has_no_slash, if◌then◌else◌, inl, inr,
}
use nats_guest_access.Errors.{Error, failure, backend}
use nats_guest_access.Store
use nats_guest_access.Store.Table
use nats_guest_access.World
use nats_guest_access.World.{World}
use nats_guest_access.World.Reads.{Watched}
use nats_guest_access.Access
use nats_guest_access.Access.Deletion
use nats_guest_access.Api.{HttpRequest, Web, Body, fixed, text_of}
use nats_guest_access.Api.Presenters.{PresenterVerifier, verify}
use nats_guest_access.Api.Presenters.Admission.{Admitted, verify-Admitted}
use nats_guest_access.Api.Replies.{
  respond, write_json, write_error, write_access_error, status_of, unauthorized,
}
use nats_guest_access.Api.Refusals.{is_any, access_errors, access_error-told}
use nats_guest_access.Api.Routing.{Server, takes, route, serve_http, security_headers}
use nats_guest_access.Api.ReadOnly.{get_reads_only}
use nats_guest_access.Api.Releases.{release-route, slot_path}
use nats_guest_access.Api.Renewals.{Renewed, renewal-keeps_secret}
use nats_guest_access.Api.Outcomes.{Created, post_event-created}
use nats_guest_access.Api.Unauthorized.{presenters_only}
use nats_guest_access.Samples.{sample, service, fresh, talk}
use nats_guest_access.Tests.Requests.{at_lunch}

abbrev web : Web
web = record {
  decode_invitation = λ bytes cut. some "";
  decode_event_input = λ bytes cut. some talk;
  decode_capacity = λ bytes cut. none;
  decode_cohost = λ bytes cut. none;
  Provider = String;
  Token = String;
  find_provider = λ url. some url;
  verify_token = λ provider client token. if str_eq token "t" then some token else none;
  token_claims = λ token. some ("owner", "demo-presenters" ∷ []);
  KeySet = String;
}

abbrev server : Server web
server = record {
  presenters =
      some (record { provider = "https://id.example"; client_id = "c"; group = "demo-presenters" });
  secure_cookies = true;
  keys = "keys";
}

abbrev request : String → String → String → HttpRequest
request method path authorization = record {
  method = method;
  path = path;
  authorization = authorization;
  cookie = some "s";
  body = [];
}

abbrev show : HttpRequest
show = request "GET" "/v1/events/uuid-0" "Bearer t"

get_taken : takes "GET" "GET" ≡ true
unfolding takes
get_taken = refl

get_reads_only_example : Watched at_lunch (serve_http sample web service server show at_lunch).1
get_reads_only_example = get_reads_only sample web service server show at_lunch get_taken

abbrev owner_name : String
owner_name = "owner"

verify-Admitted_example :
    (verify web server.presenters show ≡ some owner_name)
    ↔ ((v : PresenterVerifier web) × (server.presenters ≡ some v) × Admitted web v show owner_name)
verify-Admitted_example = verify-Admitted web server.presenters show owner_name

abbrev stranger : HttpRequest
stranger = request "POST" "/v1/events/uuid-0/delete" "Bearer x"

stranger_refused : verify web server.presenters stranger ≡ none
unfolding verify
stranger_refused = refl

stranger_path : has_prefix "/v1/events/" "/v1/events/uuid-0/delete" ≡ true
unfolding has_prefix
stranger_path = refl

presenters_only_example :
    serve_http sample web service server stranger at_lunch
    ≡ (security_headers unauthorized, at_lunch)
presenters_only_example =
    presenters_only sample web service server stranger at_lunch (inr (inr stranger_path))
      stranger_refused

abbrev creation : HttpRequest
creation = request "POST" "/v1/events" "Bearer t"

creation_status : (serve_http sample web service server creation fresh).0.status ≡ 201
unfolding serve_http World.◌>>=◌ World.give Store.create Table.find Store.apply_all Store.write
    World.try World.handle Table.put Access.event_key nats_guest_access.Prelude.itoa
    Access.invitation_key Access.digest World.pure
creation_status = refl

post_event-created_example : Created sample web service server creation fresh
post_event-created_example =
    post_event-created sample web service server creation fresh refl refl creation_status

abbrev renewal : HttpRequest
renewal = request "POST" "/v1/guest-sessions/token" ""

renewal_status : (serve_http sample web service server renewal at_lunch).0.status ≡ 200
unfolding serve_http World.◌>>=◌ World.try World.give Store.get Table.find Store.apply_all
    Access.session_key Access.digest Access.event_key World.pure Access.slot_key
    nats_guest_access.Prelude.pad3 Store.update Store.write
renewal_status = refl

renewal-keeps_secret_example : Renewed sample service web server renewal at_lunch
renewal-keeps_secret_example =
    renewal-keeps_secret sample service web server renewal at_lunch refl refl renewal_status

abbrev release_request : HttpRequest
release_request = request "DELETE" "/v1/events/uuid-0/slots/1" "Bearer t"

owner_verified : verify web server.presenters release_request ≡ some "owner"
unfolding verify
owner_verified = refl

abbrev uuid : String
uuid = "uuid-0"

named_uuid : uuid ≢ ""
named_uuid h = ground (arith, eq_iff uuid "")

release_path : "/v1/events/uuid-0/slots/1" ≡ slot_path "uuid-0" 1
unfolding itoa
release_path = refl

slashless : has_no_slash "uuid-0" ≡ true
unfolding has_no_slash
slashless = refl

release-route_example :
    route sample web service server release_request
    ≡ respond
        (Deletion.release_slot sample service "owner" "uuid-0" 1)
        (λ u. write_json 204 Body.empty)
release-route_example =
    release-route sample web service server release_request "owner" "uuid-0" 1 refl release_path
      named_uuid slashless (omega arith) (omega arith) owner_verified

abbrev lost : Error
lost = failure backend

access_error-told_example :
    (is_any lost access_errors ≡ false
      → write_access_error {K = String} lost
        ≡ write_error 500 "internal_error" (fixed "request failed"))
    × (is_any lost access_errors ≡ true
        → ((status_of lost).0 ≢ 500)
          × (write_access_error {K = String} lost
              ≡ write_error (status_of lost).0 (status_of lost).1 (text_of lost)))
access_error-told_example = access_error-told lost
