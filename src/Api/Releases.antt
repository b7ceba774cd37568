-- ===== src/Api/Releases.antt =====
-- internal/api/api.go: the path that releases a slot, as a client writes it.
use nats_guest_access.Prelude.{
  ℕ, ◌<◌, ◌^◌, String, ◌++◌, ◌≡◌, ◌≢◌, ◌∙◌, ap, refl, true, false, some, [], ◌∷◌, arith, itoa,
  has_no_slash, is_slash, trim_right_of, has_prefix-append, atoi-itoa, has_no_slash-itoa,
  itoa-nonempty, split_path-segment, split_path-last, trim_prefix-append, trim_left_of-segment,
  trim_right_of-last, trim_right_of-append, append_nonempty, str_eq, eq_iff,
}
use nats_guest_access.Platform.{Platform}
use nats_guest_access.Access.{Service}
use nats_guest_access.Access.Deletion
use nats_guest_access.Api.{HttpRequest, Web, Body}
use nats_guest_access.Api.Events
use nats_guest_access.Api.Events.{path_parts, slot_number, on_event, event_for}
use nats_guest_access.Api.Unauthorized.{route-event}
use nats_guest_access.Api.Presenters.{verify}
use nats_guest_access.Api.Routing.{Server, route}
use nats_guest_access.Api.Replies.{respond, write_json}

-- The path of a slot of an event.
abbrev pub slot_path : String → ℕ → String
slot_path event_id number = "/v1/events/" ++ event_id ++ "/" ++ "slots" ++ "/" ++ itoa number

trim_right_of-slot_path :
    (event_id : String) (number : ℕ)
    → trim_right_of is_slash (event_id ++ "/" ++ "slots" ++ "/" ++ itoa number)
      ≡ event_id ++ "/" ++ "slots" ++ "/" ++ itoa number
trim_right_of-slot_path event_id number =
    let number_left = itoa-nonempty number in
    let slash_left = append_nonempty "/" (itoa number) number_left in
    let slots_left = append_nonempty "slots" ("/" ++ itoa number) slash_left in
    trim_right_of-append event_id _ (append_nonempty "/" ("slots" ++ "/" ++ itoa number) slots_left)
      (trim_right_of-append "/" _ slots_left (
        trim_right_of-append "slots" _ slash_left (
          trim_right_of-append "/" _ number_left
            (trim_right_of-last (itoa number) (has_no_slash-itoa number)))))

path_parts-slot_path :
    (event_id : String) (number : ℕ)
    → event_id ≢ ""
    → has_no_slash event_id ≡ true
    → path_parts (slot_path event_id number) ≡ event_id ∷ "slots" ∷ itoa number ∷ []
unfolding path_parts has_no_slash is_slash
path_parts-slot_path event_id number ne h =
    rw (trim_prefix-append "/v1/events/" (event_id ++ "/" ++ "slots" ++ "/" ++ itoa number)) (
      rw (trim_left_of-segment event_id ("/" ++ "slots" ++ "/" ++ itoa number) ne h) (
        rw (trim_right_of-slot_path event_id number) (
          rw (split_path-segment event_id ("slots" ++ "/" ++ itoa number) h) (
            rw (split_path-segment "slots" (itoa number) refl)
              (rw (split_path-last (itoa number) (has_no_slash-itoa number)) refl)))))

slot_number-itoa : (n : ℕ) → 0 < n → n < 2 ^ 63 → slot_number (itoa n) ≡ some n
unfolding slot_number
slot_number-itoa n h k = rw (atoi-itoa n k, slot_number) (ground arith)

module _ (p : Platform) (web : Web) (s : Service) (server : Server web) where
  module _ (r : HttpRequest) (principal event_id : String) (number : ℕ) (ne : event_id ≢ "")
      (positive : 0 < number) (fits : number < 2 ^ 63) (method : r.method ≡ "DELETE") where
    event_for-slot :
        event_for p web s principal (event_id ∷ "slots" ∷ itoa number ∷ []) r
        ≡ respond
            (Deletion.release_slot p s principal event_id number)
            (λ u. write_json 204 Body.empty)
    unfolding event_for on_event Events.release
    event_for-slot = simp (named, method) released
      where
        named : str_eq event_id "" ≡ false
        named = ground (arith, eq_iff event_id "")

        released :
            Events.release p web s principal event_id (itoa number)
            ≡ respond
                (Deletion.release_slot p s principal event_id number)
                (λ u. write_json 204 Body.empty)
        released = rw (slot_number-itoa number positive fits, Events.release) refl

  verified-some :
      (r : HttpRequest) (principal : String) (handler : String → Events.Handler p web s)
      → verify web server.presenters r ≡ some principal
      → Events.verified p web s server.presenters r handler ≡ handler principal
  unfolding Events.verified
  verified-some r principal handler h = rw (h, Events.verified) refl

  -- A DELETE request of a verified presenter on the path that is written from an event ID, which
  -- is not empty and has no slash, and a number between 1 and 2^63 - 1 runs ReleaseSlot for that
  -- event and that number, and is answered with 204 if it succeeds.
  pub release-route :
      (r : HttpRequest) (principal event_id : String) (number : ℕ)
      → r.method ≡ "DELETE"
      → r.path ≡ slot_path event_id number
      → event_id ≢ ""
      → has_no_slash event_id ≡ true
      → 0 < number
      → number < 2 ^ 63
      → verify web server.presenters r ≡ some principal
      → route p web s server r
        ≡ respond
            (Deletion.release_slot p s principal event_id number)
            (λ u. write_json 204 Body.empty)
  unfolding Events.event
  release-route r principal event_id number method path ne h positive fits caller =
      route-event p web s server r (
        rw path
          (has_prefix-append "/v1/events/" (event_id ++ "/" ++ "slots" ++ "/" ++ itoa number)))
      ∙ verified-some r principal _ caller
      ∙ ap (λ parts. event_for p web s principal parts r)
          (ap path_parts path ∙ path_parts-slot_path event_id number ne h)
      ∙ event_for-slot r principal event_id number ne positive fits method
