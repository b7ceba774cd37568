-- ===== src/Api/Presenters.antt =====
-- internal/api/presenter.go: who may call the presenters' endpoints.
pub mod Admission
use nats_guest_access.Prelude.{
  String, Bool, false, not, ◌||◌, Option, none, some, List, [], ◌∷◌, str_eq, has_prefix,
  trim_prefix, if◌then◌else◌,
}
use nats_guest_access.Errors.{Result, ok, err, failure, unreachable}
use nats_guest_access.Access.Names.{trim_space}
use nats_guest_access.Api.{HttpRequest, Web}

pub record PresenterVerifier (web : Web) : Type 0 where
  pub provider : web.Provider
  pub client_id : String
  pub group : String

-- The loop over claims.Groups.
unfoldable pub in_group : String → List String → Bool
in_group group [] = false
in_group group (g ∷ gs) = str_eq g group || in_group group gs

module _ (web : Web) where
  -- `ok none` is the nil verifier, which refuses everybody.
  unfoldable pub new_presenter_verifier :
      String → String → String → Result (Option (PresenterVerifier web))
  new_presenter_verifier issuer_url client_id group =
      if str_eq issuer_url "" then ok none else elim (web.find_provider issuer_url) [
        | none ↦ err (failure unreachable)
        | some provider ↦
            ok (some (record { provider = provider; client_id = client_id; group = group }))
      ]

  -- The subject of valid claims, `none` for every error: no caller looks at it.
  unfoldable pub checked_claims : String → Option (String × List String) → Option String
  unfolding in_group
  checked_claims group none = none
  checked_claims group (some (subject, groups)) =
      if str_eq subject "" then none else if in_group group groups then some subject else none

  unfoldable pub verify : Option (PresenterVerifier web) → HttpRequest → Option String
  unfolding checked_claims has_prefix trim_prefix trim_space
  verify none r = none
  verify (some v) r =
      if not (has_prefix "Bearer " r.authorization)
      then none
      else elim (web.verify_token v.provider v.client_id
          (trim_space (trim_prefix "Bearer " r.authorization))) [
            | none ↦ none
            | some token ↦ checked_claims v.group (web.token_claims token)
          ]
