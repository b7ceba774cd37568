-- ===== src/Api.antt =====
-- internal/api/api.go: the requests that the HTTP API reads, the replies that it writes, and what
-- it takes from other packages. The handlers are in the modules below.
pub mod Presenters
pub mod Replies
pub mod Guests
pub mod Events
pub mod Routing
pub mod Unauthorized
pub mod Outcomes
pub mod Renewals
pub mod Releases
pub mod Refusals
pub mod ReadOnly
use nats_guest_access.Prelude.{ℕ, String, Bool, Option, List, ℤ}
use nats_guest_access.Errors.{Error}
use nats_guest_access.Model.{EventState, Capability, CleanupProgress, DeletionReceipt}
use nats_guest_access.Access.{Service}
use nats_guest_access.Access.Events.{CreateEventInput}
use nats_guest_access.Issuer.{Discovery}

-- The parts of an http.Request that the handlers read. `authorization` is "" if the header is
-- missing; `cookie` is the value of the first cookie with the name of the resume cookie.
pub record HttpRequest : Type 0 where
  pub method : String
  pub path : String
  pub authorization : String
  pub cookie : Option String
  pub body : List ℕ

-- What the API takes from encoding/json, go-oidc and go-jose. A JSON decoder that refuses unknown
-- fields reads bytes which end, or fail if the second argument is true.
pub record Web : Type 1 where
  pub decode_invitation : List ℕ → Bool → Option String
  pub decode_event_input : List ℕ → Bool → Option CreateEventInput
  pub decode_capacity : List ℕ → Bool → Option ℤ
  pub decode_cohost : List ℕ → Bool → Option (String × List Capability)
  -- oidc.NewProvider, IDTokenVerifier.Verify for a client, and IDToken.Claims: `sub` and `groups`
  pub Provider : Type 0
  pub Token : Type 0
  pub find_provider : String → Option Provider
  pub verify_token : Provider → String → String → Option Token
  pub token_claims : Token → Option (String × List String)
  -- jose.JSONWebKeySet
  pub KeySet : Type 0

-- The name and the fixed attributes of the resume cookie are left out: HttpOnly, SameSite strict,
-- and the path "/". It is removed at once if `expired`.
pub record ResumeCookie : Type 0 where
  pub value : String
  pub secure : Bool
  pub expired : Bool

pub record EventView : Type 0 where
  pub cleanup : Option CleanupProgress
  pub id : String
  pub application_id : String
  pub name : String
  pub owner_subject : String
  pub capacity : ℕ
  pub inspect_live_workspaces : Bool
  pub state : EventState
  pub cohosts : List (String × List Capability)
  pub created_at : ℕ
  pub updated_at : ℕ

pub record SlotView : Type 0 where
  pub cleanup_pending : Bool
  pub number : ℕ
  pub subject : String
  pub reserved : Bool
  pub lease_expires_at : ℕ
  pub grace_expires_at : ℕ
  pub created_at : ℕ
  pub last_seen_at : ℕ

-- A session as it is encoded: without the resume secret.
pub record SessionView : Type 0 where
  pub event_id : String
  pub subject : String
  pub display_name : String
  pub slot : ℕ
  pub token : String
  pub token_expires_at : ℕ
  pub lease_expires_at : ℕ
  pub grace_expires_at : ℕ

-- The message of an error reply: a text of the handler, an access error's text, or a decoder's.
pub data Message : Type 0 where
  fixed : String → Message
  text_of : Error → Message
  decoder_text : Message

pub data Body (K : Type 0) : Type 0 where
  empty : Body K
  refusal : (code : String) (message : Message) → Body K
  plain_text : String → Body K
  session : SessionView → Body K
  lease : ℕ → Body K
  created : EventView → String → Body K
  event : EventView → Body K
  events : List EventView → Body K
  invitation : String → Body K
  slots : List SlotView → Body K
  receipt : DeletionReceipt → Body K
  receipts : List DeletionReceipt → Body K
  discovery : Discovery → Body K
  keys : K → Body K
  healthy : Body K

-- `headers` are the ones beside Content-Type and Set-Cookie.
pub record Reply (K : Type 0) : Type 0 where
  pub status : ℕ
  pub headers : List (String × String)
  pub cookie : Option ResumeCookie
  pub body : Body K
