-- ===== src/Platform.antt =====
-- What the program takes from Go's standard library and from other packages: JSON, HMAC, random
-- values and signatures. Nothing is assumed of them but the laws below.
use nats_guest_access.Prelude.{ℕ, Bool, String, ◌≡◌, Option, some}
use nats_guest_access.Model.{Event, Slot, SessionIndex, DeletionReceipt}

-- The registered claims that internal/issuer signs, and guestClaims.
pub record Claims : Type 0 where
  pub issuer : String
  pub subject : String
  pub audience : String
  pub id : String
  pub issued_at : ℕ
  pub expiry : ℕ
  pub guest : Bool
  pub name : String
  pub username : String
  pub application_id : String
  pub event_id : String
  pub slot : ℕ

pub record Platform : Type 1 where
  -- []byte, and the conversions from and to `string`
  pub Bytes : Type 0
  pub of_text : String → Bytes
  pub to_text : Bytes → String
  -- encoding/json on the types of internal/model; `none` is an error of `json.Unmarshal`
  pub encode_event : Event → Bytes
  pub decode_event : Bytes → Option Event
  pub encode_slot : Slot → Bytes
  pub decode_slot : Bytes → Option Slot
  pub encode_index : SessionIndex → Bytes
  pub decode_index : Bytes → Option SessionIndex
  pub encode_receipt : DeletionReceipt → Bytes
  pub decode_receipt : Bytes → Option DeletionReceipt
  -- hex of the HMAC-SHA256 of the second text under the first
  pub hmac_hex : String → String → String
  -- the n-th uuid and the n-th secret (32 random bytes in base64) that the process draws
  pub uuid : ℕ → String
  pub secret : ℕ → Option String
  -- the signed JWT, unless the signer fails
  pub sign : Claims → Option String

-- What a value decodes to after it was encoded.
pub record IsLawful (p : Platform) : Type 0 where
  pub text_round : (t : String) → p.to_text (p.of_text t) ≡ t
  pub event_round : (e : Event) → p.decode_event (p.encode_event e) ≡ some e
  pub slot_round : (s : Slot) → p.decode_slot (p.encode_slot s) ≡ some s
  pub index_round : (i : SessionIndex) → p.decode_index (p.encode_index i) ≡ some i
  pub receipt_round : (r : DeletionReceipt) → p.decode_receipt (p.encode_receipt r) ≡ some r
