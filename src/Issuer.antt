-- ===== src/Issuer.antt =====
-- internal/issuer/issuer.go: the issuer's key and the documents that it publishes. Mint is
-- in Access/Sessions.
pub mod Curve
use nats_guest_access.Prelude.{
  ℕ, zero, suc, ◌/◌, ◌%◌, String, ◌++◌, Bool, not, Option, none, some, List, [], ◌∷◌, str_eq,
  if◌then◌else◌,
}
use nats_guest_access.Access.Readers.{take}
use nats_guest_access.Access.{Issuer}

-- The document of /.well-known/openid-configuration.
pub record Discovery : Type 0 where
  pub issuer : String
  pub jwks_uri : String
  pub id_token_signing_alg_values_supported : List String
  pub response_types_supported : List String
  pub subject_types_supported : List String

unfoldable pub discovery : Issuer → Discovery
discovery i = record {
  issuer = i.issuer_url;
  jwks_uri = i.issuer_url ++ "/jwks";
  id_token_signing_alg_values_supported = "ES256" ∷ [];
  response_types_supported = "id_token" ∷ [];
  subject_types_supported = "public" ∷ [];
}

-- What the issuer takes from os, encoding/pem, crypto and go-jose.
pub data ParsedKey (K : Type 0) : Type 0 where
  ecdsa : K → ParsedKey K
  other : ParsedKey K

pub record Crypto : Type 1 where
  pub Data : Type 0
  pub Block : Type 0
  pub Key : Type 0
  pub Signer : Type 0
  pub read_file : String → Option Data
  pub decode_pem : Data → Option Block
  pub parse_pkcs8 : Block → Option (ParsedKey Key)
  pub parse_ec : Block → Option Key
  pub curve : Key → String
  pub PublicPart : Type 0
  pub public_part : Key → PublicPart
  pub thumbprint : PublicPart → Option (List ℕ)
  pub new_signer : Key → String → Option Signer

-- jose.JSONWebKey, of the public key.
pub record PublicKey (c : Crypto) : Type 0 where
  pub key : c.PublicPart
  pub key_id : String
  pub algorithm : String
  pub use_for : String

-- The struct Issuer.
pub record TokenIssuer (c : Crypto) : Type 0 where
  pub settings : Issuer
  pub signer : c.Signer
  pub public_key : PublicKey c

abbrev hex_digits : List String
hex_digits =
    "0" ∷ "1" ∷ "2" ∷ "3" ∷ "4" ∷ "5" ∷ "6" ∷ "7" ∷ "8" ∷ "9" ∷ "a" ∷ "b" ∷ "c" ∷ "d" ∷ "e" ∷ "f"
    ∷ []

abbrev nth : ℕ → List String → String
nth n [] = ""
nth zero (x ∷ xs) = x
nth (suc n) (x ∷ xs) = nth n xs

-- The verb %x of fmt.Sprintf on bytes.
unfoldable pub hex : List ℕ → String
hex [] = ""
hex (b ∷ bs) = nth (b / 16) hex_digits ++ nth (b % 16) hex_digits ++ hex bs

module _ (c : Crypto) where
  -- `none` is any error.
  unfoldable pub new : c.Key → Issuer → Option (TokenIssuer c)
  unfolding hex take
  new key settings =
      if not (str_eq (c.curve key) "P-256") then none else elim (c.thumbprint (c.public_part key)) [
        | none ↦ none
        | some digest ↦
            let kid = hex (take 8 digest) in
            elim (c.new_signer key kid) [
              | none ↦ none
              | some signer ↦ some (record {
                settings = settings;
                signer = signer;
                public_key = record {
                  key = c.public_part key;
                  key_id = kid;
                  algorithm = "ES256";
                  use_for = "sig";
                };
              })
            ]
      ]

  -- The key of a block, in either form.
  unfoldable pub parsed_key : c.Block → Option (ParsedKey c.Key)
  parsed_key block = elim (c.parse_pkcs8 block) [
    | some key ↦ some key
    | none ↦ elim (c.parse_ec block) [ some key ↦ some (ecdsa key) | none ↦ none ]
  ]

  unfoldable pub new_from : Issuer → Option (ParsedKey c.Key) → Option (TokenIssuer c)
  unfolding new
  new_from settings none = none
  new_from settings (some other) = none
  new_from settings (some (ecdsa key)) =
      if not (str_eq (c.curve key) "P-256") then none else new key settings

  unfoldable pub load : String → Issuer → Option (TokenIssuer c)
  unfolding parsed_key new_from
  load key_file settings = elim (c.read_file key_file) [
    | none ↦ none
    | some content ↦ elim (c.decode_pem content) [
      | none ↦ none
      | some block ↦ new_from settings (parsed_key block)
    ]
  ]

  unfoldable pub jwks : TokenIssuer c → List (PublicKey c)
  jwks i = i.public_key ∷ []
