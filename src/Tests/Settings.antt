-- ===== src/Tests/Settings.antt =====
-- An environment, an application that answers cleanups, and a bucket with one key.
use nats_guest_access.Prelude.{
  ℕ, String, ◌≡◌, ◌↔◌, refl, true, false, Option, none, some, List, [], ◌∷◌, pos, length,
}
use nats_guest_access.Errors.{ok}
use nats_guest_access.Config.{Config, Environment, load}
use nats_guest_access.Config.Bounds.{Sound, load-Sound}
use nats_guest_access.CleanupClient.{Response, Connection, Client, cleanup}
use nats_guest_access.CleanupClient.Acknowledged.{Answered, cleanup-acknowledged}
use nats_guest_access.Store.{Entry}
use nats_guest_access.Store.Table.{find}
use nats_guest_access.Store.Nats
use nats_guest_access.Store.Nats.{Bucket, Answer, done, failed}
use nats_guest_access.Store.Nats.Listing.{served}
use nats_guest_access.Access.{Issuer}
use nats_guest_access.Issuer as Keys
use nats_guest_access.Issuer.{Crypto, TokenIssuer}
use nats_guest_access.Issuer.Curve.{OnCurve, load-OnCurve}
use nats_guest_access.World.{CleanupRequest}

abbrev variables : List (String × String)
variables =
    ("NGA_ISSUER_URL", "https://guest.example/")
    ∷ ("NGA_SIGNING_KEY_FILE", "key.pem")
    ∷ ("NGA_INVITATION_HMAC_KEY", "0123456789abcdef0123456789abcdef")
    ∷ ("NGA_MAX_CAPACITY", "40")
    ∷ []

abbrev or_empty : Option String → String
or_empty none = ""
or_empty (some value) = value

abbrev environment : Environment
environment = record { get = λ name. or_empty (find name variables); parse_duration = λ text. none }

abbrev accepted_config : Config
accepted_config = record {
  listen_address = ":8080";
  issuer_url = "https://guest.example";
  audience = "whengas-demo";
  public_demo_url = "https://www.whengas.com/demo";
  nats_url = "nats://127.0.0.1:4222";
  nats_credentials_file = "";
  kv_bucket = "NATS_GUEST_ACCESS";
  cleanup_subject = "";
  cleanup_timeout = pos 30000000000;
  cleanup_interval = pos 10000000000;
  cleanup_batch_size = pos 25;
  signing_key_file = "key.pem";
  invitation_hmac_key = "0123456789abcdef0123456789abcdef";
  token_ttl = pos 300000000000;
  lease_ttl = pos 30000000000;
  grace_period = pos 300000000000;
  max_capacity = pos 40;
  presenter_issuer_url = "";
  presenter_client_id = "";
  presenter_group = "demo-presenters";
  secure_cookies = true;
}

load_runs : load environment ≡ some accepted_config
unfolding load nats_guest_access.Config.◌>>=◌ find nats_guest_access.Config.accepted
load_runs = refl

load-Sound_example : Sound accepted_config
load-Sound_example = load-Sound environment accepted_config load_runs

abbrev application : Connection
application = record {
  Payload = Response;
  encode_request = λ request. record {
    schema_version = pos 1;
    deletion_id = request.deletion_id;
    application_id = request.application_id;
    status = "complete";
    identities_processed = pos (length request.guest_subjects);
    error = "";
  };
  request = λ subject payload. some payload;
  decode_response = λ payload. some payload;
  new_uuid = "u";
}

abbrev client : Client
client = record { subject = "cleanup" }

abbrev one_guest : CleanupRequest
one_guest = record {
  deletion_id = "d";
  application_id = "demo";
  event_id = "E";
  subjects = "guest" ∷ [];
  reason = "event_deleted";
}

cleanup_runs : cleanup application client one_guest ≡ ok 1
unfolding cleanup
cleanup_runs = refl

abbrev one : ℕ
one = 1

cleanup-acknowledged_example :
    (cleanup application client one_guest ≡ ok 1)
    ↔ (Answered application client one_guest × (one ≡ length one_guest.subjects))
cleanup-acknowledged_example = cleanup-acknowledged application client one_guest 1

abbrev Table : Type 0
Table = List (String × Entry String)

abbrev keys_of : Table → List String
keys_of [] = []
keys_of ((key, entry) ∷ others) = key ∷ keys_of others

abbrev bucket : Bucket String
bucket = record {
  State = Table;
  get = λ key s. (served (find key s), s);
  create = λ key value s. (failed Nats.key_exists, s);
  update = λ key value revision s. (failed Nats.revision_mismatch, s);
  purge = λ key s. (done tt, s);
  purge_revision = λ key revision s. (failed Nats.revision_mismatch, s);
  list_keys = λ filter s. (done (keys_of s), s);
  over = λ s. false;
}

abbrev one_key : Table
one_key = ("event.E", record { value = "v"; revision = 1 }) ∷ []

-- A key file is its curve, and both of its forms.
abbrev crypto : Crypto
crypto = record {
  Data = String;
  Block = String;
  Key = String;
  Signer = String;
  read_file = λ file. some "P-256";
  decode_pem = λ content. some content;
  parse_pkcs8 = λ block. none;
  parse_ec = λ block. some block;
  curve = λ key. key;
  PublicPart = ℕ;
  public_part = λ key. 7;
  thumbprint = λ part. some (171 ∷ 5 ∷ []);
  new_signer = λ key kid. some kid;
}

abbrev settings : Issuer
settings = record { issuer_url = "https://guest.example"; audience = "demo"; ttl = 300 }

abbrev signing : TokenIssuer crypto
signing = record {
  settings = settings;
  signer = "ab05";
  public_key = record { key = 7; key_id = "ab05"; algorithm = "ES256"; use_for = "sig" };
}

load_key_runs : Keys.load crypto "key.pem" settings ≡ some signing
unfolding Keys.load
load_key_runs = refl

load-OnCurve_example : OnCurve crypto signing
load-OnCurve_example = load-OnCurve crypto "key.pem" settings signing load_key_runs
