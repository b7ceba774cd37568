-- ===== src/Config.antt =====
-- internal/config/config.go: the configuration that the environment gives. Durations are
-- nanoseconds, and may be negative.
pub mod Bounds
use nats_guest_access.Prelude.{
  ℕ, ◌*◌, String, Bool, true, false, not, ◌&&◌, ◌||◌, Option, none, some, ℤ, pos, negsuc, str_eq,
  ltb, leb, ◌==◌, if◌then◌else◌, is_slash, trim_right_of, atoi,
}
use Prim.Native.String.{len}

pub record Config : Type 0 where
  pub listen_address : String
  pub issuer_url : String
  pub audience : String
  pub public_demo_url : String
  pub nats_url : String
  pub nats_credentials_file : String
  pub kv_bucket : String
  pub cleanup_subject : String
  pub cleanup_timeout : ℤ
  pub cleanup_interval : ℤ
  pub cleanup_batch_size : ℤ
  pub signing_key_file : String
  pub invitation_hmac_key : String
  pub token_ttl : ℤ
  pub lease_ttl : ℤ
  pub grace_period : ℤ
  pub max_capacity : ℤ
  pub presenter_issuer_url : String
  pub presenter_client_id : String
  pub presenter_group : String
  pub secure_cookies : Bool

-- os.Getenv, "" for a variable that is not set, and time.ParseDuration.
pub record Environment : Type 0 where
  pub get : String → String
  pub parse_duration : String → Option ℤ

-- strconv.ParseBool
unfoldable pub parse_bool : String → Option Bool
parse_bool s =
    if str_eq s "1"
      || str_eq s "t"
      || str_eq s "T"
      || str_eq s "TRUE"
      || str_eq s "true"
      || str_eq s "True"
    then some true
    else if str_eq s "0"
        || str_eq s "f"
        || str_eq s "F"
        || str_eq s "FALSE"
        || str_eq s "false"
        || str_eq s "False"
    then some false
    else none

unfoldable pub is_above : ℤ → ℕ → Bool
is_above (pos n) limit = ltb limit n
is_above (negsuc n) limit = false

unfoldable pub is_negative : ℤ → Bool
is_negative (pos n) = false
is_negative (negsuc n) = true

abbrev pub second : ℕ
second = 1000000000

abbrev pub minute : ℕ
minute = 60000000000

module _ (e : Environment) where
  unfoldable pub env : String → String → String
  env name fallback = let value = e.get name in if str_eq value "" then fallback else value

  -- A variable that is parsed, or the fallback if it is not set; `none` is an error.
  unfoldable pub parsed : {A : Type 0} → (String → Option A) → String → A → Option A
  parsed parse name fallback =
      let value = e.get name in if str_eq value "" then some fallback else parse value

  unfoldable pub duration : String → ℤ → Option ℤ
  unfolding parsed
  duration name fallback = parsed e.parse_duration name fallback

  unfoldable pub integer : String → ℤ → Option ℤ
  unfolding parsed atoi
  integer name fallback = parsed atoi name fallback

  unfoldable pub boolean : String → Bool → Option Bool
  unfolding parsed parse_bool
  boolean name fallback = parsed parse_bool name fallback

-- The checks of Load, in two groups: before the capacity is read, and at the end.
unfoldable pub bad_cleanup : ℤ → ℤ → Bool
unfolding is_above
bad_cleanup interval batch =
    not (is_above interval 0) || not (is_above batch 0) || is_above batch 1000

unfoldable pub is_refused : Config → Bool
unfolding is_above is_negative
is_refused c =
    str_eq c.issuer_url ""
    || str_eq c.signing_key_file ""
    || ltb (len c.invitation_hmac_key) 32
    || not (is_above c.token_ttl 0)
    || is_above c.token_ttl (5 * minute)
    || not (is_above c.lease_ttl 0)
    || is_negative c.grace_period
    || not (is_above c.cleanup_timeout 0)
    || is_negative c.max_capacity
    || not (same (str_eq c.presenter_issuer_url "") (str_eq c.presenter_client_id ""))
  where
    same : Bool → Bool → Bool
    same true b = b
    same false b = not b

unfoldable pub accepted : Config → Option Config
unfolding is_refused
accepted c = if is_refused c then none else some c

infixl 10 ◌>>=◌
unfoldable pub ◌>>=◌ : {A B : Type 0} → Option A → (A → Option B) → Option B
none >>= f = none
some a >>= f = f a

-- `none` is any of Load's errors.
unfoldable pub load : Environment → Option Config
unfolding env duration integer boolean bad_cleanup trim_right_of is_slash
load e = do
  token_ttl ← duration e "NGA_TOKEN_TTL" (pos (5 * minute))
  lease_ttl ← duration e "NGA_LEASE_TTL" (pos (30 * second))
  grace_period ← duration e "NGA_GRACE_PERIOD" (pos (5 * minute))
  cleanup_timeout ← duration e "NGA_CLEANUP_TIMEOUT" (pos (30 * second))
  cleanup_interval ← duration e "NGA_CLEANUP_INTERVAL" (pos (10 * second))
  cleanup_batch_size ← integer e "NGA_CLEANUP_BATCH_SIZE" (pos 25)
  if bad_cleanup cleanup_interval cleanup_batch_size then none else do
    max_capacity ← integer e "NGA_MAX_CAPACITY" (pos 100)
    secure_cookies ← boolean e "NGA_SECURE_COOKIES" true
    let c : Config = record {
      listen_address = env e "NGA_LISTEN_ADDRESS" ":8080";
      issuer_url = trim_right_of is_slash (e.get "NGA_ISSUER_URL");
      audience = env e "NGA_AUDIENCE" "whengas-demo";
      public_demo_url =
          trim_right_of is_slash (env e "NGA_PUBLIC_DEMO_URL" "https://www.whengas.com/demo");
      nats_url = env e "NGA_NATS_URL" "nats://127.0.0.1:4222";
      nats_credentials_file = e.get "NGA_NATS_CREDS_FILE";
      kv_bucket = env e "NGA_KV_BUCKET" "NATS_GUEST_ACCESS";
      cleanup_subject = e.get "NGA_CLEANUP_SUBJECT";
      cleanup_timeout = cleanup_timeout;
      cleanup_interval = cleanup_interval;
      cleanup_batch_size = cleanup_batch_size;
      signing_key_file = e.get "NGA_SIGNING_KEY_FILE";
      invitation_hmac_key = e.get "NGA_INVITATION_HMAC_KEY";
      token_ttl = token_ttl;
      lease_ttl = lease_ttl;
      grace_period = grace_period;
      max_capacity = max_capacity;
      presenter_issuer_url = trim_right_of is_slash (e.get "NGA_PRESENTER_ISSUER_URL");
      presenter_client_id = e.get "NGA_PRESENTER_CLIENT_ID";
      presenter_group = env e "NGA_PRESENTER_GROUP" "demo-presenters";
      secure_cookies = secure_cookies;
    }
    accepted c
