-- ===== src/Config/Bounds.antt =====
-- What an accepted configuration of internal/config/config.go satisfies.
use Prim.Native.String.{len}
use nats_guest_access.Prelude.{
  ℕ, ◌≤◌, ◌*◌, ◌≡◌, ◌≢◌, refl, Bool, true, false, Option, none, some, ℤ, pos, ◌↔◌, subst, arith,
  eq_iff, if◌then◌else◌,
}
use nats_guest_access.Config.{
  Config, Environment, load, accepted, is_refused, bad_cleanup, is_above, is_negative, minute,
  ◌>>=◌,
}

-- A number of at least `low`, and at most `high`.
pub record Between (low high : ℕ) (z : ℤ) : Type 0 where
  pub value : ℕ
  pub is_value : z ≡ pos value
  pub least : low ≤ value
  pub most : value ≤ high

pub record AtLeast (low : ℕ) (z : ℤ) : Type 0 where
  pub value : ℕ
  pub is_value : z ≡ pos value
  pub least : low ≤ value

pub record Sound (c : Config) : Type 0 where
  pub issuer : c.issuer_url ≢ ""
  pub key_file : c.signing_key_file ≢ ""
  pub hmac_key : 32 ≤ len c.invitation_hmac_key
  pub token : Between 1 (5 * minute) c.token_ttl
  pub lease : AtLeast 1 c.lease_ttl
  pub grace : AtLeast 0 c.grace_period
  pub timeout : AtLeast 1 c.cleanup_timeout
  pub interval : AtLeast 1 c.cleanup_interval
  pub batch : Between 1 1000 c.cleanup_batch_size
  pub capacity : AtLeast 0 c.max_capacity
  pub presenters : (c.presenter_issuer_url ≡ "") ↔ (c.presenter_client_id ≡ "")

above-AtLeast : (z : ℤ) → is_above z 0 ≡ true → AtLeast 1 z
unfolding is_above
above-AtLeast (pos n) h = record { value = n; is_value = refl; least = ground arith }
above-AtLeast (ℤ.negsuc n) h = absurd (ground arith)

negative-AtLeast : (z : ℤ) → is_negative z ≡ false → AtLeast 0 z
unfolding is_negative
negative-AtLeast (pos n) h = record { value = n; is_value = refl; least = omega arith }
negative-AtLeast (ℤ.negsuc n) h = absurd (ground arith)

above-Between :
    (z : ℤ) (high : ℕ) → is_above z 0 ≡ true → is_above z high ≡ false → Between 1 high z
unfolding is_above
above-Between (pos n) high h k = record {
  value = n;
  is_value = refl;
  least = ground arith;
  most = ground arith;
}
above-Between (ℤ.negsuc n) high h k = absurd (ground arith)

module _ (c : Config) where
  -- The checks of Load, once none refuses.
  accepted-Sound :
      bad_cleanup c.cleanup_interval c.cleanup_batch_size ≡ false → is_refused c ≡ false → Sound c
  unfolding bad_cleanup is_refused
  accepted-Sound h k = record {
    issuer = ground (arith, eq_iff c.issuer_url "");
    key_file = ground (arith, eq_iff c.signing_key_file "");
    hmac_key = ground arith;
    token = above-Between c.token_ttl (5 * minute) (ground arith) (ground arith);
    lease = above-AtLeast c.lease_ttl (ground arith);
    grace = negative-AtLeast c.grace_period (ground arith);
    timeout = above-AtLeast c.cleanup_timeout (ground arith);
    interval = above-AtLeast c.cleanup_interval (ground arith);
    batch = above-Between c.cleanup_batch_size 1000 (ground arith) (ground arith);
    capacity = negative-AtLeast c.max_capacity (ground arith);
    presenters = (
      (λ q. ground (arith, eq_iff c.presenter_issuer_url "", eq_iff c.presenter_client_id "")),
      (λ q. ground (arith, eq_iff c.presenter_issuer_url "", eq_iff c.presenter_client_id "")),
    );
  }

-- Every value of the option has the property.
record Yields {A : Type 0} (o : Option A) (P : A → Type 0) : Type 0 where
  pub at : (a : A) → o ≡ some a → P a

Yields-bind :
    {A B : Type 0} {P : B → Type 0} (o : Option A) {f : A → Option B}
    → ((a : A) → Yields (f a) P)
    → Yields (o >>= f) P
unfolding ◌>>=◌
Yields-bind none k = record { at = λ a h. absurd (cc) }
Yields-bind (some a) k = k a

Yields-unless :
    {A : Type 0} {P : A → Type 0} (refused : Bool) {o : Option A}
    → (refused ≡ false → Yields o P)
    → Yields (if refused then none else o) P
Yields-unless true k = record { at = λ a h. absurd (cc) }
Yields-unless false k = k refl

Yields-some : {A : Type 0} {P : A → Type 0} (a : A) → P a → Yields (some a) P
Yields-some {P} a x = record { at = λ b h. subst P (some_injective h) x }
  where
    some_injective : {A : Type 0} {a b : A} → some a ≡ some b → a ≡ b
    some_injective h = cc

Yields-accepted :
    (c : Config)
    → bad_cleanup c.cleanup_interval c.cleanup_batch_size ≡ false
    → Yields (accepted c) Sound
unfolding accepted
Yields-accepted c cleanup =
    Yields-unless (is_refused c) λ checks. Yields-some c (accepted-Sound c cleanup checks)

-- A configuration that Load accepts has an issuer URL and a key file, an HMAC key of at least 32
-- bytes, a token lifetime that is positive and at most five minutes, a positive lease time,
-- cleanup timeout and cleanup interval, a batch between 1 and 1000, no negative grace period or
-- capacity, and the presenters' issuer and client both or neither.
pub load-Sound : (e : Environment) (c : Config) → load e ≡ some c → Sound c
unfolding load
load-Sound e = Yields.at (
    Yields-bind _ λ token. Yields-bind _ λ lease. Yields-bind _ λ grace. Yields-bind _ λ timeout.
      Yields-bind _ λ interval. Yields-bind _ λ batch.
        Yields-unless (bad_cleanup interval batch)
          λ cleanup. Yields-bind _ λ capacity. Yields-bind _ λ secure. Yields-accepted _ cleanup)
