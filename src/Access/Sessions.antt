-- ===== src/Access/Sessions.antt =====
-- internal/access/service.go and internal/issuer/issuer.go: a guest's requests. StartSession
-- takes the first place that it can get, and a session's holder renews the lease on its slot.
use nats_guest_access.Prelude.{
  ℕ, zero, suc, ◌+◌, ◌-◌, ◌%◌, ◌^◌, String, ◌++◌, Bool, true, false, not, ◌&&◌, ◌||◌, Option, none,
  some, ltb, str_eq, ◌==◌, if◌then◌else◌, itoa,
}
use nats_guest_access.Errors.{
  not_found, conflict, at_capacity, admission_closed, session_expired, event_paused, event_deleted,
  store_exists, signing, decoding, is, Result, ok, err,
}
use nats_guest_access.Model.{open_state, paused, deleting, deleted, Event, Slot, SessionIndex}
use nats_guest_access.Platform.{Platform}
use nats_guest_access.World
use nats_guest_access.World.{Action, ◌>>=◌, ◌>>◌, pure, give, fail, try, handle, or_fail}
use nats_guest_access.Access.{
  Service, invitation_key, session_key, slot_key, same_state, is_some, on_missing, retry,
  load_event, load_slot, digest,
}
use nats_guest_access.Access.Cleanup.{clean_slot}

pub record Session : Type 0 where
  pub event_id : String
  pub subject : String
  pub display_name : String
  pub slot : ℕ
  pub token : String
  pub token_expires_at : ℕ
  pub lease_expires_at : ℕ
  pub grace_expires_at : ℕ
  pub resume_secret : String

-- time.Time.Add, of a sum of durations that are not negative: from 2^63 on it is negative, as int64
-- is, and goes back.
unfoldable pub after : ℕ → ℕ → ℕ
after time sum = let d = sum % 2 ^ 64 in if ltb d (2 ^ 63) then time + d else time - (2 ^ 64 - d)

module _ (p : Platform) (s : Service) where
  unfoldable pub new_slot : Event → ℕ → ℕ → String → String → Slot
  unfolding after
  new_slot event number time secret generation = record {
    cleanup = none;
    event_id = event.id;
    number = number;
    generation = generation;
    subject = "guest:" ++ event.id ++ ":" ++ generation;
    resume_digest = digest p s secret;
    reserved = false;
    lease_expires_at = time + s.lease_ttl;
    grace_expires_at = after time (s.lease_ttl + s.grace_period);
    created_at = time;
    last_seen_at = time;
  }

unfoldable pub renewed : Service → Slot → ℕ → Slot
renewed s slot time = record slot {
  last_seen_at = time;
  reserved = false;
  lease_expires_at = time + s.lease_ttl;
  grace_expires_at = time + s.lease_ttl + s.grace_period;
}

module _ (p : Platform) (s : Service) where
  -- Service.mint, with Issuer.Mint: the token's clock is read, its id drawn, and it is signed.
  unfoldable pub mint : Event → Slot → String → Action p.Bytes Session
  unfolding World.now World.new_uuid
  mint event slot resume_secret = do
    let display = "Demo User " ++ itoa slot.number
    time ← World.now
    id ← World.new_uuid p
    let expires = time + s.issuer.ttl
    token ← give (
        or_fail signing (
          p.sign (record {
            issuer = s.issuer.issuer_url;
            subject = slot.subject;
            audience = s.issuer.audience;
            id = id;
            issued_at = time;
            expiry = expires;
            guest = true;
            name = display;
            username = "demo-user-" ++ itoa slot.number;
            application_id = event.application_id;
            event_id = event.id;
            slot = slot.number;
          })))
    pure (record {
      event_id = event.id;
      subject = slot.subject;
      display_name = display;
      slot = slot.number;
      token = token;
      token_expires_at = expires;
      lease_expires_at = slot.lease_expires_at;
      grace_expires_at = slot.grace_expires_at;
      resume_secret = resume_secret;
    })

-- A slot that another guest holds: not being erased, and reserved or within its grace period.
unfoldable pub is_held : ℕ → Slot → Bool
is_held time slot = not (is_some slot.cleanup) && (slot.reserved || ltb time slot.grace_expires_at)

module _ {V : Type 0} where
  -- The revision of the slot's new entry, `none` where the loop goes on with the next number.
  unfoldable pub created_or_taken : Result ℕ → Action V (Option ℕ)
  created_or_taken (ok revision) = pure (some revision)
  created_or_taken (err e) = if is e store_exists then pure none else give (err e)

module _ (p : Platform) (s : Service) where
  -- The place is taken: its slot is cleaned if nobody holds it, and then created again.
  unfoldable pub reclaim : Event → ℕ → Slot → Result (Slot × ℕ) → Action p.Bytes (Option ℕ)
  unfolding is_held created_or_taken clean_slot World.create
  reclaim event time slot (err e) = pure none
  reclaim event time slot (ok (existing, revision)) =
      if is_held time existing then pure none else do
        cleaned ← try (clean_slot p s event existing revision)
        handle cleaned
            (λ done. do
              created ← try (World.create (slot_key event.id slot.number) (p.encode_slot slot))
              created_or_taken created)
            (λ e. pure none)

  unfoldable pub take_place : Event → ℕ → Slot → Action p.Bytes (Option ℕ)
  unfolding reclaim load_slot World.create
  take_place event time slot = do
    created ← try (World.create (slot_key event.id slot.number) (p.encode_slot slot))
    handle created (λ revision. pure (some revision))
        λ e.
          if is e store_exists
          then (do
            existing ← try (load_slot p event.id slot.number)
            reclaim event time slot existing)
          else give (err e)

  -- The place is taken: the event is read again, and the session is indexed.
  unfoldable pub confirm :
      Event → Slot → String → ℕ → Action p.Bytes Session → Action p.Bytes Session
  unfolding mint load_event same_state World.create World.delete_revision
  confirm event slot secret revision next = do
    let key = slot_key event.id slot.number
    current ← try (load_event p event.id)
    handle current
        (λ l.
          if not (same_state l.0.state open_state) || ltb l.0.capacity slot.number
          then (do try (World.delete_revision key revision); fail admission_closed)
          else do
            let index : SessionIndex = record {
              deleted = false;
              event_id = event.id;
              slot = slot.number;
            }
            indexed ← try (World.create (session_key slot.resume_digest) (p.encode_index index))
            handle indexed (λ r. mint p s event slot secret)
                λ e. do try (World.delete_revision key revision); next)
        λ e. do try (World.delete_revision key revision); give (err e)

  -- What follows where a place was taken, and where not.
  unfoldable pub settle_place :
      Event → Slot → String → Action p.Bytes Session → Option ℕ → Action p.Bytes Session
  unfolding confirm
  settle_place event slot secret next none = next
  settle_place event slot secret next (some revision) = confirm event slot secret revision next

  -- for number := 1; number <= event.Capacity; number++, with the rounds that are left.
  unfoldable pub seat : Event → ℕ → ℕ → ℕ → Action p.Bytes Session
  unfolding new_slot take_place settle_place World.random_secret World.new_uuid
  seat event time zero number = fail at_capacity
  seat event time (suc left) number = do
    secret ← World.random_secret p
    generation ← World.new_uuid p
    let slot = new_slot p s event number time secret generation
    place ← take_place event time slot
    settle_place event slot secret (seat event time left (number + 1)) place

  unfoldable pub start_session : String → Action p.Bytes Session
  unfolding seat load_event on_missing same_state World.get World.now
  start_session invitation = if s.max_capacity == 0 then fail admission_closed else do
    found ← try (World.get (invitation_key (digest p s invitation)))
    index ← give (on_missing not_found found)
    (event, _) ← load_event p (p.to_text index.value)
    if same_state event.state paused
        then fail event_paused
        else if not (same_state event.state open_state) || event.capacity == 0
        then fail admission_closed
        else do time ← World.now; seat event time event.capacity 1

  -- The renewal of a slot that was read, with `again` for the next round of the loop.
  unfoldable pub renew_slot :
      String
      → SessionIndex
      → Event
      → Result (Slot × ℕ)
      → Action p.Bytes (Event × Slot)
      → Action p.Bytes (Event × Slot)
  unfolding retry renewed World.now World.update
  renew_slot secret_digest index event (err e) again = fail session_expired
  renew_slot secret_digest index event (ok (slot, revision)) again =
      if not (str_eq slot.resume_digest secret_digest) then fail session_expired else do
        time ← World.now
        if is_some slot.cleanup || not slot.reserved && not (ltb time slot.grace_expires_at)
            then fail session_expired
            else do
              let slot' = renewed s slot time
              let key = slot_key index.event_id index.slot
              saved ← try (World.update key (p.encode_slot slot') revision)
              retry saved again (pure (event, slot'))

  unfoldable pub renew_attempts : ℕ → String → SessionIndex → Action p.Bytes (Event × Slot)
  unfolding renew_slot load_event load_slot same_state
  renew_attempts zero secret_digest index = fail conflict
  renew_attempts (suc n) secret_digest index = do
    (event, _) ← load_event p index.event_id
    if same_state event.state paused
        then fail event_paused
        else if same_state event.state deleting || same_state event.state deleted
        then fail event_deleted
        else if not (same_state event.state open_state)
        then fail admission_closed
        else do
          loaded ← try (load_slot p index.event_id index.slot)
          renew_slot secret_digest index event loaded (renew_attempts n secret_digest index)

  unfoldable pub renew_lease : String → Action p.Bytes (Event × Slot)
  unfolding renew_attempts on_missing World.get
  renew_lease resume_secret = do
    let secret_digest = digest p s resume_secret
    found ← try (World.get (session_key secret_digest))
    entry ← give (on_missing session_expired found)
    index ← give (or_fail decoding (p.decode_index entry.value))
    if index.deleted then fail event_deleted else renew_attempts 5 secret_digest index

  unfoldable pub renew_session : String → Action p.Bytes Session
  unfolding renew_lease mint
  renew_session resume_secret = do
    (event, slot) ← renew_lease resume_secret
    mint p s event slot resume_secret

  unfoldable pub heartbeat_session : String → Action p.Bytes ℕ
  unfolding renew_lease
  heartbeat_session resume_secret = do
    (_, slot) ← renew_lease resume_secret
    pure slot.lease_expires_at
