-- ===== src/Access/Results/Guest.antt =====
-- internal/access/service.go: the sessions that guests get and the leases that they renew.
use nats_guest_access.Prelude.{
  ℕ, zero, suc, ◌+◌, ◌≤◌, ◌<◌, String, ◌≡◌, ◌∙◌, sym, ap, ◌^◌, refl, Bool, false, not, ◌||◌, ◌&&◌,
  none, some, Option, ltb, str_eq, eq_iff, arith,
}
use nats_guest_access.Errors.{Result, ok, err}
use nats_guest_access.Model.{
  open_state, paused, deleting, deleted, EventState, Event, Slot, SessionIndex,
}
use nats_guest_access.Platform.{Platform}
use nats_guest_access.World.{World, Action}
use nats_guest_access.World.Results.{
  Gives, Gives-bind, Gives-check, Gives-pure, Gives-fail, Gives-error, Gives-if, Gives-handle,
}
use nats_guest_access.Access.{Service, digest, same_state, is_some}
use nats_guest_access.Access.Sessions
use nats_guest_access.Access.Sessions.{Session}
use nats_guest_access.Access.Results.Presenter.{Gives-retry}

-- A session on a place of the event, with a number from `first` to before `last`.
pub record IsPlace (s : Service) (event : Event) (time first last : ℕ) (session : Session)
    : Type 0 where
  pub of_event : session.event_id ≡ event.id
  pub not_before : first ≤ session.slot
  pub in_range : session.slot < last
  pub leased : session.lease_expires_at ≡ time + s.lease_ttl
  pub held : session.grace_expires_at ≡ session.lease_expires_at + s.grace_period

-- A lease that was renewed for the holder of the secret.
pub record IsRenewed (s : Service) (digest : String) (event : Event) (slot : Slot) : Type 0 where
  pub is_open : event.state ≡ open_state
  pub holder : slot.resume_digest ≡ digest
  pub not_erased : slot.cleanup ≡ none
  pub in_use : slot.reserved ≡ false
  pub leased : slot.lease_expires_at ≡ slot.last_seen_at + s.lease_ttl
  pub held : slot.grace_expires_at ≡ slot.lease_expires_at + s.grace_period

module _ (p : Platform) (s : Service) where
  -- What minting takes over from the slot.
  abbrev Minted : Event → Slot → Session → Type 0
  Minted event slot session =
      (session.event_id ≡ event.id)
      × (session.slot ≡ slot.number)
      × (session.lease_expires_at ≡ slot.lease_expires_at)
      × (session.grace_expires_at ≡ slot.grace_expires_at)

  Gives-mint :
      (event : Event) (slot : Slot) (secret : String)
      → Gives (Sessions.mint p s event slot secret) (Minted event slot)
  unfolding Sessions.mint
  Gives-mint event slot secret =
      Gives-bind _
        λ time. Gives-bind _ λ id. Gives-bind _ λ token. Gives-pure _ (refl, refl, refl, refl)

  Gives-settle_place :
      (event : Event) (slot : Slot) (secret : String) (next : Action p.Bytes Session)
      (place : Option ℕ) (P : Session → Type 0)
      → ((x : Session) → Minted event slot x → P x)
      → Gives next P
      → Gives (Sessions.settle_place p s event slot secret next place) P
  unfolding Sessions.settle_place Sessions.confirm
  Gives-settle_place event slot secret next none P k gn = gn
  Gives-settle_place event slot secret next (some revision) P k gn = Gives-bind _ λ current.
      Gives-handle current
        (λ l q.
          Gives-if (not (same_state l.0.state open_state) || ltb l.0.capacity slot.number)
            (λ _. Gives-bind _ λ u. Gives-fail _)
            (λ _. Gives-bind _ λ indexed.
              Gives-handle indexed
                (λ r q'. record { at = λ w x h. k x ((Gives-mint event slot secret).at w x h) })
                (λ e q'. Gives-bind _ λ u. gn)))
        (λ e q. Gives-bind _ λ u. Gives-error e)

  after-short :
      (time : ℕ)
      → s.lease_ttl + s.grace_period < 2 ^ 63
      → Sessions.after time (s.lease_ttl + s.grace_period) ≡ time + s.lease_ttl + s.grace_period
  unfolding Sessions.after
  after-short time short = ground arith

  Gives-seat :
      (event : Event) (time left number : ℕ)
      → s.lease_ttl + s.grace_period < 2 ^ 63
      → Gives
          (Sessions.seat p s event time left number)
          (IsPlace s event time number (number + left))
  unfolding Sessions.seat Sessions.new_slot Sessions.after
  Gives-seat event time zero number short = Gives-fail _
  Gives-seat event time (suc left) number short = Gives-bind _ λ secret. Gives-bind _ λ generation.
      Gives-bind _ λ place.
        Gives-settle_place event (Sessions.new_slot p s event number time secret generation) secret
          _ place _
          (λ x minted. record {
            of_event = minted.0;
            not_before = omega (arith, minted.1);
            in_range = omega (arith, minted.1);
            leased = minted.2;
            held = minted.3 ∙ after-short time short ∙ sym (ap (λ t. t + s.grace_period) minted.2);
          })
          (record {
            at = λ w x h.
                let place' = (Gives-seat event time left (number + 1) short).at w x h in
                record {
                  of_event = place'.of_event;
                  not_before = omega (arith, place'.not_before);
                  in_range = omega (arith, place'.in_range);
                  leased = place'.leased;
                  held = place'.held;
                };
          })

  -- If the lease time and the grace time add up to less than 2^63 nanoseconds, so that their sum
  -- does not wrap, and the loop of StartSession ends with a session, whatever others do and
  -- whatever cleanups it makes, the session is of the event, its slot number is between 1 and
  -- the event's capacity, its lease ends the lease time after the time that the loop was given,
  -- and its grace period the grace time after the lease.
  pub seat-IsPlace :
      (event : Event) (time : ℕ) (w : World p.Bytes) (session : Session)
      → s.lease_ttl + s.grace_period < 2 ^ 63
      → (Sessions.seat p s event time event.capacity 1 w).0 ≡ ok session
      → IsPlace s event time 1 (event.capacity + 1) session
  seat-IsPlace event time w session short h =
      let place = (Gives-seat event time event.capacity 1 short).at w session h in
      record {
        of_event = place.of_event;
        not_before = place.not_before;
        in_range = omega (arith, place.in_range);
        leased = place.leased;
        held = place.held;
      }

  is_open : (state : EventState) → not (same_state state open_state) ≡ false → state ≡ open_state
  unfolding same_state
  is_open state h = ground arith

  no_cleanup : {A : Type 0} (o : Option A) (b : Bool) → is_some o || b ≡ false → o ≡ none
  no_cleanup o b h = ground arith

  same_text : (a b : String) → not (str_eq a b) ≡ false → a ≡ b
  same_text a b h = (eq_iff a b).0 (ground arith)

  Gives-renew_slot :
      (secret_digest : String) (index : SessionIndex) (event : Event) (r : Result (Slot × ℕ))
      (again : Action p.Bytes (Event × Slot))
      → event.state ≡ open_state
      → Gives again (λ x. IsRenewed s secret_digest x.0 x.1)
      → Gives
          (Sessions.renew_slot p s secret_digest index event r again)
          (λ x. IsRenewed s secret_digest x.0 x.1)
  unfolding Sessions.renew_slot Sessions.renewed
  Gives-renew_slot secret_digest index event (err e) again q ga = Gives-fail _
  Gives-renew_slot secret_digest index event (ok (slot, revision)) again q ga =
      Gives-if (not (str_eq slot.resume_digest secret_digest)) (λ _. Gives-fail _)
        λ same. Gives-bind _ λ time.
          Gives-if
            (is_some slot.cleanup || not slot.reserved && not (ltb time slot.grace_expires_at))
            (λ _. Gives-fail _)
            λ live. Gives-bind _ λ saved. Gives-retry saved ga (
              Gives-pure _ (record {
                is_open = q;
                holder = same_text slot.resume_digest secret_digest same;
                not_erased = no_cleanup slot.cleanup _ live;
                in_use = refl;
                leased = refl;
                held = refl;
              }))

  Gives-renew_attempts :
      (n : ℕ) (secret_digest : String) (index : SessionIndex)
      → Gives
          (Sessions.renew_attempts p s n secret_digest index)
          (λ x. IsRenewed s secret_digest x.0 x.1)
  unfolding Sessions.renew_attempts
  Gives-renew_attempts zero secret_digest index = Gives-fail _
  Gives-renew_attempts (suc n) secret_digest index = Gives-bind _ λ l.
      Gives-if (same_state l.0.state paused) (λ _. Gives-fail _)
        λ _.
          Gives-if (same_state l.0.state deleting || same_state l.0.state deleted)
            (λ _. Gives-fail _)
            λ _.
              Gives-if (not (same_state l.0.state open_state)) (λ _. Gives-fail _)
                λ opened. Gives-bind _ λ r.
                  Gives-renew_slot secret_digest index l.0 r _ (is_open l.0.state opened)
                    (Gives-renew_attempts n secret_digest index)

  -- If renewLease ends with an event and a slot, the event was read as open, the slot belongs to
  -- the digest of the secret that was given, it is not being erased and no longer reserved, its
  -- lease ends the lease time after it was last seen, and its grace period the grace time after
  -- the lease.
  pub renew_lease-IsRenewed :
      (secret : String) (w : World p.Bytes) (event : Event) (slot : Slot)
      → (Sessions.renew_lease p s secret w).0 ≡ ok (event, slot)
      → IsRenewed s (digest p s secret) event slot
  unfolding Sessions.renew_lease
  renew_lease-IsRenewed secret w event slot h =
      Gives.at {P = λ x. IsRenewed s (digest p s secret) x.0 x.1}
        (Gives-bind _ λ found. Gives-check _ λ entry q. Gives-check _ λ index q'.
          Gives-if index.deleted (λ _. Gives-fail _)
            (λ _. Gives-renew_attempts 5 (digest p s secret) index))
        w (event, slot) h
