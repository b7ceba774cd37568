-- ===== src/Errors.antt =====
-- The errors of internal/access and internal/store, and `errors.Is` on them.
use nats_guest_access.Prelude.{ℕ, Bool, true, false, ◌||◌, ◌==◌}

-- The errors that some caller tests for with `errors.Is`. The first nine are those of
-- internal/access, the last three those of internal/store: two `not found` and two `conflict`.
pub data Sentinel : Type 0 where
  not_found forbidden conflict at_capacity admission_closed session_expired : Sentinel
  event_paused event_deleted cleanup_pending : Sentinel
  store_not_found store_conflict store_exists : Sentinel

-- The errors that nobody tests for: a failing backend, JSON that does not decode, no random
-- bytes, a token that cannot be signed, no cleaner, a cleaner's error, a partial count,
-- a context that is over, a request to the application that gets no reply or a wrong one, and an
-- identity provider that is not found. `out_of_fuel` is
-- the model's own.
pub data Failure : Type 0 where
  backend decoding randomness signing unconfigured cleaner_failed incomplete : Failure
  cancelled no_reply mismatched unreachable out_of_fuel : Failure

-- `fmt.Errorf("%w: …", e)` is `e`: the text that it adds is left out.
pub data Error : Type 0 where
  sentinel : Sentinel → Error
  failure : Failure → Error
  joined : Error → Error → Error

abbrev tag : Sentinel → ℕ
tag not_found = 0
tag forbidden = 1
tag conflict = 2
tag at_capacity = 3
tag admission_closed = 4
tag session_expired = 5
tag event_paused = 6
tag event_deleted = 7
tag cleanup_pending = 8
tag store_not_found = 9
tag store_conflict = 10
tag store_exists = 11

-- ErrEventPaused wraps ErrAdmissionClosed.
unfoldable pub wraps : Sentinel → Sentinel → Bool
wraps event_paused admission_closed = true
wraps s t = tag s == tag t

-- errors.Is
unfoldable pub is : Error → Sentinel → Bool
unfolding wraps
is (sentinel s) t = wraps s t
is (failure f) t = false
is (joined d e) t = is d t || is e t

pub data Result {ℓ} (A : Type ℓ) : Type ℓ where
  ok : A → Result A
  err : Error → Result A
